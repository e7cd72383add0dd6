-- ===== src/Vm/LoopNumbers.antt =====
-- The numbers that the variable of a FOR loop goes through.
use gemini_system.Prelude.{
  ℕ, zero, suc, ◌+◌, ◌-◌, ◌*◌, ◌≤◌, Bool, true, false, ◌≡◌, refl, subst, ltb, ℤ, pos, negsuc,
  fits_int, is_zero_ℤ, ◌+ℤ◌, arith,
}
use gemini_system.Vm.Machine.{ForFrame}
use gemini_system.Vm.Control.{is_done}

-- A distance upwards or downwards.
abbrev pub along : Bool → ℕ → ℤ
along true k = pos k
along false zero = pos 0
along false (suc k) = negsuc k

pub +ℤ-along-along :
    (up : Bool) (a : ℤ) (m n : ℕ) → (a +ℤ along up m) +ℤ along up n ≡ a +ℤ along up (m + n)
unfolding ◌+ℤ◌
+ℤ-along-along true (pos a) m n = ground arith
+ℤ-along-along true (negsuc a) m n = ground arith
+ℤ-along-along false (pos a) zero n = ground arith
+ℤ-along-along false (pos a) (suc m) zero = ground arith
+ℤ-along-along false (pos a) (suc m) (suc n) = ground arith
+ℤ-along-along false (negsuc a) zero n = ground arith
+ℤ-along-along false (negsuc a) (suc m) zero = ground arith
+ℤ-along-along false (negsuc a) (suc m) (suc n) = ground arith

-- A loop goes by `suc d`, and its limit is `gap` on from where its variable is: whether one more
-- step passes the limit.
pub is_done_lem :
    (up : Bool) (frame : ForFrame) (cur : ℤ) (gap d : ℕ)
    → frame.step ≡ along up (suc d)
    → frame.limit ≡ cur +ℤ along up gap
    → is_done frame (cur +ℤ frame.step) ≡ ltb gap (suc d)
unfolding ◌+ℤ◌
is_done_lem true frame (pos a) gap d s l = rw (s, l) (ground arith)
is_done_lem true frame (negsuc a) gap d s l = rw (s, l) (ground arith)
is_done_lem false frame (pos a) zero d s l = rw (s, l) (ground arith)
is_done_lem false frame (pos a) (suc gap) d s l = rw (s, l) (ground arith)
is_done_lem false frame (negsuc a) zero d s l = rw (s, l) (ground arith)
is_done_lem false frame (negsuc a) (suc gap) d s l = rw (s, l) (ground arith)

pub fits_int-between :
    (up : Bool) (a : ℤ) (m n : ℕ)
    → m ≤ n
    → fits_int a ≡ true
    → fits_int (a +ℤ along up n) ≡ true
    → fits_int (a +ℤ along up m) ≡ true
unfolding ◌+ℤ◌
fits_int-between true (pos a) m n le low high = ground arith
fits_int-between true (negsuc a) m n le low high = ground arith
fits_int-between false (pos a) zero n le low high = ground arith
fits_int-between false (pos a) (suc m) zero le low high = absurd (omega arith)
fits_int-between false (pos a) (suc m) (suc n) le low high = ground arith
fits_int-between false (negsuc a) zero n le low high = ground arith
fits_int-between false (negsuc a) (suc m) zero le low high = absurd (omega arith)
fits_int-between false (negsuc a) (suc m) (suc n) le low high = ground arith

pub is_zero_ℤ-along : (up : Bool) (d : ℕ) → is_zero_ℤ (along up (suc d)) ≡ false
is_zero_ℤ-along true d = refl
is_zero_ℤ-along false d = refl

pub +ℤ-along_zero : (up : Bool) (a : ℤ) → a ≡ a +ℤ along up 0
unfolding ◌+ℤ◌
+ℤ-along_zero true (pos a) = ground arith
+ℤ-along_zero true (negsuc a) = ground arith
+ℤ-along_zero false (pos a) = ground arith
+ℤ-along_zero false (negsuc a) = ground arith

mul_le-add : (j e c : ℕ) → j * c ≤ (j + e) * c
mul_le-add j e c = omega arith

pub mul_mono : (j k c : ℕ) → j ≤ k → j * c ≤ k * c
mul_mono j k c le =
    let split : j + (k - j) ≡ k = omega arith in
    subst (λ m. j * c ≤ m * c) split (mul_le-add j (k - j) c)
