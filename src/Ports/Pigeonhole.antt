-- ===== src/Ports/Pigeonhole.antt =====
-- Ports 1, 2, …, k in a list need k places in it.
use gemini_system.Prelude.{
  contains, ℕ, zero, suc, ◌+◌, ◌≤◌, ◌<◌, ◌≡◌, refl, ◌≢◌, true, List, [], ◌∷◌, nat_beq,
  if◌then◌else◌, length, arith,
}

-- Every port from 1 up to, and not with, `bound` is in the list.
abbrev pub Filled : ℕ → List ℕ → Type 0
Filled bound xs = (p : ℕ) → 0 < p → p < bound → contains p xs ≡ true

remove_one : ℕ → List ℕ → List ℕ
remove_one p [] = []
remove_one p (x ∷ xs) = if nat_beq x p then xs else x ∷ remove_one p xs

length-remove_one :
    (p : ℕ) (xs : List ℕ) → contains p xs ≡ true → length (remove_one p xs) + 1 ≡ length xs
unfolding contains remove_one
length-remove_one p [] h = cc
length-remove_one p (x ∷ xs) h = ground (arith, length-remove_one p xs)

contains-remove_one : (p q : ℕ) (xs : List ℕ) → q ≢ p → contains q (remove_one p xs) ≡ contains q xs
unfolding contains remove_one
contains-remove_one p q [] h = refl
contains-remove_one p q (x ∷ xs) h = ground (arith, contains-remove_one p q xs)

pub Filled-le-length : (k : ℕ) (xs : List ℕ) → Filled (suc k) xs → k ≤ length xs
Filled-le-length zero xs h = omega arith
Filled-le-length (suc k) xs h =
    let last = h (suc k) (omega arith) (omega arith) in
    omega (
      arith,
      length-remove_one (suc k) xs last,
      Filled-le-length k (remove_one (suc k) xs)
          λ p pos lt. ground (arith, contains-remove_one (suc k) p xs, h p),
    )

-- One more port in use behind a filled range fills a longer one.
pub Filled-suc : (c : ℕ) (xs : List ℕ) → Filled c xs → contains c xs ≡ true → Filled (c + 1) xs
Filled-suc c xs h last p pos lt = ground (arith, h p)
