-- ===== src/Prelude/Members.antt =====
-- Membership tests on lists of numbers, and the sort that `std::sort` stands for.
use Prim.Native.Nat.{ℕ, ◌≤◌}
use mathlib.Core.Path.{◌≡◌, refl}
use mathlib.Core.Bool.{Bool, true, false, ◌||◌}
use mathlib.Core.List.{List, [], ◌∷◌}
use native.Mathlib.Omega.{arith}
use gemini_system.Prelude.Tests.{nat_beq, leb, if◌then◌else◌}
use gemini_system.Prelude.Lists.{All}

unfoldable pub contains : ℕ → List ℕ → Bool
contains a [] = false
contains a (x ∷ xs) = nat_beq x a || contains a xs

unfoldable pub insert_sorted : ℕ → List ℕ → List ℕ
insert_sorted a [] = a ∷ []
insert_sorted a (x ∷ xs) = if leb a x then a ∷ (x ∷ xs) else x ∷ insert_sorted a xs

unfoldable pub sort : List ℕ → List ℕ
unfolding insert_sorted
sort [] = []
sort (x ∷ xs) = insert_sorted x (sort xs)

contains-insert_sorted :
    (q a : ℕ) (xs : List ℕ) → contains q (insert_sorted a xs) ≡ (nat_beq a q || contains q xs)
unfolding contains insert_sorted
contains-insert_sorted q a [] = refl
contains-insert_sorted q a (x ∷ xs) = ground (arith, contains-insert_sorted q a xs)

pub contains-sort : (q : ℕ) (xs : List ℕ) → contains q (sort xs) ≡ contains q xs
unfolding contains sort
contains-sort q [] = refl
contains-sort q (x ∷ xs) = ground (arith, contains-insert_sorted q x (sort xs), contains-sort q xs)

-- Each entry is at most every later one.
abbrev pub IsSorted : List ℕ → Type 0
IsSorted [] = Unit {0}
IsSorted (x ∷ xs) = All (λ y. x ≤ y) xs × IsSorted xs

All-le_trans : (a b : ℕ) (xs : List ℕ) → a ≤ b → All (λ y. b ≤ y) xs → All (λ y. a ≤ y) xs
All-le_trans a b [] h all = tt
All-le_trans a b (x ∷ xs) h all = (omega arith, All-le_trans a b xs h all.1)

All-insert_sorted :
    (a x : ℕ) (xs : List ℕ) → x ≤ a → All (λ y. x ≤ y) xs → All (λ y. x ≤ y) (insert_sorted a xs)
unfolding insert_sorted
All-insert_sorted a x [] h all = (h, tt)
All-insert_sorted a x (y ∷ ys) h all = ground (arith, All-insert_sorted a x ys h all.1)

insert_sorted-IsSorted : (a : ℕ) (xs : List ℕ) → IsSorted xs → IsSorted (insert_sorted a xs)
unfolding insert_sorted
insert_sorted-IsSorted a [] s = (tt, tt)
insert_sorted-IsSorted a (x ∷ xs) s =
    ground (arith, insert_sorted-IsSorted a xs s.1, All-insert_sorted a x xs, All-le_trans a x xs)

pub sort-IsSorted : (xs : List ℕ) → IsSorted (sort xs)
unfolding sort
sort-IsSorted [] = tt
sort-IsSorted (x ∷ xs) = insert_sorted-IsSorted x (sort xs) (sort-IsSorted xs)

pub All-contains : (x q : ℕ) (xs : List ℕ) → All (λ y. x ≤ y) xs → contains q xs ≡ true → x ≤ q
unfolding contains
All-contains x q [] all h = absurd (ground arith)
All-contains x q (y ∷ ys) all h = ground (arith, All-contains x q ys all.1)
