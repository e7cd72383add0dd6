-- ===== src/Prelude/Keys.antt =====
-- Decidable equality as an interface, at the numbers and at byte strings.
use Prim.Native.Char.{code}
use Prim.Native.String.{String}
use Prim.Native.Nat.{ℕ}
use mathlib.Core.Path.{◌≡◌, refl}
use mathlib.Core.Logic.{◌↔◌}
use mathlib.Core.Bool.{Bool, true, false, ◌&&◌}
use mathlib.Core.List.{List, [], ◌∷◌}
use native.Mathlib.Omega.{arith}
use gemini_system.Prelude.Tests.{nat_beq, nat_beq_iff}

-- `std::string`: a list of bytes.
abbrev pub Text : Type 0
Text = List ℕ

-- The code points of a literal: its bytes, since every literal is ASCII.
abbrev pub codes : String → Text
codes String.[] = []
codes (String.◌∷◌ c s) = code c ∷ codes s

unfoldable pub text_beq : Text → Text → Bool
text_beq [] [] = true
text_beq [] (b ∷ bs) = false
text_beq (a ∷ as') [] = false
text_beq (a ∷ as') (b ∷ bs) = nat_beq a b && text_beq as' bs

text_beq_to : (a b : Text) → text_beq a b ≡ true → a ≡ b
unfolding text_beq
text_beq_to [] [] h = refl
text_beq_to [] (y ∷ ys) h = cc
text_beq_to (x ∷ xs) [] h = cc
text_beq_to (x ∷ xs) (y ∷ ys) h = ground (arith, text_beq_to xs ys)

text_beq_refl : (a : Text) → text_beq a a ≡ true
unfolding text_beq
text_beq_refl [] = refl
text_beq_refl (x ∷ xs) = ground (arith, text_beq_refl xs)

pub text_beq_iff : (a b : Text) → (text_beq a b ≡ true) ↔ (a ≡ b)
text_beq_iff a b = (text_beq_to a b, λ e. rw e (text_beq_refl b))

-- What a key of a map has: a test that decides whether two keys are the same.
pub record Keyed {κ} (K : Type κ) : Type κ where
  pub agree : K → K → Bool
  pub agree_iff : (k j : K) → (agree k j ≡ true) ↔ (k ≡ j)

instance abbrev pub text_eq : Keyed Text
text_eq = record { agree = text_beq; agree_iff = text_beq_iff }

instance abbrev pub nat_eq : Keyed ℕ
nat_eq = record { agree = nat_beq; agree_iff = nat_beq_iff }

module _ {κ} {K : Type κ} ⦃q : Keyed K⦄ where
  infix 50 ◌==◌
  abbrev pub ◌==◌ : K → K → Bool
  k == j = q.agree k j
