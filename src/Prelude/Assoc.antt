-- ===== src/Prelude/Assoc.antt =====
-- `std::unordered_map` as an association list: what the program uses of it, and its laws.
use mathlib.Core.Logic.{inl, inr}
use mathlib.Core.Path.{◌≡◌, refl, subst}
use mathlib.Core.Option.{Option, none, some}
use mathlib.Core.List.{List, [], ◌∷◌}
use native.Mathlib.Omega.{arith}
use gemini_system.Prelude.Lists.{All}
use gemini_system.Prelude.Tests.{if◌then◌else◌, Bool-cases}
use gemini_system.Prelude.Keys.{Keyed, ◌==◌}

abbrev pub Assoc {ℓ κ} : Type ℓ → Type κ → Type (ℓ ⊔ κ)
Assoc K V = List (K × V)

module _ {ℓ κ} {K : Type ℓ} {V : Type κ} ⦃e : Keyed K⦄ where
  -- m.find(k)
  unfoldable pub find : K → Assoc K V → Option V
  find k [] = none
  find k ((j, v) ∷ m) = if j == k then some v else find k m

  -- m[k] = v
  unfoldable pub put : K → V → Assoc K V → Assoc K V
  put k v [] = (k, v) ∷ []
  put k v ((j, w) ∷ m) = if j == k then (j, v) ∷ m else (j, w) ∷ put k v m

  -- m.erase(k)
  unfoldable pub erase : K → Assoc K V → Assoc K V
  erase k [] = []
  erase k ((j, v) ∷ m) = let rest = erase k m in if j == k then rest else (j, v) ∷ rest

  pub find-put :
      (k j : K) (v : V) (m : Assoc K V) → find j (put k v m) ≡ (if k == j then some v else find j m)
  unfolding find put
  find-put k j v [] = refl
  find-put k j v ((i, w) ∷ m) =
      ground (arith, e.agree_iff k j, e.agree_iff i k, e.agree_iff i j, find-put k j v m)

  pub find-erase :
      (k j : K) (m : Assoc K V) → find j (erase k m) ≡ (if k == j then none else find j m)
  unfolding find erase
  find-erase k j [] = ground arith
  find-erase k j ((i, w) ∷ m) =
      ground (arith, e.agree_iff k j, e.agree_iff i k, e.agree_iff i j, find-erase k j m)

  -- No key stands twice, as in a C++ map.
  abbrev pub Distinct : Assoc K V → Type κ
  Distinct [] = Unit
  Distinct ((k, v) ∷ m) = (find k m ≡ none) × Distinct m

  pub put-Distinct : (k : K) (v : V) (m : Assoc K V) → Distinct m → Distinct (put k v m)
  unfolding put find
  put-Distinct k v [] d = (refl, tt)
  put-Distinct k v ((j, w) ∷ m) (fresh, d) =
      ground (arith, e.agree_iff j k, e.agree_iff k j, find-put k j v m, put-Distinct k v m d)

  pub erase-Distinct : (k : K) (m : Assoc K V) → Distinct m → Distinct (erase k m)
  unfolding erase find
  erase-Distinct k [] d = tt
  erase-Distinct k ((j, w) ∷ m) (fresh, d) =
      ground (arith, e.agree_iff j k, e.agree_iff k j, find-erase k j m, erase-Distinct k m d)

module _ {ℓ κ μ} {K : Type ℓ} {V : Type κ} ⦃e : Keyed K⦄ (P : K × V → Type μ) where
  pub find-All : (k : K) (m : Assoc K V) {v : V} → All P m → find k m ≡ some v → P (k, v)
  unfolding find
  find-All k [] a h = cc
  find-All k ((j, w) ∷ m) {v} a h = elim (Bool-cases (j == k)) [
    | inl hit ↦ subst P (ground (arith, e.agree_iff j k)) a.0
    | inr miss ↦ find-All k m a.1 (rw (miss, find) at h)
  ]

  pub put-All : (k : K) (v : V) (m : Assoc K V) → P (k, v) → All P m → All P (put k v m)
  unfolding put
  put-All k v [] p a = (p, tt)
  put-All k v ((j, w) ∷ m) p a = elim (Bool-cases (j == k)) [
    | inl hit ↦ rw hit (subst P (ground (arith, e.agree_iff j k)) p, a.1)
    | inr miss ↦ rw miss (a.0, put-All k v m p a.1)
  ]

  pub erase-All : (k : K) (m : Assoc K V) → All P m → All P (erase k m)
  unfolding erase
  erase-All k [] a = tt
  erase-All k ((j, w) ∷ m) a = elim (Bool-cases (j == k)) [
    | inl hit ↦ rw hit (erase-All k m a.1)
    | inr miss ↦ rw miss (a.0, erase-All k m a.1)
  ]
