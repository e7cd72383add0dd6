-- ===== src/Scheduler/Turns.antt =====
-- Whose turn it is: `nextRunnableSessionLocked` picks round robin among the runnable sessions.
use gemini_system.Prelude.{
  ℕ, ◌≤◌, ◌<◌, ◌≡◌, refl, true, false, List, [], ◌∷◌, some, nat_eq, arith, ltb, Bool-cases, inl,
  inr, contains, IsSorted, All-contains, ◌⊎◌, subst,
}
use gemini_system.Scheduler.{first_above, pick}

-- The order of turns behind the session served last: the larger numbers from below, then the
-- others from below. `Precedes last a b` says that `a` comes before `b`, or is `b`.
abbrev pub Precedes : ℕ → ℕ → ℕ → Type 0
Precedes last a b = ((last < a) × (b ≤ last)) ⊎ (((last < a) ⊎ (b ≤ last)) × (a ≤ b))

-- `n` is the least entry above `last`; or it is `front`, and no entry is above `last`.
abbrev Chosen : ℕ → ℕ → List ℕ → ℕ → Type 0
Chosen last front ids n =
    ((last < n) × (contains n ids ≡ true) × ((q : ℕ) → contains q ids ≡ true → last < q → n ≤ q))
    ⊎ ((n ≡ front) × ((q : ℕ) → contains q ids ≡ true → q ≤ last))

Chosen-hit :
    (last front id : ℕ) (ids : List ℕ)
    → IsSorted (id ∷ ids)
    → ltb last id ≡ true
    → Chosen last front (id ∷ ids) id
unfolding contains
Chosen-hit last front id ids s h =
    inl (ground arith, ground arith, λ q hq lt. ground (arith, All-contains id q ids s.0))

Chosen-miss :
    (last front id n : ℕ) (ids : List ℕ)
    → ltb last id ≡ false
    → Chosen last front ids n
    → Chosen last front (id ∷ ids) n
unfolding contains
Chosen-miss last front id n ids h (inl (gt, mem, least)) =
    inl (gt, ground arith, λ q hq lt. ground (arith, least q))
Chosen-miss last front id n ids h (inr (e, all)) = inr (e, λ q hq. ground (arith, all q))

first_above-Chosen :
    (last front : ℕ) (ids : List ℕ)
    → IsSorted ids
    → Chosen last front ids (first_above last front ids)
unfolding first_above
first_above-Chosen last front [] s = inr (refl, λ q h. absurd (unfold contains in ground arith))
first_above-Chosen last front (id ∷ ids) s = elim (Bool-cases (ltb last id)) [
  | inl above ↦ rw above (Chosen-hit last front id ids s above)
  | inr below ↦
      rw below (Chosen-miss last front id _ ids below (first_above-Chosen last front ids s.1))
]

contains-head : (id : ℕ) (ids : List ℕ) → contains id (id ∷ ids) ≡ true
unfolding contains
contains-head id ids = ground arith

head-le : (id q : ℕ) (ids : List ℕ) → IsSorted (id ∷ ids) → contains q (id ∷ ids) ≡ true → id ≤ q
unfolding contains
head-le id q ids s h = ground (arith, All-contains id q ids s.0)

Chosen-Precedes :
    (last id n : ℕ) (ids : List ℕ)
    → IsSorted (id ∷ ids)
    → Chosen last id (id ∷ ids) n
    → (contains n (id ∷ ids) ≡ true) × ((q : ℕ) → contains q (id ∷ ids) ≡ true → Precedes last n q)
Chosen-Precedes last id n ids s (inl (gt, mem, least)) = (mem, λ q hq. ground (arith, least q hq))
Chosen-Precedes last id n ids s (inr (e, all)) =
    (rw e (contains-head id ids), λ q hq. ground (arith, all q hq, head-le id q ids s hq))

pub pick_lem :
    (last : ℕ) (ids : List ℕ) (n : ℕ)
    → IsSorted ids
    → pick last ids ≡ some n
    → (contains n ids ≡ true) × ((q : ℕ) → contains q ids ≡ true → Precedes last n q)
unfolding pick
pick_lem last [] n s h = absurd (ground arith)
pick_lem last (id ∷ ids) n s h =
    Chosen-Precedes last id n ids s
      (subst (Chosen last id (id ∷ ids)) (ground arith) (first_above-Chosen last id (id ∷ ids) s))

pub pick-some :
    (last : ℕ) (ids : List ℕ) (q : ℕ) → contains q ids ≡ true → (n : ℕ) × (pick last ids ≡ some n)
unfolding pick contains
pick-some last [] q h = absurd (ground arith)
pick-some last (id ∷ ids) q h = (first_above last id (id ∷ ids), refl)
