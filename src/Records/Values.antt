-- ===== src/Records/Values.antt =====
-- Splitting at a mark and joining with it are inverse to one another.
use mathlib.Core.List.{append_assoc, append-nil}
use gemini_system.Prelude.{
  ℕ, ◌≡◌, refl, ◌∙◌, false, List, [], ◌∷◌, ◌++◌, arith, nat_beq, Bool-cases, inl, inr, All, Text,
  contains,
}
use gemini_system.Records.{join_more, join, split_from, value_mark, split_values, join_values}

-- No byte of the text is the mark.
abbrev pub IsUnmarked : ℕ → Text → Type 0
IsUnmarked mark t = contains mark t ≡ false

module _ (mark : ℕ) where
  join_more-split_from :
      (cs current : Text) → join_more mark (split_from mark cs current) ≡ mark ∷ (current ++ cs)
  unfolding join_more split_from
  join_more-split_from [] current = refl
  join_more-split_from (c ∷ cs) current = elim (Bool-cases (nat_beq c mark)) [
    | inl hit ↦ rw (hit, join_more-split_from cs []) (ground arith)
    | inr miss ↦
        rw (miss, join_more-split_from cs (current ++ c ∷ []), append_assoc current (c ∷ []) cs)
  ]

  pub join-split_from : (cs current : Text) → join mark (split_from mark cs current) ≡ current ++ cs
  unfolding join split_from
  join-split_from [] current = refl
  join-split_from (c ∷ cs) current = elim (Bool-cases (nat_beq c mark)) [
    | inl hit ↦ rw (hit, join_more-split_from cs []) (ground arith)
    | inr miss ↦ rw (miss, join-split_from cs (current ++ c ∷ []), append_assoc current (c ∷ []) cs)
  ]

  split_from-append :
      (v rest current : Text)
      → IsUnmarked mark v
      → split_from mark (v ++ rest) current ≡ split_from mark rest (current ++ v)
  unfolding split_from contains
  split_from-append [] rest current h = rw (append-nil current)
  split_from-append (c ∷ v) rest current h =
      rw (← append_assoc current (c ∷ []) v)
        (ground (arith, split_from-append v rest (current ++ c ∷ [])))

  split_from-join_more :
      (ws : List Text) (current : Text)
      → All (IsUnmarked mark) ws
      → split_from mark (join_more mark ws) current ≡ current ∷ ws
  unfolding split_from join_more
  split_from-join_more [] current all = refl
  split_from-join_more (w ∷ ws) current all =
      rw (split_from-append w (join_more mark ws) [] all.0, split_from-join_more ws w all.1)
        (ground arith)

  pub split_from-join :
      (v : Text) (ws : List Text)
      → All (IsUnmarked mark) (v ∷ ws)
      → split_from mark (join mark (v ∷ ws)) [] ≡ v ∷ ws
  unfolding join
  split_from-join v ws all =
      split_from-append v (join_more mark ws) [] all.0 ∙ split_from-join_more ws v all.1

-- Splitting an attribute into its values and joining them gives the attribute; and one or more
-- values that hold no value mark are given back when they are joined and split.
pub values_round_trip :
    (raw : Text) (v : Text) (ws : List Text)
    → All (IsUnmarked value_mark) (v ∷ ws)
    → (join_values (split_values raw) ≡ raw) × (split_values (join_values (v ∷ ws)) ≡ v ∷ ws)
unfolding split_values
values_round_trip raw v ws all =
    (join-split_from value_mark raw [], split_from-join value_mark v ws all)
