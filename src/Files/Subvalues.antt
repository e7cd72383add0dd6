-- ===== src/Files/Subvalues.antt =====
-- What `writeSubvalue` does to the values of an attribute.
use gemini_system.Prelude.{
  ℕ, zero, suc, false, List, [], ◌∷◌, ◌++◌, Text, nat_beq, contains, ◌≡◌, refl, inl, inr,
  Bool-cases, if◌then◌else◌, arith, All, get_elem?, pos,
}
use gemini_system.Records.{value_mark, split_from, split_values, value_at, or_text}
use gemini_system.Records.Values.{IsUnmarked, values_round_trip}
use gemini_system.Files.Attributes.{pad, assign, put_subvalue}

contains-snoc :
    (mark c : ℕ) (t : Text)
    → IsUnmarked mark t
    → nat_beq c mark ≡ false
    → IsUnmarked mark (t ++ c ∷ [])
unfolding contains
contains-snoc mark c [] h k = ground arith
contains-snoc mark c (x ∷ t) h k = ground (arith, contains-snoc mark c t)

contains-nil : (mark : ℕ) → IsUnmarked mark []
unfolding contains
contains-nil mark = refl

split_from-IsUnmarked :
    (mark : ℕ) (cs current : Text)
    → IsUnmarked mark current
    → All (IsUnmarked mark) (split_from mark cs current)
unfolding split_from
split_from-IsUnmarked mark [] current h = (h, tt)
split_from-IsUnmarked mark (c ∷ cs) current h = elim (Bool-cases (nat_beq c mark)) [
  | inl hit ↦ rw hit (h, split_from-IsUnmarked mark cs [] (contains-nil mark))
  | inr miss ↦
      rw miss
        (split_from-IsUnmarked mark cs (current ++ c ∷ []) (contains-snoc mark c current h miss))
]

split_values-IsUnmarked : (raw : Text) → All (IsUnmarked value_mark) (split_values raw)
unfolding split_values
split_values-IsUnmarked raw = split_from-IsUnmarked value_mark raw [] (contains-nil value_mark)

pad-IsUnmarked :
    (mark n : ℕ) (vs : List Text) → All (IsUnmarked mark) vs → All (IsUnmarked mark) (pad n vs)
unfolding pad contains
pad-IsUnmarked mark zero vs all = all
pad-IsUnmarked mark (suc n) [] all = (refl, pad-IsUnmarked mark n [] tt)
pad-IsUnmarked mark (suc n) (v ∷ vs) all = (all.0, pad-IsUnmarked mark n vs all.1)

assign-IsUnmarked :
    (mark idx : ℕ) (value : Text) (vs : List Text)
    → IsUnmarked mark value
    → All (IsUnmarked mark) vs
    → All (IsUnmarked mark) (assign idx value vs)
unfolding assign
assign-IsUnmarked mark idx value [] h all = tt
assign-IsUnmarked mark zero value (v ∷ vs) h all = (h, all.1)
assign-IsUnmarked mark (suc idx) value (v ∷ vs) h all =
    (all.0, assign-IsUnmarked mark idx value vs h all.1)

assign-pad :
    (idx : ℕ) (value : Text) (vs : List Text)
    → (v : Text) × (ws : List Text) × (assign idx value (pad (suc idx) vs) ≡ v ∷ ws)
unfolding assign pad
assign-pad zero value [] = (_, _, refl)
assign-pad zero value (v ∷ vs) = (_, _, refl)
assign-pad (suc idx) value [] = (_, _, refl)
assign-pad (suc idx) value (v ∷ vs) = (_, _, refl)

-- The values are joined and split without loss.
split_values-put_subvalue :
    (idx : ℕ) (value raw : Text)
    → IsUnmarked value_mark value
    → split_values (put_subvalue idx value raw)
      ≡ assign idx value (pad (suc idx) (split_values raw))
unfolding put_subvalue
split_values-put_subvalue idx value raw h =
    let vs = split_values raw in
    let (v, ws, shape) = assign-pad idx value vs in
    let all =
      assign-IsUnmarked value_mark idx value (pad (suc idx) vs) h
        (pad-IsUnmarked value_mark (suc idx) vs (split_values-IsUnmarked raw)) in
    rw shape ((values_round_trip raw v ws (rw shape at all)).1)

get_elem?-assign :
    (idx j : ℕ) (value : Text) (vs : List Text)
    → or_text (get_elem? (assign idx value (pad (suc idx) vs)) j)
      ≡ (if nat_beq j idx then value else or_text (get_elem? vs j))
unfolding assign pad
get_elem?-assign zero zero value [] = ground arith
get_elem?-assign zero (suc j) value [] = ground arith
get_elem?-assign zero zero value (v ∷ vs) = ground arith
get_elem?-assign zero (suc j) value (v ∷ vs) = ground arith
get_elem?-assign (suc idx) zero value [] = ground arith
get_elem?-assign (suc idx) (suc j) value [] = ground (arith, get_elem?-assign idx j value [])
get_elem?-assign (suc idx) zero value (v ∷ vs) = ground arith
get_elem?-assign (suc idx) (suc j) value (v ∷ vs) = ground (arith, get_elem?-assign idx j value vs)

-- The value at `idx`, counted from 0, of the attribute that `writeSubvalue` makes is the new text,
-- where that holds no value mark, and every other value is what it was: one behind the old end is
-- empty.
pub value_at-put_subvalue :
    (idx j : ℕ) (value raw : Text)
    → IsUnmarked value_mark value
    → value_at (put_subvalue idx value raw) (pos (suc j))
      ≡ (if nat_beq j idx then value else value_at raw (pos (suc j)))
unfolding value_at
value_at-put_subvalue idx j value raw h =
    rw (split_values-put_subvalue idx value raw h) (get_elem?-assign idx j value (split_values raw))
