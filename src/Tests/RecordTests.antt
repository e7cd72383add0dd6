-- ===== src/Tests/RecordTests.antt =====
-- Tests of Records.
use gemini_system.Prelude.{
  ◌≡◌, refl, ◌≢◌, false, [], ◌∷◌, ◌++◌, arith, codes, contains, pos, negsuc, Text,
}
use gemini_system.Records.{
  from_raw, to_raw, attribute, set_attribute, value_at, has_value_at, value_mark, split_from,
  number_from,
}
use gemini_system.Records.Lines.{dense, to_raw-from_raw}
use gemini_system.Records.Attributes.{IsOrdered, set_attribute_lem, set_attribute_gap}

abbrev two_values : Text
two_values = codes "RED" ++ value_mark ∷ codes "BLUE"

values :
    (value_at two_values (pos 2) ≡ codes "BLUE")
    × (value_at two_values (pos 0) ≡ [])
    × (has_value_at two_values (pos 3) ≡ false)
    × (value_at two_values (negsuc 0) ≡ [])
unfolding value_at has_value_at split_from
values = (refl, refl, refl, refl)

parsed : from_raw (codes "A\n\nB\n") ≡ dense (codes "A" ∷ ([] ∷ (codes "B" ∷ ([] ∷ []))))
unfolding from_raw
parsed = refl

to_raw-from_raw_example : to_raw (from_raw (codes "A\n\nB\n")) ≡ codes "A\n\nB\n"
to_raw-from_raw_example = to_raw-from_raw (codes "A\n\nB\n")

set_attribute_lem_example :
    (attribute (set_attribute (dense (codes "A" ∷ [])) (pos 2) (codes "X")) (pos 2) ≡ codes "X")
    × (pos 1 ≢ pos 2
        → attribute (set_attribute (dense (codes "A" ∷ [])) (pos 2) (codes "X")) (pos 1)
          ≡ attribute (dense (codes "A" ∷ [])) (pos 1))
    × IsOrdered (set_attribute (dense (codes "A" ∷ [])) (pos 2) (codes "X"))
    × (set_attribute (dense (codes "A" ∷ [])) (pos 0) (codes "X") ≡ dense (codes "A" ∷ []))
    × (set_attribute (dense (codes "A" ∷ [])) (negsuc 1) (codes "X") ≡ dense (codes "A" ∷ []))
unfolding number_from
set_attribute_lem_example =
    set_attribute_lem (dense (codes "A" ∷ [])) 1 (pos 1) (codes "X") (omega arith, tt)

-- Attribute 5 of a record of one attribute comes back as attribute 2.
set_attribute_gap_example :
    from_raw (to_raw (set_attribute (dense (codes "A" ∷ [])) (pos 5) (codes "X")))
    ≡ dense (codes "A" ∷ (codes "X" ∷ []))
unfolding contains
set_attribute_gap_example =
    set_attribute_gap (codes "A") [] 4 (codes "X") (refl, (refl, tt)) (omega arith)
