-- ===== src/Files/Attributes.antt =====
-- `readAttributeValue`, `readSubvalue`, `writeAttributeValue` and `writeSubvalue`.
use gemini_system.Prelude.{ℕ, zero, suc, List, [], ◌∷◌, Option, none, some, Text, ℤ, positive}
use gemini_system.Records.{
  StructuredRecord, empty_record, from_raw, to_raw, attribute, set_attribute, value_at,
  split_values, join_values,
}
use gemini_system.Files.State.{invalid_subvalue_index, ok, err, Exec, Query, and_then, after_query}
use gemini_system.Files.Items.{Record, new_record, read, write}

abbrev pub attribute_of : ℤ → Option Record → Option Text
attribute_of attribute_no none = none
attribute_of attribute_no (some r) = some (attribute (from_raw r.value) attribute_no)

unfoldable pub read_attribute_value : Text → Text → ℤ → Query (Option Text)
unfolding read from_raw attribute
read_attribute_value file rec attribute_no fs =
    and_then (read file rec fs) (λ found. ok (attribute_of attribute_no found))

abbrev pub subvalue_of : ℤ → ℤ → Option Record → Option Text
subvalue_of attribute_no value_index none = none
subvalue_of attribute_no value_index (some r) =
    some (value_at (attribute (from_raw r.value) attribute_no) value_index)

unfoldable pub read_subvalue : Text → Text → ℤ → ℤ → Query (Option Text)
unfolding read from_raw attribute value_at
read_subvalue file rec attribute_no value_index fs =
    and_then (read file rec fs) (λ found. ok (subvalue_of attribute_no value_index found))

abbrev pub existing : Option Record → StructuredRecord
existing none = empty_record
existing (some r) = from_raw r.value

abbrev pub write_structured : Text → Text → StructuredRecord → Exec (Unit {0})
write_structured file rec structured = write file (new_record rec (to_raw structured))

unfoldable pub write_attribute_value : Text → Text → ℤ → Text → Exec (Unit {0})
unfolding read write from_raw to_raw set_attribute
write_attribute_value file rec attribute_no value fs =
    after_query (read file rec fs) fs
      (λ found. write_structured file rec (set_attribute (existing found) attribute_no value) fs)

-- `resize`, where the vector grows.
unfoldable pub pad : ℕ → List Text → List Text
pad zero vs = vs
pad (suc n) [] = [] ∷ pad n []
pad (suc n) (v ∷ vs) = v ∷ pad n vs

-- values[idx] = value
unfoldable pub assign : ℕ → Text → List Text → List Text
assign idx value [] = []
assign zero value (v ∷ vs) = value ∷ vs
assign (suc idx) value (v ∷ vs) = v ∷ assign idx value vs

-- The attribute with its value at `idx`, counted from 0, replaced.
unfoldable pub put_subvalue : ℕ → Text → Text → Text
unfolding pad assign split_values
put_subvalue idx value raw = join_values (assign idx value (pad (suc idx) (split_values raw)))

abbrev pub with_subvalue : StructuredRecord → ℤ → ℕ → Text → StructuredRecord
with_subvalue structured attribute_no idx value =
    set_attribute structured attribute_no
      (put_subvalue idx value (attribute structured attribute_no))

abbrev pub write_subvalue_at : Text → Text → ℤ → Option ℕ → Text → Exec (Unit {0})
write_subvalue_at file rec attribute_no none value fs = (err invalid_subvalue_index, fs)
write_subvalue_at file rec attribute_no (some zero) value fs = (err invalid_subvalue_index, fs)
write_subvalue_at file rec attribute_no (some (suc idx)) value fs =
    after_query (read file rec fs) fs (λ found.
      write_structured file rec (with_subvalue (existing found) attribute_no idx value) fs)

unfoldable pub write_subvalue : Text → Text → ℤ → ℤ → Text → Exec (Unit {0})
unfolding read write from_raw to_raw attribute set_attribute put_subvalue
write_subvalue file rec attribute_no value_index value =
    write_subvalue_at file rec attribute_no (positive value_index) value
