-- ===== src/Records.antt =====
-- core/filesystem: `RecordAttribute` and `StructuredRecord`, the attributes and values of a record's
-- text. A byte string is a list of bytes, an `int` that may be 0 or negative a `ℤ`, and the
-- `std::map` of attributes an association list in the order of its keys, all of them positive.
pub mod Values
pub mod Lines
pub mod Attributes
use gemini_system.Prelude.{
  ℕ, zero, suc, ◌+◌, Bool, true, false, ◌&&◌, not, List, [], ◌∷◌, ◌++◌, Option, none, some, ltb,
  nat_beq, if◌then◌else◌, length, get_elem?, Text, ℤ, positive,
}

-- 0xFD
abbrev pub value_mark : ℕ
value_mark = 253

abbrev pub newline : ℕ
newline = b'\n'

-- The rounds of the loops of `joinValues` and `toRaw` behind the first: a separator, then the text.
unfoldable pub join_more : ℕ → List Text → Text
join_more mark [] = []
join_more mark (v ∷ vs) = mark ∷ (v ++ join_more mark vs)

unfoldable pub join : ℕ → List Text → Text
unfolding join_more
join mark [] = []
join mark (v ∷ vs) = v ++ join_more mark vs

abbrev pub join_values : List Text → Text
join_values = join value_mark

-- The loop of `splitValues` on the rest of the text and on `current`.
unfoldable pub split_from : ℕ → Text → Text → List Text
split_from mark [] current = current ∷ []
split_from mark (c ∷ cs) current =
    let here = split_from mark cs (current ++ c ∷ []) in
    let next = current ∷ split_from mark cs [] in if nat_beq c mark then next else here

unfoldable pub split_values : Text → List Text
unfolding split_from
split_values raw = split_from value_mark raw []

abbrev pub or_text : Option Text → Text
or_text none = []
or_text (some t) = t

abbrev pub value_in : List Text → Option ℕ → Text
value_in values none = []
value_in values (some zero) = []
value_in values (some (suc idx)) = or_text (get_elem? values idx)

unfoldable pub value_at : Text → ℤ → Text
unfolding split_values
value_at raw value_no = value_in (split_values raw) (positive value_no)

abbrev pub has_value_in : List Text → Option ℕ → Bool
has_value_in values none = false
has_value_in values (some zero) = false
has_value_in values (some (suc idx)) = ltb idx (length values)

unfoldable pub has_value_at : Text → ℤ → Bool
unfolding split_values
has_value_at raw value_no = has_value_in (split_values raw) (positive value_no)

abbrev pub Attributes : Type 0
Attributes = List (ℕ × Text)

pub record StructuredRecord : Type 0 where
  pub attributes : Attributes

abbrev pub empty_record : StructuredRecord
empty_record = record { attributes = [] }

unfoldable pub find_attribute : ℕ → Attributes → Option Text
find_attribute n [] = none
find_attribute n ((k, v) ∷ m) = if nat_beq k n then some v else find_attribute n m

abbrev pub find_positive : Option ℕ → Attributes → Option Text
find_positive none m = none
find_positive (some n) m = find_attribute n m

abbrev pub is_found : Option Text → Bool
is_found none = false
is_found (some t) = true

unfoldable pub has_attribute : StructuredRecord → ℤ → Bool
has_attribute r attribute_no = is_found (find_positive (positive attribute_no) r.attributes)

-- A missing attribute reads as the empty text.
unfoldable pub attribute : StructuredRecord → ℤ → Text
attribute r attribute_no = or_text (find_positive (positive attribute_no) r.attributes)

-- `attributes_[attributeNo] = …`, which keeps the keys in order.
unfoldable pub put_attribute : ℕ → Text → Attributes → Attributes
put_attribute n v [] = (n, v) ∷ []
put_attribute n v ((k, w) ∷ m) =
    if nat_beq k n
    then (k, v) ∷ m
    else if ltb n k
    then (n, v) ∷ ((k, w) ∷ m)
    else (k, w) ∷ put_attribute n v m

abbrev pub put_positive : Option ℕ → Text → Attributes → Attributes
put_positive none v m = m
put_positive (some n) v m = put_attribute n v m

unfoldable pub set_attribute : StructuredRecord → ℤ → Text → StructuredRecord
set_attribute r attribute_no v = record {
  attributes = put_positive (positive attribute_no) v r.attributes;
}

abbrev pub texts : Attributes → List Text
texts [] = []
texts ((k, v) ∷ m) = v ∷ texts m

unfoldable pub to_raw : StructuredRecord → Text
unfolding join
to_raw r = join newline (texts r.attributes)

abbrev pub last_line : Text → List Text
last_line [] = []
last_line (c ∷ cs) = (c ∷ cs) ∷ []

-- The lines that `std::getline` gives: the text behind the last newline is a line only if it is not
-- empty.
unfoldable pub lines_from : Text → Text → List Text
lines_from [] current = last_line current
lines_from (c ∷ cs) current =
    let here = lines_from cs (current ++ c ∷ []) in
    let next = current ∷ lines_from cs [] in if nat_beq c newline then next else here

-- `!raw.empty() && raw.back() == '\n'`
unfoldable pub ends_in_newline : Text → Bool
ends_in_newline [] = false
ends_in_newline (c ∷ []) = nat_beq c newline
ends_in_newline (c ∷ (d ∷ cs)) = ends_in_newline (d ∷ cs)

-- `attrs[attrNo++] = …` for each line, from `attrNo` on.
unfoldable pub number_from : ℕ → List Text → Attributes
number_from n [] = []
number_from n (t ∷ ts) = (n, t) ∷ number_from (n + 1) ts

unfoldable pub from_raw : Text → StructuredRecord
unfolding lines_from ends_in_newline number_from
from_raw raw =
    let lines = lines_from raw [] in
    record { attributes = number_from 1 (if ends_in_newline raw then lines ++ [] ∷ [] else lines) }
