-- ===== src/Records/Lines.antt =====
-- The text of a record and its attributes: parse and print.
use gemini_system.Prelude.{
  ℕ, zero, suc, ◌+◌, ◌≡◌, ◌≢◌, refl, ap, List, [], ◌∷◌, ◌++◌, arith, if◌then◌else◌, All, Text, pos,
  negsuc, get_elem?,
}
use gemini_system.Records.{
  join_more, join, split_from, newline, StructuredRecord, texts, to_raw, last_line, lines_from,
  ends_in_newline, number_from, from_raw, or_text, find_attribute, attribute,
}
use gemini_system.Records.Values.{IsUnmarked, join-split_from, split_from-join}

-- The attributes 1, 2, … with these texts.
abbrev pub dense : List Text → StructuredRecord
dense ts = record { attributes = number_from 1 ts }

last_line-snoc : (current : Text) (c : ℕ) → last_line (current ++ c ∷ []) ≡ (current ++ c ∷ []) ∷ []
last_line-snoc [] c = refl
last_line-snoc (d ∷ current) c = refl

-- The lines of a text that is not empty, with the one that `fromRaw` adds, are all its pieces.
lines-split_from :
    (c : ℕ) (cs current : Text)
    → (if ends_in_newline (c ∷ cs)
        then lines_from (c ∷ cs) current ++ [] ∷ []
        else lines_from (c ∷ cs) current)
      ≡ split_from newline (c ∷ cs) current
unfolding ends_in_newline lines_from split_from
lines-split_from c [] current = ground (arith, last_line-snoc current c)
lines-split_from c (d ∷ cs) current =
    ground (arith, lines-split_from d cs [], lines-split_from d cs (current ++ c ∷ []))

pub texts-number_from : (n : ℕ) (ts : List Text) → texts (number_from n ts) ≡ ts
unfolding number_from
texts-number_from n [] = refl
texts-number_from n (t ∷ ts) = ap {B = List Text} (λ r. t ∷ r) (texts-number_from (n + 1) ts)

from_raw-dense : (c : ℕ) (cs : Text) → from_raw (c ∷ cs) ≡ dense (split_from newline (c ∷ cs) [])
unfolding from_raw
from_raw-dense c cs = ap dense (lines-split_from c cs [])

-- Reading a record's text and printing its attributes gives the text back, byte for byte.
pub to_raw-from_raw : (raw : Text) → to_raw (from_raw raw) ≡ raw
to_raw-from_raw [] = unfold to_raw from_raw join in refl
to_raw-from_raw (c ∷ cs) = rw (from_raw-dense c cs) (
    unfold to_raw in
    rw (texts-number_from 1 (split_from newline (c ∷ cs) []), join-split_from newline (c ∷ cs) []))

pub to_raw-dense : (ts : List Text) → to_raw (dense ts) ≡ join newline ts
unfolding to_raw
to_raw-dense ts = ap (join newline) (texts-number_from 1 ts)

join-ne-nil : (t : Text) (ts : List Text) → (t ∷ ts) ≢ ([] ∷ []) → join newline (t ∷ ts) ≢ []
unfolding join join_more
join-ne-nil [] [] h = absurd (h refl)
join-ne-nil (c ∷ t) ts h = cc
join-ne-nil [] (u ∷ ts) h = cc

from_raw-split : (raw : Text) → raw ≢ [] → from_raw raw ≡ dense (split_from newline raw [])
from_raw-split [] h = absurd (h refl)
from_raw-split (c ∷ cs) h = from_raw-dense c cs

-- A record whose attributes are numbered 1, 2, … with no gap, none of which holds a newline, is read
-- back from its printed text, unless its only attribute is the empty text.
pub from_raw-to_raw-dense :
    (t : Text) (ts : List Text)
    → All (IsUnmarked newline) (t ∷ ts)
    → (t ∷ ts) ≢ ([] ∷ [])
    → from_raw (to_raw (dense (t ∷ ts))) ≡ dense (t ∷ ts)
from_raw-to_raw-dense t ts all h = rw (
  to_raw-dense (t ∷ ts),
  from_raw-split (join newline (t ∷ ts)) (join-ne-nil t ts h),
  split_from-join newline t ts all,
)

find_attribute-number_from :
    (k i n : ℕ) (ts : List Text) → n ≡ k + i → find_attribute n (number_from k ts) ≡ get_elem? ts i
unfolding find_attribute number_from
find_attribute-number_from k i n [] h = refl
find_attribute-number_from k zero n (t ∷ ts) h = ground arith
find_attribute-number_from k (suc i) n (t ∷ ts) h =
    ground (arith, find_attribute-number_from (k + 1) i n ts (omega arith))

-- In a text that is not empty, attribute n is the n-th piece between newlines, and empty if there
-- are fewer; no attribute has a number below 1.
pub attribute-from_raw :
    (c : ℕ) (cs : Text) (n : ℕ)
    → (attribute (from_raw (c ∷ cs)) (pos (suc n))
        ≡ or_text (get_elem? (split_from newline (c ∷ cs) []) n))
      × (attribute (from_raw (c ∷ cs)) (pos 0) ≡ [])
      × (attribute (from_raw (c ∷ cs)) (negsuc n) ≡ [])
attribute-from_raw c cs n = rw (from_raw-dense c cs) (
    unfold attribute in
    (
      ap or_text
          (find_attribute-number_from 1 n (suc n) (split_from newline (c ∷ cs) []) (omega arith)),
      refl,
      refl,
    ))
