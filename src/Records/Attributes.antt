-- ===== src/Records/Attributes.antt =====
-- Writing one attribute: what is read back from the record, and what from its text.
use gemini_system.Prelude.{
  ℕ, zero, suc, ◌+◌, ◌≤◌, ◌<◌, ◌≡◌, ◌≢◌, refl, ◌∙◌, sym, ap, List, [], ◌∷◌, ◌++◌, none, some, arith,
  nat_beq, nat_beq_iff, if◌then◌else◌, All, Text, ℤ, pos, negsuc, length,
}
use gemini_system.Records.{
  newline, Attributes, StructuredRecord, texts, to_raw, number_from, from_raw, find_attribute,
  attribute, set_attribute, put_attribute, join,
}
use gemini_system.Records.Values.{IsUnmarked}
use gemini_system.Records.Lines.{dense, to_raw-dense, from_raw-to_raw-dense}

-- The keys rise along the list and lie above the bound.
abbrev pub Above : ℕ → Attributes → Type 0
Above n [] = Unit {0}
Above n ((k, v) ∷ m) = (n < k) × Above k m

-- The map is in the order of its keys, which are positive.
abbrev pub IsOrdered : StructuredRecord → Type 0
IsOrdered r = Above 0 r.attributes

find_attribute-below : (n k : ℕ) (m : Attributes) → Above k m → n ≤ k → find_attribute n m ≡ none
unfolding find_attribute
find_attribute-below n k [] a h = refl
find_attribute-below n k ((j, v) ∷ m) a h = ground (arith, find_attribute-below n j m a.1)

find_attribute-put_attribute :
    (n j b : ℕ) (v : Text) (m : Attributes)
    → Above b m
    → find_attribute j (put_attribute n v m) ≡ (if nat_beq n j then some v else find_attribute j m)
unfolding find_attribute put_attribute
find_attribute-put_attribute n j b v [] a = refl
find_attribute-put_attribute n j b v ((k, w) ∷ m) a =
    ground (arith, find_attribute-put_attribute n j k v m a.1, find_attribute-below n k m a.1)

put_attribute-Above :
    (b n : ℕ) (v : Text) (m : Attributes) → b < n → Above b m → Above b (put_attribute n v m)
unfolding put_attribute
put_attribute-Above b n v [] h a = (h, tt)
put_attribute-Above b n v ((k, w) ∷ m) h a = ground (arith, put_attribute-Above k n v m)

set_attribute-IsOrdered :
    (r : StructuredRecord) (n : ℤ) (v : Text) → IsOrdered r → IsOrdered (set_attribute r n v)
unfolding set_attribute
set_attribute-IsOrdered r (pos zero) v o = o
set_attribute-IsOrdered r (pos (suc n)) v o =
    put_attribute-Above 0 (suc n) v r.attributes (omega arith) o
set_attribute-IsOrdered r (negsuc n) v o = o

-- Writing attribute n makes it read as the new text, leaves every other attribute as it was, and
-- keeps the order; with a number below 1 the record is left as it was.
pub set_attribute_lem :
    (r : StructuredRecord) (n : ℕ) (m : ℤ) (v : Text)
    → IsOrdered r
    → (attribute (set_attribute r (pos (suc n)) v) (pos (suc n)) ≡ v)
      × (m ≢ pos (suc n) → attribute (set_attribute r (pos (suc n)) v) m ≡ attribute r m)
      × IsOrdered (set_attribute r (pos (suc n)) v)
      × (set_attribute r (pos 0) v ≡ r)
      × (set_attribute r (negsuc n) v ≡ r)
unfolding set_attribute attribute
set_attribute_lem r n m v o = (
  ground (
    arith,
    find_attribute-put_attribute (suc n) (suc n) 0 v r.attributes o,
    nat_beq_iff (suc n) (suc n),
  ),
  other m,
  set_attribute-IsOrdered r (pos (suc n)) v o,
  refl,
  refl,
)
  where
    other :
        (m : ℤ) → m ≢ pos (suc n) → attribute (set_attribute r (pos (suc n)) v) m ≡ attribute r m
    other (pos zero) ne = refl
    other (pos (suc k)) ne =
        let far : suc n ≢ suc k = λ e. ne (ap pos (sym e)) in
        ground (
          arith,
          find_attribute-put_attribute (suc n) (suc k) 0 v r.attributes o,
          nat_beq_iff (suc n) (suc k),
        )
    other (negsuc k) ne = refl

texts-put_attribute_beyond :
    (k n : ℕ) (v : Text) (ts : List Text)
    → k + length ts ≤ n
    → texts (put_attribute n v (number_from k ts)) ≡ ts ++ v ∷ []
unfolding put_attribute number_from
texts-put_attribute_beyond k n v [] h = refl
texts-put_attribute_beyond k n v (t ∷ ts) h =
    ground (arith, texts-put_attribute_beyond (k + 1) n v ts)

to_raw-set_attribute_beyond :
    (ts : List Text) (n : ℕ) (v : Text)
    → length ts < suc n
    → to_raw (set_attribute (dense ts) (pos (suc n)) v) ≡ join newline (ts ++ v ∷ [])
unfolding set_attribute to_raw
to_raw-set_attribute_beyond ts n v h =
    ap (join newline) (texts-put_attribute_beyond 1 (suc n) v ts (omega arith))

-- A text has no room for a gap: when an attribute beyond the next free number is written, and the
-- record is printed and read again, the new text stands at the next free number instead.
pub set_attribute_gap :
    (t : Text) (ts : List Text) (n : ℕ) (v : Text)
    → All (IsUnmarked newline) (t ∷ (ts ++ v ∷ []))
    → length (t ∷ ts) < suc n
    → from_raw (to_raw (set_attribute (dense (t ∷ ts)) (pos (suc n)) v))
      ≡ dense (t ∷ (ts ++ v ∷ []))
set_attribute_gap t ts n v all h =
    ap from_raw
      (to_raw-set_attribute_beyond (t ∷ ts) n v h ∙ sym (to_raw-dense (t ∷ (ts ++ v ∷ []))))
    ∙ from_raw-to_raw-dense t (ts ++ v ∷ []) all (ne ts)
  where
    ne : (us : List Text) → (t ∷ (us ++ v ∷ [])) ≢ ([] ∷ [])
    ne [] = cc
    ne (u ∷ us) = cc
