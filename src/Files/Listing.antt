-- ===== src/Files/Listing.antt =====
-- The listing of a file: in order, without repetition, and with the names of the records only; and
-- the cursor over it.
use gemini_system.Prelude.{
  true, false, ◌&&◌, ◌||◌, List, [], ◌∷◌, Text, text_beq, text_beq_iff, ◌≡◌, refl, inl, inr,
  Bool-cases, arith, All,
}
use gemini_system.Files.Host.{entries, list_directory, is_valid_name}
use gemini_system.Files.RecordNames.{contains_text, has_record, contains_text-record_names}
use gemini_system.Files.State.{FileSystem}
use gemini_system.Files.Handles.{
  FileHandle, text_leb, insert_text, sort_texts, keep_first, unique, record_names, list_records,
}

text_leb_total : (a b : Text) → text_leb a b ≡ false → text_leb b a ≡ true
unfolding text_leb
text_leb_total [] b h = cc
text_leb_total (x ∷ xs) [] h = refl
text_leb_total (x ∷ xs) (y ∷ ys) h = ground (arith, text_leb_total xs ys)

text_leb_trans : (a b c : Text) → text_leb a b ≡ true → text_leb b c ≡ true → text_leb a c ≡ true
unfolding text_leb
text_leb_trans [] b c h k = refl
text_leb_trans (x ∷ xs) [] c h k = cc
text_leb_trans (x ∷ xs) (y ∷ ys) [] h k = cc
text_leb_trans (x ∷ xs) (y ∷ ys) (z ∷ zs) h k = ground (arith, text_leb_trans xs ys zs)

text_leb_antisym : (a b : Text) → text_leb a b ≡ true → text_leb b a ≡ true → text_beq a b ≡ true
unfolding text_leb text_beq
text_leb_antisym [] [] h k = refl
text_leb_antisym [] (y ∷ ys) h k = cc
text_leb_antisym (x ∷ xs) [] h k = cc
text_leb_antisym (x ∷ xs) (y ∷ ys) h k = ground (arith, text_leb_antisym xs ys)

-- Each text is at most every later one.
abbrev IsInOrder : List Text → Type 0
IsInOrder [] = Unit {0}
IsInOrder (x ∷ xs) = All (λ y. text_leb x y ≡ true) xs × IsInOrder xs

-- Each text is below every later one.
abbrev pub IsAscending : List Text → Type 0
IsAscending [] = Unit {0}
IsAscending (x ∷ xs) = All (λ y. text_leb y x ≡ false) xs × IsAscending xs

All-below :
    (a b : Text) (xs : List Text)
    → text_leb a b ≡ true
    → All (λ y. text_leb b y ≡ true) xs
    → All (λ y. text_leb a y ≡ true) xs
All-below a b [] h all = tt
All-below a b (x ∷ xs) h all = (text_leb_trans a b x h all.0, All-below a b xs h all.1)

All-insert_text :
    (a x : Text) (xs : List Text)
    → text_leb x a ≡ true
    → All (λ y. text_leb x y ≡ true) xs
    → All (λ y. text_leb x y ≡ true) (insert_text a xs)
unfolding insert_text
All-insert_text a x [] h all = (h, tt)
All-insert_text a x (y ∷ ys) h all = elim (Bool-cases (text_leb a y)) [
  | inl below ↦ rw below (h, all)
  | inr above ↦ rw above (all.0, All-insert_text a x ys h all.1)
]

insert_text-IsInOrder : (a : Text) (xs : List Text) → IsInOrder xs → IsInOrder (insert_text a xs)
unfolding insert_text
insert_text-IsInOrder a [] s = (tt, tt)
insert_text-IsInOrder a (x ∷ xs) s = elim (Bool-cases (text_leb a x)) [
  | inl below ↦ rw below ((below, All-below a x xs below s.0), s)
  | inr above ↦
      rw above
        (All-insert_text a x xs (text_leb_total a x above) s.0, insert_text-IsInOrder a xs s.1)
]

sort_texts-IsInOrder : (xs : List Text) → IsInOrder (sort_texts xs)
unfolding sort_texts
sort_texts-IsInOrder [] = tt
sort_texts-IsInOrder (x ∷ xs) = insert_text-IsInOrder x (sort_texts xs) (sort_texts-IsInOrder xs)

module _ (P : Text → Type 0) where
  keep_first-All : (x : Text) (ys : List Text) → P x → All P ys → All P (keep_first x ys)
  keep_first-All x [] p ps = (p, tt)
  keep_first-All x (y ∷ ys) p ps = elim (Bool-cases (text_beq x y)) [
    | inl same ↦ rw same ps
    | inr differ ↦ rw differ (p, ps)
  ]

  unique-All : (xs : List Text) → All P xs → All P (unique xs)
  unfolding unique
  unique-All [] all = tt
  unique-All (x ∷ xs) all = keep_first-All x (unique xs) all.0 (unique-All xs all.1)

All-above :
    (x y : Text) (ys : List Text)
    → text_leb x y ≡ true
    → All (λ z. text_leb z y ≡ false) ys
    → All (λ z. text_leb z x ≡ false) ys
All-above x y [] h all = tt
All-above x y (z ∷ zs) h all = (ground (arith, text_leb_trans z x y), All-above x y zs h all.1)

keep_first-IsAscending :
    (x : Text) (ys : List Text)
    → All (λ y. text_leb x y ≡ true) ys
    → IsAscending ys
    → IsAscending (keep_first x ys)
keep_first-IsAscending x [] all s = (tt, tt)
keep_first-IsAscending x (y ∷ ys) all s = elim (Bool-cases (text_beq x y)) [
  | inl same ↦ rw same s
  | inr differ ↦
      let above : text_leb y x ≡ false = ground (arith, text_leb_antisym x y) in
      rw differ ((above, All-above x y ys all.0 s.0), s)
]

unique-IsAscending : (xs : List Text) → IsInOrder xs → IsAscending (unique xs)
unfolding unique
unique-IsAscending [] s = tt
unique-IsAscending (x ∷ xs) s =
    keep_first-IsAscending x (unique xs) (unique-All (λ y. text_leb x y ≡ true) xs s.0)
      (unique-IsAscending xs s.1)

contains_text-insert_text :
    (q a : Text) (xs : List Text)
    → contains_text q (insert_text a xs) ≡ (text_beq a q || contains_text q xs)
unfolding contains_text insert_text
contains_text-insert_text q a [] = refl
contains_text-insert_text q a (x ∷ xs) = ground (arith, contains_text-insert_text q a xs)

contains_text-sort_texts :
    (q : Text) (xs : List Text) → contains_text q (sort_texts xs) ≡ contains_text q xs
unfolding contains_text sort_texts
contains_text-sort_texts q [] = refl
contains_text-sort_texts q (x ∷ xs) =
    rw (contains_text-insert_text q x (sort_texts xs), contains_text-sort_texts q xs)

contains_text-keep_first :
    (q x : Text) (ys : List Text)
    → contains_text q (keep_first x ys) ≡ (text_beq x q || contains_text q ys)
unfolding contains_text
contains_text-keep_first q x [] = refl
contains_text-keep_first q x (y ∷ ys) = elim (Bool-cases (text_beq x y)) [
  | inl same ↦ ground (arith, text_beq_iff x y)
  | inr differ ↦ rw differ
]

contains_text-unique :
    (q : Text) (xs : List Text) → contains_text q (unique xs) ≡ contains_text q xs
unfolding contains_text unique
contains_text-unique q [] = refl
contains_text-unique q (x ∷ xs) =
    rw (contains_text-keep_first q x (unique xs), contains_text-unique q xs)

-- Where the host reads the directory, a listing is strictly ascending, so that no name stands twice.
-- It holds a name exactly where the name is valid and the directory has a file of that name with the
-- extension .item, .bas or .proc.
pub list_records_lem :
    (handle : FileHandle) (fs : FileSystem)
    → fs.host.faults list_directory handle.name [] ≡ false
    → IsAscending (list_records handle fs)
      × ((rec : Text)
          → contains_text rec (list_records handle fs)
            ≡ (is_valid_name rec && has_record (entries fs.host handle.name) rec))
unfolding list_records
list_records_lem handle fs calm =
    let m = entries fs.host handle.name in
    let names = record_names m in
    (
      rw calm (unique-IsAscending (sort_texts names) (sort_texts-IsInOrder names)),
      λ rec.
          rw (calm, contains_text-unique rec (sort_texts names), contains_text-sort_texts rec names)
            (contains_text-record_names rec m),
    )
