-- ===== src/Files/RecordNames.antt =====
-- Which names the loop of `listRecords` keeps: the file name of a record is the record's name and one
-- of the three extensions.
use gemini_system.Prelude.{
  Bool, true, false, ◌&&◌, ◌||◌, List, [], ◌∷◌, ◌++◌, Text, text_beq, text_eq, text_beq_iff, ◌≡◌,
  refl, ◌∙◌, ap, sym, inl, inr, Bool-cases, nat_beq, arith,
}
use gemini_system.Prelude.Assoc.{Assoc, find}
use gemini_system.Files.Host.{
  is_there, is_empty, is_valid_name, is_known_extension, item_extension, bas_extension,
  proc_extension,
}
use gemini_system.Files.Handles.{split_extension, is_record, record_names}

unfoldable pub contains_text : Text → List Text → Bool
contains_text q [] = false
contains_text q (x ∷ xs) = text_beq x q || contains_text q xs

split_extension-join : (name : Text) → (split_extension name).0 ++ (split_extension name).1 ≡ name
unfolding split_extension
split_extension-join [] = refl
split_extension-join (c ∷ cs) =
    elim (Bool-cases (is_empty (split_extension cs).1 && nat_beq c b'.')) [
      | inl dot ↦ rw dot refl
      | inr inside ↦ rw inside (ap (λ s. c ∷ s) (split_extension-join cs))
    ]

-- The extension is the part of the name from its last dot.
split_extension-append :
    (name ext : Text)
    → split_extension ext ≡ ([], ext)
    → is_empty ext ≡ false
    → split_extension (name ++ ext) ≡ (name, ext)
unfolding split_extension
split_extension-append [] ext h some_ext = h
split_extension-append (c ∷ cs) ext h some_ext =
    rw (split_extension-append cs ext h some_ext, some_ext) refl

-- The entry is the file of the record: its name and one of the extensions.
abbrev pub is_file_of : Text → Text → Bool
is_file_of rec entry =
    text_beq entry (rec ++ item_extension)
    || (text_beq entry (rec ++ bas_extension) || text_beq entry (rec ++ proc_extension))

is_known_extension-cases :
    (rec ext : Text) → is_known_extension ext ≡ true → is_file_of rec (rec ++ ext) ≡ true
unfolding is_known_extension
is_known_extension-cases rec ext h = ground (
  arith,
  text_beq_iff ext item_extension,
  text_beq_iff ext bas_extension,
  text_beq_iff ext proc_extension,
  text_beq_iff (rec ++ ext) (rec ++ item_extension),
  text_beq_iff (rec ++ ext) (rec ++ bas_extension),
  text_beq_iff (rec ++ ext) (rec ++ proc_extension),
)

is_record-is_file_of :
    (rec entry : Text)
    → is_record (split_extension entry) && text_beq (split_extension entry).0 rec ≡ true
    → is_valid_name rec && is_file_of rec entry ≡ true
is_record-is_file_of rec entry h =
    let same : (split_extension entry).0 ≡ rec =
      ground (arith, text_beq_iff (split_extension entry).0 rec) in
    let whole : entry ≡ rec ++ (split_extension entry).1 =
      sym (split_extension-join entry) ∙ ap (λ s. s ++ (split_extension entry).1) same in
    let known : is_known_extension (split_extension entry).1 ≡ true = ground arith in
    let valid : is_valid_name rec ≡ true = rw (← same) (ground arith) in
    rw (valid, whole) (is_known_extension-cases rec (split_extension entry).1 known)

file_of-split :
    (rec entry : Text)
    → is_file_of rec entry ≡ true
    → (ext : Text) × (split_extension entry ≡ (rec, ext)) × (is_known_extension ext ≡ true)
unfolding split_extension is_known_extension text_beq
file_of-split rec entry h = elim (Bool-cases (text_beq entry (rec ++ item_extension))) [
  | inl item ↦ (
    item_extension,
    rw ((text_beq_iff entry (rec ++ item_extension)).0 item)
        (split_extension-append rec item_extension refl refl),
    refl,
  )
  | inr no_item ↦ elim (Bool-cases (text_beq entry (rec ++ bas_extension))) [
    | inl bas ↦ (
      bas_extension,
      rw ((text_beq_iff entry (rec ++ bas_extension)).0 bas)
          (split_extension-append rec bas_extension refl refl),
      refl,
    )
    | inr no_bas ↦ (
      proc_extension,
      rw ((text_beq_iff entry (rec ++ proc_extension)).0 (rw (no_item, no_bas) at h))
          (split_extension-append rec proc_extension refl refl),
      refl,
    )
  ]
]

is_file_of-is_record :
    (rec entry : Text)
    → is_valid_name rec && is_file_of rec entry ≡ true
    → is_record (split_extension entry) && text_beq (split_extension entry).0 rec ≡ true
is_file_of-is_record rec entry h =
    let (ext, split, known) = file_of-split rec entry (ground arith) in
    rw (split, known, (text_beq_iff rec rec).1 refl) (ground arith)

Bool-ext : (a b : Bool) → (a ≡ true → b ≡ true) → (b ≡ true → a ≡ true) → a ≡ b
Bool-ext true b f g = sym (f refl)
Bool-ext false true f g = g refl
Bool-ext false false f g = refl

is_record_lem :
    (rec entry : Text)
    → (is_record (split_extension entry) && text_beq (split_extension entry).0 rec)
      ≡ (is_valid_name rec && is_file_of rec entry)
is_record_lem rec entry =
    Bool-ext _ _ (is_record-is_file_of rec entry) (is_file_of-is_record rec entry)

-- The directory has a file of this name.
abbrev pub has_entry : Assoc Text Text → Text → Bool
has_entry m entry = is_there (find entry m)

-- The directory has the file of the record, under one of the extensions.
abbrev pub has_record : Assoc Text Text → Text → Bool
has_record m rec =
    has_entry m (rec ++ item_extension)
    || (has_entry m (rec ++ bas_extension) || has_entry m (rec ++ proc_extension))

has_entry-cons :
    (entry content : Text) (m : Assoc Text Text) (e : Text)
    → has_entry ((entry, content) ∷ m) e ≡ (text_beq entry e || has_entry m e)
unfolding find
has_entry-cons entry content m e = ground arith

has_record-cons :
    (entry content : Text) (m : Assoc Text Text) (rec : Text)
    → has_record ((entry, content) ∷ m) rec ≡ (is_file_of rec entry || has_record m rec)
has_record-cons entry content m rec = ground (
  arith,
  has_entry-cons entry content m (rec ++ item_extension),
  has_entry-cons entry content m (rec ++ bas_extension),
  has_entry-cons entry content m (rec ++ proc_extension),
)

-- The loop keeps a name exactly where it is a valid name and the directory has its file.
pub contains_text-record_names :
    (rec : Text) (m : Assoc Text Text)
    → contains_text rec (record_names m) ≡ (is_valid_name rec && has_record m rec)
unfolding contains_text record_names find
contains_text-record_names rec [] = ground arith
contains_text-record_names rec ((entry, content) ∷ m) = ground (
  arith,
  is_record_lem rec entry,
  has_record-cons entry content m rec,
  contains_text-record_names rec m,
)
