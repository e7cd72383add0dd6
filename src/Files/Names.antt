-- ===== src/Files/Names.antt =====
-- Entry names: two records of a file never share an entry, nor one record the temporary file of
-- another.
use mathlib.Core.List.{append_assoc}
use gemini_system.Prelude.{
  Bool, true, false, ◌||◌, List, [], ◌∷◌, ◌++◌, some, Text, codes, text_beq, ◌≡◌, refl, ◌≢◌, ◌∙◌,
  ap, sym, inl, inr, Bool-cases, Option-cases, if◌then◌else◌, arith, nat_beq, All,
}
use gemini_system.Files.Host.{
  Host, entry_exists, first_existing, candidates, preferred_extension, resolve_entry, is_name_byte,
  all_name_bytes, is_valid_name,
}
use gemini_system.Files.Items.{temporary}

unfoldable before_dot : Text → Text
before_dot [] = []
before_dot (c ∷ cs) = if nat_beq c b'.' then [] else c ∷ before_dot cs

before_dot-append :
    (rec rest : Text) → all_name_bytes rec ≡ true → before_dot (rec ++ b'.' ∷ rest) ≡ rec
unfolding before_dot all_name_bytes is_name_byte
before_dot-append [] rest h = refl
before_dot-append (c ∷ cs) rest h = ground (arith, before_dot-append cs rest)

-- The extension starts with a dot.
abbrev pub HasDot : Text → Type 0
HasDot ext = (rest : Text) × (ext ≡ b'.' ∷ rest)

if-HasDot : (b : Bool) (x y : Text) → HasDot x → HasDot y → HasDot (if b then x else y)
if-HasDot true x y dx dy = dx
if-HasDot false x y dx dy = dy

preferred_extension-HasDot : (file : Text) → HasDot (preferred_extension file)
unfolding preferred_extension
preferred_extension-HasDot file =
    if-HasDot (text_beq file (codes "BP")) _ _ (_, refl)
      (if-HasDot (text_beq file (codes "PROC") || text_beq file (codes "PROCS")) _ _ (_, refl)
        (_, refl))

pub candidates-HasDot : (file : Text) → All HasDot (candidates file)
candidates-HasDot file =
    (preferred_extension-HasDot file, ((_, refl), ((_, refl), ((_, refl), tt))))

-- The entry of a record is its name and an extension.
abbrev pub IsEntryOf : Text → Text → Type 0
IsEntryOf rec entry = (ext : Text) × (entry ≡ rec ++ ext) × HasDot ext

pub first_existing-IsEntryOf :
    (h : Host) (file rec entry : Text) (exts : List Text)
    → All HasDot exts
    → first_existing h file rec exts ≡ some entry
    → IsEntryOf rec entry
unfolding first_existing
first_existing-IsEntryOf h file rec entry [] all found = cc
first_existing-IsEntryOf h file rec entry (ext ∷ exts) all found =
    elim (Bool-cases (entry_exists h file (rec ++ ext))) [
      | inl here ↦ (ext, ground (arith, rw (here, first_existing) at found), all.0)
      | inr missing ↦
          first_existing-IsEntryOf h file rec entry exts all.1
            (rw (missing, first_existing) at found)
    ]

pub resolve_entry-IsEntryOf :
    (h : Host) (file rec : Text) → IsEntryOf rec (resolve_entry h file rec)
unfolding resolve_entry
resolve_entry-IsEntryOf h file rec =
    elim (Option-cases (first_existing h file rec (candidates file))) [
      | inl nowhere ↦ rw nowhere (preferred_extension file, refl, (candidates-HasDot file).0)
      | inr (entry, found) ↦ rw found (
          first_existing-IsEntryOf h file rec entry (candidates file) (candidates-HasDot file)
            found)
    ]

module _ (rec rec' entry ext : Text) where
  -- Different records stand in different entries, and apart from the temporary file.
  pub entries_apart :
      is_valid_name rec ≡ true
      → is_valid_name rec' ≡ true
      → rec' ≢ rec
      → IsEntryOf rec entry
      → HasDot ext
      → (entry ≢ rec' ++ ext) × (temporary entry ≢ rec' ++ ext)
  unfolding is_valid_name
  entries_apart valid valid' differ (ext0, shape, (rest0, dot0)) (rest, dot) =
      let bytes : all_name_bytes rec ≡ true = ground arith in
      let bytes' : all_name_bytes rec' ≡ true = ground arith in
      let name' : before_dot (rec' ++ ext) ≡ rec' = rw dot (before_dot-append rec' rest bytes') in
      let name : before_dot entry ≡ rec = rw (shape, dot0) (before_dot-append rec rest0 bytes) in
      let temp : before_dot (temporary entry) ≡ rec =
        rw (shape, dot0, append_assoc rec (b'.' ∷ rest0) (codes ".tmp"))
          (before_dot-append rec (rest0 ++ codes ".tmp") bytes) in
      (
        λ same. differ (sym name' ∙ ap before_dot (sym same) ∙ name),
        λ same. differ (sym name' ∙ ap before_dot (sym same) ∙ temp),
      )
