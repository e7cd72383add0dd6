-- ===== src/Files/Host.antt =====
-- What the code uses of `std::filesystem`: directories below the root, with regular files in them.
-- `faults` says which call of the host fails on which path; nothing is assumed of it. A write that
-- fails half way is not modelled.
use gemini_system.Prelude.{
  ℕ, Bool, true, false, ◌&&◌, ◌||◌, not, List, [], ◌∷◌, ◌++◌, Option, none, some, Text, codes,
  text_beq, text_eq, leb, nat_beq, if◌then◌else◌,
}
use gemini_system.Prelude.Assoc.{Assoc, find, put, erase}

-- What stands at a path below the root: a directory with its files, or something else.
pub data Node : Type 0 where
  directory : Assoc Text Text → Node
  other : Node

pub data HostCall : Type 0 where
  create_root inspect list_directory create_directory remove_all : HostCall
  open_to_read open_to_write rename remove : HostCall

pub record Host : Type 0 where
  pub nodes : Assoc Text Node
  -- The last argument is the entry of the directory, empty for the directory itself.
  pub faults : HostCall → Text → Text → Bool

abbrev pub entries_of : Option Node → Assoc Text Text
entries_of none = []
entries_of (some (directory m)) = m
entries_of (some other) = []

abbrev pub entries : Host → Text → Assoc Text Text
entries h file = entries_of (find file h.nodes)

abbrev pub is_there {ℓ} : {A : Type ℓ} → Option A → Bool
is_there none = false
is_there (some a) = true

abbrev pub is_directory : Option Node → Bool
is_directory none = false
is_directory (some (directory m)) = true
is_directory (some other) = false

-- `std::filesystem::exists(path, ec)`, which is false where it fails.
unfoldable pub entry_exists : Host → Text → Text → Bool
entry_exists h file entry =
    not (h.faults inspect file entry) && is_there (find entry (entries h file))

abbrev pub put_entry : Host → Text → Text → Text → Host
put_entry h file entry content = record h {
  nodes = put file (directory (put entry content (entries h file))) h.nodes;
}

abbrev pub erase_entry : Host → Text → Text → Host
erase_entry h file entry = record h {
  nodes = put file (directory (erase entry (entries h file))) h.nodes;
}

-- `Catalog::isValidName`
unfoldable pub is_name_byte : ℕ → Bool
is_name_byte c =
    ((leb b'a' c && leb c b'z') || ((leb b'A' c && leb c b'Z') || (leb b'0' c && leb c b'9')))
    || (nat_beq c b'_' || nat_beq c b'-')

unfoldable pub all_name_bytes : Text → Bool
unfolding is_name_byte
all_name_bytes [] = true
all_name_bytes (c ∷ cs) = is_name_byte c && all_name_bytes cs

abbrev pub is_empty : Text → Bool
is_empty [] = true
is_empty (c ∷ cs) = false

unfoldable pub is_valid_name : Text → Bool
unfolding all_name_bytes
is_valid_name name = not (is_empty name) && all_name_bytes name

abbrev pub item_extension : Text
item_extension = codes ".item"

abbrev pub bas_extension : Text
bas_extension = codes ".bas"

abbrev pub proc_extension : Text
proc_extension = codes ".proc"

unfoldable pub preferred_extension : Text → Text
preferred_extension file =
    if text_beq file (codes "BP")
    then bas_extension
    else if text_beq file (codes "PROC") || text_beq file (codes "PROCS")
    then proc_extension
    else item_extension

unfoldable pub is_known_extension : Text → Bool
is_known_extension e =
    text_beq e item_extension || (text_beq e bas_extension || text_beq e proc_extension)

-- The first of the extensions under which the record is found.
unfoldable pub first_existing : Host → Text → Text → List Text → Option Text
first_existing h file rec [] = none
first_existing h file rec (ext ∷ exts) =
    if entry_exists h file (rec ++ ext) then some (rec ++ ext) else first_existing h file rec exts

abbrev pub candidates : Text → List Text
candidates file =
    preferred_extension file ∷ (item_extension ∷ (bas_extension ∷ (proc_extension ∷ [])))

abbrev pub or_entry : Option Text → Text → Text
or_entry none entry = entry
or_entry (some found) entry = found

-- `resolveRecordPath`
unfoldable pub resolve_entry : Host → Text → Text → Text
unfolding first_existing preferred_extension
resolve_entry h file rec =
    or_entry (first_existing h file rec (candidates file)) (rec ++ preferred_extension file)
