-- ===== src/Files/Handles.antt =====
-- `createFile`, `deleteFile`, `openFile`, the two listings, and the cursor of `readNextRecord`.
use gemini_system.Prelude.{
  ℕ, suc, Bool, true, false, ◌&&◌, ◌||◌, not, List, [], ◌∷◌, Option, none, some, Text, text_beq,
  text_eq, ltb, nat_beq, if◌then◌else◌, get_elem?,
}
use gemini_system.Prelude.Assoc.{Assoc, find, put, erase}
use gemini_system.Locking.{LockTable, release_all_for_file}
use gemini_system.Files.Host.{
  Node, directory, other, create_root, inspect, list_directory, create_directory, remove_all,
  entries, is_there, is_directory, is_empty, is_valid_name, is_known_extension,
}
use gemini_system.Files.State.{
  FileSystem, invalid_file_name, cannot_create_root, cannot_inspect_file, file_exists,
  cannot_create_file, file_not_found, invalid_file_storage, cannot_delete_file, cursor_exhausted,
  Result, ok, err, Exec, Query, and_then, after_query,
}

abbrev pub set_node : Text → Node → FileSystem → FileSystem
set_node file node fs = record fs { host = record fs.host { nodes = put file node fs.host.nodes } }

unfoldable pub create_file : Text → Exec (Unit {0})
unfolding is_valid_name
create_file name fs =
    if not (is_valid_name name)
    then (err invalid_file_name, fs)
    else if fs.host.faults create_root [] []
    then (err cannot_create_root, fs)
    else if fs.host.faults inspect name []
    then (err cannot_inspect_file, fs)
    else if is_there (find name fs.host.nodes)
    then (err file_exists, fs)
    else if fs.host.faults create_directory name []
    then (err cannot_create_file, fs)
    else (ok tt, set_node name (directory []) fs)

-- The checks that `openFile` and `deleteFile` share: there is a directory of this name.
unfoldable pub check_directory : Text → Query (Unit {0})
check_directory name fs =
    if fs.host.faults inspect name []
    then err cannot_inspect_file
    else if not (is_there (find name fs.host.nodes))
    then err file_not_found
    else if not (is_directory (find name fs.host.nodes))
    then err invalid_file_storage
    else ok tt

abbrev pub drop_locks : Option LockTable → Text → Option LockTable
drop_locks none name = none
drop_locks (some t) name = some (release_all_for_file t name).0

-- `remove_all` on a directory that is there removes at least the directory, so its count is not 0.
abbrev pub remove_directory : Text → Exec (Unit {0})
remove_directory name fs =
    if fs.host.faults remove_all name []
    then (err cannot_delete_file, fs)
    else (ok tt, record fs { host = record fs.host { nodes = erase name fs.host.nodes } })

unfoldable pub delete_file : Text → Exec (Unit {0})
unfolding check_directory is_valid_name
delete_file name fs =
    if not (is_valid_name name)
    then (err invalid_file_name, fs)
    else let unlocked = record fs { lock_table = drop_locks fs.lock_table name } in
      after_query (check_directory name unlocked) unlocked (λ u. remove_directory name unlocked)

pub record FileHandle : Type 0 where
  pub name : Text
  pub record_ids : List Text
  pub cursor_index : ℕ
  pub cursor_primed : Bool

unfoldable pub open_file : Text → Query FileHandle
unfolding check_directory is_valid_name
open_file file fs =
    if not (is_valid_name file)
    then err invalid_file_name
    else and_then (check_directory file fs)
        (λ u. ok record { name = file; record_ids = []; cursor_index = 0; cursor_primed = false })

-- `stem()` and `extension()`: the name before its last dot, and the rest from the dot.
unfoldable pub split_extension : Text → Text × Text
split_extension [] = ([], [])
split_extension (c ∷ cs) =
    let rest = split_extension cs in
    if is_empty rest.1 && nat_beq c b'.' then ([], c ∷ cs) else (c ∷ rest.0, rest.1)

-- The order of `std::string`.
unfoldable pub text_leb : Text → Text → Bool
text_leb [] b = true
text_leb (x ∷ xs) [] = false
text_leb (x ∷ xs) (y ∷ ys) = ltb x y || (nat_beq x y && text_leb xs ys)

unfoldable pub insert_text : Text → List Text → List Text
unfolding text_leb
insert_text a [] = a ∷ []
insert_text a (x ∷ xs) = if text_leb a x then a ∷ (x ∷ xs) else x ∷ insert_text a xs

-- What `std::sort` gives.
unfoldable pub sort_texts : List Text → List Text
unfolding insert_text
sort_texts [] = []
sort_texts (x ∷ xs) = insert_text x (sort_texts xs)

abbrev pub keep_first : Text → List Text → List Text
keep_first x [] = x ∷ []
keep_first x (y ∷ ys) = if text_beq x y then y ∷ ys else x ∷ (y ∷ ys)

-- `std::unique`: of neighbours that are equal one is kept.
unfoldable pub unique : List Text → List Text
unique [] = []
unique (x ∷ xs) = keep_first x (unique xs)

abbrev pub is_record : Text × Text → Bool
is_record e = is_known_extension e.1 && is_valid_name e.0

-- The loop of `listRecords` over the entries.
unfoldable pub record_names : Assoc Text Text → List Text
unfolding split_extension is_known_extension is_valid_name
record_names [] = []
record_names ((entry, content) ∷ m) =
    let rest = record_names m in
    if is_record (split_extension entry) then (split_extension entry).0 ∷ rest else rest

-- A directory that cannot be opened gives an iterator at its end, and no error.
unfoldable pub list_records : FileHandle → FileSystem → List Text
unfolding record_names sort_texts unique
list_records handle fs =
    if fs.host.faults list_directory handle.name []
    then []
    else unique (sort_texts (record_names (entries fs.host handle.name)))

unfoldable pub list_record_names : Text → Query (List Text)
unfolding open_file list_records
list_record_names file fs = and_then (open_file file fs) (λ handle. ok (list_records handle fs))

abbrev pub is_file : Text → Node → Bool
is_file name (directory m) = is_valid_name name
is_file name other = false

unfoldable pub file_names : Assoc Text Node → List Text
unfolding is_valid_name
file_names [] = []
file_names ((name, node) ∷ m) =
    let rest = file_names m in if is_file name node then name ∷ rest else rest

unfoldable pub list_files : FileSystem → List Text
unfolding file_names sort_texts
list_files fs =
    if fs.host.faults inspect [] [] || fs.host.faults list_directory [] []
    then []
    else sort_texts (file_names fs.host.nodes)

abbrev pub primed : FileHandle → FileSystem → FileHandle
primed handle fs = if handle.cursor_primed then handle else record handle {
  record_ids = list_records handle fs;
  cursor_index = 0;
  cursor_primed = true;
}

abbrev pub next_id : FileHandle → Option Text → Result Text × FileHandle
next_id handle none = (err cursor_exhausted, handle)
next_id handle (some id) = (ok id, record handle { cursor_index = suc handle.cursor_index })

unfoldable pub read_next_record : FileHandle → FileSystem → Result Text × FileHandle
unfolding list_records
read_next_record handle fs =
    let h = primed handle fs in next_id h (get_elem? h.record_ids h.cursor_index)

unfoldable pub reset_read_next_cursor : FileHandle → FileHandle
reset_read_next_cursor handle = record handle {
  record_ids = [];
  cursor_index = 0;
  cursor_primed = false;
}
