-- ===== src/Files/Items.antt =====
-- `readRecord`, `writeRecord` and `deleteRecord`, and the methods that open the file first.
use gemini_system.Prelude.{
  ℕ, ◌||◌, not, [], ◌++◌, Option, none, some, Text, codes, text_eq, if◌then◌else◌,
}
use gemini_system.Prelude.Assoc.{find}
use gemini_system.Locking.{LockType}
use gemini_system.Records.{from_raw, to_raw}
use gemini_system.Files.Host.{
  Host, open_to_read, open_to_write, rename, remove, entries, is_there, is_directory, is_valid_name,
  put_entry, erase_entry, first_existing, candidates, resolve_entry,
}
use gemini_system.Files.State.{
  FileSystem, invalid_record_name, cannot_open_record, cannot_write_record, cannot_finalize_record,
  cannot_delete_record, record_not_found, Result, ok, err, Exec, Query, and_then, resume,
  after_query,
}
use gemini_system.Files.Locks.{assert_record_accessible, acquire_record_lock, release_record}
use gemini_system.Files.Handles.{FileHandle, open_file}

pub record Record : Type 0 where
  pub name : Text
  pub value : Text

-- The constructor keeps the text that its attributes give.
unfoldable pub new_record : Text → Text → Record
unfolding from_raw to_raw
new_record name value = record { name = name; value = to_raw (from_raw value) }

-- The two checks at the head of each operation on a record.
unfoldable pub check_access : Text → Text → Query (Unit {0})
unfolding assert_record_accessible is_valid_name
check_access file rec fs =
    if not (is_valid_name rec)
    then err invalid_record_name
    else assert_record_accessible file rec fs

abbrev pub content_of : Option Text → Text
content_of none = []
content_of (some content) = content

abbrev pub load : Host → Text → Text → Option Text → Result (Option Record)
load h file rec none = ok none
load h file rec (some entry) =
    if h.faults open_to_read file entry
    then err cannot_open_record
    else ok (some (new_record rec (content_of (find entry (entries h file)))))

unfoldable pub read_record : FileHandle → Text → Query (Option Record)
unfolding check_access first_existing
read_record handle rec fs = and_then (check_access handle.name rec fs) (λ u.
    load fs.host handle.name rec (first_existing fs.host handle.name rec (candidates handle.name)))

abbrev pub temporary : Text → Text
temporary entry = entry ++ codes ".tmp"

-- `std::filesystem::rename` of the temporary file onto the record's.
abbrev pub move_entry : Host → Text → Text → Text → Text → Host
move_entry h file from to content = put_entry (erase_entry h file from) file to content

-- The temporary file is written and renamed; it is removed again where the rename fails.
unfoldable pub replace_entry : Text → Text → Text → Exec (Unit {0})
replace_entry file entry content fs =
    let h = fs.host in
    let temp = temporary entry in
    let written = put_entry h file temp content in
    if h.faults open_to_write file temp || not (is_directory (find file h.nodes))
    then (err cannot_write_record, fs)
    else if h.faults rename file entry
    then (err cannot_finalize_record, record fs { host = erase_entry written file temp })
    else (ok tt, record fs { host = move_entry written file temp entry content })

unfoldable pub write_record : FileHandle → Record → Exec (Unit {0})
unfolding check_access resolve_entry replace_entry from_raw to_raw
write_record handle r fs = after_query (check_access handle.name r.name fs) fs (λ u.
    replace_entry handle.name (resolve_entry fs.host handle.name r.name) (to_raw (from_raw r.value))
      fs)

abbrev pub release_own : Text → Text → FileSystem → Result (Unit {0}) × FileSystem
release_own file rec fs = (ok tt, (release_record file rec fs).1)

unfoldable pub remove_entry : Text → Text → Text → Exec (Unit {0})
unfolding release_record
remove_entry file rec entry fs =
    if fs.host.faults remove file entry
    then (err cannot_delete_record, fs)
    else if not (is_there (find entry (entries fs.host file)))
    then (err record_not_found, fs)
    else release_own file rec (record fs { host = erase_entry fs.host file entry })

unfoldable pub delete_record : FileHandle → Text → Exec (Unit {0})
unfolding check_access resolve_entry remove_entry
delete_record handle rec fs =
    after_query (check_access handle.name rec fs) fs
      (λ u. remove_entry handle.name rec (resolve_entry fs.host handle.name rec) fs)

unfoldable pub read : Text → Text → Query (Option Record)
unfolding open_file read_record
read file rec fs = and_then (open_file file fs) (λ handle. read_record handle rec fs)

unfoldable pub write : Text → Record → Exec (Unit {0})
unfolding open_file write_record
write file r fs = after_query (open_file file fs) fs (λ handle. write_record handle r fs)

-- The lock that `readU` took stays where the read fails.
unfoldable pub read_u : ℕ → Text → Text → Exec (Option Record)
unfolding acquire_record_lock read
read_u now file rec fs =
    resume (acquire_record_lock now file rec LockType.read_u fs) (λ u g. (read file rec g, g))

unfoldable pub write_u : ℕ → Text → Record → Exec (Unit {0})
unfolding acquire_record_lock write
write_u now file r fs =
    resume (acquire_record_lock now file r.name LockType.write_u fs) (λ u g. write file r g)
