-- ===== src/Tests/FileTests.antt =====
-- Tests of Files.
use gemini_system.Prelude.{
  ◌&&◌, none, ◌≡◌, refl, ◌≢◌, false, Bool, [], ◌∷◌, some, Text, codes, text_beq, text_beq_iff, pos,
  contains,
}
use gemini_system.Prelude.Assoc.{find, put, erase}
use gemini_system.Locking.{
  LockTable, LockConflict, init, LockType, LockEntry, try_acquire, lookup, fill_conflict,
}
use gemini_system.Records.{value_at}
use gemini_system.Files.Host.{
  entries, Host, HostCall, directory, is_valid_name, entry_exists, preferred_extension,
}
use gemini_system.Files.State.{file_not_found, FileSystem, ok, err, record_locked}
use gemini_system.Files.Locks.{acquire_record_lock}
use gemini_system.Files.Handles.{open_file, delete_file, FileHandle, list_records, read_next_record}
use gemini_system.Files.Items.{
  new_record, read, write, read_u, read_record, write_record, delete_record,
}
use gemini_system.Files.Attributes.{put_subvalue}
use gemini_system.Files.Exclusion.{locked_record_refused, read_u_excludes}
use gemini_system.Files.RecordNames.{contains_text, has_record}
use gemini_system.Files.Listing.{IsAscending, list_records_lem}
use gemini_system.Files.Cursor.{after_calls, read_next_record_snapshot}
use gemini_system.Files.ReadBack.{read-write}
use gemini_system.Locking.History.{acquires, run, run-IsWellformed, init-IsWellformed}
use gemini_system.Files.Deletion.{delete_file_lem}
use gemini_system.Files.Subvalues.{value_at-put_subvalue}

abbrev pub ann : Text
ann = codes "ANN"

abbrev pub bob : Text
bob = codes "BOB"

abbrev pub data_file : Text
data_file = codes "DATA"

abbrev pub r1 : Text
r1 = codes "R1"

abbrev pub no_faults : HostCall → Text → Text → Bool
no_faults call file entry = false

-- DATA holds R1 and, as a program, R2.
abbrev pub disk : Host
disk = record {
  nodes =
      (data_file, directory ((codes "R1.item", codes "A") ∷ ((codes "R2.bas", codes "B") ∷ [])))
      ∷ [];
  faults = no_faults;
}

abbrev pub system : FileSystem
system = record { host = disk; lock_table = some init; lock_session_id = ann }

abbrev pub handle : FileHandle
handle = record { name = data_file; record_ids = []; cursor_index = 0; cursor_primed = false }

two_records : list_records handle system ≡ r1 ∷ (codes "R2" ∷ [])
unfolding list_records find text_beq
two_records = refl

first_record : (read_next_record handle system).0 ≡ ok r1
unfolding read_next_record find text_beq
first_record = refl

reads : read data_file r1 system ≡ ok (some record { name = r1; value = codes "A" })
unfolding read entry_exists find text_beq lookup preferred_extension new_record
reads = refl

read-write_example :
    (read data_file r1 (write data_file (record { name = r1; value = codes "NEW" }) system).1
      ≡ ok (some record { name = r1; value = codes "NEW" }))
    × ((rec' : Text)
        → rec' ≢ r1
        → read data_file rec' (write data_file (record { name = r1; value = codes "NEW" }) system).1
          ≡ read data_file rec' system)
unfolding read write entry_exists find put erase text_beq lookup
read-write_example =
    read-write data_file record { name = r1; value = codes "NEW" } system
      (write data_file (record { name = r1; value = codes "NEW" }) system).1 refl refl refl

pub ann_not_bob : ◌≢◌ {A = Text} ann bob
unfolding text_beq
ann_not_bob e = cc ((text_beq_iff ann bob).1 e)

abbrev pub ann_entry : LockEntry
ann_entry = record { owner_session_id = ann; lock_type = LockType.read_u; acquired_at = 1 }

-- ANN has locked R1, and BOB calls.
abbrev pub bob_system : FileSystem
bob_system = record {
  host = disk;
  lock_table = some (try_acquire init 1 ann data_file r1 LockType.read_u).table;
  lock_session_id = bob;
}

abbrev pub ann_conflict : LockConflict
ann_conflict = record {
  file_name = data_file;
  record_id = r1;
  owner_session_id = ann;
  lock_type = LockType.read_u;
}

locked_record_refused_example :
    (read_record handle r1 bob_system ≡ err (record_locked ann_conflict))
    × (write_record handle (record { name = r1; value = codes "X" }) bob_system
        ≡ (err (record_locked ann_conflict), bob_system))
    × (delete_record handle r1 bob_system ≡ (err (record_locked ann_conflict), bob_system))
unfolding lookup try_acquire find put text_beq is_valid_name fill_conflict
locked_record_refused_example =
    locked_record_refused bob_system (try_acquire init 1 ann data_file r1 LockType.read_u).table
      ann_entry data_file r1 handle (codes "X") refl (refl, (λ e. cc), ann_not_bob) refl refl

read_u_excludes_example :
    (read data_file r1 bob_system ≡ err (record_locked ann_conflict))
    × (write data_file (record { name = r1; value = codes "X" }) bob_system
        ≡ (err (record_locked ann_conflict), bob_system))
unfolding read_u entry_exists find put text_beq lookup preferred_extension acquire_record_lock
    try_acquire new_record
read_u_excludes_example =
    read_u_excludes system init 1 data_file r1 (some record { name = r1; value = codes "A" })
      (read_u 1 data_file r1 system).1 bob (codes "X") refl (λ e. cc) (λ e. cc) ann_not_bob refl

value_at-put_subvalue_example :
    value_at (put_subvalue 2 (codes "C") (codes "A")) (pos 3) ≡ codes "C"
unfolding contains
value_at-put_subvalue_example = value_at-put_subvalue 2 2 (codes "C") (codes "A") refl

list_records_lem_example :
    IsAscending (list_records handle system)
    × ((rec : Text)
        → contains_text rec (list_records handle system)
          ≡ (is_valid_name rec && has_record (entries disk data_file) rec))
list_records_lem_example = list_records_lem handle system refl

-- The file is emptied after the first call, and the second still gives R2.
abbrev emptied : FileSystem
emptied = record system { host = record disk { nodes = [] } }

read_next_record_snapshot_example :
    ((read_next_record handle system).0 ≡ ok r1)
    × ((read_next_record (after_calls handle (system ∷ [])) emptied).0 ≡ ok (codes "R2"))
unfolding list_records find text_beq
read_next_record_snapshot_example = read_next_record_snapshot handle system [] emptied refl

-- BOB has locked R1, and ANN deletes the file.
abbrev bob_table : LockTable
bob_table = run init (acquires 1 bob data_file r1 LockType.read_u ∷ [])

abbrev deleting : FileSystem
deleting = record system { lock_table = some bob_table }

delete_file_lem_example :
    (open_file data_file (delete_file data_file deleting).1 ≡ err file_not_found)
    × ((t' : LockTable) × ((delete_file data_file deleting).1.lock_table ≡ some t')
        × ((rec : Text) → lookup t' data_file rec ≡ none)
        × ((file rec : Text) → file ≢ data_file → lookup t' file rec ≡ lookup bob_table file rec))
unfolding delete_file find text_beq
delete_file_lem_example =
    delete_file_lem data_file deleting (delete_file data_file deleting).1 bob_table refl
      (run-IsWellformed init _ init-IsWellformed) refl
