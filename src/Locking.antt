-- ===== src/Locking.antt =====
-- core/locking: `LockTypes.h` and `LockTable`. The clock that stamps `acquiredAt` is the argument
-- `now`; an operation returns the new table beside its result.
pub mod Wellformed
pub mod Ownership
pub mod Bulk
pub mod History
use gemini_system.Prelude.{
  ℕ, suc, ◌+◌, Bool, true, false, ◌&&◌, List, [], ◌∷◌, ◌++◌, Option, none, some, Text, codes, ◌==◌,
  if◌then◌else◌, length, text_eq,
}
use gemini_system.Prelude.Assoc.{Assoc, find, put, erase}

pub data LockType : Type 0 where
  read_u write_u : LockType

pub record LockEntry : Type 0 where
  pub owner_session_id : Text
  pub lock_type : LockType
  pub acquired_at : ℕ

pub record LockConflict : Type 0 where
  pub file_name : Text
  pub record_id : Text
  pub owner_session_id : Text
  pub lock_type : LockType

abbrev pub RecordLocks : Type 0
RecordLocks = Assoc Text LockEntry

pub record LockTable : Type 0 where
  pub locks : Assoc Text RecordLocks

abbrev pub init : LockTable
init = record { locks = [] }

abbrev pub is_valid_key : Text → Bool
is_valid_key [] = false
is_valid_key (c ∷ cs) = true

abbrev pub lock_type_label : LockType → Text
lock_type_label read_u = codes "READU"
lock_type_label write_u = codes "WRITEU"

unfoldable pub describe_lock_conflict : LockConflict → Text
describe_lock_conflict c =
    codes "RECORD LOCKED: "
    ++ (c.file_name
        ++ (codes " "
            ++ (c.record_id
                ++ (codes " (owner "
                    ++ (c.owner_session_id
                        ++ (codes ", " ++ (lock_type_label c.lock_type ++ codes ")")))))))

unfoldable pub fill_conflict : Text → Text → LockEntry → LockConflict
fill_conflict file_name record_id entry = record {
  file_name = file_name;
  record_id = record_id;
  owner_session_id = entry.owner_session_id;
  lock_type = entry.lock_type;
}

-- What `tryAcquire` leaves behind: the table, its result, and what it wrote to `conflictOut`.
pub record Acquired : Type 0 where
  pub table : LockTable
  pub granted : Bool
  pub conflict : Option LockConflict

-- `locks_[fileName]`: a missing file reads as an empty map.
abbrev pub or_empty : Option RecordLocks → RecordLocks
or_empty none = []
or_empty (some m) = m

abbrev pub file_locks : LockTable → Text → RecordLocks
file_locks t file_name = or_empty (find file_name t.locks)

abbrev pub set_file : LockTable → Text → RecordLocks → LockTable
set_file t file_name m = record { locks = put file_name m t.locks }

-- The three cases of `tryAcquire` behind the key check, on what `fileLocks.find` gave.
unfoldable pub acquire_found :
    LockTable → ℕ → Text → Text → Text → LockType → Option LockEntry → Acquired
unfolding fill_conflict
acquire_found t now session file rec lock_type (some entry) =
    let m = file_locks t file in
    if entry.owner_session_id == session
    then record {
      table =
          set_file t file (put rec (record entry { lock_type = lock_type; acquired_at = now }) m);
      granted = true;
      conflict = none;
    }
    else record {
      table = set_file t file m;
      granted = false;
      conflict = some (fill_conflict file rec entry);
    }
acquire_found t now session file rec lock_type none =
    let entry : LockEntry = record {
      owner_session_id = session;
      lock_type = lock_type;
      acquired_at = now;
    } in
    record {
      table = set_file t file (put rec entry (file_locks t file));
      granted = true;
      conflict = none;
    }

unfoldable pub try_acquire : LockTable → ℕ → Text → Text → Text → LockType → Acquired
unfolding acquire_found
try_acquire t now session file rec lock_type =
    if is_valid_key session && (is_valid_key file && is_valid_key rec)
    then acquire_found t now session file rec lock_type (find rec (file_locks t file))
    else record { table = t; granted = false; conflict = none }

-- `erase(recordIt)`, and the file's map too if it is left empty.
abbrev pub drop_if_empty : LockTable → Text → RecordLocks → LockTable
drop_if_empty t file [] = record { locks = erase file t.locks }
drop_if_empty t file (x ∷ m) = set_file t file (x ∷ m)

unfoldable pub release_record :
    LockTable → Text → Text → Text → RecordLocks → Option LockEntry → LockTable × Bool
release_record t session file rec m none = (t, false)
release_record t session file rec m (some entry) =
    if entry.owner_session_id == session
    then (drop_if_empty t file (erase rec m), true)
    else (t, false)

unfoldable pub release_file : LockTable → Text → Text → Text → Option RecordLocks → LockTable × Bool
unfolding release_record
release_file t session file rec none = (t, false)
release_file t session file rec (some m) = release_record t session file rec m (find rec m)

unfoldable pub release : LockTable → Text → Text → Text → LockTable × Bool
unfolding release_file
release t session file rec =
    if is_valid_key session && (is_valid_key file && is_valid_key rec)
    then release_file t session file rec (find file t.locks)
    else (t, false)

-- The inner loop of `releaseAllForSession`, with the number of entries that it removed.
unfoldable pub sweep_records : Text → RecordLocks → RecordLocks × ℕ
sweep_records session [] = ([], 0)
sweep_records session ((rec, entry) ∷ m) =
    let rest = sweep_records session m in
    if entry.owner_session_id == session
    then (rest.0, suc rest.1)
    else ((rec, entry) ∷ rest.0, rest.1)

abbrev pub keep_file : Text → RecordLocks → Assoc Text RecordLocks → Assoc Text RecordLocks
keep_file file [] rest = rest
keep_file file (x ∷ m) rest = (file, x ∷ m) ∷ rest

unfoldable pub sweep_files : Text → Assoc Text RecordLocks → Assoc Text RecordLocks × ℕ
unfolding sweep_records
sweep_files session [] = ([], 0)
sweep_files session ((file, m) ∷ fs) =
    let swept = sweep_records session m in
    let rest = sweep_files session fs in (keep_file file swept.0 rest.0, swept.1 + rest.1)

unfoldable pub release_all_for_session : LockTable → Text → LockTable × ℕ
unfolding sweep_files
release_all_for_session t session =
    let swept = sweep_files session t.locks in
    if is_valid_key session then (record { locks = swept.0 }, swept.1) else (t, 0)

unfoldable pub release_all_found : LockTable → Text → Option RecordLocks → LockTable × ℕ
release_all_found t file none = (t, 0)
release_all_found t file (some m) = (record { locks = erase file t.locks }, length m)

unfoldable pub release_all_for_file : LockTable → Text → LockTable × ℕ
unfolding release_all_found
release_all_for_file t file =
    if is_valid_key file then release_all_found t file (find file t.locks) else (t, 0)

unfoldable pub lookup : LockTable → Text → Text → Option LockEntry
lookup t file rec =
    if is_valid_key file && is_valid_key rec then find rec (file_locks t file) else none

unfoldable pub clear_all : LockTable → LockTable
clear_all t = init
