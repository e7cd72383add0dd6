-- ===== src/Files/Locks.antt =====
-- The lock context of a `FileSystem`: the checks before an access, and the locks that it takes.
use gemini_system.Prelude.{
  ℕ, Bool, false, [], ◌∷◌, Option, none, some, Text, text_beq, if◌then◌else◌,
}
use gemini_system.Locking.{
  LockType, LockEntry, LockTable, LockConflict, Acquired, try_acquire, release, lookup,
  fill_conflict,
}
use gemini_system.Files.State.{
  FileSystem, FileSystemError, record_locked, lock_refused, Result, ok, err, Exec, Query,
}

unfoldable pub set_lock_context : LockTable → Text → FileSystem → FileSystem
set_lock_context t session fs = record fs { lock_table = some t; lock_session_id = session }

unfoldable pub clear_lock_context : FileSystem → FileSystem
clear_lock_context fs = record fs { lock_table = none; lock_session_id = [] }

-- The table, if `lockingEnabled()`.
abbrev pub enabled : Option LockTable → Text → Option LockTable
enabled none session = none
enabled (some t) [] = none
enabled (some t) (c ∷ cs) = some t

abbrev pub locking : FileSystem → Option LockTable
locking fs = enabled fs.lock_table fs.lock_session_id

abbrev pub check_entry : Text → Text → Text → Option LockEntry → Result (Unit {0})
check_entry session file rec none = ok tt
check_entry session file rec (some entry) =
    if text_beq entry.owner_session_id session
    then ok tt
    else err (record_locked (fill_conflict file rec entry))

abbrev pub check_table : Text → Text → Text → Option LockTable → Result (Unit {0})
check_table session file rec none = ok tt
check_table session file rec (some t) = check_entry session file rec (lookup t file rec)

unfoldable pub assert_record_accessible : Text → Text → Query (Unit {0})
unfolding fill_conflict
assert_record_accessible file rec fs = check_table fs.lock_session_id file rec (locking fs)

abbrev pub refusal : Option LockConflict → FileSystemError
refusal none = lock_refused
refusal (some c) = record_locked c

abbrev pub acquired : FileSystem → Acquired → Result (Unit {0}) × FileSystem
acquired fs a =
    (if a.granted then ok tt else err (refusal a.conflict), record fs { lock_table = some a.table })

abbrev pub acquire_in :
    FileSystem → ℕ → Text → Text → LockType → Option LockTable → Result (Unit {0}) × FileSystem
acquire_in fs now file rec lock_type none = (ok tt, fs)
acquire_in fs now file rec lock_type (some t) =
    acquired fs (try_acquire t now fs.lock_session_id file rec lock_type)

unfoldable pub acquire_record_lock : ℕ → Text → Text → LockType → Exec (Unit {0})
acquire_record_lock now file rec lock_type fs = acquire_in fs now file rec lock_type (locking fs)

abbrev pub release_in : FileSystem → Text → Text → Option LockTable → Bool × FileSystem
release_in fs file rec none = (false, fs)
release_in fs file rec (some t) =
    let r = release t fs.lock_session_id file rec in (r.1, record fs { lock_table = some r.0 })

-- `releaseRecord`, and the release behind a deletion.
unfoldable pub release_record : Text → Text → FileSystem → Bool × FileSystem
release_record file rec fs = release_in fs file rec (locking fs)
