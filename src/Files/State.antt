-- ===== src/Files/State.antt =====
-- The state of a `FileSystem`, its errors, and the results of its methods.
use gemini_system.Prelude.{Option, Text}
use gemini_system.Locking.{LockTable, LockConflict}
use gemini_system.Files.Host.{Host}

pub record FileSystem : Type 0 where
  pub host : Host
  -- `lockTable_`: no table, or the table that all sessions share.
  pub lock_table : Option LockTable
  pub lock_session_id : Text

-- `cannot_create_root` is the `runtime_error` of `Catalog::ensureRootExists`.
pub data FileSystemError : Type 0 where
  invalid_file_name invalid_record_name cannot_create_root : FileSystemError
  cannot_inspect_file file_exists cannot_create_file file_not_found : FileSystemError
  invalid_file_storage cannot_delete_file : FileSystemError
  record_locked : LockConflict → FileSystemError
  -- `tryAcquire` refused without a conflict, and the message names nobody.
  lock_refused : FileSystemError
  cannot_open_record cannot_write_record cannot_finalize_record : FileSystemError
  cannot_delete_record record_not_found cursor_exhausted invalid_subvalue_index : FileSystemError

pub data Result {ℓ} (A : Type ℓ) : Type ℓ where
  ok : A → Result A
  err : FileSystemError → Result A

-- A method that changes the state.
abbrev pub Exec {ℓ} : Type ℓ → Type ℓ
Exec A = FileSystem → Result A × FileSystem

-- A method that changes nothing.
abbrev pub Query {ℓ} : Type ℓ → Type ℓ
Query A = FileSystem → Result A

abbrev pub and_then {ℓ κ} : {A : Type ℓ} {B : Type κ} → Result A → (A → Result B) → Result B
and_then (ok a) k = k a
and_then (err e) k = err e

-- What follows a step that may throw, in the state that the step left.
abbrev pub resume {ℓ} :
    {A B : Type ℓ} → Result A × FileSystem → (A → Exec B) → Result B × FileSystem
resume (ok a, fs) k = k a fs
resume (err e, fs) k = (err e, fs)

-- What follows a query, in the state in which it was made.
abbrev pub after_query {ℓ κ} :
    {A : Type ℓ} {B : Type κ}
    → Result A
    → FileSystem
    → (A → Result B × FileSystem)
    → Result B × FileSystem
after_query (ok a) fs k = k a
after_query (err e) fs k = (err e, fs)
