-- ===== src/Files/Exclusion.antt =====
-- A record that another session has locked, and a record that `readU` has locked.
use gemini_system.Prelude.{
  ℕ, true, false, [], ◌∷◌, Option, none, some, Text, text_beq, text_eq, text_beq_iff, ◌≡◌, refl,
  ◌≢◌, ◌⊎◌, inl, inr, Bool-cases, sym, ap, arith,
}
use gemini_system.Locking.{
  LockType, LockEntry, LockConflict, LockTable, lookup, try_acquire, Acquired, fill_conflict,
}
use gemini_system.Locking.Ownership.{lookup-try_acquire}
use gemini_system.Files.Host.{is_valid_name}
use gemini_system.Files.State.{FileSystem, FileSystemError, record_locked, Result, ok, err}
use gemini_system.Files.Locks.{enabled, locking, assert_record_accessible, acquire_record_lock}
use gemini_system.Files.Handles.{FileHandle, open_file, check_directory}
use gemini_system.Files.Items.{
  Record, check_access, read_record, write_record, delete_record, read, write, read_u,
}

-- The session that stands in the lock context, with a table, is not the owner of the entry.
abbrev pub IsShutOut : FileSystem → LockTable → LockEntry → Type 0
IsShutOut fs t e =
    (fs.lock_table ≡ some t) × (fs.lock_session_id ≢ []) × (e.owner_session_id ≢ fs.lock_session_id)

enabled_lem :
    (o : Option LockTable) (s : Text) (t : LockTable) → o ≡ some t → s ≢ [] → enabled o s ≡ some t
enabled_lem none s t h n = cc
enabled_lem (some u) [] t h n = absurd (n refl)
enabled_lem (some u) (c ∷ cs) t h n = h

module _ (fs : FileSystem) (t : LockTable) (e : LockEntry) (file rec : Text) where
  check_access-locked :
      IsShutOut fs t e
      → lookup t file rec ≡ some e
      → is_valid_name rec ≡ true
      → check_access file rec fs ≡ err (record_locked (fill_conflict file rec e))
  unfolding check_access assert_record_accessible
  check_access-locked h found valid =
      let on : locking fs ≡ some t = enabled_lem fs.lock_table fs.lock_session_id t h.0 h.1 in
      let differ : text_beq e.owner_session_id fs.lock_session_id ≡ false =
        ground (arith, text_beq_iff e.owner_session_id fs.lock_session_id, h) in
      rw (valid, on, found, differ)

  -- A record that another session has locked is neither read nor written nor deleted: each of the
  -- three operations gives the error that names the lock, and changes nothing.
  pub locked_record_refused :
      (handle : FileHandle) (value : Text)
      → handle.name ≡ file
      → IsShutOut fs t e
      → lookup t file rec ≡ some e
      → is_valid_name rec ≡ true
      → (read_record handle rec fs ≡ err (record_locked (fill_conflict file rec e)))
        × (write_record handle (record { name = rec; value = value }) fs
            ≡ (err (record_locked (fill_conflict file rec e)), fs))
        × (delete_record handle rec fs ≡ (err (record_locked (fill_conflict file rec e)), fs))
  unfolding read_record write_record delete_record
  locked_record_refused handle value same h found valid =
      let refused = check_access-locked h found valid in
      (rw (same, refused), rw (same, refused), rw (same, refused))

pub Result-cases :
    {A : Type 0} (r : Result A) → ((a : A) × (r ≡ ok a)) ⊎ ((e : FileSystemError) × (r ≡ err e))
Result-cases (ok a) = inl (a, refl)
Result-cases (err e) = inr (e, refl)

pub open_file-name :
    (file : Text) (fs : FileSystem) (handle : FileHandle)
    → open_file file fs ≡ ok handle
    → handle.name ≡ file
unfolding open_file check_directory
open_file-name file fs handle h = ground arith

pub read_record-valid :
    (handle : FileHandle) (rec : Text) (fs : FileSystem) (found : Option Record)
    → read_record handle rec fs ≡ ok found
    → is_valid_name rec ≡ true
unfolding read_record check_access
read_record-valid handle rec fs found h = ground arith

-- A read that succeeds has opened the file, and the record's name is valid.
read-valid :
    (file rec : Text) (fs : FileSystem) (found : Option Record)
    → read file rec fs ≡ ok found
    → (handle : FileHandle) × (open_file file fs ≡ ok handle) × (is_valid_name rec ≡ true)
unfolding read
read-valid file rec fs found h = elim (Result-cases (open_file file fs)) [
  | inl (handle, opened) ↦
      (handle, opened, read_record-valid handle rec fs found (rw (opened, read) at h))
  | inr (e, failed) ↦ absurd (ground (arith, rw (failed, read) at h))
]

module _ (fs : FileSystem) (t : LockTable) (now : ℕ) (file rec : Text) (found : Option Record)
    (after : FileSystem) (bob : Text) where
  abbrev pub as_bob : FileSystem
  as_bob = record after { lock_session_id = bob }

  abbrev pub entry_taken : LockEntry
  entry_taken = record {
    owner_session_id = fs.lock_session_id;
    lock_type = LockType.read_u;
    acquired_at = now;
  }

  -- The table behind the call, and what the call gives.
  abbrev bid : Acquired
  bid = try_acquire t now fs.lock_session_id file rec LockType.read_u

  read_u-after :
      fs.lock_table ≡ some t
      → fs.lock_session_id ≢ []
      → read_u now file rec fs ≡ (ok found, after)
      → (bid.granted ≡ true)
        × (after ≡ record fs { lock_table = some bid.table })
        × (read file rec after ≡ ok found)
  unfolding read_u acquire_record_lock
  read_u-after here named h =
      let on : locking fs ≡ some t = enabled_lem fs.lock_table fs.lock_session_id t here named in
      elim (Bool-cases bid.granted) [
        | inl granted ↦
            let k = rw (on, granted, read_u, acquire_record_lock) at h in
            let same : after ≡ record fs { lock_table = some bid.table } = sym (ap (λ p. p.1) k) in
            (granted, same, rw same (ap (λ p. p.0) k))
        | inr refused ↦ absurd (ground (arith, rw (on, refused, read_u, acquire_record_lock) at h))
      ]

  abbrev pub lock_shown : LockConflict
  lock_shown = record {
    file_name = file;
    record_id = rec;
    owner_session_id = fs.lock_session_id;
    lock_type = LockType.read_u;
  }

  bid-lookup : bid.granted ≡ true → lookup bid.table file rec ≡ some entry_taken
  bid-lookup granted =
      rw (lookup-try_acquire t now fs.lock_session_id file rec LockType.read_u file rec, granted)
        (ground (arith, text_beq_iff file file, text_beq_iff rec rec))

  -- When a session with a lock context has read a record by `readU`, every other session on the
  -- same table is refused the record: `read` and `write` give the error that names the reader, and
  -- change nothing.
  pub read_u_excludes :
      (value : Text)
      → fs.lock_table ≡ some t
      → fs.lock_session_id ≢ []
      → bob ≢ []
      → fs.lock_session_id ≢ bob
      → read_u now file rec fs ≡ (ok found, after)
      → (read file rec as_bob ≡ err (record_locked lock_shown))
        × (write file (record { name = rec; value = value }) as_bob
            ≡ (err (record_locked lock_shown), as_bob))
  unfolding read write open_file check_directory fill_conflict
  read_u_excludes value here named bob_named differ h =
      let (granted, same, readable) = read_u-after here named h in
      let (handle, opened, valid) = read-valid file rec after found readable in
      let opened_bob : open_file file as_bob ≡ ok handle = opened in
      let shut_out : IsShutOut as_bob bid.table entry_taken = (rw same refl, bob_named, differ) in
      let (no_read, no_write, _) =
        locked_record_refused as_bob bid.table entry_taken file rec handle value
          (open_file-name file after handle opened) shut_out (bid-lookup granted) valid in
      (rw (opened_bob, read) no_read, rw (opened_bob, write) no_write)
