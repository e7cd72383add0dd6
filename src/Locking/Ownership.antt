-- ===== src/Locking/Ownership.antt =====
-- What every operation of `LockTable` does to the lock of each record, seen through `lookup`.
use gemini_system.Prelude.{
  ℕ, ◌≡◌, refl, ◌≢◌, Bool, true, false, ◌&&◌, [], ◌∷◌, Option, none, some, Text, ◌==◌, text_eq,
  text_beq_iff, if◌then◌else◌, arith, inl, inr, Bool-cases, Option-cases,
}
use gemini_system.Prelude.Assoc.{find, erase, find-put, find-erase}
use gemini_system.Locking.{
  LockType, LockEntry, LockConflict, RecordLocks, LockTable, is_valid_key, file_locks, or_empty,
  try_acquire, acquire_found, fill_conflict, set_file, drop_if_empty, release, release_record,
  release_file, lookup,
}

-- The session may take the lock: nobody holds it, or the session itself does.
abbrev pub is_free_for : Text → Option LockEntry → Bool
is_free_for session none = true
is_free_for session (some e) = e.owner_session_id == session

abbrev pub is_held_by : Text → Option LockEntry → Bool
is_held_by session none = false
is_held_by session (some e) = e.owner_session_id == session

abbrev pub same_record : Text → Text → Text → Text → Bool
same_record file rec file' rec' = file == file' && rec == rec'

abbrev pub keys_ok : Text → Text → Text → Bool
keys_ok session file rec = is_valid_key session && (is_valid_key file && is_valid_key rec)

-- The entry of a record, without the key checks of `lookup`.
abbrev pub entry_at : LockTable → Text → Text → Option LockEntry
entry_at t file rec = find rec (file_locks t file)

entry_at-set_file :
    (t : LockTable) (file : Text) (m : RecordLocks) (file' rec' : Text)
    → entry_at (set_file t file m) file' rec'
      ≡ (if file == file' then find rec' m else entry_at t file' rec')
entry_at-set_file t file m file' rec' = rw (find-put file file' m t.locks) (ground arith)

pub entry_at-erase :
    (t : LockTable) (file : Text) (file' rec' : Text)
    → entry_at (record { locks = erase file t.locks }) file' rec'
      ≡ (if file == file' then none else entry_at t file' rec')
unfolding find
entry_at-erase t file file' rec' = rw (find-erase file file' t.locks) (ground arith)

entry_at-drop_if_empty :
    (t : LockTable) (file : Text) (m : RecordLocks) (file' rec' : Text)
    → entry_at (drop_if_empty t file m) file' rec'
      ≡ (if file == file' then find rec' m else entry_at t file' rec')
unfolding find
entry_at-drop_if_empty t file [] file' rec' = entry_at-erase t file file' rec'
entry_at-drop_if_empty t file (x ∷ m) file' rec' = entry_at-set_file t file (x ∷ m) file' rec'

module _ (t : LockTable) (now : ℕ) (session file rec : Text) (lock_type : LockType) where
  abbrev pub granted_entry : LockEntry
  granted_entry = record { owner_session_id = session; lock_type = lock_type; acquired_at = now }

  acquire_found-granted :
      (o : Option LockEntry)
      → (acquire_found t now session file rec lock_type o).granted ≡ is_free_for session o
  unfolding acquire_found
  acquire_found-granted none = refl
  acquire_found-granted (some e) = ground arith

  entry_at-acquire_found :
      (o : Option LockEntry) (file' rec' : Text)
      → entry_at t file rec ≡ o
      → entry_at (acquire_found t now session file rec lock_type o).table file' rec' ≡ (
          if is_free_for session o && same_record file rec file' rec'
          then some granted_entry
          else entry_at t file' rec')
  unfolding acquire_found
  entry_at-acquire_found none file' rec' h =
      rw
        (entry_at-set_file t file _ file' rec', find-put rec rec' granted_entry (file_locks t file))
        (ground (arith, text_beq_iff file file'))
  entry_at-acquire_found (some e) file' rec' h = elim (Bool-cases (e.owner_session_id == session)) [
    | inl mine ↦
        rw (mine, entry_at-set_file t file _ file' rec', find-put rec rec' _ (file_locks t file))
          (ground (arith, text_beq_iff file file', text_beq_iff e.owner_session_id session))
    | inr theirs ↦
        rw (theirs, entry_at-set_file t file _ file' rec') (ground (arith, text_beq_iff file file'))
  ]

  -- A call is granted exactly when the three names are not empty and the record is free or already
  -- the caller's.
  pub granted-try_acquire :
      (try_acquire t now session file rec lock_type).granted
      ≡ (keys_ok session file rec && is_free_for session (lookup t file rec))
  unfolding try_acquire lookup
  granted-try_acquire = elim (Bool-cases (keys_ok session file rec)) [
    | inl ok ↦
        let files : (is_valid_key file && is_valid_key rec) ≡ true = ground arith in
        rw (ok, files) (acquire_found-granted (entry_at t file rec))
    | inr bad ↦ rw bad
  ]

  -- After a call every record has the entry that it had before, but the record named by a granted
  -- call, which has an entry of the caller, with the type asked for and the time of the call.
  pub lookup-try_acquire :
      (file' rec' : Text)
      → lookup (try_acquire t now session file rec lock_type).table file' rec' ≡ (
          if (try_acquire t now session file rec lock_type).granted
            && same_record file rec file' rec'
          then some granted_entry
          else lookup t file' rec')
  unfolding try_acquire lookup
  lookup-try_acquire file' rec' = elim (Bool-cases (keys_ok session file rec)) [
    | inl ok ↦
        rw
          (
            ok,
            acquire_found-granted (entry_at t file rec),
            entry_at-acquire_found (entry_at t file rec) file' rec' refl,
          )
          (ground (arith, text_beq_iff file file', text_beq_iff rec rec'))
    | inr bad ↦ rw bad
  ]

  acquire_found-conflict :
      (o : Option LockEntry) (c : LockConflict)
      → (acquire_found t now session file rec lock_type o).conflict ≡ some c
      → (e : LockEntry) × (o ≡ some e)
        × (is_free_for session o ≡ false)
        × (c ≡ fill_conflict file rec e)
  unfolding acquire_found
  acquire_found-conflict none c h = cc
  acquire_found-conflict (some e) c h = (e, refl, ground arith, ground arith)

  -- A conflict is written only on a refusal, and it names the record asked for and the entry of
  -- another session that holds it.
  pub conflict-try_acquire :
      (c : LockConflict)
      → (try_acquire t now session file rec lock_type).conflict ≡ some c
      → (e : LockEntry) × (lookup t file rec ≡ some e)
        × (e.owner_session_id ≢ session)
        × (c ≡ record {
          file_name = file;
          record_id = rec;
          owner_session_id = e.owner_session_id;
          lock_type = e.lock_type;
        })
  unfolding try_acquire lookup fill_conflict
  conflict-try_acquire c h = elim (Bool-cases (keys_ok session file rec)) [
    | inl ok ↦
        let files : (is_valid_key file && is_valid_key rec) ≡ true = ground arith in
        let (e, found, refused, eq) =
          acquire_found-conflict (entry_at t file rec) c (rw (ok, try_acquire) at h) in
        (e, rw files found, (λ same. ground (arith, text_beq_iff e.owner_session_id session)), eq)
    | inr bad ↦ absurd (ground (arith, rw (bad, try_acquire) at h))
  ]

module _ (t : LockTable) (session file rec : Text) where
  release_record-result :
      (m : RecordLocks) (o : Option LockEntry)
      → (release_record t session file rec m o).1 ≡ is_held_by session o
  unfolding release_record
  release_record-result m none = refl
  release_record-result m (some e) = ground arith

  release_file-result :
      (o : Option RecordLocks)
      → (release_file t session file rec o).1 ≡ is_held_by session (find rec (or_empty o))
  unfolding release_file find
  release_file-result none = refl
  release_file-result (some m) = release_record-result m (find rec m)

  -- A release succeeds exactly when the session holds the record's lock.
  pub result-release :
      (release t session file rec).1
      ≡ (keys_ok session file rec && is_held_by session (lookup t file rec))
  unfolding release lookup
  result-release = elim (Bool-cases (keys_ok session file rec)) [
    | inl ok ↦
        let files : (is_valid_key file && is_valid_key rec) ≡ true = ground arith in
        rw (ok, files) (release_file-result (find file t.locks))
    | inr bad ↦ rw bad
  ]

  entry_at-release_file :
      (o : Option RecordLocks) (file' rec' : Text)
      → find file t.locks ≡ o
      → entry_at (release_file t session file rec o).0 file' rec' ≡ (
          if is_held_by session (find rec (or_empty o)) && same_record file rec file' rec'
          then none
          else entry_at t file' rec')
  unfolding release_file release_record find
  entry_at-release_file none file' rec' h = refl
  entry_at-release_file (some m) file' rec' h = elim (Option-cases (find rec m)) [
    | inl e ↦ rw (e, release_record) refl
    | inr (entry, e) ↦ elim (Bool-cases (entry.owner_session_id == session)) [
      | inl mine ↦
          rw
            (e, mine, entry_at-drop_if_empty t file (erase rec m) file' rec', find-erase rec rec' m)
            (ground (arith, text_beq_iff file file'))
      | inr theirs ↦ rw (e, theirs) refl
    ]
  ]

  -- A release that succeeds removes the lock of that record and no other; one that fails changes
  -- no lock.
  pub lookup-release :
      (file' rec' : Text)
      → lookup (release t session file rec).0 file' rec' ≡ (
          if (release t session file rec).1 && same_record file rec file' rec'
          then none
          else lookup t file' rec')
  unfolding release lookup
  lookup-release file' rec' = elim (Bool-cases (keys_ok session file rec)) [
    | inl ok ↦
        rw
          (
            ok,
            release_file-result (find file t.locks),
            entry_at-release_file (find file t.locks) file' rec' refl,
          )
          (ground arith)
    | inr bad ↦ rw bad
  ]
