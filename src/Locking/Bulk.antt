-- ===== src/Locking/Bulk.antt =====
-- The two releases of many locks: when a session ends, and when a file is deleted.
use gemini_system.Prelude.{
  ℕ, ◌+◌, ◌≡◌, refl, true, [], ◌∷◌, Option, none, some, Text, ◌==◌, text_eq, text_beq_iff,
  if◌then◌else◌, All, arith, inl, inr, Bool-cases, length,
}
use gemini_system.Prelude.Assoc.{Assoc, find, erase, Distinct}
use gemini_system.Locking.{
  LockEntry, RecordLocks, LockTable, is_valid_key, or_empty, sweep_records, sweep_files, keep_file,
  release_all_for_session, release_all_for_file, release_all_found, lookup,
}
use gemini_system.Locking.Wellformed.{IsWellformed, FileOk, sweep_records_fresh, sweep_files_fresh}
use gemini_system.Locking.Ownership.{entry_at, entry_at-erase}

-- The entry, unless the session owns it.
abbrev pub unless_owned : Text → Option LockEntry → Option LockEntry
unless_owned session none = none
unless_owned session (some e) = if e.owner_session_id == session then none else some e

module _ (session : Text) where
  find-sweep_records :
      (rec : Text) (m : RecordLocks)
      → Distinct m
      → find rec (sweep_records session m).0 ≡ unless_owned session (find rec m)
  unfolding find sweep_records
  find-sweep_records rec [] d = refl
  find-sweep_records rec ((r, e) ∷ m) (fresh, d) =
      ground (
        arith,
        find-sweep_records rec m d,
        sweep_records_fresh session r m fresh,
        text_beq_iff r rec,
      )

  find-keep_file :
      (k file : Text) (m : RecordLocks) (rest : Assoc Text RecordLocks) (rec : Text)
      → find file rest ≡ none
      → find rec (or_empty (find k (keep_file file m rest)))
        ≡ (if file == k then find rec m else find rec (or_empty (find k rest)))
  unfolding find
  find-keep_file k file [] rest rec fresh = ground (arith, text_beq_iff file k)
  find-keep_file k file (x ∷ m) rest rec fresh = ground arith

  find-sweep_files :
      (k rec : Text) (fs : Assoc Text RecordLocks)
      → Distinct fs
      → All FileOk fs
      → find rec (or_empty (find k (sweep_files session fs).0))
        ≡ unless_owned session (find rec (or_empty (find k fs)))
  unfolding find sweep_files
  find-sweep_files k rec [] d a = refl
  find-sweep_files k rec ((file, m) ∷ fs) (fresh, d) (here, a) =
      rw
        (find-keep_file k file (sweep_records session m).0 (sweep_files session fs).0 rec
          (sweep_files_fresh session file fs fresh))
        (ground (arith, find-sweep_files k rec fs d a, find-sweep_records rec m here.2))

  -- When a session is released, each record loses its lock exactly if the session held it.
  pub lookup-release_all_for_session :
      (t : LockTable) (file rec : Text)
      → IsWellformed t
      → is_valid_key session ≡ true
      → lookup (release_all_for_session t session).0 file rec
        ≡ unless_owned session (lookup t file rec)
  unfolding release_all_for_session lookup
  lookup-release_all_for_session t file rec w key =
      rw key (ground (arith, find-sweep_files file rec t.locks w.distinct w.files))

-- The number of locks in the table.
abbrev pub count_locks : Assoc Text RecordLocks → ℕ
count_locks [] = 0
count_locks ((file, m) ∷ fs) = length m + count_locks fs

module _ (session : Text) where
  length-sweep_records :
      (m : RecordLocks)
      → length (sweep_records session m).0 + (sweep_records session m).1 ≡ length m
  unfolding sweep_records
  length-sweep_records [] = refl
  length-sweep_records ((r, e) ∷ m) = ground (arith, length-sweep_records m)

  count_locks-keep_file :
      (file : Text) (m : RecordLocks) (rest : Assoc Text RecordLocks)
      → count_locks (keep_file file m rest) ≡ length m + count_locks rest
  count_locks-keep_file file [] rest = omega arith
  count_locks-keep_file file (x ∷ m) rest = refl

  count_locks-sweep_files :
      (fs : Assoc Text RecordLocks)
      → count_locks (sweep_files session fs).0 + (sweep_files session fs).1 ≡ count_locks fs
  unfolding sweep_files
  count_locks-sweep_files [] = refl
  count_locks-sweep_files ((file, m) ∷ fs) = omega (
    arith,
    count_locks-keep_file file (sweep_records session m).0 (sweep_files session fs).0,
    length-sweep_records m,
    count_locks-sweep_files fs,
  )

  -- The number returned is the number of locks that left the table.
  pub count-release_all_for_session :
      (t : LockTable)
      → count_locks (release_all_for_session t session).0.locks
          + (release_all_for_session t session).1
        ≡ count_locks t.locks
  unfolding release_all_for_session
  count-release_all_for_session t = ground (arith, count_locks-sweep_files t.locks)

module _ (file : Text) where
  erase_fresh : {V : Type 0} (m : Assoc Text V) → find file m ≡ none → erase file m ≡ m
  unfolding find erase
  erase_fresh [] h = refl
  erase_fresh ((j, v) ∷ m) h = ground (arith, erase_fresh m)

  count_locks-erase :
      (fs : Assoc Text RecordLocks)
      → Distinct fs
      → count_locks (erase file fs) + length (or_empty (find file fs)) ≡ count_locks fs
  unfolding find erase
  count_locks-erase [] d = refl
  count_locks-erase ((k, m) ∷ fs) (fresh, d) =
      ground (arith, count_locks-erase fs d, text_beq_iff k file)

  release_all_found-count :
      (t : LockTable) (o : Option RecordLocks)
      → find file t.locks ≡ o
      → IsWellformed t
      → count_locks (release_all_found t file o).0.locks + (release_all_found t file o).1
        ≡ count_locks t.locks
  unfolding release_all_found
  release_all_found-count t none h w = omega arith
  release_all_found-count t (some m) h w = ground (arith, count_locks-erase t.locks w.distinct)

  entry_at-release_all_found :
      (t : LockTable) (o : Option RecordLocks) (file' rec : Text)
      → find file t.locks ≡ o
      → entry_at (release_all_found t file o).0 file' rec
        ≡ (if file == file' then none else entry_at t file' rec)
  unfolding release_all_found find
  entry_at-release_all_found t none file' rec h = ground (arith, text_beq_iff file file')
  entry_at-release_all_found t (some m) file' rec h = entry_at-erase t file file' rec

  -- When a file is deleted, its records lose their locks, no other record does, and the number
  -- returned is the number of locks that left the table.
  pub release_all_for_file_lem :
      (t : LockTable) (file' rec : Text)
      → IsWellformed t
      → (lookup (release_all_for_file t file).0 file' rec
          ≡ (if file == file' then none else lookup t file' rec))
        × (count_locks (release_all_for_file t file).0.locks + (release_all_for_file t file).1
            ≡ count_locks t.locks)
  unfolding release_all_for_file lookup
  release_all_for_file_lem t file' rec w = elim (Bool-cases (is_valid_key file)) [
    | inl ok ↦ rw ok (
      ground (arith, entry_at-release_all_found t (find file t.locks) file' rec refl),
      release_all_found-count t (find file t.locks) refl w,
    )
    | inr bad ↦ rw bad (ground (arith, text_beq_iff file file'), omega arith)
  ]
