-- ===== src/Locking/Wellformed.antt =====
-- The shape that every operation of `LockTable` keeps.
use gemini_system.Prelude.{
  ℕ, ◌≡◌, refl, ◌≢◌, true, false, ◌&&◌, [], ◌∷◌, Option, none, some, Text, ◌==◌, text_eq, All,
  arith, inl, inr, Bool-cases, Option-cases,
}
use gemini_system.Prelude.Assoc.{
  Assoc, find, put, erase, Distinct, put-Distinct, erase-Distinct, find-All, put-All, erase-All,
}
use gemini_system.Locking.{
  LockType, LockEntry, RecordLocks, LockTable, is_valid_key, file_locks, try_acquire, acquire_found,
  set_file, drop_if_empty, release, release_record, release_file, sweep_records, sweep_files,
  keep_file, release_all_for_session, release_all_for_file, release_all_found,
}

abbrev pub EntryOk : Text × LockEntry → Type 0
EntryOk p = (is_valid_key p.0 ≡ true) × (is_valid_key p.1.owner_session_id ≡ true)

-- A file's map is never left empty.
abbrev pub FileOk : Text × RecordLocks → Type 0
FileOk p = (is_valid_key p.0 ≡ true) × (p.1 ≢ []) × Distinct p.1 × All EntryOk p.1

pub record IsWellformed (t : LockTable) : Type 0 where
  pub distinct : Distinct t.locks
  pub files : All FileOk t.locks

-- What a file's map satisfies, except that it may be empty.
abbrev MapOk : RecordLocks → Type 0
MapOk m = Distinct m × All EntryOk m

file_locks-MapOk : (t : LockTable) (file : Text) → IsWellformed t → MapOk (file_locks t file)
file_locks-MapOk t file w = elim (Option-cases (find file t.locks)) [
  | inl e ↦ rw e (tt, tt)
  | inr (m, e) ↦ let ok = find-All FileOk file t.locks w.files e in rw e (ok.2, ok.3)
]

module _ (t : LockTable) (file : Text) (w : IsWellformed t) where
  set_file-IsWellformed :
      (m : RecordLocks)
      → is_valid_key file ≡ true
      → m ≢ []
      → MapOk m
      → IsWellformed (set_file t file m)
  set_file-IsWellformed m key filled ok = record {
    distinct = put-Distinct file m t.locks w.distinct;
    files = put-All FileOk file m t.locks (key, filled, ok.0, ok.1) w.files;
  }

  erase-IsWellformed : IsWellformed (record { locks = erase file t.locks })
  erase-IsWellformed = record {
    distinct = erase-Distinct file t.locks w.distinct;
    files = erase-All FileOk file t.locks w.files;
  }

  drop_if_empty-IsWellformed :
      (m : RecordLocks) → is_valid_key file ≡ true → MapOk m → IsWellformed (drop_if_empty t file m)
  drop_if_empty-IsWellformed [] key ok = erase-IsWellformed
  drop_if_empty-IsWellformed (x ∷ m) key ok = set_file-IsWellformed (x ∷ m) key (cc) ok

put-ne-nil : (rec : Text) (entry : LockEntry) (m : RecordLocks) → put rec entry m ≢ []
unfolding put
put-ne-nil rec entry [] = cc
put-ne-nil rec entry ((j, w) ∷ m) = ground arith

put-MapOk :
    (rec : Text) (entry : LockEntry) (m : RecordLocks)
    → EntryOk (rec, entry)
    → MapOk m
    → MapOk (put rec entry m)
put-MapOk rec entry m ok d = (put-Distinct rec entry m d.0, put-All EntryOk rec entry m ok d.1)

found-ne-nil : (rec : Text) (m : RecordLocks) {e : LockEntry} → find rec m ≡ some e → m ≢ []
unfolding find
found-ne-nil rec [] h = cc
found-ne-nil rec (x ∷ m) h = cc

module _ (t : LockTable) (now : ℕ) (session file rec : Text) (lock_type : LockType) where
  acquire_found-IsWellformed :
      (o : Option LockEntry)
      → find rec (file_locks t file) ≡ o
      → is_valid_key session ≡ true
      → is_valid_key file ≡ true
      → is_valid_key rec ≡ true
      → IsWellformed t
      → IsWellformed (acquire_found t now session file rec lock_type o).table
  unfolding acquire_found
  acquire_found-IsWellformed none e ks kf kr w =
      set_file-IsWellformed t file w _ kf (put-ne-nil rec _ _)
        (put-MapOk rec _ _ (kr, ks) (file_locks-MapOk t file w))
  acquire_found-IsWellformed (some entry) e ks kf kr w =
      let ok = file_locks-MapOk t file w in
      let old = find-All EntryOk rec (file_locks t file) ok.1 e in
      elim (Bool-cases (entry.owner_session_id == session)) [
        | inl mine ↦ rw mine (
            set_file-IsWellformed t file w _ kf (put-ne-nil rec _ _)
              (put-MapOk rec _ _ (kr, old.1) ok))
        | inr theirs ↦ rw theirs (set_file-IsWellformed t file w _ kf (found-ne-nil rec _ e) ok)
      ]

  pub try_acquire-IsWellformed :
      IsWellformed t → IsWellformed (try_acquire t now session file rec lock_type).table
  unfolding try_acquire
  try_acquire-IsWellformed w =
      elim (Bool-cases (is_valid_key session && (is_valid_key file && is_valid_key rec))) [
        | inl ok ↦ rw ok (
            acquire_found-IsWellformed (find rec (file_locks t file)) refl (ground arith)
              (ground arith) (ground arith) w)
        | inr bad ↦ rw bad w
      ]

module _ (t : LockTable) (session file rec : Text) where
  release_record-IsWellformed :
      (m : RecordLocks) (o : Option LockEntry)
      → is_valid_key file ≡ true
      → MapOk m
      → IsWellformed t
      → IsWellformed (release_record t session file rec m o).0
  unfolding release_record
  release_record-IsWellformed m none kf ok w = w
  release_record-IsWellformed m (some entry) kf ok w =
      elim (Bool-cases (entry.owner_session_id == session)) [
        | inl mine ↦ rw mine (
            drop_if_empty-IsWellformed t file w _ kf
              (erase-Distinct rec m ok.0, erase-All EntryOk rec m ok.1))
        | inr theirs ↦ rw theirs w
      ]

  release_file-IsWellformed :
      (o : Option RecordLocks)
      → find file t.locks ≡ o
      → IsWellformed t
      → IsWellformed (release_file t session file rec o).0
  unfolding release_file
  release_file-IsWellformed none e w = w
  release_file-IsWellformed (some m) e w =
      let ok = find-All FileOk file t.locks w.files e in
      release_record-IsWellformed m (find rec m) ok.0 (ok.2, ok.3) w

  pub release-IsWellformed : IsWellformed t → IsWellformed (release t session file rec).0
  unfolding release
  release-IsWellformed w =
      elim (Bool-cases (is_valid_key session && (is_valid_key file && is_valid_key rec))) [
        | inl ok ↦ rw ok (release_file-IsWellformed (find file t.locks) refl w)
        | inr bad ↦ rw bad w
      ]

module _ (session : Text) where
  pub sweep_records_fresh :
      (k : Text) (m : RecordLocks) → find k m ≡ none → find k (sweep_records session m).0 ≡ none
  unfolding sweep_records find
  sweep_records_fresh k [] h = refl
  sweep_records_fresh k ((rec, entry) ∷ m) h = ground (arith, sweep_records_fresh k m)

  sweep_records-MapOk : (m : RecordLocks) → MapOk m → MapOk (sweep_records session m).0
  unfolding sweep_records
  sweep_records-MapOk [] ok = ok
  sweep_records-MapOk ((rec, entry) ∷ m) ((fresh, d), (here, a)) =
      let ih = sweep_records-MapOk m (d, a) in
      elim (Bool-cases (entry.owner_session_id == session)) [
        | inl mine ↦ rw mine ih
        | inr theirs ↦ rw theirs ((sweep_records_fresh rec m fresh, ih.0), (here, ih.1))
      ]

  keep_file_fresh :
      (k file : Text) (m : RecordLocks) (rest : Assoc Text RecordLocks)
      → (file == k) ≡ false
      → find k rest ≡ none
      → find k (keep_file file m rest) ≡ none
  unfolding find
  keep_file_fresh k file [] rest ne h = h
  keep_file_fresh k file (x ∷ m) rest ne h = ground arith

  pub sweep_files_fresh :
      (k : Text) (fs : Assoc Text RecordLocks)
      → find k fs ≡ none
      → find k (sweep_files session fs).0 ≡ none
  unfolding sweep_files find
  sweep_files_fresh k [] h = refl
  sweep_files_fresh k ((file, m) ∷ fs) h =
      keep_file_fresh k file _ _ (ground arith) (sweep_files_fresh k fs (ground arith))

  keep_file-Ok :
      (file : Text) (m : RecordLocks) (rest : Assoc Text RecordLocks)
      → is_valid_key file ≡ true
      → MapOk m
      → find file rest ≡ none
      → Distinct rest × All FileOk rest
      → Distinct (keep_file file m rest) × All FileOk (keep_file file m rest)
  keep_file-Ok file [] rest key ok fresh (d, a) = (d, a)
  keep_file-Ok file (x ∷ m) rest key ok fresh (d, a) = ((fresh, d), ((key, cc, ok.0, ok.1), a))

  sweep_files-Ok :
      (fs : Assoc Text RecordLocks)
      → Distinct fs × All FileOk fs
      → Distinct (sweep_files session fs).0 × All FileOk (sweep_files session fs).0
  unfolding sweep_files
  sweep_files-Ok [] ok = ok
  sweep_files-Ok ((file, m) ∷ fs) ((fresh, d), (here, a)) =
      keep_file-Ok file _ _ here.0 (sweep_records-MapOk m (here.2, here.3))
        (sweep_files_fresh file fs fresh) (sweep_files-Ok fs (d, a))

  pub release_all_for_session-IsWellformed :
      (t : LockTable) → IsWellformed t → IsWellformed (release_all_for_session t session).0
  unfolding release_all_for_session
  release_all_for_session-IsWellformed t w = elim (Bool-cases (is_valid_key session)) [
    | inl ok ↦
        let swept = sweep_files-Ok t.locks (w.distinct, w.files) in
        rw ok (record { distinct = swept.0; files = swept.1 })
    | inr bad ↦ rw bad w
  ]

release_all_found-IsWellformed :
    (t : LockTable) (file : Text) (o : Option RecordLocks)
    → IsWellformed t
    → IsWellformed (release_all_found t file o).0
unfolding release_all_found
release_all_found-IsWellformed t file none w = w
release_all_found-IsWellformed t file (some m) w = erase-IsWellformed t file w

pub release_all_for_file-IsWellformed :
    (t : LockTable) (file : Text) → IsWellformed t → IsWellformed (release_all_for_file t file).0
unfolding release_all_for_file
release_all_for_file-IsWellformed t file w = elim (Bool-cases (is_valid_key file)) [
  | inl ok ↦ rw ok (release_all_found-IsWellformed t file (find file t.locks) w)
  | inr bad ↦ rw bad w
]
