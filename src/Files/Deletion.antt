-- ===== src/Files/Deletion.antt =====
-- What `deleteFile` leaves behind.
use gemini_system.Prelude.{
  true, false, [], none, some, Text, text_eq, text_beq_iff, ◌≡◌, ◌≢◌, ◌∙◌, sym, ap, inl, inr,
  Bool-cases, arith,
}
use gemini_system.Prelude.Assoc.{find, erase, find-erase}
use gemini_system.Locking.{LockTable, release_all_for_file, lookup}
use gemini_system.Locking.Wellformed.{IsWellformed}
use gemini_system.Locking.Bulk.{release_all_for_file_lem}
use gemini_system.Files.Host.{inspect, remove_all, is_valid_name}
use gemini_system.Files.State.{FileSystem, file_not_found, ok, err}
use gemini_system.Files.Handles.{check_directory, drop_locks, delete_file, open_file}
use gemini_system.Files.Exclusion.{Result-cases}

check_directory-calm :
    (name : Text) (fs : FileSystem)
    → check_directory name fs ≡ ok tt
    → fs.host.faults inspect name [] ≡ false
unfolding check_directory
check_directory-calm name fs h = ground arith

module _ (name : Text) (fs after : FileSystem) where
  abbrev pub unlocked : FileSystem
  unlocked = record fs { lock_table = drop_locks fs.lock_table name }

  delete_file-ok :
      delete_file name fs ≡ (ok tt, after)
      → (is_valid_name name ≡ true)
        × (fs.host.faults inspect name [] ≡ false)
        × (after ≡ record unlocked { host = record fs.host { nodes = erase name fs.host.nodes } })
  unfolding delete_file
  delete_file-ok h = elim (Bool-cases (is_valid_name name)) [
    | inr invalid ↦ absurd (ground (arith, rw (invalid, delete_file) at h))
    | inl valid ↦ elim (Result-cases (check_directory name unlocked)) [
      | inr (e, failed) ↦ absurd (ground (arith, rw (valid, failed, delete_file) at h))
      | inl (u, checked) ↦ elim (Bool-cases (fs.host.faults remove_all name [])) [
        | inl fault ↦ absurd (ground (arith, rw (valid, checked, fault, delete_file) at h))
        | inr removed ↦ (
          valid,
          check_directory-calm name unlocked checked,
          sym (ap (λ p. p.1) (rw (valid, checked, removed, delete_file) at h)),
        )
      ]
    ]
  ]

  -- When a file has been deleted, it cannot be opened, no record of it is locked, by whomever it
  -- was, and every record of another file has the lock that it had; this for a lock table that is
  -- well formed.
  pub delete_file_lem :
      (t : LockTable)
      → fs.lock_table ≡ some t
      → IsWellformed t
      → delete_file name fs ≡ (ok tt, after)
      → (open_file name after ≡ err file_not_found)
        × ((t' : LockTable) × (after.lock_table ≡ some t')
            × ((rec : Text) → lookup t' name rec ≡ none)
            × ((file rec : Text) → file ≢ name → lookup t' file rec ≡ lookup t file rec))
  unfolding open_file check_directory
  delete_file_lem t table w h =
      let (valid, calm, result) = delete_file-ok h in
      let t' = (release_all_for_file t name).0 in
      let gone : find name (erase name fs.host.nodes) ≡ none =
        rw (find-erase name name fs.host.nodes) (ground (arith, text_beq_iff name name)) in
      (
        rw (result, gone) (ground arith),
        (
          t',
          rw (result, table),
          λ rec.
              (release_all_for_file_lem name t name rec w).0
              ∙ ground (arith, text_beq_iff name name),
          λ file rec other.
              (release_all_for_file_lem name t file rec w).0
              ∙ ground (arith, text_beq_iff name file),
        ),
      )
