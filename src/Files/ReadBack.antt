-- ===== src/Files/ReadBack.antt =====
-- What `write` does to the records of its file, as `read` sees them.
use gemini_system.Prelude.{
  true, false, ◌||◌, not, some, Text, text_eq, text_beq_iff, ◌≡◌, refl, ◌≢◌, sym, ap, inl, inr,
  Bool-cases, arith,
}
use gemini_system.Prelude.Assoc.{find, put, find-put}
use gemini_system.Records.{from_raw, to_raw}
use gemini_system.Records.Lines.{to_raw-from_raw}
use gemini_system.Files.Host.{
  Host, directory, inspect, open_to_read, open_to_write, rename, entries, is_directory, put_entry,
  erase_entry, first_existing, candidates, resolve_entry, is_valid_name,
}
use gemini_system.Files.State.{FileSystem, ok, and_then}
use gemini_system.Files.Locks.{assert_record_accessible}
use gemini_system.Files.Handles.{FileHandle, open_file, check_directory}
use gemini_system.Files.Items.{
  new_record, Record, check_access, load, temporary, replace_entry, read_record, write_record, read,
  write,
}
use gemini_system.Files.Exclusion.{Result-cases, open_file-name}
use gemini_system.Files.Moves.{moved, written, load-written, load-written_other}

-- A record's text is not changed by its constructor.
pub new_record-value :
    (name value : Text) → new_record name value ≡ record { name = name; value = value }
unfolding new_record
new_record-value name value = rw (to_raw-from_raw value)

replace_entry-ok :
    (file entry content : Text) (fs after : FileSystem)
    → replace_entry file entry content fs ≡ (ok tt, after)
    → (is_directory (find file fs.host.nodes) ≡ true)
      × (after ≡ record fs { host = moved fs.host file (temporary entry) entry content })
unfolding replace_entry
replace_entry-ok file entry content fs after h =
    elim (Bool-cases (
      fs.host.faults open_to_write file (temporary entry)
      || not (is_directory (find file fs.host.nodes)))) [
        | inl stuck ↦ absurd (ground (arith, rw (stuck, replace_entry) at h))
        | inr opens ↦ elim (Bool-cases (fs.host.faults rename file entry)) [
          | inl fault ↦ absurd (ground (arith, rw (opens, fault, replace_entry) at h))
          | inr renamed ↦
              (ground arith, sym (ap (λ p. p.1) (rw (opens, renamed, replace_entry) at h)))
        ]
      ]

read-opened :
    (file rec : Text) (fs : FileSystem) (handle : FileHandle)
    → open_file file fs ≡ ok handle
    → handle.name ≡ file
    → read file rec fs
      ≡ and_then
          (check_access file rec fs)
          (λ u. load fs.host file rec (first_existing fs.host file rec (candidates file)))
unfolding read read_record
read-opened file rec fs handle opened same = rw (opened, same, read)

check_access-host :
    (file rec : Text) (fs : FileSystem) (h : Host)
    → check_access file rec (record fs { host = h }) ≡ check_access file rec fs
unfolding check_access assert_record_accessible
check_access-host file rec fs h = refl

check_access-valid :
    (file rec : Text) (fs : FileSystem)
    → check_access file rec fs ≡ ok tt
    → is_valid_name rec ≡ true
unfolding check_access
check_access-valid file rec fs h = ground arith

module _ (file : Text) (r : Record) (fs after : FileSystem) where
  abbrev pub raw : Text
  raw = to_raw (from_raw r.value)

  -- A write that succeeds has passed the checks, and has replaced the record's entry.
  write-ok :
      write file r fs ≡ (ok tt, after)
      → (handle : FileHandle) × (open_file file fs ≡ ok handle)
        × (handle.name ≡ file)
        × (check_access file r.name fs ≡ ok tt)
        × (replace_entry file (resolve_entry fs.host file r.name) raw fs ≡ (ok tt, after))
  unfolding write write_record
  write-ok h = elim (Result-cases (open_file file fs)) [
    | inr (e, failed) ↦ absurd (ground (arith, rw (failed, write) at h))
    | inl (handle, opened) ↦
        let same = open_file-name file fs handle opened in
        elim (Result-cases (check_access file r.name fs)) [
          | inr (e, refused) ↦
              absurd (ground (arith, rw (opened, same, refused, write, write_record) at h))
          | inl (u, access) ↦
              (handle, opened, same, access, rw (opened, same, access, write, write_record) at h)
        ]
  ]

  -- The file is still a directory, so it is opened as before.
  open_file-written :
      (entry : Text) (handle : FileHandle)
      → open_file file fs ≡ ok handle
      → open_file file (record fs { host = moved fs.host file (temporary entry) entry raw })
        ≡ ok handle
  unfolding open_file check_directory
  open_file-written entry handle opened =
      let first = put_entry fs.host file (temporary entry) raw in
      let node : find file (moved fs.host file (temporary entry) entry raw).nodes
          ≡ some (
              directory (put entry raw (entries (erase_entry first file (temporary entry)) file))) =
        rw (find-put file file _ (erase_entry first file (temporary entry)).nodes)
          (ground (arith, text_beq_iff file file)) in
      rw node (ground arith)

  -- A write that succeeds is read back: where the host does not fail on the record's entry, a read
  -- gives exactly the bytes that were written, and a read of any other record of the file gives
  -- what it gave before the write.
  pub read-write :
      fs.host.faults inspect file (resolve_entry fs.host file r.name) ≡ false
      → fs.host.faults open_to_read file (resolve_entry fs.host file r.name) ≡ false
      → write file r fs ≡ (ok tt, after)
      → (read file r.name after ≡ ok (some r))
        × ((rec' : Text) → rec' ≢ r.name → read file rec' after ≡ read file rec' fs)
  read-write calm opens h =
      let (handle, opened, same, access, replaced) = write-ok h in
      let entry = resolve_entry fs.host file r.name in
      let (there, result) = replace_entry-ok file entry raw fs after replaced in
      let host' = written fs.host file r.name raw in
      let opened' : open_file file (record fs { host = host' }) ≡ ok handle =
        open_file-written entry handle opened in
      let valid = check_access-valid file r.name fs access in
      (
        rw (
          result,
          read-opened file r.name (record fs { host = host' }) handle opened' same,
          check_access-host file r.name fs host',
          access,
          load-written fs.host file r.name raw calm opens,
          to_raw-from_raw r.value,
          new_record-value r.name r.value,
        ),
        λ rec' differ.
            rw
              (
                result,
                read-opened file rec' (record fs { host = host' }) handle opened' same,
                read-opened file rec' fs handle opened same,
                check_access-host file rec' fs host',
              )
              (elim (Result-cases (check_access file rec' fs)) [
                | inr (e, refused) ↦ rw (refused)
                | inl (u, access') ↦ rw access' (
                    load-written_other fs.host file r.name raw rec' valid
                      (check_access-valid file rec' fs access') differ)
              ]),
      )
