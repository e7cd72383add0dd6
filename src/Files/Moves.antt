-- ===== src/Files/Moves.antt =====
-- The entries of a directory behind a write: what stands in them, and which of them is found.
use gemini_system.Prelude.{
  true, false, List, [], ◌∷◌, ◌++◌, none, some, Text, text_beq, text_eq, text_beq_iff, ◌≡◌, refl,
  ◌≢◌, inl, inr, Bool-cases, Option-cases, if◌then◌else◌, arith, All,
}
use gemini_system.Prelude.Assoc.{find, put, erase, find-put, find-erase}
use gemini_system.Files.Host.{
  Host, directory, inspect, open_to_read, entries, entry_exists, put_entry, erase_entry,
  first_existing, candidates, resolve_entry, is_valid_name, preferred_extension,
}
use gemini_system.Files.State.{ok}
use gemini_system.Files.Items.{new_record, load, temporary, move_entry}
use gemini_system.Files.Names.{
  HasDot, candidates-HasDot, first_existing-IsEntryOf, resolve_entry-IsEntryOf, entries_apart,
}

module _ (h : Host) (file : Text) where
  entries-put_entry :
      (entry content x : Text)
      → find x (entries (put_entry h file entry content) file)
        ≡ (if text_beq entry x then some content else find x (entries h file))
  unfolding find put
  entries-put_entry entry content x =
      let node : find file (put_entry h file entry content).nodes
          ≡ some (directory (put entry content (entries h file))) =
        rw (find-put file file _ h.nodes) (ground (arith, text_beq_iff file file)) in
      rw (node, find-put entry x content (entries h file))

  entries-erase_entry :
      (entry x : Text)
      → find x (entries (erase_entry h file entry) file)
        ≡ (if text_beq entry x then none else find x (entries h file))
  unfolding find put
  entries-erase_entry entry x =
      let node : find file (erase_entry h file entry).nodes
          ≡ some (directory (erase entry (entries h file))) =
        rw (find-put file file _ h.nodes) (ground (arith, text_beq_iff file file)) in
      rw (node, find-erase entry x (entries h file))

module _ (h : Host) (file temp entry content : Text) where
  -- The temporary file is written, and renamed.
  abbrev pub moved : Host
  moved = move_entry (put_entry h file temp content) file temp entry content

  pub find-moved :
      (x : Text)
      → find x (entries moved file) ≡ (
          if text_beq entry x
          then some content
          else if text_beq temp x
          then none
          else find x (entries h file))
  find-moved x =
      let first = put_entry h file temp content in
      rw
        (
          entries-put_entry (erase_entry first file temp) file entry content x,
          entries-erase_entry first file temp x,
          entries-put_entry h file temp content x,
        )
        (ground arith)

  exists-moved : h.faults inspect file entry ≡ false → entry_exists moved file entry ≡ true
  unfolding entry_exists
  exists-moved calm = rw (find-moved entry) (ground (arith, text_beq_iff entry entry))

  exists-moved_other :
      (x : Text) → entry ≢ x → temp ≢ x → entry_exists moved file x ≡ entry_exists h file x
  unfolding entry_exists
  exists-moved_other x apart apart' =
      rw (find-moved x) (ground (arith, text_beq_iff entry x, text_beq_iff temp x))

  exists-moved_missing :
      (x : Text) → entry ≢ x → entry_exists h file x ≡ false → entry_exists moved file x ≡ false
  unfolding entry_exists
  exists-moved_missing x apart missing =
      rw (find-moved x) (ground (arith, text_beq_iff entry x, text_beq_iff temp x))

  -- The entry that was found first is found first again.
  first_existing-moved :
      (rec : Text) (exts : List Text)
      → h.faults inspect file entry ≡ false
      → first_existing h file rec exts ≡ some entry
      → first_existing moved file rec exts ≡ some entry
  unfolding first_existing
  first_existing-moved rec [] calm found = cc
  first_existing-moved rec (ext ∷ exts) calm found =
      elim (Bool-cases (entry_exists h file (rec ++ ext))) [
        | inl here ↦
            let same : rec ++ ext ≡ entry = ground (arith, rw (here, first_existing) at found) in
            rw (same, exists-moved calm)
        | inr missing ↦
            let later =
              first_existing-moved rec exts calm (rw (missing, first_existing) at found) in
            elim (Bool-cases (text_beq entry (rec ++ ext))) [
              | inl same ↦ rw (← (text_beq_iff entry (rec ++ ext)).0 same, exists-moved calm)
              | inr apart ↦
                  rw
                    (exists-moved_missing (rec ++ ext)
                      (λ same. ground (arith, text_beq_iff entry (rec ++ ext))) missing)
                    later
            ]
      ]

  first_existing-moved_other :
      (rec' : Text) (exts : List Text)
      → All (λ ext. (entry ≢ rec' ++ ext) × (temp ≢ rec' ++ ext)) exts
      → first_existing moved file rec' exts ≡ first_existing h file rec' exts
  unfolding first_existing
  first_existing-moved_other rec' [] all = refl
  first_existing-moved_other rec' (ext ∷ exts) all =
      rw (
        exists-moved_other (rec' ++ ext) all.0.0 all.0.1,
        first_existing-moved_other rec' exts all.1,
      )

  load-moved_other :
      (rec' x : Text)
      → entry ≢ x
      → temp ≢ x
      → load moved file rec' (some x) ≡ load h file rec' (some x)
  load-moved_other rec' x apart apart' =
      rw (find-moved x) (ground (arith, text_beq_iff entry x, text_beq_iff temp x))

-- The host after a write that succeeded.
abbrev pub written : Host → Text → Text → Text → Host
written h file rec content =
    moved h file (temporary (resolve_entry h file rec)) (resolve_entry h file rec) content

module _ (h : Host) (file rec content : Text) where
  first_existing-written :
      h.faults inspect file (resolve_entry h file rec) ≡ false
      → first_existing (written h file rec content) file rec (candidates file)
        ≡ some (resolve_entry h file rec)
  unfolding resolve_entry first_existing
  first_existing-written calm = elim (Option-cases (first_existing h file rec (candidates file))) [
    | inl nowhere ↦
        let fresh : resolve_entry h file rec ≡ rec ++ preferred_extension file = rw nowhere refl in
        rw (
          fresh,
          exists-moved h file (temporary (rec ++ preferred_extension file))
              (rec ++ preferred_extension file) content (rw fresh at calm),
        )
    | inr (entry, found) ↦
        let same : resolve_entry h file rec ≡ entry = rw found refl in
        rw same (
          first_existing-moved h file (temporary entry) entry content rec (candidates file)
            (rw same at calm) found)
  ]

  -- A read of the record gives what was written.
  pub load-written :
      h.faults inspect file (resolve_entry h file rec) ≡ false
      → h.faults open_to_read file (resolve_entry h file rec) ≡ false
      → load
          (written h file rec content)
          file
          rec
          (first_existing (written h file rec content) file rec (candidates file))
        ≡ ok (some (new_record rec content))
  load-written calm opens =
      let entry = resolve_entry h file rec in
      rw
        (
          first_existing-written calm,
          find-moved h file (temporary entry) entry content entry,
          opens,
        )
        (ground (arith, text_beq_iff entry entry))

  -- A read of another record gives what it gave before.
  pub load-written_other :
      (rec' : Text)
      → is_valid_name rec ≡ true
      → is_valid_name rec' ≡ true
      → rec' ≢ rec
      → load
          (written h file rec content)
          file
          rec'
          (first_existing (written h file rec content) file rec' (candidates file))
        ≡ load h file rec' (first_existing h file rec' (candidates file))
  load-written_other rec' valid valid' differ =
      let entry = resolve_entry h file rec in
      let of_rec = resolve_entry-IsEntryOf h file rec in
      let apart = λ (ext : Text) (dot : HasDot ext).
        entries_apart rec rec' entry ext valid valid' differ of_rec dot in
      let (d0, (d1, (d2, (d3, u)))) = candidates-HasDot file in
      let same =
        first_existing-moved_other h file (temporary entry) entry content rec' (candidates file)
          (apart _ d0, (apart _ d1, (apart _ d2, (apart _ d3, tt)))) in
      elim (Option-cases (first_existing h file rec' (candidates file))) [
        | inl nowhere ↦ rw (same, nowhere)
        | inr (x, found) ↦
            let (ext, shape, dot) =
              first_existing-IsEntryOf h file rec' x (candidates file) (candidates-HasDot file)
                found in
            let (away, away') = apart ext dot in
            rw (same, found)
              (load-moved_other h file (temporary entry) entry content rec' x (rw shape away)
                (rw shape away'))
      ]
