-- ===== src/Files/Cursor.antt =====
-- The cursor of READNEXT over the listing that its first call takes.
use gemini_system.Prelude.{
  ℕ, zero, suc, ◌+◌, ◌≤◌, subst, true, false, List, [], ◌∷◌, Option, none, some, Text, ◌≡◌, refl,
  ◌⊎◌, inl, inr, Option-cases, arith, get_elem?, length, ◌∙◌, ap, sym,
}
use gemini_system.Files.State.{FileSystem, Result, ok, err, cursor_exhausted}
use gemini_system.Files.Handles.{FileHandle, list_records, next_id, read_next_record}

-- The handle after one call in each of the states.
unfoldable pub after_calls : FileHandle → List FileSystem → FileHandle
after_calls handle [] = handle
after_calls handle (fs ∷ rest) = after_calls (read_next_record handle fs).1 rest

abbrev pub id_or_exhausted : Option Text → Result Text
id_or_exhausted none = err cursor_exhausted
id_or_exhausted (some id) = ok id

-- The cursor over `ids` after `n` calls: it has moved `n` times, or stands at the end.
abbrev IsAt : List Text → ℕ → FileHandle → Type 0
IsAt ids n h =
    (h.record_ids ≡ ids)
    × (h.cursor_primed ≡ true)
    × (h.cursor_index ≤ n)
    × ((h.cursor_index ≡ n) ⊎ (get_elem? ids h.cursor_index ≡ none))

get_elem?-none :
    (ids : List Text) (i n : ℕ) → i ≤ n → get_elem? ids i ≡ none → get_elem? ids n ≡ none
get_elem?-none [] i n h k = refl
get_elem?-none (x ∷ xs) zero n h k = cc
get_elem?-none (x ∷ xs) (suc i) zero h k = absurd (ground arith)
get_elem?-none (x ∷ xs) (suc i) (suc n) h k = get_elem?-none xs i n (omega arith) k

module _ (ids : List Text) where
  read_next_record-primed :
      (h : FileHandle) (fs : FileSystem)
      → h.record_ids ≡ ids
      → h.cursor_primed ≡ true
      → read_next_record h fs ≡ next_id h (get_elem? ids h.cursor_index)
  unfolding read_next_record
  read_next_record-primed h fs same set = rw (set, same)

  next_id-result : (h : FileHandle) (o : Option Text) → (next_id h o).0 ≡ id_or_exhausted o
  next_id-result h none = refl
  next_id-result h (some id) = refl

  get_elem?-IsAt :
      (n : ℕ) (h : FileHandle) → IsAt ids n h → get_elem? ids h.cursor_index ≡ get_elem? ids n
  get_elem?-IsAt n h (same, set, le, inl at_n) = ap (get_elem? ids) at_n
  get_elem?-IsAt n h (same, set, le, inr over) =
      over ∙ sym (get_elem?-none ids h.cursor_index n le over)

  next_id-IsAt :
      (n : ℕ) (h : FileHandle)
      → IsAt ids n h
      → IsAt ids (suc n) (next_id h (get_elem? ids h.cursor_index)).1
  next_id-IsAt n h (same, set, le, place) = elim (Option-cases (get_elem? ids h.cursor_index)) [
    | inl over ↦ rw over (same, set, omega arith, inr over)
    | inr (id, found) ↦ rw found (same, set, omega arith, inl (ground arith))
  ]

  after_calls-IsAt :
      (n : ℕ) (h : FileHandle) (later : List FileSystem)
      → IsAt ids n h
      → IsAt ids (length later + n) (after_calls h later)
  unfolding after_calls
  after_calls-IsAt n h [] at_n =
      let count : n ≡ length {A = FileSystem} [] + n = omega arith in
      subst (λ m. IsAt ids m h) count at_n
  after_calls-IsAt n h (fs ∷ rest) at_n =
      let step : IsAt ids (suc n) (read_next_record h fs).1 =
        rw (read_next_record-primed h fs at_n.0 at_n.1) (next_id-IsAt n h at_n) in
      let count : length rest + suc n ≡ suc (length rest) + n = omega arith in
      subst (λ m. IsAt ids m (after_calls (read_next_record h fs).1 rest)) count
        (after_calls-IsAt (suc n) (read_next_record h fs).1 rest step)

module _ (handle : FileHandle) (fs : FileSystem) where
  abbrev primed_handle : FileHandle
  primed_handle = record handle {
    record_ids = list_records handle fs;
    cursor_index = 0;
    cursor_primed = true;
  }

  primed_handle-IsAt : IsAt (list_records handle fs) 0 primed_handle
  primed_handle-IsAt = (refl, refl, omega arith, inl refl)

  read_next_record-first :
      handle.cursor_primed ≡ false
      → read_next_record handle fs ≡ next_id primed_handle (get_elem? (list_records handle fs) 0)
  unfolding read_next_record
  read_next_record-first fresh = rw fresh

  -- On a fresh cursor the first call takes the listing, and gives its first name; after it and any
  -- number n of further calls, in whatever states of the file system, the next call gives the name
  -- at place n + 1 of that listing, counted from 0, or says that the cursor is exhausted.
  pub read_next_record_snapshot :
      (later : List FileSystem) (now : FileSystem)
      → handle.cursor_primed ≡ false
      → ((read_next_record handle fs).0 ≡ id_or_exhausted (get_elem? (list_records handle fs) 0))
        × ((read_next_record (after_calls handle (fs ∷ later)) now).0
            ≡ id_or_exhausted (get_elem? (list_records handle fs) (suc (length later))))
  unfolding after_calls
  read_next_record_snapshot later now fresh =
      let ids = list_records handle fs in
      let first = read_next_record-first fresh in
      let at_one : IsAt ids 1 (read_next_record handle fs).1 =
        rw first (next_id-IsAt ids 0 primed_handle primed_handle-IsAt) in
      let h = after_calls (read_next_record handle fs).1 later in
      let at_n = after_calls-IsAt ids 1 (read_next_record handle fs).1 later at_one in
      let count : length later + 1 ≡ suc (length later) = omega arith in
      (
        rw first (next_id-result ids primed_handle (get_elem? ids 0)),
        ap (λ r. r.0) (read_next_record-primed ids h now at_n.0 at_n.1)
            ∙ next_id-result ids h (get_elem? ids h.cursor_index)
            ∙ ap id_or_exhausted
                (get_elem?-IsAt ids (length later + 1) h at_n ∙ ap (get_elem? ids) count),
      )
