-- ===== src/Locking/History.antt =====
-- Histories of calls on one table: the shape is kept, and a held lock excludes other sessions.
use gemini_system.Prelude.{
  ℕ, ◌≡◌, ◌≢◌, false, List, [], ◌∷◌, Option, none, some, Text, text_eq, text_beq_iff, All, arith,
  inl, inr, Bool-cases, ◌⊎◌,
}
use gemini_system.Locking.{
  LockType, LockEntry, LockTable, init, is_valid_key, try_acquire, release, release_all_for_session,
  release_all_for_file, clear_all, lookup,
}
use gemini_system.Locking.Wellformed.{
  IsWellformed, try_acquire-IsWellformed, release-IsWellformed,
  release_all_for_session-IsWellformed, release_all_for_file-IsWellformed,
}
use gemini_system.Locking.Ownership.{
  same_record, granted-try_acquire, lookup-try_acquire, result-release, lookup-release,
}
use gemini_system.Locking.Bulk.{lookup-release_all_for_session, release_all_for_file_lem}

-- A call on the table, with the session, the file and the record that it names.
pub data Call : Type 0 where
  acquires : ℕ → Text → Text → Text → LockType → Call
  releases : Text → Text → Text → Call
  ends : Text → Call
  deletes : Text → Call
  clears : Call

unfoldable pub step : LockTable → Call → LockTable
step t (acquires now session file rec lock_type) =
    (try_acquire t now session file rec lock_type).table
step t (releases session file rec) = (release t session file rec).0
step t (ends session) = (release_all_for_session t session).0
step t (deletes file) = (release_all_for_file t file).0
step t clears = clear_all t

unfoldable pub run : LockTable → List Call → LockTable
run t [] = t
run t (c ∷ cs) = run (step t c) cs

step-IsWellformed : (t : LockTable) (c : Call) → IsWellformed t → IsWellformed (step t c)
unfolding step clear_all
step-IsWellformed t (acquires now s f r ty) w = try_acquire-IsWellformed t now s f r ty w
step-IsWellformed t (releases s f r) w = release-IsWellformed t s f r w
step-IsWellformed t (ends s) w = release_all_for_session-IsWellformed s t w
step-IsWellformed t (deletes f) w = release_all_for_file-IsWellformed t f w
step-IsWellformed t clears w = record { distinct = tt; files = tt }

-- Every call keeps the table well formed: no file and no record stands twice, no file's map is
-- empty, and no stored file, record or owner name is empty.
pub run-IsWellformed : (t : LockTable) (cs : List Call) → IsWellformed t → IsWellformed (run t cs)
unfolding run
run-IsWellformed t [] w = w
run-IsWellformed t (c ∷ cs) w = run-IsWellformed (step t c) cs (step-IsWellformed t c w)

pub init-IsWellformed : IsWellformed init
init-IsWellformed = record { distinct = tt; files = tt }

abbrev pub owner_of : Option LockEntry → Option Text
owner_of none = none
owner_of (some e) = some e.owner_session_id

-- The call is none of those by which `session` loses its lock on the record: its own release of
-- it, the end of the session, the deletion of the file, and a reset of the table.
abbrev pub Spares : Text → Text → Text → Call → Type 0
Spares session file rec (acquires now s f r ty) = Unit
Spares session file rec (releases s f r) = (s ≢ session) ⊎ ((f ≢ file) ⊎ (r ≢ rec))
Spares session file rec (ends s) = s ≢ session
Spares session file rec (deletes f) = f ≢ file
Spares session file rec clears = ⊥

module _ (session file rec : Text) where
  abbrev Holds : LockTable → Type 0
  Holds t = owner_of (lookup t file rec) ≡ some session

  acquires-keeps_owner :
      (t : LockTable) (now : ℕ) (s f r : Text) (ty : LockType)
      → Holds t
      → Holds (try_acquire t now s f r ty).table
  acquires-keeps_owner t now s f r ty o = elim (Bool-cases (same_record f r file rec)) [
    | inl same ↦
        let ef : f ≡ file = ground (arith, text_beq_iff f file) in
        let er : r ≡ rec = ground (arith, text_beq_iff r rec) in
        rw (lookup-try_acquire t now s f r ty file rec, granted-try_acquire t now s f r ty, ef, er)
          (ground (arith, text_beq_iff file file, text_beq_iff rec rec, text_beq_iff session s))
    | inr other ↦ rw (lookup-try_acquire t now s f r ty file rec) (ground arith)
  ]

  releases-keeps_owner :
      (t : LockTable) (s f r : Text)
      → (s ≢ session) ⊎ ((f ≢ file) ⊎ (r ≢ rec))
      → Holds t
      → Holds (release t s f r).0
  releases-keeps_owner t s f r h o = elim (Bool-cases (same_record f r file rec)) [
    | inl same ↦
        let ef : f ≡ file = ground (arith, text_beq_iff f file) in
        let er : r ≡ rec = ground (arith, text_beq_iff r rec) in
        rw (lookup-release t s f r file rec, result-release t s f r, ef, er)
          (ground (arith, text_beq_iff file file, text_beq_iff rec rec, text_beq_iff session s))
    | inr other ↦ rw (lookup-release t s f r file rec) (ground arith)
  ]

  ends-keeps_owner :
      (t : LockTable) (s : Text)
      → IsWellformed t
      → s ≢ session
      → Holds t
      → Holds (release_all_for_session t s).0
  unfolding release_all_for_session
  ends-keeps_owner t s w h o = elim (Bool-cases (is_valid_key s)) [
    | inl key ↦
        ground (arith, lookup-release_all_for_session s t file rec w key, text_beq_iff session s)
    | inr bad ↦ rw bad o
  ]

  step-keeps_owner :
      (t : LockTable) (c : Call)
      → IsWellformed t
      → Spares session file rec c
      → Holds t
      → Holds (step t c)
  unfolding step
  step-keeps_owner t (acquires now s f r ty) w h o = acquires-keeps_owner t now s f r ty o
  step-keeps_owner t (releases s f r) w h o = releases-keeps_owner t s f r h o
  step-keeps_owner t (ends s) w h o = ends-keeps_owner t s w h o
  step-keeps_owner t (deletes f) w h o =
      rw ((release_all_for_file_lem f t file rec w).0) (ground (arith, text_beq_iff f file))
  step-keeps_owner t clears w h o = absurd h

  run-keeps_owner :
      (t : LockTable) (cs : List Call)
      → IsWellformed t
      → All (Spares session file rec) cs
      → Holds t
      → Holds (run t cs)
  unfolding run
  run-keeps_owner t [] w h o = o
  run-keeps_owner t (c ∷ cs) w h o =
      run-keeps_owner (step t c) cs (step-IsWellformed t c w) h.1 (step-keeps_owner t c w h.0 o)

  -- While a session holds a record's lock, through any history of calls that spare it, every
  -- request of another session for that record is refused.
  pub run_excludes :
      (t : LockTable) (cs : List Call) (other : Text) (now : ℕ) (lock_type : LockType)
      → IsWellformed t
      → All (Spares session file rec) cs
      → owner_of (lookup t file rec) ≡ some session
      → other ≢ session
      → (try_acquire (run t cs) now other file rec lock_type).granted ≡ false
  run_excludes t cs other now lock_type w h o ne =
      rw (granted-try_acquire (run t cs) now other file rec lock_type)
        (ground (arith, run-keeps_owner t cs w h o, text_beq_iff session other))
