-- ===== src/Tests/LockTests.antt =====
-- Tests of Locking.
use gemini_system.Prelude.{
  ◌+◌, ◌≡◌, refl, ◌≢◌, false, [], ◌∷◌, none, some, Text, text_eq, codes, text_beq, inl,
  text_beq_iff,
}
use gemini_system.Prelude.Assoc.{find, put, erase}
use gemini_system.Locking.{
  LockEntry, LockTable, init, read_u, write_u, try_acquire, release, release_all_for_session,
  release_all_for_file, lookup, describe_lock_conflict,
}
use gemini_system.Locking.Wellformed.{IsWellformed}
use gemini_system.Locking.Ownership.{lookup-try_acquire, lookup-release}
use gemini_system.Locking.Bulk.{
  lookup-release_all_for_session, release_all_for_file_lem, count_locks,
}
use gemini_system.Locking.History.{
  acquires, releases, ends, step, run, run-IsWellformed, init-IsWellformed, run_excludes,
}

abbrev ann : Text
ann = codes "ANN"

abbrev bob : Text
bob = codes "BOB"

abbrev file : Text
file = codes "DATA"

abbrev item : Text
item = codes "R1"

-- ANN holds R1, BOB holds R2.
abbrev two_locks : LockTable
two_locks =
    run init (acquires 1 ann file item read_u ∷ (acquires 2 bob file (codes "R2") write_u ∷ []))

abbrev entry_of : Text → LockEntry
entry_of owner = record { owner_session_id = owner; lock_type = read_u; acquired_at = 1 }

held : lookup two_locks file item ≡ some (entry_of ann)
unfolding run step lookup try_acquire find put text_beq
held = refl

message :
    describe_lock_conflict
      record { file_name = file; record_id = item; owner_session_id = ann; lock_type = read_u }
    ≡ codes "RECORD LOCKED: DATA R1 (owner ANN, READU)"
unfolding describe_lock_conflict
message = refl

ann_not_bob : ◌≢◌ {A = Text} bob ann
unfolding text_beq
ann_not_bob e = cc ((text_beq_iff bob ann).1 e)

two_locks-IsWellformed : IsWellformed two_locks
two_locks-IsWellformed = run-IsWellformed init _ init-IsWellformed

lookup-try_acquire_example :
    lookup (try_acquire two_locks 9 ann file item write_u).table file item
    ≡ some record { owner_session_id = ann; lock_type = write_u; acquired_at = 9 }
unfolding run step lookup try_acquire find put text_beq
lookup-try_acquire_example = lookup-try_acquire two_locks 9 ann file item write_u file item

lookup-release_example : lookup (release two_locks ann file item).0 file item ≡ none
unfolding run step lookup try_acquire release find put erase text_beq
lookup-release_example = lookup-release two_locks ann file item file item

lookup-release_all_for_session_example :
    lookup (release_all_for_session two_locks ann).0 file item ≡ none
unfolding run step lookup try_acquire find put text_beq
lookup-release_all_for_session_example =
    lookup-release_all_for_session ann two_locks file item two_locks-IsWellformed refl

release_all_for_file_lem_example :
    (lookup (release_all_for_file two_locks file).0 file item ≡ none)
    × (count_locks (release_all_for_file two_locks file).0.locks
          + (release_all_for_file two_locks file).1
        ≡ 2)
unfolding run step lookup try_acquire find put text_beq
release_all_for_file_lem_example =
    release_all_for_file_lem file two_locks file item two_locks-IsWellformed

run-IsWellformed_example : IsWellformed two_locks
run-IsWellformed_example =
    run-IsWellformed init
      (acquires 1 ann file item read_u ∷ (acquires 2 bob file (codes "R2") write_u ∷ []))
      init-IsWellformed

run_excludes_example :
    (try_acquire
      (run two_locks (releases bob file item ∷ (ends bob ∷ [])))
      9
      bob
      file
      item
      read_u).granted
    ≡ false
unfolding run step lookup try_acquire find put text_beq
run_excludes_example =
    run_excludes ann file item two_locks (releases bob file item ∷ (ends bob ∷ [])) bob 9 read_u
      two_locks-IsWellformed (inl ann_not_bob, (ann_not_bob, tt)) refl ann_not_bob
