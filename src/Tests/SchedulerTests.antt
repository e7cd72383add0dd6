-- ===== src/Tests/SchedulerTests.antt =====
-- Tests of Scheduler.
use gemini_system.Prelude.{
  ℕ, ◌≡◌, refl, true, false, List, [], ◌∷◌, none, arith, contains, sort, nat_eq, nat_beq,
  if◌then◌else◌, ◌⊎◌,
}
use gemini_system.Prelude.Assoc.{find, put}
use gemini_system.Scheduler.{
  Runner, runnable, init, done, acquire, acquire_after_input_wake, release, yield_waiting_for_input,
  run_exclusive, finish_exclusive, can_acquire, next_runnable, blocked, waiting_for_input, returned,
  thrown, ended, unwound, runnable_ids, first_above, pick, hand_back, fails,
  release_from_non_holder,
}
use gemini_system.Scheduler.Exclusion.{
  IsExclusive, init-IsExclusive, Call, acquires, releases, call, run, run-IsExclusive,
  run_one_running,
}
use gemini_system.Scheduler.Fairness.{is_ready, granted, turn_unique, hand_back_alternates}
use gemini_system.Scheduler.Sections.{IsUnbalanced, run_exclusive_balanced}

-- Sessions 1 and 2 have each run once, session 1 last.
abbrev two_ready : Runner
two_ready = record {
  active = none;
  depth = 0;
  last_served = 1;
  states = (2, runnable) ∷ ((1, runnable) ∷ []);
}

abbrev history : List Call
history = acquires 2 ∷ (releases 2 ∷ (acquires 1 ∷ (releases 1 ∷ [])))

two_ready_reached : run init history ≡ two_ready
unfolding run call acquire release can_acquire next_runnable runnable_ids pick first_above sort find
    put contains
two_ready_reached = refl

stranger_refused : release two_ready 1 ≡ fails release_from_non_holder
unfolding release
stranger_refused = refl

two_ready-IsExclusive : IsExclusive two_ready
unfolding find
two_ready-IsExclusive = record {
  distinct = (refl, (refl, tt));
  token = λ id h. ground arith;
  idle = λ h. refl;
  busy = λ id h. cc;
}

turn_unique_example :
    (n : ℕ) × (is_ready two_ready n ≡ true)
    × ((m : ℕ)
        → is_ready two_ready m ≡ true
        → (acquire two_ready m ≡ (if nat_beq n m then done (granted two_ready m) else blocked))
          × (acquire_after_input_wake two_ready m ≡ done (granted two_ready m)))
unfolding find
turn_unique_example = turn_unique two_ready 1 two_ready-IsExclusive.distinct refl refl

-- Session 2 runs, and session 1 is ready.
abbrev second_runs : Runner
second_runs = granted two_ready 2

hand_back_alternates_example :
    (release second_runs 2 ≡ done (hand_back second_runs 2 runnable))
    × (acquire (hand_back second_runs 2 runnable) 2 ≡ blocked)
    × (acquire_after_input_wake (hand_back second_runs 2 runnable) 2
        ≡ done (granted (hand_back second_runs 2 runnable) 2))
    × (yield_waiting_for_input second_runs 2 ≡ done (hand_back second_runs 2 waiting_for_input))
    × (acquire (hand_back second_runs 2 waiting_for_input) 2 ≡ blocked)
    × (acquire_after_input_wake (hand_back second_runs 2 waiting_for_input) 2 ≡ blocked)
unfolding find put
hand_back_alternates_example =
    hand_back_alternates second_runs 2 1 (refl, (refl, tt)) refl refl refl (omega arith)

run-IsExclusive_example : IsExclusive (run init history)
run-IsExclusive_example = run-IsExclusive init history init-IsExclusive (omega arith)

run_one_running_example : ◌≡◌ {A = ℕ} 2 2
unfolding run call acquire can_acquire next_runnable runnable_ids pick first_above sort find put
    contains
run_one_running_example = run_one_running (acquires 2 ∷ []) 2 2 (omega arith) refl refl

-- A function that throws at once, called for the session whose turn it is.
run_exclusive_balanced_example :
    ((can_acquire two_ready 2 ≡ false) × (run_exclusive two_ready 2 thrown ≡ ended blocked))
    ⊎ ((can_acquire two_ready 2 ≡ true)
        × IsUnbalanced two_ready 2 (run_exclusive two_ready 2 thrown))
run_exclusive_balanced_example =
    run_exclusive_balanced two_ready 2 thrown two_ready-IsExclusive (omega arith) (refl, refl)

section_returns :
    run_exclusive two_ready 2 returned ≡ ended (done (record two_ready { last_served = 2 }))
unfolding run_exclusive acquire finish_exclusive can_acquire next_runnable runnable_ids pick
    first_above sort find put contains
section_returns = refl

section_throws : run_exclusive two_ready 2 thrown ≡ unwound (granted two_ready 2)
unfolding run_exclusive acquire can_acquire next_runnable runnable_ids pick first_above sort find
    put contains
section_throws = refl
