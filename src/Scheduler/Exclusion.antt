-- ===== src/Scheduler/Exclusion.antt =====
-- At most one session runs: the invariant of the token, kept by every method.
use gemini_system.Prelude.{
  ℕ, ◌+◌, ◌-◌, ◌^◌, ◌≤◌, ◌<◌, ◌≡◌, refl, ◌≢◌, true, not, ◌&&◌, ◌||◌, List, [], ◌∷◌, Option, none,
  some, nat_beq, nat_eq, nat_beq_iff, if◌then◌else◌, arith, Bool-cases, inl, inr, length, ◌⊎◌,
}
use gemini_system.Prelude.Assoc.{
  find, put, Distinct, find-put, put-Distinct, find-erase, erase-Distinct,
}
use gemini_system.Scheduler.{
  Runner, RunState, Outcome, done, blocked, fails, init, runnable, running, waiting_for_input,
  is_waiting, is_some, state, can_acquire, can_acquire_after_input_wake, hand_back, holds,
  grant_acquire, acquire, acquire_after_input_wake, release, leave, yield_waiting_for_input, resume,
  retire_session, finish_exclusive,
}

pub record IsExclusive (r : Runner) : Type 0 where
  pub distinct : Distinct r.states
  -- A session that runs holds the token.
  pub token : (id : ℕ) → find id r.states ≡ some running → r.active ≡ some id
  pub idle : r.active ≡ none → r.depth ≡ 0
  pub busy : (id : ℕ) → r.active ≡ some id → 0 < r.depth

pub init-IsExclusive : IsExclusive init
unfolding find
init-IsExclusive = record { distinct = tt; token = λ id h. cc; idle = λ h. refl; busy = λ id h. cc }

-- The session takes the token or enters once more: the state that `grantAcquireLocked` leaves.
abbrev pub entered : Runner → ℕ → Runner
entered r id = record {
  active = some id;
  depth = r.depth + 1;
  last_served = r.last_served;
  states = put id running r.states;
}

grant_acquire_lem :
    (r : Runner) (id : ℕ)
    → IsExclusive r
    → r.depth + 1 < 2 ^ 32
    → (r.active ≡ none) ⊎ (r.active ≡ some id)
    → grant_acquire r id ≡ done (entered r id)
unfolding grant_acquire
grant_acquire_lem r id v small (inl free) =
    rw (free, (nat_beq_iff id id).1 refl) (ground (arith, v.idle free))
grant_acquire_lem r id v small (inr mine) = rw (mine, (nat_beq_iff id id).1 refl) (ground arith)

entered-IsExclusive :
    (r : Runner) (id : ℕ)
    → IsExclusive r
    → (r.active ≡ none) ⊎ (r.active ≡ some id)
    → IsExclusive (entered r id)
entered-IsExclusive r id v free = record {
  distinct = put-Distinct id running r.states v.distinct;
  token = λ a h. ground (arith, find-put id a running r.states, v.token a, nat_beq_iff id a);
  idle = λ h. cc;
  busy = λ a h. omega arith;
}

pub can_acquire_free :
    (r : Runner) (id : ℕ) → can_acquire r id ≡ true → (r.active ≡ none) ⊎ (r.active ≡ some id)
unfolding can_acquire
can_acquire_free r id h = ground arith

can_wake_free :
    (r : Runner) (id : ℕ)
    → can_acquire_after_input_wake r id ≡ true
    → (r.active ≡ none) ⊎ (r.active ≡ some id)
unfolding can_acquire_after_input_wake
can_wake_free r id h = ground arith

hand_back-IsExclusive :
    (r : Runner) (id : ℕ) (s : RunState)
    → IsExclusive r
    → r.active ≡ some id
    → s ≢ running
    → IsExclusive (hand_back r id s)
hand_back-IsExclusive r id s v mine stopped = record {
  distinct = put-Distinct id s r.states v.distinct;
  token = λ a h. absurd (ground (arith, find-put id a s r.states, v.token a, nat_beq_iff id a));
  idle = λ h. refl;
  busy = λ a h. cc;
}

leave-IsExclusive :
    (r : Runner) (id : ℕ) → IsExclusive r → r.active ≡ some id → IsExclusive (leave r id)
leave-IsExclusive r id v mine = elim (Bool-cases (nat_beq (r.depth - 1) 0)) [
  | inl last ↦ rw last (hand_back-IsExclusive r id runnable v mine (λ e. cc))
  | inr inner ↦
      rw inner record {
        distinct = v.distinct;
        token = v.token;
        idle = λ h. cc;
        busy = λ a h. ground arith;
      }
]

resume-IsExclusive : (r : Runner) (id : ℕ) → IsExclusive r → IsExclusive (resume r id)
unfolding resume
resume-IsExclusive r id v = record {
  distinct = put-Distinct id runnable r.states v.distinct;
  token = λ a h. ground (arith, find-put id a runnable r.states, v.token a);
  idle = v.idle;
  busy = v.busy;
}

retire_session-IsExclusive :
    (r : Runner) (id : ℕ) → IsExclusive r → IsExclusive (retire_session r id)
unfolding retire_session
retire_session-IsExclusive r id v = elim (Bool-cases (holds r.active id)) [
  | inl mine ↦ rw mine record {
    distinct = erase-Distinct id r.states v.distinct;
    token = λ a h. absurd (ground (arith, find-erase id a r.states, v.token a, nat_beq_iff id a));
    idle = λ h. refl;
    busy = λ a h. cc;
  }
  | inr other ↦ rw other record {
    distinct = erase-Distinct id r.states v.distinct;
    token = λ a h. ground (arith, find-erase id a r.states, v.token a);
    idle = v.idle;
    busy = v.busy;
  }
]

holds-to_eq : (o : Option ℕ) (id : ℕ) → holds o id ≡ true → o ≡ some id
holds-to_eq none id h = cc
holds-to_eq (some a) id h = ground arith

finish_exclusive-IsExclusive :
    (r : Runner) (id : ℕ) → IsExclusive r → IsExclusive (finish_exclusive r id)
unfolding finish_exclusive
finish_exclusive-IsExclusive r id v =
    elim (Bool-cases (holds r.active id && not (nat_beq r.depth 0))) [
      | inl mine ↦ rw mine (leave-IsExclusive r id v (holds-to_eq r.active id (ground arith)))
      | inr other ↦
          rw other (elim (Bool-cases (not (is_some r.active) && is_waiting (state r id))) [
            | inl waits ↦ rw waits (unfold resume in resume-IsExclusive r id v)
            | inr rest ↦ rw rest v
          ])
    ]

-- A call of one of the runner's methods by a session.
pub data Call : Type 0 where
  acquires wakes releases yields resumes retires finishes : ℕ → Call

unfoldable pub call : Runner → Call → Outcome
call r (acquires id) = acquire r id
call r (wakes id) = acquire_after_input_wake r id
call r (releases id) = release r id
call r (yields id) = yield_waiting_for_input r id
call r (resumes id) = done (resume r id)
call r (retires id) = done (retire_session r id)
call r (finishes id) = done (finish_exclusive r id)

-- A call that blocks or throws leaves the runner as it was.
abbrev pub after : Runner → Outcome → Runner
after r (done r') = r'
after r blocked = r
after r (fails e) = r

unfoldable pub run : Runner → List Call → Runner
run r [] = r
run r (c ∷ cs) = run (after r (call r c)) cs

call-IsExclusive :
    (r : Runner) (c : Call)
    → IsExclusive r
    → r.depth + 1 < 2 ^ 32
    → IsExclusive (after r (call r c))
unfolding call acquire acquire_after_input_wake release yield_waiting_for_input
call-IsExclusive r (acquires id) v small = elim (Bool-cases (can_acquire r id)) [
  | inl can ↦
      let free = can_acquire_free r id can in
      rw (can, grant_acquire_lem r id v small free) (entered-IsExclusive r id v free)
  | inr wait ↦ rw wait v
]
call-IsExclusive r (wakes id) v small = elim (Bool-cases (can_acquire_after_input_wake r id)) [
  | inl can ↦
      let free = can_wake_free r id can in
      rw (can, grant_acquire_lem r id v small free) (entered-IsExclusive r id v free)
  | inr wait ↦ rw wait v
]
call-IsExclusive r (releases id) v small = elim (Bool-cases (holds r.active id)) [
  | inl mine ↦ elim (Bool-cases (nat_beq r.depth 0)) [
    | inl zero_depth ↦ rw (mine, zero_depth) v
    | inr deep ↦ rw (mine, deep) (leave-IsExclusive r id v (holds-to_eq r.active id mine))
  ]
  | inr other ↦ rw other v
]
call-IsExclusive r (yields id) v small =
    elim (Bool-cases (not (holds r.active id) || nat_beq r.depth 0)) [
      | inl bad ↦ rw bad v
      | inr ok ↦ rw ok (
          hand_back-IsExclusive r id waiting_for_input v (holds-to_eq r.active id (ground arith))
            (λ e. cc))
    ]
call-IsExclusive r (resumes id) v small = resume-IsExclusive r id v
call-IsExclusive r (retires id) v small = retire_session-IsExclusive r id v
call-IsExclusive r (finishes id) v small = finish_exclusive-IsExclusive r id v

call-depth :
    (r : Runner) (c : Call)
    → IsExclusive r
    → r.depth + 1 < 2 ^ 32
    → (after r (call r c)).depth ≤ r.depth + 1
unfolding call acquire acquire_after_input_wake release yield_waiting_for_input resume
    retire_session finish_exclusive
call-depth r (acquires id) v small = elim (Bool-cases (can_acquire r id)) [
  | inl can ↦ rw (can, grant_acquire_lem r id v small (can_acquire_free r id can)) (omega arith)
  | inr wait ↦ rw wait (omega arith)
]
call-depth r (wakes id) v small = elim (Bool-cases (can_acquire_after_input_wake r id)) [
  | inl can ↦ rw (can, grant_acquire_lem r id v small (can_wake_free r id can)) (omega arith)
  | inr wait ↦ rw wait (omega arith)
]
call-depth r (releases id) v small = ground arith
call-depth r (yields id) v small = ground arith
call-depth r (resumes id) v small = ground arith
call-depth r (retires id) v small = ground arith
call-depth r (finishes id) v small = ground arith

-- Every history of calls that cannot overflow the depth counter keeps the token exclusive: a
-- session that runs holds it, and it is held exactly while the depth is positive.
pub run-IsExclusive :
    (r : Runner) (cs : List Call)
    → IsExclusive r
    → r.depth + length cs < 2 ^ 32
    → IsExclusive (run r cs)
unfolding run
run-IsExclusive r [] v small = v
run-IsExclusive r (c ∷ cs) v small =
    let tight : r.depth + 1 < 2 ^ 32 = omega arith in
    run-IsExclusive (after r (call r c)) cs (call-IsExclusive r c v tight)
      (omega (arith, call-depth r c v tight))

-- So two sessions never run at once.
pub run_one_running :
    (cs : List Call) (a b : ℕ)
    → length cs < 2 ^ 32
    → find a (run init cs).states ≡ some running
    → find b (run init cs).states ≡ some running
    → a ≡ b
run_one_running cs a b small ha hb =
    let v = run-IsExclusive init cs init-IsExclusive (omega arith) in
    ground (arith, v.token a ha, v.token b hb)

-- A call that asks for the token blocks or gets it; it never throws.
pub acquire_granted :
    (r : Runner) (id : ℕ)
    → IsExclusive r
    → r.depth + 1 < 2 ^ 32
    → acquire r id ≡ (if can_acquire r id then done (entered r id) else blocked)
unfolding acquire
acquire_granted r id v small = elim (Bool-cases (can_acquire r id)) [
  | inl can ↦ rw (can, grant_acquire_lem r id v small (can_acquire_free r id can))
  | inr wait ↦ rw wait
]
