-- ===== src/Scheduler.antt =====
-- core/daemon/CooperativeSessionRunner: the execution token that at most one session holds. Each
-- method locks the mutex, so it is one step on the runner; a `cv_.wait` whose condition fails is
-- the outcome `blocked`, and a `std::logic_error` the outcome `fails`. Notifications only make a
-- blocked call test its condition again. `depth_` is a `uint32_t`.
pub mod Turns
pub mod Fairness
pub mod Exclusion
pub mod Sections
use gemini_system.Prelude.{
  ℕ, zero, suc, ◌+◌, ◌-◌, ◌%◌, ◌^◌, Bool, true, false, not, ◌&&◌, ◌||◌, List, [], ◌∷◌, ◌++◌, Option,
  none, some, ltb, nat_beq, nat_eq, if◌then◌else◌, contains, sort,
}
use gemini_system.Prelude.Assoc.{Assoc, find, put, erase}

pub data RunState : Type 0 where
  runnable running waiting_for_input : RunState

pub data LogicError : Type 0 where
  acquire_failed release_from_non_holder release_with_zero_depth yield_from_non_holder : LogicError

pub record Runner : Type 0 where
  pub active : Option ℕ
  pub depth : ℕ
  pub last_served : ℕ
  pub states : Assoc ℕ RunState

pub data Outcome : Type 0 where
  done : Runner → Outcome
  blocked : Outcome
  fails : LogicError → Outcome

abbrev pub init : Runner
init = record { active = none; depth = 0; last_served = 0; states = [] }

abbrev pub or_runnable : Option RunState → RunState
or_runnable none = runnable
or_runnable (some s) = s

-- `stateLocked`
abbrev pub state : Runner → ℕ → RunState
state r id = or_runnable (find id r.states)

abbrev pub is_runnable : RunState → Bool
is_runnable runnable = true
is_runnable _ = false

abbrev pub is_waiting : RunState → Bool
is_waiting waiting_for_input = true
is_waiting _ = false

-- `active_.has_value() && *active_ == id`
abbrev pub holds : Option ℕ → ℕ → Bool
holds none id = false
holds (some a) id = nat_beq a id

abbrev pub is_some {ℓ} : {A : Type ℓ} → Option A → Bool
is_some none = false
is_some (some a) = true

-- The loop over `sessionStates_` of `nextRunnableSessionLocked`.
unfoldable pub runnable_ids : Assoc ℕ RunState → List ℕ
runnable_ids [] = []
runnable_ids ((id, s) ∷ m) = if is_runnable s then id ∷ runnable_ids m else runnable_ids m

abbrev pub add_requester : Runner → Option ℕ → List ℕ → List ℕ
add_requester r none ids = ids
add_requester r (some id) ids =
    if is_runnable (state r id) && not (contains id ids) then ids ++ id ∷ [] else ids

-- `for (id : runnable) if (id > lastServed_) return id;`, and the fallback `runnable.front()`.
unfoldable pub first_above : ℕ → ℕ → List ℕ → ℕ
first_above last front [] = front
first_above last front (id ∷ ids) = if ltb last id then id else first_above last front ids

unfoldable pub pick : ℕ → List ℕ → Option ℕ
unfolding first_above
pick last [] = none
pick last (id ∷ ids) = some (first_above last id (id ∷ ids))

unfoldable pub next_runnable : Runner → Option ℕ → Option ℕ
next_runnable r requester =
    pick r.last_served (sort (add_requester r requester (runnable_ids r.states)))

abbrev pub none_or : Option ℕ → ℕ → Bool
none_or none id = true
none_or (some a) id = nat_beq a id

unfoldable pub can_acquire : Runner → ℕ → Bool
can_acquire r id =
    if holds r.active id
    then true
    else if is_some r.active || is_waiting (state r id)
    then false
    else none_or (next_runnable r (some id)) id

unfoldable pub can_acquire_after_input_wake : Runner → ℕ → Bool
can_acquire_after_input_wake r id =
    if holds r.active id then true else not (is_some r.active) && not (is_waiting (state r id))

abbrev claim : Runner → ℕ → Option ℕ → Runner
claim r id none = record r { active = some id; depth = 0 }
claim r id (some a) = r

abbrev enter : Runner → ℕ → Outcome
enter r id =
    if holds r.active id
    then done (record r { depth = (r.depth + 1) % 2 ^ 32; states = put id running r.states })
    else fails acquire_failed

unfoldable pub grant_acquire : Runner → ℕ → Outcome
grant_acquire r id = enter (claim r id r.active) id

unfoldable pub acquire : Runner → ℕ → Outcome
unfolding grant_acquire
acquire r id = if can_acquire r id then grant_acquire r id else blocked

unfoldable pub acquire_after_input_wake : Runner → ℕ → Outcome
unfolding grant_acquire
acquire_after_input_wake r id =
    if can_acquire_after_input_wake r id then grant_acquire r id else blocked

-- The token is given up: the session was the last to be served, and is in state `s`.
abbrev pub hand_back : Runner → ℕ → RunState → Runner
hand_back r id s = record { active = none; depth = 0; last_served = id; states = put id s r.states }

-- `--depth_`, and the token is given up at depth 0.
abbrev pub leave : Runner → ℕ → Runner
leave r id =
    if nat_beq (r.depth - 1) 0 then hand_back r id runnable else record r { depth = r.depth - 1 }

unfoldable pub release : Runner → ℕ → Outcome
release r id =
    if not (holds r.active id)
    then fails release_from_non_holder
    else if nat_beq r.depth 0
    then fails release_with_zero_depth
    else done (leave r id)

unfoldable pub yield_waiting_for_input : Runner → ℕ → Outcome
yield_waiting_for_input r id =
    if not (holds r.active id) || nat_beq r.depth 0
    then fails yield_from_non_holder
    else done (hand_back r id waiting_for_input)

unfoldable pub resume : Runner → ℕ → Runner
resume r id = record r { states = put id runnable r.states }

unfoldable pub retire_session : Runner → ℕ → Runner
retire_session r id =
    if holds r.active id
    then record { active = none; depth = 0; last_served = id; states = erase id r.states }
    else record r { states = erase id r.states }

-- What `runExclusive` does after `fn()`.
unfoldable pub finish_exclusive : Runner → ℕ → Runner
finish_exclusive r id =
    if holds r.active id && not (nat_beq r.depth 0)
    then leave r id
    else if not (is_some r.active) && is_waiting (state r id)
    then record r { states = put id runnable r.states }
    else r

-- How a call of `fn` ends, and the runner that it leaves: it returns, or it throws.
pub data Ending : Type 0 where
  returned thrown : Runner → Ending

-- How `runExclusive` ends: by itself, blocked or with a `std::logic_error` of its own, or with the
-- exception of `fn`, which no handler and no destructor of it meets.
pub data Section : Type 0 where
  ended : Outcome → Section
  unwound : Runner → Section

abbrev pub after_fn : ℕ → Ending → Section
after_fn id (returned r) = ended (done (finish_exclusive r id))
after_fn id (thrown r) = unwound r

abbrev pub enter_section : Outcome → (Runner → Section) → Section
enter_section (done r) k = k r
enter_section blocked k = ended blocked
enter_section (fails e) k = ended (fails e)

-- `fn` may call the runner, and other sessions may while it runs: it is a step of its own.
unfoldable pub run_exclusive : Runner → ℕ → (Runner → Ending) → Section
unfolding acquire finish_exclusive
run_exclusive r id fn = enter_section (acquire r id) (λ r'. after_fn id (fn r'))
