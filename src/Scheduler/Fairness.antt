-- ===== src/Scheduler/Fairness.antt =====
-- Who may take the token: the turns of `acquire`, and `acquireAfterInputWake`, which has none.
use gemini_system.Prelude.{
  ℕ, ◌≡◌, refl, ◌≢◌, Bool, true, false, ◌&&◌, ◌||◌, List, [], ◌∷◌, ◌++◌, Option, none, some,
  nat_beq, nat_eq, nat_beq_iff, if◌then◌else◌, arith, contains, sort, contains-sort, sort-IsSorted,
  ◌∙◌, sym,
}
use gemini_system.Prelude.Assoc.{Assoc, find, put, Distinct, find-put, put-Distinct}
use gemini_system.Scheduler.{
  Runner, RunState, is_runnable, state, runnable_ids, add_requester, next_runnable, can_acquire,
  hand_back, none_or, runnable, running, waiting_for_input, done, blocked, is_waiting, acquire,
  acquire_after_input_wake, can_acquire_after_input_wake, grant_acquire, release,
  yield_waiting_for_input,
}
use gemini_system.Scheduler.Turns.{Precedes, pick_lem, pick-some}

abbrev pub runs : Option RunState → Bool
runs none = false
runs (some s) = is_runnable s

-- The session stands in `sessionStates_` as runnable.
abbrev pub is_ready : Runner → ℕ → Bool
is_ready r id = runs (find id r.states)

-- The session is ready, or asks for the token and is not known to be anything but runnable.
abbrev pub is_candidate : Runner → Option ℕ → ℕ → Bool
is_candidate r none q = is_ready r q
is_candidate r (some id) q = is_ready r q || (nat_beq id q && is_runnable (state r id))

contains-runnable_ids :
    (q : ℕ) (m : Assoc ℕ RunState) → Distinct m → contains q (runnable_ids m) ≡ runs (find q m)
unfolding runnable_ids contains find
contains-runnable_ids q [] d = refl
contains-runnable_ids q ((id, s) ∷ m) (fresh, d) = ground (arith, contains-runnable_ids q m d)

contains-snoc : (q a : ℕ) (xs : List ℕ) → contains q (xs ++ a ∷ []) ≡ (contains q xs || nat_beq a q)
unfolding contains
contains-snoc q a [] = ground arith
contains-snoc q a (x ∷ xs) = ground (arith, contains-snoc q a xs)

contains-add_requester :
    (r : Runner) (requester : Option ℕ) (q : ℕ)
    → Distinct r.states
    → contains q (add_requester r requester (runnable_ids r.states)) ≡ is_candidate r requester q
contains-add_requester r none q d = contains-runnable_ids q r.states d
contains-add_requester r (some id) q d = ground (
  arith,
  contains-runnable_ids q r.states d,
  contains-runnable_ids id r.states d,
  contains-snoc q id (runnable_ids r.states),
)

-- The session picked is a candidate, and its turn comes before that of every other candidate in
-- the round that begins behind the session served last.
pub next_runnable_lem :
    (r : Runner) (requester : Option ℕ) (n : ℕ)
    → Distinct r.states
    → next_runnable r requester ≡ some n
    → (is_candidate r requester n ≡ true)
      × ((q : ℕ) → is_candidate r requester q ≡ true → Precedes r.last_served n q)
unfolding next_runnable
next_runnable_lem r requester n d h =
    let ids = add_requester r requester (runnable_ids r.states) in
    let (mem, first) = pick_lem r.last_served (sort ids) n (sort-IsSorted ids) h in
    (
      sym (contains-add_requester r requester n d) ∙ (sym (contains-sort n ids) ∙ mem),
      λ q hq. first q (contains-sort q ids ∙ (contains-add_requester r requester q d ∙ hq)),
    )

next_runnable-some :
    (r : Runner) (requester : Option ℕ) (q : ℕ)
    → Distinct r.states
    → is_candidate r requester q ≡ true
    → (n : ℕ) × (next_runnable r requester ≡ some n)
unfolding next_runnable
next_runnable-some r requester q d h =
    let ids = add_requester r requester (runnable_ids r.states) in
    pick-some r.last_served (sort ids) q
      (contains-sort q ids ∙ (contains-add_requester r requester q d ∙ h))

-- A ready session adds nothing to the candidates by asking.
next_runnable-ready :
    (r : Runner) (n : ℕ)
    → Distinct r.states
    → is_ready r n ≡ true
    → next_runnable r (some n) ≡ next_runnable r none
unfolding next_runnable
next_runnable-ready r n d h = rw (contains-runnable_ids n r.states d ∙ h) (ground arith)

-- `canAcquireLocked` of a ready session, while nobody holds the token, is its being picked.
can_acquire-ready :
    (r : Runner) (n : ℕ)
    → Distinct r.states
    → r.active ≡ none
    → is_ready r n ≡ true
    → can_acquire r n ≡ none_or (next_runnable r none) n
unfolding can_acquire
can_acquire-ready r n d idle ready = rw (next_runnable-ready r n d ready, idle) (ground arith)

-- The state in which a session has taken the free token.
abbrev pub granted : Runner → ℕ → Runner
granted r id = record {
  active = some id;
  depth = 1;
  last_served = r.last_served;
  states = put id running r.states;
}

acquire-idle :
    (r : Runner) (id : ℕ)
    → r.active ≡ none
    → acquire r id ≡ (if can_acquire r id then done (granted r id) else blocked)
unfolding acquire grant_acquire
acquire-idle r id idle = rw (idle, (nat_beq_iff id id).1 refl) refl

acquire_after_input_wake-idle :
    (r : Runner) (id : ℕ)
    → r.active ≡ none
    → acquire_after_input_wake r id
      ≡ (if is_waiting (state r id) then blocked else done (granted r id))
unfolding acquire_after_input_wake can_acquire_after_input_wake grant_acquire
acquire_after_input_wake-idle r id idle = rw (idle, (nat_beq_iff id id).1 refl) (ground arith)

not-waiting : (r : Runner) (id : ℕ) → is_ready r id ≡ true → is_waiting (state r id) ≡ false
not-waiting r id ready = ground arith

-- While nobody holds the token and some session is ready, `acquire` lets exactly one ready session
-- in: there is one whose turn it is, it takes the token, and every other ready session waits.
-- `acquireAfterInputWake` knows no turns: through it every ready session may take the free token.
pub turn_unique :
    (r : Runner) (q : ℕ)
    → Distinct r.states
    → r.active ≡ none
    → is_ready r q ≡ true
    → (n : ℕ) × (is_ready r n ≡ true)
      × ((m : ℕ)
          → is_ready r m ≡ true
          → (acquire r m ≡ (if nat_beq n m then done (granted r m) else blocked))
            × (acquire_after_input_wake r m ≡ done (granted r m)))
turn_unique r q d idle ready =
    let (n, e) = next_runnable-some r none q d ready in
    (
      n,
      (next_runnable_lem r none n d e).0,
      λ m hm. (
        rw (acquire-idle r m idle, can_acquire-ready r m d idle hm, e) refl,
        rw (acquire_after_input_wake-idle r m idle, not-waiting r m hm) refl,
      ),
    )

not-own-turn :
    (r : Runner) (id q : ℕ) (o : Option ℕ)
    → Distinct r.states
    → r.last_served ≡ id
    → next_runnable r (some id) ≡ o
    → is_ready r q ≡ true
    → q ≢ id
    → none_or o id ≡ false
not-own-turn r id q none d last e ready ne =
    let (n, e') = next_runnable-some r (some id) q d (ground arith) in absurd (ground arith)
not-own-turn r id q (some n) d last e ready ne =
    ground (arith, (next_runnable_lem r (some id) n d e).1 q (ground arith), nat_beq_iff n id)

hand_back-not_again :
    (r : Runner) (id q : ℕ) (s : RunState)
    → Distinct r.states
    → is_ready r q ≡ true
    → q ≢ id
    → acquire (hand_back r id s) id ≡ blocked
unfolding can_acquire
hand_back-not_again r id q s d ready ne =
    let r' = hand_back r id s in
    let still : is_ready r' q ≡ true = ground (arith, find-put id q s r.states, nat_beq_iff id q) in
    let cannot : can_acquire r' id ≡ false = ground (
      arith,
      not-own-turn r' id q (next_runnable r' (some id)) (put-Distinct id s r.states d) refl refl
          still ne,
    ) in
    rw (acquire-idle r' id refl, cannot) refl

state-hand_back : (r : Runner) (id : ℕ) (s : RunState) → state (hand_back r id s) id ≡ s
state-hand_back r id s = ground (arith, find-put id id s r.states, nat_beq_iff id id)

-- A session gives the token up, by its last `release` or by waiting for input, while another
-- session is ready. Then `acquire` makes it wait in both cases. `acquireAfterInputWake` gives it
-- the token back at once after the release, and makes it wait only while it waits for input.
pub hand_back_alternates :
    (r : Runner) (id q : ℕ)
    → Distinct r.states
    → r.active ≡ some id
    → r.depth ≡ 1
    → is_ready r q ≡ true
    → q ≢ id
    → let released = hand_back r id runnable in
      let waiting = hand_back r id waiting_for_input in
      (release r id ≡ done released)
      × (acquire released id ≡ blocked)
      × (acquire_after_input_wake released id ≡ done (granted released id))
      × (yield_waiting_for_input r id ≡ done waiting)
      × (acquire waiting id ≡ blocked)
      × (acquire_after_input_wake waiting id ≡ blocked)
unfolding release yield_waiting_for_input
hand_back_alternates r id q d mine once ready ne =
    let released = hand_back r id runnable in
    let waiting = hand_back r id waiting_for_input in
    (
      rw (mine, once, (nat_beq_iff id id).1 refl) refl,
      hand_back-not_again r id q runnable d ready ne,
      rw (acquire_after_input_wake-idle released id refl, state-hand_back r id runnable) refl,
      rw (mine, once, (nat_beq_iff id id).1 refl) refl,
      hand_back-not_again r id q waiting_for_input d ready ne,
      rw (acquire_after_input_wake-idle waiting id refl, state-hand_back r id waiting_for_input)
          refl,
    )
