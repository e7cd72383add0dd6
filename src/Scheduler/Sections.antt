-- ===== src/Scheduler/Sections.antt =====
-- `runExclusive`: what it takes it gives back where its function returns, and keeps where it throws.
use gemini_system.Prelude.{
  ℕ, ◌+◌, ◌^◌, ◌<◌, ◌≡◌, refl, true, false, none, some, nat_beq_iff, arith, ◌⊎◌, inl, inr,
  Bool-cases,
}
use gemini_system.Scheduler.{
  Runner, done, blocked, after_fn, can_acquire, Ending, returned, thrown, Section, ended, unwound,
  run_exclusive, finish_exclusive,
}
use gemini_system.Scheduler.Exclusion.{IsExclusive, entered, acquire_granted, can_acquire_free}

finish_balanced :
    (r r' : Runner) (id : ℕ)
    → (r'.active ≡ some id)
    → r'.depth ≡ r.depth + 1
    → (r.active ≡ none → r.depth ≡ 0)
    → ((a : ℕ) → r.active ≡ some a → 0 < r.depth)
    → (r.active ≡ none) ⊎ (r.active ≡ some id)
    → ((finish_exclusive r' id).active ≡ r.active) × ((finish_exclusive r' id).depth ≡ r.depth)
unfolding finish_exclusive
finish_balanced r r' id act dep idle busy free = (
  ground (arith, nat_beq_iff id id, idle, busy id),
  ground (arith, nat_beq_iff id id, idle, busy id),
)

-- The runner in which a function ends, whether it returns or throws.
abbrev pub left_by : Ending → Runner
left_by (returned r) = r
left_by (thrown r) = r

-- The session holds the token once more than before.
abbrev pub HoldsOneMore : Runner → ℕ → Runner → Type 0
HoldsOneMore r id r' = (r'.active ≡ some id) × (r'.depth ≡ r.depth + 1)

-- A call whose function returned: the token and the depth are what they were before it.
abbrev pub IsBalanced : Runner → Section → Type 0
IsBalanced r s =
    (r' : Runner) × (s ≡ ended (done r')) × (r'.active ≡ r.active) × (r'.depth ≡ r.depth)

-- A call whose function threw: the exception goes on, and the session keeps what the call took.
abbrev pub IsUnbalanced : Runner → ℕ → Section → Type 0
IsUnbalanced r id s = (r' : Runner) × (s ≡ unwound r') × HoldsOneMore r id r'

abbrev pub EndsAs : Runner → ℕ → Ending → Section → Type 0
EndsAs r id (returned r') s = IsBalanced r s
EndsAs r id (thrown r') s = IsUnbalanced r id s

after_fn-EndsAs :
    (r : Runner) (id : ℕ) (e : Ending)
    → IsExclusive r
    → (r.active ≡ none) ⊎ (r.active ≡ some id)
    → HoldsOneMore r id (left_by e)
    → EndsAs r id e (after_fn id e)
after_fn-EndsAs r id (returned r') v free (act, dep) =
    let (a, d) = finish_balanced r r' id act dep v.idle v.busy free in
    (finish_exclusive r' id, refl, a, d)
after_fn-EndsAs r id (thrown r') v free held = (r', refl, held)

-- `runExclusive` waits, and calls nothing, where the session may not enter. Where it may, and its
-- function leaves the token and the depth as it found them, there are two ends: the function
-- returns, and afterwards the token and the depth are what they were before the call; or it
-- throws, and the exception leaves the call with the token still held and the depth one higher.
pub run_exclusive_balanced :
    (r : Runner) (id : ℕ) (fn : Runner → Ending)
    → IsExclusive r
    → r.depth + 1 < 2 ^ 32
    → HoldsOneMore r id (left_by (fn (entered r id)))
    → ((can_acquire r id ≡ false) × (run_exclusive r id fn ≡ ended blocked))
      ⊎ ((can_acquire r id ≡ true) × EndsAs r id (fn (entered r id)) (run_exclusive r id fn))
unfolding run_exclusive
run_exclusive_balanced r id fn v small held = elim (Bool-cases (can_acquire r id)) [
  | inl can ↦ inr (
    can,
    rw (acquire_granted r id v small, can)
        (after_fn-EndsAs r id (fn (entered r id)) v (can_acquire_free r id can) held),
  )
  | inr cannot ↦ inl (cannot, rw (acquire_granted r id v small, cannot) refl)
]
