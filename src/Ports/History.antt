-- ===== src/Ports/History.antt =====
-- Histories of calls: sessions come and go, and the port manager never gets stuck.
use gemini_system.Prelude.{
  contains, ℕ, ◌+◌, ◌^◌, ◌≤◌, ◌<◌, ◌≡◌, refl, false, List, [], ◌∷◌, Option, none, some, length, inl,
  inr, All,
}
use gemini_system.Ports.{PortManager, create, allocate, release}
use gemini_system.Ports.Allocation.{
  IsWellformed, allocate_lem, with_port, allocate-IsWellformed, release-IsWellformed,
  create-IsWellformed,
}

pub data Call : Type 0 where
  allocates : Call
  releases : ℕ → Call

abbrev state_of : Option (PortManager × Option ℕ) → Option PortManager
state_of none = none
state_of (some (m, r)) = some m

unfoldable pub step : PortManager → Call → Option PortManager
step m allocates = state_of (allocate m)
step m (releases port) = some (release m port)

abbrev then_run : (PortManager → Option PortManager) → Option PortManager → Option PortManager
then_run k none = none
then_run k (some m) = k m

unfoldable pub run : PortManager → List Call → Option PortManager
run m [] = some m
run m (c ∷ cs) = then_run (λ m'. run m' cs) (step m c)

-- Port 0 is never handed out, and so never given back.
abbrev pub IsProper : Call → Type 0
IsProper allocates = Unit
IsProper (releases port) = 0 < port

step_total :
    (m : PortManager) (c : Call)
    → IsWellformed m
    → IsProper c
    → (m' : PortManager) × (step m c ≡ some m') × IsWellformed m'
unfolding step
step_total m allocates w p = elim (allocate_lem m w) [
  | inl (full, e) ↦ (m, rw e, w)
  | inr (room, (port, e, s)) ↦ (with_port m port, rw e, allocate-IsWellformed m _ w e)
]
step_total m (releases port) w p = (release m port, refl, release-IsWellformed m port w p)

run_total :
    (m : PortManager) (cs : List Call)
    → IsWellformed m
    → All IsProper cs
    → (m' : PortManager) × (run m cs ≡ some m') × IsWellformed m'
unfolding run
run_total m [] w p = (m, refl, w)
run_total m (c ∷ cs) w p =
    let (m', e, w') = step_total m c w p.0 in
    let (m'', e', w'') = run_total m' cs w' p.1 in (m'', rw e e', w'')

-- From a new manager every history of allocations and releases of positive ports runs to its end,
-- and leaves at most the maximum of ports in use, each between 1 and the maximum.
pub run-create_total :
    (max_ports : ℕ) (cs : List Call)
    → max_ports + 1 < 2 ^ 32
    → All IsProper cs
    → (m : PortManager) × (run (create max_ports) cs ≡ some m)
      × (length m.in_use ≤ m.max_ports)
      × (contains 0 m.in_use ≡ false)
      × ((p : ℕ) → m.max_ports < p → contains p m.in_use ≡ false)
run-create_total n cs h p =
    let (m, e, w) = run_total (create n) cs (create-IsWellformed n h) p in
    (m, e, w.fits, w.no_zero, w.in_range)
