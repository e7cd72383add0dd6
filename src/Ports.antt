-- ===== src/Ports.antt =====
-- core/daemon/PortManager: the allocator of session ports, `SessionId` being a `uint32_t`. The
-- methods lock a mutex, so each is one step. `inUse_` is a `std::set`, modelled as a list that
-- holds no port twice.
pub mod Pigeonhole
pub mod Allocation
pub mod History
use gemini_system.Prelude.{
  ℕ, zero, suc, ◌+◌, ◌%◌, ◌^◌, Bool, true, false, ◌||◌, List, [], ◌∷◌, Option, none, some, leb, ltb,
  nat_beq, contains, if◌then◌else◌, length,
}

pub record PortManager : Type 0 where
  pub max_ports : ℕ
  pub in_use : List ℕ
  pub next_candidate : ℕ

unfoldable pub create : ℕ → PortManager
create max_ports = record {
  max_ports = if ltb max_ports 1 then 1 else max_ports;
  in_use = [];
  next_candidate = 1;
}

-- `inUse_.count(port) != 0` is `contains`.
unfoldable pub insert : ℕ → List ℕ → List ℕ
insert port xs = if contains port xs then xs else port ∷ xs

unfoldable pub erase : ℕ → List ℕ → List ℕ
erase port [] = []
erase port (x ∷ xs) = let rest = erase port xs in if nat_beq x port then rest else x ∷ rest

-- `while (inUse_.count(candidate) != 0) ++candidate;` with fuel: `none` is a loop that goes on.
unfoldable pub next_free : ℕ → ℕ → List ℕ → Option ℕ
next_free zero candidate xs = none
next_free (suc fuel) candidate xs =
    let rest = next_free fuel ((candidate + 1) % 2 ^ 32) xs in
    if contains candidate xs then rest else some candidate

-- The rest of `allocate`, once the loop has found a port. The outer `none` is a loop that goes on.
abbrev pub granted : PortManager → Option ℕ → Option (PortManager × Option ℕ)
granted m none = none
granted m (some port) =
    some
      (record m { in_use = insert port m.in_use; next_candidate = (port + 1) % 2 ^ 32 }, some port)

unfoldable pub allocate : PortManager → Option (PortManager × Option ℕ)
allocate m =
    if leb m.max_ports (length m.in_use)
    then some (m, none)
    else granted m (next_free (length m.in_use + 1) m.next_candidate m.in_use)

unfoldable pub release : PortManager → ℕ → PortManager
release m port = record m {
  in_use = erase port m.in_use;
  next_candidate = if ltb port m.next_candidate then port else m.next_candidate;
}

abbrev pub in_use_count : PortManager → ℕ
in_use_count m = length m.in_use
