-- ===== src/Ports/Allocation.antt =====
-- The port manager hands out the smallest port that is free, and the loop that looks for it ends.
use gemini_system.Prelude.{
  contains, ℕ, zero, suc, ◌+◌, ◌%◌, ◌^◌, ◌≤◌, ◌<◌, ◌≡◌, refl, false, List, [], ◌∷◌, Option, none,
  some, nat_beq, if◌then◌else◌, length, arith, leb, Bool-cases, inl, inr, subst, ◌⊎◌,
}
use gemini_system.Ports.{PortManager, create, insert, erase, next_free, allocate, release}
use gemini_system.Ports.Pigeonhole.{Filled, Filled-le-length, Filled-suc}

pub record IsWellformed (m : PortManager) : Type 0 where
  -- A `uint32_t` can count one port more than there may be.
  pub limit : m.max_ports + 1 < 2 ^ 32
  pub fits : length m.in_use ≤ m.max_ports
  pub positive : 0 < m.next_candidate
  -- Every port below the next candidate is in use.
  pub filled : Filled m.next_candidate m.in_use
  pub no_zero : contains 0 m.in_use ≡ false
  pub in_range : (p : ℕ) → m.max_ports < p → contains p m.in_use ≡ false

Filled-bound : (c : ℕ) (xs : List ℕ) → Filled c xs → c ≤ length xs + 1
Filled-bound zero xs h = omega arith
Filled-bound (suc c) xs h = omega (arith, Filled-le-length c xs h)

next_free_total :
    (fuel c : ℕ) (xs : List ℕ)
    → length xs + 2 < 2 ^ 32
    → 0 < c
    → Filled c xs
    → length xs + 1 < fuel + c
    → (p : ℕ) × (next_free fuel c xs ≡ some p) × (contains p xs ≡ false) × (0 < p) × Filled p xs
unfolding next_free
next_free_total zero c xs small pos h enough = absurd (omega (arith, Filled-bound c xs h))
next_free_total (suc fuel) c xs small pos h enough = elim (Bool-cases (contains c xs)) [
  | inl used ↦
      let longer = Filled-suc c xs h used in
      let no_wrap : (c + 1) % 2 ^ 32 ≡ c + 1 = omega (arith, Filled-bound (c + 1) xs longer) in
      rw (used, no_wrap) (next_free_total fuel (c + 1) xs small (omega arith) longer (omega arith))
  | inr free ↦ rw free (c, refl, free, pos, h)
]

-- The state after port `p` was handed out.
abbrev pub with_port : PortManager → ℕ → PortManager
with_port m p = record m { in_use = p ∷ m.in_use; next_candidate = p + 1 }

-- The port is the smallest one that is free.
abbrev pub Smallest : PortManager → ℕ → Type 0
Smallest m p = (0 < p) × (p ≤ m.max_ports) × (contains p m.in_use ≡ false) × Filled p m.in_use

-- In a well-formed manager, whose maximum is below 2^32 - 1 and where port 0 is not in use,
-- `allocate` always returns. With as many ports in use as there may be it refuses and changes
-- nothing; with fewer it hands out the smallest positive port that is not in use, which is at most
-- the maximum, and marks it as in use.
pub allocate_lem :
    (m : PortManager)
    → IsWellformed m
    → ((m.max_ports ≤ length m.in_use) × (allocate m ≡ some (m, none)))
      ⊎ ((length m.in_use < m.max_ports)
          × ((p : ℕ) × (allocate m ≡ some (with_port m p, some p)) × Smallest m p))
unfolding allocate insert
allocate_lem m w = elim (Bool-cases (leb m.max_ports (length m.in_use))) [
  | inl full ↦ inl (ground arith, rw full)
  | inr room ↦
      let (p, found, free, pos, filled) =
        next_free_total (length m.in_use + 1) m.next_candidate m.in_use (ground (arith, w.limit))
          w.positive w.filled (ground (arith, w.positive)) in
      let small : p ≤ m.max_ports = ground (arith, Filled-bound p m.in_use filled) in
      let no_wrap : (p + 1) % 2 ^ 32 ≡ p + 1 = omega (arith, w.limit) in
      inr (ground arith, (p, rw (room, found, free, no_wrap), (pos, small, free, filled)))
]

with_port-IsWellformed :
    (m : PortManager) (p : ℕ)
    → IsWellformed m
    → length m.in_use < m.max_ports
    → Smallest m p
    → IsWellformed (with_port m p)
unfolding contains
with_port-IsWellformed m p w room (pos, small, free, filled) = record {
  limit = w.limit;
  fits = room;
  positive = omega arith;
  filled = λ q qpos lt. ground (arith, filled q);
  no_zero = ground (arith, w.no_zero);
  in_range = λ q lt. ground (arith, w.in_range q);
}

pub allocate-IsWellformed :
    (m m' : PortManager) {r : Option ℕ}
    → IsWellformed m
    → allocate m ≡ some (m', r)
    → IsWellformed m'
allocate-IsWellformed m m' {r} w h = elim (allocate_lem m w) [
  | inl (full, e) ↦ subst IsWellformed (cc) w
  | inr (room, (p, e, s)) ↦ subst IsWellformed (cc) (with_port-IsWellformed m p w room s)
]

contains-erase :
    (p q : ℕ) (xs : List ℕ)
    → contains q (erase p xs) ≡ (if nat_beq p q then false else contains q xs)
unfolding contains erase
contains-erase p q [] = ground arith
contains-erase p q (x ∷ xs) = ground (arith, contains-erase p q xs)

length-erase : (p : ℕ) (xs : List ℕ) → length (erase p xs) ≤ length xs
unfolding erase
length-erase p [] = omega arith
length-erase p (x ∷ xs) = ground (arith, length-erase p xs)

pub release-IsWellformed :
    (m : PortManager) (port : ℕ) → IsWellformed m → 0 < port → IsWellformed (release m port)
unfolding release
release-IsWellformed m port w pos = record {
  limit = w.limit;
  fits = omega (arith, length-erase port m.in_use, w.fits);
  positive = ground (arith, w.positive);
  filled = λ q qpos lt. ground (arith, contains-erase port q m.in_use, w.filled q);
  no_zero = ground (arith, contains-erase port 0 m.in_use, w.no_zero);
  in_range = λ q lt. ground (arith, contains-erase port q m.in_use, w.in_range q);
}

-- After a release exactly the ports that were in use before are, less the released one.
pub contains-release :
    (m : PortManager) (port q : ℕ)
    → contains q (release m port).in_use ≡ (if nat_beq port q then false else contains q m.in_use)
unfolding release
contains-release m port q = contains-erase port q m.in_use

pub create-IsWellformed : (n : ℕ) → n + 1 < 2 ^ 32 → IsWellformed (create n)
unfolding create contains
create-IsWellformed n h = record {
  limit = ground arith;
  fits = ground arith;
  positive = omega arith;
  filled = λ p pos lt. absurd (omega arith);
  no_zero = refl;
  in_range = λ p lt. refl;
}
