-- ===== src/Tests/PortTests.antt =====
-- Tests of Ports.
use gemini_system.Prelude.{
  ℕ, ◌≤◌, ◌<◌, ◌≡◌, refl, false, [], ◌∷◌, none, some, arith, ◌⊎◌, length, contains,
}
use gemini_system.Ports.{PortManager, create, allocate, release, next_free, insert, erase}
use gemini_system.Ports.Allocation.{
  IsWellformed, allocate_lem, contains-release, with_port, Smallest,
}
use gemini_system.Ports.History.{allocates, releases, step, run, run-create_total}

-- Ports 1, 2 and 3 were handed out, and 2 given back.
abbrev one_and_three : PortManager
one_and_three = record { max_ports = 4; in_use = 3 ∷ (1 ∷ []); next_candidate = 2 }

history :
    run (create 4) (allocates ∷ (allocates ∷ (allocates ∷ (releases 2 ∷ [])))) ≡ some one_and_three
unfolding run step create allocate release next_free insert erase contains
history = refl

-- The gap is filled first, and then the search goes on behind the port that is still in use.
reuse :
    run one_and_three (allocates ∷ (allocates ∷ []))
    ≡ some record { max_ports = 4; in_use = 4 ∷ (2 ∷ (3 ∷ (1 ∷ []))); next_candidate = 5 }
unfolding run step allocate next_free insert contains
reuse = refl

one_and_three-IsWellformed : IsWellformed one_and_three
unfolding contains
one_and_three-IsWellformed = record {
  limit = omega arith;
  fits = omega arith;
  positive = omega arith;
  filled = λ p pos lt. ground arith;
  no_zero = refl;
  in_range = λ p lt. ground arith;
}

allocate_lem_example :
    ((4 ≤ length one_and_three.in_use) × (allocate one_and_three ≡ some (one_and_three, none)))
    ⊎ ((length one_and_three.in_use < 4)
        × ((p : ℕ) × (allocate one_and_three ≡ some (with_port one_and_three p, some p))
            × Smallest one_and_three p))
allocate_lem_example = allocate_lem one_and_three one_and_three-IsWellformed

contains-release_example : contains 3 (release one_and_three 3).in_use ≡ false
contains-release_example = contains-release one_and_three 3 3

run-create_total_example :
    (m : PortManager) × (run (create 4) (allocates ∷ (releases 1 ∷ (allocates ∷ []))) ≡ some m)
    × (length m.in_use ≤ m.max_ports)
    × (contains 0 m.in_use ≡ false)
    × ((p : ℕ) → m.max_ports < p → contains p m.in_use ≡ false)
run-create_total_example =
    run-create_total 4 (allocates ∷ (releases 1 ∷ (allocates ∷ []))) (omega arith)
      (tt, (omega arith, (tt, tt)))
