-- ===== src/Vm/SystemVars.antt =====
-- The names of the system: no program binds them, and no program changes itself.
use gemini_system.Prelude.{
  ℕ, true, false, List, none, some, Text, text_eq, text_beq_iff, ◌≡◌, refl, ℤ, arith,
}
use gemini_system.Prelude.Assoc.{Assoc, find, put, find-put}
use gemini_system.Vm.Values.{is_read_only_name}
use gemini_system.Vm.Machine.{Runtime, Callees, Instruction, Result}
use gemini_system.Vm.Reasoning.{IsStable}
use gemini_system.Vm.Step.{run, load_program}
use gemini_system.Vm.Stability.Step.{run-Keeps}

-- No variable and no array has a name of the system.
abbrev pub IsClean : {F : Type 0} → Runtime F → Type 0
IsClean r =
    ((name : Text) → is_read_only_name name ≡ true → find name r.variables ≡ none)
    × ((name : Text) → is_read_only_name name ≡ true → find name r.arrays ≡ none)

find-put_clean :
    {A : Type 0} (name other : Text) (a : A) (m : Assoc Text A)
    → is_read_only_name name ≡ false
    → is_read_only_name other ≡ true
    → find other m ≡ none
    → find other (put name a m) ≡ none
find-put_clean name other a m h k e = ground (
  arith,
  find-put name other a m,
  find-put other name a m,
  text_beq_iff name other,
  text_beq_iff other name,
)

module _ {F : Type 0} where
  IsClean-IsStable : IsStable {F = F} IsClean
  unfolding find
  IsClean-IsStable = record {
    stack = λ r s p. p;
    ip = λ r n p. p;
    calls = λ r s p. p;
    returned = λ r n s p. p;
    loops = λ r s p. p;
    files = λ r m p. p;
    system = λ r fs p. p;
    printed = λ r t p. p;
    consumed = λ r ls p. p;
    status = λ r n p. p;
    handler = λ r o p. p;
    bound =
        λ r name v h p. (λ other k. find-put_clean name other v r.variables h k (p.0 other k), p.1);
    dimensioned =
        λ r name vs h p. (p.0, λ other k. find-put_clean name other vs r.arrays h k (p.1 other k));
    cleared = λ r p. (λ other k. refl, λ other k. refl);
  }

  -- The program is the one that was loaded.
  HasProgram : List (Instruction F) → Runtime F → Type 0
  HasProgram program r = r.program ≡ program

  HasProgram-IsStable : (program : List (Instruction F)) → IsStable (HasProgram program)
  unfolding HasProgram
  HasProgram-IsStable program = record {
    stack = λ r s p. p;
    ip = λ r n p. p;
    calls = λ r s p. p;
    returned = λ r n s p. p;
    loops = λ r s p. p;
    files = λ r m p. p;
    system = λ r fs p. p;
    printed = λ r t p. p;
    consumed = λ r ls p. p;
    status = λ r n p. p;
    handler = λ r o p. p;
    bound = λ r name v h p. p;
    dimensioned = λ r name vs h p. p;
    cleared = λ r p. p;
  }

  -- Whatever a loaded program does until it ends or fails, it never binds one of the read-only names
  -- @USERNO, @ACCOUNT, @LOGNAME and @DEFDATA, as a variable or as an array, and the machine still
  -- holds the program that was loaded.
  pub run-IsClean :
      (env : Callees F) (program : List (Instruction F)) (lines : List ℤ) (fuel : ℕ)
      (r after : Runtime F) (result : Result (Unit {0}))
      → run env fuel (load_program program lines r) ≡ some (result, after)
      → IsClean after × (after.program ≡ program)
  unfolding HasProgram load_program find
  run-IsClean env program lines fuel r after result h = (
    run-Keeps IsClean-IsStable env fuel (load_program program lines r) after result
        ((λ name k. refl, λ name k. refl)) h,
    run-Keeps (HasProgram-IsStable program) env fuel (load_program program lines r) after result
        refl h,
  )
