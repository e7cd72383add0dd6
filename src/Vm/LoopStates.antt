-- ===== src/Vm/LoopStates.antt =====
-- Where a run stands in a FOR loop, and how it gets on.
use gemini_system.Prelude.{
  ℕ, zero, suc, ◌+◌, ◌<◌, Bool, true, false, List, ◌∷◌, Option, some, Text, text_eq, ◌≡◌, refl, ap,
  sym, subst, ℤ, if◌then◌else◌, arith, ◌∙◌, ◌||◌, length, get_elem?, text_beq,
}
use gemini_system.Prelude.Assoc.{find, put}
use gemini_system.Vm.Values.{Value, int, str, canonical_name, is_read_only_name}
use gemini_system.Vm.Machine.{
  Runtime, ForFrame, Callees, Instruction, CallFuncOperand, OpCode, Flow, next, jumped, Result, ok,
  raise, user_interrupt, raise, set_ip,
}
use gemini_system.Vm.Step.{run, run-suc, run_on, step, step_at, execute, after_op}
use gemini_system.Files.Host.{is_empty}
use gemini_system.Vm.Control.{leave_loop}

-- What `NEXT` does with the variable's new value.
abbrev pub turned :
    {F : Type 0} → Bool → ForFrame → List ForFrame → ℤ → Runtime F → Result Flow × Runtime F
turned true frame rest v r =
    (ok next, record r { for_stack = rest; variables = put frame.var_name (int v) r.variables })
turned false frame rest v r =
    (ok jumped, record r { ip = frame.body_ip; variables = put frame.var_name (int v) r.variables })

pub turned_lem :
    {F : Type 0} (b : Bool) (frame : ForFrame) (rest : List ForFrame) (v : ℤ) (r : Runtime F)
    → r.for_stack ≡ frame ∷ rest
    → (if b then leave_loop else set_ip frame.body_ip)
        (record r { variables = put frame.var_name (int v) r.variables })
      ≡ turned b frame rest v r
unfolding leave_loop set_ip
turned_lem true frame rest v r h = rw h
turned_lem false frame rest v r h = refl

-- The state of a run in a loop: where it stands, what loops it is in, and the loop variable.
pub record IsAt {F : Type 0} (program : List (Instruction F)) (name : Text) (ip : ℕ)
    (loops : List ForFrame) (v : ℤ) (r : Runtime F) : Type 0 where
  pub program_is : r.program ≡ program
  pub ip_is : r.ip ≡ ip
  pub running : r.interrupted ≡ false
  pub loops_are : r.for_stack ≡ loops
  pub value_is : find name r.variables ≡ some (int v)

abbrev pub for_instruction : {F : Type 0} → Text → CallFuncOperand → Instruction F
for_instruction raw c = record { op = OpCode.for_setup; operand = str raw; call_func = c }

abbrev pub next_instruction : {F : Type 0} → Text → CallFuncOperand → Instruction F
next_instruction raw c = record { op = OpCode.for_next; operand = str raw; call_func = c }

-- What FOR pushes.
abbrev pub loop_frame : Text → ℕ → ℤ → ℤ → ForFrame
loop_frame for_name start limit step = record {
  var_name = canonical_name for_name;
  limit = limit;
  step = step;
  body_ip = suc start;
}

-- The state behind FOR.
abbrev pub opened : {F : Type 0} → Runtime F → List (Value F) → ForFrame → Runtime F
opened r s frame = record r { ip = frame.body_ip; stack = s; for_stack = frame ∷ r.for_stack }

-- The state behind NEXT, where the loop is left and where it goes round again.
abbrev pub after_next :
    {F : Type 0} → ℕ → Bool → ForFrame → List ForFrame → ℤ → Runtime F → Runtime F
after_next end true frame rest v r = record r {
  ip = suc end;
  for_stack = rest;
  variables = put frame.var_name (int v) r.variables;
}
after_next end false frame rest v r = record r {
  ip = frame.body_ip;
  variables = put frame.var_name (int v) r.variables;
}

-- A program has FOR at `start` and its NEXT at `end`, with code behind. NEXT has no name, or that of
-- the loop's variable, which is no name of the system.
pub record IsForLoop {F : Type 0} (program : List (Instruction F)) (start end : ℕ)
    (for_name next_name : Text) (c c' : CallFuncOperand) : Type 0 where
  pub opens : get_elem? program start ≡ some (for_instruction for_name c)
  pub closes : get_elem? program end ≡ some (next_instruction next_name c')
  pub named :
      is_empty (canonical_name next_name)
        || text_beq (canonical_name for_name) (canonical_name next_name)
      ≡ true
  pub free : is_read_only_name (canonical_name for_name) ≡ false
  pub ordered : start < end
  pub followed : end + 1 < length program

module _ {F : Type 0} (env : Callees F) where
  -- So many instructions lead from the one state to the other, and nothing stops the run on the way.
  unfoldable pub Steps : ℕ → Runtime F → Runtime F → Type 0
  Steps zero r r' = r ≡ r'
  Steps (suc k) r r' =
      (m : Runtime F) × (step env r ≡ (ok true, m)) × (m.interrupted ≡ false) × Steps k m r'

  abbrev pub Reaches : Runtime F → Runtime F → Type 0
  Reaches r r' = (k : ℕ) × Steps k r r'

  Steps-join : (k j : ℕ) (a b c : Runtime F) → Steps k a b → Steps j b c → Reaches a c
  unfolding Steps
  Steps-join zero j a b c same bc = (j, subst (λ x. Steps j x c) (sym same) bc)
  Steps-join (suc k) j a b c (m, one, calm, rest) bc =
      let (n, all) = Steps-join k j m b c rest bc in (suc n, (m, one, calm, all))

  pub Reaches-trans : (a b c : Runtime F) → Reaches a b → Reaches b c → Reaches a c
  Reaches-trans a b c (k, ab) (j, bc) = Steps-join k j a b c ab bc

  -- One instruction.
  pub Reaches-step :
      (r r' : Runtime F) (i : Instruction F)
      → get_elem? r.program r.ip ≡ some i
      → after_op (execute env i.op i r) ≡ (ok true, r')
      → r'.interrupted ≡ false
      → Reaches r r'
  unfolding Steps step step_at
  Reaches-step r r' i here goes calm = (1, (r', rw (here, goes) refl, calm, refl))

  going-on :
      (more : Runtime F → Option (Result (Unit {0}) × Runtime F)) (m : Runtime F)
      → m.interrupted ≡ false
      → run_on env more (ok true, m) ≡ more m
  going-on more m calm = ap (λ b. if b then some (raise user_interrupt, m) else more m) calm

  -- What `run` gives from the first state is what it gives from the second, on the fuel that is left.
  Steps-run :
      (k fuel : ℕ) (r r' : Runtime F) → Steps k r r' → run env (k + fuel) r ≡ run env fuel r'
  unfolding Steps
  Steps-run zero fuel r r' same =
      let none_yet : 0 + fuel ≡ fuel = omega arith in
      ap (λ n. run env n r) none_yet ∙ ap (run env fuel) same
  Steps-run (suc k) fuel r r' (m, one, calm, rest) =
      let more : suc k + fuel ≡ suc (k + fuel) = omega arith in
      ap (λ n. run env n r) more
      ∙ rw (run-suc env (k + fuel) r, one) (going-on (run env (k + fuel)) m calm)
      ∙ Steps-run k fuel m r' rest

  -- The run gets from the one state to the other.
  abbrev pub RunsTo : Runtime F → Runtime F → Type 0
  RunsTo r r' = (k : ℕ) × Steps k r r' × ((fuel : ℕ) → run env (k + fuel) r ≡ run env fuel r')

  pub Reaches-RunsTo : (r r' : Runtime F) → Reaches r r' → RunsTo r r'
  Reaches-RunsTo r r' (k, all) = (k, all, λ fuel. Steps-run k fuel r r' all)
