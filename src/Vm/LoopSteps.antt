-- ===== src/Vm/LoopSteps.antt =====
-- A FOR loop of a program that runs: FOR, its body and NEXT, step by step.
use gemini_system.Prelude.{
  ℕ, suc, Bool, true, false, List, ◌∷◌, Text, text_eq, ◌≡◌, refl, ap, ◌∙◌, ltb, ℤ, fits_int,
  is_zero_ℤ, ◌+ℤ◌, arith, length,
}
use gemini_system.Vm.Values.{int, canonical_name, Value}
use gemini_system.Vm.Reasoning.{IntsAreExact}
use gemini_system.Vm.Machine.{
  Runtime, ForFrame, Callees, Instruction, CallFuncOperand, ok, ◌>>=◌, ◌>>◌, return_value, lift,
  get, put_state, unless, name_operand, writable, defined, checked_int, set_ip, pop_as_int, pop,
  popped,
}
use gemini_system.Vm.Control.{
  exec_for_setup, exec_for_next, innermost, leave_loop, set_variable, is_done,
}
use gemini_system.Vm.Step.{execute, after_op}
use gemini_system.Vm.LoopStates.{
  turned, turned_lem, IsAt, for_instruction, next_instruction, loop_frame, opened, after_next,
  IsForLoop, Reaches, Reaches-step,
}

module _ {F : Type 0} (env : Callees F) (exact : IntsAreExact env) (program : List (Instruction F))
    (start end : ℕ) (for_name next_name : Text) (c c' : CallFuncOperand)
    (loop : IsForLoop program start end for_name next_name c c') where
  pub for_setup_lem :
      (r : Runtime F) (rest : List ForFrame) (v limit step : ℤ) (s : List (Value F))
      → IsAt program (canonical_name for_name) start rest v r
      → r.stack ≡ int step ∷ (int limit ∷ s)
      → fits_int step ≡ true
      → fits_int limit ≡ true
      → is_zero_ℤ step ≡ false
      → Reaches env r (opened r s (loop_frame for_name start limit step))
  unfolding execute exec_for_setup ◌>>=◌ ◌>>◌ name_operand pop_as_int pop popped lift get put_state
      unless defined return_value
  for_setup_lem r rest v limit step s at stack fits fits_limit moves =
      let goes : ltb (suc start) (length program) ≡ true =
        ground (arith, loop.ordered, loop.followed) in
      Reaches-step env r (opened r s (loop_frame for_name start limit step))
        (for_instruction for_name c) (rw (at.program_is, at.ip_is) loop.opens)
        (rw (stack, exact step fits, exact limit fits_limit, moves, at.program_is, at.ip_is, goes)
          refl)
        at.running

  exec_for_next_lem :
      (r : Runtime F) (limit step : ℤ) (rest : List ForFrame) (v : ℤ)
      → IsAt program (canonical_name for_name) end (loop_frame for_name start limit step ∷ rest) v r
      → fits_int v ≡ true
      → fits_int (v +ℤ step) ≡ true
      → exec_for_next env (next_instruction next_name c') r
        ≡ turned
            (is_done (loop_frame for_name start limit step) (v +ℤ step))
            (loop_frame for_name start limit step)
            rest
            (v +ℤ step)
            r
  unfolding exec_for_next ◌>>=◌ ◌>>◌ name_operand innermost lift get unless defined return_value
      checked_int writable set_variable leave_loop set_ip
  exec_for_next_lem r limit step rest v at fits fits_next =
      let frame = loop_frame for_name start limit step in
      rw (at.loops_are, at.value_is, loop.named, exact v fits, fits_next, loop.free)
        (turned_lem (is_done frame (v +ℤ step)) frame rest (v +ℤ step)
          (record r { for_stack = frame ∷ rest }) refl)

  after_turned :
      (b : Bool) (r : Runtime F) (frame : ForFrame) (rest : List ForFrame) (v : ℤ)
      → r.program ≡ program
      → r.ip ≡ end
      → frame.body_ip ≡ suc start
      → after_op (turned b frame rest v r) ≡ (ok true, after_next end b frame rest v r)
  after_turned true r frame rest v code here body =
      let goes : ltb (suc end) (length program) ≡ true = ground (arith, loop.followed) in
      rw (here, code, goes) refl
  after_turned false r frame rest v code here body =
      let goes : ltb (suc start) (length program) ≡ true =
        ground (arith, loop.ordered, loop.followed) in
      rw (body, code, goes) refl

  after_next-running :
      (b : Bool) (frame : ForFrame) (rest : List ForFrame) (v : ℤ) (r : Runtime F)
      → r.interrupted ≡ false
      → (after_next end b frame rest v r).interrupted ≡ false
  after_next-running true frame rest v r calm = calm
  after_next-running false frame rest v r calm = calm

  pub for_next_lem :
      (r : Runtime F) (limit step : ℤ) (rest : List ForFrame) (v : ℤ)
      → IsAt program (canonical_name for_name) end (loop_frame for_name start limit step ∷ rest) v r
      → fits_int v ≡ true
      → fits_int (v +ℤ step) ≡ true
      → Reaches env r (
          after_next end
            (is_done (loop_frame for_name start limit step) (v +ℤ step))
            (loop_frame for_name start limit step)
            rest
            (v +ℤ step)
            r)
  unfolding execute
  for_next_lem r limit step rest v at fits fits_next =
      let frame = loop_frame for_name start limit step in
      let done = is_done frame (v +ℤ step) in
      Reaches-step env r (after_next end done frame rest (v +ℤ step) r)
        (next_instruction next_name c') (rw (at.program_is, at.ip_is) loop.closes)
        (ap after_op (exec_for_next_lem r limit step rest v at fits fits_next)
          ∙ after_turned done r frame rest (v +ℤ step) at.program_is at.ip_is refl)
        (after_next-running done frame rest (v +ℤ step) r at.running)
