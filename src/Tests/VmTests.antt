-- ===== src/Tests/VmTests.antt =====
-- Tests of Vm. A `double` is here an integer, which is enough for whole numbers.
use gemini_system.Prelude.{
  ℕ, ◌≡◌, refl, ◌/◌, true, false, not, length, ◌&&◌, [], ◌∷◌, List, Option, none, some, codes, ℤ,
  pos, negsuc, ◌+ℤ◌, ◌-ℤ◌, ◌*ℤ◌, ltb_ℤ, fits_int, if◌then◌else◌, arith, text_beq,
}
use gemini_system.Prelude.Assoc.{find, put, erase}
use gemini_system.Files.State.{FileSystem}
use gemini_system.Tests.FileTests.{
  ann, r1, data_file, system, handle, bob_system, ann_entry, ann_not_bob,
}
use gemini_system.Files.Handles.{open_file, text_leb}
use gemini_system.Files.Items
use gemini_system.Files.Host.{entry_exists, is_valid_name}
use gemini_system.Locking.{lookup, try_acquire, init, LockType}
use gemini_system.Vm.Values.{
  Value, int, str, Numerics, to_string, stoi_from, skip_space, coerce_to_int, coerce_to_double,
  canonical_name, is_read_only_name, value_to_string,
}
use gemini_system.Vm.Machine.{
  Runtime, Callees, Instruction, OpCode, VmError, Result, ok, raise, next, ForFrame,
  read_only_variable, undefined_behaviour, CallFuncOperand, index_out_of_bounds, ◌>>=◌,
}
use gemini_system.Vm.Machine
use gemini_system.Vm.Step.{run, load_program, execute}
use gemini_system.Vm.Arithmetic.{exec_push_int}
use gemini_system.Vm.Console.{exec_input_int}
use gemini_system.Vm.Arrays.{exec_store_arr, exec_load_arr}
use gemini_system.Vm.FileOps.{exec_read_rec, exec_write, exec_read_rec_try}
use gemini_system.Vm.SystemVars.{IsClean, run-IsClean}
use gemini_system.Vm.Reasoning.{IntsAreExact}
use gemini_system.Vm.ArrayBounds.{load-store_arr, array_bounds, loaded}
use gemini_system.Vm.LoopNumbers.{along}
use gemini_system.Vm.LoopStates.{IsAt, IsForLoop, RunsTo, Reaches-step}
use gemini_system.Vm.TextOrder.{on_texts, pushes_truth, text_comparison}
use gemini_system.Vm.Loops.{loop_ends, RunsBody}
use gemini_system.Vm.IntLines.{exec_input_int-value_to_string}
use gemini_system.Vm.RecordOps.{
  exec_read_rec-exec_write, locked_record_handled, on_file, at_file, conflict_handled,
}

abbrev quotient : ℤ → ℤ → ℤ
quotient (pos a) (pos b) = pos (a / b)
quotient a b = pos 0

abbrev pub whole_numbers : Numerics ℤ
whole_numbers = record {
  of_int = λ z. z;
  add = λ a b. a +ℤ b;
  sub = λ a b. a -ℤ b;
  mul = λ a b. a *ℤ b;
  div = quotient;
  less = ltb_ℤ;
  equal = λ a b. not (ltb_ℤ a b) && not (ltb_ℤ b a);
  floor = λ z. z;
  to_int = λ z. if fits_int z then some z else none;
  strtod = λ t. stoi_from (skip_space t);
  print = to_string;
}

abbrev env : Callees ℤ
env = record {
  numerics = whole_numbers;
  now = 1;
  system_var_reader = none;
  invoke_builtin = λ name s. (raise undefined_behaviour, s);
  registry = none;
  resolve_field = λ fs file token. raise undefined_behaviour;
  evaluate_field = λ fs file token sr. raise undefined_behaviour;
}

abbrev pub at : OpCode → Value ℤ → Instruction ℤ
at op v = record {
  op = op;
  operand = v;
  call_func = record { namespace_id = 0; function_id = 0; arg_count = pos 0 };
}

abbrev idle : Runtime ℤ
idle = record {
  program = [];
  source_lines = [];
  stack = [];
  call_stack = [];
  for_stack = [];
  variables = [];
  arrays = [];
  open_files = [];
  ip = 0;
  interrupted = false;
  output = [];
  input = [];
  file_system = none;
  status_code = 0;
  on_error_ip = none;
}

-- FOR I = 1 TO 3: PRINT I: NEXT
abbrev pub counting : List (Instruction ℤ)
counting =
    at OpCode.push_int (int (pos 1))
    ∷ (at OpCode.store_var (str (codes "i"))
        ∷ (at OpCode.push_int (int (pos 3))
            ∷ (at OpCode.push_int (int (pos 1))
                ∷ (at OpCode.for_setup (str (codes "I"))
                    ∷ (at OpCode.load_var (str (codes "I"))
                        ∷ (at OpCode.print_val (int (pos 0))
                            ∷ (at OpCode.for_next (str (codes "I"))
                                ∷ (at OpCode.halt (int (pos 0)) ∷ []))))))))

abbrev ended : Option (Result (Unit {0}) × Runtime ℤ) → Runtime ℤ
ended none = idle
ended (some x) = x.1

abbrev result_of : Option (Result (Unit {0}) × Runtime ℤ) → Option (Result (Unit {0}))
result_of none = none
result_of (some x) = some x.0

counted :
    (result_of (run env 15 (load_program counting [] idle)) ≡ some (ok tt))
    × ((ended (run env 15 (load_program counting [] idle))).output ≡ codes "123")
    × (result_of (run env 14 (load_program counting [] idle)) ≡ none)
unfolding run load_program text_beq find put
counted = (refl, refl, refl)

-- @USERNO = 7
abbrev intruding : List (Instruction ℤ)
intruding = at OpCode.push_int (int (pos 7)) ∷ (at OpCode.store_var (str (codes "@userno")) ∷ [])

abbrev intruded : Runtime ℤ
intruded = ended (run env 5 (load_program intruding [] idle))

run-IsClean_example : IsClean intruded × (intruded.program ≡ intruding)
unfolding run load_program text_beq
run-IsClean_example =
    run-IsClean env intruding [] 5 idle intruded (raise (read_only_variable (codes "@USERNO"))) refl

ints_exact : IntsAreExact env
unfolding coerce_to_int coerce_to_double
ints_exact z fits = ground arith

abbrev no_call : CallFuncOperand
no_call = record { namespace_id = 0; function_id = 0; arg_count = pos 0 }

abbrev two_slots : List (Value ℤ)
two_slots = str [] ∷ (str [] ∷ [])

abbrev with_array : Runtime ℤ
with_array = record idle { arrays = (codes "A", two_slots) ∷ [] }

-- A(2) = 5, and then A(2) and A(1).
abbrev array_stored : Result Machine.Flow × Runtime ℤ
array_stored =
    exec_store_arr env (at OpCode.store_arr (str (codes "a")))
      (record with_array { stack = int (pos 2) ∷ (int (pos 5) ∷ []) })

load-store_arr_example :
    (array_stored.0 ≡ ok next)
    × (array_stored.1.stack ≡ [])
    × (exec_load_arr env
          (at OpCode.store_arr (str (codes "a")))
          (record array_stored.1 { stack = int (pos 2) ∷ [] })
        ≡ loaded (codes "A") (some (int (pos 5))) [] array_stored.1)
unfolding canonical_name is_read_only_name text_beq find
load-store_arr_example =
    load-store_arr env ints_exact OpCode.store_arr (codes "a") no_call with_array 1 1 (int (pos 5))
      [] two_slots refl refl refl refl (ground arith)

-- A(3)
array_bounds_example :
    (exec_store_arr env
        (at OpCode.store_arr (str (codes "a")))
        (record with_array { stack = int (pos 3) ∷ (int (pos 5) ∷ []) })
      ≡ (raise (index_out_of_bounds (codes "A")), with_array))
    × (exec_load_arr env
          (at OpCode.store_arr (str (codes "a")))
          (record with_array { stack = int (pos 3) ∷ [] })
        ≡ (raise (index_out_of_bounds (codes "A")), with_array))
unfolding canonical_name is_read_only_name text_beq find
array_bounds_example =
    array_bounds env ints_exact OpCode.store_arr (codes "a") no_call with_array (pos 3)
      (int (pos 5)) [] two_slots refl refl refl (λ h. ground arith)

-- FOR I = 1 TO 6 STEP 2, with a body that pushes a 9, from where the machine comes to FOR.
abbrev pushing : List (Instruction ℤ)
pushing =
    at OpCode.for_setup (str (codes "I"))
    ∷ (at OpCode.push_int (int (pos 9))
        ∷ (at OpCode.for_next (str (codes "i")) ∷ (at OpCode.halt (int (pos 0)) ∷ [])))

abbrev in_loop : Runtime ℤ
in_loop = record idle {
  program = pushing;
  stack = int (pos 2) ∷ (int (pos 6) ∷ []);
  variables = (codes "I", int (pos 1)) ∷ [];
}

seven_fits : fits_int (pos 1 +ℤ along true 6) ≡ true
unfolding ◌+ℤ◌
seven_fits = refl

pushing-IsForLoop : IsForLoop pushing 0 2 (codes "I") (codes "i") no_call no_call
unfolding canonical_name is_read_only_name text_beq
pushing-IsForLoop = record {
  opens = refl;
  closes = refl;
  named = refl;
  free = refl;
  ordered = omega arith;
  followed = ground arith;
}

-- So many numbers stand on the stack.
abbrev Pushed : ℕ → Runtime ℤ → Type 0
Pushed j r = length r.stack ≡ j

pushes :
    RunsBody env ints_exact pushing 0 2
      (codes "I")
      (codes "i")
      no_call
      no_call
      pushing-IsForLoop
      []
      true
      (pos 1)
      5
      1
      2
      (omega arith)
      (omega arith)
      refl
      seven_fits
      Pushed
      (λ j r ip loops v h. h)
unfolding execute exec_push_int ◌>>=◌ Machine.lift Machine.◌>>◌ Machine.push Machine.return_value
pushes j r le here pushed = (
  record r { ip = 2; stack = int (pos 9) ∷ r.stack },
  Reaches-step env r (record r { ip = 2; stack = int (pos 9) ∷ r.stack })
      (at OpCode.push_int (int (pos 9))) (rw (here.program_is, here.ip_is) refl)
      (rw (here.program_is, here.ip_is) refl) here.running,
  record {
    program_is = here.program_is;
    ip_is = refl;
    running = here.running;
    loops_are = here.loops_are;
    value_is = here.value_is;
  },
  ground arith,
)

loop_ends_example :
    (after : Runtime ℤ) × RunsTo env in_loop after
    × IsAt pushing (codes "I") 3 [] (pos 7) after
    × (length after.stack ≡ 3)
unfolding find text_beq canonical_name ◌+ℤ◌
loop_ends_example =
    loop_ends env ints_exact pushing 0 2 (codes "I") (codes "i") no_call no_call pushing-IsForLoop
      [] true (pos 1) 5 1 2 (omega arith) (omega arith) refl seven_fits Pushed
      (λ j r ip loops v h. h) pushes in_loop []
      record { program_is = refl; ip_is = refl; running = refl; loops_are = refl; value_is = refl }
      refl refl refl

-- The same loop in a run.
looped :
    ((ended (run env 8 in_loop)).stack ≡ int (pos 9) ∷ (int (pos 9) ∷ (int (pos 9) ∷ [])))
    × (result_of (run env 8 in_loop) ≡ some (ok tt))
    × (result_of (run env 7 in_loop) ≡ none)
unfolding run text_beq find put
looped = (refl, refl, refl)

-- "B" against "AB": the longer text is the smaller one.
text_comparison_example :
    let on = on_texts env (int (pos 0)) no_call idle (codes "B") (codes "AB") [] in
    let answers = pushes_truth env (int (pos 0)) no_call idle (codes "B") (codes "AB") [] in
    (on OpCode.eq ≡ answers false)
    × (on OpCode.ne ≡ answers true)
    × (on OpCode.lt ≡ answers false)
    × (on OpCode.le ≡ answers false)
    × (on OpCode.gt ≡ answers true)
    × (on OpCode.ge ≡ answers true)
unfolding text_beq text_leb
text_comparison_example = text_comparison env (int (pos 0)) no_call idle (codes "B") (codes "AB") []

exec_input_int-value_to_string_example :
    exec_input_int OpCode.input_int
      (record idle { input = value_to_string whole_numbers (int (negsuc 41)) ∷ [] })
    ≡ (ok next, record idle { stack = int (negsuc 41) ∷ [] })
exec_input_int-value_to_string_example =
    exec_input_int-value_to_string env OpCode.input_int idle (negsuc 41) [] refl

-- WRITE "NEW" ON F, "R1", and then READ it.
abbrev fs_written : FileSystem
fs_written = (Items.write data_file (record { name = r1; value = codes "NEW" }) system).1

abbrev wrote : Result Machine.Flow × Runtime ℤ
wrote = exec_write env (on_file env OpCode.write_rec (codes "f") no_call) Items.write (
    at_file env OpCode.write_rec (codes "f") no_call idle handle system
      (str r1 ∷ (str (codes "NEW") ∷ [])))

exec_read_rec-exec_write_example :
    (wrote.0 ≡ ok next)
    × (wrote.1.stack ≡ [])
    × (wrote.1.file_system ≡ some fs_written)
    × (exec_read_rec env
          (on_file env OpCode.write_rec (codes "f") no_call)
          (record wrote.1 { stack = str r1 ∷ [] })
        ≡ (ok next, record wrote.1 { stack = str (codes "NEW") ∷ [] }))
unfolding Items.read Items.write entry_exists find put erase text_beq lookup
exec_read_rec-exec_write_example =
    exec_read_rec-exec_write env OpCode.write_rec (codes "f") no_call idle handle system fs_written
      r1 (codes "NEW") [] refl refl refl

-- ANN has locked R1, and BOB has set a handler at 9.
abbrev with_handler : Runtime ℤ
with_handler = record idle { on_error_ip = some 9 }

abbrev bob_at : List (Value ℤ) → Runtime ℤ
bob_at s = at_file env OpCode.read_rec (codes "f") no_call with_handler handle bob_system s

locked_record_handled_example :
    (exec_read_rec env (on_file env OpCode.read_rec (codes "f") no_call) (bob_at (str r1 ∷ []))
      ≡ conflict_handled OpCode.read_rec (some 9) (bob_at []))
    × (exec_write env
          (on_file env OpCode.read_rec (codes "f") no_call)
          Items.write
          (bob_at (str r1 ∷ (str (codes "X") ∷ [])))
        ≡ conflict_handled OpCode.read_rec (some 9) (bob_at []))
    × (exec_read_rec_try env
          (on_file env OpCode.read_rec (codes "f") no_call)
          (bob_at (str r1 ∷ []))
        ≡ (ok next, bob_at (int (pos 0) ∷ (str [] ∷ []))))
unfolding lookup try_acquire find put text_beq is_valid_name open_file
locked_record_handled_example =
    locked_record_handled env OpCode.read_rec (codes "f") no_call with_handler handle bob_system
      (try_acquire init 1 ann data_file r1 LockType.read_u).table ann_entry handle r1 (codes "X") []
      refl (refl, (λ e. cc), ann_not_bob) refl refl
