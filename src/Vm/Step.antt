-- ===== src/Vm/Step.antt =====
-- `step`, `run` and `loadProgram`. `run` is on fuel, since a program need not end.
use gemini_system.Prelude.{
  ℕ, zero, suc, Bool, true, false, List, [], ◌∷◌, Option, none, some, ◌≡◌, refl, ltb, if◌then◌else◌,
  ℤ, pos, length, get_elem?, ◌+ℤ◌, ◌-ℤ◌, ◌*ℤ◌, not,
}
use gemini_system.Files.State.{FileSystem}
use gemini_system.Files.Items
use gemini_system.Vm.Machine
use gemini_system.Vm.Arithmetic
use gemini_system.Vm.Console
use gemini_system.Vm.Control
use gemini_system.Vm.Arrays
use gemini_system.Vm.FileOps
use gemini_system.Vm.FieldOps
use gemini_system.Vm.Values
use gemini_system.Records
use gemini_system.Files.Handles
use gemini_system.Files.Attributes
use gemini_system.Files.Locks
use gemini_system.Vm.Values.{Value, int}
use gemini_system.Vm.Machine.{
  Runtime, Callees, Instruction, OpCode, Vm, Flow, next, jumped, Result, ok, raise, VmError,
  user_interrupt, ◌>>=◌, ◌>>◌, continue, return_value,
}
use gemini_system.Vm.Arithmetic.{
  exec_push_int, exec_push_flt, exec_push_str, exec_add, exec_sub, exec_mul, exec_div, exec_mod,
  exec_compare, exec_concat, exec_dup, exec_drop, exec_coerce_int, exec_coerce_flt, exec_abs,
  exec_sgn, exec_seq, is_same, is_below, is_above,
}
use gemini_system.Vm.Console.{
  exec_print_int, exec_print_str, exec_print_val, exec_print_eol, exec_print_char, exec_input_int,
  exec_input_str, exec_input_flt,
}
use gemini_system.Vm.Control.{
  exec_jump, exec_jump_if_zero, exec_call, exec_return, exec_for_setup, exec_for_next,
  exec_clear_vars, exec_set_on_error_handler, exec_load_var, exec_store_var, exec_chain,
}
use gemini_system.Vm.Arrays.{
  exec_dim_array, exec_load_arr, exec_store_arr, exec_mat_init, exec_mat_copy, exec_mat_load,
  exec_mat_store,
}
use gemini_system.Vm.FileOps.{
  exec_open_file, exec_open_file_try, exec_read_rec, exec_read_rec_try, exec_read_rec_u,
  exec_read_rec_u_try, exec_write, exec_write_try, exec_write_u, exec_write_u_try, exec_release_rec,
  exec_read_next, exec_read_next_try, exec_close_file,
}
use gemini_system.Vm.FieldOps.{
  exec_read_v, exec_read_v_try, exec_write_v, exec_write_v_try, exec_extract_attr,
  exec_resolve_dict_attr, exec_invoke_builtin, exec_call_func,
}

abbrev pub line_or_zero : Option ℤ → ℤ
line_or_zero none = pos 0
line_or_zero (some l) = l

module _ {F : Type 0} where
  -- `Halt` sets the pointer to the end of the program.
  unfoldable pub exec_halt : Vm F Flow
  exec_halt r = (ok jumped, record r { ip = length r.program })

  -- `ip_ < program_.size()`
  abbrev pub in_program : Runtime F → Bool
  in_program r = ltb r.ip (length r.program)

  abbrev pub after_op : Result Flow × Runtime F → Result Bool × Runtime F
  after_op (raise e, r) = (raise e, r)
  after_op (ok jumped, r) = (ok (in_program r), r)
  after_op (ok next, r) = (ok (ltb (suc r.ip) (length r.program)), record r { ip = suc r.ip })

module _ {F : Type 0} (env : Callees F) where
  -- The `switch` of `step`.
  unfoldable pub execute : OpCode → Instruction F → Vm F Flow
  execute OpCode.halt i = exec_halt
  execute OpCode.push_int i = exec_push_int i
  execute OpCode.push_flt i = exec_push_flt i
  execute OpCode.push_str i = exec_push_str i
  execute OpCode.add i = exec_add env
  execute OpCode.sub i = exec_sub env
  execute OpCode.mul i = exec_mul env
  execute OpCode.div i = exec_div env
  execute OpCode.mod_op i = exec_mod i.op
  execute OpCode.eq i = exec_compare env i.op is_same
  execute OpCode.ne i = exec_compare env i.op (λ o. not (is_same o))
  execute OpCode.lt i = exec_compare env i.op is_below
  execute OpCode.le i = exec_compare env i.op (λ o. not (is_above o))
  execute OpCode.gt i = exec_compare env i.op is_above
  execute OpCode.ge i = exec_compare env i.op (λ o. not (is_below o))
  execute OpCode.concat i = exec_concat i.op
  execute OpCode.dup i = exec_dup
  execute OpCode.drop i = exec_drop
  execute OpCode.print_int i = exec_print_int env i.op
  execute OpCode.print_str i = exec_print_str i.op
  execute OpCode.print_val i = exec_print_val env
  execute OpCode.print_eol i = exec_print_eol
  execute OpCode.print_char i = exec_print_char i.op
  execute OpCode.input_int i = exec_input_int i.op
  execute OpCode.input_flt i = exec_input_flt env i.op
  execute OpCode.input_str i = exec_input_str i.op
  execute OpCode.coerce_int i = exec_coerce_int env
  execute OpCode.coerce_flt i = exec_coerce_flt env
  execute OpCode.jump i = exec_jump i
  execute OpCode.jump_if_zero i = exec_jump_if_zero i
  execute OpCode.call i = exec_call i
  execute OpCode.return i = exec_return
  execute OpCode.for_setup i = exec_for_setup env i
  execute OpCode.for_next i = exec_for_next env i
  execute OpCode.dim_array i = exec_dim_array env i
  execute OpCode.load_arr i = exec_load_arr env i
  execute OpCode.store_arr i = exec_store_arr env i
  execute OpCode.mat_init i = exec_mat_init env i
  execute OpCode.mat_copy i = exec_mat_copy env i
  execute OpCode.mat_load_from_rec i = exec_mat_load env i
  execute OpCode.mat_store_to_rec i = exec_mat_store env i
  execute OpCode.clear_vars i = exec_clear_vars
  execute OpCode.abs_int i = exec_abs env
  execute OpCode.sgn_int i = exec_sgn env
  execute OpCode.seq_str i = exec_seq env
  execute OpCode.invoke_builtin i = exec_invoke_builtin env i
  execute OpCode.call_func i = exec_call_func env i
  execute OpCode.open_file i = exec_open_file env i
  execute OpCode.open_file_try i = exec_open_file_try env i
  execute OpCode.read_rec i = exec_read_rec env i
  execute OpCode.read_rec_try i = exec_read_rec_try env i
  execute OpCode.read_rec_u i = exec_read_rec_u env i
  execute OpCode.read_rec_u_try i = exec_read_rec_u_try env i
  execute OpCode.write_rec i = exec_write env i Items.write
  execute OpCode.write_rec_try i = exec_write_try env i Items.write
  execute OpCode.write_rec_u i = exec_write_u env i
  execute OpCode.write_rec_u_try i = exec_write_u_try env i
  execute OpCode.release_rec i = exec_release_rec env i
  execute OpCode.read_next i = exec_read_next i
  execute OpCode.read_next_try i = exec_read_next_try i
  execute OpCode.read_v i = exec_read_v env i
  execute OpCode.read_v_try i = exec_read_v_try env i
  execute OpCode.write_v i = exec_write_v env i
  execute OpCode.write_v_try i = exec_write_v_try env i
  execute OpCode.extract_attr i = exec_extract_attr env
  execute OpCode.resolve_dict_attr i = exec_resolve_dict_attr env i
  execute OpCode.chain i = exec_chain env
  execute OpCode.close_file i = exec_close_file i
  execute OpCode.set_on_error_handler i = exec_set_on_error_handler i
  execute OpCode.load_var i = exec_load_var env i
  execute OpCode.store_var i = exec_store_var i

  unfoldable pub step_at : Option (Instruction F) → Vm F Bool
  step_at none r = (ok false, r)
  step_at (some i) r = after_op (execute i.op i r)

  -- One instruction; the result says whether execution goes on.
  unfoldable pub step : Vm F Bool
  step r = step_at (get_elem? r.program r.ip) r

  abbrev pub run_on :
      (Runtime F → Option (Result (Unit {0}) × Runtime F))
      → Result Bool × Runtime F
      → Option (Result (Unit {0}) × Runtime F)
  run_on more (raise e, r) = some (raise e, r)
  run_on more (ok false, r) = some (ok tt, r)
  run_on more (ok true, r) = if r.interrupted then some (raise user_interrupt, r) else more r

  -- `none` is a run that has not ended within the fuel.
  unfoldable pub run : ℕ → Runtime F → Option (Result (Unit {0}) × Runtime F)
  unfolding step step_at execute exec_halt ◌>>=◌ ◌>>◌ Machine.return_value Machine.fail Machine.lift
      Machine.get Machine.put_state Machine.unless Machine.push Machine.popped Machine.pop
      Machine.name_operand Machine.pop_int Machine.pop_string Machine.push_int_value
      Machine.checked_int Machine.writable Machine.set_ip Machine.defined Machine.pop_as_int
      Machine.pop_as_text Arithmetic.exec_push_int Arithmetic.exec_push_flt Arithmetic.exec_push_str
      Arithmetic.exec_concat Arithmetic.duplicate Arithmetic.exec_dup Arithmetic.exec_drop
      Arithmetic.exec_mod Arithmetic.combined Arithmetic.exec_combine Arithmetic.exec_add
      Arithmetic.exec_sub Arithmetic.exec_mul Arithmetic.divided Arithmetic.exec_div
      Arithmetic.ordered Arithmetic.exec_compare Arithmetic.exec_coerce_int
      Arithmetic.exec_coerce_flt Arithmetic.exec_abs Arithmetic.exec_sgn Arithmetic.exec_seq
      Console.print_text Console.line_of Console.input_line Console.exec_print_str
      Console.exec_print_eol Console.print_byte Console.exec_print_char Console.valid_input
      Console.exec_input_int Console.exec_input_str Console.exec_print_int Console.exec_print_val
      Console.exec_input_flt Control.exec_jump Control.exec_jump_if_zero Control.exec_call
      Control.return_to Control.exec_return Control.exec_set_on_error_handler
      Control.exec_clear_vars Control.set_variable Control.exec_store_var Control.innermost
      Control.leave_loop Control.push_found Control.push_variable Control.exec_load_var
      Control.exec_for_setup Control.exec_for_next Control.exec_chain Arrays.or_fail Arrays.array
      Arrays.set_array Arrays.exec_dim_array Arrays.exec_load_arr Arrays.exec_store_arr
      Arrays.exec_mat_init Arrays.exec_mat_copy Arrays.exec_mat_load Arrays.exec_mat_store
      Arrays.slot_values Arrays.store_slots Arrays.set_slot Arrays.is_int_array Arrays.split_bar
      Arrays.last_number Arrays.attribute_values FileOps.found_handle FileOps.handle
      FileOps.backend_of FileOps.backend FileOps.set_file_system FileOps.set_handle
      FileOps.handler_or_throw FileOps.handle_record_lock_conflict FileOps.lock_or_rethrow
      FileOps.push_record FileOps.push_failure FileOps.push_flag FileOps.push_success
      FileOps.try_record FileOps.after_write FileOps.after_try_write FileOps.with_both
      FileOps.when_open FileOps.exec_close_file FileOps.opened FileOps.try_opened
      FileOps.try_open_in FileOps.push_next FileOps.exec_read_next FileOps.try_next
      FileOps.exec_read_next_try FileOps.exec_open_file FileOps.exec_open_file_try
      FileOps.exec_read_rec FileOps.exec_read_rec_try FileOps.exec_read_rec_u
      FileOps.exec_read_rec_u_try FileOps.exec_write FileOps.exec_write_try FileOps.exec_write_u
      FileOps.exec_write_u_try FileOps.exec_release_rec FieldOps.found_record FieldOps.push_field
      FieldOps.try_field FieldOps.after_callee FieldOps.exec_invoke_builtin FieldOps.dispatch
      FieldOps.exec_call_func FieldOps.push_computed FieldOps.read_field FieldOps.exec_read_v
      FieldOps.push_cell FieldOps.try_computed FieldOps.try_read_field FieldOps.try_in_record
      FieldOps.exec_read_v_try FieldOps.exec_extract_attr FieldOps.push_number FieldOps.token_if
      FieldOps.push_by_kind FieldOps.push_reference FieldOps.exec_resolve_dict_attr
      FieldOps.after_field FieldOps.exec_write_v FieldOps.after_try_field FieldOps.exec_write_v_try
      Values.value_to_string Values.coerce_to_int Values.coerce_to_double Values.arithmetic_result
      Values.compare_values Values.canonical_name Values.is_read_only_name Values.parse_int_line
      Values.trim_front Values.trim_back ◌+ℤ◌ ◌-ℤ◌ ◌*ℤ◌ Records.from_raw Records.to_raw
      Records.attribute Records.has_attribute Records.value_at Records.has_value_at
      Records.set_attribute Items.read Items.write Items.read_u Items.write_u Items.new_record
      Locks.release_record Handles.open_file Handles.read_next_record Handles.reset_read_next_cursor
      Attributes.write_subvalue Attributes.write_attribute_value
  run zero r = none
  run (suc fuel) r = run_on (run fuel) (step r)

  pub run-zero : (r : Runtime F) → run 0 r ≡ none
  unfolding run
  run-zero r = refl

  pub run-suc : (fuel : ℕ) (r : Runtime F) → run (suc fuel) r ≡ run_on (run fuel) (step r)
  unfolding run
  run-suc fuel r = refl

module _ {F : Type 0} where
  -- The lines of the instructions, 0 where none is given.
  unfoldable pub assign_lines : List (Instruction F) → List ℤ → List ℤ
  assign_lines [] lines = []
  assign_lines (i ∷ is) [] = pos 0 ∷ assign_lines is []
  assign_lines (i ∷ is) (l ∷ lines) = l ∷ assign_lines is lines

  unfoldable pub load_program : List (Instruction F) → List ℤ → Runtime F → Runtime F
  unfolding assign_lines
  load_program program lines r = record r {
    program = program;
    source_lines = assign_lines program lines;
    ip = 0;
    stack = [];
    call_stack = [];
    for_stack = [];
    open_files = [];
    arrays = [];
    interrupted = false;
    variables = [];
    status_code = 0;
    on_error_ip = none;
  }

  unfoldable pub source_line_at : Runtime F → ℕ → ℤ
  source_line_at r ip = line_or_zero (get_elem? r.source_lines ip)

  -- `none` is `std::out_of_range`.
  unfoldable pub set_instruction_pointer : ℕ → Runtime F → Option (Runtime F)
  set_instruction_pointer ip r =
      if ltb (length r.program) ip then none else some (record r { ip = ip })

  unfoldable pub interrupt : Runtime F → Runtime F
  interrupt r = record r { interrupted = true }

  unfoldable pub clear_interrupt : Runtime F → Runtime F
  clear_interrupt r = record r { interrupted = false }

  unfoldable pub attach_file_system : Option FileSystem → Runtime F → Runtime F
  attach_file_system fs r = record r { file_system = fs }
