-- ===== src/Vm/Stability/Step.antt =====
-- Every run keeps every stable property.
use gemini_system.Prelude.{
  ℕ, zero, suc, true, false, Option, none, some, ◌≡◌, arith, not, if◌then◌else◌, get_elem?, ap,
  Bool,
}
use gemini_system.Vm.Machine.{
  Runtime, Instruction, OpCode, Flow, next, jumped, Callees, Result, ok, raise, user_interrupt,
}
use gemini_system.Files.Items
use gemini_system.Vm.Reasoning.{Keeps, IsStable}
use gemini_system.Vm.Step.{
  execute, exec_halt, step, step_at, run, run_on, after_op, run-zero, run-suc,
}
use gemini_system.Vm.Arithmetic.{is_same, is_below, is_above}
use gemini_system.Vm.Stability.Arithmetic
use gemini_system.Vm.Stability.Arrays
use gemini_system.Vm.Stability.Console
use gemini_system.Vm.Stability.Control
use gemini_system.Vm.Stability.FieldOps
use gemini_system.Vm.Stability.FileOps

module _ {F : Type 0} {P : Runtime F → Type 0} (stable : IsStable P) (env : Callees F) where
  exec_halt-Keeps : Keeps P exec_halt
  unfolding exec_halt
  exec_halt-Keeps = record { kept = λ r p. stable.ip r _ p }

  execute-Keeps : (op : OpCode) (i : Instruction F) → Keeps P (execute env op i)
  unfolding execute
  execute-Keeps OpCode.halt i = exec_halt-Keeps
  execute-Keeps OpCode.push_int i = Arithmetic.exec_push_int-Keeps stable env i
  execute-Keeps OpCode.push_flt i = Arithmetic.exec_push_flt-Keeps stable env i
  execute-Keeps OpCode.push_str i = Arithmetic.exec_push_str-Keeps stable env i
  execute-Keeps OpCode.add i = Arithmetic.exec_add-Keeps stable env
  execute-Keeps OpCode.sub i = Arithmetic.exec_sub-Keeps stable env
  execute-Keeps OpCode.mul i = Arithmetic.exec_mul-Keeps stable env
  execute-Keeps OpCode.div i = Arithmetic.exec_div-Keeps stable env
  execute-Keeps OpCode.mod_op i = Arithmetic.exec_mod-Keeps stable env i.op
  execute-Keeps OpCode.eq i = Arithmetic.exec_compare-Keeps stable env i.op is_same
  execute-Keeps OpCode.ne i = Arithmetic.exec_compare-Keeps stable env i.op (λ o. not (is_same o))
  execute-Keeps OpCode.lt i = Arithmetic.exec_compare-Keeps stable env i.op is_below
  execute-Keeps OpCode.le i = Arithmetic.exec_compare-Keeps stable env i.op (λ o. not (is_above o))
  execute-Keeps OpCode.gt i = Arithmetic.exec_compare-Keeps stable env i.op is_above
  execute-Keeps OpCode.ge i = Arithmetic.exec_compare-Keeps stable env i.op (λ o. not (is_below o))
  execute-Keeps OpCode.concat i = Arithmetic.exec_concat-Keeps stable env i.op
  execute-Keeps OpCode.dup i = Arithmetic.exec_dup-Keeps stable env
  execute-Keeps OpCode.drop i = Arithmetic.exec_drop-Keeps stable env
  execute-Keeps OpCode.print_int i = Console.exec_print_int-Keeps stable env i.op
  execute-Keeps OpCode.print_str i = Console.exec_print_str-Keeps stable env i.op
  execute-Keeps OpCode.print_val i = Console.exec_print_val-Keeps stable env
  execute-Keeps OpCode.print_eol i = Console.exec_print_eol-Keeps stable env
  execute-Keeps OpCode.print_char i = Console.exec_print_char-Keeps stable env i.op
  execute-Keeps OpCode.input_int i = Console.exec_input_int-Keeps stable env i.op
  execute-Keeps OpCode.input_flt i = Console.exec_input_flt-Keeps stable env i.op
  execute-Keeps OpCode.input_str i = Console.exec_input_str-Keeps stable env i.op
  execute-Keeps OpCode.coerce_int i = Arithmetic.exec_coerce_int-Keeps stable env
  execute-Keeps OpCode.coerce_flt i = Arithmetic.exec_coerce_flt-Keeps stable env
  execute-Keeps OpCode.jump i = Control.exec_jump-Keeps stable env i
  execute-Keeps OpCode.jump_if_zero i = Control.exec_jump_if_zero-Keeps stable env i
  execute-Keeps OpCode.call i = Control.exec_call-Keeps stable env i
  execute-Keeps OpCode.return i = Control.exec_return-Keeps stable env
  execute-Keeps OpCode.for_setup i = Control.exec_for_setup-Keeps stable env i
  execute-Keeps OpCode.for_next i = Control.exec_for_next-Keeps stable env i
  execute-Keeps OpCode.dim_array i = Arrays.exec_dim_array-Keeps stable env i
  execute-Keeps OpCode.load_arr i = Arrays.exec_load_arr-Keeps stable env i
  execute-Keeps OpCode.store_arr i = Arrays.exec_store_arr-Keeps stable env i
  execute-Keeps OpCode.mat_init i = Arrays.exec_mat_init-Keeps stable env i
  execute-Keeps OpCode.mat_copy i = Arrays.exec_mat_copy-Keeps stable env i
  execute-Keeps OpCode.mat_load_from_rec i = Arrays.exec_mat_load-Keeps stable env i
  execute-Keeps OpCode.mat_store_to_rec i = Arrays.exec_mat_store-Keeps stable env i
  execute-Keeps OpCode.clear_vars i = Control.exec_clear_vars-Keeps stable env
  execute-Keeps OpCode.abs_int i = Arithmetic.exec_abs-Keeps stable env
  execute-Keeps OpCode.sgn_int i = Arithmetic.exec_sgn-Keeps stable env
  execute-Keeps OpCode.seq_str i = Arithmetic.exec_seq-Keeps stable env
  execute-Keeps OpCode.invoke_builtin i = FieldOps.exec_invoke_builtin-Keeps stable env i
  execute-Keeps OpCode.call_func i = FieldOps.exec_call_func-Keeps stable env i
  execute-Keeps OpCode.open_file i = FileOps.exec_open_file-Keeps stable env i
  execute-Keeps OpCode.open_file_try i = FileOps.exec_open_file_try-Keeps stable env i
  execute-Keeps OpCode.read_rec i = FileOps.exec_read_rec-Keeps stable env i
  execute-Keeps OpCode.read_rec_try i = FileOps.exec_read_rec_try-Keeps stable env i
  execute-Keeps OpCode.read_rec_u i = FileOps.exec_read_rec_u-Keeps stable env i
  execute-Keeps OpCode.read_rec_u_try i = FileOps.exec_read_rec_u_try-Keeps stable env i
  execute-Keeps OpCode.write_rec i = FileOps.exec_write-Keeps stable env i Items.write
  execute-Keeps OpCode.write_rec_try i = FileOps.exec_write_try-Keeps stable env i Items.write
  execute-Keeps OpCode.write_rec_u i = FileOps.exec_write_u-Keeps stable env i
  execute-Keeps OpCode.write_rec_u_try i = FileOps.exec_write_u_try-Keeps stable env i
  execute-Keeps OpCode.release_rec i = FileOps.exec_release_rec-Keeps stable env i
  execute-Keeps OpCode.read_next i = FileOps.exec_read_next-Keeps stable env i
  execute-Keeps OpCode.read_next_try i = FileOps.exec_read_next_try-Keeps stable env i
  execute-Keeps OpCode.read_v i = FieldOps.exec_read_v-Keeps stable env i
  execute-Keeps OpCode.read_v_try i = FieldOps.exec_read_v_try-Keeps stable env i
  execute-Keeps OpCode.write_v i = FieldOps.exec_write_v-Keeps stable env i
  execute-Keeps OpCode.write_v_try i = FieldOps.exec_write_v_try-Keeps stable env i
  execute-Keeps OpCode.extract_attr i = FieldOps.exec_extract_attr-Keeps stable env
  execute-Keeps OpCode.resolve_dict_attr i = FieldOps.exec_resolve_dict_attr-Keeps stable env i
  execute-Keeps OpCode.chain i = Control.exec_chain-Keeps stable env
  execute-Keeps OpCode.close_file i = FileOps.exec_close_file-Keeps stable env i
  execute-Keeps OpCode.set_on_error_handler i = Control.exec_set_on_error_handler-Keeps stable env i
  execute-Keeps OpCode.load_var i = Control.exec_load_var-Keeps stable env i
  execute-Keeps OpCode.store_var i = Control.exec_store_var-Keeps stable env i

  after_op-Keeps : (x : Result Flow × Runtime F) → P x.1 → P (after_op x).1
  after_op-Keeps (raise e, r) p = p
  after_op-Keeps (ok jumped, r) p = p
  after_op-Keeps (ok next, r) p = stable.ip r _ p

  step_at-Keeps : (o : Option (Instruction F)) → Keeps P (step_at env o)
  unfolding step_at
  step_at-Keeps none = record { kept = λ r p. p }
  step_at-Keeps (some i) = record {
    kept = λ r p. after_op-Keeps _ ((execute-Keeps i.op i).kept r p);
  }

  pub step-Keeps : Keeps P (step env)
  unfolding step
  step-Keeps = record { kept = λ r p. (step_at-Keeps (get_elem? r.program r.ip)).kept r p }

  ended-Keeps :
      (x : Result (Unit {0}) × Runtime F) (after : Runtime F) (result : Result (Unit {0}))
      → P x.1
      → some x ≡ some (result, after)
      → P after
  ended-Keeps x after result p h =
      let same : x ≡ (result, after) = cc in rw (ap (λ y. y.1) same) at p

  chosen-Keeps :
      (b : Bool) (x : Result (Unit {0}) × Runtime F) (o : Option (Result (Unit {0}) × Runtime F))
      (after : Runtime F) (result : Result (Unit {0}))
      → P x.1
      → (o ≡ some (result, after) → P after)
      → (if b then some x else o) ≡ some (result, after)
      → P after
  chosen-Keeps true x o after result p more h = ended-Keeps x after result p h
  chosen-Keeps false x o after result p more h = more h

  run_on-Keeps :
      (fuel : ℕ)
      → ((r after : Runtime F) (result : Result (Unit {0}))
          → P r
          → run env fuel r ≡ some (result, after)
          → P after)
      → (x : Result Bool × Runtime F) (after : Runtime F) (result : Result (Unit {0})) → P x.1
      → run_on env (run env fuel) x ≡ some (result, after)
      → P after
  run_on-Keeps fuel ih (raise e, r) after result p h = ended-Keeps _ after result p h
  run_on-Keeps fuel ih (ok false, r) after result p h = ended-Keeps _ after result p h
  run_on-Keeps fuel ih (ok true, r) after result p h =
      chosen-Keeps r.interrupted (raise user_interrupt, r) _ after result p (ih r after result p) h

  -- A run that has ended keeps P, with whatever result.
  pub run-Keeps :
      (fuel : ℕ) (r after : Runtime F) (result : Result (Unit {0}))
      → P r
      → run env fuel r ≡ some (result, after)
      → P after
  run-Keeps zero r after result p h = absurd (ground (arith, rw (run-zero env r) at h))
  run-Keeps (suc fuel) r after result p h =
      run_on-Keeps fuel (run-Keeps fuel) (step env r) after result (step-Keeps.kept r p)
        (rw (run-suc env fuel r) at h)
