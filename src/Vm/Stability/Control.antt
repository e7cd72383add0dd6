-- ===== src/Vm/Stability/Control.antt =====
-- Control flow and variables keep every stable property.
use gemini_system.Prelude.{false, List, [], ◌∷◌, ◌≡◌, Option, none, some, Text, ℕ}
use gemini_system.Vm.Values.{Value}
use gemini_system.Vm.Machine.{Runtime, Instruction, next, Callees, ForFrame}
use gemini_system.Vm.Reasoning.{
  Keeps, IsStable, stack_rules, bind-Keeps, lift-Keeps, get-then-Keeps, put-then-Keeps,
  set_ip-Keeps, return_value-Keeps, name_operand-Keeps, pop_as_int-Keeps, unless-Keeps, then-Keeps,
}
use gemini_system.Vm.Values.{is_read_only_name}
use gemini_system.Vm.Control

module _ {F : Type 0} {P : Runtime F → Type 0} (stable : IsStable P) (env : Callees F) where
  set_variable-Keeps :
      (name : Text) (v : Value F)
      → is_read_only_name name ≡ false
      → Keeps P (Control.set_variable name v)
  unfolding Control.set_variable
  set_variable-Keeps name v h = record { kept = λ r p. stable.bound r name v h p }

  pub exec_jump-Keeps : (i : Instruction F) → Keeps P (Control.exec_jump i)
  unfolding Control.exec_jump
  exec_jump-Keeps i = search stack_rules depth 14 fits 3000

  pub exec_jump_if_zero-Keeps : (i : Instruction F) → Keeps P (Control.exec_jump_if_zero i)
  unfolding Control.exec_jump_if_zero
  exec_jump_if_zero-Keeps i = search stack_rules depth 14 fits 3000

  pub exec_call-Keeps : (i : Instruction F) → Keeps P (Control.exec_call i)
  unfolding Control.exec_call
  exec_call-Keeps i = bind-Keeps _ _ (lift-Keeps _) (λ t.
      get-then-Keeps _
        (λ r p. put-then-Keeps {P = P} _ r _ (stable.calls r _ p) (set_ip-Keeps stable _)))

  pub return_to-Keeps : (s : List ℕ) → Keeps P (Control.return_to s)
  unfolding Control.return_to
  return_to-Keeps [] = record { kept = λ r p. p }
  return_to-Keeps (t ∷ s) = record { kept = λ r p. stable.returned r t s p }

  pub exec_return-Keeps : Keeps P Control.exec_return
  unfolding Control.exec_return
  exec_return-Keeps = record { kept = λ r p. (return_to-Keeps r.call_stack).kept r p }

  pub exec_set_on_error_handler-Keeps :
      (i : Instruction F) → Keeps P (Control.exec_set_on_error_handler i)
  unfolding Control.exec_set_on_error_handler
  exec_set_on_error_handler-Keeps i = bind-Keeps _ _ (lift-Keeps _) (λ t. get-then-Keeps _ (λ r p.
      put-then-Keeps {P = P} _ r _ (stable.handler r _ p) (return_value-Keeps {P = P} next)))

  pub exec_clear_vars-Keeps : Keeps P Control.exec_clear_vars
  unfolding Control.exec_clear_vars
  exec_clear_vars-Keeps =
      get-then-Keeps _
        (λ r p. put-then-Keeps {P = P} _ r _ (stable.cleared r p) (return_value-Keeps {P = P} next))

  pub exec_store_var-Keeps : (i : Instruction F) → Keeps P (Control.exec_store_var i)
  unfolding Control.exec_store_var
  exec_store_var-Keeps i = search (stack_rules, set_variable-Keeps) depth 14 fits 3000

  pub innermost-Keeps : (s : List ForFrame) → Keeps P (Control.innermost s)
  unfolding Control.innermost
  innermost-Keeps [] = search stack_rules depth 14 fits 3000
  innermost-Keeps (f ∷ s) = search stack_rules depth 14 fits 3000

  pub leave_loop-Keeps : Keeps P Control.leave_loop
  unfolding Control.leave_loop
  leave_loop-Keeps = record { kept = λ r p. stable.loops r _ p }

  pub push_found-Keeps :
      (name : Text) (o : Option (Value F)) → Keeps P (Control.push_found env name o)
  unfolding Control.push_found
  push_found-Keeps name none = search stack_rules depth 14 fits 3000
  push_found-Keeps name (some v) = search stack_rules depth 14 fits 3000

  pub push_variable-Keeps :
      (name : Text) (o : Option (Value F)) (r : Runtime F)
      → Keeps P (Control.push_variable env name o r)
  unfolding Control.push_variable
  push_variable-Keeps name none r = search (stack_rules, push_found-Keeps) depth 14 fits 3000
  push_variable-Keeps name (some v) r = search (stack_rules, push_found-Keeps) depth 14 fits 3000

  pub exec_load_var-Keeps : (i : Instruction F) → Keeps P (Control.exec_load_var env i)
  unfolding Control.exec_load_var
  exec_load_var-Keeps i = search (stack_rules, push_variable-Keeps) depth 14 fits 3000

  pub exec_for_setup-Keeps : (i : Instruction F) → Keeps P (Control.exec_for_setup env i)
  unfolding Control.exec_for_setup
  exec_for_setup-Keeps i = bind-Keeps _ _ (name_operand-Keeps i) (λ name.
      bind-Keeps _ _ (pop_as_int-Keeps stable env) (λ step.
        bind-Keeps _ _ (pop_as_int-Keeps stable env) (λ limit. then-Keeps _ _ (unless-Keeps _ _) (
          get-then-Keeps _ (λ r p.
            put-then-Keeps {P = P} _ r _ (stable.loops r _ p) (return_value-Keeps {P = P} next))))))

  pub exec_for_next-Keeps : (i : Instruction F) → Keeps P (Control.exec_for_next env i)
  unfolding Control.exec_for_next
  exec_for_next-Keeps i =
      search (stack_rules, innermost-Keeps, leave_loop-Keeps, set_variable-Keeps) depth 14 fits 3000

  pub exec_chain-Keeps : Keeps P (Control.exec_chain env)
  unfolding Control.exec_chain
  exec_chain-Keeps = search stack_rules depth 14 fits 3000
