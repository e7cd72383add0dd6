-- ===== src/Vm/Machine.antt =====
-- The state of `Runtime`, its instructions and errors, and the helpers that the opcodes share. The
-- top of the stack is the head of its list. An opcode that throws leaves what it had changed.
use gemini_system.Prelude.{
  ℕ, suc, ◌-◌, ◌^◌, Bool, true, false, not, List, [], ◌∷◌, Option, none, some, Text, ℤ, pos, negsuc,
  fits_int,
}
use gemini_system.Prelude.Assoc.{Assoc}
use gemini_system.Files.State.{FileSystem, FileSystemError}
use gemini_system.Files.Handles.{FileHandle}
use gemini_system.Records.{StructuredRecord}
use gemini_system.Vm.Values.{
  Value, int, flt, str, Numerics, value_to_string, coerce_to_int, canonical_name, is_read_only_name,
}

pub data OpCode : Type 0 where
  halt push_int push_flt push_str add sub mul div eq ne lt le gt ge concat dup drop : OpCode
  print_int print_str print_val print_eol input_int input_str coerce_int jump jump_if_zero : OpCode
  call return for_setup for_next dim_array load_arr store_arr mat_init mat_copy : OpCode
  mat_load_from_rec mat_store_to_rec clear_vars abs_int sgn_int seq_str invoke_builtin : OpCode
  call_func open_file open_file_try read_rec read_rec_try read_rec_u read_rec_u_try : OpCode
  write_rec write_rec_try write_rec_u write_rec_u_try release_rec read_next read_next_try : OpCode
  read_v read_v_try write_v write_v_try extract_attr resolve_dict_attr chain close_file : OpCode
  set_on_error_handler load_var store_var print_char input_flt coerce_flt mod_op : OpCode

pub record CallFuncOperand : Type 0 where
  pub namespace_id : ℕ
  pub function_id : ℕ
  pub arg_count : ℤ

pub record Instruction (F : Type 0) : Type 0 where
  pub op : OpCode
  pub operand : Value F
  pub call_func : CallFuncOperand

pub record ForFrame : Type 0 where
  pub var_name : Text
  pub limit : ℤ
  pub step : ℤ
  pub body_ip : ℕ

pub data IoErrorKind : Type 0 where
  backend_unavailable missing_file file_var_not_open missing_record cursor_exhausted : IoErrorKind
  missing_attribute missing_subvalue record_locked_kind : IoErrorKind

-- What `step` and `run` throw. `undefined_behaviour` stands for what C++ leaves undefined: a signed
-- overflow, and a cast of a `double` out of range.
pub data VmError : Type 0 where
  stack_underflow undefined_behaviour user_interrupt : VmError
  expected_int_operand expected_float_operand expected_string_operand : OpCode → VmError
  expected_int expected_string type_mismatch : OpCode → VmError
  divide_by_zero modulo_by_zero code_point_out_of_range : VmError
  end_of_input invalid_input : OpCode → VmError
  return_without_gosub zero_step next_without_for for_next_mismatch : VmError
  read_only_variable undefined_variable : Text → VmError
  dim_size mat_operand mat_dimension_mismatch mat_count_mismatch : VmError
  not_dimensioned index_out_of_bounds mat_undefined : Text → VmError
  io_error : OpCode → IoErrorKind → Text → VmError
  file_system_error : FileSystemError → VmError
  registry_not_configured arity_mismatch chain_without_name : VmError
  chain_request : Text → VmError
  callee_error : Text → VmError

pub data Result (A : Type 0) : Type 0 where
  ok : A → Result A
  raise : VmError → Result A

-- What the machine uses of the field that `DictionaryResolver` gives: its kind, its attribute number,
-- and the answer of `fieldRefIsResolved`, which looks into the definition of a computed field.
pub data FieldKind : Type 0 where
  attribute_field f_correlative i_correlative : FieldKind

pub record FieldRef : Type 0 where
  pub kind : FieldKind
  pub attribute_no : Option ℤ
  pub is_resolved : Bool

-- What the machine calls and this model leaves open: `double`, the reader of system variables, the
-- builtins and the language registry, which work on the stack, and the dictionaries.
pub record Callees (F : Type 0) : Type 0 where
  pub numerics : Numerics F
  -- What the clock of the lock table shows; only the stamp of a lock depends on it.
  pub now : ℕ
  pub system_var_reader : Option (Text → Option (Value F))
  pub invoke_builtin : Text → List (Value F) → Result (Unit {0}) × List (Value F)
  pub registry : Option (ℕ → ℕ → ℤ → List (Value F) → Result (Unit {0}) × List (Value F))
  pub resolve_field : FileSystem → Text → Text → Result FieldRef
  pub evaluate_field : FileSystem → Text → Text → StructuredRecord → Result Text

pub record Runtime (F : Type 0) : Type 0 where
  pub program : List (Instruction F)
  pub source_lines : List ℤ
  pub stack : List (Value F)
  pub call_stack : List ℕ
  pub for_stack : List ForFrame
  pub variables : Assoc Text (Value F)
  pub arrays : Assoc Text (List (Value F))
  pub open_files : Assoc Text FileHandle
  pub ip : ℕ
  pub interrupted : Bool
  pub output : Text
  -- The lines that the input stream still holds.
  pub input : List Text
  pub file_system : Option FileSystem
  pub status_code : ℕ
  pub on_error_ip : Option ℕ

abbrev pub Vm : Type 0 → Type 0 → Type 0
Vm F A = Runtime F → Result A × Runtime F

abbrev pub continue : {F A B : Type 0} → Result A × Runtime F → (A → Vm F B) → Result B × Runtime F
continue (ok a, r) k = k a r
continue (raise e, r) k = (raise e, r)

infixl 5 ◌>>=◌ ◌>>◌
unfoldable pub ◌>>=◌ : {F A B : Type 0} → Vm F A → (A → Vm F B) → Vm F B
◌>>=◌ m k r = continue (m r) k

unfoldable pub ◌>>◌ : {F B : Type 0} → Vm F (Unit {0}) → Vm F B → Vm F B
◌>>◌ m k r = continue (m r) (λ u. k)

unfoldable pub return_value : {F A : Type 0} → A → Vm F A
return_value a r = (ok a, r)

unfoldable pub fail : {F A : Type 0} → VmError → Vm F A
fail e r = (raise e, r)

unfoldable pub lift : {F A : Type 0} → Result A → Vm F A
lift a r = (a, r)

unfoldable pub get : {F : Type 0} → Vm F (Runtime F)
get r = (ok r, r)

unfoldable pub put_state : {F : Type 0} → Runtime F → Vm F (Unit {0})
put_state r' r = (ok tt, r')

-- Where the next instruction is: behind this one, or at the pointer that the opcode set.
pub data Flow : Type 0 where
  next jumped : Flow

-- The checks of an early `throw`.
unfoldable pub unless : {F : Type 0} → Bool → VmError → Vm F (Unit {0})
unless true e r = (ok tt, r)
unless false e r = (raise e, r)

-- `static_cast<std::size_t>` of an `int`.
abbrev pub to_size : ℤ → ℕ
to_size (pos n) = n
to_size (negsuc n) = 2 ^ 64 - suc n

module _ {F : Type 0} where
  unfoldable pub push : Value F → Vm F (Unit {0})
  push v r = (ok tt, record r { stack = v ∷ r.stack })

  unfoldable pub popped : List (Value F) → Vm F (Value F)
  popped [] r = (raise stack_underflow, r)
  popped (v ∷ s) r = (ok v, record r { stack = s })

  unfoldable pub pop : Vm F (Value F)
  pop r = popped r.stack r

  abbrev pub int_of_operand : OpCode → Value F → Result ℤ
  int_of_operand op (int z) = ok z
  int_of_operand op (flt x) = raise (expected_int_operand op)
  int_of_operand op (str t) = raise (expected_int_operand op)

  abbrev pub string_of_operand : OpCode → Value F → Result Text
  string_of_operand op (int z) = raise (expected_string_operand op)
  string_of_operand op (flt x) = raise (expected_string_operand op)
  string_of_operand op (str t) = ok t

  abbrev pub float_of_operand : OpCode → Value F → Result F
  float_of_operand op (int z) = raise (expected_float_operand op)
  float_of_operand op (flt x) = ok x
  float_of_operand op (str t) = raise (expected_float_operand op)

  abbrev pub int_of_value : OpCode → Value F → Result ℤ
  int_of_value op (int z) = ok z
  int_of_value op (flt x) = raise (expected_int op)
  int_of_value op (str t) = raise (expected_int op)

  abbrev pub string_of_value : OpCode → Value F → Result Text
  string_of_value op (int z) = raise (expected_string op)
  string_of_value op (flt x) = raise (expected_string op)
  string_of_value op (str t) = ok t

  -- The variable that the instruction names, in its canonical spelling.
  unfoldable pub name_operand : Instruction F → Vm F Text
  name_operand i = do
    name ← lift (string_of_operand i.op i.operand)
    return_value (canonical_name name)

  unfoldable pub pop_int : OpCode → Vm F ℤ
  pop_int op = do v ← pop; lift (int_of_value op v)

  unfoldable pub pop_string : OpCode → Vm F Text
  pop_string op = do v ← pop; lift (string_of_value op v)

  unfoldable pub push_int_value : ℤ → Vm F (Unit {0})
  push_int_value z = push (int z)

  -- A result of `int` arithmetic, which is undefined where it overflows.
  unfoldable pub checked_int : ℤ → Vm F ℤ
  checked_int z = do unless (fits_int z) undefined_behaviour; return_value z

  unfoldable pub writable : Text → Vm F (Unit {0})
  writable name = unless (not (is_read_only_name name)) (read_only_variable name)

  unfoldable pub set_ip : ℕ → Vm F Flow
  set_ip target r = (ok jumped, record r { ip = target })

unfoldable pub defined : {F A : Type 0} → Option A → Vm F A
defined none = fail undefined_behaviour
defined (some a) = return_value a

module _ {F : Type 0} (env : Callees F) where
  unfoldable pub pop_as_int : Vm F ℤ
  pop_as_int = do v ← pop; defined (coerce_to_int env.numerics v)

  unfoldable pub pop_as_text : Vm F Text
  pop_as_text = do v ← pop; return_value (value_to_string env.numerics v)
