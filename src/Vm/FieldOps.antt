-- ===== src/Vm/FieldOps.antt =====
-- The opcodes on the attributes and values of a record, by number or through a dictionary.
use gemini_system.Prelude.{
  ℕ, zero, suc, Bool, true, false, ◌||◌, not, List, ◌++◌, Option, none, some, Text, codes, text_eq,
  if◌then◌else◌, ℤ, pos, negsuc, ltb_ℤ, length,
}
use gemini_system.Files.State.{FileSystem, FileSystemError, record_locked, lock_refused}
use gemini_system.Files.State
use gemini_system.Files.Handles.{FileHandle, reset_read_next_cursor}
use gemini_system.Files.Items.{Record, new_record}
use gemini_system.Files.Items
use gemini_system.Vm.Values.{Value, int, flt, str, coerce_to_int, to_string}
use gemini_system.Records.{
  StructuredRecord, from_raw, attribute, has_attribute, value_at, has_value_at,
}
use gemini_system.Files.Attributes.{write_subvalue, write_attribute_value}
use gemini_system.Vm.FileOps.{
  handle, backend, push_failure, push_success, push_flag, when_open, set_file_system, set_handle,
}
use gemini_system.Vm.Machine.{
  FieldRef, FieldKind, attribute_field, f_correlative, i_correlative, registry_not_configured,
  arity_mismatch, push, pop, name_operand, defined, pop_as_int, pop_as_text, lift, get, unless,
  return_value, fail, ◌>>=◌, ◌>>◌, Vm, Flow, next, Callees, Instruction, OpCode, Result, ok, raise,
  string_of_operand, missing_record, missing_attribute, missing_subvalue, io_error,
  file_system_error,
}

-- `valueIndex > 0`
abbrev pub is_positive : ℤ → Bool
is_positive (pos zero) = false
is_positive (pos (suc n)) = true
is_positive (negsuc n) = false

-- What the attribute slot of READV holds: a field's name, or a number.
abbrev pub token_of : {F : Type 0} → Value F → Option Text
token_of (int z) = none
token_of (flt x) = none
token_of (str t) = some t

module _ {F : Type 0} where
  unfoldable pub found_record : OpCode → Text → State.Result (Option Record) → Vm F Record
  found_record op id (State.ok none) = fail (io_error op missing_record id)
  found_record op id (State.ok (some rec)) = return_value rec
  found_record op id (State.err e) = fail (file_system_error e)

  -- One value of the attribute, or all of it.
  unfoldable pub push_field : OpCode → StructuredRecord → ℤ → ℤ → Vm F Flow
  push_field op sr attr_no value_index = do
    unless (has_attribute sr attr_no)
        (io_error op missing_attribute (codes "attr=" ++ to_string attr_no))
    unless (not (is_positive value_index) || has_value_at (attribute sr attr_no) value_index) (
        io_error op missing_subvalue
          (codes "attr=" ++ (to_string attr_no ++ (codes ",value=" ++ to_string value_index))))
    push (
        str (
          if is_positive value_index
          then value_at (attribute sr attr_no) value_index
          else attribute sr attr_no))
    return_value next

  unfoldable pub try_field : StructuredRecord → ℤ → ℤ → Vm F Flow
  try_field sr attr_no value_index =
      if not (has_attribute sr attr_no)
      then push_failure
      else if not (is_positive value_index)
      then push_success (attribute sr attr_no)
      else if has_value_at (attribute sr attr_no) value_index
      then push_success (value_at (attribute sr attr_no) value_index)
      else push_failure

  -- A builtin or a function of the registry has worked on the stack.
  unfoldable pub after_callee : Result (Unit {0}) × List (Value F) → Vm F Flow
  after_callee (ok u, s) r = (ok next, record r { stack = s })
  after_callee (raise e, s) r = (raise e, record r { stack = s })

module _ {F : Type 0} (env : Callees F) where
  unfoldable pub exec_invoke_builtin : Instruction F → Vm F Flow
  exec_invoke_builtin i = do
    name ← lift (string_of_operand i.op i.operand)
    r ← get
    after_callee (env.invoke_builtin name r.stack)

  unfoldable pub dispatch :
      Option (ℕ → ℕ → ℤ → List (Value F) → Result (Unit {0}) × List (Value F))
      → Instruction F
      → Vm F Flow
  dispatch none i = fail registry_not_configured
  dispatch (some registry) i = do
    r ← get
    unless (not (ltb_ℤ (pos (length r.stack)) i.call_func.arg_count)) arity_mismatch
    after_callee
        (registry i.call_func.namespace_id i.call_func.function_id i.call_func.arg_count r.stack)

  unfoldable pub exec_call_func : Instruction F → Vm F Flow
  exec_call_func i = dispatch env.registry i

  -- A computed field has no numbered values.
  unfoldable pub push_computed :
      OpCode → FileSystem → Text → Text → StructuredRecord → ℤ → Vm F Flow
  push_computed op fs file token sr value_index = do
    unless (not (is_positive value_index))
        (io_error op missing_subvalue (codes "computed field does not support value index"))
    cell ← lift (env.evaluate_field fs file token sr)
    push (str cell)
    return_value next

  unfoldable pub read_field :
      OpCode → FileSystem → Text → StructuredRecord → Value F → Option Text → ℤ → Vm F Flow
  read_field op fs file sr slot (some token) value_index =
      push_computed op fs file token sr value_index
  read_field op fs file sr slot none value_index = do
    attr_no ← defined (coerce_to_int env.numerics slot)
    push_field op sr attr_no value_index

  unfoldable pub exec_read_v : Instruction F → Vm F Flow
  exec_read_v i = do
    file_var ← name_operand i
    value_index ← pop_as_int env
    slot ← pop
    id ← pop_as_text env
    h ← handle i.op file_var
    fs ← backend i.op
    rec ← found_record i.op id (Items.read h.name id fs)
    read_field i.op fs h.name (from_raw rec.value) slot (token_of slot) value_index

  unfoldable pub push_cell : FileSystem → Text → Text → StructuredRecord → Vm F Flow
  push_cell fs file token sr = do
    cell ← lift (env.evaluate_field fs file token sr)
    push_success cell

  unfoldable pub try_computed : FileSystem → Text → Text → StructuredRecord → Vm F Flow
  try_computed fs file token sr = do
    ref ← lift (env.resolve_field fs file token)
    if ref.is_resolved then push_cell fs file token sr else push_failure

  unfoldable pub try_read_field :
      FileSystem → Text → StructuredRecord → Value F → Option Text → ℤ → Vm F Flow
  try_read_field fs file sr slot (some token) value_index =
      if is_positive value_index then push_failure else try_computed fs file token sr
  try_read_field fs file sr slot none value_index = do
    attr_no ← defined (coerce_to_int env.numerics slot)
    try_field sr attr_no value_index

  unfoldable pub try_in_record :
      FileSystem → Text → Value F → ℤ → State.Result (Option Record) → Vm F Flow
  try_in_record fs file slot value_index (State.ok none) = push_failure
  try_in_record fs file slot value_index (State.ok (some rec)) =
      try_read_field fs file (from_raw rec.value) slot (token_of slot) value_index
  try_in_record fs file slot value_index (State.err e) = fail (file_system_error e)

  unfoldable pub exec_read_v_try : Instruction F → Vm F Flow
  exec_read_v_try i = do
    file_var ← name_operand i
    value_index ← pop_as_int env
    slot ← pop
    id ← pop_as_text env
    when_open file_var (λ h fs. try_in_record fs h.name slot value_index (Items.read h.name id fs))
        push_failure

  unfoldable pub exec_extract_attr : Vm F Flow
  exec_extract_attr = do
    value_index ← pop_as_int env
    attr_no ← pop_as_int env
    raw ← pop_as_text env
    let attr = attribute (from_raw raw) attr_no
    push (str (if is_positive value_index then value_at attr value_index else attr))
    return_value next

  unfoldable pub push_number : Option ℤ → Vm F Flow
  push_number none = push_flag (pos 0)
  push_number (some z) = push_flag z

  unfoldable pub token_if : Text → Bool → Vm F Flow
  token_if token true = do push (str token); return_value next
  token_if token false = push_flag (pos 0)

  unfoldable pub push_by_kind : Text → FieldRef → FieldKind → Vm F Flow
  push_by_kind token ref attribute_field = push_number ref.attribute_no
  push_by_kind token ref f_correlative = token_if token ref.is_resolved
  push_by_kind token ref i_correlative = token_if token ref.is_resolved

  -- A computed field gives its name, a field of the record its number, and anything else 0.
  unfoldable pub push_reference : Text → Result FieldRef → Vm F Flow
  push_reference token (raise e) = push_flag (pos 0)
  push_reference token (ok ref) = push_by_kind token ref ref.kind

  unfoldable pub exec_resolve_dict_attr : Instruction F → Vm F Flow
  exec_resolve_dict_attr i = do
    file_var ← name_operand i
    token ← pop_as_text env
    when_open file_var (λ h fs. push_reference token (env.resolve_field fs h.name token))
        (push_flag (pos 0))

  -- The method that WRITEV calls.
  abbrev pub write_field : Text → Text → ℤ → ℤ → Text → State.Exec (Unit {0})
  write_field file id attr_no value_index value =
      if is_positive value_index
      then write_subvalue file id attr_no value_index value
      else write_attribute_value file id attr_no value

  unfoldable pub after_field : Text → FileHandle → State.Result (Unit {0}) → Vm F Flow
  after_field file_var h (State.ok u) = do
    set_handle file_var (reset_read_next_cursor h)
    return_value next
  after_field file_var h (State.err e) = fail (file_system_error e)

  unfoldable pub exec_write_v : Instruction F → Vm F Flow
  exec_write_v i = do
    file_var ← name_operand i
    value_index ← pop_as_int env
    attr_no ← pop_as_int env
    id ← pop_as_text env
    value ← pop_as_text env
    h ← handle i.op file_var
    fs ← backend i.op
    let called = write_field h.name id attr_no value_index value fs
    set_file_system called.1
    after_field file_var h called.0

  unfoldable pub after_try_field : Text → FileHandle → State.Result (Unit {0}) → Vm F Flow
  after_try_field file_var h (State.ok u) = do
    set_handle file_var (reset_read_next_cursor h)
    push_flag (pos 1)
  after_try_field file_var h (State.err e) = push_flag (pos 0)

  unfoldable pub exec_write_v_try : Instruction F → Vm F Flow
  exec_write_v_try i = do
    file_var ← name_operand i
    value_index ← pop_as_int env
    attr_no ← pop_as_int env
    id ← pop_as_text env
    value ← pop_as_text env
    when_open file_var
        (λ h fs. do
          set_file_system (write_field h.name id attr_no value_index value fs).1
          after_try_field file_var h (write_field h.name id attr_no value_index value fs).0)
        (push_flag (pos 0))
