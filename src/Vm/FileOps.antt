-- ===== src/Vm/FileOps.antt =====
-- The opcodes on files and records. Each `TRY` form pushes whether it succeeded.
use gemini_system.Prelude.{
  ℕ, Bool, true, false, [], ◌++◌, Option, none, some, Text, codes, text_eq, if◌then◌else◌, ℤ, pos,
}
use gemini_system.Prelude.Assoc.{find, put, erase}
use gemini_system.Files.State.{FileSystem, FileSystemError, record_locked, lock_refused}
use gemini_system.Files.State
use gemini_system.Files.Handles.{FileHandle, open_file, read_next_record, reset_read_next_cursor}
use gemini_system.Files.Items.{Record, new_record}
use gemini_system.Files.Items
use gemini_system.Files.Locks
use gemini_system.Vm.Values.{int, str}
use gemini_system.Vm.Machine.{
  push, name_operand, pop_as_text, get, put_state, return_value, fail, ◌>>=◌, ◌>>◌, Vm, Flow, next,
  jumped, Callees, Instruction, OpCode, ok, raise, backend_unavailable, missing_file,
  file_var_not_open, missing_record, cursor_exhausted, record_locked_kind, io_error,
  file_system_error,
}

-- `isRecordLockConflict`: the two errors whose message says RECORD LOCKED.
abbrev pub is_lock_conflict : FileSystemError → Bool
is_lock_conflict (record_locked c) = true
is_lock_conflict lock_refused = true
is_lock_conflict _ = false

module _ {F : Type 0} where
  unfoldable pub found_handle : OpCode → Text → Option FileHandle → Vm F FileHandle
  found_handle op file_var none = fail (io_error op file_var_not_open file_var)
  found_handle op file_var (some h) = return_value h

  unfoldable pub handle : OpCode → Text → Vm F FileHandle
  handle op file_var = do r ← get; found_handle op file_var (find file_var r.open_files)

  unfoldable pub backend_of : OpCode → Option FileSystem → Vm F FileSystem
  backend_of op none =
      fail (io_error op backend_unavailable (codes "filesystem backend not configured"))
  backend_of op (some fs) = return_value fs

  unfoldable pub backend : OpCode → Vm F FileSystem
  backend op = do r ← get; backend_of op r.file_system

  unfoldable pub set_file_system : FileSystem → Vm F (Unit {0})
  set_file_system fs r = (ok tt, record r { file_system = some fs })

  unfoldable pub set_handle : Text → FileHandle → Vm F (Unit {0})
  set_handle file_var h r = (ok tt, record r { open_files = put file_var h r.open_files })

  unfoldable pub handler_or_throw : OpCode → Option ℕ → Vm F Flow
  handler_or_throw op none r = (raise (io_error op record_locked_kind []), r)
  handler_or_throw op (some target) r = (ok jumped, record r { ip = target })

  -- The status is set, and control goes to the handler of ON ERROR, if there is one.
  unfoldable pub handle_record_lock_conflict : OpCode → Vm F Flow
  handle_record_lock_conflict op r =
      handler_or_throw op r.on_error_ip (record r { status_code = 1 })

  -- The `catch` of the opcodes that are no `TRY`.
  unfoldable pub lock_or_rethrow : OpCode → FileSystemError → Vm F Flow
  lock_or_rethrow op e =
      if is_lock_conflict e then handle_record_lock_conflict op else fail (file_system_error e)

  unfoldable pub push_record : OpCode → Text → State.Result (Option Record) → Vm F Flow
  push_record op id (State.ok none) = fail (io_error op missing_record id)
  push_record op id (State.ok (some rec)) = do push (str rec.value); return_value next
  push_record op id (State.err e) = lock_or_rethrow op e

  -- The empty text and 0.
  unfoldable pub push_failure : Vm F Flow
  push_failure = do push (str []); push (int (pos 0)); return_value next

  unfoldable pub push_flag : ℤ → Vm F Flow
  push_flag z = do push (int z); return_value next

  unfoldable pub push_success : Text → Vm F Flow
  push_success t = do push (str t); push (int (pos 1)); return_value next

  unfoldable pub try_record : State.Result (Option Record) → Vm F Flow
  try_record (State.ok none) = push_failure
  try_record (State.ok (some rec)) = push_success rec.value
  try_record (State.err e) = if is_lock_conflict e then push_failure else fail (file_system_error e)

  -- A write that succeeded makes the cursor of the file variable start again.
  unfoldable pub after_write : OpCode → Text → FileHandle → State.Result (Unit {0}) → Vm F Flow
  after_write op file_var h (State.ok u) = do
    set_handle file_var (reset_read_next_cursor h)
    return_value next
  after_write op file_var h (State.err e) = lock_or_rethrow op e

  unfoldable pub after_try_write : Text → FileHandle → State.Result (Unit {0}) → Vm F Flow
  after_try_write file_var h (State.ok u) = do
    set_handle file_var (reset_read_next_cursor h)
    push_flag (pos 1)
  after_try_write file_var h (State.err e) =
      if is_lock_conflict e then push_flag (pos 0) else fail (file_system_error e)

  -- With the handle and the backend, or without one of them.
  unfoldable pub with_both :
      Option FileHandle
      → Option FileSystem
      → (FileHandle → FileSystem → Vm F Flow)
      → Vm F Flow
      → Vm F Flow
  with_both none fs k otherwise = otherwise
  with_both (some h) none k otherwise = otherwise
  with_both (some h) (some fs) k otherwise = k h fs

  unfoldable pub when_open : Text → (FileHandle → FileSystem → Vm F Flow) → Vm F Flow → Vm F Flow
  when_open file_var k otherwise = do
    r ← get
    with_both (find file_var r.open_files) r.file_system k otherwise

  unfoldable pub exec_close_file : Instruction F → Vm F Flow
  exec_close_file i = do
    file_var ← name_operand i
    r ← get
    put_state (record r { open_files = erase file_var r.open_files })
    return_value next

  unfoldable pub opened : OpCode → Text → Text → State.Result FileHandle → Vm F Flow
  opened op file_var file (State.ok h) = do
    set_handle file_var (reset_read_next_cursor h)
    return_value next
  opened op file_var file (State.err e) = fail (io_error op missing_file file)

  unfoldable pub try_opened : Text → State.Result FileHandle → Vm F Flow
  try_opened file_var (State.ok h) = do
    set_handle file_var (reset_read_next_cursor h)
    push_flag (pos 1)
  try_opened file_var (State.err e) = push_flag (pos 0)

  unfoldable pub try_open_in : Text → Text → Option FileSystem → Vm F Flow
  try_open_in file_var file none = push_flag (pos 0)
  try_open_in file_var file (some fs) = try_opened file_var (open_file file fs)

  unfoldable pub push_next : OpCode → FileHandle → State.Result Text → Vm F Flow
  push_next op h (State.ok id) = do push (str id); return_value next
  push_next op h (State.err e) = fail (io_error op cursor_exhausted (codes "file=" ++ h.name))

  unfoldable pub exec_read_next : Instruction F → Vm F Flow
  exec_read_next i = do
    file_var ← name_operand i
    h ← handle i.op file_var
    fs ← backend i.op
    let called = read_next_record h fs
    set_handle file_var called.1
    push_next i.op h called.0

  unfoldable pub try_next : State.Result Text → Vm F Flow
  try_next (State.ok id) = push_success id
  try_next (State.err e) = push_failure

  unfoldable pub exec_read_next_try : Instruction F → Vm F Flow
  exec_read_next_try i = do
    file_var ← name_operand i
    when_open file_var
        (λ h fs. do
          set_handle file_var (read_next_record h fs).1
          try_next (read_next_record h fs).0)
        push_failure

module _ {F : Type 0} (env : Callees F) where
  unfoldable pub exec_open_file : Instruction F → Vm F Flow
  exec_open_file i = do
    file_var ← name_operand i
    file ← pop_as_text env
    fs ← backend i.op
    opened i.op file_var file (open_file file fs)

  unfoldable pub exec_open_file_try : Instruction F → Vm F Flow
  exec_open_file_try i = do
    file_var ← name_operand i
    file ← pop_as_text env
    r ← get
    try_open_in file_var file r.file_system

  unfoldable pub exec_read_rec : Instruction F → Vm F Flow
  exec_read_rec i = do
    file_var ← name_operand i
    id ← pop_as_text env
    h ← handle i.op file_var
    fs ← backend i.op
    push_record i.op id (Items.read h.name id fs)

  unfoldable pub exec_read_rec_try : Instruction F → Vm F Flow
  exec_read_rec_try i = do
    file_var ← name_operand i
    id ← pop_as_text env
    when_open file_var (λ h fs. try_record (Items.read h.name id fs)) push_failure

  unfoldable pub exec_read_rec_u : Instruction F → Vm F Flow
  exec_read_rec_u i = do
    file_var ← name_operand i
    id ← pop_as_text env
    h ← handle i.op file_var
    fs ← backend i.op
    let called = Items.read_u env.now h.name id fs
    set_file_system called.1
    push_record i.op id called.0

  unfoldable pub exec_read_rec_u_try : Instruction F → Vm F Flow
  exec_read_rec_u_try i = do
    file_var ← name_operand i
    id ← pop_as_text env
    when_open file_var
        (λ h fs. do
          set_file_system (Items.read_u env.now h.name id fs).1
          try_record (Items.read_u env.now h.name id fs).0)
        push_failure

  -- `WRITE`, and `WRITEU`, which differ in the method that they call.
  unfoldable pub exec_write : Instruction F → (Text → Record → State.Exec (Unit {0})) → Vm F Flow
  exec_write i method = do
    file_var ← name_operand i
    id ← pop_as_text env
    value ← pop_as_text env
    h ← handle i.op file_var
    fs ← backend i.op
    let called = method h.name (new_record id value) fs
    set_file_system called.1
    after_write i.op file_var h called.0

  unfoldable pub exec_write_try :
      Instruction F → (Text → Record → State.Exec (Unit {0})) → Vm F Flow
  exec_write_try i method = do
    file_var ← name_operand i
    id ← pop_as_text env
    value ← pop_as_text env
    when_open file_var
        (λ h fs. do
          set_file_system (method h.name (new_record id value) fs).1
          after_try_write file_var h (method h.name (new_record id value) fs).0)
        (push_flag (pos 0))

  unfoldable pub exec_write_u : Instruction F → Vm F Flow
  exec_write_u i = exec_write i (Items.write_u env.now)

  unfoldable pub exec_write_u_try : Instruction F → Vm F Flow
  exec_write_u_try i = exec_write_try i (Items.write_u env.now)

  unfoldable pub exec_release_rec : Instruction F → Vm F Flow
  exec_release_rec i = do
    file_var ← name_operand i
    id ← pop_as_text env
    h ← handle i.op file_var
    fs ← backend i.op
    set_file_system (Locks.release_record h.name id fs).1
    return_value next
