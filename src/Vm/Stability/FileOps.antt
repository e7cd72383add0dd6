-- ===== src/Vm/Stability/FileOps.antt =====
-- The opcodes on files keep every stable property.
use gemini_system.Prelude.{Option, none, some, Text, ℤ, ℕ}
use gemini_system.Vm.Machine.{Runtime, Instruction, OpCode, Vm, Flow, next, Callees}
use gemini_system.Vm.Reasoning.{
  Keeps, IsStable, stack_rules, keeps_rules, bind-Keeps, lift-Keeps, get-then-Keeps, put-then-Keeps,
  set_ip-Keeps, return_value-Keeps, name_operand-Keeps, pop_as_int-Keeps, unless-Keeps, then-Keeps,
}
use gemini_system.Files.State
use gemini_system.Files.State.{FileSystem, FileSystemError}
use gemini_system.Files.Items.{Record}
use gemini_system.Files.Handles.{FileHandle}
use gemini_system.Vm.FileOps

module _ {F : Type 0} {P : Runtime F → Type 0} (stable : IsStable P) (env : Callees F) where
  pub found_handle-Keeps :
      (op : OpCode) (v : Text) (o : Option FileHandle) → Keeps P (FileOps.found_handle op v o)
  unfolding FileOps.found_handle
  found_handle-Keeps op v none = search stack_rules depth 14 fits 3000
  found_handle-Keeps op v (some h) = search stack_rules depth 14 fits 3000

  pub handle-Keeps : (op : OpCode) (v : Text) → Keeps P (FileOps.handle op v)
  unfolding FileOps.handle
  handle-Keeps op v = search (stack_rules, found_handle-Keeps) depth 14 fits 3000

  pub backend_of-Keeps : (op : OpCode) (o : Option FileSystem) → Keeps P (FileOps.backend_of op o)
  unfolding FileOps.backend_of
  backend_of-Keeps op none = search stack_rules depth 14 fits 3000
  backend_of-Keeps op (some fs) = search stack_rules depth 14 fits 3000

  pub backend-Keeps : (op : OpCode) → Keeps P (FileOps.backend op)
  unfolding FileOps.backend
  backend-Keeps op = search (stack_rules, backend_of-Keeps) depth 14 fits 3000

  pub set_file_system-Keeps : (fs : FileSystem) → Keeps P (FileOps.set_file_system fs)
  unfolding FileOps.set_file_system
  set_file_system-Keeps fs = record { kept = λ r p. stable.system r _ p }

  pub set_handle-Keeps : (v : Text) (h : FileHandle) → Keeps P (FileOps.set_handle v h)
  unfolding FileOps.set_handle
  set_handle-Keeps v h = record { kept = λ r p. stable.files r _ p }

  pub handler_or_throw-Keeps :
      (op : OpCode) (o : Option ℕ) → Keeps P (FileOps.handler_or_throw op o)
  unfolding FileOps.handler_or_throw
  handler_or_throw-Keeps op none = record { kept = λ r p. p }
  handler_or_throw-Keeps op (some t) = record { kept = λ r p. stable.ip r t p }

  pub handle_record_lock_conflict-Keeps :
      (op : OpCode) → Keeps P (FileOps.handle_record_lock_conflict op)
  unfolding FileOps.handle_record_lock_conflict
  handle_record_lock_conflict-Keeps op = record {
    kept = λ r p. (handler_or_throw-Keeps op r.on_error_ip).kept _ (stable.status r 1 p);
  }

  pub lock_or_rethrow-Keeps :
      (op : OpCode) (e : FileSystemError) → Keeps P (FileOps.lock_or_rethrow op e)
  unfolding FileOps.lock_or_rethrow
  lock_or_rethrow-Keeps op e =
      search (stack_rules, handle_record_lock_conflict-Keeps) depth 14 fits 3000

  pub push_record-Keeps :
      (op : OpCode) (id : Text) (x : State.Result (Option Record))
      → Keeps P (FileOps.push_record op id x)
  unfolding FileOps.push_record
  push_record-Keeps op id (State.ok none) =
      search (stack_rules, lock_or_rethrow-Keeps) depth 14 fits 3000
  push_record-Keeps op id (State.ok (some rec)) =
      search (stack_rules, lock_or_rethrow-Keeps) depth 14 fits 3000
  push_record-Keeps op id (State.err e) =
      search (stack_rules, lock_or_rethrow-Keeps) depth 14 fits 3000

  pub push_failure-Keeps : Keeps P FileOps.push_failure
  unfolding FileOps.push_failure
  push_failure-Keeps = search stack_rules depth 14 fits 3000

  pub push_flag-Keeps : (z : ℤ) → Keeps P (FileOps.push_flag z)
  unfolding FileOps.push_flag
  push_flag-Keeps z = search stack_rules depth 14 fits 3000

  pub push_success-Keeps : (t : Text) → Keeps P (FileOps.push_success t)
  unfolding FileOps.push_success
  push_success-Keeps t = search stack_rules depth 14 fits 3000

  pub try_record-Keeps : (x : State.Result (Option Record)) → Keeps P (FileOps.try_record x)
  unfolding FileOps.try_record
  try_record-Keeps (State.ok none) =
      search (stack_rules, push_failure-Keeps, push_success-Keeps) depth 14 fits 3000
  try_record-Keeps (State.ok (some rec)) =
      search (stack_rules, push_failure-Keeps, push_success-Keeps) depth 14 fits 3000
  try_record-Keeps (State.err e) =
      search (stack_rules, push_failure-Keeps, push_success-Keeps) depth 14 fits 3000

  pub after_write-Keeps :
      (op : OpCode) (v : Text) (h : FileHandle) (x : State.Result (Unit {0}))
      → Keeps P (FileOps.after_write op v h x)
  unfolding FileOps.after_write
  after_write-Keeps op v h (State.ok u) =
      search (stack_rules, lock_or_rethrow-Keeps, set_handle-Keeps) depth 14 fits 3000
  after_write-Keeps op v h (State.err e) =
      search (stack_rules, lock_or_rethrow-Keeps, set_handle-Keeps) depth 14 fits 3000

  pub after_try_write-Keeps :
      (v : Text) (h : FileHandle) (x : State.Result (Unit {0}))
      → Keeps P (FileOps.after_try_write v h x)
  unfolding FileOps.after_try_write
  after_try_write-Keeps v h (State.ok u) =
      search (stack_rules, push_flag-Keeps, set_handle-Keeps) depth 14 fits 3000
  after_try_write-Keeps v h (State.err e) =
      search (stack_rules, push_flag-Keeps, set_handle-Keeps) depth 14 fits 3000

  with_both-Keeps :
      (h : Option FileHandle) (fs : Option FileSystem) (k : FileHandle → FileSystem → Vm F Flow)
      (otherwise : Vm F Flow)
      → ((h : FileHandle) (fs : FileSystem) → Keeps P (k h fs))
      → Keeps P otherwise
      → Keeps P (FileOps.with_both h fs k otherwise)
  unfolding FileOps.with_both
  with_both-Keeps none fs k otherwise kk ko = ko
  with_both-Keeps (some h) none k otherwise kk ko = ko
  with_both-Keeps (some h) (some fs) k otherwise kk ko = kk h fs

  pub when_open-Keeps :
      (v : Text) (k : FileHandle → FileSystem → Vm F Flow) (otherwise : Vm F Flow)
      → ((h : FileHandle) (fs : FileSystem) → Keeps P (k h fs))
      → Keeps P otherwise
      → Keeps P (FileOps.when_open v k otherwise)
  unfolding FileOps.when_open
  when_open-Keeps v k otherwise kk ko = search (keeps_rules, with_both-Keeps)

  pub exec_close_file-Keeps : (i : Instruction F) → Keeps P (FileOps.exec_close_file i)
  unfolding FileOps.exec_close_file
  exec_close_file-Keeps i = bind-Keeps _ _ (name_operand-Keeps i) (λ name.
      get-then-Keeps _ (λ r p.
        put-then-Keeps {P = P} _ r _ (stable.files r _ p) (return_value-Keeps {P = P} next)))

  pub opened-Keeps :
      (op : OpCode) (v : Text) (f : Text) (x : State.Result FileHandle)
      → Keeps P (FileOps.opened op v f x)
  unfolding FileOps.opened
  opened-Keeps op v f (State.ok h) = search (stack_rules, set_handle-Keeps) depth 14 fits 3000
  opened-Keeps op v f (State.err e) = search (stack_rules, set_handle-Keeps) depth 14 fits 3000

  pub try_opened-Keeps : (v : Text) (x : State.Result FileHandle) → Keeps P (FileOps.try_opened v x)
  unfolding FileOps.try_opened
  try_opened-Keeps v (State.ok h) =
      search (stack_rules, push_flag-Keeps, set_handle-Keeps) depth 14 fits 3000
  try_opened-Keeps v (State.err e) =
      search (stack_rules, push_flag-Keeps, set_handle-Keeps) depth 14 fits 3000

  pub try_open_in-Keeps :
      (v : Text) (f : Text) (o : Option FileSystem) → Keeps P (FileOps.try_open_in v f o)
  unfolding FileOps.try_open_in
  try_open_in-Keeps v f none =
      search (stack_rules, push_flag-Keeps, try_opened-Keeps) depth 14 fits 3000
  try_open_in-Keeps v f (some fs) =
      search (stack_rules, push_flag-Keeps, try_opened-Keeps) depth 14 fits 3000

  pub push_next-Keeps :
      (op : OpCode) (h : FileHandle) (x : State.Result Text) → Keeps P (FileOps.push_next op h x)
  unfolding FileOps.push_next
  push_next-Keeps op h (State.ok id) = search stack_rules depth 14 fits 3000
  push_next-Keeps op h (State.err e) = search stack_rules depth 14 fits 3000

  pub exec_read_next-Keeps : (i : Instruction F) → Keeps P (FileOps.exec_read_next i)
  unfolding FileOps.exec_read_next
  exec_read_next-Keeps i =
      search
        (
          stack_rules, set_handle-Keeps, set_file_system-Keeps, handle-Keeps, backend-Keeps,
          push_next-Keeps,
        )
        depth 14 fits 3000

  pub try_next-Keeps : (x : State.Result Text) → Keeps P (FileOps.try_next x)
  unfolding FileOps.try_next
  try_next-Keeps (State.ok id) =
      search (stack_rules, push_failure-Keeps, push_success-Keeps) depth 14 fits 3000
  try_next-Keeps (State.err e) =
      search (stack_rules, push_failure-Keeps, push_success-Keeps) depth 14 fits 3000

  pub exec_read_next_try-Keeps : (i : Instruction F) → Keeps P (FileOps.exec_read_next_try i)
  unfolding FileOps.exec_read_next_try
  exec_read_next_try-Keeps i =
      search
        (
          stack_rules, set_handle-Keeps, set_file_system-Keeps, handle-Keeps, backend-Keeps,
          try_next-Keeps, when_open-Keeps, push_failure-Keeps,
        )
        depth 14 fits 3000

  pub exec_open_file-Keeps : (i : Instruction F) → Keeps P (FileOps.exec_open_file env i)
  unfolding FileOps.exec_open_file
  exec_open_file-Keeps i =
      search
        (
          stack_rules, set_handle-Keeps, set_file_system-Keeps, handle-Keeps, backend-Keeps,
          opened-Keeps,
        )
        depth 14 fits 3000

  pub exec_open_file_try-Keeps : (i : Instruction F) → Keeps P (FileOps.exec_open_file_try env i)
  unfolding FileOps.exec_open_file_try
  exec_open_file_try-Keeps i =
      search
        (
          stack_rules, set_handle-Keeps, set_file_system-Keeps, handle-Keeps, backend-Keeps,
          try_open_in-Keeps,
        )
        depth 14 fits 3000

  pub exec_read_rec-Keeps : (i : Instruction F) → Keeps P (FileOps.exec_read_rec env i)
  unfolding FileOps.exec_read_rec
  exec_read_rec-Keeps i =
      search
        (
          stack_rules, set_handle-Keeps, set_file_system-Keeps, handle-Keeps, backend-Keeps,
          push_record-Keeps,
        )
        depth 14 fits 3000

  pub exec_read_rec_try-Keeps : (i : Instruction F) → Keeps P (FileOps.exec_read_rec_try env i)
  unfolding FileOps.exec_read_rec_try
  exec_read_rec_try-Keeps i =
      search (stack_rules, when_open-Keeps, try_record-Keeps, push_failure-Keeps) depth 14 fits 3000

  pub exec_read_rec_u-Keeps : (i : Instruction F) → Keeps P (FileOps.exec_read_rec_u env i)
  unfolding FileOps.exec_read_rec_u
  exec_read_rec_u-Keeps i =
      search
        (
          stack_rules, set_handle-Keeps, set_file_system-Keeps, handle-Keeps, backend-Keeps,
          push_record-Keeps,
        )
        depth 14 fits 3000

  pub exec_read_rec_u_try-Keeps : (i : Instruction F) → Keeps P (FileOps.exec_read_rec_u_try env i)
  unfolding FileOps.exec_read_rec_u_try
  exec_read_rec_u_try-Keeps i =
      search
        (stack_rules, when_open-Keeps, try_record-Keeps, push_failure-Keeps, set_file_system-Keeps)
        depth 14 fits 3000

  pub exec_write-Keeps :
      (i : Instruction F) (method : Text → Record → State.Exec (Unit {0}))
      → Keeps P (FileOps.exec_write env i method)
  unfolding FileOps.exec_write
  exec_write-Keeps i method =
      search
        (
          stack_rules, set_handle-Keeps, set_file_system-Keeps, handle-Keeps, backend-Keeps,
          after_write-Keeps,
        )
        depth 14 fits 3000

  pub exec_write_try-Keeps :
      (i : Instruction F) (method : Text → Record → State.Exec (Unit {0}))
      → Keeps P (FileOps.exec_write_try env i method)
  unfolding FileOps.exec_write_try
  exec_write_try-Keeps i method =
      search
        (
          stack_rules, when_open-Keeps, after_try_write-Keeps, set_file_system-Keeps,
          push_flag-Keeps,
        )
        depth 14 fits 3000

  pub exec_write_u-Keeps : (i : Instruction F) → Keeps P (FileOps.exec_write_u env i)
  unfolding FileOps.exec_write_u
  exec_write_u-Keeps i = search (stack_rules, exec_write-Keeps) depth 14 fits 3000

  pub exec_write_u_try-Keeps : (i : Instruction F) → Keeps P (FileOps.exec_write_u_try env i)
  unfolding FileOps.exec_write_u_try
  exec_write_u_try-Keeps i = search (stack_rules, exec_write_try-Keeps) depth 14 fits 3000

  pub exec_release_rec-Keeps : (i : Instruction F) → Keeps P (FileOps.exec_release_rec env i)
  unfolding FileOps.exec_release_rec
  exec_release_rec-Keeps i =
      search (stack_rules, set_handle-Keeps, set_file_system-Keeps, handle-Keeps, backend-Keeps)
        depth 14 fits 3000

pub ruleset file_rules = (
  stack_rules, handle-Keeps, backend-Keeps, set_handle-Keeps, set_file_system-Keeps,
  push_failure-Keeps, push_success-Keeps, push_flag-Keeps, when_open-Keeps,
)
