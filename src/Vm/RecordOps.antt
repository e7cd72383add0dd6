-- ===== src/Vm/RecordOps.antt =====
-- The opcodes on records, over the file system: a record that is written and read back, and a record
-- that another session has locked.
use gemini_system.Prelude.{
  ℕ, true, false, List, [], ◌∷◌, Option, none, some, Text, text_eq, ◌≡◌, refl, ◌∙◌, pos,
}
use gemini_system.Prelude.Assoc.{put}
use gemini_system.Locking.{LockTable, LockEntry, LockConflict, lookup, fill_conflict}
use gemini_system.Files.Host.{inspect, open_to_read, resolve_entry, is_valid_name}
use gemini_system.Files.State.{FileSystem, record_locked}
use gemini_system.Files.State
use gemini_system.Files.Handles.{FileHandle, open_file, reset_read_next_cursor}
use gemini_system.Files.Items.{Record, new_record}
use gemini_system.Files.Items
use gemini_system.Files.Exclusion.{IsShutOut, locked_record_refused, open_file-name}
use gemini_system.Files.ReadBack.{read-write, new_record-value}
use gemini_system.Vm.Values.{Value, int, str, value_to_string, canonical_name}
use gemini_system.Vm.Reasoning.{find-put_same}
use gemini_system.Vm.Machine.{
  Runtime, Callees, Instruction, CallFuncOperand, OpCode, Flow, next, jumped, Result, ok, raise,
  io_error, record_locked_kind, ◌>>=◌, ◌>>◌, return_value, lift, get, push, pop, popped,
  name_operand, pop_as_text,
}
use gemini_system.Vm.FileOps.{
  handle, found_handle, backend, backend_of, set_file_system, set_handle,
  handle_record_lock_conflict, handler_or_throw, lock_or_rethrow, push_record, push_failure,
  try_record, after_write, when_open, with_both, exec_read_rec, exec_read_rec_try, exec_write,
}

-- Control goes to the handler of ON ERROR, or the error is thrown; the status is set in both cases.
abbrev pub conflict_handled : {F : Type 0} → OpCode → Option ℕ → Runtime F → Result Flow × Runtime F
conflict_handled op none r =
    (raise (io_error op record_locked_kind []), record r { status_code = 1 })
conflict_handled op (some target) r = (ok jumped, record r { status_code = 1; ip = target })

module _ {F : Type 0} (env : Callees F) (op : OpCode) (raw : Text) (call : CallFuncOperand) where
  abbrev pub on_file : Instruction F
  on_file = record { op = op; operand = str raw; call_func = call }

  -- The state in which an opcode finds its operands, the open file and the backend.
  abbrev pub at_file : Runtime F → FileHandle → FileSystem → List (Value F) → Runtime F
  at_file r h fs s = record r {
    stack = s;
    file_system = some fs;
    open_files = put (canonical_name raw) h r.open_files;
  }

  exec_read_rec-found :
      (r : Runtime F) (h : FileHandle) (fs : FileSystem) (id : Text) (s : List (Value F))
      → exec_read_rec env on_file (at_file r h fs (str id ∷ s))
        ≡ push_record op id (Items.read h.name id fs) (at_file r h fs s)
  unfolding exec_read_rec ◌>>=◌ name_operand lift return_value pop_as_text pop popped handle get
      found_handle backend backend_of value_to_string
  exec_read_rec-found r h fs id s = rw (find-put_same (canonical_name raw) h r.open_files) refl

  exec_read_rec_try-found :
      (r : Runtime F) (h : FileHandle) (fs : FileSystem) (id : Text) (s : List (Value F))
      → exec_read_rec_try env on_file (at_file r h fs (str id ∷ s))
        ≡ try_record (Items.read h.name id fs) (at_file r h fs s)
  unfolding exec_read_rec_try ◌>>=◌ name_operand lift return_value pop_as_text pop popped get
      when_open with_both value_to_string
  exec_read_rec_try-found r h fs id s = rw (find-put_same (canonical_name raw) h r.open_files) refl

  exec_write-found :
      (r : Runtime F) (h : FileHandle) (fs after : FileSystem) (id value : Text)
      (s : List (Value F)) (result : State.Result (Unit {0}))
      → Items.write h.name (new_record id value) fs ≡ (result, after)
      → exec_write env on_file Items.write (at_file r h fs (str id ∷ (str value ∷ s)))
        ≡ after_write op (canonical_name raw) h result (at_file r h after s)
  unfolding exec_write ◌>>=◌ ◌>>◌ name_operand lift return_value pop_as_text pop popped handle get
      found_handle backend backend_of set_file_system value_to_string
  exec_write-found r h fs after id value s result h_write =
      rw (find-put_same (canonical_name raw) h r.open_files, h_write) refl

  push_record-some :
      (id value : Text) (r : Runtime F)
      → push_record op id (State.ok (some (record { name = id; value = value }))) r
        ≡ (ok next, record r { stack = str value ∷ r.stack })
  unfolding push_record ◌>>◌ push return_value
  push_record-some id value r = refl

  -- A WRITE that the file system accepts is read back: the READ behind it pushes the bytes that were
  -- written, whatever they are. The host must not fail on the entry of the record.
  pub exec_read_rec-exec_write :
      (r : Runtime F) (h : FileHandle) (fs after : FileSystem) (id value : Text)
      (s : List (Value F))
      → fs.host.faults inspect h.name (resolve_entry fs.host h.name id) ≡ false
      → fs.host.faults open_to_read h.name (resolve_entry fs.host h.name id) ≡ false
      → Items.write h.name (record { name = id; value = value }) fs ≡ (State.ok tt, after)
      → let wrote =
          exec_write env on_file Items.write (at_file r h fs (str id ∷ (str value ∷ s))) in
        (wrote.0 ≡ ok next)
        × (wrote.1.stack ≡ s)
        × (wrote.1.file_system ≡ some after)
        × (exec_read_rec env on_file (record wrote.1 { stack = str id ∷ s })
            ≡ (ok next, record wrote.1 { stack = str value ∷ s }))
  unfolding reset_read_next_cursor after_write ◌>>◌ set_handle return_value
  exec_read_rec-exec_write r h fs after id value s calm opens h_write =
      let name = canonical_name raw in
      let same = new_record-value id value in
      let wrote = exec_write-found r h fs after id value s (State.ok tt) (rw same h_write) in
      let r' : Runtime F = record r { open_files = put name h r.open_files } in
      let back =
        (read-write h.name (record { name = id; value = value }) fs after calm opens h_write).0 in
      let read = exec_read_rec-found r' (reset_read_next_cursor h) after id s in
      rw wrote (refl, refl, refl, rw back at read ∙ push_record-some id value _)

  handler_or_throw-conflict :
      (o : Option ℕ) (r : Runtime F)
      → handler_or_throw op o (record r { status_code = 1 }) ≡ conflict_handled op o r
  unfolding handler_or_throw
  handler_or_throw-conflict none r = refl
  handler_or_throw-conflict (some target) r = refl

  lock_or_rethrow-conflict :
      (c : LockConflict) (r : Runtime F)
      → lock_or_rethrow op (record_locked c) r ≡ conflict_handled op r.on_error_ip r
  unfolding lock_or_rethrow handle_record_lock_conflict
  lock_or_rethrow-conflict c r = handler_or_throw-conflict r.on_error_ip r

  -- A record that another session has locked: READ and WRITE set the status to 1 and go to the handler
  -- of ON ERROR, or throw where there is none, while READ with ELSE pushes the empty text and 0 and
  -- leaves the status as it was; none of them changes the file system or reads the record.
  pub locked_record_handled :
      (r : Runtime F) (h : FileHandle) (fs : FileSystem) (t : LockTable) (e : LockEntry)
      (fresh : FileHandle) (id value : Text) (s : List (Value F))
      → open_file h.name fs ≡ State.ok fresh
      → IsShutOut fs t e
      → lookup t h.name id ≡ some e
      → is_valid_name id ≡ true
      → (exec_read_rec env on_file (at_file r h fs (str id ∷ s))
          ≡ conflict_handled op r.on_error_ip (at_file r h fs s))
        × (exec_write env on_file Items.write (at_file r h fs (str id ∷ (str value ∷ s)))
            ≡ conflict_handled op r.on_error_ip (at_file r h fs s))
        × (exec_read_rec_try env on_file (at_file r h fs (str id ∷ s))
            ≡ (ok next, at_file r h fs (int (pos 0) ∷ (str [] ∷ s))))
  unfolding Items.read Items.write push_record after_write try_record push_failure ◌>>◌ push
      return_value
  locked_record_handled r h fs t e fresh id value s opened out found valid =
      let c = record_locked (fill_conflict h.name id e) in
      let (no_read, no_write, no_delete) =
        locked_record_refused fs t e h.name id fresh value (open_file-name h.name fs fresh opened)
          out found valid in
      let reading : Items.read h.name id fs ≡ State.err c = rw (opened, no_read, Items.read) refl in
      let writing : Items.write h.name (new_record id value) fs ≡ (State.err c, fs) =
        rw (new_record-value id value, opened, no_write, Items.write) refl in
      let handled = lock_or_rethrow-conflict (fill_conflict h.name id e) (at_file r h fs s) in
      (
        rw (exec_read_rec-found r h fs id s, reading) handled,
        rw (exec_write-found r h fs fs id value s (State.err c) writing) handled,
        rw (exec_read_rec_try-found r h fs id s, reading) refl,
      )
