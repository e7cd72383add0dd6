-- ===== src/Vm/Reasoning.antt =====
-- How a property of the state is followed through an opcode: it is enough that each part keeps it.
use gemini_system.Prelude.{
  ℕ, Bool, true, false, List, [], ◌∷◌, Option, none, some, ◌≡◌, refl, Text, text_eq, text_beq_iff,
  fits_int, ℤ, if◌then◌else◌, not, arith,
}
use gemini_system.Prelude.Assoc.{Assoc, find, put, find-put}
use gemini_system.Files.State.{FileSystem}
use gemini_system.Files.Handles.{FileHandle}
use gemini_system.Vm.Values.{Value, int, coerce_to_int, is_read_only_name}
use gemini_system.Vm.Machine.{
  Runtime, Instruction, ForFrame, OpCode, Vm, Result, ok, raise, VmError, ◌>>=◌, ◌>>◌, continue,
  lift, get, put_state, unless, return_value, fail, defined, popped, pop, push, name_operand,
  pop_int, pop_string, Callees, pop_as_int, pop_as_text, checked_int, writable, set_ip,
}

pub find-put_same :
    {A : Type 0} (name : Text) (a : A) (m : Assoc Text A) → find name (put name a m) ≡ some a
find-put_same name a m = ground (arith, find-put name name a m, text_beq_iff name name)

-- A number goes through `double` and back, if it is an `int`.
abbrev pub IntsAreExact : {F : Type 0} → Callees F → Type 0
IntsAreExact env = (z : ℤ) → fits_int z ≡ true → coerce_to_int env.numerics (int z) ≡ some z

-- Whatever the part gives or throws, it leaves a state in which P holds.
pub record Keeps {F A : Type 0} (P : Runtime F → Type 0) (m : Vm F A) : Type 0 where
  pub kept : (r : Runtime F) → P r → P (m r).1

-- P says nothing of the parts of the state that an opcode may change at will, and allows what it may
-- do to the variables and the arrays: a name is bound that is not a name of the system, or all go.
pub record IsStable {F : Type 0} (P : Runtime F → Type 0) : Type 0 where
  pub stack : (r : Runtime F) (s : List (Value F)) → P r → P (record r { stack = s })
  pub ip : (r : Runtime F) (n : ℕ) → P r → P (record r { ip = n })
  pub calls : (r : Runtime F) (s : List ℕ) → P r → P (record r { call_stack = s })
  pub returned :
      (r : Runtime F) (n : ℕ) (s : List ℕ) → P r → P (record r { ip = n; call_stack = s })
  pub loops : (r : Runtime F) (s : List ForFrame) → P r → P (record r { for_stack = s })
  pub files : (r : Runtime F) (m : Assoc Text FileHandle) → P r → P (record r { open_files = m })
  pub system : (r : Runtime F) (fs : Option FileSystem) → P r → P (record r { file_system = fs })
  pub printed : (r : Runtime F) (t : Text) → P r → P (record r { output = t })
  pub consumed : (r : Runtime F) (ls : List Text) → P r → P (record r { input = ls })
  pub status : (r : Runtime F) (n : ℕ) → P r → P (record r { status_code = n })
  pub handler : (r : Runtime F) (o : Option ℕ) → P r → P (record r { on_error_ip = o })
  pub bound :
      (r : Runtime F) (name : Text) (v : Value F)
      → is_read_only_name name ≡ false
      → P r
      → P (record r { variables = put name v r.variables })
  pub dimensioned :
      (r : Runtime F) (name : Text) (vs : List (Value F))
      → is_read_only_name name ≡ false
      → P r
      → P (record r { arrays = put name vs r.arrays })
  pub cleared : (r : Runtime F) → P r → P (record r { variables = []; arrays = [] })

module _ {F : Type 0} {P : Runtime F → Type 0} where
  continue-Keeps :
      {A B : Type 0} (k : A → Vm F B)
      → ((a : A) → Keeps P (k a))
      → (x : Result A × Runtime F) → P x.1
      → P (continue x k).1
  continue-Keeps k h (ok a, r) p = (h a).kept r p
  continue-Keeps k h (raise e, r) p = p

  pub bind-Keeps :
      {A B : Type 0} (m : Vm F A) (k : A → Vm F B)
      → Keeps P m
      → ((a : A) → Keeps P (k a))
      → Keeps P (m >>= k)
  unfolding ◌>>=◌
  bind-Keeps m k hm hk = record { kept = λ r p. continue-Keeps k hk (m r) (hm.kept r p) }

  pub then-Keeps :
      {B : Type 0} (m : Vm F (Unit {0})) (k : Vm F B) → Keeps P m → Keeps P k → Keeps P (m >> k)
  unfolding ◌>>◌
  then-Keeps m k hm hk = record {
    kept = λ r p. continue-Keeps (λ u. k) (λ u. hk) (m r) (hm.kept r p);
  }

  pub get-then-Keeps :
      {B : Type 0} (k : Runtime F → Vm F B)
      → ((r : Runtime F) → P r → P (k r r).1)
      → Keeps P (get >>= k)
  unfolding ◌>>=◌ get
  get-then-Keeps k h = record { kept = h }

  pub put-then-Keeps :
      {B : Type 0} (r' r : Runtime F) (k : Vm F B) → P r' → Keeps P k → P ((put_state r' >> k) r).1
  unfolding ◌>>◌ put_state
  put-then-Keeps r' r k p h = h.kept r' p

  pub return_value-Keeps : {A : Type 0} (a : A) → Keeps P (return_value a)
  unfolding return_value
  return_value-Keeps a = record { kept = λ r p. p }

  pub fail-Keeps : {A : Type 0} (e : VmError) → Keeps {A = A} P (fail e)
  unfolding fail
  fail-Keeps e = record { kept = λ r p. p }

  pub lift-Keeps : {A : Type 0} (a : Result A) → Keeps P (lift a)
  unfolding lift
  lift-Keeps a = record { kept = λ r p. p }

  pub get-Keeps : Keeps P get
  unfolding get
  get-Keeps = record { kept = λ r p. p }

  pub unless-Keeps : (b : Bool) (e : VmError) → Keeps P (unless b e)
  unfolding unless
  unless-Keeps true e = record { kept = λ r p. p }
  unless-Keeps false e = record { kept = λ r p. p }

  pub defined-Keeps : {A : Type 0} (o : Option A) → Keeps P (defined o)
  unfolding defined fail return_value
  defined-Keeps none = record { kept = λ r p. p }
  defined-Keeps (some a) = record { kept = λ r p. p }

  pub if-Keeps :
      {A : Type 0} (b : Bool) (m n : Vm F A) → Keeps P m → Keeps P n → Keeps P (if b then m else n)
  if-Keeps true m n km kn = km
  if-Keeps false m n km kn = kn

  checked-Keeps :
      {B : Type 0} {k : Vm F B} (e : VmError) (b : Bool)
      → (b ≡ false → Keeps P k)
      → Keeps P (unless (not b) e >> k)
  unfolding unless ◌>>◌
  checked-Keeps e true h = record { kept = λ r p. p }
  checked-Keeps e false h = record { kept = λ r p. (h refl).kept r p }

  -- What follows the check may use that the name is not one of the system.
  pub writable-then-Keeps :
      {B : Type 0} (name : Text) (k : Vm F B)
      → (is_read_only_name name ≡ false → Keeps P k)
      → Keeps P (writable name >> k)
  unfolding writable
  writable-then-Keeps name k h = checked-Keeps _ (is_read_only_name name) h

  pub name_operand-Keeps : (i : Instruction F) → Keeps P (name_operand i)
  unfolding name_operand
  name_operand-Keeps i = bind-Keeps _ _ (lift-Keeps _) (λ name. return_value-Keeps _)

  pub checked_int-Keeps : (z : ℤ) → Keeps P (checked_int z)
  unfolding checked_int
  checked_int-Keeps z = then-Keeps _ _ (unless-Keeps _ _) (return_value-Keeps z)

pub ruleset keeps_rules = (
  writable-then-Keeps, return_value-Keeps, fail-Keeps, lift-Keeps, get-Keeps, unless-Keeps,
  defined-Keeps, if-Keeps, name_operand-Keeps, checked_int-Keeps, bind-Keeps, then-Keeps,
)

module _ {F : Type 0} {P : Runtime F → Type 0} (stable : IsStable P) where
  pub push-Keeps : (v : Value F) → Keeps P (push v)
  unfolding push
  push-Keeps v = record { kept = λ r p. stable.stack r _ p }

  popped-Keeps : (s : List (Value F)) → Keeps P (popped s)
  unfolding popped
  popped-Keeps [] = record { kept = λ r p. p }
  popped-Keeps (v ∷ s) = record { kept = λ r p. stable.stack r _ p }

  pub pop-Keeps : Keeps P pop
  unfolding pop
  pop-Keeps = record { kept = λ r p. (popped-Keeps r.stack).kept r p }

  pub pop_int-Keeps : (op : OpCode) → Keeps P (pop_int op)
  unfolding pop_int
  pop_int-Keeps op = search (keeps_rules, pop-Keeps)

  pub pop_string-Keeps : (op : OpCode) → Keeps P (pop_string op)
  unfolding pop_string
  pop_string-Keeps op = search (keeps_rules, pop-Keeps)

  pub pop_as_int-Keeps : (env : Callees F) → Keeps P (pop_as_int env)
  unfolding pop_as_int
  pop_as_int-Keeps env = search (keeps_rules, pop-Keeps)

  pub pop_as_text-Keeps : (env : Callees F) → Keeps P (pop_as_text env)
  unfolding pop_as_text
  pop_as_text-Keeps env = search (keeps_rules, pop-Keeps)

  pub set_ip-Keeps : (target : ℕ) → Keeps P (set_ip target)
  unfolding set_ip
  set_ip-Keeps target = record { kept = λ r p. stable.ip r target p }

pub ruleset stack_rules = (
  keeps_rules, push-Keeps, pop-Keeps, pop_int-Keeps, pop_string-Keeps, pop_as_int-Keeps,
  pop_as_text-Keeps, set_ip-Keeps,
)
