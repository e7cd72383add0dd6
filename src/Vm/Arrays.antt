-- ===== src/Vm/Arrays.antt =====
-- The opcodes on dimensioned arrays, and those that move an array to and from a record.
use gemini_system.Prelude.{
  ℕ, zero, suc, Bool, true, false, List, [], ◌∷◌, Option, none, some, Text, text_eq, if◌then◌else◌,
  ℤ, pos, negsuc, ltb, nat_beq, length, get_elem?, positive, map,
}
use gemini_system.Prelude.Assoc.{find, put}
use gemini_system.Records.{
  StructuredRecord, Attributes, empty_record, from_raw, to_raw, attribute, set_attribute,
}
use gemini_system.Vm.Values.{Value, int, str, coerce_to_int, value_to_string, canonical_name}
use gemini_system.Vm.Machine.{
  push, pop, name_operand, writable, defined, pop_as_int, pop_as_text, lift, get, unless,
  return_value, fail, ◌>>=◌, ◌>>◌, Vm, Flow, next, Callees, Instruction, ok, string_of_operand,
  VmError, dim_size, not_dimensioned, index_out_of_bounds, mat_undefined, mat_operand,
  mat_dimension_mismatch, mat_count_mismatch,
}

abbrev pub fill : {F : Type 0} → ℕ → List (Value F)
fill zero = []
fill (suc n) = str [] ∷ fill n

-- A vector's element is replaced; out of range nothing happens.
unfoldable pub set_slot : {A : Type 0} → List A → ℕ → A → List A
set_slot [] idx v = []
set_slot (w ∷ ws) zero v = v ∷ ws
set_slot (w ∷ ws) (suc idx) v = w ∷ set_slot ws idx v

-- Arrays of integers have a name that ends in `%`.
unfoldable pub is_int_array : Text → Bool
is_int_array [] = false
is_int_array (c ∷ []) = nat_beq c b'%'
is_int_array (c ∷ (d ∷ cs)) = is_int_array (d ∷ cs)

abbrev pub before_bar : ℕ → Option (Text × Text) → Option (Text × Text)
before_bar d none = none
before_bar d (some (l, r)) = some (d ∷ l, r)

-- The text in front of the first `|`, and that behind it.
unfoldable pub split_bar : Text → Option (Text × Text)
split_bar [] = none
split_bar (c ∷ cs) = if nat_beq c b'|' then some ([], cs) else before_bar c (split_bar cs)

-- The greatest attribute number, or 0: the attributes are in the order of their numbers.
unfoldable pub last_number : Attributes → ℕ
last_number [] = 0
last_number ((k, v) ∷ []) = k
last_number ((k, v) ∷ (e ∷ m)) = last_number (e ∷ m)

abbrev pub index_of : ℤ → Option ℕ
index_of (pos zero) = none
index_of (pos (suc n)) = some n
index_of (negsuc n) = none

-- The place of an index that counts from 1, if it is in the array.
abbrev pub place_in : {A : Type 0} → List A → Option ℕ → Option ℕ
place_in slots none = none
place_in slots (some i) = if ltb i (length slots) then some i else none

module _ {F : Type 0} where
  unfoldable pub or_fail : {A : Type 0} → VmError → Option A → Vm F A
  or_fail e none = fail e
  or_fail e (some a) = return_value a

  unfoldable pub array : VmError → Text → Vm F (List (Value F))
  array e name = do r ← get; or_fail e (find name r.arrays)

  unfoldable pub set_array : Text → List (Value F) → Vm F (Unit {0})
  set_array name slots r = (ok tt, record r { arrays = put name slots r.arrays })

module _ {F : Type 0} (env : Callees F) where
  unfoldable pub exec_dim_array : Instruction F → Vm F Flow
  exec_dim_array i = do
    name ← name_operand i
    writable name
    size ← pop_as_int env
    n ← or_fail dim_size (positive size)
    set_array name (fill n)
    return_value next

  unfoldable pub exec_load_arr : Instruction F → Vm F Flow
  exec_load_arr i = do
    name ← name_operand i
    idx ← pop_as_int env
    slots ← array (not_dimensioned name) name
    k ← or_fail (index_out_of_bounds name) (place_in slots (index_of idx))
    v ← or_fail (index_out_of_bounds name) (get_elem? slots k)
    push v
    return_value next

  -- The index is on top, and the value under it.
  unfoldable pub exec_store_arr : Instruction F → Vm F Flow
  exec_store_arr i = do
    name ← name_operand i
    writable name
    idx ← pop_as_int env
    v ← pop
    slots ← array (not_dimensioned name) name
    k ← or_fail (index_out_of_bounds name) (place_in slots (index_of idx))
    set_array name (set_slot slots k v)
    return_value next

  abbrev pub int_slot : Option ℤ → Option (Value F)
  int_slot none = none
  int_slot (some z) = some (int z)

  -- What an array of integers, or any other, keeps of a value.
  abbrev pub slot_value : Bool → Value F → Option (Value F)
  slot_value true v = int_slot (coerce_to_int env.numerics v)
  slot_value false v = some v

  abbrev pub cons_slot : Option (Value F) → Option (List (Value F)) → Option (List (Value F))
  cons_slot none rest = none
  cons_slot (some v) none = none
  cons_slot (some v) (some vs) = some (v ∷ vs)

  -- The loops that assign to each slot; `none` is a cast that has no value.
  unfoldable pub slot_values : Bool → List (Value F) → Option (List (Value F))
  unfolding coerce_to_int
  slot_values int_array [] = some []
  slot_values int_array (v ∷ vs) = cons_slot (slot_value int_array v) (slot_values int_array vs)

  abbrev pub repeated : Value F → List (Value F) → List (Value F)
  repeated v slots = map (λ w. v) slots

  unfoldable pub exec_mat_init : Instruction F → Vm F Flow
  exec_mat_init i = do
    name ← name_operand i
    writable name
    scalar ← pop
    slots ← array (mat_undefined name) name
    vs ← defined (slot_values (is_int_array name) (repeated scalar slots))
    set_array name vs
    return_value next

  unfoldable pub exec_mat_copy : Instruction F → Vm F Flow
  exec_mat_copy i = do
    operand ← lift (string_of_operand i.op i.operand)
    (dst_name, src_name) ← or_fail mat_operand (split_bar operand)
    let dst = canonical_name dst_name
    let src = canonical_name src_name
    writable dst
    to ← array (mat_undefined dst) dst
    from ← array (mat_undefined src) src
    unless (nat_beq (length to) (length from)) mat_dimension_mismatch
    vs ← defined (slot_values (is_int_array dst) from)
    set_array dst vs
    return_value next

  -- Attributes 1, 2, … as values, one for each slot; a missing attribute is the empty text.
  unfoldable pub attribute_values : StructuredRecord → ℕ → List (Value F) → List (Value F)
  unfolding attribute
  attribute_values sr k [] = []
  attribute_values sr k (w ∷ ws) = str (attribute sr (pos k)) ∷ attribute_values sr (suc k) ws

  unfoldable pub exec_mat_load : Instruction F → Vm F Flow
  exec_mat_load i = do
    name ← name_operand i
    writable name
    raw ← pop_as_text env
    slots ← array (mat_undefined name) name
    let sr = from_raw raw
    unless (nat_beq (last_number sr.attributes) (length slots)) mat_count_mismatch
    vs ← defined (slot_values (is_int_array name) (attribute_values sr 1 slots))
    set_array name vs
    return_value next

  unfoldable pub store_slots : StructuredRecord → ℕ → List (Value F) → StructuredRecord
  unfolding set_attribute value_to_string
  store_slots sr k [] = sr
  store_slots sr k (v ∷ vs) =
      store_slots (set_attribute sr (pos k) (value_to_string env.numerics v)) (suc k) vs

  unfoldable pub exec_mat_store : Instruction F → Vm F Flow
  exec_mat_store i = do
    name ← name_operand i
    slots ← array (mat_undefined name) name
    push (str (to_raw (store_slots empty_record 1 slots)))
    return_value next
