-- ===== src/Vm/ArrayBounds.antt =====
-- Storing to an array and loading from it, in its bounds and out of them.
use gemini_system.Prelude.{
  ℕ, zero, suc, ◌<◌, true, false, List, [], ◌∷◌, Option, none, some, Text, text_eq, ◌≡◌, refl, ltb,
  nat_beq, ℤ, pos, negsuc, fits_int, length, get_elem?, if◌then◌else◌, arith, inl, inr, Bool-cases,
  ◌≤ℤ◌,
}
use gemini_system.Prelude.Assoc.{find, put}
use gemini_system.Vm.Reasoning.{IntsAreExact, find-put_same}
use gemini_system.Vm.Values.{Value, int, str, canonical_name, is_read_only_name}
use gemini_system.Vm.Machine.{
  Runtime, Callees, Instruction, CallFuncOperand, OpCode, Flow, next, Result, ok, raise, ◌>>=◌,
  ◌>>◌, return_value, fail, lift, get, unless, push, pop, popped, name_operand, pop_as_int,
  writable, defined, index_out_of_bounds,
}
use gemini_system.Vm.Arrays.{
  or_fail, array, set_array, set_slot, exec_load_arr, exec_store_arr, index_of, place_in,
}

pub get_elem?-set_slot :
    {A : Type 0} (ws : List A) (k j : ℕ) (v : A)
    → k < length ws
    → get_elem? (set_slot ws k v) j ≡ (if nat_beq j k then some v else get_elem? ws j)
unfolding set_slot
get_elem?-set_slot [] k j v h = absurd (ground arith)
get_elem?-set_slot (w ∷ ws) zero zero v h = ground arith
get_elem?-set_slot (w ∷ ws) zero (suc j) v h = ground arith
get_elem?-set_slot (w ∷ ws) (suc k) zero v h = ground arith
get_elem?-set_slot (w ∷ ws) (suc k) (suc j) v h = ground (arith, get_elem?-set_slot ws k j v)

pub length-set_slot :
    {A : Type 0} (ws : List A) (k : ℕ) (v : A) → length (set_slot ws k v) ≡ length ws
unfolding set_slot
length-set_slot [] k v = refl
length-set_slot (w ∷ ws) zero v = refl
length-set_slot (w ∷ ws) (suc k) v = rw (length-set_slot ws k v)

-- What the load gives, by the value that is found.
abbrev pub loaded :
    {F : Type 0} → Text → Option (Value F) → List (Value F) → Runtime F → Result Flow × Runtime F
loaded name none s r = (raise (index_out_of_bounds name), record r { stack = s })
loaded name (some v) s r = (ok next, record r { stack = v ∷ s })

abbrev pub element : {A : Type 0} → List A → Option ℕ → Option A
element ws none = none
element ws (some k) = get_elem? ws k

get_elem?-out :
    {A : Type 0} (ws : List A) (k : ℕ) → ltb k (length ws) ≡ false → get_elem? ws k ≡ none
get_elem?-out [] k h = ground arith
get_elem?-out (w ∷ ws) zero h = absurd (ground arith)
get_elem?-out (w ∷ ws) (suc k) h = get_elem?-out ws k (ground arith)

get_elem?-in :
    {A : Type 0} (ws : List A) (k : ℕ)
    → ltb k (length ws) ≡ true
    → (v : A) × (get_elem? ws k ≡ some v)
get_elem?-in [] k h = absurd (ground arith)
get_elem?-in (w ∷ ws) zero h = (w, refl)
get_elem?-in (w ∷ ws) (suc k) h = get_elem?-in ws k (ground arith)

-- What the store gives, by the place that it found.
abbrev pub stored :
    {F : Type 0}
    → Text
    → List (Value F)
    → Value F
    → Option ℕ
    → List (Value F)
    → Runtime F
    → Result Flow × Runtime F
stored name slots v none s r = (raise (index_out_of_bounds name), record r { stack = s })
stored name slots v (some k) s r =
    (ok next, record r { stack = s; arrays = put name (set_slot slots k v) r.arrays })

module _ {F : Type 0} (name : Text) (r : Runtime F) (s slots : List (Value F)) where
  fetch_lem :
      (o : Option ℕ)
      → (or_fail (index_out_of_bounds name) (place_in slots o) >>= λ k.
            or_fail (index_out_of_bounds name) (get_elem? slots k) >>= λ v.
            push v >> return_value next)
          (record r { stack = s })
        ≡ loaded name (element slots o) s r
  unfolding ◌>>=◌ ◌>>◌ or_fail push return_value fail
  fetch_lem none = refl
  fetch_lem (some k) = elim (Bool-cases (ltb k (length slots))) [
    | inl inside ↦ let (v, e) = get_elem?-in slots k inside in rw (inside, e)
    | inr out ↦ rw (out, get_elem?-out slots k out)
  ]

  store_lem :
      (v : Value F) (o : Option ℕ)
      → (or_fail (index_out_of_bounds name) o >>= λ k.
            set_array name (set_slot slots k v) >> return_value next)
          (record r { stack = s })
        ≡ stored name slots v o s r
  unfolding ◌>>=◌ ◌>>◌ or_fail set_array return_value fail
  store_lem v none = refl
  store_lem v (some k) = refl

module _ {F : Type 0} (env : Callees F) (exact : IntsAreExact env) (op : OpCode) (raw : Text)
    (call : CallFuncOperand) where
  abbrev pub named : Instruction F
  named = record { op = op; operand = str raw; call_func = call }

  load_arr_lem :
      (r : Runtime F) (z : ℤ) (s : List (Value F)) (slots : List (Value F))
      → fits_int z ≡ true
      → find (canonical_name raw) r.arrays ≡ some slots
      → exec_load_arr env named (record r { stack = int z ∷ s })
        ≡ loaded (canonical_name raw) (element slots (index_of z)) s r
  unfolding exec_load_arr ◌>>=◌ ◌>>◌ name_operand pop_as_int pop popped array or_fail get lift push
      defined return_value fail
  load_arr_lem r z s slots fits found =
      rw (exact z fits, found) (fetch_lem (canonical_name raw) r s slots (index_of z))

  store_arr_lem :
      (r : Runtime F) (z : ℤ) (v : Value F) (s : List (Value F)) (slots : List (Value F))
      → fits_int z ≡ true
      → is_read_only_name (canonical_name raw) ≡ false
      → find (canonical_name raw) r.arrays ≡ some slots
      → exec_store_arr env named (record r { stack = int z ∷ (v ∷ s) })
        ≡ stored (canonical_name raw) slots v (place_in slots (index_of z)) s r
  unfolding exec_store_arr ◌>>=◌ ◌>>◌ name_operand writable unless pop_as_int pop popped array
      or_fail get lift defined return_value fail
  store_arr_lem r z v s slots fits free found =
      rw (free, exact z fits, found)
        (store_lem (canonical_name raw) r s slots v (place_in slots (index_of z)))

  place_in-outside :
      (slots : List (Value F)) (z : ℤ)
      → ((pos 1 ≤ℤ z) × (z ≤ℤ pos (length slots)) → ⊥)
      → (place_in slots (index_of z) ≡ none) × (element slots (index_of z) ≡ none)
  place_in-outside slots (pos zero) h = (refl, refl)
  place_in-outside slots (negsuc n) h = (refl, refl)
  place_in-outside slots (pos (suc n)) h = elim (Bool-cases (ltb n (length slots))) [
    | inl inside ↦ absurd (h (ground arith, ground arith))
    | inr out ↦ (rw out, get_elem?-out slots n out)
  ]

  -- A value that is stored at place k of a dimensioned array, counted from 1 as k + 1, is what a load
  -- at that place pushes; at every other place a load finds what was there, or is out of bounds, as
  -- before the store. The name must not be one of the system, and the numbers must be exact as
  -- doubles.
  pub load-store_arr :
      (r : Runtime F) (k j : ℕ) (v : Value F) (s : List (Value F)) (slots : List (Value F))
      → fits_int (pos (suc k)) ≡ true
      → fits_int (pos (suc j)) ≡ true
      → is_read_only_name (canonical_name raw) ≡ false
      → find (canonical_name raw) r.arrays ≡ some slots
      → k < length slots
      → let after = exec_store_arr env named (record r { stack = int (pos (suc k)) ∷ (v ∷ s) }) in
        (after.0 ≡ ok next)
        × (after.1.stack ≡ s)
        × (exec_load_arr env named (record after.1 { stack = int (pos (suc j)) ∷ s })
            ≡ loaded
                (canonical_name raw)
                (if nat_beq j k then some v else get_elem? slots j)
                s
                after.1)
  load-store_arr r k j v s slots fits_k fits_j free found inside =
      let name = canonical_name raw in
      let after : Runtime F = record r {
        stack = s;
        arrays = put name (set_slot slots k v) r.arrays;
      } in
      let place : place_in slots (some k) ≡ some k = ground arith in
      let done : exec_store_arr env named (record r { stack = int (pos (suc k)) ∷ (v ∷ s) })
          ≡ (ok next, after) =
        rw place at (store_arr_lem r (pos (suc k)) v s slots fits_k free found) in
      let kept : find name after.arrays ≡ some (set_slot slots k v) =
        find-put_same name _ r.arrays in
      let fetched = load_arr_lem after (pos (suc j)) s (set_slot slots k v) fits_j kept in
      rw done (refl, refl, rw (get_elem?-set_slot slots k j v inside) at fetched)

  -- An index below 1 or above the length of the array is refused: neither the store nor the load
  -- changes the array or pushes anything, and both report the array by its name.
  pub array_bounds :
      (r : Runtime F) (z : ℤ) (v : Value F) (s : List (Value F)) (slots : List (Value F))
      → fits_int z ≡ true
      → is_read_only_name (canonical_name raw) ≡ false
      → find (canonical_name raw) r.arrays ≡ some slots
      → ((pos 1 ≤ℤ z) × (z ≤ℤ pos (length slots)) → ⊥)
      → (exec_store_arr env named (record r { stack = int z ∷ (v ∷ s) })
          ≡ (raise (index_out_of_bounds (canonical_name raw)), record r { stack = s }))
        × (exec_load_arr env named (record r { stack = int z ∷ s })
            ≡ (raise (index_out_of_bounds (canonical_name raw)), record r { stack = s }))
  array_bounds r z v s slots fits free found out =
      let (no_place, no_element) = place_in-outside slots z out in
      (
        rw (store_arr_lem r z v s slots fits free found, no_place),
        rw (load_arr_lem r z s slots fits found, no_element),
      )
