-- ===== src/Vm/Arithmetic.antt =====
-- The opcodes on the top of the stack: constants, arithmetic, comparison and coercion.
use gemini_system.Prelude.{
  zero, suc, ◌^◌, Bool, true, false, ◌&&◌, not, List, [], ◌∷◌, ◌++◌, Option, none, some, Text, ℤ,
  pos, negsuc, ◌+ℤ◌, ◌-ℤ◌, ◌*ℤ◌, rem_ℤ, is_zero_ℤ, nat_beq,
}
use gemini_system.Vm.Values.{
  Value, int, flt, str, coerce_to_double, arithmetic_result, Order, below, same, above,
  compare_values,
}
use gemini_system.Vm.Machine.{
  push, pop, pop_int, pop_string, checked_int, defined, pop_as_int, pop_as_text, lift, get, unless,
  return_value, fail, ◌>>=◌, ◌>>◌, Vm, Flow, next, Callees, Instruction, OpCode, string_of_operand,
  int_of_operand, float_of_operand, undefined_behaviour, type_mismatch, divide_by_zero,
  modulo_by_zero, stack_underflow,
}

-- `a % b` has no value where `a / b` overflows.
abbrev pub remainder_defined : ℤ → ℤ → Bool
remainder_defined (pos a) b = true
remainder_defined (negsuc a) (pos b) = true
remainder_defined (negsuc a) (negsuc b) = not (nat_beq b 0 && nat_beq (suc a) (2 ^ 31))

module _ {F : Type 0} where
  unfoldable pub exec_push_int : Instruction F → Vm F Flow
  exec_push_int i = do z ← lift (int_of_operand i.op i.operand); push (int z); return_value next

  unfoldable pub exec_push_flt : Instruction F → Vm F Flow
  exec_push_flt i = do x ← lift (float_of_operand i.op i.operand); push (flt x); return_value next

  unfoldable pub exec_push_str : Instruction F → Vm F Flow
  exec_push_str i = do t ← lift (string_of_operand i.op i.operand); push (str t); return_value next

  unfoldable pub exec_concat : OpCode → Vm F Flow
  exec_concat op = do b ← pop_string op; a ← pop_string op; push (str (a ++ b)); return_value next

  unfoldable pub duplicate : List (Value F) → Vm F Flow
  duplicate [] = fail stack_underflow
  duplicate (v ∷ s) = do push v; return_value next

  unfoldable pub exec_dup : Vm F Flow
  exec_dup = do r ← get; duplicate r.stack

  unfoldable pub exec_drop : Vm F Flow
  exec_drop = do v ← pop; return_value next

  unfoldable pub exec_mod : OpCode → Vm F Flow
  exec_mod op = do
    b ← pop_int op
    a ← pop_int op
    unless (not (is_zero_ℤ b)) modulo_by_zero
    unless (remainder_defined a b) undefined_behaviour
    push (int (rem_ℤ a b))
    return_value next

abbrev pub is_same : Order → Bool
is_same same = true
is_same _ = false

abbrev pub is_below : Order → Bool
is_below below = true
is_below _ = false

abbrev pub is_above : Order → Bool
is_above above = true
is_above _ = false

-- 1 for true and 0 for false.
abbrev pub truth : Bool → ℤ
truth true = pos 1
truth false = pos 0

abbrev pub sign_of : ℤ → ℤ
sign_of (pos zero) = pos 0
sign_of (pos (suc n)) = pos 1
sign_of (negsuc n) = negsuc 0

-- The byte at the front, or 0.
abbrev pub first_byte : Text → ℤ
first_byte [] = pos 0
first_byte (c ∷ cs) = pos c

abbrev pub magnitude : ℤ → ℤ
magnitude (pos n) = pos n
magnitude (negsuc n) = pos (suc n)

module _ {F : Type 0} (env : Callees F) where
  abbrev pub both_ints : Value F → Value F → Option (ℤ × ℤ)
  both_ints (int a) (int b) = some (a, b)
  both_ints (int a) (flt b) = none
  both_ints (int a) (str b) = none
  both_ints (flt a) b = none
  both_ints (str a) b = none

  abbrev pub floating : (F → F → F) → Value F → Value F → Value F
  floating g a b =
      arithmetic_result env.numerics a b
        (g (coerce_to_double env.numerics a) (coerce_to_double env.numerics b))

  unfoldable pub combined : (ℤ → ℤ → ℤ) → Value F → Option (ℤ × ℤ) → Vm F (Value F)
  combined f other (some (a, b)) = do z ← checked_int (f a b); return_value (int z)
  combined f other none = return_value other

  -- `Add`, `Sub` and `Mul`, by their operation on `int` and on `double`.
  unfoldable pub exec_combine : (ℤ → ℤ → ℤ) → (F → F → F) → Vm F Flow
  exec_combine f g = do
    b ← pop
    a ← pop
    v ← combined f (floating g a b) (both_ints a b)
    push v
    return_value next

  unfoldable pub exec_add : Vm F Flow
  exec_add = exec_combine (λ a b. a +ℤ b) env.numerics.add

  unfoldable pub exec_sub : Vm F Flow
  exec_sub = exec_combine (λ a b. a -ℤ b) env.numerics.sub

  unfoldable pub exec_mul : Vm F Flow
  exec_mul = exec_combine (λ a b. a *ℤ b) env.numerics.mul

  unfoldable pub divided : F → Option (ℤ × ℤ) → Vm F (Value F)
  divided q (some (a, b)) = do z ← defined (env.numerics.to_int q); return_value (int z)
  divided q none = return_value (flt q)

  unfoldable pub exec_div : Vm F Flow
  exec_div = do
    b_val ← pop
    a_val ← pop
    let b = coerce_to_double env.numerics b_val
    let a = coerce_to_double env.numerics a_val
    unless (not (env.numerics.equal b (env.numerics.of_int (pos 0)))) divide_by_zero
    v ← divided (env.numerics.div a b) (both_ints a_val b_val)
    push v
    return_value next

  unfoldable pub ordered : OpCode → Option Order → Vm F Order
  ordered op none = fail (type_mismatch op)
  ordered op (some o) = return_value o

  -- The comparisons, by what they say of the result of `compareValues`.
  unfoldable pub exec_compare : OpCode → (Order → Bool) → Vm F Flow
  exec_compare op test = do
    b ← pop
    a ← pop
    o ← ordered op (compare_values env.numerics a b)
    push (int (truth (test o)))
    return_value next

  unfoldable pub exec_coerce_int : Vm F Flow
  exec_coerce_int = do z ← pop_as_int env; push (int z); return_value next

  unfoldable pub exec_coerce_flt : Vm F Flow
  exec_coerce_flt = do v ← pop; push (flt (coerce_to_double env.numerics v)); return_value next

  -- `std::abs`, which has no value at the least `int`.
  unfoldable pub exec_abs : Vm F Flow
  exec_abs = do z ← pop_as_int env; a ← checked_int (magnitude z); push (int a); return_value next

  unfoldable pub exec_sgn : Vm F Flow
  exec_sgn = do z ← pop_as_int env; push (int (sign_of z)); return_value next

  unfoldable pub exec_seq : Vm F Flow
  exec_seq = do t ← pop_as_text env; push (int (first_byte t)); return_value next
