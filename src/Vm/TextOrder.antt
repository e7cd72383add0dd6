-- ===== src/Vm/TextOrder.antt =====
-- The six comparisons on texts, and the order of `std::string`.
use gemini_system.Prelude.{
  Bool, not, List, [], ◌∷◌, Text, text_beq, text_eq, ◌≡◌, refl, ap, ◌∙◌, arith,
}
use gemini_system.Files.Handles.{text_leb}
use gemini_system.Vm.Values.{Value, int, str, Order, compare_texts, compare_values}
use gemini_system.Vm.Machine.{
  Runtime, Callees, OpCode, CallFuncOperand, Flow, Result, next, ok, ◌>>=◌, ◌>>◌, return_value,
  push, pop, popped,
}
use gemini_system.Vm.Arithmetic.{exec_compare, ordered, is_same, is_below, is_above, truth}
use gemini_system.Vm.Step.{execute}

compare_texts-same : (a b : Text) → is_same (compare_texts a b) ≡ text_beq a b
unfolding compare_texts text_beq
compare_texts-same [] [] = refl
compare_texts-same [] (y ∷ ys) = refl
compare_texts-same (x ∷ xs) [] = refl
compare_texts-same (x ∷ xs) (y ∷ ys) = ground (arith, compare_texts-same xs ys)

compare_texts-above : (a b : Text) → is_above (compare_texts a b) ≡ not (text_leb a b)
unfolding compare_texts text_leb
compare_texts-above [] [] = refl
compare_texts-above [] (y ∷ ys) = refl
compare_texts-above (x ∷ xs) [] = refl
compare_texts-above (x ∷ xs) (y ∷ ys) = ground (arith, compare_texts-above xs ys)

compare_texts-below : (a b : Text) → is_below (compare_texts a b) ≡ not (text_leb b a)
unfolding compare_texts text_leb
compare_texts-below [] [] = refl
compare_texts-below [] (y ∷ ys) = refl
compare_texts-below (x ∷ xs) [] = refl
compare_texts-below (x ∷ xs) (y ∷ ys) = ground (arith, compare_texts-below xs ys)

not-not : (b : Bool) → not (not b) ≡ b
not-not b = ground arith

module _ {F : Type 0} (env : Callees F) (operand : Value F) (call : CallFuncOperand) (r : Runtime F)
    (a b : Text) (s : List (Value F)) where
  -- What the opcode does where b stands on the stack, and a below it.
  abbrev pub on_texts : OpCode → Result Flow × Runtime F
  on_texts op =
      execute env op (record { op = op; operand = operand; call_func = call })
        (record r { stack = str b ∷ (str a ∷ s) })

  abbrev pub pushes_truth : Bool → Result Flow × Runtime F
  pushes_truth answer = (ok next, record r { stack = int (truth answer) ∷ s })

  compared :
      (op : OpCode) (test : Order → Bool)
      → exec_compare env op test (record r { stack = str b ∷ (str a ∷ s) })
        ≡ pushes_truth (test (compare_texts a b))
  unfolding exec_compare ordered compare_values ◌>>=◌ ◌>>◌ return_value push pop popped
  compared op test = refl

  -- On two texts the six comparisons take both from the stack and push 1 or 0: EQ and NE say whether
  -- they are the same bytes, and LT, LE, GT and GE how they stand in the order of `std::string`.
  pub text_comparison :
      (on_texts OpCode.eq ≡ pushes_truth (text_beq a b))
      × (on_texts OpCode.ne ≡ pushes_truth (not (text_beq a b)))
      × (on_texts OpCode.lt ≡ pushes_truth (not (text_leb b a)))
      × (on_texts OpCode.le ≡ pushes_truth (text_leb a b))
      × (on_texts OpCode.gt ≡ pushes_truth (not (text_leb a b)))
      × (on_texts OpCode.ge ≡ pushes_truth (text_leb b a))
  unfolding execute
  text_comparison = (
    compared OpCode.eq is_same ∙ ap pushes_truth (compare_texts-same a b),
    compared OpCode.ne (λ o. not (is_same o))
        ∙ ap (λ x. pushes_truth (not x)) (compare_texts-same a b),
    compared OpCode.lt is_below ∙ ap pushes_truth (compare_texts-below a b),
    compared OpCode.le (λ o. not (is_above o))
        ∙ ap pushes_truth (ap not (compare_texts-above a b) ∙ not-not (text_leb a b)),
    compared OpCode.gt is_above ∙ ap pushes_truth (compare_texts-above a b),
    compared OpCode.ge (λ o. not (is_below o))
        ∙ ap pushes_truth (ap not (compare_texts-below a b) ∙ not-not (text_leb b a)),
  )
