-- ===== src/Vm/Loops.antt =====
-- How often a FOR loop of a program runs its body, and in what state the run is behind it.
use gemini_system.Prelude.{
  ℕ, zero, suc, ◌+◌, ◌-◌, ◌*◌, ◌<◌, ◌≤◌, Bool, true, false, List, ◌∷◌, some, Text, text_eq, ◌≡◌,
  refl, ap, sym, subst, ◌∙◌, ltb, ℤ, fits_int, ◌+ℤ◌, arith,
}
use gemini_system.Prelude.Assoc.{put}
use gemini_system.Vm.Values.{int, canonical_name, Value}
use gemini_system.Vm.Reasoning.{IntsAreExact, find-put_same}
use gemini_system.Vm.Machine.{Runtime, ForFrame, Callees, Instruction, CallFuncOperand}
use gemini_system.Vm.Control.{is_done}
use gemini_system.Vm.LoopNumbers.{
  along, +ℤ-along-along, is_done_lem, fits_int-between, is_zero_ℤ-along, +ℤ-along_zero, mul_mono,
}
use gemini_system.Vm.LoopStates.{
  IsAt, loop_frame, opened, after_next, IsForLoop, Reaches, Reaches-trans, RunsTo, Reaches-RunsTo,
}
use gemini_system.Vm.LoopSteps.{for_setup_lem, for_next_lem}

-- What holds of a state after a number of rounds does not depend on what FOR and NEXT change.
abbrev pub IgnoresLoop : {F : Type 0} → Text → (ℕ → Runtime F → Type 0) → Type 0
IgnoresLoop {F} name Inv =
    (j : ℕ) (r : Runtime F) (ip : ℕ) (loops : List ForFrame) (v : ℤ)
    → Inv j r
    → Inv j (record r { ip = ip; for_stack = loops; variables = put name (int v) r.variables })

module _ {F : Type 0} (env : Callees F) (exact : IntsAreExact env) (program : List (Instruction F))
    (start end : ℕ) (for_name next_name : Text) (c c' : CallFuncOperand)
    (loop : IsForLoop program start end for_name next_name c c') (rest : List ForFrame) (up : Bool)
    (cur : ℤ) (gap d n : ℕ) (low : n * suc d ≤ gap) (high : gap < suc n * suc d)
    (fits : fits_int cur ≡ true) (fits_last : fits_int (cur +ℤ along up (suc n * suc d)) ≡ true)
    (Inv : ℕ → Runtime F → Type 0) (ignores : IgnoresLoop (canonical_name for_name) Inv) where
  -- The variable after so many rounds.
  abbrev value : ℕ → ℤ
  value j = cur +ℤ along up (j * suc d)

  abbrev frame : ForFrame
  frame = loop_frame for_name start (cur +ℤ along up gap) (along up (suc d))

  value-suc : (j : ℕ) → value j +ℤ along up (suc d) ≡ value (suc j)
  value-suc j =
      let further : j * suc d + suc d ≡ suc j * suc d = ground arith in
      +ℤ-along-along up cur (j * suc d) (suc d) ∙ ap (λ k. cur +ℤ along up k) further

  value-fits : (j : ℕ) → j ≤ suc n → fits_int (value j) ≡ true
  value-fits j le =
      let before : j * suc d ≤ suc n * suc d = mul_mono j (suc n) (suc d) le in
      fits_int-between up cur (j * suc d) (suc n * suc d) before fits fits_last

  is_done-value :
      (j : ℕ)
      → j * suc d ≤ gap
      → is_done frame (value j +ℤ along up (suc d)) ≡ ltb (gap - j * suc d) (suc d)
  is_done-value j within =
      let split : j * suc d + (gap - j * suc d) ≡ gap = omega arith in
      let limit : cur +ℤ along up gap ≡ value j +ℤ along up (gap - j * suc d) =
        sym (
          +ℤ-along-along up cur (j * suc d) (gap - j * suc d)
          ∙ ap (λ k. cur +ℤ along up k) split) in
      is_done_lem up frame (value j) (gap - j * suc d) d refl limit

  -- Whether NEXT leaves the loop: it does behind round n + 1, and not before.
  last : (j : ℕ) → j ≡ n → is_done frame (value j +ℤ along up (suc d)) ≡ true
  last j e =
      let at_n : j * suc d ≡ n * suc d = ap (λ k. k * suc d) e in
      let more : suc n * suc d ≡ n * suc d + suc d = omega arith in
      is_done-value j (omega arith) ∙ ground arith

  not_last : (j : ℕ) → j < n → is_done frame (value j +ℤ along up (suc d)) ≡ false
  not_last j lt =
      let before : suc j * suc d ≤ n * suc d = mul_mono (suc j) n (suc d) lt in
      let more : suc j * suc d ≡ j * suc d + suc d = omega arith in
      is_done-value j (omega arith) ∙ ground arith

  -- A round of the body: from behind FOR to NEXT, one round further.
  abbrev pub RunsBody : Type 0
  RunsBody =
      (j : ℕ) (r : Runtime F)
      → j ≤ n
      → IsAt program (canonical_name for_name) (suc start) (frame ∷ rest) (value j) r
      → Inv j r
      → (r' : Runtime F) × Reaches env r r'
        × IsAt program (canonical_name for_name) end (frame ∷ rest) (value j) r'
        × Inv (suc j) r'

  abbrev pub LeavesLoop : (Runtime F → Runtime F → Type 0) → Runtime F → Type 0
  LeavesLoop GetsTo r =
      (after : Runtime F) × GetsTo r after
      × IsAt program (canonical_name for_name) (suc end) rest (value (suc n)) after
      × Inv (suc n) after

  round_lem :
      (j : ℕ) (r : Runtime F) (b : Bool)
      → j ≤ n
      → is_done frame (value j +ℤ along up (suc d)) ≡ b
      → IsAt program (canonical_name for_name) end (frame ∷ rest) (value j) r
      → Reaches env r (after_next end b frame rest (value (suc j)) r)
  round_lem j r b le done at =
      subst (λ v. Reaches env r (after_next end b frame rest v r)) (value-suc j)
        (subst (λ x. Reaches env r (after_next end x frame rest (value j +ℤ along up (suc d)) r))
          done
          (for_next_lem env exact program start end for_name next_name c c' loop r
            (cur +ℤ along up gap) (along up (suc d)) rest (value j) at (value-fits j (omega arith))
            (subst (λ v. fits_int v ≡ true) (sym (value-suc j))
              (value-fits (suc j) (omega arith)))))

  left_behind :
      (j : ℕ) (r : Runtime F)
      → j ≡ n
      → IsAt program (canonical_name for_name) end (frame ∷ rest) (value j) r
      → Inv (suc j) r
      → LeavesLoop (Reaches env) r
  left_behind j r e at inv =
      let after = after_next end true frame rest (value (suc j)) r in
      let here : suc j ≡ suc n = omega arith in
      (
        after,
        round_lem j r true (omega arith) (last j e) at,
        record {
          program_is = at.program_is;
          ip_is = refl;
          running = at.running;
          loops_are = refl;
          value_is =
              find-put_same (canonical_name for_name) (int (value (suc j))) r.variables
              ∙ ap (λ k. some (int (value k))) here;
        },
        subst (λ k. Inv k after) here (ignores (suc j) r (suc end) rest (value (suc j)) inv),
      )

  rounds :
      RunsBody
      → (left j : ℕ) (r : Runtime F) → j + left ≡ n
      → IsAt program (canonical_name for_name) (suc start) (frame ∷ rest) (value j) r
      → Inv j r
      → LeavesLoop (Reaches env) r
  rounds body zero j r e at inv =
      let (r', run_body, at', inv') = body j r (omega arith) at inv in
      let (after, leaves, at_end, inv_end) = left_behind j r' (omega arith) at' inv' in
      (after, Reaches-trans env r r' after run_body leaves, at_end, inv_end)
  rounds body (suc left) j r e at inv =
      let (r', run_body, at', inv') = body j r (omega arith) at inv in
      let again = after_next end false frame rest (value (suc j)) r' in
      let turns = round_lem j r' false (omega arith) (not_last j (omega arith)) at' in
      let (after, leaves, at_end, inv_end) =
        rounds body left (suc j) again (omega arith)
          record {
            program_is = at'.program_is;
            ip_is = refl;
            running = at'.running;
            loops_are = at'.loops_are;
            value_is = find-put_same (canonical_name for_name) (int (value (suc j))) r'.variables;
          }
          (ignores (suc j) r' (suc start) r'.for_stack (value (suc j)) inv') in
      (
        after,
        Reaches-trans env r r' after run_body (Reaches-trans env r' again after turns leaves),
        at_end,
        inv_end,
      )

  -- A FOR loop whose step of d + 1, upwards or downwards, goes n times into the gap between the first
  -- value of its variable and its limit. A run that comes to FOR gets, instruction by instruction,
  -- to the instruction behind NEXT after the body has run n + 1 times: what a round advances, `Inv`,
  -- has been advanced n + 1 times, the loop is gone from the stack of loops, and the variable is the
  -- first value past the limit. The body must lead from behind FOR to NEXT and leave the variable,
  -- the stack of loops and the program; the step and the first and last value of the variable must
  -- fit an `int`, and ints be exact as doubles; the run must not be interrupted; `Inv` must not
  -- depend on what FOR and NEXT change; NEXT has no name or that of the variable, which is none of
  -- the system's, and there is an instruction behind it.
  pub loop_ends :
      RunsBody
      → (r : Runtime F) (s : List (Value F))
      → IsAt program (canonical_name for_name) start rest cur r
      → r.stack ≡ int (along up (suc d)) ∷ (int (cur +ℤ along up gap) ∷ s)
      → fits_int (along up (suc d)) ≡ true
      → Inv 0 (opened r s frame)
      → LeavesLoop (RunsTo env) r
  loop_ends body r s at stack fits_step inv =
      let limit_fits = fits_int-between up cur gap (suc n * suc d) (omega arith) fits fits_last in
      let none_yet : 0 ≡ 0 * suc d = omega arith in
      let enters =
        for_setup_lem env exact program start end for_name next_name c c' loop r rest cur
          (cur +ℤ along up gap) (along up (suc d)) s at stack fits_step limit_fits
          (is_zero_ℤ-along up d) in
      let (after, leaves, at_end, inv_end) =
        rounds body n 0 (opened r s frame) (omega arith)
          record {
            program_is = at.program_is;
            ip_is = refl;
            running = at.running;
            loops_are = ap (λ l. frame ∷ l) at.loops_are;
            value_is =
                at.value_is
                ∙ ap (λ v. some (int v)) (+ℤ-along_zero up cur)
                ∙ ap (λ k. some (int (cur +ℤ along up k))) none_yet;
          }
          inv in
      (
        after,
        Reaches-RunsTo env r after (Reaches-trans env r (opened r s frame) after enters leaves),
        at_end,
        inv_end,
      )
