-- ===== src/Bytecode/WholeLines.antt =====
-- The line of an instruction is taken apart into the opcode's name and the operand.
use gemini_system.Prelude.{
  ℕ, Bool, true, false, ◌&&◌, [], ◌∷◌, ◌++◌, none, Text, ◌≡◌, refl, ap, leb, arith,
}
use gemini_system.Files.Host.{is_empty}
use gemini_system.Vm.Values.{trim, trim_front, trim_back, is_blank, is_space, skip_space}
use gemini_system.Vm.Machine.{OpCode}
use gemini_system.Bytecode.Names.{op_code_name}
use gemini_system.Bytecode.Lines.{split_label, outside, take_word, parse_line, starts_hash}

-- A letter or an underscore.
abbrev pub is_letter : ℕ → Bool
is_letter c = leb b'A' c && leb c b'_'

unfoldable pub all_letters : Text → Bool
all_letters [] = true
all_letters (c ∷ cs) = is_letter c && all_letters cs

abbrev pub IsWord : Text → Type 0
IsWord [] = ⊥
IsWord (c ∷ cs) = all_letters (c ∷ cs) ≡ true

take_word-letters :
    (w : Text) (o : Text) → all_letters w ≡ true → take_word (w ++ (b' ' ∷ o)) ≡ (w, b' ' ∷ o)
unfolding take_word is_space all_letters
take_word-letters [] o h = refl
take_word-letters (c ∷ cs) o h = ground (arith, take_word-letters cs o)

take_word-only : (w : Text) → all_letters w ≡ true → take_word w ≡ (w, [])
unfolding take_word is_space all_letters
take_word-only [] h = refl
take_word-only (c ∷ cs) h = ground (arith, take_word-only cs)

split_label-letters :
    (w x : Text)
    → all_letters w ≡ true
    → split_label outside x ≡ none
    → split_label outside (w ++ x) ≡ none
unfolding split_label all_letters
split_label-letters [] x h k = k
split_label-letters (c ∷ cs) x h k = ground (arith, split_label-letters cs x)

trim_back-more :
    (w : Text) (d : ℕ) (ds : Text)
    → trim_back (d ∷ ds) ≡ d ∷ ds
    → trim_back (w ++ (d ∷ ds)) ≡ w ++ (d ∷ ds)
unfolding trim_back
trim_back-more [] d ds h = h
trim_back-more (c ∷ []) d ds h = rw h refl
trim_back-more (c ∷ (e ∷ cs)) d ds h = rw (trim_back-more (e ∷ cs) d ds h) refl

parse_line-taken :
    (line w x : Text)
    → trim line ≡ line
    → is_empty line ≡ false
    → starts_hash line ≡ false
    → split_label outside line ≡ none
    → skip_space line ≡ line
    → take_word line ≡ (w, x)
    → parse_line line ≡ record { label = []; opcode = w; operand = trim x; source_line = 0 }
unfolding parse_line
parse_line-taken line w x trimmed full no_hash no_label there taken =
    rw (trimmed, full, no_hash, no_label, there, taken) refl

-- What a line that begins with a word is, up to its label and what stands behind the word.
word-front :
    (w x : Text)
    → IsWord w
    → (trim_front (w ++ x) ≡ w ++ x)
      × (is_empty (w ++ x) ≡ false)
      × (starts_hash (w ++ x) ≡ false)
      × (skip_space (w ++ x) ≡ w ++ x)
unfolding trim_front is_blank skip_space is_space all_letters
word-front [] x h = absurd h
word-front (c ∷ cs) x h = (ground arith, refl, ground arith, ground arith)

word-letters : (w : Text) → IsWord w → all_letters w ≡ true
word-letters [] h = absurd h
word-letters (c ∷ cs) h = h

pub parse_line-operand :
    (w : Text) (d : ℕ) (ds : Text)
    → IsWord w
    → trim (d ∷ ds) ≡ d ∷ ds
    → trim_back (d ∷ ds) ≡ d ∷ ds
    → split_label outside (d ∷ ds) ≡ none
    → parse_line (w ++ (b' ' ∷ (d ∷ ds)))
      ≡ record { label = []; opcode = w; operand = d ∷ ds; source_line = 0 }
parse_line-operand w d ds word trimmed ends no_label =
    let o : Text = b' ' ∷ (d ∷ ds) in
    let (front, full, no_hash, there) = word-front w o word in
    let letters = word-letters w word in
    let behind : trim_back o ≡ o = trim_back-more (b' ' ∷ []) d ds ends in
    let whole : trim (w ++ o) ≡ w ++ o = rw front (trim_back-more w (b' ') (d ∷ ds) behind) in
    let unlabelled : split_label outside o ≡ none = unfold split_label in rw no_label refl in
    let blank : trim o ≡ d ∷ ds = unfold trim_front is_blank in trimmed in
    rw blank at (
      parse_line-taken (w ++ o) w o whole full no_hash (split_label-letters w o letters unlabelled)
        there (take_word-letters w (d ∷ ds) letters))

++-nil : (w : Text) → w ++ [] ≡ w
++-nil [] = refl
++-nil (c ∷ cs) = ap (λ t. c ∷ t) (++-nil cs)

trim_back-letters : (w : Text) → all_letters w ≡ true → trim_back w ≡ w
unfolding trim_back is_blank all_letters
trim_back-letters [] h = refl
trim_back-letters (c ∷ cs) h = ground (arith, trim_back-letters cs)

pub parse_line-word :
    (w : Text)
    → IsWord w
    → parse_line w ≡ record { label = []; opcode = w; operand = []; source_line = 0 }
parse_line-word w word =
    let (front, full, no_hash, there) = rw (++-nil w) at (word-front w [] word) in
    let letters = word-letters w word in
    let whole : trim w ≡ w = rw front (trim_back-letters w letters) in
    let unlabelled =
      rw (++-nil w) at (split_label-letters w [] letters (unfold split_label in refl)) in
    let nothing : trim [] ≡ [] = unfold trim_front trim_back in refl in
    rw nothing at
      (parse_line-taken w w [] whole full no_hash unlabelled there (take_word-only w letters))

-- What stands behind the opcode's name: nothing, or a space and a text with no blank at its ends and
-- no colon that would make a label.
abbrev pub IsOperandText : Text → Type 0
IsOperandText [] = Unit
IsOperandText (c ∷ []) = ⊥
IsOperandText (c ∷ (d ∷ ds)) =
    (c ≡ b' ')
    × (trim (d ∷ ds) ≡ d ∷ ds)
    × (trim_back (d ∷ ds) ≡ d ∷ ds)
    × (split_label outside (d ∷ ds) ≡ none)

pub spaced-IsOperandText :
    (o : Text)
    → is_empty o ≡ false
    → trim o ≡ o
    → trim_back o ≡ o
    → split_label outside o ≡ none
    → IsOperandText (b' ' ∷ o)
spaced-IsOperandText [] full h k l = absurd (ground arith)
spaced-IsOperandText (d ∷ ds) full h k l = (refl, h, k, l)

pub parse_line-text :
    (w text : Text)
    → IsWord w
    → IsOperandText text
    → parse_line (w ++ text)
      ≡ record { label = []; opcode = w; operand = trim text; source_line = 0 }
parse_line-text w [] word h =
    let nothing : trim [] ≡ [] = unfold trim_front trim_back in refl in
    rw (++-nil w, nothing) (parse_line-word w word)
parse_line-text w (c ∷ []) word h = absurd h
parse_line-text w (c ∷ (d ∷ ds)) word (space, h, k, l) =
    let blank : trim (b' ' ∷ (d ∷ ds)) ≡ d ∷ ds = unfold trim_front is_blank in h in
    rw (space, blank) (parse_line-operand w d ds word h k l)

pub op_code_name-IsWord : (op : OpCode) → IsWord (op_code_name op)
unfolding op_code_name all_letters
op_code_name-IsWord OpCode.halt = refl
op_code_name-IsWord OpCode.push_int = refl
op_code_name-IsWord OpCode.push_flt = refl
op_code_name-IsWord OpCode.push_str = refl
op_code_name-IsWord OpCode.add = refl
op_code_name-IsWord OpCode.sub = refl
op_code_name-IsWord OpCode.mul = refl
op_code_name-IsWord OpCode.div = refl
op_code_name-IsWord OpCode.mod_op = refl
op_code_name-IsWord OpCode.eq = refl
op_code_name-IsWord OpCode.ne = refl
op_code_name-IsWord OpCode.lt = refl
op_code_name-IsWord OpCode.le = refl
op_code_name-IsWord OpCode.gt = refl
op_code_name-IsWord OpCode.ge = refl
op_code_name-IsWord OpCode.concat = refl
op_code_name-IsWord OpCode.dup = refl
op_code_name-IsWord OpCode.drop = refl
op_code_name-IsWord OpCode.print_int = refl
op_code_name-IsWord OpCode.print_str = refl
op_code_name-IsWord OpCode.print_val = refl
op_code_name-IsWord OpCode.print_eol = refl
op_code_name-IsWord OpCode.print_char = refl
op_code_name-IsWord OpCode.input_int = refl
op_code_name-IsWord OpCode.input_str = refl
op_code_name-IsWord OpCode.input_flt = refl
op_code_name-IsWord OpCode.coerce_int = refl
op_code_name-IsWord OpCode.coerce_flt = refl
op_code_name-IsWord OpCode.jump = refl
op_code_name-IsWord OpCode.jump_if_zero = refl
op_code_name-IsWord OpCode.call = refl
op_code_name-IsWord OpCode.return = refl
op_code_name-IsWord OpCode.for_setup = refl
op_code_name-IsWord OpCode.for_next = refl
op_code_name-IsWord OpCode.dim_array = refl
op_code_name-IsWord OpCode.load_arr = refl
op_code_name-IsWord OpCode.store_arr = refl
op_code_name-IsWord OpCode.mat_init = refl
op_code_name-IsWord OpCode.mat_copy = refl
op_code_name-IsWord OpCode.mat_load_from_rec = refl
op_code_name-IsWord OpCode.mat_store_to_rec = refl
op_code_name-IsWord OpCode.clear_vars = refl
op_code_name-IsWord OpCode.abs_int = refl
op_code_name-IsWord OpCode.sgn_int = refl
op_code_name-IsWord OpCode.seq_str = refl
op_code_name-IsWord OpCode.invoke_builtin = refl
op_code_name-IsWord OpCode.call_func = refl
op_code_name-IsWord OpCode.open_file = refl
op_code_name-IsWord OpCode.open_file_try = refl
op_code_name-IsWord OpCode.read_rec = refl
op_code_name-IsWord OpCode.read_rec_try = refl
op_code_name-IsWord OpCode.read_rec_u = refl
op_code_name-IsWord OpCode.read_rec_u_try = refl
op_code_name-IsWord OpCode.write_rec = refl
op_code_name-IsWord OpCode.write_rec_try = refl
op_code_name-IsWord OpCode.write_rec_u = refl
op_code_name-IsWord OpCode.write_rec_u_try = refl
op_code_name-IsWord OpCode.release_rec = refl
op_code_name-IsWord OpCode.read_next = refl
op_code_name-IsWord OpCode.read_next_try = refl
op_code_name-IsWord OpCode.read_v = refl
op_code_name-IsWord OpCode.read_v_try = refl
op_code_name-IsWord OpCode.write_v = refl
op_code_name-IsWord OpCode.write_v_try = refl
op_code_name-IsWord OpCode.extract_attr = refl
op_code_name-IsWord OpCode.resolve_dict_attr = refl
op_code_name-IsWord OpCode.chain = refl
op_code_name-IsWord OpCode.close_file = refl
op_code_name-IsWord OpCode.set_on_error_handler = refl
op_code_name-IsWord OpCode.load_var = refl
op_code_name-IsWord OpCode.store_var = refl
