-- ===== src/Bytecode/Lines.antt =====
-- The lines of the text form, and the operands of an instruction (Parser.cpp).
use gemini_system.Prelude.{
  ℕ, ◌-◌, ◌%◌, ◌^◌, Bool, false, ◌&&◌, ◌||◌, List, [], ◌∷◌, Option, none, some, Text, codes,
  text_eq, ltb, nat_beq, ℤ, pos, negsuc, if◌then◌else◌,
}
use gemini_system.Files.Host.{is_empty}
use gemini_system.Vm.Values.{
  is_space, is_digit, scan_digits, skip_space, starts_digit, stoi_from, stoi, whole, trim,
  trim_front, trim_back,
}
use gemini_system.Vm.Machine.{CallFuncOperand}
use gemini_system.Bytecode.Printing.{backslash, quote}

pub record ParsedLine : Type 0 where
  pub label : Text
  pub opcode : Text
  pub operand : Text
  pub source_line : ℕ

abbrev pub no_line : ParsedLine
no_line = record { label = []; opcode = []; operand = []; source_line = 0 }

-- Where the search for the colon of a label stands: outside of a quoted text, in it, or behind a
-- backslash in it.
pub data Scan : Type 0 where
  outside inside escaped : Scan

abbrev pub after_char : Scan → ℕ → Scan
after_char outside c = if nat_beq c quote then inside else outside
after_char inside c =
    if nat_beq c backslash then escaped else if nat_beq c quote then outside else inside
after_char escaped c = inside

abbrev pub is_colon : Scan → ℕ → Bool
is_colon outside c = nat_beq c b':'
is_colon inside c = false
is_colon escaped c = false

abbrev pub in_front : ℕ → Option (Text × Text) → Option (Text × Text)
in_front c none = none
in_front c (some (l, r)) = some (c ∷ l, r)

-- The text in front of the first colon that is not quoted, and that behind it.
unfoldable pub split_label : Scan → Text → Option (Text × Text)
split_label state [] = none
split_label state (c ∷ cs) =
    let rest = in_front c (split_label (after_char state c) cs) in
    if is_colon state c then some ([], cs) else rest

-- `iss >> opcode`, and the rest of the line.
unfoldable pub take_word : Text → Text × Text
unfolding is_space
take_word [] = ([], [])
take_word (c ∷ cs) =
    let rest = take_word cs in if is_space c then ([], c ∷ cs) else (c ∷ rest.0, rest.1)

abbrev pub with_label : Text → Text → ParsedLine
with_label label line =
    let word = take_word (skip_space line) in
    record { label = label; opcode = word.0; operand = trim word.1; source_line = 0 }

abbrev pub labelled : Text → Option (Text × Text) → ParsedLine
labelled line none = with_label [] line
labelled line (some (l, r)) =
    if is_empty (trim r)
    then record { label = trim l; opcode = []; operand = []; source_line = 0 }
    else with_label (trim l) (trim r)

abbrev pub starts_hash : Text → Bool
starts_hash [] = false
starts_hash (c ∷ cs) = nat_beq c b'#'

unfoldable pub parse_line : Text → ParsedLine
unfolding split_label take_word skip_space trim_front trim_back
parse_line raw =
    let line = trim raw in
    if is_empty line || starts_hash line then no_line else labelled line (split_label outside line)

abbrev pub nonnegative : Option ℤ → Option ℕ
nonnegative none = none
nonnegative (some (pos n)) = some n
nonnegative (some (negsuc n)) = none

-- A number that is out of the range of an `int` is refused, whether `stoll` could read it or not.
unfoldable pub parse_nonnegative_int : Text → Option ℕ
unfolding stoi_from skip_space
parse_nonnegative_int t = nonnegative (whole (stoi t))

-- `std::stoull`, where a minus sign counts down from 2^64.
abbrev pub unsigned : (ℕ → ℕ) → Text → Option (ℕ × Text)
unsigned sign t =
    let scanned = scan_digits t 0 in
    if starts_digit t && ltb scanned.0 (2 ^ 64) then some (sign scanned.0, scanned.1) else none

unfoldable pub stoull_from : Text → Option (ℕ × Text)
unfolding scan_digits is_digit
stoull_from [] = none
stoull_from (c ∷ cs) =
    if nat_beq c b'-'
    then unsigned (λ n. (2 ^ 64 - n) % 2 ^ 64) cs
    else if nat_beq c b'+'
    then unsigned (λ n. n) cs
    else unsigned (λ n. n) (c ∷ cs)

abbrev pub below_32 : Option ℕ → Option ℕ
below_32 none = none
below_32 (some n) = if ltb n (2 ^ 32) then some n else none

unfoldable pub parse_uint32 : Text → Option ℕ
unfolding stoull_from skip_space
parse_uint32 t = below_32 (whole (stoull_from (skip_space t)))

-- What `getline` gives up to each separator; an empty text has no item, and nothing stands behind a
-- separator at the end.
abbrev pub onto : ℕ → List Text → List Text
onto c [] = (c ∷ []) ∷ []
onto c (item ∷ items) = (c ∷ item) ∷ items

unfoldable pub split_items : ℕ → Text → List Text
split_items separator [] = []
split_items separator (c ∷ cs) =
    let rest = split_items separator cs in if nat_beq c separator then [] ∷ rest else onto c rest

unfoldable pub nonempty_items : List Text → List Text
unfolding trim_front trim_back
nonempty_items [] = []
nonempty_items (item ∷ items) =
    let rest = nonempty_items items in if is_empty (trim item) then rest else trim item ∷ rest

abbrev pub call_of : Option ℕ → Option ℕ → Option ℕ → Option CallFuncOperand
call_of (some a) (some b) (some c) =
    some (record { namespace_id = a; function_id = b; arg_count = pos c })
call_of none b c = none
call_of (some a) none c = none
call_of (some a) (some b) none = none

abbrev pub three_items : List Text → Option CallFuncOperand
three_items (a ∷ (b ∷ (c ∷ []))) =
    call_of (parse_uint32 a) (parse_uint32 b) (parse_nonnegative_int c)
three_items [] = none
three_items (a ∷ []) = none
three_items (a ∷ (b ∷ [])) = none
three_items (a ∷ (b ∷ (c ∷ (d ∷ rest)))) = none

unfoldable pub parse_call_func_operands : Text → Option CallFuncOperand
unfolding split_items nonempty_items parse_uint32 parse_nonnegative_int
parse_call_func_operands operand = three_items (nonempty_items (split_items b',' operand))

abbrev pub escape_of : ℕ → Option ℕ
escape_of e =
    if nat_beq e backslash
    then some backslash
    else if nat_beq e quote
    then some quote
    else if nat_beq e b'n'
    then some b'\n'
    else if nat_beq e b'r'
    then some 13
    else if nat_beq e b't'
    then some 9
    else none

abbrev pub cons_some : Option ℕ → Option Text → Option Text
cons_some none rest = none
cons_some (some c) none = none
cons_some (some c) (some t) = some (c ∷ t)

-- The text between the quotes; `none` is an escape that is not known, or that the end cuts off.
unfoldable pub unescape : Text → Option Text
unescape [] = some []
unescape (c ∷ []) = if nat_beq c backslash then none else some (c ∷ [])
unescape (c ∷ (e ∷ cs)) =
    let behind_escape = unescape cs in
    let behind = unescape (e ∷ cs) in
    if nat_beq c backslash then cons_some (escape_of e) behind_escape else cons_some (some c) behind

-- Without the closing quote, if there is one.
unfoldable pub close_quote : Text → Option Text
close_quote [] = none
close_quote (c ∷ []) = if nat_beq c quote then some [] else none
close_quote (c ∷ (d ∷ cs)) = cons_some (some c) (close_quote (d ∷ cs))

abbrev pub unescape_or : Text → Option Text → Option Text
unescape_or token none = some token
unescape_or token (some inner) = unescape inner

-- A token that is not in quotes is taken as it stands.
unfoldable pub parse_quoted_string : Text → Option Text
unfolding unescape close_quote
parse_quoted_string [] = some []
parse_quoted_string (c ∷ cs) =
    if nat_beq c quote then unescape_or (c ∷ cs) (close_quote cs) else some (c ∷ cs)

abbrev pub cons_number : Option ℕ → Option (List ℤ) → Option (List ℤ)
cons_number none rest = none
cons_number (some n) none = none
cons_number (some n) (some ns) = some (pos n ∷ ns)

unfoldable pub read_numbers : List Text → Option (List ℤ)
unfolding parse_nonnegative_int trim_front trim_back
read_numbers [] = some []
read_numbers (item ∷ items) = cons_number (parse_nonnegative_int (trim item)) (read_numbers items)

abbrev pub prefix : Text
prefix = codes "#BASICLINES:"

-- What is behind the prefix, if the text has it.
unfoldable pub strip_prefix : Text → Text → Option Text
strip_prefix [] t = some t
strip_prefix (p ∷ ps) [] = none
strip_prefix (p ∷ ps) (c ∷ cs) = if nat_beq p c then strip_prefix ps cs else none

-- `parseBasicLinesMetadata`; an item that is empty is no number.
abbrev pub parse_basic_lines_metadata : Text → Option (List ℤ)
parse_basic_lines_metadata csv = read_numbers (split_items b',' csv)
