-- ===== src/Vm/Values.antt =====
-- The values of the machine, their coercions and comparison, and the lines that `INPUT` reads.
use gemini_system.Prelude.{
  ℕ, zero, suc, ◌+◌, ◌-◌, ◌*◌, ◌/◌, ◌%◌, ◌^◌, Bool, true, false, not, ◌&&◌, ◌||◌, [], ◌∷◌, Option,
  none, some, Text, codes, text_beq, ltb, leb, nat_beq, if◌then◌else◌, ℤ, pos, negsuc, fits_int,
  contains,
}
use gemini_system.Files.Host.{is_empty}

-- `std::variant<int, double, std::string>`; `F` is the type of a `double`.
pub data Value (F : Type 0) : Type 0 where
  int : ℤ → Value F
  flt : F → Value F
  str : Text → Value F

-- What the code uses of `double`. `to_int` is a cast, which has no defined value out of range;
-- `strtod` gives the number at the front and the text behind it, or nothing where no number is read
-- or `errno` is set; `print` is output with 15 digits.
pub record Numerics (F : Type 0) : Type 0 where
  pub of_int : ℤ → F
  pub add : F → F → F
  pub sub : F → F → F
  pub mul : F → F → F
  pub div : F → F → F
  pub less : F → F → Bool
  pub equal : F → F → Bool
  pub floor : F → F
  pub to_int : F → Option ℤ
  pub strtod : Text → Option (F × Text)
  pub print : F → Text

abbrev pub int_min : ℤ
int_min = negsuc (2 ^ 31 - 1)

abbrev pub int_max : ℤ
int_max = pos (2 ^ 31 - 1)

-- `std::to_string`, on fuel that is above the number of digits.
unfoldable pub decimal_from : ℕ → ℕ → Text → Text
decimal_from zero n acc = acc
decimal_from (suc fuel) n acc =
    let rest = decimal_from fuel (n / 10) ((b'0' + n % 10) ∷ acc) in
    if ltb n 10 then (b'0' + n % 10) ∷ acc else rest

abbrev pub decimal : ℕ → Text
decimal n = decimal_from (suc n) n []

unfoldable pub to_string : ℤ → Text
unfolding decimal_from
to_string (pos n) = decimal n
to_string (negsuc n) = b'-' ∷ decimal (suc n)

-- `while (!out.empty() && out.back() == '0') out.pop_back();`
unfoldable pub drop_zeros : Text → Text
drop_zeros [] = []
drop_zeros (c ∷ cs) =
    let rest = drop_zeros cs in if is_empty rest && nat_beq c b'0' then [] else c ∷ rest

unfoldable pub close_point : Text → Text
close_point [] = []
close_point (c ∷ []) = if nat_beq c b'.' then c ∷ (b'0' ∷ []) else c ∷ []
close_point (c ∷ (d ∷ cs)) = c ∷ close_point (d ∷ cs)

unfoldable pub trim_float : Text → Text
unfolding drop_zeros close_point contains
trim_float t = if contains b'.' t then close_point (drop_zeros t) else t

-- `std::isspace` in the C locale.
unfoldable pub is_space : ℕ → Bool
is_space c = nat_beq c b' ' || (leb 9 c && leb c 13)

unfoldable pub all_space : Text → Bool
unfolding is_space
all_space [] = true
all_space (c ∷ cs) = is_space c && all_space cs

-- One of " \t\r\n".
unfoldable pub is_blank : ℕ → Bool
is_blank c = nat_beq c 32 || (nat_beq c 9 || (nat_beq c 13 || nat_beq c 10))

unfoldable pub trim_front : Text → Text
unfolding is_blank
trim_front [] = []
trim_front (c ∷ cs) = if is_blank c then trim_front cs else c ∷ cs

unfoldable pub trim_back : Text → Text
unfolding is_blank
trim_back [] = []
trim_back (c ∷ cs) = let rest = trim_back cs in if is_empty rest && is_blank c then [] else c ∷ rest

abbrev pub trim : Text → Text
trim t = trim_back (trim_front t)

unfoldable pub is_digit : ℕ → Bool
is_digit c = leb b'0' c && leb c b'9'

-- The digits at the front, and what is behind them.
unfoldable pub scan_digits : Text → ℕ → ℕ × Text
unfolding is_digit
scan_digits [] n = (n, [])
scan_digits (c ∷ cs) n =
    let rest = scan_digits cs (n * 10 + (c - b'0')) in if is_digit c then rest else (n, c ∷ cs)

unfoldable pub skip_space : Text → Text
unfolding is_space
skip_space [] = []
skip_space (c ∷ cs) = if is_space c then skip_space cs else c ∷ cs

abbrev pub negated : ℕ → ℤ
negated zero = pos zero
negated (suc n) = negsuc n

abbrev pub starts_digit : Text → Bool
starts_digit [] = false
starts_digit (c ∷ cs) = is_digit c

-- A number of the given sign, if there is a digit and the number fits.
unfoldable pub signed : (ℕ → ℤ) → Text → Option (ℤ × Text)
unfolding scan_digits
signed sign t =
    let scanned = scan_digits t 0 in
    if starts_digit t && fits_int (sign scanned.0) then some (sign scanned.0, scanned.1) else none

-- `std::stoi`, with what it leaves; `none` where it throws.
unfoldable pub stoi_from : Text → Option (ℤ × Text)
unfolding signed
stoi_from [] = none
stoi_from (c ∷ cs) =
    if nat_beq c b'-'
    then signed negated cs
    else if nat_beq c b'+'
    then signed pos cs
    else signed pos (c ∷ cs)

abbrev pub stoi : Text → Option (ℤ × Text)
stoi t = stoi_from (skip_space t)

-- `pos == trimmed.size()`
abbrev pub whole {ℓ} : {A : Type ℓ} → Option (A × Text) → Option A
whole none = none
whole (some (a, [])) = some a
whole (some (a, c ∷ cs)) = none

unfoldable pub parse_int_line : Text → Option ℤ
unfolding trim_front trim_back skip_space stoi_from
parse_int_line line = whole (stoi (trim line))

module _ {F : Type 0} (n : Numerics F) where
  unfoldable pub value_to_string : Value F → Text
  unfolding trim_float to_string
  value_to_string (int z) = to_string z
  value_to_string (flt x) = trim_float (n.print x)
  value_to_string (str t) = t

  abbrev pub number_or_zero : Option (F × Text) → F
  number_or_zero none = n.of_int (pos 0)
  number_or_zero (some (x, rest)) = x

  abbrev pub text_number : Text → F
  text_number [] = n.of_int (pos 0)
  text_number (c ∷ cs) = number_or_zero (n.strtod (c ∷ cs))

  unfoldable pub coerce_to_double : Value F → F
  coerce_to_double (int z) = n.of_int z
  coerce_to_double (flt x) = x
  coerce_to_double (str t) = text_number t

  abbrev pub junk_behind : Option (F × Text) → Bool
  junk_behind none = false
  junk_behind (some (x, rest)) = not (all_space rest)

  unfoldable pub has_trailing_junk : Text → Bool
  unfolding all_space
  has_trailing_junk [] = false
  has_trailing_junk (c ∷ cs) = junk_behind (n.strtod (c ∷ cs))

  unfoldable pub forces_double : Value F → Bool
  unfolding has_trailing_junk
  forces_double (flt x) = true
  forces_double (int z) = false
  forces_double (str t) = has_trailing_junk t

  -- `x >= min && x <= max`, and neither holds of a value that is no number.
  abbrev pub in_int_range : F → Bool
  in_int_range x =
      (n.less (n.of_int int_min) x || n.equal (n.of_int int_min) x)
      && (n.less x (n.of_int int_max) || n.equal x (n.of_int int_max))

  abbrev pub int_or : F → Option ℤ → Value F
  int_or x none = flt x
  int_or x (some z) = int z

  unfoldable pub arithmetic_result : Value F → Value F → F → Value F
  unfolding forces_double
  arithmetic_result a b x =
      if not (forces_double a || forces_double b) && (in_int_range x && n.equal x (n.floor x))
      then int_or x (n.to_int x)
      else flt x

  -- `none`: a cast of a value that is no number, which has no defined result.
  unfoldable pub coerce_to_int : Value F → Option ℤ
  unfolding coerce_to_double
  coerce_to_int v =
      let x = coerce_to_double v in
      if n.less x (n.of_int int_min) || n.less (n.of_int int_max) x
      then some (pos 0)
      else n.to_int x

  abbrev pub whole_float : Option (F × Text) → Option F
  whole_float = whole

-- The result of `compareValues`.
pub data Order : Type 0 where
  below same above : Order

-- The order of `std::string`.
unfoldable pub compare_texts : Text → Text → Order
compare_texts [] [] = same
compare_texts [] (y ∷ ys) = below
compare_texts (x ∷ xs) [] = above
compare_texts (x ∷ xs) (y ∷ ys) =
    if ltb x y then below else if ltb y x then above else compare_texts xs ys

module _ {F : Type 0} (n : Numerics F) where
  abbrev pub compare_numbers : F → F → Order
  compare_numbers a b = if n.less a b then below else if n.less b a then above else same

  -- `none` is a type mismatch.
  unfoldable pub compare_values : Value F → Value F → Option Order
  unfolding compare_texts
  compare_values (str a) (str b) = some (compare_texts a b)
  compare_values (str a) (int b) = none
  compare_values (str a) (flt b) = none
  compare_values (int a) (str b) = none
  compare_values (flt a) (str b) = none
  compare_values (int a) (int b) = some (compare_numbers (n.of_int a) (n.of_int b))
  compare_values (int a) (flt b) = some (compare_numbers (n.of_int a) b)
  compare_values (flt a) (int b) = some (compare_numbers a (n.of_int b))
  compare_values (flt a) (flt b) = some (compare_numbers a b)

-- `canonicalVariableName`
unfoldable pub upper : ℕ → ℕ
upper c = if leb b'a' c && leb c b'z' then c - 32 else c

unfoldable pub canonical_name : Text → Text
unfolding upper
canonical_name [] = []
canonical_name (c ∷ cs) = upper c ∷ canonical_name cs

unfoldable pub is_read_only_name : Text → Bool
is_read_only_name t =
    text_beq t (codes "@USERNO")
    || (text_beq t (codes "@ACCOUNT")
        || (text_beq t (codes "@LOGNAME") || text_beq t (codes "@DEFDATA")))
