-- ===== src/English.antt =====
-- core/english: the tokens of an ENGLISH query and `EnglishParser`, in `EnglishTypes.h` and
-- `EnglishParser.cpp`. Each message of the parser is a constructor of `EnglishError`.
pub mod Parser
pub mod Printing
pub mod Clauses
pub mod SortKeys
pub mod RoundTrip
use gemini_system.Prelude.{
  ℕ, ◌+◌, Bool, true, false, ◌&&◌, ◌||◌, List, [], ◌∷◌, Option, none, some, Text, codes, leb,
  nat_beq, if◌then◌else◌,
}

pub data Verb : Type 0 where
  list count select sort : Verb

pub record SortKeySpec : Type 0 where
  pub field_token : Text
  pub descending : Bool

pub record Query : Type 0 where
  pub verb : Verb
  pub file_name : Text
  pub fields : List Text
  pub sort_keys : List SortKeySpec
  pub heading : Option Text
  pub break_on_field : Option Text
  pub total_field : Option Text
  pub id_supp : Bool
  pub footing : Option Text

pub record ParseContext : Type 0 where
  pub implicit_file : Bool
  pub imposed_file_name : Option Text

-- The clauses with an argument.
pub data Clause : Type 0 where
  heading footing break_on total : Clause

pub data EnglishError : Type 0 where
  empty_query unsupported_verb : EnglishError
  only_once requires_argument : Clause → EnglishError
  id_supp_only_once count_requires_scope implicit_without_filename : EnglishError
  command_requires_filename empty_filename by_without_sort : EnglishError
  empty_by_field by_dsnd_without_field : EnglishError

pub data Parsed {ℓ} (A : Type ℓ) : Type ℓ where
  ok : A → Parsed A
  err : EnglishError → Parsed A

-- `std::tolower` in the C locale.
unfoldable pub lower : ℕ → ℕ
lower c = if leb b'A' c && leb c b'Z' then c + 32 else c

unfoldable pub ieq : Text → Text → Bool
unfolding lower
ieq [] [] = true
ieq [] (b ∷ bs) = false
ieq (a ∷ as') [] = false
ieq (a ∷ as') (b ∷ bs) = nat_beq (lower a) (lower b) && ieq as' bs

abbrev pub is_by : Text → Bool
is_by t = ieq t (codes "BY")

abbrev pub is_by_dsnd : Text → Bool
is_by_dsnd t = ieq t (codes "BY-DSND")

abbrev pub is_with : Text → Bool
is_with t = ieq t (codes "WITH")

abbrev pub is_heading : Text → Bool
is_heading t = ieq t (codes "HEADING")

abbrev pub is_footing : Text → Bool
is_footing t = ieq t (codes "FOOTING")

abbrev pub is_break_on : Text → Bool
is_break_on t = ieq t (codes "BREAK-ON")

abbrev pub is_total : Text → Bool
is_total t = ieq t (codes "TOTAL")

abbrev pub is_id_supp : Text → Bool
is_id_supp t = ieq t (codes "ID-SUPP")

unfoldable pub is_structural_keyword : Text → Bool
unfolding ieq
is_structural_keyword t =
    is_by t
    || (is_by_dsnd t
        || (is_with t
            || (is_heading t || (is_footing t || (is_break_on t || (is_total t || is_id_supp t))))))

unfoldable pub verb_from : Text → Option Verb
unfolding ieq
verb_from t =
    if ieq t (codes "LIST")
    then some list
    else if ieq t (codes "COUNT")
    then some count
    else if ieq t (codes "SELECT")
    then some select
    else if ieq t (codes "SORT")
    then some sort
    else none
