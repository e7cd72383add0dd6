-- ===== src/English/Printing.antt =====
-- The tokens that a query is written with, and when they can be read back.
use gemini_system.Prelude.{
  Bool, true, false, List, [], ◌∷◌, ◌++◌, Option, none, some, Text, codes, ◌≡◌, ◌≢◌, All,
}
use gemini_system.English.{
  Verb, list, count, select, sort, SortKeySpec, Query, Clause, heading, footing, break_on, total,
  is_by, is_by_dsnd, is_with, is_structural_keyword,
}
use gemini_system.English.Parser.{Clauses, plain, kind_of}

abbrev pub verb_token : Verb → Text
verb_token list = codes "LIST"
verb_token count = codes "COUNT"
verb_token select = codes "SELECT"
verb_token sort = codes "SORT"

abbrev pub clause_token : Clause → Text
clause_token heading = codes "HEADING"
clause_token footing = codes "FOOTING"
clause_token break_on = codes "BREAK-ON"
clause_token total = codes "TOTAL"

abbrev pub by_token : Text
by_token = codes "BY"

abbrev pub by_dsnd_token : Text
by_dsnd_token = codes "BY-DSND"

abbrev pub direction_tokens : Bool → List Text → List Text
direction_tokens true rest = by_dsnd_token ∷ rest
direction_tokens false rest = rest

-- `BY` stands in front of every key, and `BY-DSND` in front of a descending one.
unfoldable pub sort_tokens : List SortKeySpec → List Text
sort_tokens [] = []
sort_tokens (key ∷ keys) =
    by_token ∷ direction_tokens key.descending (key.field_token ∷ sort_tokens keys)

abbrev pub argument_tokens : Clause → Option Text → List Text → List Text
argument_tokens k none rest = rest
argument_tokens k (some a) rest = clause_token k ∷ (a ∷ rest)

abbrev pub suppress_tokens : Bool → List Text
suppress_tokens true = codes "ID-SUPP" ∷ []
suppress_tokens false = []

abbrev pub clause_tokens : Clauses → List Text
clause_tokens c = argument_tokens heading c.heading (
    argument_tokens footing c.footing (
      argument_tokens break_on c.break_on_field
        (argument_tokens total c.total_field (suppress_tokens c.id_supp))))

abbrev pub clauses_of : Query → Clauses
clauses_of q = record {
  heading = q.heading;
  footing = q.footing;
  break_on_field = q.break_on_field;
  total_field = q.total_field;
  id_supp = q.id_supp;
}

unfoldable pub tokens_of : Query → List Text
tokens_of q =
    verb_token q.verb
    ∷ (q.file_name ∷ (q.fields ++ (sort_tokens q.sort_keys ++ clause_tokens (clauses_of q))))

-- The token is kept by the first loop.
abbrev pub IsPlain : Text → Type 0
IsPlain t = kind_of t ≡ plain

abbrev pub IsField : Text → Type 0
IsField t = IsPlain t × (is_by t ≡ false) × (is_with t ≡ false)

abbrev pub IsSortKey : SortKeySpec → Type 0
IsSortKey key =
    IsPlain key.field_token
    × (is_by key.field_token ≡ false)
    × (is_by_dsnd key.field_token ≡ false)
    × (key.field_token ≢ [])

abbrev pub IsArgument : Option Text → Type 0
IsArgument none = Unit
IsArgument (some a) = is_structural_keyword a ≡ false

abbrev pub IsSortedBy : Verb → List SortKeySpec → Type 0
IsSortedBy sort keys = Unit
IsSortedBy list keys = keys ≡ []
IsSortedBy count keys = keys ≡ []
IsSortedBy select keys = keys ≡ []

abbrev pub HasArguments : Clauses → Type 0
HasArguments c =
    IsArgument c.heading
    × IsArgument c.footing
    × IsArgument c.break_on_field
    × IsArgument c.total_field

-- The words of the query are no keywords where they would be read as such, and only `SORT` has
-- sort keys.
abbrev pub IsReadable : Query → Type 0
IsReadable q =
    (q.file_name ≢ [])
    × IsPlain q.file_name
    × All IsField q.fields
    × All IsSortKey q.sort_keys
    × IsSortedBy q.verb q.sort_keys
    × HasArguments (clauses_of q)
