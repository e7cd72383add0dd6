-- ===== src/English/Parser.antt =====
-- `EnglishParser::parse` and its helpers. The indices into `tokens` are splits of the list.
use gemini_system.Prelude.{
  Bool, true, false, List, [], ◌∷◌, Option, none, some, Text, if◌then◌else◌,
}
use gemini_system.English.{
  Verb, list, count, select, sort, SortKeySpec, Query, ParseContext, Clause, heading, footing,
  break_on, total, empty_query, unsupported_verb, only_once, requires_argument, id_supp_only_once,
  count_requires_scope, implicit_without_filename, command_requires_filename, empty_filename,
  by_without_sort, empty_by_field, by_dsnd_without_field, Parsed, ok, err, ieq, is_by, is_by_dsnd,
  is_with, is_heading, is_footing, is_break_on, is_total, is_id_supp, is_structural_keyword,
  verb_from,
}

-- The variables that the first loop fills beside `tokens`.
pub record Clauses : Type 0 where
  pub heading : Option Text
  pub footing : Option Text
  pub break_on_field : Option Text
  pub total_field : Option Text
  pub id_supp : Bool

abbrev pub no_clauses : Clauses
no_clauses = record {
  heading = none;
  footing = none;
  break_on_field = none;
  total_field = none;
  id_supp = false;
}

-- What the loop makes of a token: a clause with an argument, `ID-SUPP`, or a token to keep.
pub data Kind : Type 0 where
  with_argument : Clause → Kind
  suppress plain : Kind

unfoldable pub kind_of : Text → Kind
unfolding ieq
kind_of t =
    if is_heading t
    then with_argument heading
    else if is_footing t
    then with_argument footing
    else if is_break_on t
    then with_argument break_on
    else if is_total t
    then with_argument total
    else if is_id_supp t
    then suppress
    else plain

abbrev pub clause_value : Clause → Clauses → Option Text
clause_value heading c = c.heading
clause_value footing c = c.footing
clause_value break_on c = c.break_on_field
clause_value total c = c.total_field

abbrev pub set_clause : Clause → Text → Clauses → Clauses
set_clause heading a c = record c { heading = some a }
set_clause footing a c = record c { footing = some a }
set_clause break_on a c = record c { break_on_field = some a }
set_clause total a c = record c { total_field = some a }

abbrev pub has_value : Option Text → Bool
has_value none = false
has_value (some a) = true

-- A clause whose next token is `a`.
unfoldable pub take_argument : Clause → Text → Clauses → Parsed Clauses
unfolding is_structural_keyword
take_argument k a c =
    if has_value (clause_value k c)
    then err (only_once k)
    else if is_structural_keyword a
    then err (requires_argument k)
    else ok (set_clause k a c)

-- A clause at the end of the tokens.
abbrev pub missing_argument : Clause → Clauses → Parsed (Clauses × List Text)
missing_argument k c =
    if has_value (clause_value k c) then err (only_once k) else err (requires_argument k)

abbrev pub take_suppress : Clauses → Parsed Clauses
take_suppress c = if c.id_supp then err id_supp_only_once else ok (record c { id_supp = true })

abbrev pub keep : Text → Parsed (Clauses × List Text) → Parsed (Clauses × List Text)
keep t (ok (c, ts)) = ok (c, t ∷ ts)
keep t (err e) = err e

abbrev pub alone : Parsed Clauses → Parsed (Clauses × List Text)
alone (ok c) = ok (c, [])
alone (err e) = err e

-- The loop that takes the clauses out, behind the verb.
unfoldable pub strip : List Text → Clauses → Parsed (Clauses × List Text)
unfolding kind_of take_argument
strip [] c = ok (c, [])
strip (t ∷ []) c = elim (kind_of t) [
  | with_argument k ↦ missing_argument k c
  | suppress ↦ alone (take_suppress c)
  | plain ↦ ok (c, t ∷ [])
]
strip (t ∷ (a ∷ ts)) c = elim (kind_of t) [
  | with_argument k ↦ elim (take_argument k a c) [ ok c' ↦ strip ts c' | err e ↦ err e ]
  | suppress ↦ elim (take_suppress c) [ ok c' ↦ strip (a ∷ ts) c' | err e ↦ err e ]
  | plain ↦ keep t (strip (a ∷ ts) c)
]

-- `findFirstBy`: the tokens in front of the first `BY`, and those from it on.
unfoldable pub split_by : List Text → List Text × List Text
unfolding ieq
split_by [] = ([], [])
split_by (t ∷ ts) = let rest = split_by ts in if is_by t then ([], t ∷ ts) else (t ∷ rest.0, rest.1)

-- The projection ends at `WITH`; the tokens behind it are skipped.
unfoldable pub before_with : List Text → List Text
unfolding ieq
before_with [] = []
before_with (t ∷ ts) = let rest = before_with ts in if is_with t then [] else t ∷ rest

abbrev pub cons_key : SortKeySpec → Parsed (List SortKeySpec) → Parsed (List SortKeySpec)
cons_key key (ok keys) = ok (key ∷ keys)
cons_key key (err e) = err e

abbrev pub sort_field : Text → Bool → Parsed (List SortKeySpec) → Parsed (List SortKeySpec)
sort_field [] desc rest = err empty_by_field
sort_field (c ∷ cs) desc rest = cons_key (record { field_token = c ∷ cs; descending = desc }) rest

-- The loop of `parseSortSection`, on the rest of the tokens and on `nextDesc`.
unfoldable pub sort_section : List Text → Bool → Parsed (List SortKeySpec)
unfolding ieq
sort_section [] next_desc = if next_desc then err by_dsnd_without_field else ok []
sort_section (t ∷ ts) next_desc =
    let same = sort_section ts next_desc in
    let desc = sort_section ts true in
    let asc = sort_section ts false in
    if is_by t then same else if is_by_dsnd t then desc else sort_field t next_desc asc

abbrev pub query_of : Verb → Text → List Text → List SortKeySpec → Clauses → Query
query_of verb file fields keys c = record {
  verb = verb;
  file_name = file;
  fields = fields;
  sort_keys = keys;
  heading = c.heading;
  break_on_field = c.break_on_field;
  total_field = c.total_field;
  id_supp = c.id_supp;
  footing = c.footing;
}

-- The imposed name, if there is one and it is not empty.
abbrev pub imposed : Option Text → Option Text
imposed none = none
imposed (some []) = none
imposed (some (c ∷ cs)) = some (c ∷ cs)

-- `COUNT` alone.
abbrev pub count_alone : Clauses → Bool → Option Text → Parsed Query
count_alone c implicit none = err count_requires_scope
count_alone c implicit (some file) =
    if implicit then ok (query_of count file [] [] c) else err count_requires_scope

abbrev pub keys_parsed :
    Verb → Text → List Text → Clauses → Parsed (List SortKeySpec) → Parsed Query
keys_parsed verb file fields c (ok keys) = ok (query_of verb file fields keys c)
keys_parsed verb file fields c (err e) = err e

abbrev pub by_clause : Verb → Text → List Text → Clauses → List Text → Parsed Query
by_clause verb file fields c [] = ok (query_of verb file fields [] c)
by_clause sort file fields c (t ∷ ts) = keys_parsed sort file fields c (sort_section (t ∷ ts) false)
by_clause list file fields c (t ∷ ts) = err by_without_sort
by_clause count file fields c (t ∷ ts) = err by_without_sort
by_clause select file fields c (t ∷ ts) = err by_without_sort

-- The tokens behind the file name.
unfoldable pub parse_body : Verb → Text → Clauses → List Text → Parsed Query
unfolding split_by before_with sort_section
parse_body verb file c tokens =
    let parts = split_by tokens in by_clause verb file (before_with parts.0) c parts.1

abbrev pub parse_implicit : Verb → Clauses → Option Text → List Text → Parsed Query
parse_implicit verb c none tokens = err implicit_without_filename
parse_implicit verb c (some file) tokens = parse_body verb file c tokens

abbrev pub parse_named : Verb → Clauses → List Text → Parsed Query
parse_named verb c [] = err command_requires_filename
parse_named verb c ([] ∷ tokens) = err empty_filename
parse_named verb c ((b ∷ bs) ∷ tokens) = parse_body verb (b ∷ bs) c tokens

abbrev pub parse_scoped : Verb → ParseContext → Clauses → List Text → Parsed Query
parse_scoped verb ctx c tokens =
    if ctx.implicit_file
    then parse_implicit verb c (imposed ctx.imposed_file_name) tokens
    else parse_named verb c tokens

abbrev pub is_count_alone : Verb → List Text → Bool
is_count_alone count [] = true
is_count_alone _ _ = false

-- What follows the first loop.
unfoldable pub parse_tokens : Verb → ParseContext → Clauses → List Text → Parsed Query
unfolding parse_body
parse_tokens verb ctx c tokens =
    if is_count_alone verb tokens
    then count_alone c ctx.implicit_file (imposed ctx.imposed_file_name)
    else parse_scoped verb ctx c tokens

abbrev pub parse_stripped : Verb → ParseContext → Parsed (Clauses × List Text) → Parsed Query
parse_stripped verb ctx (ok (c, tokens)) = parse_tokens verb ctx c tokens
parse_stripped verb ctx (err e) = err e

abbrev pub parse_verb : Option Verb → ParseContext → List Text → Parsed Query
parse_verb none ctx tokens = err unsupported_verb
parse_verb (some verb) ctx tokens = parse_stripped verb ctx (strip tokens no_clauses)

unfoldable pub parse : List Text → ParseContext → Parsed Query
unfolding verb_from strip parse_tokens
parse [] ctx = err empty_query
parse (t ∷ ts) ctx = parse_verb (verb_from t) ctx ts
