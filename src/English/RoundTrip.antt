-- ===== src/English/RoundTrip.antt =====
-- The parser reads a query back from its tokens, wherever the clauses stand.
use gemini_system.Prelude.{
  false, List, [], ◌∷◌, ◌++◌, Option, none, some, Text, ◌≡◌, refl, ◌≢◌, All, ap,
}
use gemini_system.English.{
  Verb, list, count, select, sort, Query, ParseContext, Clause, heading, footing, break_on, total,
  ok, ieq, lower, is_structural_keyword, verb_from,
}
use gemini_system.English.Parser.{
  Clauses, no_clauses, clause_value, set_clause, strip, parse_body, parse_stripped, parse_verb,
  parse_tokens, parse,
}
use gemini_system.English.Printing.{
  verb_token, clause_token, sort_tokens, clauses_of, tokens_of, IsPlain, IsReadable,
}
use gemini_system.English.Clauses.{strip-append, strip-clause, strip-tokens}
use gemini_system.English.SortKeys.{
  sort_tokens-IsPlain, fields-IsPlain, split_by-fields, before_with-fields, by_clause-sort_tokens,
}

verb_from-verb_token : (verb : Verb) → verb_from (verb_token verb) ≡ some verb
unfolding verb_from ieq lower
verb_from-verb_token list = refl
verb_from-verb_token count = refl
verb_from-verb_token select = refl
verb_from-verb_token sort = refl

parse_body-tokens :
    (q : Query)
    → IsReadable q
    → parse_body q.verb q.file_name (clauses_of q) (q.fields ++ sort_tokens q.sort_keys) ≡ ok q
unfolding parse_body
parse_body-tokens q (named, file, fields, keys, sorted, words) =
    rw (split_by-fields q.fields q.sort_keys fields, before_with-fields q.fields fields)
      (by_clause-sort_tokens q.verb q.file_name q.fields (clauses_of q) q.sort_keys keys sorted)

parse_tokens-named :
    (verb : Verb) (ctx : ParseContext) (c : Clauses) (file : Text) (tokens : List Text)
    → ctx.implicit_file ≡ false
    → file ≢ []
    → parse_tokens verb ctx c (file ∷ tokens) ≡ parse_body verb file c tokens
unfolding parse_tokens
parse_tokens-named verb ctx c [] tokens explicit named = absurd (named refl)
parse_tokens-named list ctx c (b ∷ bs) tokens explicit named = rw explicit
parse_tokens-named count ctx c (b ∷ bs) tokens explicit named = rw explicit
parse_tokens-named select ctx c (b ∷ bs) tokens explicit named = rw explicit
parse_tokens-named sort ctx c (b ∷ bs) tokens explicit named = rw explicit

-- A query that is written out as tokens, with its file named, is read back as it was: the fields,
-- the sort keys with their directions, and every clause. The words of the query must not be
-- keywords where they would be read as such, and only `SORT` may have sort keys.
pub parse-tokens_of :
    (q : Query) (ctx : ParseContext)
    → ctx.implicit_file ≡ false
    → IsReadable q
    → parse (tokens_of q) ctx ≡ ok q
unfolding parse tokens_of
parse-tokens_of q ctx explicit h =
    let (named, file, fields, keys, sorted, words) = h in
    rw
      (
        verb_from-verb_token q.verb,
        strip-tokens (q.file_name ∷ q.fields) (sort_tokens q.sort_keys) (clauses_of q)
            (file, fields-IsPlain q.fields fields) (sort_tokens-IsPlain q.sort_keys keys) words,
        parse_tokens-named q.verb ctx (clauses_of q) q.file_name
            (q.fields ++ sort_tokens q.sort_keys) explicit named,
      )
      (parse_body-tokens q h)

clause_value-no_clauses : (k : Clause) → clause_value k no_clauses ≡ none
clause_value-no_clauses heading = refl
clause_value-no_clauses footing = refl
clause_value-no_clauses break_on = refl
clause_value-no_clauses total = refl

parse_verb-strip :
    (o : Option Verb) (ctx : ParseContext) (ts us : List Text)
    → strip ts no_clauses ≡ strip us no_clauses
    → parse_verb o ctx ts ≡ parse_verb o ctx us
parse_verb-strip none ctx ts us same = refl
parse_verb-strip (some verb) ctx ts us same = ap (parse_stripped verb ctx) same

strip-moved :
    (k : Clause) (a : Text) (ts us : List Text)
    → All IsPlain ts
    → is_structural_keyword a ≡ false
    → strip (ts ++ clause_token k ∷ (a ∷ us)) no_clauses
      ≡ strip (clause_token k ∷ (a ∷ (ts ++ us))) no_clauses
strip-moved k a ts us plain_ts word =
    let free = clause_value-no_clauses k in
    rw (
      strip-append ts (clause_token k ∷ (a ∷ us)) no_clauses plain_ts,
      strip-clause k a us no_clauses free word,
      strip-clause k a (ts ++ us) no_clauses free word,
      strip-append ts us (set_clause k a no_clauses) plain_ts,
    )

-- HEADING, FOOTING, BREAK-ON and TOTAL may stand anywhere behind the verb: moving one of these
-- clauses, with an argument that is no keyword of a clause, to the front of the plain tokens before
-- it does not change what the parser gives, an error included. ID-SUPP is not among them.
pub clause_anywhere :
    (verb : Text) (ctx : ParseContext) (k : Clause) (a : Text) (ts us : List Text)
    → All IsPlain ts
    → is_structural_keyword a ≡ false
    → parse (verb ∷ (ts ++ clause_token k ∷ (a ∷ us))) ctx
      ≡ parse (verb ∷ (clause_token k ∷ (a ∷ (ts ++ us)))) ctx
unfolding parse
clause_anywhere verb ctx k a ts us plain_ts word =
    parse_verb-strip (verb_from verb) ctx _ _ (strip-moved k a ts us plain_ts word)
