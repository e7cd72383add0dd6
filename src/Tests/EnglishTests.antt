-- ===== src/Tests/EnglishTests.antt =====
-- Tests of English.
use gemini_system.Prelude.{◌≡◌, refl, false, true, [], ◌∷◌, none, some, codes}
use gemini_system.English.{
  sort, Query, ParseContext, heading, total, ok, err, ieq, lower, is_structural_keyword,
  by_without_sort, only_once,
}
use gemini_system.English.Parser.{kind_of, parse}
use gemini_system.English.Printing.{tokens_of, sort_tokens, IsReadable}
use gemini_system.English.RoundTrip.{parse-tokens_of, clause_anywhere}

abbrev direct : ParseContext
direct = record { implicit_file = false; imposed_file_name = none }

-- SORT ORDERS NAME BY BY-DSND CITY HEADING "H" ID-SUPP
abbrev query : Query
query = record {
  verb = sort;
  file_name = codes "ORDERS";
  fields = codes "NAME" ∷ [];
  sort_keys = record { field_token = codes "CITY"; descending = true } ∷ [];
  heading = some (codes "H");
  break_on_field = none;
  total_field = none;
  id_supp = true;
  footing = none;
}

written :
    tokens_of query
    ≡ codes "SORT"
      ∷ (codes "ORDERS"
          ∷ (codes "NAME"
              ∷ (codes "BY"
                  ∷ (codes "BY-DSND"
                      ∷ (codes "CITY"
                          ∷ (codes "HEADING" ∷ (codes "H" ∷ (codes "ID-SUPP" ∷ []))))))))
unfolding tokens_of sort_tokens
written = refl

by_refused :
    parse (codes "list" ∷ (codes "ORDERS" ∷ (codes "BY" ∷ (codes "CITY" ∷ [])))) direct
    ≡ err by_without_sort
unfolding parse lower
by_refused = refl

heading_twice :
    parse
      (codes "LIST"
        ∷ (codes "ORDERS" ∷ (codes "HEADING" ∷ (codes "A" ∷ (codes "HEADING" ∷ (codes "B" ∷ []))))))
      direct
    ≡ err (only_once heading)
unfolding parse lower
heading_twice = refl

query-IsReadable : IsReadable query
unfolding kind_of ieq lower is_structural_keyword
query-IsReadable = (
  (λ e. cc),
  refl,
  ((refl, refl, refl), tt),
  ((refl, refl, refl, (λ e. cc)), tt),
  tt,
  (refl, tt, tt, tt),
)

parse-tokens_of_example : parse (tokens_of query) direct ≡ ok query
parse-tokens_of_example = parse-tokens_of query direct refl query-IsReadable

clause_anywhere_example :
    parse
      (codes "LIST" ∷ (codes "ORDERS" ∷ (codes "TOTAL" ∷ (codes "QTY" ∷ (codes "NAME" ∷ [])))))
      direct
    ≡ parse
        (codes "LIST" ∷ (codes "TOTAL" ∷ (codes "QTY" ∷ (codes "ORDERS" ∷ (codes "NAME" ∷ [])))))
        direct
unfolding kind_of ieq lower is_structural_keyword
clause_anywhere_example =
    clause_anywhere (codes "LIST") direct total (codes "QTY") (codes "ORDERS" ∷ [])
      (codes "NAME" ∷ []) (refl, tt) refl
