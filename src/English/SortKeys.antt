-- ===== src/English/SortKeys.antt =====
-- The sort keys and the projection of a query that is written out.
use gemini_system.Prelude.{Bool, true, false, List, [], ◌∷◌, ◌++◌, Text, ◌≡◌, refl, ◌≢◌, ◌∙◌, All}
use gemini_system.English.{Verb, list, count, select, sort, SortKeySpec, Parsed, ok, ieq, lower}
use gemini_system.English.Parser.{
  Clauses, plain, kind_of, split_by, before_with, sort_section, query_of, cons_key, sort_field,
  by_clause,
}
use gemini_system.English.Printing.{
  by_token, by_dsnd_token, direction_tokens, sort_tokens, IsPlain, IsField, IsSortKey, IsSortedBy,
}

kind_of-by_token : kind_of by_token ≡ plain
unfolding kind_of ieq lower
kind_of-by_token = refl

kind_of-by_dsnd_token : kind_of by_dsnd_token ≡ plain
unfolding kind_of ieq lower
kind_of-by_dsnd_token = refl

pub sort_tokens-IsPlain :
    (keys : List SortKeySpec) → All IsSortKey keys → All IsPlain (sort_tokens keys)
unfolding sort_tokens
sort_tokens-IsPlain [] all = tt
sort_tokens-IsPlain (key ∷ keys) all =
    (kind_of-by_token, directed key.descending (all.0.0, sort_tokens-IsPlain keys all.1))
  where
    directed :
        (b : Bool)
        → All IsPlain (key.field_token ∷ sort_tokens keys)
        → All IsPlain (direction_tokens b (key.field_token ∷ sort_tokens keys))
    directed true rest = (kind_of-by_dsnd_token, rest)
    directed false rest = rest

pub fields-IsPlain : (ts : List Text) → All IsField ts → All IsPlain ts
fields-IsPlain [] all = tt
fields-IsPlain (t ∷ ts) all = (all.0.0, fields-IsPlain ts all.1)

split_by-sort_tokens :
    (keys : List SortKeySpec) → split_by (sort_tokens keys) ≡ ([], sort_tokens keys)
unfolding split_by sort_tokens ieq lower
split_by-sort_tokens [] = refl
split_by-sort_tokens (key ∷ keys) = refl

pub split_by-fields :
    (ts : List Text) (keys : List SortKeySpec)
    → All IsField ts
    → split_by (ts ++ sort_tokens keys) ≡ (ts, sort_tokens keys)
unfolding split_by
split_by-fields [] keys all = split_by-sort_tokens keys
split_by-fields (t ∷ ts) keys all = rw (all.0.1, split_by-fields ts keys all.1)

pub before_with-fields : (ts : List Text) → All IsField ts → before_with ts ≡ ts
unfolding before_with
before_with-fields [] all = refl
before_with-fields (t ∷ ts) all = rw (all.0.2, before_with-fields ts all.1)

sort_field-named :
    (f : Text) (d : Bool) (rest : Parsed (List SortKeySpec))
    → f ≢ []
    → sort_field f d rest ≡ cons_key (record { field_token = f; descending = d }) rest
sort_field-named [] d rest h = absurd (h refl)
sort_field-named (c ∷ cs) d rest h = refl

sort_section-field :
    (key : SortKeySpec) (d : Bool) (rest : List Text)
    → IsSortKey key
    → sort_section (key.field_token ∷ rest) d
      ≡ cons_key
          (record { field_token = key.field_token; descending = d })
          (sort_section rest false)
unfolding sort_section
sort_section-field key d rest (word, by, dsnd, named) =
    rw (by, dsnd, sort_field-named key.field_token d (sort_section rest false) named)

sort_section-by_token :
    (ts : List Text) → sort_section (by_token ∷ ts) false ≡ sort_section ts false
unfolding sort_section ieq lower
sort_section-by_token ts = refl

sort_section-by_dsnd_token :
    (ts : List Text) → sort_section (by_dsnd_token ∷ ts) false ≡ sort_section ts true
unfolding sort_section ieq lower
sort_section-by_dsnd_token ts = refl

sort_section-direction_tokens :
    (d : Bool) (key : SortKeySpec) (rest : List Text)
    → IsSortKey key
    → sort_section (direction_tokens d (key.field_token ∷ rest)) false
      ≡ cons_key
          (record { field_token = key.field_token; descending = d })
          (sort_section rest false)
sort_section-direction_tokens true key rest h =
    sort_section-by_dsnd_token (key.field_token ∷ rest) ∙ sort_section-field key true rest h
sort_section-direction_tokens false key rest h = sort_section-field key false rest h

sort_section-nil : sort_section [] false ≡ ok []
unfolding sort_section
sort_section-nil = refl

sort_section-sort_tokens :
    (keys : List SortKeySpec) → All IsSortKey keys → sort_section (sort_tokens keys) false ≡ ok keys
unfolding sort_tokens
sort_section-sort_tokens [] all = sort_section-nil
sort_section-sort_tokens (key ∷ keys) all = rw (
  sort_section-by_token (direction_tokens key.descending (key.field_token ∷ sort_tokens keys)),
  sort_section-direction_tokens key.descending key (sort_tokens keys) all.0,
  sort_section-sort_tokens keys all.1,
)

pub by_clause-sort_tokens :
    (verb : Verb) (file : Text) (fields : List Text) (c : Clauses) (keys : List SortKeySpec)
    → All IsSortKey keys
    → IsSortedBy verb keys
    → by_clause verb file fields c (sort_tokens keys) ≡ ok (query_of verb file fields keys c)
unfolding sort_tokens
by_clause-sort_tokens verb file fields c [] all s = refl
by_clause-sort_tokens sort file fields c (key ∷ keys) all s =
    rw (sort_section-sort_tokens (key ∷ keys) all)
by_clause-sort_tokens list file fields c (key ∷ keys) all s = cc
by_clause-sort_tokens count file fields c (key ∷ keys) all s = cc
by_clause-sort_tokens select file fields c (key ∷ keys) all s = cc
