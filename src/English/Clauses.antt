-- ===== src/English/Clauses.antt =====
-- What the first loop of the parser makes of the clauses, and of the tokens that it keeps.
use mathlib.Core.List.{append-nil}
use gemini_system.Prelude.{
  Bool, true, false, List, [], ◌∷◌, ◌++◌, Option, none, some, Text, ◌≡◌, refl, sym, ap, ◌∙◌, All,
}
use gemini_system.English.{
  Clause, heading, footing, break_on, total, Parsed, ok, ieq, lower, is_structural_keyword,
}
use gemini_system.English.Parser.{
  Clauses, no_clauses, with_argument, kind_of, clause_value, set_clause, take_argument, keep, strip,
}
use gemini_system.English.Printing.{
  clause_token, argument_tokens, suppress_tokens, clause_tokens, IsPlain, IsArgument, HasArguments,
}

strip-plain :
    (t : Text) (ts : List Text) (c : Clauses) → IsPlain t → strip (t ∷ ts) c ≡ keep t (strip ts c)
unfolding strip
strip-plain t [] c h = rw (strip, h)
strip-plain t (a ∷ ts) c h = rw (strip, h)

abbrev pub keep_all : List Text → Parsed (Clauses × List Text) → Parsed (Clauses × List Text)
keep_all [] p = p
keep_all (t ∷ ts) p = keep t (keep_all ts p)

pub strip-append :
    (ts rest : List Text) (c : Clauses)
    → All IsPlain ts
    → strip (ts ++ rest) c ≡ keep_all ts (strip rest c)
strip-append [] rest c all = refl
strip-append (t ∷ ts) rest c all =
    rw (strip-plain t (ts ++ rest) c all.0, strip-append ts rest c all.1)

keep_all-ok :
    (ts : List Text) (c : Clauses) (us : List Text) → keep_all ts (ok (c, us)) ≡ ok (c, ts ++ us)
keep_all-ok [] c us = refl
keep_all-ok (t ∷ ts) c us = rw (keep_all-ok ts c us)

kind_of-clause_token : (k : Clause) → kind_of (clause_token k) ≡ with_argument k
unfolding kind_of ieq lower
kind_of-clause_token heading = refl
kind_of-clause_token footing = refl
kind_of-clause_token break_on = refl
kind_of-clause_token total = refl

take_argument-ok :
    (k : Clause) (a : Text) (c : Clauses)
    → clause_value k c ≡ none
    → is_structural_keyword a ≡ false
    → take_argument k a c ≡ ok (set_clause k a c)
unfolding take_argument
take_argument-ok k a c free word = rw (take_argument, free, word)

pub strip-clause :
    (k : Clause) (a : Text) (rest : List Text) (c : Clauses)
    → clause_value k c ≡ none
    → is_structural_keyword a ≡ false
    → strip (clause_token k ∷ (a ∷ rest)) c ≡ strip rest (set_clause k a c)
unfolding strip
strip-clause k a rest c free word =
    rw (strip, kind_of-clause_token k, take_argument-ok k a c free word)

abbrev set_option : Clause → Option Text → Clauses → Clauses
set_option heading o c = record c { heading = o }
set_option footing o c = record c { footing = o }
set_option break_on o c = record c { break_on_field = o }
set_option total o c = record c { total_field = o }

set_option-none : (k : Clause) (c : Clauses) → clause_value k c ≡ none → set_option k none c ≡ c
set_option-none heading c h = ap (λ o. record c { heading = o }) (sym h)
set_option-none footing c h = ap (λ o. record c { footing = o }) (sym h)
set_option-none break_on c h = ap (λ o. record c { break_on_field = o }) (sym h)
set_option-none total c h = ap (λ o. record c { total_field = o }) (sym h)

set_clause-option :
    (k : Clause) (a : Text) (c : Clauses) → set_clause k a c ≡ set_option k (some a) c
set_clause-option heading a c = refl
set_clause-option footing a c = refl
set_clause-option break_on a c = refl
set_clause-option total a c = refl

strip-argument_tokens :
    (k : Clause) (o : Option Text) (rest : List Text) (c : Clauses)
    → clause_value k c ≡ none
    → IsArgument o
    → strip (argument_tokens k o rest) c ≡ strip rest (set_option k o c)
strip-argument_tokens k none rest c free word = rw (set_option-none k c free)
strip-argument_tokens k (some a) rest c free word =
    rw (strip-clause k a rest c free word, set_clause-option k a c)

strip-suppress_tokens :
    (b : Bool) (c : Clauses)
    → c.id_supp ≡ false
    → strip (suppress_tokens b) c ≡ ok (record c { id_supp = b }, [])
unfolding strip kind_of ieq lower
strip-suppress_tokens true c h = rw h
strip-suppress_tokens false c h = ap (λ b. ok (record c { id_supp = b }, [])) h

strip-clause_tokens :
    (c : Clauses) → HasArguments c → strip (clause_tokens c) no_clauses ≡ ok (c, [])
strip-clause_tokens c (h, f, b, t) =
    strip-argument_tokens heading c.heading _ no_clauses refl h
    ∙ strip-argument_tokens footing c.footing _ _ refl f
    ∙ strip-argument_tokens break_on c.break_on_field _ _ refl b
    ∙ strip-argument_tokens total c.total_field _ _ refl t
    ∙ strip-suppress_tokens c.id_supp _ refl

-- The loop takes out the clauses and keeps the rest.
pub strip-tokens :
    (ts us : List Text) (c : Clauses)
    → All IsPlain ts
    → All IsPlain us
    → HasArguments c
    → strip (ts ++ (us ++ clause_tokens c)) no_clauses ≡ ok (c, ts ++ us)
strip-tokens ts us c plain_ts plain_us words = rw (
  strip-append ts (us ++ clause_tokens c) no_clauses plain_ts,
  strip-append us (clause_tokens c) no_clauses plain_us,
  strip-clause_tokens c words,
  keep_all-ok us c [],
  append-nil us,
  keep_all-ok ts c us,
)
