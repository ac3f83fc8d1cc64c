-- ===== src/Guard/Tests.antt =====
-- Runs of the guard of packages/db-inspector/src/guard.ts on small statements, and the theorems at
-- inputs that meet their hypotheses.
use revdev.Base.{Text, txt, trim, ◌≡◌, refl, ◌↔◌, List, [], ◌∷◌, length}
use revdev.Base.Result.{ok, err, ◌>>=◌}
use revdev.Guard.Words.{
  word_not_allowed, select_into, comment_hides_a_write, multiple_statements, unterminated_string,
  with_must_end_in_select, bound_parameters,
}
use revdev.Guard.Tokens.{Token, word, ws, lparen, rparen, number, is_semi, semi, comma}
use revdev.Guard.Scan.{scan, next_token}
use revdev.Guard.Statement.{check_body, skip_cte, skip_ctes, render_statement, guard_select_only}
use revdev.Guard.Spelling.{then_scan, scan-next_token, spell, spell-scan}
use revdev.Guard.Balance.{IsPermitted, check_body-IsPermitted}
use revdev.Guard.Rounds.{next_tables, skip_ctes-skip_cte}
use revdev.Guard.Accepts.{IsHarmless, guard_select_only-IsHarmless, statement_trimmed, is_comment}

abbrev query : Text
unfolding txt
query = txt "Select f(1) "

abbrev query_tokens : List Token
unfolding txt
query_tokens =
    word (txt "select") (txt "Select")
    ∷ ws (txt " ")
    ∷ word (txt "f") (txt "f")
    ∷ lparen
    ∷ number (txt "1")
    ∷ rparen
    ∷ ws (txt " ")
    ∷ []

query_scans : scan query ≡ ok query_tokens
unfolding scan txt
query_scans = refl

accepts_query : guard_select_only query ≡ ok (txt "Select f(1)")
unfolding guard_select_only txt
accepts_query = refl

accepts_tables :
    guard_select_only
      (txt "with a as (select 1), b(c) as not materialized (select 2) select 3 /* x */;")
    ≡ ok (txt "with a as (select 1), b(c) as not materialized (select 2) select 3")
unfolding guard_select_only txt
accepts_tables = refl

refuses_update : guard_select_only (txt "UPDATE t") ≡ err (word_not_allowed (txt "UPDATE"))
unfolding guard_select_only txt
refuses_update = refl

refuses_into : guard_select_only (txt "select 1 into t") ≡ err select_into
unfolding guard_select_only txt
refuses_into = refl

refuses_two : guard_select_only (txt "select 1; select 2") ≡ err multiple_statements
unfolding guard_select_only txt
refuses_two = refl

refuses_open_string : guard_select_only (txt "select 'a''") ≡ err unterminated_string
unfolding guard_select_only txt
refuses_open_string = refl

refuses_table_only :
    guard_select_only (txt "with a as (select 1) table b") ≡ err with_must_end_in_select
unfolding guard_select_only txt
refuses_table_only = refl

accepts_dollar :
    guard_select_only (txt "select $a$ drop $a$, E'\\'' , 1.5e+3")
    ≡ ok (txt "select $a$ drop $a$, E'\\'' , 1.5e+3")
unfolding guard_select_only txt
accepts_dollar = refl

refuses_param : guard_select_only (txt "select $1") ≡ err bound_parameters
unfolding guard_select_only txt
refuses_param = refl

scan-next_token_example : scan query ≡ (next_token b'S' (txt "elect f(1) ") >>= then_scan scan)
unfolding txt
scan-next_token_example = scan-next_token b'S' (txt "elect f(1) ")

spell-scan_example : spell query_tokens ≡ query
spell-scan_example = spell-scan query query_tokens query_scans

check_body-IsPermitted_example :
    (check_body 0 0 (lparen ∷ rparen ∷ []) ≡ ok tt) ↔ IsPermitted 0 0 (lparen ∷ rparen ∷ [])
check_body-IsPermitted_example = check_body-IsPermitted (lparen ∷ rparen ∷ [])

abbrev table : List Token
unfolding txt
table =
    word (txt "a") (txt "a")
    ∷ word (txt "as") (txt "as")
    ∷ lparen
    ∷ rparen
    ∷ comma
    ∷ word (txt "b") (txt "b")
    ∷ []

skip_ctes-skip_cte_example :
    skip_ctes (length (semi ∷ table)) (semi ∷ table)
    ≡ (skip_cte (semi ∷ table) >>= next_tables (λ left. skip_ctes (length left) left))
skip_ctes-skip_cte_example = skip_ctes-skip_cte semi table

guard_select_only-IsHarmless_example :
    (tokens : List Token) × (scan query ≡ ok tokens)
    × (spell tokens ≡ query)
    × IsHarmless tokens
    × (render_statement tokens ≡ txt "Select f(1)")
guard_select_only-IsHarmless_example =
    guard_select_only-IsHarmless query (txt "Select f(1)") accepts_query

abbrev hidden : Text
unfolding txt
hidden = txt "select 1 --"

refuses_hidden : guard_select_only hidden ≡ err comment_hides_a_write
unfolding guard_select_only txt
refuses_hidden = refl

statement_trimmed_example : txt "Select f(1)" ≡ trim query
unfolding txt is_comment is_semi
statement_trimmed_example =
    statement_trimmed query (txt "Select f(1)") query_tokens query_scans accepts_query refl refl
