-- ===== src/Guard/Statement.antt =====
-- `guardSelectOnly` of packages/db-inspector/src/guard.ts, with the checks that it calls.
use revdev.Base.{
  Text, txt, text_eq, trim, ℕ, zero, suc, ◌==◌, Bool, true, false, not, ◌&&◌, List, [], ◌∷◌, ◌++◌,
  any, keep, drop, length, if◌then◌else◌,
}
use revdev.Base.Result.{Result, ok, err, ◌>>=◌, ◌>>◌, ensure}
use revdev.Guard.Words.{
  Reason, comment_hides_a_write, multiple_statements, empty_query, bound_parameters, unbalanced,
  only_select, with_must_end_in_select, out_of_fuel, is_banned, reason_for_banned,
  comment_hides_write,
}
use revdev.Guard.Tokens.{
  Token, line, block, ws, comment, word, ident, string, number, param, op, semi, lparen, rparen,
  lbracket, rbracket, comma, render_token, is_significant, is_semi,
}
use revdev.Guard.Scan.{scan}

unfoldable pub hides_write : Token → Bool
unfolding comment_hides_write
hides_write (comment line body raw) = true
hides_write (comment block body raw) = comment_hides_write body
hides_write _ = false

unfoldable pub check_comments : List Token → Result Reason (Unit {0})
unfolding hides_write
check_comments tokens = ensure (not (any hides_write tokens)) comment_hides_a_write

-- `significant.slice(0, end)`
unfoldable pub drop_last_semi : List Token → List Token
unfolding is_semi
drop_last_semi [] = []
drop_last_semi (t ∷ []) = if is_semi t then [] else t ∷ []
drop_last_semi (t ∷ u ∷ ts) = t ∷ drop_last_semi (u ∷ ts)

abbrev pub is_empty {ℓ} : {A : Type ℓ} → List A → Bool
is_empty [] = true
is_empty (x ∷ xs) = false

-- The loop over the body, with the open parentheses and brackets.
unfoldable pub check_body : ℕ → ℕ → List Token → Result Reason (Unit {0})
unfolding is_banned reason_for_banned
check_body paren bracket [] = ensure (paren == 0 && bracket == 0) unbalanced
check_body paren bracket (param raw ∷ ts) = err bound_parameters
check_body paren bracket (word value raw ∷ ts) =
    ensure (not (is_banned value)) (reason_for_banned value) >> check_body paren bracket ts
check_body paren bracket (lparen ∷ ts) = check_body (suc paren) bracket ts
check_body zero bracket (rparen ∷ ts) = err unbalanced
check_body (suc paren) bracket (rparen ∷ ts) = check_body paren bracket ts
check_body paren bracket (lbracket ∷ ts) = check_body paren (suc bracket) ts
check_body paren zero (rbracket ∷ ts) = err unbalanced
check_body paren (suc bracket) (rbracket ∷ ts) = check_body paren bracket ts
check_body paren bracket (ws raw ∷ ts) = check_body paren bracket ts
check_body paren bracket (comment style body raw ∷ ts) = check_body paren bracket ts
check_body paren bracket (ident raw ∷ ts) = check_body paren bracket ts
check_body paren bracket (string raw ∷ ts) = check_body paren bracket ts
check_body paren bracket (number raw ∷ ts) = check_body paren bracket ts
check_body paren bracket (op raw ∷ ts) = check_body paren bracket ts
check_body paren bracket (semi ∷ ts) = check_body paren bracket ts
check_body paren bracket (comma ∷ ts) = check_body paren bracket ts

-- `token?.k === 'word' && token.value === value` for the first token
unfoldable pub starts_word : Text → List Token → Bool
unfolding text_eq
starts_word value (word w raw ∷ ts) = text_eq w value
starts_word value _ = false

unfoldable pub starts_name : List Token → Bool
starts_name (word w raw ∷ ts) = true
starts_name (ident raw ∷ ts) = true
starts_name _ = false

unfoldable pub starts_lparen : List Token → Bool
starts_lparen (lparen ∷ ts) = true
starts_lparen _ = false

unfoldable pub starts_comma : List Token → Bool
starts_comma (comma ∷ ts) = true
starts_comma _ = false

-- `skipBalanced`, inside `depth` parentheses: what follows the one that closes the last of them. Both
-- calls are at an opening parenthesis, so that the clause for `zero` and a closing one is not reached.
unfoldable pub skip_balanced : ℕ → List Token → Result Reason (List Token)
skip_balanced depth [] = err unbalanced
skip_balanced depth (lparen ∷ ts) = skip_balanced (suc depth) ts
skip_balanced zero (rparen ∷ ts) = err unbalanced
skip_balanced (suc zero) (rparen ∷ ts) = ok ts
skip_balanced (suc (suc depth)) (rparen ∷ ts) = skip_balanced (suc depth) ts
skip_balanced depth (_ ∷ ts) = skip_balanced depth ts

-- The names of the columns, if any.
unfoldable pub skip_columns : List Token → Result Reason (List Token)
unfolding starts_lparen skip_balanced
skip_columns ts = if starts_lparen ts then skip_balanced 0 ts else ok ts

unfoldable pub skip_materialized : List Token → Result Reason (List Token)
unfolding starts_word txt
skip_materialized ts =
    if starts_word (txt "not") ts
    then (if starts_word (txt "materialized") (drop 1 ts)
        then ok (drop 2 ts)
        else err with_must_end_in_select)
    else if starts_word (txt "materialized") ts
    then ok (drop 1 ts)
    else ok ts

-- One round of the loop of `assertWithSelect`: a common table expression.
unfoldable pub skip_cte : List Token → Result Reason (List Token)
unfolding starts_name skip_columns starts_word skip_materialized starts_lparen skip_balanced txt
skip_cte ts = do
  ensure (starts_name ts) with_must_end_in_select
  after_columns ← skip_columns (drop 1 ts)
  ensure (starts_word (txt "as") after_columns) with_must_end_in_select
  inner ← skip_materialized (drop 1 after_columns)
  ensure (starts_lparen inner) with_must_end_in_select
  skip_balanced 0 inner

-- The loop; it ends without a table at once, or after a table that no comma follows.
unfoldable pub skip_ctes : ℕ → List Token → Result Reason (List Token)
unfolding skip_cte starts_comma
skip_ctes fuel [] = ok []
skip_ctes zero (t ∷ ts) = err out_of_fuel
skip_ctes (suc fuel) (t ∷ ts) = skip_cte (t ∷ ts) >>= λ rest.
    let more = skip_ctes fuel (drop 1 rest) in if starts_comma rest then more else ok rest

-- After `with`. No table and no SELECT have the same reason.
unfoldable pub assert_with_select : List Token → Result Reason (Unit {0})
unfolding starts_word skip_ctes txt
assert_with_select ts =
    let start = if starts_word (txt "recursive") ts then drop 1 ts else ts in
    skip_ctes (length start) start >>= λ main.
    ensure (starts_word (txt "select") main) with_must_end_in_select

unfoldable pub check_start : List Token → Result Reason (Unit {0})
unfolding starts_word assert_with_select txt
check_start body =
    if starts_word (txt "with") body
    then assert_with_select (drop 1 body)
    else ensure (starts_word (txt "select") body) only_select

-- A semicolon is dropped where no later token is significant.
unfoldable pub render_tokens : List Token → Text
unfolding render_token is_significant is_semi
render_tokens [] = []
render_tokens (t ∷ ts) =
    let out = render_tokens ts in
    if is_semi t && not (any is_significant ts) then out else render_token t ++ out

unfoldable pub render_statement : List Token → Text
unfolding render_tokens trim
render_statement tokens = trim (render_tokens tokens)

-- The significant tokens without the last semicolon.
unfoldable pub body_of : List Token → List Token
unfolding is_significant drop_last_semi
body_of tokens = drop_last_semi (keep is_significant tokens)

-- The checks on the tokens, and the statement.
unfoldable pub guard_tokens : List Token → Result Reason Text
unfolding check_comments body_of is_semi check_body check_start render_statement
guard_tokens tokens = do
  check_comments tokens
  ensure (not (any is_semi (body_of tokens))) multiple_statements
  ensure (not (is_empty (body_of tokens))) empty_query
  check_body 0 0 (body_of tokens)
  check_start (body_of tokens)
  ensure (not (is_empty (render_statement tokens))) empty_query
  ok (render_statement tokens)

unfoldable pub guard_select_only : Text → Result Reason Text
unfolding scan guard_tokens
guard_select_only sql = scan sql >>= guard_tokens
