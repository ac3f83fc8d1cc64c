-- ===== src/Guard/Accepts.antt =====
-- What `guardSelectOnly` of packages/db-inspector/src/guard.ts accepts, and the statement it returns.
use revdev.Base.{
  Text, txt, trim, ◌≡◌, refl, ap, sym, ◌∙◌, Bool, true, false, not, List, [], ◌∷◌, ◌++◌, any, keep,
  All, ◌⊎◌, inl, inr,
}
use revdev.Base.Result.{ok, ◌>>=◌, ensure, split_bind, ensured, negated, returned_value}
use revdev.Guard.Words.{comment_hides_a_write, multiple_statements, empty_query}
use revdev.Guard.Tokens.{Token, comment, semi, is_semi, is_significant}
use revdev.Guard.Scan.{scan}
use revdev.Guard.Statement.{
  hides_write, drop_last_semi, check_comments, is_empty, check_body, check_start, starts_word,
  body_of, render_tokens, render_statement, guard_tokens, guard_select_only,
}
use revdev.Guard.Cover.{source_of}
use revdev.Guard.Spelling.{spell, spell-scan}
use revdev.Guard.Balance.{IsPermitted, check_body-IsPermitted}
use revdev.Guard.Comments.{IsQuiet, no_comment_writes}
use revdev.Guard.Skips.{Skips, check_start-Skips}

-- What the checks ask of the tokens.
pub record IsHarmless (tokens : List Token) : Type 0 where
  pub quiet : All IsQuiet tokens
  pub ending : List Token
  pub body_and_ending : keep is_significant tokens ≡ body_of tokens ++ ending
  pub no_more : (ending ≡ []) ⊎ (ending ≡ semi ∷ [])
  pub one_statement : any is_semi (body_of tokens) ≡ false
  pub permitted : IsPermitted 0 0 (body_of tokens)
  pub main : List Token
  pub outside : Skips 0 (body_of tokens) main
  pub selects : starts_word (txt "select") main ≡ true

drop_last_semi-append :
    (ts : List Token)
    → (ending : List Token) × (ts ≡ drop_last_semi ts ++ ending)
      × ((ending ≡ []) ⊎ (ending ≡ semi ∷ []))
unfolding drop_last_semi is_semi
drop_last_semi-append [] = ([], refl, inl refl)
drop_last_semi-append (semi ∷ []) = (semi ∷ [], refl, inr refl)
drop_last_semi-append (t ∷ []) = ([], refl, inl refl)
drop_last_semi-append (t ∷ u ∷ ts) =
    let (ending, e, cut) = drop_last_semi-append (u ∷ ts) in (ending, ap (λ x. t ∷ x) e, cut)

guard_tokens-IsHarmless :
    (tokens : List Token) (statement : Text)
    → guard_tokens tokens ≡ ok statement
    → IsHarmless tokens × (render_statement tokens ≡ statement)
unfolding guard_tokens check_comments body_of
guard_tokens-IsHarmless tokens statement h =
    let (u, e1, comments) =
      split_bind _ (ensure (not (any hides_write tokens)) comment_hides_a_write) h in
    let (v, e2, single) =
      split_bind _ (ensure (not (any is_semi (body_of tokens))) multiple_statements) e1 in
    let (w, e3, full) = split_bind _ (ensure (not (is_empty (body_of tokens))) empty_query) e2 in
    let (x, e4, passed) = split_bind _ (check_body 0 0 (body_of tokens)) e3 in
    let (y, e5, started) = split_bind _ (check_start (body_of tokens)) e4 in
    let (z, e6, written) =
      split_bind _ (ensure (not (is_empty (render_statement tokens))) empty_query) e5 in
    let cut = drop_last_semi-append (keep is_significant tokens) in
    let (main, outside, selects) = check_start-Skips (body_of tokens) started in
    (
      record {
        quiet = no_comment_writes tokens (negated _ (ensured _ _ u comments));
        ending = cut.0;
        body_and_ending = cut.1;
        no_more = cut.2;
        one_statement = negated _ (ensured _ _ v single);
        permitted = (check_body-IsPermitted (body_of tokens)).0 passed;
        main = main;
        outside = outside;
        selects = selects;
      },
      returned_value _ statement _ refl e6,
    )

-- A statement is returned only where the text scans to tokens that spell it exactly. No comment of theirs is
-- a line comment, has a semicolon, or has a banned word between units of no word. Without white space,
-- comments and one last semicolon, they hold no semicolon, no bound parameter and no banned word, are
-- balanced, and have a SELECT first or outside all parentheses. The statement is those tokens written again.
pub guard_select_only-IsHarmless :
    (sql statement : Text)
    → guard_select_only sql ≡ ok statement
    → (tokens : List Token) × (scan sql ≡ ok tokens)
      × (spell tokens ≡ sql)
      × IsHarmless tokens
      × (render_statement tokens ≡ statement)
unfolding guard_select_only
guard_select_only-IsHarmless sql statement h =
    let (tokens, accepted, scanned) = split_bind _ (scan sql) h in
    let (harmless, written) = guard_tokens-IsHarmless tokens statement accepted in
    (tokens, scanned, spell-scan sql tokens scanned, harmless, written)

unfoldable pub is_comment : Token → Bool
is_comment (comment style body raw) = true
is_comment _ = false

render_spells :
    (tokens : List Token)
    → any is_comment tokens ≡ false
    → any is_semi tokens ≡ false
    → render_tokens tokens ≡ spell tokens
unfolding render_tokens spell source_of is_comment is_semi
render_spells [] h k = refl
render_spells (comment style body raw ∷ ts) h k = cc
render_spells (semi ∷ ts) h k = cc
render_spells (t ∷ ts) h k = ap (λ x. source_of t ++ x) (render_spells ts h k)

-- Without comments and semicolons, the statement that is run is the text itself, trimmed.
pub statement_trimmed :
    (sql statement : Text) (tokens : List Token)
    → scan sql ≡ ok tokens
    → guard_select_only sql ≡ ok statement
    → any is_comment tokens ≡ false
    → any is_semi tokens ≡ false
    → statement ≡ trim sql
unfolding guard_select_only render_statement
statement_trimmed sql statement tokens scanned h no_comment no_semi =
    let accepted : guard_tokens tokens ≡ ok statement =
      ap (λ r. r >>= guard_tokens) (sym scanned) ∙ h in
    sym ((guard_tokens-IsHarmless tokens statement accepted).1)
    ∙ ap trim (render_spells tokens no_comment no_semi ∙ spell-scan sql tokens scanned)
