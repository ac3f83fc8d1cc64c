-- ===== src/Guard/Scan.antt =====
-- `scan` of packages/db-inspector/src/guard.ts.
use revdev.Base.{
  Text, to_lower, ℕ, zero, suc, ◌==◌, Bool, false, not, ◌&&◌, ◌||◌, Option, none, some, List, [],
  ◌∷◌, ◌++◌, drop, take, length, ltb, if◌then◌else◌,
}
use revdev.Base.Result.{Result, ok, err, ◌>>=◌}
use revdev.Guard.Words.{
  Reason, non_ascii, out_of_fuel, is_ws, is_digit, is_ident_start, is_ident_cont,
}
use revdev.Guard.Tokens.{
  Token, line, block, ws, comment, word, ident, string, number, op, semi, lparen, rparen, lbracket,
  rbracket, comma,
}
use revdev.Guard.Scanners.{
  starts, starts_with, span, scan_quoted, string_prefix, scan_ident, scan_dollar, scan_block,
  scan_number,
}

-- Each branch of the loop of `scan` takes the current unit and the text after it.
abbrev pub Branch : Type 0
Branch = ℕ → Text → Result Reason (Token × Text)

unfoldable pub scan_ws : Branch
unfolding span is_ws
scan_ws c s = let (run, rest) = span is_ws s in ok (ws (c ∷ run), rest)

unfoldable pub scan_line : Branch
unfolding span
scan_line c s =
    let (body, rest) = span (λ d. not (d == 10)) (drop 1 s) in
    ok (comment line body (b'-' ∷ b'-' ∷ body), rest)

unfoldable pub scan_comment : Branch
unfolding scan_block
scan_comment c s = do
  (body, rest) ← scan_block 0 false (drop 1 s)
  ok (comment block body (b'/' ∷ b'*' ∷ body ++ b'*' ∷ b'/' ∷ []), rest)

unfoldable pub scan_name : Branch
unfolding scan_ident
scan_name c s = do (raw, rest) ← scan_ident false s; ok (ident (c ∷ raw), rest)

unfoldable pub scan_string : Branch
unfolding scan_quoted
scan_string c s = do (raw, rest) ← scan_quoted false false s; ok (string (c ∷ raw), rest)

-- A string whose opening quote stands at `n`.
unfoldable pub scan_prefixed : ℕ → Bool → Branch
unfolding scan_quoted
scan_prefixed n escapes c s = do
  (raw, rest) ← scan_quoted escapes false (drop n s)
  ok (string (c ∷ take n s ++ raw), rest)

unfoldable pub scan_digits : Branch
unfolding scan_number
scan_digits c s = let (raw, rest) = scan_number (c ∷ s) in ok (number raw, rest)

unfoldable pub scan_word : Branch
unfolding span is_ident_cont to_lower
scan_word c s =
    let (run, rest) = span is_ident_cont s in ok (word (to_lower (c ∷ run)) (c ∷ run), rest)

unfoldable pub scan_mark : Branch
scan_mark c s =
    if c == b'('
    then ok (lparen, s)
    else if c == b')'
    then ok (rparen, s)
    else if c == b'['
    then ok (lbracket, s)
    else if c == b']'
    then ok (rbracket, s)
    else if c == b','
    then ok (comma, s)
    else if c == b';'
    then ok (semi, s)
    else ok (op (c ∷ []), s)

-- The branches after the one for strings with a prefix.
unfoldable pub plain_token : Branch
unfolding starts_with scan_dollar scan_digits scan_word scan_mark is_digit is_ident_start
plain_token c s =
    if c == b'$'
    then scan_dollar s
    else if is_digit c || c == b'.' && starts_with is_digit s
    then scan_digits c s
    else if is_ident_start c
    then scan_word c s
    else if ltb 127 c
    then err non_ascii
    else scan_mark c s

unfoldable pub prefixed_token : Option (ℕ × Bool) → Branch
unfolding plain_token scan_prefixed
prefixed_token none c s = plain_token c s
prefixed_token (some (n, escapes)) c s = scan_prefixed n escapes c s

-- One round of the loop: the token, and the text after it.
unfoldable pub next_token : Branch
unfolding starts scan_ws scan_line scan_comment scan_name scan_string string_prefix prefixed_token
    is_ws
next_token c s =
    if is_ws c
    then scan_ws c s
    else if c == b'-' && starts b'-' s
    then scan_line c s
    else if c == b'/' && starts b'*' s
    then scan_comment c s
    else if c == 34
    then scan_name c s
    else if c == 39
    then scan_string c s
    else prefixed_token (string_prefix (c ∷ s)) c s

unfoldable pub scan_loop : ℕ → Text → Result Reason (List Token)
unfolding next_token
scan_loop fuel [] = ok []
scan_loop zero (c ∷ s) = err out_of_fuel
scan_loop (suc fuel) (c ∷ s) = do
  (token, rest) ← next_token c s
  tokens ← scan_loop fuel rest
  ok (token ∷ tokens)

-- The length is enough fuel, since each round reads a unit.
unfoldable pub scan : Text → Result Reason (List Token)
unfolding scan_loop
scan sql = scan_loop (length sql) sql
