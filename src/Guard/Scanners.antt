-- ===== src/Guard/Scanners.antt =====
-- The scanners of packages/db-inspector/src/guard.ts. The source keeps an index into the text; here a
-- scanner takes the text from that index on, and returns what it read and what is left.
use revdev.Base.{
  Text, ℕ, zero, suc, ◌==◌, Bool, true, false, not, ◌&&◌, ◌||◌, Option, none, some, [], ◌∷◌, ◌++◌,
  drop, if◌then◌else◌,
}
use revdev.Base.Prefix.{strip_prefix}
use revdev.Base.Result.{Result, ok, err, ◌>>=◌}
use revdev.Guard.Words.{
  Reason, unterminated_string, unterminated_identifier, unterminated_dollar_quote,
  unsupported_dollar, unterminated_block_comment, is_digit, is_ident_start, is_ident_cont,
}
use revdev.Guard.Tokens.{Token, string, param}

-- `sql[i] === c`
unfoldable pub starts : ℕ → Text → Bool
starts c [] = false
starts c (d ∷ s) = d == c

-- The first unit passes the test.
unfoldable pub starts_with : (ℕ → Bool) → Text → Bool
starts_with test [] = false
starts_with test (d ∷ s) = test d

-- `while (j < sql.length && test(sql[j])) j += 1`
unfoldable pub span : (ℕ → Bool) → Text → Text × Text
span test [] = ([], [])
span test (c ∷ s) = let (run, rest) = span test s in if test c then (c ∷ run, rest) else ([], c ∷ s)

-- One more unit before what a scanner read.
abbrev pub reads {ℓ} : {E : Type ℓ} → ℕ → Result E (Text × Text) → Result E (Text × Text)
reads c (err e) = err e
reads c (ok (raw, rest)) = ok (c ∷ raw, rest)

-- After the opening quote. `skip` is set where the source has advanced by two: this unit is the second
-- of an escape or of a doubled quote. 39 is the quote, 92 the backslash.
unfoldable pub scan_quoted : Bool → Bool → Text → Result Reason (Text × Text)
unfolding starts
scan_quoted escapes skip [] = err unterminated_string
scan_quoted escapes skip (c ∷ s) =
    let escaped = not skip && escapes && c == 92 in
    let quote = not skip && not escaped && c == 39 in
    let rest = reads c (scan_quoted escapes (escaped || quote) s) in
    if quote && not (starts 39 s) then ok (c ∷ [], s) else rest

-- The length of the prefix, and whether backslashes escape.
unfoldable pub string_prefix : Text → Option (ℕ × Bool)
unfolding starts
string_prefix [] = none
string_prefix (c ∷ s) =
    let is_e = c == b'E' || c == b'e' in
    let one = is_e || c == b'N' || c == b'n' || c == b'B' || c == b'b' || c == b'X' || c == b'x' in
    if one && starts 39 s
    then some (1, is_e)
    else if (c == b'U' || c == b'u') && starts b'&' s && starts 39 (drop 1 s)
    then some (2, true)
    else none

-- After the opening double quote, 34.
unfoldable pub scan_ident : Bool → Text → Result Reason (Text × Text)
unfolding starts
scan_ident skip [] = err unterminated_identifier
scan_ident skip (c ∷ s) =
    let quote = not skip && c == 34 in
    let rest = reads c (scan_ident quote s) in
    if quote && not (starts 34 s) then ok (c ∷ [], s) else rest

abbrev pub matched : Text → Option Text → Result Reason (Text × Text) → Result Reason (Text × Text)
matched p (some rest) later = ok (p, rest)
matched p none later = later

-- `sql.indexOf(p, i)`, up to the end of `p`
unfoldable pub find_close : Text → Text → Result Reason (Text × Text)
unfolding strip_prefix
find_close p [] = matched p (strip_prefix p []) (err unterminated_dollar_quote)
find_close p (c ∷ s) =
    let later = reads c (find_close p s) in matched p (strip_prefix p (c ∷ s)) later

-- A string that starts with `opening`, after it.
abbrev pub dollar_quote : Text → Text → Result Reason (Token × Text)
dollar_quote opening s = do (raw, rest) ← find_close opening s; ok (string (opening ++ raw), rest)

-- What follows the tag of a dollar quote.
unfoldable pub after_tag : Text → Text → Result Reason (Token × Text)
unfolding find_close
after_tag tag [] = err unsupported_dollar
after_tag tag (c ∷ s) =
    if c == b'$' then dollar_quote (b'$' ∷ tag ++ b'$' ∷ []) s else err unsupported_dollar

-- After the first `$`.
unfoldable pub scan_dollar : Text → Result Reason (Token × Text)
unfolding span find_close after_tag is_digit is_ident_start is_ident_cont
scan_dollar [] = err unsupported_dollar
scan_dollar (c ∷ s) =
    if c == b'$'
    then dollar_quote (b'$' ∷ b'$' ∷ []) s
    else if is_digit c
    then (let (run, rest) = span is_digit (c ∷ s) in ok (param (b'$' ∷ run), rest))
    else if is_ident_start c
    then (let (tag, rest) = span is_ident_cont (c ∷ s) in after_tag tag rest)
    else err unsupported_dollar

-- After the opening `/*`, inside `depth` further ones: the body, and what follows its `*/`. `skip` as above.
unfoldable pub scan_block : ℕ → Bool → Text → Result Reason (Text × Text)
unfolding starts
scan_block depth skip [] = err unterminated_block_comment
scan_block depth skip (c ∷ s) =
    let opens = not skip && c == b'/' && starts b'*' s in
    let closes = not skip && c == b'*' && starts b'/' s in
    let inner =
      if opens
      then suc depth
      else if closes
      then (elim depth [ zero ↦ 0 | suc d ↦ d ])
      else depth in
    let rest = reads c (scan_block inner (opens || closes) s) in
    if closes && depth == 0 then ok ([], drop 1 s) else rest

-- A scanner that cannot fail, after another.
abbrev pub and_then : (Text → Text × Text) → Text × Text → Text × Text
and_then f (raw, rest) = let (more, left) = f rest in (raw ++ more, left)

-- One unit, if the test holds.
unfoldable pub one_if : (ℕ → Bool) → Text → Text × Text
one_if test [] = ([], [])
one_if test (c ∷ s) = if test c then (c ∷ [], s) else ([], c ∷ s)

unfoldable pub scan_exponent : Text → Text × Text
unfolding span one_if starts_with is_digit
scan_exponent s =
    let (sign, more) =
      and_then (one_if (λ c. c == b'+' || c == b'-')) (one_if (λ c. c == b'e' || c == b'E') s) in
    if starts_with (λ c. c == b'e' || c == b'E') s && starts_with is_digit more
    then and_then (span is_digit) (sign, more)
    else ([], s)

-- The part after the first digits.
unfoldable pub scan_fraction : Bool → Text → Text × Text
unfolding span one_if starts
scan_fraction dotted s =
    if not dotted && starts b'.' s
    then and_then (span is_digit) (one_if (λ c. c == b'.') s)
    else ([], s)

unfoldable pub scan_number : Text → Text × Text
unfolding span one_if starts scan_exponent scan_fraction
scan_number s = and_then scan_exponent (
    and_then (scan_fraction (starts b'.' s)) (and_then (span is_digit) (one_if (λ c. c == b'.') s)))
