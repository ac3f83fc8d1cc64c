-- ===== src/Guard/Cover.antt =====
-- The text that one round of `scan` of packages/db-inspector/src/guard.ts reads a token from.
use revdev.Base.{
  Text, ℕ, zero, suc, ◌==◌, ◌≡◌, refl, ap, sym, subst, ◌∙◌, Bool, true, false, Bool-cases, inl, inr,
  not, ◌&&◌, ◌||◌, Option, none, some, [], ◌∷◌, ◌++◌, drop, take, arith, if◌then◌else◌, ltb, ==_iff,
}
use mathlib.Core.List.{append_assoc}
use revdev.Base.Result.{Result, ok, err, ◌>>=◌, returned_value}
use revdev.Guard.Words.{Reason, non_ascii, is_digit, is_ident_start, is_ident_cont, is_ws}
use revdev.Guard.Tokens.{
  Token, block, comment, ident, string, op, semi, lparen, rparen, lbracket, rbracket, comma,
  render_token,
}
use revdev.Guard.Scanners.{
  starts, starts_with, span, dollar_quote, after_tag, scan_dollar, one_if, scan_number,
}
use revdev.Guard.Scan.{
  scan_ws, scan_line, scan_comment, scan_name, scan_string, scan_prefixed, scan_digits, scan_word,
  scan_mark, plain_token, prefixed_token, next_token,
}
use revdev.Guard.Splits.{
  scan_quoted-Splits, scan_ident-Splits, find_close-Splits, scan_block-Closes, span-IsSplit,
  scan_number-IsSplit, starts_found,
}

-- The text that a token was read from.
unfoldable pub source_of : Token → Text
unfolding render_token
source_of (comment style body raw) = raw
source_of t = render_token t

-- What a branch of the loop reads starts with the current unit, and is followed by what it leaves.
abbrev pub Reads : ℕ → Text → Token → Text → Type 0
Reads c s t rest = (more : Text) × (source_of t ≡ c ∷ more) × (s ≡ more ++ rest)

abbrev pub Covers : ℕ → Text → Result Reason (Token × Text) → Type 0
Covers c s r = (t : Token) (rest : Text) → r ≡ ok (t, rest) → Reads c s t rest

ok-Covers :
    (c : ℕ) (s : Text) (t : Token) (rest : Text) → Reads c s t rest → Covers c s (ok (t, rest))
ok-Covers c s t rest h u left returned =
    let same : (t, rest) ≡ (u, left) = returned_value (t, rest) (u, left) _ refl returned in
    let same_token : t ≡ u = ap (λ p. p.0) same in
    let same_rest : rest ≡ left = ap (λ p. p.1) same in
    (h.0, ap source_of (sym same_token) ∙ h.1, h.2 ∙ ap (λ x. h.0 ++ x) same_rest)

err-Covers : (c : ℕ) (s : Text) (e : Reason) → Covers c s (err e)
err-Covers c s e t rest returned = cc

bind-Covers :
    (f : Text → Token) (c : ℕ) (s : Text) (r : Result Reason (Text × Text))
    → ((raw rest : Text) → r ≡ ok (raw, rest) → Reads c s (f raw) rest)
    → Covers c s (r >>= λ (raw, rest). ok (f raw, rest))
bind-Covers f c s (err e) h = err-Covers c s e
bind-Covers f c s (ok (raw, rest)) h = ok-Covers c s (f raw) rest (h raw rest refl)

if-Covers :
    (b : Bool) (c : ℕ) (s : Text) (p q : Result Reason (Token × Text))
    → (b ≡ true → Covers c s p)
    → Covers c s q
    → Covers c s (if b then p else q)
if-Covers true c s p q h k = h refl
if-Covers false c s p q h k = k

scan_ws-Covers : (c : ℕ) (s : Text) → Covers c s (scan_ws c s)
unfolding scan_ws source_of
scan_ws-Covers c s = ok-Covers c s _ _ (_, refl, (span-IsSplit is_ws s).joined)

scan_word-Covers : (c : ℕ) (s : Text) → Covers c s (scan_word c s)
unfolding scan_word source_of
scan_word-Covers c s = ok-Covers c s _ _ (_, refl, (span-IsSplit is_ident_cont s).joined)

scan_line-Covers : (c : ℕ) (s : Text) → c ≡ b'-' → starts b'-' s ≡ true → Covers c s (scan_line c s)
unfolding scan_line source_of
scan_line-Covers c s first second = ok-Covers c s _ _ (
  _,
  ap (λ x. x ∷ b'-' ∷ (span (λ d. not (d == 10)) (drop 1 s)).0) (sym first),
  starts_found b'-' s second
      ∙ ap (λ x. b'-' ∷ x) (span-IsSplit (λ d. not (d == 10)) (drop 1 s)).joined,
)

scan_comment-Covers :
    (c : ℕ) (s : Text) → c ≡ b'/' → starts b'*' s ≡ true → Covers c s (scan_comment c s)
unfolding scan_comment source_of
scan_comment-Covers c s first second =
    bind-Covers (λ body. comment block body (b'/' ∷ b'*' ∷ body ++ b'*' ∷ b'/' ∷ [])) c s _
      λ body rest returned. (
        b'*' ∷ body ++ b'*' ∷ b'/' ∷ [],
        ap (λ x. x ∷ b'*' ∷ body ++ b'*' ∷ b'/' ∷ []) (sym first),
        starts_found b'*' s second
            ∙ ap (λ x. b'*' ∷ x) (scan_block-Closes (drop 1 s) 0 false body rest returned)
            ∙ ap (λ x. b'*' ∷ x) (sym (append_assoc body (b'*' ∷ b'/' ∷ []) rest)),
      )

scan_name-Covers : (c : ℕ) (s : Text) → Covers c s (scan_name c s)
unfolding scan_name source_of
scan_name-Covers c s =
    bind-Covers (λ raw. ident (c ∷ raw)) c s _
      λ raw rest returned. (raw, refl, scan_ident-Splits s false raw rest returned)

scan_string-Covers : (c : ℕ) (s : Text) → Covers c s (scan_string c s)
unfolding scan_string source_of
scan_string-Covers c s =
    bind-Covers (λ raw. string (c ∷ raw)) c s _
      λ raw rest returned. (raw, refl, scan_quoted-Splits false s false raw rest returned)

take-drop : (n : ℕ) (s : Text) → s ≡ take n s ++ drop n s
take-drop zero s = refl
take-drop (suc n) [] = refl
take-drop (suc n) (c ∷ s) = ap (λ t. c ∷ t) (take-drop n s)

scan_prefixed-Covers :
    (n : ℕ) (escapes : Bool) (c : ℕ) (s : Text) → Covers c s (scan_prefixed n escapes c s)
unfolding scan_prefixed source_of
scan_prefixed-Covers n escapes c s =
    bind-Covers (λ raw. string (c ∷ take n s ++ raw)) c s _
      λ raw rest returned. (
        take n s ++ raw,
        refl,
        take-drop n s
            ∙ ap (λ x. take n s ++ x)
                (scan_quoted-Splits escapes (drop n s) false raw rest returned)
            ∙ sym (append_assoc (take n s) raw rest),
      )

scan_mark-Covers : (c : ℕ) (s : Text) → Covers c s (scan_mark c s)
unfolding scan_mark source_of
scan_mark-Covers c s = if-Covers (c == b'(') c s _ _ (mark b'(' lparen refl) (
    if-Covers (c == b')') c s _ _ (mark b')' rparen refl) (
      if-Covers (c == b'[') c s _ _ (mark b'[' lbracket refl) (
        if-Covers (c == b']') c s _ _ (mark b']' rbracket refl) (
          if-Covers (c == b',') c s _ _ (mark b',' comma refl) (
            if-Covers (c == b';') c s _ _ (mark b';' semi refl)
              (ok-Covers c s (op (c ∷ [])) s ([], refl, refl)))))))
  where
    mark : (d : ℕ) (t : Token) → source_of t ≡ d ∷ [] → (c == d) ≡ true → Covers c s (ok (t, s))
    mark d t spelled same =
        ok-Covers c s t s ([], spelled ∙ ap (λ x. x ∷ []) (sym ((==_iff c d).0 same)), refl)

-- A number starts with the current unit.
number_starts :
    (c : ℕ) (s : Text)
    → is_digit c || c == b'.' && starts_with is_digit s ≡ true
    → (scan_number (c ∷ s)).0 ≡ c ∷ drop 1 (scan_number (c ∷ s)).0
unfolding scan_number one_if span
number_starts c s h = elim (Bool-cases (c == b'.')) [
  | inl dot ↦ rw dot refl
  | inr other ↦ let digit : is_digit c ≡ true = ground arith in rw (other, digit) refl
]

scan_digits-Covers :
    (c : ℕ) (s : Text)
    → is_digit c || c == b'.' && starts_with is_digit s ≡ true
    → Covers c s (scan_digits c s)
unfolding scan_digits source_of
scan_digits-Covers c s h =
    let first = number_starts c s h in
    let whole =
      (scan_number-IsSplit (c ∷ s)).joined ∙ ap (λ x. x ++ (scan_number (c ∷ s)).1) first in
    ok-Covers c s _ _ (drop 1 (scan_number (c ∷ s)).0, first, ap (drop 1) whole)

dollar_quote-Covers :
    (c : ℕ) (s opening rest : Text)
    → s ≡ opening ++ rest
    → Covers c s (dollar_quote (c ∷ opening) rest)
unfolding source_of
dollar_quote-Covers c s opening rest h =
    bind-Covers (λ raw. string (c ∷ opening ++ raw)) c s _
      λ raw left returned. (
        opening ++ raw,
        refl,
        h
            ∙ ap (λ x. opening ++ x) (find_close-Splits _ rest raw left returned)
            ∙ sym (append_assoc opening raw left),
      )

after_tag-Covers : (s tag rest : Text) → s ≡ tag ++ rest → Covers b'$' s (after_tag tag rest)
unfolding after_tag
after_tag-Covers s tag [] h = err-Covers b'$' s _
after_tag-Covers s tag (d ∷ rest) h =
    if-Covers (d == b'$') b'$' s _ _
      (λ same. dollar_quote-Covers b'$' s (tag ++ b'$' ∷ []) rest (
        h
        ∙ ap (λ x. tag ++ x ∷ rest) ((==_iff d b'$').0 same)
        ∙ sym (append_assoc tag (b'$' ∷ []) rest)))
      (err-Covers b'$' s _)

scan_dollar-Covers : (s : Text) → Covers b'$' s (scan_dollar s)
unfolding scan_dollar source_of
scan_dollar-Covers [] = err-Covers b'$' [] _
scan_dollar-Covers (c ∷ s) =
    if-Covers (c == b'$') b'$' (c ∷ s) _ _
      (λ same.
        dollar_quote-Covers b'$' (c ∷ s) (b'$' ∷ []) s (ap (λ x. x ∷ s) ((==_iff c b'$').0 same)))
      (if-Covers (is_digit c) b'$' (c ∷ s) _ _
        (λ digit. ok-Covers b'$' (c ∷ s) _ _ (_, refl, (span-IsSplit is_digit (c ∷ s)).joined))
        (if-Covers (is_ident_start c) b'$' (c ∷ s) _ _
          (λ letter.
            after_tag-Covers (c ∷ s) (span is_ident_cont (c ∷ s)).0 (span is_ident_cont (c ∷ s)).1
              (span-IsSplit is_ident_cont (c ∷ s)).joined)
          (err-Covers b'$' (c ∷ s) _)))

plain_token-Covers : (c : ℕ) (s : Text) → Covers c s (plain_token c s)
unfolding plain_token
plain_token-Covers c s =
    if-Covers (c == b'$') c s _ _
      (λ same.
        subst (λ d. Covers d s (scan_dollar s)) (sym ((==_iff c b'$').0 same))
          (scan_dollar-Covers s))
      (if-Covers _ c s _ _ (scan_digits-Covers c s) (
        if-Covers (is_ident_start c) c s _ _ (λ letter. scan_word-Covers c s)
          (if-Covers (ltb 127 c) c s _ _ (λ wide. err-Covers c s non_ascii)
            (scan_mark-Covers c s))))

prefixed_token-Covers :
    (o : Option (ℕ × Bool)) (c : ℕ) (s : Text) → Covers c s (prefixed_token o c s)
unfolding prefixed_token
prefixed_token-Covers none c s = plain_token-Covers c s
prefixed_token-Covers (some (n, escapes)) c s = scan_prefixed-Covers n escapes c s

pub next_token-Covers : (c : ℕ) (s : Text) → Covers c s (next_token c s)
unfolding next_token
next_token-Covers c s =
    if-Covers _ c s _ _ (λ white. scan_ws-Covers c s)
      (if-Covers _ c s _ _
        (λ h. scan_line-Covers c s ((==_iff c b'-').0 (ground arith)) (ground arith))
        (if-Covers _ c s _ _
          (λ h. scan_comment-Covers c s ((==_iff c b'/').0 (ground arith)) (ground arith))
          (if-Covers _ c s _ _ (λ quote. scan_name-Covers c s)
            (if-Covers _ c s _ _ (λ quote. scan_string-Covers c s) (prefixed_token-Covers _ c s)))))
