-- ===== src/Guard/Balance.antt =====
-- The loop of `guardSelectOnly` of packages/db-inspector/src/guard.ts over the body's tokens, against a
-- description that counts.
use revdev.Base.{
  ℕ, zero, suc, ◌+◌, ◌≤◌, ◌==◌, ◌≡◌, refl, Bool, true, false, not, ◌&&◌, ◌↔◌, List, [], ◌∷◌, take,
  count_if, All, arith, if◌then◌else◌,
}
use revdev.Base.Result.{ok, ensure, split_bind, ensured}
use revdev.Guard.Words.{is_banned, reason_for_banned}
use revdev.Guard.Tokens.{
  Token, ws, comment, word, ident, string, number, param, op, semi, lparen, rparen, lbracket,
  rbracket, comma,
}
use revdev.Guard.Statement.{check_body}

abbrev pub is_lparen : Token → Bool
is_lparen lparen = true
is_lparen _ = false

abbrev pub is_rparen : Token → Bool
is_rparen rparen = true
is_rparen _ = false

abbrev pub is_lbracket : Token → Bool
is_lbracket lbracket = true
is_lbracket _ = false

abbrev pub is_rbracket : Token → Bool
is_rbracket rbracket = true
is_rbracket _ = false

-- No bound parameter and no banned word.
abbrev pub is_permitted : Token → Bool
is_permitted (param raw) = false
is_permitted (word value raw) = not (is_banned value)
is_permitted _ = true

-- With `depth` open, no prefix closes more than is open, and the whole closes all.
abbrev pub IsBalanced : (Token → Bool) → (Token → Bool) → ℕ → List Token → Type 0
IsBalanced opens closes depth ts =
    ((n : ℕ) → count_if closes (take n ts) ≤ depth + count_if opens (take n ts))
    × (depth + count_if opens ts ≡ count_if closes ts)

-- 1 for a token that the test holds of.
abbrev one_when : (Token → Bool) → Token → ℕ
one_when test t = if test t then 1 else 0

module _ (opens closes : Token → Bool) (p q : ℕ) (t : Token) (ts : List Token) where
  counts_with :
      q + one_when closes t ≡ p + one_when opens t
      → IsBalanced opens closes q ts
      → IsBalanced opens closes p (t ∷ ts)
  counts_with moved (prefixes, total) = (at, omega (arith, moved, total))
    where
      at : (n : ℕ) → count_if closes (take n (t ∷ ts)) ≤ p + count_if opens (take n (t ∷ ts))
      at zero = omega arith
      at (suc n) = omega (arith, moved, prefixes n)

  counts_without :
      q + one_when closes t ≡ p + one_when opens t
      → IsBalanced opens closes p (t ∷ ts)
      → IsBalanced opens closes q ts
  counts_without moved (prefixes, total) =
      (λ n. omega (arith, moved, prefixes (suc n)), omega (arith, moved, total))

-- The description of a body that passes.
abbrev pub IsPermitted : ℕ → ℕ → List Token → Type 0
IsPermitted paren bracket ts =
    All (λ t. is_permitted t ≡ true) ts
    × IsBalanced is_lparen is_rparen paren ts
    × IsBalanced is_lbracket is_rbracket bracket ts

module _ (p q b d : ℕ) (t : Token) (ts : List Token)
    (parens : q + one_when is_rparen t ≡ p + one_when is_lparen t)
    (brackets : d + one_when is_rbracket t ≡ b + one_when is_lbracket t) where
  passes_with : is_permitted t ≡ true → IsPermitted q d ts → IsPermitted p b (t ∷ ts)
  passes_with good (all, h, k) = (
    (good, all),
    counts_with is_lparen is_rparen p q t ts parens h,
    counts_with is_lbracket is_rbracket b d t ts brackets k,
  )

  passes_without : IsPermitted p b (t ∷ ts) → IsPermitted q d ts
  passes_without ((good, all), h, k) = (
    all,
    counts_without is_lparen is_rparen p q t ts parens h,
    counts_without is_lbracket is_rbracket b d t ts brackets k,
  )

counts_nothing :
    (opens closes : Token → Bool) (depth : ℕ) → depth ≡ 0 → IsBalanced opens closes depth []
counts_nothing opens closes depth h = (none_left, omega (arith, h))
  where
    none_left : (n : ℕ) → count_if closes (take n []) ≤ depth + count_if opens (take n [])
    none_left zero = omega arith
    none_left (suc n) = omega arith

passes_nothing : (p b : ℕ) → (p == 0 && b == 0 ≡ true) → IsPermitted p b []
passes_nothing p b h = (
  tt,
  counts_nothing is_lparen is_rparen p (ground arith),
  counts_nothing is_lbracket is_rbracket b (ground arith),
)

pub check_body_permits :
    (p b : ℕ) (ts : List Token) → check_body p b ts ≡ ok tt → IsPermitted p b ts
unfolding check_body
check_body_permits p b [] h = passes_nothing p b (ensured _ _ tt h)
check_body_permits p b (param raw ∷ ts) h = cc
check_body_permits p b (word value raw ∷ ts) h =
    let (u, rest, good) =
      split_bind _ (ensure (not (is_banned value)) (reason_for_banned value)) h in
    passes_with p p b b (word value raw) ts refl refl (ensured _ _ u good)
      (check_body_permits p b ts rest)
check_body_permits p b (lparen ∷ ts) h =
    passes_with p (suc p) b b lparen ts (omega arith) refl refl (check_body_permits (suc p) b ts h)
check_body_permits zero b (rparen ∷ ts) h = cc
check_body_permits (suc p) b (rparen ∷ ts) h =
    passes_with (suc p) p b b rparen ts (omega arith) refl refl (check_body_permits p b ts h)
check_body_permits p b (lbracket ∷ ts) h =
    passes_with p p b (suc b) lbracket ts refl (omega arith) refl
      (check_body_permits p (suc b) ts h)
check_body_permits p zero (rbracket ∷ ts) h = cc
check_body_permits p (suc b) (rbracket ∷ ts) h =
    passes_with p p (suc b) b rbracket ts refl (omega arith) refl (check_body_permits p b ts h)
check_body_permits p b (ws raw ∷ ts) h =
    passes_with p p b b (ws raw) ts refl refl refl (check_body_permits p b ts h)
check_body_permits p b (comment style body raw ∷ ts) h =
    passes_with p p b b (comment style body raw) ts refl refl refl (check_body_permits p b ts h)
check_body_permits p b (ident raw ∷ ts) h =
    passes_with p p b b (ident raw) ts refl refl refl (check_body_permits p b ts h)
check_body_permits p b (string raw ∷ ts) h =
    passes_with p p b b (string raw) ts refl refl refl (check_body_permits p b ts h)
check_body_permits p b (number raw ∷ ts) h =
    passes_with p p b b (number raw) ts refl refl refl (check_body_permits p b ts h)
check_body_permits p b (op raw ∷ ts) h =
    passes_with p p b b (op raw) ts refl refl refl (check_body_permits p b ts h)
check_body_permits p b (semi ∷ ts) h =
    passes_with p p b b semi ts refl refl refl (check_body_permits p b ts h)
check_body_permits p b (comma ∷ ts) h =
    passes_with p p b b comma ts refl refl refl (check_body_permits p b ts h)

-- A closing token with nothing open.
closed_too_early :
    (opens closes : Token → Bool) (t : Token) (ts : List Token)
    → closes t ≡ true
    → opens t ≡ false
    → IsBalanced opens closes 0 (t ∷ ts)
    → ⊥
closed_too_early opens closes t ts c o (prefixes, total) = ground (arith, c, o, prefixes 1)

pub check_body_passes : (p b : ℕ) (ts : List Token) → IsPermitted p b ts → check_body p b ts ≡ ok tt
unfolding check_body
check_body_passes p b [] (all, h, k) =
    let empty : p == 0 && b == 0 ≡ true = ground (arith, h.1, k.1) in rw empty refl
check_body_passes p b (param raw ∷ ts) h = let wrong : false ≡ true = h.0.0 in cc
check_body_passes p b (word value raw ∷ ts) h =
    let good : not (is_banned value) ≡ true = h.0.0 in
    rw good (check_body_passes p b ts (passes_without p p b b (word value raw) ts refl refl h))
check_body_passes p b (lparen ∷ ts) h =
    check_body_passes (suc p) b ts (passes_without p (suc p) b b lparen ts (omega arith) refl h)
check_body_passes zero b (rparen ∷ ts) h =
    absurd (closed_too_early is_lparen is_rparen rparen ts refl refl h.1)
check_body_passes (suc p) b (rparen ∷ ts) h =
    check_body_passes p b ts (passes_without (suc p) p b b rparen ts (omega arith) refl h)
check_body_passes p b (lbracket ∷ ts) h =
    check_body_passes p (suc b) ts (passes_without p p b (suc b) lbracket ts refl (omega arith) h)
check_body_passes p zero (rbracket ∷ ts) h =
    absurd (closed_too_early is_lbracket is_rbracket rbracket ts refl refl h.2)
check_body_passes p (suc b) (rbracket ∷ ts) h =
    check_body_passes p b ts (passes_without p p (suc b) b rbracket ts refl (omega arith) h)
check_body_passes p b (ws raw ∷ ts) h =
    check_body_passes p b ts (passes_without p p b b (ws raw) ts refl refl h)
check_body_passes p b (comment style body raw ∷ ts) h =
    check_body_passes p b ts (passes_without p p b b (comment style body raw) ts refl refl h)
check_body_passes p b (ident raw ∷ ts) h =
    check_body_passes p b ts (passes_without p p b b (ident raw) ts refl refl h)
check_body_passes p b (string raw ∷ ts) h =
    check_body_passes p b ts (passes_without p p b b (string raw) ts refl refl h)
check_body_passes p b (number raw ∷ ts) h =
    check_body_passes p b ts (passes_without p p b b (number raw) ts refl refl h)
check_body_passes p b (op raw ∷ ts) h =
    check_body_passes p b ts (passes_without p p b b (op raw) ts refl refl h)
check_body_passes p b (semi ∷ ts) h =
    check_body_passes p b ts (passes_without p p b b semi ts refl refl h)
check_body_passes p b (comma ∷ ts) h =
    check_body_passes p b ts (passes_without p p b b comma ts refl refl h)

-- The loop passes exactly the bodies without a bound parameter and without a banned word in which
-- parentheses and brackets, each counted alone, are balanced.
pub check_body-IsPermitted : (ts : List Token) → (check_body 0 0 ts ≡ ok tt) ↔ IsPermitted 0 0 ts
check_body-IsPermitted ts = (check_body_permits 0 0 ts, check_body_passes 0 0 ts)
