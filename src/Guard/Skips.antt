-- ===== src/Guard/Skips.antt =====
-- `assertWithSelect` of packages/db-inspector/src/guard.ts: where the SELECT that it accepts stands.
use revdev.Base.{
  Text, txt, ℕ, zero, suc, ◌+◌, ◌≡◌, refl, ap, sym, subst, ◌∙◌, Bool, true, false, Bool-cases, inl,
  inr, List, [], ◌∷◌, ◌++◌, drop, length, count_if, arith, if◌then◌else◌,
}
use mathlib.Core.List.{append_assoc}
use revdev.Base.Result.{Result, ok, err, ensure, split_bind, ensured, returned_value}
use revdev.Guard.Words.{Reason, with_must_end_in_select, only_select}
use revdev.Guard.Tokens.{
  Token, ws, comment, word, ident, string, number, param, op, semi, lparen, rparen, lbracket,
  rbracket, comma,
}
use revdev.Guard.Statement.{
  starts_word, starts_name, starts_lparen, starts_comma, skip_balanced, skip_columns,
  skip_materialized, skip_cte, skip_ctes, assert_with_select, check_start,
}
use revdev.Guard.Balance.{is_lparen, is_rparen}

-- `rest` is what follows a part of `ts` that closes all that it opens and `depth` more.
pub record Skips (depth : ℕ) (ts rest : List Token) : Type 0 where
  pub front : List Token
  pub whole : ts ≡ front ++ rest
  pub level : depth + count_if is_lparen front ≡ count_if is_rparen front

Skips-nothing : (ts : List Token) → Skips 0 ts ts
Skips-nothing ts = record { front = []; whole = refl; level = omega arith }

Skips-then : {a b c : List Token} → Skips 0 a b → Skips 0 b c → Skips 0 a c
Skips-then {c = c} p q = record {
  front = p.front ++ q.front;
  whole = p.whole ∙ ap (λ x. p.front ++ x) q.whole ∙ sym (append_assoc p.front q.front c);
  level = omega (
    arith,
    p.level,
    q.level,
    count_if-append is_lparen p.front q.front,
    count_if-append is_rparen p.front q.front,
  );
}
  where
    count_if-append :
        (test : Token → Bool) (xs ys : List Token)
        → count_if test (xs ++ ys) ≡ count_if test xs + count_if test ys
    count_if-append test [] ys = omega arith
    count_if-append test (x ∷ xs) ys = omega (arith, count_if-append test xs ys)

-- One token more before the part.
module _ (p q : ℕ) (t : Token) (ts rest : List Token) where
  Skips-before :
      p + (if is_lparen t then 1 else 0) ≡ q + (if is_rparen t then 1 else 0)
      → Skips q ts rest
      → Skips p (t ∷ ts) rest
  Skips-before moved h = record {
    front = t ∷ h.front;
    whole = ap (λ x. t ∷ x) h.whole;
    level = omega (arith, moved, h.level);
  }

-- A first token that is no parenthesis.
Skips-drop : (ts : List Token) → starts_name ts ≡ true → Skips 0 ts (drop 1 ts)
unfolding starts_name
Skips-drop [] h = cc
Skips-drop (word w raw ∷ ts) h = record {
  front = word w raw ∷ [];
  whole = refl;
  level = omega arith;
}
Skips-drop (ident raw ∷ ts) h = record { front = ident raw ∷ []; whole = refl; level = omega arith }
Skips-drop (_ ∷ ts) h = cc

starts_word_name : (w : Text) (ts : List Token) → starts_word w ts ≡ true → starts_name ts ≡ true
unfolding starts_word starts_name
starts_word_name w [] h = cc
starts_word_name w (word v raw ∷ ts) h = refl
starts_word_name w (_ ∷ ts) h = cc

Skips-comma : (ts : List Token) → starts_comma ts ≡ true → Skips 0 ts (drop 1 ts)
unfolding starts_comma
Skips-comma [] h = cc
Skips-comma (comma ∷ ts) h = record { front = comma ∷ []; whole = refl; level = omega arith }
Skips-comma (_ ∷ ts) h = cc

skip_balanced-Skips :
    (ts : List Token) (depth : ℕ) (rest : List Token)
    → skip_balanced depth ts ≡ ok rest
    → Skips depth ts rest
unfolding skip_balanced
skip_balanced-Skips [] depth rest h = cc
skip_balanced-Skips (lparen ∷ ts) depth rest h =
    Skips-before depth (suc depth) lparen ts rest (omega arith)
      (skip_balanced-Skips ts (suc depth) rest h)
skip_balanced-Skips (rparen ∷ ts) zero rest h = cc
skip_balanced-Skips (rparen ∷ ts) (suc zero) rest h = record {
  front = rparen ∷ [];
  whole = ap (λ x. rparen ∷ x) (returned_value ts rest _ refl h);
  level = omega arith;
}
skip_balanced-Skips (rparen ∷ ts) (suc (suc depth)) rest h =
    Skips-before (suc (suc depth)) (suc depth) rparen ts rest (omega arith)
      (skip_balanced-Skips ts (suc depth) rest h)
skip_balanced-Skips (ws raw ∷ ts) depth rest h =
    Skips-before depth depth (ws raw) ts rest refl (skip_balanced-Skips ts depth rest h)
skip_balanced-Skips (comment style body raw ∷ ts) depth rest h =
    Skips-before depth depth (comment style body raw) ts rest refl
      (skip_balanced-Skips ts depth rest h)
skip_balanced-Skips (word w raw ∷ ts) depth rest h =
    Skips-before depth depth (word w raw) ts rest refl (skip_balanced-Skips ts depth rest h)
skip_balanced-Skips (ident raw ∷ ts) depth rest h =
    Skips-before depth depth (ident raw) ts rest refl (skip_balanced-Skips ts depth rest h)
skip_balanced-Skips (string raw ∷ ts) depth rest h =
    Skips-before depth depth (string raw) ts rest refl (skip_balanced-Skips ts depth rest h)
skip_balanced-Skips (number raw ∷ ts) depth rest h =
    Skips-before depth depth (number raw) ts rest refl (skip_balanced-Skips ts depth rest h)
skip_balanced-Skips (param raw ∷ ts) depth rest h =
    Skips-before depth depth (param raw) ts rest refl (skip_balanced-Skips ts depth rest h)
skip_balanced-Skips (op raw ∷ ts) depth rest h =
    Skips-before depth depth (op raw) ts rest refl (skip_balanced-Skips ts depth rest h)
skip_balanced-Skips (semi ∷ ts) depth rest h =
    Skips-before depth depth semi ts rest refl (skip_balanced-Skips ts depth rest h)
skip_balanced-Skips (lbracket ∷ ts) depth rest h =
    Skips-before depth depth lbracket ts rest refl (skip_balanced-Skips ts depth rest h)
skip_balanced-Skips (rbracket ∷ ts) depth rest h =
    Skips-before depth depth rbracket ts rest refl (skip_balanced-Skips ts depth rest h)
skip_balanced-Skips (comma ∷ ts) depth rest h =
    Skips-before depth depth comma ts rest refl (skip_balanced-Skips ts depth rest h)

abbrev Returns : List Token → Result Reason (List Token) → Type 0
Returns ts r = (rest : List Token) → r ≡ ok rest → Skips 0 ts rest

ok-Returns : (ts out : List Token) → Skips 0 ts out → Returns ts (ok out)
ok-Returns ts out h rest e = subst (Skips 0 ts) (returned_value out rest _ refl e) h

err-Returns : (ts : List Token) (e : Reason) → Returns ts (err e)
err-Returns ts e rest h = cc

if-Returns :
    (b : Bool) (ts : List Token) (p q : Result Reason (List Token))
    → (b ≡ true → Returns ts p)
    → Returns ts q
    → Returns ts (if b then p else q)
if-Returns true ts p q h k = h refl
if-Returns false ts p q h k = k

then-Returns :
    (a b : List Token) (r : Result Reason (List Token)) → Skips 0 a b → Returns b r → Returns a r
then-Returns a b r before after rest e = Skips-then before (after rest e)

word-Returns :
    (w : Text) (ts out : List Token)
    → starts_word w ts ≡ true
    → Skips 0 (drop 1 ts) out
    → Skips 0 ts out
word-Returns w ts out h k = Skips-then (Skips-drop ts (starts_word_name w ts h)) k

skip_columns-Returns : (ts : List Token) → Returns ts (skip_columns ts)
unfolding skip_columns
skip_columns-Returns ts =
    if-Returns (starts_lparen ts) ts _ _ (λ opens. skip_balanced-Skips ts 0)
      (ok-Returns ts ts (Skips-nothing ts))

drop_two : (ts : List Token) → drop 1 (drop 1 ts) ≡ drop 2 ts
drop_two [] = refl
drop_two (t ∷ ts) = refl

skip_materialized-Returns : (ts : List Token) → Returns ts (skip_materialized ts)
unfolding skip_materialized
skip_materialized-Returns ts =
    if-Returns (starts_word (txt "not") ts) ts _ _
      (λ first.
        if-Returns (starts_word (txt "materialized") (drop 1 ts)) ts _ _
          (λ second. ok-Returns ts (drop 2 ts) (
            word-Returns (txt "not") ts (drop 2 ts) first (
              word-Returns (txt "materialized") (drop 1 ts) (drop 2 ts) second
                (subst (Skips 0 (drop 1 (drop 1 ts))) (drop_two ts) (Skips-nothing _)))))
          (err-Returns ts _))
      (if-Returns (starts_word (txt "materialized") ts) ts _ _
        (λ first.
          ok-Returns ts (drop 1 ts)
            (word-Returns (txt "materialized") ts (drop 1 ts) first (Skips-nothing _)))
        (ok-Returns ts ts (Skips-nothing ts)))

-- One table: it reads a name first, and leaves off outside its parentheses.
pub skip_cte-Skips :
    (ts rest : List Token)
    → skip_cte ts ≡ ok rest
    → Skips 0 (drop 1 ts) rest × (starts_name ts ≡ true)
unfolding skip_cte
skip_cte-Skips ts rest h =
    let (u, e1, name) = split_bind _ (ensure (starts_name ts) with_must_end_in_select) h in
    let (after, e2, columns) = split_bind _ (skip_columns (drop 1 ts)) e1 in
    let (v, e3, as_word) =
      split_bind _ (ensure (starts_word (txt "as") after) with_must_end_in_select) e2 in
    let (inner, e4, materialized) = split_bind _ (skip_materialized (drop 1 after)) e3 in
    let (w, e5, opens) = split_bind _ (ensure (starts_lparen inner) with_must_end_in_select) e4 in
    (
      Skips-then (skip_columns-Returns (drop 1 ts) after columns) (
          word-Returns (txt "as") after rest (ensured _ _ v as_word) (
            Skips-then (skip_materialized-Returns (drop 1 after) inner materialized)
              (skip_balanced-Skips inner 0 rest e5))),
      ensured _ _ u name,
    )

pub skip_cte-whole : (ts rest : List Token) → skip_cte ts ≡ ok rest → Skips 0 ts rest
skip_cte-whole ts rest h =
    let (after, name) = skip_cte-Skips ts rest h in Skips-then (Skips-drop ts name) after

skip_ctes-Returns : (fuel : ℕ) (ts : List Token) → Returns ts (skip_ctes fuel ts)
unfolding skip_ctes
skip_ctes-Returns fuel [] = ok-Returns [] [] (Skips-nothing [])
skip_ctes-Returns zero (t ∷ ts) = err-Returns (t ∷ ts) _
skip_ctes-Returns (suc fuel) (t ∷ ts) = λ out h.
    let (rest, e, table) = split_bind _ (skip_cte (t ∷ ts)) h in
    then-Returns (t ∷ ts) rest _ (skip_cte-whole (t ∷ ts) rest table)
      (if-Returns (starts_comma rest) rest _ _
        (λ comma_next.
          then-Returns rest (drop 1 rest) _ (Skips-comma rest comma_next)
            (skip_ctes-Returns fuel (drop 1 rest)))
        (ok-Returns rest rest (Skips-nothing rest)))
      out e

-- A body that starts a statement: its SELECT, first or after tables, stands outside all parentheses.
pub check_start-Skips :
    (body : List Token)
    → check_start body ≡ ok tt
    → (main : List Token) × Skips 0 body main × (starts_word (txt "select") main ≡ true)
unfolding check_start assert_with_select
check_start-Skips body h = elim (Bool-cases (starts_word (txt "with") body)) [
  | inl tables ↦ with_tables tables (
      ap
        (λ b.
          if b
          then assert_with_select (drop 1 body)
          else ensure (starts_word (txt "select") body) only_select)
        (sym tables)
      ∙ h)
  | inr plain ↦
      let first =
        ap
          (λ b.
            if b
            then assert_with_select (drop 1 body)
            else ensure (starts_word (txt "select") body) only_select)
          (sym plain)
        ∙ h in
      (body, Skips-nothing body, ensured _ _ tt first)
]
  where
    recursive-Skips :
        (ts : List Token) → Skips 0 ts (if starts_word (txt "recursive") ts then drop 1 ts else ts)
    recursive-Skips ts = elim (Bool-cases (starts_word (txt "recursive") ts)) [
      | inl first ↦ rw first (word-Returns (txt "recursive") ts (drop 1 ts) first (Skips-nothing _))
      | inr other ↦ rw other (Skips-nothing ts)
    ]

    with_tables :
        starts_word (txt "with") body ≡ true
        → assert_with_select (drop 1 body) ≡ ok tt
        → (main : List Token) × Skips 0 body main × (starts_word (txt "select") main ≡ true)
    with_tables first accepted =
        let start =
          if starts_word (txt "recursive") (drop 1 body)
          then drop 1 (drop 1 body)
          else drop 1 body in
        let (main, e, tables) = split_bind _ (skip_ctes (length start) start) accepted in
        (
          main,
          word-Returns (txt "with") body main first (
              Skips-then (recursive-Skips (drop 1 body))
                (skip_ctes-Returns (length start) start main tables)),
          ensured _ _ tt e,
        )
