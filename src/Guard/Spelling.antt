-- ===== src/Guard/Spelling.antt =====
-- `scan` of packages/db-inspector/src/guard.ts as a whole: its loop, and the text that tokens spell.
use revdev.Base.{
  Text, ℕ, zero, suc, ◌≤◌, ◌≡◌, refl, ap, sym, ◌∙◌, List, [], ◌∷◌, ◌++◌, length, length-append,
  arith, inl, inr,
}
use revdev.Base.Result.{Result, ok, ◌>>=◌, split_bind, returned_value, Result-cases}
use revdev.Guard.Words.{Reason}
use revdev.Guard.Tokens.{Token}
use revdev.Guard.Scan.{next_token, scan_loop, scan}
use revdev.Guard.Cover.{source_of, next_token-Covers}

-- A round shortens the text.
next_token_shorter :
    (c : ℕ) (s : Text) (t : Token) (rest : Text)
    → next_token c s ≡ ok (t, rest)
    → length rest ≤ length s
next_token_shorter c s t rest returned =
    let (more, first, whole) = next_token-Covers c s t rest returned in
    omega (arith, ap length whole, length-append more rest)

-- The rest of a round, with what the loop does on the text that is left.
abbrev pub then_scan :
    (Text → Result Reason (List Token)) → Token × Text → Result Reason (List Token)
then_scan loop (t, rest) = loop rest >>= λ ts. ok (t ∷ ts)

enough_fuel : (f g : ℕ) (s : Text) → length s ≤ f → length s ≤ g → scan_loop f s ≡ scan_loop g s
unfolding scan_loop
enough_fuel f g [] p q = refl
enough_fuel zero g (c ∷ s) p q = absurd (omega arith)
enough_fuel (suc f) zero (c ∷ s) p q = absurd (omega arith)
enough_fuel (suc f) (suc g) (c ∷ s) p q = elim (Result-cases (next_token c s)) [
  | inl (round, returned) ↦
      let short : length (round.1) ≤ length s =
        next_token_shorter c s (round.0) (round.1) returned in
      rw returned (
        ap (λ loop. loop >>= λ ts. ok (round.0 ∷ ts))
          (enough_fuel f g (round.1) (omega arith) (omega arith)))
  | inr (e, thrown) ↦ rw thrown refl
]

-- On every text the scan does what the loop of the source says, without fuel: a round reads one token,
-- and the scan of what the round left gives the others.
pub scan-next_token : (c : ℕ) (s : Text) → scan (c ∷ s) ≡ (next_token c s >>= then_scan scan)
unfolding scan scan_loop
scan-next_token c s = elim (Result-cases (next_token c s)) [
  | inl (round, returned) ↦
      let short : length (round.1) ≤ length s =
        next_token_shorter c s (round.0) (round.1) returned in
      rw returned (
        ap (λ loop. loop >>= λ ts. ok (round.0 ∷ ts))
          (enough_fuel (length s) (length (round.1)) (round.1) short (omega arith)))
  | inr (e, thrown) ↦ rw thrown refl
]

-- The text that tokens were read from.
unfoldable pub spell : List Token → Text
unfolding source_of
spell [] = []
spell (t ∷ ts) = source_of t ++ spell ts

spell_loop : (f : ℕ) (s : Text) (tokens : List Token) → scan_loop f s ≡ ok tokens → spell tokens ≡ s
unfolding scan_loop spell
spell_loop f [] tokens h = ap spell (sym (returned_value [] tokens _ refl h))
spell_loop zero (c ∷ s) tokens h = cc
spell_loop (suc f) (c ∷ s) tokens h =
    let (round, e1, returned) = split_bind _ (next_token c s) h in
    let (ts, e2, scanned) = split_bind _ (scan_loop f (round.1)) e1 in
    let (more, first, whole) = next_token-Covers c s (round.0) (round.1) returned in
    let rest : spell ts ≡ round.1 = spell_loop f (round.1) ts scanned in
    ap spell (sym (returned_value (round.0 ∷ ts) tokens _ refl e2))
    ∙ ap (λ x. x ++ spell ts) first
    ∙ ap (λ x. c ∷ more ++ x) rest
    ∙ ap (λ x. c ∷ x) (sym whole)

-- The tokens of a text that scans spell exactly that text: nothing of it escapes the guard.
pub spell-scan : (sql : Text) (tokens : List Token) → scan sql ≡ ok tokens → spell tokens ≡ sql
unfolding scan
spell-scan sql tokens h = spell_loop (length sql) sql tokens h
