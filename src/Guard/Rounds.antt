-- ===== src/Guard/Rounds.antt =====
-- The rounds of the loop of `assertWithSelect` of packages/db-inspector/src/guard.ts.
use revdev.Base.{
  ℕ, zero, suc, ◌≤◌, ◌≡◌, refl, ap, inl, inr, List, [], ◌∷◌, drop, length, length-append, arith,
  if◌then◌else◌,
}
use revdev.Base.Result.{Result, ok, ◌>>=◌, Result-cases}
use revdev.Guard.Words.{Reason}
use revdev.Guard.Tokens.{Token}
use revdev.Guard.Statement.{starts_comma, skip_cte, skip_ctes}
use revdev.Guard.Skips.{skip_cte-Skips}

-- A round leaves fewer tokens, whether or not a comma follows.
skip_cte_shorter :
    (t : Token) (ts rest : List Token) → skip_cte (t ∷ ts) ≡ ok rest → length rest ≤ length ts
skip_cte_shorter t ts rest h =
    let (part, name) = skip_cte-Skips (t ∷ ts) rest h in
    omega (arith, ap length part.whole, length-append part.front rest)

drop_shorter : (ts : List Token) (n : ℕ) → length ts ≤ n → length (drop 1 ts) ≤ n
drop_shorter [] n h = h
drop_shorter (t ∷ ts) n h = omega (arith, h)

-- What follows a table.
abbrev pub next_tables :
    (List Token → Result Reason (List Token)) → List Token → Result Reason (List Token)
next_tables loop rest = let more = loop (drop 1 rest) in if starts_comma rest then more else ok rest

next_same :
    (loop other : List Token → Result Reason (List Token)) (rest : List Token)
    → loop (drop 1 rest) ≡ other (drop 1 rest)
    → next_tables loop rest ≡ next_tables other rest
next_same loop other rest h = ap (λ more. if starts_comma rest then more else ok rest) h

enough_fuel :
    (f g : ℕ) (ts : List Token) → length ts ≤ f → length ts ≤ g → skip_ctes f ts ≡ skip_ctes g ts
unfolding skip_ctes
enough_fuel f g [] p q = refl
enough_fuel zero g (t ∷ ts) p q = absurd (omega arith)
enough_fuel (suc f) zero (t ∷ ts) p q = absurd (omega arith)
enough_fuel (suc f) (suc g) (t ∷ ts) p q = elim (Result-cases (skip_cte (t ∷ ts))) [
  | inl (rest, returned) ↦
      let short : length (drop 1 rest) ≤ length ts =
        drop_shorter rest (length ts) (skip_cte_shorter t ts rest returned) in
      rw returned (
        next_same (skip_ctes f) (skip_ctes g) rest
          (enough_fuel f g (drop 1 rest) (omega arith) (omega arith)))
  | inr (e, thrown) ↦ rw thrown refl
]

-- With the fuel that it gets, the loop over the tables does what the source says: a round reads one
-- table, and after a comma the loop goes on with the tokens that are left.
pub skip_ctes-skip_cte :
    (t : Token) (ts : List Token)
    → skip_ctes (length (t ∷ ts)) (t ∷ ts)
      ≡ (skip_cte (t ∷ ts) >>= next_tables (λ left. skip_ctes (length left) left))
unfolding skip_ctes
skip_ctes-skip_cte t ts = elim (Result-cases (skip_cte (t ∷ ts))) [
  | inl (rest, returned) ↦
      let short : length (drop 1 rest) ≤ length ts =
        drop_shorter rest (length ts) (skip_cte_shorter t ts rest returned) in
      rw returned (
        next_same (skip_ctes (length ts)) (λ left. skip_ctes (length left) left) rest
          (enough_fuel (length ts) (length (drop 1 rest)) (drop 1 rest) short (omega arith)))
  | inr (e, thrown) ↦ rw thrown refl
]
