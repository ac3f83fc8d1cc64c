-- ===== src/Guard/Splits.antt =====
-- What the scanners of packages/db-inspector/src/guard.ts read, and what they leave.
use revdev.Base.{
  Text, ℕ, ◌==◌, ◌≡◌, refl, ap, sym, ◌∙◌, Bool, true, false, not, ◌&&◌, ◌||◌, Option, none, some,
  [], ◌∷◌, ◌++◌, drop, arith, if◌then◌else◌, ==_iff,
}
use mathlib.Core.List.{append_assoc}
use revdev.Base.Prefix.{strip_prefix, strip_prefix_found}
use revdev.Base.Result.{Result, ok, err}
use revdev.Guard.Words.{Reason, is_digit}
use revdev.Guard.Scanners.{
  starts, span, reads, scan_quoted, scan_ident, matched, find_close, scan_block, and_then, one_if,
  scan_exponent, scan_fraction, scan_number,
}

-- A call that returned read `raw` and left `rest`, which together are `s`.
abbrev pub Splits : Text → Result Reason (Text × Text) → Type 0
Splits s r = (raw rest : Text) → r ≡ ok (raw, rest) → s ≡ raw ++ rest

reads-Splits :
    (c : ℕ) (s : Text) (r : Result Reason (Text × Text)) → Splits s r → Splits (c ∷ s) (reads c r)
reads-Splits c s (err e) h raw rest returned = cc
reads-Splits c s (ok (got, left)) h raw rest returned = ground (arith, h got left refl)

if-Splits :
    (b : Bool) (s : Text) (p q : Result Reason (Text × Text))
    → Splits s p
    → Splits s q
    → Splits s (if b then p else q)
if-Splits true s p q h k = h
if-Splits false s p q h k = k

one-Splits : (c : ℕ) (s : Text) → Splits (c ∷ s) (ok (c ∷ [], s))
one-Splits c s raw rest returned = ground arith

pub scan_quoted-Splits :
    (escapes : Bool) (s : Text) (skip : Bool) → Splits s (scan_quoted escapes skip s)
unfolding scan_quoted
scan_quoted-Splits escapes [] skip = λ raw rest returned. cc
scan_quoted-Splits escapes (c ∷ s) skip =
    if-Splits _ (c ∷ s) _ _ (one-Splits c s) (reads-Splits c s _ (scan_quoted-Splits escapes s _))

pub scan_ident-Splits : (s : Text) (skip : Bool) → Splits s (scan_ident skip s)
unfolding scan_ident
scan_ident-Splits [] skip = λ raw rest returned. cc
scan_ident-Splits (c ∷ s) skip =
    if-Splits _ (c ∷ s) _ _ (one-Splits c s) (reads-Splits c s _ (scan_ident-Splits s _))

matched-Splits :
    (p s : Text) (o : Option Text) (later : Result Reason (Text × Text))
    → strip_prefix p s ≡ o
    → Splits s later
    → Splits s (matched p o later)
matched-Splits p s none later found h raw rest returned = h raw rest returned
matched-Splits p s (some left) later found h raw rest returned =
    ground (arith, strip_prefix_found p s left found)

pub find_close-Splits : (p s : Text) → Splits s (find_close p s)
unfolding find_close
find_close-Splits p [] = matched-Splits p [] _ _ refl (λ raw rest returned. cc)
find_close-Splits p (c ∷ s) =
    matched-Splits p (c ∷ s) _ _ refl (reads-Splits c s _ (find_close-Splits p s))

-- The body of a block comment stands before a `*/`.
abbrev pub Closes : Text → Result Reason (Text × Text) → Type 0
Closes s r = (body rest : Text) → r ≡ ok (body, rest) → s ≡ body ++ b'*' ∷ b'/' ∷ rest

reads-Closes :
    (c : ℕ) (s : Text) (r : Result Reason (Text × Text)) → Closes s r → Closes (c ∷ s) (reads c r)
reads-Closes c s (err e) h body rest returned = cc
reads-Closes c s (ok (got, left)) h body rest returned = ground (arith, h got left refl)

pub starts_found : (c : ℕ) (s : Text) → starts c s ≡ true → s ≡ c ∷ drop 1 s
unfolding starts
starts_found c [] h = cc
starts_found c (d ∷ s) h = ground (arith, ==_iff d c)

closing :
    (c : ℕ) (s : Text) (k : Bool)
    → not k && c == b'*' && starts b'/' s ≡ true
    → c ∷ s ≡ b'*' ∷ b'/' ∷ drop 1 s
closing c s k h =
    let star : c ≡ b'*' = ground arith in
    let slash : starts b'/' s ≡ true = ground arith in
    ap (λ d. d ∷ s) star ∙ ap (λ t. b'*' ∷ t) (starts_found b'/' s slash)

if-Closes :
    (b : Bool) (s left : Text) (q : Result Reason (Text × Text))
    → (b ≡ true → s ≡ b'*' ∷ b'/' ∷ left)
    → Closes s q
    → Closes s (if b then ok ([], left) else q)
if-Closes true s left q h k body rest returned = ground (arith, h refl)
if-Closes false s left q h k body rest returned = k body rest returned

pub scan_block-Closes : (s : Text) (depth : ℕ) (skip : Bool) → Closes s (scan_block depth skip s)
unfolding scan_block
scan_block-Closes [] depth skip = λ body rest returned. cc
scan_block-Closes (c ∷ s) depth skip =
    if-Closes _ (c ∷ s) _ _ (λ h. closing c s skip (ground arith))
      (reads-Closes c s _ (scan_block-Closes s _ _))

-- The same for a scanner that cannot fail.
pub record IsSplit (s : Text) (r : Text × Text) : Type 0 where
  pub joined : s ≡ r.0 ++ r.1

pub span-IsSplit : (test : ℕ → Bool) (s : Text) → IsSplit s (span test s)
unfolding span
span-IsSplit test [] = record { joined = refl }
span-IsSplit test (c ∷ s) = record { joined = ground (arith, (span-IsSplit test s).joined) }

one_if-IsSplit : (test : ℕ → Bool) (s : Text) → IsSplit s (one_if test s)
unfolding one_if
one_if-IsSplit test [] = record { joined = refl }
one_if-IsSplit test (c ∷ s) = record { joined = ground arith }

and_then-IsSplit :
    {f : Text → Text × Text} {s : Text} {r : Text × Text}
    → ((t : Text) → IsSplit t (f t))
    → IsSplit s r
    → IsSplit s (and_then f r)
and_then-IsSplit {f} {s} {r = (raw, rest)} h k = record {
  joined =
      k.joined ∙ ap (λ t. raw ++ t) (h rest).joined ∙ sym (append_assoc raw (f rest).0 (f rest).1);
}

if-IsSplit :
    (b : Bool) {s : Text} {p q : Text × Text}
    → IsSplit s p
    → IsSplit s q
    → IsSplit s (if b then p else q)
if-IsSplit true h k = h
if-IsSplit false h k = k

nothing-IsSplit : (s : Text) → IsSplit s ([], s)
nothing-IsSplit s = record { joined = refl }

scan_exponent-IsSplit : (s : Text) → IsSplit s (scan_exponent s)
unfolding scan_exponent
scan_exponent-IsSplit s =
    if-IsSplit _
      (and_then-IsSplit (span-IsSplit is_digit) (
        and_then-IsSplit (one_if-IsSplit (λ c. c == b'+' || c == b'-'))
          (one_if-IsSplit (λ c. c == b'e' || c == b'E') s)))
      (nothing-IsSplit s)

scan_fraction-IsSplit : (dotted : Bool) (s : Text) → IsSplit s (scan_fraction dotted s)
unfolding scan_fraction
scan_fraction-IsSplit dotted s =
    if-IsSplit _ (and_then-IsSplit (span-IsSplit is_digit) (one_if-IsSplit (λ c. c == b'.') s))
      (nothing-IsSplit s)

pub scan_number-IsSplit : (s : Text) → IsSplit s (scan_number s)
unfolding scan_number
scan_number-IsSplit s = and_then-IsSplit scan_exponent-IsSplit (
    and_then-IsSplit (scan_fraction-IsSplit (starts b'.' s))
      (and_then-IsSplit (span-IsSplit is_digit) (one_if-IsSplit (λ c. c == b'.') s)))
