-- ===== src/Identity/Base58.antt =====
-- packages/protocol/src/base58.ts: base58btc over bytes, with a bigint as a natural number.
use revdev.Base.{
  Text, txt, ℕ, zero, suc, ◌==◌, Option, none, some, List, [], ◌∷◌, ◌++◌, map, replicate,
  if◌then◌else◌,
}
use revdev.Base.Result.{Result, ok, err, ◌>>=◌}
use revdev.Identity.Radix.{horner, digits}

abbrev pub base58_alphabet : Text
unfolding txt
base58_alphabet = txt "123456789ABCDEFGHJKLMNPQRSTUVWXYZabcdefghijkmnopqrstuvwxyz"

-- `BASE58_ALPHABET[i]`; the code reads it at digits only.
unfoldable pub at_or : ℕ → Text → ℕ → ℕ
at_or d [] i = d
at_or d (c ∷ s) zero = c
at_or d (c ∷ s) (suc i) = at_or d s i

unfoldable pub char_of : ℕ → ℕ
unfolding at_or
char_of = at_or b'1' base58_alphabet

-- `CHAR_TO_VALUE.get(c)`
unfoldable pub index_from : ℕ → Text → ℕ → Option ℕ
index_from i [] c = none
index_from i (a ∷ s) c = let rest = index_from (suc i) s c in if a == c then some i else rest

unfoldable pub value_of : ℕ → Option ℕ
unfolding index_from
value_of = index_from 0 base58_alphabet

-- How many leading units are `z`: the loops that count and then break.
unfoldable pub count_leading : ℕ → List ℕ → ℕ
count_leading z [] = 0
count_leading z (x ∷ xs) = let rest = count_leading z xs in if x == z then suc rest else 0

unfoldable pub base58_encode : List ℕ → Text
unfolding char_of count_leading horner digits
base58_encode [] = []
base58_encode (x ∷ xs) =
    replicate (count_leading 0 (x ∷ xs)) b'1' ++ map char_of (digits 58 (horner 256 0 (x ∷ xs)))

-- The position and the unit of the first that is not in the alphabet.
pub record InvalidCharacter : Type 0 where
  pub unit : ℕ
  pub position : ℕ

-- The values of the units; the first loop of `base58Decode` has refused a unit without one.
unfoldable pub values_from : ℕ → Text → Result InvalidCharacter (List ℕ)
unfolding value_of
values_from i [] = ok []
values_from i (c ∷ s) =
    let rest = values_from (suc i) s in
    elim (value_of c) [
      | none ↦ err (record { unit = c; position = i })
      | some d ↦ rest >>= λ ds. ok (d ∷ ds)
    ]

unfoldable pub base58_decode : Text → Result InvalidCharacter (List ℕ)
unfolding values_from count_leading horner digits
base58_decode s = do
  ds ← values_from 0 s
  ok (replicate (count_leading b'1' s) 0 ++ digits 256 (horner 58 0 ds))
