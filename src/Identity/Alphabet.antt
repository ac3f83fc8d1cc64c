-- ===== src/Identity/Alphabet.antt =====
-- The alphabet of packages/protocol/src/base58.ts: digits and their characters.
use revdev.Base.{
  Text, txt, Bool-cases, Option-cases, subst, inl, inr, ℕ, zero, suc, ◌+◌, ◌<◌, ◌==◌, ◌&&◌, ◌≡◌,
  refl, ap, ◌∙◌, sym, Bool, true, false, Option, none, some, List, [], ◌∷◌, map, All, arith, length,
}
use revdev.Base.Result.{Result, ok, err, ◌>>=◌, split_bind}
use revdev.Identity.Base58.{
  base58_alphabet, at_or, char_of, index_from, value_of, values_from, count_leading,
  InvalidCharacter,
}

all_below : ℕ → (ℕ → Bool) → Bool
all_below zero p = true
all_below (suc n) p = p n && all_below n p

all_below_at : (n : ℕ) (p : ℕ → Bool) (x : ℕ) → all_below n p ≡ true → x < n → p x ≡ true
unfolding all_below
all_below_at zero p x h lt = absurd (omega arith)
all_below_at (suc n) p x h lt = ground (arith, all_below_at n p x)

abbrev is_value : Option ℕ → ℕ → Bool
is_value none d = false
is_value (some n) d = n == d

value_table : all_below 58 (λ d. is_value (value_of (char_of d)) d) ≡ true
unfolding all_below value_of char_of index_from at_or txt
value_table = refl

is_value_found : (o : Option ℕ) (d : ℕ) → is_value o d ≡ true → o ≡ some d
is_value_found none d h = cc
is_value_found (some n) d h = ground arith

pub value_of-char_of : (d : ℕ) → d < 58 → value_of (char_of d) ≡ some d
value_of-char_of d h =
    is_value_found _ d (all_below_at 58 (λ d. is_value (value_of (char_of d)) d) d value_table h)

index_from_found :
    (i : ℕ) (s : Text) (c d : ℕ)
    → index_from i s c ≡ some d
    → (j : ℕ) × (d ≡ i + j) × (j < length s) × ((x : ℕ) → at_or x s j ≡ c)
unfolding index_from at_or
index_from_found i [] c d h = cc
index_from_found i (a ∷ s) c d h = elim (Bool-cases (a == c)) [
  | inl hit ↦ (0, ground arith, omega arith, λ x. ground arith)
  | inr miss ↦
      let (j, e, p, f) = index_from_found (suc i) s c d (sym (rw miss refl) ∙ h) in
      (suc j, omega (arith, e), omega (arith, p), f)
]

-- The value of a character is below 58 and stands for it.
pub char_of-value_of : (c d : ℕ) → value_of c ≡ some d → (char_of d ≡ c) × (d < 58)
unfolding value_of char_of txt
char_of-value_of c d h =
    let (j, e, p, f) = index_from_found 0 base58_alphabet c d h in
    let same : d ≡ j = omega (arith, e) in
    (ap (at_or b'1' base58_alphabet) same ∙ f b'1', omega (arith, e, p))

abbrev agree : Bool → Bool → Bool
agree true b = b
agree false true = false
agree false false = true

agree_sound : (a b : Bool) → agree a b ≡ true → a ≡ b
agree_sound true true h = refl
agree_sound true false h = cc
agree_sound false true h = cc
agree_sound false false h = refl

one_table : all_below 58 (λ d. agree (char_of d == b'1') (d == 0)) ≡ true
unfolding all_below char_of at_or txt
one_table = refl

-- Only zero is written with the first character.
char_of_one : (d : ℕ) → d < 58 → (char_of d == b'1') ≡ (d == 0)
char_of_one d h =
    agree_sound _ _ (all_below_at 58 (λ d. agree (char_of d == b'1') (d == 0)) d one_table h)

abbrev pub AreDigits : List ℕ → Type 0
AreDigits = All (λ d. d < 58)

pub count_leading-map :
    (ds : List ℕ) → AreDigits ds → count_leading b'1' (map char_of ds) ≡ count_leading 0 ds
unfolding count_leading
count_leading-map [] h = refl
count_leading-map (d ∷ ds) (p, h) = rw (char_of_one d p, count_leading-map ds h) refl

pub values_from-map : (i : ℕ) (ds : List ℕ) → AreDigits ds → values_from i (map char_of ds) ≡ ok ds
unfolding values_from
values_from-map i [] h = refl
values_from-map i (d ∷ ds) (p, h) =
    rw (values_from, value_of-char_of d p, values_from-map (suc i) ds h) refl

values_from-cons :
    (i c : ℕ) (s : Text) (ds : List ℕ)
    → values_from i (c ∷ s) ≡ ok ds
    → (d : ℕ) × (es : List ℕ) × (value_of c ≡ some d)
      × (values_from (suc i) s ≡ ok es)
      × (d ∷ es ≡ ds)
unfolding values_from
values_from-cons i c s ds h = elim (Option-cases (value_of c)) [
  | inl missing ↦ absurd (bad (sym (refused missing) ∙ h))
  | inr (d, found) ↦
      let (es, e, rest) =
        split_bind (λ es. ok (d ∷ es)) (values_from (suc i) s) (sym (read d found) ∙ h) in
      (d, es, found, rest, ok_value (d ∷ es) e)
]
  where
    wrong : InvalidCharacter
    wrong = record { unit = c; position = i }

    refused : value_of c ≡ none → values_from i (c ∷ s) ≡ err wrong
    refused missing = rw (values_from, missing) refl

    read :
        (d : ℕ)
        → value_of c ≡ some d
        → values_from i (c ∷ s) ≡ (values_from (suc i) s >>= λ es. ok (d ∷ es))
    read d found = rw (values_from, found) refl

    returned : Result InvalidCharacter (List ℕ)
    returned = ok ds

    bad : err wrong ≡ returned → ⊥
    bad e = cc

    ok_value : (xs : List ℕ) → ok xs ≡ returned → xs ≡ ds
    ok_value xs e = ground arith

-- Units that have values are the characters of the values.
pub map-values_from :
    (i : ℕ) (s : Text) (ds : List ℕ) → values_from i s ≡ ok ds → (map char_of ds ≡ s) × AreDigits ds
unfolding values_from
map-values_from i [] ds h = ground arith
map-values_from i (c ∷ s) ds h =
    let (d, es, found, rest, same) = values_from-cons i c s ds h in
    let (here, small) = char_of-value_of c d found in
    let (later, below) = map-values_from (suc i) s es rest in
    subst (λ xs. (map char_of xs ≡ c ∷ s) × AreDigits xs) same
      (ap (λ t. t ∷ map char_of es) here ∙ ap (λ t. c ∷ t) later, (small, below))
