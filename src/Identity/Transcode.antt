-- ===== src/Identity/Transcode.antt =====
-- From one base to another and back, with the leading zeros kept: the common part of both directions of
-- packages/protocol/src/base58.ts.
use revdev.Base.{
  ℕ, zero, suc, ◌+◌, ◌<◌, ◌≡◌, refl, ap, ◌∙◌, sym, List, [], ◌∷◌, ◌++◌, replicate, drop, All-append,
  arith,
}
use revdev.Identity.Radix.{
  horner, digits, horner-digits, digits-horner, digits-IsBelow, digits-Starts, horner-zeros, Starts,
  IsBelow,
}
use revdev.Identity.Base58.{count_leading}

abbrev pub transcode : ℕ → ℕ → List ℕ → List ℕ
transcode b c xs = replicate (count_leading 0 xs) 0 ++ digits c (horner b 0 xs)

pub count_leading-append :
    (z k : ℕ) (xs : List ℕ) → count_leading z (replicate k z ++ xs) ≡ k + count_leading z xs
unfolding count_leading
count_leading-append z zero xs = omega arith
count_leading-append z (suc k) xs = ground (arith, count_leading-append z k xs)

split_zeros : (xs : List ℕ) → replicate (count_leading 0 xs) 0 ++ drop (count_leading 0 xs) xs ≡ xs
unfolding count_leading
split_zeros [] = refl
split_zeros (x ∷ xs) = ground (arith, split_zeros xs)

module _ (b : ℕ) (wide : 1 < b) where
  rest-Starts : (xs : List ℕ) → Starts b wide 0 (drop (count_leading 0 xs) xs)
  unfolding count_leading
  rest-Starts [] = tt
  rest-Starts (x ∷ xs) = ground (arith, rest-Starts xs)

  rest-IsBelow : (k : ℕ) (xs : List ℕ) → IsBelow b wide xs → IsBelow b wide (drop k xs)
  rest-IsBelow zero xs h = h
  rest-IsBelow (suc k) [] h = tt
  rest-IsBelow (suc k) (x ∷ xs) (p, h) = rest-IsBelow k xs h

  count_leading-Starts : (xs : List ℕ) → Starts b wide 0 xs → count_leading 0 xs ≡ 0
  unfolding count_leading
  count_leading-Starts [] h = refl
  count_leading-Starts (x ∷ xs) h = ground arith

  zeros-IsBelow : (k : ℕ) → IsBelow b wide (replicate k 0)
  zeros-IsBelow zero = tt
  zeros-IsBelow (suc k) = (omega arith, zeros-IsBelow k)

  pub transcode-IsBelow : (c : ℕ) (xs : List ℕ) → IsBelow b wide (transcode c b xs)
  transcode-IsBelow c xs =
      All-append (replicate (count_leading 0 xs) 0) (digits b (horner c 0 xs)) _
        (digits-IsBelow b wide (horner c 0 xs)) (zeros-IsBelow (count_leading 0 xs))

-- To another base and back.
pub transcode_back :
    (b c : ℕ) (wide_b : 1 < b) (wide_c : 1 < c) (xs : List ℕ)
    → IsBelow b wide_b xs
    → transcode c b (transcode b c xs) ≡ xs
transcode_back b c wide_b wide_c xs below =
    ap (λ n. replicate n 0 ++ digits b (horner c 0 (replicate k 0 ++ digits c v))) lead
    ∙ ap (λ n. replicate k 0 ++ digits b n) value
    ∙ ap (λ ys. replicate k 0 ++ ys) back
    ∙ split_zeros xs
  where
    k : ℕ
    k = count_leading 0 xs

    r : List ℕ
    r = drop k xs

    v : ℕ
    v = horner b 0 xs

    lead : count_leading 0 (replicate k 0 ++ digits c v) ≡ k
    lead = omega (
      arith,
      count_leading-append 0 k (digits c v),
      count_leading-Starts c wide_c (digits c v) (digits-Starts c wide_c v),
    )

    value : horner c 0 (replicate k 0 ++ digits c v) ≡ v
    value = horner-zeros c wide_c k (digits c v) ∙ horner-digits c wide_c v

    value_rest : v ≡ horner b 0 r
    value_rest = ap (horner b 0) (sym (split_zeros xs)) ∙ horner-zeros b wide_b k r

    back : digits b v ≡ r
    back =
        ap (digits b) value_rest
        ∙ digits-horner b wide_b r (rest-IsBelow b wide_b k xs below) (rest-Starts b wide_b xs)
