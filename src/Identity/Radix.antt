-- ===== src/Identity/Radix.antt =====
-- The numbers that packages/protocol/src/base58.ts reads and writes digit by digit, most significant first.
-- `b` is the base; a bigint is a natural number.
use revdev.Base.{
  ℕ, zero, suc, ◌+◌, ◌*◌, ◌/◌, ◌%◌, ◌≤◌, ◌<◌, ◌≡◌, refl, ap, ◌∙◌, List, [], ◌∷◌, ◌++◌, All, arith,
  ltb, lt→ltb, if◌then◌else◌, Bool-cases, inl, inr, ◌⊎◌, replicate,
}
use mathlib.Core.List.{append-nil}
use native.Mathlib.Nat.{
  add_comm, div-add-mod, mod-lt, div-lt_self, mul-add-div_right, add-mul-mod_self_right,
  mod-eq_of_lt, div-eq_of_lt,
}

-- `value = value * b + digit`, for each digit.
unfoldable pub horner : ℕ → ℕ → List ℕ → ℕ
horner b acc [] = acc
horner b acc (x ∷ xs) = horner b (acc * b + x) xs

-- `while (value > 0) { out.unshift(value % b); value = value / b; }` with fuel.
unfoldable pub digit_loop : ℕ → ℕ → ℕ → List ℕ → List ℕ
digit_loop b zero v out = out
digit_loop b (suc fuel) v out =
    let rest = digit_loop b fuel (v / b) ((v % b) ∷ out) in if ltb 0 v then rest else out

-- The loop from an empty result; the value itself is enough fuel, since each round lowers it.
unfoldable pub digits : ℕ → ℕ → List ℕ
unfolding digit_loop
digits b v = digit_loop b v v []

module _ (b : ℕ) (wide : 1 < b) where
  split_value : (v : ℕ) → v / b * b + v % b ≡ v
  split_value v = grind (arith, div-add-mod v b)

  quotient : (a x : ℕ) → x < b → (a * b + x) / b ≡ a
  quotient a x h = omega (arith, mul-add-div_right {m = b} (omega arith) a x, div-eq_of_lt h)

  remainder : (a x : ℕ) → x < b → (a * b + x) % b ≡ x
  remainder a x h = rw (add_comm (a * b) x, add-mul-mod_self_right x a b) (mod-eq_of_lt h)

  smaller : (v : ℕ) → 0 < v → v / b < v
  smaller v h = div-lt_self h wide

  -- More fuel than is needed changes nothing.
  enough_fuel :
      (f g v : ℕ) (out : List ℕ) → v ≤ f → v ≤ g → digit_loop b f v out ≡ digit_loop b g v out
  unfolding digit_loop
  enough_fuel zero zero v out p q = refl
  enough_fuel zero (suc g) v out p q = ground arith
  enough_fuel (suc f) zero v out p q = ground arith
  enough_fuel (suc f) (suc g) v out p q =
      ground (arith, smaller v, enough_fuel f g (v / b) ((v % b) ∷ out))

  -- One round of the loop, with the fuel that the rest wants.
  digit_loop_round :
      (v : ℕ) (out : List ℕ)
      → 0 < v
      → digit_loop b v v out ≡ digit_loop b (v / b) (v / b) ((v % b) ∷ out)
  unfolding digit_loop
  digit_loop_round zero out h = absurd (omega arith)
  digit_loop_round (suc n) out h =
      ground (arith, smaller (suc n), enough_fuel n (suc n / b) (suc n / b) ((suc n % b) ∷ out))

  -- Horner's rule reads back what the loop wrote.
  horner-digit_loop :
      (f v : ℕ) (out : List ℕ) → v ≤ f → horner b 0 (digit_loop b f v out) ≡ horner b v out
  unfolding digit_loop horner
  horner-digit_loop zero v out h = ground arith
  horner-digit_loop (suc f) v out h =
      ground (arith, smaller v, split_value v, horner-digit_loop f (v / b) ((v % b) ∷ out))

  pub horner-digits : (v : ℕ) → horner b 0 (digits b v) ≡ v
  unfolding digits horner
  horner-digits v = horner-digit_loop v v [] (omega arith)

  -- No digit is zero before the first one that is not, where `acc` came before.
  abbrev pub Starts : ℕ → List ℕ → Type 0
  Starts acc [] = Unit
  Starts acc (x ∷ xs) = 0 < acc * b + x

  abbrev pub IsBelow : List ℕ → Type 0
  IsBelow = All (λ x. x < b)

  digit_loop-horner :
      (acc : ℕ) (xs out : List ℕ)
      → IsBelow xs
      → Starts acc xs
      → digit_loop b (horner b acc xs) (horner b acc xs) out ≡ digit_loop b acc acc (xs ++ out)
  unfolding horner
  digit_loop-horner acc [] out below starts = refl
  digit_loop-horner acc (x ∷ xs) out (small, below) starts =
      digit_loop-horner (acc * b + x) xs out below (next_starts xs)
      ∙ digit_loop_round (acc * b + x) (xs ++ out) starts
      ∙ rw (quotient acc x small, remainder acc x small) refl
    where
      next_starts : (ys : List ℕ) → Starts (acc * b + x) ys
      next_starts [] = tt
      next_starts (y ∷ ys) = grind arith

  -- The loop writes back what Horner's rule read, where there is no leading zero.
  pub digits-horner : (xs : List ℕ) → IsBelow xs → Starts 0 xs → digits b (horner b 0 xs) ≡ xs
  unfolding digits digit_loop
  digits-horner xs below starts = digit_loop-horner 0 xs [] below starts ∙ append-nil xs

  digit_loop-IsBelow : (f v : ℕ) (out : List ℕ) → IsBelow out → IsBelow (digit_loop b f v out)
  unfolding digit_loop
  digit_loop-IsBelow zero v out h = h
  digit_loop-IsBelow (suc f) v out h = elim (Bool-cases (ltb 0 v)) [
    | inl more ↦ rw more (digit_loop-IsBelow f (v / b) ((v % b) ∷ out) (mod-lt v (omega arith), h))
    | inr done ↦ rw done h
  ]

  pub digits-IsBelow : (v : ℕ) → IsBelow (digits b v)
  unfolding digits
  digits-IsBelow v = digit_loop-IsBelow v v [] tt

  one_pos : {n : ℕ} (q r : ℕ) → q * b + r ≡ suc n → (0 < q) ⊎ (0 < 0 * b + r)
  one_pos zero r e = inr (omega (arith, e))
  one_pos (suc q) r e = inl (omega arith)

  digit_loop-Starts :
      (f v : ℕ) (out : List ℕ) → v ≤ f → (0 < v) ⊎ Starts 0 out → Starts 0 (digit_loop b f v out)
  unfolding digit_loop
  digit_loop-Starts zero v out h (inl p) = absurd (omega arith)
  digit_loop-Starts zero v out h (inr s) = s
  digit_loop-Starts (suc f) zero out h (inl p) = absurd (omega arith)
  digit_loop-Starts (suc f) zero out h (inr s) = s
  digit_loop-Starts (suc f) (suc n) out h p = rw (lt→ltb 0 (suc n) (omega arith)) (
      digit_loop-Starts f (suc n / b) ((suc n % b) ∷ out)
        (omega (arith, smaller (suc n) (omega arith))) next)
    where
      next : (0 < suc n / b) ⊎ (0 < 0 * b + suc n % b)
      next = one_pos (suc n / b) (suc n % b) (split_value (suc n))

  pub digits-Starts : (v : ℕ) → Starts 0 (digits b v)
  unfolding digits digit_loop
  digits-Starts zero = tt
  digits-Starts (suc n) = digit_loop-Starts (suc n) (suc n) [] (omega arith) (inl (omega arith))

  -- Leading zeros count for nothing.
  pub horner-zeros : (k : ℕ) (xs : List ℕ) → horner b 0 (replicate k 0 ++ xs) ≡ horner b 0 xs
  unfolding horner
  horner-zeros zero xs = refl
  horner-zeros (suc k) xs =
      ap (λ a. horner b a (replicate k 0 ++ xs)) (omega arith) ∙ horner-zeros k xs
