-- ===== src/Identity/RoundTrip.antt =====
-- Encoding and then decoding, and the other way round, of packages/protocol/src/base58.ts.
use revdev.Base.{
  Text, txt, zero, suc, ℕ, ◌<◌, ◌≡◌, refl, ap, ◌∙◌, sym, subst, List, [], ◌∷◌, ◌++◌, map, replicate,
  All, arith,
}
use revdev.Base.Result.{Result, ok, ◌>>=◌, split_bind}
use revdev.Identity.Radix.{horner, digits}
use revdev.Identity.Base58.{
  at_or, char_of, count_leading, values_from, base58_encode, base58_decode, InvalidCharacter,
}
use revdev.Identity.Transcode.{transcode, transcode_back, transcode-IsBelow}
use revdev.Identity.Alphabet.{count_leading-map, values_from-map, map-values_from}

abbrev ok_bytes : List ℕ → Result InvalidCharacter (List ℕ)
ok_bytes xs = ok xs

ok_value : (xs ys : List ℕ) → (ok_bytes xs) ≡ ok ys → xs ≡ ys
ok_value xs ys h = ground arith

one_lt_58 : 1 < 58
one_lt_58 = omega arith

one_lt_256 : 1 < 256
one_lt_256 = omega arith

map_zeros :
    (k : ℕ) (ds : List ℕ) → map char_of (replicate k 0 ++ ds) ≡ replicate k b'1' ++ map char_of ds
unfolding char_of at_or txt
map_zeros zero ds = refl
map_zeros (suc k) ds = ap (λ s. b'1' ∷ s) (map_zeros k ds)

-- The encoding is the characters of the digits to base 58.
encode-transcode : (bytes : List ℕ) → base58_encode bytes ≡ map char_of (transcode 256 58 bytes)
unfolding base58_encode
encode-transcode [] = unfold count_leading digits horner in refl
encode-transcode (x ∷ xs) =
    sym (map_zeros (count_leading 0 (x ∷ xs)) (digits 58 (horner 256 0 (x ∷ xs))))

decode-transcode :
    (s : Text) (ds : List ℕ) → values_from 0 s ≡ ok ds → base58_decode s ≡ ok (transcode 58 256 ds)
unfolding base58_decode
decode-transcode s ds e =
    let (same, below) = map-values_from 0 s ds e in
    ap (λ r. r >>= λ vs. ok (replicate (count_leading b'1' s) 0 ++ digits 256 (horner 58 0 vs))) e
    ∙ ap (λ n. ok (replicate n 0 ++ digits 256 (horner 58 0 ds)))
        (ap (count_leading b'1') (sym same) ∙ count_leading-map ds below)

-- Decoding an encoded sequence of bytes gives the bytes.
pub base58_decode-encode :
    (bytes : List ℕ) → All (λ x. x < 256) bytes → base58_decode (base58_encode bytes) ≡ ok bytes
base58_decode-encode bytes h =
    decode-transcode (base58_encode bytes) ds (
      ap (values_from 0) (encode-transcode bytes)
      ∙ values_from-map 0 ds (transcode-IsBelow 58 one_lt_58 256 bytes))
    ∙ ap ok (transcode_back 256 58 one_lt_256 one_lt_58 bytes h)
  where
    ds : List ℕ
    ds = transcode 256 58 bytes

-- What decodes is the encoding of the bytes that it decodes to, so no two texts decode alike.
pub base58_encode-decode :
    (s : Text) (bytes : List ℕ)
    → base58_decode s ≡ ok bytes
    → (base58_encode bytes ≡ s) × All (λ x. x < 256) bytes
unfolding base58_decode
base58_encode-decode s bytes h =
    let (ds, e, read) = split_bind _ (values_from 0 s) h in
    let (same, below) = map-values_from 0 s ds read in
    let out : transcode 58 256 ds ≡ bytes = ok_value _ _ (sym (decode-transcode s ds read) ∙ h) in
    subst (λ bs. (base58_encode bs ≡ s) × All (λ x. x < 256) bs) out
      (
        encode-transcode (transcode 58 256 ds)
            ∙ ap (map char_of) (transcode_back 58 256 one_lt_58 one_lt_256 ds below)
            ∙ same,
        transcode-IsBelow 256 one_lt_256 58 ds,
      )
