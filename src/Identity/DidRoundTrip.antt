-- ===== src/Identity/DidRoundTrip.antt =====
-- Formatting and then parsing names, of packages/protocol/src/did.ts.
use revdev.Base.{
  Text, txt, ℕ, ◌≤◌, ◌==◌, ◌≡◌, refl, ap, ◌∙◌, sym, ◌&&◌, Bool, true, false, Bool-cases, inl, inr,
  Option, none, some, Option-cases, [], ◌∷◌, ◌++◌, any, arith, length,
}
use revdev.Base.Prefix.{strip_prefix, strip_prefix-append, strip_prefix_found}
use revdev.Base.Result.{ensured, returned_value, ok, ensure, split_bind}
use revdev.Identity.Did.{
  id_length, did_prefix, is_valid_agent_id_char, in_base58_alphabet, every, is_valid_agent_id,
  is_valid_fingerprint, format_did, split_colon, both_parts, parts_after, parse_did,
  invalid_agent_id, invalid_fingerprint,
}

split_colon-append :
    (a f : Text) → any (λ x. x == b':') a ≡ false → split_colon (a ++ b':' ∷ f) ≡ some (a, f)
unfolding split_colon
split_colon-append [] f h = refl
split_colon-append (c ∷ a) f h = ground (arith, split_colon-append a f)

split_colon_found :
    (s a f : Text)
    → split_colon s ≡ some (a, f)
    → (s ≡ a ++ b':' ∷ f) × (any (λ x. x == b':') a ≡ false)
unfolding split_colon
split_colon_found [] a f h = cc
split_colon_found (c ∷ s) [] f h = ground arith
split_colon_found (c ∷ s) (x ∷ a) f h = ground (arith, split_colon_found s a f)

-- No valid part holds a colon, and none is empty.
no_colon :
    (test : ℕ → Bool) (s : Text)
    → test b':' ≡ false
    → every test s ≡ true
    → any (λ x. x == b':') s ≡ false
unfolding every
no_colon test [] off h = refl
no_colon test (c ∷ s) off h = elim (Bool-cases (c == b':')) [
  | inl colon ↦
      let same : c ≡ b':' = ground arith in
      let here : test c ≡ true = ground arith in
      let wrong : true ≡ false = sym here ∙ ap test same ∙ off in cc
  | inr other ↦ ground (arith, no_colon test s off)
]

both_parts_whole :
    (a f : Text)
    → 1 ≤ length a
    → 1 ≤ length f
    → any (λ x. x == b':') f ≡ false
    → both_parts (some (a, f)) ≡ some (a, f)
both_parts_whole [] f p q h = absurd (omega arith)
both_parts_whole (c ∷ a) [] p q h = absurd (omega arith)
both_parts_whole (c ∷ a) (d ∷ f) p q h = rw h refl

both_parts_found :
    (o : Option (Text × Text)) (a f : Text)
    → both_parts o ≡ some (a, f)
    → (o ≡ some (a, f)) × (any (λ x. x == b':') f ≡ false)
both_parts_found none a f h = cc
both_parts_found (some ([], g)) a f h = cc
both_parts_found (some (c ∷ b, [])) a f h = cc
both_parts_found (some (c ∷ b, d ∷ g)) a f h = ground arith

valid_parts :
    (test : ℕ → Bool) (s : Text)
    → id_length s && every test s ≡ true
    → (1 ≤ length s) × (every test s ≡ true)
valid_parts test s h = (ground arith, ground arith)

-- A name that was formatted parses back to its parts.
pub parse_did-format_did :
    (agent fingerprint did : Text)
    → format_did agent fingerprint ≡ ok did
    → parse_did did ≡ some (agent, fingerprint)
unfolding format_did parse_did is_valid_agent_id is_valid_fingerprint
parse_did-format_did agent fingerprint did h =
    let (u, e1, good_agent) =
      split_bind _ (ensure (is_valid_agent_id agent) (invalid_agent_id agent)) h in
    let (v, e2, good_fingerprint) =
      split_bind _ (ensure (is_valid_fingerprint fingerprint) (invalid_fingerprint fingerprint))
        e1 in
    let valid_agent : is_valid_agent_id agent ≡ true = ensured _ _ u good_agent in
    let valid_fingerprint : is_valid_fingerprint fingerprint ≡ true =
      ensured _ _ v good_fingerprint in
    let whole_agent = valid_parts is_valid_agent_id_char agent valid_agent in
    let whole_fingerprint = valid_parts in_base58_alphabet fingerprint valid_fingerprint in
    let written : did_prefix ++ (agent ++ b':' ∷ fingerprint) ≡ did =
      returned_value _ did _ refl e2 in
    ap parse_did (sym written)
    ∙ ap parts_after (strip_prefix-append did_prefix (agent ++ b':' ∷ fingerprint))
    ∙ ap both_parts (
        split_colon-append agent fingerprint
          (no_colon _ agent (unfold is_valid_agent_id_char in refl) (whole_agent.1)))
    ∙ both_parts_whole agent fingerprint whole_agent.0 whole_fingerprint.0
        (no_colon _ fingerprint (unfold in_base58_alphabet txt in refl) whole_fingerprint.1)

no_parts : (a f : Text) → ◌≡◌ {A = Option (Text × Text)} none (some (a, f)) → ⊥
no_parts a f e = cc

-- What parses is the name that is written from the parts, and neither part holds a colon.
pub parse_did_found :
    (did agent fingerprint : Text)
    → parse_did did ≡ some (agent, fingerprint)
    → (did ≡ did_prefix ++ (agent ++ b':' ∷ fingerprint))
      × (any (λ x. x == b':') agent ≡ false)
      × (any (λ x. x == b':') fingerprint ≡ false)
unfolding parse_did
parse_did_found did agent fingerprint h = elim (Option-cases (strip_prefix did_prefix did)) [
  | inl missing ↦ absurd (no_parts agent fingerprint (sym (ap parts_after missing) ∙ h))
  | inr (rest, found) ↦
      let (parts, plain) =
        both_parts_found (split_colon rest) agent fingerprint (ap parts_after (sym found) ∙ h) in
      let (same, before) = split_colon_found rest agent fingerprint parts in
      (strip_prefix_found did_prefix did rest found ∙ ap (λ t. did_prefix ++ t) same, before, plain)
]
