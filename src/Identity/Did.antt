-- ===== src/Identity/Did.antt =====
-- packages/protocol/src/did.ts: the names did:revealfleet:<agent>:<fingerprint>.
use revdev.Base.{
  Text, txt, ℕ, ◌==◌, ◌&&◌, ◌||◌, Bool, true, Option, none, some, [], ◌∷◌, ◌++◌, any, leb, ltb,
  length, if◌then◌else◌,
}
use revdev.Base.Prefix.{strip_prefix}
use revdev.Base.Result.{Result, ok, ◌>>◌, ensure}
use revdev.Identity.Base58.{base58_alphabet}

abbrev pub did_prefix : Text
unfolding txt
did_prefix = txt "did:revealfleet:"

unfoldable pub is_valid_agent_id_char : ℕ → Bool
is_valid_agent_id_char c =
    leb b'0' c && leb c b'9'
    || leb b'a' c && leb c b'z'
    || leb b'A' c && leb c b'Z'
    || c == b'_'
    || c == b'-'

unfoldable pub in_base58_alphabet : ℕ → Bool
unfolding txt
in_base58_alphabet c = any (λ a. a == c) base58_alphabet

-- The loop of `isValidAgentId` and `isValidFingerprint` over the characters.
unfoldable pub every : (ℕ → Bool) → Text → Bool
every test [] = true
every test (c ∷ s) = test c && every test s

abbrev pub id_length : Text → Bool
id_length s = ltb 0 (length s) && leb (length s) 128

unfoldable pub is_valid_agent_id : Text → Bool
unfolding is_valid_agent_id_char every
is_valid_agent_id s = id_length s && every is_valid_agent_id_char s

unfoldable pub is_valid_fingerprint : Text → Bool
unfolding in_base58_alphabet every
is_valid_fingerprint s = id_length s && every in_base58_alphabet s

pub data DidError : Type 0 where
  invalid_agent_id invalid_fingerprint : Text → DidError

unfoldable pub format_did : Text → Text → Result DidError Text
unfolding is_valid_agent_id is_valid_fingerprint
format_did agent fingerprint = do
  ensure (is_valid_agent_id agent) (invalid_agent_id agent)
  ensure (is_valid_fingerprint fingerprint) (invalid_fingerprint fingerprint)
  ok (did_prefix ++ (agent ++ b':' ∷ fingerprint))

-- What stands before and after the first colon.
unfoldable pub split_colon : Text → Option (Text × Text)
split_colon [] = none
split_colon (c ∷ s) =
    let rest : Option (Text × Text) = elim (split_colon s) [
      | none ↦ none
      | some (a, f) ↦ some (c ∷ a, f)
    ] in
    if c == b':' then some ([], s) else rest

abbrev pub both_parts : Option (Text × Text) → Option (Text × Text)
both_parts none = none
both_parts (some ([], f)) = none
both_parts (some (c ∷ a, [])) = none
both_parts (some (c ∷ a, d ∷ f)) =
    if any (λ x. x == b':') (d ∷ f) then none else some (c ∷ a, d ∷ f)

abbrev pub parts_after : Option Text → Option (Text × Text)
parts_after none = none
parts_after (some rest) = both_parts (split_colon rest)

unfoldable pub parse_did : Text → Option (Text × Text)
unfolding strip_prefix split_colon
parse_did did = parts_after (strip_prefix did_prefix did)
