-- ===== src/Identity/Tests.antt =====
-- Runs of the encodings of packages/protocol/src/base58.ts and did.ts on small inputs, and the
-- theorems at inputs that meet their hypotheses.
use revdev.Base.{Text, txt, ℕ, ◌<◌, ◌≡◌, refl, none, some, List, [], ◌∷◌, All, arith}
use revdev.Base.Result.{ok, err}
use revdev.Identity.Base58.{base58_encode, base58_decode}
use revdev.Identity.RoundTrip.{base58_decode-encode, base58_encode-decode}
use revdev.Identity.Did.{format_did, parse_did, invalid_agent_id}
use revdev.Identity.DidRoundTrip.{parse_did-format_did}

abbrev three_bytes : List ℕ
three_bytes = 0 ∷ 255 ∷ 7 ∷ []

encode_three : base58_encode three_bytes ≡ txt "1LQe"
unfolding base58_encode txt
encode_three = refl

decode_bad : base58_decode (txt "2O") ≡ err (record { unit = b'O'; position = 1 })
unfolding base58_decode txt
decode_bad = refl

base58_decode-encode_example : base58_decode (base58_encode three_bytes) ≡ ok three_bytes
base58_decode-encode_example =
    base58_decode-encode three_bytes (omega arith, (omega arith, (omega arith, tt)))

decode_three : base58_decode (txt "1LQe") ≡ ok three_bytes
unfolding base58_decode txt
decode_three = refl

base58_encode-decode_example :
    (base58_encode three_bytes ≡ txt "1LQe") × All (λ x. x < 256) three_bytes
base58_encode-decode_example = base58_encode-decode (txt "1LQe") three_bytes decode_three

abbrev ann : Text
unfolding txt
ann = txt "ann-1"

abbrev print : Text
unfolding txt
print = txt "z7Qa"

abbrev name : Text
unfolding txt
name = txt "did:revealfleet:ann-1:z7Qa"

format_name : format_did ann print ≡ ok name
unfolding format_did txt
format_name = refl

format_bad : format_did (txt "a b") print ≡ err (invalid_agent_id (txt "a b"))
unfolding format_did txt
format_bad = refl

parse_name : parse_did name ≡ some (ann, print)
unfolding parse_did txt
parse_name = refl

parse_two_colons : parse_did (txt "did:revealfleet:a:b:c") ≡ none
unfolding parse_did txt
parse_two_colons = refl

parse_did-format_did_example : parse_did name ≡ some (ann, print)
parse_did-format_did_example = parse_did-format_did ann print name format_name
