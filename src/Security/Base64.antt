-- ===== src/Security/Base64.antt =====
-- `_encode_bytes` and `_decode_bytes` of backend/src/jarvis/security/session_auth.py: base64 of the alphabet for URLs
-- without padding. A byte is a number below 256.
pub mod RoundTrip
use Prim.Native.Nat.{◌/◌, ◌%◌}
use sriee.Base.{
  ℕ, ◌+◌, ◌-◌, ◌*◌, ◌&&◌, Option, none, some, List, [], ◌∷◌, ◌==◌, str_eq, nat_eq, leb, ltb, length,
  map, if◌then◌else◌,
}
use sriee.Text.{Str}

-- The value of a letter.
unfoldable pub sextet : ℕ → Option ℕ
sextet c =
    if leb b'A' c && leb c b'Z'
    then some (c - b'A')
    else if leb b'a' c && leb c b'z'
    then some (c - b'a' + 26)
    else if leb b'0' c && leb c b'9'
    then some (c - b'0' + 52)
    else if c == b'-'
    then some 62
    else if c == b'_'
    then some 63
    else none

unfoldable pub letter : ℕ → ℕ
letter n =
    if ltb n 26
    then n + b'A'
    else if ltb n 52
    then n - 26 + b'a'
    else if ltb n 62
    then n - 52 + b'0'
    else if n == 62
    then b'-'
    else b'_'

-- The values of a text, if each of its letters has one.
unfoldable pub sextets : Str → Option (List ℕ)
unfolding sextet
sextets [] = some []
sextets (c ∷ s) =
    let rest = sextets s in
    elim (sextet c) [ none ↦ none | some n ↦ elim rest [ none ↦ none | some ns ↦ some (n ∷ ns) ] ]

-- Four letters are three bytes; at the end two are one, and three are two.
unfoldable pub joined : List ℕ → Option (List ℕ)
joined [] = some []
joined (a ∷ []) = none
joined (a ∷ b ∷ []) = some ((a * 4 + (b / 16)) ∷ [])
joined (a ∷ b ∷ c ∷ []) = some ((a * 4 + (b / 16)) ∷ ((b % 16) * 16 + (c / 4)) ∷ [])
joined (a ∷ b ∷ c ∷ d ∷ ns) =
    let rest = joined ns in
    elim rest [
      | none ↦ none
      | some bytes ↦
          some ((a * 4 + (b / 16)) ∷ ((b % 16) * 16 + (c / 4)) ∷ ((c % 4) * 64 + d) ∷ bytes)
    ]

unfoldable pub split : List ℕ → List ℕ
split [] = []
split (x ∷ []) = (x / 4) ∷ ((x % 4) * 16) ∷ []
split (x ∷ y ∷ []) = (x / 4) ∷ ((x % 4) * 16 + (y / 16)) ∷ ((y % 16) * 4) ∷ []
split (x ∷ y ∷ z ∷ bytes) =
    (x / 4) ∷ ((x % 4) * 16 + (y / 16)) ∷ ((y % 16) * 4 + (z / 64)) ∷ (z % 64) ∷ split bytes

-- `_encode_bytes`
unfoldable pub encode_bytes : List ℕ → Str
unfolding split letter
encode_bytes bytes = map letter (split bytes)

-- `base64.b64decode(value + padding, altchars=b"-_", validate=True)`, of texts that are in the alphabet for URLs:
-- what it makes of others is not encoded as they are, and is refused.
unfoldable pub b64decode : Str → Option (List ℕ)
unfolding sextets joined
b64decode value = elim (sextets value) [ none ↦ none | some ns ↦ joined ns ]

-- `_decode_bytes`; `none` is its `ValueError`.
unfoldable pub decode_bytes : ℕ → Str → Option (List ℕ)
unfolding b64decode encode_bytes
decode_bytes expected_size value =
    if length value == (expected_size * 8 + 5) / 6
    then elim (b64decode value) [
      | none ↦ none
      | some decoded ↦
          if length decoded == expected_size && encode_bytes decoded == value
          then some decoded
          else none
    ]
    else none
