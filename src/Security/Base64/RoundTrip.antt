-- ===== src/Security/Base64/RoundTrip.antt =====
-- What was encoded is decoded (`_encode_bytes` and `_decode_bytes` of backend/src/jarvis/security/session_auth.py).
use Prim.Native.Nat.{◌/◌, ◌%◌}
use sriee.Base.{
  ℕ, ◌+◌, ◌*◌, ◌<◌, ◌≡◌, refl, some, List, [], ◌∷◌, str_eq, str_beq_iff, nat_eq, nat_beq_iff,
  length, map, arith, ◌∙◌,
}
use sriee.Security.Base64.{
  sextet, letter, sextets, joined, split, encode_bytes, b64decode, decode_bytes,
}

-- Every number is below a bound.
abbrev pub AllBelow : ℕ → List ℕ → Type 0
AllBelow n [] = Unit
AllBelow n (x ∷ xs) = (x < n) × AllBelow n xs

sextet-letter : (n : ℕ) → n < 64 → sextet (letter n) ≡ some n
unfolding sextet letter
sextet-letter n h = ground arith

sextets-letter : (ns : List ℕ) → AllBelow 64 ns → sextets (map letter ns) ≡ some ns
unfolding sextets
sextets-letter [] h = refl
sextets-letter (n ∷ ns) h = rw (sextet-letter n h.0, sextets) (rw (sextets-letter ns h.1) refl)

pub split-AllBelow : (bytes : List ℕ) → AllBelow 256 bytes → AllBelow 64 (split bytes)
unfolding split
split-AllBelow [] h = tt
split-AllBelow (x ∷ []) h = omega arith
split-AllBelow (x ∷ y ∷ []) h = omega arith
split-AllBelow (x ∷ y ∷ z ∷ bytes) h =
    (omega arith, (omega arith, (omega arith, (omega arith, split-AllBelow bytes h.1.1.1))))

first_byte : (x y : ℕ) → x < 256 → y < 256 → x / 4 * 4 + (x % 4 * 16 + y / 16) / 16 ≡ x
first_byte x y h k = omega arith

second_byte :
    (x y z : ℕ)
    → y < 256
    → z < 256
    → (x % 4 * 16 + y / 16) % 16 * 16 + (y % 16 * 4 + z / 64) / 4 ≡ y
second_byte x y z h k = omega arith

third_byte : (y z : ℕ) → z < 256 → (y % 16 * 4 + z / 64) % 4 * 64 + z % 64 ≡ z
third_byte y z h = omega arith

joined-split : (bytes : List ℕ) → AllBelow 256 bytes → joined (split bytes) ≡ some bytes
unfolding joined split
joined-split [] h = refl
joined-split (x ∷ []) h = ground arith
joined-split (x ∷ y ∷ []) h = ground arith
joined-split (x ∷ y ∷ z ∷ bytes) h = rw (joined-split bytes h.1.1.1) (
    rw (first_byte x y h.0 h.1.0)
      (rw (second_byte x y z h.1.0 h.1.1.0) (rw (third_byte y z h.1.1.0) refl)))

pub length-map : (f : ℕ → ℕ) (ns : List ℕ) → length (map f ns) ≡ length ns
length-map f [] = refl
length-map f (n ∷ ns) = omega (arith, length-map f ns)

pub length-split : (bytes : List ℕ) → length (split bytes) ≡ (length bytes * 8 + 5) / 6
unfolding split
length-split [] = refl
length-split (x ∷ []) = refl
length-split (x ∷ y ∷ []) = refl
length-split (x ∷ y ∷ z ∷ bytes) = omega (arith, length-split bytes)

b64decode-encode_bytes :
    (bytes : List ℕ) → AllBelow 256 bytes → b64decode (encode_bytes bytes) ≡ some bytes
unfolding b64decode encode_bytes
b64decode-encode_bytes bytes h =
    rw (sextets-letter (split bytes) (split-AllBelow bytes h), b64decode) (joined-split bytes h)

-- Bytes of the expected number are decoded from what they are encoded as, which is accepted as canonical.
pub decode_bytes-encode_bytes :
    (bytes : List ℕ)
    → AllBelow 256 bytes
    → decode_bytes (length bytes) (encode_bytes bytes) ≡ some bytes
unfolding decode_bytes
decode_bytes-encode_bytes bytes h =
    let size : length (encode_bytes bytes) ≡ (length bytes * 8 + 5) / 6 =
      unfold encode_bytes in length-map letter (split bytes) ∙ length-split bytes in
    rw ((nat_beq_iff _ _).1 size) (
      rw (b64decode-encode_bytes bytes h) (
        rw ((nat_beq_iff (length bytes) (length bytes)).1 refl)
          (rw ((str_beq_iff (encode_bytes bytes) _).1 refl) refl)))
