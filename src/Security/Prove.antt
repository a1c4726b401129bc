-- ===== src/Security/Prove.antt =====
-- What `authenticateSession` of backend/src/jarvis/security/session_auth.py checks of a proof before it consumes the
-- challenge.
use sriee.Base.{
  ℕ, Bool, true, false, not, ◌&&◌, Option, none, some, List, [], ◌∷◌, ◌++◌, ◌==◌, str_eq, nat_eq,
  leb, ltb, take, drop,
}
use sriee.Text.{Str, codes}
use sriee.Dict.{lookup}
use sriee.Security.Contracts.{ContractRange, parse_range, intersect}
use sriee.Security.Desktop.{is_active_device}
use sriee.Security.Authority.{SessionDevice}
use sriee.Security.Challenges.{SessionChallenge}
use sriee.Security.Base64.{decode_bytes}
use sriee.Security.Session.{
  DeviceSessionProof, valid_proof, valid_challenge, Transcript, transcript, SessionService,
  Sessions,
}

infixl 5 ◌>>=◌ ◌>>◌
abbrev pub ◌>>=◌ {ℓ κ} : {A : Type ℓ} {B : Type κ} → Option A → (A → Option B) → Option B
none >>= f = none
some a >>= f = f a

abbrev pub ◌>>◌ {ℓ} : {B : Type ℓ} → Option (Unit {0}) → Option B → Option B
m >> k = m >>= λ _. k

abbrev pub require : Bool → Option (Unit {0})
require true = some tt
require false = none

abbrev is_zero : List ℕ → Bool
is_zero [] = true
is_zero (b ∷ bytes) = (b == 0) && is_zero bytes

abbrev starts_with_4 : List ℕ → Bool
starts_with_4 [] = false
starts_with_4 (b ∷ _) = b == 4

module _ {V : Type 0} (service : SessionService V) where
  -- The key names the device.
  unfoldable pub is_key_of : SessionDevice V → Bool
  unfolding decode_bytes
  is_key_of d = elim (decode_bytes 65 d.public_key) [
    | none ↦ false
    | some key ↦ (codes "dev_" ++ take 32 (service.sha256_hex key)) == d.record_of.device_id
  ]

  -- `_verify_device_signature`; `false` is its exception.
  unfoldable pub verify_device_signature : Str → Str → Transcript → Bool
  unfolding decode_bytes
  verify_device_signature public_key signature message = elim (decode_bytes 65 public_key) [
    | none ↦ false
    | some key ↦ elim (decode_bytes 64 signature) [
      | none ↦ false
      | some raw ↦
          starts_with_4 key
          && (not (is_zero (take 32 raw))
              && (not (is_zero (drop 32 raw)) && service.verifies key raw message))
    ]
  ]

  -- `authenticateSession` up to the consumption of the challenge: the challenge, the device and the contract range.
  unfoldable pub proved :
      ℕ
      → DeviceSessionProof
      → Sessions V
      → Option (SessionChallenge × (SessionDevice V × ContractRange V))
  unfolding valid_proof valid_challenge lookup is_key_of parse_range intersect
      verify_device_signature
  proved now p s = do
    require (valid_proof p)
    c ← lookup p.challenge_id s.challenges
    require (valid_challenge c)
    require (leb c.issued_at now && ltb now c.expires_at)
    require (c.device_id == p.device_id && c.backend_instance_id == service.backend_instance_id)
    d ← lookup p.device_id s.authority.devices
    require (is_active_device d.record_of.status)
    require (d.record_of.actor_id == c.actor_id)
    require (
        d.public_key_algorithm == codes "ECDSA_P256_SHA256"
        && d.public_key_format == codes "SEC1_UNCOMPRESSED")
    require (is_key_of d)
    requested ← parse_range service.versions p.contract_minimum p.contract_maximum
    range ←
        intersect service.versions service.supported_contracts
          (d.record_of.contract_range ∷ requested ∷ [])
    require (verify_device_signature d.public_key p.signature (transcript c p))
    some (c, (d, range))
