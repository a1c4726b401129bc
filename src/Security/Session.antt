-- ===== src/Security/Session.antt =====
-- The data of a session's establishment, and `issueSessionChallenge`, of backend/src/jarvis/security/session_auth.py, with the stores in
-- memory. SHA-256, the check of an ECDSA signature, and the encoding of a token are parameters; a nonce's bytes and
-- UUIDs are arguments.
use sriee.Base.{
  ℕ, ◌+◌, ◌++◌, Bool, true, false, not, ◌&&◌, Option, none, some, List, [], ◌∷◌, ◌==◌, str_eq,
  nat_eq, leb, ltb, length, all, any, take, drop, if◌then◌else◌,
}
use sriee.Text.{Str, codes, is_hex, is_digit, is_word, repeated, prefixed}
use sriee.Security.Contracts.{Versions, ContractRange}
use sriee.Security.Desktop.{Claims, is_active_device}
use sriee.Security.Headers.{in_groups, is_nil}
use sriee.Security.Authority.{Authority, SessionDevice}
use sriee.Security.Challenges.{
  SessionChallenge, ChallengeLimits, Challenges, Issued, issued, collision, capacity,
  device_capacity, issue,
}
use sriee.Dict.{lookup}
use sriee.Security.Base64.{encode_bytes, decode_bytes}

-- `CHALLENGE_ID_PATTERN`, `BACKEND_ID_PATTERN`, `SESSION_ID_PATTERN`, `DEVICE_ID_PATTERN`, `NONCE_PATTERN`
unfoldable pub is_challenge_id : Str → Bool
is_challenge_id = prefixed (codes "chl_") is_hex 32 32

unfoldable pub is_backend_id : Str → Bool
is_backend_id = prefixed (codes "bkd_") is_hex 32 32

unfoldable pub is_session_id : Str → Bool
is_session_id = prefixed (codes "ses_") is_hex 32 32

unfoldable pub is_device_id : Str → Bool
is_device_id = prefixed (codes "dev_") is_hex 32 32

unfoldable pub is_nonce : Str → Bool
is_nonce = repeated is_word 43 43

-- `[1-9][0-9]{0,9}`
unfoldable pub is_positive : Str → Bool
is_positive [] = false
is_positive (c ∷ s) = (leb b'1' c && leb c b'9') && repeated is_digit 0 9 s

-- `0|[1-9][0-9]{0,9}`
unfoldable pub is_number : Str → Bool
unfolding is_positive
is_number s = if s == codes "0" then true else is_positive s

-- What stands between the dots.
unfoldable pub parts : Str → List Str
parts [] = [] ∷ []
parts (c ∷ s) =
    let rest = parts s in
    if c == b'.' then [] ∷ rest else elim rest [ [] ↦ [] | (p ∷ ps) ↦ (c ∷ p) ∷ ps ]

-- `CONTRACT_VERSION_PATTERN`
unfoldable pub is_contract_version : Str → Bool
unfolding parts is_number
is_contract_version s = (length (parts s) == 3) && all is_number (parts s)

-- The nonce is the canonical text of a UUID of version 4 (and so of the variant of RFC 4122).
unfoldable pub is_uuid4 : Str → Bool
unfolding in_groups
is_uuid4 s =
    in_groups (8 ∷ 4 ∷ 4 ∷ 4 ∷ 12 ∷ []) s
    && ((take 1 (drop 14 s) == codes "4")
        && any (λ (c : ℕ). take 1 (drop 19 s) == c ∷ []) (b'8' ∷ b'9' ∷ b'a' ∷ b'b' ∷ []))

pub record DeviceSessionProof : Type 0 where
  pub challenge_id : Str
  pub device_id : Str
  pub user_session_id : Str
  pub client_nonce : Str
  pub contract_minimum : Str
  pub contract_maximum : Str
  pub signature : Str

-- `_validate_proof_shape`
unfoldable pub valid_proof : DeviceSessionProof → Bool
unfolding is_challenge_id is_device_id is_positive is_contract_version is_uuid4 decode_bytes
valid_proof p =
    (is_challenge_id p.challenge_id && (is_device_id p.device_id && is_positive p.user_session_id))
    && ((is_contract_version p.contract_minimum && is_contract_version p.contract_maximum)
        && (is_uuid4 p.client_nonce
            && elim (decode_bytes 64 p.signature) [ none ↦ false | some _ ↦ true ]))

-- `_validate_challenge`
unfoldable pub valid_challenge : SessionChallenge → Bool
unfolding is_challenge_id is_nonce is_backend_id is_device_id decode_bytes
valid_challenge c =
    (is_challenge_id c.challenge_id
      && (is_nonce c.server_nonce && is_backend_id c.backend_instance_id))
    && ((is_device_id c.device_id && not (is_nil c.actor_id))
        && (ltb c.issued_at c.expires_at
            && elim (decode_bytes 32 c.server_nonce) [ none ↦ false | some _ ↦ true ]))

-- The payload of `buildSessionProofMessage`.
pub record Transcript : Type 0 where
  pub actor_id : Str
  pub backend_instance_id : Str
  pub challenge_id : Str
  pub client_nonce : Str
  pub contract_maximum : Str
  pub contract_minimum : Str
  pub device_id : Str
  pub domain : Str
  pub server_nonce : Str
  pub user_session_id : Str

abbrev pub transcript : SessionChallenge → DeviceSessionProof → Transcript
transcript c p = record {
  actor_id = c.actor_id;
  backend_instance_id = c.backend_instance_id;
  challenge_id = c.challenge_id;
  client_nonce = p.client_nonce;
  contract_maximum = p.contract_maximum;
  contract_minimum = p.contract_minimum;
  device_id = p.device_id;
  domain = codes "jarvis.session-proof.v1";
  server_nonce = c.server_nonce;
  user_session_id = p.user_session_id;
}

-- `SessionAuthenticationService`; a time is in microseconds. `sha256_hex` is `hexdigest`, and `verifies` whether a
-- point of the curve is one, and a raw signature by it of the canonical JSON of a transcript is good.
pub record SessionService (V : Type 0) : Type 0 where
  pub versions : Versions V
  pub supported_contracts : ContractRange V
  pub backend_instance_id : Str
  pub challenge_lifetime : ℕ
  pub session_lifetime : ℕ
  pub limits : ChallengeLimits
  pub sha256_hex : List ℕ → Str
  pub verifies : List ℕ → List ℕ → Transcript → Bool
  pub encode_token : Claims → Str

-- The stores.
pub record Sessions (V : Type 0) : Type 0 where
  pub challenges : Challenges
  pub authority : Authority V

module _ {V : Type 0} (service : SessionService V) where
  abbrev refused : Issued → SessionChallenge → Option SessionChallenge
  refused issued c = some c
  refused collision c = none
  refused capacity c = none
  refused device_capacity c = none

  abbrev pub new_challenge : Str → List ℕ → ℕ → SessionDevice V → SessionChallenge
  new_challenge i nonce now d = record {
    challenge_id = codes "chl_" ++ i;
    server_nonce = encode_bytes nonce;
    backend_instance_id = service.backend_instance_id;
    device_id = d.record_of.device_id;
    actor_id = d.record_of.actor_id;
    issued_at = now;
    expires_at = now + service.challenge_lifetime;
  }

  abbrev pub kept_challenge :
      Sessions V → SessionChallenge → Challenges × Issued → Sessions V × Option SessionChallenge
  kept_challenge s c (challenges, answer) = (record s { challenges = challenges }, refused answer c)

  -- `issueSessionChallenge`, with the hexadecimal digits of the UUID, the bytes of the nonce, and the time by the
  -- clock of the service and then by that of the store.
  unfoldable pub issue_session_challenge :
      Str → List ℕ → ℕ → ℕ → Str → Sessions V → Sessions V × Option SessionChallenge
  unfolding is_device_id lookup valid_challenge issue encode_bytes
  issue_session_challenge i nonce now at device_id s =
      if is_device_id device_id
      then elim (lookup device_id s.authority.devices) [
        | none ↦ (s, none)
        | some d ↦
            if is_active_device d.record_of.status && valid_challenge (new_challenge i nonce now d)
            then kept_challenge s (new_challenge i nonce now d)
                (issue service.limits at (new_challenge i nonce now d) s.challenges)
            else (s, none)
      ]
      else (s, none)
