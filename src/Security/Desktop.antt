-- ===== src/Security/Desktop.antt =====
-- `DesktopSessionAuthenticator` of backend/src/jarvis/security/desktop_auth.py. PyJWT's decoding of a token, the
-- registries and the clocks are parameters; `none` of a decoding is any of its errors, and a claim is what `str` or
-- `int` give of it.
use sriee.Base.{
  ℕ, ◌*◌, Bool, true, false, ◌&&◌, Option, none, some, [], ◌∷◌, ◌==◌, str_eq, nat_eq, ltb,
  if◌then◌else◌,
}
use sriee.Text.{Str, codes}
use sriee.Security.Nonces.{Nonces, consume}
use sriee.Security.Contracts.{Versions, ContractRange, parse_range, in_range, intersect}
use sriee.Security.Headers.{is_nil, extract_bearer, required_text, parse_nonce}

-- `DeviceStatus`
pub data DeviceStatus : Type 0 where
  active revoked : DeviceStatus

-- `SessionStatus`
pub data SessionStatus : Type 0 where
  active revoked : SessionStatus

abbrev pub is_active_device : DeviceStatus → Bool
is_active_device DeviceStatus.active = true
is_active_device DeviceStatus.revoked = false

abbrev pub is_active_session : SessionStatus → Bool
is_active_session SessionStatus.active = true
is_active_session SessionStatus.revoked = false

-- `DeviceRecord`; epochs are not negative.
pub record DeviceRecord (V : Type 0) : Type 0 where
  pub device_id : Str
  pub actor_id : Str
  pub status : DeviceStatus
  pub session_epoch : ℕ
  pub contract_range : ContractRange V

-- `DesktopSessionRecord`; a time is in microseconds.
pub record SessionRecord (V : Type 0) : Type 0 where
  pub session_id : Str
  pub device_id : Str
  pub actor_id : Str
  pub status : SessionStatus
  pub session_epoch : ℕ
  pub expires_at : ℕ
  pub contract_range : ContractRange V
  pub user_session_id : Str
  pub backend_instance_id : Str

-- The claims of a token. `session_epoch` is `none` where `int` raises or gives a negative number; the times are in
-- seconds.
pub record Claims : Type 0 where
  pub token_type : Str
  pub subject : Str
  pub token_id : Str
  pub device_id : Str
  pub session_id : Str
  pub session_epoch : Option ℕ
  pub contract_min : Str
  pub contract_max : Str
  pub user_session_id : Str
  pub backend_instance_id : Str
  pub expires : ℕ
  pub issued : ℕ

-- `AuthenticatedPrincipal`; the method is a constant.
pub record AuthenticatedPrincipal (V : Type 0) : Type 0 where
  pub actor_id : Str
  pub device_id : Str
  pub session_id : Str
  pub token_id : Str
  pub contract_version : V
  pub contract_range : ContractRange V
  pub issued_at : ℕ
  pub expires_at : ℕ

-- The headers of a request.
pub record Headers : Type 0 where
  pub authorization : Option Str
  pub device_id : Option Str
  pub contract_version : Option Str
  pub request_nonce : Option Str

-- A result, or the 401 or the 426 that is answered.
pub data Answer {ℓ} (A : Type ℓ) : Type ℓ where
  unauthorized upgrade_required : Answer A
  ok : A → Answer A

infixl 5 ◌>>=◌ ◌>>◌
abbrev pub ◌>>=◌ {ℓ κ} : {A : Type ℓ} {B : Type κ} → Answer A → (A → Answer B) → Answer B
unauthorized >>= f = unauthorized
upgrade_required >>= f = upgrade_required
ok a >>= f = f a

abbrev pub ◌>>◌ {ℓ} : {B : Type ℓ} → Answer (Unit {0}) → Answer B → Answer B
m >> k = m >>= λ _. k

-- A `ValueError`, `KeyError`, `TypeError`, `InvalidVersion` or an error of PyJWT.
abbrev pub guard : Bool → Answer (Unit {0})
guard true = ok tt
guard false = unauthorized

abbrev pub found {ℓ} : {A : Type ℓ} → Option A → Answer A
found none = unauthorized
found (some a) = ok a

-- `_ContractMismatch`
abbrev pub negotiated {ℓ} : {A : Type ℓ} → Option A → Answer A
negotiated none = upgrade_required
negotiated (some a) = ok a

abbrev pub supports : Bool → Answer (Unit {0})
supports true = ok tt
supports false = upgrade_required

abbrev is_text : Option ℕ → ℕ → Bool
is_text none x = false
is_text (some y) x = x == y

-- An identifier of the session that is set is that of the claim.
abbrev pub fits_claim : Str → Str → Bool
fits_claim bound claim = if is_nil bound then true else claim == bound

-- `DesktopSessionAuthenticator`, with what decoding gives at the time of the request.
pub record Authenticator (V : Type 0) : Type 0 where
  pub versions : Versions V
  pub supported_contracts : ContractRange V
  pub decode : Str → Option Claims
  pub get_device : Str → Option (DeviceRecord V)
  pub get_session : Str → Option (SessionRecord V)

module _ {V : Type 0} where
  -- `_validate_records`, of records that are there.
  unfoldable pub valid_records : Claims → DeviceRecord V → SessionRecord V → Bool
  valid_records c d s =
      (is_active_device d.status && is_active_session s.status)
      && ((d.actor_id == c.subject && (s.actor_id == c.subject && s.device_id == c.device_id))
          && ((s.session_id == c.session_id
                && (is_text c.session_epoch d.session_epoch
                    && is_text c.session_epoch s.session_epoch))
              && (fits_claim s.user_session_id c.user_session_id
                  && fits_claim s.backend_instance_id c.backend_instance_id)))

  -- `authenticate` up to the consumption of the nonce: the principal, and the nonce.
  unfoldable pub identified :
      Authenticator V → ℕ → Headers → Answer (AuthenticatedPrincipal V × Str)
  unfolding extract_bearer required_text parse_nonce parse_range intersect in_range valid_records
  identified a now h = do
    token ← found (extract_bearer h.authorization)
    header_device_id ← found (required_text h.device_id)
    text ← found (required_text h.contract_version)
    selected ← found (a.versions.parse text)
    nonce ← found (parse_nonce h.request_nonce)
    c ← found (a.decode token)
    guard (c.token_type == codes "desktop_session" && c.device_id == header_device_id)
    token_range ← found (parse_range a.versions c.contract_min c.contract_max)
    d ← found (a.get_device header_device_id)
    s ← found (a.get_session c.session_id)
    guard (valid_records c d s)
    effective ← negotiated (
        intersect a.versions a.supported_contracts
          (token_range ∷ d.contract_range ∷ s.contract_range ∷ []))
    supports (in_range a.versions effective selected)
    guard (ltb now s.expires_at)
    ok (
      record {
        actor_id = c.subject;
        device_id = header_device_id;
        session_id = s.session_id;
        token_id = c.token_id;
        contract_version = selected;
        contract_range = effective;
        issued_at = c.issued * 1000000;
        expires_at = c.expires * 1000000;
      },
      nonce,
    )

  abbrev pub unless_replayed :
      Nonces × Bool → AuthenticatedPrincipal V → Nonces × Answer (AuthenticatedPrincipal V)
  unless_replayed (seen, true) p = (seen, ok p)
  unless_replayed (seen, false) p = (seen, unauthorized)

  -- The nonce of what has been identified is consumed.
  unfoldable pub spend_nonce :
      ℕ
      → Nonces
      → Answer (AuthenticatedPrincipal V × Str)
      → Nonces × Answer (AuthenticatedPrincipal V)
  unfolding consume
  spend_nonce now seen unauthorized = (seen, unauthorized)
  spend_nonce now seen upgrade_required = (seen, upgrade_required)
  spend_nonce now seen (ok (p, nonce)) =
      unless_replayed (consume now (p.session_id, nonce) p.expires_at seen) p

  -- `authenticate`, with the clock of the authenticator and that of the nonces.
  unfoldable pub authenticate :
      Authenticator V → ℕ → ℕ → Headers → Nonces → Nonces × Answer (AuthenticatedPrincipal V)
  unfolding identified spend_nonce
  authenticate a now nonce_now h seen = spend_nonce nonce_now seen (identified a now h)
