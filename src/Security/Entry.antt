-- ===== src/Security/Entry.antt =====
-- A session that was granted lets the desktop's requests in: `authenticateSession` of
-- backend/src/jarvis/security/session_auth.py, and `authenticate` of desktop_auth.py.
use Prim.Native.Nat.{◌/◌}
use sriee.Base.{
  ℕ, ◌+◌, ◌*◌, ◌≤◌, ◌<◌, ◌≡◌, refl, Bool, true, ◌&&◌, Option, some, [], ◌∷◌, ◌==◌, str_eq, nat_eq,
  nat_beq_iff, ltb, ◌∙◌, Bool-cases, inl, inr, str_beq_self,
}
use sriee.Text.{Str, codes}
use sriee.Security.Nonces.{key_eq}
use sriee.Security.Contracts.{ContractRange, parse_range, in_range, intersect}
use sriee.Security.Desktop.{
  Claims, DeviceRecord, SessionRecord, AuthenticatedPrincipal, Headers, Answer, ok, ◌>>=◌, ◌>>◌,
  guard, found, negotiated, supports, valid_records, fits_claim, is_active_device, Authenticator,
  identified,
}
use sriee.Security.Headers.{extract_bearer, required_text, parse_nonce, is_nil}
use sriee.Security.Authority.{
  SessionDevice, Authority, next_session, advanced, get_device, get_session,
}
use sriee.Security.Session.{DeviceSessionProof, SessionService}
use sriee.Security.Establish.{SessionGrant, rotation, claims_of}

found-some {ℓ κ} :
    {A : Type ℓ} {B : Type κ} {o : Option A} {a : A} (f : A → Answer B)
    → o ≡ some a
    → (found o >>= f) ≡ f a
found-some f h = rw h refl

negotiated-some {ℓ κ} :
    {A : Type ℓ} {B : Type κ} {o : Option A} {a : A} (f : A → Answer B)
    → o ≡ some a
    → (negotiated o >>= f) ≡ f a
negotiated-some f h = rw h refl

guard-true {ℓ} : {B : Type ℓ} {t : Bool} (k : Answer B) → t ≡ true → (guard t >> k) ≡ k
guard-true k h = rw h refl

supports-true {ℓ} : {B : Type ℓ} {t : Bool} (k : Answer B) → t ≡ true → (supports t >> k) ≡ k
supports-true k h = rw h refl

nat_beq_self : (n : ℕ) → (n == n) ≡ true
nat_beq_self n = (nat_beq_iff n n).1 refl

fits_self : (s : Str) → fits_claim s s ≡ true
fits_self s = elim (Bool-cases (is_nil s)) [ inl h ↦ rw h refl | inr h ↦ rw h (str_beq_self s) ]

-- The claims of the token of a grant.
abbrev pub grant_claims : Str → SessionGrant → Claims
grant_claims token_id g = record {
  token_type = codes "desktop_session";
  subject = g.actor_id;
  token_id = token_id;
  device_id = g.device_id;
  session_id = g.session_id;
  session_epoch = some g.session_epoch;
  contract_min = g.contract_minimum;
  contract_max = g.contract_maximum;
  user_session_id = g.user_session_id;
  backend_instance_id = g.backend_instance_id;
  expires = g.expires_at / 1000000;
  issued = g.issued_at / 1000000;
}

module _ {V : Type 0} where
  -- The headers of a request with the token, for the device, in the contract version `v` and with the nonce.
  pub record IsRequest (x : Authenticator V) (token device : Str) (v : V) (nonce : Str)
      (h : Headers) : Type 0 where
    pub bearer : extract_bearer h.authorization ≡ some token
    pub own_device : required_text h.device_id ≡ some device
    pub version_text : Str
    pub has_version : required_text h.contract_version ≡ some version_text
    pub version : x.versions.parse version_text ≡ some v
    pub has_nonce : parse_nonce h.request_nonce ≡ some nonce

  -- The authenticator reads the records of the authority, and decodes what the service encoded in a token while it is
  -- valid.
  pub record Reads (x : Authenticator V) (service : SessionService V) (a : Authority V) (now : ℕ)
      (c : Claims) : Type 0 where
    pub same_versions : x.versions ≡ service.versions
    pub same_supported : x.supported_contracts ≡ service.supported_contracts
    pub devices : x.get_device ≡ get_device a
    pub sessions : x.get_session ≡ get_session a
    pub decodes :
        c.issued * 1000000 ≤ now
        → now < c.expires * 1000000
        → x.decode (service.encode_token c) ≡ some c

  -- What `identified` makes of the ingredients.
  abbrev pub principal_of :
      Claims → Str → SessionRecord V → V → ContractRange V → AuthenticatedPrincipal V
  principal_of c device s v range = record {
    actor_id = c.subject;
    device_id = device;
    session_id = s.session_id;
    token_id = c.token_id;
    contract_version = v;
    contract_range = range;
    issued_at = c.issued * 1000000;
    expires_at = c.expires * 1000000;
  }

  pub identified-eq-ok :
      (x : Authenticator V) (now : ℕ) (h : Headers) (token device nonce : Str) (v : V) (c : Claims)
      (token_range range : ContractRange V) (d : DeviceRecord V) (s : SessionRecord V)
      → IsRequest x token device v nonce h
      → x.decode token ≡ some c
      → (c.token_type == codes "desktop_session" && c.device_id == device) ≡ true
      → parse_range x.versions c.contract_min c.contract_max ≡ some token_range
      → x.get_device device ≡ some d
      → x.get_session c.session_id ≡ some s
      → valid_records c d s ≡ true
      → intersect x.versions x.supported_contracts
          (token_range ∷ d.contract_range ∷ s.contract_range ∷ [])
        ≡ some range
      → in_range x.versions range v ≡ true
      → ltb now s.expires_at ≡ true
      → identified x now h ≡ ok (principal_of c device s v range, nonce)
  unfolding identified
  identified-eq-ok x now h token device nonce v c token_range range d s r decoded typed ranged here
        session valid agreed within in_time =
      found-some _ r.bearer
      ∙ found-some _ r.own_device
      ∙ found-some _ r.has_version
      ∙ found-some _ r.version
      ∙ found-some _ r.has_nonce
      ∙ found-some _ decoded
      ∙ guard-true _ typed
      ∙ found-some _ ranged
      ∙ found-some _ here
      ∙ found-some _ session
      ∙ guard-true _ valid
      ∙ negotiated-some _ agreed
      ∙ supports-true _ within
      ∙ guard-true _ in_time

  -- The records that a rotation leaves agree with the claims of the token.
  pub rotated-valid_records :
      (service : SessionService V) (now : ℕ) (p : DeviceSessionProof) (d : SessionDevice V)
      (range : ContractRange V) (i token_id : Str)
      → is_active_device d.record_of.status ≡ true
      → valid_records
          (claims_of service token_id now p d
            (next_session i (rotation service now p d range))
            range)
          (advanced (d.record_of.session_epoch + 1) d).record_of
          (next_session i (rotation service now p d range))
        ≡ true
  unfolding valid_records
  rotated-valid_records service now p d range i token_id active = rw active (
      rw (str_beq_self d.record_of.actor_id) (
        rw (str_beq_self d.record_of.device_id) (
          rw (str_beq_self i) (
            rw (nat_beq_self (d.record_of.session_epoch + 1))
              (rw (fits_self p.user_session_id) (fits_self service.backend_instance_id))))))
