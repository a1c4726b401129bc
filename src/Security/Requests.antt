-- ===== src/Security/Requests.antt =====
-- What an authenticated request rests on
-- (backend/src/jarvis/security/desktop_auth.py and session_auth.py).
use sriee.Base.{
  ℕ, ◌≡◌, refl, Bool, true, false, ◌&&◌, Option, none, some, [], ◌∷◌, ◌==◌, str_eq, str_beq_iff,
  ltb, sym, ap, ◌∙◌, and-true,
}
use sriee.Text.{Str, codes}
use sriee.Security.Nonces.{Nonces, key_eq, consume}
use sriee.Security.Contracts.{ContractRange, parse_range, in_range, intersect}
use sriee.Security.Desktop.{
  DeviceRecord, SessionRecord, Claims, AuthenticatedPrincipal, Headers, Answer, unauthorized,
  upgrade_required, ok, ◌>>=◌, ◌>>◌, guard, found, negotiated, supports, valid_records,
  Authenticator, identified, authenticate, unless_replayed, spend_nonce,
}
use sriee.Security.Headers.{extract_bearer, required_text, parse_nonce}

found-eq-ok {ℓ κ} :
    {A : Type ℓ} {B : Type κ} (o : Option A) (f : A → Answer B) {b : B}
    → (found o >>= f) ≡ ok b
    → (a : A) × (o ≡ some a) × (f a ≡ ok b)
found-eq-ok none f h = cc
found-eq-ok (some a) f h = (a, refl, h)

negotiated-eq-ok {ℓ κ} :
    {A : Type ℓ} {B : Type κ} (o : Option A) (f : A → Answer B) {b : B}
    → (negotiated o >>= f) ≡ ok b
    → (a : A) × (o ≡ some a) × (f a ≡ ok b)
negotiated-eq-ok none f h = cc
negotiated-eq-ok (some a) f h = (a, refl, h)

guard-eq-ok {ℓ} :
    {B : Type ℓ} (t : Bool) (k : Answer B) {b : B} → (guard t >> k) ≡ ok b → (t ≡ true) × (k ≡ ok b)
guard-eq-ok true k h = (refl, h)
guard-eq-ok false k h = cc

supports-eq-ok {ℓ} :
    {B : Type ℓ} (t : Bool) (k : Answer B) {b : B}
    → (supports t >> k) ≡ ok b
    → (t ≡ true) × (k ≡ ok b)
supports-eq-ok true k h = (refl, h)
supports-eq-ok false k h = cc

pub ok_inj {ℓ} : {A : Type ℓ} {x y : A} → ok x ≡ ok y → x ≡ y
ok_inj h = cc

module _ {V : Type 0} where
  -- What `identified` has found of a principal.
  pub record IsIdentified (x : Authenticator V) (now : ℕ) (p : AuthenticatedPrincipal V)
      : Type 0 where
    pub claims : Claims
    pub device : DeviceRecord V
    pub own_session : SessionRecord V
    pub has_device : x.get_device p.device_id ≡ some device
    pub has_session : x.get_session claims.session_id ≡ some own_session
    pub same_device : claims.device_id ≡ p.device_id
    pub same_session : own_session.session_id ≡ p.session_id
    pub same_subject : claims.subject ≡ p.actor_id
    pub valid : valid_records claims device own_session ≡ true
    pub in_time : ltb now own_session.expires_at ≡ true
    pub token_range : ContractRange V
    pub negotiates :
        intersect x.versions x.supported_contracts
          (token_range ∷ device.contract_range ∷ own_session.contract_range ∷ [])
        ≡ some p.contract_range
    pub supported : in_range x.versions p.contract_range p.contract_version ≡ true

  pub identified-IsIdentified :
      (x : Authenticator V) (now : ℕ) (h : Headers) (p : AuthenticatedPrincipal V) (nonce : Str)
      → identified x now h ≡ ok (p, nonce)
      → IsIdentified x now p
  unfolding identified
  identified-IsIdentified x now h p nonce e =
      let a = found-eq-ok (extract_bearer h.authorization) _ e in
      let b = found-eq-ok (required_text h.device_id) _ a.2 in
      let c = found-eq-ok (required_text h.contract_version) _ b.2 in
      let d = found-eq-ok (x.versions.parse c.0) _ c.2 in
      let f = found-eq-ok (parse_nonce h.request_nonce) _ d.2 in
      let g = found-eq-ok (x.decode a.0) _ f.2 in
      let k =
        guard-eq-ok (g.0.token_type == codes "desktop_session" && g.0.device_id == b.0) _ g.2 in
      let l = found-eq-ok (parse_range x.versions g.0.contract_min g.0.contract_max) _ k.1 in
      let m = found-eq-ok (x.get_device b.0) _ l.2 in
      let n = found-eq-ok (x.get_session g.0.session_id) _ m.2 in
      let o = guard-eq-ok (valid_records g.0 m.0 n.0) _ n.2 in
      let q =
        negotiated-eq-ok
          (intersect x.versions x.supported_contracts
            (l.0 ∷ m.0.contract_range ∷ n.0.contract_range ∷ []))
          _ o.1 in
      let r = supports-eq-ok (in_range x.versions q.0 d.0) _ q.2 in
      let s = guard-eq-ok (ltb now n.0.expires_at) _ r.1 in
      let same = ap (λ (t : AuthenticatedPrincipal V × Str). t.0) (ok_inj s.1) in
      rw (sym same) (record {
        claims = g.0;
        device = m.0;
        own_session = n.0;
        has_device = m.1;
        has_session = n.1;
        same_device =
            (str_beq_iff g.0.device_id b.0).0
              (and-true (g.0.token_type == codes "desktop_session") _ k.0).1;
        same_session = refl;
        same_subject = refl;
        valid = o.0;
        in_time = s.0;
        token_range = l.0;
        negotiates = q.1;
        supported = r.0;
      })

  abbrev answer_of : Nonces × Answer (AuthenticatedPrincipal V) → Answer (AuthenticatedPrincipal V)
  answer_of t = t.1

  not_ok : (p : AuthenticatedPrincipal V) → unauthorized ≡ ok p → ⊥
  not_ok p e = cc

  upgrade_not_ok : (p : AuthenticatedPrincipal V) → upgrade_required ≡ ok p → ⊥
  upgrade_not_ok p e = cc

  consumed-eq-ok :
      (r : Nonces × Bool) (q p : AuthenticatedPrincipal V) (next : Nonces)
      → unless_replayed r q ≡ (next, ok p)
      → (q ≡ p) × (r ≡ (next, true))
  consumed-eq-ok (seen, true) q p next h = (
    ok_inj (ap answer_of h),
    ap (λ (t : Nonces × Answer (AuthenticatedPrincipal V)). (t.0, true)) h,
  )
  consumed-eq-ok (seen, false) q p next h = absurd (not_ok p (ap answer_of h))

  spend_nonce-eq-ok :
      (now : ℕ) (seen next : Nonces) (m : Answer (AuthenticatedPrincipal V × Str))
      (p : AuthenticatedPrincipal V)
      → spend_nonce now seen m ≡ (next, ok p)
      → (nonce : Str) × (m ≡ ok (p, nonce))
        × (consume now (p.session_id, nonce) p.expires_at seen ≡ (next, true))
  unfolding spend_nonce
  spend_nonce-eq-ok now seen next unauthorized p k = absurd (not_ok p (ap answer_of k))
  spend_nonce-eq-ok now seen next upgrade_required p k = absurd (upgrade_not_ok p (ap answer_of k))
  spend_nonce-eq-ok now seen next (ok (q, nonce)) p k =
      let c = consumed-eq-ok (consume now (q.session_id, nonce) q.expires_at seen) q p next k in
      (
        nonce,
        ap (λ (t : AuthenticatedPrincipal V). ok (t, nonce)) c.0,
        ap (λ (t : AuthenticatedPrincipal V). consume now (t.session_id, nonce) t.expires_at seen)
              (sym c.0)
            ∙ c.1,
      )

  -- An accepted request was identified, and its nonce was new.
  pub authenticate-eq-ok :
      (x : Authenticator V) (now nonce_now : ℕ) (h : Headers) (seen next : Nonces)
      (p : AuthenticatedPrincipal V)
      → authenticate x now nonce_now h seen ≡ (next, ok p)
      → (nonce : Str) × (identified x now h ≡ ok (p, nonce))
        × (consume nonce_now (p.session_id, nonce) p.expires_at seen ≡ (next, true))
  unfolding authenticate
  authenticate-eq-ok x now nonce_now h seen next p e =
      spend_nonce-eq-ok nonce_now seen next (identified x now h) p e
