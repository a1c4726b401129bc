-- ===== src/Security/Genuine.antt =====
-- A request that is let in is genuine
-- (backend/src/jarvis/security/desktop_auth.py and session_auth.py).
use sriee.Base.{
  ℕ, ◌≡◌, refl, true, ◌&&◌, Option, none, some, ◌==◌, str_eq, str_beq_iff, ltb, sym, ap, ◌∙◌,
  and-true, if-true,
}
use sriee.Text.{Str}
use sriee.Dict.{lookup}
use sriee.Security.Nonces.{Nonces, key_eq}
use sriee.Security.Contracts.{IsOrder, in_range, in_range-intersect}
use sriee.Security.Desktop.{
  DeviceRecord, SessionRecord, Claims, AuthenticatedPrincipal, Headers, ok, valid_records,
  is_active_device, is_active_session, Authenticator, authenticate,
}
use sriee.Security.Authority.{SessionDevice, Authority, get_device, get_session}
use sriee.Security.Valid.{IsValid}
use sriee.Security.Requests.{IsIdentified, identified-IsIdentified, authenticate-eq-ok}

module _ {V : Type 0} where
  -- The request of a principal, at the authority `a` and the time `now`.
  pub record IsGenuine (a : Authority V) (x : Authenticator V) (now : ℕ)
      (p : AuthenticatedPrincipal V) : Type 0 where
    pub device : SessionDevice V
    pub own_session : SessionRecord V
    pub registered : lookup p.device_id a.devices ≡ some device
    pub is_active : is_active_device device.record_of.status ≡ true
    pub same_actor : device.record_of.actor_id ≡ p.actor_id
    pub is_latest : lookup p.device_id a.active_session_by_device ≡ some p.session_id
    pub has_session : lookup p.session_id a.sessions ≡ some own_session
    pub in_time : ltb now own_session.expires_at ≡ true
    pub supported : in_range x.versions x.supported_contracts p.contract_version ≡ true
    pub device_supports :
        in_range x.versions device.record_of.contract_range p.contract_version ≡ true
    pub session_supports : in_range x.versions own_session.contract_range p.contract_version ≡ true

  -- The parts of `_validate_records` that are used.
  record Agrees (c : Claims) (d : DeviceRecord V) (s : SessionRecord V) : Type 0 where
    active_device : is_active_device d.status ≡ true
    active_session : is_active_session s.status ≡ true
    actor : d.actor_id ≡ c.subject
    own_device : s.device_id ≡ c.device_id
    own_id : s.session_id ≡ c.session_id

  valid_records-Agrees :
      (c : Claims) (d : DeviceRecord V) (s : SessionRecord V)
      → valid_records c d s ≡ true
      → Agrees c d s
  unfolding valid_records
  valid_records-Agrees c d s h =
      let a = and-true (is_active_device d.status && is_active_session s.status) _ h in
      let b = and-true (is_active_device d.status) _ a.0 in
      let e =
        and-true
          (d.actor_id == c.subject && (s.actor_id == c.subject && s.device_id == c.device_id)) _
          a.1 in
      let f = and-true (d.actor_id == c.subject) _ e.0 in
      let g = and-true (s.actor_id == c.subject) _ f.1 in
      let k = and-true (s.session_id == c.session_id && _) _ e.1 in
      let l = and-true (s.session_id == c.session_id) _ k.0 in
      record {
        active_device = b.0;
        active_session = b.1;
        actor = (str_beq_iff d.actor_id c.subject).0 f.0;
        own_device = (str_beq_iff s.device_id c.device_id).0 g.1;
        own_id = (str_beq_iff s.session_id c.session_id).0 l.0;
      }

  registered_device :
      (o : Option (SessionDevice V)) (d : DeviceRecord V)
      → (elim o [ none ↦ none | some r ↦ some r.record_of ]) ≡ some d
      → (r : SessionDevice V) × (o ≡ some r) × (r.record_of ≡ d)
  registered_device none d h = cc
  registered_device (some r) d h = (r, refl, cc)

  get_device-some :
      (a : Authority V) (i : Str) (d : DeviceRecord V)
      → get_device a i ≡ some d
      → (r : SessionDevice V) × (lookup i a.devices ≡ some r) × (r.record_of ≡ d)
  unfolding get_device
  get_device-some a i d h = registered_device (lookup i a.devices) d h

  get_session-some :
      (a : Authority V) (i : Str) (s : SessionRecord V)
      → get_session a i ≡ some s
      → lookup i a.sessions ≡ some s
  unfolding get_session
  get_session-some a i s h = h

  identified-IsGenuine :
      (a : Authority V) (x : Authenticator V) (now : ℕ) (p : AuthenticatedPrincipal V)
      → IsValid a
      → IsOrder x.versions
      → x.get_device ≡ get_device a
      → x.get_session ≡ get_session a
      → IsIdentified x now p
      → IsGenuine a x now p
  identified-IsGenuine a x now p v order devices sessions m =
      let r =
        get_device-some a p.device_id m.device (
          ap (λ (f : Str → Option (DeviceRecord V)). f p.device_id) (sym devices) ∙ m.has_device) in
      let s = get_session-some a m.claims.session_id m.own_session (
        ap (λ (f : Str → Option (SessionRecord V)). f m.claims.session_id) (sym sessions)
        ∙ m.has_session) in
      let g = valid_records-Agrees m.claims m.device m.own_session m.valid in
      let id : m.claims.session_id ≡ p.session_id = sym g.own_id ∙ m.same_session in
      let own : m.own_session.device_id ≡ p.device_id = g.own_device ∙ m.same_device in
      let all_ranges = and-true (in_range x.versions x.supported_contracts p.contract_version) _ (
        sym (
          in_range-intersect x.versions order x.supported_contracts p.contract_range _
            p.contract_version m.negotiates)
        ∙ m.supported) in
      let by_device = if-true _ _ (if-true _ _ all_ranges.1).1 in
      let latest = v.only m.claims.session_id m.own_session s g.active_session in
      record {
        device = r.0;
        own_session = m.own_session;
        registered = r.1;
        is_active = ap (λ (d : DeviceRecord V). is_active_device d.status) r.2 ∙ g.active_device;
        same_actor = ap (λ (d : DeviceRecord V). d.actor_id) r.2 ∙ g.actor ∙ m.same_subject;
        is_latest =
            ap (λ (d : Str). lookup d a.active_session_by_device) (sym own) ∙ latest ∙ ap some id;
        has_session = ap (λ (i : Str). lookup i a.sessions) (sym id) ∙ s;
        in_time = m.in_time;
        supported = all_ranges.0;
        device_supports =
            ap (λ (d : DeviceRecord V). in_range x.versions d.contract_range p.contract_version) r.2
            ∙ by_device.0;
        session_supports = (if-true _ _ by_device.1).0;
      }

  -- What `authenticate` lets in at a valid authority is the request of the registered and active device of the actor,
  -- in the session that is the latest of that device and has not expired, with a contract version that the service,
  -- the device and the session support, when the authenticator reads its records from that authority and versions
  -- are totally ordered.
  pub authenticate-IsGenuine :
      (a : Authority V) (x : Authenticator V) (now nonce_now : ℕ) (h : Headers) (seen next : Nonces)
      (p : AuthenticatedPrincipal V)
      → IsValid a
      → IsOrder x.versions
      → x.get_device ≡ get_device a
      → x.get_session ≡ get_session a
      → authenticate x now nonce_now h seen ≡ (next, ok p)
      → IsGenuine a x now p
  authenticate-IsGenuine a x now nonce_now h seen next p v order devices sessions e =
      let r = authenticate-eq-ok x now nonce_now h seen next p e in
      identified-IsGenuine a x now p v order devices sessions
        (identified-IsIdentified x now h p r.0 r.1)
