-- ===== src/Security/Entered.antt =====
-- What the desktop can do with a grant (backend/src/jarvis/security).
use Prim.Native.Nat.{◌/◌}
use mathlib.Core.Path.{subst}
use sriee.Base.{
  ℕ, ◌+◌, ◌*◌, ◌≤◌, ◌<◌, ◌≡◌, refl, true, false, Option, none, some, [], ◌∷◌, ◌++◌, ◌==◌, str_eq,
  str_beq_iff, ltb, arith, sym, ap, ◌∙◌, and_intro, str_beq_self,
}
use sriee.Text.{Str, codes}
use sriee.Dict.{lookup, contains, is_some, if_kept, IsDistinct, lookup-keep_values}
use sriee.Security.Nonces.{Nonces, Key, key_eq, consume}
use sriee.Security.Contracts.{
  Versions, ContractRange, IsOrder, parse_range, in_range, intersect, intersect-le,
  parse_range-text,
}
use sriee.Security.Desktop.{
  Claims, DeviceRecord, SessionRecord, AuthenticatedPrincipal, Headers, Answer, ok, Authenticator,
  authenticate, spend_nonce, identified,
}
use sriee.Security.Authority.{
  SessionDevice, Authority, next_session, advanced, get_device, get_session,
}
use sriee.Security.Valid.{IsValid}
use sriee.Security.Stored.{IsNamed}
use sriee.Security.Replayed.{spent}
use sriee.Security.Session.{DeviceSessionProof, SessionService, Sessions}
use sriee.Security.Establish.{
  SessionGrant, grant, rotation, claims_of, issue_token, authenticate_session,
}
use sriee.Security.Granted.{IsGranted, authenticate_session-IsGranted}
use sriee.Security.Entry.{
  IsRequest, Reads, grant_claims, principal_of, identified-eq-ok, rotated-valid_records,
}
use sriee.Security.Within.{Allows, Allows-in_range, negotiated_again}

fresh-consume :
    (now : ℕ) (key : Key) (e : ℕ) (seen : Nonces)
    → IsDistinct seen
    → lookup key seen ≡ none
    → (consume now key e seen).1 ≡ true
unfolding consume
fresh-consume now key e seen d h =
    let absent =
      lookup-keep_values (λ (x : ℕ). ltb now x) key seen d
      ∙ ap (if_kept (λ (x : ℕ). ltb now x)) h in
    rw (ap is_some absent) refl

in_time :
    (now l : ℕ) {later : ℕ} → later < (now + l) / 1000000 * 1000000 → ltb later (now + l) ≡ true
in_time now l h = ground arith

module _ {V : Type 0} where
  issue_token-some :
      (service : SessionService V) (c : Claims) (t : Str)
      → issue_token service c ≡ some t
      → service.encode_token c ≡ t
  unfolding issue_token
  issue_token-some service c t h = ground arith

  device_read :
      (x : Authenticator V) (a : Authority V) (i : Str) (d : SessionDevice V)
      → x.get_device ≡ get_device a
      → lookup i a.devices ≡ some d
      → x.get_device i ≡ some d.record_of
  unfolding get_device
  device_read x a i d same h =
      ap (λ (f : Str → Option (DeviceRecord V)). f i) same ∙ rw (h, get_device) refl

  session_read :
      (x : Authenticator V) (a : Authority V) (i : Str) (s : SessionRecord V)
      → x.get_session ≡ get_session a
      → lookup i a.sessions ≡ some s
      → x.get_session i ≡ some s
  unfolding get_session
  session_read x a i s same h = ap (λ (f : Str → Option (SessionRecord V)). f i) same ∙ h

  -- The principal of a request with the token of a grant.
  IsLetIn : Authenticator V → ℕ → Headers → V → Str → SessionGrant → Type 0
  IsLetIn x now h v nonce g =
      (p : AuthenticatedPrincipal V) × (identified x now h ≡ ok (p, nonce))
      × (p.session_id ≡ g.session_id)
      × (p.device_id ≡ g.device_id)
      × (p.actor_id ≡ g.actor_id)
      × (p.contract_version ≡ v)

  IsGranted-IsLetIn :
      (service : SessionService V) (token_id : Str) (now later : ℕ) (q : DeviceSessionProof)
      (s t : Sessions V) (g : SessionGrant) (x : Authenticator V) (h : Headers) (v : V)
      (nonce : Str) (m : IsGranted service token_id now q s t g)
      → IsOrder service.versions
      → ((a : V) → service.versions.parse (service.versions.text a) ≡ some a)
      → Reads x service t.authority later (grant_claims token_id g)
      → IsRequest x g.access_token g.device_id v nonce h
      → Allows service g v
      → now ≤ later
      → later < (now + service.session_lifetime) / 1000000 * 1000000
      → IsLetIn x later h v nonce g
  unfolding IsLetIn
  IsGranted-IsLetIn service token_id now later q s t g x h v nonce m order prints reads request
        allowed after before =
      let r = next_session g.session_id (rotation service now q m.device m.range) in
      let c = claims_of service token_id now q m.device r m.range in
      let access = issue_token-some service c g.access_token (
        ap
          (λ (e : SessionRecord V).
            issue_token service (claims_of service token_id now q m.device e m.range))
          (sym m.is_next)
        ∙ m.token) in
      let said : grant_claims token_id g ≡ c =
        ap (grant_claims token_id) m.is_grant
        ∙ ap (λ (e : SessionRecord V). claims_of service token_id now q m.device e m.range)
            m.is_next in
      let at_issue = ap (λ (e : SessionGrant). e.issued_at) m.is_grant in
      let at_expiry = ap (λ (e : SessionGrant). e.expires_at) m.is_grant in
      let decoded =
        ap x.decode (sym access ∙ ap service.encode_token (sym said))
        ∙ reads.decodes (omega (arith, after, at_issue)) (omega (arith, before, at_expiry))
        ∙ ap some said in
      let typed =
        and_intro {a = c.token_type == codes "desktop_session"} {b = c.device_id == g.device_id}
          (str_beq_self (codes "desktop_session"))
          ((str_beq_iff c.device_id g.device_id).1 (sym m.own_device)) in
      let ranged =
        subst (λ (vs : Versions V). parse_range vs c.contract_min c.contract_max ≡ some m.range)
          (sym reads.same_versions)
          (parse_range-text service.versions order m.range prints (
            intersect-le service.versions order service.supported_contracts m.range
              (m.device.record_of.contract_range ∷ m.proved.requested ∷ []) m.proved.negotiates)) in
      let agreed =
        subst
          (λ (w : Versions V × ContractRange V).
            (e : ContractRange V) × (intersect w.0 w.1
                (m.range ∷ m.device.record_of.contract_range ∷ m.range ∷ [])
              ≡ some e)
            × (in_range w.0 e v ≡ true))
          (λ i. (sym reads.same_versions i, sym reads.same_supported i))
          (negotiated_again service.versions service.supported_contracts
            m.device.record_of.contract_range m.proved.requested m.range v order m.proved.negotiates
            (Allows-in_range service g v m.range prints
              (ap (λ (e : SessionGrant). e.contract_minimum) m.is_grant)
              (ap (λ (e : SessionGrant). e.contract_maximum) m.is_grant) allowed)) in
      (
        principal_of c g.device_id r v agreed.0,
        identified-eq-ok x later h g.access_token g.device_id nonce v c m.range agreed.0
            (advanced (m.device.record_of.session_epoch + 1) m.device).record_of r request decoded
            typed ranged (device_read x t.authority g.device_id _ reads.devices m.has_device)
            (session_read x t.authority g.session_id r reads.sessions
              (m.has_session ∙ ap some m.is_next))
            (rotated-valid_records service now q m.device m.range g.session_id token_id
              m.proved.is_active)
            agreed.1 agreed.2 (in_time now service.session_lifetime before),
        refl,
        refl,
        sym (ap (λ (e : SessionGrant). e.actor_id) m.is_grant),
        refl,
      )

  -- Every grant of `authenticateSession` at a valid authority, with a new identifier, is good for its purpose: until
  -- the second in which it expires, a request that carries its token, for its device, in a contract version within
  -- its bounds and with a nonce that the session has not used, is let in by an authenticator that reads the same
  -- authority, as a request of the actor, the device and the session of the grant. What is relied on: PyJWT decodes
  -- the service's tokens while they are valid, and versions are totally ordered and are read back as they are printed.
  pub granted-enters :
      (service : SessionService V) (i token_id : Str) (now later nonce_now : ℕ)
      (q : DeviceSessionProof) (s t : Sessions V) (g : SessionGrant) (x : Authenticator V)
      (h : Headers) (v : V) (nonce : Str) (seen : Nonces)
      → IsNamed s.challenges
      → IsValid s.authority
      → contains (codes "ses_" ++ i) s.authority.sessions ≡ false
      → authenticate_session service i token_id now q s ≡ (t, grant g)
      → IsOrder service.versions
      → ((a : V) → service.versions.parse (service.versions.text a) ≡ some a)
      → Reads x service t.authority later (grant_claims token_id g)
      → IsRequest x g.access_token g.device_id v nonce h
      → Allows service g v
      → now ≤ later
      → later < (now + service.session_lifetime) / 1000000 * 1000000
      → IsDistinct seen
      → lookup (g.session_id, nonce) seen ≡ none
      → (p : AuthenticatedPrincipal V) × ((authenticate x later nonce_now h seen).1 ≡ ok p)
        × (p.session_id ≡ g.session_id)
        × (p.device_id ≡ g.device_id)
        × (p.actor_id ≡ g.actor_id)
        × (p.contract_version ≡ v)
  unfolding authenticate IsLetIn
  granted-enters service i token_id now later nonce_now q s t g x h v nonce seen named valid new
        granted order prints reads request allowed after before distinct unused =
      let m =
        authenticate_session-IsGranted service i token_id now q s t g named valid new granted in
      let l =
        IsGranted-IsLetIn service token_id now later q s t g x h v nonce m order prints reads
          request allowed after before in
      let key_unused = ap (λ (k : Str). lookup (k, nonce) seen) l.2 ∙ unused in
      (
        l.0,
        ap (λ (a : Answer (AuthenticatedPrincipal V × Str)). (spend_nonce nonce_now seen a).1) l.1
            ∙ spent nonce_now l.0 nonce seen true (
                fresh-consume nonce_now (l.0.session_id, nonce) l.0.expires_at seen distinct
                  key_unused),
        l.2,
        l.3,
        l.4,
        l.5,
      )
