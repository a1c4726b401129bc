-- ===== src/Security/Granted.antt =====
-- What a grant of a session rests on, and what it leaves (backend/src/jarvis/security/session_auth.py).
use mathlib.Core.Path.{subst}
use sriee.Base.{
  ℕ, ◌+◌, ◌≡◌, refl, Bool, true, false, Option, none, some, ◌++◌, str_eq, str_beq_iff, nat_eq,
  if◌then◌else◌, sym, ap, ◌∙◌, Bool-cases, inl, inr, some_injective,
}
use sriee.Text.{Str, codes}
use sriee.Dict.{lookup, contains, lookup-pop}
use sriee.Security.Contracts.{ContractRange}
use sriee.Security.Desktop.{SessionRecord}
use sriee.Security.Authority.{
  SessionDevice, Authority, Rotated, next_session, advanced, rotate_session,
}
use sriee.Security.Valid.{IsValid}
use sriee.Security.Rotations.{rotate_session-IsKept, Rotates, rotate_session-Rotates}
use sriee.Security.Stored.{IsNamed}
use sriee.Security.Proved.{IsProved, proved-IsProved}
use sriee.Security.Challenges.{SessionChallenge, Challenges, consume_challenge, is_challenge}
use sriee.Security.Prove.{proved}
use sriee.Security.Session.{DeviceSessionProof, SessionService, Sessions}
use sriee.Security.Establish.{
  SessionGrant, Granted, failed, grant, rotation, claims_of, issue_token, rotated, grant_of,
  established, authenticate_session,
}
use sriee.Security.Token.{not_grant, answered-eq-grant}

spent :
    (i nonce : Str) (d : Challenges)
    → (consume_challenge i nonce d).1 ≡ true
    → lookup i (consume_challenge i nonce d).0 ≡ none
unfolding consume_challenge
spent i nonce d h = elim (Bool-cases (is_challenge (lookup i d) nonce)) [
  | inl e ↦ rw e (lookup-pop i i d ∙ rw ((str_beq_iff i i).1 refl) refl)
  | inr e ↦ absurd (wrong (sym (rw e refl) ∙ h))
]
  where
    wrong : false ≡ true → ⊥
    wrong k = cc

module _ {V : Type 0} where
  taken :
      (b : Bool) (s : Sessions V) (x : Sessions V × Granted) {t : Sessions V} {g : SessionGrant}
      → (if b then x else (s, failed)) ≡ (t, grant g)
      → (b ≡ true) × (x ≡ (t, grant g))
  taken true s x h = (refl, h)
  taken false s x {g = g} h = absurd (not_grant g (ap (λ (y : Sessions V × Granted). y.1) h))

  -- What a grant rests on, and what it leaves.
  pub record IsGranted (service : SessionService V) (token_id : Str) (now : ℕ)
      (p : DeviceSessionProof) (s t : Sessions V) (g : SessionGrant) : Type 0 where
    pub challenge : SessionChallenge
    pub device : SessionDevice V
    pub range : ContractRange V
    pub proved : IsProved service now p s challenge device range
    pub own_device : g.device_id ≡ device.record_of.device_id
    pub is_spent : lookup p.challenge_id t.challenges ≡ none
    pub valid : IsValid t.authority
    pub is_latest : lookup g.device_id t.authority.active_session_by_device ≡ some g.session_id
    pub own_session : SessionRecord V
    pub has_session : lookup g.session_id t.authority.sessions ≡ some own_session
    pub is_next : own_session ≡ next_session g.session_id (rotation service now p device range)
    pub has_device :
        lookup g.device_id t.authority.devices
        ≡ some (advanced (device.record_of.session_epoch + 1) device)
    pub is_grant : g ≡ grant_of service now p device own_session range g.access_token
    pub token :
        issue_token service (claims_of service token_id now p device own_session range)
        ≡ some g.access_token

  rotated-IsGranted :
      (service : SessionService V) (i token_id : Str) (now : ℕ) (p : DeviceSessionProof)
      (c : SessionChallenge) (d : SessionDevice V) (range : ContractRange V) (s t : Sessions V)
      (g : SessionGrant)
      → IsProved service now p s c d range
      → lookup d.record_of.device_id s.authority.devices ≡ some d
      → (challenges : Challenges) → lookup p.challenge_id challenges ≡ none
      → (x : Authority V × Rotated V)
      → Rotates i
          (rotation service now p d range)
          (lookup d.record_of.device_id s.authority.devices)
          x
      → IsValid x.0
      → rotated service token_id now p d range challenges x ≡ (t, grant g)
      → IsGranted service token_id now p s t g
  rotated-IsGranted service i token_id now p c d range s t g is_proved here challenges gone (a, x)
        rot v h =
      let left = ap (λ (y : Sessions V × Granted). y.0) h in
      let k =
        answered-eq-grant service token_id now p d range x g
          (ap (λ (y : Sessions V × Granted). y.1) h) in
      let done =
        subst
          (λ (y : Rotated V).
            Rotates i (rotation service now p d range)
              (lookup d.record_of.device_id s.authority.devices) (a, y))
          k.1 rot in
      let same : d ≡ done.0 = some_injective (sym here ∙ done.1) in
      let dev : g.device_id ≡ d.record_of.device_id =
        ap (λ (e : SessionGrant). e.device_id) k.2.1 in
      let own : g.session_id ≡ i =
        ap (λ (e : SessionGrant). e.session_id) k.2.1
        ∙ ap (λ (r : SessionRecord V). r.session_id) done.3 in
      subst (λ (u : Sessions V). IsGranted service token_id now p s u g) left
        (record {
          challenge = c;
          device = d;
          range = range;
          proved = is_proved;
          own_device = dev;
          is_spent = gone;
          valid = v;
          is_latest =
              ap (λ (e : Str). lookup e a.active_session_by_device) dev
              ∙ done.2.is_latest
              ∙ ap some (sym own);
          own_session = k.0;
          has_session =
              ap (λ (e : Str). lookup e a.sessions) own ∙ done.2.has_session ∙ ap some (sym done.3);
          is_next =
              done.3 ∙ ap (λ (e : Str). next_session e (rotation service now p d range)) (sym own);
          has_device =
              ap (λ (e : Str). lookup e a.devices) dev
              ∙ done.2.has_device
              ∙ ap (λ (e : SessionDevice V). some (advanced (d.record_of.session_epoch + 1) e))
                  (sym same);
          is_grant = k.2.1;
          token = k.2.0;
        })

  established-IsGranted :
      (service : SessionService V) (i token_id : Str) (now : ℕ) (p : DeviceSessionProof)
      (c : SessionChallenge) (d : SessionDevice V) (range : ContractRange V) (s t : Sessions V)
      (g : SessionGrant)
      → IsNamed s.challenges
      → IsValid s.authority
      → contains (codes "ses_" ++ i) s.authority.sessions ≡ false
      → IsProved service now p s c d range
      → established service i token_id now p (c, (d, range)) s ≡ (t, grant g)
      → IsGranted service token_id now p s t g
  unfolding established
  established-IsGranted service i token_id now p c d range s t g named v new is_proved h =
      let e = taken (consume_challenge c.challenge_id c.server_nonce s.challenges).1 s _ h in
      rotated-IsGranted service (codes "ses_" ++ i) token_id now p c d range s t g is_proved
        (ap (λ (e : Str). lookup e s.authority.devices)
            (v.registered p.device_id d is_proved.registered)
          ∙ is_proved.registered)
        (consume_challenge c.challenge_id c.server_nonce s.challenges).0
        (ap (λ (j : Str). lookup j (consume_challenge c.challenge_id c.server_nonce s.challenges).0)
            (sym (named p.challenge_id c is_proved.has_challenge))
          ∙ spent c.challenge_id c.server_nonce s.challenges e.0)
        (rotate_session (codes "ses_" ++ i) (rotation service now p d range) s.authority)
        (rotate_session-Rotates (codes "ses_" ++ i) (rotation service now p d range) s.authority)
        (rotate_session-IsKept (codes "ses_" ++ i) (rotation service now p d range) s.authority v
          new).0
        e.1

  found-IsGranted :
      (service : SessionService V) (i token_id : Str) (now : ℕ) (p : DeviceSessionProof)
      (s t : Sessions V) (g : SessionGrant)
      → IsNamed s.challenges
      → IsValid s.authority
      → contains (codes "ses_" ++ i) s.authority.sessions ≡ false
      → (o : Option (SessionChallenge × (SessionDevice V × ContractRange V)))
      → proved service now p s ≡ o
      → ◌≡◌ {A = Sessions V × Granted}
          (elim o as (λ _. Sessions V × Granted) [
            | none ↦ (s, failed)
            | some found ↦ established service i token_id now p found s
          ])
          (t, grant g)
      → IsGranted service token_id now p s t g
  found-IsGranted service i token_id now p s t g named v new none e h =
      absurd (not_grant g (ap (λ (y : Sessions V × Granted). y.1) h))
  found-IsGranted service i token_id now p s t g named v new (some (c, (d, range))) e h =
      established-IsGranted service i token_id now p c d range s t g named v new
        (proved-IsProved service now p s c d range e) h

  -- When `authenticateSession` grants a session at a valid authority, with a new identifier, and each challenge is
  -- stored under its own, then the stored challenge that the proof names was issued to the device by this service
  -- and is not expired; the device is registered, active, of the challenge's actor and named by its key, and the
  -- proof is signed with that key over this challenge. Afterwards there is no challenge that the proof names, the
  -- authority is valid, and the session that is granted is the latest of the device, active, with the device's next
  -- epoch.
  pub authenticate_session-IsGranted :
      (service : SessionService V) (i token_id : Str) (now : ℕ) (p : DeviceSessionProof)
      (s t : Sessions V) (g : SessionGrant)
      → IsNamed s.challenges
      → IsValid s.authority
      → contains (codes "ses_" ++ i) s.authority.sessions ≡ false
      → authenticate_session service i token_id now p s ≡ (t, grant g)
      → IsGranted service token_id now p s t g
  unfolding authenticate_session
  authenticate_session-IsGranted service i token_id now p s t g named v new h =
      found-IsGranted service i token_id now p s t g named v new (proved service now p s) refl h
