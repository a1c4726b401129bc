-- ===== src/Security/Honest.antt =====
-- A good proof is granted its session (backend/src/jarvis/security/session_auth.py).
use sriee.Base.{
  ℕ, ◌<◌, ◌≡◌, refl, Bool, true, false, Option, none, some, ◌++◌, str_eq, str_beq_iff, nat_eq, ap,
  ◌∙◌, and_intro, str_beq_self,
}
use sriee.Text.{Str, codes}
use sriee.Dict.{lookup}
use sriee.Security.Contracts.{ContractRange, IsOrder}
use sriee.Security.Authority.{SessionDevice, rotate_session}
use sriee.Security.Valid.{IsValid}
use sriee.Security.Stored.{IsNamed}
use sriee.Security.Challenges.{SessionChallenge, Challenges, consume_challenge}
use sriee.Security.Session.{DeviceSessionProof, SessionService, Sessions, is_session_id}
use sriee.Security.Prove.{◌>>=◌, ◌>>◌, require, proved}
use sriee.Security.Establish.{
  SessionGrant, Granted, grant, failed, rotation, is_blank, established, authenticate_session,
}
use sriee.Security.Proved.{IsProved}
use sriee.Security.Rotating.{
  rotate_session-session, next_session-valid_rotated, granted_by, may_rotate-own, IsProved-issues,
}

bound-some {ℓ κ} :
    {A : Type ℓ} {B : Type κ} {o : Option A} {a : A} (f : A → Option B)
    → o ≡ some a
    → (o >>= f) ≡ f a
bound-some f h = rw h refl

require-true {ℓ} : {B : Type ℓ} {t : Bool} (k : Option B) → t ≡ true → (require t >> k) ≡ k
require-true k h = rw h refl

consumed :
    (c : SessionChallenge) (d : Challenges)
    → lookup c.challenge_id d ≡ some c
    → (consume_challenge c.challenge_id c.server_nonce d).1 ≡ true
unfolding consume_challenge
consumed c d h = rw h (rw (str_beq_self c.server_nonce) refl)

module _ {V : Type 0} where
  IsProved-proved :
      (service : SessionService V) (now : ℕ) (p : DeviceSessionProof) (s : Sessions V)
      (c : SessionChallenge) (d : SessionDevice V) (range : ContractRange V)
      → IsProved service now p s c d range
      → proved service now p s ≡ some (c, (d, range))
  unfolding proved
  IsProved-proved service now p s c d range m =
      require-true _ m.shaped
      ∙ bound-some _ m.has_challenge
      ∙ require-true _ m.well_formed
      ∙ require-true _ m.in_time
      ∙ require-true _ (
          and_intro ((str_beq_iff c.device_id p.device_id).1 m.same_device)
            ((str_beq_iff c.backend_instance_id service.backend_instance_id).1 m.same_backend))
      ∙ bound-some _ m.registered
      ∙ require-true _ m.is_active
      ∙ require-true _ ((str_beq_iff d.record_of.actor_id c.actor_id).1 m.same_actor)
      ∙ require-true _ m.supports_key
      ∙ require-true _ m.has_key
      ∙ bound-some _ m.asks
      ∙ bound-some _ m.negotiates
      ∙ require-true _ m.signed

  proved_granted :
      (service : SessionService V) (i token_id : Str) (now : ℕ) (p : DeviceSessionProof)
      (s : Sessions V) (o : Option (SessionChallenge × (SessionDevice V × ContractRange V)))
      (found : SessionChallenge × (SessionDevice V × ContractRange V))
      → o ≡ some found
      → ◌≡◌ {A = Sessions V × Granted}
          (elim o as (λ _. Sessions V × Granted) [
            | none ↦ (s, failed)
            | some found ↦ established service i token_id now p found s
          ])
          (established service i token_id now p found s)
  proved_granted service i token_id now p s o found h = rw h refl

  established-grants :
      (service : SessionService V) (i token_id : Str) (now : ℕ) (p : DeviceSessionProof)
      (s : Sessions V) (c : SessionChallenge) (d : SessionDevice V) (range : ContractRange V)
      → IsNamed s.challenges
      → IsValid s.authority
      → IsOrder service.versions
      → 0 < service.session_lifetime
      → is_session_id (codes "ses_" ++ i) ≡ true
      → is_blank c.actor_id ≡ false
      → IsProved service now p s c d range
      → (t : Sessions V) × (g : SessionGrant) × (established service i token_id now p
            (c, (d, range))
            s
          ≡ (t, grant g))
  unfolding established
  established-grants service i token_id now p s c d range named v order lifetime shaped actor m =
      let own = v.registered p.device_id d m.registered in
      let there =
        ap (λ (j : Str). lookup j s.challenges) (named p.challenge_id c m.has_challenge)
        ∙ m.has_challenge in
      let here = ap (λ (j : Str). lookup j s.authority.devices) own ∙ m.registered in
      let rot =
        rotate_session-session (codes "ses_" ++ i) (rotation service now p d range) d s.authority v
          here (may_rotate-own service now p d range m.is_active) in
      rw (consumed c s.challenges there) (
        granted_by service token_id now p d range _ _
          (rotate_session (codes "ses_" ++ i) (rotation service now p d range) s.authority) rot
          (next_session-valid_rotated service now p d range (codes "ses_" ++ i) order shaped)
          (IsProved-issues service token_id now p s c d range (codes "ses_" ++ i) m own lifetime
            shaped actor))

  -- `authenticateSession` grants a session whenever the proof and the stores meet its checks: each challenge stands
  -- under its identifier, the authority is valid, versions are totally ordered, the lifetime of a session is positive,
  -- the new session's identifier is well formed, and the actor's name is not blank.
  pub IsProved-grants :
      (service : SessionService V) (i token_id : Str) (now : ℕ) (p : DeviceSessionProof)
      (s : Sessions V) (c : SessionChallenge) (d : SessionDevice V) (range : ContractRange V)
      → IsNamed s.challenges
      → IsValid s.authority
      → IsOrder service.versions
      → 0 < service.session_lifetime
      → is_session_id (codes "ses_" ++ i) ≡ true
      → is_blank c.actor_id ≡ false
      → IsProved service now p s c d range
      → (t : Sessions V) × (g : SessionGrant) × (authenticate_session service i token_id now p s
          ≡ (t, grant g))
  unfolding authenticate_session
  IsProved-grants service i token_id now p s c d range named v order lifetime shaped actor m =
      let e =
        established-grants service i token_id now p s c d range named v order lifetime shaped actor
          m in
      (
        e.0,
        e.1,
        proved_granted service i token_id now p s (proved service now p s) (c, (d, range))
              (IsProved-proved service now p s c d range m)
            ∙ e.2,
      )
