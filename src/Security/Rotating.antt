-- ===== src/Security/Rotating.antt =====
-- The rotation and the token of a good proof (backend/src/jarvis/security/session_auth.py).
use sriee.Base.{
  ℕ, ◌+◌, ◌<◌, ◌≡◌, refl, true, false, ◌&&◌, some, str_eq, nat_eq, nat_beq_iff, arith, sym, ap, ◌∙◌,
  Bool-cases, Option-cases, inl, inr, and-true, str_beq_self,
}
use sriee.Text.{Str, codes, is_space, is_hex}
use sriee.Dict.{lookup}
use sriee.Security.Contracts.{ContractRange, IsOrder}
use sriee.Security.Desktop.{Claims, SessionRecord, is_active_device}
use sriee.Security.Authority.{
  SessionDevice, Authority, Rotation, Rotated, session, next_session, may_rotate, replace_session,
  rotate_session,
}
use sriee.Security.Valid.{IsValid, kept_sessions-IsValid}
use sriee.Security.Challenges.{SessionChallenge, Challenges}
use sriee.Security.Session.{
  DeviceSessionProof, valid_proof, valid_challenge, SessionService, Sessions, is_session_id,
  is_backend_id, is_device_id, is_positive, is_challenge_id, is_nonce,
}
use sriee.Security.Establish.{
  SessionGrant, Granted, grant, rotation, valid_rotated, claims_of, issue_token, is_blank, answered,
  rotated, grant_of, with_token,
}
use sriee.Security.Proved.{IsProved}
use sriee.Security.Blank.{prefixed-is_blank, is_positive-is_blank}

is_device_id-is_blank : (s : Str) → is_device_id s ≡ true → is_blank s ≡ false
unfolding is_device_id is_space
is_device_id-is_blank s h = prefixed-is_blank b'd' (codes "ev_") is_hex 32 32 s refl h

is_session_id-is_blank : (s : Str) → is_session_id s ≡ true → is_blank s ≡ false
unfolding is_session_id is_space
is_session_id-is_blank s h = prefixed-is_blank b's' (codes "es_") is_hex 32 32 s refl h

is_backend_id-is_blank : (s : Str) → is_backend_id s ≡ true → is_blank s ≡ false
unfolding is_backend_id is_space
is_backend_id-is_blank s h = prefixed-is_blank b'b' (codes "kd_") is_hex 32 32 s refl h

valid_proof-fields :
    (p : DeviceSessionProof)
    → valid_proof p ≡ true
    → (is_device_id p.device_id ≡ true) × (is_positive p.user_session_id ≡ true)
unfolding valid_proof
valid_proof-fields p h =
    let a =
      and-true
        (is_challenge_id p.challenge_id
          && (is_device_id p.device_id && is_positive p.user_session_id))
        _ h in
    let b = and-true (is_challenge_id p.challenge_id) _ a.0 in
    and-true (is_device_id p.device_id) _ b.1

valid_challenge-backend :
    (c : SessionChallenge) → valid_challenge c ≡ true → is_backend_id c.backend_instance_id ≡ true
unfolding valid_challenge
valid_challenge-backend c h =
    let a =
      and-true
        (is_challenge_id c.challenge_id
          && (is_nonce c.server_nonce && is_backend_id c.backend_instance_id))
        _ h in
    let b = and-true (is_challenge_id c.challenge_id) _ a.0 in
    (and-true (is_nonce c.server_nonce) _ b.1).1

module _ {V : Type 0} where
  replace_session-session :
      (i : Str) (q : Rotation V) (d : SessionDevice V) (a : Authority V)
      → IsValid a
      → (replace_session i q d a).1 ≡ session (next_session i q)
  unfolding replace_session
  replace_session-session i q d a v =
      elim (Option-cases (lookup q.device_id a.active_session_by_device)) [
        | inl e ↦ rw (e, replace_session) refl
        | inr (j, e) ↦ rw (e, (v.current q.device_id j e).1, replace_session) refl
      ]

  pub rotate_session-session :
      (i : Str) (q : Rotation V) (d : SessionDevice V) (a : Authority V)
      → IsValid a
      → lookup q.device_id a.devices ≡ some d
      → may_rotate q d.record_of ≡ true
      → (rotate_session i q a).1 ≡ session (next_session i q)
  unfolding rotate_session
  rotate_session-session i q d a v here may =
      rw (here, rotate_session)
        (rw may (replace_session-session i q d _ (kept_sessions-IsValid q.issued_at a v)))

  le_self :
      (service : SessionService V)
      → IsOrder service.versions
      → (a : V) → service.versions.le a a ≡ true
  le_self service order a = elim (Bool-cases (service.versions.le a a)) [
    | inl h ↦ h
    | inr h ↦ order.total a a h
  ]

  pub next_session-valid_rotated :
      (service : SessionService V) (now : ℕ) (p : DeviceSessionProof) (d : SessionDevice V)
      (range : ContractRange V) (i : Str)
      → IsOrder service.versions
      → is_session_id i ≡ true
      → valid_rotated service
          (rotation service now p d range)
          (next_session i (rotation service now p d range))
        ≡ true
  unfolding valid_rotated
  next_session-valid_rotated service now p d range i order shaped = rw shaped (
      rw (str_beq_self d.record_of.device_id) (
        rw (str_beq_self d.record_of.actor_id) (
          rw ((nat_beq_iff (d.record_of.session_epoch + 1) _).1 refl) (
            rw ((nat_beq_iff (now + service.session_lifetime) _).1 refl) (
              rw (le_self service order range.minimum) (
                rw (le_self service order range.maximum) (
                  rw (str_beq_self p.user_session_id)
                    (rw (str_beq_self service.backend_instance_id) refl))))))))

  issue_token-issues :
      (service : SessionService V) (c : Claims)
      → 0 < service.session_lifetime
      → is_blank c.subject ≡ false
      → is_blank c.device_id ≡ false
      → is_blank c.session_id ≡ false
      → is_blank c.user_session_id ≡ false
      → is_blank c.backend_instance_id ≡ false
      → issue_token service c ≡ some (service.encode_token c)
  unfolding issue_token
  issue_token-issues service c l subject device own user backend = ground arith

  pub granted_by :
      (service : SessionService V) (token_id : Str) (now : ℕ) (p : DeviceSessionProof)
      (d : SessionDevice V) (range : ContractRange V) (challenges : Challenges)
      (r : SessionRecord V) (x : Authority V × Rotated V)
      → x.1 ≡ session r
      → valid_rotated service (rotation service now p d range) r ≡ true
      → issue_token service (claims_of service token_id now p d r range)
        ≡ some (service.encode_token (claims_of service token_id now p d r range))
      → (t : Sessions V) × (g : SessionGrant) × (rotated service token_id now p d range challenges x
          ≡ (t, grant g))
  unfolding answered
  granted_by service token_id now p d range challenges r (a, y) e valid issued =
      let token = service.encode_token (claims_of service token_id now p d r range) in
      let t : Sessions V = record { challenges = challenges; authority = a } in
      let same : answered service token_id now p d range (session r)
          ≡ grant (grant_of service now p d r range token) =
        rw valid (ap (with_token service now p d r range) issued) in
      (
        t,
        grant_of service now p d r range token,
        ap (λ (z : Rotated V). (t, answered service token_id now p d range z)) e
            ∙ ap (λ (z : Granted). (t, z)) same,
      )

  pub may_rotate-own :
      (service : SessionService V) (now : ℕ) (p : DeviceSessionProof) (d : SessionDevice V)
      (range : ContractRange V)
      → is_active_device d.record_of.status ≡ true
      → may_rotate (rotation service now p d range) d.record_of ≡ true
  may_rotate-own service now p d range h =
      rw h
        (rw (str_beq_self d.record_of.actor_id) ((nat_beq_iff d.record_of.session_epoch _).1 refl))

  pub IsProved-issues :
      (service : SessionService V) (token_id : Str) (now : ℕ) (p : DeviceSessionProof)
      (s : Sessions V) (c : SessionChallenge) (d : SessionDevice V) (range : ContractRange V)
      (i : Str)
      → IsProved service now p s c d range
      → d.record_of.device_id ≡ p.device_id
      → 0 < service.session_lifetime
      → is_session_id i ≡ true
      → is_blank c.actor_id ≡ false
      → (let claims =
            claims_of service token_id now p d
              (next_session i (rotation service now p d range))
              range in
          issue_token service claims ≡ some (service.encode_token claims))
  IsProved-issues service token_id now p s c d range i m own lifetime shaped actor =
      let fields = valid_proof-fields p m.shaped in
      issue_token-issues service
        (claims_of service token_id now p d (next_session i (rotation service now p d range)) range)
        lifetime (ap is_blank m.same_actor ∙ actor)
        (ap is_blank own ∙ is_device_id-is_blank p.device_id fields.0)
        (is_session_id-is_blank i shaped) (is_positive-is_blank p.user_session_id fields.1)
        (ap is_blank (sym m.same_backend)
          ∙ is_backend_id-is_blank c.backend_instance_id (valid_challenge-backend c m.well_formed))
