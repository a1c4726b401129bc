-- ===== src/Security/Establish.antt =====
-- How a session is granted (`authenticateSession` of backend/src/jarvis/security/session_auth.py and
-- `DesktopSessionToken.issue` of desktop_auth.py).
use Prim.Native.Nat.{◌/◌}
use sriee.Base.{
  ℕ, ◌+◌, Bool, not, ◌&&◌, Option, none, some, ◌++◌, ◌==◌, str_eq, nat_eq, ltb, if◌then◌else◌,
}
use sriee.Text.{Str, codes, strip}
use sriee.Security.Contracts.{ContractRange}
use sriee.Security.Desktop.{Claims, SessionRecord, is_active_session}
use sriee.Security.Headers.{is_nil}
use sriee.Security.Authority.{
  SessionDevice, Authority, Rotation, Rotated, conflict, key_error, session, rotate_session,
}
use sriee.Security.Challenges.{SessionChallenge, Challenges, consume_challenge}
use sriee.Security.Prove.{proved}
use sriee.Security.Session.{is_session_id, DeviceSessionProof, SessionService, Sessions}

-- `SessionGrant`; the type of the token and that a nonce is required are constants.
pub record SessionGrant : Type 0 where
  pub access_token : Str
  pub session_id : Str
  pub device_id : Str
  pub actor_id : Str
  pub user_session_id : Str
  pub backend_instance_id : Str
  pub session_epoch : ℕ
  pub contract_minimum : Str
  pub contract_maximum : Str
  pub issued_at : ℕ
  pub expires_at : ℕ

-- The two codes of `SessionAuthenticationError`, or a grant.
pub data Granted : Type 0 where
  failed rotation_conflict : Granted
  grant : SessionGrant → Granted

abbrev pub is_blank : Str → Bool
is_blank s = is_nil (strip s)

module _ {V : Type 0} (service : SessionService V) where
  abbrev pub rotation : ℕ → DeviceSessionProof → SessionDevice V → ContractRange V → Rotation V
  rotation now p d range = record {
    device_id = d.record_of.device_id;
    actor_id = d.record_of.actor_id;
    expected_epoch = d.record_of.session_epoch;
    user_session_id = p.user_session_id;
    backend_instance_id = service.backend_instance_id;
    contract_range = range;
    issued_at = now;
    expires_at = now + service.session_lifetime;
  }

  -- `session.contract_range != contract_range`
  abbrev pub same_range : ContractRange V → ContractRange V → Bool
  same_range a b =
      (service.versions.le a.minimum b.minimum && service.versions.le b.minimum a.minimum)
      && (service.versions.le a.maximum b.maximum && service.versions.le b.maximum a.maximum)

  -- `_validate_rotated_session`
  unfoldable pub valid_rotated : Rotation V → SessionRecord V → Bool
  unfolding is_session_id
  valid_rotated q r =
      (is_session_id r.session_id && is_active_session r.status)
      && ((r.device_id == q.device_id
            && (r.actor_id == q.actor_id && r.session_epoch == q.expected_epoch + 1))
          && ((r.expires_at == q.expires_at && same_range r.contract_range q.contract_range)
              && (r.user_session_id == q.user_session_id
                  && r.backend_instance_id == q.backend_instance_id)))

  -- The payload of `DesktopSessionToken.issue`; PyJWT writes times in seconds. The issuer and the audience are
  -- constants.
  abbrev pub claims_of :
      Str → ℕ → DeviceSessionProof → SessionDevice V → SessionRecord V → ContractRange V → Claims
  claims_of token_id now p d r range = record {
    token_type = codes "desktop_session";
    subject = d.record_of.actor_id;
    token_id = token_id;
    device_id = d.record_of.device_id;
    session_id = r.session_id;
    session_epoch = some r.session_epoch;
    contract_min = service.versions.text range.minimum;
    contract_max = service.versions.text range.maximum;
    user_session_id = p.user_session_id;
    backend_instance_id = service.backend_instance_id;
    expires = (now + service.session_lifetime) / 1000000;
    issued = now / 1000000;
  }

  -- `DesktopSessionToken.issue`; `none` is its `ValueError`.
  unfoldable pub issue_token : Claims → Option Str
  unfolding strip
  issue_token c =
      if (ltb 0 service.session_lifetime
          && (not (is_blank c.subject)
              && (not (is_blank c.device_id) && not (is_blank c.session_id))))
        && (not (is_blank c.user_session_id) && not (is_blank c.backend_instance_id))
      then some (service.encode_token c)
      else none

  abbrev pub grant_of :
      ℕ
      → DeviceSessionProof
      → SessionDevice V
      → SessionRecord V
      → ContractRange V
      → Str
      → SessionGrant
  grant_of now p d r range token = record {
    access_token = token;
    session_id = r.session_id;
    device_id = d.record_of.device_id;
    actor_id = d.record_of.actor_id;
    user_session_id = p.user_session_id;
    backend_instance_id = service.backend_instance_id;
    session_epoch = r.session_epoch;
    contract_minimum = service.versions.text range.minimum;
    contract_maximum = service.versions.text range.maximum;
    issued_at = now;
    expires_at = now + service.session_lifetime;
  }

  abbrev pub with_token :
      ℕ
      → DeviceSessionProof
      → SessionDevice V
      → SessionRecord V
      → ContractRange V
      → Option Str
      → Granted
  with_token now p d r range none = failed
  with_token now p d r range (some token) = grant (grant_of now p d r range token)

  -- What is made of the answer of `rotate_session`.
  unfoldable pub answered :
      Str → ℕ → DeviceSessionProof → SessionDevice V → ContractRange V → Rotated V → Granted
  unfolding valid_rotated issue_token
  answered token_id now p d range conflict = rotation_conflict
  answered token_id now p d range key_error = failed
  answered token_id now p d range (session r) =
      if valid_rotated (rotation now p d range) r
      then with_token now p d r range (issue_token (claims_of token_id now p d r range))
      else failed

  abbrev pub rotated :
      Str
      → ℕ
      → DeviceSessionProof
      → SessionDevice V
      → ContractRange V
      → Challenges
      → Authority V × Rotated V
      → Sessions V × Granted
  rotated token_id now p d range challenges (a, r) =
      (record { challenges = challenges; authority = a }, answered token_id now p d range r)

  -- The challenge is consumed, and the session rotated.
  unfoldable pub established :
      Str
      → Str
      → ℕ
      → DeviceSessionProof
      → SessionChallenge × (SessionDevice V × ContractRange V)
      → Sessions V
      → Sessions V × Granted
  unfolding consume_challenge answered rotate_session
  established i token_id now p (c, (d, range)) s =
      if (consume_challenge c.challenge_id c.server_nonce s.challenges).1
      then rotated token_id now p d range
          (consume_challenge c.challenge_id c.server_nonce s.challenges).0
          (rotate_session (codes "ses_" ++ i) (rotation now p d range) s.authority)
      else (s, failed)

  -- `authenticateSession`, with the hexadecimal digits of the session's UUID and the identifier of the token.
  unfoldable pub authenticate_session :
      Str → Str → ℕ → DeviceSessionProof → Sessions V → Sessions V × Granted
  unfolding proved established
  authenticate_session i token_id now p s = elim (proved service now p s) [
    | none ↦ (s, failed)
    | some found ↦ established i token_id now p found s
  ]
