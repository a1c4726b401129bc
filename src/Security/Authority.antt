-- ===== src/Security/Authority.antt =====
-- `InMemorySessionAuthority` of backend/src/jarvis/security/session_auth.py.
use sriee.Base.{
  ℕ, ◌+◌, Bool, ◌&&◌, ◌||◌, Option, none, some, List, [], ◌∷◌, ◌==◌, str_eq, nat_eq, ltb,
  if◌then◌else◌,
}
use sriee.Text.{Str}
use sriee.Dict.{Dict, lookup, insert, keep_values}
use sriee.Security.Contracts.{ContractRange}
use sriee.Security.Desktop.{
  SessionStatus, DeviceRecord, SessionRecord, is_active_device, is_active_session,
}

-- `SessionDeviceRecord`: what the authenticator reads of a device, and its key.
pub record SessionDevice (V : Type 0) : Type 0 where
  pub record_of : DeviceRecord V
  pub public_key : Str
  pub public_key_algorithm : Str
  pub public_key_format : Str

pub record Authority (V : Type 0) : Type 0 where
  pub devices : Dict Str (SessionDevice V)
  pub sessions : Dict Str (SessionRecord V)
  pub active_session_by_device : Dict Str Str

-- The arguments of `rotate_session`.
pub record Rotation (V : Type 0) : Type 0 where
  pub device_id : Str
  pub actor_id : Str
  pub expected_epoch : ℕ
  pub user_session_id : Str
  pub backend_instance_id : Str
  pub contract_range : ContractRange V
  pub issued_at : ℕ
  pub expires_at : ℕ

-- `SessionRotationConflictError`, a `KeyError`, or the new session.
pub data Rotated (V : Type 0) : Type 0 where
  conflict key_error : Rotated V
  session : SessionRecord V → Rotated V

module _ {V : Type 0} where
  -- The sessions that are kept: what is active, or has not expired.
  unfoldable pub kept_sessions : ℕ → Dict Str (SessionRecord V) → Dict Str (SessionRecord V)
  unfolding keep_values
  kept_sessions issued_at sessions =
      keep_values
        (λ (s : SessionRecord V). is_active_session s.status || ltb issued_at s.expires_at) sessions

  abbrev pub next_session : Str → Rotation V → SessionRecord V
  next_session i q = record {
    session_id = i;
    device_id = q.device_id;
    actor_id = q.actor_id;
    status = SessionStatus.active;
    session_epoch = q.expected_epoch + 1;
    expires_at = q.expires_at;
    contract_range = q.contract_range;
    user_session_id = q.user_session_id;
    backend_instance_id = q.backend_instance_id;
  }

  abbrev pub advanced : ℕ → SessionDevice V → SessionDevice V
  advanced epoch d = record d { record_of = record (d.record_of) { session_epoch = epoch } }

  abbrev pub revoke : SessionRecord V → SessionRecord V
  revoke s = record s { status = SessionStatus.revoked }

  -- The new epoch, the new session `i`, and which one is active.
  unfoldable pub install : Str → Rotation V → SessionDevice V → Authority V → Authority V
  unfolding insert
  install i q d a = record {
    devices = insert q.device_id (advanced (q.expected_epoch + 1) d) a.devices;
    sessions = insert i (next_session i q) a.sessions;
    active_session_by_device = insert q.device_id i a.active_session_by_device;
  }

  abbrev pub may_rotate : Rotation V → DeviceRecord V → Bool
  may_rotate q d =
      is_active_device d.status && (d.actor_id == q.actor_id && d.session_epoch == q.expected_epoch)

  -- The prior session is revoked, if there is one.
  unfoldable pub replace_session :
      Str → Rotation V → SessionDevice V → Authority V → Authority V × Rotated V
  unfolding install lookup insert
  replace_session i q d a = elim (lookup q.device_id a.active_session_by_device) [
    | none ↦ (install i q d a, session (next_session i q))
    | some prior_id ↦ elim (lookup prior_id a.sessions) [
      | none ↦ (a, key_error)
      | some prior ↦ (
        install i q d (record a { sessions = insert prior_id (revoke prior) a.sessions }),
        session (next_session i q),
      )
    ]
  ]

  -- `rotate_session`, with the identifier of the new session.
  unfoldable pub rotate_session : Str → Rotation V → Authority V → Authority V × Rotated V
  unfolding kept_sessions replace_session lookup
  rotate_session i q a =
      let b : Authority V = record a { sessions = kept_sessions q.issued_at a.sessions } in
      elim (lookup q.device_id b.devices) [
        | none ↦ (b, conflict)
        | some d ↦ if may_rotate q d.record_of then replace_session i q d b else (b, conflict)
      ]

  -- `get_device` and `get_session`, for the authenticator of requests.
  unfoldable pub get_device : Authority V → Str → Option (DeviceRecord V)
  unfolding lookup
  get_device a i = elim (lookup i a.devices) [ none ↦ none | some d ↦ some d.record_of ]

  unfoldable pub get_session : Authority V → Str → Option (SessionRecord V)
  unfolding lookup
  get_session a i = lookup i a.sessions

  -- `{device.device_id: device for device in devices}`, after the devices that are there
  unfoldable pub keyed :
      Dict Str (SessionDevice V) → List (SessionDevice V) → Dict Str (SessionDevice V)
  unfolding insert
  keyed d [] = d
  keyed d (r ∷ rs) = keyed (insert r.record_of.device_id r d) rs

  -- `InMemorySessionAuthority(devices)`
  unfoldable pub new_authority : List (SessionDevice V) → Authority V
  unfolding keyed
  new_authority devices = record {
    devices = keyed [] devices;
    sessions = [];
    active_session_by_device = [];
  }
