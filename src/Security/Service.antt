-- ===== src/Security/Service.antt =====
-- Any sequence of calls of the session service (backend/src/jarvis/security/session_auth.py).
use sriee.Base.{
  ℕ, ◌≡◌, false, ◌&&◌, List, [], ◌∷◌, ◌++◌, str_eq, Bool-cases, Option-cases, inl, inr,
}
use sriee.Text.{Str, codes}
use sriee.Dict.{lookup, contains}
use sriee.Security.Contracts.{ContractRange}
use sriee.Security.Desktop.{is_active_device}
use sriee.Security.Authority.{SessionDevice, Authority, Rotated, new_authority, rotate_session}
use sriee.Security.Valid.{IsValid, new_authority-IsValid}
use sriee.Security.Rotations.{rotate_session-IsKept}
use sriee.Security.Challenges.{
  SessionChallenge, Challenges, Issued, issue, consume_challenge, all_called,
}
use sriee.Security.Stored.{IsStored, issue-IsStored, consume-IsStored, challenges-IsStored}
use sriee.Security.Session.{
  DeviceSessionProof, SessionService, Sessions, is_device_id, valid_challenge, new_challenge,
  kept_challenge, issue_session_challenge,
}
use sriee.Security.Prove.{proved}
use sriee.Security.Establish.{rotation, rotated, established, authenticate_session}

-- A call of `issueSessionChallenge`, with a UUID, the bytes of the nonce and the times of the two clocks, or of `authenticateSession`,
-- with the UUIDs of the session and the token and the time.
pub data ServiceCall : Type 0 where
  asks : Str → List ℕ → ℕ → ℕ → Str → ServiceCall
  proves : Str → Str → ℕ → DeviceSessionProof → ServiceCall

module _ {V : Type 0} (service : SessionService V) where
  unfoldable pub serve : ServiceCall → Sessions V → Sessions V
  unfolding issue_session_challenge authenticate_session
  serve (asks i nonce now at device_id) s =
      (issue_session_challenge service i nonce now at device_id s).0
  serve (proves i token_id now p) s = (authenticate_session service i token_id now p s).0

  unfoldable pub serve_all : List ServiceCall → Sessions V → Sessions V
  unfolding serve
  serve_all [] s = s
  serve_all (c ∷ cs) s = serve_all cs (serve c s)

  -- The UUID of a session is new.
  abbrev pub IsNew : ServiceCall → Sessions V → Type 0
  IsNew (asks i nonce now at device_id) s = Unit
  IsNew (proves i token_id now p) s = contains (codes "ses_" ++ i) s.authority.sessions ≡ false

  abbrev pub AllNew : List ServiceCall → Sessions V → Type 0
  AllNew [] s = Unit
  AllNew (c ∷ cs) s = IsNew c s × AllNew cs (serve c s)

  pub record IsSound (s : Sessions V) : Type 0 where
    pub stored : IsStored service.limits s.challenges
    pub valid : IsValid s.authority

  kept_challenge-IsSound :
      (s : Sessions V) (c : SessionChallenge) (r : Challenges × Issued)
      → IsStored service.limits r.0
      → IsValid s.authority
      → IsSound (kept_challenge service s c r).0
  kept_challenge-IsSound s c (d, answer) stored valid = record { stored = stored; valid = valid }

  issue_session_challenge-IsSound :
      (i : Str) (nonce : List ℕ) (now at : ℕ) (device_id : Str) (s : Sessions V)
      → IsSound s
      → IsSound (issue_session_challenge service i nonce now at device_id s).0
  unfolding issue_session_challenge
  issue_session_challenge-IsSound i nonce now at device_id s h =
      elim (Bool-cases (is_device_id device_id)) [
        | inr f ↦ rw f h
        | inl t ↦ rw t (elim (Option-cases (lookup device_id s.authority.devices)) [
          | inl e ↦ rw (e, issue_session_challenge) h
          | inr (d, e) ↦
              let c = new_challenge service i nonce now d in
              rw (e, issue_session_challenge)
                (elim (Bool-cases (is_active_device d.record_of.status && valid_challenge c)) [
                  | inr f ↦ rw f h
                  | inl g ↦ rw g (
                      kept_challenge-IsSound s c (issue service.limits at c s.challenges)
                        (issue-IsStored service.limits at c s.challenges h.stored) h.valid)
                ])
        ])
      ]

  rotated-IsSound :
      (token_id : Str) (now : ℕ) (p : DeviceSessionProof) (d : SessionDevice V)
      (range : ContractRange V) (challenges : Challenges) (x : Authority V × Rotated V)
      → IsStored service.limits challenges
      → IsValid x.0
      → IsSound (rotated service token_id now p d range challenges x).0
  rotated-IsSound token_id now p d range challenges (a, r) stored valid = record {
    stored = stored;
    valid = valid;
  }

  established-IsSound :
      (i token_id : Str) (now : ℕ) (p : DeviceSessionProof) (c : SessionChallenge)
      (d : SessionDevice V) (range : ContractRange V) (s : Sessions V)
      → IsSound s
      → contains (codes "ses_" ++ i) s.authority.sessions ≡ false
      → IsSound (established service i token_id now p (c, (d, range)) s).0
  unfolding established
  established-IsSound i token_id now p c d range s h new =
      elim (Bool-cases (consume_challenge c.challenge_id c.server_nonce s.challenges).1) [
        | inl t ↦ rw t (
            rotated-IsSound token_id now p d range
              (consume_challenge c.challenge_id c.server_nonce s.challenges).0
              (rotate_session (codes "ses_" ++ i) (rotation service now p d range) s.authority)
              (consume-IsStored service.limits c.challenge_id c.server_nonce s.challenges h.stored)
              (rotate_session-IsKept (codes "ses_" ++ i) (rotation service now p d range)
                s.authority h.valid new).0)
        | inr f ↦ rw f h
      ]

  authenticate_session-IsSound :
      (i token_id : Str) (now : ℕ) (p : DeviceSessionProof) (s : Sessions V)
      → IsSound s
      → contains (codes "ses_" ++ i) s.authority.sessions ≡ false
      → IsSound (authenticate_session service i token_id now p s).0
  unfolding authenticate_session
  authenticate_session-IsSound i token_id now p s h new =
      elim (Option-cases (proved service now p s)) [
        | inl e ↦ rw (e, authenticate_session) h
        | inr ((c, (d, range)), e) ↦
            rw (e, authenticate_session) (established-IsSound i token_id now p c d range s h new)
      ]

  serve-IsSound : (c : ServiceCall) (s : Sessions V) → IsSound s → IsNew c s → IsSound (serve c s)
  unfolding serve
  serve-IsSound (asks i nonce now at device_id) s h new =
      issue_session_challenge-IsSound i nonce now at device_id s h
  serve-IsSound (proves i token_id now p) s h new =
      authenticate_session-IsSound i token_id now p s h new

  serve_all-IsSound :
      (cs : List ServiceCall) (s : Sessions V) → IsSound s → AllNew cs s → IsSound (serve_all cs s)
  unfolding serve_all
  serve_all-IsSound [] s h new = h
  serve_all-IsSound (c ∷ cs) s h new =
      serve_all-IsSound cs (serve c s) (serve-IsSound c s h new.0) new.1

  abbrev pub new_sessions : List (SessionDevice V) → Sessions V
  new_sessions devices = record { challenges = []; authority = new_authority devices }

  pub empty-IsStored : IsStored service.limits []
  unfolding all_called
  empty-IsStored = challenges-IsStored service.limits []

  -- Whatever challenges a service is asked for and whatever proofs it is given, in any order and at any times, if new
  -- sessions have new identifiers: its challenges never exceed its limit, nor those of one device the limit of a
  -- device, and each is held once, under its own identifier; each device stands under its own; and the active sessions
  -- are those that are noted for their devices, one for a device at most, with the device's epoch.
  pub service-IsSound :
      (devices : List (SessionDevice V)) (cs : List ServiceCall)
      → AllNew cs (new_sessions devices)
      → IsSound (serve_all cs (new_sessions devices))
  service-IsSound devices cs new =
      serve_all-IsSound cs (new_sessions devices)
        (record { stored = empty-IsStored; valid = new_authority-IsValid devices }) new
