-- ===== src/Security/Welcome.antt =====
-- From the question of a desktop to its session (`issueSessionChallenge` and `authenticateSession` of
-- backend/src/jarvis/security/session_auth.py).
use mathlib.Core.Path.{subst}
use sriee.Base.{
  ℕ, ◌+◌, ◌≤◌, ◌<◌, ◌≡◌, refl, true, ◌&&◌, false, some, List, [], ◌∷◌, ◌++◌, ◌==◌, str_eq, leb, ltb,
  arith, sym, ap, ◌∙◌,
}
use sriee.Text.{Str, codes}
use sriee.Dict.{lookup, insert, lookup-insert_self}
use sriee.Security.Contracts.{ContractRange, IsOrder, parse_range, intersect}
use sriee.Security.Authority.{SessionDevice}
use sriee.Security.Valid.{IsValid}
use sriee.Security.Stored.{IsStored, issue-IsStored}
use sriee.Security.Challenges.{SessionChallenge, Challenges, Issued}
use sriee.Security.Session.{
  DeviceSessionProof, valid_proof, transcript, SessionService, Sessions, is_session_id,
  new_challenge, issue_session_challenge,
}
use sriee.Security.Prove.{is_key_of, verify_device_signature}
use sriee.Security.Establish.{SessionGrant, grant, is_blank, authenticate_session}
use sriee.Security.Proved.{IsProved}
use sriee.Security.Asked.{
  CanAsk, HasRoom, live_at, HasRoom-issue, CanAsk-issues, new_challenge-valid,
}
use sriee.Security.Honest.{IsProved-grants}

in_time : (a l now : ℕ) → a ≤ now → now < a + l → (leb a now && ltb now (a + l)) ≡ true
in_time a l now h k = ground arith

module _ {V : Type 0} where
  -- A proof that answers the challenge: well formed, signed with the key that names the device, and asking for contract
  -- versions that the service and the device have.
  pub record Answers (service : SessionService V) (c : SessionChallenge) (d : SessionDevice V)
      (p : DeviceSessionProof) (requested range : ContractRange V) : Type 0 where
    pub shaped : valid_proof p ≡ true
    pub same_challenge : p.challenge_id ≡ c.challenge_id
    pub same_device : p.device_id ≡ c.device_id
    pub supports_key :
        (d.public_key_algorithm == codes "ECDSA_P256_SHA256"
          && d.public_key_format == codes "SEC1_UNCOMPRESSED")
        ≡ true
    pub has_key : is_key_of service d ≡ true
    pub signed : verify_device_signature service d.public_key p.signature (transcript c p) ≡ true
    pub asks : parse_range service.versions p.contract_minimum p.contract_maximum ≡ some requested
    pub negotiates :
        intersect service.versions service.supported_contracts
          (d.record_of.contract_range ∷ requested ∷ [])
        ≡ some range

  Answers-IsProved :
      (service : SessionService V) (i : Str) (nonce : List ℕ) (now at later : ℕ)
      (d : SessionDevice V) (s : Sessions V) (p : DeviceSessionProof)
      (requested range : ContractRange V) (device_id : Str)
      → IsValid s.authority
      → CanAsk service i nonce device_id d s
      → (let c = new_challenge service i nonce now d in
          Answers service c d p requested range
          → now ≤ later
          → later < now + service.challenge_lifetime
          → IsProved service later p
              (record s { challenges = insert c.challenge_id c (live_at at s.challenges) })
              c
              d
              range)
  Answers-IsProved service i nonce now at later d s p requested range device_id v m a after before =
      let c = new_challenge service i nonce now d in
      record {
        shaped = a.shaped;
        has_challenge =
            ap (λ (k : Str). lookup k (insert c.challenge_id c (live_at at s.challenges)))
              a.same_challenge
            ∙ lookup-insert_self c.challenge_id c (live_at at s.challenges);
        well_formed = new_challenge-valid service i nonce now device_id d s v m;
        in_time = in_time now service.challenge_lifetime later after before;
        same_device = sym a.same_device;
        same_backend = refl;
        registered =
            ap (λ (k : Str). lookup k s.authority.devices)
              (a.same_device ∙ v.registered device_id d m.registered)
            ∙ m.registered;
        is_active = m.is_active;
        same_actor = refl;
        supports_key = a.supports_key;
        has_key = a.has_key;
        signed = a.signed;
        requested = requested;
        asks = a.asks;
        negotiates = a.negotiates;
      }

  -- An active device that asks while the store has room gets its challenge, and a proof that answers the challenge
  -- before it expires is granted a session. The stores are as they should be, versions are totally ordered, the
  -- lifetime of a session is positive, its identifier is well formed, and the actor's name is not blank.
  pub Answers-grants :
      (service : SessionService V) (i : Str) (nonce : List ℕ) (now at : ℕ) (device_id : Str)
      (d : SessionDevice V) (s : Sessions V) (j token_id : Str) (later : ℕ) (p : DeviceSessionProof)
      (requested range : ContractRange V)
      → IsValid s.authority
      → IsStored service.limits s.challenges
      → CanAsk service i nonce device_id d s
      → HasRoom service.limits at (new_challenge service i nonce now d) s.challenges
      → Answers service (new_challenge service i nonce now d) d p requested range
      → now ≤ later
      → later < now + service.challenge_lifetime
      → IsOrder service.versions
      → 0 < service.session_lifetime
      → is_session_id (codes "ses_" ++ j) ≡ true
      → is_blank d.record_of.actor_id ≡ false
      → (t u : Sessions V) × (g : SessionGrant) × (issue_session_challenge service i nonce now at
            device_id s
          ≡ (t, some (new_challenge service i nonce now d)))
        × (authenticate_session service j token_id later p t ≡ (u, grant g))
  Answers-grants service i nonce now at device_id d s j token_id later p requested range v stored m
        room a after before order lifetime shaped actor =
      let c = new_challenge service i nonce now d in
      let t : Sessions V = record s {
        challenges = insert c.challenge_id c (live_at at s.challenges);
      } in
      let kept =
        subst (λ (e : Challenges × Issued). IsStored service.limits e.0)
          (HasRoom-issue service.limits at c s.challenges stored.distinct room)
          (issue-IsStored service.limits at c s.challenges stored) in
      let e =
        IsProved-grants service j token_id later p t c d range kept.named v order lifetime shaped
          actor
          (Answers-IsProved service i nonce now at later d s p requested range device_id v m a after
            before) in
      (
        t,
        e.0,
        e.1,
        CanAsk-issues service i nonce now at device_id d s v stored.distinct m room,
        e.2,
      )
