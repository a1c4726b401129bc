-- ===== src/Security/Proved.antt =====
-- What is found of a proof before its challenge is consumed (backend/src/jarvis/security/session_auth.py).
use mathlib.Core.Path.{subst}
use sriee.Base.{
  ℕ, ◌≡◌, refl, Bool, true, false, ◌&&◌, Option, none, some, [], ◌∷◌, ◌==◌, str_eq, str_beq_iff,
  nat_eq, leb, ltb, and-true, some_injective,
}
use sriee.Text.{codes}
use sriee.Dict.{lookup}
use sriee.Security.Contracts.{ContractRange, parse_range, intersect}
use sriee.Security.Desktop.{is_active_device}
use sriee.Security.Authority.{SessionDevice}
use sriee.Security.Challenges.{SessionChallenge}
use sriee.Security.Session.{
  DeviceSessionProof, valid_proof, valid_challenge, transcript, SessionService, Sessions,
}
use sriee.Security.Prove.{◌>>=◌, ◌>>◌, require, is_key_of, verify_device_signature, proved}

bound-eq-some {ℓ κ} :
    {A : Type ℓ} {B : Type κ} (o : Option A) (f : A → Option B) {b : B}
    → (o >>= f) ≡ some b
    → (a : A) × (o ≡ some a) × (f a ≡ some b)
bound-eq-some none f h = cc
bound-eq-some (some a) f h = (a, refl, h)

require-eq-some {ℓ} :
    {B : Type ℓ} (t : Bool) (k : Option B) {b : B}
    → (require t >> k) ≡ some b
    → (t ≡ true) × (k ≡ some b)
require-eq-some true k h = (refl, h)
require-eq-some false k h = cc

module _ {V : Type 0} where
  -- What `proved` has found.
  pub record IsProved (service : SessionService V) (now : ℕ) (p : DeviceSessionProof)
      (s : Sessions V) (c : SessionChallenge) (d : SessionDevice V) (range : ContractRange V)
      : Type 0 where
    pub shaped : valid_proof p ≡ true
    pub has_challenge : lookup p.challenge_id s.challenges ≡ some c
    pub well_formed : valid_challenge c ≡ true
    pub in_time : (leb c.issued_at now && ltb now c.expires_at) ≡ true
    pub same_device : c.device_id ≡ p.device_id
    pub same_backend : c.backend_instance_id ≡ service.backend_instance_id
    pub registered : lookup p.device_id s.authority.devices ≡ some d
    pub is_active : is_active_device d.record_of.status ≡ true
    pub same_actor : d.record_of.actor_id ≡ c.actor_id
    pub supports_key :
        (d.public_key_algorithm == codes "ECDSA_P256_SHA256"
          && d.public_key_format == codes "SEC1_UNCOMPRESSED")
        ≡ true
    pub has_key : is_key_of service d ≡ true
    pub signed : verify_device_signature service d.public_key p.signature (transcript c p) ≡ true
    pub requested : ContractRange V
    pub asks : parse_range service.versions p.contract_minimum p.contract_maximum ≡ some requested
    pub negotiates :
        intersect service.versions service.supported_contracts
          (d.record_of.contract_range ∷ requested ∷ [])
        ≡ some range

  pub proved-IsProved :
      (service : SessionService V) (now : ℕ) (p : DeviceSessionProof) (s : Sessions V)
      (c : SessionChallenge) (d : SessionDevice V) (range : ContractRange V)
      → proved service now p s ≡ some (c, (d, range))
      → IsProved service now p s c d range
  unfolding proved
  proved-IsProved service now p s c d range h =
      let a = require-eq-some (valid_proof p) _ h in
      let b = bound-eq-some (lookup p.challenge_id s.challenges) _ a.1 in
      let e = require-eq-some (valid_challenge b.0) _ b.2 in
      let f = require-eq-some (leb b.0.issued_at now && ltb now b.0.expires_at) _ e.1 in
      let g =
        require-eq-some
          (b.0.device_id == p.device_id && b.0.backend_instance_id == service.backend_instance_id) _
          f.1 in
      let k = bound-eq-some (lookup p.device_id s.authority.devices) _ g.1 in
      let l = require-eq-some (is_active_device k.0.record_of.status) _ k.2 in
      let m = require-eq-some (k.0.record_of.actor_id == b.0.actor_id) _ l.1 in
      let n =
        require-eq-some
          (k.0.public_key_algorithm == codes "ECDSA_P256_SHA256"
            && k.0.public_key_format == codes "SEC1_UNCOMPRESSED")
          _ m.1 in
      let o = require-eq-some (is_key_of service k.0) _ n.1 in
      let q =
        bound-eq-some (parse_range service.versions p.contract_minimum p.contract_maximum) _ o.1 in
      let r =
        bound-eq-some
          (intersect service.versions service.supported_contracts
            (k.0.record_of.contract_range ∷ q.0 ∷ []))
          _ q.2 in
      let u =
        require-eq-some
          (verify_device_signature service k.0.public_key p.signature (transcript b.0 p)) _ r.2 in
      let found = some_injective u.1 in
      let bound = and-true (b.0.device_id == p.device_id) _ g.0 in
      subst
        (λ (t : SessionChallenge × (SessionDevice V × ContractRange V)).
          IsProved service now p s t.0 t.1.0 t.1.1)
        found
        (record {
          shaped = a.0;
          has_challenge = b.1;
          well_formed = e.0;
          in_time = f.0;
          same_device = (str_beq_iff b.0.device_id p.device_id).0 bound.0;
          same_backend =
              (str_beq_iff b.0.backend_instance_id service.backend_instance_id).0 bound.1;
          registered = k.1;
          is_active = l.0;
          same_actor = (str_beq_iff k.0.record_of.actor_id b.0.actor_id).0 m.0;
          supports_key = n.0;
          has_key = o.0;
          signed = u.0;
          requested = q.0;
          asks = q.1;
          negotiates = r.1;
        })
