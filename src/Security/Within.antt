-- ===== src/Security/Within.antt =====
-- The contract versions within a grant (backend/src/jarvis/security/session_auth.py).
use sriee.Base.{
  ◌≡◌, refl, true, some, [], ◌∷◌, str_eq, sym, ap, ◌∙◌, and-true, and_intro, if-true,
  some_injective,
}
use sriee.Security.Nonces.{key_eq}
use sriee.Security.Contracts.{
  Versions, ContractRange, IsOrder, in_range, intersect, in_range-intersect, intersect-some,
}
use sriee.Security.Session.{SessionService}
use sriee.Security.Establish.{SessionGrant}

module _ {V : Type 0} where
  -- A version within the bounds of a grant.
  pub record Allows (service : SessionService V) (g : SessionGrant) (v : V) : Type 0 where
    pub minimum : V
    pub maximum : V
    pub low : service.versions.parse g.contract_minimum ≡ some minimum
    pub high : service.versions.parse g.contract_maximum ≡ some maximum
    pub above : service.versions.le minimum v ≡ true
    pub below : service.versions.le v maximum ≡ true

  pub Allows-in_range :
      (service : SessionService V) (g : SessionGrant) (v : V) (range : ContractRange V)
      → ((a : V) → service.versions.parse (service.versions.text a) ≡ some a)
      → g.contract_minimum ≡ service.versions.text range.minimum
      → g.contract_maximum ≡ service.versions.text range.maximum
      → Allows service g v
      → in_range service.versions range v ≡ true
  unfolding in_range
  Allows-in_range service g v range prints from to m =
      let low =
        some_injective (sym m.low ∙ ap service.versions.parse from ∙ prints range.minimum) in
      let high =
        some_injective (sym m.high ∙ ap service.versions.parse to ∙ prints range.maximum) in
      and_intro (ap (λ (a : V). service.versions.le a v) (sym low) ∙ m.above)
        (ap (λ (a : V). service.versions.le v a) (sym high) ∙ m.below)

  -- What the ranges of the service, the token, the device and the session have in common.
  pub negotiated_again :
      (versions : Versions V) (supported device requested range : ContractRange V) (v : V)
      → IsOrder versions
      → intersect versions supported (device ∷ requested ∷ []) ≡ some range
      → in_range versions range v ≡ true
      → (s : ContractRange V) × (intersect versions supported (range ∷ device ∷ range ∷ [])
          ≡ some s)
        × (in_range versions s v ≡ true)
  negotiated_again versions supported device requested range v order agreed within =
      let parts = and-true (in_range versions supported v) _ (
        sym (in_range-intersect versions order supported range (device ∷ requested ∷ []) v agreed)
        ∙ within) in
      let own = if-true (in_range versions device v) _ parts.1 in
      intersect-some versions order supported (range ∷ device ∷ range ∷ []) v parts.0
        (rw within (rw own.0 refl))
