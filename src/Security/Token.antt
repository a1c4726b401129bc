-- ===== src/Security/Token.antt =====
-- The token of a grant (backend/src/jarvis/security/session_auth.py).
use sriee.Base.{
  ℕ, ◌≡◌, refl, Option, none, some, str_eq, nat_eq, sym, ap, ◌∙◌, Bool-cases, inl, inr,
}
use sriee.Text.{Str}
use sriee.Security.Contracts.{ContractRange}
use sriee.Security.Desktop.{SessionRecord}
use sriee.Security.Authority.{SessionDevice, Rotated, conflict, key_error, session}
use sriee.Security.Session.{DeviceSessionProof, SessionService}
use sriee.Security.Establish.{
  SessionGrant, failed, rotation_conflict, grant, rotation, valid_rotated, claims_of, issue_token,
  answered, grant_of, with_token,
}

pub not_grant : (g : SessionGrant) → failed ≡ grant g → ⊥
not_grant g h = cc

conflict_not_grant : (g : SessionGrant) → rotation_conflict ≡ grant g → ⊥
conflict_not_grant g h = cc

grant_inj : {g k : SessionGrant} → grant g ≡ grant k → g ≡ k
grant_inj h = cc

module _ {V : Type 0} where
  -- A grant is of the session that was rotated, and its token says so.
  abbrev Grants :
      SessionService V
      → ℕ
      → DeviceSessionProof
      → SessionDevice V
      → SessionRecord V
      → ContractRange V
      → Option Str
      → SessionGrant
      → Type 0
  Grants service now p d r range o g =
      (o ≡ some g.access_token) × (g ≡ grant_of service now p d r range g.access_token)

  with_token-Grants :
      (service : SessionService V) (now : ℕ) (p : DeviceSessionProof) (d : SessionDevice V)
      (r : SessionRecord V) (range : ContractRange V) (o : Option Str) (g : SessionGrant)
      → with_token service now p d r range o ≡ grant g
      → Grants service now p d r range o g
  with_token-Grants service now p d r range none g h = absurd (not_grant g h)
  with_token-Grants service now p d r range (some token) g h =
      let same = grant_inj h in
      (
        ap (λ (k : SessionGrant). some k.access_token) same,
        sym same ∙ ap (λ (k : SessionGrant). grant_of service now p d r range k.access_token) same,
      )

  pub answered-eq-grant :
      (service : SessionService V) (token_id : Str) (now : ℕ) (p : DeviceSessionProof)
      (d : SessionDevice V) (range : ContractRange V) (x : Rotated V) (g : SessionGrant)
      → answered service token_id now p d range x ≡ grant g
      → (r : SessionRecord V) × (x ≡ session r)
        × Grants service now p d r range
            (issue_token service (claims_of service token_id now p d r range))
            g
  unfolding answered
  answered-eq-grant service token_id now p d range conflict g h = absurd (conflict_not_grant g h)
  answered-eq-grant service token_id now p d range key_error g h = absurd (not_grant g h)
  answered-eq-grant service token_id now p d range (session r) g h =
      elim (Bool-cases (valid_rotated service (rotation service now p d range) r)) [
        | inl good ↦ (
          r,
          refl,
          with_token-Grants service now p d r range
              (issue_token service (claims_of service token_id now p d r range)) g
              (sym (rw good refl) ∙ h),
        )
        | inr bad ↦ absurd (not_grant g (sym (rw bad refl) ∙ h))
      ]
