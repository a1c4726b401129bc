-- ===== src/Graph/Node.antt =====
-- How a node of the graph ends, and what the nodes share (backend/src/jarvis/graph).
use native.Mathlib.Decide.{ℕ_discrete}
use sriee.Base.{ℕ, ◌≡◌, ◌↔◌, refl, Bool, true, false, Option, none, some, List}
use sriee.Text.{Str}

-- The node's own error with its code, pydantic's `ValidationError`, `KeyError`, LangGraph's
-- interrupt, or what it returns.
pub data Node {ℓ} (A : Type ℓ) : Type ℓ where
  refused : Str → Node A
  validation_error key_error interrupted : Node A
  done : A → Node A

infixl 5 ◌>>=◌ ◌>>◌
abbrev pub ◌>>=◌ {ℓ κ} : {A : Type ℓ} {B : Type κ} → Node A → (A → Node B) → Node B
refused e >>= f = refused e
validation_error >>= f = validation_error
key_error >>= f = key_error
interrupted >>= f = interrupted
done a >>= f = f a

abbrev pub ◌>>◌ {ℓ} : {B : Type ℓ} → Node (Unit {0}) → Node B → Node B
m >> k = m >>= λ _. k

-- `if not test: raise Error(code)`
abbrev pub require : Bool → Str → Node (Unit {0})
require true e = done tt
require false e = refused e

abbrev pub some_or {ℓ} : {A : Type ℓ} → Str → Option A → Node A
some_or e none = refused e
some_or e (some a) = done a

-- Inversion of a chain that ended well.
pub >>=-eq-done {ℓ κ} :
    {A : Type ℓ} {B : Type κ} (m : Node A) (f : A → Node B) {b : B}
    → (m >>= f) ≡ done b
    → (a : A) × (m ≡ done a) × (f a ≡ done b)
>>=-eq-done (done a) f h = (a, refl, h)
>>=-eq-done (refused e) f h = cc
>>=-eq-done validation_error f h = cc
>>=-eq-done key_error f h = cc
>>=-eq-done interrupted f h = cc

-- A point in time in microseconds, and whether it has a time zone.
pub record Moment : Type 0 where
  pub at : ℕ
  pub is_aware : Bool

-- `a == b` on values whose equality is decidable.
abbrev pub same {ℓ} : {A : Type ℓ} → Discrete A → A → A → Bool
same d a b = elim (d a b) [ yes _ ↦ true | no _ ↦ false ]

pub same_iff {ℓ} : {A : Type ℓ} (d : Discrete A) (a b : A) → (same d a b ≡ true) ↔ (a ≡ b)
same_iff d a b =
    elim (d a b) as (λ x. ((elim x [ yes _ ↦ true | no _ ↦ false ]) ≡ true) ↔ (a ≡ b)) [
      | yes p ↦ (λ _. p, λ _. refl)
      | no p ↦ (λ h. cc, λ e. absurd (p e))
    ]

unfoldable pub texts_discrete : Discrete (List Str)
texts_discrete = hlevel ℕ_discrete

unfoldable pub moment_discrete : Discrete Moment
moment_discrete = hlevel ℕ_discrete

pub require-eq-done {ℓ} :
    {A : Type ℓ} (b : Bool) (e : Str) (k : Node A) {x : A}
    → (require b e >> k) ≡ done x
    → (b ≡ true) × (k ≡ done x)
require-eq-done true e k h = (refl, h)
require-eq-done false e k h = cc

pub some_or-eq-done {ℓ κ} :
    {A : Type ℓ} {B : Type κ} (e : Str) (o : Option A) (f : A → Node B) {x : B}
    → (some_or e o >>= f) ≡ done x
    → (a : A) × (o ≡ some a) × (f a ≡ done x)
some_or-eq-done e (some a) f h = (a, refl, h)
some_or-eq-done e none f h = cc

pub require-done {ℓ} :
    {A : Type ℓ} (b : Bool) (e : Str) (x : A) {y : A}
    → (require b e >> done x) ≡ done y
    → (b ≡ true) × (x ≡ y)
require-done true e x h = (refl, cc)
require-done false e x h = cc

pub done_inj {ℓ} : {A : Type ℓ} {x y : A} → done x ≡ done y → x ≡ y
done_inj h = cc
