-- ===== src/Security/Contracts.antt =====
-- `ContractRange` of backend/src/jarvis/security/desktop_auth.py. `Version` of the `packaging` library is a
-- parameter; `a > b` is `not a <= b`, since versions are totally ordered.
use sriee.Base.{
  ◌≡◌, refl, Bool, true, false, ◌&&◌, Option, none, some, List, [], ◌∷◌, if◌then◌else◌, all, arith,
  sym,
}
use sriee.Text.{Str}

-- `Version(text)`, if the text is a version, `<=`, and `str(version)`.
pub record Versions (V : Type 0) : Type 0 where
  pub parse : Str → Option V
  pub le : V → V → Bool
  pub text : V → Str

-- `ContractRange`
pub record ContractRange (V : Type 0) : Type 0 where
  pub minimum : V
  pub maximum : V

and_swap : (a b c d : Bool) → ((a && b) && (c && d)) ≡ ((a && c) && (b && d))
and_swap a b c d = ground arith

module _ {V : Type 0} (v : Versions V) where
  -- `ContractRange(minimum, maximum)`; `none` is its `ValueError`.
  unfoldable pub make_range : V → V → Option (ContractRange V)
  make_range a b = if v.le a b then some (record { minimum = a; maximum = b }) else none

  -- `ContractRange.parse`
  unfoldable pub parse_range : Str → Str → Option (ContractRange V)
  unfolding make_range
  parse_range minimum maximum = elim (v.parse minimum) [
    | none ↦ none
    | some a ↦ elim (v.parse maximum) [ none ↦ none | some b ↦ make_range a b ]
  ]

  -- `contains`
  unfoldable pub in_range : ContractRange V → V → Bool
  in_range r x = v.le r.minimum x && v.le x r.maximum

  -- `max(a, *(other.minimum for other in others))`: a later item is taken if it is greater.
  unfoldable pub max_of : V → List (ContractRange V) → V
  max_of a [] = a
  max_of a (r ∷ rs) = max_of (if v.le r.minimum a then a else r.minimum) rs

  -- `min(a, *(other.maximum for other in others))`
  unfoldable pub min_of : V → List (ContractRange V) → V
  min_of a [] = a
  min_of a (r ∷ rs) = min_of (if v.le a r.maximum then a else r.maximum) rs

  -- `intersect`
  unfoldable pub intersect : ContractRange V → List (ContractRange V) → Option (ContractRange V)
  unfolding make_range max_of min_of
  intersect r rs = make_range (max_of r.minimum rs) (min_of r.maximum rs)

  -- What is relied on of `<=`.
  pub record IsOrder : Type 0 where
    pub trans : (a b c : V) → v.le a b ≡ true → v.le b c ≡ true → v.le a c ≡ true
    pub total : (a b : V) → v.le a b ≡ false → v.le b a ≡ true

  module _ (order : IsOrder) where
    max-le : (a b x : V) → v.le (if v.le b a then a else b) x ≡ v.le a x && v.le b x
    max-le a b x = ground (arith, order.trans a b x, order.trans b a x, order.total b a)

    le-min : (a b x : V) → v.le x (if v.le a b then a else b) ≡ v.le x a && v.le x b
    le-min a b x = ground (arith, order.trans x a b, order.trans x b a, order.total a b)

    max_of-le :
        (a x : V) (rs : List (ContractRange V))
        → v.le (max_of a rs) x ≡ v.le a x && all (λ (r : ContractRange V). v.le r.minimum x) rs
    unfolding max_of
    max_of-le a x [] = ground arith
    max_of-le a x (r ∷ rs) =
        ground
          (arith, max_of-le (if v.le r.minimum a then a else r.minimum) x rs, max-le a r.minimum x)

    le-min_of :
        (a x : V) (rs : List (ContractRange V))
        → v.le x (min_of a rs) ≡ v.le x a && all (λ (r : ContractRange V). v.le x r.maximum) rs
    unfolding min_of
    le-min_of a x [] = ground arith
    le-min_of a x (r ∷ rs) =
        ground
          (arith, le-min_of (if v.le a r.maximum then a else r.maximum) x rs, le-min a r.maximum x)

    all-in_range :
        (x : V) (rs : List (ContractRange V))
        → all (λ (r : ContractRange V). in_range r x) rs
          ≡ all (λ (r : ContractRange V). v.le r.minimum x) rs
            && all (λ (r : ContractRange V). v.le x r.maximum) rs
    unfolding in_range
    all-in_range x [] = refl
    all-in_range x (r ∷ rs) = ground (arith, all-in_range x rs)

    made :
        (a b : V) {r : ContractRange V}
        → make_range a b ≡ some r
        → (a ≡ r.minimum) × (b ≡ r.maximum)
    unfolding make_range
    made a b h = ground arith

    pub made-le :
        (a b : V) {r : ContractRange V} → make_range a b ≡ some r → v.le r.minimum r.maximum ≡ true
    unfolding make_range
    made-le a b h = ground arith

    -- A version lies in the intersection exactly when it lies in every one of the ranges.
    pub in_range-intersect :
        (r s : ContractRange V) (rs : List (ContractRange V)) (x : V)
        → intersect r rs ≡ some s
        → in_range s x ≡ in_range r x && all (λ (q : ContractRange V). in_range q x) rs
    unfolding intersect in_range
    in_range-intersect r s rs x h =
        let e = made (max_of r.minimum rs) (min_of r.maximum rs) h in
        rw (sym e.0) (
          rw (sym e.1) (
            rw (max_of-le r.minimum x rs) (
              rw (le-min_of r.maximum x rs)
                (rw (all-in_range x rs) (and_swap (v.le r.minimum x) _ _ _)))))

    pub intersect-le :
        (r s : ContractRange V) (rs : List (ContractRange V))
        → intersect r rs ≡ some s
        → v.le s.minimum s.maximum ≡ true
    unfolding intersect
    intersect-le r s rs h = made-le (max_of r.minimum rs) (min_of r.maximum rs) h

    make_range-some :
        (r : ContractRange V)
        → v.le r.minimum r.maximum ≡ true
        → make_range r.minimum r.maximum ≡ some r
    unfolding make_range
    make_range-some r h = rw h refl

    in_range-le :
        (r : ContractRange V) (x : V) → in_range r x ≡ true → v.le r.minimum r.maximum ≡ true
    unfolding in_range
    in_range-le r x h = ground (arith, order.trans r.minimum x r.maximum)

    meets :
        (r s : ContractRange V) (rs : List (ContractRange V)) (x : V)
        → max_of r.minimum rs ≡ s.minimum
        → min_of r.maximum rs ≡ s.maximum
        → in_range r x ≡ true
        → all (λ (q : ContractRange V). in_range q x) rs ≡ true
        → in_range s x ≡ true
    unfolding in_range
    meets r s rs x low high h k =
        ground (arith, max_of-le r.minimum x rs, le-min_of r.maximum x rs, all-in_range x rs)

    -- Ranges with a version in common have an intersection, and it is there.
    pub intersect-some :
        (r : ContractRange V) (rs : List (ContractRange V)) (x : V)
        → in_range r x ≡ true
        → all (λ (q : ContractRange V). in_range q x) rs ≡ true
        → (s : ContractRange V) × (intersect r rs ≡ some s) × (in_range s x ≡ true)
    unfolding intersect
    intersect-some r rs x h k =
        let s : ContractRange V = record {
          minimum = max_of r.minimum rs;
          maximum = min_of r.maximum rs;
        } in
        let there : in_range s x ≡ true = meets r s rs x refl refl h k in
        (s, make_range-some s (in_range-le s x there), there)

    -- A range is read back as it is printed.
    pub parse_range-text :
        (r : ContractRange V)
        → ((a : V) → v.parse (v.text a) ≡ some a)
        → v.le r.minimum r.maximum ≡ true
        → parse_range (v.text r.minimum) (v.text r.maximum) ≡ some r
    unfolding parse_range
    parse_range-text r prints h =
        rw (prints r.minimum, parse_range)
          (rw (prints r.maximum, parse_range) (make_range-some r h))
