-- ===== src/Dict.antt =====
-- A Python dict in insertion order: an association list, and a write keeps the place of its key.
use sriee.Base.{
  ◌≡◌, refl, Bool, true, false, Option, none, some, List, [], ◌∷◌, arith, Eq, ◌==◌, if◌then◌else◌,
  Bool-cases, inl, inr, ◌⊎◌, sym, ◌+◌, ◌≤◌, length,
}
use mathlib.Core.Bool.{false≢true}

abbrev pub Dict {ℓ κ} : Type ℓ → Type κ → Type (ℓ ⊔ κ)
Dict K V = List (K × V)

abbrev pub is_some {ℓ} : {A : Type ℓ} → Option A → Bool
is_some none = false
is_some (some _) = true

-- What a filter by value leaves of an entry.
abbrev pub if_kept {ℓ} : {V : Type ℓ} → (V → Bool) → Option V → Option V
if_kept p none = none
if_kept p (some v) = if p v then some v else none

module _ {ℓ κ} {K : Type ℓ} {V : Type κ} ⦃e : Eq K⦄ where
  -- `d.get(k)`
  unfoldable pub lookup : K → Dict K V → Option V
  lookup k [] = none
  lookup k ((j, v) ∷ d) = if j == k then some v else lookup k d

  -- `k in d`
  abbrev pub contains : K → Dict K V → Bool
  contains k d = is_some (lookup k d)

  -- `d[k] = v`
  unfoldable pub insert : K → V → Dict K V → Dict K V
  insert k v [] = (k, v) ∷ []
  insert k v ((j, w) ∷ d) = if j == k then (k, v) ∷ d else (j, w) ∷ insert k v d

  -- `d.pop(k, None)`: every pair with the key goes, and a dict has one at most.
  unfoldable pub pop : K → Dict K V → Dict K V
  pop k [] = []
  pop k ((j, w) ∷ d) = let rest = pop k d in if j == k then rest else (j, w) ∷ rest

  pub lookup-insert :
      (k j : K) (v : V) (d : Dict K V)
      → lookup j (insert k v d) ≡ (if k == j then some v else lookup j d)
  unfolding lookup insert
  lookup-insert k j v [] = refl
  lookup-insert k j v ((i, w) ∷ d) =
      ground (arith, e.beq_iff k j, e.beq_iff i k, e.beq_iff i j, lookup-insert k j v d)

  pub lookup-insert_self : (k : K) (v : V) (d : Dict K V) → lookup k (insert k v d) ≡ some v
  lookup-insert_self k v d = ground (arith, lookup-insert k k v d, e.beq_iff k k)

  pub lookup-insert_ne :
      (k j : K) (v : V) (d : Dict K V) → (k == j) ≡ false → lookup j (insert k v d) ≡ lookup j d
  lookup-insert_ne k j v d h = ground (arith, lookup-insert k j v d)

  -- A key that is new leaves every other entry.
  pub lookup-insert_new :
      (k j : K) (v : V) {w : V} (d : Dict K V)
      → contains k d ≡ false
      → lookup j d ≡ some w
      → lookup j (insert k v d) ≡ some w
  lookup-insert_new k j v d h g = elim (Bool-cases (k == j)) [
    | inl same ↦ absurd (false≢true (sym (rw ((e.beq_iff k j).0 same, g) at h)))
    | inr other ↦ ground (arith, lookup-insert k j v d)
  ]

  -- What a read behind a write finds is the written value, or it was there.
  pub lookup-insert_cases :
      (k j : K) (v : V) {w : V} (d : Dict K V)
      → lookup j (insert k v d) ≡ some w
      → ((k ≡ j) × (v ≡ w)) ⊎ (((k == j) ≡ false) × (lookup j d ≡ some w))
  lookup-insert_cases k j v d h = ground (arith, lookup-insert k j v d, e.beq_iff k j)

  pub contains-insert :
      (k j : K) (v : V) (d : Dict K V)
      → contains j (insert k v d) ≡ (if k == j then true else contains j d)
  contains-insert k j v d = ground (arith, lookup-insert k j v d)

  pub lookup-pop :
      (k j : K) (d : Dict K V) → lookup j (pop k d) ≡ (if k == j then none else lookup j d)
  unfolding lookup pop
  lookup-pop k j [] = ground arith
  lookup-pop k j ((i, w) ∷ d) =
      ground (arith, e.beq_iff k j, e.beq_iff i k, e.beq_iff i j, lookup-pop k j d)

  pub length-insert :
      (k : K) (v : V) (d : Dict K V)
      → length (insert k v d) ≡ (if contains k d then length d else length d + 1)
  unfolding lookup insert
  length-insert k v [] = ground arith
  length-insert k v ((i, w) ∷ d) = ground (arith, length-insert k v d)

  pub length-pop-le : (k : K) (d : Dict K V) → length (pop k d) ≤ length d
  unfolding pop
  length-pop-le k [] = ground arith
  length-pop-le k ((i, w) ∷ d) = ground (arith, length-pop-le k d)

  -- A dict has each key once.
  abbrev pub IsDistinct : Dict K V → Type 0
  IsDistinct [] = Unit
  IsDistinct ((k, v) ∷ d) = (contains k d ≡ false) × IsDistinct d

  pub insert-IsDistinct : (k : K) (v : V) (d : Dict K V) → IsDistinct d → IsDistinct (insert k v d)
  unfolding insert lookup
  insert-IsDistinct k v [] h = (refl, tt)
  insert-IsDistinct k v ((j, w) ∷ d) h =
      ground
        (arith, insert-IsDistinct k v d h.1, contains-insert k j v d, e.beq_iff k j, e.beq_iff j k)

  pub pop-IsDistinct : (k : K) (d : Dict K V) → IsDistinct d → IsDistinct (pop k d)
  unfolding pop
  pop-IsDistinct k [] h = tt
  pop-IsDistinct k ((j, w) ∷ d) h = ground (arith, pop-IsDistinct k d h.1, lookup-pop k j d)

  -- `{k: v for k, v in d.items() if p(v)}`
  unfoldable pub keep_values : (V → Bool) → Dict K V → Dict K V
  keep_values p [] = []
  keep_values p ((j, v) ∷ d) = let rest = keep_values p d in if p v then (j, v) ∷ rest else rest

  pub lookup-keep_values :
      (p : V → Bool) (k : K) (d : Dict K V)
      → IsDistinct d
      → lookup k (keep_values p d) ≡ if_kept p (lookup k d)
  unfolding lookup keep_values
  lookup-keep_values p k [] h = refl
  lookup-keep_values p k ((j, v) ∷ d) h =
      ground (arith, e.beq_iff j k, lookup-keep_values p k d h.1)

  pub keep_values-IsDistinct :
      (p : V → Bool) (d : Dict K V) → IsDistinct d → IsDistinct (keep_values p d)
  unfolding keep_values
  keep_values-IsDistinct p [] h = tt
  keep_values-IsDistinct p ((j, v) ∷ d) h =
      ground (arith, keep_values-IsDistinct p d h.1, lookup-keep_values p j d h.1)
