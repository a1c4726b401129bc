-- ===== src/Graph/Policy/Sorting.antt =====
-- What sorting keeps (`sorted` in backend/src/jarvis/graph/policy.py).
use sriee.Base.{
  suc, ◌≡◌, refl, Bool, not, ◌&&◌, ◌||◌, List, [], ◌∷◌, arith, length, all, str_eq, ◌==◌, ap, ◌∙◌,
}
use sriee.Text.{Str}
use sriee.Graph.Patterns.{str_le}
use sriee.Graph.Policy.Contract.{has, distinct}
use sriee.Graph.Policy.Decide.{sorted, sort_in}

-- Sorting keeps what the contract asks of the reasons, and what the validators ask of the rules.
module _ {ℓ} {A : Type ℓ} (le : A → A → Bool) where
  all-sort_in : (p : A → Bool) (x : A) (xs : List A) → all p (sort_in le x xs) ≡ (p x && all p xs)
  unfolding sort_in
  all-sort_in p x [] = ground arith
  all-sort_in p x (y ∷ ys) = ground (arith, all-sort_in p x ys)

  pub all-sorted : (p : A → Bool) (xs : List A) → all p (sorted le xs) ≡ all p xs
  unfolding sorted
  all-sorted p [] = refl
  all-sorted p (x ∷ xs) = ground (arith, all-sort_in p x (sorted le xs), all-sorted p xs)

  length-sort_in : (x : A) (xs : List A) → length (sort_in le x xs) ≡ suc (length xs)
  unfolding sort_in
  length-sort_in x [] = refl
  length-sort_in x (y ∷ ys) = ground (arith, length-sort_in x ys)

  pub length-sorted : (xs : List A) → length (sorted le xs) ≡ length xs
  unfolding sorted
  length-sorted [] = refl
  length-sorted (x ∷ xs) = length-sort_in x (sorted le xs) ∙ ap suc (length-sorted xs)

has-sort_in : (z x : Str) (xs : List Str) → has z (sort_in str_le x xs) ≡ (x == z || has z xs)
unfolding sort_in
has-sort_in z x [] = ground arith
has-sort_in z x (y ∷ ys) = ground (arith, has-sort_in z x ys)

has-sorted : (z : Str) (xs : List Str) → has z (sorted str_le xs) ≡ has z xs
unfolding sorted
has-sorted z [] = refl
has-sorted z (x ∷ xs) = ground (arith, has-sort_in z x (sorted str_le xs), has-sorted z xs)

distinct-sort_in :
    (x : Str) (xs : List Str) → distinct (sort_in str_le x xs) ≡ (not (has x xs) && distinct xs)
unfolding sort_in
distinct-sort_in x [] = ground arith
distinct-sort_in x (y ∷ ys) =
    ground
      (arith, distinct-sort_in x ys, has-sort_in y x ys, str_eq.beq_iff x y, str_eq.beq_iff y x)

pub distinct-sorted : (xs : List Str) → distinct (sorted str_le xs) ≡ distinct xs
unfolding sorted
distinct-sorted [] = refl
distinct-sorted (x ∷ xs) =
    ground (arith, distinct-sort_in x (sorted str_le xs), has-sorted x xs, distinct-sorted xs)
