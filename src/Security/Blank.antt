-- ===== src/Security/Blank.antt =====
-- Texts that are not blank: identifiers (backend/src/jarvis/security/session_auth.py).
use mathlib.Core.List.{reverse-cons}
use sriee.Base.{
  ℕ, ◌≡◌, refl, Bool, true, false, ◌&&◌, [], ◌∷◌, ◌++◌, reverse, leb, nat_beq, nat_beq_iff, arith,
  sym, ap, ◌∙◌, Bool-cases, inl, inr,
}
use sriee.Text.{Str, is_space, strip, strip_left, prefixed, after_prefix}
use sriee.Security.Headers.{is_nil}
use sriee.Security.Session.{is_positive}
use sriee.Security.Establish.{is_blank}

is_nil-append : (s : Str) (c : ℕ) → is_nil (s ++ c ∷ []) ≡ false
is_nil-append [] c = refl
is_nil-append (x ∷ s) c = refl

is_nil-reverse : (s : Str) → is_nil (reverse s) ≡ is_nil s
is_nil-reverse [] = refl
is_nil-reverse (c ∷ s) = ap is_nil (reverse-cons c s) ∙ is_nil-append (reverse s) c

strip_left-append :
    (s : Str) (c : ℕ) → is_space c ≡ false → is_nil (strip_left (s ++ c ∷ [])) ≡ false
unfolding strip_left
strip_left-append [] c h = rw h refl
strip_left-append (x ∷ s) c h = elim (Bool-cases (is_space x)) [
  | inl e ↦ rw e (strip_left-append s c h)
  | inr e ↦ rw e refl
]

-- A text that begins with another character than white space.
pub is_blank-cons : (c : ℕ) (s : Str) → is_space c ≡ false → is_blank (c ∷ s) ≡ false
unfolding strip
is_blank-cons c s h =
    let first : strip_left (c ∷ s) ≡ c ∷ s = unfold strip_left in rw h refl in
    ap (λ (t : Str). is_nil (reverse (strip_left (reverse t)))) first
    ∙ is_nil-reverse (strip_left (reverse (c ∷ s)))
    ∙ ap (λ (t : Str). is_nil (strip_left t)) (reverse-cons c s)
    ∙ strip_left-append (reverse s) c h

-- An identifier with a prefix.
pub prefixed-is_blank :
    (c : ℕ) (p : Str) (class : ℕ → Bool) (lo hi : ℕ) (s : Str)
    → is_space c ≡ false
    → prefixed (c ∷ p) class lo hi s ≡ true
    → is_blank s ≡ false
unfolding prefixed after_prefix
prefixed-is_blank c p class lo hi [] h k = cc
prefixed-is_blank c p class lo hi (d ∷ s) h k = elim (Bool-cases (nat_beq c d)) [
  | inl same ↦ is_blank-cons d s (ap is_space (sym ((nat_beq_iff c d).0 same)) ∙ h)
  | inr other ↦ absurd (wrong (sym (rw (other, prefixed) refl) ∙ k))
]
  where
    wrong : false ≡ true → ⊥
    wrong e = cc

digit-is_space : (c : ℕ) → (leb b'1' c && leb c b'9') ≡ true → is_space c ≡ false
unfolding is_space
digit-is_space c h = ground arith

pub is_positive-is_blank : (s : Str) → is_positive s ≡ true → is_blank s ≡ false
unfolding is_positive
is_positive-is_blank [] h = cc
is_positive-is_blank (c ∷ s) h =
    is_blank-cons c s (digit-is_space c (first (leb b'1' c && leb c b'9') _ h))
  where
    first : (a b : Bool) → (a && b) ≡ true → a ≡ true
    first true b e = refl
    first false b e = cc
