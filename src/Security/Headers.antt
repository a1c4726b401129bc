-- ===== src/Security/Headers.antt =====
-- What is read of the headers of a request (backend/src/jarvis/security/desktop_auth.py).
use sriee.Base.{
  ℕ, ◌+◌, Bool, true, false, not, ◌&&◌, Option, none, some, List, [], ◌∷◌, ◌==◌, str_eq, nat_eq,
  leb, map, any, take, drop, if◌then◌else◌,
}
use sriee.Text.{Str, codes, is_hex, repeated, strip}

-- `lower`, of the letters that matter here.
abbrev lower : Str → Str
lower s = map (λ (c : ℕ). if leb b'A' c && leb c b'Z' then c + 32 else c) s

-- What stands before the first space and behind it.
unfoldable pub partition : Str → Option (Str × Str)
partition [] = none
partition (c ∷ s) =
    let rest = partition s in
    if c == b' ' then some ([], s) else elim rest [ none ↦ none | some (a, b) ↦ some (c ∷ a, b) ]

abbrev pub is_nil : Str → Bool
is_nil [] = true
is_nil (_ ∷ _) = false

-- `_extract_bearer`
unfoldable pub extract_bearer : Option Str → Option Str
unfolding partition
extract_bearer none = none
extract_bearer (some s) = elim (partition s) [
  | none ↦ none
  | some (scheme, token) ↦
      if lower scheme == codes "bearer"
        && (not (is_nil token) && not (any (λ (c : ℕ). c == b' ') token))
      then some token
      else none
]

-- `_required_text`
unfoldable pub required_text : Option Str → Option Str
unfolding strip
required_text none = none
required_text (some s) = if is_nil (strip s) then none else some (strip s)

-- Groups of hexadecimal digits with dashes between them.
unfoldable pub in_groups : List ℕ → Str → Bool
unfolding is_hex repeated
in_groups [] s = is_nil s
in_groups (n ∷ []) s = repeated is_hex n n s
in_groups (n ∷ m ∷ ns) s =
    repeated is_hex n n (take n s)
    && (take 1 (drop n s) == codes "-" && in_groups (m ∷ ns) (drop (n + 1) s))

-- `_parse_nonce`: `str(UUID(nonce)) == nonce.lower()` says that this is a UUID in its canonical form.
unfoldable pub parse_nonce : Option Str → Option Str
unfolding required_text in_groups
parse_nonce value = elim (required_text value) [
  | none ↦ none
  | some nonce ↦
      if in_groups (8 ∷ 4 ∷ 4 ∷ 4 ∷ 12 ∷ []) (lower nonce) then some (lower nonce) else none
]
