-- ===== src/Graph/Patterns.antt =====
-- The patterns and the order of the identifiers that the graph's contracts compare
-- (backend/src/jarvis/graph: normalize.py, context.py, plan.py, policy.py).
use sriee.Base.{
  ℕ, suc, Bool, true, false, ◌&&◌, ◌||◌, [], ◌∷◌, leb, ltb, nat_beq, any, if◌then◌else◌,
}
use sriee.Text.{Str, codes, is_hex, is_word, is_alnum, is_safe, prefixed, repeated}

-- `[0-9]`, `[a-z]` and `[a-z0-9]`
abbrev pub is_number : ℕ → Bool
is_number c = leb b'0' c && leb c b'9'

abbrev pub is_letter : ℕ → Bool
is_letter c = leb b'a' c && leb c b'z'

abbrev pub is_plain : ℕ → Bool
is_plain c = is_letter c || is_number c

-- One character of a class, then between `lo` and `hi` of another.
unfoldable pub headed : (ℕ → Bool) → (ℕ → Bool) → ℕ → ℕ → Str → Bool
unfolding repeated
headed first class lo hi [] = false
headed first class lo hi (c ∷ s) = first c && repeated class lo hi s

-- `PRINCIPAL_ID_PATTERN`
unfoldable pub is_principal_id : Str → Bool
unfolding headed is_alnum is_safe
is_principal_id s = headed is_alnum is_safe 2 127 s

-- `REFERENCE_ID_PATTERN`
unfoldable pub is_reference_id : Str → Bool
unfolding prefixed is_word
is_reference_id s =
    any (λ p. prefixed p is_word 8 128 s)
      (codes "prj_" ∷ codes "cap_" ∷ codes "pol_" ∷ codes "mem_" ∷ [])

-- What follows the first digit in `REFERENCE_VERSION_PATTERN`: the dots so far, and whether the last
-- character was a digit.
unfoldable pub version_from : ℕ → Bool → Str → Bool
version_from dots in_number [] = in_number && nat_beq dots 2
version_from dots in_number (c ∷ s) =
    let digit = version_from dots true s in
    let dot = version_from (suc dots) false s in
    if is_number c then digit else if nat_beq c b'.' && in_number then dot else false

-- `REFERENCE_VERSION_PATTERN`: `[1-9][0-9]*\.[0-9]+\.[0-9]+`
unfoldable pub is_version : Str → Bool
unfolding version_from
is_version [] = false
is_version (c ∷ s) = (leb b'1' c && leb c b'9') && version_from 0 true s

-- What follows the first letter in `CAPABILITY_ID_PATTERN`: the separators so far, and whether the
-- last character was a letter or a digit.
unfoldable pub capability_from : ℕ → Bool → Str → Bool
capability_from separators in_part [] = in_part && (leb 1 separators && leb separators 7)
capability_from separators in_part (c ∷ s) =
    let part = capability_from separators true s in
    let separator = capability_from (suc separators) false s in
    if is_plain c
    then part
    else if (nat_beq c b'.' || (nat_beq c b'_' || nat_beq c b'-')) && in_part
    then separator
    else false

-- `CAPABILITY_ID_PATTERN`: `[a-z][a-z0-9]*(?:[._-][a-z0-9]+){1,7}`
unfoldable pub is_capability_id : Str → Bool
unfolding capability_from
is_capability_id [] = false
is_capability_id (c ∷ s) = is_letter c && capability_from 0 true s

-- `REASON_CODE_PATTERN`: `[a-z][a-z0-9_]{2,63}`
unfoldable pub is_reason_code : Str → Bool
unfolding headed
is_reason_code s = headed is_letter (λ c. is_plain c || nat_beq c b'_') 2 63 s

-- `RULE_ID_PATTERN`, `GRANT_ID_PATTERN`, and the pattern of an action's identifier.
unfoldable pub is_rule_id : Str → Bool
unfolding prefixed is_word
is_rule_id s = prefixed (codes "prl_") is_word 8 128 s

unfoldable pub is_grant_id : Str → Bool
unfolding prefixed is_word
is_grant_id s = prefixed (codes "grt_") is_word 8 128 s

unfoldable pub is_policy_id : Str → Bool
unfolding prefixed is_word
is_policy_id s = prefixed (codes "pol_") is_word 8 128 s

unfoldable pub is_action_id : Str → Bool
unfolding prefixed is_hex
is_action_id s = prefixed (codes "act_") is_hex 24 24 s

-- `s <= t` for text.
unfoldable pub str_le : Str → Str → Bool
str_le [] t = true
str_le (a ∷ s) [] = false
str_le (a ∷ s) (b ∷ t) =
    let rest = str_le s t in if ltb a b then true else if nat_beq a b then rest else false

-- `THREAD_ID_PATTERN`, `APPROVAL_ID_PATTERN` and so on: a prefix and digits of a digest, or a prefix and
-- word characters.
unfoldable pub is_thread_id : Str → Bool
unfolding prefixed is_hex
is_thread_id s = prefixed (codes "thr_") is_hex 32 32 s

unfoldable pub is_digest_id : Str → Str → Bool
unfolding prefixed is_hex
is_digest_id p s = prefixed p is_hex 24 24 s

unfoldable pub is_word_id : Str → Str → Bool
unfolding prefixed is_word
is_word_id p s = prefixed p is_word 8 128 s

-- `ACTION_DIGEST_PATTERN` and `IDEMPOTENCY_KEY_PATTERN`: `[0-9a-f]{64}`
unfoldable pub is_sha256 : Str → Bool
unfolding repeated is_hex
is_sha256 s = repeated is_hex 64 64 s

-- `PARAMETER_NAME_PATTERN`: `[a-z][a-z0-9_]{0,63}`
unfoldable pub is_parameter_name : Str → Bool
unfolding headed
is_parameter_name s = headed is_letter (λ c. is_plain c || nat_beq c b'_') 0 63 s

-- `IDENTIFIER_VALUE_PATTERN`: `[A-Za-z0-9][A-Za-z0-9._@-]{0,127}`
unfoldable pub is_identifier_value : Str → Bool
unfolding headed is_alnum
is_identifier_value s =
    headed is_alnum
      (λ c.
        is_alnum c || (nat_beq c b'.' || (nat_beq c b'_' || (nat_beq c b'@' || nat_beq c b'-'))))
      0 127 s
