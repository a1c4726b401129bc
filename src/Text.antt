-- ===== src/Text.antt =====
-- Python `str` as its code points, and the patterns that identifiers are matched against.
use Prim.Native.Char.{code}
use Prim.Native.String.{String}
use sriee.Base.{
  ℕ, List, [], ◌∷◌, Bool, false, ◌&&◌, ◌||◌, leb, nat_beq, all, length, reverse, Option, none, some,
  if◌then◌else◌,
}

abbrev pub Str : Type 0
Str = List ℕ

-- A text literal.
abbrev pub codes : String → Str
codes String.[] = []
codes (String.◌∷◌ c s) = code c ∷ codes s

-- `[0-9]`, `[a-z]`, `[A-Z]`
abbrev pub is_digit : ℕ → Bool
is_digit c = leb b'0' c && leb c b'9'

abbrev is_lower : ℕ → Bool
is_lower c = leb b'a' c && leb c b'z'

abbrev is_upper : ℕ → Bool
is_upper c = leb b'A' c && leb c b'Z'

-- `[0-9a-f]`
unfoldable pub is_hex : ℕ → Bool
is_hex c = is_digit c || (leb b'a' c && leb c b'f')

-- `[A-Za-z0-9]`
unfoldable pub is_alnum : ℕ → Bool
is_alnum c = is_digit c || (is_lower c || is_upper c)

-- `[A-Za-z0-9_-]`
unfoldable pub is_word : ℕ → Bool
unfolding is_alnum
is_word c = is_alnum c || (nat_beq c b'_' || nat_beq c b'-')

-- `[A-Za-z0-9._:-]`
unfoldable pub is_safe : ℕ → Bool
unfolding is_word
is_safe c = is_word c || (nat_beq c b'.' || nat_beq c b':')

-- The white space that `str.strip` removes.
unfoldable pub is_space : ℕ → Bool
is_space c =
    (leb 9 c && leb c 13)
    || ((leb 28 c && leb c 32)
        || (nat_beq c 133
            || (nat_beq c 160
                || (nat_beq c 5760
                    || ((leb 8192 c && leb c 8202)
                        || (nat_beq c 8232
                            || (nat_beq c 8233
                                || (nat_beq c 8239 || (nat_beq c 8287 || nat_beq c 12288)))))))))

-- `fullmatch` of a character class that is repeated between `lo` and `hi` times.
unfoldable pub repeated : (ℕ → Bool) → ℕ → ℕ → Str → Bool
repeated p lo hi s = all p s && (leb lo (length s) && leb (length s) hi)

-- What follows a literal prefix.
unfoldable pub after_prefix : Str → Str → Option Str
after_prefix [] s = some s
after_prefix (c ∷ p) [] = none
after_prefix (c ∷ p) (d ∷ s) = let rest = after_prefix p s in if nat_beq c d then rest else none

-- `re.fullmatch(prefix + "[class]{lo,hi}", s)`
unfoldable pub prefixed : Str → (ℕ → Bool) → ℕ → ℕ → Str → Bool
unfolding after_prefix repeated
prefixed p class lo hi s = elim (after_prefix p s) [
  | none ↦ false
  | some rest ↦ repeated class lo hi rest
]

unfoldable pub strip_left : Str → Str
strip_left [] = []
strip_left (c ∷ s) = let rest = strip_left s in if is_space c then rest else c ∷ s

-- `value.strip()`
unfoldable pub strip : Str → Str
unfolding strip_left
strip s = reverse (strip_left (reverse (strip_left s)))
