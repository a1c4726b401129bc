-- ===== src/Security/Challenges.antt =====
-- `InMemorySessionChallengeStore` of backend/src/jarvis/security/session_auth.py.
use sriee.Base.{
  ℕ, ◌+◌, Bool, true, false, Option, none, some, List, [], ◌∷◌, ◌==◌, str_eq, leb, ltb, length,
  if◌then◌else◌,
}
use sriee.Text.{Str}
use sriee.Dict.{Dict, lookup, contains, insert, pop, keep_values}

pub record SessionChallenge : Type 0 where
  pub challenge_id : Str
  pub server_nonce : Str
  pub backend_instance_id : Str
  pub device_id : Str
  pub actor_id : Str
  pub issued_at : ℕ
  pub expires_at : ℕ

-- `_records`
abbrev pub Challenges : Type 0
Challenges = Dict Str SessionChallenge

pub record ChallengeLimits : Type 0 where
  pub max_records : ℕ
  pub max_per_device : ℕ

-- The three `ValueError`s of `issue`, or none.
pub data Issued : Type 0 where
  collision capacity device_capacity issued : Issued

-- The challenges of a device.
unfoldable pub count_of : Str → Challenges → ℕ
count_of device [] = 0
count_of device ((i, c) ∷ records) =
    let rest = count_of device records in if c.device_id == device then 1 + rest else rest

-- `issue`
unfoldable pub issue : ChallengeLimits → ℕ → SessionChallenge → Challenges → Challenges × Issued
unfolding lookup insert keep_values count_of
issue limits now c records =
    let live = keep_values (λ (r : SessionChallenge). ltb now r.expires_at) records in
    if contains c.challenge_id live
    then (live, collision)
    else if leb limits.max_records (length live)
    then (live, capacity)
    else if leb limits.max_per_device (count_of c.device_id live)
    then (live, device_capacity)
    else (insert c.challenge_id c live, issued)

abbrev pub is_challenge : Option SessionChallenge → Str → Bool
is_challenge none nonce = false
is_challenge (some c) nonce = c.server_nonce == nonce

-- `consume`
unfoldable pub consume_challenge : Str → Str → Challenges → Challenges × Bool
unfolding lookup pop
consume_challenge i nonce records =
    if is_challenge (lookup i records) nonce then (pop i records, true) else (records, false)

-- A call that changes the store.
pub data Call : Type 0 where
  issuing : ℕ → SessionChallenge → Call
  consuming : Str → Str → Call

unfoldable pub called : ChallengeLimits → Call → Challenges → Challenges
unfolding issue consume_challenge
called limits (issuing now c) records = (issue limits now c records).0
called limits (consuming i nonce) records = (consume_challenge i nonce records).0

unfoldable pub all_called : ChallengeLimits → List Call → Challenges → Challenges
unfolding called
all_called limits [] records = records
all_called limits (c ∷ cs) records = all_called limits cs (called limits c records)
