-- ===== src/Security/Stored.antt =====
-- What a store of challenges holds (backend/src/jarvis/security/session_auth.py).
use sriee.Base.{
  ℕ, ◌+◌, ◌≤◌, ◌≡◌, Bool, true, false, Option, none, some, List, [], ◌∷◌, ◌==◌, str_eq, str_beq_iff,
  leb, ltb, length, if◌then◌else◌, arith, sym, ap, ◌∙◌, Bool-cases, inl, inr,
}
use sriee.Text.{Str}
use sriee.Dict.{
  lookup, contains, insert, pop, keep_values, if_kept, IsDistinct, length-pop-le, length-insert,
  lookup-keep_values, keep_values-IsDistinct, insert-IsDistinct, pop-IsDistinct,
  lookup-insert_cases, lookup-pop,
}
use sriee.Security.Challenges.{
  SessionChallenge, Challenges, ChallengeLimits, count_of, issue, consume_challenge, is_challenge,
  Call, issuing, consuming, called, all_called,
}

-- Each challenge stands under its identifier.
abbrev pub IsNamed : Challenges → Type 0
IsNamed records = (i : Str) (c : SessionChallenge) → lookup i records ≡ some c → c.challenge_id ≡ i

pub record IsStored (limits : ChallengeLimits) (records : Challenges) : Type 0 where
  pub in_all : length records ≤ limits.max_records
  pub of_each : (device : Str) → count_of device records ≤ limits.max_per_device
  pub distinct : IsDistinct records
  pub named : IsNamed records

length-keep_values :
    (p : SessionChallenge → Bool) (d : Challenges) → length (keep_values p d) ≤ length d
unfolding keep_values
length-keep_values p [] = ground arith
length-keep_values p ((i, c) ∷ d) = ground (arith, length-keep_values p d)

count_of-keep_values :
    (device : Str) (p : SessionChallenge → Bool) (d : Challenges)
    → count_of device (keep_values p d) ≤ count_of device d
unfolding keep_values count_of
count_of-keep_values device p [] = ground arith
count_of-keep_values device p ((i, c) ∷ d) = ground (arith, count_of-keep_values device p d)

count_of-pop : (device i : Str) (d : Challenges) → count_of device (pop i d) ≤ count_of device d
unfolding pop count_of
count_of-pop device i [] = ground arith
count_of-pop device i ((j, c) ∷ d) = ground (arith, count_of-pop device i d)

count_of-insert :
    (device i : Str) (c : SessionChallenge) (d : Challenges)
    → contains i d ≡ false
    → count_of device (insert i c d)
      ≡ (if c.device_id == device then count_of device d + 1 else count_of device d)
unfolding lookup insert count_of
count_of-insert device i c [] h = ground arith
count_of-insert device i c ((j, e) ∷ d) h = ground (arith, count_of-insert device i c d)

if_kept-some :
    (p : SessionChallenge → Bool) (o : Option SessionChallenge) (c : SessionChallenge)
    → if_kept p o ≡ some c
    → o ≡ some c
if_kept-some p none c h = cc
if_kept-some p (some e) c h = ground arith

keep_values-IsStored :
    (limits : ChallengeLimits) (p : SessionChallenge → Bool) (d : Challenges)
    → IsStored limits d
    → IsStored limits (keep_values p d)
keep_values-IsStored limits p d b = record {
  in_all = omega (arith, length-keep_values p d, b.in_all);
  of_each = λ device. omega (arith, count_of-keep_values device p d, b.of_each device);
  distinct = keep_values-IsDistinct p d b.distinct;
  named = λ i c h.
      b.named i c (if_kept-some p (lookup i d) c (sym (lookup-keep_values p i d b.distinct) ∙ h));
}

otherwise :
    (b : Bool) (o : Option SessionChallenge) (c : SessionChallenge)
    → (if b then none else o) ≡ some c
    → o ≡ some c
otherwise true o c h = cc
otherwise false o c h = h

pop-IsStored :
    (limits : ChallengeLimits) (i : Str) (d : Challenges)
    → IsStored limits d
    → IsStored limits (pop i d)
pop-IsStored limits i d b = record {
  in_all = omega (arith, length-pop-le i d, b.in_all);
  of_each = λ device. omega (arith, count_of-pop device i d, b.of_each device);
  distinct = pop-IsDistinct i d b.distinct;
  named = λ j c h. b.named j c (otherwise (i == j) (lookup j d) c (sym (lookup-pop i j d) ∙ h));
}

insert-IsStored :
    (limits : ChallengeLimits) (c : SessionChallenge) (d : Challenges)
    → IsStored limits d
    → contains c.challenge_id d ≡ false
    → leb limits.max_records (length d) ≡ false
    → leb limits.max_per_device (count_of c.device_id d) ≡ false
    → IsStored limits (insert c.challenge_id c d)
insert-IsStored limits c d b new room own = record {
  in_all = ground (arith, length-insert c.challenge_id c d);
  of_each = λ device. elim (Bool-cases (c.device_id == device)) [
    | inl same ↦
        let at_own = ap (λ (i : Str). count_of i d) ((str_beq_iff c.device_id device).0 same) in
        ground (arith, count_of-insert device c.challenge_id c d new, at_own)
    | inr other ↦ ground (arith, count_of-insert device c.challenge_id c d new, b.of_each device)
  ];
  distinct = insert-IsDistinct c.challenge_id c d b.distinct;
  named = λ i e h. elim (lookup-insert_cases c.challenge_id i c d h) [
    | inl here ↦ ap (λ (r : SessionChallenge). r.challenge_id) (sym here.1) ∙ here.0
    | inr there ↦ b.named i e there.1
  ];
}

pub issue-IsStored :
    (limits : ChallengeLimits) (now : ℕ) (c : SessionChallenge) (d : Challenges)
    → IsStored limits d
    → IsStored limits (issue limits now c d).0
unfolding issue
issue-IsStored limits now c d b =
    let p : SessionChallenge → Bool = λ r. ltb now r.expires_at in
    let live = keep_values p d in
    let kept = keep_values-IsStored limits p d b in
    elim (Bool-cases (contains c.challenge_id live)) [
      | inl old ↦ rw old kept
      | inr new ↦ rw new (elim (Bool-cases (leb limits.max_records (length live))) [
        | inl full ↦ rw full kept
        | inr room ↦
            rw room (elim (Bool-cases (leb limits.max_per_device (count_of c.device_id live))) [
              | inl full ↦ rw full kept
              | inr own ↦ rw own (insert-IsStored limits c live kept new room own)
            ])
      ])
    ]

pub consume-IsStored :
    (limits : ChallengeLimits) (i nonce : Str) (d : Challenges)
    → IsStored limits d
    → IsStored limits (consume_challenge i nonce d).0
unfolding consume_challenge
consume-IsStored limits i nonce d b = elim (Bool-cases (is_challenge (lookup i d) nonce)) [
  | inl h ↦ rw h (pop-IsStored limits i d b)
  | inr h ↦ rw h b
]

all_called-IsStored :
    (limits : ChallengeLimits) (cs : List Call) (d : Challenges)
    → IsStored limits d
    → IsStored limits (all_called limits cs d)
unfolding all_called called
all_called-IsStored limits [] d b = b
all_called-IsStored limits (issuing now c ∷ cs) d b =
    all_called-IsStored limits cs _ (issue-IsStored limits now c d b)
all_called-IsStored limits (consuming i nonce ∷ cs) d b =
    all_called-IsStored limits cs _ (consume-IsStored limits i nonce d b)

-- Whatever challenges are issued and consumed, in any order and at any times, a store that began empty never holds
-- more than its limit, nor more of one device than the limit of a device, and holds each once, under its own
-- identifier.
pub challenges-IsStored :
    (limits : ChallengeLimits) (cs : List Call) → IsStored limits (all_called limits cs [])
unfolding count_of lookup
challenges-IsStored limits cs = all_called-IsStored limits cs [] (record {
  in_all = omega arith;
  of_each = λ device. omega arith;
  distinct = tt;
  named = λ i c h. absurd (cc);
})
