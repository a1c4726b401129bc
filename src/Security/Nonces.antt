-- ===== src/Security/Nonces.antt =====
-- `InMemoryNonceStore` of backend/src/jarvis/security/desktop_auth.py, and what it promises.
use sriee.Base.{
  ℕ, ◌≤◌, ◌≡◌, ◌↔◌, refl, Bool, true, false, ◌&&◌, Option, none, some, List, [], ◌∷◌, arith, Eq,
  ◌==◌, str_eq, str_beq, str_beq_iff, ltb, any, if◌then◌else◌, Bool-cases, inl, inr, sym, ap, ◌∙◌,
}
use sriee.Text.{Str}
use sriee.Dict.{
  Dict, is_some, lookup, contains, insert, keep_values, if_kept, IsDistinct, lookup-keep_values,
  keep_values-IsDistinct, lookup-insert, insert-IsDistinct,
}

-- The key of `_seen`: a session and a nonce.
abbrev pub Key : Type 0
Key = Str × Str

abbrev pub key_beq : Key → Key → Bool
key_beq s t = str_beq s.0 t.0 && str_beq s.1 t.1

pub key_beq_iff : (s t : Key) → (key_beq s t ≡ true) ↔ (s ≡ t)
key_beq_iff (a, b) (x, y) = ground (arith, str_beq_iff a x, str_beq_iff b y)

instance abbrev pub key_eq : Eq Key
key_eq = record { beq = key_beq; beq_iff = key_beq_iff }

-- `_seen`: when each nonce expires.
abbrev pub Nonces : Type 0
Nonces = Dict Key ℕ

-- `consume`, with what the clock says.
unfoldable pub consume : ℕ → Key → ℕ → Nonces → Nonces × Bool
unfolding lookup insert keep_values
consume now key expires_at seen =
    let live = keep_values (λ (expiry : ℕ). ltb now expiry) seen in
    if contains key live then (live, false) else (insert key expires_at live, true)

-- A call of `consume`.
pub record Use : Type 0 where
  pub now : ℕ
  pub key : Key
  pub expires_at : ℕ

-- The answers to a sequence of calls.
unfoldable pub answers : Nonces → List Use → List Bool
unfolding consume
answers seen [] = []
answers seen (u ∷ us) =
    let (next, fresh) = consume u.now u.key u.expires_at seen in fresh ∷ answers next us

-- What the store promises: a use is accepted unless a use of the same session and nonce has been accepted before
-- that is not yet expired. Nothing is forgotten.
abbrev pub is_replay : ℕ → Key → List Use → Bool
is_replay now key past = any (λ (u : Use). u.key == key && ltb now u.expires_at) past

pub promised : List Use → List Use → List Bool
promised past [] = []
promised past (u ∷ us) =
    let rejected = false ∷ promised past us in
    let accepted = true ∷ promised (u ∷ past) us in
    if is_replay u.now u.key past then rejected else accepted

-- The clock does not run backwards.
abbrev pub Ordered : ℕ → List Use → Type 0
Ordered t [] = Unit
Ordered t (u ∷ us) = (t ≤ u.now) × Ordered u.now us

abbrev is_live : ℕ → Option ℕ → Bool
is_live now none = false
is_live now (some expiry) = ltb now expiry

-- From the time `t` on, the store and the past agree on what is a replay.
abbrev Tracks : ℕ → Nonces → List Use → Type 0
Tracks t seen past =
    (now : ℕ) (key : Key) → t ≤ now → is_live now (lookup key seen) ≡ is_replay now key past

live_later :
    (t now : ℕ) (o : Option ℕ)
    → t ≤ now
    → is_live now (if_kept (λ (x : ℕ). ltb t x) o) ≡ is_live now o
live_later t now none h = refl
live_later t now (some x) h = ground arith

live_earlier : (t now : ℕ) (o : Option ℕ) → t ≤ now → is_live t o ≡ false → is_live now o ≡ false
live_earlier t now none h e = refl
live_earlier t now (some x) h e = ground arith

kept_live : (t : ℕ) (o : Option ℕ) → is_some (if_kept (λ (x : ℕ). ltb t x) o) ≡ is_live t o
kept_live t none = refl
kept_live t (some x) = ground arith

is_replay_live :
    (t now : ℕ) (key : Key) (past : List Use)
    → t ≤ now
    → is_replay t key past ≡ false
    → is_replay now key past ≡ false
is_replay_live t now key [] h e = refl
is_replay_live t now key (u ∷ us) h e = ground (arith, is_replay_live t now key us h)

Tracks-rejected :
    (t : ℕ) (seen : Nonces) (past : List Use)
    → IsDistinct seen
    → Tracks t seen past
    → Tracks t (keep_values (λ (x : ℕ). ltb t x) seen) past
Tracks-rejected t seen past d h now key le =
    rw (lookup-keep_values (λ (x : ℕ). ltb t x) key seen d)
      (live_later t now (lookup key seen) le ∙ h now key le)

if_same : (b : Bool) → b ≡ (if b then true else false)
if_same true = refl
if_same false = refl

Tracks-accepted :
    (u : Use) (seen : Nonces) (past : List Use)
    → is_replay u.now u.key past ≡ false
    → Tracks u.now seen past
    → Tracks u.now (insert u.key u.expires_at seen) (u ∷ past)
Tracks-accepted u seen past new h now key le =
    rw (lookup-insert u.key key u.expires_at seen) (elim (Bool-cases (u.key == key)) [
      | inl same ↦
          let own =
            ap (λ (k : Key). is_replay u.now k past) (sym ((key_beq_iff u.key key).0 same)) ∙ new in
          rw same (rw (is_replay_live u.now now key past le own) (if_same (ltb now u.expires_at)))
      | inr other ↦ rw other (h now key le)
    ])

consume-replayed :
    (u : Use) (seen : Nonces) (past : List Use)
    → IsDistinct seen
    → Tracks u.now seen past
    → contains u.key (keep_values (λ (x : ℕ). ltb u.now x) seen) ≡ is_replay u.now u.key past
consume-replayed u seen past d h =
    rw (lookup-keep_values (λ (x : ℕ). ltb u.now x) u.key seen d)
      (kept_live u.now (lookup u.key seen) ∙ h u.now u.key (omega arith))

answers-promised :
    (t : ℕ) (us : List Use) (seen : Nonces) (past : List Use)
    → IsDistinct seen
    → Tracks t seen past
    → Ordered t us
    → answers seen us ≡ promised past us
unfolding answers promised consume
answers-promised t [] seen past d h o = refl
answers-promised t (u ∷ us) seen past d h o =
    let live = keep_values (λ (x : ℕ). ltb u.now x) seen in
    let at_now : Tracks u.now seen past = λ now key le. h now key (omega (arith, o.0)) in
    let kept : Tracks u.now live past = Tracks-rejected u.now seen past d at_now in
    let fine = keep_values-IsDistinct (λ (x : ℕ). ltb u.now x) seen d in
    let same = consume-replayed u seen past d at_now in
    elim (Bool-cases (is_replay u.now u.key past)) [
      | inl old ↦ rw (same ∙ old) (
          rw old (
            ap (λ (bs : List Bool). false ∷ bs)
              (answers-promised u.now us live past fine kept o.1)))
      | inr new ↦ rw (same ∙ new) (
          rw new (
            ap (λ (bs : List Bool). true ∷ bs)
              (answers-promised u.now us (insert u.key u.expires_at live) (u ∷ past)
                (insert-IsDistinct u.key u.expires_at live fine)
                (Tracks-accepted u live past new kept) o.1)))
    ]

-- The nonce store refines its promise while the clock does not run backwards: although it forgets the nonces that have
-- expired, a new store answers any sequence of uses as one that remembers every accepted use would.
pub answers-eq-promised : (us : List Use) → Ordered 0 us → answers [] us ≡ promised [] us
unfolding lookup
answers-eq-promised us o = answers-promised 0 us [] [] tt (λ now key le. refl) o
