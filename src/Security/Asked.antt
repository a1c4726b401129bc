-- ===== src/Security/Asked.antt =====
-- A challenge is issued to an active device while there is room (backend/src/jarvis/security/session_auth.py).
use Prim.Native.Nat.{◌/◌}
use sriee.Base.{
  ℕ, ◌+◌, ◌*◌, ◌<◌, ◌≡◌, refl, true, false, none, some, List, [], ◌∷◌, ◌++◌, str_eq, nat_eq, leb,
  ltb, length, map, all, arith, sym, ap, ◌∙◌,
}
use sriee.Text.{Str, codes, is_word, is_alnum, repeated}
use sriee.Dict.{lookup, insert, is_some, if_kept, keep_values, IsDistinct, lookup-keep_values}
use sriee.Security.Desktop.{is_active_device}
use sriee.Security.Headers.{is_nil}
use sriee.Security.Authority.{SessionDevice}
use sriee.Security.Valid.{IsValid}
use sriee.Security.Challenges.{
  SessionChallenge, Challenges, ChallengeLimits, count_of, issue, Issued, issued,
}
use sriee.Security.Session.{
  valid_challenge, is_challenge_id, is_backend_id, is_device_id, is_nonce, SessionService, Sessions,
  new_challenge, kept_challenge, issue_session_challenge,
}
use sriee.Security.Base64.{encode_bytes, decode_bytes, letter, split}
use sriee.Security.Base64.RoundTrip.{
  AllBelow, split-AllBelow, length-map, length-split, decode_bytes-encode_bytes,
}

letter-is_word : (n : ℕ) → n < 64 → is_word (letter n) ≡ true
unfolding letter is_word is_alnum
letter-is_word n h = ground arith

all_letters : (ns : List ℕ) → AllBelow 64 ns → all is_word (map letter ns) ≡ true
all_letters [] h = refl
all_letters (n ∷ ns) h = rw (letter-is_word n h.0) (all_letters ns h.1)

is_nonce-encode_bytes :
    (bytes : List ℕ) → AllBelow 256 bytes → length bytes ≡ 32 → is_nonce (encode_bytes bytes) ≡ true
unfolding is_nonce repeated encode_bytes
is_nonce-encode_bytes bytes h size =
    let letters : length (map letter (split bytes)) ≡ 43 =
      length-map letter (split bytes) ∙ length-split bytes ∙ ap (λ (n : ℕ). (n * 8 + 5) / 6) size in
    rw (all_letters (split bytes) (split-AllBelow bytes h)) (rw letters refl)

decoded_nonce :
    (bytes : List ℕ)
    → AllBelow 256 bytes
    → length bytes ≡ 32
    → (elim (decode_bytes 32 (encode_bytes bytes)) [ none ↦ false | some _ ↦ true ]) ≡ true
decoded_nonce bytes h size =
    rw
      (ap (λ (n : ℕ). decode_bytes n (encode_bytes bytes)) (sym size)
        ∙ decode_bytes-encode_bytes bytes h)
      refl

abbrev pub live_at : ℕ → Challenges → Challenges
live_at now d = keep_values (λ (r : SessionChallenge). ltb now r.expires_at) d

-- The store has room for the challenge.
pub record HasRoom (limits : ChallengeLimits) (now : ℕ) (c : SessionChallenge) (d : Challenges)
    : Type 0 where
  pub is_new : lookup c.challenge_id d ≡ none
  pub in_all : length (live_at now d) < limits.max_records
  pub of_device : count_of c.device_id (live_at now d) < limits.max_per_device

below : (a b : ℕ) → a < b → leb b a ≡ false
below a b h = ground arith

pub HasRoom-issue :
    (limits : ChallengeLimits) (now : ℕ) (c : SessionChallenge) (d : Challenges)
    → IsDistinct d
    → HasRoom limits now c d
    → issue limits now c d ≡ (insert c.challenge_id c (live_at now d), issued)
unfolding issue
HasRoom-issue limits now c d distinct m =
    let absent =
      lookup-keep_values (λ (r : SessionChallenge). ltb now r.expires_at) c.challenge_id d distinct
      ∙ ap (if_kept (λ (r : SessionChallenge). ltb now r.expires_at)) m.is_new in
    rw (ap is_some absent) (rw (below _ _ m.in_all) (rw (below _ _ m.of_device) refl))

module _ {V : Type 0} where
  -- What the challenge of a device needs: well-formed identifiers, a nonce of 32 bytes, and a lifetime.
  pub record CanAsk (service : SessionService V) (i : Str) (nonce : List ℕ) (device_id : Str)
      (d : SessionDevice V) (s : Sessions V) : Type 0 where
    pub registered : lookup device_id s.authority.devices ≡ some d
    pub is_active : is_active_device d.record_of.status ≡ true
    pub has_actor : is_nil d.record_of.actor_id ≡ false
    pub own_id : is_device_id device_id ≡ true
    pub new_id : is_challenge_id (codes "chl_" ++ i) ≡ true
    pub backend : is_backend_id service.backend_instance_id ≡ true
    pub bytes : AllBelow 256 nonce
    pub size : length nonce ≡ 32
    pub lifetime : 0 < service.challenge_lifetime

  pub new_challenge-valid :
      (service : SessionService V) (i : Str) (nonce : List ℕ) (now : ℕ) (device_id : Str)
      (d : SessionDevice V) (s : Sessions V)
      → IsValid s.authority
      → CanAsk service i nonce device_id d s
      → valid_challenge (new_challenge service i nonce now d) ≡ true
  unfolding valid_challenge
  new_challenge-valid service i nonce now device_id d s v m = rw m.new_id (
      rw (is_nonce-encode_bytes nonce m.bytes m.size) (
        rw m.backend (
          rw (ap is_device_id (v.registered device_id d m.registered) ∙ m.own_id) (
            rw m.has_actor (
              rw (before now service.challenge_lifetime m.lifetime)
                (decoded_nonce nonce m.bytes m.size))))))
    where
      before : (a l : ℕ) → 0 < l → ltb a (a + l) ≡ true
      before a l h = ground arith

  asked :
      (service : SessionService V) (i : Str) (nonce : List ℕ) (now at : ℕ) (device_id : Str)
      (d : SessionDevice V) (s : Sessions V) (o : Challenges × Issued)
      → CanAsk service i nonce device_id d s
      → valid_challenge (new_challenge service i nonce now d) ≡ true
      → issue service.limits at (new_challenge service i nonce now d) s.challenges ≡ o
      → issue_session_challenge service i nonce now at device_id s
        ≡ kept_challenge service s (new_challenge service i nonce now d) o
  unfolding issue_session_challenge
  asked service i nonce now at device_id d s o m valid e = rw m.own_id (
      rw (m.registered, issue_session_challenge)
        (rw m.is_active
          (rw valid (ap (kept_challenge service s (new_challenge service i nonce now d)) e))))

  -- An active device that asks gets its challenge while there is room.
  pub CanAsk-issues :
      (service : SessionService V) (i : Str) (nonce : List ℕ) (now at : ℕ) (device_id : Str)
      (d : SessionDevice V) (s : Sessions V)
      → IsValid s.authority
      → IsDistinct s.challenges
      → CanAsk service i nonce device_id d s
      → HasRoom service.limits at (new_challenge service i nonce now d) s.challenges
      → issue_session_challenge service i nonce now at device_id s ≡ (
          let c = new_challenge service i nonce now d in
          (record s { challenges = insert c.challenge_id c (live_at at s.challenges) }, some c))
  CanAsk-issues service i nonce now at device_id d s v distinct m room =
      asked service i nonce now at device_id d s _ m
        (new_challenge-valid service i nonce now device_id d s v m)
        (HasRoom-issue service.limits at (new_challenge service i nonce now d) s.challenges distinct
          room)
