-- ===== src/Security/Valid.antt =====
-- What holds of an authority of sessions at any time (backend/src/jarvis/security/session_auth.py).
use sriee.Base.{
  List, [], ◌∷◌, ℕ, ◌≡◌, inl, inr, refl, Bool, true, false, ◌||◌, Option, none, some, ◌==◌, str_eq,
  nat_eq, ltb, sym, ap, ◌∙◌, arith,
}
use sriee.Text.{Str}
use sriee.Dict.{
  Dict, lookup, insert, if_kept, IsDistinct, lookup-keep_values, keep_values-IsDistinct,
  lookup-insert_cases,
}
use sriee.Security.Desktop.{SessionRecord, is_active_session}
use sriee.Security.Authority.{SessionDevice, Authority, kept_sessions, keyed, new_authority}

module _ {V : Type 0} where
  abbrev pub IsActive : SessionRecord V → Type 0
  IsActive s = is_active_session s.status ≡ true

  -- The session has the epoch of its device.
  abbrev pub HasEpoch : Authority V → SessionRecord V → Type 0
  HasEpoch a s =
      (d : SessionDevice V) × (lookup s.device_id a.devices ≡ some d)
      × (d.record_of.session_epoch ≡ s.session_epoch)

  -- The session `i` is there, active and of the device `d`.
  abbrev pub IsCurrent : Authority V → Str → Str → Type 0
  IsCurrent a d i =
      (s : SessionRecord V) × (lookup i a.sessions ≡ some s) × IsActive s × (s.device_id ≡ d)

  -- Each device stands under its identifier.
  abbrev pub IsKeyed : Dict Str (SessionDevice V) → Type 0
  IsKeyed d = (i : Str) (r : SessionDevice V) → lookup i d ≡ some r → r.record_of.device_id ≡ i

  pub insert-IsKeyed :
      (r : SessionDevice V) (d : Dict Str (SessionDevice V))
      → IsKeyed d
      → IsKeyed (insert r.record_of.device_id r d)
  insert-IsKeyed r d k i e h = elim (lookup-insert_cases r.record_of.device_id i r d h) [
    | inl here ↦ ap (λ (x : SessionDevice V). x.record_of.device_id) (sym here.1) ∙ here.0
    | inr there ↦ k i e there.1
  ]

  keyed-IsKeyed :
      (rs : List (SessionDevice V)) (d : Dict Str (SessionDevice V))
      → IsKeyed d
      → IsKeyed (keyed d rs)
  unfolding keyed
  keyed-IsKeyed [] d k = k
  keyed-IsKeyed (r ∷ rs) d k =
      keyed-IsKeyed rs (insert r.record_of.device_id r d) (insert-IsKeyed r d k)

  pub record IsValid (a : Authority V) : Type 0 where
    pub registered : IsKeyed a.devices
    pub distinct : IsDistinct a.sessions
    pub named : (i : Str) (s : SessionRecord V) → lookup i a.sessions ≡ some s → s.session_id ≡ i
    pub current : (d i : Str) → lookup d a.active_session_by_device ≡ some i → IsCurrent a d i
    pub only :
        (i : Str) (s : SessionRecord V)
        → lookup i a.sessions ≡ some s
        → IsActive s
        → lookup s.device_id a.active_session_by_device ≡ some i
    pub epochs :
        (i : Str) (s : SessionRecord V) → lookup i a.sessions ≡ some s → IsActive s → HasEpoch a s

  -- The same of every device but one, which has no active session.
  pub record IsFree (own : Str) (a : Authority V) : Type 0 where
    pub registered : IsKeyed a.devices
    pub distinct : IsDistinct a.sessions
    pub named : (i : Str) (s : SessionRecord V) → lookup i a.sessions ≡ some s → s.session_id ≡ i
    pub current :
        (d i : Str)
        → (own == d) ≡ false
        → lookup d a.active_session_by_device ≡ some i
        → IsCurrent a d i
    pub only :
        (i : Str) (s : SessionRecord V)
        → lookup i a.sessions ≡ some s
        → IsActive s
        → ((own == s.device_id) ≡ false) × (lookup s.device_id a.active_session_by_device ≡ some i)
    pub epochs :
        (i : Str) (s : SessionRecord V) → lookup i a.sessions ≡ some s → IsActive s → HasEpoch a s

  pub new_authority-IsValid : (devices : List (SessionDevice V)) → IsValid (new_authority devices)
  unfolding new_authority lookup
  new_authority-IsValid devices = record {
    registered = keyed-IsKeyed devices [] (λ i r h. absurd (cc));
    distinct = tt;
    named = λ i s h. absurd (cc);
    current = λ d i h. absurd (cc);
    only = λ i s h k. absurd (cc);
    epochs = λ i s h k. absurd (cc);
  }

  if_kept-some :
      (p : SessionRecord V → Bool) (o : Option (SessionRecord V)) (s : SessionRecord V)
      → if_kept p o ≡ some s
      → o ≡ some s
  if_kept-some p none s h = cc
  if_kept-some p (some t) s h = ground arith

  abbrev pub stays : ℕ → SessionRecord V → Bool
  stays t s = is_active_session s.status || ltb t s.expires_at

  pub lookup-kept_sessions :
      (t : ℕ) (i : Str) (d : Dict Str (SessionRecord V))
      → IsDistinct d
      → lookup i (kept_sessions t d) ≡ if_kept (stays t) (lookup i d)
  unfolding kept_sessions
  lookup-kept_sessions t i d h = lookup-keep_values (stays t) i d h

  kept_sessions-IsDistinct :
      (t : ℕ) (d : Dict Str (SessionRecord V)) → IsDistinct d → IsDistinct (kept_sessions t d)
  unfolding kept_sessions
  kept_sessions-IsDistinct t d h = keep_values-IsDistinct (stays t) d h

  -- Forgetting what is neither active nor unexpired.
  pub kept_sessions-IsValid :
      (t : ℕ) (a : Authority V)
      → IsValid a
      → IsValid (record a { sessions = kept_sessions t a.sessions })
  kept_sessions-IsValid t a v =
      let was : (i : Str) (s : SessionRecord V)
          → lookup i (kept_sessions t a.sessions) ≡ some s
          → lookup i a.sessions ≡ some s =
        λ i s h.
          if_kept-some (stays t) (lookup i a.sessions) s
            (sym (lookup-kept_sessions t i a.sessions v.distinct) ∙ h) in
      record {
        registered = v.registered;
        distinct = kept_sessions-IsDistinct t a.sessions v.distinct;
        named = λ i s h. v.named i s (was i s h);
        current = λ d i h.
            let c = v.current d i h in
            (c.0, lookup-kept_sessions t i a.sessions v.distinct ∙ rw c.1 (rw c.2 refl), c.2, c.3);
        only = λ i s h k. v.only i s (was i s h) k;
        epochs = λ i s h k. v.epochs i s (was i s h) k;
      }
