-- ===== src/Security/Rotations.antt =====
-- Any sequence of rotations of an authority (backend/src/jarvis/security/session_auth.py).
use sriee.Base.{
  ℕ, ◌+◌, ◌≡◌, ◌≢◌, inl, inr, refl, false, Option, none, some, List, [], ◌∷◌, ◌==◌, str_eq,
  str_beq_iff, nat_eq, sym, ap, ◌∙◌, Bool-cases, Option-cases,
}
use sriee.Text.{Str}
use sriee.Dict.{
  Dict, lookup, contains, insert, is_some, if_kept, lookup-insert_ne, lookup-insert_self,
}
use sriee.Security.Desktop.{SessionRecord}
use sriee.Security.Authority.{
  SessionDevice, Authority, Rotation, Rotated, conflict, session, key_error, kept_sessions,
  next_session, install, advanced, revoke, may_rotate, replace_session, rotate_session,
  new_authority,
}
use sriee.Security.Valid.{
  IsValid, new_authority-IsValid, lookup-kept_sessions, kept_sessions-IsValid, stays,
}
use sriee.Security.Current.{IsFree-none, IsFree-some, install-IsValid}

module _ {V : Type 0} where
  -- An authority that is as it should be, and an answer that is no `KeyError`.
  abbrev pub IsKept : Authority V × Rotated V → Type 0
  IsKept r = IsValid r.0 × (r.1 ≢ key_error)

  present :
      {A : Type 0} (o : Option (SessionRecord V)) {s : SessionRecord V}
      → o ≡ some s
      → is_some o ≡ false
      → A
  present o h k = absurd (cc)

  new_revoked :
      (i j : Str) (prior : SessionRecord V) (d : Dict Str (SessionRecord V))
      → contains i d ≡ false
      → lookup j d ≡ some prior
      → contains i (insert j (revoke prior) d) ≡ false
  new_revoked i j prior d new there = elim (Bool-cases (j == i)) [
    | inl same ↦
        present (lookup i d) (sym (ap (λ (k : Str). lookup k d) ((str_beq_iff j i).0 same)) ∙ there)
          new
    | inr other ↦ rw (lookup-insert_ne j i (revoke prior) d other) new
  ]

  replace_session-IsKept :
      (i : Str) (q : Rotation V) (d : SessionDevice V) (a : Authority V)
      → IsValid a
      → d.record_of.device_id ≡ q.device_id
      → contains i a.sessions ≡ false
      → IsKept (replace_session i q d a)
  unfolding replace_session
  replace_session-IsKept i q d a v same new =
      elim (Option-cases (lookup q.device_id a.active_session_by_device)) [
        | inl e ↦
            rw (e, replace_session)
              (install-IsValid i q d a (IsFree-none q.device_id a v e) same new, λ h. cc)
        | inr (j, e) ↦
            let c = v.current q.device_id j e in
            rw (e, c.1, replace_session)
              (
                install-IsValid i q d (record a { sessions = insert j (revoke c.0) a.sessions })
                    (IsFree-some q.device_id j c.0 a v e c.1 c.3) same
                    (new_revoked i j c.0 a.sessions new c.1),
                λ h. cc,
              )
      ]

  new_kept :
      (t : ℕ) (i : Str) (a : Authority V)
      → IsValid a
      → contains i a.sessions ≡ false
      → contains i (kept_sessions t a.sessions) ≡ false
  new_kept t i a v new =
      ap (λ (o : Option (SessionRecord V)). is_some o)
        (lookup-kept_sessions t i a.sessions v.distinct)
      ∙ absent_kept (lookup i a.sessions) new
    where
      absent_kept :
          (o : Option (SessionRecord V)) → is_some o ≡ false → is_some (if_kept (stays t) o) ≡ false
      absent_kept none h = refl
      absent_kept (some s) h = cc

  pub rotate_session-IsKept :
      (i : Str) (q : Rotation V) (a : Authority V)
      → IsValid a
      → contains i a.sessions ≡ false
      → IsKept (rotate_session i q a)
  unfolding rotate_session
  rotate_session-IsKept i q a v new =
      let w = kept_sessions-IsValid q.issued_at a v in
      elim (Option-cases (lookup q.device_id a.devices)) [
        | inl e ↦ rw (e, rotate_session) (w, λ h. cc)
        | inr (d, e) ↦
            rw (e, rotate_session)
              (elim (Bool-cases (may_rotate q d.record_of)) [
                | inl t ↦ rw t (
                    replace_session-IsKept i q d _ w (v.registered q.device_id d e)
                      (new_kept q.issued_at i a v new))
                | inr f ↦ rw f (w, λ h. cc)
              ])
      ]

  -- The session `i` is the one of the device now.
  pub record IsInstalled (i : Str) (q : Rotation V) (d : SessionDevice V) (b : Authority V)
      : Type 0 where
    pub is_latest : lookup q.device_id b.active_session_by_device ≡ some i
    pub has_session : lookup i b.sessions ≡ some (next_session i q)
    pub has_device : lookup q.device_id b.devices ≡ some (advanced (q.expected_epoch + 1) d)

  install-IsInstalled :
      (i : Str) (q : Rotation V) (d : SessionDevice V) (a : Authority V)
      → IsInstalled i q d (install i q d a)
  unfolding install
  install-IsInstalled i q d a = record {
    is_latest = lookup-insert_self q.device_id i a.active_session_by_device;
    has_session = lookup-insert_self i (next_session i q) a.sessions;
    has_device = lookup-insert_self q.device_id (advanced (q.expected_epoch + 1) d) a.devices;
  }

  -- What a rotation that answers with a session has done.
  abbrev pub Rotates :
      Str → Rotation V → Option (SessionDevice V) → Authority V × Rotated V → Type 0
  Rotates i q o (b, conflict) = Unit
  Rotates i q o (b, key_error) = Unit
  Rotates i q o (b, session r) =
      (d : SessionDevice V) × (o ≡ some d) × IsInstalled i q d b × (r ≡ next_session i q)

  replace_session-Rotates :
      (i : Str) (q : Rotation V) (d : SessionDevice V) (a : Authority V)
      → Rotates i q (some d) (replace_session i q d a)
  unfolding replace_session
  replace_session-Rotates i q d a =
      elim (Option-cases (lookup q.device_id a.active_session_by_device)) [
        | inl e ↦ rw (e, replace_session) (d, refl, install-IsInstalled i q d a, refl)
        | inr (j, e) ↦ elim (Option-cases (lookup j a.sessions)) [
          | inl gone ↦ rw (e, gone, replace_session) tt
          | inr (prior, there) ↦
              rw (e, there, replace_session)
                (
                  d,
                  refl,
                  install-IsInstalled i q d
                      (record a { sessions = insert j (revoke prior) a.sessions }),
                  refl,
                )
        ]
      ]

  pub rotate_session-Rotates :
      (i : Str) (q : Rotation V) (a : Authority V)
      → Rotates i q (lookup q.device_id a.devices) (rotate_session i q a)
  unfolding rotate_session
  rotate_session-Rotates i q a = elim (Option-cases (lookup q.device_id a.devices)) [
    | inl e ↦ rw (e, rotate_session) tt
    | inr (d, e) ↦
        rw (e, rotate_session)
          (elim (Bool-cases (may_rotate q d.record_of)) [
            | inl t ↦ rw t (replace_session-Rotates i q d _)
            | inr f ↦ rw f tt
          ])
  ]

  -- Calls of `rotate_session`, with the identifiers of the new sessions.
  unfoldable pub after : Authority V → List (Str × Rotation V) → Authority V
  after a [] = a
  after a ((i, q) ∷ calls) = after (rotate_session i q a).0 calls

  -- The identifiers are new.
  abbrev pub AllNew : Authority V → List (Str × Rotation V) → Type 0
  AllNew a [] = Unit
  AllNew a ((i, q) ∷ calls) =
      (contains i a.sessions ≡ false) × AllNew (rotate_session i q a).0 calls

  abbrev pub NoKeyError : Authority V → List (Str × Rotation V) → Type 0
  NoKeyError a [] = Unit
  NoKeyError a ((i, q) ∷ calls) =
      ((rotate_session i q a).1 ≢ key_error) × NoKeyError (rotate_session i q a).0 calls

  after-IsValid :
      (a : Authority V) (calls : List (Str × Rotation V))
      → IsValid a
      → AllNew a calls
      → IsValid (after a calls) × NoKeyError a calls
  unfolding after
  after-IsValid a [] v new = (v, tt)
  after-IsValid a ((i, q) ∷ calls) v new =
      let k = rotate_session-IsKept i q a v new.0 in
      let rest = after-IsValid (rotate_session i q a).0 calls k.0 new.1 in (rest.0, (k.1, rest.1))

  -- Whatever rotations an authority of registered devices is asked for, with new identifiers: each device stands
  -- under its own identifier; the session that is noted for a device is there, active and the device's; every active session is the one that is noted for its
  -- device and has the device's epoch, so that a device has one at most; and no rotation raises a `KeyError`.
  pub authority-IsValid :
      (devices : List (SessionDevice V)) (calls : List (Str × Rotation V))
      → AllNew (new_authority devices) calls
      → IsValid (after (new_authority devices) calls) × NoKeyError (new_authority devices) calls
  authority-IsValid devices calls new =
      after-IsValid (new_authority devices) calls (new_authority-IsValid devices) new
