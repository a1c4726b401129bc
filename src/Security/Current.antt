-- ===== src/Security/Current.antt =====
-- Rotations keep one active session of a device, the one with the device's epoch
-- (backend/src/jarvis/security/session_auth.py).
use mathlib.Core.Path.{subst}
use sriee.Base.{
  ◌+◌, ◌≡◌, inl, inr, refl, Bool, true, false, Option, none, some, ◌==◌, str_eq, str_beq_iff,
  nat_eq, sym, ap, ◌∙◌, Bool-cases, some_injective,
}
use sriee.Text.{Str}
use sriee.Dict.{
  lookup, insert, contains, lookup-insert_self, lookup-insert_ne, lookup-insert_new,
  lookup-insert_cases, insert-IsDistinct,
}
use sriee.Security.Desktop.{SessionRecord, is_active_session}
use sriee.Security.Authority.{
  SessionDevice, Authority, Rotation, next_session, advanced, revoke, install,
}
use sriee.Security.Valid.{IsKeyed, insert-IsKeyed, IsValid, IsFree}

none-some : {A : Type 0} (o : Option Str) {i : Str} → o ≡ none → o ≡ some i → A
none-some o h k = absurd (cc)

differ : (b : Bool) {A : Type 0} → b ≡ true → b ≡ false → A
differ b h k = absurd (cc)

module _ {V : Type 0} where
  pub IsFree-none :
      (own : Str) (a : Authority V)
      → IsValid a
      → lookup own a.active_session_by_device ≡ none
      → IsFree own a
  IsFree-none own a v none_yet = record {
    registered = v.registered;
    distinct = v.distinct;
    named = v.named;
    current = λ d i other h. v.current d i h;
    only = λ i s h k. elim (Bool-cases (own == s.device_id)) [
      | inl same ↦ none-some (lookup own a.active_session_by_device) none_yet (
          ap (λ (d : Str). lookup d a.active_session_by_device)
            ((str_beq_iff own s.device_id).0 same)
          ∙ v.only i s h k)
      | inr other ↦ (other, v.only i s h k)
    ];
    epochs = v.epochs;
  }

  -- The session that a device had is revoked.
  pub IsFree-some :
      (own i : Str) (prior : SessionRecord V) (a : Authority V)
      → IsValid a
      → lookup own a.active_session_by_device ≡ some i
      → lookup i a.sessions ≡ some prior
      → prior.device_id ≡ own
      → IsFree own (record a { sessions = insert i (revoke prior) a.sessions })
  IsFree-some own i prior a v held there of_own = record {
    registered = v.registered;
    distinct = insert-IsDistinct i (revoke prior) a.sessions v.distinct;
    named = λ j s h. elim (lookup-insert_cases i j (revoke prior) a.sessions h) [
      | inl e ↦ ap (λ (t : SessionRecord V). t.session_id) (sym e.1) ∙ v.named i prior there ∙ e.0
      | inr e ↦ v.named j s e.1
    ];
    current = λ d j other h.
        let c = v.current d j h in
        elim (Bool-cases (i == j)) [
          | inl same ↦
              let here = ap (λ (k : Str). lookup k a.sessions) ((str_beq_iff i j).0 same) in
              let one : prior ≡ c.0 = some_injective (sym there ∙ here ∙ c.1) in
              differ (own == d)
                ((str_beq_iff own d).1
                  (sym of_own ∙ ap (λ (t : SessionRecord V). t.device_id) one ∙ c.3))
                other
          | inr new ↦ (c.0, lookup-insert_ne i j (revoke prior) a.sessions new ∙ c.1, c.2, c.3)
        ];
    only = λ j s h k. elim (lookup-insert_cases i j (revoke prior) a.sessions h) [
      | inl e ↦
          differ (is_active_session s.status) k
            (ap (λ (t : SessionRecord V). is_active_session t.status) (sym e.1))
      | inr e ↦
          let at_own = v.only j s e.1 k in
          elim (Bool-cases (own == s.device_id)) [
            | inl same ↦
                differ (i == j)
                  ((str_beq_iff i j).1 (
                    some_injective (
                      sym held
                      ∙ ap (λ (d : Str). lookup d a.active_session_by_device)
                          ((str_beq_iff own s.device_id).0 same)
                      ∙ at_own)))
                  e.0
            | inr other ↦ (other, at_own)
          ]
    ];
    epochs = λ j s h k. elim (lookup-insert_cases i j (revoke prior) a.sessions h) [
      | inl e ↦
          differ (is_active_session s.status) k
            (ap (λ (t : SessionRecord V). is_active_session t.status) (sym e.1))
      | inr e ↦ v.epochs j s e.1 k
    ];
  }

  -- The new session of a device that has none.
  pub install-IsValid :
      (i : Str) (q : Rotation V) (d : SessionDevice V) (a : Authority V)
      → IsFree q.device_id a
      → d.record_of.device_id ≡ q.device_id
      → contains i a.sessions ≡ false
      → IsValid (install i q d a)
  unfolding install
  install-IsValid i q d a v same new = record {
    registered =
        subst (λ (k : Str). IsKeyed (insert k (advanced (q.expected_epoch + 1) d) a.devices)) same
          (insert-IsKeyed (advanced (q.expected_epoch + 1) d) a.devices v.registered);
    distinct = insert-IsDistinct i (next_session i q) a.sessions v.distinct;
    named = λ j s h. elim (lookup-insert_cases i j (next_session i q) a.sessions h) [
      | inl e ↦ ap (λ (t : SessionRecord V). t.session_id) (sym e.1) ∙ e.0
      | inr e ↦ v.named j s e.1
    ];
    current = λ x j h. elim (lookup-insert_cases q.device_id x i a.active_session_by_device h) [
      | inl e ↦ rw (sym e.0) (
          rw (sym e.1)
            (next_session i q, lookup-insert_self i (next_session i q) a.sessions, refl, refl))
      | inr e ↦
          let c = v.current x j e.0 e.1 in
          (c.0, lookup-insert_new i j (next_session i q) a.sessions new c.1, c.2, c.3)
    ];
    only = λ j s h k. elim (lookup-insert_cases i j (next_session i q) a.sessions h) [
      | inl e ↦ rw (sym e.0) (
          ap
            (λ (t : SessionRecord V).
              lookup t.device_id (insert q.device_id i a.active_session_by_device))
            (sym e.1)
          ∙ lookup-insert_self q.device_id i a.active_session_by_device)
      | inr e ↦
          let o = v.only j s e.1 k in
          lookup-insert_ne q.device_id s.device_id i a.active_session_by_device o.0 ∙ o.1
    ];
    epochs = λ j s h k. elim (lookup-insert_cases i j (next_session i q) a.sessions h) [
      | inl e ↦ (
        advanced (q.expected_epoch + 1) d,
        ap
              (λ (t : SessionRecord V).
                lookup t.device_id
                  (insert q.device_id (advanced (q.expected_epoch + 1) d) a.devices))
              (sym e.1)
            ∙ lookup-insert_self q.device_id (advanced (q.expected_epoch + 1) d) a.devices,
        ap (λ (t : SessionRecord V). t.session_epoch) e.1,
      )
      | inr e ↦
          let o = v.only j s e.1 k in
          let p = v.epochs j s e.1 k in
          (
            p.0,
            lookup-insert_ne q.device_id s.device_id (advanced (q.expected_epoch + 1) d) a.devices
                  o.0
                ∙ p.1,
            p.2,
          )
    ];
  }
