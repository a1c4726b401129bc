-- ===== src/Security/Replayed.antt =====
-- A nonce that is used twice (backend/src/jarvis/security/desktop_auth.py).
use sriee.Base.{
  ℕ, ◌≡◌, refl, Bool, true, false, some, ltb, if◌then◌else◌, ap, sym, ◌∙◌, Bool-cases, inl, inr,
}
use sriee.Text.{Str}
use sriee.Dict.{
  contains, insert, is_some, keep_values, if_kept, IsDistinct, lookup-keep_values,
  keep_values-IsDistinct, lookup-insert_self, insert-IsDistinct,
}
use sriee.Security.Nonces.{Nonces, Key, key_eq, consume}
use sriee.Security.Desktop.{
  AuthenticatedPrincipal, Headers, Answer, unauthorized, ok, Authenticator, identified,
  authenticate, spend_nonce, unless_replayed,
}
use sriee.Security.Requests.{authenticate-eq-ok, ok_inj}

abbrev live_at : ℕ → Nonces → Nonces
live_at now seen = keep_values (λ (expiry : ℕ). ltb now expiry) seen

kept_one : (now e : ℕ) → is_some (if_kept (λ (x : ℕ). ltb now x) (some e)) ≡ ltb now e
kept_one now e = elim (Bool-cases (ltb now e)) [ inl h ↦ rw h refl | inr h ↦ rw h refl ]

taken :
    (b : Bool) (live new : Nonces) {next : Nonces}
    → ◌≡◌ {A = Nonces × Bool} (if b then (live, false) else (new, true)) (next, true)
    → new ≡ next
taken true live new h = absurd (wrong (ap (λ (t : Nonces × Bool). t.1) h))
  where
    wrong : false ≡ true → ⊥
    wrong k = cc
taken false live new h = ap (λ (t : Nonces × Bool). t.0) h

accepted_nonce :
    (now : ℕ) (key : Key) (e : ℕ) (seen next : Nonces)
    → consume now key e seen ≡ (next, true)
    → insert key e (live_at now seen) ≡ next
unfolding consume
accepted_nonce now key e seen next h = taken (contains key (live_at now seen)) _ _ h

second_use :
    (now later : ℕ) (key : Key) (e f : ℕ) (seen next : Nonces)
    → IsDistinct seen
    → consume now key e seen ≡ (next, true)
    → (consume later key f next).1 ≡ (if ltb later e then false else true)
unfolding consume
second_use now later key e f seen next d h =
    let fine =
      insert-IsDistinct key e (live_at now seen)
        (keep_values-IsDistinct (λ (x : ℕ). ltb now x) seen d) in
    let there =
      lookup-keep_values (λ (x : ℕ). ltb later x) key (insert key e (live_at now seen)) fine
      ∙ ap (if_kept (λ (x : ℕ). ltb later x)) (lookup-insert_self key e (live_at now seen)) in
    let old = ap is_some there ∙ kept_one later e in
    rw (sym (accepted_nonce now key e seen next h))
      (rw old (elim (Bool-cases (ltb later e)) [ inl t ↦ rw t refl | inr t ↦ rw t refl ]))

module _ {V : Type 0} where
  pub spent :
      (now : ℕ) (q : AuthenticatedPrincipal V) (nonce : Str) (seen : Nonces) (b : Bool)
      → (consume now (q.session_id, nonce) q.expires_at seen).1 ≡ b
      → (spend_nonce now seen (ok (q, nonce))).1 ≡ (if b then ok q else unauthorized)
  unfolding spend_nonce
  spent now q nonce seen b h = told (consume now (q.session_id, nonce) q.expires_at seen) b h
    where
      told :
          (r : Nonces × Bool) (b : Bool)
          → r.1 ≡ b
          → (unless_replayed r q).1 ≡ (if b then ok q else unauthorized)
      told (s, true) true h = refl
      told (s, false) false h = refl
      told (s, true) false h = cc
      told (s, false) true h = cc

  if_swap :
      (b : Bool) (q : AuthenticatedPrincipal V)
      → (if (if b then false else true) then ok q else unauthorized)
        ≡ (if b then unauthorized else ok q)
  if_swap true q = refl
  if_swap false q = refl

  -- After a request has been accepted, the next request with a token of the same session and the same nonce, if it
  -- passes every other check, is refused exactly while the first token has not expired by the clock of the nonces,
  -- and is accepted again from its expiry on, when the store is a dict.
  pub second_request :
      (x y : Authenticator V) (now nonce_now later nonce_later : ℕ) (h k : Headers)
      (seen next : Nonces) (p q : AuthenticatedPrincipal V) (nonce : Str)
      → IsDistinct seen
      → authenticate x now nonce_now h seen ≡ (next, ok p)
      → identified x now h ≡ ok (p, nonce)
      → identified y later k ≡ ok (q, nonce)
      → p.session_id ≡ q.session_id
      → (authenticate y later nonce_later k next).1
        ≡ (if ltb nonce_later p.expires_at then unauthorized else ok q)
  unfolding authenticate
  second_request x y now nonce_now later nonce_later h k seen next p q nonce d accepted first second
        same =
      let a = authenticate-eq-ok x now nonce_now h seen next p accepted in
      let own : a.0 ≡ nonce =
        ap (λ (t : AuthenticatedPrincipal V × Str). t.1) (ok_inj (sym a.1 ∙ first)) in
      let used : consume nonce_now (q.session_id, nonce) p.expires_at seen ≡ (next, true) =
        ap (λ (n : Str). consume nonce_now (q.session_id, n) p.expires_at seen) (sym own)
        ∙ ap (λ (i : Str). consume nonce_now (i, a.0) p.expires_at seen) (sym same)
        ∙ a.2 in
      let again =
        second_use nonce_now nonce_later (q.session_id, nonce) p.expires_at q.expires_at seen next d
          used in
      ap (λ (m : Answer (AuthenticatedPrincipal V × Str)). (spend_nonce nonce_later next m).1)
        second
      ∙ spent nonce_later q nonce next _ again
      ∙ if_swap (ltb nonce_later p.expires_at) q
