-- ===== src/WebSocket/Handshake.antt =====
-- The beginning and the end of `openWebSocketSession` of backend/src/jarvis/websocket/session.py.
use sriee.Base.{
  ℕ, ◌≡◌, Bool, false, not, Option, none, some, [], ◌∷◌, ◌++◌, ◌==◌, arith, leb, length, str_eq,
  nat_eq, if◌then◌else◌, if_intro, sym, Bool-cases, inl, inr,
}
use sriee.Text.{Str, codes}
use sriee.Dict.{Dict, lookup, insert, pop}
use sriee.Tasks.Service.{Principal}
use sriee.WebSocket.Registry.{
  Registry, LiveConnection, new_connection, open_connection, close_connection,
}
use sriee.WebSocket.Broker.{Broker, register, unregister}
use sriee.WebSocket.Session.{Session}

-- What the authenticator does: a principal, or an `HTTPException` with a status code.
pub data Authentication : Type 0 where
  authenticated : Principal → Authentication
  rejected : ℕ → Authentication

-- The socket is closed with a code, or the session begins.
pub data Handshake : Type 0 where
  closed : ℕ → Handshake
  begun : Session → Handshake

abbrev pub is_protocol : Str → Option Str → Bool
is_protocol version none = false
is_protocol version (some p) = p == version

abbrev pub first_session : Principal → Registry × Option LiveConnection → Broker → Handshake
first_session principal (r, none) b = closed 4429
first_session principal (r, some c) b = begun (record {
  connection_id = c.connection_id;
  principal = principal;
  cursors = [];
  timestamps = [];
  registry = r;
  broker = register c.connection_id b;
})

abbrev close_code : ℕ → ℕ
close_code status = if status == 426 then 4406 else 4401

-- From the start of `openWebSocketSession` to its `accept`.
unfoldable pub open_session :
    Bool → Str → Option Str → Authentication → Str → Registry → Broker → Handshake
open_session is_configured version protocol authentication uuid r b =
    if not is_configured
    then closed 1013
    else if not (is_protocol version protocol)
    then closed 4406
    else elim authentication [
      | rejected status ↦ closed (close_code status)
      | authenticated principal ↦
          first_session principal (open_connection uuid principal version r) b
    ]

-- The `finally` of `openWebSocketSession`.
unfoldable pub end_session : Session → Registry × Broker
end_session s = (close_connection s.connection_id s.registry, unregister s.connection_id s.broker)

pop-insert_new {ℓ} :
    {V : Type ℓ} (k : Str) (v : V) (d : Dict Str V) → lookup k d ≡ none → pop k (insert k v d) ≡ d
unfolding lookup insert pop
pop-insert_new k v [] = λ h. ground (arith, str_eq.beq_iff k k)
pop-insert_new k v ((j, w) ∷ d) = λ h. elim (Bool-cases (j == k)) [
  | inl same ↦ absurd (ground arith)
  | inr other ↦ ground (arith, pop-insert_new k v d)
]

begun_restores :
    (principal : Principal) (uuid version : Str) (r : Registry) (b : Broker) {s : Session}
    → lookup (codes "ws_" ++ uuid) r.connections ≡ none
    → lookup (codes "ws_" ++ uuid) b.queues ≡ none
    → lookup (codes "ws_" ++ uuid) b.subscriptions ≡ none
    → first_session principal (open_connection uuid principal version r) b ≡ begun s
    → end_session s ≡ (r, b)
unfolding open_connection register unregister close_connection end_session
begun_restores principal uuid version r b {s} h1 h2 h3 =
    if_intro
      (λ (x : Registry × Option LiveConnection).
        first_session principal x b ≡ begun s → end_session s ≡ (r, b))
      (leb r.max_connections (length r.connections)) (λ full h. cc)
      (λ room h.
        let i = codes "ws_" ++ uuid in
        let e1 = pop-insert_new i (new_connection uuid principal version) r.connections h1 in
        let e2 = pop-insert_new i [] b.queues h2 in
        let e3 = pop-insert_new i [] b.subscriptions h3 in
        let s0 : Session = record {
          connection_id = i;
          principal = principal;
          cursors = [];
          timestamps = [];
          registry = record r {
            connections = insert i (new_connection uuid principal version) r.connections;
          };
          broker = register i b;
        } in
        let same : s0 ≡ s = cc in
        rw (sym same) (λ k.
          (record r { connections = e1 k }, record b { queues = e2 k; subscriptions = e3 k })))

-- An opened session that ends before it has subscribed to anything leaves the registry and the broker as
-- they were, if the connection's identifier is new to both.
pub end_session-open_session :
    (is_configured : Bool) (version : Str) (protocol : Option Str) (authentication : Authentication)
    (uuid : Str) (r : Registry) (b : Broker) {s : Session}
    → lookup (codes "ws_" ++ uuid) r.connections ≡ none
    → lookup (codes "ws_" ++ uuid) b.queues ≡ none
    → lookup (codes "ws_" ++ uuid) b.subscriptions ≡ none
    → open_session is_configured version protocol authentication uuid r b ≡ begun s
    → end_session s ≡ (r, b)
unfolding open_session
end_session-open_session is_configured version protocol (rejected status) uuid r b {s} h1 h2 h3 =
    if_intro (λ (x : Handshake). x ≡ begun s → end_session s ≡ (r, b)) (not is_configured)
      (λ z h. cc)
      λ z.
        if_intro (λ (x : Handshake). x ≡ begun s → end_session s ≡ (r, b))
          (not (is_protocol version protocol)) (λ y h. cc) (λ y h. cc)
end_session-open_session is_configured version protocol (authenticated principal) uuid r b {s} h1 h2
      h3 =
    if_intro (λ (x : Handshake). x ≡ begun s → end_session s ≡ (r, b)) (not is_configured)
      (λ z h. cc)
      λ z.
        if_intro (λ (x : Handshake). x ≡ begun s → end_session s ≡ (r, b))
          (not (is_protocol version protocol)) (λ y h. cc)
          (λ y. begun_restores principal uuid version r b h1 h2 h3)
