-- ===== src/WebSocket/Registry.antt =====
-- `LiveConnectionRegistry` of backend/src/jarvis/websocket/session.py. A `set` is a list in which a
-- task stands once.
use sriee.Base.{
  ℕ, Bool, true, false, Option, none, some, List, [], ◌∷◌, ◌++◌, leb, ◌==◌, if◌then◌else◌, str_eq,
  length,
}
use sriee.Text.{Str, codes}
use sriee.Dict.{Dict, lookup, insert, pop}
use sriee.Tasks.Service.{Principal}

pub record LiveConnection : Type 0 where
  pub connection_id : Str
  pub principal : Principal
  pub protocol_version : Str
  pub subscriptions : List Str

pub record Registry : Type 0 where
  pub max_connections : ℕ
  pub max_subscriptions : ℕ
  pub connections : Dict Str LiveConnection

-- `task_id in subscriptions`
unfoldable pub has_task : Str → List Str → Bool
has_task t [] = false
has_task t (u ∷ us) = let rest = has_task t us in if u == t then true else rest

-- `subscriptions.add(task_id)`
unfoldable pub add_task : Str → List Str → List Str
add_task t us = if has_task t us then us else us ++ t ∷ []

-- `subscriptions.discard(task_id)`
unfoldable pub discard_task : Str → List Str → List Str
discard_task t [] = []
discard_task t (u ∷ us) = let rest = discard_task t us in if u == t then rest else u ∷ rest

abbrev pub new_connection : Str → Principal → Str → LiveConnection
new_connection uuid principal protocol_version = record {
  connection_id = codes "ws_" ++ uuid;
  principal = principal;
  protocol_version = protocol_version;
  subscriptions = [];
}

-- `open`
unfoldable pub open_connection : Str → Principal → Str → Registry → Registry × Option LiveConnection
open_connection uuid principal protocol_version r =
    if leb r.max_connections (length r.connections) then (r, none) else (
      record r {
        connections =
            insert (codes "ws_" ++ uuid) (new_connection uuid principal protocol_version)
              r.connections;
      },
      some (new_connection uuid principal protocol_version),
    )

-- `close`
unfoldable pub close_connection : Str → Registry → Registry
close_connection connection_id r = record r { connections = pop connection_id r.connections }

unfoldable pub subscribe : Str → Str → Registry → Registry × Bool
unfolding add_task
subscribe connection_id task_id r = elim (lookup connection_id r.connections) [
  | none ↦ (r, false)
  | some c ↦
      if has_task task_id c.subscriptions
      then (r, true)
      else if leb r.max_subscriptions (length c.subscriptions)
      then (r, false)
      else (
        record r {
          connections =
              insert connection_id (record c { subscriptions = add_task task_id c.subscriptions })
                r.connections;
        },
        true,
      )
]

unfoldable pub unsubscribe : Str → Str → Registry → Registry
unsubscribe connection_id task_id r = elim (lookup connection_id r.connections) [
  | none ↦ r
  | some c ↦ record r {
    connections =
        insert connection_id (record c { subscriptions = discard_task task_id c.subscriptions })
          r.connections;
  }
]

unfoldable pub count : Registry → ℕ
count r = length r.connections

abbrev pub no_connections : ℕ → ℕ → Registry
no_connections connections subscriptions = record {
  max_connections = connections;
  max_subscriptions = subscriptions;
  connections = [];
}
