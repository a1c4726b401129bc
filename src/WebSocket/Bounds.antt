-- ===== src/WebSocket/Bounds.antt =====
-- The limits of the registry of live connections (backend/src/jarvis/websocket/session.py).
use sriee.Base.{
  ℕ, ◌+◌, ◌≤◌, ◌≡◌, refl, false, some, List, [], ◌∷◌, ◌++◌, arith, leb, ◌==◌, if◌then◌else◌, str_eq,
  str_beq_iff, length, length-append, if_intro, option_intro, inl, inr,
}
use sriee.Text.{Str, codes}
use sriee.Dict.{lookup, insert, length-insert, length-pop-le, lookup-insert_cases, lookup-pop}
use sriee.Tasks.Service.{Principal}
use sriee.WebSocket.Registry.{
  LiveConnection, Registry, has_task, add_task, discard_task, new_connection, open_connection,
  close_connection, subscribe, unsubscribe, count, no_connections,
}

pub length-add_task-le : (t : Str) (us : List Str) → length (add_task t us) ≤ length us + 1
unfolding add_task
length-add_task-le t us = ground (arith, length-append us (t ∷ []))

pub length-discard_task-le : (t : Str) (us : List Str) → length (discard_task t us) ≤ length us
unfolding discard_task
length-discard_task-le t [] = omega arith
length-discard_task-le t (u ∷ us) = ground (arith, length-discard_task-le t us)

pub has_task-discard_task :
    (t u : Str) (us : List Str)
    → has_task u (discard_task t us) ≡ (if t == u then false else has_task u us)
unfolding has_task discard_task
has_task-discard_task t u [] = ground arith
has_task-discard_task t u (x ∷ us) =
    ground (arith, has_task-discard_task t u us, str_beq_iff t u, str_beq_iff x t, str_beq_iff x u)

-- The bounds of the registry: as many connections as it may hold, each with as many tasks.
pub record IsBounded (r : Registry) : Type 0 where
  pub few_connections : length r.connections ≤ r.max_connections
  pub few_tasks :
      (i : Str) (c : LiveConnection)
      → lookup i r.connections ≡ some c
      → length c.subscriptions ≤ r.max_subscriptions

-- A connection is stored within the bounds.
put-IsBounded :
    (k : Str) (c : LiveConnection) (r : Registry)
    → IsBounded r
    → length (insert k c r.connections) ≤ r.max_connections
    → length c.subscriptions ≤ r.max_subscriptions
    → IsBounded (record r { connections = insert k c r.connections })
put-IsBounded k c r b few small = record {
  few_connections = few;
  few_tasks = λ i x h. elim (lookup-insert_cases k i c r.connections h) [
    | inl (same, e) ↦ rw (← e) small
    | inr (other, old) ↦ b.few_tasks i x old
  ];
}

-- One that is there is replaced.
replace-IsBounded :
    (k : Str) (c : LiveConnection) {old : LiveConnection} (r : Registry)
    → IsBounded r
    → lookup k r.connections ≡ some old
    → length c.subscriptions ≤ r.max_subscriptions
    → IsBounded (record r { connections = insert k c r.connections })
replace-IsBounded k c r b at small =
    put-IsBounded k c r b (ground (arith, b.few_connections, length-insert k c r.connections)) small

abbrev BoundedState : {A : Type 0} → Registry × A → Type 0
BoundedState w = IsBounded w.0

open_connection-IsBounded :
    (uuid : Str) (p : Principal) (v : Str) (r : Registry)
    → IsBounded r
    → IsBounded (open_connection uuid p v r).0
unfolding open_connection
open_connection-IsBounded uuid p v r b =
    if_intro BoundedState (leb r.max_connections (length r.connections)) (λ full. b)
      λ room.
        put-IsBounded (codes "ws_" ++ uuid) (new_connection uuid p v) r b
          (ground
            (arith, length-insert (codes "ws_" ++ uuid) (new_connection uuid p v) r.connections))
          (omega arith)

close_connection-IsBounded :
    (i : Str) (r : Registry) → IsBounded r → IsBounded (close_connection i r)
unfolding close_connection
close_connection-IsBounded i r b = record {
  few_connections = omega (arith, length-pop-le i r.connections, b.few_connections);
  few_tasks = λ j c h. b.few_tasks j c (ground (arith, lookup-pop i j r.connections));
}

subscribe-IsBounded : (i t : Str) (r : Registry) → IsBounded r → IsBounded (subscribe i t r).0
unfolding subscribe
subscribe-IsBounded i t r b =
    option_intro BoundedState (lookup i r.connections) (λ missing. b)
      λ c at.
        if_intro BoundedState (has_task t c.subscriptions) (λ old. b)
          λ new.
            if_intro BoundedState (leb r.max_subscriptions (length c.subscriptions)) (λ full. b)
              λ room.
                replace-IsBounded i (record c { subscriptions = add_task t c.subscriptions }) r b at
                  (ground (arith, length-add_task-le t c.subscriptions))

unsubscribe-IsBounded : (i t : Str) (r : Registry) → IsBounded r → IsBounded (unsubscribe i t r)
unfolding unsubscribe
unsubscribe-IsBounded i t r b =
    option_intro IsBounded (lookup i r.connections) (λ missing. b)
      λ c at.
        replace-IsBounded i (record c { subscriptions = discard_task t c.subscriptions }) r b at
          (omega (arith, length-discard_task-le t c.subscriptions, b.few_tasks i c at))

-- The calls that a session makes of the registry.
pub data RegistryCall : Type 0 where
  open_call : Str → Principal → Str → RegistryCall
  close_call : Str → RegistryCall
  subscribe_call unsubscribe_call : Str → Str → RegistryCall

abbrev pub apply_call : RegistryCall → Registry → Registry
apply_call (open_call uuid p v) r = (open_connection uuid p v r).0
apply_call (close_call i) r = close_connection i r
apply_call (subscribe_call i t) r = (subscribe i t r).0
apply_call (unsubscribe_call i t) r = unsubscribe i t r

unfoldable pub run_calls : List RegistryCall → Registry → Registry
run_calls [] r = r
run_calls (c ∷ cs) r = run_calls cs (apply_call c r)

apply_call-IsBounded : (c : RegistryCall) (r : Registry) → IsBounded r → IsBounded (apply_call c r)
apply_call-IsBounded (open_call uuid p v) r b = open_connection-IsBounded uuid p v r b
apply_call-IsBounded (close_call i) r b = close_connection-IsBounded i r b
apply_call-IsBounded (subscribe_call i t) r b = subscribe-IsBounded i t r b
apply_call-IsBounded (unsubscribe_call i t) r b = unsubscribe-IsBounded i t r b

run_calls-IsBounded :
    (cs : List RegistryCall) (r : Registry) → IsBounded r → IsBounded (run_calls cs r)
unfolding run_calls
run_calls-IsBounded [] r b = b
run_calls-IsBounded (c ∷ cs) r b =
    run_calls-IsBounded cs (apply_call c r) (apply_call-IsBounded c r b)

no_connections-IsBounded : (m n : ℕ) → IsBounded (no_connections m n)
unfolding lookup
no_connections-IsBounded m n = record {
  few_connections = omega arith;
  few_tasks = λ i c h. absurd (cc);
}

run_calls-limits :
    (cs : List RegistryCall) (r : Registry)
    → ((run_calls cs r).max_connections ≡ r.max_connections)
      × ((run_calls cs r).max_subscriptions ≡ r.max_subscriptions)
unfolding run_calls open_connection close_connection subscribe unsubscribe
run_calls-limits [] r = (refl, refl)
run_calls-limits (open_call uuid p v ∷ cs) r =
    ground (arith, run_calls-limits cs (open_connection uuid p v r).0)
run_calls-limits (close_call i ∷ cs) r = ground (arith, run_calls-limits cs (close_connection i r))
run_calls-limits (subscribe_call i t ∷ cs) r =
    ground (arith, run_calls-limits cs (subscribe i t r).0)
run_calls-limits (unsubscribe_call i t ∷ cs) r =
    ground (arith, run_calls-limits cs (unsubscribe i t r))

-- Whatever sessions open, close, subscribe and unsubscribe, in any order, a registry that began empty
-- never holds more connections than its limit, nor one connection more tasks than its limit.
pub registry_bounded :
    (m n : ℕ) (cs : List RegistryCall) (i : Str) (c : LiveConnection)
    → lookup i (run_calls cs (no_connections m n)).connections ≡ some c
    → (count (run_calls cs (no_connections m n)) ≤ m) × (length c.subscriptions ≤ n)
unfolding count
registry_bounded m n cs i c h =
    let b = run_calls-IsBounded cs (no_connections m n) (no_connections-IsBounded m n) in
    let (same_m, same_n) = run_calls-limits cs (no_connections m n) in
    (omega (arith, b.few_connections, same_m), omega (arith, b.few_tasks i c h, same_n))
