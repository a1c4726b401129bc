-- ===== src/Runtime.antt =====
-- The resource lifecycle of backend/src/jarvis/runtime/lifecycle.py: `ApplicationRuntime` and its
-- methods, each of which holds the lock from beginning to end. What the resources do in a call is an
-- argument; a float of seconds is a number of microseconds.
pub mod Resources
pub mod Invariant
pub mod Balance
pub mod Startup
pub mod Rollback
mod Tests
use sriee.Base.{
  ℕ, suc, ◌+◌, Bool, true, false, not, ◌&&◌, ◌||◌, Option, none, some, List, [], ◌∷◌, ◌++◌, leb,
  ltb, ◌==◌, if◌then◌else◌, str_eq, nat_eq, length, reverse, map, any,
}
use sriee.Text.{Str, codes}
use sriee.Dict.{Dict, lookup, insert, pop}

-- `REQUIRED_RESOURCE_ORDER`
abbrev pub required_resource_order : List Str
required_resource_order =
    codes "telemetry"
    ∷ codes "database"
    ∷ codes "checkpointer"
    ∷ codes "graph"
    ∷ codes "providers"
    ∷ codes "workers"
    ∷ []

pub data RuntimeState : Type 0 where
  created starting ready draining stopped failed : RuntimeState

pub record DependencyHealth : Type 0 where
  pub is_ready : Bool
  pub code : Str

pub record ResourceSpec : Type 0 where
  pub name : Str
  pub health_timeout : ℕ
  pub close_timeout : ℕ

-- `ResourceSpec.__post_init__`
unfoldable pub valid_spec : ResourceSpec → Bool
valid_spec s =
    any (λ n. n == s.name) required_resource_order
    && (ltb 0 s.health_timeout && ltb 0 s.close_timeout)

-- What a resource does when it is called: the factory and `start` return or raise; a probe takes a
-- time and gives a health, or raises or gives something else (`none`); `close` takes a time and
-- returns or raises; `drain` is there or not (`none`), takes a time, and returns or raises. What a
-- probe raises is an `Exception`: a cancellation from outside, which would leave
-- `refresh_readiness` half way, is not modelled.
pub record Behaviour : Type 0 where
  pub creates : Bool
  pub starts : Bool
  pub probe : ℕ × Option DependencyHealth
  pub closes : ℕ × Bool
  pub drains : Option (ℕ × Bool)

abbrev pub World : Type 0
World = Str → Behaviour

-- The calls that reach the resources: a factory that returned, and the methods.
pub data Call : Type 0 where
  acquire start_call probe_call drain_call close_call : Str → Call

pub record Runtime : Type 0 where
  pub resource_specs : List ResourceSpec
  pub worker_drain_timeout : ℕ
  pub state : RuntimeState
  pub accepting_work : Bool
  pub active : List ResourceSpec
  pub health : Dict Str DependencyHealth
  pub failure_code : Option Str

-- `LifecycleStartupError` and `LifecycleShutdownError`.
pub data LifecycleError : Type 0 where
  startup : Str → Str → LifecycleError
  shutdown_errors : List Str → LifecycleError

-- `asyncio.wait_for`: an answer that takes as long as the timeout is an exception.
unfoldable pub probe_within : ℕ → ℕ × Option DependencyHealth → Option DependencyHealth
probe_within timeout (time, answer) = if ltb time timeout then answer else none

unfoldable pub done_within : ℕ → ℕ × Bool → Bool
done_within timeout (time, done) = ltb time timeout && done

-- What the loop of `start` has done: the active resources, their health, the name of the resource
-- that failed, and the calls.
pub record Progress : Type 0 where
  pub active : List ResourceSpec
  pub health : Dict Str DependencyHealth
  pub failure : Option Str
  pub calls : List Call

abbrev pub prepend : List Call → Progress → Progress
prepend calls p = record p { calls = calls ++ p.calls }

-- The loop over the specs in `start`; any exception ends it.
unfoldable pub start_each :
    World → List ResourceSpec → List ResourceSpec → Dict Str DependencyHealth → Progress
unfolding probe_within
start_each w [] active health = record {
  active = active;
  health = health;
  failure = none;
  calls = [];
}
start_each w (s ∷ specs) active health =
    let active' = active ++ s ∷ [] in
    let stopped_at = λ (a : List ResourceSpec) (h : Dict Str DependencyHealth) (calls : List Call).
      let p : Progress = record { active = a; health = h; failure = some s.name; calls = calls } in
      p in
    let got = acquire s.name in
    let begun = start_call s.name in
    let probed = probe_call s.name in
    if not (w s.name).creates
    then stopped_at active health []
    else if not (w s.name).starts
    then stopped_at active' health (got ∷ begun ∷ [])
    else elim (probe_within s.health_timeout (w s.name).probe) [
      | none ↦ stopped_at active' health (got ∷ begun ∷ probed ∷ [])
      | some x ↦
          let health' = insert s.name x health in
          let rest = start_each w specs active' health' in
          if not x.is_ready
          then stopped_at active' health' (got ∷ begun ∷ probed ∷ [])
          else prepend (got ∷ begun ∷ probed ∷ []) rest
    ]

-- The loop of `_close_all` over the resources in the order in which they are popped: the health that is left, the
-- failures, and the calls. Each turn calls `close`, and the loop goes on whether that call has failed or not.
unfoldable pub close_each :
    World
    → List ResourceSpec
    → Dict Str DependencyHealth
    → Dict Str DependencyHealth × List Str × List Call
unfolding done_within
close_each w [] health = (health, [], [])
close_each w (s ∷ specs) health =
    let rest = close_each w specs (pop s.name health) in
    let failed =
      if done_within s.close_timeout (w s.name).closes
      then []
      else (s.name ++ codes "_close_failed") ∷ [] in
    (rest.0, failed ++ rest.1, close_call s.name ∷ rest.2)

-- `_close_all`. `active` is empty afterwards.
unfoldable pub close_all :
    World
    → List ResourceSpec
    → Dict Str DependencyHealth
    → Dict Str DependencyHealth × List Str × List Call
unfolding close_each
close_all w active health = close_each w (reverse active) health

abbrev pub may_start : RuntimeState → Bool
may_start RuntimeState.created = true
may_start RuntimeState.stopped = true
may_start _ = false

-- `start` when the loop has ended.
unfoldable pub finish_start :
    World → Progress → Runtime → Runtime × Option LifecycleError × List Call
unfolding close_all
finish_start w p r = elim p.failure [
  | none ↦ (
    record r {
      state = RuntimeState.ready;
      accepting_work = true;
      active = p.active;
      health = p.health;
      failure_code = none;
    },
    none,
    p.calls,
  )
  | some name ↦ (
    record r {
      state = RuntimeState.failed;
      accepting_work = false;
      active = [];
      health = (close_all w p.active p.health).0;
      failure_code = some (name ++ codes "_startup_failed");
    },
    some (startup name (name ++ codes "_startup_failed")),
    p.calls ++ (close_all w p.active p.health).2,
  )
]

unfoldable pub start : World → Runtime → Runtime × Option LifecycleError × List Call
unfolding start_each finish_start
start w r =
    if may_start r.state
    then finish_start w (start_each w r.resource_specs [] []) r
    else (r, some (startup (codes "runtime") (codes "invalid_start_state")), [])

abbrev pub probed_health : World → ResourceSpec → DependencyHealth
probed_health w s = elim (probe_within s.health_timeout (w s.name).probe) [
  | none ↦ record { is_ready = false; code = codes "health_check_failed" }
  | some x ↦ x
]

-- The loop of `refresh_readiness`: the health, whether all are ready, and the first failure.
unfoldable pub refresh_each :
    World
    → List ResourceSpec
    → Dict Str DependencyHealth
    → Bool
    → Option Str
    → Dict Str DependencyHealth × Bool × Option Str
unfolding probe_within
refresh_each w [] health all_ready first_failure = (health, all_ready, first_failure)
refresh_each w (s ∷ specs) health all_ready first_failure =
    let x = probed_health w s in
    refresh_each w specs (insert s.name x health) (if x.is_ready then all_ready else false) (
      if x.is_ready
      then first_failure
      else elim first_failure [ none ↦ some (s.name ++ codes "_" ++ x.code) | some f ↦ some f ])

abbrev pub is_running : RuntimeState → Bool
is_running RuntimeState.ready = true
is_running _ = false

-- `refresh_readiness`; the snapshot that it returns is `readiness` of the new state.
unfoldable pub refresh_readiness : World → Runtime → Runtime × List Call
unfolding refresh_each
refresh_readiness w r =
    if not (is_running r.state)
    then (r, [])
    else let swept =
        refresh_each w r.active r.health (length r.active == length required_resource_order) none in
      (
        record r { health = swept.0; accepting_work = swept.1; failure_code = swept.2 },
        map (λ s. probe_call s.name) r.active,
      )

-- `next((resource for spec, resource in self._active if spec.name == "workers"), None)`
unfoldable pub has_workers : List ResourceSpec → Bool
has_workers [] = false
has_workers (s ∷ specs) =
    let rest = has_workers specs in if s.name == codes "workers" then true else rest

-- The failures of draining, and the calls.
unfoldable pub drain_workers : World → Runtime → List Str × List Call
unfolding has_workers done_within
drain_workers w r =
    if not (has_workers r.active) then ([], []) else elim (w (codes "workers")).drains [
      | none ↦ ([], [])
      | some d ↦ (
        (if done_within r.worker_drain_timeout d then [] else codes "workers_drain_failed" ∷ []),
        drain_call (codes "workers") ∷ [],
      )
    ]

-- `shutdown` when the resources have been closed.
unfoldable pub finish_shutdown : List Str → Runtime → Runtime × Option LifecycleError
finish_shutdown [] r = (record r { state = RuntimeState.stopped; failure_code = none }, none)
finish_shutdown (f ∷ fs) r = (
  record r { state = RuntimeState.failed; failure_code = some f },
  some (shutdown_errors (f ∷ fs)),
)

unfoldable pub shutdown : World → Runtime → Runtime × Option LifecycleError × List Call
unfolding drain_workers close_all finish_shutdown
shutdown w r =
    if may_start r.state
    then (record r { accepting_work = false; state = RuntimeState.stopped }, none, [])
    else let drained = drain_workers w r in
      let closed = close_all w r.active r.health in
      let done =
        finish_shutdown (drained.0 ++ closed.1)
          (record r { accepting_work = false; active = []; health = closed.0 }) in
      (done.0, done.1, drained.1 ++ closed.2)

pub record RuntimeReadiness : Type 0 where
  pub state : RuntimeState
  pub is_ready : Bool
  pub accepting_work : Bool
  pub settings_fingerprint : Str
  pub dependencies : Dict Str DependencyHealth
  pub failure_code : Option Str

unfoldable pub readiness : Str → Runtime → RuntimeReadiness
readiness fingerprint r = record {
  state = r.state;
  is_ready = is_running r.state && r.accepting_work;
  accepting_work = r.accepting_work;
  settings_fingerprint = fingerprint;
  dependencies = r.health;
  failure_code = r.failure_code;
}

abbrev same_names : List ResourceSpec → List Str → Bool
same_names [] [] = true
same_names (s ∷ specs) (n ∷ names) = if s.name == n then same_names specs names else false
same_names _ _ = false

-- `ApplicationRuntime(...)`; `none` is the `ValueError` of `__post_init__`.
unfoldable pub new_runtime : List ResourceSpec → ℕ → Option Runtime
new_runtime specs drain_timeout =
    if not (same_names specs required_resource_order)
    then none
    else if not (ltb 0 drain_timeout)
    then none
    else some (record {
      resource_specs = specs;
      worker_drain_timeout = drain_timeout;
      state = RuntimeState.created;
      accepting_work = false;
      active = [];
      health = [];
      failure_code = none;
    })
