-- ===== src/Runtime/Tests.antt =====
-- Runs of `ApplicationRuntime` of backend/src/jarvis/runtime/lifecycle.py, and the theorems there.
use sriee.Base.{
  ◌+◌, ◌≡◌, refl, true, false, none, some, List, [], ◌∷◌, if◌then◌else◌, str_eq, str_beq, ◌==◌,
  reverse,
}
use sriee.Text.{Str, codes}
use sriee.Dict.{lookup, insert, pop}
use sriee.Runtime.{
  World, Behaviour, ResourceSpec, Runtime, RuntimeState, new_runtime, start, shutdown, is_running,
  start_each, close_each, probe_within, done_within, drain_workers, has_workers, finish_start,
  close_all, refresh_each, refresh_readiness, finish_shutdown,
}
use sriee.Runtime.Resources.{acquired, closed, held}
use sriee.Runtime.Invariant.{IsValid}
use sriee.Runtime.Balance.{start_op, refresh_op, shutdown_op, run, runtime_invariant, nothing_leaks}
use sriee.Runtime.Startup.{start_succeeds, all_healthy, no_error, acquired_names, closed_names}
use sriee.Runtime.Rollback.{start_rolls_back}

runs : Unit {0}
unfolding start shutdown run new_runtime str_beq lookup insert pop start_each close_each
    probe_within done_within drain_workers has_workers finish_start close_all refresh_each
    refresh_readiness finish_shutdown
runs = tt

abbrev spec : Str → ResourceSpec
spec n = record { name = n; health_timeout = 5; close_timeout = 5 }

abbrev specs : List ResourceSpec
specs =
    spec (codes "telemetry")
    ∷ spec (codes "database")
    ∷ spec (codes "checkpointer")
    ∷ spec (codes "graph")
    ∷ spec (codes "providers")
    ∷ spec (codes "workers")
    ∷ []

abbrev fresh : Runtime
fresh = record {
  resource_specs = specs;
  worker_drain_timeout = 9;
  state = RuntimeState.created;
  accepting_work = false;
  active = [];
  health = [];
  failure_code = none;
}

abbrev well : Behaviour
well = record {
  creates = true;
  starts = true;
  probe = (1, some (record { is_ready = true; code = codes "ok" }));
  closes = (1, true);
  drains = some (1, true);
}

abbrev all_well : World
all_well n = well

-- The graph does not start.
abbrev no_graph : World
no_graph n = if n == codes "graph" then record well { starts = false } else well

-- The graph does not close.
abbrev stuck_graph : World
stuck_graph n = if n == codes "graph" then record well { closes = (1, false) } else well

abbrev running : Runtime
running = record fresh { state = RuntimeState.ready; accepting_work = true; active = specs }

runtime_invariant_example :
    IsValid (run (start_op all_well ∷ refresh_op no_graph ∷ shutdown_op all_well ∷ []) fresh).0
unfolding runs
runtime_invariant_example =
    runtime_invariant specs 9 (start_op all_well ∷ refresh_op no_graph ∷ shutdown_op all_well ∷ [])
      refl

nothing_leaks_example :
    let x = run (start_op no_graph ∷ shutdown_op all_well ∷ []) fresh in
    acquired (codes "database") x.1
    ≡ closed (codes "database") x.1
      + (if is_running x.0.state then held (codes "database") x.0.active else 0)
unfolding runs
nothing_leaks_example =
    nothing_leaks (codes "database") specs 9 (start_op no_graph ∷ shutdown_op all_well ∷ []) refl

start_rolls_back_example :
    let x = start no_graph fresh in
    (closed_names x.2 ≡ reverse (acquired_names x.2))
    × (x.0.active ≡ [])
    × (x.0.state ≡ RuntimeState.failed)
unfolding runs
start_rolls_back_example = start_rolls_back no_graph fresh refl refl

start_succeeds_example :
    let x = start all_well fresh in
    let healthy = all_healthy all_well fresh.resource_specs in
    (no_error x.1 ≡ healthy)
    × (x.0.state ≡ (if healthy then RuntimeState.ready else RuntimeState.failed))
    × (x.0.accepting_work ≡ healthy)
start_succeeds_example = start_succeeds all_well fresh refl
