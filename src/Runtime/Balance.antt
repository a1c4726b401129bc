-- ===== src/Runtime/Balance.antt =====
-- Nothing leaks over any sequence of calls of backend/src/jarvis/runtime/lifecycle.py.
use sriee.Base.{
  ℕ, ◌+◌, ◌≡◌, refl, false, not, Option, some, List, [], ◌∷◌, ◌++◌, arith, if◌then◌else◌, str_eq,
  nat_eq, map, if_intro, option_intro, ap, Bool-cases, inl, inr,
}
use sriee.Text.{Str}
use sriee.Dict.{lookup}
use sriee.Runtime.{
  World, Call, probe_call, ResourceSpec, Progress, Runtime, RuntimeState, LifecycleError,
  start_each, close_all, start, finish_start, refresh_readiness, shutdown, finish_shutdown,
  drain_workers, may_start, is_running, new_runtime,
}
use sriee.Runtime.Resources.{
  acquired, closed, held, acquired-append, closed-append, close_all_balance, start_each_balance,
}
use sriee.Runtime.Invariant.{IsValid, start-IsValid, refresh_readiness-IsValid, shutdown-IsValid}

-- A call of a method, and what the resources do in it.
pub data Operation : Type 0 where
  start_op refresh_op shutdown_op : World → Operation

abbrev pub apply : Operation → Runtime → Runtime × List Call
apply (start_op w) r = let x = start w r in (x.0, x.2)
apply (refresh_op w) r = refresh_readiness w r
apply (shutdown_op w) r = let x = shutdown w r in (x.0, x.2)

unfoldable pub run : List Operation → Runtime → Runtime × List Call
run [] r = (r, [])
run (o ∷ os) r = let x = apply o r in let y = run os x.0 in (y.0, x.1 ++ y.1)

abbrev Balanced : Str → Runtime → Runtime × List Call → Type 0
Balanced n r x = held n r.active + acquired n x.1 ≡ held n x.0.active + closed n x.1

finish_start-Balanced :
    (n : Str) (w : World) (p : Progress) (r : Runtime)
    → held n p.active ≡ acquired n p.calls
    → closed n p.calls ≡ 0
    → let x = finish_start w p r in acquired n x.2 ≡ held n x.0.active + closed n x.2
unfolding finish_start held
finish_start-Balanced n w p r h c =
    option_intro
      (λ (x : Runtime × Option LifecycleError × List Call).
        acquired n x.2 ≡ held n x.0.active + closed n x.2)
      p.failure (λ well. omega arith)
      (λ name failed. omega (
        arith,
        acquired-append n p.calls (close_all w p.active p.health).2,
        closed-append n p.calls (close_all w p.active p.health).2,
        (close_all_balance n w p.active p.health).0,
        (close_all_balance n w p.active p.health).1,
      ))

start-Balanced :
    (n : Str) (w : World) (r : Runtime) → IsValid r → Balanced n r (apply (start_op w) r)
unfolding start held acquired closed
start-Balanced n w r v =
    if_intro (λ (x : Runtime × Option LifecycleError × List Call). Balanced n r (x.0, x.2))
      (may_start r.state)
      (λ free.
        let b = start_each_balance n w r.resource_specs [] [] in
        let empty_before : r.active ≡ [] = v.idle (ground arith) in
        let nothing_held : held n r.active ≡ 0 = ap (held n) empty_before in
        omega (
          arith,
          nothing_held,
          finish_start-Balanced n w (start_each w r.resource_specs [] []) r (omega (arith, b.0))
              b.1,
        ))
      (λ busy. refl)

probes_balance :
    (n : Str) (xs : List ResourceSpec)
    → (acquired n (map (λ s. probe_call s.name) xs) ≡ 0)
      × (closed n (map (λ s. probe_call s.name) xs) ≡ 0)
unfolding acquired closed
probes_balance n [] = (refl, refl)
probes_balance n (s ∷ xs) = probes_balance n xs

refresh-Balanced : (n : Str) (w : World) (r : Runtime) → Balanced n r (refresh_readiness w r)
unfolding refresh_readiness acquired closed
refresh-Balanced n w r =
    if_intro (Balanced n r) (not (is_running r.state)) (λ other. refl)
      (λ running. omega (arith, (probes_balance n r.active).0, (probes_balance n r.active).1))

drain_balance :
    (n : Str) (w : World) (r : Runtime)
    → (acquired n (drain_workers w r).1 ≡ 0) × (closed n (drain_workers w r).1 ≡ 0)
unfolding drain_workers acquired closed
drain_balance n w r = ground arith

finish_shutdown-active : (f : List Str) (r : Runtime) → (finish_shutdown f r).0.active ≡ r.active
unfolding finish_shutdown
finish_shutdown-active [] r = refl
finish_shutdown-active (f ∷ fs) r = refl

shutdown-Balanced : (n : Str) (w : World) (r : Runtime) → Balanced n r (apply (shutdown_op w) r)
unfolding shutdown held acquired closed
shutdown-Balanced n w r =
    if_intro (λ (x : Runtime × Option LifecycleError × List Call). Balanced n r (x.0, x.2))
      (may_start r.state) (λ free. refl)
      (λ busy.
        let none_left = ap (held n) (
          finish_shutdown-active ((drain_workers w r).0 ++ (close_all w r.active r.health).1)
            (record r {
              accepting_work = false;
              active = [];
              health = (close_all w r.active r.health).0;
            })) in
        omega (
          arith,
          none_left,
          (drain_balance n w r).0,
          (drain_balance n w r).1,
          acquired-append n (drain_workers w r).1 (close_all w r.active r.health).2,
          closed-append n (drain_workers w r).1 (close_all w r.active r.health).2,
          (close_all_balance n w r.active r.health).0,
          (close_all_balance n w r.active r.health).1,
        ))

apply-Balanced : (n : Str) (o : Operation) (r : Runtime) → IsValid r → Balanced n r (apply o r)
apply-Balanced n (start_op w) r v = start-Balanced n w r v
apply-Balanced n (refresh_op w) r v = refresh-Balanced n w r
apply-Balanced n (shutdown_op w) r v = shutdown-Balanced n w r

apply-IsValid : (o : Operation) (r : Runtime) → IsValid r → IsValid (apply o r).0
apply-IsValid (start_op w) r v = start-IsValid w r v
apply-IsValid (refresh_op w) r v = refresh_readiness-IsValid w r v
apply-IsValid (shutdown_op w) r v = shutdown-IsValid w r v

run-Balanced : (n : Str) (os : List Operation) (r : Runtime) → IsValid r → Balanced n r (run os r)
unfolding run acquired closed
run-Balanced n [] r v = refl
run-Balanced n (o ∷ os) r v =
    let x = apply o r in
    let y = run os x.0 in
    omega (
      arith,
      apply-Balanced n o r v,
      run-Balanced n os x.0 (apply-IsValid o r v),
      acquired-append n x.1 y.1,
      closed-append n x.1 y.1,
    )

run-IsValid : (os : List Operation) (r : Runtime) → IsValid r → IsValid (run os r).0
unfolding run
run-IsValid [] r v = v
run-IsValid (o ∷ os) r v = run-IsValid os (apply o r).0 (apply-IsValid o r v)

new_runtime-IsValid :
    (specs : List ResourceSpec) (t : ℕ) {r : Runtime}
    → new_runtime specs t ≡ some r
    → (IsValid r) × (r.active ≡ [])
unfolding new_runtime lookup
new_runtime-IsValid specs t {r} h =
    let state : r.state ≡ RuntimeState.created = ground arith in
    let work : r.accepting_work ≡ false = ground arith in
    let active : r.active ≡ [] = ground arith in
    let health : r.health ≡ [] = ground arith in
    (
      record {
        settled = rw state;
        idle = λ g. active;
        complete = λ g. ground arith;
        willing = λ g. ground arith;
        described = λ n z. rw health;
      },
      active,
    )

-- Whatever the resources do, and in whatever order the methods of a new runtime are called, it takes
-- work only while it is ready, holds all its resources while it is ready and none otherwise, and
-- knows a health only of what it holds.
pub runtime_invariant :
    (specs : List ResourceSpec) (t : ℕ) {r : Runtime} (os : List Operation)
    → new_runtime specs t ≡ some r
    → IsValid (run os r).0
runtime_invariant specs t {r} os h = run-IsValid os r (new_runtime-IsValid specs t h).0

-- Over any sequence of calls of a new runtime, every resource that was acquired has been closed
-- once, or is still held; and none is held while the runtime is not ready.
pub nothing_leaks :
    (n : Str) (specs : List ResourceSpec) (t : ℕ) {r : Runtime} (os : List Operation)
    → new_runtime specs t ≡ some r
    → let x = run os r in
      acquired n x.1 ≡ closed n x.1 + (if is_running x.0.state then held n x.0.active else 0)
unfolding held
nothing_leaks n specs t {r} os h =
    let v = new_runtime-IsValid specs t h in
    let end = (run-IsValid os r v.0).idle in
    let before = ap (held n) v.1 in
    elim (Bool-cases (is_running (run os r).0.state)) [
      | inl running ↦ rw running (omega (arith, run-Balanced n os r v.0, before))
      | inr idle ↦ rw idle (omega (arith, run-Balanced n os r v.0, before, ap (held n) (end idle)))
    ]
