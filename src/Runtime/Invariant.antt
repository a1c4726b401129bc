-- ===== src/Runtime/Invariant.antt =====
-- What holds of `ApplicationRuntime` (backend/src/jarvis/runtime/lifecycle.py) between two calls of
-- its methods, whatever the resources do.
use sriee.Base.{
  ◌≡◌, refl, Bool, true, false, not, Option, none, List, [], ◌∷◌, ◌++◌, arith, ◌==◌, str_eq, nat_eq,
  str_beq, reverse, if_intro, option_intro, ◌∙◌, sym, length,
}
use mathlib.Core.List.{append-nil, append_assoc}
use sriee.Text.{Str}
use sriee.Dict.{Dict, lookup, insert, lookup-insert_ne}
use sriee.Runtime.{
  World, Call, ResourceSpec, DependencyHealth, Progress, Runtime, RuntimeState, LifecycleError,
  start_each, close_all, probe_within, start, finish_start, refresh_each, refresh_readiness,
  shutdown, finish_shutdown, drain_workers, may_start, is_running, required_resource_order,
  probed_health,
}
use sriee.Runtime.Resources.{held, held-reverse, close_each-health, Described, start_each-Described}

-- The states that are seen while no method holds the lock.
abbrev pub is_settled : RuntimeState → Bool
is_settled RuntimeState.starting = false
is_settled RuntimeState.draining = false
is_settled _ = true

pub record IsValid (r : Runtime) : Type 0 where
  pub settled : is_settled r.state ≡ true
  pub idle : is_running r.state ≡ false → r.active ≡ []
  pub complete : is_running r.state ≡ true → r.active ≡ r.resource_specs
  pub willing : r.accepting_work ≡ true → is_running r.state ≡ true
  pub described : (n : Str) → Described n r.active r.health

close_all-forgets :
    (n : Str) (w : World) (active : List ResourceSpec) (health : Dict Str DependencyHealth)
    → Described n active health
    → lookup n (close_all w active health).0 ≡ none
unfolding close_all
close_all-forgets n w active health h =
    close_each-health n w (reverse active) health (λ z. h (sym (held-reverse n active) ∙ z))

start_each-active :
    (w : World) (specs active : List ResourceSpec) (health : Dict Str DependencyHealth)
    → (start_each w specs active health).failure ≡ none
    → (start_each w specs active health).active ≡ active ++ specs
unfolding start_each
start_each-active w [] active health = λ h. sym (append-nil active)
start_each-active w (s ∷ specs) active health =
    if_intro P (not (w s.name).creates) (λ absent h. cc)
      λ created.
        if_intro P (not (w s.name).starts) (λ failed h. cc)
          λ started.
            option_intro P (probe_within s.health_timeout (w s.name).probe) (λ silent h. cc)
              λ x answered.
                if_intro P (not x.is_ready) (λ sick h. cc)
                  λ well h.
                    start_each-active w specs (active ++ s ∷ []) (insert s.name x health) h
                    ∙ append_assoc active (s ∷ []) specs
  where
    P : Progress → Type 0
    P p = p.failure ≡ none → p.active ≡ active ++ s ∷ specs

pub finish_start-IsValid :
    (w : World) (p : Progress) (r : Runtime)
    → ((n : Str) → Described n p.active p.health)
    → (p.failure ≡ none → p.active ≡ r.resource_specs)
    → IsValid (finish_start w p r).0
unfolding finish_start held
finish_start-IsValid w p r d c =
    option_intro (λ (x : Runtime × Option LifecycleError × List Call). IsValid x.0) p.failure
      (λ well. record {
        settled = refl;
        idle = λ h. cc;
        complete = λ h. c well;
        willing = λ h. refl;
        described = d;
      })
      (λ name failed. record {
        settled = refl;
        idle = λ h. refl;
        complete = λ h. cc;
        willing = λ h. cc;
        described = λ n z. close_all-forgets n w p.active p.health (d n);
      })

pub start-IsValid : (w : World) (r : Runtime) → IsValid r → IsValid (start w r).0
unfolding start
start-IsValid w r v =
    if_intro (λ (x : Runtime × Option LifecycleError × List Call). IsValid x.0) (may_start r.state)
      (λ free.
        finish_start-IsValid w (start_each w r.resource_specs [] []) r
          (λ n. start_each-Described n w r.resource_specs [] [] (λ z. unfold lookup in refl))
          (start_each-active w r.resource_specs [] []))
      (λ busy. v)

refresh_each-others :
    (n : Str) (w : World) (specs : List ResourceSpec) (health : Dict Str DependencyHealth)
    (b : Bool) (f : Option Str)
    → held n specs ≡ 0
    → lookup n (refresh_each w specs health b f).0 ≡ lookup n health
unfolding refresh_each held
refresh_each-others n w [] health b f z = refl
refresh_each-others n w (s ∷ specs) health b f z =
    let apart : str_beq s.name n ≡ false = ground arith in
    let free : held n specs ≡ 0 = ground arith in
    let x = probed_health w s in
    refresh_each-others n w specs (insert s.name x health) _ _ free
    ∙ lookup-insert_ne s.name n x health apart

pub refresh_readiness-IsValid :
    (w : World) (r : Runtime) → IsValid r → IsValid (refresh_readiness w r).0
unfolding refresh_readiness
refresh_readiness-IsValid w r v =
    if_intro (λ (x : Runtime × List Call). IsValid x.0) (not (is_running r.state)) (λ other. v)
      λ running. record {
        settled = v.settled;
        idle = v.idle;
        complete = v.complete;
        willing = λ h. ground arith;
        described = λ n z.
            refresh_each-others n w r.active r.health
              (length r.active == length required_resource_order) none z
            ∙ v.described n z;
      }

finish_shutdown-IsValid :
    (failures : List Str) (r : Runtime)
    → r.accepting_work ≡ false
    → r.active ≡ []
    → ((n : Str) → lookup n r.health ≡ none)
    → IsValid (finish_shutdown failures r).0
unfolding finish_shutdown
finish_shutdown-IsValid [] r closed_intake none_left forgotten = record {
  settled = refl;
  idle = λ h. none_left;
  complete = λ h. cc;
  willing = λ h. cc;
  described = λ n z. forgotten n;
}
finish_shutdown-IsValid (f ∷ fs) r closed_intake none_left forgotten = record {
  settled = refl;
  idle = λ h. none_left;
  complete = λ h. cc;
  willing = λ h. cc;
  described = λ n z. forgotten n;
}

pub shutdown-IsValid : (w : World) (r : Runtime) → IsValid r → IsValid (shutdown w r).0
unfolding shutdown
shutdown-IsValid w r v =
    if_intro (λ (x : Runtime × Option LifecycleError × List Call). IsValid x.0) (may_start r.state)
      (λ free. record {
        settled = refl;
        idle = λ h. v.idle (ground arith);
        complete = λ h. cc;
        willing = λ h. cc;
        described = v.described;
      })
      λ busy.
        finish_shutdown-IsValid ((drain_workers w r).0 ++ (close_all w r.active r.health).1)
          (record r {
            accepting_work = false;
            active = [];
            health = (close_all w r.active r.health).0;
          })
          refl refl (λ n. close_all-forgets n w r.active r.health (v.described n))
