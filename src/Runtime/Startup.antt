-- ===== src/Runtime/Startup.antt =====
-- Start-up: all or nothing (backend/src/jarvis/runtime/lifecycle.py).
use sriee.Base.{
  ◌≡◌, refl, Bool, true, false, not, ◌&&◌, Option, none, some, List, [], ◌∷◌, ◌++◌, arith,
  if◌then◌else◌, str_eq, nat_eq, if_intro, option_intro, ◌∙◌,
}
use sriee.Text.{Str}
use sriee.Dict.{Dict, insert}
use sriee.Runtime.{
  World, Call, acquire, close_call, ResourceSpec, DependencyHealth, Progress, Runtime, RuntimeState,
  LifecycleError, start_each, probe_within, start, finish_start, may_start,
}

abbrev pub answers_ready : Option DependencyHealth → Bool
answers_ready none = false
answers_ready (some x) = x.is_ready

-- The resource is made, starts, and answers its probe in time that it is ready.
abbrev pub is_healthy : World → ResourceSpec → Bool
is_healthy w s =
    (w s.name).creates
    && ((w s.name).starts && answers_ready (probe_within s.health_timeout (w s.name).probe))

abbrev pub all_healthy : World → List ResourceSpec → Bool
all_healthy w [] = true
all_healthy w (s ∷ specs) = if is_healthy w s then all_healthy w specs else false

abbrev pub succeeded : Option Str → Bool
succeeded none = true
succeeded (some _) = false

start_each-succeeds :
    (w : World) (specs active : List ResourceSpec) (health : Dict Str DependencyHealth)
    → succeeded (start_each w specs active health).failure ≡ all_healthy w specs
unfolding start_each
start_each-succeeds w [] active health = refl
start_each-succeeds w (s ∷ specs) active health =
    if_intro P (not (w s.name).creates) (λ absent. ground arith)
      λ created.
        if_intro P (not (w s.name).starts) (λ failed. ground arith)
          λ started.
            option_intro P (probe_within s.health_timeout (w s.name).probe) (λ silent. ground arith)
              λ x answered.
                if_intro P (not x.is_ready) (λ sick. ground arith)
                  λ well.
                    start_each-succeeds w specs (active ++ s ∷ []) (insert s.name x health)
                    ∙ ground arith
  where
    P : Progress → Type 0
    P p = succeeded p.failure ≡ all_healthy w (s ∷ specs)

abbrev pub no_error : Option LifecycleError → Bool
no_error none = true
no_error (some _) = false

-- A start that is allowed succeeds exactly when every resource is made, starts and answers in time
-- that it is ready; then the runtime is ready and takes work, else it has failed and takes none.
pub start_succeeds :
    (w : World) (r : Runtime)
    → may_start r.state ≡ true
    → let x = start w r in
      let healthy = all_healthy w r.resource_specs in
      (no_error x.1 ≡ healthy)
      × (x.0.state ≡ (if healthy then RuntimeState.ready else RuntimeState.failed))
      × (x.0.accepting_work ≡ healthy)
unfolding start finish_start
start_succeeds w r free = ground (arith, start_each-succeeds w r.resource_specs [] [])

-- The names of the resources that were acquired, and of those that were closed, in order.
unfoldable pub acquired_names : List Call → List Str
acquired_names [] = []
acquired_names (acquire n ∷ cs) = n ∷ acquired_names cs
acquired_names (_ ∷ cs) = acquired_names cs

unfoldable pub closed_names : List Call → List Str
closed_names [] = []
closed_names (close_call n ∷ cs) = n ∷ closed_names cs
closed_names (_ ∷ cs) = closed_names cs

unfoldable pub names : List ResourceSpec → List Str
names [] = []
names (s ∷ specs) = s.name ∷ names specs
