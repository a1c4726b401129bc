-- ===== src/Runtime/Rollback.antt =====
-- The order of closing, in a start that failed and in a shutdown (backend/src/jarvis/runtime/lifecycle.py).
use sriee.Base.{
  ◌≡◌, refl, Bool, true, false, not, ◌&&◌, some, List, [], ◌∷◌, ◌++◌, arith, str_eq, nat_eq,
  reverse, map, if_intro, option_intro, ap, ◌∙◌, sym, Option-cases, inl, inr,
}
use mathlib.Core.List.{append-nil, append_assoc, reverse-append}
use sriee.Text.{Str}
use sriee.Dict.{Dict, insert}
use sriee.Runtime.{
  World, Call, acquire, start_call, probe_call, drain_call, close_call, ResourceSpec,
  DependencyHealth, Progress, Runtime, RuntimeState, LifecycleError, start_each, close_all,
  probe_within, done_within, prepend, start, finish_start, may_start,
}
use sriee.Runtime.Resources.{close_each-calls}
use sriee.Runtime.Startup.{acquired_names, closed_names, names}

acquired_names-append :
    (xs ys : List Call) → acquired_names (xs ++ ys) ≡ acquired_names xs ++ acquired_names ys
unfolding acquired_names
acquired_names-append [] ys = refl
acquired_names-append (acquire m ∷ xs) ys =
    ap (λ (l : List Str). m ∷ l) (acquired_names-append xs ys)
acquired_names-append (start_call m ∷ xs) ys = acquired_names-append xs ys
acquired_names-append (probe_call m ∷ xs) ys = acquired_names-append xs ys
acquired_names-append (drain_call m ∷ xs) ys = acquired_names-append xs ys
acquired_names-append (close_call m ∷ xs) ys = acquired_names-append xs ys

closed_names-append :
    (xs ys : List Call) → closed_names (xs ++ ys) ≡ closed_names xs ++ closed_names ys
unfolding closed_names
closed_names-append [] ys = refl
closed_names-append (close_call m ∷ xs) ys =
    ap (λ (l : List Str). m ∷ l) (closed_names-append xs ys)
closed_names-append (start_call m ∷ xs) ys = closed_names-append xs ys
closed_names-append (probe_call m ∷ xs) ys = closed_names-append xs ys
closed_names-append (drain_call m ∷ xs) ys = closed_names-append xs ys
closed_names-append (acquire m ∷ xs) ys = closed_names-append xs ys

names-append : (xs ys : List ResourceSpec) → names (xs ++ ys) ≡ names xs ++ names ys
unfolding names
names-append [] ys = refl
names-append (s ∷ xs) ys = ap (λ (l : List Str). s.name ∷ l) (names-append xs ys)

names-reverse : (xs : List ResourceSpec) → names (reverse xs) ≡ reverse (names xs)
unfolding names
names-reverse [] = refl
names-reverse (s ∷ xs) = rw (reverse-append (s ∷ []) xs) (
    rw (names-append (reverse xs) (s ∷ []))
      (rw (reverse-append (s.name ∷ []) (names xs)) (rw (names-reverse xs))))

closed_names-map :
    (xs : List ResourceSpec) → closed_names (map (λ s. close_call s.name) xs) ≡ names xs
unfolding closed_names names
closed_names-map [] = refl
closed_names-map (s ∷ xs) = ap (λ (l : List Str). s.name ∷ l) (closed_names-map xs)

acquired_names-map :
    (xs : List ResourceSpec) → acquired_names (map (λ s. close_call s.name) xs) ≡ []
unfolding acquired_names
acquired_names-map [] = refl
acquired_names-map (s ∷ xs) = acquired_names-map xs

closed_names-close_all :
    (w : World) (xs : List ResourceSpec) (health : Dict Str DependencyHealth)
    → closed_names (close_all w xs health).2 ≡ reverse (names xs)
unfolding close_all
closed_names-close_all w xs health =
    ap closed_names (close_each-calls w (reverse xs) health)
    ∙ closed_names-map (reverse xs)
    ∙ names-reverse xs

acquired_names-close_all :
    (w : World) (xs : List ResourceSpec) (health : Dict Str DependencyHealth)
    → acquired_names (close_all w xs health).2 ≡ []
unfolding close_all
acquired_names-close_all w xs health =
    ap acquired_names (close_each-calls w (reverse xs) health) ∙ acquired_names-map (reverse xs)

-- The loop of `start` adds what it acquires, in order, and closes nothing.
abbrev Ordered : List ResourceSpec → Progress → Type 0
Ordered active p =
    (names p.active ≡ names active ++ acquired_names p.calls) × (closed_names p.calls ≡ [])

Ordered-prepend :
    (active : List ResourceSpec) (s : ResourceSpec) (p : Progress)
    → Ordered (active ++ s ∷ []) p
    → Ordered active (prepend (acquire s.name ∷ start_call s.name ∷ probe_call s.name ∷ []) p)
unfolding acquired_names closed_names names
Ordered-prepend active s p h = (
  h.0
      ∙ ap (λ (l : List Str). l ++ acquired_names p.calls) (names-append active (s ∷ []))
      ∙ append_assoc (names active) (s.name ∷ []) (acquired_names p.calls),
  h.1,
)

start_each-Ordered :
    (w : World) (specs active : List ResourceSpec) (health : Dict Str DependencyHealth)
    → Ordered active (start_each w specs active health)
unfolding start_each acquired_names closed_names names
start_each-Ordered w [] active health = (sym (append-nil (names active)), refl)
start_each-Ordered w (s ∷ specs) active health =
    if_intro (Ordered active) (not (w s.name).creates)
      (λ absent. (sym (append-nil (names active)), refl))
      λ created.
        if_intro (Ordered active) (not (w s.name).starts)
          (λ failed. (names-append active (s ∷ []), refl))
          λ started.
            option_intro (Ordered active) (probe_within s.health_timeout (w s.name).probe)
              (λ silent. (names-append active (s ∷ []), refl))
              λ x answered.
                if_intro (Ordered active) (not x.is_ready)
                  (λ sick. (names-append active (s ∷ []), refl))
                  λ well.
                    Ordered-prepend active s
                      (start_each w specs (active ++ s ∷ []) (insert s.name x health))
                      (start_each-Ordered w specs (active ++ s ∷ []) (insert s.name x health))

finish_start-rolls_back :
    (w : World) (p : Progress) (r : Runtime) {e : LifecycleError}
    → Ordered [] p
    → (finish_start w p r).1 ≡ some e
    → let x = finish_start w p r in
      (closed_names x.2 ≡ reverse (acquired_names x.2))
      × (x.0.active ≡ [])
      × (x.0.state ≡ RuntimeState.failed)
unfolding finish_start names
finish_start-rolls_back w p r o h = elim (Option-cases p.failure) [
  | inl well ↦ ground arith
  | inr (name, failed) ↦
      rw (failed, finish_start)
        (
          closed_names-append p.calls (close_all w p.active p.health).2
              ∙ ap (λ (l : List Str). l ++ closed_names (close_all w p.active p.health).2) o.1
              ∙ closed_names-close_all w p.active p.health
              ∙ ap reverse (
                  o.0
                  ∙ sym (
                      acquired_names-append p.calls (close_all w p.active p.health).2
                      ∙ ap (λ (l : List Str). acquired_names p.calls ++ l)
                          (acquired_names-close_all w p.active p.health)
                      ∙ append-nil (acquired_names p.calls))),
          refl,
          refl,
        )
]

-- A start that fails after it was allowed closes every resource that it acquired, each once and in
-- the reverse order, holds none, and has failed.
pub start_rolls_back :
    (w : World) (r : Runtime) {e : LifecycleError}
    → may_start r.state ≡ true
    → (start w r).1 ≡ some e
    → let x = start w r in
      (closed_names x.2 ≡ reverse (acquired_names x.2))
      × (x.0.active ≡ [])
      × (x.0.state ≡ RuntimeState.failed)
unfolding start
start_rolls_back w r free h =
    let p = start_each w r.resource_specs [] [] in
    rw (free, start)
      (finish_start-rolls_back w p r (start_each-Ordered w r.resource_specs [] [])
        (rw (free, start) at h))

-- Every resource closes in time, and the workers, if they can be drained, are drained in time.
abbrev pub all_closing : World → List ResourceSpec → Bool
all_closing w [] = true
all_closing w (s ∷ specs) = done_within s.close_timeout (w s.name).closes && all_closing w specs

abbrev pub is_nil : List Str → Bool
is_nil [] = true
is_nil (_ ∷ _) = false
