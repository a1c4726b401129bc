-- ===== src/Runtime/Resources.antt =====
-- How often each resource is acquired, held and closed (backend/src/jarvis/runtime/lifecycle.py).
use sriee.Base.{
  ℕ, suc, ◌+◌, ◌≡◌, refl, not, none, List, [], ◌∷◌, ◌++◌, arith, ◌==◌, if◌then◌else◌, str_eq,
  reverse, map, if_intro, option_intro, ap, ◌∙◌,
}
use mathlib.Core.List.{reverse-append}
use sriee.Text.{Str}
use sriee.Dict.{Dict, lookup, insert, pop, lookup-insert, lookup-pop}
use sriee.Runtime.{
  World, Call, acquire, start_call, probe_call, drain_call, close_call, ResourceSpec,
  DependencyHealth, Progress, start_each, close_each, close_all, probe_within, prepend,
}

-- The factory calls, and the calls of `close`, for one name.
unfoldable pub acquired : Str → List Call → ℕ
acquired n [] = 0
acquired n (acquire m ∷ cs) = let rest = acquired n cs in if m == n then suc rest else rest
acquired n (_ ∷ cs) = acquired n cs

unfoldable pub closed : Str → List Call → ℕ
closed n [] = 0
closed n (close_call m ∷ cs) = let rest = closed n cs in if m == n then suc rest else rest
closed n (_ ∷ cs) = closed n cs

unfoldable pub held : Str → List ResourceSpec → ℕ
held n [] = 0
held n (s ∷ specs) = let rest = held n specs in if s.name == n then suc rest else rest

pub acquired-append :
    (n : Str) (xs ys : List Call) → acquired n (xs ++ ys) ≡ acquired n xs + acquired n ys
unfolding acquired
acquired-append n [] ys = omega arith
acquired-append n (acquire m ∷ xs) ys = ground (arith, acquired-append n xs ys)
acquired-append n (start_call m ∷ xs) ys = acquired-append n xs ys
acquired-append n (probe_call m ∷ xs) ys = acquired-append n xs ys
acquired-append n (drain_call m ∷ xs) ys = acquired-append n xs ys
acquired-append n (close_call m ∷ xs) ys = acquired-append n xs ys

pub closed-append : (n : Str) (xs ys : List Call) → closed n (xs ++ ys) ≡ closed n xs + closed n ys
unfolding closed
closed-append n [] ys = omega arith
closed-append n (close_call m ∷ xs) ys = ground (arith, closed-append n xs ys)
closed-append n (start_call m ∷ xs) ys = closed-append n xs ys
closed-append n (probe_call m ∷ xs) ys = closed-append n xs ys
closed-append n (drain_call m ∷ xs) ys = closed-append n xs ys
closed-append n (acquire m ∷ xs) ys = closed-append n xs ys

pub held-append : (n : Str) (xs ys : List ResourceSpec) → held n (xs ++ ys) ≡ held n xs + held n ys
unfolding held
held-append n [] ys = omega arith
held-append n (s ∷ xs) ys = ground (arith, held-append n xs ys)

pub held-reverse : (n : Str) (xs : List ResourceSpec) → held n (reverse xs) ≡ held n xs
unfolding held
held-reverse n [] = refl
held-reverse n (s ∷ xs) =
    rw (reverse-append (s ∷ []) xs)
      (ground (arith, held-append n (reverse xs) (s ∷ []), held-reverse n xs))

closed-map :
    (n : Str) (xs : List ResourceSpec) → closed n (map (λ s. close_call s.name) xs) ≡ held n xs
unfolding closed held
closed-map n [] = refl
closed-map n (s ∷ xs) = ground (arith, closed-map n xs)

acquired-map : (n : Str) (xs : List ResourceSpec) → acquired n (map (λ s. close_call s.name) xs) ≡ 0
unfolding acquired
acquired-map n [] = refl
acquired-map n (s ∷ xs) = acquired-map n xs

-- The calls of the loop, whatever fails: one for each resource.
pub close_each-calls :
    (w : World) (xs : List ResourceSpec) (health : Dict Str DependencyHealth)
    → (close_each w xs health).2 ≡ map (λ s. close_call s.name) xs
unfolding close_each
close_each-calls w [] health = refl
close_each-calls w (s ∷ xs) health =
    ap (λ (cs : List Call). close_call s.name ∷ cs) (close_each-calls w xs (pop s.name health))

-- Rolling back or shutting down closes each resource that is held, and acquires none.
pub close_all_balance :
    (n : Str) (w : World) (xs : List ResourceSpec) (health : Dict Str DependencyHealth)
    → (closed n (close_all w xs health).2 ≡ held n xs) × (acquired n (close_all w xs health).2 ≡ 0)
unfolding close_all
close_all_balance n w xs health = (
  ap (closed n) (close_each-calls w (reverse xs) health)
      ∙ closed-map n (reverse xs)
      ∙ held-reverse n xs,
  ap (acquired n) (close_each-calls w (reverse xs) health) ∙ acquired-map n (reverse xs),
)

-- The resources that a run of the loop adds are those that it acquired, and it closes nothing.
abbrev pub IsBalanced : Str → List ResourceSpec → Progress → Type 0
IsBalanced n active p =
    (held n p.active ≡ held n active + acquired n p.calls) × (closed n p.calls ≡ 0)

held-snoc :
    (n : Str) (active : List ResourceSpec) (s : ResourceSpec)
    → held n (active ++ s ∷ []) ≡ held n active + (if s.name == n then 1 else 0)
unfolding held
held-snoc n active s = ground (arith, held-append n active (s ∷ []))

IsBalanced-prepend :
    (n : Str) (active : List ResourceSpec) (s : ResourceSpec) (p : Progress)
    → IsBalanced n (active ++ s ∷ []) p
    → IsBalanced n active (prepend (acquire s.name ∷ start_call s.name ∷ probe_call s.name ∷ []) p)
unfolding acquired closed
IsBalanced-prepend n active s p h = (ground (arith, held-snoc n active s), ground arith)

pub start_each_balance :
    (n : Str) (w : World) (specs active : List ResourceSpec) (health : Dict Str DependencyHealth)
    → IsBalanced n active (start_each w specs active health)
unfolding start_each acquired closed
start_each_balance n w [] active health = (omega arith, refl)
start_each_balance n w (s ∷ specs) active health =
    let one = held-snoc n active s in
    if_intro (IsBalanced n active) (not (w s.name).creates) (λ absent. (omega arith, refl))
      λ created.
        if_intro (IsBalanced n active) (not (w s.name).starts)
          (λ failed. (ground (arith, one), refl))
          λ started.
            option_intro (IsBalanced n active) (probe_within s.health_timeout (w s.name).probe)
              (λ silent. (ground (arith, one), refl))
              λ x answered.
                if_intro (IsBalanced n active) (not x.is_ready)
                  (λ sick. (ground (arith, one), refl))
                  λ well.
                    IsBalanced-prepend n active s
                      (start_each w specs (active ++ s ∷ []) (insert s.name x health))
                      (start_each_balance n w specs (active ++ s ∷ []) (insert s.name x health))

-- Closing forgets the health of what is closed, and of nothing else.
pub close_each-health :
    (n : Str) (w : World) (specs : List ResourceSpec) (health : Dict Str DependencyHealth)
    → (held n specs ≡ 0 → lookup n health ≡ none)
    → lookup n (close_each w specs health).0 ≡ none
unfolding close_each held
close_each-health n w [] health h = h refl
close_each-health n w (s ∷ specs) health h = ground (
  arith,
  lookup-pop s.name n health,
  close_each-health n w specs (pop s.name health)
      (λ z. ground (arith, lookup-pop s.name n health, h)),
)

abbrev pub Described : Str → List ResourceSpec → Dict Str DependencyHealth → Type 0
Described n active health = held n active ≡ 0 → lookup n health ≡ none

told_lem :
    (n : Str) (active : List ResourceSpec) (s : ResourceSpec) (health : Dict Str DependencyHealth)
    (x : DependencyHealth)
    → Described n active health
    → Described n (active ++ s ∷ []) (insert s.name x health)
told_lem n active s health x h z =
    let free : held n active ≡ 0 = omega (arith, held-snoc n active s) in
    ground (arith, held-snoc n active s, h free, lookup-insert s.name n x health)

-- A health is only known of a resource that is active.
pub start_each-Described :
    (n : Str) (w : World) (specs active : List ResourceSpec) (health : Dict Str DependencyHealth)
    → Described n active health
    → let p = start_each w specs active health in Described n p.active p.health
unfolding start_each
start_each-Described n w [] active health h = h
start_each-Described n w (s ∷ specs) active health h =
    let one = held-snoc n active s in
    let grown : Described n (active ++ s ∷ []) health = λ z. h (omega (arith, one)) in
    let told = λ (x : DependencyHealth) (z : held n (active ++ s ∷ []) ≡ 0).
      told_lem n active s health x h z in
    if_intro P (not (w s.name).creates) (λ absent. h)
      λ created.
        if_intro P (not (w s.name).starts) (λ failed. grown)
          λ started.
            option_intro P (probe_within s.health_timeout (w s.name).probe) (λ silent. grown)
              λ x answered.
                if_intro P (not x.is_ready) (λ sick. told x)
                  λ well.
                    start_each-Described n w specs (active ++ s ∷ []) (insert s.name x health)
                      (told x)
  where
    P : Progress → Type 0
    P p = Described n p.active p.health
