-- ===== src/Tasks/Pages.antt =====
-- The pages of a task's events (`list_authorized_events` of backend/src/jarvis/tasks/repository.py).
use sriee.Base.{
  ℕ, zero, suc, ◌+◌, ◌≤◌, ◌≡◌, refl, sym, ap, ◌∙◌, false, List, [], ◌∷◌, arith, if◌then◌else◌,
  length, take, drop, ltb, length-take, take-take-suc, str_eq,
}
use native.Mathlib.Nat.{add-zero, zero-add}
use sriee.Text.{Str}
use sriee.Tasks.Model.{TaskEvent}
use sriee.Tasks.Repository.{
  events_of, events_after, insert_event, sort_events, last_sequence, page_of,
}
use sriee.Tasks.Sequence.{Sequential}

-- `event.sequence > after`
later : ℕ → List TaskEvent → List TaskEvent
later after [] = []
later after (e ∷ es) = let rest = later after es in if ltb after e.sequence then e ∷ rest else rest

events_after-eq-later :
    (t : Str) (after : ℕ) (es : List TaskEvent)
    → events_after t after es ≡ later after (events_of t es)
unfolding events_after events_of later
events_after-eq-later t after [] = refl
events_after-eq-later t after (e ∷ es) = ground (arith, events_after-eq-later t after es)

later_all : (n after : ℕ) (es : List TaskEvent) → after ≤ n → Sequential n es → later after es ≡ es
unfolding later
later_all n after [] h q = refl
later_all n after (e ∷ es) h q = ground (arith, later_all (suc n) after es (omega arith) q.1)

later-drop : (n k : ℕ) (es : List TaskEvent) → Sequential n es → later (n + k) es ≡ drop k es
unfolding later
later-drop n zero es q = later_all n (n + 0) es (omega arith) q
later-drop n (suc k) [] q = refl
later-drop n (suc k) (e ∷ es) q =
    let shift : n + suc k ≡ suc n + k = omega arith in
    let ih : later (n + suc k) es ≡ drop k es = rw shift (later-drop (suc n) k es q.1) in
    let skip : ltb (n + suc k) e.sequence ≡ false = ground (arith, q.0) in rw (skip, ih)

pub Sequential-drop :
    (n k : ℕ) (es : List TaskEvent) → Sequential n es → Sequential (n + k) (drop k es)
Sequential-drop n zero es q = rw (add-zero n) q
Sequential-drop n (suc k) [] q = tt
Sequential-drop n (suc k) (e ∷ es) q =
    let shift : n + suc k ≡ suc n + k = omega arith in rw shift (Sequential-drop (suc n) k es q.1)

pub Sequential-take : (n k : ℕ) (es : List TaskEvent) → Sequential n es → Sequential n (take k es)
Sequential-take n zero es q = tt
Sequential-take n (suc k) [] q = tt
Sequential-take n (suc k) (e ∷ es) q = (q.0, Sequential-take (suc n) k es q.1)

insert_event-Sequential :
    (n : ℕ) (e : TaskEvent) (es : List TaskEvent)
    → e.sequence ≡ suc n
    → Sequential (suc n) es
    → insert_event e es ≡ e ∷ es
unfolding insert_event
insert_event-Sequential n e [] h q = refl
insert_event-Sequential n e (x ∷ es) h q = ground arith

sort_events-Sequential : (n : ℕ) (es : List TaskEvent) → Sequential n es → sort_events es ≡ es
unfolding sort_events
sort_events-Sequential n [] q = refl
sort_events-Sequential n (e ∷ es) q =
    rw (sort_events-Sequential (suc n) es q.1) (insert_event-Sequential n e es q.0 q.1)

pub last_sequence-Sequential :
    (n : ℕ) (es : List TaskEvent) → Sequential n es → last_sequence n es ≡ n + length es
unfolding last_sequence
last_sequence-Sequential n [] q = omega arith
last_sequence-Sequential n (e ∷ es) q =
    rw q.0 (last_sequence-Sequential (suc n) es q.1 ∙ omega arith)

ordered-eq-drop :
    (t : Str) (after : ℕ) (es : List TaskEvent)
    → Sequential 0 (events_of t es)
    → sort_events (events_after t after es) ≡ drop after (events_of t es)
ordered-eq-drop t after es q =
    let shift : later after (events_of t es) ≡ drop after (events_of t es) =
      ap (λ (k : ℕ). later k (events_of t es)) (sym (zero-add after))
      ∙ later-drop 0 after (events_of t es) q in
    rw (events_after-eq-later t after es) (
      rw shift (
        sort_events-Sequential (0 + after) (drop after (events_of t es))
          (Sequential-drop 0 after (events_of t es) q)))

-- Fetching one event more than a page tells whether there are more.
more-take-suc : (n : ℕ) (es : List TaskEvent) → ltb n (length (take (suc n) es)) ≡ ltb n (length es)
more-take-suc n es = ground (arith, length-take (suc n) es)

-- For a task whose events are numbered from 1, the page behind a cursor holds the next events in
-- the order in which they were appended, at most `limit`; the cursor moves by as many, and `has_more`
-- says whether events are left.
pub page_of_numbered :
    (t : Str) (after limit : ℕ) (es : List TaskEvent)
    → Sequential 0 (events_of t es)
    → let rest = drop after (events_of t es) in
      page_of t after limit es ≡ record {
        task_id = t;
        events = take limit rest;
        next_cursor = after + length (take limit rest);
        has_more = ltb limit (length rest);
      }
unfolding page_of
page_of_numbered t after limit es q =
    let rest = drop after (events_of t es) in
    let numbered : Sequential after (take limit rest) =
      Sequential-take after limit rest
        (rw (zero-add after) at (Sequential-drop 0 after (events_of t es) q)) in
    rw (ordered-eq-drop t after es q) (
      rw (take-take-suc limit rest) (
        rw (more-take-suc limit rest)
          (rw (last_sequence-Sequential after (take limit rest) numbered))))
