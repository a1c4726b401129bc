-- ===== src/WebSocket/Stream.antt =====
-- `streamTaskEvents` of backend/src/jarvis/websocket/session.py: the replay of stored events, page by
-- page. Between two pages other calls may reach the repository, so the k-th page is read from the
-- k-th of a sequence of repositories. The loop runs on fuel.
use sriee.Base.{
  ℕ, ℤ, pos, zero, suc, ◌+◌, ◌-◌, ◌≤◌, ◌<◌, ◌≡◌, refl, sym, ap, ◌∙◌, true, some, List, [], ◌∷◌,
  ◌++◌, arith, ltb, if◌then◌else◌, str_eq, length, take, drop, length-take, length-drop,
  length-append, take-all, take-append-drop, drop-drop, Bool-cases, if_intro, ◌⊎◌, inl, inr,
}
use mathlib.Core.Path.{subst}
use native.Mathlib.Nat.{add-zero, zero-add}
use sriee.Text.{Str}
use sriee.Tasks.Errors.{Result, ok, err, TaskError}
use sriee.Tasks.Model.{TaskEvent, TaskEventPageRecord, TaskProjectionRecord}
use sriee.Tasks.Repository.{
  Repository, events_of, list_authorized_events, owned_projection, page_of,
}
use sriee.Tasks.Service.{Principal, list, is_task_id}
use sriee.Tasks.Sequence.{Sequential}
use sriee.Tasks.Invariant.{IsValid}
use sriee.Tasks.Pages.{page_of_numbered, Sequential-drop, Sequential-take}

pub data StreamEnd : Type 0 where
  finished : ℤ → StreamEnd
  raised : TaskError → StreamEnd
  out_of_fuel : StreamEnd

-- `for event in page.events: ... cursor = event.sequence`
unfoldable pub advance : ℤ → List TaskEvent → ℤ
advance cursor [] = cursor
advance cursor (e ∷ es) = advance (pos e.sequence) es

-- The events that were sent, and how the loop ended.
unfoldable pub stream_task_events :
    ℕ → (ℕ → Repository) → Principal → Str → ℤ → ℤ → List TaskEvent × StreamEnd
unfolding advance
stream_task_events zero repository principal task_id cursor page_size = ([], out_of_fuel)
stream_task_events (suc fuel) repository principal task_id cursor page_size =
    elim (list task_id principal cursor page_size (repository 0)) [
      | err e ↦ ([], raised e)
      | ok page ↦
          let rest =
            stream_task_events fuel (λ k. repository (suc k)) principal task_id
              (advance cursor page.events) page_size in
          if page.has_more
          then (page.events ++ rest.0, rest.1)
          else (page.events, finished (advance cursor page.events))
    ]

advance-Sequential :
    (n : ℕ) (es : List TaskEvent) → Sequential n es → advance (pos n) es ≡ pos (n + length es)
unfolding advance
advance-Sequential n [] q = ap pos (omega arith)
advance-Sequential n (e ∷ es) q = rw q.0 (advance-Sequential (suc n) es q.1 ∙ ap pos (omega arith))

-- What a call of `list` on behalf of the stream returns, if it returns.
list-page :
    (t : Str) (p : Principal) (after limit : ℕ) (r : Repository) {page : TaskEventPageRecord}
    → IsValid r
    → list t p (pos after) (pos limit) r ≡ ok page
    → let rest = drop after (events_of t r.events) in
      (page.events ≡ take limit rest) × (page.has_more ≡ ltb limit (length rest))
unfolding list list_authorized_events
list-page t p after limit r v h =
    ground (arith, page_of_numbered t after limit r.events (v.numbered t))

page-numbered :
    (t : Str) (p : Principal) (after limit : ℕ) (r : Repository) {page : TaskEventPageRecord}
    → IsValid r
    → list t p (pos after) (pos limit) r ≡ ok page
    → Sequential after page.events
page-numbered t p after limit r v h = rw (list-page t p after limit r v h).0 (
    Sequential-take after limit (drop after (events_of t r.events))
      (rw (zero-add after) at (Sequential-drop 0 after (events_of t r.events) (v.numbered t))))

pub Sequential-++ :
    (n : ℕ) (xs ys : List TaskEvent)
    → Sequential n xs
    → Sequential (n + length xs) ys
    → Sequential n (xs ++ ys)
Sequential-++ n [] ys q w = (rw add-zero at w)
Sequential-++ n (x ∷ xs) ys q w = (
  q.0,
  Sequential-++ (suc n) xs ys q.1
      (let e : n + suc (length xs) ≡ suc n + length xs = omega arith in rw e at w),
)

-- What the stream says when it ends after `sent`.
abbrev pub Consistent : ℕ → List TaskEvent × StreamEnd → Type 0
Consistent after (sent, finished c) = c ≡ pos (after + length sent)
Consistent after (sent, raised e) = Unit
Consistent after (sent, out_of_fuel) = Unit

abbrev pub Contiguous : ℕ → List TaskEvent × StreamEnd → Type 0
Contiguous after s = Sequential after s.0 × Consistent after s

Contiguous-++ :
    (after : ℕ) (es : List TaskEvent) (sent : List TaskEvent) (end : StreamEnd)
    → Sequential after es
    → Contiguous (after + length es) (sent, end)
    → Contiguous after (es ++ sent, end)
Contiguous-++ after es sent (finished c) q (w, e) =
    (Sequential-++ after es sent q w, e ∙ ap pos (omega (arith, length-append es sent)))
Contiguous-++ after es sent (raised e) q (w, _) = (Sequential-++ after es sent q w, tt)
Contiguous-++ after es sent out_of_fuel q (w, _) = (Sequential-++ after es sent q w, tt)

Result-cases :
    (r : Result TaskEventPageRecord)
    → ((e : TaskError) × (r ≡ err e)) ⊎ ((p : TaskEventPageRecord) × (r ≡ ok p))
Result-cases (err e) = inl (e, refl)
Result-cases (ok p) = inr (p, refl)

-- Whatever happens to the repository between two pages, as long as it is well formed at each, the
-- events that are sent are numbered on from the cursor without a gap or a repetition, and the
-- cursor that is returned is the number of the last one.
pub stream-Contiguous :
    (fuel : ℕ) (repository : ℕ → Repository) (p : Principal) (t : Str) (after limit : ℕ)
    → ((k : ℕ) → IsValid (repository k))
    → Contiguous after (stream_task_events fuel repository p t (pos after) (pos limit))
unfolding stream_task_events
stream-Contiguous zero repository p t after limit v = (tt, tt)
stream-Contiguous (suc fuel) repository p t after limit v =
    elim (Result-cases (list t p (pos after) (pos limit) (repository 0))) [
      | inl (e, failed) ↦ rw (failed, stream_task_events) (tt, tt)
      | inr (page, read) ↦
          let q = page-numbered t p after limit (repository 0) (v 0) read in
          let moved = advance-Sequential after page.events q in
          rw (read, stream_task_events)
            (if_intro (Contiguous after) page.has_more
              (λ more.
                let s =
                  λ (c : ℤ). stream_task_events fuel (λ k. repository (suc k)) p t c (pos limit) in
                let from = pos (after + length page.events) in
                subst (λ c. Contiguous after (page.events ++ (s c).0, (s c).1)) (sym moved)
                  (Contiguous-++ after page.events (s from).0 (s from).1 q (
                    stream-Contiguous fuel (λ k. repository (suc k)) p t
                      (after + length page.events) limit (λ k. v (suc k)))))
              (λ done. (q, moved)))
    ]

-- The owner's page is there.
list-owned :
    (t : Str) (p : Principal) (after limit : ℕ) (r : Repository) {x : TaskProjectionRecord}
    → is_task_id t ≡ true
    → owned_projection t p.actor_id p.device_id r ≡ some x
    → 1 ≤ limit
    → limit ≤ 100
    → list t p (pos after) (pos limit) r ≡ ok (page_of t after limit r.events)
unfolding list list_authorized_events
list-owned t p after limit r shape seen lo hi = ground arith

joined :
    (after limit : ℕ) (rest : List TaskEvent) {s : List TaskEvent × StreamEnd}
    → s ≡ (drop limit rest, finished (pos (after + limit + length (drop limit rest))))
    → limit < length rest
    → ◌≡◌ {A = List TaskEvent × StreamEnd}
        (take limit rest ++ s.0, s.1)
        (rest, finished (pos (after + length rest)))
joined after limit rest h more = ground (arith, take-append-drop limit rest, length-drop limit rest)

-- While the repository stands still, the owner of a task is sent every event behind the cursor, in the
-- order in which they were appended and once each, and the loop ends: one round more than there
-- are events left is enough.
pub stream_replays :
    (fuel : ℕ) (r : Repository) (p : Principal) (t : Str) (after limit : ℕ)
    {x : TaskProjectionRecord}
    → IsValid r
    → is_task_id t ≡ true
    → owned_projection t p.actor_id p.device_id r ≡ some x
    → 1 ≤ limit
    → limit ≤ 100
    → length (drop after (events_of t r.events)) < fuel
    → stream_task_events fuel (λ k. r) p t (pos after) (pos limit) ≡ (
      drop after (events_of t r.events),
      finished (pos (after + length (drop after (events_of t r.events)))),
    )
unfolding stream_task_events
stream_replays zero r p t after limit v shape seen lo hi enough = absurd (omega arith)
stream_replays (suc fuel) r p t after limit v shape seen lo hi enough =
    let es = events_of t r.events in
    let rest = drop after es in
    let read = list-owned t p after limit r shape seen lo hi in
    let spec = page_of_numbered t after limit r.events (v.numbered t) in
    let q : Sequential after (take limit rest) =
      Sequential-take after limit rest
        (rw (zero-add after) at (Sequential-drop 0 after es (v.numbered t))) in
    let moved = advance-Sequential after (take limit rest) q in
    rw (read, stream_task_events)
      (rw spec (elim (Bool-cases (ltb limit (length rest))) [
        | inl more ↦ rw more (
            rw moved (
              let beyond : limit < length rest = ground arith in
              let full : length (take limit rest) ≡ limit =
                ground (arith, length-take limit rest) in
              let next : drop (after + limit) es ≡ drop limit rest =
                sym (drop-drop limit after es) in
              let left : length (drop limit rest) ≡ length rest - limit = length-drop limit rest in
              let ih =
                stream_replays fuel r p t (after + limit) limit v shape seen lo hi
                  (rw next (omega (arith, left))) in
              rw full (joined after limit rest (rw next at ih) beyond)))
        | inr last ↦ rw last (rw moved (rw (take-all limit rest (ground arith))))
      ]))
