-- ===== src/WebSocket/Frames.antt =====
-- What one message of the broker makes a session send about a task (backend/src/jarvis/websocket/session.py).
use sriee.Base.{
  ℕ, pos, suc, Bool, not, ◌≡◌, refl, ◌∙◌, true, none, some, List, [], ◌∷◌, ◌++◌, leb, arith,
  if◌then◌else◌, str_eq, str_beq, str_beq_iff, nat_eq, nat_beq, ◌==◌, ◌⊎◌, Bool-cases, inl, inr,
}
use sriee.Text.{Str, codes}
use sriee.Dict.{lookup, lookup-insert, lookup-pop}
use sriee.Tasks.Model.{TaskEvent}
use sriee.WebSocket.Broker.{BrokerMessage}
use sriee.WebSocket.Session.{
  Session, Output, task_event, error_frame, resync_required, pong, task_subscribed,
  task_unsubscribed, on_message,
}

-- The frames about one task among what was sent: its live events and its requests to resynchronise.
unfoldable pub task_frames : Str → List Output → List Output
task_frames t [] = []
task_frames t (task_event e ∷ out) =
    let rest = task_frames t out in if e.task_id == t then task_event e ∷ rest else rest
task_frames t (resync_required u c reason ∷ out) =
    let rest = task_frames t out in if u == t then resync_required u c reason ∷ rest else rest
task_frames t (_ ∷ out) = task_frames t out

-- The messages of a queue, one turn each.
unfoldable pub on_messages : List BrokerMessage → Session → Session × List Output
on_messages [] s = (s, [])
on_messages (m ∷ ms) s =
    let first = on_message m s in let rest = on_messages ms first.0 in (rest.0, first.1 ++ rest.1)

-- `publish` puts an event under its own task.
abbrev pub WellAddressed : List BrokerMessage → Type 0
WellAddressed [] = Unit
WellAddressed (BrokerMessage.resync t reason ∷ ms) = WellAddressed ms
WellAddressed (BrokerMessage.event t e ∷ ms) = (e.task_id ≡ t) × WellAddressed ms

pub split_addressed :
    (m : BrokerMessage) (ms : List BrokerMessage)
    → WellAddressed (m ∷ ms)
    → WellAddressed (m ∷ []) × WellAddressed ms
split_addressed (BrokerMessage.resync t reason) ms w = (tt, w)
split_addressed (BrokerMessage.event t e) ms w = ((w.0, tt), w.1)

-- What the message says of the task is known behind its event number `n`.
abbrev pub is_covered : Str → ℕ → BrokerMessage → Bool
is_covered t n (BrokerMessage.resync u reason) = not (u == t)
is_covered t n (BrokerMessage.event u e) = if u == t then leb e.sequence n else true

pub task_frames-append :
    (t : Str) (xs ys : List Output)
    → task_frames t (xs ++ ys) ≡ task_frames t xs ++ task_frames t ys
unfolding task_frames
task_frames-append t [] ys = refl
task_frames-append t (task_event e ∷ xs) ys = ground (arith, task_frames-append t xs ys)
task_frames-append t (resync_required u c r ∷ xs) ys = ground (arith, task_frames-append t xs ys)
task_frames-append t (pong ∷ xs) ys = task_frames-append t xs ys
task_frames-append t (error_frame c ∷ xs) ys = task_frames-append t xs ys
task_frames-append t (task_subscribed u c ∷ xs) ys = task_frames-append t xs ys
task_frames-append t (task_unsubscribed u ∷ xs) ys = task_frames-append t xs ys

-- Without a cursor nothing is sent about the task, and no cursor appears.
abbrev Silent : Str → Session × List Output → Type 0
Silent t x = (lookup t x.0.cursors ≡ none) × (task_frames t x.1 ≡ [])

on_message-Silent :
    (t : Str) (m : BrokerMessage) (s : Session)
    → WellAddressed (m ∷ [])
    → lookup t s.cursors ≡ none
    → Silent t (on_message m s)
unfolding on_message task_frames
on_message-Silent t (BrokerMessage.resync u reason) s w h =
    ground (arith, lookup-pop u t s.cursors, str_beq_iff u t)
on_message-Silent t (BrokerMessage.event u e) s w h = ground (
  arith,
  w.0,
  lookup-pop u t s.cursors,
  lookup-insert u t (pos e.sequence) s.cursors,
  str_beq_iff u t,
  str_beq_iff e.task_id t,
)

pub on_messages-Silent :
    (t : Str) (ms : List BrokerMessage) (s : Session)
    → WellAddressed ms
    → lookup t s.cursors ≡ none
    → Silent t (on_messages ms s)
unfolding on_messages task_frames
on_messages-Silent t [] s w h = (h, refl)
on_messages-Silent t (m ∷ ms) s w h =
    let (one, rest) = split_addressed m ms w in
    let (gone, quiet) = on_message-Silent t m s one h in
    let later = on_messages-Silent t ms (on_message m s).0 rest gone in
    (
      later.0,
      task_frames-append t (on_message m s).1 (on_messages ms (on_message m s).0).1
          ∙ rw quiet later.1,
    )

-- One message either leaves the task alone, which knew of it already, or sends its next event and moves the cursor by
-- one, or asks to resynchronise it and drops its cursor.
abbrev NextOrGone : Str → ℕ → BrokerMessage → Session × List Output → Type 0
NextOrGone t c m x =
    ((lookup t x.0.cursors ≡ some (pos c)) × (task_frames t x.1 ≡ []) × (is_covered t c m ≡ true))
    ⊎ (((e : TaskEvent) × (e.sequence ≡ suc c)
          × (lookup t x.0.cursors ≡ some (pos (suc c)))
          × (task_frames t x.1 ≡ task_event e ∷ [])
          × (is_covered t (suc c) m ≡ true))
        ⊎ ((reason : Str) × (lookup t x.0.cursors ≡ none)
            × (task_frames t x.1 ≡ resync_required t (pos c) reason ∷ [])))

pub on_message-NextOrGone :
    (t : Str) (c : ℕ) (m : BrokerMessage) (s : Session)
    → WellAddressed (m ∷ [])
    → lookup t s.cursors ≡ some (pos c)
    → NextOrGone t c m (on_message m s)
unfolding on_message task_frames
on_message-NextOrGone t c (BrokerMessage.resync u reason) s w h = elim (Bool-cases (str_beq u t)) [
  | inl same ↦ inr (
      inr (
        reason,
        ground (arith, lookup-pop u t s.cursors, str_beq_iff u t),
        ground (arith, str_beq_iff u t),
      ))
  | inr apart ↦ inl (
    ground (arith, lookup-pop u t s.cursors, str_beq_iff u t),
    ground (arith, str_beq_iff u t),
    ground arith,
  )
]
on_message-NextOrGone t c (BrokerMessage.event u e) s w h = elim (Bool-cases (str_beq u t)) [
  | inl same ↦ elim (Bool-cases (leb e.sequence c)) [
    | inl old ↦ inl (ground (arith, str_beq_iff u t), ground (arith, str_beq_iff u t), ground arith)
    | inr new ↦ elim (Bool-cases (nat_beq e.sequence (suc c))) [
      | inl next ↦ inr (
          inl (
            e,
            ground arith,
            ground (arith, str_beq_iff u t, lookup-insert u t (pos e.sequence) s.cursors),
            ground (arith, w.0, str_beq_iff u t, str_beq_iff e.task_id t),
            ground arith,
          ))
      | inr gap ↦ inr (
          inr (
            codes "sequence_gap",
            ground (arith, str_beq_iff u t, lookup-pop u t s.cursors),
            ground (arith, str_beq_iff u t),
          ))
    ]
  ]
  | inr apart ↦ inl (
    ground (
      arith,
      lookup-pop u t s.cursors,
      lookup-insert u t (pos e.sequence) s.cursors,
      str_beq_iff u t,
    ),
    ground (arith, w.0, str_beq_iff u t, str_beq_iff e.task_id t),
    ground arith,
  )
]
