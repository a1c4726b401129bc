-- ===== src/WebSocket/Live.antt =====
-- What a desktop session sends of the live events, and which messages it loses
-- (backend/src/jarvis/websocket/session.py).
use sriee.Base.{
  ℕ, pos, suc, ◌+◌, map, all, ap, ◌≤◌, ◌<◌, ◌≡◌, refl, ◌∙◌, true, none, some, List, [], ◌∷◌, ◌++◌,
  arith, str_eq, nat_eq, length, ◌⊎◌, inl, inr,
}
use sriee.Text.{Str, codes}
use sriee.Dict.{lookup, lookup-insert_self}
use sriee.Tasks.Model.{TaskEvent}
use sriee.Tasks.Repository.{Repository}
use sriee.Tasks.Sequence.{Sequential}
use sriee.WebSocket.Broker.{BrokerMessage}
use sriee.WebSocket.Session.{
  Session, Output, task_event, error_frame, resync_required, on_message, Limits, bad_json, turn,
  drop_old,
}
use sriee.WebSocket.Frames.{
  task_frames, on_messages, WellAddressed, split_addressed, is_covered, task_frames-append,
  on_messages-Silent, on_message-NextOrGone,
}

-- What was sent about the task over the messages `ms` are the events `es`, numbered on from `c` to `n`; and the task
-- is either followed to their end, with nothing missed, or left behind them.
abbrev pub Followed : Str → ℕ → List BrokerMessage → Session × List Output → Type 0
Followed t c ms x =
    (es : List TaskEvent) × (n : ℕ) × Sequential c es
    × (n ≡ c + length es)
    × (((task_frames t x.1 ≡ map task_event es)
          × (lookup t x.0.cursors ≡ some (pos n))
          × (all (is_covered t n) ms ≡ true))
        ⊎ ((reason : Str) × (task_frames t x.1
              ≡ map task_event es ++ resync_required t (pos n) reason ∷ [])
            × (lookup t x.0.cursors ≡ none)))

is_covered-le :
    (t : Str) (c n : ℕ) (m : BrokerMessage)
    → c ≤ n
    → is_covered t c m ≡ true
    → is_covered t n m ≡ true
is_covered-le t c n (BrokerMessage.resync u reason) h k = k
is_covered-le t c n (BrokerMessage.event u e) h k = ground arith

-- A message that leaves the task alone, and then the rest.
Followed-stays :
    (t : Str) (c : ℕ) (m : BrokerMessage) (ms : List BrokerMessage) (x y : Session × List Output)
    → task_frames t x.1 ≡ []
    → is_covered t c m ≡ true
    → Followed t c ms y
    → Followed t c (m ∷ ms) (y.0, x.1 ++ y.1)
Followed-stays t c m ms x y quiet known (es, n, numbered, end, rest) =
    let frames =
      task_frames-append t x.1 y.1 ∙ ap (λ (l : List Output). l ++ task_frames t y.1) quiet in
    (
      es,
      n,
      numbered,
      end,
      elim rest [
        | inl (sent, cursor, all_known) ↦
            inl (frames ∙ sent, cursor, rw (is_covered-le t c n m (omega arith) known) all_known)
        | inr (reason, sent, gone) ↦ inr (reason, frames ∙ sent, gone)
      ],
    )

-- The next event, and then the rest.
Followed-moves :
    (t : Str) (c : ℕ) (m : BrokerMessage) (ms : List BrokerMessage) (x y : Session × List Output)
    (e : TaskEvent)
    → e.sequence ≡ suc c
    → task_frames t x.1 ≡ task_event e ∷ []
    → is_covered t (suc c) m ≡ true
    → Followed t (suc c) ms y
    → Followed t c (m ∷ ms) (y.0, x.1 ++ y.1)
Followed-moves t c m ms x y e number one known (es, n, numbered, end, rest) =
    let frames =
      task_frames-append t x.1 y.1 ∙ ap (λ (l : List Output). l ++ task_frames t y.1) one in
    (
      e ∷ es,
      n,
      (number, numbered),
      omega (arith, end),
      elim rest [
        | inl (sent, cursor, all_known) ↦ inl (
          frames ∙ ap (λ (l : List Output). task_event e ∷ l) sent,
          cursor,
          rw (is_covered-le t (suc c) n m (omega arith) known) all_known,
        )
        | inr (reason, sent, gone) ↦
            inr (reason, frames ∙ ap (λ (l : List Output). task_event e ∷ l) sent, gone)
      ],
    )

-- From a cursor on, over any messages of the broker for any tasks, in any order and with any repetition, what a
-- session sends about a task are its events, numbered on from the cursor without a gap or a repetition. Either that is
-- all, the cursor stands at the last of them, and every message about the task was an event up to there; or the
-- events are followed by one request to resynchronise from there, behind which nothing more is sent about the task and
-- its cursor is gone.
pub live_contiguous :
    (t : Str) (c : ℕ) (ms : List BrokerMessage) (s : Session)
    → WellAddressed ms
    → lookup t s.cursors ≡ some (pos c)
    → Followed t c ms (on_messages ms s)
unfolding on_messages task_frames
live_contiguous t c [] s w h = ([], c, tt, omega arith, inl (refl, h, refl))
live_contiguous t c (m ∷ ms) s w h =
    let (one, rest) = split_addressed m ms w in
    let x = on_message m s in
    let y = on_messages ms x.0 in
    elim (on_message-NextOrGone t c m s one h) [
      | inl (stays, quiet, known) ↦
          Followed-stays t c m ms x y quiet known (live_contiguous t c ms x.0 rest stays)
      | inr moved ↦ elim moved [
        | inl (e, number, moves, sent, known) ↦
            Followed-moves t c m ms x y e number sent known
              (live_contiguous t (suc c) ms x.0 rest moves)
        | inr (reason, gone, sent) ↦
            let silent = on_messages-Silent t ms x.0 rest gone in
            (
              [],
              c,
              tt,
              omega arith,
              inr (reason, task_frames-append t x.1 y.1 ∙ rw (sent, silent.1) refl, silent.0),
            )
      ]
    ]

-- When the desktop's frame is not JSON, within the limits, and a message of the broker has been
-- taken in the same turn, the message is gone: the turn leaves the queue without it and has sent
-- nothing but the error.
pub bad_frame_loses_message :
    (limits : Limits) (fuel : ℕ) (repository : ℕ → Repository) (bytes now : ℕ) (s : Session)
    (m : BrokerMessage) (queue : List BrokerMessage)
    → lookup s.connection_id s.broker.queues ≡ some (m ∷ queue)
    → bytes ≤ limits.max_frame_bytes
    → length (drop_old now s.timestamps) < limits.max_messages_per_minute
    → let x =
        turn limits fuel repository
          (some (record { bytes = bytes; now = now; parsed = bad_json }))
          true
          s in
      (lookup s.connection_id x.0.broker.queues ≡ some queue)
      × (x.1 ≡ error_frame (codes "invalid_json") ∷ [])
      × (x.0.cursors ≡ s.cursors)
unfolding turn
bad_frame_loses_message limits fuel repository bytes now s m queue h small slow = (
  ground (arith, lookup-insert_self s.connection_id queue s.broker.queues),
  ground arith,
  ground arith,
)
