-- ===== src/Tasks/Sequence.antt =====
-- The events of one task in the log of the repository (backend/src/jarvis/tasks/repository.py):
-- they are numbered 1, 2, 3, ... in the order in which they were appended.
use sriee.Base.{
  ℕ, suc, ◌+◌, ◌≤◌, ◌<◌, ◌≡◌, refl, some, List, [], ◌∷◌, ◌++◌, arith, ◌==◌, if◌then◌else◌, length,
  length-append, max, str_eq, str_beq, str_beq_iff, Bool-cases, inl, inr,
}
use sriee.Text.{Str}
use sriee.Tasks.Model.{TaskEvent}
use sriee.Tasks.Repository.{events_of, max_sequence, next_sequence}

-- The events are numbered n + 1, n + 2, ...
abbrev pub Sequential : ℕ → List TaskEvent → Type 0
Sequential n [] = Unit
Sequential n (e ∷ es) = (e.sequence ≡ suc n) × Sequential (suc n) es

pub Sequential-append :
    (n : ℕ) (es : List TaskEvent) (e : TaskEvent)
    → Sequential n es
    → e.sequence ≡ suc (n + length es)
    → Sequential n (es ++ e ∷ [])
Sequential-append n [] e h p = (omega arith, tt)
Sequential-append n (x ∷ es) e h p = (h.0, Sequential-append (suc n) es e h.1 (omega arith))

pub max-max_sequence :
    (n : ℕ) (es : List TaskEvent) → Sequential n es → max n (max_sequence es) ≡ n + length es
unfolding max_sequence
max-max_sequence n [] h = omega arith
max-max_sequence n (x ∷ es) h = omega (arith, max-max_sequence (suc n) es h.1)

-- On a numbered list the largest number is the length.
pub max_sequence-eq-length : (es : List TaskEvent) → Sequential 0 es → max_sequence es ≡ length es
max_sequence-eq-length es h = omega (arith, max-max_sequence 0 es h)

pub next_sequence_lem :
    (es : List TaskEvent)
    → Sequential 0 es
    → 0 < length es
    → next_sequence es ≡ some (suc (length es))
unfolding next_sequence
next_sequence_lem [] h p = absurd (omega arith)
next_sequence_lem (x ∷ es) h p = ground (arith, max_sequence-eq-length (x ∷ es) h)

pub events_of-append :
    (t : Str) (es : List TaskEvent) (e : TaskEvent)
    → events_of t (es ++ e ∷ [])
      ≡ (if e.task_id == t then events_of t es ++ e ∷ [] else events_of t es)
unfolding events_of
events_of-append t [] e = refl
events_of-append t (x ∷ es) e = ground (arith, events_of-append t es e)

pub events_of-append-le :
    (t : Str) (es : List TaskEvent) (e : TaskEvent)
    → length (events_of t es) ≤ length (events_of t (es ++ e ∷ []))
events_of-append-le t es e =
    ground (arith, events_of-append t es e, length-append (events_of t es) (e ∷ []))

-- The log stays numbered when an event takes the next number of its task.
pub Sequential-events_of :
    (t : Str) (es : List TaskEvent) (e : TaskEvent)
    → Sequential 0 (events_of t es)
    → e.sequence ≡ suc (length (events_of e.task_id es))
    → Sequential 0 (events_of t (es ++ e ∷ []))
Sequential-events_of t es e h p =
    rw (events_of-append t es e) (elim (Bool-cases (str_beq e.task_id t)) [
      | inl same ↦ rw same (
          Sequential-append 0 (events_of t es) e h
            (rw (← (str_beq_iff e.task_id t).0 same) (omega (arith, p))))
      | inr other ↦ rw other h
    ])
