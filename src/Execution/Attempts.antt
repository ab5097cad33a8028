-- ===== src/Execution/Attempts.antt =====
-- `PerformInTimeout` of core/generic_job.go: a phase of a task is tried again for as long as it
-- asks for an extension of its timeout.
use laforge.Base.{ℕ, suc, ◌+◌, List, [], ◌∷◌}

-- What the `select` of the loop receives: the timeout, or an answer of the phase. An extension has
-- its delay in seconds.
pub data Event : Type 0 where
  timed_out finished_phase broke : Event
  extension : ℕ → Event

pub data Outcome : Type 0 where
  succeeded failed_phase exceeded waiting : Outcome

-- How it ended, how often the phase was started, and the ticks that were waited for.
pub record Attempts : Type 0 where
  pub outcome : Outcome
  pub started : ℕ
  pub ticks : ℕ

again : ℕ → Attempts → Attempts
again delay a = record a { started = suc a.started; ticks = delay + a.ticks }

ended : Outcome → Attempts
ended o = record { outcome = o; started = 1; ticks = 0 }

-- When the timeout comes is one of the inputs: it is the first of the events that the loop receives
-- after it, and the waiting for a delay is not cut short by it. The events are those that the loop
-- receives, in order; when there are no more it still waits.
unfoldable pub perform_in_timeout : List Event → Attempts
unfolding again ended
perform_in_timeout [] = ended waiting
perform_in_timeout (timed_out ∷ events) = ended exceeded
perform_in_timeout (finished_phase ∷ events) = ended succeeded
perform_in_timeout (broke ∷ events) = ended failed_phase
perform_in_timeout (extension delay ∷ events) = again delay (perform_in_timeout events)
