-- ===== src/Agent/Worker.antt =====
-- agent/worker.go: the worker that loads a configuration and runs its steps.
pub mod Stuck
use laforge.Base.{
  ℕ, Bool, true, false, not, Option, none, some, List, [], ◌∷◌, ltb, ◌==◌, if◌then◌else◌,
}
use laforge.Agent.Step.{Fault, ok, panic}
use laforge.Agent.State.{
  State, StateError, awaiting_reboot, Tick, normalize, work_exists, do_next_step,
}

-- How the worker's loop stands: it went through to `Finalize`, it returned on an error, it panicked,
-- or it still runs when the listed rounds are over.
pub data Outcome : Type 0 where
  finished : State → Outcome
  stopped : State → StateError → Outcome
  crashed : Outcome
  running : State → Outcome

after_step : (State → Outcome) → Fault (State × Option StateError) → Outcome
after_step next panic = crashed
after_step next (ok (s, some e)) = stopped s e
after_step next (ok (s, none)) = next s

work : Tick → (State → Outcome) → State → Outcome
unfolding after_step
work t next s = if not (work_exists s) then finished s else after_step next (do_next_step t s)

after_normalize : Tick → (State → Outcome) → Fault (State × Option StateError) → Outcome
unfolding work
after_normalize t next panic = crashed
after_normalize t next (ok (s, some awaiting_reboot)) = next s
after_normalize t next (ok (s, some e)) = stopped s e
after_normalize t next (ok (s, none)) = work t next s

-- The `for` of `Handle`, one `Tick` for each round.
unfoldable pub handle_loop : List Tick → State → Outcome
unfolding after_normalize
handle_loop [] s = running s
handle_loop (t ∷ ts) s = after_normalize t (handle_loop ts) (normalize t s)

pub data LoadError : Type 0 where
  bad_file duplicate_revision stale_revision revision_mismatch : LoadError

-- What `Handle` answers to a load request, and the configuration that it goes on with.
unfoldable pub accept : Option State → Option State → Option State × Option LoadError
accept config none = (config, some bad_file)
accept none (some state) = (some state, none)
accept (some config) (some state) =
    if state.revision == config.revision
    then (some config, some duplicate_revision)
    else if ltb state.revision config.revision
    then (some config, some stale_revision)
    else (some config, some revision_mismatch)
