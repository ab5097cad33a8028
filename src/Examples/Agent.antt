-- ===== src/Examples/Agent.antt =====
-- The agent: a worker with one step, and a step that waits for a reboot.
use laforge.Base.{ℕ, Bool, true, false, ◌≡◌, refl, Option, none, some, List, [], ◌∷◌, arith}
use laforge.Base.Eq.{nat_eq}
use laforge.Base.Assoc.{lookup}
use laforge.Agent.Step.{Step, Machine, CommandRun}
use laforge.Agent.State.{State, StateError, in_progress, Tick, normalize, write_state_file}
use laforge.Agent.State.Reboot.{awaiting_needs_no_reboot}
use laforge.Agent.Worker.{Outcome, stopped, handle_loop}
use laforge.Agent.Worker.Stuck.{Completes, NoWork, loop-Completes_nothing}

abbrev machine : Machine
machine = record {
  now = 6000000000;
  windows = false;
  copy = none;
  chmod = none;
  run = CommandRun.succeeded;
}

abbrev tick : Tick
tick = record { machine = machine; uptime = some 100; backup_ok = true }

abbrev fresh_step : Step
fresh_step = record {
  id = 0;
  step_type = "script";
  language = some "bash";
  status = "";
  started_at = 0;
  ended_at = none;
  exit_status = 0;
  exit_error = none;
}

abbrev fresh : State
fresh = record {
  heap = (0, fresh_step) ∷ [];
  steps = 0 ∷ [];
  pending = some [];
  completed = some [];
  current_step = none;
  current_state = "";
  revision = 1;
  errored = false;
  error_message = "";
  completed_at = none;
}

-- The second round finds the step in progress.
abbrev error_of : Outcome → Option StateError
error_of (stopped t e) = some e
error_of o = none

fresh_stops : error_of (handle_loop (tick ∷ tick ∷ []) fresh) ≡ some in_progress
unfolding handle_loop normalize lookup laforge.Agent.State.work_exists write_state_file
    laforge.Base.Assoc.insert laforge.Agent.State.do_next_step laforge.Agent.Step.perform
    laforge.Agent.Step.prepare
fresh_stops = refl

loop-Completes_nothing_example :
    Completes fresh (NoWork tick fresh) (handle_loop (tick ∷ tick ∷ []) fresh)
loop-Completes_nothing_example = loop-Completes_nothing tick (tick ∷ []) fresh refl

-- One second after its start.
abbrev waiting_step : Step
waiting_step = record fresh_step { status = "awaiting_reboot"; started_at = 5000000000 }

abbrev waiting : State
waiting = record fresh {
  heap = (0, waiting_step) ∷ [];
  pending = some ((0, 0) ∷ []);
  completed = some [];
  current_step = some 0;
}

stored : lookup 0 waiting.heap ≡ some waiting_step
unfolding lookup
stored = refl

abbrev ended : State
ended = record waiting {
  heap = (0, record waiting_step { status = "finished"; ended_at = some 6000000000 }) ∷ [];
  completed = some ((0, 0) ∷ []);
  pending = some [];
  current_step = none;
}

awaiting_needs_no_reboot_example :
    normalize tick waiting ≡ laforge.Agent.Step.ok (write_state_file tick ended, none)
unfolding lookup laforge.Base.Assoc.insert laforge.Base.Assoc.remove
awaiting_needs_no_reboot_example =
    awaiting_needs_no_reboot tick waiting 0 100 waiting_step [] refl refl stored refl refl refl
      (omega arith) (omega arith) (omega arith)
