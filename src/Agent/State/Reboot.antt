-- ===== src/Agent/State/Reboot.antt =====
-- The reboot test of agent/state.go multiplies nanoseconds by a thousand million.
use laforge.Base.{ℕ, ◌-◌, ◌<◌, ◌≤◌, ◌≡◌, true, false, none, some, List, arith}
use laforge.Base.Eq.{nat_eq}
use laforge.Base.Assoc.{lookup, insert, remove}
use laforge.Agent.Step.{Step, ok}
use laforge.Agent.State.{
  State, Tick, is_fresh, reboot_seen, normalize, normalize_step, normalize_at, write_state_file,
  complete_current, deref,
}

-- With an uptime in seconds, below thirty years, the test passes from the first nanosecond on, for
-- the nine seconds until the product leaves the int64.
reboot_seen_early :
    (elapsed uptime : ℕ)
    → 0 < elapsed
    → elapsed ≤ 9223372036
    → uptime < 1000000000
    → reboot_seen elapsed uptime ≡ true
unfolding reboot_seen
reboot_seen_early elapsed uptime a b c = ground arith

module _ (t : Tick) (s : State) (p uptime : ℕ) (step : Step) (m : List (ℕ × ℕ))
    (begun : is_fresh s ≡ false) (current : s.current_step ≡ some p)
    (stored : lookup p s.heap ≡ some step) (waiting : step.status ≡ "awaiting_reboot")
    (made : s.completed ≡ some m) (up : t.uptime ≡ some uptime)
    (a : 0 < t.machine.now - step.started_at) (b : t.machine.now - step.started_at ≤ 9223372036)
    (c : uptime < 1000000000) where
  abbrev rebooted : State
  rebooted = record s {
    heap = insert p (record step { status = "finished"; ended_at = some t.machine.now }) s.heap;
    completed = some (insert step.id p m);
    pending = elim s.pending [ none ↦ none | some l ↦ some (remove step.id l) ];
    current_step = none;
  }

  rebooted_step : normalize_step t uptime p step s ≡ ok (rebooted, none)
  unfolding normalize_step complete_current
  rebooted_step =
      simp (waiting, reboot_seen_early (t.machine.now - step.started_at) uptime a b c, made)

  deref_waiting : deref p s ≡ ok step
  unfolding deref
  deref_waiting = ground (arith, stored)

  at_waiting : normalize_at t (some uptime) p s ≡ ok (rebooted, none)
  unfolding normalize_at
  at_waiting = rw deref_waiting rebooted_step

  -- Let the current step await a reboot, in a state whose pending and completed steps are set up, on a
  -- machine that is up for less than thirty years. A round that comes between one nanosecond and
  -- nine seconds after the step's start completes the step: it is finished, it moves from the pending
  -- to the completed steps, and there is no current step any more. No reboot is needed.
  pub awaiting_needs_no_reboot : normalize t s ≡ ok (write_state_file t rebooted, none)
  unfolding normalize
  awaiting_needs_no_reboot = simp (begun, current) (rw up (rw at_waiting))
