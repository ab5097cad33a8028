-- ===== src/Agent/State.antt =====
-- agent/state.go: the state of the provisioning agent. Steps are shared objects: `heap` holds them,
-- and the state's lists, maps and `current_step` hold their addresses. A Go map that was never made
-- is `none`: reading it is allowed, writing to it panics.
pub mod Begun
pub mod Reboot
use laforge.Base.{
  ℕ, ◌*◌, ◌^◌, ◌%◌, ◌/◌, String, Bool, true, false, ◌&&◌, not, Option, none, some, List, [], ◌∷◌,
  ◌-◌, length, ltb, ◌==◌, str_eq, if◌then◌else◌,
}
use laforge.Base.Eq.{nat_eq}
use laforge.Base.Assoc.{lookup, insert, remove}
use laforge.Agent.Step.{Step, Machine, Fault, ok, panic, ◌>>=◌, prepare, perform}

pub record State : Type 0 where
  pub heap : List (ℕ × Step)
  pub steps : List ℕ
  pub pending : Option (List (ℕ × ℕ))
  pub completed : Option (List (ℕ × ℕ))
  pub current_step : Option ℕ
  pub current_state : String
  pub revision : ℕ
  pub errored : Bool
  pub error_message : String
  pub completed_at : Option ℕ

pub data StateError : Type 0 where
  awaiting_reboot in_progress step_failure no_step : StateError
  step_error : String → StateError

-- What one round of the worker's loop meets: the machine, its uptime, and whether the old state file
-- could be backed up.
pub record Tick : Type 0 where
  pub machine : Machine
  pub uptime : Option ℕ
  pub backup_ok : Bool

-- A failed backup returns before the revision is set.
unfoldable pub write_state_file : Tick → State → State
write_state_file t s = if t.backup_ok then record s { revision = t.machine.now / 1000000000 } else s

abbrev pub entries : Option (List (ℕ × ℕ)) → List (ℕ × ℕ)
entries none = []
entries (some m) = m

pub deref : ℕ → State → Fault Step
deref p s = elim (lookup p s.heap) [ none ↦ panic | some step ↦ ok step ]

assign_map : ℕ → ℕ → Option (List (ℕ × ℕ)) → Fault (Option (List (ℕ × ℕ)))
assign_map k p none = panic
assign_map k p (some m) = ok (some (insert k p m))

-- for _, step := range s.Steps { s.Pending[step.ID] = step }
add_pending : List ℕ → State → Fault State
unfolding deref assign_map
add_pending [] s = ok s
add_pending (p ∷ ps) s = deref p s >>= λ step.
    assign_map step.id p s.pending >>= λ m. add_pending ps (record s { pending = m })

abbrev pub is_fresh : State → Bool
is_fresh s =
    length (entries s.pending) == 0
    && length (entries s.completed) == 0
    && not (length s.steps == 0)

fill_pending : State → Fault State
unfolding add_pending
fill_pending s = let filled = add_pending s.steps s in if is_fresh s then filled else ok s

-- int64(time.Since(StartedAt) * time.Second) > uptime: nanoseconds times 10⁹ in an int64.
unfoldable pub reboot_seen : ℕ → ℕ → Bool
reboot_seen elapsed uptime =
    let product = elapsed * 1000000000 % 2 ^ 64 in ltb product (2 ^ 63) && ltb uptime product

-- EndedAt.Unix() == 0 is not the zero time, whose Unix time is negative.
fix_ended_at : ℕ → Option ℕ → Option ℕ
fix_ended_at now none = none
fix_ended_at now (some t) = if t / 1000000000 == 0 then some now else some t

-- The step becomes completed and there is no current step. (The loop over `Steps` assigns only its
-- own variable.)
complete_current : ℕ → Step → State → Fault (State × Option StateError)
unfolding assign_map
complete_current p step s = assign_map step.id p s.completed >>= λ m. ok (
  record s {
    heap = insert p step s.heap;
    completed = m;
    pending = elim s.pending [ none ↦ none | some l ↦ some (remove step.id l) ];
    current_step = none;
  },
  none,
)

fail_current : Tick → Option String → State → Fault (State × Option StateError)
fail_current t none s = panic
fail_current t (some e) s = ok (
  record s {
    errored = true;
    error_message = e;
    completed_at = some t.machine.now;
    current_state = "errored";
  },
  some step_failure,
)

-- The cases on the status of the current step.
normalize_step : Tick → ℕ → ℕ → Step → State → Fault (State × Option StateError)
unfolding complete_current fail_current fix_ended_at reboot_seen
normalize_step t uptime p step s =
    if str_eq step.status "finished"
    then complete_current p (record step { ended_at = fix_ended_at t.machine.now step.ended_at }) s
    else if str_eq step.status "awaiting_reboot"
        && reboot_seen (t.machine.now - step.started_at) uptime
    then complete_current p (record step { status = "finished"; ended_at = some t.machine.now }) s
    else if str_eq step.status "awaiting_reboot"
    then ok (record s { current_state = "awaiting_reboot" }, some awaiting_reboot)
    else if str_eq step.status "errored"
    then fail_current t step.exit_error s
    else ok (s, some in_progress)

normalize_at : Tick → Option ℕ → ℕ → State → Fault (State × Option StateError)
unfolding deref normalize_step
normalize_at t none p s = panic
normalize_at t (some uptime) p s = deref p s >>= λ step. normalize_step t uptime p step s

normalize_current : Tick → Option ℕ → State → Fault (State × Option StateError)
unfolding normalize_at
normalize_current t none s = ok (s, none)
normalize_current t (some p) s = normalize_at t t.uptime p s

-- `defer s.WriteStateFile(s.Source)`
deferred_write : Tick → State × Option StateError → Fault (State × Option StateError)
deferred_write t (s, e) = ok (write_state_file t s, e)

unfoldable pub normalize : Tick → State → Fault (State × Option StateError)
unfolding fill_pending normalize_current deferred_write
normalize t s = fill_pending s >>= λ s'. normalize_current t s'.current_step s' >>= deferred_write t

unfoldable pub work_exists : State → Bool
work_exists s =
    if length s.steps == 0
    then false
    else if length (entries s.completed) == length s.steps
    then false
    else if not (length (entries s.pending) == 0)
    then true
    else false

-- The step found, its error if it was begun before, and whether a completed step's record differs.
abbrev pub Resolved : Type 0
Resolved = Option ℕ × Option StateError × Bool

-- A completed step is passed by; the first other one is the result.
resolve_from : List ℕ → Bool → State → Fault Resolved
unfolding deref
resolve_from [] changed s = ok (none, some no_step, changed)
resolve_from (p ∷ ps) changed s = deref p s >>= λ step.
    elim (lookup step.id (entries s.completed)) [
      | some q ↦ deref q s >>= λ done.
          resolve_from ps (if str_eq step.status done.status then changed else true) s
      | none ↦
          if str_eq step.status ""
          then ok (some p, none, changed)
          else ok (some p, some step_failure, changed)
    ]

abbrev pub resolve_next_step : State → Fault Resolved
unfolding resolve_from
resolve_next_step s = resolve_from s.steps false s

finish_step : Option String → Step → Step
finish_step none step = step
finish_step (some e) step = record step { status = "errored" }

store_step :
    Tick
    → ℕ
    → Option (List (ℕ × ℕ))
    → State
    → Step × Option String
    → Fault (State × Option StateError)
unfolding finish_step
store_step t p m s (done, e) = ok (
  write_state_file t (record s {
    heap = insert p (finish_step e done) s.heap;
    current_step = some p;
    pending = m;
    current_state = "provisioning";
  }),
  none,
)

run_step : Tick → ℕ → State → Fault (State × Option StateError)
unfolding deref assign_map store_step
run_step t p s = deref p s >>= λ step. assign_map step.id p s.pending >>= λ m.
    perform t.machine (prepare t.machine.now step) >>= store_step t p m s

run_resolved : Tick → Option ℕ → State → Fault (State × Option StateError)
unfolding run_step
run_resolved t none s = panic
run_resolved t (some p) s = run_step t p s

do_resolved : Tick → State → Resolved → Fault (State × Option StateError)
unfolding run_resolved
do_resolved t s (target, some e, changed) =
    ok ((if changed then write_state_file t s else s), some e)
do_resolved t s (target, none, changed) =
    run_resolved t target (if changed then write_state_file t s else s)

-- An error of `Perform` marks the step and is not returned.
unfoldable pub do_next_step : Tick → State → Fault (State × Option StateError)
unfolding do_resolved resolve_from
do_next_step t s = resolve_next_step s >>= do_resolved t s
