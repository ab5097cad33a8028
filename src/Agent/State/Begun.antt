-- ===== src/Agent/State/Begun.antt =====
-- What normalising and beginning a step leave alone, and how a begun step stands.
use laforge.Base.{
  ℕ, String, Bool, false, ◌≡◌, refl, sym, subst, ◌∙◌, ◌⊎◌, inl, inr, Option, none, some, List, [],
  ◌∷◌, arith, if◌then◌else◌,
}
use laforge.Base.Eq.{nat_eq}
use laforge.Base.Assoc.{lookup, insert, lookup-insert_self}
use laforge.Agent.Step.{Step, ok, >>=-eq-ok, prepare, perform, perform_keeps}
use laforge.Agent.State.{
  State, StateError, in_progress, step_failure, Tick, deref, assign_map, add_pending, fill_pending,
  normalize, normalize_current, normalize_at, normalize_step, fail_current, deferred_write,
  Resolved, do_next_step, run_step, store_step, finish_step, run_resolved, do_resolved,
  resolve_from, write_state_file,
}

pub record Keeps (s s' : State) : Type 0 where
  pub heap : s'.heap ≡ s.heap
  pub current_step : s'.current_step ≡ s.current_step
  pub completed : s'.completed ≡ s.completed

add_pending-Keeps : (ps : List ℕ) (s s' : State) → add_pending ps s ≡ ok s' → Keeps s s'
unfolding add_pending
add_pending-Keeps [] s s' h = ground arith
add_pending-Keeps (p ∷ ps) s s' h =
    let (step, found, h₁) = >>=-eq-ok (deref p s) _ h in
    let (m, made, h₂) = >>=-eq-ok (assign_map step.id p s.pending) _ h₁ in
    let k = add_pending-Keeps ps (record s { pending = m }) s' h₂ in
    record { heap = k.heap; current_step = k.current_step; completed = k.completed }

fill_pending-Keeps : (s s' : State) → fill_pending s ≡ ok s' → Keeps s s'
unfolding fill_pending
fill_pending-Keeps s s' h = ground (arith, add_pending-Keeps s.steps s s')

-- A current step that was begun and has not come to its end.
pub record IsBegun (s : State) : Type 0 where
  pub address : ℕ
  pub step : Step
  pub current : s.current_step ≡ some address
  pub stored : lookup address s.heap ≡ some step
  pub status : (step.status ≡ "started") ⊎ (step.status ≡ "errored")

normalize_step-started :
    (t : Tick) (u p : ℕ) (step : Step) (s : State)
    → step.status ≡ "started"
    → normalize_step t u p step s ≡ ok (s, some in_progress)
unfolding normalize_step
normalize_step-started t u p step s h = simp h

normalize_step-errored :
    (t : Tick) (u p : ℕ) (step : Step) (s : State)
    → step.status ≡ "errored"
    → normalize_step t u p step s ≡ fail_current t step.exit_error s
unfolding normalize_step
normalize_step-errored t u p step s h = simp h

abbrev Refused : State → State → Option StateError → Type 0
Refused s s' e = ((e ≡ some in_progress) ⊎ (e ≡ some step_failure)) × (s'.completed ≡ s.completed)

fail_current-Refused :
    (t : Tick) (m : Option String) (s s' : State) (e : Option StateError)
    → fail_current t m s ≡ ok (s', e)
    → Refused s s' e
unfolding fail_current
fail_current-Refused t none s s' e h = cc
fail_current-Refused t (some m) s s' e h = ground arith

normalize_step-Refused :
    (t : Tick) (u p : ℕ) (step : Step) (s s' : State) (e : Option StateError)
    → (step.status ≡ "started") ⊎ (step.status ≡ "errored")
    → normalize_step t u p step s ≡ ok (s', e)
    → Refused s s' e
normalize_step-Refused t u p step s s' e (inl b) h =
    ground (arith, normalize_step-started t u p step s b)
normalize_step-Refused t u p step s s' e (inr b) h =
    fail_current-Refused t step.exit_error s s' e (sym (normalize_step-errored t u p step s b) ∙ h)

deref-IsBegun :
    (s : State) (b : IsBegun s) (step : Step) → deref b.address s ≡ ok step → step ≡ b.step
unfolding deref
deref-IsBegun s b step h = ground (arith, b.stored)

normalize_at-Refused :
    (t : Tick) (o : Option ℕ) (s s' : State) (e : Option StateError) (b : IsBegun s)
    → normalize_at t o b.address s ≡ ok (s', e)
    → Refused s s' e
unfolding normalize_at
normalize_at-Refused t none s s' e b h = cc
normalize_at-Refused t (some u) s s' e b h =
    let (step, found, h₁) = >>=-eq-ok (deref b.address s) _ h in
    normalize_step-Refused t u b.address step s s' e (rw (deref-IsBegun s b step found) b.status) h₁

normalize_current-Refused :
    (t : Tick) (s s' : State) (e : Option StateError)
    → IsBegun s
    → normalize_current t s.current_step s ≡ ok (s', e)
    → Refused s s' e
unfolding normalize_current
normalize_current-Refused t s s' e b h =
    normalize_at-Refused t t.uptime s s' e b
      (subst (λ o. normalize_current t o s ≡ ok (s', e)) b.current h)

Keeps-IsBegun : {s s' : State} → Keeps s s' → IsBegun s → IsBegun s'
Keeps-IsBegun k b = record {
  address = b.address;
  step = b.step;
  current = k.current_step ∙ b.current;
  stored = rw k.heap b.stored;
  status = b.status;
}

deferred_write-completed :
    (t : Tick) (s s' : State) (e e' : Option StateError)
    → deferred_write t (s, e) ≡ ok (s', e')
    → (e' ≡ e) × (s'.completed ≡ s.completed) × (s'.current_step ≡ s.current_step)
unfolding deferred_write write_state_file
deferred_write-completed t s s' e e' h = ground arith

-- A begun step is refused at the next round, and nothing is completed.
pub normalize-IsBegun :
    (t : Tick) (s s' : State) (e : Option StateError)
    → IsBegun s
    → normalize t s ≡ ok (s', e)
    → ((e ≡ some in_progress) ⊎ (e ≡ some step_failure)) × (s'.completed ≡ s.completed)
unfolding normalize
normalize-IsBegun t s s' e b h =
    let (s₁, filled, h₁) = >>=-eq-ok (fill_pending s) _ h in
    let ((s₂, e₂), normal, h₂) = >>=-eq-ok (normalize_current t s₁.current_step s₁) _ h₁ in
    let k = fill_pending-Keeps s s₁ filled in
    let r = normalize_current-Refused t s₁ s₂ e₂ (Keeps-IsBegun k b) normal in
    ground (arith, r, k.completed, deferred_write-completed t s₂ s' e₂ e h₂)

idle_result :
    (t : Tick) (s s₁ s₂ s' : State) (e₂ e : Option StateError)
    → s.current_step ≡ none
    → Keeps s s₁
    → normalize_current t s₁.current_step s₁ ≡ ok (s₂, e₂)
    → deferred_write t (s₂, e₂) ≡ ok (s', e)
    → (e ≡ none) × (s'.current_step ≡ none) × (s'.completed ≡ s.completed)
unfolding normalize_current deferred_write write_state_file
idle_result t s s₁ s₂ s' e₂ e b k normal h = ground (arith, k.current_step, k.completed)

-- With no current step a round begins without an error, and completes nothing.
pub normalize-idle :
    (t : Tick) (s s' : State) (e : Option StateError)
    → s.current_step ≡ none
    → normalize t s ≡ ok (s', e)
    → (e ≡ none) × (s'.current_step ≡ none) × (s'.completed ≡ s.completed)
unfolding normalize
normalize-idle t s s' e b h =
    let (s₁, filled, h₁) = >>=-eq-ok (fill_pending s) _ h in
    let ((s₂, e₂), normal, h₂) = >>=-eq-ok (normalize_current t s₁.current_step s₁) _ h₁ in
    let k = fill_pending-Keeps s s₁ filled in idle_result t s s₁ s₂ s' e₂ e b k normal h₂

stored_fields :
    (t : Tick) (p : ℕ) (m : Option (List (ℕ × ℕ))) (s s' : State) (done : Step) (f : Option String)
    (e : Option StateError)
    → store_step t p m s (done, f) ≡ ok (s', e)
    → (s'.heap ≡ insert p (finish_step f done) s.heap)
      × (s'.current_step ≡ some p)
      × (s'.completed ≡ s.completed)
unfolding store_step write_state_file
stored_fields t p m s s' done f e h = (ground arith, ground arith, ground arith)

finish_step-status :
    (f : Option String) (done : Step)
    → done.status ≡ "started"
    → ((finish_step f done).status ≡ "started") ⊎ ((finish_step f done).status ≡ "errored")
unfolding finish_step
finish_step-status none done h = inl h
finish_step-status (some e) done h = inr refl

store_step-IsBegun :
    (t : Tick) (p : ℕ) (m : Option (List (ℕ × ℕ))) (s s' : State) (done : Step) (f : Option String)
    (e : Option StateError)
    → done.status ≡ "started"
    → store_step t p m s (done, f) ≡ ok (s', e)
    → IsBegun s' × (s'.completed ≡ s.completed) × (e ≡ none)
unfolding store_step
store_step-IsBegun t p m s s' done f e q h =
    let (same_heap, same_current, same_completed) = stored_fields t p m s s' done f e h in
    (
      record {
        address = p;
        step = finish_step f done;
        current = same_current;
        stored = rw same_heap (lookup-insert_self p (finish_step f done) s.heap);
        status = finish_step-status f done q;
      },
      same_completed,
      ground arith,
    )

run_step-IsBegun :
    (t : Tick) (p : ℕ) (s s' : State) (e : Option StateError)
    → run_step t p s ≡ ok (s', e)
    → IsBegun s' × (s'.completed ≡ s.completed) × (e ≡ none)
unfolding run_step prepare
run_step-IsBegun t p s s' e h =
    let (step, found, h₁) = >>=-eq-ok (deref p s) _ h in
    let (m, made, h₂) = >>=-eq-ok (assign_map step.id p s.pending) _ h₁ in
    let ((done, f), performed, h₃) =
      >>=-eq-ok (perform t.machine (prepare t.machine.now step)) _ h₂ in
    store_step-IsBegun t p m s s' done f e
      ((perform_keeps t.machine (prepare t.machine.now step) done f performed).0) h₃

abbrev NextStep : State → State → Option StateError → Type 0
NextStep s s' e = (s'.completed ≡ s.completed) × (e ≡ none → IsBegun s')

write_if-completed :
    (b : Bool) (t : Tick) (s : State)
    → (if b then write_state_file t s else s).completed ≡ s.completed
unfolding write_state_file
write_if-completed b t s = ground arith

run_resolved-NextStep :
    (t : Tick) (o : Option ℕ) (s s' : State) (e : Option StateError)
    → run_resolved t o s ≡ ok (s', e)
    → NextStep s s' e
unfolding run_resolved
run_resolved-NextStep t none s s' e h = cc
run_resolved-NextStep t (some p) s s' e h =
    let (begun, same, _) = run_step-IsBegun t p s s' e h in (same, λ _. begun)

do_resolved-NextStep :
    (t : Tick) (s s' : State) (r : Resolved) (e : Option StateError)
    → do_resolved t s r ≡ ok (s', e)
    → NextStep s s' e
unfolding do_resolved
do_resolved-NextStep t s s' (o, some f, b) e h = (ground (arith, write_if-completed b t s), λ n. cc)
do_resolved-NextStep t s s' (o, none, b) e h =
    let (same, begun) = run_resolved-NextStep t o (if b then write_state_file t s else s) s' e h in
    (same ∙ write_if-completed b t s, begun)

-- A step that is begun without an error stands as begun, and nothing is completed.
pub do_next_step-IsBegun :
    (t : Tick) (s s' : State) (e : Option StateError)
    → do_next_step t s ≡ ok (s', e)
    → (s'.completed ≡ s.completed) × (e ≡ none → IsBegun s')
unfolding do_next_step
do_next_step-IsBegun t s s' e h =
    let (r, resolved, h₁) = >>=-eq-ok (resolve_from s.steps false s) _ h in
    do_resolved-NextStep t s s' r e h₁
