-- ===== src/Agent/Worker/Stuck.antt =====
-- The loop of agent/worker.go completes no step that it begins itself: nothing in the agent gives a
-- step that has run the status "finished".
use laforge.Base.{
  false, ◌≡◌, refl, sym, ◌∙◌, ◌⊎◌, inl, inr, Option, none, some, List, [], ◌∷◌, Bool-cases,
}
use laforge.Agent.Step.{Fault, ok, panic}
use laforge.Agent.State.{
  State, StateError, awaiting_reboot, in_progress, step_failure, Tick, normalize, work_exists,
  do_next_step,
}
use laforge.Agent.State.Begun.{IsBegun, normalize-IsBegun, normalize-idle, do_next_step-IsBegun}
use laforge.Agent.Worker.{
  Outcome, finished, stopped, crashed, running, after_step, work, after_normalize, handle_loop,
}

-- The map of completed steps is the one of `s`, and the loop went to its end only if `done`. After a
-- panic there is no state.
abbrev pub Completes : State → Type 0 → Outcome → Type 0
Completes s done (finished t) = (t.completed ≡ s.completed) × done
Completes s done (stopped t e) = t.completed ≡ s.completed
Completes s done crashed = Unit
Completes s done (running t) = t.completed ≡ s.completed

abbrev Refuses : State → Fault (State × Option StateError) → Type 0
Refuses s f =
    (s' : State) (e : Option StateError)
    → f ≡ ok (s', e)
    → ((e ≡ some in_progress) ⊎ (e ≡ some step_failure)) × (s'.completed ≡ s.completed)

after_refusal :
    (t : Tick) (next : State → Outcome) (s : State) (f : Fault (State × Option StateError))
    → Refuses s f
    → Completes s ⊥ (after_normalize t next f)
unfolding after_normalize
after_refusal t next s panic h = tt
after_refusal t next s (ok (s', none)) h =
    absurd (elim (h s' none refl).0 [ inl e ↦ cc | inr e ↦ cc ])
after_refusal t next s (ok (s', some awaiting_reboot)) h =
    absurd (elim (h s' (some awaiting_reboot) refl).0 [ inl e ↦ cc | inr e ↦ cc ])
after_refusal t next s (ok (s', some e)) h = (h s' (some e) refl).1

begun_loop : (ts : List Tick) (s : State) → IsBegun s → Completes s ⊥ (handle_loop ts s)
unfolding handle_loop
begun_loop [] s b = refl
begun_loop (t ∷ ts) s b =
    after_refusal t (handle_loop ts) s (normalize t s) (λ s' e h. normalize-IsBegun t s s' e b h)

Completes-mono :
    (s s' : State) (P Q : Type 0) (o : Outcome)
    → s'.completed ≡ s.completed
    → (P → Q)
    → Completes s' P o
    → Completes s Q o
Completes-mono s s' P Q (finished t) e f h = (h.0 ∙ e, f h.1)
Completes-mono s s' P Q (stopped t x) e f h = h ∙ e
Completes-mono s s' P Q crashed e f h = tt
Completes-mono s s' P Q (running t) e f h = h ∙ e

after_begin :
    (ts : List Tick) (s : State) (f : Fault (State × Option StateError))
    → ((s' : State) (e : Option StateError)
        → f ≡ ok (s', e)
        → (s'.completed ≡ s.completed) × (e ≡ none → IsBegun s'))
    → Completes s ⊥ (after_step (handle_loop ts) f)
unfolding after_step
after_begin ts s panic h = tt
after_begin ts s (ok (s', none)) h =
    let (same, begun) = h s' none refl in
    Completes-mono s s' ⊥ ⊥ (handle_loop ts s') same (λ x. x) (begun_loop ts s' (begun refl))
after_begin ts s (ok (s', some e)) h = (h s' (some e) refl).0

abbrev pub NoWork : Tick → State → Type 0
NoWork t s = (s' : State) × (normalize t s ≡ ok (s', none)) × (work_exists s' ≡ false)

work-Completes :
    (t : Tick) (ts : List Tick) (s : State)
    → Completes s (work_exists s ≡ false) (work t (handle_loop ts) s)
unfolding work
work-Completes t ts s = elim (Bool-cases (work_exists s)) [
  | inl e ↦ rw e (
      Completes-mono s s ⊥ _ _ refl absurd
        (after_begin ts s (do_next_step t s) (λ s' f h. do_next_step-IsBegun t s s' f h)))
  | inr e ↦ rw e (refl, refl)
]

idle_round :
    (t : Tick) (ts : List Tick) (s : State) (f : Fault (State × Option StateError))
    → f ≡ normalize t s
    → ((s' : State) (e : Option StateError)
        → f ≡ ok (s', e)
        → (e ≡ none) × (s'.completed ≡ s.completed))
    → Completes s (NoWork t s) (after_normalize t (handle_loop ts) f)
unfolding after_normalize
idle_round t ts s panic n h = tt
idle_round t ts s (ok (s', some awaiting_reboot)) n h =
    absurd (some_ne (h s' (some awaiting_reboot) refl).0)
  where
    some_ne : {x : StateError} → some x ≡ none → ⊥
    some_ne e = cc
idle_round t ts s (ok (s', some e)) n h = (h s' (some e) refl).1
idle_round t ts s (ok (s', none)) n h =
    Completes-mono s s' _ _ (work t (handle_loop ts) s') (h s' none refl).1
      (λ idle. (s', sym n, idle)) (work-Completes t ts s')

-- Begun with no current step, the worker's loop ends with the map of completed steps that it began
-- with, however it ends but for a panic; and it goes through to `Finalize` only if there was no work at the start.
pub loop-Completes_nothing :
    (t : Tick) (ts : List Tick) (s : State)
    → s.current_step ≡ none
    → Completes s (NoWork t s) (handle_loop (t ∷ ts) s)
unfolding handle_loop
loop-Completes_nothing t ts s b =
    idle_round t ts s (normalize t s) refl
      (λ s' e h. let (a, _, c) = normalize-idle t s s' e b h in (a, c))
