-- ===== src/Execution/Orchestrator/Phases.antt =====
-- core/planner.go: what becomes of a vertex whose task runs.
use laforge.Base.{
  true, false, ◌≡◌, refl, sym, ap, ◌∙◌, ◌⊎◌, inl, inr, some, List, [], ◌∷◌, ◌++◌, map, All, arith,
}
use mathlib.Core.List.{append_assoc, append-nil}
use laforge.Base.Eq.{path_eq}
use laforge.Base.Assoc.{lookup, has_key, insert, has_key-insert, lookup-insert_self, same_refl}
use laforge.Metadata.GoPath.{FilePath}
use laforge.Metadata.{is_global_type}
use laforge.Revision.{RevStatus, active, failed, Revision, touch_revision, to_revision}
use laforge.Planning.Dag.{Dag}
use laforge.Execution.Attempts.{Outcome, succeeded, failed_phase, exceeded, perform_in_timeout}
use laforge.Execution.Orchestrator.{
  Phase, phases, Task, Job, Progress, write_revision_file, begin, fail, by_outcome, run_phases,
  any_failed, perform_task, check_lineage, orchestrator,
}

abbrev pub outcome : Task → Phase → Outcome
outcome t phase = (perform_in_timeout (t.events phase)).outcome

abbrev pub Broken : Outcome → Type 0
Broken o = (o ≡ failed_phase) ⊎ (o ≡ exceeded)

-- The phases begun one after the other.
begin_all : FilePath → List Phase → Progress → Progress
begin_all id ps p = record p { begun = p.begun ++ map (λ phase. (id, phase)) ps }

begin_all-begin :
    (id : FilePath) (phase : Phase) (ps : List Phase) (p : Progress)
    → begin_all id ps (begin id phase p) ≡ begin_all id (phase ∷ ps) p
unfolding begin_all begin
begin_all-begin id phase ps p =
    ap (λ l. record p { begun = l })
      (append_assoc p.begun ((id, phase) ∷ []) (map (λ q. (id, q)) ps))

begin_all-none : (id : FilePath) (p : Progress) → begin_all id [] p ≡ p
unfolding begin_all
begin_all-none id p = ap (λ l. record p { begun = l }) (append-nil p.begun)

-- One phase, by its outcome.
run_phases-step :
    (j : Job) (id : FilePath) (t : Task) (phase : Phase) (ps : List Phase) (p : Progress)
    (o : Outcome)
    → outcome t phase ≡ o
    → run_phases j id t (phase ∷ ps) p
      ≡ by_outcome o
          (run_phases j id t ps (begin id phase p))
          (begin id phase p)
          (fail j id t (begin id phase p))
unfolding run_phases
run_phases-step j id t phase ps p o h =
    ap
      (λ x.
        by_outcome x (run_phases j id t ps (begin id phase p)) (begin id phase p)
          (fail j id t (begin id phase p)))
      h

run_phases-succeeded :
    (j : Job) (id : FilePath) (t : Task) (ps : List Phase) (p : Progress)
    → All (λ phase. outcome t phase ≡ succeeded) ps
    → run_phases j id t ps p ≡ write_revision_file j t active (begin_all id ps p)
unfolding run_phases by_outcome
run_phases-succeeded j id t [] p h = ap (write_revision_file j t active) (sym (begin_all-none id p))
run_phases-succeeded j id t (phase ∷ ps) p h =
    run_phases-step j id t phase ps p succeeded h.0
    ∙ run_phases-succeeded j id t ps (begin id phase p) h.1
    ∙ ap (write_revision_file j t active) (begin_all-begin id phase ps p)

run_phases-head :
    (j : Job) (id : FilePath) (t : Task) (after : List Phase) (phase : Phase) (p : Progress)
    → Broken (outcome t phase)
    → run_phases j id t (phase ∷ after) p ≡ fail j id t (begin id phase p)
unfolding by_outcome
run_phases-head j id t after phase p (inl e) = run_phases-step j id t phase after p failed_phase e
run_phases-head j id t after phase p (inr e) = run_phases-step j id t phase after p exceeded e

run_phases-Broken :
    (j : Job) (id : FilePath) (t : Task) (before after : List Phase) (phase : Phase) (p : Progress)
    → All (λ q. outcome t q ≡ succeeded) before
    → Broken (outcome t phase)
    → run_phases j id t (before ++ phase ∷ after) p
      ≡ fail j id t (begin_all id (before ++ phase ∷ []) p)
unfolding by_outcome begin_all begin
run_phases-Broken j id t [] after phase p h b = run_phases-head j id t after phase p b
run_phases-Broken j id t (q ∷ before) after phase p h b =
    run_phases-step j id t q (before ++ phase ∷ after) p succeeded h.0
    ∙ run_phases-Broken j id t before after phase (begin id q p) h.1 b
    ∙ ap (fail j id t) (begin_all-begin id q (before ++ phase ∷ []) p)

-- The file that a run leaves for a task, where it can be written.
abbrev pub written : Job → Task → RevStatus → Revision
written j t status = record (touch_revision j.now (to_revision j.now t.metadata)) {
  status = status;
}

write_revision_file-written :
    (j : Job) (t : Task) (s : RevStatus) (p : Progress)
    → j.can_write t.metadata.id ≡ true
    → lookup t.metadata.id (write_revision_file j t s p).files ≡ some (written j t s)
unfolding write_revision_file
write_revision_file-written j t s p h =
    rw h (lookup-insert_self t.metadata.id (written j t s) p.files)

write_revision_file-rest :
    (j : Job) (t : Task) (s : RevStatus) (p : Progress)
    → ((write_revision_file j t s p).failed_nodes ≡ p.failed_nodes)
      × ((write_revision_file j t s p).begun ≡ p.begun)
unfolding write_revision_file
write_revision_file-rest j t s p = ground arith

-- A vertex that is to be worked on and whose task may run.
pub record IsReady (dag : Dag) (g : dag.Graph) (j : Job) (id : FilePath) (t : Task) (p : Progress)
    : Type 0 where
  pub running : p.errored ≡ false
  pub local : is_global_type id ≡ false
  pub is_tainted : has_key id j.tainted ≡ true
  pub below : List FilePath
  pub found : dag.descendents g id ≡ some below
  pub none_failed : any_failed p.failed_nodes below ≡ false
  pub has_task : lookup id j.tasks ≡ some t

module _ (dag : Dag) where
  open dag use {Graph}

  orchestrator-run :
      (g : Graph) (j : Job) (id : FilePath) (t : Task) (p : Progress)
      → IsReady dag g j id t p
      → orchestrator dag g j id p ≡ run_phases j id t phases p
  unfolding orchestrator check_lineage perform_task
  orchestrator-run g j id t p r =
      rw r.running
        (rw r.local (rw r.is_tainted (rw r.found (rw r.none_failed (rw r.has_task refl)))))

  -- Let a vertex be ready, and its revision file writable. If all five phases of its task succeed,
  -- it has begun each of them in turn, its file says that it is active, and no vertex is added to
  -- those that failed.
  pub orchestrator-active :
      (g : Graph) (j : Job) (id : FilePath) (t : Task) (p : Progress)
      → IsReady dag g j id t p
      → j.can_write t.metadata.id ≡ true
      → All (λ phase. outcome t phase ≡ succeeded) phases
      → (lookup t.metadata.id (orchestrator dag g j id p).files ≡ some (written j t active))
        × ((orchestrator dag g j id p).begun ≡ p.begun ++ map (λ phase. (id, phase)) phases)
        × ((orchestrator dag g j id p).failed_nodes ≡ p.failed_nodes)
  unfolding begin_all
  orchestrator-active g j id t p r w h =
      let e = orchestrator-run g j id t p r ∙ run_phases-succeeded j id t phases p h in
      let rest = write_revision_file-rest j t active (begin_all id phases p) in
      (
        ap (λ q. lookup t.metadata.id q.files) e
            ∙ write_revision_file-written j t active (begin_all id phases p) w,
        ap (λ q. q.begun) e ∙ rest.1,
        ap (λ q. q.failed_nodes) e ∙ rest.0,
      )

  -- Let a vertex be ready, and its revision file writable. At the first phase of its task that
  -- returns an error or exceeds its timeout the run ends: no later phase is begun, the file says
  -- that the vertex failed, and the vertex is among those that failed.
  pub orchestrator-failed :
      (g : Graph) (j : Job) (id : FilePath) (t : Task) (p : Progress) (before after : List Phase)
      (phase : Phase)
      → IsReady dag g j id t p
      → j.can_write t.metadata.id ≡ true
      → phases ≡ before ++ phase ∷ after
      → All (λ q. outcome t q ≡ succeeded) before
      → Broken (outcome t phase)
      → (lookup t.metadata.id (orchestrator dag g j id p).files ≡ some (written j t failed))
        × ((orchestrator dag g j id p).begun ≡ p.begun ++ map (λ q. (id, q)) (before ++ phase ∷ []))
        × (has_key id (orchestrator dag g j id p).failed_nodes ≡ true)
  unfolding begin_all fail
  orchestrator-failed g j id t p before after phase r w s h b =
      let e =
        orchestrator-run g j id t p r
        ∙ ap (λ ps. run_phases j id t ps p) s
        ∙ run_phases-Broken j id t before after phase p h b in
      let q : Progress = begin_all id (before ++ phase ∷ []) p in
      let q' : Progress = record q { failed_nodes = insert id true q.failed_nodes } in
      let rest = write_revision_file-rest j t failed q' in
      (
        ap (λ x. lookup t.metadata.id x.files) e ∙ write_revision_file-written j t failed q' w,
        ap (λ x. x.begun) e ∙ rest.1,
        ap (λ x. has_key id x.failed_nodes) e
            ∙ ap (λ l. has_key id l) rest.0
            ∙ has_key-insert id id true p.failed_nodes
            ∙ rw (same_refl id) refl,
      )
