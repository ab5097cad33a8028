-- ===== src/Execution/Orchestrator/Lineage.antt =====
-- core/planner.go: what a failed vertex does to those that depend on it.
use laforge.Base.{true, ◌≡◌, refl, inl, inr, Option, none, some, List, [], ◌∷◌, In, arith}
use laforge.Base.Eq.{path_eq}
use laforge.Base.Assoc.{lookup, has_key, insert, has_key-insert}
use laforge.Metadata.GoPath.{FilePath}
use laforge.Revision.{RevStatus, failed}
use laforge.Planning.Dag.{Dag}
use laforge.Planning.Taint.{IdSet}
use laforge.Execution.Attempts.{
  Outcome, succeeded, failed_phase, exceeded, waiting, perform_in_timeout,
}
use laforge.Execution.Orchestrator.{
  Phase, phases, Task, Job, Progress, write_revision_file, begin, fail, by_outcome, run_phases,
  any_failed, perform_task, check_lineage, orchestrator, orchestrate_all,
}

any_failed-In :
    (set : IdSet) (ids : List FilePath) (v : FilePath)
    → In v ids
    → has_key v set ≡ true
    → any_failed set ids ≡ true
unfolding any_failed
any_failed-In set [] v h k = elim h [ ]
any_failed-In set (id ∷ ids) v (inl e) k = rw (← e) (rw k refl)
any_failed-In set (id ∷ ids) v (inr h) k = ground (arith, any_failed-In set ids v h k)

-- A failed vertex stays failed.
abbrev Keeps : FilePath → Progress → Progress → Type 0
Keeps v p q = has_key v p.failed_nodes ≡ true → has_key v q.failed_nodes ≡ true

write_revision_file-Keeps :
    (j : Job) (t : Task) (s : RevStatus) (v : FilePath) (p : Progress)
    → Keeps v p (write_revision_file j t s p)
unfolding write_revision_file
write_revision_file-Keeps j t s v p h = ground (arith, h)

fail-Keeps : (j : Job) (id v : FilePath) (t : Task) (p : Progress) → Keeps v p (fail j id t p)
unfolding fail
fail-Keeps j id v t p h =
    write_revision_file-Keeps j t failed v
      (record p { failed_nodes = insert id true p.failed_nodes })
      (ground (arith, has_key-insert id v true p.failed_nodes, h))

begin-Keeps : (id v : FilePath) (phase : Phase) (p : Progress) → Keeps v p (begin id phase p)
unfolding begin
begin-Keeps id v phase p h = h

by_outcome-Keeps :
    (o : Outcome) (v : FilePath) (p a b c : Progress)
    → Keeps v p a
    → Keeps v p b
    → Keeps v p c
    → Keeps v p (by_outcome o a b c)
unfolding by_outcome
by_outcome-Keeps succeeded v p a b c h k l = h
by_outcome-Keeps waiting v p a b c h k l = k
by_outcome-Keeps failed_phase v p a b c h k l = l
by_outcome-Keeps exceeded v p a b c h k l = l

run_phases-Keeps :
    (j : Job) (id v : FilePath) (t : Task) (ps : List Phase) (p : Progress)
    → Keeps v p (run_phases j id t ps p)
unfolding run_phases by_outcome
run_phases-Keeps j id v t [] p h = write_revision_file-Keeps j t RevStatus.active v p h
run_phases-Keeps j id v t (phase ∷ ps) p h =
    let q = begin id phase p in
    let k = begin-Keeps id v phase p h in
    by_outcome-Keeps (perform_in_timeout (t.events phase)).outcome v q (run_phases j id t ps q) q
      (fail j id t q) (run_phases-Keeps j id v t ps q) (λ x. x) (fail-Keeps j id v t q) k

module _ (dag : Dag) where
  open dag use {Graph, descendents}

  perform_task-Keeps :
      (j : Job) (id v : FilePath) (o : Option Task) (p : Progress)
      → Keeps v p (perform_task dag j id o p)
  unfolding perform_task
  perform_task-Keeps j id v none p h = h
  perform_task-Keeps j id v (some t) p h = run_phases-Keeps j id v t phases p h

  check_lineage-Keeps :
      (j : Job) (id v : FilePath) (o : Option (List FilePath)) (p : Progress)
      → Keeps v p (check_lineage dag j id o p)
  unfolding check_lineage
  check_lineage-Keeps j id v none p h = h
  check_lineage-Keeps j id v (some below) p h =
      ground (arith, h, perform_task-Keeps j id v (lookup id j.tasks) p h)

  orchestrator-Keeps :
      (g : Graph) (j : Job) (id v : FilePath) (p : Progress) → Keeps v p (orchestrator dag g j id p)
  unfolding orchestrator
  orchestrator-Keeps g j id v p h =
      ground (arith, h, check_lineage-Keeps j id v (descendents g id) p h)

  orchestrate_all-Keeps :
      (g : Graph) (j : Job) (ids : List FilePath) (v : FilePath) (p : Progress)
      → Keeps v p (orchestrate_all dag g j ids p)
  unfolding orchestrate_all
  orchestrate_all-Keeps g j [] v p h = h
  orchestrate_all-Keeps g j (id ∷ ids) v p h =
      orchestrate_all-Keeps g j ids v (orchestrator dag g j id p) (orchestrator-Keeps g j id v p h)

  check_lineage-blocked :
      (j : Job) (id v : FilePath) (below : List FilePath) (p : Progress)
      → In v below
      → has_key v p.failed_nodes ≡ true
      → check_lineage dag j id (some below) p ≡ p
  unfolding check_lineage
  check_lineage-blocked j id v below p h k = rw (any_failed-In p.failed_nodes below v h k) refl

  orchestrator-blocked :
      (g : Graph) (j : Job) (id v : FilePath) (below : List FilePath) (p : Progress)
      → descendents g id ≡ some below
      → In v below
      → has_key v p.failed_nodes ≡ true
      → orchestrator dag g j id p ≡ p
  unfolding orchestrator
  orchestrator-blocked g j id v below p e h k =
      rw e (ground (arith, check_lineage-blocked j id v below p h k))

  -- Once a vertex has failed, whatever vertices are visited after it, a vertex that has it among its
  -- descendents does nothing when its turn comes: no phase is begun, no file is written, and no
  -- vertex is added to those that failed.
  pub failed_lineage_blocks :
      (g : Graph) (j : Job) (ids : List FilePath) (id v : FilePath) (below : List FilePath)
      (p : Progress)
      → has_key v p.failed_nodes ≡ true
      → descendents g id ≡ some below
      → In v below
      → orchestrator dag g j id (orchestrate_all dag g j ids p) ≡ orchestrate_all dag g j ids p
  failed_lineage_blocks g j ids id v below p k e h =
      orchestrator-blocked g j id v below (orchestrate_all dag g j ids p) e h
        (orchestrate_all-Keeps g j ids v p k)
