-- ===== src/Execution/Orchestrator.antt =====
-- The callback `Orchestrator` of core/planner.go, for one vertex of the graph.
pub mod Lineage
pub mod Phases
use laforge.Base.{ℕ, Bool, true, false, not, Option, none, some, List, [], ◌∷◌, ◌++◌, if◌then◌else◌}
use laforge.Base.Eq.{path_eq}
use laforge.Base.Assoc.{lookup, has_key, insert}
use laforge.Metadata.GoPath.{FilePath}
use laforge.Metadata.{is_global_type}
use laforge.Revision.{RevStatus, active, failed, Revision, Metadata, touch_revision, to_revision}
use laforge.Planning.Dag.{Dag}
use laforge.Planning.Taint.{IdSet}
use laforge.Execution.Attempts.{
  Event, Outcome, succeeded, failed_phase, exceeded, waiting, perform_in_timeout,
}

pub data Phase : Type 0 where
  checking ensuring doing cleaning finishing : Phase

abbrev pub phases : List Phase
phases = checking ∷ ensuring ∷ doing ∷ cleaning ∷ finishing ∷ []

-- A `Doer`: its metadata, and what the loop of `PerformInTimeout` receives in each phase.
pub record Task : Type 0 where
  pub metadata : Metadata
  pub events : Phase → List Event

-- What the callback reads of the plan. `can_write` says whether the file of a revision can be written.
pub record Job : Type 0 where
  pub tainted : IdSet
  pub tasks : List (FilePath × Task)
  pub can_write : FilePath → Bool
  pub now : ℕ

-- What it changes: the plan, the revision files, by the ID of their target, and the phases begun.
pub record Progress : Type 0 where
  pub errored : Bool
  pub failed_nodes : IdSet
  pub files : List (FilePath × Revision)
  pub begun : List (FilePath × Phase)

unfoldable pub write_revision_file : Job → Task → RevStatus → Progress → Progress
unfolding to_revision touch_revision
write_revision_file j t status p =
    let rev = touch_revision j.now (to_revision j.now t.metadata) in
    if j.can_write t.metadata.id
    then record p { files = insert t.metadata.id (record rev { status = status }) p.files }
    else p

begin : FilePath → Phase → Progress → Progress
begin id phase p = record p { begun = p.begun ++ (id, phase) ∷ [] }

fail : Job → FilePath → Task → Progress → Progress
unfolding write_revision_file
fail j id t p =
    write_revision_file j t failed (record p { failed_nodes = insert id true p.failed_nodes })

-- What follows from the outcome of a phase.
by_outcome : Outcome → Progress → Progress → Progress → Progress
by_outcome succeeded finished started broken = finished
by_outcome failed_phase finished started broken = broken
by_outcome exceeded finished started broken = broken
by_outcome waiting finished started broken = started

-- The phases in turn, up to the first that does not succeed. A phase that is still waited for leaves
-- the vertex where it is.
unfoldable pub run_phases : Job → FilePath → Task → List Phase → Progress → Progress
unfolding begin fail by_outcome
run_phases j id t [] p = write_revision_file j t active p
run_phases j id t (phase ∷ rest) p =
    let started = begin id phase p in
    let finished = run_phases j id t rest started in
    by_outcome (perform_in_timeout (t.events phase)).outcome finished started (fail j id t started)

unfoldable pub any_failed : IdSet → List FilePath → Bool
any_failed set [] = false
any_failed set (id ∷ ids) = let rest = any_failed set ids in if has_key id set then true else rest

module _ (dag : Dag) where
  open dag use {Graph, descendents}

  perform_task : Job → FilePath → Option Task → Progress → Progress
  unfolding run_phases
  perform_task j id none p = p
  perform_task j id (some t) p = run_phases j id t phases p

  check_lineage : Job → FilePath → Option (List FilePath) → Progress → Progress
  unfolding any_failed perform_task
  check_lineage j id none p = record p { errored = true }
  check_lineage j id (some below) p =
      if any_failed p.failed_nodes below then p else perform_task j id (lookup id j.tasks) p

  -- The diagnostics it returns are left out: the results of `d.Append` are not kept, so that there
  -- are never any.
  unfoldable pub orchestrator : Graph → Job → FilePath → Progress → Progress
  unfolding check_lineage
  orchestrator g j id p =
      if p.errored
      then p
      else if is_global_type id
      then p
      else if not (has_key id j.tainted)
      then p
      else check_lineage j id (descendents g id) p

  -- The walk: the callback on one vertex after the other.
  unfoldable pub orchestrate_all : Graph → Job → List FilePath → Progress → Progress
  orchestrate_all g j [] p = p
  orchestrate_all g j (id ∷ ids) p = orchestrate_all g j ids (orchestrator g j id p)
