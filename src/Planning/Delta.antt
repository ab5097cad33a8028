-- ===== src/Planning/Delta.antt =====
-- `CalculateDelta` of core/state.go as a whole.
pub mod Order
use laforge.Base.{ℕ, Bool, true, false, not, Option, none, some, List, [], ◌++◌}
use laforge.Metadata.GoPath.{FilePath}
use laforge.Delta.{Revs, RevDelta, Metastore, generate_current_revs, generate_revision_delta}
use laforge.Delta.Equal.{snapshots_equal}
use laforge.Planning.Dag.{
  Dag, Result, ok, err, persisted_nil, current_nil, locate_failed, snapshots_match, no_root,
  invalid_graph, ◌>>=◌, ◌>>◌, require, guard,
}
use laforge.Planning.Taint.{
  IdSet, Found, unreachable_hosts, visit_base, visit_target, walk_with, add_all, keys,
  taint_parents, lineage, touch_descendents, check_descendents,
}
use laforge.Planning.Tasks.{Tasks, TaskTypes, Inputs, collect, ordered_priorities, global_order}

module _ (dag : Dag) (sum64 : List ℕ → ℕ) (dependency_hash : FilePath → ℕ) where
  open dag use {Graph, walk, root, validate, depth_first_walk}

  pub record Snapshot : Type 0 where
    pub metastore : Metastore
    pub graph : Graph

  pub record Plan : Type 0 where
    pub global_order : List FilePath
    pub tainted : IdSet
    pub ordered_priorities : List ℕ
    pub tasks_by_priority : Tasks
    pub task_types : TaskTypes
    pub tainted_hosts : IdSet

  -- The state before the call. `located` is what `LocateRevisions` makes of the known revisions.
  pub record State : Type 0 where
    pub persisted : Option Snapshot
    pub current : Option Snapshot
    pub new_revs : Revs
    pub rev_delta : RevDelta
    pub located : Option Revs

  -- The unreachable hosts, then the walks over the persisted and the current graph.
  find : Snapshot → Snapshot → RevDelta → Result Found
  find base target delta = do
    hosts ← unreachable_hosts target.metastore []
    let start : Found = record {
      changes = [];
      deletions = [];
      additions = [];
      tainted_hosts = hosts;
      delta = delta;
    }
    walked ← walk_with (visit_base base.metastore target.metastore) (walk base.graph) start
    walk_with (visit_target base.metastore target.metastore) (walk target.graph) walked

  tainted_of : Snapshot → Found → IdSet
  tainted_of target f = taint_parents target.metastore f.changes (add_all f.tainted_hosts [])

  -- The tainted hosts with the changes and the additions.
  all_tainted : Found → IdSet → List FilePath
  all_tainted f hosts = keys (add_all f.additions (add_all f.changes hosts))

  plan_from : Tasks × TaskTypes → IdSet → Plan
  plan_from (tasks, types) hosts =
      let order = global_order tasks (ordered_priorities tasks) ([], []) in
      record {
        global_order = order.1;
        tainted = order.0;
        ordered_priorities = ordered_priorities tasks;
        tasks_by_priority = tasks;
        task_types = types;
        tainted_hosts = hosts;
      }

  -- The walk that makes the plan, once the delta is known.
  make_plan : Snapshot → Snapshot → Revs → Revs → Found → RevDelta → IdSet → Result Plan
  unfolding plan_from tainted_of
  make_plan base target known new found delta set = do
    top ← require (root target.graph) no_root
    guard (validate target.graph) invalid_graph
    let inputs : Inputs = record {
      base = base.metastore;
      target = target.metastore;
      delta = delta;
      lineage = set;
      known = known;
      new = new;
    }
    collected ← collect inputs (depth_first_walk target.graph top) ([], [])
    ok (plan_from collected (tainted_of target found))

  plan_delta : Snapshot → Snapshot → Revs → Revs → RevDelta → Result Plan
  unfolding find all_tainted make_plan
  plan_delta base target known new delta = do
    found ← find base target delta
    set ← lineage dag target.graph found.changes []
    let tainted = all_tainted found (tainted_of target found)
    touched ← touch_descendents dag base.graph tainted found.delta
    check_descendents dag target.graph tainted
    make_plan base target known new found touched set

  unfoldable pub calculate_delta : ℕ → State → Result Plan
  unfolding plan_delta
  calculate_delta now s = do
    base ← require s.persisted persisted_nil
    target ← require s.current current_nil
    known ← require s.located locate_failed
    let new = generate_current_revs now target.metastore s.new_revs
    let delta = generate_revision_delta new known s.rev_delta
    guard (not (snapshots_equal sum64 dependency_hash base.metastore target.metastore known new))
        snapshots_match
    plan_delta base target known new delta
