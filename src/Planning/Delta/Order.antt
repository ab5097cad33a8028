-- ===== src/Planning/Delta/Order.antt =====
-- What a successful `CalculateDelta` of core/state.go guarantees of its plan.
use laforge.Base.{ℕ, false, not, ◌≡◌, sym, some, List, [], In, concat_map, ◌==◌, subst}
use laforge.Base.Eq.{path_eq, nat_eq}
use laforge.Base.Assoc.{lookup}
use laforge.Base.Sort.{IsSorted}
use laforge.Metadata.GoPath.{FilePath}
use laforge.Metadata.{is_global_type}
use laforge.Revision.{rebuild, Metadata}
use laforge.Delta.{Revs, RevDelta, generate_current_revs}
use laforge.Delta.Equal.{snapshots_equal}
use laforge.Planning.Dag.{
  Dag, ok, persisted_nil, current_nil, locate_failed, snapshots_match, no_root, invalid_graph,
  require, guard, >>=-eq-ok, require-eq-ok,
}
use laforge.Planning.Taint.{
  IdSet, Found, unreachable_hosts, walk_with, visit_base, visit_target, lineage, touch_descendents,
  check_descendents,
}
use laforge.Planning.Taint.Changes.{
  walk_base-finds, walk_with-Keeps, visit_target-Keeps, lineage-changes,
}
use laforge.Planning.Tasks.{Tasks, TaskTypes, Inputs, tasks_at, collect, ordered_priorities}
use laforge.Planning.Tasks.Order.{
  global_order-concat, SameIds, SameIds-global_order, SameIds-empty, In-global_order,
  ordered_priorities-IsSorted,
}
use laforge.Planning.Tasks.Types.{IsWellKeyed, collect_complete, action_at-lineage}
use laforge.Planning.Delta.{
  Snapshot, State, Plan, find, plan_from, tainted_of, all_tainted, make_plan, plan_delta,
  calculate_delta,
}

-- The order of a plan is by ascending depth, and has each task once for each time that it stands
-- in the tasks of a depth; the set of tainted vertices is the set of those in the order.
pub record IsOrdered (order : List FilePath) (tainted : IdSet) (priorities : List ℕ) (tasks : Tasks)
    : Type 0 where
  pub by_depth : order ≡ concat_map (λ d. tasks_at d tasks) priorities
  pub ascending : IsSorted priorities
  pub same_ids : SameIds tainted order
  pub complete : (d : ℕ) (id : FilePath) → In id (tasks_at d tasks) → In id order

module _ (dag : Dag) (sum64 : List ℕ → ℕ) (dependency_hash : FilePath → ℕ) where
  open dag use {Graph, walk, root, depth_first_walk}

  abbrev pub IsOrderedPlan : Plan dag sum64 dependency_hash → Type 0
  IsOrderedPlan plan =
      IsOrdered plan.global_order plan.tainted plan.ordered_priorities plan.tasks_by_priority

  plan_from-IsOrdered :
      (c : Tasks × TaskTypes) (hosts : IdSet)
      → IsOrderedPlan (plan_from dag sum64 dependency_hash c hosts)
  unfolding plan_from
  plan_from-IsOrdered (tasks, types) hosts =
      let ps = ordered_priorities tasks in
      let q = global_order-concat tasks ps [] [] in
      record {
        by_depth = q;
        ascending = ordered_priorities-IsSorted tasks;
        same_ids = SameIds-global_order tasks ps [] [] SameIds-empty;
        complete = λ d id h. subst (λ l. In id l) (sym q) (In-global_order tasks d id h);
      }

  inputs_of :
      Snapshot dag sum64 dependency_hash
      → Snapshot dag sum64 dependency_hash
      → Revs
      → Revs
      → RevDelta
      → IdSet
      → Inputs
  inputs_of base target known new delta set = record {
    base = base.metastore;
    target = target.metastore;
    delta = delta;
    lineage = set;
    known = known;
    new = new;
  }

  make_plan-eq-ok :
      (base target : Snapshot dag sum64 dependency_hash) (known new : Revs) (found : Found)
      (delta : RevDelta) (set : IdSet) (plan : Plan dag sum64 dependency_hash)
      → make_plan dag sum64 dependency_hash base target known new found delta set ≡ ok plan
      → (top : FilePath) × (c : Tasks × TaskTypes) × (root target.graph ≡ some top)
        × (collect
              (inputs_of base target known new delta set)
              (depth_first_walk target.graph top)
              ([], [])
            ≡ ok c)
        × (plan_from dag sum64 dependency_hash c (tainted_of dag sum64 dependency_hash target found)
            ≡ plan)
  unfolding make_plan inputs_of
  make_plan-eq-ok base target known new found delta set plan e =
      let (top, p, q) = >>=-eq-ok (require (root target.graph) no_root) _ e in
      let (u, p', q') = >>=-eq-ok (guard (dag.validate target.graph) invalid_graph) _ q in
      let (c, p'', q'') =
        >>=-eq-ok
          (collect (inputs_of base target known new delta set) (depth_first_walk target.graph top)
            ([], []))
          _ q' in
      (top, c, require-eq-ok (root target.graph) no_root top p, p'', cc)

  plan_delta-eq-ok :
      (base target : Snapshot dag sum64 dependency_hash) (known new : Revs) (delta : RevDelta)
      (plan : Plan dag sum64 dependency_hash)
      → plan_delta dag sum64 dependency_hash base target known new delta ≡ ok plan
      → (found : Found) × (set : IdSet) × (touched : RevDelta) × (find dag sum64 dependency_hash
            base target delta
          ≡ ok found)
        × (lineage dag target.graph found.changes [] ≡ ok set)
        × (make_plan dag sum64 dependency_hash base target known new found touched set ≡ ok plan)
  unfolding plan_delta
  plan_delta-eq-ok base target known new delta plan e =
      let (found, p, q) = >>=-eq-ok (find dag sum64 dependency_hash base target delta) _ e in
      let (set, p', q') = >>=-eq-ok (lineage dag target.graph found.changes []) _ q in
      let ids =
        all_tainted dag sum64 dependency_hash found
          (tainted_of dag sum64 dependency_hash target found) in
      let (touched, p'', q'') = >>=-eq-ok (touch_descendents dag base.graph ids found.delta) _ q' in
      let (u, p3, q3) = >>=-eq-ok (check_descendents dag target.graph ids) _ q'' in
      (found, set, touched, p, p', q3)

  calculate_delta-eq-ok :
      (now : ℕ) (s : State dag sum64 dependency_hash) (plan : Plan dag sum64 dependency_hash)
      → calculate_delta dag sum64 dependency_hash now s ≡ ok plan
      → (base : Snapshot dag sum64 dependency_hash) × (target : Snapshot dag sum64 dependency_hash)
        × (known : Revs) × (new : Revs) × (delta : RevDelta) × (s.persisted ≡ some base)
        × (s.current ≡ some target)
        × (plan_delta dag sum64 dependency_hash base target known new delta ≡ ok plan)
  unfolding calculate_delta
  calculate_delta-eq-ok now s plan e =
      let (base, p, q) = >>=-eq-ok (require s.persisted persisted_nil) _ e in
      let (target, p', q') = >>=-eq-ok (require s.current current_nil) _ q in
      let (known, p'', q'') = >>=-eq-ok (require s.located locate_failed) _ q' in
      let same =
        snapshots_equal sum64 dependency_hash base.metastore target.metastore known
          (generate_current_revs now target.metastore s.new_revs) in
      let (u, p3, q3) = >>=-eq-ok (guard (not same) snapshots_match) _ q'' in
      (
        base,
        target,
        known,
        _,
        _,
        require-eq-ok s.persisted persisted_nil base p,
        require-eq-ok s.current current_nil target p',
        q3,
      )

  find-changes :
      (base target : Snapshot dag sum64 dependency_hash) (delta : RevDelta) (found : Found)
      (id : FilePath) (b m : Metadata)
      → find dag sum64 dependency_hash base target delta ≡ ok found
      → lookup id base.metastore ≡ some b
      → lookup id target.metastore ≡ some m
      → (m.checksum == b.checksum) ≡ false
      → In id (walk base.graph)
      → In id found.changes
  unfolding find
  find-changes base target delta found id b m e hb hm c h =
      let (hosts, p, q) = >>=-eq-ok (unreachable_hosts target.metastore []) _ e in
      let start : Found = record {
        changes = [];
        deletions = [];
        additions = [];
        tainted_hosts = hosts;
        delta = delta;
      } in
      let (walked, p', q') =
        >>=-eq-ok (walk_with (visit_base base.metastore target.metastore) (walk base.graph) start) _
          q in
      let changed =
        walk_base-finds base.metastore target.metastore (walk base.graph) id b m _ walked hb hm c h
          p' in
      walk_with-Keeps (visit_target base.metastore target.metastore) (walk target.graph) id walked
        found (visit_target-Keeps base.metastore target.metastore) q' changed

  -- Whatever the graphs, the checksums and the metastores, the plan of a `CalculateDelta` that
  -- returns no error lists the vertices by ascending depth, all tasks of every depth among them, and
  -- the set of tainted vertices that it stores is that of the vertices in this order.
  pub calculate_delta-IsOrderedPlan :
      (now : ℕ) (s : State dag sum64 dependency_hash) (plan : Plan dag sum64 dependency_hash)
      → calculate_delta dag sum64 dependency_hash now s ≡ ok plan
      → IsOrderedPlan plan
  calculate_delta-IsOrderedPlan now s plan e =
      let (base, target, known, new, delta, hb, ht, q) = calculate_delta-eq-ok now s plan e in
      let (found, set, touched, hf, hl, hm) = plan_delta-eq-ok base target known new delta plan q in
      let (top, c, hr, hc, hp) = make_plan-eq-ok base target known new found touched set plan hm in
      subst IsOrderedPlan hp (plan_from-IsOrdered c _)

  IsRebuilt : Plan dag sum64 dependency_hash → FilePath → ℕ → Type 0
  IsRebuilt plan id d =
      In id (tasks_at d plan.tasks_by_priority) × (lookup id plan.task_types ≡ some rebuild)

  plan_from-IsRebuilt :
      (c : Tasks × TaskTypes) (hosts : IdSet) (id : FilePath) (d : ℕ)
      → In id (tasks_at d c.0) × (lookup id c.1 ≡ some rebuild)
      → IsRebuilt (plan_from dag sum64 dependency_hash c hosts) id d
  unfolding plan_from IsRebuilt
  plan_from-IsRebuilt (tasks, types) hosts id d h = h

  plan_delta-IsRebuilt :
      (base target : Snapshot dag sum64 dependency_hash) (known new : Revs) (delta : RevDelta)
      (plan : Plan dag sum64 dependency_hash) (id top : FilePath) (b m : Metadata) (d : ℕ)
      → plan_delta dag sum64 dependency_hash base target known new delta ≡ ok plan
      → IsWellKeyed target.metastore
      → lookup id base.metastore ≡ some b
      → lookup id target.metastore ≡ some m
      → (m.checksum == b.checksum) ≡ false
      → is_global_type id ≡ false
      → In id (walk base.graph)
      → root target.graph ≡ some top
      → In (id, d) (depth_first_walk target.graph top)
      → IsRebuilt plan id d
  unfolding inputs_of
  plan_delta-IsRebuilt base target known new delta plan id top b m d q wk lb lm c g h hr hv =
      let (found, set, touched, hf, hl, hm) = plan_delta-eq-ok base target known new delta plan q in
      let (top', out, hr', hc, hp) =
        make_plan-eq-ok base target known new found touched set plan hm in
      let same : top' ≡ top = cc in
      let changed = find-changes base target delta found id b m hf lb lm c h in
      let inherited = lineage-changes dag target.graph found.changes [] set id changed hl in
      let inputs = inputs_of base target known new touched set in
      let visited = subst (λ t. In (id, d) (depth_first_walk target.graph t)) (sym same) hv in
      subst (λ p. IsRebuilt p id d) hp
        (plan_from-IsRebuilt out _ id d (
          collect_complete inputs (depth_first_walk target.graph top') id d rebuild ([], []) out wk
            (action_at-lineage inputs id b m lb lm inherited g) hc visited))

  -- Let `CalculateDelta` return a plan, and let the entries of the current metastore stand under
  -- their IDs. A vertex of the persisted graph that is not global, whose checksum differs between
  -- the two metastores, and which the depth-first walk from the current graph's root visits at
  -- some depth, is a task of that depth, stands in the order, and its task is a rebuild.
  pub calculate_delta-rebuilds :
      (now : ℕ) (s : State dag sum64 dependency_hash) (plan : Plan dag sum64 dependency_hash)
      (base target : Snapshot dag sum64 dependency_hash) (id top : FilePath) (b m : Metadata)
      (d : ℕ)
      → calculate_delta dag sum64 dependency_hash now s ≡ ok plan
      → s.persisted ≡ some base
      → s.current ≡ some target
      → IsWellKeyed target.metastore
      → lookup id base.metastore ≡ some b
      → lookup id target.metastore ≡ some m
      → (m.checksum == b.checksum) ≡ false
      → is_global_type id ≡ false
      → In id (walk base.graph)
      → root target.graph ≡ some top
      → In (id, d) (depth_first_walk target.graph top)
      → In id (tasks_at d plan.tasks_by_priority)
        × In id plan.global_order
        × (lookup id plan.task_types ≡ some rebuild)
  unfolding IsRebuilt
  calculate_delta-rebuilds now s plan base target id top b m d e hb ht wk lb lm c g h hr hv =
      let (base', target', known, new, delta, hb', ht', q) = calculate_delta-eq-ok now s plan e in
      let same_base : base' ≡ base = cc in
      let same_target : target' ≡ target = cc in
      let q' =
        subst (λ t. plan_delta dag sum64 dependency_hash base t known new delta ≡ ok plan)
          same_target
          (subst (λ t. plan_delta dag sum64 dependency_hash t target' known new delta ≡ ok plan)
            same_base q) in
      let (listed, typed) =
        plan_delta-IsRebuilt base target known new delta plan id top b m d q' wk lb lm c g h hr
          hv in
      (listed, (calculate_delta-IsOrderedPlan now s plan e).complete d id listed, typed)
