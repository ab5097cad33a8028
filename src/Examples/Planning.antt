-- ===== src/Examples/Planning.antt =====
-- A plan for a competition in which a step of its one host changed.
use laforge.Base.{
  ℕ, Bool, true, false, ◌≡◌, refl, Option, none, some, List, [], ◌∷◌, ◌+◌, inl, inr, In, ◌==◌,
}
use laforge.Base.Eq.{path_eq}
use laforge.Base.Assoc.{lookup}
use laforge.Metadata.GoPath.{FilePath}
use laforge.Metadata.{is_global_type}
use laforge.Revision.{RevMod, rebuild, Revision, RevStatus, active, Metadata}
use laforge.Delta.{Revs, Metastore, generate_revision_delta}
use laforge.Delta.Equal.{change_unseen}
use laforge.Delta.Strategy.{lookup-generate_revision_delta}
use laforge.Planning.Dag.{Dag, Result, ok}
use laforge.Planning.Delta.{Snapshot, State, Plan, calculate_delta}
use laforge.Planning.Tasks.{tasks_at}
use laforge.Planning.Tasks.Types.{IsWellKeyed, IsWellKeyed-empty, IsWellKeyed-cons}
use laforge.Planning.Delta.Order.{
  IsOrderedPlan, calculate_delta-IsOrderedPlan, calculate_delta-rebuilds,
}

abbrev pub host_path : FilePath
host_path = "" ∷ "envs" ∷ "dev" ∷ "tf" ∷ "teams" ∷ "0" ∷ "networks" ∷ "lan" ∷ "hosts" ∷ "web" ∷ []

abbrev pub step_path : FilePath
step_path =
    "" ∷ "envs" ∷ "dev" ∷ "tf" ∷ "teams" ∷ "0" ∷ "networks" ∷ "lan" ∷ "hosts" ∷ "web" ∷ "steps"
    ∷ "0-a" ∷ []

abbrev pub dag : Dag
dag = record {
  Graph = Unit {0};
  walk = λ g. step_path ∷ host_path ∷ [];
  ancestors = λ g id. some [];
  descendents = λ g id. some [];
  root = λ g. some host_path;
  validate = λ g. true;
  depth_first_walk = λ g id. (host_path, 0) ∷ (step_path, 1) ∷ [];
}

abbrev sum64 : List ℕ → ℕ
sum64 [] = 0
sum64 (b ∷ bs) = b + sum64 bs

abbrev hash_of : FilePath → ℕ
hash_of id = 1

abbrev host_at : ℕ → Metadata
host_at c = record { id = host_path; checksum = c; parent_id = []; host = some (some "10.0.0.5") }

abbrev pub step_at : ℕ → Metadata
step_at c = record { id = step_path; checksum = c; parent_id = host_path; host = none }

abbrev store : ℕ → Metastore
store c = (host_path, host_at 3) ∷ (step_path, step_at c) ∷ []

abbrev snapshot : ℕ → Snapshot dag sum64 hash_of
snapshot c = record { metastore = store c; graph = tt }

abbrev state : State dag sum64 hash_of
state = record {
  persisted = some (snapshot 7);
  current = some (snapshot 9);
  new_revs = [];
  rev_delta = [];
  located = some [];
}

abbrev plan_of : Result (Plan dag sum64 hash_of) → Plan dag sum64 hash_of
plan_of (ok p) = p
plan_of _ = record {
  global_order = [];
  tainted = [];
  ordered_priorities = [];
  tasks_by_priority = [];
  task_types = [];
  tainted_hosts = [];
}

abbrev plan : Plan dag sum64 hash_of
plan = plan_of (calculate_delta dag sum64 hash_of 1 state)

planned : calculate_delta dag sum64 hash_of 1 state ≡ ok plan
unfolding calculate_delta laforge.Delta.Equal.snapshots_equal laforge.Checksum.hash
    laforge.Base.Sort.sort laforge.Planning.Taint.unreachable_hosts laforge.Metadata.type_by_path
    laforge.Metadata.GoPath.base laforge.Metadata.GoPath.dir laforge.Planning.Taint.walk_with
    laforge.Planning.Taint.visit_base lookup laforge.Base.Eq.path_same generate_revision_delta
    laforge.Delta.generate_current_revs laforge.Base.Assoc.insert
    laforge.Planning.Taint.visit_target laforge.Planning.Taint.lineage
    laforge.Planning.Taint.touch_descendents laforge.Base.Sort.insert_sorted
    laforge.Delta.Equal.snapshot_hash laforge.Delta.rev_hashes laforge.Metadata.GoPath.is_abs
    is_global_type laforge.Planning.Taint.add_all laforge.Planning.Taint.check_descendents
    laforge.Planning.Taint.taint_parents laforge.Planning.Tasks.action_at
    laforge.Planning.Tasks.collect laforge.Planning.Tasks.global_order
    laforge.Planning.Tasks.ordered_priorities laforge.Revision.to_revision
planned = refl

calculate_delta-IsOrderedPlan_example : IsOrderedPlan dag sum64 hash_of plan
calculate_delta-IsOrderedPlan_example =
    calculate_delta-IsOrderedPlan dag sum64 hash_of 1 state plan planned

well_keyed : IsWellKeyed (store 9)
well_keyed =
    IsWellKeyed-cons host_path (host_at 3) ((step_path, step_at 9) ∷ []) refl
      (IsWellKeyed-cons step_path (step_at 9) [] refl IsWellKeyed-empty)

in_store : (c : ℕ) → lookup step_path (store c) ≡ some (step_at c)
unfolding lookup laforge.Base.Eq.path_same
in_store c = refl

step_is_local : is_global_type step_path ≡ false
unfolding is_global_type laforge.Metadata.type_by_path laforge.Metadata.GoPath.base
    laforge.Metadata.GoPath.dir laforge.Metadata.GoPath.is_abs
step_is_local = refl

calculate_delta-rebuilds_example :
    In step_path (tasks_at 1 plan.tasks_by_priority)
    × In step_path plan.global_order
    × (lookup step_path plan.task_types ≡ some rebuild)
calculate_delta-rebuilds_example =
    calculate_delta-rebuilds dag sum64 hash_of 1 state plan (snapshot 7) (snapshot 9) step_path
      host_path (step_at 7) (step_at 9) 1 planned refl refl well_keyed (in_store 7) (in_store 9)
      refl step_is_local (inl refl) refl (inr (inl refl))

-- A revision that failed, one that is new, and one that is only known.
abbrev revision : FilePath → RevStatus → ℕ → Revision
revision id status c = record {
  id = id;
  type = laforge.Metadata.provisioning_step;
  status = status;
  checksum = c;
  timestamp = 0;
  external_id = "";
}

abbrev known_revs : Revs
known_revs = (step_path, revision step_path laforge.Revision.failed 7) ∷ []

abbrev new_revs : Revs
new_revs =
    (step_path, revision step_path laforge.Revision.planned 7)
    ∷ (host_path, revision host_path laforge.Revision.planned 3)
    ∷ []

lookup-generate_revision_delta_example :
    lookup step_path (generate_revision_delta new_revs known_revs []) ≡ some rebuild
unfolding lookup laforge.Base.Eq.path_same
lookup-generate_revision_delta_example =
    lookup-generate_revision_delta new_revs known_revs step_path (refl, (refl, tt))

-- A host of another checksum, below a step with the largest.
abbrev other_store : Metastore
other_store = (host_path, host_at 5) ∷ (step_path, step_at 9) ∷ []

largest_same :
    laforge.Delta.Equal.largest sum64 hash_of (store 9)
    ≡ laforge.Delta.Equal.largest sum64 hash_of other_store
unfolding laforge.Delta.Equal.snapshot_hash
largest_same = refl

change_unseen_example :
    laforge.Delta.Equal.snapshots_equal sum64 hash_of (store 9) other_store [] [] ≡ true
change_unseen_example =
    change_unseen sum64 hash_of (store 9) other_store [] [] refl largest_same refl refl
