-- ===== src/Planning/Tasks.antt =====
-- The second half of `CalculateDelta` of core/state.go: what is done to each vertex of the current
-- graph, by depth, and the order of the work.
pub mod Order
pub mod Types
use laforge.Base.{
  ℕ, Bool, true, false, ◌&&◌, not, Option, none, some, List, [], ◌∷◌, ◌++◌, ◌==◌, if◌then◌else◌,
}
use laforge.Base.Eq.{path_eq, nat_eq}
use laforge.Base.Assoc.{lookup, has_key, insert}
use laforge.Base.Sort.{sort}
use laforge.Metadata.GoPath.{FilePath}
use laforge.Metadata.{build, type_by_path, is_global_type}
use laforge.Revision.{RevMod, touch, create, rebuild, Metadata, Revision}
use laforge.Delta.{Revs, RevDelta, Metastore}
use laforge.Planning.Dag.{Result, ok, err, panic, ◌>>=◌}
use laforge.Planning.Taint.{IdSet}

abbrev pub Tasks : Type 0
Tasks = List (ℕ × List FilePath)

abbrev pub TaskTypes : Type 0
TaskTypes = List (FilePath × RevMod)

-- What the callback reads and does not change.
pub record Inputs : Type 0 where
  pub base : Metastore
  pub target : Metastore
  pub delta : RevDelta
  pub lineage : IdSet
  pub known : Revs
  pub new : Revs

abbrev pub is_build : FilePath → Bool
is_build id = elim (type_by_path id) [ build ↦ true | _ ↦ false ]

abbrev pub or_create : Option RevMod → RevMod
or_create none = create
or_create (some a) = a

revisions_agree : Option Revision → Option Revision → Metadata → Metadata → Bool
revisions_agree (some b) (some t) base target =
    b.checksum == t.checksum && base.checksum == b.checksum && target.checksum == t.checksum
revisions_agree _ _ base target = false

-- The action for a vertex, under the ID by which its type is stored, or no task.
abbrev pub Action : Type 0
Action = Option (FilePath × RevMod)

action_added : Inputs → FilePath → Option Metadata → Action
action_added i id none = none
action_added i id (some target) =
    if is_global_type id then none else some (target.id, or_create (lookup target.id i.delta))

stored_action : FilePath → Option RevMod → Action
stored_action id none = none
stored_action id (some a) = some (id, a)

action_kept : Inputs → FilePath → Metadata → Metadata → Action
unfolding revisions_agree stored_action
action_kept i id base target =
    if has_key id i.lineage && not (is_global_type id)
    then some (id, rebuild)
    else if revisions_agree (lookup base.id i.known) (lookup target.id i.new) base target
    then none
    else if is_build id
    then none
    else if is_global_type id
    then (if not (target.checksum == base.checksum) then some (id, touch) else none)
    else stored_action id (lookup target.id i.delta)

-- A vertex that only the persisted snapshot has is read through a nil pointer.
action_persisted : Inputs → FilePath → Metadata → Option Metadata → Result Action
unfolding action_kept
action_persisted i id base none = panic
action_persisted i id base (some target) = ok (action_kept i id base target)

action_from : Inputs → FilePath → Option Metadata → Result Action
unfolding action_added action_persisted
action_from i id none = ok (action_added i id (lookup id i.target))
action_from i id (some base) = action_persisted i id base (lookup id i.target)

unfoldable pub action_at : Inputs → FilePath → Result Action
unfolding action_from
action_at i id = action_from i id (lookup id i.base)

abbrev pub tasks_at : ℕ → Tasks → List FilePath
tasks_at depth tasks = elim (lookup depth tasks) [ none ↦ [] | some ids ↦ ids ]

add_task : FilePath → ℕ → Action → Tasks × TaskTypes → Tasks × TaskTypes
add_task id depth none (tasks, types) = (insert depth (tasks_at depth tasks) tasks, types)
add_task id depth (some (key, action)) (tasks, types) =
    (insert depth (tasks_at depth tasks ++ id ∷ []) tasks, insert key action types)

-- The callback of the depth-first walk, at each vertex with its depth.
unfoldable pub collect :
    Inputs → List (FilePath × ℕ) → Tasks × TaskTypes → Result (Tasks × TaskTypes)
unfolding add_task action_at
collect i [] w = ok w
collect i ((id, depth) ∷ visits) w =
    action_at i id >>= λ action. collect i visits (add_task id depth action w)

depths : Tasks → List ℕ
depths [] = []
depths ((depth, ids) ∷ tasks) = depth ∷ depths tasks

unfoldable pub ordered_priorities : Tasks → List ℕ
unfolding depths
ordered_priorities tasks = sort (depths tasks)

add_to_order : List FilePath → IdSet × List FilePath → IdSet × List FilePath
add_to_order [] w = w
add_to_order (id ∷ ids) (tainted, order) =
    add_to_order ids (insert id true tainted, order ++ id ∷ [])

-- for _, v := range taskkeys { for _, l := range tasks[v] { … } }
unfoldable pub global_order : Tasks → List ℕ → IdSet × List FilePath → IdSet × List FilePath
unfolding add_to_order
global_order tasks [] w = w
global_order tasks (depth ∷ priorities) w =
    global_order tasks priorities (add_to_order (tasks_at depth tasks) w)
