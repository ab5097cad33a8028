-- ===== src/Planning/Taint.antt =====
-- The first half of `CalculateDelta` of core/state.go: what changed, what was added, which hosts
-- must be provisioned again, and the lineage of the changes.
pub mod Changes
use laforge.Base.{
  ℕ, String, Bool, true, false, not, Option, none, some, List, [], ◌∷◌, ◌++◌, ◌==◌, str_eq,
  if◌then◌else◌,
}
use laforge.Base.Eq.{path_eq, path_same}
use laforge.Base.Assoc.{lookup, has_key, insert}
use laforge.Metadata.GoPath.{FilePath}
use laforge.Metadata.{LfType, provisioned_host, provisioning_step, type_by_path}
use laforge.Revision.{RevMod, touch, rebuild, Metadata}
use laforge.Delta.{RevDelta, Metastore}
use laforge.Planning.Dag.{Dag, Result, ok, err, panic, no_ancestors, no_descendents, ◌>>=◌, require}

-- A `map[string]bool` that only ever gets `true`.
abbrev pub IdSet : Type 0
IdSet = List (FilePath × Bool)

abbrev pub is_host : FilePath → Bool
is_host id = elim (type_by_path id) [ provisioned_host ↦ true | _ ↦ false ]

abbrev pub is_step : FilePath → Bool
is_step id = elim (type_by_path id) [ provisioning_step ↦ true | _ ↦ false ]

abbrev pub null_ip : String
null_ip = "0.0.0.0"

-- has_kind the host no connection, or none with an address? A dependency of another type is a nil host.
unreachable : Option (Option String) → Result Bool
unreachable none = panic
unreachable (some none) = ok true
unreachable (some (some addr)) = ok (str_eq addr null_ip)

taint_if : Bool → FilePath → List FilePath → List FilePath
taint_if b id hosts = if b then hosts ++ id ∷ [] else hosts

unfoldable pub unreachable_hosts : Metastore → List FilePath → Result (List FilePath)
unfolding unreachable taint_if
unreachable_hosts [] hosts = ok hosts
unreachable_hosts ((id, m) ∷ store) hosts =
    let rest = unreachable_hosts store hosts in
    if is_host id
    then (unreachable m.host >>= λ b. unreachable_hosts store (taint_if b id hosts))
    else rest

-- What the two walks collect.
pub record Found : Type 0 where
  pub changes : List FilePath
  pub deletions : List FilePath
  pub additions : List FilePath
  pub tainted_hosts : List FilePath
  pub delta : RevDelta

abbrev pub is_rebuild : Option RevMod → Bool
is_rebuild (some rebuild) = true
is_rebuild _ = false

compare_checksums : FilePath → Metadata → Option Metadata → Found → Result Found
compare_checksums id target none w = panic
compare_checksums id target (some base) w = ok (
    if not (target.checksum == base.checksum)
    then record w { changes = w.changes ++ id ∷ []; delta = insert id touch w.delta }
    else w)

visit_found : Metastore → FilePath → Option Metadata → Found → Result Found
unfolding compare_checksums
visit_found base id none w = ok (record w { deletions = w.deletions ++ id ∷ [] })
visit_found base id (some m) w =
    if is_rebuild (lookup id w.delta)
    then ok (record w { changes = w.changes ++ id ∷ [] })
    else compare_checksums id m (lookup id base) w

-- The callback of the walk over the persisted graph.
unfoldable pub visit_base : Metastore → Metastore → FilePath → Found → Result Found
unfolding visit_found
visit_base base target id w = visit_found base id (lookup id target) w

abbrev pub root_id : FilePath
root_id = "root" ∷ []

taint_host : FilePath → Found → Found
taint_host id w = record w { tainted_hosts = w.tainted_hosts ++ id ∷ [] }

visit_known : Metastore → FilePath → Found → Found
unfolding taint_host
visit_known base id w =
    if not (has_key id base)
    then (if is_host id then taint_host id w else record w { additions = w.additions ++ id ∷ [] })
    else if has_key id w.delta
    then (if is_host id then taint_host id w else w)
    else w

-- The callback of the walk over the current graph.
unfoldable pub visit_target : Metastore → Metastore → FilePath → Found → Result Found
unfolding visit_known
visit_target base target id w =
    if path_same id root_id
    then ok w
    else if not (has_key id target)
    then panic
    else ok (visit_known base id w)

unfoldable pub walk_with : (FilePath → Found → Result Found) → List FilePath → Found → Result Found
walk_with visit [] w = ok w
walk_with visit (id ∷ ids) w = visit id w >>= λ w'. walk_with visit ids w'

unfoldable pub add_all : List FilePath → IdSet → IdSet
add_all [] set = set
add_all (id ∷ ids) set = add_all ids (insert id true set)

abbrev pub keys : IdSet → List FilePath
keys [] = []
keys ((id, b) ∷ set) = id ∷ keys set

add_parent : Option Metadata → IdSet → IdSet
add_parent none set = set
add_parent (some m) set = insert m.parent_id true set

-- The host of a changed step is tainted: it must be rolled back and deployed again.
unfoldable pub taint_parents : Metastore → List FilePath → IdSet → IdSet
unfolding add_parent
taint_parents target [] set = set
taint_parents target (id ∷ changes) set =
    taint_parents target changes (if is_step id then add_parent (lookup id target) set else set)

touch_all : List FilePath → RevDelta → RevDelta
touch_all [] delta = delta
touch_all (id ∷ ids) delta = touch_all ids (insert id touch delta)

module _ (dag : Dag) where
  open dag use {Graph, ancestors, descendents}

  -- The changes with their ancestors in the current graph.
  unfoldable pub lineage : Graph → List FilePath → IdSet → Result IdSet
  unfolding add_all
  lineage g [] set = ok set
  lineage g (id ∷ changes) set = require (ancestors g id) no_ancestors >>= λ above.
      lineage g changes (add_all above (insert id true set))

  -- Everything below a tainted vertex of the persisted graph is to be touched.
  unfoldable pub touch_descendents : Graph → List FilePath → RevDelta → Result RevDelta
  unfolding touch_all
  touch_descendents g [] delta = ok delta
  touch_descendents g (id ∷ ids) delta = require (descendents g id) no_descendents >>= λ below.
      touch_descendents g ids (touch_all below delta)

  -- The current graph must have every tainted vertex too. (What lies below is collected in a set
  -- that is not read again.)
  unfoldable pub check_descendents : Graph → List FilePath → Result (Unit {0})
  check_descendents g [] = ok tt
  check_descendents g (id ∷ ids) =
      require (descendents g id) no_descendents >>= λ below. check_descendents g ids
