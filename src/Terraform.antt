-- ===== src/Terraform.antt =====
-- `CalculateTerraformNeeds` of core/planner.go: what terraform must do for each team before a plan.
pub mod Partial
pub mod Sequence
use laforge.Base.{Bool, true, false, not, Option, none, some, List, [], ◌∷◌, ◌++◌, if◌then◌else◌}
use laforge.Base.Eq.{path_eq, path_same}
use laforge.Base.Assoc.{lookup, insert}
use laforge.Metadata.GoPath.{FilePath, join}
use laforge.Metadata.{
  LfType, build, environment, provisioned_host, provisioned_network, team, type_by_path,
  TeamIdResult, team_id, failure, get_team_id_from_path,
}

-- The arguments of terraform: "refresh …", "taint … <resource>" and "apply …".
pub data Command : Type 0 where
  refresh apply : Command
  taint : FilePath → Command

pub record Conn : Type 0 where
  pub path : FilePath
  pub resource_name : FilePath

pub record PHost : Type 0 where
  pub path : FilePath
  pub conn : Option Conn

-- What the loop reads. `host_of` is the metastore, with the dependency where it is a provisioned
-- host; a vertex that the metastore does not have is read through a nil pointer.
pub record Inputs : Type 0 where
  pub host_of : FilePath → Option (Option PHost)
  pub connections : List (FilePath × Conn)

unfoldable pub requires_tf : LfType → Bool
requires_tf build = true
requires_tf environment = true
requires_tf provisioned_host = true
requires_tf provisioned_network = true
requires_tf team = true
requires_tf _ = false

-- The commands by team, and the teams that need an apply.
pub record Needs : Type 0 where
  pub commands : List (FilePath × List Command)
  pub applying : List (FilePath × Bool)

abbrev pub Sequences : Type 0
Sequences = List (FilePath × List Command)

-- ret[teamID]
unfoldable pub commands_of : FilePath → Sequences → List Command
commands_of tid all = elim (lookup tid all) [ none ↦ [] | some cs ↦ cs ]

-- if ret[teamID] == nil || len(ret[teamID]) < 1
start_with : FilePath → List Command → Needs → Needs
start_with tid [] n = record n { commands = insert tid (refresh ∷ []) n.commands }
start_with tid (c ∷ cs) n = n

start_team : FilePath → Needs → Needs
unfolding commands_of start_with
start_team tid n = start_with tid (commands_of tid n.commands) n

add_command : FilePath → Command → Needs → Needs
unfolding commands_of
add_command tid c n = record n {
  commands = insert tid (commands_of tid n.commands ++ c ∷ []) n.commands;
}

-- The connection under the same path in the state that was loaded.
taint_alterego : FilePath → PHost → Option Conn → Needs → Needs
unfolding add_command
taint_alterego tid h none n = n
taint_alterego tid h (some a) n =
    if not (path_same a.resource_name (join h.path ("conn" ∷ [])))
    then add_command tid (taint a.resource_name) n
    else n

taint_conn : FilePath → Option Conn → Needs → Needs
unfolding add_command
taint_conn tid none n = n
taint_conn tid (some c) n =
    if not (path_same c.resource_name c.path) then add_command tid (taint c.resource_name) n else n

mark_applying : FilePath → Needs → Needs
mark_applying tid n = record n { applying = insert tid true n.applying }

-- `none` is the panic.
need_host : Inputs → FilePath → Option (Option PHost) → Needs → Option Needs
unfolding taint_alterego taint_conn mark_applying
need_host i tid none n = none
need_host i tid (some none) n = some n
need_host i tid (some (some h)) n = some (
    mark_applying tid (
      taint_conn tid h.conn
        (taint_alterego tid h (lookup (join h.path ("conn" ∷ [])) i.connections) n)))

abbrev pub is_phost : LfType → Bool
is_phost provisioned_host = true
is_phost _ = false

need_for_team : Inputs → FilePath → TeamIdResult → Needs → Option Needs
unfolding start_team need_host
need_for_team i x (failure e) n = some n
need_for_team i x (team_id tid) n =
    let started = start_team tid n in
    if is_phost (type_by_path x) then need_host i tid (i.host_of x) started else some started

need_for : Inputs → FilePath → Needs → Option Needs
unfolding need_for_team requires_tf
need_for i x n =
    if not (requires_tf (type_by_path x))
    then some n
    else need_for_team i x (get_team_id_from_path x) n

unfoldable pub collect_needs : Inputs → List FilePath → Needs → Option Needs
unfolding need_for
collect_needs i [] n = some n
collect_needs i (x ∷ order) n = elim (need_for i x n) [
  | none ↦ none
  | some m ↦ collect_needs i order m
]

-- for tid := range teamsRequiringTFApply { ret[tid] = append(ret[tid], "apply …") }
apply_all : List (FilePath × Bool) → Needs → Needs
unfolding add_command
apply_all [] n = n
apply_all ((tid, b) ∷ teams) n = apply_all teams (add_command tid apply n)

finish_needs : Option Needs → Option Sequences
unfolding apply_all
finish_needs none = none
finish_needs (some n) = some (apply_all n.applying n).commands

unfoldable pub calculate_terraform_needs : Inputs → List FilePath → Option Sequences
unfolding collect_needs finish_needs
calculate_terraform_needs i order =
    finish_needs (collect_needs i order (record { commands = []; applying = [] }))
