-- ===== src/Build.antt =====
-- How a build is populated: `CreateTeams` and `CreateTeam` of core/build.go, the methods `Create…`
-- of core/team.go, core/provisioned_network.go and core/provisioned_host.go, and
-- `LocateProvisionedHost`. A pointer to an object above another is the argument that names it; the
-- addresses and the credentials of hosts and connections are left out.
pub mod Stored
pub mod Populated
pub mod Located
pub mod MadeFrom
pub mod Steps
use laforge.Base.{
  ℕ, zero, suc, ◌+◌, String, Bool, true, false, Option, none, some, List, [], ◌∷◌, ◌++◌,
  if◌then◌else◌, length,
}
use laforge.Base.Eq.{path_eq, path_same}
use laforge.Base.Assoc.{lookup, insert}
use laforge.Metadata.GoPath.{FilePath}
use laforge.Metadata.Ids.{
  no_id, set_team_id, set_network_id, set_host_id, set_connection_id, set_step_id,
}

-- The kinds of a `Provisioner`.
pub data Kind : Type 0 where
  command dns_record remote_file script : Kind

pub record Provisioner : Type 0 where
  pub kind : Kind
  pub path : FilePath

-- core/host.go
pub record HostDependency : Type 0 where
  pub host_id : FilePath
  pub network_id : FilePath

pub record Host : Type 0 where
  pub path : FilePath
  pub provisioners : List Provisioner
  pub dependencies : List HostDependency
  pub scripts : List (FilePath × Provisioner)
  pub dns_records : List (FilePath × Provisioner)
  pub commands : List (FilePath × Provisioner)
  pub remote_files : List (FilePath × Provisioner)

-- core/network.go
pub record Network : Type 0 where
  pub path : FilePath
  pub name : String
  pub cidr : String

-- core/environment.go: what a build reads of its environment.
pub record Environment : Type 0 where
  pub path : FilePath
  pub included_networks : List (FilePath × Network)
  pub host_by_network : List (FilePath × List Host)

pub record ProvisioningStep : Type 0 where
  pub id : FilePath
  pub step_number : ℕ
  pub provisioner : Provisioner

pub record Connection : Type 0 where
  pub id : FilePath
  pub resource_name : FilePath
  pub active : Bool

pub record ProvisionedHost : Type 0 where
  pub id : FilePath
  pub host_id : FilePath
  pub host : Host
  pub conn : Connection
  pub provisioning_steps : List (FilePath × ProvisioningStep)
  pub steps_by_offset : List ProvisioningStep

pub record ProvisionedNetwork : Type 0 where
  pub id : FilePath
  pub network_id : FilePath
  pub name : String
  pub cidr : String
  pub network : Network
  pub provisioned_hosts : List (FilePath × ProvisionedHost)

pub record Team : Type 0 where
  pub id : FilePath
  pub team_number : ℕ
  pub provisioned_networks : List (FilePath × ProvisionedNetwork)

pub record Build : Type 0 where
  pub id : FilePath
  pub team_count : ℕ
  pub environment : Environment
  pub teams : List (FilePath × Team)

-- A missing key of a map gives a nil slice.
hosts_or_nil : Option (List Host) → List Host
hosts_or_nil none = []
hosts_or_nil (some hosts) = hosts

unfoldable pub hosts_of : Environment → FilePath → List Host
unfolding hosts_or_nil lookup
hosts_of env network = hosts_or_nil (lookup network env.host_by_network)

-- h.FinalStepID(), where `none` is -1
last_index : List Provisioner → Option ℕ
last_index [] = none
last_index (pr ∷ provisioners) = some (length provisioners)

unfoldable pub final_step_id : Host → Option ℕ
unfolding last_index
final_step_id h = last_index h.provisioners

module _ (decimal : ℕ → String) (step_name : ℕ → String → String) where
  unfoldable pub create_connection : FilePath → Connection
  unfolding set_connection_id
  create_connection host = record {
    id = set_connection_id no_id host;
    resource_name = set_connection_id no_id host;
    active = false;
  }

  unfoldable pub create_provisioning_step : Provisioner → ℕ → ProvisionedHost → ProvisionedHost
  unfolding set_step_id
  create_provisioning_step pr offset p =
      let ps : ProvisioningStep = record {
        id = set_step_id step_name no_id p.id offset pr.path;
        step_number = offset;
        provisioner = pr;
      } in
      record p {
        provisioning_steps = insert ps.id ps p.provisioning_steps;
        steps_by_offset = p.steps_by_offset ++ ps ∷ [];
      }

  create_steps_from : ℕ → List Provisioner → ProvisionedHost → ProvisionedHost
  unfolding create_provisioning_step
  create_steps_from sid [] p = p
  create_steps_from sid (step ∷ provisioners) p =
      create_steps_from (suc sid) provisioners (create_provisioning_step step sid p)

  unfoldable pub create_provisioning_steps : ProvisionedHost → ProvisionedHost
  unfolding create_steps_from
  create_provisioning_steps p = create_steps_from 0 p.host.provisioners p

  -- The provisioned host before it has steps. Its network's map holds a pointer, so that steps which
  -- are created later are seen there.
  unfoldable pub create_provisioned_host : FilePath → Host → ProvisionedHost
  unfolding set_host_id create_connection
  create_provisioned_host network host =
      let id = set_host_id no_id network host.path in
      record {
        id = id;
        host_id = host.path;
        host = host;
        conn = create_connection id;
        provisioning_steps = [];
        steps_by_offset = [];
      }

  create_hosts : List Host → ProvisionedNetwork → ProvisionedNetwork
  unfolding create_provisioned_host create_provisioning_steps
  create_hosts [] p = p
  create_hosts (h ∷ hosts) p =
      let ph = create_provisioning_steps (create_provisioned_host p.id h) in
      create_hosts hosts (record p { provisioned_hosts = insert ph.id ph p.provisioned_hosts })

  unfoldable pub create_provisioned_hosts : Environment → ProvisionedNetwork → ProvisionedNetwork
  unfolding create_hosts hosts_of
  create_provisioned_hosts env p = create_hosts (hosts_of env p.network.path) p

  unfoldable pub create_provisioned_network : FilePath → Network → ProvisionedNetwork
  unfolding set_network_id
  create_provisioned_network team net = record {
    id = set_network_id no_id team net.path;
    network_id = net.path;
    name = net.name;
    cidr = net.cidr;
    network = net;
    provisioned_hosts = [];
  }

  create_networks : Environment → List (FilePath × Network) → Team → Team
  unfolding create_provisioned_network create_provisioned_hosts
  create_networks env [] t = t
  create_networks env ((name, n) ∷ networks) t =
      let pn = create_provisioned_hosts env (create_provisioned_network t.id n) in
      create_networks env networks
        (record t { provisioned_networks = insert pn.id pn t.provisioned_networks })

  unfoldable pub create_provision_resources : Environment → Team → Team
  unfolding create_networks
  create_provision_resources env t = create_networks env env.included_networks t

  unfoldable pub create_team : FilePath → ℕ → Team
  unfolding set_team_id
  create_team build tid = record {
    id = set_team_id decimal no_id build tid;
    team_number = tid;
    provisioned_networks = [];
  }

  -- for i := …; i < TeamCount, with as many rounds as the first number says
  pub create_teams_from : ℕ → ℕ → Build → Build
  unfolding create_team create_provision_resources
  create_teams_from zero i b = b
  create_teams_from (suc rounds) i b =
      let t = create_provision_resources b.environment (create_team b.id i) in
      create_teams_from rounds (suc i) (record b { teams = insert t.id t b.teams })

  -- `none` is the error that the build already has teams.
  unfoldable pub create_teams : Build → Option Build
  unfolding create_teams_from
  create_teams b = elim b.teams [ [] ↦ some (create_teams_from b.team_count 0 b) | t ∷ ts ↦ none ]

-- `LocateProvisionedHost`: the first match in the order of the maps.
locate_host : FilePath → List (FilePath × ProvisionedHost) → Option ProvisionedHost
locate_host hostid [] = none
locate_host hostid ((id, h) ∷ hosts) =
    if path_same h.host.path hostid then some h else locate_host hostid hosts

or_next : Option ProvisionedHost → Option ProvisionedHost → Option ProvisionedHost
or_next none next = next
or_next (some h) next = some h

locate_in : FilePath → FilePath → List (FilePath × ProvisionedNetwork) → Option ProvisionedHost
unfolding locate_host or_next
locate_in netid hostid [] = none
locate_in netid hostid ((id, x) ∷ networks) =
    let rest = locate_in netid hostid networks in
    if path_same x.network.path netid
    then or_next (locate_host hostid x.provisioned_hosts) rest
    else rest

unfoldable pub locate_provisioned_host : Team → FilePath → FilePath → Option ProvisionedHost
unfolding locate_in
locate_provisioned_host t netid hostid = locate_in netid hostid t.provisioned_networks
