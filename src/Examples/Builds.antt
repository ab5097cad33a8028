-- ===== src/Examples/Builds.antt =====
-- A build with one team, a network, and two hosts of which the second depends on the first.
use laforge.Base.{
  ◌≤◌, arith, ◌↔◌, ℕ, String, none, some, List, [], ◌∷◌, ◌≡◌, refl, inl, inr, In, if◌then◌else◌,
  ◌==◌,
}
use laforge.Base.Eq.{path_same, path_eq}
use laforge.Base.Any.{any}
use laforge.Base.Assoc.{insert}
use laforge.Base.Fill.{Distinct, entries}
use laforge.Metadata.Ids.{no_id, set_team_id, set_network_id, set_host_id}
use laforge.Build.{
  ProvisionedHost, Provisioner, script, Host, Network, Environment, Build, create_teams,
  create_team, create_provision_resources, hosts_of, locate_provisioned_host,
}
use laforge.Build.Stored.{team_key, team_of, network_key, host_key, host_of, upto}
use laforge.Build.Populated.{create_teams-teams, locate-created}
use laforge.Snapshot.Load.{total, walker_weight, weight}
use laforge.Snapshot.Builder.{capacity, Walker, Run, Reach, here, start, done}
use laforge.Snapshot.Walk.{Dependency, walkers_of, walk_provisioned_host}
use laforge.Snapshot.Walk.Fresh.{fresh_can_end}
use laforge.Snapshot.Walk.Panics.{Sends, AllLocated, walk_created-Sends}
use laforge.Examples.Graphs.{list_graphs}

abbrev digit : ℕ → String
digit n = if n == 0 then "0" else "1"

abbrev step_name : ℕ → String → String
step_name n name = if n == 0 then "0-setup" else "1-setup"

abbrev setup : Provisioner
setup = record { kind = script; path = "" ∷ "scripts" ∷ "setup" ∷ [] }

abbrev web : Host
web = record {
  path = "" ∷ "hosts" ∷ "web" ∷ [];
  provisioners = setup ∷ setup ∷ [];
  dependencies = [];
  scripts = (setup.path, setup) ∷ [];
  dns_records = [];
  commands = [];
  remote_files = [];
}

abbrev lan : Network
lan = record { path = "" ∷ "networks" ∷ "lan" ∷ []; name = "lan"; cidr = "10.0.0.0/24" }

abbrev shop : Host
shop = record {
  path = "" ∷ "hosts" ∷ "shop" ∷ [];
  provisioners = [];
  dependencies = record { host_id = web.path; network_id = lan.path } ∷ [];
  scripts = [];
  dns_records = [];
  commands = [];
  remote_files = [];
}

abbrev dev : Environment
dev = record {
  path = "" ∷ "envs" ∷ "dev" ∷ [];
  included_networks = (lan.path, lan) ∷ [];
  host_by_network = (lan.path, web ∷ shop ∷ []) ∷ [];
}

abbrev tf : Build
tf = record { id = "" ∷ "envs" ∷ "dev" ∷ "tf" ∷ []; team_count = 2; environment = dev; teams = [] }

teams-Distinct : Distinct (team_key digit step_name tf.id) (upto tf.team_count 0)
unfolding any path_same set_team_id
teams-Distinct = (refl, (refl, tt))

create_teams-teams_example :
    create_teams digit step_name tf
    ≡ some (record tf {
      teams =
          entries
            (team_key digit step_name tf.id)
            (team_of digit step_name dev tf.id)
            (upto tf.team_count 0);
    })
create_teams-teams_example = create_teams-teams digit step_name tf teams-Distinct

networks-Distinct :
    Distinct (network_key digit step_name (team_key digit step_name tf.id 1)) dev.included_networks
unfolding any
networks-Distinct = (refl, tt)

shop-In : In shop (hosts_of dev lan.path)
unfolding hosts_of path_same
shop-In = inr (inl refl)

hosts-Distinct :
    Distinct
      (host_key digit step_name (set_network_id no_id (team_key digit step_name tf.id 1) lan.path))
      (hosts_of dev lan.path)
unfolding any hosts_of path_same set_host_id set_network_id set_team_id
hosts-Distinct = (refl, (refl, tt))

locate-created_example :
    locate_provisioned_host
      (create_provision_resources digit step_name dev (create_team digit step_name tf.id 1))
      lan.path
      shop.path
    ≡ some (
        host_of digit step_name
          (set_network_id no_id (team_key digit step_name tf.id 1) lan.path)
          shop)
locate-created_example =
    locate-created digit step_name dev tf.id lan.path 1 lan shop (inl refl) networks-Distinct
      shop-In hosts-Distinct

abbrev size_of : Dependency → ℕ
size_of dep = 7

abbrev created : Build
created = elim (create_teams digit step_name tf) [ none ↦ tf | some b ↦ b ]

abbrev walkers : List Walker
walkers = elim (walkers_of size_of dev created) [ none ↦ [] | some ws ↦ ws ]

created-some : create_teams digit step_name tf ≡ some created
unfolding create_teams
created-some = refl

walkers-some : walkers_of size_of created.environment created ≡ some walkers
unfolding create_teams walkers_of insert path_same
walkers-some = refl

few_messages : total walkers ≤ capacity
unfolding create_teams walkers_of insert path_same total walker_weight weight
few_messages = omega arith

fresh_can_end_example :
    (t : Run list_graphs) × Reach list_graphs (start list_graphs walkers) t × (t.phase ≡ done)
fresh_can_end_example =
    fresh_can_end size_of digit step_name list_graphs tf created walkers (start list_graphs walkers)
      created-some walkers-some few_messages here

abbrev shop_made : ProvisionedHost
shop_made =
    host_of digit step_name (set_network_id no_id (team_key digit step_name tf.id 1) lan.path) shop

walk_created-Sends_example :
    Sends (
      walk_provisioned_host size_of
        (create_provision_resources digit step_name dev (create_team digit step_name tf.id 1))
        shop_made)
    ↔ AllLocated
        (create_provision_resources digit step_name dev (create_team digit step_name tf.id 1))
        shop_made.host.dependencies
walk_created-Sends_example = walk_created-Sends size_of digit step_name dev tf.id 1 shop_made
