-- ===== src/Examples/Links.antt =====
-- Indexing a build with one team, one network, one host, its connection and one step.
use laforge.Base.{none, some, [], ◌∷◌, ◌≡◌, refl}
use laforge.Base.Eq.{path_same}
use laforge.Base.Assoc.{lookup, insert}
use laforge.Metadata.GoPath.{FilePath, dir}
use laforge.Metadata.Ids.{
  build_parent_id, team_parent_id, network_parent_id, host_parent_id, step_parent_id,
  connection_parent_id,
}
use laforge.Build.{script}
use laforge.Index.{
  Object, Links, Laforge, Indexed, indexed, missing, unknown_type, nil_map, index_dependencies,
  link_all, build_linking, team_linking, network_linking, host_linking, connection_linking,
  step_linking, index_build_dependencies, index_team_dependencies,
  index_provisioned_network_dependencies, index_provisioned_host_dependencies,
  index_connection_dependencies, index_provisioning_step_dependencies,
}
use laforge.Index.Chain.{IsKeyed, IsLinked, index_dependencies-IsLinked}

abbrev no_links : Links
no_links = record {
  competition = none;
  environment = none;
  build = none;
  team = none;
  provisioned_network = none;
  network = none;
  provisioned_host = none;
  host = none;
  provisioner = none;
}

abbrev read_back : FilePath → FilePath → Object
read_back id global_id = record {
  id = id;
  global_id = global_id;
  provisioner_type = some script;
  links = no_links;
  children = none;
  conn = none;
}

abbrev env_id : FilePath
env_id = "" ∷ "envs" ∷ "dev" ∷ []

abbrev build_id : FilePath
build_id = "" ∷ "envs" ∷ "dev" ∷ "tf" ∷ []

abbrev team_id : FilePath
team_id = "" ∷ "envs" ∷ "dev" ∷ "tf" ∷ "teams" ∷ "0" ∷ []

abbrev net_id : FilePath
net_id = "" ∷ "envs" ∷ "dev" ∷ "tf" ∷ "teams" ∷ "0" ∷ "networks" ∷ "lan" ∷ []

abbrev host_id : FilePath
host_id = "" ∷ "envs" ∷ "dev" ∷ "tf" ∷ "teams" ∷ "0" ∷ "networks" ∷ "lan" ∷ "hosts" ∷ "web" ∷ []

abbrev conn_id : FilePath
conn_id =
    "" ∷ "envs" ∷ "dev" ∷ "tf" ∷ "teams" ∷ "0" ∷ "networks" ∷ "lan" ∷ "hosts" ∷ "web" ∷ "conn" ∷ []

abbrev step_id : FilePath
step_id =
    "" ∷ "envs" ∷ "dev" ∷ "tf" ∷ "teams" ∷ "0" ∷ "networks" ∷ "lan" ∷ "hosts" ∷ "web" ∷ "steps"
    ∷ "0-setup" ∷ []

abbrev lan_id : FilePath
lan_id = "" ∷ "networks" ∷ "lan" ∷ []

abbrev web_id : FilePath
web_id = "" ∷ "hosts" ∷ "web" ∷ []

abbrev setup_id : FilePath
setup_id = "" ∷ "scripts" ∷ "setup" ∷ []

abbrev loaded : Laforge
loaded = record {
  networks = (lan_id, lan_id) ∷ [];
  hosts = (web_id, web_id) ∷ [];
  commands = [];
  dns_records = [];
  remote_files = [];
  scripts = (setup_id, setup_id) ∷ [];
  environments = (env_id, read_back env_id env_id) ∷ [];
  builds = (build_id, read_back build_id build_id) ∷ [];
  teams = (team_id, read_back team_id team_id) ∷ [];
  provisioned_networks = (net_id, read_back net_id lan_id) ∷ [];
  provisioned_hosts = (host_id, read_back host_id web_id) ∷ [];
  connections = (conn_id, read_back conn_id conn_id) ∷ [];
  provisioning_steps = (step_id, read_back step_id setup_id) ∷ [];
}

abbrev or_else : Laforge → Indexed Laforge → Laforge
or_else l (indexed l') = l'
or_else l (missing id) = l
or_else l unknown_type = l
or_else l nil_map = l

abbrev linked : Laforge
linked = or_else loaded (index_dependencies loaded)

loaded-IsKeyed : IsKeyed loaded
loaded-IsKeyed = record {
  builds = (refl, tt);
  teams = (refl, tt);
  networks = (refl, tt);
  hosts = (refl, tt);
  connections = (refl, tt);
  steps = (refl, tt);
}

loaded-linked : index_dependencies loaded ≡ indexed linked
unfolding index_dependencies index_build_dependencies index_team_dependencies
    index_provisioned_network_dependencies index_provisioned_host_dependencies
    index_connection_dependencies index_provisioning_step_dependencies link_all build_linking
    team_linking network_linking host_linking connection_linking step_linking lookup insert
    path_same build_parent_id team_parent_id network_parent_id host_parent_id step_parent_id
    connection_parent_id dir
loaded-linked = refl

index_dependencies-IsLinked_example : IsLinked linked
index_dependencies-IsLinked_example =
    index_dependencies-IsLinked loaded linked loaded-IsKeyed loaded-linked
