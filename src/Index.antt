-- ===== src/Index.antt =====
-- core/base.go: how the objects of a build that have been read back are linked to the objects above
-- them, `IndexBuildDependencies` to `IndexProvisioningStepDependencies`. A pointer is the key of the
-- map that the object is found in, nil is `none`. The directories of the objects are left out.
pub mod Loop
pub mod Linked
pub mod Chain
use laforge.Base.{Bool, true, false, Option, none, some, List, [], ◌∷◌, ◌≡◌, refl}
use laforge.Base.Eq.{path_eq}
use laforge.Base.Assoc.{lookup, insert}
use laforge.Metadata.GoPath.{FilePath}
use laforge.Metadata.Ids.{
  build_parent_id, team_parent_id, network_parent_id, host_parent_id, step_parent_id,
  connection_parent_id,
}
use laforge.Build.{Kind, command, dns_record, remote_file, script}

-- The fields of an object that point to others; each type has those that it is given below.
pub record Links : Type 0 where
  pub competition : Option FilePath
  pub environment : Option FilePath
  pub build : Option FilePath
  pub team : Option FilePath
  pub provisioned_network : Option FilePath
  pub network : Option FilePath
  pub provisioned_host : Option FilePath
  pub host : Option FilePath
  pub provisioner : Option FilePath

-- An object of a build: `global_id` is its NetworkID, HostID or ProvisionerID, `provisioner_type` is
-- none for a text that names no type of provisioner, `children` is its map Teams,
-- ProvisionedNetworks, ProvisionedHosts or ProvisioningSteps, and `conn` the connection of a host.
pub record Object : Type 0 where
  pub id : FilePath
  pub global_id : FilePath
  pub provisioner_type : Option Kind
  pub links : Links
  pub children : Option (List (FilePath × FilePath))
  pub conn : Option FilePath

abbrev pub Objects : Type 0
Objects = List (FilePath × Object)

pub record Laforge : Type 0 where
  pub networks : List (FilePath × FilePath)
  pub hosts : List (FilePath × FilePath)
  pub commands : List (FilePath × FilePath)
  pub dns_records : List (FilePath × FilePath)
  pub remote_files : List (FilePath × FilePath)
  pub scripts : List (FilePath × FilePath)
  pub environments : Objects
  pub builds : Objects
  pub teams : Objects
  pub provisioned_networks : Objects
  pub provisioned_hosts : Objects
  pub connections : Objects
  pub provisioning_steps : Objects

-- An error names the ID that could not be located; an assignment to a nil map panics.
pub data Indexed {ℓ} (X : Type ℓ) : Type ℓ where
  missing : FilePath → Indexed X
  unknown_type : Indexed X
  nil_map : Indexed X
  indexed : X → Indexed X

infixl 5 ◌>>=◌
abbrev pub ◌>>=◌ {ℓ κ} : {X : Type ℓ} {Y : Type κ} → Indexed X → (X → Indexed Y) → Indexed Y
missing id >>= f = missing id
unknown_type >>= f = unknown_type
nil_map >>= f = nil_map
indexed x >>= f = f x

abbrev pub located : {A : Type 0} → FilePath → Option A → Indexed A
located id none = missing id
located id (some a) = indexed a

-- if m == nil { m = map[…]…{} }
make_map : Object → Object
make_map x = record x { children = elim x.children [ none ↦ some [] | some m ↦ some m ] }

-- m[k] = v, where v is the pointer to the object of the key
store_in : FilePath → FilePath → Object → Option (List (FilePath × FilePath)) → Indexed Object
store_in id child p none = nil_map
store_in id child p (some m) = indexed (record p { children = some (insert id child m) })

store_child : FilePath → FilePath → Object → Indexed Object
unfolding store_in
store_child id child p = store_in id child p p.children

-- What one of the loops does: where the parent is looked up, what the parent stores of the object,
-- and what the object takes over from its parent.
pub record Linking : Type 0 where
  pub parent_id : Object → FilePath
  pub adopt : FilePath → Object → Object → Indexed Object
  pub attach : FilePath → Links → Object → Indexed Object

-- One round of a loop, for an object with its key.
link_one : Linking → FilePath → Object → Objects × Objects → Indexed (Objects × Objects)
unfolding lookup insert
link_one linking key x (xs, parents) =
    located (linking.parent_id x) (lookup (linking.parent_id x) parents) >>= λ p.
    linking.adopt key x p >>= λ p'. linking.attach (linking.parent_id x) p'.links x >>= λ x'.
    indexed (insert key x' xs, insert (linking.parent_id x) p' parents)

link_loop : Linking → Objects → Objects × Objects → Indexed (Objects × Objects)
unfolding link_one
link_loop linking [] w = indexed w
link_loop linking ((key, x) ∷ rest) w = link_one linking key x w >>= λ w'. link_loop linking rest w'

-- The objects and their parents after the loop over the objects.
unfoldable pub link_all : Linking → Objects → Objects → Indexed (Objects × Objects)
unfolding link_loop
link_all linking xs parents = link_loop linking xs (xs, parents)

unfoldable pub build_linking : Linking
unfolding make_map build_parent_id
build_linking = record {
  parent_id = λ b. build_parent_id b.id;
  adopt = λ key b env. indexed env;
  attach = λ env l b. indexed (
      make_map (record b {
        links = record b.links { environment = some env; competition = l.competition };
      }));
}

unfoldable pub team_linking : Linking
unfolding make_map team_parent_id
team_linking = record {
  parent_id = λ t. team_parent_id t.id;
  adopt = λ key t build. indexed build;
  attach = λ build l t. indexed (
      make_map (record t {
        links = record t.links {
          build = some build;
          environment = l.environment;
          competition = l.competition;
        };
      }));
}

unfoldable pub network_linking : List (FilePath × FilePath) → Linking
unfolding make_map store_child network_parent_id lookup
network_linking networks = record {
  parent_id = λ n. network_parent_id n.id;
  adopt = λ key n team. store_child n.id key team;
  attach = λ team l n. located n.global_id (lookup n.global_id networks) >>= λ network. indexed (
      make_map (record n {
        links = record n.links {
          team = some team;
          build = l.build;
          environment = l.environment;
          competition = l.competition;
          network = some network;
        };
      }));
}

unfoldable pub host_linking : List (FilePath × FilePath) → Linking
unfolding make_map store_child host_parent_id lookup
host_linking hosts = record {
  parent_id = λ h. host_parent_id h.id;
  adopt = λ key h net. store_child h.id key net;
  attach = λ net l h. located h.global_id (lookup h.global_id hosts) >>= λ host. indexed (
      make_map (record h {
        links = record h.links {
          provisioned_network = some net;
          team = l.team;
          build = l.build;
          environment = l.environment;
          competition = l.competition;
          network = l.network;
          host = some host;
        };
      }));
}

-- What connections and steps take over from their host.
of_host : FilePath → Links → Object → Object
of_host ph l x = record x {
  links = record x.links {
    provisioned_host = some ph;
    provisioned_network = l.provisioned_network;
    team = l.team;
    build = l.build;
    environment = l.environment;
    competition = l.competition;
    host = l.host;
    network = l.network;
  };
}

unfoldable pub connection_linking : Linking
unfolding of_host connection_parent_id
connection_linking = record {
  parent_id = λ c. connection_parent_id c.id;
  adopt = λ key c ph. indexed (record ph { conn = some key });
  attach = λ ph l c. indexed (of_host ph l c);
}

provisioners_of : Laforge → Kind → List (FilePath × FilePath)
provisioners_of l command = l.commands
provisioners_of l dns_record = l.dns_records
provisioners_of l remote_file = l.remote_files
provisioners_of l script = l.scripts

find_provisioner : Laforge → FilePath → Option Kind → Indexed FilePath
unfolding provisioners_of lookup
find_provisioner l id none = unknown_type
find_provisioner l id (some kind) = located id (lookup id (provisioners_of l kind))

unfoldable pub step_linking : Laforge → Linking
unfolding of_host store_child find_provisioner step_parent_id
step_linking l = record {
  parent_id = λ ps. step_parent_id ps.id;
  adopt = λ key ps ph. store_child ps.id key ph;
  attach = λ ph links ps. find_provisioner l ps.global_id ps.provisioner_type >>= λ prov.
      indexed (record (of_host ph links ps) {
        links = record (of_host ph links ps).links { provisioner = some prov };
      });
}

unfoldable pub index_build_dependencies : Laforge → Indexed Laforge
index_build_dependencies l = link_all build_linking l.builds l.environments >>= λ w.
    indexed (record l { builds = w.0; environments = w.1 })

unfoldable pub index_team_dependencies : Laforge → Indexed Laforge
index_team_dependencies l =
    link_all team_linking l.teams l.builds >>= λ w. indexed (record l { teams = w.0; builds = w.1 })

unfoldable pub index_provisioned_network_dependencies : Laforge → Indexed Laforge
index_provisioned_network_dependencies l =
    link_all (network_linking l.networks) l.provisioned_networks l.teams >>= λ w.
    indexed (record l { provisioned_networks = w.0; teams = w.1 })

unfoldable pub index_provisioned_host_dependencies : Laforge → Indexed Laforge
index_provisioned_host_dependencies l =
    link_all (host_linking l.hosts) l.provisioned_hosts l.provisioned_networks >>= λ w.
    indexed (record l { provisioned_hosts = w.0; provisioned_networks = w.1 })

unfoldable pub index_connection_dependencies : Laforge → Indexed Laforge
index_connection_dependencies l =
    link_all connection_linking l.connections l.provisioned_hosts >>= λ w.
    indexed (record l { connections = w.0; provisioned_hosts = w.1 })

unfoldable pub index_provisioning_step_dependencies : Laforge → Indexed Laforge
index_provisioning_step_dependencies l =
    link_all (step_linking l) l.provisioning_steps l.provisioned_hosts >>= λ w.
    indexed (record l { provisioning_steps = w.0; provisioned_hosts = w.1 })

-- The order in which `InitializeTeamContext` and `InitializeBuildContext` call them.
unfoldable pub index_dependencies : Laforge → Indexed Laforge
index_dependencies l =
    index_build_dependencies l
    >>= index_team_dependencies
    >>= index_provisioned_network_dependencies
    >>= index_provisioned_host_dependencies
    >>= index_connection_dependencies
    >>= index_provisioning_step_dependencies
