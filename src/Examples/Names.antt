-- ===== src/Examples/Names.antt =====
-- The IDs of one chain of objects, and checksums.
use mathlib.Core.List.{Permᴰ}
use laforge.Base.{◌↔◌, ℕ, ◌+◌, String, true, ◌≡◌, refl, List, [], ◌∷◌, str_eq}
use laforge.Base.Sort.{maximum}
use laforge.Checksum.{hash, overwrite, uvarint, buffer}
use laforge.Checksum.Hash.{hash-maximum, hash-perm}
use laforge.Metadata.GoPath.{FilePath, base}
use laforge.Metadata.{
  environment, build, team, provisioned_network, provisioned_host, connection, provisioning_step,
  type_by_path, team_id, failure, too_short, get_team_id_from_path,
}
use laforge.Metadata.Schema.{
  Chain, IsClean, AvoidsWords, env_path, build_path, team_path, network_path, host_path,
  connection_path, step_path, build_id, team_id_set, network_id, host_id, connection_id, step_id,
  ids_follow_schema,
}
use laforge.Metadata.Types.{schema_types, hosts_name_confuses}
use laforge.Metadata.Parents.{schema_parents, get_team_id_from_path_iff}

abbrev decimal : ℕ → String
decimal n = "0"

abbrev step_name : ℕ → String → String
step_name n s = "0-a"

abbrev chain : FilePath → Chain
chain host = record {
  env = "dev";
  builder = "tfgcp";
  number = 0;
  network = "" ∷ "networks" ∷ "lan" ∷ [];
  host = host;
  offset = 0;
  provisioner = "" ∷ "scripts" ∷ "a" ∷ [];
}

abbrev web : FilePath
web = "" ∷ "hosts" ∷ "web" ∷ []

-- A host that is named "hosts".
abbrev odd : FilePath
odd = "" ∷ "hosts" ∷ "hosts" ∷ []

web_IsClean : IsClean decimal step_name (chain web)
unfolding base
web_IsClean = record {
  env = record { not_empty = refl; not_dot = refl; not_dots = refl };
  builder = record { not_empty = refl; not_dot = refl; not_dots = refl };
  number = record { not_empty = refl; not_dot = refl; not_dots = refl };
  network = record { not_empty = refl; not_dot = refl; not_dots = refl };
  host = record { not_empty = refl; not_dot = refl; not_dots = refl };
  step = record { not_empty = refl; not_dot = refl; not_dots = refl };
}

odd_IsClean : IsClean decimal step_name (chain odd)
unfolding base
odd_IsClean = record {
  env = record { not_empty = refl; not_dot = refl; not_dots = refl };
  builder = record { not_empty = refl; not_dot = refl; not_dots = refl };
  number = record { not_empty = refl; not_dot = refl; not_dots = refl };
  network = record { not_empty = refl; not_dot = refl; not_dots = refl };
  host = record { not_empty = refl; not_dot = refl; not_dots = refl };
  step = record { not_empty = refl; not_dot = refl; not_dots = refl };
}

web_AvoidsWords : AvoidsWords decimal step_name (chain web)
unfolding base
web_AvoidsWords = record {
  env = refl;
  builder = refl;
  number = refl;
  network = refl;
  host = refl;
  host_teams = refl;
  host_networks = refl;
  host_hosts = refl;
}

ids_follow_schema_example :
    (build_id decimal step_name (chain web) ≡ build_path decimal step_name (chain web))
    × (team_id_set decimal step_name (chain web) ≡ team_path decimal step_name (chain web))
    × (network_id decimal step_name (chain web) ≡ network_path decimal step_name (chain web))
    × (host_id decimal step_name (chain web) ≡ host_path decimal step_name (chain web))
    × (connection_id decimal step_name (chain web) ≡ connection_path decimal step_name (chain web))
    × (step_id decimal step_name (chain web) ≡ step_path decimal step_name (chain web))
ids_follow_schema_example = ids_follow_schema decimal step_name (chain web) web_IsClean

schema_types_example :
    (type_by_path (env_path decimal step_name (chain web)) ≡ environment)
    × (type_by_path (build_path decimal step_name (chain web)) ≡ build)
    × (type_by_path (team_path decimal step_name (chain web)) ≡ team)
    × (type_by_path (network_path decimal step_name (chain web)) ≡ provisioned_network)
    × (type_by_path (host_path decimal step_name (chain web)) ≡ provisioned_host)
    × (type_by_path (connection_path decimal step_name (chain web)) ≡ connection)
    × (type_by_path (step_path decimal step_name (chain web)) ≡ provisioning_step)
schema_types_example = schema_types decimal step_name (chain web) web_IsClean web_AvoidsWords

odd_name : str_eq (base odd) "hosts" ≡ true
unfolding base
odd_name = refl

hosts_name_confuses_example :
    type_by_path (connection_path decimal step_name (chain odd)) ≡ provisioned_host
hosts_name_confuses_example = hosts_name_confuses decimal step_name (chain odd) odd_IsClean odd_name

schema_parents_example :
    (laforge.Metadata.Ids.build_parent_id (build_path decimal step_name (chain web))
      ≡ env_path decimal step_name (chain web))
    × (laforge.Metadata.Ids.team_parent_id (team_path decimal step_name (chain web))
        ≡ build_path decimal step_name (chain web))
    × (laforge.Metadata.Ids.network_parent_id (network_path decimal step_name (chain web))
        ≡ team_path decimal step_name (chain web))
    × (laforge.Metadata.Ids.host_parent_id (host_path decimal step_name (chain web))
        ≡ network_path decimal step_name (chain web))
    × (laforge.Metadata.Ids.connection_parent_id (connection_path decimal step_name (chain web))
        ≡ host_path decimal step_name (chain web))
    × (laforge.Metadata.Ids.step_parent_id (step_path decimal step_name (chain web))
        ≡ host_path decimal step_name (chain web))
schema_parents_example = schema_parents decimal step_name (chain web) web_IsClean

abbrev web_path : FilePath
web_path = host_path decimal step_name (chain web)

get_team_id_from_path_iff_example :
    (get_team_id_from_path web_path ≡ team_id (team_path decimal step_name (chain web))) ↔ (
      (a b c d : String) × (rest : FilePath) × (web_path ≡ "" ∷ "envs" ∷ a ∷ b ∷ c ∷ d ∷ rest)
      × (team_path decimal step_name (chain web) ≡ "" ∷ "envs" ∷ a ∷ b ∷ c ∷ d ∷ []))
get_team_id_from_path_iff_example =
    get_team_id_from_path_iff web_path (team_path decimal step_name (chain web))

abbrev sum64 : List ℕ → ℕ
sum64 [] = 0
sum64 (b ∷ bs) = b + sum64 bs

hash-maximum_example :
    hash sum64 (300 ∷ 7 ∷ [])
    ≡ sum64 (overwrite (uvarint (maximum (300 ∷ 7 ∷ []))) (buffer (300 ∷ 7 ∷ [])))
hash-maximum_example = hash-maximum sum64 (300 ∷ 7 ∷ [])

hash-perm_example : hash sum64 (300 ∷ 7 ∷ []) ≡ hash sum64 (7 ∷ 300 ∷ [])
hash-perm_example = hash-perm sum64 (300 ∷ 7 ∷ []) (7 ∷ 300 ∷ []) ∣ Permᴰ.swap refl refl ∣₁
