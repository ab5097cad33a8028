-- ===== src/Metadata/Schema.antt =====
-- The IDs that core gives to the objects of a build, against the schema of ID_SCHEMA.md and the
-- types that `TypeByPath` reads off them.
use laforge.Base.{ℕ, String, false, ◌≡◌, refl, [], ◌∷◌, ◌++◌, str_eq}
use laforge.Metadata.GoPath.{FilePath, base}
use laforge.Metadata.GoPath.Clean.{IsElement, AreElements, join-AreElements, AreElements-append}
use laforge.Metadata.Ids.{
  no_id, set_build_id, set_team_id, set_network_id, set_host_id, set_connection_id, set_step_id,
}

-- The names that one chain of objects is built from: an environment, its builder, a team's number,
-- a network and a host of the global configuration, and a provisioning step.
pub record Chain : Type 0 where
  pub env : String
  pub builder : String
  pub number : ℕ
  pub network : FilePath
  pub host : FilePath
  pub offset : ℕ
  pub provisioner : FilePath

module _ (decimal : ℕ → String) (step_name : ℕ → String → String) (c : Chain) where
  -- Each name is an element of a clean path.
  pub record IsClean : Type 0 where
    pub env : IsElement c.env
    pub builder : IsElement c.builder
    pub number : IsElement (decimal c.number)
    pub network : IsElement (base c.network)
    pub host : IsElement (base c.host)
    pub step : IsElement (step_name c.offset (base c.provisioner))

  -- No name is one of the words that the types are read off.
  pub record AvoidsWords : Type 0 where
    pub env : str_eq c.env "envs" ≡ false
    pub builder : str_eq c.builder "envs" ≡ false
    pub number : str_eq (decimal c.number) "envs" ≡ false
    pub network : str_eq (base c.network) "envs" ≡ false
    pub host : str_eq (base c.host) "envs" ≡ false
    pub host_teams : str_eq (base c.host) "teams" ≡ false
    pub host_networks : str_eq (base c.host) "networks" ≡ false
    pub host_hosts : str_eq (base c.host) "hosts" ≡ false

  -- The paths of ID_SCHEMA.md.
  abbrev pub env_path : FilePath
  env_path = "" ∷ "envs" ∷ c.env ∷ []

  abbrev pub build_path : FilePath
  build_path = env_path ++ c.builder ∷ []

  abbrev pub team_path : FilePath
  team_path = build_path ++ "teams" ∷ decimal c.number ∷ []

  abbrev pub network_path : FilePath
  network_path = team_path ++ "networks" ∷ base c.network ∷ []

  abbrev pub host_path : FilePath
  host_path = network_path ++ "hosts" ∷ base c.host ∷ []

  abbrev pub connection_path : FilePath
  connection_path = host_path ++ "conn" ∷ []

  abbrev pub step_path : FilePath
  step_path = host_path ++ "steps" ∷ step_name c.offset (base c.provisioner) ∷ []

  -- The IDs in the order in which core sets them, each from the one above it.
  abbrev pub build_id : FilePath
  build_id = set_build_id no_id env_path c.builder

  abbrev pub team_id_set : FilePath
  team_id_set = set_team_id decimal no_id build_id c.number

  abbrev pub network_id : FilePath
  network_id = set_network_id no_id team_id_set c.network

  abbrev pub host_id : FilePath
  host_id = set_host_id no_id network_id c.host

  abbrev pub connection_id : FilePath
  connection_id = set_connection_id no_id host_id

  abbrev pub step_id : FilePath
  step_id = set_step_id step_name no_id host_id c.offset c.provisioner

word :
    (s : String) → str_eq s "" ≡ false → str_eq s "." ≡ false → str_eq s ".." ≡ false → IsElement s
word s a b c = record { not_empty = a; not_dot = b; not_dots = c }

abbrev below_envs : FilePath → FilePath
below_envs (s ∷ p) = p
below_envs [] = []

module _ (decimal : ℕ → String) (step_name : ℕ → String → String) (c : Chain)
    (h : IsClean decimal step_name c) where
  teams_clean : AreElements ("teams" ∷ decimal c.number ∷ [])
  teams_clean = (word "teams" refl refl refl, (h.number, tt))

  networks_clean : AreElements ("networks" ∷ base c.network ∷ [])
  networks_clean = (word "networks" refl refl refl, (h.network, tt))

  hosts_clean : AreElements ("hosts" ∷ base c.host ∷ [])
  hosts_clean = (word "hosts" refl refl refl, (h.host, tt))

  abbrev env_elements : FilePath
  env_elements = "envs" ∷ c.env ∷ []

  abbrev build_elements : FilePath
  build_elements = env_elements ++ c.builder ∷ []

  abbrev team_elements : FilePath
  team_elements = build_elements ++ "teams" ∷ decimal c.number ∷ []

  abbrev network_elements : FilePath
  network_elements = team_elements ++ "networks" ∷ base c.network ∷ []

  abbrev host_elements : FilePath
  host_elements = network_elements ++ "hosts" ∷ base c.host ∷ []

  env_clean : AreElements env_elements
  env_clean = (word "envs" refl refl refl, (h.env, tt))

  build_clean : AreElements build_elements
  build_clean = AreElements-append env_elements (c.builder ∷ []) env_clean (h.builder, tt)

  team_clean : AreElements team_elements
  team_clean =
      AreElements-append build_elements ("teams" ∷ decimal c.number ∷ []) build_clean teams_clean

  network_clean : AreElements network_elements
  network_clean =
      AreElements-append team_elements ("networks" ∷ base c.network ∷ []) team_clean networks_clean

  host_clean : AreElements host_elements
  host_clean =
      AreElements-append network_elements ("hosts" ∷ base c.host ∷ []) network_clean hosts_clean

  pub build_id-eq : build_id decimal step_name c ≡ build_path decimal step_name c
  unfolding set_build_id
  build_id-eq = join-AreElements "envs" (c.env ∷ []) (c.builder ∷ []) env_clean (h.builder, tt)

  pub team_id-eq : team_id_set decimal step_name c ≡ team_path decimal step_name c
  unfolding set_team_id
  team_id-eq = rw build_id-eq (
      join-AreElements "envs" (c.env ∷ c.builder ∷ []) ("teams" ∷ decimal c.number ∷ []) build_clean
        teams_clean)

  pub network_id-eq : network_id decimal step_name c ≡ network_path decimal step_name c
  unfolding set_network_id
  network_id-eq = rw team_id-eq (
      join-AreElements "envs" (below_envs team_elements) ("networks" ∷ base c.network ∷ [])
        team_clean networks_clean)

  pub host_id-eq : host_id decimal step_name c ≡ host_path decimal step_name c
  unfolding set_host_id
  host_id-eq = rw network_id-eq (
      join-AreElements "envs" (below_envs network_elements) ("hosts" ∷ base c.host ∷ [])
        network_clean hosts_clean)

  -- The IDs that core sets, each from the one above it, are the paths of the schema.
  pub ids_follow_schema :
      (build_id decimal step_name c ≡ build_path decimal step_name c)
      × (team_id_set decimal step_name c ≡ team_path decimal step_name c)
      × (network_id decimal step_name c ≡ network_path decimal step_name c)
      × (host_id decimal step_name c ≡ host_path decimal step_name c)
      × (connection_id decimal step_name c ≡ connection_path decimal step_name c)
      × (step_id decimal step_name c ≡ step_path decimal step_name c)
  unfolding set_connection_id set_step_id
  ids_follow_schema = (
    build_id-eq,
    team_id-eq,
    network_id-eq,
    host_id-eq,
    rw host_id-eq (
        join-AreElements "envs" (below_envs host_elements) ("conn" ∷ []) host_clean
          (word "conn" refl refl refl, tt)),
    rw host_id-eq (
        join-AreElements "envs" (below_envs host_elements)
          ("steps" ∷ step_name c.offset (base c.provisioner) ∷ []) host_clean
          (word "steps" refl refl refl, (h.step, tt))),
  )
