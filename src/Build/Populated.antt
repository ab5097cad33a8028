-- ===== src/Build/Populated.antt =====
-- The teams of a fresh build, and the hosts that are found in them.
use laforge.Base.{
  ℕ, String, true, some, List, [], ◌∷◌, ◌≡◌, refl, ap, ◌∙◌, subst, arith, In, Bool-cases, inl, inr,
}
use laforge.Base.Eq.{path_eq, path_same, path_same_iff}
use laforge.Base.Any.{any}
use laforge.Base.Assoc.{same_refl}
use laforge.Base.Fill.{entries, Distinct, fill-empty}
use laforge.Metadata.GoPath.{FilePath}
use laforge.Metadata.Ids.{set_network_id, set_host_id, no_id}
use laforge.Build.{
  Host, Network, Environment, Build, hosts_of, create_provision_resources, create_team,
  create_teams, locate_host, locate_in, or_next, locate_provisioned_host, create_provisioned_host,
  create_provisioned_network,
}
use laforge.Build.Stored.{
  host_key, host_of, network_key, network_of, team_key, team_of, upto, create_teams_from-eq,
  create_team-eq,
}

module _ (decimal : ℕ → String) (step_name : ℕ → String → String) where
  -- A build without teams gets one team for each number below its team count, in order, where the IDs
  -- of the teams differ. Each has the networks that `team_of` makes of those that the environment
  -- includes, and their hosts; of two networks or hosts with one ID the later one stays.
  pub create_teams-teams :
      (b : Build)
      → Distinct (team_key decimal step_name b.id) (upto b.team_count 0)
      → create_teams decimal step_name (record b { teams = [] })
        ≡ some (record b {
          teams =
              entries
                (team_key decimal step_name b.id)
                (team_of decimal step_name b.environment b.id)
                (upto b.team_count 0);
        })
  unfolding create_teams
  create_teams-teams b d = ap some (
      create_teams_from-eq decimal step_name b.team_count 0 (record b { teams = [] })
      ∙ ap (λ m. record b { teams = m })
          (fill-empty (team_key decimal step_name b.id)
            (team_of decimal step_name b.environment b.id) (upto b.team_count 0) d))

  -- An element with a key of the list is not apart from all of its elements.
  clash :
      {A : Type 0} (key : A → FilePath) (x y : A) (xs : List A)
      → In y xs
      → key x ≡ key y
      → any (λ z. path_same (key x) (key z)) xs ≡ true
  unfolding any
  clash key x y (z ∷ zs) (inl e) k = ground (arith, path_same_iff (key x) (key z), ap key e, k)
  clash key x y (z ∷ zs) (inr h) k = ground (arith, clash key x y zs h k)
  clash key x y [] h k = elim h [ ]

  locate_host-entries :
      (network : FilePath) (h : Host) (hosts : List Host)
      → In h hosts
      → Distinct (host_key decimal step_name network) hosts
      → locate_host h.path
          (entries (host_key decimal step_name network) (host_of decimal step_name network) hosts)
        ≡ some (host_of decimal step_name network h)
  unfolding locate_host create_provisioned_host
  locate_host-entries network h (x ∷ xs) (inl e) d =
      subst
        (λ y.
          locate_host h.path (
            entries (host_key decimal step_name network) (host_of decimal step_name network)
              (y ∷ xs))
          ≡ some (host_of decimal step_name network h))
        e (rw (same_refl h.path) refl)
  locate_host-entries network h (x ∷ xs) (inr k) d = elim (Bool-cases (path_same x.path h.path)) [
    | inl c ↦
        let same_key =
          clash (host_key decimal step_name network) x h xs k
            (ap (set_host_id no_id network) ((path_same_iff x.path h.path).0 c)) in
        ground (arith, same_key, d.0)
    | inr c ↦ rw c (locate_host-entries network h xs k d.1)
  ]
  locate_host-entries network h [] k d = elim k [ ]

  locate_in-entries :
      (env : Environment) (team name : FilePath) (n : Network) (h : Host)
      (networks : List (FilePath × Network))
      → In (name, n) networks
      → Distinct (network_key decimal step_name team) networks
      → In h (hosts_of env n.path)
      → Distinct
          (host_key decimal step_name (set_network_id no_id team n.path))
          (hosts_of env n.path)
      → locate_in n.path h.path (
          entries
            (network_key decimal step_name team)
            (network_of decimal step_name env team)
            networks)
        ≡ some (host_of decimal step_name (set_network_id no_id team n.path) h)
  unfolding locate_in or_next create_provisioned_network
  locate_in-entries env team name n h (x ∷ xs) (inl e) d i dh =
      subst
        (λ y.
          locate_in n.path h.path (
            entries (network_key decimal step_name team) (network_of decimal step_name env team)
              (y ∷ xs))
          ≡ some (host_of decimal step_name (set_network_id no_id team n.path) h))
        e
        (rw
          (
            same_refl n.path,
            fill-empty (host_key decimal step_name (set_network_id no_id team n.path))
                (host_of decimal step_name (set_network_id no_id team n.path)) (hosts_of env n.path)
                dh,
            locate_host-entries (set_network_id no_id team n.path) h (hosts_of env n.path) i dh,
          )
          refl)
  locate_in-entries env team name n h ((other, x) ∷ xs) (inr k) d i dh =
      elim (Bool-cases (path_same x.path n.path)) [
        | inl c ↦
            let same_key =
              clash (network_key decimal step_name team) (other, x) (name, n) xs k
                (ap (set_network_id no_id team) ((path_same_iff x.path n.path).0 c)) in
            ground (arith, same_key, d.0)
        | inr c ↦ rw c (locate_in-entries env team name n h xs k d.1 i dh)
      ]
  locate_in-entries env team name n h [] k d i dh = elim k [ ]

  -- In a team that has been populated, `LocateProvisionedHost` finds every host of every included network,
  -- with all its steps, where the IDs of the networks and of the network's hosts differ.
  pub locate-created :
      (env : Environment) (build name : FilePath) (number : ℕ) (n : Network) (h : Host)
      → In (name, n) env.included_networks
      → Distinct
          (network_key decimal step_name (team_key decimal step_name build number))
          env.included_networks
      → In h (hosts_of env n.path)
      → Distinct
          (host_key decimal step_name
            (set_network_id no_id (team_key decimal step_name build number) n.path))
          (hosts_of env n.path)
      → locate_provisioned_host
          (create_provision_resources decimal step_name env
            (create_team decimal step_name build number))
          n.path
          h.path
        ≡ some (
            host_of decimal step_name
              (set_network_id no_id (team_key decimal step_name build number) n.path)
              h)
  unfolding locate_provisioned_host
  locate-created env build name number n h i d j dh =
      rw
        (
          create_team-eq decimal step_name env build number,
          fill-empty (network_key decimal step_name (team_key decimal step_name build number))
              (network_of decimal step_name env (team_key decimal step_name build number))
              env.included_networks d,
        )
        (locate_in-entries env (team_key decimal step_name build number) name n h
          env.included_networks i d j dh)
