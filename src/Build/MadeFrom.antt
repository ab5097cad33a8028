-- ===== src/Build/MadeFrom.antt =====
-- The networks and hosts of a created team are those of the environment.
use laforge.Base.{
  ℕ, String, Option, none, some, List, [], ◌∷◌, ◌≡◌, refl, sym, ap, ◌∙◌, subst, All, In, inl, inr,
  Bool-cases,
}
use laforge.Base.Eq.{Eq, path_eq}
use laforge.Base.Assoc.{insert}
use laforge.Base.Fill.{fill}
use laforge.Metadata.GoPath.{FilePath}
use laforge.Metadata.Ids.{set_network_id, no_id}
use laforge.Build.{
  ProvisionedNetwork, Network, Environment, Team, Build, hosts_of, create_teams,
  create_provisioned_host, create_provisioned_network,
}
use laforge.Build.Stored.{
  host_key, host_of, network_key, network_of, team_key, team_of, upto, create_teams_from-eq,
}
use laforge.Build.Located.{HoldsIn}

module _ {K V : Type 0} ⦃e : Eq K⦄ (P : V → Type 0) where
  All-insert :
      (k : K) (v : V) (m : List (K × V))
      → P v
      → All (λ x. P x.1) m
      → All (λ x. P x.1) (insert k v m)
  unfolding insert
  All-insert k v [] p a = (p, tt)
  All-insert k v ((j, w) ∷ m) p a = elim (Bool-cases (e.same j k)) [
    | inl c ↦ rw c (p, a.1)
    | inr c ↦ rw c (a.0, All-insert k v m p a.1)
  ]

  pub All-fill :
      {A : Type 0} (key : A → K) (value : A → V) (xs : List A) (m : List (K × V))
      → ((x : A) → In x xs → P (value x))
      → All (λ x. P x.1) m
      → All (λ x. P x.1) (fill key value xs m)
  unfolding fill
  All-fill key value [] m p a = a
  All-fill key value (x ∷ xs) m p a =
      All-fill key value xs (insert (key x) (value x) m) (λ y i. p y (inr i))
        (All-insert (key x) (value x) m (p x (inl refl)) a)

-- The network is one that the environment includes, and its hosts are those of the environment.
abbrev pub IsNetworkOf : Environment → ProvisionedNetwork → Type 0
IsNetworkOf env pn =
    ((name : FilePath) × In (name, pn.network) env.included_networks)
    × HoldsIn (λ ph. In ph.host (hosts_of env pn.network.path)) pn.provisioned_hosts

abbrev pub IsTeamOf : Environment → Team → Type 0
IsTeamOf env t = All (λ x. IsNetworkOf env x.1) t.provisioned_networks

abbrev AllTeams : Option Build → Type 0
AllTeams none = Unit
AllTeams (some b) = All (λ t. IsTeamOf b.environment t.1) b.teams

module _ (decimal : ℕ → String) (step_name : ℕ → String → String) where
  network_of-IsNetworkOf :
      (env : Environment) (team name : FilePath) (n : Network)
      → In (name, n) env.included_networks
      → IsNetworkOf env (network_of decimal step_name env team (name, n))
  unfolding create_provisioned_host create_provisioned_network
  network_of-IsNetworkOf env team name n i = (
    (name, i),
    All-fill (λ ph. In ph.host (hosts_of env n.path))
        (host_key decimal step_name (set_network_id no_id team n.path))
        (host_of decimal step_name (set_network_id no_id team n.path)) (hosts_of env n.path) []
        (λ h j. j) tt,
  )

  team_of-IsTeamOf :
      (env : Environment) (build : FilePath) (i : ℕ)
      → IsTeamOf env (team_of decimal step_name env build i)
  team_of-IsTeamOf env build i =
      All-fill (IsNetworkOf env)
        (network_key decimal step_name (team_key decimal step_name build i))
        (network_of decimal step_name env (team_key decimal step_name build i))
        env.included_networks []
        (λ x j. network_of-IsNetworkOf env (team_key decimal step_name build i) x.0 x.1 j) tt

  pub create_teams-IsTeamOf :
      (b : Build) (b' : Build)
      → create_teams decimal step_name (record b { teams = [] }) ≡ some b'
      → All (λ t. IsTeamOf b'.environment t.1) b'.teams
  unfolding create_teams
  create_teams-IsTeamOf b b' h =
      subst AllTeams
        (sym (
            ap some
              (create_teams_from-eq decimal step_name b.team_count 0 (record b { teams = [] })))
          ∙ h)
        (All-fill (IsTeamOf b.environment) (team_key decimal step_name b.id)
          (team_of decimal step_name b.environment b.id) (upto b.team_count 0) []
          (λ i j. team_of-IsTeamOf b.environment b.id i) tt)
