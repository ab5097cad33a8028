-- ===== src/Index/Chain.antt =====
-- The six loops in their order: `IndexBuildDependencies` to `IndexProvisioningStepDependencies` of
-- core/base.go.
use laforge.Base.{Option, none, some, ◌≡◌, subst}
use laforge.Base.Eq.{path_eq}
use laforge.Base.Assoc.{lookup}
use laforge.Metadata.GoPath.{FilePath}
use laforge.Metadata.Ids.{step_parent_id, connection_parent_id}
use laforge.Index.{
  Object, Laforge, Indexed, ◌>>=◌, indexed, missing, unknown_type, nil_map, link_all, build_linking,
  team_linking, network_linking, host_linking, connection_linking, step_linking,
  index_build_dependencies, index_team_dependencies, index_provisioned_network_dependencies,
  index_provisioned_host_dependencies, index_connection_dependencies,
  index_provisioning_step_dependencies, index_dependencies,
}
use laforge.Index.Loop.{At, Everywhere, link_all_sound, >>=-eq-indexed}
use laforge.Index.Linked.{
  BuildLinks, TeamLinks, NetworkLinks, HostLinks, OfHostLinks, Keyed, build_linking-IsSound,
  team_linking-IsSound, network_linking-IsSound, host_linking-IsSound, connection_linking-IsSound,
  step_linking-IsSound,
}

-- The keys of all maps are the IDs of their objects.
pub record IsKeyed (l : Laforge) : Type 0 where
  pub builds : Keyed l.builds
  pub teams : Keyed l.teams
  pub networks : Keyed l.provisioned_networks
  pub hosts : Keyed l.provisioned_hosts
  pub connections : Keyed l.connections
  pub steps : Keyed l.provisioning_steps

pub record IsLinked (l : Laforge) : Type 0 where
  pub builds : Everywhere (λ k b. BuildLinks k b.links) l.builds
  pub teams : Everywhere (λ k t. TeamLinks k t.links) l.teams
  pub networks : Everywhere (λ k n. NetworkLinks k n.links) l.provisioned_networks
  pub hosts : Everywhere (λ k h. HostLinks k h.links) l.provisioned_hosts
  pub connections : Everywhere (λ k c. OfHostLinks (connection_parent_id k) c.links) l.connections
  pub steps : Everywhere (λ k s. OfHostLinks (step_parent_id k) s.links) l.provisioning_steps

-- What is known before the loop over the teams, the networks, and so on.
abbrev BeforeSteps : Laforge → Type 0
BeforeSteps l =
    Everywhere (λ k b. BuildLinks k b.links) l.builds
    × Everywhere (λ k t. TeamLinks k t.links) l.teams
    × Everywhere (λ k n. NetworkLinks k n.links) l.provisioned_networks
    × Everywhere (λ k h. HostLinks k h.links) l.provisioned_hosts
    × Everywhere (λ k c. OfHostLinks (connection_parent_id k) c.links) l.connections
    × Keyed l.provisioning_steps

abbrev BeforeConnections : Laforge → Type 0
BeforeConnections l =
    Everywhere (λ k b. BuildLinks k b.links) l.builds
    × Everywhere (λ k t. TeamLinks k t.links) l.teams
    × Everywhere (λ k n. NetworkLinks k n.links) l.provisioned_networks
    × Everywhere (λ k h. HostLinks k h.links) l.provisioned_hosts
    × Keyed l.connections
    × Keyed l.provisioning_steps

abbrev BeforeHosts : Laforge → Type 0
BeforeHosts l =
    Everywhere (λ k b. BuildLinks k b.links) l.builds
    × Everywhere (λ k t. TeamLinks k t.links) l.teams
    × Everywhere (λ k n. NetworkLinks k n.links) l.provisioned_networks
    × Keyed l.provisioned_hosts
    × Keyed l.connections
    × Keyed l.provisioning_steps

abbrev BeforeNetworks : Laforge → Type 0
BeforeNetworks l =
    Everywhere (λ k b. BuildLinks k b.links) l.builds
    × Everywhere (λ k t. TeamLinks k t.links) l.teams
    × Keyed l.provisioned_networks
    × Keyed l.provisioned_hosts
    × Keyed l.connections
    × Keyed l.provisioning_steps

abbrev BeforeTeams : Laforge → Type 0
BeforeTeams l =
    Everywhere (λ k b. BuildLinks k b.links) l.builds
    × Keyed l.teams
    × Keyed l.provisioned_networks
    × Keyed l.provisioned_hosts
    × Keyed l.connections
    × Keyed l.provisioning_steps

-- A predicate on the result, if there is one.
abbrev GivesLaforge : (Laforge → Type 0) → Indexed Laforge → Type 0
GivesLaforge P (indexed l) = P l
GivesLaforge P (missing id) = Unit
GivesLaforge P unknown_type = Unit
GivesLaforge P nil_map = Unit

any_environment : (k : FilePath) (o : Option Object) → At (λ i e. Unit) k o
any_environment k none = tt
any_environment k (some x) = tt

builds_indexed :
    (l l' : Laforge) → IsKeyed l → index_build_dependencies l ≡ indexed l' → BeforeTeams l'
unfolding index_build_dependencies
builds_indexed l l' k e =
    let (w, e1, e2) = >>=-eq-indexed (link_all build_linking l.builds l.environments) _ e in
    let (builds, envs) =
      link_all_sound build_linking _ _ build_linking-IsSound l.builds l.environments w k.builds
        (λ i. any_environment i (lookup i l.environments)) e1 in
    subst (GivesLaforge BeforeTeams) e2
      (builds, k.teams, k.networks, k.hosts, k.connections, k.steps)

teams_indexed :
    (l l' : Laforge) → BeforeTeams l → index_team_dependencies l ≡ indexed l' → BeforeNetworks l'
unfolding index_team_dependencies
teams_indexed l l' k e =
    let (w, e1, e2) = >>=-eq-indexed (link_all team_linking l.teams l.builds) _ e in
    let (teams, builds) =
      link_all_sound team_linking _ _ team_linking-IsSound l.teams l.builds w k.1 k.0 e1 in
    subst (GivesLaforge BeforeNetworks) e2 (builds, teams, k.2, k.3, k.4, k.5)

networks_indexed :
    (l l' : Laforge)
    → BeforeNetworks l
    → index_provisioned_network_dependencies l ≡ indexed l'
    → BeforeHosts l'
unfolding index_provisioned_network_dependencies
networks_indexed l l' k e =
    let (w, e1, e2) =
      >>=-eq-indexed (link_all (network_linking l.networks) l.provisioned_networks l.teams) _ e in
    let (networks, teams) =
      link_all_sound (network_linking l.networks) _ _ (network_linking-IsSound l.networks)
        l.provisioned_networks l.teams w k.2 k.1 e1 in
    subst (GivesLaforge BeforeHosts) e2 (k.0, teams, networks, k.3, k.4, k.5)

hosts_indexed :
    (l l' : Laforge)
    → BeforeHosts l
    → index_provisioned_host_dependencies l ≡ indexed l'
    → BeforeConnections l'
unfolding index_provisioned_host_dependencies
hosts_indexed l l' k e =
    let (w, e1, e2) =
      >>=-eq-indexed (link_all (host_linking l.hosts) l.provisioned_hosts l.provisioned_networks) _
        e in
    let (hosts, networks) =
      link_all_sound (host_linking l.hosts) _ _ (host_linking-IsSound l.hosts) l.provisioned_hosts
        l.provisioned_networks w k.3 k.2 e1 in
    subst (GivesLaforge BeforeConnections) e2 (k.0, k.1, networks, hosts, k.4, k.5)

connections_indexed :
    (l l' : Laforge)
    → BeforeConnections l
    → index_connection_dependencies l ≡ indexed l'
    → BeforeSteps l'
unfolding index_connection_dependencies
connections_indexed l l' k e =
    let (w, e1, e2) =
      >>=-eq-indexed (link_all connection_linking l.connections l.provisioned_hosts) _ e in
    let (connections, hosts) =
      link_all_sound connection_linking _ _ connection_linking-IsSound l.connections
        l.provisioned_hosts w k.4 k.3 e1 in
    subst (GivesLaforge BeforeSteps) e2 (k.0, k.1, k.2, hosts, connections, k.5)

steps_indexed :
    (l l' : Laforge)
    → BeforeSteps l
    → index_provisioning_step_dependencies l ≡ indexed l'
    → IsLinked l'
unfolding index_provisioning_step_dependencies
steps_indexed l l' k e =
    let (w, e1, e2) =
      >>=-eq-indexed (link_all (step_linking l) l.provisioning_steps l.provisioned_hosts) _ e in
    let (steps, hosts) =
      link_all_sound (step_linking l) _ _ (step_linking-IsSound l) l.provisioning_steps
        l.provisioned_hosts w k.5 k.3 e1 in
    subst (GivesLaforge IsLinked) e2 (record {
      builds = k.0;
      teams = k.1;
      networks = k.2;
      hosts = hosts;
      connections = k.4;
      steps = steps;
    })

-- When the indexing of a configuration whose maps are keyed by the IDs has no error, every build,
-- team, provisioned network, provisioned host, connection and step points to exactly the objects
-- whose IDs are the ancestors of its own.
pub index_dependencies-IsLinked :
    (l l' : Laforge) → IsKeyed l → index_dependencies l ≡ indexed l' → IsLinked l'
unfolding index_dependencies
index_dependencies-IsLinked l l' k e =
    let (l5, e5, e6) =
      >>=-eq-indexed
        (index_build_dependencies l
          >>= index_team_dependencies
          >>= index_provisioned_network_dependencies
          >>= index_provisioned_host_dependencies
          >>= index_connection_dependencies)
        _ e in
    let (l4, e4, f5) =
      >>=-eq-indexed
        (index_build_dependencies l
          >>= index_team_dependencies
          >>= index_provisioned_network_dependencies
          >>= index_provisioned_host_dependencies)
        _ e5 in
    let (l3, e3, f4) =
      >>=-eq-indexed
        (index_build_dependencies l
          >>= index_team_dependencies
          >>= index_provisioned_network_dependencies)
        _ e4 in
    let (l2, e2, f3) =
      >>=-eq-indexed (index_build_dependencies l >>= index_team_dependencies) _ e3 in
    let (l1, e1, f2) = >>=-eq-indexed (index_build_dependencies l) _ e2 in
    steps_indexed l5 l'
      (connections_indexed l4 l5
        (hosts_indexed l3 l4
          (networks_indexed l2 l3 (teams_indexed l1 l2 (builds_indexed l l1 k e1) f2) f3) f4)
        f5)
      e6
