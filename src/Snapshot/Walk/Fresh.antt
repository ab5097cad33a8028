-- ===== src/Snapshot/Walk/Fresh.antt =====
-- The snapshot of a build that has just been created: `NewSnapshotFromEnv` of core/snapshot.go after
-- `CreateTeams`.
use laforge.Base.{
  ◌≤◌, ℕ, String, Bool, true, ◌&&◌, Option, none, some, List, [], ◌∷◌, ◌≡◌, refl, sym, subst, All,
  In,
}
use laforge.Metadata.GoPath.{FilePath}
use laforge.Build.{
  Environment, Build, Host, Team, ProvisionedNetwork, ProvisionedHost, hosts_of, create_teams,
}
use laforge.Build.Located.{HoldsIn}
use laforge.Build.MadeFrom.{IsNetworkOf, IsTeamOf, create_teams-IsTeamOf}
use laforge.Snapshot.Library.{GraphLibrary, Edge}
use laforge.Snapshot.Load.{total}
use laforge.Snapshot.Builder.{capacity, Walker, Run, Reach, start, done}
use laforge.Snapshot.Tracked.{asks_object, asks_edge}
use laforge.Snapshot.Account.{wants}
use laforge.Snapshot.Live.{can_end}
use laforge.Snapshot.Walk.{Dependency, walk_teams, walk_environment, walkers_of, and_walker}
use laforge.Snapshot.Walk.Ends.{
  AddsIn, EndsIn, InAction, walk_environment-IsClosed, walk_environment-In,
}
use laforge.Snapshot.Walk.Teams.{GlobalsIn}
use laforge.Snapshot.Walk.Closed.{adds_walkers, ends_walkers, walk_teams-AreClosed, AreClosed}

module _ (hash : Dependency → ℕ) where
  and_walker-eq-some :
      (w : Walker) (o : Option (List Walker)) (ws : List Walker)
      → and_walker hash (some w) o ≡ some ws
      → (teams : List Walker) × (o ≡ some teams) × (w ∷ teams ≡ ws)
  unfolding and_walker
  and_walker-eq-some w (some teams) ws h = (teams, refl, cc)
  and_walker-eq-some w none ws h = cc

  module _ (stored : FilePath → Bool) where
    hosts_stored :
        (env : Environment) (net : FilePath) (hosts : List (FilePath × ProvisionedHost))
        → ((h : Host) → In h (hosts_of env net) → stored h.path ≡ true)
        → HoldsIn (λ ph. In ph.host (hosts_of env net)) hosts
        → HoldsIn (λ ph. stored ph.host.path ≡ true) hosts
    hosts_stored env net [] g a = tt
    hosts_stored env net ((id, ph) ∷ hosts) g a = (g ph.host a.0, hosts_stored env net hosts g a.1)

    networks_stored :
        (b : Build) (networks : List (FilePath × ProvisionedNetwork))
        → All (InAction stored (AddsIn stored)) (walk_environment hash b.environment b)
        → All (λ x. IsNetworkOf b.environment x.1) networks
        → GlobalsIn stored hash networks
    networks_stored b [] w a = tt
    networks_stored b ((id, pn) ∷ networks) w a =
        let ((name, i), hosts) = a.0 in
        let (net, each) = walk_environment-In stored hash b.environment b name pn.network i w in
        (
          (net, hosts_stored b.environment pn.network.path pn.provisioned_hosts each hosts),
          networks_stored b networks w a.1,
        )

    teams_stored :
        (b : Build) (teams : List (FilePath × Team))
        → All (InAction stored (AddsIn stored)) (walk_environment hash b.environment b)
        → All (λ t. IsTeamOf b.environment t.1) teams
        → All (λ t. GlobalsIn stored hash t.1.provisioned_networks) teams
    teams_stored b [] w a = tt
    teams_stored b ((id, t) ∷ teams) w a =
        (networks_stored b t.provisioned_networks w a.0, teams_stored b teams w a.1)

  walkers_of-ends :
      (b : Build) (ws : List Walker)
      → All (λ t. IsTeamOf b.environment t.1) b.teams
      → walkers_of hash b.environment b ≡ some ws
      → (f : Edge) → wants (asks_edge f) ws ≡ true
      → (wants (asks_object f.source) ws && wants (asks_object f.target) ws) ≡ true
  unfolding walkers_of walk_environment
  walkers_of-ends b ws made h f asked =
      let stored : FilePath → Bool = λ i. wants (asks_object i) ws in
      let (teams, t, e) =
        and_walker-eq-some (walk_environment hash b.environment b) (walk_teams hash b b.teams) ws
          h in
      let adds =
        subst (All (All (InAction stored (AddsIn stored)))) (sym e)
          (adds_walkers stored ws (λ i a. a)) in
      let globals = teams_stored stored b b.teams adds.0 made in
      let closed =
        subst (AreClosed stored hash) t
          (walk_teams-AreClosed stored hash b b.teams adds.0.1.0 globals) in
      let ends =
        subst (All (All (InAction stored (EndsIn stored)))) e
          (walk_environment-IsClosed stored hash b.environment b adds.0, closed adds.1) in
      ends_walkers stored f ws ends asked

  -- For a build whose teams have just been created, in which no walker of a host panics and the calls
  -- and `go` statements of the walkers are at most 100000, the capacity of a channel, the workers can
  -- end from every state that they reach.
  pub fresh_can_end :
      (decimal : ℕ → String) (step_name : ℕ → String → String) (lib : GraphLibrary)
      (b created : Build) (ws : List Walker) (s : Run lib)
      → create_teams decimal step_name (record b { teams = [] }) ≡ some created
      → walkers_of hash created.environment created ≡ some ws
      → total ws ≤ capacity
      → Reach lib (start lib ws) s
      → (t : Run lib) × Reach lib s t × (t.phase ≡ done)
  fresh_can_end decimal step_name lib b created ws s h w few reach =
      can_end lib ws s
        (walkers_of-ends created ws (create_teams-IsTeamOf decimal step_name b created h) w) few
        reach
