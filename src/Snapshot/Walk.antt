-- ===== src/Snapshot/Walk.antt =====
-- core/snapshot.go: what the walkers of `NewSnapshotFromEnv` send, in the order in which they send
-- it. A walker of a host that meets a panic gives `none`.
pub mod Ends
pub mod Teams
pub mod Objects
pub mod Closed
pub mod Fresh
pub mod Panics
use laforge.Base.{ℕ, zero, suc, Bool, true, false, Option, none, some, List, [], ◌∷◌, ◌++◌, map}
use laforge.Metadata.GoPath.{FilePath}
use laforge.Build.{
  Environment, Build, Network, Host, Provisioner, Team, ProvisionedNetwork, ProvisionedHost,
  Connection, ProvisioningStep, HostDependency, hosts_of, final_step_id, locate_provisioned_host,
}
use laforge.Snapshot.{Object}
use laforge.Snapshot.Builder.{Call, object, relationship, Action, call, go, Walker}

-- The values that `AddObject` is called with.
pub data Dependency : Type 0 where
  of_environment : Environment → Dependency
  of_build : Build → Dependency
  of_network : Network → Dependency
  of_host : Host → Dependency
  of_provisioner : Provisioner → Dependency
  of_team : Team → Dependency
  of_provisioned_network : ProvisionedNetwork → Dependency
  of_provisioned_host : ProvisionedHost → Dependency
  of_connection : Connection → Dependency
  of_provisioning_step : ProvisioningStep → Dependency

-- The methods `Path`.
abbrev pub path_of : Dependency → FilePath
path_of (of_environment e) = e.path
path_of (of_build b) = b.id
path_of (of_network n) = n.path
path_of (of_host h) = h.path
path_of (of_provisioner pr) = pr.path
path_of (of_team t) = t.id
path_of (of_provisioned_network pn) = pn.id
path_of (of_provisioned_host ph) = ph.id
path_of (of_connection c) = c.id
path_of (of_provisioning_step ps) = ps.id

-- xs[i], where an index that is out of range panics
unfoldable pub step_at : ℕ → List ProvisioningStep → Option ProvisioningStep
step_at n [] = none
step_at zero (ps ∷ steps) = some ps
step_at (suc n) (ps ∷ steps) = step_at n steps

-- s.AddRelationship(src, target)
abbrev pub relate_to : Dependency → Dependency → Call
relate_to src target = relationship (record { source = path_of src; target = path_of target })

-- `hash` stands for the methods `Hash`, which are built on another project's xxhash.
module _ (hash : Dependency → ℕ) where
  abbrev pub add : Dependency → Call
  add dep = object (record { path = path_of dep; hash = hash dep })

  -- for _, x := range … { s.AddObject(x); s.AddRelationship(h, x) }
  add_each : Host → List (FilePath × Provisioner) → List Call
  add_each h [] = []
  add_each h ((name, x) ∷ xs) =
      add (of_provisioner x) ∷ relate_to (of_host h) (of_provisioner x) ∷ add_each h xs

  unfoldable pub walk_host : Host → List Call
  unfolding add_each
  walk_host h =
      add_each h h.scripts
      ++ add_each h h.dns_records
      ++ add_each h h.commands
      ++ add_each h h.remote_files

  walk_hosts : Network → List Host → Walker
  unfolding walk_host
  walk_hosts net [] = []
  walk_hosts net (h ∷ hosts) =
      call (add (of_host h))
      ∷ call (relate_to (of_network net) (of_host h))
      ∷ go (walk_host h)
      ∷ walk_hosts net hosts

  walk_networks : Environment → Build → List (FilePath × Network) → Walker
  unfolding walk_hosts hosts_of
  walk_networks e b [] = []
  walk_networks e b ((name, net) ∷ networks) =
      call (add (of_network net))
        ∷ call (relate_to (of_build b) (of_network net))
        ∷ walk_hosts net (hosts_of e net.path)
      ++ walk_networks e b networks

  unfoldable pub walk_environment : Environment → Build → Walker
  unfolding walk_networks
  walk_environment e b =
      call (add (of_environment e))
      ∷ call (add (of_build b))
      ∷ call (relate_to (of_environment e) (of_build b))
      ∷ walk_networks e b e.included_networks

  -- The edge from the step before, for all steps but the first.
  chain : Option ProvisioningStep → ProvisioningStep → List Call
  chain none ps = []
  chain (some prevstep) ps =
      relate_to (of_provisioning_step prevstep) (of_provisioning_step ps) ∷ []

  pub walk_steps : ProvisionedHost → Option ProvisioningStep → List ProvisioningStep → List Call
  unfolding chain
  walk_steps ph prev [] = []
  walk_steps ph prev (ps ∷ steps) =
      (add (of_provisioning_step ps)
        ∷ add (of_provisioner ps.provisioner)
        ∷ relate_to (of_provisioned_host ph) (of_provisioner ps.provisioner)
        ∷ relate_to (of_provisioning_step ps) (of_provisioner ps.provisioner)
        ∷ relate_to (of_connection ph.conn) (of_provisioning_step ps)
        ∷ chain prev ps)
      ++ walk_steps ph (some ps) steps

  -- What a located host has to finish before the host that depends on it.
  edge_from : ProvisionedHost → ProvisionedHost → Option ℕ → Option (List Call)
  unfolding step_at
  edge_from ph dh none = some (
      relate_to (of_provisioned_host dh) (of_provisioned_host ph)
      ∷ relate_to (of_connection dh.conn) (of_provisioned_host ph)
      ∷ [])
  edge_from ph dh (some fsid) = elim (step_at fsid dh.steps_by_offset) [
    | none ↦ none
    | some fs ↦ some (relate_to (of_provisioning_step fs) (of_provisioned_host ph) ∷ [])
  ]

  edge_of_located : ProvisionedHost → Option ProvisionedHost → Option (List Call)
  unfolding edge_from final_step_id
  edge_of_located ph none = none
  edge_of_located ph (some dh) = edge_from ph dh (final_step_id dh.host)

  and_then : Option (List Call) → Option (List Call) → Option (List Call)
  and_then none rest = none
  and_then (some calls) none = none
  and_then (some calls) (some more) = some (calls ++ more)

  pub walk_dependencies : Team → ProvisionedHost → List HostDependency → Option (List Call)
  unfolding edge_of_located and_then locate_provisioned_host
  walk_dependencies t ph [] = some []
  walk_dependencies t ph (dep ∷ deps) =
      and_then (edge_of_located ph (locate_provisioned_host t dep.network_id dep.host_id))
        (walk_dependencies t ph deps)

  unfoldable pub walk_provisioned_host : Team → ProvisionedHost → Option (List Call)
  unfolding walk_steps walk_dependencies and_then
  walk_provisioned_host t ph =
      and_then
        (some (
          add (of_connection ph.conn)
          ∷ relate_to (of_provisioned_host ph) (of_connection ph.conn)
          ∷ relate_to (of_provisioned_host ph) (of_host ph.host)
          ∷ walk_steps ph none ph.steps_by_offset))
        (walk_dependencies t ph ph.host.dependencies)

  start_walk : Option (List Call) → Option Walker → Option Walker
  start_walk (some calls) (some rest) = some (go calls ∷ rest)
  start_walk calls rest = none

  then_call : List Call → Option Walker → Option Walker
  then_call calls none = none
  then_call calls (some rest) = some (map call calls ++ rest)

  walk_provisioned_hosts :
      Team → ProvisionedNetwork → List (FilePath × ProvisionedHost) → Option Walker → Option Walker
  unfolding start_walk then_call walk_provisioned_host
  walk_provisioned_hosts t pn [] rest = rest
  walk_provisioned_hosts t pn ((id, ph) ∷ hosts) rest =
      then_call
        (add (of_provisioned_host ph)
          ∷ relate_to (of_provisioned_network pn) (of_provisioned_host ph)
          ∷ [])
        (start_walk (walk_provisioned_host t ph) (walk_provisioned_hosts t pn hosts rest))

  pub walk_provisioned_networks : Team → List (FilePath × ProvisionedNetwork) → Option Walker
  unfolding walk_provisioned_hosts then_call
  walk_provisioned_networks t [] = some []
  walk_provisioned_networks t ((id, pn) ∷ networks) =
      then_call
        (add (of_provisioned_network pn)
          ∷ relate_to (of_team t) (of_provisioned_network pn)
          ∷ relate_to (of_provisioned_network pn) (of_network pn.network)
          ∷ [])
        (walk_provisioned_hosts t pn pn.provisioned_hosts (walk_provisioned_networks t networks))

  unfoldable pub walk_team : Build → Team → Option Walker
  unfolding walk_provisioned_networks then_call
  walk_team b t =
      then_call (add (of_team t) ∷ relate_to (of_build b) (of_team t) ∷ [])
        (walk_provisioned_networks t t.provisioned_networks)

  and_walker : Option Walker → Option (List Walker) → Option (List Walker)
  and_walker (some w) (some ws) = some (w ∷ ws)
  and_walker w ws = none

  pub walk_teams : Build → List (FilePath × Team) → Option (List Walker)
  unfolding and_walker walk_team
  walk_teams b [] = some []
  walk_teams b ((id, t) ∷ teams) = and_walker (walk_team b t) (walk_teams b teams)

  -- The goroutines that `NewSnapshotFromEnv` starts for a build with its teams.
  unfoldable pub walkers_of : Environment → Build → Option (List Walker)
  unfolding and_walker walk_environment walk_teams
  walkers_of e b = and_walker (some (walk_environment e b)) (walk_teams b b.teams)
