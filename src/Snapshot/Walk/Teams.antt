-- ===== src/Snapshot/Walk/Teams.antt =====
-- The walkers of the teams add both ends of every relationship that they add, if the walker of the
-- environment adds the networks and hosts that the teams were made from.
use laforge.Base.{
  ℕ, zero, suc, Bool, true, Option, none, some, List, [], ◌∷◌, ◌≡◌, refl, subst, arith, All,
  All-split, All-join, inl, inr, Option-cases,
}
use laforge.Metadata.GoPath.{FilePath}
use laforge.Build.{
  Team, ProvisionedNetwork, ProvisionedHost, ProvisioningStep, HostDependency, final_step_id,
  locate_provisioned_host,
}
use laforge.Build.Located.{Holds, HoldsIn, HoldsFor, Holds-locate_provisioned_host}
use laforge.Snapshot.Builder.{Call, Walker}
use laforge.Snapshot.Walk.{
  Dependency, step_at, chain, walk_steps, edge_from, edge_of_located, and_then, walk_dependencies,
  walk_provisioned_host, walk_provisioned_hosts, walk_provisioned_networks, then_call, start_walk,
  add, relate_to, of_provisioned_host, of_provisioned_network, of_team, of_network, of_connection,
  of_host,
}
use laforge.Snapshot.Walk.Ends.{AddsIn, EndsIn, IsClosed, IsClosedWalk}

module _ (stored : FilePath → Bool) (hash : Dependency → ℕ) where
  abbrev pub host_calls : ProvisionedNetwork → ProvisionedHost → List Call
  host_calls pn ph =
      add hash (of_provisioned_host ph)
      ∷ relate_to (of_provisioned_network pn) (of_provisioned_host ph)
      ∷ []

  abbrev pub network_calls : Team → ProvisionedNetwork → List Call
  network_calls t pn =
      add hash (of_provisioned_network pn)
      ∷ relate_to (of_team t) (of_provisioned_network pn)
      ∷ relate_to (of_provisioned_network pn) (of_network pn.network)
      ∷ []

  -- The objects of a provisioned host.
  abbrev pub HostIn : ProvisionedHost → Type 0
  HostIn ph =
      (stored ph.id ≡ true)
      × (stored ph.conn.id ≡ true)
      × All (λ ps. stored ps.id ≡ true) ph.steps_by_offset

  abbrev get_stored : Option ProvisioningStep → Bool
  get_stored none = true
  get_stored (some p) = stored p.id

  abbrev AllSome : (Call → Type 0) → Option (List Call) → Type 0
  AllSome P none = Unit
  AllSome P (some cs) = All P cs

  chain-EndsIn :
      (prev : Option ProvisioningStep) (ps : ProvisioningStep)
      → ((p : ProvisioningStep) → prev ≡ some p → stored p.id ≡ true)
      → stored ps.id ≡ true
      → All (EndsIn stored) (chain hash prev ps)
  unfolding chain
  chain-EndsIn none ps hp s = tt
  chain-EndsIn (some p) ps hp s = ((hp p refl, s), tt)

  walk_steps-IsClosed :
      (ph : ProvisionedHost) (prev : Option ProvisioningStep) (steps : List ProvisioningStep)
      → stored ph.id ≡ true
      → stored ph.conn.id ≡ true
      → ((p : ProvisioningStep) → prev ≡ some p → stored p.id ≡ true)
      → IsClosed stored (walk_steps hash ph prev steps)
  unfolding walk_steps
  walk_steps-IsClosed ph prev [] sh sc hp a = tt
  walk_steps-IsClosed ph prev (ps ∷ steps) sh sc hp a =
      let tail = (All-split (AddsIn stored) (chain hash prev ps) _ a.1.1.1.1.1).1 in
      let next : (p : ProvisioningStep) → some ps ≡ some p → stored p.id ≡ true =
        λ p e. subst (λ o. get_stored o ≡ true) e a.0 in
      (
        tt,
        (
          tt,
          (
            (sh, a.1.0),
            (
              (a.0, a.1.0),
              (
                (sc, a.0),
                All-join (EndsIn stored) (chain hash prev ps) _ (chain-EndsIn prev ps hp a.0)
                    (walk_steps-IsClosed ph (some ps) steps sh sc next tail),
              ),
            ),
          ),
        ),
      )

  pub walk_steps-In :
      (ph : ProvisionedHost) (prev : Option ProvisioningStep) (steps : List ProvisioningStep)
      → All (AddsIn stored) (walk_steps hash ph prev steps)
      → All (λ ps. stored ps.id ≡ true) steps
  unfolding walk_steps
  walk_steps-In ph prev [] a = tt
  walk_steps-In ph prev (ps ∷ steps) a = (
    a.0,
    walk_steps-In ph (some ps) steps
        (All-split (AddsIn stored) (chain hash prev ps) _ a.1.1.1.1.1).1,
  )

  All-step_at :
      (n : ℕ) (steps : List ProvisioningStep) (fs : ProvisioningStep)
      → All (λ ps. stored ps.id ≡ true) steps
      → step_at n steps ≡ some fs
      → stored fs.id ≡ true
  unfolding step_at
  All-step_at n [] fs a h = cc
  All-step_at zero (ps ∷ steps) fs a h = subst (λ o. get_stored o ≡ true) h a.0
  All-step_at (suc n) (ps ∷ steps) fs a h = All-step_at n steps fs a.1 h

  edge_from-EndsIn :
      (ph dh : ProvisionedHost) (final : Option ℕ)
      → stored ph.id ≡ true
      → HostIn dh
      → AllSome (EndsIn stored) (edge_from hash ph dh final)
  unfolding edge_from
  edge_from-EndsIn ph dh none s h = ((h.0, s), ((h.1, s), tt))
  edge_from-EndsIn ph dh (some fsid) s h = elim (Option-cases (step_at fsid dh.steps_by_offset)) [
    | inl n ↦ rw (AllSome, edge_from, n) tt
    | inr (fs, n) ↦
        rw (AllSome, edge_from, n) ((All-step_at fsid dh.steps_by_offset fs h.2 n, s), tt)
  ]

  edge_of_located-EndsIn :
      (ph : ProvisionedHost) (located : Option ProvisionedHost)
      → stored ph.id ≡ true
      → Holds HostIn located
      → AllSome (EndsIn stored) (edge_of_located hash ph located)
  unfolding edge_of_located
  edge_of_located-EndsIn ph none s h = tt
  edge_of_located-EndsIn ph (some dh) s h = edge_from-EndsIn ph dh (final_step_id dh.host) s h

  AllSome-and_then :
      (P : Call → Type 0) (first rest : Option (List Call))
      → AllSome P first
      → AllSome P rest
      → AllSome P (and_then hash first rest)
  unfolding and_then
  AllSome-and_then P none rest f r = tt
  AllSome-and_then P (some xs) none f r = tt
  AllSome-and_then P (some xs) (some ys) f r = All-join P xs ys f r

  walk_dependencies-EndsIn :
      (t : Team) (ph : ProvisionedHost) (deps : List HostDependency)
      → stored ph.id ≡ true
      → HoldsFor HostIn t.provisioned_networks
      → AllSome (EndsIn stored) (walk_dependencies hash t ph deps)
  unfolding walk_dependencies
  walk_dependencies-EndsIn t ph [] s h = tt
  walk_dependencies-EndsIn t ph (dep ∷ deps) s h =
      let located = locate_provisioned_host t dep.network_id dep.host_id in
      AllSome-and_then (EndsIn stored) (edge_of_located hash ph located)
        (walk_dependencies hash t ph deps)
        (edge_of_located-EndsIn ph located s
          (Holds-locate_provisioned_host HostIn t dep.network_id dep.host_id h))
        (walk_dependencies-EndsIn t ph deps s h)

  abbrev IsClosedSome : Option (List Call) → Type 0
  IsClosedSome none = Unit
  IsClosedSome (some cs) = IsClosed stored cs

  abbrev pub IsClosedSomeWalk : Option Walker → Type 0
  IsClosedSomeWalk none = Unit
  IsClosedSomeWalk (some w) = IsClosedWalk stored w

  and_then-IsClosed :
      (calls : List Call) (rest : Option (List Call))
      → IsClosed stored calls
      → AllSome (EndsIn stored) rest
      → IsClosedSome (and_then hash (some calls) rest)
  unfolding and_then
  and_then-IsClosed calls none c r = tt
  and_then-IsClosed calls (some more) c r =
      λ a. All-join (EndsIn stored) calls more (c (All-split (AddsIn stored) calls more a).0) r

  walk_provisioned_host-IsClosed :
      (t : Team) (ph : ProvisionedHost)
      → HoldsFor HostIn t.provisioned_networks
      → stored ph.host.path ≡ true
      → stored ph.id ≡ true
      → IsClosedSome (walk_provisioned_host hash t ph)
  unfolding walk_provisioned_host
  walk_provisioned_host-IsClosed t ph h sg s =
      and_then-IsClosed
        (add hash (of_connection ph.conn)
          ∷ relate_to (of_provisioned_host ph) (of_connection ph.conn)
          ∷ relate_to (of_provisioned_host ph) (of_host ph.host)
          ∷ walk_steps hash ph none ph.steps_by_offset)
        (walk_dependencies hash t ph ph.host.dependencies)
        (λ a. (
          tt,
          (
            (s, a.0),
            (
              (s, sg),
              walk_steps-IsClosed ph none ph.steps_by_offset s a.0 (λ p e. ground arith) a.1.1.1,
            ),
          ),
        ))
        (walk_dependencies-EndsIn t ph ph.host.dependencies s h)

  start_host-IsClosed :
      (pn : ProvisionedNetwork) (ph : ProvisionedHost) (calls : Option (List Call))
      (rest : Option Walker)
      → stored pn.id ≡ true
      → (stored ph.id ≡ true → IsClosedSome calls)
      → IsClosedSomeWalk rest
      → IsClosedSomeWalk (then_call hash (host_calls pn ph) (start_walk hash calls rest))
  unfolding then_call start_walk
  start_host-IsClosed pn ph none rest sn c r = tt
  start_host-IsClosed pn ph (some cs) none sn c r = tt
  start_host-IsClosed pn ph (some cs) (some w) sn c r =
      λ a. (tt, ((sn, a.0), (c a.0 a.1.1.0, r a.1.1.1)))

  walk_provisioned_hosts-IsClosed :
      (t : Team) (pn : ProvisionedNetwork) (hosts : List (FilePath × ProvisionedHost))
      (rest : Option Walker)
      → HoldsFor HostIn t.provisioned_networks
      → HoldsIn (λ ph. stored ph.host.path ≡ true) hosts
      → stored pn.id ≡ true
      → IsClosedSomeWalk rest
      → IsClosedSomeWalk (walk_provisioned_hosts hash t pn hosts rest)
  unfolding walk_provisioned_hosts
  walk_provisioned_hosts-IsClosed t pn [] rest h g sn r = r
  walk_provisioned_hosts-IsClosed t pn ((id, ph) ∷ hosts) rest h g sn r =
      start_host-IsClosed pn ph (walk_provisioned_host hash t ph)
        (walk_provisioned_hosts hash t pn hosts rest) sn (walk_provisioned_host-IsClosed t ph h g.0)
        (walk_provisioned_hosts-IsClosed t pn hosts rest h g.1 sn r)

  start_network-IsClosed :
      (t : Team) (pn : ProvisionedNetwork) (rest : Option Walker)
      → stored t.id ≡ true
      → stored pn.network.path ≡ true
      → (stored pn.id ≡ true → IsClosedSomeWalk rest)
      → IsClosedSomeWalk (then_call hash (network_calls t pn) rest)
  unfolding then_call
  start_network-IsClosed t pn none st sg c = tt
  start_network-IsClosed t pn (some w) st sg c = λ a. (tt, ((st, a.0), ((a.0, sg), c a.0 a.1.1.1)))

  -- The networks and hosts that the team was made from are stored.
  abbrev pub GlobalsIn : List (FilePath × ProvisionedNetwork) → Type 0
  GlobalsIn = All (λ x.
      (stored x.1.network.path ≡ true)
      × HoldsIn (λ ph. stored ph.host.path ≡ true) x.1.provisioned_hosts)

  pub walk_provisioned_networks-IsClosed :
      (t : Team) (networks : List (FilePath × ProvisionedNetwork))
      → HoldsFor HostIn t.provisioned_networks
      → GlobalsIn networks
      → stored t.id ≡ true
      → IsClosedSomeWalk (walk_provisioned_networks hash t networks)
  unfolding walk_provisioned_networks
  walk_provisioned_networks-IsClosed t [] h g st = λ a. tt
  walk_provisioned_networks-IsClosed t ((id, pn) ∷ networks) h g st =
      start_network-IsClosed t pn
        (walk_provisioned_hosts hash t pn pn.provisioned_hosts
          (walk_provisioned_networks hash t networks))
        st g.0.0
        (λ sn.
          walk_provisioned_hosts-IsClosed t pn pn.provisioned_hosts
            (walk_provisioned_networks hash t networks) h g.0.1 sn
            (walk_provisioned_networks-IsClosed t networks h g.1 st))
