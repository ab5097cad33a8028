-- ===== src/Snapshot/Walk/Panics.antt =====
-- When the walker of a provisioned host panics: `WalkProvisionedHost` of core/snapshot.go.
use laforge.Base.{
  ℕ, zero, suc, ◌<◌, String, Option, none, some, List, [], ◌∷◌, ◌≡◌, ◌↔◌, refl, arith, length, All,
}
use laforge.Metadata.GoPath.{FilePath}
use laforge.Build.{
  Team, HostDependency, Environment, ProvisionedHost, ProvisioningStep, final_step_id,
  locate_provisioned_host, create_team, create_provision_resources,
}
use laforge.Build.Located.{Holds, HoldsFor, Holds-locate_provisioned_host}
use laforge.Build.Steps.{HasSteps, created-HasSteps, final_step_id_below}
use laforge.Snapshot.Builder.{Call}
use laforge.Snapshot.Walk.{
  Dependency, step_at, edge_from, edge_of_located, and_then, walk_steps, walk_dependencies,
  walk_provisioned_host, add, relate_to, of_connection, of_provisioned_host, of_host,
  of_provisioning_step,
}

-- The walk gives calls, and so does not panic.
abbrev pub Sends : Option (List Call) → Type 0
Sends o = (calls : List Call) × (o ≡ some calls)

-- Each host that is depended on is found.
abbrev pub AllLocated : Team → List HostDependency → Type 0
AllLocated t = All (λ dep.
    (dh : ProvisionedHost) × (locate_provisioned_host t dep.network_id dep.host_id ≡ some dh))

module _ (hash : Dependency → ℕ) where
  step_at-some :
      (n : ℕ) (steps : List ProvisioningStep)
      → n < length steps
      → (ps : ProvisioningStep) × (step_at n steps ≡ some ps)
  unfolding step_at
  step_at-some n [] h = ground arith
  step_at-some zero (ps ∷ steps) h = (ps, refl)
  step_at-some (suc n) (ps ∷ steps) h = step_at-some n steps (omega arith)

  edge_from_step :
      (ph dh : ProvisionedHost) (fsid : ℕ) (fs : ProvisioningStep)
      → step_at fsid dh.steps_by_offset ≡ some fs
      → Sends (edge_from hash ph dh (some fsid))
  unfolding edge_from
  edge_from_step ph dh fsid fs e =
      (relate_to (of_provisioning_step fs) (of_provisioned_host ph) ∷ [], rw (edge_from, e) refl)

  edge_from-Sends :
      (ph dh : ProvisionedHost) (final : Option ℕ)
      → HasSteps dh
      → final_step_id dh.host ≡ final
      → Sends (edge_from hash ph dh final)
  unfolding edge_from
  edge_from-Sends ph dh none s e = (_, refl)
  edge_from-Sends ph dh (some fsid) s e =
      let (fs, found) =
        step_at-some fsid dh.steps_by_offset
          (omega (arith, s, final_step_id_below dh.host fsid e)) in
      edge_from_step ph dh fsid fs found

  and_then-Sends :
      (first rest : Option (List Call))
      → Sends first
      → Sends rest
      → Sends (and_then hash first rest)
  unfolding and_then
  and_then-Sends (some xs) (some ys) f r = (_, refl)
  and_then-Sends (some xs) none f (ys, e) = cc
  and_then-Sends none rest (xs, e) r = cc

  Sends-and_then :
      (first rest : Option (List Call))
      → Sends (and_then hash first rest)
      → Sends first × Sends rest
  unfolding and_then
  Sends-and_then (some xs) (some ys) s = ((xs, refl), (ys, refl))
  Sends-and_then (some xs) none (zs, e) = cc
  Sends-and_then none rest (zs, e) = cc

  located_edge :
      (ph : ProvisionedHost) (o : Option ProvisionedHost)
      → Holds HasSteps o
      → Sends (edge_of_located hash ph o) ↔ ((dh : ProvisionedHost) × (o ≡ some dh))
  unfolding edge_of_located
  located_edge ph none s = (λ (cs, e). cc, λ (dh, e). cc)
  located_edge ph (some dh) s =
      (λ cs. (dh, refl), λ found. edge_from-Sends ph dh (final_step_id dh.host) s refl)

  walk_dependencies-Sends :
      (t : Team) (ph : ProvisionedHost) (deps : List HostDependency)
      → HoldsFor HasSteps t.provisioned_networks
      → Sends (walk_dependencies hash t ph deps) ↔ AllLocated t deps
  unfolding walk_dependencies
  walk_dependencies-Sends t ph [] s = (λ cs. tt, λ a. ([], refl))
  walk_dependencies-Sends t ph (dep ∷ deps) s =
      let located = locate_provisioned_host t dep.network_id dep.host_id in
      let (to, from) =
        located_edge ph located
          (Holds-locate_provisioned_host HasSteps t dep.network_id dep.host_id s) in
      let (all, none_panics) = walk_dependencies-Sends t ph deps s in
      (
        λ cs.
            let (first, rest) =
              Sends-and_then (edge_of_located hash ph located) (walk_dependencies hash t ph deps)
                cs in
            (to first, all rest),
        λ a.
            and_then-Sends (edge_of_located hash ph located) (walk_dependencies hash t ph deps)
              (from a.0) (none_panics a.1),
      )

  -- In a team that has just been created, the walker of a host does not panic exactly when every host
  -- that this host depends on is located in the team.
  pub walk_created-Sends :
      (decimal : ℕ → String) (step_name : ℕ → String → String) (env : Environment)
      (build : FilePath) (number : ℕ) (ph : ProvisionedHost)
      → Sends (
          walk_provisioned_host hash
            (create_provision_resources decimal step_name env
              (create_team decimal step_name build number))
            ph)
        ↔ AllLocated
            (create_provision_resources decimal step_name env
              (create_team decimal step_name build number))
            ph.host.dependencies
  unfolding walk_provisioned_host
  walk_created-Sends decimal step_name env build number ph =
      let t =
        create_provision_resources decimal step_name env
          (create_team decimal step_name build number) in
      let own : List Call =
        add hash (of_connection ph.conn)
        ∷ relate_to (of_provisioned_host ph) (of_connection ph.conn)
        ∷ relate_to (of_provisioned_host ph) (of_host ph.host)
        ∷ walk_steps hash ph none ph.steps_by_offset in
      let (to, from) =
        walk_dependencies-Sends t ph ph.host.dependencies
          (created-HasSteps decimal step_name env build number) in
      (
        λ cs.
            to (Sends-and_then (some own) (walk_dependencies hash t ph ph.host.dependencies) cs).1,
        λ a.
            and_then-Sends (some own) (walk_dependencies hash t ph ph.host.dependencies) (own, refl)
              (from a),
      )
