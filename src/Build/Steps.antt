-- ===== src/Build/Steps.antt =====
-- A created host has one step for each provisioner.
use laforge.Base.{
  ℕ, suc, ◌<◌, String, some, List, [], ◌∷◌, ◌≡◌, refl, sym, ap, subst, arith, length,
}
use laforge.Base.Eq.{path_eq}
use laforge.Metadata.GoPath.{FilePath}
use laforge.Metadata.Ids.{no_id, set_network_id, set_host_id}
use laforge.Build.{
  Provisioner, ProvisionedHost, Host, Environment, Network, hosts_of, create_team,
  create_provision_resources, create_provisioned_host, final_step_id, last_index,
}
use laforge.Build.Stored.{
  numbered, steps_of, host_key, host_of, network_key, network_of, team_key, create_team-eq,
}
use laforge.Build.Located.{HoldsIn, HoldsFor}
use laforge.Build.MadeFrom.{All-fill}

abbrev pub HasSteps : ProvisionedHost → Type 0
HasSteps ph = length ph.steps_by_offset ≡ length ph.host.provisioners

last_index_below : (prs : List Provisioner) (n : ℕ) → last_index prs ≡ some n → n < length prs
unfolding last_index
last_index_below [] n e = cc
last_index_below (pr ∷ prs) n e = let same : length prs ≡ n = cc in omega (arith, same)

pub final_step_id_below : (h : Host) (n : ℕ) → final_step_id h ≡ some n → n < length h.provisioners
unfolding final_step_id
final_step_id_below h n e = last_index_below h.provisioners n e

module _ (decimal : ℕ → String) (step_name : ℕ → String → String) where
  length-steps_of :
      (host : FilePath) (n : ℕ) (prs : List Provisioner)
      → length (steps_of decimal step_name host (numbered n prs)) ≡ length prs
  length-steps_of host n [] = refl
  length-steps_of host n (pr ∷ prs) = ap suc (length-steps_of host (suc n) prs)

  host_of-HasSteps :
      (network : FilePath) (h : Host) → HasSteps (host_of decimal step_name network h)
  unfolding create_provisioned_host
  host_of-HasSteps network h = length-steps_of (set_host_id no_id network h.path) 0 h.provisioners

  network_of-HasSteps :
      (env : Environment) (team : FilePath) (n : FilePath × Network)
      → HoldsIn HasSteps (network_of decimal step_name env team n).provisioned_hosts
  network_of-HasSteps env team (name, n) =
      All-fill HasSteps (host_key decimal step_name (set_network_id no_id team n.path))
        (host_of decimal step_name (set_network_id no_id team n.path)) (hosts_of env n.path) []
        (λ h i. host_of-HasSteps (set_network_id no_id team n.path) h) tt

  pub created-HasSteps :
      (env : Environment) (build : FilePath) (number : ℕ)
      → HoldsFor HasSteps
          (create_provision_resources decimal step_name env
            (create_team decimal step_name build number)).provisioned_networks
  created-HasSteps env build number =
      subst (λ t. HoldsFor HasSteps t.provisioned_networks)
        (sym (create_team-eq decimal step_name env build number))
        (All-fill (λ pn. HoldsIn HasSteps pn.provisioned_hosts)
          (network_key decimal step_name (team_key decimal step_name build number))
          (network_of decimal step_name env (team_key decimal step_name build number))
          env.included_networks []
          (λ n i. network_of-HasSteps env (team_key decimal step_name build number) n) tt)
