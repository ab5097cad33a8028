-- ===== src/Build/Stored.antt =====
-- The loops of `Create…` fill maps: what the maps hold when the IDs differ.
use mathlib.Core.List.{append_assoc, append-nil}
use laforge.Base.{ℕ, zero, suc, String, List, [], ◌∷◌, ◌++◌, ◌≡◌, refl, ap, ◌∙◌}
use laforge.Base.Eq.{path_eq}
use laforge.Base.Fill.{fill}
use laforge.Metadata.GoPath.{FilePath}
use laforge.Metadata.Ids.{no_id, set_team_id, set_network_id, set_host_id, set_step_id}
use laforge.Build.{
  Provisioner, ProvisioningStep, ProvisionedHost, ProvisionedNetwork, Host, Network, Environment,
  Team, Build, create_steps_from, create_provisioning_steps, create_provisioning_step,
  create_provisioned_host, create_hosts, create_provisioned_hosts, create_provisioned_network,
  create_networks, create_provision_resources, hosts_of, create_team, create_teams_from,
}

-- Each element with its index, from the number on.
abbrev pub numbered : {A : Type 0} → ℕ → List A → List (ℕ × A)
numbered n [] = []
numbered n (x ∷ xs) = (n, x) ∷ numbered (suc n) xs

-- Get the n-th element.
abbrev pub upto : ℕ → ℕ → List ℕ
upto zero n = []
upto (suc rounds) n = n ∷ upto rounds (suc n)

module _ (decimal : ℕ → String) (step_name : ℕ → String → String) where
  abbrev pub step_id : FilePath → ℕ × Provisioner → FilePath
  step_id host (n, pr) = set_step_id step_name no_id host n pr.path

  abbrev pub step_of : FilePath → ℕ × Provisioner → ProvisioningStep
  step_of host (n, pr) = record { id = step_id host (n, pr); step_number = n; provisioner = pr }

  abbrev pub steps_of : FilePath → List (ℕ × Provisioner) → List ProvisioningStep
  steps_of host [] = []
  steps_of host (s ∷ steps) = step_of host s ∷ steps_of host steps

  create_steps_from-eq :
      (sid : ℕ) (prs : List Provisioner) (p : ProvisionedHost)
      → create_steps_from decimal step_name sid prs p ≡ record p {
        provisioning_steps =
            fill (step_id p.id) (step_of p.id) (numbered sid prs) p.provisioning_steps;
        steps_by_offset = p.steps_by_offset ++ steps_of p.id (numbered sid prs);
      }
  unfolding create_steps_from create_provisioning_step fill
  create_steps_from-eq sid [] p = simp (append-nil p.steps_by_offset)
  create_steps_from-eq sid (pr ∷ prs) p =
      create_steps_from-eq (suc sid) prs (create_provisioning_step decimal step_name pr sid p)
      ∙ ap
          (λ l. record p {
            provisioning_steps =
                fill (step_id p.id) (step_of p.id) (numbered sid (pr ∷ prs)) p.provisioning_steps;
            steps_by_offset = l;
          })
          (append_assoc p.steps_by_offset (step_of p.id (sid, pr) ∷ [])
            (steps_of p.id (numbered (suc sid) prs)))

  -- The host with all its steps, by number and by ID.
  abbrev pub host_of : FilePath → Host → ProvisionedHost
  host_of network h = record (create_provisioned_host decimal step_name network h) {
    provisioning_steps =
        fill (step_id (set_host_id no_id network h.path))
          (step_of (set_host_id no_id network h.path)) (numbered 0 h.provisioners) [];
    steps_by_offset = steps_of (set_host_id no_id network h.path) (numbered 0 h.provisioners);
  }

  create_host-eq :
      (network : FilePath) (h : Host)
      → create_provisioning_steps decimal step_name
          (create_provisioned_host decimal step_name network h)
        ≡ host_of network h
  unfolding create_provisioning_steps create_provisioned_host
  create_host-eq network h =
      create_steps_from-eq 0 h.provisioners (create_provisioned_host decimal step_name network h)

  abbrev pub host_key : FilePath → Host → FilePath
  host_key network h = set_host_id no_id network h.path

  create_hosts-eq :
      (hosts : List Host) (p : ProvisionedNetwork)
      → create_hosts decimal step_name hosts p ≡ record p {
        provisioned_hosts = fill (host_key p.id) (host_of p.id) hosts p.provisioned_hosts;
      }
  unfolding create_hosts fill create_provisioned_host
  create_hosts-eq [] p = refl
  create_hosts-eq (h ∷ hosts) p = rw (create_host-eq p.id h) (create_hosts-eq hosts _)

  abbrev pub network_key : FilePath → FilePath × Network → FilePath
  network_key team (name, n) = set_network_id no_id team n.path

  abbrev pub network_of : Environment → FilePath → FilePath × Network → ProvisionedNetwork
  network_of env team (name, n) = record (create_provisioned_network decimal step_name team n) {
    provisioned_hosts =
        fill (host_key (set_network_id no_id team n.path))
          (host_of (set_network_id no_id team n.path)) (hosts_of env n.path) [];
  }

  create_networks-eq :
      (env : Environment) (networks : List (FilePath × Network)) (t : Team)
      → create_networks decimal step_name env networks t ≡ record t {
        provisioned_networks =
            fill (network_key t.id) (network_of env t.id) networks t.provisioned_networks;
      }
  unfolding create_networks fill create_provisioned_network create_provisioned_hosts
  create_networks-eq env [] t = refl
  create_networks-eq env ((name, n) ∷ networks) t =
      rw
        (create_hosts-eq (hosts_of env n.path)
          (create_provisioned_network decimal step_name t.id n))
        (create_networks-eq env networks _)

  abbrev pub team_key : FilePath → ℕ → FilePath
  team_key build i = set_team_id decimal no_id build i

  abbrev pub team_of : Environment → FilePath → ℕ → Team
  team_of env build i = record {
    id = team_key build i;
    team_number = i;
    provisioned_networks =
        fill (network_key (team_key build i)) (network_of env (team_key build i))
          env.included_networks [];
  }

  pub create_team-eq :
      (env : Environment) (build : FilePath) (i : ℕ)
      → create_provision_resources decimal step_name env (create_team decimal step_name build i)
        ≡ team_of env build i
  unfolding create_provision_resources create_team
  create_team-eq env build i =
      create_networks-eq env env.included_networks (create_team decimal step_name build i)

  pub create_teams_from-eq :
      (rounds i : ℕ) (b : Build)
      → create_teams_from decimal step_name rounds i b ≡ record b {
        teams = fill (team_key b.id) (team_of b.environment b.id) (upto rounds i) b.teams;
      }
  unfolding create_teams_from create_team fill
  create_teams_from-eq zero i b = refl
  create_teams_from-eq (suc rounds) i b =
      rw (create_team-eq b.environment b.id i) (create_teams_from-eq rounds (suc i) _)
