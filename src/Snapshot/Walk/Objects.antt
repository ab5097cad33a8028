-- ===== src/Snapshot/Walk/Objects.antt =====
-- The walkers of a team add the objects of all its hosts.
use laforge.Base.{ℕ, Bool, true, Option, none, some, List, [], ◌∷◌, ◌≡◌, All, All-split}
use laforge.Metadata.GoPath.{FilePath}
use laforge.Build.{Team, ProvisionedNetwork, ProvisionedHost}
use laforge.Build.Located.{HoldsIn, HoldsFor}
use laforge.Snapshot.Builder.{Call, Walker}
use laforge.Snapshot.Walk.{
  Dependency, and_then, walk_steps, walk_dependencies, walk_provisioned_host,
  walk_provisioned_hosts, walk_provisioned_networks, then_call, start_walk, add, relate_to,
  of_connection, of_host, of_provisioned_host,
}
use laforge.Snapshot.Walk.Ends.{AddsIn, InAction}
use laforge.Snapshot.Walk.Teams.{HostIn, walk_steps-In, host_calls, network_calls}

module _ (stored : FilePath → Bool) (hash : Dependency → ℕ) where
  -- The calls, if there are any, add objects only where the type is inhabited.
  abbrev Gives : Type 0 → Option (List Call) → Type 0
  Gives Q none = Unit
  Gives Q (some cs) = All (AddsIn stored) cs → Q

  abbrev pub GivesWalk : Type 0 → Option Walker → Type 0
  GivesWalk Q none = Unit
  GivesWalk Q (some w) = All (InAction stored (AddsIn stored)) w → Q

  abbrev StepsIn : ProvisionedHost → Type 0
  StepsIn ph = (stored ph.conn.id ≡ true) × All (λ ps. stored ps.id ≡ true) ph.steps_by_offset

  and_then-Gives :
      (Q : Type 0) (calls : List Call) (rest : Option (List Call))
      → (All (AddsIn stored) calls → Q)
      → Gives Q (and_then hash (some calls) rest)
  unfolding and_then
  and_then-Gives Q calls none g = tt
  and_then-Gives Q calls (some more) g = λ a. g (All-split (AddsIn stored) calls more a).0

  walk_provisioned_host-Gives :
      (t : Team) (ph : ProvisionedHost) → Gives (StepsIn ph) (walk_provisioned_host hash t ph)
  unfolding walk_provisioned_host
  walk_provisioned_host-Gives t ph =
      and_then-Gives (StepsIn ph)
        (add hash (of_connection ph.conn)
          ∷ relate_to (of_provisioned_host ph) (of_connection ph.conn)
          ∷ relate_to (of_provisioned_host ph) (of_host ph.host)
          ∷ walk_steps hash ph none ph.steps_by_offset)
        (walk_dependencies hash t ph ph.host.dependencies)
        (λ a. (a.0, walk_steps-In stored hash ph none ph.steps_by_offset a.1.1.1))

  start_host-Gives :
      (Q R : Type 0) (pn : ProvisionedNetwork) (ph : ProvisionedHost) (calls : Option (List Call))
      (rest : Option Walker)
      → Gives Q calls
      → GivesWalk R rest
      → GivesWalk
          ((stored ph.id ≡ true) × Q × R)
          (then_call hash (host_calls stored hash pn ph) (start_walk hash calls rest))
  unfolding then_call start_walk
  start_host-Gives Q R pn ph none rest c r = tt
  start_host-Gives Q R pn ph (some cs) none c r = tt
  start_host-Gives Q R pn ph (some cs) (some w) c r = λ a. (a.0, c a.1.1.0, r a.1.1.1)

  GivesWalk-map : {Q R : Type 0} (w : Option Walker) → (Q → R) → GivesWalk Q w → GivesWalk R w
  GivesWalk-map none f g = tt
  GivesWalk-map (some w) f g = λ a. f (g a)

  walk_provisioned_hosts-Gives :
      (Q : Type 0) (t : Team) (pn : ProvisionedNetwork) (hosts : List (FilePath × ProvisionedHost))
      (rest : Option Walker)
      → GivesWalk Q rest
      → GivesWalk
          (HoldsIn (HostIn stored hash) hosts × Q)
          (walk_provisioned_hosts hash t pn hosts rest)
  unfolding walk_provisioned_hosts
  walk_provisioned_hosts-Gives Q t pn [] rest r = GivesWalk-map rest (λ q. (tt, q)) r
  walk_provisioned_hosts-Gives Q t pn ((id, ph) ∷ hosts) rest r =
      GivesWalk-map _ (λ g. (((g.0, g.1.0, g.1.1), g.2.0), g.2.1))
        (start_host-Gives (StepsIn ph) (HoldsIn (HostIn stored hash) hosts × Q) pn ph
          (walk_provisioned_host hash t ph) (walk_provisioned_hosts hash t pn hosts rest)
          (walk_provisioned_host-Gives t ph) (walk_provisioned_hosts-Gives Q t pn hosts rest r))

  then_call-Gives :
      (Q : Type 0) (t : Team) (pn : ProvisionedNetwork) (rest : Option Walker)
      → GivesWalk Q rest
      → GivesWalk Q (then_call hash (network_calls stored hash t pn) rest)
  unfolding then_call
  then_call-Gives Q t pn none r = tt
  then_call-Gives Q t pn (some w) r = λ a. r a.1.1.1

  pub walk_provisioned_networks-Gives :
      (t : Team) (networks : List (FilePath × ProvisionedNetwork))
      → GivesWalk
          (HoldsFor (HostIn stored hash) networks)
          (walk_provisioned_networks hash t networks)
  unfolding walk_provisioned_networks
  walk_provisioned_networks-Gives t [] = λ a. tt
  walk_provisioned_networks-Gives t ((id, pn) ∷ networks) =
      then_call-Gives _ t pn
        (walk_provisioned_hosts hash t pn pn.provisioned_hosts
          (walk_provisioned_networks hash t networks))
        (walk_provisioned_hosts-Gives (HoldsFor (HostIn stored hash) networks) t pn
          pn.provisioned_hosts (walk_provisioned_networks hash t networks)
          (walk_provisioned_networks-Gives t networks))
