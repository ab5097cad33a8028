-- ===== src/Build/Located.antt =====
-- A host that `LocateProvisionedHost` gives is one of the team's.
use laforge.Base.{Option, none, some, List, [], ◌∷◌, All, Bool-cases, inl, inr}
use laforge.Base.Eq.{path_same}
use laforge.Metadata.GoPath.{FilePath}
use laforge.Build.{
  ProvisionedHost, ProvisionedNetwork, Team, locate_host, locate_in, or_next,
  locate_provisioned_host,
}

module _ (P : ProvisionedHost → Type 0) where
  -- The predicate holds of the value, if there is one.
  abbrev pub Holds : Option ProvisionedHost → Type 0
  Holds none = Unit
  Holds (some ph) = P ph

  abbrev pub HoldsIn : List (FilePath × ProvisionedHost) → Type 0
  HoldsIn = All (λ h. P h.1)

  abbrev pub HoldsFor : List (FilePath × ProvisionedNetwork) → Type 0
  HoldsFor = All (λ x. HoldsIn x.1.provisioned_hosts)

  Holds-locate_host :
      (hostid : FilePath) (hosts : List (FilePath × ProvisionedHost))
      → HoldsIn hosts
      → Holds (locate_host hostid hosts)
  unfolding locate_host
  Holds-locate_host hostid [] a = tt
  Holds-locate_host hostid ((id, h) ∷ hosts) a = elim (Bool-cases (path_same h.host.path hostid)) [
    | inl e ↦ rw e a.0
    | inr e ↦ rw e (Holds-locate_host hostid hosts a.1)
  ]

  Holds-or_next :
      (first next : Option ProvisionedHost) → Holds first → Holds next → Holds (or_next first next)
  unfolding or_next
  Holds-or_next none next f n = n
  Holds-or_next (some h) next f n = f

  Holds-locate_in :
      (netid hostid : FilePath) (networks : List (FilePath × ProvisionedNetwork))
      → HoldsFor networks
      → Holds (locate_in netid hostid networks)
  unfolding locate_in
  Holds-locate_in netid hostid [] a = tt
  Holds-locate_in netid hostid ((id, x) ∷ networks) a =
      let rest = Holds-locate_in netid hostid networks a.1 in
      elim (Bool-cases (path_same x.network.path netid)) [
        | inl e ↦ rw e (
            Holds-or_next (locate_host hostid x.provisioned_hosts) _
              (Holds-locate_host hostid x.provisioned_hosts a.0) rest)
        | inr e ↦ rw e rest
      ]

  pub Holds-locate_provisioned_host :
      (t : Team) (netid hostid : FilePath)
      → HoldsFor t.provisioned_networks
      → Holds (locate_provisioned_host t netid hostid)
  unfolding locate_provisioned_host
  Holds-locate_provisioned_host t netid hostid = Holds-locate_in netid hostid t.provisioned_networks
