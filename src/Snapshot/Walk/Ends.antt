-- ===== src/Snapshot/Walk/Ends.antt =====
-- The walkers add both ends of every relationship that they add.
use laforge.Base.{
  ℕ, Bool, true, List, [], ◌∷◌, ◌++◌, ◌≡◌, sym, ap, subst, All, All-split, All-join, In, inl, inr,
}
use laforge.Metadata.GoPath.{FilePath}
use laforge.Build.{Environment, Build, Network, Host, Provisioner, hosts_of}
use laforge.Snapshot.Builder.{Call, object, relationship, Action, call, go, Walker}
use laforge.Snapshot.Walk.{
  Dependency, add_each, walk_host, walk_hosts, walk_networks, walk_environment,
}

module _ (stored : FilePath → Bool) where
  abbrev pub AddsIn : Call → Type 0
  AddsIn (object o) = stored o.path ≡ true
  AddsIn (relationship e) = Unit

  abbrev pub EndsIn : Call → Type 0
  EndsIn (object o) = Unit
  EndsIn (relationship e) = (stored e.source ≡ true) × (stored e.target ≡ true)

  abbrev pub InAction : (Call → Type 0) → Action → Type 0
  InAction P (call c) = P c
  InAction P (go calls) = All P calls

  -- If the objects of the calls are stored, so are the ends of their relationships.
  abbrev pub IsClosed : List Call → Type 0
  IsClosed calls = All AddsIn calls → All EndsIn calls

  abbrev pub IsClosedWalk : Walker → Type 0
  IsClosedWalk w = All (InAction AddsIn) w → All (InAction EndsIn) w

  pub IsClosed-append : (xs ys : List Call) → IsClosed xs → IsClosed ys → IsClosed (xs ++ ys)
  IsClosed-append xs ys cx cy h =
      let (hx, hy) = All-split AddsIn xs ys h in All-join EndsIn xs ys (cx hx) (cy hy)

  pub IsClosedWalk-append : (v w : Walker) → IsClosedWalk v → IsClosedWalk w → IsClosedWalk (v ++ w)
  IsClosedWalk-append v w cv cw h =
      let (hv, hw) = All-split (InAction AddsIn) v w h in
      All-join (InAction EndsIn) v w (cv hv) (cw hw)

  module _ (hash : Dependency → ℕ) where
    add_each-IsClosed :
        (h : Host) (xs : List (FilePath × Provisioner))
        → stored h.path ≡ true
        → IsClosed (add_each hash h xs)
    unfolding add_each
    add_each-IsClosed h [] sh a = tt
    add_each-IsClosed h ((name, x) ∷ xs) sh a = (tt, ((sh, a.0), add_each-IsClosed h xs sh a.1.1))

    walk_host-IsClosed : (h : Host) → stored h.path ≡ true → IsClosed (walk_host hash h)
    unfolding walk_host
    walk_host-IsClosed h sh =
        let scripts = add_each-IsClosed h h.scripts sh in
        let records = add_each-IsClosed h h.dns_records sh in
        let commands = add_each-IsClosed h h.commands sh in
        let files = add_each-IsClosed h h.remote_files sh in
        IsClosed-append _ (add_each hash h h.remote_files)
          (IsClosed-append _ (add_each hash h h.commands)
            (IsClosed-append _ (add_each hash h h.dns_records) scripts records) commands)
          files

    walk_hosts-IsClosed :
        (net : Network) (hosts : List Host)
        → stored net.path ≡ true
        → IsClosedWalk (walk_hosts hash net hosts)
    unfolding walk_hosts
    walk_hosts-IsClosed net [] sn a = tt
    walk_hosts-IsClosed net (h ∷ hosts) sn a = (
      tt,
      ((sn, a.0), (walk_host-IsClosed h a.0 a.1.1.0, walk_hosts-IsClosed net hosts sn a.1.1.1)),
    )

    walk_networks-IsClosed :
        (e : Environment) (b : Build) (networks : List (FilePath × Network))
        → stored b.id ≡ true
        → IsClosedWalk (walk_networks hash e b networks)
    unfolding walk_networks
    walk_networks-IsClosed e b [] sb a = tt
    walk_networks-IsClosed e b ((name, net) ∷ networks) sb a = (
      tt,
      (
        (sb, a.0),
        IsClosedWalk-append (walk_hosts hash net (hosts_of e net.path)) _
            (walk_hosts-IsClosed net (hosts_of e net.path) a.0)
            (walk_networks-IsClosed e b networks sb) a.1.1,
      ),
    )

    pub walk_environment-IsClosed :
        (e : Environment) (b : Build) → IsClosedWalk (walk_environment hash e b)
    unfolding walk_environment
    walk_environment-IsClosed e b a =
        (tt, (tt, ((a.0, a.1.0), walk_networks-IsClosed e b e.included_networks a.1.0 a.1.1.1)))

    -- What the walkers store of an included network and of its hosts.
    walk_hosts-In :
        (net : Network) (h : Host) (hosts : List Host)
        → In h hosts
        → All (InAction AddsIn) (walk_hosts hash net hosts)
        → stored h.path ≡ true
    unfolding walk_hosts
    walk_hosts-In net h [] i a = elim i [ ]
    walk_hosts-In net h (x ∷ xs) (inl e) a = subst (λ y. stored y.path ≡ true) (sym e) a.0
    walk_hosts-In net h (x ∷ xs) (inr i) a = walk_hosts-In net h xs i a.1.1.1

    walk_networks-In :
        (e : Environment) (b : Build) (name : FilePath) (net : Network)
        (networks : List (FilePath × Network))
        → In (name, net) networks
        → All (InAction AddsIn) (walk_networks hash e b networks)
        → (stored net.path ≡ true)
          × ((h : Host) → In h (hosts_of e net.path) → stored h.path ≡ true)
    unfolding walk_networks
    walk_networks-In e b name net [] i a = elim i [ ]
    walk_networks-In e b name net ((other, x) ∷ xs) (inl p) a =
        let q : net ≡ x = ap (λ y. y.1) p in
        let (hosts, rest) =
          All-split (InAction AddsIn) (walk_hosts hash x (hosts_of e x.path)) _ a.1.1 in
        subst
          (λ y.
            (stored y.path ≡ true) × ((h : Host) → In h (hosts_of e y.path) → stored h.path ≡ true))
          (sym q) (a.0, λ h i. walk_hosts-In x h (hosts_of e x.path) i hosts)
    walk_networks-In e b name net ((other, x) ∷ xs) (inr i) a =
        let (hosts, rest) =
          All-split (InAction AddsIn) (walk_hosts hash x (hosts_of e x.path)) _ a.1.1 in
        walk_networks-In e b name net xs i rest

    pub walk_environment-In :
        (e : Environment) (b : Build) (name : FilePath) (net : Network)
        → In (name, net) e.included_networks
        → All (InAction AddsIn) (walk_environment hash e b)
        → (stored net.path ≡ true)
          × ((h : Host) → In h (hosts_of e net.path) → stored h.path ≡ true)
    unfolding walk_environment
    walk_environment-In e b name net i a =
        walk_networks-In e b name net e.included_networks i a.1.1.1
