-- ===== src/Included/Resolves.antt =====
-- When `ResolveIncludedNetworks` of core/environment.go has no error.
use laforge.Base.{
  ℕ, Bool, true, false, ◌&&◌, not, none, List, [], ◌∷◌, ◌≡◌, ◌↔◌, refl, ap, ◌∙◌, subst, arith, All,
  Bool-cases, inl, inr, if◌then◌else◌,
}
use laforge.Base.Eq.{path_eq, path_same, path_same_iff}
use laforge.Base.Any.{any}
use laforge.Base.Assoc.{lookup, has_key, same_refl}
use laforge.Metadata.GoPath.{FilePath}
use laforge.Included.{
  IncludedNetwork, Pointers, Environment, found, no_network, mark_networks, mark_all_hosts,
  empty_lists, pending, resolve, gather_all, first_included, resolve_included_networks,
}
use laforge.Included.Pending.{
  pending-resolve, lookup-resolve, pending-mark_networks, pending-mark_all_hosts, is_network,
  is_host_of, mark_networks-Unique, mark_all_hosts-Unique, resolve-Unique, first_included-none,
  none-first_included,
}
use laforge.Included.Gather.{
  >>=-eq-found, none_left-eq-found, Indexes, AllIndex, gather_all-AllIndex, AllIndex-gather_all,
}

module _ (indexes : ℕ → Bool) where
  -- The hosts that are found are those of the base configuration.
  lookup-included :
      (hosts : Pointers) (networks : List IncludedNetwork) (h : FilePath)
      → lookup h (resolve hosts (mark_all_hosts networks [], [])).1
        ≡ (if any (is_host_of h) networks && has_key h hosts then lookup h hosts else none)
  unfolding lookup
  lookup-included hosts networks h =
      lookup-resolve h hosts (mark_all_hosts networks [], [])
      ∙ ap (λ b. if b && has_key h hosts then lookup h hosts else none)
          (pending-mark_all_hosts h networks [] ∙ ground arith)

  -- A host that is found is one of the base configuration, and so can be indexed there.
  from_included :
      (hosts : Pointers) (networks : List IncludedNetwork) (h : FilePath)
      → Indexes indexes (resolve hosts (mark_all_hosts networks [], [])).1 h
      → Indexes indexes hosts h
  from_included hosts networks h (p, l, i) =
      (p, ground (arith, lookup-included hosts networks h, l), i)

  to_included :
      (hosts : Pointers) (networks : List IncludedNetwork) (h : FilePath)
      → any (is_host_of h) networks ≡ true
      → Indexes indexes hosts h
      → Indexes indexes (resolve hosts (mark_all_hosts networks [], [])).1 h
  to_included hosts networks h a (p, l, i) =
      (p, ground (arith, lookup-included hosts networks h, l, a), i)

  module _ (P Q : FilePath → Type 0) where
    hosts_map :
        (hs : List FilePath)
        → ((h : FilePath) → any (λ x. path_same x h) hs ≡ true → P h → Q h)
        → All P hs
        → All Q hs
    unfolding any
    hosts_map [] f a = tt
    hosts_map (h ∷ hs) f (p, a) =
        (f h (ground (arith, same_refl h)) p, hosts_map hs (λ k i. f k (ground (arith, i))) a)

    networks_map :
        (networks : List IncludedNetwork)
        → ((h : FilePath) → any (is_host_of h) networks ≡ true → P h → Q h)
        → All (λ n. All P n.hosts) networks
        → All (λ n. All Q n.hosts) networks
    unfolding any
    networks_map [] f a = tt
    networks_map (n ∷ networks) f (p, a) = (
      hosts_map n.hosts (λ h i. f h (ground (arith, i))) p,
      networks_map networks (λ h i. f h (ground (arith, i))) a,
    )

  -- All included networks are in the map.
  abbrev pub AllKnown : Pointers → List IncludedNetwork → Type 0
  AllKnown networks = All (λ n. has_key n.name networks ≡ true)

  known_all :
      (networks : Pointers) (ns : List IncludedNetwork)
      → ((k : FilePath) → is_network k ns ≡ true → has_key k networks ≡ true)
      → AllKnown networks ns
  unfolding any
  known_all networks [] f = tt
  known_all networks (n ∷ ns) f = (
    f n.name (ground (arith, same_refl n.name)),
    known_all networks ns (λ k i. f k (ground (arith, i))),
  )

  all_known :
      (networks : Pointers) (ns : List IncludedNetwork) (k : FilePath)
      → AllKnown networks ns
      → is_network k ns ≡ true
      → has_key k networks ≡ true
  unfolding any
  all_known networks [] k a i = ground (arith, i)
  all_known networks (n ∷ ns) k (p, a) i = elim (Bool-cases (path_same n.name k)) [
    | inl e ↦ subst (λ j. has_key j networks ≡ true) ((path_same_iff n.name k).0 e) p
    | inr e ↦ all_known networks ns k a (ground (arith, e, i))
  ]

  index_of_host :
      (hosts : Pointers) (hs : List FilePath) (h : FilePath)
      → All (Indexes indexes hosts) hs
      → any (λ x. path_same x h) hs ≡ true
      → Indexes indexes hosts h
  unfolding any
  index_of_host hosts [] h a i = ground (arith, i)
  index_of_host hosts (x ∷ hs) h (p, a) i = elim (Bool-cases (path_same x h)) [
    | inl e ↦ subst (Indexes indexes hosts) ((path_same_iff x h).0 e) p
    | inr e ↦ index_of_host hosts hs h a (ground (arith, e, i))
  ]

  index_of :
      (hosts : Pointers) (networks : List IncludedNetwork) (h : FilePath)
      → AllIndex indexes hosts networks
      → any (is_host_of h) networks ≡ true
      → Indexes indexes hosts h
  unfolding any
  index_of hosts [] h a i = ground (arith, i)
  index_of hosts (n ∷ networks) h (p, a) i = elim (Bool-cases (is_host_of h n)) [
    | inl e ↦ index_of_host hosts n.hosts h p e
    | inr e ↦ index_of hosts networks h a (ground (arith, e, i))
  ]

  host_known :
      (hosts : Pointers) (networks : List IncludedNetwork) (h : FilePath)
      → AllIndex indexes hosts networks
      → any (is_host_of h) networks ≡ true
      → has_key h hosts ≡ true
  host_known hosts networks h a i =
      let (p, l, ok) = index_of hosts networks h a i in ground (arith, l)

  nothing_pending : (k : FilePath) → pending k [] ≡ false
  unfolding lookup
  nothing_pending k = refl

  -- The networks that are still to be found after the loop over those of the base configuration.
  network_pending :
      (networks : Pointers) (ns : List IncludedNetwork) (k : FilePath)
      → pending k (resolve networks (mark_networks ns [], [])).0
        ≡ (is_network k ns && not (has_key k networks))
  network_pending networks ns k =
      pending-resolve k networks (mark_networks ns [], [])
      ∙ ground (arith, pending-mark_networks k ns [], nothing_pending k)

  host_pending :
      (hosts : Pointers) (ns : List IncludedNetwork) (k : FilePath)
      → pending k (resolve hosts (mark_all_hosts ns [], [])).0
        ≡ (any (is_host_of k) ns && not (has_key k hosts))
  host_pending hosts ns k =
      pending-resolve k hosts (mark_all_hosts ns [], [])
      ∙ ground (arith, pending-mark_all_hosts k ns [], nothing_pending k)

  no_network_left :
      (networks : Pointers) (ns : List IncludedNetwork)
      → AllKnown networks ns
      → first_included (resolve networks (mark_networks ns [], [])).0 ≡ none
  no_network_left networks ns a =
      none-first_included (resolve networks (mark_networks ns [], [])).0
        (resolve-Unique networks (mark_networks ns [], []) (mark_networks-Unique ns [] tt))
        (λ k. ground (arith, network_pending networks ns k, all_known networks ns k a))

  no_host_left :
      (hosts : Pointers) (ns : List IncludedNetwork)
      → AllIndex indexes hosts ns
      → first_included (resolve hosts (mark_all_hosts ns [], [])).0 ≡ none
  no_host_left hosts ns a =
      none-first_included (resolve hosts (mark_all_hosts ns [], [])).0
        (resolve-Unique hosts (mark_all_hosts ns [], []) (mark_all_hosts-Unique ns [] tt))
        (λ k. ground (arith, host_pending hosts ns k, host_known hosts ns k a))

  -- `ResolveIncludedNetworks` has no error exactly when every included network is in the base
  -- configuration and every host of an included network is there and can be indexed.
  pub resolve_included_networks-found :
      (networks hosts : Pointers) (e : Environment)
      → ((e' : Environment) × (resolve_included_networks indexes networks hosts e ≡ found e'))
        ↔ (AllKnown networks e.networks × AllIndex indexes hosts e.networks)
  unfolding resolve_included_networks
  resolve_included_networks-found networks hosts e =
      let inet = (resolve networks (mark_networks e.networks [], [])).0 in
      let own = (resolve hosts (mark_all_hosts e.networks [], [])).1 in
      (
        λ (e', h).
            let (m', e1, e2) =
              >>=-eq-found (gather_all indexes own e.networks (empty_lists e.networks [])) _ h in
            let (none_pending, e3) =
              none_left-eq-found no_network (first_included inet) _ e' (λ k q. cc) e2 in
            (
              known_all networks e.networks (λ k i. ground (
                arith,
                i,
                first_included-none inet k none_pending,
                network_pending networks e.networks k,
              )),
              networks_map (Indexes indexes own) (Indexes indexes hosts) e.networks
                  (λ k i p. from_included hosts e.networks k p)
                  (gather_all-AllIndex indexes own e.networks (empty_lists e.networks []) m' e1),
            ),
        λ (k, a).
            let (m', e1) = AllIndex-gather_all indexes own e.networks (empty_lists e.networks []) (
              networks_map (Indexes indexes hosts) (Indexes indexes own) e.networks
                (λ h i p. to_included hosts e.networks h i p) a) in
            (
              record e {
                included_networks = (resolve networks (mark_networks e.networks [], [])).1;
                included_hosts = own;
                host_by_network = m';
              },
              rw (e1, no_network_left networks e.networks k, no_host_left hosts e.networks a) refl,
            ),
      )
