-- ===== src/Included/Contents.antt =====
-- What `ResolveIncludedNetworks` of core/environment.go stores in the environment.
use laforge.Base.{
  ℕ, Bool, true, false, ◌&&◌, Option, none, some, List, [], ◌≡◌, refl, ap, ◌∙◌, subst, arith,
  if◌then◌else◌,
}
use laforge.Base.Eq.{path_eq}
use laforge.Base.Any.{any}
use laforge.Base.Assoc.{lookup, has_key}
use laforge.Metadata.GoPath.{FilePath}
use laforge.Included.{
  IncludedNetwork, Pointers, Environment, Resolution, found, unknown_host, index_failed, no_network,
  no_host, mark_networks, mark_all_hosts, empty_lists, resolve, gather_all, first_included,
  resolve_included_networks,
}
use laforge.Included.Pending.{
  lookup-resolve, pending-mark_networks, pending-mark_all_hosts, is_network, is_host_of,
}
use laforge.Included.Gather.{>>=-eq-found, none_left-eq-found}

-- A predicate on the environment, if there is no error.
abbrev Gives : (Environment → Type 0) → Resolution Environment → Type 0
Gives P (found e) = P e
Gives P (unknown_host h) = Unit
Gives P (index_failed h) = Unit
Gives P (no_network n) = Unit
Gives P (no_host h) = Unit

-- Absent objects and unwanted ones are both left out.
found_if :
    (wanted : Bool) (o : Option ℕ)
    → (if wanted && elim o [ none ↦ false | some p ↦ true ] then o else none)
      ≡ (if wanted then o else none)
found_if true none = refl
found_if true (some p) = refl
found_if false o = refl

networks_found :
    (networks : Pointers) (ns : List IncludedNetwork) (k : FilePath)
    → lookup k (resolve networks (mark_networks ns [], [])).1
      ≡ (if is_network k ns then lookup k networks else none)
unfolding lookup
networks_found networks ns k =
    lookup-resolve k networks (mark_networks ns [], [])
    ∙ ap (λ b. if b && has_key k networks then lookup k networks else none)
        (pending-mark_networks k ns [] ∙ ground arith)
    ∙ found_if (is_network k ns) (lookup k networks)

hosts_found :
    (hosts : Pointers) (ns : List IncludedNetwork) (k : FilePath)
    → lookup k (resolve hosts (mark_all_hosts ns [], [])).1
      ≡ (if any (is_host_of k) ns then lookup k hosts else none)
unfolding lookup
hosts_found hosts ns k =
    lookup-resolve k hosts (mark_all_hosts ns [], [])
    ∙ ap (λ b. if b && has_key k hosts then lookup k hosts else none)
        (pending-mark_all_hosts k ns [] ∙ ground arith)
    ∙ found_if (any (is_host_of k) ns) (lookup k hosts)

-- The maps of the environment, by what it includes.
abbrev pub HasIncluded : Pointers → Pointers → Environment → Environment → Type 0
HasIncluded networks hosts e e' =
    (e'.networks ≡ e.networks)
    × ((k : FilePath)
        → lookup k e'.included_networks
          ≡ (if is_network k e.networks then lookup k networks else none))
    × ((k : FilePath)
        → lookup k e'.included_hosts
          ≡ (if any (is_host_of k) e.networks then lookup k hosts else none))

-- When `ResolveIncludedNetworks` has no error, the included networks and hosts of the environment are
-- exactly those of the base configuration that its blocks name.
pub resolve_included_networks-HasIncluded :
    (indexes : ℕ → Bool) (networks hosts : Pointers) (e e' : Environment)
    → resolve_included_networks indexes networks hosts e ≡ found e'
    → HasIncluded networks hosts e e'
unfolding resolve_included_networks
resolve_included_networks-HasIncluded indexes networks hosts e e' h =
    let inet = (resolve networks (mark_networks e.networks [], [])).0 in
    let (ihost, own) = resolve hosts (mark_all_hosts e.networks [], []) in
    let (m', e1, e2) =
      >>=-eq-found (gather_all indexes own e.networks (empty_lists e.networks [])) _ h in
    let (n1, e3) = none_left-eq-found no_network (first_included inet) _ e' (λ k q. cc) e2 in
    let (n2, e4) = none_left-eq-found no_host (first_included ihost) _ e' (λ k q. cc) e3 in
    subst (Gives (HasIncluded networks hosts e)) e4
      (refl, networks_found networks e.networks, hosts_found hosts e.networks)
