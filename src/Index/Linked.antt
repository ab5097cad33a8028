-- ===== src/Index/Linked.antt =====
-- After the indexing of core/base.go every object of a build points to the objects whose IDs are above
-- its own.
use laforge.Base.{Option, none, some, List, ◌≡◌, refl, sym, ap, subst, All}
use laforge.Base.Eq.{path_eq}
use laforge.Base.Assoc.{lookup}
use laforge.Metadata.GoPath.{FilePath}
use laforge.Metadata.Ids.{
  build_parent_id, team_parent_id, network_parent_id, host_parent_id, step_parent_id,
  connection_parent_id,
}
use laforge.Index.{
  Object, Objects, Links, Laforge, Indexed, indexed, missing, unknown_type, nil_map, located,
  store_child, store_in, of_host, build_linking, team_linking, network_linking, host_linking,
  connection_linking, step_linking, find_provisioner, make_map,
}
use laforge.Index.Loop.{IsSound, >>=-eq-indexed}

-- The objects above a build, a team, and so on, by the ID.
abbrev pub BuildLinks : FilePath → Links → Type 0
BuildLinks k l = l.environment ≡ some (build_parent_id k)

abbrev pub TeamLinks : FilePath → Links → Type 0
TeamLinks k l = (l.build ≡ some (team_parent_id k)) × BuildLinks (team_parent_id k) l

abbrev pub NetworkLinks : FilePath → Links → Type 0
NetworkLinks k l = (l.team ≡ some (network_parent_id k)) × TeamLinks (network_parent_id k) l

abbrev pub HostLinks : FilePath → Links → Type 0
HostLinks k l =
    (l.provisioned_network ≡ some (host_parent_id k)) × NetworkLinks (host_parent_id k) l

-- What connections and steps point to, by the ID of their host.
abbrev pub OfHostLinks : FilePath → Links → Type 0
OfHostLinks k l = (l.provisioned_host ≡ some k) × HostLinks k l

-- The keys are the IDs.
abbrev pub Keyed : Objects → Type 0
Keyed = All (λ e. e.1.id ≡ e.0)

-- A predicate on the object, if there is one.
abbrev GivesObject : (Object → Type 0) → Indexed Object → Type 0
GivesObject P (indexed x) = P x
GivesObject P (missing id) = Unit
GivesObject P unknown_type = Unit
GivesObject P nil_map = Unit

store_in-links :
    (id child : FilePath) (p : Object) (m : Option (List (FilePath × FilePath)))
    → GivesObject (λ y. y.links ≡ p.links) (store_in id child p m)
unfolding store_in
store_in-links id child p none = tt
store_in-links id child p (some m) = refl

-- Storing a child leaves the links of the parent as they are.
store_child-links :
    (Q : Links → Type 0) (id child : FilePath) (p p' : Object)
    → Q p.links
    → store_child id child p ≡ indexed p'
    → Q p'.links
unfolding store_child
store_child-links Q id child p p' q e =
    let kept : p'.links ≡ p.links =
      subst (GivesObject (λ y. y.links ≡ p.links)) e (store_in-links id child p p.children) in
    subst Q (sym kept) q

pub build_linking-IsSound : IsSound build_linking (λ k b. BuildLinks k b.links) (λ k e. Unit)
unfolding build_linking make_map
build_linking-IsSound = record {
  adopted = λ key pk x p p' h e. tt;
  attached = λ key x p x' id h e.
      subst (GivesObject (λ y. BuildLinks key y.links)) e (ap (λ i. some (build_parent_id i)) id);
}

pub team_linking-IsSound :
    IsSound team_linking (λ k t. TeamLinks k t.links) (λ k b. BuildLinks k b.links)
unfolding team_linking make_map
team_linking-IsSound = record {
  adopted = λ key pk x p p' h e. subst (GivesObject (λ y. BuildLinks pk y.links)) e h;
  attached = λ key x p x' id h e. subst (GivesObject (λ y. TeamLinks key y.links)) e (
    ap (λ i. some (team_parent_id i)) id,
    subst (λ i. BuildLinks (team_parent_id i) p.links) id h,
  );
}

pub network_linking-IsSound :
    (networks : List (FilePath × FilePath))
    → IsSound
        (network_linking networks)
        (λ k n. NetworkLinks k n.links)
        (λ k t. TeamLinks k t.links)
unfolding network_linking make_map
network_linking-IsSound networks = record {
  adopted = λ key pk x p p' h e. store_child-links (TeamLinks pk) x.id key p p' h e;
  attached = λ key x p x' id h e.
      let (network, e1, e2) =
        >>=-eq-indexed (located x.global_id (lookup x.global_id networks)) _ e in
      subst (GivesObject (λ y. NetworkLinks key y.links)) e2 (
        ap (λ i. some (network_parent_id i)) id,
        subst (λ i. TeamLinks (network_parent_id i) p.links) id h,
      );
}

pub host_linking-IsSound :
    (hosts : List (FilePath × FilePath))
    → IsSound (host_linking hosts) (λ k h. HostLinks k h.links) (λ k n. NetworkLinks k n.links)
unfolding host_linking make_map
host_linking-IsSound hosts = record {
  adopted = λ key pk x p p' h e. store_child-links (NetworkLinks pk) x.id key p p' h e;
  attached = λ key x p x' id h e.
      let (host, e1, e2) = >>=-eq-indexed (located x.global_id (lookup x.global_id hosts)) _ e in
      subst (GivesObject (λ y. HostLinks key y.links)) e2 (
        ap (λ i. some (host_parent_id i)) id,
        subst (λ i. NetworkLinks (host_parent_id i) p.links) id h,
      );
}

pub connection_linking-IsSound :
    IsSound connection_linking
      (λ k c. OfHostLinks (connection_parent_id k) c.links)
      (λ k h. HostLinks k h.links)
unfolding connection_linking of_host
connection_linking-IsSound = record {
  adopted = λ key pk x p p' h e. subst (GivesObject (λ y. HostLinks pk y.links)) e h;
  attached = λ key x p x' id h e.
      subst (GivesObject (λ y. OfHostLinks (connection_parent_id key) y.links)) e (
        ap (λ i. some (connection_parent_id i)) id,
        subst (λ i. HostLinks (connection_parent_id i) p.links) id h,
      );
}

pub step_linking-IsSound :
    (l : Laforge)
    → IsSound
        (step_linking l)
        (λ k s. OfHostLinks (step_parent_id k) s.links)
        (λ k h. HostLinks k h.links)
unfolding step_linking of_host
step_linking-IsSound l = record {
  adopted = λ key pk x p p' h e. store_child-links (HostLinks pk) x.id key p p' h e;
  attached = λ key x p x' id h e.
      let (prov, e1, e2) = >>=-eq-indexed (find_provisioner l x.global_id x.provisioner_type) _ e in
      subst (GivesObject (λ y. OfHostLinks (step_parent_id key) y.links)) e2 (
        ap (λ i. some (step_parent_id i)) id,
        subst (λ i. HostLinks (step_parent_id i) p.links) id h,
      );
}
