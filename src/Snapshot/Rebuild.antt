-- ===== src/Snapshot/Rebuild.antt =====
-- `RebuildGraph` of core/snapshot.go, against the graph that the workers build.
use laforge.Base.{
  ◌↔◌, true, false, ◌||◌, List, [], ◌∷◌, ◌≡◌, refl, sym, ◌∙◌, subst, arith, Bool-cases, inl, inr,
}
use laforge.Base.Eq.{path_same, path_same_iff, path_eq}
use laforge.Base.Any.{any}
use laforge.Base.Assoc.{has_key, insert, lookup}
use laforge.Metadata.GoPath.{FilePath}
use laforge.Snapshot.Library.{GraphLibrary, Edge, Leads, Leads-mono, IsAcyclic}
use laforge.Snapshot.{
  Snapshot, root, rebuild_graph, add_all, connect_all, Metadata, store_metadata, populate_graph,
  relate_objects, store_received, add_received, relate_received, relate_v2, add_object,
  add_relationship, new_empty_snapshot,
}
use laforge.Snapshot.Builder.{
  Walker, Call, object, relationship, run_call, Run, done, start, Reach, here, next, Step, walk,
  spawn, store, populate, receive, relate, walked, stored, populated, related, finish_graph,
}
use laforge.Snapshot.Tracked.{asks_object, asks_edge, is_edge}
use laforge.Snapshot.Links.{touches_root}
use laforge.Snapshot.Account.{wants}
use laforge.Snapshot.Complete.{IsSnapshotOf, done-IsSnapshotOf}

-- Each object is stored under its ID.
abbrev pub KeyedById : List (FilePath × Metadata) → Type 0
KeyedById [] = Unit
KeyedById ((id, m) ∷ metastore) = (m.id ≡ id) × KeyedById metastore

insert-KeyedById :
    (m : Metadata) (metastore : List (FilePath × Metadata))
    → KeyedById metastore
    → KeyedById (insert m.id m metastore)
unfolding insert
insert-KeyedById m [] k = (refl, tt)
insert-KeyedById m ((id, old) ∷ metastore) k = elim (Bool-cases (path_same id m.id)) [
  | inl e ↦ rw e (sym ((path_same_iff id m.id).0 e), k.1)
  | inr e ↦ rw e (k.0, insert-KeyedById m metastore k.1)
]

module _ (lib : GraphLibrary) where
  store_received-KeyedById :
      (bus : List Metadata) (s : Snapshot lib)
      → KeyedById s.metastore
      → KeyedById (store_received lib bus s).metastore
  unfolding store_received
  store_received-KeyedById [] s k = k
  store_received-KeyedById (m ∷ ms) s k = insert-KeyedById m s.metastore k

  add_received-metastore :
      (bus : List Metadata) (s : Snapshot lib) → (add_received lib bus s).metastore ≡ s.metastore
  unfolding add_received
  add_received-metastore [] s = refl
  add_received-metastore (m ∷ ms) s = refl

  relate_received-metastore :
      (bus : List Edge) (s : Snapshot lib) → (relate_received lib bus s).metastore ≡ s.metastore
  unfolding relate_received relate_v2
  relate_received-metastore [] s = refl
  relate_received-metastore (e ∷ es) s = ground arith

  run_call-metastore : (c : Call) (s : Snapshot lib) → (run_call lib c s).metastore ≡ s.metastore
  unfolding run_call add_object add_relationship
  run_call-metastore (object dep) s = ground arith
  run_call-metastore (relationship e) s = refl

  Step-KeyedById :
      {r t : Run lib}
      → Step lib r t
      → KeyedById r.snapshot.metastore
      → KeyedById t.snapshot.metastore
  unfolding store_metadata populate_graph relate_objects
  Step-KeyedById {r} (walk before after c rest w q) k =
      subst KeyedById (sym (run_call-metastore c r.snapshot)) k
  Step-KeyedById (spawn before after calls rest w) k = k
  Step-KeyedById {r} (store g q) k = store_received-KeyedById r.snapshot.metabus r.snapshot k
  Step-KeyedById {r} (populate g) k =
      subst KeyedById (sym (add_received-metastore r.snapshot.nodebus r.snapshot)) k
  Step-KeyedById (receive g p e) k = k
  Step-KeyedById {r} (relate g p q) k =
      subst KeyedById (sym (relate_received-metastore r.snapshot.edgebus r.snapshot)) k
  Step-KeyedById (walked p e) k = k
  Step-KeyedById (stored p e) k = k
  Step-KeyedById (populated p e) k = k
  Step-KeyedById (related p e) k = k

  Reach-KeyedById :
      {walkers : List Walker} {r : Run lib}
      → Reach lib (start lib walkers) r
      → KeyedById r.snapshot.metastore
  unfolding new_empty_snapshot
  Reach-KeyedById here = tt
  Reach-KeyedById (next reach step) = Step-KeyedById step (Reach-KeyedById reach)

  has_vertex-connect_all :
      (i : FilePath) (es : List Edge) (g : lib.Graph)
      → lib.has_vertex i (connect_all lib es g) ≡ lib.has_vertex i g
  unfolding connect_all
  has_vertex-connect_all i [] g = refl
  has_vertex-connect_all i (e ∷ es) g =
      has_vertex-connect_all i es (lib.connect e g) ∙ lib.has_vertex-connect i e g

  has_edge-connect_all :
      (f : Edge) (es : List Edge) (g : lib.Graph)
      → lib.has_edge f (connect_all lib es g) ≡ (any (is_edge f) es || lib.has_edge f g)
  unfolding connect_all any
  has_edge-connect_all f [] g = refl
  has_edge-connect_all f (e ∷ es) g =
      ground (arith, has_edge-connect_all f es (lib.connect e g), lib.has_edge-connect f e g)

  has_vertex-add_all :
      (i : FilePath) (metastore : List (FilePath × Metadata)) (g : lib.Graph)
      → KeyedById metastore
      → lib.has_vertex i (add_all lib metastore g) ≡ (has_key i metastore || lib.has_vertex i g)
  unfolding add_all lookup
  has_vertex-add_all i [] g k = refl
  has_vertex-add_all i ((id, m) ∷ metastore) g k =
      has_vertex-add_all i metastore (lib.add m.id g) k.1
      ∙ rw (k.0) (simp lib.has_vertex-add (ground arith))

  has_edge-add_all :
      (f : Edge) (metastore : List (FilePath × Metadata)) (g : lib.Graph)
      → lib.has_edge f (add_all lib metastore g) ≡ lib.has_edge f g
  unfolding add_all
  has_edge-add_all f [] g = refl
  has_edge-add_all f ((id, m) ∷ metastore) g =
      has_edge-add_all f metastore (lib.add m.id g) ∙ lib.has_edge-add f m.id g

  rebuild_graph-vertices :
      (walkers : List Walker) (r : Run lib) (i : FilePath)
      → Reach lib (start lib walkers) r
      → IsSnapshotOf lib walkers (finish_graph lib r.snapshot)
      → lib.has_vertex i (rebuild_graph lib (finish_graph lib r.snapshot)).alt_graph
        ≡ wants (asks_object i) walkers
  unfolding rebuild_graph finish_graph
  rebuild_graph-vertices walkers r i reach whole =
      has_vertex-connect_all i (lib.iter r.snapshot.edges)
        (add_all lib r.snapshot.metastore lib.empty)
      ∙ has_vertex-add_all i r.snapshot.metastore lib.empty (Reach-KeyedById reach)
      ∙ ground (arith, lib.has_vertex-empty i, whole.stored i)

  rebuild_graph-edges :
      (walkers : List Walker) (s : Snapshot lib) (f : Edge)
      → IsSnapshotOf lib walkers s
      → lib.has_edge f (rebuild_graph lib s).alt_graph ≡ wants (asks_edge f) walkers
  unfolding rebuild_graph
  rebuild_graph-edges walkers s f whole =
      has_edge-connect_all f (lib.iter s.edges) (add_all lib s.metastore lib.empty)
      ∙ ground (
        arith,
        lib.has_edge-empty f,
        has_edge-add_all f s.metastore lib.empty,
        lib.contains-iter f s.edges,
        whole.related f,
      )

  -- What `RebuildGraph` makes of the store and the set of edges of a finished snapshot, against the
  -- graph of that snapshot.
  pub record IsRebuilt (s t : Snapshot lib) : Type 0 where
    pub vertices : (i : FilePath) → lib.has_vertex i t.alt_graph ≡ lib.has_vertex i s.alt_graph
    pub edges : (f : Edge) → lib.has_edge f t.alt_graph ≡ lib.contains f s.edges
    pub kept : (f : Edge) → lib.has_edge f s.alt_graph ≡ true → lib.has_edge f t.alt_graph ≡ true
    pub leads :
        (i j : FilePath)
        → Leads (λ f. lib.has_edge f t.alt_graph) i j ↔ Leads (λ f. lib.has_edge f s.alt_graph) i j

  -- From the store and the set of edges of a finished snapshot in memory, `RebuildGraph` makes a graph
  -- with the vertices of the snapshot's reduced graph and with its ways: its edges are those of the
  -- set, among them all of the reduced graph; if the relationships have no cycle and nothing is named
  -- "root".
  pub rebuild_graph-IsRebuilt :
      (walkers : List Walker) (r : Run lib)
      → Reach lib (start lib walkers) r
      → r.phase ≡ done
      → wants (asks_object root) walkers ≡ false
      → ((f : Edge) → touches_root f ≡ true → wants (asks_edge f) walkers ≡ false)
      → IsAcyclic (λ f. wants (asks_edge f) walkers)
      → IsRebuilt (finish_graph lib r.snapshot) (rebuild_graph lib (finish_graph lib r.snapshot))
  rebuild_graph-IsRebuilt walkers r reach p no_root no_root_edge acyclic =
      let whole = done-IsSnapshotOf lib walkers reach p no_root no_root_edge acyclic in
      let exact = λ (f : Edge). rebuild_graph-edges walkers (finish_graph lib r.snapshot) f whole in
      record {
        vertices = λ i. rebuild_graph-vertices walkers r i reach whole ∙ sym (whole.vertices i);
        edges = λ f. exact f ∙ sym (whole.related f);
        kept = λ f h. exact f ∙ whole.linked f h;
        leads = λ i j. (
          λ l. (whole.leads i j).1 (Leads-mono (λ f h. sym (exact f) ∙ h) l),
          λ l. Leads-mono (λ f h. exact f ∙ h) ((whole.leads i j).0 l),
        );
      }
