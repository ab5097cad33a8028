-- ===== src/Snapshot/Complete.antt =====
-- What a snapshot holds when the workers of `NewSnapshotFromEnv` have ended, for every interleaving
-- of the goroutines.
use laforge.Base.{Bool, ◌↔◌, sym, ◌∙◌, true, false, ◌||◌, List, ◌≡◌, ap, arith, ◌≤◌}
use laforge.Base.Eq.{path_same, path_same_iff, path_eq}
use laforge.Base.Any.{any}
use laforge.Base.Assoc.{has_key}
use laforge.Metadata.GoPath.{FilePath}
use laforge.Snapshot.Library.{GraphLibrary, Edge, Leads, Leads-mono, IsAcyclic}
use laforge.Snapshot.{Snapshot, root}
use laforge.Snapshot.Builder.{Walker, Run, done, start, Reach, here, next, finish_graph}
use laforge.Snapshot.Tracked.{asks_object, asks_edge, names, is_edge}
use laforge.Snapshot.Links.{touches_root}
use laforge.Snapshot.Drained.{IsDrained, Step-IsDrained, stage}
use laforge.Snapshot.Account.{wants, wants-finished, Reach-IsAccount}

module _ (lib : GraphLibrary) (walkers : List Walker) where
  -- The store holds the objects that the walkers add and no others, the graph has them as its
  -- vertices, the set has the relationships that the walkers add, and the graph leads from one object
  -- to another exactly where these do, by edges that are among them.
  pub record IsSnapshotOf (s : Snapshot lib) : Type 0 where
    pub stored : (i : FilePath) → has_key i s.metastore ≡ wants (asks_object i) walkers
    pub vertices : (i : FilePath) → lib.has_vertex i s.alt_graph ≡ wants (asks_object i) walkers
    pub related : (f : Edge) → lib.contains f s.edges ≡ wants (asks_edge f) walkers
    pub linked : (f : Edge) → lib.has_edge f s.alt_graph ≡ true → wants (asks_edge f) walkers ≡ true
    pub leads :
        (i j : FilePath)
        → Leads (λ f. lib.has_edge f s.alt_graph) i j ↔ Leads (λ f. wants (asks_edge f) walkers) i j

  pub Leads-iff :
      {p q : Edge → Bool} {i j : FilePath} → ((f : Edge) → p f ≡ q f) → Leads p i j ↔ Leads q i j
  Leads-iff h = (Leads-mono (λ f e. sym (h f) ∙ e), Leads-mono (λ f e. h f ∙ e))

  start-IsDrained : IsDrained lib (start lib walkers)
  start-IsDrained = record {
    walkers = λ h. ground arith;
    metabus = λ h. ground arith;
    nodebus = λ h. ground arith;
    edgebus = λ h. ground arith;
  }

  pub Reach-IsDrained : {r : Run lib} → Reach lib (start lib walkers) r → IsDrained lib r
  Reach-IsDrained here = start-IsDrained
  Reach-IsDrained (next reach step) = Step-IsDrained lib step (Reach-IsDrained reach)

  -- At the end nothing is on its way.
  pub object_done :
      {r : Run lib} (i : FilePath)
      → Reach lib (start lib walkers) r
      → 3 ≤ stage r.phase
      → (has_key i r.snapshot.metastore ≡ wants (asks_object i) walkers)
        × (lib.has_vertex i r.snapshot.alt_graph
            ≡ (path_same root i || wants (asks_object i) walkers))
  unfolding any
  object_done {r} i reach h =
      let drained = Reach-IsDrained reach in
      let account = Reach-IsAccount lib walkers i (record { source = i; target = i }) reach in
      let none_left = wants-finished (asks_object i) r.walkers (drained.walkers (omega arith)) in
      let no_metadata = ap (any (names i)) (drained.metabus (omega arith)) in
      let no_nodes = ap (any (names i)) (drained.nodebus h) in
      (
        ground (arith, account.objects, none_left, no_metadata),
        ground (arith, account.objects, account.balanced, none_left, no_metadata, no_nodes),
      )

  edge_done :
      {r : Run lib} (f : Edge)
      → Reach lib (start lib walkers) r
      → 4 ≤ stage r.phase
      → lib.contains f r.snapshot.edges ≡ wants (asks_edge f) walkers
  unfolding any
  edge_done {r} f reach h =
      let drained = Reach-IsDrained reach in
      let account = Reach-IsAccount lib walkers root f reach in
      let none_left = wants-finished (asks_edge f) r.walkers (drained.walkers (omega arith)) in
      let no_edges = ap (any (is_edge f)) (drained.edgebus h) in
      ground (arith, account.edges, none_left, no_edges)

  -- Without the root the graph has the requested relationships as its edges.
  rootless_edges :
      {r : Run lib} (f : Edge)
      → Reach lib (start lib walkers) r
      → r.phase ≡ done
      → (touches_root f ≡ true → wants (asks_edge f) walkers ≡ false)
      → lib.has_edge f (lib.remove root r.snapshot.alt_graph) ≡ wants (asks_edge f) walkers
  rootless_edges {r} f reach p no_root_edge =
      let last = ap stage p in
      simp lib.has_edge-remove (
        ground (
          arith,
          (Reach-IsAccount lib walkers root f reach).linked,
          edge_done f reach (omega arith),
          no_root_edge,
        ))

  -- When the last worker has ended, the root has been removed and the graph reduced, then whatever the
  -- order of the goroutines the store and the vertices are exactly the objects that the walkers add,
  -- the set has exactly their relationships, and the graph leads where these lead, by edges that are
  -- among them; if the relationships have no cycle and no object and no end of a relationship is
  -- named "root".
  pub done-IsSnapshotOf :
      {r : Run lib}
      → Reach lib (start lib walkers) r
      → r.phase ≡ done
      → wants (asks_object root) walkers ≡ false
      → ((f : Edge) → touches_root f ≡ true → wants (asks_edge f) walkers ≡ false)
      → IsAcyclic (λ f. wants (asks_edge f) walkers)
      → IsSnapshotOf (finish_graph lib r.snapshot)
  unfolding finish_graph
  done-IsSnapshotOf {r} reach p no_root no_root_edge acyclic =
      let last = ap stage p in
      let rootless = lib.remove root r.snapshot.alt_graph in
      let exact : (f : Edge) → lib.has_edge f rootless ≡ wants (asks_edge f) walkers =
        λ f. rootless_edges f reach p (no_root_edge f) in
      record {
        stored = λ i. (object_done i reach (omega arith)).0;
        vertices = λ i.
            simp (lib.has_vertex-transitive_reduction, lib.has_vertex-remove)
              (ground (
                arith,
                (object_done i reach (omega arith)).1,
                no_root,
                path_same_iff root i,
                ap (λ j. wants (asks_object j) walkers) {x = root} {y = i},
              ));
        related = λ f. edge_done f reach (omega arith);
        linked = λ f h. sym (exact f) ∙ lib.has_edge-transitive_reduction f rootless h;
        leads = λ i j.
            let reduced =
              lib.transitive_reduction-Leads i j rootless
                (λ k l. acyclic k ((Leads-iff exact).0 l)) in
            (λ l. (Leads-iff exact).0 (reduced.0 l), λ l. reduced.1 ((Leads-iff exact).1 l));
      }
