-- ===== src/Snapshot/Links.antt =====
-- The edges between objects in the graph of a snapshot, and those in its set of edges.
use laforge.Base.{Bool, true, ◌||◌, ◌&&◌, not, List, [], ◌∷◌, ◌≡◌, ◌∙◌, arith, Bool-cases, inl, inr}
use laforge.Base.Eq.{path_same, path_eq}
use laforge.Metadata.GoPath.{FilePath}
use laforge.Snapshot.Library.{GraphLibrary, Edge, edge_same, edge_same_iff}
use laforge.Snapshot.{
  Metadata, Snapshot, store_metadata, populate_graph, relate_objects, splice, add_node_v2, root,
  store_received, add_received, relate_received, relate_v2,
}
use laforge.Snapshot.Tracked.{has_vertex-splice, has_vertex-add_node_v2}

abbrev pub touches_root : Edge → Bool
touches_root f = path_same root f.source || path_same root f.target

module _ (lib : GraphLibrary) where
  -- The edge stands in the graph if and only if it stands in the set.
  abbrev pub IsLinked : Edge → Snapshot lib → Type 0
  IsLinked f s =
      (touches_root f || lib.has_edge f s.alt_graph) ≡ (touches_root f || lib.contains f s.edges)

  -- If it stands in the set, its ends stand in the graph.
  abbrev pub HasEnds : Edge → Snapshot lib → Type 0
  HasEnds f s =
      (not (lib.contains f s.edges)
        || lib.has_vertex f.source s.alt_graph && lib.has_vertex f.target s.alt_graph)
      ≡ true

  has_edge-splice :
      (f e : Edge) (g : lib.Graph)
      → (touches_root f || lib.has_edge f (splice lib e g))
        ≡ (touches_root f || (edge_same e f || lib.has_edge f g))
  unfolding splice edge_same
  has_edge-splice f e g =
      elim (Bool-cases (lib.has_edge (record { source = root; target = e.source }) g)) [
        | inl h ↦
            rw (splice, h) (simp (lib.has_edge-connect, lib.has_edge-remove_edge) (ground arith))
        | inr h ↦ rw (splice, h) (simp lib.has_edge-connect)
      ]

  has_edge-add_node_v2 :
      (f : Edge) (id : FilePath) (g : lib.Graph)
      → (touches_root f || lib.has_edge f (add_node_v2 lib id g))
        ≡ (touches_root f || lib.has_edge f g)
  unfolding add_node_v2 edge_same
  has_edge-add_node_v2 f id g = simp (lib.has_edge-connect, lib.has_edge-add) (ground arith)

  add_received-links :
      (f : Edge) (bus : List Metadata) (s : Snapshot lib)
      → IsLinked f s
      → HasEnds f s
      → IsLinked f (add_received lib bus s) × HasEnds f (add_received lib bus s)
  unfolding add_received
  add_received-links f [] s l h = (l, h)
  add_received-links f (m ∷ ms) s l h =
      (has_edge-add_node_v2 f m.id s.alt_graph ∙ l, simp has_vertex-add_node_v2 (ground (arith, h)))

  pub populate_graph-links :
      (f : Edge) (s : Snapshot lib)
      → IsLinked f s
      → HasEnds f s
      → IsLinked f (populate_graph lib s) × HasEnds f (populate_graph lib s)
  unfolding populate_graph
  populate_graph-links f s = add_received-links f s.nodebus s

  relate_received-links :
      (f : Edge) (bus : List Edge) (s : Snapshot lib)
      → IsLinked f s
      → HasEnds f s
      → IsLinked f (relate_received lib bus s) × HasEnds f (relate_received lib bus s)
  unfolding relate_received relate_v2
  relate_received-links f [] s l h = (l, h)
  relate_received-links f (e ∷ es) s l h =
      elim (Bool-cases
        (lib.has_vertex e.source s.alt_graph && lib.has_vertex e.target s.alt_graph)) [
          | inl b ↦ rw b (
            has_edge-splice f e s.alt_graph ∙ simp lib.contains-add_element (ground (arith, l)),
            simp (lib.contains-add_element, has_vertex-splice)
                (ground (arith, h, b, edge_same_iff e f)),
          )
          | inr b ↦ rw b (l, h)
        ]

  pub relate_objects-links :
      (f : Edge) (s : Snapshot lib)
      → IsLinked f s
      → HasEnds f s
      → IsLinked f (relate_objects lib s) × HasEnds f (relate_objects lib s)
  unfolding relate_objects
  relate_objects-links f s = relate_received-links f s.edgebus s

  store_received-links :
      (f : Edge) (bus : List Metadata) (s : Snapshot lib)
      → IsLinked f s
      → HasEnds f s
      → IsLinked f (store_received lib bus s) × HasEnds f (store_received lib bus s)
  unfolding store_received
  store_received-links f [] s l h = (l, h)
  store_received-links f (m ∷ ms) s l h = (l, h)

  pub store_metadata-links :
      (f : Edge) (s : Snapshot lib)
      → IsLinked f s
      → HasEnds f s
      → IsLinked f (store_metadata lib s) × HasEnds f (store_metadata lib s)
  unfolding store_metadata
  store_metadata-links f s = store_received-links f s.metabus s
