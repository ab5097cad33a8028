-- ===== src/Snapshot/Tracked.antt =====
-- What a snapshot has heard of: the objects and edges that stand on a bus or are stored.
use laforge.Base.{
  Bool, false, ◌||◌, ◌&&◌, List, [], ◌∷◌, ◌≡◌, refl, subst, arith, Bool-cases, inl, inr,
}
use laforge.Base.Eq.{path_same, path_same_iff, path_eq}
use laforge.Base.Any.{any, any-append, any-one}
use laforge.Base.Assoc.{has_key, has_key-insert}
use laforge.Metadata.GoPath.{FilePath}
use laforge.Snapshot.Library.{GraphLibrary, Edge, edge_same}
use laforge.Snapshot.{
  Metadata, Snapshot, add_object, add_relationship, store_metadata, populate_graph, relate_objects,
  relate_v2, splice, add_node_v2, root, store_received, add_received, relate_received,
}
use laforge.Snapshot.Builder.{Call, object, relationship, run_call}

abbrev pub names : FilePath → Metadata → Bool
names i m = path_same m.id i

abbrev pub is_edge : Edge → Edge → Bool
is_edge f e = edge_same e f

-- The call asks for an object of the path, or for the edge.
abbrev pub asks_object : FilePath → Call → Bool
asks_object i (object dep) = path_same dep.path i
asks_object i (relationship e) = false

abbrev pub asks_edge : Edge → Call → Bool
asks_edge f (object dep) = false
asks_edge f (relationship e) = edge_same e f

module _ (lib : GraphLibrary) where
  abbrev pub tracked_object : FilePath → Snapshot lib → Bool
  tracked_object i s = any (names i) s.metabus || has_key i s.metastore

  abbrev pub tracked_edge : Edge → Snapshot lib → Bool
  tracked_edge f s = any (is_edge f) s.edgebus || lib.contains f s.edges

  abbrev pub tracked_vertex : FilePath → Snapshot lib → Bool
  tracked_vertex i s = any (names i) s.nodebus || lib.has_vertex i s.alt_graph

  pub run_call-tracked_object :
      (i : FilePath) (c : Call) (s : Snapshot lib)
      → tracked_object i (run_call lib c s) ≡ (asks_object i c || tracked_object i s)
  unfolding run_call add_object add_relationship
  run_call-tracked_object i (object dep) s = elim (Bool-cases (has_key dep.path s.metastore)) [
    | inl e ↦ rw e (ground (arith, path_same_iff dep.path i, e))
    | inr e ↦ rw e (simp (any-append, any-one) (ground arith))
  ]
  run_call-tracked_object i (relationship e) s = refl

  pub run_call-tracked_edge :
      (f : Edge) (c : Call) (s : Snapshot lib)
      → tracked_edge f (run_call lib c s) ≡ (asks_edge f c || tracked_edge f s)
  unfolding run_call add_object add_relationship
  run_call-tracked_edge f (object dep) s = elim (Bool-cases (has_key dep.path s.metastore)) [
    | inl e ↦ rw e refl
    | inr e ↦ rw e refl
  ]
  run_call-tracked_edge f (relationship e) s = simp (any-append, any-one) (ground arith)

  store_received-tracked_object :
      (i : FilePath) (bus : List Metadata) (s : Snapshot lib)
      → s.metabus ≡ bus
      → tracked_object i (store_received lib bus s) ≡ tracked_object i s
  unfolding store_received any
  store_received-tracked_object i [] s h = refl
  store_received-tracked_object i (m ∷ ms) s h = rw h (simp has_key-insert (ground arith))

  pub store_metadata-tracked_object :
      (i : FilePath) (s : Snapshot lib)
      → tracked_object i (store_metadata lib s) ≡ tracked_object i s
  unfolding store_metadata
  store_metadata-tracked_object i s = store_received-tracked_object i s.metabus s refl

  -- What is stored, the root with it, is on its way to the graph or in it.
  abbrev pub IsBalanced : FilePath → Snapshot lib → Type 0
  IsBalanced i s = (path_same root i || has_key i s.metastore) ≡ tracked_vertex i s

  store_received-IsBalanced :
      (i : FilePath) (bus : List Metadata) (s : Snapshot lib)
      → IsBalanced i s
      → IsBalanced i (store_received lib bus s)
  unfolding store_received
  store_received-IsBalanced i [] s b = b
  store_received-IsBalanced i (m ∷ ms) s b =
      simp (any-append, any-one, has_key-insert) (ground (arith, b))

  pub store_metadata-IsBalanced :
      (i : FilePath) (s : Snapshot lib) → IsBalanced i s → IsBalanced i (store_metadata lib s)
  unfolding store_metadata
  store_metadata-IsBalanced i s = store_received-IsBalanced i s.metabus s

  pub has_vertex-add_node_v2 :
      (i id : FilePath) (g : lib.Graph)
      → lib.has_vertex i (add_node_v2 lib id g) ≡ (path_same id i || lib.has_vertex i g)
  unfolding add_node_v2
  has_vertex-add_node_v2 i id g = simp (lib.has_vertex-connect, lib.has_vertex-add)

  add_received-IsBalanced :
      (i : FilePath) (bus : List Metadata) (s : Snapshot lib)
      → s.nodebus ≡ bus
      → IsBalanced i s
      → IsBalanced i (add_received lib bus s)
  unfolding add_received any
  add_received-IsBalanced i [] s h b = b
  add_received-IsBalanced i (m ∷ ms) s h b = simp has_vertex-add_node_v2 (
      ground (
        arith,
        subst
            (λ bus.
              (path_same root i || has_key i s.metastore)
              ≡ (any (names i) bus || lib.has_vertex i s.alt_graph))
            h b,
      ))

  pub populate_graph-IsBalanced :
      (i : FilePath) (s : Snapshot lib) → IsBalanced i s → IsBalanced i (populate_graph lib s)
  unfolding populate_graph
  populate_graph-IsBalanced i s = add_received-IsBalanced i s.nodebus s refl

  store_received-edges :
      (f : Edge) (bus : List Metadata) (s : Snapshot lib)
      → tracked_edge f (store_received lib bus s) ≡ tracked_edge f s
  unfolding store_received
  store_received-edges f [] s = refl
  store_received-edges f (m ∷ ms) s = refl

  pub store_metadata-tracked_edge :
      (f : Edge) (s : Snapshot lib) → tracked_edge f (store_metadata lib s) ≡ tracked_edge f s
  unfolding store_metadata
  store_metadata-tracked_edge f s = store_received-edges f s.metabus s

  add_received-rest :
      (i : FilePath) (f : Edge) (bus : List Metadata) (s : Snapshot lib)
      → (tracked_object i (add_received lib bus s) ≡ tracked_object i s)
        × (tracked_edge f (add_received lib bus s) ≡ tracked_edge f s)
  unfolding add_received
  add_received-rest i f [] s = (refl, refl)
  add_received-rest i f (m ∷ ms) s = (refl, refl)

  pub populate_graph-rest :
      (i : FilePath) (f : Edge) (s : Snapshot lib)
      → (tracked_object i (populate_graph lib s) ≡ tracked_object i s)
        × (tracked_edge f (populate_graph lib s) ≡ tracked_edge f s)
  unfolding populate_graph
  populate_graph-rest i f s = add_received-rest i f s.nodebus s

  pub has_vertex-splice :
      (i : FilePath) (e : Edge) (g : lib.Graph)
      → lib.has_vertex i (splice lib e g) ≡ lib.has_vertex i g
  unfolding splice
  has_vertex-splice i e g =
      elim (Bool-cases (lib.has_edge (record { source = root; target = e.source }) g)) [
        | inl h ↦ rw (splice, h) (simp (lib.has_vertex-connect, lib.has_vertex-remove_edge))
        | inr h ↦ rw (splice, h) (lib.has_vertex-connect i e g)
      ]

  relate_received-rest :
      (i : FilePath) (f : Edge) (bus : List Edge) (s : Snapshot lib)
      → s.edgebus ≡ bus
      → (tracked_object i (relate_received lib bus s) ≡ tracked_object i s)
        × (tracked_vertex i (relate_received lib bus s) ≡ tracked_vertex i s)
        × ((relate_received lib bus s).metastore ≡ s.metastore)
        × (tracked_edge f (relate_received lib bus s) ≡ tracked_edge f s)
  unfolding relate_received relate_v2 any
  relate_received-rest i f [] s h = (refl, refl, refl, refl)
  relate_received-rest i f (e ∷ es) s h =
      elim (Bool-cases
        (lib.has_vertex e.source s.alt_graph && lib.has_vertex e.target s.alt_graph)) [
          | inl b ↦ rw b (
            refl,
            simp has_vertex-splice refl,
            refl,
            rw h (simp lib.contains-add_element (ground arith)),
          )
          | inr b ↦ rw b (refl, refl, refl, rw h (simp (any-append, any-one) (ground arith)))
        ]

  pub relate_objects-rest :
      (i : FilePath) (f : Edge) (s : Snapshot lib)
      → (tracked_object i (relate_objects lib s) ≡ tracked_object i s)
        × (tracked_vertex i (relate_objects lib s) ≡ tracked_vertex i s)
        × ((relate_objects lib s).metastore ≡ s.metastore)
        × (tracked_edge f (relate_objects lib s) ≡ tracked_edge f s)
  unfolding relate_objects
  relate_objects-rest i f s = relate_received-rest i f s.edgebus s refl
