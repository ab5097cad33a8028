-- ===== src/Snapshot.antt =====
-- core/snapshot.go: the store and the dependency graph that a snapshot is built up in. A channel is
-- the list of what has been sent and not received; how full it may be is a matter of the steps in
-- Snapshot/Builder.
pub mod Library
pub mod Builder
pub mod Tracked
pub mod Links
pub mod Load
pub mod Drained
pub mod Account
pub mod Complete
pub mod Rebuild
pub mod Rounds
pub mod Live
pub mod Walk
use Library.{GraphLibrary, Edge}
use laforge.Base.{ℕ, Bool, true, false, List, [], ◌∷◌, ◌++◌, not, ◌&&◌, ◌||◌, if◌then◌else◌}
use laforge.Base.Eq.{path_eq}
use laforge.Base.Assoc.{has_key, insert}
use laforge.Metadata.GoPath.{FilePath}
use laforge.Metadata.{LfType, type_by_path}

-- What `AddObject` asks a `Dependency` for: `Path` and `Hash`.
pub record Object : Type 0 where
  pub path : FilePath
  pub hash : ℕ

pub record Metadata : Type 0 where
  pub id : FilePath
  pub object_type : LfType
  pub dependency : Object
  pub checksum : ℕ

abbrev pub root : FilePath
root = "root" ∷ []

abbrev pub metadata_of : Object → Metadata
metadata_of dep = record {
  id = dep.path;
  object_type = type_by_path dep.path;
  dependency = dep;
  checksum = dep.hash;
}

module _ (lib : GraphLibrary) where
  pub record Snapshot : Type 0 where
    pub alt_graph : lib.Graph
    pub metastore : List (FilePath × Metadata)
    pub edges : lib.Set
    pub metabus : List Metadata
    pub nodebus : List Metadata
    pub edgebus : List Edge

  unfoldable pub new_empty_snapshot : Snapshot
  new_empty_snapshot = record {
    alt_graph = lib.add root lib.empty;
    metastore = [];
    edges = lib.new_set;
    metabus = [];
    nodebus = [];
    edgebus = [];
  }

  unfoldable pub add_node_v2 : FilePath → lib.Graph → lib.Graph
  add_node_v2 id g = lib.connect (record { source = root; target = id }) (lib.add id g)

  -- The edge from the root to the source gives way to one from the target to the root.
  unfoldable pub splice : Edge → lib.Graph → lib.Graph
  splice e g =
      let old : Edge = record { source = root; target = e.source } in
      let spliced =
        if lib.has_edge old g
        then lib.connect (record { source = e.target; target = root }) (lib.remove_edge old g)
        else g in
      lib.connect e spliced

  -- An edge with an end that is not in the graph yet goes back to the bus.
  unfoldable pub relate_v2 : Edge → Snapshot → Snapshot
  unfolding splice
  relate_v2 e s =
      if lib.has_vertex e.source s.alt_graph && lib.has_vertex e.target s.alt_graph
      then record s { alt_graph = splice e s.alt_graph; edges = lib.add_element e s.edges }
      else record s { edgebus = s.edgebus ++ e ∷ [] }

  unfoldable pub add_object : Object → Snapshot → Snapshot
  add_object dep s =
      if has_key dep.path s.metastore
      then s
      else record s { metabus = s.metabus ++ metadata_of dep ∷ [] }

  unfoldable pub add_relationship : Edge → Snapshot → Snapshot
  add_relationship e s = record s { edgebus = s.edgebus ++ e ∷ [] }

  -- One receive of each worker; on an empty channel the worker goes round its loop.
  store_received : List Metadata → Snapshot → Snapshot
  store_received [] s = s
  store_received (m ∷ ms) s = record s {
    metabus = ms;
    metastore = insert m.id m s.metastore;
    nodebus = s.nodebus ++ m ∷ [];
  }

  unfoldable pub store_metadata : Snapshot → Snapshot
  unfolding store_received
  store_metadata s = store_received s.metabus s

  add_received : List Metadata → Snapshot → Snapshot
  unfolding add_node_v2
  add_received [] s = s
  add_received (n ∷ ns) s = record s { nodebus = ns; alt_graph = add_node_v2 n.id s.alt_graph }

  unfoldable pub populate_graph : Snapshot → Snapshot
  unfolding add_received
  populate_graph s = add_received s.nodebus s

  pub relate_received : List Edge → Snapshot → Snapshot
  unfolding relate_v2
  relate_received [] s = s
  relate_received (e ∷ es) s = relate_v2 e (record s { edgebus = es })

  unfoldable pub relate_objects : Snapshot → Snapshot
  unfolding relate_received
  relate_objects s = relate_received s.edgebus s

  -- The graph of a store and of a set of edges.
  add_all : List (FilePath × Metadata) → lib.Graph → lib.Graph
  add_all [] g = g
  add_all ((id, val) ∷ metastore) g = add_all metastore (lib.add val.id g)

  connect_all : List Edge → lib.Graph → lib.Graph
  connect_all [] g = g
  connect_all (edge ∷ edges) g = connect_all edges (lib.connect edge g)

  unfoldable pub rebuild_graph : Snapshot → Snapshot
  unfolding add_all connect_all
  rebuild_graph s = record s {
    alt_graph = connect_all (lib.iter s.edges) (add_all s.metastore lib.empty);
  }
