-- ===== src/Snapshot/Builder.antt =====
-- core/snapshot.go: the goroutines of `NewSnapshotFromEnv`. Walkers send the objects and the
-- relationships that they meet, three workers receive them, and the main goroutine ends the workers
-- one after another. Each constructor of `Step` is what one goroutine does next. A send waits for room
-- in its channel, and the edge that `RelateObjects` has received is still the first of `edgebus`, so
-- that others may take its room in the channel before `RelateV2` sends it back. While `RelateV2` waits
-- for room it holds the mutex; the steps do not hold up those who then wait for it.
use laforge.Base.{
  ℕ, ◌+◌, Bool, true, false, ◌||◌, ◌&&◌, List, [], ◌∷◌, ◌++◌, ◌≡◌, ◌≢◌, map, length, ltb,
  if◌then◌else◌,
}
use laforge.Base.Assoc.{has_key}
use laforge.Base.Eq.{path_eq}
use laforge.Snapshot.Library.{GraphLibrary, Edge}
use laforge.Snapshot.{
  Object, Snapshot, new_empty_snapshot, add_object, add_relationship, store_metadata,
  populate_graph, relate_objects, root,
}

-- s.AddObject(x), s.AddRelationship(x, y)
pub data Call : Type 0 where
  object : Object → Call
  relationship : Edge → Call

-- A call, or a `go` statement for a walker that starts no other.
pub data Action : Type 0 where
  call : Call → Action
  go : List Call → Action

abbrev pub Walker : Type 0
Walker = List Action

-- Where the main goroutine stands: at `wg.Wait`, at the three receives from `finchan`, or past them.
pub data Phase : Type 0 where
  walking storing populating relating done : Phase

-- The workers that have not sent to `finchan`.
abbrev pub stores : Phase → Bool
stores walking = true
stores storing = true
stores _ = false

abbrev pub populates : Phase → Bool
populates walking = true
populates storing = true
populates populating = true
populates _ = false

abbrev pub relates : Phase → Bool
relates done = false
relates _ = true

unfoldable pub finished : List Walker → Bool
finished [] = true
finished ([] ∷ ws) = finished ws
finished ((a ∷ w) ∷ ws) = false

-- make(chan Edge, 100000), and the same for the other two
abbrev pub capacity : ℕ
capacity = 100000

module _ (lib : GraphLibrary) where
  pub record Run : Type 0 where
    pub walkers : List Walker
    pub phase : Phase
    pub snapshot : Snapshot lib
    pub received : Bool

  unfoldable pub run_call : Call → Snapshot lib → Snapshot lib
  unfolding add_object add_relationship
  run_call (object dep) s = add_object lib dep s
  run_call (relationship e) s = add_relationship lib e s

  -- What the channel of the edges holds, and the edge that has been received.
  abbrev pub edge_slots : Run → ℕ
  edge_slots r = if r.received then 1 + capacity else capacity

  -- The send of a call has room, or the object is stored already.
  unfoldable pub has_room : Call → Run → Bool
  has_room (object dep) r =
      has_key dep.path r.snapshot.metastore || ltb (length r.snapshot.metabus) capacity
  has_room (relationship e) r = ltb (length r.snapshot.edgebus) (edge_slots r)

  -- `RelateV2` has both ends of the edge, or room to send it back.
  unfoldable pub can_relate : List Edge → Snapshot lib → Bool
  can_relate [] s = true
  can_relate (e ∷ es) s =
      (lib.has_vertex e.source s.alt_graph && lib.has_vertex e.target s.alt_graph)
      || ltb (length es) capacity

  pub data Step (r : Run) : Run → Type 0 where
    walk :
        (before after : List Walker) (c : Call) (rest : Walker)
        → r.walkers ≡ before ++ (call c ∷ rest) ∷ after
        → has_room c r ≡ true
        → Step r (record r { walkers = before ++ rest ∷ after; snapshot = run_call c r.snapshot })
    spawn :
        (before after : List Walker) (calls : List Call) (rest : Walker)
        → r.walkers ≡ before ++ (go calls ∷ rest) ∷ after
        → Step r (record r { walkers = map call calls ∷ before ++ rest ∷ after })
    store :
        stores r.phase ≡ true
        → ltb (length r.snapshot.nodebus) capacity ≡ true
        → Step r (record r { snapshot = store_metadata lib r.snapshot })
    populate :
        populates r.phase ≡ true → Step r (record r { snapshot = populate_graph lib r.snapshot })
    receive :
        relates r.phase ≡ true
        → r.received ≡ false
        → r.snapshot.edgebus ≢ []
        → Step r (record r { received = true })
    relate :
        relates r.phase ≡ true
        → r.received ≡ true
        → can_relate r.snapshot.edgebus r.snapshot ≡ true
        → Step r (record r { snapshot = relate_objects lib r.snapshot; received = false })
    walked : r.phase ≡ walking → finished r.walkers ≡ true → Step r (record r { phase = storing })
    stored : r.phase ≡ storing → r.snapshot.metabus ≡ [] → Step r (record r { phase = populating })
    populated :
        r.phase ≡ populating → r.snapshot.nodebus ≡ [] → Step r (record r { phase = relating })
    related : r.phase ≡ relating → r.snapshot.edgebus ≡ [] → Step r (record r { phase = done })

  pub data Reach (r : Run) : Run → Type 0 where
    here : Reach r r
    next : {s t : Run} → Reach r s → Step s t → Reach r t

  -- The goroutines before their first steps.
  abbrev pub start : List Walker → Run
  start walkers = record {
    walkers = walkers;
    phase = walking;
    snapshot = new_empty_snapshot lib;
    received = false;
  }

  -- s.AltGraph.Remove("root") and s.AltGraph.TransitiveReduction()
  unfoldable pub finish_graph : Snapshot lib → Snapshot lib
  finish_graph s = record s { alt_graph = lib.transitive_reduction (lib.remove root s.alt_graph) }
