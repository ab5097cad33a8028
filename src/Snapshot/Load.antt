-- ===== src/Snapshot/Load.antt =====
-- The messages of a build of a snapshot: what the walkers still send and what stands on the buses do
-- not become more, so that no channel is ever full where the walkers send little enough.
use laforge.Base.{
  ℕ, ◌+◌, ◌≤◌, suc, List, [], ◌∷◌, ◌++◌, ◌≡◌, refl, ap, arith, length, map, Bool-cases, inl, inr,
}
use laforge.Base.Assoc.{has_key}
use laforge.Base.Eq.{path_eq}
use laforge.Snapshot.Library.{GraphLibrary, Edge}
use laforge.Snapshot.{
  Snapshot, Metadata, metadata_of, store_metadata, populate_graph, relate_objects, store_received,
  add_received, relate_received, relate_v2, add_object, add_relationship,
}
use laforge.Snapshot.Builder.{
  Walker, Action, call, go, Call, object, relationship, Run, Reach, here, next, Step, walk, spawn,
  store, populate, receive, relate, walked, stored, populated, related, run_call,
}

unfoldable pub weight : Action → ℕ
weight (call c) = 1
weight (go calls) = suc (length calls)

unfoldable pub walker_weight : Walker → ℕ
unfolding weight
walker_weight [] = 0
walker_weight (a ∷ w) = weight a + walker_weight w

unfoldable pub total : List Walker → ℕ
total [] = 0
total (w ∷ ws) = walker_weight w + total ws

pub total-append : (us vs : List Walker) → total (us ++ vs) ≡ total us + total vs
unfolding total
total-append [] vs = omega arith
total-append (u ∷ us) vs = omega (arith, total-append us vs)

pub walker_weight-map : (calls : List Call) → walker_weight (map call calls) ≡ length calls
unfolding walker_weight
walker_weight-map [] = refl
walker_weight-map (c ∷ calls) = omega (arith, walker_weight-map calls)

length-append : {A : Type 0} (xs ys : List A) → length (xs ++ ys) ≡ length xs + length ys
length-append [] ys = omega arith
length-append (x ∷ xs) ys = omega (arith, length-append xs ys)

module _ (lib : GraphLibrary) where
  on_buses : Snapshot lib → ℕ
  on_buses s = length s.metabus + length s.nodebus + length s.edgebus

  -- What is still sent by the walkers or stands on a bus.
  abbrev pub load : Run lib → ℕ
  load r =
      total r.walkers
      + (length r.snapshot.metabus + length r.snapshot.nodebus + length r.snapshot.edgebus)

  run_call-on_buses : (c : Call) (s : Snapshot lib) → on_buses (run_call lib c s) ≤ 1 + on_buses s
  unfolding on_buses run_call add_object add_relationship
  run_call-on_buses (object dep) s = elim (Bool-cases (has_key dep.path s.metastore)) [
    | inl e ↦ rw e (omega arith)
    | inr e ↦ rw e (omega (arith, length-append s.metabus (metadata_of dep ∷ [])))
  ]
  run_call-on_buses (relationship e) s = omega (arith, length-append s.edgebus (e ∷ []))

  store_received-on_buses :
      (bus : List Metadata) (s : Snapshot lib)
      → bus ≡ s.metabus
      → on_buses (store_received lib bus s) ≡ on_buses s
  unfolding on_buses store_received
  store_received-on_buses [] s e = refl
  store_received-on_buses (m ∷ ms) s e =
      omega (arith, ap length e, length-append s.nodebus (m ∷ []))

  add_received-on_buses :
      (bus : List Metadata) (s : Snapshot lib)
      → bus ≡ s.nodebus
      → on_buses (add_received lib bus s) ≤ on_buses s
  unfolding on_buses add_received
  add_received-on_buses [] s e = omega arith
  add_received-on_buses (m ∷ ms) s e = omega (arith, ap length e)

  relate_v2-on_buses : (e : Edge) (s : Snapshot lib) → on_buses (relate_v2 lib e s) ≤ 1 + on_buses s
  unfolding on_buses relate_v2
  relate_v2-on_buses e s = ground (arith, length-append s.edgebus (e ∷ []))

  relate_received-on_buses :
      (bus : List Edge) (s : Snapshot lib)
      → bus ≡ s.edgebus
      → on_buses (relate_received lib bus s) ≤ on_buses s
  unfolding on_buses relate_received
  relate_received-on_buses [] s p = omega arith
  relate_received-on_buses (e ∷ es) s p =
      omega (arith, ap length p, relate_v2-on_buses e (record s { edgebus = es }))

  Step-load : {r t : Run lib} → Step lib r t → load t ≤ load r
  unfolding on_buses total walker_weight weight store_metadata populate_graph relate_objects
  Step-load {r} (walk before after c rest w q) = omega (
    arith,
    ap total w,
    total-append before ((call c ∷ rest) ∷ after),
    total-append before (rest ∷ after),
    run_call-on_buses c r.snapshot,
  )
  Step-load (spawn before after calls rest w) = omega (
    arith,
    ap total w,
    walker_weight-map calls,
    total-append before ((go calls ∷ rest) ∷ after),
    total-append before (rest ∷ after),
  )
  Step-load {r} (store g q) =
      omega (arith, store_received-on_buses r.snapshot.metabus r.snapshot refl)
  Step-load {r} (populate g) =
      omega (arith, add_received-on_buses r.snapshot.nodebus r.snapshot refl)
  Step-load (receive g p e) = omega arith
  Step-load {r} (relate g p q) =
      omega (arith, relate_received-on_buses r.snapshot.edgebus r.snapshot refl)
  Step-load (walked p e) = omega arith
  Step-load (stored p e) = omega arith
  Step-load (populated p e) = omega arith
  Step-load (related p e) = omega arith

  -- No step adds to the messages.
  pub Reach-load : {r s : Run lib} → Reach lib r s → load s ≤ load r
  Reach-load here = omega arith
  Reach-load (next reach step) = omega (arith, Reach-load reach, Step-load step)
