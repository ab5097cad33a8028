-- ===== src/Snapshot/Rounds.antt =====
-- The rounds that the walkers and the workers of core/snapshot.go need, one for each message.
use laforge.Base.{
  ℕ, zero, suc, ◌≤◌, true, ◌&&◌, List, [], ◌∷◌, ◌++◌, ◌≡◌, refl, ap, ◌∙◌, arith, ◌⊎◌, inl, inr,
  length, ltb,
}
use laforge.Base.Any.{any}
use laforge.Snapshot.Library.{GraphLibrary, Edge, edge_same_iff}
use laforge.Snapshot.{
  Snapshot, Metadata, store_metadata, populate_graph, store_received, add_received, relate_received,
  relate_v2,
}
use laforge.Snapshot.Load.{
  total, walker_weight, weight, total-append, walker_weight-map, load, Reach-load,
}
use laforge.Snapshot.Builder.{
  capacity, has_room, object, relationship, Walker, Action, call, go, Call, Run, storing,
  populating, Reach, here, next, Step, walk, spawn, store, populate, stores, populates, finished,
}
use laforge.Snapshot.Tracked.{is_edge}

-- The first walker that has something to do.
find_walker :
    (ws : List Walker)
    → (finished ws ≡ true)
      ⊎ ((before : List Walker) × (a : Action) × (rest : Walker) × (after : List Walker) × (ws
            ≡ before ++ (a ∷ rest) ∷ after))
unfolding finished
find_walker [] = inl refl
find_walker ([] ∷ ws) = elim (find_walker ws) [
  | inl f ↦ inl f
  | inr (before, a, rest, after, e) ↦ inr ([] ∷ before, a, rest, after, ap (λ vs. [] ∷ vs) e)
]
find_walker ((a ∷ w) ∷ ws) = inr ([], a, w, ws, refl)

pub no_elements : {A : Type 0} (xs : List A) → length xs ≡ 0 → xs ≡ []
no_elements [] h = refl
no_elements (x ∷ xs) h = ground arith

module _ (lib : GraphLibrary) where
  pub trans : {r s t : Run lib} → Reach lib r s → Reach lib s t → Reach lib r t
  trans reach here = reach
  trans reach (next longer step) = next (trans reach longer) step

  busy :
      {ws : List Walker} (before : List Walker) (c : Call) (rest : Walker) (after : List Walker)
      → ws ≡ before ++ (call c ∷ rest) ∷ after
      → 1 ≤ total ws
  unfolding total walker_weight weight
  busy before c rest after e =
      omega (arith, ap total e, total-append before ((call c ∷ rest) ∷ after))

  room :
      (c : Call) (r : Run lib)
      → load lib r ≤ capacity
      → 1 ≤ total r.walkers
      → has_room lib c r ≡ true
  unfolding has_room
  room (object dep) r l w = ground arith
  room (relationship e) r l w = ground arith

  node_room :
      (n : ℕ) (s : Run lib)
      → length s.snapshot.metabus ≡ suc n
      → load lib s ≤ capacity
      → ltb (length s.snapshot.nodebus) capacity ≡ true
  node_room n s h l = ground arith

  -- What a walker does next, with what is left of the walkers.
  pub act :
      (r : Run lib) (before : List Walker) (a : Action) (rest : Walker) (after : List Walker)
      → r.walkers ≡ before ++ (a ∷ rest) ∷ after
      → load lib r ≤ capacity
      → (t : Run lib) × Step lib r t
        × (t.phase ≡ r.phase)
        × (suc (total t.walkers) ≡ total r.walkers)
  unfolding total walker_weight weight
  act r before (call c) rest after e l = (
    _,
    walk before after c rest e (room c r l (busy before c rest after e)),
    refl,
    ground (
      arith,
      ap total e,
      total-append before ((call c ∷ rest) ∷ after),
      total-append before (rest ∷ after),
    ),
  )
  act r before (go calls) rest after e l = (
    _,
    spawn before after calls rest e,
    refl,
    ground (
      arith,
      ap total e,
      walker_weight-map calls,
      total-append before ((go calls ∷ rest) ∷ after),
      total-append before (rest ∷ after),
    ),
  )

  pub finish_walkers :
      (n : ℕ) {r s : Run lib}
      → Reach lib r s
      → load lib r ≤ capacity
      → total s.walkers ≤ n
      → (t : Run lib) × Reach lib r t × (t.phase ≡ s.phase) × (finished t.walkers ≡ true)
  finish_walkers zero {r} {s} reach l h = elim (find_walker s.walkers) [
    | inl f ↦ (s, reach, refl, f)
    | inr (before, a, rest, after, e) ↦
        let (t, step, same_phase, less) =
          act s before a rest after e (omega (arith, l, Reach-load lib reach)) in
        ground arith
  ]
  finish_walkers (suc n) {r} {s} reach l h = elim (find_walker s.walkers) [
    | inl f ↦ (s, reach, refl, f)
    | inr (before, a, rest, after, e) ↦
        let (t, step, same_phase, less) =
          act s before a rest after e (omega (arith, l, Reach-load lib reach)) in
        let (u, longer, phase, f) = finish_walkers n (next reach step) l (omega (arith, less, h)) in
        (u, longer, phase ∙ same_phase, f)
  ]

  store_received-length :
      (n : ℕ) (bus : List Metadata) (s : Snapshot lib)
      → length bus ≡ suc n
      → length (store_received lib bus s).metabus ≡ n
  unfolding store_received
  store_received-length n [] s h = ground arith
  store_received-length n (m ∷ ms) s h = omega arith

  pub store_all :
      (n : ℕ) {r s : Run lib}
      → Reach lib r s
      → load lib r ≤ capacity
      → s.phase ≡ storing
      → length s.snapshot.metabus ≡ n
      → (t : Run lib) × Reach lib r t × (t.phase ≡ storing) × (t.snapshot.metabus ≡ [])
  unfolding store_metadata
  store_all zero {r} {s} reach l p h = (s, reach, p, no_elements s.snapshot.metabus h)
  store_all (suc n) {r} {s} reach l p h =
      store_all n
        (next reach
          (store (ap stores p) (node_room n s h (omega (arith, l, Reach-load lib reach)))))
        l p (store_received-length n s.snapshot.metabus s.snapshot h)

  add_received-length :
      (n : ℕ) (bus : List Metadata) (s : Snapshot lib)
      → length bus ≡ suc n
      → length (add_received lib bus s).nodebus ≡ n
  unfolding add_received
  add_received-length n [] s h = ground arith
  add_received-length n (m ∷ ms) s h = omega arith

  pub populate_all :
      (n : ℕ) {r s : Run lib}
      → Reach lib r s
      → s.phase ≡ populating
      → length s.snapshot.nodebus ≡ n
      → (t : Run lib) × Reach lib r t × (t.phase ≡ populating) × (t.snapshot.nodebus ≡ [])
  unfolding populate_graph
  populate_all zero {r} {s} reach p h = (s, reach, p, no_elements s.snapshot.nodebus h)
  populate_all (suc n) {r} {s} reach p h =
      populate_all n (next reach (populate (ap populates p))) p
        (add_received-length n s.snapshot.nodebus s.snapshot h)

  pub relate_received-length :
      (n : ℕ) (bus : List Edge) (s : Snapshot lib)
      → length bus ≡ suc n
      → ((e : Edge)
          → any (is_edge e) bus ≡ true
          → (lib.has_vertex e.source s.alt_graph && lib.has_vertex e.target s.alt_graph) ≡ true)
      → length (relate_received lib bus s).edgebus ≡ n
  unfolding relate_received relate_v2 any
  relate_received-length n [] s h v = ground arith
  relate_received-length n (e ∷ es) s h v =
      rw (v e (ground (arith, edge_same_iff e e))) (omega arith)
