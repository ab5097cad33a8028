-- ===== src/Snapshot/Live.antt =====
-- Where every relationship has its ends among the objects, a build can be carried to its end from
-- every state that it reaches, if a channel has room for all messages, and the workers need as many
-- rounds as there are messages.
use laforge.Base.{
  ℕ, zero, suc, true, ◌&&◌, List, [], ◌≡◌, ◌≢◌, refl, ap, ◌∙◌, arith, length, ◌≤◌, ◌∷◌, Bool-cases,
  inl, inr,
}
use laforge.Base.Any.{any}
use laforge.Snapshot.Library.{GraphLibrary, Edge, edge_same_iff}
use laforge.Snapshot.{Snapshot, root, relate_objects, new_empty_snapshot}
use laforge.Snapshot.Load.{total, load, Reach-load}
use laforge.Snapshot.Builder.{
  Walker, Run, Step, Phase, walking, storing, populating, relating, done, start, Reach, here, next,
  receive, relate, relates, capacity, can_relate, walked, stored, populated, related,
}
use laforge.Snapshot.Tracked.{asks_object, asks_edge, is_edge}
use laforge.Snapshot.Drained.{stage}
use laforge.Snapshot.Account.{wants, Reach-IsAccount}
use laforge.Snapshot.Complete.{object_done}
use laforge.Snapshot.Rounds.{
  no_elements, trans, finish_walkers, store_all, populate_all, relate_received-length,
}

module _ (lib : GraphLibrary) where
  can_relate_now :
      (bus : List Edge) (s : Snapshot lib)
      → ((e : Edge)
          → any (is_edge e) bus ≡ true
          → (lib.has_vertex e.source s.alt_graph && lib.has_vertex e.target s.alt_graph) ≡ true)
      → can_relate lib bus s ≡ true
  unfolding can_relate any
  can_relate_now [] s v = refl
  can_relate_now (e ∷ es) s v = rw (v e (ground (arith, edge_same_iff e e))) refl

  waiting : {n : ℕ} (bus : List Edge) → length bus ≡ suc n → bus ≢ []
  waiting bus h e = let l = ap length e in omega (arith, l, h)

  -- The worker that relates the objects has received an edge, or receives the next one.
  hand :
      (n : ℕ) (s : Run lib)
      → s.phase ≡ relating
      → length s.snapshot.edgebus ≡ suc n
      → (t : Run lib) × Reach lib s t
        × (t.phase ≡ relating)
        × (t.received ≡ true)
        × (t.snapshot ≡ s.snapshot)
  hand n s p h = elim (Bool-cases s.received) [
    | inl e ↦ (s, here, p, e, refl)
    | inr e ↦
        let taken : Step lib s (record s { received = true }) =
          receive (ap relates p) e (waiting s.snapshot.edgebus h) in
        (record s { received = true }, next here taken, p, refl, refl)
  ]

  module _ (walkers : List Walker)
      (closed : (f : Edge)
        → wants (asks_edge f) walkers ≡ true
        → (wants (asks_object f.source) walkers && wants (asks_object f.target) walkers) ≡ true)
      (few : total walkers ≤ capacity) where
    light : {s : Run lib} → Reach lib (start lib walkers) s → load lib s ≤ capacity
    unfolding new_empty_snapshot
    light reach = omega (arith, few, Reach-load lib reach)

    bus_ends :
        {s : Run lib}
        → Reach lib (start lib walkers) s
        → s.phase ≡ relating
        → (f : Edge) → any (is_edge f) s.snapshot.edgebus ≡ true
        → (lib.has_vertex f.source s.snapshot.alt_graph
            && lib.has_vertex f.target s.snapshot.alt_graph)
          ≡ true
    bus_ends {s} reach p f on_bus =
        let last = ap stage p in
        ground (
          arith,
          closed f,
          (Reach-IsAccount lib walkers root f reach).edges,
          (object_done lib walkers f.source reach (omega arith)).1,
          (object_done lib walkers f.target reach (omega arith)).1,
        )

    -- The rounds of `RelateObjects` that are needed are as many as there are edges on its bus.
    relate_all :
        (n : ℕ) {r s : Run lib}
        → Reach lib (start lib walkers) s
        → Reach lib r s
        → s.phase ≡ relating
        → length s.snapshot.edgebus ≡ n
        → (t : Run lib) × Reach lib r t × (t.phase ≡ relating) × (t.snapshot.edgebus ≡ [])
    unfolding relate_objects
    relate_all zero {r} {s} reach longer p h = (s, longer, p, no_elements s.snapshot.edgebus h)
    relate_all (suc n) {r} {s} reach longer p h =
        let (t, to_t, q, taken, same) = hand n s p h in
        let reach_t = trans lib reach to_t in
        let at_t = ap (λ x. length x.edgebus) same ∙ h in
        let step =
          relate (ap relates q) taken
            (can_relate_now t.snapshot.edgebus t.snapshot (bus_ends reach_t q)) in
        relate_all n (next reach_t step) (trans lib longer (next to_t step)) q
          (relate_received-length lib n t.snapshot.edgebus t.snapshot at_t (bus_ends reach_t q))

    -- A state after which the snapshot is finished.
    Ends : Run lib → Type 0
    Ends s = (t : Run lib) × Reach lib s t × (t.phase ≡ done)

    later : {r s : Run lib} → Reach lib r s → Ends s → Ends r
    unfolding Ends
    later reach (t, longer, p) = (t, trans lib reach longer, p)

    from_relating : {s : Run lib} → Reach lib (start lib walkers) s → s.phase ≡ relating → Ends s
    unfolding Ends
    from_relating {s} reach p =
        let (t, longer, q, e) = relate_all (length s.snapshot.edgebus) reach here p refl in
        (_, next longer (related q e), refl)

    from_populating :
        {s : Run lib} → Reach lib (start lib walkers) s → s.phase ≡ populating → Ends s
    from_populating {s} reach p =
        let (t, longer, q, e) = populate_all lib (length s.snapshot.nodebus) here p refl in
        let whole = next longer (populated q e) in
        later whole (from_relating (trans lib reach whole) refl)

    from_storing : {s : Run lib} → Reach lib (start lib walkers) s → s.phase ≡ storing → Ends s
    from_storing {s} reach p =
        let (t, longer, q, e) =
          store_all lib (length s.snapshot.metabus) here (light reach) p refl in
        let whole = next longer (stored q e) in
        later whole (from_populating (trans lib reach whole) refl)

    from_walking : {s : Run lib} → Reach lib (start lib walkers) s → s.phase ≡ walking → Ends s
    from_walking {s} reach p =
        let (t, longer, q, f) =
          finish_walkers lib (total s.walkers) here (light reach) (omega arith) in
        let whole = next longer (walked (q ∙ p) f) in
        later whole (from_storing (trans lib reach whole) refl)

    from_phase : {s : Run lib} (p : Phase) → Reach lib (start lib walkers) s → s.phase ≡ p → Ends s
    unfolding Ends
    from_phase walking reach e = from_walking reach e
    from_phase storing reach e = from_storing reach e
    from_phase populating reach e = from_populating reach e
    from_phase relating reach e = from_relating reach e
    from_phase {s} done reach e = (s, here, e)

  -- Where both ends of every relationship that the walkers ask for are among the objects that they
  -- add, and the walkers do no more than one channel has room for, the workers can end from every
  -- state that they reach.
  pub can_end :
      (walkers : List Walker) (s : Run lib)
      → ((f : Edge)
          → wants (asks_edge f) walkers ≡ true
          → (wants (asks_object f.source) walkers && wants (asks_object f.target) walkers) ≡ true)
      → total walkers ≤ capacity
      → Reach lib (start lib walkers) s
      → (t : Run lib) × Reach lib s t × (t.phase ≡ done)
  unfolding Ends
  can_end walkers s closed few reach = from_phase walkers closed few s.phase reach refl
