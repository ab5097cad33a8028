-- ===== src/Snapshot/Drained.antt =====
-- What is drained when the main goroutine has come past a worker.
use laforge.Base.{
  ℕ, zero, suc, ◌≤◌, true, false, List, [], ◌∷◌, ◌++◌, ◌≡◌, refl, sym, ap, ◌∙◌, arith, map,
}
use laforge.Snapshot.Library.{GraphLibrary, Edge}
use laforge.Snapshot.{
  Metadata, Snapshot, populate_graph, relate_objects, add_received, relate_received, relate_v2,
}
use laforge.Snapshot.Builder.{
  Walker, Action, call, go, Phase, walking, storing, populating, relating, done, stores, populates,
  relates, finished, Run, Step, walk, spawn, store, populate, receive, relate, walked, stored,
  populated, related, run_call,
}

abbrev pub stage : Phase → ℕ
stage walking = 0
stage storing = 1
stage populating = 2
stage relating = 3
stage done = 4

stores-stage : (p : Phase) → stores p ≡ true → stage p ≤ 1
stores-stage walking h = omega arith
stores-stage storing h = omega arith
stores-stage populating h = cc
stores-stage relating h = cc
stores-stage done h = cc

populates-stage : (p : Phase) → populates p ≡ true → stage p ≤ 2
populates-stage walking h = omega arith
populates-stage storing h = omega arith
populates-stage populating h = omega arith
populates-stage relating h = cc
populates-stage done h = cc

relates-stage : (p : Phase) → relates p ≡ true → stage p ≤ 3
relates-stage walking h = omega arith
relates-stage storing h = omega arith
relates-stage populating h = omega arith
relates-stage relating h = omega arith
relates-stage done h = cc

unfinished :
    (before after : List Walker) (a : Action) (rest : Walker)
    → finished (before ++ (a ∷ rest) ∷ after) ≡ false
unfolding finished
unfinished [] after a rest = refl
unfinished ([] ∷ before) after a rest = unfinished before after a rest
unfinished ((b ∷ w) ∷ before) after a rest = refl

zero_stage : (n : ℕ) → (1 ≤ n → false ≡ true) → n ≡ 0
zero_stage zero h = refl
zero_stage (suc n) h = let z = h (omega arith) in cc

module _ (lib : GraphLibrary) where
  pub record IsDrained (r : Run lib) : Type 0 where
    pub walkers : 1 ≤ stage r.phase → finished r.walkers ≡ true
    pub metabus : 2 ≤ stage r.phase → r.snapshot.metabus ≡ []
    pub nodebus : 3 ≤ stage r.phase → r.snapshot.nodebus ≡ []
    pub edgebus : 4 ≤ stage r.phase → r.snapshot.edgebus ≡ []

  add_received-metabus :
      (bus : List Metadata) (s : Snapshot lib) → (add_received lib bus s).metabus ≡ s.metabus
  unfolding add_received
  add_received-metabus [] s = refl
  add_received-metabus (m ∷ ms) s = refl

  relate_v2-buses :
      (e : Edge) (s : Snapshot lib)
      → ((relate_v2 lib e s).metabus ≡ s.metabus) × ((relate_v2 lib e s).nodebus ≡ s.nodebus)
  unfolding relate_v2
  relate_v2-buses e s = ground arith

  relate_received-buses :
      (bus : List Edge) (s : Snapshot lib)
      → ((relate_received lib bus s).metabus ≡ s.metabus)
        × ((relate_received lib bus s).nodebus ≡ s.nodebus)
  unfolding relate_received
  relate_received-buses [] s = (refl, refl)
  relate_received-buses (e ∷ es) s = relate_v2-buses e (record s { edgebus = es })

  still_walking :
      (r : Run lib) (before after : List Walker) (a : Action) (rest : Walker)
      → IsDrained r
      → r.walkers ≡ before ++ (a ∷ rest) ∷ after
      → stage r.phase ≡ 0
  still_walking r before after a rest d w =
      zero_stage (stage r.phase)
        (λ h. sym (unfinished before after a rest) ∙ sym (ap finished w) ∙ d.walkers h)

  -- Nothing needs to be drained while walkers run.
  first_IsDrained : (r : Run lib) → stage r.phase ≡ 0 → IsDrained r
  first_IsDrained r z = record {
    walkers = λ h. ground arith;
    metabus = λ h. ground arith;
    nodebus = λ h. ground arith;
    edgebus = λ h. ground arith;
  }

  pub Step-IsDrained : {r t : Run lib} → Step lib r t → IsDrained r → IsDrained t
  unfolding populate_graph relate_objects
  Step-IsDrained {r} (walk before after c rest w q) d =
      first_IsDrained
        (record r { walkers = before ++ rest ∷ after; snapshot = run_call lib c r.snapshot })
        (still_walking r before after (call c) rest d w)
  Step-IsDrained {r} (spawn before after calls rest w) d =
      first_IsDrained (record r { walkers = map call calls ∷ before ++ rest ∷ after })
        (still_walking r before after (go calls) rest d w)
  Step-IsDrained {r} (store g q) d =
      let z = stores-stage r.phase g in
      record {
        walkers = d.walkers;
        metabus = λ h. ground arith;
        nodebus = λ h. ground arith;
        edgebus = λ h. ground arith;
      }
  Step-IsDrained {r} (populate g) d =
      let z = populates-stage r.phase g in
      record {
        walkers = d.walkers;
        metabus = λ h. add_received-metabus r.snapshot.nodebus r.snapshot ∙ d.metabus h;
        nodebus = λ h. ground arith;
        edgebus = λ h. ground arith;
      }
  Step-IsDrained (receive g p e) d = record {
    walkers = d.walkers;
    metabus = d.metabus;
    nodebus = d.nodebus;
    edgebus = d.edgebus;
  }
  Step-IsDrained {r} (relate g p q) d =
      let z = relates-stage r.phase g in
      let kept = relate_received-buses r.snapshot.edgebus r.snapshot in
      record {
        walkers = d.walkers;
        metabus = λ h. kept.0 ∙ d.metabus h;
        nodebus = λ h. kept.1 ∙ d.nodebus h;
        edgebus = λ h. ground arith;
      }
  Step-IsDrained (walked p f) d = record {
    walkers = λ h. f;
    metabus = λ h. ground arith;
    nodebus = λ h. ground arith;
    edgebus = λ h. ground arith;
  }
  Step-IsDrained {r} (stored p f) d =
      let z = ap stage p in
      record {
        walkers = λ h. d.walkers (omega arith);
        metabus = λ h. f;
        nodebus = λ h. ground arith;
        edgebus = λ h. ground arith;
      }
  Step-IsDrained {r} (populated p f) d =
      let z = ap stage p in
      record {
        walkers = λ h. d.walkers (omega arith);
        metabus = λ h. d.metabus (omega arith);
        nodebus = λ h. f;
        edgebus = λ h. ground arith;
      }
  Step-IsDrained {r} (related p f) d =
      let z = ap stage p in
      record {
        walkers = λ h. d.walkers (omega arith);
        metabus = λ h. d.metabus (omega arith);
        nodebus = λ h. d.nodebus (omega arith);
        edgebus = λ h. f;
      }
