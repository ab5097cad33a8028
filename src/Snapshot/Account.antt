-- ===== src/Snapshot/Account.antt =====
-- No request of a walker is lost: until it is stored it stands with the walker or on a bus.
use laforge.Base.{
  Bool, true, false, ◌||◌, List, [], ◌∷◌, ◌++◌, ◌≡◌, refl, ap, ◌∙◌, arith, map, Bool-cases, inl,
  inr,
}
use laforge.Base.Eq.{path_eq}
use laforge.Base.Any.{any, any-append, any-map}
use laforge.Base.Assoc.{has_key, lookup}
use laforge.Metadata.GoPath.{FilePath}
use laforge.Snapshot.Library.{GraphLibrary, Edge}
use laforge.Snapshot.{Snapshot, new_empty_snapshot, add_object, add_relationship}
use laforge.Snapshot.Builder.{
  Walker, Action, Call, object, relationship, call, go, Run, Step, walk, spawn, store, populate,
  receive, relate, walked, stored, populated, related, run_call, start, Reach, here, next, finished,
}
use laforge.Snapshot.Tracked.{
  asks_object, asks_edge, tracked_object, tracked_edge, IsBalanced, run_call-tracked_object,
  run_call-tracked_edge, store_metadata-tracked_object, store_metadata-tracked_edge,
  store_metadata-IsBalanced, populate_graph-IsBalanced, populate_graph-rest, relate_objects-rest,
}
use laforge.Snapshot.Links.{
  IsLinked, HasEnds, store_metadata-links, populate_graph-links, relate_objects-links,
}

unfoldable pub in_action : (Call → Bool) → Action → Bool
in_action asks (call c) = asks c
in_action asks (go calls) = any asks calls

-- A walker, or one that it starts, makes a call that the test accepts.
abbrev pub wants : (Call → Bool) → List Walker → Bool
wants asks = any (any (in_action asks))

wants-walk :
    (asks : Call → Bool) (before after : List Walker) (c : Call) (rest : Walker)
    → wants asks (before ++ (call c ∷ rest) ∷ after)
      ≡ (asks c || wants asks (before ++ rest ∷ after))
unfolding any in_action
wants-walk asks before after c rest = simp any-append (ground arith)

any-call :
    (asks : Call → Bool) (calls : List Call)
    → any (in_action asks) (map call calls) ≡ any asks calls
unfolding in_action
any-call asks calls = any-map (in_action asks) call calls

wants-spawn :
    (asks : Call → Bool) (before after : List Walker) (calls : List Call) (rest : Walker)
    → wants asks (before ++ (go calls ∷ rest) ∷ after)
      ≡ wants asks (map call calls ∷ before ++ rest ∷ after)
unfolding any in_action
wants-spawn asks before after calls rest = simp (any-append, any-call) (ground arith)

pub wants-finished :
    (asks : Call → Bool) (ws : List Walker) → finished ws ≡ true → wants asks ws ≡ false
unfolding any finished
wants-finished asks [] f = refl
wants-finished asks ([] ∷ ws) f = wants-finished asks ws f
wants-finished asks ((a ∷ w) ∷ ws) f = cc

module _ (lib : GraphLibrary) (walkers : List Walker) where
  -- The state of a build, against the walkers that it started with.
  pub record IsAccount (i : FilePath) (f : Edge) (r : Run lib) : Type 0 where
    pub objects :
        wants (asks_object i) walkers
        ≡ (wants (asks_object i) r.walkers || tracked_object lib i r.snapshot)
    pub edges :
        wants (asks_edge f) walkers
        ≡ (wants (asks_edge f) r.walkers || tracked_edge lib f r.snapshot)
    pub balanced : IsBalanced lib i r.snapshot
    pub linked : IsLinked lib f r.snapshot
    pub ends : HasEnds lib f r.snapshot

  -- The walkers' calls only send.
  run_call-links :
      (i : FilePath) (f : Edge) (c : Call) (s : Snapshot lib)
      → (IsBalanced lib i s → IsBalanced lib i (run_call lib c s))
        × (IsLinked lib f s → IsLinked lib f (run_call lib c s))
        × (HasEnds lib f s → HasEnds lib f (run_call lib c s))
  unfolding run_call add_object add_relationship
  run_call-links i f (object dep) s = elim (Bool-cases (has_key dep.path s.metastore)) [
    | inl e ↦ rw e (λ b. b, λ l. l, λ h. h)
    | inr e ↦ rw e (λ b. b, λ l. l, λ h. h)
  ]
  run_call-links i f (relationship e) s = (λ b. b, λ l. l, λ h. h)

  start-IsAccount : (i : FilePath) (f : Edge) → IsAccount i f (start lib walkers)
  unfolding new_empty_snapshot any lookup
  start-IsAccount i f = record {
    objects = ground arith;
    edges = simp lib.contains-new_set (ground arith);
    balanced = simp (lib.has_vertex-add, lib.has_vertex-empty) (ground arith);
    linked = simp (lib.has_edge-add, lib.has_edge-empty, lib.contains-new_set);
    ends = simp lib.contains-new_set (ground arith);
  }

  Step-IsAccount :
      {r t : Run lib} (i : FilePath) (f : Edge) → Step lib r t → IsAccount i f r → IsAccount i f t
  Step-IsAccount {r} i f (walk before after c rest w q) a = record {
    objects = ground (
      arith,
      a.objects,
      ap (wants (asks_object i)) w,
      wants-walk (asks_object i) before after c rest,
      run_call-tracked_object lib i c r.snapshot,
    );
    edges = ground (
      arith,
      a.edges,
      ap (wants (asks_edge f)) w,
      wants-walk (asks_edge f) before after c rest,
      run_call-tracked_edge lib f c r.snapshot,
    );
    balanced = (run_call-links i f c r.snapshot).0 a.balanced;
    linked = (run_call-links i f c r.snapshot).1 a.linked;
    ends = (run_call-links i f c r.snapshot).2 a.ends;
  }
  Step-IsAccount {r} i f (spawn before after calls rest w) a = record {
    objects =
        a.objects
        ∙ ap (λ b. b || tracked_object lib i r.snapshot)
            (ap (wants (asks_object i)) w ∙ wants-spawn (asks_object i) before after calls rest);
    edges =
        a.edges
        ∙ ap (λ b. b || tracked_edge lib f r.snapshot)
            (ap (wants (asks_edge f)) w ∙ wants-spawn (asks_edge f) before after calls rest);
    balanced = a.balanced;
    linked = a.linked;
    ends = a.ends;
  }
  Step-IsAccount {r} i f (store g q) a =
      let (linked, ends) = store_metadata-links lib f r.snapshot a.linked a.ends in
      record {
        objects = rw (store_metadata-tracked_object lib i r.snapshot) a.objects;
        edges = rw (store_metadata-tracked_edge lib f r.snapshot) a.edges;
        balanced = store_metadata-IsBalanced lib i r.snapshot a.balanced;
        linked = linked;
        ends = ends;
      }
  Step-IsAccount {r} i f (populate g) a =
      let (linked, ends) = populate_graph-links lib f r.snapshot a.linked a.ends in
      let (objects, edges) = populate_graph-rest lib i f r.snapshot in
      record {
        objects = rw objects a.objects;
        edges = rw edges a.edges;
        balanced = populate_graph-IsBalanced lib i r.snapshot a.balanced;
        linked = linked;
        ends = ends;
      }
  Step-IsAccount i f (receive g p e) a = record {
    objects = a.objects;
    edges = a.edges;
    balanced = a.balanced;
    linked = a.linked;
    ends = a.ends;
  }
  Step-IsAccount {r} i f (relate g p q) a =
      let (linked, ends) = relate_objects-links lib f r.snapshot a.linked a.ends in
      let (objects, vertices, metastore, edges) = relate_objects-rest lib i f r.snapshot in
      record {
        objects = rw objects a.objects;
        edges = rw edges a.edges;
        balanced = rw (metastore, vertices) a.balanced;
        linked = linked;
        ends = ends;
      }
  Step-IsAccount i f (walked p e) a = record {
    objects = a.objects;
    edges = a.edges;
    balanced = a.balanced;
    linked = a.linked;
    ends = a.ends;
  }
  Step-IsAccount i f (stored p e) a = record {
    objects = a.objects;
    edges = a.edges;
    balanced = a.balanced;
    linked = a.linked;
    ends = a.ends;
  }
  Step-IsAccount i f (populated p e) a = record {
    objects = a.objects;
    edges = a.edges;
    balanced = a.balanced;
    linked = a.linked;
    ends = a.ends;
  }
  Step-IsAccount i f (related p e) a = record {
    objects = a.objects;
    edges = a.edges;
    balanced = a.balanced;
    linked = a.linked;
    ends = a.ends;
  }

  pub Reach-IsAccount :
      {r : Run lib} (i : FilePath) (f : Edge) → Reach lib (start lib walkers) r → IsAccount i f r
  Reach-IsAccount i f here = start-IsAccount i f
  Reach-IsAccount i f (next reach step) = Step-IsAccount i f step (Reach-IsAccount i f reach)
