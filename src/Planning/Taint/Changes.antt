-- ===== src/Planning/Taint/Changes.antt =====
-- The changes that the walks of core/state.go find, and their lineage.
use laforge.Base.{
  true, false, not, ◌≡◌, refl, sym, ◌∙◌, inl, inr, Option, none, some, List, [], ◌∷◌, ◌++◌, arith,
  ◌==◌, In, In-append_left, In-append_right, Bool-cases, if◌then◌else◌, subst,
}
use laforge.Base.Eq.{path_eq, path_same}
use laforge.Base.Assoc.{lookup, has_key, insert, has_key-insert, same_refl}
use laforge.Metadata.GoPath.{FilePath}
use laforge.Revision.{touch, Metadata}
use laforge.Delta.{Metastore}
use laforge.Planning.Dag.{Dag, Result, ok, panic, require, no_ancestors, >>=-eq-ok}
use laforge.Planning.Taint.{
  IdSet, Found, root_id, is_rebuild, compare_checksums, visit_found, visit_base, taint_host,
  visit_known, visit_target, walk_with, add_all, lineage,
}

-- What `compare_checksums` makes of a vertex that both metastores have.
abbrev noted : FilePath → Metadata → Metadata → Found → Found
noted id m b w =
    if not (m.checksum == b.checksum)
    then record w { changes = w.changes ++ id ∷ []; delta = insert id touch w.delta }
    else w

noted-keeps :
    (id j : FilePath) (m b : Metadata) (w : Found) → In j w.changes → In j (noted id m b w).changes
noted-keeps id j m b w h = elim (Bool-cases (m.checksum == b.checksum)) [
  | inl c ↦ rw c h
  | inr c ↦ rw c (In-append_left j w.changes (id ∷ []) h)
]

compare_checksums-keeps :
    (id j : FilePath) (m : Metadata) (o : Option Metadata) (w w' : Found)
    → compare_checksums id m o w ≡ ok w'
    → In j w.changes
    → In j w'.changes
unfolding compare_checksums
compare_checksums-keeps id j m none w w' e h = cc
compare_checksums-keeps id j m (some b) w w' e h =
    let p : noted id m b w ≡ w' = cc in subst (λ o. In j o.changes) p (noted-keeps id j m b w h)

compare_checksums-adds :
    (id : FilePath) (m b : Metadata) (w w' : Found)
    → (m.checksum == b.checksum) ≡ false
    → compare_checksums id m (some b) w ≡ ok w'
    → In id w'.changes
unfolding compare_checksums
compare_checksums-adds id m b w w' c e =
    let p : noted id m b w ≡ w' = cc in
    subst (λ o. In id o.changes) p (rw c (In-append_right id w.changes (id ∷ []) (inl refl)))

visit_known-keeps :
    (base : Metastore) (id : FilePath) (w : Found) → (visit_known base id w).changes ≡ w.changes
unfolding visit_known taint_host
visit_known-keeps base id w = ground arith

-- A callback that loses no change.
abbrev Keeps : (FilePath → Found → Result Found) → Type 0
Keeps visit =
    (id j : FilePath) (w w' : Found) → visit id w ≡ ok w' → In j w.changes → In j w'.changes

pub visit_target-Keeps : (base target : Metastore) → Keeps (visit_target base target)
unfolding visit_target
visit_target-Keeps base target id j w w' e h = elim (Bool-cases (path_same id root_id)) [
  | inl c ↦
      let p : visit_target base target id w ≡ ok w = rw c refl in
      let q : w ≡ w' = cc in subst (λ o. In j o.changes) q h
  | inr c ↦ elim (Bool-cases (has_key id target)) [
    | inl k ↦
        let p : visit_target base target id w ≡ ok (visit_known base id w) = rw c (rw k refl) in
        let q : visit_known base id w ≡ w' = cc in
        subst (λ o. In j o.changes) q (subst (λ l. In j l) (sym (visit_known-keeps base id w)) h)
    | inr k ↦ let p : visit_target base target id w ≡ panic = rw c (rw k refl) in cc
  ]
]

visit_found-keeps :
    (base : Metastore) (id j : FilePath) (o : Option Metadata) (w w' : Found)
    → visit_found base id o w ≡ ok w'
    → In j w.changes
    → In j w'.changes
unfolding visit_found
visit_found-keeps base id j none w w' e h =
    let q : record w { deletions = w.deletions ++ id ∷ [] } ≡ w' = cc in
    subst (λ o. In j o.changes) q h
visit_found-keeps base id j (some m) w w' e h = elim (Bool-cases (is_rebuild (lookup id w.delta))) [
  | inl r ↦
      let p : visit_found base id (some m) w ≡ ok (record w { changes = w.changes ++ id ∷ [] }) =
        rw r refl in
      let q : record w { changes = w.changes ++ id ∷ [] } ≡ w' = cc in
      subst (λ o. In j o.changes) q (In-append_left j w.changes (id ∷ []) h)
  | inr r ↦
      let p : visit_found base id (some m) w ≡ compare_checksums id m (lookup id base) w =
        rw r refl in
      compare_checksums-keeps id j m (lookup id base) w w' (sym p ∙ e) h
]

visit_found-adds :
    (base : Metastore) (id : FilePath) (b m : Metadata) (w w' : Found)
    → lookup id base ≡ some b
    → (m.checksum == b.checksum) ≡ false
    → visit_found base id (some m) w ≡ ok w'
    → In id w'.changes
unfolding visit_found
visit_found-adds base id b m w w' hb c e = elim (Bool-cases (is_rebuild (lookup id w.delta))) [
  | inl r ↦
      let p : visit_found base id (some m) w ≡ ok (record w { changes = w.changes ++ id ∷ [] }) =
        rw r refl in
      let q : record w { changes = w.changes ++ id ∷ [] } ≡ w' = cc in
      subst (λ o. In id o.changes) q (In-append_right id w.changes (id ∷ []) (inl refl))
  | inr r ↦
      let p : visit_found base id (some m) w ≡ compare_checksums id m (some b) w =
        rw r (rw hb refl) in
      compare_checksums-adds id m b w w' c (sym p ∙ e)
]

visit_base-Keeps : (base target : Metastore) → Keeps (visit_base base target)
unfolding visit_base
visit_base-Keeps base target id j w w' e h = visit_found-keeps base id j (lookup id target) w w' e h

pub walk_with-Keeps :
    (visit : FilePath → Found → Result Found) (ids : List FilePath) (j : FilePath) (w w' : Found)
    → Keeps visit
    → walk_with visit ids w ≡ ok w'
    → In j w.changes
    → In j w'.changes
unfolding walk_with
walk_with-Keeps visit [] j w w' k e h = let q : w ≡ w' = cc in subst (λ o. In j o.changes) q h
walk_with-Keeps visit (id ∷ ids) j w w' k e h =
    let (v, p, q) = >>=-eq-ok (visit id w) _ e in
    walk_with-Keeps visit ids j v w' k q (k id j w v p h)

visit_base-adds :
    (base target : Metastore) (id : FilePath) (b m : Metadata) (w w' : Found)
    → lookup id base ≡ some b
    → lookup id target ≡ some m
    → (m.checksum == b.checksum) ≡ false
    → visit_base base target id w ≡ ok w'
    → In id w'.changes
unfolding visit_base
visit_base-adds base target id b m w w' hb ht c e =
    let p = subst (λ o. visit_found base id o w ≡ ok w') ht e in
    visit_found-adds base id b m w w' hb c p

-- The walk over the persisted graph finds every vertex whose checksum differs.
pub walk_base-finds :
    (base target : Metastore) (ids : List FilePath) (id : FilePath) (b m : Metadata) (w w' : Found)
    → lookup id base ≡ some b
    → lookup id target ≡ some m
    → (m.checksum == b.checksum) ≡ false
    → In id ids
    → walk_with (visit_base base target) ids w ≡ ok w'
    → In id w'.changes
unfolding walk_with
walk_base-finds base target [] id b m w w' hb ht c h e = elim h [ ]
walk_base-finds base target (k ∷ ids) id b m w w' hb ht c (inr h) e =
    let (v, p, q) = >>=-eq-ok (visit_base base target k w) _ e in
    walk_base-finds base target ids id b m v w' hb ht c h q
walk_base-finds base target (k ∷ ids) id b m w w' hb ht c (inl h) e =
    let (v, p, q) = >>=-eq-ok (visit_base base target k w) _ e in
    walk_with-Keeps (visit_base base target) ids id v w' (visit_base-Keeps base target) q (
      visit_base-adds base target id b m w v hb ht c
        (subst (λ j. visit_base base target j w ≡ ok v) (sym h) p))

has_key-insert_keeps :
    (j k : FilePath) (set : IdSet) → has_key j set ≡ true → has_key j (insert k true set) ≡ true
has_key-insert_keeps j k set h = ground (arith, has_key-insert k j true set, h)

add_all-keeps :
    (ids : List FilePath) (set : IdSet) (j : FilePath)
    → has_key j set ≡ true
    → has_key j (add_all ids set) ≡ true
unfolding add_all
add_all-keeps [] set j h = h
add_all-keeps (k ∷ ids) set j h =
    add_all-keeps ids (insert k true set) j (has_key-insert_keeps j k set h)

module _ (dag : Dag) where
  open dag use {Graph, ancestors}

  lineage-keeps :
      (g : Graph) (changes : List FilePath) (set out : IdSet) (j : FilePath)
      → has_key j set ≡ true
      → lineage dag g changes set ≡ ok out
      → has_key j out ≡ true
  unfolding lineage
  lineage-keeps g [] set out j h e = let q : set ≡ out = cc in subst (λ s. has_key j s ≡ true) q h
  lineage-keeps g (id ∷ changes) set out j h e =
      let (above, p, q) = >>=-eq-ok (require (ancestors g id) no_ancestors) _ e in
      lineage-keeps g changes _ out j
        (add_all-keeps above (insert id true set) j (has_key-insert_keeps j id set h)) q

  -- The lineage has every change.
  pub lineage-changes :
      (g : Graph) (changes : List FilePath) (set out : IdSet) (j : FilePath)
      → In j changes
      → lineage dag g changes set ≡ ok out
      → has_key j out ≡ true
  unfolding lineage
  lineage-changes g [] set out j h e = elim h [ ]
  lineage-changes g (id ∷ changes) set out j (inr h) e =
      let (above, p, q) = >>=-eq-ok (require (ancestors g id) no_ancestors) _ e in
      lineage-changes g changes _ out j h q
  lineage-changes g (id ∷ changes) set out j (inl h) e =
      let (above, p, q) = >>=-eq-ok (require (ancestors g id) no_ancestors) _ e in
      lineage-keeps g changes _ out j
        (add_all-keeps above (insert id true set) j
          (has_key-insert id j true set ∙ rw h (rw (same_refl id) refl)))
        q
