-- ===== src/Delta/Strategy.antt =====
-- The delta of the revisions, ID by ID.
use laforge.Base.{
  Bool, true, false, ◌||◌, not, ◌≡◌, refl, Option, none, some, [], ◌∷◌, arith, ◌==◌, if◌then◌else◌,
  ◌∙◌, Bool-cases, inl, inr,
}
use laforge.Base.Eq.{path_eq, path_same, path_same_iff}
use laforge.Base.Assoc.{lookup, has_key, insert, lookup-insert}
use laforge.Metadata.GoPath.{FilePath}
use laforge.Revision.{Revision, RevMod, delete, create, rebuild}
use laforge.Delta.{
  Revs, RevDelta, is_failed, is_stale, mark, write_mark, mark_new, mark_deleted,
  generate_revision_delta,
}

-- A map has one entry for each key.
abbrev pub UniqueKeys : Revs → Type 0
UniqueKeys [] = Unit
UniqueKeys ((k, r) ∷ revs) = (lookup k revs ≡ none) × UniqueKeys revs

-- A revision is out of date if its checksum changed, it failed, or one of the two is stale.
abbrev pub out_of_date : Revision → Revision → Bool
out_of_date new known =
    not (new.checksum == known.checksum)
    || (is_failed known.status || (is_stale new.status || is_stale known.status))

-- What the delta holds for an ID, from what the two maps hold for it.
abbrev pub action_for : Option Revision → Option Revision → Option RevMod
action_for (some new) none = some create
action_for (some new) (some known) = if out_of_date new known then some rebuild else none
action_for none (some known) = some delete
action_for none none = none

abbrev is_some : {A : Type 0} → Option A → Bool
is_some none = false
is_some (some a) = true

abbrev or_before : Option RevMod → Option RevMod → Option RevMod
or_before (some a) before = some a
or_before none before = before

abbrev marked : Revs → FilePath → Option Revision → Option RevMod → Option RevMod
marked known j none before = before
marked known j (some new) before = or_before (mark (lookup j known) new) before

lookup-write_mark :
    (k j : FilePath) (o : Option RevMod) (delta : RevDelta)
    → lookup j (write_mark k o delta)
      ≡ (if path_same k j then or_before o (lookup j delta) else lookup j delta)
unfolding write_mark
lookup-write_mark k j none delta = ground arith
lookup-write_mark k j (some a) delta = lookup-insert k j a delta

lookup-mark_new :
    (known new : Revs) (j : FilePath) (delta : RevDelta)
    → UniqueKeys new
    → lookup j (mark_new known new delta) ≡ marked known j (lookup j new) (lookup j delta)
unfolding mark_new lookup
lookup-mark_new known [] j delta u = refl
lookup-mark_new known ((k, r) ∷ new) j delta u =
    let m = mark (lookup k known) r in
    elim (Bool-cases (path_same k j)) [
      | inl e ↦
          let q : k ≡ j = (path_same_iff k j).0 e in
          ground (
            arith,
            e,
            q,
            u.0,
            lookup-mark_new known new j (write_mark k m delta) u.1,
            lookup-write_mark k j m delta,
          )
      | inr e ↦ ground (
        arith,
        e,
        lookup-mark_new known new j (write_mark k m delta) u.1,
        lookup-write_mark k j m delta,
      )
    ]

lookup-mark_deleted :
    (new known : Revs) (j : FilePath) (delta : RevDelta)
    → lookup j (mark_deleted new known delta) ≡ (
        if has_key j known
        then (if has_key j new then lookup j delta else some delete)
        else lookup j delta)
unfolding mark_deleted lookup
lookup-mark_deleted new [] j delta = refl
lookup-mark_deleted new ((k, r) ∷ known) j delta = elim (Bool-cases (path_same k j)) [
  | inl e ↦
      let q : k ≡ j = (path_same_iff k j).0 e in
      ground (
        arith,
        e,
        q,
        lookup-insert k j delete delta,
        lookup-mark_deleted new known j (if has_key k new then delta else insert k delete delta),
      )
  | inr e ↦ ground (
    arith,
    e,
    lookup-insert k j delete delta,
    lookup-mark_deleted new known j (if has_key k new then delta else insert k delete delta),
  )
]

merged :
    (known : Revs) (j : FilePath) (n k : Option Revision) (d : Option RevMod)
    → lookup j known ≡ k
    → d ≡ marked known j n none
    → (if is_some k then (if is_some n then d else some delete) else d) ≡ action_for n k
unfolding mark
merged known j none none d e m = ground arith
merged known j none (some k) d e m = refl
merged known j (some n) none d e m = ground arith
merged known j (some n) (some k) d e m = ground arith

-- Starting from the empty delta, `GenerateRevisionDelta` says of every ID: create what is only new,
-- delete what is only known, rebuild what is out of date, and nothing of the rest.
pub lookup-generate_revision_delta :
    (new known : Revs) (j : FilePath)
    → UniqueKeys new
    → lookup j (generate_revision_delta new known []) ≡ action_for (lookup j new) (lookup j known)
unfolding generate_revision_delta
lookup-generate_revision_delta new known j u =
    lookup-mark_deleted new known j (mark_new known new [])
    ∙ merged known j (lookup j new) (lookup j known) _ refl
        (unfold lookup in lookup-mark_new known new j [] u)
