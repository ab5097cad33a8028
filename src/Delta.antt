-- ===== src/Delta.antt =====
-- core/state.go: what the revisions on disk and those of the current snapshot say must be done.
pub mod Strategy
pub mod Equal
use laforge.Base.{
  ℕ, Bool, true, false, ◌||◌, not, Option, none, some, List, [], ◌∷◌, map, ◌==◌, if◌then◌else◌,
}
use laforge.Base.Eq.{path_eq}
use laforge.Base.Assoc.{lookup, has_key, insert}
use laforge.Metadata.GoPath.{FilePath}
use laforge.Revision.{
  Revision, RevStatus, stale, failed, RevMod, touch, delete, create, rebuild, Metadata, to_revision,
}
use laforge.Checksum

abbrev pub Revs : Type 0
Revs = List (FilePath × Revision)

abbrev pub RevDelta : Type 0
RevDelta = List (FilePath × RevMod)

-- A Metastore; `range` meets its entries in the order of the list.
abbrev pub Metastore : Type 0
Metastore = List (FilePath × Metadata)

-- for _, x := range s.Current.Metastore { rev := x.ToRevision(); s.NewRevs[rev.ID] = rev }
unfoldable pub generate_current_revs : ℕ → Metastore → Revs → Revs
unfolding to_revision
generate_current_revs now [] revs = revs
generate_current_revs now ((k, m) ∷ store) revs =
    let rev = to_revision now m in generate_current_revs now store (insert rev.id rev revs)

abbrev pub is_failed : RevStatus → Bool
is_failed failed = true
is_failed _ = false

abbrev pub is_stale : RevStatus → Bool
is_stale stale = true
is_stale _ = false

-- One new revision against the known ones: what the loop writes, if it writes.
mark : Option Revision → Revision → Option RevMod
mark none new = some create
mark (some known) new =
    if not (new.checksum == known.checksum)
    then some rebuild
    else if is_failed known.status
    then some rebuild
    else if is_stale new.status || is_stale known.status
    then some rebuild
    else none

write_mark : FilePath → Option RevMod → RevDelta → RevDelta
write_mark id none delta = delta
write_mark id (some action) delta = insert id action delta

mark_new : Revs → Revs → RevDelta → RevDelta
unfolding mark write_mark
mark_new known [] delta = delta
mark_new known ((id, new) ∷ revs) delta =
    mark_new known revs (write_mark id (mark (lookup id known) new) delta)

mark_deleted : Revs → Revs → RevDelta → RevDelta
mark_deleted new [] delta = delta
mark_deleted new ((id, known) ∷ revs) delta =
    mark_deleted new revs (if has_key id new then delta else insert id delete delta)

unfoldable pub generate_revision_delta : Revs → Revs → RevDelta → RevDelta
unfolding mark_new mark_deleted
generate_revision_delta new known delta = mark_deleted new known (mark_new known new delta)

pub checksums : Revs → List ℕ
checksums [] = []
checksums ((id, r) ∷ revs) = r.checksum ∷ checksums revs

module _ (sum64 : List ℕ → ℕ) where
  -- The methods `NewRevHashes` and `KnownRevHashes`.
  unfoldable pub rev_hashes : Revs → ℕ
  unfolding checksums
  rev_hashes revs = Checksum.hash sum64 (checksums revs)
