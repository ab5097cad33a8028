-- ===== src/Delta/Equal.antt =====
-- `SnapshotsEqual` of core/state.go, and `Hash` of core/snapshot.go and core/metadata.go.
use laforge.Base.{
  ℕ, suc, Bool, true, ◌&&◌, ◌≡◌, refl, ap, List, [], ◌∷◌, length, arith, ◌==◌, if◌then◌else◌,
}
use laforge.Metadata.GoPath.{FilePath}
use laforge.Revision.{Metadata}
use laforge.Delta.{Revs, Metastore, checksums, rev_hashes}
use laforge.Checksum
use laforge.Base.Sort.{maximum}
use laforge.Checksum.Hash.{hash-collision}

module _ (sum64 : List ℕ → ℕ) (dependency_hash : FilePath → ℕ) where
  -- A checksum of 0 is calculated anew from the dependency, which is taken to be there; the objects of
  -- a persisted snapshot have none, and Go panics where such an object has the checksum 0.
  metadata_hash : Metadata → ℕ
  metadata_hash m = if m.checksum == 0 then dependency_hash m.id else m.checksum

  pub snapshot_checksums : Metastore → List ℕ
  unfolding metadata_hash
  snapshot_checksums [] = []
  snapshot_checksums ((k, m) ∷ store) = metadata_hash m ∷ snapshot_checksums store

  unfoldable pub snapshot_hash : Metastore → ℕ
  unfolding snapshot_checksums
  snapshot_hash store = Checksum.hash sum64 (snapshot_checksums store)

  -- The snapshots, then the known and the new revisions.
  unfoldable pub snapshots_equal : Metastore → Metastore → Revs → Revs → Bool
  unfolding snapshot_hash
  snapshots_equal persisted current known new =
      snapshot_hash persisted == snapshot_hash current
      && rev_hashes sum64 known == rev_hashes sum64 new

  abbrev pub largest : Metastore → ℕ
  largest store = maximum (snapshot_checksums store)

  length-snapshot_checksums : (store : Metastore) → length (snapshot_checksums store) ≡ length store
  unfolding snapshot_checksums
  length-snapshot_checksums [] = refl
  length-snapshot_checksums ((k, m) ∷ store) = ap suc (length-snapshot_checksums store)

  snapshot_hash-collision :
      (a b : Metastore)
      → length a ≡ length b
      → largest a ≡ largest b
      → snapshot_hash a ≡ snapshot_hash b
  unfolding snapshot_hash
  snapshot_hash-collision a b l m =
      hash-collision sum64 (snapshot_checksums a) (snapshot_checksums b)
        (omega (arith, length-snapshot_checksums a, length-snapshot_checksums b)) m

length-checksums : (revs : Revs) → length (checksums revs) ≡ length revs
unfolding checksums
length-checksums [] = refl
length-checksums ((k, r) ∷ revs) = ap suc (length-checksums revs)

rev_hashes-collision :
    (sum64 : List ℕ → ℕ) (a b : Revs)
    → length a ≡ length b
    → maximum (checksums a) ≡ maximum (checksums b)
    → rev_hashes sum64 a ≡ rev_hashes sum64 b
unfolding rev_hashes
rev_hashes-collision sum64 a b l m =
    hash-collision sum64 (checksums a) (checksums b)
      (omega (arith, length-checksums a, length-checksums b)) m

-- Two snapshots, and two sets of revisions, that agree in their sizes and in their largest checksums
-- are taken for equal, whichever other objects changed.
pub change_unseen :
    (sum64 : List ℕ → ℕ) (dependency_hash : FilePath → ℕ) (persisted current : Metastore)
    (known new : Revs)
    → length persisted ≡ length current
    → largest sum64 dependency_hash persisted ≡ largest sum64 dependency_hash current
    → length known ≡ length new
    → maximum (checksums known) ≡ maximum (checksums new)
    → snapshots_equal sum64 dependency_hash persisted current known new ≡ true
unfolding snapshots_equal
change_unseen sum64 dependency_hash persisted current known new a b c d = ground (
  arith,
  snapshot_hash-collision sum64 dependency_hash persisted current a b,
  rev_hashes-collision sum64 known new c d,
)
