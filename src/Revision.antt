-- ===== src/Revision.antt =====
-- core/revision.go: what is known on disk of an object; and `ToRevision` of core/metadata.go.
use laforge.Base.{ℕ, String, Option}
use laforge.Metadata.GoPath.{FilePath}
use laforge.Metadata.{LfType, type_by_path}

pub data RevStatus : Type 0 where
  unknown stale active planned failed : RevStatus

pub data RevMod : Type 0 where
  touch delete create rebuild : RevMod

pub record Revision : Type 0 where
  pub id : FilePath
  pub type : LfType
  pub status : RevStatus
  pub checksum : ℕ
  pub timestamp : ℕ
  pub external_id : String

-- `now` is time.Now().
unfoldable pub touch_revision : ℕ → Revision → Revision
touch_revision now r = record r { status = active; timestamp = now }

unfoldable pub touch_with_id : ℕ → String → Revision → Revision
unfolding touch_revision
touch_with_id now s r = let t = touch_revision now r in record t { external_id = s }

unfoldable pub taint : ℕ → Revision → Revision
taint now r = record r { status = stale; timestamp = now; checksum = 666 }

-- An object of the snapshot. Of its dependency there is the parent's ID and, if it is a provisioned
-- host, the remote address of its connection, where it has one.
pub record Metadata : Type 0 where
  pub id : FilePath
  pub checksum : ℕ
  pub parent_id : FilePath
  pub host : Option (Option String)

unfoldable pub to_revision : ℕ → Metadata → Revision
to_revision now m = record {
  id = m.id;
  type = type_by_path m.id;
  status = planned;
  checksum = m.checksum;
  timestamp = now;
  external_id = "";
}
