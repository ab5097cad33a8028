-- ===== src/Metadata.antt =====
-- core/metadata.go: what the ID of an object says about the object. An ID is a `/`-separated path,
-- kept as the list that `strings.Split(p, "/")` gives: "/envs/dev" is "" ∷ "envs" ∷ "dev" ∷ [].
pub mod GoPath
pub mod Ids
pub mod Schema
pub mod Types
pub mod Parents
use GoPath.{FilePath, is_abs, base, dir}
use laforge.Base.{
  ℕ, suc, String, Bool, true, false, ◌&&◌, not, List, [], ◌∷◌, ltb, length, str_eq, if◌then◌else◌,
}

pub data LfType : Type 0 where
  competition network host remote_file command dns_record script environment build team : LfType
  provisioned_network provisioned_host connection provisioning_step unknown : LfType

-- pelms[1], which an absolute path has
second : FilePath → String
second (a ∷ b ∷ r) = b
second p = ""

-- What stands below /envs, by the names of the directories that hold it.
local_type : FilePath → LfType
local_type p =
    if str_eq (base (dir p)) "envs"
    then environment
    else if str_eq (base (dir (dir p))) "envs"
    then build
    else if str_eq (base (dir p)) "teams"
    then team
    else if str_eq (base (dir p)) "networks" && str_eq (second p) "envs"
    then provisioned_network
    else if str_eq (base (dir p)) "hosts" && str_eq (second p) "envs"
    then provisioned_host
    else if str_eq (base p) "conn" && str_eq (base (dir (dir p))) "hosts"
    then connection
    else if str_eq (base (dir p)) "steps" && str_eq (second p) "envs"
    then provisioning_step
    else unknown

unfoldable pub type_by_path : FilePath → LfType
unfolding is_abs second local_type
type_by_path p =
    if not (is_abs p)
    then competition
    else if str_eq (second p) "scripts"
    then script
    else if str_eq (second p) "networks"
    then network
    else if str_eq (second p) "hosts"
    then host
    else if str_eq (second p) "commands"
    then command
    else if str_eq (second p) "dns-records"
    then dns_record
    else if str_eq (second p) "files"
    then remote_file
    else local_type p

-- The switch of `IsGlobalType`.
abbrev pub is_global : LfType → Bool
is_global competition = true
is_global command = true
is_global network = true
is_global host = true
is_global dns_record = true
is_global remote_file = true
is_global script = true
is_global _ = false

unfoldable pub is_global_type : FilePath → Bool
is_global_type p = is_global (type_by_path p)

pub data TeamIdError : Type 0 where
  not_absolute too_short not_in_env : TeamIdError

pub data TeamIdResult : Type 0 where
  team_id : FilePath → TeamIdResult
  failure : TeamIdError → TeamIdResult

-- pelms[0:6], where there are six
first_six : FilePath → FilePath
first_six (a ∷ b ∷ c ∷ d ∷ e ∷ f ∷ r) = a ∷ b ∷ c ∷ d ∷ e ∷ f ∷ []
first_six p = p

unfoldable pub get_team_id_from_path : FilePath → TeamIdResult
unfolding is_abs first_six second
get_team_id_from_path p =
    if not (is_abs p)
    then failure not_absolute
    else if ltb (length p) 6
    then failure too_short
    else if not (str_eq (second p) "envs")
    then failure not_in_env
    else team_id (first_six p)
