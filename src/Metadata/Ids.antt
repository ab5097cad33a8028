-- ===== src/Metadata/Ids.antt =====
-- How the objects of a build get their IDs: the `SetID` methods of core/build.go, core/team.go,
-- core/provisioned_network.go, core/provisioned_host.go, core/provisioning_step.go and
-- core/connection.go. The first argument is the ID that the object has.
use laforge.Base.{ℕ, String, [], ◌∷◌, if◌then◌else◌}
use laforge.Metadata.GoPath.{FilePath, base, join, is_blank, dir}

abbrev pub no_id : FilePath
no_id = "" ∷ []

-- if p.ID == "" { p.ID = … }
keep_or_set : FilePath → FilePath → FilePath
unfolding is_blank
keep_or_set id new = if is_blank id then new else id

unfoldable pub set_build_id : FilePath → FilePath → String → FilePath
unfolding keep_or_set join
set_build_id id env builder = keep_or_set id (join env (builder ∷ []))

module _ (decimal : ℕ → String) where
  -- `decimal` is fmt.Sprintf("%d", n).
  unfoldable pub set_team_id : FilePath → FilePath → ℕ → FilePath
  unfolding keep_or_set join
  set_team_id id build number = keep_or_set id (join build ("teams" ∷ decimal number ∷ []))

unfoldable pub set_network_id : FilePath → FilePath → FilePath → FilePath
unfolding keep_or_set join base
set_network_id id team network = keep_or_set id (join team ("networks" ∷ base network ∷ []))

unfoldable pub set_host_id : FilePath → FilePath → FilePath → FilePath
unfolding keep_or_set join base
set_host_id id network host = keep_or_set id (join network ("hosts" ∷ base host ∷ []))

unfoldable pub set_connection_id : FilePath → FilePath → FilePath
unfolding keep_or_set join
set_connection_id id host = keep_or_set id (join host ("conn" ∷ []))

module _ (step_name : ℕ → String → String) where
  -- `step_name` is fmt.Sprintf("%d-%s", n, s).
  unfoldable pub set_step_id : FilePath → FilePath → ℕ → FilePath → FilePath
  unfolding keep_or_set join base
  set_step_id id host number provisioner =
      keep_or_set id (join host ("steps" ∷ step_name number (base provisioner) ∷ []))

-- The methods `ParentLaforgeID`.
unfoldable pub build_parent_id : FilePath → FilePath
build_parent_id id = dir id

unfoldable pub team_parent_id : FilePath → FilePath
team_parent_id id = dir (dir id)

unfoldable pub network_parent_id : FilePath → FilePath
network_parent_id id = dir (dir id)

unfoldable pub host_parent_id : FilePath → FilePath
host_parent_id id = dir (dir id)

unfoldable pub step_parent_id : FilePath → FilePath
step_parent_id id = dir (dir id)

unfoldable pub connection_parent_id : FilePath → FilePath
connection_parent_id id = dir id
