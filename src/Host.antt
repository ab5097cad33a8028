-- ===== src/Host.antt =====
-- core/host.go: the provisioners and the addresses of a host.
pub mod Resolved
pub mod Statuses
pub mod Index
pub mod Address
use laforge.Base.{
  ℕ, String, Bool, true, false, Option, none, some, List, [], ◌∷◌, ◌++◌, if◌then◌else◌,
}
use laforge.Base.Eq.{string_eq}
use laforge.Base.Assoc.{lookup, insert}

-- The object types of a provisioning step; `included` is one that is not resolved yet.
pub data ObjectType : Type 0 where
  included script command remote_file dns_record : ObjectType

-- Objects by name; a number stands for the pointer.
abbrev pub Objects : Type 0
Objects = List (String × ℕ)

abbrev pub Statuses : Type 0
Statuses = List (String × ObjectType)

-- The four maps of a `Laforge`, or of a host.
pub record Library : Type 0 where
  pub scripts : Objects
  pub commands : Objects
  pub remote_files : Objects
  pub dns_records : Objects

-- A provisioner with its pointer; `none` is nil.
pub data Provisioner : Type 0 where
  script_of command_of remote_file_of dns_record_of : Option ℕ → Provisioner

pub record Host : Type 0 where
  pub provision_steps : List String
  pub own : Library
  pub provisioners : List Provisioner

abbrev pub is_included : ObjectType → Bool
is_included included = true
is_included _ = false

-- for _, s := range h.ProvisionSteps { iprov[s] = "included" }
include_all : List String → Statuses → Statuses
include_all [] iprov = iprov
include_all (s ∷ steps) iprov = include_all steps (insert s included iprov)

resolve_one : ObjectType → String → ℕ → Option ObjectType → Statuses × Objects → Statuses × Objects
resolve_one kind name object none w = w
resolve_one kind name object (some status) (iprov, found) =
    if is_included status
    then (insert name kind iprov, insert name object found)
    else (iprov, found)

-- One of the four loops over the objects of a kind.
pub resolve : ObjectType → Objects → Statuses × Objects → Statuses × Objects
unfolding resolve_one
resolve kind [] w = w
resolve kind ((name, object) ∷ objects) w =
    resolve kind objects (resolve_one kind name object (lookup name w.0) w)

-- for x, status := range iprov { if status == "included" { return … } }
pub first_unmet : Statuses → Option String
first_unmet [] = none
first_unmet ((x, status) ∷ iprov) =
    let rest = first_unmet iprov in if is_included status then some x else rest

pub provisioner_for : Library → String → Option ObjectType → Option Provisioner
provisioner_for own s (some script) = some (script_of (lookup s own.scripts))
provisioner_for own s (some command) = some (command_of (lookup s own.commands))
provisioner_for own s (some remote_file) = some (remote_file_of (lookup s own.remote_files))
provisioner_for own s (some dns_record) = some (dns_record_of (lookup s own.dns_records))
provisioner_for own s (some included) = none
provisioner_for own s none = none

-- The last loop; it ends at a step that has no provisioner.
order_steps : Statuses → List String → Host → Host × Option String
unfolding provisioner_for
order_steps iprov [] h = (h, none)
order_steps iprov (s ∷ steps) h = elim (provisioner_for h.own s (lookup s iprov)) [
  | none ↦ (h, some s)
  | some p ↦ order_steps iprov steps (record h { provisioners = h.provisioners ++ p ∷ [] })
]

-- The host with its maps, and the step that is unmet, if there is one.
finish_index : Statuses → Option String → Host → Host × Option String
unfolding order_steps
finish_index iprov (some x) h = (h, some x)
finish_index iprov none h = order_steps iprov h.provision_steps h

pub resolved : Library → List String → Statuses × Library
unfolding include_all resolve
resolved base steps =
    let scripts = resolve script base.scripts (include_all steps [], []) in
    let commands = resolve command base.commands (scripts.0, []) in
    let files = resolve remote_file base.remote_files (commands.0, []) in
    let records = resolve dns_record base.dns_records (files.0, []) in
    (
      records.0,
      record {
        scripts = scripts.1;
        commands = commands.1;
        remote_files = files.1;
        dns_records = records.1;
      },
    )

unfoldable pub index : Library → Host → Host × Option String
unfolding resolved finish_index first_unmet
index base h =
    let (iprov, own) = resolved base h.provision_steps in
    finish_index iprov (first_unmet iprov) (record h { own = own; provisioners = [] })
