-- ===== src/Config.antt =====
-- core/mergeable.go, core/caller.go and `Mask` of core/base.go: how one configuration file is laid over
-- another.
pub mod Layers
pub mod Context
use laforge.Base.{
  ℕ, String, Bool, true, false, not, ◌&&◌, Option, none, some, List, [], ◌∷◌, ◌++◌, ◌==◌, str_eq,
  if◌then◌else◌,
}
use laforge.Base.Eq.{string_eq}
use laforge.Base.Assoc.{lookup, insert}

pub record OnConflict : Type 0 where
  pub strategy : String
  pub append : Bool

-- An object of the configuration: what the merge reads of it, and its other fields.
pub record Object (Fields : Type 0) : Type 0 where
  pub on_conflict : Option OnConflict
  pub caller : List String
  pub fields : Fields

-- Caller.Stack
unfoldable pub stack : List String → List String → List String
stack c n = n ++ c

pub data MergeError : Type 0 where
  merge_failed conflict invalid_strategy user_failed registry_panic : MergeError

-- The fifteen maps of a `Laforge`, in the order in which `Mask` meets them.
pub data Kind : Type 0 where
  hosts networks identities scripts commands remote_files dns_records competitions : Kind
  environments builds teams provisioned_networks provisioned_hosts provisioning_steps connections :
      Kind

pub number : Kind → ℕ
number hosts = 0
number networks = 1
number identities = 2
number scripts = 3
number commands = 4
number remote_files = 5
number dns_records = 6
number competitions = 7
number environments = 8
number builds = 9
number teams = 10
number provisioned_networks = 11
number provisioned_hosts = 12
number provisioning_steps = 13
number connections = 14

abbrev pub kinds : List Kind
kinds =
    hosts ∷ networks ∷ identities ∷ scripts ∷ commands ∷ remote_files ∷ dns_records ∷ competitions
    ∷ environments ∷ builds ∷ teams ∷ provisioned_networks ∷ provisioned_hosts ∷ provisioning_steps
    ∷ connections ∷ []

-- provisioned_host.go, provisioned_network.go and provisioning_step.go append where nothing is said.
pub appends : Kind → Bool
appends provisioned_networks = true
appends provisioned_hosts = true
appends provisioning_steps = true
appends _ = false

-- The `GetOnConflict` of the objects of a kind.
unfoldable pub get_on_conflict : {Fields : Type 0} → Kind → Object Fields → OnConflict
unfolding appends
get_on_conflict k m = elim m.on_conflict [
  | none ↦ record { strategy = "default"; append = appends k }
  | some c ↦ c
]

-- `merge append dst src` is mergo's overriding merge of `src` into `dst`, with its error if it has one.
module _ {Fields : Type 0}
    (merge : Bool → Object Fields → Object Fields → Object Fields × Bool) where
  pub data Merged : Type 0 where
    ok : Object Fields → Merged
    err : MergeError → Merged

  merged_or : Bool → Object Fields → Merged
  merged_or true m = err merge_failed
  merged_or false m = ok m

  merge_default : Kind → Object Fields → Object Fields → Merged
  unfolding get_on_conflict stack merged_or
  merge_default k m diff =
      let (m', failed) = merge (get_on_conflict k diff).append m diff in
      merged_or failed (record m' { caller = stack m.caller diff.caller })

  merge_overwrite : Kind → Object Fields → Object Fields → Merged
  unfolding get_on_conflict
  merge_overwrite k m diff = ok (record diff { on_conflict = some (get_on_conflict k m) })

  merge_inherit : Kind → Object Fields → Object Fields → Merged
  unfolding get_on_conflict stack merged_or
  merge_inherit k m diff =
      let (d', failed) = merge (get_on_conflict k m).append diff m in
      merged_or failed (record d' {
        caller = stack m.caller diff.caller;
        on_conflict = some (get_on_conflict k m);
      })

  -- The object `m` after the merge. `Swap` cannot fail between two objects of one kind.
  unfoldable pub smart_merge : Kind → Object Fields → Object Fields → Merged
  unfolding get_on_conflict merge_default merge_overwrite merge_inherit
  smart_merge k m diff =
      let s = (get_on_conflict k diff).strategy in
      if str_eq s ""
      then merge_default k m diff
      else if str_eq s "default"
      then merge_default k m diff
      else if str_eq s "overwrite"
      then merge_overwrite k m diff
      else if str_eq s "inherit"
      then merge_inherit k m diff
      else if str_eq s "skip"
      then ok m
      else if str_eq s "panic"
      then err conflict
      else err invalid_strategy

  abbrev pub Objects : Type 0
  Objects = List (String × Object Fields)

  pub data Masked {ℓ} (A : Type ℓ) : Type ℓ where
    masked : A → Masked A
    refused : MergeError → Masked A

  -- The merged object takes the place of the one it was merged into.
  put : String → Merged → Objects → Masked Objects
  put name (ok m) base = masked (insert name m base)
  put name (err e) base = refused e

  mask_object : Kind → String → Object Fields → Option (Object Fields) → Objects → Masked Objects
  unfolding put smart_merge
  mask_object k name obj none base = masked (insert name obj base)
  mask_object k name obj (some orig) base = put name (smart_merge k orig obj) base

  and_then : {A B : Type 0} → Masked A → (A → Masked B) → Masked B
  and_then (masked a) f = f a
  and_then (refused e) f = refused e

  -- One of the loops of `Mask`.
  unfoldable pub mask_kind : Kind → Objects → Objects → Masked Objects
  unfolding mask_object and_then
  mask_kind k [] base = masked base
  mask_kind k ((name, obj) ∷ layer) base =
      and_then (mask_object k name obj (lookup name base) base) (λ b. mask_kind k layer b)

  abbrev pub Namespace : Type 0
  Namespace = Kind → Objects

  with_kind : Kind → Objects → Namespace → Namespace
  unfolding number
  with_kind k objects space j = if number k == number j then objects else space j

  mask_kinds : List Kind → Namespace → Namespace → Masked Namespace
  unfolding mask_kind with_kind and_then
  mask_kinds [] layer base = masked base
  mask_kinds (k ∷ ks) layer base =
      and_then (mask_kind k (layer k) (base k))
        (λ objects. mask_kinds ks layer (with_kind k objects base))

-- `merge_registry` and `merge_user` are mergo's overriding merges of the two values; `no_user` is the
-- empty `User`.
module _ {Fields Registry User : Type 0}
    (merge : Bool → Object Fields → Object Fields → Object Fields × Bool)
    (merge_registry : Registry → Registry → Registry × Bool)
    (merge_user : User → User → User × Bool) (no_user : User) where
  pub record Laforge : Type 0 where
    pub objects : Namespace merge
    pub path_registry : Registry
    pub caller : List String
    pub filename : String
    pub base_dir : String
    pub user : Option User

  -- A name that is set takes the place of the old one.
  renamed : String → String → String
  renamed new old = if not (str_eq old new) && not (str_eq new "") then new else old

  user_or_new : Option User → User
  user_or_new none = no_user
  user_or_new (some u) = u

  with_user : Laforge → User × Bool → Masked merge Laforge
  with_user l (u, true) = refused user_failed
  with_user l (u, false) = masked (record l { user = some u })

  relocated : Laforge → Laforge → Registry → Laforge
  unfolding renamed
  relocated l diff r = record l {
    path_registry = r;
    caller = diff.caller;
    filename = renamed diff.filename l.filename;
    base_dir = renamed diff.base_dir l.base_dir;
  }

  with_registry : Laforge → Laforge → Registry × Bool → Masked merge Laforge
  unfolding user_or_new with_user
  with_registry l diff (r, true) = refused registry_panic
  with_registry l diff (r, false) =
      with_user (relocated l diff r) (merge_user (user_or_new l.user) (user_or_new diff.user))

  -- Laforge.Update
  unfoldable pub update : Laforge → Laforge → Masked merge Laforge
  unfolding with_registry relocated
  update l diff = with_registry l diff (merge_registry l.path_registry diff.path_registry)

  -- `Mask`, after the index of the layer has been made.
  unfoldable pub mask : Laforge → Laforge → Masked merge Laforge
  unfolding mask_kinds and_then update
  mask base layer =
      and_then merge (mask_kinds merge kinds layer.objects base.objects)
        (λ objects. update (record base { objects = objects }) layer)
