-- ===== src/Planning/Dag.antt =====
-- What core uses of terraform's `dag.AcyclicGraph`, and the results of planning.
use laforge.Base.{ℕ, Bool, Option, List, ◌≡◌, refl}
use laforge.Metadata.GoPath.{FilePath}

-- `walk` and `depth_first_walk` list the calls of their callback in the order in which they are
-- made. `none` stands for an error.
pub record Dag : Type 1 where
  pub Graph : Type 0
  pub walk : Graph → List FilePath
  pub ancestors : Graph → FilePath → Option (List FilePath)
  pub descendents : Graph → FilePath → Option (List FilePath)
  pub root : Graph → Option FilePath
  pub validate : Graph → Bool
  pub depth_first_walk : Graph → FilePath → List (FilePath × ℕ)

pub data PlanError : Type 0 where
  persisted_nil current_nil locate_failed snapshots_match : PlanError
  no_ancestors no_descendents no_root invalid_graph : PlanError

-- A value, an error that is returned, or a Go panic.
pub data Result {ℓ} (X : Type ℓ) : Type ℓ where
  panic : Result X
  err : PlanError → Result X
  ok : X → Result X

infixl 5 ◌>>=◌ ◌>>◌
abbrev pub ◌>>=◌ {ℓ κ} : {X : Type ℓ} {Y : Type κ} → Result X → (X → Result Y) → Result Y
panic >>= next = panic
err failure >>= next = err failure
ok value >>= next = next value

abbrev pub ◌>>◌ {κ} : {Y : Type κ} → Result (Unit {0}) → Result Y → Result Y
first >> second = first >>= λ u. second

abbrev pub require {ℓ} : {A : Type ℓ} → Option A → PlanError → Result A
require o e = elim o [ Option.none ↦ err e | Option.some a ↦ ok a ]

abbrev pub guard : Bool → PlanError → Result (Unit {0})
guard holds e = elim holds [ Bool.false ↦ err e | Bool.true ↦ ok tt ]

-- A chain that ends in a value has one after its first step.
pub >>=-eq-ok {ℓ κ} :
    {X : Type ℓ} {Y : Type κ} (first : Result X) (next : X → Result Y) {out : Y}
    → (first >>= next) ≡ ok out
    → (mid : X) × (first ≡ ok mid) × (next mid ≡ ok out)
>>=-eq-ok panic next whole = cc
>>=-eq-ok (err failure) next whole = cc
>>=-eq-ok (ok mid) next whole = (mid, refl, whole)

pub require-eq-ok {ℓ} :
    {A : Type ℓ} (o : Option A) (e : PlanError) (a : A) → require o e ≡ ok a → o ≡ Option.some a
require-eq-ok Option.none e a h = cc
require-eq-ok (Option.some b) e a h = cc
