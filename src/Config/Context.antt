-- ===== src/Config/Context.antt =====
-- The contexts of core/base.go: from which directory Laforge is run, and what is loaded for it.
use laforge.Base.{ℕ, ◌≤◌, Bool, true, ◌≡◌, ◌↔◌, arith, leb, ◌==◌, if◌then◌else◌}

-- The constants of type StateContext, which `iota` numbers.
pub data StateContext : Type 0 where
  team_context build_context env_context base_context global_context no_context : StateContext

unfoldable pub level : StateContext → ℕ
level team_context = 0
level build_context = 1
level env_context = 2
level base_context = 3
level global_context = 4
level no_context = 5

-- The fields that `InitializeContext` sets.
pub record Found : Type 0 where
  pub valid_team : Bool
  pub valid_build : Bool
  pub valid_env : Bool
  pub valid_base : Bool
  pub valid_global : Bool

unfoldable pub get_context : Found → StateContext
get_context l =
    if l.valid_team
    then team_context
    else if l.valid_build
    then build_context
    else if l.valid_env
    then env_context
    else if l.valid_base
    then base_context
    else if l.valid_global
    then global_context
    else no_context

-- Is there no error?
unfoldable pub assert_min_context : Found → StateContext → Bool
unfolding level get_context
assert_min_context l s = leb (level (get_context l)) (level s)

unfoldable pub assert_exact_context : Found → StateContext → Bool
unfolding level get_context
assert_exact_context l s = level (get_context l) == level s

-- Was a configuration of this context found?
abbrev pub is_found : Found → StateContext → Bool
is_found l team_context = l.valid_team
is_found l build_context = l.valid_build
is_found l env_context = l.valid_env
is_found l base_context = l.valid_base
is_found l global_context = l.valid_global
is_found l no_context = true

get_context-is_found : (l : Found) → is_found l (get_context l) ≡ true
unfolding get_context
get_context-is_found l = ground arith

get_context_least :
    (l : Found) (c : StateContext) → is_found l c ≡ true → level (get_context l) ≤ level c
unfolding get_context level
get_context_least l team_context h = ground (arith, h)
get_context_least l build_context h = ground (arith, h)
get_context_least l env_context h = ground (arith, h)
get_context_least l base_context h = ground (arith, h)
get_context_least l global_context h = ground (arith, h)
get_context_least l no_context h = ground (arith, h)

leb-true : (a b : ℕ) → (leb a b ≡ true) ↔ (a ≤ b)
leb-true a b = ground arith

-- `AssertMinContext` has no error exactly when a configuration of some context was found that is the
-- given one or lies further inside.
pub assert_min_context-is_found :
    (l : Found) (s : StateContext)
    → (assert_min_context l s ≡ true)
      ↔ ((c : StateContext) × (is_found l c ≡ true) × (level c ≤ level s))
unfolding assert_min_context
assert_min_context-is_found l s = (
  λ h. (get_context l, get_context-is_found l, (leb-true (level (get_context l)) (level s)).0 h),
  λ (c, f, k).
      (leb-true (level (get_context l)) (level s)).1 (omega (arith, get_context_least l c f, k)),
)
