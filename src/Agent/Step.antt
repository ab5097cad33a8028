-- ===== src/Agent/Step.antt =====
-- agent/step.go: one action on the local machine. What the operating system answers comes in as a
-- `Machine`; the messages of its errors are texts.
use laforge.Base.{
  ℕ, String, Bool, true, false, Option, none, some, ◌≡◌, refl, arith, str_eq, if◌then◌else◌,
}

-- A value, or a Go panic.
pub data Fault {ℓ} (A : Type ℓ) : Type ℓ where
  ok : A → Fault A
  panic : Fault A

infixl 5 ◌>>=◌
abbrev pub ◌>>=◌ {ℓ κ} : {X : Type ℓ} {Y : Type κ} → Fault X → (X → Fault Y) → Fault Y
panic >>= next = panic
ok value >>= next = next value

-- A chain that ends in a value has one after its first step.
pub >>=-eq-ok {ℓ κ} :
    {X : Type ℓ} {Y : Type κ} (first : Fault X) (next : X → Fault Y) {out : Y}
    → (first >>= next) ≡ ok out
    → (mid : X) × (first ≡ ok mid) × (next mid ≡ ok out)
>>=-eq-ok panic next whole = cc
>>=-eq-ok (ok mid) next whole = (mid, refl, whole)

-- `status` is "" before the step is run. A zero `EndedAt` is `none`; times are nanoseconds.
pub record Step : Type 0 where
  pub id : ℕ
  pub step_type : String
  pub language : Option String
  pub status : String
  pub started_at : ℕ
  pub ended_at : Option ℕ
  pub exit_status : ℕ
  pub exit_error : Option String

-- How a command goes: its log files cannot be made, it cannot be started or fails, or it succeeds.
pub data CommandRun : Type 0 where
  no_log : String → CommandRun
  failed : String → CommandRun
  succeeded : CommandRun

-- The machine while a step runs.
pub record Machine : Type 0 where
  pub now : ℕ
  pub windows : Bool
  pub copy : Option String
  pub chmod : Option String
  pub run : CommandRun

pub can_proceed : Step → Bool
can_proceed s = if str_eq s.status "finished" then true else false

unfoldable pub prepare : ℕ → Step → Step
prepare now s = record s { status = "started"; started_at = now }

run_with : CommandRun → Step → Step × Option String
run_with (no_log e) s = (s, some e)
run_with (failed e) s = (record s { exit_error = some e; exit_status = 1 }, some e)
run_with succeeded s = (s, none)

run_command : Machine → Step → Step × Option String
unfolding run_with
run_command m s = run_with m.run s

-- `chmod` comes before the command.
after_chmod : Option String → Machine → Step → Step × Option String
unfolding run_command
after_chmod (some e) m s = (s, some e)
after_chmod none m s = run_command m s

execute_linux : Machine → Step → Step × Option String
unfolding after_chmod
execute_linux m s = after_chmod m.chmod m s

-- s.Metadata["language"].(string); either language runs a command on the source file.
execute_by_language : Option String → Machine → Step → Fault (Step × Option String)
unfolding run_command
execute_by_language none m s = panic
execute_by_language (some language) m s = ok (run_command m s)

execute_script : Machine → Step → Fault (Step × Option String)
unfolding execute_by_language execute_linux
execute_script m s =
    if m.windows then execute_by_language s.language m s else ok (execute_linux m s)

perform_type : Machine → Step → Fault (Step × Option String)
unfolding execute_script
perform_type m s =
    if str_eq s.step_type "dns_record"
    then ok (s, none)
    else if str_eq s.step_type "remote_file"
    then ok (s, m.copy)
    else if str_eq s.step_type "script"
    then execute_script m s
    else ok (s, none)

-- The deferred function sets `EndedAt` whatever the outcome.
end_step : Machine → Step × Option String → Fault (Step × Option String)
end_step m (s, e) = ok (record s { ended_at = some m.now }, e)

unfoldable pub perform : Machine → Step → Fault (Step × Option String)
unfolding perform_type end_step
perform m s = perform_type m s >>= end_step m

-- Running a step leaves its status, its ID and its start as they were.
pub perform_keeps :
    (m : Machine) (s t : Step) (e : Option String)
    → perform m s ≡ ok (t, e)
    → (t.status ≡ s.status) × (t.id ≡ s.id) × (t.started_at ≡ s.started_at)
unfolding perform
perform_keeps m s t e h = ground arith
