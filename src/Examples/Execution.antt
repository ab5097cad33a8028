-- ===== src/Examples/Execution.antt =====
-- Tasks that succeed and fail, and the terraform commands of a team.
use laforge.Base.{
  ℕ, ◌+◌, Bool, true, false, ◌≡◌, refl, ◌⊎◌, inl, inr, Option, none, some, List, [], ◌∷◌, ◌++◌, map,
  length,
}
use laforge.Base.Eq.{path_eq}
use laforge.Base.Assoc.{lookup, has_key}
use laforge.Metadata.GoPath.{FilePath}
use laforge.Metadata.{is_global_type}
use laforge.Revision.{active, failed}
use laforge.Planning.Dag.{Dag}
use laforge.Execution.Attempts.{perform_in_timeout, Event, timed_out, finished_phase, extension}
use laforge.Execution.Orchestrator.{
  Phase, checking, ensuring, doing, cleaning, finishing, phases, Task, Job, Progress, orchestrator,
  orchestrate_all, any_failed,
}
use laforge.Execution.Orchestrator.Lineage.{failed_lineage_blocks}
use laforge.Execution.Orchestrator.Phases.{
  IsReady, written, orchestrator-active, orchestrator-failed,
}
use laforge.Terraform.{Inputs, Sequences, commands_of, calculate_terraform_needs}
use laforge.Terraform.Partial.{IsSequence}
use laforge.Terraform.Sequence.{calculate_terraform_needs-IsSequence}
use laforge.Examples.Planning.{host_path, step_path, step_at}

-- The step is below the host.
abbrev dag : Dag
dag = record {
  Graph = Unit {0};
  walk = λ g. [];
  ancestors = λ g id. some [];
  descendents = λ g id. some (step_path ∷ []);
  root = λ g. some host_path;
  validate = λ g. true;
  depth_first_walk = λ g id. [];
}

abbrev all_well : Phase → List Event
all_well phase = extension 2 ∷ finished_phase ∷ []

abbrev breaks_at_doing : Phase → List Event
breaks_at_doing doing = extension 2 ∷ timed_out ∷ []
breaks_at_doing phase = finished_phase ∷ []

abbrev task : (Phase → List Event) → Task
task events = record { metadata = step_at 9; events = events }

abbrev job : (Phase → List Event) → Job
job events = record {
  tainted = (step_path, true) ∷ (host_path, true) ∷ [];
  tasks = (step_path, task events) ∷ [];
  can_write = λ id. true;
  now = 5;
}

abbrev untouched : Progress
untouched = record { errored = false; failed_nodes = []; files = []; begun = [] }

ready :
    (events : Phase → List Event) → IsReady dag tt (job events) step_path (task events) untouched
unfolding is_global_type laforge.Metadata.type_by_path laforge.Metadata.GoPath.base
    laforge.Metadata.GoPath.dir laforge.Metadata.GoPath.is_abs lookup laforge.Base.Eq.path_same
    any_failed
ready events = record {
  running = refl;
  local = refl;
  is_tainted = refl;
  below = step_path ∷ [];
  found = refl;
  none_failed = refl;
  has_task = refl;
}

orchestrator-active_example :
    (lookup step_path (orchestrator dag tt (job all_well) step_path untouched).files
      ≡ some (written (job all_well) (task all_well) active))
    × ((orchestrator dag tt (job all_well) step_path untouched).begun
        ≡ map (λ phase. (step_path, phase)) phases)
    × ((orchestrator dag tt (job all_well) step_path untouched).failed_nodes ≡ [])
unfolding perform_in_timeout
orchestrator-active_example =
    orchestrator-active dag tt (job all_well) step_path (task all_well) untouched (ready all_well)
      refl (refl, (refl, (refl, (refl, (refl, tt)))))

orchestrator-failed_example :
    (lookup step_path (orchestrator dag tt (job breaks_at_doing) step_path untouched).files
      ≡ some (written (job breaks_at_doing) (task breaks_at_doing) failed))
    × ((orchestrator dag tt (job breaks_at_doing) step_path untouched).begun
        ≡ (step_path, checking) ∷ (step_path, ensuring) ∷ (step_path, doing) ∷ [])
    × (has_key step_path
          (orchestrator dag tt (job breaks_at_doing) step_path untouched).failed_nodes
        ≡ true)
unfolding perform_in_timeout
orchestrator-failed_example =
    orchestrator-failed dag tt (job breaks_at_doing) step_path (task breaks_at_doing) untouched
      (checking ∷ ensuring ∷ []) (cleaning ∷ finishing ∷ []) doing (ready breaks_at_doing) refl refl
      (refl, (refl, tt)) (inr refl)

abbrev step_failed : Progress
step_failed = record untouched { failed_nodes = (step_path, true) ∷ [] }

failed_lineage_blocks_example :
    orchestrator dag tt
      (job all_well)
      host_path
      (orchestrate_all dag tt (job all_well) (step_path ∷ []) step_failed)
    ≡ orchestrate_all dag tt (job all_well) (step_path ∷ []) step_failed
unfolding lookup laforge.Base.Eq.path_same
failed_lineage_blocks_example =
    failed_lineage_blocks dag tt (job all_well) (step_path ∷ []) host_path step_path
      (step_path ∷ []) step_failed refl refl (inl refl)

-- A host whose connection is known by another name.
abbrev inputs : Inputs
inputs = record {
  host_of = λ id. some (
      some (record {
        path = host_path;
        conn = some (record {
          path = host_path ++ "conn" ∷ [];
          resource_name = "aws_instance" ∷ "web" ∷ [];
        });
      }));
  connections = [];
}

abbrev needs_of : Option Sequences → Sequences
needs_of none = []
needs_of (some out) = out

abbrev needs : Sequences
needs = needs_of (calculate_terraform_needs inputs (host_path ∷ []))

needed : calculate_terraform_needs inputs (host_path ∷ []) ≡ some needs
unfolding calculate_terraform_needs laforge.Metadata.type_by_path laforge.Metadata.GoPath.base
    laforge.Metadata.GoPath.dir laforge.Metadata.get_team_id_from_path
needed = refl

abbrev team_path : FilePath
team_path = "" ∷ "envs" ∷ "dev" ∷ "tf" ∷ "teams" ∷ "0" ∷ []

calculate_terraform_needs-IsSequence_example :
    (commands_of team_path needs ≡ []) ⊎ IsSequence (commands_of team_path needs)
calculate_terraform_needs-IsSequence_example =
    calculate_terraform_needs-IsSequence inputs (host_path ∷ []) needs team_path needed
