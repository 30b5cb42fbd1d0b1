-- ===== src/Tests/Runs.antt =====
-- Runs of the pipeline and of the safety check.
use s3rm_rs.Base.{◌≡◌, refl, ◌↔◌, ◌⊎◌, true, false, none, String, List, [], ◌∷◌, ok, Post}
use s3rm_rs.Types.Stats
use s3rm_rs.Config.Defaults.{for_target}
use s3rm_rs.Types.Error.{is_cancelled_error, downcast_s3rm, s3rm, cancelled, message}
use s3rm_rs.Config.{Config}
use s3rm_rs.Safety
use s3rm_rs.Safety.{PromptHandler, SafetyChecker, check_before_deletion}
use s3rm_rs.Safety.Laws.{
  IsConfirmed, check_before_deletion-proceeds, Refusal, check_before_deletion-Refusal,
}
use s3rm_rs.Pipeline.{Pipeline, Task, Joined, worker, filter, failed, panicked}
use s3rm_rs.Pipeline.Prerequisites.{check_prerequisites}
use s3rm_rs.Pipeline.Prerequisites.Laws.{IsChecked, IsUntouched, check_prerequisites-Post}
use s3rm_rs.Pipeline.Run.{Stages, Execution}
use s3rm_rs.Pipeline.Main.{exit_code_of}
use s3rm_rs.Pipeline.Main.Laws.{IsClean, IsGivenUp, exit_code_of-0, Bounds, exit_code_of-Bounds}
use s3rm_rs.Tests.{sdk, bucket, config}

-- A user at a terminal who types one line.
abbrev typing : String → PromptHandler
typing line = record {
  read_confirmation = λ target use_color whole_bucket. ok line;
  is_interactive = true;
}

abbrev careful : Config sdk
careful = record config { force = false; delete_all_versions = true; tracing_config = none }

abbrev checker : SafetyChecker
checker = Safety.new sdk (typing "yes") careful

check_before_deletion-proceeds_example :
    check_before_deletion checker ≡ ok tt
    ↔ (checker.dry_run ≡ true) ⊎ (checker.force ≡ true) ⊎ IsConfirmed checker
check_before_deletion-proceeds_example = check_before_deletion-proceeds checker

abbrev fresh : Pipeline sdk bucket
fresh = record {
  config = careful;
  target = [];
  cancelled = false;
  has_error = false;
  has_panic = false;
  has_warning = false;
  errors = [];
  ready = true;
  prerequisites_checked = false;
  deletion_stats_report = Stats.new;
  stats_closed = false;
  events = [];
}

check_prerequisites-Post_example :
    Post
      (λ _ q. IsChecked sdk bucket (typing "yes") fresh q)
      (IsUntouched sdk bucket fresh)
      (check_prerequisites sdk bucket (typing "yes") fresh)
check_prerequisites-Post_example = check_prerequisites-Post sdk bucket (typing "yes") fresh

-- A worker is told of the cancellation, and a filter fails.
abbrev stages : Stages sdk bucket
stages = record {
  target = "2019/a" ∷ [];
  warned = true;
  cancelled = true;
  report = Stats.new;
  fired = [];
  joins = (worker, failed (s3rm cancelled)) ∷ [];
  late_joins = (filter, failed (message "filter")) ∷ [];
  last_joins = [];
  terminator_panic = none;
}

abbrev execution : Execution sdk bucket
execution c s = stages

abbrev late : List (Task × Joined)
late = (worker, panicked "overflow") ∷ []

abbrev given_up : Pipeline sdk bucket
given_up = record fresh { has_error = true; errors = message "filter" ∷ s3rm cancelled ∷ [] }

exit_code_of-0_example :
    exit_code_of sdk bucket false false given_up ≡ 0
    ↔ (false ≡ false)
      × (false ≡ false)
      × (IsClean sdk bucket given_up ⊎ IsGivenUp sdk bucket given_up)
exit_code_of-0_example = exit_code_of-0 sdk bucket false false given_up

check_before_deletion-Refusal_example :
    (false ≡ false)
    × (false ≡ false)
    × Refusal (Safety.new sdk (typing "no") careful) (s3rm cancelled)
unfolding check_before_deletion Safety.new for_target
check_before_deletion-Refusal_example =
    check_before_deletion-Refusal (Safety.new sdk (typing "no") careful) (s3rm cancelled) refl

abbrev broken : Pipeline sdk bucket
broken = record fresh { has_error = true; errors = message "filter" ∷ [] }

exit_code_of-Bounds_example : Bounds 1 broken.errors (exit_code_of sdk bucket false false broken)
unfolding is_cancelled_error downcast_s3rm
exit_code_of-Bounds_example = exit_code_of-Bounds sdk bucket broken refl refl refl
