-- ===== src/Pipeline/Main.antt =====
-- `run` of src/bin/s3rm/main.rs: the exit code of the program.
pub mod Laws
use s3rm_rs.Base.{
  ℕ, Bool, true, false, Option, none, some, List, [], ◌∷◌, Result, ok, err, if◌then◌else◌, ltb,
}
use s3rm_rs.Types.Error.{Error, exit_code_from_error, is_cancelled_error}
use s3rm_rs.Types.Sdk.{Sdk}
use s3rm_rs.Storage.{Storage}
use s3rm_rs.Safety.{PromptHandler}
use s3rm_rs.Config.{Config}
use s3rm_rs.Pipeline
use s3rm_rs.Pipeline.{Pipeline, get_errors_and_consume}
use s3rm_rs.Pipeline.Prerequisites.{check_prerequisites}
use s3rm_rs.Pipeline.Run.{Execution, run}

abbrev pub exit_code_warning : ℕ
exit_code_warning = 3

abbrev pub exit_code_abnormal_termination : ℕ
exit_code_abnormal_termination = 101

abbrev pub sigint_exit_code : ℕ
sigint_exit_code = 130

abbrev pub max : ℕ → ℕ → ℕ
max a b = if ltb a b then b else a

-- The loop over the errors: it ends with 0 at a cancellation.
unfoldable pub worst_code : ℕ → List Error → ℕ
worst_code code [] = code
worst_code code (e ∷ errors) =
    let rest = worst_code (max code (exit_code_from_error e)) errors in
    if is_cancelled_error e then 0 else rest

abbrev code_of_errors : Option (List Error) → ℕ
code_of_errors none = 1
code_of_errors (some errors) = worst_code 1 errors

module _ (x : Sdk) (t : Storage) where
  -- What follows the progress indicator, whose panic comes first.
  unfoldable pub exit_code_of : Bool → Bool → Pipeline x t → ℕ
  unfolding worst_code get_errors_and_consume
  exit_code_of indicator_panicked is_ctrl_c_received p =
      if indicator_panicked
      then exit_code_abnormal_termination
      else if is_ctrl_c_received
      then sigint_exit_code
      else if p.has_error
      then (if p.has_panic
          then exit_code_abnormal_termination
          else code_of_errors (get_errors_and_consume x t p).1)
      else if p.has_warning
      then exit_code_warning
      else 0

  abbrev refused_code : Error → ℕ
  refused_code e = if is_cancelled_error e then 0 else exit_code_from_error e

  abbrev code_of_run : Bool → Bool → Option (Pipeline x t) → ℕ
  code_of_run indicator_panicked is_ctrl_c_received none = exit_code_abnormal_termination
  code_of_run indicator_panicked is_ctrl_c_received (some p) =
      exit_code_of indicator_panicked is_ctrl_c_received p

  abbrev after_check :
      Execution x t → PromptHandler → Bool → Bool → Pipeline x t × Result (Unit {0}) Error → ℕ
  after_check e h indicator_panicked is_ctrl_c_received (p, err error) = refused_code error
  after_check e h indicator_panicked is_ctrl_c_received (p, ok u) =
      code_of_run indicator_panicked is_ctrl_c_received (run x t h e p)

  -- `register_user_defined_callbacks`: the callbacks are disabled unless they are tested.
  unfoldable pub register_user_defined_callbacks : Config x → Config x
  register_user_defined_callbacks config =
      if config.test_user_defined_callback
      then record config { event_callback_registered = true; filter_callback_registered = true }
      else config

  -- `run`: the code that the process ends with; a panic gives 101. The booleans tell whether the
  -- task of the progress indicator panicked, and whether Ctrl-C was pressed.
  unfoldable pub main : Execution x t → PromptHandler → Bool → Bool → Config x → t.State → ℕ
  unfolding exit_code_of run Pipeline.new check_prerequisites register_user_defined_callbacks
  main e h indicator_panicked is_ctrl_c_received config target =
      after_check e h indicator_panicked is_ctrl_c_received (
        check_prerequisites x t h
          (Pipeline.new x t (register_user_defined_callbacks config) target))
