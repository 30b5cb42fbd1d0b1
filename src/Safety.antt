-- ===== src/Safety.antt =====
-- `SafetyChecker` of src/safety/mod.rs. A `PromptHandler` is a parameter: the texts that
-- `StdioPromptHandler` prints are left out, as is the terminal it reads from.
pub mod Laws
use s3rm_rs.Base.{
  Bool, true, false, not, Option, none, some, String, ◌<>◌, Result, ok, err, try, if◌then◌else◌,
  str_eq,
}
use s3rm_rs.Types.Target.{is_empty}
use s3rm_rs.Types.Error.{Error, s3rm, invalid_config, cancelled}
use s3rm_rs.Types.Sdk.{Sdk}
use s3rm_rs.Config.{Config, StoragePath, TracingConfig}

-- What is on the terminal: the line that is read behind a prompt, trimmed, given the target's
-- display, whether to use colors and whether the whole bucket is meant.
pub record PromptHandler : Type 0 where
  pub read_confirmation : String → Bool → Bool → Result String Error
  pub is_interactive : Bool

pub record SafetyChecker : Type 0 where
  pub dry_run : Bool
  pub force : Bool
  pub json_logging : Bool
  pub disable_color : Bool
  pub target_display : String
  pub whole_bucket : Bool
  pub prompt_handler : PromptHandler

unfoldable pub format_target : StoragePath → String
unfolding is_empty
format_target target =
    if is_empty target.prefix
    then "s3://" <> (target.bucket <> "/")
    else "s3://" <> (target.bucket <> ("/" <> target.prefix))

unfoldable pub is_whole_bucket : StoragePath → Bool
unfolding is_empty
is_whole_bucket target = is_empty target.prefix

abbrev pub json_logging_of : Option TracingConfig → Bool
json_logging_of none = false
json_logging_of (some tc) = tc.json_tracing

abbrev pub disable_color_of : Option TracingConfig → Bool
disable_color_of none = false
disable_color_of (some tc) = tc.disable_color_tracing

-- `SafetyChecker::new`
unfoldable pub new : (x : Sdk) → PromptHandler → Config x → SafetyChecker
unfolding format_target is_whole_bucket
new x prompt_handler config = record {
  dry_run = config.dry_run;
  force = config.force;
  json_logging = json_logging_of config.tracing_config;
  disable_color = disable_color_of config.tracing_config;
  target_display = format_target config.target;
  whole_bucket = is_whole_bucket config.target;
  prompt_handler = prompt_handler;
}

unfoldable pub is_non_interactive : SafetyChecker → Bool
is_non_interactive c = if c.json_logging then true else not c.prompt_handler.is_interactive

abbrev pub non_interactive_error : Error
non_interactive_error = s3rm (
    invalid_config
      "Cannot run destructive operation without --force (-f) in a non-interactive environment (no TTY). Use --force to skip confirmation, or --dry-run to preview deletions.")

-- The line that the user types at the prompt.
abbrev pub answer : SafetyChecker → Result String Error
answer c = c.prompt_handler.read_confirmation c.target_display (not c.disable_color) c.whole_bucket

abbrev confirm : String → Result (Unit {0}) Error
confirm input = if str_eq input "yes" then ok tt else err (s3rm cancelled)

unfoldable pub prompt_confirmation : SafetyChecker → Result (Unit {0}) Error
prompt_confirmation c = try (answer c) confirm

unfoldable pub check_before_deletion : SafetyChecker → Result (Unit {0}) Error
unfolding is_non_interactive prompt_confirmation
check_before_deletion c =
    if c.dry_run
    then ok tt
    else if c.force
    then ok tt
    else if is_non_interactive c
    then err non_interactive_error
    else prompt_confirmation c
