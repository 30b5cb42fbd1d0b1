-- ===== src/Args/Build/Checks.antt =====
-- The configurations of src/config/args/mod.rs in `check_prerequisites` of src/pipeline.rs.
use s3rm_rs.Base.{◌≡◌, ok, arith}
use s3rm_rs.Types.Sdk.{Sdk}
use s3rm_rs.Config.{Config}
use s3rm_rs.Storage.{Storage}
use s3rm_rs.Args.{Crates, CliArgs}
use s3rm_rs.Args.Parsers.{IsAccepted}
use s3rm_rs.Args.Build.{try_from}
use s3rm_rs.Args.Build.Laws.{IsSound, try_from-IsSound}
use s3rm_rs.Pipeline.{Pipeline}
use s3rm_rs.Pipeline.Prerequisites.{check_options}

module _ (x : Sdk) (crates : Crates x) (t : Storage) where
  check_options-IsSound :
      (args : CliArgs x) (config : Config x) (p : Pipeline x t)
      → IsSound x crates args config
      → check_options x t config p ≡ (p, ok tt)
  unfolding check_options
  check_options-IsSound args config p sound =
      ground (arith, sound.keep_latest_only, sound.delete_marker_only, sound.if_match)

  -- The pipeline's checks of the options refuse no configuration that comes from arguments that
  -- `clap` accepts.
  pub check_options-try_from :
      (args : CliArgs x) (config : Config x) (p : Pipeline x t)
      → IsAccepted x crates args
      → try_from x crates args ≡ ok config
      → check_options x t config p ≡ (p, ok tt)
  check_options-try_from args config p accepted h =
      check_options-IsSound args config p (try_from-IsSound x crates args config accepted h)
