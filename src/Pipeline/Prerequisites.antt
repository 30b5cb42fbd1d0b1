-- ===== src/Pipeline/Prerequisites.antt =====
-- `check_prerequisites` of src/pipeline.rs.
pub mod Laws
use s3rm_rs.Base.{
  Bool, true, false, not, ◌&&◌, Result, ok, err, M, ◌>>=◌, ◌>>◌, return, fail, modify, and_then,
  if◌then◌else◌, String,
}
use s3rm_rs.Types.Error.{Error, message}
use s3rm_rs.Types.Sdk.{Sdk}
use s3rm_rs.Config.{Config}
use s3rm_rs.Storage.{Storage}
use s3rm_rs.Safety
use s3rm_rs.Safety.{PromptHandler, SafetyChecker, check_before_deletion}
use s3rm_rs.Pipeline.{Pipeline}

module _ (x : Sdk) (t : Storage) where
  abbrev pub Action : Type 0 → Type 0
  Action A = M (Pipeline x t) Error A

  abbrev reject : String → Action (Unit {0})
  reject text = fail (message text)

  abbrev done : Action (Unit {0})
  done = return tt

  -- The tests of the configuration that ask nobody.
  unfoldable pub check_options : Config x → Action (Unit {0})
  check_options config =
      if config.filter_config.keep_latest_only && not config.delete_all_versions
      then reject "--keep-latest-only requires --delete-all-versions."
      else if config.filter_config.delete_marker_only && not config.delete_all_versions
      then reject "--filter-delete-marker-only requires --delete-all-versions."
      else if config.if_match && config.delete_all_versions
      then reject
          "--if-match cannot be used with --delete-all-versions. S3 does not support If-Match conditional headers when deleting by version ID."
      else done

  -- `self.target.is_versioning_enabled().await?`
  abbrev ask_versioning : Action Bool
  ask_versioning p = let (s, r) = t.is_versioning_enabled p.target in (record p { target = s }, r)

  abbrev clear_all_versions : Pipeline x t → Pipeline x t
  clear_all_versions p = record p { config = record p.config { delete_all_versions = false } }

  -- `delete_all_versions` on a bucket without versioning.
  unfoldable pub give_up_versions : Config x → Bool → Action (Unit {0})
  give_up_versions config true = done
  give_up_versions config false =
      if config.filter_config.keep_latest_only
      then reject "--keep-latest-only cannot be used on a non-versioned bucket."
      else if config.filter_config.delete_marker_only
      then reject "--filter-delete-marker-only cannot be used on a non-versioned bucket."
      else modify clear_all_versions

  unfoldable pub check_versioning : Config x → Action (Unit {0})
  unfolding give_up_versions
  check_versioning config =
      if config.delete_all_versions then ask_versioning >>= give_up_versions config else done

  abbrev pub lift : Result (Unit {0}) Error → Action (Unit {0})
  lift r p = (p, r)

  abbrev pub mark_checked : Pipeline x t → Pipeline x t
  mark_checked p = record p { prerequisites_checked = true }

  abbrev pub finish_checks : Config x → Action (Unit {0})
  finish_checks config = do check_versioning config; modify mark_checked

  -- `check_prerequisites`
  unfoldable pub check_prerequisites : PromptHandler → Action (Unit {0})
  unfolding Safety.new check_before_deletion check_options check_versioning
  check_prerequisites h p =
      and_then (p, check_before_deletion (Safety.new x h p.config))
        (λ _. do check_options p.config; finish_checks p.config)
