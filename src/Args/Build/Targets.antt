-- ===== src/Args/Build/Targets.antt =====
-- The target of src/config/args/mod.rs against `S3Target` of src/types/mod.rs, and the arguments
-- that are certain to give a configuration.
use s3rm_rs.Base.{
  ℕ, ◌≤◌, ◌≡◌, refl, false, Option, none, some, unwrap_or, String, Result, ok, err, Bool-cases,
  Option-cases, inl, inr, arith,
}
use s3rm_rs.Types.Error.{Error}
use s3rm_rs.Types.Sdk.{Sdk}
use s3rm_rs.Types.Target.{
  S3Target, is_empty, split_slash, split_target, non_empty, checked, parse_rest, parse,
}
use s3rm_rs.Config.{Config, StoragePath}
use s3rm_rs.Args.{Crates, CliArgs, refused}
use s3rm_rs.Args.Parsers.{IsAccepted, AtLeast, check_s3_target, error_message_invalid_target}
use s3rm_rs.Args.Build.{
  Answer, path_of, parse_target, try_from, check_rate_limit, below, effective_batch_size,
  register_callbacks, config_of, register,
}
use s3rm_rs.Args.Build.Inputs.{
  check_s3_target-slice_from, build_filter_config-IsAccepted, parse_human_bytes-checked,
}

abbrev pub target_of : S3Target → StoragePath
target_of t = record { bucket = t.bucket; prefix = unwrap_or t.prefix "" }

-- The path that a parsed target stands for; any error becomes the message of the command line.
abbrev pub path_of_target : Result S3Target Error → Answer StoragePath
path_of_target (ok t) = ok (target_of t)
path_of_target (err e) = err (refused error_message_invalid_target)

non_empty-unwrap_or : (s : String) → unwrap_or (non_empty s) "" ≡ s
unfolding non_empty is_empty
non_empty-unwrap_or String.[] = refl
non_empty-unwrap_or (String.◌∷◌ c s) = refl

path_of-empty : (uri : String) → path_of "" ≡ path_of_target (parse_rest uri "")
unfolding path_of parse_rest split_slash is_empty
path_of-empty uri = refl

path_of-parse_rest : (uri rest : String) → path_of rest ≡ path_of_target (parse_rest uri rest)
unfolding path_of parse_rest split_target checked is_empty
path_of-parse_rest uri String.[] = path_of-empty uri
path_of-parse_rest uri (String.◌∷◌ c s) = elim (Option-cases (split_slash (String.◌∷◌ c s))) [
  | inl e ↦ rw (split_target, e) refl
  | inr ((bucket, prefix), e) ↦ elim (Bool-cases (is_empty bucket)) [
    | inl empty ↦ rw (split_target, e, empty) refl
    | inr full ↦ rw (split_target, e, full, non_empty-unwrap_or prefix) refl
  ]
]

-- For an accepted target, the command line and `S3Target::parse` agree: both find the same bucket
-- and prefix, where no prefix is an empty one, or both refuse it.
pub parse_target-parse :
    (uri : String) → check_s3_target uri ≡ ok uri → parse_target uri ≡ path_of_target (parse uri)
unfolding parse_target parse
parse_target-parse uri h =
    let (rest, e, cut) = check_s3_target-slice_from uri h in
    rw (cut, parse, e) (path_of-parse_rest uri rest)

module _ (x : Sdk) (crates : Crates x) where
  below-AtLeast : (o : Option ℕ) (m n : ℕ) → AtLeast x crates n o → m ≤ n → below o m ≡ false
  below-AtLeast none m n h small = refl
  below-AtLeast (some rate) m n h small = ground arith

  effective_batch_size-le :
      (args : CliArgs x) (target : StoragePath)
      → 1 ≤ args.batch_size
      → effective_batch_size x args target ≤ args.batch_size
  unfolding effective_batch_size
  effective_batch_size-le args target h = ground arith

  check_rate_limit-AtLeast :
      (args : CliArgs x) (target : StoragePath)
      → IsAccepted x crates args
      → AtLeast x crates args.batch_size args.rate_limit_objects
      → check_rate_limit x args (effective_batch_size x args target) ≡ ok tt
  check_rate_limit-AtLeast args target accepted h =
      rw
        (below-AtLeast args.rate_limit_objects (effective_batch_size x args target) args.batch_size
          h (effective_batch_size-le args target accepted.batch_size.0))
        refl

  -- Arguments that `clap` accepts and that name a bucket give a configuration, if the batch size is
  -- at most the rate limit and there is no script.
  pub try_from_succeeds :
      (args : CliArgs x) (t : S3Target)
      → IsAccepted x crates args
      → parse args.target ≡ ok t
      → AtLeast x crates args.batch_size args.rate_limit_objects
      → args.filter_callback_lua_script ≡ none
      → args.event_callback_lua_script ≡ none
      → (config : Config x) × (try_from x crates args ≡ ok config) × (config.target ≡ target_of t)
  unfolding try_from register_callbacks config_of register
  try_from_succeeds args t accepted named rate no_filter no_event =
      let (filter_config, e_filter, keep, marker) =
        build_filter_config-IsAccepted x crates args accepted in
      let (limit, e_limit) =
        parse_human_bytes-checked x crates args.lua_vm_memory_limit accepted.memory_limit in
      let e_target = parse_target-parse args.target accepted.target in
      let e_rate = check_rate_limit-AtLeast args (target_of t) accepted rate in
      (
        config_of x args (target_of t) filter_config limit false false,
        rw (e_target, named, e_filter, e_rate, e_limit, no_filter, no_event) refl,
        refl,
      )
