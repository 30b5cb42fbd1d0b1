-- ===== src/Args/Parsers.antt =====
-- The value parsers of src/config/args/mod.rs and src/config/args/value_parser, and what `clap` has
-- checked when it hands the arguments over.
use s3rm_rs.Base.{
  ℕ, suc, ◌^◌, ◌≤◌, ◌≡◌, Bool, true, false, not, ◌&&◌, Option, none, some, is_some, String, ◌<>◌,
  Result, ok, err, try, ltb, str_eq, if◌then◌else◌,
}
use s3rm_rs.Types.Sdk.{Sdk}
use s3rm_rs.Types.Target.{strip_prefix}
use s3rm_rs.Args.{Crates, CliArgs}

abbrev pub error_message_invalid_target : String
error_message_invalid_target = "target must be an S3 path (e.g. s3://bucket/prefix)"

-- The length of a text, in characters. `len` counts bytes, but only its test for the five of the
-- scheme matters, which are one byte each.
abbrev pub len : String → ℕ
len String.[] = 0
len (String.◌∷◌ c s) = suc (len s)

abbrev pub starts_with : String → String → Bool
starts_with s p = is_some (strip_prefix p s)

unfoldable pub check_s3_target : String → Result String String
unfolding strip_prefix
check_s3_target s =
    if starts_with s "s3://" && ltb 5 (len s) then ok s else err error_message_invalid_target

-- The text of a `TryFromIntError`.
abbrev out_of_range : String
out_of_range = "out of range integral type conversion attempted"

-- `u64::try_from` of a larger number.
abbrev to_u64 : ℕ → Result ℕ String
to_u64 n = if ltb n (2 ^ 64) then ok n else err out_of_range

module _ (x : Sdk) (crates : Crates x) where
  unfoldable pub check_human_bytes : String → Result String String
  check_human_bytes value =
      try (crates.byte_from_str value) (λ bytes. try (to_u64 bytes) (λ n. ok value))

  -- The conversion behind the check cannot fail, so that its panic is left out.
  unfoldable pub parse_human_bytes : String → Result ℕ String
  unfolding check_human_bytes
  parse_human_bytes value =
      try (check_human_bytes value) (λ checked. try (crates.byte_from_str value) to_u64)

  unfoldable pub check_scheme : String → Result String String
  check_scheme url = try (crates.url_scheme url) (λ scheme.
      if not (str_eq scheme "https") && not (str_eq scheme "http")
      then err "URL scheme must be https:// or http://"
      else ok url)

  unfoldable pub parse_regex : String → Result String String
  parse_regex pattern = elim (crates.regex_new pattern) [
    | ok regex ↦ ok pattern
    | err e ↦ err "Invalid regular expression"
  ]

  unfoldable pub is_file_exist : String → Result String String
  is_file_exist path = if crates.is_file path then ok path else err ("file not found: " <> path)

  -- A value parser has let an option pass.
  abbrev pub Checked : (String → Result String String) → Option String → Type 0
  Checked parse none = Unit
  Checked parse (some value) = parse value ≡ ok value

  abbrev pub AtLeast : ℕ → Option ℕ → Type 0
  AtLeast n none = Unit
  AtLeast n (some m) = n ≤ m

  -- What the attributes of `CLIArgs` have `clap` check, as far as it is used.
  pub record IsAccepted (args : CliArgs x) : Type 0 where
    pub target : check_s3_target args.target ≡ ok args.target
    pub confirmed : args.dry_run ≡ true → args.force ≡ false
    pub include : Checked parse_regex args.filter_include_regex
    pub exclude : Checked parse_regex args.filter_exclude_regex
    pub include_content_type : Checked parse_regex args.filter_include_content_type_regex
    pub exclude_content_type : Checked parse_regex args.filter_exclude_content_type_regex
    pub include_metadata : Checked parse_regex args.filter_include_metadata_regex
    pub exclude_metadata : Checked parse_regex args.filter_exclude_metadata_regex
    pub include_tag : Checked parse_regex args.filter_include_tag_regex
    pub exclude_tag : Checked parse_regex args.filter_exclude_tag_regex
    pub smaller : Checked check_human_bytes args.filter_smaller_size
    pub larger : Checked check_human_bytes args.filter_larger_size
    pub endpoint_url : Checked check_scheme args.target_endpoint_url
    pub worker_size : 1 ≤ args.worker_size
    pub batch_size : (1 ≤ args.batch_size) × (args.batch_size ≤ 1000)
    pub rate_limit_objects : AtLeast 10 args.rate_limit_objects
    pub memory_limit : check_human_bytes args.lua_vm_memory_limit ≡ ok args.lua_vm_memory_limit
    pub keep_latest_only : args.keep_latest_only ≡ true → args.delete_all_versions ≡ true
    pub delete_marker_only : args.filter_delete_marker_only ≡ true → args.delete_all_versions ≡ true
    pub if_match : args.if_match ≡ true → args.delete_all_versions ≡ false
