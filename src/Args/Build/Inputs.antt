-- ===== src/Args/Build/Inputs.antt =====
-- The targets, patterns and sizes in arguments that `clap` accepts, as `Config::try_from` of
-- src/config/args/mod.rs reads them.
use s3rm_rs.Base.{
  ℕ, ◌^◌, ◌≡◌, refl, false, Option, none, some, String, ok, err, ◌⊎◌, Settles, Result-cases, ltb,
  arith, Bool-cases, inl, inr, Option-cases, ◌==◌,
}
use Prim.Native.Char.{code}
use s3rm_rs.Types.Sdk.{Sdk}
use s3rm_rs.Types.Target.{is_empty, split_slash, strip_prefix}
use s3rm_rs.Config.{FilterConfig, StoragePath}
use s3rm_rs.Args.{Crates, CliArgs, Failure, LuaMode, panic, refused}
use s3rm_rs.Args.Parsers.{
  IsAccepted, Checked, parse_regex, check_human_bytes, parse_human_bytes, check_s3_target, len,
}
use s3rm_rs.Args.Build.{transpose, slice_from, path_of, split, build_filter_config, compile_regex}

-- A failure that is a message for the user, or that of `mlua`: an engine cannot be made, or a script
-- makes it panic.
abbrev pub IsExpected : {x : Sdk} → Crates x → LuaMode → Failure → Type 0
IsExpected crates mode (panic text) =
    (limit : ℕ) × ((crates.new_engine mode limit ≡ err text)
      ⊎ ((path script : String) × (crates.read_to_string path ≡ ok script)
          × (crates.exec mode limit script ≡ err (panic text))))
IsExpected crates mode (refused text) = Unit

strip_prefix-slice_from :
    (p s rest : String) → strip_prefix p s ≡ some rest → slice_from (len p) s ≡ ok rest
unfolding strip_prefix slice_from
strip_prefix-slice_from String.[] s rest h = grind (arith, h)
strip_prefix-slice_from (String.◌∷◌ c p) String.[] rest h = absurd (ground arith)
strip_prefix-slice_from (String.◌∷◌ c p) (String.◌∷◌ d s) rest h =
    elim (Bool-cases (code c == code d)) [
      | inl same ↦ strip_prefix-slice_from p s rest (rw same at h)
      | inr other ↦ absurd (grind (arith, rw other at h))
    ]

-- An accepted target has a scheme.
pub check_s3_target-slice_from :
    (uri : String)
    → check_s3_target uri ≡ ok uri
    → (rest : String) × (strip_prefix "s3://" uri ≡ some rest) × (slice_from 5 uri ≡ ok rest)
unfolding check_s3_target
check_s3_target-slice_from uri h = elim (Option-cases (strip_prefix "s3://" uri)) [
  | inl e ↦ absurd (grind (arith, rw e at h))
  | inr (rest, e) ↦ (rest, e, strip_prefix-slice_from "s3://" uri rest e)
]

pub path_of-Settles :
    {x : Sdk} (crates : Crates x) (mode : LuaMode) (s : String)
    → Settles (λ (t : StoragePath). is_empty t.bucket ≡ false) (IsExpected crates mode) (path_of s)
unfolding path_of
path_of-Settles crates mode s = elim (Bool-cases (is_empty (split (split_slash s) s).0)) [
  | inl empty ↦ rw empty tt
  | inr full ↦ rw full full
]

module _ (x : Sdk) (crates : Crates x) where
  -- A pattern that `parse_regex` let pass compiles.
  compile_regex-Checked :
      (o : Option String)
      → Checked x crates (parse_regex x crates) o
      → (r : Option x.Regex) × (compile_regex x crates o ≡ ok r)
  unfolding parse_regex
  compile_regex-Checked none h = (none, refl)
  compile_regex-Checked (some pattern) h = elim (Result-cases (crates.regex_new pattern)) [
    | inl (regex, e) ↦ (some regex, rw (compile_regex, e) refl)
    | inr (text, e) ↦ absurd (grind (arith, e, h))
  ]

  pub parse_human_bytes-checked :
      (value : String)
      → check_human_bytes x crates value ≡ ok value
      → (n : ℕ) × (parse_human_bytes x crates value ≡ ok n)
  unfolding parse_human_bytes check_human_bytes
  parse_human_bytes-checked value h = elim (Result-cases (crates.byte_from_str value)) [
    | inr (text, e) ↦ absurd (grind (arith, e, h))
    | inl (bytes, e) ↦ elim (Bool-cases (ltb bytes (2 ^ 64))) [
      | inl small ↦ (bytes, rw (e, small) refl)
      | inr large ↦ absurd (grind (arith, (rw (e, large) at h)))
    ]
  ]

  sizes-Checked :
      (o : Option String)
      → Checked x crates (check_human_bytes x crates) o
      → (n : Option ℕ) × (transpose (parse_human_bytes x crates) o ≡ ok n)
  sizes-Checked none h = (none, refl)
  sizes-Checked (some value) h =
      let (n, e) = parse_human_bytes-checked value h in (some n, rw e refl)

  pub build_filter_config-IsAccepted :
      (args : CliArgs x)
      → IsAccepted x crates args
      → (f : FilterConfig x) × (build_filter_config x crates args ≡ ok f)
        × (f.keep_latest_only ≡ args.keep_latest_only)
        × (f.delete_marker_only ≡ args.filter_delete_marker_only)
  unfolding build_filter_config
  build_filter_config-IsAccepted args accepted =
      rw
        (
          (sizes-Checked args.filter_larger_size accepted.larger).1,
          (sizes-Checked args.filter_smaller_size accepted.smaller).1,
          (compile_regex-Checked args.filter_include_regex accepted.include).1,
          (compile_regex-Checked args.filter_exclude_regex accepted.exclude).1,
          (compile_regex-Checked args.filter_include_content_type_regex
              accepted.include_content_type).1,
          (compile_regex-Checked args.filter_exclude_content_type_regex
              accepted.exclude_content_type).1,
          (compile_regex-Checked args.filter_include_metadata_regex accepted.include_metadata).1,
          (compile_regex-Checked args.filter_exclude_metadata_regex accepted.exclude_metadata).1,
          (compile_regex-Checked args.filter_include_tag_regex accepted.include_tag).1,
          (compile_regex-Checked args.filter_exclude_tag_regex accepted.exclude_tag).1,
        )
        (_, refl, refl, refl)
