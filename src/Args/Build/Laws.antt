-- ===== src/Args/Build/Laws.antt =====
-- What `Config::try_from` of src/config/args/mod.rs makes of arguments that `clap` accepts.
use s3rm_rs.Base.{
  ℕ, ◌≤◌, ◌≡◌, refl, sym, ◌∙◌, subst, Bool, true, false, Option, none, some, is_some, String, ok,
  err, try, ◌⊎◌, Settles, Settles-cases, Result-cases, arith, Bool-cases, inl, inr,
}
use s3rm_rs.Types.Sdk.{Sdk}
use s3rm_rs.Types.Target.{is_empty}
use s3rm_rs.Config.{Config, FilterConfig, StoragePath}
use s3rm_rs.Args.{Crates, CliArgs, Failure, LuaMode, panic, refused}
use s3rm_rs.Args.Parsers.{IsAccepted, AtLeast, check_s3_target}
use s3rm_rs.Args.Build.{
  Answer, reword, new_engine, parse_target, register, engine_mode, try_from, check_rate_limit,
  effective_batch_size, is_express_onezone_storage, load_and_compile, below, config_of,
  register_callbacks,
}
use s3rm_rs.Args.Build.Inputs.{
  IsExpected, check_s3_target-slice_from, path_of-Settles, build_filter_config-IsAccepted,
  parse_human_bytes-checked,
}

module _ (x : Sdk) (crates : Crates x) where
  abbrev mode_of : CliArgs x → LuaMode
  mode_of args = engine_mode args.allow_lua_os_library args.allow_lua_unsafe_vm

  abbrev Expected : CliArgs x → Failure → Type 0
  Expected args = IsExpected crates (mode_of args)

  load_and_compile-Settles :
      (mode : LuaMode) (limit : ℕ) (path : String)
      → Settles (λ u. Unit) (IsExpected crates mode) (load_and_compile x crates mode limit path)
  unfolding load_and_compile
  load_and_compile-Settles mode limit path = elim (Result-cases (crates.read_to_string path)) [
    | inr (m, e) ↦ rw e tt
    | inl (script, e) ↦ elim (Result-cases (crates.exec mode limit script)) [
      | inl (u, run) ↦ rw (e, run) tt
      | inr (refused m, run) ↦ rw (e, run) tt
      | inr (panic m, run) ↦ rw (e, run) (limit, inr (path, script, e, run))
    ]
  ]

  reworded-Settles :
      (mode : LuaMode) (text : String) (a : Answer (Unit {0}))
      → Settles (λ u. Unit) (IsExpected crates mode) a
      → Settles (λ b. b ≡ true) (IsExpected crates mode) (try (reword text a) (λ u. ok true))
  reworded-Settles mode text (ok u) h = refl
  reworded-Settles mode text (err (refused m)) h = tt
  reworded-Settles mode text (err (panic m)) h = h

  register-Settles :
      (text : String) (args : CliArgs x) (limit : ℕ) (o : Option String)
      → Settles (λ b. b ≡ is_some o) (Expected args) (register x crates text args limit o)
  unfolding register new_engine
  register-Settles text args limit none = refl
  register-Settles text args limit (some path) =
      let mode = engine_mode args.allow_lua_os_library args.allow_lua_unsafe_vm in
      elim (Result-cases (crates.new_engine mode limit)) [
        | inr (m, e) ↦ rw (e, Settles) (limit, inl e)
        | inl (u, e) ↦
            rw (e, Settles)
              (reworded-Settles mode text (load_and_compile x crates mode limit path)
                (load_and_compile-Settles mode limit path))
      ]

  -- What the configuration keeps of the command line's promises.
  pub record IsSound (args : CliArgs x) (config : Config x) : Type 0 where
    pub bucket : is_empty config.target.bucket ≡ false
    pub workers : 1 ≤ config.worker_size
    pub batch : (1 ≤ config.batch_size) × (config.batch_size ≤ 1000)
    pub rate : AtLeast x crates config.batch_size config.rate_limit_objects
    pub paced : AtLeast x crates 10 config.rate_limit_objects
    pub express :
        is_express_onezone_storage config.target.bucket ≡ true
        → config.allow_parallel_listings_in_express_one_zone ≡ false
        → config.batch_size ≡ 1
    pub confirmed : config.dry_run ≡ true → config.force ≡ false
    pub keep_latest_only :
        config.filter_config.keep_latest_only ≡ true → config.delete_all_versions ≡ true
    pub delete_marker_only :
        config.filter_config.delete_marker_only ≡ true → config.delete_all_versions ≡ true
    pub if_match : config.if_match ≡ true → config.delete_all_versions ≡ false
    pub filter_callback :
        config.filter_callback_registered ≡ is_some config.filter_callback_lua_script
    pub event_callback : config.event_callback_registered ≡ is_some config.event_callback_lua_script
    pub untested : config.test_user_defined_callback ≡ false

  below-AtLeast : (o : Option ℕ) (n : ℕ) → below o n ≡ false → AtLeast x crates n o
  below-AtLeast none n h = tt
  below-AtLeast (some m) n h = ground arith

  check_rate_limit-Settles :
      (args : CliArgs x) (batch_size : ℕ)
      → Settles
          (λ u. AtLeast x crates batch_size args.rate_limit_objects)
          (Expected args)
          (check_rate_limit x args batch_size)
  unfolding check_rate_limit
  check_rate_limit-Settles args batch_size =
      elim (Bool-cases (below args.rate_limit_objects batch_size)) [
        | inl small ↦ rw small tt
        | inr large ↦ rw large (below-AtLeast args.rate_limit_objects batch_size large)
      ]

  parse_target-Settles :
      (args : CliArgs x) (uri : String)
      → check_s3_target uri ≡ ok uri
      → Settles (λ (t : StoragePath). is_empty t.bucket ≡ false) (Expected args) (parse_target uri)
  unfolding parse_target check_s3_target
  parse_target-Settles args uri h =
      let (rest, e, cut) = check_s3_target-slice_from uri h in
      rw cut (path_of-Settles crates (mode_of args) rest)

  effective_batch_size-bounded :
      (args : CliArgs x) (target : StoragePath)
      → IsAccepted x crates args
      → let n = effective_batch_size x args target in (1 ≤ n) × (n ≤ 1000)
  unfolding effective_batch_size
  effective_batch_size-bounded args target accepted = ground (arith, accepted.batch_size)

  effective_batch_size-express :
      (args : CliArgs x) (target : StoragePath)
      → is_express_onezone_storage target.bucket ≡ true
      → args.allow_parallel_listings_in_express_one_zone ≡ false
      → effective_batch_size x args target ≡ 1
  unfolding effective_batch_size
  effective_batch_size-express args target express h = ground arith

  module _ (args : CliArgs x) (accepted : IsAccepted x crates args) (target : StoragePath)
      (filter_config : FilterConfig x) (limit : ℕ) (bucket : is_empty target.bucket ≡ false)
      (keep : filter_config.keep_latest_only ≡ args.keep_latest_only)
      (marker : filter_config.delete_marker_only ≡ args.filter_delete_marker_only)
      (rate : AtLeast x crates (effective_batch_size x args target) args.rate_limit_objects) where
    config-IsSound :
        (filter_registered event_registered : Bool)
        → filter_registered ≡ is_some args.filter_callback_lua_script
        → event_registered ≡ is_some args.event_callback_lua_script
        → IsSound args
            (config_of x args target filter_config limit filter_registered event_registered)
    unfolding config_of
    config-IsSound filter_registered event_registered f e = record {
      bucket = bucket;
      workers = accepted.worker_size;
      batch = effective_batch_size-bounded args target accepted;
      rate = rate;
      paced = accepted.rate_limit_objects;
      express = effective_batch_size-express args target;
      confirmed = accepted.confirmed;
      keep_latest_only = λ h. accepted.keep_latest_only (sym keep ∙ h);
      delete_marker_only = λ h. accepted.delete_marker_only (sym marker ∙ h);
      if_match = accepted.if_match;
      filter_callback = f;
      event_callback = e;
      untested = refl;
    }

    callbacks-Settles :
        Settles
          (IsSound args)
          (Expected args)
          (register_callbacks x crates args target filter_config limit)
    unfolding register_callbacks
    callbacks-Settles =
        elim (Settles-cases (λ b. b ≡ is_some args.filter_callback_lua_script) (Expected args)
          (register x crates "Failed to load filter Lua script: " args limit
            args.filter_callback_lua_script)
          (register-Settles "Failed to load filter Lua script: " args limit
            args.filter_callback_lua_script)) [
              | inr (f, e, refusal) ↦ rw e refusal
              | inl (filter_registered, e_filter, filter) ↦
                  elim (Settles-cases (λ b. b ≡ is_some args.event_callback_lua_script)
                    (Expected args)
                    (register x crates "Failed to load event Lua script: " args limit
                      args.event_callback_lua_script)
                    (register-Settles "Failed to load event Lua script: " args limit
                      args.event_callback_lua_script)) [
                        | inr (f, e, refusal) ↦ rw (e_filter, e) refusal
                        | inl (event_registered, e_event, event) ↦
                            rw (e_filter, e_event)
                              (config-IsSound filter_registered event_registered filter event)
                      ]
            ]

  try_from-Settles :
      (args : CliArgs x)
      → IsAccepted x crates args
      → Settles (IsSound args) (Expected args) (try_from x crates args)
  unfolding try_from
  try_from-Settles args accepted =
      let (filter_config, e_filter, keep, marker) =
        build_filter_config-IsAccepted x crates args accepted in
      let (limit, e_limit) =
        parse_human_bytes-checked x crates args.lua_vm_memory_limit accepted.memory_limit in
      elim (Settles-cases (λ (t : StoragePath). is_empty t.bucket ≡ false) (Expected args)
        (parse_target args.target) (parse_target-Settles args args.target accepted.target)) [
          | inr (f, e, refusal) ↦ rw e refusal
          | inl (target, e_target, bucket) ↦
              elim (Settles-cases
                (λ (u : Unit {0}).
                  AtLeast x crates (effective_batch_size x args target) args.rate_limit_objects)
                (Expected args) (check_rate_limit x args (effective_batch_size x args target))
                (check_rate_limit-Settles args (effective_batch_size x args target))) [
                  | inr (f, e, refusal) ↦ rw (e_target, e_filter, e) refusal
                  | inl (u, e_rate, rate) ↦
                      rw (e_target, e_filter, e_rate, e_limit)
                        (callbacks-Settles args accepted target filter_config limit bucket keep
                          marker rate)
                ]
        ]

  -- What comes of arguments that `clap` accepts is sound: the bucket has a name, the batch size is
  -- from 1 to 1000 and at most the rate limit, which is 10 at least, it is 1 for Express One Zone without parallel
  -- listings, no dry run is forced, the two options on versions come with all versions, If-Match
  -- without them, and a callback is registered just if there is a script for it.
  pub try_from-IsSound :
      (args : CliArgs x) (config : Config x)
      → IsAccepted x crates args
      → try_from x crates args ≡ ok config
      → IsSound args config
  try_from-IsSound args config accepted h =
      subst (Settles (IsSound args) (Expected args)) h (try_from-Settles args accepted)

  -- Arguments that `clap` accepts make the conversion panic only with the panic of `mlua`: where it
  -- cannot make an engine of the kind that the arguments ask for, or where a script that was read makes
  -- such an engine panic.
  pub try_from_panics :
      (args : CliArgs x) (text : String)
      → IsAccepted x crates args
      → try_from x crates args ≡ err (panic text)
      → let mode = engine_mode args.allow_lua_os_library args.allow_lua_unsafe_vm in
        (limit : ℕ) × ((crates.new_engine mode limit ≡ err text)
          ⊎ ((path script : String) × (crates.read_to_string path ≡ ok script)
              × (crates.exec mode limit script ≡ err (panic text))))
  try_from_panics args text accepted h =
      subst (Settles (IsSound args) (Expected args)) h (try_from-Settles args accepted)
