-- ===== src/Storage/ClientBuilder/Laws.antt =====
-- The timeouts of the client that src/storage/s3/client_builder.rs builds.
use s3rm_rs.Base.{
  ℕ, ◌≡◌, refl, ◌∙◌, ap, ◌⊎◌, inl, inr, Option, none, some, Bool, true, not, ◌&&◌, is_some,
  Bool-cases, arith,
}
use s3rm_rs.Config.Client.{CliTimeoutConfig, RequestChecksumCalculation}
use s3rm_rs.Storage.ClientBuilder.{Timeouts, Aws, build_timeout_config, apply}

abbrev pub no_timeouts : CliTimeoutConfig
no_timeouts = record {
  operation_timeout_milliseconds = none;
  operation_attempt_timeout_milliseconds = none;
  connect_timeout_milliseconds = none;
  read_timeout_milliseconds = none;
}

module _ (api : Timeouts) where
  -- The builder of the SDK keeps each timeout that it is given, and a configuration has those of the
  -- builder.
  pub record IsKeeping (view : api.Builder → CliTimeoutConfig)
      (timeouts : api.TimeoutConfig → CliTimeoutConfig) : Type 0 where
    pub builder : view api.builder ≡ no_timeouts
    pub operation :
        (d : ℕ) (b : api.Builder)
        → view (api.operation_timeout d b)
          ≡ record (view b) { operation_timeout_milliseconds = some d }
    pub attempt :
        (d : ℕ) (b : api.Builder)
        → view (api.operation_attempt_timeout d b)
          ≡ record (view b) { operation_attempt_timeout_milliseconds = some d }
    pub connect :
        (d : ℕ) (b : api.Builder)
        → view (api.connect_timeout d b) ≡ record (view b) { connect_timeout_milliseconds = some d }
    pub read :
        (d : ℕ) (b : api.Builder)
        → view (api.read_timeout d b) ≡ record (view b) { read_timeout_milliseconds = some d }
    pub build : (b : api.Builder) → timeouts (api.build b) ≡ view b

  abbrev timeouts_of : Option ℕ → Option ℕ → Option ℕ → Option ℕ → CliTimeoutConfig
  timeouts_of o p q r = record {
    operation_timeout_milliseconds = o;
    operation_attempt_timeout_milliseconds = p;
    connect_timeout_milliseconds = q;
    read_timeout_milliseconds = r;
  }

  abbrev all_unset : Option ℕ → Option ℕ → Option ℕ → Option ℕ → Bool
  all_unset o p q r = not (is_some o) && (not (is_some p) && (not (is_some q) && not (is_some r)))

  all_unset-no_timeouts :
      (o p q r : Option ℕ) → all_unset o p q r ≡ true → timeouts_of o p q r ≡ no_timeouts
  all_unset-no_timeouts none none none none h = refl
  all_unset-no_timeouts (some a) p q r h = absurd (ground arith)
  all_unset-no_timeouts none (some a) q r h = absurd (ground arith)
  all_unset-no_timeouts none none (some a) r h = absurd (ground arith)
  all_unset-no_timeouts none none none (some a) h = absurd (ground arith)

  module _ (view : api.Builder → CliTimeoutConfig) (timeouts : api.TimeoutConfig → CliTimeoutConfig)
      (keeping : IsKeeping view timeouts) where
    with_operation :
        (o : Option ℕ)
        → view (apply api.operation_timeout o api.builder) ≡ timeouts_of o none none none
    with_operation none = keeping.builder
    with_operation (some d) =
        keeping.operation d _
        ∙ ap {A = CliTimeoutConfig} (λ v. record v { operation_timeout_milliseconds = some d })
            keeping.builder

    with_attempt :
        (o p : Option ℕ)
        → view (apply api.operation_attempt_timeout p (apply api.operation_timeout o api.builder))
          ≡ timeouts_of o p none none
    with_attempt o none = with_operation o
    with_attempt o (some d) =
        keeping.attempt d _
        ∙ ap {A = CliTimeoutConfig}
            (λ v. record v { operation_attempt_timeout_milliseconds = some d }) (with_operation o)

    with_connect :
        (o p q : Option ℕ)
        → view (
            apply api.connect_timeout q
              (apply api.operation_attempt_timeout p (apply api.operation_timeout o api.builder)))
          ≡ timeouts_of o p q none
    with_connect o p none = with_attempt o p
    with_connect o p (some d) =
        keeping.connect d _
        ∙ ap {A = CliTimeoutConfig} (λ v. record v { connect_timeout_milliseconds = some d })
            (with_attempt o p)

    with_read :
        (o p q r : Option ℕ)
        → view (
            apply api.read_timeout r (
              apply api.connect_timeout q (
                apply api.operation_attempt_timeout p (apply api.operation_timeout o api.builder))))
          ≡ timeouts_of o p q r
    with_read o p q none = with_connect o p q
    with_read o p q (some d) =
        keeping.read d _
        ∙ ap {A = CliTimeoutConfig} (λ v. record v { read_timeout_milliseconds = some d })
            (with_connect o p q)

    -- Without any timeout there is no timeout configuration, and otherwise one with each of these
    -- and no other.
    pub build_timeout_config_lem :
        (c : CliTimeoutConfig)
        → ((build_timeout_config api c ≡ none) × (c ≡ no_timeouts))
          ⊎ ((t : api.TimeoutConfig) × (build_timeout_config api c ≡ some t) × (timeouts t ≡ c))
    unfolding build_timeout_config
    build_timeout_config_lem c =
        let o = c.operation_timeout_milliseconds in
        let p = c.operation_attempt_timeout_milliseconds in
        let q = c.connect_timeout_milliseconds in
        let r = c.read_timeout_milliseconds in
        elim (Bool-cases (all_unset o p q r)) [
          | inl unset ↦ inl (rw unset refl, all_unset-no_timeouts o p q r unset)
          | inr set ↦ inr (_, rw set refl, keeping.build _ ∙ with_read o p q r)
        ]

module _ (aws : Aws) where
  -- A built client has the timeout configuration that its builder was given last, which no other
  -- setting changes, and a fresh builder has none.
  pub record IsReading (of_builder : aws.Builder → Option aws.timeouts.TimeoutConfig)
      (of_client : aws.Client → Option aws.timeouts.TimeoutConfig) : Type 0 where
    pub fresh : (s : aws.SdkConfig) → of_builder (aws.from_sdk_config s) ≡ none
    pub path_style :
        (v : Bool) (b : aws.Builder) → of_builder (aws.force_path_style v b) ≡ of_builder b
    pub checksum :
        (v : RequestChecksumCalculation) (b : aws.Builder)
        → of_builder (aws.request_checksum_calculation v b) ≡ of_builder b
    pub accelerate : (v : Bool) (b : aws.Builder) → of_builder (aws.accelerate v b) ≡ of_builder b
    pub given :
        (t : aws.timeouts.TimeoutConfig) (b : aws.Builder)
        → of_builder (aws.timeout_config t b) ≡ some t
    pub built : (b : aws.Builder) → of_client (aws.from_conf b) ≡ of_builder b
