-- ===== src/Filters/Loop/Laws.antt =====
-- The loops of src/filters, whatever the other tasks do meanwhile.
use s3rm_rs.Base.{
  ℕ, suc, ◌≡◌, refl, ap, Bool, true, false, not, some, String, ◌<>◌, List, [], ◌∷◌, ◌++◌, map,
  Result, ok, err, filter_by, All, arith, Bool-cases, inl, inr,
}
use s3rm_rs.Types.Object
use s3rm_rs.Types.Object.{S3Object}
use s3rm_rs.Types.Stats.{delete_skip}
use s3rm_rs.Types.Error.{Error, message, to_string}
use s3rm_rs.Types.Sdk.{Sdk}
use s3rm_rs.Types.Event.{EventData}
use s3rm_rs.Stage.{Surroundings, SendResult, success, closed, send}
use s3rm_rs.Filters.Loop.{Trace, ended, skipped, forwarded, receive_and_filter, user_defined_filter}

module _ (x : Sdk) where
  abbrev Objects : Type 0
  Objects = List (S3Object x.DateTime)

  -- The stage has judged a first part of its input: it passed on, in order, those of it that the
  -- test passes, and counted each of the others as skipped.
  pub record Handled (test : S3Object x.DateTime → Bool) (input : Objects) (t : Trace x)
      : Type 0 where
    pub seen : Objects
    pub rest : Objects
    pub split : input ≡ seen ++ rest
    pub passed : t.passed ≡ filter_by test seen
    pub skipped :
        t.stats ≡ map (λ o. delete_skip (Object.key o)) (filter_by (λ o. not (test o)) seen)

  -- A stage that stops before the next object has judged none of the rest.
  stopped :
      (f : S3Object x.DateTime → Bool) (input : Objects) (r : Result (Unit {0}) Error)
      → Handled f input (ended x r)
  stopped f input r = record {
    seen = [];
    rest = input;
    split = refl;
    passed = refl;
    skipped = refl;
  }

  Handled-skipped :
      (f : S3Object x.DateTime → Bool) (registered : Bool) (e : EventData x.F64)
      (o : S3Object x.DateTime) (input : Objects) (t : Trace x)
      → f o ≡ false
      → Handled f input t
      → Handled f (o ∷ input) (skipped x registered e o t)
  Handled-skipped f registered e o input t no_match h = record {
    seen = o ∷ h.seen;
    rest = h.rest;
    split = ap (◌∷◌ o) h.split;
    passed = ground (arith, h.passed);
    skipped = ground (arith, h.skipped);
  }

  Handled-forwarded :
      (f : S3Object x.DateTime → Bool) (r : Result SendResult Error) (o : S3Object x.DateTime)
      (input : Objects) (t : Trace x)
      → f o ≡ true
      → Handled f input t
      → Handled f (o ∷ input) (forwarded x r o t)
  Handled-forwarded f (ok success) o input t matches h = record {
    seen = o ∷ h.seen;
    rest = h.rest;
    split = ap (◌∷◌ o) h.split;
    passed = ground (arith, h.passed);
    skipped = ground (arith, h.skipped);
  }
  Handled-forwarded f (ok closed) o input t matches h = stopped f (o ∷ input) (ok tt)
  Handled-forwarded f (err e) o input t matches h = stopped f (o ∷ input) (err e)

  module _ (env : Surroundings) (registered : Bool) (name : String)
      (f : S3Object x.DateTime → Bool) where
    -- A stage judges a first part of its input, in order: of that part it passes on what its test
    -- passes and counts the others as skipped, whatever cancellation, closing or failing it meets.
    pub receive_and_filter-Handled :
        (round sends : ℕ) (input : Objects)
        → Handled f input (receive_and_filter x env registered name f round sends input)
    unfolding receive_and_filter
    receive_and_filter-Handled round sends [] = stopped f [] (ok tt)
    receive_and_filter-Handled round sends (o ∷ input) =
        elim (Bool-cases (env.is_cancelled round)) [
          | inl cancelled ↦ rw cancelled (stopped f (o ∷ input) (ok tt))
          | inr live ↦ elim (Bool-cases (f o)) [
            | inl matches ↦
                rw (live, matches)
                  (Handled-forwarded f _ o input _ matches
                    (receive_and_filter-Handled (suc round) (suc sends) input))
            | inr fails ↦
                rw (live, fails)
                  (Handled-skipped f registered _ o input _ fails
                    (receive_and_filter-Handled (suc round) sends input))
          ]
        ]

  -- Nobody cancels, and the next stage takes every object.
  pub record IsQuiet (env : Surroundings) : Type 0 where
    pub live : (n : ℕ) → env.is_cancelled n ≡ false
    pub accepting : (n : ℕ) → env.accepts n ≡ true

  module _ (env : Surroundings) (registered : Bool) (name : String)
      (f : S3Object x.DateTime → Bool) where
    -- Left alone, a stage passes on exactly the objects that its test passes, and ends well.
    pub receive_and_filter-quiet :
        IsQuiet env
        → (round sends : ℕ) (input : Objects)
        → let t = receive_and_filter x env registered name f round sends input in
          (t.passed ≡ filter_by f input) × (t.outcome ≡ ok tt) × (t.cancelled ≡ false)
    unfolding receive_and_filter send
    receive_and_filter-quiet q round sends [] = (refl, refl, refl)
    receive_and_filter-quiet q round sends (o ∷ input) = ground (
      arith,
      q.live round,
      q.accepting sends,
      receive_and_filter-quiet q (suc round) (suc sends) input,
      receive_and_filter-quiet q (suc round) sends input,
    )

    -- What holds of all the input holds of all that is passed on, and so does the test.
    pub receive_and_filter-All :
        (P : S3Object x.DateTime → Type 0) (round sends : ℕ) (input : Objects)
        → All P input
        → All
            (λ o. P o × (f o ≡ true))
            (receive_and_filter x env registered name f round sends input).passed
    unfolding receive_and_filter send
    receive_and_filter-All P round sends [] h = tt
    receive_and_filter-All P round sends (o ∷ input) h = ground (
      arith,
      receive_and_filter-All P (suc round) (suc sends) input h.1,
      receive_and_filter-All P (suc round) sends input h.1,
    )

  module _ (env : Surroundings) (registered : Bool) where
    approved-All :
        (execute : ℕ → S3Object x.DateTime → Result Bool Error) (P Q : S3Object x.DateTime → Type 0)
        → ((n : ℕ) (o : S3Object x.DateTime) → execute n o ≡ ok true → Q o)
        → (round sends : ℕ) (input : Objects) → All P input
        → All
            (λ o. P o × Q o)
            (user_defined_filter x env registered (some execute) round sends input).passed
    unfolding user_defined_filter send
    approved-All execute P Q approve round sends [] h = tt
    approved-All execute P Q approve round sends (o ∷ input) h = ground (
      arith,
      approve round o,
      approved-All execute P Q approve (suc round) (suc sends) input h.1,
      approved-All execute P Q approve (suc round) sends input h.1,
    )

    -- A callback approved every object that its stage passes on.
    pub user_defined_filter-All :
        (execute : ℕ → S3Object x.DateTime → Result Bool Error) (P : S3Object x.DateTime → Type 0)
        (round sends : ℕ) (input : Objects)
        → All P input
        → All
            (λ o. P o × ((n : ℕ) × (execute n o ≡ ok true)))
            (user_defined_filter x env registered (some execute) round sends input).passed
    user_defined_filter-All execute P =
        approved-All execute P (λ o. (n : ℕ) × (execute n o ≡ ok true)) (λ n o e. (n, e))

    -- A callback that fails ends its stage, cancels the pipeline and lets nothing more through.
    pub user_defined_filter_failed :
        (execute : ℕ → S3Object x.DateTime → Result Bool Error) (round sends : ℕ)
        (o : S3Object x.DateTime) (input : Objects) {e : Error}
        → env.is_cancelled round ≡ false
        → execute round o ≡ err e
        → let t = user_defined_filter x env registered (some execute) round sends (o ∷ input) in
          (t.passed ≡ [])
          × (t.stats ≡ [])
          × (t.cancelled ≡ true)
          × (t.outcome
              ≡ err (message ("user defined filter worker cancelled with error: " <> to_string e)))
    unfolding user_defined_filter
    user_defined_filter_failed execute round sends o input live failed = ground arith
