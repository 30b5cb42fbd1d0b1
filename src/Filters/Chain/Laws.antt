-- ===== src/Filters/Chain/Laws.antt =====
-- The chain of filters of src/pipeline.rs, against the settings.
use mathlib.Core.Path.{fun_ext}
use s3rm_rs.Base.{
  ℕ, suc, ◌≡◌, refl, sym, ap, ◌∙◌, ltb, leb, String, Bool, true, false, not, Option, none, some,
  is_some, ◌&&◌, ◌||◌, List, [], ◌∷◌, Result, ok, err, filter_by, filter_by-filter_by, All, All-map,
  arith, Bool-cases, inl, inr, ◌⊎◌, if◌then◌else◌,
}
use s3rm_rs.Base.Int.{ℤ, pos, negsuc}
use s3rm_rs.Types.Object
use s3rm_rs.Types.Object.{S3Object, versioning, not_versioning, delete_marker}
use s3rm_rs.Types.Error.{Error}
use s3rm_rs.Types.Sdk.{Sdk}
use s3rm_rs.Config.{Config, FilterConfig}
use s3rm_rs.Stage.{Surroundings}
use s3rm_rs.Filters.Predicates.{
  is_match, is_not_match, is_before, is_after_or_equal, is_smaller, is_larger_or_equal,
  is_not_latest, is_delete_marker, last_modified_utc,
}
use s3rm_rs.Filters.Loop.Laws.{
  IsQuiet, receive_and_filter-quiet, receive_and_filter-All, user_defined_filter-All,
}
use s3rm_rs.Filters.Chain.{Filter, insert_if, object_filters, run_filters, filter_objects}

filter_by-true {ℓ} : {A : Type ℓ} (xs : List A) → filter_by (λ a. true) xs ≡ xs
filter_by-true [] = refl
filter_by-true (a ∷ xs) = ap (◌∷◌ a) (filter_by-true xs)

-- A criterion of an optional setting: none means no restriction.
abbrev criterion {ℓ} : {A : Type ℓ} → Option A → (A → Bool) → Bool
criterion none test = true
criterion (some a) test = test a

-- A match that the engine could make, and that is as wanted.
abbrev matched : Result Bool String → Bool → Bool
matched (ok b) wanted = if wanted then b else not b
matched (err e) wanted = false

abbrev natural : ℤ → (ℕ → Bool) → Bool
natural (pos n) test = test n
natural (negsuc n) test = false

-- A test of the size of an object that has one.
abbrev sized : {D : Type 0} → S3Object D → (ℕ → Bool) → Bool
sized (delete_marker m) test = false
sized (versioning v) test = natural v.size test
sized (not_versioning v) test = natural v.size test

module _ (x : Sdk) where
  abbrev modified : S3Object x.DateTime → (x.Utc → Bool) → Bool
  modified o test = elim (last_modified_utc x o) [ none ↦ false | some u ↦ test u ]

  -- What the settings ask of an object, read from the configuration alone: an object that is not
  -- selected is not to be deleted.
  unfoldable pub selects : FilterConfig x → S3Object x.DateTime → Bool
  selects c o =
      (not c.delete_marker_only || Object.is_delete_marker o)
      && (criterion c.before_time (λ t. modified o (λ u. not (x.le_utc t u)))
          && (criterion c.after_time (λ t. modified o (λ u. not (x.lt_utc u t)))
              && (criterion c.smaller_size (λ n. sized o (λ s. ltb s n))
                  && (criterion c.larger_size (λ n. sized o (λ s. leb n s))
                      && (criterion c.include_regex
                            (λ r. matched (x.is_match r (Object.key o)) true)
                          && (criterion c.exclude_regex
                                (λ r. matched (x.is_match r (Object.key o)) false)
                              && (not c.keep_latest_only || not (Object.is_latest o))))))))

  -- The conjunction of the tests in a list of stages.
  abbrev passes_all : List (Filter x) → S3Object x.DateTime → Bool
  passes_all [] o = true
  passes_all (f ∷ filters) o = f.test o && passes_all filters o

  module _ (env : ℕ → Surroundings) (registered : Bool) where
    run_filters-All :
        (P : S3Object x.DateTime → Type 0) (n : ℕ) (filters : List (Filter x))
        (input : List (S3Object x.DateTime))
        → All P input
        → All
            (λ o. P o × (passes_all filters o ≡ true))
            (run_filters x env registered n filters input)
    unfolding run_filters
    run_filters-All P n [] input h = All-map (λ o p. (p, refl)) input h
    run_filters-All P n (f ∷ filters) input h =
        let passed =
          receive_and_filter-All x (env (suc n)) registered f.name f.test P 0 0 input h in
        All-map (λ o p. (p.0.0, ground (arith, p.0.1, p.1))) _
          (run_filters-All (λ o. P o × (f.test o ≡ true)) (suc n) filters _ passed)

    run_filters-quiet :
        ((n : ℕ) → IsQuiet x (env n))
        → (n : ℕ) (filters : List (Filter x)) (input : List (S3Object x.DateTime))
        → run_filters x env registered n filters input ≡ filter_by (passes_all filters) input
    unfolding run_filters
    run_filters-quiet q n [] input = sym (filter_by-true input)
    run_filters-quiet q n (f ∷ filters) input =
        let (passed, _, _) =
          receive_and_filter-quiet x (env (suc n)) registered f.name f.test (q (suc n)) 0 0 input in
        rw (passed, run_filters-quiet q (suc n) filters)
          (filter_by-filter_by f.test (passes_all filters) input)

  passes_all-insert_if :
      (on : Bool) (f : Filter x) (rest : List (Filter x)) (o : S3Object x.DateTime)
      → passes_all (insert_if x on f rest) o ≡ ((not on || f.test o) && passes_all rest o)
  passes_all-insert_if true f rest o = refl
  passes_all-insert_if false f rest o = refl

  -- Each stage, if it is there, decides its part of `selects`.
  module _ (c : FilterConfig x) (o : S3Object x.DateTime) where
    marker-criterion :
        (not c.delete_marker_only || is_delete_marker x o c)
        ≡ (not c.delete_marker_only || Object.is_delete_marker o)
    unfolding is_delete_marker
    marker-criterion = ground arith

    before-criterion :
        (not (is_some c.before_time) || is_before x o c)
        ≡ criterion c.before_time (λ t. modified o (λ u. not (x.le_utc t u)))
    unfolding is_before
    before-criterion = ground arith

    after-criterion :
        (not (is_some c.after_time) || is_after_or_equal x o c)
        ≡ criterion c.after_time (λ t. modified o (λ u. not (x.lt_utc u t)))
    unfolding is_after_or_equal
    after-criterion = ground arith

    include-criterion :
        (not (is_some c.include_regex) || is_match x o c)
        ≡ criterion c.include_regex (λ r. matched (x.is_match r (Object.key o)) true)
    unfolding is_match
    include-criterion = ground arith

    exclude-criterion :
        (not (is_some c.exclude_regex) || is_not_match x o c)
        ≡ criterion c.exclude_regex (λ r. matched (x.is_match r (Object.key o)) false)
    unfolding is_not_match
    exclude-criterion = ground arith

    latest-criterion :
        ((not c.keep_latest_only || is_not_latest x o c) && true)
        ≡ (not c.keep_latest_only || not (Object.is_latest o))
    unfolding is_not_latest
    latest-criterion = ground arith

  module _ (c : FilterConfig x) where
    smaller-criterion :
        (o : S3Object x.DateTime)
        → (not (is_some c.smaller_size) || is_smaller x o c)
          ≡ criterion c.smaller_size (λ n. sized o (λ s. ltb s n))
    unfolding is_smaller
    smaller-criterion (delete_marker m) = ground arith
    smaller-criterion (versioning v) = ground arith
    smaller-criterion (not_versioning v) = ground arith

    larger-criterion :
        (o : S3Object x.DateTime)
        → (not (is_some c.larger_size) || is_larger_or_equal x o c)
          ≡ criterion c.larger_size (λ n. sized o (λ s. leb n s))
    unfolding is_larger_or_equal
    larger-criterion (delete_marker m) = ground arith
    larger-criterion (versioning v) = ground arith
    larger-criterion (not_versioning v) = ground arith

  -- The stages that the settings insert test exactly what the settings ask.
  pub passes_all-object_filters :
      (config : Config x) (o : S3Object x.DateTime)
      → passes_all (object_filters x config) o ≡ selects config.filter_config o
  unfolding object_filters selects
  passes_all-object_filters config o = simp passes_all-insert_if (
      rw (
        marker-criterion fc o,
        before-criterion fc o,
        after-criterion fc o,
        smaller-criterion fc o,
        larger-criterion fc o,
        include-criterion fc o,
        exclude-criterion fc o,
        latest-criterion fc o,
      ))
    where
      open config use {filter_config as fc}

  module _ (env : ℕ → Surroundings) (registered : Bool) where
    -- However the tasks interleave, an object reaches a delete worker only if it was listed, every
    -- setting selects it, and the callback, if there is one, approved it.
    pub filter_objects-All :
        (config : Config x) (execute : ℕ → S3Object x.DateTime → Result Bool Error)
        (P : S3Object x.DateTime → Type 0) (input : List (S3Object x.DateTime))
        → All P input
        → All
            (λ o.
              P o
              × (selects config.filter_config o ≡ true)
              × ((config.filter_callback_registered ≡ false) ⊎ ((n : ℕ) × (execute n o ≡ ok true))))
            (filter_objects x env registered config execute input)
    unfolding filter_objects
    filter_objects-All config execute P input h =
        elim (Bool-cases config.filter_callback_registered) [
          | inl on ↦ rw on (
              All-map (λ o p. (p.0.0, rw (← chain o) p.0.1, inr p.1)) _
                (user_defined_filter-All x (env 0) registered execute _ 0 0 _ filtered))
          | inr off ↦ rw off (All-map (λ o p. (p.0, rw (← chain o) p.1, inl refl)) _ filtered)
        ]
      where
        chain :
            (o : S3Object x.DateTime)
            → passes_all (object_filters x config) o ≡ selects config.filter_config o
        chain = passes_all-object_filters config

        filtered :
            All
              (λ o. P o × (passes_all (object_filters x config) o ≡ true))
              (run_filters x env registered 0 (object_filters x config) input)
        filtered = run_filters-All env registered P 0 (object_filters x config) input h

    -- Left alone, the stages pass on exactly the objects that the settings select.
    pub filter_objects-quiet :
        ((n : ℕ) → IsQuiet x (env n))
        → (config : Config x) (execute : ℕ → S3Object x.DateTime → Result Bool Error)
          (input : List (S3Object x.DateTime))
        → config.filter_callback_registered ≡ false
        → filter_objects x env registered config execute input
          ≡ filter_by (selects config.filter_config) input
    unfolding filter_objects
    filter_objects-quiet q config execute input absent = rw absent (
        run_filters-quiet env registered q 0 (object_filters x config) input
        ∙ ap (λ t. filter_by t input) (fun_ext (passes_all-object_filters config)))
