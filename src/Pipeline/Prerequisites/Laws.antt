-- ===== src/Pipeline/Prerequisites/Laws.antt =====
-- `check_prerequisites` of src/pipeline.rs, and the configuration that it leaves.
use s3rm_rs.Base.{
  Bool, true, false, not, ◌&&◌, ◌≡◌, refl, Result, ok, err, ◌>>◌, and_then, Post, if-Post,
  and_then-Post, arith, ap, sym, subst,
}
use s3rm_rs.Types.Error.{Error}
use s3rm_rs.Types.Sdk.{Sdk}
use s3rm_rs.Config.{Config}
use s3rm_rs.Storage.{Storage}
use s3rm_rs.Safety
use s3rm_rs.Safety.{PromptHandler, SafetyChecker, check_before_deletion}
use s3rm_rs.Pipeline.{Pipeline}
use s3rm_rs.Pipeline.Prerequisites.{
  check_prerequisites, check_options, check_versioning, give_up_versions, finish_checks,
  mark_checked,
}

module _ (x : Sdk) (t : Storage) where
  -- The options of the configuration go together.
  pub record IsCoherent (c : Config x) : Type 0 where
    pub latest : (c.filter_config.keep_latest_only && not c.delete_all_versions) ≡ false
    pub markers : (c.filter_config.delete_marker_only && not c.delete_all_versions) ≡ false
    pub matches : (c.if_match && c.delete_all_versions) ≡ false

  -- A pipeline that differs in its target alone: it was read.
  abbrev pub IsUntouched : Pipeline x t → Pipeline x t → Type 0
  IsUntouched p q = q ≡ record p { target = q.target }

  check_options-Post :
      (c : Config x) (p : Pipeline x t)
      → Post (λ _ q. (q ≡ p) × IsCoherent c) (IsUntouched p) (check_options x t c p)
  unfolding check_options
  check_options-Post c p =
      if-Post Good Bad (c.filter_config.keep_latest_only && not c.delete_all_versions) _ _ p
        (λ _. refl)
        (λ latest.
          if-Post Good Bad (c.filter_config.delete_marker_only && not c.delete_all_versions) _ _ p
            (λ _. refl)
            (λ markers.
              if-Post Good Bad (c.if_match && c.delete_all_versions) _ _ p (λ _. refl)
                (λ matches.
                  (refl, record { latest = latest; markers = markers; matches = matches }))))
    where
      Good : Unit {0} → Pipeline x t → Type 0
      Good _ q = (q ≡ p) × IsCoherent c

      Bad : Pipeline x t → Type 0
      Bad = IsUntouched p

  -- The configuration is coherent and is the old one, but that it may have lost
  -- `delete_all_versions`; nothing else but the target has changed.
  pub record IsNarrowed (p q : Pipeline x t) : Type 0 where
    pub coherent : IsCoherent q.config
    pub narrowed : (q.config.delete_all_versions && not p.config.delete_all_versions) ≡ false
    pub same : q ≡ record p {
      target = q.target;
      config = record p.config { delete_all_versions = q.config.delete_all_versions };
    }

  kept-IsNarrowed :
      (p : Pipeline x t) (s : t.State)
      → IsCoherent p.config
      → IsNarrowed p (record p { target = s })
  kept-IsNarrowed p s coherent = record {
    coherent = coherent;
    narrowed = ground arith;
    same = refl;
  }

  give_up_versions-Post :
      (b : Bool) (p : Pipeline x t) (s : t.State)
      → IsCoherent p.config
      → Post
          (λ _ q. IsNarrowed p q)
          (IsUntouched p)
          (give_up_versions x t p.config b (record p { target = s }))
  unfolding give_up_versions
  give_up_versions-Post true p s coherent = kept-IsNarrowed p s coherent
  give_up_versions-Post false p s coherent =
      if-Post (λ _ q. IsNarrowed p q) (IsUntouched p) p.config.filter_config.keep_latest_only _ _
        (record p { target = s }) (λ _. refl)
        (λ latest.
          if-Post (λ _ q. IsNarrowed p q) (IsUntouched p) p.config.filter_config.delete_marker_only
            _ _ (record p { target = s }) (λ _. refl)
            (λ markers. record {
              coherent = record {
                latest = ground arith;
                markers = ground arith;
                matches = ground arith;
              };
              narrowed = refl;
              same = refl;
            }))

  asked-Post :
      (r : Result Bool Error) (p : Pipeline x t) (s : t.State)
      → IsCoherent p.config
      → Post
          (λ _ q. IsNarrowed p q)
          (IsUntouched p)
          (and_then (record p { target = s }, r) (give_up_versions x t p.config))
  asked-Post (ok b) p s coherent = give_up_versions-Post b p s coherent
  asked-Post (err e) p s coherent = refl

  check_versioning-Post :
      (p : Pipeline x t)
      → IsCoherent p.config
      → Post (λ _ q. IsNarrowed p q) (IsUntouched p) (check_versioning x t p.config p)
  unfolding check_versioning
  check_versioning-Post p coherent =
      if-Post (λ _ q. IsNarrowed p q) (IsUntouched p) p.config.delete_all_versions _ _ p
        (λ _.
          asked-Post (t.is_versioning_enabled p.target).1 p (t.is_versioning_enabled p.target).0
            coherent)
        (λ _. kept-IsNarrowed p p.target coherent)

  -- The safety check has passed, the options are coherent, and the pipeline is marked as checked and
  -- otherwise as before, but that `delete_all_versions` may have been cleared.
  pub record IsChecked (h : PromptHandler) (p q : Pipeline x t) : Type 0 where
    pub passed : check_before_deletion (Safety.new x h p.config) ≡ ok tt
    pub coherent : IsCoherent q.config
    pub narrowed : (q.config.delete_all_versions && not p.config.delete_all_versions) ≡ false
    pub same : q ≡ record p {
      target = q.target;
      config = record p.config { delete_all_versions = q.config.delete_all_versions };
      prerequisites_checked = true;
    }

  narrowed-IsChecked :
      (h : PromptHandler) (p q : Pipeline x t)
      → check_before_deletion (Safety.new x h p.config) ≡ ok tt
      → IsNarrowed p q
      → IsChecked h p (mark_checked x t q)
  narrowed-IsChecked h p q passed n = record {
    passed = passed;
    coherent = n.coherent;
    narrowed = n.narrowed;
    same = ap (mark_checked x t) n.same;
  }

  -- If the prerequisites hold, the safety check has passed, the options of the configuration that
  -- remains go together, and of the configuration only `delete_all_versions` may have been cleared;
  -- on every error the pipeline is as before, the target's state aside.
  pub check_prerequisites-Post :
      (h : PromptHandler) (p : Pipeline x t)
      → Post (λ _ q. IsChecked h p q) (IsUntouched p) (check_prerequisites x t h p)
  unfolding check_prerequisites
  check_prerequisites-Post h p = passed-Post (check_before_deletion (Safety.new x h p.config)) refl
    where
      checks-Post :
          check_before_deletion (Safety.new x h p.config) ≡ ok tt
          → IsCoherent p.config
          → Post (λ _ q. IsChecked h p q) (IsUntouched p) (finish_checks x t p.config p)
      checks-Post passed coherent =
          and_then-Post (λ _ q. IsNarrowed p q) (λ _ q. IsChecked h p q) (IsUntouched p)
            (check_versioning x t p.config p) _ (check_versioning-Post p coherent)
            (λ u q n. narrowed-IsChecked h p q passed n)

      options-Post :
          check_before_deletion (Safety.new x h p.config) ≡ ok tt
          → Post
              (λ _ q. IsChecked h p q)
              (IsUntouched p)
              (and_then (check_options x t p.config p) (λ _. finish_checks x t p.config))
      options-Post passed =
          and_then-Post (λ _ q. (q ≡ p) × IsCoherent p.config) (λ _ q. IsChecked h p q)
            (IsUntouched p) (check_options x t p.config p) _ (check_options-Post p.config p)
            (λ u q good.
              subst
                (λ q. Post (λ _ q. IsChecked h p q) (IsUntouched p) (finish_checks x t p.config q))
                (sym good.0) (checks-Post passed good.1))

      passed-Post :
          (r : Result (Unit {0}) Error)
          → check_before_deletion (Safety.new x h p.config) ≡ r
          → Post
              (λ _ q. IsChecked h p q)
              (IsUntouched p)
              (and_then (p, r) (λ _. check_options x t p.config >> finish_checks x t p.config))
      passed-Post (ok u) passed = options-Post passed
      passed-Post (err e) refused = refl
