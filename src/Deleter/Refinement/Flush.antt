-- ===== src/Deleter/Refinement/Flush.antt =====
-- `delete_buffered_objects` of src/deleter/mod.rs in a worker that nothing holds up: quiet
-- surroundings, no dry run, no limit and no attribute filter.
use mathlib.Core.List.{reverse, reverse-cons, reverse-reverse}
use s3rm_rs.Base.{
  suc, ◌≤◌, ◌<◌, ◌≡◌, refl, sym, ap, ◌∙◌, subst, Bool, true, false, ◌||◌, none, List, [], ◌∷◌, ◌++◌,
  append-nil, append_assoc, Result, ok, err, leb, length, length-reverse, arith, if_false,
  for_each_rule,
}
use s3rm_rs.Types.Object.{S3Object}
use s3rm_rs.Types.Error.{Error}
use s3rm_rs.Types.Sdk.{Sdk}
use s3rm_rs.Config.{Config}
use s3rm_rs.Storage.{Storage}
use s3rm_rs.Stage.{Surroundings}
use s3rm_rs.Stage
use s3rm_rs.Filters.Loop.Laws.{IsQuiet}
use s3rm_rs.Deleter.World.{DeleteResult, World, Action, send}
use s3rm_rs.Deleter.Backend.{delete}
use s3rm_rs.Deleter.Attributes.{needs_head_object, needs_tagging}
use s3rm_rs.Deleter.Worker.Flush.{
  report_deleted, report_failed, report_result, forward, finish, delete_result, delete_batch,
  delete_buffered_objects, flush, cancel_on_error, unless_closed,
}
use s3rm_rs.Deleter.Refinement.{Identity, identities, IsFaithful, IsAt, Ends, then-Ends}
use s3rm_rs.Deleter.Refinement.Backend.{Deleted, delete-Ends}

-- Nothing in the configuration keeps a received object from being deleted.
pub record IsPlain {x : Sdk} (t : Storage) (config : Config x) : Type 0 where
  pub real : config.dry_run ≡ false
  pub unlimited : config.max_delete ≡ none
  pub no_head : needs_head_object x t config ≡ false
  pub no_tagging : needs_tagging x t config ≡ false

pub reverse-behind :
    {A : Type 0} (o : A) (batch sent : List A)
    → reverse batch ++ o ∷ sent ≡ reverse (o ∷ batch) ++ sent
reverse-behind o batch sent =
    sym (append_assoc (reverse batch) (o ∷ []) sent)
    ∙ ap (λ l. l ++ sent) (sym (reverse-cons o batch))

module _ (x : Sdk) (t : Storage) (config : Config x) (view : t.State → List Identity)
    (faithful : IsFaithful t view) (plain : IsPlain t config) (env : Surroundings)
    (quiet : IsQuiet x env) where
  abbrev pub Objects : Type 0
  Objects = List (S3Object x.DateTime)

  abbrev pub At : List Identity → Objects → Objects → World x t → Type 0
  At = IsAt x t view

  abbrev pub Done : List Identity → Objects → Objects → World x t × Result (Unit {0}) Error → Type 0
  Done deleted sent buffer m = Ends x t view (λ u w. At deleted sent buffer w) m

  report_result-At :
      (batch : Objects) (r : DeleteResult) (w : World x t) (deleted : List Identity)
      (sent buffer : Objects)
      → At deleted sent buffer w
      → At deleted sent buffer (report_result x t config batch r w)
  unfolding report_result report_deleted report_failed
  report_result-At batch r w deleted sent buffer h =
      for_each_rule (At deleted sent buffer) (report_failed x t config) (λ k w h. h) r.failed _
        (for_each_rule (At deleted sent buffer) (report_deleted x t config batch) (λ k w h. h)
          r.deleted w h)

  send-At :
      (o : S3Object x.DateTime) (w : World x t) (deleted : List Identity) (sent buffer : Objects)
      → At deleted sent buffer w
      → Ends x t view
          (λ r w. (r ≡ Stage.success) × At deleted (o ∷ sent) buffer w)
          (send x t env o w)
  unfolding Stage.send
  send-At o w deleted sent buffer h =
      rw (quiet.accepting w.sends) (refl, (h.0, ap (◌∷◌ o) h.1, h.2, h.3))

  unless_closed-Done :
      (r : Stage.SendResult) (rest : Action x t (Unit {0})) (w : World x t)
      (deleted : List Identity) (sent buffer : Objects)
      → r ≡ Stage.success
      → Done deleted sent buffer (rest w)
      → Done deleted sent buffer (unless_closed x t config env r rest w)
  unless_closed-Done Stage.success rest w deleted sent buffer e h = h
  unless_closed-Done Stage.closed rest w deleted sent buffer e h = absurd (ground arith)

  forward-Done :
      (batch : Objects) (w : World x t) (deleted : List Identity) (sent buffer : Objects)
      → At deleted sent buffer w
      → Done deleted (reverse batch ++ sent) buffer (forward x t config env batch w)
  unfolding forward
  forward-Done [] w deleted sent buffer h = h
  forward-Done (o ∷ batch) w deleted sent buffer h =
      subst (λ all. Done deleted all buffer (forward x t config env (o ∷ batch) w))
        (reverse-behind o batch sent)
        (then-Ends x t view (λ r w. (r ≡ Stage.success) × At deleted (o ∷ sent) buffer w)
          (λ u w. At deleted (reverse batch ++ o ∷ sent) buffer w) (send x t env o w)
          (λ r. unless_closed x t config env r (forward x t config env batch))
          (send-At o w deleted sent buffer h)
          (λ r w p.
            unless_closed-Done r _ w deleted _ buffer p.0
              (forward-Done batch w deleted (o ∷ sent) buffer p.1)))

  cancel_on_error-Ends :
      (P : DeleteResult → World x t → Type 0) (m : World x t × Result DeleteResult Error)
      → Ends x t view P m
      → Ends x t view P (cancel_on_error x t config env m)
  cancel_on_error-Ends P (w, ok r) h = h
  cancel_on_error-Ends P (w, err e) h = absurd h

  delete_result-Ends :
      (batch : Objects) (w : World x t) (deleted : List Identity) (sent buffer : Objects)
      → 0 < length batch
      → (leb config.batch_size 1 ≡ true → length batch ≤ 1)
      → At deleted sent buffer w
      → Ends x t view
          (Deleted x t config view faithful sent buffer (deleted ++ identities batch))
          (delete_result x t config env batch w)
  unfolding delete_result
  delete_result-Ends batch w deleted sent buffer full fits h =
      if_false
        (Ends x t view (Deleted x t config view faithful sent buffer (deleted ++ identities batch)))
        config.dry_run _ _ plain.real
        (cancel_on_error-Ends
          (Deleted x t config view faithful sent buffer (deleted ++ identities batch))
          (delete x t config batch w)
          (delete-Ends x t config view faithful sent buffer batch w deleted full fits h))

  finish-Done :
      (batch : Objects) (r : DeleteResult) (w : World x t) (deleted : List Identity)
      (sent buffer : Objects)
      → r.failed ≡ []
      → At deleted sent buffer w
      → Done deleted (reverse batch ++ sent) buffer (finish x t config env batch r.failed w)
  unfolding finish
  finish-Done batch r w deleted sent buffer clean h =
      rw clean (forward-Done batch w deleted sent buffer h)

  delete_batch-Done :
      (batch : Objects) (w : World x t) (deleted : List Identity) (sent buffer : Objects)
      → 0 < length batch
      → (leb config.batch_size 1 ≡ true → length batch ≤ 1)
      → At deleted sent buffer w
      → Done
          (deleted ++ identities batch)
          (reverse batch ++ sent)
          buffer
          (delete_batch x t config env batch w)
  unfolding delete_batch
  delete_batch-Done batch w deleted sent buffer full fits h =
      then-Ends x t view
        (Deleted x t config view faithful sent buffer (deleted ++ identities batch))
        (λ u w. At (deleted ++ identities batch) (reverse batch ++ sent) buffer w)
        (delete_result x t config env batch w) _
        (delete_result-Ends batch w deleted sent buffer full fits h)
        (λ r w d.
          finish-Done batch r _ (deleted ++ identities batch) sent buffer d.0
            (report_result-At batch r w (deleted ++ identities batch) sent buffer d.1))

  pub live-Bool :
      (w : World x t) → w.cancelled ≡ false → (w.cancelled || env.is_cancelled w.reads) ≡ false
  live-Bool w h = rw (quiet.live w.reads) (or_false w.cancelled h)
    where
      or_false : (b : Bool) → b ≡ false → (b || false) ≡ false
      or_false true h = h
      or_false false h = refl

  flush-Done :
      (w : World x t) (deleted : List Identity) (sent buffer : Objects)
      → (leb config.batch_size 1 ≡ true → length buffer ≤ 1)
      → At deleted sent buffer w
      → Done
          (deleted ++ identities (reverse buffer))
          (buffer ++ sent)
          []
          (flush x t config env buffer w)
  flush-Done w deleted sent [] fits h = rw (append-nil deleted) h
  flush-Done w deleted sent (o ∷ older) fits h =
      let all = o ∷ older in
      if_false
        (λ (m : Action x t (Unit {0})).
          Done (deleted ++ identities (reverse all)) (all ++ sent) []
            (m (record w { reads = suc w.reads })))
        (w.cancelled || env.is_cancelled w.reads) _ _ (live-Bool w h.3)
        (subst
          (λ l. Done (deleted ++ identities (reverse all)) (l ++ sent) [] (
            delete_batch x t config env (reverse all)
              (record w { reads = suc w.reads; buffer = [] })))
          (reverse-reverse all)
          (delete_batch-Done (reverse all) (record w { reads = suc w.reads; buffer = [] }) deleted
            sent [] (omega (arith, length-reverse all))
            (λ one. omega (arith, length-reverse all, fits one)) (h.0, h.1, refl, h.3)))

  -- A flush deletes all that is buffered, oldest first, and sends it on.
  pub delete_buffered_objects-Done :
      (w : World x t) (deleted : List Identity) (sent buffer : Objects)
      → (leb config.batch_size 1 ≡ true → length buffer ≤ 1)
      → At deleted sent buffer w
      → Done
          (deleted ++ identities (reverse buffer))
          (buffer ++ sent)
          []
          (delete_buffered_objects x t config env w)
  unfolding delete_buffered_objects
  delete_buffered_objects-Done w deleted sent buffer fits h =
      subst
        (λ b.
          Done (deleted ++ identities (reverse buffer)) (buffer ++ sent) []
            (flush x t config env b w))
        (sym h.2) (flush-Done w deleted sent buffer fits h)
