-- ===== src/Deleter/Refinement/Worker.antt =====
-- A delete worker of src/deleter/mod.rs that nothing holds up: quiet surroundings, no dry run, no
-- limit and no attribute filter.
use mathlib.Core.List.{reverse, reverse-reverse, map-append}
use s3rm_rs.Base.{
  suc, ◌≤◌, ◌<◌, ◌≡◌, refl, sym, ap, ◌∙◌, subst, true, false, ◌||◌, List, [], ◌∷◌, ◌++◌, append-nil,
  append_assoc, Result, ok, err, Bool-cases, inl, inr, leb, length, arith, if_false, if◌then◌else◌,
  return, if_true, ◌⊎◌, if_true, ◌⊎◌, leb_false→lt,
}
use s3rm_rs.Types.Object.{S3Object}
use s3rm_rs.Types.Error.{Error}
use s3rm_rs.Types.Sdk.{Sdk}
use s3rm_rs.Config.{Config}
use s3rm_rs.Storage.{Storage}
use s3rm_rs.Stage.{Surroundings}
use s3rm_rs.Filters.Loop.Laws.{IsQuiet}
use s3rm_rs.Deleter.World.{World, Action}
use s3rm_rs.Deleter.Backend.{effective_batch_size}
use s3rm_rs.Deleter.Attributes.{apply_head_object_filters, apply_tag_filters}
use s3rm_rs.Deleter.Worker.Flush.{delete_buffered_objects}
use s3rm_rs.Deleter.Worker.{
  check_max_delete, check_against, buffer_and_delete, process_object, receive_and_delete,
}
use s3rm_rs.Deleter.Refinement.{
  Identity, identity, identities, IsFaithful, IsAt, Ends, then-Ends, Ends-map,
}
use s3rm_rs.Deleter.Refinement.Flush.{
  IsPlain, reverse-behind, live-Bool, delete_buffered_objects-Done,
}

module _ (x : Sdk) (t : Storage) (config : Config x) (view : t.State → List Identity)
    (faithful : IsFaithful t view) (plain : IsPlain t config) (env : Surroundings)
    (quiet : IsQuiet x env) where
  abbrev Objects : Type 0
  Objects = List (S3Object x.DateTime)

  abbrev At : List Identity → Objects → Objects → World x t → Type 0
  At = IsAt x t view

  abbrev Done : List Identity → Objects → Objects → World x t × Result (Unit {0}) Error → Type 0
  Done deleted sent buffer m = Ends x t view (λ u w. At deleted sent buffer w) m

  check_max_delete-Ends :
      (o : S3Object x.DateTime) (w : World x t) (deleted : List Identity) (sent buffer : Objects)
      → At deleted sent buffer w
      → Ends x t view
          (λ b w. (b ≡ false) × At deleted sent buffer w)
          (check_max_delete x t config env o w)
  unfolding check_max_delete
  check_max_delete-Ends o w deleted sent buffer h =
      subst
        (λ limit.
          Ends x t view (λ b w. (b ≡ false) × At deleted sent buffer w)
            (check_against x t config env limit o w))
        (sym plain.unlimited) (refl, h)

  -- The buffer has room for one more object.
  abbrev pub HasRoom : Objects → Type 0
  HasRoom buffer = length buffer < effective_batch_size x t config

  HasRoom-fits :
      (buffer : Objects) (o : S3Object x.DateTime)
      → HasRoom buffer
      → leb config.batch_size 1 ≡ true
      → length (o ∷ buffer) ≤ 1
  unfolding effective_batch_size
  HasRoom-fits buffer o room one = ground (arith, room)

  pub HasRoom-le :
      (buffer : Objects) → HasRoom buffer → leb config.batch_size 1 ≡ true → length buffer ≤ 1
  unfolding effective_batch_size
  HasRoom-le buffer room one = ground (arith, room)

  pub effective-positive : 0 < effective_batch_size x t config
  unfolding effective_batch_size
  effective-positive = ground arith

  -- What one object more leads to: it waits in the buffer, or a flush has deleted all.
  abbrev pub Grown :
      List Identity → Objects → Objects → S3Object x.DateTime → Unit {0} → World x t → Type 0
  Grown deleted sent buffer o u w =
      (At deleted sent (o ∷ buffer) w × HasRoom (o ∷ buffer))
      ⊎ At (deleted ++ identities (reverse (o ∷ buffer))) (o ∷ (buffer ++ sent)) [] w

  buffer_and_delete-Ends :
      (o : S3Object x.DateTime) (w : World x t) (deleted : List Identity) (sent buffer : Objects)
      → HasRoom buffer
      → At deleted sent buffer w
      → Ends x t view (Grown deleted sent buffer o) (buffer_and_delete x t config env o w)
  unfolding buffer_and_delete
  buffer_and_delete-Ends o w deleted sent buffer room h =
      let w' = record w { buffer = o ∷ w.buffer } in
      let h' : At deleted sent (o ∷ buffer) w' = (h.0, h.1, ap (◌∷◌ o) h.2, h.3) in
      let is_full = leb (effective_batch_size x t config) (length (o ∷ w.buffer)) in
      elim (Bool-cases is_full) [
        | inl full ↦ if_true (Ends x t view (Grown deleted sent buffer o)) is_full _ _ full (
            Ends-map x t view
              (λ u w. At (deleted ++ identities (reverse (o ∷ buffer))) (o ∷ (buffer ++ sent)) [] w)
              (Grown deleted sent buffer o) (delete_buffered_objects x t config env w')
              (λ u w p. inr p)
              (delete_buffered_objects-Done x t config view faithful plain env quiet w' deleted sent
                (o ∷ buffer) (HasRoom-fits buffer o room) h'))
        | inr space ↦
            if_false (Ends x t view (Grown deleted sent buffer o)) is_full _ _ space
              (inl (h', omega (arith, leb_false→lt _ _ space, ap length h.2)))
      ]

  pub process_object-Ends :
      (o : S3Object x.DateTime) (w : World x t) (deleted : List Identity) (sent buffer : Objects)
      → HasRoom buffer
      → At deleted sent buffer w
      → Ends x t view (Grown deleted sent buffer o) (process_object x t config env o w)
  unfolding process_object apply_head_object_filters apply_tag_filters
  process_object-Ends o w deleted sent buffer room h =
      rw (plain.no_head, plain.no_tagging)
        (then-Ends x t view (λ b w. (b ≡ false) × At deleted sent buffer w)
          (Grown deleted sent buffer o) (check_max_delete x t config env o w) _
          (check_max_delete-Ends o w deleted sent buffer h)
          (λ b w p.
            if_false
              (λ (m : Action x t (Unit {0})). Ends x t view (Grown deleted sent buffer o) (m w)) b _
              _ p.0 (buffer_and_delete-Ends o w deleted sent buffer room p.1)))

  -- The worker's loop deletes what it buffers and receives, in this order, and sends all of it on.
  abbrev Emptied :
      List Identity → Objects → Objects → Objects → World x t × Result (Unit {0}) Error → Type 0
  Emptied deleted sent buffer objects m =
      Done (deleted ++ identities (reverse buffer ++ objects)) (reverse objects ++ (buffer ++ sent))
        [] m

  unless_cancelled :
      (w : World x t) (deleted : List Identity) (sent : Objects) (rest : Action x t (Unit {0}))
      → w.cancelled ≡ false
      → Done deleted sent [] (rest (record w { reads = suc w.reads }))
      → Done deleted sent [] (
          (if w.cancelled || env.is_cancelled w.reads then return tt else rest)
            (record w { reads = suc w.reads }))
  unless_cancelled w deleted sent rest live h =
      if_false
        (λ (m : Action x t (Unit {0})). Done deleted sent [] (m (record w { reads = suc w.reads })))
        (w.cancelled || env.is_cancelled w.reads) (return tt) rest
        (live-Bool x t config view faithful plain env quiet w live) h

  Done-along :
      {deleted deleted' : List Identity} {sent sent' : Objects}
      (m : World x t × Result (Unit {0}) Error)
      → deleted ≡ deleted'
      → sent ≡ sent'
      → Done deleted sent [] m
      → Done deleted' sent' [] m
  Done-along {deleted} {deleted'} {sent} {sent'} m e f h =
      subst (λ s. Done deleted' s [] m) f (subst (λ d. Done d sent [] m) e h)

  deleted-after :
      (deleted : List Identity) (buffer : Objects) (o : S3Object x.DateTime) (objects : Objects)
      → (deleted ++ identities (reverse (o ∷ buffer))) ++ identities objects
        ≡ deleted ++ identities (reverse buffer ++ o ∷ objects)
  deleted-after deleted buffer o objects =
      append_assoc deleted (identities (reverse (o ∷ buffer))) (identities objects)
      ∙ ap (◌++◌ deleted) (
          sym (map-append identity (reverse (o ∷ buffer)) objects)
          ∙ ap identities (sym (reverse-behind o buffer objects)))

  receive_and_delete-Emptied :
      (objects : Objects) (w : World x t) (deleted : List Identity) (sent buffer : Objects)
      → HasRoom buffer
      → At deleted sent buffer w
      → Emptied deleted sent buffer objects (receive_and_delete x t config env objects w)
  unfolding receive_and_delete
  receive_and_delete-Emptied [] w deleted sent buffer room h =
      unless_cancelled w _ _ (delete_buffered_objects x t config env) h.3 (
        rw (append-nil (reverse buffer)) (
          delete_buffered_objects-Done x t config view faithful plain env quiet
            (record w { reads = suc w.reads }) deleted sent buffer (HasRoom-le buffer room) h))
  receive_and_delete-Emptied (o ∷ objects) w deleted sent buffer room h =
      let continue : World x t → World x t × Result (Unit {0}) Error =
        λ w. receive_and_delete x t config env objects (record w { reads = suc w.reads }) in
      unless_cancelled w _ _ _ h.3 (
        then-Ends x t view (Grown deleted sent buffer o)
          (λ u w.
            At (deleted ++ identities (reverse buffer ++ o ∷ objects))
              (reverse (o ∷ objects) ++ (buffer ++ sent)) [] w)
          (process_object x t config env o (record w { reads = suc w.reads })) _
          (process_object-Ends o (record w { reads = suc w.reads }) deleted sent buffer room h)
          (λ u w g. elim g [
            | inl (waiting, room) ↦
                unless_cancelled w _ _ (receive_and_delete x t config env objects) waiting.3 (
                  Done-along (continue w)
                    (ap (λ l. deleted ++ identities l) (sym (reverse-behind o buffer objects)))
                    (reverse-behind o objects (buffer ++ sent))
                    (receive_and_delete-Emptied objects (record w { reads = suc w.reads }) deleted
                      sent (o ∷ buffer) room waiting))
            | inr flushed ↦
                unless_cancelled w _ _ (receive_and_delete x t config env objects) flushed.3 (
                  Done-along (continue w) (deleted-after deleted buffer o objects)
                    (reverse-behind o objects (buffer ++ sent))
                    (receive_and_delete-Emptied objects (record w { reads = suc w.reads })
                      (deleted ++ identities (reverse (o ∷ buffer))) (o ∷ (buffer ++ sent)) []
                      effective-positive flushed))
          ]))

  -- At a target that refuses no delete, a delete worker that nothing holds up deletes exactly the
  -- objects that it receives, each once and in their order, sends each of them on, and ends well
  -- with an empty buffer: it implements the list of its deletes, however they fall into batches.
  pub receive_and_delete-refines :
      (objects : Objects) (w : World x t)
      → w.sent ≡ []
      → w.buffer ≡ []
      → w.cancelled ≡ false
      → let m = receive_and_delete x t config env objects w in
        (m.1 ≡ ok tt)
        × (view m.0.target ≡ view w.target ++ identities objects)
        × (reverse m.0.sent ≡ objects)
        × (m.0.buffer ≡ [])
  receive_and_delete-refines objects w fresh clear live =
      outcome (receive_and_delete x t config env objects w) (
        receive_and_delete-Emptied objects w (view w.target) [] [] effective-positive
          (refl, fresh, clear, live))
    where
      outcome :
          (m : World x t × Result (Unit {0}) Error)
          → Done (view w.target ++ identities objects) (reverse objects ++ []) [] m
          → (m.1 ≡ ok tt)
            × (view m.0.target ≡ view w.target ++ identities objects)
            × (reverse m.0.sent ≡ objects)
            × (m.0.buffer ≡ [])
      outcome (w, ok u) h = (
        refl,
        h.0,
        ap reverse (h.1 ∙ append-nil (reverse objects)) ∙ reverse-reverse objects,
        h.2,
      )
      outcome (w, err e) h = absurd h
