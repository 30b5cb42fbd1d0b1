-- ===== src/Deleter/Refinement/Workers.antt =====
-- The delete workers of src/pipeline.rs that nothing holds up, against the list of their deletes.
use mathlib.Core.List.{reverse, flatten, map-append, Perm}
use mathlib.Core.List.Perm
use s3rm_rs.Base.{
  ◌≤◌, ◌<◌, ◌≡◌, refl, sym, ap, ◌∙◌, subst, true, false, List, [], ◌∷◌, ◌++◌, append-nil,
  append_assoc, Result, ok, err, inl, inr, leb, length, arith, All,
}
use s3rm_rs.Types.Object.{S3Object}
use s3rm_rs.Types.Error.{Error}
use s3rm_rs.Types.Sdk.{Sdk}
use s3rm_rs.Config.{Config}
use s3rm_rs.Storage.{Storage}
use s3rm_rs.Stage.{Surroundings}
use s3rm_rs.Filters.Loop.Laws.{IsQuiet}
use s3rm_rs.Deleter.World.{World}
use s3rm_rs.Deleter.Backend.{effective_batch_size}
use s3rm_rs.Deleter.Worker.{process_object}
use s3rm_rs.Deleter.Worker.Flush.{delete_buffered_objects}
use s3rm_rs.Deleter.Workers
use s3rm_rs.Deleter.Workers.{Workers, Reaches, before_step, after_step}
use s3rm_rs.Deleter.Refinement.{Identity, identity, identities, IsFaithful, IsAt, Ends, Ends-map}
use s3rm_rs.Deleter.Refinement.Flush.{IsPlain, delete_buffered_objects-Done}
use s3rm_rs.Deleter.Refinement.Worker.{HasRoom-le, Grown, process_object-Ends}
use s3rm_rs.Deleter.Refinement.Buffers.{
  flatten-middle, All-at, All-replaced, everything, everything-cons, everything-flushed,
}

module _ (x : Sdk) (t : Storage) (config : Config x) (view : t.State → List Identity)
    (faithful : IsFaithful t view) (plain : IsPlain t config) where
  abbrev Objects : Type 0
  Objects = List (S3Object x.DateTime)

  -- The moves of `Step` in quiet surroundings, with the objects that the workers took, the newest
  -- first.
  pub data Run : Objects → Workers x t → Workers x t → Type 0 where
    start : (p : Workers x t) → Run [] p p
    process :
        (env : Surroundings) (objects : Objects) (o : S3Object x.DateTime)
        (left right : List Objects) (b : Objects) (w : World x t) (p : Workers x t)
        → IsQuiet x env
        → Run objects p (record { shared = w; buffers = left ++ b ∷ right })
        → Run
            (o ∷ objects)
            p
            (after_step x t left right (process_object x t config env o (before_step x t w b)).0)
    flush :
        (env : Surroundings) (objects : Objects) (left right : List Objects) (b : Objects)
        (w : World x t) (p : Workers x t)
        → IsQuiet x env
        → Run objects p (record { shared = w; buffers = left ++ b ∷ right })
        → Run objects p (
            after_step x t left right
              (delete_buffered_objects x t config env (before_step x t w b)).0)

  Run-Reaches :
      (objects : Objects) (p q : Workers x t)
      → Run objects p q
      → Reaches x t config (length objects) p q
  Run-Reaches objects p q (start p') = Workers.start p'
  Run-Reaches objects p q (process env objects' o left right b w p' quiet run) =
      subst (λ n. Reaches x t config n p q) (omega arith)
        (Workers.step 1 (length objects') p _ q (Run-Reaches objects' p _ run)
          (Workers.process env o left right b w))
  Run-Reaches objects p q (flush env objects' left right b w p' quiet run) =
      subst (λ n. Reaches x t config n p q) (omega arith)
        (Workers.step 0 (length objects') p _ q (Run-Reaches objects' p _ run)
          (Workers.flush env left right b w))

  Ends-world :
      {A : Type 0} (R : World x t → Type 0) (m : World x t × Result A Error)
      → Ends x t view (λ a w. R w) m
      → R m.0
  Ends-world R (w, ok a) h = h
  Ends-world R (w, err e) h = absurd h

  abbrev HasSpace : Objects → Type 0
  HasSpace buffer = length buffer < effective_batch_size x t config

  -- What was deleted since the view v and what the buffers hold are the received objects.
  pub record IsDone (v : List Identity) (received : Objects) (p : Workers x t) : Type 0 where
    pub deleted : Objects
    pub done : view p.shared.target ≡ v ++ identities deleted
    pub live : p.shared.cancelled ≡ false
    pub room : All HasSpace p.buffers
    pub all : Perm (deleted ++ flatten p.buffers) received

  module _ (v : List Identity) (received : Objects) (left right : List Objects) (b : Objects)
      (room : All HasSpace (left ++ b ∷ right)) where
    moved-IsDone :
        (deleted b' : Objects) (w : World x t)
        → view w.target ≡ v ++ identities deleted
        → w.buffer ≡ b'
        → w.cancelled ≡ false
        → HasSpace b'
        → Perm (everything deleted (flatten left) b' (flatten right)) received
        → IsDone v received (after_step x t left right w)
    moved-IsDone deleted b' w done buffer live space all = record {
      deleted = deleted;
      done = done;
      live = live;
      room =
          subst (λ c. All HasSpace (left ++ c ∷ right)) (sym buffer)
            (All-replaced HasSpace left right b b' room space);
      all =
          subst (λ c. Perm (deleted ++ flatten (left ++ c ∷ right)) received) (sym buffer)
            (subst (λ l. Perm (deleted ++ l) received) (sym (flatten-middle left right b')) all);
    }

    flushed-IsDone :
        (deleted b' : Objects) (w : World x t)
        → view w.target ≡ (v ++ identities deleted) ++ identities (reverse b')
        → w.buffer ≡ []
        → w.cancelled ≡ false
        → Perm (everything deleted (flatten left) b' (flatten right)) received
        → IsDone v received (after_step x t left right w)
    unfolding effective_batch_size
    flushed-IsDone deleted b' w done buffer live all =
        moved-IsDone (deleted ++ reverse b') [] w
          (done
            ∙ append_assoc v (identities deleted) (identities (reverse b'))
            ∙ ap (◌++◌ v) (sym (map-append identity deleted (reverse b'))))
          buffer live (ground arith)
          (Perm.trans (everything-flushed deleted (flatten left) b' (flatten right)) all)

  taken_out :
      (deleted received : Objects) (left right : List Objects) (b : Objects)
      → Perm (deleted ++ flatten (left ++ b ∷ right)) received
      → Perm (everything deleted (flatten left) b (flatten right)) received
  taken_out deleted received left right b h =
      subst (λ l. Perm (deleted ++ l) received) (flatten-middle left right b) h

  Run-IsDone :
      (v : List Identity) (received : Objects) (p q : Workers x t)
      → IsDone v [] p
      → Run received p q
      → IsDone v received q
  Run-IsDone v received p q h (start p') = h
  Run-IsDone v received p q h (process env objects o left right b w p' quiet run) =
      let before = Run-IsDone v objects p _ h run in
      let all =
        Perm.trans (everything-cons before.deleted (flatten left) b (flatten right) o)
          (Perm.cons o (taken_out before.deleted objects left right b before.all)) in
      Ends-world (λ w'. IsDone v (o ∷ objects) (after_step x t left right w')) _
        (Ends-map x t view
          (Grown x t config view faithful plain env quiet (v ++ identities before.deleted) w.sent b
            o)
          (λ u w'. IsDone v (o ∷ objects) (after_step x t left right w'))
          (process_object x t config env o (before_step x t w b))
          (λ u w' g. elim g [
            | inl (at, space) ↦
                moved-IsDone v (o ∷ objects) left right b before.room before.deleted (o ∷ b) w' at.0
                  at.2 at.3 space all
            | inr at ↦
                flushed-IsDone v (o ∷ objects) left right b before.room before.deleted (o ∷ b) w'
                  at.0 at.2 at.3 all
          ])
          (process_object-Ends x t config view faithful plain env quiet o (before_step x t w b)
            (v ++ identities before.deleted) w.sent b (All-at HasSpace left right b before.room)
            (before.done, refl, refl, before.live)))
  Run-IsDone v received p q h (flush env objects left right b w p' quiet run) =
      let before = Run-IsDone v objects p _ h run in
      let at_most_one : leb config.batch_size 1 ≡ true → length b ≤ 1 =
        HasRoom-le x t config view faithful plain env quiet b
          (All-at HasSpace left right b before.room) in
      Ends-world (λ w'. IsDone v objects (after_step x t left right w')) _
        (Ends-map x t view
          (λ u w'.
            IsAt x t view ((v ++ identities before.deleted) ++ identities (reverse b)) (b ++ w.sent)
              [] w')
          (λ u w'. IsDone v objects (after_step x t left right w'))
          (delete_buffered_objects x t config env (before_step x t w b))
          (λ u w' at.
            flushed-IsDone v objects left right b before.room before.deleted b w' at.0 at.2 at.3
              (taken_out before.deleted objects left right b before.all))
          (delete_buffered_objects-Done x t config view faithful plain env quiet
            (before_step x t w b) (v ++ identities before.deleted) w.sent b at_most_one
            (before.done, refl, refl, before.live)))

  empty-HasSpace : (buffers : List Objects) → All (λ b. b ≡ []) buffers → All HasSpace buffers
  unfolding effective_batch_size
  empty-HasSpace [] h = tt
  empty-HasSpace (b ∷ buffers) h =
      (subst HasSpace (sym h.0) (ground arith), empty-HasSpace buffers h.1)

  flatten-empty : (buffers : List Objects) → All (λ b. b ≡ []) buffers → flatten buffers ≡ []
  unfolding flatten
  flatten-empty [] h = refl
  flatten-empty (b ∷ buffers) h = ap (λ c. c ++ flatten buffers) h.0 ∙ flatten-empty buffers h.1

  -- At a target that refuses no delete, workers that start with empty buffers delete what they take
  -- from the channel: at any time, the objects that were deleted and those that wait in the buffers
  -- are together the objects that were taken.
  pub Run-refines :
      (received : Objects) (p q : Workers x t)
      → All (λ b. b ≡ []) p.buffers
      → p.shared.cancelled ≡ false
      → Run received p q
      → Reaches x t config (length received) p q
        × ((deleted : Objects) × (view q.shared.target ≡ view p.shared.target ++ identities deleted)
            × Perm (deleted ++ flatten q.buffers) received)
  Run-refines received p q empty live run =
      let after =
        Run-IsDone (view p.shared.target) received p q
          (record {
            deleted = [];
            done = sym (append-nil (view p.shared.target));
            live = live;
            room = empty-HasSpace p.buffers empty;
            all = subst (λ l. Perm l []) (sym (flatten-empty p.buffers empty)) (Perm.refl []);
          })
          run in
      (Run-Reaches received p q run, (after.deleted, after.done, after.all))
