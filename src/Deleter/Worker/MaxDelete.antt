-- ===== src/Deleter/Worker/MaxDelete.antt =====
-- `--max-delete` in one worker of src/deleter/mod.rs, with others beside it.
use s3rm_rs.Base.{
  ℕ, ◌+◌, ◌%◌, ◌^◌, ◌≤◌, ◌<◌, ◌≡◌, refl, Bool, true, false, some, ◌∷◌, length, Result, ok, err,
  ◌>>◌, return, modify, and_then, and_then_rule, Post, and_then_post, arith, subst, sym,
  Post-weaken, Bool-cases, inl, inr, if◌then◌else◌, leb,
}
use s3rm_rs.Types.Object.{S3Object}
use s3rm_rs.Types.Error.{Error}
use s3rm_rs.Types.Sdk.{Sdk}
use s3rm_rs.Config.{Config}
use s3rm_rs.Storage.{Storage}
use s3rm_rs.Stage.{Surroundings}
use s3rm_rs.Deleter.World.{World, Action}
use s3rm_rs.Deleter.Backend.Meter.{IsMetered}
use s3rm_rs.Deleter.Attributes.{apply_head_object_filters, apply_tag_filters}
use s3rm_rs.Deleter.Attributes.Laws.{
  IsReadable, Judges, apply_head_object_filters-Judges, apply_tag_filters-Judges,
}
use s3rm_rs.Deleter.Worker.{
  check_max_delete, buffer_and_delete, process_object, stop_at_max_delete, check_against,
  flush_and_stop, count_object,
}
use s3rm_rs.Deleter.Worker.Flush.Budget.{Budget, delete_buffered_objects-Budget}

module _ (x : Sdk) (t : Storage) (deletions : t.State → ℕ) (metered : IsMetered t deletions)
    (config : Config x) (env : Surroundings) where
  module _ (c n : ℕ) where
    buffer_and_delete-Budget :
        (o : S3Object x.DateTime) (w : World x t)
        → Budget x t deletions c n w
        → Budget x t deletions c (n + 1) (buffer_and_delete x t config env o w).0
    unfolding buffer_and_delete
    buffer_and_delete-Budget o w h = ground (
      arith,
      delete_buffered_objects-Budget x t deletions metered config env c (n + 1)
          (record w { buffer = o ∷ w.buffer }),
    )

    stop_at_max_delete-Budget :
        (o : S3Object x.DateTime) (w : World x t)
        → Budget x t deletions c n w
        → Budget x t deletions c n (stop_at_max_delete x t config env o w)
    unfolding stop_at_max_delete
    stop_at_max_delete-Budget o w h = ground arith

  module _ (c n : ℕ) (o : S3Object x.DateTime) where
    stopped-Post :
        (m : World x t × Result (Unit {0}) Error)
        → Budget x t deletions c n m.0
        → Post
            (λ stopped w. (stopped ≡ true) × Budget x t deletions c n w)
            (Budget x t deletions c n)
            (and_then m (λ _. modify (stop_at_max_delete x t config env o) >> return true))
    stopped-Post (w, ok u) h = (refl, stop_at_max_delete-Budget c n o w h)
    stopped-Post (w, err e) h = h

    flush_and_stop-Post :
        (w : World x t)
        → Budget x t deletions c n w
        → Post
            (λ stopped w. (stopped ≡ true) × Budget x t deletions c n w)
            (Budget x t deletions c n)
            (flush_and_stop x t config env o w)
    flush_and_stop-Post w h =
        stopped-Post _ (delete_buffered_objects-Budget x t deletions metered config env c n w h)

  abbrev spent : World x t → ℕ
  spent w = deletions w.target + length w.buffer

  -- At most k objects have been counted. What has been deleted since the target stood at d, with
  -- what this worker and the other workers hold in their buffers, is within the count and within m.
  pub record Limited (d m others k : ℕ) (w : World x t) : Type 0 where
    pub few : w.delete_counter ≤ k
    pub by_count : deletions w.target + length w.buffer + others ≤ d + w.delete_counter
    pub by_limit : deletions w.target + length w.buffer + others ≤ d + m

  module _ (d m others k : ℕ) (limit : config.max_delete ≡ some m) (room : k + 1 < 2 ^ 64) where
    abbrev Before : World x t → Type 0
    Before = Limited d m others k

    abbrev After : World x t → Type 0
    After = Limited d m others (k + 1)

    judged-Before :
        (w w' : World x t)
        → Before w
        → Judges x t config (λ s. deletions s ≤ deletions w.target) w w'
        → Before w'
    judged-Before w w' h j = ground arith

    readable : (n : ℕ) → IsReadable x t config (λ s. deletions s ≤ n)
    readable n = record {
      head = λ k v s h. omega (arith, metered.head k v s);
      tagging = λ k v s h. omega (arith, metered.tagging k v s);
    }

    Before-After : (w : World x t) → Before w → After w
    Before-After w h = ground arith

    abbrev Stopped : World x t → Bool → World x t → Type 0
    Stopped w stopped w' =
        (stopped ≡ true) × Budget x t deletions (w.delete_counter + 1) (spent w) w'

    spent-After :
        (w w' : World x t)
        → Before w
        → Budget x t deletions (w.delete_counter + 1) (spent w) w'
        → After w'
    spent-After w w' h q = ground arith

    unless_stopped : S3Object x.DateTime → Bool → Action x t (Unit {0})
    unless_stopped o stopped = if stopped then return tt else buffer_and_delete x t config env o

    check_against-After :
        (o : S3Object x.DateTime) (w : World x t)
        → Before w
        → After (and_then (check_against x t config env (some m) o w) (unless_stopped o)).0
    unfolding unless_stopped
    check_against-After o w h = elim (Bool-cases (leb ((w.delete_counter + 1) % 2 ^ 64) m)) [
      | inl allowed ↦ rw allowed (
          let after : Budget x t deletions (w.delete_counter + 1) (spent w + 1) _ =
            buffer_and_delete-Budget (w.delete_counter + 1) (spent w) o
              (count_object x t config env w) (ground arith) in
          ground arith)
      | inr beyond ↦ rw beyond (
          and_then_post (Stopped w) After
            (flush_and_stop x t config env o (count_object x t config env w)) (unless_stopped o)
            (Post-weaken (Stopped w) (Budget x t deletions (w.delete_counter + 1) (spent w)) After _
              (flush_and_stop-Post (w.delete_counter + 1) (spent w) o
                (count_object x t config env w) (ground arith))
              (λ w' q. spent-After w w' h q))
            (λ stopped w' q. rw q.0 (spent-After w w' h q.1)))
    ]

    check_max_delete-After :
        (o : S3Object x.DateTime) (w : World x t)
        → Before w
        → After (and_then (check_max_delete x t config env o w) (unless_stopped o)).0
    unfolding check_max_delete
    check_max_delete-After o w h =
        subst
          (λ limit. After (and_then (check_against x t config env limit o w) (unless_stopped o)).0)
          (sym limit) (check_against-After o w h)

    unless-After :
        (skipped : Bool) (rest : Action x t (Unit {0})) (w : World x t)
        → Before w
        → After (rest w).0
        → After ((if skipped then return tt else rest) w).0
    unless-After true rest w h after = Before-After w h
    unless-After false rest w h after = after

    pub process_object-After :
        (o : S3Object x.DateTime) (w : World x t)
        → Before w
        → After (process_object x t config env o w).0
    unfolding process_object unless_stopped
    process_object-After o w h =
        and_then_rule Before After (apply_head_object_filters x t config o w) _
          (judged-Before w _ h (head-Judges w))
          (λ skipped w h. unless-After skipped _ w h (
            and_then_rule Before After (apply_tag_filters x t config o w) _
              (judged-Before w _ h (tags-Judges w))
              (λ skipped w h. unless-After skipped _ w h (check_max_delete-After o w h))
              Before-After))
          Before-After
      where
        head-Judges :
            (w : World x t)
            → Judges x t config
                (λ s. deletions s ≤ deletions w.target)
                w
                (apply_head_object_filters x t config o w).0
        head-Judges w =
            apply_head_object_filters-Judges x t config (λ s. deletions s ≤ deletions w.target)
              (readable (deletions w.target)) o w (omega arith)

        tags-Judges :
            (w : World x t)
            → Judges x t config
                (λ s. deletions s ≤ deletions w.target)
                w
                (apply_tag_filters x t config o w).0
        tags-Judges w =
            apply_tag_filters-Judges x t config (λ s. deletions s ≤ deletions w.target)
              (readable (deletions w.target)) o w (omega arith)
