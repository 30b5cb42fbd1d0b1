-- ===== src/Deleter/Workers/Limit.antt =====
-- `--max-delete` over all the workers of src/pipeline.rs.
use s3rm_rs.Base.{ℕ, ◌+◌, ◌^◌, ◌≤◌, ◌<◌, ◌≡◌, some, List, [], ◌∷◌, ◌++◌, length, arith}
use s3rm_rs.Types.Sdk.{Sdk}
use s3rm_rs.Config.{Config}
use s3rm_rs.Storage.{Storage}
use s3rm_rs.Deleter.Backend.Meter.{IsMetered}
use s3rm_rs.Deleter.Worker.{process_object}
use s3rm_rs.Deleter.Worker.Flush.{delete_buffered_objects}
use s3rm_rs.Deleter.Worker.Flush.Budget.{Budget, delete_buffered_objects-Budget}
use s3rm_rs.Deleter.Worker.MaxDelete.{Limited, process_object-After}
use s3rm_rs.Deleter.Workers.{Workers, Step, process, flush, Reaches, start, step, before_step}

module _ {ℓ} {A : Type ℓ} where
  -- What all the buffers hold.
  abbrev pub held : List (List A) → ℕ
  held [] = 0
  held (b ∷ bs) = length b + held bs

  held-append :
      (left right : List (List A)) (b : List A)
      → held (left ++ b ∷ right) ≡ held left + held right + length b
  held-append [] right b = omega arith
  held-append (l ∷ left) right b = omega (arith, held-append left right b)

module _ (x : Sdk) (t : Storage) (deletions : t.State → ℕ) (metered : IsMetered t deletions)
    (config : Config x) where
  module _ (d m : ℕ) (limit : config.max_delete ≡ some m) where
    -- At most k objects have been counted; what has been deleted and what all buffers hold is within
    -- the count and within m.
    pub record IsLimited (k : ℕ) (p : Workers x t) : Type 0 where
      pub few : p.shared.delete_counter ≤ k
      pub by_count : deletions p.shared.target + held p.buffers ≤ d + p.shared.delete_counter
      pub by_limit : deletions p.shared.target + held p.buffers ≤ d + m

    step-IsLimited :
        (j k : ℕ) (p q : Workers x t)
        → k + j < 2 ^ 64
        → Step x t config j p q
        → IsLimited k p
        → IsLimited (k + j) q
    step-IsLimited j k p q room (process env o left right b w) h =
        let after : Limited x t deletions metered config env d m (held left + held right) (k + 1)
            _ =
          process_object-After x t deletions metered config env d m (held left + held right) k limit
            room o (before_step x t w b) (ground (arith, held-append left right b)) in
        ground (
          arith,
          held-append left right (process_object x t config env o (before_step x t w b)).0.buffer,
        )
    step-IsLimited j k p q room (flush env left right b w) h =
        let after : Budget x t deletions w.delete_counter (deletions w.target + length b) _ =
          delete_buffered_objects-Budget x t deletions metered config env w.delete_counter
            (deletions w.target + length b) (before_step x t w b) (ground arith) in
        ground (
          arith,
          held-append left right b,
          held-append left right
              (delete_buffered_objects x t config env (before_step x t w b)).0.buffer,
        )

    reached-IsLimited :
        (n : ℕ) (p q : Workers x t)
        → n < 2 ^ 64
        → Reaches x t config n p q
        → IsLimited 0 p
        → IsLimited n q
    reached-IsLimited n p q room (start r) h = h
    reached-IsLimited n p r room (step k n' p' q r' run last) h =
        step-IsLimited k n' q r room last (reached-IsLimited n' p q (omega arith) run h)

  -- Under `--max-delete m` the workers delete at most m objects at the target, whatever their order,
  -- if they start with empty buffers and a counter of 0, fewer than 2 ^ 64 objects come out of the
  -- channel, and the target deletes as it answers: a read and a refused single delete delete nothing,
  -- a single delete one object at most, and a batch delete at most the keys it does not report as
  -- errors.
  pub reached-max_delete :
      (m : ℕ)
      → config.max_delete ≡ some m
      → (n : ℕ) (p q : Workers x t) → n < 2 ^ 64
      → p.shared.delete_counter ≡ 0
      → held p.buffers ≡ 0
      → Reaches x t config n p q
      → deletions q.shared.target ≤ deletions p.shared.target + m
  reached-max_delete m limit n p q room zero empty run =
      let after : IsLimited (deletions p.shared.target) m limit n q =
        reached-IsLimited (deletions p.shared.target) m limit n p q room run (ground arith) in
      omega (arith, after.by_limit)
