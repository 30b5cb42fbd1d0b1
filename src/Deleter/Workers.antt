-- ===== src/Deleter/Workers.antt =====
-- The delete workers of a pipeline (`delete_objects` of src/pipeline.rs): each runs
-- `receive_and_delete` of src/deleter/mod.rs on a buffer of its own, over shared state.
pub mod Limit
use s3rm_rs.Base.{ℕ, suc, ◌+◌, List, [], ◌∷◌, ◌++◌, length}
use s3rm_rs.Types.Object.{S3Object}
use s3rm_rs.Types.Sdk.{Sdk}
use s3rm_rs.Config.{Config}
use s3rm_rs.Storage.{Storage}
use s3rm_rs.Stage.{Surroundings}
use s3rm_rs.Deleter.World.{World}
use s3rm_rs.Deleter.Worker.{process_object}
use s3rm_rs.Deleter.Worker.Flush.{delete_buffered_objects}

module _ (x : Sdk) (t : Storage) where
  abbrev pub Buffer : Type 0
  Buffer = List (S3Object x.DateTime)

  -- The state that the workers share, and a buffer for each worker. The buffer of `shared` is the
  -- one of the worker that moved last.
  pub record Workers : Type 0 where
    pub shared : World x t
    pub buffers : List Buffer

  abbrev pub before_step : World x t → Buffer → World x t
  before_step w b = record w { buffer = b }

  abbrev pub after_step : List Buffer → List Buffer → World x t → Workers
  after_step left right w = record { shared = w; buffers = left ++ w.buffer ∷ right }

  module _ (config : Config x) where
    -- One worker moves: with an object from the channel, or at the channel's end. The other tasks
    -- and the workers' turns give any answers to the questions it asks meanwhile.
    pub data Step : ℕ → Workers → Workers → Type 0 where
      process :
          (env : Surroundings) (o : S3Object x.DateTime) (left right : List Buffer) (b : Buffer)
          (w : World x t)
          → Step 1
              (record { shared = w; buffers = left ++ b ∷ right })
              (after_step left right (process_object x t config env o (before_step w b)).0)
      flush :
          (env : Surroundings) (left right : List Buffer) (b : Buffer) (w : World x t)
          → Step 0
              (record { shared = w; buffers = left ++ b ∷ right })
              (after_step left right (delete_buffered_objects x t config env (before_step w b)).0)

    -- Any number of moves in any order, with the number of objects taken from the channel.
    pub data Reaches : ℕ → Workers → Workers → Type 0 where
      start : (p : Workers) → Reaches 0 p p
      step : (k n : ℕ) (p q r : Workers) → Reaches n p q → Step k q r → Reaches (n + k) p r
