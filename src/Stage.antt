-- ===== src/Stage.antt =====
-- `Stage::send` of src/stage.rs, and what the other tasks of the pipeline do to a stage.
use s3rm_rs.Base.{ℕ, Bool, Result, ok, err, if◌then◌else◌}
use s3rm_rs.Types.Error.{Error, context, message}

pub data SendResult : Type 0 where
  success closed : SendResult

-- The other tasks, as one stage sees them: the answer to its n-th attempt to send (`async_channel`
-- takes the object or not, and is then closed or not), and whether the cancellation token was
-- cancelled from outside when the stage reads it for the n-th time.
pub record Surroundings : Type 0 where
  pub accepts : ℕ → Bool
  pub is_closed : ℕ → Bool
  pub is_cancelled : ℕ → Bool

abbrev send_failed : Error
send_failed =
    context "async_channel::Sender::send() failed." (message "sending into a closed channel")

-- The answer of `Stage::send` for the n-th object.
unfoldable pub send : Surroundings → ℕ → Result SendResult Error
send env n =
    if env.accepts n then ok success else if env.is_closed n then ok closed else err send_failed
