-- ===== src/Indicator.antt =====
-- The progress indicator: `show_indicator` of src/bin/s3rm/indicator.rs and src/bin/s3rm/ui_config.rs.
-- The terminal, the clock's readings in the texts and the moving average are left out.
pub mod Laws
use s3rm_rs.Base.{
  ℕ, ◌+◌, ◌%◌, ◌^◌, Bool, true, false, not, Option, none, some, List, [], ◌∷◌, ◌++◌, for_each,
  if◌then◌else◌, ltb,
}
use s3rm_rs.Types.Sdk.{Sdk}
use s3rm_rs.Types.Stats.{
  DeletionStatistics, delete_complete, delete_bytes, delete_error, delete_skip,
}
use s3rm_rs.Config.{Config, TracingConfig, Level, error, warn, info, debug, trace}

pub record IndicatorSummary : Type 0 where
  pub total_delete_count : ℕ
  pub total_delete_bytes : ℕ
  pub total_error_count : ℕ
  pub total_skip_count : ℕ

abbrev pub no_summary : IndicatorSummary
no_summary = record {
  total_delete_count = 0;
  total_delete_bytes = 0;
  total_error_count = 0;
  total_skip_count = 0;
}

-- `+=` on a `u64` in a release build.
abbrev add : ℕ → ℕ → ℕ
add a b = (a + b) % 2 ^ 64

-- One message of the loop over `try_recv`.
unfoldable pub count_stats : DeletionStatistics → IndicatorSummary → IndicatorSummary
count_stats (delete_complete key) s = record s { total_delete_count = add s.total_delete_count 1 }
count_stats (delete_bytes size) s = record s { total_delete_bytes = add s.total_delete_bytes size }
count_stats (delete_error key) s = record s { total_error_count = add s.total_error_count 1 }
count_stats (delete_skip key) s = record s { total_skip_count = add s.total_skip_count 1 }

-- One round of the inner loop, as the other tasks and the clock make it: what arrives until the
-- channel is found empty, what arrives between that and the test whether it is closed, whether a
-- refresh is due, and whether the channel is closed.
pub record Round : Type 0 where
  pub arrived : List DeletionStatistics
  pub late : List DeletionStatistics
  pub refresh : Bool
  pub closed : Bool

-- What the task returns, and what it leaves in the channel.
pub record Shown : Type 0 where
  pub summary : IndicatorSummary
  pub left : List DeletionStatistics

-- The two loops of `show_indicator`, with what is in the channel and what is counted so far; `none`
-- is a task that still runs behind the last round.
unfoldable pub show_rounds : List DeletionStatistics → IndicatorSummary → List Round → Option Shown
unfolding count_stats
show_rounds queued summary [] = none
show_rounds queued summary (round ∷ rounds) =
    let counted = for_each count_stats (queued ++ round.arrived) summary in
    let rest = show_rounds round.late counted rounds in
    if round.refresh
    then rest
    else if round.closed
    then some (record { summary = counted; left = round.late })
    else rest

-- `show_indicator`
unfoldable pub show_indicator : List Round → Option Shown
unfolding show_rounds
show_indicator rounds = show_rounds [] no_summary rounds

-- The order of `log::Level`: an error is least.
abbrev pub rank : Level → ℕ
rank error = 1
rank warn = 2
rank info = 3
rank debug = 4
rank trace = 5

module _ (x : Sdk) where
  abbrev progress_of : Option TracingConfig → Bool
  progress_of none = true
  progress_of (some c) =
      if ltb (rank warn) (rank c.tracing_level) then false else not c.json_tracing

  unfoldable pub is_progress_indicator_needed : Config x → Bool
  is_progress_indicator_needed config =
      if config.show_no_progress then false else progress_of config.tracing_config

  abbrev result_of : Option TracingConfig → Bool
  result_of none = true
  result_of (some c) = not c.json_tracing

  unfoldable pub is_show_result_needed : Config x → Bool
  is_show_result_needed config =
      if config.show_no_progress then false else result_of config.tracing_config
