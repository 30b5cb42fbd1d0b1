-- ===== src/Tests/Indicators.antt =====
-- Runs of the progress indicator.
use s3rm_rs.Base.{◌≡◌, ◌⊎◌, refl, true, false, none, some, All, List, [], ◌∷◌}
use s3rm_rs.Types.Stats.{delete_complete, delete_bytes, delete_skip}
use s3rm_rs.Indicator.{Round, Shown, show_indicator}
use s3rm_rs.Indicator.Laws.{GoesOn, Ended, show_indicator-Complete}

-- The channel is closed in the second round, and a message arrives between the last look into the
-- channel and the test whether it is closed.
abbrev rounds : List Round
rounds =
    record {
      arrived = delete_complete "a" ∷ delete_bytes 7 ∷ [];
      late = delete_skip "b" ∷ [];
      refresh = true;
      closed = false;
    }
    ∷ record { arrived = []; late = delete_complete "c" ∷ []; refresh = false; closed = true }
    ∷ []

abbrev shown : Shown
shown = record {
  summary = record {
    total_delete_count = 1;
    total_delete_bytes = 7;
    total_error_count = 0;
    total_skip_count = 1;
  };
  left = delete_complete "c" ∷ [];
}

returned : show_indicator rounds ≡ some shown
unfolding show_indicator
returned = refl

show_indicator-Complete_example :
    ((show_indicator rounds ≡ none) × All GoesOn rounds)
    ⊎ ((shown : Shown) × (show_indicator rounds ≡ some shown) × Ended [] [] rounds shown)
show_indicator-Complete_example = show_indicator-Complete rounds
