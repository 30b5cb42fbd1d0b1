-- ===== src/Indicator/Laws.antt =====
-- What the progress indicator of src/bin/s3rm counts, and when it shows.
use s3rm_rs.Base.{
  ℕ, ◌+◌, ◌%◌, ◌^◌, ◌≡◌, refl, sym, ap, ◌∙◌, ◌⊎◌, true, false, All, none, some, Option-cases, List,
  [], ◌∷◌, ◌++◌, append_assoc, append-nil, subst, for_each, arith, Bool-cases, inl, inr,
}
use mathlib.Core.Option.{some-injective}
use s3rm_rs.Types.Stats.{
  DeletionStatistics, delete_complete, delete_bytes, delete_error, delete_skip,
}
use s3rm_rs.Indicator.{
  IndicatorSummary, no_summary, count_stats, Round, Shown, show_rounds, show_indicator,
}

-- What one message adds to each number.
abbrev pub completes : DeletionStatistics → ℕ
completes (delete_complete k) = 1
completes _ = 0

abbrev pub bytes : DeletionStatistics → ℕ
bytes (delete_bytes n) = n
bytes _ = 0

abbrev pub errors : DeletionStatistics → ℕ
errors (delete_error k) = 1
errors _ = 0

abbrev pub skips : DeletionStatistics → ℕ
skips (delete_skip k) = 1
skips _ = 0

abbrev pub tally : (DeletionStatistics → ℕ) → List DeletionStatistics → ℕ
tally f [] = 0
tally f (m ∷ l) = f m + tally f l

tally-append :
    (f : DeletionStatistics → ℕ) (l k : List DeletionStatistics)
    → tally f (l ++ k) ≡ tally f l + tally f k
tally-append f [] k = omega arith
tally-append f (m ∷ l) k = omega (arith, tally-append f l k)

-- All messages that arrive, in the order of the rounds.
abbrev pub all_arrived : List Round → List DeletionStatistics
all_arrived [] = []
all_arrived (r ∷ rounds) = r.arrived ++ (r.late ++ all_arrived rounds)

-- The summary has the sums of these messages, modulo the range of a `u64`.
pub record Sums (l : List DeletionStatistics) (s : IndicatorSummary) : Type 0 where
  pub deleted : s.total_delete_count ≡ tally completes l % 2 ^ 64
  pub deleted_bytes : s.total_delete_bytes ≡ tally bytes l % 2 ^ 64
  pub failed : s.total_error_count ≡ tally errors l % 2 ^ 64
  pub skipped : s.total_skip_count ≡ tally skips l % 2 ^ 64

count_stats-Sums :
    (m : DeletionStatistics) (l : List DeletionStatistics) (s : IndicatorSummary)
    → Sums l s
    → Sums (l ++ m ∷ []) (count_stats m s)
unfolding count_stats
count_stats-Sums (delete_complete k) l s h = record {
  deleted = omega (arith, h.deleted, tally-append completes l (delete_complete k ∷ []));
  deleted_bytes = omega (arith, h.deleted_bytes, tally-append bytes l (delete_complete k ∷ []));
  failed = omega (arith, h.failed, tally-append errors l (delete_complete k ∷ []));
  skipped = omega (arith, h.skipped, tally-append skips l (delete_complete k ∷ []));
}
count_stats-Sums (delete_bytes n) l s h = record {
  deleted = omega (arith, h.deleted, tally-append completes l (delete_bytes n ∷ []));
  deleted_bytes = omega (arith, h.deleted_bytes, tally-append bytes l (delete_bytes n ∷ []));
  failed = omega (arith, h.failed, tally-append errors l (delete_bytes n ∷ []));
  skipped = omega (arith, h.skipped, tally-append skips l (delete_bytes n ∷ []));
}
count_stats-Sums (delete_error k) l s h = record {
  deleted = omega (arith, h.deleted, tally-append completes l (delete_error k ∷ []));
  deleted_bytes = omega (arith, h.deleted_bytes, tally-append bytes l (delete_error k ∷ []));
  failed = omega (arith, h.failed, tally-append errors l (delete_error k ∷ []));
  skipped = omega (arith, h.skipped, tally-append skips l (delete_error k ∷ []));
}
count_stats-Sums (delete_skip k) l s h = record {
  deleted = omega (arith, h.deleted, tally-append completes l (delete_skip k ∷ []));
  deleted_bytes = omega (arith, h.deleted_bytes, tally-append bytes l (delete_skip k ∷ []));
  failed = omega (arith, h.failed, tally-append errors l (delete_skip k ∷ []));
  skipped = omega (arith, h.skipped, tally-append skips l (delete_skip k ∷ []));
}

count_all-Sums :
    (ms l : List DeletionStatistics) (s : IndicatorSummary)
    → Sums l s
    → Sums (l ++ ms) (for_each count_stats ms s)
count_all-Sums [] l s h = rw (append-nil l) h
count_all-Sums (m ∷ ms) l s h =
    subst (λ k. Sums k (for_each count_stats (m ∷ ms) s)) (append_assoc l (m ∷ []) ms)
      (count_all-Sums ms (l ++ m ∷ []) (count_stats m s) (count_stats-Sums m l s h))

-- A round that ends the indicator: no refresh is due and the channel is closed.
abbrev pub Ends : Round → Type 0
Ends r = (r.refresh ≡ false) × (r.closed ≡ true)

abbrev pub GoesOn : Round → Type 0
GoesOn r = (r.refresh ≡ true) ⊎ (r.closed ≡ false)

-- The indicator ended in the first round that ends it. After some messages were seen and some queued,
-- the summary has the sums of these and of all that arrives until the channel is found empty in this
-- round. What arrives between that and the end is left.
pub record Ended (seen queued : List DeletionStatistics) (rounds : List Round) (shown : Shown)
    : Type 0 where
  pub before : List Round
  pub round : Round
  pub after : List Round
  pub whole : rounds ≡ before ++ round ∷ after
  pub going : All GoesOn before
  pub over : Ends round
  pub left : shown.left ≡ round.late
  pub sums : Sums (seen ++ (queued ++ (all_arrived before ++ round.arrived))) shown.summary

module _ (r : Round) (rounds : List Round) (seen queued : List DeletionStatistics)
    (shown : Shown) where
  regrouped :
      (before : List Round) (arrived : List DeletionStatistics)
      → (seen ++ (queued ++ r.arrived)) ++ (r.late ++ (all_arrived before ++ arrived))
        ≡ seen ++ (queued ++ (all_arrived (r ∷ before) ++ arrived))
  regrouped before arrived =
      append_assoc seen (queued ++ r.arrived) _
      ∙ ap (◌++◌ seen) (
          append_assoc queued r.arrived _
          ∙ ap (◌++◌ queued) (
              ap (◌++◌ r.arrived) (sym (append_assoc r.late (all_arrived before) arrived))
              ∙ sym (append_assoc r.arrived (r.late ++ all_arrived before) arrived)))

  later-Ended :
      GoesOn r
      → Ended (seen ++ (queued ++ r.arrived)) r.late rounds shown
      → Ended seen queued (r ∷ rounds) shown
  later-Ended goes h = record {
    before = r ∷ h.before;
    round = h.round;
    after = h.after;
    whole = ap (◌∷◌ r) h.whole;
    going = (goes, h.going);
    over = h.over;
    left = h.left;
    sums = subst (λ l. Sums l shown.summary) (regrouped h.before h.round.arrived) h.sums;
  }

show_rounds-Ended :
    (rounds : List Round) (seen queued : List DeletionStatistics) (s : IndicatorSummary)
    (shown : Shown)
    → Sums seen s
    → show_rounds queued s rounds ≡ some shown
    → Ended seen queued rounds shown
unfolding show_rounds
show_rounds-Ended [] seen queued s shown h e = absurd (ground arith)
show_rounds-Ended (r ∷ rounds) seen queued s shown h e =
    let go_on : GoesOn r
        → show_rounds r.late counted rounds ≡ some shown
        → Ended seen queued (r ∷ rounds) shown =
      λ goes e. later-Ended r rounds seen queued shown goes (
        show_rounds-Ended rounds (seen ++ (queued ++ r.arrived)) r.late counted shown counted-Sums
          e) in
    elim (Bool-cases r.refresh) [
      | inl due ↦ go_on (inl due) (rw due at e)
      | inr early ↦ elim (Bool-cases r.closed) [
        | inl over ↦
            subst (Ended seen queued (r ∷ rounds)) (some-injective _ _ (rw (early, over) at e))
              (ended (early, over))
        | inr alive ↦ go_on (inr alive) (rw (early, alive) at e)
      ]
    ]
  where
    counted : IndicatorSummary
    counted = for_each count_stats (queued ++ r.arrived) s

    counted-Sums :
        Sums (seen ++ (queued ++ r.arrived)) (for_each count_stats (queued ++ r.arrived) s)
    counted-Sums = count_all-Sums (queued ++ r.arrived) seen s h

    ended :
        Ends r
        → Ended seen queued
            (r ∷ rounds)
            (record { summary = for_each count_stats (queued ++ r.arrived) s; left = r.late })
    ended over = record {
      before = [];
      round = r;
      after = rounds;
      whole = refl;
      going = tt;
      over = over;
      left = refl;
      sums = counted-Sums;
    }

show_rounds-GoesOn :
    (rounds : List Round) (queued : List DeletionStatistics) (s : IndicatorSummary)
    → show_rounds queued s rounds ≡ none
    → All GoesOn rounds
unfolding show_rounds
show_rounds-GoesOn [] queued s e = tt
show_rounds-GoesOn (r ∷ rounds) queued s e =
    let counted = for_each count_stats (queued ++ r.arrived) s in
    elim (Bool-cases r.refresh) [
      | inl due ↦ (inl due, show_rounds-GoesOn rounds r.late counted (rw due at e))
      | inr early ↦ elim (Bool-cases r.closed) [
        | inl over ↦ absurd (grind (arith, rw (early, over) at e))
        | inr alive ↦ (inr alive, show_rounds-GoesOn rounds r.late counted (rw (early, alive) at e))
      ]
    ]

-- The progress indicator ends in the first round where no refresh is due and the channel is closed, and
-- runs on as long as there is none. What it returns are the sums, modulo the range of a `u64`, of all
-- messages that arrive until the channel is found empty in this round; those that arrive between that
-- and the test of the channel are left in it.
pub show_indicator-Complete :
    (rounds : List Round)
    → ((show_indicator rounds ≡ none) × All GoesOn rounds)
      ⊎ ((shown : Shown) × (show_indicator rounds ≡ some shown) × Ended [] [] rounds shown)
unfolding show_indicator
show_indicator-Complete rounds = elim (Option-cases (show_rounds [] no_summary rounds)) [
  | inl none_yet ↦ inl (none_yet, show_rounds-GoesOn rounds [] no_summary none_yet)
  | inr (shown, e) ↦ inr (
    shown,
    e,
    show_rounds-Ended rounds [] [] no_summary shown
        (record { deleted = refl; deleted_bytes = refl; failed = refl; skipped = refl }) e,
  )
]
