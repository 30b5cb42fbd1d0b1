-- ===== src/Pipeline/Run/Laws.antt =====
-- The events of a run of src/pipeline.rs.
use s3rm_rs.Base.{
  ◌≡◌, refl, List, [], ◌∷◌, ◌++◌, Result, ok, err, if◌then◌else◌, Bool-cases, inl, inr,
}
use s3rm_rs.Types.Event
use s3rm_rs.Types.Event.{EventData}
use s3rm_rs.Types.Error.{Error}
use s3rm_rs.Types.Sdk.{Sdk}
use s3rm_rs.Storage.{Storage}
use s3rm_rs.Pipeline.{
  Pipeline, cancel_event, error_event, fire_completion_events, shutdown, get_error_messages,
}
use s3rm_rs.Pipeline.Run.{Execution, complete}

module _ (x : Sdk) (t : Storage) where
  abbrev P : Type 0
  P = Pipeline x t

  -- The events that end a run, newest first: an error's, a cancellation's, and the end.
  abbrev pub cancel_events : P → List (EventData x.F64)
  cancel_events p = if p.cancelled then cancel_event x t ∷ [] else []

  abbrev pub error_events : P → List (EventData x.F64)
  error_events p = if p.has_error then error_event x t p ∷ [] else []

  abbrev pub start_event : EventData x.F64
  start_event = Event.new {F = x.F64} Event.pipeline_start

  abbrev pub end_event : EventData x.F64
  end_event = Event.new {F = x.F64} Event.pipeline_end

  -- q is p after its completion.
  pub record Completes (p q : P) : Type 0 where
    pub events : q.events ≡ end_event ∷ (cancel_events q ++ (error_events q ++ p.events))
    pub errors : q.errors ≡ p.errors
    pub has_error : q.has_error ≡ p.has_error
    pub has_panic : q.has_panic ≡ p.has_panic
    pub target : q.target ≡ p.target

  pub complete-Completes : (p : P) → Completes p (complete x t p)
  unfolding fire_completion_events shutdown error_event get_error_messages
  complete-Completes p = elim (Bool-cases p.has_error) [
    | inl bad ↦ elim (Bool-cases p.cancelled) [
      | inl gone ↦
          rw (bad, gone)
            (record {
              events = refl;
              errors = refl;
              has_error = refl;
              has_panic = refl;
              target = refl;
            })
      | inr live ↦
          rw (bad, live)
            (record {
              events = refl;
              errors = refl;
              has_error = refl;
              has_panic = refl;
              target = refl;
            })
    ]
    | inr good ↦ elim (Bool-cases p.cancelled) [
      | inl gone ↦
          rw (good, gone)
            (record {
              events = refl;
              errors = refl;
              has_error = refl;
              has_panic = refl;
              target = refl;
            })
      | inr live ↦
          rw (good, live)
            (record {
              events = refl;
              errors = refl;
              has_error = refl;
              has_panic = refl;
              target = refl;
            })
    ]
  ]

  -- Settling the tasks and promoting the warnings fires nothing and leaves the target.
  record IsSettled (p q : P) : Type 0 where
    events : q.events ≡ p.events
    target : q.target ≡ p.target

  -- The events of a whole run of which the stages have fired some.
  abbrev pub Framed : List (EventData x.F64) → P → P → Type 0
  Framed fired p q =
      q.events
      ≡ end_event ∷ (cancel_events q ++ (error_events q ++ (fired ++ start_event ∷ p.events)))

  -- What the stages fired in a run whose prerequisites gave r.
  abbrev pub fired_by : Execution x t → P × Result (Unit {0}) Error → List (EventData x.F64)
  fired_by e (q, err error) = []
  fired_by e (q, ok u) = (e q.config q.target).fired
