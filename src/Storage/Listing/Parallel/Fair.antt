-- ===== src/Storage/Listing/Parallel/Fair.antt =====
-- A scheduler that lets the tasks of `list_with_parallel` of src/storage/s3/mod.rs end.
use mathlib.Core.List.{flatten, Perm}
use mathlib.Core.List.Perm
use s3rm_rs.Base.{ℕ, ◌≡◌, refl, some, String, List, [], ◌∷◌, map, ok, All}
use s3rm_rs.Types.Object.{S3Object}
use s3rm_rs.Types.Sdk.{Sdk}
use s3rm_rs.Config.{Config}
use s3rm_rs.Filters.Loop.Laws.{IsQuiet}
use s3rm_rs.Storage.Listing.{ListingMode, Listing}
use s3rm_rs.Storage.Listing.Parallel.{TaskId, Outcome, Scheduler, join_all}

module _ (x : Sdk) (scheduler : Scheduler x) (config : Config x) (mode : ListingMode) where
  abbrev pub Objects : Type 0
  Objects = List (S3Object x.DateTime)

  -- The scheduler leaves the tasks alone, lets all be taken that they send, and joins no task twice
  -- over with another answer.
  pub record IsFair : Type 0 where
    pub quiet : (id : TaskId) → IsQuiet x (scheduler.surroundings id)
    pub taken :
        (id : TaskId) (number : ℕ) (lists : List Objects)
        → Perm (scheduler.interleave id number lists) (flatten lists)
    pub joined :
        (id : TaskId) (number : ℕ) (outcomes : List Outcome)
        → All (λ o. o ≡ some (ok tt)) outcomes
        → All (λ o. o ≡ some (ok tt)) (scheduler.join_order id number outcomes)

  abbrev pub Complete : Objects → Listing x → Type 0
  Complete objects l = Perm l.sent objects × (l.outcome ≡ some (ok tt))

  abbrev pub Finished : List Objects → List (Listing x) → Type 0
  Finished [] [] = Unit
  Finished [] (l ∷ ls) = ⊥
  Finished (o ∷ os) [] = ⊥
  Finished (o ∷ os) (l ∷ ls) = Complete o l × Finished os ls

  pub Finished-Perm :
      (below : List Objects) (tasks : List (Listing x))
      → Finished below tasks
      → Perm (flatten (map (λ (l : Listing x). l.sent) tasks)) (flatten below)
  unfolding flatten
  Finished-Perm [] [] h = Perm.refl []
  Finished-Perm [] (l ∷ ls) h = absurd h
  Finished-Perm (o ∷ os) [] h = absurd h
  Finished-Perm (o ∷ os) (l ∷ ls) h = Perm.append h.0.0 (Finished-Perm os ls h.1)

  pub Finished-All :
      (below : List Objects) (tasks : List (Listing x))
      → Finished below tasks
      → All (λ o. o ≡ some (ok tt)) (map (λ (l : Listing x). l.outcome) tasks)
  Finished-All [] [] h = tt
  Finished-All [] (l ∷ ls) h = absurd h
  Finished-All (o ∷ os) [] h = absurd h
  Finished-All (o ∷ os) (l ∷ ls) h = (h.0.1, Finished-All os ls h.1)

  pub join_all-All :
      (text : String) (outcomes : List Outcome)
      → All (λ o. o ≡ some (ok tt)) outcomes
      → join_all x text outcomes ≡ some (ok tt)
  unfolding join_all
  join_all-All text [] h = refl
  join_all-All text (o ∷ outcomes) h = rw (h.0) (join_all-All text outcomes h.1)
