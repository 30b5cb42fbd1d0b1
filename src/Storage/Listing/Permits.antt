-- ===== src/Storage/Listing/Permits.antt =====
-- The permits of `listing_worker_semaphore` that the tasks of `list_with_parallel` hold
-- (src/storage/s3/mod.rs). A task waits for S3 and the channel, for a permit for its next child, or
-- for its children; a step is what one task does next, and errors and cancellation may come at
-- any time.
pub mod Laws
use s3rm_rs.Base.{ℕ, zero, suc, ◌+◌, ◌≡◌, Bool, true, false}

mutual
  -- A task, and whether it holds a permit: it lists a page; it starts tasks for the common prefixes
  -- that are left of a page; it joins them; it has ended, with or without an error.
  pub data Task : Type 0 where
    listing : Bool → Task
    spawning : Bool → ℕ → Tasks → Task
    joining : Bool → Tasks → Task
    ended : Bool → Task

  pub data Tasks : Type 0 where
    nil : Tasks
    cons : Task → Tasks → Tasks

abbrev pub permit : Bool → ℕ
permit true = 1
permit false = 0

-- The permits that a task and the tasks below it hold.
unfoldable mutual
  pub held : Task → ℕ
  held (listing h) = permit h
  held (spawning h n tasks) = permit h + held_all tasks
  held (joining h tasks) = permit h + held_all tasks
  held (ended failed) = 0

  pub held_all : Tasks → ℕ
  held_all nil = 0
  held_all (cons t tasks) = held t + held_all tasks

-- All tasks have ended well.
abbrev pub AllWell : Tasks → Type 0
AllWell nil = Unit
AllWell (cons (ended false) tasks) = AllWell tasks
AllWell (cons (ended true) tasks) = ⊥
AllWell (cons (listing h) tasks) = ⊥
AllWell (cons (spawning h n below) tasks) = ⊥
AllWell (cons (joining h below) tasks) = ⊥

-- A task has ended with an error.
pub data HasFailed : Tasks → Type 0 where
  here : (tasks : Tasks) → HasFailed (cons (ended true) tasks)
  there : (t : Task) (tasks : Tasks) → HasFailed tasks → HasFailed (cons t tasks)

-- A step of one task, with the permits that are free before and behind it, while the pipeline is
-- cancelled or is not.
mutual
  pub data Step : Bool → ℕ → Task → ℕ → Task → Type 0 where
    -- A page has common prefixes.
    found : (c : Bool) (a n : ℕ) (h : Bool) → Step c a (listing h) a (spawning h (suc n) nil)
    -- The last page, an error, a closed channel or a cancellation: the permit is dropped.
    end : (c : Bool) (a : ℕ) (h failed : Bool) → Step c a (listing h) (a + permit h) (ended failed)
    -- Before the first child, the task's own permit is dropped.
    release :
        (c : Bool) (a n : ℕ) (tasks : Tasks)
        → Step c a (spawning true (suc n) tasks) (suc a) (spawning false (suc n) tasks)
    acquire :
        (c : Bool) (a n : ℕ) (tasks : Tasks)
        → Step c
            (suc a)
            (spawning false (suc n) tasks)
            a
            (spawning false n (cons (listing true) tasks))
    -- No prefix is left.
    spawned :
        (c : Bool) (a : ℕ) (h : Bool) (tasks : Tasks)
        → Step c a (spawning h 0 tasks) a (joining h tasks)
    -- The loop ends at a cancellation.
    cancelled :
        (a n : ℕ) (h : Bool) (tasks : Tasks) → Step true a (spawning h n tasks) a (joining h tasks)
    -- All children have ended well: on to the next page, or to the end.
    joined :
        (c : Bool) (a : ℕ) (h : Bool) (tasks : Tasks)
        → AllWell tasks
        → Step c a (joining h tasks) a (listing h)
    -- A child has failed: the others are aborted, and all permits dropped.
    failed :
        (c : Bool) (a : ℕ) (h : Bool) (tasks : Tasks)
        → HasFailed tasks
        → Step c a (joining h tasks) (a + (permit h + held_all tasks)) (ended true)
    -- A child moves.
    below_spawning :
        (c : Bool) (a b n : ℕ) (h : Bool) (tasks tasks' : Tasks)
        → Steps c a tasks b tasks'
        → Step c a (spawning h n tasks) b (spawning h n tasks')
    below_joining :
        (c : Bool) (a b : ℕ) (h : Bool) (tasks tasks' : Tasks)
        → Steps c a tasks b tasks'
        → Step c a (joining h tasks) b (joining h tasks')

  pub data Steps : Bool → ℕ → Tasks → ℕ → Tasks → Type 0 where
    first :
        (c : Bool) (a b : ℕ) (t t' : Task) (tasks : Tasks)
        → Step c a t b t'
        → Steps c a (cons t tasks) b (cons t' tasks)
    other :
        (c : Bool) (a b : ℕ) (t : Task) (tasks tasks' : Tasks)
        → Steps c a tasks b tasks'
        → Steps c a (cons t tasks) b (cons t tasks')

-- What is reached from the call of `list_dispatch`, which takes a permit for the first task out of
-- `max_parallel_listings`.
pub data Reaches : ℕ → ℕ → Task → Type 0 where
  start : (free : ℕ) → Reaches (suc free) free (listing true)
  step :
      (c : Bool) (max a b : ℕ) (t t' : Task) → Reaches max a t → Step c a t b t' → Reaches max b t'
