-- ===== src/Storage/Listing/Parallel.antt =====
-- `list_with_parallel` of src/storage/s3/mod.rs: a task lists under one prefix, and starts a task for
-- each common prefix that it finds. What the scheduler decides is a parameter. The permits of the
-- semaphore are modelled apart.
pub mod Fair
pub mod Orders
pub mod Tasks
pub mod Laws
use mathlib.Core.List.{flatten}
use s3rm_rs.Base.{
  ℕ, zero, suc, Bool, true, false, Option, none, some, String, ◌<>◌, List, [], ◌∷◌, ◌++◌, map,
  Result, ok, err, if◌then◌else◌, leb,
}
use s3rm_rs.Types.Object.{S3Object}
use s3rm_rs.Types.Error.{Error, context}
use s3rm_rs.Types.Sdk.{Sdk}
use s3rm_rs.Types.Target.{is_empty}
use s3rm_rs.Config.{Config}
use s3rm_rs.Stage.{Surroundings}
use s3rm_rs.Storage.Listing.{
  ListingMode, ListApi, ListPage, Cursor, start, Batch, Listing, finished, fetch_list_page,
  next_cursor, send_listed_objects, label,
}

-- A task is known by the way to it: the page and the place in the page where each task above it
-- started the next.
abbrev pub TaskId : Type 0
TaskId = List ℕ

abbrev pub Outcome : Type 0
Outcome = Option (Result (Unit {0}) Error)

module _ (x : Sdk) where
  -- What S3 answers to the requests of each task and what the task sees around it; for each page of
  -- a task, the order in which the channel takes what the tasks started there send (less than all,
  -- if they are aborted), and the order in which they are joined.
  pub record Scheduler : Type 0 where
    pub api : TaskId → ListApi x
    pub surroundings : TaskId → Surroundings
    pub interleave : TaskId → ℕ → List (List (S3Object x.DateTime)) → List (S3Object x.DateTime)
    pub join_order : TaskId → ℕ → List Outcome → List Outcome

  -- The tasks that a page starts, with the token's reads.
  pub record Spawned : Type 0 where
    pub tasks : List (Listing x)
    pub reads : ℕ

  -- The loop over the common prefixes of a page, from the one at an index on.
  unfoldable pub spawn_all : Surroundings → (ℕ → String → Listing x) → ℕ → ℕ → List String → Spawned
  spawn_all env run index reads [] = record { tasks = []; reads = reads }
  spawn_all env run index reads (sub_prefix ∷ sub_prefixes) =
      let rest = spawn_all env run (suc index) (suc reads) sub_prefixes in
      if env.is_cancelled reads
      then record { tasks = []; reads = suc reads }
      else record rest { tasks = run index sub_prefix ∷ rest.tasks }

  -- The loop over `join_next`: it returns the first error.
  unfoldable pub join_all : String → List Outcome → Outcome
  join_all text [] = some (ok tt)
  join_all text (none ∷ outcomes) = none
  join_all text (some (ok u) ∷ outcomes) = join_all text outcomes
  join_all text (some (err e) ∷ outcomes) = some (err (context text e))

  abbrev pub sub_prefix_text : ListingMode → String
  sub_prefix_text mode = "Failed to list " <> (label mode <> "s in sub-prefix")

  module _ (scheduler : Scheduler) (config : Config x) (mode : ListingMode) where
    -- `if prefix.is_empty() { self.prefix } else { prefix }`
    unfoldable pub own_prefix : String → String
    unfolding is_empty
    own_prefix prefix = if is_empty prefix then config.target.prefix else prefix

    unfoldable pub delimiter : ℕ → Option String
    delimiter depth = if leb depth config.max_parallel_listing_max_depth then some "/" else none

    abbrev Rest : Type 0
    Rest = Cursor x → ℕ → ℕ → Listing x

    abbrev advance : Rest → ℕ → ℕ → Result (Cursor x) Error → Listing x
    advance rest reads sends (ok cursor) = rest cursor reads sends
    advance rest reads sends (err e) = finished x (err e)

    -- What follows the tasks of a page.
    abbrev joined : TaskId → String → Rest → Cursor x → ListPage x → ℕ → ℕ → Outcome → Listing x
    joined id prefix rest cursor page reads sends none = record { sent = []; outcome = none }
    joined id prefix rest cursor page reads sends (some (err e)) = finished x (err e)
    joined id prefix rest cursor page reads sends (some (ok u)) =
        if page.is_truncated
        then advance rest reads sends
            (next_cursor x (scheduler.api id) config mode prefix cursor page)
        else finished x (ok tt)

    abbrev behind : List (S3Object x.DateTime) → Listing x → Listing x
    behind sent l = record l { sent = sent ++ l.sent }

    abbrev after_tasks :
        TaskId → ℕ → String → Rest → Cursor x → ListPage x → ℕ → Spawned → Listing x
    after_tasks id number prefix rest cursor page sends spawned =
        behind (scheduler.interleave id number (map (λ l. l.sent) spawned.tasks)) (
          joined id prefix rest cursor page spawned.reads sends (
            join_all (sub_prefix_text mode)
              (scheduler.join_order id number (map (λ l. l.outcome) spawned.tasks))))

    abbrev after_page :
        TaskId
        → ℕ
        → String
        → (ℕ → String → Listing x)
        → Rest
        → Cursor x
        → ListPage x
        → Batch x
        → Result Bool Error
        → Listing x
    after_page id number prefix run rest cursor page b (err e) = finished x (err e)
    after_page id number prefix run rest cursor page b (ok true) = finished x (ok tt)
    after_page id number prefix run rest cursor page b (ok false) =
        after_tasks id number prefix rest cursor page b.sends
          (spawn_all (scheduler.surroundings id) run 0 b.reads page.sub_prefixes)

    abbrev pub on_answer :
        TaskId
        → ℕ
        → String
        → (ℕ → String → Listing x)
        → Rest
        → Cursor x
        → ℕ
        → ℕ
        → Result (ListPage x) Error
        → Listing x
    on_answer id number prefix run rest cursor reads sends (err e) = finished x (err e)
    on_answer id number prefix run rest cursor reads sends (ok page) =
        let b = send_listed_objects x (scheduler.surroundings id) page.objects reads sends in
        behind b.sent (after_page id number prefix run rest cursor page b b.stopped)

    -- The loop of `list_with_parallel`, at the page with a number. The fuel bounds the pages of a
    -- task and the depth of the tasks below it together.
    unfoldable pub list_pages : ℕ → TaskId → String → ℕ → ℕ → Cursor x → ℕ → ℕ → Listing x
    unfolding own_prefix delimiter fetch_list_page send_listed_objects next_cursor spawn_all
        join_all label
    list_pages zero id prefix depth number cursor reads sends = record { sent = []; outcome = none }
    list_pages (suc fuel) id prefix depth number cursor reads sends =
        let listing =
          on_answer id number prefix
            (λ index sub_prefix.
              list_pages fuel (index ∷ (number ∷ id)) (own_prefix sub_prefix) (suc depth) 0
                (start x) 0 0)
            (λ cursor reads sends. list_pages fuel id prefix depth (suc number) cursor reads sends)
            cursor (suc reads) sends
            (fetch_list_page x (scheduler.api id) config mode number prefix (delimiter depth)
              cursor) in
        if (scheduler.surroundings id).is_cancelled reads then finished x (ok tt) else listing

    -- `list_with_parallel`
    unfoldable pub list_with_parallel : ℕ → TaskId → String → ℕ → Listing x
    unfolding list_pages own_prefix
    list_with_parallel fuel id prefix depth =
        list_pages fuel id (own_prefix prefix) depth 0 (start x) 0 0
