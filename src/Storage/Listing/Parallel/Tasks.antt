-- ===== src/Storage/Listing/Parallel/Tasks.antt =====
-- The loop of one task of `list_with_parallel` in src/storage/s3/mod.rs, over the pages that S3's
-- contract gives, with the tasks that it starts.
use mathlib.Core.List.{flatten, Perm}
use mathlib.Core.List.Perm
use s3rm_rs.Base.{
  ℕ, zero, suc, ◌+◌, ◌≤◌, ◌≡◌, refl, true, false, none, some, String, List, [], ◌∷◌, ◌++◌, map,
  append-nil, ok, arith, All,
}
use s3rm_rs.Types.Object.{S3Object}
use s3rm_rs.Types.Sdk.{Sdk}
use s3rm_rs.Config.{Config}
use s3rm_rs.Storage.Listing.{
  ListingMode, ListPage, Cursor, Batch, start, Listing, next_cursor, send_listed_objects,
}
use s3rm_rs.Storage.Listing.Laws.{send_listed_objects-quiet}
use s3rm_rs.Storage.Listing.Parallel.{
  TaskId, sub_prefix_text, Scheduler, spawn_all, join_all, own_prefix, delimiter, on_answer,
  list_pages,
}
use s3rm_rs.Storage.Listing.Parallel.Fair.{
  IsFair, Complete, Finished, Finished-Perm, Finished-All, join_all-All,
}
use s3rm_rs.Storage.Listing.Contract.{Position, Pages, last, more, Pages-positive}
use s3rm_rs.Storage.Listing.Requests.{IsOf, cursor_at, Gives-fetch_list_page}
use s3rm_rs.Storage.Listing.Parallel.Orders.{All-split, page_order}

module _ (x : Sdk) (scheduler : Scheduler x) (config : Config x) (mode : ListingMode) where
  abbrev Objects : Type 0
  Objects = List (S3Object x.DateTime)

  pub Complete-Perm :
      {found objects : Objects} (l : Listing x)
      → Perm found objects
      → Complete x scheduler config mode found l
      → Complete x scheduler config mode objects l
  Complete-Perm l p h = (Perm.trans h.0 p, h.1)

  module _ (fair : IsFair x scheduler config mode) where
    module _ (id : TaskId) (number : ℕ) (prefix : String) (run : ℕ → String → Listing x)
        (next_page : Cursor x → ℕ → ℕ → Listing x) (cursor : Cursor x) (page : ListPage x)
        (reads sends : ℕ) (below : List Objects)
        (tasks : (reads : ℕ)
          → Finished x scheduler config mode below
              (spawn_all x (scheduler.surroundings id) run 0 reads page.sub_prefixes).tasks) where
      abbrev answered : Listing x
      answered =
          on_answer x scheduler config mode id number prefix run next_page cursor reads sends
            (ok page)

      abbrev batch : Batch x
      batch = send_listed_objects x (scheduler.surroundings id) page.objects reads sends

      abbrev started : List (Listing x)
      started = (spawn_all x (scheduler.surroundings id) run 0 batch.reads page.sub_prefixes).tasks

      sent : (batch.sent ≡ page.objects) × (batch.stopped ≡ ok false)
      sent =
          send_listed_objects-quiet x (scheduler.api id) config mode (scheduler.surroundings id)
            (fair.quiet id) page.objects reads sends

      joins :
          join_all x
            (sub_prefix_text x mode)
            (scheduler.join_order id number (map (λ (l : Listing x). l.outcome) started))
          ≡ some (ok tt)
      joins = join_all-All x scheduler config mode (sub_prefix_text x mode) _ (
          fair.joined id number _
            (Finished-All x scheduler config mode below started (tasks batch.reads)))

      takes :
          Perm
            (scheduler.interleave id number (map (λ (l : Listing x). l.sent) started))
            (flatten below)
      takes =
          Perm.trans (fair.taken id number _)
            (Finished-Perm x scheduler config mode below started (tasks batch.reads))

      last-Complete :
          page.is_truncated ≡ false
          → Complete x scheduler config mode (page.objects ++ flatten below) answered
      last-Complete end =
          rw (sent.0, sent.1, joins, end)
            (Perm.append_left page.objects (rw (append-nil _) takes), refl)

      more-Complete :
          (cursor' : Cursor x) (rest : Objects)
          → page.is_truncated ≡ true
          → next_cursor x (scheduler.api id) config mode prefix cursor page ≡ ok cursor'
          → ((reads sends : ℕ)
              → Complete x scheduler config mode rest (next_page cursor' reads sends))
          → Complete x scheduler config mode (page.objects ++ (flatten below ++ rest)) answered
      more-Complete cursor' rest cut next h =
          rw (sent.0, sent.1, joins, next, cut)
            (Perm.append_left page.objects (Perm.append takes (h _ _).0), (h _ _).1)

    abbrev child : ℕ → TaskId → ℕ → ℕ → ℕ → String → Listing x
    child fuel id number depth index sub_prefix =
        list_pages x scheduler config mode fuel (index ∷ (number ∷ id))
          (own_prefix x scheduler config mode sub_prefix) (suc depth) 0 (start x) 0 0

    abbrev later : ℕ → TaskId → String → ℕ → ℕ → Cursor x → ℕ → ℕ → Listing x
    later fuel id prefix depth number cursor reads sends =
        list_pages x scheduler config mode fuel id prefix depth (suc number) cursor reads sends

    module _ (P : String → Type 0) (below : String → Objects) (id : TaskId) (prefix : String)
        (depth c : ℕ)
        (children : (number index : ℕ) (sub_prefix : String)
          → P sub_prefix
          → (fuel : ℕ) → c ≤ fuel
          → Complete x scheduler config mode
              (below sub_prefix)
              (child fuel id number depth index sub_prefix)) where
      spawn_all-Finished :
          (number index : ℕ) (prefixes : List String)
          → All P prefixes
          → (fuel reads : ℕ) → c ≤ fuel
          → Finished x scheduler config mode
              (map below prefixes)
              (spawn_all x
                (scheduler.surroundings id)
                (child fuel id number depth)
                index
                reads
                prefixes).tasks
      unfolding spawn_all
      spawn_all-Finished number index [] named fuel reads h = tt
      spawn_all-Finished number index (p ∷ prefixes) named fuel reads h =
          rw ((fair.quiet id).live reads) (
            children number index p named.0 fuel h,
            spawn_all-Finished number (suc index) prefixes named.1 fuel (suc reads) h,
          )

      page-Finished :
          (number : ℕ) (page : ListPage x) (prefixes : List String)
          → page.sub_prefixes ≡ prefixes
          → All P prefixes
          → (fuel reads : ℕ) → c ≤ fuel
          → Finished x scheduler config mode
              (map below prefixes)
              (spawn_all x
                (scheduler.surroundings id)
                (child fuel id number depth)
                0
                reads
                page.sub_prefixes).tasks
      page-Finished number page prefixes subs named fuel reads h =
          rw subs (spawn_all-Finished number 0 prefixes named fuel reads h)

      -- The loop of a task, from a page on.
      pub list_pages-Pages :
          (m n : ℕ) (from : Position) (found : Objects) (prefixes : List String)
          → IsOf mode from
          → Pages x
              (scheduler.api id)
              prefix
              (delimiter x scheduler config mode depth)
              mode
              m
              n
              from
              found
              prefixes
          → All P prefixes
          → (fuel reads sends : ℕ) → m + c ≤ fuel
          → Complete x scheduler config mode (found ++ flatten (map below prefixes)) (
              list_pages x scheduler config mode fuel id prefix depth n
                (cursor_at x from)
                reads
                sends)
      unfolding list_pages
      list_pages-Pages m n from found prefixes at pages named zero reads sends h = absurd (
          omega (
            arith,
            Pages-positive x (scheduler.api id) prefix (delimiter x scheduler config mode depth)
                mode m n from found prefixes pages,
          ))
      list_pages-Pages m n from found prefixes at (last n' from' found' prefixes' gives) named
            (suc fuel) reads sends h =
          let (page, answer, same, subs, end) =
            Gives-fetch_list_page x (scheduler.api id) config prefix
              (delimiter x scheduler config mode depth) mode n from found prefixes none at gives in
          rw ((fair.quiet id).live reads, answer, ← same)
            (last-Complete id n prefix (child fuel id n depth) (later fuel id prefix depth n)
              (cursor_at x from) page (suc reads) sends (map below prefixes)
              (λ reads. page-Finished n page prefixes subs named fuel reads (omega (arith, h))) end)
      list_pages-Pages m n from found prefixes at
            (more k' n' from' next found' rest prefixes' after gives pages) named (suc fuel) reads
            sends h =
          let (page, answer, same, subs, turn) =
            Gives-fetch_list_page x (scheduler.api id) config prefix
              (delimiter x scheduler config mode depth) mode n from found' prefixes' (some next) at
              gives in
          let split = All-split P prefixes' after named in
          Complete-Perm
            (list_pages x scheduler config mode (suc fuel) id prefix depth n (cursor_at x from)
              reads sends)
            (page_order found' rest below prefixes' after)
            (rw ((fair.quiet id).live reads, answer, ← same)
              (more-Complete id n prefix (child fuel id n depth) (later fuel id prefix depth n)
                (cursor_at x from) page (suc reads) sends (map below prefixes')
                (λ reads. page-Finished n page prefixes' subs split.0 fuel reads (
                  omega (
                    arith,
                    h,
                    Pages-positive x (scheduler.api id) prefix
                        (delimiter x scheduler config mode depth) mode k' (suc n) next rest after
                        pages,
                  )))
                (cursor_at x next) (rest ++ flatten (map below after)) turn.0 turn.1
                (λ reads sends.
                  list_pages-Pages k' (suc n) next rest after turn.2 pages split.1 fuel reads sends
                    (omega (arith, h)))))
