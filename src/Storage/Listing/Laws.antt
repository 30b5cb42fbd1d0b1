-- ===== src/Storage/Listing/Laws.antt =====
-- `list_sequential` of src/storage/s3/mod.rs, against the pages that S3's contract gives.
use s3rm_rs.Base.{
  ℕ, zero, suc, ◌≤◌, ◌≡◌, refl, ap, true, false, none, some, String, List, [], ◌∷◌, ◌++◌,
  append-nil, ok, arith,
}
use s3rm_rs.Types.Object.{S3Object}
use s3rm_rs.Types.Sdk.{Sdk}
use s3rm_rs.Config.{Config}
use s3rm_rs.Stage.{Surroundings, send}
use s3rm_rs.Filters.Loop.Laws.{IsQuiet}
use s3rm_rs.Storage.Listing.{
  ListingMode, ListApi, ListPage, Cursor, start, Listing, next_cursor, send_listed_objects,
  list_sequential, on_answer,
}
use s3rm_rs.Storage.Listing.Contract.{Position, first, Objects, Pages, last, more, Pages-positive}
use s3rm_rs.Storage.Listing.Requests.{IsOf, cursor_at, Gives-fetch_list_page}

module _ (x : Sdk) (api : ListApi x) (config : Config x) (mode : ListingMode) where
  module _ (env : Surroundings) (quiet : IsQuiet x env) where
    pub send_listed_objects-quiet :
        (objects : List (S3Object x.DateTime)) (reads sends : ℕ)
        → let b = send_listed_objects x env objects reads sends in
          (b.sent ≡ objects) × (b.stopped ≡ ok false)
    unfolding send_listed_objects send
    send_listed_objects-quiet [] reads sends = (refl, refl)
    send_listed_objects-quiet (o ∷ os) reads sends = ground (
      arith,
      quiet.live reads,
      quiet.accepting sends,
      send_listed_objects-quiet os (suc reads) (suc sends),
    )

    abbrev Complete : List (S3Object x.DateTime) → Listing x → Type 0
    Complete objects l = (l.sent ≡ objects) × (l.outcome ≡ some (ok tt))

    module _ (next_page : Cursor x → ℕ → ℕ → Listing x) (cursor : Cursor x) (page : ListPage x)
        (reads sends : ℕ) where
      abbrev answered : Listing x
      answered = on_answer x env api config mode next_page cursor reads sends (ok page)

      last-Complete : page.is_truncated ≡ false → Complete page.objects answered
      last-Complete end =
          let sent = send_listed_objects-quiet page.objects reads sends in
          rw (sent.0, sent.1, end) (append-nil page.objects, refl)

      more-Complete :
          (cursor' : Cursor x) (rest : List (S3Object x.DateTime))
          → page.is_truncated ≡ true
          → next_cursor x api config mode config.target.prefix cursor page ≡ ok cursor'
          → ((reads sends : ℕ) → Complete rest (next_page cursor' reads sends))
          → Complete (page.objects ++ rest) answered
      more-Complete cursor' rest cut next h =
          let sent = send_listed_objects-quiet page.objects reads sends in
          rw (sent.0, sent.1, next, cut) (ap (◌++◌ page.objects) (h _ _).0, (h _ _).1)

    list_sequential-Pages :
        (k n : ℕ) (from : Position) (found : Objects x) (prefixes : List String)
        → IsOf mode from
        → Pages x api config.target.prefix none mode k n from found prefixes
        → (fuel reads sends : ℕ) → k ≤ fuel
        → Complete found
            (list_sequential x env api config mode fuel n (cursor_at x from) reads sends)
    unfolding list_sequential
    list_sequential-Pages k n from found prefixes at pages zero reads sends h = absurd (
        omega (
          arith,
          Pages-positive x api config.target.prefix none mode k n from found prefixes pages,
        ))
    list_sequential-Pages k n from found prefixes at (last n' from' found' prefixes' gives)
          (suc fuel) reads sends h =
        let (page, answer, same, subs, end) =
          Gives-fetch_list_page x api config config.target.prefix none mode n from found prefixes
            none at gives in
        rw (quiet.live reads, answer, ← same)
          (last-Complete
            (λ cursor reads sends.
              list_sequential x env api config mode fuel (suc n) cursor reads sends)
            (cursor_at x from) page (suc reads) sends end)
    list_sequential-Pages k n from found prefixes at
          (more k' n' from' next found' rest prefixes' later gives pages) (suc fuel) reads sends h =
        let (page, answer, same, subs, turn) =
          Gives-fetch_list_page x api config config.target.prefix none mode n from found' prefixes'
            (some next) at gives in
        rw (quiet.live reads, answer, ← same)
          (more-Complete
            (λ cursor reads sends.
              list_sequential x env api config mode fuel (suc n) cursor reads sends)
            (cursor_at x from) page (suc reads) sends (cursor_at x next) rest turn.0 turn.1
            (λ reads sends.
              list_sequential-Pages k' (suc n) next rest later turn.2 pages fuel reads sends
                (omega arith)))

    -- Left alone, and with fuel for as many requests as there are pages, the listing sends all the
    -- objects of the pages that S3 gives from the first one on, each once and in their order, and
    -- ends well. A listing of versions sends the versions of each page, then its delete markers.
    pub list_sequential_complete :
        (k : ℕ) (found : Objects x) (prefixes : List String)
        → Pages x api config.target.prefix none mode k 0 first found prefixes
        → (fuel : ℕ) → k ≤ fuel
        → ((list_sequential x env api config mode fuel 0 (start x) 0 0).sent ≡ found)
          × ((list_sequential x env api config mode fuel 0 (start x) 0 0).outcome ≡ some (ok tt))
    list_sequential_complete k found prefixes pages fuel enough =
        list_sequential-Pages k 0 first found prefixes tt pages fuel 0 0 enough
