-- ===== src/Deleter/Worker/Flush/Report.antt =====
-- The two loops of `delete_buffered_objects` of src/deleter/mod.rs over a result.
use s3rm_rs.Base.{
  ℕ, ◌+◌, ◌%◌, ◌^◌, ◌<◌, ◌≡◌, refl, ap, ◌∙◌, List, [], ◌∷◌, ◌++◌, map, length, for_each, arith, sym,
}
use s3rm_rs.Types.Object.{S3Object}
use s3rm_rs.Types.Event.{EventData}
use s3rm_rs.Types.Stats.{fetch_add, increment_deleted, increment_failed, DeletionStatsReport}
use s3rm_rs.Types.Sdk.{Sdk}
use s3rm_rs.Config.{Config}
use s3rm_rs.Storage.{Storage}
use s3rm_rs.Deleter.World.{DeletedKey, FailedKey, DeleteResult, World}
use s3rm_rs.Deleter.Backend.{lookup_object}
use s3rm_rs.Deleter.Worker.Flush.{
  size_of, complete_event, failed_event, report_deleted, report_failed, report_result,
}

add_more : (c k n : ℕ) → (fetch_add c k + n) % 2 ^ 64 ≡ (c + (k + n)) % 2 ^ 64
add_more c k n = omega arith

module _ (x : Sdk) (t : Storage) (config : Config x) (batch : List (S3Object x.DateTime)) where
  -- The bytes of the deleted keys: of each, the size of the object with that key and version in the
  -- batch.
  abbrev pub bytes_of : List DeletedKey → ℕ
  bytes_of [] = 0
  bytes_of (k ∷ keys) = size_of x t config (lookup_object k.key k.version_id batch) + bytes_of keys

  -- A log that holds the newest entry first, behind more entries.
  abbrev pub logged {ℓ} : {A : Type ℓ} → List A → List A → List A
  logged [] log = log
  logged (e ∷ es) log = logged es (e ∷ log)

  abbrev pub complete : DeletedKey → EventData x.F64
  complete k = complete_event x t config k (lookup_object k.key k.version_id batch)

  -- The counters of a report are 64-bit numbers.
  pub record IsU64 (r : DeletionStatsReport) : Type 0 where
    pub objects : r.stats_deleted_objects < 2 ^ 64
    pub bytes : r.stats_deleted_bytes < 2 ^ 64
    pub failed : r.stats_failed_objects < 2 ^ 64

  -- The world q is w behind a report of n deleted objects, their bytes and m failures, for which
  -- `events` were triggered.
  pub record Reports (n bytes m : ℕ) (events : List (EventData x.F64)) (w q : World x t)
      : Type 0 where
    pub objects : q.report.stats_deleted_objects ≡ (w.report.stats_deleted_objects + n) % 2 ^ 64
    pub size : q.report.stats_deleted_bytes ≡ (w.report.stats_deleted_bytes + bytes) % 2 ^ 64
    pub failed : q.report.stats_failed_objects ≡ (w.report.stats_failed_objects + m) % 2 ^ 64
    pub log : q.events ≡ logged events w.events

  deleted-Reports :
      (keys : List DeletedKey) (w : World x t)
      → IsU64 w.report
      → Reports
          (length keys)
          (bytes_of keys)
          0
          (map complete keys)
          w
          (for_each (report_deleted x t config batch) keys w)
  unfolding report_deleted increment_deleted
  deleted-Reports [] w h = record {
    objects = omega (arith, h.objects);
    size = omega (arith, h.bytes);
    failed = omega (arith, h.failed);
    log = refl;
  }
  deleted-Reports (k ∷ keys) w h =
      let bytes = size_of x t config (lookup_object k.key k.version_id batch) in
      let rest =
        deleted-Reports keys (report_deleted x t config batch k w)
          (record { objects = omega arith; bytes = omega arith; failed = h.failed }) in
      record {
        objects = omega (arith, rest.objects);
        size = rest.size ∙ add_more w.report.stats_deleted_bytes bytes (bytes_of keys);
        failed = rest.failed;
        log = rest.log;
      }

  failed-Reports :
      (keys : List FailedKey) (w : World x t)
      → IsU64 w.report
      → Reports 0 0
          (length keys)
          (map (failed_event x t config) keys)
          w
          (for_each (report_failed x t config) keys w)
  unfolding report_failed increment_failed
  failed-Reports [] w h = record {
    objects = omega (arith, h.objects);
    size = omega (arith, h.bytes);
    failed = omega (arith, h.failed);
    log = refl;
  }
  failed-Reports (k ∷ keys) w h =
      let rest =
        failed-Reports keys (report_failed x t config k w)
          (record { objects = h.objects; bytes = h.bytes; failed = omega arith }) in
      record {
        objects = rest.objects;
        size = rest.size;
        failed = omega (arith, rest.failed);
        log = rest.log;
      }

  logged-append {ℓ} :
      {A : Type ℓ} (xs ys log : List A) → logged (xs ++ ys) log ≡ logged ys (logged xs log)
  logged-append [] ys log = refl
  logged-append (a ∷ xs) ys log = logged-append xs ys (a ∷ log)

  -- With counters of 64 bits, reporting a result adds to them, modulo 2 ^ 64, the number of its
  -- deleted keys, their bytes and the number of its failed keys, and triggers one event for each
  -- deleted key and then one for each failed key, in their order.
  pub report_result-Reports :
      (r : DeleteResult) (w : World x t)
      → IsU64 w.report
      → Reports
          (length r.deleted)
          (bytes_of r.deleted)
          (length r.failed)
          (map complete r.deleted ++ map (failed_event x t config) r.failed)
          w
          (report_result x t config batch r w)
  unfolding report_result
  report_result-Reports r w h =
      let middle = for_each (report_deleted x t config batch) r.deleted w in
      let a = deleted-Reports r.deleted w h in
      let b = failed-Reports r.failed middle (record {
        objects = omega (arith, a.objects);
        bytes = omega (arith, a.size);
        failed = omega (arith, a.failed);
      }) in
      record {
        objects = omega (arith, a.objects, b.objects);
        size = omega (arith, a.size, b.size);
        failed = omega (arith, a.failed, b.failed);
        log =
            b.log
            ∙ ap (logged (map (failed_event x t config) r.failed)) a.log
            ∙ sym (
                logged-append (map complete r.deleted) (map (failed_event x t config) r.failed)
                  w.events);
      }
