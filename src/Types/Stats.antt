-- ===== src/Types/Stats.antt =====
-- `DeletionStatistics` and `DeletionStatsReport` of src/types/mod.rs.
use s3rm_rs.Base.{ℕ, ◌+◌, ◌%◌, ◌^◌, String}

pub data DeletionStatistics : Type 0 where
  delete_bytes : ℕ → DeletionStatistics
  delete_complete : String → DeletionStatistics
  delete_skip : String → DeletionStatistics
  delete_error : String → DeletionStatistics

-- `AtomicU64::fetch_add` wraps.
abbrev pub fetch_add : ℕ → ℕ → ℕ
fetch_add n k = (n + k) % 2 ^ 64

pub record DeletionStatsReport : Type 0 where
  pub stats_deleted_objects : ℕ
  pub stats_deleted_bytes : ℕ
  pub stats_failed_objects : ℕ

-- `DeletionStats`, where `duration` is in nanoseconds.
pub record DeletionStats : Type 0 where
  pub stats_deleted_objects : ℕ
  pub stats_deleted_bytes : ℕ
  pub stats_failed_objects : ℕ
  pub duration : ℕ

unfoldable pub new : DeletionStatsReport
new = record { stats_deleted_objects = 0; stats_deleted_bytes = 0; stats_failed_objects = 0 }

unfoldable pub increment_deleted : ℕ → DeletionStatsReport → DeletionStatsReport
increment_deleted bytes r = record r {
  stats_deleted_objects = fetch_add r.stats_deleted_objects 1;
  stats_deleted_bytes = fetch_add r.stats_deleted_bytes bytes;
}

unfoldable pub increment_failed : DeletionStatsReport → DeletionStatsReport
increment_failed r = record r { stats_failed_objects = fetch_add r.stats_failed_objects 1 }

unfoldable pub snapshot : DeletionStatsReport → DeletionStats
snapshot r = record {
  stats_deleted_objects = r.stats_deleted_objects;
  stats_deleted_bytes = r.stats_deleted_bytes;
  stats_failed_objects = r.stats_failed_objects;
  duration = 0;
}
