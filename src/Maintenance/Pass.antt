-- ===== src/Maintenance/Pass.antt =====
-- internal/server/maintenance/maintenance.go: `applyRetention` and `collectGarbage`, with the query
-- of store/retention.go. The blob store, and what of the calls fails, is an argument.
pub mod Rows
pub mod Safe
pub mod Rounds
pub mod Late
use Prim.Native.Nat.{Ordering}
use openbackup.Prelude.{
  ℕ, zero, suc, ◌+◌, Bool, true, false, not, ◌&&◌, ◌||◌, String, List, [], ◌∷◌, Option, none, some,
  leb, ltb, ◌==◌, str_eq, if◌then◌else◌, codes, length, is_empty,
}
use openbackup.Prelude.Sets.{has}
use openbackup.Text.{bytes_compare}
use openbackup.Store.{is_complete, Snapshot, ChunkRow, Db}
use openbackup.Store.Deletion.{delete_snapshot_cascade}
use openbackup.Store.Chunks.{unreferenced_chunks, delete_chunk_row}
use openbackup.Maintenance.Plan.{Row, plan_retention}

-- The retention columns of `users`
pub record Policy : Type 0 where
  pub retention_days : ℕ
  pub keep_daily : ℕ
  pub keep_weekly : ℕ
  pub keep_monthly : ℕ

abbrev pub row_of : Snapshot → Policy → Row
row_of s u = record {
  id = s.id;
  user = s.user;
  device = s.device;
  kind = s.kind;
  parent = s.parent;
  started = s.started;
  pinned = s.pinned;
  retention_days = u.retention_days;
  keep_daily = u.keep_daily;
  keep_weekly = u.keep_weekly;
  keep_monthly = u.keep_monthly;
}

-- The complete snapshots joined with their users
unfoldable pub joined : (String → Option Policy) → List Snapshot → List Row
joined users [] = []
joined users (s ∷ ss) =
    let rest = joined users ss in
    elim (users s.user) [
      | none ↦ rest
      | some u ↦ if is_complete s.status then row_of s u ∷ rest else rest
    ]

-- `ORDER BY s.device_id, s.started_at DESC`
abbrev pub comes_first : Row → Row → Bool
comes_first a b = elim (bytes_compare (codes a.device) (codes b.device)) [
  | Ordering.lt ↦ true
  | Ordering.eq ↦ leb b.started a.started
  | Ordering.gt ↦ false
]

unfoldable pub insert_row : Row → List Row → List Row
insert_row r [] = r ∷ []
insert_row r (x ∷ xs) =
    let rest = insert_row r xs in if comes_first r x then r ∷ x ∷ xs else x ∷ rest

unfoldable pub sort_rows : List Row → List Row
sort_rows [] = []
sort_rows (r ∷ rs) = insert_row r (sort_rows rs)

unfoldable pub snapshots_for_retention : Db → (String → Option Policy) → List Row
snapshots_for_retention db users = sort_rows (joined users db.snapshots)

-- What a turn of the loop meets: the context is cancelled, the deletion fails, or it is done.
pub data Attempt : Type 0 where
  cancelled refused served : Attempt

pub record Applied : Type 0 where
  pub db : Db
  pub deleted : ℕ
  pub finished : Bool

unfoldable pub retention_loop :
    (String → Attempt) → List String → List Row → List String → Db → ℕ → Applied
retention_loop attempt keep [] done db deleted = record {
  db = db;
  deleted = deleted;
  finished = true;
}
retention_loop attempt keep (r ∷ rs) done db deleted = elim (has r.id keep) [
  | true ↦ retention_loop attempt keep rs done db deleted
  | false ↦ elim (has r.id done) [
    | true ↦ retention_loop attempt keep rs done db deleted
    | false ↦ elim (attempt r.id) [
      | cancelled ↦ record { db = db; deleted = deleted; finished = false }
      | refused ↦ retention_loop attempt keep rs done db deleted
      | served ↦
          let (db', n) = delete_snapshot_cascade db r.id in
          retention_loop attempt keep rs (r.id ∷ done) db' (deleted + n)
    ]
  ]
]

unfoldable pub apply_retention : (String → Attempt) → Db → (String → Option Policy) → ℕ → Applied
apply_retention attempt db users now =
    let rows = snapshots_for_retention db users in
    retention_loop attempt (plan_retention rows now) rows [] db 0

abbrev pub gc_batch_size : ℕ
gc_batch_size = 5000

-- The tables, the digests that the blob store was told to delete (the latest first), and the tally
pub record Collected : Type 0 where
  pub db : Db
  pub blobs_deleted : List String
  pub deleted : ℕ
  pub freed : ℕ

-- What a chunk of a batch meets: cancelled, the blob is not deleted, its row is not, or both are.
pub data Removal : Type 0 where
  stopped blob_kept row_kept removed : Removal

-- The batch, how many of it went, and whether the pass was cancelled
pub record Batch : Type 0 where
  pub state : Collected
  pub went : ℕ
  pub was_stopped : Bool

abbrev pub blob_gone : ChunkRow → Collected → Collected
blob_gone c g = record g { blobs_deleted = c.digest ∷ g.blobs_deleted }

abbrev pub both_gone : ChunkRow → Collected → Collected
both_gone c g = record {
  db = delete_chunk_row g.db c.digest;
  blobs_deleted = c.digest ∷ g.blobs_deleted;
  deleted = suc g.deleted;
  freed = g.freed + c.stored_bytes;
}

unfoldable pub batch_loop : (String → Removal) → List ChunkRow → Collected → ℕ → Batch
batch_loop removal [] g went = record { state = g; went = went; was_stopped = false }
batch_loop removal (c ∷ cs) g went = elim (removal c.digest) [
  | stopped ↦ record { state = g; went = went; was_stopped = true }
  | blob_kept ↦ batch_loop removal cs g went
  | row_kept ↦ batch_loop removal cs (blob_gone c g) went
  | removed ↦ batch_loop removal cs (both_gone c g) (suc went)
]

-- `gcBatchSize` rows at a time; `rounds` bounds the batches, and `removal` at the rounds that are left
-- tells how the removals of a batch end.
unfoldable pub collect_loop : (ℕ → String → Removal) → ℕ → Collected → Option Collected
collect_loop removal zero g = none
collect_loop removal (suc rounds) g =
    let chunks = unreferenced_chunks g.db gc_batch_size in
    let b = batch_loop (removal rounds) chunks g 0 in
    elim (is_empty chunks) [
      | true ↦ some g
      | false ↦
          elim (b.was_stopped
            || b.went == 0 && leb gc_batch_size (length chunks)
            || ltb (length chunks) gc_batch_size) [
              | true ↦ some b.state
              | false ↦ collect_loop removal rounds b.state
            ]
    ]

unfoldable pub collect_garbage : (ℕ → String → Removal) → Db → Option Collected
collect_garbage removal db =
    collect_loop removal (suc (length db.chunks))
      (record { db = db; blobs_deleted = []; deleted = 0; freed = 0 })
