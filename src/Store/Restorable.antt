-- ===== src/Store/Restorable.antt =====
-- internal/server/store: the steps that change the tables, and the invariant that every complete
-- snapshot can be restored.
pub mod Stood
pub mod Batch
pub mod Updates
pub mod Finish
pub mod Steps
use openbackup.Prelude.{ℕ, ◌≡◌, Bool, true, false, Bytes, String, List, Option, none, some, All}
use openbackup.Prelude.Result.{Result, ok, err}
use openbackup.Store.{Status, complete, Snapshot, Entry, Db, find_snapshot, has_chunk, refs_of}
use openbackup.Store.Snapshots.{
  StartRequest, start_snapshot, add_entries, CompleteRequest, complete_snapshot,
  fail_stale_snapshots,
}
use openbackup.Store.Snapshots.Completion.{AllStored}
use openbackup.Store.Chunks.{register_chunk, referenced, delete_chunk_row}
use openbackup.Store.Deletion.{Device, delete_snapshot_cascade, delete_device, set_snapshot_pinned}

-- Each method of the store that writes these tables; a call that returns an error has written
-- nothing. Garbage collection is the step that drops the row of a digest that no snapshot
-- references at that moment.
pub data Step (db : Db) : Db → Type 0 where
  start :
      (id : String) (now : ℕ) (user device : String) (req : StartRequest)
      → find_snapshot db id ≡ none
      → Step db (start_snapshot db id now user device req).0
  add :
      (now : ℕ) (id : String) (entries : List Entry) (deleted : List Bytes) {db' : Db}
      → add_entries db now id entries deleted ≡ ok db'
      → Step db db'
  finish :
      (now : ℕ) (id : String) (req : CompleteRequest) → Step db (complete_snapshot db now id req).0
  reap : (now older_than : ℕ) → Step db (fail_stale_snapshots db now older_than)
  register :
      (now : ℕ) (user digest : String) (stored plain : ℕ) (encrypted : Bool) {db' : Db}
      → register_chunk db now user digest stored plain encrypted ≡ ok db'
      → Step db db'
  forget :
      (devices : List Device) (user device : String) {db' : Db} {devices' : List Device}
      → delete_device db devices user device ≡ ok (db', devices')
      → Step db db'
  remove : (root : String) → Step db (delete_snapshot_cascade db root).0
  pin :
      (user id : String) (pinned : Bool) {db' : Db}
      → set_snapshot_pinned db user id pinned ≡ ok db'
      → Step db db'
  collect :
      (digest : String) → referenced digest db.refs ≡ false → Step db (delete_chunk_row db digest)

pub data Reach (db : Db) : Db → Type 0 where
  here : Reach db db
  next : {db' db'' : Db} → Reach db db' → Step db' db'' → Reach db db''

-- Of every complete snapshot, each referenced digest has its metadata row.
pub record IsRestorable (db : Db) : Type 0 where
  pub at :
      (id : String) (s : Snapshot)
      → find_snapshot db id ≡ some s
      → s.status ≡ complete
      → AllStored db id
