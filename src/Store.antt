-- ===== src/Store.antt =====
-- internal/server/store: the tables that hold backups, and the queries that the others build on.
-- A table is the list of its rows in the order of insertion. `Paths` cleans stored paths,
-- `Snapshots` runs a snapshot's life, `Deletion` removes snapshots with what depends on them,
-- and `Chunks` keeps the chunk metadata.
pub mod Paths
pub mod Snapshots
pub mod Deletion
pub mod Chunks
pub mod Lookup
pub mod Restorable
pub mod Tree
use openbackup.Prelude.{
  ℕ, Bool, true, false, ◌||◌, Bytes, String, List, [], ◌∷◌, Option, none, some, str_eq,
  if◌then◌else◌,
}

-- api.SnapshotKind and the statuses of a snapshot
pub data Kind : Type 0 where
  full delta : Kind

pub data Status : Type 0 where
  running complete failed : Status

abbrev pub is_complete : Status → Bool
is_complete complete = true
is_complete _ = false

abbrev pub is_running : Status → Bool
is_running running = true
is_running _ = false

abbrev pub is_full : Kind → Bool
is_full full = true
is_full delta = false

-- The `error` column: the texts that the code builds, before they are cut to 1024 bytes.
pub data SnapshotError : Type 0 where
  no_error : SnapshotError
  reported : String → SnapshotError
  chunks_missing : ℕ → String → SnapshotError
  stopped_reporting : SnapshotError

-- What the agent counted
pub record Counts : Type 0 where
  pub files : ℕ
  pub dirs : ℕ
  pub total_bytes : ℕ
  pub uploaded_bytes : ℕ
  pub skipped : ℕ

abbrev pub no_counts : Counts
no_counts = record { files = 0; dirs = 0; total_bytes = 0; uploaded_bytes = 0; skipped = 0 }

-- A row of `snapshots`. An empty `parent` is NULL; times are in milliseconds.
pub record Snapshot : Type 0 where
  pub id : String
  pub user : String
  pub device : String
  pub kind : Kind
  pub status : Status
  pub parent : String
  pub started : ℕ
  pub updated : ℕ
  pub completed : Option ℕ
  pub counts : Counts
  pub error : SnapshotError
  pub pinned : Bool
  pub roots : List String

-- api.Entry; `chunks` is the JSON column as the list that it holds.
pub record Entry : Type 0 where
  pub path : Bytes
  pub entry_type : String
  pub size : ℕ
  pub mode : ℕ
  pub mtime : ℕ
  pub digest : String
  pub link_target : String
  pub chunks : List String

-- A row of `entries`, of `deletions` and of `snapshot_chunks`, under the snapshot that it is of
pub record EntryRow : Type 0 where
  pub snapshot : String
  pub entry : Entry

pub record DeletionRow : Type 0 where
  pub snapshot : String
  pub path : Bytes

pub record RefRow : Type 0 where
  pub snapshot : String
  pub digest : String

-- A row of `chunks` and of `account_chunks`
pub record ChunkRow : Type 0 where
  pub digest : String
  pub stored_bytes : ℕ
  pub plain_bytes : ℕ
  pub encrypted : Bool
  pub created : ℕ

pub record AccountRow : Type 0 where
  pub user : String
  pub digest : String

pub record Db : Type 0 where
  pub snapshots : List Snapshot
  pub entries : List EntryRow
  pub deletions : List DeletionRow
  pub refs : List RefRow
  pub chunks : List ChunkRow
  pub account_chunks : List AccountRow

pub data StoreError : Type 0 where
  not_found conflict invalid_path invalid_digest unresolvable marked_failed : StoreError

-- `SELECT … FROM snapshots WHERE id = ?`
unfoldable pub find_in : String → List Snapshot → Option Snapshot
find_in id [] = none
find_in id (s ∷ ss) = if str_eq s.id id then some s else find_in id ss

abbrev pub find_snapshot : Db → String → Option Snapshot
find_snapshot db id = find_in id db.snapshots

-- `UPDATE snapshots SET … WHERE id = ?`
unfoldable pub update_in : String → (Snapshot → Snapshot) → List Snapshot → List Snapshot
update_in id f [] = []
update_in id f (s ∷ ss) =
    let rest = update_in id f ss in if str_eq s.id id then f s ∷ rest else s ∷ rest

-- A digest has a metadata row.
unfoldable pub has_chunk : String → List ChunkRow → Bool
has_chunk digest [] = false
has_chunk digest (c ∷ cs) = str_eq c.digest digest || has_chunk digest cs

-- The digests that a snapshot references, as `snapshot_chunks` lists them
unfoldable pub refs_of : String → List RefRow → List String
refs_of id [] = []
refs_of id (r ∷ rs) =
    let rest = refs_of id rs in if str_eq r.snapshot id then r.digest ∷ rest else rest
