-- ===== src/Store/Snapshots.antt =====
-- internal/server/store/snapshots.go: a snapshot is started, filled with entries and completed.
pub mod Chain
pub mod Completion
pub mod Stored
use openbackup.Prelude.{
  ℕ, zero, suc, ◌-◌, max, Bool, true, false, not, ◌&&◌, ◌||◌, Bytes, String, List, [], ◌∷◌, ◌++◌,
  Option, none, some, ltb, leb, ◌==◌, str_eq, if◌then◌else◌, is_empty, length, take,
}
use openbackup.Prelude.Result.{Result, ok, err, ◌>>=◌, ◌>>◌}
use openbackup.Text.{bytes_eq}
use openbackup.Store.{
  Kind, full, delta, Status, running, complete, failed, is_complete, is_running, is_full,
  SnapshotError, no_error, reported, chunks_missing, stopped_reporting, Counts, no_counts, Snapshot,
  Entry, EntryRow, DeletionRow, RefRow, ChunkRow, Db, StoreError, not_found, conflict, invalid_path,
  unresolvable, marked_failed, find_in, find_snapshot, update_in, has_chunk, refs_of,
}
use openbackup.Store.Paths.{clean_stored_path}

abbrev pub max_chain_length : ℕ
max_chain_length = 64

-- The loop of `snapshotChain`, from `current` towards the base. Prepending gives the ids oldest
-- first, as `reverse` does at the end.
unfoldable pub chain_loop :
    ℕ → List Snapshot → String → List String → Result StoreError (List String)
chain_loop zero ss current chain = err unresolvable
chain_loop (suc fuel) ss current chain = elim (find_in current ss) [
  | none ↦ err not_found
  | some s ↦ elim (is_full s.kind) [
    | true ↦ ok (current ∷ chain)
    | false ↦ elim (str_eq s.parent "") [
      | true ↦ err unresolvable
      | false ↦ chain_loop fuel ss s.parent (current ∷ chain)
    ]
  ]
]

unfoldable pub snapshot_chain : Db → String → Result StoreError (List String)
snapshot_chain db id =
    if str_eq id "" then ok [] else chain_loop (suc max_chain_length) db.snapshots id []

unfoldable pub delta_parent_ok : Db → String → String → String → Bool
delta_parent_ok db user device parent =
    if str_eq parent "" then false else elim (find_snapshot db parent) [
      | none ↦ false
      | some p ↦ str_eq p.user user && str_eq p.device device && is_complete p.status
    ]

-- api.StartSnapshotRequest; an absent start is `none`.
pub record StartRequest : Type 0 where
  pub roots : List String
  pub parent : String
  pub started : Option ℕ
  pub kind : String

-- The kind and the parent that are really opened
pub record Opened : Type 0 where
  pub kind : Kind
  pub parent : String

abbrev pub chain_fits : Result StoreError (List String) → Bool
chain_fits (err _) = false
chain_fits (ok chain) = not (is_empty chain) && ltb (length chain) max_chain_length

unfoldable pub open_as : Db → String → String → StartRequest → Opened
open_as db user device req =
    if str_eq req.kind "delta"
    then if delta_parent_ok db user device req.parent && chain_fits (snapshot_chain db req.parent)
      then record { kind = delta; parent = req.parent }
      else record { kind = full; parent = "" }
    else record { kind = full; parent = "" }

abbrev pub or_now : Option ℕ → ℕ → ℕ
or_now none now = now
or_now (some t) now = t

-- `id` is the id that idgen gives, and `now` the clock.
unfoldable pub start_snapshot : Db → String → ℕ → String → String → StartRequest → Db × Opened
start_snapshot db id now user device req =
    let opened = open_as db user device req in
    let s : Snapshot = record {
      id = id;
      user = user;
      device = device;
      kind = opened.kind;
      status = running;
      parent = opened.parent;
      started = or_now req.started now;
      updated = now;
      completed = none;
      counts = no_counts;
      error = no_error;
      pinned = false;
      roots = req.roots;
    } in
    (record db { snapshots = db.snapshots ++ s ∷ [] }, opened)

-- `INSERT … ON CONFLICT(snapshot_id, path) DO UPDATE`
unfoldable pub upsert_entry : String → Entry → List EntryRow → List EntryRow
upsert_entry id e [] = record { snapshot = id; entry = e } ∷ []
upsert_entry id e (r ∷ rs) =
    let rest = upsert_entry id e rs in
    if str_eq r.snapshot id && bytes_eq r.entry.path e.path
    then record { snapshot = id; entry = e } ∷ rs
    else r ∷ rest

-- `INSERT … ON CONFLICT DO NOTHING`
unfoldable pub insert_ref : String → String → List RefRow → List RefRow
insert_ref id digest [] = record { snapshot = id; digest = digest } ∷ []
insert_ref id digest (r ∷ rs) =
    let rest = insert_ref id digest rs in
    if str_eq r.snapshot id && str_eq r.digest digest then r ∷ rs else r ∷ rest

unfoldable pub insert_refs : String → List String → List RefRow → List RefRow
insert_refs id [] refs = refs
insert_refs id (d ∷ ds) refs = insert_refs id ds (insert_ref id d refs)

unfoldable pub insert_deletion : String → Bytes → List DeletionRow → List DeletionRow
insert_deletion id path [] = record { snapshot = id; path = path } ∷ []
insert_deletion id path (r ∷ rs) =
    let rest = insert_deletion id path rs in
    if str_eq r.snapshot id && bytes_eq r.path path then r ∷ rs else r ∷ rest

-- A transaction works on its own copy of the tables: an error drops it.
unfoldable pub add_entry_rows : String → List Entry → Db → Result StoreError Db
add_entry_rows id [] db = ok db
add_entry_rows id (e ∷ es) db = elim (clean_stored_path e.path) [
  | none ↦ err invalid_path
  | some path ↦ add_entry_rows id es (record db {
    entries = upsert_entry id (record e { path = path }) db.entries;
    refs = insert_refs id e.chunks db.refs;
  })
]

unfoldable pub add_deletion_rows : String → List Bytes → Db → Result StoreError Db
add_deletion_rows id [] db = ok db
add_deletion_rows id (p ∷ ps) db = elim (clean_stored_path p) [
  | none ↦ err invalid_path
  | some path ↦
      add_deletion_rows id ps (record db { deletions = insert_deletion id path db.deletions })
]

abbrev pub touch : ℕ → Snapshot → Snapshot
touch now s = record s { updated = now }

unfoldable pub add_entries : Db → ℕ → String → List Entry → List Bytes → Result StoreError Db
add_entries db now id entries deleted =
    if is_empty entries && is_empty deleted then ok db else elim (find_snapshot db id) [
      | none ↦ err not_found
      | some s ↦
          if is_running s.status
          then add_entry_rows id entries
              (record db { snapshots = update_in id (touch now) db.snapshots })
            >>= add_deletion_rows id deleted
          else err conflict
    ]

-- The digests of a snapshot that have no metadata row
unfoldable pub missing_of : List ChunkRow → List String → List String
missing_of chunks [] = []
missing_of chunks (d ∷ ds) =
    let rest = missing_of chunks ds in if has_chunk d chunks then rest else d ∷ rest

unfoldable pub missing_snapshot_chunks : Db → String → ℕ → List String
missing_snapshot_chunks db id limit =
    take (if limit == 0 then 100 else limit) (missing_of db.chunks (refs_of id db.refs))

-- api.CompleteSnapshotRequest
pub record CompleteRequest : Type 0 where
  pub completed : Option ℕ
  pub counts : Counts
  pub error : String

-- The status and the error that a completion records
pub record Verdict : Type 0 where
  pub status : Status
  pub error : SnapshotError

unfoldable pub judge : List String → String → Verdict
judge [] message =
    if str_eq message ""
    then record { status = complete; error = no_error }
    else record { status = failed; error = reported message }
judge (d ∷ ds) message = record { status = failed; error = chunks_missing (length (d ∷ ds)) d }

abbrev pub close : Verdict → CompleteRequest → ℕ → Snapshot → Snapshot
close v req now s = record s {
  status = v.status;
  completed = some (or_now req.completed now);
  counts = req.counts;
  error = v.error;
}

-- `UPDATE … WHERE id = ? AND status = 'running'`
abbrev pub close_if_running : Verdict → CompleteRequest → ℕ → Snapshot → Snapshot
close_if_running v req now s = if is_running s.status then close v req now s else s

abbrev pub runs : Option Snapshot → Bool
runs none = false
runs (some s) = is_running s.status

-- The tables, and what the caller is told
unfoldable pub complete_snapshot :
    Db → ℕ → String → CompleteRequest → Db × Result StoreError (Unit {0})
complete_snapshot db now id req =
    let v = judge (missing_snapshot_chunks db id 5) req.error in
    if runs (find_snapshot db id)
    then (
      record db { snapshots = update_in id (close_if_running v req now) db.snapshots },
      if is_complete v.status then ok tt else err marked_failed,
    )
    else (db, err not_found)

abbrev pub fail_if_stale : ℕ → ℕ → Snapshot → Snapshot
fail_if_stale now cutoff s =
    if is_running s.status && ltb (max s.started s.updated) cutoff
    then record s { status = failed; completed = some now; error = stopped_reporting }
    else s

abbrev pub update_all : (Snapshot → Snapshot) → List Snapshot → List Snapshot
update_all f [] = []
update_all f (s ∷ ss) = f s ∷ update_all f ss

unfoldable pub fail_stale_snapshots : Db → ℕ → ℕ → Db
fail_stale_snapshots db now older_than = record db {
  snapshots = update_all (fail_if_stale now (now - older_than)) db.snapshots;
}

abbrev any_of_user : String → List Snapshot → Bool
any_of_user user [] = false
any_of_user user (s ∷ ss) = str_eq s.user user || any_of_user user ss

unfoldable pub has_snapshots : Db → String → Bool
has_snapshots db user = any_of_user user db.snapshots
