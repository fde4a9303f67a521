-- ===== src/Store/Chunks/Unasked.antt =====
-- internal/server/store/chunks.go, `MissingChunks`, with `CompleteSnapshot`: a digest that is taken for
-- present and is not.
use openbackup.Prelude.{◌≡◌, ◌≢◌, sym, ◌∙◌, ℕ, true, false, String, List, some}
use mathlib.Core.Bool.{false≢true}
use openbackup.Prelude.Result.{ok}
use openbackup.Prelude.Sets.{In, has, All-In}
use openbackup.Store.{
  complete, running, is_running, Snapshot, Db, find_snapshot, has_chunk, refs_of,
}
use openbackup.Store.Chunks.{missing_chunks}
use openbackup.Store.Chunks.Known.{missing_chunks-referenced}
use openbackup.Store.Snapshots.{CompleteRequest, complete_snapshot}
use openbackup.Store.Snapshots.Completion.{AllStored, complete_snapshot_iff}

-- A digest that is not stored, but that some snapshot of the account references, whatever became of
-- that snapshot, is never asked for; and an open snapshot that references it too cannot be
-- completed: the call fails, and the snapshot is closed without being complete.
pub missing_chunks-unasked :
    (db : Db) (user d : String) (s : Snapshot) (ds : List String) (now : ℕ) (id : String)
    (req : CompleteRequest) (t : Snapshot)
    → find_snapshot db s.id ≡ some s
    → s.user ≡ user
    → In d (refs_of s.id db.refs)
    → has_chunk d db.chunks ≡ false
    → find_snapshot db id ≡ some t
    → is_running t.status ≡ true
    → In d (refs_of id db.refs)
    → (has d (missing_chunks db user ds) ≡ false)
      × ((complete_snapshot db now id req).1 ≢ ok tt)
      × (t' : Snapshot) × (find_snapshot (complete_snapshot db now id req).0 id ≡ some t')
      × (t'.status ≢ complete)
      × (t'.status ≢ running)
missing_chunks-unasked db user d s ds now id req t found own uses gone open_row is_open needs =
    let (t', row, done, told, closed) = complete_snapshot_iff db now id req t open_row is_open in
    let lacks : ¬ AllStored db id =
      λ all. false≢true (sym gone ∙ All-In _ d (refs_of id db.refs) all needs) in
    let failed : t'.status ≢ complete = λ e. lacks (done.0 e).0 in
    (
      missing_chunks-referenced db user d s ds found own uses,
      λ e. failed (told.0 e),
      t',
      row,
      failed,
      closed,
    )
