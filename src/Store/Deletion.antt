-- ===== src/Store/Deletion.antt =====
-- internal/server/store: `DeleteSnapshotCascade` (retention.go), `DeleteSnapshot` (snapshots.go),
-- `SetSnapshotPinned` and `DeleteDevice` (devices.go).
pub mod Cascade
use openbackup.Prelude.{
  ℕ, zero, suc, Bool, true, false, not, ◌&&◌, ◌||◌, String, List, [], ◌∷◌, ◌++◌, Option, none, some,
  map, str_eq, if◌then◌else◌, length,
}
use openbackup.Prelude.Result.{Result, ok, err}
use openbackup.Prelude.Sets.{has, select}
use openbackup.Store.{
  Snapshot, EntryRow, DeletionRow, RefRow, Db, StoreError, not_found, find_in, find_snapshot,
  update_in,
}

abbrev pub id_of : Snapshot → String
id_of s = s.id

-- The snapshots whose parent is one of `ids`. NULL is no parent: it is stored for the empty id.
abbrev pub child_of : List String → Snapshot → Bool
child_of ids s = not (str_eq s.parent "") && has s.parent ids

abbrev pub children : List Snapshot → List String → List String
children ss ids = map id_of (select (child_of ids) ss)

-- `WITH RECURSIVE tree`: the ids, their children, and so on, to a depth that no chain of live rows
-- passes.
unfoldable pub tree : ℕ → List Snapshot → List String → List String
tree zero ss ids = ids
tree (suc depth) ss ids = ids ++ tree depth ss (children ss ids)

abbrev pub in_tree : List Snapshot → String → List String
in_tree ss root = tree (length ss) ss (root ∷ [])

-- The tree joined with the live rows
unfoldable pub victims : List Snapshot → String → List String
victims ss root = map id_of (select (λ (s : Snapshot). has s.id (in_tree ss root)) ss)

-- `DELETE FROM snapshots WHERE id = ?` for each id; entries, deletions and references cascade.
unfoldable pub delete_all : Db → List String → Db
delete_all db ids = record db {
  snapshots = select (λ (s : Snapshot). not (has s.id ids)) db.snapshots;
  entries = select (λ (r : EntryRow). not (has r.snapshot ids)) db.entries;
  deletions = select (λ (r : DeletionRow). not (has r.snapshot ids)) db.deletions;
  refs = select (λ (r : RefRow). not (has r.snapshot ids)) db.refs;
}

unfoldable pub delete_snapshot_cascade : Db → String → Db × ℕ
delete_snapshot_cascade db root =
    let ids = victims db.snapshots root in (delete_all db ids, length ids)

unfoldable pub delete_snapshot : Db → String → String → Result StoreError (Db × ℕ)
delete_snapshot db user id = elim (find_snapshot db id) [
  | none ↦ err not_found
  | some s ↦ if str_eq s.user user then ok (delete_snapshot_cascade db id) else err not_found
]

abbrev pub pin_if_owned : String → Bool → Snapshot → Snapshot
pin_if_owned user pinned s = if str_eq s.user user then record s { pinned = pinned } else s

unfoldable pub set_snapshot_pinned : Db → String → String → Bool → Result StoreError Db
set_snapshot_pinned db user id pinned = elim (find_snapshot db id) [
  | none ↦ err not_found
  | some s ↦
      if str_eq s.user user
      then ok (record db { snapshots = update_in id (pin_if_owned user pinned) db.snapshots })
      else err not_found
]

-- The columns of `devices` that a deletion reads
pub record Device : Type 0 where
  pub id : String
  pub user : String

abbrev pub is_owned : String → String → Device → Bool
is_owned user device d = str_eq d.id device && str_eq d.user user

abbrev pub any_owned : String → String → List Device → Bool
any_owned user device [] = false
any_owned user device (d ∷ ds) = is_owned user device d || any_owned user device ds

abbrev pub of_device : String → Snapshot → Bool
of_device device s = str_eq s.device device

-- `DeleteDevice`: the device's snapshots cascade, and what hangs on them.
unfoldable pub delete_device :
    Db → List Device → String → String → Result StoreError (Db × List Device)
delete_device db devices user device =
    if any_owned user device devices
    then ok (
      delete_all db (map id_of (select (of_device device) db.snapshots)),
      select (λ (d : Device). not (is_owned user device d)) devices,
    )
    else err not_found
