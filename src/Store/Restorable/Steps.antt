-- ===== src/Store/Restorable/Steps.antt =====
-- internal/server/store: every step keeps the complete snapshots restorable.
use openbackup.Store.{Db}
use openbackup.Store.Restorable.{
  Step, start, add, finish, reap, register, forget, remove, pin, collect, Reach, here, next,
  IsRestorable,
}
use openbackup.Store.Restorable.Batch.{add-IsRestorable}
use openbackup.Store.Restorable.Updates.{
  start-IsRestorable, reap-IsRestorable, pin-IsRestorable, register_chunk-IsRestorable,
  remove-IsRestorable, forget-IsRestorable, collect-IsRestorable,
}
use openbackup.Store.Restorable.Finish.{finish-IsRestorable}

-- Every call of the store, and a garbage collection that takes only a digest that is unreferenced
-- when its row goes, leaves each complete snapshot with all its chunks registered.
pub Step-IsRestorable : {db db' : Db} → Step db db' → IsRestorable db → IsRestorable db'
Step-IsRestorable {db} (start id now user device req fresh) =
    start-IsRestorable db id now user device req
Step-IsRestorable {db} {db'} (add now id entries deleted h) =
    add-IsRestorable db db' now id entries deleted h
Step-IsRestorable {db} (finish now id req) = finish-IsRestorable db now id req
Step-IsRestorable {db} (reap now older_than) = reap-IsRestorable db now older_than
Step-IsRestorable {db} {db'} (register now user digest stored plain encrypted h) =
    register_chunk-IsRestorable db db' now user digest stored plain encrypted h
Step-IsRestorable {db} {db'} (forget devices user device {devices'} h) =
    forget-IsRestorable db db' devices devices' user device h
Step-IsRestorable {db} (remove root) = remove-IsRestorable db root
Step-IsRestorable {db} {db'} (pin user id pinned h) = pin-IsRestorable db db' user id pinned h
Step-IsRestorable {db} (collect digest unused) = collect-IsRestorable db digest unused

-- From tables without a broken complete snapshot, every complete snapshot has all its chunks
-- registered at the end, whatever sequence of calls leads there: of StartSnapshot under a fresh id,
-- AddEntries, CompleteSnapshot, FailStaleSnapshots, RegisterChunk, DeleteSnapshotCascade,
-- DeleteDevice and SetSnapshotPinned, and of DeleteChunkRow on digests that no snapshot references
-- when their row goes.
pub Reach-IsRestorable : {db db' : Db} → Reach db db' → IsRestorable db → IsRestorable db'
Reach-IsRestorable here inv = inv
Reach-IsRestorable (next r s) inv = Step-IsRestorable s (Reach-IsRestorable r inv)
