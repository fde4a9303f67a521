-- ===== src/Examples/Backups.antt =====
-- internal/server/store: a full backup of one file, from the empty tables.
use openbackup.Prelude.{String, ◌≡◌, ◌≢◌, ◌↔◌, inl, refl, false, [], ◌∷◌, none, some, codes}
use openbackup.Codec.{validate}
use openbackup.Prelude.Result.{ok}
use openbackup.Store.{
  full, running, complete, Snapshot, Entry, ChunkRow, Db, no_counts, find_in, find_snapshot,
  update_in, has_chunk, refs_of,
}
use openbackup.Store.Paths.{clean_stored_path, trim_slashes}
use openbackup.Store.Snapshots.{
  StartRequest, CompleteRequest, open_as, start_snapshot, upsert_entry, insert_ref, insert_refs,
  add_entry_rows, add_deletion_rows, add_entries, complete_snapshot, judge, missing_snapshot_chunks,
  missing_of,
}
use openbackup.Store.Snapshots.Completion.{AllStored, complete_snapshot_iff}
use openbackup.Store.Chunks.{
  insert_account, register_rows, register_chunk, unreferenced_chunks, referenced,
}
use openbackup.Store.Restorable.{start, add, finish, register, here, next, IsRestorable}
use openbackup.Store.Restorable.Steps.{Reach-IsRestorable}
use openbackup.Maintenance.Pass.{Collected, batch_loop}
use openbackup.Maintenance.Pass.Late.{all_removed, batch_loop-breaks}
use openbackup.Text.{split}

abbrev c1 : String
c1 = "0123456789abcdef0123456789abcdef0123456789abcdef0123456789abcdef"

abbrev empty : Db
empty = record {
  snapshots = [];
  entries = [];
  deletions = [];
  refs = [];
  chunks = [];
  account_chunks = [];
}

abbrev request : StartRequest
request = record { roots = "documents" ∷ []; parent = ""; started = some 1000; kind = "full" }

abbrev note : Entry
note = record {
  path = codes "documents/note.txt";
  entry_type = "file";
  size = 5;
  mode = 420;
  mtime = 900;
  digest = "d1";
  link_target = "";
  chunks = c1 ∷ [];
}

abbrev finished : CompleteRequest
finished = record { completed = none; counts = no_counts; error = "" }

abbrev opened : Snapshot
opened = record {
  id = "s1";
  user = "u1";
  device = "pc";
  kind = full;
  status = running;
  parent = "";
  started = 1000;
  updated = 1001;
  completed = none;
  counts = no_counts;
  error = openbackup.Store.no_error;
  pinned = false;
  roots = "documents" ∷ [];
}

abbrev started_db : Db
started_db = record empty { snapshots = opened ∷ [] }

abbrev chunk : ChunkRow
chunk = record { digest = c1; stored_bytes = 4; plain_bytes = 5; encrypted = false; created = 1002 }

abbrev stored_db : Db
stored_db = record started_db {
  chunks = chunk ∷ [];
  account_chunks = record { user = "u1"; digest = c1 } ∷ [];
}

abbrev filled_db : Db
filled_db = record stored_db {
  snapshots = record opened { updated = 1003 } ∷ [];
  entries = record { snapshot = "s1"; entry = note } ∷ [];
  refs = record { snapshot = "s1"; digest = c1 } ∷ [];
}

starts : (start_snapshot empty "s1" 1001 "u1" "pc" request).0 ≡ started_db
unfolding start_snapshot open_as
starts = refl

stores : register_chunk started_db 1002 "u1" c1 4 5 false ≡ ok stored_db
unfolding register_chunk register_rows validate insert_account has_chunk
stores = refl

fills : add_entries stored_db 1003 "s1" (note ∷ []) [] ≡ ok filled_db
unfolding add_entries add_entry_rows add_deletion_rows upsert_entry insert_refs insert_ref find_in
    update_in clean_stored_path trim_slashes split
fills = refl

complete_snapshot_iff_example :
    (s' : Snapshot) × (find_snapshot (complete_snapshot filled_db 1004 "s1" finished).0 "s1"
      ≡ some s')
    × ((s'.status ≡ complete) ↔ (AllStored filled_db "s1" × (finished.error ≡ "")))
    × (((complete_snapshot filled_db 1004 "s1" finished).1 ≡ ok tt) ↔ (s'.status ≡ complete))
    × (s'.status ≢ running)
unfolding find_in
complete_snapshot_iff_example =
    complete_snapshot_iff filled_db 1004 "s1" finished (record opened { updated = 1003 }) refl refl

Reach-IsRestorable_example : IsRestorable (complete_snapshot filled_db 1004 "s1" finished).0
unfolding find_in start_snapshot open_as register_chunk register_rows insert_account has_chunk
    validate
Reach-IsRestorable_example =
    Reach-IsRestorable {db = empty}
      (next
        (next
          (next (next here (start "s1" 1001 "u1" "pc" request refl))
            (register 1002 "u1" c1 4 5 false stores))
          (add 1003 "s1" (note ∷ []) [] fills))
        (finish 1004 "s1" finished))
      (record { at = λ id s found done. cc })

-- The chunk was uploaded and is not referenced yet when the batch is listed.
abbrev backed_up : Db
backed_up = (complete_snapshot filled_db 1004 "s1" finished).0

abbrev late : Collected
late = record { db = backed_up; blobs_deleted = []; deleted = 0; freed = 0 }

batch_loop-breaks_example :
    IsRestorable backed_up
    × (¬ IsRestorable (batch_loop all_removed (unreferenced_chunks stored_db 5000) late 0).state.db)
unfolding complete_snapshot find_in refs_of unreferenced_chunks referenced update_in judge
    missing_snapshot_chunks missing_of has_chunk
batch_loop-breaks_example =
    batch_loop-breaks stored_db 5000 late 0 chunk "s1"
      (record opened { status = complete; updated = 1003; completed = some 1004 })
      (record { at = λ id s found done. cc }) (inl refl)
      (next (next here (add 1003 "s1" (note ∷ []) [] fills)) (finish 1004 "s1" finished)) refl refl
      (inl refl)
