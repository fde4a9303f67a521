-- ===== src/Examples/Uploads.antt =====
-- internal/server/store: what an agent is asked for, a delta that is opened, a batch with a path in
-- Windows spelling, and a collection of garbage.
use openbackup.Prelude.{◌≡◌, ◌≢◌, inl, refl, false, String, List, [], ◌∷◌, some, none, codes}
use openbackup.Prelude.Result.{ok}
use openbackup.Prelude.Sets.{has}
use openbackup.Text.{split}
use openbackup.Store.{
  full, running, complete, no_error, no_counts, Snapshot, Entry, Db, find_in, find_snapshot,
  has_chunk, update_in, refs_of,
}
use openbackup.Store.Paths.{clean_stored_path, trim_slashes}
use openbackup.Store.Snapshots.{
  StartRequest, CompleteRequest, complete_snapshot, upsert_entry, insert_ref, insert_refs,
  insert_deletion, add_entry_rows, add_deletion_rows, add_entries,
}
use openbackup.Store.Snapshots.Stored.{HoldsSafe, add_entries-HoldsSafe}
use openbackup.Store.Chunks.{missing_chunks}
use openbackup.Store.Chunks.Unasked.{missing_chunks-unasked}
use openbackup.Maintenance.Pass.{Collected, Removal, removed, collect_garbage}
use openbackup.Maintenance.Pass.Rounds.{IsClean, collect_garbage-IsClean}

abbrev base : Snapshot
base = record {
  id = "s1";
  user = "u1";
  device = "pc";
  kind = full;
  status = complete;
  parent = "";
  started = 1000;
  updated = 1001;
  completed = some 1002;
  counts = no_counts;
  error = no_error;
  pinned = false;
  roots = [];
}

-- "c1" is stored, "c2" is referenced and was never stored, "c3" is stored without a reference.
abbrev tables : Db
tables = record {
  snapshots = base ∷ record base { id = "s2"; status = running } ∷ [];
  entries = [];
  deletions = [];
  refs = record { snapshot = "s1"; digest = "c1" } ∷ record { snapshot = "s2"; digest = "c2" } ∷ [];
  chunks =
      record { digest = "c1"; stored_bytes = 4; plain_bytes = 5; encrypted = false; created = 900 }
      ∷ record {
        digest = "c3";
        stored_bytes = 7;
        plain_bytes = 9;
        encrypted = false;
        created = 901;
      }
      ∷ [];
  account_chunks = record { user = "u1"; digest = "c1" } ∷ [];
}

abbrev asked : List String
asked = "c1" ∷ "c2" ∷ "c4" ∷ "c4" ∷ []

abbrev finish : CompleteRequest
finish = record { completed = none; counts = no_counts; error = "" }

abbrev open_delta : Snapshot
open_delta = record base { id = "s2"; status = running }

missing_chunks-unasked_example :
    (has "c2" (missing_chunks tables "u1" asked) ≡ false)
    × ((complete_snapshot tables 2000 "s2" finish).1 ≢ ok tt)
    × (t' : Snapshot) × (find_snapshot (complete_snapshot tables 2000 "s2" finish).0 "s2" ≡ some t')
    × (t'.status ≢ complete)
    × (t'.status ≢ running)
unfolding find_in refs_of has_chunk
missing_chunks-unasked_example =
    missing_chunks-unasked tables "u1" "c2" open_delta asked 2000 "s2" finish open_delta refl refl
      (inl refl) refl refl refl (inl refl)

abbrev change : StartRequest
change = record { roots = []; parent = "s1"; started = none; kind = "delta" }

abbrev photo : Entry
photo = record {
  path = codes "/pictures\\2024\\cat.jpg";
  entry_type = "file";
  size = 5;
  mode = 420;
  mtime = 900;
  digest = "d1";
  link_target = "";
  chunks = "c1" ∷ [];
}

abbrev batch_db : Db
batch_db = record tables {
  snapshots = base ∷ record base { id = "s2"; status = running; updated = 3000 } ∷ [];
  entries =
      record { snapshot = "s2"; entry = record photo { path = codes "pictures/2024/cat.jpg" } }
      ∷ [];
  deletions = record { snapshot = "s2"; path = codes "old.txt" } ∷ [];
  refs =
      record { snapshot = "s1"; digest = "c1" }
      ∷ record { snapshot = "s2"; digest = "c2" }
      ∷ record { snapshot = "s2"; digest = "c1" }
      ∷ [];
}

batch_added : add_entries tables 3000 "s2" (photo ∷ []) (codes "old.txt" ∷ []) ≡ ok batch_db
unfolding add_entries add_entry_rows add_deletion_rows upsert_entry insert_refs insert_ref
    insert_deletion find_in update_in clean_stored_path trim_slashes split
batch_added = refl

add_entries-HoldsSafe_example : HoldsSafe batch_db
add_entries-HoldsSafe_example =
    add_entries-HoldsSafe tables batch_db 3000 "s2" (photo ∷ []) (codes "old.txt" ∷ []) batch_added
      (record { entries_safe = tt; deletions_safe = tt })

abbrev all_removed : String → Removal
all_removed digest = removed

collect_garbage-IsClean_example :
    (g : Collected) × (collect_garbage (λ round. all_removed) tables ≡ some g) × IsClean tables g
collect_garbage-IsClean_example = collect_garbage-IsClean (λ round. all_removed) tables
