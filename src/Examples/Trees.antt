-- ===== src/Examples/Trees.antt =====
-- internal/server/store/snapshots.go and internal/agent/restore/restore.go: a folder that is listed
-- page by page, files resolved over a chain, and a restore that pages through them.
use openbackup.Prelude.{
  ℕ, suc, length, ◌≡◌, ◌↔◌, refl, true, false, Bytes, String, List, [], ◌∷◌, some, codes, drop,
  ltb→lt,
}
use openbackup.Prelude.Result.{Result, ok}
use openbackup.Prelude.Sets.{In}
use openbackup.Store.{
  full, delta, complete, no_error, no_counts, Snapshot, Entry, EntryRow, Db, StoreError, find_in,
}
use openbackup.Store.Paths.{clean_stored_path, normalize_path, trim_slashes}
use openbackup.Text.{cut, trim_space, split}
use openbackup.Store.Snapshots.{snapshot_chain, chain_loop}
use openbackup.Store.Tree.{
  TreeQuery, row_limit, Page, tree_range, tree_rows, shown, selects, in_prefix, instr, paths_in,
  insert_path, latest, removed, entry_at, is_deleted, cut_page, tree_entry,
}
use openbackup.Store.Tree.Children.{child_of, folder, tree_children}
use openbackup.Store.Tree.Replay.{replay, no_files}
use openbackup.Store.Tree.Listing.{IsWanted, IsListing, tree_range-IsListing}
use openbackup.Store.Tree.Single.{tree_entry-replay}
use openbackup.Store.Tree.Ends.{tree_children-ends}
use openbackup.Store.Tree.Folder.{tree_children-loses, tree_children-stuck}
use openbackup.Store.Tree.Order.{EntriesAscend}
use openbackup.Restore.{finished, visit_all, run}
use openbackup.Restore.Behind.{at_cursor}
use openbackup.Restore.Paging.{page_at, run-visits}

abbrev first : Snapshot
first = record {
  id = "s1";
  user = "u1";
  device = "pc";
  kind = full;
  status = complete;
  parent = "";
  started = 1000;
  updated = 1001;
  completed = some 1002;
  counts = no_counts;
  error = no_error;
  pinned = false;
  roots = [];
}

abbrev entry_of : Bytes → ℕ → Entry
entry_of path size = record {
  path = path;
  entry_type = "file";
  size = size;
  mode = 420;
  mtime = 900;
  digest = "d1";
  link_target = "";
  chunks = "c1" ∷ [];
}

abbrev row : String → Bytes → ℕ → EntryRow
row sid path size = record { snapshot = sid; entry = entry_of path size }

abbrev tables_with : List EntryRow → Db
tables_with rows = record {
  snapshots = first ∷ record first { id = "s2"; kind = delta; parent = "s1" } ∷ [];
  entries = rows;
  deletions = record { snapshot = "s2"; path = codes "gone" } ∷ [];
  refs = [];
  chunks = [];
  account_chunks = [];
}

-- "a" changes in the second snapshot, "gone" is deleted there.
abbrev changed : Db
changed = tables_with (
    row "s1" (codes "b") 2
    ∷ row "s1" (codes "a") 1
    ∷ row "s1" (codes "gone") 3
    ∷ row "s2" (codes "a") 9
    ∷ [])

changed-chain : snapshot_chain changed "s2" ≡ ok ("s1" ∷ "s2" ∷ [])
unfolding snapshot_chain find_in chain_loop
changed-chain = refl

abbrev same : Bytes → Bytes
same s = s

abbrev one_row : TreeQuery
one_row = record { prefix = []; cursor = []; limit = 1; direct_only = false; query = [] }

tree_range-IsListing_example :
    (page : Page) × (tree_range same changed "s2" one_row ≡ ok page)
    × IsListing changed ("s1" ∷ "s2" ∷ []) one_row page
unfolding trim_space
tree_range-IsListing_example =
    tree_range-IsListing same changed "s2" one_row "s1" ("s2" ∷ []) changed-chain refl

tree_entry-replay_example :
    (tree_entry same changed "s2" (codes "a") ≡ ok (entry_of (codes "a") 9))
    ↔ (replay changed ("s1" ∷ "s2" ∷ []) no_files (codes "a") ≡ some (entry_of (codes "a") 9))
unfolding clean_stored_path trim_slashes split
tree_entry-replay_example =
    tree_entry-replay same changed "s2" (codes "a") "s1" ("s2" ∷ []) changed-chain refl refl
      (entry_of (codes "a") 9)

-- The entries of the snapshot, the last one first
abbrev listed : Entry → List Entry → List Entry
listed e es = e ∷ es

run-visits_example :
    (es : List Entry) × EntriesAscend es
    × ((e : Entry) → In e es ↔ IsWanted changed ("s1" ∷ "s2" ∷ []) (at_cursor one_row []) e)
    × (run
          (suc (length es))
          (page_at same changed "s2" "s1" ("s2" ∷ []) one_row changed-chain)
          listed
          []
        ≡ some (finished (visit_all listed es [])))
unfolding trim_space
run-visits_example =
    run-visits same changed "s2" "s1" ("s2" ∷ []) one_row changed-chain listed [] refl

-- Two files, of which one is asked for
abbrev two_files : Db
two_files = tables_with (row "s1" (codes "a") 1 ∷ row "s1" (codes "b") 2 ∷ [])

abbrev one_child : TreeQuery
one_child = record { prefix = []; cursor = []; limit = 1; direct_only = true; query = [] }

tree_children-loses_example :
    tree_children same two_files "s1" one_child ≡ some (ok (entry_of (codes "a") 1 ∷ [], []))
unfolding snapshot_chain find_in tree_range tree_rows shown selects in_prefix instr paths_in
    insert_path latest removed entry_at is_deleted cut_page row_limit child_of chain_loop
    normalize_path trim_space cut
tree_children-loses_example =
    tree_children-loses same two_files "s1" one_child
      (entry_of (codes "a") 1 ∷ entry_of (codes "b") 2 ∷ []) [] refl (refl, (refl, tt))
      (ltb→lt 1 2 refl) (ltb→lt 2 8 refl)

abbrev deep : List Entry
deep =
    entry_of (codes "d/1") 1
    ∷ entry_of (codes "d/2") 2
    ∷ entry_of (codes "d/3") 3
    ∷ entry_of (codes "d/4") 4
    ∷ entry_of (codes "d/5") 5
    ∷ entry_of (codes "d/6") 6
    ∷ entry_of (codes "d/7") 7
    ∷ entry_of (codes "d/8") 8
    ∷ []

abbrev rows_of : List Entry → List EntryRow
rows_of [] = []
rows_of (e ∷ es) = record { snapshot = "s1"; entry = e } ∷ rows_of es

-- Eight files in the folder "d", which was listed already
abbrev behind_d : TreeQuery
behind_d = record { prefix = []; cursor = codes "d"; limit = 1; direct_only = true; query = [] }

tree_children-stuck_example :
    tree_children same (tables_with (rows_of deep)) "s1" behind_d
    ≡ some (ok (folder (codes "d") ∷ [], codes "d"))
unfolding snapshot_chain find_in tree_range tree_rows shown selects in_prefix instr paths_in
    insert_path latest removed entry_at is_deleted cut_page row_limit child_of chain_loop
    normalize_path trim_space cut
tree_children-stuck_example =
    tree_children-stuck same (tables_with (rows_of deep)) "s1" behind_d (entry_of (codes "d/1") 1)
      (drop 1 deep) [] refl refl refl (λ e. cc) refl

tree_children-ends_example :
    (r : Result StoreError Page) × (tree_children same (tables_with (rows_of deep)) "s1" behind_d
      ≡ some r)
tree_children-ends_example = tree_children-ends same (tables_with (rows_of deep)) "s1" behind_d
