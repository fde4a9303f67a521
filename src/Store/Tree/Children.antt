-- ===== src/Store/Tree/Children.antt =====
-- internal/server/store/snapshots.go, `treeChildren`: what a folder holds, page by page.
use openbackup.Prelude.{
  ℕ, zero, suc, ◌*◌, min, Bool, true, false, ◌||◌, Bytes, String, List, [], ◌∷◌, ◌++◌, Option, none,
  some, ltb, ◌==◌, if◌then◌else◌, is_empty, length,
}
use openbackup.Prelude.Result.{Result, ok, err}
use openbackup.Text.{bytes_eq, cut}
use openbackup.Store.{Entry, Db, StoreError}
use openbackup.Store.Paths.{slash, normalize_path}
use openbackup.Store.Tree.{TreeQuery, most_rows, row_limit, Page, tree_range}

-- The bytes behind a prefix
abbrev pub behind : Bytes → Bytes → Option Bytes
behind [] s = some s
behind (c ∷ p) [] = none
behind (c ∷ p) (d ∷ s) = if c == d then behind p s else none

-- The first segment of `rest`, under the prefix
abbrev pub first_under : Bytes → Bytes → Bytes × Bool
first_under prefix rest =
    let under : Bytes → Bytes = λ name. if is_empty prefix then name else prefix ++ slash ∷ name in
    if is_empty rest
    then ([], false)
    else elim (cut slash rest) [ none ↦ (under rest, false) | some (name, _) ↦ (under name, true) ]

-- The name, and whether it was reached through deeper segments. No name is the empty one.
unfoldable pub child_of : Bytes → Bytes → Bytes × Bool
child_of [] path = first_under [] path
child_of (c ∷ prefix) path = elim (behind ((c ∷ prefix) ++ slash ∷ []) path) [
  | none ↦ ([], false)
  | some rest ↦ first_under (c ∷ prefix) rest
]

-- `api.Entry{Path: name, Type: api.EntryDir}`; Go's zero time stands as 0.
abbrev pub folder : Bytes → Entry
folder name = record {
  path = name;
  entry_type = "dir";
  size = 0;
  mode = 0;
  mtime = 0;
  digest = "";
  link_target = "";
  chunks = [];
}

-- The variables of `treeChildren`
pub record Fold : Type 0 where
  pub out : List Entry
  pub cursor : Bytes
  pub last_child : Bytes

abbrev pub emit : Bytes → Bool → Entry → Fold → Fold
emit name nested row s = record s {
  out = s.out ++ (if nested then folder name else row) ∷ [];
  last_child = name;
}

-- The inner loop, which breaks at the limit
unfoldable pub fold_rows : ℕ → Bytes → List Entry → Fold → Fold
fold_rows limit prefix [] s = s
fold_rows limit prefix (row ∷ rows) s =
    let s' = record s { cursor = row.path } in
    let (name, nested) = child_of prefix row.path in
    let onward = fold_rows limit prefix rows s' in
    let added = emit name nested row s' in
    let further = fold_rows limit prefix rows added in
    if is_empty name || bytes_eq name s.last_child
    then onward
    else if length added.out == limit
    then added
    else further

abbrev pub child_query : Bytes → Bytes → ℕ → TreeQuery
child_query prefix cursor fetch = record {
  prefix = prefix;
  cursor = cursor;
  limit = fetch;
  direct_only = false;
  query = [];
}

-- The outer loop. No answer means that the fuel is used up.
unfoldable pub children_loop :
    ℕ
    → (TreeQuery → Result StoreError Page)
    → ℕ
    → ℕ
    → Bytes
    → Fold
    → Option (Result StoreError Page)
unfolding fold_rows
children_loop zero range limit fetch prefix s = none
children_loop (suc fuel) range limit fetch prefix s =
    if ltb (length s.out) limit
    then elim (range (child_query prefix s.cursor fetch)) [
      | err e ↦ some (err e)
      | ok (rows, _) ↦
          let s' = fold_rows limit prefix rows s in
          let onward = children_loop fuel range limit fetch prefix s' in
          if ltb (length rows) fetch
          then some (ok (s'.out, []))
          else if length s'.out == limit
          then some (ok (s'.out, s'.last_child))
          else onward
    ]
    else some (ok (s.out, s.last_child))

abbrev pub fetch_size : ℕ → ℕ
fetch_size limit = min (limit * 8) most_rows

-- Each round but the last reads rows that no round before it has read.
unfoldable pub tree_children :
    (Bytes → Bytes) → Db → String → TreeQuery → Option (Result StoreError Page)
unfolding children_loop
tree_children to_lower db id q =
    children_loop (suc (length db.entries)) (tree_range to_lower db id) (row_limit q.limit)
      (fetch_size (row_limit q.limit)) (normalize_path q.prefix)
      (record { out = []; cursor = q.cursor; last_child = [] })

unfoldable pub tree : (Bytes → Bytes) → Db → String → TreeQuery → Option (Result StoreError Page)
unfolding tree_children tree_range
tree to_lower db id q =
    if q.direct_only then tree_children to_lower db id q else some (tree_range to_lower db id q)
