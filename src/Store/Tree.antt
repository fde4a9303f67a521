-- ===== src/Store/Tree.antt =====
-- internal/server/store/snapshots.go: the file list of a snapshot, resolved over its chain.
-- `treeRange` is one SQL statement: its parts are functions over the tables. Paths compare byte by
-- byte. A negative limit does what 0 does.
pub mod Replay
pub mod Order
pub mod Sources
pub mod Page
pub mod Children
pub mod Folder
pub mod Ends
pub mod Single
pub mod Below
pub mod Listing
use openbackup.Prelude.{
  ℕ, zero, suc, ◌*◌, ◌+◌, min, Bool, true, false, not, ◌&&◌, ◌||◌, Bytes, String, List, [], ◌∷◌,
  ◌++◌, Option, none, some, ltb, leb, ◌==◌, str_eq, if◌then◌else◌, is_empty, length, take, drop,
  map,
}
use openbackup.Prelude.Result.{Result, ok, err, ◌>>=◌}
use openbackup.Prelude.Sets.{has}
use openbackup.Text.{bytes_eq, cut, trim_space}
use openbackup.Store.{Entry, EntryRow, DeletionRow, Db, StoreError, not_found}
use openbackup.Store.Paths.{slash, normalize_path}
use openbackup.Store.Snapshots.{snapshot_chain}

pub record TreeQuery : Type 0 where
  pub prefix : Bytes
  pub cursor : Bytes
  pub limit : ℕ
  pub direct_only : Bool
  pub query : Bytes

abbrev pub default_limit : ℕ
default_limit = 1000

abbrev pub most_rows : ℕ
most_rows = 5000

-- `if limit <= 0 || limit > 5000 { limit = 1000 }`
unfoldable pub row_limit : ℕ → ℕ
row_limit limit = if limit == 0 || ltb most_rows limit then default_limit else limit

-- The order of SQLite's texts, which is that of their bytes
abbrev pub precedes : Bytes → Bytes → Bool
precedes [] [] = false
precedes [] (d ∷ t) = true
precedes (c ∷ s) [] = false
precedes (c ∷ s) (d ∷ t) = let rest = precedes s t in ltb c d || c == d && rest

-- `entries` by its primary key
unfoldable pub entry_at : String → Bytes → List EntryRow → Option Entry
entry_at sid path [] = none
entry_at sid path (r ∷ rs) =
    if str_eq r.snapshot sid && bytes_eq r.entry.path path
    then some r.entry
    else entry_at sid path rs

unfoldable pub is_deleted : String → Bytes → List DeletionRow → Bool
is_deleted sid path [] = false
is_deleted sid path (r ∷ rs) =
    str_eq r.snapshot sid && bytes_eq r.path path || is_deleted sid path rs

abbrev pub or_entry : ℕ → Option Entry → Option (ℕ × Entry) → Option (ℕ × Entry)
or_entry seq e (some found) = some found
or_entry seq none none = none
or_entry seq (some e) none = some (seq, e)

-- `latest`: the row of the greatest `seq` of a path. `seq` counts along the chain, base first.
unfoldable pub latest : ℕ → List String → Bytes → List EntryRow → Option (ℕ × Entry)
latest seq [] path rows = none
latest seq (sid ∷ chain) path rows =
    or_entry seq (entry_at sid path rows) (latest (suc seq) chain path rows)

abbrev pub or_seq : ℕ → Bool → Option ℕ → Option ℕ
or_seq seq b (some found) = some found
or_seq seq true none = some seq
or_seq seq false none = none

-- `removed`: the greatest `seq` at which a path is deleted
unfoldable pub removed : ℕ → List String → Bytes → List DeletionRow → Option ℕ
removed seq [] path rows = none
removed seq (sid ∷ chain) path rows =
    or_seq seq (is_deleted sid path rows) (removed (suc seq) chain path rows)

-- `WHERE r.path IS NULL OR r.seq < l.seq`
abbrev pub survives : Option ℕ → Option (ℕ × Entry) → Option Entry
survives r none = none
survives none (some (seq, e)) = some e
survives (some j) (some (seq, e)) = if ltb j seq then some e else none

unfoldable pub shown : Db → List String → Bytes → Option Entry
unfolding latest removed
shown db chain path = survives (removed 0 chain path db.deletions) (latest 0 chain path db.entries)

-- `GROUP BY path` and `ORDER BY path`
unfoldable pub insert_path : Bytes → List Bytes → List Bytes
insert_path p [] = p ∷ []
insert_path p (q ∷ qs) =
    let rest = insert_path p qs in
    if bytes_eq p q then q ∷ qs else if precedes p q then p ∷ q ∷ qs else q ∷ rest

unfoldable pub paths_in : List String → List EntryRow → List Bytes
unfolding insert_path
paths_in chain [] = []
paths_in chain (r ∷ rs) =
    let rest = paths_in chain rs in
    if has r.snapshot chain then insert_path r.entry.path rest else rest

-- `path = prefix`, or it lies between `prefix + "/"` and `prefix + "0"`
unfoldable pub in_prefix : Bytes → Bytes → Bool
in_prefix prefix path =
    is_empty prefix
    || bytes_eq path prefix
    || not (precedes path (prefix ++ slash ∷ [])) && precedes path (prefix ++ b'0' ∷ [])

abbrev pub starts : Bytes → Bytes → Bool
starts [] s = true
starts (c ∷ p) [] = false
starts (c ∷ p) (d ∷ s) = c == d && starts p s

-- SQLite's `instr(s, needle) > 0`
unfoldable pub instr : Bytes → Bytes → Bool
instr needle [] = starts needle []
instr needle (c ∷ s) = starts needle (c ∷ s) || instr needle s

-- SQLite's `lower`: ASCII letters only
abbrev pub lower_ascii : ℕ → ℕ
lower_ascii c = if leb b'A' c && leb c b'Z' then c + 32 else c

abbrev pub collect : (Bytes → Option Entry) → List Bytes → List Entry
collect f [] = []
collect f (p ∷ ps) = let rest = collect f ps in elim (f p) [ none ↦ rest | some e ↦ e ∷ rest ]

abbrev pub when : Bool → Option Entry → Option Entry
when true o = o
when false o = none

-- strings.ToLower is a parameter.
module _ (to_lower : Bytes → Bytes) where
  unfoldable pub selects : TreeQuery → Bytes → Bool
  unfolding in_prefix instr
  selects q path =
      precedes q.cursor path
      && in_prefix (normalize_path q.prefix) path
      && (is_empty (to_lower (trim_space q.query))
          || instr (to_lower (trim_space q.query)) (map lower_ascii path))

  -- The rows of the statement, before its LIMIT
  unfoldable pub tree_rows : Db → List String → TreeQuery → List Entry
  unfolding selects shown paths_in
  tree_rows db chain q =
      collect (λ path. when (selects q path) (shown db chain path)) (paths_in chain db.entries)

abbrev pub last_path : List Entry → Bytes
last_path [] = []
last_path (e ∷ []) = e.path
last_path (e ∷ f ∷ es) = last_path (f ∷ es)

-- A page, and the cursor to the next
abbrev pub Page : Type 0
Page = List Entry × Bytes

-- `LIMIT limit + 1`, and the row too many cut off again
unfoldable pub cut_page : ℕ → List Entry → Page
cut_page limit rows =
    if ltb limit (length (take (suc limit) rows))
    then (take limit rows, last_path (take limit rows))
    else (take (suc limit) rows, [])

unfoldable pub tree_range : (Bytes → Bytes) → Db → String → TreeQuery → Result StoreError Page
unfolding tree_rows cut_page row_limit
tree_range to_lower db id q = snapshot_chain db id >>= λ chain.
    if is_empty chain
    then err not_found
    else ok (cut_page (row_limit q.limit) (tree_rows to_lower db chain q))

abbrev pub find_path : Bytes → List Entry → Result StoreError Entry
find_path want [] = err not_found
find_path want (e ∷ es) = if bytes_eq e.path want then ok e else find_path want es

-- A single path: one row under it is read, and is the answer if the path is exactly the wanted.
unfoldable pub tree_entry : (Bytes → Bytes) → Db → String → Bytes → Result StoreError Entry
unfolding tree_range
tree_entry to_lower db id path =
    tree_range to_lower db id (record {
      prefix = normalize_path path;
      cursor = [];
      limit = 1;
      direct_only = false;
      query = [];
    })
    >>= λ (rows, _). find_path (normalize_path path) rows
