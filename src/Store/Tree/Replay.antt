-- ===== src/Store/Tree/Replay.antt =====
-- internal/server/store/snapshots.go, `Tree`: what the file list of a chain of snapshots is. Each
-- snapshot writes its entries into a file tree and then removes what it deletes, base first.
use openbackup.Prelude.{
  ℕ, suc, ◌≤◌, ◌≡◌, refl, sym, ◌∙◌, Bool, true, false, Bytes, String, List, [], ◌∷◌, Option, none,
  some, arith, if◌then◌else◌,
}
use openbackup.Store.{Entry, EntryRow, DeletionRow, Db}
use openbackup.Store.Tree.{entry_at, is_deleted, or_entry, latest, or_seq, removed, survives, shown}

abbrev pub FileTree : Type 0
FileTree = Bytes → Option Entry

abbrev pub no_files : FileTree
no_files path = none

abbrev pub written : Option Entry → Option Entry → Option Entry
written (some e) old = some e
written none old = old

abbrev pub apply_snapshot : Db → String → FileTree → FileTree
apply_snapshot db sid t path =
    if is_deleted sid path db.deletions
    then none
    else written (entry_at sid path db.entries) (t path)

unfoldable pub replay : Db → List String → FileTree → FileTree
replay db [] t = t
replay db (sid ∷ chain) t = replay db chain (apply_snapshot db sid t)

-- The numbers that a query finds along a chain are not below its first one.
latest-seq :
    (seq : ℕ) (chain : List String) (path : Bytes) (rows : List EntryRow) (i : ℕ) (e : Entry)
    → latest seq chain path rows ≡ some (i, e)
    → seq ≤ i
unfolding latest
latest-seq seq [] path rows i e h = cc
latest-seq seq (sid ∷ chain) path rows i e h =
    ground (arith, latest-seq (suc seq) chain path rows i e)

removed-seq :
    (seq : ℕ) (chain : List String) (path : Bytes) (rows : List DeletionRow) (i : ℕ)
    → removed seq chain path rows ≡ some i
    → seq ≤ i
unfolding removed
removed-seq seq [] path rows i h = cc
removed-seq seq (sid ∷ chain) path rows i h =
    ground (arith, removed-seq (suc seq) chain path rows i)

-- What the two queries together say about a path that the tree `old` stands behind.
abbrev resolved : Option ℕ → Option (ℕ × Entry) → Option Entry → Option Entry
resolved none none old = old
resolved (some j) none old = none
resolved r (some l) old = survives r (some l)

resolved-step :
    (seq : ℕ) (b : Bool) (e old : Option Entry) (r : Option ℕ) (l : Option (ℕ × Entry))
    → ((i : ℕ) → r ≡ some i → suc seq ≤ i)
    → ((i : ℕ) (f : Entry) → l ≡ some (i, f) → suc seq ≤ i)
    → resolved r l (if b then none else written e old)
      ≡ resolved (or_seq seq b r) (or_entry seq e l) old
resolved-step seq true none old none none h k = refl
resolved-step seq true (some f) old none none h k = ground arith
resolved-step seq false none old none none h k = refl
resolved-step seq false (some f) old none none h k = refl
resolved-step seq b none old (some j) none h k = refl
resolved-step seq b (some f) old (some j) none h k = ground (arith, h j refl)
resolved-step seq true e old none (some (i, f)) h k = ground (arith, k i f refl)
resolved-step seq false e old none (some (i, f)) h k = refl
resolved-step seq b e old (some j) (some (i, f)) h k = refl

replay-resolved :
    (db : Db) (seq : ℕ) (chain : List String) (t : FileTree) (path : Bytes)
    → replay db chain t path
      ≡ resolved (removed seq chain path db.deletions) (latest seq chain path db.entries) (t path)
unfolding replay latest removed
replay-resolved db seq [] t path = refl
replay-resolved db seq (sid ∷ chain) t path =
    replay-resolved db (suc seq) chain (apply_snapshot db sid t) path
    ∙ resolved-step seq (is_deleted sid path db.deletions) (entry_at sid path db.entries) (t path)
        (removed (suc seq) chain path db.deletions) (latest (suc seq) chain path db.entries)
        (λ i h. removed-seq (suc seq) chain path db.deletions i h)
        (λ i f h. latest-seq (suc seq) chain path db.entries i f h)

-- For each path the query gives what the replay of the chain leaves there.
pub shown-replay :
    (db : Db) (chain : List String) (path : Bytes)
    → shown db chain path ≡ replay db chain no_files path
unfolding shown
shown-replay db chain path =
    join (removed 0 chain path db.deletions) (latest 0 chain path db.entries)
    ∙ sym (replay-resolved db 0 chain no_files path)
  where
    join : (r : Option ℕ) (l : Option (ℕ × Entry)) → survives r l ≡ resolved r l none
    join none none = refl
    join (some j) none = refl
    join r (some l) = refl
