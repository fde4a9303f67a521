-- ===== src/Store/Tree/Ends.antt =====
-- internal/server/store/snapshots.go, `treeChildren`: its loop ends, since each round that is not
-- the last moves the cursor behind a row that it has read.
use openbackup.Prelude.{
  ℕ, zero, suc, ◌≤◌, ◌<◌, ◌≡◌, ◌⊎◌, inl, inr, refl, sym, subst, ap, ◌∙◌, true, false, ◌||◌, Bytes,
  String, List, [], ◌∷◌, Option, some, arith, ltb, ◌==◌, if◌then◌else◌, if_cases, Bool-cases,
  is_empty, length,
}
use openbackup.Prelude.Result.{Result, ok, err, ok-injective, err-ne-ok, bind-ok}
use openbackup.Prelude.Sets.{In}
use openbackup.Text.{bytes_eq}
use openbackup.Store.{Entry, EntryRow, Db, StoreError}
use openbackup.Store.Paths.{normalize_path}
use openbackup.Store.Snapshots.{snapshot_chain}
use openbackup.Store.Tree.{TreeQuery, precedes, row_limit, selects, last_path, Page, tree_range}
use openbackup.Store.Tree.Children.{
  Fold, emit, child_of, fold_rows, child_query, children_loop, fetch_size, tree_children,
}
use openbackup.Store.Tree.Order.{precedes_irrefl, precedes_trans}
use openbackup.Store.Tree.Replay.{shown-replay}
use openbackup.Store.Tree.Sources.{shown-From}
use openbackup.Store.Tree.Page.{tree_range-IsPage, row_limit-pos}

-- How many entries of the tables are behind a cursor
abbrev left : Bytes → List EntryRow → ℕ
left c [] = 0
left c (r ∷ rs) = let n = left c rs in if precedes c r.entry.path then suc n else n

left-length : (c : Bytes) (rs : List EntryRow) → left c rs ≤ length rs
left-length c [] = omega arith
left-length c (r ∷ rs) = ground (arith, left-length c rs)

left-fewer : (c d : Bytes) (rs : List EntryRow) → precedes c d ≡ true → left d rs ≤ left c rs
left-fewer c d [] h = omega arith
left-fewer c d (r ∷ rs) h =
    let ih = left-fewer c d rs h in at ih (Bool-cases (precedes d r.entry.path))
  where
    at :
        left d rs ≤ left c rs
        → (precedes d r.entry.path ≡ true) ⊎ (precedes d r.entry.path ≡ false)
        → left d (r ∷ rs) ≤ left c (r ∷ rs)
    at ih (inl e) = rw (e, precedes_trans c d r.entry.path h e) (omega (arith, ih))
    at ih (inr e) = ground arith

left-shrinks :
    (c d : Bytes) (row : EntryRow) (rs : List EntryRow)
    → precedes c d ≡ true
    → row.entry.path ≡ d
    → In row rs
    → left d rs < left c rs
left-shrinks c d row [] h own i = absurd i
left-shrinks c d row (r ∷ rs) h own (inl e) =
    let same : r.entry.path ≡ d = ap (λ (x : EntryRow). x.entry.path) e ∙ own in
    let fewer = left-fewer c d rs h in rw (same, h, precedes_irrefl d) (omega (arith, fewer))
left-shrinks c d row (r ∷ rs) h own (inr i) =
    at (left-shrinks c d row rs h own i) (Bool-cases (precedes d r.entry.path))
  where
    at :
        left d rs < left c rs
        → (precedes d r.entry.path ≡ true) ⊎ (precedes d r.entry.path ≡ false)
        → left d (r ∷ rs) < left c (r ∷ rs)
    at ih (inl e) = rw (e, precedes_trans c d r.entry.path h e) (omega (arith, ih))
    at ih (inr e) = ground arith

-- A row that is read is stored, and behind the cursor.
range-row :
    (to_lower : Bytes → Bytes) (db : Db) (id : String) (q : TreeQuery) (page : Page) (e : Entry)
    → tree_range to_lower db id q ≡ ok page
    → In e page.0
    → (row : EntryRow) × In row db.entries × (row.entry ≡ e) × (precedes q.cursor e.path ≡ true)
unfolding tree_range selects
range-row to_lower db id q page e h i =
    let (chain, e1, h1) = bind-ok (snapshot_chain db id) _ h in at chain e1 h1
  where
    at :
        (chain : List String)
        → snapshot_chain db id ≡ ok chain
        → ◌≡◌ {A = Result StoreError Page}
            (if is_empty chain
              then err openbackup.Store.not_found
              else ok (
                  openbackup.Store.Tree.cut_page
                    (row_limit q.limit)
                    (openbackup.Store.Tree.tree_rows to_lower db chain q)))
            (ok page)
        → (row : EntryRow) × In row db.entries × (row.entry ≡ e) × (precedes q.cursor e.path ≡ true)
    at [] e1 h1 = absurd (err-ne-ok h1)
    at (sid ∷ chain) e1 h1 =
        let (page', r, w) = tree_range-IsPage to_lower db id q sid chain e1 in
        let same : page' ≡ page = ok-injective (sym r ∙ h) in
        let (replayed, selected) = w.sound e (subst (λ (x : Page). In e x.0) (sym same) i) in
        let from =
          shown-From db (sid ∷ chain) e.path e (shown-replay db (sid ∷ chain) e.path ∙ replayed) in
        (from.row, from.listed, from.holds, ground arith)

last_path-In :
    (x : Entry) (xs : List Entry) → (e : Entry) × In e (x ∷ xs) × (last_path (x ∷ xs) ≡ e.path)
last_path-In x [] = (x, inl refl, refl)
last_path-In x (y ∷ ys) = let (e, i, q) = last_path-In y ys in (e, inr i, q)

-- A fold that does not stop at the limit has the last row for its cursor.
abbrev Moves : ℕ → Bytes → Fold → Type 0
Moves limit last t = (length t.out == limit) ≡ false → t.cursor ≡ last

fold_row-Moves :
    (limit : ℕ) (prefix : Bytes) (row : Entry) (rows : List Entry) (s : Fold) (last : Bytes)
    → ((t : Fold) → t.cursor ≡ row.path → Moves limit last (fold_rows limit prefix rows t))
    → Moves limit last (fold_rows limit prefix (row ∷ rows) s)
unfolding fold_rows
fold_row-Moves limit prefix row rows s last further =
    let (name, nested) = child_of prefix row.path in
    let added = emit name nested row (record s { cursor = row.path }) in
    if_cases (Moves limit last) (is_empty name || bytes_eq name s.last_child) _ _
      (λ e. further (record s { cursor = row.path }) refl)
      (λ e.
        if_cases (Moves limit last) (length added.out == limit) _ _ (λ q h. absurd (ground arith))
          (λ q. further added refl))

fold_rows-Moves :
    (limit : ℕ) (prefix : Bytes) (row : Entry) (rows : List Entry) (s : Fold)
    → Moves limit (last_path (row ∷ rows)) (fold_rows limit prefix (row ∷ rows) s)
unfolding fold_rows
fold_rows-Moves limit prefix row [] s = fold_row-Moves limit prefix row [] s row.path (λ t q h. q)
fold_rows-Moves limit prefix row (x ∷ xs) s =
    fold_row-Moves limit prefix row (x ∷ xs) s (last_path (x ∷ xs))
      (λ t q. fold_rows-Moves limit prefix x xs t)

module _ (to_lower : Bytes → Bytes) (db : Db) (id : String) where
  -- A round that goes on leaves fewer entries behind its cursor.
  round-left :
      (limit fetch : ℕ) (prefix : Bytes) (s : Fold) (rows : List Entry) (next : Bytes)
      → tree_range to_lower db id (child_query prefix s.cursor fetch) ≡ ok (rows, next)
      → 0 < fetch
      → ltb (length rows) fetch ≡ false
      → (length (fold_rows limit prefix rows s).out == limit) ≡ false
      → left (fold_rows limit prefix rows s).cursor db.entries < left s.cursor db.entries
  round-left limit fetch prefix s [] next read room full more = absurd (ground arith)
  round-left limit fetch prefix s (row ∷ rows) next read room full more =
      let (e, i, last) = last_path-In row rows in
      let (r, listed, holds, behind) =
        range-row to_lower db id (child_query prefix s.cursor fetch) (row ∷ rows, next) e read i in
      let moved = fold_rows-Moves limit prefix row rows s more ∙ last in
      rw moved
        (left-shrinks s.cursor e.path r db.entries behind (ap (λ (x : Entry). x.path) holds) listed)

  children_loop-ends :
      (fuel limit fetch : ℕ) (prefix : Bytes) (s : Fold)
      → 0 < fetch
      → left s.cursor db.entries < fuel
      → (r : Result StoreError Page) × (children_loop fuel
            (tree_range to_lower db id)
            limit
            fetch
            prefix
            s
          ≡ some r)
  unfolding children_loop
  children_loop-ends zero limit fetch prefix s room h = absurd (omega (arith, h))
  children_loop-ends (suc fuel) limit fetch prefix s room h =
      if_cases Ends (ltb (length s.out) limit) _ _
        (λ e.
          at (tree_range to_lower db id (child_query prefix s.cursor fetch)) refl
            (λ t. children_loop-ends fuel limit fetch prefix t room))
        (λ e. (ok (s.out, s.last_child), refl))
    where
      Ends : Option (Result StoreError Page) → Type 0
      Ends o = (r : Result StoreError Page) × (o ≡ some r)

      at :
          (o : Result StoreError Page)
          → tree_range to_lower db id (child_query prefix s.cursor fetch) ≡ o
          → ((t : Fold)
              → left t.cursor db.entries < fuel
              → Ends (children_loop fuel (tree_range to_lower db id) limit fetch prefix t))
          → Ends (elim o as (λ x. Option (Result StoreError Page)) [
            | err e ↦ some (err e)
            | ok (rows, _) ↦
                let s' = fold_rows limit prefix rows s in
                let onward = children_loop fuel (tree_range to_lower db id) limit fetch prefix s' in
                if ltb (length rows) fetch
                then some (ok (s'.out, []))
                else if length s'.out == limit
                then some (ok (s'.out, s'.last_child))
                else onward
          ])
      at (err e) read ih = (err e, refl)
      at (ok (rows, next)) read ih =
          let s' = fold_rows limit prefix rows s in
          if_cases Ends (ltb (length rows) fetch) _ _ (λ e. (ok (s'.out, []), refl))
            (λ full.
              if_cases Ends (length s'.out == limit) _ _ (λ e. (ok (s'.out, s'.last_child), refl))
                (λ more.
                  let fewer = round-left limit fetch prefix s rows next read room full more in
                  ih s' (omega (arith, fewer, h))))

-- The listing of a folder comes to an answer on every input, an error or a page: one round for each
-- stored entry, and one more, is enough.
pub tree_children-ends :
    (to_lower : Bytes → Bytes) (db : Db) (id : String) (q : TreeQuery)
    → (r : Result StoreError Page) × (tree_children to_lower db id q ≡ some r)
unfolding tree_children
tree_children-ends to_lower db id q =
    let limit = row_limit q.limit in
    let room : 0 < fetch_size limit = room_for limit (row_limit-pos q.limit) in
    children_loop-ends to_lower db id (suc (length db.entries)) limit (fetch_size limit)
      (normalize_path q.prefix) (record { out = []; cursor = q.cursor; last_child = [] }) room
      (omega (arith, left-length q.cursor db.entries))
  where
    room_for : (limit : ℕ) → 0 < limit → 0 < fetch_size limit
    room_for limit h = ground arith
