-- ===== src/Store/Tree/Folder.antt =====
-- internal/server/store/snapshots.go, `treeChildren`: what the folder listing does with a page that
-- holds more children than are asked for, and with a folder that fills a page by itself.
use openbackup.Prelude.{
  ℕ, suc, ◌-◌, ◌<◌, ◌≡◌, ◌≢◌, ◌⊎◌, inl, inr, refl, sym, ap, ◌∙◌, Bool, true, false, ◌||◌, Bytes,
  String, List, [], ◌∷◌, ◌++◌, some, arith, ltb, ◌==◌, if◌then◌else◌, Bool-cases, is_empty, lt→ltb,
  length, take, take_all, length-append, All,
}
use mathlib.Core.List.{append_assoc, append-nil}
use openbackup.Prelude.Result.{Result, ok}
use openbackup.Prelude.Sets.{In-All}
use openbackup.Text.{bytes_eq}
use openbackup.Store.{Entry, Db, StoreError}
use openbackup.Store.Paths.{normalize_path}
use openbackup.Store.Tree.{TreeQuery, row_limit, precedes, Page, tree_range}
use openbackup.Store.Tree.Children.{
  child_of, folder, Fold, emit, fold_rows, child_query, children_loop, fetch_size, tree_children,
}
use openbackup.Store.Tree.Order.{EntriesAscend}
use openbackup.Store.Tree.Page.{row_limit-pos, tree_range-listed}

-- Every row is an entry of the folder itself, stored under its own path.
abbrev pub IsFlat : Bytes → List Entry → Type 0
IsFlat prefix = All (λ (e : Entry). child_of prefix e.path ≡ (e.path, false))

precedes-ne : (p q : Bytes) → precedes p q ≡ true → (is_empty q || bytes_eq q p) ≡ false
precedes-ne [] [] h = cc
precedes-ne [] (d ∷ q) h = refl
precedes-ne (c ∷ p) [] h = cc
precedes-ne (c ∷ p) (d ∷ q) h = differs (c ∷ p) (d ∷ q) h
  where
    differs : (p q : Bytes) → precedes p q ≡ true → bytes_eq q p ≡ false
    differs [] [] h = cc
    differs [] (d ∷ q) h = refl
    differs (c ∷ p) [] h = cc
    differs (c ∷ p) (d ∷ q) h = ground (arith, differs p q)

take_first :
    (limit : ℕ) (out : List Entry) (row : Entry) (rows : List Entry)
    → length out < limit
    → take (limit - length out) (row ∷ rows) ≡ row ∷ take (limit - length (out ++ row ∷ [])) rows
take_first limit out row rows h =
    let e : limit - length out ≡ suc (limit - length (out ++ row ∷ [])) =
      omega (arith, length-append out (row ∷ []), h) in
    rw e refl

-- A row of a flat folder that is behind the child before it is emitted.
fold_row :
    (limit : ℕ) (prefix : Bytes) (row : Entry) (rows : List Entry) (s : Fold) (name : Bytes)
    (nested : Bool)
    → child_of prefix row.path ≡ (name, nested)
    → (is_empty name || bytes_eq name s.last_child) ≡ false
    → let added = emit name nested row (record s { cursor = row.path }) in
      fold_rows limit prefix (row ∷ rows) s
      ≡ (if length added.out == limit then added else fold_rows limit prefix rows added)
unfolding fold_rows
fold_row limit prefix row rows s name nested f n = rw f (rw n refl)

fold_rows-flat :
    (limit : ℕ) (prefix : Bytes) (rows : List Entry) (s : Fold)
    → IsFlat prefix rows
    → All (λ (e : Entry). precedes s.last_child e.path ≡ true) rows
    → EntriesAscend rows
    → length s.out < limit
    → (fold_rows limit prefix rows s).out ≡ s.out ++ take (limit - length s.out) rows
unfolding fold_rows
fold_rows-flat limit prefix [] s f b a h =
    sym (ap (λ l. s.out ++ l) (take_all (limit - length s.out) [] (omega arith)) ∙ append-nil s.out)
fold_rows-flat limit prefix (row ∷ rows) s (f, fs) (b, bs) (a, as') h =
    ap (λ (t : Fold). t.out)
      (fold_row limit prefix row rows s row.path false f (precedes-ne s.last_child row.path b))
    ∙ at (Bool-cases (length (s.out ++ row ∷ []) == limit)) (λ l.
      fold_rows-flat limit prefix rows (emit row.path false row (record s { cursor = row.path })) fs
        a as' l)
  where
    added : Fold
    added = emit row.path false row (record s { cursor = row.path })

    longer : length (s.out ++ row ∷ []) ≡ suc (length s.out)
    longer = omega (arith, length-append s.out (row ∷ []))

    at :
        ((length (s.out ++ row ∷ []) == limit) ≡ true)
          ⊎ ((length (s.out ++ row ∷ []) == limit) ≡ false)
        → (length added.out < limit
            → (fold_rows limit prefix rows added).out
              ≡ added.out ++ take (limit - length added.out) rows)
        → (if length added.out == limit then added else fold_rows limit prefix rows added).out
          ≡ s.out ++ take (limit - length s.out) (row ∷ rows)
    at (inl e) ih =
        let none_left : limit - length (s.out ++ row ∷ []) ≡ 0 = ground arith in
        rw e (ap (λ l. s.out ++ l) (sym (take_first limit s.out row rows h ∙ rw none_left refl)))
    at (inr e) ih =
        let room : length (s.out ++ row ∷ []) < limit = ground (arith, longer) in
        rw e (
          ih room
          ∙ append_assoc s.out (row ∷ []) (take (limit - length (s.out ++ row ∷ [])) rows)
          ∙ ap (λ l. s.out ++ l) (sym (take_first limit s.out row rows h)))

abbrev pub children_query : TreeQuery → TreeQuery
children_query q = child_query (normalize_path q.prefix) q.cursor (fetch_size (row_limit q.limit))

abbrev start_fold : TreeQuery → Fold
start_fold q = record { out = []; cursor = q.cursor; last_child = [] }

module _ (to_lower : Bytes → Bytes) (db : Db) (id : String) (q : TreeQuery) (rows : List Entry)
    (next : Bytes) (read : tree_range to_lower db id (children_query q) ≡ ok (rows, next)) where
  -- A folder that holds more files than the limit, but fewer than are read at once, is answered with
  -- the first files and with no cursor: no further page is asked for, and the other files are
  -- listed nowhere.
  pub tree_children-loses :
      IsFlat (normalize_path q.prefix) rows
      → row_limit q.limit < length rows
      → length rows < fetch_size (row_limit q.limit)
      → tree_children to_lower db id q ≡ some (ok (take (row_limit q.limit) rows, []))
  unfolding tree_children children_loop
  tree_children-loses f many few =
      let (a, named) = tree_range-listed to_lower db id (children_query q) (rows, next) read in
      let start : (fold_rows (row_limit q.limit) (normalize_path q.prefix) rows (start_fold q)).out
          ≡ take (row_limit q.limit) rows =
        fold_rows-flat (row_limit q.limit) (normalize_path q.prefix) rows (start_fold q) f
          (In-All (λ (e : Entry). precedes [] e.path ≡ true) rows (λ e i. first e.path (named e i)))
          a (row_limit-pos q.limit)
        ∙ ap (λ n. take n rows) less_none in
      rw (lt→ltb 0 (row_limit q.limit) (row_limit-pos q.limit)) (
        rw read (
          rw (lt→ltb (length rows) (fetch_size (row_limit q.limit)) few)
            (ap (λ l. some (ok (l, []))) start)))
    where
      less_none : row_limit q.limit - 0 ≡ row_limit q.limit
      less_none = omega arith

      first : (p : Bytes) → p ≢ [] → precedes [] p ≡ true
      first [] n = absurd (n refl)
      first (c ∷ p) n = refl

loop-stuck :
    (fuel fetch : ℕ) (range : TreeQuery → Result StoreError Page) (prefix cursor : Bytes)
    (row : Entry) (rows : List Entry) (next : Bytes)
    → range (child_query prefix cursor fetch) ≡ ok (row ∷ rows, next)
    → length (row ∷ rows) ≡ fetch
    → cursor ≢ []
    → child_of prefix row.path ≡ (cursor, true)
    → children_loop
        (suc fuel)
        range
        1
        fetch
        prefix
        (record { out = []; cursor = cursor; last_child = [] })
      ≡ some (ok (folder cursor ∷ [], cursor))
unfolding children_loop
loop-stuck fuel fetch range prefix [] row rows next read full named f = absurd (named refl)
loop-stuck fuel fetch range prefix (c ∷ cursor) row rows next read full named f =
    let folded =
      fold_row 1 prefix row rows (record { out = []; cursor = c ∷ cursor; last_child = [] })
        (c ∷ cursor) true f refl in
    let not_last : ltb (length (row ∷ rows)) fetch ≡ false = ground arith in
    rw read (rw not_last (rw folded refl))

-- Asked for one child behind a folder of which nothing but descendants is stored behind the cursor,
-- enough of them to fill what is read at once, the listing gives that folder again and the same
-- cursor: a caller that follows the cursors never comes past it.
pub tree_children-stuck :
    (to_lower : Bytes → Bytes) (db : Db) (id : String) (q : TreeQuery) (row : Entry)
    (rows : List Entry) (next : Bytes)
    → tree_range to_lower db id (children_query q) ≡ ok (row ∷ rows, next)
    → row_limit q.limit ≡ 1
    → length (row ∷ rows) ≡ fetch_size (row_limit q.limit)
    → q.cursor ≢ []
    → child_of (normalize_path q.prefix) row.path ≡ (q.cursor, true)
    → tree_children to_lower db id q ≡ some (ok (folder q.cursor ∷ [], q.cursor))
unfolding tree_children
tree_children-stuck to_lower db id q row rows next read one full named f =
    ap
      (λ l.
        children_loop (suc (length db.entries)) (tree_range to_lower db id) l
          (fetch_size (row_limit q.limit)) (normalize_path q.prefix) (start_fold q))
      one
    ∙ loop-stuck (length db.entries) (fetch_size (row_limit q.limit)) (tree_range to_lower db id)
        (normalize_path q.prefix) q.cursor row rows next read full named f
