-- ===== src/Store/Tree/Page.antt =====
-- internal/server/store/snapshots.go, `treeRange` and `TreeEntry`: a page of a snapshot's file list
-- against the replay of its chain.
use openbackup.Prelude.{
  ℕ, zero, suc, ◌≤◌, ◌<◌, ◌≡◌, ◌≢◌, ◌⊎◌, inl, inr, refl, sym, subst, ◌∙◌, Bool, true, false, Bytes,
  String, List, [], ◌∷◌, Option, some, arith, ltb, if_cases, length, take, drop, take_all,
  length-take, ltb-false→le,
}
use openbackup.Prelude.Result.{Result, ok, err, ◌>>=◌, ok-injective, err-ne-ok}
use openbackup.Prelude.Sets.{In, In-has}
use openbackup.Store.{Entry, Db, StoreError, not_found}
use openbackup.Store.Snapshots.{snapshot_chain}
use openbackup.Store.Tree.{
  TreeQuery, row_limit, precedes, shown, paths_in, when, selects, tree_rows, last_path, Page,
  cut_page, tree_range,
}
use openbackup.Store.Tree.Replay.{replay, no_files, shown-replay}
use openbackup.Store.Tree.Sources.{shown-From}
use openbackup.Store.Tree.Order.{
  EntriesAscend, paths_in-IsAscending, In-paths_in, collect-EntriesAscend, collect-In, In-collect,
  In-take-drop, take-In, last-precedes, take-EntriesAscend,
}

module _ (to_lower : Bytes → Bytes) (db : Db) (chain : List String) (q : TreeQuery) where
  -- The files that are asked for, after the replay of the chain
  abbrev pub Asked : Entry → Type 0
  Asked e = (replay db chain no_files e.path ≡ some e) × (selects to_lower q e.path ≡ true)

  -- A page lists asked files only, in the order of their paths, and what it leaves out comes behind
  -- the cursor that it gives.
  pub record IsPage (page : Page) : Type 0 where
    pub sound : (e : Entry) → In e page.0 → Asked e
    pub complete :
        (e : Entry) → Asked e → In e page.0 ⊎ ((page.1 ≢ []) × (precedes page.1 e.path ≡ true))
    pub ascending : EntriesAscend page.0
    pub fits : length page.0 ≤ row_limit q.limit
    pub resumes : page.1 ≢ [] → (e : Entry) × In e page.0 × (page.1 ≡ e.path)

  abbrev at_path : Bytes → Option Entry
  at_path path = when (selects to_lower q path) (shown db chain path)

  when-some :
      (b : Bool) (o : Option Entry) (e : Entry) → when b o ≡ some e → (b ≡ true) × (o ≡ some e)
  when-some true o e h = (refl, h)
  when-some false o e h = cc

  at_path-own : (p : Bytes) (e : Entry) → at_path p ≡ some e → e.path ≡ p
  at_path-own p e h =
      (shown-From db chain p e (when-some (selects to_lower q p) (shown db chain p) e h).1).own_path

  pub rows-Asked : (e : Entry) → In e (tree_rows to_lower db chain q) → Asked e
  unfolding tree_rows
  rows-Asked e i =
      let h = collect-In at_path at_path-own e (paths_in chain db.entries) i in
      let (s, o) = when-some (selects to_lower q e.path) (shown db chain e.path) e h in
      (sym (shown-replay db chain e.path) ∙ o, s)

  pub Asked-rows : (e : Entry) → Asked e → In e (tree_rows to_lower db chain q)
  unfolding tree_rows
  Asked-rows e (r, s) =
      let o : shown db chain e.path ≡ some e = shown-replay db chain e.path ∙ r in
      let w = shown-From db chain e.path e o in
      let path =
        In-paths_in chain db.entries w.row w.listed (In-has w.row.snapshot chain w.named_so) in
      In-collect at_path at_path-own e e.path (paths_in chain db.entries)
        (subst (λ (x : Entry). In x.path (paths_in chain db.entries)) w.holds path) (rw s o)

  pub rows-EntriesAscend : EntriesAscend (tree_rows to_lower db chain q)
  unfolding tree_rows
  rows-EntriesAscend =
      collect-EntriesAscend at_path at_path-own (paths_in chain db.entries)
        (paths_in-IsAscending chain db.entries)

  -- A path that is asked for is not empty: it comes behind a cursor.
  pub Asked-ne : (e : Entry) → Asked e → e.path ≢ []
  unfolding selects
  Asked-ne e (r, s) k = nothing q.cursor (subst (λ p. precedes q.cursor p ≡ true) k (ground arith))
    where
      nothing : (c : Bytes) → ¬ (precedes c [] ≡ true)
      nothing [] h = cc
      nothing (x ∷ c) h = cc

  last-In :
      (n : ℕ) (es : List Entry) (e : Entry)
      → In e (drop (suc n) es)
      → (f : Entry) × In f es × (last_path (take (suc n) es) ≡ f.path)
  last-In n [] e i = absurd i
  last-In zero (x ∷ es) e i = (x, inl refl, refl)
  last-In (suc n) (x ∷ []) e i = absurd i
  last-In (suc n) (x ∷ y ∷ es) e i = let (f, j, k) = last-In n (y ∷ es) e i in (f, inr j, k)

  last-taken :
      (n : ℕ) (es : List Entry)
      → last_path (take (suc n) es) ≢ []
      → (e : Entry) × In e (take (suc n) es) × (last_path (take (suc n) es) ≡ e.path)
  last-taken n [] z = absurd (z refl)
  last-taken zero (x ∷ es) z = (x, inl refl, refl)
  last-taken (suc n) (x ∷ []) z = (x, inl refl, refl)
  last-taken (suc n) (x ∷ y ∷ es) z = let (e, i, k) = last-taken n (y ∷ es) z in (e, inr i, k)

  cut_page-IsPage :
      (n : ℕ)
      → row_limit q.limit ≡ suc n
      → IsPage (cut_page (suc n) (tree_rows to_lower db chain q))
  unfolding cut_page
  cut_page-IsPage n k =
      if_cases IsPage (ltb (suc n) (length (take (suc (suc n)) rows))) _ _ more whole
    where
      rows : List Entry
      rows = tree_rows to_lower db chain q

      more :
          ltb (suc n) (length (take (suc (suc n)) rows)) ≡ true
          → IsPage (take (suc n) rows, last_path (take (suc n) rows))
      more h = record {
        sound = λ e i. rows-Asked e (take-In (suc n) e rows i);
        complete = λ e a. place e (In-take-drop (suc n) e rows (Asked-rows e a));
        ascending = take-EntriesAscend (suc n) rows rows-EntriesAscend;
        fits = omega (arith, length-take (suc n) rows, k);
        resumes = λ z. last-taken n rows z;
      }
        where
          place :
              (e : Entry)
              → In e (take (suc n) rows) ⊎ In e (drop (suc n) rows)
              → In e (take (suc n) rows)
                ⊎ ((last_path (take (suc n) rows) ≢ [])
                    × (precedes (last_path (take (suc n) rows)) e.path ≡ true))
          place e (inl i) = inl i
          place e (inr i) =
              let (f, j, p) = last-In n rows e i in
              inr (
                λ z. Asked-ne f (rows-Asked f j) (sym p ∙ z),
                last-precedes n e rows rows-EntriesAscend i,
              )

      whole :
          ltb (suc n) (length (take (suc (suc n)) rows)) ≡ false
          → IsPage (take (suc (suc n)) rows, [])
      whole h = record {
        sound = λ e i. rows-Asked e (take-In (suc (suc n)) e rows i);
        complete = λ e a. inl (rw all (Asked-rows e a));
        ascending = take-EntriesAscend (suc (suc n)) rows rows-EntriesAscend;
        fits = omega (arith, short, k);
        resumes = λ z. absurd (z refl);
      }
        where
          short : length (take (suc (suc n)) rows) ≤ suc n
          short = ltb-false→le (suc n) (length (take (suc (suc n)) rows)) h

          all : take (suc (suc n)) rows ≡ rows
          all = take_all (suc (suc n)) rows (omega (arith, short, length-take (suc (suc n)) rows))

pub row_limit-pos : (limit : ℕ) → 0 < row_limit limit
unfolding row_limit
row_limit-pos limit = ground arith

pub suc_of : (m : ℕ) → 0 < m → (n : ℕ) × (m ≡ suc n)
suc_of zero h = absurd (omega (arith, h))
suc_of (suc n) h = (n, refl)

-- A page of a snapshot whose chain resolves, with what the query selects.
pub tree_range-IsPage :
    (to_lower : Bytes → Bytes) (db : Db) (id : String) (q : TreeQuery) (sid : String)
    (chain : List String)
    → snapshot_chain db id ≡ ok (sid ∷ chain)
    → (page : Page) × (tree_range to_lower db id q ≡ ok page)
      × IsPage to_lower db (sid ∷ chain) q page
unfolding tree_range
tree_range-IsPage to_lower db id q sid chain h =
    let (n, k) = suc_of (row_limit q.limit) (row_limit-pos q.limit) in
    (
      cut_page (row_limit q.limit) (tree_rows to_lower db (sid ∷ chain) q),
      rw (h, ◌>>=◌) refl,
      subst
          (λ l.
            IsPage to_lower db (sid ∷ chain) q (cut_page l (tree_rows to_lower db (sid ∷ chain) q)))
          (sym k) (cut_page-IsPage to_lower db (sid ∷ chain) q n k),
    )

range_err :
    (to_lower : Bytes → Bytes) (db : Db) (id : String) (q : TreeQuery) (e : StoreError)
    → snapshot_chain db id ≡ err e
    → tree_range to_lower db id q ≡ err e
unfolding tree_range
range_err to_lower db id q e c = rw (c, ◌>>=◌) refl

range_nil :
    (to_lower : Bytes → Bytes) (db : Db) (id : String) (q : TreeQuery)
    → snapshot_chain db id ≡ ok []
    → tree_range to_lower db id q ≡ err not_found
unfolding tree_range
range_nil to_lower db id q c = rw (c, ◌>>=◌) refl

-- A page that is given is a page of the chain, and what it lists has a path.
pub tree_range-listed :
    (to_lower : Bytes → Bytes) (db : Db) (id : String) (q : TreeQuery) (page : Page)
    → tree_range to_lower db id q ≡ ok page
    → EntriesAscend page.0 × ((e : Entry) → In e page.0 → e.path ≢ [])
tree_range-listed to_lower db id q page h = at (snapshot_chain db id) refl
  where
    use_page :
        (sid : String) (chain : List String)
        → snapshot_chain db id ≡ ok (sid ∷ chain)
        → EntriesAscend page.0 × ((e : Entry) → In e page.0 → e.path ≢ [])
    use_page sid chain c =
        let (p, k, w) = tree_range-IsPage to_lower db id q sid chain c in
        let same : p ≡ page = ok-injective (sym k ∙ h) in
        let w' = subst (IsPage to_lower db (sid ∷ chain) q) same w in
        (w'.ascending, λ e i. Asked-ne to_lower db (sid ∷ chain) q e (w'.sound e i))

    failed : (e : StoreError) → ¬ (tree_range to_lower db id q ≡ err e)
    failed e k = err-ne-ok (sym k ∙ h)

    at :
        (r : Result StoreError (List String))
        → snapshot_chain db id ≡ r
        → EntriesAscend page.0 × ((e : Entry) → In e page.0 → e.path ≢ [])
    at (err e) c = absurd (failed e (range_err to_lower db id q e c))
    at (ok []) c = absurd (failed not_found (range_nil to_lower db id q c))
    at (ok (sid ∷ chain)) c = use_page sid chain c
