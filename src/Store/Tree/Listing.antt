-- ===== src/Store/Tree/Listing.antt =====
-- internal/server/store/snapshots.go, `treeRange`: the pages of the file list that a chain describes.
use openbackup.Prelude.{◌≤◌, ◌≡◌, ◌≢◌, ◌↔◌, ◌⊎◌, true, Bytes, String, List, [], ◌∷◌, some, length}
use openbackup.Prelude.Result.{ok}
use openbackup.Prelude.Sets.{In}
use openbackup.Text.{trim_space}
use openbackup.Store.{Entry, Db}
use openbackup.Store.Paths.{normalize_path}
use openbackup.Store.Snapshots.{snapshot_chain}
use openbackup.Store.Tree.{TreeQuery, row_limit, precedes, Page, tree_range}
use openbackup.Store.Tree.Replay.{replay, no_files}
use openbackup.Store.Tree.Order.{EntriesAscend}
use openbackup.Store.Tree.Page.{Asked, tree_range-IsPage}
use openbackup.Store.Tree.Below.{Below, Contains, LowersAscii, selects_iff}

module _ (db : Db) (chain : List String) (q : TreeQuery) where
  -- A file that replaying the chain leaves at its path, behind the cursor, below the prefix, and
  -- with the text of the query in its path
  pub record IsWanted (e : Entry) : Type 0 where
    pub left : replay db chain no_files e.path ≡ some e
    pub behind : precedes q.cursor e.path ≡ true
    pub below : Below (normalize_path q.prefix) e.path
    pub found : Contains (trim_space q.query) e.path

  -- A page lists wanted files only, in the order of their paths and up to the limit, and what it
  -- leaves out comes behind its cursor, which is the path of a file that it lists.
  pub record IsListing (page : Page) : Type 0 where
    pub sound : (e : Entry) → In e page.0 → IsWanted e
    pub complete :
        (e : Entry) → IsWanted e → In e page.0 ⊎ ((page.1 ≢ []) × (precedes page.1 e.path ≡ true))
    pub ascending : EntriesAscend page.0
    pub fits : length page.0 ≤ row_limit q.limit
    pub resumes : page.1 ≢ [] → (e : Entry) × In e page.0 × (page.1 ≡ e.path)

  module _ (to_lower : Bytes → Bytes) (low : LowersAscii to_lower q) where
    pub Asked-iff : (e : Entry) → Asked to_lower db chain q e ↔ IsWanted e
    Asked-iff e =
        let (to, from) = selects_iff to_lower q e.path low in
        (
          λ (r, s). let (c, b, f) = to s in record { left = r; behind = c; below = b; found = f },
          λ w. (w.left, from (w.behind, w.below, w.found)),
        )

-- The file list of a snapshot whose chain resolves comes in pages: each lists, in the order of
-- their paths and up to the limit, exactly those files that replaying the chain leaves (each
-- snapshot writing its entries and then removing what it deletes, the base first) and that stand
-- behind the cursor, at or below the prefix, and hold the text of the query, in whichever case of
-- its ASCII letters; a file that a page leaves out comes behind the cursor of that page, which is
-- then not empty. The query is one of which strings.ToLower changes ASCII letters only.
pub tree_range-IsListing :
    (to_lower : Bytes → Bytes) (db : Db) (id : String) (q : TreeQuery) (sid : String)
    (chain : List String)
    → snapshot_chain db id ≡ ok (sid ∷ chain)
    → LowersAscii to_lower q
    → (page : Page) × (tree_range to_lower db id q ≡ ok page) × IsListing db (sid ∷ chain) q page
tree_range-IsListing to_lower db id q sid chain resolves low =
    let (page, e, w) = tree_range-IsPage to_lower db id q sid chain resolves in
    let same = Asked-iff db (sid ∷ chain) q to_lower low in
    (
      page,
      e,
      record {
        sound = λ f i. (same f).0 (w.sound f i);
        complete = λ f a. w.complete f ((same f).1 a);
        ascending = w.ascending;
        fits = w.fits;
        resumes = w.resumes;
      },
    )
