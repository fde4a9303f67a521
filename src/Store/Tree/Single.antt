-- ===== src/Store/Tree/Single.antt =====
-- internal/server/store/snapshots.go, `TreeEntry`: the file that a download is served from.
use openbackup.Prelude.{
  ◌≡◌, ◌↔◌, ◌≢◌, ◌⊎◌, inl, inr, refl, sym, ap, subst, ◌∙◌, true, false, ◌&&◌, Bytes, String, List,
  [], ◌∷◌, ◌++◌, some, arith, Bool-cases,
}
use openbackup.Prelude.Result.{ok, ◌>>=◌, err-ne-ok}
use openbackup.Prelude.Sets.{In}
use openbackup.Text.{bytes_eq, trim_space}
use openbackup.Text.Lemmas.{bytes_eq-eq, bytes_eq_refl}
use openbackup.Store.Tree.Order.{precedes_irrefl}
use openbackup.Store.{Entry, Db}
use openbackup.Store.Paths.{slash, clean_stored_path, trim_slashes, normalize_path}
use openbackup.Store.Snapshots.{snapshot_chain}
use openbackup.Store.Tree.{TreeQuery, precedes, in_prefix, selects, Page, find_path, tree_entry}
use openbackup.Store.Tree.Replay.{replay, no_files, shown-replay}
use openbackup.Store.Tree.Sources.{shown-From}
use openbackup.Store.Tree.Page.{IsPage, tree_range-IsPage}

precedes-append : (p q r : Bytes) → precedes p q ≡ true → precedes p (q ++ r) ≡ true
precedes-append [] [] r h = cc
precedes-append [] (d ∷ q) r h = refl
precedes-append (c ∷ p) [] r h = cc
precedes-append (c ∷ p) (d ∷ q) r h = ground (arith, precedes-append p q r)

-- Nothing below a path comes before it.
in_prefix-precedes :
    (prefix path : Bytes)
    → prefix ≢ []
    → in_prefix prefix path ≡ true
    → precedes path prefix ≡ false
unfolding in_prefix
in_prefix-precedes [] path n h = absurd (n refl)
in_prefix-precedes (c ∷ prefix) path n h =
    at (Bool-cases (bytes_eq path (c ∷ prefix))) (Bool-cases (precedes path (c ∷ prefix)))
  where
    at :
        (bytes_eq path (c ∷ prefix) ≡ true) ⊎ (bytes_eq path (c ∷ prefix) ≡ false)
        → (precedes path (c ∷ prefix) ≡ true) ⊎ (precedes path (c ∷ prefix) ≡ false)
        → precedes path (c ∷ prefix) ≡ false
    at b (inr k) = k
    at (inl e) (inl k) =
        subst (λ x. precedes x (c ∷ prefix) ≡ false) (sym (bytes_eq-eq path (c ∷ prefix) e))
          (precedes_irrefl (c ∷ prefix))
    at (inr e) (inl k) =
        let below = precedes-append path (c ∷ prefix) (slash ∷ []) k in ground arith

module _ (want : Bytes) where
  find_path-ok :
      (es : List Entry) (e : Entry) → find_path want es ≡ ok e → In e es × (e.path ≡ want)
  find_path-ok [] e h = absurd (err-ne-ok h)
  find_path-ok (x ∷ es) e h = at (Bool-cases (bytes_eq x.path want)) (find_path-ok es e)
    where
      at :
          (bytes_eq x.path want ≡ true) ⊎ (bytes_eq x.path want ≡ false)
          → (find_path want es ≡ ok e → In e es × (e.path ≡ want))
          → In e (x ∷ es) × (e.path ≡ want)
      at (inl k) ih =
          let q : x ≡ e = ground arith in
          (inl q, subst (λ (y : Entry). y.path ≡ want) q (bytes_eq-eq x.path want k))
      at (inr k) ih = let (i, p) = ih (ground arith) in (inr i, p)

  find_path-In :
      (es : List Entry) (e : Entry)
      → In e es
      → e.path ≡ want
      → (f : Entry) × (find_path want es ≡ ok f)
  find_path-In [] e i p = absurd i
  find_path-In (x ∷ es) e i p = at (Bool-cases (bytes_eq x.path want)) i (find_path-In es e)
    where
      at :
          (bytes_eq x.path want ≡ true) ⊎ (bytes_eq x.path want ≡ false)
          → In e (x ∷ es)
          → (In e es → e.path ≡ want → (f : Entry) × (find_path want es ≡ ok f))
          → (f : Entry) × (find_path want (x ∷ es) ≡ ok f)
      at (inl k) i ih = (x, rw k refl)
      at (inr k) (inl q) ih =
          let own : x.path ≡ want = ap (λ (y : Entry). y.path) q ∙ p in
          let same : bytes_eq x.path want ≡ true =
            subst (λ w. bytes_eq x.path w ≡ true) own (bytes_eq_refl x.path) in
          absurd (ground arith)
      at (inr k) (inr j) ih = let (f, q) = ih j p in (f, rw k q)

abbrev single : Bytes → TreeQuery
single path = record { prefix = path; cursor = []; limit = 1; direct_only = false; query = [] }

module _ (to_lower : Bytes → Bytes) (db : Db) (id : String) (path : Bytes) (sid : String)
    (chain : List String) (resolves : snapshot_chain db id ≡ ok (sid ∷ chain))
    (stored : clean_stored_path path ≡ some path) (lower_nil : to_lower [] ≡ []) where
  path-ne : path ≢ []
  unfolding clean_stored_path trim_slashes
  path-ne k = absurd (nothing (subst (λ p. clean_stored_path p ≡ some p) k stored))
    where
      nothing : ¬ (clean_stored_path [] ≡ some [])
      nothing h = cc

  normal : normalize_path path ≡ path
  unfolding normalize_path
  normal = rw (stored, normalize_path) refl

  selects-single :
      (p : Bytes) → selects to_lower (single path) p ≡ (precedes [] p && in_prefix path p && true)
  unfolding selects trim_space
  selects-single p = rw normal (rw lower_nil refl)

  own-selected : (p : Bytes) → p ≡ path → selects to_lower (single path) p ≡ true
  unfolding in_prefix
  own-selected p e =
      selects-single p
      ∙ subst (λ p. (precedes [] p && in_prefix path p && true) ≡ true) (sym e) (at path path-ne)
    where
      at : (p : Bytes) → p ≢ [] → (precedes [] p && in_prefix p p && true) ≡ true
      at [] n = absurd (n refl)
      at (c ∷ p) n = rw (bytes_eq_refl (c ∷ p)) refl

  abbrev Left : Entry → Type 0
  Left e = replay db (sid ∷ chain) no_files path ≡ some e

  own_path : (e : Entry) → Left e → e.path ≡ path
  own_path e r =
      (shown-From db (sid ∷ chain) path e (shown-replay db (sid ∷ chain) path ∙ r)).own_path

  found_in :
      (page : Page)
      → IsPage to_lower db (sid ∷ chain) (single path) page
      → (e : Entry) → (find_path path page.0 ≡ ok e) ↔ Left e
  found_in page w e = (there e, back)
    where
      there : (f : Entry) → find_path path page.0 ≡ ok f → Left f
      there f h =
          let (i, p) = find_path-ok path page.0 f h in
          subst (λ x. replay db (sid ∷ chain) no_files x ≡ some f) p (w.sound f i).0

      listed : Left e → e.path ≡ path → In e page.0
      listed r p = at (
          w.complete e (
            subst (λ x. replay db (sid ∷ chain) no_files x ≡ some e) (sym p) r,
            own-selected e.path p,
          ))
        where
          at : In e page.0 ⊎ ((page.1 ≢ []) × (precedes page.1 e.path ≡ true)) → In e page.0
          at (inl i) = i
          at (inr (n, before)) =
              let (f, j, q) = w.resumes n in
              let s = (w.sound f j).1 in
              let inside : in_prefix path f.path ≡ true = ground (arith, selects-single f.path) in
              let not_before = in_prefix-precedes path f.path path-ne inside in
              let before' : precedes f.path path ≡ true =
                subst (λ x. precedes x path ≡ true) q
                  (subst (λ x. precedes page.1 x ≡ true) p before) in
              absurd (ground arith)

      some-injective : {a b : Entry} → some a ≡ some b → a ≡ b
      some-injective q = cc

      back : Left e → find_path path page.0 ≡ ok e
      back r =
          let (f, h) = find_path-In path page.0 e (listed r (own_path e r)) (own_path e r) in
          subst (λ x. find_path path page.0 ≡ ok x) (some-injective (sym (there f h) ∙ r)) h

  -- A path in the form in which paths are stored is served from the entry that replaying the
  -- snapshot's chain leaves there, and from none where it leaves none, if the chain resolves and the
  -- empty text has no capitals.
  pub tree_entry-replay :
      (e : Entry)
      → (tree_entry to_lower db id path ≡ ok e) ↔ (replay db (sid ∷ chain) no_files path ≡ some e)
  unfolding tree_entry
  tree_entry-replay e =
      let (page, q, w) = tree_range-IsPage to_lower db id (single path) sid chain resolves in
      rw normal (rw (q, ◌>>=◌) (found_in page w e))
