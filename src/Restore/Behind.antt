-- ===== src/Restore/Behind.antt =====
-- internal/server/store/snapshots.go, `treeRange`, as internal/agent/restore/restore.go asks it: the
-- rows behind a cursor are the rows that the pages before it have left.
use openbackup.Prelude.{
  ℕ, zero, suc, ◌+◌, ◌<◌, ◌≡◌, ◌⊎◌, inl, inr, refl, sym, ap, ◌∙◌, Bool, true, false, ◌&&◌, ◌||◌,
  Bytes, String, List, [], ◌∷◌, Option, none, some, arith, if◌then◌else◌, Bool-cases, is_empty,
  length, take, drop, map, All,
}
use native.Mathlib.Nat.{zero-add}
use openbackup.Text.{trim_space}
use openbackup.Store.{Entry, Db}
use openbackup.Store.Paths.{normalize_path}
use openbackup.Store.Tree.{
  TreeQuery, precedes, shown, paths_in, collect, when, in_prefix, instr, lower_ascii, selects,
  tree_rows, last_path,
}
use openbackup.Store.Tree.Sources.{shown-From}
use openbackup.Store.Tree.Order.{precedes_irrefl, precedes_trans, EntriesAscend}

-- The rows behind a cursor
abbrev pub after : Bytes → List Entry → List Entry
after c [] = []
after c (e ∷ es) = let rest = after c es in if precedes c e.path then e ∷ rest else rest

-- All rows are behind a path that comes before them.
after_behind :
    (c : Bytes) (es : List Entry)
    → All (λ (e : Entry). precedes c e.path ≡ true) es
    → after c es ≡ es
after_behind c [] h = refl
after_behind c (e ∷ es) (h, hs) = rw h (ap (λ l. e ∷ l) (after_behind c es hs))

pub precedes-asym : (p q : Bytes) → precedes p q ≡ true → precedes q p ≡ false
precedes-asym p q h = at (Bool-cases (precedes q p))
  where
    at : (precedes q p ≡ true) ⊎ (precedes q p ≡ false) → precedes q p ≡ false
    at (inr e) = e
    at (inl e) =
        let loop = precedes_trans p q p h e in
        let none_such = precedes_irrefl p in absurd (ground arith)

pub last-All :
    (P : Bytes → Type 0) (n : ℕ) (e : Entry) (es : List Entry)
    → P e.path
    → All (λ (f : Entry). P f.path) es
    → P (last_path (take (suc n) (e ∷ es)))
last-All P zero e es h hs = h
last-All P (suc n) e [] h hs = h
last-All P (suc n) e (f ∷ es) h (k, hs) = last-All P n f es k hs

-- Behind the last of the first `n` rows come the others.
pub after-last :
    (n : ℕ) (es : List Entry)
    → EntriesAscend es
    → n < length es
    → after (last_path (take (suc n) es)) es ≡ drop (suc n) es
after-last n [] a h = absurd (omega (arith, h))
after-last zero (e ∷ es) (a, as') h = rw (precedes_irrefl e.path) (after_behind e.path es a)
after-last (suc n) (e ∷ []) a h = absurd (omega (arith, h))
after-last (suc n) (e ∷ f ∷ es) ((b, bs), as') h =
    let c = last_path (take (suc n) (f ∷ es)) in
    let first : precedes e.path c ≡ true = last-All (λ p. precedes e.path p ≡ true) n f es b bs in
    skip c (precedes-asym e.path c first) (after-last n (f ∷ es) as' (omega (arith, h)))
  where
    skip :
        (c : Bytes)
        → precedes c e.path ≡ false
        → after c (f ∷ es) ≡ drop (suc n) (f ∷ es)
        → after c (e ∷ f ∷ es) ≡ drop (suc n) (f ∷ es)
    skip c h ih = ap (λ (b : Bool). if b then e ∷ after c (f ∷ es) else after c (f ∷ es)) h ∙ ih

-- The last of a page is the last of all rows up to it.
pub last_path-drop :
    (k n : ℕ) (es : List Entry)
    → k + n < length es
    → last_path (take (suc n) (drop k es)) ≡ last_path (take (suc (k + n)) es)
last_path-drop zero n es h = rw zero-add refl
last_path-drop (suc k) n [] h = absurd (omega (arith, h))
last_path-drop (suc k) n (e ∷ []) h = absurd (omega (arith, h))
last_path-drop (suc k) n (e ∷ f ∷ es) h =
    let shift : suc k + n ≡ suc (k + n) = omega arith in
    last_path-drop k n (f ∷ es) (omega (arith, h))
    ∙ ap (λ m. last_path (take (suc m) (e ∷ f ∷ es))) (sym shift)

-- What the statement selects of a path, whatever the cursor is
abbrev pub at_cursor : TreeQuery → Bytes → TreeQuery
at_cursor q c = record q { cursor = c }

precedes-nil : (c p : Bytes) → precedes c p ≡ true → precedes [] p ≡ true
precedes-nil [] p h = h
precedes-nil (x ∷ c) [] h = cc
precedes-nil (x ∷ c) (y ∷ p) h = refl

abbrev onto : Option Entry → List Entry → List Entry
onto o rest = elim o [ none ↦ rest | some e ↦ e ∷ rest ]

-- One path, under two cursors of which the second is the empty one
after-onto :
    (c : Bytes) (behind named body : Bool) (o : Option Entry) (rest all : List Entry)
    → ((e : Entry) → o ≡ some e → precedes c e.path ≡ behind)
    → (behind ≡ true → named ≡ true)
    → rest ≡ after c all
    → onto (when (behind && body) o) rest ≡ after c (onto (when (named && body) o) all)
after-onto c true true true none rest all h k ih = ih
after-onto c true true true (some e) rest all h k ih = rw (h e refl) (ap (λ l. e ∷ l) ih)
after-onto c true true false o rest all h k ih = ih
after-onto c true false body o rest all h k ih = let named = k refl in absurd (cc)
after-onto c false true true none rest all h k ih = ih
after-onto c false true true (some e) rest all h k ih = rw (h e refl) ih
after-onto c false true false o rest all h k ih = ih
after-onto c false false body o rest all h k ih = ih

after-onto_both :
    (c : Bytes) (behind named inside hit : Bool) (o : Option Entry) (rest all : List Entry)
    → ((e : Entry) → o ≡ some e → precedes c e.path ≡ behind)
    → (behind ≡ true → named ≡ true)
    → rest ≡ after c all
    → onto (when (behind && inside && hit) o) rest
      ≡ after c (onto (when (named && inside && hit) o) all)
after-onto_both c true true b d o rest all h k ih =
    after-onto c true true (b && d) o rest all h k ih
after-onto_both c true false b d o rest all h k ih = let named = k refl in absurd (cc)
after-onto_both c false true b d o rest all h k ih =
    after-onto c false true (b && d) o rest all h k ih
after-onto_both c false false b d o rest all h k ih = ih

module _ (to_lower : Bytes → Bytes) (db : Db) (chain : List String) (q : TreeQuery) where
  abbrev at_path : Bytes → Bytes → Option Entry
  at_path c p = when (selects to_lower (at_cursor q c) p) (shown db chain p)

  collect-after :
      (c : Bytes) (ps : List Bytes) → collect (at_path c) ps ≡ after c (collect (at_path []) ps)
  unfolding selects
  collect-after c [] = refl
  collect-after c (p ∷ ps) =
      after-onto_both c (precedes c p) (precedes [] p) (in_prefix (normalize_path q.prefix) p)
        (is_empty (to_lower (trim_space q.query))
          || instr (to_lower (trim_space q.query)) (map lower_ascii p))
        (shown db chain p) (collect (at_path c) ps) (collect (at_path []) ps)
        (λ e h. ap (precedes c) (shown-From db chain p e h).own_path) (precedes-nil c p)
        (collect-after c ps)

  -- All rows that the restore asks for
  abbrev pub all_rows : List Entry
  all_rows = tree_rows to_lower db chain (at_cursor q [])

  pub rows-after : (c : Bytes) → tree_rows to_lower db chain (at_cursor q c) ≡ after c all_rows
  unfolding tree_rows
  rows-after c = collect-after c (paths_in chain db.entries)
