-- ===== src/Restore/Paging.antt =====
-- internal/agent/restore/restore.go, `Run`, on the pages of internal/server/store/snapshots.go: a
-- restore ends, and has met every file of the snapshot once.
use openbackup.Prelude.{
  ℕ, zero, suc, ◌+◌, ◌≤◌, ◌<◌, ◌≡◌, ◌↔◌, ◌⊎◌, inl, inr, refl, sym, ap, subst, ◌∙◌, true, false,
  Bytes, String, List, [], ◌∷◌, ◌++◌, some, arith, ltb, Bool-cases, is_empty, length, take, drop,
  take_all, length-take, length-drop, drop-drop, All, lt→ltb, ltb→lt, ltb-false→le,
  take-append-drop,
}
use openbackup.Prelude.Result.{Result, ok, ◌>>=◌}
use openbackup.Text.{bytes_eq}
use openbackup.Text.Lemmas.{bytes_eq-eq}
use openbackup.Store.{Entry, Db, StoreError}
use openbackup.Store.Snapshots.{snapshot_chain}
use openbackup.Store.Tree.{TreeQuery, precedes, last_path, Page, cut_page, tree_range, row_limit}
use openbackup.Store.Tree.Order.{precedes_irrefl, precedes_trans, EntriesAscend}
use openbackup.Store.Tree.Below.{LowersAscii}
use openbackup.Store.Tree.Listing.{IsWanted, Asked-iff}
use openbackup.Prelude.Sets.{In}
use openbackup.Store.Tree.Page.{rows-Asked, Asked-rows, rows-EntriesAscend, suc_of, row_limit-pos}
use openbackup.Restore.Behind.{
  after, last-All, after-last, last_path-drop, at_cursor, all_rows, rows-after,
}
use openbackup.Restore.{has_bytes, finished, visit_all, run_loop, run}

visit_all-append :
    {R : Type 0} (visit : Entry → R → R) (es fs : List Entry) (r : R)
    → visit_all visit (es ++ fs) r ≡ visit_all visit fs (visit_all visit es r)
visit_all-append visit [] fs r = refl
visit_all-append visit (e ∷ es) fs r = visit_all-append visit es fs (visit e r)

after-All :
    (c : Bytes) (es : List Entry) → All (λ (e : Entry). precedes c e.path ≡ true) (after c es)
after-All c [] = tt
after-All c (e ∷ es) = at (Bool-cases (precedes c e.path)) (after-All c es)
  where
    at :
        (precedes c e.path ≡ true) ⊎ (precedes c e.path ≡ false)
        → All (λ (e : Entry). precedes c e.path ≡ true) (after c es)
        → All (λ (e : Entry). precedes c e.path ≡ true) (after c (e ∷ es))
    at (inl h) ih = rw (h, after) (h, ih)
    at (inr h) ih = rw (h, after) ih

-- The cursors that were followed come no later than the one that is followed now.
abbrev Followed : Bytes → List Bytes → Type 0
Followed c = All (λ s. (s ≡ c) ⊎ (precedes s c ≡ true))

Followed-next :
    (c d : Bytes) (seen : List Bytes)
    → precedes c d ≡ true
    → Followed c seen
    → (has_bytes d seen ≡ false) × Followed d (d ∷ seen)
Followed-next c d seen h f = (fresh seen f, (inl refl, behind seen f))
  where
    before : (s : Bytes) → (s ≡ c) ⊎ (precedes s c ≡ true) → precedes s d ≡ true
    before s (inl e) = subst (λ x. precedes x d ≡ true) (sym e) h
    before s (inr k) = precedes_trans s c d k h

    behind : (ss : List Bytes) → Followed c ss → All (λ s. (s ≡ d) ⊎ (precedes s d ≡ true)) ss
    behind [] f = tt
    behind (s ∷ ss) (g, gs) = (inr (before s g), behind ss gs)

    fresh : (ss : List Bytes) → Followed c ss → has_bytes d ss ≡ false
    fresh [] f = refl
    fresh (s ∷ ss) (g, gs) = at (Bool-cases (bytes_eq s d)) (before s g) (fresh ss gs)
      where
        at :
            (bytes_eq s d ≡ true) ⊎ (bytes_eq s d ≡ false)
            → precedes s d ≡ true
            → has_bytes d ss ≡ false
            → has_bytes d (s ∷ ss) ≡ false
        at (inr e) k ih = rw e ih
        at (inl e) k ih =
            let same : precedes s s ≡ true =
              subst (λ x. precedes s x ≡ true) (sym (bytes_eq-eq s d e)) k in
            let never = precedes_irrefl s in absurd (ground arith)

cut-whole : (n : ℕ) (xs : List Entry) → length xs ≤ n → cut_page n xs ≡ (xs, [])
unfolding cut_page
cut-whole n xs h =
    let all : take (suc n) xs ≡ xs = take_all (suc n) xs (omega (arith, h)) in
    let not_more : ltb n (length xs) ≡ false = ground arith in rw all (rw not_more refl)

cut-more :
    (n : ℕ) (xs : List Entry) → n < length xs → cut_page n xs ≡ (take n xs, last_path (take n xs))
unfolding cut_page
cut-more n xs h =
    let is_more : ltb n (length (take (suc n) xs)) ≡ true =
      lt→ltb n (length (take (suc n) xs)) (omega (arith, length-take (suc n) xs, h)) in
    rw is_more refl

cons_of : (xs : List Entry) → 0 < length xs → (x : Entry) × (rest : List Entry) × (xs ≡ x ∷ rest)
cons_of [] h = absurd (omega (arith, h))
cons_of (x ∷ xs) h = (x, xs, refl)

precedes-ne_nil : (c p : Bytes) → precedes c p ≡ true → is_empty p ≡ false
precedes-ne_nil [] [] h = cc
precedes-ne_nil (x ∷ c) [] h = cc
precedes-ne_nil c (y ∷ p) h = refl

module _ {E R : Type 0} (page : Bytes → Result E Page) (visit : Entry → R → R) where
  last-step :
      (fuel : ℕ) (c : Bytes) (seen : List Bytes) (r : R) (xs : List Entry)
      → page c ≡ ok (xs, [])
      → run_loop (suc fuel) page visit c seen r ≡ some (finished (visit_all visit xs r))
  unfolding run_loop
  last-step fuel c seen r [] h = rw (h, run_loop) refl
  last-step fuel c seen r (x ∷ xs) h = rw (h, run_loop) refl

  more-step :
      (fuel : ℕ) (c d : Bytes) (seen : List Bytes) (r : R) (x : Entry) (xs : List Entry)
      → page c ≡ ok (x ∷ xs, d)
      → is_empty d ≡ false
      → has_bytes d seen ≡ false
      → run_loop (suc fuel) page visit c seen r
        ≡ run_loop fuel page visit d (d ∷ seen) (visit_all visit (x ∷ xs) r)
  unfolding run_loop
  more-step fuel c d seen r x xs h e n = rw (h, run_loop) (rw (e, n) refl)

  -- The pages of an ascending list `all`, cut by a limit
  module _ (all : List Entry) (n : ℕ) (ascends : EntriesAscend all)
      (pages : (c : Bytes) → page c ≡ ok (cut_page (suc n) (after c all))) where
    -- One more page, behind which the loop goes on
    next_page :
        (fuel k : ℕ) (c : Bytes) (seen : List Bytes) (r : R)
        → after c all ≡ drop k all
        → Followed c seen
        → suc n < length (drop k all)
        → k + n < length all
        → let d = last_path (take (suc n) (drop k all)) in
          (run_loop (suc fuel) page visit c seen r
            ≡ run_loop fuel page visit d (d ∷ seen) (visit_all visit (take (suc n) (drop k all)) r))
          × (after d all ≡ drop (k + suc n) all)
          × Followed d (d ∷ seen)
    next_page fuel k c seen r here f long within =
        let (x, rest, e) = cons_of (drop k all) (omega (arith, long)) in
        let behind : All (λ (y : Entry). precedes c y.path ≡ true) (x ∷ rest) =
          subst (All (λ (y : Entry). precedes c y.path ≡ true)) (here ∙ e) (after-All c all) in
        let first : take (suc n) (drop k all) ≡ x ∷ take n rest = ap (take (suc n)) e in
        let d = last_path (take (suc n) (drop k all)) in
        let forward : precedes c d ≡ true =
          subst (λ l. precedes c (last_path (take (suc n) l)) ≡ true) (sym e)
            (last-All (λ p. precedes c p ≡ true) n x rest behind.0 behind.1) in
        let (fresh, f') = Followed-next c d seen forward f in
        let given : page c ≡ ok (x ∷ take n rest, d) =
          pages c
          ∙ ap (λ l. ok (cut_page (suc n) l)) here
          ∙ ap ok (cut-more (suc n) (drop k all) long)
          ∙ ap (λ l. ok (l, d)) first in
        (
          more-step fuel c d seen r x (take n rest) given (precedes-ne_nil c d forward) fresh
              ∙ ap (λ l. run_loop fuel page visit d (d ∷ seen) (visit_all visit l r)) (sym first),
          ap (λ p. after p all) (last_path-drop k n all within)
              ∙ after-last (k + n) all ascends within
              ∙ ap (λ m. drop m all) (shift k),
          f',
        )
      where
        shift : (k : ℕ) → suc (k + n) ≡ k + suc n
        shift k = omega arith

    run_loop-visits :
        (fuel k : ℕ) (c : Bytes) (seen : List Bytes) (r : R)
        → after c all ≡ drop k all
        → Followed c seen
        → k ≤ length all
        → length all < fuel + k
        → run_loop fuel page visit c seen r ≡ some (finished (visit_all visit (drop k all) r))
    run_loop-visits zero k c seen r here f within h = absurd (omega (arith, within, h))
    run_loop-visits (suc fuel) k c seen r here f within h =
        at (Bool-cases (ltb (suc n) (length (drop k all)))) (λ d seen' r' here' f' within'.
          run_loop-visits fuel (k + suc n) d seen' r' here' f' within' (omega (arith, h)))
      where
        halves :
            visit_all visit (drop k all) r
            ≡ visit_all visit (drop (k + suc n) all) (visit_all visit (take (suc n) (drop k all)) r)
        halves =
            ap (λ l. visit_all visit l r) (sym (take-append-drop (suc n) (drop k all)))
            ∙ visit_all-append visit (take (suc n) (drop k all)) (drop (suc n) (drop k all)) r
            ∙ ap (λ l. visit_all visit l (visit_all visit (take (suc n) (drop k all)) r))
                (drop-drop k (suc n) all)

        at :
            (ltb (suc n) (length (drop k all)) ≡ true) ⊎ (ltb (suc n) (length (drop k all)) ≡ false)
            → ((d : Bytes) (seen' : List Bytes) (r' : R)
                → after d all ≡ drop (k + suc n) all
                → Followed d seen'
                → k + suc n ≤ length all
                → run_loop fuel page visit d seen' r'
                  ≡ some (finished (visit_all visit (drop (k + suc n) all) r')))
            → run_loop (suc fuel) page visit c seen r
              ≡ some (finished (visit_all visit (drop k all) r))
        at (inr e) ih = last-step fuel c seen r (drop k all) (
            pages c
            ∙ ap (λ l. ok (cut_page (suc n) l)) here
            ∙ ap ok (cut-whole (suc n) (drop k all) (ltb-false→le (suc n) (length (drop k all)) e)))
        at (inl e) ih =
            let long : suc n < length (drop k all) = ltb→lt (suc n) (length (drop k all)) e in
            let (step, here', f') =
              next_page fuel k c seen r here f long (omega (arith, long, length-drop k all)) in
            step
            ∙ ih _ _ _ here' f' (omega (arith, long, length-drop k all))
            ∙ ap (λ x. some (finished x)) (sym halves)

module _ (to_lower : Bytes → Bytes) (db : Db) (id : String) (sid : String) (chain : List String)
    (q : TreeQuery) (resolves : snapshot_chain db id ≡ ok (sid ∷ chain)) where
  abbrev pub page_at : Bytes → Result StoreError Page
  page_at c = tree_range to_lower db id (at_cursor q c)

  abbrev asked : List Entry
  asked = all_rows to_lower db (sid ∷ chain) q

  page_at-cut : (c : Bytes) → page_at c ≡ ok (cut_page (row_limit q.limit) (after c asked))
  unfolding tree_range
  page_at-cut c =
      rw (resolves, ◌>>=◌)
        (ap (λ l. ok (cut_page (row_limit q.limit) l)) (rows-after to_lower db (sid ∷ chain) q c))

  asked-EntriesAscend : EntriesAscend asked
  asked-EntriesAscend = rows-EntriesAscend to_lower db (sid ∷ chain) (at_cursor q [])

  run-asked :
      {R : Type 0} (visit : Entry → R → R) (r : R)
      → run (suc (length asked)) page_at visit r ≡ some (finished (visit_all visit asked r))
  run-asked visit r =
      let (n, k) = suc_of (row_limit q.limit) (row_limit-pos q.limit) in
      run_loop-visits page_at visit asked n asked-EntriesAscend
        (λ c. page_at-cut c ∙ ap (λ l. ok (cut_page l (after c asked))) k) (suc (length asked)) 0 []
        [] r (sym (rows-after to_lower db (sid ∷ chain) q [])) tt (omega arith) (omega arith)

  -- A restore of a snapshot whose chain resolves ends without an error of its paging, whatever the
  -- size of the pages: it meets, in the ascending order of their paths and so each once, exactly the
  -- files that replaying the chain leaves at or below the prefix, with the text of the query (which
  -- is empty for a restore). One round for each of them, and one more, is enough.
  pub run-visits :
      {R : Type 0} (visit : Entry → R → R) (r : R)
      → LowersAscii to_lower q
      → (es : List Entry) × EntriesAscend es
        × ((e : Entry) → In e es ↔ IsWanted db (sid ∷ chain) (at_cursor q []) e)
        × (run (suc (length es)) page_at visit r ≡ some (finished (visit_all visit es r)))
  run-visits visit r low =
      let from_start : TreeQuery = at_cursor q [] in
      let same = Asked-iff db (sid ∷ chain) from_start to_lower low in
      (
        asked,
        asked-EntriesAscend,
        λ e. (
          λ i. (same e).0 (rows-Asked to_lower db (sid ∷ chain) from_start e i),
          λ w. Asked-rows to_lower db (sid ∷ chain) from_start e ((same e).1 w),
        ),
        run-asked visit r,
      )
