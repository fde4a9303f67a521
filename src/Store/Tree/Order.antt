-- ===== src/Store/Tree/Order.antt =====
-- internal/server/store/snapshots.go, `treeRange`: the order of paths, and rows in that order.
use openbackup.Prelude.{
  ℕ, zero, suc, ◌≡◌, ◌⊎◌, inl, inr, refl, sym, subst, Bool, true, false, Bytes, List, [], ◌∷◌,
  Option, none, some, arith, if◌then◌else◌, Bool-cases, Option-cases, take, drop, All, All-imp,
}
use openbackup.Prelude.Sets.{In, has, All-In}
use openbackup.Text.{bytes_eq}
use openbackup.Text.Lemmas.{bytes_eq-eq}
use openbackup.Store.{Entry, EntryRow}
use openbackup.Store.Tree.{precedes, insert_path, paths_in, collect, last_path}

pub precedes_irrefl : (p : Bytes) → precedes p p ≡ false
precedes_irrefl [] = refl
precedes_irrefl (c ∷ p) = ground (arith, precedes_irrefl p)

pub precedes_trans :
    (p q r : Bytes) → precedes p q ≡ true → precedes q r ≡ true → precedes p r ≡ true
precedes_trans [] [] r h k = cc
precedes_trans [] (d ∷ q) [] h k = cc
precedes_trans [] (d ∷ q) (x ∷ r) h k = refl
precedes_trans (c ∷ p) [] r h k = cc
precedes_trans (c ∷ p) (d ∷ q) [] h k = cc
precedes_trans (c ∷ p) (d ∷ q) (x ∷ r) h k = ground (arith, precedes_trans p q r)

precedes-total : (p q : Bytes) → bytes_eq p q ≡ false → precedes p q ≡ false → precedes q p ≡ true
precedes-total [] [] h k = cc
precedes-total [] (d ∷ q) h k = cc
precedes-total (c ∷ p) [] h k = refl
precedes-total (c ∷ p) (d ∷ q) h k = ground (arith, precedes-total p q)

-- Each path is before all that follow it.
abbrev pub IsAscending : List Bytes → Type 0
IsAscending [] = Unit
IsAscending (p ∷ ps) = All (λ q. precedes p q ≡ true) ps × IsAscending ps

abbrev pub EntriesAscend : List Entry → Type 0
EntriesAscend [] = Unit
EntriesAscend (e ∷ es) = All (λ (f : Entry). precedes e.path f.path ≡ true) es × EntriesAscend es

abbrev Below : Bytes → List Bytes → Type 0
Below p ps = All (λ q. precedes p q ≡ true) ps

Below-insert :
    (p q : Bytes) (qs : List Bytes) → precedes p q ≡ true → Below p qs → Below p (insert_path q qs)
unfolding insert_path
Below-insert p q [] h k = (h, tt)
Below-insert p q (x ∷ qs) h (k, ks) = at (bytes_eq q x) (precedes q x) (Below-insert p q qs h ks)
  where
    at :
        (b c : Bool)
        → Below p (insert_path q qs)
        → Below p (if b then x ∷ qs else if c then q ∷ x ∷ qs else x ∷ insert_path q qs)
    at true c ih = (k, ks)
    at false true ih = (h, (k, ks))
    at false false ih = (k, ih)

insert_path-IsAscending :
    (p : Bytes) (qs : List Bytes) → IsAscending qs → IsAscending (insert_path p qs)
unfolding insert_path
insert_path-IsAscending p [] h = (tt, tt)
insert_path-IsAscending p (q ∷ qs) (h, hs) =
    at (Bool-cases (bytes_eq p q)) (Bool-cases (precedes p q)) (insert_path-IsAscending p qs hs)
  where
    at :
        (bytes_eq p q ≡ true) ⊎ (bytes_eq p q ≡ false)
        → (precedes p q ≡ true) ⊎ (precedes p q ≡ false)
        → IsAscending (insert_path p qs)
        → IsAscending (insert_path p (q ∷ qs))
    at (inl e) c ih = rw e (h, hs)
    at (inr e) (inl k) ih =
        rw e (rw k ((k, All-imp _ _ qs (λ x l. precedes_trans p q x k l) h), (h, hs)))
    at (inr e) (inr k) ih = rw e (rw k (Below-insert q p qs (precedes-total p q e k) h, ih))

insert_path-In_self : (p : Bytes) (qs : List Bytes) → In p (insert_path p qs)
unfolding insert_path
insert_path-In_self p [] = inl refl
insert_path-In_self p (q ∷ qs) =
    at (Bool-cases (bytes_eq p q)) (precedes p q) (insert_path-In_self p qs)
  where
    at :
        (bytes_eq p q ≡ true) ⊎ (bytes_eq p q ≡ false)
        → (c : Bool) → In p (insert_path p qs)
        → In p (if bytes_eq p q then q ∷ qs else if c then p ∷ q ∷ qs else q ∷ insert_path p qs)
    at (inl e) c ih = rw e (inl (sym (bytes_eq-eq p q e)))
    at (inr e) true ih = rw e (inl refl)
    at (inr e) false ih = rw e (inr ih)

In-insert_path : (a p : Bytes) (qs : List Bytes) → In a qs → In a (insert_path p qs)
unfolding insert_path
In-insert_path a p [] i = absurd i
In-insert_path a p (q ∷ qs) i = at (bytes_eq p q) (precedes p q) i (In-insert_path a p qs)
  where
    at :
        (b c : Bool)
        → (q ≡ a) ⊎ In a qs
        → (In a qs → In a (insert_path p qs))
        → In a (if b then q ∷ qs else if c then p ∷ q ∷ qs else q ∷ insert_path p qs)
    at true c i ih = i
    at false true i ih = inr i
    at false false (inl e) ih = inl e
    at false false (inr j) ih = inr (ih j)

pub paths_in-IsAscending :
    (chain : List _) (rows : List EntryRow) → IsAscending (paths_in chain rows)
unfolding paths_in
paths_in-IsAscending chain [] = tt
paths_in-IsAscending chain (r ∷ rs) = at (has r.snapshot chain) (paths_in-IsAscending chain rs)
  where
    at :
        (b : Bool)
        → IsAscending (paths_in chain rs)
        → IsAscending
            (if b then insert_path r.entry.path (paths_in chain rs) else paths_in chain rs)
    at true ih = insert_path-IsAscending r.entry.path (paths_in chain rs) ih
    at false ih = ih

pub In-paths_in :
    (chain : List _) (rows : List EntryRow) (r : EntryRow)
    → In r rows
    → has r.snapshot chain ≡ true
    → In r.entry.path (paths_in chain rows)
unfolding paths_in
In-paths_in chain [] r i h = absurd i
In-paths_in chain (x ∷ rs) r (inl e) h =
    subst
      (λ (r : EntryRow). has r.snapshot chain ≡ true → In r.entry.path (paths_in chain (x ∷ rs))) e
      (λ k. rw k (insert_path-In_self x.entry.path (paths_in chain rs))) h
In-paths_in chain (x ∷ rs) r (inr i) h = at (has x.snapshot chain) (In-paths_in chain rs r i h)
  where
    at :
        (b : Bool)
        → In r.entry.path (paths_in chain rs)
        → In r.entry.path
            (if b then insert_path x.entry.path (paths_in chain rs) else paths_in chain rs)
    at true ih = In-insert_path r.entry.path x.entry.path (paths_in chain rs) ih
    at false ih = ih

-- What is collected from ascending paths ascends, where a path gives its own entry.
module _ (f : Bytes → Option Entry)
    (own : (p : Bytes) (e : Entry) → f p ≡ some e → e.path ≡ p) where
  collect-Below :
      (p : Bytes) (ps : List Bytes)
      → Below p ps
      → All (λ (e : Entry). precedes p e.path ≡ true) (collect f ps)
  collect-Below p [] h = tt
  collect-Below p (q ∷ ps) (h, hs) = at (Option-cases (f q)) (collect-Below p ps hs)
    where
      at :
          (f q ≡ none) ⊎ ((e : Entry) × (f q ≡ some e))
          → All (λ (e : Entry). precedes p e.path ≡ true) (collect f ps)
          → All (λ (e : Entry). precedes p e.path ≡ true) (collect f (q ∷ ps))
      at (inl k) ih = rw (k, collect) ih
      at (inr (e, k)) ih =
          rw (k, collect) (subst (λ x. precedes p x ≡ true) (sym (own q e k)) h, ih)

  pub collect-EntriesAscend : (ps : List Bytes) → IsAscending ps → EntriesAscend (collect f ps)
  collect-EntriesAscend [] h = tt
  collect-EntriesAscend (q ∷ ps) (h, hs) = at (Option-cases (f q)) (collect-EntriesAscend ps hs)
    where
      at :
          (f q ≡ none) ⊎ ((e : Entry) × (f q ≡ some e))
          → EntriesAscend (collect f ps)
          → EntriesAscend (collect f (q ∷ ps))
      at (inl k) ih = rw (k, collect) ih
      at (inr (e, k)) ih =
          rw (k, collect)
            (
              subst (λ x. All (λ (g : Entry). precedes x g.path ≡ true) (collect f ps))
                  (sym (own q e k)) (collect-Below q ps h),
              ih,
            )

  pub collect-In : (e : Entry) (ps : List Bytes) → In e (collect f ps) → f e.path ≡ some e
  collect-In e [] i = absurd i
  collect-In e (q ∷ ps) i = at (Option-cases (f q)) i (collect-In e ps)
    where
      at :
          (f q ≡ none) ⊎ ((d : Entry) × (f q ≡ some d))
          → In e (collect f (q ∷ ps))
          → (In e (collect f ps) → f e.path ≡ some e)
          → f e.path ≡ some e
      at (inl k) i ih = ih (rw (k, collect) at i)
      at (inr (d, k)) i ih = split (rw (k, collect) at i)
        where
          split : (d ≡ e) ⊎ In e (collect f ps) → f e.path ≡ some e
          split (inl q') =
              subst (λ (x : Entry). f x.path ≡ some x) q'
                (subst (λ p. f p ≡ some d) (sym (own q d k)) k)
          split (inr j) = ih j

  pub In-collect :
      (e : Entry) (p : Bytes) (ps : List Bytes) → In p ps → f p ≡ some e → In e (collect f ps)
  In-collect e p [] i h = absurd i
  In-collect e p (q ∷ ps) (inl k) h =
      let h' : f q ≡ some e = subst (λ x. f x ≡ some e) (sym k) h in rw (h', collect) (inl refl)
  In-collect e p (q ∷ ps) (inr i) h = at (f q) (In-collect e p ps i h)
    where
      at :
          (o : Option Entry)
          → In e (collect f ps)
          → In e (elim o [ none ↦ collect f ps | some x ↦ x ∷ collect f ps ])
      at none ih = ih
      at (some x) ih = inr ih

-- What is behind the first `n` of ascending rows comes after the last of them.
pub In-take-drop :
    {A : Type 0} (n : ℕ) (a : A) (xs : List A) → In a xs → In a (take n xs) ⊎ In a (drop n xs)
In-take-drop zero a xs i = inr i
In-take-drop (suc n) a [] i = absurd i
In-take-drop (suc n) a (x ∷ xs) (inl e) = inl (inl e)
In-take-drop (suc n) a (x ∷ xs) (inr i) = onto (In-take-drop n a xs i)
  where
    onto : In a (take n xs) ⊎ In a (drop n xs) → In a (x ∷ take n xs) ⊎ In a (drop n xs)
    onto (inl j) = inl (inr j)
    onto (inr j) = inr j

pub drop-In : {A : Type 0} (n : ℕ) (a : A) (xs : List A) → In a (drop n xs) → In a xs
drop-In zero a xs i = i
drop-In (suc n) a [] i = absurd i
drop-In (suc n) a (x ∷ xs) i = inr (drop-In n a xs i)

pub take-In : {A : Type 0} (n : ℕ) (a : A) (xs : List A) → In a (take n xs) → In a xs
take-In zero a xs i = absurd i
take-In (suc n) a [] i = absurd i
take-In (suc n) a (x ∷ xs) (inl e) = inl e
take-In (suc n) a (x ∷ xs) (inr i) = inr (take-In n a xs i)

pub last-precedes :
    (n : ℕ) (e : Entry) (es : List Entry)
    → EntriesAscend es
    → In e (drop (suc n) es)
    → precedes (last_path (take (suc n) es)) e.path ≡ true
last-precedes n e [] h i = absurd i
last-precedes zero e (x ∷ es) (h, hs) i =
    All-In (λ (f : Entry). precedes x.path f.path ≡ true) e es h i
last-precedes (suc n) e (x ∷ []) (h, hs) i = absurd i
last-precedes (suc n) e (x ∷ y ∷ es) (h, hs) i = last-precedes n e (y ∷ es) hs i

take-Below :
    (n : ℕ) (p : Bytes) (es : List Entry)
    → All (λ (f : Entry). precedes p f.path ≡ true) es
    → All (λ (f : Entry). precedes p f.path ≡ true) (take n es)
take-Below zero p es h = tt
take-Below (suc n) p [] h = tt
take-Below (suc n) p (e ∷ es) (h, hs) = (h, take-Below n p es hs)

pub take-EntriesAscend : (n : ℕ) (es : List Entry) → EntriesAscend es → EntriesAscend (take n es)
take-EntriesAscend zero es h = tt
take-EntriesAscend (suc n) [] h = tt
take-EntriesAscend (suc n) (e ∷ es) (h, hs) = (take-Below n e.path es h, take-EntriesAscend n es hs)
