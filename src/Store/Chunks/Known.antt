-- ===== src/Store/Chunks/Known.antt =====
-- internal/server/store/chunks.go, `MissingChunks`: what an agent is asked to upload.
use openbackup.Prelude.{
  ◌≡◌, ◌↔◌, ◌⊎◌, inl, inr, refl, sym, ap, subst, ◌∙◌, true, false, String, List, [], ◌∷◌, some,
  arith, str_eq, eq_iff, Bool-cases, if_cases,
}
use mathlib.Core.Bool.{false≢true}
use openbackup.Prelude.Sets.{has, In, str_eq_refl}
use openbackup.Store.{Snapshot, RefRow, Db, find_in, find_snapshot, refs_of}
use openbackup.Store.Chunks.{
  snapshot_has, account_chunk_known, present_of, missing_loop, missing_chunks,
}

present_of_iff :
    (db : Db) (user d : String) (ds : List String)
    → (has d (present_of db user ds) ≡ true)
      ↔ ((has d ds ≡ true) × (account_chunk_known db user d ≡ true))
unfolding present_of
present_of_iff db user d [] = ground arith
present_of_iff db user d (x ∷ ds) =
    at (Bool-cases (str_eq x d)) (Bool-cases (account_chunk_known db user x))
      (present_of_iff db user d ds)
  where
    Goal : Type 0
    Goal =
        (has d (present_of db user (x ∷ ds)) ≡ true)
        ↔ ((has d (x ∷ ds) ≡ true) × (account_chunk_known db user d ≡ true))

    at :
        (str_eq x d ≡ true) ⊎ (str_eq x d ≡ false)
        → (account_chunk_known db user x ≡ true) ⊎ (account_chunk_known db user x ≡ false)
        → (has d (present_of db user ds) ≡ true)
          ↔ ((has d ds ≡ true) × (account_chunk_known db user d ≡ true))
        → (has d (present_of db user (x ∷ ds)) ≡ true)
          ↔ ((has d (x ∷ ds) ≡ true) × (account_chunk_known db user d ≡ true))
    at (inl e) (inl k) (to, from) =
        let k' : account_chunk_known db user d ≡ true =
          subst (λ y. account_chunk_known db user y ≡ true) ((eq_iff x d).0 e) k in
        rw (k, present_of) (rw e (λ h. (refl, k'), λ h. refl))
    at (inl e) (inr k) (to, from) =
        let k' : account_chunk_known db user d ≡ false =
          subst (λ y. account_chunk_known db user y ≡ false) ((eq_iff x d).0 e) k in
        rw (k, present_of)
          (rw e (
            λ h. absurd (false≢true (sym k' ∙ (to h).1)),
            λ (h, l). absurd (false≢true (sym k' ∙ l)),
          ))
    at (inr e) (inl k) ih = rw (k, present_of) (rw e ih)
    at (inr e) (inr k) ih = rw (k, present_of) (rw e ih)

-- The loop returns what is neither present nor seen, each digest once.
missing_loop_iff :
    (present seen : List String) (d : String) (ds : List String)
    → (has d (missing_loop present seen ds) ≡ true)
      ↔ ((has d ds ≡ true) × (has d present ≡ false) × (has d seen ≡ false))
unfolding missing_loop
missing_loop_iff present seen d [] = ground arith
missing_loop_iff present seen d (x ∷ ds) =
    let a = missing_loop_iff present seen d ds in
    let b = missing_loop_iff present (x ∷ seen) d ds in
    let p : str_eq x d ≡ true → has x present ≡ has d present =
      λ e. ap (λ y. has y present) ((eq_iff x d).0 e) in
    let q : str_eq x d ≡ true → has x seen ≡ has d seen =
      λ e. ap (λ y. has y seen) ((eq_iff x d).0 e) in
    ground (arith, a, b, p, q)

-- An agent is asked to upload exactly those of its digests that its account does not know: that the
-- account has not registered, and that no snapshot of the account references.
pub missing_chunks_iff :
    (db : Db) (user d : String) (ds : List String)
    → (has d (missing_chunks db user ds) ≡ true)
      ↔ ((has d ds ≡ true) × (account_chunk_known db user d ≡ false))
unfolding missing_chunks
missing_chunks_iff db user d ds =
    ground (arith, missing_loop_iff (present_of db user ds) [] d ds, present_of_iff db user d ds)

missing_loop-unseen :
    (present seen : List String) (d : String) (ds : List String)
    → has d seen ≡ true
    → has d (missing_loop present seen ds) ≡ false
missing_loop-unseen present seen d ds h =
    let a = missing_loop_iff present seen d ds in ground (arith, a)

-- No digest is listed twice.
abbrev pub IsDistinct : List String → Type 0
IsDistinct [] = Unit
IsDistinct (d ∷ ds) = (has d ds ≡ false) × IsDistinct ds

missing_loop-IsDistinct :
    (present seen ds : List String) → IsDistinct (missing_loop present seen ds)
unfolding missing_loop
missing_loop-IsDistinct present seen [] = tt
missing_loop-IsDistinct present seen (x ∷ ds) =
    if_cases IsDistinct (has x present) _ _ (λ e. missing_loop-IsDistinct present seen ds)
      (λ e.
        if_cases IsDistinct (has x seen) _ _ (λ e. missing_loop-IsDistinct present seen ds)
          (λ e. (
            missing_loop-unseen present (x ∷ seen) x ds (rw (str_eq_refl x)),
            missing_loop-IsDistinct present (x ∷ seen) ds,
          )))

-- The answer to an agent lists no digest twice.
pub missing_chunks-IsDistinct :
    (db : Db) (user : String) (ds : List String) → IsDistinct (missing_chunks db user ds)
unfolding missing_chunks
missing_chunks-IsDistinct db user ds = missing_loop-IsDistinct (present_of db user ds) [] ds

snapshot_has-refs :
    (user d : String) (s : Snapshot) (ss : List Snapshot) (rs : List RefRow)
    → find_in s.id ss ≡ some s
    → str_eq s.user user ≡ true
    → In d (refs_of s.id rs)
    → snapshot_has user d ss rs ≡ true
unfolding snapshot_has refs_of
snapshot_has-refs user d s ss [] f own i = absurd i
snapshot_has-refs user d s ss (r ∷ rs) f own i =
    at (Bool-cases (str_eq r.snapshot s.id)) (snapshot_has-refs user d s ss rs f own)
  where
    later : snapshot_has user d ss rs ≡ true → snapshot_has user d ss (r ∷ rs) ≡ true
    later h = ground arith

    first :
        str_eq r.snapshot s.id ≡ true
        → In d (r.digest ∷ refs_of s.id rs)
        → (In d (refs_of s.id rs) → snapshot_has user d ss rs ≡ true)
        → snapshot_has user d ss (r ∷ rs) ≡ true
    first e (inr j) ih = later (ih j)
    first e (inl q) ih =
        let same : find_in r.snapshot ss ≡ some s =
          ap (λ y. find_in y ss) ((eq_iff r.snapshot s.id).0 e) ∙ f in
        let hit : str_eq r.digest d ≡ true = (eq_iff r.digest d).1 q in
        rw hit (rw same (rw own refl))

    at :
        (str_eq r.snapshot s.id ≡ true) ⊎ (str_eq r.snapshot s.id ≡ false)
        → (In d (refs_of s.id rs) → snapshot_has user d ss rs ≡ true)
        → snapshot_has user d ss (r ∷ rs) ≡ true
    at (inl e) ih = first e (rw (e, refs_of) at i) ih
    at (inr e) ih = later (ih (rw (e, refs_of) at i))

-- A digest that a snapshot of the account references is not asked for, even where no upload of it
-- was ever registered.
pub missing_chunks-referenced :
    (db : Db) (user d : String) (s : Snapshot) (ds : List String)
    → find_snapshot db s.id ≡ some s
    → s.user ≡ user
    → In d (refs_of s.id db.refs)
    → has d (missing_chunks db user ds) ≡ false
unfolding account_chunk_known
missing_chunks-referenced db user d s ds f own i =
    let known : account_chunk_known db user d ≡ true =
      ground
        (arith, snapshot_has-refs user d s db.snapshots db.refs f ((eq_iff s.user user).1 own) i) in
    let a = missing_chunks_iff db user d ds in ground (arith, a)
