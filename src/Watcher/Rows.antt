-- ===== src/Watcher/Rows.antt =====
-- internal/agent/watcher/watcher.go: the map of pending changes.
use openbackup.Prelude.{
  ◌≡◌, ◌⊎◌, inl, inr, refl, subst, ap, true, false, ◌||◌, Bytes, List, [], ◌∷◌, ◌++◌, arith,
  Bool-cases, if◌then◌else◌,
}
use openbackup.Text.{bytes_eq}
use openbackup.Text.Lemmas.{bytes_eq-eq, bytes_eq_refl}
use openbackup.Watcher.{Change, put_change, mentions, put_back}

pub put_change-mentions : (c : Change) (ds : List Change) → mentions c.path (put_change c ds) ≡ true
unfolding mentions put_change
put_change-mentions c [] = rw (bytes_eq_refl c.path) refl
put_change-mentions c (d ∷ ds) = ground (arith, bytes_eq_refl c.path, put_change-mentions c ds)

pub put_change-keeps :
    (p : Bytes) (c : Change) (ds : List Change)
    → mentions p ds ≡ true
    → mentions p (put_change c ds) ≡ true
unfolding mentions put_change
put_change-keeps p c [] h = cc
put_change-keeps p c (d ∷ ds) h = at (Bool-cases (bytes_eq d.path c.path)) (put_change-keeps p c ds)
  where
    at :
        (bytes_eq d.path c.path ≡ true) ⊎ (bytes_eq d.path c.path ≡ false)
        → (mentions p ds ≡ true → mentions p (put_change c ds) ≡ true)
        → mentions p (put_change c (d ∷ ds)) ≡ true
    at (inl e) ih =
        rw e (subst (λ x. (bytes_eq x p || mentions p ds) ≡ true) (bytes_eq-eq d.path c.path e) h)
    at (inr e) ih = rw e (ground arith)

pub mentions-append :
    (p : Bytes) (cs ds : List Change) → mentions p (cs ++ ds) ≡ (mentions p cs || mentions p ds)
unfolding mentions
mentions-append p [] ds = refl
mentions-append p (c ∷ cs) ds = ground (arith, mentions-append p cs ds)

-- What was taken is there again, beside what has come meanwhile.
pub put_back-mentions :
    (p : Bytes) (batch pending : List Change)
    → (mentions p batch || mentions p pending) ≡ true
    → mentions p (put_back batch pending) ≡ true
unfolding mentions put_back
put_back-mentions p [] pending h = h
put_back-mentions p (c ∷ batch) pending h =
    put_back-mentions p batch next (at (Bool-cases (mentions c.path pending)))
  where
    next : List Change
    next = if mentions c.path pending then pending else pending ++ c ∷ []

    same : bytes_eq c.path p ≡ true → mentions c.path pending ≡ mentions p pending
    same e = ap (λ x. mentions x pending) (bytes_eq-eq c.path p e)

    at :
        (mentions c.path pending ≡ true) ⊎ (mentions c.path pending ≡ false)
        → (mentions p batch || mentions p next) ≡ true
    at (inl e) = rw e (known (Bool-cases (bytes_eq c.path p)))
      where
        known :
            (bytes_eq c.path p ≡ true) ⊎ (bytes_eq c.path p ≡ false)
            → (mentions p batch || mentions p pending) ≡ true
        known (inl q) = ground (arith, same q)
        known (inr q) = ground arith
    at (inr e) = rw e (ground (arith, mentions-append p pending (c ∷ [])))
