-- ===== src/Restore/Found.antt =====
-- internal/agent/restore/restore.go, `FindSnapshot`: what a reference is resolved to.
use openbackup.Prelude.{
  ◌≤◌, ◌≡◌, ◌↔◌, Bytes, codes, ◌⊎◌, inl, inr, refl, sym, ap, subst, ◌∙◌, true, false, String, List,
  [], ◌∷◌, ◌++◌, append_assoc, arith, ltb, str_eq, eq_iff, if◌then◌else◌, if_cases, Bool-cases,
}
use openbackup.Prelude.Result.{Result, ok, ok-injective, err-ne-ok}
use openbackup.Prelude.Sets.{select, In, select-In, In-select, In-append, append-In}
use openbackup.Store.{Snapshot, complete}
use openbackup.Restore.Find.{
  starts, FindError, has_prefix, done, newest, one_match, match_loop, is_latest, resolve,
  find_snapshot,
}

newest-greatest :
    (best : Snapshot) (ss : List Snapshot)
    → let found = newest best ss in
      (best.started ≤ found.started)
      × ((t : Snapshot) → In t ss → t.started ≤ found.started)
      × ((found ≡ best) ⊎ In found ss)
unfolding newest
newest-greatest best [] = (omega arith, λ t i. absurd i, inl refl)
newest-greatest best (s ∷ ss) =
    let next = if ltb best.started s.started then s else best in
    let (over, others, from) = newest-greatest next ss in
    let (best_le, s_le, either) = later_of best s in
    (
      omega (arith, best_le, over),
      λ t i. of_rest t next (newest next ss) s_le over others i,
      origin next (newest next ss) either from,
    )
  where
    later_of :
        (best s : Snapshot)
        → let next = if ltb best.started s.started then s else best in
          (best.started ≤ next.started) × (s.started ≤ next.started) × ((next ≡ s) ⊎ (next ≡ best))
    later_of best s = at (Bool-cases (ltb best.started s.started))
      where
        at :
            (ltb best.started s.started ≡ true) ⊎ (ltb best.started s.started ≡ false)
            → let next = if ltb best.started s.started then s else best in
              (best.started ≤ next.started)
              × (s.started ≤ next.started)
              × ((next ≡ s) ⊎ (next ≡ best))
        at (inl e) =
            let h : best.started ≤ s.started = ground arith in rw e (h, omega arith, inl refl)
        at (inr e) =
            let h : s.started ≤ best.started = ground arith in rw e (omega arith, h, inr refl)

    of_rest :
        (t next found : Snapshot)
        → s.started ≤ next.started
        → next.started ≤ found.started
        → ((u : Snapshot) → In u ss → u.started ≤ found.started)
        → (s ≡ t) ⊎ In t ss
        → t.started ≤ found.started
    of_rest t next found a b others (inl e) =
        subst (λ (u : Snapshot). u.started ≤ found.started) e (omega (arith, a, b))
    of_rest t next found a b others (inr i) = others t i

    origin :
        (next found : Snapshot)
        → (next ≡ s) ⊎ (next ≡ best)
        → (found ≡ next) ⊎ In found ss
        → (found ≡ best) ⊎ (s ≡ found) ⊎ In found ss
    origin next found (inl e) (inl f) = inr (inl (sym (f ∙ e)))
    origin next found (inr e) (inl f) = inl (f ∙ e)
    origin next found e (inr i) = inr (inr i)

-- Its id begins with the reference.
abbrev pub BeginsWith : String → Snapshot → Type 0
BeginsWith ref s = (rest : Bytes) × (codes s.id ≡ codes ref ++ rest)

starts-append : (p s : Bytes) → starts p s ≡ true → (rest : Bytes) × (s ≡ p ++ rest)
starts-append [] s h = (s, refl)
starts-append (c ∷ p) [] h = cc
starts-append (c ∷ p) (d ∷ s) h =
    let same : c ≡ d = ground arith in
    let (rest, e) = starts-append p s (ground arith) in (rest, rw same (ap (λ l. d ∷ l) e))

append-starts : (p rest : Bytes) → starts p (p ++ rest) ≡ true
append-starts [] rest = refl
append-starts (c ∷ p) rest = ground (arith, append-starts p rest)

has_prefix-BeginsWith : (ref : String) (s : Snapshot) → (has_prefix s ref ≡ true) ↔ BeginsWith ref s
has_prefix-BeginsWith ref s = (
  starts-append (codes ref) (codes s.id),
  λ (rest, e). subst (λ x. starts (codes ref) x ≡ true) (sym e) (append-starts (codes ref) rest),
)

-- The only completed snapshot whose id begins with the reference
abbrev pub IsOnly : List Snapshot → String → Snapshot → Type 0
IsOnly snapshots ref s =
    BeginsWith ref s
    × ((t : Snapshot) → In t snapshots → t.status ≡ complete → BeginsWith ref t → t ≡ s)

abbrev pub MeansNewest : String → Type 0
MeansNewest ref = (ref ≡ "") ⊎ (ref ≡ "latest")

-- What a reference resolves to
pub record IsFound (snapshots : List Snapshot) (ref : String) (s : Snapshot) : Type 0 where
  pub listed : In s snapshots
  pub is_done : s.status ≡ complete
  pub newest_of :
      MeansNewest ref
      → (t : Snapshot) → In t snapshots
      → t.status ≡ complete
      → t.started ≤ s.started
  pub named : ¬ MeansNewest ref → (s.id ≡ ref) ⊎ IsOnly snapshots ref s

abbrev Meant : String → List Snapshot → Snapshot → Type 0
Meant ref ss s =
    In s ss
    × ((s.id ≡ ref)
        ⊎ ((has_prefix s ref ≡ true)
            × ((t : Snapshot) → In t ss → has_prefix t ref ≡ true → t ≡ s)))

one_match-only : (ms : List Snapshot) (s : Snapshot) → one_match ms ≡ ok s → ms ≡ s ∷ []
one_match-only [] s h = absurd (err-ne-ok h)
one_match-only (m ∷ []) s h = ap (λ x. x ∷ []) (ok-injective h)
one_match-only (m ∷ n ∷ ms) s h = absurd (err-ne-ok h)

-- `seen` is what the loop has passed, and `ms` what has matched of it.
match_loop-Meant :
    (ref : String) (seen ms ss : List Snapshot) (s : Snapshot)
    → ((t : Snapshot) → In t seen → has_prefix t ref ≡ true → In t ms)
    → ((t : Snapshot) → In t ms → In t seen × (has_prefix t ref ≡ true))
    → match_loop ref ms ss ≡ ok s
    → Meant ref (seen ++ ss) s
unfolding match_loop
match_loop-Meant ref seen ms [] s keeps from h =
    let only = one_match-only ms s h in
    let in_ms : In s ms = subst (In s) (sym only) (inl refl) in
    (
      In-append s seen [] (inl (from s in_ms).0),
      inr (
        (from s in_ms).1,
        λ t i p. alone t (subst (In t) only (keeps t (left t (append-In t seen [] i)) p)),
      ),
    )
  where
    left : (t : Snapshot) → In t seen ⊎ In t [] → In t seen
    left t (inl i) = i
    left t (inr i) = absurd i

    alone : (t : Snapshot) → In t (s ∷ []) → t ≡ s
    alone t (inl e) = sym e
    alone t (inr i) = absurd i
match_loop-Meant ref seen ms (x ∷ ss) s keeps from h =
    at (Bool-cases (str_eq x.id ref))
      (λ k k' q. match_loop-Meant ref (seen ++ x ∷ []) next ss s k k' q)
  where
    next : List Snapshot
    next = if has_prefix x ref then ms ++ x ∷ [] else ms

    keeps' : (t : Snapshot) → In t (seen ++ x ∷ []) → has_prefix t ref ≡ true → In t next
    keeps' t i p = by (append-In t seen (x ∷ []) i)
      where
        by : In t seen ⊎ In t (x ∷ []) → In t next
        by (inl j) =
            if_cases (In t) (has_prefix x ref) _ _
              (λ e. In-append t ms (x ∷ []) (inl (keeps t j p))) (λ e. keeps t j p)
        by (inr (inl e)) =
            let p' : has_prefix x ref ≡ true =
              subst (λ (u : Snapshot). has_prefix u ref ≡ true) (sym e) p in
            rw p' (In-append t ms (x ∷ []) (inr (inl e)))
        by (inr (inr j)) = absurd j

    from' : (t : Snapshot) → In t next → In t (seen ++ x ∷ []) × (has_prefix t ref ≡ true)
    from' t i =
        if_cases (λ l. In t l → In t (seen ++ x ∷ []) × (has_prefix t ref ≡ true))
          (has_prefix x ref) _ _ (λ e j. by e (append-In t ms (x ∷ []) j)) (λ e j. old j) i
      where
        old : In t ms → In t (seen ++ x ∷ []) × (has_prefix t ref ≡ true)
        old j = let (k, p) = from t j in (In-append t seen (x ∷ []) (inl k), p)

        by :
            has_prefix x ref ≡ true
            → In t ms ⊎ In t (x ∷ [])
            → In t (seen ++ x ∷ []) × (has_prefix t ref ≡ true)
        by e (inl j) = old j
        by e (inr (inl q)) = (
          In-append t seen (x ∷ []) (inr (inl q)),
          subst (λ (u : Snapshot). has_prefix u ref ≡ true) q e,
        )
        by e (inr (inr j)) = absurd j

    at :
        (str_eq x.id ref ≡ true) ⊎ (str_eq x.id ref ≡ false)
        → (((t : Snapshot) → In t (seen ++ x ∷ []) → has_prefix t ref ≡ true → In t next)
            → ((t : Snapshot) → In t next → In t (seen ++ x ∷ []) × (has_prefix t ref ≡ true))
            → match_loop ref next ss ≡ ok s
            → Meant ref ((seen ++ x ∷ []) ++ ss) s)
        → Meant ref (seen ++ x ∷ ss) s
    at (inl e) ih =
        let same : x ≡ s = ok-injective (rw (e, match_loop) at h) in
        (
          In-append s seen (x ∷ ss) (inr (inl same)),
          inl (subst (λ (u : Snapshot). u.id ≡ ref) same ((eq_iff x.id ref).0 e)),
        )
    at (inr e) ih =
        subst (λ l. Meant ref l s) (append_assoc seen (x ∷ []) ss)
          (ih keeps' from' (rw (e, match_loop) at h))

done_iff : (s : Snapshot) → (done s ≡ true) ↔ (s.status ≡ complete)
done_iff s = (λ h. ground arith, λ h. ground arith)

is_latest_iff : (ref : String) → (is_latest ref ≡ true) ↔ MeansNewest ref
is_latest_iff ref = (to, from)
  where
    to : is_latest ref ≡ true → MeansNewest ref
    to h = at (Bool-cases (str_eq ref ""))
      where
        at : (str_eq ref "" ≡ true) ⊎ (str_eq ref "" ≡ false) → MeansNewest ref
        at (inl e) = inl ((eq_iff ref "").0 e)
        at (inr e) = inr ((eq_iff ref "latest").0 (ground arith))

    from : MeansNewest ref → is_latest ref ≡ true
    from (inl e) = let t = (eq_iff ref "").1 e in ground arith
    from (inr e) = let t = (eq_iff ref "latest").1 e in ground arith

-- A reference that is resolved means a completed snapshot: the newest, for the empty one and for
-- "latest"; otherwise one with that id, or one whose id begins with it where that of no other
-- completed snapshot does.
pub find_snapshot-IsFound :
    (snapshots : List Snapshot) (ref : String) (s : Snapshot)
    → find_snapshot snapshots ref ≡ ok s
    → IsFound snapshots ref s
unfolding find_snapshot
find_snapshot-IsFound snapshots ref s h =
    at (select done snapshots) (λ t. select-In done t snapshots)
      (λ t i d. In-select done t snapshots d i) h
  where
    at :
        (ss : List Snapshot)
        → ((t : Snapshot) → In t ss → In t snapshots × (done t ≡ true))
        → ((t : Snapshot) → In t snapshots → done t ≡ true → In t ss)
        → resolve ref ss ≡ ok s
        → IsFound snapshots ref s
    at [] from to q = absurd (err-ne-ok q)
    at (x ∷ ss) from to q =
        if_cases (λ (r : Result FindError Snapshot). r ≡ ok s → IsFound snapshots ref s)
          (is_latest ref) _ _ latest by_id q
      where
        latest :
            is_latest ref ≡ true
            → ◌≡◌ {A = Result FindError Snapshot} (ok (newest x (x ∷ ss))) (ok s)
            → IsFound snapshots ref s
        latest e k =
            let (over, others, origin) = newest-greatest x (x ∷ ss) in
            let same = ok-injective k in
            let among : In (newest x (x ∷ ss)) (x ∷ ss) = listed origin in
            let (i, d) = from (newest x (x ∷ ss)) among in
            subst (IsFound snapshots ref) same (record {
              listed = i;
              is_done = (done_iff (newest x (x ∷ ss))).0 d;
              newest_of = λ m t j c. others t (to t j ((done_iff t).1 c));
              named = λ n. absurd (n ((is_latest_iff ref).0 e));
            })
          where
            listed :
                (newest x (x ∷ ss) ≡ x) ⊎ In (newest x (x ∷ ss)) (x ∷ ss)
                → In (newest x (x ∷ ss)) (x ∷ ss)
            listed (inl p) = inl (sym p)
            listed (inr j) = j

        by_id : is_latest ref ≡ false → match_loop ref [] (x ∷ ss) ≡ ok s → IsFound snapshots ref s
        by_id e k =
            let (i, m) =
              match_loop-Meant ref [] [] (x ∷ ss) s (λ t j p. absurd j) (λ t j. absurd j) k in
            let (j, d) = from s i in
            record {
              listed = j;
              is_done = (done_iff s).0 d;
              newest_of = λ n t j c. absurd (never n);
              named = λ n. meant m;
            }
          where
            never : ¬ MeansNewest ref
            never n = let t = (is_latest_iff ref).1 n in cc

            meant :
                (s.id ≡ ref)
                  ⊎ ((has_prefix s ref ≡ true)
                      × ((t : Snapshot) → In t (x ∷ ss) → has_prefix t ref ≡ true → t ≡ s))
                → (s.id ≡ ref) ⊎ IsOnly snapshots ref s
            meant (inl p) = inl p
            meant (inr (p, f)) = inr (
              (has_prefix-BeginsWith ref s).0 p,
              λ t j c b. f t (to t j ((done_iff t).1 c)) ((has_prefix-BeginsWith ref t).1 b),
            )
