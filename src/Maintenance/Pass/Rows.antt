-- ===== src/Maintenance/Pass/Rows.antt =====
-- internal/server/store/retention.go, `SnapshotsForRetention`: the rows and the snapshots that they
-- stand for.
use openbackup.Prelude.{
  ◌≡◌, ◌⊎◌, inl, inr, refl, sym, ap, subst, ◌∙◌, Bool, true, false, String, List, [], ◌∷◌, Option,
  none, some, str_eq, eq_iff, if◌then◌else◌, Bool-cases,
}
use openbackup.Prelude.Sets.{In}
use openbackup.Store.{is_complete, Snapshot, Db}
use openbackup.Maintenance.Plan.{Row, find_row}
use openbackup.Maintenance.Pass.{
  Policy, row_of, joined, comes_first, insert_row, sort_rows, snapshots_for_retention,
}

insert_row-In : (r x : Row) (xs : List Row) → In x (r ∷ xs) → In x (insert_row r xs)
unfolding insert_row
insert_row-In r x [] i = i
insert_row-In r x (y ∷ ys) i = step (comes_first r y) i (insert_row-In r x ys)
  where
    step :
        (b : Bool)
        → In x (r ∷ y ∷ ys)
        → (In x (r ∷ ys) → In x (insert_row r ys))
        → In x (if b then r ∷ y ∷ ys else y ∷ insert_row r ys)
    step true i ih = i
    step false (inl e) ih = inr (ih (inl e))
    step false (inr (inl e)) ih = inl e
    step false (inr (inr j)) ih = inr (ih (inr j))

In-insert_row : (r x : Row) (xs : List Row) → In x (insert_row r xs) → In x (r ∷ xs)
unfolding insert_row
In-insert_row r x [] i = i
In-insert_row r x (y ∷ ys) i = step (comes_first r y) i (In-insert_row r x ys)
  where
    swap : In x (r ∷ ys) → In x (r ∷ y ∷ ys)
    swap (inl e) = inl e
    swap (inr j) = inr (inr j)

    step :
        (b : Bool)
        → In x (if b then r ∷ y ∷ ys else y ∷ insert_row r ys)
        → (In x (insert_row r ys) → In x (r ∷ ys))
        → In x (r ∷ y ∷ ys)
    step true i ih = i
    step false (inl e) ih = inr (inl e)
    step false (inr j) ih = swap (ih j)

sort_rows-In : (x : Row) (xs : List Row) → In x xs → In x (sort_rows xs)
unfolding sort_rows
sort_rows-In x [] i = i
sort_rows-In x (y ∷ ys) (inl e) = insert_row-In y x (sort_rows ys) (inl e)
sort_rows-In x (y ∷ ys) (inr i) = insert_row-In y x (sort_rows ys) (inr (sort_rows-In x ys i))

In-sort_rows : (x : Row) (xs : List Row) → In x (sort_rows xs) → In x xs
unfolding sort_rows
In-sort_rows x [] i = i
In-sort_rows x (y ∷ ys) i = step (In-insert_row y x (sort_rows ys) i) (In-sort_rows x ys)
  where
    step : In x (y ∷ sort_rows ys) → (In x (sort_rows ys) → In x ys) → In x (y ∷ ys)
    step (inl e) ih = inl e
    step (inr j) ih = inr (ih j)

-- A row that is found is listed, under its id.
pub find_row-In :
    (id : String) (rows : List Row) (r : Row) → find_row id rows ≡ some r → In r rows × (r.id ≡ id)
unfolding find_row
find_row-In id [] r h = cc
find_row-In id (x ∷ rs) r h =
    step (find_row id rs) (find_row-In id rs) (Bool-cases (str_eq x.id id)) h
  where
    some-injective : {a b : Row} → some a ≡ some b → a ≡ b
    some-injective k = cc

    step :
        (o : Option Row)
        → ((r : Row) → o ≡ some r → In r rs × (r.id ≡ id))
        → (str_eq x.id id ≡ true) ⊎ (str_eq x.id id ≡ false)
        → (elim o [ some later ↦ some later | none ↦ if str_eq x.id id then some x else none ])
          ≡ some r
        → In r (x ∷ rs) × (r.id ≡ id)
    step (some y) ih c k = let (i, e) = ih r k in (inr i, e)
    step none ih (inl e) k =
        let q : x ≡ r = some-injective (rw e at k) in
        (inl q, sym (ap (λ (y : Row). y.id) q) ∙ (eq_iff x.id id).0 e)
    step none ih (inr e) k = absurd (none-ne (rw e at k))
      where
        none-ne : ¬ (none ≡ some r)
        none-ne k = cc

pub In-find_row :
    (rows : List Row) (r : Row) → In r rows → (q : Row) × (find_row r.id rows ≡ some q)
unfolding find_row
In-find_row [] r i = absurd i
In-find_row (x ∷ rs) r i = step (find_row r.id rs) refl i (In-find_row rs r)
  where
    step :
        (o : Option Row)
        → find_row r.id rs ≡ o
        → In r (x ∷ rs)
        → (In r rs → (q : Row) × (find_row r.id rs ≡ some q))
        → (q : Row) × (elim o [
          | some later ↦ some later
          | none ↦ if str_eq x.id r.id then some x else none
        ])
            ≡ some q
    step (some y) e i ih = (y, refl)
    step none e (inl q) ih = (x, rw ((eq_iff x.id r.id).1 (ap (λ (y : Row). y.id) q)))
    step none e (inr j) ih = let (q, f) = ih j in absurd (none-ne (sym e ∙ f))
      where
        none-ne : {q : Row} → ¬ (◌≡◌ {A = Option Row} none (some q))
        none-ne k = cc

-- What a row stands for
pub record StandsFor (users : String → Option Policy) (ss : List Snapshot) (r : Row) : Type 0 where
  pub snapshot : Snapshot
  pub policy : Policy
  pub listed : In snapshot ss
  pub of_user : users snapshot.user ≡ some policy
  pub done : is_complete snapshot.status ≡ true
  pub is_row : row_of snapshot policy ≡ r

module _ (users : String → Option Policy) where
  In-joined : (ss : List Snapshot) (r : Row) → In r (joined users ss) → StandsFor users ss r
  unfolding joined
  In-joined [] r i = absurd i
  In-joined (s ∷ ss) r i = step (users s.user) (is_complete s.status) refl refl i (In-joined ss r)
    where
      later : StandsFor users ss r → StandsFor users (s ∷ ss) r
      later w = record {
        snapshot = w.snapshot;
        policy = w.policy;
        listed = inr w.listed;
        of_user = w.of_user;
        done = w.done;
        is_row = w.is_row;
      }

      step :
          (o : Option Policy) (b : Bool)
          → users s.user ≡ o
          → is_complete s.status ≡ b
          → In r (elim o [
            | none ↦ joined users ss
            | some u ↦ if b then row_of s u ∷ joined users ss else joined users ss
          ])
          → (In r (joined users ss) → StandsFor users ss r)
          → StandsFor users (s ∷ ss) r
      step none b e c i ih = later (ih i)
      step (some u) false e c i ih = later (ih i)
      step (some u) true e c (inl q) ih = record {
        snapshot = s;
        policy = u;
        listed = inl refl;
        of_user = e;
        done = c;
        is_row = q;
      }
      step (some u) true e c (inr j) ih = later (ih j)

  joined-In :
      (ss : List Snapshot) (s : Snapshot) (u : Policy)
      → In s ss
      → users s.user ≡ some u
      → is_complete s.status ≡ true
      → In (row_of s u) (joined users ss)
  unfolding joined
  joined-In [] s u i e c = absurd i
  joined-In (x ∷ ss) s u (inl q) e c =
      subst (λ y. In (row_of s u) (joined users (y ∷ ss))) (sym q)
        (rw (e, joined) (rw c (inl refl)))
  joined-In (x ∷ ss) s u (inr i) e c =
      step (users x.user) (is_complete x.status) (joined-In ss s u i e c)
    where
      step :
          (o : Option Policy) (b : Bool)
          → In (row_of s u) (joined users ss)
          → In (row_of s u) (elim o [
            | none ↦ joined users ss
            | some v ↦ if b then row_of x v ∷ joined users ss else joined users ss
          ])
      step none b i = i
      step (some v) true i = inr i
      step (some v) false i = i

  pub listed-row :
      (db : Db) (r : Row) → In r (snapshots_for_retention db users) → StandsFor users db.snapshots r
  unfolding snapshots_for_retention
  listed-row db r i = In-joined db.snapshots r (In-sort_rows r (joined users db.snapshots) i)

  pub row-listed :
      (db : Db) (s : Snapshot) (u : Policy)
      → In s db.snapshots
      → users s.user ≡ some u
      → is_complete s.status ≡ true
      → In (row_of s u) (snapshots_for_retention db users)
  unfolding snapshots_for_retention
  row-listed db s u i e c =
      sort_rows-In (row_of s u) (joined users db.snapshots) (joined-In db.snapshots s u i e c)
