-- ===== src/Maintenance/Pass/Safe.antt =====
-- internal/server/maintenance/maintenance.go, `applyRetention`: no snapshot that the plan keeps is
-- removed, nor one that it stands on.
use openbackup.Prelude.{
  ℕ, ◌+◌, ◌≡◌, ◌⊎◌, inl, inr, refl, sym, ap, subst, ◌∙◌, Bool, true, false, ◌||◌, String, List, [],
  ◌∷◌, Option, some, str_eq, eq_iff, Bool-cases,
}
use openbackup.Prelude.Sets.{has, In}
use openbackup.Store.{is_complete, Snapshot, Db, find_snapshot}
use openbackup.Store.Deletion.{delete_snapshot_cascade}
use openbackup.Store.Deletion.Cascade.{
  HoldsParents, delete_snapshot_cascade-keeps, delete_snapshot_cascade-HoldsParents,
}
use openbackup.Maintenance.Plan.{Row, find_row, rows_of, plan_retention}
use openbackup.Maintenance.Plan.Keeping.{ChainsEnd}
use openbackup.Maintenance.Plan.Kept.{
  plan_retention-IsClosed, plan_retention-pinned, plan_retention-newest, plan_retention-rows,
}
use openbackup.Maintenance.Pass.{
  Policy, row_of, snapshots_for_retention, Attempt, cancelled, refused, served, Applied,
  retention_loop, apply_retention,
}
use openbackup.Maintenance.Pass.Rows.{find_row-In, In-find_row, listed-row, row-listed}

retention_loop-keeps :
    (attempt : String → Attempt) (keep : List String) (id : String) (rows : List Row)
    (done : List String) (db : Db) (deleted : ℕ)
    → HoldsParents keep db.snapshots
    → has id keep ≡ true
    → find_snapshot (retention_loop attempt keep rows done db deleted).db id ≡ find_snapshot db id
unfolding retention_loop
retention_loop-keeps attempt keep id [] done db deleted closed k = refl
retention_loop-keeps attempt keep id (r ∷ rs) done db deleted closed k =
    step (Bool-cases (has r.id keep)) (has r.id done) (attempt r.id)
      (λ done' db' n c. retention_loop-keeps attempt keep id rs done' db' n c k)
  where
    Rest : Type 0
    Rest =
        (done' : List String) (db' : Db) (n : ℕ)
        → HoldsParents keep db'.snapshots
        → find_snapshot (retention_loop attempt keep rs done' db' n).db id ≡ find_snapshot db' id

    removes :
        has r.id keep ≡ false
        → Rest
        → find_snapshot
            (retention_loop attempt keep rs
              (r.id ∷ done)
              (delete_snapshot_cascade db r.id).0
              (deleted + (delete_snapshot_cascade db r.id).1)).db
            id
          ≡ find_snapshot db id
    removes e ih =
        ih (r.id ∷ done) (delete_snapshot_cascade db r.id).0 _
          (delete_snapshot_cascade-HoldsParents db keep r.id closed)
        ∙ delete_snapshot_cascade-keeps db keep r.id id closed e k

    step :
        (has r.id keep ≡ true) ⊎ (has r.id keep ≡ false)
        → (b : Bool) (a : Attempt) → Rest
        → find_snapshot
            (elim (has r.id keep) as (λ x. Applied) [
              | true ↦ retention_loop attempt keep rs done db deleted
              | false ↦ elim b [
                | true ↦ retention_loop attempt keep rs done db deleted
                | false ↦ elim a [
                  | cancelled ↦ record { db = db; deleted = deleted; finished = false }
                  | refused ↦ retention_loop attempt keep rs done db deleted
                  | served ↦
                      let (db', n) = delete_snapshot_cascade db r.id in
                      retention_loop attempt keep rs (r.id ∷ done) db' (deleted + n)
                ]
              ]
            ]).db
            id
          ≡ find_snapshot db id
    step (inl e) b a ih = rw e (ih done db deleted closed)
    step (inr e) true a ih = rw e (ih done db deleted closed)
    step (inr e) false cancelled ih = rw e refl
    step (inr e) false refused ih = rw e (ih done db deleted closed)
    step (inr e) false served ih = rw e (removes e ih)

-- What the store guarantees of its snapshots: ids are a primary key and not empty, a snapshot's
-- parent is a complete snapshot of an account that exists, and chains are short.
pub record IsChained (users : String → Option Policy) (now : ℕ) (db : Db) : Type 0 where
  pub unique : (s t : Snapshot) → In s db.snapshots → In t db.snapshots → s.id ≡ t.id → s ≡ t
  pub named : (s : Snapshot) → In s db.snapshots → str_eq s.id "" ≡ false
  pub based :
      (s : Snapshot)
      → In s db.snapshots
      → str_eq s.parent "" ≡ false
      → (p : Snapshot) × (u : Policy) × In p db.snapshots
        × (p.id ≡ s.parent)
        × (users p.user ≡ some u)
        × (is_complete p.status ≡ true)
  pub short : ChainsEnd now (snapshots_for_retention db users)

module _ (attempt : String → Attempt) (db : Db) (users : String → Option Policy) (now : ℕ)
    (chained : IsChained users now db) where
  abbrev rows : List Row
  rows = snapshots_for_retention db users

  abbrev plan : List String
  plan = plan_retention rows now

  parent-listed :
      (id : String) (r : Row)
      → find_row id rows ≡ some r
      → str_eq r.parent "" ≡ false
      → (q : Row) × (find_row r.parent rows ≡ some q)
  parent-listed id r f n =
      let (i, e) = find_row-In id rows r f in
      let w = listed-row users db r i in
      let same : w.snapshot.parent ≡ r.parent = ap (λ (y : Row). y.parent) w.is_row in
      let (p, u, j, is_parent, of_user, done) =
        chained.based w.snapshot w.listed (ap (λ y. str_eq y "") same ∙ n) in
      let (q, g) = In-find_row rows (row_of p u) (row-listed users db p u j of_user done) in
      (q, ap (λ y. find_row y rows) (sym (is_parent ∙ same)) ∙ g)

  plan-HoldsParents : HoldsParents plan db.snapshots
  plan-HoldsParents s i k =
      let (r, f) = plan_retention-rows rows now parent-listed (In-find_row rows) s.id k in
      let (j, e) = find_row-In s.id rows r f in
      let w = listed-row users db r j in
      let same : w.snapshot ≡ s =
        chained.unique w.snapshot s w.listed i (ap (λ (y : Row). y.id) w.is_row ∙ e) in
      let above : r.parent ≡ s.parent =
        sym (ap (λ (y : Row). y.parent) w.is_row) ∙ ap (λ (y : Snapshot). y.parent) same in
      subst (λ y. (str_eq y "" || has y plan) ≡ true) above
        (plan_retention-IsClosed rows now chained.short s.id r k f)

  plan-survives :
      (id : String)
      → has id plan ≡ true
      → find_snapshot (apply_retention attempt db users now).db id ≡ find_snapshot db id
  unfolding apply_retention
  plan-survives id k = retention_loop-keeps attempt plan id rows [] db 0 plan-HoldsParents k

  parent-survives :
      (s : Snapshot)
      → In s db.snapshots
      → has s.id plan ≡ true
      → (s.parent ≡ "")
        ⊎ (find_snapshot (apply_retention attempt db users now).db s.parent
            ≡ find_snapshot db s.parent)
  parent-survives s i k = step (Bool-cases (str_eq s.parent ""))
    where
      step :
          (str_eq s.parent "" ≡ true) ⊎ (str_eq s.parent "" ≡ false)
          → (s.parent ≡ "")
            ⊎ (find_snapshot (apply_retention attempt db users now).db s.parent
                ≡ find_snapshot db s.parent)
      step (inl e) = inl ((eq_iff s.parent "").0 e)
      step (inr e) = inr (plan-survives s.parent (rw e at (plan-HoldsParents s i k)))

  -- A pass of retention leaves every pinned complete snapshot, and the parent that it is restored
  -- on, whatever deletions fail and wherever the pass is cancelled.
  pub apply_retention-pinned :
      (s : Snapshot) (u : Policy)
      → In s db.snapshots
      → users s.user ≡ some u
      → is_complete s.status ≡ true
      → s.pinned ≡ true
      → (find_snapshot (apply_retention attempt db users now).db s.id ≡ find_snapshot db s.id)
        × ((s.parent ≡ "")
            ⊎ (find_snapshot (apply_retention attempt db users now).db s.parent
                ≡ find_snapshot db s.parent))
  apply_retention-pinned s u i e c p =
      let k =
        plan_retention-pinned rows now (row_of s u) (row-listed users db s u i e c) p
          (chained.named s i) in
      (plan-survives s.id k, parent-survives s i k)

  -- The first of a device's complete snapshots in the order of the query survives every pass with
  -- the parent that it is restored on, however old it is.
  pub apply_retention-newest :
      (s : Snapshot) (u : Policy) (rs : List Row)
      → In s db.snapshots
      → users s.user ≡ some u
      → is_complete s.status ≡ true
      → rows_of s.device (snapshots_for_retention db users) ≡ row_of s u ∷ rs
      → (find_snapshot (apply_retention attempt db users now).db s.id ≡ find_snapshot db s.id)
        × ((s.parent ≡ "")
            ⊎ (find_snapshot (apply_retention attempt db users now).db s.parent
                ≡ find_snapshot db s.parent))
  apply_retention-newest s u rs i e c first =
      let k =
        plan_retention-newest rows now (row_of s u) rs (row-listed users db s u i e c) first
          (chained.named s i) in
      (plan-survives s.id k, parent-survives s i k)
