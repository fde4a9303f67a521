-- ===== src/Store/Restorable/Finish.antt =====
-- internal/server/store/snapshots.go, `CompleteSnapshot`: it keeps complete snapshots restorable.
use openbackup.Prelude.{
  ℕ, ◌≡◌, inl, inr, refl, sym, ap, subst, ◌∙◌, true, false, String, Option, none, some, arith,
  str_eq, eq_iff, if◌then◌else◌, Bool-cases,
}
use openbackup.Store.{complete, is_running, Snapshot, Db, find_in, find_snapshot, update_in}
use openbackup.Store.Lookup.{find_in-update, mapped}
use openbackup.Store.Snapshots.{
  CompleteRequest, complete_snapshot, runs, judge, missing_snapshot_chunks, close_if_running,
}
use openbackup.Store.Snapshots.Completion.{AllStored, complete_snapshot_iff}
use openbackup.Store.Restorable.{IsRestorable}

module _ (db : Db) (now : ℕ) (id : String) (req : CompleteRequest) where
  abbrev closed_db : Db
  closed_db = record db {
    snapshots =
        update_in id (close_if_running (judge (missing_snapshot_chunks db id 5) req.error) req now)
          db.snapshots;
  }

  running_row :
      (o : Option Snapshot)
      → runs o ≡ true
      → (s : Snapshot) × (o ≡ some s) × (is_running s.status ≡ true)
  running_row none h = cc
  running_row (some s) h = (s, refl, h)

  row_at_closed :
      (j : String)
      → find_in j closed_db.snapshots ≡ (
          if str_eq id j
          then mapped
              (close_if_running (judge (missing_snapshot_chunks db id 5) req.error) req now)
              (find_snapshot db j)
          else find_snapshot db j)
  row_at_closed j =
      find_in-update id j
        (close_if_running (judge (missing_snapshot_chunks db id 5) req.error) req now) db.snapshots
        (λ r. ground arith)

  closes : runs (find_snapshot db id) ≡ true → (complete_snapshot db now id req).0 ≡ closed_db
  unfolding complete_snapshot
  closes r = rw r

  refuses : runs (find_snapshot db id) ≡ false → (complete_snapshot db now id req).0 ≡ db
  unfolding complete_snapshot
  refuses r = rw r

  itself_stored :
      runs (find_snapshot db id) ≡ true
      → (t : Snapshot) → find_in id closed_db.snapshots ≡ some t
      → t.status ≡ complete
      → AllStored db id
  itself_stored r t found done =
      let (s, q, open_now) = running_row (find_snapshot db id) r in
      let (s', found', (to, from), told, closed) =
        complete_snapshot_iff db now id req s q open_now in
      let same : some s' ≡ some t =
        sym found' ∙ (ap (λ (d : Db). find_snapshot d id) (closes r) ∙ found) in
      (to (ap (λ (x : Snapshot). x.status) (some-injective same) ∙ done)).0
    where
      some-injective : {a b : Snapshot} → some a ≡ some b → a ≡ b
      some-injective h = cc

  closed-IsRestorable : runs (find_snapshot db id) ≡ true → IsRestorable db → IsRestorable closed_db
  closed-IsRestorable r inv = record {
    at = λ j t found done. elim (Bool-cases (str_eq id j)) [
      | inl e ↦
          let same : id ≡ j = (eq_iff id j).0 e in
          subst (AllStored db) same
            (itself_stored r t (ap (λ i. find_in i closed_db.snapshots) same ∙ found) done)
      | inr e ↦ inv.at j t (rw e at (sym (row_at_closed j) ∙ found)) done
    ];
  }

  pub finish-IsRestorable : IsRestorable db → IsRestorable (complete_snapshot db now id req).0
  finish-IsRestorable inv = elim (Bool-cases (runs (find_snapshot db id))) [
    | inl r ↦ subst IsRestorable (sym (closes r)) (closed-IsRestorable r inv)
    | inr r ↦ subst IsRestorable (sym (refuses r)) inv
  ]
