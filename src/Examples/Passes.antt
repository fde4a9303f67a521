-- ===== src/Examples/Passes.antt =====
-- internal/server/maintenance: a pass over a pinned backup, its delta and a newer backup.
use openbackup.Prelude.{
  ℕ, ◌≡◌, ◌⊎◌, inl, inr, refl, sym, ap, subst, ◌∙◌, Bool, true, false, arith, String, List, [], ◌∷◌,
  Option, some, str_eq, eq_iff,
}
use mathlib.Core.Bool.{false≢true}
use openbackup.Prelude.Sets.{has, In}
use openbackup.Store.{full, delta, complete, no_error, no_counts, Kind, Snapshot, Db, find_snapshot}
use openbackup.Text.{bytes_compare}
use openbackup.Maintenance.Plan.{Row, find_row, rows_of, plan_retention}
use openbackup.Maintenance.Plan.Marking.{ends_within, IsClosed}
use openbackup.Maintenance.Plan.Keeping.{ChainsEnd}
use openbackup.Maintenance.Plan.Kept.{plan_retention-IsClosed}
use openbackup.Maintenance.Plan.Window.{plan_retention-window}
use openbackup.Maintenance.Pass.{
  Policy, row_of, joined, insert_row, sort_rows, snapshots_for_retention, served, apply_retention,
}
use openbackup.Maintenance.Pass.Safe.{IsChained, apply_retention-pinned, apply_retention-newest}

abbrev backup : String → String → Kind → ℕ → Bool → Snapshot
backup id parent kind started pinned = record {
  id = id;
  user = "u1";
  device = "pc";
  kind = kind;
  status = complete;
  parent = parent;
  started = started;
  updated = started;
  completed = some started;
  counts = no_counts;
  error = no_error;
  pinned = pinned;
  roots = [];
}

abbrev base : Snapshot
base = backup "s1" "" full 1000 false

abbrev changes : Snapshot
changes = backup "s2" "s1" delta 2000 true

abbrev latest : Snapshot
latest = backup "s3" "" full 3000 false

abbrev tables : Db
tables = record {
  snapshots = base ∷ changes ∷ latest ∷ [];
  entries = [];
  deletions = [];
  refs = [];
  chunks = [];
  account_chunks = [];
}

abbrev month : Policy
month = record { retention_days = 30; keep_daily = 0; keep_weekly = 0; keep_monthly = 0 }

abbrev users : String → Option Policy
users user = some month

-- 100 days later, in nanoseconds
abbrev today : ℕ
today = 8640000000000000

abbrev listed : List Row
listed = row_of latest month ∷ row_of changes month ∷ row_of base month ∷ []

rows_listed : snapshots_for_retention tables users ≡ listed
unfolding snapshots_for_retention sort_rows joined insert_row bytes_compare
rows_listed = refl

chains_end : ChainsEnd today listed
unfolding ends_within find_row
chains_end r (inl e) = subst (λ (x : Row). ends_within 1000 listed x.id ≡ true) e refl
chains_end r (inr (inl e)) = subst (λ (x : Row). ends_within 1000 listed x.id ≡ true) e refl
chains_end r (inr (inr (inl e))) = subst (λ (x : Row). ends_within 1000 listed x.id ≡ true) e refl
chains_end r (inr (inr (inr x))) = absurd x

plan_retention-IsClosed_example : IsClosed listed (plan_retention listed today)
plan_retention-IsClosed_example = plan_retention-IsClosed listed today chains_end

each_of_three :
    (P : Snapshot → Type 0)
    → P base
    → P changes
    → P latest
    → (s : Snapshot) → In s tables.snapshots
    → P s
each_of_three P a b c s (inl e) = subst P e a
each_of_three P a b c s (inr (inl e)) = subst P e b
each_of_three P a b c s (inr (inr (inl e))) = subst P e c
each_of_three P a b c s (inr (inr (inr x))) = absurd x

differ : (a b : String) (s t : Snapshot) → str_eq a b ≡ false → a ≡ b → s ≡ t
differ a b s t n e = absurd (false≢true (sym n ∙ (eq_iff a b).1 e))

-- Two days after the newest backup
plan_retention-window_example : has "s1" (plan_retention listed 172800000000000) ≡ true
plan_retention-window_example =
    plan_retention-window listed 172800000000000 (row_of base month) (row_of latest month)
      (row_of changes month ∷ row_of base month ∷ []) (inr (inr (inl refl))) refl refl refl
      (inr (omega arith))

same_row : (s t : Snapshot) → In s tables.snapshots → In t tables.snapshots → s.id ≡ t.id → s ≡ t
same_row s t i j =
    each_of_three (λ s. s.id ≡ t.id → s ≡ t)
      (each_of_three (λ t. "s1" ≡ t.id → base ≡ t) (λ e. refl) (differ "s1" "s2" base changes refl)
        (differ "s1" "s3" base latest refl) t j)
      (each_of_three (λ t. "s2" ≡ t.id → changes ≡ t) (differ "s2" "s1" changes base refl)
        (λ e. refl) (differ "s2" "s3" changes latest refl) t j)
      (each_of_three (λ t. "s3" ≡ t.id → latest ≡ t) (differ "s3" "s1" latest base refl)
        (differ "s3" "s2" latest changes refl) (λ e. refl) t j)
      s i

tables-IsChained : IsChained users today tables
tables-IsChained = record {
  unique = same_row;
  named = λ s i. names s i;
  based = λ s i n. bases s i n;
  short = subst (ChainsEnd today) (sym rows_listed) chains_end;
}
  where
    names : (s : Snapshot) → In s tables.snapshots → str_eq s.id "" ≡ false
    names = each_of_three (λ s. str_eq s.id "" ≡ false) refl refl refl

    Based : Snapshot → Type 0
    Based s =
        (p : Snapshot) × (u : Policy) × In p tables.snapshots
        × (p.id ≡ s.parent)
        × (users p.user ≡ some u)
        × (openbackup.Store.is_complete p.status ≡ true)

    bases : (s : Snapshot) → In s tables.snapshots → str_eq s.parent "" ≡ false → Based s
    bases =
        each_of_three (λ s. str_eq s.parent "" ≡ false → Based s) (λ n. absurd (false≢true (sym n)))
          (λ n. (base, month, inl refl, refl, refl, refl)) (λ n. absurd (false≢true (sym n)))

apply_retention-pinned_example :
    (find_snapshot (apply_retention (λ id. served) tables users today).db "s2"
      ≡ find_snapshot tables "s2")
    × ((changes.parent ≡ "")
        ⊎ (find_snapshot (apply_retention (λ id. served) tables users today).db "s1"
            ≡ find_snapshot tables "s1"))
apply_retention-pinned_example =
    apply_retention-pinned (λ id. served) tables users today tables-IsChained changes month
      (inr (inl refl)) refl refl refl

apply_retention-newest_example :
    (find_snapshot (apply_retention (λ id. served) tables users today).db "s3"
      ≡ find_snapshot tables "s3")
    × ((latest.parent ≡ "")
        ⊎ (find_snapshot (apply_retention (λ id. served) tables users today).db ""
            ≡ find_snapshot tables ""))
apply_retention-newest_example =
    apply_retention-newest (λ id. served) tables users today tables-IsChained latest month
      (row_of changes month ∷ row_of base month ∷ []) (inr (inr (inl refl))) refl refl
      (ap (rows_of "pc") rows_listed)
