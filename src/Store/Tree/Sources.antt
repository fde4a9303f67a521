-- ===== src/Store/Tree/Sources.antt =====
-- internal/server/store/snapshots.go, `treeRange`: an entry that is shown is a row of the table, of
-- a snapshot of the chain and under its own path.
use openbackup.Prelude.{
  ℕ, suc, ◌≡◌, ◌⊎◌, inl, inr, refl, sym, subst, ◌∙◌, true, false, Bytes, String, List, [], ◌∷◌,
  Option, none, some, arith, str_eq, eq_iff, Bool-cases, Option-cases,
}
use openbackup.Prelude.Sets.{In}
use openbackup.Text.{bytes_eq}
use openbackup.Text.Lemmas.{bytes_eq-eq}
use openbackup.Store.{Entry, EntryRow, Db}
use openbackup.Store.Tree.{entry_at, latest, removed, survives, shown}

-- The row that a query took an entry from
pub record From (path : Bytes) (e : Entry) (rows : List EntryRow) (named : String → Type 0)
    : Type 0 where
  pub row : EntryRow
  pub listed : In row rows
  pub holds : row.entry ≡ e
  pub named_so : named row.snapshot
  pub own_path : e.path ≡ path

entry_at-From :
    (sid : String) (path : Bytes) (rows : List EntryRow) (e : Entry)
    → entry_at sid path rows ≡ some e
    → From path e rows (λ s. s ≡ sid)
unfolding entry_at
entry_at-From sid path [] e h = cc
entry_at-From sid path (r ∷ rs) e h =
    at (Bool-cases (str_eq r.snapshot sid)) (Bool-cases (bytes_eq r.entry.path path))
      (entry_at-From sid path rs e)
  where
    skip :
        entry_at sid path (r ∷ rs) ≡ entry_at sid path rs
        → (entry_at sid path rs ≡ some e → From path e rs (λ s. s ≡ sid))
        → From path e (r ∷ rs) (λ s. s ≡ sid)
    skip q ih =
        let w = ih (sym q ∙ h) in
        record {
          row = w.row;
          listed = inr w.listed;
          holds = w.holds;
          named_so = w.named_so;
          own_path = w.own_path;
        }

    at :
        (str_eq r.snapshot sid ≡ true) ⊎ (str_eq r.snapshot sid ≡ false)
        → (bytes_eq r.entry.path path ≡ true) ⊎ (bytes_eq r.entry.path path ≡ false)
        → (entry_at sid path rs ≡ some e → From path e rs (λ s. s ≡ sid))
        → From path e (r ∷ rs) (λ s. s ≡ sid)
    at (inl a) (inl b) ih =
        let q : r.entry ≡ e = ground arith in
        record {
          row = r;
          listed = inl refl;
          holds = q;
          named_so = (eq_iff r.snapshot sid).0 a;
          own_path = subst (λ (x : Entry). x.path ≡ path) q (bytes_eq-eq r.entry.path path b);
        }
    at (inl a) (inr b) ih = skip (ground arith) ih
    at (inr a) b ih = skip (ground arith) ih

latest-From :
    (seq : ℕ) (chain : List String) (path : Bytes) (rows : List EntryRow) (i : ℕ) (e : Entry)
    → latest seq chain path rows ≡ some (i, e)
    → From path e rows (λ s. In s chain)
unfolding latest
latest-From seq [] path rows i e h = cc
latest-From seq (sid ∷ chain) path rows i e h =
    at (Option-cases (latest (suc seq) chain path rows)) (Option-cases (entry_at sid path rows))
      (latest-From (suc seq) chain path rows i e)
  where
    at :
        (latest (suc seq) chain path rows ≡ none)
          ⊎ ((x : ℕ × Entry) × (latest (suc seq) chain path rows ≡ some x))
        → (entry_at sid path rows ≡ none) ⊎ ((f : Entry) × (entry_at sid path rows ≡ some f))
        → (latest (suc seq) chain path rows ≡ some (i, e) → From path e rows (λ s. In s chain))
        → From path e rows (λ s. In s (sid ∷ chain))
    at (inr (x, q)) o ih =
        let w = ih (ground arith) in
        record {
          row = w.row;
          listed = w.listed;
          holds = w.holds;
          named_so = inr w.named_so;
          own_path = w.own_path;
        }
    at (inl q) (inl o) ih = absurd (ground arith)
    at (inl q) (inr (f, o)) ih =
        let same : f ≡ e = ground arith in
        let w =
          entry_at-From sid path rows e (subst (λ x. entry_at sid path rows ≡ some x) same o) in
        record {
          row = w.row;
          listed = w.listed;
          holds = w.holds;
          named_so = inl (sym w.named_so);
          own_path = w.own_path;
        }

pub shown-From :
    (db : Db) (chain : List String) (path : Bytes) (e : Entry)
    → shown db chain path ≡ some e
    → From path e db.entries (λ s. In s chain)
unfolding shown
shown-From db chain path e h =
    at (removed 0 chain path db.deletions) (Option-cases (latest 0 chain path db.entries)) h
  where
    kept : (r : Option ℕ) (i : ℕ) (f : Entry) → survives r (some (i, f)) ≡ some e → f ≡ e
    kept none i f h = cc
    kept (some j) i f h = ground arith

    nothing : (r : Option ℕ) → ¬ (survives r none ≡ some e)
    nothing r h = cc

    at :
        (r : Option ℕ)
        → (latest 0 chain path db.entries ≡ none)
          ⊎ ((x : ℕ × Entry) × (latest 0 chain path db.entries ≡ some x))
        → survives r (latest 0 chain path db.entries) ≡ some e
        → From path e db.entries (λ s. In s chain)
    at r (inl q) h = absurd (nothing r (rw q at h))
    at r (inr ((i, f), q)) h =
        latest-From 0 chain path db.entries i e
          (subst (λ x. latest 0 chain path db.entries ≡ some (i, x)) (kept r i f (rw q at h)) q)
