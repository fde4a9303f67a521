-- ===== src/Store/Restorable/Stood.antt =====
-- internal/server/store: what a complete snapshot stands on, across a step.
use openbackup.Prelude.{◌≡◌, sym, subst, true, String, List, [], ◌∷◌, some, All}
use openbackup.Store.{running, complete, Snapshot, Db, find_snapshot, has_chunk, refs_of}
use openbackup.Store.Restorable.{IsRestorable}

-- How a step can change what a complete snapshot stands on: the row was complete before, its
-- references are the same, and no chunk that they name has gone.
pub record Stood (db db' : Db) (j : String) : Type 0 where
  pub row : Snapshot
  pub was_found : find_snapshot db j ≡ some row
  pub was_complete : row.status ≡ complete
  pub same_refs : refs_of j db'.refs ≡ refs_of j db.refs
  pub kept :
      All (λ d. has_chunk d db.chunks ≡ true → has_chunk d db'.chunks ≡ true) (refs_of j db.refs)

pub All-kept : (P : String → Type 0) → ((d : String) → P d) → (ds : List String) → All P ds
All-kept P h [] = tt
All-kept P h (d ∷ ds) = (h d, All-kept P h ds)

apply_kept :
    (P Q : String → Type 0) (ds : List String) → All (λ d. P d → Q d) ds → All P ds → All Q ds
apply_kept P Q [] fs hs = tt
apply_kept P Q (d ∷ ds) (f, fs) (h, hs) = (f h, apply_kept P Q ds fs hs)

pub from_Stood :
    (db db' : Db)
    → ((j : String) (s : Snapshot)
        → find_snapshot db' j ≡ some s
        → s.status ≡ complete
        → Stood db db' j)
    → IsRestorable db
    → IsRestorable db'
from_Stood db db' stood h = record {
  at = λ j s found done.
      let w = stood j s found done in
      let before = h.at j w.row w.was_found w.was_complete in
      subst (λ ds. All (λ d. has_chunk d db'.chunks ≡ true) ds) (sym w.same_refs)
        (apply_kept _ _ (refs_of j db.refs) w.kept before);
}

running_ne : ¬ (running ≡ complete)
running_ne e = cc

-- An update that leaves references and chunks as they are.
pub still :
    (db db' : Db) (j : String) (s : Snapshot)
    → find_snapshot db j ≡ some s
    → s.status ≡ complete
    → refs_of j db'.refs ≡ refs_of j db.refs
    → db'.chunks ≡ db.chunks
    → Stood db db' j
still db db' j s found done refs chunks = record {
  row = s;
  was_found = found;
  was_complete = done;
  same_refs = refs;
  kept = All-kept _ (λ d k. subst (λ cs. has_chunk d cs ≡ true) (sym chunks) k) (refs_of j db.refs);
}
