-- ===== src/Store/Snapshots/Stored.antt =====
-- internal/server/store/snapshots.go, `AddEntries`: what a batch leaves in the tables.
use openbackup.Prelude.{
  ℕ, ◌≡◌, refl, subst, Bool, true, false, ◌&&◌, Bytes, String, List, [], ◌∷◌, Option, none, some,
  str_eq, if◌then◌else◌, if_cases, All, is_empty,
}
use openbackup.Prelude.Result.{Result, ok, err, ◌>>=◌, ok-injective, err-ne-ok}
use openbackup.Text.{bytes_eq}
use openbackup.Store.{
  Snapshot, Entry, EntryRow, DeletionRow, Db, StoreError, invalid_path, not_found, conflict,
  is_running, find_snapshot, update_in,
}
use openbackup.Store.Paths.{clean_stored_path}
use openbackup.Store.Paths.Safe.{IsSafe, clean_stored_path-IsSafe}
use openbackup.Store.Snapshots.{
  upsert_entry, insert_refs, insert_deletion, add_entry_rows, add_deletion_rows, touch, add_entries,
}

-- Every stored path is safe.
pub record HoldsSafe (db : Db) : Type 0 where
  pub entries_safe : All (λ (r : EntryRow). IsSafe r.entry.path) db.entries
  pub deletions_safe : All (λ (r : DeletionRow). IsSafe r.path) db.deletions

upsert_entry-All :
    (P : EntryRow → Type 0) (id : String) (e : Entry) (rs : List EntryRow)
    → P (record { snapshot = id; entry = e })
    → All P rs
    → All P (upsert_entry id e rs)
unfolding upsert_entry
upsert_entry-All P id e [] p h = (p, tt)
upsert_entry-All P id e (r ∷ rs) p (q, h) =
    if_cases (All P) (str_eq r.snapshot id && bytes_eq r.entry.path e.path) _ _ (λ c. (p, h))
      (λ c. (q, upsert_entry-All P id e rs p h))

insert_deletion-All :
    (P : DeletionRow → Type 0) (id : String) (path : Bytes) (rs : List DeletionRow)
    → P (record { snapshot = id; path = path })
    → All P rs
    → All P (insert_deletion id path rs)
unfolding insert_deletion
insert_deletion-All P id path [] p h = (p, tt)
insert_deletion-All P id path (r ∷ rs) p (q, h) =
    if_cases (All P) (str_eq r.snapshot id && bytes_eq r.path path) _ _ (λ c. (q, h))
      (λ c. (q, insert_deletion-All P id path rs p h))

add_entry_rows-HoldsSafe :
    (id : String) (es : List Entry) (db db' : Db)
    → add_entry_rows id es db ≡ ok db'
    → HoldsSafe db
    → HoldsSafe db'
unfolding add_entry_rows
add_entry_rows-HoldsSafe id [] db db' e h = subst HoldsSafe (ok-injective e) h
add_entry_rows-HoldsSafe id (x ∷ es) db db' e h =
    at (clean_stored_path x.path) refl e
      (λ path. add_entry_rows-HoldsSafe id es (with_entry path) db')
  where
    with_entry : Bytes → Db
    with_entry path = record db {
      entries = upsert_entry id (record x { path = path }) db.entries;
      refs = insert_refs id x.chunks db.refs;
    }

    at :
        (o : Option Bytes)
        → clean_stored_path x.path ≡ o
        → (elim o as (λ y. Result StoreError Db) [
          | none ↦ err invalid_path
          | some path ↦ add_entry_rows id es (with_entry path)
        ])
          ≡ ok db'
        → ((path : Bytes)
            → add_entry_rows id es (with_entry path) ≡ ok db'
            → HoldsSafe (with_entry path)
            → HoldsSafe db')
        → HoldsSafe db'
    at none q k ih = absurd (err-ne-ok k)
    at (some path) q k ih = ih path k (record {
      entries_safe =
          upsert_entry-All (λ (r : EntryRow). IsSafe r.entry.path) id (record x { path = path })
            db.entries (clean_stored_path-IsSafe x.path path q) h.entries_safe;
      deletions_safe = h.deletions_safe;
    })

add_deletion_rows-HoldsSafe :
    (id : String) (ps : List Bytes) (db db' : Db)
    → add_deletion_rows id ps db ≡ ok db'
    → HoldsSafe db
    → HoldsSafe db'
unfolding add_deletion_rows
add_deletion_rows-HoldsSafe id [] db db' e h = subst HoldsSafe (ok-injective e) h
add_deletion_rows-HoldsSafe id (p ∷ ps) db db' e h =
    at (clean_stored_path p) refl e
      (λ path. add_deletion_rows-HoldsSafe id ps (with_deletion path) db')
  where
    with_deletion : Bytes → Db
    with_deletion path = record db { deletions = insert_deletion id path db.deletions }

    at :
        (o : Option Bytes)
        → clean_stored_path p ≡ o
        → (elim o as (λ y. Result StoreError Db) [
          | none ↦ err invalid_path
          | some path ↦ add_deletion_rows id ps (with_deletion path)
        ])
          ≡ ok db'
        → ((path : Bytes)
            → add_deletion_rows id ps (with_deletion path) ≡ ok db'
            → HoldsSafe (with_deletion path)
            → HoldsSafe db')
        → HoldsSafe db'
    at none q k ih = absurd (err-ne-ok k)
    at (some path) q k ih = ih path k (record {
      entries_safe = h.entries_safe;
      deletions_safe =
          insert_deletion-All (λ (r : DeletionRow). IsSafe r.path) id path db.deletions
            (clean_stored_path-IsSafe p path q) h.deletions_safe;
    })

-- A batch that is accepted leaves only safe paths in the tables, where they held only safe paths:
-- none has an empty component, `.`, `..` or a backslash.
pub add_entries-HoldsSafe :
    (db db' : Db) (now : ℕ) (id : String) (entries : List Entry) (deleted : List Bytes)
    → add_entries db now id entries deleted ≡ ok db'
    → HoldsSafe db
    → HoldsSafe db'
unfolding add_entries
add_entries-HoldsSafe db db' now id entries deleted e h =
    at (is_empty entries && is_empty deleted) (find_snapshot db id) e
  where
    touched : Db
    touched = record db { snapshots = update_in id (touch now) db.snapshots }

    rows :
        (r : Result StoreError Db)
        → add_entry_rows id entries touched ≡ r
        → (r >>= add_deletion_rows id deleted) ≡ ok db'
        → HoldsSafe db'
    rows (err x) q k = absurd (err-ne-ok k)
    rows (ok mid) q k = add_deletion_rows-HoldsSafe id deleted mid db' k (
        add_entry_rows-HoldsSafe id entries touched mid q
          (record { entries_safe = h.entries_safe; deletions_safe = h.deletions_safe }))

    open_row :
        (b : Bool)
        → (if b
            then add_entry_rows id entries touched >>= add_deletion_rows id deleted
            else err conflict)
          ≡ ok db'
        → HoldsSafe db'
    open_row false k = absurd (err-ne-ok k)
    open_row true k = rows (add_entry_rows id entries touched) refl k

    at :
        (b : Bool) (o : Option Snapshot)
        → (if b then ok db else elim o [
          | none ↦ err not_found
          | some s ↦
              if is_running s.status
              then add_entry_rows id entries touched >>= add_deletion_rows id deleted
              else err conflict
        ])
          ≡ ok db'
        → HoldsSafe db'
    at true o k = subst HoldsSafe (ok-injective k) h
    at false none k = absurd (err-ne-ok k)
    at false (some s) k = open_row (is_running s.status) k
