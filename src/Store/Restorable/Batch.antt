-- ===== src/Store/Restorable/Batch.antt =====
-- internal/server/store/snapshots.go, `AddEntries`: a batch keeps complete snapshots restorable.
use openbackup.Prelude.{
  ℕ, ◌≡◌, ◌⊎◌, inl, inr, refl, sym, ap, subst, ◌∙◌, Bool, true, false, ◌&&◌, Bytes, String, List,
  [], ◌∷◌, Option, none, some, arith, str_eq, eq_iff, if◌then◌else◌, Bool-cases, is_empty,
}
use openbackup.Prelude.Result.{Result, ok, err, ◌>>=◌, ok-injective, err-ne-ok}
use openbackup.Store.{
  complete, is_running, Snapshot, Entry, Db, StoreError, invalid_path, conflict, not_found, find_in,
  find_snapshot, update_in, refs_of,
}
use openbackup.Store.Paths.{clean_stored_path}
use openbackup.Store.Lookup.{find_in-update, mapped, refs_of-insert_refs_ne}
use openbackup.Store.Snapshots.{
  upsert_entry, insert_refs, insert_deletion, add_entry_rows, add_deletion_rows, add_entries, touch,
}
use openbackup.Store.Restorable.{IsRestorable}
use openbackup.Store.Restorable.Stood.{Stood, still, from_Stood}

-- What a batch of entries leaves alone: every snapshot row but its own time, the chunk rows, and
-- the references of other snapshots.
record Untouched (id : String) (db db' : Db) : Type 0 where
  same_snapshots : db'.snapshots ≡ db.snapshots
  same_chunks : db'.chunks ≡ db.chunks
  same_refs : (j : String) → str_eq id j ≡ false → refs_of j db'.refs ≡ refs_of j db.refs

untouched : (id : String) (db : Db) → Untouched id db db
untouched id db = record { same_snapshots = refl; same_chunks = refl; same_refs = λ j n. refl }

add_entry_rows-Untouched :
    (id : String) (es : List Entry) (db db' : Db)
    → add_entry_rows id es db ≡ ok db'
    → Untouched id db db'
unfolding add_entry_rows
add_entry_rows-Untouched id [] db db' h = subst (Untouched id db) (ok-injective h) (untouched id db)
add_entry_rows-Untouched id (e ∷ es) db db' h =
    step (clean_stored_path e.path) h (λ path. add_entry_rows-Untouched id es (with_entry path) db')
  where
    with_entry : Bytes → Db
    with_entry path = record db {
      entries = upsert_entry id (record e { path = path }) db.entries;
      refs = insert_refs id e.chunks db.refs;
    }

    step :
        (o : Option Bytes)
        → (elim o [ none ↦ err invalid_path | some path ↦ add_entry_rows id es (with_entry path) ])
          ≡ ok db'
        → ((path : Bytes)
            → add_entry_rows id es (with_entry path) ≡ ok db'
            → Untouched id (with_entry path) db')
        → Untouched id db db'
    step none k ih = absurd (err-ne-ok k)
    step (some path) k ih =
        let u = ih path k in
        record {
          same_snapshots = u.same_snapshots;
          same_chunks = u.same_chunks;
          same_refs = λ j n. u.same_refs j n ∙ refs_of-insert_refs_ne id j e.chunks db.refs n;
        }

add_deletion_rows-Untouched :
    (id : String) (ps : List Bytes) (db db' : Db)
    → add_deletion_rows id ps db ≡ ok db'
    → Untouched id db db'
unfolding add_deletion_rows
add_deletion_rows-Untouched id [] db db' h =
    subst (Untouched id db) (ok-injective h) (untouched id db)
add_deletion_rows-Untouched id (p ∷ ps) db db' h =
    step (clean_stored_path p) h
      (λ path. add_deletion_rows-Untouched id ps (with_deletion path) db')
  where
    with_deletion : Bytes → Db
    with_deletion path = record db { deletions = insert_deletion id path db.deletions }

    step :
        (o : Option Bytes)
        → (elim o [
          | none ↦ err invalid_path
          | some path ↦ add_deletion_rows id ps (with_deletion path)
        ])
          ≡ ok db'
        → ((path : Bytes)
            → add_deletion_rows id ps (with_deletion path) ≡ ok db'
            → Untouched id (with_deletion path) db')
        → Untouched id db db'
    step none k ih = absurd (err-ne-ok k)
    step (some path) k ih =
        let u = ih path k in
        record {
          same_snapshots = u.same_snapshots;
          same_chunks = u.same_chunks;
          same_refs = u.same_refs;
        }

add_entries-effect :
    (db db' : Db) (now : ℕ) (id : String) (entries : List Entry) (deleted : List Bytes)
    → add_entries db now id entries deleted ≡ ok db'
    → (db ≡ db')
      ⊎ ((s : Snapshot) × (find_snapshot db id ≡ some s)
          × (is_running s.status ≡ true)
          × Untouched id (record db { snapshots = update_in id (touch now) db.snapshots }) db')
unfolding add_entries
add_entries-effect db db' now id entries deleted h =
    step (is_empty entries && is_empty deleted) (find_snapshot db id) refl h
  where
    touched : Db
    touched = record db { snapshots = update_in id (touch now) db.snapshots }

    rows :
        (r : Result StoreError Db)
        → add_entry_rows id entries touched ≡ r
        → (r >>= add_deletion_rows id deleted) ≡ ok db'
        → Untouched id touched db'
    rows (err e) q k = absurd (err-ne-ok k)
    rows (ok mid) q k =
        let u = add_entry_rows-Untouched id entries touched mid q in
        let w = add_deletion_rows-Untouched id deleted mid db' k in
        record {
          same_snapshots = w.same_snapshots ∙ u.same_snapshots;
          same_chunks = w.same_chunks ∙ u.same_chunks;
          same_refs = λ j n. w.same_refs j n ∙ u.same_refs j n;
        }

    open_row :
        (s : Snapshot) (b : Bool)
        → is_running s.status ≡ b
        → find_snapshot db id ≡ some s
        → (if b
            then add_entry_rows id entries touched >>= add_deletion_rows id deleted
            else err conflict)
          ≡ ok db'
        → (s : Snapshot) × (find_snapshot db id ≡ some s)
          × (is_running s.status ≡ true)
          × Untouched id touched db'
    open_row s false r q k = absurd (err-ne-ok k)
    open_row s true r q k = (s, q, r, rows (add_entry_rows id entries touched) refl k)

    step :
        (b : Bool) (o : Option Snapshot)
        → find_snapshot db id ≡ o
        → (if b then ok db else elim o [
          | none ↦ err not_found
          | some s ↦
              if is_running s.status
              then add_entry_rows id entries touched >>= add_deletion_rows id deleted
              else err conflict
        ])
          ≡ ok db'
        → (db ≡ db')
          ⊎ ((s : Snapshot) × (find_snapshot db id ≡ some s)
              × (is_running s.status ≡ true)
              × Untouched id touched db')
    step true o q k = inl (ok-injective k)
    step false none q k = absurd (err-ne-ok k)
    step false (some s) q k = inr (open_row s (is_running s.status) refl q k)

module _ (db db' : Db) (now : ℕ) (id : String) (s : Snapshot) (found : find_snapshot db id ≡ some s)
    (open_now : is_running s.status ≡ true)
    (u : Untouched id (record db { snapshots = update_in id (touch now) db.snapshots }) db') where
  row_at :
      (j : String)
      → find_snapshot db' j
        ≡ (if str_eq id j then mapped (touch now) (find_snapshot db j) else find_snapshot db j)
  row_at j =
      ap (find_in j) u.same_snapshots ∙ find_in-update id j (touch now) db.snapshots (λ r. refl)

  not_open :
      (j : String) (t : Snapshot)
      → str_eq id j ≡ true
      → mapped (touch now) (find_snapshot db j) ≡ some t
      → ¬ (t.status ≡ complete)
  not_open j t e f done =
      let g : mapped (touch now) (some s) ≡ some t =
        ap (mapped (touch now)) (sym found ∙ ap (find_snapshot db) ((eq_iff id j).0 e)) ∙ f in
      ground arith

  batch-Stood :
      (j : String) (t : Snapshot)
      → find_snapshot db' j ≡ some t
      → t.status ≡ complete
      → Stood db db' j
  batch-Stood j t f done = elim (Bool-cases (str_eq id j)) [
    | inl e ↦ absurd (not_open j t e (rw e at (sym (row_at j) ∙ f)) done)
    | inr e ↦ still db db' j t (rw e at (sym (row_at j) ∙ f)) done (u.same_refs j e) u.same_chunks
  ]

pub add-IsRestorable :
    (db db' : Db) (now : ℕ) (id : String) (entries : List Entry) (deleted : List Bytes)
    → add_entries db now id entries deleted ≡ ok db'
    → IsRestorable db
    → IsRestorable db'
add-IsRestorable db db' now id entries deleted h inv =
    elim (add_entries-effect db db' now id entries deleted h) [
      | inl e ↦ subst IsRestorable e inv
      | inr (s, found, open_now, u) ↦
          from_Stood db db' (batch-Stood db db' now id s found open_now u) inv
    ]
