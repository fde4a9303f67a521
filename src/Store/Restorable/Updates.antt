-- ===== src/Store/Restorable/Updates.antt =====
-- internal/server/store: `StartSnapshot`, `FailStaleSnapshots`, `SetSnapshotPinned`, `RegisterChunk`,
-- `DeleteSnapshotCascade`, `DeleteDevice` and `DeleteChunkRow` keep complete snapshots restorable.
use openbackup.Prelude.{
  ℕ, ◌-◌, ◌≡◌, ◌⊎◌, inl, inr, refl, sym, ap, subst, ◌∙◌, Bool, true, false, not, String, List, [],
  ◌∷◌, Option, none, some, arith, str_eq, eq_iff, if◌then◌else◌, Bool-cases, if_cases, map, All,
  All-imp, codes,
}
use mathlib.Core.Bool.{false≢true}
use openbackup.Prelude.Result.{Result, ok, err, ok-injective, err-ne-ok}
use openbackup.Prelude.Sets.{has, select}
use openbackup.Codec.{validate}
use openbackup.Store.{
  running, complete, Snapshot, RefRow, ChunkRow, Db, StoreError, not_found, find_in, find_snapshot,
  update_in, has_chunk, refs_of,
}
use openbackup.Store.Lookup.{
  find_in-append_ne, find_in-update, find_in-update_all, find_in-select, mapped, refs_of-select,
  has_chunk-append, has_chunk-select,
}
use openbackup.Store.Snapshots.{
  StartRequest, start_snapshot, fail_if_stale, update_all, fail_stale_snapshots,
}
use openbackup.Store.Chunks.{
  register_rows, register_chunk, insert_chunk, referenced, delete_chunk_row,
}
use openbackup.Store.Deletion.{
  Device, id_of, of_device, any_owned, delete_device, victims, delete_all, delete_snapshot_cascade,
  pin_if_owned, set_snapshot_pinned,
}
use openbackup.Store.Restorable.{IsRestorable}
use openbackup.Store.Restorable.Stood.{Stood, still, from_Stood, All-kept}

pub start-IsRestorable :
    (db : Db) (id : String) (now : ℕ) (user device : String) (req : StartRequest)
    → IsRestorable db
    → IsRestorable (start_snapshot db id now user device req).0
unfolding start_snapshot
start-IsRestorable db id now user device req h = record {
  at = λ j s found done.
      h.at j s
        (find_in-append_ne j db.snapshots _ s found
          (λ e. running_ne (ap (λ (r : Snapshot). r.status) e ∙ done)))
        done;
}
  where
    running_ne : ¬ (running ≡ complete)
    running_ne e = cc

pub reap-IsRestorable :
    (db : Db) (now older_than : ℕ)
    → IsRestorable db
    → IsRestorable (fail_stale_snapshots db now older_than)
unfolding fail_stale_snapshots
reap-IsRestorable db now older_than = from_Stood db (fail_stale_snapshots db now older_than) stood
  where
    f : Snapshot → Snapshot
    f = fail_if_stale now (now - older_than)

    was :
        (o : Option Snapshot) (t : Snapshot)
        → mapped f o ≡ some t
        → t.status ≡ complete
        → (s : Snapshot) × (o ≡ some s) × (s.status ≡ complete)
    was none t e done = cc
    was (some s) t e done = (s, refl, ground arith)

    stood :
        (j : String) (t : Snapshot)
        → find_in j (update_all f db.snapshots) ≡ some t
        → t.status ≡ complete
        → Stood db (fail_stale_snapshots db now older_than) j
    stood j t found done =
        let (s, e, was_done) =
          was (find_snapshot db j) t
            (sym (find_in-update_all j f db.snapshots (λ s. ground arith)) ∙ found) done in
        still db _ j s e was_done refl refl

module _ (db : Db) (user id : String) (pinned : Bool) where
  abbrev pinned_db : Db
  pinned_db = record db { snapshots = update_in id (pin_if_owned user pinned) db.snapshots }

  set_snapshot_pinned-effect :
      (db' : Db) → set_snapshot_pinned db user id pinned ≡ ok db' → pinned_db ≡ db'
  unfolding set_snapshot_pinned
  set_snapshot_pinned-effect db' h = step (find_snapshot db id) h
    where
      owned : (b : Bool) → (if b then ok pinned_db else err not_found) ≡ ok db' → pinned_db ≡ db'
      owned true k = ok-injective k
      owned false k = absurd (err-ne-ok k)

      step :
          (o : Option Snapshot)
          → (elim o [
            | none ↦ err not_found
            | some s ↦ if str_eq s.user user then ok pinned_db else err not_found
          ])
            ≡ ok db'
          → pinned_db ≡ db'
      step none k = absurd (err-ne-ok k)
      step (some s) k = owned (str_eq s.user user) k

  pin-Stood :
      (j : String) (t : Snapshot)
      → find_snapshot pinned_db j ≡ some t
      → t.status ≡ complete
      → Stood db pinned_db j
  pin-Stood j t found done =
      let (s, e, was_done) =
        was (str_eq id j) (find_snapshot db j) t
          (sym (find_in-update id j (pin_if_owned user pinned) db.snapshots (λ r. ground arith))
            ∙ found)
          done in
      still db pinned_db j s e was_done refl refl
    where
      was :
          (b : Bool) (o : Option Snapshot) (t : Snapshot)
          → (if b then mapped (pin_if_owned user pinned) o else o) ≡ some t
          → t.status ≡ complete
          → (s : Snapshot) × (o ≡ some s) × (s.status ≡ complete)
      was true none t e done = cc
      was true (some s) t e done = (s, refl, ground arith)
      was false o t e done = (t, e, done)

pub pin-IsRestorable :
    (db db' : Db) (user id : String) (pinned : Bool)
    → set_snapshot_pinned db user id pinned ≡ ok db'
    → IsRestorable db
    → IsRestorable db'
pin-IsRestorable db db' user id pinned h inv =
    subst IsRestorable (set_snapshot_pinned-effect db user id pinned db' h)
      (from_Stood db (pinned_db db user id pinned) (pin-Stood db user id pinned) inv)

has_chunk-insert :
    (d : String) (c : ChunkRow) (cs : List ChunkRow)
    → has_chunk d cs ≡ true
    → has_chunk d (insert_chunk c cs) ≡ true
has_chunk-insert d c cs h = ground (arith, has_chunk-append d cs (c ∷ []))

register_rows-IsRestorable :
    (db : Db) (now : ℕ) (user digest : String) (stored plain : ℕ) (encrypted : Bool)
    → IsRestorable db
    → IsRestorable (register_rows db now user digest stored plain encrypted)
unfolding register_rows
register_rows-IsRestorable db now user digest stored plain encrypted =
    from_Stood db (register_rows db now user digest stored plain encrypted) (λ j s found done.
      record {
        row = s;
        was_found = found;
        was_complete = done;
        same_refs = refl;
        kept = All-kept _ (λ d k. has_chunk-insert d _ db.chunks k) (refs_of j db.refs);
      })

pub register_chunk-IsRestorable :
    (db db' : Db) (now : ℕ) (user digest : String) (stored plain : ℕ) (encrypted : Bool)
    → register_chunk db now user digest stored plain encrypted ≡ ok db'
    → IsRestorable db
    → IsRestorable db'
unfolding register_chunk
register_chunk-IsRestorable db db' now user digest stored plain encrypted h inv =
    if_cases (λ r. r ≡ ok db' → IsRestorable db') (validate (codes digest)) _ _
      (λ e q.
        subst IsRestorable (ok-injective q)
          (register_rows-IsRestorable db now user digest stored plain encrypted inv))
      (λ e q. absurd (err-ne-ok q)) h

delete_all-IsRestorable :
    (db : Db) (ids : List String) → IsRestorable db → IsRestorable (delete_all db ids)
unfolding delete_all
delete_all-IsRestorable db ids = from_Stood db (delete_all db ids) stood
  where
    was :
        (o : Option Snapshot) (b : Bool) (t : Snapshot)
        → (if b then o else none) ≡ some t
        → (b ≡ true) × (o ≡ some t)
    was o true t e = (refl, e)
    was o false t e = cc

    stood :
        (j : String) (t : Snapshot)
        → find_snapshot (delete_all db ids) j ≡ some t
        → t.status ≡ complete
        → Stood db (delete_all db ids) j
    stood j t found done =
        let (alive, e) =
          was (find_snapshot db j) (not (has j ids)) t
            (sym (find_in-select (λ i. not (has i ids)) j db.snapshots) ∙ found) in
        still db _ j t e done (refs_of-select (λ i. not (has i ids)) j db.refs alive) refl

pub remove-IsRestorable :
    (db : Db) (root : String) → IsRestorable db → IsRestorable (delete_snapshot_cascade db root).0
unfolding delete_snapshot_cascade
remove-IsRestorable db root = delete_all-IsRestorable db (victims db.snapshots root)

pub forget-IsRestorable :
    (db db' : Db) (devices devices' : List Device) (user device : String)
    → delete_device db devices user device ≡ ok (db', devices')
    → IsRestorable db
    → IsRestorable db'
unfolding delete_device
forget-IsRestorable db db' devices devices' user device h inv =
    if_cases
      (λ (r : Result StoreError (Db × List Device)). r ≡ ok (db', devices') → IsRestorable db')
      (any_owned user device devices) _ _
      (λ e q.
        subst IsRestorable (ap (λ (p : Db × List Device). p.0) (ok-injective q))
          (delete_all-IsRestorable db (map id_of (select (of_device device) db.snapshots)) inv))
      (λ e q. absurd (err-ne-ok q)) h

-- A digest of a snapshot is referenced.
refs_of-referenced :
    (j digest : String) (rs : List RefRow)
    → referenced digest rs ≡ false
    → All (λ d. str_eq digest d ≡ false) (refs_of j rs)
unfolding referenced refs_of
refs_of-referenced j digest [] h = tt
refs_of-referenced j digest (r ∷ rs) h =
    step (Bool-cases (str_eq r.snapshot j)) (Bool-cases (str_eq r.digest digest))
      (refs_of-referenced j digest rs)
  where
    step :
        (str_eq r.snapshot j ≡ true) ⊎ (str_eq r.snapshot j ≡ false)
        → (str_eq r.digest digest ≡ true) ⊎ (str_eq r.digest digest ≡ false)
        → (referenced digest rs ≡ false → All (λ d. str_eq digest d ≡ false) (refs_of j rs))
        → All (λ d. str_eq digest d ≡ false) (refs_of j (r ∷ rs))
    step c (inl e) ih = absurd (false≢true (sym (rw e at h)))
    step (inl e) (inr n) ih =
        rw e (ground (arith, eq_iff r.digest digest, eq_iff digest r.digest), ih (rw n at h))
    step (inr e) (inr n) ih = rw e (ih (rw n at h))

pub collect-IsRestorable :
    (db : Db) (digest : String)
    → referenced digest db.refs ≡ false
    → IsRestorable db
    → IsRestorable (delete_chunk_row db digest)
unfolding delete_chunk_row
collect-IsRestorable db digest unused =
    from_Stood db (delete_chunk_row db digest) (λ j s found done. record {
      row = s;
      was_found = found;
      was_complete = done;
      same_refs = refl;
      kept =
          All-imp _ _ (refs_of j db.refs) (λ d n k. has_chunk-select digest d db.chunks n ∙ k)
            (refs_of-referenced j digest db.refs unused);
    })
