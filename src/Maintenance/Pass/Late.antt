-- ===== src/Maintenance/Pass/Late.antt =====
-- internal/server/maintenance/maintenance.go, `collectGarbage`, among other calls of the store: the
-- list of a batch is read once, and its chunks go without another look.
use openbackup.Prelude.{
  ℕ, suc, ◌≡◌, ◌⊎◌, inl, inr, refl, sym, ap, subst, ◌∙◌, false, String, List, [], ◌∷◌, some, str_eq,
  Bool-cases, true,
}
use mathlib.Core.Bool.{false≢true}
use openbackup.Prelude.Sets.{In, All-In}
use openbackup.Store.{complete, Snapshot, RefRow, ChunkRow, Db, find_snapshot, has_chunk, refs_of}
use openbackup.Store.Lookup.{has_chunk-select, has_chunk-select_self}
use openbackup.Store.Chunks.{unreferenced_chunks, delete_chunk_row}
use openbackup.Store.Restorable.{Reach, IsRestorable}
use openbackup.Store.Restorable.Steps.{Reach-IsRestorable}
use openbackup.Maintenance.Pass.{Collected, Removal, removed, both_gone, batch_loop}

-- A pass in which every removal succeeds
abbrev pub all_removed : String → Removal
all_removed digest = removed

gone-stays :
    (d e : String) (db : Db)
    → has_chunk d db.chunks ≡ false
    → has_chunk d (delete_chunk_row db e).chunks ≡ false
unfolding delete_chunk_row
gone-stays d e db h = at (Bool-cases (str_eq e d))
  where
    at :
        (str_eq e d ≡ true) ⊎ (str_eq e d ≡ false)
        → has_chunk d (delete_chunk_row db e).chunks ≡ false
    at (inl q) =
        subst (λ x. has_chunk x (delete_chunk_row db e).chunks ≡ false)
          ((openbackup.Prelude.eq_iff e d).0 q) (has_chunk-select_self e db.chunks)
    at (inr q) = has_chunk-select e d db.chunks q ∙ h

-- What a batch does to a digest, and what it leaves alone
batch_loop-rows :
    (cs : List ChunkRow) (g : Collected) (went : ℕ) (d : String)
    → let after = (batch_loop all_removed cs g went).state.db in
      (after.snapshots ≡ g.db.snapshots)
      × (after.refs ≡ g.db.refs)
      × (has_chunk d g.db.chunks ≡ false → has_chunk d after.chunks ≡ false)
      × ((c : ChunkRow) → In c cs → c.digest ≡ d → has_chunk d after.chunks ≡ false)
unfolding batch_loop delete_chunk_row
batch_loop-rows [] g went d = (refl, refl, λ h. h, λ c i e. absurd i)
batch_loop-rows (x ∷ cs) g went d =
    let (s, r, stays, goes) = batch_loop-rows cs (both_gone x g) (suc went) d in
    (s, r, λ h. stays (gone-stays d x.digest g.db h), λ c i e. listed stays goes c i e)
  where
    listed :
        (has_chunk d (delete_chunk_row g.db x.digest).chunks ≡ false
          → has_chunk d (batch_loop all_removed cs (both_gone x g) (suc went)).state.db.chunks
            ≡ false)
        → ((c : ChunkRow)
            → In c cs
            → c.digest ≡ d
            → has_chunk d (batch_loop all_removed cs (both_gone x g) (suc went)).state.db.chunks
              ≡ false)
        → (c : ChunkRow) → In c (x ∷ cs)
        → c.digest ≡ d
        → has_chunk d (batch_loop all_removed cs (both_gone x g) (suc went)).state.db.chunks ≡ false
    listed stays goes c (inr i) e = goes c i e
    listed stays goes c (inl q) e =
        let own : x.digest ≡ d = ap (λ (y : ChunkRow). y.digest) q ∙ e in
        stays (
          subst (λ y. has_chunk y (delete_chunk_row g.db x.digest).chunks ≡ false) own
            (has_chunk-select_self x.digest g.db.chunks))

-- A batch of chunks that were unreferenced when it was listed is removed as it is: if other calls of
-- the store lead meanwhile to a complete snapshot that references one of them, every complete
-- snapshot can be restored before the batch is removed, and that one cannot be restored after it,
-- where every removal succeeds and no complete snapshot was broken before.
pub batch_loop-breaks :
    (db : Db) (limit : ℕ) (g : Collected) (went : ℕ) (c : ChunkRow) (id : String) (s : Snapshot)
    → IsRestorable db
    → In c (unreferenced_chunks db limit)
    → Reach db g.db
    → find_snapshot g.db id ≡ some s
    → s.status ≡ complete
    → In c.digest (refs_of id g.db.refs)
    → IsRestorable g.db
      × (¬ IsRestorable (batch_loop all_removed (unreferenced_chunks db limit) g went).state.db)
batch_loop-breaks db limit g went c id s sound listed meanwhile found done used =
    let (rows, refs, stays, goes) =
      batch_loop-rows (unreferenced_chunks db limit) g went c.digest in
    (
      Reach-IsRestorable meanwhile sound,
      λ inv. false≢true (
          sym (goes c listed refl)
          ∙ All-In _ c.digest (refs_of id g.db.refs)
              (subst
                (λ (rs : List RefRow).
                  openbackup.Prelude.All
                    (λ d.
                      has_chunk d
                        (batch_loop all_removed (unreferenced_chunks db limit) g
                          went).state.db.chunks
                      ≡ true)
                    (refs_of id rs))
                refs (inv.at id s (ap (openbackup.Store.find_in id) rows ∙ found) done))
              used),
    )
