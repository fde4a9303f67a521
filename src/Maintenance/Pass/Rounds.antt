-- ===== src/Maintenance/Pass/Rounds.antt =====
-- internal/server/maintenance/maintenance.go, `collectGarbage`: it ends, and takes only what no
-- snapshot references.
use openbackup.Prelude.{
  ℕ, zero, suc, ◌≤◌, ◌<◌, ◌≡◌, ◌⊎◌, inl, inr, refl, sym, ap, subst, ◌∙◌, Bool, true, false, not,
  ◌&&◌, ◌||◌, String, List, [], ◌∷◌, some, arith, ltb, leb, ◌==◌, str_eq, if◌then◌else◌, Bool-cases,
  length, take, is_empty, All,
}
use openbackup.Prelude.Sets.{In, select, select-In, str_eq_refl}
use openbackup.Store.{ChunkRow, Db}
use openbackup.Store.Chunks.{referenced, unreferenced_chunks, delete_chunk_row}
use openbackup.Store.Restorable.{IsRestorable}
use openbackup.Store.Restorable.Updates.{collect-IsRestorable}
use openbackup.Maintenance.Pass.{
  gc_batch_size, Collected, Removal, stopped, blob_kept, row_kept, removed, blob_gone, both_gone,
  Batch, batch_loop, collect_loop, collect_garbage,
}

length-select : (p : ChunkRow → Bool) (cs : List ChunkRow) → length (select p cs) ≤ length cs
length-select p [] = omega arith
length-select p (c ∷ cs) = ground (arith, length-select p cs)

-- A row that is there and does not pass is missed.
length-select_less :
    (p : ChunkRow → Bool) (c : ChunkRow) (cs : List ChunkRow)
    → In c cs
    → p c ≡ false
    → length (select p cs) < length cs
length-select_less p c [] i h = absurd i
length-select_less p c (x ∷ cs) (inl e) h =
    let h' : p x ≡ false = ap p e ∙ h in rw h' (omega (arith, length-select p cs))
length-select_less p c (x ∷ cs) (inr i) h = ground (arith, length-select_less p c cs i h)

take-In : (n : ℕ) (c : ChunkRow) (cs : List ChunkRow) → In c (take n cs) → In c cs
take-In zero c cs i = absurd i
take-In (suc n) c [] i = i
take-In (suc n) c (x ∷ cs) (inl e) = inl e
take-In (suc n) c (x ∷ cs) (inr i) = inr (take-In n c cs i)

delete_chunk_row-less :
    (db : Db) (c : ChunkRow)
    → In c db.chunks
    → length (delete_chunk_row db c.digest).chunks < length db.chunks
unfolding delete_chunk_row
delete_chunk_row-less db c i =
    length-select_less (λ (x : ChunkRow). not (str_eq x.digest c.digest)) c db.chunks i
      (rw (str_eq_refl c.digest))

delete_chunk_row-le :
    (db : Db) (d : String) → length (delete_chunk_row db d).chunks ≤ length db.chunks
unfolding delete_chunk_row
delete_chunk_row-le db d = length-select (λ (x : ChunkRow). not (str_eq x.digest d)) db.chunks

unreferenced_chunks-In :
    (db : Db) (n : ℕ) (c : ChunkRow)
    → In c (unreferenced_chunks db n)
    → In c db.chunks × (referenced c.digest db.refs ≡ false)
unfolding unreferenced_chunks
unreferenced_chunks-In db n c i =
    let unused = λ (c : ChunkRow). not (referenced c.digest db.refs) in
    let (j, h) =
      select-In unused c db.chunks
        (take-In (if n == 0 then 1000 else n) c (select unused db.chunks) i) in
    (j, ground arith)

module _ (removal : String → Removal) where
  -- What each removal of a chunk of the batch keeps true holds after the batch.
  batch_loop-keeps :
      (Holds : Collected → Type 0) (cs : List ChunkRow)
      → ((c : ChunkRow) (g : Collected)
          → In c cs
          → Holds g
          → Holds (blob_gone c g) × Holds (both_gone c g))
      → (g : Collected) (went : ℕ) → Holds g
      → Holds (batch_loop removal cs g went).state
  unfolding batch_loop
  batch_loop-keeps Holds [] steps g went h = h
  batch_loop-keeps Holds (c ∷ cs) steps g went h =
      step (removal c.digest) refl (batch_loop-keeps Holds cs (λ c' g' i. steps c' g' (inr i)))
    where
      step :
          (r : Removal)
          → removal c.digest ≡ r
          → ((g' : Collected) (n : ℕ) → Holds g' → Holds (batch_loop removal cs g' n).state)
          → Holds (batch_loop removal (c ∷ cs) g went).state
      step stopped e ih = rw (e, batch_loop) h
      step blob_kept e ih = rw (e, batch_loop) (ih g went h)
      step row_kept e ih = rw (e, batch_loop) (ih (blob_gone c g) went (steps c g (inl refl) h).0)
      step removed e ih =
          rw (e, batch_loop) (ih (both_gone c g) (suc went) (steps c g (inl refl) h).1)

  abbrev NoMoreThan : ℕ → Collected → Type 0
  NoMoreThan n g = length g.db.chunks ≤ n

  batch_loop-le :
      (cs : List ChunkRow) (g : Collected) (went n : ℕ)
      → NoMoreThan n g
      → NoMoreThan n (batch_loop removal cs g went).state
  batch_loop-le cs g went n =
      batch_loop-keeps (NoMoreThan n) cs
        (λ c g' i h. (h, omega (arith, delete_chunk_row-le g'.db c.digest, h))) g went

  -- A batch in which a chunk went leaves fewer rows.
  batch_loop-less :
      (cs : List ChunkRow) (g : Collected) (went : ℕ)
      → ((c : ChunkRow) → In c cs → In c g.db.chunks)
      → went < (batch_loop removal cs g went).went
      → length (batch_loop removal cs g went).state.db.chunks < length g.db.chunks
  unfolding batch_loop
  batch_loop-less [] g went there h = absurd (omega (arith, h))
  batch_loop-less (c ∷ cs) g went there h =
      step (removal c.digest) refl (λ g' same k.
        batch_loop-less cs g' went (λ x i. subst (In x) (sym same) (there x (inr i))) k)
    where
      step :
          (r : Removal)
          → removal c.digest ≡ r
          → ((g' : Collected)
              → g'.db.chunks ≡ g.db.chunks
              → went < (batch_loop removal cs g' went).went
              → length (batch_loop removal cs g' went).state.db.chunks < length g'.db.chunks)
          → length (batch_loop removal (c ∷ cs) g went).state.db.chunks < length g.db.chunks
      step stopped e ih = absurd (omega (arith, rw (e, batch_loop) at h))
      step blob_kept e ih = rw (e, batch_loop) (ih g refl (rw (e, batch_loop) at h))
      step row_kept e ih = rw (e, batch_loop) (ih (blob_gone c g) refl (rw (e, batch_loop) at h))
      step removed e ih =
          rw (e, batch_loop)
            (omega (
              arith,
              batch_loop-le cs (both_gone c g) (suc went)
                  (length (delete_chunk_row g.db c.digest).chunks) (omega arith),
              delete_chunk_row-less g.db c (there c (inl refl)),
            ))

-- What a pass has done since the tables `db`: the references are the same, each blob that was
-- deleted is of a digest without a reference, and complete snapshots are still restorable.
pub record IsClean (db : Db) (g : Collected) : Type 0 where
  pub same_refs : g.db.refs ≡ db.refs
  pub unused_blobs : All (λ d. referenced d db.refs ≡ false) g.blobs_deleted
  pub restorable : IsRestorable db → IsRestorable g.db

module _ (removal : ℕ → String → Removal) (db : Db) where
  takes-IsClean :
      (c : ChunkRow) (g : Collected)
      → referenced c.digest db.refs ≡ false
      → IsClean db g
      → IsClean db (blob_gone c g) × IsClean db (both_gone c g)
  unfolding delete_chunk_row
  takes-IsClean c g unused h = (
    record {
      same_refs = h.same_refs;
      unused_blobs = (unused, h.unused_blobs);
      restorable = h.restorable;
    },
    record {
      same_refs = h.same_refs;
      unused_blobs = (unused, h.unused_blobs);
      restorable = λ r.
          collect-IsRestorable g.db c.digest (ap (referenced c.digest) h.same_refs ∙ unused)
            (h.restorable r);
    },
  )

  module _ (rounds : ℕ) (g : Collected) (clean : IsClean db g) where
    abbrev chunks : List ChunkRow
    chunks = unreferenced_chunks g.db gc_batch_size

    abbrev batch : Batch
    batch = batch_loop (removal rounds) chunks g 0

    abbrev is_last : Bool
    is_last =
        batch.was_stopped
        || batch.went == 0 && leb gc_batch_size (length chunks)
        || ltb (length chunks) gc_batch_size

    batch-IsClean : IsClean db batch.state
    batch-IsClean =
        batch_loop-keeps (removal rounds) (IsClean db) chunks
          (λ c g' i. takes-IsClean c g' (
            ap (referenced c.digest) (sym clean.same_refs)
            ∙ (unreferenced_chunks-In g.db gc_batch_size c i).1))
          g 0 clean

    batch-less : 0 < batch.went → length batch.state.db.chunks < length g.db.chunks
    batch-less =
        batch_loop-less (removal rounds) chunks g 0
          (λ c i. (unreferenced_chunks-In g.db gc_batch_size c i).0)

    round_ends :
        ((g' : Collected)
          → length g'.db.chunks < rounds
          → IsClean db g'
          → (g'' : Collected) × (collect_loop removal rounds g' ≡ some g'') × IsClean db g'')
        → length g.db.chunks < suc rounds
        → (g'' : Collected) × (collect_loop removal (suc rounds) g ≡ some g'') × IsClean db g''
    unfolding collect_loop
    round_ends later h = none_left (Bool-cases (is_empty chunks)) (Bool-cases is_last)
      where
        Ends : Type 0
        Ends = (g'' : Collected) × (collect_loop removal (suc rounds) g ≡ some g'') × IsClean db g''

        goes_on : is_empty chunks ≡ false → is_last ≡ false → Ends
        goes_on e c =
            let some_went : 0 < batch.went = ground arith in
            let (g'', q, w) =
              later batch.state (omega (arith, batch-less some_went, h)) batch-IsClean in
            (g'', rw (e, collect_loop) (rw c q), w)

        none_left :
            (is_empty chunks ≡ true) ⊎ (is_empty chunks ≡ false)
            → (is_last ≡ true) ⊎ (is_last ≡ false)
            → Ends
        none_left (inl e) c = (g, rw (e, collect_loop) refl, clean)
        none_left (inr e) (inl c) = (batch.state, rw (e, collect_loop) (rw c refl), batch-IsClean)
        none_left (inr e) (inr c) = goes_on e c

  collect_loop-ends :
      (rounds : ℕ) (g : Collected)
      → length g.db.chunks < rounds
      → IsClean db g
      → (g' : Collected) × (collect_loop removal rounds g ≡ some g') × IsClean db g'
  collect_loop-ends zero g h clean = absurd (omega (arith, h))
  collect_loop-ends (suc rounds) g h clean = round_ends rounds g clean (collect_loop-ends rounds) h

-- Garbage collection ends, whatever removals fail in which round: the rounds given are enough. Where nothing else
-- writes meanwhile, it deletes only blobs that no snapshot references, leaves the references, and
-- keeps every complete snapshot restorable.
pub collect_garbage-IsClean :
    (removal : ℕ → String → Removal) (db : Db)
    → (g : Collected) × (collect_garbage removal db ≡ some g) × IsClean db g
unfolding collect_garbage
collect_garbage-IsClean removal db =
    collect_loop-ends removal db (suc (length db.chunks))
      (record { db = db; blobs_deleted = []; deleted = 0; freed = 0 }) (omega arith)
      (record { same_refs = refl; unused_blobs = tt; restorable = λ h. h })
