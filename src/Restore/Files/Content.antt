-- ===== src/Restore/Files/Content.antt =====
-- internal/agent/restore/restore.go, `restoreFile`: the checks of what is written.
use openbackup.Prelude.{
  ℕ, ◌≡◌, ◌⊎◌, inl, inr, sym, ap, subst, ◌∙◌, true, false, Bytes, String, List, [], ◌∷◌, ◌++◌,
  Option, none, some, str_eq, eq_iff, if_cases, Bool-cases, length,
}
use openbackup.Prelude.Result.{Result, ok, err, ok-injective, err-ne-ok, bind-ok}
use openbackup.Store.{Entry}
use openbackup.Restore.Files.{
  Conflict, skip_existing, overwrite, keep_both, Node, file, folder, link, Disk, write, render,
  FileError, Surroundings, quoting, checked, read_chunk, read_chunks, place, whole_matches,
  write_verified, Outcome, restored, skipped, failed, outcome, without_name, fetch_into,
  make_folders, restore_file,
}

-- The plaintexts of a list of digests, each of which has its digest
abbrev pub Pieces : Surroundings → List String → List Bytes → Type 0
Pieces w [] [] = Unit
Pieces w [] (p ∷ ps) = ⊥
Pieces w (d ∷ ds) [] = ⊥
Pieces w (d ∷ ds) (p ∷ ps) = (w.sum p ≡ d) × Pieces w ds ps

abbrev pub joined : List Bytes → Bytes
joined [] = []
joined (p ∷ ps) = p ++ joined ps

read_chunk-sum :
    (w : Surroundings) (d : String) (plain : Bytes) → read_chunk w d ≡ ok plain → w.sum plain ≡ d
unfolding read_chunk
read_chunk-sum w d plain h = at (w.fetch d) h
  where
    decoded : (blob : Bytes) (o : Option Bytes) → checked w d blob o ≡ ok plain → w.sum plain ≡ d
    decoded blob none q =
        if_cases (λ (r : Result FileError Bytes). r ≡ ok plain → w.sum plain ≡ d)
          (w.is_encrypted blob) _ _ (λ e k. absurd (err-ne-ok k)) (λ e k. absurd (err-ne-ok k)) q
    decoded blob (some p) q =
        if_cases (λ (r : Result FileError Bytes). r ≡ ok plain → w.sum plain ≡ d)
          (str_eq (w.sum p) d) _ _
          (λ e k. subst (λ x. w.sum x ≡ d) (ok-injective k) ((eq_iff (w.sum p) d).0 e))
          (λ e k. absurd (err-ne-ok k)) q

    at :
        (o : Option Bytes)
        → (elim o as (λ x. Result FileError Bytes) [
          | none ↦ err (quoting d openbackup.Restore.Files.fetch_failed)
          | some blob ↦ checked w d blob (w.decode blob)
        ])
          ≡ ok plain
        → w.sum plain ≡ d
    at none q = absurd (err-ne-ok q)
    at (some blob) q = decoded blob (w.decode blob) q

pub read_chunks-Pieces :
    (w : Surroundings) (ds : List String) (content : Bytes)
    → read_chunks w ds ≡ ok content
    → (ps : List Bytes) × Pieces w ds ps × (content ≡ joined ps)
unfolding read_chunks
read_chunks-Pieces w [] content h = ([], tt, sym (ok-injective h))
read_chunks-Pieces w (d ∷ ds) content h =
    let (plain, e1, h1) = bind-ok (read_chunk w d) _ h in
    let (rest, e2, h2) = bind-ok (read_chunks w ds) _ h1 in
    let (ps, pieces, e3) = read_chunks-Pieces w ds rest e2 in
    (
      plain ∷ ps,
      (read_chunk-sum w d plain e1, pieces),
      sym (ok-injective h2) ∙ ap (λ l. plain ++ l) e3,
    )

-- What a file that was restored is
pub record IsVerified (w : Surroundings) (entry : Entry) (content : Bytes) : Type 0 where
  pub pieces : (ps : List Bytes) × Pieces w entry.chunks ps × (content ≡ joined ps)
  pub whole : (entry.digest ≡ "") ⊎ (w.sum content ≡ entry.digest)

pub outcome-restored :
    (made : Disk) (r : Result FileError (Disk × ℕ)) (n : ℕ) (disk : Disk)
    → outcome made r ≡ restored n disk
    → r ≡ ok (disk, n)
outcome-restored made (err e) n disk h = absurd (differ h)
  where
    differ : ¬ (failed e made ≡ restored n disk)
    differ q = cc
outcome-restored made (ok (disk', n')) n disk h = cc

pub write_verified-ok :
    (w : Surroundings) (entry : Entry) (made : Disk) (name content : Bytes) (n : ℕ) (disk : Disk)
    → write_verified w entry made name content ≡ ok (disk, n)
    → (whole_matches w entry content ≡ true)
      × (write made name (file content) ≡ disk)
      × (length content ≡ n)
write_verified-ok w entry made name content n disk h =
    if_cases Gives (whole_matches w entry content) _ _
      (λ e q.
        if_cases Gives (w.can_write name) _ _
          (λ k q. (
            e,
            ap (λ (x : Disk × ℕ). x.0) (ok-injective q),
            ap (λ (x : Disk × ℕ). x.1) (ok-injective q),
          ))
          (λ k q. absurd (err-ne-ok q)) q)
      (λ e q. absurd (err-ne-ok q)) h
  where
    Gives : Result FileError (Disk × ℕ) → Type 0
    Gives r =
        r ≡ ok (disk, n)
        → (whole_matches w entry content ≡ true)
          × (write made name (file content) ≡ disk)
          × (length content ≡ n)

pub whole-cases :
    (w : Surroundings) (entry : Entry) (content : Bytes)
    → whole_matches w entry content ≡ true
    → (entry.digest ≡ "") ⊎ (w.sum content ≡ entry.digest)
whole-cases w entry content e = by (Bool-cases (str_eq entry.digest "")) e
  where
    by :
        (str_eq entry.digest "" ≡ true) ⊎ (str_eq entry.digest "" ≡ false)
        → whole_matches w entry content ≡ true
        → (entry.digest ≡ "") ⊎ (w.sum content ≡ entry.digest)
    by (inl q) e = inl ((eq_iff entry.digest "").0 q)
    by (inr q) e = inr ((eq_iff (w.sum content) entry.digest).0 (rw q at e))
