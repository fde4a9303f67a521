-- ===== src/Restore/Files/Verified.antt =====
-- internal/agent/restore/restore.go, `restoreFile`: what is on the disk after a file was restored.
use openbackup.Prelude.{
  ℕ, ◌≡◌, ◌⊎◌, refl, sym, subst, false, Bytes, List, ◌++◌, Option, none, some, length,
}
use openbackup.Prelude.Result.{Result, ok, err, ◌>>=◌, bind-ok}
use openbackup.Store.{Entry}
use openbackup.Restore.Files.{
  Conflict, overwrite, file, Disk, write, render, FileError, Surroundings, stat, read_chunks, place,
  write_verified, Outcome, restored, skipped, failed, without_name, fetch_into, make_folders,
  restore_file,
}
use openbackup.Restore.Files.Content.{
  read_chunks-Pieces, IsVerified, outcome-restored, write_verified-ok, whole-cases,
}
use openbackup.Restore.Files.Placed.{place-free}

-- What a restored file leaves: the content at its name, over the folders that were made
pub record Left (w : Surroundings) (entry : Entry) (target segs : List Bytes) (disk disk' : Disk)
    (n : ℕ) : Type 0 where
  pub content : Bytes
  pub name : Bytes
  pub made : Disk
  pub folders : make_folders disk target (without_name segs) ≡ ok made
  pub at_name : disk' ≡ write made name (file content)
  pub counted : n ≡ length content
  pub verified : IsVerified w entry content

module _ (w : Surroundings) (entry : Entry) (target segs : List Bytes) (disk disk' : Disk)
    (n : ℕ) where
  fetch_into-Left :
      (name : Bytes) (r : Result FileError Disk)
      → make_folders disk target (without_name segs) ≡ r
      → fetch_into w entry disk name r ≡ restored n disk'
      → (l : Left w entry target segs disk disk' n) × (l.name ≡ name)
  fetch_into-Left name (err e) q h = absurd (differ h)
    where
      differ : ¬ (failed e disk ≡ restored n disk')
      differ q = cc
  fetch_into-Left name (ok made) q h =
      let done =
        outcome-restored made (read_chunks w entry.chunks >>= write_verified w entry made name) n
          disk' h in
      let (content, e1, h1) = bind-ok (read_chunks w entry.chunks) _ done in
      let (whole, e2, e3) = write_verified-ok w entry made name content n disk' h1 in
      (
        record {
          content = content;
          name = name;
          made = made;
          folders = q;
          at_name = sym e2;
          counted = sym e3;
          verified = record {
            pieces = read_chunks-Pieces w entry.chunks content e1;
            whole = whole-cases w entry content whole;
          };
        },
        refl,
      )

  -- A file that is reported as restored is on the disk, complete: each chunk has its digest and the
  -- whole has the entry's, where the entry has one. Unless the user asked to overwrite, os.Stat had
  -- found nothing at the name that it got: no file and no folder, nor a link that leads to one.
  pub restore_file-Left :
      (policy : Conflict)
      → restore_file w policy false entry target segs disk ≡ restored n disk'
      → (l : Left w entry target segs disk disk' n) × ((policy ≡ overwrite)
          ⊎ (stat w disk l.name ≡ none))
  unfolding restore_file
  restore_file-Left policy h = at (place policy (stat w disk) dest (stat w disk dest)) refl h
    where
      dest : Bytes
      dest = render (target ++ segs)

      not_failed : (e : FileError) → ¬ (failed e disk ≡ restored n disk')
      not_failed e q = cc

      not_skipped : ¬ (skipped ≡ restored n disk')
      not_skipped q = cc

      at :
          (r : Result FileError (Option Bytes))
          → place policy (stat w disk) dest (stat w disk dest) ≡ r
          → (elim r as (λ x. Outcome) [
            | err e ↦ failed e disk
            | ok none ↦ skipped
            | ok (some name) ↦
                fetch_into w entry disk name (make_folders disk target (without_name segs))
          ])
            ≡ restored n disk'
          → (l : Left w entry target segs disk disk' n) × ((policy ≡ overwrite)
              ⊎ (stat w disk l.name ≡ none))
      at (err e) q h = absurd (not_failed e h)
      at (ok none) q h = absurd (not_skipped h)
      at (ok (some name)) q h =
          let (l, e) = fetch_into-Left name (make_folders disk target (without_name segs)) refl h in
          (
            l,
            subst (λ x. (policy ≡ overwrite) ⊎ (stat w disk x ≡ none)) (sym e)
                (place-free policy (stat w disk) dest name q),
          )
