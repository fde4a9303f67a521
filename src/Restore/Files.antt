-- ===== src/Restore/Files.antt =====
-- internal/agent/restore/restore.go: one entry of a snapshot on the disk. The disk is what stands
-- at each path; whether the system lets a file be written, and what it finds at the end of a link,
-- are arguments. Times and modes are left out. Below a link nothing is written:
-- `ensureNoSymlinkAncestors` has looked at every segment before, unless in a dry run.
pub mod Content
pub mod Placed
pub mod Verified
pub mod Beside
use openbackup.Prelude.{
  ℕ, zero, suc, ◌+◌, Bool, true, false, not, ◌&&◌, ◌||◌, Bytes, String, List, [], ◌∷◌, ◌++◌, Option,
  none, some, str_eq, ltb, if◌then◌else◌, is_empty, length, codes,
}
use openbackup.Prelude.Result.{Result, ok, err, ◌>>=◌}
use openbackup.Text.{join, bytes_eq}
use openbackup.Store.{Entry}
use openbackup.Store.Paths.{slash}
use openbackup.Restore.Names.{NameError, safe_join, relative, relative_name, unique_name}

pub data Conflict : Type 0 where
  skip_existing overwrite keep_both : Conflict

pub data Node : Type 0 where
  file : Bytes → Node
  folder : Node
  link : Bytes → Node

abbrev pub Disk : Type 0
Disk = Bytes → Option Node

abbrev pub write : Disk → Bytes → Node → Disk
write disk path node p = if bytes_eq p path then some node else disk p

-- The text of an absolute path
abbrev pub render : List Bytes → Bytes
render segs = slash ∷ join slash segs

-- `crash` is a slice out of range: digest[:12] of a shorter digest.
pub data FileError : Type 0 where
  no_free_name folder_in_the_way fetch_failed other_key decode_failed crash : FileError
  chunk_mismatch digest_mismatch cannot_write : FileError

-- Client.GetChunk and Codec.Decode, IsEncrypted, hash.Sum, what the system allows, and what it finds
-- at the end of the link at a path
pub record Surroundings : Type 0 where
  pub fetch : String → Option Bytes
  pub decode : Bytes → Option Bytes
  pub is_encrypted : Bytes → Bool
  pub sum : Bytes → String
  pub can_write : Bytes → Bool
  pub follow : Disk → Bytes → Option Node

abbrev pub stat_node : Option Node → Option Node → Option Node
stat_node followed (some (link t)) = followed
stat_node followed o = o

-- os.Stat, which follows a link
abbrev pub stat : Surroundings → Disk → Bytes → Option Node
stat w disk path = stat_node (w.follow disk path) (disk path)

-- An error whose text quotes the first twelve bytes of a digest
abbrev pub quoting : String → FileError → FileError
quoting digest e = if ltb (length (codes digest)) 12 then crash else e

abbrev pub checked : Surroundings → String → Bytes → Option Bytes → Result FileError Bytes
checked w digest blob none =
    if w.is_encrypted blob then err other_key else err (quoting digest decode_failed)
checked w digest blob (some plain) =
    if str_eq (w.sum plain) digest then ok plain else err (quoting digest chunk_mismatch)

unfoldable pub read_chunk : Surroundings → String → Result FileError Bytes
read_chunk w digest = elim (w.fetch digest) [
  | none ↦ err (quoting digest fetch_failed)
  | some blob ↦ checked w digest blob (w.decode blob)
]

-- The loop over the chunks: what the temporary file and the verifier get
unfoldable pub read_chunks : Surroundings → List String → Result FileError Bytes
unfolding read_chunk
read_chunks w [] = ok []
read_chunks w (d ∷ ds) = read_chunk w d >>= λ plain. read_chunks w ds >>= λ rest. ok (plain ++ rest)

-- What becomes of a name that is taken, by what `stat_of` tells; no name is a file that is left
-- alone.
abbrev pub place :
    Conflict → (Bytes → Option Node) → Bytes → Option Node → Result FileError (Option Bytes)
place policy stat_of dest none = ok (some dest)
place skip_existing stat_of dest (some node) = ok none
place keep_both stat_of dest (some node) =
    elim (unique_name (λ p. elim (stat_of p) [ none ↦ true | some n ↦ false ]) dest) [
      | none ↦ err no_free_name
      | some name ↦ ok (some name)
    ]
place overwrite stat_of dest (some folder) = err folder_in_the_way
place overwrite stat_of dest (some node) = ok (some dest)

abbrev pub whole_matches : Surroundings → Entry → Bytes → Bool
whole_matches w entry content = str_eq entry.digest "" || str_eq (w.sum content) entry.digest

-- `MkdirAll` below `above`. Where something else is in the way, no folder is made above it either,
-- since what is there stands in folders.
unfoldable pub make_folders : Disk → List Bytes → List Bytes → Result FileError Disk
make_folders disk above [] = ok disk
make_folders disk above (seg ∷ segs) =
    let here = above ++ seg ∷ [] in
    elim (disk (render here)) [
      | none ↦ make_folders (write disk (render here) folder) here segs
      | some folder ↦ make_folders disk here segs
      | some other ↦ err cannot_write
    ]

-- What is written, and where, once the name is chosen
abbrev pub write_verified :
    Surroundings → Entry → Disk → Bytes → Bytes → Result FileError (Disk × ℕ)
write_verified w entry disk dest content =
    if whole_matches w entry content
    then (if w.can_write dest
        then ok (write disk dest (file content), length content)
        else err cannot_write)
    else err digest_mismatch

-- A failure leaves the folders that were made for the file.
pub data Outcome : Type 0 where
  restored : ℕ → Disk → Outcome
  skipped : Outcome
  failed : FileError → Disk → Outcome

abbrev pub outcome : Disk → Result FileError (Disk × ℕ) → Outcome
outcome made (err e) = failed e made
outcome made (ok (disk, n)) = restored n disk

abbrev pub without_name : List Bytes → List Bytes
without_name [] = []
without_name (s ∷ []) = []
without_name (s ∷ t ∷ ss) = s ∷ without_name (t ∷ ss)

-- The folders above the file are made first.
abbrev pub fetch_into : Surroundings → Entry → Disk → Bytes → Result FileError Disk → Outcome
fetch_into w entry disk name (err e) = failed e disk
fetch_into w entry disk name (ok made) =
    outcome made (read_chunks w entry.chunks >>= write_verified w entry made name)

-- `segs` leads from the target to the file.
unfoldable pub restore_file :
    Surroundings → Conflict → Bool → Entry → List Bytes → List Bytes → Disk → Outcome
unfolding read_chunks make_folders
restore_file w policy dry_run entry target segs disk =
    let dest = render (target ++ segs) in
    elim (place policy (stat w disk) dest (stat w disk dest)) [
      | err e ↦ failed e disk
      | ok none ↦ skipped
      | ok (some name) ↦
          if dry_run
          then restored entry.size disk
          else fetch_into w entry disk name (make_folders disk target (without_name segs))
    ]

abbrev pub is_link : Option Node → Bool
is_link (some (link t)) = true
is_link _ = false

-- The loop of `ensureNoSymlinkAncestors`: a link on the way down from `above`
unfoldable pub meets_link : Disk → List Bytes → List Bytes → Bool
meets_link disk above [] = false
meets_link disk above (seg ∷ segs) =
    is_link (disk (render (above ++ seg ∷ []))) || meets_link disk (above ++ seg ∷ []) segs

-- `restoreSymlink`, where the system makes links
unfoldable pub restore_symlink : Conflict → Entry → Bytes → Disk → Disk
restore_symlink policy entry dest disk = elim (disk dest) [
  | none ↦ write disk dest (link (codes entry.link_target))
  | some node ↦ elim policy [
    | overwrite ↦ write disk dest (link (codes entry.link_target))
    | _ ↦ disk
  ]
]

-- The result of `Run`, with the disk
pub record Progress : Type 0 where
  pub disk : Disk
  pub files_restored : ℕ
  pub files_skipped : ℕ
  pub bytes_written : ℕ
  pub failures : ℕ

abbrev pub fail : Progress → Progress
fail r = record r { failures = r.failures + 1 }

abbrev pub count : Progress → Outcome → Progress
count r (failed e disk) = fail (record r { disk = disk })
count r skipped = record r { files_skipped = r.files_skipped + 1 }
count r (restored n disk) = record r {
  disk = disk;
  files_restored = r.files_restored + 1;
  bytes_written = r.bytes_written + n;
}

abbrev pub on_folder : Progress → Result FileError Disk → Progress
on_folder r (err e) = fail r
on_folder r (ok disk) = record r { disk = disk }

-- The body of the loop over a page's entries. A restore stops where it crashes; here it goes on.
unfoldable pub visit :
    (Bytes → Bytes)
    → Surroundings
    → Conflict
    → Bool
    → List Bytes
    → Bytes
    → Entry
    → Progress
    → Progress
unfolding restore_file meets_link make_folders restore_symlink
visit to_lower w policy dry_run target prefix entry r =
    elim (safe_join to_lower target (relative_name entry.path prefix)) [
      | err e ↦ fail r
      | ok dest ↦
          let linked = meets_link r.disk target (relative target dest) in
          if str_eq entry.entry_type "dir"
          then (if dry_run
              then r
              else if linked
              then fail r
              else on_folder r (make_folders r.disk target (relative target dest)))
          else if str_eq entry.entry_type "symlink"
          then (if dry_run
              then r
              else if linked
              then fail r
              else record r { disk = restore_symlink policy entry (render dest) r.disk })
          else if not dry_run && linked
          then fail r
          else count r (restore_file w policy dry_run entry target (relative target dest) r.disk)
    ]
