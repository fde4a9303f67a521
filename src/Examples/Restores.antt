-- ===== src/Examples/Restores.antt =====
-- internal/agent/uploader and internal/agent/restore: a file that is uploaded twice, names that try
-- to leave the target, and a file that comes back.
use openbackup.Prelude.{
  ℕ, zero, suc, ◌≡◌, ◌⊎◌, refl, true, false, Bytes, String, List, [], ◌∷◌, ◌++◌, Option, none, some,
  codes, map, All, str_eq, if◌then◌else◌,
}
use openbackup.Prelude.Result.{Result, ok}
use openbackup.Prelude.Sets.{In}
use openbackup.Text.{split, cut, join}
use openbackup.Store.{full, complete, no_error, no_counts, Snapshot, Entry, ChunkRow, Db, has_chunk}
use openbackup.Store.Chunks.{
  missing_chunks, missing_loop, present_of, account_chunk_known, account_has, snapshot_has,
  register_rows, insert_account,
}
use openbackup.Store.Tree.{lower_ascii}
use openbackup.Uploader.{
  Piece, reset_stats, Event, got, Run, FileResult, upload_file, new_batch, Backend,
}
use openbackup.Uploader.Covered.{IsUploaded, upload_file-IsUploaded}
use openbackup.Uploader.Account.{
  account_backend, account_knows, account_backend-IsServer, upload_file-again,
}
use openbackup.Restore.Names.{
  safe_join, clean_name, join_under, is_reserved_name, relative, candidate,
}
use openbackup.Restore.Names.Inside.{IsPlain, safe_join-inside}
use openbackup.Restore.Files.{
  overwrite, keep_both, file, folder, Disk, write, render, Surroundings, stat, restored,
  restore_file, read_chunks,
}
use openbackup.Restore.Files.Verified.{Left, restore_file-Left}
use openbackup.Restore.Files.Beside.{restore_file-beside}
use openbackup.Restore.Find.{find_snapshot}
use openbackup.Restore.Found.{IsFound, find_snapshot-IsFound}

abbrev zeros : String
zeros = "0000000000000000000000000000000000000000000000000000000000000000"

abbrev ones : String
ones = "1111111111111111111111111111111111111111111111111111111111111111"

-- The digest tells contents apart by their first byte.
abbrev sum : Bytes → String
sum [] = "empty"
sum (zero ∷ s) = zeros
sum (suc c ∷ s) = ones

abbrev no_rows : Db
no_rows = record {
  snapshots = [];
  entries = [];
  deletions = [];
  refs = [];
  chunks = [];
  account_chunks = [];
}

abbrev plain_blob : Bytes → String → Result String Bytes
plain_blob content digest = ok (1 ∷ content)

abbrev one_after_another : List Piece → List Piece
one_after_another ps = ps

abbrev each_taken : (p : Piece) (ps : List Piece) → In p ps → In p (one_after_another ps)
each_taken p ps i = i

-- Three chunks, two of them alike
abbrev read : List (Event String)
read = got (0 ∷ 4 ∷ []) ∷ got (7 ∷ []) ∷ got (0 ∷ 4 ∷ []) ∷ []

abbrev server : Backend Db String
server = account_backend "u1" 3000 false plain_blob one_after_another

abbrev stored : String → ℕ → ℕ → ChunkRow
stored digest blob plain = record {
  digest = digest;
  stored_bytes = blob;
  plain_bytes = plain;
  encrypted = false;
  created = 3000;
}

abbrev uploaded : Run Db
uploaded = record {
  server = record no_rows {
    chunks = stored zeros 3 2 ∷ stored ones 2 1 ∷ [];
    account_chunks =
        record { user = "u1"; digest = zeros } ∷ record { user = "u1"; digest = ones } ∷ [];
  };
  batch = new_batch;
  chunks = zeros ∷ ones ∷ zeros ∷ [];
  size = 5;
  hashed = 0 ∷ 4 ∷ 7 ∷ 0 ∷ 4 ∷ [];
  uploaded_bytes = 5;
  skipped_bytes = 2;
  stats = record {
    files_uploaded = 1;
    chunks_uploaded = 2;
    chunks_skipped = 1;
    bytes_read = 5;
    bytes_uploaded = 5;
    bytes_deduplicated = 2;
  };
}

abbrev listing : FileResult
listing = record { chunks = zeros ∷ ones ∷ zeros ∷ []; digest = zeros; size = 5 }

read-uploaded : upload_file server sum read no_rows reset_stats ≡ ok (uploaded, listing)
unfolding upload_file missing_chunks missing_loop present_of account_chunk_known account_has
    snapshot_has register_rows has_chunk insert_account
read-uploaded = refl

upload_file-again_example : missing_chunks uploaded.server "u1" listing.chunks ≡ []
upload_file-again_example =
    upload_file-again "u1" 3000 false plain_blob one_after_another sum read no_rows reset_stats
      uploaded listing each_taken read-uploaded

upload_file-IsUploaded_example :
    IsUploaded server sum
      (account_knows "u1" 3000 false plain_blob one_after_another)
      (account_backend-IsServer "u1" 3000 false plain_blob one_after_another each_taken)
      read
      reset_stats
      uploaded
      listing
upload_file-IsUploaded_example =
    upload_file-IsUploaded server sum (account_knows "u1" 3000 false plain_blob one_after_another)
      (account_backend-IsServer "u1" 3000 false plain_blob one_after_another each_taken) read
      no_rows reset_stats uploaded listing read-uploaded

abbrev to_lower : Bytes → Bytes
to_lower = map lower_ascii

abbrev target : List Bytes
target = codes "home" ∷ codes "out" ∷ []

abbrev climbing : Bytes
climbing = codes "a/../../../etc/passwd"

safe_join-inside_example :
    (below : List Bytes) × (target ++ codes "etc" ∷ codes "passwd" ∷ [] ≡ target ++ below)
    × All IsPlain below
unfolding safe_join clean_name is_reserved_name split cut relative join_under
safe_join-inside_example =
    safe_join-inside to_lower target climbing (target ++ codes "etc" ∷ codes "passwd" ∷ []) refl

abbrev unpacked : Bytes → Option Bytes
unpacked [] = none
unpacked (c ∷ s) = some s

-- The server has one chunk, two bytes long.
abbrev around : Surroundings
around = record {
  fetch = λ digest. if str_eq digest zeros then some (1 ∷ 0 ∷ 4 ∷ []) else none;
  decode = unpacked;
  is_encrypted = λ blob. false;
  sum = sum;
  can_write = λ path. true;
  follow = λ disk path. none;
}

abbrev saved : Entry
saved = record {
  path = codes "d/a.txt";
  entry_type = "file";
  size = 2;
  mode = 420;
  mtime = 900;
  digest = zeros;
  link_target = "";
  chunks = zeros ∷ [];
}

abbrev nothing : Disk
nothing path = none

abbrev disk : Disk
disk = write nothing (codes "/home/out") folder

abbrev segs : List Bytes
segs = codes "d" ∷ codes "a.txt" ∷ []

abbrev disk_after : Disk
disk_after =
    write (write disk (codes "/home/out/d") folder) (codes "/home/out/d/a.txt") (file (0 ∷ 4 ∷ []))

saved-restored : restore_file around overwrite false saved target segs disk ≡ restored 2 disk_after
unfolding restore_file join
saved-restored = refl

restore_file-Left_example :
    (l : Left around saved target segs disk disk_after 2) × ((overwrite ≡ overwrite)
      ⊎ (stat around disk l.name ≡ none))
restore_file-Left_example =
    restore_file-Left around saved target segs disk disk_after 2 overwrite saved-restored

restore_file-beside_example :
    (safe_join to_lower target (codes "..") ≡ ok target)
    × (restore_file around keep_both false saved target (relative target target) disk
        ≡ restored 2 (write disk (candidate (render target) 1) (file (0 ∷ 4 ∷ []))))
unfolding read_chunks clean_name is_reserved_name split cut join
restore_file-beside_example =
    restore_file-beside to_lower around saved target (codes "..") (0 ∷ 4 ∷ []) folder disk refl refl
      refl refl refl refl refl refl

abbrev older : Snapshot
older = record {
  id = "ab12";
  user = "u1";
  device = "pc";
  kind = full;
  status = complete;
  parent = "";
  started = 1000;
  updated = 1001;
  completed = some 1002;
  counts = no_counts;
  error = no_error;
  pinned = false;
  roots = [];
}

abbrev snapshots : List Snapshot
snapshots = record older { id = "ac34"; started = 2000 } ∷ older ∷ []

find_snapshot-IsFound_example : IsFound snapshots "ab" older
unfolding find_snapshot
find_snapshot-IsFound_example = find_snapshot-IsFound snapshots "ab" older refl
