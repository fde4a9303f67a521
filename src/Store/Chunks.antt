-- ===== src/Store/Chunks.antt =====
-- internal/server/store/chunks.go: chunk metadata, and what an account is told that it has.
pub mod Known
pub mod Unasked
use openbackup.Prelude.{
  ℕ, Bool, false, not, ◌&&◌, ◌||◌, String, List, [], ◌∷◌, ◌++◌, Option, none, some, ◌==◌, str_eq,
  if◌then◌else◌, take, codes,
}
use openbackup.Prelude.Result.{Result, ok, err}
use openbackup.Codec.{validate, CodecError, invalid_digest}
use openbackup.Prelude.Sets.{has, select}
use openbackup.Store.{Snapshot, RefRow, ChunkRow, AccountRow, Db, find_in, has_chunk}

-- `INSERT INTO account_chunks … ON CONFLICT DO NOTHING`
unfoldable pub insert_account : String → String → List AccountRow → List AccountRow
insert_account user digest [] = record { user = user; digest = digest } ∷ []
insert_account user digest (r ∷ rs) =
    let rest = insert_account user digest rs in
    if str_eq r.user user && str_eq r.digest digest then r ∷ rs else r ∷ rest

abbrev pub insert_chunk : ChunkRow → List ChunkRow → List ChunkRow
insert_chunk c cs = if has_chunk c.digest cs then cs else cs ++ c ∷ []

-- The two statements of `RegisterChunk`
unfoldable pub register_rows : Db → ℕ → String → String → ℕ → ℕ → Bool → Db
register_rows db now user digest stored plain encrypted = record db {
  chunks =
      insert_chunk
        (record {
          digest = digest;
          stored_bytes = stored;
          plain_bytes = plain;
          encrypted = encrypted;
          created = now;
        })
        db.chunks;
  account_chunks = insert_account user digest db.account_chunks;
}

unfoldable pub register_chunk : Db → ℕ → String → String → ℕ → ℕ → Bool → Result CodecError Db
register_chunk db now user digest stored plain encrypted =
    if validate (codes digest)
    then ok (register_rows db now user digest stored plain encrypted)
    else err invalid_digest

-- `account_chunks` has the pair.
unfoldable pub account_has : String → String → List AccountRow → Bool
account_has user digest [] = false
account_has user digest (r ∷ rs) =
    str_eq r.user user && str_eq r.digest digest || account_has user digest rs

-- A snapshot of the account
abbrev pub owned_by : String → Option Snapshot → Bool
owned_by user none = false
owned_by user (some s) = str_eq s.user user

-- `snapshot_chunks` joined with `snapshots`: one of the account's snapshots references the digest.
unfoldable pub snapshot_has : String → String → List Snapshot → List RefRow → Bool
snapshot_has user digest ss [] = false
snapshot_has user digest ss (r ∷ rs) =
    str_eq r.digest digest && owned_by user (find_in r.snapshot ss)
    || snapshot_has user digest ss rs

unfoldable pub account_chunk_known : Db → String → String → Bool
account_chunk_known db user digest =
    account_has user digest db.account_chunks || snapshot_has user digest db.snapshots db.refs

-- The rows that the queries of `MissingChunks` return. Each batch of 500 digests is a query, and
-- the answers of all batches are collected in one set.
unfoldable pub present_of : Db → String → List String → List String
present_of db user [] = []
present_of db user (d ∷ ds) =
    let rest = present_of db user ds in if account_chunk_known db user d then d ∷ rest else rest

-- The second loop of `MissingChunks`
unfoldable pub missing_loop : List String → List String → List String → List String
missing_loop present seen [] = []
missing_loop present seen (d ∷ ds) =
    let skipped = missing_loop present seen ds in
    let taken = missing_loop present (d ∷ seen) ds in
    if has d present then skipped else if has d seen then skipped else d ∷ taken

unfoldable pub missing_chunks : Db → String → List String → List String
missing_chunks db user digests = missing_loop (present_of db user digests) [] digests

-- `EXISTS (SELECT 1 FROM snapshot_chunks …)`
unfoldable pub referenced : String → List RefRow → Bool
referenced digest [] = false
referenced digest (r ∷ rs) = str_eq r.digest digest || referenced digest rs

unfoldable pub unreferenced_chunks : Db → ℕ → List ChunkRow
unreferenced_chunks db limit =
    take (if limit == 0 then 1000 else limit)
      (select (λ (c : ChunkRow). not (referenced c.digest db.refs)) db.chunks)

unfoldable pub delete_chunk_row : Db → String → Db
delete_chunk_row db digest = record db {
  chunks = select (λ (c : ChunkRow). not (str_eq c.digest digest)) db.chunks;
  account_chunks = select (λ (r : AccountRow). not (str_eq r.digest digest)) db.account_chunks;
}

unfoldable pub is_chunk_known : Db → String → Bool
is_chunk_known db digest = has_chunk digest db.chunks
