-- ===== src/Uploader.antt =====
-- internal/agent/uploader/uploader.go: a file's chunks go to the server in batches, and only those
-- that it lacks. `Next` of the chunker is the list of what its calls return. The workers of a batch
-- run at once: `Backend.order` is the order in which their uploads reach the server. An upload that
-- fails fails the file, and what the server got by then is not told.
pub mod Server
pub mod Covered
pub mod Account
use openbackup.Prelude.{
  ℕ, zero, suc, ◌+◌, ◌*◌, Bool, true, false, ◌||◌, Bytes, String, List, [], ◌∷◌, ◌++◌, ltb, leb,
  ◌==◌, if◌then◌else◌, is_empty, length, map, min,
}
use openbackup.Prelude.Result.{Result, ok, err, ◌>>=◌}
use openbackup.Prelude.Sets.{has}

abbrev pub max_batch_chunks : ℕ
max_batch_chunks = 32

abbrev pub max_batch_bytes : ℕ
max_batch_bytes = 8388608

-- A chunk that waits, under its digest
pub record Piece : Type 0 where
  pub digest : String
  pub content : Bytes

pub record Batch : Type 0 where
  pub pieces : List Piece
  pub bytes : ℕ

abbrev pub new_batch : Batch
new_batch = record { pieces = []; bytes = 0 }

unfoldable pub add : String → Bytes → Batch → Batch
add digest content b = record {
  pieces = b.pieces ++ record { digest = digest; content = content } ∷ [];
  bytes = b.bytes + length content;
}

unfoldable pub full : Batch → Bool
full b = leb max_batch_chunks (length b.pieces) || leb max_batch_bytes b.bytes

abbrev pub digest_of : Piece → String
digest_of p = p.digest

unfoldable pub digests : Batch → List String
digests b = map digest_of b.pieces

abbrev pub reset : Batch → Batch
reset b = new_batch

pub record Stats : Type 0 where
  pub files_uploaded : ℕ
  pub chunks_uploaded : ℕ
  pub chunks_skipped : ℕ
  pub bytes_read : ℕ
  pub bytes_uploaded : ℕ
  pub bytes_deduplicated : ℕ

abbrev pub reset_stats : Stats
reset_stats = record {
  files_uploaded = 0;
  chunks_uploaded = 0;
  chunks_skipped = 0;
  bytes_read = 0;
  bytes_uploaded = 0;
  bytes_deduplicated = 0;
}

-- What is uploaded of a batch, and what is not
pub record Sorted : Type 0 where
  pub jobs : List Piece
  pub skipped : ℕ
  pub skipped_bytes : ℕ

abbrev pub no_jobs : Sorted
no_jobs = record { jobs = []; skipped = 0; skipped_bytes = 0 }

abbrev pub skip : Piece → Sorted → Sorted
skip p w = record w { skipped = w.skipped + 1; skipped_bytes = w.skipped_bytes + length p.content }

abbrev pub send : Piece → Sorted → Sorted
send p w = record w { jobs = p ∷ w.jobs }

-- The loop of `flushBatch` over the batch; `sent` are the digests that it has handed on.
unfoldable pub sort_batch : List String → List String → List Piece → Sorted
sort_batch needed sent [] = no_jobs
sort_batch needed sent (p ∷ ps) =
    let skipped = skip p (sort_batch needed sent ps) in
    let handed_on = send p (sort_batch needed (p.digest ∷ sent) ps) in
    if has p.digest needed then (if has p.digest sent then skipped else handed_on) else skipped

-- The server's state, its answer to `MissingChunks`, `PutChunk` of a blob and the length of its
-- plaintext, the codec, and the workers
pub record Backend (S E : Type 0) : Type 0 where
  pub missing : S → List String → Result E (List String)
  pub put : S → String → Bytes → ℕ → Result E S
  pub encode : Bytes → String → Result E Bytes
  pub order : List Piece → List Piece

pub data Event (E : Type 0) : Type 0 where
  got : Bytes → Event E
  failed : E → Event E

-- The variables of `UploadFile`; `hashed` is what the tee has written to the hasher of the file.
pub record Run (S : Type 0) : Type 0 where
  pub server : S
  pub batch : Batch
  pub chunks : List String
  pub size : ℕ
  pub hashed : Bytes
  pub uploaded_bytes : ℕ
  pub skipped_bytes : ℕ
  pub stats : Stats

pub record FileResult : Type 0 where
  pub chunks : List String
  pub digest : String
  pub size : ℕ

module _ {S E : Type 0} (b : Backend S E) (sum : Bytes → String) where
  -- The uploads of a batch, and how many bytes went over the network
  unfoldable pub put_all : List Piece → S → Result E (S × ℕ)
  put_all [] s = ok (s, 0)
  put_all (p ∷ ps) s = b.encode p.content p.digest >>= λ blob.
      b.put s p.digest blob (length p.content) >>= λ s'.
      put_all ps s' >>= λ (s'', n). ok (s'', length blob + n)

  -- The statistics behind a batch that went through
  abbrev pub count_batch : Sorted → ℕ → Stats → Stats
  count_batch w n t = record t {
    chunks_uploaded = t.chunks_uploaded + length w.jobs;
    chunks_skipped = t.chunks_skipped + w.skipped;
    bytes_uploaded = t.bytes_uploaded + n;
    bytes_deduplicated = t.bytes_deduplicated + w.skipped_bytes;
  }

  -- `flushBatch`
  unfoldable pub flush_batch : S → Batch → Result E (S × Sorted × ℕ)
  unfolding put_all sort_batch digests
  flush_batch s batch = b.missing s (digests batch) >>= λ needed.
      let w = sort_batch needed [] batch.pieces in
      put_all (b.order w.jobs) s >>= λ (s', n). ok (s', w, n)

  -- `flush` in `UploadFile`
  unfoldable pub flush : Run S → Result E (Run S)
  unfolding flush_batch
  flush r =
      if is_empty r.batch.pieces
      then ok r
      else (flush_batch r.server r.batch >>= λ (s, w, n). ok (record r {
        server = s;
        batch = reset r.batch;
        uploaded_bytes = r.uploaded_bytes + n;
        skipped_bytes = r.skipped_bytes + w.skipped_bytes;
        stats = count_batch w n r.stats;
      }))

  -- A chunk is hashed, counted and put into the batch.
  unfoldable pub take_chunk : Bytes → Run S → Run S
  unfolding add
  take_chunk content r = record r {
    batch = add (sum content) content r.batch;
    chunks = r.chunks ++ sum content ∷ [];
    size = r.size + length content;
    hashed = r.hashed ++ content;
    stats = record r.stats { bytes_read = r.stats.bytes_read + length content };
  }

  unfoldable pub flush_if_full : Run S → Result E (Run S)
  unfolding flush full
  flush_if_full r = if full r.batch then flush r else ok r

  abbrev pub finish : Run S → Run S
  finish r = record r { stats = record r.stats { files_uploaded = r.stats.files_uploaded + 1 } }

  -- The loop of `UploadFile`. The list ends where `Next` returns io.EOF; a cancelled context fails
  -- the call.
  unfoldable pub upload_loop : List (Event E) → Run S → Result E (Run S)
  unfolding flush_if_full take_chunk
  upload_loop [] r = flush r >>= λ r'. ok (finish r')
  upload_loop (failed e ∷ es) r = err e
  upload_loop (got content ∷ es) r = flush_if_full (take_chunk content r) >>= upload_loop es

  abbrev pub start : S → Stats → Run S
  start s t = record {
    server = s;
    batch = new_batch;
    chunks = [];
    size = 0;
    hashed = [];
    uploaded_bytes = 0;
    skipped_bytes = 0;
    stats = t;
  }

  abbrev pub result_of : Run S → FileResult
  result_of r = record { chunks = r.chunks; digest = sum r.hashed; size = r.size }

  unfoldable pub upload_file : List (Event E) → S → Stats → Result E (Run S × FileResult)
  unfolding upload_loop
  upload_file es s t = upload_loop es (start s t) >>= λ r. ok (r, result_of r)
