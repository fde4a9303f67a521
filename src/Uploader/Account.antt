-- ===== src/Uploader/Account.antt =====
-- internal/agent/uploader/uploader.go against internal/server/store/chunks.go: the server of an
-- upload is the chunk metadata of the device's account. Clock and encryption are arguments.
use openbackup.Prelude.{
  ℕ, ◌≡◌, ◌⊎◌, inl, inr, refl, subst, Bool, true, false, Bytes, String, List, [], ◌∷◌, arith,
  Bool-cases, length,
}
use openbackup.Prelude.Result.{Result, ok, ok-injective}
use openbackup.Prelude.Sets.{In, has, In-has, has-In, str_eq_refl}
use openbackup.Store.{AccountRow, Db}
use openbackup.Store.Chunks.{
  insert_account, register_rows, account_has, account_chunk_known, missing_chunks,
}
use openbackup.Store.Chunks.Known.{missing_chunks_iff}
use openbackup.Uploader.{Piece, Stats, Event, Run, FileResult, Backend, upload_file}
use openbackup.Uploader.Server.{IsServer}
use openbackup.Uploader.Covered.{upload_file-IsUploaded}

insert_account-has :
    (user d : String) (rs : List AccountRow) → account_has user d (insert_account user d rs) ≡ true
unfolding account_has insert_account
insert_account-has user d [] = rw (str_eq_refl user) (rw (str_eq_refl d) refl)
insert_account-has user d (r ∷ rs) = ground (arith, insert_account-has user d rs)

insert_account-keeps :
    (user d e : String) (rs : List AccountRow)
    → account_has user e rs ≡ true
    → account_has user e (insert_account user d rs) ≡ true
unfolding account_has insert_account
insert_account-keeps user d e [] h = cc
insert_account-keeps user d e (r ∷ rs) h = ground (arith, insert_account-keeps user d e rs)

module _ {E : Type 0} (user : String) (now : ℕ) (encrypted : Bool)
    (encode : Bytes → String → Result E Bytes) (order : List Piece → List Piece) where
  -- `MissingChunks` and the rows of `RegisterChunk`, as the handlers call them for a device of the
  -- account: the digest of a blob that was put is a valid one.
  abbrev pub account_backend : Backend Db E
  account_backend = record {
    missing = λ db ds. ok (missing_chunks db user ds);
    put = λ db d blob n. ok (register_rows db now user d (length blob) n encrypted);
    encode = encode;
    order = order;
  }

  abbrev pub account_knows : Db → String → Bool
  account_knows db d = account_chunk_known db user d

  register_rows-knows :
      (db : Db) (d : String) (stored plain : ℕ)
      → account_knows (register_rows db now user d stored plain encrypted) d ≡ true
  unfolding register_rows account_chunk_known
  register_rows-knows db d stored plain = rw (insert_account-has user d db.account_chunks) refl

  register_rows-keeps :
      (db : Db) (d e : String) (stored plain : ℕ)
      → account_knows db e ≡ true
      → account_knows (register_rows db now user d stored plain encrypted) e ≡ true
  unfolding register_rows account_chunk_known
  register_rows-keeps db d e stored plain h =
      let kept = insert_account-keeps user d e db.account_chunks in ground arith

  pub account_backend-IsServer :
      ((p : Piece) (ps : List Piece) → In p ps → In p (order ps))
      → IsServer account_backend account_knows
  account_backend-IsServer every = record {
    answers = λ db ds m d e i. at db ds d i (Bool-cases (account_knows db d)) m (ok-injective e);
    puts = λ db db' d blob n e.
        subst (λ x. account_knows x d ≡ true) (ok-injective e)
          (register_rows-knows db d (length blob) n);
    keeps = λ db db' d blob n e q k.
        subst (λ x. account_knows x e ≡ true) (ok-injective q)
          (register_rows-keeps db d e (length blob) n k);
    order_all = every;
  }
    where
      at :
          (db : Db) (ds : List String) (d : String)
          → In d ds
          → (account_knows db d ≡ true) ⊎ (account_knows db d ≡ false)
          → (m : List String) → missing_chunks db user ds ≡ m
          → (account_knows db d ≡ true) ⊎ In d m
      at db ds d i (inl k) m e = inl k
      at db ds d i (inr k) m e = inr (
          subst (In d) e (
            has-In d (missing_chunks db user ds)
              ((missing_chunks_iff db user d ds).1 (In-has d ds i, k))))

  -- When the upload of a file has succeeded, the account lacks none of the chunks that describe the
  -- file: an upload of the same content is asked for nothing, whatever the account had before and
  -- in whatever order the workers took up the chunks, as long as they took up all.
  pub upload_file-again :
      (sum : Bytes → String) (es : List (Event E)) (db : Db) (t : Stats) (r : Run Db)
      (f : FileResult)
      → ((p : Piece) (ps : List Piece) → In p ps → In p (order ps))
      → upload_file account_backend sum es db t ≡ ok (r, f)
      → missing_chunks r.server user f.chunks ≡ []
  upload_file-again sum es db t r f every h =
      let w =
        upload_file-IsUploaded account_backend sum account_knows (account_backend-IsServer every) es
          db t r f h in
      none_listed (missing_chunks r.server user f.chunks) (λ d k.
        let (asked, unknown) = (missing_chunks_iff r.server user d f.chunks).0 k in
        let known = w.all_known d (has-In d f.chunks asked) in cc)
    where
      none_listed : (ds : List String) → ((d : String) → ¬ (has d ds ≡ true)) → ds ≡ []
      none_listed [] n = refl
      none_listed (d ∷ ds) n = absurd (n d (rw (str_eq_refl d) refl))
