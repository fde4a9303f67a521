-- ===== src/Uploader/Covered.antt =====
-- internal/agent/uploader/uploader.go: behind `UploadFile` the server has every chunk of the file.
use openbackup.Prelude.{
  ℕ, ◌+◌, ◌≡◌, ◌⊎◌, inl, inr, refl, sym, ap, subst, ◌∙◌, Bool, true, Bytes, String, List, [], ◌∷◌,
  ◌++◌, append_assoc, append-nil, map, arith, if_cases, is_empty, length, length-append,
}
use openbackup.Prelude.Result.{Result, ok, ◌>>=◌, ok-injective, err-ne-ok, bind-ok}
use openbackup.Prelude.Sets.{In, In-append, append-In}
use mathlib.Core.List.{map-append}
use openbackup.Uploader.{
  Piece, Batch, new_batch, add, full, digest_of, digests, Stats, Sorted, Backend, Event, got,
  failed, Run, FileResult, count_batch, flush_batch, flush, take_chunk, flush_if_full, upload_loop,
  start, result_of, upload_file,
}
use openbackup.Uploader.Server.{IsServer, flush_batch-knows}

module _ {S E : Type 0} (b : Backend S E) (sum : Bytes → String) (knows : S → String → Bool)
    (server : IsServer b knows) where
  abbrev pub concat : List Bytes → Bytes
  concat [] = []
  concat (c ∷ cs) = c ++ concat cs

  -- The state behind the chunks `cs`; `t` are the statistics at the start.
  record Holds (t : Stats) (cs : List Bytes) (r : Run S) : Type 0 where
    chunks_are : r.chunks ≡ map sum cs
    hashed_is : r.hashed ≡ concat cs
    covered : (d : String) → In d r.chunks → (knows r.server d ≡ true) ⊎ In d (digests r.batch)
    counted :
        r.stats.chunks_uploaded + r.stats.chunks_skipped + length r.batch.pieces
        ≡ t.chunks_uploaded + t.chunks_skipped + length r.chunks

  abbrev Flushed : Stats → List Bytes → Run S → Type 0
  Flushed t cs r = Holds t cs r × (r.batch.pieces ≡ [])

  flush-Holds :
      (t : Stats) (cs : List Bytes) (r r' : Run S)
      → Holds t cs r
      → flush b sum r ≡ ok r'
      → Flushed t cs r'
  unfolding flush
  flush-Holds t cs r r' w h =
      if_cases (λ (o : Result E (Run S)). o ≡ ok r' → Flushed t cs r') (is_empty r.batch.pieces) _ _
        (λ e q. subst (Flushed t cs) (ok-injective q) (w, empty r.batch.pieces e)) (λ e q. sent q) h
    where
      empty : (ps : List Piece) → is_empty ps ≡ true → ps ≡ []
      empty [] e = refl
      empty (p ∷ ps) e = cc

      after : S → Sorted → ℕ → Run S
      after s sorted n = record r {
        server = s;
        batch = new_batch;
        uploaded_bytes = r.uploaded_bytes + n;
        skipped_bytes = r.skipped_bytes + sorted.skipped_bytes;
        stats = count_batch b sum sorted n r.stats;
      }

      sent :
          ◌>>=◌ {B = Run S}
              (flush_batch b sum r.server r.batch)
              (λ (s, sorted, n). ok (after s sorted n))
            ≡ ok r'
          → Flushed t cs r'
      sent q =
          let ((s, sorted, n), e1, h1) = bind-ok (flush_batch b sum r.server r.batch) _ q in
          let (grows, known, count) =
            flush_batch-knows b sum knows server r.server s r.batch sorted n e1 in
          let kept = λ (d : String) (o : (knows r.server d ≡ true) ⊎ In d (digests r.batch)).
            elim o as (λ x. knows s d ≡ true) [ inl k ↦ grows d k | inr i ↦ known d i ] in
          subst (Flushed t cs) (ok-injective h1) (
            record {
              chunks_are = w.chunks_are;
              hashed_is = w.hashed_is;
              covered = λ d i. inl (kept d (w.covered d i));
              counted = omega (arith, count, w.counted);
            },
            refl,
          )

  digests-add :
      (d : String) (content : Bytes) (x : String) (batch : Batch)
      → (In d (digests batch) → In d (digests (add x content batch)))
        × In x (digests (add x content batch))
  unfolding digests add
  digests-add d content x batch = (
    λ i.
        subst (In d) (sym (map-append digest_of batch.pieces _))
          (In-append d (map digest_of batch.pieces) (x ∷ []) (inl i)),
    subst (In x) (sym (map-append digest_of batch.pieces _))
        (In-append x (map digest_of batch.pieces) (x ∷ []) (inr (inl refl))),
  )

  concat-append : (cs ds : List Bytes) → concat (cs ++ ds) ≡ concat cs ++ concat ds
  concat-append [] ds = refl
  concat-append (c ∷ cs) ds =
      ap (λ l. c ++ l) (concat-append cs ds) ∙ sym (append_assoc c (concat cs) (concat ds))

  take_chunk-Holds :
      (t : Stats) (cs : List Bytes) (content : Bytes) (r : Run S)
      → Holds t cs r
      → Holds t (cs ++ content ∷ []) (take_chunk b sum content r)
  unfolding take_chunk add
  take_chunk-Holds t cs content r w = record {
    chunks_are =
        ap (λ l. l ++ sum content ∷ []) w.chunks_are ∙ sym (map-append sum cs (content ∷ []));
    hashed_is =
        ap (λ l. l ++ content) w.hashed_is
        ∙ sym (concat-append cs (content ∷ []) ∙ ap (λ l. concat cs ++ l) (append-nil content));
    covered = λ d i. at d (append-In d r.chunks (sum content ∷ []) i);
    counted = omega (
      arith,
      w.counted,
      length-append r.chunks (sum content ∷ []),
      length-append r.batch.pieces (record { digest = sum content; content = content } ∷ []),
    );
  }
    where
      at :
          (d : String)
          → In d r.chunks ⊎ In d (sum content ∷ [])
          → (knows r.server d ≡ true) ⊎ In d (digests (add (sum content) content r.batch))
      at d (inl i) = elim (w.covered d i) [
        | inl k ↦ inl k
        | inr j ↦ inr ((digests-add d content (sum content) r.batch).0 j)
      ]
      at d (inr (inl q)) = inr (
          subst (λ x. In x (digests (add (sum content) content r.batch))) q
            (digests-add d content (sum content) r.batch).1)
      at d (inr (inr j)) = absurd j

  flush_if_full-Holds :
      (t : Stats) (cs : List Bytes) (r r' : Run S)
      → Holds t cs r
      → flush_if_full b sum r ≡ ok r'
      → Holds t cs r'
  unfolding flush_if_full
  flush_if_full-Holds t cs r r' w h =
      if_cases (λ (o : Result E (Run S)). o ≡ ok r' → Holds t cs r') (full r.batch) _ _
        (λ e q. (flush-Holds t cs r r' w q).0) (λ e q. subst (Holds t cs) (ok-injective q) w) h

  -- The chunks that the chunker gives
  abbrev pub contents : List (Event E) → List Bytes
  contents [] = []
  contents (got c ∷ es) = c ∷ contents es
  contents (failed e ∷ es) = contents es

  upload_loop-Holds :
      (es : List (Event E)) (t : Stats) (cs : List Bytes) (r r' : Run S)
      → Holds t cs r
      → upload_loop b sum es r ≡ ok r'
      → Flushed t (cs ++ contents es) r'
  unfolding upload_loop
  upload_loop-Holds [] t cs r r' w h =
      let (r1, e1, h1) = bind-ok (flush b sum r) _ h in
      let (v, none_left) = flush-Holds t cs r r1 w e1 in
      subst (λ l. Flushed t l r') (sym (append-nil cs))
        (subst (Flushed t cs) (ok-injective h1) (
          record {
            chunks_are = v.chunks_are;
            hashed_is = v.hashed_is;
            covered = v.covered;
            counted = v.counted;
          },
          none_left,
        ))
  upload_loop-Holds (failed e ∷ es) t cs r r' w h = absurd (err-ne-ok h)
  upload_loop-Holds (got c ∷ es) t cs r r' w h =
      let (r1, e1, h1) = bind-ok (flush_if_full b sum (take_chunk b sum c r)) _ h in
      let v =
        flush_if_full-Holds t (cs ++ c ∷ []) (take_chunk b sum c r) r1 (take_chunk-Holds t cs c r w)
          e1 in
      subst (λ l. Flushed t l r') (append_assoc cs (c ∷ []) (contents es))
        (upload_loop-Holds es t (cs ++ c ∷ []) r1 r' v h1)

  -- What a file's upload has done when it succeeds
  pub record IsUploaded (es : List (Event E)) (t : Stats) (r : Run S) (f : FileResult)
      : Type 0 where
    pub chunks_are : f.chunks ≡ map sum (contents es)
    pub digest_is : f.digest ≡ sum (concat (contents es))
    pub all_known : (d : String) → In d f.chunks → knows r.server d ≡ true
    pub all_counted :
        r.stats.chunks_uploaded + r.stats.chunks_skipped
        ≡ t.chunks_uploaded + t.chunks_skipped + length f.chunks

  -- A file that is uploaded without an error is described by the digests of its chunks, in order,
  -- and by the digest of the whole; the server has every one of those chunks, and each is counted
  -- once as uploaded or as skipped, whatever the server had before and in whatever order the
  -- workers put the chunks.
  pub upload_file-IsUploaded :
      (es : List (Event E)) (s : S) (t : Stats) (r : Run S) (f : FileResult)
      → upload_file b sum es s t ≡ ok (r, f)
      → IsUploaded es t r f
  unfolding upload_file
  upload_file-IsUploaded es s t r f h =
      let (r1, e1, h1) = bind-ok (upload_loop b sum es (start b sum s t)) _ h in
      let (w, none_left) = upload_loop-Holds es t [] (start b sum s t) r1 begun e1 in
      let same : r1 ≡ r = ap (λ (x : Run S × FileResult). x.0) (ok-injective h1) in
      let same_f : result_of b sum r1 ≡ f =
        ap (λ (x : Run S × FileResult). x.1) (ok-injective h1) in
      subst (λ x. IsUploaded es t x f) same
        (subst (IsUploaded es t r1) same_f (done r1 w none_left))
    where
      begun : Holds t [] (start b sum s t)
      begun = record {
        chunks_are = refl;
        hashed_is = refl;
        covered = λ d i. absurd i;
        counted = omega arith;
      }

      opened :
          (d : String) (batch : Batch) → In d (digests batch) → In d (map digest_of batch.pieces)
      opened d batch i = unfold digests in i

      nothing : (d : String) (batch : Batch) → batch.pieces ≡ [] → ¬ In d (digests batch)
      nothing d batch e i =
          subst (λ (ps : List Piece). In d (map digest_of ps)) e (opened d batch i)

      done :
          (r1 : Run S)
          → Holds t (contents es) r1
          → r1.batch.pieces ≡ []
          → IsUploaded es t r1 (result_of b sum r1)
      done r1 w none_left = record {
        chunks_are = w.chunks_are;
        digest_is = ap sum w.hashed_is;
        all_known = λ d i. left d (w.covered d i);
        all_counted = omega (arith, w.counted, ap (λ (l : List Piece). length l) none_left);
      }
        where
          left :
              (d : String)
              → (knows r1.server d ≡ true) ⊎ In d (digests r1.batch)
              → knows r1.server d ≡ true
          left d (inl k) = k
          left d (inr i) = absurd (nothing d r1.batch none_left i)
