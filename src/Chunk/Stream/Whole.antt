-- ===== src/Chunk/Stream/Whole.antt =====
-- chunk/fastcdc.go: the buffered `Chunker` cuts a stream exactly as `Split` cuts the whole of it.
use openbackup.Prelude.{
  ℕ, zero, suc, ◌+◌, ◌-◌, ◌≤◌, ◌<◌, ◌≡◌, ◌⊎◌, inl, inr, ap, sym, subst, Bool, false, Bytes, List,
  [], ◌∷◌, ◌++◌, arith, ◌==◌, if_cases, length, take, drop, append-nil, length-append, length-drop,
  drop-drop, nil_of_length, take-append, drop-append,
}
use openbackup.Prelude.Result.{Result, ok, err}
use openbackup.Chunk.{Config, Sizes, normalize, sizes}
use openbackup.Chunk.Accepted.{normalize-IsSizes}
use openbackup.Chunk.Cut.{cutpoint}
use openbackup.Chunk.Cut.Bounds.{IsSizes, cutpoint-bounds}
use openbackup.Chunk.Cut.Prefix.{cutpoint-append}
use openbackup.Chunk.Split.{Chunk, first_chunk}
use openbackup.Chunk.Split.Laws.{chunks_from, chunks_of}
use openbackup.Chunk.Stream.{
  Script, more, read, fill_loop, compact, Chunker, new_chunker, Fill, filled, fill_failed, fill,
  Next, chunk, end_of_stream, read_failed, emit, after_fill, next,
}
use openbackup.Chunk.Stream.Filling.{
  content, IsSteady, state, pending, IsLive, IsAt, FillsTo, at_state, fill-FillsTo,
}

abbrev add_chunk : Chunk → Result (Unit {0}) (List Chunk) → Result (Unit {0}) (List Chunk)
add_chunk ch (ok cs) = ok (ch ∷ cs)
add_chunk ch (err e) = err e

abbrev drain_next :
    (Chunker → Result (Unit {0}) (List Chunk)) → Next → Result (Unit {0}) (List Chunk)
drain_next later (chunk ch c) = add_chunk ch (later c)
drain_next later (end_of_stream c) = ok []
drain_next later (read_failed c) = err tt

-- What the reader's client sees, until the end of the stream: the chunks, or none on an error.
unfoldable pub drain : ℕ → Chunker → Result (Unit {0}) (List Chunk)
unfolding next
drain zero c = err tt
drain (suc fuel) c = drain_next (drain fuel) (next c)

-- `next` at `view`: the chunk that `Split` would cut, or the end where nothing is left.
abbrev Emits : Sizes → Bytes → ℕ → Next → Type 0
Emits s view offset (chunk ch c) =
    (0 < length view)
    × (ch ≡ first_chunk s offset view)
    × IsAt s (drop (cutpoint s view) view) (offset + cutpoint s view) c
Emits s view offset (end_of_stream c) = view ≡ []
Emits s view offset (read_failed c) = ⊥

-- The buffered part of the stream has the same cut as the whole.
cutpoint_buffered :
    (s : Sizes) (avail rest : Bytes)
    → IsSizes s
    → (s.max ≤ length avail) ⊎ (rest ≡ [])
    → cutpoint s (avail ++ rest) ≡ cutpoint s avail
cutpoint_buffered s avail rest v (inl h) = cutpoint-append s avail rest v h
cutpoint_buffered s avail rest v (inr e) = rw e (rw append-nil)

first_chunk-append :
    (s : Sizes) (offset : ℕ) (avail rest : Bytes)
    → cutpoint s (avail ++ rest) ≡ cutpoint s avail
    → cutpoint s avail ≤ length avail
    → record { offset = offset; len = cutpoint s avail; bytes = take (cutpoint s avail) avail }
      ≡ first_chunk s offset (avail ++ rest)
unfolding first_chunk
first_chunk-append s offset avail rest e h = rw e (rw (take-append (cutpoint s avail) avail rest h))

module _ (s : Sizes) (r : Script) (b : Bytes) (start offset : ℕ) (eof : Bool) where
  abbrev here : Bytes
  here = drop start b ++ pending eof r

  -- A buffer that is full and empty is the end of the stream.
  emit_nothing :
      IsSizes s
      → (s.max ≤ length b - start) ⊎ (pending eof r ≡ [])
      → length (drop start b) ≡ 0
      → here ≡ []
  emit_nothing v (inl full) e = absurd (omega (arith, length-drop start b))
  emit_nothing v (inr none_left) e = rw (nil_of_length (drop start b) e) none_left

  -- What is left when the cut of the buffer is taken off.
  advance :
      cutpoint s here ≡ cutpoint s (drop start b)
      → cutpoint s (drop start b) ≤ length (drop start b)
      → start ≤ length b
      → IsLive eof r
      → IsAt s
          (drop (cutpoint s here) here)
          (offset + cutpoint s here)
          (state s r b (start + cutpoint s (drop start b)) (offset + cutpoint s (drop start b)) eof)
  advance e fits inside live = record {
    reader = r;
    buf = b;
    start = start + cutpoint s (drop start b);
    eof = eof;
    shape = ap (λ k. state s r b (start + cutpoint s (drop start b)) (offset + k) eof) (sym e);
    start_le = omega (arith, length-drop start b);
    live = live;
    view_eq = rw e (
        rw (drop-append (cutpoint s (drop start b)) (drop start b) (pending eof r) fits)
          (rw (drop-drop start (cutpoint s (drop start b)) b)));
  }

  emit-Emits :
      IsSizes s
      → start ≤ length b
      → IsLive eof r
      → (s.max ≤ length b - start) ⊎ (pending eof r ≡ [])
      → Emits s here offset (emit (state s r b start offset eof))
  unfolding emit
  emit-Emits v inside live full =
      if_cases (Emits s here offset) (length (drop start b) == 0) _ _
        (λ none_left. emit_nothing v full (ground arith))
        (λ some_left.
          let (_, fits, _, _) = cutpoint-bounds s (drop start b) v (ground arith) in
          let e =
            cutpoint_buffered s (drop start b) (pending eof r) v (rw (length-drop start b) full) in
          (
            grind (arith, length-append (drop start b) (pending eof r)),
            first_chunk-append s offset (drop start b) (pending eof r) e fits,
            advance e fits inside live,
          ))

after_fill-Emits :
    (s : Sizes) (view : Bytes) (offset : ℕ) (f : Fill)
    → IsSizes s
    → FillsTo s view offset f
    → Emits s view offset (after_fill f)
after_fill-Emits s view offset (filled c) v (i, full) =
    subst (λ c'. Emits s view offset (emit c')) (sym i.shape)
      (subst (λ w. Emits s w offset (emit (state s i.reader i.buf i.start offset i.eof))) i.view_eq
        (emit-Emits s i.reader i.buf i.start offset i.eof v i.start_le i.live full))
after_fill-Emits s view offset (fill_failed c) v h = absurd h

-- From a place in the stream `next` cuts what `Split` would cut there, and moves past it.
next-Emits :
    (s : Sizes) (view : Bytes) (offset : ℕ) (c : Chunker)
    → IsSizes s
    → IsAt s view offset c
    → Emits s view offset (next c)
unfolding next
next-Emits s view offset c v i = after_fill-Emits s view offset (fill c) v (
    subst (λ c'. FillsTo s view offset (fill c')) (sym i.shape)
      (subst (λ w. FillsTo s w offset (fill (state s i.reader i.buf i.start offset i.eof)))
        i.view_eq (fill-FillsTo s i.reader i.buf i.start offset i.eof v i.start_le i.live)))

-- One round of `drain`, given the rounds that follow.
drain_step :
    (later : Chunker → Result (Unit {0}) (List Chunk)) (fuel : ℕ) (s : Sizes) (view : Bytes)
    (offset : ℕ) (n : Next)
    → length view ≤ fuel
    → IsSizes s
    → Emits s view offset n
    → ((f : ℕ) (c : Chunker)
        → f + 1 ≡ fuel
        → length (drop (cutpoint s view) view) ≤ f
        → IsAt s (drop (cutpoint s view) view) (offset + cutpoint s view) c
        → later c ≡ ok (chunks_from f s (offset + cutpoint s view) (drop (cutpoint s view) view)))
    → drain_next later n ≡ ok (chunks_from fuel s offset view)
unfolding chunks_from
drain_step later fuel s [] offset (chunk ch c) h v (some_left, _, _) ih = absurd (omega arith)
drain_step later zero s (x ∷ view) offset (chunk ch c) h v e ih = elim h [ ]
drain_step later (suc fuel) s (x ∷ view) offset (chunk ch c) h v (_, e, i) ih =
    let (pos, _, _, _) = cutpoint-bounds s (x ∷ view) v (omega arith) in
    rw (ih fuel c (omega arith) (omega (arith, length-drop (cutpoint s (x ∷ view)) (x ∷ view))) i)
      (rw e)
drain_step later fuel s view offset (end_of_stream c) h v e ih = rw e
drain_step later fuel s view offset (read_failed c) h v e ih = absurd e

drain_chunks :
    (fuel : ℕ) (s : Sizes) (view : Bytes) (offset : ℕ) (c : Chunker)
    → IsSizes s
    → length view ≤ fuel
    → IsAt s view offset c
    → drain (suc fuel) c ≡ ok (chunks_from fuel s offset view)
unfolding drain
drain_chunks zero s view offset c v h i =
    drain_step (drain zero) zero s view offset (next c) h v (next-Emits s view offset c v i)
      (λ f c' e. absurd (omega arith))
drain_chunks (suc fuel) s view offset c v h i =
    drain_step (drain (suc fuel)) (suc fuel) s view offset (next c) h v
      (next-Emits s view offset c v i)
      (λ f c' e h' i'.
        let e' : f ≡ fuel = omega arith in
        rw e' (
          drain_chunks fuel s (drop (cutpoint s view) view) (offset + cutpoint s view) c' v
            (rw (← e') h') i'))

-- A steady stream, in whatever pieces it is delivered, is cut into the chunks of `Split` on its
-- whole content, and the rounds of `drain` are enough.
pub drain-eq-split :
    (script : Script) (cfg cfg' : Config) (c : Chunker)
    → normalize cfg ≡ ok cfg'
    → IsSteady script
    → new_chunker script cfg ≡ ok c
    → drain (suc (length (content script))) c ≡ ok (chunks_of (sizes cfg') (content script))
unfolding new_chunker chunks_of
drain-eq-split script cfg cfg' c h st e =
    drain_chunks (length (content script)) (sizes cfg') (content script) 0 c
      (normalize-IsSizes cfg cfg' h) (omega arith)
      (subst (λ c'. IsAt (sizes cfg') (content script) 0 c') (new_chunker-state e)
        (at_state (sizes cfg') script [] 0 0 false (omega arith) st))
  where
    new_chunker-state : new_chunker script cfg ≡ ok c → state (sizes cfg') script [] 0 0 false ≡ c
    new_chunker-state e = cc h

-- A `Read` that returns (0, nil) on an empty buffer is taken for the end of the stream: `next`
-- reports it with the rest of the script unread, whatever the rest holds.
pub empty_read_ends :
    (rest : Script) (s : Sizes) (offset : ℕ)
    → IsSizes s
    → next (state s (([], more) ∷ rest) [] 0 offset false)
      ≡ end_of_stream (state s rest [] 0 offset false)
unfolding next fill fill_loop read compact emit
empty_read_ends rest s offset v = ground arith
