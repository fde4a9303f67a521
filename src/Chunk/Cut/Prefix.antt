-- ===== src/Chunk/Cut/Prefix.antt =====
-- chunk/fastcdc.go, `cutpoint`: bytes past Max do not move a cut, which is what lets the buffered
-- reader cut a buffer that holds only part of the stream.
use openbackup.Prelude.{
  ℕ, zero, suc, ◌+◌, ◌-◌, ◌≤◌, ◌<◌, ◌≡◌, ◌∙◌, ap, refl, sym, Bytes, ◌++◌, arith, length,
  get_or-append, length-append, min, max,
}
use openbackup.Chunk.{Sizes}
use openbackup.Chunk.Cut.{roll, Scan, cut, through, scan, end_at, second, search_cut, cutpoint}
use openbackup.Chunk.Cut.Bounds.{IsSizes}

roll-append :
    (fp i : ℕ) (bytes more : Bytes) → i < length bytes → roll fp (bytes ++ more) i ≡ roll fp bytes i
unfolding roll
roll-append fp i bytes more h = rw (get_or-append bytes more i 0 h)

scan-append :
    (threshold rounds : ℕ) (bytes more : Bytes) (i fp : ℕ)
    → i + rounds ≤ length bytes
    → scan threshold rounds (bytes ++ more) i fp ≡ scan threshold rounds bytes i fp
unfolding scan
scan-append threshold zero bytes more i fp h = refl
scan-append threshold (suc rounds) bytes more i fp h =
    rw (roll-append fp i bytes more (omega arith))
      (rw (scan-append threshold rounds bytes more (i + 1) (roll fp bytes i) (omega arith)))

second-append :
    (s : Sizes) (start n : ℕ) (bytes more : Bytes) (first : Scan)
    → start ≤ n
    → n ≤ length bytes
    → second s start n (bytes ++ more) first ≡ second s start n bytes first
second-append s start n bytes more (cut i) h k = refl
second-append s start n bytes more (through fp) h k =
    ap (end_at n) (scan-append s.threshold_large (n - start) bytes more start fp (omega arith))

search_cut-append :
    (s : Sizes) (normal n : ℕ) (bytes more : Bytes)
    → s.min ≤ n
    → normal ≤ n
    → n ≤ length bytes
    → search_cut s normal n (bytes ++ more) ≡ search_cut s normal n bytes
unfolding search_cut
search_cut-append s normal n bytes more h k l =
    second-append s (max s.min normal) n bytes more
      (scan s.threshold_small (normal - s.min) (bytes ++ more) s.min 0) (omega arith) l
    ∙ ap (second s (max s.min normal) n bytes) (first (normal - s.min) (omega arith))
  where
    first :
        (rounds : ℕ)
        → s.min + rounds ≤ length bytes
        → scan s.threshold_small rounds (bytes ++ more) s.min 0
          ≡ scan s.threshold_small rounds bytes s.min 0
    first rounds fits = scan-append s.threshold_small rounds bytes more s.min 0 fits

-- Both loops are empty where the two limits meet Min.
search_cut_empty :
    (s : Sizes) (normal n : ℕ) (bytes : Bytes)
    → normal ≡ s.min
    → n ≡ s.min
    → search_cut s normal n bytes ≡ n
unfolding search_cut scan
search_cut_empty s normal n bytes e e' =
    let none_left : normal - s.min ≡ 0 = omega arith in
    let none_left' : n - max s.min normal ≡ 0 = omega arith in rw none_left (rw none_left')

-- With Max bytes at hand both limits are those of the configuration.
pub cutpoint_full :
    (s : Sizes) (bytes : Bytes)
    → IsSizes s
    → s.max ≤ length bytes
    → cutpoint s bytes ≡ search_cut s s.avg s.max bytes
unfolding cutpoint
cutpoint_full s bytes v h =
    let e : min (length bytes) s.max ≡ s.max = omega arith in
    let e' : min s.avg s.max ≡ s.avg = omega arith in
    rw (e, e') (ground (arith, search_cut_empty s s.avg s.max bytes))

-- Where Max bytes are at hand, what follows them does not move the cut.
pub cutpoint-append :
    (s : Sizes) (bytes more : Bytes)
    → IsSizes s
    → s.max ≤ length bytes
    → cutpoint s (bytes ++ more) ≡ cutpoint s bytes
cutpoint-append s bytes more v h =
    cutpoint_full s (bytes ++ more) v (omega (arith, length-append bytes more))
    ∙ search_cut-append s s.avg s.max bytes more (omega arith) v.avg_le_max h
    ∙ sym (cutpoint_full s bytes v h)
