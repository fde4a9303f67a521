-- ===== src/Chunk/Cut/Bounds.antt =====
-- chunk/fastcdc.go, `cutpoint`: where a cut may fall.
use openbackup.Prelude.{
  ℕ, zero, suc, ◌+◌, ◌-◌, ◌≤◌, ◌<◌, ◌≡◌, ◌⊎◌, Bool, true, false, Bytes, arith, ltb, if◌then◌else◌,
  length, min, max,
}
use openbackup.Chunk.{Sizes}
use openbackup.Chunk.Cut.{roll, Scan, cut, through, scan, end_at, second, search_cut, cutpoint}

-- A cut of a loop falls after its first index and not after its end.
abbrev pub Within : ℕ → ℕ → Scan → Type 0
Within lo hi (cut i) = (lo < i) × (i ≤ hi)
Within lo hi (through fp) = Unit

pub scan-Within :
    (threshold rounds : ℕ) (bytes : Bytes) (i fp : ℕ)
    → Within i (i + rounds) (scan threshold rounds bytes i fp)
unfolding scan
scan-Within threshold zero bytes i fp = tt
scan-Within threshold (suc rounds) bytes i fp =
    step (scan threshold rounds bytes (i + 1) (roll fp bytes i)) (ltb (roll fp bytes i) threshold)
      (scan-Within threshold rounds bytes (i + 1) (roll fp bytes i))
  where
    step :
        (rest : Scan) (b : Bool)
        → Within (i + 1) (i + 1 + rounds) rest
        → Within i (i + suc rounds) (if b then cut (i + 1) else rest)
    step rest true w = omega arith
    step (cut j) false w = omega arith
    step (through fp') false w = tt

-- What a configuration that `normalize` accepts gives.
pub record IsSizes (s : Sizes) : Type 0 where
  pub min_pos : 0 < s.min
  pub min_le_avg : s.min ≤ s.avg
  pub avg_le_max : s.avg ≤ s.max

end_at-Within :
    (m n lo : ℕ) (s : Scan) → m ≤ n → m ≤ lo → Within lo n s → (m ≤ end_at n s) × (end_at n s ≤ n)
end_at-Within m n lo (cut i) h h' w = omega arith
end_at-Within m n lo (through fp) h h' w = omega arith

scan_to_end :
    (threshold i n : ℕ) (bytes : Bytes) (fp : ℕ)
    → i ≤ n
    → Within i n (scan threshold (n - i) bytes i fp)
scan_to_end threshold i n bytes fp h =
    let e : i + (n - i) ≡ n = omega arith in rw e at (scan-Within threshold (n - i) bytes i fp)

module _ (s : Sizes) (start n : ℕ) (bytes : Bytes) where
  second-bounds :
      (first : Scan)
      → s.min ≤ start
      → s.min ≤ n
      → start ≤ n
      → Within s.min start first
      → (s.min ≤ second s start n bytes first) × (second s start n bytes first ≤ n)
  second-bounds (cut i) h1 h2 h3 w = omega arith
  second-bounds (through fp) h1 h2 h3 w =
      end_at-Within s.min n start _ h2 h1 (scan_to_end s.threshold_large start n bytes fp h3)

search_cut-bounds :
    (s : Sizes) (normal n : ℕ) (bytes : Bytes)
    → s.min ≤ normal
    → normal ≤ n
    → (s.min ≤ search_cut s normal n bytes) × (search_cut s normal n bytes ≤ n)
unfolding search_cut
search_cut-bounds s normal n bytes h' h'' =
    let e : max s.min normal ≡ normal = omega arith in
    rw e (
      second-bounds s normal n bytes _ h' (omega arith) h''
        (scan_to_end s.threshold_small s.min normal bytes 0 h'))

-- The cut of a slice that is not empty is positive, is not past the slice or Max, and is at least
-- Min unless it takes the whole slice.
pub cutpoint-bounds :
    (s : Sizes) (bytes : Bytes)
    → IsSizes s
    → 0 < length bytes
    → (0 < cutpoint s bytes)
      × (cutpoint s bytes ≤ length bytes)
      × (cutpoint s bytes ≤ s.max)
      × ((cutpoint s bytes ≡ length bytes) ⊎ (s.min ≤ cutpoint s bytes))
unfolding cutpoint
cutpoint-bounds s bytes v h = ground (
  arith,
  search_cut-bounds s (min s.avg (min (length bytes) s.max)) (min (length bytes) s.max) bytes,
)
