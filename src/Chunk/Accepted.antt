-- ===== src/Chunk/Accepted.antt =====
-- chunk/fastcdc.go, `normalize` and `NewChunker`: what an accepted configuration is, and its
-- thresholds.
use openbackup.Prelude.{
  ℕ, zero, suc, ◌+◌, ◌-◌, ◌/◌, ◌≤◌, ◌<◌, ◌≡◌, ◌⊎◌, inl, inr, refl, subst, Bool, true, false, ◌&&◌,
  arith, ltb, leb, ◌==◌, Bool-cases, Bytes, length, min, max, ap, ◌∙◌,
}
use openbackup.Prelude.Int.{pos_part}
use openbackup.Prelude.Result.{ok}
use openbackup.Chunk.{
  Config, Sizes, normalize, sizes, checked, bits_len, len_loop, shl_one, or_default,
}
use openbackup.Chunk.Cut.{Scan, cut, through, roll, scan, end_at, second, search_cut, cutpoint}
use openbackup.Chunk.Cut.Bounds.{IsSizes}

abbrev IsAccepted : Config → Type 0
IsAccepted c =
    (0 < pos_part c.min)
    × (pos_part c.min ≤ pos_part c.avg)
    × (pos_part c.avg ≤ pos_part c.max)
    × (4 ≤ pos_part c.avg)
    × (bits_len (pos_part c.avg) + 2 ≤ 63)

checked-IsAccepted : (c c' : Config) → checked c ≡ ok c' → (c' ≡ c) × IsAccepted c
checked-IsAccepted c c' h = ground arith

-- The default passes too.
pub normalize-IsAccepted : (c c' : Config) → normalize c ≡ ok c' → IsAccepted c'
unfolding normalize
normalize-IsAccepted c c' h = let (e, a) = checked-IsAccepted (or_default c) c' h in rw e a

pub normalize-IsSizes : (c c' : Config) → normalize c ≡ ok c' → IsSizes (sizes c')
unfolding sizes
normalize-IsSizes c c' h = let a = normalize-IsAccepted c c' h in omega arith

len_loop-pos : (fuel n : ℕ) → 0 < n → len_loop (suc fuel) n ≡ suc (len_loop fuel (n / 2))
unfolding len_loop
len_loop-pos fuel n h = ground arith

bits_len_ge : (n : ℕ) → 8 ≤ n → 4 ≤ bits_len n
unfolding bits_len
bits_len_ge n h = ground (
  arith,
  len_loop-pos 63 n,
  len_loop-pos 62 (n / 2),
  len_loop-pos 61 (n / 2 / 2),
  len_loop-pos 60 (n / 2 / 2 / 2),
)

bits_len_small : (n : ℕ) → 4 ≤ n → n < 8 → bits_len n ≡ 3
unfolding bits_len
bits_len_small n h k =
    ground (arith, len_loop-pos 63 n, len_loop-pos 62 (n / 2), len_loop-pos 61 (n / 2 / 2))

-- `k` bit lengths from `low` on pass a test.
lengths_pass : (ℕ → Bool) → ℕ → ℕ → Bool
lengths_pass test low zero = true
lengths_pass test low (suc k) = test low && lengths_pass test (suc low) k

length_passes :
    (test : ℕ → Bool) (k low l : ℕ)
    → lengths_pass test low k ≡ true
    → low ≤ l
    → l < low + k
    → test l ≡ true
unfolding lengths_pass
length_passes test zero low l all from below = absurd (omega (arith, from, below))
length_passes test (suc k) low l all from below =
    by_place (Bool-cases (l == low)) (length_passes test k (suc low) l)
  where
    by_place :
        ((l == low) ≡ true) ⊎ ((l == low) ≡ false)
        → (lengths_pass test (suc low) k ≡ true → suc low ≤ l → l < suc low + k → test l ≡ true)
        → test l ≡ true
    by_place (inl e) later =
        let here : low ≡ l = ground arith in subst (λ x. test x ≡ true) here (ground arith)
    by_place (inr e) later = later (ground arith) (ground arith) (omega (arith, below))

-- The thresholds of an average of `l` bits, for the lengths that are accepted.
abbrev ordered : ℕ → Bool
ordered l =
    ltb 0 (shl_one (64 - (l - 1 + 2)))
    && ltb (shl_one (64 - (l - 1 + 2))) (shl_one (64 - (l - 1 - 2)))

ordered_table : lengths_pass ordered 4 58 ≡ true
unfolding lengths_pass
ordered_table = refl

ordered_thresholds :
    (l : ℕ)
    → 4 ≤ l
    → l ≤ 61
    → (0 < shl_one (64 - (l - 1 + 2))) × (shl_one (64 - (l - 1 + 2)) < shl_one (64 - (l - 1 - 2)))
ordered_thresholds l h k = ground (arith, length_passes ordered 58 4 l ordered_table)

-- For an accepted configuration with an average of at least 8, both thresholds are positive and the
-- second is the larger.
pub thresholds_ordered :
    (c c' : Config)
    → normalize c ≡ ok c'
    → 8 ≤ (sizes c').avg
    → (0 < (sizes c').threshold_small) × ((sizes c').threshold_small < (sizes c').threshold_large)
unfolding sizes
thresholds_ordered c c' h k =
    let (_, _, _, _, fits) = normalize-IsAccepted c c' h in
    ordered_thresholds (bits_len (pos_part c'.avg)) (bits_len_ge (pos_part c'.avg) k) (omega arith)

-- `1 << 64` is 0.
threshold_large-zero :
    (c c' : Config) → normalize c ≡ ok c' → (sizes c').avg < 8 → (sizes c').threshold_large ≡ 0
unfolding sizes
threshold_large-zero c c' h k =
    let (_, _, _, least, _) = normalize-IsAccepted c c' h in
    rw (bits_len_small (pos_part c'.avg) least k)

-- No fingerprint is under 0.
scan-zero :
    (rounds : ℕ) (bytes : Bytes) (i fp : ℕ) → (fp' : ℕ) × (scan 0 rounds bytes i fp ≡ through fp')
unfolding scan
scan-zero zero bytes i fp = (fp, refl)
scan-zero (suc rounds) bytes i fp =
    let (fp', e) = scan-zero rounds bytes (i + 1) (roll fp bytes i) in
    (fp', rw (never (roll fp bytes i)) e)
  where
    never : (x : ℕ) → ltb x 0 ≡ false
    never x = ground arith

-- For an accepted configuration with an average under 8, `1 << 64` makes the second threshold 0, and
-- no fingerprint falls under it: of a slice of more than Min bytes, `cutpoint` gives the first cut
-- between Min and the average or else, whatever the bytes behind the average are, all that Max
-- allows.
pub cutpoint-one_region :
    (c c' : Config) (bytes : Bytes)
    → normalize c ≡ ok c'
    → (sizes c').avg < 8
    → leb (length bytes) (sizes c').min ≡ false
    → let s = sizes c' in
      let n = min (length bytes) s.max in
      (s.threshold_large ≡ 0)
      × (cutpoint s bytes ≡ end_at n (scan s.threshold_small (min s.avg n - s.min) bytes s.min 0))
unfolding cutpoint search_cut
cutpoint-one_region c c' bytes h k long =
    (zero_large, rw long (at (scan s.threshold_small (min s.avg n - s.min) bytes s.min 0)))
  where
    s : Sizes
    s = sizes c'

    n : ℕ
    n = min (length bytes) s.max

    zero_large : s.threshold_large ≡ 0
    zero_large = threshold_large-zero c c' h k

    at : (r : Scan) → second s (max s.min (min s.avg n)) n bytes r ≡ end_at n r
    at (cut i) = refl
    at (through fp) =
        let start = max s.min (min s.avg n) in
        let (fp', e) = scan-zero (n - start) bytes start fp in
        ap (λ t. end_at n (scan t (n - start) bytes start fp)) zero_large ∙ ap (end_at n) e
