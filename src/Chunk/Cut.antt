-- ===== src/Chunk/Cut.antt =====
-- chunk/fastcdc.go, `cutpoint`: the search for the end of the next chunk.
pub mod Bounds
pub mod Prefix
use openbackup.Prelude.{
  ℕ, zero, suc, ◌+◌, ◌-◌, ◌*◌, ◌%◌, Bytes, ltb, leb, if◌then◌else◌, length, get_or, min, max,
}
use openbackup.Chunk.{Sizes, u64, gear}

-- `fp = (fp << 1) + gear[data[i]]`
pub roll : ℕ → Bytes → ℕ → ℕ
unfolding gear
roll fp bytes i = (fp * 2 % u64 + get_or gear (get_or bytes i 0) 0) % u64

-- A loop over `i` ends by a cut, or with the fingerprint that the next loop goes on from.
pub data Scan : Type 0 where
  cut : ℕ → Scan
  through : ℕ → Scan

-- One `for` loop: `rounds` iterations from `i` on.
unfoldable pub scan : ℕ → ℕ → Bytes → ℕ → ℕ → Scan
unfolding roll
scan threshold zero bytes i fp = through fp
scan threshold (suc rounds) bytes i fp =
    let fp' = roll fp bytes i in
    let rest = scan threshold rounds bytes (i + 1) fp' in
    if ltb fp' threshold then cut (i + 1) else rest

-- What `cutpoint` returns after its second loop.
abbrev pub end_at : ℕ → Scan → ℕ
end_at n (cut i) = i
end_at n (through fp) = n

abbrev pub second : Sizes → ℕ → ℕ → Bytes → Scan → ℕ
second s start n bytes (cut i) = i
second s start n bytes (through fp) = end_at n (scan s.threshold_large (n - start) bytes start fp)

-- `cutpoint` on a slice of more than Min bytes, with the limits `normal` and `n` computed.
unfoldable pub search_cut : Sizes → ℕ → ℕ → Bytes → ℕ
search_cut s normal n bytes =
    second s (max s.min normal) n bytes (scan s.threshold_small (normal - s.min) bytes s.min 0)

unfoldable pub cutpoint : Sizes → Bytes → ℕ
cutpoint s bytes =
    let len = length bytes in
    if leb len s.min then len else let n = min len s.max in search_cut s (min s.avg n) n bytes
