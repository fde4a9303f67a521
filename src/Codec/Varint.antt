-- ===== src/Codec/Varint.antt =====
-- encoding/binary: `AppendUvarint` and `Uvarint`, as internal/codec/codec.go calls them.
use openbackup.Prelude.{
  ℕ, zero, suc, ◌+◌, ◌*◌, ◌/◌, ◌%◌, ◌^◌, ◌<◌, ◌≡◌, refl, ap, ◌∙◌, Bool, true, false, ◌&&◌, Bytes,
  [], ◌∷◌, ◌++◌, Option, none, some, arith, ltb, leb, if◌then◌else◌, length,
}
use native.Mathlib.Nat.{div-add-mod, pow-succ'}

-- Seven bits to a byte, the lowest first, and the top bit set on all but the last. A uint64 has at
-- most nine groups that are not the last.
unfoldable pub groups : ℕ → ℕ → Bytes
groups zero v = v ∷ []
groups (suc more) v =
    let rest = groups more (v / 128) in if ltb v 128 then v ∷ [] else (v % 128 + 128) ∷ rest

unfoldable pub append_uvarint : ℕ → Bytes
append_uvarint v = groups 9 v

-- `left` bytes may still follow after this one, `unit` is 1 << s, and `read` counts the bytes. The
-- tenth byte may only be 0 or 1.
unfoldable pub read_loop : ℕ → ℕ → ℕ → ℕ → Bytes → Option (ℕ × ℕ)
read_loop left acc unit read [] = none
read_loop zero acc unit read (b ∷ s) =
    if ltb b 128 && leb b 1 then some (acc + b * unit, read + 1) else none
read_loop (suc left) acc unit read (b ∷ s) =
    let rest = read_loop left (acc + b % 128 * unit) (unit * 128) (read + 1) s in
    if ltb b 128 then some (acc + b * unit, read + 1) else rest

-- The number, and how many bytes it takes; no answer is a count that is not positive.
unfoldable pub read_uvarint : Bytes → Option (ℕ × ℕ)
read_uvarint s = read_loop 9 0 1 0 s

-- The two halves of a number, both at the scale `unit`
split_group : (v unit : ℕ) → v % 128 * unit + v / 128 * (unit * 128) ≡ v * unit
split_group v unit = omega (arith, ap (λ (t : ℕ). t * unit) (div-add-mod v 128))

halves : (left v : ℕ) → v < 2 * 128 ^ suc left → v / 128 < 2 * 128 ^ left
halves left v h = omega (arith, pow-succ' 128 left, h)

read_loop-groups :
    (left v acc unit read : ℕ) (s : Bytes)
    → v < 2 * 128 ^ left
    → read_loop left acc unit read (groups left v ++ s)
      ≡ some (acc + v * unit, read + length (groups left v))
unfolding read_loop groups
read_loop-groups zero v acc unit read s h = ground arith
read_loop-groups (suc left) v acc unit read s h = ground (
  arith,
  read_loop-groups left (v / 128) (acc + v % 128 * unit) (unit * 128) (read + 1) s
      (halves left v h),
  split_group v unit,
)

-- What is written is read again, and as many bytes are counted.
pub read_uvarint-append_uvarint :
    (v : ℕ) (s : Bytes)
    → v < 2 ^ 64
    → read_uvarint (append_uvarint v ++ s) ≡ some (v, length (append_uvarint v))
unfolding read_uvarint append_uvarint
read_uvarint-append_uvarint v s h =
    read_loop-groups 9 v 0 1 0 s (omega (arith, h))
    ∙ ap (λ (p : ℕ × ℕ). some p) (pair (0 + v * 1) v _ _ (omega arith) (omega arith))
  where
    pair : (a b c d : ℕ) → a ≡ b → c ≡ d → ◌≡◌ {A = ℕ × ℕ} (a, c) (b, d)
    pair a b c d p q = cc

groups-cons : (more v : ℕ) → (b : ℕ) × (s : Bytes) × (groups more v ≡ b ∷ s)
unfolding groups
groups-cons zero v = (v, [], refl)
groups-cons (suc more) v = at (ltb v 128)
  where
    at :
        (b : Bool)
        → (x : ℕ) × (s : Bytes) × ((if b then v ∷ [] else (v % 128 + 128) ∷ groups more (v / 128))
            ≡ x ∷ s)
    at true = (v, [], refl)
    at false = (v % 128 + 128, groups more (v / 128), refl)

pub append_uvarint-cons : (v : ℕ) → (b : ℕ) × (s : Bytes) × (append_uvarint v ≡ b ∷ s)
unfolding append_uvarint
append_uvarint-cons v = groups-cons 9 v
