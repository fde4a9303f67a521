-- ===== src/Chunk.antt =====
-- internal/chunk: the configuration of the content-defined chunker and the gear table.
-- `Cut` has the cut-point search, `Split` the in-memory loop, `Stream` the buffered reader.
pub mod Cut
pub mod Accepted
pub mod Split
pub mod Stream
use Prim.Native.Nat.{bit_xor}
use openbackup.Prelude.{
  ℕ, zero, suc, ◌+◌, ◌-◌, ◌*◌, ◌/◌, ◌%◌, ◌^◌, ◌≤◌, ◌≡◌, Bool, ◌&&◌, ◌||◌, List, [], ◌∷◌, ltb, ◌==◌,
  if◌then◌else◌,
}
use openbackup.Prelude.Int.{ℤ, pos, pos_part, ltb_ℤ, leb_ℤ}
use openbackup.Prelude.Result.{Result, ok, err}

abbrev pub default_min : ℕ
default_min = 256 * 2 ^ 10

abbrev pub default_avg : ℕ
default_avg = 2 ^ 20

abbrev pub default_max : ℕ
default_max = 4 * 2 ^ 20

abbrev pub normalization : ℕ
normalization = 2

-- A `uint64` or an `int` shifted out of its width.
abbrev pub u64 : ℕ
u64 = 2 ^ 64

pub record Config : Type 0 where
  pub min : ℤ
  pub avg : ℤ
  pub max : ℤ

unfoldable pub default_config : Config
default_config = record { min = pos default_min; avg = pos default_avg; max = pos default_max }

pub data ConfigError : Type 0 where
  not_positive out_of_order too_large too_small : ConfigError

-- `bits.Len`, by at most `fuel` halvings.
len_loop : ℕ → ℕ → ℕ
len_loop zero n = 0
len_loop (suc fuel) n = let rest = len_loop fuel (n / 2) in if n == 0 then 0 else suc rest

unfoldable pub bits_len : ℕ → ℕ
unfolding len_loop
bits_len n = len_loop 64 n

abbrev is_zero : ℤ → Bool
is_zero a = leb_ℤ a (pos 0) && leb_ℤ (pos 0) a

abbrev pub checked : Config → Result ConfigError Config
checked c =
    if leb_ℤ c.min (pos 0) || leb_ℤ c.avg (pos 0) || leb_ℤ c.max (pos 0)
    then err not_positive
    else if ltb_ℤ c.avg c.min || ltb_ℤ c.max c.avg
    then err out_of_order
    else if ltb 63 (bits_len (pos_part c.avg) + normalization)
    then err too_large
    else if ltb_ℤ c.avg (pos (2 ^ normalization))
    then err too_small
    else ok c

abbrev pub or_default : Config → Config
or_default c = if is_zero c.min && is_zero c.avg && is_zero c.max then default_config else c

unfoldable pub normalize : Config → Result ConfigError Config
unfolding default_config
normalize c = checked (or_default c)

-- `1 << n` in a `uint64`: zero from 64 on.
abbrev pub shl_one : ℕ → ℕ
shl_one n = 2 ^ n % u64

-- A validated configuration with its thresholds, as `NewChunker` stores them.
pub record Sizes : Type 0 where
  pub min : ℕ
  pub avg : ℕ
  pub max : ℕ
  pub threshold_small : ℕ
  pub threshold_large : ℕ

unfoldable pub sizes : Config → Sizes
sizes c =
    let avg_bits = bits_len (pos_part c.avg) - 1 in
    record {
      min = pos_part c.min;
      avg = pos_part c.avg;
      max = pos_part c.max;
      threshold_small = shl_one (64 - (avg_bits + normalization));
      threshold_large = shl_one (64 - (avg_bits - normalization));
    }

abbrev pub gear_seed : ℕ
gear_seed = 0x9E3779B97F4A7C15

abbrev mix : ℕ → ℕ
mix s =
    let z1 : ℕ = bit_xor s (s / 2 ^ 30) * 0xBF58476D1CE4E5B9 % u64 in
    let z2 : ℕ = bit_xor z1 (z1 / 2 ^ 27) * 0x94D049BB133111EB % u64 in bit_xor z2 (z2 / 2 ^ 31)

-- The entries that are left to build, from the generator's state.
gear_loop : ℕ → ℕ → List ℕ
gear_loop zero s = []
gear_loop (suc n) s = let s' : ℕ = (s + 0x9E3779B97F4A7C15) % u64 in mix s' ∷ gear_loop n s'

unfoldable pub build_gear : ℕ → List ℕ
unfolding gear_loop
build_gear seed = gear_loop 256 seed

unfoldable pub gear : List ℕ
unfolding build_gear
gear = build_gear gear_seed
