-- ===== src/Chunk/Split.antt =====
-- chunk/fastcdc.go, `Split`: chunking of a buffer in memory.
pub mod Laws
use openbackup.Prelude.{ℕ, zero, suc, ◌+◌, Bytes, List, [], ◌∷◌, length, take, drop}
use openbackup.Prelude.Result.{Result, ok, err, ◌>>=◌}
use openbackup.Chunk.{Config, ConfigError, Sizes, normalize, sizes}
use openbackup.Chunk.Cut.{cutpoint}

pub record Chunk : Type 0 where
  pub offset : ℕ
  pub len : ℕ
  pub bytes : Bytes

-- The first chunk of a slice that begins at `offset`.
unfoldable pub first_chunk : Sizes → ℕ → Bytes → Chunk
unfolding cutpoint
first_chunk s offset b = record {
  offset = offset;
  len = cutpoint s b;
  bytes = take (cutpoint s b) b;
}

-- The callback `fn` acts on a state of type `S` and may fail.
module _ {E S : Type 0} (s : Sizes) (fn : Chunk → S → Result E S) where
  -- `for len(b) > 0`, with fuel
  unfoldable pub split_loop : ℕ → ℕ → Bytes → S → Result E S
  unfolding first_chunk
  split_loop fuel offset [] st = ok st
  split_loop zero offset (x ∷ b) st = ok st
  split_loop (suc fuel) offset (x ∷ b) st = fn (first_chunk s offset (x ∷ b)) st >>= λ st'.
      split_loop fuel (offset + cutpoint s (x ∷ b)) (drop (cutpoint s (x ∷ b)) (x ∷ b)) st'

pub data SplitError (E : Type 0) : Type 0 where
  bad_config : ConfigError → SplitError E
  callback : E → SplitError E

abbrev pub lift_config : {E A : Type 0} → Result ConfigError A → Result (SplitError E) A
lift_config (ok a) = ok a
lift_config (err e) = err (bad_config e)

abbrev pub lift_callback : {E A : Type 0} → Result E A → Result (SplitError E) A
lift_callback (ok a) = ok a
lift_callback (err e) = err (callback e)

unfoldable pub split :
    {E S : Type 0} → Bytes → Config → (Chunk → S → Result E S) → S → Result (SplitError E) S
unfolding split_loop
split b cfg fn st = do
  cfg' ← lift_config (normalize cfg)
  lift_callback (split_loop (sizes cfg') fn (length b) 0 b st)
