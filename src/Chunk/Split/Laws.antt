-- ===== src/Chunk/Split/Laws.antt =====
-- chunk/fastcdc.go, `Split`: the chunks of a buffer as a list, and what the list is.
use openbackup.Prelude.{
  ℕ, zero, suc, ◌+◌, ◌≤◌, ◌<◌, ◌≡◌, ◌⊎◌, refl, ap, sym, ◌∙◌, Bytes, List, [], ◌∷◌, ◌++◌, arith,
  length, drop, take-append-drop, length-take, length-drop,
}
use openbackup.Prelude.Result.{Result, ok, ◌>>=◌, bind-ext}
use openbackup.Chunk.{Config, Sizes, normalize, sizes}
use openbackup.Chunk.Cut.{cutpoint}
use openbackup.Chunk.Cut.Bounds.{IsSizes, cutpoint-bounds}
use openbackup.Chunk.Accepted.{normalize-IsSizes}
use openbackup.Chunk.Split.{Chunk, first_chunk, split_loop, split, lift_callback}

-- The chunks from `offset` on, in order.
unfoldable pub chunks_from : ℕ → Sizes → ℕ → Bytes → List Chunk
unfolding first_chunk
chunks_from fuel s offset [] = []
chunks_from zero s offset (x ∷ b) = []
chunks_from (suc fuel) s offset (x ∷ b) =
    first_chunk s offset (x ∷ b)
    ∷ chunks_from fuel s (offset + cutpoint s (x ∷ b)) (drop (cutpoint s (x ∷ b)) (x ∷ b))

unfoldable pub chunks_of : Sizes → Bytes → List Chunk
unfolding chunks_from
chunks_of s b = chunks_from (length b) s 0 b

-- The callback, on each chunk in turn until it fails.
abbrev pub each : {E S : Type 0} → (Chunk → S → Result E S) → List Chunk → S → Result E S
each fn [] st = ok st
each fn (c ∷ cs) st = fn c st >>= each fn cs

-- `cs` cuts `b` up: what follows one another, with nothing lost, each chunk within its bounds.
abbrev pub IsChunking : Sizes → ℕ → Bytes → List Chunk → Type 0
IsChunking s offset b [] = b ≡ []
IsChunking s offset b (c ∷ cs) =
    (c.offset ≡ offset)
    × (c.len ≡ length c.bytes)
    × (0 < c.len)
    × (c.len ≤ s.max)
    × ((c.len ≡ length b) ⊎ (s.min ≤ c.len))
    × (c.bytes ++ drop c.len b ≡ b)
    × IsChunking s (offset + c.len) (drop c.len b) cs

abbrev pub concat_bytes : List Chunk → Bytes
concat_bytes [] = []
concat_bytes (c ∷ cs) = c.bytes ++ concat_bytes cs

module _ (s : Sizes) (v : IsSizes s) where
  pub chunks_from-IsChunking :
      (fuel offset : ℕ) (b : Bytes)
      → length b ≤ fuel
      → IsChunking s offset b (chunks_from fuel s offset b)
  unfolding chunks_from
  chunks_from-IsChunking fuel offset [] h = refl
  chunks_from-IsChunking zero offset (x ∷ b) h = elim h [ ]
  chunks_from-IsChunking (suc fuel) offset (x ∷ b) h =
      let (pos, fits, small, large) = cutpoint-bounds s (x ∷ b) v (omega arith) in
      (
        refl,
        omega (arith, length-take (cutpoint s (x ∷ b)) (x ∷ b)),
        pos,
        small,
        large,
        take-append-drop (cutpoint s (x ∷ b)) (x ∷ b),
        chunks_from-IsChunking fuel (offset + cutpoint s (x ∷ b))
            (drop (cutpoint s (x ∷ b)) (x ∷ b))
            (omega (arith, length-drop (cutpoint s (x ∷ b)) (x ∷ b))),
      )

pub concat-IsChunking :
    (s : Sizes) (offset : ℕ) (b : Bytes) (cs : List Chunk)
    → IsChunking s offset b cs
    → concat_bytes cs ≡ b
concat-IsChunking s offset b [] h = sym h
concat-IsChunking s offset b (c ∷ cs) (_, _, _, _, _, joined, later) =
    ap (λ l. c.bytes ++ l) (concat-IsChunking s (offset + c.len) (drop c.len b) cs later) ∙ joined

split_loop-each :
    {E S : Type 0} (s : Sizes) (fn : Chunk → S → Result E S) (fuel offset : ℕ) (b : Bytes) (st : S)
    → split_loop s fn fuel offset b st ≡ each fn (chunks_from fuel s offset b) st
unfolding split_loop chunks_from
split_loop-each s fn fuel offset [] st = refl
split_loop-each s fn zero offset (x ∷ b) st = refl
split_loop-each s fn (suc fuel) offset (x ∷ b) st =
    bind-ext (fn (first_chunk s offset (x ∷ b)) st)
      (split_loop-each s fn fuel (offset + cutpoint s (x ∷ b)) (drop (cutpoint s (x ∷ b)) (x ∷ b)))

-- With an accepted configuration `split` hands the callback, in order and until it fails, a list
-- of chunks that cuts the buffer up: contiguous from 0, none empty, none over Max, only the last
-- under Min, and together the buffer.
pub split-IsChunking :
    {E S : Type 0} (b : Bytes) (cfg cfg' : Config) (fn : Chunk → S → Result E S) (st : S)
    → normalize cfg ≡ ok cfg'
    → (cs : List Chunk) × (split b cfg fn st ≡ lift_callback (each fn cs st))
      × IsChunking (sizes cfg') 0 b cs
      × (concat_bytes cs ≡ b)
unfolding split chunks_of
split-IsChunking b cfg cfg' fn st h =
    let whole =
      chunks_from-IsChunking (sizes cfg') (normalize-IsSizes cfg cfg' h) (length b) 0 b
        (omega arith) in
    (
      chunks_of (sizes cfg') b,
      rw h (ap lift_callback (split_loop-each (sizes cfg') fn (length b) 0 b st)),
      whole,
      concat-IsChunking (sizes cfg') 0 b (chunks_of (sizes cfg') b) whole,
    )
