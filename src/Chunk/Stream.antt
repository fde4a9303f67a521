-- ===== src/Chunk/Stream.antt =====
-- chunk/fastcdc.go: the `Chunker`, which cuts what an io.Reader delivers out of a buffer of 2 * Max.
pub mod Filling
pub mod Whole
use openbackup.Prelude.{
  ℕ, zero, suc, ◌+◌, ◌-◌, ◌*◌, Bool, true, false, ◌||◌, Bytes, List, [], ◌∷◌, ◌++◌, leb, ltb, ◌==◌,
  if◌then◌else◌, length, take, drop,
}
use openbackup.Prelude.Result.{Result, ok, err}
use openbackup.Chunk.{Config, ConfigError, Sizes, normalize, sizes}
use openbackup.Chunk.Cut.{cutpoint}
use openbackup.Chunk.Split.{Chunk}

-- The error that comes with the bytes of one `Read`: none, io.EOF, or another.
pub data Status : Type 0 where
  more at_eof broken : Status

-- What an io.Reader has yet to deliver, a `Read` at a time; after the last comes (0, io.EOF).
abbrev pub Script : Type 0
Script = List (Bytes × Status)

pub record Read : Type 0 where
  pub bytes : Bytes
  pub status : Status
  pub rest : Script

-- `Read(p)` with len(p) = room: what does not fit is kept for the next call.
unfoldable pub read : Script → ℕ → Read
read [] room = record { bytes = []; status = at_eof; rest = [] }
read ((bs, st) ∷ script) room =
    if leb (length bs) room
    then record { bytes = bs; status = st; rest = script }
    else record { bytes = take room bs; status = more; rest = (drop room bs, st) ∷ script }

-- `buf` is c.buf[:c.end], so that c.end is its length.
pub record Chunker : Type 0 where
  pub sizes : Sizes
  pub reader : Script
  pub buf : Bytes
  pub start : ℕ
  pub offset : ℕ
  pub eof : Bool

unfoldable pub new_chunker : Script → Config → Result ConfigError Chunker
new_chunker r cfg = elim (normalize cfg) [
  | ok cfg' ↦
      ok (record { sizes = sizes cfg'; reader = r; buf = []; start = 0; offset = 0; eof = false })
  | err e ↦ err e
]

-- The loop of `fill` ends, or returns the error of a `Read`.
pub data Fill : Type 0 where
  filled : Chunker → Fill
  fill_failed : Chunker → Fill

-- What `fill` does after a `Read` of `n` bytes into `c`; `again` is its next round.
abbrev pub after_read : Chunker → ℕ → Fill → Status → Fill
after_read c n again at_eof = filled (record c { eof = true })
after_read c n again broken = fill_failed c
after_read c n again more = if n == 0 then filled c else again

abbrev pub add_read : Chunker → Read → Chunker
add_read c r = record c { buf = c.buf ++ r.bytes; reader = r.rest }

abbrev pub read_into : Chunker → Read
read_into c = read c.reader (c.sizes.max * 2 - length c.buf)

-- `for c.end < c.cfg.Max && !c.eof`, with fuel
unfoldable pub fill_loop : ℕ → Chunker → Fill
unfolding read
fill_loop zero c = filled c
fill_loop (suc fuel) c =
    let r = read_into c in
    let again = fill_loop fuel (add_read c r) in
    let outcome = after_read (add_read c r) (length r.bytes) again r.status in
    if leb c.sizes.max (length c.buf) || c.eof then filled c else outcome

unfoldable pub compact : Chunker → Chunker
compact c = if ltb 0 c.start then record c { buf = drop c.start c.buf; start = 0 } else c

-- Every `Read` but the last brings a byte, so Max rounds are enough.
unfoldable pub fill : Chunker → Fill
unfolding fill_loop compact
fill c =
    if leb c.sizes.max (length c.buf - c.start) || c.eof
    then filled c
    else fill_loop (suc c.sizes.max) (compact c)

pub data Next : Type 0 where
  chunk : Chunk → Chunker → Next
  end_of_stream : Chunker → Next
  read_failed : Chunker → Next

-- `Next` after `fill`
unfoldable pub emit : Chunker → Next
emit c =
    let avail = drop c.start c.buf in
    let n = cutpoint c.sizes avail in
    if length avail == 0
    then end_of_stream c
    else chunk (record { offset = c.offset; len = n; bytes = take n avail })
        (record c { start = c.start + n; offset = c.offset + n })

abbrev pub after_fill : Fill → Next
after_fill (filled c) = emit c
after_fill (fill_failed c) = read_failed c

unfoldable pub next : Chunker → Next
unfolding fill emit
next c = after_fill (fill c)
