-- ===== src/Examples/Chunks.antt =====
-- internal/chunk: runs on a short buffer.
use openbackup.Prelude.{ℕ, suc, ◌≡◌, refl, Bytes, List, [], ◌∷◌, ◌-◌, arith, codes, length, false}
use openbackup.Prelude.Int.{pos}
use openbackup.Prelude.Result.{Result, ok}
use openbackup.Chunk.{Config, bits_len, normalize, sizes}
use openbackup.Chunk.Accepted.{normalize-IsSizes, cutpoint-one_region}
use openbackup.Chunk.Cut.{scan, end_at, cutpoint}
use openbackup.Chunk.Split.{Chunk, lift_callback, split}
use openbackup.Chunk.Split.Laws.{chunks_of, each, IsChunking, concat_bytes, split-IsChunking}
use openbackup.Chunk.Stream.{Script, more, at_eof, Chunker, new_chunker, next, end_of_stream}
use openbackup.Chunk.Stream.Filling.{content, state}
use openbackup.Chunk.Stream.Whole.{drain, drain-eq-split, empty_read_ends}

abbrev small : Config
small = record { min = pos 2; avg = pos 8; max = pos 16 }

abbrev tiny : Config
tiny = record { min = pos 2; avg = pos 4; max = pos 16 }

small_accepted : normalize small ≡ ok small
unfolding normalize bits_len
small_accepted = refl

tiny_accepted : normalize tiny ≡ ok tiny
unfolding normalize bits_len
tiny_accepted = refl

abbrev text : Bytes
text = codes "the quick brown fox jumps over the lazy dog"

abbrev pieces : Script
pieces =
    (codes "the quick bro", more)
    ∷ (codes "wn fox jumps over", more)
    ∷ (codes " the lazy dog", at_eof)
    ∷ []

abbrev reader : Chunker
reader = state (sizes small) pieces [] 0 0 false

reader_made : new_chunker pieces small ≡ ok reader
unfolding new_chunker normalize bits_len
reader_made = refl

-- The callback that keeps the offsets, the latest first
abbrev collect : Chunk → List ℕ → Result ℕ (List ℕ)
collect c offsets = ok (c.offset ∷ offsets)

cutpoint-one_region_example :
    ((sizes tiny).threshold_large ≡ 0)
    × (cutpoint (sizes tiny) text ≡ end_at 16 (scan (sizes tiny).threshold_small (4 - 2) text 2 0))
unfolding sizes
cutpoint-one_region_example = cutpoint-one_region tiny tiny text tiny_accepted (omega arith) refl

split-IsChunking_example :
    (cs : List Chunk) × (split text small collect [] ≡ lift_callback (each collect cs []))
    × IsChunking (sizes small) 0 text cs
    × (concat_bytes cs ≡ text)
split-IsChunking_example = split-IsChunking text small small collect [] small_accepted

drain-eq-split_example :
    drain (suc (length (content pieces))) reader ≡ ok (chunks_of (sizes small) (content pieces))
drain-eq-split_example =
    drain-eq-split pieces small small reader small_accepted (omega arith, (omega arith, tt))
      reader_made

empty_read_ends_example :
    next (state (sizes small) (([], more) ∷ pieces) [] 0 0 false)
    ≡ end_of_stream (state (sizes small) pieces [] 0 0 false)
empty_read_ends_example =
    empty_read_ends pieces (sizes small) 0 (normalize-IsSizes small small small_accepted)
