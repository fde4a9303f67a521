-- ===== src/Chunk/Stream/Filling.antt =====
-- chunk/fastcdc.go: what `fill` leaves in the buffer.
use openbackup.Prelude.{
  ℕ, zero, suc, ◌+◌, ◌-◌, ◌*◌, ◌≤◌, ◌<◌, ◌≡◌, ◌⊎◌, inl, inr, refl, ap, sym, ◌∙◌, Bool, true, false,
  ◌||◌, Bytes, [], ◌∷◌, ◌++◌, arith, leb, ltb, ◌==◌, length, take, drop, append-nil, append_assoc,
  length-append, length-take, length-drop, take-append-drop, if_cases, leb-false→lt,
}
use openbackup.Chunk.{Sizes}
use openbackup.Chunk.Cut.Bounds.{IsSizes}
use openbackup.Chunk.Stream.{
  Status, more, at_eof, broken, Script, Read, read, Chunker, Fill, filled, fill_failed, fill_loop,
  compact, fill, after_read,
}

-- What the script delivers up to its first end of file.
abbrev pub content : Script → Bytes
content [] = []
content ((bs, more) ∷ script) = bs ++ content script
content ((bs, at_eof) ∷ script) = bs
content ((bs, broken) ∷ script) = bs

-- No `Read` fails, and none returns (0, nil).
abbrev pub IsSteady : Script → Type 0
IsSteady [] = Unit
IsSteady ((bs, more) ∷ script) = (0 < length bs) × IsSteady script
IsSteady ((bs, at_eof) ∷ script) = Unit
IsSteady ((bs, broken) ∷ script) = ⊥

-- What a `Read` gives of what the script held, by the error that comes with it.
abbrev Delivers : Script → Read → Status → Type 0
Delivers script r more =
    (0 < length r.bytes) × IsSteady r.rest × (content script ≡ r.bytes ++ content r.rest)
Delivers script r at_eof = content script ≡ r.bytes
Delivers script r broken = ⊥

module _ (room : ℕ) (positive : 0 < room) (bs tail : Bytes) where
  split_read : bs ++ tail ≡ take room bs ++ (drop room bs ++ tail)
  split_read =
      ap (λ l. l ++ tail) (sym (take-append-drop room bs))
      ∙ append_assoc (take room bs) (drop room bs) tail

  read_some : room < length bs → 0 < length (take room bs)
  read_some h = omega (arith, length-take room bs)

read-Delivers :
    (script : Script) (room : ℕ)
    → 0 < room
    → IsSteady script
    → Delivers script (read script room) (read script room).status
unfolding read
read-Delivers [] room h st = refl
read-Delivers ((bs, more) ∷ script) room h (some_bytes, st) =
    if_cases (λ (r : Read). Delivers ((bs, more) ∷ script) r r.status) (leb (length bs) room) _ _
      (λ _. (some_bytes, st, refl))
      (λ big. (
        read_some room h bs [] (ground arith),
        (omega (arith, length-drop room bs, leb-false→lt (length bs) room big), st),
        split_read room h bs (content script),
      ))
read-Delivers ((bs, at_eof) ∷ script) room h st =
    if_cases (λ (r : Read). Delivers ((bs, at_eof) ∷ script) r r.status) (leb (length bs) room) _ _
      (λ _. refl)
      (λ big. (read_some room h bs [] (ground arith), tt, sym (take-append-drop room bs)))
read-Delivers ((bs, broken) ∷ script) room h st = absurd st

abbrev pub state : Sizes → Script → Bytes → ℕ → ℕ → Bool → Chunker
state s r b start offset eof = record {
  sizes = s;
  reader = r;
  buf = b;
  start = start;
  offset = offset;
  eof = eof;
}

-- What the chunker has still to read, and that reading it raises no error.
abbrev pub pending : Bool → Script → Bytes
pending true r = []
pending false r = content r

abbrev pub IsLive : Bool → Script → Type 0
IsLive true r = Unit
IsLive false r = IsSteady r

-- `view` is the part of the stream that is not cut yet, from `offset` on.
pub record IsAt (s : Sizes) (view : Bytes) (offset : ℕ) (c : Chunker) : Type 0 where
  pub reader : Script
  pub buf : Bytes
  pub start : ℕ
  pub eof : Bool
  pub shape : c ≡ state s reader buf start offset eof
  pub start_le : start ≤ length buf
  pub live : IsLive eof reader
  pub view_eq : drop start buf ++ pending eof reader ≡ view

abbrev pub at_state :
    (s : Sizes) (r : Script) (b : Bytes) (start offset : ℕ) (eof : Bool)
    → start ≤ length b
    → IsLive eof r
    → IsAt s (drop start b ++ pending eof r) offset (state s r b start offset eof)
at_state s r b start offset eof h live = record {
  reader = r;
  buf = b;
  start = start;
  eof = eof;
  shape = refl;
  start_le = h;
  live = live;
  view_eq = refl;
}

-- The buffer holds Max bytes, or all that is left.
abbrev pub IsFull :
    (s : Sizes) (view : Bytes) (offset : ℕ) (c : Chunker) → IsAt s view offset c → Type 0
IsFull s view offset c i = (s.max ≤ length i.buf - i.start) ⊎ (pending i.eof i.reader ≡ [])

abbrev pub FillsTo : Sizes → Bytes → ℕ → Fill → Type 0
FillsTo s view offset (filled c) = (i : IsAt s view offset c) × IsFull s view offset c i
FillsTo s view offset (fill_failed c) = ⊥

-- One round from a reader that is live, given what the next round does.
after_read-FillsTo :
    (s : Sizes) (offset : ℕ) (script : Script) (b : Bytes) (r : Read) (again : Fill)
    (status : Status)
    → Delivers script r status
    → (0 < length r.bytes
        → IsSteady r.rest
        → FillsTo s ((b ++ r.bytes) ++ content r.rest) offset again)
    → FillsTo s
        (b ++ content script)
        offset
        (after_read (state s r.rest (b ++ r.bytes) 0 offset false) (length r.bytes) again status)
after_read-FillsTo s offset script b r again more (some_bytes, st, e) h =
    if_cases (FillsTo s (b ++ content script) offset) (length r.bytes == 0) _ _
      (λ none_read. absurd (ground arith)) (λ _. rw e (rw (← append_assoc) (h some_bytes st)))
after_read-FillsTo s offset script b r again at_eof e h = (
  record {
    reader = r.rest;
    buf = b ++ r.bytes;
    start = 0;
    eof = true;
    shape = refl;
    start_le = omega arith;
    live = tt;
    view_eq = append-nil (b ++ r.bytes) ∙ ap (λ l. b ++ l) (sym e);
  },
  inr refl,
)
after_read-FillsTo s offset script b r again broken d h = absurd d

fill_loop-FillsTo :
    (s : Sizes) (offset fuel : ℕ) (r : Script) (b : Bytes)
    → IsSizes s
    → IsSteady r
    → s.max < fuel + length b
    → FillsTo s (b ++ content r) offset (fill_loop fuel (state s r b 0 offset false))
unfolding fill_loop
fill_loop-FillsTo s offset zero r b v st h =
    (at_state s r b 0 offset false (omega arith) st, inl (omega arith))
fill_loop-FillsTo s offset (suc fuel) r b v st h =
    if_cases (FillsTo s (b ++ content r) offset) (leb s.max (length b) || false) _ _
      (λ full. (at_state s r b 0 offset false (omega arith) st, inl (ground arith)))
      (λ room.
        after_read-FillsTo s offset r b (read r (s.max * 2 - length b)) _ _
          (read-Delivers r (s.max * 2 - length b) (ground arith) st)
          (λ some_bytes st'.
            fill_loop-FillsTo s offset fuel (read r (s.max * 2 - length b)).rest
              (b ++ (read r (s.max * 2 - length b)).bytes) v st'
              (omega (arith, length-append b (read r (s.max * 2 - length b)).bytes))))

compact_consumed :
    (s : Sizes) (r : Script) (b : Bytes) (start offset : ℕ) (eof : Bool)
    → compact (state s r b (suc start) offset eof) ≡ state s r (drop (suc start) b) 0 offset eof
unfolding compact
compact_consumed s r b start offset eof =
    let positive : ltb 0 (suc start) ≡ true = ground arith in rw positive

pub fill-FillsTo :
    (s : Sizes) (r : Script) (b : Bytes) (start offset : ℕ) (eof : Bool)
    → IsSizes s
    → start ≤ length b
    → IsLive eof r
    → FillsTo s (drop start b ++ pending eof r) offset (fill (state s r b start offset eof))
unfolding fill
fill-FillsTo s r b start offset true v h live =
    if_cases (FillsTo s (drop start b ++ []) offset) (leb s.max (length b - start) || true) _ _
      (λ _. (at_state s r b start offset true h live, inr refl)) (λ off. absurd (ground arith))
fill-FillsTo s r b zero offset false v h live =
    unfold compact in
    if_cases (FillsTo s (b ++ content r) offset) (leb s.max (length b - 0) || false) _ _
      (λ full. (at_state s r b 0 offset false h live, inl (ground arith)))
      (λ _. fill_loop-FillsTo s offset (suc s.max) r b v live (omega arith))
fill-FillsTo s r b (suc start) offset false v h live =
    if_cases (FillsTo s (drop (suc start) b ++ content r) offset)
      (leb s.max (length b - suc start) || false) _ _
      (λ full. (at_state s r b (suc start) offset false h live, inl (ground arith)))
      (λ _.
        rw (compact_consumed s r b start offset false)
          (fill_loop-FillsTo s offset (suc s.max) r (drop (suc start) b) v live (omega arith)))
