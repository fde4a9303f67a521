-- ===== src/Ignore/Glob/Fuel.antt =====
-- internal/ignore/pattern.go, `matchSegment`: the loop ends.
use openbackup.Prelude.{
  ℕ, zero, suc, ◌+◌, ◌*◌, ◌≤◌, ◌<◌, ◌≡◌, ◌⊎◌, inl, inr, refl, Bool, true, false, ◌&&◌, ◌||◌, Bytes,
  [], ◌∷◌, Option, none, some, arith, ◌==◌, leb, if◌then◌else◌, length, Bool-cases, Option-cases,
  if_cases, subst, sym, ap,
}
use openbackup.Text.{bytes_eq}
use openbackup.Ignore.Glob.{
  class_loop, accept_class, match_class, match_byte, starts_with_star, tail, only_stars, Mark,
  segment_loop, fuel_for, match_segment, star,
}

class_loop-shorter :
    (first matched : Bool) (c : ℕ) (s : Bytes) (m : Bool) (rest : Bytes)
    → class_loop first matched c s ≡ some (m, rest)
    → length rest < length s
unfolding class_loop
class_loop-shorter first matched c [] m rest h = cc
class_loop-shorter first matched c (a ∷ []) m rest h = ground arith
class_loop-shorter first matched c (a ∷ b ∷ []) m rest h =
    ground (arith, class_loop-shorter false (matched || a == c) c (b ∷ []) m rest)
class_loop-shorter first matched c (a ∷ b ∷ d ∷ s) m rest h = ground (
  arith,
  class_loop-shorter false (matched || a == c) c (b ∷ d ∷ s) m rest,
  class_loop-shorter false (matched || leb a c && leb c d) c s m rest,
)

accept_class-shorter :
    (negate : Bool) (s : Bytes) (o : Option (Bool × Bytes)) (rest : Bytes)
    → ((m : Bool) (r : Bytes) → o ≡ some (m, r) → length r < length s)
    → accept_class negate o ≡ some rest
    → length rest < length s
accept_class-shorter negate s none rest k h = cc
accept_class-shorter negate s (some (m, r)) rest k h = let shorter = k m r refl in ground arith

match_byte-shorter :
    (p : Bytes) (c : ℕ) (rest : Bytes) → match_byte p c ≡ some rest → length rest < length p
unfolding match_byte match_class
match_byte-shorter [] c rest h = cc
match_byte-shorter (a ∷ []) c rest h = ground arith
match_byte-shorter (a ∷ b ∷ s) c rest h = ground (
  arith,
  accept_class-shorter true s (class_loop true false c s) rest (class_loop-shorter true false c s),
  accept_class-shorter false (b ∷ s) (class_loop true false c (b ∷ s)) rest
      (class_loop-shorter true false c (b ∷ s)),
)

abbrev Answers : Option Bool → Type 0
Answers o = (b : Bool) × (o ≡ some b)

-- What is left to do: the mark's name can be tried again at each of its places, each with at most
-- the whole pattern, whose length is at most `bound`.
abbrev to_try : Bytes → Option Mark → ℕ
to_try n none = suc (length n)
to_try n (some m) = length m.name

record IsWithin (bound : ℕ) (p n : Bytes) (mark : Option Mark) : Type 0 where
  pattern_within : length p ≤ bound
  mark_within : (m : Mark) → mark ≡ some m → (length m.pattern ≤ bound) × (length n ≤ length m.name)

mul_less : (a b k : ℕ) → a ≤ b → a * k ≤ b * k
mul_less zero b k h = omega arith
mul_less (suc a) zero k h = absurd (omega (arith, h))
mul_less (suc a) (suc b) k h = omega (arith, mul_less a b k (omega (arith, h)))

length-tail : (p : Bytes) → starts_with_star p ≡ true → length p ≡ suc (length (tail p))
length-tail [] e = cc
length-tail (a ∷ p) e = refl

abbrev Loops : ℕ → ℕ → Type 0
Loops fuel bound =
    (p n : Bytes) (mark : Option Mark)
    → IsWithin bound p n mark
    → to_try n mark * suc bound + length p < fuel
    → Answers (segment_loop fuel p n mark)

module _ (fuel bound : ℕ) (ih : Loops fuel bound) (p : Bytes) (c : ℕ) (n : Bytes)
    (mark : Option Mark) (w : IsWithin bound p (c ∷ n) mark)
    (h : to_try (c ∷ n) mark * suc bound + length p < suc fuel) where
  -- A mark that is set leaves at most the tries that were left.
  fewer : (m : Mark) → mark ≡ some m → suc (length n) * suc bound ≤ to_try (c ∷ n) mark * suc bound
  fewer m e =
      mul_less (suc (length n)) (to_try (c ∷ n) mark) (suc bound)
        (tries mark m e (w.mark_within m e).1)
    where
      tries :
          (o : Option Mark) (m : Mark)
          → o ≡ some m
          → suc (length n) ≤ length m.name
          → suc (length n) ≤ to_try (c ∷ n) o
      tries none m e k = cc
      tries (some m') m e k =
          let q : m' ≡ m = cc in subst (λ (x : Mark). suc (length n) ≤ length x.name) (sym q) k

  starred :
      starts_with_star p ≡ true
      → Answers
          (segment_loop fuel (tail p) (c ∷ n) (some (record { pattern = tail p; name = c ∷ n })))
  starred e =
      ih (tail p) (c ∷ n) _ (record { pattern_within = shorter; mark_within = λ m q. set m q })
        (less mark refl)
    where
      shorter : length (tail p) ≤ bound
      shorter = omega (arith, length-tail p e, w.pattern_within)

      set :
          (m : Mark)
          → some (record { pattern = tail p; name = c ∷ n }) ≡ some m
          → (length m.pattern ≤ bound) × (length (c ∷ n) ≤ length m.name)
      set m q =
          let r : record { pattern = tail p; name = c ∷ n } ≡ m = cc in
          subst (λ (m : Mark). (length m.pattern ≤ bound) × (length (c ∷ n) ≤ length m.name)) r
            (shorter, omega arith)

      less : (o : Option Mark) → mark ≡ o → suc (length n) * suc bound + length (tail p) < fuel
      less none q = omega (arith, length-tail p e, ap (λ o. to_try (c ∷ n) o * suc bound) q, h)
      less (some m) q = omega (arith, length-tail p e, fewer m q, h)

  passed : (rest : Bytes) → match_byte p c ≡ some rest → Answers (segment_loop fuel rest n mark)
  passed rest e =
      ih rest n mark
        (record {
          pattern_within = omega (arith, match_byte-shorter p c rest e, w.pattern_within);
          mark_within = λ m q. ((w.mark_within m q).0, omega (arith, (w.mark_within m q).1));
        })
        (less mark h)
    where
      less :
          (o : Option Mark)
          → to_try (c ∷ n) o * suc bound + length p < suc fuel
          → to_try n o * suc bound + length rest < fuel
      less none k = omega (arith, match_byte-shorter p c rest e, k)
      less (some m) k = omega (arith, match_byte-shorter p c rest e, k)

  retried :
      (m : Mark)
      → mark ≡ some m
      → Answers (
          segment_loop fuel m.pattern
            (tail m.name)
            (some (record { pattern = m.pattern; name = tail m.name })))
  retried m e =
      ih m.pattern (tail m.name) _
        (record { pattern_within = (w.mark_within m e).0; mark_within = λ m' q. set m' q }) less
    where
      set :
          (m' : Mark)
          → some (record { pattern = m.pattern; name = tail m.name }) ≡ some m'
          → (length m'.pattern ≤ bound) × (length (tail m.name) ≤ length m'.name)
      set m' q =
          let r : record { pattern = m.pattern; name = tail m.name } ≡ m' = cc in
          subst (λ (x : Mark). (length x.pattern ≤ bound) × (length (tail m.name) ≤ length x.name))
            r ((w.mark_within m e).0, omega arith)

      gone : (s : Bytes) → suc (length n) ≤ length s → length s ≡ suc (length (tail s))
      gone [] k = absurd (omega (arith, k))
      gone (a ∷ s) k = refl

      k : to_try (c ∷ n) (some m) * suc bound + length p < suc fuel
      k = subst (λ o. to_try (c ∷ n) o * suc bound + length p < suc fuel) e h

      less : length (tail m.name) * suc bound + length m.pattern < fuel
      less = omega (
        arith,
        k,
        ap (λ l. l * suc bound) (gone m.name (w.mark_within m e).1),
        (w.mark_within m e).0,
      )

  steps : Answers (segment_loop (suc fuel) p (c ∷ n) mark)
  unfolding segment_loop
  steps = by_star (Bool-cases (starts_with_star p))
    where
      by_mark :
          (Mark_cases : (mark ≡ none) ⊎ ((m : Mark) × (mark ≡ some m)))
          → starts_with_star p ≡ false
          → match_byte p c ≡ none
          → Answers (segment_loop (suc fuel) p (c ∷ n) mark)
      by_mark (inl q) e o = (false, rw (e, segment_loop) (rw o (rw q)))
      by_mark (inr (m, q)) e o =
          let (b, r) = retried m q in (b, rw (e, segment_loop) (rw o (rw q r)))

      by_byte :
          (match_byte p c ≡ none) ⊎ ((rest : Bytes) × (match_byte p c ≡ some rest))
          → starts_with_star p ≡ false
          → Answers (segment_loop (suc fuel) p (c ∷ n) mark)
      by_byte (inl o) e = by_mark (Option-cases mark) e o
      by_byte (inr (rest, o)) e = let (b, r) = passed rest o in (b, rw (e, segment_loop) (rw o r))

      by_star :
          (starts_with_star p ≡ true) ⊎ (starts_with_star p ≡ false)
          → Answers (segment_loop (suc fuel) p (c ∷ n) mark)
      by_star (inl e) = let (b, r) = starred e in (b, rw (e, segment_loop) r)
      by_star (inr e) = by_byte (Option-cases (match_byte p c)) e

segment_loop-Answers : (fuel bound : ℕ) → Loops fuel bound
unfolding segment_loop
segment_loop-Answers zero bound p n mark w h = absurd (omega (arith, h))
segment_loop-Answers (suc fuel) bound p [] mark w h = (only_stars p, refl)
segment_loop-Answers (suc fuel) bound p (c ∷ n) mark w h =
    steps fuel bound (segment_loop-Answers fuel bound) p c n mark w h

-- The matching of one path component ends with an answer on every pattern and every name, whatever
-- the case folding does to them.
pub match_segment-Answers :
    (lower : Bytes → Bytes) (pattern name : Bytes) (fold : Bool)
    → (b : Bool) × (match_segment lower pattern name fold ≡ some b)
unfolding match_segment
match_segment-Answers lower pattern name fold =
    if_cases Answers (bytes_eq pattern (star ∷ [])) _ _ (λ e. (true, refl))
      (λ e. main (if fold then lower pattern else pattern) (if fold then lower name else name))
  where
    main : (p n : Bytes) → Answers (segment_loop (fuel_for p n) p n none)
    main p n =
        segment_loop-Answers (fuel_for p n) (length p) p n none
          (record { pattern_within = omega arith; mark_within = λ m q. absurd (no_mark m q) })
          (omega arith)
      where
        no_mark : (m : Mark) → ¬ (◌≡◌ {A = Option Mark} none (some m))
        no_mark m q = cc
