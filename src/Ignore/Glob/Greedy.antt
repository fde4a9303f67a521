-- ===== src/Ignore/Glob/Greedy.antt =====
-- internal/ignore/pattern.go, `matchSegment`: the loop goes back to the last star only, and still
-- finds every fit.
use openbackup.Prelude.{
  ℕ, zero, suc, ◌≡◌, ◌∙◌, ◌↔◌, ◌⊎◌, inl, inr, refl, sym, ap, subst, Bool, true, false, Bytes, [],
  ◌∷◌, Option, none, some, if◌then◌else◌, if_cases, Bool-cases, Option-cases,
}
use openbackup.Text.{bytes_eq}
use openbackup.Text.Lemmas.{bytes_eq-eq}
use openbackup.Ignore.Glob.{
  match_byte, starts_with_star, tail, only_stars, Mark, segment_loop, match_segment, star,
}
use openbackup.Ignore.Glob.Fuel.{match_segment-Answers}
use openbackup.Ignore.Glob.Meaning.{
  Matches, stars, byte, leave, absorb, Somewhere, here, later, Matches-nil, Somewhere-star,
  Somewhere-flat, Matches-byte, Somewhere-byte,
}

-- `G` is the question at the start. Without a mark it is the question about what is left. With
-- one it is whether the marked pattern fits somewhere in the marked name.
abbrev Marked : Type 0 → Bytes → Bytes → Option Mark → Type 0
Marked G p n none = G → Matches p n
Marked G p n (some m) =
    (G → Somewhere m.pattern m.name)
    × (Somewhere m.pattern m.name → G)
    × (Matches m.pattern m.name → Matches p n)

record Asks (G : Type 0) (p n : Bytes) (mark : Option Mark) : Type 0 where
  sound : Matches p n → G
  complete : G → Somewhere p n
  marked : Marked G p n mark

somewhere_after : (q s : Bytes) → ¬ Matches q s → Somewhere q s → Somewhere q (tail s)
somewhere_after q s f (here d) = absurd (f d)
somewhere_after q (c ∷ s) f (later w) = w

somewhere_before : (q s : Bytes) → Somewhere q (tail s) → Somewhere q s
somewhere_before q [] w = w
somewhere_before q (c ∷ s) w = later w

no_fit :
    {p n : Bytes} {c : ℕ} → starts_with_star p ≡ false → match_byte p c ≡ none → ¬ Matches p (c ∷ n)
no_fit e o (byte e' o' d) = cc
no_fit e o (leave e' d) = cc
no_fit e o (absorb e' d) = cc

module _ (G : Type 0) where
  -- A mark is set at a star, and set again one byte further on.
  Asks-mark :
      (q s : Bytes)
      → (Somewhere q s → G)
      → (G → Somewhere q s)
      → Asks G q s (some (record { pattern = q; name = s }))
  Asks-mark q s f g = record { sound = λ d. f (here d); complete = g; marked = (g, f, λ d. d) }

  Asks-star :
      (p n : Bytes) (mark : Option Mark)
      → starts_with_star p ≡ true
      → Asks G p n mark
      → Asks G (tail p) n (some (record { pattern = tail p; name = n }))
  Asks-star p n mark e a =
      Asks-mark (tail p) n (λ w. a.sound (Somewhere-star e w))
        (λ g. Somewhere-flat e (a.complete g))

  Asks-byte :
      (p rest n : Bytes) (c : ℕ) (mark : Option Mark)
      → starts_with_star p ≡ false
      → match_byte p c ≡ some rest
      → Asks G p (c ∷ n) mark
      → Asks G rest n mark
  Asks-byte p rest n c mark e o a = record {
    sound = λ d. a.sound (byte e o d);
    complete = λ g. Somewhere-byte c n e o (a.complete g);
    marked = onward mark a.marked;
  }
    where
      onward : (mark : Option Mark) → Marked G p (c ∷ n) mark → Marked G rest n mark
      onward none f = λ g. Matches-byte c e o (f g)
      onward (some m) (f, g, h) = (f, g, λ d. Matches-byte c e o (h d))

  Asks-retry :
      (p n : Bytes) (m : Mark)
      → ¬ Matches p n
      → Asks G p n (some m)
      → Asks G m.pattern (tail m.name) (some (record { pattern = m.pattern; name = tail m.name }))
  Asks-retry p n m not_here a =
      let (f, g, h) = a.marked in
      Asks-mark m.pattern (tail m.name) (λ w. g (somewhere_before m.pattern m.name w))
        (λ x. somewhere_after m.pattern m.name (λ d. not_here (h d)) (f x))

  -- Whatever the loop answers is the answer to the question.
  abbrev Right : Option Bool → Type 0
  Right o = (b : Bool) → o ≡ some b → (b ≡ true) ↔ G

  module _ (fuel : ℕ)
      (ih : (p n : Bytes) (mark : Option Mark)
        → Asks G p n mark
        → Right (segment_loop fuel p n mark))
      (p : Bytes) (c : ℕ) (n : Bytes) where
    retried :
        (mark : Option Mark)
        → ¬ Matches p (c ∷ n)
        → starts_with_star p ≡ false
        → match_byte p c ≡ none
        → Asks G p (c ∷ n) mark
        → Right (segment_loop (suc fuel) p (c ∷ n) mark)
    unfolding segment_loop
    retried none f e o a = λ b h.
        let q : segment_loop (suc fuel) p (c ∷ n) none ≡ some false =
          rw (e, segment_loop) (rw o refl) in
        (λ t. cc, λ g. absurd (f (a.marked g)))
    retried (some m) f e o a =
        rw (e, segment_loop) (rw o (ih m.pattern (tail m.name) _ (Asks-retry p (c ∷ n) m f a)))

    stepped :
        (mark : Option Mark)
        → Asks G p (c ∷ n) mark
        → Right (segment_loop (suc fuel) p (c ∷ n) mark)
    unfolding segment_loop
    stepped mark a = by_star (Bool-cases (starts_with_star p))
      where
        by_byte :
            (match_byte p c ≡ none) ⊎ ((rest : Bytes) × (match_byte p c ≡ some rest))
            → starts_with_star p ≡ false
            → Right (segment_loop (suc fuel) p (c ∷ n) mark)
        by_byte (inl o) e = retried mark (no_fit e o) e o a
        by_byte (inr (rest, o)) e =
            rw (e, segment_loop) (rw o (ih rest n mark (Asks-byte p rest n c mark e o a)))

        by_star :
            (starts_with_star p ≡ true) ⊎ (starts_with_star p ≡ false)
            → Right (segment_loop (suc fuel) p (c ∷ n) mark)
        by_star (inl e) =
            rw (e, segment_loop) (ih (tail p) (c ∷ n) _ (Asks-star p (c ∷ n) mark e a))
        by_star (inr e) = by_byte (Option-cases (match_byte p c)) e

  segment_loop-Right :
      (fuel : ℕ) (p n : Bytes) (mark : Option Mark)
      → Asks G p n mark
      → Right (segment_loop fuel p n mark)
  unfolding segment_loop
  segment_loop-Right zero p n mark a b h = cc
  segment_loop-Right (suc fuel) p [] mark a b h =
      (λ t. a.sound (stars (q ∙ t)), λ g. sym q ∙ Matches-nil p (at_end (a.complete g)))
    where
      q : only_stars p ≡ b
      q = cc

      at_end : Somewhere p [] → Matches p []
      at_end (here d) = d
  segment_loop-Right (suc fuel) p (c ∷ n) mark a b h =
      stepped fuel (segment_loop-Right fuel) p c n mark a b h

-- A lone star, which the function answers at once
star-Matches : (n : Bytes) → Matches (star ∷ []) n
unfolding only_stars
star-Matches [] = stars refl
star-Matches (c ∷ n) = absorb refl (star-Matches n)

-- The pattern and the name as they are compared
abbrev pub folded : (Bytes → Bytes) → Bool → Bytes → Bytes
folded lower fold s = if fold then lower s else s

-- The answer is whether the items of the pattern can be laid along the name.
pub match_segment-Matches :
    (lower : Bytes → Bytes) (pattern name : Bytes) (fold : Bool)
    → lower (star ∷ []) ≡ star ∷ []
    → (match_segment lower pattern name fold ≡ some true)
      ↔ Matches (folded lower fold pattern) (folded lower fold name)
unfolding match_segment
match_segment-Matches lower pattern name fold h =
    (λ q. (right true q).0 refl, λ d. back (match_segment-Answers lower pattern name fold) d)
  where
    asked : (p n : Bytes) → Asks (Matches p n) p n none
    asked p n = record { sound = λ d. d; complete = λ d. here d; marked = λ d. d }

    all :
        bytes_eq pattern (star ∷ []) ≡ true
        → Matches (folded lower fold pattern) (folded lower fold name)
    all e = subst (λ p. Matches p (folded lower fold name)) (sym (starred fold)) (star-Matches _)
      where
        starred : (fold : Bool) → folded lower fold pattern ≡ star ∷ []
        starred true = ap lower (bytes_eq-eq pattern (star ∷ []) e) ∙ h
        starred false = bytes_eq-eq pattern (star ∷ []) e

    right :
        Right
          (Matches (folded lower fold pattern) (folded lower fold name))
          (match_segment lower pattern name fold)
    right =
        if_cases (Right (Matches (folded lower fold pattern) (folded lower fold name)))
          (bytes_eq pattern (star ∷ [])) _ _ (λ e b q. (λ t. all e, λ d. cc))
          (λ e.
            segment_loop-Right _ _ (folded lower fold pattern) (folded lower fold name) none
              (asked (folded lower fold pattern) (folded lower fold name)))

    back :
        (b : Bool) × (match_segment lower pattern name fold ≡ some b)
        → Matches (folded lower fold pattern) (folded lower fold name)
        → match_segment lower pattern name fold ≡ some true
    back (b, r) d = subst (λ b. match_segment lower pattern name fold ≡ some b) ((right b r).1 d) r
