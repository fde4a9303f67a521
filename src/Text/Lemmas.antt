-- ===== src/Text/Lemmas.antt =====
-- Splitting and joining, and text that `trim_space` leaves alone.
use mathlib.Core.List.{reverse, reverse-reverse}
use openbackup.Prelude.{
  ℕ, ◌<◌, ◌≡◌, ◌⊎◌, inl, inr, refl, sym, subst, ap, ◌∙◌, Bool-cases, Bool, true, false, Bytes, List,
  [], ◌∷◌, ◌++◌, none, some, arith, ◌==◌, ==_iff, All, All-reverse,
}
use openbackup.Text.{split, join, cut, onto_head, trim_front, trim_space, bytes_eq}

abbrev pub Without : ℕ → Bytes → Type 0
Without sep s = All (λ c. (c == sep) ≡ false) s

pub split-Without : (sep : ℕ) (s : Bytes) → Without sep s → split sep s ≡ s ∷ []
unfolding split
split-Without sep [] h = refl
split-Without sep (c ∷ s) (h, hs) = rw h (rw (split-Without sep s hs))

-- A part with a separator behind it comes off the front.
pub split-append :
    (sep : ℕ) (p s : Bytes) → Without sep p → split sep (p ++ sep ∷ s) ≡ p ∷ split sep s
unfolding split
split-append sep [] s h = let e : (sep == sep) ≡ true = (==_iff sep sep).1 refl in rw e
split-append sep (c ∷ p) s (h, hp) = rw h (rw (split-append sep p s hp))

-- Parts that do not hold the separator are what their join splits into.
pub split-join :
    (sep : ℕ) (p : Bytes) (ps : List Bytes)
    → All (Without sep) (p ∷ ps)
    → split sep (join sep (p ∷ ps)) ≡ p ∷ ps
unfolding join
split-join sep p [] (h, _) = split-Without sep p h
split-join sep p (q ∷ ps) (h, hs) =
    split-append sep p (join sep (q ∷ ps)) h ∙ ap (λ l. p ∷ l) (split-join sep q ps hs)

pub cut-Without : (sep : ℕ) (s : Bytes) → Without sep s → cut sep s ≡ none
unfolding cut
cut-Without sep [] h = refl
cut-Without sep (c ∷ s) (h, hs) = rw h (rw (cut-Without sep s hs))

pub cut-append : (sep : ℕ) (a b : Bytes) → Without sep a → cut sep (a ++ sep ∷ b) ≡ some (a, b)
unfolding cut
cut-append sep [] b h = let e : (sep == sep) ≡ true = (==_iff sep sep).1 refl in rw e
cut-append sep (c ∷ a) b (h, ha) = rw h (rw (cut-append sep a b ha))

-- Printable ASCII.
abbrev pub IsGraphic : ℕ → Type 0
IsGraphic c = (32 < c) × (c < 128)

trim_front-IsGraphic : (flip : Bool) (s : Bytes) → All IsGraphic s → trim_front flip s ≡ s
unfolding trim_front
trim_front-IsGraphic flip [] h = refl
trim_front-IsGraphic flip (a ∷ []) (h, _) = ground arith
trim_front-IsGraphic true (a ∷ b ∷ []) (h, _) = ground arith
trim_front-IsGraphic false (a ∷ b ∷ []) (h, _) = ground arith
trim_front-IsGraphic true (a ∷ b ∷ c ∷ s) (h, _) = ground arith
trim_front-IsGraphic false (a ∷ b ∷ c ∷ s) (h, _) = ground arith

pub trim_space-IsGraphic : (s : Bytes) → All IsGraphic s → trim_space s ≡ s
unfolding trim_space
trim_space-IsGraphic s h =
    rw (trim_front-IsGraphic false s h)
      (rw (trim_front-IsGraphic true (reverse s) (All-reverse IsGraphic s h)) (reverse-reverse s))

onto_head-All {κ} :
    (P : ℕ → Type κ) (c : ℕ) (ps : List Bytes) → All (All P) (onto_head c ps) → P c × All (All P) ps
onto_head-All P c [] ((h, _), _) = (h, tt)
onto_head-All P c (p ∷ ps) ((h, hp), hps) = (h, (hp, hps))

-- What holds of the separator and of every byte of the parts holds of every byte.
pub All-split {κ} :
    (P : ℕ → Type κ) (sep : ℕ) (s : Bytes) → P sep → All (All P) (split sep s) → All P s
unfolding split
All-split P sep [] h k = tt
All-split P sep (c ∷ s) h k = step (Bool-cases (c == sep)) (All-split P sep s h)
  where
    step :
        ((c == sep) ≡ true) ⊎ ((c == sep) ≡ false)
        → (All (All P) (split sep s) → All P s)
        → All P (c ∷ s)
    step (inl e) ih = (subst P (sym ((==_iff c sep).0 e)) h, ih ((rw e at k).1))
    step (inr e) ih = let (hc, hs) = onto_head-All P c (split sep s) (rw e at k) in (hc, ih hs)

pub bytes_eq-eq : (s t : Bytes) → bytes_eq s t ≡ true → s ≡ t
bytes_eq-eq [] [] h = refl
bytes_eq-eq [] (d ∷ t) h = cc
bytes_eq-eq (c ∷ s) [] h = cc
bytes_eq-eq (c ∷ s) (d ∷ t) h = ground (arith, bytes_eq-eq s t)

pub bytes_eq_refl : (p : Bytes) → bytes_eq p p ≡ true
bytes_eq_refl [] = refl
bytes_eq_refl (c ∷ p) = ground (arith, bytes_eq_refl p)
