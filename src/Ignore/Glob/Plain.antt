-- ===== src/Ignore/Glob/Plain.antt =====
-- internal/ignore/pattern.go, `matchSegment`: patterns of stars, question marks and plain bytes.
use openbackup.Prelude.{
  ℕ, ◌≡◌, ◌↔◌, ◌⊎◌, inl, inr, refl, sym, subst, Bool, true, false, Bytes, [], ◌∷◌, some, arith,
  ◌==◌, Bool-cases,
}
use openbackup.Text.Lemmas.{Without}
use openbackup.Ignore.Glob.{match_byte, only_stars, match_segment, star}
use openbackup.Ignore.Glob.Meaning.{Matches, stars, byte, leave, absorb}
use openbackup.Ignore.Glob.Greedy.{folded, match_segment-Matches}

-- "*" stands for any run of bytes, "?" for any one byte, and every byte for itself.
pub data Fits : Bytes → Bytes → Type 0 where
  end : Fits [] []
  star_over : {p n : Bytes} → Fits p n → Fits (b'*' ∷ p) n
  star_takes : {p n : Bytes} {c : ℕ} → Fits (b'*' ∷ p) n → Fits (b'*' ∷ p) (c ∷ n)
  any_byte : {p n : Bytes} {c : ℕ} → Fits p n → Fits (b'?' ∷ p) (c ∷ n)
  same_byte : {p n : Bytes} {c : ℕ} → Fits p n → Fits (c ∷ p) (c ∷ n)

-- A star in the name too is taken by a star.
Fits-Matches : {p n : Bytes} → Fits p n → Without b'[' p → Matches p n
unfolding only_stars match_byte
Fits-Matches end w = stars refl
Fits-Matches (star_over f) (w, ws) = leave refl (Fits-Matches f ws)
Fits-Matches (star_takes f) w = absorb refl (Fits-Matches f w)
Fits-Matches (any_byte f) (w, ws) = byte refl refl (Fits-Matches f ws)
Fits-Matches (same_byte {p} {n} {c} f) (w, ws) = at (Bool-cases (c == star)) (Fits-Matches f ws)
  where
    at : ((c == star) ≡ true) ⊎ ((c == star) ≡ false) → Matches p n → Matches (c ∷ p) (c ∷ n)
    at (inl e) m = absorb e (leave e m)
    at (inr e) m = byte e (ground arith) m

only_stars-Fits : (p : Bytes) → only_stars p ≡ true → Fits p []
unfolding only_stars
only_stars-Fits [] h = end
only_stars-Fits (a ∷ p) h =
    let same : a ≡ b'*' = ground arith in
    subst (λ x. Fits (x ∷ p) []) (sym same) (star_over (only_stars-Fits p (ground arith)))

-- What an item that is no class does with a byte
match_byte-cases :
    (a : ℕ) (p : Bytes) (c : ℕ) (rest : Bytes)
    → (a == b'[') ≡ false
    → match_byte (a ∷ p) c ≡ some rest
    → (rest ≡ p) × ((a ≡ b'?') ⊎ (a ≡ c))
unfolding match_byte
match_byte-cases a p c rest w o = at (Bool-cases (a == b'?')) (Bool-cases (a == c))
  where
    at :
        ((a == b'?') ≡ true) ⊎ ((a == b'?') ≡ false)
        → ((a == c) ≡ true) ⊎ ((a == c) ≡ false)
        → (rest ≡ p) × ((a ≡ b'?') ⊎ (a ≡ c))
    at (inl e) k = (ground arith, inl (ground arith))
    at (inr e) (inl k) = (ground arith, inr (ground arith))
    at (inr e) (inr k) = absurd (ground arith)

Matches-Fits : (p : Bytes) {n : Bytes} → Without b'[' p → Matches p n → Fits p n
unfolding match_byte
Matches-Fits p w (stars h) = only_stars-Fits p h
Matches-Fits [] w (byte e o m) = cc
Matches-Fits (a ∷ p) w (byte {rest} {n} {c} e o m) =
    let (same, which) = match_byte-cases a p c rest w.0 o in
    at which (Matches-Fits rest (subst (Without b'[') (sym same) w.1) m) same
  where
    at : (a ≡ b'?') ⊎ (a ≡ c) → Fits rest n → rest ≡ p → Fits (a ∷ p) (c ∷ n)
    at (inl q) f same =
        subst (λ x. Fits (x ∷ p) (c ∷ n)) (sym q) (any_byte (subst (λ r. Fits r n) same f))
    at (inr q) f same =
        subst (λ x. Fits (x ∷ p) (c ∷ n)) (sym q) (same_byte (subst (λ r. Fits r n) same f))
Matches-Fits [] w (leave e m) = cc
Matches-Fits (a ∷ p) {n} w (leave e m) =
    let q : a ≡ b'*' = ground arith in
    subst (λ x. Fits (x ∷ p) n) (sym q) (star_over (Matches-Fits p w.1 m))
Matches-Fits [] w (absorb e m) = cc
Matches-Fits (a ∷ p) w (absorb {n} {c} e m) =
    let q : a ≡ b'*' = ground arith in
    subst (λ x. Fits (x ∷ p) (c ∷ n)) (sym q)
      (star_takes (subst (λ x. Fits (x ∷ p) n) q (Matches-Fits (a ∷ p) w m)))

-- A path component fits a pattern without classes exactly where the pattern can be laid along it:
-- "*" over any run of bytes, "?" over any byte, and each other byte over itself. Going back to the
-- last star only misses no fit. This holds of the two texts as they are compared, whatever the case
-- folding does, provided that it leaves a lone star alone.
pub match_segment_iff :
    (lower : Bytes → Bytes) (pattern name : Bytes) (fold : Bool)
    → lower (star ∷ []) ≡ star ∷ []
    → Without b'[' (folded lower fold pattern)
    → (match_segment lower pattern name fold ≡ some true)
      ↔ Fits (folded lower fold pattern) (folded lower fold name)
match_segment_iff lower pattern name fold h w =
    let (to, from) = match_segment-Matches lower pattern name fold h in
    (λ q. Matches-Fits (folded lower fold pattern) w (to q), λ f. from (Fits-Matches f w))
