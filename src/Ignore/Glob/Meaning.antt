-- ===== src/Ignore/Glob/Meaning.antt =====
-- internal/ignore/pattern.go, `matchSegment`: what it means that a pattern fits a path component,
-- with no order of search and no backtracking.
use openbackup.Prelude.{
  ℕ, ◌≡◌, ◌∙◌, refl, sym, subst, Bool, true, false, ◌&&◌, ◌||◌, Bytes, [], ◌∷◌, Option, none, some,
  arith, ◌==◌, leb,
}
use openbackup.Ignore.Glob.{
  class_loop, accept_class, match_class, match_byte, starts_with_star, tail, only_stars,
}

-- A star stands for any run of bytes. Each other item stands for one byte.
pub data Matches : Bytes → Bytes → Type 0 where
  stars : {p : Bytes} → only_stars p ≡ true → Matches p []
  byte :
      {p rest n : Bytes} {c : ℕ}
      → starts_with_star p ≡ false
      → match_byte p c ≡ some rest
      → Matches rest n
      → Matches p (c ∷ n)
  leave : {p n : Bytes} → starts_with_star p ≡ true → Matches (tail p) n → Matches p n
  absorb : {p n : Bytes} {c : ℕ} → starts_with_star p ≡ true → Matches p n → Matches p (c ∷ n)

-- The pattern fits some rest of the name.
pub data Somewhere (p : Bytes) : Bytes → Type 0 where
  here : {n : Bytes} → Matches p n → Somewhere p n
  later : {n : Bytes} {c : ℕ} → Somewhere p n → Somewhere p (c ∷ n)

differ : {b : Bool} → b ≡ true → b ≡ false → ⊥
differ e f = cc

only_stars-tail : (p : Bytes) → starts_with_star p ≡ true → only_stars p ≡ only_stars (tail p)
unfolding only_stars
only_stars-tail [] e = refl
only_stars-tail (a ∷ p) e = rw e

only_stars-starts : (p : Bytes) → only_stars p ≡ true → starts_with_star p ≡ false → p ≡ []
unfolding only_stars
only_stars-starts [] h e = refl
only_stars-starts (a ∷ p) h e = ground arith

pub Matches-nil : (p : Bytes) → Matches p [] → only_stars p ≡ true
Matches-nil p (stars h) = h
Matches-nil p (leave e d) = only_stars-tail p e ∙ Matches-nil (tail p) d

-- A starred pattern fits where the rest of it fits somewhere.
pub Somewhere-star : {p n : Bytes} → starts_with_star p ≡ true → Somewhere (tail p) n → Matches p n
Somewhere-star e (here d) = leave e d
Somewhere-star e (later s) = absorb e (Somewhere-star e s)

pub star-Somewhere : {p n : Bytes} → starts_with_star p ≡ true → Matches p n → Somewhere (tail p) n
star-Somewhere {p} e (stars h) = here (stars (sym (only_stars-tail p e) ∙ h))
star-Somewhere e (byte f o d) = absurd (differ e f)
star-Somewhere e (leave e' d) = here d
star-Somewhere e (absorb e' d) = later (star-Somewhere e d)

pub Somewhere-flat :
    {p n : Bytes} → starts_with_star p ≡ true → Somewhere p n → Somewhere (tail p) n
Somewhere-flat e (here d) = star-Somewhere e d
Somewhere-flat e (later s) = later (Somewhere-flat e s)

-- Where a class ends does not depend on the byte that it is asked about.
class_loop-end :
    (first m m' : Bool) (c c' : ℕ) (s : Bytes) (b b' : Bool) (r r' : Bytes)
    → class_loop first m c s ≡ some (b, r)
    → class_loop first m' c' s ≡ some (b', r')
    → r ≡ r'
unfolding class_loop
class_loop-end first m m' c c' [] b b' r r' h k = cc
class_loop-end first m m' c c' (a ∷ []) b b' r r' h k = ground arith
class_loop-end first m m' c c' (a ∷ x ∷ []) b b' r r' h k =
    ground (arith, class_loop-end false (m || a == c) (m' || a == c') c c' (x ∷ []) b b' r r')
class_loop-end first m m' c c' (a ∷ x ∷ d ∷ s) b b' r r' h k = ground (
  arith,
  class_loop-end false (m || a == c) (m' || a == c') c c' (x ∷ d ∷ s) b b' r r',
  class_loop-end false (m || leb a c && leb c d) (m' || leb a c' && leb c' d) c c' s b b' r r',
)

accept_class-end :
    (negate : Bool) (o o' : Option (Bool × Bytes)) (r r' : Bytes)
    → ((b b' : Bool) (t t' : Bytes) → o ≡ some (b, t) → o' ≡ some (b', t') → t ≡ t')
    → accept_class negate o ≡ some r
    → accept_class negate o' ≡ some r'
    → r ≡ r'
accept_class-end negate none o' r r' f h k = cc
accept_class-end negate (some (b, t)) none r r' f h k = cc
accept_class-end negate (some (b, t)) (some (b', t')) r r' f h k =
    let same = f b b' t t' refl refl in ground arith

match_byte-end :
    (p : Bytes) (c c' : ℕ) (r r' : Bytes)
    → match_byte p c ≡ some r
    → match_byte p c' ≡ some r'
    → r ≡ r'
unfolding match_byte match_class
match_byte-end [] c c' r r' h k = cc
match_byte-end (a ∷ []) c c' r r' h k = ground arith
match_byte-end (a ∷ x ∷ s) c c' r r' h k = ground (
  arith,
  accept_class-end true (class_loop true false c s) (class_loop true false c' s) r r'
      (λ b b' t t'. class_loop-end true false false c c' s b b' t t'),
  accept_class-end false (class_loop true false c (x ∷ s)) (class_loop true false c' (x ∷ s)) r r'
      (λ b b' t t'. class_loop-end true false false c c' (x ∷ s) b b' t t'),
)

-- `x` is any byte that the first item accepts: the rest of the pattern does not depend on it.
pub Matches-byte :
    {p n rest : Bytes} {c : ℕ} (x : ℕ)
    → starts_with_star p ≡ false
    → match_byte p x ≡ some rest
    → Matches p (c ∷ n)
    → Matches rest n
Matches-byte {n} {rest} x e o (byte {rest = rest'} e' o' d) =
    let q : rest' ≡ rest = match_byte-end _ _ _ _ _ o' o in subst (λ r. Matches r n) q d
Matches-byte x e o (leave e' d) = absurd (differ e' e)
Matches-byte x e o (absorb e' d) = absurd (differ e' e)

not-match_nil : {p rest : Bytes} (x : ℕ) → p ≡ [] → ¬ (match_byte p x ≡ some rest)
unfolding match_byte
not-match_nil {rest} x e o =
    let o' : match_byte [] x ≡ some rest = subst (λ p. match_byte p x ≡ some rest) e o in cc

-- Why a star that is given up need not be tried again: a fit that begins later loses only its
-- first item.
pub Somewhere-byte :
    {p rest : Bytes} {c : ℕ} (x : ℕ) (n : Bytes)
    → starts_with_star p ≡ false
    → match_byte p x ≡ some rest
    → Somewhere p (c ∷ n)
    → Somewhere rest n
Somewhere-byte x n e o (here d) = here (Matches-byte x e o d)
Somewhere-byte x [] e o (later (here d)) =
    absurd (not-match_nil x (only_stars-starts _ (Matches-nil _ d) e) o)
Somewhere-byte x (y ∷ n) e o (later s) = later (Somewhere-byte x n e o s)
