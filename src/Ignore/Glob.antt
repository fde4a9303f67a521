-- ===== src/Ignore/Glob.antt =====
-- internal/ignore/pattern.go: `matchSegment` and `matchClass`. An index into the pattern or the
-- name is the suffix behind it.
pub mod Fuel
pub mod Meaning
pub mod Greedy
pub mod Plain
use openbackup.Prelude.{
  ℕ, zero, suc, ◌*◌, ◌+◌, Bool, true, false, not, ◌&&◌, ◌||◌, Bytes, [], ◌∷◌, Option, none, some,
  ltb, leb, ◌==◌, if◌then◌else◌, is_empty, length,
}
use openbackup.Text.{bytes_eq}

abbrev pub star : ℕ
star = b'*'

abbrev pub xor : Bool → Bool → Bool
xor true b = not b
xor false b = b

-- The loop of `matchClass`, from `[`'s next byte or the one behind the negation: whether the byte
-- is listed, and the pattern behind the closing bracket. No closing bracket is no class.
unfoldable pub class_loop : Bool → Bool → ℕ → Bytes → Option (Bool × Bytes)
class_loop first matched c [] = none
class_loop first matched c (a ∷ []) = if a == b']' && not first then some (matched, []) else none
class_loop first matched c (a ∷ b ∷ []) = elim (a == b']' && not first) [
  | true ↦ some (matched, b ∷ [])
  | false ↦ class_loop false (matched || a == c) c (b ∷ [])
]
class_loop first matched c (a ∷ b ∷ d ∷ s) = elim (a == b']' && not first) [
  | true ↦ some (matched, b ∷ d ∷ s)
  | false ↦ elim (b == b'-' && not (d == b']')) [
    | true ↦ class_loop false (matched || leb a c && leb c d) c s
    | false ↦ class_loop false (matched || a == c) c (b ∷ d ∷ s)
  ]
]

abbrev pub accept_class : Bool → Option (Bool × Bytes) → Option Bytes
accept_class negate none = none
accept_class negate (some (matched, rest)) = if xor matched negate then some rest else none

-- `pattern` is behind the `[`; an answer is the pattern behind the class, where the byte is in it.
unfoldable pub match_class : Bytes → ℕ → Option Bytes
match_class [] c = none
match_class (a ∷ s) c =
    if a == b'^' || a == b'!'
    then accept_class true (class_loop true false c s)
    else accept_class false (class_loop true false c (a ∷ s))

-- What one byte of the name does with the pattern: the pattern that goes on, or a mismatch.
unfoldable pub match_byte : Bytes → ℕ → Option Bytes
match_byte [] c = none
match_byte (a ∷ s) c =
    if a == b'?'
    then some s
    else if a == b'['
    then match_class s c
    else if a == c
    then some s
    else none

abbrev pub starts_with_star : Bytes → Bool
starts_with_star [] = false
starts_with_star (a ∷ s) = a == star

abbrev pub tail : Bytes → Bytes
tail [] = []
tail (a ∷ s) = s

-- The loop at the end that passes stars
unfoldable pub only_stars : Bytes → Bool
only_stars [] = true
only_stars (a ∷ s) = a == star && only_stars s

-- The last star: the pattern behind it, and the name from which that is tried.
pub record Mark : Type 0 where
  pub pattern : Bytes
  pub name : Bytes

-- The main loop. No answer means that the fuel is used up.
unfoldable pub segment_loop : ℕ → Bytes → Bytes → Option Mark → Option Bool
segment_loop zero p n mark = none
segment_loop (suc fuel) p [] mark = some (only_stars p)
segment_loop (suc fuel) p (c ∷ n) mark = elim (starts_with_star p) [
  | true ↦ segment_loop fuel (tail p) (c ∷ n) (some (record { pattern = tail p; name = c ∷ n }))
  | false ↦ elim (match_byte p c) [
    | some rest ↦ segment_loop fuel rest n mark
    | none ↦ elim mark [
      | none ↦ some false
      | some m ↦
          segment_loop fuel m.pattern (tail m.name)
            (some (record { pattern = m.pattern; name = tail m.name }))
    ]
  ]
]

abbrev pub fuel_for : Bytes → Bytes → ℕ
fuel_for pattern name = suc (suc (length name) * suc (length pattern) + length pattern)

unfoldable pub match_segment : (Bytes → Bytes) → Bytes → Bytes → Bool → Option Bool
match_segment lower pattern name fold =
    if bytes_eq pattern (star ∷ [])
    then some true
    else let p = if fold then lower pattern else pattern in
      let n = if fold then lower name else name in segment_loop (fuel_for p n) p n none

-- The answer, which is always there
abbrev pub answer : Option Bool → Bool
answer none = false
answer (some b) = b

unfoldable pub segment_matches : (Bytes → Bytes) → Bytes → Bytes → Bool → Bool
segment_matches lower pattern name fold = answer (match_segment lower pattern name fold)
