-- ===== src/Text.antt =====
-- Go's `strings` and `fmt` on byte strings, as far as the modelled code calls them.
pub mod Lemmas
pub mod Decimal
use Prim.Native.Nat.{Ordering}
use openbackup.Prelude.{
  ℕ, zero, suc, ◌+◌, ◌-◌, ◌/◌, ◌%◌, Bool, true, false, ◌&&◌, ◌||◌, Bytes, List, [], ◌∷◌, ◌++◌,
  Option, none, some, ltb, leb, ◌==◌, if◌then◌else◌,
}
use mathlib.Core.List.{reverse}

abbrev pub is_digit : ℕ → Bool
is_digit c = leb b'0' c && leb c b'9'

abbrev pub is_letter : ℕ → Bool
is_letter c = leb b'A' c && leb c b'Z' || leb b'a' c && leb c b'z'

-- The first part, with `c` put in front of it.
abbrev pub onto_head : ℕ → List Bytes → List Bytes
onto_head c [] = (c ∷ []) ∷ []
onto_head c (p ∷ ps) = (c ∷ p) ∷ ps

-- strings.Split with a separator of one byte
unfoldable pub split : ℕ → Bytes → List Bytes
split sep [] = [] ∷ []
split sep (c ∷ s) = let rest = split sep s in if c == sep then [] ∷ rest else onto_head c rest

-- strings.Join
unfoldable pub join : ℕ → List Bytes → Bytes
join sep [] = []
join sep (p ∷ []) = p
join sep (p ∷ q ∷ ps) = p ++ sep ∷ join sep (q ∷ ps)

abbrev pub push_first : ℕ → Option (Bytes × Bytes) → Option (Bytes × Bytes)
push_first c none = none
push_first c (some (a, b)) = some (c ∷ a, b)

-- i := strings.IndexByte(s, sep), as s[:i] and s[i+1:]
unfoldable pub cut : ℕ → Bytes → Option (Bytes × Bytes)
cut sep [] = none
cut sep (c ∷ s) = let rest = cut sep s in if c == sep then some ([], s) else push_first c rest

abbrev pub bytes_eq : Bytes → Bytes → Bool
bytes_eq [] [] = true
bytes_eq [] (d ∷ t) = false
bytes_eq (c ∷ s) [] = false
bytes_eq (c ∷ s) (d ∷ t) = c == d && bytes_eq s t

-- strings.Compare
unfoldable pub bytes_compare : Bytes → Bytes → Ordering
bytes_compare [] [] = Ordering.eq
bytes_compare [] (d ∷ t) = Ordering.lt
bytes_compare (c ∷ s) [] = Ordering.gt
bytes_compare (c ∷ s) (d ∷ t) =
    let rest = bytes_compare s t in
    if ltb c d then Ordering.lt else if ltb d c then Ordering.gt else rest

-- unicode.IsSpace, below 128
abbrev is_space : ℕ → Bool
is_space c = leb 9 c && leb c 13 || c == 32

-- unicode.IsSpace on the UTF-8 of two and of three bytes
abbrev is_space2 : ℕ → ℕ → Bool
is_space2 a b = a == 0xC2 && (b == 0x85 || b == 0xA0)

abbrev is_space3 : ℕ → ℕ → ℕ → Bool
is_space3 a b c =
    a == 0xE1 && b == 0x9A && c == 0x80
    || a == 0xE2 && b == 0x80 && (leb 0x80 c && leb c 0x8A || c == 0xA8 || c == 0xA9 || c == 0xAF)
    || a == 0xE2 && b == 0x81 && c == 0x9F
    || a == 0xE3 && b == 0x80 && c == 0x80

-- What is left behind the white space in front; `flip` reads each character backwards.
trim_front : Bool → Bytes → Bytes
trim_front flip [] = []
trim_front flip (a ∷ []) = if is_space a then [] else a ∷ []
trim_front flip (a ∷ b ∷ []) = elim (is_space a) [
  | true ↦ trim_front flip (b ∷ [])
  | false ↦ if (if flip then is_space2 b a else is_space2 a b) then [] else a ∷ b ∷ []
]
trim_front flip (a ∷ b ∷ c ∷ s) = elim (is_space a) [
  | true ↦ trim_front flip (b ∷ c ∷ s)
  | false ↦ elim (if flip then is_space2 b a else is_space2 a b) [
    | true ↦ trim_front flip (c ∷ s)
    | false ↦ elim (if flip then is_space3 c b a else is_space3 a b c) [
      | true ↦ trim_front flip s
      | false ↦ a ∷ b ∷ c ∷ s
    ]
  ]
]

-- strings.TrimSpace
unfoldable pub trim_space : Bytes → Bytes
unfolding trim_front
trim_space s = reverse (trim_front true (reverse (trim_front false s)))
