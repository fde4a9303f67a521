-- ===== src/Codec/Base32.antt =====
-- encoding/base32: `StdEncoding` without padding, as internal/codec/key.go calls it.
use openbackup.Prelude.{
  ℕ, ◌+◌, ◌-◌, ◌*◌, ◌/◌, ◌%◌, ◌<◌, ◌≡◌, refl, ap, ◌∙◌, ◌&&◌, Bytes, [], ◌∷◌, Option, none, some,
  arith, ltb, leb, if◌then◌else◌, All,
}

-- The alphabet: A to Z, then 2 to 7
abbrev pub char_of : ℕ → ℕ
char_of v = if ltb v 26 then v + 65 else v + 24

abbrev pub value_of : ℕ → Option ℕ
value_of c =
    if leb b'A' c && leb c b'Z'
    then some (c - 65)
    else if leb b'2' c && leb c b'7'
    then some (c - 24)
    else none

-- Eight values of five bits for five bytes; what is left at the end is filled up with zeros.
unfoldable pub values : Bytes → Bytes
values [] = []
values (a ∷ []) = a / 8 ∷ a % 8 * 4 ∷ []
values (a ∷ b ∷ []) = a / 8 ∷ (a % 8 * 4 + b / 64) ∷ b / 2 % 32 ∷ b % 2 * 16 ∷ []
values (a ∷ b ∷ c ∷ []) =
    a / 8 ∷ (a % 8 * 4 + b / 64) ∷ b / 2 % 32 ∷ (b % 2 * 16 + c / 16) ∷ c % 16 * 2 ∷ []
values (a ∷ b ∷ c ∷ d ∷ []) =
    a / 8
    ∷ (a % 8 * 4 + b / 64)
    ∷ b / 2 % 32
    ∷ (b % 2 * 16 + c / 16)
    ∷ (c % 16 * 2 + d / 128)
    ∷ d / 4 % 32
    ∷ d % 4 * 8
    ∷ []
values (a ∷ b ∷ c ∷ d ∷ e ∷ s) =
    a / 8
    ∷ (a % 8 * 4 + b / 64)
    ∷ b / 2 % 32
    ∷ (b % 2 * 16 + c / 16)
    ∷ (c % 16 * 2 + d / 128)
    ∷ d / 4 % 32
    ∷ (d % 4 * 8 + e / 32)
    ∷ e % 32
    ∷ values s

abbrev byte0 : ℕ → ℕ → ℕ
byte0 p q = (p * 8 + q / 4) % 256

abbrev byte1 : ℕ → ℕ → ℕ → ℕ
byte1 q r s = (q * 64 + r * 2 + s / 16) % 256

abbrev byte2 : ℕ → ℕ → ℕ
byte2 s t = (s * 16 + t / 2) % 256

abbrev byte3 : ℕ → ℕ → ℕ → ℕ
byte3 t u v = (t * 128 + u * 4 + v / 8) % 256

abbrev byte4 : ℕ → ℕ → ℕ
byte4 v w = (v * 32 + w) % 256

-- Back to bytes. One, three and six values at the end give no byte more than fewer do.
unfoldable pub pack : Bytes → Bytes
pack [] = []
pack (p ∷ []) = []
pack (p ∷ q ∷ []) = byte0 p q ∷ []
pack (p ∷ q ∷ r ∷ []) = []
pack (p ∷ q ∷ r ∷ s ∷ []) = byte0 p q ∷ byte1 q r s ∷ []
pack (p ∷ q ∷ r ∷ s ∷ t ∷ []) = byte0 p q ∷ byte1 q r s ∷ byte2 s t ∷ []
pack (p ∷ q ∷ r ∷ s ∷ t ∷ u ∷ []) = []
pack (p ∷ q ∷ r ∷ s ∷ t ∷ u ∷ v ∷ []) = byte0 p q ∷ byte1 q r s ∷ byte2 s t ∷ byte3 t u v ∷ []
pack (p ∷ q ∷ r ∷ s ∷ t ∷ u ∷ v ∷ w ∷ more) =
    byte0 p q ∷ byte1 q r s ∷ byte2 s t ∷ byte3 t u v ∷ byte4 v w ∷ pack more

unfoldable pub encode_chars : Bytes → Bytes
encode_chars [] = []
encode_chars (v ∷ vs) = char_of v ∷ encode_chars vs

abbrev pub onto : ℕ → Option Bytes → Option Bytes
onto v none = none
onto v (some vs) = some (v ∷ vs)

-- A byte outside the alphabet is an error.
unfoldable pub decode_chars : Bytes → Option Bytes
decode_chars [] = some []
decode_chars (c ∷ s) =
    let rest = decode_chars s in elim (value_of c) [ none ↦ none | some v ↦ onto v rest ]

unfoldable pub encode32 : Bytes → Bytes
unfolding values encode_chars
encode32 s = encode_chars (values s)

abbrev pub packed : Option Bytes → Option Bytes
packed none = none
packed (some vs) = some (pack vs)

unfoldable pub decode32 : Bytes → Option Bytes
unfolding pack decode_chars
decode32 s = packed (decode_chars s)

abbrev pub IsByte : ℕ → Type 0
IsByte b = b < 256

value_of-char_of : (v : ℕ) → v < 32 → value_of (char_of v) ≡ some v
value_of-char_of v h = ground arith

decode_chars-encode_chars :
    (vs : Bytes) → All (λ v. v < 32) vs → decode_chars (encode_chars vs) ≡ some vs
unfolding decode_chars encode_chars
decode_chars-encode_chars [] h = refl
decode_chars-encode_chars (v ∷ vs) (h, hs) =
    rw (value_of-char_of v h, decode_chars) (rw (decode_chars-encode_chars vs hs) refl)

pub values-small : (s : Bytes) → All IsByte s → All (λ v. v < 32) (values s)
unfolding values
values-small [] h = tt
values-small (a ∷ []) h = omega arith
values-small (a ∷ b ∷ []) h = omega arith
values-small (a ∷ b ∷ c ∷ []) h = omega arith
values-small (a ∷ b ∷ c ∷ d ∷ []) h = omega arith
values-small (a ∷ b ∷ c ∷ d ∷ e ∷ s) (ha, (hb, (hc, (hd, (he, hs))))) = (
  omega arith,
  (
    omega arith,
    (
      omega arith,
      (omega arith, (omega arith, (omega arith, (omega arith, (omega arith, values-small s hs))))),
    ),
  ),
)

pack-values : (s : Bytes) → All IsByte s → pack (values s) ≡ s
unfolding pack values
pack-values [] h = refl
pack-values (a ∷ []) h = ground arith
pack-values (a ∷ b ∷ []) h = ground arith
pack-values (a ∷ b ∷ c ∷ []) h = ground arith
pack-values (a ∷ b ∷ c ∷ d ∷ []) h = ground arith
pack-values (a ∷ b ∷ c ∷ d ∷ e ∷ s) (ha, (hb, (hc, (hd, (he, hs))))) =
    ground (arith, pack-values s hs)

pub decode32-encode32 : (s : Bytes) → All IsByte s → decode32 (encode32 s) ≡ some s
unfolding decode32 encode32
decode32-encode32 s h =
    ap packed (decode_chars-encode_chars (values s) (values-small s h))
    ∙ ap (λ t. some t) (pack-values s h)
