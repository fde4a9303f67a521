-- ===== src/Version/RoundTrip/Numbers.antt =====
-- internal/version/semver.go, `parseNumeric` and the identifiers: what is read and what is accepted.
use openbackup.Prelude.{
  ℕ, zero, suc, ◌+◌, ◌-◌, ◌*◌, ◌%◌, ◌<◌, ◌≡◌, ◌⊎◌, refl, ap, ◌∙◌, Bool, true, false, Bytes, [], ◌∷◌,
  arith, is_empty, length, All, All-imp,
}
use openbackup.Prelude.Result.{ok}
use openbackup.Text.{is_digit}
use openbackup.Text.Decimal.{
  decimal, decimal-IsDigit, decimal-pos, decimal-starts, decimal-zero, value, value_from,
  value-decimal, starts_with_zero,
}
use openbackup.Text.Lemmas.{Without, IsGraphic}
use openbackup.Version.{
  SemVer, u64, i64_half, numeric_loop, parse_numeric, is_ident_char, all_chars, validate_pre_ident,
  all_parts, validate_build,
}

-- Digits are read modulo 2 ^ 64.
pub numeric_loop-value :
    (s : Bytes) (n m : ℕ)
    → All (λ c. is_digit c ≡ true) s
    → n ≡ m % u64
    → numeric_loop n s ≡ ok (value_from m s % u64)
unfolding numeric_loop
numeric_loop-value [] n m h e = ap ok e
numeric_loop-value (c ∷ s) n m (h, hs) e =
    rw h (numeric_loop-value s ((n * 10 + (c - b'0')) % u64) (m * 10 + (c - b'0')) hs (omega arith))

-- A digit string with no zero in front is read modulo 2 ^ 64: a number that does not fit an `int`
-- wraps around and is accepted.
pub parse_numeric-wraps :
    (s : Bytes)
    → 0 < length s
    → All (λ c. is_digit c ≡ true) s
    → starts_with_zero s ≡ false
    → parse_numeric s ≡ ok (value s % u64)
unfolding parse_numeric value
parse_numeric-wraps [] h k z = absurd (omega arith)
parse_numeric-wraps (c ∷ s) h k z = ground (arith, numeric_loop-value (c ∷ s) 0 0 k)

pub parse_numeric-decimal : (n : ℕ) → n < u64 → parse_numeric (decimal n) ≡ ok n
parse_numeric-decimal zero h = rw decimal-zero (unfold parse_numeric numeric_loop in refl)
parse_numeric-decimal (suc n) h =
    parse_numeric-wraps (decimal (suc n)) (decimal-pos (suc n)) (decimal-IsDigit (suc n))
      (decimal-starts (suc n) (omega arith) (omega arith))
    ∙ ap ok (rw (value-decimal (suc n) (omega arith)) (omega arith))

pub is_empty_of_pos : (s : Bytes) → 0 < length s → is_empty s ≡ false
is_empty_of_pos [] h = absurd (omega arith)
is_empty_of_pos (c ∷ s) h = refl

pub all_chars-All : (p : ℕ → Bool) (s : Bytes) → all_chars p s ≡ true → All (λ c. p c ≡ true) s
all_chars-All p [] h = tt
all_chars-All p (c ∷ s) h = (ground arith, all_chars-All p s (ground arith))

-- A version that `Parse` can have returned: no component is negative, and the identifiers are valid.
pub record IsCanonical (v : SemVer) : Type 0 where
  pub major_fits : v.major < i64_half
  pub minor_fits : v.minor < i64_half
  pub patch_fits : v.patch < i64_half
  pub pre_valid : all_parts validate_pre_ident v.pre ≡ true
  pub build_valid : (v.build ≡ []) ⊎ (validate_build v.build ≡ true)

abbrev pub OfDigits : Bytes → Type 0
OfDigits s = All (λ c. is_digit c ≡ true) s

-- The bytes of an identifier
abbrev pub OfIdents : Bytes → Type 0
OfIdents s = All (λ c. is_ident_char c ≡ true) s

pub OfDigits-Without : (sep : ℕ) (s : Bytes) → is_digit sep ≡ false → OfDigits s → Without sep s
OfDigits-Without sep s h = All-imp _ _ s (λ c k. ground arith)

pub OfIdents-Without :
    (sep : ℕ) (s : Bytes) → is_ident_char sep ≡ false → OfIdents s → Without sep s
OfIdents-Without sep s h = All-imp _ _ s (λ c k. ground arith)

pub OfIdents-IsGraphic : (s : Bytes) → OfIdents s → All IsGraphic s
OfIdents-IsGraphic s = All-imp _ _ s (λ c k. ground arith)

pub OfDigits-OfIdents : (s : Bytes) → OfDigits s → OfIdents s
OfDigits-OfIdents s = All-imp _ _ s (λ c k. ground arith)

pub validate_pre_ident-lem : (s : Bytes) → validate_pre_ident s ≡ true → (0 < length s) × OfIdents s
unfolding validate_pre_ident
validate_pre_ident-lem s h = (pos s h, all_chars-All is_ident_char s (ground arith))
  where
    pos : (s : Bytes) → validate_pre_ident s ≡ true → 0 < length s
    pos [] h = cc
    pos (c ∷ s) h = omega arith
