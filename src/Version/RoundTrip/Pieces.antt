-- ===== src/Version/RoundTrip/Pieces.antt =====
-- internal/version/semver.go: the parts of a printed version, each read back.
use openbackup.Prelude.{
  ℕ, ◌<◌, ◌≡◌, ◌⊎◌, inl, inr, refl, true, false, ◌||◌, Bytes, List, [], ◌∷◌, ◌++◌, arith, ltb, ◌==◌,
  if◌then◌else◌, is_empty, length, All, All-append, All-imp, append-nil, length-append,
}
use openbackup.Prelude.Result.{ok}
use openbackup.Text.{is_digit, split, join}
use openbackup.Text.Decimal.{decimal, decimal-IsDigit, decimal-pos}
use openbackup.Text.Lemmas.{
  Without, All-split, split-Without, split-append, split-join, cut-Without, cut-append, IsGraphic,
}
use openbackup.Version.{
  SemVer, u64, i64_half, is_ident_char, validate_pre_ident, all_parts, build_part, validate_build,
  drop_v, take_build, take_pre, parse_nums, pre_parts, print_int, product,
}
use openbackup.Version.RoundTrip.Numbers.{
  parse_numeric-decimal, is_empty_of_pos, all_chars-All, IsCanonical, OfDigits, OfIdents,
  OfDigits-Without, OfIdents-Without, OfIdents-IsGraphic, validate_pre_ident-lem,
}

pub pre-OfIdents : (ps : List Bytes) → all_parts validate_pre_ident ps ≡ true → All OfIdents ps
pre-OfIdents [] h = tt
pre-OfIdents (p ∷ ps) h =
    ((validate_pre_ident-lem p (ground arith)).1, pre-OfIdents ps (ground arith))

pub join-IsGraphic : (ps : List Bytes) → All OfIdents ps → All IsGraphic (join b'.' ps)
unfolding join
join-IsGraphic [] h = tt
join-IsGraphic (p ∷ []) (h, _) = OfIdents-IsGraphic p h
join-IsGraphic (p ∷ q ∷ ps) (h, hs) =
    All-append IsGraphic p (b'.' ∷ join b'.' (q ∷ ps)) (OfIdents-IsGraphic p h)
      (omega arith, join-IsGraphic (q ∷ ps) hs)

pub join-Without :
    (sep : ℕ) (ps : List Bytes)
    → is_ident_char sep ≡ false
    → (sep == b'.') ≡ false
    → All OfIdents ps
    → Without sep (join b'.' ps)
unfolding join
join-Without sep [] h k hs = tt
join-Without sep (p ∷ []) h k (hp, _) = OfIdents-Without sep p h hp
join-Without sep (p ∷ q ∷ ps) h k (hp, hs) =
    All-append (λ c. (c == sep) ≡ false) p (b'.' ∷ join b'.' (q ∷ ps)) (OfIdents-Without sep p h hp)
      (ground arith, join-Without sep (q ∷ ps) h k hs)

pub build-IsGraphic : (s : Bytes) → validate_build s ≡ true → All IsGraphic s
unfolding validate_build
build-IsGraphic s h = All-split IsGraphic b'.' s (omega arith) (parts (split b'.' s) (ground arith))
  where
    parts : (ps : List Bytes) → all_parts build_part ps ≡ true → All (All IsGraphic) ps
    parts [] h = tt
    parts (p ∷ ps) h = (
      OfIdents-IsGraphic p (all_chars-All is_ident_char p (ground arith)),
      parts ps (ground arith),
    )

-- The suffixes of `String`.
abbrev pub pre_suffix : List Bytes → Bytes
pre_suffix ps = if is_empty ps then [] else b'-' ∷ join b'.' ps

abbrev pub build_suffix : Bytes → Bytes
build_suffix b = if is_empty b then [] else b'+' ∷ b

pub take_build-suffix :
    (front b : Bytes)
    → Without b'+' front
    → (b ≡ []) ⊎ (validate_build b ≡ true)
    → take_build (front ++ build_suffix b) ≡ ok (front, b)
unfolding take_build
take_build-suffix front [] h v = rw append-nil (rw (cut-Without b'+' front h, take_build))
take_build-suffix front (c ∷ b) h (inl e) = cc
take_build-suffix front (c ∷ b) h (inr v) = rw (cut-append b'+' front (c ∷ b) h, take_build) (rw v)

pub join-pos : (p : Bytes) (ps : List Bytes) → 0 < length p → 0 < length (join b'.' (p ∷ ps))
unfolding join
join-pos p [] h = h
join-pos p (q ∷ ps) h = omega (arith, length-append p (b'.' ∷ join b'.' (q ∷ ps)))

pub take_pre-suffix :
    (core : Bytes) (ps : List Bytes)
    → Without b'-' core
    → all_parts validate_pre_ident ps ≡ true
    → take_pre (core ++ pre_suffix ps) ≡ ok (core, join b'.' ps)
unfolding take_pre
take_pre-suffix core [] h v =
    rw append-nil (rw (cut-Without b'-' core h, take_pre) (unfold join in refl))
take_pre-suffix core (p ∷ ps) h v =
    let (pos, _) = validate_pre_ident-lem p (ground arith) in
    let some_bytes : is_empty (join b'.' (p ∷ ps)) ≡ false =
      is_empty_of_pos (join b'.' (p ∷ ps)) (join-pos p ps pos) in
    rw (cut-append b'-' core (join b'.' (p ∷ ps)) h, take_pre) (rw some_bytes)

pub pre_parts-join :
    (ps : List Bytes) → all_parts validate_pre_ident ps ≡ true → pre_parts (join b'.' ps) ≡ ok ps
unfolding pre_parts
pre_parts-join [] v = unfold join in refl
pre_parts-join (p ∷ ps) v =
    let (pos, _) = validate_pre_ident-lem p (ground arith) in
    let some_bytes : is_empty (join b'.' (p ∷ ps)) ≡ false =
      is_empty_of_pos (join b'.' (p ∷ ps)) (join-pos p ps pos) in
    rw some_bytes (rw (split-join b'.' p ps (dotless (p ∷ ps) (pre-OfIdents (p ∷ ps) v))) (rw v))
  where
    dotless : (qs : List Bytes) → All OfIdents qs → All (Without b'.') qs
    dotless qs = All-imp _ _ qs (λ q. OfIdents-Without b'.' q refl)

-- MAJOR.MINOR.PATCH
abbrev pub dotted : ℕ → ℕ → ℕ → Bytes
dotted a b c = decimal a ++ b'.' ∷ (decimal b ++ b'.' ∷ decimal c)

pub dotted-All :
    (P : ℕ → Type 0) (a b c : ℕ)
    → ((d : ℕ) → is_digit d ≡ true → P d)
    → P b'.'
    → All P (dotted a b c)
dotted-All P a b c h dot =
    All-append P (decimal a) _ (digits a)
      (dot, All-append P (decimal b) _ (digits b) (dot, digits c))
  where
    digits : (n : ℕ) → All P (decimal n)
    digits n = All-imp _ P (decimal n) h (decimal-IsDigit n)

pub parse_nums-dotted :
    (a b c : ℕ)
    → a < u64
    → b < u64
    → c < u64
    → parse_nums (split b'.' (dotted a b c)) ≡ ok (a, b, c)
unfolding parse_nums
parse_nums-dotted a b c ha hb hc =
    rw (split-append b'.' (decimal a) (decimal b ++ b'.' ∷ decimal c) (dotless a)) (
      rw (split-append b'.' (decimal b) (decimal c) (dotless b)) (
        rw (split-Without b'.' (decimal c) (dotless c)) (
          rw (parse_numeric-decimal a ha)
            (rw (parse_numeric-decimal b hb) (rw (parse_numeric-decimal c hc))))))
  where
    dotless : (n : ℕ) → Without b'.' (decimal n)
    dotless n = OfDigits-Without b'.' (decimal n) refl (decimal-IsDigit n)

pub print_int-decimal : (n : ℕ) → n < i64_half → print_int n ≡ decimal n
unfolding print_int
print_int-decimal n h = let e : ltb n i64_half ≡ true = ground arith in rw e

pub product-dotted : (v : SemVer) → IsCanonical v → product v ≡ dotted v.major v.minor v.patch
unfolding product
product-dotted v h =
    rw (print_int-decimal v.major h.major_fits)
      (rw (print_int-decimal v.minor h.minor_fits) (rw (print_int-decimal v.patch h.patch_fits)))

-- Text that begins with a digit is not empty, and has no v to drop.
pub dotted-head :
    (a b c : ℕ) (rest : Bytes)
    → (drop_v (dotted a b c ++ rest) ≡ dotted a b c ++ rest)
      × (is_empty (dotted a b c ++ rest) ≡ false)
unfolding drop_v
dotted-head a b c rest = go (decimal a) (decimal-pos a) (decimal-IsDigit a)
  where
    go :
        (s : Bytes)
        → 0 < length s
        → OfDigits s
        → (drop_v ((s ++ b'.' ∷ (decimal b ++ b'.' ∷ decimal c)) ++ rest)
            ≡ (s ++ b'.' ∷ (decimal b ++ b'.' ∷ decimal c)) ++ rest)
          × (is_empty ((s ++ b'.' ∷ (decimal b ++ b'.' ∷ decimal c)) ++ rest) ≡ false)
    go [] h d = absurd (omega arith)
    go (x ∷ s) h (d, _) =
        let not_v : (x == b'v' || x == b'V') ≡ false = ground arith in (rw not_v, refl)
