-- ===== src/Version/RoundTrip.antt =====
-- internal/version/semver.go: `Parse` after `String`.
pub mod Numbers
pub mod Pieces
use openbackup.Prelude.{
  ℕ, zero, suc, ◌+◌, ◌-◌, ◌*◌, ◌%◌, ◌^◌, ◌≤◌, ◌<◌, ◌≡◌, ◌≢◌, ◌⊎◌, inl, inr, refl, sym, subst, ap,
  ◌∙◌, Bool, true, false, ◌&&◌, ◌||◌, not, Bytes, List, [], ◌∷◌, ◌++◌, Option, none, some, arith,
  ltb, leb, ◌==◌, if◌then◌else◌, is_empty, length, All, All-append, All-imp, append-nil,
  append_assoc, length-append,
}
use openbackup.Prelude.Result.{Result, ok, err, ◌>>=◌}
use openbackup.Text.{is_digit, split, join, cut, trim_space}
use openbackup.Text.Decimal.{
  decimal, decimal-IsDigit, decimal-pos, decimal-starts, decimal-zero, value, value_from,
  value-decimal, starts_with_zero,
}
use openbackup.Text.Lemmas.{
  Without, All-split, split-Without, split-append, split-join, cut-Without, cut-append, IsGraphic,
  trim_space-IsGraphic,
}
use openbackup.Version.{
  SemVer, VersionError, u64, i64_half, numeric_loop, parse_numeric, is_ident_char, all_chars,
  validate_pre_ident, all_parts, build_part, validate_build, drop_v, take_build, take_pre,
  parse_nums, pre_parts, parse_bare, parse, print_int, product, to_string, tag,
}
use openbackup.Version.RoundTrip.Numbers.{
  numeric_loop-value, parse_numeric-wraps, parse_numeric-decimal, is_empty_of_pos, all_chars-All,
  IsCanonical, OfDigits, OfIdents, OfDigits-Without, OfIdents-Without, OfIdents-IsGraphic,
  OfDigits-OfIdents, validate_pre_ident-lem,
}
use openbackup.Version.RoundTrip.Pieces.{
  pre-OfIdents, join-IsGraphic, join-Without, build-IsGraphic, pre_suffix, build_suffix,
  take_build-suffix, join-pos, take_pre-suffix, pre_parts-join, dotted, dotted-All,
  parse_nums-dotted, print_int-decimal, product-dotted, dotted-head,
}

module _ (v : SemVer) (h : IsCanonical v) where
  abbrev core : Bytes
  core = dotted v.major v.minor v.patch

  core-Without : (sep : ℕ) → is_digit sep ≡ false → (b'.' == sep) ≡ false → Without sep core
  core-Without sep k dot =
      dotted-All (λ c. (c == sep) ≡ false) v.major v.minor v.patch (λ d e. ground arith) dot

  to_string-lem : to_string v ≡ (core ++ pre_suffix v.pre) ++ build_suffix v.build
  unfolding to_string
  to_string-lem =
      rw (product-dotted v h) (sym (append_assoc core (pre_suffix v.pre) (build_suffix v.build)))

  front-Without : Without b'+' (core ++ pre_suffix v.pre)
  front-Without =
      All-append (λ c. (c == b'+') ≡ false) core (pre_suffix v.pre) (core-Without b'+' refl refl)
        (suffix v.pre (pre-OfIdents v.pre h.pre_valid))
    where
      suffix : (ps : List Bytes) → All OfIdents ps → Without b'+' (pre_suffix ps)
      suffix [] k = tt
      suffix (p ∷ ps) k = (refl, join-Without b'+' (p ∷ ps) refl refl k)

  text-IsGraphic : All IsGraphic ((core ++ pre_suffix v.pre) ++ build_suffix v.build)
  text-IsGraphic =
      All-append IsGraphic (core ++ pre_suffix v.pre) (build_suffix v.build)
        (All-append IsGraphic core (pre_suffix v.pre)
          (dotted-All IsGraphic v.major v.minor v.patch (λ d e. ground arith) (omega arith))
          (suffix v.pre (pre-OfIdents v.pre h.pre_valid)))
        (built v.build h.build_valid)
    where
      suffix : (ps : List Bytes) → All OfIdents ps → All IsGraphic (pre_suffix ps)
      suffix [] k = tt
      suffix (p ∷ ps) k = (omega arith, join-IsGraphic (p ∷ ps) k)

      built : (b : Bytes) → (b ≡ []) ⊎ (validate_build b ≡ true) → All IsGraphic (build_suffix b)
      built [] k = tt
      built (c ∷ b) (inl e) = cc
      built (c ∷ b) (inr k) = (omega arith, build-IsGraphic (c ∷ b) k)

  parse_bare-to_string : parse_bare ((core ++ pre_suffix v.pre) ++ build_suffix v.build) ≡ ok v
  unfolding parse_bare
  parse_bare-to_string =
      let (_, some_bytes) =
        dotted-head v.major v.minor v.patch (pre_suffix v.pre ++ build_suffix v.build) in
      rw (ap is_empty (append_assoc core (pre_suffix v.pre) (build_suffix v.build)) ∙ some_bytes) (
        rw (take_build-suffix (core ++ pre_suffix v.pre) v.build front-Without h.build_valid) (
          rw (take_pre-suffix core v.pre (core-Without b'-' refl refl) h.pre_valid) (
            rw (parse_nums-dotted v.major v.minor v.patch (omega arith) (omega arith) (omega arith))
              (rw (pre_parts-join v.pre h.pre_valid)))))

  abbrev text : Bytes
  text = (core ++ pre_suffix v.pre) ++ build_suffix v.build

  text-head : (drop_v text ≡ text) × (is_empty text ≡ false)
  text-head =
      subst (λ s. (drop_v s ≡ s) × (is_empty s ≡ false))
        (sym (append_assoc core (pre_suffix v.pre) (build_suffix v.build)))
        (dotted-head v.major v.minor v.patch (pre_suffix v.pre ++ build_suffix v.build))

  parse-text : (parse text ≡ ok v) × (parse (b'v' ∷ text) ≡ ok v)
  unfolding parse
  parse-text =
      let (same, some_bytes) = text-head in
      (
        rw (trim_space-IsGraphic text text-IsGraphic)
            (rw some_bytes (rw same parse_bare-to_string)),
        rw (trim_space-IsGraphic (b'v' ∷ text) (omega arith, text-IsGraphic))
            (unfold drop_v in parse_bare-to_string),
      )

  -- `Parse` reads back what `String` prints, and what `Tag` prints: the versions whose numbers fit
  -- an `int` and whose identifiers are valid.
  pub parse-to_string : (parse (to_string v) ≡ ok v) × (parse (tag v) ≡ ok v)
  unfolding tag
  parse-to_string = rw to_string-lem parse-text
