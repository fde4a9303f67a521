-- ===== src/Version.antt =====
-- internal/version/semver.go: semantic versions, their parser, printer and precedence.
-- `Release` is release.go. `Order` and `RoundTrip` hold the proofs.
pub mod Order
pub mod RoundTrip
pub mod Release
use Prim.Native.Nat.{Ordering}
use openbackup.Prelude.{
  ℕ, zero, suc, ◌+◌, ◌-◌, ◌*◌, ◌%◌, ◌^◌, Bool, true, false, not, ◌&&◌, ◌||◌, Bytes, List, [], ◌∷◌,
  ◌++◌, Option, none, some, ltb, leb, ◌==◌, if◌then◌else◌, is_empty, length, codes,
}
use openbackup.Prelude.Result.{Result, ok, err, ◌>>=◌, ◌>>◌}
use openbackup.Text.{is_digit, is_letter, split, join, cut, bytes_compare, trim_space}
use openbackup.Text.Decimal.{decimal, starts_with_zero}

-- A Go `int`: 64 bits, read as a signed number.
abbrev pub u64 : ℕ
u64 = 2 ^ 64

abbrev pub i64_half : ℕ
i64_half = 2 ^ 63

-- The place of a 64-bit pattern in the order of signed numbers.
abbrev pub biased : ℕ → ℕ
biased n = (n + i64_half) % u64

pub record SemVer : Type 0 where
  pub major : ℕ
  pub minor : ℕ
  pub patch : ℕ
  pub pre : List Bytes
  pub build : Bytes

pub data VersionError : Type 0 where
  empty_version invalid_semver bad_number bad_pre bad_build : VersionError

-- The loop of `parseNumeric`; a rune that is no ASCII digit has no byte that is one.
unfoldable pub numeric_loop : ℕ → Bytes → Result VersionError ℕ
numeric_loop n [] = ok n
numeric_loop n (c ∷ s) =
    let rest = numeric_loop ((n * 10 + (c - b'0')) % u64) s in
    if is_digit c then rest else err bad_number

unfoldable pub parse_numeric : Bytes → Result VersionError ℕ
unfolding numeric_loop
parse_numeric s =
    if is_empty s || ltb 1 (length s) && starts_with_zero s
    then err bad_number
    else numeric_loop 0 s

abbrev pub is_ident_char : ℕ → Bool
is_ident_char c = is_digit c || is_letter c || c == b'-'

abbrev pub all_chars : (ℕ → Bool) → Bytes → Bool
all_chars p [] = true
all_chars p (c ∷ s) = p c && all_chars p s

unfoldable pub validate_pre_ident : Bytes → Bool
validate_pre_ident s =
    not (is_empty s)
    && all_chars is_ident_char s
    && not (all_chars is_digit s && ltb 1 (length s) && starts_with_zero s)

abbrev pub all_parts : (Bytes → Bool) → List Bytes → Bool
all_parts p [] = true
all_parts p (s ∷ ss) = p s && all_parts p ss

abbrev pub build_part : Bytes → Bool
build_part part = not (is_empty part) && all_chars is_ident_char part

unfoldable pub validate_build : Bytes → Bool
validate_build s = not (is_empty s) && all_parts build_part (split b'.' s)

-- A leading v or V
unfoldable pub drop_v : Bytes → Bytes
drop_v [] = []
drop_v (c ∷ s) = if c == b'v' || c == b'V' then s else c ∷ s

-- What stands before the first '+', and the build metadata behind it
unfoldable pub take_build : Bytes → Result VersionError (Bytes × Bytes)
take_build s = elim (cut b'+' s) [
  | none ↦ ok (s, [])
  | some p ↦ if validate_build p.1 then ok (p.0, p.1) else err bad_build
]

-- What stands before the first '-', and the prerelease behind it
unfoldable pub take_pre : Bytes → Result VersionError (Bytes × Bytes)
take_pre s = elim (cut b'-' s) [
  | none ↦ ok (s, [])
  | some p ↦ if is_empty p.1 then err bad_pre else ok (p.0, p.1)
]

-- major, minor and patch, the three being there
unfoldable pub parse_nums : List Bytes → Result VersionError (ℕ × ℕ × ℕ)
unfolding parse_numeric
parse_nums (a ∷ b ∷ c ∷ []) = do
  major ← parse_numeric a
  minor ← parse_numeric b
  patch ← parse_numeric c
  ok (major, minor, patch)
parse_nums _ = err invalid_semver

unfoldable pub pre_parts : Bytes → Result VersionError (List Bytes)
unfolding validate_pre_ident
pre_parts pre =
    if is_empty pre
    then ok []
    else let parts = split b'.' pre in
      if all_parts validate_pre_ident parts then ok parts else err bad_pre

-- `Parse` behind the optional v
unfoldable pub parse_bare : Bytes → Result VersionError SemVer
parse_bare s = if is_empty s then err invalid_semver else do
  (rest, build) ← take_build s
  (core, pre) ← take_pre rest
  (major, minor, patch) ← parse_nums (split b'.' core)
  parts ← pre_parts pre
  ok (record { major = major; minor = minor; patch = patch; pre = parts; build = build })

unfoldable pub parse : Bytes → Result VersionError SemVer
parse raw =
    let s = trim_space raw in if is_empty s then err empty_version else parse_bare (drop_v s)

-- `%d`
unfoldable pub print_int : ℕ → Bytes
print_int n = if ltb n i64_half then decimal n else b'-' ∷ decimal (u64 - n)

unfoldable pub product : SemVer → Bytes
product v = print_int v.major ++ b'.' ∷ (print_int v.minor ++ b'.' ∷ print_int v.patch)

unfoldable pub to_string : SemVer → Bytes
to_string v =
    product v
    ++ ((if is_empty v.pre then [] else b'-' ∷ join b'.' v.pre)
        ++ (if is_empty v.build then [] else b'+' ∷ v.build))

unfoldable pub tag : SemVer → Bytes
tag v = b'v' ∷ to_string v

-- The answers -1, 0 and 1 of Go are `lt`, `eq` and `gt`.
unfoldable pub cmp_nat : ℕ → ℕ → Ordering
cmp_nat a b = if ltb a b then Ordering.lt else if ltb b a then Ordering.gt else Ordering.eq

unfoldable pub cmp_int : ℕ → ℕ → Ordering
unfolding cmp_nat
cmp_int a b = cmp_nat (biased a) (biased b)

abbrev pub by_number : Result VersionError ℕ → Result VersionError ℕ → Ordering → Ordering
by_number (ok an) (ok bn) text = cmp_int an bn
by_number (ok an) (err _) text = Ordering.lt
by_number (err _) (ok bn) text = Ordering.gt
by_number (err _) (err _) text = text

unfoldable pub cmp_ident : Bytes → Bytes → Ordering
cmp_ident a b = by_number (parse_numeric a) (parse_numeric b) (bytes_compare a b)

-- `if c := …; c != 0 { return c }`
abbrev pub then_cmp : Ordering → Ordering → Ordering
then_cmp Ordering.eq rest = rest
then_cmp Ordering.lt rest = Ordering.lt
then_cmp Ordering.gt rest = Ordering.gt

-- The loop over the identifiers that both have
unfoldable pub cmp_common : List Bytes → List Bytes → Ordering
cmp_common [] os = Ordering.eq
cmp_common (v ∷ vs) [] = Ordering.eq
cmp_common (v ∷ vs) (o ∷ os) = then_cmp (cmp_ident v o) (cmp_common vs os)

-- The lengths are not negative, and `cmp_int` compares them as they are.
unfoldable pub cmp_pre : List Bytes → List Bytes → Ordering
cmp_pre [] [] = Ordering.eq
cmp_pre [] (o ∷ os) = Ordering.gt
cmp_pre (v ∷ vs) [] = Ordering.lt
cmp_pre (v ∷ vs) (o ∷ os) =
    then_cmp (cmp_common (v ∷ vs) (o ∷ os)) (cmp_nat (length (v ∷ vs)) (length (o ∷ os)))

unfoldable pub compare_versions : SemVer → SemVer → Ordering
compare_versions v o =
    then_cmp (cmp_int v.major o.major) (
      then_cmp (cmp_int v.minor o.minor) (then_cmp (cmp_int v.patch o.patch) (cmp_pre v.pre o.pre)))

abbrev pub is_gt : Ordering → Bool
is_gt Ordering.gt = true
is_gt _ = false

-- One round of `Highest`; `best` is there when `ok` is true.
abbrev pub better : Option SemVer → Result VersionError SemVer → Option SemVer
better best (err _) = best
better none (ok v) = some v
better (some b) (ok v) = if is_gt (compare_versions v b) then some v else some b

unfoldable pub highest_from : Option SemVer → List Bytes → Option SemVer
highest_from best [] = best
highest_from best (c ∷ cs) = highest_from (better best (parse c)) cs

unfoldable pub highest : List Bytes → Option SemVer
unfolding highest_from
highest candidates = highest_from none candidates
