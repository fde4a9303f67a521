-- ===== src/Ignore/Pattern.antt =====
-- internal/ignore/pattern.go: `ParsePattern`, `Pattern.Match` and `matchSegments`.
use openbackup.Prelude.{
  ℕ, Bool, true, false, not, ◌&&◌, ◌||◌, Bytes, List, [], ◌∷◌, ◌++◌, Option, none, some, map, ◌==◌,
  if◌then◌else◌, is_empty, codes,
}
use openbackup.Text.{split, cut, bytes_eq, trim_space}
use openbackup.Store.Paths.{slash, to_slash, trim_slashes}
use openbackup.Ignore.Glob.{segment_matches, star}
use mathlib.Core.List.{reverse}

pub record Pattern : Type 0 where
  pub raw : Bytes
  pub segments : List Bytes
  pub negate : Bool
  pub dir_only : Bool
  pub anchored : Bool
  pub reason : Bytes

-- strings.HasPrefix with one byte, and the text behind it
abbrev pub strip : ℕ → Bytes → Option Bytes
strip c [] = none
strip c (a ∷ s) = if a == c then some s else none

abbrev pub strip_end : ℕ → Bytes → Option Bytes
strip_end c s = elim (strip c (reverse s)) [ none ↦ none | some t ↦ some (reverse t) ]

abbrev pub or_else : Option Bytes → Bytes → Bytes
or_else none s = s
or_else (some t) s = t

abbrev pub is_some : {A : Type 0} → Option A → Bool
is_some none = false
is_some (some a) = true

abbrev pub has_slash : Bytes → Bool
has_slash s = is_some (cut slash s)

-- `line` is what the `!` left, with slashes.
abbrev pub compile_line : Bytes → Bytes → Bool → Bytes → Option Pattern
compile_line raw reason negate line =
    let dir_only = strip_end slash line in
    let body = or_else dir_only line in
    let rooted = strip slash body in
    let path = or_else rooted body in
    if is_empty path
    then none
    else some (record {
      raw = raw;
      segments = split slash path;
      negate = negate;
      dir_only = is_some dir_only;
      anchored = is_some rooted || has_slash body;
      reason = reason;
    })

-- `nil` for a blank line, for a comment, and for a line of which nothing is left
unfoldable pub parse_pattern : Bytes → Bytes → Option Pattern
parse_pattern raw reason =
    let line = trim_space raw in
    if is_empty line || is_some (strip b'#' line)
    then none
    else let negated = strip b'!' line in
      compile_line line reason (is_some negated) (map to_slash (or_else negated line))

unfoldable pub reason_of : Pattern → Bytes
reason_of p = if is_empty p.reason then codes "matched rule " ++ p.raw else p.reason

abbrev pub two_stars : Bytes
two_stars = star ∷ star ∷ []

-- `for i := 0; i <= len(path); i++`
abbrev pub any_suffix : (List Bytes → Bool) → List Bytes → Bool
any_suffix f [] = f []
any_suffix f (s ∷ ss) = f (s ∷ ss) || any_suffix f ss

abbrev pub match_last : (Bytes → Bool) → List Bytes → Bool
match_last f [] = false
match_last f (s ∷ ss) = f s && is_empty ss

abbrev pub match_first : (Bytes → Bool) → (List Bytes → Bool) → List Bytes → Bool
match_first f rest [] = false
match_first f rest (s ∷ ss) = f s && rest ss

-- `**` in front of `**` is passed, and at the end it takes every path.
unfoldable pub match_segments : (Bytes → Bytes) → Bool → List Bytes → List Bytes → Bool
match_segments lower fold [] path = is_empty path
match_segments lower fold (p ∷ []) path =
    if bytes_eq p two_stars then true else match_last (λ s. segment_matches lower p s fold) path
match_segments lower fold (p ∷ q ∷ ps) path =
    let rest = match_segments lower fold (q ∷ ps) in
    if bytes_eq p two_stars
    then if bytes_eq q two_stars then rest path else any_suffix rest path
    else match_first (λ s. segment_matches lower p s fold) rest path

-- `for i := range pathSegs`
abbrev pub any_depth : (List Bytes → Bool) → List Bytes → Bool
any_depth f [] = false
any_depth f (s ∷ ss) = f (s ∷ ss) || any_depth f ss

unfoldable pub match_path : (Bytes → Bytes) → Bool → Pattern → Bytes → Bool → Bool
match_path lower fold p rel is_dir =
    let path = split slash (trim_slashes rel) in
    if is_empty p.segments || p.dir_only && not is_dir
    then false
    else if p.anchored
    then match_segments lower fold p.segments path
    else any_depth (match_segments lower fold p.segments) path
