-- ===== src/Store/Paths.antt =====
-- internal/server/store/snapshots.go: `cleanStoredPath` and `normalizePath`.
pub mod Safe
use mathlib.Core.List.{reverse}
use openbackup.Prelude.{
  ℕ, Bool, false, ◌||◌, Bytes, List, [], ◌∷◌, Option, none, some, map, ◌==◌, if◌then◌else◌,
  is_empty,
}
use openbackup.Text.{split, bytes_eq}

abbrev pub slash : ℕ
slash = b'/'

abbrev pub backslash : ℕ
backslash = 92

-- strings.ReplaceAll(p, `\`, "/")
abbrev pub to_slash : ℕ → ℕ
to_slash c = if c == backslash then slash else c

-- strings.TrimLeft(p, "/")
unfoldable pub trim_left : Bytes → Bytes
trim_left [] = []
trim_left (c ∷ s) = let rest = trim_left s in if c == slash then rest else c ∷ s

-- strings.Trim(p, "/")
unfoldable pub trim_slashes : Bytes → Bytes
unfolding trim_left
trim_slashes p = reverse (trim_left (reverse (trim_left p)))

abbrev pub bad_segment : Bytes → Bool
bad_segment seg = is_empty seg || bytes_eq seg (b'.' ∷ []) || bytes_eq seg (b'.' ∷ b'.' ∷ [])

abbrev pub any_segment : (Bytes → Bool) → List Bytes → Bool
any_segment p [] = false
any_segment p (s ∷ ss) = p s || any_segment p ss

-- Behind the replacement and the trimming
abbrev pub checked_path : Bytes → Option Bytes
checked_path p =
    if is_empty p || bytes_eq p (b'.' ∷ [])
    then none
    else if any_segment bad_segment (split slash p)
    then none
    else some p

unfoldable pub clean_stored_path : Bytes → Option Bytes
unfolding trim_slashes
clean_stored_path p = checked_path (trim_slashes (map to_slash p))

-- `normalizePath`: a path that is not valid is the root.
unfoldable pub normalize_path : Bytes → Bytes
unfolding clean_stored_path
normalize_path p = elim (clean_stored_path p) [ none ↦ [] | some path ↦ path ]
