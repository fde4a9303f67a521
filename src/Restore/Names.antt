-- ===== src/Restore/Names.antt =====
-- internal/agent/restore/restore.go: `relativeName`, `safeJoin`, `isReservedName` and `uniqueName`.
-- A cleaned absolute path is the list of its segments. `path.Clean`, `filepath.Join` and
-- `filepath.Rel` are Go's, for absolute paths on a system with slashes.
pub mod Inside
use openbackup.Prelude.{
  ℕ, zero, suc, ◌+◌, ◌-◌, ◌*◌, Bool, true, false, not, ◌&&◌, ◌||◌, Bytes, List, [], ◌∷◌, ◌++◌,
  Option, none, some, map, ltb, ◌==◌, if◌then◌else◌, is_empty, codes,
}
use mathlib.Core.List.{reverse}
use openbackup.Prelude.Result.{Result, ok, err}
use openbackup.Text.{split, join, cut, bytes_eq}
use openbackup.Text.Decimal.{decimal}
use openbackup.Store.Paths.{slash, to_slash, trim_slashes}

abbrev pub dot : Bytes
dot = b'.' ∷ []

abbrev pub dot_dot : Bytes
dot_dot = b'.' ∷ b'.' ∷ []

abbrev pub without_last : List Bytes → List Bytes
without_last [] = []
without_last (s ∷ ss) = ss

-- One segment of `Clean` on a rooted path. `above` are the segments so far, the last one first; a
-- ".." at the root goes nowhere.
abbrev pub clean_segment : Bytes → List Bytes → List Bytes
clean_segment seg above =
    if is_empty seg || bytes_eq seg dot
    then above
    else if bytes_eq seg dot_dot
    then without_last above
    else seg ∷ above

unfoldable pub clean_loop : List Bytes → List Bytes → List Bytes
clean_loop above [] = above
clean_loop above (seg ∷ segs) = clean_loop (clean_segment seg above) segs

-- path.Clean("/" + …), without the slash in front
unfoldable pub clean_name : Bytes → List Bytes
unfolding clean_loop
clean_name name = reverse (clean_loop [] (split slash (map to_slash name)))

-- filepath.Join(root, …)
unfoldable pub join_under : List Bytes → List Bytes → List Bytes
unfolding clean_loop
join_under root segs = reverse (clean_loop (reverse root) segs)

abbrev pub up : List Bytes → List Bytes
up [] = []
up (s ∷ ss) = dot_dot ∷ up ss

-- filepath.Rel: up from what is left of the base, and down what is left of the target. No segment
-- is ".".
unfoldable pub relative : List Bytes → List Bytes → List Bytes
relative [] target = target
relative (b ∷ base) [] = up (b ∷ base)
relative (b ∷ base) (t ∷ target) =
    let rest = relative base target in if bytes_eq b t then rest else up (b ∷ base) ++ t ∷ target

abbrev pub goes_up : List Bytes → Bool
goes_up [] = false
goes_up (s ∷ ss) = bytes_eq s dot_dot

-- filepath.Base of an absolute path
abbrev pub last_segment : List Bytes → Bytes
last_segment [] = slash ∷ []
last_segment (s ∷ []) = s
last_segment (s ∷ t ∷ ss) = last_segment (t ∷ ss)

abbrev pub reserved_names : List Bytes
reserved_names =
    codes "con"
    ∷ codes "prn"
    ∷ codes "aux"
    ∷ codes "nul"
    ∷ codes "com1"
    ∷ codes "com2"
    ∷ codes "com3"
    ∷ codes "com4"
    ∷ codes "com5"
    ∷ codes "com6"
    ∷ codes "com7"
    ∷ codes "com8"
    ∷ codes "com9"
    ∷ codes "lpt1"
    ∷ codes "lpt2"
    ∷ codes "lpt3"
    ∷ codes "lpt4"
    ∷ codes "lpt5"
    ∷ codes "lpt6"
    ∷ codes "lpt7"
    ∷ codes "lpt8"
    ∷ codes "lpt9"
    ∷ []

abbrev pub listed : Bytes → List Bytes → Bool
listed s [] = false
listed s (t ∷ ts) = bytes_eq t s || listed s ts

-- `if idx := strings.Index(base, "."); idx > 0 { base = base[:idx] }`
abbrev pub before_dot : Bytes → Option (Bytes × Bytes) → Bytes
before_dot base none = base
before_dot base (some (front, _)) = if is_empty front then base else front

-- strings.ToLower is an argument.
unfoldable pub is_reserved_name : (Bytes → Bytes) → Bytes → Bool
is_reserved_name to_lower name =
    let base = to_lower name in listed (before_dot base (cut b'.' base)) reserved_names

pub data NameError : Type 0 where
  empty_path escapes reserved : NameError

unfoldable pub safe_join : (Bytes → Bytes) → List Bytes → Bytes → Result NameError (List Bytes)
safe_join to_lower root name =
    let joined = join_under root (clean_name name) in
    if is_empty name
    then err empty_path
    else if goes_up (relative root joined)
    then err escapes
    else if is_reserved_name to_lower (last_segment joined)
    then err reserved
    else ok joined

-- The part of a path behind its last slash
abbrev pub base_loop : Bytes → Bytes → Bytes
base_loop base [] = base
base_loop base (c ∷ s) = base_loop (if c == slash then [] else base ++ c ∷ []) s

-- strings.TrimPrefix
abbrev pub trim_prefix : Bytes → Bytes → Option Bytes
trim_prefix [] s = some s
trim_prefix (c ∷ p) [] = none
trim_prefix (c ∷ p) (d ∷ s) = if c == d then trim_prefix p s else none

abbrev pub or_whole : Bytes → Option Bytes → Bytes
or_whole name none = name
or_whole name (some rest) = rest

unfoldable pub relative_name : Bytes → Bytes → Bytes
unfolding trim_slashes
relative_name entry_path prefix =
    let name = trim_slashes entry_path in
    let top = trim_slashes prefix in
    if is_empty top
    then name
    else if bytes_eq name top
    then base_loop [] name
    else or_whole name (trim_prefix (top ++ slash ∷ []) name)

-- What filepath.Ext finds: the last segment from its last dot on. `seen` is the part since then.
abbrev pub ext_loop : Option Bytes → Bytes → Option Bytes
ext_loop seen [] = seen
ext_loop seen (c ∷ s) =
    ext_loop
      (if c == slash
        then none
        else if c == b'.'
        then some (c ∷ [])
        else elim seen [ none ↦ none | some e ↦ some (e ++ c ∷ []) ])
      s

abbrev pub ext : Bytes → Bytes
ext dest = elim (ext_loop none dest) [ none ↦ [] | some e ↦ e ]

abbrev pub trim_suffix : ℕ → Bytes → Bytes
trim_suffix n s = openbackup.Prelude.take (openbackup.Prelude.length s - n) s

-- fmt.Sprintf("%s (restored %d)%s", …)
abbrev pub candidate : Bytes → ℕ → Bytes
candidate dest i =
    trim_suffix (openbackup.Prelude.length (ext dest)) dest
    ++ codes " (restored "
    ++ decimal i
    ++ b')' ∷ ext dest

abbrev pub most_names : ℕ
most_names = 999

-- The loop from the candidate `i` on; `free` tells whether a name does not exist.
unfoldable pub name_loop : ℕ → (Bytes → Bool) → Bytes → ℕ → Option Bytes
name_loop zero free dest i = none
name_loop (suc left) free dest i =
    let rest = name_loop left free dest (i + 1) in
    if free (candidate dest i) then some (candidate dest i) else rest

unfoldable pub unique_name : (Bytes → Bool) → Bytes → Option Bytes
unfolding name_loop
unique_name free dest = name_loop most_names free dest 1
