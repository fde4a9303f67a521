-- ===== src/Ignore/Matcher/System.antt =====
-- internal/ignore/matcher.go: the protected locations of the system.
use openbackup.Prelude.{
  Bool, true, false, not, ◌&&◌, ◌||◌, Bytes, List, [], ◌∷◌, ◌++◌, Option, none, some, map, ◌==◌,
  if◌then◌else◌, is_empty,
}
use openbackup.Text.{bytes_eq}
use openbackup.Store.Paths.{slash, to_slash}
use openbackup.Ignore.Pattern.{or_else, strip_end}
use openbackup.Ignore.Matcher.{system_category, Platform, Rule, Decision, keep, Matcher, bytes_in}

abbrev pub without_end : Bytes → Bytes
without_end [] = []
without_end (a ∷ []) = a ∷ []
without_end (a ∷ b ∷ s) = or_else (strip_end slash (a ∷ b ∷ s)) (a ∷ b ∷ s)

-- `normalizeAbs`
unfoldable pub normalize_abs : Platform → Bytes → Bytes
normalize_abs platform [] = []
normalize_abs platform (a ∷ p) =
    let slashed = without_end (map to_slash (platform.clean (a ∷ p))) in
    if platform.fold then platform.lower slashed else slashed

-- strings.HasPrefix, as what is behind the prefix
unfoldable pub behind : Bytes → Bytes → Option Bytes
behind [] s = some s
behind (a ∷ p) [] = none
behind (a ∷ p) (b ∷ s) = if a == b then behind p s else none

abbrev pub is_prefix : Bytes → Bytes → Bool
is_prefix p s = elim (behind p s) [ none ↦ false | some rest ↦ true ]

-- `norm == r || strings.HasPrefix(norm, r+"/")`
abbrev pub under : Bytes → Bytes → Bool
under norm r = bytes_eq norm r || is_prefix (r ++ slash ∷ []) norm

abbrev pub system_decision : Rule → Decision
system_decision r = record {
  skip = true;
  reason = r.reason;
  rule = r.pattern;
  category = system_category;
}

unfoldable pub first_root : Bytes → List Rule → Decision
first_root norm [] = keep
first_root norm (r ∷ rs) =
    let rest = first_root norm rs in if under norm r.pattern then system_decision r else rest

unfoldable pub is_system_path : Matcher → Bytes → Decision
is_system_path m abs =
    let norm = normalize_abs m.platform abs in
    if is_empty norm then keep else first_root norm m.system_roots

unfoldable pub first_forbidden : List Bytes → Bytes → List Rule → Decision
first_forbidden soft norm [] = keep
first_forbidden soft norm (r ∷ rs) =
    let rest = first_forbidden soft norm rs in
    if bytes_eq norm r.pattern
    then system_decision r
    else if is_prefix (r.pattern ++ slash ∷ []) norm && not (bytes_in r.pattern soft)
    then system_decision r
    else rest

unfoldable pub is_forbidden_root : Matcher → Bytes → Decision
is_forbidden_root m abs =
    let norm = normalize_abs m.platform abs in
    if is_empty norm then keep else first_forbidden m.soft_roots norm m.system_roots

unfoldable pub system_path_outside : Matcher → Bytes → Bytes → Decision
system_path_outside m abs root =
    let d = is_system_path m abs in
    let of_root = is_system_path m root in
    let root_norm = normalize_abs m.platform root in
    let abs_norm = normalize_abs m.platform abs in
    if not d.skip
    then keep
    else if is_empty root_norm || is_empty abs_norm
    then d
    else if under abs_norm root_norm && (of_root.skip && bytes_eq of_root.rule d.rule)
    then keep
    else d
