-- ===== src/Ignore/Matcher/Decide.antt =====
-- internal/ignore/matcher.go: `RegisterProject`, `Match`, `MatchFile` and what they call.
use openbackup.Prelude.{
  ℕ, Bool, true, false, not, ◌&&◌, ◌||◌, Bytes, List, [], ◌∷◌, ◌++◌, Option, none, some, map, ltb,
  ◌==◌, if◌then◌else◌, is_empty, codes,
}
use openbackup.Text.{bytes_eq}
use openbackup.Store.Paths.{slash, to_slash, trim_slashes}
use openbackup.Ignore.Pattern.{Pattern, parse_pattern, reason_of, match_path}
use openbackup.Ignore.Matcher.{
  Category, no_category, junk, developer, ephemeral, Decision, keep, Categorised, Project,
  CompiledProject, Matcher, cons_some,
}
use openbackup.Ignore.Matcher.System.{behind}

-- `m.key`
unfoldable pub key : Matcher → Bytes → Bytes
key m p =
    let path = trim_slashes (map to_slash p) in
    if m.platform.fold then m.platform.lower path else path

-- strings.ContainsAny(dir, "*?[")
abbrev pub is_glob : Bytes → Bool
is_glob [] = false
is_glob (c ∷ s) = c == b'*' || c == b'?' || c == b'[' || is_glob s

abbrev pub project_line : Bytes → Bytes
project_line dir = slash ∷ (if is_glob dir then dir else dir ++ slash ∷ [])

unfoldable pub project_patterns : Bytes → List Bytes → List Pattern
project_patterns reason [] = []
project_patterns reason (dir ∷ dirs) =
    let rest = project_patterns reason dirs in
    if is_empty dir then rest else cons_some (parse_pattern (project_line dir) reason) rest

unfoldable pub register_project : Matcher → Project → Matcher
register_project m p = record m {
  projects =
      (key m p.root, record { project = p; patterns = project_patterns p.reason p.excluded })
      ∷ m.projects;
}

pub record Candidate : Type 0 where
  pub path : Bytes
  pub is_dir : Bool

-- The directories above a path, the innermost first: the text in front of each slash but one at
-- the start.
unfoldable pub parents : Bytes → Bytes → List Bytes → List Bytes
parents before [] found = found
parents before (c ∷ s) found =
    parents (before ++ c ∷ []) s
      (if c == slash && not (is_empty before) then before ∷ found else found)

abbrev pub as_dir : Bytes → Candidate
as_dir path = record { path = path; is_dir = true }

unfoldable pub candidates : Bytes → Bool → List Candidate
candidates rel is_dir = record { path = rel; is_dir = is_dir } ∷ map as_dir (parents [] rel [])

-- One pattern against the entry and the directories above it
unfoldable pub matches_any : Matcher → Pattern → List Candidate → Bool
matches_any m p [] = false
matches_any m p (c ∷ cs) =
    match_path m.platform.lower m.platform.fold p c.path c.is_dir || matches_any m p cs

unfoldable pub any_include : Matcher → List Pattern → List Candidate → Bool
any_include m [] cands = false
any_include m (p ∷ ps) cands = matches_any m p cands || any_include m ps cands

-- The last rule that matches
unfoldable pub last_match :
    Matcher → List Pattern → List Candidate → Option Pattern → Option Pattern
last_match m [] cands excluded = excluded
last_match m (p ∷ ps) cands excluded =
    last_match m ps cands (if matches_any m p cands then some p else excluded)

-- What is behind the last slash
unfoldable pub base_name : Bytes → Bytes → Bytes
base_name base [] = base
base_name base (c ∷ s) = base_name (if c == slash then [] else base ++ c ∷ []) s

unfoldable pub is_hidden_name : Bytes → Bool
is_hidden_name rel = dotted (base_name [] rel)
  where
    dotted : Bytes → Bool
    dotted [] = false
    dotted (c ∷ []) = false
    dotted (c ∷ d ∷ s) = c == b'.' && not (d == b'.' && is_empty s)

unfoldable pub any_hidden : List Candidate → Bool
any_hidden [] = false
any_hidden (c ∷ cs) = is_hidden_name c.path || any_hidden cs

abbrev pub skip_by : Pattern → Category → Decision
skip_by p c = record { skip = true; reason = reason_of p; rule = p.raw; category = c }

abbrev pub by_global : Decision → List Categorised → (Pattern → Bool) → Decision
by_global otherwise [] hit = otherwise
by_global otherwise (g ∷ gs) hit =
    let rest = by_global otherwise gs hit in
    if hit g.pattern then skip_by g.pattern g.category else rest

-- `relativeTo`
unfoldable pub relative_to : Bytes → Bytes → Option Bytes
relative_to [] p = some p
relative_to (b ∷ base) p = elim (behind (b ∷ base) p) [
  | none ↦ none
  | some [] ↦ some []
  | some (c ∷ rest) ↦ if c == slash then some rest else none
]

abbrev pub by_project : Decision → CompiledProject → List Pattern → (Pattern → Bool) → Decision
by_project otherwise cp [] hit = otherwise
by_project otherwise cp (p ∷ ps) hit =
    let rest = by_project otherwise cp ps hit in
    if hit p
    then record {
      skip = true;
      reason = reason_of p;
      rule = cp.project.marker ++ codes " -> " ++ p.raw;
      category = developer;
    }
    else rest

-- The loop over the candidates within the project at `dir`
unfoldable pub in_project : Matcher → CompiledProject → Bytes → List Candidate → Decision
in_project m cp dir [] = keep
in_project m cp dir (c ∷ cs) = elim (relative_to dir c.path) [
  | none ↦ in_project m cp dir cs
  | some [] ↦ in_project m cp dir cs
  | some (d ∷ sub) ↦
      let hit = λ (p : Pattern). match_path m.platform.lower m.platform.fold p (d ∷ sub) c.is_dir in
      by_project (by_global (in_project m cp dir cs) m.dev_patterns hit) cp cp.patterns hit
]

abbrev pub find_project : Bytes → List (Bytes × CompiledProject) → Option CompiledProject
find_project k [] = none
find_project k ((k', cp) ∷ ps) =
    let rest = find_project k ps in if bytes_eq k' k then some cp else rest

-- From the innermost directory to the backup root, which is the empty path.
unfoldable pub innermost : Matcher → List Candidate → List Bytes → Decision
innermost m cands [] = keep
innermost m cands (dir ∷ dirs) = elim (find_project (key m dir) m.projects) [
  | none ↦ innermost m cands dirs
  | some cp ↦ in_project m cp dir cands
]

unfoldable pub match_project : Matcher → Bytes → List Candidate → Decision
match_project m rel cands =
    if is_empty m.dev_patterns || is_empty m.projects
    then keep
    else innermost m cands (parents [] rel [] ++ [] ∷ [])

-- The rules behind the user's own
unfoldable pub match_defaults : Matcher → Bytes → List Candidate → Decision
match_defaults m rel cands =
    if m.skip_hidden && any_hidden cands
    then record {
      skip = true;
      reason = codes "hidden entry";
      rule = codes "hidden";
      category = junk;
    }
    else by_global (match_project m rel cands) m.global (λ p. matches_any m p cands)

unfoldable pub match_rules : Matcher → Bytes → List Candidate → Decision
match_rules m rel cands =
    if any_include m m.include cands then keep else elim (last_match m m.exclude cands none) [
      | some p ↦ if p.negate then keep else skip_by p no_category
      | none ↦ match_defaults m rel cands
    ]

unfoldable pub match_entry : Matcher → Bytes → Bool → Decision
match_entry m path is_dir =
    let rel = trim_slashes (map to_slash path) in
    if is_empty rel || bytes_eq rel (b'.' ∷ [])
    then keep
    else match_rules m rel (candidates rel is_dir)

unfoldable pub match_file : Matcher → Bytes → ℕ → Decision
match_file m path size =
    let d = match_entry m path false in
    if d.skip
    then d
    else if ltb 0 m.max_file_size && ltb m.max_file_size size
    then record {
      skip = true;
      reason = codes "larger than the configured maximum file size";
      rule = codes "max-file-size";
      category = ephemeral;
    }
    else keep
