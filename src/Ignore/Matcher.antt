-- ===== src/Ignore/Matcher.antt =====
-- internal/ignore/matcher.go: the state of the matcher, and how the rules are compiled. The tables of defaults.go are the argument `Defaults`, and what
-- depends on the operating system or on the library's Unicode tables is a `Platform`.
pub mod System
pub mod Decide
pub mod Precedence
use openbackup.Prelude.{
  ℕ, Bool, true, false, not, ◌&&◌, ◌||◌, Bytes, List, [], ◌∷◌, ◌++◌, Option, none, some, map, ◌==◌,
  if◌then◌else◌, is_empty, codes,
}
use openbackup.Prelude.Int.{ℤ, pos, negsuc}
use openbackup.Text.{bytes_eq, trim_space}
use openbackup.Store.Paths.{slash, to_slash, trim_slashes}
use openbackup.Ignore.Pattern.{Pattern, parse_pattern, or_else, strip, strip_end}

pub data Category : Type 0 where
  no_category system_category junk cache developer virtualisation ephemeral : Category

-- The place of a constant of defaults.go
abbrev category_index : Category → ℕ
category_index no_category = 0
category_index system_category = 1
category_index junk = 2
category_index cache = 3
category_index developer = 4
category_index virtualisation = 5
category_index ephemeral = 6

abbrev pub same_category : Category → Category → Bool
same_category a b = category_index a == category_index b

-- strings.ToLower, filepath.Clean, and whether paths are compared without case
pub record Platform : Type 0 where
  pub lower : Bytes → Bytes
  pub clean : Bytes → Bytes
  pub fold : Bool

pub record Rule : Type 0 where
  pub pattern : Bytes
  pub reason : Bytes

-- The tables: `systemRoots` with `softSystemPrefixes`, and one table for each group of patterns
pub record Defaults : Type 0 where
  pub system_roots : List Rule
  pub soft_roots : List Bytes
  pub junk_rules : List Rule
  pub cache_rules : List Rule
  pub virtualisation_rules : List Rule
  pub ephemeral_rules : List Rule
  pub developer_global_rules : List Rule
  pub developer_scoped_rules : List Rule

pub record Config : Type 0 where
  pub disabled : List Category
  pub exclude : List Bytes
  pub include : List Bytes
  pub max_file_size : ℤ
  pub skip_hidden : Bool

pub record Decision : Type 0 where
  pub skip : Bool
  pub reason : Bytes
  pub rule : Bytes
  pub category : Category

abbrev pub keep : Decision
keep = record { skip = false; reason = []; rule = []; category = no_category }

pub record Categorised : Type 0 where
  pub pattern : Pattern
  pub category : Category

pub record Project : Type 0 where
  pub root : Bytes
  pub marker : Bytes
  pub excluded : List Bytes
  pub reason : Bytes

pub record CompiledProject : Type 0 where
  pub project : Project
  pub patterns : List Pattern

-- `projects` is the map as the list of its writes, the latest first.
pub record Matcher : Type 0 where
  pub platform : Platform
  pub skip_hidden : Bool
  pub system_roots : List Rule
  pub soft_roots : List Bytes
  pub global : List Categorised
  pub dev_patterns : List Categorised
  pub include : List Pattern
  pub exclude : List Pattern
  pub max_file_size : ℕ
  pub projects : List (Bytes × CompiledProject)

abbrev pub bytes_in : Bytes → List Bytes → Bool
bytes_in a [] = false
bytes_in a (b ∷ bs) = bytes_eq a b || bytes_in a bs

abbrev pub is_disabled : Category → List Category → Bool
is_disabled c [] = false
is_disabled c (d ∷ ds) = same_category c d || is_disabled c ds

abbrev pub default_max_file_size : ℕ
default_max_file_size = 8589934592

-- Zero is no limit.
unfoldable pub effective_size : ℤ → ℕ
effective_size (pos n) = if n == 0 then default_max_file_size else n
effective_size (negsuc n) = 0

abbrev pub cons_some : {A : Type 0} → Option A → List A → List A
cons_some none xs = xs
cons_some (some a) xs = a ∷ xs

-- The patterns of a group, without those that compile to nothing
unfoldable pub compile_rules : Category → List Rule → List Categorised
compile_rules c [] = []
compile_rules c (r ∷ rs) =
    cons_some
      (elim (parse_pattern r.pattern r.reason) [
        | none ↦ none
        | some p ↦ some (record { pattern = p; category = c })
      ])
      (compile_rules c rs)

unfoldable pub compile_lines : Bytes → List Bytes → List Pattern
compile_lines reason [] = []
compile_lines reason (l ∷ ls) = cons_some (parse_pattern l reason) (compile_lines reason ls)

abbrev pub without_negation : Bytes → Bytes
without_negation raw = or_else (strip b'!' (trim_space raw)) (trim_space raw)

abbrev pub unless : {A : Type 0} → Bool → List A → List A
unless true xs = []
unless false xs = xs

unfoldable pub new : Platform → Defaults → Config → Matcher
new platform tables cfg =
    let off = λ (c : Category). is_disabled c cfg.disabled in
    record {
      platform = platform;
      skip_hidden = cfg.skip_hidden;
      system_roots = unless (off system_category) tables.system_roots;
      soft_roots = unless (off system_category) tables.soft_roots;
      global =
          unless (off junk) (compile_rules junk tables.junk_rules)
          ++ unless (off cache) (compile_rules cache tables.cache_rules)
          ++ unless (off virtualisation) (compile_rules virtualisation tables.virtualisation_rules)
          ++ unless (off ephemeral) (compile_rules ephemeral tables.ephemeral_rules)
          ++ unless (off developer) (compile_rules developer tables.developer_global_rules);
      dev_patterns = unless (off developer) (compile_rules developer tables.developer_scoped_rules);
      include =
          compile_lines (codes "always included by your rules") (map without_negation cfg.include);
      exclude = compile_lines (codes "excluded by your rules") cfg.exclude;
      max_file_size = effective_size cfg.max_file_size;
      projects = [];
    }
