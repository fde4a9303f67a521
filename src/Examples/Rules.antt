-- ===== src/Examples/Rules.antt =====
-- internal/ignore and internal/agent/governor: a few rules, and a laptop on battery.
use openbackup.Prelude.{
  ℕ, ◌+◌, ◌<◌, ◌≡◌, ◌↔◌, ◌⊎◌, inl, inr, refl, Bool, true, false, not, ◌&&◌, ◌++◌, Bytes, List, [],
  ◌∷◌, Option, none, some, arith, codes, is_empty, if◌then◌else◌,
}
use openbackup.Text.{split, cut, trim_space}
use openbackup.Store.Paths.{trim_slashes}
use openbackup.Ignore.Glob.{match_byte, only_stars, segment_loop, match_segment, segment_matches}
use openbackup.Ignore.Glob.Plain.{Fits, match_segment_iff}
use openbackup.Ignore.Pattern.{Pattern, parse_pattern, match_segments, match_path}
use openbackup.Ignore.Matcher.{no_category, Platform, Rule, keep, Matcher}
use openbackup.Ignore.Matcher.Decide.{
  candidates, parents, matches_any, any_include, skip_by, match_entry,
}
use openbackup.Ignore.Matcher.Precedence.{match_entry-last_rule}
use openbackup.Governor.{BatteryState, Readings, Limits, Governor, pause, paused, judge, evaluate}
use openbackup.Governor.Verdict.{IsQuiet, evaluate_iff}

-- strings.ToLower on ASCII
abbrev lower_byte : ℕ → ℕ
lower_byte c = if openbackup.Prelude.leb b'A' c && openbackup.Prelude.leb c b'Z' then c + 32 else c

abbrev linux : Platform
linux = record { lower = λ s. openbackup.Prelude.map lower_byte s; clean = λ s. s; fold = false }

-- The first fit of `a` is given up for the second.
match_segment_iff_example :
    (match_segment linux.lower (codes "*a?d") (codes "XaXACD") true ≡ some true)
    ↔ Fits (codes "*a?d") (codes "xaxacd")
match_segment_iff_example =
    match_segment_iff linux.lower (codes "*a?d") (codes "XaXACD") true refl
      (refl, (refl, (refl, (refl, tt))))

abbrev logs : Pattern
logs = record {
  raw = codes "*.log";
  segments = codes "*.log" ∷ [];
  negate = false;
  dir_only = false;
  anchored = false;
  reason = [];
}

abbrev kept_log : Pattern
kept_log = record {
  raw = codes "!keep.log";
  segments = codes "keep.log" ∷ [];
  negate = true;
  dir_only = false;
  anchored = false;
  reason = [];
}

-- The pair of lines of the comment in matcher.go
logs_parsed : parse_pattern (codes "*.log") [] ≡ some logs
unfolding parse_pattern trim_space cut split
logs_parsed = refl

kept_parsed : parse_pattern (codes "!keep.log") [] ≡ some kept_log
unfolding parse_pattern trim_space cut split
kept_parsed = refl

abbrev etc : Rule
etc = record { pattern = codes "/etc"; reason = codes "system configuration" }

abbrev matcher : Matcher
matcher = record {
  platform = linux;
  skip_hidden = false;
  system_roots = etc ∷ [];
  soft_roots = [];
  global = [];
  dev_patterns = [];
  include = [];
  exclude = logs ∷ kept_log ∷ [];
  max_file_size = 1000;
  projects = [];
}

match_entry-last_rule_example :
    match_entry matcher (codes "work/keep.log") false
    ≡ (if kept_log.negate then keep else skip_by kept_log no_category)
unfolding any_include matches_any candidates parents match_path match_segments segment_matches
    match_segment segment_loop match_byte only_stars split trim_slashes
match_entry-last_rule_example =
    match_entry-last_rule matcher (codes "work/keep.log") false refl (logs ∷ []) kept_log [] refl
      refl refl tt

abbrev limits : Limits
limits = record {
  pause_while_fullscreen = true;
  pause_on_metered = true;
  pause_on_battery = false;
  min_battery_percent = 30;
  max_cpu_percent = 60;
}

abbrev laptop : Readings
laptop = record {
  cpu = some 12;
  battery = record { present = true; charging = false; percent = some 80 };
  metered = false;
  fullscreen = false;
}

abbrev governor : Governor
governor = openbackup.Governor.new limits

evaluate_iff_example :
    ((evaluate governor 1000 laptop).0.allowed ≡ true)
    ↔ ((paused governor 1000 ≡ false) × IsQuiet limits laptop)
evaluate_iff_example = evaluate_iff governor 1000 laptop refl (λ c n e. cc)
