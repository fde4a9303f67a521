-- ===== src/Ignore.antt =====
-- internal/ignore: which paths a backup leaves out. `Glob` matches one component, `Pattern` a path,
-- and `Matcher` applies the rules of the user, the defaults and the detected projects in order.
-- strings.ToLower is the parameter `lower` of what folds case.
pub mod Glob
pub mod Pattern
pub mod Matcher
