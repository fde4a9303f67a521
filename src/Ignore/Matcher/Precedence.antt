-- ===== src/Ignore/Matcher/Precedence.antt =====
-- internal/ignore/matcher.go: which of the rules decides, and that a rule on a directory covers
-- what is inside it.
use openbackup.Prelude.{
  ℕ, ◌<◌, ◌≡◌, ◌↔◌, ◌⊎◌, inl, inr, refl, sym, ap, subst, ◌∙◌, Bool, true, false, not, ◌&&◌, ◌||◌,
  Bytes, List, [], ◌∷◌, ◌++◌, Option, none, some, map, arith, ◌==◌, if◌then◌else◌, All, is_empty,
  append_assoc, append-nil,
}
use openbackup.Prelude.Sets.{In, In-map}
use openbackup.Text.{bytes_eq}
use openbackup.Store.Paths.{slash, to_slash, trim_slashes}
use openbackup.Ignore.Pattern.{Pattern, match_path}
use openbackup.Ignore.Matcher.{no_category, keep, Rule, Matcher}
use openbackup.Ignore.Matcher.System.{
  normalize_abs, first_root, is_system_path, first_forbidden, is_forbidden_root,
}
use openbackup.Ignore.Matcher.Decide.{
  Candidate, as_dir, parents, candidates, matches_any, any_include, last_match, skip_by,
  match_rules, match_entry, match_file,
}

abbrev pub relative : Bytes → Bytes
relative path = trim_slashes (map to_slash path)

-- The path names an entry below the backup root.
abbrev pub is_entry : Bytes → Bool
is_entry path = not (is_empty (relative path) || bytes_eq (relative path) (b'.' ∷ []))

last_match-none :
    (m : Matcher) (qs : List Pattern) (cands : List Candidate) (o : Option Pattern)
    → All (λ q. matches_any m q cands ≡ false) qs
    → last_match m qs cands o ≡ o
unfolding last_match
last_match-none m [] cands o h = refl
last_match-none m (q ∷ qs) cands o (e, h) = rw e (last_match-none m qs cands o h)

last_match-last :
    (m : Matcher) (ps : List Pattern) (p : Pattern) (qs : List Pattern) (cands : List Candidate)
    (o : Option Pattern)
    → matches_any m p cands ≡ true
    → All (λ q. matches_any m q cands ≡ false) qs
    → last_match m (ps ++ p ∷ qs) cands o ≡ some p
unfolding last_match
last_match-last m [] p qs cands o e h = rw (e, last_match) (last_match-none m qs cands (some p) h)
last_match-last m (q ∷ ps) p qs cands o e h =
    last_match-last m ps p qs cands (if matches_any m q cands then some q else o) e h

module _ (m : Matcher) (path : Bytes) (is_dir : Bool) (entry : is_entry path ≡ true) where
  at_rules :
      match_entry m path is_dir ≡ match_rules m (relative path) (candidates (relative path) is_dir)
  unfolding match_entry
  at_rules = rw (not_root (is_empty (relative path) || bytes_eq (relative path) (b'.' ∷ [])) entry)
    where
      not_root : (b : Bool) → not b ≡ true → b ≡ false
      not_root b h = ground arith

  -- Where none of the user's includes matches an entry or a directory above it, the last of the
  -- user's rules that matches one of them decides alone: a negated rule keeps the entry, another
  -- skips it and is named as the reason, whatever the built-in rules say.
  pub match_entry-last_rule :
      (ps : List Pattern) (p : Pattern) (qs : List Pattern)
      → m.exclude ≡ ps ++ p ∷ qs
      → any_include m m.include (candidates (relative path) is_dir) ≡ false
      → matches_any m p (candidates (relative path) is_dir) ≡ true
      → All (λ q. matches_any m q (candidates (relative path) is_dir) ≡ false) qs
      → match_entry m path is_dir ≡ (if p.negate then keep else skip_by p no_category)
  unfolding match_rules
  match_entry-last_rule ps p qs rules none_included hit misses =
      let cands = candidates (relative path) is_dir in
      let last =
        ap (λ rs. last_match m rs cands none) rules
        ∙ last_match-last m ps p qs cands none hit misses in
      at_rules ∙ rw none_included (rw last)

-- The directory in front of a slash is among the parents.
parents-found :
    (before rest : Bytes) (d : Bytes) (found : List Bytes)
    → In d found
    → In d (parents before rest found)
unfolding parents
parents-found before [] d found i = i
parents-found before (c ∷ s) d found i =
    parents-found (before ++ c ∷ []) s d _ (kept (c == slash && not (is_empty before)))
  where
    kept : (b : Bool) → In d (if b then before ∷ found else found)
    kept true = inr i
    kept false = i

parents-append :
    (before dir rest : Bytes) (found : List Bytes)
    → is_empty (before ++ dir) ≡ false
    → In (before ++ dir) (parents before (dir ++ slash ∷ rest) found)
unfolding parents
parents-append before [] rest found h =
    parents-found (before ++ slash ∷ []) rest (before ++ []) _ (here (rw append-nil at h))
  where
    here :
        is_empty before ≡ false
        → In
            (before ++ [])
            (if slash == slash && not (is_empty before) then before ∷ found else found)
    here e = rw e (inl (sym (append-nil before)))
parents-append before (c ∷ dir) rest found h =
    subst
      (λ x. In x (
        parents (before ++ c ∷ []) (dir ++ slash ∷ rest)
          (if c == slash && not (is_empty before) then before ∷ found else found)))
      e (parents-append (before ++ c ∷ []) dir rest _ (subst (λ x. is_empty x ≡ false) (sym e) h))
  where
    e : (before ++ c ∷ []) ++ dir ≡ before ++ c ∷ dir
    e = append_assoc before (c ∷ []) dir

matches_any-In :
    (m : Matcher) (p : Pattern) (c : Candidate) (cs : List Candidate)
    → In c cs
    → match_path m.platform.lower m.platform.fold p c.path c.is_dir ≡ true
    → matches_any m p cs ≡ true
unfolding matches_any
matches_any-In m p c [] i h = absurd i
matches_any-In m p c (x ∷ cs) (inl e) h =
    let g =
      subst
        (λ (y : Candidate). match_path m.platform.lower m.platform.fold p y.path y.is_dir ≡ true)
        (sym e) h in
    rw g
matches_any-In m p c (x ∷ cs) (inr i) h = ground (arith, matches_any-In m p c cs i h)

-- A rule that matches a directory matches everything that lies inside it, at any depth.
pub matches_any-inside :
    (m : Matcher) (p : Pattern) (dir rest : Bytes) (is_dir : Bool)
    → is_empty dir ≡ false
    → match_path m.platform.lower m.platform.fold p dir true ≡ true
    → matches_any m p (candidates (dir ++ slash ∷ rest) is_dir) ≡ true
unfolding candidates
matches_any-inside m p dir rest is_dir h hit =
    matches_any-In m p (as_dir dir) _ (inr (In-map as_dir dir _ (parents-append [] dir rest [] h)))
      hit

first_forbidden-first_root :
    (soft : List Bytes) (norm : Bytes) (rs : List Rule)
    → (first_forbidden soft norm rs).skip ≡ true
    → (first_root norm rs).skip ≡ true
unfolding first_forbidden first_root
first_forbidden-first_root soft norm [] h = h
first_forbidden-first_root soft norm (r ∷ rs) h =
    ground (arith, first_forbidden-first_root soft norm rs)

-- A path that may not be a backup root is a protected path of the system: what a walk is stopped
-- at covers all that a configuration refuses.
pub is_forbidden_root-is_system_path :
    (m : Matcher) (abs : Bytes)
    → (is_forbidden_root m abs).skip ≡ true
    → (is_system_path m abs).skip ≡ true
unfolding is_forbidden_root is_system_path
is_forbidden_root-is_system_path m abs h = at (is_empty (normalize_abs m.platform abs)) h
  where
    at :
        (b : Bool)
        → (if b
            then keep
            else first_forbidden m.soft_roots (normalize_abs m.platform abs) m.system_roots).skip
          ≡ true
        → (if b then keep else first_root (normalize_abs m.platform abs) m.system_roots).skip ≡ true
    at true k = k
    at false k =
        first_forbidden-first_root m.soft_roots (normalize_abs m.platform abs) m.system_roots k

-- A file is skipped exactly where its path is, or where there is a limit and the file is larger.
pub match_file_iff :
    (m : Matcher) (path : Bytes) (size : ℕ)
    → ((match_file m path size).skip ≡ true) ↔ (
        ((match_entry m path false).skip ≡ true)
        ⊎ ((0 < m.max_file_size) × (m.max_file_size < size)))
unfolding match_file
match_file_iff m path size = ground arith
