-- ===== src/Store/Tree/Below.antt =====
-- internal/server/store/snapshots.go, `treeRange`: which files a query asks for, in terms of the
-- paths' texts.
use openbackup.Prelude.{
  ℕ, ◌+◌, ◌≤◌, ◌≡◌, ◌↔◌, ◌⊎◌, inl, inr, refl, sym, subst, ap, ◌∙◌, true, false, ◌||◌, Bytes, [],
  ◌∷◌, ◌++◌, arith, ◌==◌, Bool-cases, is_empty, map,
}
use openbackup.Text.{bytes_eq, trim_space}
use openbackup.Text.Lemmas.{bytes_eq-eq, bytes_eq_refl}
use openbackup.Store.Paths.{slash, normalize_path}
use openbackup.Store.Tree.{TreeQuery, precedes, in_prefix, starts, instr, lower_ascii, selects}

-- The prefix itself, or what stands behind the prefix and a slash. No prefix is the whole tree.
abbrev pub Below : Bytes → Bytes → Type 0
Below prefix path =
    (prefix ≡ []) ⊎ (path ≡ prefix) ⊎ ((rest : Bytes) × (path ≡ prefix ++ b'/' ∷ rest))

between :
    (prefix path : Bytes)
    → precedes path (prefix ++ slash ∷ []) ≡ false
    → precedes path (prefix ++ b'0' ∷ []) ≡ true
    → (rest : Bytes) × (path ≡ prefix ++ b'/' ∷ rest)
between [] [] h k = cc
between [] (c ∷ s) h k = (s, ap (λ d. d ∷ s) (at (Bool-cases (c == b'/'))))
  where
    at : ((c == b'/') ≡ true) ⊎ ((c == b'/') ≡ false) → c ≡ b'/'
    at (inl e) = ground arith
    at (inr e) = let low = precedes-nil s in absurd (ground arith)
      where
        precedes-nil : (s : Bytes) → precedes s [] ≡ false
        precedes-nil [] = refl
        precedes-nil (d ∷ s) = refl
between (d ∷ p) [] h k = cc
between (d ∷ p) (c ∷ s) h k =
    let same : c ≡ d = ground arith in
    let (rest, e) = between p s (ground arith) (ground arith) in
    (rest, ap (λ x. x ∷ s) same ∙ ap (λ l. d ∷ l) e)

behind-slash :
    (prefix rest : Bytes)
    → (precedes (prefix ++ b'/' ∷ rest) (prefix ++ slash ∷ []) ≡ false)
      × (precedes (prefix ++ b'/' ∷ rest) (prefix ++ b'0' ∷ []) ≡ true)
behind-slash [] [] = (refl, refl)
behind-slash [] (c ∷ rest) = (refl, refl)
behind-slash (d ∷ p) rest = let (a, b) = behind-slash p rest in (ground arith, ground arith)

in_prefix_iff : (prefix path : Bytes) → (in_prefix prefix path ≡ true) ↔ Below prefix path
unfolding in_prefix
in_prefix_iff [] path = (λ h. inl refl, λ b. refl)
in_prefix_iff (c ∷ p) path = (to, from)
  where
    to : in_prefix (c ∷ p) path ≡ true → Below (c ∷ p) path
    to h = at (Bool-cases (bytes_eq path (c ∷ p)))
      where
        at : (bytes_eq path (c ∷ p) ≡ true) ⊎ (bytes_eq path (c ∷ p) ≡ false) → Below (c ∷ p) path
        at (inl e) = inr (inl (bytes_eq-eq path (c ∷ p) e))
        at (inr e) = inr (inr (between (c ∷ p) path (ground arith) (ground arith)))

    from : Below (c ∷ p) path → in_prefix (c ∷ p) path ≡ true
    from (inl e) = cc
    from (inr (inl e)) =
        let t : bytes_eq path (c ∷ p) ≡ true =
          subst (λ x. bytes_eq x (c ∷ p) ≡ true) (sym e) (bytes_eq_refl (c ∷ p)) in
        ground arith
    from (inr (inr (rest, e))) =
        let (a, b) = behind-slash (c ∷ p) rest in
        subst (λ x. in_prefix (c ∷ p) x ≡ true) (sym e) (ground arith)

abbrev IsUpper : ℕ → Type 0
IsUpper c = (65 ≤ c) × (c ≤ 90)

-- The same byte, or the same ASCII letter in two cases
abbrev pub SameLetter : ℕ → ℕ → Type 0
SameLetter c d = (c ≡ d) ⊎ (IsUpper c × (d ≡ c + 32)) ⊎ (IsUpper d × (c ≡ d + 32))

abbrev pub Alike : Bytes → Bytes → Type 0
Alike [] [] = Unit
Alike [] (d ∷ t) = ⊥
Alike (c ∷ s) [] = ⊥
Alike (c ∷ s) (d ∷ t) = SameLetter c d × Alike s t

-- Somewhere in the text stands the needle, in upper or lower case.
abbrev pub Contains : Bytes → Bytes → Type 0
Contains needle s =
    (before found after : Bytes) × (s ≡ before ++ found ++ after) × Alike needle found

lower_ascii_iff : (c d : ℕ) → ((lower_ascii c == lower_ascii d) ≡ true) ↔ SameLetter c d
lower_ascii_iff c d = (λ h. ground arith, λ h. ground arith)

abbrev Begins : Bytes → Bytes → Type 0
Begins n s =
    (starts (map lower_ascii n) (map lower_ascii s) ≡ true)
    ↔ ((found after : Bytes) × (s ≡ found ++ after) × Alike n found)

starts_iff : (n s : Bytes) → Begins n s
starts_iff [] s = (λ h. ([], s, refl, tt), λ x. refl)
starts_iff (c ∷ n) [] = (λ h. cc, λ (found, after, e, a). none_left found after e a)
  where
    none_left :
        (found after : Bytes)
        → [] ≡ found ++ after
        → Alike (c ∷ n) found
        → starts (map lower_ascii (c ∷ n)) [] ≡ true
    none_left [] after e a = absurd a
    none_left (d ∷ found) after e a = cc
starts_iff (c ∷ n) (d ∷ s) =
    let ih = starts_iff n s in (to ih, λ (found, after, e, a). from ih found after e a)
  where
    to :
        Begins n s
        → starts (map lower_ascii (c ∷ n)) (map lower_ascii (d ∷ s)) ≡ true
        → (found after : Bytes) × (d ∷ s ≡ found ++ after) × Alike (c ∷ n) found
    to ih h =
        let (found, after, e, a) = ih.0 (ground arith) in
        (d ∷ found, after, ap (λ l. d ∷ l) e, ((lower_ascii_iff c d).0 (ground arith), a))

    from :
        Begins n s
        → (found after : Bytes) → d ∷ s ≡ found ++ after
        → Alike (c ∷ n) found
        → starts (map lower_ascii (c ∷ n)) (map lower_ascii (d ∷ s)) ≡ true
    from ih [] after e a = absurd a
    from ih (x ∷ found) after e (b, a) =
        let same : x ≡ d = cc in
        let rest : s ≡ found ++ after = cc in
        let first = (lower_ascii_iff c d).1 (subst (SameLetter c) same b) in
        let others = ih.1 (found, after, rest, a) in ground arith

abbrev Finds : Bytes → Bytes → Type 0
Finds n s = (instr (map lower_ascii n) (map lower_ascii s) ≡ true) ↔ Contains n s

instr_iff : (n s : Bytes) → Finds n s
unfolding instr
instr_iff n [] = (
  λ h. let (found, after, e, a) = (starts_iff n []).0 h in ([], found, after, e, a),
  λ (before, found, after, e, a). at before found after e a,
)
  where
    at :
        (before found after : Bytes)
        → [] ≡ before ++ found ++ after
        → Alike n found
        → starts (map lower_ascii n) [] ≡ true
    at [] found after e a = (starts_iff n []).1 (found, after, e, a)
    at (x ∷ before) found after e a = cc
instr_iff n (c ∷ s) = (
  λ h. to (instr_iff n s) h (Bool-cases (starts (map lower_ascii n) (map lower_ascii (c ∷ s)))),
  λ (before, found, after, e, a). from (instr_iff n s) before found after e a,
)
  where
    to :
        Finds n s
        → instr (map lower_ascii n) (map lower_ascii (c ∷ s)) ≡ true
        → (starts (map lower_ascii n) (map lower_ascii (c ∷ s)) ≡ true)
          ⊎ (starts (map lower_ascii n) (map lower_ascii (c ∷ s)) ≡ false)
        → Contains n (c ∷ s)
    to ih h (inl k) =
        let (found, after, e, a) = (starts_iff n (c ∷ s)).0 k in ([], found, after, e, a)
    to ih h (inr k) =
        let (before, found, after, e, a) = ih.0 (ground arith) in
        (c ∷ before, found, after, ap (λ l. c ∷ l) e, a)

    from :
        Finds n s
        → (before found after : Bytes) → c ∷ s ≡ before ++ found ++ after
        → Alike n found
        → instr (map lower_ascii n) (map lower_ascii (c ∷ s)) ≡ true
    from ih [] found after e a =
        let t = (starts_iff n (c ∷ s)).1 (found, after, e, a) in ground arith
    from ih (x ∷ before) found after e a =
        let rest : s ≡ before ++ found ++ after = cc in
        let t = ih.1 (before, found, after, rest, a) in ground arith

-- strings.ToLower changes ASCII letters only, as on a query of ASCII text.
abbrev pub LowersAscii : (Bytes → Bytes) → TreeQuery → Type 0
LowersAscii to_lower q = to_lower (trim_space q.query) ≡ map lower_ascii (trim_space q.query)

pub selects_iff :
    (to_lower : Bytes → Bytes) (q : TreeQuery) (path : Bytes)
    → LowersAscii to_lower q
    → (selects to_lower q path ≡ true) ↔ (
        (precedes q.cursor path ≡ true)
        × Below (normalize_path q.prefix) path
        × Contains (trim_space q.query) path)
unfolding selects
selects_iff to_lower q path low = rw low (
  λ h. (
    ground arith,
    (in_prefix_iff (normalize_path q.prefix) path).0 (ground arith),
    found (trim_space q.query) (ground arith),
  ),
  λ (c, b, k).
      let inside = (in_prefix_iff (normalize_path q.prefix) path).1 b in
      let hit = (instr_iff (trim_space q.query) path).1 k in ground arith,
)
  where
    found :
        (n : Bytes)
        → (is_empty (map lower_ascii n) || instr (map lower_ascii n) (map lower_ascii path)) ≡ true
        → Contains n path
    found [] h = ([], [], path, refl, tt)
    found (c ∷ n) h = (instr_iff (c ∷ n) path).0 h
