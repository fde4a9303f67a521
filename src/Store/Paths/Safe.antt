-- ===== src/Store/Paths/Safe.antt =====
-- internal/server/store/snapshots.go: a stored path stays below the root that it is restored to.
use openbackup.Prelude.{
  ◌≡◌, ◌≢◌, sym, ◌⊎◌, inl, inr, subst, Bool, true, false, ◌||◌, Bytes, List, [], ◌∷◌, none, some,
  map, arith, ◌==◌, if◌then◌else◌, Bool-cases, All, All-reverse, is_empty,
}
use openbackup.Text.{split, bytes_eq}
use openbackup.Text.Lemmas.{bytes_eq_refl}
use openbackup.Store.Paths.{
  slash, backslash, to_slash, trim_left, trim_slashes, bad_segment, any_segment, checked_path,
  clean_stored_path,
}

abbrev Slashed : Bytes → Type 0
Slashed p = All (λ c. (c == backslash) ≡ false) p

-- The components between slashes are not empty, not "." and not "..".
pub record IsName (s : Bytes) : Type 0 where
  pub named : s ≢ []
  pub not_here : s ≢ b'.' ∷ []
  pub not_up : s ≢ b'.' ∷ b'.' ∷ []

-- No component is empty, "." or "..", and no byte is a backslash.
pub record IsSafe (path : Bytes) : Type 0 where
  pub components : All IsName (split b'/' path)
  pub slashed : All (λ c. c ≢ 92) path

bytes_eq-ne : (s t : Bytes) → bytes_eq s t ≡ false → s ≢ t
bytes_eq-ne s t h e =
    let same : bytes_eq s s ≡ false = subst (λ x. bytes_eq s x ≡ false) (sym e) h in
    let true_too = bytes_eq_refl s in cc

bad_segment-IsName : (s : Bytes) → bad_segment s ≡ false → IsName s
bad_segment-IsName [] h = cc
bad_segment-IsName (c ∷ s) h = record {
  named = λ e. cc;
  not_here = bytes_eq-ne (c ∷ s) (b'.' ∷ []) (ground arith);
  not_up = bytes_eq-ne (c ∷ s) (b'.' ∷ b'.' ∷ []) (ground arith);
}

map-Slashed : (p : Bytes) → Slashed (map to_slash p)
map-Slashed [] = tt
map-Slashed (c ∷ p) = (ground arith, map-Slashed p)

trim_left-Slashed : (p : Bytes) → Slashed p → Slashed (trim_left p)
unfolding trim_left
trim_left-Slashed [] h = tt
trim_left-Slashed (c ∷ p) (e, h) = at (Bool-cases (c == slash)) (trim_left-Slashed p h)
  where
    at :
        ((c == slash) ≡ true) ⊎ ((c == slash) ≡ false)
        → Slashed (trim_left p)
        → Slashed (trim_left (c ∷ p))
    at (inl k) ih = rw (k, trim_left) ih
    at (inr k) ih = rw (k, trim_left) (e, h)

trim_slashes-Slashed : (p : Bytes) → Slashed p → Slashed (trim_slashes p)
unfolding trim_slashes
trim_slashes-Slashed p h =
    All-reverse _ _ (trim_left-Slashed _ (All-reverse _ _ (trim_left-Slashed p h)))

no_bad_segment : (ss : List Bytes) → any_segment bad_segment ss ≡ false → All IsName ss
no_bad_segment [] h = tt
no_bad_segment (s ∷ ss) h = (bad_segment-IsName s (ground arith), no_bad_segment ss (ground arith))

no_backslash : (p : Bytes) → Slashed p → All (λ c. c ≢ 92) p
no_backslash [] h = tt
no_backslash (c ∷ p) (e, h) = (λ q. ground arith, no_backslash p h)

checked_path-IsSafe : (p q : Bytes) → Slashed p → checked_path p ≡ some q → IsSafe q
checked_path-IsSafe p q h e =
    at (is_empty p || bytes_eq p (b'.' ∷ [])) (Bool-cases (any_segment bad_segment (split slash p)))
      e
  where
    some-injective : some p ≡ some q → p ≡ q
    some-injective k = cc

    none-ne : ¬ (none ≡ some q)
    none-ne k = cc

    at :
        (b : Bool)
        → (any_segment bad_segment (split slash p) ≡ true)
          ⊎ (any_segment bad_segment (split slash p) ≡ false)
        → (if b then none else if any_segment bad_segment (split slash p) then none else some p)
          ≡ some q
        → IsSafe q
    at true c k = absurd (none-ne k)
    at false (inl c) k = absurd (none-ne (rw c at k))
    at false (inr c) k =
        subst IsSafe (some-injective (rw c at k))
          (record { components = no_bad_segment (split slash p) c; slashed = no_backslash p h })

-- A path that the server accepts is safe to restore below a directory.
pub clean_stored_path-IsSafe : (p q : Bytes) → clean_stored_path p ≡ some q → IsSafe q
unfolding clean_stored_path
clean_stored_path-IsSafe p q e =
    checked_path-IsSafe (trim_slashes (map to_slash p)) q
      (trim_slashes-Slashed (map to_slash p) (map-Slashed p)) e
