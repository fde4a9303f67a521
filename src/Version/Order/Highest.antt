-- ===== src/Version/Order/Highest.antt =====
-- internal/version/semver.go, `Highest`: the greatest of the candidates that parse.
use Prim.Native.Nat.{Ordering}
use openbackup.Prelude.{
  ◌≡◌, ◌≢◌, ◌⊎◌, inl, inr, refl, sym, ◌∙◌, subst, Bytes, List, [], ◌∷◌, Option, none, some, arith,
  if◌then◌else◌, if_cases, All,
}
use openbackup.Prelude.Result.{Result, ok, err}
use openbackup.Version.{
  SemVer, VersionError, compare_versions, parse, better, is_gt, highest_from, highest,
}
use openbackup.Version.Order.Laws.{compare_versions-IsPreorder}

infix 50 ◌≼◌
abbrev pub ◌≼◌ : SemVer → SemVer → Type 0
v ≼ w = compare_versions v w ≢ Ordering.gt

≼-refl : (v : SemVer) → v ≼ v
≼-refl v = ground (arith, compare_versions-IsPreorder.flipped v v)

pub ≼-trans : (u v w : SemVer) → u ≼ v → v ≼ w → u ≼ w
≼-trans u v w h k = ground (
  arith,
  compare_versions-IsPreorder.trans u v w,
  compare_versions-IsPreorder.cong u v w,
  compare_versions-IsPreorder.cong v w u,
  compare_versions-IsPreorder.flipped u v,
  compare_versions-IsPreorder.flipped v w,
  compare_versions-IsPreorder.flipped u w,
)

-- `top` is there and not older than `v`.
abbrev pub Covers : Option SemVer → SemVer → Type 0
Covers none v = ⊥
Covers (some w) v = v ≼ w

-- `top` covers what a candidate parses to, if it parses.
abbrev pub CoversParsed : Option SemVer → Result VersionError SemVer → Type 0
CoversParsed top (err _) = Unit
CoversParsed top (ok v) = Covers top v

abbrev CoversBest : Option SemVer → Option SemVer → Type 0
CoversBest top none = Unit
CoversBest top (some v) = Covers top v

Covers-trans :
    (top best : Option SemVer) (v : SemVer) → CoversBest top best → Covers best v → Covers top v
Covers-trans none none v h k = k
Covers-trans none (some b) v h k = h
Covers-trans (some t) none v h k = absurd k
Covers-trans (some t) (some b) v h k = ≼-trans v b t k h

CoversParsed-trans :
    (top best : Option SemVer) (r : Result VersionError SemVer)
    → CoversBest top best
    → CoversParsed best r
    → CoversParsed top r
CoversParsed-trans top best (err e) h k = tt
CoversParsed-trans top best (ok v) h k = Covers-trans top best v h k

CoversBest-trans :
    (top mid best : Option SemVer) → CoversBest top mid → CoversBest mid best → CoversBest top best
CoversBest-trans top mid none h k = tt
CoversBest-trans top mid (some v) h k = Covers-trans top mid v h k

CoversBest-refl : (best : Option SemVer) → CoversBest best best
CoversBest-refl none = tt
CoversBest-refl (some v) = ≼-refl v

-- One round covers the old best and the new candidate.
better-Covers :
    (best : Option SemVer) (r : Result VersionError SemVer)
    → CoversBest (better best r) best × CoversParsed (better best r) r
better-Covers none (err e) = (tt, tt)
better-Covers (some b) (err e) = (≼-refl b, tt)
better-Covers none (ok v) = (tt, ≼-refl v)
better-Covers (some b) (ok v) = pick (compare_versions v b) refl
  where
    pick :
        (o : Ordering)
        → compare_versions v b ≡ o
        → CoversBest (if is_gt o then some v else some b) (some b)
          × CoversParsed (if is_gt o then some v else some b) (ok v)
    pick Ordering.gt e = (ground (arith, compare_versions-IsPreorder.flipped v b), ≼-refl v)
    pick Ordering.eq e = (≼-refl b, ground arith)
    pick Ordering.lt e = (≼-refl b, ground arith)

-- `v` is what one of the candidates parses to.
abbrev pub ParsedFrom : List Bytes → SemVer → Type 0
ParsedFrom [] v = ⊥
ParsedFrom (c ∷ cs) v = (parse c ≡ ok v) ⊎ ParsedFrom cs v

abbrev pub Among : Option SemVer → List Bytes → Type 0
Among none cs = Unit
Among (some v) cs = ParsedFrom cs v

highest_from-Covers :
    (best : Option SemVer) (cs : List Bytes)
    → CoversBest (highest_from best cs) best
      × All (λ c. CoversParsed (highest_from best cs) (parse c)) cs
unfolding highest_from
highest_from-Covers best [] = (CoversBest-refl best, tt)
highest_from-Covers best (c ∷ cs) =
    let (old, new) = better-Covers best (parse c) in
    let (mid, all) = highest_from-Covers (better best (parse c)) cs in
    let top = highest_from (better best (parse c)) cs in
    (
      CoversBest-trans top (better best (parse c)) best mid old,
      (CoversParsed-trans top (better best (parse c)) (parse c) mid new, all),
    )

-- The best is the one that the loop began with, or comes from a candidate.
abbrev FromBest : Option SemVer → Option SemVer → List Bytes → Type 0
FromBest top best cs = (top ≡ best) ⊎ Among top cs

better-FromBest :
    (best : Option SemVer) (c : Bytes) (r : Result VersionError SemVer)
    → parse c ≡ r
    → FromBest (better best r) best (c ∷ [])
better-FromBest none c (err e) h = inl refl
better-FromBest (some b) c (err e) h = inl refl
better-FromBest none c (ok v) h = inr (inl h)
better-FromBest (some b) c (ok v) h =
    if_cases (λ top. FromBest top (some b) (c ∷ [])) (is_gt (compare_versions v b)) _ _
      (λ _. inr (inl h)) (λ _. inl refl)

Among-later :
    (top : Option SemVer) (c : Bytes) (cs : List Bytes) → Among top cs → Among top (c ∷ cs)
Among-later none c cs h = tt
Among-later (some v) c cs h = inr h

Among-first :
    (top : Option SemVer) (c : Bytes) (cs : List Bytes) → Among top (c ∷ []) → Among top (c ∷ cs)
Among-first none c cs h = tt
Among-first (some v) c cs (inl h) = inl h
Among-first (some v) c cs (inr h) = absurd h

highest_from-FromBest :
    (best : Option SemVer) (cs : List Bytes) → FromBest (highest_from best cs) best cs
unfolding highest_from
highest_from-FromBest best [] = inl refl
highest_from-FromBest best (c ∷ cs) =
    join_steps (better-FromBest best c (parse c) refl)
      (highest_from-FromBest (better best (parse c)) cs)
  where
    join_steps :
        FromBest (better best (parse c)) best (c ∷ [])
        → FromBest (highest_from (better best (parse c)) cs) (better best (parse c)) cs
        → FromBest (highest_from (better best (parse c)) cs) best (c ∷ cs)
    join_steps old (inr new) = inr (Among-later _ c cs new)
    join_steps (inl same) (inl e) = inl (e ∙ same)
    join_steps (inr new) (inl e) =
        inr (Among-first _ c cs (subst (λ top. Among top (c ∷ [])) (sym e) new))

-- What `highest` returns is one of the candidates and not older than any that parses; it returns
-- nothing only where none parses.
pub highest_greatest :
    (cs : List Bytes) → All (λ c. CoversParsed (highest cs) (parse c)) cs × Among (highest cs) cs
unfolding highest
highest_greatest cs = ((highest_from-Covers none cs).1, from_none (highest_from-FromBest none cs))
  where
    from_none : FromBest (highest_from none cs) none cs → Among (highest_from none cs) cs
    from_none (inl e) = subst (λ top. Among top cs) (sym e) tt
    from_none (inr h) = h
