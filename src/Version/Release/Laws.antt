-- ===== src/Version/Release/Laws.antt =====
-- internal/version/release.go: a release is cut exactly for a version newer than all released ones.
use Prim.Native.Nat.{Ordering}
use openbackup.Prelude.{
  ◌≡◌, subst, ◌↔◌, inl, inr, Bool, false, Bytes, List, [], ◌∷◌, Option, none, some, arith,
  if◌then◌else◌, All,
}
use openbackup.Prelude.Result.{Result, ok, err}
use openbackup.Version.{SemVer, VersionError, compare_versions, parse, highest}
use openbackup.Version.Order.Laws.{compare_versions-IsPreorder}
use openbackup.Version.Order.Highest.{CoversParsed, Among, ParsedFrom, highest_greatest, ◌≼◌}
use openbackup.Version.Release.{decide_release, pr_ok, pr_warn, pr_fail, check_pull_request}

-- `current` is newer than what a candidate parses to, if it parses.
abbrev pub NewerThan : SemVer → Result VersionError SemVer → Type 0
NewerThan current (err _) = Unit
NewerThan current (ok v) = compare_versions current v ≡ Ordering.gt

abbrev IsReleased : SemVer → Option SemVer → Type 0
IsReleased current none = Unit
IsReleased current (some best) = compare_versions current best ≡ Ordering.gt

newer_than_covered :
    (current best v : SemVer)
    → compare_versions current best ≡ Ordering.gt
    → v ≼ best
    → compare_versions current v ≡ Ordering.gt
newer_than_covered current best v h k = ground (
  arith,
  compare_versions-IsPreorder.trans v best current,
  compare_versions-IsPreorder.cong v best current,
  compare_versions-IsPreorder.flipped v best,
  compare_versions-IsPreorder.flipped current best,
  compare_versions-IsPreorder.flipped current v,
)

NewerThan-parsed :
    (current : SemVer) (top : Option SemVer) (r : Result VersionError SemVer)
    → IsReleased current top
    → CoversParsed top r
    → NewerThan current r
NewerThan-parsed current top (err e) h k = tt
NewerThan-parsed current none (ok v) h k = absurd k
NewerThan-parsed current (some best) (ok v) h k = newer_than_covered current best v h k

NewerThan-All :
    (current : SemVer) (top : Option SemVer) (cs : List Bytes)
    → IsReleased current top
    → All (λ c. CoversParsed top (parse c)) cs
    → All (λ c. NewerThan current (parse c)) cs
NewerThan-All current top [] h k = tt
NewerThan-All current top (c ∷ cs) h (k, ks) =
    (NewerThan-parsed current top (parse c) h k, NewerThan-All current top cs h ks)

NewerThan-one :
    (current best : SemVer) (cs : List Bytes)
    → ParsedFrom cs best
    → All (λ c. NewerThan current (parse c)) cs
    → compare_versions current best ≡ Ordering.gt
NewerThan-one current best [] h k = absurd h
NewerThan-one current best (c ∷ cs) (inl e) (k, ks) = subst (NewerThan current) e k
NewerThan-one current best (c ∷ cs) (inr h) (k, ks) = NewerThan-one current best cs h ks

IsReleased-of_All :
    (current : SemVer) (top : Option SemVer) (cs : List Bytes)
    → Among top cs
    → All (λ c. NewerThan current (parse c)) cs
    → IsReleased current top
IsReleased-of_All current none cs h k = tt
IsReleased-of_All current (some best) cs h k = NewerThan-one current best cs h k

skip_iff :
    (current : SemVer) (cs : List Bytes)
    → ((decide_release current cs).skip ≡ false) ↔ IsReleased current (highest cs)
unfolding decide_release
skip_iff current cs = ground arith

-- A release is cut exactly when VERSION.md is newer than every candidate tag that parses.
pub decide_release_iff :
    (current : SemVer) (cs : List Bytes)
    → ((decide_release current cs).skip ≡ false) ↔ All (λ c. NewerThan current (parse c)) cs
decide_release_iff current cs =
    let (covers, among) = highest_greatest cs in
    let (to, from) = skip_iff current cs in
    (
      λ h. NewerThan-All current (highest cs) cs (to h) covers,
      λ h. from (IsReleased-of_All current (highest cs) cs among h),
    )

-- The pull-request check and the release agree: the check passes exactly where a release will be
-- cut, and otherwise fails exactly where the version was changed.
pub check_pull_request-decide_release :
    (current : SemVer) (cs : List Bytes) (changed : Bool)
    → check_pull_request current cs changed
      ≡ (if (decide_release current cs).skip then (if changed then pr_fail else pr_warn) else pr_ok)
unfolding check_pull_request decide_release
check_pull_request-decide_release current cs changed = ground arith
