-- ===== src/Version/Release.antt =====
-- internal/version/release.go: what the release workflow does with VERSION.md. The messages, built
-- by fmt from the same versions, are left out.
pub mod Laws
use openbackup.Prelude.{Bool, true, false, Bytes, List, Option, none, some, if◌then◌else◌}
use openbackup.Version.{SemVer, compare_versions, is_gt, highest, to_string, tag, product}

pub record Decision : Type 0 where
  pub skip : Bool
  pub version : Bytes
  pub tag : Bytes
  pub product : Bytes

unfoldable pub decide_release : SemVer → List Bytes → Decision
decide_release current candidates =
    let d : Decision = record {
      skip = false;
      version = to_string current;
      tag = tag current;
      product = product current;
    } in
    elim (highest candidates) [
      | none ↦ d
      | some best ↦ if is_gt (compare_versions current best) then d else record d { skip = true }
    ]

pub data PrStatus : Type 0 where
  pr_ok pr_warn pr_fail : PrStatus

-- The status of a pull request; its message is left out.
unfoldable pub check_pull_request : SemVer → List Bytes → Bool → PrStatus
check_pull_request current candidates version_changed = elim (highest candidates) [
  | none ↦ pr_ok
  | some best ↦
      if is_gt (compare_versions current best)
      then pr_ok
      else if version_changed
      then pr_fail
      else pr_warn
]
