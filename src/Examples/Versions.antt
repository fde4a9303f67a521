-- ===== src/Examples/Versions.antt =====
-- internal/version: runs on a few tags.
use openbackup.Prelude.{◌≡◌, ◌↔◌, inl, refl, false, Bytes, List, [], ◌∷◌, arith, codes, All}
use openbackup.Prelude.Result.{ok}
use openbackup.Version.{SemVer, parse, to_string, tag}
use openbackup.Version.RoundTrip.{parse-to_string}
use openbackup.Version.RoundTrip.Numbers.{IsCanonical}
use openbackup.Version.Release.{decide_release}
use openbackup.Version.Release.Laws.{NewerThan, decide_release_iff}

abbrev release : SemVer
release = record { major = 1; minor = 4; patch = 0; pre = []; build = [] }

abbrev tags : List Bytes
tags = codes "v1.3.9" ∷ codes "v1.4.0-rc.1" ∷ codes "nightly" ∷ []

parse-to_string_example :
    (parse (to_string release) ≡ ok release) × (parse (tag release) ≡ ok release)
parse-to_string_example = parse-to_string release canonical
  where
    canonical : IsCanonical release
    canonical = record {
      major_fits = omega arith;
      minor_fits = omega arith;
      patch_fits = omega arith;
      pre_valid = refl;
      build_valid = inl refl;
    }

decide_release_iff_example :
    ((decide_release release tags).skip ≡ false) ↔ All (λ c. NewerThan release (parse c)) tags
decide_release_iff_example = decide_release_iff release tags
