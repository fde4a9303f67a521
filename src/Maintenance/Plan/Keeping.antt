-- ===== src/Maintenance/Plan/Keeping.antt =====
-- internal/server/maintenance/plan.go: what each marking keeps true holds of the whole plan.
use openbackup.Prelude.{
  ℕ, ◌≡◌, inl, inr, refl, Bool, true, false, String, List, [], ◌∷◌, str_eq, if◌then◌else◌,
}
use openbackup.Prelude.Sets.{In, select-In}
use openbackup.Maintenance.Plan.{
  Row, max_hops, mark_kept, devices, rows_of, Buckets, no_buckets, visit, device_loop, plan_device,
  devices_loop, plan_retention,
}
use openbackup.Maintenance.Plan.Marking.{ends_within}

module _ (now : ℕ) (all : List Row) where
  -- The chain of each row ends before the marking stops.
  abbrev pub ChainsEnd : Type 0
  ChainsEnd = (r : Row) → In r all → ends_within max_hops all r.id ≡ true

  -- What each marking of a row keeps true holds of the whole plan.
  module _ (Holds : List String → Type 0)
      (marks : (r : Row) (keep : List String)
        → In r all
        → Holds keep
        → Holds (mark_kept max_hops all r.id keep)) where
    one_row-keeps :
        (b : Bool) (r : Row) (keep : List String)
        → In r all
        → Holds keep
        → Holds (if b then mark_kept max_hops all r.id keep else keep)
    one_row-keeps true r keep i h = marks r keep i h
    one_row-keeps false r keep i h = h

    device_loop-keeps :
        (policy : Row) (first : Bool) (rs : List Row) (b : Buckets) (keep : List String)
        → ((r : Row) → In r rs → In r all)
        → Holds keep
        → Holds (device_loop now all policy first rs b keep)
    unfolding device_loop
    device_loop-keeps policy first [] b keep e h = h
    device_loop-keeps policy first (r ∷ rs) b keep e h =
        device_loop-keeps policy false rs _ _ (λ x i. e x (inr i))
          (one_row-keeps (visit now policy first r b).takes r keep (e r (inl refl)) h)

    plan_device-keeps :
        (rs : List Row) (keep : List String)
        → ((r : Row) → In r rs → In r all)
        → Holds keep
        → Holds (plan_device now all rs keep)
    plan_device-keeps [] keep e h = h
    plan_device-keeps (r ∷ rs) keep e h = device_loop-keeps r true (r ∷ rs) no_buckets keep e h

    devices_loop-keeps :
        (ds : List String) (keep : List String) → Holds keep → Holds (devices_loop now all ds keep)
    unfolding devices_loop
    devices_loop-keeps [] keep h = h
    devices_loop-keeps (d ∷ ds) keep h = devices_loop-keeps ds _ (
        plan_device-keeps (rows_of d all) keep
          (λ r i. (select-In (λ (r : Row). str_eq r.device d) r all i).0) h)

    pub plan_retention-keeps : Holds [] → Holds (plan_retention all now)
    unfolding plan_retention
    plan_retention-keeps h = devices_loop-keeps (devices [] all) [] h
