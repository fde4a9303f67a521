-- ===== src/Maintenance/Plan/Window.antt =====
-- internal/server/maintenance/plan.go: without daily, weekly or monthly counts the window decides.
use openbackup.Prelude.{
  ℕ, ◌*◌, ◌-◌, ◌≤◌, ◌≡◌, ◌⊎◌, inl, inr, refl, sym, ap, subst, ◌∙◌, Bool, true, false, String, List,
  [], ◌∷◌, arith, str_eq, eq_iff, ltb, ◌==◌, not, ◌&&◌, ◌||◌,
}
use openbackup.Prelude.Sets.{has, In, In-select}
use openbackup.Maintenance.Plan.{
  Row, rows_of, devices, Buckets, no_buckets, ns_of_day, ns_of_ms, too_old, has_counts, visit,
  device_loop, plan_device, devices_loop, plan_retention,
}
use openbackup.Maintenance.Plan.Marking.{mark_kept-has}
use openbackup.Maintenance.Plan.Kept.{device_loop-Extends, devices_loop-Extends, devices-In}

young :
    (now days : ℕ) (r : Row)
    → (days ≡ 0) ⊎ (now - r.started * ns_of_ms ≤ days * ns_of_day)
    → (ltb 0 days && too_old now days r) ≡ false
unfolding too_old
young now days r (inl e) = ground arith
young now days r (inr h) = ground arith

zero_days : (days : ℕ) (old : Bool) → (ltb 0 days && old) ≡ false → (days == 0 || not old) ≡ true
zero_days days old h = ground arith

visit-in_window :
    (now : ℕ) (policy : Row) (first : Bool) (r : Row) (b : Buckets)
    → has_counts policy ≡ false
    → (policy.retention_days ≡ 0) ⊎ (now - r.started * ns_of_ms ≤ policy.retention_days * ns_of_day)
    → (visit now policy first r b).takes ≡ true
unfolding visit
visit-in_window now policy first r b none within =
    let y = young now policy.retention_days r within in
    let z = zero_days policy.retention_days (too_old now policy.retention_days r) y in ground arith

module _ (now : ℕ) (all : List Row) (policy r : Row) (named : str_eq r.id "" ≡ false)
    (taken : (first : Bool) (b : Buckets) → (visit now policy first r b).takes ≡ true) where
  device_loop-taken :
      (first : Bool) (rs : List Row) (b : Buckets) (keep : List String)
      → In r rs
      → has r.id (device_loop now all policy first rs b keep) ≡ true
  unfolding device_loop
  device_loop-taken first [] b keep i = absurd i
  device_loop-taken first (x ∷ rs) b keep (inr i) = device_loop-taken false rs _ _ i
  device_loop-taken first (x ∷ rs) b keep (inl e) =
      subst (λ (y : Row). has r.id (device_loop now all policy first (y ∷ rs) b keep) ≡ true)
        (sym e)
        (device_loop-Extends now all policy false rs _ _ r.id
          (rw (taken first b) (mark_kept-has all 999 r.id keep named)))

  devices_loop-taken :
      (ds : List String) (keep : List String) (ps : List Row)
      → In r.device ds
      → rows_of r.device all ≡ policy ∷ ps
      → In r (policy ∷ ps)
      → has r.id (devices_loop now all ds keep) ≡ true
  unfolding devices_loop
  devices_loop-taken [] keep ps i e j = absurd i
  devices_loop-taken (d ∷ ds) keep ps (inr i) e j = devices_loop-taken ds _ ps i e j
  devices_loop-taken (d ∷ ds) keep ps (inl q) e j = devices_loop-Extends now all ds _ r.id (
      subst (λ l. has r.id (plan_device now all l keep) ≡ true)
        (sym (ap (λ y. rows_of y all) q ∙ e))
        (device_loop-taken true (policy ∷ ps) no_buckets keep j))

-- Where the account sets no counts, every row that is not older than the window is kept, and every
-- row where the window is 0 days; the first row of the device carries the account's settings.
pub plan_retention-window :
    (rows : List Row) (now : ℕ) (r policy : Row) (ps : List Row)
    → In r rows
    → str_eq r.id "" ≡ false
    → rows_of r.device rows ≡ policy ∷ ps
    → has_counts policy ≡ false
    → (policy.retention_days ≡ 0) ⊎ (now - r.started * ns_of_ms ≤ policy.retention_days * ns_of_day)
    → has r.id (plan_retention rows now) ≡ true
unfolding plan_retention
plan_retention-window rows now r policy ps i n e none within =
    devices_loop-taken now rows policy r n takes (devices [] rows) [] ps
      (devices-In now rows rows [] r i refl) e
      (subst (In r) e (
        In-select (λ (x : Row). str_eq x.device r.device) r rows ((eq_iff r.device r.device).1 refl)
          i))
  where
    takes : (first : Bool) (b : Buckets) → (visit now policy first r b).takes ≡ true
    takes first b = visit-in_window now policy first r b none within
