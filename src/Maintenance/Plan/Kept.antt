-- ===== src/Maintenance/Plan/Kept.antt =====
-- internal/server/maintenance/plan.go: what the plan keeps, and that it keeps the parents of it.
use openbackup.Prelude.{
  ℕ, ◌≡◌, ◌⊎◌, inl, inr, refl, sym, ap, subst, ◌∙◌, Bool, true, false, ◌||◌, String, List, [], ◌∷◌,
  some, arith, str_eq, eq_iff, if◌then◌else◌, Bool-cases,
}
use mathlib.Core.Bool.{false≢true}
use openbackup.Prelude.Sets.{has, In, In-select}
use openbackup.Maintenance.Plan.{
  Row, find_row, max_hops, mark_kept, devices, rows_of, Buckets, no_buckets, visit, device_loop,
  plan_device, devices_loop, plan_retention,
}
use openbackup.Maintenance.Plan.Marking.{
  IsClosed, Extends, mark_kept-Extends, mark_kept-has, mark_kept-IsClosed, mark_kept-rows,
}
use openbackup.Maintenance.Plan.Keeping.{ChainsEnd, plan_retention-keeps}

module _ (now : ℕ) (all : List Row) where
  one_row-Extends :
      (b : Bool) (r : Row) (keep : List String)
      → Extends keep (if b then mark_kept max_hops all r.id keep else keep)
  one_row-Extends true r keep x h = mark_kept-Extends all max_hops r.id keep x h
  one_row-Extends false r keep x h = h

  pub device_loop-Extends :
      (policy : Row) (first : Bool) (rs : List Row) (b : Buckets) (keep : List String)
      → Extends keep (device_loop now all policy first rs b keep)
  unfolding device_loop
  device_loop-Extends policy first [] b keep x h = h
  device_loop-Extends policy first (r ∷ rs) b keep x h =
      device_loop-Extends policy false rs _ _ x
        (one_row-Extends (visit now policy first r b).takes r keep x h)

  visit-forced :
      (policy : Row) (first : Bool) (r : Row) (b : Buckets)
      → (first || r.pinned) ≡ true
      → (visit now policy first r b).takes ≡ true
  unfolding visit
  visit-forced policy first r b h = ground arith

  -- A row that is pinned is kept by its device's turn.
  device_loop-pinned :
      (policy : Row) (first : Bool) (rs : List Row) (b : Buckets) (keep : List String) (r : Row)
      → In r rs
      → r.pinned ≡ true
      → str_eq r.id "" ≡ false
      → has r.id (device_loop now all policy first rs b keep) ≡ true
  unfolding device_loop
  device_loop-pinned policy first [] b keep r i p n = absurd i
  device_loop-pinned policy first (x ∷ rs) b keep r (inr i) p n =
      device_loop-pinned policy false rs _ _ r i p n
  device_loop-pinned policy first (x ∷ rs) b keep r (inl e) p n =
      subst (λ (y : Row). has y.id (device_loop now all policy first (x ∷ rs) b keep) ≡ true) e
        (device_loop-Extends policy false rs _ _ x.id (
          rw (visit-forced policy first x b (forced x.pinned (ap (λ (y : Row). y.pinned) e ∙ p)))
            (mark_kept-has all 999 x.id keep (ap (λ (y : Row). str_eq y.id "") e ∙ n))))
    where
      forced : (q : Bool) → q ≡ true → (first || q) ≡ true
      forced q h = ground arith

  first_row-kept :
      (policy r : Row) (rs : List Row) (b : Buckets) (keep : List String)
      → str_eq r.id "" ≡ false
      → has r.id (device_loop now all policy true (r ∷ rs) b keep) ≡ true
  unfolding device_loop
  first_row-kept policy r rs b keep n =
      device_loop-Extends policy false rs _ _ r.id
        (rw (visit-forced policy true r b refl) (mark_kept-has all 999 r.id keep n))

  plan_device-Extends :
      (rs : List Row) (keep : List String) → Extends keep (plan_device now all rs keep)
  plan_device-Extends [] keep x h = h
  plan_device-Extends (r ∷ rs) keep x h = device_loop-Extends r true (r ∷ rs) no_buckets keep x h

  pub devices_loop-Extends :
      (ds : List String) (keep : List String) → Extends keep (devices_loop now all ds keep)
  unfolding devices_loop
  devices_loop-Extends [] keep x h = h
  devices_loop-Extends (d ∷ ds) keep x h =
      devices_loop-Extends ds _ x (plan_device-Extends (rows_of d all) keep x h)

  devices_loop-pinned :
      (ds : List String) (keep : List String) (r : Row)
      → In r.device ds
      → In r all
      → r.pinned ≡ true
      → str_eq r.id "" ≡ false
      → has r.id (devices_loop now all ds keep) ≡ true
  unfolding devices_loop
  devices_loop-pinned [] keep r i j p n = absurd i
  devices_loop-pinned (d ∷ ds) keep r (inr i) j p n = devices_loop-pinned ds _ r i j p n
  devices_loop-pinned (d ∷ ds) keep r (inl e) j p n =
      devices_loop-Extends ds _ r.id
        (of_device (rows_of d all) (In-select (λ (r : Row). str_eq r.device d) r all same j))
    where
      same : str_eq r.device d ≡ true
      same = (eq_iff r.device d).1 (sym e)

      of_device : (rs : List Row) → In r rs → has r.id (plan_device now all rs keep) ≡ true
      of_device [] i = absurd i
      of_device (x ∷ rs) i = device_loop-pinned x true (x ∷ rs) no_buckets keep r i p n

  -- Every device of a row is visited.
  pub devices-In :
      (rs : List Row) (seen : List String) (r : Row)
      → In r rs
      → has r.device seen ≡ false
      → In r.device (devices seen rs)
  unfolding devices
  devices-In [] seen r i h = absurd i
  devices-In (x ∷ rs) seen r i h =
      step (Bool-cases (str_eq x.device r.device)) (Bool-cases (has x.device seen)) i
        (λ s j. devices-In rs s r j)
    where
      step :
          (str_eq x.device r.device ≡ true) ⊎ (str_eq x.device r.device ≡ false)
          → (has x.device seen ≡ true) ⊎ (has x.device seen ≡ false)
          → In r (x ∷ rs)
          → ((s : List String) → In r rs → has r.device s ≡ false → In r.device (devices s rs))
          → In r.device (devices seen (x ∷ rs))
      step (inl e) c j ih =
          let d : x.device ≡ r.device = (eq_iff x.device r.device).0 e in
          rw (ap (λ y. has y seen) d ∙ h, devices) (inl d)
      step (inr e) c (inl q) ih =
          absurd (false≢true (sym e ∙ (eq_iff x.device r.device).1 (ap (λ (y : Row). y.device) q)))
      step (inr e) (inl k) (inr j) ih = rw (k, devices) (ih seen j h)
      step (inr e) (inr k) (inr j) ih = rw (k, devices) (inr (ih (x.device ∷ seen) j (rw e h)))

  devices_loop-newest :
      (ds : List String) (keep : List String) (d : String) (r : Row) (rs : List Row)
      → In d ds
      → rows_of d all ≡ r ∷ rs
      → str_eq r.id "" ≡ false
      → has r.id (devices_loop now all ds keep) ≡ true
  unfolding devices_loop
  devices_loop-newest [] keep d r rs i e n = absurd i
  devices_loop-newest (d' ∷ ds) keep d r rs (inr i) e n = devices_loop-newest ds _ d r rs i e n
  devices_loop-newest (d' ∷ ds) keep d r rs (inl q) e n = devices_loop-Extends ds _ r.id (
      subst (λ l. has r.id (plan_device now all l keep) ≡ true)
        (sym (ap (λ y. rows_of y all) q ∙ e)) (first_row-kept r r rs no_buckets keep n))

-- The plan keeps the parent of every row that it keeps, where each row's chain ends within 1000
-- snapshots.
pub plan_retention-IsClosed :
    (rows : List Row) (now : ℕ) → ChainsEnd now rows → IsClosed rows (plan_retention rows now)
plan_retention-IsClosed rows now e =
    plan_retention-keeps now rows (IsClosed rows)
      (λ r keep i h.
        mark_kept-IsClosed rows max_hops r.id keep (e r i) (λ x q j f. ground (arith, h x q j f)))
      (λ x r i. absurd (none_kept x i))
  where
    none_kept : (x : String) → ¬ (has x [] ≡ true)
    none_kept x q = cc

-- A pinned row is kept whatever its age and the account's counts are.
pub plan_retention-pinned :
    (rows : List Row) (now : ℕ) (r : Row)
    → In r rows
    → r.pinned ≡ true
    → str_eq r.id "" ≡ false
    → has r.id (plan_retention rows now) ≡ true
unfolding plan_retention
plan_retention-pinned rows now r i p n =
    devices_loop-pinned now rows (devices [] rows) [] r (devices-In now rows rows [] r i refl) i p n

-- The newest row of a device, the first of its rows, is kept however old it is.
pub plan_retention-newest :
    (rows : List Row) (now : ℕ) (r : Row) (rs : List Row)
    → In r rows
    → rows_of r.device rows ≡ r ∷ rs
    → str_eq r.id "" ≡ false
    → has r.id (plan_retention rows now) ≡ true
unfolding plan_retention
plan_retention-newest rows now r rs i e n =
    devices_loop-newest now rows (devices [] rows) [] r.device r rs
      (devices-In now rows rows [] r i refl) e n

-- The plan keeps ids of rows only, where the parent of a row is a row.
pub plan_retention-rows :
    (rows : List Row) (now : ℕ)
    → ((id : String) (r : Row)
        → find_row id rows ≡ some r
        → str_eq r.parent "" ≡ false
        → (q : Row) × (find_row r.parent rows ≡ some q))
    → ((r : Row) → In r rows → (q : Row) × (find_row r.id rows ≡ some q))
    → (x : String) → has x (plan_retention rows now) ≡ true
    → (q : Row) × (find_row x rows ≡ some q)
plan_retention-rows rows now based own =
    plan_retention-keeps now rows
      (λ keep. (x : String) → has x keep ≡ true → (q : Row) × (find_row x rows ≡ some q))
      (λ r keep i h. mark_kept-rows rows based max_hops r.id keep (λ n. own r i) h)
      (λ x h. absurd (none_kept x h))
  where
    none_kept : (x : String) → ¬ (has x [] ≡ true)
    none_kept x q = cc
