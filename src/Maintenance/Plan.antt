-- ===== src/Maintenance/Plan.antt =====
-- internal/server/maintenance/plan.go: `planRetention`. Times are in milliseconds since the epoch,
-- as the rows keep them, and `now` is in nanoseconds.
pub mod Marking
pub mod Keeping
pub mod Kept
pub mod Window
use openbackup.Prelude.{
  ℕ, zero, suc, ◌+◌, ◌-◌, ◌*◌, ◌/◌, Bool, true, false, not, ◌&&◌, ◌||◌, String, List, [], ◌∷◌,
  Option, none, some, ltb, ◌==◌, str_eq, if◌then◌else◌,
}
use openbackup.Prelude.Sets.{has, select}
use openbackup.Store.{Kind}

-- store.RetentionRow. The account's settings are never negative.
pub record Row : Type 0 where
  pub id : String
  pub user : String
  pub device : String
  pub kind : Kind
  pub parent : String
  pub started : ℕ
  pub pinned : Bool
  pub retention_days : ℕ
  pub keep_daily : ℕ
  pub keep_weekly : ℕ
  pub keep_monthly : ℕ

-- byID[id]: of two rows with one id the map holds the later.
unfoldable pub find_row : String → List Row → Option Row
find_row id [] = none
find_row id (r ∷ rs) = elim (find_row id rs) [
  | some later ↦ some later
  | none ↦ if str_eq r.id id then some r else none
]

abbrev pub max_hops : ℕ
max_hops = 1000

-- The loop of `markKept`: `keep` is the set, and `hops` what is left of the 1000.
unfoldable pub mark_kept : ℕ → List Row → String → List String → List String
mark_kept zero rows id keep = keep
mark_kept (suc hops) rows id keep = elim (str_eq id "" || has id keep) [
  | true ↦ keep
  | false ↦ elim (find_row id rows) [
    | none ↦ id ∷ keep
    | some r ↦ mark_kept hops rows r.parent (id ∷ keep)
  ]
]

-- The devices in the order of their first rows
unfoldable pub devices : List String → List Row → List String
devices seen [] = []
devices seen (r ∷ rs) =
    let rest = devices seen rs in
    let more = devices (r.device ∷ seen) rs in if has r.device seen then rest else r.device ∷ more

abbrev pub rows_of : String → List Row → List Row
rows_of device rows = select (λ (r : Row). str_eq r.device device) rows

-- A day, an ISO week (the epoch is a Thursday) and a month of the civil calendar, each as a number.
-- A month counts from the March of its year.
abbrev pub day_of : ℕ → ℕ
day_of ms = ms / 86400000

abbrev pub week_of : ℕ → ℕ
week_of ms = (day_of ms + 3) / 7

unfoldable pub month_of : ℕ → ℕ
month_of ms =
    let z = day_of ms + 719468 in
    let era = z / 146097 in
    let in_era = z - era * 146097 in
    let year = (in_era - in_era / 1460 + in_era / 36524 - in_era / 146096) / 365 in
    let in_year = in_era - (365 * year + year / 4 - year / 100) in
    (era * 400 + year) * 12 + (5 * in_year + 2) / 153

abbrev pub one_of : ℕ → List ℕ → Bool
one_of k [] = false
one_of k (x ∷ xs) = x == k || one_of k xs

-- One of the three pairs of a `seen` map and a `used` counter
pub record Slots : Type 0 where
  pub seen : List ℕ
  pub used : ℕ

abbrev pub no_slots : Slots
no_slots = record { seen = []; used = 0 }

pub record Claim : Type 0 where
  pub takes : Bool
  pub slots : Slots

unfoldable pub claim : ℕ → ℕ → Slots → Claim
claim limit key s =
    if limit == 0 || one_of key s.seen
    then record { takes = false; slots = s }
    else if ltb s.used limit
    then record { takes = true; slots = record { seen = key ∷ s.seen; used = suc s.used } }
    else record { takes = false; slots = record { seen = key ∷ s.seen; used = s.used } }

pub record Buckets : Type 0 where
  pub days : Slots
  pub weeks : Slots
  pub months : Slots

abbrev pub no_buckets : Buckets
no_buckets = record { days = no_slots; weeks = no_slots; months = no_slots }

abbrev pub ns_of_ms : ℕ
ns_of_ms = 1000000

abbrev pub ns_of_day : ℕ
ns_of_day = 86400000000000

-- now.Sub(row.StartedAt) > window; a start in the future is no age.
unfoldable pub too_old : ℕ → ℕ → Row → Bool
too_old now days r = ltb (days * ns_of_day) (now - r.started * ns_of_ms)

abbrev pub has_counts : Row → Bool
has_counts policy = ltb 0 policy.keep_daily || ltb 0 policy.keep_weekly || ltb 0 policy.keep_monthly

pub record Visit : Type 0 where
  pub takes : Bool
  pub buckets : Buckets

-- One turn of the loop over a device's rows, up to the call of `markKept`.
unfoldable pub visit : ℕ → Row → Bool → Row → Buckets → Visit
visit now policy first r b =
    let forced = first || r.pinned in
    let expired = ltb 0 policy.retention_days && too_old now policy.retention_days r in
    let day = claim policy.keep_daily (day_of r.started) b.days in
    let week = claim policy.keep_weekly (week_of r.started) b.weeks in
    let month = claim policy.keep_monthly (month_of r.started) b.months in
    if not forced && expired
    then record { takes = false; buckets = b }
    else if has_counts policy
    then record {
      takes = forced || day.takes || week.takes || month.takes;
      buckets = record { days = day.slots; weeks = week.slots; months = month.slots };
    }
    else record {
      takes = forced || policy.retention_days == 0 || not (too_old now policy.retention_days r);
      buckets = b;
    }

unfoldable pub device_loop :
    ℕ → List Row → Row → Bool → List Row → Buckets → List String → List String
device_loop now all policy first [] b keep = keep
device_loop now all policy first (r ∷ rs) b keep =
    let v = visit now policy first r b in
    device_loop now all policy false rs v.buckets
      (if v.takes then mark_kept max_hops all r.id keep else keep)

-- The first row carries the policy.
abbrev pub plan_device : ℕ → List Row → List Row → List String → List String
plan_device now all [] keep = keep
plan_device now all (r ∷ rs) keep = device_loop now all r true (r ∷ rs) no_buckets keep

unfoldable pub devices_loop : ℕ → List Row → List String → List String → List String
devices_loop now all [] keep = keep
devices_loop now all (d ∷ ds) keep =
    devices_loop now all ds (plan_device now all (rows_of d all) keep)

unfoldable pub plan_retention : List Row → ℕ → List String
plan_retention rows now = devices_loop now rows (devices [] rows) []
