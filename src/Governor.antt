-- ===== src/Governor.antt =====
-- internal/agent/governor/governor.go: when the agent may work. The probes of the platform are the
-- argument `Readings`, and the clock is `now`, in nanoseconds, one reading for each call.
pub mod Verdict
use openbackup.Prelude.{
  ℕ, ◌+◌, ◌-◌, Bool, true, false, not, ◌&&◌, ◌||◌, Option, none, some, ltb, ◌==◌, if◌then◌else◌,
}

pub record BatteryState : Type 0 where
  pub present : Bool
  pub charging : Bool
  pub percent : Option ℕ

-- What the probe reads; an unknown value, -1 in the code, is `none`. The CPU load is in whatever
-- unit its limit is in: the code only compares the two.
pub record Readings : Type 0 where
  pub cpu : Option ℕ
  pub battery : BatteryState
  pub metered : Bool
  pub fullscreen : Bool

-- config.Limits, as far as the governor reads it; a zero switches a threshold off.
pub record Limits : Type 0 where
  pub pause_while_fullscreen : Bool
  pub pause_on_metered : Bool
  pub pause_on_battery : Bool
  pub min_battery_percent : ℕ
  pub max_cpu_percent : ℕ

pub data Reason : Type 0 where
  no_reason paused_by_you : Reason
  snoozed : ℕ → Reason
  fullscreen_app metered_network on_battery : Reason
  battery_low : ℕ → ℕ → Reason
  machine_busy : ℕ → Reason

pub record State : Type 0 where
  pub allowed : Bool
  pub reason : Reason
  pub readings : Readings

abbrev no_battery : BatteryState
no_battery = record { present = false; charging = false; percent = some 0 }

abbrev pub no_readings : Readings
no_readings = record { cpu = some 0; battery = no_battery; metered = false; fullscreen = false }

-- The zero State with a reason
abbrev pub denied : Reason → State
denied r = record { allowed = false; reason = r; readings = no_readings }

-- A zero time is `none`.
pub record Governor : Type 0 where
  pub limits : Limits
  pub last : State
  pub last_at : Option ℕ
  pub manual_pause : Bool
  pub pause_until : Option ℕ

-- Five seconds
abbrev pub cache_ttl : ℕ
cache_ttl = 5000000000

abbrev pub new : Limits → Governor
new limits = record {
  limits = limits;
  last = denied no_reason;
  last_at = none;
  manual_pause = false;
  pause_until = none;
}

abbrev pub set_limits : Governor → Limits → Governor
set_limits g limits = record g { limits = limits; last_at = none }

abbrev pub pause : Governor → Governor
pause g = record g { manual_pause = true }

abbrev pub pause_for : Governor → ℕ → ℕ → Governor
pause_for g now d = record g { pause_until = some (now + d) }

abbrev pub resume : Governor → Governor
resume g = record g { manual_pause = false; pause_until = none }

abbrev pub before : ℕ → Option ℕ → Bool
before now none = false
before now (some t) = ltb now t

unfoldable pub paused : Governor → ℕ → Bool
paused g now = g.manual_pause || before now g.pause_until

abbrev has_reason : Reason → Bool
has_reason no_reason = false
has_reason _ = true

abbrev cpu_is_zero : Option ℕ → Bool
cpu_is_zero none = false
cpu_is_zero (some n) = n == 0

abbrev pub is_zero : State → Bool
is_zero s = not (has_reason s.reason) && not s.allowed && cpu_is_zero s.readings.cpu

abbrev pub recent : ℕ → Option ℕ → Bool
recent now none = false
recent now (some t) = ltb (now - t) cache_ttl

abbrev pub over_cpu : ℕ → Option ℕ → Bool
over_cpu limit none = false
over_cpu limit (some n) = ltb 0 limit && ltb limit n

abbrev pub below_floor : ℕ → Option ℕ → Bool
below_floor floor none = false
below_floor floor (some n) = ltb 0 floor && ltb n floor

abbrev or_zero : Option ℕ → ℕ
or_zero none = 0
or_zero (some n) = n

abbrev pub stop : Reason → Readings → State
stop reason r = record { allowed = false; reason = reason; readings = r }

-- The `switch`
unfoldable pub judge : Limits → Readings → State
judge l r =
    let on_its_own = r.battery.present && not r.battery.charging in
    if l.pause_while_fullscreen && r.fullscreen
    then stop fullscreen_app r
    else if l.pause_on_metered && r.metered
    then stop metered_network r
    else if on_its_own && l.pause_on_battery
    then stop on_battery r
    else if on_its_own && below_floor l.min_battery_percent r.battery.percent
    then stop (battery_low (or_zero r.battery.percent) l.min_battery_percent) r
    else if over_cpu l.max_cpu_percent r.cpu
    then stop (machine_busy (or_zero r.cpu)) r
    else record { allowed = true; reason = no_reason; readings = r }

abbrev left : ℕ → Option ℕ → ℕ
left now none = 0
left now (some t) = t - now

-- The verdict, and the governor with what it remembers
unfoldable pub evaluate : Governor → ℕ → Readings → State × Governor
evaluate g now r =
    if recent now g.last_at && not (is_zero g.last)
    then (if paused g now then denied paused_by_you else g.last, g)
    else if g.manual_pause
    then (denied paused_by_you, g)
    else if before now g.pause_until
    then (denied (snoozed (left now g.pause_until)), g)
    else (judge g.limits r, record g { last = judge g.limits r; last_at = some now })
