-- ===== src/Governor/Verdict.antt =====
-- internal/agent/governor/governor.go, `Evaluate`: what it allows, with and without the cache.
use openbackup.Prelude.{
  ℕ, ◌+◌, ◌<◌, ◌≤◌, ◌≡◌, ◌↔◌, ◌⊎◌, inl, inr, Bool-cases, refl, sym, ap, subst, ◌∙◌, true, false,
  not, ◌&&◌, Option, none, some, arith,
}
use openbackup.Governor.{
  Readings, Limits, State, Governor, cache_ttl, before, paused, is_zero, recent, over_cpu,
  below_floor, judge, evaluate,
}

-- No work is allowed while the user's pause or snooze lasts, whatever is cached or measured.
pub evaluate-paused :
    (g : Governor) (now : ℕ) (r : Readings)
    → paused g now ≡ true
    → (evaluate g now r).0.allowed ≡ false
unfolding evaluate paused
evaluate-paused g now r h = ground arith

-- The machine is left alone for none of the reasons that the limits name.
pub record IsQuiet (l : Limits) (r : Readings) : Type 0 where
  pub no_fullscreen : l.pause_while_fullscreen ≡ true → r.fullscreen ≡ false
  pub not_metered : l.pause_on_metered ≡ true → r.metered ≡ false
  pub powered : r.battery.present ≡ true → r.battery.charging ≡ false → l.pause_on_battery ≡ false
  pub charged :
      r.battery.present ≡ true → (n : ℕ) → r.battery.percent ≡ some n → l.min_battery_percent ≤ n
  pub not_busy : (n : ℕ) → r.cpu ≡ some n → (l.max_cpu_percent ≡ 0) ⊎ (n ≤ l.max_cpu_percent)

calm : (floor : ℕ) (p : Option ℕ) → ((n : ℕ) → p ≡ some n → floor ≤ n) → below_floor floor p ≡ false
calm floor none h = refl
calm floor (some n) h = ground (arith, h n refl)

cool :
    (limit : ℕ) (p : Option ℕ)
    → ((n : ℕ) → p ≡ some n → (limit ≡ 0) ⊎ (n ≤ limit))
    → over_cpu limit p ≡ false
cool limit none h = refl
cool limit (some n) h = ground (arith, h n refl)

-- While the battery charges, it is not below the floor: there the code and the comment on the limit
-- disagree.
abbrev pub ChargesAbove : Limits → Readings → Type 0
ChargesAbove l r =
    r.battery.charging ≡ true → (n : ℕ) → r.battery.percent ≡ some n → l.min_battery_percent ≤ n

judge_iff :
    (l : Limits) (r : Readings) → ChargesAbove l r → ((judge l r).allowed ≡ true) ↔ IsQuiet l r
unfolding judge
judge_iff l r above = (λ h. quiet h, λ q. allows q)
  where
    quiet : (judge l r).allowed ≡ true → IsQuiet l r
    quiet h = record {
      no_fullscreen = ground arith;
      not_metered = ground arith;
      powered = ground arith;
      charged = λ p n e. level (Bool-cases r.battery.charging) p n e h;
      not_busy = ground arith;
    }
      where
        level :
            (r.battery.charging ≡ true) ⊎ (r.battery.charging ≡ false)
            → r.battery.present ≡ true
            → (n : ℕ) → r.battery.percent ≡ some n
            → (judge l r).allowed ≡ true
            → l.min_battery_percent ≤ n
        level (inl c) p n e h = above c n e
        level (inr c) p n e h = ground arith

    allows : IsQuiet l r → (judge l r).allowed ≡ true
    allows q =
        let charged : r.battery.present ≡ true
            → r.battery.charging ≡ false
            → below_floor l.min_battery_percent r.battery.percent ≡ false =
          λ p c. calm l.min_battery_percent r.battery.percent (q.charged p) in
        let busy = cool l.max_cpu_percent r.cpu q.not_busy in
        let screen = q.no_fullscreen in
        let meter = q.not_metered in let power = q.powered in ground arith

-- A governor whose verdict is not cached allows work exactly where the user has not paused it and no
-- limit is breached: by a fullscreen program, a metered connection, a battery that drains, one that
-- is below its floor, or a busy processor. Charging batteries below the floor are left out.
pub evaluate_iff :
    (g : Governor) (now : ℕ) (r : Readings)
    → (recent now g.last_at && not (is_zero g.last)) ≡ false
    → ChargesAbove g.limits r
    → ((evaluate g now r).0.allowed ≡ true) ↔ ((paused g now ≡ false) × IsQuiet g.limits r)
unfolding evaluate paused
evaluate_iff g now r stale above = ground (arith, judge_iff g.limits r above)

-- While the battery charges, work is allowed exactly as on a machine without one, however low the
-- charge is.
pub judge-charging :
    (l : Limits) (r : Readings)
    → r.battery.charging ≡ true
    → (judge l r).allowed
      ≡ (judge l (record r {
        battery = record { present = false; charging = false; percent = none };
      })).allowed
unfolding judge
judge-charging l r h = ground arith

evaluate-fresh :
    (g : Governor) (now : ℕ) (r : Readings)
    → (recent now g.last_at && not (is_zero g.last)) ≡ false
    → paused g now ≡ false
    → evaluate g now r
      ≡ (judge g.limits r, record g { last = judge g.limits r; last_at = some now })
unfolding evaluate paused
evaluate-fresh g now r stale running =
    let manual : g.manual_pause ≡ false = ground arith in
    let snooze : before now g.pause_until ≡ false = ground arith in rw stale (rw manual (rw snooze))

evaluate-again :
    (g : Governor) (now : ℕ) (r : Readings)
    → (recent now g.last_at && not (is_zero g.last)) ≡ true
    → paused g now ≡ false
    → (evaluate g now r).0 ≡ g.last
unfolding evaluate
evaluate-again g now r cached running = rw cached (rw running)

-- Within the next five seconds the verdict of a measurement is given again, whatever the machine
-- does meanwhile, unless the user pauses.
pub evaluate-cached :
    (g : Governor) (now later : ℕ) (r r' : Readings)
    → (recent now g.last_at && not (is_zero g.last)) ≡ false
    → paused g now ≡ false
    → is_zero (evaluate g now r).0 ≡ false
    → now ≤ later
    → later < now + cache_ttl
    → paused g later ≡ false
    → (evaluate (evaluate g now r).1 later r').0 ≡ (evaluate g now r).0
unfolding paused
evaluate-cached g now later r r' stale running shown after soon quiet =
    let first = evaluate-fresh g now r stale running in
    let g' : Governor = record g { last = judge g.limits r; last_at = some now } in
    let zero : is_zero (judge g.limits r) ≡ false =
      subst (λ (p : State × Governor). is_zero p.0 ≡ false) first shown in
    let again : (evaluate g' later r').0 ≡ judge g.limits r =
      evaluate-again g' later r' (ground arith) (same g' refl refl) in
    ap (λ (p : State × Governor). (evaluate p.1 later r').0) first
    ∙ again
    ∙ sym (ap (λ (p : State × Governor). p.0) first)
  where
    same :
        (g' : Governor)
        → g'.manual_pause ≡ g.manual_pause
        → g'.pause_until ≡ g.pause_until
        → paused g' later ≡ false
    same g' e f = rw e (rw f quiet)
