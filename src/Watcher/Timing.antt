-- ===== src/Watcher/Timing.antt =====
-- internal/agent/watcher/watcher.go, `Run`: the timer behind which the changes go out.
use openbackup.Prelude.{
  ℕ, ◌+◌, ◌*◌, ◌≤◌, ◌≡◌, refl, subst, ap, ◌∙◌, Bool, true, false, ◌&&◌, ◌||◌, List, [], ◌∷◌, Option,
  none, some, arith, ltb, if◌then◌else◌, if_cases, is_empty, length, All,
}
use openbackup.Watcher.{
  Change, Event, World, Rules, Watcher, put_change, max_pending, channel_size, concerns,
  note_change, filled, handled, handle_event, arm, on_event, on_timer,
}
use openbackup.Watcher.Walk.{add_new_tree-Adds}
use openbackup.Watcher.Steps.{
  System, Step, event, failed, fired, batch_read, overflow_read, read_batch, read_overflow, step,
  run_steps,
}

abbrev pub runs : Option ℕ → Bool
runs none = false
runs (some fires) = true

-- Where changes wait, the timer runs.
abbrev pub is_armed : Watcher → Bool
is_armed w = is_empty w.pending || runs w.timer

abbrev pub is_fired : Step → Bool
is_fired (fired now) = true
is_fired _ = false

arm-runs : (now : ℕ) (w : Watcher) → runs (arm now w).timer ≡ true
unfolding arm
arm-runs now w = at w.timer refl
  where
    at :
        (o : Option ℕ)
        → w.timer ≡ o
        → runs
            (elim o as (λ x. Watcher) [
              | none ↦ record w {
                timer = some (now + w.debounce);
                stretch_until = now + 10 * w.debounce;
              }
              | some fires ↦
                  if ltb (now + w.debounce) w.stretch_until
                  then record w { timer = some (now + w.debounce) }
                  else w
            ]).timer
          ≡ true
    at none q = refl
    at (some fires) q =
        if_cases (λ (v : Watcher). runs v.timer ≡ true) (ltb (now + w.debounce) w.stretch_until) _ _
          (λ e. refl) (λ e. ap runs q)

-- The timer runs and fires by `latest`, and no event moves it beyond.
abbrev pub FiresBy : ℕ → Watcher → Type 0
FiresBy latest w =
    (fires : ℕ) × (w.timer ≡ some fires) × (fires ≤ latest) × (w.stretch_until ≤ latest)

arm-FiresBy : (latest now : ℕ) (w : Watcher) → FiresBy latest w → FiresBy latest (arm now w)
unfolding arm
arm-FiresBy latest now w (fires, q, soon, stretch) =
    rw (q, arm)
      (if_cases (FiresBy latest) (ltb (now + w.debounce) w.stretch_until) _ _
        (λ e. (now + w.debounce, refl, ground arith, stretch)) (λ e. (fires, q, soon, stretch)))

arm-first : (now : ℕ) (w : Watcher) → w.timer ≡ none → FiresBy (now + 10 * w.debounce) (arm now w)
unfolding arm
arm-first now w q = rw (q, arm) (now + w.debounce, refl, omega arith, omega arith)

module _ (world : World) (rules : Rules) where
  -- What an event does to the timer before it is accepted: nothing
  abbrev Calm : Watcher → Watcher → Type 0
  Calm w w' =
      (w'.timer ≡ w.timer) × (w'.stretch_until ≡ w.stretch_until) × (w'.debounce ≡ w.debounce)

  note_change-Calm : (c : Change) (v w : Watcher) → Calm v w → Calm v (note_change c w).0
  unfolding note_change
  note_change-Calm c v w a =
      if_cases (λ (r : Watcher × Bool). Calm v r.0)
        (ltb max_pending (length (put_change c w.pending))) _ _ (λ e. a) (λ e. a)

  note_change-is_armed :
      (c : Change) (w : Watcher) → (note_change c w).1 ≡ false → is_armed (note_change c w).0 ≡ true
  unfolding note_change
  note_change-is_armed c w h =
      if_cases (λ (r : Watcher × Bool). r.1 ≡ false → is_armed r.0 ≡ true)
        (ltb max_pending (length (put_change c w.pending))) _ _ (λ e q. refl) (λ e q. cc) h

  filled-Calm : (e : Event) (c : Change) (w : Watcher) → Calm w (filled world rules e c w)
  filled-Calm e c w =
      if_cases (Calm w) (c.is_dir && e.create) _ _
        (λ q.
          let a = add_new_tree-Adds world rules c.root e.name w in (a.timer, a.stretch, a.debounce))
        (λ q. (refl, refl, refl))

  handle_event-Calm : (e : Event) (w : Watcher) → Calm w (handle_event world rules e w).0
  unfolding handle_event
  handle_event-Calm e w = at (concerns world rules w.roots e)
    where
      at : (o : Option Change) → Calm w (handled world rules e w o).0
      at none = (refl, refl, refl)
      at (some c) = note_change-Calm c w (filled world rules e c w) (filled-Calm e c w)

  -- An event that is not accepted keeps what waits under the timer.
  handle_event-is_armed :
      (e : Event) (w : Watcher)
      → is_armed w ≡ true
      → (handle_event world rules e w).1 ≡ false
      → is_armed (handle_event world rules e w).0 ≡ true
  unfolding handle_event
  handle_event-is_armed e w h = at (concerns world rules w.roots e)
    where
      at :
          (o : Option Change)
          → (handled world rules e w o).1 ≡ false
          → is_armed (handled world rules e w o).0 ≡ true
      at none q = h
      at (some c) q = note_change-is_armed c (filled world rules e c w) q

  on_event-is_armed :
      (now : ℕ) (e : Event) (w : Watcher)
      → is_armed w ≡ true
      → is_armed (on_event world rules now e w) ≡ true
  unfolding on_event
  on_event-is_armed now e w h =
      let (w', accepted) = handle_event world rules e w in
      if_cases (λ (v : Watcher). is_armed v ≡ true) accepted _ _
        (λ q. let r = arm-runs now w' in ground arith) (λ q. handle_event-is_armed e w h q)

  on_timer-is_armed : (now : ℕ) (w : Watcher) → is_armed (on_timer now w) ≡ true
  unfolding on_timer
  on_timer-is_armed now w =
      if_cases (λ (v : Watcher). is_armed v ≡ true) (is_empty w.pending) _ _ (λ e. ground arith)
        (λ e.
          if_cases (λ (v : Watcher). is_armed v ≡ true) (ltb (length w.changes) channel_size) _ _
            (λ q. refl) (λ q. ground arith))

  read_batch-watcher :
      (bs : List (List Change)) (s : System)
      → let w = (read_batch bs s).watcher in
        (w.pending ≡ s.watcher.pending)
        × (w.timer ≡ s.watcher.timer)
        × (w.stretch_until ≡ s.watcher.stretch_until)
  read_batch-watcher [] s = (refl, refl, refl)
  read_batch-watcher (b ∷ bs) s = (refl, refl, refl)

  read_overflow-watcher :
      (s : System)
      → let w = (read_overflow s).watcher in
        (w.pending ≡ s.watcher.pending)
        × (w.timer ≡ s.watcher.timer)
        × (w.stretch_until ≡ s.watcher.stretch_until)
  read_overflow-watcher s =
      if_cases
        (λ (s' : System).
          (s'.watcher.pending ≡ s.watcher.pending)
          × (s'.watcher.timer ≡ s.watcher.timer)
          × (s'.watcher.stretch_until ≡ s.watcher.stretch_until))
        s.watcher.overflow _ _ (λ e. (refl, refl, refl)) (λ e. (refl, refl, refl))

  step-is_armed :
      (t : Step) (s : System)
      → is_armed s.watcher ≡ true
      → is_armed (step world rules t s).watcher ≡ true
  unfolding step
  step-is_armed (event now e) s h = on_event-is_armed now e s.watcher h
  step-is_armed failed s h = h
  step-is_armed (fired now) s h = on_timer-is_armed now s.watcher
  step-is_armed batch_read s h =
      let (p, t, u) = read_batch-watcher s.watcher.changes s in rw (p, t) h
  step-is_armed overflow_read s h = let (p, t, u) = read_overflow-watcher s in rw (p, t) h

  -- A change never waits without a timer that will send it: where that holds, it holds after
  -- every further event, error, firing of the timer and read of a channel.
  pub run_steps-is_armed :
      (ts : List Step) (s : System)
      → is_armed s.watcher ≡ true
      → is_armed (run_steps world rules ts s).watcher ≡ true
  run_steps-is_armed [] s h = h
  run_steps-is_armed (t ∷ ts) s h =
      run_steps-is_armed ts (step world rules t s) (step-is_armed t s h)

  Calm-FiresBy : (latest : ℕ) (w w' : Watcher) → Calm w w' → FiresBy latest w → FiresBy latest w'
  Calm-FiresBy latest w w' (t, u, d) (fires, q, soon, stretch) =
      (fires, t ∙ q, soon, omega (arith, u, stretch))

  step-FiresBy :
      (latest : ℕ) (t : Step) (s : System)
      → is_fired t ≡ false
      → FiresBy latest s.watcher
      → FiresBy latest (step world rules t s).watcher
  unfolding step on_event
  step-FiresBy latest (event now e) s n h =
      let (w', accepted) = handle_event world rules e s.watcher in
      let calm = Calm-FiresBy latest s.watcher w' (handle_event-Calm e s.watcher) h in
      if_cases (FiresBy latest) accepted _ _ (λ q. arm-FiresBy latest now w' calm) (λ q. calm)
  step-FiresBy latest failed s n h = h
  step-FiresBy latest (fired now) s n h = cc
  step-FiresBy latest batch_read s n (fires, q, soon, stretch) =
      let (p, t, u) = read_batch-watcher s.watcher.changes s in
      (fires, t ∙ q, soon, omega (arith, u, stretch))
  step-FiresBy latest overflow_read s n (fires, q, soon, stretch) =
      let (p, t, u) = read_overflow-watcher s in (fires, t ∙ q, soon, omega (arith, u, stretch))

  FiresBy-run_steps :
      (latest : ℕ) (ts : List Step) (s : System)
      → All (λ t. is_fired t ≡ false) ts
      → FiresBy latest s.watcher
      → FiresBy latest (run_steps world rules ts s).watcher
  FiresBy-run_steps latest [] s n h = h
  FiresBy-run_steps latest (t ∷ ts) s (n, ns) h =
      FiresBy-run_steps latest ts (step world rules t s) ns (step-FiresBy latest t s n h)

  -- From the first change after a quiet time on, the timer fires at most ten debounce intervals
  -- later, however many events follow, and whatever else happens before it fires.
  pub run_steps-FiresBy :
      (now : ℕ) (e : Event) (s : System) (ts : List Step)
      → s.watcher.timer ≡ none
      → (handle_event world rules e s.watcher).1 ≡ true
      → All (λ t. is_fired t ≡ false) ts
      → FiresBy (now + 10 * s.watcher.debounce) (run_steps world rules (event now e ∷ ts) s).watcher
  unfolding step on_event
  run_steps-FiresBy now e s ts quiet accepted n =
      FiresBy-run_steps (now + 10 * s.watcher.debounce) ts (step world rules (event now e) s) n
        (rw accepted first)
    where
      first :
          FiresBy (now + 10 * s.watcher.debounce) (arm now (handle_event world rules e s.watcher).0)
      first =
          let (t, u, d) = handle_event-Calm e s.watcher in
          subst (λ k. FiresBy (now + 10 * k) (arm now (handle_event world rules e s.watcher).0)) d
            (arm-first now (handle_event world rules e s.watcher).0 (t ∙ quiet))
