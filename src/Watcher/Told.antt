-- ===== src/Watcher/Told.antt =====
-- internal/agent/watcher/watcher.go with its reader, internal/agent/engine: a change that was seen
-- waits, is in a batch, has been read, or a full scan has been asked for.
use openbackup.Prelude.{
  ℕ, ◌+◌, ◌*◌, ◌≡◌, ◌⊎◌, inl, inr, refl, ap, Bool, true, false, ◌&&◌, ◌||◌, Bytes, List, [], ◌∷◌,
  ◌++◌, Option, none, some, arith, ltb, if◌then◌else◌, if_cases, is_empty, length, Bool-cases,
}
use openbackup.Watcher.{
  Change, Event, World, Rules, Watcher, put_change, mentions, max_pending, channel_size, concerns,
  note_change, filled, handled, handle_event, arm, on_event, on_timer, put_back,
}
use openbackup.Watcher.Steps.{
  System, Step, event, failed, fired, batch_read, overflow_read, read_batch, step, run_steps,
}
use openbackup.Watcher.Rows.{
  put_change-keeps, put_change-mentions, mentions-append, put_back-mentions,
}
use openbackup.Watcher.Walk.{Adds, Adds-refl, add_new_tree-Adds}

unfoldable pub any_mentions : Bytes → List (List Change) → Bool
unfolding mentions
any_mentions p [] = false
any_mentions p (b ∷ bs) = mentions p b || any_mentions p bs

-- A path waits in the watcher, or its reader has to look again
abbrev pub waits : Bytes → Watcher → Bool
waits p w = mentions p w.pending || any_mentions p w.changes || w.overflow

abbrev pub tells : Bytes → System → Bool
tells p s = waits p s.watcher || mentions p s.received || s.rescan

any_mentions-append :
    (p : Bytes) (bs : List (List Change)) (b : List Change)
    → any_mentions p (bs ++ b ∷ []) ≡ (any_mentions p bs || mentions p b)
unfolding any_mentions
any_mentions-append p [] b = ground arith
any_mentions-append p (c ∷ bs) b = ground (arith, any_mentions-append p bs b)

Adds-waits : (p : Bytes) (w w' : Watcher) → Adds w w' → waits p w ≡ true → waits p w' ≡ true
Adds-waits p w w' a h = at (Bool-cases (mentions p w.pending))
  where
    at : (mentions p w.pending ≡ true) ⊎ (mentions p w.pending ≡ false) → waits p w' ≡ true
    at (inl e) = rw (a.more p e) refl
    at (inr e) =
        let q : (any_mentions p w.changes || w.overflow) ≡ true = ground arith in
        rw (a.changes, a.overflow) (ground arith)

note_change-waits :
    (p : Bytes) (c : Change) (w : Watcher) → waits p w ≡ true → waits p (note_change c w).0 ≡ true
unfolding note_change
note_change-waits p c w h =
    if_cases (λ (r : Watcher × Bool). waits p r.0 ≡ true)
      (ltb max_pending (length (put_change c w.pending))) _ _ (λ e. ground arith)
      (λ e. at (Bool-cases (mentions p w.pending)))
  where
    at :
        (mentions p w.pending ≡ true) ⊎ (mentions p w.pending ≡ false)
        → waits p (record w { pending = put_change c w.pending }) ≡ true
    at (inl e) = rw (put_change-keeps p c w.pending e) refl
    at (inr e) = ground arith

note_change-own : (c : Change) (w : Watcher) → waits c.path (note_change c w).0 ≡ true
unfolding note_change
note_change-own c w =
    if_cases (λ (r : Watcher × Bool). waits c.path r.0 ≡ true)
      (ltb max_pending (length (put_change c w.pending))) _ _ (λ e. ground arith)
      (λ e. rw (put_change-mentions c w.pending) refl)

arm-waits : (p : Bytes) (now : ℕ) (w : Watcher) → waits p w ≡ true → waits p (arm now w) ≡ true
unfolding arm
arm-waits p now w h = at w.timer
  where
    at :
        (o : Option ℕ)
        → waits p (elim o as (λ x. Watcher) [
          | none ↦ record w {
            timer = some (now + w.debounce);
            stretch_until = now + 10 * w.debounce;
          }
          | some fires ↦
              if ltb (now + w.debounce) w.stretch_until
              then record w { timer = some (now + w.debounce) }
              else w
        ])
          ≡ true
    at none = h
    at (some fires) =
        if_cases (λ (v : Watcher). waits p v ≡ true) (ltb (now + w.debounce) w.stretch_until) _ _
          (λ e. h) (λ e. h)

module _ (world : World) (rules : Rules) where
  armed-waits :
      (p : Bytes) (now : ℕ) (r : Watcher × Bool)
      → waits p r.0 ≡ true
      → waits p (if r.1 then arm now r.0 else r.0) ≡ true
  armed-waits p now r h =
      if_cases (λ (v : Watcher). waits p v ≡ true) r.1 _ _ (λ e. arm-waits p now r.0 h) (λ e. h)

  filled-Adds : (c : Change) (e : Event) (w : Watcher) → Adds w (filled world rules e c w)
  filled-Adds c e w =
      if_cases (Adds w) (c.is_dir && e.create) _ _
        (λ q. add_new_tree-Adds world rules c.root e.name w) (λ q. Adds-refl w)

  handle_event-waits :
      (p : Bytes) (e : Event) (w : Watcher)
      → waits p w ≡ true
      → waits p (handle_event world rules e w).0 ≡ true
  unfolding handle_event
  handle_event-waits p e w h = at (concerns world rules w.roots e)
    where
      at : (o : Option Change) → waits p (handled world rules e w o).0 ≡ true
      at none = h
      at (some c) =
          note_change-waits p c (filled world rules e c w)
            (Adds-waits p w (filled world rules e c w) (filled-Adds c e w) h)

  on_timer-waits :
      (p : Bytes) (now : ℕ) (w : Watcher) → waits p w ≡ true → waits p (on_timer now w) ≡ true
  unfolding on_timer mentions
  on_timer-waits p now w h =
      if_cases (λ (v : Watcher). waits p v ≡ true) (is_empty w.pending) _ _ (λ e. h)
        (λ e.
          if_cases (λ (v : Watcher). waits p v ≡ true) (ltb (length w.changes) channel_size) _ _
            (λ q. handed) (λ q. back (Bool-cases (mentions p w.pending))))
    where
      handed :
          waits p (record w { timer = none; pending = []; changes = w.changes ++ w.pending ∷ [] })
          ≡ true
      handed = ground (arith, any_mentions-append p w.changes w.pending)

      back :
          (mentions p w.pending ≡ true) ⊎ (mentions p w.pending ≡ false)
          → waits p (record w { timer = some (now + w.debounce); pending = put_back w.pending [] })
            ≡ true
      back (inl e) = rw (put_back-mentions p w.pending [] (rw e refl)) refl
      back (inr e) = ground arith

  on_event-waits :
      (p : Bytes) (now : ℕ) (e : Event) (w : Watcher)
      → waits p w ≡ true
      → waits p (on_event world rules now e w) ≡ true
  unfolding on_event
  on_event-waits p now e w h =
      armed-waits p now (handle_event world rules e w) (handle_event-waits p e w h)

  tells-watcher :
      (p : Bytes) (w : Watcher) (s : System)
      → (waits p s.watcher ≡ true → waits p w ≡ true)
      → tells p s ≡ true
      → tells p (record s { watcher = w }) ≡ true
  tells-watcher p w s f h = at (Bool-cases (waits p s.watcher))
    where
      at :
          (waits p s.watcher ≡ true) ⊎ (waits p s.watcher ≡ false)
          → tells p (record s { watcher = w }) ≡ true
      at (inl e) = rw (f e) refl
      at (inr e) =
          let rest : (mentions p s.received || s.rescan) ≡ true = ground arith in ground arith

  read_batch-tells :
      (p : Bytes) (bs : List (List Change)) (s : System)
      → s.watcher.changes ≡ bs
      → tells p s ≡ true
      → tells p (read_batch bs s) ≡ true
  unfolding any_mentions
  read_batch-tells p [] s q h = h
  read_batch-tells p (b ∷ bs) s q h =
      let listed : any_mentions p s.watcher.changes ≡ (mentions p b || any_mentions p bs) =
        ap (any_mentions p) q in
      ground (arith, mentions-append p s.received b)

  step-tells :
      (p : Bytes) (t : Step) (s : System) → tells p s ≡ true → tells p (step world rules t s) ≡ true
  unfolding step
  step-tells p (event now e) s h =
      tells-watcher p (on_event world rules now e s.watcher) s (on_event-waits p now e s.watcher) h
  step-tells p failed s h = ground arith
  step-tells p (fired now) s h =
      tells-watcher p (on_timer now s.watcher) s (on_timer-waits p now s.watcher) h
  step-tells p batch_read s h = read_batch-tells p s.watcher.changes s refl h
  step-tells p overflow_read s h =
      if_cases (λ (s' : System). tells p s' ≡ true) s.watcher.overflow _ _ (λ e. ground arith)
        (λ e. h)

  run_steps-keeps :
      (p : Bytes) (ts : List Step) (s : System)
      → tells p s ≡ true
      → tells p (run_steps world rules ts s) ≡ true
  run_steps-keeps p [] s h = h
  run_steps-keeps p (t ∷ ts) s h = run_steps-keeps p ts (step world rules t s) (step-tells p t s h)

  event-waits :
      (now : ℕ) (e : Event) (c : Change) (w : Watcher)
      → concerns world rules w.roots e ≡ some c
      → waits c.path (on_event world rules now e w) ≡ true
  unfolding on_event handle_event
  event-waits now e c w h =
      rw (h, handle_event)
        (armed-waits c.path now (note_change c (filled world rules e c w))
          (note_change-own c (filled world rules e c w)))

  -- Once an event that the rules let through has been handled, its change is never lost: whatever
  -- events, errors, timers and reads follow, in whatever order, the path is pending, or in a batch on
  -- the channel, or the reader has got it, or a full scan is asked for or has been.
  pub run_steps-tells :
      (now : ℕ) (e : Event) (c : Change) (s : System) (ts : List Step)
      → concerns world rules s.watcher.roots e ≡ some c
      → tells c.path (run_steps world rules (event now e ∷ ts) s) ≡ true
  unfolding step
  run_steps-tells now e c s ts h =
      run_steps-keeps c.path ts (step world rules (event now e) s)
        (rw (event-waits now e c s.watcher h) refl)
