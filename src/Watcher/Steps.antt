-- ===== src/Watcher/Steps.antt =====
-- internal/agent/watcher/watcher.go, `Run`, with the reader of its channels: what can happen, one
-- after another.
use openbackup.Prelude.{ℕ, Bool, true, false, List, [], ◌∷◌, ◌++◌, if◌then◌else◌}
use openbackup.Watcher.{Change, Event, World, Rules, Watcher, on_event, on_error, on_timer}

-- The watcher, what its reader has taken from `Changes`, and whether it has taken from `Overflow`
pub record System : Type 0 where
  pub watcher : Watcher
  pub received : List Change
  pub rescan : Bool

-- What happens next: an event, an error of fsnotify, the timer, and the two channels being read
pub data Step : Type 0 where
  event : ℕ → Event → Step
  failed : Step
  fired : ℕ → Step
  batch_read overflow_read : Step

abbrev pub read_batch : List (List Change) → System → System
read_batch [] s = s
read_batch (b ∷ bs) s = record s {
  watcher = record s.watcher { changes = bs };
  received = s.received ++ b;
}

abbrev pub read_overflow : System → System
read_overflow s =
    if s.watcher.overflow
    then record s { watcher = record s.watcher { overflow = false }; rescan = true }
    else s

unfoldable pub step : World → Rules → Step → System → System
unfolding on_event on_timer
step world rules (event now e) s = record s { watcher = on_event world rules now e s.watcher }
step world rules failed s = record s { watcher = on_error s.watcher }
step world rules (fired now) s = record s { watcher = on_timer now s.watcher }
step world rules batch_read s = read_batch s.watcher.changes s
step world rules overflow_read s = read_overflow s

abbrev pub run_steps : World → Rules → List Step → System → System
run_steps world rules [] s = s
run_steps world rules (t ∷ ts) s = run_steps world rules ts (step world rules t s)
