-- ===== src/Examples/Watches.antt =====
-- internal/agent/watcher: a file that is saved again and again in a watched folder.
use openbackup.Prelude.{◌+◌, ◌*◌, ◌≡◌, refl, true, false, Bytes, List, [], ◌∷◌, none, some, codes}
use openbackup.Watcher.{
  Root, Change, Event, nothing, World, Rules, concerns, root_for, root_loop, home_of, rel_path,
  note_change, put_change, handle_event,
}
use openbackup.Watcher.Steps.{
  System, Step, event, failed, fired, batch_read, overflow_read, run_steps,
}
use openbackup.Watcher.Told.{tells, run_steps-tells}
use openbackup.Watcher.Timing.{is_armed, FiresBy, run_steps-is_armed, run_steps-FiresBy}

-- What follows a prefix and a slash, or the folder above
abbrev below_root : Bytes → Bytes → Bytes
below_root [] (d ∷ s) = s
below_root (c ∷ p) (d ∷ s) = below_root p s
below_root _ [] = codes ".."

abbrev disk : World
disk = record {
  abs = λ path. some path;
  rel = λ root path. some (below_root root path);
  lstat = λ path. some false;
  adds = λ path. true;
  below = λ path. nothing;
}

abbrev no_rules : Rules
no_rules = record { outside = λ path root. false; skips = λ rel is_dir. false }

abbrev documents : Root
documents = record { name = "documents"; path = codes "/docs"; enabled = true; detected = false }

abbrev idle : System
idle = record {
  watcher = record {
    debounce = 15;
    pending = [];
    roots = documents ∷ [];
    watched = codes "/docs" ∷ [];
    changes = [];
    overflow = false;
    timer = none;
    stretch_until = 0;
  };
  received = [];
  rescan = false;
}

abbrev saved : Event
saved = record {
  name = codes "/docs/letter";
  create = false;
  write = true;
  remove = false;
  rename = false;
  chmod = false;
}

abbrev letter : Change
letter = record { path = codes "/docs/letter"; root = documents; removed = false; is_dir = false }

saved-letter : concerns disk no_rules (documents ∷ []) saved ≡ some letter
unfolding concerns root_for root_loop home_of rel_path
saved-letter = refl

abbrev later : List Step
later =
    event 110 saved
    ∷ fired 125
    ∷ batch_read
    ∷ failed
    ∷ event 130 saved
    ∷ overflow_read
    ∷ fired 145
    ∷ []

run_steps-tells_example :
    tells (codes "/docs/letter") (run_steps disk no_rules (event 100 saved ∷ later) idle) ≡ true
run_steps-tells_example = run_steps-tells disk no_rules 100 saved letter idle later saved-letter

run_steps-is_armed_example : is_armed (run_steps disk no_rules later idle).watcher ≡ true
run_steps-is_armed_example = run_steps-is_armed disk no_rules later idle refl

saved-accepted : (handle_event disk no_rules saved idle.watcher).1 ≡ true
unfolding handle_event concerns root_for root_loop home_of rel_path note_change put_change
saved-accepted = refl

abbrev busy : List Step
busy = event 110 saved ∷ event 120 saved ∷ failed ∷ batch_read ∷ event 249 saved ∷ []

run_steps-FiresBy_example :
    FiresBy (100 + 10 * 15) (run_steps disk no_rules (event 100 saved ∷ busy) idle).watcher
run_steps-FiresBy_example =
    run_steps-FiresBy disk no_rules 100 saved idle busy refl saved-accepted
      (refl, (refl, (refl, (refl, (refl, tt)))))
