-- ===== src/Watcher.antt =====
-- internal/agent/watcher/watcher.go: file-system events become batches of changes. fsnotify and the
-- file system are the record `World`; of the matcher the two answers that are used are the record
-- `Rules`. The channel of batches is a list, that of the overflow a flag, a map the list of its rows.
pub mod Rows
pub mod Walk
pub mod Steps
pub mod Told
pub mod Timing
use openbackup.Prelude.{
  ℕ, zero, suc, ◌+◌, ◌*◌, Bool, true, false, not, ◌&&◌, ◌||◌, Bytes, String, List, [], ◌∷◌, ◌++◌,
  Option, none, some, ltb, leb, ◌==◌, if◌then◌else◌, is_empty, length, map, codes,
}
use openbackup.Text.{bytes_eq}

-- config.Root
pub record Root : Type 0 where
  pub name : String
  pub path : Bytes
  pub enabled : Bool
  pub detected : Bool

pub record Change : Type 0 where
  pub path : Bytes
  pub root : Root
  pub removed : Bool
  pub is_dir : Bool

-- An event's name and the bits of its operation
pub record Event : Type 0 where
  pub name : Bytes
  pub create : Bool
  pub write : Bool
  pub remove : Bool
  pub rename : Bool
  pub chmod : Bool

-- What a walk of a folder meets, in its order: a file or a folder, and what follows beside it
pub data Tree : Type 0 where
  nothing : Tree
  file : Bytes → Tree → Tree
  dir : Bytes → Tree → Tree → Tree

-- filepath.Abs and filepath.Rel, os.Lstat (whether the path is a folder), fsnotify's Add, and the
-- walk of filepath.WalkDir below a folder
pub record World : Type 0 where
  pub abs : Bytes → Option Bytes
  pub rel : Bytes → Bytes → Option Bytes
  pub lstat : Bytes → Option Bool
  pub adds : Bytes → Bool
  pub below : Bytes → Tree

-- `Skip` of Matcher.SystemPathOutside and of Matcher.Match
pub record Rules : Type 0 where
  pub outside : Bytes → Bytes → Bool
  pub skips : Bytes → Bool → Bool

-- `Watcher`, with the variables of `Run`: `timer` is when it fires, if it runs.
pub record Watcher : Type 0 where
  pub debounce : ℕ
  pub pending : List Change
  pub roots : List Root
  pub watched : List Bytes
  pub changes : List (List Change)
  pub overflow : Bool
  pub timer : Option ℕ
  pub stretch_until : ℕ

abbrev pub max_watched_dirs : ℕ
max_watched_dirs = 20000

abbrev pub max_pending : ℕ
max_pending = 50000

abbrev pub channel_size : ℕ
channel_size = 8

-- `pending[c.AbsPath] = c`
unfoldable pub put_change : Change → List Change → List Change
put_change c [] = c ∷ []
put_change c (d ∷ ds) =
    let rest = put_change c ds in if bytes_eq d.path c.path then c ∷ ds else d ∷ rest

unfoldable pub mentions : Bytes → List Change → Bool
mentions p [] = false
mentions p (c ∷ cs) = bytes_eq c.path p || mentions p cs

abbrev pub is_watched : Bytes → List Bytes → Bool
is_watched d [] = false
is_watched d (e ∷ es) = bytes_eq e d || is_watched d es

-- The separators of Windows as slashes
abbrev pub to_slash : ℕ → ℕ
to_slash c = if c == 92 then b'/' else c

abbrev starts_up : Bytes → Bool
starts_up (c ∷ d ∷ e ∷ s) = bytes_eq (c ∷ d ∷ e ∷ []) (codes "../")
starts_up _ = false

abbrev pub kept_inside : Bytes → Option Bytes
kept_inside rel = if bytes_eq rel (codes "..") || starts_up rel then none else some rel

abbrev pub longer : Option Root → Root → Option Root
longer none r = some r
longer (some best) r = if ltb (length best.path) (length r.path) then some r else some best

abbrev pub queue : Bytes → Root → Watcher → Watcher
queue path root w = record w {
  pending =
      put_change (record { path = path; root = root; removed = false; is_dir = false }) w.pending;
}

abbrev pub only_chmod : Event → Bool
only_chmod e = e.chmod && not (e.create || e.write || e.remove || e.rename)

-- The change is recorded, unless too many wait.
unfoldable pub note_change : Change → Watcher → Watcher × Bool
unfolding put_change
note_change c w =
    let pending = put_change c w.pending in
    if ltb max_pending (length pending)
    then (record w { pending = []; overflow = true }, false)
    else (record w { pending = pending }, true)

module _ (world : World) (rules : Rules) where
  -- ignore.RelPath
  unfoldable pub rel_path : Bytes → Bytes → Option Bytes
  rel_path root path = elim (world.rel root path) [
    | none ↦ none
    | some rel ↦ kept_inside (map to_slash rel)
  ]

  -- The absolute path of a root that the path is in
  unfoldable pub home_of : Bytes → Root → Option Bytes
  unfolding rel_path
  home_of path root = elim (world.abs root.path) [
    | none ↦ none
    | some a ↦ elim (rel_path a path) [ none ↦ none | some rel ↦ some a ]
  ]

  -- The loop of `rootFor`
  unfoldable pub root_loop : Bytes → Option Root → List Root → Option Root
  unfolding home_of
  root_loop path best [] = best
  root_loop path best (r ∷ rs) =
      root_loop path
        (elim (home_of path r) [ none ↦ best | some a ↦ longer best (record r { path = a }) ]) rs

  unfoldable pub root_for : Bytes → List Root → Option Root
  unfolding root_loop
  root_for path roots = root_loop path none roots

  -- `addDir`, and whether the walk leaves the folder out
  unfoldable pub add_dir : Bytes → Watcher → Watcher × Bool
  add_dir path w =
      if is_watched path w.watched
      then (w, false)
      else if leb max_watched_dirs (length w.watched)
      then (w, true)
      else if world.adds path
      then (record w { watched = path ∷ w.watched }, false)
      else (w, false)

  -- A file and a folder in the walk of `addNewTree`
  unfoldable pub meet_file : Root → Bytes → Bytes → Watcher → Watcher
  unfolding put_change rel_path
  meet_file root top path w = elim (rel_path top path) [
    | none ↦ w
    | some rel ↦ if rules.skips rel false then w else queue path root w
  ]

  unfoldable pub meet_dir : Bytes → Bytes → Watcher → Watcher × Bool
  unfolding add_dir rel_path
  meet_dir top path w = elim (rel_path top path) [
    | none ↦ (w, false)
    | some rel ↦ if rules.skips rel true then (w, true) else add_dir path w
  ]

  unfoldable pub add_tree : Root → Bytes → Tree → Watcher → Watcher
  unfolding meet_file meet_dir
  add_tree root top nothing w = w
  add_tree root top (file path rest) w = add_tree root top rest (meet_file root top path w)
  add_tree root top (dir path inside rest) w =
      let (entered, skip) = meet_dir top path w in
      let filled = add_tree root top inside entered in
      add_tree root top rest (if skip then entered else filled)

  unfoldable pub add_new_tree : Root → Bytes → Watcher → Watcher
  unfolding add_tree
  add_new_tree root path w = elim (world.abs root.path) [
    | none ↦ w
    | some top ↦ add_tree root top (world.below path) w
  ]

  -- The change that an event of a path inside a root stands for, unless the rules leave it out
  abbrev pub change_of : Event → Root → Bytes → Option Bool → Option Change
  change_of e root rel none =
      if rules.skips rel false
      then none
      else some
          (record { path = e.name; root = root; removed = e.remove || e.rename; is_dir = false })
  change_of e root rel (some is_dir) =
      if rules.skips rel is_dir
      then none
      else some (record { path = e.name; root = root; removed = false; is_dir = is_dir })

  abbrev pub inside_root : Event → Root → Bytes → Option Change
  inside_root e root top = if rules.outside e.name top then none else elim (rel_path top e.name) [
    | none ↦ none
    | some rel ↦ change_of e root rel (world.lstat e.name)
  ]

  -- The guards of `handleEvent`
  unfoldable pub concerns : List Root → Event → Option Change
  unfolding root_for rel_path
  concerns roots e = if only_chmod e then none else elim (root_for e.name roots) [
    | none ↦ none
    | some root ↦ elim (world.abs root.path) [ none ↦ none | some top ↦ inside_root e root top ]
  ]

  -- What a folder that has appeared holds is queued first.
  abbrev pub filled : Event → Change → Watcher → Watcher
  filled e c w = if c.is_dir && e.create then add_new_tree c.root e.name w else w

  abbrev pub handled : Event → Watcher → Option Change → Watcher × Bool
  handled e w none = (w, false)
  handled e w (some c) = note_change c (filled e c w)

  unfoldable pub handle_event : Event → Watcher → Watcher × Bool
  unfolding concerns
  handle_event e w = handled e w (concerns w.roots e)

-- An accepted event sets the timer.
unfoldable pub arm : ℕ → Watcher → Watcher
arm now w = elim w.timer [
  | none ↦ record w { timer = some (now + w.debounce); stretch_until = now + 10 * w.debounce }
  | some fires ↦
      if ltb (now + w.debounce) w.stretch_until
      then record w { timer = some (now + w.debounce) }
      else w
]

-- `restore`
unfoldable pub put_back : List Change → List Change → List Change
unfolding mentions
put_back [] pending = pending
put_back (c ∷ batch) pending =
    put_back batch (if mentions c.path pending then pending else pending ++ c ∷ [])

-- The cases of `Run`
unfoldable pub on_event : World → Rules → ℕ → Event → Watcher → Watcher
unfolding handle_event arm
on_event world rules now e w =
    let (w', accepted) = handle_event world rules e w in if accepted then arm now w' else w'

abbrev pub on_error : Watcher → Watcher
on_error w = record w { overflow = true }

unfoldable pub on_timer : ℕ → Watcher → Watcher
unfolding put_back
on_timer now w =
    if is_empty w.pending
    then record w { timer = none }
    else if ltb (length w.changes) channel_size
    then record w { timer = none; pending = []; changes = w.changes ++ w.pending ∷ [] }
    else record w { timer = some (now + w.debounce); pending = put_back w.pending [] }
