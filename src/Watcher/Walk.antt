-- ===== src/Watcher/Walk.antt =====
-- internal/agent/watcher/watcher.go: what an event leaves as it was.
use openbackup.Prelude.{
  ◌≡◌, refl, ◌∙◌, Bool, true, false, Bytes, ◌∷◌, Option, none, some, leb, if◌then◌else◌, if_cases,
  length,
}
use openbackup.Watcher.{
  Root, Tree, nothing, file, dir, World, Rules, Watcher, mentions, is_watched, max_watched_dirs,
  rel_path, add_dir, queue, meet_file, meet_dir, add_tree, add_new_tree,
}
use openbackup.Watcher.Rows.{put_change-keeps}

-- Changes are only added, and the rest of what `Run` works with stays.
pub record Adds (w w' : Watcher) : Type 0 where
  pub more : (p : Bytes) → mentions p w.pending ≡ true → mentions p w'.pending ≡ true
  pub changes : w'.changes ≡ w.changes
  pub overflow : w'.overflow ≡ w.overflow
  pub timer : w'.timer ≡ w.timer
  pub stretch : w'.stretch_until ≡ w.stretch_until
  pub debounce : w'.debounce ≡ w.debounce

pub Adds-refl : (w : Watcher) → Adds w w
Adds-refl w = record {
  more = λ p h. h;
  changes = refl;
  overflow = refl;
  timer = refl;
  stretch = refl;
  debounce = refl;
}

Adds-trans : (u v w : Watcher) → Adds u v → Adds v w → Adds u w
Adds-trans u v w a b = record {
  more = λ p h. b.more p (a.more p h);
  changes = b.changes ∙ a.changes;
  overflow = b.overflow ∙ a.overflow;
  timer = b.timer ∙ a.timer;
  stretch = b.stretch ∙ a.stretch;
  debounce = b.debounce ∙ a.debounce;
}

module _ (world : World) (rules : Rules) where
  queue-Adds : (path : Bytes) (root : Root) (w : Watcher) → Adds w (queue path root w)
  queue-Adds path root w = record {
    more = λ p h.
        put_change-keeps p (record { path = path; root = root; removed = false; is_dir = false })
          w.pending h;
    changes = refl;
    overflow = refl;
    timer = refl;
    stretch = refl;
    debounce = refl;
  }

  watch-Adds : (path : Bytes) (w : Watcher) → Adds w (record w { watched = path ∷ w.watched })
  watch-Adds path w = record {
    more = λ p h. h;
    changes = refl;
    overflow = refl;
    timer = refl;
    stretch = refl;
    debounce = refl;
  }

  add_dir-Adds : (path : Bytes) (w : Watcher) → Adds w (add_dir world rules path w).0
  unfolding add_dir
  add_dir-Adds path w =
      if_cases Kept (is_watched path w.watched) _ _ (λ e. Adds-refl w)
        (λ e.
          if_cases Kept (leb max_watched_dirs (length w.watched)) _ _ (λ e. Adds-refl w)
            (λ e. if_cases Kept (world.adds path) _ _ (λ e. watch-Adds path w) (λ e. Adds-refl w)))
    where
      Kept : Watcher × Bool → Type 0
      Kept r = Adds w r.0

  meet_file-Adds :
      (root : Root) (top path : Bytes) (w : Watcher)
      → Adds w (meet_file world rules root top path w)
  unfolding meet_file
  meet_file-Adds root top path w = at (rel_path world rules top path)
    where
      at :
          (o : Option Bytes)
          → Adds w (elim o as (λ x. Watcher) [
            | none ↦ w
            | some rel ↦ if rules.skips rel false then w else queue path root w
          ])
      at none = Adds-refl w
      at (some rel) =
          if_cases (Adds w) (rules.skips rel false) _ _ (λ e. Adds-refl w)
            (λ e. queue-Adds path root w)

  meet_dir-Adds : (top path : Bytes) (w : Watcher) → Adds w (meet_dir world rules top path w).0
  unfolding meet_dir
  meet_dir-Adds top path w = at (rel_path world rules top path)
    where
      Kept : Watcher × Bool → Type 0
      Kept r = Adds w r.0

      at :
          (o : Option Bytes)
          → Kept (elim o as (λ x. Watcher × Bool) [
            | none ↦ (w, false)
            | some rel ↦ if rules.skips rel true then (w, true) else add_dir world rules path w
          ])
      at none = Adds-refl w
      at (some rel) =
          if_cases Kept (rules.skips rel true) _ _ (λ e. Adds-refl w) (λ e. add_dir-Adds path w)

  add_tree-Adds :
      (root : Root) (top : Bytes) (t : Tree) (w : Watcher)
      → Adds w (add_tree world rules root top t w)
  unfolding add_tree
  add_tree-Adds root top nothing w = Adds-refl w
  add_tree-Adds root top (file path rest) w =
      let next = meet_file world rules root top path w in
      Adds-trans w next _ (meet_file-Adds root top path w) (add_tree-Adds root top rest next)
  add_tree-Adds root top (dir path inside rest) w =
      let (entered, skip) = meet_dir world rules top path w in
      let filled = add_tree world rules root top inside entered in
      let met = meet_dir-Adds top path w in
      let next = if skip then entered else filled in
      Adds-trans w next _
        (if_cases (Adds w) skip _ _ (λ e. met)
          (λ e. Adds-trans w entered filled met (add_tree-Adds root top inside entered)))
        (add_tree-Adds root top rest next)

  pub add_new_tree-Adds :
      (root : Root) (path : Bytes) (w : Watcher) → Adds w (add_new_tree world rules root path w)
  unfolding add_new_tree
  add_new_tree-Adds root path w = at (world.abs root.path)
    where
      at :
          (o : Option Bytes)
          → Adds w (elim o as (λ x. Watcher) [
            | none ↦ w
            | some top ↦ add_tree world rules root top (world.below path) w
          ])
      at none = Adds-refl w
      at (some top) = add_tree-Adds root top (world.below path) w
