-- ===== src/Restore.antt =====
-- internal/agent/restore/restore.go: files come back from a snapshot. `Names` places an entry below
-- the target, `Files` writes one entry, `Paging` asks the server page by page. Paths are those of a
-- system with slashes; `Find` resolves a user's reference to a snapshot.
pub mod Names
pub mod Behind
pub mod Paging
pub mod Files
pub mod Find
pub mod Found
use openbackup.Prelude.{
  ℕ, zero, suc, Bool, true, false, ◌||◌, Bytes, List, [], ◌∷◌, Option, none, some, if◌then◌else◌,
  is_empty,
}
use openbackup.Prelude.Result.{Result, ok, err}
use openbackup.Text.{bytes_eq}
use openbackup.Store.{Entry}
use openbackup.Store.Tree.{Page}

abbrev pub has_bytes : Bytes → List Bytes → Bool
has_bytes s [] = false
has_bytes s (t ∷ ts) = bytes_eq t s || has_bytes s ts

-- How a restore ends: with its result, or with what it had done by the time of an error
pub data Ending (E R : Type 0) : Type 0 where
  finished : R → Ending E R
  page_failed : E → R → Ending E R
  cursor_repeats : Bytes → R → Ending E R

-- The loop over the entries of a page
abbrev pub visit_all : {R : Type 0} → (Entry → R → R) → List Entry → R → R
visit_all visit [] r = r
visit_all visit (e ∷ es) r = visit_all visit es (visit e r)

-- The loop of `Run` over the server's pages. `visit` is what it does with an entry, `seen` are the
-- cursors that it has followed. No answer means that the fuel is used up.
unfoldable pub run_loop :
    {E R : Type 0}
    → ℕ
    → (Bytes → Result E Page)
    → (Entry → R → R)
    → Bytes
    → List Bytes
    → R
    → Option (Ending E R)
run_loop zero page visit cursor seen r = none
run_loop (suc fuel) page visit cursor seen r = elim (page cursor) [
  | err e ↦ some (page_failed e r)
  | ok (entries, next) ↦
      let r' = visit_all visit entries r in
      let onward = run_loop fuel page visit next (next ∷ seen) r' in
      if is_empty entries
      then some (finished r)
      else if is_empty next
      then some (finished r')
      else if has_bytes next seen
      then some (cursor_repeats next r')
      else onward
]

-- From the first page on
abbrev pub run :
    {E R : Type 0} → ℕ → (Bytes → Result E Page) → (Entry → R → R) → R → Option (Ending E R)
run fuel page visit r = run_loop fuel page visit [] [] r
