-- ===== src/Store/Deletion/Cascade.antt =====
-- internal/server/store/retention.go, `DeleteSnapshotCascade`: a set of snapshots that is closed
-- under parents loses none to the removal of a snapshot outside it.
use openbackup.Prelude.{
  ℕ, zero, suc, ◌≡◌, ◌⊎◌, inl, inr, sym, subst, ◌∙◌, true, false, not, ◌||◌, String, List, [], ◌∷◌,
  arith, str_eq, Bool-cases, length,
}
use mathlib.Core.Bool.{false≢true}
use openbackup.Prelude.Sets.{has, select, In, select-In, append-In, map-In, has-In}
use openbackup.Store.{Snapshot, Db, find_snapshot}
use openbackup.Store.Lookup.{find_in-select}
use openbackup.Store.Deletion.{
  id_of, child_of, children, tree, in_tree, victims, delete_all, delete_snapshot_cascade,
}

-- The parent of every live snapshot of the set is in the set.
abbrev pub HoldsParents : List String → List Snapshot → Type 0
HoldsParents kept ss =
    (s : Snapshot)
    → In s ss
    → has s.id kept ≡ true
    → (str_eq s.parent "" || has s.parent kept) ≡ true

abbrev Avoids : List String → List String → Type 0
Avoids kept ids = (i : String) → In i ids → has i kept ≡ false

module _ (kept : List String) (ss : List Snapshot) (closed : HoldsParents kept ss) where
  children-Avoids : (ids : List String) → Avoids kept ids → Avoids kept (children ss ids)
  children-Avoids ids h i j =
      let (s, in_select, e) = map-In id_of i (select (child_of ids) ss) j in
      let (alive, child) = select-In (child_of ids) s ss in_select in
      subst (λ y. has y kept ≡ false) e (outside s alive child (Bool-cases (has s.id kept)))
    where
      outside :
          (s : Snapshot)
          → In s ss
          → child_of ids s ≡ true
          → (has s.id kept ≡ true) ⊎ (has s.id kept ≡ false)
          → has s.id kept ≡ false
      outside s alive child (inr e) = e
      outside s alive child (inl e) =
          let above = h s.parent (has-In s.parent ids (ground arith)) in
          ground (arith, closed s alive e)

  tree-Avoids : (depth : ℕ) (ids : List String) → Avoids kept ids → Avoids kept (tree depth ss ids)
  unfolding tree
  tree-Avoids zero ids h i j = h i j
  tree-Avoids (suc depth) ids h i j = elim (append-In i ids (tree depth ss (children ss ids)) j) [
    | inl k ↦ h i k
    | inr k ↦ tree-Avoids depth (children ss ids) (children-Avoids ids h) i k
  ]

  victims-Avoids : (root : String) → has root kept ≡ false → Avoids kept (victims ss root)
  unfolding victims
  victims-Avoids root n i j =
      let (s, in_select, e) =
        map-In id_of i (select (λ (s : Snapshot). has s.id (in_tree ss root)) ss) j in
      let (alive, inside) =
        select-In (λ (s : Snapshot). has s.id (in_tree ss root)) s ss in_select in
      subst (λ y. has y kept ≡ false) e
        (tree-Avoids (length ss) (root ∷ []) root_outside s.id
          (has-In s.id (in_tree ss root) inside))
    where
      root_outside : Avoids kept (root ∷ [])
      root_outside i (inl e) = subst (λ y. has y kept ≡ false) e n
      root_outside i (inr x) = absurd x

-- The removal of a snapshot outside a set that holds its parents leaves the row of each snapshot of
-- the set as it was.
pub delete_snapshot_cascade-keeps :
    (db : Db) (kept : List String) (root id : String)
    → HoldsParents kept db.snapshots
    → has root kept ≡ false
    → has id kept ≡ true
    → find_snapshot (delete_snapshot_cascade db root).0 id ≡ find_snapshot db id
unfolding delete_snapshot_cascade delete_all
delete_snapshot_cascade-keeps db kept root id closed n k =
    find_in-select (λ i. not (has i (victims db.snapshots root))) id db.snapshots
    ∙ rw (spared (Bool-cases (has id (victims db.snapshots root))))
  where
    spared :
        (has id (victims db.snapshots root) ≡ true) ⊎ (has id (victims db.snapshots root) ≡ false)
        → has id (victims db.snapshots root) ≡ false
    spared (inr e) = e
    spared (inl e) = absurd (
        false≢true (
          sym (
            victims-Avoids kept db.snapshots closed root n id
              (has-In id (victims db.snapshots root) e))
          ∙ k))

-- What is left still holds its parents.
pub delete_snapshot_cascade-HoldsParents :
    (db : Db) (kept : List String) (root : String)
    → HoldsParents kept db.snapshots
    → HoldsParents kept (delete_snapshot_cascade db root).0.snapshots
unfolding delete_snapshot_cascade delete_all
delete_snapshot_cascade-HoldsParents db kept root closed s i =
    closed s
      (select-In (λ (s : Snapshot). not (has s.id (victims db.snapshots root))) s db.snapshots i).0
