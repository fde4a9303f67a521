-- ===== src/Store/Lookup.antt =====
-- internal/server/store: what the updates of the tables do to the queries.
use openbackup.Prelude.{
  ◌≡◌, ◌≢◌, ◌↔◌, ◌⊎◌, inl, inr, refl, sym, ap, subst, ◌∙◌, Bool, true, false, not, ◌||◌, String,
  List, [], ◌∷◌, ◌++◌, Option, none, some, arith, str_eq, eq_iff, if◌then◌else◌, Bool-cases, All,
}
use mathlib.Core.Bool.{false≢true}
use openbackup.Prelude.Sets.{select}
use openbackup.Store.{Snapshot, RefRow, ChunkRow, find_in, update_in, has_chunk, refs_of}
use openbackup.Store.Snapshots.{insert_ref, insert_refs, update_all, missing_of}

-- The row that is found has the id that was asked for.
pub find_in-id : (j : String) (ss : List Snapshot) (s : Snapshot) → find_in j ss ≡ some s → s.id ≡ j
unfolding find_in
find_in-id j [] s h = cc
find_in-id j (x ∷ ss) s h = ground (arith, find_in-id j ss s, eq_iff x.id j)

pub find_in-append :
    (j : String) (ss ts : List Snapshot)
    → find_in j (ss ++ ts) ≡ elim (find_in j ss) [ none ↦ find_in j ts | some s ↦ some s ]
unfolding find_in
find_in-append j [] ts = refl
find_in-append j (s ∷ ss) ts = ground (arith, find_in-append j ss ts)

-- A row that is not the new one was there before.
pub find_in-append_ne :
    (j : String) (ss : List Snapshot) (new s : Snapshot)
    → find_in j (ss ++ new ∷ []) ≡ some s
    → new ≢ s
    → find_in j ss ≡ some s
unfolding find_in
find_in-append_ne j [] new s h n = ground arith
find_in-append_ne j (x ∷ ss) new s h n = ground (arith, find_in-append_ne j ss new s)

abbrev pub mapped : (Snapshot → Snapshot) → Option Snapshot → Option Snapshot
mapped f none = none
mapped f (some s) = some (f s)

-- Updates keep the primary key.
pub find_in-update :
    (id j : String) (f : Snapshot → Snapshot) (ss : List Snapshot)
    → ((s : Snapshot) → (f s).id ≡ s.id)
    → find_in j (update_in id f ss)
      ≡ (if str_eq id j then mapped f (find_in j ss) else find_in j ss)
unfolding find_in update_in
find_in-update id j f [] k = ground arith
find_in-update id j f (s ∷ ss) k = ground (
  arith,
  k s,
  find_in-update id j f ss k,
  eq_iff s.id id,
  eq_iff s.id j,
  eq_iff id j,
  eq_iff (f s).id j,
)

pub find_in-update_all :
    (j : String) (f : Snapshot → Snapshot) (ss : List Snapshot)
    → ((s : Snapshot) → (f s).id ≡ s.id)
    → find_in j (update_all f ss) ≡ mapped f (find_in j ss)
unfolding find_in
find_in-update_all j f [] k = refl
find_in-update_all j f (s ∷ ss) k =
    ground (arith, k s, find_in-update_all j f ss k, eq_iff s.id j, eq_iff (f s).id j)

-- A deletion by id takes the rows of that id and no others.
pub find_in-select :
    (p : String → Bool) (j : String) (ss : List Snapshot)
    → find_in j (select (λ (s : Snapshot). p s.id) ss) ≡ (if p j then find_in j ss else none)
unfolding find_in
find_in-select p j [] = ground arith
find_in-select p j (s ∷ ss) =
    step (Bool-cases (p s.id)) (Bool-cases (str_eq s.id j)) (find_in-select p j ss)
  where
    step :
        (p s.id ≡ true) ⊎ (p s.id ≡ false)
        → (str_eq s.id j ≡ true) ⊎ (str_eq s.id j ≡ false)
        → find_in j (select (λ (s : Snapshot). p s.id) ss) ≡ (if p j then find_in j ss else none)
        → find_in j (select (λ (s : Snapshot). p s.id) (s ∷ ss))
          ≡ (if p j then find_in j (s ∷ ss) else none)
    step (inl e) (inl h) ih =
        let e' : p j ≡ true = subst (λ i. p i ≡ true) ((eq_iff s.id j).0 h) e in rw (e, e') (rw h)
    step (inl e) (inr h) ih = rw e (rw h ih)
    step (inr e) (inl h) ih =
        let e' : p j ≡ false = subst (λ i. p i ≡ false) ((eq_iff s.id j).0 h) e in
        rw e (rw e' (ih ∙ rw e'))
    step (inr e) (inr h) ih = rw e (rw h ih)

pub refs_of-insert_ref_ne :
    (id j d : String) (rs : List RefRow)
    → str_eq id j ≡ false
    → refs_of j (insert_ref id d rs) ≡ refs_of j rs
unfolding refs_of insert_ref
refs_of-insert_ref_ne id j d [] h = rw h
refs_of-insert_ref_ne id j d (r ∷ rs) h = ground (arith, refs_of-insert_ref_ne id j d rs h)

pub refs_of-insert_refs_ne :
    (id j : String) (ds : List String) (rs : List RefRow)
    → str_eq id j ≡ false
    → refs_of j (insert_refs id ds rs) ≡ refs_of j rs
unfolding insert_refs
refs_of-insert_refs_ne id j [] rs h = refl
refs_of-insert_refs_ne id j (d ∷ ds) rs h =
    refs_of-insert_refs_ne id j ds (insert_ref id d rs) h ∙ refs_of-insert_ref_ne id j d rs h

pub refs_of-select :
    (p : String → Bool) (j : String) (rs : List RefRow)
    → p j ≡ true
    → refs_of j (select (λ (r : RefRow). p r.snapshot) rs) ≡ refs_of j rs
unfolding refs_of
refs_of-select p j [] h = refl
refs_of-select p j (r ∷ rs) h =
    step (Bool-cases (p r.snapshot)) (Bool-cases (str_eq r.snapshot j)) (refs_of-select p j rs h)
  where
    step :
        (p r.snapshot ≡ true) ⊎ (p r.snapshot ≡ false)
        → (str_eq r.snapshot j ≡ true) ⊎ (str_eq r.snapshot j ≡ false)
        → refs_of j (select (λ (r : RefRow). p r.snapshot) rs) ≡ refs_of j rs
        → refs_of j (select (λ (r : RefRow). p r.snapshot) (r ∷ rs)) ≡ refs_of j (r ∷ rs)
    step (inl e) c ih = rw e (ap (λ l. if str_eq r.snapshot j then r.digest ∷ l else l) ih)
    step (inr e) (inl k) ih = absurd (false≢true (sym e ∙ (ap p ((eq_iff r.snapshot j).0 k) ∙ h)))
    step (inr e) (inr k) ih = rw e (rw k ih)

-- Nothing is missing exactly where every digest has its row.
pub missing_of_iff :
    (cs : List ChunkRow) (ds : List String)
    → (missing_of cs ds ≡ []) ↔ All (λ d. has_chunk d cs ≡ true) ds
unfolding missing_of
missing_of_iff cs [] = (λ e. tt, λ h. refl)
missing_of_iff cs (d ∷ ds) = step (Bool-cases (has_chunk d cs)) (missing_of_iff cs ds)
  where
    some_left : ¬ (d ∷ missing_of cs ds ≡ [])
    some_left q = cc

    step :
        (has_chunk d cs ≡ true) ⊎ (has_chunk d cs ≡ false)
        → (missing_of cs ds ≡ []) ↔ All (λ d. has_chunk d cs ≡ true) ds
        → (missing_of cs (d ∷ ds) ≡ []) ↔ All (λ d. has_chunk d cs ≡ true) (d ∷ ds)
    step (inl e) (to, from) = (λ q. (e, to (rw e at q)), λ (h, hs). rw e (from hs))
    step (inr e) (to, from) =
        (λ q. absurd (some_left (rw e at q)), λ (h, hs). absurd (false≢true (sym e ∙ h)))

-- A registration adds rows and takes none.
pub has_chunk-append :
    (d : String) (cs ds : List ChunkRow)
    → has_chunk d (cs ++ ds) ≡ (has_chunk d cs || has_chunk d ds)
unfolding has_chunk
has_chunk-append d [] ds = refl
has_chunk-append d (c ∷ cs) ds = ground (arith, has_chunk-append d cs ds)

pub has_chunk-select :
    (e d : String) (cs : List ChunkRow)
    → str_eq e d ≡ false
    → has_chunk d (select (λ (c : ChunkRow). not (str_eq c.digest e)) cs) ≡ has_chunk d cs
unfolding has_chunk
has_chunk-select e d [] h = refl
has_chunk-select e d (c ∷ cs) h =
    ground (arith, has_chunk-select e d cs h, eq_iff c.digest e, eq_iff c.digest d, eq_iff e d)

pub has_chunk-select_self :
    (e : String) (cs : List ChunkRow)
    → has_chunk e (select (λ (c : ChunkRow). not (str_eq c.digest e)) cs) ≡ false
unfolding has_chunk
has_chunk-select_self e [] = refl
has_chunk-select_self e (c ∷ cs) = ground (arith, has_chunk-select_self e cs)
