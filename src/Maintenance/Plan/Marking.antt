-- ===== src/Maintenance/Plan/Marking.antt =====
-- internal/server/maintenance/plan.go, `markKept`: what the marking of one id adds.
use openbackup.Prelude.{
  ℕ, zero, suc, ◌≡◌, ◌⊎◌, inl, inr, sym, ap, subst, ◌∙◌, Bool, true, false, ◌||◌, String, List, ◌∷◌,
  Option, none, some, arith, str_eq, eq_iff, Bool-cases, Option-cases,
}
use openbackup.Prelude.Sets.{has, str_eq_refl}
use openbackup.Maintenance.Plan.{Row, find_row, mark_kept}

-- The chain of an id ends within so many rows: at an id that is empty, or at one without a row.
unfoldable pub ends_within : ℕ → List Row → String → Bool
ends_within zero rows id = str_eq id ""
ends_within (suc hops) rows id = elim (str_eq id "") [
  | true ↦ true
  | false ↦ elim (find_row id rows) [ none ↦ true | some r ↦ ends_within hops rows r.parent ]
]

-- The parent of every kept row is kept, but where it is `pending`.
abbrev pub IsClosedBut : String → List Row → List String → Type 0
IsClosedBut pending rows keep =
    (id : String) (r : Row)
    → has id keep ≡ true
    → find_row id rows ≡ some r
    → (str_eq r.parent "" || has r.parent keep || str_eq r.parent pending) ≡ true

abbrev pub IsClosed : List Row → List String → Type 0
IsClosed rows keep =
    (id : String) (r : Row)
    → has id keep ≡ true
    → find_row id rows ≡ some r
    → (str_eq r.parent "" || has r.parent keep) ≡ true

abbrev pub Extends : List String → List String → Type 0
Extends keep keep' = (id : String) → has id keep ≡ true → has id keep' ≡ true

has-cons : (x id : String) (keep : List String) → has id keep ≡ true → has id (x ∷ keep) ≡ true
has-cons x id keep h = ground arith

module _ (rows : List Row) where
  pub mark_kept-Extends :
      (hops : ℕ) (id : String) (keep : List String) → Extends keep (mark_kept hops rows id keep)
  unfolding mark_kept
  mark_kept-Extends zero id keep x h = h
  mark_kept-Extends (suc hops) id keep x h =
      step (str_eq id "" || has id keep) (find_row id rows)
        (λ r. mark_kept-Extends hops r.parent (id ∷ keep) x (has-cons id x keep h))
    where
      step :
          (b : Bool) (o : Option Row)
          → ((r : Row) → has x (mark_kept hops rows r.parent (id ∷ keep)) ≡ true)
          → has x (elim b [
            | true ↦ keep
            | false ↦ elim o [
              | none ↦ id ∷ keep
              | some r ↦ mark_kept hops rows r.parent (id ∷ keep)
            ]
          ])
            ≡ true
      step true o ih = h
      step false none ih = has-cons id x keep h
      step false (some r) ih = ih r

  -- The marking keeps the id that it starts with.
  pub mark_kept-has :
      (hops : ℕ) (id : String) (keep : List String)
      → str_eq id "" ≡ false
      → has id (mark_kept (suc hops) rows id keep) ≡ true
  unfolding mark_kept
  mark_kept-has hops id keep n = step (Bool-cases (has id keep)) (find_row id rows)
    where
      first : has id (id ∷ keep) ≡ true
      first = rw (str_eq_refl id)

      step :
          (has id keep ≡ true) ⊎ (has id keep ≡ false)
          → (o : Option Row)
          → has id (elim (str_eq id "" || has id keep) [
            | true ↦ keep
            | false ↦ elim o [
              | none ↦ id ∷ keep
              | some r ↦ mark_kept hops rows r.parent (id ∷ keep)
            ]
          ])
            ≡ true
      step (inl e) o = rw (n, e) e
      step (inr e) none = rw (n, e) first
      step (inr e) (some r) = rw (n, e) (mark_kept-Extends hops r.parent (id ∷ keep) id first)

  -- Nothing is left to mark at an empty id, or at one that is kept.
  IsClosed-here :
      (id : String) (keep : List String)
      → (str_eq id "" || has id keep) ≡ true
      → IsClosedBut id rows keep
      → IsClosed rows keep
  IsClosed-here id keep e h x r i f = same (Bool-cases (str_eq r.parent id)) (h x r i f)
    where
      same :
          (str_eq r.parent id ≡ true) ⊎ (str_eq r.parent id ≡ false)
          → (str_eq r.parent "" || has r.parent keep || str_eq r.parent id) ≡ true
          → (str_eq r.parent "" || has r.parent keep) ≡ true
      same (inl q) k =
          subst (λ j. (str_eq j "" || has j keep) ≡ true) (sym ((eq_iff r.parent id).0 q)) e
      same (inr q) k = ground arith

  -- One more id is kept, and what is pending moves on to its parent.
  moves_on :
      (id pending : String) (keep : List String)
      → ((r : Row) → find_row id rows ≡ some r → r.parent ≡ pending)
      → IsClosedBut id rows keep
      → IsClosedBut pending rows (id ∷ keep)
  moves_on id pending keep row h x r i f = at (Bool-cases (str_eq id x))
    where
      at :
          (str_eq id x ≡ true) ⊎ (str_eq id x ≡ false)
          → (str_eq r.parent "" || has r.parent (id ∷ keep) || str_eq r.parent pending) ≡ true
      at (inl q) =
          let p : r.parent ≡ pending = row r (ap (λ j. find_row j rows) ((eq_iff id x).0 q) ∙ f) in
          ground (arith, eq_iff r.parent pending)
      at (inr q) = ground (arith, h x r (rw q at i) f, eq_iff r.parent id, eq_iff id r.parent)

  pub mark_kept-IsClosed :
      (hops : ℕ) (id : String) (keep : List String)
      → ends_within hops rows id ≡ true
      → IsClosedBut id rows keep
      → IsClosed rows (mark_kept hops rows id keep)
  unfolding mark_kept ends_within
  mark_kept-IsClosed zero id keep e h = IsClosed-here id keep (ground arith) h
  mark_kept-IsClosed (suc hops) id keep e h =
      step (Bool-cases (str_eq id "" || has id keep)) (Option-cases (find_row id rows))
        (λ r n. mark_kept-IsClosed hops r.parent (id ∷ keep) n)
    where
      no_row : find_row id rows ≡ none → IsClosed rows (id ∷ keep)
      no_row f x r i g =
          ground (arith, moves_on id "" keep (λ r' q. absurd (none-ne (sym f ∙ q))) h x r i g)
        where
          none-ne : {r : Row} → ¬ (◌≡◌ {A = Option Row} none (some r))
          none-ne q = cc

      step :
          ((str_eq id "" || has id keep) ≡ true) ⊎ ((str_eq id "" || has id keep) ≡ false)
          → (find_row id rows ≡ none) ⊎ ((r : Row) × (find_row id rows ≡ some r))
          → ((r : Row)
              → ends_within hops rows r.parent ≡ true
              → IsClosedBut r.parent rows (id ∷ keep)
              → IsClosed rows (mark_kept hops rows r.parent (id ∷ keep)))
          → IsClosed rows (mark_kept (suc hops) rows id keep)
      step (inl q) o ih = rw (q, mark_kept) (IsClosed-here id keep q h)
      step (inr q) (inl f) ih = rw (q, mark_kept) (rw f (no_row f))
      step (inr q) (inr (r, f)) ih =
          rw (q, mark_kept)
            (rw f (
              ih r (chain r f) (
                moves_on id r.parent keep
                  (λ r' g. ap (λ (y : Row). y.parent) (some-injective (sym g ∙ f))) h)))
        where
          some-injective : {a b : Row} → some a ≡ some b → a ≡ b
          some-injective k = cc

          chain : (r : Row) → find_row id rows ≡ some r → ends_within hops rows r.parent ≡ true
          chain r f =
              let n : str_eq id "" ≡ false = ground arith in rw f at (rw (n, ends_within) at e)

  -- The marking adds ids of rows only, where the parent of a row is a row.
  pub mark_kept-rows :
      ((id : String) (r : Row)
        → find_row id rows ≡ some r
        → str_eq r.parent "" ≡ false
        → (q : Row) × (find_row r.parent rows ≡ some q))
      → (hops : ℕ) (id : String) (keep : List String)
      → (str_eq id "" ≡ false → (q : Row) × (find_row id rows ≡ some q))
      → ((x : String) → has x keep ≡ true → (q : Row) × (find_row x rows ≡ some q))
      → (x : String) → has x (mark_kept hops rows id keep) ≡ true
      → (q : Row) × (find_row x rows ≡ some q)
  unfolding mark_kept
  mark_kept-rows based zero id keep own h x i = h x i
  mark_kept-rows based (suc hops) id keep own h x i =
      step (Bool-cases (str_eq id "" || has id keep)) (Option-cases (find_row id rows))
        (λ r. mark_kept-rows based hops r.parent (id ∷ keep))
    where
      HasRow : String → Type 0
      HasRow y = (q : Row) × (find_row y rows ≡ some q)

      also :
          (r : Row) → find_row id rows ≡ some r → (y : String) → has y (id ∷ keep) ≡ true → HasRow y
      also r f y k = pick (Bool-cases (str_eq id y))
        where
          pick : (str_eq id y ≡ true) ⊎ (str_eq id y ≡ false) → HasRow y
          pick (inl e) = subst HasRow ((eq_iff id y).0 e) (r, f)
          pick (inr e) = h y (rw e at k)

      step :
          ((str_eq id "" || has id keep) ≡ true) ⊎ ((str_eq id "" || has id keep) ≡ false)
          → (find_row id rows ≡ none) ⊎ ((r : Row) × (find_row id rows ≡ some r))
          → ((r : Row)
              → (str_eq r.parent "" ≡ false → HasRow r.parent)
              → ((y : String) → has y (id ∷ keep) ≡ true → HasRow y)
              → (y : String) → has y (mark_kept hops rows r.parent (id ∷ keep)) ≡ true
              → HasRow y)
          → HasRow x
      step (inl q) o ih = h x (rw (q, mark_kept) at i)
      step (inr q) (inl f) ih = let (r, g) = own (ground arith) in absurd (none-ne (sym f ∙ g))
        where
          none-ne : {r : Row} → ¬ (◌≡◌ {A = Option Row} none (some r))
          none-ne k = cc
      step (inr q) (inr (r, f)) ih =
          ih r (based id r f) (also r f) x (rw f at (rw (q, mark_kept) at i))
