-- ===== src/Store/Snapshots/Chain/Walk.antt =====
-- internal/server/store/snapshots.go, `snapshotChain`: the walk from a snapshot to its base.
use openbackup.Prelude.{
  ℕ, zero, suc, ◌+◌, ◌≤◌, ◌<◌, ◌≡◌, ◌⊎◌, inl, inr, refl, ap, subst, ◌∙◌, Bool, true, false, String,
  List, ◌∷◌, ◌++◌, Option, none, some, arith, str_eq, length,
}
use openbackup.Prelude.Result.{Result, ok, err, ok-injective, err-ne-ok}
use openbackup.Store.{is_full, Snapshot, StoreError, not_found, unresolvable, find_in}
use openbackup.Store.Lookup.{find_in-append}
use openbackup.Store.Snapshots.{chain_loop}

-- One step of a walk that ends well: it is at the base, or goes on to the parent.
record Walked (f : ℕ) (ss : List Snapshot) (current : String) (acc c : List String) : Type 0 where
  row : Snapshot
  found : find_in current ss ≡ some row
  goes :
      ((is_full row.kind ≡ true) × (current ∷ acc ≡ c))
      ⊎ ((is_full row.kind ≡ false)
          × (str_eq row.parent "" ≡ false)
          × (chain_loop f ss row.parent (current ∷ acc) ≡ ok c))

chain_loop-Walked :
    (f : ℕ) (ss : List Snapshot) (current : String) (acc c : List String)
    → chain_loop (suc f) ss current acc ≡ ok c
    → Walked f ss current acc c
unfolding chain_loop
chain_loop-Walked f ss current acc c h = at (find_in current ss) refl h
  where
    at_parent :
        (s : Snapshot) (b : Bool)
        → find_in current ss ≡ some s
        → is_full s.kind ≡ false
        → str_eq s.parent "" ≡ b
        → (elim b as (λ x. Result StoreError (List String)) [
          | true ↦ err unresolvable
          | false ↦ chain_loop f ss s.parent (current ∷ acc)
        ])
          ≡ ok c
        → Walked f ss current acc c
    at_parent s true q k e h = absurd (err-ne-ok h)
    at_parent s false q k e h = record { row = s; found = q; goes = inr (k, e, h) }

    at_kind :
        (s : Snapshot) (b : Bool)
        → find_in current ss ≡ some s
        → is_full s.kind ≡ b
        → (elim b as (λ x. Result StoreError (List String)) [
          | true ↦ ok (current ∷ acc)
          | false ↦ elim (str_eq s.parent "") [
            | true ↦ err unresolvable
            | false ↦ chain_loop f ss s.parent (current ∷ acc)
          ]
        ])
          ≡ ok c
        → Walked f ss current acc c
    at_kind s true q k h = record { row = s; found = q; goes = inl (k, ok-injective h) }
    at_kind s false q k h = at_parent s (str_eq s.parent "") q k refl h

    at :
        (o : Option Snapshot)
        → find_in current ss ≡ o
        → (elim o as (λ x. Result StoreError (List String)) [
          | none ↦ err not_found
          | some s ↦ elim (is_full s.kind) [
            | true ↦ ok (current ∷ acc)
            | false ↦ elim (str_eq s.parent "") [
              | true ↦ err unresolvable
              | false ↦ chain_loop f ss s.parent (current ∷ acc)
            ]
          ]
        ])
          ≡ ok c
        → Walked f ss current acc c
    at none q h = absurd (err-ne-ok h)
    at (some s) q h = at_kind s (is_full s.kind) q refl h

chain_loop-zero :
    (ss : List Snapshot) (current : String) (acc c : List String)
    → ¬ (chain_loop zero ss current acc ≡ ok c)
unfolding chain_loop
chain_loop-zero ss current acc c h = err-ne-ok h

chain_loop-longer :
    (f : ℕ) (ss : List Snapshot) (current : String) (acc c : List String)
    → chain_loop f ss current acc ≡ ok c
    → length acc < length c
chain_loop-longer zero ss current acc c h = absurd (chain_loop-zero ss current acc c h)
chain_loop-longer (suc f) ss current acc c h =
    at (chain_loop-Walked f ss current acc c h)
      (λ s. chain_loop-longer f ss s.parent (current ∷ acc) c)
  where
    at :
        Walked f ss current acc c
        → ((s : Snapshot)
            → chain_loop f ss s.parent (current ∷ acc) ≡ ok c
            → length (current ∷ acc) < length c)
        → length acc < length c
    at w ih = elim w.goes [
      | inl (k, e) ↦ subst (λ l. length acc < length l) e (omega arith)
      | inr (k, e, h) ↦ omega (arith, ih w.row h)
    ]

-- A walk that ended well ends the same way with more rows, on top of a longer list, and on any fuel
-- that its length allows.
pub chain_loop-again :
    (f n : ℕ) (ss ts : List Snapshot) (current : String) (acc more c : List String)
    → chain_loop f ss current acc ≡ ok c
    → length c ≤ n + length acc
    → chain_loop n (ss ++ ts) current (acc ++ more) ≡ ok (c ++ more)
unfolding chain_loop
chain_loop-again f zero ss ts current acc more c h fits =
    absurd (omega (arith, chain_loop-longer f ss current acc c h, fits))
chain_loop-again zero (suc n) ss ts current acc more c h fits =
    absurd (chain_loop-zero ss current acc c h)
chain_loop-again (suc f) (suc n) ss ts current acc more c h fits =
    at (chain_loop-Walked f ss current acc c h)
      (λ s h. chain_loop-again f n ss ts s.parent (current ∷ acc) more c h (omega (arith, fits)))
  where
    at :
        Walked f ss current acc c
        → ((s : Snapshot)
            → chain_loop f ss s.parent (current ∷ acc) ≡ ok c
            → chain_loop n (ss ++ ts) s.parent ((current ∷ acc) ++ more) ≡ ok (c ++ more))
        → chain_loop (suc n) (ss ++ ts) current (acc ++ more) ≡ ok (c ++ more)
    at w ih =
        let found : find_in current (ss ++ ts) ≡ some w.row =
          find_in-append current ss ts ∙ rw w.found in
        elim w.goes [
          | inl (k, e) ↦ rw (found, chain_loop) (rw k (ap (λ l. ok (l ++ more)) e))
          | inr (k, e, h) ↦ rw (found, chain_loop) (rw k (rw e (ih w.row h)))
        ]
