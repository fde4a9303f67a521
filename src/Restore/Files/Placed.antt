-- ===== src/Restore/Files/Placed.antt =====
-- internal/agent/restore/restore.go, `uniqueName`: the name that a file gets.
use openbackup.Prelude.{
  ℕ, zero, suc, ◌+◌, ◌≡◌, ◌⊎◌, inl, inr, refl, ap, subst, ◌∙◌, Bool, true, false, Bytes, Option,
  none, some, Bool-cases, Option-cases,
}
use openbackup.Prelude.Result.{Result, ok, err, ok-injective, err-ne-ok}
use openbackup.Restore.Names.{candidate, most_names, name_loop, unique_name}
use openbackup.Restore.Files.{
  Conflict, skip_existing, overwrite, keep_both, Node, file, folder, link, Disk, write, render,
  FileError, Surroundings, quoting, checked, read_chunk, read_chunks, place, whole_matches,
  write_verified, Outcome, restored, skipped, failed, outcome, without_name, fetch_into,
  make_folders, restore_file,
}

name_loop-free :
    (left : ℕ) (free : Bytes → Bool) (dest : Bytes) (i : ℕ) (name : Bytes)
    → name_loop left free dest i ≡ some name
    → free name ≡ true
unfolding name_loop
name_loop-free zero free dest i name h = cc
name_loop-free (suc left) free dest i name h =
    at (Bool-cases (free (candidate dest i))) (name_loop-free left free dest (i + 1) name)
  where
    at :
        (free (candidate dest i) ≡ true) ⊎ (free (candidate dest i) ≡ false)
        → (name_loop left free dest (i + 1) ≡ some name → free name ≡ true)
        → free name ≡ true
    at (inl e) ih =
        let same : candidate dest i ≡ name = some-injective (rw e at h) in
        subst (λ x. free x ≡ true) same e
      where
        some-injective : {a b : Bytes} → some a ≡ some b → a ≡ b
        some-injective q = cc
    at (inr e) ih = ih (rw e at h)

vacant-none :
    (o : Option Node) → (elim o as (λ x. Bool) [ none ↦ true | some n ↦ false ]) ≡ true → o ≡ none
vacant-none none h = refl
vacant-none (some n) h = cc

-- A name that is chosen is free, unless what has it may be overwritten.
pub place-free :
    (policy : Conflict) (stat_of : Bytes → Option Node) (dest name : Bytes)
    → place policy stat_of dest (stat_of dest) ≡ ok (some name)
    → (policy ≡ overwrite) ⊎ (stat_of name ≡ none)
unfolding unique_name
place-free policy stat_of dest name h = at policy (Option-cases (stat_of dest)) h
  where
    some-injective : {a b : Bytes} → some a ≡ some b → a ≡ b
    some-injective q = cc

    none-ne : ¬ (◌≡◌ {A = Option Bytes} none (some name))
    none-ne q = cc

    chosen :
        (o : Option Bytes)
        → unique_name (λ p. elim (stat_of p) [ none ↦ true | some n ↦ false ]) dest ≡ o
        → (elim o as (λ x. Result FileError (Option Bytes)) [
          | none ↦ err openbackup.Restore.Files.no_free_name
          | some x ↦ ok (some x)
        ])
          ≡ ok (some name)
        → stat_of name ≡ none
    chosen none q k = absurd (err-ne-ok k)
    chosen (some x) q k =
        let same : x ≡ name = some-injective (ok-injective k) in
        vacant-none (stat_of name) (
          name_loop-free most_names (λ p. elim (stat_of p) [ none ↦ true | some n ↦ false ]) dest 1
            name (q ∙ ap (λ y. some y) same))

    at :
        (policy : Conflict)
        → (stat_of dest ≡ none) ⊎ ((n : Node) × (stat_of dest ≡ some n))
        → place policy stat_of dest (stat_of dest) ≡ ok (some name)
        → (policy ≡ overwrite) ⊎ (stat_of name ≡ none)
    at policy (inl e) h =
        let h' : place policy stat_of dest none ≡ ok (some name) = rw e at h in
        inr (subst (λ x. stat_of x ≡ none) (some-injective (ok-injective h')) e)
    at overwrite (inr e) h = inl refl
    at skip_existing (inr (n, e)) h =
        let h' : place skip_existing stat_of dest (some n) ≡ ok (some name) = rw e at h in
        absurd (none-ne (ok-injective h'))
    at keep_both (inr (n, e)) h =
        let h' : place keep_both stat_of dest (some n) ≡ ok (some name) = rw e at h in
        inr (
          chosen (unique_name (λ p. elim (stat_of p) [ none ↦ true | some n ↦ false ]) dest) refl
            h')
