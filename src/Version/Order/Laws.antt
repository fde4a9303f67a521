-- ===== src/Version/Order/Laws.antt =====
-- internal/version/semver.go, `Compare` and `Highest`: each comparison of the file is a preorder.
use Prim.Native.Nat.{Ordering}
use openbackup.Prelude.{ℕ, suc, ◌≡◌, refl, sym, ◌∙◌, Bytes, List, [], ◌∷◌, arith, length}
use openbackup.Prelude.Result.{Result, ok, err}
use openbackup.Text.{bytes_compare}
use openbackup.Version.{
  SemVer, VersionError, then_cmp, cmp_nat, cmp_int, biased, parse_numeric, by_number, cmp_ident,
  cmp_common, cmp_pre, compare_versions,
}
use openbackup.Version.Order.{flip, IsPreorder, lex, lex-IsPreorder, pull-IsPreorder}

same-IsPreorder {ℓ} :
    {A : Type ℓ} {f g : A → A → Ordering}
    → ((a b : A) → f a b ≡ g a b)
    → IsPreorder g
    → IsPreorder f
same-IsPreorder e p = record {
  flipped = λ a b. cc (e a b, e b a, p.flipped a b);
  trans = λ a b c h k. e a c ∙ p.trans a b c (sym (e a b) ∙ h) (sym (e b c) ∙ k);
  cong = λ a b c h. e a c ∙ (p.cong a b c (sym (e a b) ∙ h) ∙ sym (e b c));
}

cmp_nat-IsPreorder : IsPreorder cmp_nat
unfolding cmp_nat
cmp_nat-IsPreorder = record {
  flipped = λ a b. ground arith;
  trans = λ a b c h k. ground arith;
  cong = λ a b c h. ground arith;
}

cmp_int-IsPreorder : IsPreorder cmp_int
unfolding cmp_int
cmp_int-IsPreorder = pull-IsPreorder biased cmp_nat-IsPreorder

-- Lists by their first difference; a prefix comes first.
cmp_list {ℓ} : {A : Type ℓ} → (A → A → Ordering) → List A → List A → Ordering
cmp_list f [] [] = Ordering.eq
cmp_list f [] (y ∷ ys) = Ordering.lt
cmp_list f (x ∷ xs) [] = Ordering.gt
cmp_list f (x ∷ xs) (y ∷ ys) = then_cmp (f x y) (cmp_list f xs ys)

module _ {ℓ} {A : Type ℓ} {f : A → A → Ordering} (p : IsPreorder f) where
  cmp_list-flipped : (xs ys : List A) → cmp_list f ys xs ≡ flip (cmp_list f xs ys)
  unfolding cmp_list
  cmp_list-flipped [] [] = refl
  cmp_list-flipped [] (y ∷ ys) = refl
  cmp_list-flipped (x ∷ xs) [] = refl
  cmp_list-flipped (x ∷ xs) (y ∷ ys) = ground (arith, p.flipped x y, cmp_list-flipped xs ys)

  cmp_list_trans :
      (xs ys zs : List A)
      → cmp_list f xs ys ≡ Ordering.lt
      → cmp_list f ys zs ≡ Ordering.lt
      → cmp_list f xs zs ≡ Ordering.lt
  unfolding cmp_list
  cmp_list_trans [] [] zs h k = k
  cmp_list_trans [] (y ∷ ys) [] h k = cc
  cmp_list_trans [] (y ∷ ys) (z ∷ zs) h k = refl
  cmp_list_trans (x ∷ xs) [] zs h k = cc
  cmp_list_trans (x ∷ xs) (y ∷ ys) [] h k = cc
  cmp_list_trans (x ∷ xs) (y ∷ ys) (z ∷ zs) h k = ground (
    arith,
    p.trans x y z,
    p.cong x y z,
    p.cong y z x,
    p.flipped x y,
    p.flipped y z,
    p.flipped x z,
    cmp_list_trans xs ys zs,
  )

  cmp_list-cong :
      (xs ys zs : List A) → cmp_list f xs ys ≡ Ordering.eq → cmp_list f xs zs ≡ cmp_list f ys zs
  unfolding cmp_list
  cmp_list-cong [] [] zs h = refl
  cmp_list-cong [] (y ∷ ys) zs h = cc
  cmp_list-cong (x ∷ xs) [] zs h = cc
  cmp_list-cong (x ∷ xs) (y ∷ ys) [] h = refl
  cmp_list-cong (x ∷ xs) (y ∷ ys) (z ∷ zs) h = ground (arith, p.cong x y z, cmp_list-cong xs ys zs)

  cmp_list-IsPreorder : IsPreorder (cmp_list f)
  cmp_list-IsPreorder = record {
    flipped = cmp_list-flipped;
    trans = cmp_list_trans;
    cong = cmp_list-cong;
  }

bytes_compare-eq-cmp_list : (s t : Bytes) → bytes_compare s t ≡ cmp_list cmp_nat s t
unfolding bytes_compare cmp_list cmp_nat
bytes_compare-eq-cmp_list [] [] = refl
bytes_compare-eq-cmp_list [] (d ∷ t) = refl
bytes_compare-eq-cmp_list (c ∷ s) [] = refl
bytes_compare-eq-cmp_list (c ∷ s) (d ∷ t) = ground (arith, bytes_compare-eq-cmp_list s t)

bytes_compare-IsPreorder : IsPreorder bytes_compare
bytes_compare-IsPreorder =
    same-IsPreorder bytes_compare-eq-cmp_list (cmp_list-IsPreorder cmp_nat-IsPreorder)

-- Numbers come before text.
by_key : Result VersionError ℕ × Bytes → Result VersionError ℕ × Bytes → Ordering
by_key (r, s) (r', s') = by_number r r' (bytes_compare s s')

by_key-IsPreorder : IsPreorder by_key
unfolding by_key
by_key-IsPreorder = record {
  flipped = λ (r, s) (r', s'). flipped r s r' s';
  trans = λ (r, s) (r', s') (r'', s''). trans r s r' s' r'' s'';
  cong = λ (r, s) (r', s') (r'', s''). cong r s r' s' r'' s'';
}
  where
    flipped :
        (r : Result VersionError ℕ) (s : Bytes) (r' : Result VersionError ℕ) (s' : Bytes)
        → by_number r' r (bytes_compare s' s) ≡ flip (by_number r r' (bytes_compare s s'))
    flipped (ok n) s (ok n') s' = cmp_int-IsPreorder.flipped n n'
    flipped (ok n) s (err _) s' = refl
    flipped (err _) s (ok n') s' = refl
    flipped (err _) s (err _) s' = bytes_compare-IsPreorder.flipped s s'

    trans :
        (r : Result VersionError ℕ) (s : Bytes) (r' : Result VersionError ℕ) (s' : Bytes)
        (r'' : Result VersionError ℕ) (s'' : Bytes)
        → by_number r r' (bytes_compare s s') ≡ Ordering.lt
        → by_number r' r'' (bytes_compare s' s'') ≡ Ordering.lt
        → by_number r r'' (bytes_compare s s'') ≡ Ordering.lt
    trans (ok n) s (ok n') s' (ok n'') s'' h k = cmp_int-IsPreorder.trans n n' n'' h k
    trans (ok n) s (ok n') s' (err _) s'' h k = refl
    trans (ok n) s (err _) s' (ok n'') s'' h k = cc
    trans (ok n) s (err _) s' (err _) s'' h k = refl
    trans (err _) s (ok n') s' r'' s'' h k = cc
    trans (err _) s (err _) s' (ok n'') s'' h k = cc
    trans (err _) s (err _) s' (err _) s'' h k = bytes_compare-IsPreorder.trans s s' s'' h k

    cong :
        (r : Result VersionError ℕ) (s : Bytes) (r' : Result VersionError ℕ) (s' : Bytes)
        (r'' : Result VersionError ℕ) (s'' : Bytes)
        → by_number r r' (bytes_compare s s') ≡ Ordering.eq
        → by_number r r'' (bytes_compare s s'') ≡ by_number r' r'' (bytes_compare s' s'')
    cong (ok n) s (ok n') s' (ok n'') s'' h = cmp_int-IsPreorder.cong n n' n'' h
    cong (ok n) s (ok n') s' (err _) s'' h = refl
    cong (ok n) s (err _) s' r'' s'' h = cc
    cong (err _) s (ok n') s' r'' s'' h = cc
    cong (err _) s (err _) s' (ok n'') s'' h = refl
    cong (err _) s (err _) s' (err _) s'' h = bytes_compare-IsPreorder.cong s s' s'' h

cmp_ident-IsPreorder : IsPreorder cmp_ident
unfolding cmp_ident by_key
cmp_ident-IsPreorder = pull-IsPreorder (λ s. (parse_numeric s, s)) by_key-IsPreorder

cmp_nat-suc : (a b : ℕ) → cmp_nat (suc a) (suc b) ≡ cmp_nat a b
unfolding cmp_nat
cmp_nat-suc a b = ground arith

-- The loop over the common identifiers and the comparison of the lengths, at once.
cmp_common-eq-cmp_list :
    (vs os : List Bytes)
    → then_cmp (cmp_common vs os) (cmp_nat (length vs) (length os)) ≡ cmp_list cmp_ident vs os
unfolding cmp_common cmp_list
cmp_common-eq-cmp_list [] [] = unfold cmp_nat in refl
cmp_common-eq-cmp_list [] (o ∷ os) = unfold cmp_nat in ground arith
cmp_common-eq-cmp_list (v ∷ vs) [] = unfold cmp_nat in ground arith
cmp_common-eq-cmp_list (v ∷ vs) (o ∷ os) =
    ground (arith, cmp_common-eq-cmp_list vs os, cmp_nat-suc (length vs) (length os))

-- No prerelease comes last.
key_last : List Bytes → ℕ
key_last [] = 1
key_last (v ∷ vs) = 0

cmp_pre-eq-lex :
    (vs os : List Bytes)
    → cmp_pre vs os ≡ lex (λ a b. cmp_nat (key_last a) (key_last b)) (cmp_list cmp_ident) vs os
unfolding cmp_pre key_last
cmp_pre-eq-lex [] [] = unfold cmp_nat cmp_list in refl
cmp_pre-eq-lex [] (o ∷ os) = unfold cmp_nat in refl
cmp_pre-eq-lex (v ∷ vs) [] = unfold cmp_nat in refl
cmp_pre-eq-lex (v ∷ vs) (o ∷ os) =
    cmp_common-eq-cmp_list (v ∷ vs) (o ∷ os) ∙ (unfold cmp_nat in refl)

cmp_pre-IsPreorder : IsPreorder cmp_pre
cmp_pre-IsPreorder = same-IsPreorder cmp_pre-eq-lex (
    lex-IsPreorder (pull-IsPreorder key_last cmp_nat-IsPreorder)
      (cmp_list-IsPreorder cmp_ident-IsPreorder))

-- Precedence is a total preorder: comparing the other way round flips the answer, "older than" is
-- transitive, and versions that compare equal are interchangeable.
pub compare_versions-IsPreorder : IsPreorder compare_versions
unfolding compare_versions
compare_versions-IsPreorder =
    lex-IsPreorder (pull-IsPreorder (λ (v : SemVer). v.major) cmp_int-IsPreorder) (
      lex-IsPreorder (pull-IsPreorder (λ (v : SemVer). v.minor) cmp_int-IsPreorder) (
        lex-IsPreorder (pull-IsPreorder (λ (v : SemVer). v.patch) cmp_int-IsPreorder)
          (pull-IsPreorder (λ (v : SemVer). v.pre) cmp_pre-IsPreorder)))
