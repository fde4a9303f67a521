-- ===== src/Version/Order.antt =====
-- internal/version/semver.go, `Compare`: a total preorder on versions.
pub mod Laws
pub mod Highest
use Prim.Native.Nat.{Ordering}
use openbackup.Prelude.{ℕ, ◌≡◌, refl, Bytes, List, [], ◌∷◌, arith, ltb, length, if◌then◌else◌}
use openbackup.Version.{then_cmp}

abbrev pub flip : Ordering → Ordering
flip Ordering.lt = Ordering.gt
flip Ordering.eq = Ordering.eq
flip Ordering.gt = Ordering.lt

-- A three-way comparison that is antisymmetric up to its own equality, and transitive.
pub record IsPreorder {ℓ} {A : Type ℓ} (cmp : A → A → Ordering) : Type ℓ where
  pub flipped : (a b : A) → cmp b a ≡ flip (cmp a b)
  pub trans : (a b c : A) → cmp a b ≡ Ordering.lt → cmp b c ≡ Ordering.lt → cmp a c ≡ Ordering.lt
  pub cong : (a b c : A) → cmp a b ≡ Ordering.eq → cmp a c ≡ cmp b c

-- Ties of the first comparison are broken by the second.
abbrev pub lex {ℓ} : {A : Type ℓ} → (A → A → Ordering) → (A → A → Ordering) → A → A → Ordering
lex f g a b = then_cmp (f a b) (g a b)

module _ {ℓ} {A : Type ℓ} {f g : A → A → Ordering} (p : IsPreorder f) (q : IsPreorder g) where
  pub lex-IsPreorder : IsPreorder (lex f g)
  lex-IsPreorder = record {
    flipped = λ a b. ground (arith, p.flipped a b, q.flipped a b);
    trans = λ a b c h k. ground (
      arith,
      p.trans a b c,
      p.cong a b c,
      p.cong b c a,
      p.flipped a b,
      p.flipped b c,
      p.flipped a c,
      q.trans a b c,
    );
    cong = λ a b c h. ground (arith, p.cong a b c, q.cong a b c);
  }

pub pull-IsPreorder {ℓ κ} :
    {A : Type ℓ} {B : Type κ} {f : B → B → Ordering} (key : A → B)
    → IsPreorder f
    → IsPreorder (λ a b. f (key a) (key b))
pull-IsPreorder key p = record {
  flipped = λ a b. p.flipped (key a) (key b);
  trans = λ a b c. p.trans (key a) (key b) (key c);
  cong = λ a b c. p.cong (key a) (key b) (key c);
}
