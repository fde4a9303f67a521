-- ===== src/Prelude/Sets.antt =====
-- Rows and sets of ids, kept as lists: a table, a `map[string]struct{}`, the answer of a query.
use openbackup.Prelude.{
  ◌≡◌, ◌⊎◌, inl, inr, refl, sym, ap, subst, Bool, true, false, ◌||◌, String, List, [], ◌∷◌, ◌++◌,
  map, arith, str_eq, eq_iff, if◌then◌else◌, Bool-cases, All,
}

pub str_eq_refl : (a : String) → str_eq a a ≡ true
str_eq_refl a = (eq_iff a a).1 refl

abbrev pub has : String → List String → Bool
has a [] = false
has a (b ∷ bs) = str_eq b a || has a bs

-- The rows that pass a test
abbrev pub select : {A : Type 0} → (A → Bool) → List A → List A
select p [] = []
select p (x ∷ xs) = let rest = select p xs in if p x then x ∷ rest else rest

abbrev pub In : {A : Type 0} → A → List A → Type 0
In a [] = ⊥
In a (x ∷ xs) = (x ≡ a) ⊎ In a xs

module _ {A : Type 0} where
  pub In-select : (p : A → Bool) (a : A) (xs : List A) → p a ≡ true → In a xs → In a (select p xs)
  In-select p a [] h i = i
  In-select p a (x ∷ xs) h (inl e) =
      let h' : p x ≡ true = subst (λ y. p y ≡ true) (sym e) h in rw h' (inl e)
  In-select p a (x ∷ xs) h (inr i) = go (p x) (In-select p a xs h i)
    where
      go : (b : Bool) → In a (select p xs) → In a (if b then x ∷ select p xs else select p xs)
      go true j = inr j
      go false j = j

  pub select-In : (p : A → Bool) (a : A) (xs : List A) → In a (select p xs) → In a xs × (p a ≡ true)
  select-In p a [] i = absurd i
  select-In p a (x ∷ xs) i = go (Bool-cases (p x)) (select-In p a xs)
    where
      go :
          (p x ≡ true) ⊎ (p x ≡ false)
          → (In a (select p xs) → In a xs × (p a ≡ true))
          → In a (x ∷ xs) × (p a ≡ true)
      go (inr e) ih = let (j, h) = ih (rw e at i) in (inr j, h)
      go (inl e) ih = head (rw e at i) ih
        where
          head :
              (x ≡ a) ⊎ In a (select p xs)
              → (In a (select p xs) → In a xs × (p a ≡ true))
              → In a (x ∷ xs) × (p a ≡ true)
          head (inl e') ih = (inl e', subst (λ y. p y ≡ true) e' e)
          head (inr j) ih = let (k, h) = ih j in (inr k, h)

  pub In-append : (a : A) (xs ys : List A) → In a xs ⊎ In a ys → In a (xs ++ ys)
  In-append a [] ys (inl i) = absurd i
  In-append a [] ys (inr i) = i
  In-append a (x ∷ xs) ys (inl (inl e)) = inl e
  In-append a (x ∷ xs) ys (inl (inr i)) = inr (In-append a xs ys (inl i))
  In-append a (x ∷ xs) ys (inr i) = inr (In-append a xs ys (inr i))

  pub append-In : (a : A) (xs ys : List A) → In a (xs ++ ys) → In a xs ⊎ In a ys
  append-In a [] ys i = inr i
  append-In a (x ∷ xs) ys (inl e) = inl (inl e)
  append-In a (x ∷ xs) ys (inr i) = step (append-In a xs ys i)
    where
      step : In a xs ⊎ In a ys → In a (x ∷ xs) ⊎ In a ys
      step (inl j) = inl (inr j)
      step (inr j) = inr j

  pub In-map : {B : Type 0} (f : A → B) (a : A) (xs : List A) → In a xs → In (f a) (map f xs)
  In-map f a [] i = absurd i
  In-map f a (x ∷ xs) (inl e) = inl (ap f e)
  In-map f a (x ∷ xs) (inr i) = inr (In-map f a xs i)

  pub map-In :
      {B : Type 0} (f : A → B) (b : B) (xs : List A)
      → In b (map f xs)
      → (a : A) × In a xs × (f a ≡ b)
  map-In f b [] i = absurd i
  map-In f b (x ∷ xs) (inl e) = (x, inl refl, e)
  map-In f b (x ∷ xs) (inr i) = let (a, j, e) = map-In f b xs i in (a, inr j, e)

pub has-In : (a : String) (bs : List String) → has a bs ≡ true → In a bs
has-In a [] h = cc
has-In a (b ∷ bs) h = step (Bool-cases (str_eq b a)) (has-In a bs)
  where
    step : (str_eq b a ≡ true) ⊎ (str_eq b a ≡ false) → (has a bs ≡ true → In a bs) → In a (b ∷ bs)
    step (inl e) ih = inl ((eq_iff b a).0 e)
    step (inr e) ih = inr (ih (rw e at h))

pub In-has : (a : String) (bs : List String) → In a bs → has a bs ≡ true
In-has a [] i = absurd i
In-has a (b ∷ bs) (inl e) = rw ((eq_iff b a).1 e)
In-has a (b ∷ bs) (inr i) = ground (arith, In-has a bs i)

pub All-In : {A : Type 0} (P : A → Type 0) (a : A) (xs : List A) → All P xs → In a xs → P a
All-In P a [] h i = absurd i
All-In P a (x ∷ xs) (p, h) (inl e) = subst P e p
All-In P a (x ∷ xs) (p, h) (inr i) = All-In P a xs h i

pub In-All : {A : Type 0} (P : A → Type 0) (xs : List A) → ((a : A) → In a xs → P a) → All P xs
In-All P [] h = tt
In-All P (x ∷ xs) h = (h x (inl refl), In-All P xs (λ a i. h a (inr i)))
