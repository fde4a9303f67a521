-- ===== src/Uploader/Server.antt =====
-- internal/agent/uploader/uploader.go, `flushBatch`: what the server has behind a batch.
use openbackup.Prelude.{
  ℕ, ◌+◌, ◌≡◌, ◌⊎◌, inl, inr, refl, ap, subst, Bool, true, false, Bytes, String, List, [], ◌∷◌, map,
  arith, str_eq, eq_iff, Bool-cases, length,
}
use openbackup.Prelude.Result.{ok, ok-injective, bind-ok}
use openbackup.Prelude.Sets.{has, In, In-has}
use openbackup.Uploader.{
  Piece, Batch, digest_of, digests, Sorted, sort_batch, Backend, put_all, flush_batch,
}

-- What a file upload relies on: the server names what it lacks, has what was put, and loses
-- nothing meanwhile; the workers take up every upload once.
pub record IsServer {S E : Type 0} (b : Backend S E) (knows : S → String → Bool) : Type 0 where
  pub answers :
      (s : S) (ds m : List String) (d : String)
      → b.missing s ds ≡ ok m
      → In d ds
      → (knows s d ≡ true) ⊎ In d m
  pub puts :
      (s s' : S) (d : String) (blob : Bytes) (n : ℕ) → b.put s d blob n ≡ ok s' → knows s' d ≡ true
  pub keeps :
      (s s' : S) (d : String) (blob : Bytes) (n : ℕ) (e : String)
      → b.put s d blob n ≡ ok s'
      → knows s e ≡ true
      → knows s' e ≡ true
  pub order_all : (p : Piece) (ps : List Piece) → In p ps → In p (b.order ps)

-- Each chunk of a batch is either uploaded or skipped.
sort_batch-length :
    (needed sent : List String) (ps : List Piece)
    → let w = sort_batch needed sent ps in length w.jobs + w.skipped ≡ length ps
unfolding sort_batch
sort_batch-length needed sent [] = refl
sort_batch-length needed sent (p ∷ ps) =
    ground (arith, sort_batch-length needed sent ps, sort_batch-length needed (p.digest ∷ sent) ps)

-- A digest that is needed is among the uploads, unless it was handed on before.
abbrev Handed : String → List String → List Piece → Type 0
Handed d sent jobs = (has d sent ≡ true) ⊎ ((q : Piece) × In q jobs × (q.digest ≡ d))

sort_batch-Handed :
    (needed sent : List String) (d : String) (ps : List Piece)
    → In d (map digest_of ps)
    → has d needed ≡ true
    → Handed d sent (sort_batch needed sent ps).jobs
unfolding sort_batch
sort_batch-Handed needed sent d [] i h = absurd i
sort_batch-Handed needed sent d (p ∷ ps) i h =
    at (Bool-cases (has p.digest needed)) (Bool-cases (has p.digest sent)) i
      (λ j. sort_batch-Handed needed sent d ps j h)
      (λ j. sort_batch-Handed needed (p.digest ∷ sent) d ps j h)
  where
    at :
        (has p.digest needed ≡ true) ⊎ (has p.digest needed ≡ false)
        → (has p.digest sent ≡ true) ⊎ (has p.digest sent ≡ false)
        → (p.digest ≡ d) ⊎ In d (map digest_of ps)
        → (In d (map digest_of ps) → Handed d sent (sort_batch needed sent ps).jobs)
        → (In d (map digest_of ps)
            → Handed d (p.digest ∷ sent) (sort_batch needed (p.digest ∷ sent) ps).jobs)
        → Handed d sent (sort_batch needed sent (p ∷ ps)).jobs
    at (inr n) c (inl q) ih ih' = absurd (ground (arith, ap (λ x. has x needed) q))
    at (inr n) c (inr j) ih ih' = rw n (ih j)
    at (inl n) (inl c) (inl q) ih ih' = inl (subst (λ x. has x sent ≡ true) q c)
    at (inl n) (inl c) (inr j) ih ih' = rw n (rw c (ih j))
    at (inl n) (inr c) (inl q) ih ih' = rw n (rw c (inr (p, inl refl, q)))
    at (inl n) (inr c) (inr j) ih ih' = rw n (rw c (further (ih' j)))
      where
        further :
            Handed d (p.digest ∷ sent) (sort_batch needed (p.digest ∷ sent) ps).jobs
            → Handed d sent (p ∷ (sort_batch needed (p.digest ∷ sent) ps).jobs)
        further (inr (q, k, e)) = inr (q, inr k, e)
        further (inl s) = same (Bool-cases (str_eq p.digest d)) s
          where
            same :
                (str_eq p.digest d ≡ true) ⊎ (str_eq p.digest d ≡ false)
                → has d (p.digest ∷ sent) ≡ true
                → Handed d sent (p ∷ (sort_batch needed (p.digest ∷ sent) ps).jobs)
            same (inl e) s = inr (p, inl refl, (eq_iff p.digest d).0 e)
            same (inr e) s = inl (rw e at s)

-- Nothing is lost on the way from one state of the server to another.
abbrev pub Grows : {S : Type 0} → (S → String → Bool) → S → S → Type 0
Grows knows s s' = (e : String) → knows s e ≡ true → knows s' e ≡ true

module _ {S E : Type 0} (b : Backend S E) (sum : Bytes → String) (knows : S → String → Bool)
    (server : IsServer b knows) where
  put_all-knows :
      (ps : List Piece) (s s' : S) (n : ℕ)
      → put_all b sum ps s ≡ ok (s', n)
      → Grows knows s s' × ((p : Piece) → In p ps → knows s' p.digest ≡ true)
  unfolding put_all
  put_all-knows [] s s' n h =
      let same : s ≡ s' = ap (λ (x : S × ℕ). x.0) (ok-injective h) in
      (λ e k. subst (λ x. knows x e ≡ true) same k, λ p i. absurd i)
  put_all-knows (p ∷ ps) s s' n h =
      let (blob, e1, h1) = bind-ok (b.encode p.content p.digest) _ h in
      let (s1, e2, h2) = bind-ok (b.put s p.digest blob (length p.content)) _ h1 in
      let ((s2, m), e3, h3) = bind-ok (put_all b sum ps s1) _ h2 in
      let same : s2 ≡ s' = ap (λ (x : S × ℕ). x.0) (ok-injective h3) in
      let (grows, has_all) = put_all-knows ps s1 s2 m e3 in
      let first = server.puts s s1 p.digest blob (length p.content) e2 in
      (
        λ e k.
            subst (λ x. knows x e ≡ true) same
              (grows e (server.keeps s s1 p.digest blob (length p.content) e e2 k)),
        λ q i. subst (λ x. knows x q.digest ≡ true) same (at s1 s2 first grows has_all q i),
      )
    where
      at :
          (s1 s2 : S)
          → knows s1 p.digest ≡ true
          → Grows knows s1 s2
          → ((p : Piece) → In p ps → knows s2 p.digest ≡ true)
          → (q : Piece) → In q (p ∷ ps)
          → knows s2 q.digest ≡ true
      at s1 s2 first grows all q (inl e) =
          subst (λ (x : Piece). knows s2 x.digest ≡ true) e (grows p.digest first)
      at s1 s2 first grows all q (inr i) = all q i

  pub flush_batch-knows :
      (s s' : S) (batch : Batch) (w : Sorted) (n : ℕ)
      → flush_batch b sum s batch ≡ ok (s', w, n)
      → Grows knows s s'
        × ((d : String) → In d (digests batch) → knows s' d ≡ true)
        × (length w.jobs + w.skipped ≡ length batch.pieces)
  unfolding flush_batch digests
  flush_batch-knows s s' batch w n h =
      let (needed, e1, h1) = bind-ok (b.missing s (map digest_of batch.pieces)) _ h in
      let sorted = sort_batch needed [] batch.pieces in
      let ((s1, m), e2, h2) = bind-ok (put_all b sum (b.order sorted.jobs) s) _ h1 in
      let same : s1 ≡ s' = ap (λ (x : S × Sorted × ℕ). x.0) (ok-injective h2) in
      let same_w : sorted ≡ w = ap (λ (x : S × Sorted × ℕ). x.1) (ok-injective h2) in
      let (grows, has_all) = put_all-knows (b.order sorted.jobs) s s1 m e2 in
      (
        λ e k. subst (λ x. knows x e ≡ true) same (grows e k),
        λ d i.
            subst (λ x. knows x d ≡ true) same
              (known s1 needed grows has_all d i
                (server.answers s (map digest_of batch.pieces) needed d e1 i)),
        subst (λ (x : Sorted). length x.jobs + x.skipped ≡ length batch.pieces) same_w
            (sort_batch-length needed [] batch.pieces),
      )
    where
      known :
          (s1 : S) (needed : List String)
          → Grows knows s s1
          → ((p : Piece)
              → In p (b.order (sort_batch needed [] batch.pieces).jobs)
              → knows s1 p.digest ≡ true)
          → (d : String) → In d (map digest_of batch.pieces)
          → (knows s d ≡ true) ⊎ In d needed
          → knows s1 d ≡ true
      known s1 needed grows all d i (inl k) = grows d k
      known s1 needed grows all d i (inr j) =
          at (sort_batch-Handed needed [] d batch.pieces i (In-has d needed j))
        where
          at : Handed d [] (sort_batch needed [] batch.pieces).jobs → knows s1 d ≡ true
          at (inl q) = cc
          at (inr (q, k, e)) =
              subst (λ x. knows s1 x ≡ true) e
                (all q (server.order_all q (sort_batch needed [] batch.pieces).jobs k))
