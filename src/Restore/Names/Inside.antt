-- ===== src/Restore/Names/Inside.antt =====
-- internal/agent/restore/restore.go, `safeJoin`: no name from a server leads out of the target.
use openbackup.Prelude.{
  ◌≡◌, ◌⊎◌, inl, inr, refl, sym, ap, ◌∙◌, true, false, ◌||◌, Bytes, List, [], ◌∷◌, ◌++◌,
  append_assoc, arith, ◌==◌, if◌then◌else◌, if_cases, Bool-cases, is_empty, All, All-reverse, map,
}
use mathlib.Core.List.{reverse, reverse-append, reverse-reverse}
use openbackup.Prelude.Result.{Result, ok, ok-injective, err-ne-ok}
use openbackup.Text.{split, bytes_eq, onto_head}
use openbackup.Text.Lemmas.{Without, bytes_eq_refl}
use openbackup.Store.Paths.{slash, to_slash}
use openbackup.Restore.Names.{
  dot, dot_dot, without_last, clean_segment, clean_loop, clean_name, join_under, relative, goes_up,
  last_segment, is_reserved_name, NameError, safe_join,
}

-- A segment that names a file or a folder of its own
pub record IsPlain (seg : Bytes) : Type 0 where
  pub named : is_empty seg ≡ false
  pub not_here : bytes_eq seg (b'.' ∷ []) ≡ false
  pub not_up : bytes_eq seg (b'.' ∷ b'.' ∷ []) ≡ false
  pub one_segment : Without slash seg

split-All : (s : Bytes) → All (Without slash) (split slash s)
unfolding split
split-All [] = (tt, tt)
split-All (c ∷ s) = at (Bool-cases (c == slash)) (split-All s)
  where
    head :
        (ps : List Bytes)
        → (c == slash) ≡ false
        → All (Without slash) ps
        → All (Without slash) (onto_head c ps)
    head [] e h = ((e, tt), tt)
    head (p ∷ ps) e (h, hs) = ((e, h), hs)

    at :
        ((c == slash) ≡ true) ⊎ ((c == slash) ≡ false)
        → All (Without slash) (split slash s)
        → All
            (Without slash)
            (if c == slash then [] ∷ split slash s else onto_head c (split slash s))
    at (inl e) ih = rw e (tt, ih)
    at (inr e) ih = rw e (head (split slash s) e ih)

clean_segment-IsPlain :
    (seg : Bytes) (above : List Bytes)
    → Without slash seg
    → All IsPlain above
    → All IsPlain (clean_segment seg above)
clean_segment-IsPlain seg above w h =
    if_cases (All IsPlain) (is_empty seg || bytes_eq seg dot) _ _ (λ e. h)
      (λ e.
        if_cases (All IsPlain) (bytes_eq seg dot_dot) _ _ (λ k. rest above h)
          (λ k. (record { named = left e; not_here = right e; not_up = k; one_segment = w }, h)))
  where
    rest : (above : List Bytes) → All IsPlain above → All IsPlain (without_last above)
    rest [] h = tt
    rest (s ∷ ss) (h, hs) = hs

    left : (is_empty seg || bytes_eq seg dot) ≡ false → is_empty seg ≡ false
    left e = ground arith

    right : (is_empty seg || bytes_eq seg dot) ≡ false → bytes_eq seg dot ≡ false
    right e = ground arith

clean_loop-IsPlain :
    (above segs : List Bytes)
    → All (Without slash) segs
    → All IsPlain above
    → All IsPlain (clean_loop above segs)
unfolding clean_loop
clean_loop-IsPlain above [] w h = h
clean_loop-IsPlain above (seg ∷ segs) (w, ws) h =
    clean_loop-IsPlain (clean_segment seg above) segs ws (clean_segment-IsPlain seg above w h)

clean_name-IsPlain : (name : Bytes) → All IsPlain (clean_name name)
unfolding clean_name
clean_name-IsPlain name =
    All-reverse IsPlain (clean_loop [] (split slash (map to_slash name)))
      (clean_loop-IsPlain [] (split slash (map to_slash name)) (split-All (map to_slash name)) tt)

-- Cleaning again changes nothing.
clean_loop-plain :
    (above segs : List Bytes) → All IsPlain segs → clean_loop above segs ≡ reverse segs ++ above
unfolding clean_loop
clean_loop-plain above [] h = refl
clean_loop-plain above (seg ∷ segs) (h, hs) =
    ap (λ a. clean_loop a segs) kept
    ∙ clean_loop-plain (seg ∷ above) segs hs
    ∙ sym (append_assoc (reverse segs) (seg ∷ []) above)
    ∙ ap (λ l. l ++ above) (sym (reverse-append (seg ∷ []) segs))
  where
    kept : clean_segment seg above ≡ seg ∷ above
    kept = rw h.named (rw h.not_here (rw h.not_up refl))

join_under-append :
    (root segs : List Bytes) → All IsPlain segs → join_under root segs ≡ root ++ segs
unfolding join_under
join_under-append root segs h =
    ap reverse (clean_loop-plain (reverse root) segs h)
    ∙ reverse-append (reverse segs) (reverse root)
    ∙ ap (λ l. l ++ reverse (reverse segs)) (reverse-reverse root)
    ∙ ap (λ l. root ++ l) (reverse-reverse segs)

pub relative-append : (root segs : List Bytes) → relative root (root ++ segs) ≡ segs
unfolding relative
relative-append [] segs = refl
relative-append (r ∷ root) segs = rw (bytes_eq_refl r) (relative-append root segs)

stays : (segs : List Bytes) → All IsPlain segs → goes_up segs ≡ false
stays [] h = refl
stays (s ∷ ss) (h, hs) = h.not_up

module _ (to_lower : Bytes → Bytes) (root : List Bytes) (name : Bytes) where
  pub joined-append : join_under root (clean_name name) ≡ root ++ clean_name name
  joined-append = join_under-append root (clean_name name) (clean_name-IsPlain name)

  pub inside : goes_up (relative root (join_under root (clean_name name))) ≡ false
  inside =
      ap (λ l. goes_up (relative root l)) joined-append
      ∙ ap goes_up (relative-append root (clean_name name))
      ∙ stays (clean_name name) (clean_name-IsPlain name)

  -- A path that `safeJoin` gives for a name, be that absolute, in Windows spelling or full of "..",
  -- is the root itself or leads down from it: by segments that are not empty, neither "." nor "..",
  -- and without a slash.
  pub safe_join-inside :
      (joined : List Bytes)
      → safe_join to_lower root name ≡ ok joined
      → (segs : List Bytes) × (joined ≡ root ++ segs) × All IsPlain segs
  unfolding safe_join
  safe_join-inside joined h = placed joined h
    where
      placed :
          (joined : List Bytes)
          → safe_join to_lower root name ≡ ok joined
          → (segs : List Bytes) × (joined ≡ root ++ segs) × All IsPlain segs
      placed joined h =
          let same : join_under root (clean_name name) ≡ joined =
            if_cases Gives (is_empty name) _ _ (λ e q. absurd (err-ne-ok q))
              (λ e q.
                if_cases Gives
                  (is_reserved_name to_lower (last_segment (join_under root (clean_name name)))) _ _
                  (λ e q. absurd (err-ne-ok q)) (λ e q. ok-injective q) (rw inside at q))
              h in
          (clean_name name, sym same ∙ joined-append, clean_name-IsPlain name)
        where
          Gives : Result NameError (List Bytes) → Type 0
          Gives r = r ≡ ok joined → join_under root (clean_name name) ≡ joined
