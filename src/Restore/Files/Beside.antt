-- ===== src/Restore/Files/Beside.antt =====
-- internal/agent/restore/restore.go: names that mean the target itself, and digests too short for the
-- texts of the errors.
use openbackup.Prelude.{
  ℕ, suc, ◌<◌, ◌≡◌, refl, sym, subst, ap, ◌∙◌, Bool, true, false, Bytes, String, List, [], ◌++◌,
  append-nil, Option, none, some, lt→ltb, is_empty, length, codes,
}
use openbackup.Prelude.Result.{Result, ok, err}
use openbackup.Store.{Entry}
use openbackup.Restore.Names.{
  clean_name, join_under, relative, last_segment, is_reserved_name, safe_join, candidate, name_loop,
  unique_name,
}
use openbackup.Restore.Names.Inside.{inside, joined-append, relative-append}
use openbackup.Restore.Files.{
  keep_both, Node, file, Disk, write, render, Surroundings, stat, crash, read_chunk, read_chunks,
  whole_matches, no_free_name, FileError, fetch_into, restored, place, make_folders, restore_file,
  without_name,
}

-- A name that cleans to nothing, such as "..", is placed at the target itself.
safe_join-target :
    (to_lower : Bytes → Bytes) (target : List Bytes) (name : Bytes)
    → is_empty name ≡ false
    → clean_name name ≡ []
    → is_reserved_name to_lower (last_segment target) ≡ false
    → safe_join to_lower target name ≡ ok target
unfolding safe_join
safe_join-target to_lower target name named nothing free =
    let at_target : join_under target (clean_name name) ≡ target =
      joined-append to_lower target name ∙ ap (λ l. target ++ l) nothing ∙ append-nil target in
    rw named (rw (inside to_lower target name) (rw at_target (rw free refl)))

relative_self : (target : List Bytes) → relative target target ≡ []
relative_self target = ap (relative target) (sym (append-nil target)) ∙ relative-append target []

place-keep_both :
    (stat_of : Bytes → Option Node) (dest : Bytes) (node : Node)
    → stat_of dest ≡ some node
    → stat_of (candidate dest 1) ≡ none
    → place keep_both stat_of dest (stat_of dest) ≡ ok (some (candidate dest 1))
unfolding unique_name
place-keep_both stat_of dest node exists vacant =
    ap (place keep_both stat_of dest) exists
    ∙ ap chosen
        (first 998 (λ p. elim (stat_of p) [ none ↦ true | some n ↦ false ]) (ap is_vacant vacant))
  where
    is_vacant : Option Node → Bool
    is_vacant o = elim o [ none ↦ true | some n ↦ false ]

    chosen : Option Bytes → Result FileError (Option Bytes)
    chosen o = elim o [ none ↦ err no_free_name | some x ↦ ok (some x) ]

    first :
        (left : ℕ) (free : Bytes → Bool)
        → free (candidate dest 1) ≡ true
        → name_loop (suc left) free dest 1 ≡ some (candidate dest 1)
    first left free h = unfold name_loop in rw h refl

restore_file-at :
    (w : Surroundings) (entry : Entry) (target segs : List Bytes) (name : Bytes) (disk : Disk)
    → place keep_both
        (stat w disk)
        (render (target ++ segs))
        (stat w disk (render (target ++ segs)))
      ≡ ok (some name)
    → restore_file w keep_both false entry target segs disk
      ≡ fetch_into w entry disk name (make_folders disk target (without_name segs))
unfolding restore_file
restore_file-at w entry target segs name disk h = rw (h, restore_file) refl

module _ (to_lower : Bytes → Bytes) (w : Surroundings) (entry : Entry) (target : List Bytes)
    (name content : Bytes) (node : Node) (disk : Disk) where
  -- Where both copies are to be kept, an entry whose name cleans to nothing, such as "..", is
  -- written next to the target folder and not below it, if the target exists, a name beside it is
  -- free, its own name is not reserved, and the content is sound.
  pub restore_file-beside :
      is_empty name ≡ false
      → clean_name name ≡ []
      → is_reserved_name to_lower (last_segment target) ≡ false
      → stat w disk (render target) ≡ some node
      → stat w disk (candidate (render target) 1) ≡ none
      → read_chunks w entry.chunks ≡ ok content
      → whole_matches w entry content ≡ true
      → w.can_write (candidate (render target) 1) ≡ true
      → (safe_join to_lower target name ≡ ok target)
        × (restore_file w keep_both false entry target (relative target target) disk
            ≡ restored (length content) (write disk (candidate (render target) 1) (file content)))
  unfolding make_folders
  restore_file-beside named nothing free exists vacant sound whole writes =
      let here : target ++ [] ≡ target = append-nil target in
      let placed : place keep_both (stat w disk) (render (target ++ []))
            (stat w disk (render (target ++ [])))
          ≡ ok (some (candidate (render target) 1)) =
        subst
          (λ t.
            place keep_both (stat w disk) (render t) (stat w disk (render t))
            ≡ ok (some (candidate (render target) 1)))
          (sym here) (place-keep_both (stat w disk) (render target) node exists vacant) in
      (
        safe_join-target to_lower target name named nothing free,
        ap (λ segs. restore_file w keep_both false entry target segs disk) (relative_self target)
            ∙ restore_file-at w entry target [] (candidate (render target) 1) disk placed
            ∙ rw sound (rw whole (rw writes refl)),
      )

-- A digest that is too short for the text of its error, and that is not on the server, crashes the
-- restore of the file: the error is never recorded.
pub read_chunk-crash :
    (w : Surroundings) (digest : String)
    → length (codes digest) < 12
    → w.fetch digest ≡ none
    → read_chunk w digest ≡ err crash
unfolding read_chunk
read_chunk-crash w digest short missing =
    rw (missing, read_chunk) (rw (lt→ltb (length (codes digest)) 12 short) refl)
