-- ===== src/Restore/Find.antt =====
-- internal/agent/restore/restore.go, `FindSnapshot`: a user's reference to a snapshot.
use openbackup.Prelude.{
  Bool, true, false, ◌&&◌, ◌||◌, Bytes, String, List, [], ◌∷◌, ◌++◌, ltb, ◌==◌, str_eq,
  if◌then◌else◌, codes,
}
use openbackup.Prelude.Result.{Result, ok, err}
use openbackup.Prelude.Sets.{select}
use openbackup.Store.{Snapshot, is_complete}

pub data FindError : Type 0 where
  no_backup no_match ambiguous : FindError

-- strings.HasPrefix, of an id and a reference
abbrev pub starts : Bytes → Bytes → Bool
starts [] s = true
starts (c ∷ p) [] = false
starts (c ∷ p) (d ∷ s) = c == d && starts p s

abbrev pub has_prefix : Snapshot → String → Bool
has_prefix s ref = starts (codes ref) (codes s.id)

abbrev pub done : Snapshot → Bool
done s = is_complete s.status

-- The newest, the first of those that started together
unfoldable pub newest : Snapshot → List Snapshot → Snapshot
newest best [] = best
newest best (s ∷ ss) = newest (if ltb best.started s.started then s else best) ss

abbrev pub one_match : List Snapshot → Result FindError Snapshot
one_match [] = err no_match
one_match (s ∷ []) = ok s
one_match (s ∷ t ∷ ss) = err ambiguous

-- The loop over the completed snapshots; an id that is the reference ends it.
unfoldable pub match_loop : String → List Snapshot → List Snapshot → Result FindError Snapshot
match_loop ref matches [] = one_match matches
match_loop ref matches (s ∷ ss) =
    let rest = match_loop ref (if has_prefix s ref then matches ++ s ∷ [] else matches) ss in
    if str_eq s.id ref then ok s else rest

abbrev pub is_latest : String → Bool
is_latest ref = str_eq ref "" || str_eq ref "latest"

abbrev pub resolve : String → List Snapshot → Result FindError Snapshot
resolve ref [] = err no_backup
resolve ref (s ∷ ss) = if is_latest ref then ok (newest s (s ∷ ss)) else match_loop ref [] (s ∷ ss)

unfoldable pub find_snapshot : List Snapshot → String → Result FindError Snapshot
unfolding newest match_loop
find_snapshot snapshots ref = resolve ref (select done snapshots)
