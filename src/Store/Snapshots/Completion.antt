-- ===== src/Store/Snapshots/Completion.antt =====
-- internal/server/store/snapshots.go, `CompleteSnapshot`: what is marked complete is restorable.
use openbackup.Prelude.{
  ℕ, ◌≡◌, ◌≢◌, ◌↔◌, refl, ◌∙◌, true, String, List, [], ◌∷◌, some, arith, eq_iff, if◌then◌else◌, All,
  take,
}
use openbackup.Prelude.Result.{ok, err}
use openbackup.Prelude.Sets.{str_eq_refl}
use openbackup.Store.{
  running, complete, is_complete, is_running, Snapshot, Db, marked_failed, find_snapshot, has_chunk,
  refs_of,
}
use openbackup.Store.Snapshots.{
  missing_of, missing_snapshot_chunks, CompleteRequest, Verdict, judge, close, close_if_running,
  complete_snapshot,
}
use openbackup.Store.Lookup.{find_in-update, missing_of_iff}

-- Every digest that the snapshot references has its metadata row.
abbrev pub AllStored : Db → String → Type 0
AllStored db id = All (λ d. has_chunk d db.chunks ≡ true) (refs_of id db.refs)

-- The query is cut to five rows, and is empty exactly where nothing is missing.
missing_snapshot_chunks_iff :
    (db : Db) (id : String) → (missing_snapshot_chunks db id 5 ≡ []) ↔ AllStored db id
unfolding missing_snapshot_chunks
missing_snapshot_chunks_iff db id =
    let (to, from) = missing_of_iff db.chunks (refs_of id db.refs) in
    (λ e. to (untaken (missing_of db.chunks (refs_of id db.refs)) e), λ h. rw (from h))
  where
    untaken : (ds : List String) → take 5 ds ≡ [] → ds ≡ []
    untaken [] e = refl
    untaken (d ∷ ds) e = cc

judge_iff :
    (missing : List String) (message : String)
    → (is_complete (judge missing message).status ≡ true) ↔ ((missing ≡ []) × (message ≡ ""))
unfolding judge
judge_iff [] message = ground (arith, eq_iff message "")
judge_iff (d ∷ ds) message = ground arith

judge-ne-running :
    (missing : List String) (message : String) → (judge missing message).status ≢ running
unfolding judge
judge-ne-running [] message = ground arith
judge-ne-running (d ∷ ds) message = ground arith

module _ (db : Db) (now : ℕ) (id : String) (req : CompleteRequest) (s : Snapshot)
    (found : find_snapshot db id ≡ some s) (open_now : is_running s.status ≡ true) where
  abbrev verdict : Verdict
  verdict = judge (missing_snapshot_chunks db id 5) req.error

  verdict_iff : (is_complete verdict.status ≡ true) ↔ (AllStored db id × (req.error ≡ ""))
  verdict_iff =
      let (to, from) = judge_iff (missing_snapshot_chunks db id 5) req.error in
      let (to', from') = missing_snapshot_chunks_iff db id in
      (
        λ h. let (none_missing, quiet) = to h in (to' none_missing, quiet),
        λ (h, quiet). from (from' h, quiet),
      )

  row_after : find_snapshot (complete_snapshot db now id req).0 id ≡ some (close verdict req now s)
  unfolding complete_snapshot
  row_after = rw found (
      rw open_now (
        find_in-update id id (close_if_running verdict req now) db.snapshots (λ s'. ground arith)
        ∙ (rw (str_eq_refl id) (rw found (rw open_now)))))

  answer :
      (complete_snapshot db now id req).1
      ≡ (if is_complete verdict.status then ok tt else err marked_failed)
  unfolding complete_snapshot
  answer = rw found (rw open_now)

  -- A snapshot that is open is marked complete, and the caller told so, exactly when every digest
  -- that it references is stored and the agent reports no error; otherwise it is marked failed.
  pub complete_snapshot_iff :
      (s' : Snapshot) × (find_snapshot (complete_snapshot db now id req).0 id ≡ some s')
      × ((s'.status ≡ complete) ↔ (AllStored db id × (req.error ≡ "")))
      × (((complete_snapshot db now id req).1 ≡ ok tt) ↔ (s'.status ≡ complete))
      × (s'.status ≢ running)
  complete_snapshot_iff =
      let (to, from) = verdict_iff in
      (
        close verdict req now s,
        row_after,
        (λ h. to (ground arith), λ h. ground (arith, from h)),
        rw answer (ground arith),
        judge-ne-running (missing_snapshot_chunks db id 5) req.error,
      )
