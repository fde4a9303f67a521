-- ===== src/Store/Snapshots/Chain.antt =====
-- internal/server/store/snapshots.go, `StartSnapshot` and `snapshotChain`: the chain of a snapshot
-- that is opened.
pub mod Walk
use openbackup.Prelude.{
  ℕ, zero, suc, ◌+◌, ◌≤◌, ◌<◌, ◌≡◌, ap, Bool, false, String, List, [], ◌∷◌, ◌++◌, Option, none,
  str_eq, length,
}
use openbackup.Prelude.Result.{Result, ok, ok-injective, err-ne-ok}
use openbackup.Store.{
  full, delta, running, no_counts, no_error, is_full, Snapshot, Db, not_found, unresolvable,
  find_snapshot,
}
use openbackup.Store.Snapshots.{max_chain_length, chain_loop, StartRequest, Opened, or_now}

-- What the code opens: a full snapshot, or a delta on a parent to whose chain one more fits.
abbrev as_full : Opened
as_full = record { kind = full; parent = "" }

abbrev as_delta : String → Opened
as_delta parent = record { kind = delta; parent = parent }

record Fits (db : Db) (parent : String) : Type 0 where
  named : str_eq parent "" ≡ false
  chain : List String
  resolved : chain_loop (suc max_chain_length) db.snapshots parent [] ≡ ok chain
  short : length chain < max_chain_length

-- The row that is inserted
abbrev new_row : String → ℕ → String → String → StartRequest → Opened → Snapshot
new_row id now user device req o = record {
  id = id;
  user = user;
  device = device;
  kind = o.kind;
  status = running;
  parent = o.parent;
  started = or_now req.started now;
  updated = now;
  completed = none;
  counts = no_counts;
  error = no_error;
  pinned = false;
  roots = req.roots;
}

module _ (db : Db) (id : String) (now : ℕ) (user device : String) (req : StartRequest)
    (fresh : find_snapshot db id ≡ none) (named : str_eq id "" ≡ false) where
  abbrev rows : Opened → List Snapshot
  rows o = db.snapshots ++ new_row id now user device req o ∷ []

  abbrev HasChain : Opened → Type 0
  HasChain o =
      (chain : List String) × (chain_loop (suc max_chain_length) (rows o) id [] ≡ ok chain)
      × (0 < length chain)
      × (length chain ≤ max_chain_length)
