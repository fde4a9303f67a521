-- ===== src/Lib.antt =====
-- OpenBackup, a backup program in Go: an agent scans the user's folders, cuts files into chunks and
-- uploads what the server lacks; the server keeps snapshots, each a list of entries that reference
-- chunks, thins them out and collects chunks that nothing references any more.
--
-- Which file models which part:
--   Version           internal/version/semver.go and release.go: `Parse` is `parse`, `String` is
--                     `to_string`, `Compare` is `compare_versions`, `Highest` is `highest`;
--                     Version/Release has `DecideRelease` and `CheckPullRequest`.
--   Chunk             internal/chunk: the configuration and its thresholds, the gear table; Chunk/Cut
--                     has `cutpoint`, Chunk/Split `Split`, Chunk/Stream the `Chunker` with `fill` and
--                     `Next` over a script of what `Read` returns.
--   Store             internal/server/store: the tables, `StartSnapshot`, `AddEntries`,
--                     `CompleteSnapshot`, `FailStaleSnapshots` (Store/Snapshots), `RegisterChunk`,
--                     `MissingChunks`, `DeleteChunkRow` (Store/Chunks), `DeleteSnapshotCascade`,
--                     `DeleteDevice`, `SetSnapshotPinned` (Store/Deletion), `cleanStoredPath`
--                     (Store/Paths).
--                     Store/Restorable has these as the steps of one system.
--                     Store/Tree has `treeRange` and `TreeEntry`, Store/Tree/Children `Tree` and
--                     `treeChildren`.
--   Codec             internal/codec and internal/hash: `Encode`, `Decode`, `Validate`; Codec/Keys has
--                     the master key of key.go. Codec/Varint and Codec/Base32 are encoding/binary
--                     and encoding/base32 as far as they are called.
--   Uploader          internal/agent/uploader/uploader.go: `UploadFile` and `flushBatch`.
--   Restore           internal/agent/restore/restore.go: the pages of `Run`, `safeJoin` and the other
--                     names (Restore/Names), `restoreFile`, `restoreSymlink` and the body of the loop
--                     (Restore/Files), `FindSnapshot` (Restore/Find).
--   Watcher           internal/agent/watcher/watcher.go: `handleEvent`, `addNewTree` and the cases of
--                     `Run`; Watcher/Steps has the reader of its channels.
--   Maintenance       internal/server/maintenance: `planRetention` (Maintenance/Plan),
--                     `applyRetention` and `collectGarbage` (Maintenance/Pass).
--   Ignore            internal/ignore: `matchSegment` (Ignore/Glob), `ParsePattern` and `Match` of a
--                     pattern (Ignore/Pattern), the `Matcher` (Ignore/Matcher).
--   Governor          internal/agent/governor/governor.go: `Evaluate` with its cache and pauses.
--   Prelude, Text     tests, lists and bytes over native numbers; Go's `strings` as far as it is
--                     called. Examples has runs on small inputs.
--
-- Go values: a string or a byte slice is a list of bytes, and an identifier that is only compared a
-- text; an `int` that may be negative is an integer, or a number modulo 2 ^ 64 where it can wrap; a
-- map is the list of its rows; an error is a value of a result type. A method that changes the
-- database takes the tables and returns them; a transaction that fails returns none. Clock, random
-- ids and what the operating system reports are arguments.
--
-- Fuel: the loops of `Split` and `Next` are given the length of what is left, since each chunk is
-- not empty; the loop over a name's glob is given what its theorem shows to be enough; the chain of a
-- snapshot is followed for 65 steps and a retention chain for 1000, as in the code; the tree of a
-- deletion is followed as many levels as there are rows; garbage collection runs at most one round
-- more than there are chunks. The listing of a folder and a restore run at most one round more than
-- there are rows, and a varint has at most ten bytes.
--
-- Not modelled: HTTP, the times and modes of files, SQL as such, and concurrency other than the order
-- of the store's calls and of a batch's uploads. Ciphers, hashes and compression are arguments, with
-- what is relied on of them as hypotheses. strings.ToLower, strings.ToUpper, filepath.Clean and the
-- tables of built-in ignore rules are arguments; a user's retention settings are never negative.
pub mod Prelude
pub mod Text
pub mod Version
pub mod Chunk
pub mod Store
pub mod Ignore
pub mod Maintenance
pub mod Governor
pub mod Codec
pub mod Uploader
pub mod Restore
pub mod Examples
pub mod Watcher
