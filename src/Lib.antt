-- ===== src/Lib.antt =====
-- A model of tally, a version control system whose states are sets of element records with an
-- additive checksum (a setsum), and whose history is a log of patches in two forms: an intent, which
-- names content, and the realized delta, which names the records consumed and produced.
--
-- The parts, from the bottom up, with the source that each one models:
--   Prelude      lists over native numbers, byte strings with the methods of `str`, UTF-8, and the
--                `Error` and `Result` of src/lib.rs; an error has a kind and no text
--   BTreeMap     the ordered map of the standard library as a sorted association list
--   Base64       src/b64.rs: `encode`, `decode`
--   Setsum       the `setsum` crate as an interface (record Setsum) and `Sum` of src/ident.rs
--   Ident        src/ident.rs: `hex`, `is_hex64`, `sha3_hex` (SHA3-256 is the interface Sha3);
--                `ElementRecord` with `new`, `to_line`, `to_bytes`, `parse`
--   Json         src/ident.rs: `canonical_json`, `record_id`, `verify_record_id`, over a type of
--                `serde_json::Value`; a parsed float has no value here, as no code reads it
--   Manifest     src/manifest.rs: `insert`, `remove`, `from_records`, `sum`, `to_bytes`, `parse`
--   Blobs        src/blobs.rs: the pool as a map from names to contents
--   Patch        src/patch.rs: `Op`, `apply_realized_to_sum`, `apply_realized_to_manifest`,
--                `apply_intent`, which returns its result and the manifest that it leaves; Span
--                holds `find_unique` and `replace_unique`
--   Log          src/log.rs: `LogLine`, `validate`, `verify_chain`, `last_state_position`; Serialize
--                holds the JSON value of a line, Seal `seal`, and Stored the parsers of stored
--                lines and of whole logs
--   Repo         src/repo.rs: `Repository` as a value; Run holds the operations on one file,
--                `read_log` and `current_state`, Replay the checks of `current_state`, Apply what
--                appends to a log or moves an anchor, Lineage the walks along the history of a
--                fork, Collect `gc_blobs` and `remove_fork`, Fusing `fuse`, Blaming `blame`
--   Union        src/union.rs: `write_paths`, `read_paths`, `commutes`; Reads holds the staleness
--                of a read, Outcome the tripwires, Landing the replay, Commit `union`
--   Revision     src/revision.rs: `split_suffixes`, `lineage_states`, `resolve`, `apply_suffixes`,
--                `log_range`; the repository is an interface (record Repository) of its fork
--                names, continuity logs and current sums
--   Diff         src/diff.rs: `diff_manifests`, `detect_renames`, `lcs_edits`, `line_stat`
--   Ignore       src/ignore.rs: the parser and matcher of `.tallyignore`, on lists of characters
--   Fork         src/fork.rs: fork files and fork names
--   Blame        src/blame.rs: `blame_path`; `String::from_utf8_lossy` is a parameter
--   Tests        runs of the model at concrete inputs, with a setsum and a digest that compute
--
-- How they meet: an intent is applied to a manifest and a blob pool and gives a realized delta; a
-- log line carries the delta and the sum after it; `verify_chain` folds the deltas into sums, and
-- `lineage_states` reads the states off the log. Patch/Arithmetic is about the sum of a manifest and
-- the fold over deltas, and is used by the proofs on logs, lineages and intents.
--
-- An operation that changes the repository is a function from a repository to its result and the
-- repository that it leaves, also when it fails (Run); `?` is the bind of such functions. A union
-- reads two states, replays lines in memory, and commits them with one append.
--
-- The readers of serde_json, of a text and of the value of a line, are an interface (record Serde);
-- a line can be read back (IsReadable) where these readers invert the writing, which is a hypothesis
-- on them. Writing is modelled, after the attributes of the structs. The clock is an argument: a
-- reading, or for several lines a function of the number of lines that are left.
--
-- A `&mut` argument is a value that is taken and returned. Numbers are unbounded where the source
-- holds lengths and indices of data in memory; `parse_usize` refuses what does not fit 64 bits, and
-- a byte is a number below 256 where a theorem needs it. A read out of range, which panics, is a
-- `none` of its own in `apply_suffixes`, `resolve`, `log_range` and `blame_path`.
--
-- Fuel: `match_fuel` is given the length of the pattern and `suffixes_fuel` the length of the text,
-- and each round consumes at least one of them, so that neither runs out.
-- `hits` makes as many rounds as there are offsets, and `decimal` writes at most 20 digits, which
-- hold every 64-bit number. `continuity_walk` and `base_walk` are given one round more than there
-- are forks, and visit no fork twice.
--
-- Not modelled: the texts of errors, the working tree with what reads and refreshes it, the file
-- system with its locks, temporary files and fsync, other writers, the git and editor bridges, the
-- server and the command line. A pool that cannot be written is no case of the model, and a sealing
-- that fails leaves the pool as it was, where the program may leave a blob to which nothing refers.
pub mod BTreeMap
pub mod Base64
pub mod Blame
pub mod Blobs
pub mod Diff
pub mod Fork
pub mod Ident
pub mod Ignore
pub mod Json
pub mod Log
pub mod Manifest
pub mod Patch
mod Prelude
pub mod Repo
pub mod Revision
pub mod Setsum
mod Tests
pub mod Union
