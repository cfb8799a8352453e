-- ===== src/Repo/Run.antt =====
-- The operations of src/repo.rs that change the repository: what an operation is, and those on one
-- file.
use tally_vcs.Prelude.{
  Bool, true, false, List, [], ◌∷◌, ◌++◌, Option, none, some, if◌then◌else◌, length, take, ◌==◌,
  Error, Result, ok, err, io, invalid, corrupt, require,
}
use tally_vcs.Prelude
use tally_vcs.Prelude.Bytes.{Bytes, str_eq}
use tally_vcs.Blobs
use tally_vcs.BTreeMap
use tally_vcs.BTreeMap.{contains_key}
use tally_vcs.Fork.{ForkFile, fork_bytes, validate_fork_name}
use tally_vcs.Ident.Hex.{Sha3}
use tally_vcs.Log.{LogLine}
use tally_vcs.Log.Seal.{Sealed, seal}
use tally_vcs.Log.Stored.{Serde, ParsedLog, parse_log_lenient}
use tally_vcs.Manifest.{Manifest, sum}
use tally_vcs.Repo.{
  Repo, ForkDir, dir_of, set_dir, log_file, read_fork, read_anchor_manifest, anchored,
}
use tally_vcs.Repo.Replay.{ForkState, replay_log}
use tally_vcs.Setsum.{Setsum, hexdigest}

-- An operation gives its result and the repository that it leaves, also when it fails.
abbrev pub Run : Type 0 → Type 0
Run A = Repo → Result A × Repo

abbrev pub after_run : {A B : Type 0} → Result A × Repo → (A → Run B) → Result B × Repo
after_run (ok a, r) next = next a r
after_run (err e, r) next = (err e, r)

infixl 5 ◌>>=◌ ◌>>◌
-- `?`
unfoldable pub ◌>>=◌ : {A B : Type 0} → Run A → (A → Run B) → Run B
(run >>= next) r = after_run (run r) next

abbrev pub ◌>>◌ : {B : Type 0} → Run (Unit {0}) → Run B → Run B
run >> next = run >>= λ done. next

abbrev pub lift : {A : Type 0} → Result A → Run A
lift a r = (a, r)

abbrev pub return : {A : Type 0} → A → Run A
return a r = (ok a, r)

-- What only looks at the repository.
abbrev pub reading : {A : Type 0} → (Repo → Result A) → Run A
reading look r = (look r, r)

abbrev pub writing : (Repo → Repo) → Run (Unit {0})
writing change r = (ok tt, change r)

-- `lock_fork`: the lock file is made in the directory of the fork, which must exist.
unfoldable pub lock_fork : Bytes → Run (Unit {0})
lock_fork fork = reading (λ r. require (contains_key fork r.forks) io)

-- `append`ing to the log: the file must exist.
-- `file.set_len(..)`
abbrev pub set_log : Bytes → Bytes → ForkDir → Repo → Repo
set_log fork log dir r = set_dir fork (record dir { log = log }) r

abbrev pub rewrite_dir : Bytes → Bytes → Repo → Option ForkDir → Repo
rewrite_dir fork log r none = r
rewrite_dir fork log r (some dir) = set_log fork log dir r

unfoldable pub rewrite_log : Bytes → Bytes → Repo → Repo
rewrite_log fork log r = rewrite_dir fork log r (BTreeMap.get fork r.forks)

unfoldable pub append_log : Bytes → Bytes → Run (Unit {0})
append_log fork bytes = do
  dir ← reading (dir_of fork)
  writing (set_dir fork (record dir { log = dir.log ++ bytes }))

unfoldable pub create_fork_raw : Bytes → ForkFile → Run (Unit {0})
create_fork_raw fork file = do
  lift (validate_fork_name fork)
  reading (λ r. if contains_key fork r.forks then err invalid else ok tt)
  writing (set_dir fork (record { fork = fork_bytes file; log = [] }))

module _ ⦃S : Setsum⦄ where
  unfoldable pub write_anchor_manifest : Manifest → Run Bytes
  write_anchor_manifest manifest = do
    writing (anchored (hexdigest (sum manifest)) manifest)
    return (hexdigest (sum manifest))

module _ ⦃h : Sha3⦄ where
  -- `blobs.put_unsynced(content)`
  abbrev pub put_result : Repo → Result (Bytes × Blobs.BlobStore) → Result Bytes × Repo
  put_result r (ok p) = (ok p.0, record r { blobs = p.1 })
  put_result r (err e) = (err e, r)

  unfoldable pub put_blob : Bytes → Run Bytes
  put_blob content r = put_result r (Blobs.put r.blobs content)

  -- `line.seal(&blobs)`. When it fails, what it has put is left out: no line refers to it.
  abbrev pub sealed_result : Repo → Result Sealed → Result Sealed × Repo
  sealed_result r (ok s) = (ok s, record r { blobs = s.blobs })
  sealed_result r (err e) = (err e, r)

  unfoldable pub seal_line : Option Prelude.ℕ → LogLine → Run Sealed
  seal_line now line r = sealed_result r (seal now r.blobs line)

  module _ ⦃d : Serde⦄ where
    abbrev pub truncated : Bytes → Bytes → Repo → Result ParsedLog → Result (List LogLine) × Repo
    truncated fork log r (err e) = (err e, r)
    truncated fork log r (ok parsed) = (
      ok parsed.lines,
      if parsed.valid_prefix == length log
          then r
          else rewrite_log fork (take parsed.valid_prefix log) r,
    )

    abbrev pub read_bytes : Bytes → Repo → Result Bytes → Result (List LogLine) × Repo
    read_bytes fork r (err e) = (err e, r)
    read_bytes fork r (ok log) = truncated fork log r (parse_log_lenient (Blobs.get r.blobs) log)

    unfoldable pub read_log : Bytes → Run (List LogLine)
    read_log fork r = read_bytes fork r (log_file fork r)

    module _ ⦃S : Setsum⦄ where
      unfoldable pub current_state : Bytes → Run ForkState
      current_state fork = do
        fork_file ← reading (read_fork fork)
        anchor_manifest ← reading (read_anchor_manifest fork_file.manifest)
        lift (require (str_eq (hexdigest (sum anchor_manifest)) fork_file.anchor) corrupt)
        lines ← read_log fork
        lift (replay_log fork_file.anchor anchor_manifest lines)
