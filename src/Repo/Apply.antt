-- ===== src/Repo/Apply.antt =====
-- The operations of src/repo.rs that append to a log, and those that move anchors.
use tally_vcs.Prelude.{
  ℕ, Bool, true, false, not, List, [], ◌∷◌, ◌++◌, Option, none, some, if◌then◌else◌, length, Result,
  ok, err, io, corrupt, invalid, precondition, needs_reenactment, json, require,
}
use tally_vcs.Prelude.Bytes.{Bytes, bytes}
use tally_vcs.Blobs
use tally_vcs.Blobs.{BlobStore}
use tally_vcs.Diff.States.{PathChange, diff_manifests}
use tally_vcs.Fork.{ForkFile, fork_bytes}
use tally_vcs.Ident.Hex.{Sha3}
use tally_vcs.Ident.Record.{ElementRecord, to_line}
use tally_vcs.Log.{LogLine, Annotation, agent, is_empty}
use tally_vcs.Log.Stored.{Serde}
use tally_vcs.Manifest.{Manifest, sum}
use tally_vcs.Patch.{
  Intent, RealizedEntry, added, apply_intent, apply_realized_to_sum, apply_realized_to_manifest,
}
use tally_vcs.Repo.{Repo, fork_exists, dir_of, set_dir}
use tally_vcs.Repo.Run.{
  Run, ◌>>=◌, ◌>>◌, lift, return, reading, writing, lock_fork, append_log, put_blob, seal_line,
  current_state, write_anchor_manifest, create_fork_raw,
}
use tally_vcs.Setsum.{Setsum, Sum, hexdigest}

-- A line that continues a state.
abbrev pub next_line : Bytes → Intent → List RealizedEntry → Bytes → ℕ → Annotation → LogLine
next_line prev intent realized sum_after committed_ms annotation = record {
  id = [];
  prev = prev;
  intent = intent;
  realized = realized;
  sum_after = sum_after;
  committed_ms = committed_ms;
  annotation = annotation;
}

-- `Intent::default()`
abbrev pub no_intent : Intent
no_intent = record { ops = [] }

abbrev has_added : BlobStore → Option ElementRecord → Result Bool
has_added blobs none = ok true
has_added blobs (some r) = Blobs.has blobs r.blob

-- The loop that asks for the blob of every record added.
unfoldable pub check_blobs : List RealizedEntry → Run (Unit {0})
check_blobs [] = return tt
check_blobs (e ∷ es) = do
  r ← lift (added e)
  known ← reading (λ repo. has_added repo.blobs r)
  lift (require known precondition)
  check_blobs es

-- `append_sealed_locked`, with which a batch ends too.
unfoldable pub append_sealed_locked : Bytes → List LogLine → Bytes → Run (Unit {0})
append_sealed_locked fork [] text = return tt
append_sealed_locked fork (l ∷ ls) text = append_log fork text

module _ ⦃h : Sha3⦄ where
  -- The loop that puts the new blobs.
  unfoldable pub put_all : List (Bytes × Bytes) → Run (Unit {0})
  put_all [] = return tt
  put_all ((hash, content) ∷ new_blobs) = do key ← put_blob content; put_all new_blobs

-- An entry of a batch: the delta, the annotation and the time.
pub record Entry : Type 0 where
  pub realized : List RealizedEntry
  pub annotation : Annotation
  pub committed_ms : ℕ

-- What the loop over a batch has sealed.
pub record Batch : Type 0 where
  pub bytes : Bytes
  pub lines : List LogLine

abbrev pub at_sum : Bytes → ForkFile
at_sum sum_hex = record { anchor = sum_hex; manifest = sum_hex }

abbrev line_of : Option ElementRecord → Option Bytes
line_of none = none
line_of (some r) = some (to_line r)

-- The delta of a list of changes.
unfoldable pub realized_of : List PathChange → List RealizedEntry
realized_of [] = []
realized_of (c ∷ cs) = record { remove = line_of c.before; add = line_of c.after } ∷ realized_of cs

-- `Annotation::default()`, with an author.
abbrev pub plain : Bytes → Option Bytes → Annotation
plain author prose = record {
  author = author;
  provenance = agent;
  reason = none;
  sig = none;
  session = none;
  prose = prose;
  reads = none;
  origin = none;
  git_import = none;
  harness = none;
  fuse_span = none;
}

module _ ⦃S : Setsum⦄ ⦃h : Sha3⦄ ⦃d : Serde⦄ where
  -- `apply_inner`, for `apply` and `record_observed`, which refreshes no working tree.
  unfoldable pub apply : Option ℕ → Bytes → Intent → Annotation → Run LogLine
  apply now fork intent annotation = do
    lock_fork fork
    state ← current_state fork
    realization ← reading (λ r. (apply_intent intent state.manifest r.blobs).0)
    put_all realization.new_blobs
    sum_after ← lift (apply_realized_to_sum state.sum realization.realized)
    sealed ←
        seal_line now
          (next_line state.head_id intent realization.realized (hexdigest sum_after) 0 annotation)
    append_log fork sealed.appended
    return sealed.line

  unfoldable pub apply_realized :
      Option ℕ → Bytes → Intent → List RealizedEntry → Annotation → Run LogLine
  apply_realized now fork intent realized annotation = do
    lock_fork fork
    state ← current_state fork
    manifest ← lift (apply_realized_to_manifest state.manifest realized)
    check_blobs realized
    sum_after ← lift (apply_realized_to_sum state.sum realized)
    sealed ←
        seal_line now (next_line state.head_id intent realized (hexdigest sum_after) 0 annotation)
    append_log fork sealed.appended
    return sealed.line

  unfoldable pub seal_batch : (ℕ → Option ℕ) → Manifest → Sum → Bytes → List Entry → Run Batch
  seal_batch clock manifest sum prev [] = return (record { bytes = []; lines = [] })
  seal_batch clock manifest sum prev (e ∷ es) = do
    m ← lift (apply_realized_to_manifest manifest e.realized)
    check_blobs e.realized
    s ← lift (apply_realized_to_sum sum e.realized)
    sealed ←
        seal_line (clock (length es))
          (next_line prev no_intent e.realized (hexdigest s) e.committed_ms e.annotation)
    rest ← seal_batch clock m s sealed.line.id es
    return (record { bytes = sealed.appended ++ rest.bytes; lines = sealed.line ∷ rest.lines })

  unfoldable pub append_realized_batch : (ℕ → Option ℕ) → Bytes → List Entry → Run ℕ
  append_realized_batch clock fork batch = do
    lock_fork fork
    state ← current_state fork
    sealed ← seal_batch clock state.manifest state.sum state.head_id batch
    append_sealed_locked fork sealed.lines sealed.bytes
    return (length sealed.lines)

  unfoldable pub create_fork : Bytes → Bytes → Run ForkFile
  create_fork name from_fork = do
    state ← current_state from_fork
    anchor_hex ← write_anchor_manifest state.manifest
    create_fork_raw name (at_sum anchor_hex)
    return (at_sum anchor_hex)

  -- The loser of a race to create the fork finds that it exists.
  abbrev created : Bytes → Result ForkFile × Repo → Result Bool × Repo
  created name (ok file, r) = (ok true, r)
  created name (err invalid, r) =
      (do exists ← reading (fork_exists name); lift (if exists then ok false else err invalid)) r
  created name (err io, r) = (err io, r)
  created name (err corrupt, r) = (err corrupt, r)
  created name (err precondition, r) = (err precondition, r)
  created name (err needs_reenactment, r) = (err needs_reenactment, r)
  created name (err json, r) = (err json, r)

  unfoldable pub ensure_fork : Bytes → Bytes → Run Bool
  ensure_fork name from_fork = do
    exists ← reading (fork_exists name)
    if exists then return false else (λ r. created name (create_fork name from_fork r))

  unfoldable pub snapshot : Bytes → Run Bytes
  snapshot fork = do
    lock_fork fork
    state ← current_state fork
    sum_hex ← write_anchor_manifest state.manifest
    dir ← reading (dir_of fork)
    writing (set_dir fork (record dir { fork = fork_bytes (at_sum sum_hex) }))
    return sum_hex

  abbrev repoint_prose : Option Bytes → Manifest → Bytes
  repoint_prose none target = bytes "repoint to " ++ hexdigest (sum target)
  repoint_prose (some prose) target = prose

  unfoldable pub repoint : Option ℕ → Bytes → Manifest → Bytes → Option Bytes → Run LogLine
  repoint now fork target author prose = do
    current ← current_state fork
    lift (require (not (is_empty (diff_manifests current.manifest target))) invalid)
    apply_realized now fork no_intent (realized_of (diff_manifests current.manifest target))
        (plain author (some (repoint_prose prose target)))
