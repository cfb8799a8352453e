-- ===== src/Repo/References.antt =====
-- What the forks of a repository of src/repo.rs refer to, as a relation.
pub mod Sets
pub mod Forks
use tally_vcs.Prelude.{List, [], ◌∷◌, some, ◌≡◌, ◌⊎◌, ok}
use tally_vcs.Prelude.Bytes.{Bytes, bytes, split}
use tally_vcs.Fork.{ForkFile}
use tally_vcs.Ident.Hex.{Sha3}
use tally_vcs.Ident.Record.{ElementRecord}
use tally_vcs.Json.{Value, string}
use tally_vcs.Json.RecordId.{get_value}
use tally_vcs.Log.{LogLine}
use tally_vcs.Log.Stored.{Serde, StoredLine, blob_ref, scan_pieces}
use tally_vcs.Manifest.{Manifest, records}
use tally_vcs.Patch.{RealizedEntry, added}
use tally_vcs.Repo.{Repo, read_fork, fork_names, read_anchor_manifest, log_bytes}
use tally_vcs.Repo.Replay.{ForkState}
use tally_vcs.Repo.Run.{current_state}
use tally_vcs.Setsum.{Setsum}

abbrev pub AnyOf : {A : Type 0} → (A → Type 0) → List A → Type 0
AnyOf P [] = ⊥
AnyOf P (x ∷ xs) = P x ⊎ AnyOf P xs

-- An entry adds a record of this blob.
abbrev pub AddsBlob : Bytes → RealizedEntry → Type 0
AddsBlob key e = (r : ElementRecord) × (added e ≡ ok (some r)) × (r.blob ≡ key)

-- The reads of a line are in this blob.
abbrev pub SpillsReads : Bytes → LogLine → Type 0
SpillsReads key l =
    (reads : Value) × (l.annotation.reads ≡ some reads)
    × (get_value (bytes "reads_blob") reads ≡ some (string key))

-- A line refers to what it adds, to its signature, and to its spilled reads.
abbrev pub LineRefers : Bytes → LogLine → Type 0
LineRefers key l =
    AnyOf (AddsBlob key) l.realized ⊎ ((l.annotation.sig ≡ some key) ⊎ SpillsReads key l)

module _ ⦃S : Setsum⦄ ⦃h : Sha3⦄ ⦃d : Serde⦄ where
  -- A fork refers to the records of its anchor manifest, to the blobs of overflowed lines in its
  -- log, and to what its lines refer to.
  pub data ForkRefers (r : Repo) (key fork : Bytes) : Type 0 where
    by_anchor :
        (file : ForkFile) (m : Manifest)
        → read_fork fork r ≡ ok file
        → read_anchor_manifest file.manifest r ≡ ok m
        → AnyOf (λ (e : ElementRecord). e.blob ≡ key) (records m)
        → ForkRefers r key fork
    by_overflow :
        (log : Bytes)
        → log_bytes fork r ≡ ok log
        → AnyOf
            (λ (p : StoredLine). p ≡ blob_ref key)
            (scan_pieces (split 10 log).0 (split 10 log).1).stored
        → ForkRefers r key fork
    by_line :
        (state : ForkState) (after : Repo)
        → current_state fork r ≡ (ok state, after)
        → AnyOf (LineRefers key) state.lines
        → ForkRefers r key fork

  abbrev pub Refers : Repo → Bytes → Type 0
  Refers r key = AnyOf (ForkRefers r key) (fork_names r)
