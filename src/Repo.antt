-- ===== src/Repo.antt =====
-- src/repo.rs: the repository. Its state is what lies below `.tally`: the directories of the forks,
-- each with a fork file and a log, the anchor manifests and the blob pool. Locks, fsync, the working
-- tree, which is refreshed from the state, and failures of the device are not modelled: a file that
-- does not exist reads as an I/O error.
pub mod Replay
pub mod Run
pub mod Apply
pub mod Lineage
pub mod Collect
pub mod Fusing
pub mod Blaming
pub mod Effects
pub mod Batches
pub mod States
pub mod References
pub mod Reclaim
pub mod Known
pub mod Continuity
use tally_vcs.Prelude.{
  Bool, true, false, List, [], ◌∷◌, Option, none, some, if◌then◌else◌, Error, Result, ok, err, io,
  invalid, corrupt, ok_or, require, map, ◌>>=◌, ◌>>◌,
}
use tally_vcs.Prelude.Bytes.{Bytes, str_eq}
use tally_vcs.BTreeMap
use tally_vcs.BTreeMap.{BTreeMap, contains_key}
use tally_vcs.Blobs.{BlobStore}
use tally_vcs.Blobs
use tally_vcs.Fork.{ForkFile, fork_bytes, parse_fork, validate_fork_name}
use tally_vcs.Ident.Hex.{Sha3}
use tally_vcs.Manifest.{Manifest, sum, to_bytes_of, parse_manifest}
use tally_vcs.Setsum.{Setsum, hexdigest}

-- `forks/<name>/`: the files `fork` and `log.jsonl`.
pub record ForkDir : Type 0 where
  pub fork : Bytes
  pub log : Bytes

pub record Repo : Type 0 where
  pub forks : BTreeMap ForkDir
  pub anchors : BTreeMap Bytes
  pub blobs : BlobStore

unfoldable pub dir_of : Bytes → Repo → Result ForkDir
dir_of fork r = ok_or (BTreeMap.get fork r.forks) io

abbrev pub set_dir : Bytes → ForkDir → Repo → Repo
set_dir fork dir r = record r { forks = BTreeMap.insert fork dir r.forks }

-- `fork_names`
unfoldable pub fork_names : Repo → List Bytes
fork_names r = map (λ e. e.0) r.forks

abbrev pub read_dir : Option ForkDir → Result ForkFile
read_dir none = err invalid
read_dir (some dir) = parse_fork dir.fork

unfoldable pub read_fork : Bytes → Repo → Result ForkFile
read_fork fork r = do validate_fork_name fork; read_dir (BTreeMap.get fork r.forks)

unfoldable pub fork_exists : Bytes → Repo → Result Bool
fork_exists fork r = do validate_fork_name fork; ok (contains_key fork r.forks)

-- The file that `read_log` reads.
unfoldable pub log_file : Bytes → Repo → Result Bytes
log_file fork r = do dir ← dir_of fork r; ok dir.log

unfoldable pub log_bytes : Bytes → Repo → Result Bytes
log_bytes fork r = do validate_fork_name fork; log_file fork r

module _ ⦃S : Setsum⦄ where
  abbrev pub anchored : Bytes → Manifest → Repo → Repo
  anchored sum_hex manifest r =
      if contains_key sum_hex r.anchors
      then r
      else record r { anchors = BTreeMap.insert sum_hex (to_bytes_of manifest) r.anchors }

  abbrev named : Bytes → Manifest → Result Manifest
  named sum_hex manifest =
      if str_eq (hexdigest (sum manifest)) sum_hex then ok manifest else err corrupt

  unfoldable pub read_anchor_manifest : Bytes → Repo → Result Manifest
  read_anchor_manifest sum_hex r = do
    bytes ← ok_or (BTreeMap.get sum_hex r.anchors) io
    manifest ← parse_manifest bytes
    named sum_hex manifest
