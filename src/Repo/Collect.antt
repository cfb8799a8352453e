-- ===== src/Repo/Collect.antt =====
-- The reclamation of blobs and the removal of forks in src/repo.rs.
use tally_vcs.Prelude.{
  Bool, true, false, not, ◌&&◌, List, [], ◌∷◌, Option, none, some, if◌then◌else◌, any, all, map,
  Error, Result, ok, err, invalid, require,
}
use tally_vcs.Prelude
use tally_vcs.Prelude.Bytes.{Bytes, bytes, str_eq}
use tally_vcs.Blobs
use tally_vcs.Blobs.{BlobStore}
use tally_vcs.BTreeMap
use tally_vcs.BTreeMap.{contains_key}
use tally_vcs.Fork.{validate_fork_name}
use tally_vcs.Ident.Hex.{Sha3, is_hex64}
use tally_vcs.Ident.Record.{ElementRecord}
use tally_vcs.Json.{Value}
use tally_vcs.Json.RecordId.{get_value, as_str}
use tally_vcs.Log.{LogLine, Origin}
use tally_vcs.Log.Stored.{Serde, line_blob_refs}
use tally_vcs.Manifest.{records}
use tally_vcs.Patch.{RealizedEntry, added}
use tally_vcs.Repo.{Repo, read_fork, fork_names, read_anchor_manifest, log_bytes}
use tally_vcs.Repo.Run.{Run, ◌>>=◌, ◌>>◌, lift, return, reading, writing, current_state, lock_fork}
use tally_vcs.Setsum.{Setsum}
use tally_vcs.Union.{BTreeSet, set_insert}

abbrev pub add_records : List ElementRecord → BTreeSet → BTreeSet
add_records [] refs = refs
add_records (r ∷ rs) refs = add_records rs (set_insert r.blob refs)

-- `refs.extend(other)`
abbrev pub extend : BTreeSet → BTreeSet → BTreeSet
extend [] refs = refs
extend ((key, u) ∷ more) refs = extend more (set_insert key refs)

abbrev pub add_added : Option ElementRecord → BTreeSet → BTreeSet
add_added none refs = refs
add_added (some r) refs = set_insert r.blob refs

abbrev pub add_option : Option Bytes → BTreeSet → BTreeSet
add_option none refs = refs
add_option (some hash) refs = set_insert hash refs

-- `reads.get("reads_blob").and_then(|v| v.as_str())`
abbrev pub reads_blob : Option Value → Option Bytes
reads_blob none = none
reads_blob (some reads) = as_str (get_value (bytes "reads_blob") reads)

unfoldable pub refs_of_entries : List RealizedEntry → BTreeSet → Result BTreeSet
refs_of_entries [] refs = ok refs
refs_of_entries (e ∷ es) refs = Prelude.◌>>=◌ (added e) (λ r. refs_of_entries es (add_added r refs))

-- What the lines of a fork refer to.
unfoldable pub refs_of_lines : List LogLine → BTreeSet → Result BTreeSet
refs_of_lines [] refs = ok refs
refs_of_lines (line ∷ lines) refs = Prelude.◌>>=◌ (refs_of_entries line.realized refs) (λ more.
    refs_of_lines lines
      (add_option (reads_blob line.annotation.reads) (add_option line.annotation.sig more)))

abbrev pub keep_hashes : List Bytes → List Bytes
keep_hashes [] = []
keep_hashes (n ∷ ns) = if is_hex64 n then n ∷ keep_hashes ns else keep_hashes ns

-- `blobs.list()`: the names of the files of the pool that are hashes.
unfoldable pub list_blobs : BlobStore → List Bytes
list_blobs blobs = keep_hashes (map (λ e. e.0) blobs.files)

-- `if !dry_run { blobs.remove(&hash)? }`
abbrev pub remove_unless : Bool → BlobStore → Bytes → Result BlobStore
remove_unless true blobs hash = ok blobs
remove_unless false blobs hash = Blobs.remove blobs hash

-- The loop of `gc_blobs`.
unfoldable pub collect : Bool → BTreeSet → List Bytes → BlobStore → Result (List Bytes × BlobStore)
collect dry_run referenced [] blobs = ok ([], blobs)
collect dry_run referenced (hash ∷ hashes) blobs =
    if contains_key hash referenced
    then collect dry_run referenced hashes blobs
    else Prelude.◌>>=◌ (remove_unless dry_run blobs hash) (λ left.
      Prelude.◌>>=◌ (collect dry_run referenced hashes left) (λ rest. ok (hash ∷ rest.0, rest.1)))

abbrev pub collected : Repo → Result (List Bytes × BlobStore) → Result (List Bytes) × Repo
collected r (err e) = (err e, r)
collected r (ok p) = (ok p.0, record r { blobs = p.1 })

module _ ⦃S : Setsum⦄ ⦃h : Sha3⦄ ⦃d : Serde⦄ where
  -- The loop of `referenced_blobs` over the forks.
  unfoldable pub refs_of_forks : List Bytes → BTreeSet → Run BTreeSet
  refs_of_forks [] refs = return refs
  refs_of_forks (fork ∷ forks) refs = do
    fork_file ← reading (read_fork fork)
    manifest ← reading (read_anchor_manifest fork_file.manifest)
    log ← reading (log_bytes fork)
    state ← current_state fork
    more ← lift (
        refs_of_lines state.lines
          (extend (line_blob_refs log) (add_records (records manifest) refs)))
    refs_of_forks forks more

  unfoldable pub referenced_blobs : Run BTreeSet
  referenced_blobs = do names ← reading (λ r. ok (fork_names r)); refs_of_forks names []

  unfoldable pub gc_blobs : Bool → Run (List Bytes)
  gc_blobs dry_run = do
    referenced ← referenced_blobs
    λ r. collected r (collect dry_run referenced (list_blobs r.blobs) r.blobs)

  -- What a line of another fork carries of the fork `name`.
  abbrev carry_origin : Bytes → Option Origin → BTreeSet → BTreeSet
  carry_origin name none carried = carried
  carry_origin name (some origin) carried =
      if str_eq origin.fork name then set_insert origin.id carried else carried

  unfoldable pub carry_lines : Bytes → List LogLine → BTreeSet → BTreeSet
  carry_lines name [] carried = carried
  carry_lines name (line ∷ lines) carried =
      carry_lines name lines (set_insert line.id (carry_origin name line.annotation.origin carried))

  unfoldable pub carry_forks : Bytes → List Bytes → BTreeSet → Run BTreeSet
  carry_forks name [] carried = return carried
  carry_forks name (other ∷ others) carried =
      if str_eq other name then carry_forks name others carried else (do
        state ← current_state other
        carry_forks name others (carry_lines name state.lines carried))

  -- Every line is carried by another fork.
  abbrev is_subsumed : BTreeSet → List LogLine → Bool
  is_subsumed carried lines = all (λ l. contains_key l.id carried) lines

  abbrev check_subsumed : Bytes → List LogLine → Run (Unit {0})
  check_subsumed name [] = return tt
  check_subsumed name (l ∷ ls) = do
    names ← reading (λ r. ok (fork_names r))
    carried ← carry_forks name names []
    lift (require (is_subsumed carried (l ∷ ls)) invalid)

  unfoldable pub check_removable : Bool → Bytes → Run (Unit {0})
  check_removable true name = return tt
  check_removable false name = do mine ← current_state name; check_subsumed name mine.lines

  unfoldable pub remove_fork : Bytes → Bool → Run (Unit {0})
  remove_fork name force = do
    lift (validate_fork_name name)
    lift (require (not (str_eq name (bytes "main"))) invalid)
    reading (λ r. require (contains_key name r.forks) invalid)
    check_removable force name
    lock_fork name
    writing (λ r. record r { forks = BTreeMap.remove name r.forks })
