-- ===== src/Tests/Forks.antt =====
-- A repository of two forks, at a concrete input.
use tally_vcs.Prelude.{
  ℕ, List, [], ◌∷◌, ◌++◌, Option, some, none, ◌≡◌, ◌↔◌, All, refl, Bool, true, false, Result, ok,
  err, json, corrupt, if◌then◌else◌,
}
use tally_vcs.Prelude.Bytes.{
  Bytes, bytes, str_eq, str_lt, contains, split, trim_one, is_utf8, utf8_run, utf8_step, utf8_lead,
  strip_prefix, split_inclusive, lines, chomp, concat,
}
use tally_vcs.BTreeMap
use tally_vcs.Blobs
use tally_vcs.Blobs.{BlobStore, path_for}
use tally_vcs.Fork.{fork_bytes}
use tally_vcs.Json.Canonical.{
  canonical_json, canonical_number, canonical_items, canonical_members, insert_text, join_members,
  join_items, member_text, decimal_onto,
}
use tally_vcs.Json.RecordId.{
  record_id, remove_member, verify_record_id, get_value, get_member, as_str,
}
use tally_vcs.Json.Strings.{canonical_string, escape, escape_char}
use tally_vcs.Ident.Hex.{sha3_hex, hex_digit, is_hex64, is_hex_char, hex}
use tally_vcs.Ident.Record.{
  ElementRecord, to_line, to_bytes, parse, new, validate_mode, validate_path, has_dots,
}
use tally_vcs.Log.{LogLine, validate, union}
use tally_vcs.Log.Seal.{seal, stamp, compute_id, spill_reads_if_needed, overflow}
use tally_vcs.Log.Serialize.{
  to_value, to_members, annotation_value, provenance_value, intent_value, realized_value,
}
use tally_vcs.Log.Stored.{Serde}
use tally_vcs.Manifest
use tally_vcs.Fork.{validate_fork_name, parse_fork, parse_lines}
use tally_vcs.Log.{last_state_position}
use tally_vcs.Log.Serialize.{origin_value, op_value}
use tally_vcs.Log.Stored.{
  parse_log_lenient, scan_pieces, parse_stored, line_blob_ref, verified, resolve_all,
  resolve_stored, resumes,
}
use tally_vcs.Manifest.{
  parse_manifest, to_bytes_of, parse_body, sort_lines, record_lines, records, parse_records,
  from_records, insert_all, sum, sum_of_records, add_records,
}
use tally_vcs.Patch.{
  RealizedEntry, create, apply_intent, apply_ops, apply_op, apply_realized_to_manifest, apply_entry,
  apply_realized_to_sum, removed, added, parse_side,
}
use tally_vcs.Repo.{Repo, ForkDir, read_fork, read_anchor_manifest, log_bytes, log_file, dir_of}
use tally_vcs.Repo.Apply.{
  at_sum, append_sealed_locked, append_realized_batch, seal_batch, check_blobs, Entry,
}
use tally_vcs.Repo.Replay.{ForkState, replay_log, check_lines, check_first, replay_lines}
use tally_vcs.Repo.Run.{lock_fork, ◌>>=◌, current_state, read_log, seal_line, append_log}
use tally_vcs.Setsum.{from_hexdigest}
use tally_vcs.Tests.Toy.{read}
use tally_vcs.Union.{write_paths, collect_writes}
use tally_vcs.Union.Commit.{outcome, union_forks, replay_and_commit, finish, commit_clean}
use tally_vcs.Union.Landing.{
  concurrent_writes, carried_by, replay_source, try_line, land_line, landed_annotation, rekeyed,
}
use tally_vcs.Union.Outcome.{
  UnionOutcome, realized_replay, complete, note_stale_reads, note_all_stranded, note_stranded_reads,
  strand_reads,
}
use tally_vcs.Manifest.{Manifest, IsWellFormed}
use tally_vcs.Tests.Toy.{toy_setsum, toy_sha3, toy_digest, repeat, parity, show}
use tally_vcs.Tests.Patches.{quiet}
use tally_vcs.Repo.Batches.{succeeded, append_realized_batch_atomic}
use tally_vcs.Repo.Effects.{IsSettled}
use tally_vcs.BTreeMap.{IsSorted, is_some, contains_key}
use tally_vcs.Json.OneLine.{IsOneLine}
use tally_vcs.Log.Readback.{IsStored}
use tally_vcs.Log.Scanning.{frames, here, parse_log_lenient-corrupt}
use tally_vcs.Log.Stored.{line, read_piece, line_blob_refs}
use tally_vcs.Repo.{fork_names}
use tally_vcs.Repo.Collect.{
  referenced_blobs, refs_of_forks, refs_of_lines, refs_of_entries, gc_blobs, collect, list_blobs,
}
use tally_vcs.Repo.Continuity.{continuity_walk_total}
use tally_vcs.Repo.Lineage.{Segment, continuity_walk, fork_fuel, next_fork, up_to}
use tally_vcs.Repo.References.{Refers}
use tally_vcs.Repo.Reclaim.{unreferenced, left_of, AgreeOn, gc_blobs_kept}
use tally_vcs.Union.{BTreeSet}
use tally_vcs.Union.Atomic.{is_done, union_forks_atomic}
use tally_vcs.Union.Landed.{LandsOn, union_forks-Replay}

abbrev ones : Bytes
ones = bytes "1111111111111111111111111111111111111111111111111111111111111111"

abbrev record_at : Bytes → ElementRecord
record_at path = record { mode = bytes "100644"; path = path; blob = ones }

-- The creation of a file, and a manifest with another one.
abbrev creating : List RealizedEntry
creating = record { remove = none; add = some (to_line (record_at (bytes "/docs"))) } ∷ []

abbrev base : Manifest
base = record { elements = (bytes "/a", record_at (bytes "/a")) ∷ [] }

-- The line of the fork `dev`, and another line that creates the same file.
abbrev dev_line : LogLine
dev_line = record {
  id = bytes "dededededededededededededededededededededededededededededededede";
  prev = [];
  intent = record { ops = create (bytes "/docs") (bytes "100644") (some ones) none ∷ [] };
  realized = creating;
  sum_after = show true;
  committed_ms = 7;
  annotation = quiet;
}

abbrev main_line : LogLine
main_line = record dev_line {
  id = bytes "dfdfdfdfdfdfdfdfdfdfdfdfdfdfdfdfdfdfdfdfdfdfdfdfdfdfdfdfdfdfdfdf";
  sum_after = show false;
  committed_ms = 77;
}

abbrev is_dev : Option Bytes → Bool
unfolding str_eq
is_dev none = false
is_dev (some id) = str_eq id dev_line.id

-- A reader that knows two texts and two lines.
instance abbrev toy_serde : Serde
unfolding str_eq
toy_serde = record {
  from_str = λ text.
      if str_eq text (bytes "1")
      then ok (to_value dev_line)
      else if str_eq text (bytes "2")
      then ok (to_value main_line)
      else err json;
  from_value =
      λ value. if is_dev (as_str (get_value (bytes "id") value)) then ok dev_line else ok main_line;
}

abbrev dir : Manifest → Bytes → ForkDir
dir anchor log = record { fork = fork_bytes (at_sum (show (sum anchor))); log = log }

-- Two forks: `dev` goes on from the empty repository, `main` from this manifest.
abbrev repo_with : Bytes → Manifest → Bytes → Repo
repo_with dev anchor main = record {
  forks = (bytes "dev", dir Manifest.empty dev) ∷ (bytes "main", dir anchor main) ∷ [];
  anchors = (show false, to_bytes_of Manifest.empty) ∷ (show true, to_bytes_of base) ∷ [];
  blobs = record { files = (repeat 64 b'0', bytes "unused") ∷ (ones, bytes "docs") ∷ [] };
}

abbrev first_log : Bytes
first_log = b'1' ∷ 10 ∷ []

abbrev second_log : Bytes
second_log = b'2' ∷ 10 ∷ []

abbrev repo : Repo
repo = repo_with first_log Manifest.empty []

-- Both forks have created the file, and `main` has another one.
abbrev drifted : Repo
drifted = repo_with first_log base second_log

abbrev clock : ℕ → Option ℕ
clock i = some 9

abbrev run : Repo → Result UnionOutcome × Repo
run r = union_forks clock (bytes "dev") (bytes "main") (bytes "me") r

abbrev landed_line : LogLine
landed_line = record dev_line {
  id = bytes "2d2d2d2d2d2d2d2d2d2d2d2d2d2d2d2d2d2d2d2d2d2d2d2d2d2d2d2d2d2d2d2d";
  committed_ms = 9;
  annotation = record quiet {
    author = bytes "me";
    provenance = union;
    origin = some (record { fork = bytes "dev"; id = dev_line.id });
  };
}

abbrev landed : UnionOutcome
landed =
    outcome false
      (record { line = landed_line; origin_id = dev_line.id; stratum = realized_replay } ∷ []) none
      []

abbrev main_state : ForkState
main_state = record { manifest = Manifest.empty; sum = false; head_id = []; lines = [] }

-- The second entry of the batch creates what the first has created.
abbrev batch : List Entry
batch =
    record { realized = creating; annotation = quiet; committed_ms = 5 }
    ∷ record { realized = creating; annotation = quiet; committed_ms = 6 }
    ∷ []

abbrev dev_segments : Option (List Segment)
dev_segments = some ((bytes "dev", dev_line ∷ []) ∷ [])

abbrev referenced : BTreeSet
referenced = (ones, tt) ∷ []

-- What the operations give here, by evaluation: main_reads, dev_settled, main_settled, runs, drifted_dev_settled, drifted_main_settled, is_gated, not_done, refused, references, collects, walks, reads_one, reads_none.
computed :
    (current_state (bytes "main") repo ≡ (ok main_state, repo))
    × (IsSettled (bytes "dev") repo)
    × (IsSettled (bytes "main") repo)
    × (run repo ≡ (ok landed, (run repo).1))
    × (IsSettled (bytes "dev") drifted)
    × (IsSettled (bytes "main") drifted)
    × ((run drifted).0 ≡ ok (outcome false [] (some dev_line.id) []))
    × (is_done (run drifted).0 ≡ false)
    × (succeeded (append_realized_batch clock (bytes "main") batch repo).0 ≡ false)
    × (referenced_blobs repo ≡ (ok referenced, repo))
    × (gc_blobs false repo ≡ (ok (repeat 64 b'0' ∷ []), (gc_blobs false repo).1))
    × (continuity_walk (fork_fuel repo) (bytes "dev") none [] repo ≡ (ok dev_segments, repo))
    × (read_piece (bytes "1") ≡ ok (line dev_line))
    × (read_piece (bytes "x") ≡ err json)
unfolding append_realized_batch seal_batch check_blobs Blobs.has path_for apply_intent apply_ops
    apply_op Manifest.get Manifest.insert_line union_forks lock_fork ◌>>=◌ current_state read_fork
    validate_fork_name fork_bytes parse_fork parse_lines lines chomp split_inclusive strip_prefix
    read_anchor_manifest parse_manifest to_bytes_of parse_body sort_lines record_lines records
    parse_records from_records insert_all sum sum_of_records add_records concat from_hexdigest
    read_log log_bytes log_file dir_of parse_log_lenient scan_pieces parse_stored line_blob_ref
    verified resolve_all resolve_stored resumes replay_log check_lines check_first replay_lines
    last_state_position apply_realized_to_manifest apply_entry apply_realized_to_sum removed added
    parse_side Manifest.insert BTreeMap.insert BTreeMap.get BTreeMap.values replay_and_commit
    concurrent_writes carried_by replay_source try_line land_line note_stale_reads seal_line seal
    stamp validate compute_id spill_reads_if_needed overflow canonical_json canonical_number
    canonical_members canonical_items insert_text join_items join_members member_text
    canonical_string escape escape_char hex_digit decimal_onto to_value to_members annotation_value
    provenance_value intent_value realized_value origin_value sha3_hex hex toy_digest repeat
    record_id remove_member str_eq str_lt show read parity to_line to_bytes verify_record_id
    get_value get_member as_str is_utf8 utf8_run utf8_step utf8_lead contains split trim_one
    is_hex64 is_hex_char parse new validate_mode validate_path has_dots write_paths collect_writes
    landed_annotation rekeyed finish note_all_stranded note_stranded_reads strand_reads commit_clean
    append_sealed_locked append_log complete toy_serde op_value referenced_blobs refs_of_forks
    refs_of_lines refs_of_entries line_blob_refs gc_blobs collect list_blobs Blobs.remove fork_names
    BTreeMap.remove continuity_walk next_fork up_to
computed = (refl, refl, refl, refl, refl, refl, refl, refl, refl, refl, refl, refl, refl, refl)

is_complete : complete landed ≡ true
unfolding complete
is_complete = refl

empty-IsWellFormed : IsWellFormed Manifest.empty
empty-IsWellFormed = record { sorted = tt; entries = tt }

union_forks-Replay_example : LandsOn landed main_state
union_forks-Replay_example =
    union_forks-Replay clock (bytes "dev") (bytes "main") (bytes "me") repo (run repo).1 landed
      main_state computed.1 computed.2 computed.0 empty-IsWellFormed computed.3 is_complete

union_forks_atomic_example : (run drifted).1.forks ≡ drifted.forks
union_forks_atomic_example =
    union_forks_atomic clock (bytes "dev") (bytes "main") (bytes "me") drifted computed.4 computed.5
      computed.7

append_realized_batch_atomic_example :
    (append_realized_batch clock (bytes "main") batch repo).1.forks ≡ repo.forks
append_realized_batch_atomic_example =
    append_realized_batch_atomic clock (bytes "main") batch repo computed.2 computed.8

is_sorted : IsSorted repo.blobs.files
unfolding str_lt repeat
is_sorted = ((refl, tt), (tt, tt))

forks-IsSettled : All (λ (fork : Bytes). IsSettled fork repo) (fork_names repo)
unfolding fork_names
forks-IsSettled = (computed.1, (computed.2, tt))

gc_blobs_kept_example :
    (referenced : BTreeSet) × ((key : Bytes)
      → (contains_key key referenced ≡ true) ↔ Refers repo key)
    × ((repeat 64 b'0' ∷ []) ≡ unreferenced referenced (list_blobs repo.blobs))
    × ((gc_blobs false repo).1.forks ≡ repo.forks)
    × ((gc_blobs false repo).1.blobs ≡ left_of false (repeat 64 b'0' ∷ []) repo.blobs)
    × AgreeOn referenced repo.blobs (gc_blobs false repo).1.blobs
gc_blobs_kept_example =
    gc_blobs_kept false repo (gc_blobs false repo).1 (repeat 64 b'0' ∷ []) forks-IsSettled is_sorted
      computed.10

continuity_walk_total_example : is_some dev_segments ≡ true
continuity_walk_total_example =
    continuity_walk_total (bytes "dev") repo repo dev_segments computed.11

no_lf : IsOneLine (bytes "1") × IsOneLine (bytes "x")
unfolding contains
no_lf = (refl, refl)

IsStored-one : IsStored (Blobs.get repo.blobs) (bytes "1") dev_line
unfolding resolve_stored
IsStored-one = record {
  one_line = no_lf.0;
  piece = line dev_line;
  read = computed.12;
  resolved = refl;
}

-- A log of a line, a damaged one, and a line behind it.
parse_log_lenient-corrupt_example :
    parse_log_lenient
      (Blobs.get repo.blobs)
      (frames ((bytes "1", dev_line) ∷ []) ++ (bytes "x" ++ (10 ∷ (bytes "1" ++ (10 ∷ [])))))
    ≡ err corrupt
parse_log_lenient-corrupt_example =
    parse_log_lenient-corrupt (Blobs.get repo.blobs) ((bytes "1", dev_line) ∷ []) (bytes "x")
      (bytes "1" ++ (10 ∷ [])) (bytes "1") json (line dev_line) (IsStored-one, tt) no_lf.1
      computed.13 no_lf.0 computed.12 (here [])
