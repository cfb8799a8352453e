-- ===== src/Tests/Logs.antt =====
-- Logs, lineages and revisions at concrete inputs.
use tally_vcs.Prelude.{
  ◌≤◌, length, true, false, List, [], ◌∷◌, ◌++◌, none, some, ◌≡◌, ◌↔◌, refl, ok,
}
use tally_vcs.Prelude.Bytes.{
  Bytes, starts_with, bytes, str_eq, str_lt, contains, split, trim_one, concat, strip_prefix,
}
use tally_vcs.BTreeMap
use tally_vcs.Ident.Hex.{is_hex64, is_hex_char}
use tally_vcs.Ident.Record.{validate_mode, validate_path, has_dots, new, to_line, to_bytes, parse}
use tally_vcs.Json.{array, end, item, object, string, stop, member}
use tally_vcs.Json.RecordId.{get_value, get_member, as_str}
use tally_vcs.Log.{LogLine, verify_lines, verify_chain, last_state_position}
use tally_vcs.Log.Chain.{Chain, verify_chain_iff, verify_chain-sum}
use tally_vcs.Log.Validate.{IsLast, last_state_position-IsLast}
use tally_vcs.Manifest
use tally_vcs.Manifest.{Manifest, get, sum, sum_of_records, add_records, records, record_eq}
use tally_vcs.Patch.{
  apply_realized_to_manifest, apply_realized_to_sum, apply_entry, removed, added, parse_side,
}
use tally_vcs.Patch.Invert.{invert}
use tally_vcs.Revision.Suffixes.{
  Resolved, split_suffixes, split_base, suffixes_fuel, next_suffix, span_digits, span_brace,
  apply_suffixes, apply_all, apply_suffix, back_by, step_back, parse_usize, read_digits,
}
use tally_vcs.Revision.Resolve.{
  rposition, Repository, lineage_states, points_of, lines_of, resolve, base_sum, resolve_place,
  resolve_base, head_of,
}
use tally_vcs.Revision.Lineage.{concat-split_suffixes}
use tally_vcs.Revision.Base.{lineage_states-verify_chain}
use tally_vcs.Revision.Range.{
  LogBounds, log_range, range_sides, split_once, start_of, range_on, position,
}
use tally_vcs.Revision.Bounds.{log_range-bounds}
use tally_vcs.Setsum.{hexdigest, from_hexdigest}
use tally_vcs.Tests.Patches.{
  tree, tree_edited, tree_after, edits, creates, applies, edit_line, create_line, quiet,
  tree-IsWellFormed,
}
use tally_vcs.Tests.Toy.{toy_setsum, toy_sha3, repeat, show, read, parity}
use tally_vcs.Union.{
  commutes, write_paths, collect_writes, read_paths, collect_reads, intersects, BTreeSet,
}
use tally_vcs.Union.Commutes.{commutes_reads}

abbrev log : List LogLine
log = edit_line ∷ create_line ∷ []

log_verifies : verify_chain (sum tree) log ≡ ok (sum tree_after)
unfolding verify_chain verify_lines apply_realized_to_sum removed added parse_side parse new
    validate_mode validate_path has_dots is_hex64 is_hex_char str_eq contains split trim_one repeat
    to_line to_bytes sum sum_of_records add_records records BTreeMap.values show parity
log_verifies = refl

verify_chain_iff_example :
    (verify_chain (sum tree) log ≡ ok (sum tree_after)) ↔ Chain (sum tree_after) (sum tree) [] log
verify_chain_iff_example = verify_chain_iff (sum tree) (sum tree_after) log

log_ends : verify_chain (sum tree) log ≡ ok false
unfolding verify_chain verify_lines apply_realized_to_sum removed added parse_side parse new
    validate_mode validate_path has_dots is_hex64 is_hex_char str_eq contains split trim_one repeat
    to_line to_bytes sum sum_of_records add_records records BTreeMap.values show parity
log_ends = refl

verify_chain-sum_example : false ≡ sum tree_after
verify_chain-sum_example = verify_chain-sum tree tree_after log false log_ends applies

log-IsLast :
    IsLast (hexdigest (sum tree_edited)) log (last_state_position log (hexdigest (sum tree_edited)))
log-IsLast = last_state_position-IsLast log (hexdigest (sum tree_edited))

-- A line that creates a file, by an author who read another.
abbrev read_line : LogLine
read_line = record {
  id = bytes "r";
  prev = bytes "e";
  intent = record { ops = [] };
  realized = creates;
  sum_after = hexdigest (sum tree_after);
  committed_ms = 0;
  annotation = record quiet {
    reads = some (array (item (object (member (bytes "path") (string (bytes "/docs")) stop)) end));
  };
}

read_certified : commutes edit_line read_line ≡ ok true
unfolding commutes write_paths collect_writes read_paths collect_reads intersects removed added
    parse_side parse new validate_mode validate_path has_dots is_hex64 is_hex_char str_eq str_lt
    contains split trim_one repeat to_line BTreeMap.get BTreeMap.insert get_value get_member as_str
read_certified = refl

edit_applies : apply_realized_to_manifest tree edits ≡ ok tree_edited
unfolding apply_realized_to_manifest apply_entry removed added parse_side parse new validate_mode
    validate_path has_dots is_hex64 is_hex_char str_eq str_lt contains split trim_one repeat to_line
    Manifest.insert Manifest.remove Manifest.contains record_eq BTreeMap.get BTreeMap.insert
    BTreeMap.remove
edit_applies = refl

reads_docs : read_paths read_line ≡ some ((bytes "/docs", tt) ∷ [])
unfolding read_paths collect_reads get_value get_member as_str str_eq BTreeMap.insert
reads_docs = refl

abbrev docs : BTreeSet
docs = (bytes "/docs", tt) ∷ []

has_docs : BTreeMap.contains_key (bytes "/docs") docs ≡ true
unfolding BTreeMap.get str_eq
has_docs = refl

commutes_reads_example : get tree_edited (bytes "/docs") ≡ get tree (bytes "/docs")
commutes_reads_example =
    commutes_reads edit_line read_line read_certified tree tree_edited docs (bytes "/docs")
      tree-IsWellFormed reads_docs has_docs edit_applies

abbrev repo : Repository
repo = record {
  fork_names = ok (bytes "main" ∷ []);
  continuity_log = λ fork. ok ((bytes "main", edit_line) ∷ (bytes "main", create_line) ∷ []);
  current_sum = λ fork. ok (sum tree_after);
}

lineage_states-verify_chain_example :
    lineage_states repo (bytes "main")
    ≡ ok (record { sum = hexdigest (sum tree); line = none } ∷ points_of log)
unfolding lines_of
lineage_states-verify_chain_example =
    lineage_states-verify_chain repo (bytes "main")
      ((bytes "main", edit_line) ∷ (bytes "main", create_line) ∷ []) (sum tree) (sum tree_after)
      refl refl log_verifies

concat-split_suffixes_example :
    (split_suffixes (bytes "HEAD~12^@{3}")).0 ++ concat (split_suffixes (bytes "HEAD~12^@{3}")).1
    ≡ bytes "HEAD~12^@{3}"
concat-split_suffixes_example = concat-split_suffixes (bytes "HEAD~12^@{3}")

suffixes_of_head :
    split_suffixes (bytes "HEAD~12^@{3}")
    ≡ (bytes "HEAD", bytes "~12" ∷ bytes "^" ∷ bytes "@{3}" ∷ [])
unfolding split_suffixes split_base suffixes_fuel next_suffix span_digits span_brace
suffixes_of_head = refl

abbrev parent : Resolved
parent = record { fork = bytes "main"; sum = hexdigest (sum tree_edited); line = some (bytes "e") }

abbrev last_line : LogBounds
last_line = record { fork = bytes "main"; start = 1; end = 2 }

range_of_last : log_range repo (some (bytes "HEAD~1..HEAD")) (bytes "main") ≡ ok (some last_line)
unfolding resolve str_eq split_suffixes split_base suffixes_fuel next_suffix span_digits
    strip_prefix resolve_place resolve_base head_of lineage_states base_sum lines_of points_of
    invert from_hexdigest is_hex64 is_hex_char show repeat apply_realized_to_sum removed added
    parse_side parse new validate_mode validate_path has_dots contains split trim_one to_line
    to_bytes apply_suffixes apply_all apply_suffix back_by step_back parse_usize read_digits sum
    sum_of_records add_records records BTreeMap.values parity read log_range range_sides split_once
    starts_with start_of range_on position rposition
range_of_last = refl

log_range-bounds_example :
    (history : List (Bytes × LogLine)) × (repo.continuity_log (bytes "main") ≡ ok history)
    × (1 ≤ 2)
    × (2 ≤ length history)
log_range-bounds_example =
    log_range-bounds repo (some (bytes "HEAD~1..HEAD")) (bytes "main") last_line range_of_last
