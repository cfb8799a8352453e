-- ===== src/Tests/Patches.antt =====
-- Patches at concrete inputs.
use tally_vcs.Prelude.{true, List, [], ◌∷◌, ◌++◌, none, some, ◌≡◌, refl, ok}
use tally_vcs.Prelude.Bytes.{Bytes, bytes, str_eq, str_lt, contains, split, trim_one}
use tally_vcs.BTreeMap
use tally_vcs.Ident.Hex.{is_hex64, is_hex_char}
use tally_vcs.Ident.Record.{
  ElementRecord, validate_mode, validate_path, has_dots, new, to_line, parse,
}
use tally_vcs.Ident.RoundTrip.{IsValid}
use tally_vcs.Json.{array, end}
use tally_vcs.Log.{LogLine, Annotation, agent}
use tally_vcs.Manifest
use tally_vcs.Manifest.{Manifest, IsWellFormed, sum, record_eq}
use tally_vcs.Patch.{
  RealizedEntry, apply_realized_to_manifest, apply_realized_to_sum, apply_entry, removed, added,
  parse_side,
}
use tally_vcs.Patch.Arithmetic.{sum-apply_realized}
use tally_vcs.Patch.Invert.{invert, apply_realized-invert}
use tally_vcs.Setsum.{hexdigest}
use tally_vcs.Tests.Identity.{readme, readme-IsValid}
use tally_vcs.Tests.Toy.{toy_setsum, toy_sha3, repeat}
use tally_vcs.Union.{commutes, write_paths, collect_writes, read_paths, collect_reads, intersects}
use tally_vcs.Union.Commutes.{commutes-swap}

abbrev pub readme_edited : ElementRecord
readme_edited = record { mode = bytes "100644"; path = bytes "/README.md"; blob = repeat 64 b'b' }

abbrev pub licence : ElementRecord
licence = record { mode = bytes "100644"; path = bytes "/LICENSE"; blob = repeat 64 b'c' }

licence-IsValid : IsValid licence
unfolding validate_mode validate_path has_dots is_hex64 is_hex_char str_eq contains split repeat
licence-IsValid = record { mode_valid = refl; path_valid = refl; blob_valid = refl }

abbrev pub tree : Manifest
tree = record { elements = (readme.path, readme) ∷ [] }

abbrev pub tree_edited : Manifest
tree_edited = record { elements = (readme.path, readme_edited) ∷ [] }

abbrev pub tree_after : Manifest
tree_after = record { elements = (licence.path, licence) ∷ (readme.path, readme_edited) ∷ [] }

pub tree-IsWellFormed : IsWellFormed tree
tree-IsWellFormed = record { sorted = (tt, tt); entries = ((refl, readme-IsValid), tt) }

readme_edited-IsValid : IsValid readme_edited
unfolding validate_mode validate_path has_dots is_hex64 is_hex_char str_eq contains split repeat
readme_edited-IsValid = record { mode_valid = refl; path_valid = refl; blob_valid = refl }

pub tree_edited-IsWellFormed : IsWellFormed tree_edited
tree_edited-IsWellFormed = record {
  sorted = (tt, tt);
  entries = ((refl, readme_edited-IsValid), tt);
}

-- The deltas of an edit and of a creation.
abbrev pub edits : List RealizedEntry
edits = record { remove = some (to_line readme); add = some (to_line readme_edited) } ∷ []

abbrev pub creates : List RealizedEntry
creates = record { remove = none; add = some (to_line licence) } ∷ []

pub applies : apply_realized_to_manifest tree (edits ++ creates) ≡ ok tree_after
unfolding apply_realized_to_manifest apply_entry removed added parse_side parse new validate_mode
    validate_path has_dots is_hex64 is_hex_char str_eq str_lt contains split trim_one repeat to_line
    Manifest.insert Manifest.remove Manifest.contains record_eq BTreeMap.get BTreeMap.insert
    BTreeMap.remove
applies = refl

sum-apply_realized_example :
    apply_realized_to_sum (sum tree) (edits ++ creates) ≡ ok (sum tree_after)
sum-apply_realized_example = sum-apply_realized (edits ++ creates) tree tree_after applies

apply_realized-invert_example :
    apply_realized_to_sum (sum tree_after) (invert (edits ++ creates)) ≡ ok (sum tree)
apply_realized-invert_example =
    apply_realized-invert (edits ++ creates) (sum tree) (sum tree_after) sum-apply_realized_example

-- An author who has not read anything but says so.
abbrev pub quiet : Annotation
quiet = record {
  author = bytes "agent";
  provenance = agent;
  reason = none;
  sig = none;
  session = none;
  prose = none;
  reads = some (array end);
  origin = none;
  git_import = none;
  harness = none;
  fuse_span = none;
}

abbrev pub line_of : Bytes → Bytes → List RealizedEntry → Bytes → LogLine
line_of id prev realized sum_after = record {
  id = id;
  prev = prev;
  intent = record { ops = [] };
  realized = realized;
  sum_after = sum_after;
  committed_ms = 0;
  annotation = quiet;
}

abbrev pub edit_line : LogLine
edit_line = line_of (bytes "e") [] edits (hexdigest (sum tree_edited))

abbrev pub create_line : LogLine
create_line = line_of (bytes "c") (bytes "e") creates (hexdigest (sum tree_after))

pub certified : commutes edit_line create_line ≡ ok true
unfolding commutes write_paths collect_writes read_paths collect_reads intersects removed added
    parse_side parse new validate_mode validate_path has_dots is_hex64 is_hex_char str_eq str_lt
    contains split trim_one repeat to_line BTreeMap.get BTreeMap.insert
certified = refl

commutes-swap_example : apply_realized_to_manifest tree (creates ++ edits) ≡ ok tree_after
commutes-swap_example =
    commutes-swap edit_line create_line certified tree tree_after tree-IsWellFormed applies
