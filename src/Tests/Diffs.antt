-- ===== src/Tests/Diffs.antt =====
-- Differences and ignore rules at concrete inputs.
use tally_vcs.Prelude.{◌≤◌, true, false, List, [], ◌∷◌, none, some, ◌≡◌, ◌↔◌, refl, All}
use tally_vcs.Prelude.Bytes.{
  Bytes, bytes, str_eq, is_utf8, utf8_run, utf8_step, utf8_lead, split_inclusive,
}
use tally_vcs.Ident.Record.{ElementRecord}
use tally_vcs.Diff.Script.{
  Edit, equal, delete, insert, lcs_edits, count_edits, line_stat, split_keep_lines, lcs_table, fill,
  zeros, cell, walk,
}
use tally_vcs.Diff.Lcs.{Script, lcs_edits-Script, done, drops, adds}
use tally_vcs.Diff.Minimal.{line_stat_minimal}
use tally_vcs.Diff.States.{PathChange, detect_renames}
use tally_vcs.Diff.Renames.{IsMove, detect_renames-IsMove}
use tally_vcs.Ignore.Rules.{
  Rule, Ignore, parse_ignore, is_ignored, match_segment, rule_matches, match_segments, match_fuel,
  any_suffix, any_start, match_class, class_loop, pieces,
}
use tally_vcs.Ignore.Glob.{Matches, match_segment_iff}
use tally_vcs.Ignore.Matching.{rule_matches-append}
use tally_vcs.Ignore.Verdict.{Decides, is_ignored_iff}
use tally_vcs.Tests.Identity.{readme}
use tally_vcs.Tests.Toy.{repeat}

abbrev old_text : Bytes
old_text = bytes "a\nb\nc\n"

abbrev new_text : Bytes
new_text = bytes "a\nc\nd"

script_example :
    lcs_edits (split_keep_lines old_text) (split_keep_lines new_text)
    ≡ equal 0 0 ∷ delete 1 ∷ equal 2 1 ∷ insert 2 ∷ []
unfolding lcs_edits split_keep_lines split_inclusive str_eq lcs_table fill zeros cell walk
script_example = refl

lcs_edits-Script_example :
    Script 0 0
      (split_keep_lines old_text)
      (split_keep_lines new_text)
      (lcs_edits (split_keep_lines old_text) (split_keep_lines new_text))
lcs_edits-Script_example = lcs_edits-Script (split_keep_lines old_text) (split_keep_lines new_text)

old_text-is_utf8 : is_utf8 old_text ≡ true
unfolding is_utf8 utf8_run utf8_step utf8_lead
old_text-is_utf8 = refl

new_text-is_utf8 : is_utf8 new_text ≡ true
unfolding is_utf8 utf8_run utf8_step utf8_lead
new_text-is_utf8 = refl

-- All lines deleted, then all inserted.
abbrev replace_all : List Edit
replace_all = delete 0 ∷ delete 1 ∷ delete 2 ∷ insert 0 ∷ insert 1 ∷ insert 2 ∷ []

replace_all-Script : Script 0 0 (split_keep_lines old_text) (split_keep_lines new_text) replace_all
unfolding split_keep_lines split_inclusive
replace_all-Script = drops (bytes "a\n") (
    drops (bytes "b\n")
      (drops (bytes "c\n") (adds (bytes "a\n") (adds (bytes "c\n") (adds (bytes "d") (done 3 3))))))

line_stat_minimal_example :
    ((line_stat old_text new_text).0 ≤ (count_edits replace_all).0)
    × ((line_stat old_text new_text).1 ≤ (count_edits replace_all).1)
line_stat_minimal_example =
    line_stat_minimal old_text new_text replace_all old_text-is_utf8 new_text-is_utf8
      replace_all-Script

abbrev moved : ElementRecord
moved = record { mode = bytes "100644"; path = bytes "/docs"; blob = repeat 64 b'a' }

abbrev a_move : List PathChange
a_move =
    record { path = bytes "/README.md"; before = some readme; after = none }
    ∷ record { path = bytes "/docs"; before = none; after = some moved }
    ∷ []

detect_renames-IsMove_example : All (IsMove a_move) (detect_renames a_move).0
detect_renames-IsMove_example = detect_renames-IsMove a_move

match_segment_iff_example :
    (match_segment (bytes "*.[!a-n]") (bytes "x.o") ≡ true)
    ↔ Matches (bytes "*.[!a-n]") (bytes "x.o")
match_segment_iff_example = match_segment_iff (bytes "*.[!a-n]") (bytes "x.o")

matches_object : match_segment (bytes "*.[oa]") (bytes "x.o") ≡ true
unfolding match_segment match_fuel any_suffix match_class class_loop
matches_object = refl

abbrev target_rule : Rule
target_rule = record {
  negated = false;
  dir_only = false;
  anchored = false;
  segments = bytes "target" ∷ [];
}

target_matches : rule_matches target_rule (bytes "sub" ∷ bytes "target" ∷ []) ≡ true
unfolding rule_matches any_start match_segments str_eq match_segment match_fuel
target_matches = refl

rule_matches-append_example :
    rule_matches target_rule (bytes "sub" ∷ bytes "target" ∷ bytes "debug" ∷ []) ≡ true
rule_matches-append_example =
    rule_matches-append target_rule (bytes "sub" ∷ bytes "target" ∷ []) (bytes "debug" ∷ [])
      target_matches

abbrev rules : Ignore
rules = parse_ignore (bytes "*.log\n!keep.log\n")

is_ignored_iff_example : (is_ignored rules (bytes "debug.log") false ≡ true) ↔ (
    (rule : Rule) × Decides false (pieces b'/' (bytes "debug.log")) rule rules.rules
    × (rule.negated ≡ false))
is_ignored_iff_example = is_ignored_iff rules (bytes "debug.log") false
