-- ===== src/Union/Reads.antt =====
-- The tripwires of src/union.rs: the reads that a write of the other side has made stale.
use tally_vcs.Prelude.{
  ℕ, suc, ◌+◌, ◌-◌, Bool, true, false, not, ◌&&◌, ◌||◌, List, [], ◌∷◌, Option, none, some,
  if◌then◌else◌, any, length, take, leb, ltb, ◌==◌, Result, ok, err,
}
use tally_vcs.Prelude.Bytes.{Bytes, bytes, str_eq, is_utf8, strip_prefix}
use tally_vcs.BTreeMap.{contains_key}
use tally_vcs.Blobs.{BlobStore}
use tally_vcs.Blobs
use tally_vcs.Diff.Script.{changed_old_lines}
use tally_vcs.Json.{Value, array, Values, end, item}
use tally_vcs.Json.RecordId.{get_value, as_str}
use tally_vcs.Log.{LogLine, is_empty}
use tally_vcs.Manifest.{Manifest}
use tally_vcs.Manifest
use tally_vcs.Patch.Span.{count_occurrences, all_hits}
use tally_vcs.Revision.Range.{split_once}
use tally_vcs.Revision.Suffixes.{parse_usize}
use tally_vcs.Union.{BTreeSet, set_insert, as_array}

-- `blob[..offset].iter().filter(|&&b| b == b'\n').count()`
unfoldable pub count_lf : Bytes → ℕ
count_lf [] = 0
count_lf (b ∷ bs) = let rest = count_lf bs in if b == 10 then suc rest else rest

-- `blob.last().is_some_and(|&b| b != b'\n')`, as a number.
unfoldable pub open_tail : Bytes → ℕ
open_tail [] = 0
open_tail (b ∷ []) = if b == 10 then 0 else 1
open_tail (b ∷ c ∷ bs) = open_tail (c ∷ bs)

unfoldable pub count_lines : Bytes → ℕ
count_lines blob = count_lf blob + open_tail blob

abbrev line_numbers : Option ℕ → Option ℕ → Option (ℕ × ℕ)
line_numbers none last = none
line_numbers (some start) none = none
line_numbers (some start) (some last) =
    if leb 1 start && leb 1 last then some (start, last) else none

abbrev two_numbers : Option (Bytes × Bytes) → Option (ℕ × ℕ)
two_numbers none = none
two_numbers (some (start, last)) = line_numbers (parse_usize start) (parse_usize last)

abbrev behind_l : Option Bytes → Option (ℕ × ℕ)
behind_l none = none
behind_l (some text) = two_numbers (split_once (bytes "-") text)

unfoldable pub parse_line_span : Bytes → Option (ℕ × ℕ)
parse_line_span needle = if is_utf8 needle then behind_l (strip_prefix (bytes "L") needle) else none

abbrev smaller : ℕ → ℕ → ℕ
smaller m n = if leb m n then m else n

-- A range of lines, clamped to the blob.
unfoldable pub clamped : ℕ → ℕ → ℕ → Option (ℕ × ℕ)
clamped nlines start last =
    if nlines == 0 || (ltb nlines start || ltb last start)
    then none
    else some (start - 1, smaller last nlines - 1)

abbrev first_hit : List ℕ → Option ℕ
first_hit [] = none
first_hit (at ∷ hits) = some at

abbrev lines_at : Bytes → Bytes → Option ℕ → Option (ℕ × ℕ)
lines_at blob needle none = none
lines_at blob needle (some start) =
    some (count_lf (take start blob), count_lf (take (start + length needle - 1) blob))

-- The lines of the only occurrence of a text.
unfoldable pub literal_range : Bytes → Bytes → Option (ℕ × ℕ)
literal_range blob needle =
    if is_empty needle || not (count_occurrences blob needle == 1)
    then none
    else lines_at blob needle (first_hit (all_hits blob needle))

abbrev named_range : Bytes → Bytes → Option (ℕ × ℕ) → Option (ℕ × ℕ)
named_range blob needle none = literal_range blob needle
named_range blob needle (some (start, last)) = clamped (count_lines blob) start last

unfoldable pub span_line_range : Bytes → Bytes → Option (ℕ × ℕ)
span_line_range blob needle = named_range blob needle (parse_line_span needle)

-- `(lo..=hi).any(|l| changed.contains(&l))`
unfoldable pub touches : ℕ → ℕ → List ℕ → Bool
touches lo hi changed = any (λ l. leb lo l && leb l hi) changed

abbrev range_stale : List ℕ → Option (ℕ × ℕ) → Bool
range_stale changed none = true
range_stale changed (some (lo, hi)) = touches lo hi changed

abbrev span_stale : Bytes → List ℕ → Option Bytes → Bool
span_stale read_bytes changed none = true
span_stale read_bytes changed (some text) = range_stale changed (span_line_range read_bytes text)

-- The loop over the spans.
unfoldable pub spans_stale : Bytes → List ℕ → Values → Bool
spans_stale read_bytes changed end = false
spans_stale read_bytes changed (item span spans) =
    span_stale read_bytes changed (as_str (some span)) || spans_stale read_bytes changed spans

-- A read that names no span is one of the whole file.
abbrev named_spans : Bytes → List ℕ → Option Values → Bool
named_spans read_bytes changed none = true
named_spans read_bytes changed (some end) = true
named_spans read_bytes changed (some (item span spans)) =
    spans_stale read_bytes changed (item span spans)

-- `&changed - &own_changed`
unfoldable pub subtract : List ℕ → List ℕ → List ℕ
subtract [] own = []
subtract (l ∷ ls) own =
    let rest = subtract ls own in if any (λ k. k == l) own then rest else l ∷ rest

abbrev without : List ℕ → Option (List ℕ) → List ℕ
without changed none = changed
without changed (some own_changed) = subtract changed own_changed

abbrev changed_by : Bytes → Result Bytes → Option (List ℕ)
changed_by read_bytes (err e) = none
changed_by read_bytes (ok own_bytes) = changed_old_lines read_bytes own_bytes

-- The lines that the reader's own side changed behind the read.
unfoldable pub own_changes : BlobStore → Bytes → Bytes → Bytes → Option Manifest → Option (List ℕ)
own_changes blobs read_hash read_bytes path none = none
own_changes blobs read_hash read_bytes path (some m) = elim (Manifest.get m path) [
  | none ↦ none
  | some own_record ↦
      if str_eq own_record.blob read_hash
      then none
      else changed_by read_bytes (Blobs.get blobs own_record.blob)
]

abbrev changes_stale : Bytes → Option (List ℕ) → Option (List ℕ) → Option Values → Bool
changes_stale read_bytes own none spans = true
changes_stale read_bytes own (some changed) spans =
    named_spans read_bytes (without changed own) spans

abbrev contents_stale : Option (List ℕ) → Option Values → Result Bytes → Result Bytes → Bool
contents_stale own spans (ok read_bytes) (ok now_bytes) =
    changes_stale read_bytes own (changed_old_lines read_bytes now_bytes) spans
contents_stale own spans (ok read_bytes) (err e) = true
contents_stale own spans (err e) now_bytes = true

abbrev or_empty_bytes : Result Bytes → Bytes
or_empty_bytes (ok b) = b
or_empty_bytes (err e) = []

abbrev hash_stale : Value → Bytes → Option Manifest → Manifest → BlobStore → Option Bytes → Bool
hash_stale read path own target blobs none = true
hash_stale read path own target blobs (some read_hash) = elim (Manifest.get target path) [
  | none ↦ true
  | some record_now ↦
      if str_eq record_now.blob read_hash
      then false
      else contents_stale
          (own_changes blobs read_hash (or_empty_bytes (Blobs.get blobs read_hash)) path own)
          (as_array (get_value (bytes "spans") read)) (Blobs.get blobs read_hash)
          (Blobs.get blobs record_now.blob)
]

unfoldable pub read_is_stale : Value → Bytes → Option Manifest → Manifest → BlobStore → Bool
read_is_stale read path own target blobs =
    hash_stale read path own target blobs (as_str (get_value (bytes "blob") read))

-- The loop of `stale_reads`.
unfoldable pub stale_among : BTreeSet → Manifest → BlobStore → BTreeSet → Values → BTreeSet
stale_among writes target blobs stale end = stale
stale_among writes target blobs stale (item read reads) =
    elim (as_str (get_value (bytes "path") read)) [
      | none ↦ writes
      | some path ↦
          stale_among writes target blobs
            (if contains_key path writes && read_is_stale read path none target blobs
              then set_insert path stale
              else stale)
            reads
    ]

-- Reads that a blob holds may all be stale.
abbrev stale_values : BTreeSet → Manifest → BlobStore → Option Value → BTreeSet
stale_values writes target blobs none = []
stale_values writes target blobs (some (array reads)) = stale_among writes target blobs [] reads
stale_values writes target blobs (some _) = writes

unfoldable pub stale_reads : LogLine → BTreeSet → Manifest → BlobStore → BTreeSet
stale_reads line writes target blobs =
    if is_empty writes then [] else stale_values writes target blobs line.annotation.reads
