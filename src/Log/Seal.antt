-- ===== src/Log/Seal.antt =====
-- `LogLine::seal` of src/log.rs. The pool that it writes to and the line that it changes are handed
-- on; the clock is an argument.
use tally_vcs.Prelude.{
  ℕ, suc, ◌%◌, ◌^◌, Bool, true, false, [], ◌∷◌, ◌++◌, Option, none, some, if◌then◌else◌, length,
  ltb, leb, ◌==◌, Result, ok, ◌>>=◌, ◌>>◌,
}
use tally_vcs.Prelude.Bytes.{Bytes, bytes}
use tally_vcs.Blobs.{BlobStore, put}
use tally_vcs.Ident.Hex.{Sha3}
use tally_vcs.Json.{Value, string, array, object, stop, member}
use tally_vcs.Json.Canonical.{canonical_json}
use tally_vcs.Json.RecordId.{record_id}
use tally_vcs.Log.{LogLine, validate}
use tally_vcs.Log.Serialize.{to_value}
use tally_vcs.Log.Stored.{line_blob_key}

-- A stored line is shorter than this.
abbrev pub spill_threshold : ℕ
spill_threshold = 65536

-- `{ "line_blob": hash }`, `{ "reads_blob": hash }`
abbrev pub line_blob_value : Bytes → Value
line_blob_value hash = object (member line_blob_key (string hash) stop)

abbrev pub reads_blob_value : Bytes → Value
reads_blob_value hash = object (member (bytes "reads_blob") (string hash) stop)

abbrev pub with_reads : LogLine → Value → LogLine
with_reads line reads = record line { annotation = record line.annotation { reads = some reads } }

-- `.map(|d| d.as_millis() as u64).unwrap_or(0)`: a clock before the epoch reads as 0.
abbrev pub clock_ms : Option ℕ → ℕ
clock_ms none = 0
clock_ms (some millis) = millis % 2 ^ 64

unfoldable pub stamp : Option ℕ → LogLine → LogLine
stamp now line =
    if line.committed_ms == 0 then record line { committed_ms = clock_ms now } else line

-- What `seal` returns, and what it changes.
pub record Sealed : Type 0 where
  pub appended : Bytes
  pub line : LogLine
  pub blobs : BlobStore

module _ ⦃h : Sha3⦄ where
  -- `LogLine::compute_id`
  unfoldable pub compute_id : LogLine → Result Bytes
  compute_id line = record_id (to_value line)

  abbrev pub spill_array : BlobStore → LogLine → Value → Result (LogLine × BlobStore)
  spill_array blobs line reads = do
    spilled ← canonical_json reads
    stored ← put blobs spilled
    ok (with_reads line (reads_blob_value stored.0), stored.1)

  abbrev pub spill_value : BlobStore → LogLine → Option Value → Result (LogLine × BlobStore)
  spill_value blobs line (some (array vs)) = spill_array blobs line (array vs)
  spill_value blobs line (some _) = ok (line, blobs)
  spill_value blobs line none = ok (line, blobs)

  abbrev pub spill_if : Bool → BlobStore → LogLine → Result (LogLine × BlobStore)
  spill_if true blobs line = ok (line, blobs)
  spill_if false blobs line = spill_value blobs line line.annotation.reads

  -- `LogLine::spill_reads_if_needed`
  unfoldable pub spill_reads_if_needed : BlobStore → LogLine → Result (LogLine × BlobStore)
  spill_reads_if_needed blobs line = do
    text ← canonical_json (to_value line)
    spill_if (leb (suc (length text)) spill_threshold) blobs line

  -- The overflow of a line into a blob.
  unfoldable pub overflow : BlobStore → Bytes → Result (Bytes × BlobStore)
  overflow blobs text =
      if ltb spill_threshold (length text)
      then (do
        stored ← put blobs text
        reference ← canonical_json (line_blob_value stored.0)
        ok (reference, stored.1))
      else ok (text, blobs)

  unfoldable pub seal : Option ℕ → BlobStore → LogLine → Result Sealed
  seal now blobs line = do
    validate line
    spilled ← spill_reads_if_needed blobs (stamp now line)
    id ← compute_id spilled.0
    text ← canonical_json (to_value (record spilled.0 { id = id }))
    stored ← overflow spilled.1 text
    ok (record {
      appended = stored.0 ++ (10 ∷ []);
      line = record spilled.0 { id = id };
      blobs = stored.1;
    })
