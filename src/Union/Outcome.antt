-- ===== src/Union/Outcome.antt =====
-- The outcome of a union in src/union.rs, and the conflicts that the tripwires note.
use tally_vcs.Prelude.{Bool, not, ◌&&◌, List, [], ◌∷◌, ◌++◌, Option, none, some, if◌then◌else◌}
use tally_vcs.Prelude.Bytes.{Bytes, bytes}
use tally_vcs.BTreeMap
use tally_vcs.BTreeMap.{BTreeMap, is_some}
use tally_vcs.Blobs.{BlobStore}
use tally_vcs.Json.{Value, array, Values, end, item}
use tally_vcs.Json.RecordId.{get_value, as_str}
use tally_vcs.Log.{LogLine, is_empty}
use tally_vcs.Manifest.{Manifest}
use tally_vcs.Union.{BTreeSet, set_insert}
use tally_vcs.Union.Reads.{stale_reads, read_is_stale}

pub data Stratum : Type 0 where
  realized_replay intent_replay : Stratum

pub record Landed : Type 0 where
  pub line : LogLine
  pub origin_id : Bytes
  pub stratum : Stratum

pub data ConflictDirection : Type 0 where
  incoming_read_stale incoming_write_hits_target_read : ConflictDirection

pub record SemanticConflict : Type 0 where
  pub source_id : Bytes
  pub target_id : Bytes
  pub paths : BTreeSet
  pub direction : ConflictDirection

-- The evidence with the line that needs re-enactment is the text of an error.
pub record UnionOutcome : Type 0 where
  pub already_identical : Bool
  pub landed : List Landed
  pub needs_reenactment : Option Bytes
  pub semantic_conflicts : List SemanticConflict

unfoldable pub complete : UnionOutcome → Bool
complete o = not (is_some o.needs_reenactment) && is_empty o.semantic_conflicts

-- A target line, with what it writes.
abbrev pub Writes : Type 0
Writes = Bytes × BTreeSet

-- `note_stale_reads`: the conflicts that it adds.
unfoldable pub note_stale_reads :
    LogLine → List Writes → Manifest → BlobStore → List SemanticConflict
note_stale_reads source [] target blobs = []
note_stale_reads source ((target_id, writes) ∷ concurrent) target blobs =
    let paths = stale_reads source writes target blobs in
    let rest = note_stale_reads source concurrent target blobs in
    if is_empty paths
    then rest
    else record {
      source_id = source.id;
      target_id = target_id;
      paths = paths;
      direction = incoming_read_stale;
    }
      ∷ rest

-- Paths by the source line that wrote them.
abbrev pub BySource : Type 0
BySource = BTreeMap BTreeSet

abbrev or_default : Option BTreeSet → BTreeSet
or_default none = []
or_default (some s) = s

-- `by_source.entry(source_id).or_default().insert(path)`
unfoldable pub strand : Bytes → Bytes → BySource → BySource
strand source_id path by_source =
    BTreeMap.insert source_id (set_insert path (or_default (BTreeMap.get source_id by_source)))
      by_source

-- The closure `strand_all`.
unfoldable pub strand_all : BTreeMap Bytes → BySource → BySource
strand_all [] by_source = by_source
strand_all ((path, source_id) ∷ writers) by_source =
    strand_all writers (strand source_id path by_source)

module _ (writers : BTreeMap Bytes) (before after : Manifest) (blobs : BlobStore) where
  abbrev strand_path : Value → Bytes → Option Bytes → BySource → BySource
  strand_path read path none by_source = by_source
  strand_path read path (some source_id) by_source =
      if read_is_stale read path (some before) after blobs
      then strand source_id path by_source
      else by_source

  abbrev strand_read : Value → Option Bytes → BySource → BySource
  strand_read read none by_source = strand_all writers by_source
  strand_read read (some path) by_source =
      strand_path read path (BTreeMap.get path writers) by_source

  -- The loop over the reads of the target line.
  unfoldable pub strand_reads : Values → BySource → BySource
  strand_reads end by_source = by_source
  strand_reads (item read reads) by_source =
      strand_reads reads (strand_read read (as_str (get_value (bytes "path") read)) by_source)

  abbrev stranded : Option Value → BySource
  stranded none = []
  stranded (some (array reads)) = strand_reads reads []
  stranded (some _) = strand_all writers []

  -- One conflict for each source line.
  abbrev conflicts_of : Bytes → BySource → List SemanticConflict
  conflicts_of target_id [] = []
  conflicts_of target_id ((source_id, paths) ∷ more) =
      record {
        source_id = source_id;
        target_id = target_id;
        paths = paths;
        direction = incoming_write_hits_target_read;
      }
      ∷ conflicts_of target_id more

  -- `note_stranded_reads`: the conflicts that it adds.
  unfoldable pub note_stranded_reads : LogLine → List SemanticConflict
  note_stranded_reads target_line =
      conflicts_of target_line.id (stranded target_line.annotation.reads)

  -- The loop over the concurrent target lines.
  unfoldable pub note_all_stranded : List LogLine → List SemanticConflict
  note_all_stranded [] = []
  note_all_stranded (line ∷ lines) = note_stranded_reads line ++ note_all_stranded lines
