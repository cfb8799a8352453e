-- ===== src/Union/Landing.antt =====
-- `union` of src/union.rs: the replay of the source's lines, and the commit point.
use tally_vcs.Prelude.{
  ℕ, suc, Bool, true, false, not, ◌&&◌, List, [], ◌∷◌, ◌++◌, Option, none, some, if◌then◌else◌, map,
  drop, length, Error, Result, ok, err, io, invalid, corrupt, precondition, needs_reenactment, json,
}
use tally_vcs.Prelude
use tally_vcs.Prelude.Bytes.{Bytes, str_eq}
use tally_vcs.BTreeMap
use tally_vcs.BTreeMap.{BTreeMap, contains_key, is_some}
use tally_vcs.Ident.Hex.{Sha3}
use tally_vcs.Log.{LogLine, Annotation, Fuse, Origin, union, is_empty}
use tally_vcs.Manifest.{Manifest}
use tally_vcs.Patch.{
  RealizedEntry, Realization, apply_intent, apply_realized_to_sum, apply_realized_to_manifest,
}
use tally_vcs.Repo.Apply.{next_line, put_all}
use tally_vcs.Repo.Run.{Run, ◌>>=◌, ◌>>◌, lift, return, reading, seal_line}
use tally_vcs.Setsum.{Setsum, Sum, hexdigest}
use tally_vcs.Union.{BTreeSet, set_insert, write_paths}
use tally_vcs.Union.Outcome.{
  Landed, Stratum, realized_replay, intent_replay, SemanticConflict, Writes, note_stale_reads,
}

-- The target lines behind the divergence, with what they write.
unfoldable pub concurrent_writes : List LogLine → Result (List Writes)
concurrent_writes [] = ok []
concurrent_writes (line ∷ lines) = Prelude.◌>>=◌ (write_paths line) (λ writes.
    Prelude.◌>>=◌ (concurrent_writes lines)
      (λ rest. ok (if is_empty writes then rest else (line.id, writes) ∷ rest)))

-- What the target carries, and where the lines that it carries stand in it.
pub record Carried : Type 0 where
  pub ids : BTreeSet
  pub rekey : BTreeMap Bytes

abbrev carry_origin : Bytes → LogLine → Option Origin → Carried → Carried
carry_origin source line none c = c
carry_origin source line (some origin) c =
    if str_eq origin.fork source
    then record {
      ids = set_insert origin.id c.ids;
      rekey = BTreeMap.insert origin.id line.id c.rekey;
    }
    else c

unfoldable pub carried_by : Bytes → List LogLine → Carried → Carried
carried_by source [] c = c
carried_by source (line ∷ lines) c =
    carried_by source lines (
      carry_origin source line line.annotation.origin (record c { ids = set_insert line.id c.ids }))

abbrev or_same : Bytes → Option Bytes → Bytes
or_same id none = id
or_same id (some landed_id) = landed_id

unfoldable pub rekeyed : BTreeMap Bytes → Option Fuse → Option Fuse
rekeyed rekey none = none
rekeyed rekey (some f) = some (record {
  name = f.name;
  from = or_same f.from (BTreeMap.get f.from rekey);
  to = or_same f.to (BTreeMap.get f.to rekey);
})

-- The annotation of a landed line.
unfoldable pub landed_annotation : Bytes → Bytes → BTreeMap Bytes → LogLine → Annotation
landed_annotation source author rekey line = record {
  author = author;
  provenance = union;
  reason = none;
  sig = none;
  session = line.annotation.session;
  prose = line.annotation.prose;
  reads = line.annotation.reads;
  origin = some (record { fork = source; id = line.id });
  git_import = line.annotation.git_import;
  harness = line.annotation.harness;
  fuse_span = rekeyed rekey line.annotation.fuse_span;
}

-- What a line becomes: a delta, and the manifest behind it; or its assumptions are dead.
pub data Trial : Type 0 where
  lands : List RealizedEntry → Manifest → Stratum → Trial
  dead : Trial

abbrev pub add_writers : Bytes → BTreeSet → BTreeMap Bytes → BTreeMap Bytes
add_writers id [] writers = writers
add_writers id ((path, u) ∷ paths) writers = add_writers id paths (BTreeMap.insert path id writers)

module _ ⦃S : Setsum⦄ where
  -- The replay state.
  pub record Replay : Type 0 where
    pub rekey : BTreeMap Bytes
    pub scratch : Manifest
    pub sum : Sum
    pub prev : Bytes
    pub bytes : Bytes
    pub staged : List Landed
    pub writers : BTreeMap Bytes
    pub conflicts : List SemanticConflict

  -- The end of the loop: the replay state, or the line that needs re-enactment with the conflicts so
  -- far.
  pub data Replayed : Type 0 where
    whole : Replay → Replayed
    gate : Bytes → List SemanticConflict → Replayed

-- Lines that are not replayed: carried ones, and all but fuses between identical states.
abbrev pub is_skipped : Bool → BTreeSet → LogLine → Bool
is_skipped identical ids line =
    if contains_key line.id ids then true else identical && not (is_some line.annotation.fuse_span)

module _ ⦃h : Sha3⦄ where
  -- Stratum 3.
  abbrev pub intent_trial : Result Realization × Manifest → Run Trial
  intent_trial (ok realization, trial) = do
    put_all realization.new_blobs
    return (lands realization.realized trial intent_replay)
  intent_trial (err precondition, trial) = return dead
  intent_trial (err io, trial) = lift (err io)
  intent_trial (err corrupt, trial) = lift (err corrupt)
  intent_trial (err invalid, trial) = lift (err invalid)
  intent_trial (err needs_reenactment, trial) = lift (err needs_reenactment)
  intent_trial (err json, trial) = lift (err json)

  abbrev pub trial_of : LogLine → Manifest → Result Manifest → Run Trial
  trial_of line scratch (ok trial) = return (lands line.realized trial realized_replay)
  trial_of line scratch (err e) = do
    applied ← reading (λ r. ok (apply_intent line.intent scratch r.blobs))
    intent_trial applied

  -- Stratum 2, and stratum 3 when it misses.
  unfoldable pub try_line : LogLine → Manifest → Run Trial
  try_line line scratch = trial_of line scratch (apply_realized_to_manifest scratch line.realized)

module _ ⦃S : Setsum⦄ ⦃h : Sha3⦄ (source author : Bytes) (concurrent : List Writes) where
  -- A line that lands: sealed in memory, and noted.
  unfoldable pub land_line :
      Option ℕ → LogLine → List RealizedEntry → Manifest → Stratum → Replay → Run Replay
  land_line now line realized trial stratum s = do
    stale ← reading (λ r. ok (note_stale_reads line concurrent s.scratch r.blobs))
    sum ← lift (apply_realized_to_sum s.sum realized)
    sealed ← seal_line now (
        next_line s.prev line.intent realized (hexdigest sum) 0
          (landed_annotation source author s.rekey line))
    written ← lift (write_paths sealed.line)
    return (record {
      rekey = BTreeMap.insert line.id sealed.line.id s.rekey;
      scratch = trial;
      sum = sum;
      prev = sealed.line.id;
      bytes = s.bytes ++ sealed.appended;
      staged =
          s.staged ++ (record { line = sealed.line; origin_id = line.id; stratum = stratum } ∷ []);
      writers = add_writers line.id written s.writers;
      conflicts = s.conflicts ++ stale;
    })

  abbrev pub land_trial :
      Option ℕ → LogLine → Replay → (Replay → Run Replayed) → Trial → Run Replayed
  land_trial now line s rest dead = return (gate line.id s.conflicts)
  land_trial now line s rest (lands realized m stratum) =
      land_line now line realized m stratum s >>= rest

  unfoldable pub replay_source :
      (ℕ → Option ℕ) → Bool → BTreeSet → List LogLine → Replay → Run Replayed
  replay_source clock identical ids [] s = return (whole s)
  replay_source clock identical ids (line ∷ lines) s =
      let rest = λ (t : Replay). replay_source clock identical ids lines t in
      if is_skipped identical ids line
      then rest s
      else (try_line line s.scratch >>= land_trial (clock (length lines)) line s rest)
