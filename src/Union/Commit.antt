-- ===== src/Union/Commit.antt =====
-- `union` of src/union.rs: the states that it reads, and the commit point.
use tally_vcs.Prelude.{ℕ, Bool, List, [], ◌∷◌, ◌++◌, Option, none, some, drop, ok}
use tally_vcs.Prelude.Bytes.{Bytes}
use tally_vcs.Ident.Hex.{Sha3}
use tally_vcs.Log.{LogLine, last_state_position}
use tally_vcs.Log.Stored.{Serde}
use tally_vcs.Manifest.{Manifest}
use tally_vcs.Repo.{read_fork}
use tally_vcs.Repo.Apply.{append_sealed_locked}
use tally_vcs.Repo.Replay.{ForkState, behind}
use tally_vcs.Repo.Run.{Run, ◌>>=◌, ◌>>◌, lift, return, reading, lock_fork, current_state}
use tally_vcs.Setsum.{Setsum}
use tally_vcs.Union.Outcome.{Landed, UnionOutcome, SemanticConflict, note_all_stranded}
use tally_vcs.Union.Landing.{
  Replay, Replayed, whole, gate, Carried, carried_by, concurrent_writes, replay_source,
}

abbrev pub outcome : Bool → List Landed → Option Bytes → List SemanticConflict → UnionOutcome
outcome identical landed reenact conflicts = record {
  already_identical = identical;
  landed = landed;
  needs_reenactment = reenact;
  semantic_conflicts = conflicts;
}

-- `staged_lines`
abbrev pub staged_lines : List Landed → List LogLine
staged_lines [] = []
staged_lines (l ∷ ls) = l.line ∷ staged_lines ls

module _ ⦃S : Setsum⦄ ⦃h : Sha3⦄ where
  -- The commit point.
  unfoldable pub commit_clean : Bytes → Bool → Replay → List SemanticConflict → Run UnionOutcome
  commit_clean target identical s [] = do
    append_sealed_locked target (staged_lines s.staged) s.bytes
    return (outcome identical s.staged none [])
  commit_clean target identical s (c ∷ cs) = return (outcome identical [] none (c ∷ cs))

  unfoldable pub finish : Bytes → Bool → Manifest → List LogLine → Replayed → Run UnionOutcome
  finish target identical before concurrent_lines (gate id conflicts) =
      return (outcome identical [] (some id) conflicts)
  finish target identical before concurrent_lines (whole s) = do
    stranded ←
        reading (λ r. ok (note_all_stranded s.writers before s.scratch r.blobs concurrent_lines))
    commit_clean target identical s (s.conflicts ++ stranded)

  -- The replay state before the first line.
  abbrev pub start_replay : Carried → ForkState → Replay
  start_replay carried state = record {
    rekey = carried.rekey;
    scratch = state.manifest;
    sum = state.sum;
    prev = state.head_id;
    bytes = [];
    staged = [];
    writers = [];
    conflicts = [];
  }

  abbrev pub carried_of : Bytes → ForkState → Carried
  carried_of source state = carried_by source state.lines (record { ids = []; rekey = [] })

  -- `target_state.lines[concurrent_start..]`
  abbrev pub concurrent_lines : Bytes → ForkState → List LogLine
  concurrent_lines anchor state = drop (behind (last_state_position state.lines anchor)) state.lines

  -- `union`, once the states are read.
  unfoldable pub replay_and_commit :
      (ℕ → Option ℕ) → Bytes → Bytes → Bytes → Bytes → ForkState → ForkState → Run UnionOutcome
  replay_and_commit clock source target author anchor source_state target_state = do
    concurrent ← lift (concurrent_writes (concurrent_lines anchor target_state))
    replayed ←
        replay_source source author concurrent clock (S.eq source_state.sum target_state.sum)
          (carried_of source target_state).ids source_state.lines
          (start_replay (carried_of source target_state) target_state)
    finish target (S.eq source_state.sum target_state.sum) target_state.manifest
        (concurrent_lines anchor target_state) replayed

  unfoldable pub union_forks :
      ⦃d : Serde⦄ → (ℕ → Option ℕ) → Bytes → Bytes → Bytes → Run UnionOutcome
  union_forks clock source target author = do
    lock_fork target
    source_state ← current_state source
    target_state ← current_state target
    source_fork ← reading (read_fork source)
    replay_and_commit clock source target author source_fork.anchor source_state target_state
