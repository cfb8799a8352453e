-- ===== src/Repo/Lineage.antt =====
-- The walks of src/repo.rs along the history of a fork: `manifest_at`, `parent_fork`,
-- `lineage_base_sum`, `continuity_log`, `manifest_at_lineage`.
use tally_vcs.Prelude.{
  ℕ, zero, suc, Bool, true, false, not, List, [], ◌∷◌, ◌++◌, Option, none, some, if◌then◌else◌, map,
  any, length, take, drop, reverse, Result, ok, err, invalid, corrupt, require, ok_or,
}
use tally_vcs.Prelude
use tally_vcs.Prelude.Bytes.{Bytes, bytes, str_eq}
use tally_vcs.BTreeMap.{contains_key, is_some}
use tally_vcs.Fork.{ForkFile}
use tally_vcs.Ident.Hex.{Sha3}
use tally_vcs.Log.{LogLine, last_state_position}
use tally_vcs.Log.Stored.{Serde}
use tally_vcs.Manifest.{Manifest, sum}
use tally_vcs.Patch.{apply_realized_to_manifest}
use tally_vcs.Repo.{Repo, read_fork, fork_names, read_anchor_manifest}
use tally_vcs.Repo.Replay.{ForkState, unapply_lines, behind}
use tally_vcs.Repo.Run.{Run, ◌>>=◌, lift, return, reading, current_state}
use tally_vcs.Setsum.{Setsum, hexdigest, zero_sum}
use tally_vcs.Union.{BTreeSet, set_insert}

-- The candidates of `parent_fork`: those that authored the state, and those that share it.
pub record Candidates : Type 0 where
  pub authored : List Bytes
  pub shared : List Bytes

abbrev first_of : List Bytes → Option Bytes
first_of [] = none
first_of (n ∷ ns) = some n

-- `pick`
unfoldable pub pick : List Bytes → Option Bytes
pick names =
    if any (λ n. str_eq n (bytes "main")) names then some (bytes "main") else first_of names

abbrev or_else : Option Bytes → Option Bytes → Option Bytes
or_else none b = b
or_else (some a) b = some a

abbrev classify : Bytes → Bytes → ForkFile → List LogLine → Candidates → Candidates
classify anchor name file lines more =
    if is_some (last_state_position lines anchor)
    then record more { authored = name ∷ more.authored }
    else if str_eq file.anchor anchor
    then record more { shared = name ∷ more.shared }
    else more

-- A fork and those of its lines that belong to the lineage.
abbrev pub Segment : Type 0
Segment = Bytes × List LogLine

-- `out.push((name.clone(), line))` for the segments, the last one first.
unfoldable pub assemble : List Segment → List (Bytes × LogLine)
assemble [] = []
assemble ((name, lines) ∷ segments) = assemble segments ++ map (λ l. (name, l)) lines

-- `lines.truncate(take)`
unfoldable pub up_to : Option Bytes → List LogLine → List LogLine
up_to none lines = lines
up_to (some sum_hex) lines = take (behind (last_state_position lines sum_hex)) lines

abbrev pub onto_segments : Segment → Option (List Segment) → Option (List Segment)
onto_segments segment none = none
onto_segments segment (some segments) = some (segment ∷ segments)

abbrev pub walk_on :
    (Bytes → Run (Option (List Segment))) → Option Bytes → Run (Option (List Segment))
walk_on walk none = return (some [])
walk_on walk (some parent) = walk parent

module _ ⦃S : Setsum⦄ ⦃h : Sha3⦄ ⦃d : Serde⦄ where
  abbrev check_sum_of : Bytes → Manifest → Result Manifest
  check_sum_of sum_hex m = if str_eq (hexdigest (sum m)) sum_hex then ok m else err corrupt

  abbrev walk_back : Bytes → ForkState → Run Manifest
  walk_back sum_hex state = do
    pos ← lift (ok_or (last_state_position state.lines sum_hex) invalid)
    m ← lift (unapply_lines state.manifest (reverse (drop (suc pos) state.lines)))
    lift (check_sum_of sum_hex m)

  abbrev at_state : Bytes → ForkFile → ForkState → Run Manifest
  at_state sum_hex fork_file state =
      if str_eq (hexdigest state.sum) sum_hex
      then return state.manifest
      else if str_eq fork_file.anchor sum_hex
      then reading (read_anchor_manifest fork_file.manifest)
      else walk_back sum_hex state

  unfoldable pub manifest_at : Bytes → Bytes → Run Manifest
  manifest_at fork sum_hex = do
    fork_file ← reading (read_fork fork)
    state ← current_state fork
    at_state sum_hex fork_file state

  -- The loop over the names of the forks.
  unfoldable pub candidates : Bytes → Bytes → List Bytes → Run Candidates
  candidates child anchor [] = return (record { authored = []; shared = [] })
  candidates child anchor (name ∷ names) =
      let rest = candidates child anchor names in
      if str_eq name child then rest else (do
        file ← reading (read_fork name)
        state ← current_state name
        more ← rest
        return (classify anchor name file state.lines more))

  unfoldable pub parent_fork : Bytes → Bytes → Run (Option Bytes)
  parent_fork child anchor = do
    names ← reading (λ r. ok (fork_names r))
    found ← candidates child anchor names
    return (or_else (pick found.authored) (pick found.shared))

  abbrev pub is_root : ForkFile → Bool
  is_root file = str_eq file.anchor (hexdigest zero_sum)

  -- The parent of a fork, unless its anchor is the empty repository.
  unfoldable pub next_fork : Bytes → ForkFile → Run (Option Bytes)
  next_fork current file = if is_root file then return none else parent_fork current file.anchor

  -- The loop of `continuity_log`, which stops at a fork that it has visited: the segments, the
  -- child's first, or none when the fuel is spent.
  unfoldable pub continuity_walk : ℕ → Bytes → Option Bytes → BTreeSet → Run (Option (List Segment))
  continuity_walk zero current boundary visited = return none
  continuity_walk (suc fuel) current boundary visited =
      if contains_key current visited then return (some []) else (do
        file ← reading (read_fork current)
        state ← current_state current
        parent ← next_fork current file
        segments ←
            walk_on (λ p. continuity_walk fuel p (some file.anchor) (set_insert current visited))
              parent
        return (onto_segments (current, up_to boundary state.lines) segments))

  -- As many rounds as there are forks, and one more.
  abbrev pub fork_fuel : Repo → ℕ
  fork_fuel r = suc (length (fork_names r))

  abbrev assembled : Option (List Segment) → Result (List (Bytes × LogLine))
  assembled none = err invalid
  assembled (some segments) = ok (assemble segments)

  unfoldable pub continuity_log : Bytes → Run (List (Bytes × LogLine))
  continuity_log fork r =
      (continuity_walk (fork_fuel r) fork none [] >>= λ segments. lift (assembled segments)) r

  -- The loop of `lineage_base_sum`: the anchor of the last fork, nothing inside when the forks form
  -- a cycle, or none when the fuel is spent.
  unfoldable pub base_walk : ℕ → Bytes → BTreeSet → Run (Option (Option Bytes))
  base_walk zero current visited = return none
  base_walk (suc fuel) current visited =
      if contains_key current visited then return (some none) else (do
        file ← reading (read_fork current)
        parent ← next_fork current file
        elim parent [
          | none ↦ return (some (some file.anchor))
          | some p ↦ base_walk fuel p (set_insert current visited)
        ])

  abbrev or_own_anchor : Bytes → Option (Option Bytes) → Run Bytes
  or_own_anchor fork none = lift (err invalid)
  or_own_anchor fork (some none) = do file ← reading (read_fork fork); return file.anchor
  or_own_anchor fork (some (some anchor)) = return anchor

  unfoldable pub lineage_base_sum : Bytes → Run Bytes
  lineage_base_sum fork r = (base_walk (fork_fuel r) fork [] >>= λ base. or_own_anchor fork base) r

  -- The loop of `manifest_at_lineage`.
  unfoldable pub replay_to : Bytes → Manifest → List (Bytes × LogLine) → Result Manifest
  replay_to sum_hex m [] = err invalid
  replay_to sum_hex m ((name, line) ∷ history) =
      Prelude.◌>>=◌ (apply_realized_to_manifest m line.realized) (λ n.
        let rest = replay_to sum_hex n history in
        if str_eq line.sum_after sum_hex then check_sum_of sum_hex n else rest)

  abbrev base_of : Bytes → List (Bytes × LogLine) → Run Bytes
  base_of fork [] = do state ← current_state fork; return (hexdigest state.sum)
  base_of fork (l ∷ ls) = lineage_base_sum fork

  unfoldable pub manifest_at_lineage : Bytes → Bytes → Run Manifest
  manifest_at_lineage fork sum_hex = do
    history ← continuity_log fork
    base_sum ← base_of fork history
    manifest ← reading (read_anchor_manifest base_sum)
    lift (if str_eq base_sum sum_hex then ok manifest else replay_to sum_hex manifest history)
