-- ===== src/Revision/Resolve.antt =====
-- `lineage_states` and `resolve` of src/revision.rs. The repository is an interface.
use tally_vcs.Prelude.{
  ℕ, suc, ◌-◌, Bool, false, not, ◌||◌, List, [], ◌∷◌, Option, none, some, if◌then◌else◌, length,
  any, Result, ok, err, invalid, corrupt, ◌>>=◌, ok_or,
}
use tally_vcs.Prelude.Bytes.{Bytes, bytes, str_eq, starts_with, strip_prefix}
use tally_vcs.BTreeMap
use tally_vcs.BTreeMap.{BTreeMap, contains_key}
use tally_vcs.Ident.Hex.{is_hex64}
use tally_vcs.Log.{LogLine}
use tally_vcs.Patch.{apply_realized_to_sum}
use tally_vcs.Patch.Invert.{invert}
use tally_vcs.Revision.Suffixes.{StatePoint, Resolved, split_suffixes, apply_suffixes}
use tally_vcs.Setsum.{Setsum, Sum, hexdigest, from_hexdigest}

-- What a revision reads of the repository: the names of its forks, and of each the continuity log,
-- every line under the fork that authored it, and the sum of the current state.
pub record Repository ⦃S : Setsum⦄ : Type 0 where
  pub fork_names : Result (List Bytes)
  pub continuity_log : Bytes → Result (List (Bytes × LogLine))
  pub current_sum : Bytes → Result Sum

abbrev pub point_of : LogLine → StatePoint
point_of line = record { sum = line.sum_after; line = some line.id }

unfoldable pub points_of : List LogLine → List StatePoint
points_of [] = []
points_of (line ∷ lines) = point_of line ∷ points_of lines

unfoldable pub lines_of : List (Bytes × LogLine) → List LogLine
lines_of [] = []
lines_of ((fork, line) ∷ history) = line ∷ lines_of history

-- `iter().rposition(..)`
abbrev pub later_or : Bool → Option ℕ → Option ℕ
later_or hit (some i) = some (suc i)
later_or hit none = if hit then some 0 else none

unfoldable pub rposition : (StatePoint → Bool) → List StatePoint → Option ℕ
rposition f [] = none
rposition f (p ∷ ps) = later_or (f p) (rposition f ps)

-- The indices of the points that pass a test.
unfoldable pub positions : ℕ → (StatePoint → Bool) → List StatePoint → List ℕ
positions i f [] = []
positions i f (p ∷ ps) = let rest = positions (suc i) f ps in if f p then i ∷ rest else rest

abbrev pub has_sum : Bytes → StatePoint → Bool
has_sum sum p = str_eq p.sum sum

abbrev pub has_line : Bytes → StatePoint → Bool
has_line id p = elim p.line [ none ↦ false | some l ↦ str_eq l id ]

abbrev pub line_starts : Bytes → StatePoint → Bool
line_starts id p = elim p.line [ none ↦ false | some l ↦ starts_with id l ]

-- A fork, an index, and the points of its lineage.
abbrev pub Place : Type 0
Place = Bytes × ℕ × List StatePoint

abbrev pub on_lineage : Bytes → List StatePoint → ℕ → Place
on_lineage fork points i = (fork, i, points)

-- `authoring.entry(line.id).or_insert(name)`
abbrev or_insert : Bytes → Bytes → BTreeMap Bytes → BTreeMap Bytes
or_insert id fork m = if contains_key id m then m else BTreeMap.insert id fork m

unfoldable pub authors : Bytes → BTreeMap Bytes → List (Bytes × LogLine) → BTreeMap Bytes
authors base m [] = m
authors base m ((fork, line) ∷ history) =
    authors base (if starts_with base line.id then or_insert line.id fork m else m) history

module _ ⦃S : Setsum⦄ (repo : Repository) where
  -- The base of a lineage: the state before its first line, by the inverse of the line's delta.
  unfoldable pub base_sum : Bytes → List LogLine → Result Bytes
  base_sum fork [] = do current ← repo.current_sum fork; ok (hexdigest current)
  base_sum fork (line ∷ lines) = do
    after ← from_hexdigest line.sum_after
    before ← apply_realized_to_sum after (invert line.realized)
    ok (hexdigest before)

  unfoldable pub lineage_states : Bytes → Result (List StatePoint)
  lineage_states fork = do
    history ← repo.continuity_log fork
    base ← base_sum fork (lines_of history)
    ok (record { sum = base; line = none } ∷ points_of (lines_of history))

  unfoldable pub collect_authors : Bytes → BTreeMap Bytes → List Bytes → Result (BTreeMap Bytes)
  collect_authors base m [] = ok m
  collect_authors base m (fork ∷ forks) = do
    history ← repo.continuity_log fork
    collect_authors base (authors base m history) forks

  -- The `match` on the number of the authoring forks.
  unfoldable pub sole_author : BTreeMap Bytes → Result Place
  sole_author [] = err invalid
  sole_author ((id, fork) ∷ []) = do
    points ← lineage_states fork
    i ← ok_or (rposition (has_line id) points) corrupt
    ok (on_lineage fork points i)
  sole_author (_ ∷ _ ∷ _) = err invalid

  unfoldable pub resolve_line_id_global : Bytes → Result Place
  resolve_line_id_global base = do
    forks ← repo.fork_names
    authoring ← collect_authors base [] forks
    sole_author authoring

  unfoldable pub sum_on_forks : Bytes → List Bytes → Result Place
  sum_on_forks s [] = err invalid
  sum_on_forks s (fork ∷ forks) = do
    points ← lineage_states fork
    elim (rposition (has_sum s) points) [
      | some i ↦ ok (on_lineage fork points i)
      | none ↦ sum_on_forks s forks
    ]

  unfoldable pub resolve_sum_global : Bytes → Result Place
  resolve_sum_global s = do forks ← repo.fork_names; sum_on_forks s forks

  unfoldable pub resolve_sum : Bytes → Bytes → Result Place
  resolve_sum s default_fork = if not (is_hex64 s) then err invalid else do
    points ← lineage_states default_fork
    elim (rposition (has_sum s) points) [
      | some i ↦ ok (on_lineage default_fork points i)
      | none ↦ resolve_sum_global s
    ]

  -- The `match` on the matches of a line id on the default fork.
  unfoldable pub sole_match : Bytes → Bytes → List StatePoint → List ℕ → Result Place
  sole_match id default_fork points [] = resolve_line_id_global id
  sole_match id default_fork points (i ∷ []) = ok (on_lineage default_fork points i)
  sole_match id default_fork points (_ ∷ _ ∷ _) = err invalid

  unfoldable pub resolve_line : Bytes → Bytes → Result Place
  resolve_line id default_fork = if str_eq id [] then err invalid else do
    points ← lineage_states default_fork
    sole_match id default_fork points (positions 0 (line_starts id) points)

  -- The head of a fork: `points.len() - 1`.
  unfoldable pub head_of : Bytes → Result Place
  head_of fork = do points ← lineage_states fork; ok (on_lineage fork points (length points - 1))

  -- A base that names no head: a sum where it is one on the lineage, else a line id.
  unfoldable pub resolve_id : Bytes → Bytes → Result Place
  resolve_id base default_fork = do
    points ← lineage_states default_fork
    elim (if is_hex64 base then rposition (has_sum base) points else none) [
      | some i ↦ ok (on_lineage default_fork points i)
      | none ↦ sole_match base default_fork points (positions 0 (line_starts base) points)
    ]

  unfoldable pub resolve_base : Bytes → Bytes → Result Place
  resolve_base base default_fork = do
    known_forks ← repo.fork_names
    if str_eq base (bytes "HEAD") || (str_eq base (bytes "@") || str_eq base [])
        then head_of default_fork
        else if any (λ f. str_eq f base) known_forks
        then head_of base
        else resolve_id base default_fork

  -- The prefixes `sum:` and `line:` name the domain of the base.
  unfoldable pub resolve_place : Bytes → Bytes → Result Place
  resolve_place base default_fork = elim (strip_prefix (bytes "sum:") base) [
    | some sum ↦ resolve_sum sum default_fork
    | none ↦ elim (strip_prefix (bytes "line:") base) [
      | some id ↦ resolve_line id default_fork
      | none ↦ resolve_base base default_fork
    ]
  ]

  -- `resolve`; a `none` stands for a panic on an index out of range.
  unfoldable pub resolve : Bytes → Bytes → Result (Option Resolved)
  resolve spec default_fork = if str_eq spec [] then err invalid else do
    let (base, suffixes) = split_suffixes spec
    (fork, index, points) ← resolve_place base default_fork
    apply_suffixes fork index points suffixes
