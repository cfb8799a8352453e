-- ===== src/Repo/Replay.antt =====
-- The checks and the replay of `current_state` of src/repo.rs, and the walk back of `manifest_at`.
use tally_vcs.Prelude.{
  ℕ, zero, suc, List, [], ◌∷◌, Option, none, some, drop, reverse, Result, ok, corrupt, ◌>>=◌, ◌>>◌,
  require,
}
use tally_vcs.Prelude.Bytes.{Bytes, str_eq}
use tally_vcs.Log.{LogLine, last_state_position}
use tally_vcs.Manifest.{Manifest, sum}
use tally_vcs.Patch.{
  RealizedEntry, removed, added, remove_side, add_side, apply_realized_to_sum,
  apply_realized_to_manifest,
}
use tally_vcs.Setsum.{Setsum, Sum, hexdigest, from_hexdigest}

-- `.map(|i| i + 1).unwrap_or(0)`
abbrev pub behind : Option ℕ → ℕ
behind none = 0
behind (some i) = suc i

abbrev pub last_line : List LogLine → Option LogLine
last_line [] = none
last_line (l ∷ []) = some l
last_line (l ∷ m ∷ ls) = last_line (m ∷ ls)

-- `lines.last().map(|l| l.id.clone()).unwrap_or_default()`
abbrev pub id_of : Option LogLine → Bytes
id_of none = []
id_of (some l) = l.id

-- `for line in lines { apply_realized_to_manifest(&mut manifest, &line.realized)? }`
unfoldable pub replay_lines : Manifest → List LogLine → Result Manifest
replay_lines m [] = ok m
replay_lines m (line ∷ lines) = do
  n ← apply_realized_to_manifest m line.realized
  replay_lines n lines

-- One entry of the walk back.
unfoldable pub unapply_entry : Manifest → RealizedEntry → Result Manifest
unapply_entry m e = do a ← added e; m₁ ← remove_side a m; r ← removed e; add_side r m₁

unfoldable pub unapply_entries : Manifest → List RealizedEntry → Result Manifest
unapply_entries m [] = ok m
unapply_entries m (e ∷ es) = do n ← unapply_entry m e; unapply_entries n es

unfoldable pub unapply_lines : Manifest → List LogLine → Result Manifest
unapply_lines m [] = ok m
unapply_lines m (line ∷ lines) = do
  n ← unapply_entries m (reverse line.realized)
  unapply_lines n lines

module _ ⦃S : Setsum⦄ where
  pub record ForkState : Type 0 where
    pub manifest : Manifest
    pub sum : Sum
    pub head_id : Bytes
    pub lines : List LogLine

  -- The arithmetic of a line behind the first.
  abbrev check_sum : Option Sum → LogLine → Result (Unit {0})
  check_sum none line = ok tt
  check_sum (some before) line = do
    expect ← apply_realized_to_sum before line.realized
    require (str_eq (hexdigest expect) line.sum_after) corrupt

  -- The loop over the whole log: the sum that the line before states, and its id.
  unfoldable pub check_lines : Option Sum → Bytes → List LogLine → Result (Unit {0})
  check_lines before prev [] = ok tt
  check_lines before prev (line ∷ lines) = do
    require (str_eq line.prev prev) corrupt
    check_sum before line
    stated ← from_hexdigest line.sum_after
    check_lines (some stated) line.id lines

  -- The first line, when the replay starts with it.
  unfoldable pub check_first : ℕ → Bytes → List LogLine → Result (Unit {0})
  check_first (suc start) anchor lines = ok tt
  check_first zero anchor [] = ok tt
  check_first zero anchor (first ∷ lines) = do
    base ← from_hexdigest anchor
    expect ← apply_realized_to_sum base first.realized
    require (str_eq (hexdigest expect) first.sum_after) corrupt

  abbrev pub check_last : Option LogLine → Sum → Result (Unit {0})
  check_last none s = ok tt
  check_last (some last) s = require (str_eq last.sum_after (hexdigest s)) corrupt

  abbrev pub start_of : Bytes → List LogLine → ℕ
  start_of anchor lines = behind (last_state_position lines anchor)

  -- `current_state`, once the anchor and the log are read.
  unfoldable pub replay_log : Bytes → Manifest → List LogLine → Result ForkState
  replay_log anchor anchor_manifest lines = do
    check_lines none [] lines
    check_first (start_of anchor lines) anchor lines
    manifest ← replay_lines anchor_manifest (drop (start_of anchor lines) lines)
    check_last (last_line lines) (sum manifest)
    ok (record {
      manifest = manifest;
      sum = sum manifest;
      head_id = id_of (last_line lines);
      lines = lines;
    })
