-- ===== src/Revision/Range.antt =====
-- `log_range` of src/revision.rs.
use tally_vcs.Prelude.{
  ℕ, Bool, true, false, List, [], ◌∷◌, Option, none, some, if◌then◌else◌, leb, length, Result, ok,
  err, invalid, ◌>>=◌, ok_or, drop,
}
use tally_vcs.Prelude.Bytes.{Bytes, bytes, str_eq, starts_with}
use tally_vcs.Revision.Suffixes.{StatePoint, Resolved}
use tally_vcs.Revision.Resolve.{Repository, rposition, has_line, lineage_states, resolve}
use tally_vcs.Setsum.{Setsum}

pub record LogBounds : Type 0 where
  pub fork : Bytes
  pub start : ℕ
  pub end : ℕ

-- `s.split_once(p)`
unfoldable pub split_once : Bytes → Bytes → Option (Bytes × Bytes)
split_once p [] = if starts_with p [] then some ([], []) else none
split_once p (c ∷ s) =
    let later = split_once p s in
    if starts_with p (c ∷ s)
    then some ([], drop (length p) (c ∷ s))
    else elim later [ none ↦ none | some (a, b) ↦ some (c ∷ a, b) ]

-- `s.contains(p)`
abbrev contains_text : Bytes → Bytes → Bool
contains_text p s = elim (split_once p s) [ none ↦ false | some (a, b) ↦ true ]

abbrev pub or_head : Bytes → Bytes
or_head [] = bytes "HEAD"
or_head (c ∷ s) = c ∷ s

-- The two sides of a range.
unfoldable pub range_sides : Option Bytes → Result (Option Bytes × Bytes)
range_sides none = ok (none, bytes "HEAD")
range_sides (some s) =
    if contains_text (bytes "...") s then err invalid else elim (split_once (bytes "..") s) [
      | none ↦ ok (none, s)
      | some (a, b) ↦ if contains_text (bytes "..") b then err invalid else ok (some a, b)
    ]

abbrev pub is_base : Bytes → List StatePoint → Bool
is_base sum [] = false
is_base sum (p ∷ ps) = str_eq sum p.sum

-- The closure `position`.
unfoldable pub position : List StatePoint → Resolved → Result ℕ
position points r = elim r.line [
  | some id ↦ ok_or (rposition (has_line id) points) invalid
  | none ↦ if is_base r.sum points then ok 0 else err invalid
]

-- `end.max(start)`
abbrev pub max : ℕ → ℕ → ℕ
max m n = if leb m n then n else m

module _ ⦃S : Setsum⦄ (repo : Repository) where
  -- What is resolved; a panic of `resolve` is one of its caller.
  abbrev pub resolved_position : List StatePoint → Option Resolved → Result (Option ℕ)
  resolved_position points none = ok none
  resolved_position points (some r) = do i ← position points r; ok (some i)

  -- `let start = match left`
  unfoldable pub start_of : List StatePoint → Bytes → Option Bytes → Result (Option ℕ)
  start_of points fork none = ok (some 0)
  start_of points fork (some a) = do r ← resolve repo (or_head a) fork; resolved_position points r

  abbrev pub bounds_of : Bytes → ℕ → Option ℕ → Option LogBounds
  bounds_of fork end none = none
  bounds_of fork end (some start) =
      some (record { fork = fork; start = start; end = max end start })

  unfoldable pub range_on : Option Bytes → Option Resolved → Result (Option LogBounds)
  range_on left none = ok none
  range_on left (some right) = do
    points ← lineage_states repo right.fork
    end ← position points right
    start ← start_of points right.fork left
    ok (bounds_of right.fork end start)

  unfoldable pub log_range : Option Bytes → Bytes → Result (Option LogBounds)
  log_range spec default_fork = do
    (left, right) ← range_sides spec
    r ← resolve repo (or_head right) default_fork
    range_on left r
