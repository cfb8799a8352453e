-- ===== src/Repo/Fusing.antt =====
-- `fuse` of src/repo.rs.
use tally_vcs.Prelude.{
  ℕ, zero, suc, List, [], ◌∷◌, Option, none, some, if◌then◌else◌, not, leb, Result, ok, err,
  invalid, corrupt, require,
}
use tally_vcs.Prelude.Bytes.{Bytes, str_eq, starts_with}
use tally_vcs.Ident.Hex.{Sha3}
use tally_vcs.Log.{LogLine, Annotation, Provenance, fuse, is_empty}
use tally_vcs.Log
use tally_vcs.Log.Stored.{Serde}
use tally_vcs.Repo.Apply.{apply, no_intent, plain}
use tally_vcs.Repo.Run.{Run, ◌>>=◌, ◌>>◌, lift, current_state}
use tally_vcs.Setsum.{Setsum}

-- `lines.iter().position(|l| l.id == id)`
unfoldable pub exact_position : Bytes → List LogLine → Option ℕ
exact_position id [] = none
exact_position id (l ∷ ls) =
    let rest = exact_position id ls in
    if str_eq l.id id then some 0 else elim rest [ none ↦ none | some i ↦ some (suc i) ]

-- The places of the ids with this prefix, from `i` on.
unfoldable pub prefix_positions : Bytes → ℕ → List LogLine → List ℕ
prefix_positions id i [] = []
prefix_positions id i (l ∷ ls) =
    let rest = prefix_positions id (suc i) ls in if starts_with id l.id then i ∷ rest else rest

abbrev only_one : List ℕ → Result ℕ
only_one [] = err invalid
only_one (i ∷ []) = ok i
only_one (i ∷ j ∷ is) = err invalid

abbrev or_prefix : Bytes → List LogLine → Option ℕ → Result ℕ
or_prefix id lines (some i) = ok i
or_prefix id lines none = only_one (prefix_positions id 0 lines)

-- The closure `resolve`.
unfoldable pub resolve_endpoint : Bytes → List LogLine → Result ℕ
resolve_endpoint id lines = or_prefix id lines (exact_position id lines)

-- `state.lines[i].id`, for an index that `resolve` has found.
abbrev id_at : List LogLine → ℕ → Result Bytes
id_at [] i = err corrupt
id_at (l ∷ ls) zero = ok l.id
id_at (l ∷ ls) (suc i) = id_at ls i

abbrev fuse_annotation : Bytes → Option Bytes → Log.Fuse → Annotation
fuse_annotation author prose span = record (plain author prose) {
  provenance = fuse;
  fuse_span = some span;
}

module _ ⦃S : Setsum⦄ ⦃h : Sha3⦄ ⦃d : Serde⦄ where
  unfoldable pub fuse_span :
      Option ℕ → Bytes → Bytes → Bytes → Bytes → Option Bytes → Bytes → Run LogLine
  fuse_span now fork name from to prose author = do
    lift (require (not (is_empty name)) invalid)
    state ← current_state fork
    a ← lift (resolve_endpoint from state.lines)
    b ← lift (resolve_endpoint to state.lines)
    from_id ← lift (id_at state.lines a)
    to_id ← lift (id_at state.lines b)
    lift (require (leb a b) invalid)
    apply now fork no_intent
        (fuse_annotation author prose (record { name = name; from = from_id; to = to_id }))
