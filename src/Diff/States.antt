-- ===== src/Diff/States.antt =====
-- The path-level changes and the renames of src/diff.rs.
use tally_vcs.Prelude.{
  ℕ, Bool, true, false, not, ◌&&◌, List, [], ◌∷◌, ◌++◌, Option, none, some, if◌then◌else◌, any,
}
use tally_vcs.Prelude.Bytes.{Bytes, str_eq}
use tally_vcs.BTreeMap.{is_some}
use tally_vcs.Ident.Record.{ElementRecord}
use tally_vcs.Manifest
use tally_vcs.Manifest.{Manifest, records, sort_lines, record_eq}
use tally_vcs.Setsum.{Setsum, Sum}

pub record PathChange : Type 0 where
  pub path : Bytes
  pub before : Option ElementRecord
  pub after : Option ElementRecord

-- `PathChange::code`
unfoldable pub code : PathChange → ℕ
code change = elim change.before [
  | none ↦ elim change.after [ none ↦ b'M' | some r ↦ b'A' ]
  | some r ↦ elim change.after [ none ↦ b'D' | some s ↦ b'M' ]
]

-- `a == b` of optional records.
abbrev pub option_eq : Option ElementRecord → Option ElementRecord → Bool
option_eq none none = true
option_eq (some a) (some b) = record_eq a b
option_eq _ _ = false

unfoldable pub paths_of : List ElementRecord → List Bytes
paths_of [] = []
paths_of (r ∷ rs) = r.path ∷ paths_of rs

-- `paths.dedup()`
unfoldable pub dedup : List Bytes → List Bytes
dedup [] = []
dedup (p ∷ []) = p ∷ []
dedup (p ∷ q ∷ ps) = let rest = dedup (q ∷ ps) in if str_eq p q then rest else p ∷ rest

-- The loop over the paths.
unfoldable pub changes_at : Manifest → Manifest → List Bytes → List PathChange
changes_at before after [] = []
changes_at before after (path ∷ paths) =
    let rest = changes_at before after paths in
    let b = Manifest.get before path in
    let a = Manifest.get after path in
    if option_eq a b then rest else record { path = path; before = b; after = a } ∷ rest

unfoldable pub diff_manifests : Manifest → Manifest → List PathChange
diff_manifests before after =
    changes_at before after
      (dedup (sort_lines (paths_of (records before) ++ paths_of (records after))))

pub record Rename : Type 0 where
  pub from : ElementRecord
  pub to : ElementRecord

abbrev pub member : Bytes → List Bytes → Bool
member p ps = any (str_eq p) ps

abbrev pub is_add : PathChange → Bool
is_add change = not (is_some change.before) && is_some change.after

unfoldable pub additions : List PathChange → List PathChange
additions [] = []
additions (c ∷ cs) = let rest = additions cs in if is_add c then c ∷ rest else rest

-- `a.after.as_ref().map(|r| &r.blob) == Some(&from.blob) && !consumed_adds.contains(&a.path)`
abbrev pub carries : Bytes → List Bytes → PathChange → Bool
carries blob consumed a =
    elim a.after [ none ↦ false | some r ↦ str_eq r.blob blob ] && not (member a.path consumed)

-- The first addition that passes the test, what it arrives as, and the others.
unfoldable pub take_first :
    (PathChange → Bool) → List PathChange → Option (PathChange × List PathChange)
take_first f [] = none
take_first f (a ∷ adds) =
    let found = take_first f adds in
    if f a
    then some (a, adds)
    else elim found [ none ↦ none | some (b, others) ↦ some (b, a ∷ others) ]

-- What the loop of `detect_renames` changes.
pub record Pairing : Type 0 where
  pub adds : List PathChange
  pub renames : List Rename
  pub consumed_adds : List Bytes
  pub consumed_dels : List Bytes

abbrev pub paired :
    Pairing → PathChange → ElementRecord → Option (PathChange × List PathChange) → Pairing
paired s change from none = s
paired s change from (some (add, others)) = elim add.after [
  | none ↦ s
  | some to ↦ record {
    adds = others;
    renames = s.renames ++ (record { from = from; to = to } ∷ []);
    consumed_adds = add.path ∷ s.consumed_adds;
    consumed_dels = change.path ∷ s.consumed_dels;
  }
]

-- One round of the loop: only a pure deletion is the source of a rename.
unfoldable pub pair : Pairing → PathChange → Pairing
pair s change = elim change.before [
  | none ↦ s
  | some from ↦ elim change.after [
    | some r ↦ s
    | none ↦ paired s change from (take_first (carries from.blob s.consumed_adds) s.adds)
  ]
]

unfoldable pub pair_all : Pairing → List PathChange → Pairing
pair_all s [] = s
pair_all s (c ∷ cs) = pair_all (pair s c) cs

unfoldable pub unconsumed : Pairing → List PathChange → List PathChange
unconsumed s [] = []
unconsumed s (c ∷ cs) =
    let rest = unconsumed s cs in
    if not (member c.path s.consumed_adds) && not (member c.path s.consumed_dels)
    then c ∷ rest
    else rest

abbrev pub unpaired : List PathChange → Pairing
unpaired changes = record {
  adds = additions changes;
  renames = [];
  consumed_adds = [];
  consumed_dels = [];
}

unfoldable pub detect_renames : List PathChange → List Rename × List PathChange
detect_renames changes =
    let s = pair_all (unpaired changes) changes in (s.renames, unconsumed s changes)

module _ ⦃S : Setsum⦄ where
  unfoldable pub pending_sum : Sum → Sum → Sum
  pending_sum before after = S.sub after before
