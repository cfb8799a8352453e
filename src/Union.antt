-- ===== src/Union.antt =====
-- src/union.rs: the read and write sets of a line, and the test for commutation.
pub mod Commutes
pub mod Reads
pub mod Outcome
pub mod Landing
pub mod Commit
pub mod Atomic
pub mod Chained
pub mod Landed
use tally_vcs.Prelude.{
  Bool, true, false, not, ◌&&◌, List, [], ◌∷◌, Option, none, some, ◌≡◌, if◌then◌else◌, any, Result,
  ok, ◌>>=◌,
}
use tally_vcs.Prelude.Bytes.{Bytes, bytes}
use tally_vcs.BTreeMap
use tally_vcs.BTreeMap.{BTreeMap, contains_key}
use tally_vcs.Ident.Record.{ElementRecord}
use tally_vcs.Json.{Value, array, Values, end, item}
use tally_vcs.Json.RecordId.{get_value, as_str}
use tally_vcs.Log.{LogLine}
use tally_vcs.Patch.{RealizedEntry, removed, added}

-- `BTreeSet<String>`
abbrev pub BTreeSet : Type 0
BTreeSet = BTreeMap (Unit {0})

abbrev pub set_insert : Bytes → BTreeSet → BTreeSet
set_insert path s = BTreeMap.insert path tt s

abbrev pub insert_path : Option ElementRecord → BTreeSet → BTreeSet
insert_path none s = s
insert_path (some r) s = set_insert r.path s

-- The loop of `write_paths`.
unfoldable pub collect_writes : BTreeSet → List RealizedEntry → Result BTreeSet
collect_writes s [] = ok s
collect_writes s (e ∷ es) = do
  r ← removed e
  a ← added e
  collect_writes (insert_path a (insert_path r s)) es

unfoldable pub write_paths : LogLine → Result BTreeSet
write_paths line = collect_writes [] line.realized

-- `as_array`
abbrev pub as_array : Option Value → Option Values
as_array (some (array vs)) = some vs
as_array (some _) = none
as_array none = none

-- The loop of `read_paths`: a record without a path is universally quantified.
unfoldable pub collect_reads : BTreeSet → Values → Option BTreeSet
collect_reads s end = some s
collect_reads s (item read reads) = elim (as_str (get_value (bytes "path") read)) [
  | some path ↦ collect_reads (set_insert path s) reads
  | none ↦ none
]

abbrev pub collect_array : Option Values → Option BTreeSet
collect_array none = none
collect_array (some reads) = collect_reads [] reads

unfoldable pub read_paths : LogLine → Option BTreeSet
read_paths line = collect_array (as_array line.annotation.reads)

-- `a.intersection(&b).next().is_some()`
unfoldable pub intersects : BTreeSet → BTreeSet → Bool
intersects a b = any (λ e. contains_key e.0 b) a

-- The last test of `commutes`; sets that are not known refuse.
abbrev pub reads_clear : BTreeSet → BTreeSet → Option BTreeSet → Option BTreeSet → Bool
reads_clear wa wb (some ra) (some rb) = not (intersects wa rb) && not (intersects wb ra)
reads_clear wa wb (some ra) none = false
reads_clear wa wb none rb = false

unfoldable pub commutes : LogLine → LogLine → Result Bool
commutes a b = do
  wa ← write_paths a
  wb ← write_paths b
  ok (if intersects wa wb then false else reads_clear wa wb (read_paths a) (read_paths b))
