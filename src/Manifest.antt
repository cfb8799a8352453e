-- ===== src/Manifest.antt =====
-- src/manifest.rs: materialized states, elements keyed by path.
pub mod Invariant
pub mod Arithmetic
use tally_vcs.Prelude.{
  ℕ, Bool, true, false, not, ◌&&◌, List, [], ◌∷◌, ◌++◌, Option, none, some, ◌≡◌, if◌then◌else◌, All,
  Error, Result, ok, err, corrupt, precondition, ◌>>=◌, ◌>>◌, require, ok_or,
}
use tally_vcs.Prelude.Bytes.{
  Bytes, bytes, str_eq, str_lt, strip_prefix, trim_one, split_inclusive, is_utf8, concat,
}
use tally_vcs.BTreeMap
use tally_vcs.BTreeMap.{BTreeMap, contains_key, is_some, IsSorted}
use tally_vcs.Ident.Record.{ElementRecord, to_bytes, parse}
use tally_vcs.Ident.RoundTrip.{IsValid}
use tally_vcs.Setsum.{Setsum, Sum, zero_sum, hexdigest, from_hexdigest}

pub record Manifest : Type 0 where
  pub elements : BTreeMap ElementRecord

-- `Manifest::new`
abbrev pub empty : Manifest
empty = record { elements = [] }

-- `&a == b` of records.
unfoldable pub record_eq : ElementRecord → ElementRecord → Bool
record_eq a b = str_eq a.mode b.mode && (str_eq a.path b.path && str_eq a.blob b.blob)

abbrev pub is_record : Option ElementRecord → ElementRecord → Bool
is_record none r = false
is_record (some s) r = record_eq s r

unfoldable pub get : Manifest → Bytes → Option ElementRecord
get m path = BTreeMap.get path m.elements

-- `self.get(path).is_some()`
abbrev pub is_present : Manifest → Bytes → Bool
is_present m path = is_some (BTreeMap.get path m.elements)

unfoldable pub contains : Manifest → ElementRecord → Bool
contains m r = is_record (BTreeMap.get r.path m.elements) r

unfoldable pub insert : Manifest → ElementRecord → Result Manifest
insert m r =
    if contains_key r.path m.elements
    then err precondition
    else ok (record { elements = BTreeMap.insert r.path r m.elements })

unfoldable pub remove : Manifest → ElementRecord → Result Manifest
remove m r =
    if not (contains m r)
    then err precondition
    else ok (record { elements = BTreeMap.remove r.path m.elements })

unfoldable pub records : Manifest → List ElementRecord
records m = BTreeMap.values m.elements

-- The loop of `from_records`.
unfoldable pub insert_all : BTreeMap ElementRecord → List ElementRecord → Result Manifest
insert_all m [] = ok (record { elements = m })
insert_all m (r ∷ rs) =
    let rest = insert_all (BTreeMap.insert r.path r m) rs in
    if contains_key r.path m then err corrupt else rest

unfoldable pub from_records : List ElementRecord → Result Manifest
from_records rs = insert_all [] rs

-- `lines.sort()`
unfoldable pub insert_line : Bytes → List Bytes → List Bytes
insert_line l [] = l ∷ []
insert_line l (k ∷ ks) = if str_lt k l then k ∷ insert_line l ks else l ∷ k ∷ ks

unfoldable pub sort_lines : List Bytes → List Bytes
sort_lines [] = []
sort_lines (l ∷ ls) = insert_line l (sort_lines ls)

unfoldable pub record_lines : List ElementRecord → List Bytes
record_lines [] = []
record_lines (r ∷ rs) = to_bytes r ∷ record_lines rs

unfoldable pub parse_records : List Bytes → Result (List ElementRecord)
parse_records [] = ok []
parse_records (l ∷ ls) = do r ← parse l; rs ← parse_records ls; ok (r ∷ rs)

abbrev pub manifest_header : Bytes
manifest_header = bytes "tally-manifest v0"

module _ ⦃S : Setsum⦄ where
  -- The loop of `sum_of_records` of src/ident.rs.
  unfoldable pub add_records : Sum → List ElementRecord → Sum
  add_records s [] = s
  add_records s (r ∷ rs) = add_records (S.insert s (to_bytes r)) rs

  unfoldable pub sum_of_records : List ElementRecord → Sum
  sum_of_records rs = add_records zero_sum rs

  unfoldable pub sum : Manifest → Sum
  sum m = sum_of_records (records m)

  abbrev pub sum_prefix : Bytes
  sum_prefix = bytes "sum "

  -- `Manifest::to_bytes`
  unfoldable pub to_bytes_of : Manifest → Bytes
  to_bytes_of m =
      manifest_header
      ++ (10
          ∷ (sum_prefix
              ++ (hexdigest (sum m) ++ (10 ∷ concat (sort_lines (record_lines (records m)))))))

  -- The lines behind the header: the sum and the records.
  unfoldable pub parse_body : Bytes → List Bytes → Result Manifest
  parse_body sum_line lines = do
    digits ← ok_or (strip_prefix sum_prefix (trim_one 10 sum_line)) corrupt
    claimed ← from_hexdigest digits
    rs ← parse_records lines
    m ← from_records rs
    require (S.eq (sum m) claimed) corrupt
    ok m

  -- `lines.next().unwrap_or("")`
  abbrev pub next : List Bytes → Bytes × List Bytes
  next [] = ([], [])
  next (l ∷ ls) = (l, ls)

  -- `Manifest::parse`
  unfoldable pub parse_manifest : Bytes → Result Manifest
  parse_manifest text = do
    require (is_utf8 text) corrupt
    let (header, rest) = next (split_inclusive 10 text)
    require (str_eq (trim_one 10 header) manifest_header) corrupt
    let (sum_line, lines) = next rest
    parse_body sum_line lines

-- What every operation keeps: the map is ordered, each element stands under its own path, and
-- each record is one that `ElementRecord::new` accepts.
abbrev pub IsEntry : Bytes × ElementRecord → Type 0
IsEntry e = (e.0 ≡ e.1.path) × IsValid e.1

pub record IsWellFormed (m : Manifest) : Type 0 where
  pub sorted : IsSorted m.elements
  pub entries : All IsEntry m.elements
