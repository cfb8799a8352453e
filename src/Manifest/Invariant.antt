-- ===== src/Manifest/Invariant.antt =====
-- Proofs on the operations of src/manifest.rs and well-formed manifests.
use tally_vcs.Prelude.{
  true, false, List, [], ◌∷◌, Option, none, some, ◌≡◌, refl, ap, inl, inr, if◌then◌else◌, All,
  arith, Bool-cases, ok,
}
use tally_vcs.Prelude.Bytes.{Bytes, str_eq, str_eq_iff, str_eq_refl}
use tally_vcs.BTreeMap
use tally_vcs.BTreeMap.{BTreeMap, contains_key, is_some, IsSorted}
use tally_vcs.BTreeMap.Order.{insert-IsSorted, remove-IsSorted}
use tally_vcs.BTreeMap.Laws.{get-insert, get-remove, insert-All, remove-All, get-All, map_ext}
use tally_vcs.Ident.Record.{ElementRecord}
use tally_vcs.Ident.RoundTrip.{IsValid}
use tally_vcs.Manifest.{
  Manifest, record_eq, get, contains, is_record, insert, remove, insert_all, from_records, IsEntry,
  IsWellFormed,
}

pub record_eq→eq : (a b : ElementRecord) → record_eq a b ≡ true → a ≡ b
unfolding record_eq
record_eq→eq a b h =
    ground (arith, str_eq_iff a.mode b.mode, str_eq_iff a.path b.path, str_eq_iff a.blob b.blob)

pub record_eq_refl : (a : ElementRecord) → record_eq a a ≡ true
unfolding record_eq
record_eq_refl a = ground (arith, str_eq_refl a.mode, str_eq_refl a.path, str_eq_refl a.blob)

is_record→eq : (o : Option ElementRecord) (r : ElementRecord) → is_record o r ≡ true → o ≡ some r
is_record→eq none r h = cc
is_record→eq (some s) r h = ap some (record_eq→eq s r h)

-- Membership is membership of exactly this record.
pub contains→get : (m : Manifest) (r : ElementRecord) → contains m r ≡ true → get m r.path ≡ some r
unfolding contains get
contains→get m r h = is_record→eq _ r h

pub get→contains : (m : Manifest) (r : ElementRecord) → get m r.path ≡ some r → contains m r ≡ true
unfolding contains get
get→contains m r h = rw h (record_eq_refl r)

is_some→none : (o : Option ElementRecord) → is_some o ≡ false → o ≡ none
is_some→none none h = refl
is_some→none (some r) h = cc

-- A successful insertion: the path was absent.
pub insert-eq-ok :
    (m : Manifest) (r : ElementRecord) (n : Manifest)
    → insert m r ≡ ok n
    → (get m r.path ≡ none) × (n ≡ record { elements = BTreeMap.insert r.path r m.elements })
unfolding insert get
insert-eq-ok m r n h = elim (Bool-cases (contains_key r.path m.elements)) [
  | inl e ↦ absurd (ground arith)
  | inr e ↦ (is_some→none _ e, ground arith)
]

pub insert_absent :
    (m : Manifest) (r : ElementRecord)
    → get m r.path ≡ none
    → insert m r ≡ ok (record { elements = BTreeMap.insert r.path r m.elements })
unfolding insert get
insert_absent m r h = rw h refl

-- A successful removal: exactly this record was there.
pub remove-eq-ok :
    (m : Manifest) (r : ElementRecord) (n : Manifest)
    → remove m r ≡ ok n
    → (get m r.path ≡ some r) × (n ≡ record { elements = BTreeMap.remove r.path m.elements })
unfolding remove
remove-eq-ok m r n h = elim (Bool-cases (contains m r)) [
  | inl e ↦ (contains→get m r e, ground arith)
  | inr e ↦ absurd (ground arith)
]

pub remove_present :
    (m : Manifest) (r : ElementRecord)
    → get m r.path ≡ some r
    → remove m r ≡ ok (record { elements = BTreeMap.remove r.path m.elements })
unfolding remove
remove_present m r h = rw (get→contains m r h) refl

pub insert-IsWellFormed :
    (m : Manifest) (r : ElementRecord) (n : Manifest)
    → IsWellFormed m
    → IsValid r
    → insert m r ≡ ok n
    → IsWellFormed n
insert-IsWellFormed m r n w v h =
    let (absent, e) = insert-eq-ok m r n h in
    rw e (record {
      sorted = insert-IsSorted r.path r m.elements w.sorted;
      entries = insert-All IsEntry r.path r m.elements (refl, v) w.entries;
    })

pub remove-IsWellFormed :
    (m : Manifest) (r : ElementRecord) (n : Manifest)
    → IsWellFormed m
    → remove m r ≡ ok n
    → IsWellFormed n
remove-IsWellFormed m r n w h =
    let (present, e) = remove-eq-ok m r n h in
    rw e (record {
      sorted = remove-IsSorted r.path m.elements w.sorted;
      entries = remove-All IsEntry r.path m.elements w.entries;
    })

-- An element that is found is valid, and has the path that it was found under.
pub get-IsEntry :
    (m : Manifest) (path : Bytes) {r : ElementRecord}
    → IsWellFormed m
    → get m path ≡ some r
    → (path ≡ r.path) × IsValid r
unfolding get
get-IsEntry m path w h = get-All IsEntry path m.elements w.entries h

-- Lookups after a successful insertion and removal.
pub get-insert_ok :
    (m : Manifest) (r : ElementRecord) (n : Manifest) (path : Bytes)
    → insert m r ≡ ok n
    → get n path ≡ (if str_eq path r.path then some r else get m path)
unfolding get
get-insert_ok m r n path h =
    let (absent, e) = insert-eq-ok m r n h in rw e (get-insert r.path path r m.elements)

pub get-remove_ok :
    (m : Manifest) (r : ElementRecord) (n : Manifest) (path : Bytes)
    → IsWellFormed m
    → remove m r ≡ ok n
    → get n path ≡ (if str_eq path r.path then none else get m path)
unfolding get
get-remove_ok m r n path w h =
    let (present, e) = remove-eq-ok m r n h in rw e (get-remove r.path path m.elements w.sorted)

-- Well-formed manifests that find the same elements are equal.
pub manifest_ext :
    (m n : Manifest)
    → IsWellFormed m
    → IsWellFormed n
    → ((path : Bytes) → get m path ≡ get n path)
    → m ≡ n
unfolding get
manifest_ext m n v w h =
    let e = map_ext m.elements n.elements v.sorted w.sorted h in λ i. record { elements = e i }

insert_all-IsWellFormed :
    (m : BTreeMap ElementRecord) (rs : List ElementRecord) (n : Manifest)
    → IsWellFormed (record { elements = m })
    → All IsValid rs
    → insert_all m rs ≡ ok n
    → IsWellFormed n
unfolding insert_all
insert_all-IsWellFormed m [] n w v h =
    let e : record { elements = m } ≡ n = ground arith in rw (← e) w
insert_all-IsWellFormed m (r ∷ rs) n w v h = elim (Bool-cases (contains_key r.path m)) [
  | inl e ↦ absurd (ground arith)
  | inr e ↦
      insert_all-IsWellFormed (BTreeMap.insert r.path r m) rs n
        (record {
          sorted = insert-IsSorted r.path r m w.sorted;
          entries = insert-All IsEntry r.path r m (refl, v.0) w.entries;
        })
        v.1 (ground arith)
]

pub from_records-IsWellFormed :
    (rs : List ElementRecord) (n : Manifest)
    → All IsValid rs
    → from_records rs ≡ ok n
    → IsWellFormed n
unfolding from_records
from_records-IsWellFormed rs n v h =
    insert_all-IsWellFormed [] rs n (record { sorted = tt; entries = tt }) v h
