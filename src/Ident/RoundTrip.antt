-- ===== src/Ident/RoundTrip.antt =====
-- Proofs on the line of an element record of src/ident.rs and its parser.
use tally_vcs.Prelude.{
  ℕ, ◌<◌, true, false, List, [], ◌∷◌, ◌++◌, ◌≡◌, sym, ◌∙◌, arith, ok, &&-eq-true,
}
use tally_vcs.Prelude.Bytes.{
  Bytes, bytes, str_eq→eq, contains, contains-append, split, split-append, split_whole, trim_one,
  trim_one-append, trim_one_other, join, join-split, not_contains,
}
use tally_vcs.Ident.Hex.{is_hex64, is_hex_char}
use tally_vcs.Ident.Record.{
  ElementRecord, validate_mode, validate_path, new, to_line, to_bytes, from_fields, parse,
}

-- What `new` accepts.
pub record IsValid (r : ElementRecord) : Type 0 where
  pub mode_valid : validate_mode r.mode ≡ ok tt
  pub path_valid : validate_path r.path ≡ ok tt
  pub blob_valid : is_hex64 r.blob ≡ true

pub new-IsValid : {r : ElementRecord} → IsValid r → new r.mode r.path r.blob ≡ ok r
unfolding new
new-IsValid {r} v = rw (v.mode_valid, v.path_valid, v.blob_valid)

pub IsValid-new :
    (mode path blob : Bytes) (r : ElementRecord)
    → new mode path blob ≡ ok r
    → (r ≡ record { mode = mode; path = path; blob = blob }) × IsValid r
unfolding new
IsValid-new mode path blob r h = ground arith

mode-not_contains :
    (c : ℕ) (mode : Bytes) → c < b'0' → validate_mode mode ≡ ok tt → contains c mode ≡ false
unfolding validate_mode contains
mode-not_contains c mode k h = ground (
  arith,
  str_eq→eq mode (bytes "100644"),
  str_eq→eq mode (bytes "100755"),
  str_eq→eq mode (bytes "120000"),
)

path-not_contains :
    (path : Bytes)
    → validate_path path ≡ ok tt
    → (contains 10 path ≡ false) × (contains 9 path ≡ false)
unfolding validate_path
path-not_contains path h = ground arith

blob-not_contains :
    (c : ℕ) (blob : Bytes) → c < b'0' → is_hex64 blob ≡ true → contains c blob ≡ false
unfolding is_hex64 is_hex_char
blob-not_contains c blob k h = not_contains is_hex_char c blob (&&-eq-true _ _ h).1 (ground arith)

module _ {r : ElementRecord} (v : IsValid r) where
  -- The fields of a valid record hold neither TAB nor LF, so that the line splits as it was made.
  split-to_line : split 9 (to_line r) ≡ (r.mode, r.path ∷ r.blob ∷ [])
  unfolding to_line
  split-to_line =
      rw
        (split-append 9 r.mode (r.path ++ (9 ∷ r.blob))
          (mode-not_contains 9 r.mode (omega arith) v.mode_valid))
        (rw (split-append 9 r.path r.blob (path-not_contains r.path v.path_valid).1)
          (rw (split_whole 9 r.blob (blob-not_contains 9 r.blob (omega arith) v.blob_valid))))

  to_line-not_contains : contains 10 (to_line r) ≡ false
  unfolding to_line contains
  to_line-not_contains = ground (
    arith,
    contains-append 10 r.mode (9 ∷ (r.path ++ (9 ∷ r.blob))),
    contains-append 10 r.path (9 ∷ r.blob),
    mode-not_contains 10 r.mode,
    path-not_contains r.path,
    blob-not_contains 10 r.blob,
    v.mode_valid,
    v.path_valid,
    v.blob_valid,
  )

  -- Parsing the line of a valid element record gives the record back.
  pub parse-to_line : parse (to_line r) ≡ ok r
  unfolding parse
  parse-to_line =
      rw (trim_one_other 10 (to_line r) to_line-not_contains) (rw split-to_line (new-IsValid v))

  -- So does parsing its bytes, which end in a newline.
  pub parse-to_bytes : parse (to_bytes r) ≡ ok r
  unfolding parse to_bytes
  parse-to_bytes = rw (trim_one-append 10 (to_line r)) (rw split-to_line (new-IsValid v))

from_fields-eq-ok :
    (mode : Bytes) (fields : List Bytes) (r : ElementRecord)
    → from_fields mode fields ≡ ok r
    → (join 9 mode fields ≡ to_line r) × IsValid r
unfolding join to_line
from_fields-eq-ok mode [] r h = cc
from_fields-eq-ok mode (path ∷ []) r h = cc
from_fields-eq-ok mode (path ∷ blob ∷ []) r h =
    let (e, v) = IsValid-new mode path blob r h in (rw e, v)
from_fields-eq-ok mode (path ∷ blob ∷ more ∷ fields) r h = cc

-- A line that parses is the canonical line of the record read, up to one trailing newline, and the
-- record is valid.
pub to_line-parse :
    (line : Bytes) (r : ElementRecord)
    → parse line ≡ ok r
    → (trim_one 10 line ≡ to_line r) × IsValid r
unfolding parse
to_line-parse line r h =
    let (e, v) = from_fields-eq-ok _ (split 9 (trim_one 10 line)).1 r h in
    (sym (join-split 9 (trim_one 10 line)) ∙ e, v)

-- Two valid records with the same bytes are one record.
pub to_bytes_injective :
    {r s : ElementRecord} → IsValid r → IsValid s → to_bytes r ≡ to_bytes s → r ≡ s
to_bytes_injective v w e = cc (parse-to_bytes v, parse-to_bytes w, e)
