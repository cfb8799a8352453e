-- ===== src/Ident/Record.antt =====
-- Element records of src/ident.rs: validation, the canonical line and its parser.
use tally_vcs.Prelude.{
  Bool, false, not, ◌||◌, List, [], ◌∷◌, ◌++◌, any, ◌==◌, Result, ok, err, invalid, corrupt, ◌>>◌,
  require,
}
use tally_vcs.Prelude.Bytes.{Bytes, bytes, str_eq, contains, split, trim_one}
use tally_vcs.Ident.Hex.{is_hex64}

pub record ElementRecord : Type 0 where
  pub mode : Bytes
  pub path : Bytes
  pub blob : Bytes

-- `MODES`
abbrev pub modes : List Bytes
modes = bytes "100644" ∷ bytes "100755" ∷ bytes "120000" ∷ []

unfoldable pub starts_with_slash : Bytes → Bool
starts_with_slash [] = false
starts_with_slash (c ∷ cs) = c == b'/'

abbrev pub is_dots : Bytes → Bool
is_dots component = str_eq component (b'.' ∷ []) || str_eq component (b'.' ∷ b'.' ∷ [])

unfoldable pub has_dots : Bytes → Bool
has_dots path = let (piece, pieces) = split b'/' path in any is_dots (piece ∷ pieces)

unfoldable pub validate_path : Bytes → Result (Unit {0})
unfolding starts_with_slash
validate_path path = do
  require (starts_with_slash path) invalid
  require (not (contains 0 path || contains 10 path || contains 9 path)) invalid
  require (not (has_dots path)) invalid

unfoldable pub validate_mode : Bytes → Result (Unit {0})
validate_mode mode = require (any (str_eq mode) modes) invalid

-- `ElementRecord::new`
unfoldable pub new : Bytes → Bytes → Bytes → Result ElementRecord
new mode path blob = do
  validate_mode mode
  validate_path path
  require (is_hex64 blob) invalid
  ok (record { mode = mode; path = path; blob = blob })

unfoldable pub to_line : ElementRecord → Bytes
to_line r = r.mode ++ (9 ∷ (r.path ++ (9 ∷ r.blob)))

unfoldable pub to_bytes : ElementRecord → Bytes
to_bytes r = to_line r ++ (10 ∷ [])

-- `(fields.next(), fields.next(), fields.next(), fields.next())`
abbrev pub from_fields : Bytes → List Bytes → Result ElementRecord
from_fields mode (path ∷ blob ∷ []) = new mode path blob
from_fields mode _ = err corrupt

unfoldable pub parse : Bytes → Result ElementRecord
parse line = let (mode, fields) = split 9 (trim_one 10 line) in from_fields mode fields
