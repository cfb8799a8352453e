-- ===== src/Log/Stored.antt =====
-- The reading of log lines in src/log.rs: `StoredLine`, `LogLine::parse_with`, the scans of a log.
use tally_vcs.Prelude.{
  ℕ, suc, ◌+◌, Bool, true, false, List, [], ◌∷◌, Option, none, some, if◌then◌else◌, length, drop,
  any, not, ◌==◌, Result, ok, err, invalid, corrupt, ◌>>=◌, ◌>>◌, require,
}
use tally_vcs.Prelude.Bytes.{Bytes, bytes, split, is_utf8}
use tally_vcs.Ident.Hex.{Sha3, is_hex64}
use tally_vcs.Json.{Value, object, Members, stop, member}
use tally_vcs.Json.RecordId.{get_member, as_str, verify_record_id}
use tally_vcs.Log.{LogLine, validate}
use tally_vcs.Union.{BTreeSet, set_insert}

-- The readers of serde_json: of a text, and of the value of a line.
pub record Serde : Type 0 where
  pub from_str : Bytes → Result Value
  pub from_value : Value → Result LogLine

pub data StoredLine : Type 0 where
  line : LogLine → StoredLine
  blob_ref : Bytes → StoredLine

abbrev pub line_blob_key : Bytes
line_blob_key = bytes "line_blob"

-- `object.len()`
abbrev pub count_members : Members → ℕ
count_members stop = 0
count_members (member k v ms) = suc (count_members ms)

-- `is_hex64(hash).then(|| hash.to_string())`
abbrev hash_of : Option Bytes → Option Bytes
hash_of none = none
hash_of (some hash) = if is_hex64 hash then some hash else none

unfoldable pub line_blob_ref : Value → Option Bytes
line_blob_ref (object ms) =
    if count_members ms == 1 then hash_of (as_str (get_member line_blob_key ms)) else none
line_blob_ref _ = none

-- `.map_err(|_| Error::Corrupt(..))`
abbrev pub or_corrupt {ℓ} : {A : Type ℓ} → Result A → Result A
or_corrupt (ok a) = ok a
or_corrupt (err e) = err corrupt

-- What the loop of `parse_log_lenient` has read.
pub record Scan : Type 0 where
  pub stored : List StoredLine
  pub valid_prefix : ℕ

pub record ParsedLog : Type 0 where
  pub lines : List LogLine
  pub valid_prefix : ℕ

abbrev pub add_ref : StoredLine → BTreeSet → BTreeSet
add_ref (line parsed) refs = refs
add_ref (blob_ref hash) refs = set_insert hash refs

abbrev pub add_refs : List StoredLine → BTreeSet → BTreeSet
add_refs [] refs = refs
add_refs (l ∷ ls) refs = add_refs ls (add_ref l refs)

module _ ⦃h : Sha3⦄ ⦃d : Serde⦄ where
  -- What both readers do with the value of a line.
  unfoldable pub verified : Value → Result LogLine
  verified value = do
    verify_record_id value
    parsed ← d.from_value value
    validate parsed
    ok parsed

  abbrev parse_value : Option Bytes → Value → Result StoredLine
  parse_value (some hash) value = ok (blob_ref hash)
  parse_value none value = do parsed ← verified value; ok (line parsed)

  -- `StoredLine::parse`
  unfoldable pub parse_stored : Bytes → Result StoredLine
  parse_stored text = do value ← d.from_str text; parse_value (line_blob_ref value) value

  -- `StoredLine::resolve`
  unfoldable pub resolve_stored : (Bytes → Result Bytes) → StoredLine → Result LogLine
  resolve_stored fetch (line parsed) = ok parsed
  resolve_stored fetch (blob_ref hash) = do
    text ← or_corrupt (fetch hash)
    require (is_utf8 text) corrupt
    value ← or_corrupt (d.from_str text)
    verified value

  -- `LogLine::parse`
  abbrev inline_only : StoredLine → Result LogLine
  inline_only (line parsed) = ok parsed
  inline_only (blob_ref hash) = err invalid

  unfoldable pub parse : Bytes → Result LogLine
  parse text = do stored ← parse_stored text; inline_only stored

  -- `LogLine::parse_with`
  unfoldable pub parse_with : (Bytes → Result Bytes) → Bytes → Result LogLine
  parse_with fetch text = do stored ← parse_stored text; resolve_stored fetch stored

  -- `std::str::from_utf8(..)` and `StoredLine::parse`, either of which ends a scan.
  abbrev pub read_piece : Bytes → Result StoredLine
  read_piece piece = do require (is_utf8 piece) corrupt; parse_stored piece

  abbrev onto_scan : Bytes → Scan → Result StoredLine → Scan
  onto_scan piece more (err e) = record { stored = []; valid_prefix = 0 }
  onto_scan piece more (ok l) = record {
    stored = l ∷ more.stored;
    valid_prefix = suc (length piece) + more.valid_prefix;
  }

  -- The loop, over the pieces between LFs: what stands behind the last LF is no line.
  unfoldable pub scan_pieces : Bytes → List Bytes → Scan
  scan_pieces piece [] = record { stored = []; valid_prefix = 0 }
  scan_pieces piece (next ∷ pieces) = onto_scan piece (scan_pieces next pieces) (read_piece piece)

  -- `for line in stored { lines.push(line.resolve(fetch)?) }`
  unfoldable pub resolve_all : (Bytes → Result Bytes) → List StoredLine → Result (List LogLine)
  resolve_all fetch [] = ok []
  resolve_all fetch (l ∷ ls) = do
    parsed ← resolve_stored fetch l
    rest ← resolve_all fetch ls
    ok (parsed ∷ rest)

  abbrev pub is_ok {ℓ} : {A : Type ℓ} → Result A → Bool
  is_ok (ok a) = true
  is_ok (err e) = false

  -- Some piece behind the first LF of the torn part is a line.
  unfoldable pub resumes : Bytes → Bool
  resumes torn = any (λ chunk. is_ok (read_piece chunk)) (split 10 torn).1

  unfoldable pub parse_log_lenient : (Bytes → Result Bytes) → Bytes → Result ParsedLog
  parse_log_lenient fetch log = do
    let scan = scan_pieces (split 10 log).0 (split 10 log).1
    require (not (resumes (drop scan.valid_prefix log))) corrupt
    lines ← resolve_all fetch scan.stored
    ok (record { lines = lines; valid_prefix = scan.valid_prefix })

  unfoldable pub parse_log_strict : (Bytes → Result Bytes) → Bytes → Result (List LogLine)
  parse_log_strict fetch log = do
    parsed ← parse_log_lenient fetch log
    require (parsed.valid_prefix == length log) corrupt
    ok parsed.lines

  unfoldable pub line_blob_refs : Bytes → BTreeSet
  line_blob_refs log = add_refs (scan_pieces (split 10 log).0 (split 10 log).1).stored []
