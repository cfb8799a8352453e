-- ===== src/Log.antt =====
-- src/log.rs: the log of applied patches.
pub mod Chain
pub mod Serialize
pub mod Stored
pub mod Seal
pub mod Readable
pub mod Readback
pub mod Scanning
pub mod Growth
pub mod Recovery
pub mod Core
pub mod Validate
use tally_vcs.Prelude.{
  ℕ, zero, suc, ◌+◌, Bool, true, false, not, ◌&&◌, List, [], ◌∷◌, Option, none, some, ◌≡◌,
  if◌then◌else◌, length, ◌==◌, Error, Result, ok, err, corrupt, invalid, ◌>>=◌, ◌>>◌, require,
}
use tally_vcs.Prelude.Bytes.{Bytes, str_eq}
use tally_vcs.BTreeMap.{is_some}
use tally_vcs.Json.{Value}
use tally_vcs.Patch.{Intent, RealizedEntry, apply_realized_to_sum}
use tally_vcs.Setsum.{Setsum, Sum, hexdigest}

pub data Provenance : Type 0 where
  agent andon union fuse : Provenance

pub record Fuse : Type 0 where
  pub name : Bytes
  pub from : Bytes
  pub to : Bytes

pub record Origin : Type 0 where
  pub fork : Bytes
  pub id : Bytes

pub record GitImport : Type 0 where
  pub algorithm : Bytes
  pub commit : Bytes
  pub tree : Bytes
  pub reference : Option Bytes

pub record HarnessCall : Type 0 where
  pub harness : Bytes
  pub tool : Bytes
  pub entry : Bytes
  pub call : Bytes
  pub absorbed : List Bytes

pub record Annotation : Type 0 where
  pub author : Bytes
  pub provenance : Provenance
  pub reason : Option Bytes
  pub sig : Option Bytes
  pub session : Option Bytes
  pub prose : Option Bytes
  pub reads : Option Value
  pub origin : Option Origin
  pub git_import : Option GitImport
  pub harness : Option HarnessCall
  pub fuse_span : Option Fuse

pub record LogLine : Type 0 where
  pub id : Bytes
  pub prev : Bytes
  pub intent : Intent
  pub realized : List RealizedEntry
  pub sum_after : Bytes
  pub committed_ms : ℕ
  pub annotation : Annotation

abbrev pub is_empty {ℓ} : {A : Type ℓ} → List A → Bool
is_empty [] = true
is_empty (x ∷ xs) = false

-- `reason.as_deref().unwrap_or("").is_empty()`
abbrev pub is_blank : Option Bytes → Bool
is_blank none = true
is_blank (some s) = is_empty s

abbrev pub validate_fuse : Option Fuse → LogLine → Result (Unit {0})
validate_fuse none line = err invalid
validate_fuse (some f) line = do
  require (not (is_empty f.name)) invalid
  require (is_empty line.intent.ops) invalid

-- The `match` on the provenance.
abbrev pub validate_provenance : Provenance → LogLine → Result (Unit {0})
validate_provenance agent line = ok tt
validate_provenance fuse line = validate_fuse line.annotation.fuse_span line
validate_provenance andon line = do
  require (not (is_blank line.annotation.reason)) invalid
  require (is_some line.annotation.sig) invalid
validate_provenance union line = require (is_some line.annotation.origin) invalid

-- `LogLine::validate`
unfoldable pub validate : LogLine → Result (Unit {0})
validate line =
    if is_some line.annotation.fuse_span && not (is_empty line.realized)
    then err invalid
    else validate_provenance line.annotation.provenance line

-- `lines.iter().rposition(|l| l.sum_after == sum_hex)`
unfoldable pub last_state_position : List LogLine → Bytes → Option ℕ
last_state_position [] sum_hex = none
last_state_position (l ∷ ls) sum_hex = elim (last_state_position ls sum_hex) [
  | some i ↦ some (suc i)
  | none ↦ if str_eq l.sum_after sum_hex then some 0 else none
]

module _ ⦃S : Setsum⦄ where
  -- The loop of `verify_chain`, from the sum and the id reached so far.
  unfoldable pub verify_lines : Sum → Bytes → List LogLine → Result Sum
  verify_lines sum prev [] = ok sum
  verify_lines sum prev (line ∷ lines) = do
    require (str_eq line.prev prev) corrupt
    sum₁ ← apply_realized_to_sum sum line.realized
    require (str_eq (hexdigest sum₁) line.sum_after) corrupt
    verify_lines sum₁ line.id lines

  unfoldable pub verify_chain : Sum → List LogLine → Result Sum
  verify_chain anchor lines = verify_lines anchor [] lines
