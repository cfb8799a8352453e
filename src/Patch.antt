-- ===== src/Patch.antt =====
-- src/patch.rs: intents, realized deltas, and the application of both.
pub mod Span
pub mod Unique
pub mod Arithmetic
pub mod Invert
pub mod Entries
pub mod Replay
pub mod Frame
pub mod Commute
use tally_vcs.Prelude.{
  ℕ, Bool, true, false, not, ◌&&◌, ◌||◌, List, [], ◌∷◌, ◌++◌, Option, none, some, ◌≡◌,
  if◌then◌else◌, any, Error, Result, ok, err, invalid, precondition, ◌>>=◌, ◌>>◌, require, ok_or,
}
use tally_vcs.Prelude.Bytes.{Bytes, str_eq}
use tally_vcs.Base64.{decode}
use tally_vcs.Blobs.{BlobStore}
use tally_vcs.Blobs
use tally_vcs.Ident.Hex.{Sha3, sha3_hex}
use tally_vcs.Ident.Record.{
  ElementRecord, validate_path, validate_mode, new, to_bytes, to_line, parse,
}
use tally_vcs.Manifest.{Manifest}
use tally_vcs.Manifest
use tally_vcs.Patch.Span.{replaced, replace_unique}
use tally_vcs.Setsum.{Setsum, Sum}

pub data Op : Type 0 where
  edit : Bytes → Bytes → Bytes → Op
  create : Bytes → Bytes → Option Bytes → Option Bytes → Op
  delete : Bytes → Bytes → Op
  chmod : Bytes → Bytes → Bytes → Op

-- `Op::path`
unfoldable pub op_path : Op → Bytes
op_path (edit path old_str new_str) = path
op_path (create path mode blob content_b64) = path
op_path (delete path blob) = path
op_path (chmod path old_mode new_mode) = path

pub record Intent : Type 0 where
  pub ops : List Op

-- The lines of the record consumed and of the record produced.
pub record RealizedEntry : Type 0 where
  pub remove : Option Bytes
  pub add : Option Bytes

-- `.map(ElementRecord::parse).transpose()`
unfoldable pub parse_side : Option Bytes → Result (Option ElementRecord)
parse_side none = ok none
parse_side (some line) = do r ← parse line; ok (some r)

unfoldable pub removed : RealizedEntry → Result (Option ElementRecord)
removed e = parse_side e.remove

unfoldable pub added : RealizedEntry → Result (Option ElementRecord)
added e = parse_side e.add

pub record Realization : Type 0 where
  pub realized : List RealizedEntry
  pub new_blobs : List (Bytes × Bytes)

module _ ⦃S : Setsum⦄ where
  abbrev pub remove_sum : Option ElementRecord → Sum → Sum
  remove_sum none s = s
  remove_sum (some r) s = S.remove s (to_bytes r)

  abbrev pub add_sum : Option ElementRecord → Sum → Sum
  add_sum none s = s
  add_sum (some r) s = S.insert s (to_bytes r)

  unfoldable pub apply_realized_to_sum : Sum → List RealizedEntry → Result Sum
  apply_realized_to_sum s [] = ok s
  apply_realized_to_sum s (e ∷ es) = do
    r ← removed e
    a ← added e
    apply_realized_to_sum (add_sum a (remove_sum r s)) es

abbrev pub remove_side : Option ElementRecord → Manifest → Result Manifest
remove_side none m = ok m
remove_side (some r) m = Manifest.remove m r

abbrev pub add_side : Option ElementRecord → Manifest → Result Manifest
add_side none m = ok m
add_side (some r) m = Manifest.insert m r

-- One round of the loop of `apply_realized_to_manifest`.
unfoldable pub apply_entry : Manifest → RealizedEntry → Result Manifest
apply_entry m e = do r ← removed e; m₁ ← remove_side r m; a ← added e; add_side a m₁

unfoldable pub apply_realized_to_manifest : Manifest → List RealizedEntry → Result Manifest
apply_realized_to_manifest m [] = ok m
apply_realized_to_manifest m (e ∷ es) = do m₁ ← apply_entry m e; apply_realized_to_manifest m₁ es

-- The closure `read_blob` of `apply_intent`.
unfoldable pub read_blob : BlobStore → List (Bytes × Bytes) → Bytes → Result Bytes
read_blob blobs [] hash = Blobs.get blobs hash
read_blob blobs ((new_hash, content) ∷ new_blobs) hash =
    if str_eq new_hash hash then ok content else read_blob blobs new_blobs hash

-- The scratch manifest and the realization that the loop of `apply_intent` changes.
pub record Scratch : Type 0 where
  pub scratch : Manifest
  pub realization : Realization

-- `known_new || blobs.has(hash)?`
unfoldable pub is_known : BlobStore → List (Bytes × Bytes) → Bytes → Result Bool
is_known blobs new_blobs hash =
    if any (λ b. str_eq b.0 hash) new_blobs then ok true else Blobs.has blobs hash

-- The two `Option`s of an `Op::Create`: the new element's hash and the blobs with it.
unfoldable pub create_content :
    ⦃h : Sha3⦄
    → BlobStore
    → List (Bytes × Bytes)
    → Option Bytes
    → Option Bytes
    → Result (Bytes × List (Bytes × Bytes))
create_content blobs new_blobs (some hash) none = do
  known ← is_known blobs new_blobs hash
  require known precondition
  ok (hash, new_blobs)
create_content blobs new_blobs none (some b64_content) = do
  content ← decode b64_content
  ok (sha3_hex content, new_blobs ++ (sha3_hex content, content) ∷ [])
create_content blobs new_blobs (some hash) (some b64_content) = err invalid
create_content blobs new_blobs none none = err invalid

abbrev push : Realization → RealizedEntry → List (Bytes × Bytes) → Realization
push z e new_blobs = record { realized = z.realized ++ e ∷ []; new_blobs = new_blobs }

-- `scratch.remove(&element)?; scratch.insert(new_record)?`, and the entry that records it.
unfoldable pub exchange :
    Scratch → ElementRecord → ElementRecord → List (Bytes × Bytes) → Result Scratch
exchange s element record_new new_blobs = do
  m₁ ← Manifest.remove s.scratch element
  m₂ ← Manifest.insert m₁ record_new
  ok (record {
    scratch = m₂;
    realization =
        push s.realization
          (record { remove = some (to_line element); add = some (to_line record_new) }) new_blobs;
  })

-- One round of the loop of `apply_intent`.
unfoldable pub apply_op : ⦃h : Sha3⦄ → BlobStore → Scratch → Op → Result Scratch
apply_op blobs s (edit path old_str new_str) = do
  validate_path path
  element ← ok_or (Manifest.get s.scratch path) precondition
  content ← read_blob blobs s.realization.new_blobs element.blob
  new_content ← replaced (replace_unique content old_str new_str)
  let new_hash = sha3_hex new_content
  new_record ← new element.mode path new_hash
  exchange s element new_record (s.realization.new_blobs ++ (new_hash, new_content) ∷ [])
apply_op blobs s (create path mode blob content_b64) = do
  validate_path path
  validate_mode mode
  require (not (Manifest.is_present s.scratch path)) precondition
  (hash, new_blobs) ← create_content blobs s.realization.new_blobs blob content_b64
  new_record ← new mode path hash
  m₁ ← Manifest.insert s.scratch new_record
  ok (record {
    scratch = m₁;
    realization =
        push s.realization (record { remove = none; add = some (to_line new_record) }) new_blobs;
  })
apply_op blobs s (delete path blob) = do
  validate_path path
  element ← ok_or (Manifest.get s.scratch path) precondition
  require (str_eq element.blob blob) precondition
  m₁ ← Manifest.remove s.scratch element
  ok (record {
    scratch = m₁;
    realization =
        push s.realization (record { remove = some (to_line element); add = none })
          s.realization.new_blobs;
  })
apply_op blobs s (chmod path old_mode new_mode) = do
  validate_path path
  validate_mode new_mode
  element ← ok_or (Manifest.get s.scratch path) precondition
  require (str_eq element.mode old_mode) precondition
  new_record ← new new_mode path element.blob
  exchange s element new_record s.realization.new_blobs

abbrev pub start : Manifest → Scratch
start m = record { scratch = m; realization = record { realized = []; new_blobs = [] } }

-- The variables of `apply_intent`: what `manifest` refers to, and what is local.
pub record Call : Type 0 where
  pub manifest : Manifest
  pub work : Scratch

-- A round that fails leaves the function; what its local variables hold then is lost.
abbrev pub after_op : Call → Result Scratch → Result (Unit {0}) × Call
after_op c (ok s) = (ok tt, record c { work = s })
after_op c (err e) = (err e, c)

abbrev pub then_ops :
    Result (Unit {0}) × Call → (Call → Result (Unit {0}) × Call) → Result (Unit {0}) × Call
then_ops (ok done, c) ops = ops c
then_ops (err e, c) ops = (err e, c)

-- The loop of `apply_intent`.
unfoldable pub apply_ops : ⦃h : Sha3⦄ → BlobStore → Call → List Op → Result (Unit {0}) × Call
apply_ops blobs c [] = (ok tt, c)
apply_ops blobs c (op ∷ ops) =
    then_ops (after_op c (apply_op blobs c.work op)) (λ k. apply_ops blobs k ops)

-- Behind the loop: `*manifest = scratch`, and the result.
abbrev pub commit : Result (Unit {0}) × Call → Result Realization × Manifest
commit (ok done, c) =
    let assigned = record c { manifest = c.work.scratch } in
    (ok assigned.work.realization, assigned.manifest)
commit (err e, c) = (err e, c.manifest)

-- The result, and what `manifest` refers to when the call returns.
unfoldable pub apply_intent :
    ⦃h : Sha3⦄ → Intent → Manifest → BlobStore → Result Realization × Manifest
apply_intent intent m blobs =
    commit (apply_ops blobs (record { manifest = m; work = start m }) intent.ops)
