-- ===== src/Blame.antt =====
-- src/blame.rs: the replay that stamps each byte of a file with the log line that produced it.
pub mod Replayed
pub mod Owned
use tally_vcs.Prelude.{
  ℕ, suc, ◌+◌, Bool, true, false, List, [], ◌∷◌, ◌++◌, Option, none, some, if◌then◌else◌, map, take,
  drop, length, get_elem?, leb, ◌==◌, ◌&&◌, Result, ok, err, corrupt, invalid, ok_or, require,
  ◌>>=◌, ◌>>◌,
}
use tally_vcs.Prelude.Bytes.{Bytes, str_eq}
use tally_vcs.Base64.{decode}
use tally_vcs.Blobs
use tally_vcs.Blobs.{BlobStore}
use tally_vcs.Log.{LogLine}
use tally_vcs.Patch.{Op, edit, create, delete, chmod, op_path}
use tally_vcs.Patch.Span.{cannot_occur, all_hits}

pub record BlamedLine : Type 0 where
  pub owner : Bytes
  pub text : Bytes

-- The variables of the replay: the owner of each byte is the index of a log line.
pub record Tape : Type 0 where
  pub content : Bytes
  pub owners : List ℕ
  pub exists : Bool

abbrev pub sole : List ℕ → Option ℕ
sole [] = none
sole (at ∷ []) = some at
sole (at ∷ other ∷ more) = none

unfoldable pub find_unique : Bytes → Bytes → Option ℕ
find_unique haystack needle =
    if cannot_occur haystack needle then none else sole (all_hits haystack needle)

-- `vec![idx; bytes.len()]`
abbrev pub stamped : ℕ → Bytes → List ℕ
stamped idx [] = []
stamped idx (b ∷ bs) = idx ∷ stamped idx bs

abbrev pub created_bytes : BlobStore → Option Bytes → Option Bytes → Result Bytes
created_bytes blobs (some hash) content_b64 = Blobs.get blobs hash
created_bytes blobs none (some b64_content) = decode b64_content
created_bytes blobs none none = err corrupt

-- Whether the slices `[..at]` and `[at + len..]` of a text are in range.
abbrev pub in_range : ℕ → ℕ → ℕ → Bool
in_range at len size = leb at size && leb (at + len) size

-- The span at `at` gives way to `new`; none for the panic of a slice that is out of range, or of a
-- capacity below 0.
unfoldable pub overwrite : ℕ → Bytes → Bytes → ℕ → Tape → Option Tape
overwrite idx old new at t =
    if leb (length old) (length t.content)
      && (in_range at (length old) (length t.content) && in_range at (length old) (length t.owners))
    then some (record t {
      content = take at t.content ++ (new ++ drop (at + length old) t.content);
      owners = take at t.owners ++ (stamped idx new ++ drop (at + length old) t.owners);
    })
    else none

unfoldable pub replay_op : BlobStore → ℕ → Op → Tape → Result (Option Tape)
replay_op blobs idx (create path mode blob content_b64) t = do
  content ← created_bytes blobs blob content_b64
  ok (some (record { content = content; owners = stamped idx content; exists = true }))
replay_op blobs idx (edit path old_str new_str) t = do
  at ← ok_or (find_unique t.content old_str) corrupt
  ok (overwrite idx old_str new_str at t)
replay_op blobs idx (delete path blob) t =
    ok (some (record { content = []; owners = []; exists = false }))
replay_op blobs idx (chmod path old_mode new_mode) t = ok (some t)

-- Nothing follows a panic.
abbrev pub unless_panic {ℓ} :
    {A : Type ℓ} → Option Tape → (Tape → Result (Option A)) → Result (Option A)
unless_panic none next = ok none
unless_panic (some t) next = next t

-- The operations of a line, of which those on other paths are left out.
unfoldable pub replay_ops : BlobStore → Bytes → ℕ → List Op → Tape → Result (Option Tape)
replay_ops blobs path idx [] t = ok (some t)
replay_ops blobs path idx (op ∷ ops) t = do
  next ← (if str_eq (op_path op) path then replay_op blobs idx op t else ok (some t))
  unless_panic next (replay_ops blobs path idx ops)

unfoldable pub replay_history : BlobStore → Bytes → ℕ → List LogLine → Tape → Result (Option Tape)
replay_history blobs path idx [] t = ok (some t)
replay_history blobs path idx (line ∷ history) t = do
  next ← replay_ops blobs path idx line.intent.ops t
  unless_panic next (replay_history blobs path (suc idx) history)

abbrev pub newer : Option ℕ → ℕ → ℕ
newer none owner = owner
newer (some newest) owner = if leb newest owner then owner else newest

-- `history[n].id`, where an index out of range panics.
abbrev pub id_of : Option LogLine → Option Bytes
id_of none = none
id_of (some line) = some line.id

abbrev pub prepend : Bytes → Option Bytes → Option (List BlamedLine) → Option (List BlamedLine)
prepend text none more = none
prepend text (some id) none = none
prepend text (some id) (some more) = some (record { owner = id; text = text } ∷ more)

-- `String::from_utf8_lossy`, of the standard library, is a parameter.
module _ (lossy : Bytes → Bytes) (history : List LogLine) where
  -- The line that has been seen up to here, with its newest owner; none for a panic.
  abbrev pub emit : Bytes → ℕ → Option (List BlamedLine) → Option (List BlamedLine)
  emit seen newest more = prepend (lossy seen) (id_of (get_elem? history newest)) more

  abbrev pub last_piece : Bytes → Option ℕ → Option (List BlamedLine)
  last_piece seen none = some []
  last_piece seen (some newest) = emit seen newest (some [])

  -- The loop of `roll_up_lines`; a byte without an owner is a panic.
  unfoldable pub roll_up : Bytes → Option ℕ → Bytes → List ℕ → Option (List BlamedLine)
  roll_up seen newest [] owners = last_piece seen newest
  roll_up seen newest (b ∷ bs) [] = none
  roll_up seen newest (b ∷ bs) (o ∷ os) = elim (b == 10) [
    | true ↦ emit seen (newer newest o) (roll_up [] none bs os)
    | false ↦ roll_up (seen ++ (b ∷ [])) (some (newer newest o)) bs os
  ]

-- `roll_up_lines`
abbrev pub roll_up_lines :
    (Bytes → Bytes) → Bytes → List ℕ → List LogLine → Option (List BlamedLine)
roll_up_lines lossy content owners history = roll_up lossy history [] none content owners

abbrev pub blank : Tape
blank = record { content = []; owners = []; exists = false }

-- `blame_path` behind the replay.
abbrev pub rolled_up : (Bytes → Bytes) → List LogLine → Tape → Result (Option (List BlamedLine))
rolled_up lossy history tape = do
  require tape.exists invalid
  ok (roll_up_lines lossy tape.content tape.owners history)

unfoldable pub blame_path :
    (Bytes → Bytes) → Bytes → List LogLine → BlobStore → Result (Option (List BlamedLine))
blame_path lossy path history blobs = do
  tape ← replay_history blobs path 0 history blank
  unless_panic tape (rolled_up lossy history)
