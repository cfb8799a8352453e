-- ===== src/Fork.antt =====
-- src/fork.rs: fork files and fork names.
use tally_vcs.Prelude.{
  ℕ, ◌<◌, Bool, true, false, ◌&&◌, ◌||◌, List, [], ◌∷◌, ◌++◌, Option, none, some, ◌≡◌, refl, ap,
  ◌∙◌, arith, Result, ok, err, corrupt, invalid, require, ok_or, ◌>>=◌, ◌>>◌, if◌then◌else◌,
  &&-eq-true, all, ltb, ◌≢◌,
}
use tally_vcs.Prelude.Bytes.{
  Bytes, bytes, str_eq, str_eq_refl, contains, contains-append, strip_prefix, strip_prefix-append,
  lines, lines-append, is_utf8, split_inclusive, is_utf8_ascii, is_utf8-append, not_contains, split,
  split_whole,
}
use tally_vcs.Ident.Hex.{is_hex64, is_hex_char}
use tally_vcs.Setsum.{Setsum, Sum, hexdigest, zero_sum}

abbrev pub fork_header : Bytes
fork_header = bytes "tally-fork v0"

pub record ForkFile : Type 0 where
  pub anchor : Bytes
  pub manifest : Bytes

module _ ⦃S : Setsum⦄ where
  unfoldable pub fork_at : Sum → ForkFile
  fork_at anchor = record { anchor = hexdigest anchor; manifest = hexdigest anchor }

  unfoldable pub empty_fork : ForkFile
  empty_fork = fork_at zero_sum

abbrev pub anchor_prefix : Bytes
anchor_prefix = bytes "anchor "

abbrev pub manifest_prefix : Bytes
manifest_prefix = bytes "manifest "

-- `ForkFile::to_bytes`
unfoldable pub fork_bytes : ForkFile → Bytes
fork_bytes f =
    fork_header
    ++ (10 ∷ ((anchor_prefix ++ f.anchor) ++ (10 ∷ ((manifest_prefix ++ f.manifest) ++ (10 ∷ [])))))

-- `lines.next()`, and the lines behind it.
abbrev pub first : List Bytes → Option Bytes
first [] = none
first (l ∷ ls) = some l

abbrev pub others : List Bytes → List Bytes
others [] = []
others (l ∷ ls) = ls

abbrev pub or_empty : Option Bytes → Bytes
or_empty none = []
or_empty (some l) = l

-- `lines.next().and_then(|l| l.strip_prefix(..))`
abbrev pub strip_line : Bytes → Option Bytes → Option Bytes
strip_line p none = none
strip_line p (some l) = strip_prefix p l

-- `ForkFile::parse`, on the lines.
unfoldable pub parse_lines : List Bytes → Result ForkFile
parse_lines ls = do
  require (str_eq (or_empty (first ls)) fork_header) corrupt
  anchor ← ok_or (strip_line anchor_prefix (first (others ls))) corrupt
  manifest ← ok_or (strip_line manifest_prefix (first (others (others ls)))) corrupt
  require (is_hex64 anchor && is_hex64 manifest) corrupt
  ok (record { anchor = anchor; manifest = manifest })

unfoldable pub parse_fork : Bytes → Result ForkFile
parse_fork text = do require (is_utf8 text) corrupt; parse_lines (lines text)

-- `contains` of a byte of the alphabet of names, for each of the three that are refused.
unfoldable pub validate_fork_name : Bytes → Result (Unit {0})
validate_fork_name name =
    if str_eq name []
      || (str_eq name (bytes ".")
          || (str_eq name (bytes "..")
              || (contains b'/' name || (contains 0 name || contains 10 name))))
    then err invalid
    else ok tt

hex_not_contains : (c : ℕ) (s : Bytes) → c < b'0' → is_hex64 s ≡ true → contains c s ≡ false
unfolding is_hex64 is_hex_char
hex_not_contains c s k h = not_contains is_hex_char c s (&&-eq-true _ _ h).1 (ground arith)

all_weaken :
    (p q : ℕ → Bool) (s : Bytes)
    → ((c : ℕ) → p c ≡ true → q c ≡ true)
    → all p s ≡ true
    → all q s ≡ true
all_weaken p q [] f h = refl
all_weaken p q (x ∷ xs) f h =
    let (a, b) = &&-eq-true (p x) (all p xs) h in rw (f x a) (all_weaken p q xs f b)

hex_ascii : (s : Bytes) → is_hex64 s ≡ true → is_utf8 s ≡ true
unfolding is_hex64 is_hex_char
hex_ascii s h =
    is_utf8_ascii s
      (all_weaken is_hex_char (λ b. ltb b 0x80) s (λ c k. ground arith) (&&-eq-true _ _ h).1)

-- What `parse` accepts.
abbrev pub IsForkFile : ForkFile → Type 0
IsForkFile f = (is_hex64 f.anchor ≡ true) × (is_hex64 f.manifest ≡ true)

fork_bytes-is_utf8 : (f : ForkFile) → IsForkFile f → is_utf8 (fork_bytes f) ≡ true
unfolding fork_bytes
fork_bytes-is_utf8 f (a, m) = is_utf8-append (bytes "tally-fork v0\n") _ (is_utf8_ascii _ refl) (
    is_utf8-append (anchor_prefix ++ f.anchor) _
      (is_utf8-append anchor_prefix f.anchor (is_utf8_ascii _ refl) (hex_ascii f.anchor a))
      (is_utf8-append (10 ∷ []) _ (is_utf8_ascii _ refl) (
        is_utf8-append (manifest_prefix ++ f.manifest) _
          (is_utf8-append manifest_prefix f.manifest (is_utf8_ascii _ refl)
            (hex_ascii f.manifest m))
          (is_utf8_ascii _ refl))))

prefixed_not_contains :
    (c : ℕ) (p s : Bytes)
    → c < b'0'
    → contains c p ≡ false
    → is_hex64 s ≡ true
    → contains c (p ++ s) ≡ false
prefixed_not_contains c p s k h v = rw (contains-append c p s, h) (hex_not_contains c s k v)

lines_nil : lines [] ≡ []
unfolding lines split_inclusive
lines_nil = refl

lines-fork_bytes :
    (f : ForkFile)
    → IsForkFile f
    → lines (fork_bytes f)
      ≡ fork_header ∷ (anchor_prefix ++ f.anchor) ∷ (manifest_prefix ++ f.manifest) ∷ []
unfolding fork_bytes contains
lines-fork_bytes f (a, m) =
    lines-append fork_header _ refl refl
    ∙ ap (λ (t : List Bytes). fork_header ∷ t)
        (lines-append (anchor_prefix ++ f.anchor) _
            (prefixed_not_contains 10 anchor_prefix f.anchor (omega arith) refl a)
            (prefixed_not_contains 13 anchor_prefix f.anchor (omega arith) refl a)
          ∙ ap (λ (t : List Bytes). (anchor_prefix ++ f.anchor) ∷ t)
              (lines-append (manifest_prefix ++ f.manifest) []
                  (prefixed_not_contains 10 manifest_prefix f.manifest (omega arith) refl m)
                  (prefixed_not_contains 13 manifest_prefix f.manifest (omega arith) refl m)
                ∙ ap (λ (t : List Bytes). (manifest_prefix ++ f.manifest) ∷ t) lines_nil))

-- Parsing the bytes of a fork file whose two names are 64 hexadecimal digits gives the fork file
-- back.
pub parse_fork-fork_bytes : (f : ForkFile) → IsForkFile f → parse_fork (fork_bytes f) ≡ ok f
unfolding parse_fork parse_lines
parse_fork-fork_bytes f v = rw (fork_bytes-is_utf8 f v) (
    rw (lines-fork_bytes f v) (
      rw
        (
          str_eq_refl fork_header,
          strip_prefix-append anchor_prefix f.anchor,
          strip_prefix-append manifest_prefix f.manifest,
          v.0,
          v.1,
        )
        refl))

-- The file of every anchor, the empty repository's included, parses.
pub parse_fork-fork_at :
    ⦃S : Setsum⦄ (s : Sum) → parse_fork (fork_bytes (fork_at s)) ≡ ok (fork_at s)
unfolding fork_at
parse_fork-fork_at ⦃S⦄ s =
    parse_fork-fork_bytes (fork_at s) (S.hexdigest-is_hex64 s, S.hexdigest-is_hex64 s)

-- A fork file that parses names its anchor and its manifest by 64 hexadecimal digits each.
pub parse_fork-IsForkFile : (text : Bytes) (f : ForkFile) → parse_fork text ≡ ok f → IsForkFile f
unfolding parse_fork parse_lines
parse_fork-IsForkFile text f h = ground arith

-- A name that is accepted is one path component: it is neither empty nor `.` nor `..`, and no
-- slash splits it.
pub validate_fork_name-split :
    (name : Bytes)
    → validate_fork_name name ≡ ok tt
    → (name ≢ []) × (name ≢ bytes ".") × (name ≢ bytes "..") × (split b'/' name ≡ (name, []))
unfolding validate_fork_name str_eq
validate_fork_name-split name h =
    (λ e. ground arith, λ e. ground arith, λ e. ground arith, split_whole b'/' name (ground arith))
