-- ===== src/Json/Strings.antt =====
-- `write_canonical_string` of src/ident.rs. The characters that it escapes are ASCII, and the bytes
-- of all others pass through, so that it is the same function of bytes.
use tally_vcs.Prelude.{
  ℕ, zero, suc, ◌+◌, ◌-◌, ◌*◌, ◌/◌, ◌%◌, [], ◌∷◌, ◌++◌, Option, none, some, ◌≡◌, refl, ap, ◌∙◌,
  append_assoc, arith, ltb, leb, ◌==◌, if◌then◌else◌, sym, Bool, ◌&&◌, ◌||◌,
}
use tally_vcs.Prelude.Bytes.{Bytes}
use tally_vcs.Ident.Hex.{hex_digit}

-- `format!("\\u{:04x}", c as u32)` of a number below 0x20.
abbrev unicode_escape : ℕ → Bytes
unicode_escape c = b'\\' ∷ b'u' ∷ b'0' ∷ b'0' ∷ hex_digit (c / 16) ∷ hex_digit (c % 16) ∷ []

unfoldable pub escape_char : ℕ → Bytes
unfolding hex_digit
escape_char c =
    if c == b'"'
    then b'\\' ∷ b'"' ∷ []
    else if c == b'\\'
    then b'\\' ∷ b'\\' ∷ []
    else if c == 8
    then b'\\' ∷ b'b' ∷ []
    else if c == 9
    then b'\\' ∷ b't' ∷ []
    else if c == 10
    then b'\\' ∷ b'n' ∷ []
    else if c == 12
    then b'\\' ∷ b'f' ∷ []
    else if c == 13
    then b'\\' ∷ b'r' ∷ []
    else if ltb c 0x20
    then unicode_escape c
    else c ∷ []

unfoldable pub escape : Bytes → Bytes
escape [] = []
escape (c ∷ cs) = escape_char c ++ escape cs

-- What `write_canonical_string` appends.
unfoldable pub canonical_string : Bytes → Bytes
canonical_string s = b'"' ∷ (escape s ++ (b'"' ∷ []))

-- A reader of JSON strings, written from the grammar of RFC 8259: a character below U+0020 stands
-- in no string, a backslash is followed by one of nine characters, and `\u` by four digits. Of the
-- latter, it reads the numbers below U+0080, which are one byte.
abbrev is_between : ℕ → ℕ → ℕ → Bool
is_between lo hi c = leb lo c && leb c hi

abbrev hex_value : ℕ → Option ℕ
hex_value c =
    if is_between b'0' b'9' c
    then some (c - b'0')
    else if is_between b'a' b'f' c
    then some (c - b'a' + 10)
    else if is_between b'A' b'F' c
    then some (c - b'A' + 10)
    else none

abbrev short_escape : ℕ → Option ℕ
short_escape c =
    if c == b'"' || (c == b'\\' || c == b'/')
    then some c
    else if c == b'b'
    then some 8
    else if c == b'f'
    then some 12
    else if c == b'n'
    then some 10
    else if c == b'r'
    then some 13
    else if c == b't'
    then some 9
    else none

abbrev onto : Option ℕ → Option (Bytes × Bytes) → Option (Bytes × Bytes)
onto none more = none
onto (some c) none = none
onto (some c) (some (s, rest)) = some (c ∷ s, rest)

-- A digit behind the number that the digits before it make.
abbrev digit_onto : Option ℕ → Option ℕ → Option ℕ
digit_onto none d = none
digit_onto (some n) none = none
digit_onto (some n) (some d) = some (n * 16 + d)

abbrev one_byte : Option ℕ → Option ℕ
one_byte none = none
one_byte (some n) = if ltb n 0x80 then some n else none

-- The reader is in the text, behind a backslash, or inside the digits of a `\u` escape.
pub data Place : Type 0 where
  text slash : Place
  digits : ℕ → Option ℕ → Place

read_rest : Place → Bytes → Option (Bytes × Bytes)
read_rest place [] = none
read_rest text (c ∷ rest) =
    let more = read_rest text rest in
    let escaped = read_rest slash rest in
    if c == b'"'
    then some ([], rest)
    else if c == b'\\'
    then escaped
    else if ltb c 0x20
    then none
    else onto (some c) more
read_rest slash (c ∷ rest) =
    let more = read_rest text rest in
    let unicode = read_rest (digits 3 (some 0)) rest in
    if c == b'u' then unicode else onto (short_escape c) more
read_rest (digits zero n) (c ∷ rest) =
    onto (one_byte (digit_onto n (hex_value c))) (read_rest text rest)
read_rest (digits (suc k) n) (c ∷ rest) = read_rest (digits k (digit_onto n (hex_value c))) rest

-- A string, and what follows it.
pub read_string : Bytes → Option (Bytes × Bytes)
read_string [] = none
read_string (c ∷ rest) = let more = read_rest text rest in if c == b'"' then more else none

read_escape_char :
    (c : ℕ) (rest : Bytes)
    → read_rest text (escape_char c ++ rest) ≡ onto (some c) (read_rest text rest)
unfolding read_rest escape_char
read_escape_char c rest = ground arith

read_escape : (s rest : Bytes) → read_rest text (escape s ++ (b'"' ∷ rest)) ≡ some (s, rest)
unfolding escape
read_escape [] rest = unfold read_rest in refl
read_escape (c ∷ cs) rest =
    rw (append_assoc (escape_char c) (escape cs) (b'"' ∷ rest))
      (read_escape_char c _ ∙ rw (read_escape cs rest) refl)

-- A reader of strings by the grammar of JSON, which takes no character below U+0020 as it stands,
-- gives back the string of which it reads the canonical text, and whatever follows it.
pub read_string-canonical_string :
    (s rest : Bytes) → read_string (canonical_string s ++ rest) ≡ some (s, rest)
unfolding read_string canonical_string
read_string-canonical_string s rest =
    rw (append_assoc (escape s) (b'"' ∷ []) rest) (read_escape s rest)

-- No two strings have the same canonical text.
pub canonical_string_injective : (s t : Bytes) → canonical_string s ≡ canonical_string t → s ≡ t
unfolding canonical_string
canonical_string_injective s t e =
    let tails : escape s ++ (b'"' ∷ []) ≡ escape t ++ (b'"' ∷ []) = cc in
    let both = sym (read_escape s []) ∙ ap (read_rest text) tails ∙ read_escape t [] in ground arith
