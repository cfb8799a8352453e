-- ===== src/Revision/Suffixes.antt =====
-- `split_suffixes` and `apply_suffixes` of src/revision.rs.
use tally_vcs.Prelude.{
  ℕ, zero, suc, ◌+◌, ◌-◌, ◌*◌, ◌^◌, Bool, true, false, not, ◌&&◌, ◌||◌, List, [], ◌∷◌, Option, none,
  some, if◌then◌else◌, ltb, leb, ◌==◌, length, get_elem?, Result, ok, err, invalid, ◌>>=◌,
}
use tally_vcs.Prelude.Bytes.{Bytes, bytes, str_eq}

pub record StatePoint : Type 0 where
  pub sum : Bytes
  pub line : Option Bytes

pub record Resolved : Type 0 where
  pub fork : Bytes
  pub sum : Bytes
  pub line : Option Bytes

abbrev opens_brace : Bytes → Bool
opens_brace [] = false
opens_brace (c ∷ rest) = c == b'{'

-- Where the base ends: at a suffix operator, save for a leading `@`.
abbrev pub ends_base : Bool → ℕ → Bytes → Bool
ends_base is_first c rest =
    c == b'~' || (c == b'^' || (c == b'@' && (not is_first || opens_brace rest)))

-- The first loop: the base and the rest.
unfoldable pub split_base : Bool → Bytes → Bytes × Bytes
split_base is_first [] = ([], [])
split_base is_first (c ∷ rest) =
    let (base, more) = split_base false rest in
    if ends_base is_first c rest then ([], c ∷ rest) else (c ∷ base, more)

abbrev pub is_digit : ℕ → Bool
is_digit c = leb b'0' c && leb c b'9'

unfoldable pub span_digits : Bytes → Bytes × Bytes
span_digits [] = ([], [])
span_digits (c ∷ rest) =
    let (digits, more) = span_digits rest in
    if is_digit c then (c ∷ digits, more) else ([], c ∷ rest)

-- Up to the first `}`, or all of it.
unfoldable pub span_brace : Bytes → Bytes × Bytes
span_brace [] = ([], [])
span_brace (c ∷ rest) =
    let (inner, more) = span_brace rest in if c == b'}' then (c ∷ [], rest) else (c ∷ inner, more)

-- The bytes of a character behind its first.
abbrev pub char_rest : ℕ → ℕ
char_rest c = if ltb c 0x80 then 0 else if ltb c 0xe0 then 1 else if ltb c 0xf0 then 2 else 3

unfoldable pub span_count : ℕ → Bytes → Bytes × Bytes
span_count zero s = ([], s)
span_count (suc n) [] = ([], [])
span_count (suc n) (c ∷ s) = let (piece, more) = span_count n s in (c ∷ piece, more)

-- One round of the second loop: the suffix behind its first byte, and what follows.
unfoldable pub next_suffix : ℕ → Bytes → Bytes × Bytes
next_suffix c rest =
    if c == b'^'
    then ([], rest)
    else if c == b'~'
    then span_digits rest
    else if c == b'@' && opens_brace rest
    then span_brace rest
    else span_count (char_rest c) rest

-- The second loop; the length of the rest is fuel enough, as each round reads a byte.
unfoldable pub suffixes_fuel : ℕ → Bytes → List Bytes
suffixes_fuel n [] = []
suffixes_fuel zero (c ∷ rest) = []
suffixes_fuel (suc n) (c ∷ rest) =
    let (suffix, more) = next_suffix c rest in (c ∷ suffix) ∷ suffixes_fuel n more

unfoldable pub split_suffixes : Bytes → Bytes × List Bytes
split_suffixes spec =
    let (base, rest) = split_base true spec in (base, suffixes_fuel (length rest) rest)

-- `str::parse::<usize>`: an optional plus sign, digits, and no overflow of 64 bits.
unfoldable pub read_digits : ℕ → Bytes → Option ℕ
read_digits n [] = if ltb n (2 ^ 64) then some n else none
read_digits n (c ∷ s) =
    let rest = read_digits (n * 10 + (c - b'0')) s in if is_digit c then rest else none

abbrev some_digits : Bytes → Option ℕ
some_digits [] = none
some_digits (c ∷ s) = read_digits 0 (c ∷ s)

unfoldable pub parse_usize : Bytes → Option ℕ
parse_usize [] = none
parse_usize (c ∷ s) = if c == b'+' then some_digits s else read_digits 0 (c ∷ s)

-- `step_back`
unfoldable pub step_back : ℕ → ℕ → Result ℕ
step_back index n = if ltb index n then err invalid else ok (index - n)

abbrev pub drop_last : Bytes → Option Bytes
drop_last [] = none
drop_last (c ∷ []) = if c == b'}' then some [] else none
drop_last (c ∷ d ∷ s) = elim (drop_last (d ∷ s)) [ none ↦ none | some t ↦ some (c ∷ t) ]

-- `s.starts_with("@{") && s.ends_with('}')`, and what stands inside.
abbrev pub inside_braces : Bytes → Option Bytes
inside_braces (a ∷ b ∷ s) = if a == b'@' && b == b'{' then drop_last s else none
inside_braces _ = none

-- The arm of `@{N}`.
unfoldable pub back_from_head : ℕ → Option ℕ → Result ℕ
back_from_head count none = err invalid
back_from_head count (some n) = if leb count n then err invalid else ok (count - 1 - n)

unfoldable pub back_by : ℕ → Option ℕ → Result ℕ
back_by index none = err invalid
back_by index (some n) = step_back index n

abbrev pub strip_tilde : Bytes → Option Bytes
strip_tilde [] = none
strip_tilde (c ∷ s) = if c == b'~' then some s else none

-- One round of the loop of `apply_suffixes`, on a lineage of `count` points.
unfoldable pub apply_suffix : ℕ → ℕ → Bytes → Result ℕ
apply_suffix count index suffix =
    if str_eq suffix (bytes "^") then step_back index 1 else elim (strip_tilde suffix) [
      | some digits ↦ back_by index (parse_usize digits)
      | none ↦ elim (inside_braces suffix) [
        | some inner ↦ back_from_head count (parse_usize inner)
        | none ↦ err invalid
      ]
    ]

unfoldable pub apply_all : ℕ → ℕ → List Bytes → Result ℕ
apply_all count index [] = ok index
apply_all count index (s ∷ ss) = do i ← apply_suffix count index s; apply_all count i ss

-- `points[index]` panics out of range: that is `none`.
abbrev pub resolved_at : Bytes → Option StatePoint → Option Resolved
resolved_at fork none = none
resolved_at fork (some p) = some (record { fork = fork; sum = p.sum; line = p.line })

unfoldable pub apply_suffixes : Bytes → ℕ → List StatePoint → List Bytes → Result (Option Resolved)
apply_suffixes fork index points suffixes = do
  i ← apply_all (length points) index suffixes
  ok (resolved_at fork (get_elem? points i))
