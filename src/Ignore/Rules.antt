-- ===== src/Ignore/Rules.antt =====
-- The rules of src/ignore.rs, their parser and their matcher.
use tally_vcs.Prelude.{
  ℕ, zero, suc, Bool, true, false, not, ◌&&◌, ◌||◌, List, [], ◌∷◌, Option, none, some,
  if◌then◌else◌, leb, ◌==◌, length, any, reverse,
}
use tally_vcs.Prelude.Bytes.{Bytes, bytes, str_eq, contains, split, lines, starts_with}

pub record Rule : Type 0 where
  pub negated : Bool
  pub dir_only : Bool
  pub anchored : Bool
  pub segments : List Bytes

pub record Ignore : Type 0 where
  pub rules : List Rule

-- `Ignore::empty`
abbrev pub empty : Ignore
empty = record { rules = [] }

abbrev pub xor : Bool → Bool → Bool
xor a b = if a then not b else b

abbrev pub in_range : ℕ → ℕ → ℕ → Bool
in_range p hi c = leb p c && leb c hi

-- The loop of `match_class`, on `pat[i..]`: a class that never closes is `none`.
unfoldable pub class_loop : ℕ → Bool → Bool → Bool → Bytes → Option (Bool × Bytes)
class_loop c negated hit is_first [] = none
class_loop c negated hit is_first (p ∷ []) =
    if p == b']' && not is_first then some (xor hit negated, []) else none
class_loop c negated hit is_first (p ∷ d ∷ []) = elim (p == b']' && not is_first) [
  | true ↦ some (xor hit negated, d ∷ [])
  | false ↦ class_loop c negated (hit || p == c) false (d ∷ [])
]
class_loop c negated hit is_first (p ∷ d ∷ hi ∷ rest) = elim (p == b']' && not is_first) [
  | true ↦ some (xor hit negated, d ∷ hi ∷ rest)
  | false ↦ elim (d == b'-' && not (hi == b']')) [
    | true ↦ class_loop c negated (hit || in_range p hi c) false rest
    | false ↦ class_loop c negated (hit || p == c) false (d ∷ hi ∷ rest)
  ]
]

unfoldable pub match_class : Bytes → ℕ → Option (Bool × Bytes)
match_class [] c = none
match_class (p ∷ rest) c =
    if p == b'!' || p == b'^'
    then class_loop c true false true rest
    else class_loop c false false true (p ∷ rest)

-- `(0..=s.len()).any(|i| f(&s[i..]))`
unfoldable pub any_suffix {ℓ} : {A : Type ℓ} → (List A → Bool) → List A → Bool
any_suffix f [] = f []
any_suffix f (x ∷ xs) = f (x ∷ xs) || any_suffix f xs

-- `(0..s.len()).any(|i| f(&s[i..]))`
unfoldable pub any_start {ℓ} : {A : Type ℓ} → (List A → Bool) → List A → Bool
any_start f [] = false
any_start f (x ∷ xs) = f (x ∷ xs) || any_start f xs

-- `match_chars`; the fuel falls with the pattern, whose length is enough.
unfoldable pub match_fuel : ℕ → Bytes → Bytes → Bool
match_fuel n [] [] = true
match_fuel n [] (t ∷ txt) = false
match_fuel zero (p ∷ rest) txt = false
match_fuel (suc n) (p ∷ rest) txt = elim (p == b'*') [
  | true ↦ any_suffix (match_fuel n rest) txt
  | false ↦ elim txt [
    | [] ↦ false
    | t ∷ txt_rest ↦ elim (p == b'?') [
      | true ↦ match_fuel n rest txt_rest
      | false ↦ elim (p == b'\\') [
        | true ↦ elim rest [ [] ↦ false | esc ∷ after ↦ esc == t && match_fuel n after txt_rest ]
        | false ↦ elim (p == b'[') [
          | true ↦ elim (match_class rest t) [
            | none ↦ false
            | some (hit, after) ↦ hit && match_fuel n after txt_rest
          ]
          | false ↦ p == t && match_fuel n rest txt_rest
        ]
      ]
    ]
  ]
]

unfoldable pub match_segment : Bytes → Bytes → Bool
match_segment pattern text = match_fuel (length pattern) pattern text

abbrev pub is_nil {ℓ} : {A : Type ℓ} → List A → Bool
is_nil [] = true
is_nil (x ∷ xs) = false

abbrev pub double_star : Bytes
double_star = bytes "**"

unfoldable pub match_segments : List Bytes → List Bytes → Bool
match_segments [] segs = true
match_segments (pat ∷ rest) segs = elim (str_eq pat double_star) [
  | true ↦ elim (is_nil rest) [
    | true ↦ not (is_nil segs)
    | false ↦ any_suffix (match_segments rest) segs
  ]
  | false ↦ elim segs [
    | [] ↦ false
    | seg ∷ segs_rest ↦ match_segment pat seg && match_segments rest segs_rest
  ]
]

-- `Rule::matches`
unfoldable pub rule_matches : Rule → List Bytes → Bool
rule_matches rule segs =
    if rule.anchored
    then match_segments rule.segments segs
    else any_start (match_segments rule.segments) segs

-- The `while` of `parse_line`, on the reversed line.
unfoldable pub drop_spaces : Bytes → Bytes
drop_spaces [] = []
drop_spaces (c ∷ rest) =
    let shorter = drop_spaces rest in
    if c == b' ' && not (starts_with (bytes "\\") rest) then shorter else c ∷ rest

unfoldable pub trim_spaces : Bytes → Bytes
trim_spaces line = reverse (drop_spaces (reverse line))

-- `pattern.strip_suffix('/')`: whether it was there, and the rest.
unfoldable pub strip_slash : Bytes → Bool × Bytes
strip_slash [] = (false, [])
strip_slash (x ∷ []) = if x == b'/' then (true, []) else (false, x ∷ [])
strip_slash (x ∷ y ∷ s) = let (found, rest) = strip_slash (y ∷ s) in (found, x ∷ rest)

-- `pattern.strip_prefix(c)`
abbrev pub strip_char : ℕ → Bytes → Bool × Bytes
strip_char c [] = (false, [])
strip_char c (x ∷ s) = if x == c then (true, s) else (false, x ∷ s)

abbrev pub pieces : ℕ → Bytes → List Bytes
pieces c s = let (piece, more) = split c s in piece ∷ more

-- `parse_line` behind its first return.
unfoldable pub parse_pattern : Bytes → Option Rule
parse_pattern line =
    let (negated, p₀) = strip_char b'!' line in
    let (dir_only, p₁) = strip_slash p₀ in
    let (rooted, p₂) = strip_char b'/' p₁ in
    let segments = pieces b'/' p₂ in
    if is_nil p₂
    then none
    else if any is_nil segments
    then none
    else some (record {
      negated = negated;
      dir_only = dir_only;
      anchored = rooted || contains b'/' p₂;
      segments = segments;
    })

unfoldable pub parse_line : Bytes → Option Rule
parse_line line =
    let trimmed = trim_spaces line in
    if is_nil trimmed || starts_with (bytes "#") trimmed then none else parse_pattern trimmed

abbrev filter_map : List Bytes → List Rule
filter_map [] = []
filter_map (l ∷ ls) = elim (parse_line l) [
  | none ↦ filter_map ls
  | some rule ↦ rule ∷ filter_map ls
]

-- `Ignore::parse`
unfoldable pub parse_ignore : Bytes → Ignore
parse_ignore text = record { rules = filter_map (lines text) }

-- The body of the loop of `is_ignored`: whether a rule speaks of a path.
unfoldable pub applies : Bool → List Bytes → Rule → Bool
applies is_dir segs rule = not (rule.dir_only && not is_dir) && rule_matches rule segs

unfoldable pub verdict : Bool → List Bytes → Bool → List Rule → Bool
verdict is_dir segs ignored [] = ignored
verdict is_dir segs ignored (rule ∷ rules) =
    verdict is_dir segs (if applies is_dir segs rule then not rule.negated else ignored) rules

unfoldable pub is_ignored : Ignore → Bytes → Bool → Bool
is_ignored ignore rel_path is_dir = verdict is_dir (pieces b'/' rel_path) false ignore.rules
