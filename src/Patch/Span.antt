-- ===== src/Patch/Span.antt =====
-- `count_occurrences`, `find_unique` and `replace_unique` of src/patch.rs.
use tally_vcs.Prelude.{
  ℕ, zero, suc, ◌+◌, ◌-◌, Bool, ◌||◌, List, [], ◌∷◌, ◌++◌, if◌then◌else◌, length, take, drop, ltb,
  ◌==◌, Result, ok, err, precondition,
}
use tally_vcs.Prelude.Bytes.{Bytes, starts_with}

-- The offsets in `i..i + rounds` at which `needle` stands in a text whose part from `i` on is given.
unfoldable pub hits : ℕ → ℕ → Bytes → Bytes → List ℕ
hits zero i rest needle = []
hits (suc rounds) i rest needle =
    let later = hits rounds (i + 1) (drop 1 rest) needle in
    if starts_with needle rest then i ∷ later else later

-- `needle.is_empty() || needle.len() > haystack.len()`
abbrev pub cannot_occur : Bytes → Bytes → Bool
cannot_occur haystack needle = length needle == 0 || ltb (length haystack) (length needle)

abbrev pub all_hits : Bytes → Bytes → List ℕ
all_hits haystack needle = hits (suc (length haystack - length needle)) 0 haystack needle

unfoldable pub count_occurrences : Bytes → Bytes → ℕ
count_occurrences haystack needle =
    if cannot_occur haystack needle then 0 else length (all_hits haystack needle)

-- A `Result<T, usize>` whose error is the number of occurrences.
pub data Counted {ℓ} (A : Type ℓ) : Type ℓ where
  found : A → Counted A
  occurs : ℕ → Counted A

-- `match (hits.next(), hits.next())`
unfoldable pub unique_hit : List ℕ → Counted ℕ
unique_hit [] = occurs 0
unique_hit (at ∷ []) = found at
unique_hit (at ∷ other ∷ more) = occurs (2 + length more)

unfoldable pub find_unique : Bytes → Bytes → Counted ℕ
find_unique haystack needle =
    if cannot_occur haystack needle then occurs 0 else unique_hit (all_hits haystack needle)

abbrev pub splice : Bytes → Bytes → Bytes → Counted ℕ → Counted Bytes
splice content old new (found at) =
    found (take at content ++ (new ++ drop (at + length old) content))
splice content old new (occurs n) = occurs n

unfoldable pub replace_unique : Bytes → Bytes → Bytes → Counted Bytes
replace_unique content old new = splice content old new (find_unique content old)

-- The `map_err` of `apply_intent`.
abbrev pub replaced : Counted Bytes → Result Bytes
replaced (found out) = ok out
replaced (occurs n) = err precondition
