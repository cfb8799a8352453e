-- ===== src/Json/OneLine.antt =====
-- Proofs on `canonical_json` of src/ident.rs: what it writes is one line.
use tally_vcs.Prelude.{
  ℕ, zero, suc, ◌+◌, ◌/◌, ◌%◌, true, false, List, [], ◌∷◌, ◌++◌, ◌≡◌, refl, arith, inl, inr, ltb,
  if◌then◌else◌, Bool-cases, ok, >>=-eq-ok, ok_injective, All,
}
use tally_vcs.Prelude.Bytes.{Bytes, contains, contains-append, str_lt}
use tally_vcs.Ident.Hex.{hex_digit}
use tally_vcs.Json.{
  Number, natural, negative, float, Value, null, bool, number, string, array, object, Values, end,
  item, Members, stop, member,
}
use tally_vcs.Json.Canonical.{
  decimal_onto, canonical_number, canonical_json, canonical_items, canonical_members, insert_text,
  member_text, join_members, join_items,
}
use tally_vcs.Json.Strings.{escape_char, escape, canonical_string}

-- No byte is an LF.
abbrev pub IsOneLine : Bytes → Type 0
IsOneLine s = contains 10 s ≡ false

append-IsOneLine : (a b : Bytes) → IsOneLine a → IsOneLine b → IsOneLine (a ++ b)
append-IsOneLine a b h k = ground (arith, contains-append 10 a b)

escape_char-IsOneLine : (c : ℕ) → IsOneLine (escape_char c)
unfolding escape_char contains hex_digit
escape_char-IsOneLine c = ground arith

escape-IsOneLine : (s : Bytes) → IsOneLine (escape s)
unfolding escape
escape-IsOneLine [] = unfold contains in refl
escape-IsOneLine (c ∷ cs) =
    append-IsOneLine (escape_char c) (escape cs) (escape_char-IsOneLine c) (escape-IsOneLine cs)

canonical_string-IsOneLine : (s : Bytes) → IsOneLine (canonical_string s)
unfolding canonical_string contains
canonical_string-IsOneLine s = append-IsOneLine (escape s) (b'"' ∷ []) (escape-IsOneLine s) refl

decimal_onto-IsOneLine :
    (fuel n : ℕ) (out : Bytes) → IsOneLine out → IsOneLine (decimal_onto fuel n out)
unfolding decimal_onto contains
decimal_onto-IsOneLine zero n out h = h
decimal_onto-IsOneLine (suc fuel) n out h = elim (Bool-cases (ltb n 10)) [
  | inl e ↦ rw (e, if◌then◌else◌) (ground arith)
  | inr e ↦
      rw (e, if◌then◌else◌)
        (decimal_onto-IsOneLine fuel (n / 10) ((b'0' + n % 10) ∷ out) (ground arith))
]

canonical_number-IsOneLine :
    (n : Number) (text : Bytes) → canonical_number n ≡ ok text → IsOneLine text
unfolding canonical_number contains
canonical_number-IsOneLine (natural n) text h =
    rw (← ok_injective h) (decimal_onto-IsOneLine 20 n [] refl)
canonical_number-IsOneLine (negative n) text h =
    rw (← ok_injective h) (decimal_onto-IsOneLine 20 (n + 1) [] refl)
canonical_number-IsOneLine float text h = cc

-- A key with the text of its value.
abbrev TextIsOneLine : Bytes × Bytes → Type 0
TextIsOneLine m = IsOneLine m.1

insert_text-All :
    (key text : Bytes) (ms : List (Bytes × Bytes))
    → IsOneLine text
    → All TextIsOneLine ms
    → All TextIsOneLine (insert_text key text ms)
unfolding insert_text
insert_text-All key text [] h k = (h, tt)
insert_text-All key text ((j, t) ∷ rest) h k = elim (Bool-cases (str_lt j key)) [
  | inl e ↦ rw (e, if◌then◌else◌) (k.0, insert_text-All key text rest h k.1)
  | inr e ↦ rw (e, if◌then◌else◌) (h, k)
]

member_text-IsOneLine : (m : Bytes × Bytes) → IsOneLine m.1 → IsOneLine (member_text m)
unfolding member_text contains
member_text-IsOneLine (key, text) h =
    append-IsOneLine (canonical_string key) (b':' ∷ text) (canonical_string-IsOneLine key)
      (ground arith)

join_members-IsOneLine :
    (ms : List (Bytes × Bytes)) → All TextIsOneLine ms → IsOneLine (join_members ms)
unfolding join_members contains
join_members-IsOneLine [] h = refl
join_members-IsOneLine (m ∷ []) h = member_text-IsOneLine m h.0
join_members-IsOneLine (m ∷ n ∷ rest) h =
    let rest_lem = join_members-IsOneLine (n ∷ rest) h.1 in
    append-IsOneLine (member_text m) (b',' ∷ join_members (n ∷ rest)) (member_text-IsOneLine m h.0)
      (ground arith)

join_items-IsOneLine : (texts : List Bytes) → All IsOneLine texts → IsOneLine (join_items texts)
unfolding join_items contains
join_items-IsOneLine [] h = refl
join_items-IsOneLine (t ∷ []) h = h.0
join_items-IsOneLine (t ∷ u ∷ rest) h =
    let rest_lem = join_items-IsOneLine (u ∷ rest) h.1 in
    append-IsOneLine t (b',' ∷ join_items (u ∷ rest)) h.0 (ground arith)

enclosed :
    (first last : ℕ) (s : Bytes)
    → IsOneLine (first ∷ last ∷ [])
    → IsOneLine s
    → IsOneLine (first ∷ (s ++ (last ∷ [])))
unfolding contains
enclosed first last s h k = ground (arith, append-IsOneLine s (last ∷ []))

mutual
  unfolding canonical_json canonical_items canonical_members contains

  text-IsOneLine : (v : Value) (text : Bytes) → canonical_json v ≡ ok text → IsOneLine text
  text-IsOneLine null text h = rw (← ok_injective h) refl
  text-IsOneLine (bool true) text h = rw (← ok_injective h) refl
  text-IsOneLine (bool false) text h = rw (← ok_injective h) refl
  text-IsOneLine (number n) text h = canonical_number-IsOneLine n text h
  text-IsOneLine (string s) text h = rw (← ok_injective h) (canonical_string-IsOneLine s)
  text-IsOneLine (array vs) text h =
      let (texts, e, k) = >>=-eq-ok (canonical_items vs) _ h in
      rw (← ok_injective k) (
        enclosed b'[' b']' (join_items texts) refl
          (join_items-IsOneLine texts (items-IsOneLine vs texts e)))
  text-IsOneLine (object ms) text h =
      let (texts, e, k) = >>=-eq-ok (canonical_members ms) _ h in
      rw (← ok_injective k) (
        enclosed b'{' b'}' (join_members texts) refl
          (join_members-IsOneLine texts (members_one_line ms texts e)))

  items-IsOneLine :
      (vs : Values) (texts : List Bytes) → canonical_items vs ≡ ok texts → All IsOneLine texts
  items-IsOneLine end texts h = rw (← ok_injective h) tt
  items-IsOneLine (item v vs) texts h =
      let (text, e, k) = >>=-eq-ok (canonical_json v) _ h in
      let (rest, f, l) = >>=-eq-ok (canonical_items vs) _ k in
      rw (← ok_injective l) (text-IsOneLine v text e, items-IsOneLine vs rest f)

  members_one_line :
      (ms : Members) (texts : List (Bytes × Bytes))
      → canonical_members ms ≡ ok texts
      → All TextIsOneLine texts
  members_one_line stop texts h = rw (← ok_injective h) tt
  members_one_line (member key v ms) texts h =
      let (text, e, k) = >>=-eq-ok (canonical_json v) _ h in
      let (rest, f, l) = >>=-eq-ok (canonical_members ms) _ k in
      rw (← ok_injective l)
        (insert_text-All key text rest (text-IsOneLine v text e) (members_one_line ms rest f))

-- Canonical JSON is one line: it holds no LF.
pub canonical_json-IsOneLine :
    (v : Value) (text : Bytes) → canonical_json v ≡ ok text → IsOneLine text
canonical_json-IsOneLine = text-IsOneLine
