-- ===== src/Json/Canonical.antt =====
-- `canonical_json` of src/ident.rs. The text of each member is made first and the members are put in
-- order after that; the text of a member does not depend on what was written before it.
use tally_vcs.Prelude.{
  ℕ, zero, suc, ◌+◌, ◌/◌, ◌%◌, true, false, List, [], ◌∷◌, ◌++◌, ltb, if◌then◌else◌, Result, ok,
  err, invalid, ◌>>=◌,
}
use tally_vcs.Prelude.Bytes.{Bytes, bytes, str_lt}
use tally_vcs.Json.{
  Number, natural, negative, float, Value, null, bool, number, string, array, object, Values, end,
  item, Members, stop, member,
}
use tally_vcs.Json.Strings.{canonical_string}

-- `u.to_string()`: an integer of 64 bits has at most 20 digits.
unfoldable pub decimal_onto : ℕ → ℕ → Bytes → Bytes
decimal_onto zero n out = out
decimal_onto (suc fuel) n out =
    let more = decimal_onto fuel (n / 10) ((b'0' + n % 10) ∷ out) in
    if ltb n 10 then (b'0' + n) ∷ out else more

abbrev pub decimal : ℕ → Bytes
decimal n = decimal_onto 20 n []

unfoldable pub canonical_number : Number → Result Bytes
unfolding decimal_onto
canonical_number (natural n) = ok (decimal n)
canonical_number (negative n) = ok (b'-' ∷ decimal (n + 1))
canonical_number float = err invalid

-- `keys.sort_unstable_by(|a, b| a.as_bytes().cmp(b.as_bytes()))`, each key with the text of its
-- value; the keys of a map are distinct.
unfoldable pub insert_text : Bytes → Bytes → List (Bytes × Bytes) → List (Bytes × Bytes)
insert_text key text [] = (key, text) ∷ []
insert_text key text ((k, t) ∷ rest) =
    if str_lt k key then (k, t) ∷ insert_text key text rest else (key, text) ∷ (k, t) ∷ rest

unfoldable pub member_text : Bytes × Bytes → Bytes
member_text m = canonical_string m.0 ++ (b':' ∷ m.1)

-- `if i > 0 { out.push(',') }` before each member but the first.
unfoldable pub join_members : List (Bytes × Bytes) → Bytes
join_members [] = []
join_members (m ∷ []) = member_text m
join_members (m ∷ n ∷ rest) = member_text m ++ (b',' ∷ join_members (n ∷ rest))

unfoldable pub join_items : List Bytes → Bytes
join_items [] = []
join_items (t ∷ []) = t
join_items (t ∷ u ∷ rest) = t ++ (b',' ∷ join_items (u ∷ rest))

unfoldable mutual
  pub canonical_json : Value → Result Bytes
  canonical_json null = ok (bytes "null")
  canonical_json (bool true) = ok (bytes "true")
  canonical_json (bool false) = ok (bytes "false")
  canonical_json (number n) = canonical_number n
  canonical_json (string s) = ok (canonical_string s)
  canonical_json (array vs) =
      canonical_items vs >>= λ texts. ok (b'[' ∷ (join_items texts ++ (b']' ∷ [])))
  canonical_json (object ms) =
      canonical_members ms >>= λ texts. ok (b'{' ∷ (join_members texts ++ (b'}' ∷ [])))

  pub canonical_items : Values → Result (List Bytes)
  canonical_items end = ok []
  canonical_items (item v vs) =
      canonical_json v >>= λ text. canonical_items vs >>= λ texts. ok (text ∷ texts)

  -- The members in the order of their keys.
  pub canonical_members : Members → Result (List (Bytes × Bytes))
  canonical_members stop = ok []
  canonical_members (member k v ms) =
      canonical_json v >>= λ text. canonical_members ms >>= λ texts. ok (insert_text k text texts)
