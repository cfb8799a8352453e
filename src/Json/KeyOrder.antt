-- ===== src/Json/KeyOrder.antt =====
-- Proofs on `canonical_json` of src/ident.rs and the order of members.
use tally_vcs.Prelude.{
  Bool, true, false, List, [], ◌∷◌, ◌≡◌, refl, sym, ap, ◌∙◌, inl, inr, arith, Result, ok, err,
  invalid, ◌>>=◌, Bool-cases,
}
use tally_vcs.Prelude.Bytes.{Bytes, str_eq, str_lt, str_lt_irrefl, str_lt_trans, str_lt_total}
use tally_vcs.Json.{Value, object, Members, member}
use tally_vcs.Json.Canonical.{insert_text, canonical_json, canonical_members}
use tally_vcs.Json.Floats.{OkUnless, canonical_json-OkUnless}

-- The same members, with distinct keys, in another order.
pub data Reordered : Members → Members → Type 0 where
  same : (ms : Members) → Reordered ms ms
  skip :
      (k : Bytes) (v : Value) {ms ns : Members}
      → Reordered ms ns
      → Reordered (member k v ms) (member k v ns)
  swap :
      (j k : Bytes) (v w : Value) {ms ns : Members}
      → str_eq j k ≡ false
      → Reordered ms ns
      → Reordered (member j v (member k w ms)) (member k w (member j v ns))
  trans : {ms ns os : Members} → Reordered ms ns → Reordered ns os → Reordered ms os

str_lt_asym : (a b : Bytes) → str_lt a b ≡ true → str_lt b a ≡ false
str_lt_asym a b h = elim (Bool-cases (str_lt b a)) [
  | inl k ↦ let q = str_lt_trans a b a h k in let r = str_lt_irrefl a in cc
  | inr k ↦ k
]

insert_text_comm :
    (j k s t : Bytes) (l : List (Bytes × Bytes))
    → str_eq j k ≡ false
    → insert_text j s (insert_text k t l) ≡ insert_text k t (insert_text j s l)
unfolding insert_text
insert_text_comm j k s t [] ne = ground (arith, str_lt_asym j k, str_lt_total j k)
insert_text_comm j k s t ((i, u) ∷ l) ne = ground (
  arith,
  insert_text_comm j k s t l,
  str_lt_asym j k,
  str_lt_total j k,
  str_lt_trans i j k,
  str_lt_trans i k j,
  str_lt_trans j i k,
  str_lt_trans k i j,
  str_lt_asym i j,
  str_lt_asym i k,
)

abbrev IsInvalid : {A : Type 0} → Result A → Type 0
IsInvalid (ok a) = Unit
IsInvalid (err e) = e ≡ invalid

OkUnless→IsInvalid : {A : Type 0} (b : Bool) (r : Result A) → OkUnless b r → IsInvalid r
OkUnless→IsInvalid b (ok a) h = tt
OkUnless→IsInvalid b (err e) h = h.1

abbrev add_member :
    Bytes → Result Bytes → Result (List (Bytes × Bytes)) → Result (List (Bytes × Bytes))
add_member k r m = r >>= λ text. m >>= λ texts. ok (insert_text k text texts)

add_member_comm :
    (j k : Bytes) (r s : Result Bytes) (m : Result (List (Bytes × Bytes)))
    → str_eq j k ≡ false
    → IsInvalid r
    → IsInvalid s
    → add_member j r (add_member k s m) ≡ add_member k s (add_member j r m)
add_member_comm j k (ok a) (ok b) (ok texts) ne h i = ap ok (insert_text_comm j k a b texts ne)
add_member_comm j k (ok a) (ok b) (err e) ne h i = refl
add_member_comm j k (ok a) (err d) m ne h i = refl
add_member_comm j k (err d) (ok b) m ne h i = go m
  where
    go :
        (n : Result (List (Bytes × Bytes)))
        → add_member j (err d) (add_member k (ok b) n)
          ≡ add_member k (ok b) (add_member j (err d) n)
    go n = refl
add_member_comm j k (err c) (err d) m ne h i = ap err (h ∙ sym i)

value-IsInvalid : (v : Value) → IsInvalid (canonical_json v)
value-IsInvalid v = OkUnless→IsInvalid _ _ (canonical_json-OkUnless v)

canonical_members-Reordered :
    {ms ns : Members} → Reordered ms ns → canonical_members ms ≡ canonical_members ns
unfolding canonical_json
canonical_members-Reordered (same ms) = refl
canonical_members-Reordered (skip k v r) =
    ap (add_member k (canonical_json v)) (canonical_members-Reordered r)
canonical_members-Reordered (swap j k v w {ms = ms} ne r) =
    add_member_comm j k (canonical_json v) (canonical_json w) (canonical_members ms) ne
      (value-IsInvalid v) (value-IsInvalid w)
    ∙ ap
        (λ (m : Result (List (Bytes × Bytes))).
          add_member k (canonical_json w) (add_member j (canonical_json v) m))
        (canonical_members-Reordered r)
canonical_members-Reordered (trans r q) =
    canonical_members-Reordered r ∙ canonical_members-Reordered q

-- Objects that hold the same members in different orders have the same canonical text, or the same
-- error, if the keys that change places are distinct.
pub canonical_json-Reordered :
    {ms ns : Members} → Reordered ms ns → canonical_json (object ms) ≡ canonical_json (object ns)
unfolding canonical_json
canonical_json-Reordered r = rw (canonical_members-Reordered r) refl
