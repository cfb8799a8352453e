-- ===== src/Json/RecordId.antt =====
-- `record_id` and `verify_record_id` of src/ident.rs.
use tally_vcs.Prelude.{
  Option, none, some, ◌≡◌, refl, ap, ◌∙◌, arith, if◌then◌else◌, Result, ok, err, invalid, corrupt,
  ◌>>=◌, ok_or, >>=-eq-ok, ok_or-eq-ok,
}
use tally_vcs.Prelude.Bytes.{Bytes, bytes, str_eq, str_eq_iff, str_eq_refl}
use tally_vcs.Ident.Hex.{Sha3, sha3_hex}
use tally_vcs.Json.{Value, null, bool, number, string, array, object, Members, stop, member}
use tally_vcs.Json.Canonical.{canonical_json}

abbrev pub id_key : Bytes
id_key = bytes "id"

-- `map.remove(key)`
unfoldable pub remove_member : Bytes → Members → Members
remove_member key stop = stop
remove_member key (member k v ms) =
    let rest = remove_member key ms in if str_eq k key then rest else member k v rest

-- `map.get(key)`
unfoldable pub get_member : Bytes → Members → Option Value
get_member key stop = none
get_member key (member k v ms) = if str_eq k key then some v else get_member key ms

-- `value.get(key)`
unfoldable pub get_value : Bytes → Value → Option Value
get_value key (object ms) = get_member key ms
get_value key _ = none

-- `.and_then(|v| v.as_str())`
unfoldable pub as_str : Option Value → Option Bytes
as_str (some (string s)) = some s
as_str (some _) = none
as_str none = none

unfoldable pub record_id : ⦃h : Sha3⦄ → Value → Result Bytes
record_id (object ms) = do
  text ← canonical_json (object (remove_member id_key ms))
  ok (sha3_hex text)
record_id _ = err invalid

unfoldable pub verify_record_id : ⦃h : Sha3⦄ → Value → Result (Unit {0})
verify_record_id value = do
  claimed ← ok_or (as_str (get_value id_key value)) corrupt
  actual ← record_id value
  if str_eq claimed actual then ok tt else err corrupt

-- Sealing: the record with its id put in.
abbrev pub with_id : Bytes → Members → Value
with_id id ms = object (member id_key (string id) (remove_member id_key ms))

remove_member_twice :
    (key : Bytes) (ms : Members) → remove_member key (remove_member key ms) ≡ remove_member key ms
unfolding remove_member
remove_member_twice key stop = refl
remove_member_twice key (member k v ms) = ground (arith, remove_member_twice key ms)

module _ ⦃h : Sha3⦄ where
  -- The id does not depend on the id that is stored: putting it in keeps it.
  pub record_id-with_id :
      (ms : Members) (id : Bytes) → record_id (with_id id ms) ≡ record_id (object ms)
  unfolding record_id remove_member
  record_id-with_id ms id =
      rw (str_eq_refl id_key, if◌then◌else◌) (rw (remove_member_twice id_key ms) refl)

  -- If a record has an id, the record with that id put in passes verification.
  pub verify_sealed :
      (ms : Members) (id : Bytes)
      → record_id (object ms) ≡ ok id
      → verify_record_id (with_id id ms) ≡ ok tt
  unfolding verify_record_id get_value get_member as_str
  verify_sealed ms id e =
      rw (str_eq_refl id_key, if◌then◌else◌)
        (rw (record_id-with_id ms id ∙ e) (rw (str_eq_refl id) refl))

  -- If a record passes verification, its id is the hash of the canonical text of its other
  -- members.
  pub verify_record_id-eq-ok :
      (ms : Members)
      → verify_record_id (object ms) ≡ ok tt
      → (text : Bytes) × (canonical_json (object (remove_member id_key ms)) ≡ ok text)
        × (get_member id_key ms ≡ some (string (sha3_hex text)))
  unfolding verify_record_id record_id get_value as_str
  verify_record_id-eq-ok ms e =
      let (claimed, hc, k₁) = >>=-eq-ok (ok_or (as_str (get_member id_key ms)) corrupt) _ e in
      let (actual, ha, k₂) = >>=-eq-ok (record_id (object ms)) _ k₁ in
      let (text, ht, k₃) = >>=-eq-ok (canonical_json (object (remove_member id_key ms))) _ ha in
      let same : claimed ≡ sha3_hex text = ground (arith, str_eq_iff claimed actual) in
      (
        text,
        ht,
        as_str→ _ claimed (ok_or-eq-ok _ corrupt hc) ∙ ap (λ (s : Bytes). some (string s)) same,
      )
    where
      as_str→ : (o : Option Value) (s : Bytes) → as_str o ≡ some s → o ≡ some (string s)
      as_str→ (some (string t)) s k = cc
      as_str→ (some null) s k = absurd (cc)
      as_str→ (some (bool b)) s k = absurd (cc)
      as_str→ (some (number n)) s k = absurd (cc)
      as_str→ (some (array vs)) s k = absurd (cc)
      as_str→ (some (object os)) s k = absurd (cc)
      as_str→ none s k = absurd (cc)
