-- ===== src/BTreeMap.antt =====
-- `BTreeMap<String, V>` of the standard library: an association list in the order of its keys.
pub mod Laws
pub mod Order
use tally_vcs.Prelude.{ℕ, Bool, true, false, List, [], ◌∷◌, Option, none, some, if◌then◌else◌, ◌≡◌}
use tally_vcs.Prelude.Bytes.{Bytes, str_eq, str_lt}

abbrev pub BTreeMap {ℓ} : Type ℓ → Type ℓ
BTreeMap V = List (Bytes × V)

module _ {ℓ} {V : Type ℓ} where
  -- `m.get(k)`
  unfoldable pub get : Bytes → BTreeMap V → Option V
  get k [] = none
  get k ((j, v) ∷ m) = if str_eq k j then some v else get k m

  -- `m.insert(k, v)`
  unfoldable pub insert : Bytes → V → BTreeMap V → BTreeMap V
  insert k v [] = (k, v) ∷ []
  insert k v ((j, w) ∷ m) =
      if str_eq k j
      then (k, v) ∷ m
      else if str_lt k j
      then (k, v) ∷ (j, w) ∷ m
      else (j, w) ∷ insert k v m

  -- `m.remove(k)`
  unfoldable pub remove : Bytes → BTreeMap V → BTreeMap V
  remove k [] = []
  remove k ((j, w) ∷ m) = if str_eq k j then m else (j, w) ∷ remove k m

  -- `m.values()`
  unfoldable pub values : BTreeMap V → List V
  values [] = []
  values ((j, v) ∷ m) = v ∷ values m

  -- `m.contains_key(k)`
  abbrev pub is_some : Option V → Bool
  is_some none = false
  is_some (some v) = true

  abbrev pub contains_key : Bytes → BTreeMap V → Bool
  contains_key k m = is_some (get k m)

  -- Every key of the map lies above `k`.
  abbrev pub IsAbove : Bytes → BTreeMap V → Type 0
  IsAbove k [] = Unit
  IsAbove k ((j, v) ∷ m) = (str_lt k j ≡ true) × IsAbove k m

  abbrev pub IsSorted : BTreeMap V → Type 0
  IsSorted [] = Unit
  IsSorted ((j, v) ∷ m) = IsAbove j m × IsSorted m
