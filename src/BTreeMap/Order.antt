-- ===== src/BTreeMap/Order.antt =====
-- Laws of the order of the keys of the map.
use tally_vcs.Prelude.{true, [], ◌∷◌, none, ◌≡◌, refl, arith, Bool-cases, inl, inr}
use tally_vcs.Prelude.Bytes.{
  Bytes, str_eq, str_eq→eq, str_lt, str_lt_trans, str_lt_total, str_lt→ne,
}
use tally_vcs.BTreeMap.{BTreeMap, get, insert, remove, IsAbove, IsSorted}

module _ {ℓ} {V : Type ℓ} where
  pub IsAbove-trans : (j k : Bytes) (m : BTreeMap V) → str_lt j k ≡ true → IsAbove k m → IsAbove j m
  IsAbove-trans j k [] h a = tt
  IsAbove-trans j k ((i, v) ∷ m) h a = (str_lt_trans j k i h a.0, IsAbove-trans j k m h a.1)

  -- A key below all others is absent.
  pub get_above : (k : Bytes) (m : BTreeMap V) → IsAbove k m → get k m ≡ none
  unfolding get
  get_above k [] a = refl
  get_above k ((j, v) ∷ m) a = ground (arith, str_lt→ne k j, get_above k m)

  insert-IsAbove :
      (i k : Bytes) (v : V) (m : BTreeMap V)
      → str_lt i k ≡ true
      → IsAbove i m
      → IsAbove i (insert k v m)
  unfolding insert
  insert-IsAbove i k v [] h a = (h, tt)
  insert-IsAbove i k v ((j, w) ∷ m) h a = elim (Bool-cases (str_eq k j)) [
    | inl e ↦ rw e (h, a.1)
    | inr n ↦ rw n (elim (Bool-cases (str_lt k j)) [
      | inl l ↦ rw l (h, (a.0, a.1))
      | inr g ↦ rw g (a.0, insert-IsAbove i k v m h a.1)
    ])
  ]

  pub insert-IsSorted : (k : Bytes) (v : V) (m : BTreeMap V) → IsSorted m → IsSorted (insert k v m)
  unfolding insert
  insert-IsSorted k v [] s = (tt, tt)
  insert-IsSorted k v ((j, w) ∷ m) s = elim (Bool-cases (str_eq k j)) [
    | inl e ↦ rw e (let q : k ≡ j = str_eq→eq k j e in rw q s)
    | inr n ↦ rw n (elim (Bool-cases (str_lt k j)) [
      | inl l ↦ rw l ((l, IsAbove-trans k j m l s.0), s)
      | inr g ↦ rw g (insert-IsAbove j k v m (str_lt_total k j n g) s.0, insert-IsSorted k v m s.1)
    ])
  ]

  remove-IsAbove : (i k : Bytes) (m : BTreeMap V) → IsAbove i m → IsAbove i (remove k m)
  unfolding remove
  remove-IsAbove i k [] a = tt
  remove-IsAbove i k ((j, w) ∷ m) a = elim (Bool-cases (str_eq k j)) [
    | inl e ↦ rw e a.1
    | inr n ↦ rw n (a.0, remove-IsAbove i k m a.1)
  ]

  pub remove-IsSorted : (k : Bytes) (m : BTreeMap V) → IsSorted m → IsSorted (remove k m)
  unfolding remove
  remove-IsSorted k [] s = tt
  remove-IsSorted k ((j, w) ∷ m) s = elim (Bool-cases (str_eq k j)) [
    | inl e ↦ rw e s.1
    | inr n ↦ rw n (remove-IsAbove j k m s.0, remove-IsSorted k m s.1)
  ]
