-- ===== src/BTreeMap/Laws.antt =====
-- Laws of `get`, `insert` and `remove` of the map.
use tally_vcs.Prelude.{
  true, false, [], ◌∷◌, none, some, if◌then◌else◌, ◌≡◌, refl, sym, ◌∙◌, arith, Bool-cases, inl, inr,
  All, subst,
}
use tally_vcs.Prelude.Bytes.{
  Bytes, str_eq, str_eq→eq, str_eq_refl, str_eq_iff, str_lt, str_lt_total,
}
use tally_vcs.BTreeMap.{BTreeMap, get, insert, remove, IsAbove, IsSorted}
use tally_vcs.BTreeMap.Order.{get_above, IsAbove-trans}

module _ {ℓ} {V : Type ℓ} where
  pub get-insert :
      (k j : Bytes) (v : V) (m : BTreeMap V)
      → get j (insert k v m) ≡ (if str_eq j k then some v else get j m)
  unfolding get insert
  get-insert k j v [] = refl
  get-insert k j v ((i, w) ∷ m) =
      ground (arith, str_eq_iff j k, str_eq_iff k i, str_eq_iff j i, get-insert k j v m)

  pub get-remove :
      (k j : Bytes) (m : BTreeMap V)
      → IsSorted m
      → get j (remove k m) ≡ (if str_eq j k then none else get j m)
  unfolding get remove
  get-remove k j [] s = ground arith
  get-remove k j ((i, w) ∷ m) s = elim (Bool-cases (str_eq k i)) [
    | inl e ↦ rw e (elim (Bool-cases (str_eq j k)) [
      | inl f ↦
          let q : i ≡ j = sym (str_eq→eq j k f ∙ str_eq→eq k i e) in
          rw f (get_above j m (rw q at s.0))
      | inr n ↦ let q : k ≡ i = str_eq→eq k i e in rw (← q) (rw (n, if◌then◌else◌))
    ])
    | inr n ↦
        rw n (ground (arith, str_eq_iff j k, str_eq_iff k i, str_eq_iff j i, get-remove k j m s.1))
  ]

  get-head : (k : Bytes) (v : V) (m : BTreeMap V) → get k ((k, v) ∷ m) ≡ some v
  unfolding get
  get-head k v m = rw (str_eq_refl k)

  get-nil : (k : Bytes) → get {V = V} k [] ≡ none
  unfolding get
  get-nil k = refl

  get-tail :
      (k i : Bytes) (v : V) (m : BTreeMap V) → str_eq k i ≡ false → get k ((i, v) ∷ m) ≡ get k m
  unfolding get
  get-tail k i v m e = rw e

  -- A key below the first one is not found.
  get_before :
      (i j : Bytes) (w : V) (n : BTreeMap V)
      → str_lt i j ≡ true
      → IsAbove j n
      → get i ((j, w) ∷ n) ≡ none
  get_before i j w n l a = get_above i ((j, w) ∷ n) (l, IsAbove-trans i j n l a)

  tails_agree :
      (i : Bytes) (v w : V) (m n : BTreeMap V)
      → IsAbove i m
      → IsAbove i n
      → ((k : Bytes) → get k ((i, v) ∷ m) ≡ get k ((i, w) ∷ n))
      → (k : Bytes) → get k m ≡ get k n
  tails_agree i v w m n a b h k = elim (Bool-cases (str_eq k i)) [
    | inl e ↦ let q = str_eq→eq k i e in rw q (get_above i m a ∙ sym (get_above i n b))
    | inr d ↦ sym (get-tail k i v m d) ∙ h k ∙ get-tail k i w n d
  ]

  -- Two ordered maps with the same answer for every key are equal.
  pub map_ext :
      (m n : BTreeMap V) → IsSorted m → IsSorted n → ((k : Bytes) → get k m ≡ get k n) → m ≡ n
  map_ext [] [] s t h = refl
  map_ext [] ((j, w) ∷ n) s t h = cc (h j, get-head j w n, get-nil j)
  map_ext ((i, v) ∷ m) [] s t h = cc (h i, get-head i v m, get-nil i)
  map_ext ((i, v) ∷ m) ((j, w) ∷ n) s t h = elim (Bool-cases (str_eq i j)) [
    | inl e ↦
        let q : j ≡ i = sym (str_eq→eq i j e) in
        let b : IsAbove i n = rw q at t.0 in
        let h' : (k : Bytes) → get k ((i, v) ∷ m) ≡ get k ((i, w) ∷ n) = rw q at h in
        let tails = map_ext m n s.1 t.1 (tails_agree i v w m n s.0 b h') in
        let heads : v ≡ w = cc (h' i, get-head i v m, get-head i w n) in cc
    | inr d ↦ elim (Bool-cases (str_lt i j)) [
      | inl l ↦ cc (h i, get-head i v m, get_before i j w n l t.0)
      | inr g ↦ cc (h j, get-head j w n, get_before j i v m (str_lt_total i j d g) s.0)
    ]
  ]

module _ {ℓ κ} {V : Type ℓ} (P : Bytes × V → Type κ) where
  -- A property of all entries is kept.
  pub insert-All : (k : Bytes) (v : V) (m : BTreeMap V) → P (k, v) → All P m → All P (insert k v m)
  unfolding insert
  insert-All k v [] p a = (p, tt)
  insert-All k v ((j, w) ∷ m) p a = elim (Bool-cases (str_eq k j)) [
    | inl e ↦ rw e (p, a.1)
    | inr n ↦ rw n (elim (Bool-cases (str_lt k j)) [
      | inl l ↦ rw l (p, a)
      | inr g ↦ rw g (a.0, insert-All k v m p a.1)
    ])
  ]

  pub remove-All : (k : Bytes) (m : BTreeMap V) → All P m → All P (remove k m)
  unfolding remove
  remove-All k [] a = tt
  remove-All k ((j, w) ∷ m) a = elim (Bool-cases (str_eq k j)) [
    | inl e ↦ rw e a.1
    | inr n ↦ rw n (a.0, remove-All k m a.1)
  ]

  pub get-All : (k : Bytes) (m : BTreeMap V) {v : V} → All P m → get k m ≡ some v → P (k, v)
  unfolding get
  get-All k [] a e = absurd (cc)
  get-All k ((j, w) ∷ m) {v} a e = elim (Bool-cases (str_eq k j)) [
    | inl q ↦
        let f : w ≡ v = ground arith in
        subst (λ (x : V). P (k, x)) f (subst (λ (i : Bytes). P (i, w)) (sym (str_eq→eq k j q)) a.0)
    | inr n ↦ get-All k m a.1 (sym (get-tail k j w m n) ∙ e)
  ]
