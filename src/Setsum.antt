-- ===== src/Setsum.antt =====
-- The `setsum` crate, which src/ident.rs wraps as `Sum`: a parameter of the model, with what its
-- documentation promises. The sums form an abelian group, an item is hashed to an element of it,
-- and `insert` and `remove` add and subtract that element.
use tally_vcs.Prelude.{
  Bool, true, ◌≡◌, ◌↔◌, Option, some, sym, ap, ◌∙◌, Result, ok, err, corrupt, ok_or, if◌then◌else◌,
}
use tally_vcs.Prelude.Bytes.{Bytes}
use tally_vcs.Ident.Hex.{is_hex64}

pub record Setsum : Type 1 where
  pub Carrier : Type 0
  pub default : Carrier
  pub insert : Carrier → Bytes → Carrier
  pub remove : Carrier → Bytes → Carrier
  pub add : Carrier → Carrier → Carrier
  pub sub : Carrier → Carrier → Carrier
  pub hexdigest : Carrier → Bytes
  pub from_hexdigest : Bytes → Option Carrier
  pub eq : Carrier → Carrier → Bool
  pub eq_iff : (a b : Carrier) → (eq a b ≡ true) ↔ (a ≡ b)
  pub add_comm : (a b : Carrier) → add a b ≡ add b a
  pub add_assoc : (a b c : Carrier) → add (add a b) c ≡ add a (add b c)
  pub add-default : (a : Carrier) → add a default ≡ a
  pub sub-add : (a b : Carrier) → sub (add a b) b ≡ a
  pub add-sub : (a b : Carrier) → add (sub a b) b ≡ a
  pub insert_lem : (a : Carrier) (x : Bytes) → insert a x ≡ add a (insert default x)
  pub remove_lem : (a : Carrier) (x : Bytes) → remove a x ≡ sub a (insert default x)
  pub hexdigest-is_hex64 : (a : Carrier) → is_hex64 (hexdigest a) ≡ true
  pub from_hexdigest-hexdigest : (a : Carrier) → from_hexdigest (hexdigest a) ≡ some a

module _ ⦃S : Setsum⦄ where
  -- `Sum`: a newtype over the crate's type, whose operations are those of the crate.
  abbrev pub Sum : Type 0
  Sum = S.Carrier

  abbrev pub zero_sum : Sum
  zero_sum = S.default

  abbrev pub hexdigest : Sum → Bytes
  hexdigest = S.hexdigest

  -- `Sum::from_hexdigest`
  unfoldable pub from_hexdigest : Bytes → Result Sum
  from_hexdigest s = if is_hex64 s then ok_or (S.from_hexdigest s) corrupt else err corrupt

  pub add_right_comm : (a b c : Sum) → S.add (S.add a b) c ≡ S.add (S.add a c) b
  add_right_comm a b c = S.add_assoc a b c ∙ ap (S.add a) (S.add_comm b c) ∙ sym (S.add_assoc a c b)

  pub remove-insert : (s : Sum) (x : Bytes) → S.remove (S.insert s x) x ≡ s
  remove-insert s x =
      cc (S.remove_lem (S.insert s x) x, S.insert_lem s x, S.sub-add s (S.insert S.default x))

  pub insert-remove : (s : Sum) (x : Bytes) → S.insert (S.remove s x) x ≡ s
  insert-remove s x =
      cc (S.insert_lem (S.remove s x) x, S.remove_lem s x, S.add-sub s (S.insert S.default x))

  pub insert_injective : (a b : Sum) (x : Bytes) → S.insert a x ≡ S.insert b x → a ≡ b
  insert_injective a b x e = cc (remove-insert a x, remove-insert b x)

  -- Two insertions commute.
  pub insert_comm : (s : Sum) (x y : Bytes) → S.insert (S.insert s x) y ≡ S.insert (S.insert s y) x
  insert_comm s x y = cc (
    S.insert_lem (S.insert s x) y,
    S.insert_lem (S.insert s y) x,
    S.insert_lem s x,
    S.insert_lem s y,
    add_right_comm s (S.insert S.default x) (S.insert S.default y),
  )

  -- An insertion and a removal commute.
  pub insert-remove_comm :
      (s : Sum) (x y : Bytes) → S.insert (S.remove s x) y ≡ S.remove (S.insert s y) x
  insert-remove_comm s x y = insert_injective _ _ x (
      insert_comm (S.remove s x) y x
      ∙ ap (λ (t : Sum). S.insert t y) (insert-remove s x)
      ∙ sym (insert-remove (S.insert s y) x))

  -- Two removals commute.
  pub remove_comm : (s : Sum) (x y : Bytes) → S.remove (S.remove s x) y ≡ S.remove (S.remove s y) x
  remove_comm s x y = insert_injective _ _ y (
      insert-remove (S.remove s x) y
      ∙ sym (ap (λ (t : Sum). S.remove t x) (insert-remove s y))
      ∙ sym (insert-remove_comm (S.remove s y) x y))

  -- The digest of a sum determines it.
  pub hexdigest_injective : (a b : Sum) → hexdigest a ≡ hexdigest b → a ≡ b
  hexdigest_injective a b e = cc (S.from_hexdigest-hexdigest a, S.from_hexdigest-hexdigest b)

  -- Reading the rendering of a sum gives it back.
  pub from_hexdigest-hexdigest : (a : Sum) → from_hexdigest (hexdigest a) ≡ ok a
  unfolding from_hexdigest
  from_hexdigest-hexdigest a = rw (S.hexdigest-is_hex64 a, S.from_hexdigest-hexdigest a)
