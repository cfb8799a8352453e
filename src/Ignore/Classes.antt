-- ===== src/Ignore/Classes.antt =====
-- The character classes of the glob language as relations, and `match_class` of src/ignore.rs.
use tally_vcs.Prelude.{
  ℕ, ◌≤◌, Bool, true, false, not, ◌&&◌, ◌||◌, List, [], ◌∷◌, Option, none, some, ◌≡◌, refl, sym, ap,
  ◌∙◌, arith, inl, inr, Bool-cases, ◌⊎◌, ◌==◌, if◌then◌else◌, true≢false, subst,
}
use tally_vcs.Prelude.Bytes.{Bytes}
use tally_vcs.Ignore.Rules.{class_loop, match_class, in_range, xor}

-- A class lists characters and ranges of characters.
pub data Item : Type 0 where
  single : ℕ → Item
  span : ℕ → ℕ → Item

abbrev pub Holds : ℕ → Item → Type 0
Holds c (single x) = x ≡ c
Holds c (span lo hi) = (lo ≤ c) × (c ≤ hi)

abbrev pub Listed : ℕ → List Item → Type 0
Listed c [] = ⊥
Listed c (i ∷ is) = Holds c i ⊎ Listed c is

-- A bracket closes a class, unless it is the first character.
abbrev pub closes : Bool → ℕ → Bool
closes is_first x = x == b']' && not is_first

-- A dash makes a range with the character behind it, unless that is the closing bracket.
abbrev pub opens_range : Bytes → Bool
opens_range [] = false
opens_range (d ∷ []) = false
opens_range (d ∷ hi ∷ rest) = d == b'-' && not (hi == b']')

-- A pattern starts with the body of a class, up to its closing bracket: the items, and the rest.
pub data Body : Bool → Bytes → List Item → Bytes → Type 0 where
  close : {f : Bool} {rest : Bytes} (x : ℕ) → closes f x ≡ true → Body f (x ∷ rest) [] rest
  range :
      {f : Bool} {p rest : Bytes} {is : List Item} (lo d hi : ℕ)
      → closes f lo ≡ false
      → opens_range (d ∷ hi ∷ p) ≡ true
      → Body false p is rest
      → Body f (lo ∷ d ∷ hi ∷ p) (span lo hi ∷ is) rest
  char :
      {f : Bool} {p rest : Bytes} {is : List Item} (x : ℕ)
      → closes f x ≡ false
      → opens_range p ≡ false
      → Body false p is rest
      → Body f (x ∷ p) (single x ∷ is) rest

abbrev pub is_marked : Bytes → Bool
is_marked [] = false
is_marked (m ∷ p) = m == b'!' || m == b'^'

-- A class accepts a character: one of its items holds it, or none does and the class is negated.
pub data Accepts (c : ℕ) (rest : Bytes) : Bytes → Type 0 where
  among :
      {p : Bytes} {is : List Item}
      → is_marked p ≡ false
      → Body true p is rest
      → Listed c is
      → Accepts c rest p
  beside :
      {p : Bytes} {is : List Item} (m : ℕ)
      → is_marked (m ∷ p) ≡ true
      → Body true p is rest
      → ¬ Listed c is
      → Accepts c rest (m ∷ p)

-- The items as tests.
abbrev holds : ℕ → Item → Bool
holds c (single x) = x == c
holds c (span lo hi) = in_range lo hi c

abbrev member : ℕ → List Item → Bool
member c [] = false
member c (i ∷ is) = holds c i || member c is

holds→Holds : (c : ℕ) (i : Item) → holds c i ≡ true → Holds c i
holds→Holds c (single x) h = ground arith
holds→Holds c (span lo hi) h = (ground arith, ground arith)

Holds→holds : (c : ℕ) (i : Item) → Holds c i → holds c i ≡ true
Holds→holds c (single x) h = ground arith
Holds→holds c (span lo hi) (l, m) = ground arith

member→Listed : (c : ℕ) (is : List Item) → member c is ≡ true → Listed c is
member→Listed c [] h = absurd (true≢false (sym h))
member→Listed c (i ∷ is) h = elim (Bool-cases (holds c i)) [
  | inl y ↦ inl (holds→Holds c i y)
  | inr n ↦ inr (member→Listed c is (ground arith))
]

Listed→member : (c : ℕ) (is : List Item) → Listed c is → member c is ≡ true
Listed→member c [] h = absurd h
Listed→member c (i ∷ is) (inl h) = rw (Holds→holds c i h) refl
Listed→member c (i ∷ is) (inr l) = let k = Listed→member c is l in ground arith

-- What the loop answers for a body.
abbrev answer : ℕ → Bool → Bool → List Item → Bool
answer c negated hit is = xor (hit || member c is) negated

answer_next :
    (c : ℕ) (negated hit : Bool) (i : Item) (is : List Item)
    → answer c negated (hit || holds c i) is ≡ answer c negated hit (i ∷ is)
answer_next c negated true i is = refl
answer_next c negated false i is = refl

none-ne-some : {A : Type 0} {a : A} → ¬ (none ≡ some a)
none-ne-some h = cc

-- A class that ends here.
closed :
    {f : Bool} (c x : ℕ) (negated hit b : Bool) (p rest : Bytes)
    → closes f x ≡ true
    → ◌≡◌ {A = Option (Bool × Bytes)} (some (xor hit negated, p)) (some (b, rest))
    → (is : List Item) × Body f (x ∷ p) is rest × (b ≡ answer c negated hit is)
closed {f} c x negated hit b p rest y e =
    ([], subst (λ (r : Bytes). Body f (x ∷ p) [] r) (ground arith) (close x y), ground arith)

class_loop→Body :
    (c : ℕ) (negated hit f : Bool) (p : Bytes) (b : Bool) (rest : Bytes)
    → class_loop c negated hit f p ≡ some (b, rest)
    → (is : List Item) × Body f p is rest × (b ≡ answer c negated hit is)
unfolding class_loop
class_loop→Body c negated hit f [] b rest e = cc
class_loop→Body c negated hit f (x ∷ []) b rest e = elim (Bool-cases (closes f x)) [
  | inl y ↦ closed c x negated hit b [] rest y (rw (y, if◌then◌else◌) at e)
  | inr n ↦ absurd (none-ne-some (rw (n, if◌then◌else◌) at e))
]
class_loop→Body c negated hit f (x ∷ d ∷ []) b rest e = elim (Bool-cases (closes f x)) [
  | inl y ↦ closed c x negated hit b (d ∷ []) rest y (rw (class_loop, y) at e)
  | inr n ↦
      let (is, body, a) =
        class_loop→Body c negated (hit || x == c) false (d ∷ []) b rest (rw (class_loop, n) at e) in
      (single x ∷ is, char x n refl body, a ∙ answer_next c negated hit (single x) is)
]
class_loop→Body c negated hit f (x ∷ d ∷ hi ∷ p) b rest e = elim (Bool-cases (closes f x)) [
  | inl y ↦ closed c x negated hit b (d ∷ hi ∷ p) rest y (rw (class_loop, y) at e)
  | inr n ↦ elim (Bool-cases (d == b'-' && not (hi == b']'))) [
    | inl r ↦
        let (is, body, a) =
          class_loop→Body c negated (hit || in_range x hi c) false p b rest
            (rw (class_loop, n, r) at e) in
        (span x hi ∷ is, range x d hi n r body, a ∙ answer_next c negated hit (span x hi) is)
    | inr r ↦
        let (is, body, a) =
          class_loop→Body c negated (hit || x == c) false (d ∷ hi ∷ p) b rest
            (rw (class_loop, n, r) at e) in
        (single x ∷ is, char x n r body, a ∙ answer_next c negated hit (single x) is)
  ]
]

no-Body : {f : Bool} {is : List Item} {rest : Bytes} → ¬ Body f [] is rest
no-Body h = elim h [ ]

answered :
    (c : ℕ) (negated hit : Bool) (rest : Bytes)
    → ◌≡◌ {A = Option (Bool × Bytes)}
        (some (xor hit negated, rest))
        (some (answer c negated hit [], rest))
answered c negated true rest = refl
answered c negated false rest = refl

Body→class_loop :
    {f : Bool} {p : Bytes} {is : List Item} {rest : Bytes} (c : ℕ) (negated hit : Bool)
    → Body f p is rest
    → class_loop c negated hit f p ≡ some (answer c negated hit is, rest)
unfolding class_loop
Body→class_loop c negated hit (close {rest = []} x y) =
    rw (class_loop, y, if◌then◌else◌) (answered c negated hit [])
Body→class_loop c negated hit (close {rest = d ∷ []} x y) =
    rw (class_loop, y) (answered c negated hit (d ∷ []))
Body→class_loop c negated hit (close {rest = d ∷ hi ∷ p} x y) =
    rw (class_loop, y) (answered c negated hit (d ∷ hi ∷ p))
Body→class_loop c negated hit (range {p = p} {rest = rest} {is = is} lo d hi n r body) =
    let e = Body→class_loop c negated (hit || in_range lo hi c) body in
    rw (class_loop, n, r)
      (e ∙ ap (λ (a : Bool). some (a, rest)) (answer_next c negated hit (span lo hi) is))
Body→class_loop c negated hit (char {p = []} x n r body) = absurd (no-Body body)
Body→class_loop c negated hit (char {p = d ∷ []} {rest = rest} {is = is} x n r body) =
    let e = Body→class_loop c negated (hit || x == c) body in
    rw (class_loop, n)
      (e ∙ ap (λ (a : Bool). some (a, rest)) (answer_next c negated hit (single x) is))
Body→class_loop c negated hit (char {p = d ∷ hi ∷ p} {rest = rest} {is = is} x n r body) =
    let e = Body→class_loop c negated (hit || x == c) body in
    rw (class_loop, n, r)
      (e ∙ ap (λ (a : Bool). some (a, rest)) (answer_next c negated hit (single x) is))

-- match_class accepts a character exactly when the class does.
pub match_class→Accepts :
    (p : Bytes) (c : ℕ) (rest : Bytes) → match_class p c ≡ some (true, rest) → Accepts c rest p
unfolding match_class
match_class→Accepts [] c rest e = cc
match_class→Accepts (m ∷ p) c rest e = elim (Bool-cases (is_marked (m ∷ p))) [
  | inl y ↦
      let (is, body, a) =
        class_loop→Body c true false true p true rest (rw (y, if◌then◌else◌) at e) in
      beside m y body (λ l. true≢false (a ∙ rw (Listed→member c is l) refl))
  | inr n ↦
      let (is, body, a) =
        class_loop→Body c false false true (m ∷ p) true rest (rw (n, if◌then◌else◌) at e) in
      among n body (member→Listed c is (ground arith))
]

pub Accepts→match_class :
    {p : Bytes} (c : ℕ) (rest : Bytes) → Accepts c rest p → match_class p c ≡ some (true, rest)
unfolding match_class
Accepts→match_class {p = []} c rest (among n body l) = absurd (no-Body body)
Accepts→match_class {p = m ∷ p} c rest (among {is = is} n body l) =
    rw (n, if◌then◌else◌) (Body→class_loop c false false body ∙ rw (Listed→member c is l) refl)
Accepts→match_class c rest (beside {is = is} m y body l) = elim (Bool-cases (member c is)) [
  | inl b ↦ absurd (l (member→Listed c is b))
  | inr b ↦ rw (y, if◌then◌else◌) (Body→class_loop c true false body ∙ rw b refl)
]
