-- ===== src/Ignore/Glob.antt =====
-- The glob language of one segment as a relation, and `match_chars` of src/ignore.rs.
use tally_vcs.Prelude.{
  ℕ, zero, suc, ◌≤◌, Bool, true, false, not, ◌&&◌, ◌||◌, [], ◌∷◌, some, ◌≡◌, ◌↔◌, refl, sym, subst,
  arith, inl, inr, Bool-cases, Option-cases, &&-eq-true, length, ◌==◌, ==_iff,
}
use tally_vcs.Prelude.Bytes.{Bytes}
use tally_vcs.Ignore.Classes.{Accepts, match_class→Accepts, Accepts→match_class}
use tally_vcs.Ignore.Rules.{
  any_suffix, class_loop, match_class, match_fuel, match_segment, in_range,
}

-- A character that stands for itself.
abbrev pub is_plain : ℕ → Bool
is_plain p = not (p == b'*') && (not (p == b'?') && (not (p == b'\\') && not (p == b'[')))

-- `pattern` matches `text`.
pub data Matches : Bytes → Bytes → Type 0 where
  nil : Matches [] []
  star_end : {p t : Bytes} → Matches p t → Matches (b'*' ∷ p) t
  star_more : {p t : Bytes} (c : ℕ) → Matches (b'*' ∷ p) t → Matches (b'*' ∷ p) (c ∷ t)
  one : {p t : Bytes} (c : ℕ) → Matches p t → Matches (b'?' ∷ p) (c ∷ t)
  escaped : {p t : Bytes} (c : ℕ) → Matches p t → Matches (b'\\' ∷ c ∷ p) (c ∷ t)
  class :
      {p rest t : Bytes} (c : ℕ) → Accepts c rest p → Matches rest t → Matches (b'[' ∷ p) (c ∷ t)
  plain : {p t : Bytes} (c : ℕ) → is_plain c ≡ true → Matches p t → Matches (c ∷ p) (c ∷ t)

-- What is left of a pattern behind a class is shorter than it.
length-class_loop :
    (c : ℕ) (negated hit is_first : Bool) (p : Bytes) (h : Bool) (rest : Bytes)
    → class_loop c negated hit is_first p ≡ some (h, rest)
    → length rest ≤ length p
unfolding class_loop
length-class_loop c g h f [] b rest e = cc
length-class_loop c g h f (p ∷ []) b rest e = ground arith
length-class_loop c g h f (p ∷ d ∷ []) b rest e =
    ground (arith, length-class_loop c g (h || p == c) false (d ∷ []) b rest)
length-class_loop c g h f (p ∷ d ∷ hi ∷ q) b rest e = ground (
  arith,
  length-class_loop c g (h || in_range p hi c) false q b rest,
  length-class_loop c g (h || p == c) false (d ∷ hi ∷ q) b rest,
)

length-match_class :
    (p : Bytes) (c : ℕ) (h : Bool) (rest : Bytes)
    → match_class p c ≡ some (h, rest)
    → length rest ≤ length p
unfolding match_class
length-match_class [] c h rest e = cc
length-match_class (p ∷ q) c h rest e = ground (
  arith,
  length-class_loop c true false true q h rest,
  length-class_loop c false false true (p ∷ q) h rest,
)

any_suffix-Matches :
    (f : Bytes → Bool) (p t : Bytes)
    → ((s : Bytes) → f s ≡ true → Matches p s)
    → any_suffix f t ≡ true
    → Matches (b'*' ∷ p) t
unfolding any_suffix
any_suffix-Matches f p [] k h = star_end (k [] h)
any_suffix-Matches f p (c ∷ t) k h = elim (Bool-cases (f (c ∷ t))) [
  | inl e ↦ star_end (k (c ∷ t) e)
  | inr n ↦ star_more c (any_suffix-Matches f p t k (ground arith))
]

any_suffix_head : (f : Bytes → Bool) (t : Bytes) → f t ≡ true → any_suffix f t ≡ true
unfolding any_suffix
any_suffix_head f [] h = h
any_suffix_head f (c ∷ t) h = rw h refl

any_suffix_tail :
    (f : Bytes → Bool) (c : ℕ) (t : Bytes) → any_suffix f t ≡ true → any_suffix f (c ∷ t) ≡ true
unfolding any_suffix
any_suffix_tail f c t h = ground arith

-- The cases of a first character that reads more of the pattern.
module _ (n c : ℕ) (u : Bytes) (rec : (p : Bytes) → match_fuel n p u ≡ true → Matches p u) where
  Matches-escape :
      (q : Bytes) → match_fuel (suc n) (b'\\' ∷ q) (c ∷ u) ≡ true → Matches (b'\\' ∷ q) (c ∷ u)
  unfolding match_fuel
  Matches-escape [] h = cc
  Matches-escape (x ∷ q) h =
      let (e, k) = &&-eq-true (x == c) (match_fuel n q u) h in
      subst (λ (y : ℕ). Matches (b'\\' ∷ x ∷ q) (y ∷ u)) ((==_iff x c).0 e) (escaped x (rec q k))

  Matches-class :
      (q : Bytes) → match_fuel (suc n) (b'[' ∷ q) (c ∷ u) ≡ true → Matches (b'[' ∷ q) (c ∷ u)
  unfolding match_fuel
  Matches-class q h = elim (Option-cases (match_class q c)) [
    | inl e ↦ absurd (ground arith)
    | inr ((hit, rest), e) ↦
        let k : hit && match_fuel n rest u ≡ true = ground arith in
        let (f, l) = &&-eq-true hit (match_fuel n rest u) k in
        class c (match_class→Accepts q c rest (ground arith)) (rec rest l)
  ]

match_fuel→Matches : (n : ℕ) (p t : Bytes) → match_fuel n p t ≡ true → Matches p t
unfolding match_fuel
match_fuel→Matches n [] [] h = nil
match_fuel→Matches n [] (c ∷ t) h = cc
match_fuel→Matches zero (p ∷ q) t h = cc
match_fuel→Matches (suc n) (p ∷ q) [] h = elim (Bool-cases (p == b'*')) [
  | inl e ↦
      subst (λ (x : ℕ). Matches (x ∷ q) []) (sym ((==_iff p b'*').0 e))
        (any_suffix-Matches (match_fuel n q) q [] (λ s. match_fuel→Matches n q s) (ground arith))
  | inr star ↦ absurd (ground arith)
]
match_fuel→Matches (suc n) (p ∷ q) (c ∷ u) h = elim (Bool-cases (p == b'*')) [
  | inl e ↦
      subst (λ (x : ℕ). Matches (x ∷ q) (c ∷ u)) (sym ((==_iff p b'*').0 e))
        (any_suffix-Matches (match_fuel n q) q (c ∷ u) (λ s. match_fuel→Matches n q s)
          (ground arith))
  | inr star ↦ elim (Bool-cases (p == b'?')) [
    | inl e ↦
        subst (λ (x : ℕ). Matches (x ∷ q) (c ∷ u)) (sym ((==_iff p b'?').0 e))
          (one c (match_fuel→Matches n q u (ground arith)))
    | inr one_char ↦ elim (Bool-cases (p == b'\\')) [
      | inl e ↦
          subst (λ (x : ℕ). match_fuel (suc n) (x ∷ q) (c ∷ u) ≡ true → Matches (x ∷ q) (c ∷ u))
            (sym ((==_iff p b'\\').0 e)) (Matches-escape n c u (λ s. match_fuel→Matches n s u) q) h
      | inr escape ↦ elim (Bool-cases (p == b'[')) [
        | inl e ↦
            subst (λ (x : ℕ). match_fuel (suc n) (x ∷ q) (c ∷ u) ≡ true → Matches (x ∷ q) (c ∷ u))
              (sym ((==_iff p b'[').0 e)) (Matches-class n c u (λ s. match_fuel→Matches n s u) q) h
        | inr class_start ↦
            let k : p == c && match_fuel n q u ≡ true = ground arith in
            let (e, l) = &&-eq-true (p == c) (match_fuel n q u) k in
            subst (λ (x : ℕ). Matches (p ∷ q) (x ∷ u)) ((==_iff p c).0 e)
              (plain p (ground arith) (match_fuel→Matches n q u l))
      ]
    ]
  ]
]

Matches→match_fuel : {p t : Bytes} (n : ℕ) → length p ≤ n → Matches p t → match_fuel n p t ≡ true
unfolding match_fuel
Matches→match_fuel n k nil = refl
Matches→match_fuel {p = p} zero k (star_end m) = absurd (omega arith)
Matches→match_fuel zero k (star_more c m) = absurd (omega arith)
Matches→match_fuel zero k (one c m) = absurd (omega arith)
Matches→match_fuel zero k (escaped c m) = absurd (omega arith)
Matches→match_fuel zero k (class c e m) = absurd (omega arith)
Matches→match_fuel zero k (plain c e m) = absurd (omega arith)
Matches→match_fuel (suc n) k (star_end {t = t} m) =
    any_suffix_head _ t (Matches→match_fuel n (omega arith) m)
Matches→match_fuel (suc n) k (star_more {t = t} c m) =
    any_suffix_tail _ c t (Matches→match_fuel (suc n) k m)
Matches→match_fuel (suc n) k (one c m) = Matches→match_fuel n (omega arith) m
Matches→match_fuel (suc n) k (escaped c m) =
    let r = Matches→match_fuel n (omega arith) m in ground arith
Matches→match_fuel (suc n) k (class {p = p} {rest = rest} c accepted m) =
    let e = Accepts→match_class c rest accepted in
    let l = length-match_class p c true rest e in
    let r = Matches→match_fuel n (omega arith) m in rw (e, match_fuel) r
Matches→match_fuel (suc n) k (plain c e m) =
    let r = Matches→match_fuel n (omega arith) m in ground arith

-- match_segment accepts a segment exactly when the pattern matches it by the rules of the glob
-- language, those of character classes with their ranges and their negation included; the length
-- of the pattern is fuel enough.
pub match_segment_iff : (p t : Bytes) → (match_segment p t ≡ true) ↔ Matches p t
unfolding match_segment
match_segment_iff p t =
    (match_fuel→Matches (length p) p t, Matches→match_fuel (length p) (omega arith))
