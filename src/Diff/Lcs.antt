-- ===== src/Diff/Lcs.antt =====
-- Proofs on `lcs_edits` of src/diff.rs and its table.
use tally_vcs.Prelude.{
  ℕ, zero, suc, ◌+◌, true, false, List, [], ◌∷◌, ◌≡◌, refl, sym, ap, ◌∙◌, arith, if◌then◌else◌, leb,
  drop, Bool-cases, inl, inr,
}
use tally_vcs.Prelude.Bytes.{Bytes, str_eq, str_eq→eq}
use tally_vcs.Diff.Script.{
  Edit, equal, delete, insert, max, head_or_zero, fill, zeros, first_row, lcs_table, at, cell, walk,
  lcs_edits,
}

-- A script that leads from `a` to `b`, whose first lines have these indices: every line of `a` is
-- kept or deleted, every line of `b` is kept or inserted, both in order, and what is kept is equal.
pub data Script : ℕ → ℕ → List Bytes → List Bytes → List Edit → Type 0 where
  done : (i j : ℕ) → Script i j [] [] []
  keep :
      {i j : ℕ} {a b : List Bytes} {es : List Edit} (x : Bytes)
      → Script (suc i) (suc j) a b es
      → Script i j (x ∷ a) (x ∷ b) (equal i j ∷ es)
  drops :
      {i j : ℕ} {a b : List Bytes} {es : List Edit} (x : Bytes)
      → Script (suc i) j a b es
      → Script i j (x ∷ a) b (delete i ∷ es)
  adds :
      {i j : ℕ} {a b : List Bytes} {es : List Edit} (y : Bytes)
      → Script i (suc j) a b es
      → Script i j a (y ∷ b) (insert j ∷ es)

walk-Script : (lcs : List (List ℕ)) (i j : ℕ) (a b : List Bytes) → Script i j a b (walk lcs i j a b)
unfolding walk
walk-Script lcs i j [] [] = done i j
walk-Script lcs i j [] (y ∷ ys) = adds y (walk-Script lcs i (suc j) [] ys)
walk-Script lcs i j (x ∷ xs) [] = drops x (walk-Script lcs (suc i) j xs [])
walk-Script lcs i j (x ∷ xs) (y ∷ ys) = elim (Bool-cases (str_eq x y)) [
  | inl e ↦
      rw (e, walk) (rw (sym (str_eq→eq x y e)) (keep x (walk-Script lcs (suc i) (suc j) xs ys)))
  | inr n ↦
      rw (n, walk)
        (elim (Bool-cases (leb (cell lcs i (suc j)) (cell lcs (suc i) j))) [
          | inl e ↦ rw (e, walk) (drops x (walk-Script lcs (suc i) j xs (y ∷ ys)))
          | inr m ↦ rw (m, walk) (adds y (walk-Script lcs i (suc j) (x ∷ xs) ys))
        ])
]

-- The edit script of two lists of lines leads from the one to the other: it keeps or deletes every
-- old line, keeps or inserts every new line, in order, and keeps only equal lines.
pub lcs_edits-Script : (a b : List Bytes) → Script 0 0 a b (lcs_edits a b)
unfolding lcs_edits
lcs_edits-Script a b = walk-Script (lcs_table a b) 0 0 a b

-- The length of a longest common subsequence, by its recursion.
unfoldable pub lcs_length : List Bytes → List Bytes → ℕ
lcs_length [] b = 0
lcs_length (x ∷ xs) [] = 0
lcs_length (x ∷ xs) (y ∷ ys) = elim (str_eq x y) [
  | true ↦ lcs_length xs ys + 1
  | false ↦ max (lcs_length xs (y ∷ ys)) (lcs_length (x ∷ xs) ys)
]

unfoldable spec_row : List Bytes → List Bytes → List ℕ
spec_row a [] = lcs_length a [] ∷ []
spec_row a (y ∷ ys) = lcs_length a (y ∷ ys) ∷ spec_row a ys

lcs_length_nil : (a : List Bytes) → lcs_length a [] ≡ 0
unfolding lcs_length
lcs_length_nil [] = refl
lcs_length_nil (x ∷ xs) = refl

head-spec_row : (a b : List Bytes) → head_or_zero (spec_row a b) ≡ lcs_length a b
unfolding spec_row
head-spec_row a [] = refl
head-spec_row a (y ∷ ys) = refl

fill-spec_row : (x : Bytes) (a b : List Bytes) → fill x b (spec_row a b) ≡ spec_row (x ∷ a) b
unfolding fill spec_row lcs_length
fill-spec_row x a [] = refl
fill-spec_row x a (y ∷ ys) = elim (Bool-cases (str_eq x y)) [
  | inl e ↦
      rw (e, fill, spec_row, lcs_length, if◌then◌else◌, fill-spec_row x a ys, head-spec_row a ys)
        refl
  | inr n ↦
      rw
        (
          n,
          fill,
          spec_row,
          lcs_length,
          if◌then◌else◌,
          fill-spec_row x a ys,
          head-spec_row (x ∷ a) ys,
        )
        refl
]

zeros-spec_row : (b : List Bytes) → zeros b ≡ spec_row [] b
unfolding zeros spec_row lcs_length
zeros-spec_row [] = refl
zeros-spec_row (y ∷ ys) = ap (λ (r : List ℕ). 0 ∷ r) (zeros-spec_row ys)

first_row-lcs_table : (a b : List Bytes) → first_row (lcs_table a b) ≡ spec_row a b
unfolding lcs_table
first_row-lcs_table [] b = zeros-spec_row b
first_row-lcs_table (x ∷ xs) b = rw (first_row-lcs_table xs b) (fill-spec_row x xs b)

at-spec_row : (a b : List Bytes) (j : ℕ) → at (spec_row a b) j ≡ lcs_length a (drop j b)
unfolding spec_row
at-spec_row a [] zero = refl
at-spec_row a [] (suc j) = sym (lcs_length_nil a)
at-spec_row a (y ∷ ys) zero = refl
at-spec_row a (y ∷ ys) (suc j) = at-spec_row a ys j

-- The table holds the lengths of the longest common subsequences of all pairs of suffixes.
pub cell-lcs_table :
    (a b : List Bytes) (i j : ℕ) → cell (lcs_table a b) i j ≡ lcs_length (drop i a) (drop j b)
unfolding cell lcs_table lcs_length
cell-lcs_table [] b zero j = rw (zeros-spec_row b) (at-spec_row [] b j)
cell-lcs_table [] b (suc i) j = refl
cell-lcs_table (x ∷ xs) b zero j =
    rw (first_row-lcs_table xs b, fill-spec_row x xs b) (at-spec_row (x ∷ xs) b j)
cell-lcs_table (x ∷ xs) b (suc i) j = cell-lcs_table xs b i j

unfoldable pub kept : List Edit → ℕ
kept [] = 0
kept (equal i j ∷ es) = kept es + 1
kept (delete i ∷ es) = kept es
kept (insert j ∷ es) = kept es

drop_next :
    (a : List Bytes) (i : ℕ) {x : Bytes} {xs : List Bytes} → drop i a ≡ x ∷ xs → drop (suc i) a ≡ xs
drop_next [] zero h = cc
drop_next [] (suc i) h = cc
drop_next (y ∷ ys) zero h = cc
drop_next (y ∷ ys) (suc i) h = drop_next ys i h

module _ (a₀ b₀ : List Bytes) where
  kept-walk :
      (i j : ℕ) (a b : List Bytes)
      → drop i a₀ ≡ a
      → drop j b₀ ≡ b
      → kept (walk (lcs_table a₀ b₀) i j a b) ≡ lcs_length a b
  unfolding kept walk lcs_length
  kept-walk i j [] [] h k = refl
  kept-walk i j [] (y ∷ ys) h k = kept-walk i (suc j) [] ys h (drop_next b₀ j k)
  kept-walk i j (x ∷ xs) [] h k = kept-walk (suc i) j xs [] (drop_next a₀ i h) k ∙ lcs_length_nil xs
  kept-walk i j (x ∷ xs) (y ∷ ys) h k = elim (Bool-cases (str_eq x y)) [
    | inl e ↦
        rw (e, kept, walk, lcs_length)
          (ap (λ (n : ℕ). n + 1)
            (kept-walk (suc i) (suc j) xs ys (drop_next a₀ i h) (drop_next b₀ j k)))
    | inr n ↦
        let c : cell (lcs_table a₀ b₀) i (suc j) ≡ lcs_length (x ∷ xs) ys =
          cell-lcs_table a₀ b₀ i (suc j) ∙ rw (h, drop_next b₀ j k) refl in
        let d : cell (lcs_table a₀ b₀) (suc i) j ≡ lcs_length xs (y ∷ ys) =
          cell-lcs_table a₀ b₀ (suc i) j ∙ rw (k, drop_next a₀ i h) refl in
        let p = kept-walk (suc i) j xs (y ∷ ys) (drop_next a₀ i h) k in
        let q = kept-walk i (suc j) (x ∷ xs) ys h (drop_next b₀ j k) in
        rw (n, c, d, kept, walk, lcs_length)
          (elim (Bool-cases (leb (lcs_length (x ∷ xs) ys) (lcs_length xs (y ∷ ys)))) [
            | inl e ↦ rw (e, kept, walk) (p ∙ ground arith)
            | inr m ↦ rw (m, kept, walk) (q ∙ ground arith)
          ])
  ]

-- The script keeps as many lines as a longest common subsequence has.
pub kept-lcs_edits : (a b : List Bytes) → kept (lcs_edits a b) ≡ lcs_length a b
unfolding lcs_edits
kept-lcs_edits a b = kept-walk a b 0 0 a b refl refl
