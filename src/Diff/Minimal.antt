-- ===== src/Diff/Minimal.antt =====
-- Proofs on the counts of `line_stat` of src/diff.rs.
use tally_vcs.Prelude.{
  ℕ, ◌+◌, ◌≤◌, true, List, [], ◌∷◌, ◌++◌, ◌≡◌, refl, ap, ◌∙◌, arith, length, Bool-cases, ◌⊎◌, inl,
  inr,
}
use tally_vcs.Prelude.Bytes.{
  Bytes, str_eq, str_eq_refl, is_utf8, concat, split_inclusive, concat-split_inclusive,
}
use tally_vcs.Diff.Script.{Edit, lcs_edits, count_edits, line_stat, split_keep_lines, retain_full}
use tally_vcs.Diff.Lcs.{
  Script, done, keep, drops, adds, lcs_edits-Script, lcs_length, kept, kept-lcs_edits,
}

-- `s` is `a` with some lines left out.
pub data Subsequence : List Bytes → List Bytes → Type 0 where
  nil : Subsequence [] []
  skip : {s a : List Bytes} (x : Bytes) → Subsequence s a → Subsequence s (x ∷ a)
  pick : {s a : List Bytes} (x : Bytes) → Subsequence s a → Subsequence (x ∷ s) (x ∷ a)

Subsequence-cases :
    {s a : List Bytes} {x : Bytes}
    → Subsequence s (x ∷ a)
    → Subsequence s a ⊎ ((t : List Bytes) × (s ≡ x ∷ t) × Subsequence t a)
Subsequence-cases (skip x p) = inl p
Subsequence-cases (pick {s} x p) = inr (s, refl, p)

Subsequence-nil : {s : List Bytes} → Subsequence s [] → s ≡ []
Subsequence-nil nil = refl

Subsequence-tail : {s a : List Bytes} {z : Bytes} → Subsequence (z ∷ s) a → Subsequence s a
Subsequence-tail (skip x p) = skip x (Subsequence-tail p)
Subsequence-tail (pick x p) = skip x p

-- Leaving out both first lines keeps a subsequence.
Subsequence-cons : {s a : List Bytes} {z x : Bytes} → Subsequence (z ∷ s) (x ∷ a) → Subsequence s a
Subsequence-cons (skip x p) = Subsequence-tail p
Subsequence-cons (pick x p) = p

length-le-lcs_length :
    (a b s : List Bytes) → Subsequence s a → Subsequence s b → length s ≤ lcs_length a b
unfolding lcs_length
length-le-lcs_length [] b s p q = rw (Subsequence-nil p) (omega arith)
length-le-lcs_length (x ∷ xs) [] s p q = rw (Subsequence-nil q) (omega arith)
length-le-lcs_length (x ∷ xs) (y ∷ ys) [] p q = omega arith
length-le-lcs_length (x ∷ xs) (y ∷ ys) (z ∷ r) p q = elim (Bool-cases (str_eq x y)) [
  | inl e ↦
      let l = length-le-lcs_length xs ys r (Subsequence-cons p) (Subsequence-cons q) in
      rw (e, lcs_length) (omega arith)
  | inr n ↦ elim (Subsequence-cases p) [
    | inl u ↦
        let l = length-le-lcs_length xs (y ∷ ys) (z ∷ r) u q in rw (n, lcs_length) (ground arith)
    | inr (t, e, u) ↦ elim (Subsequence-cases q) [
      | inl v ↦
          let l = length-le-lcs_length (x ∷ xs) ys (z ∷ r) p v in rw (n, lcs_length) (ground arith)
      | inr (w, f, v) ↦ let g : x ≡ y = cc in let m : str_eq x y ≡ true = rw g (str_eq_refl y) in cc
    ]
  ]
]

-- The lines that a script keeps.
Script-Subsequence :
    {i j : ℕ} {a b : List Bytes} {es : List Edit}
    → Script i j a b es
    → (s : List Bytes) × (length s ≡ kept es) × Subsequence s a × Subsequence s b
unfolding kept
Script-Subsequence (done i j) = ([], refl, nil, nil)
Script-Subsequence (keep x s) =
    let (t, e, p, q) = Script-Subsequence s in (x ∷ t, omega arith, pick x p, pick x q)
Script-Subsequence (drops x s) = let (t, e, p, q) = Script-Subsequence s in (t, e, skip x p, q)
Script-Subsequence (adds y s) = let (t, e, p, q) = Script-Subsequence s in (t, e, p, skip y q)

count_edits-kept :
    {i j : ℕ} {a b : List Bytes} {es : List Edit}
    → Script i j a b es
    → ((count_edits es).0 + kept es ≡ length b) × ((count_edits es).1 + kept es ≡ length a)
unfolding kept count_edits
count_edits-kept (done i j) = (refl, refl)
count_edits-kept (keep x s) = let (p, q) = count_edits-kept s in (omega arith, omega arith)
count_edits-kept (drops x s) = let (p, q) = count_edits-kept s in (omega arith, omega arith)
count_edits-kept (adds y s) = let (p, q) = count_edits-kept s in (omega arith, omega arith)

-- No script between the same lines has fewer insertions or fewer deletions than the one computed.
pub lcs_edits_minimal :
    (a b : List Bytes) (es : List Edit)
    → Script 0 0 a b es
    → ((count_edits (lcs_edits a b)).0 ≤ (count_edits es).0)
      × ((count_edits (lcs_edits a b)).1 ≤ (count_edits es).1)
lcs_edits_minimal a b es s =
    let (t, e, p, q) = Script-Subsequence s in
    let l = length-le-lcs_length a b t p q in
    let k = kept-lcs_edits a b in
    let (c, d) = count_edits-kept s in
    let (f, g) = count_edits-kept (lcs_edits-Script a b) in (omega arith, omega arith)

concat-retain_full : (ls : List Bytes) → concat (retain_full ls) ≡ concat ls
unfolding concat
concat-retain_full [] = refl
concat-retain_full ([] ∷ ls) = concat-retain_full ls
concat-retain_full ((x ∷ xs) ∷ ls) = ap (λ (t : Bytes). x ∷ (xs ++ t)) (concat-retain_full ls)

-- The lines of a blob, joined, are the blob.
pub concat-split_keep_lines : (s : Bytes) → concat (split_keep_lines s) ≡ s
unfolding split_keep_lines concat
concat-split_keep_lines [] = refl
concat-split_keep_lines (x ∷ xs) =
    concat-retain_full (split_inclusive 10 (x ∷ xs)) ∙ concat-split_inclusive 10 (x ∷ xs)

-- For two blobs of UTF-8 text, no edit script between their lines has fewer insertions or fewer
-- deletions than line_stat counts.
pub line_stat_minimal :
    (old new : Bytes) (es : List Edit)
    → is_utf8 old ≡ true
    → is_utf8 new ≡ true
    → Script 0 0 (split_keep_lines old) (split_keep_lines new) es
    → ((line_stat old new).0 ≤ (count_edits es).0) × ((line_stat old new).1 ≤ (count_edits es).1)
unfolding line_stat
line_stat_minimal old new es h k s =
    rw (h, k) (lcs_edits_minimal (split_keep_lines old) (split_keep_lines new) es s)
