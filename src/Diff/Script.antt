-- ===== src/Diff/Script.antt =====
-- The line edit script of src/diff.rs.
use tally_vcs.Prelude.{
  ℕ, suc, ◌+◌, Bool, true, false, ◌&&◌, List, [], ◌∷◌, Option, none, some, if◌then◌else◌, leb,
  get_elem?,
}
use tally_vcs.Prelude.Bytes.{Bytes, str_eq, split_inclusive, is_utf8}

pub data Edit : Type 0 where
  equal : ℕ → ℕ → Edit
  delete insert : ℕ → Edit

-- The bytes of the lines, each with its terminator.
abbrev pub is_full : Bytes → Bool
is_full [] = false
is_full (x ∷ xs) = true

abbrev pub retain_full : List Bytes → List Bytes
retain_full [] = []
retain_full (l ∷ ls) = let rest = retain_full ls in if is_full l then l ∷ rest else rest

unfoldable pub split_keep_lines : Bytes → List Bytes
split_keep_lines s = if is_full s then retain_full (split_inclusive 10 s) else []

abbrev pub max : ℕ → ℕ → ℕ
max m n = if leb m n then n else m

abbrev pub head_or_zero : List ℕ → ℕ
head_or_zero [] = 0
head_or_zero (n ∷ ns) = n

-- Row `i` of the table `lcs` from row `i + 1`: the inner loop, whose `j` falls.
unfoldable pub fill : Bytes → List Bytes → List ℕ → List ℕ
fill x (y ∷ ys) (down ∷ next) =
    let row = fill x ys next in
    (if str_eq x y then head_or_zero next + 1 else max down (head_or_zero row)) ∷ row
fill x _ _ = 0 ∷ []

unfoldable pub zeros : List Bytes → List ℕ
zeros [] = 0 ∷ []
zeros (y ∷ ys) = 0 ∷ zeros ys

abbrev pub first_row : List (List ℕ) → List ℕ
first_row [] = []
first_row (row ∷ rows) = row

-- The outer loop, whose `i` falls: the rows of `a` and of the end of `a`.
unfoldable pub lcs_table : List Bytes → List Bytes → List (List ℕ)
lcs_table [] b = zeros b ∷ []
lcs_table (x ∷ xs) b = let rows = lcs_table xs b in fill x b (first_row rows) ∷ rows

abbrev pub at : List ℕ → ℕ → ℕ
at row j = elim (get_elem? row j) [ some n ↦ n | none ↦ 0 ]

-- `lcs[i][j]`
unfoldable pub cell : List (List ℕ) → ℕ → ℕ → ℕ
cell rows i j = elim (get_elem? rows i) [ some row ↦ at row j | none ↦ 0 ]

-- The three walks: the lines left on each side are `a[i..]` and `b[j..]`.
unfoldable pub walk : List (List ℕ) → ℕ → ℕ → List Bytes → List Bytes → List Edit
walk lcs i j [] [] = []
walk lcs i j [] (y ∷ ys) = insert j ∷ walk lcs i (suc j) [] ys
walk lcs i j (x ∷ xs) [] = delete i ∷ walk lcs (suc i) j xs []
walk lcs i j (x ∷ xs) (y ∷ ys) = elim (str_eq x y) [
  | true ↦ equal i j ∷ walk lcs (suc i) (suc j) xs ys
  | false ↦ elim (leb (cell lcs i (suc j)) (cell lcs (suc i) j)) [
    | true ↦ delete i ∷ walk lcs (suc i) j xs (y ∷ ys)
    | false ↦ insert j ∷ walk lcs i (suc j) (x ∷ xs) ys
  ]
]

unfoldable pub lcs_edits : List Bytes → List Bytes → List Edit
lcs_edits a b = walk (lcs_table a b) 0 0 a b

-- The counts of `line_stat`: insertions, then deletions.
unfoldable pub count_edits : List Edit → ℕ × ℕ
count_edits [] = (0, 0)
count_edits (equal i j ∷ es) = count_edits es
count_edits (delete i ∷ es) = let (ins, del) = count_edits es in (ins, del + 1)
count_edits (insert j ∷ es) = let (ins, del) = count_edits es in (ins + 1, del)

unfoldable pub line_stat : Bytes → Bytes → ℕ × ℕ
line_stat old new =
    if is_utf8 old && is_utf8 new
    then count_edits (lcs_edits (split_keep_lines old) (split_keep_lines new))
    else (0, 0)

-- The deleted indices of `changed_old_lines`; they rise, so that the set is their list.
unfoldable pub deleted : List Edit → List ℕ
deleted [] = []
deleted (delete i ∷ es) = i ∷ deleted es
deleted (equal i j ∷ es) = deleted es
deleted (insert j ∷ es) = deleted es

unfoldable pub changed_old_lines : Bytes → Bytes → Option (List ℕ)
changed_old_lines old new =
    if is_utf8 old && is_utf8 new
    then some (deleted (lcs_edits (split_keep_lines old) (split_keep_lines new)))
    else none
