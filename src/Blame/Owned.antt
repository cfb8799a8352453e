-- ===== src/Blame/Owned.antt =====
-- Proofs on src/blame.rs: every owner is a line of the history.
use tally_vcs.Prelude.{
  ℕ, zero, suc, ◌<◌, List, [], ◌∷◌, ◌++◌, Option, none, some, ◌≡◌, refl, sym, length, get_elem?,
  All, leb, ok, invalid, require, >>=-eq-ok, ok_injective, Bool-cases, inl, inr, if◌then◌else◌,
  arith, subst, ◌==◌,
}
use tally_vcs.Prelude.Bytes.{Bytes}
use tally_vcs.Blobs.{BlobStore}
use tally_vcs.Blame.{BlamedLine, replay_history, newer, emit, roll_up, blank, blame_path}
use tally_vcs.Log.{LogLine}
use tally_vcs.Blame.Replayed.{Below, replay_history-Owned}

-- A line of the history owns the text.
abbrev pub OwnedBy : List LogLine → BlamedLine → Type 0
OwnedBy history l =
    (i : ℕ) × (line : LogLine) × (get_elem? history i ≡ some line) × (l.owner ≡ line.id)

abbrev pub Blamed : List LogLine → Option (List BlamedLine) → Type 0
Blamed history found =
    (lines : List BlamedLine) × (found ≡ some lines) × All (OwnedBy history) lines

get_elem?_below :
    {A : Type 0} (xs : List A) (i : ℕ) → i < length xs → (x : A) × (get_elem? xs i ≡ some x)
get_elem?_below [] i l = absurd (omega (arith, l))
get_elem?_below (x ∷ xs) zero l = (x, refl)
get_elem?_below (x ∷ xs) (suc i) l = get_elem?_below xs i (omega (arith, l))

module _ (lossy : Bytes → Bytes) (history : List LogLine) where
  emit-Blamed :
      (seen : Bytes) (newest : ℕ) (more : Option (List BlamedLine))
      → newest < length history
      → Blamed history more
      → Blamed history (emit lossy history seen newest more)
  emit-Blamed seen newest more l (lines, e, a) =
      let (line, f) = get_elem?_below history newest l in
      (
        record { owner = line.id; text = lossy seen } ∷ lines,
        rw (f, e) refl,
        ((newest, line, f, refl), a),
      )

  abbrev Bounded : Option ℕ → Type 0
  Bounded none = Unit {0}
  Bounded (some newest) = newest < length history

  newer-Bounded :
      (newest : Option ℕ) (owner : ℕ)
      → Bounded newest
      → owner < length history
      → newer newest owner < length history
  newer-Bounded none owner b l = l
  newer-Bounded (some newest) owner b l = elim (Bool-cases (leb newest owner)) [
    | inl y ↦ rw (y, if◌then◌else◌) l
    | inr n ↦ rw (n, if◌then◌else◌) b
  ]

  roll_up-Blamed :
      (seen : Bytes) (newest : Option ℕ) (content : Bytes) (owners : List ℕ)
      → Bounded newest
      → length owners ≡ length content
      → Below (length history) owners
      → Blamed history (roll_up lossy history seen newest content owners)
  unfolding roll_up
  roll_up-Blamed seen none [] owners b e w = ([], refl, tt)
  roll_up-Blamed seen (some newest) [] owners b e w =
      emit-Blamed seen newest (some []) b ([], refl, tt)
  roll_up-Blamed seen newest (c ∷ cs) [] b e w = absurd (omega (arith, e))
  roll_up-Blamed seen newest (c ∷ cs) (o ∷ os) b e w = elim (Bool-cases (c == 10)) [
    | inl y ↦ subst (Blamed history) (sym (rw (roll_up, y) refl)) (
        emit-Blamed seen (newer newest o) (roll_up lossy history [] none cs os)
          (newer-Bounded newest o b w.0) (roll_up-Blamed [] none cs os tt (omega (arith, e)) w.1))
    | inr n ↦ subst (Blamed history) (sym (rw (roll_up, n) refl)) (
        roll_up-Blamed (seen ++ (c ∷ [])) (some (newer newest o)) cs os
          (newer-Bounded newest o b w.0) (omega (arith, e)) w.1)
  ]

-- If a path can be blamed, the blame does not panic: no slice is out of range, every byte has an
-- owner, and the id of each line of the blame is that of a line of the history.
pub blame_path-Blamed :
    (lossy : Bytes → Bytes) (path : Bytes) (history : List LogLine) (blobs : BlobStore)
    (found : Option (List BlamedLine))
    → blame_path lossy path history blobs ≡ ok found
    → Blamed history found
unfolding blame_path
blame_path-Blamed lossy path history blobs found e =
    let (next, f, g) = >>=-eq-ok (replay_history blobs path 0 history blank) _ e in
    let (tape, q, w) =
      replay_history-Owned blobs path (length history) 0 history blank next (omega arith)
        (record { parallel = refl; below = tt }) f in
    let (u, h, k) = >>=-eq-ok (require tape.exists invalid) _ (rw q at g) in
    subst (Blamed history) (ok_injective k)
      (roll_up-Blamed lossy history [] none tape.content tape.owners tt w.parallel w.below)
