-- ===== src/Revision/Bounds.antt =====
-- Proofs on `log_range` of src/revision.rs.
use tally_vcs.Prelude.{
  ℕ, suc, ◌≤◌, ◌<◌, true, List, [], ◌∷◌, Option, none, some, ◌≡◌, refl, sym, ap, ◌∙◌, arith, length,
  ok, invalid, >>=-eq-ok, ok_or, ok_or-eq-ok, ok_injective, Option-cases, inl, inr,
}
use tally_vcs.Prelude.Bytes.{Bytes}
use tally_vcs.Log.{LogLine}
use tally_vcs.Revision.Suffixes.{StatePoint, Resolved}
use tally_vcs.Revision.Resolve.{
  Repository, rposition, has_line, lineage_states, resolve, lines_of, points_of, base_sum,
}
use tally_vcs.Revision.Places.{rposition-lt}
use tally_vcs.Revision.Range.{
  LogBounds, range_sides, position, start_of, range_on, log_range, bounds_of, or_head,
  resolved_position, is_base, max,
}
use tally_vcs.Setsum.{Setsum}

length-points_of : (lines : List LogLine) → length (points_of lines) ≡ length lines
unfolding points_of
length-points_of [] = refl
length-points_of (line ∷ lines) = omega (arith, length-points_of lines)

length-lines_of : (history : List (Bytes × LogLine)) → length (lines_of history) ≡ length history
unfolding lines_of
length-lines_of [] = refl
length-lines_of ((fork, line) ∷ history) = omega (arith, length-lines_of history)

module _ ⦃S : Setsum⦄ (repo : Repository) where
  length-lineage_states :
      (fork : Bytes) (points : List StatePoint)
      → lineage_states repo fork ≡ ok points
      → (history : List (Bytes × LogLine)) × (repo.continuity_log fork ≡ ok history)
        × (length points ≡ suc (length history))
  unfolding lineage_states
  length-lineage_states fork points h =
      let (history, e, f) = >>=-eq-ok (repo.continuity_log fork) _ h in
      let (base, g, k) = >>=-eq-ok (base_sum repo fork (lines_of history)) _ f in
      let l = length-points_of (lines_of history) in
      let m = length-lines_of history in (history, e, rw (sym (ok_injective k)) (omega arith))

  is_base-lt :
      (sum : Bytes) (points : List StatePoint) → is_base sum points ≡ true → 0 < length points
  is_base-lt sum [] h = cc
  is_base-lt sum (p ∷ ps) h = omega arith

  position-lt :
      (points : List StatePoint) (r : Resolved) (i : ℕ)
      → position points r ≡ ok i
      → i < length points
  unfolding position
  position-lt points r i h = elim (Option-cases r.line) [
    | inr (id, e) ↦
        let k : ok_or (rposition (has_line id) points) invalid ≡ ok i = ground arith in
        rposition-lt repo (has_line id) points i (ok_or-eq-ok _ invalid k)
    | inl e ↦ ground (arith, is_base-lt r.sum points)
  ]

  resolved_position-lt :
      (points : List StatePoint) (o : Option Resolved) (i : ℕ)
      → resolved_position repo points o ≡ ok (some i)
      → i < length points
  resolved_position-lt points none i h = absurd (ground arith)
  resolved_position-lt points (some r) i h =
      let (j, e, f) = >>=-eq-ok (position points r) _ h in
      let g : j ≡ i = ground arith in let l = position-lt points r j e in omega arith

  start_of-lt :
      (points : List StatePoint) (fork : Bytes) (left : Option Bytes) (i : ℕ)
      → 0 < length points
      → start_of repo points fork left ≡ ok (some i)
      → i < length points
  unfolding start_of
  start_of-lt points fork none i l h = let e : 0 ≡ i = ground arith in omega arith
  start_of-lt points fork (some a) i l h =
      let (r, e, f) = >>=-eq-ok (resolve repo (or_head a) fork) _ h in
      resolved_position-lt points r i f

  bounds_of-eq :
      (fork : Bytes) (end : ℕ) (o : Option ℕ) (b : LogBounds)
      → bounds_of repo fork end o ≡ some b
      → (start : ℕ) × (o ≡ some start)
        × (b ≡ record { fork = fork; start = start; end = max end start })
  bounds_of-eq fork end none b h = cc
  bounds_of-eq fork end (some start) b h = (start, refl, ground arith)

  range_on-bounds :
      (left : Option Bytes) (right : Option Resolved) (b : LogBounds)
      → range_on repo left right ≡ ok (some b)
      → (history : List (Bytes × LogLine)) × (repo.continuity_log b.fork ≡ ok history)
        × (b.start ≤ b.end)
        × (b.end ≤ length history)
  unfolding range_on
  range_on-bounds left none b h = absurd (ground arith)
  range_on-bounds left (some right) b h =
      let (points, e₀, h₀) = >>=-eq-ok (lineage_states repo right.fork) _ h in
      let (end, e₁, h₁) = >>=-eq-ok (position points right) _ h₀ in
      let (o, e₂, h₂) = >>=-eq-ok (start_of repo points right.fork left) _ h₁ in
      let (start, e₃, e₄) = bounds_of-eq right.fork end o b (ok_injective h₂) in
      let (history, e₅, e₆) = length-lineage_states right.fork points e₀ in
      let l = position-lt points right end e₁ in
      let m = start_of-lt points right.fork left start (omega arith) (e₂ ∙ ap ok e₃) in
      rw e₄ (history, e₅, ground arith, ground arith)

  -- If log_range gives bounds on the log of a fork, the continuity log of that fork can be read,
  -- the bounds are in order, and the end is at most the length of the log.
  pub log_range-bounds :
      (spec : Option Bytes) (fork : Bytes) (b : LogBounds)
      → log_range repo spec fork ≡ ok (some b)
      → (history : List (Bytes × LogLine)) × (repo.continuity_log b.fork ≡ ok history)
        × (b.start ≤ b.end)
        × (b.end ≤ length history)
  unfolding log_range
  log_range-bounds spec fork b h =
      let ((left, right), e, f) = >>=-eq-ok (range_sides spec) _ h in
      let (r, g, k) = >>=-eq-ok (resolve repo (or_head right) fork) _ f in
      range_on-bounds left r b k
