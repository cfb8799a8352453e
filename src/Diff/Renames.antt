-- ===== src/Diff/Renames.antt =====
-- Proofs on `detect_renames` of src/diff.rs.
use tally_vcs.Prelude.{
  Bool, true, List, [], ◌∷◌, Option, none, some, ◌≡◌, arith, if◌then◌else◌, All, All-append,
  Bool-cases, Option-cases, inl, inr,
}
use tally_vcs.Prelude.Bytes.{Bytes, str_eq→eq}
use tally_vcs.Ident.Record.{ElementRecord}
use tally_vcs.Diff.States.{
  PathChange, Rename, is_add, additions, carries, take_first, Pairing, paired, pair, pair_all,
  unpaired, detect_renames,
}

-- A change is in a list.
pub data IsIn (c : PathChange) : List PathChange → Type 0 where
  here : {cs : List PathChange} → IsIn c (c ∷ cs)
  there : {d : PathChange} {cs : List PathChange} → IsIn c cs → IsIn c (d ∷ cs)

module _ (changes : List PathChange) where
  -- A rename takes one blob from a path that was deleted to a path that was added.
  pub record IsMove (r : Rename) : Type 0 where
    pub same_blob : r.to.blob ≡ r.from.blob
    pub deletion : (c : PathChange) × IsIn c changes × (c.before ≡ some r.from) × (c.after ≡ none)
    pub addition : (c : PathChange) × IsIn c changes × (c.before ≡ none) × (c.after ≡ some r.to)

  IsAddition : PathChange → Type 0
  IsAddition c = IsIn c changes × (c.before ≡ none)

  is_add→none : (c : PathChange) → is_add c ≡ true → c.before ≡ none
  is_add→none c h = elim (Option-cases c.before) [ inl e ↦ e | inr (r, e) ↦ absurd (ground arith) ]

  additions-All :
      (cs : List PathChange)
      → ((c : PathChange) → IsIn c cs → IsIn c changes)
      → All IsAddition (additions cs)
  unfolding additions IsAddition
  additions-All [] f = tt
  additions-All (c ∷ cs) f = elim (Bool-cases (is_add c)) [
    | inl e ↦
        rw (e, additions, if◌then◌else◌)
          ((f c here, is_add→none c e), additions-All cs (λ d i. f d (there i)))
    | inr n ↦ rw (n, additions, if◌then◌else◌) (additions-All cs (λ d i. f d (there i)))
  ]

  -- What `take_first` returns of additions.
  TakesAddition : (PathChange → Bool) → Option (PathChange × List PathChange) → Type 0
  TakesAddition f none = Unit
  TakesAddition f (some (a, others)) = IsAddition a × (f a ≡ true) × All IsAddition others

  take_first-TakesAddition :
      (f : PathChange → Bool) (adds : List PathChange)
      → All IsAddition adds
      → TakesAddition f (take_first f adds)
  unfolding take_first TakesAddition
  take_first-TakesAddition f [] h = tt
  take_first-TakesAddition f (b ∷ adds) h = elim (Bool-cases (f b)) [
    | inl t ↦ rw (t, take_first, if◌then◌else◌) (h.0, t, h.1)
    | inr n ↦
        rw (n, take_first, if◌then◌else◌)
          (passed (take_first f adds) (take_first-TakesAddition f adds h.1))
  ]
    where
      passed :
          (o : Option (PathChange × List PathChange))
          → TakesAddition f o
          → TakesAddition f (elim o [ none ↦ none | some (c, others) ↦ some (c, b ∷ others) ])
      passed none k = tt
      passed (some (c, others)) (k, l, m) = (k, l, (h.0, m))

  record IsSound (s : Pairing) : Type 0 where
    adds_sound : All IsAddition s.adds
    renames_sound : All IsMove s.renames

  carries-blob :
      (blob : Bytes) (consumed : List Bytes) (a : PathChange) {r : ElementRecord}
      → a.after ≡ some r
      → carries blob consumed a ≡ true
      → r.blob ≡ blob
  carries-blob blob consumed a {r} e h = str_eq→eq r.blob blob (ground arith)

  paired-IsSound :
      (s : Pairing) (c : PathChange) (from : ElementRecord)
      → IsIn c changes
      → c.before ≡ some from
      → c.after ≡ none
      → IsSound s
      → (o : Option (PathChange × List PathChange))
      → TakesAddition (carries from.blob s.consumed_adds) o
      → IsSound (paired s c from o)
  unfolding TakesAddition IsAddition
  paired-IsSound s c from i b a v none t = v
  paired-IsSound s c from i b a v (some (add, others)) (t, u, w) = elim (Option-cases add.after) [
    | inl e ↦ rw e v
    | inr (to, e) ↦ rw e (record {
      adds_sound = w;
      renames_sound =
          All-append IsMove s.renames (record { from = from; to = to } ∷ []) v.renames_sound (
            record {
              same_blob = carries-blob from.blob s.consumed_adds add e u;
              deletion = (c, i, b, a);
              addition = (add, t.0, t.1, e);
            },
            tt,
          );
    })
  ]

  pair-IsSound : (s : Pairing) (c : PathChange) → IsIn c changes → IsSound s → IsSound (pair s c)
  unfolding pair
  pair-IsSound s c i v = elim (Option-cases c.before) [
    | inl e ↦ rw e v
    | inr (from, e) ↦ elim (Option-cases c.after) [
      | inl n ↦
          rw (e, n)
            (paired-IsSound s c from i e n v _
              (take_first-TakesAddition (carries from.blob s.consumed_adds) s.adds v.adds_sound))
      | inr (r, n) ↦ rw (e, n) v
    ]
  ]

  pair_all-IsSound :
      (s : Pairing) (cs : List PathChange)
      → ((c : PathChange) → IsIn c cs → IsIn c changes)
      → IsSound s
      → IsSound (pair_all s cs)
  unfolding pair_all
  pair_all-IsSound s [] f v = v
  pair_all-IsSound s (c ∷ cs) f v =
      pair_all-IsSound (pair s c) cs (λ d i. f d (there i)) (pair-IsSound s c (f c here) v)

  -- Every rename that detect_renames reports takes one blob from a path whose change is a pure
  -- deletion to a path whose change is a pure addition.
  pub detect_renames-IsMove : All IsMove (detect_renames changes).0
  unfolding detect_renames
  detect_renames-IsMove =
      (pair_all-IsSound (unpaired changes) changes (λ c i. i)
        (record {
          adds_sound = additions-All changes (λ c i. i);
          renames_sound = tt;
        })).renames_sound
