-- ===== src/Blame/Replayed.antt =====
-- Proofs on the replay of src/blame.rs: no slice is out of range, and every byte has an owner.
use tally_vcs.Prelude.{
  ℕ, zero, suc, ◌+◌, ◌<◌, ◌≤◌, List, [], ◌∷◌, ◌++◌, Option, none, some, ◌≡◌, refl, sym, ap, length,
  take, drop, All, All-append, length-append, leb, ok, ok_or, corrupt, >>=-eq-ok, ok_injective,
  Bool-cases, inl, inr, if◌then◌else◌, arith, subst, ◌&&◌, Result, ok_or-eq-ok, true,
}
use tally_vcs.Prelude.Bytes.{Bytes, str_eq}
use tally_vcs.Blobs.{BlobStore}
use tally_vcs.Blame.{
  Tape, stamped, overwrite, replay_op, replay_ops, replay_history, created_bytes, find_unique,
  in_range, sole, unless_panic,
}
use tally_vcs.Patch.Span.{cannot_occur, all_hits}
use tally_vcs.Patch.Unique.{sole_hit_fits}
use tally_vcs.Log.{LogLine}
use tally_vcs.Patch.{Op, edit, create, delete, chmod, op_path}

abbrev pub Below : ℕ → List ℕ → Type 0
Below n owners = All (λ o. o < n) owners

-- The owners stand beside the bytes and are among the first `n` lines.
pub record IsOwned (n : ℕ) (t : Tape) : Type 0 where
  pub parallel : length t.owners ≡ length t.content
  pub below : Below n t.owners

module _ {A B : Type 0} where
  length-take_same :
      (n : ℕ) (xs : List A) (ys : List B)
      → length xs ≡ length ys
      → length (take n xs) ≡ length (take n ys)
  length-take_same zero xs ys e = refl
  length-take_same (suc n) [] [] e = refl
  length-take_same (suc n) [] (y ∷ ys) e = absurd (omega (arith, e))
  length-take_same (suc n) (x ∷ xs) [] e = absurd (omega (arith, e))
  length-take_same (suc n) (x ∷ xs) (y ∷ ys) e =
      ap suc (length-take_same n xs ys (omega (arith, e)))

  length-drop_same :
      (n : ℕ) (xs : List A) (ys : List B)
      → length xs ≡ length ys
      → length (drop n xs) ≡ length (drop n ys)
  length-drop_same zero xs ys e = e
  length-drop_same (suc n) [] [] e = refl
  length-drop_same (suc n) [] (y ∷ ys) e = absurd (omega (arith, e))
  length-drop_same (suc n) (x ∷ xs) [] e = absurd (omega (arith, e))
  length-drop_same (suc n) (x ∷ xs) (y ∷ ys) e = length-drop_same n xs ys (omega (arith, e))

length-stamped : (idx : ℕ) (bs : Bytes) → length (stamped idx bs) ≡ length bs
length-stamped idx [] = refl
length-stamped idx (b ∷ bs) = ap suc (length-stamped idx bs)

stamped-Below : (n idx : ℕ) (bs : Bytes) → idx < n → Below n (stamped idx bs)
stamped-Below n idx [] l = tt
stamped-Below n idx (b ∷ bs) l = (l, stamped-Below n idx bs l)

take-Below : (n k : ℕ) (os : List ℕ) → Below n os → Below n (take k os)
take-Below n zero os b = tt
take-Below n (suc k) [] b = tt
take-Below n (suc k) (o ∷ os) b = (b.0, take-Below n k os b.1)

drop-Below : (n k : ℕ) (os : List ℕ) → Below n os → Below n (drop k os)
drop-Below n zero os b = b
drop-Below n (suc k) [] b = tt
drop-Below n (suc k) (o ∷ os) b = drop-Below n k os b.1

spliced-IsOwned :
    (n idx : ℕ) (old new : Bytes) (at : ℕ) (t : Tape)
    → idx < n
    → IsOwned n t
    → IsOwned n (record t {
      content = take at t.content ++ (new ++ drop (at + length old) t.content);
      owners = take at t.owners ++ (stamped idx new ++ drop (at + length old) t.owners);
    })
spliced-IsOwned n idx old new at t l w =
    let p = length-take_same at t.owners t.content w.parallel in
    let q = length-drop_same (at + length old) t.owners t.content w.parallel in
    let behind = drop (at + length old) t.owners in
    let rest = drop (at + length old) t.content in
    record {
      parallel = omega (
        arith,
        p,
        q,
        length-stamped idx new,
        length-append (take at t.owners) (stamped idx new ++ behind),
        length-append (stamped idx new) behind,
        length-append (take at t.content) (new ++ rest),
        length-append new rest,
      );
      below =
          All-append _ (take at t.owners) (stamped idx new ++ behind)
            (take-Below n at t.owners w.below)
            (All-append _ (stamped idx new) behind (stamped-Below n idx new l)
              (drop-Below n (at + length old) t.owners w.below));
    }

-- The replay did not panic, and every byte has an owner.
abbrev pub Owned : ℕ → Option Tape → Type 0
Owned n o = (t : Tape) × (o ≡ some t) × IsOwned n t

-- A span that is found lies inside the content.
find_unique_fits :
    (content old : Bytes) (at : ℕ)
    → find_unique content old ≡ some at
    → at + length old ≤ length content
unfolding find_unique
find_unique_fits content old at e = elim (Bool-cases (cannot_occur content old)) [
  | inl y ↦ absurd (none-ne-some (rw (y, if◌then◌else◌) at e))
  | inr m ↦
      sole_hit_fits content old at (ground arith)
        (sole-eq (all_hits content old) at (rw (m, if◌then◌else◌) at e))
]
  where
    none-ne-some : ¬ (none ≡ some at)
    none-ne-some h = cc

    sole-eq : (hs : List ℕ) (i : ℕ) → sole hs ≡ some i → hs ≡ i ∷ []
    sole-eq [] i h = cc
    sole-eq (x ∷ []) i h = ground arith
    sole-eq (x ∷ y ∷ more) i h = cc

overwrite-Owned :
    (n idx : ℕ) (old new : Bytes) (at : ℕ) (t : Tape)
    → idx < n
    → IsOwned n t
    → at + length old ≤ length t.content
    → Owned n (overwrite idx old new at t)
unfolding overwrite
overwrite-Owned n idx old new at t l w fits =
    let inside : (leb (length old) (length t.content)
          && (in_range at (length old) (length t.content)
              && in_range at (length old) (length t.owners)))
        ≡ true =
      rw w.parallel (ground (arith, fits)) in
    (_, rw (inside, if◌then◌else◌) refl, spliced-IsOwned n idx old new at t l w)

replay_op-Owned :
    (blobs : BlobStore) (n idx : ℕ) (op : Op) (t : Tape) (o : Option Tape)
    → idx < n
    → IsOwned n t
    → replay_op blobs idx op t ≡ ok o
    → Owned n o
unfolding replay_op
replay_op-Owned blobs n idx (create path mode blob content_b64) t o l w e =
    let (content, f, g) = >>=-eq-ok (created_bytes blobs blob content_b64) _ e in
    (
      _,
      sym (ok_injective g),
      record { parallel = length-stamped idx content; below = stamped-Below n idx content l },
    )
replay_op-Owned blobs n idx (edit path old_str new_str) t o l w e =
    let (at, f, g) = >>=-eq-ok (ok_or (find_unique t.content old_str) corrupt) _ e in
    subst (Owned n) (ok_injective g) (
      overwrite-Owned n idx old_str new_str at t l w
        (find_unique_fits t.content old_str at (ok_or-eq-ok _ _ f)))
replay_op-Owned blobs n idx (delete path blob) t o l w e =
    (_, sym (ok_injective e), record { parallel = refl; below = tt })
replay_op-Owned blobs n idx (chmod path old_mode new_mode) t o l w e = (t, sym (ok_injective e), w)

-- What follows a step that did not panic.
after-Owned :
    (n : ℕ) (next : Option Tape) (f : Tape → Result (Option Tape)) (o : Option Tape)
    → Owned n next
    → ((u : Tape) → IsOwned n u → f u ≡ ok o → Owned n o)
    → unless_panic next f ≡ ok o
    → Owned n o
after-Owned n next f o (u, q, v) k e = k u v (rw q at e)

replay_ops-Owned :
    (blobs : BlobStore) (path : Bytes) (n idx : ℕ) (ops : List Op) (t : Tape) (o : Option Tape)
    → idx < n
    → IsOwned n t
    → replay_ops blobs path idx ops t ≡ ok o
    → Owned n o
unfolding replay_ops
replay_ops-Owned blobs path n idx [] t o l w e = (t, sym (ok_injective e), w)
replay_ops-Owned blobs path n idx (op ∷ ops) t o l w e =
    let (next, f, g) =
      >>=-eq-ok (if str_eq (op_path op) path then replay_op blobs idx op t else ok (some t)) _ e in
    after-Owned n next (replay_ops blobs path idx ops) o
      (elim (Bool-cases (str_eq (op_path op) path)) [
        | inl y ↦ replay_op-Owned blobs n idx op t next l w (rw (y, if◌then◌else◌) at f)
        | inr m ↦ (t, sym (ok_injective (rw (m, if◌then◌else◌) at f)), w)
      ])
      (λ u v. replay_ops-Owned blobs path n idx ops u o l v) g

pub replay_history-Owned :
    (blobs : BlobStore) (path : Bytes) (n idx : ℕ) (history : List LogLine) (t : Tape)
    (o : Option Tape)
    → idx + length history ≤ n
    → IsOwned n t
    → replay_history blobs path idx history t ≡ ok o
    → Owned n o
unfolding replay_history
replay_history-Owned blobs path n idx [] t o l w e = (t, sym (ok_injective e), w)
replay_history-Owned blobs path n idx (line ∷ history) t o l w e =
    let (next, f, g) = >>=-eq-ok (replay_ops blobs path idx line.intent.ops t) _ e in
    after-Owned n next (replay_history blobs path (suc idx) history) o
      (replay_ops-Owned blobs path n idx line.intent.ops t next (omega (arith, l)) w f)
      (λ u v. replay_history-Owned blobs path n (suc idx) history u o (omega (arith, l)) v) g
