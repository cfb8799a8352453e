-- ===== src/Patch/Invert.antt =====
-- The inverse of a delta, of `lineage_states` of src/revision.rs, and proofs on its folding into a
-- sum.
use tally_vcs.Prelude.{List, [], ◌∷◌, Option, none, some, ◌≡◌, refl, sym, ap, ◌∙◌, ok, >>=-eq-ok}
use tally_vcs.Prelude.Bytes.{Bytes}
use tally_vcs.Ident.Record.{ElementRecord, to_bytes}
use tally_vcs.Patch.{RealizedEntry, removed, added, remove_sum, add_sum, apply_realized_to_sum}
use tally_vcs.Setsum.{
  Setsum, Sum, insert-remove, remove-insert, insert-remove_comm, insert_comm, remove_comm,
}

-- The delta that undoes another one, as `lineage_states` of src/revision.rs makes it: each entry
-- with its sides exchanged, in the same order.
abbrev pub invert_entry : RealizedEntry → RealizedEntry
invert_entry e = record { remove = e.add; add = e.remove }

unfoldable pub invert : List RealizedEntry → List RealizedEntry
invert [] = []
invert (e ∷ es) = invert_entry e ∷ invert es

module _ ⦃S : Setsum⦄ where
  -- One entry and its inverse cancel.
  exchange_cancel :
      (r a : Option ElementRecord) (s : Sum)
      → add_sum r (remove_sum a (add_sum a (remove_sum r s))) ≡ s
  exchange_cancel none none s = refl
  exchange_cancel none (some a) s = remove-insert s (to_bytes a)
  exchange_cancel (some r) none s = insert-remove s (to_bytes r)
  exchange_cancel (some r) (some a) s =
      rw (remove-insert (S.remove s (to_bytes r)) (to_bytes a)) (insert-remove s (to_bytes r))

  add_sum-insert :
      (o : Option ElementRecord) (s : Sum) (x : Bytes)
      → add_sum o (S.insert s x) ≡ S.insert (add_sum o s) x
  add_sum-insert none s x = refl
  add_sum-insert (some r) s x = insert_comm s x (to_bytes r)

  add_sum-remove :
      (o : Option ElementRecord) (s : Sum) (x : Bytes)
      → add_sum o (S.remove s x) ≡ S.remove (add_sum o s) x
  add_sum-remove none s x = refl
  add_sum-remove (some r) s x = insert-remove_comm s x (to_bytes r)

  remove_sum-insert :
      (o : Option ElementRecord) (s : Sum) (x : Bytes)
      → remove_sum o (S.insert s x) ≡ S.insert (remove_sum o s) x
  remove_sum-insert none s x = refl
  remove_sum-insert (some r) s x = sym (insert-remove_comm s (to_bytes r) x)

  remove_sum-remove :
      (o : Option ElementRecord) (s : Sum) (x : Bytes)
      → remove_sum o (S.remove s x) ≡ S.remove (remove_sum o s) x
  remove_sum-remove none s x = refl
  remove_sum-remove (some r) s x = remove_comm s x (to_bytes r)

  -- A function on sums that commutes with every insertion and removal.
  abbrev Commutes : (Sum → Sum) → Type 0
  Commutes f =
      ((s : Sum) (x : Bytes) → f (S.insert s x) ≡ S.insert (f s) x)
      × ((s : Sum) (x : Bytes) → f (S.remove s x) ≡ S.remove (f s) x)

  Commutes-entry :
      (f : Sum → Sum) (r a : Option ElementRecord) (s : Sum)
      → Commutes f
      → f (add_sum a (remove_sum r s)) ≡ add_sum a (remove_sum r (f s))
  Commutes-entry f none none s c = refl
  Commutes-entry f none (some a) s c = c.0 s (to_bytes a)
  Commutes-entry f (some r) none s c = c.1 s (to_bytes r)
  Commutes-entry f (some r) (some a) s c =
      c.0 (S.remove s (to_bytes r)) (to_bytes a)
      ∙ ap (λ (t : Sum). S.insert t (to_bytes a)) (c.1 s (to_bytes r))

  shift :
      (f : Sum → Sum) (es : List RealizedEntry) (s t : Sum)
      → Commutes f
      → apply_realized_to_sum s es ≡ ok t
      → apply_realized_to_sum (f s) es ≡ ok (f t)
  unfolding apply_realized_to_sum
  shift f [] s t c h = ap (λ (u : Sum). ok (f u)) (cc)
  shift f (e ∷ es) s t c h =
      let (r, hr, h₁) = >>=-eq-ok (removed e) _ h in
      let (a, ha, h₂) = >>=-eq-ok (added e) _ h₁ in
      rw (hr, ha)
        (ap (λ (u : Sum). apply_realized_to_sum u es) (sym (Commutes-entry f r a s c))
          ∙ shift f es (add_sum a (remove_sum r s)) t c h₂)

  Commutes-sides : (r a : Option ElementRecord) → Commutes (λ s. add_sum a (remove_sum r s))
  Commutes-sides r a = (
    (λ s x. ap (add_sum a) (remove_sum-insert r s x) ∙ add_sum-insert a (remove_sum r s) x),
    (λ s x. ap (add_sum a) (remove_sum-remove r s x) ∙ add_sum-remove a (remove_sum r s) x),
  )

  -- If folding a realized delta into a sum succeeds, folding the inverse delta into the result
  -- succeeds and gives the first sum back.
  pub apply_realized-invert :
      (es : List RealizedEntry) (s t : Sum)
      → apply_realized_to_sum s es ≡ ok t
      → apply_realized_to_sum t (invert es) ≡ ok s
  unfolding apply_realized_to_sum invert removed added
  apply_realized-invert [] s t h = sym h
  apply_realized-invert (e ∷ es) s t h =
      let (r, hr, h₁) = >>=-eq-ok (removed e) _ h in
      let (a, ha, h₂) = >>=-eq-ok (added e) _ h₁ in
      rw (ha, hr)
        (shift (λ u. add_sum r (remove_sum a u)) (invert es) t (add_sum a (remove_sum r s))
            (Commutes-sides a r) (apply_realized-invert es (add_sum a (remove_sum r s)) t h₂)
          ∙ ap ok (exchange_cancel r a s))
