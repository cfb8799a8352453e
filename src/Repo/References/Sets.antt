-- ===== src/Repo/References/Sets.antt =====
-- The loops of `referenced_blobs` of src/repo.rs: what each puts into the set.
use tally_vcs.Prelude.{
  Bool, true, false, List, [], ◌∷◌, Option, none, some, ◌≡◌, refl, sym, ap, ◌∙◌, ◌⊎◌, inl, inr,
  Bool-cases, ok, >>=-eq-ok, ok_injective, subst, ◌||◌,
}
use tally_vcs.Prelude.Bytes.{Bytes, bytes, str_eq, str_eq→eq, str_eq_refl}
use tally_vcs.BTreeMap
use tally_vcs.BTreeMap.{contains_key, is_some}
use tally_vcs.Ident.Record.{ElementRecord}
use tally_vcs.Json.{Value, null, bool, number, string, array, object}
use tally_vcs.Json.RecordId.{get_value, as_str}
use tally_vcs.Log.{LogLine}
use tally_vcs.Log.Stored.{StoredLine, line, blob_ref, add_refs}
use tally_vcs.Patch.{RealizedEntry, added}
use tally_vcs.Repo.Collect.{
  add_records, extend, add_added, add_option, reads_blob, refs_of_entries, refs_of_lines,
}
use tally_vcs.Union.{BTreeSet, set_insert}
use tally_vcs.Union.Commutes.{contains-set_insert}
use tally_vcs.Repo.References.{AnyOf, AddsBlob, LineRefers}

module _ (key : Bytes) where
  abbrev Has : BTreeSet → Type 0
  Has s = contains_key key s ≡ true

  -- What is put into a set: the key, in the case `P`.
  pub record Adds (P : Type 0) (s t : BTreeSet) : Type 0 where
    pub only : Has t → P ⊎ Has s
    pub both : P ⊎ Has s → Has t

  pub Adds-nothing : {P : Type 0} (s : BTreeSet) → ¬ P → Adds P s s
  Adds-nothing s n = record {
    only = λ k. inr k;
    both = λ c. elim c [ inl p ↦ absurd (n p) | inr k ↦ k ];
  }

  pub Adds-then : {P Q : Type 0} {s t u : BTreeSet} → Adds P s t → Adds Q t u → Adds (P ⊎ Q) s u
  Adds-then a b = record {
    only = λ k. elim (b.only k) [
      | inl q ↦ inl (inr q)
      | inr l ↦ elim (a.only l) [ inl p ↦ inl (inl p) | inr m ↦ inr m ]
    ];
    both = λ c. elim c [
      | inl pq ↦ elim pq [ inl p ↦ b.both (inr (a.both (inl p))) | inr q ↦ b.both (inl q) ]
      | inr m ↦ b.both (inr (a.both (inr m)))
    ];
  }

  pub Adds-same : {P Q : Type 0} {s t : BTreeSet} → (P → Q) → (Q → P) → Adds P s t → Adds Q s t
  Adds-same p q a = record {
    only = λ k. elim (a.only k) [ inl x ↦ inl (p x) | inr m ↦ inr m ];
    both = λ c. elim c [ inl y ↦ a.both (inl (q y)) | inr m ↦ a.both (inr m) ];
  }

  Adds-set_insert : (hash : Bytes) (s : BTreeSet) → Adds (hash ≡ key) s (set_insert hash s)
  Adds-set_insert hash s = record {
    only = λ k. elim (Bool-cases (str_eq key hash)) [
      | inl y ↦ inl (sym (str_eq→eq key hash y))
      | inr n ↦ inr (either_right (str_eq key hash) n (sym (contains-set_insert hash key s) ∙ k))
    ];
    both = λ c. contains-set_insert hash key s ∙ elim c [
      | inl e ↦ either_left (contains_key key s) (ap (str_eq key) e ∙ str_eq_refl key)
      | inr m ↦ either_last (str_eq key hash) m
    ];
  }
    where
      either_left : {a : Bool} (b : Bool) → a ≡ true → (a || b) ≡ true
      either_left b e = rw e refl

      either_last : (a : Bool) {b : Bool} → b ≡ true → (a || b) ≡ true
      either_last true e = refl
      either_last false e = e

      either_right : (a : Bool) {b : Bool} → a ≡ false → (a || b) ≡ true → b ≡ true
      either_right true n e = absurd (cc)
      either_right false n e = e

  pub Adds-add_records :
      (rs : List ElementRecord) (s : BTreeSet)
      → Adds (AnyOf (λ (e : ElementRecord). e.blob ≡ key) rs) s (add_records rs s)
  Adds-add_records [] s = Adds-nothing s (λ x. x)
  Adds-add_records (r ∷ rs) s =
      Adds-then (Adds-set_insert r.blob s) (Adds-add_records rs (set_insert r.blob s))

  pub Adds-extend : (a s : BTreeSet) → Adds (Has a) s (extend a s)
  unfolding BTreeMap.get
  Adds-extend [] s = Adds-nothing s (λ x. absurd (cc))
  Adds-extend ((k, u) ∷ more) s =
      Adds-same
        (λ c. elim c [
          | inl e ↦ rw (sym e) (rw (str_eq_refl k) refl)
          | inr m ↦ elim (Bool-cases (str_eq key k)) [ inl y ↦ rw y refl | inr n ↦ rw n m ]
        ])
        (λ m. elim (Bool-cases (str_eq key k)) [
          | inl y ↦ inl (sym (str_eq→eq key k y))
          | inr n ↦ inr (rw n at m)
        ])
        (Adds-then (Adds-set_insert k s) (Adds-extend more (set_insert k s)))

  Adds-add_option : (o : Option Bytes) (s : BTreeSet) → Adds (o ≡ some key) s (add_option o s)
  Adds-add_option none s = Adds-nothing s (λ x. absurd (cc))
  Adds-add_option (some hash) s = Adds-same (λ e. ap some e) (λ e. cc) (Adds-set_insert hash s)

  pub Adds-add_refs :
      (ps : List StoredLine) (s : BTreeSet)
      → Adds (AnyOf (λ (p : StoredLine). p ≡ blob_ref key) ps) s (add_refs ps s)
  Adds-add_refs [] s = Adds-nothing s (λ x. x)
  Adds-add_refs (line l ∷ ps) s =
      Adds-then (Adds-nothing {P = line l ≡ blob_ref key} s (λ e. cc)) (Adds-add_refs ps s)
  Adds-add_refs (blob_ref hash ∷ ps) s =
      Adds-then
        (Adds-same {Q = blob_ref hash ≡ blob_ref key} (λ e. ap blob_ref e) (λ e. cc)
          (Adds-set_insert hash s))
        (Adds-add_refs ps (set_insert hash s))

  Adds-refs_of_entries :
      (es : List RealizedEntry) (s t : BTreeSet)
      → refs_of_entries es s ≡ ok t
      → Adds (AnyOf (AddsBlob key) es) s t
  unfolding refs_of_entries
  Adds-refs_of_entries [] s t e = subst (Adds ⊥ s) (ok_injective e) (Adds-nothing s (λ x. x))
  Adds-refs_of_entries (entry ∷ es) s t e =
      let (o, f, g) = >>=-eq-ok (added entry) _ e in
      Adds-then (of_entry o f) (Adds-refs_of_entries es (add_added o s) t g)
    where
      of_entry :
          (o : Option ElementRecord)
          → added entry ≡ ok o
          → Adds (AddsBlob key entry) s (add_added o s)
      of_entry none f = Adds-nothing s (λ x. absurd (none-ne-some (sym f ∙ x.1)))
        where
          none-ne-some : {r : ElementRecord} → ¬ (ok none ≡ ok (some r))
          none-ne-some h = cc
      of_entry (some r) f =
          Adds-same (λ e. (r, f, e))
            (λ x. ap (λ (q : ElementRecord). q.blob) (same (sym f ∙ x.1)) ∙ x.2)
            (Adds-set_insert r.blob s)
        where
          same : {q : ElementRecord} → ok (some r) ≡ ok (some q) → r ≡ q
          same h = cc

  as_str→ : (o : Option Value) → as_str o ≡ some key → o ≡ some (string key)
  unfolding as_str
  as_str→ none k = absurd (cc)
  as_str→ (some (string x)) k = cc
  as_str→ (some null) k = absurd (cc)
  as_str→ (some (bool b)) k = absurd (cc)
  as_str→ (some (number n)) k = absurd (cc)
  as_str→ (some (array vs)) k = absurd (cc)
  as_str→ (some (object ms)) k = absurd (cc)

  reads_blob→ :
      (o : Option Value)
      → reads_blob o ≡ some key
      → (v : Value) × (o ≡ some v) × (get_value (bytes "reads_blob") v ≡ some (string key))
  reads_blob→ none k = absurd (cc)
  reads_blob→ (some v) k = (v, refl, as_str→ (get_value (bytes "reads_blob") v) k)

  →reads_blob :
      (o : Option Value)
      → (v : Value) × (o ≡ some v) × (get_value (bytes "reads_blob") v ≡ some (string key))
      → reads_blob o ≡ some key
  unfolding as_str
  →reads_blob o (v, e, k) = rw e (rw k refl)

  pub Adds-refs_of_lines :
      (ls : List LogLine) (s t : BTreeSet)
      → refs_of_lines ls s ≡ ok t
      → Adds (AnyOf (LineRefers key) ls) s t
  unfolding refs_of_lines
  Adds-refs_of_lines [] s t e = subst (Adds ⊥ s) (ok_injective e) (Adds-nothing s (λ x. x))
  Adds-refs_of_lines (l ∷ ls) s t e =
      let (more, f, g) = >>=-eq-ok (refs_of_entries l.realized s) _ e in
      let signed = add_option l.annotation.sig more in
      let reads = reads_blob l.annotation.reads in
      Adds-then
        (Adds-then (Adds-refs_of_entries l.realized s more f) (
          Adds-then (Adds-add_option l.annotation.sig more) (
            Adds-same (reads_blob→ l.annotation.reads) (→reads_blob l.annotation.reads)
              (Adds-add_option reads signed))))
        (Adds-refs_of_lines ls (add_option reads signed) t g)
