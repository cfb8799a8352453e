-- ===== src/Log/Chain.antt =====
-- Proofs on `verify_chain` of src/log.rs.
use tally_vcs.Prelude.{
  List, [], ◌∷◌, ◌++◌, ◌≡◌, ◌↔◌, refl, sym, ◌∙◌, inl, inr, Bool-cases, ok, corrupt, ◌>>=◌, require,
  >>=-eq-ok, require-eq-ok, ok_injective, subst, Result-cases,
}
use tally_vcs.Prelude.Bytes.{Bytes, str_eq, str_eq_refl, str_eq→eq}
use tally_vcs.Patch.{
  RealizedEntry, removed, added, add_sum, remove_sum, apply_realized_to_sum,
  apply_realized_to_manifest,
}
use tally_vcs.Patch.Arithmetic.{sum-apply_realized}
use tally_vcs.Manifest
use tally_vcs.Manifest.{Manifest}
use tally_vcs.Log.{LogLine, verify_lines, verify_chain}
use tally_vcs.Setsum.{Setsum, Sum, hexdigest}

module _ ⦃S : Setsum⦄ where
  -- The lines lead from one sum to another: each names the line before it, and states the sum that
  -- its own delta leads to.
  pub data Chain (last : Sum) : Sum → Bytes → List LogLine → Type 0 where
    done : (prev : Bytes) → Chain last last prev []
    link :
        {sum sum₁ : Sum} {prev : Bytes} {line : LogLine} {lines : List LogLine}
        → line.prev ≡ prev
        → apply_realized_to_sum sum line.realized ≡ ok sum₁
        → hexdigest sum₁ ≡ line.sum_after
        → Chain last sum₁ line.id lines
        → Chain last sum prev (line ∷ lines)

  verify_lines→Chain :
      (lines : List LogLine) (sum last : Sum) (prev : Bytes)
      → verify_lines sum prev lines ≡ ok last
      → Chain last sum prev lines
  unfolding verify_lines
  verify_lines→Chain [] sum last prev h =
      subst (λ (s : Sum). Chain last s prev []) (sym (ok_injective h)) (done prev)
  verify_lines→Chain (line ∷ lines) sum last prev h =
      let (u, h₀, k₀) = >>=-eq-ok (require (str_eq line.prev prev) corrupt) _ h in
      let (sum₁, h₁, k₁) = >>=-eq-ok (apply_realized_to_sum sum line.realized) _ k₀ in
      let (v, h₂, k₂) = >>=-eq-ok (require (str_eq (hexdigest sum₁) line.sum_after) corrupt) _ k₁ in
      link (str_eq→eq _ _ (require-eq-ok _ _ h₀)) h₁ (str_eq→eq _ _ (require-eq-ok _ _ h₂))
        (verify_lines→Chain lines sum₁ last line.id k₂)

  Chain→verify_lines :
      {last : Sum} {lines : List LogLine} {sum : Sum} {prev : Bytes}
      → Chain last sum prev lines
      → verify_lines sum prev lines ≡ ok last
  unfolding verify_lines
  Chain→verify_lines (done prev) = refl
  Chain→verify_lines (link {line = line} {lines = lines} p a s c) =
      rw (p, str_eq_refl) (rw a (rw (s, str_eq_refl) (Chain→verify_lines c)))

  -- verify_chain accepts a log with a final sum exactly when its lines form a chain from the
  -- anchor and the empty id to that sum, each naming the line before it and stating the sum that
  -- its delta leads to.
  pub verify_chain_iff :
      (anchor last : Sum) (lines : List LogLine)
      → (verify_chain anchor lines ≡ ok last) ↔ Chain last anchor [] lines
  unfolding verify_chain
  verify_chain_iff anchor last lines = (verify_lines→Chain lines anchor last [], Chain→verify_lines)

  -- The id that the next line must name.
  abbrev pub last_id : Bytes → List LogLine → Bytes
  last_id prev [] = prev
  last_id prev (line ∷ lines) = last_id line.id lines

  -- A log verifies exactly if a prefix of it does and the rest goes on from where that ends.
  pub verify_lines-append :
      (xs ys : List LogLine) (sum : Sum) (prev : Bytes)
      → verify_lines sum prev (xs ++ ys)
        ≡ (verify_lines sum prev xs >>= λ mid. verify_lines mid (last_id prev xs) ys)
  unfolding verify_lines
  verify_lines-append [] ys sum prev = refl
  verify_lines-append (x ∷ xs) ys sum prev = elim (Bool-cases (str_eq x.prev prev)) [
    | inr n ↦ rw n refl
    | inl e ↦ rw e (elim (Result-cases (apply_realized_to_sum sum x.realized)) [
      | inr (c, f) ↦ rw f refl
      | inl (sum₁, f) ↦ rw f (elim (Bool-cases (str_eq (hexdigest sum₁) x.sum_after)) [
        | inr n ↦ rw n refl
        | inl g ↦ rw g (verify_lines-append xs ys sum₁ x.id)
      ])
    ])
  ]

  -- The realized deltas of the lines, one after the other.
  abbrev pub all_realized : List LogLine → List RealizedEntry
  all_realized [] = []
  all_realized (line ∷ lines) = line.realized ++ all_realized lines

  apply_realized_to_sum-append :
      (es fs : List RealizedEntry) (s : Sum)
      → apply_realized_to_sum s (es ++ fs)
        ≡ (apply_realized_to_sum s es >>= λ t. apply_realized_to_sum t fs)
  unfolding apply_realized_to_sum
  apply_realized_to_sum-append [] fs s = refl
  apply_realized_to_sum-append (e ∷ es) fs s = elim (Result-cases (removed e)) [
    | inr (c, f) ↦ rw f refl
    | inl (r, f) ↦ rw f (elim (Result-cases (added e)) [
      | inr (c, g) ↦ rw g refl
      | inl (a, g) ↦ rw g (apply_realized_to_sum-append es fs (add_sum a (remove_sum r s)))
    ])
  ]

  Chain-realized :
      {last : Sum} {lines : List LogLine} {sum : Sum} {prev : Bytes}
      → Chain last sum prev lines
      → apply_realized_to_sum sum (all_realized lines) ≡ ok last
  unfolding apply_realized_to_sum
  Chain-realized (done prev) = refl
  Chain-realized (link {sum = sum} {line = line} {lines = lines} p a s c) =
      apply_realized_to_sum-append line.realized (all_realized lines) sum ∙ rw a (Chain-realized c)

  -- If a log verifies from the sum of a manifest and its deltas apply in turn to that manifest,
  -- the sum that verification returns is the sum of the manifest reached.
  pub verify_chain-sum :
      (m n : Manifest) (lines : List LogLine) (last : Sum)
      → verify_chain (Manifest.sum m) lines ≡ ok last
      → apply_realized_to_manifest m (all_realized lines) ≡ ok n
      → last ≡ Manifest.sum n
  verify_chain-sum m n lines last v r = ok_injective (
      sym (Chain-realized ((verify_chain_iff (Manifest.sum m) last lines).0 v))
      ∙ sum-apply_realized (all_realized lines) m n r)

  -- A log whose deltas apply in turn, and whose links and stated sums are those of that replay,
  -- verifies: no digest is compared with anything but the digest of a manifest.
  pub data Replay : Manifest → Bytes → List LogLine → Manifest → Type 0 where
    at_end : (m : Manifest) (prev : Bytes) → Replay m prev [] m
    step :
        {m n last : Manifest} {prev : Bytes} {line : LogLine} {lines : List LogLine}
        → line.prev ≡ prev
        → apply_realized_to_manifest m line.realized ≡ ok n
        → hexdigest (Manifest.sum n) ≡ line.sum_after
        → Replay n line.id lines last
        → Replay m prev (line ∷ lines) last

  Replay→Chain :
      {m last : Manifest} {prev : Bytes} {lines : List LogLine}
      → Replay m prev lines last
      → Chain (Manifest.sum last) (Manifest.sum m) prev lines
  Replay→Chain (at_end m prev) = done prev
  Replay→Chain (step {m = m} {n = n} {line = line} p a s r) =
      link p (sum-apply_realized line.realized m n a) s (Replay→Chain r)

  -- A log that was written by applying deltas to manifests and noting their sums verifies.
  pub verify_chain-Replay :
      {m last : Manifest} {lines : List LogLine}
      → Replay m [] lines last
      → verify_chain (Manifest.sum m) lines ≡ ok (Manifest.sum last)
  verify_chain-Replay {m} {last} {lines} r =
      (verify_chain_iff (Manifest.sum m) (Manifest.sum last) lines).1 (Replay→Chain r)
