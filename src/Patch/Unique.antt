-- ===== src/Patch/Unique.antt =====
-- Proofs on `find_unique` and `replace_unique` of src/patch.rs.
use tally_vcs.Prelude.{
  ℕ, zero, suc, ◌+◌, ◌-◌, ◌≤◌, ◌<◌, true, false, List, [], ◌∷◌, ◌++◌, ◌≡◌, refl, sym, ap, ◌∙◌,
  arith, length, take, drop, Bool-cases, inl, inr, length-append, true≢false,
}
use tally_vcs.Prelude.Bytes.{Bytes, starts_with}
use tally_vcs.Patch.Span.{
  hits, all_hits, Counted, found, occurs, unique_hit, find_unique, splice, replace_unique,
}

drop_next : (k : ℕ) (s : Bytes) → drop k (drop 1 s) ≡ drop (suc k) s
drop_next zero [] = refl
drop_next (suc k) [] = refl
drop_next k (x ∷ s) = refl

take-drop : (k : ℕ) (s : Bytes) → take k s ++ drop k s ≡ s
take-drop zero s = refl
take-drop (suc k) [] = refl
take-drop (suc k) (x ∷ s) = ap (λ (t : Bytes). x ∷ t) (take-drop k s)

drop_nil : (n : ℕ) → drop {A = ℕ} n [] ≡ []
drop_nil zero = refl
drop_nil (suc n) = refl

drop_add : (k n : ℕ) (s : Bytes) → drop n (drop k s) ≡ drop (k + n) s
drop_add zero n s = ap (λ (m : ℕ). drop m s) (omega arith)
drop_add (suc k) n [] = drop_nil n ∙ sym (drop_nil (suc k + n))
drop_add (suc k) n (x ∷ s) =
    let e : suc (k + n) ≡ suc k + n = omega arith in
    drop_add k n s ∙ ap (λ (m : ℕ). drop m (x ∷ s)) e

starts_with-eq : (p s : Bytes) → starts_with p s ≡ true → s ≡ p ++ drop (length p) s
unfolding starts_with
starts_with-eq [] s h = refl
starts_with-eq (c ∷ p) [] h = cc
starts_with-eq (c ∷ p) (x ∷ s) h = ground (arith, starts_with-eq p s)

starts_with-append : (p s : Bytes) → starts_with p (p ++ s) ≡ true
unfolding starts_with
starts_with-append [] s = refl
starts_with-append (c ∷ p) s = ground (arith, starts_with-append p s)

drop-append : (a b : Bytes) → drop (length a) (a ++ b) ≡ b
drop-append [] b = refl
drop-append (x ∷ a) b = drop-append a b

take-append : (a b : Bytes) → take (length a) (a ++ b) ≡ a
take-append [] b = refl
take-append (x ∷ a) b = ap (λ (t : Bytes). x ∷ t) (take-append a b)

-- No hit: the needle stands at no offset that was tried.
hits_none :
    (rounds i : ℕ) (rest needle : Bytes) (k : ℕ)
    → hits rounds i rest needle ≡ []
    → k < rounds
    → starts_with needle (drop k rest) ≡ false
unfolding hits
hits_none zero i rest needle k h l = absurd (omega arith)
hits_none (suc rounds) i rest needle zero h l = ground arith
hits_none (suc rounds) i rest needle (suc k) h l =
    rw (sym (drop_next k rest))
      (hits_none rounds (i + 1) (drop 1 rest) needle k (ground arith) (omega arith))

-- One hit: the needle stands there, and at no other offset that was tried.
hits_one :
    (rounds i : ℕ) (rest needle : Bytes) (at : ℕ)
    → hits rounds i rest needle ≡ at ∷ []
    → (k : ℕ) × (at ≡ i + k)
      × (starts_with needle (drop k rest) ≡ true)
      × ((j : ℕ) → j < rounds → starts_with needle (drop j rest) ≡ true → j ≡ k)
unfolding hits
hits_one zero i rest needle at h = cc
hits_one (suc rounds) i rest needle at h = elim (Bool-cases (starts_with needle rest)) [
  | inl e ↦ (0, ground arith, e, only (ground arith))
  | inr n ↦
      let (k, p, q, r) = hits_one rounds (i + 1) (drop 1 rest) needle at (ground arith) in
      (suc k, omega arith, rw (sym (drop_next k rest)) q, shifted n k r)
]
  where
    only :
        hits rounds (i + 1) (drop 1 rest) needle ≡ []
        → (j : ℕ) → j < suc rounds
        → starts_with needle (drop j rest) ≡ true
        → j ≡ 0
    only e zero l s = refl
    only e (suc j) l s =
        let f = hits_none rounds (i + 1) (drop 1 rest) needle j e (omega arith) in
        absurd (true≢false (sym s ∙ (ap (starts_with needle) (sym (drop_next j rest)) ∙ f)))

    shifted :
        starts_with needle rest ≡ false
        → (k : ℕ)
        → ((j : ℕ) → j < rounds → starts_with needle (drop j (drop 1 rest)) ≡ true → j ≡ k)
        → (j : ℕ) → j < suc rounds
        → starts_with needle (drop j rest) ≡ true
        → j ≡ suc k
    shifted n k r zero l s = absurd (true≢false (sym s ∙ n))
    shifted n k r (suc j) l s =
        ap suc (r j (omega arith) (ap (starts_with needle) (drop_next j rest) ∙ s))

unique_hit-eq : (hs : List ℕ) (at : ℕ) → unique_hit hs ≡ found at → hs ≡ at ∷ []
unfolding unique_hit
unique_hit-eq [] at h = cc
unique_hit-eq (x ∷ []) at h = ground arith
unique_hit-eq (x ∷ y ∷ more) at h = cc

drop_fits : (k n : ℕ) (s : Bytes) → 1 ≤ n → n ≤ length (drop k s) → k + n ≤ length s
drop_fits zero n s l h = omega (arith, h)
drop_fits (suc k) n [] l h = absurd (omega (arith, l, h))
drop_fits (suc k) n (x ∷ s) l h = omega (arith, drop_fits k n s l h)

-- The needle that stands at the only offset ends inside the text.
pub sole_hit_fits :
    (content old : Bytes) (at : ℕ)
    → 1 ≤ length old
    → all_hits content old ≡ at ∷ []
    → at + length old ≤ length content
sole_hit_fits content old at l g =
    let rounds = suc (length content - length old) in
    let (k, p, q, only) = hits_one rounds 0 content old at g in
    let e = starts_with-eq old (drop k content) q in
    let m : length (drop k content) ≡ length old + length (drop (length old) (drop k content)) =
      ap length e ∙ length-append old (drop (length old) (drop k content)) in
    let room : length old ≤ length (drop k content) = omega (arith, m) in
    omega (arith, p, drop_fits k (length old) content l room)

find_unique-eq :
    (content old : Bytes) (at : ℕ)
    → find_unique content old ≡ found at
    → (length old ≤ length content) × (all_hits content old ≡ at ∷ [])
unfolding find_unique
find_unique-eq content old at h = ground (arith, unique_hit-eq (all_hits content old) at)

splice-eq :
    (content old new : Bytes) (o : Counted ℕ) (out : Bytes)
    → splice content old new o ≡ found out
    → (at : ℕ) × (o ≡ found at) × (out ≡ take at content ++ (new ++ drop (at + length old) content))
splice-eq content old new (found at) out h = (at, refl, ground arith)
splice-eq content old new (occurs n) out h = cc

-- Both: the replacement stands where `old` stood, and `old` stands nowhere else.
replace_unique_lem :
    (content old new out : Bytes)
    → replace_unique content old new ≡ found out
    → (before : Bytes) × (behind : Bytes) × (content ≡ before ++ (old ++ behind))
      × (out ≡ before ++ (new ++ behind))
      × ((pre post : Bytes) → content ≡ pre ++ (old ++ post) → pre ≡ before)
unfolding replace_unique
replace_unique_lem content old new out h =
    let (at, e, f) = splice-eq content old new (find_unique content old) out h in
    let (l, g) = find_unique-eq content old at e in
    let rounds = suc (length content - length old) in
    let (k, p, q, only) = hits_one rounds 0 content old at g in
    let at_k : at ≡ k = omega arith in
    let tail : drop k content ≡ old ++ drop (k + length old) content =
      starts_with-eq old (drop k content) q
      ∙ ap (λ (t : Bytes). old ++ t) (drop_add k (length old) content) in
    (
      take k content,
      drop (k + length old) content,
      sym (take-drop k content) ∙ ap (λ (t : Bytes). take k content ++ t) tail,
      f ∙ ap (λ (n : ℕ). take n content ++ (new ++ drop (n + length old) content)) at_k,
      λ pre post m.
          let n : length content ≡ length pre + (length old + length post) =
            ap length m
            ∙ (length-append pre (old ++ post)
                ∙ ap (λ (n : ℕ). length pre + n) (length-append old post)) in
          let there : starts_with old (drop (length pre) content) ≡ true =
            ap (λ (t : Bytes). starts_with old (drop (length pre) t)) m
            ∙ (ap (starts_with old) (drop-append pre (old ++ post))
                ∙ starts_with-append old post) in
          let len : length pre ≡ k = only (length pre) (omega arith) there in
          sym (take-append pre (old ++ post))
          ∙ (ap (take (length pre)) (sym m) ∙ ap (λ (n : ℕ). take n content) len),
    )

-- A replacement that succeeds puts new in the place of an occurrence of old and changes nothing
-- before or behind it.
pub replace_unique-splice :
    (content old new out : Bytes)
    → replace_unique content old new ≡ found out
    → (before : Bytes) × (behind : Bytes) × (content ≡ before ++ (old ++ behind))
      × (out ≡ before ++ (new ++ behind))
replace_unique-splice content old new out h =
    let (before, behind, c, o, only) = replace_unique_lem content old new out h in
    (before, behind, c, o)

append_cancel : (a b c : Bytes) → a ++ b ≡ a ++ c → b ≡ c
append_cancel a b c e = sym (drop-append a b) ∙ (ap (drop (length a)) e ∙ drop-append a c)

-- If a replacement of old by new succeeds, then from any occurrence of old in the content,
-- replacing that one gives the result: old stands at one place only.
pub replace_unique_at :
    (content old new out pre post : Bytes)
    → replace_unique content old new ≡ found out
    → content ≡ pre ++ (old ++ post)
    → out ≡ pre ++ (new ++ post)
replace_unique_at content old new out pre post h m =
    let (before, behind, c, o, only) = replace_unique_lem content old new out h in
    let e : pre ≡ before = only pre post m in
    let tails : old ++ behind ≡ old ++ post =
      append_cancel before (old ++ behind) (old ++ post)
        (sym c ∙ (m ∙ ap (λ (t : Bytes). t ++ (old ++ post)) e)) in
    o
    ∙ (ap (λ (t : Bytes). before ++ (new ++ t)) (append_cancel old behind post tails)
        ∙ ap (λ (t : Bytes). t ++ (new ++ post)) (sym e))
