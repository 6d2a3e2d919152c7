-- ===== src/Blobio/Assembled.antt =====
-- The results of the parts, put in order again.
use kdrive.Common.{
  ℕ, suc, ◌+◌, ◌≤◌, ◌<◌, ◌≡◌, ◌≢◌, refl, sym, ap, ◌∙◌, List, [], ◌∷◌, ◌++◌, map, none, some, ok,
  within, without, length, All, All-map, arith,
}
use kdrive.Common.Reorders.{Reorders, done, next, swap, twice, All-Reorders, Reorders-sym}
use kdrive.BlobStore.{UploadedPart}
use kdrive.Local.State.{LocalEnv}
use kdrive.Local.Staged.{AreParts, joined}
use kdrive.Local.Assembly.{completed}
use kdrive.Blobio.Parts.{numbered, result_of, max_part, assemble_loop, assemble}
use mathlib.Core.List.{flatten}

later-parts : (k i : ℕ) (ps : List (List ℕ)) → k < i → All (λ y. y.0 ≢ k) (numbered i ps)
unfolding numbered
later-parts k i [] lt = tt
later-parts k i (p ∷ ps) lt = ((λ e. omega (arith, e, lt)), later-parts k (suc i) ps (omega arith))

pub numbered-AreParts : (i : ℕ) (ps : List (List ℕ)) → 1 ≤ i → AreParts (numbered i ps)
unfolding numbered
numbered-AreParts i [] le = tt
numbered-AreParts i (p ∷ ps) le =
    (le, later-parts i (suc i) ps (omega arith), numbered-AreParts (suc i) ps (omega arith))

pub joined-numbered : (i : ℕ) (ps : List (List ℕ)) → joined (numbered i ps) ≡ flatten ps
unfolding numbered flatten
joined-numbered i [] = refl
joined-numbered i (p ∷ ps) = ap (λ r. p ++ r) (joined-numbered (suc i) ps)

pub Reorders-AreParts : (xs ys : List (ℕ × List ℕ)) → Reorders xs ys → AreParts xs → AreParts ys
Reorders-AreParts _ _ done h = h
Reorders-AreParts _ _ (next {x} {xs} {ys} r) h =
    (h.0, All-Reorders (λ y. y.0 ≢ x.0) xs ys r h.1, Reorders-AreParts xs ys r h.2)
Reorders-AreParts _ _ (swap {x} {y} {zs}) h =
    (h.2.0, ((λ e. h.1.0 (sym e)), h.2.1), (h.0, h.1.1, h.2.2))
Reorders-AreParts xs zs (twice {ys} r s) h = Reorders-AreParts ys zs s (Reorders-AreParts xs ys r h)

module _ ⦃env : LocalEnv⦄ where
  -- What the pool hands on of a part that was stored.
  abbrev pub stored : ℕ × List ℕ → ℕ × UploadedPart
  stored j =
      (j.0, record { part_number = j.0; checksum_sha256 = env.sha256_hex j.1; size = length j.1 })

  max-Reorders :
      (xs ys : List (ℕ × List ℕ))
      → Reorders xs ys
      → max_part (map stored xs) ≡ max_part (map stored ys)
  unfolding max_part
  max-Reorders _ _ done = refl
  max-Reorders _ _ (next {x} {xs} {ys} r) = rw (max-Reorders xs ys r) refl
  max-Reorders _ _ (swap {x} {y} {zs}) = ground arith
  max-Reorders xs zs (twice {ys} r s) = max-Reorders xs ys r ∙ max-Reorders ys zs s

  max-numbered :
      (i : ℕ) (p : List ℕ) (ps : List (List ℕ))
      → max_part (map stored (numbered i (p ∷ ps))) ≡ i + length ps
  unfolding max_part numbered
  max-numbered i p [] = ground arith
  max-numbered i p (q ∷ ps) = ground (arith, max-numbered (suc i) q ps)

  max-whole : (ps : List (List ℕ)) → max_part (map stored (numbered 1 ps)) ≡ length ps
  unfolding max_part numbered
  max-whole [] = refl
  max-whole (p ∷ ps) = max-numbered 1 p ps ∙ omega arith

  absent-result :
      (n : ℕ) (xs : List (ℕ × List ℕ)) → All (λ y. y.0 ≢ n) xs → result_of n (map stored xs) ≡ none
  unfolding result_of
  absent-result n [] h = refl
  absent-result n (x ∷ xs) h =
      let ne = h.0 in
      without (result_of n (map stored xs)) _ _ (absent-result n xs h.1) ∙ ground arith

  results-All :
      (xs : List (ℕ × List ℕ))
      → AreParts xs
      → All (λ x. result_of x.0 (map stored xs) ≡ some (stored x).1) xs
  unfolding result_of
  results-All [] h = tt
  results-All (x ∷ xs) h = (
    without (result_of x.0 (map stored xs)) _ _ (absent-result x.0 xs h.1) ∙ ground arith,
    All-map _ _ xs (λ y found. within (result_of y.0 (map stored xs)) _ _ (stored y).1 found)
        (results-All xs h.2),
  )

  assemble_loop-numbered :
      (i : ℕ) (ps : List (List ℕ)) (rs : List (ℕ × UploadedPart))
      → All (λ x. result_of x.0 rs ≡ some (stored x).1) (numbered i ps)
      → assemble_loop (length ps) i rs ≡ ok (map completed (numbered i ps))
  unfolding assemble_loop numbered
  assemble_loop-numbered i [] rs h = refl
  assemble_loop-numbered i (p ∷ ps) rs h =
      within (result_of i rs) _ _ (stored (i, p)).1 h.0
      ∙ rw (assemble_loop-numbered (suc i) ps rs h.1) refl

  -- Whatever the order of the results, they are assembled in that of the parts.
  pub assemble-Reorders :
      (ps : List (List ℕ)) (jobs : List (ℕ × List ℕ))
      → Reorders (numbered 1 ps) jobs
      → assemble (map stored jobs) ≡ ok (map completed (numbered 1 ps))
  unfolding assemble
  assemble-Reorders ps jobs r =
      let parts = Reorders-AreParts (numbered 1 ps) jobs r (numbered-AreParts 1 ps (omega arith)) in
      let found =
        All-Reorders _ jobs (numbered 1 ps) (Reorders-sym (numbered 1 ps) jobs r)
          (results-All jobs parts) in
      rw (sym (max-Reorders (numbered 1 ps) jobs r) ∙ max-whole ps)
        (assemble_loop-numbered 1 ps (map stored jobs) found)
