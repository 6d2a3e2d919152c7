-- ===== src/Local/Staged.antt =====
-- The parts that an upload has staged.
use kdrive.Common.{
  ℕ, ◌≤◌, ◌≡◌, ◌≢◌, refl, ◌∙◌, ◌==◌, if◌then◌else◌, List, [], ◌∷◌, ◌++◌, some, All, arith,
}
use kdrive.Local.Multipart.{set_part, find_part}

find-set_part :
    (n m : ℕ) (body : List ℕ) (ps : List (ℕ × List ℕ))
    → find_part m (set_part n body ps) ≡ (if n == m then some body else find_part m ps)
unfolding find_part set_part
find-set_part n m body [] = refl
find-set_part n m body (p ∷ ps) = ground (arith, find-set_part n m body ps)

-- What is staged after all parts were sent.
unfoldable pub set_all : List (ℕ × List ℕ) → List (ℕ × List ℕ) → List (ℕ × List ℕ)
set_all [] staged = staged
set_all (x ∷ xs) staged = set_all xs (set_part x.0 x.1 staged)

find-set_all_ne :
    (n : ℕ) (xs staged : List (ℕ × List ℕ))
    → All (λ y. y.0 ≢ n) xs
    → find_part n (set_all xs staged) ≡ find_part n staged
unfolding set_all
find-set_all_ne n [] staged h = refl
find-set_all_ne n (x ∷ xs) staged h =
    let ne = h.0 in
    find-set_all_ne n xs (set_part x.0 x.1 staged) h.1
    ∙ ground (arith, find-set_part x.0 n x.1 staged, ne)

-- No two parts have one number, and numbers start at 1.
abbrev pub AreParts : List (ℕ × List ℕ) → Type 0
AreParts [] = Unit
AreParts (x ∷ xs) = (1 ≤ x.0) × All (λ y. y.0 ≢ x.0) xs × AreParts xs

pub set_all-All :
    (xs staged : List (ℕ × List ℕ))
    → AreParts xs
    → All (λ x. find_part x.0 (set_all xs staged) ≡ some x.1) xs
unfolding set_all
set_all-All [] staged h = tt
set_all-All (x ∷ xs) staged h = (
  find-set_all_ne x.0 xs (set_part x.0 x.1 staged) h.1
      ∙ ground (arith, find-set_part x.0 x.0 x.1 staged),
  set_all-All xs (set_part x.0 x.1 staged) h.2,
)

abbrev pub joined : List (ℕ × List ℕ) → List ℕ
joined [] = []
joined (x ∷ xs) = x.1 ++ joined xs
