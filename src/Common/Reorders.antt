-- ===== src/Common/Reorders.antt =====
-- One list has the elements of another in another order.
use mathlib.Core.List.{List, [], ◌∷◌}
use kdrive.Common.Lists.{All}

pub data Reorders {A : Type 0} : List A → List A → Type 0 where
  done : Reorders [] []
  next : {x : A} {xs ys : List A} → Reorders xs ys → Reorders (x ∷ xs) (x ∷ ys)
  swap : {x y : A} {zs : List A} → Reorders (x ∷ y ∷ zs) (y ∷ x ∷ zs)
  twice : {xs ys zs : List A} → Reorders xs ys → Reorders ys zs → Reorders xs zs

pub All-Reorders :
    {A : Type 0} (P : A → Type 0) (xs ys : List A) → Reorders xs ys → All P xs → All P ys
All-Reorders P _ _ done h = h
All-Reorders P _ _ (next {x} {xs} {ys} r) h = (h.0, All-Reorders P xs ys r h.1)
All-Reorders P _ _ swap h = (h.1.0, (h.0, h.1.1))
All-Reorders P xs zs (twice {ys} r s) h = All-Reorders P ys zs s (All-Reorders P xs ys r h)

pub Reorders-sym : {A : Type 0} (xs ys : List A) → Reorders xs ys → Reorders ys xs
Reorders-sym _ _ done = done
Reorders-sym _ _ (next {x} {xs} {ys} r) = next (Reorders-sym xs ys r)
Reorders-sym _ _ swap = swap
Reorders-sym xs zs (twice {ys} r s) = twice (Reorders-sym ys zs s) (Reorders-sym xs ys r)

pub Reorders-refl : {A : Type 0} (xs : List A) → Reorders xs xs
Reorders-refl [] = done
Reorders-refl (x ∷ xs) = next (Reorders-refl xs)
