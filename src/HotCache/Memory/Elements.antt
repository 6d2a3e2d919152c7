-- ===== src/HotCache/Memory/Elements.antt =====
-- The two lists of elements: what erasing, moving to the front and the walk from the back keep.
use kdrive.Common.{
  ℕ, suc, ◌+◌, ◌≡◌, refl, sym, ◌∙◌, ap, subst, ◌≢◌, ◌⊎◌, inl, inr, true, false, List, [], ◌∷◌, ◌++◌,
  none, some, ◌==◌, length, All, In, Bool-cases, arith, ==_iff,
}
use kdrive.HotCache.Memory.State.{MemEntry, has, erase, move_to_front, walk_back}
use mathlib.Core.List.{reverse, reverse-append}

-- No address stands in the list twice.
abbrev pub Distinct : List ℕ → Type 0
Distinct [] = Unit
Distinct (a ∷ l) = All (λ b. b ≢ a) l × Distinct l

-- The bytes of the bodies of the elements.
unfoldable pub total : (ℕ → MemEntry) → List ℕ → ℕ
total value [] = 0
total value (a ∷ l) = length (value a).body + total value l

pub has_of_In : (a : ℕ) (l : List ℕ) → In a l → has a l ≡ true
unfolding has
has_of_In a [] m = elim m [ ]
has_of_In a (b ∷ l) (inl e) = ground arith
has_of_In a (b ∷ l) (inr m) = ground (arith, has_of_In a l m)

pub In-of_has : (a : ℕ) (l : List ℕ) → has a l ≡ true → In a l
unfolding has
In-of_has a [] h = cc
In-of_has a (b ∷ l) h = elim (Bool-cases (b == a)) [
  | inl e ↦ inl ((==_iff b a).0 e)
  | inr e ↦ inr (In-of_has a l (rw e at h))
]

In-tail : (a b : ℕ) (l : List ℕ) → (b == a) ≡ false → In a (b ∷ l) → In a l
In-tail a b l e (inl p) = absurd (ground arith)
In-tail a b l e (inr m) = m

pub All-erase : (P : ℕ → Type 0) (a : ℕ) (l : List ℕ) → All P l → All P (erase a l)
unfolding erase
All-erase P a [] h = tt
All-erase P a (b ∷ l) h = elim (Bool-cases (b == a)) [
  | inl e ↦ rw e (h.1)
  | inr e ↦ rw e (h.0, All-erase P a l h.1)
]

pub Distinct-erase : (a : ℕ) (l : List ℕ) → Distinct l → Distinct (erase a l)
unfolding erase
Distinct-erase a [] d = tt
Distinct-erase a (b ∷ l) d = elim (Bool-cases (b == a)) [
  | inl e ↦ rw e (d.1)
  | inr e ↦ rw e (All-erase (λ x. x ≢ b) a l d.0, Distinct-erase a l d.1)
]

-- In a list without repetition, erasing takes the address out.
pub erase_absent : (a : ℕ) (l : List ℕ) → Distinct l → All (λ b. b ≢ a) (erase a l)
unfolding erase
erase_absent a [] d = tt
erase_absent a (b ∷ l) d = elim (Bool-cases (b == a)) [
  | inl e ↦ rw e (subst (λ x. All (λ y. y ≢ x) l) ((==_iff b a).0 e) d.0)
  | inr e ↦ rw e (ground (arith, ==_iff b a), erase_absent a l d.1)
]

pub total-erase :
    (value : ℕ → MemEntry) (a : ℕ) (l : List ℕ)
    → In a l
    → length (value a).body + total value (erase a l) ≡ total value l
unfolding total erase
total-erase value a [] m = elim m [ ]
total-erase value a (b ∷ l) m = elim (Bool-cases (b == a)) [
  | inl e ↦ rw (e, (==_iff b a).0 e)
  | inr e ↦ rw e (omega (arith, total-erase value a l (In-tail a b l e m)))
]

pub length-erase : (a : ℕ) (l : List ℕ) → In a l → suc (length (erase a l)) ≡ length l
unfolding erase
length-erase a [] m = elim m [ ]
length-erase a (b ∷ l) m = elim (Bool-cases (b == a)) [
  | inl e ↦ rw e
  | inr e ↦ rw e (ap suc (length-erase a l (In-tail a b l e m)))
]

pub In-erase_ne : (a b : ℕ) (l : List ℕ) → b ≢ a → In b l → In b (erase a l)
unfolding erase
In-erase_ne a b [] ne m = elim m [ ]
In-erase_ne a b (x ∷ l) ne (inl p) = elim (Bool-cases (x == a)) [
  | inl e ↦ absurd (ne (sym p ∙ (==_iff x a).0 e))
  | inr e ↦ rw e (inl p)
]
In-erase_ne a b (x ∷ l) ne (inr m) = elim (Bool-cases (x == a)) [
  | inl e ↦ rw e m
  | inr e ↦ rw e (inr (In-erase_ne a b l ne m))
]

pub All-of_In : (P : ℕ → Type 0) (l : List ℕ) → ((a : ℕ) → In a l → P a) → All P l
All-of_In P [] f = tt
All-of_In P (x ∷ l) f = (f x (inl refl), All-of_In P l (λ a m. f a (inr m)))

pub In-erase : (a b : ℕ) (l : List ℕ) → In b (erase a l) → In b l
unfolding erase
In-erase a b [] m = m
In-erase a b (x ∷ l) m = elim (Bool-cases (x == a)) [
  | inl e ↦ inr (rw e at m)
  | inr e ↦ elim (let k : In b (x ∷ erase a l) = rw e at m in k) [
    | inl p ↦ inl p
    | inr n ↦ inr (In-erase a b l n)
  ]
]

-- Moving an element of the list to its front.
pub move_to_front-eq : (a : ℕ) (l : List ℕ) → In a l → move_to_front a l ≡ a ∷ erase a l
unfolding move_to_front
move_to_front-eq a l m = rw (has_of_In a l m)

-- Two stores with bodies of the same lengths.
pub total-ext :
    (f g : ℕ → MemEntry) (l : List ℕ)
    → All (λ a. length (f a).body ≡ length (g a).body) l
    → total f l ≡ total g l
unfolding total
total-ext f g [] h = refl
total-ext f g (a ∷ l) h = omega (arith, h.0, total-ext f g l h.1)

pub In-append : (a : ℕ) (xs ys : List ℕ) → In a (xs ++ ys) → In a xs ⊎ In a ys
In-append a [] ys m = inr m
In-append a (x ∷ xs) ys (inl e) = inl (inl e)
In-append a (x ∷ xs) ys (inr m) = elim (In-append a xs ys m) [ inl k ↦ inl (inr k) | inr k ↦ inr k ]

pub In-reverse : (a : ℕ) (l : List ℕ) → In a (reverse l) → In a l
In-reverse a [] m = m
In-reverse a (x ∷ l) m =
    elim (In-append a (reverse l) (x ∷ []) (rw (reverse-append (x ∷ []) l) at m)) [
      | inl k ↦ inr (In-reverse a l k)
      | inr k ↦ elim k [ inl e ↦ inl e | inr n ↦ absurd n ]
    ]

pub All-append : (P : ℕ → Type 0) (xs ys : List ℕ) → All P (xs ++ ys) → All P xs × All P ys
All-append P [] ys h = (tt, h)
All-append P (x ∷ xs) ys h = let (u, v) = All-append P xs ys h.1 in ((h.0, u), v)

pub All-of-reverse : (P : ℕ → Type 0) (l : List ℕ) → All P (reverse l) → All P l
All-of-reverse P [] h = tt
All-of-reverse P (x ∷ l) h =
    let (u, v) = All-append P (reverse l) (x ∷ []) (rw (reverse-append (x ∷ []) l) at h) in
    (v.0, All-of-reverse P l u)

-- The walk from the back ends at an evictable element, behind which none is evictable.
pub walk_back-some :
    (value : ℕ → MemEntry) (l : List ℕ) (a : ℕ)
    → walk_back value l ≡ some a
    → In a l × ((value a).non_evictable ≡ false)
unfolding walk_back
walk_back-some value [] a h = cc
walk_back-some value (x ∷ l) a h = elim (Bool-cases ((value x).non_evictable)) [
  | inl e ↦ let (m, n) = walk_back-some value l a (rw e at h) in (inr m, n)
  | inr e ↦
      let p : some x ≡ some a = rw e at h in
      let q : x ≡ a = cc in (inl q, subst (λ y. (value y).non_evictable ≡ false) q e)
]

-- Where the walk finds nothing, nothing is evictable.
pub walk_back-none :
    (value : ℕ → MemEntry) (l : List ℕ)
    → walk_back value l ≡ none
    → All (λ a. (value a).non_evictable ≡ true) l
unfolding walk_back
walk_back-none value [] h = tt
walk_back-none value (x ∷ l) h = elim (Bool-cases ((value x).non_evictable)) [
  | inl e ↦ (e, walk_back-none value l (rw e at h))
  | inr e ↦ let p : some x ≡ none = rw e at h in cc
]
