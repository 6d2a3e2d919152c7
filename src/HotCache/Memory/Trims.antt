-- ===== src/HotCache/Memory/Trims.antt =====
-- What one removal of an evictable element changes: the victims of the two loops are such elements.
use kdrive.Common.{
  ℕ, ◌≡◌, refl, sym, ◌∙◌, subst, inl, inr, Bool, true, false, List, [], ◌∷◌, Option, none, some,
  String, All-In, In, Bool-cases, str_eq, eq_iff,
}
use kdrive.Common.Dict.{lookup, lookup-delete}
use kdrive.HotCache.Memory.State.{MemoryCache, remove_locked, walk_back, main_victim}
use kdrive.HotCache.Memory.Elements.{walk_back-some, In-reverse}
use kdrive.HotCache.Memory.Invariant.{IsValid, Listed, IsKnown, home}
use mathlib.Core.List.{reverse}

module _ {F : Type 0} where
  -- `c'` is `c` with some evictable entries removed.
  pub record Trims (c c' : MemoryCache F) : Type 0 where
    pub values : c'.value ≡ c.value
    pub policies : c'.policy ≡ c.policy
    pub nexts : c'.next ≡ c.next
    pub limits : c'.hot_limit ≡ c.hot_limit
    pub kept :
        (k : String) (a : ℕ)
        → lookup k c.index ≡ some a
        → (c.value a).non_evictable ≡ true
        → lookup k c'.index ≡ some a
    pub fewer : (k : String) (a : ℕ) → lookup k c'.index ≡ some a → lookup k c.index ≡ some a

  pub Trims-refl : (c : MemoryCache F) → Trims c c
  Trims-refl c = record {
    values = refl;
    policies = refl;
    nexts = refl;
    limits = refl;
    kept = λ k a h n. h;
    fewer = λ k a h. h;
  }

  pub Trims-trans : (c d e : MemoryCache F) → Trims c d → Trims d e → Trims c e
  Trims-trans c d e s t = record {
    values = t.values ∙ s.values;
    policies = t.policies ∙ s.policies;
    nexts = t.nexts ∙ s.nexts;
    limits = t.limits ∙ s.limits;
    kept = λ k a h n.
        t.kept k a (s.kept k a h n) (subst (λ f. (f a).non_evictable ≡ true) (sym s.values) n);
    fewer = λ k a h. s.fewer k a (t.fewer k a h);
  }

  pub remove-Trims :
      (c : MemoryCache F) (el : ℕ)
      → IsValid c
      → IsKnown c el
      → (c.value el).non_evictable ≡ false
      → Trims c (remove_locked c el)
  unfolding remove_locked
  remove-Trims c el v k e = record {
    values = refl;
    policies = refl;
    nexts = refl;
    limits = refl;
    kept = λ q a h n. kept' q a h n;
    fewer = λ q a h. fewer' q a h;
  }
    where
      id : String
      id = (c.value el).blob_id

      kept' :
          (q : String) (a : ℕ)
          → lookup q c.index ≡ some a
          → (c.value a).non_evictable ≡ true
          → lookup q (remove_locked c el).index ≡ some a
      kept' q a h n = elim (Bool-cases (str_eq id q)) [
        | inl s ↦
            let p : some el ≡ some a =
              sym k ∙ subst (λ i. lookup i c.index ≡ some a) (sym ((eq_iff id q).0 s)) h in
            let t : el ≡ a = cc in
            let n' : (c.value el).non_evictable ≡ true =
              subst (λ x. (c.value x).non_evictable ≡ true) (sym t) n in
            absurd (cc)
        | inr s ↦ rw (lookup-delete id q c.index) (rw s h)
      ]

      fewer' :
          (q : String) (a : ℕ)
          → lookup q (remove_locked c el).index ≡ some a
          → lookup q c.index ≡ some a
      fewer' q a h = elim (Bool-cases (str_eq id q)) [
        | inl s ↦ let p : none ≡ some a = rw (lookup-delete id q c.index, s) at h in absurd (cc)
        | inr s ↦ rw (lookup-delete id q c.index, s) at h
      ]

  -- An element of either list is known to the index.
  pub IsKnown-of_In :
      (c : MemoryCache F) (p : Bool) (a : ℕ) → IsValid c → In a (home c p) → IsKnown c a
  IsKnown-of_In c true a v m = (All-In (Listed c true) a c.hot v.hot_listed m).known
  IsKnown-of_In c false a v m = (All-In (Listed c false) a c.main v.main_listed m).known

  pub walk_back-IsKnown :
      (c : MemoryCache F) (el : ℕ)
      → IsValid c
      → walk_back c.value (reverse c.hot) ≡ some el
      → IsKnown c el × ((c.value el).non_evictable ≡ false)
  walk_back-IsKnown c el v h =
      let (m, e) = walk_back-some c.value (reverse c.hot) el h in
      (IsKnown-of_In c true el v (In-reverse el c.hot m), e)

  pub main_victim-IsKnown :
      (c : MemoryCache F) (el : ℕ)
      → IsValid c
      → main_victim c ≡ some el
      → IsKnown c el × ((c.value el).non_evictable ≡ false)
  unfolding main_victim
  main_victim-IsKnown c el v h = go c.main refl h
    where
      go :
          (l : List ℕ)
          → c.main ≡ l
          → (elim l as (λ _. Option ℕ) [
            | [] ↦ walk_back c.value (reverse c.hot)
            | a ∷ l ↦ walk_back c.value (reverse (a ∷ l))
          ])
            ≡ some el
          → IsKnown c el × ((c.value el).non_evictable ≡ false)
      go [] e h = walk_back-IsKnown c el v h
      go (a ∷ l) e h =
          let (m, n) = walk_back-some c.value (reverse (a ∷ l)) el h in
          (IsKnown-of_In c false el v (subst (In el) (sym e) (In-reverse el (a ∷ l) m)), n)
