-- ===== src/HotCache/Memory/Eviction.antt =====
-- The two eviction loops: they keep the invariant and every protected entry, and they end.
use kdrive.Common.{
  ℕ, zero, suc, ◌+◌, ◌≤◌, ◌≡◌, refl, sym, ap, subst, Bool, true, false, List, [], ◌∷◌, Option, none,
  some, length, All, All-In, In, arith, if_intro, pos, ltℤ,
}
use kdrive.Common.Dict.{length-delete}
use kdrive.HotCache.Memory.State.{
  MemoryCache, over, remove_locked, walk_back, main_victim, evict_main_loop, evict_hot_loop,
  evict_main_locked, evict_hot_locked,
}
use kdrive.HotCache.Memory.Elements.{
  walk_back-some, walk_back-none, In-reverse, All-of-reverse, length-erase,
}
use kdrive.HotCache.Memory.Invariant.{IsValid, Listed, IsKnown, remove-IsValid}
use mathlib.Core.List.{reverse}
use kdrive.HotCache.Memory.Trims.{
  Trims, Trims-refl, Trims-trans, remove-Trims, walk_back-IsKnown, main_victim-IsKnown,
}
use kdrive.HotCache.Memory.Methods.{make_room}

module _ {F : Type 0} where
  index-remove :
      (c : MemoryCache F) (el : ℕ)
      → IsValid c
      → IsKnown c el
      → suc (length (remove_locked c el).index) ≡ length c.index
  unfolding remove_locked
  index-remove c el v k = length-delete (c.value el).blob_id el c.index v.keys_unique k

  size-remove :
      (c : MemoryCache F) (el : ℕ)
      → IsValid c
      → IsKnown c el
      → suc (length (remove_locked c el).main + length (remove_locked c el).hot)
        ≡ length c.main + length c.hot
  size-remove c el v k =
      omega (arith, v.counted, (remove-IsValid c el v k).counted, index-remove c el v k)

  hot-remove :
      (c : MemoryCache F) (el : ℕ)
      → In el c.hot
      → (c.value el).pinned ≡ true
      → suc (length (remove_locked c el).hot) ≡ length c.hot
  unfolding remove_locked
  hot-remove c el m p = rw p (length-erase el c.hot m)

  -- What the main loop has reached when it ends.
  pub data MainDone (c : MemoryCache F) (incoming : ℕ) : Type 0 where
    fits : over c.policy.max_bytes (c.bytes_used + incoming) ≡ false → MainDone c incoming
    stuck : main_victim c ≡ none → MainDone c incoming

  pub evict_main_loop_lem :
      (fuel : ℕ) (c : MemoryCache F) (incoming : ℕ)
      → IsValid c
      → length c.main + length c.hot ≤ fuel
      → let c' = evict_main_loop fuel c incoming in IsValid c' × Trims c c' × MainDone c' incoming
  unfolding evict_main_loop
  evict_main_loop_lem zero c incoming v h = (v, Trims-refl c, stuck (empty c.main refl c.hot refl))
    where
      empty : (l : List ℕ) → c.main ≡ l → (m : List ℕ) → c.hot ≡ m → main_victim c ≡ none
      empty [] e [] e' = unfold main_victim walk_back in rw (e, e')
      empty [] e (a ∷ m) e' = absurd (omega (arith, ap length e'))
      empty (a ∷ l) e m e' = absurd (omega (arith, ap length e))
  evict_main_loop_lem (suc fuel) c incoming v h =
      go (over c.policy.max_bytes (c.bytes_used + incoming)) refl (main_victim c) refl
        (λ el v' h'. evict_main_loop_lem fuel (remove_locked c el) incoming v' h')
    where
      go :
          (b : Bool)
          → over c.policy.max_bytes (c.bytes_used + incoming) ≡ b
          → (o : Option ℕ) → main_victim c ≡ o
          → ((el : ℕ)
              → IsValid (remove_locked c el)
              → length (remove_locked c el).main + length (remove_locked c el).hot ≤ fuel
              → let c' = evict_main_loop fuel (remove_locked c el) incoming in
                IsValid c' × Trims (remove_locked c el) c' × MainDone c' incoming)
          → let c' = elim b as (λ _. MemoryCache F) [
            | false ↦ c
            | true ↦ elim o [
              | none ↦ c
              | some el ↦ evict_main_loop fuel (remove_locked c el) incoming
            ]
          ] in
            IsValid c' × Trims c c' × MainDone c' incoming
      go false e o eo rec = (v, Trims-refl c, fits e)
      go true e none eo rec = (v, Trims-refl c, stuck eo)
      go true e (some el) eo rec =
          let (k, n) = main_victim-IsKnown c el v eo in
          let (v', t, d) = rec el (remove-IsValid c el v k) (omega (arith, size-remove c el v k)) in
          (v', Trims-trans c (remove_locked c el) _ (remove-Trims c el v k n) t, d)

  -- What the hot loop has reached when it ends.
  pub data HotDone (c : MemoryCache F) (incoming : ℕ) : Type 0 where
    fits : over c.hot_limit (c.hot_bytes + incoming) ≡ false → HotDone c incoming
    stuck : All (λ a. (c.value a).non_evictable ≡ true) c.hot → HotDone c incoming

  pub evict_hot_loop_lem :
      (fuel : ℕ) (c : MemoryCache F) (incoming : ℕ)
      → IsValid c
      → length c.hot ≤ fuel
      → let c' = evict_hot_loop fuel c incoming in IsValid c' × Trims c c' × HotDone c' incoming
  unfolding evict_hot_loop
  evict_hot_loop_lem zero c incoming v h = (v, Trims-refl c, stuck (empty c.hot refl))
    where
      empty : (l : List ℕ) → c.hot ≡ l → All (λ a. (c.value a).non_evictable ≡ true) c.hot
      empty [] e = rw e tt
      empty (a ∷ l) e = absurd (omega (arith, ap length e))
  evict_hot_loop_lem (suc fuel) c incoming v h =
      go (over c.hot_limit (c.hot_bytes + incoming)) refl (walk_back c.value (reverse c.hot)) refl
        (λ el v' h'. evict_hot_loop_lem fuel (remove_locked c el) incoming v' h')
    where
      go :
          (b : Bool)
          → over c.hot_limit (c.hot_bytes + incoming) ≡ b
          → (o : Option ℕ) → walk_back c.value (reverse c.hot) ≡ o
          → ((el : ℕ)
              → IsValid (remove_locked c el)
              → length (remove_locked c el).hot ≤ fuel
              → let c' = evict_hot_loop fuel (remove_locked c el) incoming in
                IsValid c' × Trims (remove_locked c el) c' × HotDone c' incoming)
          → let c' = elim b as (λ _. MemoryCache F) [
            | false ↦ c
            | true ↦ elim o [
              | none ↦ c
              | some el ↦ evict_hot_loop fuel (remove_locked c el) incoming
            ]
          ] in
            IsValid c' × Trims c c' × HotDone c' incoming
      go false e o eo rec = (v, Trims-refl c, fits e)
      go true e none eo rec =
          (v, Trims-refl c, stuck (All-of-reverse _ c.hot (walk_back-none c.value _ eo)))
      go true e (some el) eo rec =
          let (k, n) = walk_back-IsKnown c el v eo in
          let m = In-reverse el c.hot (walk_back-some c.value (reverse c.hot) el eo).0 in
          let p = (All-In (Listed c true) el c.hot v.hot_listed m).flag in
          let (v', t, d) = rec el (remove-IsValid c el v k) (omega (arith, hot-remove c el m p)) in
          (v', Trims-trans c (remove_locked c el) _ (remove-Trims c el v k n) t, d)

  evict_main_locked_lem :
      (c : MemoryCache F) (incoming : ℕ)
      → IsValid c
      → IsValid (evict_main_locked c incoming)
        × Trims c (evict_main_locked c incoming)
        × (ltℤ (pos 0) c.policy.max_bytes ≡ true → MainDone (evict_main_locked c incoming) incoming)
  unfolding evict_main_locked
  evict_main_locked_lem c incoming v =
      if_intro
        (λ d. IsValid d × Trims c d × (ltℤ (pos 0) c.policy.max_bytes ≡ true → MainDone d incoming))
        (ltℤ (pos 0) c.policy.max_bytes) (evict_main_loop (length c.main + length c.hot) c incoming)
        c
        (λ _.
          let (v', t, d) =
            evict_main_loop_lem (length c.main + length c.hot) c incoming v (omega arith) in
          (v', t, λ _. d))
        (λ e. (v, Trims-refl c, λ e'. absurd (cc)))

  evict_hot_locked_lem :
      (c : MemoryCache F) (incoming : ℕ)
      → IsValid c
      → IsValid (evict_hot_locked c incoming) × Trims c (evict_hot_locked c incoming)
  unfolding evict_hot_locked
  evict_hot_locked_lem c incoming v =
      if_intro (λ d. IsValid d × Trims c d) (ltℤ (pos 0) c.hot_limit)
        (evict_hot_loop (length c.hot) c incoming) c
        (λ _.
          let (v', t, d) = evict_hot_loop_lem (length c.hot) c incoming v (omega arith) in (v', t))
        (λ e. (v, Trims-refl c))

  -- Making room keeps the invariant and removes evictable entries only; where the policy has a
  -- limit it ends with room for the new entry or with no victim left.
  pub make_room_lem :
      (c : MemoryCache F) (pin : Bool) (size : ℕ)
      → IsValid c
      → IsValid (make_room c pin size)
        × Trims c (make_room c pin size)
        × (ltℤ (pos 0) c.policy.max_bytes ≡ true → MainDone (make_room c pin size) size)
  unfolding make_room
  make_room_lem c false size v = evict_main_locked_lem c size v
  make_room_lem c true size v =
      let (v', t) = evict_hot_locked_lem c size v in
      let (v'', t', d) = evict_main_locked_lem (evict_hot_locked c size) size v' in
      (
        v'',
        Trims-trans c (evict_hot_locked c size) _ t t',
        λ h. d (subst (λ p. ltℤ (pos 0) p.max_bytes ≡ true) (sym t.policies) h),
      )
