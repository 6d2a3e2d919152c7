-- ===== src/HotCache/Memory/Invariant.antt =====
-- What holds of a `MemoryCache` between two calls, and that removing an element keeps it.
use kdrive.Common.{
  ℕ, ◌+◌, ◌-◌, ◌<◌, ◌≡◌, refl, sym, ◌∙◌, subst, ◌≢◌, inl, inr, Bool, true, false, List, none, some,
  String, length, All, All-In, In, Bool-cases, arith, if◌then◌else◌, str_eq, eq_iff, if_intro,
  All-map,
}
use kdrive.Common.Dict.{
  lookup, delete, Unique, lookup-delete, delete-Unique, length-delete, str_eq_refl,
}
use kdrive.HotCache.Memory.State.{MemoryCache, erase, remove_locked}
use kdrive.HotCache.Memory.Elements.{
  Distinct, total, Distinct-erase, erase_absent, total-erase, length-erase, In-erase_ne, In-erase,
  All-of_In,
}

module _ {F : Type 0} where
  -- The list that an element with the flag belongs to.
  abbrev pub home : MemoryCache F → Bool → List ℕ
  home c pinned = if pinned then c.hot else c.main

  -- An element of the list whose entries have the flag.
  pub record Listed (c : MemoryCache F) (p : Bool) (a : ℕ) : Type 0 where
    pub flag : (c.value a).pinned ≡ p
    pub known : lookup (c.value a).blob_id c.index ≡ some a
    pub allocated : a < c.next

  -- The index and the two lists hold the same elements, one to a blob id, and every counter of
  -- bytes and entries is exact.
  pub record IsValid (c : MemoryCache F) : Type 0 where
    pub hot_listed : All (Listed c true) c.hot
    pub main_listed : All (Listed c false) c.main
    pub hot_distinct : Distinct c.hot
    pub main_distinct : Distinct c.main
    pub keys_unique : Unique c.index
    pub indexed :
        (k : String) (a : ℕ)
        → lookup k c.index ≡ some a
        → ((c.value a).blob_id ≡ k) × In a (home c (c.value a).pinned)
    pub counted : length c.index ≡ length c.hot + length c.main
    pub hot_sum : c.hot_bytes ≡ total c.value c.hot
    pub used_sum : c.bytes_used ≡ total c.value c.hot + total c.value c.main
    pub stat_entries : c.stats.entries ≡ length c.index
    pub stat_bytes : c.stats.bytes_used ≡ c.bytes_used

  -- The element is in the index under its own blob id.
  abbrev pub IsKnown : MemoryCache F → ℕ → Type 0
  IsKnown c el = lookup (c.value el).blob_id c.index ≡ some el

  module _ (c : MemoryCache F) (el : ℕ) (v : IsValid c) (k : IsKnown c el) where
    ids_differ :
        (b : ℕ) → b ≢ el → IsKnown c b → str_eq (c.value el).blob_id (c.value b).blob_id ≡ false
    ids_differ b ne kb = elim (Bool-cases (str_eq (c.value el).blob_id (c.value b).blob_id)) [
      | inl e ↦
          let same = (eq_iff (c.value el).blob_id (c.value b).blob_id).0 e in
          let p : some b ≡ some el = sym kb ∙ subst (λ i. lookup i c.index ≡ some el) same k in
          absurd (ne (let q : b ≡ el = cc in q))
      | inr e ↦ e
    ]

    pub Listed-remove : (p : Bool) (b : ℕ) → b ≢ el → Listed c p b → Listed (remove_locked c el) p b
    unfolding remove_locked
    Listed-remove p b ne l = record {
      flag = l.flag;
      known =
          rw (lookup-delete (c.value el).blob_id (c.value b).blob_id c.index)
            (rw (ids_differ b ne l.known) l.known);
      allocated = l.allocated;
    }

    el_home : In el (home c (c.value el).pinned)
    el_home = (v.indexed (c.value el).blob_id el k).1

    Listed-ne : (p : Bool) (b : ℕ) → (c.value el).pinned ≢ p → Listed c p b → b ≢ el
    Listed-ne p b h l e = h (subst (λ x. (c.value x).pinned ≡ p) e l.flag)

    remove_lists :
        (p : Bool) (l l' : List ℕ)
        → All (Listed c p) l
        → All (λ b. b ≢ el) l'
        → ((b : ℕ) → In b l' → In b l)
        → All (Listed (remove_locked c el) p) l'
    remove_lists p l l' h ne sub = All-of_In (Listed (remove_locked c el) p) l' (λ b m.
        Listed-remove p b (All-In (λ x. x ≢ el) b l' ne m) (All-In (Listed c p) b l h (sub b m)))

    remove-indexed :
        let c' = remove_locked c el in
        (q : String) (a : ℕ)
        → lookup q c'.index ≡ some a
        → ((c'.value a).blob_id ≡ q) × In a (home c' (c'.value a).pinned)
    unfolding remove_locked
    remove-indexed q a h = elim (Bool-cases (str_eq (c.value el).blob_id q)) [
      | inl e ↦
          let p : none ≡ some a = rw (lookup-delete (c.value el).blob_id q c.index, e) at h in
          absurd (cc)
      | inr e ↦
          let p : lookup q c.index ≡ some a =
            rw (lookup-delete (c.value el).blob_id q c.index, e) at h in
          let (id, m) = v.indexed q a p in (id, stays a (λ same. not_el q a p e id same) m)
    ]
      where
        not_el :
            (q : String) (a : ℕ)
            → lookup q c.index ≡ some a
            → str_eq (c.value el).blob_id q ≡ false
            → (c.value a).blob_id ≡ q
            → a ≢ el
        not_el q a p e id same =
            let i : (c.value el).blob_id ≡ q = subst (λ x. (c.value x).blob_id ≡ q) same id in
            let t : str_eq (c.value el).blob_id q ≡ true = rw i (str_eq_refl q) in cc

        stays :
            (a : ℕ)
            → a ≢ el
            → In a (home c (c.value a).pinned)
            → In a (
                if (c.value a).pinned
                then (if (c.value el).pinned then erase el c.hot else c.hot)
                else (if (c.value el).pinned then c.main else erase el c.main))
        stays a ne =
            if_intro
              (λ l.
                In a l
                → In a (
                    if (c.value a).pinned
                    then (if (c.value el).pinned then erase el c.hot else c.hot)
                    else (if (c.value el).pinned then c.main else erase el c.main)))
              (c.value a).pinned c.hot c.main
              (λ e m. rw e (
                if_intro (In a) (c.value el).pinned (erase el c.hot) c.hot
                  (λ _. In-erase_ne el a c.hot ne m) (λ _. m)))
              (λ e m. rw e (
                if_intro (In a) (c.value el).pinned c.main (erase el c.main) (λ _. m)
                  (λ _. In-erase_ne el a c.main ne m)))

    remove-hot-Listed :
        All
          (Listed (remove_locked c el) true)
          (if (c.value el).pinned then erase el c.hot else c.hot)
    remove-hot-Listed =
        if_intro (All (Listed (remove_locked c el) true)) (c.value el).pinned (erase el c.hot) c.hot
          (λ _.
            remove_lists true c.hot (erase el c.hot) v.hot_listed
              (erase_absent el c.hot v.hot_distinct) (λ b. In-erase el b c.hot))
          (λ e.
            remove_lists true c.hot c.hot v.hot_listed
              (All-map (Listed c true) (λ b. b ≢ el) c.hot (λ b. Listed-ne true b (λ p. cc))
                v.hot_listed)
              (λ b m. m))

    remove-main-Listed :
        All
          (Listed (remove_locked c el) false)
          (if (c.value el).pinned then c.main else erase el c.main)
    remove-main-Listed =
        if_intro (All (Listed (remove_locked c el) false)) (c.value el).pinned c.main
          (erase el c.main)
          (λ e.
            remove_lists false c.main c.main v.main_listed
              (All-map (Listed c false) (λ b. b ≢ el) c.main (λ b. Listed-ne false b (λ p. cc))
                v.main_listed)
              (λ b m. m))
          (λ _.
            remove_lists false c.main (erase el c.main) v.main_listed
              (erase_absent el c.main v.main_distinct) (λ b. In-erase el b c.main))

    -- The counters of the cache without the element.
    record Sums : Type 0 where
      fewer :
          length (delete (c.value el).blob_id c.index)
          ≡ length (if (c.value el).pinned then erase el c.hot else c.hot)
            + length (if (c.value el).pinned then c.main else erase el c.main)
      hot_less :
          (if (c.value el).pinned then c.hot_bytes - length (c.value el).body else c.hot_bytes)
          ≡ total c.value (if (c.value el).pinned then erase el c.hot else c.hot)
      used_less :
          c.bytes_used - length (c.value el).body
          ≡ total c.value (if (c.value el).pinned then erase el c.hot else c.hot)
            + total c.value (if (c.value el).pinned then c.main else erase el c.main)

    remove-Sums : Sums
    remove-Sums =
        let gone = length-delete (c.value el).blob_id el c.index v.keys_unique k in
        elim (Bool-cases ((c.value el).pinned)) [
          | inl e ↦
              let m : In el c.hot = rw e at el_home in
              record {
                fewer = ground (arith, e, length-erase el c.hot m, gone);
                hot_less = ground (arith, e, total-erase c.value el c.hot m, v.hot_sum);
                used_less = ground (arith, e, total-erase c.value el c.hot m, v.used_sum);
              }
          | inr e ↦
              let m : In el c.main = rw e at el_home in
              record {
                fewer = ground (arith, e, length-erase el c.main m, gone);
                hot_less = ground (arith, e, total-erase c.value el c.main m, v.hot_sum);
                used_less = ground (arith, e, total-erase c.value el c.main m, v.used_sum);
              }
        ]

    pub remove-IsValid : IsValid (remove_locked c el)
    unfolding remove_locked
    remove-IsValid = record {
      hot_listed = remove-hot-Listed;
      main_listed = remove-main-Listed;
      hot_distinct =
          if_intro Distinct (c.value el).pinned (erase el c.hot) c.hot
            (λ _. Distinct-erase el c.hot v.hot_distinct) (λ _. v.hot_distinct);
      main_distinct =
          if_intro Distinct (c.value el).pinned c.main (erase el c.main) (λ _. v.main_distinct)
            (λ _. Distinct-erase el c.main v.main_distinct);
      keys_unique = delete-Unique (c.value el).blob_id c.index v.keys_unique;
      indexed = remove-indexed;
      counted = remove-Sums.fewer;
      hot_sum = remove-Sums.hot_less;
      used_sum = remove-Sums.used_less;
      stat_entries = refl;
      stat_bytes = refl;
    }
