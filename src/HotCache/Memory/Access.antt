-- ===== src/HotCache/Memory/Access.antt =====
-- A hit steps the entry's counters and moves it to the front: the invariant is kept.
use kdrive.Common.{
  ℕ, ◌+◌, ◌≡◌, refl, sym, inl, inr, Bool, true, false, List, some, String, length, All, All-In,
  All-map, In, Bool-cases, arith, if◌then◌else◌, if_intro, ◌==◌, ==_iff,
}
use kdrive.Common.Dict.{lookup}
use kdrive.HotCache.{u64}
use kdrive.HotCache.Memory.State.{MemEntry, MemoryCache, update, move_to_front}
use kdrive.HotCache.Memory.Methods.{touch}
use kdrive.HotCache.Memory.Elements.{
  Distinct, total, total-ext, All-of_In, erase_absent, Distinct-erase, All-erase, move_to_front-eq,
  length-erase, total-erase, In-erase_ne,
}
use kdrive.HotCache.Memory.Invariant.{IsValid, Listed, IsKnown, home}

-- A hit changes no field of the entries but the counters of the one that is hit.
record Alike (d e : MemEntry) : Type 0 where
  ids : d.blob_id ≡ e.blob_id
  bodies : d.body ≡ e.body
  flags : d.pinned ≡ e.pinned

module _ {F : Type 0} (c : MemoryCache F) (el now : ℕ) (v : IsValid c) (k : IsKnown c el) where
  abbrev hit_entry : MemEntry
  hit_entry = record (c.value el) { hits = u64 ((c.value el).hits + 1); last_access = now }

  touch-Alike : (a : ℕ) → Alike (update c.value el hit_entry a) (c.value a)
  unfolding update
  touch-Alike a = elim (Bool-cases (a == el)) [
    | inl e ↦ rw (e, (==_iff a el).0 e) (record { ids = refl; bodies = refl; flags = refl })
    | inr e ↦ rw e (record { ids = refl; bodies = refl; flags = refl })
  ]

  abbrev fronts : Bool → List ℕ
  fronts q =
      if q
      then (if (c.value el).pinned then move_to_front el c.hot else c.hot)
      else (if (c.value el).pinned then c.main else move_to_front el c.main)

  Listed-touch : (p : Bool) (a : ℕ) → Listed c p a → Listed (touch c el now) p a
  unfolding touch
  Listed-touch p a l =
      let same = touch-Alike a in
      record {
        flag = rw (same.flags) l.flag;
        known = rw (same.ids) l.known;
        allocated = l.allocated;
      }

  In-home : In el (home c (c.value el).pinned)
  In-home = (v.indexed (c.value el).blob_id el k).1

  In-hot : (c.value el).pinned ≡ true → In el c.hot
  In-hot e = rw e at In-home

  In-main : (c.value el).pinned ≡ false → In el c.main
  In-main e = rw e at In-home

  front_All : (P : ℕ → Type 0) (l : List ℕ) → In el l → All P l → All P (move_to_front el l)
  front_All P l m h = rw (move_to_front-eq el l m) (All-In P el l h m, All-erase P el l h)

  front_In : (a : ℕ) (l : List ℕ) → In el l → In a l → In a (move_to_front el l)
  front_In a l m n = rw (move_to_front-eq el l m) (elim (Bool-cases (a == el)) [
    | inl e ↦ inl (sym ((==_iff a el).0 e))
    | inr e ↦ inr (In-erase_ne el a l (λ p. ground (arith, ==_iff a el)) n)
  ])

  front_Distinct : (l : List ℕ) → In el l → Distinct l → Distinct (move_to_front el l)
  front_Distinct l m d = rw (move_to_front-eq el l m) (erase_absent el l d, Distinct-erase el l d)

  front_length : (l : List ℕ) → In el l → length (move_to_front el l) ≡ length l
  front_length l m = rw (move_to_front-eq el l m) (length-erase el l m)

  front_total : (l : List ℕ) → In el l → total c.value (move_to_front el l) ≡ total c.value l
  unfolding total
  front_total l m = rw (move_to_front-eq el l m, total) (total-erase c.value el l m)

  touch_total : (l : List ℕ) → total (update c.value el hit_entry) l ≡ total c.value l
  touch_total l =
      total-ext (update c.value el hit_entry) c.value l
        (All-of_In _ l (λ a m. rw ((touch-Alike a).bodies)))

  touch-hot-Listed : All (Listed (touch c el now) true) (fronts true)
  touch-hot-Listed =
      let old =
        All-map (Listed c true) (Listed (touch c el now) true) c.hot (Listed-touch true)
          v.hot_listed in
      if_intro (All (Listed (touch c el now) true)) (c.value el).pinned (move_to_front el c.hot)
        c.hot (λ e. front_All _ c.hot (In-hot e) old) (λ _. old)

  touch-main-Listed : All (Listed (touch c el now) false) (fronts false)
  touch-main-Listed =
      let old =
        All-map (Listed c false) (Listed (touch c el now) false) c.main (Listed-touch false)
          v.main_listed in
      if_intro (All (Listed (touch c el now) false)) (c.value el).pinned c.main
        (move_to_front el c.main) (λ _. old) (λ e. front_All _ c.main (In-main e) old)

  In-fronts : (q : Bool) (a : ℕ) → In a (home c q) → In a (fronts q)
  In-fronts true a m =
      if_intro (In a) (c.value el).pinned (move_to_front el c.hot) c.hot
        (λ e. front_In a c.hot (In-hot e) m) (λ _. m)
  In-fronts false a m =
      if_intro (In a) (c.value el).pinned c.main (move_to_front el c.main) (λ _. m)
        (λ e. front_In a c.main (In-main e) m)

  touch-indexed :
      let c' = touch c el now in
      (q : String) (a : ℕ)
      → lookup q c'.index ≡ some a
      → ((c'.value a).blob_id ≡ q) × In a (home c' (c'.value a).pinned)
  unfolding touch
  touch-indexed q a h =
      let (id, m) = v.indexed q a h in
      rw ((touch-Alike a).ids, (touch-Alike a).flags) (id, In-fronts (c.value a).pinned a m)

  record Sums : Type 0 where
    same : length c.index ≡ length (fronts true) + length (fronts false)
    hot_same : c.hot_bytes ≡ total (update c.value el hit_entry) (fronts true)
    used_same :
        c.bytes_used
        ≡ total (update c.value el hit_entry) (fronts true)
          + total (update c.value el hit_entry) (fronts false)

  touch-Sums : Sums
  touch-Sums = elim (Bool-cases (c.value el).pinned) [
    | inl e ↦ record {
      same = ground (arith, e, v.counted, front_length c.hot (In-hot e));
      hot_same =
          ground (
            arith,
            e,
            v.hot_sum,
            touch_total (move_to_front el c.hot),
            front_total c.hot (In-hot e),
          );
      used_same = ground (
        arith,
        e,
        v.used_sum,
        touch_total c.main,
        touch_total (move_to_front el c.hot),
        front_total c.hot (In-hot e),
      );
    }
    | inr e ↦ record {
      same = ground (arith, e, v.counted, front_length c.main (In-main e));
      hot_same = ground (arith, e, v.hot_sum, touch_total c.hot);
      used_same = ground (
        arith,
        e,
        v.used_sum,
        touch_total c.hot,
        touch_total (move_to_front el c.main),
        front_total c.main (In-main e),
      );
    }
  ]

  pub touch-IsValid : IsValid (touch c el now)
  unfolding touch
  touch-IsValid = record {
    hot_listed = touch-hot-Listed;
    main_listed = touch-main-Listed;
    hot_distinct =
        if_intro Distinct (c.value el).pinned (move_to_front el c.hot) c.hot
          (λ e. front_Distinct c.hot (In-hot e) v.hot_distinct) (λ _. v.hot_distinct);
    main_distinct =
        if_intro Distinct (c.value el).pinned c.main (move_to_front el c.main)
          (λ _. v.main_distinct) (λ e. front_Distinct c.main (In-main e) v.main_distinct);
    keys_unique = v.keys_unique;
    indexed = touch-indexed;
    counted = touch-Sums.same;
    hot_sum = touch-Sums.hot_same;
    used_sum = touch-Sums.used_same;
    stat_entries = v.stat_entries;
    stat_bytes = v.stat_bytes;
  }
