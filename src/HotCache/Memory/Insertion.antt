-- ===== src/HotCache/Memory/Insertion.antt =====
-- Pushing a new entry keeps the invariant.
use kdrive.Common.{
  ℕ, ◌+◌, ◌≡◌, refl, subst, ◌≢◌, inl, inr, Bool, true, false, List, ◌∷◌, none, some, String, length,
  All, All-In, All-map, In, Bool-cases, arith, if◌then◌else◌, if_intro, str_eq, eq_iff, ◌==◌,
  ==_iff,
}
use kdrive.Common.Dict.{
  lookup, insert, lookup-insert, lookup-insert_ne, lookup-insert_self, insert-Unique,
  length-insert_new,
}
use kdrive.HotCache.Memory.State.{MemEntry, MemoryCache, update}
use kdrive.HotCache.Memory.Methods.{push_entry}
use kdrive.HotCache.Memory.Elements.{Distinct, total, total-ext}
use kdrive.HotCache.Memory.Invariant.{IsValid, Listed, home}

pub update_self : (f : ℕ → MemEntry) (a : ℕ) (e : MemEntry) → update f a e a ≡ e
unfolding update
update_self f a e = rw ((==_iff a a).1 refl)

pub update_ne : (f : ℕ → MemEntry) (a b : ℕ) (e : MemEntry) → b ≢ a → update f a e b ≡ f b
unfolding update
update_ne f a b e ne = elim (Bool-cases (b == a)) [
  | inl p ↦ absurd (ne ((==_iff b a).0 p))
  | inr p ↦ rw p
]

module _ {F : Type 0} (c : MemoryCache F) (entry : MemEntry) (v : IsValid c)
    (absent : lookup entry.blob_id c.index ≡ none) where
  abbrev lists : Bool → List ℕ
  lists q =
      if q
      then (if entry.pinned then c.next ∷ c.hot else c.hot)
      else (if entry.pinned then c.main else c.next ∷ c.main)

  In-old : (q : Bool) (a : ℕ) → In a (home c q) → In a (lists q)
  In-old true a m = if_intro (In a) entry.pinned (c.next ∷ c.hot) c.hot (λ _. inr m) (λ _. m)
  In-old false a m = if_intro (In a) entry.pinned c.main (c.next ∷ c.main) (λ _. m) (λ _. inr m)

  In-new : (q : Bool) → entry.pinned ≡ q → In c.next (lists q)
  In-new true e = rw e (inl refl)
  In-new false e = rw e (inl refl)

  Listed-of_home : (q : Bool) (a : ℕ) → In a (home c q) → Listed c q a
  Listed-of_home true a m = All-In (Listed c true) a c.hot v.hot_listed m
  Listed-of_home false a m = All-In (Listed c false) a c.main v.main_listed m

  old_ne : (p : Bool) (a : ℕ) → Listed c p a → a ≢ c.next
  old_ne p a l e = absurd (omega (arith, l.allocated, e))

  old_id_ne : (k : String) (a : ℕ) → lookup k c.index ≡ some a → entry.blob_id ≢ k
  old_id_ne k a h e =
      let p : lookup k c.index ≡ none = subst (λ i. lookup i c.index ≡ none) e absent in cc

  old_Listed : (p : Bool) (a : ℕ) → Listed c p a → Listed (push_entry c entry) p a
  unfolding push_entry
  old_Listed p a l =
      let same = update_ne c.value c.next a entry (old_ne p a l) in
      record {
        flag = rw same l.flag;
        known = rw same (
            rw
              (lookup-insert_ne entry.blob_id (c.value a).blob_id c.next c.index
                (old_id_ne (c.value a).blob_id a l.known))
              l.known);
        allocated = omega (arith, l.allocated);
      }

  new_Listed : Listed (push_entry c entry) entry.pinned c.next
  unfolding push_entry
  new_Listed = record {
    flag = rw (update_self c.value c.next entry);
    known = rw (update_self c.value c.next entry) (lookup-insert_self entry.blob_id c.next c.index);
    allocated = omega arith;
  }

  old_total :
      (p : Bool) (l : List ℕ)
      → All (Listed c p) l
      → total (update c.value c.next entry) l ≡ total c.value l
  old_total p l h = total-ext (update c.value c.next entry) c.value l (
      All-map (Listed c p)
        (λ a. length (update c.value c.next entry a).body ≡ length (c.value a).body) l
        (λ a k. rw (update_ne c.value c.next a entry (old_ne p a k))) h)

  push-indexed :
      let c' = push_entry c entry in
      (k : String) (a : ℕ)
      → lookup k c'.index ≡ some a
      → ((c'.value a).blob_id ≡ k) × In a (home c' (c'.value a).pinned)
  unfolding push_entry
  push-indexed k a h = elim (Bool-cases (str_eq entry.blob_id k)) [
    | inl e ↦
        let p : some c.next ≡ some a = rw (lookup-insert entry.blob_id k c.next c.index, e) at h in
        let q : c.next ≡ a = cc in
        subst
          (λ x.
            ((update c.value c.next entry x).blob_id ≡ k)
            × In x (lists (update c.value c.next entry x).pinned))
          q
          (rw (update_self c.value c.next entry)
            ((eq_iff entry.blob_id k).0 e, In-new entry.pinned refl))
    | inr e ↦
        let p : lookup k c.index ≡ some a =
          rw (lookup-insert entry.blob_id k c.next c.index, e) at h in
        let (id, m) = v.indexed k a p in
        let l = Listed-of_home (c.value a).pinned a m in
        rw (update_ne c.value c.next a entry (old_ne (c.value a).pinned a l))
          (id, In-old (c.value a).pinned a m)
  ]

  push-hot-Listed : All (Listed (push_entry c entry) true) (lists true)
  push-hot-Listed =
      let old =
        All-map (Listed c true) (Listed (push_entry c entry) true) c.hot (old_Listed true)
          v.hot_listed in
      if_intro (All (Listed (push_entry c entry) true)) entry.pinned (c.next ∷ c.hot) c.hot
        (λ e. (subst (λ b. Listed (push_entry c entry) b c.next) e new_Listed, old)) (λ _. old)

  push-main-Listed : All (Listed (push_entry c entry) false) (lists false)
  push-main-Listed =
      let old =
        All-map (Listed c false) (Listed (push_entry c entry) false) c.main (old_Listed false)
          v.main_listed in
      if_intro (All (Listed (push_entry c entry) false)) entry.pinned c.main (c.next ∷ c.main)
        (λ _. old) (λ e. (subst (λ b. Listed (push_entry c entry) b c.next) e new_Listed, old))

  push-Distinct : (q : Bool) → Distinct (lists q)
  push-Distinct true =
      if_intro Distinct entry.pinned (c.next ∷ c.hot) c.hot
        (λ _. (
          All-map (Listed c true) (λ b. b ≢ c.next) c.hot (old_ne true) v.hot_listed,
          v.hot_distinct,
        ))
        (λ _. v.hot_distinct)
  push-Distinct false =
      if_intro Distinct entry.pinned c.main (c.next ∷ c.main) (λ _. v.main_distinct)
        (λ _. (
          All-map (Listed c false) (λ b. b ≢ c.next) c.main (old_ne false) v.main_listed,
          v.main_distinct,
        ))

  record Sums : Type 0 where
    more : length (insert entry.blob_id c.next c.index) ≡ length (lists true) + length (lists false)
    hot_more :
        (if entry.pinned then c.hot_bytes + length entry.body else c.hot_bytes)
        ≡ total (update c.value c.next entry) (lists true)
    used_more :
        c.bytes_used + length entry.body
        ≡ total (update c.value c.next entry) (lists true)
          + total (update c.value c.next entry) (lists false)

  total_new :
      (l : List ℕ)
      → total (update c.value c.next entry) (c.next ∷ l)
        ≡ length entry.body + total (update c.value c.next entry) l
  unfolding total
  total_new l = rw (update_self c.value c.next entry)

  push-Sums : Sums
  push-Sums =
      let one = length-insert_new entry.blob_id c.next c.index absent in
      let h = old_total true c.hot v.hot_listed in
      let m = old_total false c.main v.main_listed in
      record {
        more = ground (arith, v.counted);
        hot_more = ground (arith, total_new c.hot, v.hot_sum);
        used_more = ground (arith, total_new c.hot, total_new c.main, v.used_sum);
      }

  pub push_entry-IsValid : IsValid (push_entry c entry)
  unfolding push_entry
  push_entry-IsValid = record {
    hot_listed = push-hot-Listed;
    main_listed = push-main-Listed;
    hot_distinct = push-Distinct true;
    main_distinct = push-Distinct false;
    keys_unique = insert-Unique entry.blob_id c.next c.index v.keys_unique;
    indexed = push-indexed;
    counted = push-Sums.more;
    hot_sum = push-Sums.hot_more;
    used_sum = push-Sums.used_more;
    stat_entries = refl;
    stat_bytes = refl;
  }
