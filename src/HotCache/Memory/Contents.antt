-- ===== src/HotCache/Memory/Contents.antt =====
-- What a client sees of a `MemoryCache`: the entry under each blob id, through every method.
use kdrive.Common.{
  ℕ, ◌<◌, ◌≡◌, refl, sym, ◌∙◌, subst, ◌≢◌, ◌⊎◌, inl, inr, Bool, true, false, List, [], ◌∷◌, Option,
  none, some, String, length, All, All-In, In, Option-cases, arith, if◌then◌else◌, str_eq, eq_iff,
  ltℤ, pos,
}
use kdrive.Common.Dict.{lookup, lookup-insert_ne, lookup-insert_self, lookup-delete, str_eq_refl}
use kdrive.HotCache.{PutOptions}
use kdrive.HotCache.Memory.State.{MemEntry, MemoryCache, update, over, remove_locked, main_victim}
use kdrive.HotCache.Memory.Methods.{remove_existing, new_entry, push_entry, make_room, put_locked}
use kdrive.HotCache.Memory.Invariant.{IsValid, Listed, IsKnown, home, remove-IsValid}
use kdrive.HotCache.Memory.Trims.{Trims}
use kdrive.HotCache.Memory.Eviction.{MainDone, fits, stuck, make_room_lem}
use kdrive.HotCache.Memory.Insertion.{update_self, update_ne, push_entry-IsValid}
use kdrive.HotCache.Memory.Elements.{All-of-reverse, walk_back-none}
use mathlib.Core.List.{reverse}

-- The entry that an index lookup leads to.
abbrev pub entry_at : (ℕ → MemEntry) → Option ℕ → Option MemEntry
entry_at value none = none
entry_at value (some a) = some (value a)

entry_at-some :
    (value : ℕ → MemEntry) (o : Option ℕ) (e : MemEntry)
    → entry_at value o ≡ some e
    → (a : ℕ) × (o ≡ some a) × (value a ≡ e)
entry_at-some value none e h = cc
entry_at-some value (some a) e h = (a, refl, (let q : value a ≡ e = cc in q))

module _ {F : Type 0} where
  -- The entry stored under a blob id.
  abbrev pub view : MemoryCache F → String → Option MemEntry
  view c k = entry_at c.value (lookup k c.index)

  pub remove_existing_lem :
      (c : MemoryCache F) (k : String)
      → IsValid c
      → let c' = remove_existing c (lookup k c.index) in
        IsValid c'
        × (c'.value ≡ c.value)
        × (c'.policy ≡ c.policy)
        × (c'.next ≡ c.next)
        × ((j : String) → lookup j c'.index ≡ (if str_eq k j then none else lookup j c.index))
  remove_existing_lem c k v = go (lookup k c.index) refl
    where
      go :
          (o : Option ℕ)
          → lookup k c.index ≡ o
          → let c' = remove_existing c o in
            IsValid c'
            × (c'.value ≡ c.value)
            × (c'.policy ≡ c.policy)
            × (c'.next ≡ c.next)
            × ((j : String) → lookup j c'.index ≡ (if str_eq k j then none else lookup j c.index))
      go none e = unfold remove_existing in (v, refl, refl, refl, λ j. ground (arith, eq_iff k j))
      go (some el) e =
          let id = (v.indexed k el e).0 in
          let known : IsKnown c el = rw id e in
          unfold remove_existing remove_locked in
          (remove-IsValid c el v known, refl, refl, refl, λ j. rw (id) (lookup-delete k j c.index))

  -- Over its limit, the cache has only protected entries left in the main list, beside `k`'s own.
  abbrev pub IsCrowded : MemoryCache F → String → Type 0
  IsCrowded c k =
      (j : String) (e : MemEntry)
      → k ≢ j
      → view c j ≡ some e
      → e.pinned ≡ false
      → e.non_evictable ≡ true

  -- `c'` is `c` with `entry` stored under `k`, and with evictable entries of other keys removed.
  pub record Stored (c c' : MemoryCache F) (k : String) (entry : MemEntry) : Type 0 where
    pub valid : IsValid c'
    pub policy_same : c'.policy ≡ c.policy
    pub stored : view c' k ≡ some entry
    pub protected :
        (j : String) (e : MemEntry)
        → k ≢ j
        → view c j ≡ some e
        → e.non_evictable ≡ true
        → view c' j ≡ some e
    pub others : (j : String) (e : MemEntry) → k ≢ j → view c' j ≡ some e → view c j ≡ some e
    pub room :
        ltℤ (pos 0) c.policy.max_bytes ≡ true
        → (over c.policy.max_bytes c'.bytes_used ≡ false) ⊎ IsCrowded c' k

  -- The entry under another key is as it was before the push.
  push-view_ne :
      (d : MemoryCache F) (entry : MemEntry) (j : String)
      → IsValid d
      → entry.blob_id ≢ j
      → view (push_entry d entry) j ≡ view d j
  unfolding push_entry
  push-view_ne d entry j v ne =
      rw (lookup-insert_ne entry.blob_id j d.next d.index ne) (old (lookup j d.index) refl)
    where
      old :
          (o : Option ℕ)
          → lookup j d.index ≡ o
          → entry_at (update d.value d.next entry) o ≡ entry_at d.value o
      old none h = refl
      old (some a) h =
          let m = (v.indexed j a h).1 in
          rw (
            update_ne d.value d.next a entry
              (λ p. absurd (omega (arith, fresh (d.value a).pinned m, p))))
        where
          fresh : (q : Bool) → In a (home d q) → a < d.next
          fresh true m = (All-In (Listed d true) a d.hot v.hot_listed m).allocated
          fresh false m = (All-In (Listed d false) a d.main v.main_listed m).allocated

  push-view_self :
      (d : MemoryCache F) (entry : MemEntry) → view (push_entry d entry) entry.blob_id ≡ some entry
  unfolding push_entry
  push-view_self d entry =
      rw (lookup-insert_self entry.blob_id d.next d.index) (rw (update_self d.value d.next entry))

  -- Where the main loop found no victim, the main list holds protected entries only.
  stuck_crowded :
      (d : MemoryCache F)
      → main_victim d ≡ none
      → All (λ a. (d.value a).non_evictable ≡ true) d.main
  stuck_crowded d h = go d.main refl h
    where
      go :
          (l : List ℕ)
          → d.main ≡ l
          → main_victim d ≡ none
          → All (λ a. (d.value a).non_evictable ≡ true) l
      go [] e h = tt
      go (x ∷ l) e h =
          All-of-reverse _ (x ∷ l)
            (walk_back-none d.value (reverse (x ∷ l)) (unfold main_victim in (rw e at h)))

  crowded_lem :
      (d : MemoryCache F) (k : String) (entry : MemEntry)
      → IsValid d
      → entry.blob_id ≡ k
      → main_victim d ≡ none
      → IsCrowded (push_entry d entry) k
  crowded_lem d k entry v id h j e ne at_j flat =
      let old : view d j ≡ some e = sym (push-view_ne d entry j v (λ p. ne (sym id ∙ p))) ∙ at_j in
      let (a, l, ve) = entry_at-some d.value (lookup j d.index) e old in
      let flag : (d.value a).pinned ≡ false = rw ve flat in
      let m : In a d.main = rw flag at ((v.indexed j a l).1) in
      subst (λ x. x.non_evictable ≡ true) ve (All-In _ a d.main (stuck_crowded d h) m)

  Trims-view :
      (c d : MemoryCache F) (j : String) (e : MemEntry)
      → Trims c d
      → view c j ≡ some e
      → e.non_evictable ≡ true
      → view d j ≡ some e
  Trims-view c d j e t h n =
      let (a, l, ve) = entry_at-some c.value (lookup j c.index) e h in
      rw (t.kept j a l (rw ve n), t.values) (rw ve)

  Trims-view_back :
      (c d : MemoryCache F) (j : String) (e : MemEntry)
      → Trims c d
      → view d j ≡ some e
      → view c j ≡ some e
  Trims-view_back c d j e t h =
      let (a, l, ve) = entry_at-some d.value (lookup j d.index) e h in
      rw (t.fewer j a l) (let p : c.value a ≡ e = rw (t.values) at ve in rw p)

  Trims-absent :
      (c d : MemoryCache F) (k : String)
      → Trims c d
      → lookup k c.index ≡ none
      → lookup k d.index ≡ none
  Trims-absent c d k t h = elim (Option-cases (lookup k d.index)) [
    | inl e ↦ e
    | inr (a, e) ↦ let p = t.fewer k a e in absurd (cc)
  ]

  pub put_locked-Stored :
      (c : MemoryCache F) (k : String) (body : List ℕ) (opts : PutOptions) (now : ℕ)
      → IsValid c
      → Stored c (put_locked c k body opts now) k (new_entry c.policy k body opts now)
  unfolding put_locked push_entry
  put_locked-Stored c k body opts now v =
      let entry = new_entry c.policy k body opts now in
      let r = remove_existing c (lookup k c.index) in
      let (vr, values, policies, nexts, look) = remove_existing_lem c k v in
      let gone : lookup k r.index ≡ none = rw (look k) (rw (str_eq_refl k)) in
      let look_ne : (j : String) → k ≢ j → view r j ≡ view c j =
        λ j ne. rw (look j, values) (ground (arith, eq_iff k j)) in
      let d = make_room r entry.pinned (length body) in
      let (vd, t, done) = make_room_lem r entry.pinned (length body) vr in
      let absent : lookup entry.blob_id d.index ≡ none = Trims-absent r d k t gone in
      record {
        valid = push_entry-IsValid d entry vd absent;
        policy_same = t.policies ∙ policies;
        stored = push-view_self d entry;
        protected =
            λ j e ne h n. push-view_ne d entry j vd ne ∙ Trims-view r d j e t (look_ne j ne ∙ h) n;
        others = λ j e ne h.
            sym (look_ne j ne) ∙ Trims-view_back r d j e t (sym (push-view_ne d entry j vd ne) ∙ h);
        room = λ lim.
            room_lem d k entry c.policy (t.policies ∙ policies) vd refl (done (rw policies lim));
      }
    where
      room_lem :
          (d : MemoryCache F) (k : String) (entry : MemEntry) (p : _)
          → d.policy ≡ p
          → IsValid d
          → entry.blob_id ≡ k
          → MainDone d (length entry.body)
          → (over p.max_bytes (push_entry d entry).bytes_used ≡ false)
            ⊎ IsCrowded (push_entry d entry) k
      room_lem d k entry p e vd id (fits h) = inl (unfold push_entry in (rw (← e) h))
      room_lem d k entry p e vd id (stuck h) = inr (crowded_lem d k entry vd id h)
