-- ===== src/HotCache/Memory/Whole.antt =====
-- A `Put` that succeeds stores everything that the reader delivers.
use kdrive.Common.{
  ℕ, ◌+◌, ◌<◌, ◌≡◌, sym, ◌∙◌, ap, subst, inl, inr, true, false, ◌&&◌, List, some, String, length,
  take, take_of_short, Bool-cases, arith, str_eq, ok, ltℤ, pos, reject-eq-ok, >>=-eq-ok,
  ok-injective, ℤ, negsuc, pos_part, Reader, max_int64, limit_above, limit_above-small,
}
use kdrive.HotCache.{blob_id_required, exceeds_capacity, EvictionPolicy, PutOptions}
use kdrive.HotCache.Memory.State.{MemoryCache, over, read_limited, read_all}
use kdrive.HotCache.Memory.Methods.{read_body, put_locked, put_from, put}

read_limited-whole :
    (limit : ℤ) (r : Reader) (body : List ℕ)
    → r.fails ≡ false
    → ltℤ (pos 0) limit ≡ true
    → ltℤ limit (pos max_int64) ≡ true
    → over limit (length body) ≡ false
    → read_limited (limit_above (pos_part limit)) r ≡ ok body
    → body ≡ r.bytes
unfolding read_limited
read_limited-whole (negsuc n) r body fine h small within e = absurd (cc)
read_limited-whole (pos n) r body fine h small within e =
    let cut =
      ok-injective (take (n + 1) r.bytes) body (rw fine at (rw (limit_above-small n small) at e)) in
    sym cut
    ∙ take_of_short (n + 1) r.bytes (subst (λ b. length b < n + 1) (sym cut) (short n body within))
  where
    short : (n : ℕ) (b : List ℕ) → over (pos n) (length b) ≡ false → length b < n + 1
    short n b h = ground arith

module _ {F : Type 0} where
  read_body-whole :
      (policy : EvictionPolicy F) (r : Reader) (body : List ℕ)
      → r.fails ≡ false
      → ltℤ policy.max_bytes (pos max_int64) ≡ true
      → (ltℤ (pos 0) policy.max_bytes && over policy.max_bytes (length body)) ≡ false
      → read_body policy r ≡ ok body
      → body ≡ r.bytes
  unfolding read_body read_all
  read_body-whole policy r body fine small within e =
      elim (Bool-cases (ltℤ (pos 0) policy.max_bytes)) [
        | inl limited ↦
            read_limited-whole policy.max_bytes r body fine limited small (rw limited at within)
              (rw limited at e)
        | inr free ↦ sym (ok-injective r.bytes body (rw fine at (rw free at e)))
      ]

  pub put-whole :
      (c c' : MemoryCache F) (k : String) (r : Reader) (opts : PutOptions) (now : ℕ)
      → r.fails ≡ false
      → ltℤ c.policy.max_bytes (pos max_int64) ≡ true
      → put c k (some r) opts now ≡ ok c'
      → (str_eq k "" ≡ false) × (read_body c.policy r ≡ ok r.bytes)
  unfolding put put_from
  put-whole c c' k r opts now fine room h =
      let (named, h0) = reject-eq-ok (str_eq k "") blob_id_required _ c' h in
      let (_, h1) = reject-eq-ok _ exceeds_capacity _ c' h0 in
      let (body, read, h2) = >>=-eq-ok (read_body c.policy r) _ c' h1 in
      let (within, _) = reject-eq-ok _ exceeds_capacity (ok (put_locked c k body opts now)) c' h2 in
      (named, read ∙ ap ok (read_body-whole c.policy r body fine room within read))
