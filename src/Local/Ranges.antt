-- ===== src/Local/Ranges.antt =====
-- Range reads deliver what the range asks for.
use kdrive.Common.{
  ℕ, suc, ◌+◌, ◌-◌, ◌≤◌, ◌<◌, ◌≡◌, refl, sym, ap, ltb, if_intro, List, [], ◌∷◌, Result, ok,
  err-ne-ok, ok-injective, ℤ, pos, negsuc, length, take, drop, length-take, length-drop, arith, min,
}
use kdrive.BlobStore.{StoreError}
use kdrive.Local.Objects.{ByteRange, range_end, slice_from, slice}

-- `n` places from `i` on end at `end`, or with the body, of the given length, when that comes first.
abbrev pub EndsAt : ℤ → ℕ → ℕ → ℕ → Type 0
EndsAt (negsuc _) i n total = i + n ≡ total
EndsAt (pos end) i n total = i + n ≡ min (end + 1) total

range_end-le : (end : ℤ) (last : ℕ) → range_end end last ≤ last
unfolding range_end
range_end-le (negsuc n) last = omega arith
range_end-le (pos n) last = ground arith

slice_from-bounds :
    (start : ℤ) (end : ℕ) (body bytes : List ℕ)
    → end < length body
    → slice_from start end body ≡ ok bytes
    → (i : ℕ) × (start ≡ pos i)
      × (bytes ≡ take (length bytes) (drop i body))
      × (1 ≤ length bytes)
      × (i + length bytes ≡ suc end)
unfolding slice_from
slice_from-bounds (negsuc n) end body bytes lt h = absurd (err-ne-ok _ bytes h)
slice_from-bounds (pos i) end body bytes lt done =
    if_intro
      (λ (x : Result StoreError (List ℕ)).
        x ≡ ok bytes
        → (j : ℕ) × (pos i ≡ pos j)
          × (bytes ≡ take (length bytes) (drop j body))
          × (1 ≤ length bytes)
          × (j + length bytes ≡ suc end))
      (ltb end i) _ _ (λ _ h. absurd (err-ne-ok _ bytes h))
      (λ fits h.
        let here = ok-injective (take (end - i + 1) (drop i body)) bytes h in
        let cut = length-take (end - i + 1) (drop i body) in
        let rest = length-drop i body in
        let long : length (take (end - i + 1) (drop i body)) ≡ end - i + 1 =
          ground (arith, cut, rest, fits, lt) in
        (
          i,
          refl,
          rw (sym here) (ap (λ n. take n (drop i body)) (sym long)),
          rw (sym here) (omega (arith, long)),
          rw (sym here) (ground (arith, long, fits)),
        ))
      done

-- The last place of a read, as the range and the body's length say it.
range_end-last :
    (end : ℤ) (last i n : ℕ) → i + n ≡ suc (range_end end last) → EndsAt end i n (suc last)
unfolding range_end
range_end-last (negsuc k) last i n h = h
range_end-last (pos k) last i n h = ground arith

-- The bytes that a range read delivers are those of the body from the range's first place on, at
-- least one: to the end of the body for a negative end, and otherwise up to the last place that the
-- range names, or to the end of the body when that comes first.
pub slice-bounds :
    (range : ByteRange) (body bytes : List ℕ)
    → slice range body ≡ ok bytes
    → (i : ℕ) × (range.start ≡ pos i)
      × (bytes ≡ take (length bytes) (drop i body))
      × (1 ≤ length bytes)
      × EndsAt range.end i (length bytes) (length body)
unfolding slice
slice-bounds range [] bytes h = absurd (err-ne-ok _ bytes h)
slice-bounds range (b ∷ bs) bytes h =
    let le = range_end-le range.end (length bs) in
    let got =
      slice_from-bounds range.start (range_end range.end (length bs)) (b ∷ bs) bytes
        (omega (arith, le)) h in
    (got.0, got.1, got.2, got.3, range_end-last range.end (length bs) got.0 (length bytes) got.4)
