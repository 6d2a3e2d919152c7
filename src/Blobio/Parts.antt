-- ===== src/Blobio/Parts.antt =====
-- The parts of a multipart promotion: how the body is cut, and how the results are put in order.
use kdrive.Common.{
  ℕ, zero, suc, ◌≤◌, ◌<◌, ◌*◌, ◌≡◌, refl, ◌∙◌, ap, List, [], ◌∷◌, ◌++◌, Option, none, some, length,
  take, drop, take-append-drop, length-drop, ltb, ◌==◌, if◌then◌else◌, Result, ok, err, Reader,
  ◌>>=◌, arith, false,
}
use kdrive.BlobStore.{UploadedPart, CompletedPart}
use kdrive.Blobio.State.{PipelineError, missing_part}
use mathlib.Core.List.{flatten}

abbrev pub promote_multipart_threshold : ℕ
promote_multipart_threshold = 100 * 1024 * 1024

abbrev pub promote_part_size : ℕ
promote_part_size = 16 * 1024 * 1024

-- The parts that `io.ReadFull` makes of a body, each of `n` bytes but for the last. The fuel is
-- the number of bytes.
cut_loop : ℕ → ℕ → List ℕ → List (List ℕ)
cut_loop zero n bytes = []
cut_loop (suc fuel) n [] = []
cut_loop (suc fuel) n (b ∷ bytes) = take n (b ∷ bytes) ∷ cut_loop fuel n (drop n (b ∷ bytes))

unfoldable pub cut : ℕ → List ℕ → List (List ℕ)
unfolding cut_loop
cut n bytes = cut_loop (length bytes) n bytes

cut_loop-flatten :
    (fuel n : ℕ) (bytes : List ℕ)
    → 0 < n
    → length bytes ≤ fuel
    → flatten (cut_loop fuel n bytes) ≡ bytes
unfolding cut_loop flatten
cut_loop-flatten zero n [] p h = refl
cut_loop-flatten zero n (b ∷ bytes) p h = absurd (omega arith)
cut_loop-flatten (suc fuel) n [] p h = refl
cut_loop-flatten (suc fuel) n (b ∷ bytes) p h =
    ap (λ r. take n (b ∷ bytes) ++ r)
      (cut_loop-flatten fuel n (drop n (b ∷ bytes)) p (omega (arith, length-drop n (b ∷ bytes))))
    ∙ take-append-drop n (b ∷ bytes)

-- The parts number from 1 on.
unfoldable pub numbered : ℕ → List (List ℕ) → List (ℕ × List ℕ)
numbered i [] = []
numbered i (p ∷ ps) = (i, p) ∷ numbered (suc i) ps

-- `results[i]`, the last result received for the part.
unfoldable pub result_of : ℕ → List (ℕ × UploadedPart) → Option UploadedPart
result_of i [] = none
result_of i (r ∷ rs) =
    let later = result_of i rs in
    elim later [ some part ↦ some part | none ↦ if r.0 == i then some r.1 else none ]

unfoldable pub max_part : List (ℕ × UploadedPart) → ℕ
max_part [] = 0
max_part (r ∷ rs) = if ltb (max_part rs) r.0 then r.0 else max_part rs

abbrev pub completed_of : UploadedPart → CompletedPart
completed_of p = record {
  part_number = p.part_number;
  checksum_sha256 = p.checksum_sha256;
  size = p.size;
}

-- `for i := 1; i <= maxPart; i++`: `left` rounds are to go, the next one at `i`.
unfoldable pub assemble_loop :
    ℕ → ℕ → List (ℕ × UploadedPart) → Result PipelineError (List CompletedPart)
assemble_loop zero i results = ok []
assemble_loop (suc left) i results = elim (result_of i results) [
  | none ↦ err missing_part
  | some part ↦ do rest ← assemble_loop left (suc i) results; ok (completed_of part ∷ rest)
]

unfoldable pub assemble : List (ℕ × UploadedPart) → Result PipelineError (List CompletedPart)
unfolding assemble_loop
assemble results = assemble_loop (max_part results) 1 results

-- Cutting loses nothing: the parts, one after the other, are the body, for any part size that is
-- positive.
pub cut-flatten : (n : ℕ) (bytes : List ℕ) → 0 < n → flatten (cut n bytes) ≡ bytes
unfolding cut
cut-flatten n bytes p = cut_loop-flatten (length bytes) n bytes p (omega arith)

-- `n` bytes or fewer than `n` at the end: what is left of a body whose reader fails.
unfoldable pub full_parts : ℕ → List (List ℕ) → List (List ℕ)
full_parts n [] = []
full_parts n (p ∷ ps) = if length p == n then p ∷ full_parts n ps else full_parts n ps

-- The jobs of the reading goroutine: a read that fails drops the part that it breaks off.
unfoldable pub parts_of : ℕ → Reader → List (List ℕ)
unfolding full_parts cut
parts_of n r = if r.fails then full_parts n (cut n r.bytes) else cut n r.bytes

-- A reader that does not fail is cut whole.
pub parts_of-flatten :
    (n : ℕ) (r : Reader) → 0 < n → r.fails ≡ false → flatten (parts_of n r) ≡ r.bytes
unfolding parts_of
parts_of-flatten n r p fine = rw fine (cut-flatten n r.bytes p)
