-- ===== src/Worker/Scan.antt =====
-- What a repair scan counts, and that it passes what was promoted.
use kdrive.Common.{
  ℕ, ◌+◌, ◌≤◌, ◌≡◌, ◌≢◌, refl, sym, ap, ◌∙◌, ◌⊎◌, inl, inr, String, false, List, [], ◌∷◌, none,
  some, Result, ok, err, err-ne-ok, length, All, arith,
}
use kdrive.Common.Dict.{lookup}
use kdrive.Local.State.{Provider, LocalEnv}
use kdrive.Local.Objects.{get}
use kdrive.Local.Validity.{IsValid}
use kdrive.Blobio.State.{cached, BlobStatus, CacheOps, Extern, Pipeline}
use kdrive.Blobio.Promotion.{promote}
use kdrive.Blobio.LocalL2.{local_l2}
use kdrive.Blobio.Promoted.{Relied, promote-HasCopy}
use kdrive.Worker.Repair.{
  VersionedReads, DurablePlacement, RepairError, RepairJob, verify_checksum, verify_sample,
  verify_all, run_repair,
}
use kdrive.Worker.Durable.{Verified, verify_checksum_sound, verify_checksum_complete}

abbrev passed : RepairJob → RepairJob
passed j = record j { checked_total = j.checked_total + 1 }

abbrev found : RepairJob → RepairJob
found j = record j { checked_total = j.checked_total + 1; mismatch_total = j.mismatch_total + 1 }

module _ {S : Type 0} ⦃reads : VersionedReads S⦄ ⦃ext : Extern⦄ where
  abbrev check : S → DurablePlacement → Result RepairError (Unit {0})
  check s d = verify_checksum s d.blob_key d.blob_version_id d.checksum_sha256

  sample-cases :
      (s : S) (j : RepairJob) (d : DurablePlacement)
      → ((check s d ≡ ok tt) × (verify_sample s j d ≡ passed j))
        ⊎ ((check s d ≢ ok tt) × (verify_sample s j d ≡ found j))
  unfolding verify_sample
  sample-cases s j d = go (check s d)
    where
      go :
          (x : Result RepairError (Unit {0}))
          → ((x ≡ ok tt)
              × ((elim x as (λ _. RepairJob) [ err e ↦ found j | ok _ ↦ passed j ]) ≡ passed j))
            ⊎ ((x ≢ ok tt)
                × ((elim x as (λ _. RepairJob) [ err e ↦ found j | ok _ ↦ passed j ]) ≡ found j))
      go (ok u) = inl (refl, refl)
      go (err e) = inr (err-ne-ok e tt, refl)

  -- How a scan of the samples ends that starts with `j`.
  record Scanned (s : S) (j : RepairJob) (ds : List DurablePlacement) (end : RepairJob)
      : Type 0 where
    checked : end.checked_total ≡ j.checked_total + length ds
    more : j.mismatch_total ≤ end.mismatch_total
    clean : All (Verified s) ds → end.mismatch_total ≡ j.mismatch_total
    sound : end.mismatch_total ≡ j.mismatch_total → All (Verified s) ds

  verify_all-Scanned :
      (s : S) (j : RepairJob) (ds : List DurablePlacement) → Scanned s j ds (verify_all s j ds)
  unfolding verify_all
  verify_all-Scanned s j [] = record {
    checked = omega arith;
    more = omega arith;
    clean = λ _. refl;
    sound = λ _. tt;
  }
  verify_all-Scanned s j (d ∷ ds) =
      let rest = verify_all-Scanned s (verify_sample s j d) ds in
      elim (sample-cases s j d) [
        | inl good ↦
            let checked = rest.checked in
            let more = rest.more in
            let one = ap (λ x. x.checked_total) good.1 in
            let same = ap (λ x. x.mismatch_total) good.1 in
            record {
              checked = omega (arith, checked, one);
              more = omega (arith, more, same);
              clean = λ all_. rest.clean all_.1 ∙ same;
              sound = λ e. (verify_checksum_sound s d good.0, rest.sound (e ∙ sym same));
            }
        | inr bad ↦
            let checked = rest.checked in
            let more = rest.more in
            let one = ap (λ x. x.checked_total) bad.1 in
            let up = ap (λ x. x.mismatch_total) bad.1 in
            record {
              checked = omega (arith, checked, one);
              more = omega (arith, more, up);
              clean = λ all_. absurd (bad.0 (verify_checksum_complete s d all_.0));
              sound = λ e. absurd (omega (arith, e, more, up));
            }
      ]

  -- A scan counts every sample as checked; it counts no mismatch exactly when the store delivers every
  -- sample's version whole, with the SHA-256 that was recorded.
  pub run_repair-exact :
      (s : S) (j : RepairJob) (ds : List DurablePlacement)
      → ((run_repair s j (some (some ds))).checked_total ≡ j.checked_total + length ds)
        × (All (Verified s) ds
            → (run_repair s j (some (some ds))).mismatch_total ≡ j.mismatch_total)
        × ((run_repair s j (some (some ds))).mismatch_total ≡ j.mismatch_total
            → All (Verified s) ds)
  unfolding run_repair
  run_repair-exact s j ds =
      let end = verify_all-Scanned s (record j { scan_count = j.scan_count + 1 }) ds in
      (end.checked, end.clean, end.sound)

-- `local_fs_dev` as the store that is scanned.
instance abbrev pub local_reads : VersionedReads Provider
local_reads = record { get = λ p ref. get p ref none }

module _ {C : Type 0} ⦃env : LocalEnv⦄ ⦃cache : CacheOps C⦄ ⦃ext : Extern⦄ where
  -- Over the filesystem provider: behind a promotion of a cached blob that succeeds, the repair job's
  -- check of the blob's latest version against the checksum of its status passes. The status has a
  -- checksum, SHA-256 is never empty, time does not go back and version ids differ.
  pub promote-verifies :
      (p q : Pipeline C Provider) (id : String) (st : BlobStatus) (now : ℕ)
      → Relied env ext
      → IsValid p.store
      → lookup id p.status ≡ some st
      → st.commit_state ≡ cached
      → st.checksum_sha256 ≢ ""
      → promote p id now ≡ (q, ok tt)
      → verify_checksum q.store id "" st.checksum_sha256 ≡ ok tt
  promote-verifies p q id st now rely valid found waits given h =
      let copy = promote-HasCopy p q id st now rely valid found waits given h in
      let d : DurablePlacement = record {
        blob_key = id;
        blob_version_id = "";
        checksum_sha256 = st.checksum_sha256;
      } in
      verify_checksum_complete q.store d
        (record { bytes = copy.0; fails = false }, copy.1, copy.2, refl, rely.same copy.0 ∙ copy.3)
