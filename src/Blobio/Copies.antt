-- ===== src/Blobio/Copies.antt =====
-- What `Promote` leaves in the filesystem provider.
use kdrive.Common.{
  ℕ, ◌≡◌, ◌≢◌, refl, sym, ◌∙◌, ap, subst, inl, inr, true, false, not, ◌&&◌, ◌==◌, if_intro,
  if◌then◌else◌, Bool, List, none, String, str_eq, Bool-cases, eq_iff, Result, ok, err, err-ne-ok,
  Reader, arith,
}
use kdrive.Common.Dict.{str_ne}
use kdrive.BlobStore.{StoreError, PutRequest, PutResult, ObjectMeta}
use kdrive.Local.State.{Provider, LocalEnv}
use kdrive.Local.Objects.{put, get, head}
use kdrive.Local.Validity.{IsValid}
use kdrive.Local.Fresh.{LocalLaws}
use kdrive.Local.RoundTrip.{described, get-put, put-ok}
use kdrive.Local.Keys.{validate_key}
use kdrive.Blobio.State.{BlobStatus, PipelineError, promote_put, promote_checksum, Extern}
use kdrive.Blobio.Promotion.{same_object, promote_single, check_already_durable}
use kdrive.Blobio.LocalL2.{taken, local_l2, head-get}

module _ ⦃env : LocalEnv⦄ where
  -- The provider's latest version under the id is a body with the checksum, and its metadata say so.
  abbrev pub HasCopy : Provider → String → String → Type 0
  HasCopy q id sum =
      (body : List ℕ) × (meta : ObjectMeta) × (get q (record { key = id; version_id = "" }) none
        ≡ ok (record { bytes = body; fails = false }, meta))
      × (env.sha256_hex body ≡ sum)
      × (meta.checksum_sha256 ≡ sum)

  put-HasCopy :
      (p q : Provider) (req : PutRequest) (res : PutResult)
      → LocalLaws env
      → IsValid p
      → req.checksum_sha256 ≢ ""
      → put p req ≡ (q, ok res)
      → HasCopy q req.key req.checksum_sha256
  put-HasCopy p q req res laws valid given h =
      let read = get-put p q req res laws valid h in
      let checked = (put-ok p q req res h).1.2 in
      let same : env.sha256_hex req.body.bytes ≡ req.checksum_sha256 =
        sum_same req.checksum_sha256 (env.sha256_hex req.body.bytes) given checked in
      (req.body.bytes, described res, read.0, same, read.4 ∙ same)
    where
      sum_same : (a b : String) → a ≢ "" → not (str_eq a "") && not (str_eq a b) ≡ false → b ≡ a
      sum_same a b ne h = elim (Bool-cases (str_eq a b)) [
        | inl same ↦ sym ((eq_iff a b).0 same)
        | inr other ↦ let p : true ≡ false = rw (str_ne a "" ne, other) at h in absurd (cc)
      ]

  module _ ⦃ext : Extern⦄ where
    pub single-HasCopy :
        (s s' : Provider) (id : String) (r : Reader) (status : BlobStatus) (res : PutResult)
        → LocalLaws env
        → IsValid s
        → status.checksum_sha256 ≢ ""
        → promote_single s id r status ≡ (s', ok res)
        → HasCopy s' id status.checksum_sha256
    unfolding promote_single
    single-HasCopy s s' id r status res laws valid given = go (put s req) refl
      where
        req : PutRequest
        req = record {
          key = id;
          body = r;
          expected_length = status.size;
          checksum_sha256 = status.checksum_sha256;
          content_type = "application/octet-stream";
          retention = status.retention;
          if_none_match = false;
        }

        go :
            (x : Provider × Result StoreError PutResult)
            → put s req ≡ x
            → (elim x.1 as (λ _. Provider × Result PipelineError PutResult) [
              | err e ↦ (x.0, err (promote_put e))
              | ok res ↦
                  if not (str_eq status.checksum_sha256 "")
                    && not (
                        str_eq
                          (ext.sha256_hex (taken s req (validate_key id)))
                          status.checksum_sha256)
                  then (x.0, err promote_checksum)
                  else (x.0, ok res)
            ])
              ≡ (s', ok res)
            → HasCopy s' id status.checksum_sha256
        go (q, err e) at h = absurd (err-ne-ok (promote_put e) res (ap (λ x. x.1) h))
        go (q, ok made) at h =
            if_intro
              (λ (x : Provider × Result PipelineError PutResult).
                x ≡ (s', ok res) → HasCopy s' id status.checksum_sha256)
              (not (str_eq status.checksum_sha256 "")
                && not (
                    str_eq (ext.sha256_hex (taken s req (validate_key id))) status.checksum_sha256))
              _ _ (λ _ h. absurd (err-ne-ok promote_checksum res (ap (λ x. x.1) h)))
              (λ _ h.
                subst (λ x. HasCopy x id status.checksum_sha256) (ap (λ x. x.0) h)
                  (put-HasCopy s q req made laws valid given at))
              h

  same_object-sum :
      (meta : ObjectMeta) (st : BlobStatus)
      → meta.checksum_sha256 ≢ ""
      → st.checksum_sha256 ≢ ""
      → same_object meta st ≡ true
      → meta.checksum_sha256 ≡ st.checksum_sha256
  unfolding same_object
  same_object-sum meta st ne given h =
      elim (Bool-cases (str_eq meta.checksum_sha256 st.checksum_sha256)) [
        | inl same ↦ (eq_iff meta.checksum_sha256 st.checksum_sha256).0 same
        | inr other ↦
            let none_ = str_ne meta.checksum_sha256 "" ne in
            let given_ = str_ne st.checksum_sha256 "" given in
            let p : (if not (meta.size == st.size) then false else false) ≡ true =
              (rw (none_, given_, other) at h) in
            absurd (ground arith)
      ]

  pub check-HasCopy :
      ⦃ext : Extern⦄ (s : Provider) (id : String) (st : BlobStatus)
      → ((b : List ℕ) → env.sha256_hex b ≢ "")
      → IsValid s
      → st.checksum_sha256 ≢ ""
      → check_already_durable s id st ≡ true
      → HasCopy s id st.checksum_sha256
  unfolding check_already_durable
  check-HasCopy ⦃ext⦄ s id st named valid given = go (head s id) refl
    where
      go :
          (x : Result StoreError ObjectMeta)
          → head s id ≡ x
          → (elim x as (λ _. Bool) [ err e ↦ false | ok meta ↦ same_object meta st ]) ≡ true
          → HasCopy s id st.checksum_sha256
      go (err e) at h = absurd (cc)
      go (ok meta) at h =
          let found = head-get s id meta valid at in
          let same = same_object-sum meta st (λ e. named found.0 (sym found.2 ∙ e)) given h in
          (found.0, meta, found.1, sym found.2 ∙ same, same)
