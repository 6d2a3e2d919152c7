-- ===== src/Local/RoundTrip.antt =====
-- What is written can be read, as the latest version and by its id.
use kdrive.Common.{
  ℕ, ◌+◌, ◌≡◌, ◌≢◌, refl, ap, ◌∙◌, subst, length, ◌&&◌, String, false, if_intro, within, List, none,
  some, Result, ok, err, err-ne-ok, ok-injective, Reader,
}
use kdrive.Common.Dict.{str_ne}
use kdrive.BlobStore.{StoreError, Retention, VersionedObjectRef, PutRequest, PutResult, ObjectMeta}
use kdrive.Local.State.{
  Version, Provider, LocalEnv, versions_of, list_versions, has_any, latest_version, find_version,
  publish, new_version, sidecar_to_meta,
}
use kdrive.Local.Keys.{validate_key}
use kdrive.Local.Objects.{
  checked, current, selected, read_sidecar, head, open_body, get, read_range, put, put_body,
  wrong_length, wrong_checksum,
}
use kdrive.Local.Validity.{IsValid}
use kdrive.Local.Fresh.{LocalLaws, valid-NotAfter, valid-IsFresh, latest-add, find-add_new}

pub checked-ok :
    {A : Type 0} (p q : Provider) (r : Result StoreError (Unit {0}))
    (next : Provider × Result StoreError A) (a : A)
    → checked p r next ≡ (q, ok a)
    → (r ≡ ok tt) × (next ≡ (q, ok a))
checked-ok p q (err e) next a h = absurd (err-ne-ok e a (ap (λ x. x.1) h))
checked-ok p q (ok u) next a h = (refl, h)

pub done-ok :
    {A : Type 0} (d : Provider × A) (q : Provider) (res : A)
    → ◌≡◌ {A = Provider × Result StoreError A} (d.0, ok d.1) (q, ok res)
    → d ≡ (q, res)
done-ok (p, r) q res h =
    let here : p ≡ q = ap (λ x. x.0) h in
    let made : r ≡ res = ok-injective r res (ap (λ x. x.1) h) in rw (here, made) refl

-- A version's metadata, as its `Put` reports them.
abbrev pub described : PutResult → ObjectMeta
described res = record {
  key = res.key;
  version_id = res.version_id;
  versioning_state = res.versioning_state;
  size = res.size;
  checksum_sha256 = res.checksum_sha256;
  retention = res.retention;
  write_time = res.write_time;
}

module _ ⦃env : LocalEnv⦄ where
  -- What a `Put` that succeeds has checked and written.
  abbrev pub PutDone : Provider → Provider → PutRequest → PutResult → Type 0
  PutDone p q req res =
      (publish p req.key req.body.bytes req.content_type req.retention ≡ (q, res))
      × (wrong_length req ≡ false)
      × (wrong_checksum req ≡ false)

  put_body-ok :
      (p q : Provider) (req : PutRequest) (res : PutResult)
      → put_body p req ≡ (q, ok res)
      → PutDone p q req res
  unfolding put_body
  put_body-ok p q req res =
      let done = publish p req.key req.body.bytes req.content_type req.retention in
      let P : Provider × Result StoreError PutResult → Type 0 =
        λ x. x ≡ (q, ok res) → PutDone p q req res in
      if_intro P req.body.fails _ _ (λ _ h. absurd (err-ne-ok _ res (ap (λ x. x.1) h)))
        (λ _.
          if_intro P (wrong_length req) _ _ (λ _ h. absurd (err-ne-ok _ res (ap (λ x. x.1) h)))
            (λ long.
              if_intro P (wrong_checksum req) _ _
                (λ _ h. absurd (err-ne-ok _ res (ap (λ x. x.1) h)))
                (λ sum h. (done-ok done q res h, long, sum))))

  pub put-ok :
      (p q : Provider) (req : PutRequest) (res : PutResult)
      → put p req ≡ (q, ok res)
      → (validate_key req.key ≡ ok tt) × PutDone p q req res
  unfolding put
  put-ok p q req res h =
      let inner = checked-ok p q (validate_key req.key) _ res h in
      (
        inner.0,
        if_intro (λ x. x ≡ (q, ok res) → PutDone p q req res)
            (req.if_none_match && has_any (versions_of p req.key)) _ _
            (λ _ g. absurd (err-ne-ok _ res (ap (λ x. x.1) g))) (λ _ g. put_body-ok p q req res g)
            inner.1,
      )

  pub current-live :
      (vs : List Version) (v : Version)
      → latest_version vs ≡ some v
      → v.sidecar.is_delete_marker ≡ false
      → current vs ≡ ok v
  unfolding current
  current-live vs v latest live = within (latest_version vs) _ _ v latest ∙ rw live refl

  pub read_sidecar-found :
      (q : Provider) (ref : VersionedObjectRef) (v : Version)
      → find_version ref.version_id (versions_of q ref.key) ≡ some v
      → read_sidecar q ref ≡ ok v
  unfolding read_sidecar
  read_sidecar-found q ref v found =
      within (find_version ref.version_id (versions_of q ref.key)) _ _ v found

  pub selected-by_id :
      (q : Provider) (ref : VersionedObjectRef)
      → ref.version_id ≢ ""
      → selected q ref ≡ read_sidecar q ref
  unfolding selected
  selected-by_id q ref named = rw (str_ne ref.version_id "" named) refl

  get-selected :
      (q : Provider) (ref : VersionedObjectRef) (v : Version) (body : List ℕ)
      → validate_key ref.key ≡ ok tt
      → selected q ref ≡ ok v
      → v.body ≡ some body
      → get q ref none ≡ ok (record { bytes = body; fails = false }, sidecar_to_meta v.sidecar)
  unfolding get open_body read_range
  get-selected q ref v body valid found b = rw (valid, found, b) refl

  -- The current version is read without an id, any version by its own.
  pub get-current :
      (q : Provider) (key : String) (v : Version) (body : List ℕ)
      → validate_key key ≡ ok tt
      → latest_version (list_versions q key) ≡ some v
      → v.sidecar.is_delete_marker ≡ false
      → v.body ≡ some body
      → get q (record { key = key; version_id = "" }) none
        ≡ ok (record { bytes = body; fails = false }, sidecar_to_meta v.sidecar)
  unfolding selected
  get-current q key v body valid latest live b =
      get-selected q _ v body valid (current-live (list_versions q key) v latest live) b

  pub head-current :
      (q : Provider) (key : String) (v : Version)
      → validate_key key ≡ ok tt
      → latest_version (list_versions q key) ≡ some v
      → v.sidecar.is_delete_marker ≡ false
      → head q key ≡ ok (sidecar_to_meta v.sidecar)
  unfolding head
  head-current q key v valid latest live =
      rw (valid, current-live (list_versions q key) v latest live) refl

  pub get-by_id :
      (q : Provider) (key id : String) (v : Version) (body : List ℕ)
      → validate_key key ≡ ok tt
      → id ≢ ""
      → find_version id (versions_of q key) ≡ some v
      → v.body ≡ some body
      → get q (record { key = key; version_id = id }) none
        ≡ ok (record { bytes = body; fails = false }, sidecar_to_meta v.sidecar)
  get-by_id q key id v body valid named found b =
      let ref : VersionedObjectRef = record { key = key; version_id = id } in
      get-selected q ref v body valid
        (selected-by_id q ref named ∙ read_sidecar-found q ref v found) b

  -- What `publish` writes is read back, with the metadata of its result.
  pub publish-read :
      (p : Provider) (key : String) (body : List ℕ) (content_type : String) (spec : Retention)
      → LocalLaws env
      → IsValid p
      → validate_key key ≡ ok tt
      → let done = publish p key body content_type spec in
        let answer : Reader × ObjectMeta =
          (record { bytes = body; fails = false }, described done.1) in
        (get done.0 (record { key = key; version_id = "" }) none ≡ ok answer)
        × (get done.0 (record { key = key; version_id = done.1.version_id }) none ≡ ok answer)
        × (head done.0 key ≡ ok answer.1)
  unfolding publish sidecar_to_meta
  publish-read p key body content_type spec laws valid named =
      let v = new_version p key body content_type spec in
      let p' : Provider = record p { seq = p.seq + 1 } in
      let latest = latest-add p' key v (valid-NotAfter p key laws valid) in
      let found = find-add_new p' key v (valid-IsFresh p key laws valid) in
      let q = (publish p key body content_type spec).0 in
      (
        get-current q key v body named latest refl refl,
        get-by_id q key v.sidecar.version_id v body named (laws.ids_named (p.seq + 1)) found refl,
        head-current q key v named latest refl,
      )

  -- After a `Put` that succeeds, a `Get` of the key, and one of the version that it reports, deliver
  -- the bytes that were written, and these and `Head` the metadata that it reports, whose size and
  -- checksum are those of the bytes. Time is assumed not to go back, and version ids to differ.
  pub get-put :
      (p q : Provider) (req : PutRequest) (res : PutResult)
      → LocalLaws env
      → IsValid p
      → put p req ≡ (q, ok res)
      → (get q (record { key = req.key; version_id = "" }) none
          ≡ ok (record { bytes = req.body.bytes; fails = false }, described res))
        × (get q (record { key = req.key; version_id = res.version_id }) none
            ≡ ok (record { bytes = req.body.bytes; fails = false }, described res))
        × (head q req.key ≡ ok (described res))
        × (res.size ≡ length req.body.bytes)
        × (res.checksum_sha256 ≡ env.sha256_hex req.body.bytes)
  get-put p q req res laws valid h =
      let inner = put-ok p q req res h in
      let reads =
        publish-read p req.key req.body.bytes req.content_type req.retention laws valid inner.0 in
      subst
        (λ (d : Provider × PutResult).
          (get d.0 (record { key = req.key; version_id = "" }) none
            ≡ ok (record { bytes = req.body.bytes; fails = false }, described d.1))
          × (get d.0 (record { key = req.key; version_id = d.1.version_id }) none
              ≡ ok (record { bytes = req.body.bytes; fails = false }, described d.1))
          × (head d.0 req.key ≡ ok (described d.1))
          × (d.1.size ≡ length req.body.bytes)
          × (d.1.checksum_sha256 ≡ env.sha256_hex req.body.bytes))
        inner.1.0 (reads.0, reads.1, reads.2, unfold publish in refl, unfold publish in refl)
