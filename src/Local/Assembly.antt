-- ===== src/Local/Assembly.antt =====
-- A multipart upload from `CreateMultipart` to `CompleteMultipart`.
use kdrive.Common.{
  ℕ, ◌≤◌, ◌+◌, ◌≡◌, refl, ◌∙◌, subst, true, false, not, ◌&&◌, ltb, Bool-cases, inl, inr, str_eq,
  List, [], ◌∷◌, map, none, some, ok, Result_ok, within, Reader, length, All, arith, ◌⊎◌, ap,
  Result, err,
}
use kdrive.Common.Dict.{str_eq_refl}
use kdrive.BlobStore.{
  Retention, VersionedObjectRef, PutResult, MultipartUpload, CompletedPart, StoreError, not_found,
}
use kdrive.Local.State.{
  Staging, Provider, LocalEnv, publish, next_id, list_versions, versions_of, sort_versions, Version,
  find_version,
}
use kdrive.Local.Keys.{validate_key}
use kdrive.Local.Objects.{get, selected, read_sidecar, remove_dir, multipart_dir}
use kdrive.Local.Multipart.{
  MultipartRequest, is_upload, find_upload, set_upload, find_part, join_parts, staged_part,
  new_staging, create_multipart, upload_part, finish_upload, complete_upload, complete_multipart,
}
use kdrive.Local.Validity.{IsValid, IsValid-same}
use kdrive.Local.Preserved.{upload_part-IsValid}
use kdrive.Local.Fresh.{LocalLaws}
use kdrive.Local.RoundTrip.{described, done-ok, publish-read, checked-ok}
use kdrive.Local.Staged.{set_all, AreParts, set_all-All, joined}
use kdrive.Local.Dirs.{remove_dir-Apart, multipart_dir-own}

module _ ⦃env : LocalEnv⦄ where
  -- What `UploadPart` reports of a part, as `CompleteMultipart` takes it.
  abbrev pub completed : ℕ × List ℕ → CompletedPart
  completed x = record {
    part_number = x.0;
    checksum_sha256 = env.sha256_hex x.1;
    size = length x.1;
  }

  join-All :
      (xs staged : List (ℕ × List ℕ))
      → All (λ x. find_part x.0 staged ≡ some x.1) xs
      → join_parts (map completed xs) staged ≡ ok (joined xs)
  unfolding join_parts
  join-All [] staged h = refl
  join-All (x ∷ xs) staged h =
      within (find_part x.0 staged) _ _ x.1 h.0 ∙ rw (join-All xs staged h.1) refl

  -- The parts are sent in the order of the list.
  unfoldable pub send_all : Provider → MultipartUpload → List (ℕ × List ℕ) → Provider
  send_all p u [] = p
  send_all p u (x ∷ xs) =
      send_all (upload_part p u x.0 (record { bytes = x.1; fails = false })).0 u xs

  pub find-set_upload :
      (u : MultipartUpload) (s new : Staging) (ss : List Staging)
      → is_upload u new ≡ true
      → find_upload u ss ≡ some s
      → find_upload u (set_upload u new ss) ≡ some new
  unfolding find_upload set_upload
  find-set_upload u s new [] mine h = cc
  find-set_upload u s new (t ∷ ts) mine h = elim (Bool-cases (is_upload u t)) [
    | inl hit ↦ rw (hit, mine) refl
    | inr miss ↦ rw (miss, miss) (find-set_upload u s new ts mine (rw miss at h))
  ]

  pub staged_mine :
      (u : MultipartUpload) (s : Staging) (n : ℕ) (body : List ℕ)
      → is_upload u s ≡ true
      → is_upload u (staged_part s n body) ≡ true
  unfolding is_upload staged_part
  staged_mine u s n body h = h

  pub upload_part-find :
      (p : Provider) (u : MultipartUpload) (s : Staging) (n : ℕ) (body : List ℕ)
      → validate_key u.key ≡ ok tt
      → 1 ≤ n
      → is_upload u s ≡ true
      → find_upload u p.uploads ≡ some s
      → find_upload u (upload_part p u n (record { bytes = body; fails = false })).0.uploads
        ≡ some (staged_part s n body)
  unfolding upload_part
  upload_part-find p u s n body valid le mine h =
      let counted : ltb n 1 ≡ false = ground arith in
      rw (valid, counted)
        (rw h
          (find-set_upload u s (staged_part s n body) p.uploads (staged_mine u s n body mine) h))

  pub send_all-find :
      (p : Provider) (u : MultipartUpload) (s : Staging) (xs : List (ℕ × List ℕ))
      → validate_key u.key ≡ ok tt
      → AreParts xs
      → is_upload u s ≡ true
      → find_upload u p.uploads ≡ some s
      → find_upload u (send_all p u xs).uploads ≡ some (record s { parts = set_all xs s.parts })
  unfolding send_all set_all staged_part
  send_all-find p u s [] valid parts mine h = h
  send_all-find p u s (x ∷ xs) valid parts mine h =
      send_all-find (upload_part p u x.0 (record { bytes = x.1; fails = false })).0 u
        (staged_part s x.0 x.1) xs valid parts.2 (staged_mine u s x.0 x.1 mine)
        (upload_part-find p u s x.0 x.1 valid parts.0 mine h)

  pub send_all-IsValid :
      (p : Provider) (u : MultipartUpload) (xs : List (ℕ × List ℕ))
      → IsValid p
      → IsValid (send_all p u xs)
  unfolding send_all
  send_all-IsValid p u [] v = v
  send_all-IsValid p u (x ∷ xs) v =
      let r : Reader = record { bytes = x.1; fails = false } in
      send_all-IsValid (upload_part p u x.0 r).0 u xs (upload_part-IsValid p u x.0 r v)

  sum_fine :
      (s : Staging) (body : List ℕ)
      → (s.checksum_sha256 ≡ "") ⊎ (s.checksum_sha256 ≡ env.sha256_hex body)
      → not (str_eq s.checksum_sha256 "") && not (str_eq s.checksum_sha256 (env.sha256_hex body))
        ≡ false
  sum_fine s body (inl none_) = rw none_ refl
  sum_fine s body (inr same) = rw (same, str_eq_refl (env.sha256_hex body)) (ground arith)

  -- A complete request whose parts are all staged publishes their bytes one after another.
  pub complete-publish :
      (p : Provider) (u : MultipartUpload) (s : Staging) (xs : List (ℕ × List ℕ)) (spec : Retention)
      → validate_key u.key ≡ ok tt
      → find_upload u p.uploads ≡ some s
      → All (λ x. find_part x.0 s.parts ≡ some x.1) xs
      → (s.checksum_sha256 ≡ "") ⊎ (s.checksum_sha256 ≡ env.sha256_hex (joined xs))
      → let done = publish p u.key (joined xs) s.content_type spec in
        complete_multipart p u (map completed xs) spec
        ≡ (remove_dir done.0 (multipart_dir u.key u.upload_id), ok done.1)
  unfolding complete_multipart complete_upload finish_upload
  complete-publish p u s xs spec valid found staged sum =
      rw (valid, found)
        (Result_ok (join_parts (map completed xs) s.parts) _ _ (joined xs)
            (join-All xs s.parts staged)
          ∙ rw (sum_fine s (joined xs) sum) refl)

  read_sidecar-same :
      (p q : Provider) (ref : VersionedObjectRef)
      → versions_of q ref.key ≡ versions_of p ref.key
      → read_sidecar q ref ≡ read_sidecar p ref
  unfolding read_sidecar
  read_sidecar-same p q ref same =
      ap
        (λ (vs : List Version).
          elim (find_version ref.version_id vs) as (λ _. Result StoreError Version) [
            | none ↦ err not_found
            | some v ↦ ok v
          ])
        same

  -- A provider that has the same versions of a key has the same answers.
  pub get-same :
      (p q : Provider) (ref : VersionedObjectRef)
      → versions_of q ref.key ≡ versions_of p ref.key
      → get q ref none ≡ get p ref none
  unfolding get selected
  get-same p q ref same =
      let sidecars = read_sidecar-same p q ref same in
      let lists : list_versions q ref.key ≡ list_versions p ref.key =
        unfold list_versions in ap sort_versions same in
      rw (sidecars, lists) refl

  -- The upload's parts were sent to `q`, where its staging directory is.
  Holds : Provider → MultipartUpload → MultipartRequest → List (ℕ × List ℕ) → Type 0
  Holds q u req xs =
      (validate_key u.key ≡ ok tt)
      × (u.key ≡ req.key)
      × IsValid q
      × ((s : Staging) × (find_upload u q.uploads ≡ some s)
          × (s.checksum_sha256 ≡ req.checksum_sha256)
          × All (λ x. find_part x.0 s.parts ≡ some x.1) xs)

  created-Holds :
      (p : Provider) (req : MultipartRequest) (xs : List (ℕ × List ℕ))
      → IsValid p
      → AreParts xs
      → validate_key req.key ≡ ok tt
      → let u : MultipartUpload = record { key = req.key; upload_id = next_id p } in
        Holds
          (send_all (record p { uploads = new_staging p req ∷ p.uploads; seq = p.seq + 1 }) u xs)
          u
          req
          xs
  unfolding Holds find_upload is_upload
  created-Holds p req xs valid parts named =
      let u : MultipartUpload = record { key = req.key; upload_id = next_id p } in
      let p' : Provider = record p { uploads = new_staging p req ∷ p.uploads; seq = p.seq + 1 } in
      let mine : is_upload u (new_staging p req) ≡ true =
        rw (str_eq_refl req.key, str_eq_refl (next_id p)) refl in
      (
        named,
        refl,
        send_all-IsValid p' u xs (IsValid-same p p' refl (omega arith) valid),
        (
          record (new_staging p req) { parts = set_all xs [] },
          send_all-find p' u (new_staging p req) xs named parts mine (rw mine refl),
          refl,
          set_all-All xs [] parts,
        ),
      )

  create-Holds :
      (p p' : Provider) (req : MultipartRequest) (u : MultipartUpload) (xs : List (ℕ × List ℕ))
      → IsValid p
      → AreParts xs
      → create_multipart p req ≡ (p', ok u)
      → Holds (send_all p' u xs) u req xs
  unfolding create_multipart
  create-Holds p p' req u xs valid parts h =
      let inner = checked-ok p p' (validate_key req.key) _ u h in
      subst (λ (d : Provider × MultipartUpload). Holds (send_all d.0 d.1 xs) d.1 req xs)
        (done-ok
          (
            record p { uploads = new_staging p req ∷ p.uploads; seq = p.seq + 1 },
            record { key = req.key; upload_id = next_id p },
          )
          p' u inner.1)
        (created-Holds p req xs valid parts inner.0)

  -- An upload that was created, and whose parts were sent once each under different numbers from 1
  -- on, is completed: the request that lists the parts in an order succeeds, unless the checksum
  -- given at first is neither empty nor that of the bytes, and `Get` then delivers the parts' bytes
  -- one after another in that order, with their checksum. Time is assumed not to go back, and
  -- version ids to differ.
  pub complete-joins :
      (p p' : Provider) (req : MultipartRequest) (u : MultipartUpload) (xs : List (ℕ × List ℕ))
      (spec : Retention)
      → LocalLaws env
      → IsValid p
      → AreParts xs
      → create_multipart p req ≡ (p', ok u)
      → (req.checksum_sha256 ≡ "") ⊎ (req.checksum_sha256 ≡ env.sha256_hex (joined xs))
      → (q : Provider) × (res : PutResult) × (complete_multipart
            (send_all p' u xs)
            u
            (map completed xs)
            spec
          ≡ (q, ok res))
        × (get q (record { key = req.key; version_id = "" }) none
            ≡ ok (record { bytes = joined xs; fails = false }, described res))
        × (res.checksum_sha256 ≡ env.sha256_hex (joined xs))
  unfolding Holds
  complete-joins p p' req u xs spec laws valid parts h sum =
      let held = create-Holds p p' req u xs valid parts h in
      let s = held.3.0 in
      let q = send_all p' u xs in
      let done = publish q u.key (joined xs) s.content_type spec in
      (
        remove_dir done.0 (multipart_dir u.key u.upload_id),
        done.1,
        complete-publish q u s xs spec held.0 held.3.1 held.3.3 (rw held.3.2 sum),
        subst
              (λ k.
                get (remove_dir done.0 (multipart_dir u.key u.upload_id))
                  (record { key = k; version_id = "" }) none
                ≡ get done.0 (record { key = k; version_id = "" }) none)
              held.1
              (get-same done.0 (remove_dir done.0 (multipart_dir u.key u.upload_id))
                (record { key = u.key; version_id = "" })
                (remove_dir-Apart done.0 (multipart_dir u.key u.upload_id) u.key
                  (multipart_dir-own u.key u.upload_id)))
            ∙ subst
                (λ k.
                  get done.0 (record { key = k; version_id = "" }) none
                  ≡ ok (record { bytes = joined xs; fails = false }, described done.1))
                held.1 (publish-read q u.key (joined xs) s.content_type spec laws held.2 held.0).0,
        unfold publish in refl,
      )
