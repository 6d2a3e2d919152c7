-- ===== src/Local/Validity.antt =====
-- What holds of every version that the provider's methods have written.
use kdrive.Common.{
  ℕ, ◌+◌, ◌≤◌, ◌≡◌, refl, sym, subst, String, true, false, if_intro, List, [], ◌∷◌, ◌++◌, Option,
  none, some, Result, ok, err, Result_intro, length, All, All-map, arith,
}
use kdrive.Common.Dict.{lookup, insert}
use kdrive.BlobStore.{StoreError, Retention, PutRequest, PutResult}
use kdrive.Local.State.{
  Sidecar, Version, Provider, LocalEnv, versions_of, add_version, publish, or_none,
}
use kdrive.Local.Keys.{validate_key}
use kdrive.Local.Objects.{
  CopyRequest, checked, marker, put_body, wrong_length, wrong_checksum, put, delete, copy_source,
  copy_body, copy_within_provider,
}
use kdrive.Local.Versions.{All-append_one, insert-keeps}

module _ ⦃env : LocalEnv⦄ where
  -- The body file is what the sidecar says it is, and only a delete marker has none.
  abbrev pub Agrees : Sidecar → Option (List ℕ) → Type 0
  Agrees sc none = sc.is_delete_marker ≡ true
  Agrees sc (some body) =
      (sc.is_delete_marker ≡ false)
      × (sc.size_bytes ≡ length body)
      × (sc.checksum_sha256 ≡ env.sha256_hex body)

  -- The version is one of the key, and was written at one of the counter's values so far.
  pub record Written (key : String) (seq : ℕ) (v : Version) : Type 0 where
    pub owner : v.sidecar.key ≡ key
    pub made :
        (i : ℕ) × (i ≤ seq)
        × (v.sidecar.version_id ≡ env.version_id i)
        × (v.sidecar.write_time ≡ env.clock i)
    pub agrees : Agrees v.sidecar v.body

  abbrev pub IsValid : Provider → Type 0
  IsValid p = (j : String) → All (Written j p.seq) (versions_of p j)

  Written-later : (key : String) (i j : ℕ) (v : Version) → i ≤ j → Written key i v → Written key j v
  Written-later key i j v le w = record {
    owner = w.owner;
    made = (w.made.0, omega (arith, w.made.1, le), w.made.2, w.made.3);
    agrees = w.agrees;
  }

  pub IsValid-same :
      (p q : Provider) → q.objects ≡ p.objects → p.seq ≤ q.seq → IsValid p → IsValid q
  unfolding versions_of
  IsValid-same p q same le valid j =
      subst (λ os. All (Written j q.seq) (or_none (lookup j os))) (sym same)
        (All-map (Written j p.seq) (Written j q.seq) (or_none (lookup j p.objects))
          (λ v w. Written-later j p.seq q.seq v le w) (valid j))

  -- The versions of one key are replaced by ones that are valid for it.
  pub insert-IsValid :
      (p : Provider) (key : String) (vs : List Version)
      → IsValid p
      → All (Written key p.seq) vs
      → IsValid (record p { objects = insert key vs p.objects })
  insert-IsValid p key vs valid new = insert-keeps (λ j. Written j p.seq) p key vs valid new

  pub add_version-IsValid :
      (p : Provider) (key : String) (v : Version)
      → IsValid p
      → Written key p.seq v
      → IsValid (add_version p key v)
  unfolding add_version
  add_version-IsValid p key v valid new =
      insert-IsValid p key (versions_of p key ++ v ∷ []) valid
        (All-append_one (Written key p.seq) v (versions_of p key) (valid key) new)

  pub publish-IsValid :
      (p : Provider) (key : String) (body : List ℕ) (content_type : String) (spec : Retention)
      → IsValid p
      → IsValid (publish p key body content_type spec).0
  unfolding publish
  publish-IsValid p key body content_type spec valid =
      let p' : Provider = record p { seq = p.seq + 1 } in
      add_version-IsValid p' key _ (IsValid-same p p' refl (omega arith) valid) (record {
        owner = refl;
        made = (p.seq + 1, omega arith, refl, refl);
        agrees = (refl, refl, refl);
      })

  pub checked-IsValid :
      {A : Type 0} (p : Provider) (r : Result StoreError (Unit {0}))
      (next : Provider × Result StoreError A)
      → IsValid p
      → IsValid next.0
      → IsValid (checked p r next).0
  checked-IsValid p (err e) next valid done = valid
  checked-IsValid p (ok u) next valid done = done

  abbrev pub bumped : (p : Provider) → IsValid p → IsValid (record p { seq = p.seq + 1 })
  bumped p valid = IsValid-same p (record p { seq = p.seq + 1 }) refl (omega arith) valid

  put_body-IsValid : (p : Provider) (req : PutRequest) → IsValid p → IsValid (put_body p req).0
  unfolding put_body
  put_body-IsValid p req valid =
      let P : Provider × Result StoreError PutResult → Type 0 = λ x. IsValid x.0 in
      if_intro P req.body.fails _ _ (λ _. bumped p valid)
        (λ _.
          if_intro P (wrong_length req) _ _ (λ _. bumped p valid)
            (λ _.
              if_intro P (wrong_checksum req) _ _ (λ _. bumped p valid)
                (λ _.
                  publish-IsValid p req.key req.body.bytes req.content_type req.retention valid)))

  pub put-IsValid : (p : Provider) (req : PutRequest) → IsValid p → IsValid (put p req).0
  unfolding put
  put-IsValid p req valid = checked-IsValid p (validate_key req.key) _ valid (
      if_intro (λ (x : Provider × Result StoreError PutResult). IsValid x.0) _ _ _ (λ _. valid)
        (λ _. put_body-IsValid p req valid))

  pub delete-IsValid : (p : Provider) (key : String) → IsValid p → IsValid (delete p key).0
  unfolding delete
  delete-IsValid p key valid =
      let p' : Provider = record p { seq = p.seq + 1 } in
      checked-IsValid p (validate_key key) _ valid (
        if_intro (λ (x : Provider × Result StoreError (Unit {0})). IsValid x.0) _ _ _ (λ _. valid)
          (λ _.
            add_version-IsValid p' key (marker p key) (bumped p valid) (record {
              owner = refl;
              made = (p.seq + 1, omega arith, refl, refl);
              agrees = refl;
            })))

  copy_body-IsValid :
      (p : Provider) (req : CopyRequest) (src : Sidecar) (o : Option (List ℕ))
      → IsValid p
      → IsValid (copy_body p req src o).0
  unfolding copy_body
  copy_body-IsValid p req src none valid = valid
  copy_body-IsValid p req src (some body) valid =
      if_intro (λ (x : Provider × Result StoreError PutResult). IsValid x.0) _ _ _
        (λ _. bumped p valid)
        (λ _. publish-IsValid p req.dst_key body src.content_type req.retention valid)

  pub copy-IsValid :
      (p : Provider) (req : CopyRequest) → IsValid p → IsValid (copy_within_provider p req).0
  unfolding copy_within_provider
  copy-IsValid p req valid = checked-IsValid p (validate_key req.src.key) _ valid (
      checked-IsValid p (validate_key req.dst_key) _ valid (
        Result_intro (λ (x : Provider × Result StoreError PutResult). IsValid x.0)
          (copy_source p req.src) _ _ (λ _. valid)
          (λ v. copy_body-IsValid p req v.sidecar v.body valid)))
