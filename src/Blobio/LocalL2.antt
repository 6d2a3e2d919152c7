-- ===== src/Blobio/LocalL2.antt =====
-- The filesystem provider as the pipeline's L2.
use mathlib.Core.Option.{some-injective}
use kdrive.Common.{
  ℕ, ◌≡◌, refl, sym, ◌∙◌, ap, subst, true, false, ◌&&◌, ltb, if_intro, if◌then◌else◌, List, [], ◌∷◌,
  Option, none, some, String, Result, ok, err, ok-injective, err-ne-ok, >>=-eq-ok, All,
}
use kdrive.BlobStore.{StoreError, not_found, PutRequest, ObjectMeta}
use kdrive.Local.State.{
  Version, Provider, LocalEnv, versions_of, list_versions, latest_version, sort_in, sort_versions,
  has_any, sidecar_to_meta,
}
use kdrive.Local.Keys.{validate_key}
use kdrive.Local.Objects.{put, get, head, current}
use kdrive.Local.Multipart.{create_multipart, upload_part, complete_multipart, abort_multipart}
use kdrive.Local.Validity.{Agrees, IsValid, Written}
use kdrive.Local.RoundTrip.{get-current}
use kdrive.Blobio.State.{StoreOps}

-- The bytes that `Put` takes from its body: none, if it refuses the request first.
abbrev pub taken : Provider → PutRequest → Result StoreError (Unit {0}) → List ℕ
taken p req (err e) = []
taken p req (ok _) =
    if req.if_none_match && has_any (versions_of p req.key) then [] else req.body.bytes

-- The pipeline reads the latest version, and completes uploads with a zero retention.
instance abbrev pub local_l2 : ⦃env : LocalEnv⦄ → StoreOps Provider
local_l2 = record {
  put = λ s req. ((put s req).0, taken s req (validate_key req.key), (put s req).1);
  get = λ s key. get s (record { key = key; version_id = "" }) none;
  head = λ s key. head s key;
  create = λ s key spec. create_multipart s (record {
    key = key;
    content_type = "application/octet-stream";
    checksum_sha256 = "";
    retention = spec;
  });
  upload = λ s u n body. upload_part s u n (record { bytes = body; fails = false });
  complete = λ s u parts.
      complete_multipart s u parts (record { mode = ""; retain_until = 0; legal_hold = false });
  abort = λ s u. abort_multipart s u;
}

sort_in-All :
    (P : Version → Type 0) (v : Version) (vs : List Version) → P v → All P vs → All P (sort_in v vs)
unfolding sort_in
sort_in-All P v [] h hs = (h, tt)
sort_in-All P v (w ∷ ws) h hs =
    let rest = sort_in-All P v ws h hs.1 in
    if_intro (All P) (ltb w.sidecar.write_time v.sidecar.write_time) _ _ (λ _. (hs.0, rest))
      (λ _. (h, hs))

sort_versions-All : (P : Version → Type 0) (vs : List Version) → All P vs → All P (sort_versions vs)
unfolding sort_versions
sort_versions-All P [] h = tt
sort_versions-All P (v ∷ vs) h = sort_in-All P v (sort_versions vs) h.0 (sort_versions-All P vs h.1)

latest-All :
    (P : Version → Type 0) (vs : List Version) (v : Version)
    → All P vs
    → latest_version vs ≡ some v
    → P v
unfolding latest_version
latest-All P [] v h e = cc
latest-All P (w ∷ ws) v h e = go (latest_version ws) (λ u at. latest-All P ws u h.1 at) e
  where
    go :
        (o : Option Version)
        → ((u : Version) → o ≡ some u → P u)
        → (elim o as (λ _. Option Version) [ some u ↦ some u | none ↦ some w ]) ≡ some v
        → P v
    go none later g = subst P (some-injective w v g) h.0
    go (some u) later g = later v g

current-eq-ok :
    (vs : List Version) (v : Version)
    → current vs ≡ ok v
    → (latest_version vs ≡ some v) × (v.sidecar.is_delete_marker ≡ false)
unfolding current
current-eq-ok vs v = go (latest_version vs)
  where
    go :
        (o : Option Version)
        → (elim o as (λ _. Result StoreError Version) [
          | none ↦ err not_found
          | some u ↦ if u.sidecar.is_delete_marker then err not_found else ok u
        ])
          ≡ ok v
        → (o ≡ some v) × (v.sidecar.is_delete_marker ≡ false)
    go none h = absurd (err-ne-ok not_found v h)
    go (some u) h =
        if_intro
          (λ (x : Result StoreError Version).
            x ≡ ok v → (some u ≡ some v) × (v.sidecar.is_delete_marker ≡ false))
          u.sidecar.is_delete_marker _ _ (λ _ g. absurd (err-ne-ok not_found v g))
          (λ live g.
            let same : u ≡ v = ok-injective u v g in
            (ap some same, subst (λ x. x.sidecar.is_delete_marker ≡ false) same live))
          h

module _ ⦃env : LocalEnv⦄ where
  -- A live version of a valid provider has a body with its checksum.
  Written-body :
      (key : String) (seq : ℕ) (v : Version)
      → Written key seq v
      → v.sidecar.is_delete_marker ≡ false
      → (body : List ℕ) × (v.body ≡ some body) × (v.sidecar.checksum_sha256 ≡ env.sha256_hex body)
  Written-body key seq v w live = go v.body w.agrees
    where
      go :
          (o : Option (List ℕ))
          → Agrees v.sidecar o
          → (body : List ℕ) × (o ≡ some body) × (v.sidecar.checksum_sha256 ≡ env.sha256_hex body)
      go none dead = let p : true ≡ false = sym dead ∙ live in absurd (cc)
      go (some body) a = (body, refl, a.2)

  -- Where `Head` finds an object, `Get` delivers a body with its checksum.
  pub head-get :
      (p : Provider) (key : String) (meta : ObjectMeta)
      → IsValid p
      → head p key ≡ ok meta
      → (body : List ℕ) × (get p (record { key = key; version_id = "" }) none
          ≡ ok (record { bytes = body; fails = false }, meta))
        × (meta.checksum_sha256 ≡ env.sha256_hex body)
  unfolding head
  head-get p key meta valid h =
      let named = >>=-eq-ok (validate_key key) _ meta h in
      let found = >>=-eq-ok (current (list_versions p key)) _ meta named.2 in
      let v = found.0 in
      let here = current-eq-ok (list_versions p key) v found.1 in
      let written : Written key p.seq v =
        unfold list_versions in
        latest-All (Written key p.seq) (list_versions p key) v
          (sort_versions-All (Written key p.seq) (versions_of p key) (valid key)) here.0 in
      let body = Written-body key p.seq v written here.1 in
      let same = ok-injective (sidecar_to_meta v.sidecar) meta found.2 in
      (
        body.0,
        get-current p key v body.0 named.1 here.0 here.1 body.1
            ∙ ap (λ m. ok (record { bytes = body.0; fails = false }, m)) same,
        subst (λ (m : ObjectMeta). m.checksum_sha256 ≡ env.sha256_hex body.0) same
            (unfold sidecar_to_meta in body.2),
      )
