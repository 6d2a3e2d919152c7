-- ===== src/Tests/CopiesTests.antt =====
-- The pipeline over the filesystem provider at a concrete input.
use kdrive.Common.{ℕ, ◌≡◌, ◌≢◌, refl, false, ap, List, [], ◌∷◌, ok, pos, length, arith}
use kdrive.Common.Text.{codes}
use kdrive.Common.Dict.{lookup, insert, ne_of_str_eq}
use kdrive.Local.State.{Provider, empty_provider}
use kdrive.Local.Objects.{put, head}
use kdrive.Tests.LocalTests.{counted, counted_laws, empty_IsValid, sum_name}
use kdrive.Blobio.State.{cached, BlobStatus, CacheOps, Extern, Pipeline}
use kdrive.Blobio.Promotion.{promote}
use kdrive.Blobio.LocalL2.{local_l2}
use kdrive.Blobio.Copies.{HasCopy}
use kdrive.Blobio.Promoted.{Relied, promote-HasCopy}
use kdrive.Common.Reorders.{Reorders-refl}

-- The cache that has one body for every id.
instance abbrev pub one_body : CacheOps (List ℕ)
one_body = record {
  get = λ b id now. (
    b,
    ok (
      record { bytes = b; fails = false },
      record {
        blob_id = id;
        size_bytes = length b;
        hash = "";
        stored_at = 0;
        last_access = 0;
        hit_count = 0;
        pinned = false;
        non_evictable = false;
      },
    ),
  );
  put = λ b id r o now. (r.bytes, ok tt);
  evict = λ b id. (b, ok tt);
}

instance abbrev pub same_order : Extern
same_order = record { sha256_hex = sum_name; schedule = λ jobs. jobs }

abbrev pub waiting : BlobStatus
waiting = record {
  blob_id = "a";
  commit_state = cached;
  size = 2;
  checksum_sha256 = "sss";
  version_id = "";
  cached_at = 1;
  durable_at = 0;
  file_id = "";
  tenant_id = "";
  retention = record { mode = ""; retain_until = 0; legal_hold = false };
}

abbrev pub before : Pipeline (List ℕ) Provider
before = record {
  cache = 7 ∷ 8 ∷ [];
  store = empty_provider;
  status = ("a", waiting) ∷ [];
  max_restore_bytes = pos 0;
  promote_attempts = 0;
  promote_successes = 0;
  promote_failures = 0;
  promote_skipped = 0;
}

pub sum_named : (b : List ℕ) → sum_name b ≢ ""
sum_named [] same = ne_of_str_eq "s" "" refl same
sum_named (b ∷ bs) same =
    let none : length (codes (sum_name (b ∷ bs))) ≡ 0 = ap (λ s. length (codes s)) same in
    omega (arith, none)

pub promoted : promote before "a" 9 ≡ ((promote before "a" 9).0, ok tt)
unfolding promote put lookup insert empty_provider head
promoted = refl

pub relied : Relied counted same_order
relied = record {
  laws = counted_laws;
  named = sum_named;
  same = λ b. refl;
  orders = λ jobs. Reorders-refl jobs;
}

promote-HasCopy_example : HasCopy (promote before "a" 9).0.store "a" "sss"
promote-HasCopy_example =
    promote-HasCopy before (promote before "a" 9).0 "a" waiting 9 relied empty_IsValid
      (unfold lookup in refl) refl (ne_of_str_eq "sss" "" refl) promoted
