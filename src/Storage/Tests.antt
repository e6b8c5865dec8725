-- ===== src/Storage/Tests.antt =====
-- Runs of the storage on small inputs.
use bridge_framework.Base.{
  ℕ, ◌≡◌, refl, false, not, some, [], ◌∷◌, chars, leb, length, if◌then◌else◌, ok, err, ◌>>=◌, guard,
  ◌==◌, list_eq, nat_eq, Chars, List, to_uppercase,
}
use bridge_framework.Base.Map
use bridge_framework.Storage.{
  Components, StorageRegistry, StorageError, bad_end, invalid_key, no_file, not_empty, expired,
  validate_bucket_name, create_bucket, put_object, get_object, delete_object, delete_bucket,
  located, object_path, write, create_folders,
}
use bridge_framework.Storage.Paths
use bridge_framework.Storage.Paths.{IsDown}
use bridge_framework.Storage.Stored
use bridge_framework.Storage.Signing.{sign_url, verify_signed_url}
use bridge_framework.Storage.Signing.Verified
use bridge_framework.Storage.Signing.Bound

program : Unit {0}
unfolding create_bucket put_object get_object delete_object delete_bucket object_path sign_url
    verify_signed_url located create_folders write Map.get Map.insert
program = tt

abbrev empty : StorageRegistry
empty = record { buckets = []; disk = record { files = []; folders = [] } }

abbrev media : Chars
media = chars "media"

abbrev bucket : StorageRegistry
bucket = record {
  buckets = (media, record { name = media; is_public = false; created_at_secs = 7 }) ∷ [];
  disk = record { files = []; folders = (media ∷ []) ∷ [] };
}

abbrev stored : StorageRegistry
stored = record {
  buckets = bucket.buckets;
  disk = record {
    files = (media ∷ chars "a" ∷ chars "b" ∷ [], 1 ∷ 2 ∷ []) ∷ [];
    folders = (media ∷ []) ∷ (media ∷ []) ∷ (media ∷ chars "a" ∷ []) ∷ [];
  };
}

abbrev body : List ℕ
body = 1 ∷ 2 ∷ []

abbrev exp : ℕ
exp = 5

runs :
    (create_bucket 7 media false empty ≡ ok bucket)
    × (create_bucket 7 (chars "a-") false empty ≡ err (StorageError.bad_length 2))
    × (validate_bucket_name (chars "ab-") ≡ err bad_end)
    × (put_object media (chars "a/b") (1 ∷ 2 ∷ []) bucket ≡ ok (stored, 2))
    × (put_object media (chars "a/../b") (1 ∷ []) bucket ≡ err invalid_key)
    × (put_object media (chars "a") (1 ∷ []) stored ≡ err no_file)
    × (get_object media (chars "a//./b") stored ≡ ok (1 ∷ 2 ∷ []))
    × (delete_bucket media stored ≡ err (not_empty 1))
unfolding program validate_bucket_name
runs = (refl, refl, refl, refl, refl, refl, refl, refl)

get_object-put_object_example :
    (length body ≡ length body)
    × (get_object media (chars "a//b") stored ≡ (
        located media (chars "a/b") bucket >>= (λ p.
          located media (chars "a//b") bucket
          >>= (λ q. if p == q then ok (1 ∷ 2 ∷ []) else get_object media (chars "a//b") bucket))))
get_object-put_object_example =
    Stored.get_object-put_object media (chars "a/b") media (chars "a//b") (1 ∷ 2 ∷ []) bucket
      (stored, 2) runs.3

object_path_run : object_path media (chars "a//b") ≡ some (media ∷ chars "a" ∷ chars "b" ∷ [])
unfolding program
object_path_run = refl

object_path-IsDown_example :
    (below : Components) × ((media ∷ chars "a" ∷ chars "b" ∷ []) ≡ media ∷ below) × IsDown below
object_path-IsDown_example =
    Paths.object_path-IsDown media (chars "a//b") (media ∷ chars "a" ∷ chars "b" ∷ [])
      object_path_run

verify_signed_url-sign_url_example :
    (sign_url 100 (chars "get") media (chars "a") 60 (chars "key") bucket >>= (λ u.
      verify_signed_url 150
        (to_uppercase (chars "get"))
        media
        (chars "a")
        u.0
        u.1
        (chars "key")
        bucket))
    ≡ (sign_url 100 (chars "get") media (chars "a") 60 (chars "key") bucket
        >>= (λ u. guard (not (leb u.0 150)) expired))
verify_signed_url-sign_url_example =
    Verified.verify_signed_url-sign_url 100 150 60 (chars "get") media (chars "a") (chars "key")
      bucket

signed_text-injective_example :
    (chars "GET" ≡ chars "GET") × (media ≡ media) × (chars "a|1" ≡ chars "a|1") × (exp ≡ exp)
signed_text-injective_example =
    Bound.signed_text-injective (chars "GET") (chars "GET") media media (chars "a|1") (chars "a|1")
      exp exp refl refl refl refl refl
