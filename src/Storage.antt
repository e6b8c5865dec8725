-- ===== src/Storage.antt =====
-- Object storage of daemon/src/storage.rs, and the joining of paths of daemon/src/staticfiles.rs on
-- which it stands. The disk is the files and the folders under the data directory, by their components;
-- an operation on it fails only where a file stands in the way of a folder or a folder in the way of a
-- file. `delete_bucket`, which lets go of the lock between its test and the removal, is one step here.
-- A method that reads the clock takes the reading first, in seconds. The lock is taken to succeed:
-- it is poisoned only when a holder has panicked.
pub mod Paths
pub mod Signing
pub mod Stored
mod Tests
use bridge_framework.Base.{
  ℕ, ◌+◌, Bool, true, false, not, ◌&&◌, ◌||◌, Option, some, none, List, [], ◌∷◌, ◌++◌, map, chars,
  length, contains, is_empty, is_digit, anyb, filterb, is_some, leb, ltb, map_some, if◌then◌else◌,
  Result, ok, err, ◌>>=◌, guard, ◌==◌, nat_eq, list_eq, Chars, as_bytes, keep_if,
}
use bridge_framework.Base.Map
use bridge_framework.Base.Map.{Map}
use bridge_framework.Auth.Jwt.{split_of, contains_text, begins_with}

abbrev pub Components : Type 0
Components = List Chars

-- A component that `Path::components` drops.
abbrev pub is_skipped : Chars → Bool
is_skipped c = is_empty c || c == chars "."

unfoldable pub safe_join : Components → Chars → Option Components
unfolding split_of
safe_join base rel =
    let parts = split_of b'/' rel in
    if contains 0 rel || begins_with (chars "/") rel || contains (chars "..") parts
    then none
    else some (base ++ filterb (λ c. not (is_skipped c)) parts)

pub record Bucket : Type 0 where
  pub name : Chars
  pub is_public : Bool
  pub created_at_secs : ℕ

pub record Disk : Type 0 where
  pub files : Map Components (List ℕ)
  pub folders : List Components

pub record StorageRegistry : Type 0 where
  pub buckets : Map Chars Bucket
  pub disk : Disk

-- The messages of the errors.
pub data StorageError : Type 0 where
  bad_length : ℕ → StorageError
  bad_character bad_end already_exists bucket_not_found invalid_key : StorageError
  no_folder no_file object_not_found unsupported_method expired invalid_signature : StorageError
  not_empty : ℕ → StorageError

abbrev pub is_lower_or_digit : ℕ → Bool
is_lower_or_digit c = (leb b'a' c && leb c b'z') || is_digit c

abbrev pub is_name_char : ℕ → Bool
is_name_char c = is_lower_or_digit c || c == b'-' || c == b'.'

abbrev pub ends_well : Chars → Bool
ends_well [] = true
ends_well (c ∷ []) = is_lower_or_digit c
ends_well (c ∷ d ∷ s) = ends_well (d ∷ s)

abbrev pub starts_well : Chars → Bool
starts_well [] = true
starts_well (c ∷ s) = is_lower_or_digit c

unfoldable pub validate_bucket_name : Chars → Result StorageError (Unit {0})
unfolding as_bytes
validate_bucket_name name =
    let n = length (as_bytes name) in
    if not (leb 3 n && leb n 63)
    then err (bad_length n)
    else if anyb (λ c. not (is_name_char c)) name
    then err bad_character
    else if not (starts_well name && ends_well name)
    then err bad_end
    else ok tt

-- The folders down to a path, the path included.
abbrev pub prefixes : Components → Components → List Components
prefixes above [] = []
prefixes above (c ∷ p) = (above ++ c ∷ []) ∷ prefixes (above ++ c ∷ []) p

-- `create_dir_all`
unfoldable pub create_folders : Components → Disk → Result StorageError Disk
create_folders p disk =
    if anyb (λ q. Map.contains_key q disk.files) (prefixes [] p)
    then err no_folder
    else ok (record disk { folders = disk.folders ++ prefixes [] p })

-- `write`
unfoldable pub write : Components → List ℕ → Disk → Result StorageError Disk
write p body disk =
    if contains p disk.folders
    then err no_file
    else ok (record disk { files = Map.insert p body disk.files })

abbrev pub bucket_dir : Chars → Components
bucket_dir bucket = bucket ∷ []

unfoldable pub create_bucket :
    ℕ → Chars → Bool → StorageRegistry → Result StorageError StorageRegistry
unfolding validate_bucket_name create_folders
create_bucket now name is_public r =
    validate_bucket_name name
    >>= (λ _. guard (not (Map.contains_key name r.buckets)) already_exists)
    >>= (λ _. create_folders (bucket_dir name) r.disk)
    >>= (λ disk. ok (record {
      buckets =
          Map.insert name (record { name = name; is_public = is_public; created_at_secs = now })
            r.buckets;
      disk = disk;
    }))

abbrev pub get_bucket : Chars → StorageRegistry → Option Bucket
get_bucket name r = Map.get name r.buckets

unfoldable pub object_path : Chars → Chars → Option Components
unfolding safe_join
object_path bucket key =
    if is_empty key
      || contains 0 key
      || contains_text (chars "..") key
      || begins_with (chars "/") key
    then none
    else safe_join (bucket_dir bucket) key

-- `path.parent()`
abbrev pub parent : Components → Components
parent [] = []
parent (c ∷ []) = []
parent (c ∷ d ∷ p) = c ∷ parent (d ∷ p)

abbrev pub ok_or {ℓ} : {A : Type ℓ} → StorageError → Option A → Result StorageError A
ok_or e none = err e
ok_or e (some a) = ok a

-- The bucket and the path that an operation on an object begins with.
unfoldable pub located : Chars → Chars → StorageRegistry → Result StorageError Components
unfolding object_path
located bucket key r =
    guard (is_some (get_bucket bucket r)) bucket_not_found
    >>= (λ _. ok_or invalid_key (object_path bucket key))

abbrev pub with_disk : StorageRegistry → Disk → StorageRegistry
with_disk r disk = record r { disk = disk }

unfoldable pub put_object :
    Chars → Chars → List ℕ → StorageRegistry → Result StorageError (StorageRegistry × ℕ)
unfolding located create_folders write
put_object bucket key body r = located bucket key r >>= (λ path.
    create_folders (parent path) r.disk
    >>= write path body
    >>= (λ disk. ok (with_disk r disk, length body)))

unfoldable pub get_object : Chars → Chars → StorageRegistry → Result StorageError (List ℕ)
unfolding located
get_object bucket key r =
    located bucket key r >>= (λ path. ok_or object_not_found (Map.get path r.disk.files))

unfoldable pub delete_object : Chars → Chars → StorageRegistry → Result StorageError StorageRegistry
unfolding located
delete_object bucket key r = located bucket key r >>= (λ path.
    guard (Map.contains_key path r.disk.files) object_not_found
    >>= (λ _. ok (with_disk r (record r.disk { files = Map.remove path r.disk.files }))))

abbrev pub is_in_bucket : Chars → Components → Bool
is_in_bucket bucket [] = false
is_in_bucket bucket (c ∷ p) = c == bucket

-- How many keys `list_objects` lists.
abbrev pub object_count : Chars → StorageRegistry → ℕ
object_count bucket r = length (filterb (is_in_bucket bucket) (Map.keys r.disk.files))

unfoldable pub delete_bucket : Chars → StorageRegistry → Result StorageError StorageRegistry
delete_bucket name r =
    guard (is_some (get_bucket name r)) bucket_not_found
    >>= (λ _. guard (object_count name r == 0) (not_empty (object_count name r)))
    >>= (λ _.
        let inner =
          filterb (λ p. is_in_bucket name p && not (p == bucket_dir name)) r.disk.folders in
        let left =
          if is_empty inner
          then filterb (λ p. not (p == bucket_dir name)) r.disk.folders
          else r.disk.folders in
        ok
          (record { buckets = Map.remove name r.buckets; disk = record r.disk { folders = left } }))

abbrev pub public_read_allowed : Chars → StorageRegistry → Bool
public_read_allowed bucket r = is_some (keep_if (λ b. b.is_public) (get_bucket bucket r))
