-- ===== src/Tests/Meta.antt =====
-- Runs and witnesses for internal/kv and internal/meta, over the store in memory.
use opens.Prelude.{
  ℕ, ◌≡◌, ◌≢◌, ◌⊎◌, ◌<◌, refl, inl, pos, false, not, ◌&&◌, none, some, [], ◌∷◌, Bytes, All, codes,
  eq_bytes, eq_bytes_sound, has_prefix, lookup, arith,
}
use opens.Kv.{lt_bytes, prefix_successor}
use opens.Kv.Bounds.{below, prefix_successor-below}
use opens.Kv.Reads.{get-put_same}
use opens.Meta.Keys.{
  object_key, ver_key, null_key, new_version_id, seq_from_version_id, split_object_key,
  split_upload_key, upload_key,
}
use opens.Meta.Keys.Split.{
  split_object_key-object_key, split_upload_key-upload_key, seq_from_version_id-new_version_id,
}
use opens.Meta.Keys.Laws.{object_key-injective}
use opens.Meta.Types.{Bucket, Object, Upload}
use opens.Meta.Store.{
  ok, failed, not_found, decoded, get_version, is_null, drop_null, put_object, delete_version,
}
use opens.Meta.Store.Versions.{get_version-put_object, get_version-delete_version}
use opens.Meta.Store.Nulls.{OneNull, put_object-OneNull, delete_version-OneNull}
use opens.Meta.Latest.{get_latest}
use opens.Meta.Latest.Laws.{OnlyVersions, get_latest-newest}
use opens.Tests.Engine.{memory, without}
use opens.Tests.Objects.{objects}

prefix_successor_run : prefix_successor (97 ∷ 255 ∷ 255 ∷ []) ≡ some (98 ∷ [])
unfolding prefix_successor
prefix_successor_run = refl

prefix_successor-below_example : has_prefix (97 ∷ 255 ∷ 3 ∷ []) (97 ∷ 255 ∷ []) ≡ (
    not (lt_bytes (97 ∷ 255 ∷ 3 ∷ []) (97 ∷ 255 ∷ []))
    && below (prefix_successor (97 ∷ 255 ∷ [])) (97 ∷ 255 ∷ 3 ∷ []))
prefix_successor-below_example =
    prefix_successor-below (97 ∷ 255 ∷ []) (97 ∷ 255 ∷ 3 ∷ [])
      (omega arith, (omega arith, (omega arith, tt)))

split_object_key-object_key_example :
    split_object_key (object_key (codes "b") (codes "a/x") 7)
    ≡ some (record { bucket = codes "b"; key = codes "a/x"; seq = 7 })
split_object_key-object_key_example =
    split_object_key-object_key (codes "b") (codes "a/x") 7 (omega arith, tt) (omega arith)

split_upload_key-upload_key_example :
    split_upload_key (upload_key (codes "b") (codes "a/x") (codes "u1")) (codes "b")
    ≡ some (codes "a/x", codes "u1")
split_upload_key-upload_key_example =
    split_upload_key-upload_key (codes "b") (codes "a/x") (codes "u1")
      (omega arith, (omega arith, tt))

abbrev random : Bytes
random = codes "0123456789abcdef"

seq_from_version_id-new_version_id_example :
    seq_from_version_id (new_version_id 4096 random) ≡ some 4096
seq_from_version_id-new_version_id_example =
    seq_from_version_id-new_version_id 4096 random (omega arith) refl

object_key-injective_example :
    (codes "b" ≡ codes "b") × (codes "k/x" ≡ codes "k/x") × (◌≡◌ {A = ℕ} 9 9)
object_key-injective_example =
    object_key-injective (codes "b") (codes "b") (codes "k/x") (codes "k/x") 9 9 (omega arith, tt)
      (omega arith, tt) (omega arith) (omega arith) refl

abbrev pub photos : Bucket
photos = record {
  name = codes "photos";
  owner = [];
  owner_display = [];
  created = 1;
  deleting = false;
  region = [];
  versioning = [];
  mfa_delete = false;
  object_lock_enabled = false;
  object_lock = none;
  tags = [];
  policy = [];
  policy_text = [];
  acl = none;
  encryption = none;
  public_access_block = none;
  ownership = [];
  quota = none;
  self_lock = false;
  lifecycle_xml = [];
  cors_xml = [];
  notification_xml = [];
  website_xml = [];
  logging_xml = [];
  replication_xml = [];
  accelerate_xml = [];
  request_payment_xml = [];
}

abbrev pub empty : memory.Txn
empty = []

abbrev pub cat : Object
cat = record {
  bucket = codes "photos";
  key = codes "cat";
  version_id = codes "null";
  seq = 5;
  delete_marker = false;
  size = pos 3;
  etag = codes "e";
  mod_time = 5;
  owner = [];
  owner_display = [];
  content_type = [];
  content_encoding = [];
  content_disposition = [];
  content_language = [];
  cache_control = [];
  expires = [];
  website_redirect = [];
  user_meta = [];
  tags = [];
  storage_class = [];
  acl = none;
  parts = [];
  checksum = none;
  sse = none;
  retention = none;
  legal_hold = false;
  restore_expiry = none;
}

get_version-put_object_example :
    get_version memory objects
      (put_object memory objects empty cat).1
      (codes "photos")
      (codes "cat")
      (codes "null")
    ≡ ok cat
get_version-put_object_example = get_version-put_object memory objects empty cat (inl refl)

get_version-delete_version_example :
    get_version memory objects
      (delete_version memory (put_object memory objects empty cat).1 cat)
      (codes "photos")
      (codes "cat")
      (codes "null")
    ≡ failed not_found
get_version-delete_version_example =
    get_version-delete_version memory objects (put_object memory objects empty cat).1 cat (inl refl)

abbrev pub upload : Upload
upload = record {
  bucket = codes "photos";
  key = codes "cat";
  upload_id = codes "u1";
  initiated = 0;
  owner = [];
  owner_display = [];
  content_type = [];
  content_encoding = [];
  content_disposition = [];
  content_language = [];
  cache_control = [];
  expires = [];
  website_redirect = [];
  user_meta = [];
  tags = [];
  storage_class = [];
  acl = none;
  sse = none;
  checksum_algorithm = [];
  checksum_type = [];
  retention = none;
  legal_hold = false;
}

pub photos-no_slash : All (λ c. c ≢ b'/') (codes "photos")
photos-no_slash =
    (omega arith, (omega arith, (omega arith, (omega arith, (omega arith, (omega arith, tt))))))

empty-OneNull : OneNull memory objects empty
unfolding lookup
empty-OneNull b k s o n h found v = ground arith

one_put : OneNull memory objects (put_object memory objects empty cat).1
one_put = put_object-OneNull memory objects empty cat photos-no_slash (omega arith) empty-OneNull

put_object-OneNull_example : OneNull memory objects (put_object memory objects empty cat).1
put_object-OneNull_example =
    put_object-OneNull memory objects empty cat photos-no_slash (omega arith) empty-OneNull

cat_stored :
    memory.get (put_object memory objects empty cat).1 (object_key cat.bucket cat.key cat.seq)
    ≡ some (objects.encode cat)
unfolding put_object is_null eq_bytes
cat_stored =
    get-put_same memory
      (memory.put (drop_null memory objects empty cat.bucket cat.key).1
        (null_key cat.bucket cat.key) (ver_key cat.seq))
      (object_key cat.bucket cat.key cat.seq) (objects.encode cat)

delete_version-OneNull_example :
    OneNull memory objects (delete_version memory (put_object memory objects empty cat).1 cat)
delete_version-OneNull_example =
    delete_version-OneNull memory objects (put_object memory objects empty cat).1 cat
      photos-no_slash (omega arith) one_put cat_stored

abbrev pub one_record : memory.Txn
one_record = memory.put empty (object_key (codes "photos") (codes "cat") 5) (objects.encode cat)

one_record-OnlyVersions : OnlyVersions memory one_record (codes "photos") (codes "cat")
unfolding lookup without
one_record-OnlyVersions x v found below =
    (5, omega arith, ground (arith, eq_bytes_sound (object_key (codes "photos") (codes "cat") 5) x))

get_latest-newest_example :
    ((get_latest memory objects one_record (codes "photos") (codes "cat") ≡ failed not_found)
      × ((s : ℕ)
          → s < 18446744073709551616
          → memory.get one_record (object_key (codes "photos") (codes "cat") s) ≡ none))
    ⊎ ((s : ℕ) × (v : Bytes) × (memory.get one_record (object_key (codes "photos") (codes "cat") s)
          ≡ some v)
        × (get_latest memory objects one_record (codes "photos") (codes "cat")
            ≡ decoded objects (some v))
        × ((m : ℕ)
            → s < m
            → m < 18446744073709551616
            → memory.get one_record (object_key (codes "photos") (codes "cat") m) ≡ none))
get_latest-newest_example =
    get_latest-newest memory one_record objects (codes "photos") (codes "cat")
      one_record-OnlyVersions
