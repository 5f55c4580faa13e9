-- ===== src/Tests/Runs.antt =====
-- Witnesses for writes, updates and sequences of calls of internal/object, over the store in memory.
use opens.Prelude.{
  ℕ, ◌≡◌, ◌↔◌, refl, ap, ◌∙◌, inl, pos, true, false, Option, none, some, List, [], ◌∷◌, All, codes,
  arith,
}
use opens.Kv.Reads.{get-put_same}
use opens.Meta.Keys.{bucket_key}
use opens.Meta.Types.{Tag, Retention, Bucket, Object}
use opens.Service.Delete.{Context, DeleteInput}
use opens.Service.Sound.{Sound}
use opens.Service.Held.{Held}
use opens.Service.Update.{VersionName, validate_tags}
use opens.Service.Update.Tags.{InLimits, Distinct, validate_tags_iff}
use opens.Service.Put.{PutInput, ObjectAttrs, Written, put_object_service}
use opens.Service.Put.Readable.{Readable, put_object_service-Readable}
use opens.Service.Runs.{Call, delete, put_retention, run}
use opens.Service.Runs.Worm.{run-Held}
use opens.Tests.Engine.{memory, without}
use opens.Tests.Buckets.{buckets}
use opens.Tests.Objects.{objects}
use opens.Tests.Meta.{photos, cat, empty, photos-no_slash}
use opens.Tests.Listing.{single-lookup, cat_key}
use opens.Tests.Service.{plain}

abbrev compliance : Retention
compliance = record { mode = codes "COMPLIANCE"; retain_until = 100 }

abbrev locked_cat : Object
locked_cat = record cat { retention = some compliance }

abbrev locked_store : memory.Txn
locked_store = memory.put empty cat_key (objects.encode locked_cat)

locked_store-Sound : Sound memory objects (5 ∷ []) locked_store
unfolding without
locked_store-Sound x v found r =
    let (at, value) = single-lookup cat_key (objects.encode locked_cat) x v found in
    (
      locked_cat,
      ap objects.decode value ∙ objects.decode_encode locked_cat,
      at,
      (photos-no_slash, (omega arith, (omega arith, (omega arith, tt))), omega arith, inl refl),
    )

locked_store-Held : Held memory objects 100 (codes "photos") (codes "cat") 5 locked_store
locked_store-Held = (
  locked_cat,
  get-put_same memory empty cat_key (objects.encode locked_cat),
  (compliance, refl, refl, omega arith),
)

abbrev pub at : ℕ → ℕ → Context
at now seq = record {
  now = now;
  seq = seq;
  random = codes "0123456789abcdef";
  actor = record { canonical_id = codes "eve"; display_name = [] };
  expected = record { bucket_created = 0; object_seq = 0 };
}

abbrev delete_cat : DeleteInput
delete_cat = record {
  bucket = codes "photos";
  key = codes "cat";
  version_id = codes "null";
  bypass_governance = true;
  if_match = [];
  if_seq = 0;
}

abbrev null_cat : VersionName
null_cat = record { bucket = codes "photos"; key = codes "cat"; version_id = codes "null" }

abbrev attempts : List (Context × Call memory.Txn)
attempts = (at 50 6, put_retention empty null_cat none true) ∷ (at 60 7, delete delete_cat) ∷ []

run-Held_example :
    Held memory objects 100
      (codes "photos")
      (codes "cat")
      5
      (run plain (λ t y d. t) memory buckets objects attempts locked_store)
run-Held_example =
    run-Held memory objects 100 (codes "photos") (codes "cat") 5 plain (λ t y d. t) buckets attempts
      (5 ∷ []) locked_store
      (
        photos-no_slash,
        omega arith,
        omega arith,
        (λ m. ground arith),
        (photos-no_slash, omega arith, omega arith, (λ m. ground arith), tt),
      )
      locked_store-Sound locked_store-Held

abbrev two_tags : List Tag
two_tags =
    record { key = codes "a"; value = codes "1" } ∷ record { key = codes "b"; value = [] } ∷ []

validate_tags_iff_example :
    (validate_tags two_tags ≡ none) ↔ (All InLimits two_tags × Distinct two_tags)
validate_tags_iff_example = validate_tags_iff two_tags

abbrev no_attrs : ObjectAttrs
no_attrs = record {
  content_type = [];
  content_encoding = [];
  content_disposition = [];
  content_language = [];
  cache_control = [];
  expires = [];
  website_redirect = [];
  user_meta = [];
  tags = [];
  storage_class = [];
  acl = none;
  retention = none;
  legal_hold = false;
  legal_hold_set = false;
}

abbrev pub put_cat : PutInput
put_cat = record {
  bucket = codes "photos";
  key = codes "cat";
  attrs = no_attrs;
  conditions = record {
    if_match = [];
    if_none_match = [];
    if_modified_since = 0;
    if_unmodified_since = 0;
  };
  event = [];
}

abbrev written : Bucket → Option Written
written b = some (record {
  part = record {
    number = pos 1;
    blob = codes "b1";
    size = pos 3;
    etag = codes "e";
    checksum = [];
    nonce = [];
  };
  checksum = none;
  sse = none;
})

abbrev pub with_bucket : memory.Txn
with_bucket = memory.put empty (bucket_key (codes "photos")) (buckets.encode photos)

put_object_service-Readable_example :
    Readable memory objects with_bucket plain
      (λ t y d. t)
      buckets
      (at 50 6)
      put_cat
      (omega arith)
      refl
      (put_object_service plain
        (λ t y d. t)
        memory
        buckets
        objects
        (at 50 6)
        with_bucket
        with_bucket
        put_cat
        written)
put_object_service-Readable_example =
    put_object_service-Readable memory objects with_bucket plain (λ t y d. t) buckets (at 50 6)
      put_cat (omega arith) refl with_bucket written
