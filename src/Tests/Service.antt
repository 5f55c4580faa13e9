-- ===== src/Tests/Service.antt =====
-- A run and a witness for internal/object/delete.go, over the store in memory.
use opens.Prelude.{
  ◌≡◌, refl, ap, sym, ◌∙◌, true, none, some, [], Bytes, codes, eq_bytes, eq_bytes_sound, lookup,
  arith, Bool-cases, inl, inr,
}
use mathlib.Core.Option.{some-injective}
use opens.Kv.Reads.{get-put_same}
use opens.Meta.Hex.{hex, hex_digit}
use opens.Meta.Keys.{object_key, ver_key}
use opens.Meta.Types.{Object}
use opens.Service.Lock.{Go, legal_hold, check_locked}
use opens.Service.Delete.{DeleteInput, Context, delete_object}
use opens.Service.Delete.Records.{Records}
use opens.Service.Delete.Locked.{KeptBy, delete_object-Kept}
use opens.Meta.Keys.{bucket_key}
use opens.Meta.Types.{Bucket}
use opens.Tests.Engine.{memory, without}
use opens.Tests.Buckets.{buckets}
use opens.Tests.Objects.{objects}
use opens.Tests.Meta.{empty, cat, photos}

abbrev pub plain : Go
plain = record { valid_string = λ s. true; trim_space = λ s. s }

abbrev held_cat : Object
held_cat = record cat { legal_hold = true }

abbrev cat_key : Bytes
cat_key = object_key (codes "photos") (codes "cat") 5

stored : memory.Txn
stored = memory.put empty cat_key (objects.encode held_cat)

stored-held : memory.get stored cat_key ≡ some (objects.encode held_cat)
unfolding stored
stored-held = get-put_same memory empty cat_key (objects.encode held_cat)

stored-Records : Records memory objects stored
unfolding stored lookup without
stored-Records x v o found d r = elim (Bool-cases (eq_bytes cat_key x)) [
  | inr e ↦ ground arith
  | inl e ↦
      let value : some (objects.encode held_cat) ≡ some v = ground arith in
      let same : held_cat ≡ o =
        some-injective _ _ (
          sym (objects.decode_encode held_cat)
          ∙ ap objects.decode (some-injective _ _ value)
          ∙ d) in
      sym (eq_bytes_sound cat_key x e) ∙ ap (λ (q : Object). object_key q.bucket q.key q.seq) same
]

abbrev context : Context
context = record {
  now = 6;
  seq = 9;
  random = codes "0123456789abcdef";
  actor = record { canonical_id = codes "ann"; display_name = [] };
  expected = record { bucket_created = 0; object_seq = 0 };
}

abbrev delete_cat : DeleteInput
delete_cat = record {
  bucket = codes "photos";
  key = codes "cat";
  version_id = codes "null";
  bypass_governance = true;
  if_match = [];
  if_seq = 0;
}

stored-fresh : memory.get stored (object_key (codes "photos") (codes "cat") 9) ≡ none
unfolding stored lookup without object_key ver_key hex hex_digit eq_bytes
stored-fresh = refl

delete_object-Kept_example :
    KeptBy memory objects stored
      (codes "photos")
      (codes "cat")
      5
      held_cat
      stored-held
      stored-Records
      (delete_object plain memory buckets objects context stored delete_cat)
delete_object-Kept_example =
    delete_object-Kept memory objects stored (codes "photos") (codes "cat") 5 held_cat stored-held
      stored-Records plain buckets context delete_cat legal_hold (unfold check_locked in refl)
      stored-fresh

abbrev versioned : Bucket
versioned = record photos { versioning = codes "Enabled" }

with_bucket : memory.Txn
with_bucket = memory.put empty (bucket_key (codes "photos")) (buckets.encode versioned)

abbrev delete_any : DeleteInput
delete_any = record delete_cat { version_id = [] }
