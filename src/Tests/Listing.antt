-- ===== src/Tests/Listing.antt =====
-- Runs and witnesses for the listings of internal/meta/store.go, over the store in memory.
use opens.Prelude.{
  ◌≡◌, ◌≤◌, refl, sym, ap, subst, ◌∙◌, Bool-cases, eq_bytes, all, leb, leb→le, inl, inr, pos, Bool,
  true, false, some, List, [], ◌∷◌, ◌++◌, Bytes, All, codes, eq_bytes_sound, has_prefix, lookup,
  arith, map,
}
use opens.Kv.{lt_bytes}
use opens.Meta.Hex.{hex, hex_digit}
use opens.Meta.Keys.{ver_key, object_key, bucket_key, bucket_prefix, part_prefix, upload_key}
use opens.Meta.Types.{Object, Part}
use opens.Meta.Store.{Codec}
use opens.Meta.Scan.{Scanned, done, panicked, scan}
use opens.Meta.Listing.{ListOptions, ListEntry, Listing, list}
use opens.Meta.Listing.Page.{Page, list-Page}
use opens.Meta.Listing.Newest.{Coherent}
use opens.Meta.Listing.Whole.{Whole}
use opens.Meta.Listing.Whole.Laws.{list-Whole}
use opens.Meta.Collect.{each, append}
use opens.Meta.Collect.Laws.{Exactly, each-Exactly}
use opens.Meta.Uploads.{part_key, delete_upload, UploadListResult, list_uploads}
use opens.Meta.Uploads.Laws.{Gone, delete_upload-Gone, Numbered}
use opens.Meta.Uploads.Page.{list_uploads-Page}
use opens.Tests.Engine.{memory, without, keys_of, first_from}
use opens.Tests.Buckets.{buckets}
use opens.Tests.Objects.{objects}
use opens.Tests.Uploads.{uploads}
use opens.Tests.Records.{part_wire}
use opens.Tests.Wire.{codec_of}
use opens.Tests.Meta.{photos, cat, upload, empty, one_record, photos-no_slash}

abbrev c_options : ListOptions
c_options = record {
  prefix = codes "c";
  delimiter = [];
  start_after = [];
  key_marker = [];
  version_marker = [];
  max_keys = pos 2;
}

list-Page_example :
    Page memory objects one_record
      (codes "photos")
      photos-no_slash
      c_options
      false
      (omega arith, tt)
      (list memory objects one_record (codes "photos") c_options false)
list-Page_example =
    list-Page memory objects one_record (codes "photos") photos-no_slash c_options false
      (omega arith, tt)

-- A store with one record.
pub single-lookup : (k v x w : Bytes) → lookup x ((k, v) ∷ []) ≡ some w → (x ≡ k) × (w ≡ v)
unfolding lookup
single-lookup k v x w h = elim (Bool-cases (eq_bytes k x)) [
  | inl e ↦ (sym (eq_bytes_sound k x e), ground arith)
  | inr e ↦ ground arith
]

abbrev pub cat_key : Bytes
cat_key = object_key (codes "photos") (codes "cat") 5

all_small : (x : Bytes) → all (λ c. leb c 255) x ≡ true → All (λ c. c ≤ 255) x
unfolding all
all_small [] h = tt
all_small (c ∷ x) h = (ground (arith, leb→le c 255), all_small x (ground arith))

cat_key_small : all (λ c. leb c 255) cat_key ≡ true
unfolding object_key all ver_key hex hex_digit
cat_key_small = refl

one_record-Coherent : Coherent memory objects one_record (codes "photos")
unfolding without
one_record-Coherent x v found below =
    let (at, value) = single-lookup cat_key (objects.encode cat) x v found in
    (
      cat,
      ap objects.decode value ∙ objects.decode_encode cat,
      at,
      (omega arith, (omega arith, (omega arith, tt))),
      omega arith,
      subst (λ y. All (λ c. c ≤ 255) y) (sym at) (all_small cat_key cat_key_small),
    )

list-Whole_example :
    Whole memory objects one_record
      (codes "photos")
      c_options
      (list memory objects one_record (codes "photos") c_options false)
list-Whole_example =
    list-Whole memory objects one_record (codes "photos") c_options one_record-Coherent
      photos-no_slash (omega arith, tt) refl refl

-- The bucket's record is what ListBuckets collects.
one_bucket : memory.Txn
one_bucket = memory.put empty (bucket_key (codes "photos")) (buckets.encode photos)

each-Exactly_example :
    Exactly memory buckets one_bucket bucket_prefix
      (each memory buckets (λ _. false) append one_bucket bucket_prefix bucket_prefix [])
each-Exactly_example = each-Exactly memory buckets one_bucket bucket_prefix

abbrev pub parts : Codec Part
parts = codec_of part_wire

abbrev pub first_part : Part
first_part = record {
  number = pos 1;
  blob = [];
  size = pos 3;
  etag = [];
  checksum = [];
  nonce = [];
}

abbrev one_part : memory.Txn
one_part =
    memory.put empty (part_key (codes "photos") (codes "u1") (pos 1)) (parts.encode first_part)

one_part-Numbered : Numbered memory parts one_part (codes "photos") (codes "u1")
unfolding without
one_part-Numbered x v found below =
    let (at, value) =
      single-lookup (part_key (codes "photos") (codes "u1") (pos 1)) (parts.encode first_part) x v
        found in
    (first_part, ap parts.decode value ∙ parts.decode_encode first_part, at)

delete_upload-Gone_example :
    Gone memory parts one_part upload (delete_upload memory parts one_part upload)
delete_upload-Gone_example = delete_upload-Gone memory parts one_part upload one_part-Numbered

list_uploads-Page_example :
    opens.Meta.Uploads.Page.Page memory uploads empty
      (codes "photos")
      c_options
      (omega arith, tt)
      (list_uploads memory uploads empty (codes "photos") c_options)
list_uploads-Page_example =
    list_uploads-Page memory uploads empty (codes "photos") c_options (omega arith, tt)

-- The second page of a listing of versions, which starts behind the newest version of the key, reports the
-- older version as the latest.
abbrev older : Object
older = record cat { version_id = codes "00000000000000050123456789abcdef" }

abbrev newer : Object
newer = record cat { version_id = codes "00000000000000060123456789abcdef"; seq = 6 }

abbrev two_versions : memory.Txn
two_versions =
    (object_key (codes "photos") (codes "cat") 6, objects.encode newer)
    ∷ (object_key (codes "photos") (codes "cat") 5, objects.encode older)
    ∷ []

abbrev behind_newer : ListOptions
behind_newer = record c_options {
  key_marker = codes "cat";
  version_marker = codes "00000000000000060123456789abcdef";
}

latest_flags : Scanned Listing → List Bool
latest_flags (done st) = map (λ (e : ListEntry). e.is_latest) st.res.entries
latest_flags _ = []

second_page :
    latest_flags (list memory objects two_versions (codes "photos") behind_newer true) ≡ true ∷ []
unfolding latest_flags list scan keys_of first_from without lt_bytes eq_bytes has_prefix object_key
    ver_key hex hex_digit opens.Meta.Keys.split_object_key opens.Meta.Keys.cut_first
    opens.Meta.Keys.split_version opens.Meta.Keys.cut_last opens.Meta.Listing.collapsed
    opens.Meta.Listing.list_body opens.Meta.Scan.first_from opens.Meta.Keys.object_scan_prefix
    opens.Tests.Engine.better opens.Meta.Hex.parse_digits opens.Meta.Hex.hex_value
    opens.Meta.Keys.seq_from_version_id opens.Meta.Listing.version_step opens.Meta.Listing.add
    opens.Meta.Listing.truncated opens.Meta.Listing.page_size opens.Meta.Listing.start_of
second_page = ground (arith, objects.decode_encode older)

-- A prefix that reaches behind the key panics, if there is a delimiter.
nul_prefix : ListOptions
nul_prefix = record c_options { prefix = codes "cat" ++ 0 ∷ []; delimiter = codes "/" }

nul_prefix_panics : list memory objects one_record (codes "photos") nul_prefix false ≡ panicked
unfolding nul_prefix list scan keys_of first_from without lt_bytes eq_bytes has_prefix object_key
    ver_key hex hex_digit opens.Meta.Keys.split_object_key opens.Meta.Keys.cut_first
    opens.Meta.Keys.split_version opens.Meta.Keys.cut_last opens.Meta.Listing.collapsed
    opens.Meta.Listing.list_body opens.Meta.Scan.first_from opens.Meta.Keys.object_scan_prefix
    opens.Tests.Engine.better opens.Meta.Hex.parse_digits opens.Meta.Hex.hex_value
nul_prefix_panics = refl

-- A listing of uploads that goes on behind a common prefix returns that prefix again.
abbrev an_upload : Bytes → memory.Txn
an_upload key = (upload_key (codes "photos") key (codes "u1"), []) ∷ []

behind_prefix : ListOptions
behind_prefix = record c_options { prefix = []; delimiter = codes "/"; key_marker = codes "a/" }

prefixes_of : Scanned UploadListResult → List Bytes
prefixes_of (done res) = res.prefixes
prefixes_of _ = []

prefix_again :
    prefixes_of
      (list_uploads memory uploads (an_upload (codes "a/x")) (codes "photos") behind_prefix)
    ≡ codes "a/" ∷ []
unfolding behind_prefix prefixes_of list_uploads scan keys_of first_from without lt_bytes eq_bytes
    has_prefix upload_key opens.Meta.Keys.cut_last opens.Meta.Listing.collapsed
    opens.Meta.Scan.first_from opens.Meta.Keys.upload_scan_prefix opens.Tests.Engine.better
    opens.Meta.Keys.split_upload_key opens.Meta.Keys.upload_bucket_prefix opens.Kv.prefix_successor
    opens.Meta.Uploads.uploads_body opens.Meta.Uploads.upload_prefix_step
    opens.Meta.Listing.page_size opens.Meta.Listing.jump_to opens.Meta.Uploads.uploads_start
    opens.Meta.Listing.index_of
prefix_again = refl

-- A marker before the prefix ends the listing at a key without the prefix.
marker_before : ListOptions
marker_before = record c_options { prefix = codes "b"; key_marker = codes "a" }

two_uploads : memory.Txn
two_uploads = an_upload (codes "aa") ++ an_upload (codes "b")

nothing_listed :
    list_uploads memory uploads two_uploads (codes "photos") marker_before
    ≡ done (record {
      uploads = [];
      prefixes = [];
      is_truncated = false;
      next_key = [];
      next_upload_id = [];
    })
unfolding marker_before two_uploads list_uploads scan keys_of first_from without lt_bytes eq_bytes
    has_prefix upload_key opens.Meta.Keys.cut_last opens.Meta.Listing.collapsed
    opens.Meta.Scan.first_from opens.Meta.Keys.upload_scan_prefix opens.Tests.Engine.better
    opens.Meta.Keys.split_upload_key opens.Meta.Keys.upload_bucket_prefix opens.Kv.prefix_successor
    opens.Meta.Uploads.uploads_body opens.Meta.Uploads.upload_prefix_step
    opens.Meta.Listing.page_size opens.Meta.Listing.jump_to opens.Meta.Uploads.uploads_start
    opens.Meta.Listing.index_of
nothing_listed = refl
