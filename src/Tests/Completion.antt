-- ===== src/Tests/Completion.antt =====
-- A run and a witness for the multipart uploads of internal/object/multipart.go, over the store in memory.
use opens.Prelude.{◌≡◌, refl, pos, any, eq_bytes, has_prefix, none, List, [], ◌∷◌, codes, arith}
use opens.Meta.Types.{Object, Part}
use opens.Meta.Store.{put_upload}
use opens.Meta.Uploads.{put_part}
use opens.Service.Assemble.{
  Digests, assembled, eq_int, in_order, size_checks, whole_checksum, CompleteInput, CompletePart,
  Assembly, refused, built, assemble, by_number, part_checks, total_from, add_int64,
  invalid_part_order,
}
use opens.Service.Assemble.Accepted.{Acceptable, assemble-accepts}
use opens.Service.Lock.{etag_matches}
use opens.Service.Uploads.{complete_upload}
use opens.Service.Uploads.Laws.{Finished, complete_upload-Finished}
use opens.Tests.Engine.{memory}
use opens.Tests.Buckets.{buckets}
use opens.Tests.Objects.{objects}
use opens.Tests.Uploads.{uploads}
use opens.Tests.Meta.{upload}
use opens.Tests.Listing.{parts, first_part}
use opens.Tests.Service.{plain}
use opens.Tests.Runs.{at, with_bucket}

-- Hashes that return what they are given.
abbrev no_hashes : Digests
no_hashes = record {
  hex_decode = λ s. s;
  md5_hex = λ s. s;
  normalize = λ s. s;
  decode = λ alg s. s;
  encode = λ s. s;
  combine_crc = λ alg sums sizes. none;
  composite_of = λ alg sums. none;
}

abbrev e_part : Part
e_part = record first_part { etag = codes "e"; blob = codes "b1" }

abbrev with_upload : memory.Txn
with_upload =
    (put_part memory parts (put_upload memory uploads with_bucket upload) (codes "photos")
      (codes "u1") e_part).1

abbrev e_listed : CompletePart
e_listed = record { part_number = pos 1; etag = codes "e"; checksum = [] }

abbrev complete_cat : CompleteInput
complete_cat = record {
  sse = record { customer_key = none; customer_key_md5 = [] };
  bucket = codes "photos";
  key = codes "cat";
  upload_id = codes "u1";
  parts = e_listed ∷ [];
  conditions = record {
    if_match = [];
    if_none_match = [];
    if_modified_since = 0;
    if_unmodified_since = 0;
  };
  checksum = none;
  object_size = pos 3;
}

abbrev parts_of : Assembly Object → List Part
parts_of (refused e) = []
parts_of (built o) = o.parts

one_part_assembled :
    parts_of (assemble no_hashes (at 50 6) plain complete_cat upload (e_part ∷ [])) ≡ e_part ∷ []
unfolding assemble by_number part_checks etag_matches any eq_bytes has_prefix total_from add_int64
one_part_assembled = refl

twice_refused :
    assemble no_hashes
      (at 50 6)
      plain
      (record complete_cat { parts = e_listed ∷ e_listed ∷ [] })
      upload
      (e_part ∷ [])
    ≡ refused invalid_part_order
unfolding assemble
twice_refused = refl

complete_upload-Finished_example :
    Finished memory buckets objects uploads parts
      (at 50 6)
      plain
      no_hashes
      with_upload
      with_upload
      complete_cat
      (complete_upload memory buckets objects uploads parts
        (at 50 6)
        plain
        no_hashes
        with_upload
        with_upload
        with_upload
        complete_cat)
complete_upload-Finished_example =
    complete_upload-Finished memory buckets objects uploads parts (at 50 6) plain no_hashes
      with_upload with_upload complete_cat (omega arith) refl with_upload

abbrev e_acceptable : Acceptable plain upload (e_part ∷ []) (e_part ∷ [])
unfolding Acceptable etag_matches any eq_bytes has_prefix
e_acceptable = (refl, refl, refl, tt)

assemble-accepts_example :
    assemble no_hashes (at 50 6) plain complete_cat upload (e_part ∷ [])
    ≡ built (assembled no_hashes (at 50 6) complete_cat upload (e_part ∷ []) none)
assemble-accepts_example =
    assemble-accepts plain upload (e_part ∷ []) no_hashes (at 50 6) complete_cat none refl
      (unfold in_order in refl) e_acceptable
      (unfold size_checks total_from add_int64 eq_int in refl) (unfold whole_checksum in refl)
