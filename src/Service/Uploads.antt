-- ===== src/Service/Uploads.antt =====
-- internal/object/multipart.go: the operations on multipart uploads, each around its transaction. The
-- encryption, the body of a part and the hashes are arguments; blobs are deleted behind the transaction.
pub mod Laws
pub mod Create
use opens.Prelude.{
  ℕ, ◌+◌, ℤ, pos, negsuc, lt_int, Bool, true, false, not, ◌&&◌, ◌||◌, Option, none, some, List, [],
  ◌∷◌, Bytes, codes, eq_bytes, is_nil, length, any, take, ltb, if◌then◌else◌, fail_if, ◌⊳◌,
}
use opens.Kv.{Engine}
use opens.Iam.Types.{Acl}
use opens.Meta.Types.{Time, Part, Sse, Bucket, Object, Upload}
use opens.Meta.Store.{
  Codec, not_found, StoreError, Result, ok, failed, get_bucket, put_object, put_upload, get_upload,
}
use opens.Meta.Scan.{Scanned, done, broken, panicked, endless}
use opens.Meta.Latest.{get_latest}
use opens.Meta.Uploads.{put_part, list_parts, delete_upload}
use opens.Service.Lock.{Go, Expectation, bucket_expected}
use opens.Service.Conditions.{check_write_conditions, version_id_for, same_bucket, get_live_bucket}
use opens.Service.Delete.{Context}
use opens.Service.Put.{
  ObjectAttrs, PutError, class_of, attribute_checks, default_retention, transferred,
}
use opens.Service.Assemble.{
  Digests, SseRequest, CompleteInput, MultipartError, no_parts, no_such_bucket, no_such_upload,
  undecodable_record, sse_key_missing, sse_key_differs, sse_key_not_applicable, invalid_part_number,
  body_refused, condition, Assembly, refused, built, assemble,
}

-- checkSSECParams(stored, req)
pub check_ssec_params : Option Sse → SseRequest → Option MultipartError
check_ssec_params stored req =
    let has_key : Bool = elim req.customer_key [ none ↦ false | some _ ↦ true ] in
    elim stored [
      | none ↦ fail_if has_key sse_key_not_applicable
      | some s ↦
          if eq_bytes s.type (codes "SSE-C")
          then fail_if (not has_key) sse_key_missing
            ⊳ fail_if
                (not (is_nil req.customer_key_md5)
                  && (not (is_nil s.customer_key_md5)
                      && not (eq_bytes req.customer_key_md5 s.customer_key_md5)))
                sse_key_differs
          else fail_if has_key sse_key_not_applicable
    ]

-- The parts of the upload whose blobs the object does not use.
pub unused_parts : List Part → List Part → List Part
unused_parts used [] = []
unused_parts used (p ∷ all) =
    let rest = unused_parts used all in
    if any (λ (q : Part). eq_bytes q.blob p.blob) used then rest else p ∷ rest

pub record Completed (Txn : Type 0) : Type 0 where
  pub tx : Txn
  pub object : Object
  pub replaced : Option Object
  pub unused : List Part

-- errors.Is(err, kv.ErrNotFound) is NoSuchBucket, any other error is returned
pub bucket_error : StoreError → MultipartError
bucket_error not_found = no_such_bucket
bucket_error _ = undecodable_record

pub upload_error : StoreError → MultipartError
upload_error not_found = no_such_upload
upload_error _ = undecodable_record

abbrev pub checked : {A : Type 0} → Option MultipartError → Assembly A → Assembly A
checked (some e) next = refused e
checked none next = next

-- What liveBucket refuses.
pub live_bucket_error :
    (kv : Engine) → Codec Bucket → Expectation → kv.Txn → Bytes → Option MultipartError
unfolding bucket_error
live_bucket_error kv buckets expected tx bucket = elim (get_live_bucket kv buckets tx bucket) [
  | failed e ↦ some (bucket_error e)
  | ok b ↦ fail_if (not (bucket_expected expected b)) no_such_bucket
]

module _ (kv : Engine) (buckets : Codec Bucket) (objects : Codec Object) (uploads : Codec Upload)
    (parts : Codec Part) (c : Context) where
  open kv use {Txn}

  -- Service.GetUpload(bucket, key, uploadID)
  pub find_upload : Txn → Bytes → Bytes → Bytes → Assembly Upload
  unfolding live_bucket_error upload_error
  find_upload tx bucket key upload_id =
      checked (live_bucket_error kv buckets c.expected tx bucket)
        (elim (get_upload kv uploads tx bucket key upload_id) [
          | failed e ↦ refused (upload_error e)
          | ok u ↦ built u
        ])

  -- ListParts fails as a record cannot be decoded; its loop neither panics nor is endless.
  abbrev pub scanned : {A : Type 0} → Scanned A → Assembly A
  scanned (done a) = built a
  scanned (broken _) = refused undecodable_record
  scanned panicked = refused undecodable_record
  scanned endless = refused undecodable_record

  -- AbortUpload(bucket, key, uploadID): the parts whose blobs are deleted
  pub abort_upload : Txn → Bytes → Bytes → Bytes → Assembly (List Part × Txn)
  unfolding find_upload
  abort_upload tx bucket key upload_id = elim (find_upload tx bucket key upload_id) [
    | refused e ↦ refused e
    | built u ↦ scanned (delete_upload kv parts tx u)
  ]

  -- The number of a part, and the transaction of UploadPart: the part that it replaces.
  pub attach_part : Txn → Bytes → Bytes → Bytes → Part → Assembly (Option Part × Txn)
  attach_part tx bucket key upload_id p = elim (get_upload kv uploads tx bucket key upload_id) [
    | failed _ ↦ refused no_such_upload
    | ok _ ↦ built (put_part kv parts tx bucket upload_id p)
  ]

  -- UploadPart(in): `written` is the part of the body, with its checksum, or none where that is refused.
  pub upload_part :
      Txn
      → Txn
      → Bytes
      → Bytes
      → Bytes
      → ℤ
      → SseRequest
      → (Upload → Option Part)
      → Assembly (Option Part × Txn)
  unfolding find_upload attach_part check_ssec_params
  upload_part view tx bucket key upload_id number sse written =
      if lt_int number (pos 1) || lt_int (pos 10000) number
      then refused invalid_part_number
      else elim (find_upload view bucket key upload_id) [
        | refused e ↦ refused e
        | built u ↦ checked (check_ssec_params u.sse sse) (elim (written u) [
          | none ↦ refused body_refused
          | some p ↦ attach_part tx bucket key upload_id (record p { number = number })
        ])
      ]

  -- Service.ListParts(bucket, key, uploadID, marker, max), and whether there are more
  pub list_upload_parts :
      Txn → Txn → Bytes → Bytes → Bytes → ℤ → ℤ → Assembly (Upload × (List Part × Bool))
  unfolding find_upload
  list_upload_parts view tx bucket key upload_id marker max =
      let size : ℕ = elim max [
        | pos n ↦ if ltb 0 n && not (ltb 1000 n) then n else 1000
        | negsuc _ ↦ 1000
      ] in
      elim (find_upload view bucket key upload_id) [
        | refused e ↦ refused e
        | built u ↦
            elim (scanned (list_parts kv parts tx bucket upload_id marker (pos (size + 1)))) [
              | refused e ↦ refused e
              | built ps ↦ built (u, (take size ps, ltb size (length ps)))
            ]
      ]

  module _ (go : Go) (d : Digests) where
    -- The end of the transaction: the upload goes and the object is stored.
    pub store_completed : Txn → Upload → Object → Assembly (Completed Txn)
    unfolding unused_parts
    store_completed tx u o = elim (scanned (delete_upload kv parts tx u)) [
      | refused e ↦ refused e
      | built (all, after) ↦ built (record {
        tx = (put_object kv objects after o).1;
        object = o;
        replaced = (put_object kv objects after o).0;
        unused = unused_parts o.parts all;
      })
    ]

    abbrev pub condition_check : Txn → CompleteInput → Option MultipartError
    condition_check tx i =
        elim (check_write_conditions go (get_latest kv objects tx i.bucket i.key) i.conditions) [
          | none ↦ none
          | some e ↦ some (condition e)
        ]

    -- Behind the checks of the bucket and of the upload.
    pub complete_parts :
        Txn → CompleteInput → Upload → Bucket → List Part → Assembly (Completed Txn)
    unfolding store_completed
    complete_parts tx i u b stored = elim (assemble d c go i u stored) [
      | refused e ↦ refused e
      | built o ↦
          checked (condition_check tx i)
            (store_completed tx u (record o { version_id = version_id_for b o.seq c.random }))
    ]

    -- The transaction of CompleteUpload; `seen` is the bucket that was read before.
    pub complete_transaction : Txn → CompleteInput → Upload → Bucket → Assembly (Completed Txn)
    unfolding complete_parts bucket_error
    complete_transaction tx i u seen = elim (get_bucket kv buckets tx i.bucket) [
      | failed e ↦ refused (bucket_error e)
      | ok b ↦
          if not (same_bucket b seen) || not (bucket_expected c.expected b)
          then refused no_such_bucket
          else elim (get_upload kv uploads tx i.bucket i.key i.upload_id) [
            | failed _ ↦ refused no_such_upload
            | ok _ ↦ elim (scanned (list_parts kv parts tx i.bucket i.upload_id (pos 0) (pos 0))) [
              | refused e ↦ refused e
              | built stored ↦ complete_parts tx i u b stored
            ]
          ]
    ]

    -- CompleteUpload(actor, in): the upload and the bucket are read in transactions of their own.
    pub complete_upload : Txn → Txn → Txn → CompleteInput → Assembly (Completed Txn)
    unfolding find_upload complete_transaction check_ssec_params bucket_error
    complete_upload view view' tx i =
        if elim i.parts [ [] ↦ true | _ ∷ _ ↦ false ]
        then refused no_parts
        else elim (find_upload view i.bucket i.key i.upload_id) [
          | refused e ↦ refused e
          | built u ↦
              checked (check_ssec_params u.sse i.sse)
                (elim (get_live_bucket kv buckets view' i.bucket) [
                  | failed e ↦ refused (bucket_error e)
                  | ok seen ↦ complete_transaction tx i u seen
                ])
        ]
