-- ===== src/Service/Put/Readable.antt =====
-- internal/object/put.go: what `PutObject` returns is stored.
use opens.Prelude.{
  ◌<◌, ◌≡◌, refl, sym, ap, subst, ◌∙◌, ◌⊎◌, inl, inr, ℤ, not, ◌||◌, Option, none, some, [], length,
  if_elim, option_elim,
}
use opens.Kv.{Engine}
use opens.Meta.Keys.{null_version_id, seq_from_version_id}
use opens.Meta.Types.{Time, Bucket, Object}
use opens.Meta.Store.{Codec, ok, get_bucket, get_version, put_object}
use opens.Meta.Store.Versions.{Consistent, get_version-put_object}
use opens.Service.Lock.{Go, bucket_expected}
use opens.Service.Conditions.{version_id_for, same_bucket, get_live_bucket}
use opens.Service.Conditions.Numbered.{version_id_for-numbered}
use opens.Service.Delete.{Context}
use opens.Service.Delete.Records.{result_elim}
use opens.Service.Put.{
  PutInput, PutError, Written, Outcome, refused, done, no_such_bucket, body_refused,
  attribute_checks, after_checks, key_checks, new_object, write_checks, committed, store_object,
  put_object_service,
}

module _ (kv : Engine) (objects : Codec Object) (tx : kv.Txn) (go : Go)
    (add_date : Time → ℤ → ℤ → Time) (buckets : Codec Bucket) (c : Context) (i : PutInput)
    (small : c.seq < 18446744073709551616) (digits : length c.random ≡ 16) where
  -- The version that is returned is found under its ID, and is of the bucket and key of the request.
  pub Readable : Outcome kv.Txn → Type 0
  Readable (refused e) = Unit
  Readable (done r) =
      (get_version kv objects r.tx i.bucket i.key r.object.version_id ≡ ok r.object)
      × (r.object.bucket ≡ i.bucket)
      × (r.object.key ≡ i.key)
      × (r.object.seq ≡ c.seq)

  refused-Readable : (e : PutError) → Readable (refused e)
  unfolding Readable
  refused-Readable e = tt

  after_checks-Readable :
      (checks : Option PutError) (next : Outcome kv.Txn)
      → Readable next
      → Readable (after_checks go add_date kv buckets objects c checks next)
  unfolding after_checks
  after_checks-Readable none next h = h
  after_checks-Readable (some e) next h = refused-Readable e

  committed-Readable :
      (o : Object)
      → Consistent o
      → o.bucket ≡ i.bucket
      → o.key ≡ i.key
      → o.seq ≡ c.seq
      → Readable (committed go add_date kv buckets objects c tx i o)
  unfolding Readable committed
  committed-Readable o consistent ob same_key os = (
    subst (λ b. get_version kv objects (put_object kv objects tx o).1 b i.key o.version_id ≡ ok o)
        ob
        (subst
          (λ k.
            get_version kv objects (put_object kv objects tx o).1 o.bucket k o.version_id ≡ ok o)
          same_key (get_version-put_object kv objects tx o consistent)),
    ob,
    same_key,
    os,
  )

  store_object-Readable :
      (seen : Bucket) (o : Object)
      → o.bucket ≡ i.bucket
      → o.key ≡ i.key
      → o.seq ≡ c.seq
      → Readable (store_object go add_date kv buckets objects c tx i seen o)
  unfolding store_object
  store_object-Readable seen o ob same_key os =
      result_elim Readable (get_bucket kv buckets tx i.bucket) _ _ (λ e _. refused-Readable _)
        (λ b' _.
          if_elim Readable (not (same_bucket b' seen) || not (bucket_expected c.expected b')) _ _
            (λ _. refused-Readable no_such_bucket)
            (λ _.
              let o' : Object = record o { version_id = version_id_for b' c.seq c.random } in
              after_checks-Readable (write_checks go add_date kv buckets objects c tx i o')
                (committed go add_date kv buckets objects c tx i o')
                (committed-Readable o'
                  (numbered b' (version_id_for-numbered b' c.seq c.random small digits)) ob same_key
                  os)))
    where
      numbered :
          (b' : Bucket)
          → (version_id_for b' c.seq c.random ≡ null_version_id)
            ⊎ (seq_from_version_id (version_id_for b' c.seq c.random) ≡ some c.seq)
          → Consistent (record o { version_id = version_id_for b' c.seq c.random })
      numbered b' (inl e) = inl e
      numbered b' (inr e) = inr (e ∙ ap some (sym os))

  -- A version that PutObject returns can be read back under the version ID that it has got, whether the
  -- bucket is versioned or not, and has the bucket, key and number of the request, if the number fits 64
  -- bits and the random part of an ID has sixteen digits.
  pub put_object_service-Readable :
      (view : kv.Txn) (written : Bucket → Option Written)
      → Readable (put_object_service go add_date kv buckets objects c view tx i written)
  unfolding put_object_service
  put_object_service-Readable view written =
      after_checks-Readable (key_checks go add_date kv buckets objects c i) _ (
        result_elim Readable (get_live_bucket kv buckets view i.bucket) _ _
          (λ e _. refused-Readable _)
          (λ b' _. after_checks-Readable (attribute_checks c.now b' i.attrs) _ (
            option_elim Readable (written b') _ _ (λ _. refused-Readable body_refused)
              (λ w _.
                let o = new_object go add_date kv buckets objects c i b' w [] in
                store_object-Readable b' o (own_bucket b' w) (own_key b' w) (own_seq b' w)))))
    where
      own_bucket :
          (b' : Bucket) (w : Written)
          → (new_object go add_date kv buckets objects c i b' w []).bucket ≡ i.bucket
      own_bucket b' w = unfold new_object in refl

      own_key :
          (b' : Bucket) (w : Written)
          → (new_object go add_date kv buckets objects c i b' w []).key ≡ i.key
      own_key b' w = unfold new_object in refl

      own_seq :
          (b' : Bucket) (w : Written)
          → (new_object go add_date kv buckets objects c i b' w []).seq ≡ c.seq
      own_seq b' w = unfold new_object in refl
