-- ===== src/Service/Put/Held.antt =====
-- internal/object/put.go: a version under compliance retention through `PutObject`.
use opens.Prelude.{
  ℕ, ◌<◌, ◌≡◌, ◌≢◌, refl, sym, ap, subst, inl, inr, ℤ, true, false, not, ◌||◌, Option, none, some,
  List, [], ◌∷◌, Bytes, In, All, arith, Option-cases, if_elim, option_elim, ⊳-none,
}
use opens.Kv.{Engine}
use opens.Meta.Keys.{null_version_id, object_key}
use opens.Meta.Types.{Time, Bucket, Object}
use opens.Meta.Store.{Codec, ok, is_null, get_bucket, get_version, put_object}
use opens.Meta.Store.Dropped.{NoSlash}
use opens.Service.Lock.{Go, valid_object_key, valid_object_key-NoNul, bucket_expected}
use opens.Service.Conditions.{version_id_for, same_bucket, get_live_bucket}
use opens.Service.Held.{Compliant, Compliant-locked, Held}
use opens.Service.Sound.{Sound, Sound-Records, Sound-more, Sound-fresh, put_object-Sound}
use opens.Service.Delete.{Context}
use opens.Service.Delete.Records.{result_elim}
use opens.Service.Delete.Kept.{put_object-Kept}
use opens.Service.Put.{
  PutInput, PutError, Written, Outcome, refused, done, no_such_bucket, body_refused,
  attribute_checks, after_checks, new_object, replaced_lock, store_object, put_object_service,
  write_checks, committed, key_checks,
}

module _ (kv : Engine) (objects : Codec Object) (t : Time) (b k : Bytes) (s : ℕ) (used : List ℕ)
    (tx : kv.Txn) (sound : Sound kv objects used tx) (held : Held kv objects t b k s tx) (go : Go)
    (add_date : Time → ℤ → ℤ → Time) (buckets : Codec Bucket) (c : Context) (i : PutInput)
    (slash : NoSlash i.bucket) (small : c.seq < 18446744073709551616) (new : ¬ (In c.seq used))
    (early : c.now < t) where
  -- What a write leaves behind.
  unfoldable pub Safe : Outcome kv.Txn → Type 0
  Safe (refused e) = Unit
  Safe (done r) = Sound kv objects (c.seq ∷ used) r.tx × Held kv objects t b k s r.tx

  refused-Safe : (e : PutError) → Safe (refused e)
  unfolding Safe
  refused-Safe e = tt

  after_checks-Safe :
      (checks : Option PutError) (next : Outcome kv.Txn)
      → (checks ≡ none → Safe next)
      → Safe (after_checks go add_date kv buckets objects c checks next)
  unfolding after_checks
  after_checks-Safe none next h = h refl
  after_checks-Safe (some e) next h = refused-Safe e

  module _ (o' : Object) (ob : o'.bucket ≡ i.bucket) (os : o'.seq ≡ c.seq)
      (nul : All (λ x. x ≢ 0) o'.key) where
    slash' : NoSlash o'.bucket
    slash' = subst NoSlash (sym ob) slash

    fresh : kv.get tx (object_key o'.bucket o'.key o'.seq) ≡ none
    fresh =
        subst (λ n. kv.get tx (object_key o'.bucket o'.key n) ≡ none) (sym os)
          (Sound-fresh kv objects used tx o'.bucket o'.key c.seq sound slash' small new)

    -- The null version that is replaced, if any, is not the one that is held.
    not_replaced :
        (o : Object)
        → Compliant t o
        → replaced_lock go add_date kv buckets objects c tx o' ≡ none
        → is_null o' ≡ true
        → ¬ (get_version kv objects tx o'.bucket o'.key null_version_id ≡ ok o)
    unfolding replaced_lock is_null
    not_replaced o lock h n g =
        let (e, f) = Compliant-locked t c.now o false lock early in ground arith

    stored-Held :
        replaced_lock go add_date kv buckets objects c tx o' ≡ none
        → Held kv objects t b k s (put_object kv objects tx o').1
    stored-Held h =
        let (o, stored, lock) = held in
        (
          o,
          put_object-Kept kv objects tx b k s o stored (Sound-Records kv objects used tx sound) o'
              (λ e. ground (arith, fresh, ap (kv.get tx) e)) (not_replaced o lock h),
          lock,
        )

    stored-Sound : Sound kv objects (c.seq ∷ used) (put_object kv objects tx o').1
    stored-Sound =
        put_object-Sound kv objects (c.seq ∷ used) tx o'
          (slash', nul, subst (λ n. n < 18446744073709551616) (sym os) small, inl (sym os))
          (Sound-more kv objects used c.seq tx sound)

  committed-Safe :
      (o' : Object)
      → o'.bucket ≡ i.bucket
      → o'.seq ≡ c.seq
      → All (λ x. x ≢ 0) o'.key
      → write_checks go add_date kv buckets objects c tx i o' ≡ none
      → Safe (committed go add_date kv buckets objects c tx i o')
  unfolding Safe committed write_checks
  committed-Safe o' ob os nul h = (
    stored-Sound o' ob os nul,
    stored-Held o' ob os nul (⊳-none _ (replaced_lock go add_date kv buckets objects c tx o') h).1,
  )

  store_object-Safe :
      (seen : Bucket) (o : Object)
      → o.bucket ≡ i.bucket
      → o.seq ≡ c.seq
      → All (λ x. x ≢ 0) o.key
      → Safe (store_object go add_date kv buckets objects c tx i seen o)
  unfolding store_object
  store_object-Safe seen o ob os nul =
      result_elim Safe (get_bucket kv buckets tx i.bucket) _ _ (λ e _. refused-Safe _)
        (λ b' _.
          if_elim Safe (not (same_bucket b' seen) || not (bucket_expected c.expected b')) _ _
            (λ _. refused-Safe no_such_bucket)
            (λ _.
              let o' : Object = record o { version_id = version_id_for b' c.seq c.random } in
              after_checks-Safe (write_checks go add_date kv buckets objects c tx i o')
                (committed go add_date kv buckets objects c tx i o')
                (λ n. committed-Safe o' ob os nul n)))

  -- A write leaves the store sound and the version held.
  pub put_object_service-Safe :
      (view : kv.Txn) (written : Bucket → Option Written)
      → Safe (put_object_service go add_date kv buckets objects c view tx i written)
  unfolding put_object_service key_checks
  put_object_service-Safe view written =
      after_checks-Safe (key_checks go add_date kv buckets objects c i) _ (λ valid.
        result_elim Safe (get_live_bucket kv buckets view i.bucket) _ _ (λ e _. refused-Safe _)
          (λ b' _. after_checks-Safe (attribute_checks c.now b' i.attrs) _ (λ _.
            option_elim Safe (written b') _ _ (λ _. refused-Safe body_refused)
              (λ w _.
                store_object-Safe b' (new_object go add_date kv buckets objects c i b' w [])
                  (own_bucket b' w) (own_seq b' w) (own_key b' w valid)))))
    where
      own_bucket :
          (b' : Bucket) (w : Written)
          → (new_object go add_date kv buckets objects c i b' w []).bucket ≡ i.bucket
      own_bucket b' w = unfold new_object in refl

      own_seq :
          (b' : Bucket) (w : Written)
          → (new_object go add_date kv buckets objects c i b' w []).seq ≡ c.seq
      own_seq b' w = unfold new_object in refl

      own_key :
          (b' : Bucket) (w : Written)
          → key_checks go add_date kv buckets objects c i ≡ none
          → All (λ x. x ≢ 0) (new_object go add_date kv buckets objects c i b' w []).key
      own_key b' w h = unfold new_object in valid_object_key-NoNul go i.key (no_error h)
        where
          no_error :
              key_checks go add_date kv buckets objects c i ≡ none
              → valid_object_key go i.key ≡ none
          no_error h = elim (Option-cases (valid_object_key go i.key)) [
            | inl e ↦ e
            | inr (x, e) ↦ ground arith
          ]
