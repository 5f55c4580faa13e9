-- ===== src/Service/Uploads/Laws.antt =====
-- internal/object/multipart.go: what `CompleteUpload` stores, and which parts it leaves to be deleted.
use opens.Prelude.{
  ◌<◌, ◌≡◌, refl, sym, none, subst, ◌⊎◌, inl, inr, pos, true, false, not, ◌||◌, some, List, [], ◌∷◌,
  In, any, eq_bytes, length, Option, Bool, Bool-cases, if◌then◌else◌, if_elim,
}
use opens.Kv.{Engine}
use opens.Meta.Types.{Part, Bucket, Object, Upload}
use opens.Meta.Store.{Codec, ok, failed, get_bucket, get_version, get_upload, put_object}
use opens.Meta.Store.Versions.{Consistent, get_version-put_object}
use opens.Meta.Scan.{Scanned, done, broken, panicked, endless}
use opens.Meta.Uploads.{list_parts, delete_upload}
use opens.Service.Lock.{Go, bucket_expected}
use opens.Service.Conditions.{version_id_for, same_bucket, get_live_bucket}
use opens.Service.Conditions.Numbered.{version_id_for-numbered}
use opens.Service.Delete.{Context}
use opens.Service.Delete.Records.{result_elim}
use opens.Service.Assemble.{
  Digests, CompleteInput, MultipartError, Assembly, refused, built, assemble, no_parts,
  no_such_bucket, undecodable_record,
}
use opens.Service.Assemble.Laws.{
  Assembled, Assembled-request, Assembled-version_id, assemble-Assembled,
}
use opens.Service.Uploads.{
  unused_parts, Completed, checked, bucket_error, find_upload, check_ssec_params, scanned,
  store_completed, condition_check, complete_parts, complete_transaction, complete_upload,
}

-- Whether an object with these parts uses the blob of the part.
abbrev pub uses_blob : List Part → Part → Bool
uses_blob used p = any (λ (q : Part). eq_bytes q.blob p.blob) used

unused_parts-left :
    (used all : List Part) (p : Part)
    → In p all
    → (uses_blob used p ≡ true) ⊎ In p (unused_parts used all)
unfolding unused_parts
unused_parts-left used [] p m = absurd m
unused_parts-left used (q ∷ all) p m = elim (Bool-cases (uses_blob used q)) [
  | inl e ↦ rw e (elim m [
    | inl same ↦ inl (subst (λ x. uses_blob used x ≡ true) same e)
    | inr t ↦ unused_parts-left used all p t
  ])
  | inr e ↦ rw e (elim m [
    | inl same ↦ inr (inl same)
    | inr t ↦ elim (unused_parts-left used all p t) [ inl u ↦ inl u | inr v ↦ inr (inr v) ]
  ])
]

unused_parts-In :
    (used all : List Part) (p : Part)
    → In p (unused_parts used all)
    → In p all × (uses_blob used p ≡ false)
unfolding unused_parts
unused_parts-In used [] p m = absurd m
unused_parts-In used (q ∷ all) p m = kept (uses_blob used q) refl (unused_parts-In used all p) m
  where
    kept :
        (b : Bool)
        → uses_blob used q ≡ b
        → (In p (unused_parts used all) → In p all × (uses_blob used p ≡ false))
        → In p (if b then unused_parts used all else q ∷ unused_parts used all)
        → In p (q ∷ all) × (uses_blob used p ≡ false)
    kept true e rest t = let (there, none_uses) = rest t in (inr there, none_uses)
    kept false e rest (inl same) = (inl same, subst (λ x. uses_blob used x ≡ false) same e)
    kept false e rest (inr t) = let (there, none_uses) = rest t in (inr there, none_uses)

module _ (kv : Engine) (buckets : Codec Bucket) (objects : Codec Object) (uploads : Codec Upload)
    (parts : Codec Part) (c : Context) (go : Go) (d : Digests) (view tx : kv.Txn)
    (i : CompleteInput) where
  -- The parts of an upload, told apart into those that the object uses and those that are returned.
  abbrev pub Divided : Upload → Completed kv.Txn → Type 0
  Divided u r =
      (all : List Part) × (after : kv.Txn) × (delete_upload kv parts tx u ≡ done (all, after))
      × ((p : Part) → In p all → (uses_blob r.object.parts p ≡ true) ⊎ In p r.unused)
      × ((p : Part) → In p r.unused → In p all × (uses_blob r.object.parts p ≡ false))

  -- What a request that completes an upload has done.
  pub Finished : Assembly (Completed kv.Txn) → Type 0
  Finished (refused e) = Unit
  Finished (built r) =
      (get_version kv objects r.tx i.bucket i.key r.object.version_id ≡ ok r.object)
      × ((u : Upload) × (find_upload kv buckets objects uploads parts c view i.bucket i.key
              i.upload_id
            ≡ built u)
          × (stored : List Part) × (list_parts kv parts tx i.bucket i.upload_id (pos 0) (pos 0)
              ≡ done stored)
          × Assembled go u stored d c i (built r.object)
          × Divided u r)

  refused-Finished : (e : MultipartError) → Finished (refused e)
  unfolding Finished
  refused-Finished e = tt

  checked-Finished :
      (checks : Option MultipartError) (next : Assembly (Completed kv.Txn))
      → Finished next
      → Finished (checked checks next)
  checked-Finished none next h = h
  checked-Finished (some e) next h = refused-Finished e

  store_completed-Finished :
      (u : Upload) (stored : List Part) (o : Object)
      → find_upload kv buckets objects uploads parts c view i.bucket i.key i.upload_id ≡ built u
      → list_parts kv parts tx i.bucket i.upload_id (pos 0) (pos 0) ≡ done stored
      → Assembled go u stored d c i (built o)
      → Consistent o
      → Finished (store_completed kv buckets objects uploads parts c go d tx u o)
  unfolding store_completed Finished
  store_completed-Finished u stored o opened listed a consistent =
      deleted (delete_upload kv parts tx u) refl
    where
      deleted :
          (r : Scanned (List Part × kv.Txn))
          → delete_upload kv parts tx u ≡ r
          → Finished (elim (scanned kv buckets objects uploads parts c r) [
            | refused e ↦ refused e
            | built (all, after) ↦ built (record {
              tx = (put_object kv objects after o).1;
              object = o;
              replaced = (put_object kv objects after o).0;
              unused = unused_parts o.parts all;
            })
          ])
      deleted (done (all, after)) e =
          let (in_bucket, under_key, _) = Assembled-request go u stored d c i o a in
          (
            subst
                (λ k.
                  get_version kv objects (put_object kv objects after o).1 i.bucket k o.version_id
                  ≡ ok o)
                under_key
                (subst
                  (λ b.
                    get_version kv objects (put_object kv objects after o).1 b o.key o.version_id
                    ≡ ok o)
                  in_bucket (get_version-put_object kv objects after o consistent)),
            (
              u,
              opened,
              stored,
              listed,
              a,
              (
                all,
                after,
                e,
                (λ p m. unused_parts-left o.parts all p m),
                (λ p m. unused_parts-In o.parts all p m),
              ),
            ),
          )
      deleted (broken x) e = refused-Finished undecodable_record
      deleted panicked e = refused-Finished undecodable_record
      deleted endless e = refused-Finished undecodable_record

  module _ (small : c.seq < 18446744073709551616) (digits : length c.random ≡ 16) where
    numbered :
        (b : Bucket) (o : Object)
        → o.seq ≡ c.seq
        → Consistent (record o { version_id = version_id_for b o.seq c.random })
    numbered b o seq =
        version_id_for-numbered b o.seq c.random
          (subst (λ n. n < 18446744073709551616) (sym seq) small) digits

    complete_parts-Finished :
        (u : Upload) (b : Bucket) (stored : List Part)
        → find_upload kv buckets objects uploads parts c view i.bucket i.key i.upload_id ≡ built u
        → list_parts kv parts tx i.bucket i.upload_id (pos 0) (pos 0) ≡ done stored
        → Finished (complete_parts kv buckets objects uploads parts c go d tx i u b stored)
    unfolding complete_parts
    complete_parts-Finished u b stored opened listed =
        assembled (assemble d c go i u stored) (assemble-Assembled go u stored d c i)
      where
        assembled :
            (r : Assembly Object)
            → Assembled go u stored d c i r
            → Finished (elim r [
              | refused e ↦ refused e
              | built o ↦ checked (condition_check kv buckets objects uploads parts c go d tx i) (
                  store_completed kv buckets objects uploads parts c go d tx u
                    (record o { version_id = version_id_for b o.seq c.random }))
            ])
        assembled (refused e) a = refused-Finished e
        assembled (built o) a =
            let o' : Object = record o { version_id = version_id_for b o.seq c.random } in
            let (_, _, seq) = Assembled-request go u stored d c i o a in
            checked-Finished (condition_check kv buckets objects uploads parts c go d tx i) _ (
              store_completed-Finished u stored o' opened listed
                (Assembled-version_id go u stored d c i o (version_id_for b o.seq c.random) a)
                (numbered b o seq))

    listed-Finished :
        (u : Upload) (b : Bucket) (r : Scanned (List Part))
        → find_upload kv buckets objects uploads parts c view i.bucket i.key i.upload_id ≡ built u
        → list_parts kv parts tx i.bucket i.upload_id (pos 0) (pos 0) ≡ r
        → Finished (elim (scanned kv buckets objects uploads parts c r) [
          | refused e ↦ refused e
          | built stored ↦ complete_parts kv buckets objects uploads parts c go d tx i u b stored
        ])
    listed-Finished u b (done stored) opened e = complete_parts-Finished u b stored opened e
    listed-Finished u b (broken x) opened e = refused-Finished undecodable_record
    listed-Finished u b panicked opened e = refused-Finished undecodable_record
    listed-Finished u b endless opened e = refused-Finished undecodable_record

    complete_transaction-Finished :
        (u : Upload) (seen : Bucket)
        → find_upload kv buckets objects uploads parts c view i.bucket i.key i.upload_id ≡ built u
        → Finished (complete_transaction kv buckets objects uploads parts c go d tx i u seen)
    unfolding complete_transaction
    complete_transaction-Finished u seen opened =
        result_elim Finished (get_bucket kv buckets tx i.bucket) _ _ (λ e _. refused-Finished _)
          (λ b _.
            if_elim Finished (not (same_bucket b seen) || not (bucket_expected c.expected b)) _ _
              (λ _. refused-Finished no_such_bucket)
              (λ _.
                result_elim Finished (get_upload kv uploads tx i.bucket i.key i.upload_id) _ _
                  (λ _ _. refused-Finished _)
                  (λ _ _.
                    listed-Finished u b
                      (list_parts kv parts tx i.bucket i.upload_id (pos 0) (pos 0)) opened refl)))

    -- CompleteUpload is refused, or the new version can be read back, it is assembled from the list of the
    -- request and the parts that are stored (each under the number and with the ETag that the list names, in
    -- the order of their numbers, all but the last of at least 5 MiB, together at most 5 TiB in 64 bits and
    -- the size that is stated), and each part that DeleteUpload has removed is used by the object or is
    -- returned to be deleted, but not both: if the sequence number fits 64 bits and the random part of an ID
    -- has sixteen digits.
    pub complete_upload-Finished :
        (view' : kv.Txn)
        → Finished (complete_upload kv buckets objects uploads parts c go d view view' tx i)
    unfolding complete_upload
    complete_upload-Finished view' =
        if_elim Finished (elim i.parts [ [] ↦ true | _ ∷ _ ↦ false ]) _ _
          (λ _. refused-Finished no_parts)
          (λ _.
            found (find_upload kv buckets objects uploads parts c view i.bucket i.key i.upload_id)
              refl)
      where
        found :
            (r : Assembly Upload)
            → find_upload kv buckets objects uploads parts c view i.bucket i.key i.upload_id ≡ r
            → Finished (elim r [
              | refused e ↦ refused e
              | built u ↦
                  checked
                    (check_ssec_params u.sse i.sse)
                    (elim (get_live_bucket kv buckets view' i.bucket) [
                      | failed e ↦ refused (bucket_error e)
                      | ok seen ↦
                          complete_transaction kv buckets objects uploads parts c go d tx i u seen
                    ])
            ])
        found (refused x) e = refused-Finished x
        found (built u) e = checked-Finished (check_ssec_params u.sse i.sse) _ (
            result_elim Finished (get_live_bucket kv buckets view' i.bucket) _ _
              (λ _ _. refused-Finished _) (λ seen _. complete_transaction-Finished u seen e))
