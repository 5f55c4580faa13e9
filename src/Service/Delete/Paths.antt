-- ===== src/Service/Delete/Paths.antt =====
-- The ways through `DeleteObject`: what holds of a refusal, of an unchanged store, of a deleted version that
-- is not locked, and of a delete marker, holds of its outcome.
use opens.Prelude.{
  ◌≡◌, refl, sym, ap, ◌∙◌, inl, inr, Bool, true, Option, none, some, List, [], Bytes, codes,
  eq_bytes, arith, if_elim, option_elim,
}
use mathlib.Core.Option.{some-injective}
use opens.Kv.{Engine}
use opens.Meta.Keys.{null_version_id, new_version_id, seq_from_version_id}
use opens.Meta.Types.{Bucket, Part, Object}
use opens.Meta.Store.{
  Codec, StoreError, not_found, exists, undecodable, ok, is_null, get_version, delete_version,
}
use opens.Meta.Latest.{get_latest}
use opens.Service.Lock.{
  Go, DeleteError, no_such_bucket, invalid_version, undecodable_record, check_locked,
  valid_object_key,
}
use opens.Service.Delete.{
  DeleteInput, Context, Outcome, refused, done, after_checks, marker, live_bucket, unchanged,
  version_checks, delete_found, delete_named, with_marker, missing_version, current_checks,
  insert_marker, replace_null, remove_current, by_versioning, delete_current, delete_object,
}
use opens.Service.Delete.Records.{
  Stored, Result-cases, ok-injective, numbered_marker, get_version-Stored, get_latest-Stored,
}

-- Checks that refuse, or let the rest happen.
pub after_checks-holds :
    {Txn : Type 0} (P : Outcome Txn → Type 0) (checks : Option DeleteError) (next : Outcome Txn)
    → ((e : DeleteError) → P (refused e))
    → (checks ≡ none → P next)
    → P (after_checks checks next)
unfolding after_checks
after_checks-holds P none next r h = h refl
after_checks-holds P (some x) next r h = r x

module _ (kv : Engine) (objects : Codec Object) (tx : kv.Txn) (go : Go) (buckets : Codec Bucket)
    (c : Context) (i : DeleteInput) (P : Outcome kv.Txn → Type 0)
    (of_refused : (e : DeleteError) → P (refused e))
    (of_unchanged : P (unchanged go kv buckets objects c tx))
    (of_deleted : (p : Object) (marked : Bool) (vid : Bytes) (removed : List Part)
        (event : Option (Bytes × Object))
      → Stored kv objects tx p
      → check_locked c.now p i.bypass_governance ≡ none
      → P (
          done (record {
            tx = delete_version kv tx p;
            delete_marker = marked;
            version_id = vid;
            removed = removed;
            event = event;
          })))
    (of_marker : (vid : Bytes) (removed : List Part)
      → (is_null (marker c i vid) ≡ true
          → (p : Object) → get_version kv objects tx i.bucket i.key null_version_id ≡ ok p
          → check_locked c.now p i.bypass_governance ≡ none)
      → P (with_marker go kv buckets objects c tx (marker c i vid) removed)) where
  delete_found-holds :
      (p : Object) → Stored kv objects tx p → P (delete_found go kv buckets objects c tx i p)
  unfolding delete_found version_checks
  delete_found-holds p m =
      after_checks-holds P (version_checks go kv buckets objects c i p) _ of_refused
        (λ n. of_deleted p _ _ _ _ m (ground arith))

  insert_marker-holds : P (insert_marker go kv buckets objects c tx i)
  unfolding insert_marker
  insert_marker-holds =
      of_marker (new_version_id c.seq c.random) [] (λ n. ground (arith, numbered_marker c i))

  replace_null-holds : P (replace_null go kv buckets objects c tx i)
  unfolding replace_null
  replace_null-holds =
      elim (Result-cases (get_version kv objects tx i.bucket i.key null_version_id)) [
        | inl (x, f) ↦ rw (f, replace_null) (of_marker null_version_id [] (λ _ p g. ground arith))
        | inr (p, f) ↦
            rw (f, replace_null)
              (after_checks-holds P (check_locked c.now p i.bypass_governance) _ of_refused (λ n.
                of_marker null_version_id p.parts (λ _ q g.
                  ap (λ (z : Object). check_locked c.now z i.bypass_governance)
                    (ok-injective q p (sym g ∙ f))
                  ∙ n)))
      ]

  remove_current-holds :
      (cur : Option Object)
      → ((p : Object) → cur ≡ some p → Stored kv objects tx p)
      → P (remove_current go kv buckets objects c tx i cur)
  unfolding remove_current
  remove_current-holds none m = of_unchanged
  remove_current-holds (some p) m =
      after_checks-holds P (check_locked c.now p i.bypass_governance) _ of_refused
        (λ n. of_deleted p _ _ _ _ (m p refl) n)

  by_versioning-holds :
      (b' : Bucket) (cur : Option Object)
      → ((p : Object) → cur ≡ some p → Stored kv objects tx p)
      → P (by_versioning go kv buckets objects c tx i b' cur)
  unfolding by_versioning
  by_versioning-holds b' cur m =
      after_checks-holds P (current_checks go kv buckets objects c i cur) _ of_refused (λ _.
        if_elim P (eq_bytes b'.versioning (codes "Enabled"))
          (insert_marker go kv buckets objects c tx i) _ (λ _. insert_marker-holds)
          (λ _.
            if_elim P (eq_bytes b'.versioning (codes "Suspended"))
              (replace_null go kv buckets objects c tx i) _ (λ _. replace_null-holds)
              (λ _. remove_current-holds cur m)))

  missing_version-holds : (x : StoreError) → P (missing_version go kv buckets objects c tx i x)
  unfolding missing_version
  missing_version-holds not_found =
      if_elim P (eq_bytes i.version_id null_version_id) (unchanged go kv buckets objects c tx) _
        (λ _. of_unchanged)
        (λ _.
          option_elim P (seq_from_version_id i.version_id) (refused invalid_version) _
            (λ _. of_refused invalid_version) (λ _ _. of_unchanged))
  missing_version-holds exists = of_refused undecodable_record
  missing_version-holds undecodable = of_refused undecodable_record

  delete_named-holds : P (delete_named go kv buckets objects c tx i)
  unfolding delete_named
  delete_named-holds = elim (Result-cases (get_version kv objects tx i.bucket i.key i.version_id)) [
    | inl (x, f) ↦ rw (f, delete_named) (missing_version-holds x)
    | inr (p, f) ↦
        rw (f, delete_named)
          (delete_found-holds p (get_version-Stored kv objects tx i.bucket i.key i.version_id p f))
  ]

  delete_current-holds : (b' : Bucket) → P (delete_current go kv buckets objects c tx i b')
  unfolding delete_current
  delete_current-holds b' = elim (Result-cases (get_latest kv objects tx i.bucket i.key)) [
    | inl (not_found, f) ↦
        rw (f, delete_current) (by_versioning-holds b' none (λ p g. ground arith))
    | inl (exists, f) ↦ rw (f, delete_current) (of_refused undecodable_record)
    | inl (undecodable, f) ↦ rw (f, delete_current) (of_refused undecodable_record)
    | inr (p, f) ↦
        rw (f, delete_current)
          (by_versioning-holds b' (some p) (λ q g.
            get_latest-Stored kv objects tx i.bucket i.key q (f ∙ ap ok (some-injective _ _ g))))
  ]

  pub delete_object-holds : P (delete_object go kv buckets objects c tx i)
  unfolding delete_object
  delete_object-holds = after_checks-holds P (valid_object_key go i.key) _ of_refused (λ _.
      elim (Result-cases (live_bucket go kv buckets objects c tx i.bucket)) [
        | inl (not_found, f) ↦ rw f (of_refused no_such_bucket)
        | inl (exists, f) ↦ rw f (of_refused undecodable_record)
        | inl (undecodable, f) ↦ rw f (of_refused undecodable_record)
        | inr (b', f) ↦
            rw f (if_elim P _ _ _ (λ _. delete_named-holds) (λ _. delete_current-holds b'))
      ])
