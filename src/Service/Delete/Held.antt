-- ===== src/Service/Delete/Held.antt =====
-- internal/object/delete.go: a version under compliance retention through `DeleteObject`.
use opens.Prelude.{
  ℕ, ◌<◌, ◌≡◌, ◌≢◌, refl, sym, subst, Bool, inl, inr, Option, some, List, ◌∷◌, Bytes, In, All,
  Option-cases,
}
use opens.Kv.{Engine}
use opens.Meta.Keys.{object_key}
use opens.Meta.Types.{Time, Bucket, Part, Object}
use opens.Meta.Store.{Codec, delete_version}
use opens.Meta.Store.Dropped.{NoSlash}
use opens.Service.Lock.{Go, DeleteError, valid_object_key, valid_object_key-NoNul}
use opens.Service.Held.{Compliant, Compliant-locked, Held}
use opens.Service.Sound.{
  Sound, Sound-Records, Sound-more, Sound-fresh, put_object-Sound, delete_version-Sound,
}
use opens.Service.Delete.{
  DeleteInput, Context, Outcome, refused, done, after_checks, marker, unchanged, with_marker,
  delete_object,
}
use opens.Service.Delete.Paths.{delete_object-holds}
use opens.Service.Delete.Locked.{KeptBy, delete_object-Kept}

module _ (kv : Engine) (objects : Codec Object) (t : Time) (b k : Bytes) (s : ℕ) (used : List ℕ)
    (tx : kv.Txn) (sound : Sound kv objects used tx) (held : Held kv objects t b k s tx) (go : Go)
    (buckets : Codec Bucket) (c : Context) (i : DeleteInput) (slash : NoSlash i.bucket)
    (small : c.seq < 18446744073709551616) (new : ¬ (In c.seq used)) (early : c.now < t) where
  -- What a deletion leaves behind.
  unfoldable pub Safe : Outcome kv.Txn → Type 0
  Safe (refused e) = Unit
  Safe (done r) = Sound kv objects (c.seq ∷ used) r.tx × Held kv objects t b k s r.tx

  SoundAfter : Outcome kv.Txn → Type 0
  SoundAfter (refused e) = Unit
  SoundAfter (done r) = Sound kv objects (c.seq ∷ used) r.tx

  refused-SoundAfter : (e : DeleteError) → SoundAfter (refused e)
  unfolding SoundAfter
  refused-SoundAfter e = tt

  unchanged-SoundAfter : SoundAfter (unchanged go kv buckets objects c tx)
  unfolding SoundAfter unchanged
  unchanged-SoundAfter = Sound-more kv objects used c.seq tx sound

  deleted-SoundAfter :
      (p : Object) (marked : Bool) (vid : Bytes) (removed : List Part)
      (event : Option (Bytes × Object))
      → SoundAfter (
          done (record {
            tx = delete_version kv tx p;
            delete_marker = marked;
            version_id = vid;
            removed = removed;
            event = event;
          }))
  unfolding SoundAfter
  deleted-SoundAfter p marked vid removed event =
      delete_version-Sound kv objects (c.seq ∷ used) tx p
        (Sound-more kv objects used c.seq tx sound)

  marker-SoundAfter :
      All (λ x. x ≢ 0) i.key
      → (vid : Bytes) (removed : List Part)
      → SoundAfter (with_marker go kv buckets objects c tx (marker c i vid) removed)
  unfolding SoundAfter with_marker marker
  marker-SoundAfter nul vid removed =
      put_object-Sound kv objects (c.seq ∷ used) tx (marker c i vid) (slash, nul, small, inl refl)
        (Sound-more kv objects used c.seq tx sound)

  refused_key :
      (e : DeleteError)
      → valid_object_key go i.key ≡ some e
      → delete_object go kv buckets objects c tx i ≡ refused e
  unfolding delete_object after_checks
  refused_key e f = rw f refl

  delete_object-SoundAfter : SoundAfter (delete_object go kv buckets objects c tx i)
  delete_object-SoundAfter = elim (Option-cases (valid_object_key go i.key)) [
    | inr (e, f) ↦ subst SoundAfter (sym (refused_key e f)) (refused-SoundAfter e)
    | inl f ↦
        delete_object-holds kv objects tx go buckets c i SoundAfter refused-SoundAfter
          unchanged-SoundAfter
          (λ p marked vid removed event _ _. deleted-SoundAfter p marked vid removed event)
          (λ vid removed _. marker-SoundAfter (valid_object_key-NoNul go i.key f) vid removed)
  ]

  -- A deletion leaves the store sound and the version held.
  pub delete_object-Safe : Safe (delete_object go kv buckets objects c tx i)
  unfolding Safe SoundAfter KeptBy
  delete_object-Safe =
      let (o, stored, lock) = held in
      let (e, locked) = Compliant-locked t c.now o i.bypass_governance lock early in
      both (delete_object go kv buckets objects c tx i) o lock stored delete_object-SoundAfter (
        delete_object-Kept kv objects tx b k s o stored (Sound-Records kv objects used tx sound) go
          buckets c i e locked
          (Sound-fresh kv objects used tx i.bucket i.key c.seq sound slash small new))
    where
      both :
          (r : Outcome kv.Txn) (o : Object)
          → Compliant t o
          → (stored : kv.get tx (object_key b k s) ≡ some (objects.encode o)) → SoundAfter r
          → KeptBy kv objects tx b k s o stored (Sound-Records kv objects used tx sound) r
          → Safe r
      both (refused e) o lock stored a h = tt
      both (done r) o lock stored a h = (a, (o, h, lock))
