-- ===== src/Service/Update/Held.antt =====
-- internal/object/tagging.go: a version under compliance retention through every update of a version.
use opens.Prelude.{
  ℕ, ◌≤◌, ◌<◌, ◌≡◌, ◌⊎◌, refl, sym, ap, subst, ◌∙◌, inl, inr, Bool, true, false, not, ◌&&◌, ◌||◌,
  Option, none, some, List, [], Bytes, In, codes, eq_bytes, eq_bytes_sound, eq_bytes_refl, is_nil,
  ltb, arith, Bool-cases, Option-cases, if_elim,
}
use mathlib.Core.Option.{some-injective}
use opens.Kv.{Engine}
use opens.Kv.Reads.{get-put_same}
use opens.Meta.Keys.{object_key}
use opens.Iam.Types.{Acl}
use opens.Meta.Types.{Time, Tag, Retention, Bucket, Object}
use opens.Meta.Store.{Codec, get_version}
use opens.Meta.Store.Dropped.{NoSlash}
use opens.Meta.Latest.{get_latest}
use opens.Meta.Listing.Forward.{NoNul}
use opens.Service.Lock.{Go, object_expected}
use opens.Service.Delete.{Context, live_bucket}
use opens.Service.Delete.Records.{result_elim}
use opens.Service.Sound.{Sound, Fit, put_record-Sound}
use opens.Service.Update.{
  UpdateError, Change, VersionName, Outcome, refused, done, update_found, update_version,
  change_retention, shortening, changed, after_checks, put_object_tagging, delete_object_tagging,
  put_object_acl, put_object_retention, put_object_legal_hold, method_not_allowed,
}
use opens.Service.Update.Own.{Own, get_latest-Own, get_version-Own}
use opens.Service.Held.{Compliant, Held}

-- A change that keeps bucket, key and number, and compliance retention.
abbrev pub Keeps : Time → Change → Type 0
Keeps t fn =
    (o o' : Object)
    → fn o ≡ inr o'
    → (o'.bucket ≡ o.bucket)
      × (o'.key ≡ o.key)
      × (o'.seq ≡ o.seq)
      × (Compliant t o → Compliant t o')

-- A change that always happens, and leaves the retention alone.
plain-Keeps :
    (t : Time) (f : Object → Object)
    → ((o : Object)
        → ((f o).bucket ≡ o.bucket)
          × ((f o).key ≡ o.key)
          × ((f o).seq ≡ o.seq)
          × ((f o).retention ≡ o.retention))
    → Keeps t (λ o. inr (f o))
plain-Keeps t f same o o' e =
    let made : f o ≡ o' = ap (λ (x : UpdateError ⊎ Object). elim x [ inr y ↦ y | inl _ ↦ f o ]) e in
    let (b, k, s, r) = same o in
    (
      ap (λ (q : Object). q.bucket) (sym made) ∙ b,
      ap (λ (q : Object). q.key) (sym made) ∙ k,
      ap (λ (q : Object). q.seq) (sym made) ∙ s,
      λ (cur, ec, em, le). (cur, ap (λ (q : Object). q.retention) (sym made) ∙ r ∙ ec, em, le),
    )

-- What a change of retention that is not refused has made.
change_retention-changed :
    (now : Time) (r : Option Retention) (bypass : Bool) (o o' : Object)
    → change_retention now r bypass o ≡ inr o'
    → (o' ≡ record o { retention = r })
      × ((cur : Retention)
          → o.retention ≡ some cur
          → ltb now cur.retain_until ≡ true
          → eq_bytes cur.mode (codes "COMPLIANCE") ≡ true
          → shortening r cur ≡ false)
unfolding change_retention
change_retention-changed now r bypass o o' e = elim (Option-cases o.retention) [
  | inl f ↦ (ground arith, λ cur g. ground arith)
  | inr (old, f) ↦ (
    elim (Bool-cases (
        ltb now old.retain_until
        && (shortening r old && (eq_bytes old.mode (codes "COMPLIANCE") || not bypass)))) [
          | inl b ↦ ground arith
          | inr b ↦ ground arith
        ],
    λ cur g l m.
        let same : old ≡ cur = some-injective _ _ (sym f ∙ g) in
        let l' : ltb now old.retain_until ≡ true =
          ap (λ (q : Retention). ltb now q.retain_until) same ∙ l in
        let m' : eq_bytes old.mode (codes "COMPLIANCE") ≡ true =
          ap (λ (q : Retention). eq_bytes q.mode (codes "COMPLIANCE")) same ∙ m in
        elim (Bool-cases (shortening r old)) [
          | inl x ↦ absurd (ground arith)
          | inr x ↦ ap (shortening r) (sym same) ∙ x
        ],
  )
]

not_shortening :
    (r : Option Retention) (cur : Retention)
    → shortening r cur ≡ false
    → (new : Retention) × (r ≡ some new)
      × (new.mode ≡ cur.mode)
      × (cur.retain_until ≤ new.retain_until)
unfolding shortening
not_shortening none cur h = ground arith
not_shortening (some new) cur h =
    (new, refl, eq_bytes_sound new.mode cur.mode (ground arith), ground arith)

pub change_retention-Keeps :
    (t now : Time) (r : Option Retention) (bypass : Bool)
    → now < t
    → Keeps t (change_retention now r bypass)
change_retention-Keeps t now r bypass h o o' e =
    let (same, not_shorter) = change_retention-changed now r bypass o o' e in
    (
      ap (λ (q : Object). q.bucket) same,
      ap (λ (q : Object). q.key) same,
      ap (λ (q : Object). q.seq) same,
      λ (cur, ec, em, le).
          let (new, er, mode, longer) = not_shortening r cur (
            not_shorter cur ec (ground (arith, le, h)) (
              ap (λ m. eq_bytes m (codes "COMPLIANCE")) em ∙ eq_bytes_refl (codes "COMPLIANCE"))) in
          (new, ap (λ (q : Object). q.retention) same ∙ er, mode ∙ em, omega (arith, le, longer)),
    )

module _ (kv : Engine) (objects : Codec Object) (t : Time) (b k : Bytes) (s : ℕ) where
  module _ (used : List ℕ) (tx : kv.Txn) (sound : Sound kv objects used tx)
      (held : Held kv objects t b k s tx) where
    -- What an update leaves behind.
    unfoldable pub Safe : Outcome kv.Txn → Type 0
    Safe (refused e) = Unit
    Safe (done r) = Sound kv objects used r.tx × Held kv objects t b k s r.tx

    refused-Safe : (e : UpdateError) → Safe (refused e)
    unfolding Safe
    refused-Safe e = tt

    module _ (go : Go) (buckets : Codec Bucket) (c : Context) (n : VersionName)
        (slash : NoSlash n.bucket) (event : Option Bytes) (fn : Change) (keeps : Keeps t fn) where
      -- The version is put under its own key again.
      put_changed :
          (p o' : Object)
          → Own kv objects used tx sound n.bucket n.key slash p
          → fn p ≡ inr o'
          → Safe (
              done (record {
                tx = kv.put tx (object_key n.bucket n.key o'.seq) (objects.encode o');
                object = o';
                event = event;
              }))
      unfolding Safe
      put_changed p o' (pb, pk, (v, g, d), fit) e =
          let (eb, ek, es, compliant) = keeps p o' e in
          let at : object_key o'.bucket o'.key o'.seq ≡ object_key n.bucket n.key o'.seq =
            λ z. object_key ((eb ∙ pb) z) ((ek ∙ pk) z) o'.seq in
          let own : object_key p.bucket p.key p.seq ≡ object_key n.bucket n.key o'.seq =
            λ z. object_key (pb z) (pk z) (sym es z) in
          let fit' : Fit used o' = (
            subst NoSlash (sym eb) fit.0,
            subst NoNul (sym ek) fit.1,
            subst (λ m. m < 18446744073709551616) (sym es) fit.2,
            subst (λ m. In m used) (sym es) fit.3,
          ) in
          (
            subst (λ x. Sound kv objects used (kv.put tx x (objects.encode o'))) at
                (put_record-Sound kv objects used tx o' fit' sound),
            held_behind p o' v (ap (kv.get tx) (sym own) ∙ g) d compliant,
          )
        where
          held_behind :
              (q q' : Object) (w : Bytes)
              → kv.get tx (object_key n.bucket n.key q'.seq) ≡ some w
              → objects.decode w ≡ some q
              → (Compliant t q → Compliant t q')
              → Held kv objects t b k s
                  (kv.put tx (object_key n.bucket n.key q'.seq) (objects.encode q'))
          held_behind q q' w g d compliant =
              let (o, stored, lock) = held in
              let x = object_key n.bucket n.key q'.seq in
              elim (Bool-cases (eq_bytes (object_key b k s) x)) [
                | inr f ↦ (
                  o,
                  ground (arith, kv.get_put tx x (objects.encode q') (object_key b k s)),
                  lock,
                )
                | inl f ↦
                    let at_x = eq_bytes_sound (object_key b k s) x f in
                    let same : o ≡ q = some-injective _ _ (
                      sym (objects.decode_encode o)
                      ∙ ap objects.decode
                          (some-injective _ _ (sym stored ∙ ap (kv.get tx) at_x ∙ g))
                      ∙ d) in
                    (
                      q',
                      ap (kv.get (kv.put tx x (objects.encode q'))) at_x
                          ∙ get-put_same kv tx x (objects.encode q'),
                      compliant (subst (λ y. Compliant t y) same lock),
                    )
              ]

      update_found-Safe :
          (p : Object)
          → Own kv objects used tx sound n.bucket n.key slash p
          → Safe (update_found go kv buckets objects c tx n event fn p)
      unfolding update_found
      update_found-Safe p own =
          if_elim Safe (not (object_expected c.expected p)) _ _ (λ _. refused-Safe changed)
            (λ _.
              if_elim Safe p.delete_marker _ _ (λ _. refused-Safe method_not_allowed)
                (λ _. made (fn p) refl))
        where
          made :
              (r : UpdateError ⊎ Object)
              → fn p ≡ r
              → Safe (elim r [
                | inl e ↦ refused e
                | inr o' ↦ done (record {
                  tx = kv.put tx (object_key n.bucket n.key o'.seq) (objects.encode o');
                  object = o';
                  event = event;
                })
              ])
          made (inl e) f = refused-Safe e
          made (inr o') f = put_changed p o' own f

      -- An update of any version leaves the store sound and the version held.
      pub update_version-Safe : Safe (update_version go kv buckets objects c tx n event fn)
      unfolding update_version
      update_version-Safe =
          result_elim Safe (live_bucket go kv buckets objects c tx n.bucket) _ _
            (λ e _. refused-Safe _)
            (λ _ _.
              if_elim Safe (is_nil n.version_id) _ _
                (λ _.
                  result_elim Safe (get_latest kv objects tx n.bucket n.key) _ _
                    (λ e _. refused-Safe _)
                    (λ p g.
                      update_found-Safe p
                        (get_latest-Own kv objects used tx sound n.bucket n.key slash p g)))
                (λ _.
                  result_elim Safe (get_version kv objects tx n.bucket n.key n.version_id) _ _
                    (λ e _. refused-Safe _)
                    (λ p g. update_found-Safe p (
                      get_version-Own kv objects used tx sound n.bucket n.key slash n.version_id p
                        g))))

    after_checks-Safe :
        (go : Go) (buckets : Codec Bucket) (c : Context) (checks : Option UpdateError)
        (next : Outcome kv.Txn)
        → Safe next
        → Safe (after_checks go kv buckets objects c checks next)
    unfolding after_checks
    after_checks-Safe go buckets c none next h = h
    after_checks-Safe go buckets c (some e) next h = refused-Safe e

    module _ (go : Go) (buckets : Codec Bucket) (c : Context) (n : VersionName)
        (slash : NoSlash n.bucket) where
      pub put_object_tagging-Safe :
          (tags : List Tag) → Safe (put_object_tagging go kv buckets objects c tx n tags)
      unfolding put_object_tagging
      put_object_tagging-Safe tags = after_checks-Safe go buckets c _ _ (
          update_version-Safe go buckets c n slash _ _
            (plain-Keeps t (λ o. record o { tags = tags }) (λ o. (refl, refl, refl, refl))))

      pub delete_object_tagging-Safe : Safe (delete_object_tagging go kv buckets objects c tx n)
      unfolding delete_object_tagging
      delete_object_tagging-Safe =
          update_version-Safe go buckets c n slash _ _
            (plain-Keeps t (λ o. record o { tags = [] }) (λ o. (refl, refl, refl, refl)))

      pub put_object_acl-Safe :
          (acl : Option Acl) → Safe (put_object_acl go kv buckets objects c tx n acl)
      unfolding put_object_acl
      put_object_acl-Safe acl =
          update_version-Safe go buckets c n slash _ _
            (plain-Keeps t (λ o. record o { acl = acl }) (λ o. (refl, refl, refl, refl)))

      pub put_object_legal_hold-Safe :
          (view : kv.Txn) (on : Bool)
          → Safe (put_object_legal_hold go kv buckets objects c view tx n on)
      unfolding put_object_legal_hold
      put_object_legal_hold-Safe view on = after_checks-Safe go buckets c _ _ (
          update_version-Safe go buckets c n slash _ _
            (plain-Keeps t (λ o. record o { legal_hold = on }) (λ o. (refl, refl, refl, refl))))

      pub put_object_retention-Safe :
          (view : kv.Txn) (r : Option Retention) (bypass : Bool)
          → c.now < t
          → Safe (put_object_retention go kv buckets objects c view tx n r bypass)
      unfolding put_object_retention
      put_object_retention-Safe view r bypass h =
          after_checks-Safe go buckets c _ _ (
            update_version-Safe go buckets c n slash _ _
              (change_retention-Keeps t c.now r bypass h))
