-- ===== src/Meta/Keys/Laws.antt =====
-- The order of record keys, and the sequencer.
use opens.Prelude.{
  ℕ, ◌≤◌, ◌<◌, ◌≡◌, ◌≢◌, sym, ap, ◌∙◌, [], ◌∷◌, ◌++◌, Bytes, All, codes, take, eq_bytes, ltb, arith,
}
use mathlib.Core.List.{append_assoc}
use mathlib.Core.Option.{some-injective}
use opens.Kv.{lt_bytes}
use opens.Kv.Bounds.{lt_bytes-append}
use opens.Meta.Hex.Laws.{room, lt_bytes-hex}
use opens.Meta.Keys.{
  separator, complement, ver_key, object_prefix, object_key, null_key, ObjectName, split_object_key,
  next,
}
use opens.Meta.Keys.Split.{split_object_key-object_key}

-- A record key is the prefix of its versions and the digits of one.
pub object_key-prefix :
    (bucket key : Bytes) (seq : ℕ)
    → object_key bucket key seq ≡ object_prefix bucket key ++ ver_key seq
unfolding object_key object_prefix
object_key-prefix bucket key seq =
    ap (λ s. codes "o/" ++ s)
      (sym (
        append_assoc bucket (b'/' ∷ (key ++ separator ∷ [])) (ver_key seq)
        ∙ ap (λ s. bucket ++ b'/' ∷ s) (append_assoc key (separator ∷ []) (ver_key seq))))

ver_key-order :
    (n m : ℕ)
    → n < 18446744073709551616
    → m < 18446744073709551616
    → lt_bytes (ver_key n) (ver_key m) ≡ ltb m n
unfolding ver_key room
ver_key-order n m h k =
    rw (lt_bytes-hex 16 (complement n) (complement m) (omega arith) (omega arith)) (ground arith)

-- Of two versions of a key, with numbers of 64 bits, the record of the newer one, with the larger
-- number, comes first.
pub object_key-order :
    (bucket key : Bytes) (n m : ℕ)
    → n < 18446744073709551616
    → m < 18446744073709551616
    → lt_bytes (object_key bucket key n) (object_key bucket key m) ≡ ltb m n
object_key-order bucket key n m h k =
    rw
      (
        object_key-prefix bucket key n,
        object_key-prefix bucket key m,
        lt_bytes-append (object_prefix bucket key) (ver_key n) (ver_key m),
      )
      (ver_key-order n m h k)

-- No two versions share a record key: bucket, key and number are told apart by it, if the buckets have
-- no slash in their names and the numbers fit 64 bits.
pub object_key-injective :
    (b b' k k' : Bytes) (n m : ℕ)
    → All (λ c. c ≢ b'/') b
    → All (λ c. c ≢ b'/') b'
    → n < 18446744073709551616
    → m < 18446744073709551616
    → object_key b k n ≡ object_key b' k' m
    → (b ≡ b') × (k ≡ k') × (n ≡ m)
object_key-injective b b' k k' n m s s' h h' e =
    let name : ObjectName = record { bucket = b; key = k; seq = n } in
    let other : ObjectName = record { bucket = b'; key = k'; seq = m } in
    let same : name ≡ other = some-injective _ _ (
      sym (split_object_key-object_key b k n s h)
      ∙ ap split_object_key e
      ∙ split_object_key-object_key b' k' m s' h') in
    (
      ap (λ (o : ObjectName). o.bucket) same,
      ap (λ (o : ObjectName). o.key) same,
      ap (λ (o : ObjectName). o.seq) same,
    )

-- A record is never a null pointer.
pub object_key-null_key : (b b' k k' : Bytes) (n : ℕ) → object_key b k n ≢ null_key b' k'
unfolding object_key null_key eq_bytes
object_key-null_key b b' k k' n e = ground (arith, ap (λ s. eq_bytes (take 1 s) (codes "o")) e)

-- Until the numbers run out, the sequencer returns a larger number each time, whatever the clock
-- says, and not less than the clock.
pub next-increases :
    (last now : ℕ)
    → last < 18446744073709551615
    → now < 18446744073709551616
    → (last < next last now) × (now ≤ next last now) × (next last now < 18446744073709551616)
unfolding next
next-increases last now h k = (ground arith, ground arith, ground arith)
