-- ===== src/Service/Get.antt =====
-- internal/object/get.go: `StatObject`, the window of bytes that `GetObject` serves, and the reader that
-- puts it together from the parts. A part's size is never negative, so it is a natural number here; a window
-- is written with its first byte and the one behind its last.
pub mod Reader
pub mod Served
use opens.Prelude.{
  ℕ, zero, suc, ◌+◌, ◌-◌, ℤ, pos, negsuc, Bool, true, false, not, ◌&&◌, ◌||◌, Option, none, some,
  List, [], ◌∷◌, Bytes, codes, eq_bytes, is_nil, length, ltb, leb, ◌==◌, if◌then◌else◌, fail_if,
  ◌⊳◌,
}
use opens.Kv.{Engine}
use opens.Meta.Types.{Part, Sse, Bucket, Object}
use opens.Meta.Store.{Codec, not_found, StoreError, Result, ok, failed, get_version}
use opens.Meta.Latest.{get_latest}
use opens.Service.Lock.{Go}
use opens.Service.Conditions.{Conditions, ConditionError, check_read_conditions, get_live_bucket}

-- A size, as a natural number.
abbrev pub size_of : ℤ → ℕ
size_of (pos n) = n
size_of (negsuc n) = 0

pub record Range : Type 0 where
  pub start : ℤ
  pub end : ℤ

pub record Window : Type 0 where
  pub start : ℕ
  pub stop : ℕ

pub data GetError : Type 0 where
  no_such_bucket no_such_version no_such_key undecodable_record : GetError
  delete_marker method_not_allowed : GetError
  condition : ConditionError → GetError
  invalid_part invalid_range : GetError
  sse_key_missing sse_key_not_applicable no_data_key : GetError

pub data Read (A : Type 0) : Type 0 where
  refused : GetError → Read A
  found : A → Read A

-- The sizes of the parts before the one of a number, which counts from 1.
pub size_before : ℕ → List Part → ℕ
size_before zero ps = 0
size_before (suc zero) ps = 0
size_before (suc (suc n)) [] = 0
size_before (suc (suc n)) (p ∷ ps) = size_of p.size + size_before (suc n) ps

-- p.o.Parts[number-1].Size
pub part_size : ℕ → List Part → ℕ
part_size zero ps = 0
part_size (suc n) [] = 0
part_size (suc zero) (p ∷ ps) = size_of p.size
part_size (suc (suc n)) (p ∷ ps) = part_size (suc n) ps

-- The part of that number.
pub part_window : ℕ → List Part → Window
unfolding size_before part_size
part_window number ps = record {
  start = size_before number ps;
  stop = size_before number ps + part_size number ps;
}

-- r.Start < 0: the last bytes
pub suffix_window : ℕ → ℕ → Window
suffix_window size n = record { start = if ltb size n then 0 else size - n; stop = size }

-- The end of a range from `start` on, where it is cut off.
pub range_stop : ℕ → ℤ → ℕ
range_stop size (negsuc _) = size
range_stop size (pos b) = if leb size b then size else b + 1

-- What is served of a range, none where that is InvalidRange.
pub range_window : ℕ → Range → Option Window
unfolding suffix_window range_stop
range_window size r = elim r.start [
  | negsuc k ↦ some (suffix_window size (k + 1))
  | pos a ↦
      if leb size a || leb (range_stop size r.end) a
      then none
      else some (record { start = a; stop = range_stop size r.end })
]

-- GetInput; a negative part number is none.
pub record GetInput : Type 0 where
  pub bucket : Bytes
  pub key : Bytes
  pub version_id : Bytes
  pub range : Option Range
  pub part_number : ℕ
  pub conditions : Conditions
  pub customer_key : Option Bytes

-- start, end := 0, o.Size-1, and the part or the range instead
unfoldable pub window : GetInput → Object → Read Window
unfolding part_window range_window
window i o =
    if ltb 0 i.part_number then found (part_window i.part_number o.parts) else elim i.range [
      | none ↦ found (record { start = 0; stop = size_of o.size })
      | some r ↦ elim (range_window (size_of o.size) r) [
        | none ↦ refused invalid_range
        | some w ↦ found w
      ]
    ]

abbrev pub read_after : {A : Type 0} → Option GetError → Read A → Read A
read_after (some e) next = refused e
read_after none next = next

-- What GetObject checks of the version before it looks at the range; `has_data_key` is whether
-- unwrapDEK succeeds.
pub get_checks : Go → GetInput → Object → Bool → Option GetError
get_checks go i o has_data_key =
    fail_if o.delete_marker (if is_nil i.version_id then delete_marker else method_not_allowed)
    ⊳ (elim (check_read_conditions go o i.conditions) [ none ↦ none | some e ↦ some (condition e) ]
        ⊳ (fail_if (ltb (length o.parts) i.part_number) invalid_part
            ⊳ (elim o.sse [
              | none ↦
                  fail_if (elim i.customer_key [ none ↦ false | some _ ↦ true ])
                    sse_key_not_applicable
              | some s ↦
                  fail_if
                    (eq_bytes s.type (codes "SSE-C")
                      && elim i.customer_key [ none ↦ true | some _ ↦ false ])
                    sse_key_missing
            ]
                ⊳ fail_if (not has_data_key) no_data_key)))

module _ (kv : Engine) (buckets : Codec Bucket) (objects : Codec Object) where
  -- keyErr
  pub key_error : Result Object → Read Object
  key_error (ok o) = found o
  key_error (failed not_found) = refused no_such_key
  key_error (failed _) = refused undecodable_record

  -- A version that was named.
  pub version_error : Result Object → Read Object
  version_error (ok o) = found o
  version_error (failed not_found) = refused no_such_version
  version_error (failed _) = refused undecodable_record

  -- StatObject(bucket, key, versionID)
  pub stat_object : kv.Txn → Bytes → Bytes → Bytes → Read Object
  unfolding key_error version_error
  stat_object tx bucket key version_id = elim (get_live_bucket kv buckets tx bucket) [
    | failed e ↦ refused (elim e [ not_found ↦ no_such_bucket | _ ↦ undecodable_record ])
    | ok _ ↦
        if is_nil version_id
        then key_error (get_latest kv objects tx bucket key)
        else version_error (get_version kv objects tx bucket key version_id)
  ]

  -- GetObject(in), with the window whose bytes are read
  pub get_object : Go → kv.Txn → GetInput → (Object → Bool) → Read (Object × Window)
  unfolding stat_object window get_checks
  get_object go tx i has_data_key = elim (stat_object tx i.bucket i.key i.version_id) [
    | refused e ↦ refused e
    | found o ↦
        read_after (get_checks go i o (has_data_key o))
          (elim (window i o) [ refused e ↦ refused e | found w ↦ found (o, w) ])
  ]
