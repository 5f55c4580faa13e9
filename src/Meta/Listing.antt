-- ===== src/Meta/Listing.antt =====
-- internal/meta/store.go: `list`, behind ListObjects and ListVersions, with `hasLiveKey` and `afterKey`.
pub mod Forward
pub mod Page
pub mod Newest
pub mod Whole
use opens.Prelude.{
  ℕ, ◌+◌, ◌-◌, ℤ, pos, negsuc, Bool, true, false, not, ◌&&◌, ◌||◌, Option, none, some, List, [],
  ◌∷◌, ◌++◌, Bytes, eq_bytes, has_prefix, has_suffix, is_nil, length, take, drop, ltb, leb,
  if◌then◌else◌,
}
use mathlib.Core.Option
use opens.Kv.{Engine, lt_bytes, prefix_successor}
use opens.Meta.Keys.{
  null_version_id, object_bucket_prefix, object_scan_prefix, object_prefix, object_key, null_key,
  split_object_key, seq_from_version_id,
}
use opens.Meta.Types.{Object}
use opens.Meta.Store.{Codec, undecodable}
use opens.Meta.Scan.{
  Scanned, done, broken, panicked, endless, Move, next, jump, leave, scan, enough,
}

pub record ListOptions : Type 0 where
  pub prefix : Bytes
  pub delimiter : Bytes
  pub start_after : Bytes
  pub key_marker : Bytes
  pub version_marker : Bytes
  pub max_keys : ℤ

pub record ListEntry : Type 0 where
  pub object : Option Object
  pub common_prefix : Bytes
  pub is_latest : Bool

pub record ListResult : Type 0 where
  pub entries : List ListEntry
  pub is_truncated : Bool
  pub next_key : Bytes
  pub next_version : Bytes

-- The variables of the loop: `res` and `lastKey`.
pub record Listing : Type 0 where
  pub res : ListResult
  pub last_key : Bytes

abbrev pub empty_result : ListResult
empty_result = record { entries = []; is_truncated = false; next_key = []; next_version = [] }

-- if opt.MaxKeys <= 0 { opt.MaxKeys = 1000 }
unfoldable pub page_size : ℤ → ℕ
page_size (pos n) = if leb n 0 then 1000 else n
page_size (negsuc n) = 1000

-- indexOf(s, sub): bytes.Index, `none` for -1
unfoldable pub index_of : Bytes → Bytes → Option ℕ
index_of [] sub = if is_nil sub then some 0 else none
index_of (x ∷ s) sub =
    let later = Option.map (λ n. n + 1) (index_of s sub) in
    if has_prefix (x ∷ s) sub then some 0 else later

-- afterKey(bucket, marker, delimiter)
pub after_key : Bytes → Bytes → Bytes → Option Bytes
after_key bucket marker delimiter =
    if not (is_nil delimiter) && has_suffix marker delimiter
    then prefix_successor (object_scan_prefix bucket marker)
    else prefix_successor (object_prefix bucket marker)

-- What the delimiter does with a key: nothing, a common prefix, or `key[len(opt.Prefix):]` is out of
-- range.
pub data Collapsed : Type 0 where
  single outside : Collapsed
  under : Bytes → Collapsed

unfoldable pub collapsed : ListOptions → Bytes → Collapsed
collapsed opt key =
    if is_nil opt.delimiter
    then single
    else if ltb (length key) (length opt.prefix)
    then outside
    else elim (index_of (drop (length opt.prefix) key) opt.delimiter) [
      | none ↦ single
      | some i ↦
          under (opt.prefix ++ take (i + length opt.delimiter) (drop (length opt.prefix) key))
    ]

-- One more entry, unless the page is full.
unfoldable pub add : ℕ → ListEntry → Bytes → Bytes → Listing → Option Listing
add max_keys entry key version st =
    if leb max_keys (length st.res.entries)
    then none
    else some (record {
      res = record {
        entries = st.res.entries ++ entry ∷ [];
        is_truncated = st.res.is_truncated;
        next_key = key;
        next_version = version;
      };
      last_key = st.last_key;
    })

-- res.IsTruncated = true; return res, nil
unfoldable pub truncated : Listing → Scanned Listing
truncated st = done (record st { res = record st.res { is_truncated = true } })

-- it.Seek(next), or the end of the loop if there is no successor or it is not below `bound`.
unfoldable pub jump_to : {S : Type 0} → Option Bytes → Bytes → S → Move S
jump_to none bound st = leave (done st)
jump_to (some k) bound st = if has_prefix k bound then jump k st else leave (done st)

module _ (kv : Engine) (objects : Codec Object) (tx : kv.Txn) (bucket : Bytes) where
  -- The loop of hasLiveKey.
  pub live_body : Bytes → Bytes → Bool → Move Bool
  unfolding jump_to
  live_body k v live = elim (split_object_key k) [
    | none ↦ next live
    | some name ↦
        if elim (objects.decode v) [ none ↦ false | some o ↦ not o.delete_marker ]
        then leave (done true)
        else jump_to (prefix_successor (object_prefix bucket name.key)) [] live
  ]

  -- hasLiveKey(tx, bucket, prefix)
  pub has_live_key : Bytes → Scanned Bool
  unfolding live_body
  has_live_key prefix =
      let p = object_scan_prefix bucket prefix in scan kv (enough kv tx) tx p live_body p false

  -- Where the listing starts; `none` for nil, where it is over at once.
  unfoldable pub start_of : ListOptions → Bool → Option Bytes
  unfolding after_key
  start_of opt false =
      if not (is_nil opt.start_after) && not (lt_bytes opt.start_after opt.prefix)
      then after_key bucket opt.start_after opt.delimiter
      else some (object_scan_prefix bucket opt.prefix)
  start_of opt true =
      if not (is_nil opt.key_marker) && not (lt_bytes opt.key_marker opt.prefix)
      then if is_nil opt.version_marker
        then after_key bucket opt.key_marker opt.delimiter
        else elim (seq_from_version_id opt.version_marker) [
          | some seq ↦ some (object_key bucket opt.key_marker seq ++ 0 ∷ [])
          | none ↦
              if eq_bytes opt.version_marker null_version_id
              then elim (kv.get tx (null_key bucket opt.key_marker)) [
                | some vk ↦ some ((object_prefix bucket opt.key_marker ++ vk) ++ 0 ∷ [])
                | none ↦ prefix_successor (object_prefix bucket opt.key_marker)
              ]
              else some (object_scan_prefix bucket opt.prefix)
        ]
      else some (object_scan_prefix bucket opt.prefix)

  module _ (opt : ListOptions) (versions : Bool) where
    -- Behind a common prefix that is listed or left out.
    pub skip_prefix : Bytes → Listing → Move Listing
    unfolding jump_to
    skip_prefix cp st =
        jump_to (prefix_successor (object_scan_prefix bucket cp)) (object_bucket_prefix bucket) st

    -- The common prefix, if it has a key that is listed.
    pub prefix_step : Bytes → Listing → Move Listing
    unfolding add truncated skip_prefix page_size has_live_key
    prefix_step cp st = elim (if versions then done true else has_live_key cp) [
      | broken e ↦ leave (broken e)
      | panicked ↦ leave panicked
      | endless ↦ leave endless
      | done false ↦ skip_prefix cp st
      | done true ↦
          elim (add (page_size opt.max_keys)
            (record { object = none; common_prefix = cp; is_latest = false }) cp [] st) [
              | none ↦ leave (truncated st)
              | some st' ↦ skip_prefix cp st'
            ]
    ]

    -- A record of ListVersions.
    unfoldable pub version_step : Bytes → Object → Listing → Move Listing
    unfolding add truncated page_size
    version_step key o st =
        let st' : Listing = record st { last_key = key } in
        elim (add (page_size opt.max_keys)
          (record {
            object = some o;
            common_prefix = [];
            is_latest = not (eq_bytes key st.last_key);
          })
          o.key o.version_id st') [ none ↦ leave (truncated st') | some more ↦ next more ]

    -- The newest record of a key of ListObjects; the others are skipped.
    pub latest_step : Bytes → Object → Listing → Move Listing
    unfolding add truncated page_size jump_to
    latest_step key o st =
        let st' : Listing = record st { last_key = key } in
        let after = prefix_successor (object_prefix bucket key) in
        if o.delete_marker
        then jump_to after [] st'
        else elim (add (page_size opt.max_keys)
            (record { object = some o; common_prefix = []; is_latest = true }) o.key
            st.res.next_version st') [
              | none ↦ leave (truncated st')
              | some more ↦ jump_to after [] more
            ]

    -- The body of the loop of list.
    unfoldable pub list_body : Bytes → Bytes → Listing → Move Listing
    unfolding collapsed prefix_step version_step latest_step
    list_body k v st = elim (split_object_key k) [
      | none ↦ next st
      | some name ↦ elim (collapsed opt name.key) [
        | outside ↦ leave panicked
        | under cp ↦ prefix_step cp st
        | single ↦ elim (objects.decode v) [
          | none ↦ leave (broken undecodable)
          | some o ↦ if versions then version_step name.key o st else latest_step name.key o st
        ]
      ]
    ]

    -- list(tx, bucket, opt, versions), with the variables that it ends with
    unfoldable pub list : Scanned Listing
    unfolding start_of list_body
    list =
        let st : Listing = record { res = empty_result; last_key = [] } in
        elim (start_of opt versions) [
          | none ↦ done st
          | some start ↦
              scan kv (enough kv tx) tx (object_scan_prefix bucket opt.prefix) list_body start st
        ]
