-- ===== src/Service/Lock.antt =====
-- internal/object/service.go and expect.go: object lock, ETag lists, valid keys, and what a request was
-- authorised against.
use opens.Prelude.{
  ℕ, ◌≡◌, ◌≢◌, false, All, arith, Bool, not, ◌&&◌, ◌||◌, Option, none, some, List, [], ◌∷◌, Bytes,
  codes, eq_bytes, has_prefix, is_nil, length, drop, any, ltb, ◌==◌, if◌then◌else◌, fail_if, ◌⊳◌,
}
use mathlib.Core.List.{reverse}
use opens.Meta.Types.{Time, Bucket, Object}

-- What the service uses of the Go library: utf8.ValidString and strings.TrimSpace.
pub record Go : Type 0 where
  pub valid_string : Bytes → Bool
  pub trim_space : Bytes → Bytes

pub data DeleteError : Type 0 where
  empty_key key_too_long invalid_object_name invalid_uri : DeleteError
  no_such_bucket invalid_version precondition_failed no_such_key changed undecodable_record :
      DeleteError
  legal_hold worm_protected : DeleteError

-- ValidObjectKey(key)
pub valid_object_key : Go → Bytes → Option DeleteError
valid_object_key go key =
    fail_if (is_nil key) empty_key
    ⊳ (fail_if (ltb 1024 (length key)) key_too_long
        ⊳ (fail_if (any (λ c. c == 0) key) invalid_object_name
            ⊳ fail_if (not (go.valid_string key)) invalid_uri))

-- checkLocked(o, bypassGovernance), at the time `now`
unfoldable pub check_locked : Time → Object → Bool → Option DeleteError
check_locked now o bypass_governance = fail_if o.legal_hold legal_hold ⊳ elim o.retention [
  | none ↦ none
  | some r ↦
      fail_if
        (ltb now r.retain_until && (eq_bytes r.mode (codes "COMPLIANCE") || not bypass_governance))
        worm_protected
]

-- strings.Split(list, ","), as the first part and the others
pub split_commas : Bytes → Bytes × List Bytes
split_commas [] = ([], [])
split_commas (c ∷ s) =
    let (first, rest) = split_commas s in
    if c == b',' then ([], first ∷ rest) else (c ∷ first, rest)

pub trim_left : ℕ → Bytes → Bytes
trim_left q [] = []
trim_left q (c ∷ s) = let rest = trim_left q s in if c == q then rest else c ∷ s

-- The body of the loop of etagMatches.
pub etag_of : Go → Bytes → Bytes
unfolding trim_left
etag_of go e =
    let t = go.trim_space e in
    let strong = if has_prefix t (codes "W/") then drop 2 t else t in
    reverse (trim_left b'"' (reverse (trim_left b'"' strong)))

-- etagMatches(list, etag)
unfoldable pub etag_matches : Go → Bytes → Bytes → Bool
unfolding split_commas etag_of
etag_matches go list etag =
    let (first, rest) = split_commas list in
    any (λ e. eq_bytes (etag_of go e) (codes "*") || eq_bytes (etag_of go e) etag) (first ∷ rest)

-- `expectation`, less the copy source; 0 is no expectation
pub record Expectation : Type 0 where
  pub bucket_created : Time
  pub object_seq : ℕ

-- bucketExpected, objectExpected
unfoldable pub bucket_expected : Expectation → Bucket → Bool
bucket_expected e b = e.bucket_created == 0 || b.created == e.bucket_created

pub object_expected : Expectation → Object → Bool
object_expected e o = e.object_seq == 0 || o.seq == e.object_seq

-- A valid key has no NUL byte.
any-NoNul : (key : Bytes) → any (λ c. c == 0) key ≡ false → All (λ c. c ≢ 0) key
unfolding any
any-NoNul [] h = tt
any-NoNul (c ∷ key) h = (ground arith, any-NoNul key (ground arith))

pub valid_object_key-NoNul :
    (go : Go) (key : Bytes) → valid_object_key go key ≡ none → All (λ c. c ≢ 0) key
unfolding valid_object_key
valid_object_key-NoNul go key h = any-NoNul key (ground arith)
