-- ===== src/Service/Assemble.antt =====
-- internal/object/multipart.go: `assemble`, which builds an object from the parts of an upload. The hashes
-- of crypto/md5, encoding/hex and internal/checksum are a parameter.
pub mod Laws
pub mod Accepted
use opens.Prelude.{
  ℕ, zero, suc, ◌+◌, ◌-◌, ◌%◌, ℤ, pos, negsuc, lt_int, le_int, Bool, true, false, not, ◌&&◌, ◌||◌,
  Option, none, some, List, [], ◌∷◌, ◌++◌, Bytes, Map, codes, eq_bytes, is_nil, length, any, map,
  ltb, ◌==◌, if◌then◌else◌, fail_if, ◌⊳◌,
}
use opens.Meta.Types.{Part, Checksum, Upload, Object}
use opens.Meta.Uploads.{digits}
use opens.Service.Lock.{Go, DeleteError, etag_matches}
use opens.Service.Conditions.{Conditions, ConditionError}
use opens.Service.Delete.{Context}
use opens.Service.Put.{PutError}

-- hex.DecodeString up to the first error, the MD5 sum in hexadecimal, and the functions of
-- internal/checksum.
pub record Digests : Type 0 where
  pub hex_decode : Bytes → Bytes
  pub md5_hex : Bytes → Bytes
  pub normalize : Bytes → Bytes
  pub decode : Bytes → Bytes → Bytes
  pub encode : Bytes → Bytes
  pub combine_crc : Bytes → List Bytes → List ℤ → Option Bytes
  pub composite_of : Bytes → List Bytes → Option Bytes

abbrev pub min_part_size : ℤ
min_part_size = pos 5242880

abbrev pub max_object_size : ℤ
max_object_size = pos 5497558138880

pub record CompletePart : Type 0 where
  pub part_number : ℤ
  pub etag : Bytes
  pub checksum : Bytes

pub record ChecksumRequest : Type 0 where
  pub algorithm : Bytes
  pub value : Bytes

pub record SseRequest : Type 0 where
  pub customer_key : Option Bytes
  pub customer_key_md5 : Bytes

pub record CompleteInput : Type 0 where
  pub sse : SseRequest
  pub bucket : Bytes
  pub key : Bytes
  pub upload_id : Bytes
  pub parts : List CompletePart
  pub conditions : Conditions
  pub checksum : Option ChecksumRequest
  pub object_size : ℤ

pub data MultipartError : Type 0 where
  no_parts invalid_part_order invalid_part entity_too_small size_mismatch entity_too_large :
      MultipartError
  checksum_failed bad_digest : MultipartError
  sse_key_missing sse_key_differs sse_key_not_applicable : MultipartError
  no_such_bucket no_such_upload undecodable_record : MultipartError
  invalid_part_number body_refused : MultipartError
  invalid_key : DeleteError → MultipartError
  attributes : PutError → MultipartError
  unsupported_checksum full_object_unsupported : MultipartError
  condition : ConditionError → MultipartError

pub data Assembly (A : Type 0) : Type 0 where
  refused : MultipartError → Assembly A
  built : A → Assembly A

-- a == b, for Go's int
unfoldable pub eq_int : ℤ → ℤ → Bool
eq_int (pos a) (pos b) = a == b
eq_int (negsuc a) (negsuc b) = a == b
eq_int (pos a) (negsuc b) = false
eq_int (negsuc a) (pos b) = false

-- An int64 as its 64 bits in two's complement, and back.
pub bits : ℤ → ℕ
bits (pos n) = n % 18446744073709551616
bits (negsuc n) = 18446744073709551615 - n % 18446744073709551616

pub from_bits : ℕ → ℤ
from_bits n = if ltb n 9223372036854775808 then pos n else negsuc (18446744073709551615 - n)

-- a + b, for Go's int64
unfoldable pub add_int64 : ℤ → ℤ → ℤ
unfolding bits from_bits
add_int64 a b = from_bits ((bits a + bits b) % 18446744073709551616)

-- total += p.Size, over the parts from one on
unfoldable pub total_from : ℤ → List Part → ℤ
total_from sum [] = sum
total_from sum (p ∷ ps) = total_from (add_int64 sum p.size) ps

-- cp.PartNumber <= last, in the loop over the part list
unfoldable pub in_order : ℤ → List CompletePart → Bool
in_order last [] = true
in_order last (cp ∷ cps) = lt_int last cp.part_number && in_order cp.part_number cps

-- byNum[number]: the last part of that number
unfoldable pub by_number : List Part → ℤ → Option Part
unfolding eq_int
by_number [] number = none
by_number (p ∷ ps) number = elim (by_number ps number) [
  | some q ↦ some q
  | none ↦ if eq_int p.number number then some p else none
]

-- The checks of one entry of the list against the part of its number.
unfoldable pub part_checks : Go → Upload → Bool → CompletePart → Part → Option MultipartError
part_checks go u is_last cp p =
    fail_if (not (etag_matches go cp.etag p.etag) || eq_bytes cp.etag (codes "*")) invalid_part
    ⊳ (fail_if (not is_last && lt_int p.size min_part_size) entity_too_small
        ⊳ fail_if
            (not (is_nil u.checksum_algorithm)
              && (not (is_nil cp.checksum) && not (eq_bytes cp.checksum p.checksum)))
            invalid_part)

abbrev pub add_part : Part → Assembly (List Part) → Assembly (List Part)
add_part p (refused e) = refused e
add_part p (built ps) = built (p ∷ ps)

pub check_part : Option MultipartError → Part → Assembly (List Part) → Assembly (List Part)
check_part (some e) p rest = refused e
check_part none p rest = add_part p rest

abbrev pub is_last : List CompletePart → Bool
is_last [] = true
is_last (_ ∷ _) = false

-- The loop over the part list, with the parts that it finds.
pub choose : Go → Upload → List Part → List CompletePart → Assembly (List Part)
unfolding check_part
choose go u stored [] = built []
choose go u stored (cp ∷ cps) =
    let rest = choose go u stored cps in
    elim (by_number stored cp.part_number) [
      | none ↦ refused invalid_part
      | some p ↦ check_part (part_checks go u (is_last cps) cp p) p rest
    ]

-- The sizes, the limits of the whole object.
unfoldable pub size_checks : CompleteInput → List Part → Option MultipartError
size_checks i ps =
    fail_if
      (not (lt_int i.object_size (pos 0)) && not (eq_int i.object_size (total_from (pos 0) ps)))
      size_mismatch
    ⊳ fail_if (lt_int max_object_size (total_from (pos 0) ps)) entity_too_large

-- fmtETag(parts, md5hex)
pub fmt_etag : ℕ → Bytes → Bytes
fmt_etag zero md5_hex = md5_hex
fmt_etag (suc n) md5_hex = md5_hex ++ b'-' ∷ digits (n + 2) (n + 1)

module _ (d : Digests) (c : Context) where
  -- The bytes of the parts' ETags, which are hashed.
  pub md5s : List Part → Bytes
  md5s [] = []
  md5s (p ∷ ps) = d.hex_decode p.etag ++ md5s ps

  abbrev pub full_object : Upload → Bool
  full_object u = eq_bytes u.checksum_type (codes "FULL_OBJECT")

  abbrev pub composite : Upload → Bool
  composite u = eq_bytes u.checksum_type (codes "COMPOSITE")

  -- "-" and the number of parts, behind a composite checksum
  abbrev pub with_count : Upload → List Part → Bytes → Bytes
  with_count u ps value =
      if composite u then value ++ b'-' ∷ digits (length ps + 1) (length ps) else value

  -- The sum over the checksums of the parts.
  pub part_sums : Upload → List Part → Option Bytes
  part_sums u ps =
      let sums = map (λ (p : Part). d.decode u.checksum_algorithm p.checksum) ps in
      if full_object u
      then d.combine_crc u.checksum_algorithm sums (map (λ (p : Part). p.size) ps)
      else d.composite_of u.checksum_algorithm sums

  -- Whether the checksum that the client claims is another one.
  pub claim_differs : CompleteInput → Upload → List Part → Bytes → Bool
  claim_differs i u ps value = elim i.checksum [
    | none ↦ false
    | some r ↦
        not (is_nil r.value)
        && (eq_bytes (d.normalize r.algorithm) u.checksum_algorithm
            && not (
                eq_bytes (if any (λ b. b == b'-') r.value then r.value else with_count u ps r.value)
                  value))
  ]

  -- The checksum of the object.
  unfoldable pub whole_checksum : CompleteInput → Upload → List Part → Assembly (Option Checksum)
  unfolding part_sums claim_differs
  whole_checksum i u ps =
      if is_nil u.checksum_algorithm then built none else elim (part_sums u ps) [
        | none ↦ refused checksum_failed
        | some sum ↦
            let value = with_count u ps (d.encode sum) in
            if claim_differs i u ps value
            then refused bad_digest
            else built (
                some (record {
                  algorithm = u.checksum_algorithm;
                  value = value;
                  type = u.checksum_type;
                }))
      ]

  -- The object record, which has no version ID yet.
  pub assembled : CompleteInput → Upload → List Part → Option Checksum → Object
  assembled i u ps checksum = record {
    bucket = i.bucket;
    key = i.key;
    version_id = [];
    seq = c.seq;
    delete_marker = false;
    size = total_from (pos 0) ps;
    etag = fmt_etag (length ps) (d.md5_hex (md5s ps));
    mod_time = c.now;
    owner = u.owner;
    owner_display = u.owner_display;
    content_type = u.content_type;
    content_encoding = u.content_encoding;
    content_disposition = u.content_disposition;
    content_language = u.content_language;
    cache_control = u.cache_control;
    expires = u.expires;
    website_redirect = u.website_redirect;
    user_meta = u.user_meta;
    tags = u.tags;
    storage_class = u.storage_class;
    acl = u.acl;
    parts = ps;
    checksum = checksum;
    sse = u.sse;
    retention = u.retention;
    legal_hold = u.legal_hold;
    restore_expiry = none;
  }

  pub build : CompleteInput → Upload → List Part → Assembly Object
  unfolding assembled whole_checksum size_checks
  build i u ps = elim (size_checks i ps) [
    | some e ↦ refused e
    | none ↦ elim (whole_checksum i u ps) [
      | refused e ↦ refused e
      | built cs ↦ built (assembled i u ps cs)
    ]
  ]

  -- assemble(u, in, stored); the parts that it returns are those of the object
  unfoldable pub assemble : Go → CompleteInput → Upload → List Part → Assembly Object
  unfolding in_order choose build
  assemble go i u stored =
      if not (in_order (pos 0) i.parts)
      then refused invalid_part_order
      else elim (choose go u stored i.parts) [ refused e ↦ refused e | built ps ↦ build i u ps ]
