-- ===== src/Lifecycle/Filters.antt =====
-- internal/lifecycle/config.go: the violations, `ValidTransitionClass`, `validateTags`, `validateSizes` and
-- `validateFilter`.
use opens.Prelude.{
  ℕ, ◌+◌, ℤ, pos, lt_int, le_int, Bool, true, false, not, ◌&&◌, ◌||◌, Option, none, some, List, [],
  ◌∷◌, Bytes, codes, eq_bytes, any, is_nil, length, ltb, fail_if, ◌⊳◌,
}
use opens.Lifecycle.Config.{Tag, And, Filter}

-- MalformedXML, InvalidArgument and InvalidRequest, with what the message is about.
pub data Violation : Type 0 where
  malformed : Violation
  bad_id_length duplicate_id bad_tag bad_size bad_date bad_noncurrent_days bad_newer_versions :
      Violation
  bad_initiation_days expiration_before_transition : Violation
  no_action duplicate_tag duplicate_class tags_forbidden mixed_days_and_dates : Violation

abbrev pub is_some {ℓ} : {A : Type ℓ} → Option A → Bool
is_some none = false
is_some (some _) = true

unfoldable pub contains : List Bytes → Bytes → Bool
contains seen x = any (λ y. eq_bytes y x) seen

-- ValidTransitionClass(sc)
unfoldable pub valid_transition_class : Bytes → Bool
unfolding contains
valid_transition_class sc =
    contains
      (codes "STANDARD_IA"
        ∷ codes "ONEZONE_IA"
        ∷ codes "INTELLIGENT_TIERING"
        ∷ codes "GLACIER"
        ∷ codes "GLACIER_IR"
        ∷ codes "DEEP_ARCHIVE"
        ∷ [])
      sc

-- validateTags(tags), with the keys seen so far
unfoldable pub validate_tags : List Bytes → List Tag → Option Violation
unfolding contains
validate_tags keys [] = none
validate_tags keys (t ∷ tags) =
    fail_if (is_nil t.key || (ltb 128 (length t.key) || ltb 256 (length t.value))) bad_tag
    ⊳ (fail_if (contains keys t.key) duplicate_tag ⊳ validate_tags (t.key ∷ keys) tags)

-- validateSizes(gt, lt)
pub validate_sizes : Option ℤ → Option ℤ → Option Violation
validate_sizes gt lt =
    fail_if (elim gt [ none ↦ false | some g ↦ lt_int g (pos 0) ]) bad_size
    ⊳ (fail_if (elim lt [ none ↦ false | some l ↦ le_int l (pos 0) ]) bad_size
        ⊳ fail_if
            (elim gt [ none ↦ false | some g ↦ elim lt [ none ↦ false | some l ↦ le_int l g ] ])
            bad_size)

unfoldable pub one_if : Bool → ℕ
one_if true = 1
one_if false = 0

pub validate_and : And → Option Violation
unfolding validate_tags validate_sizes
validate_and a =
    fail_if
      (not (is_some a.prefix)
        && (is_nil a.tags
            && (not (is_some a.object_size_greater_than) && not (is_some a.object_size_less_than))))
      malformed
    ⊳ (validate_tags [] a.tags ⊳ validate_sizes a.object_size_greater_than a.object_size_less_than)

-- validateFilter(f)
unfoldable pub validate_filter : Option Filter → Option Violation
unfolding validate_and one_if
validate_filter none = none
validate_filter (some f) =
    fail_if
      (ltb 1 (
        one_if (is_some f.prefix)
        + one_if (is_some f.tag)
        + one_if (is_some f.object_size_greater_than)
        + one_if (is_some f.object_size_less_than)
        + one_if (is_some f.and)))
      malformed
    ⊳ ((elim f.tag [ none ↦ none | some t ↦ validate_tags [] (t ∷ []) ])
        ⊳ (validate_sizes f.object_size_greater_than f.object_size_less_than
            ⊳ elim f.and [ none ↦ none | some a ↦ validate_and a ]))
