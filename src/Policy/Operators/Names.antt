-- ===== src/Policy/Operators/Names.antt =====
-- How condition operators are written, and that `splitOperator` reads exactly these texts.
use opens.Prelude.{
  ℕ, zero, suc, ◌+◌, ◌-◌, ◌≡◌, ◌↔◌, refl, sym, ap, ◌∙◌, inl, inr, Bool, true, false, some, [], ◌∷◌,
  ◌++◌, Bytes, Map, codes, length, take, drop, eq_bytes, eq_bytes_sound, has_suffix, trim_suffix,
  index_byte, lookup, arith, all, take-append-drop, Bool-cases, Option-cases,
}
use mathlib.Core.List.{append-nil, append_assoc}
use native.Mathlib.Numerals.{add-one}
use opens.Policy.Operators.{
  Operator, string_equals, string_not_equals, string_equals_ignore_case,
  string_not_equals_ignore_case, string_like, string_not_like, numeric_equals, numeric_not_equals,
  numeric_less_than, numeric_less_than_equals, numeric_greater_than, numeric_greater_than_equals,
  date_equals, date_not_equals, date_less_than, date_less_than_equals, date_greater_than,
  date_greater_than_equals, bool, binary_equals, ip_address, not_ip_address, arn_equals, arn_like,
  arn_not_equals, arn_not_like, null, Modifier, single, for_any_value, for_all_values, Condition,
  operators, split_base, split_operator,
}

-- How a condition operator is written in a policy.
operator_name : Operator → Bytes
operator_name string_equals = codes "StringEquals"
operator_name string_not_equals = codes "StringNotEquals"
operator_name string_equals_ignore_case = codes "StringEqualsIgnoreCase"
operator_name string_not_equals_ignore_case = codes "StringNotEqualsIgnoreCase"
operator_name string_like = codes "StringLike"
operator_name string_not_like = codes "StringNotLike"
operator_name numeric_equals = codes "NumericEquals"
operator_name numeric_not_equals = codes "NumericNotEquals"
operator_name numeric_less_than = codes "NumericLessThan"
operator_name numeric_less_than_equals = codes "NumericLessThanEquals"
operator_name numeric_greater_than = codes "NumericGreaterThan"
operator_name numeric_greater_than_equals = codes "NumericGreaterThanEquals"
operator_name date_equals = codes "DateEquals"
operator_name date_not_equals = codes "DateNotEquals"
operator_name date_less_than = codes "DateLessThan"
operator_name date_less_than_equals = codes "DateLessThanEquals"
operator_name date_greater_than = codes "DateGreaterThan"
operator_name date_greater_than_equals = codes "DateGreaterThanEquals"
operator_name bool = codes "Bool"
operator_name binary_equals = codes "BinaryEquals"
operator_name ip_address = codes "IpAddress"
operator_name not_ip_address = codes "NotIpAddress"
operator_name arn_equals = codes "ArnEquals"
operator_name arn_like = codes "ArnLike"
operator_name arn_not_equals = codes "ArnNotEquals"
operator_name arn_not_like = codes "ArnNotLike"
operator_name null = codes "Null"

modifier_name : Modifier → Bytes
modifier_name single = []
modifier_name for_any_value = codes "ForAnyValue:"
modifier_name for_all_values = codes "ForAllValues:"

abbrev suffix_name : Bool → Bytes
suffix_name true = codes "IfExists"
suffix_name false = []

pub print_operator : Condition → Bytes
unfolding operator_name modifier_name
print_operator c = modifier_name c.modifier ++ (operator_name c.base ++ suffix_name c.if_exists)

split-print_parts :
    (o : Operator) (m : Modifier) (b : Bool)
    → split_operator (modifier_name m ++ (operator_name o ++ suffix_name b))
      ≡ some (record { base = o; modifier = m; if_exists = b })
unfolding split_operator modifier_name operator_name index_byte eq_bytes has_suffix trim_suffix
    lookup
split-print_parts string_equals single true = refl
split-print_parts _ single true = refl
split-print_parts string_equals single false = refl
split-print_parts _ single false = refl
split-print_parts string_equals for_any_value true = refl
split-print_parts _ for_any_value true = refl
split-print_parts string_equals for_any_value false = refl
split-print_parts _ for_any_value false = refl
split-print_parts string_equals for_all_values true = refl
split-print_parts _ for_all_values true = refl
split-print_parts string_equals for_all_values false = refl
split-print_parts _ for_all_values false = refl

lookup-all :
    {V : Type 0} (f : Bytes × V → Bool) (k : Bytes) (v : V) (m : Map V)
    → all f m ≡ true
    → lookup k m ≡ some v
    → f (k, v) ≡ true
unfolding lookup all
lookup-all f k v [] h e = ground arith
lookup-all f k v ((j, w) ∷ m) h e = ground (arith, eq_bytes_sound j k, lookup-all f k v m)

lookup-operators : (k : Bytes) (o : Operator) → lookup k operators ≡ some o → k ≡ operator_name o
lookup-operators k o e = eq_bytes_sound k (operator_name o) (
    lookup-all (λ e. eq_bytes e.0 (operator_name e.1)) k o operators
      (unfold all eq_bytes operator_name in refl) e)

trim_suffix-append : (s t : Bytes) → has_suffix s t ≡ true → s ≡ trim_suffix s t ++ t
unfolding trim_suffix
trim_suffix-append s t h = rw h (
    ground (
      arith,
      take-append-drop (length s - length t) s,
      eq_bytes_sound (drop (length s - length t) s) t,
    ))

index_byte-split :
    (s : Bytes) (c i : ℕ) → index_byte s c ≡ some i → s ≡ take i s ++ c ∷ drop (suc i) s
unfolding index_byte
index_byte-split [] c i h = ground arith
index_byte-split (x ∷ s) c zero h = ground arith
index_byte-split (x ∷ s) c (suc i) h = ground (arith, index_byte-split s c i)

trimmed-names :
    (op : Bytes) (o : Operator)
    → lookup (trim_suffix op (codes "IfExists")) operators ≡ some o
    → op ≡ operator_name o ++ suffix_name (has_suffix op (codes "IfExists"))
trimmed-names op o h = elim (Bool-cases (has_suffix op (codes "IfExists"))) [
  | inl has ↦ rw has (
      trim_suffix-append op (codes "IfExists") has
      ∙ ap (λ (b : Bytes). b ++ codes "IfExists") (lookup-operators _ o h))
  | inr bare ↦
      let same : trim_suffix op (codes "IfExists") ≡ op = unfold trim_suffix in rw bare in
      rw (bare, append-nil) (sym same ∙ lookup-operators _ o h)
]

split_base-names :
    (m : Modifier) (op : Bytes) (c : Condition)
    → split_base m op ≡ some c
    → (c.modifier ≡ m) × (op ≡ operator_name c.base ++ suffix_name c.if_exists)
unfolding split_base
split_base-names m op c h =
    elim (Option-cases (lookup (trim_suffix op (codes "IfExists")) operators)) [
      | inl e ↦ ground arith
      | inr (o, e) ↦ ground (arith, trimmed-names op o e)
    ]

split_base-print :
    (m : Modifier) (pre rest op : Bytes) (c : Condition)
    → modifier_name m ≡ pre ++ b':' ∷ []
    → op ≡ pre ++ b':' ∷ rest
    → split_base m rest ≡ some c
    → op ≡ print_operator c
unfolding print_operator
split_base-print m pre rest op c named e h =
    let (same, names) = split_base-names m rest c h in
    cc (append_assoc pre (b':' ∷ []) (operator_name c.base ++ suffix_name c.if_exists))

split_operator-names :
    (op : Bytes) (c : Condition) → split_operator op ≡ some c → op ≡ print_operator c
unfolding split_operator print_operator
split_operator-names op c h = elim (Option-cases (index_byte op b':')) [
  | inl e ↦ ground (arith, split_base-names single op c)
  | inr (i, e) ↦
      let parts : op ≡ take i op ++ b':' ∷ drop (i + 1) op =
        rw add-one (index_byte-split op b':' i e) in
      ground (
        arith,
        eq_bytes_sound (take i op) (codes "ForAnyValue"),
        eq_bytes_sound (take i op) (codes "ForAllValues"),
        split_base-print for_any_value (take i op) (drop (i + 1) op) op c,
        split_base-print for_all_values (take i op) (drop (i + 1) op) op c,
        parts,
      )
]

-- A text is read as a condition operator exactly when it is that operator's name, written with its
-- set modifier before it and `IfExists` behind it.
pub split_operator_iff :
    (op : Bytes) (c : Condition) → (split_operator op ≡ some c) ↔ (op ≡ print_operator c)
split_operator_iff op c = (
  split_operator-names op c,
  λ e. rw e (unfold print_operator in split-print_parts c.base c.modifier c.if_exists),
)
