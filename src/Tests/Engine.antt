-- ===== src/Tests/Engine.antt =====
-- An ordered key-value store in memory: a list of entries, of which the first for a key counts.
use opens.Prelude.{
  ◌≡◌, refl, ap, inl, inr, true, false, ◌||◌, Option, none, some, [], ◌∷◌, Bytes, Map, lookup,
  eq_bytes, eq_bytes_refl, eq_bytes_sound, if◌then◌else◌, arith, Option-cases, Bool-cases, List, In,
}
use opens.Kv.{Engine, lt_bytes}
use opens.Kv.Lex.{lt_bytes_irrefl, lt_bytes_asymm, lt_bytes_trans}

unfoldable pub without : Map Bytes → Bytes → Map Bytes
without [] k = []
without ((x, v) ∷ t) k = let rest = without t k in if eq_bytes x k then rest else (x, v) ∷ rest

-- The better of an entry and the best of the others, from a start on.
unfoldable pub better : Bytes → Bytes × Bytes → Option (Bytes × Bytes) → Option (Bytes × Bytes)
better start (x, v) none = if lt_bytes x start then none else some (x, v)
better start (x, v) (some (y, w)) =
    if lt_bytes x start || lt_bytes y x then some (y, w) else some (x, v)

unfoldable pub first_from : Map Bytes → Bytes → Option (Bytes × Bytes)
unfolding better
first_from [] start = none
first_from (e ∷ t) start = better start e (first_from t start)

pub lookup-without :
    (t : Map Bytes) (k k' : Bytes)
    → lookup k' (without t k) ≡ (if eq_bytes k' k then none else lookup k' t)
unfolding lookup without
lookup-without [] k k' = ground arith
lookup-without ((x, v) ∷ t) k k' = ground (
  arith,
  lookup-without t k k',
  eq_bytes_sound x k,
  eq_bytes_sound x k',
  eq_bytes_sound k' k,
  eq_bytes_refl k,
)

pub lookup-put :
    (t : Map Bytes) (k v k' : Bytes)
    → lookup k' ((k, v) ∷ without t k) ≡ (if eq_bytes k' k then some v else lookup k' t)
unfolding lookup
lookup-put t k v k' =
    ground (arith, lookup-without t k k', eq_bytes_sound k k', eq_bytes_sound k' k, eq_bytes_refl k)

-- Equal keys compare in the same way.
same_below : (x k s : Bytes) → eq_bytes x k ≡ true → lt_bytes x s ≡ lt_bytes k s
same_below x k s e = ap (λ z. lt_bytes z s) (eq_bytes_sound x k e)

pub first_from-found :
    (t : Map Bytes) (s k v : Bytes)
    → first_from t s ≡ some (k, v)
    → (lt_bytes k s ≡ false) × (lookup k t ≡ some v)
unfolding first_from lookup
first_from-found [] s k v h = ground arith
first_from-found ((x, w) ∷ t) s k v h = elim (Option-cases (first_from t s)) [
  | inl e ↦ ground (arith, eq_bytes_refl x)
  | inr ((y, u), e) ↦ ground (
    arith,
    eq_bytes_refl x,
    first_from-found t s y u e,
    same_below x y s,
    same_below x y x,
    lt_bytes_irrefl x,
  )
]

pub first_from-none :
    (t : Map Bytes) (s k : Bytes) → first_from t s ≡ none → lt_bytes k s ≡ false → lookup k t ≡ none
unfolding first_from lookup
first_from-none [] s k h l = refl
first_from-none ((x, v) ∷ t) s k h l = elim (Option-cases (first_from t s)) [
  | inl e ↦ ground (arith, same_below x k s, first_from-none t s k e l)
  | inr ((y, u), e) ↦ ground arith
]

pub first_from-least :
    (t : Map Bytes) (s k v k' : Bytes)
    → first_from t s ≡ some (k, v)
    → lt_bytes k' s ≡ false
    → lt_bytes k' k ≡ true
    → lookup k' t ≡ none
unfolding first_from lookup
first_from-least [] s k v k' h l m = refl
first_from-least ((x, w) ∷ t) s k v k' h l m = elim (Option-cases (first_from t s)) [
  | inl e ↦
      ground
        (arith, same_below x k' s, same_below x k' x, lt_bytes_irrefl x, first_from-none t s k' e l)
  | inr ((y, u), e) ↦ ground (
    arith,
    same_below x k' s,
    same_below x k' x,
    same_below x k' y,
    lt_bytes_irrefl x,
    lt_bytes_asymm x y,
    lt_bytes_trans k' x y,
    first_from-least t s y u k' e l,
  )
]

unfoldable pub keys_of : Map Bytes → List Bytes
keys_of [] = []
keys_of ((x, v) ∷ t) = x ∷ keys_of t

pub lookup-keys_of : (t : Map Bytes) (k v : Bytes) → lookup k t ≡ some v → In k (keys_of t)
unfolding lookup keys_of
lookup-keys_of [] k v h = ground arith
lookup-keys_of ((x, w) ∷ t) k v h = elim (Bool-cases (eq_bytes x k)) [
  | inl e ↦ inl (eq_bytes_sound x k e)
  | inr e ↦ inr (lookup-keys_of t k v (ground arith))
]

abbrev pub memory : Engine
memory = record {
  Txn = Map Bytes;
  get = λ t k. lookup k t;
  put = λ t k v. (k, v) ∷ without t k;
  delete = without;
  get_put = lookup-put;
  get_delete = lookup-without;
  seek = first_from;
  seek_found = first_from-found;
  seek_least = first_from-least;
  seek_none = first_from-none;
  keys = keys_of;
  get_keys = lookup-keys_of;
}
