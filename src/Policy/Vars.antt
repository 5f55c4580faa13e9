-- ===== src/Policy/Vars.antt =====
-- internal/policy/policy.go, `SubstituteVars`: policy variables `${name}`.
pub mod Laws
use opens.Prelude.{
  ℕ, zero, suc, ◌+◌, Bool, true, false, ◌||◌, Option, none, some, [], ◌∷◌, ◌++◌, Bytes, Map, codes,
  length, drop, eq_bytes, has_prefix, lookup, if◌then◌else◌, ◌==◌,
}
use mathlib.Core.Option
use opens.Policy.Std.{Std}

-- strings.Index(s, "${") as the two parts s[:i] and s[i+2:]
unfoldable pub find_open : Bytes → Option (Bytes × Bytes)
find_open [] = none
find_open (c ∷ s) =
    let later =
      Option.map (λ (r : Bytes × Bytes). let q : Bytes × Bytes = (c ∷ r.0, r.1) in q)
        (find_open s) in
    if has_prefix (c ∷ s) (codes "${") then some ([], drop 1 s) else later

-- strings.IndexByte(s[i:], '}') as the two parts s[i+2:i+j] and s[i+j+1:]; neither `$` nor `{` is `}`
unfoldable pub find_close : Bytes → Option (Bytes × Bytes)
find_close [] = none
find_close (c ∷ s) =
    let later =
      Option.map (λ (r : Bytes × Bytes). let q : Bytes × Bytes = (c ∷ r.0, r.1) in q)
        (find_close s) in
    if c == b'}' then some ([], s) else later

module _ (std : Std) (vars : Map Bytes) where
  -- the `switch name`
  unfoldable pub expand : Bytes → Bytes
  expand name =
      if eq_bytes name (codes "*") || (eq_bytes name (codes "?") || eq_bytes name (codes "$"))
      then name
      else elim (lookup (std.to_lower name) vars) [
        | some v ↦ v
        | none ↦ codes "${" ++ name ++ codes "}"
      ]

  -- The loop; `none` means that the fuel ran out.
  pub substitute_loop : ℕ → Bytes → Option Bytes
  substitute_loop zero s = none
  substitute_loop (suc f) s = elim (find_open s) [
    | none ↦ some s
    | some (front, rest) ↦ elim (find_close rest) [
      | none ↦ some s
      | some (name, after) ↦ Option.map (λ b. front ++ (expand name ++ b)) (substitute_loop f after)
    ]
  ]

  -- SubstituteVars(s, vars); the early return on a text without `${` is the loop's first exit.
  unfoldable pub substitute_vars : Bytes → Bytes
  unfolding substitute_loop
  substitute_vars s = Option.get_or (substitute_loop (length s + 1) s) s
