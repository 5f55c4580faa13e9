-- ===== src/Policy/Vars/Laws.antt =====
-- `SubstituteVars` ends on every text, and replaces each closed `${name}` once, from the left.
use opens.Prelude.{
  ℕ, zero, suc, ◌+◌, ◌<◌, ◌≤◌, ◌≡◌, refl, sym, ◌∙◌, inl, inr, none, some, [], ◌∷◌, ◌++◌, Bytes, Map,
  codes, length, drop, arith, has_prefix, Option-cases,
}
use mathlib.Core.Option.{some-injective}
use opens.Policy.Std.{Std}
use opens.Policy.Vars.{find_open, find_close, expand, substitute_loop, substitute_vars}

length-drop_one : (s : Bytes) → length (drop 1 s) ≤ length s
length-drop_one [] = omega arith
length-drop_one (c ∷ s) = omega arith

-- What a split leaves is shorter than the text.
find_open-shorter :
    (s front rest : Bytes) → find_open s ≡ some (front, rest) → length rest < length s
unfolding find_open
find_open-shorter [] front rest h = ground arith
find_open-shorter (c ∷ s) front rest h = elim (Option-cases (find_open s)) [
  | inl e ↦ ground (arith, length-drop_one s)
  | inr (r, e) ↦ ground (arith, length-drop_one s, find_open-shorter s r.0 r.1)
]

find_close-shorter :
    (s name after : Bytes) → find_close s ≡ some (name, after) → length after < length s
unfolding find_close
find_close-shorter [] name after h = ground arith
find_close-shorter (c ∷ s) name after h = elim (Option-cases (find_close s)) [
  | inl e ↦ ground arith
  | inr (r, e) ↦ ground (arith, find_close-shorter s r.0 r.1)
]

pub find_open-append :
    (front rest : Bytes)
    → find_open front ≡ none
    → find_open (front ++ b'$' ∷ b'{' ∷ rest) ≡ some (front, rest)
unfolding find_open has_prefix
find_open-append [] rest h = refl
find_open-append (c ∷ []) rest h = ground (arith)
find_open-append (c ∷ d ∷ front) rest h = ground (arith, find_open-append (d ∷ front) rest)

pub find_close-append :
    (name after : Bytes)
    → find_close name ≡ none
    → find_close (name ++ b'}' ∷ after) ≡ some (name, after)
unfolding find_close
find_close-append [] after h = refl
find_close-append (c ∷ name) after h = ground (arith, find_close-append name after)

module _ (std : Std) (vars : Map Bytes) where
  -- With more fuel than bytes the loop returns, and more fuel changes nothing.
  substitute_loop-total :
      (f g : ℕ) (s : Bytes)
      → length s < f
      → length s < g
      → (b : Bytes) × (substitute_loop std vars f s ≡ some b)
        × (substitute_loop std vars g s ≡ some b)
  unfolding substitute_loop
  substitute_loop-total zero g s h k = absurd (omega arith)
  substitute_loop-total (suc f) zero s h k = absurd (omega arith)
  substitute_loop-total (suc f) (suc g) s h k = elim (Option-cases (find_open s)) [
    | inl e ↦ (s, rw (e, substitute_loop), rw (e, substitute_loop))
    | inr ((front, rest), e) ↦ elim (Option-cases (find_close rest)) [
      | inl c ↦ (s, rw (e, c, substitute_loop), rw (e, c, substitute_loop))
      | inr ((name, after), c) ↦
          let shorter : length after < length s =
            omega (arith, find_open-shorter s front rest e, find_close-shorter rest name after c) in
          let (b, p, q) = substitute_loop-total f g after (omega arith) (omega arith) in
          (
            front ++ (expand std vars name ++ b),
            rw (e, c, p, substitute_loop),
            rw (e, c, q, substitute_loop),
          )
    ]
  ]

  substitute_loop-substitute_vars :
      (f : ℕ) (s : Bytes)
      → length s < f
      → substitute_loop std vars f s ≡ some (substitute_vars std vars s)
  unfolding substitute_vars
  substitute_loop-substitute_vars f s h =
      let (b, p, q) = substitute_loop-total f (length s + 1) s h (omega arith) in ground arith

  -- A text without `${` is unchanged.
  pub substitute_vars-none : (s : Bytes) → find_open s ≡ none → substitute_vars std vars s ≡ s
  unfolding substitute_loop
  substitute_vars-none s h =
      ground (arith, substitute_loop-substitute_vars (suc (length s)) s (omega arith))

  -- With no `${` in front of it and no `}` in its name, the first variable is replaced, what it is
  -- replaced by is not read again, and the rest is treated in the same way.
  pub substitute_vars-step :
      (front name after : Bytes)
      → find_open front ≡ none
      → find_close name ≡ none
      → substitute_vars std vars (front ++ (codes "${" ++ (name ++ (codes "}" ++ after))))
        ≡ front ++ (expand std vars name ++ substitute_vars std vars after)
  unfolding substitute_loop
  substitute_vars-step front name after h k =
      let rest : Bytes = name ++ b'}' ∷ after in
      let s : Bytes = front ++ b'$' ∷ b'{' ∷ rest in
      let opens : find_open s ≡ some (front, rest) = find_open-append front rest h in
      let closes : find_close rest ≡ some (name, after) = find_close-append name after k in
      let shorter : length after < length s =
        omega (
          arith,
          find_open-shorter s front rest opens,
          find_close-shorter rest name after closes,
        ) in
      let here = substitute_loop-substitute_vars (suc (length s)) s (omega arith) in
      let there : substitute_loop std vars (suc (length s)) s
          ≡ some (front ++ (expand std vars name ++ substitute_vars std vars after)) =
        rw (
          opens,
          closes,
          substitute_loop-substitute_vars (length s) after shorter,
          substitute_loop,
        ) in
      some-injective _ _ (sym here ∙ there)
