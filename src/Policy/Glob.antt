-- ===== src/Policy/Glob.antt =====
-- internal/policy/policy.go, `Match`: wildcard matching with one saved star.
pub mod Spec
pub mod Correct
pub mod Fuel
pub mod Sound
use opens.Prelude.{
  ℕ, zero, suc, ◌+◌, ◌*◌, Bool, true, false, ◌&&◌, ◌||◌, Option, none, some, [], ◌∷◌, Bytes, length,
  drop, ◌==◌, if◌then◌else◌,
}

-- `starP + 1` and `starS` as the rest of the pattern after the star and the rest of the text that
-- the star was met at; `none` while `starP` is -1.
abbrev pub Back : Type 0
Back = Option (Bytes × Bytes)

-- for px < len(pattern) && pattern[px] == '*' { px++ }; return px == len(pattern)
pub only_stars : Bytes → Bool
only_stars [] = true
only_stars (x ∷ p) = x == b'*' && only_stars p

-- The branch `else if starP >= 0`: the star takes one more byte.
pub backtrack : Back → (Bytes → Bytes → Back → Option Bool) → Option Bool
backtrack none next = some false
backtrack (some (bp, bs)) next = next bp (drop 1 bs) (some (bp, drop 1 bs))

-- The loop on `pattern[px:]` and `s[sx:]`; `none` means that the fuel ran out.
pub match_loop : ℕ → Bytes → Bytes → Back → Option Bool
unfolding only_stars backtrack
match_loop zero p s back = none
match_loop (suc f) p [] back = some (only_stars p)
match_loop (suc f) [] (c ∷ s) back = backtrack back (match_loop f)
match_loop (suc f) (x ∷ p) (c ∷ s) back =
    let onward = match_loop f p s back in
    let starred = match_loop f p (c ∷ s) (some (p, c ∷ s)) in
    if x == b'?' || x == c
    then onward
    else if x == b'*'
    then starred
    else backtrack back (match_loop f)

abbrev pub match_fuel : Bytes → Bytes → ℕ
match_fuel p s = (length s + 1) * (length p + 2)

abbrev or_false : Option Bool → Bool
or_false none = false
or_false (some b) = b

-- Match(pattern, s)
unfoldable pub match : Bytes → Bytes → Bool
unfolding match_loop
match p s = or_false (match_loop (match_fuel p s) p s none)
