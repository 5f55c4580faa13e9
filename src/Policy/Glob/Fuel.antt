-- ===== src/Policy/Glob/Fuel.antt =====
-- The matching loop ends within its fuel on every text, also on one with the byte `*` in it.
use opens.Prelude.{
  ℕ, zero, suc, ◌+◌, ◌*◌, ◌≤◌, ◌<◌, ◌≡◌, refl, Bool, false, ◌||◌, inl, inr, none, some, [], ◌∷◌,
  Bytes, length, arith, Bool-cases, ◌==◌,
}
use opens.Policy.Glob.{Back, backtrack, match_loop, match, match_fuel}

abbrev SavedBounds : ℕ → ℕ → Bytes → Back → Type 0
SavedBounds k m s none = Unit
SavedBounds k m s (some (bp, bs)) = (length s ≤ length bs) × (length bs ≤ m) × (length bp < k)

record Bounds (k f m : ℕ) (p s : Bytes) (back : Back) : Type 0 where
  saved : SavedBounds k m s back
  text_bound : length s ≤ m
  pattern_bound : length p < k
  fuel : m * k + length p < f

abbrev Ends : ℕ → Bytes → Bytes → Back → Type 0
Ends f p s back = (b : Bool) × (match_loop f p s back ≡ some b)

backtrack-Ends :
    (k f m c : ℕ) (p s : Bytes) (back : Back)
    → Bounds k (suc f) m p (c ∷ s) back
    → ((m' : ℕ) (p' s' : Bytes) (b : Back) → Bounds k f m' p' s' b → Ends f p' s' b)
    → (b : Bool) × (backtrack back (match_loop f) ≡ some b)
unfolding backtrack
backtrack-Ends k f m c p s none i ih = (false, refl)
backtrack-Ends k f m c p s (some (bp, [])) i ih = absurd (omega arith)
backtrack-Ends k f zero c p s (some (bp, x ∷ bs)) i ih = absurd (omega arith)
backtrack-Ends k f (suc m) c p s (some (bp, x ∷ bs)) i ih = ih m bp bs (some (bp, bs)) (omega arith)

SavedBounds-tail :
    (k m c : ℕ) (s : Bytes) (back : Back) → SavedBounds k m (c ∷ s) back → SavedBounds k m s back
SavedBounds-tail k m c s none h = tt
SavedBounds-tail k m c s (some b) h = omega arith

match_loop-Ends : (k f m : ℕ) (p s : Bytes) (back : Back) → Bounds k f m p s back → Ends f p s back
unfolding match_loop
match_loop-Ends k zero m p s back i = absurd (omega arith)
match_loop-Ends k (suc f) m p [] back i = (_, refl)
match_loop-Ends k (suc f) m [] (c ∷ s) back i =
    backtrack-Ends k f m c [] s back i (match_loop-Ends k f)
match_loop-Ends k (suc f) m (x ∷ p) (c ∷ s) back i = elim (Bool-cases (x == b'?' || x == c)) [
  | inl one ↦ rw one (
      match_loop-Ends k f m p s back (record {
        saved = SavedBounds-tail k m c s back i.saved;
        text_bound = omega arith;
        pattern_bound = omega arith;
        fuel = omega arith;
      }))
  | inr not_one ↦ rw not_one (elim (Bool-cases (x == b'*')) [
    | inl star ↦ rw star (match_loop-Ends k f m p (c ∷ s) (some (p, c ∷ s)) (omega arith))
    | inr not_star ↦ rw not_star (backtrack-Ends k f m c (x ∷ p) s back i (match_loop-Ends k f))
  ])
]

-- On every pattern and text the loop ends within its fuel, and what it returns is `match`.
pub match_loop-match : (p s : Bytes) → match_loop (match_fuel p s) p s none ≡ some (match p s)
unfolding match
match_loop-match p s =
    let ends = match_loop-Ends (length p + 1) (match_fuel p s) (length s) p s none (omega arith) in
    rw ends.1
