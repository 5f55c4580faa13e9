-- ===== src/Policy/Glob/Sound.antt =====
-- What holds on every text, also on one with the byte `*` in it: a match is never wrong, but a text
-- with a `*` where the pattern has one can be missed.
use opens.Prelude.{
  ℕ, zero, suc, ◌+◌, ◌<◌, ◌≡◌, refl, true, false, ◌||◌, none, some, [], ◌∷◌, ◌++◌, Bytes, length,
  length-append, drop, arith,
}
use opens.Policy.Glob.{Back, backtrack, match_loop, match, match_fuel}
use opens.Policy.Glob.Spec.{some_suffix, denotes, some_suffix-here}
use opens.Policy.Glob.Correct.{later, only_stars-denotes, restart-value}

backtrack_sound :
    (f c : ℕ) (s : Bytes) (back : Back)
    → ((p' s' : Bytes) (b : Back)
        → match_loop f p' s' b ≡ some true
        → (denotes p' s' || later b) ≡ true)
    → backtrack back (match_loop f) ≡ some true
    → later back ≡ true
unfolding backtrack
backtrack_sound f c s none ih h = ground arith
backtrack_sound f c s (some (bp, bs)) ih h =
    rw (← restart-value bp (drop 1 bs)) (ih bp (drop 1 bs) (some (bp, drop 1 bs)) h)

match_loop_sound :
    (f : ℕ) (p s : Bytes) (back : Back)
    → match_loop f p s back ≡ some true
    → (denotes p s || later back) ≡ true
unfolding match_loop denotes
match_loop_sound zero p s back h = ground arith
match_loop_sound (suc f) p [] back h = ground (arith, only_stars-denotes p)
match_loop_sound (suc f) [] (c ∷ s) back h =
    ground (arith, backtrack_sound f c s back (match_loop_sound f) h)
match_loop_sound (suc f) (x ∷ p) (c ∷ s) back h = ground (
  arith,
  match_loop_sound f p s back,
  some_suffix-here (denotes p) s,
  match_loop_sound f p (c ∷ s) (some (p, c ∷ s)),
  restart-value p (c ∷ s),
  backtrack_sound f c s back (match_loop_sound f),
)

-- On every text, what `match` accepts the pattern stands for.
pub match_sound : (p s : Bytes) → match p s ≡ true → denotes p s ≡ true
unfolding match
match_sound p s h = ground (arith, match_loop_sound (match_fuel p s) p s none)

star_missed :
    (f : ℕ) (w t : Bytes) (c : ℕ)
    → length w + 1 < f
    → match_loop f (w ++ b'*' ∷ []) (w ++ b'*' ∷ c ∷ t) none ≡ some false
unfolding match_loop
star_missed zero w t c h = absurd (omega arith)
star_missed (suc zero) w t c h = absurd (omega arith)
star_missed (suc (suc f)) [] t c h = refl
star_missed (suc f) (x ∷ w) t c h = ground (arith, star_missed f w t c)

nil_suffix : (t : Bytes) → some_suffix (denotes []) t ≡ true
unfolding denotes
nil_suffix [] = refl
nil_suffix (c ∷ t) = nil_suffix t

star_denotes : (w t : Bytes) → denotes (w ++ b'*' ∷ []) (w ++ b'*' ∷ t) ≡ true
unfolding denotes
star_denotes [] t = nil_suffix t
star_denotes (x ∷ w) t =
    ground (arith, star_denotes w t, some_suffix-here (denotes (w ++ b'*' ∷ [])) (w ++ b'*' ∷ t))

-- A pattern that ends in `*` misses every text that goes on with a `*` of its own and one byte
-- more, although the pattern stands for that text.
pub match-star_missed :
    (w t : Bytes) (c : ℕ)
    → (match (w ++ b'*' ∷ []) (w ++ b'*' ∷ c ∷ t) ≡ false)
      × (denotes (w ++ b'*' ∷ []) (w ++ b'*' ∷ c ∷ t) ≡ true)
unfolding match
match-star_missed w t c = (
  rw (
      star_missed (match_fuel (w ++ b'*' ∷ []) (w ++ b'*' ∷ c ∷ t)) w t c
        (omega (arith, length-append w (b'*' ∷ []), length-append w (b'*' ∷ c ∷ t)))),
  star_denotes w (c ∷ t),
)
