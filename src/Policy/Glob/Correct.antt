-- ===== src/Policy/Glob/Correct.antt =====
-- The matching loop against the meaning of its pattern.
use opens.Prelude.{
  ℕ, zero, suc, ◌+◌, ◌*◌, ◌≤◌, ◌<◌, ◌≡◌, refl, ap, ◌≢◌, ◌∙◌, inl, inr, Bool, true, false, ◌||◌,
  none, some, [], ◌∷◌, Bytes, length, drop, arith, Bool-cases, ◌==◌,
}
use mathlib.Core.Path.{fun_ext}
use opens.Policy.Glob.{Back, only_stars, backtrack, match_loop, match, match_fuel}
use opens.Policy.Glob.Spec.{
  some_suffix, one_byte, denotes, HasNoStar, some_suffix_idem, some_suffix-one_byte,
}

-- What the saved star can still find.
abbrev pub later : Back → Bool
later none = false
later (some (bp, bs)) = some_suffix (denotes bp) (drop 1 bs)

pub only_stars-denotes : (p : Bytes) → only_stars p ≡ denotes p []
unfolding only_stars denotes
only_stars-denotes [] = refl
only_stars-denotes (x ∷ p) = ground (arith, only_stars-denotes p)

-- The saved star loses nothing that the state reached since could find, and the bounds that pay
-- for the rounds: every saved text is at most `m` long, and every pattern shorter than `k`.
abbrev Saved : ℕ → ℕ → Bytes → Bytes → Back → Type 0
Saved k m p s none = Unit
Saved k m p s (some (bp, bs)) =
    (later (some (bp, bs)) ≡ true → some_suffix (denotes p) s ≡ true)
    × HasNoStar bs
    × (length s ≤ length bs)
    × (length bs ≤ m)
    × (length bp < k)

Saved-later :
    (k m : ℕ) (p s : Bytes) (back : Back)
    → Saved k m p s back
    → later back ≡ true
    → some_suffix (denotes p) s ≡ true
Saved-later k m p s none h e = ground arith
Saved-later k m p s (some (bp, bs)) h e = h.0 e

denotes-byte : (x : ℕ) (p : Bytes) → x ≢ b'*' → denotes (x ∷ p) ≡ one_byte x (denotes p)
unfolding denotes
denotes-byte x p n = fun_ext λ s. ground arith

denotes-star : (x : ℕ) (p : Bytes) → (x == b'*') ≡ true → denotes (x ∷ p) ≡ some_suffix (denotes p)
unfolding denotes
denotes-star x p e = fun_ext λ s. rw e

Saved-step :
    (k m x c : ℕ) (p s : Bytes) (back : Back)
    → x ≢ b'*'
    → Saved k m (x ∷ p) (c ∷ s) back
    → Saved k m p s back
Saved-step k m x c p s none n h = tt
Saved-step k m x c p s (some (bp, bs)) n (e, stars, shorter, long, pat) = (
  λ l. some_suffix-one_byte (denotes p) x c s (rw (denotes-byte x p n) at (e l)),
  stars,
  omega arith,
  long,
  pat,
)

some_suffix-later :
    (p : Bytes) (c : ℕ) (s : Bytes)
    → some_suffix (denotes p) s ≡ true
    → some_suffix (denotes p) (c ∷ s) ≡ true
unfolding some_suffix
some_suffix-later p c s h = ground arith

record Inv (k f m : ℕ) (p s : Bytes) (back : Back) : Type 0 where
  saved : Saved k m p s back
  no_star : HasNoStar s
  text_bound : length s ≤ m
  pattern_bound : length p < k
  fuel : m * k + length p < f

abbrev Answers : ℕ → Bytes → Bytes → Back → Type 0
Answers f p s back = match_loop f p s back ≡ some (denotes p s || later back)

-- A fresh start at a star, with the text that it was met at.
Inv-restart :
    (k f m : ℕ) (p s : Bytes)
    → HasNoStar s
    → length s ≤ m
    → length p < k
    → m * k + length p < f
    → Inv k f m p s (some (p, s))
Inv-restart k f m p [] n t b h = record {
  saved = (λ l. l, n, omega arith, t, b);
  no_star = n;
  text_bound = t;
  pattern_bound = b;
  fuel = h;
}
Inv-restart k f m p (c ∷ s) n t b h = record {
  saved = (λ l. some_suffix-later p c s l, n, omega arith, t, b);
  no_star = n;
  text_bound = t;
  pattern_bound = b;
  fuel = h;
}

pub restart-value : (p s : Bytes) → (denotes p s || later (some (p, s))) ≡ some_suffix (denotes p) s
unfolding some_suffix
restart-value p [] = ground arith
restart-value p (c ∷ s) = refl

backtrack-Answers :
    (k f m c : ℕ) (p s : Bytes) (back : Back)
    → Inv k (suc f) m p (c ∷ s) back
    → denotes p (c ∷ s) ≡ false
    → ((m' : ℕ) (p' s' : Bytes) (b : Back) → Inv k f m' p' s' b → Answers f p' s' b)
    → backtrack back (match_loop f) ≡ some (denotes p (c ∷ s) || later back)
unfolding backtrack
backtrack-Answers k f m c p s none i e ih = rw e
backtrack-Answers k f m c p s (some (bp, [])) i e ih = absurd (omega arith)
backtrack-Answers k f zero c p s (some (bp, x ∷ bs)) i e ih = absurd (omega arith)
backtrack-Answers k f (suc m) c p s (some (bp, x ∷ bs)) i e ih = rw e (
    ih m bp bs (some (bp, bs))
      (Inv-restart k f m bp bs i.saved.1.1 (omega arith) (omega arith) (omega arith))
    ∙ ap some (restart-value bp bs))

at_end :
    (k m : ℕ) (p : Bytes) (back : Back)
    → Saved k m p [] back
    → only_stars p ≡ (denotes p [] || later back)
unfolding some_suffix
at_end k m p back h = ground (arith, only_stars-denotes p, Saved-later k m p [] back h)

byte_taken :
    (k f m x c : ℕ) (p s : Bytes) (back : Back)
    → Inv k (suc f) m (x ∷ p) (c ∷ s) back
    → (x == b'?' || x == c) ≡ true
    → (Inv k f m p s back → Answers f p s back)
    → match_loop f p s back ≡ some (denotes (x ∷ p) (c ∷ s) || later back)
unfolding denotes
byte_taken k f m x c p s back i one ih =
    let n : x ≢ b'*' = ground arith in
    let e : denotes p s ≡ denotes (x ∷ p) (c ∷ s) = ground arith in
    rw (← e) (
      ih (record {
        saved = Saved-step k m x c p s back n i.saved;
        no_star = i.no_star.1;
        text_bound = omega arith;
        pattern_bound = omega arith;
        fuel = omega arith;
      }))

star_met :
    (k f m x c : ℕ) (p s : Bytes) (back : Back)
    → Inv k (suc f) m (x ∷ p) (c ∷ s) back
    → (x == b'*') ≡ true
    → (Inv k f m p (c ∷ s) (some (p, c ∷ s)) → Answers f p (c ∷ s) (some (p, c ∷ s)))
    → match_loop f p (c ∷ s) (some (p, c ∷ s)) ≡ some (denotes (x ∷ p) (c ∷ s) || later back)
star_met k f m x c p s back i star ih =
    rw (denotes-star x p star) (ground (arith, ih restart, restart-value p (c ∷ s), covers))
  where
    restart : Inv k f m p (c ∷ s) (some (p, c ∷ s))
    restart = Inv-restart k f m p (c ∷ s) i.no_star i.text_bound (omega arith) (omega arith)

    covers : later back ≡ true → some_suffix (denotes p) (c ∷ s) ≡ true
    covers l =
        some_suffix_idem (denotes p) (c ∷ s)
          (rw (denotes-star x p star) at (Saved-later k m (x ∷ p) (c ∷ s) back i.saved l))

loop-Answers : (k f m : ℕ) (p s : Bytes) (back : Back) → Inv k f m p s back → Answers f p s back
unfolding match_loop
loop-Answers k zero m p s back i = absurd (omega arith)
loop-Answers k (suc f) m p [] back i = ap some (at_end k m p back i.saved)
loop-Answers k (suc f) m [] (c ∷ s) back i =
    backtrack-Answers k f m c [] s back i (unfold denotes in refl) (loop-Answers k f)
loop-Answers k (suc f) m (x ∷ p) (c ∷ s) back i = elim (Bool-cases (x == b'?' || x == c)) [
  | inl one ↦ rw one (byte_taken k f m x c p s back i one (loop-Answers k f m p s back))
  | inr not_one ↦ rw not_one (elim (Bool-cases (x == b'*')) [
    | inl star ↦
        rw star
          (star_met k f m x c p s back i star (loop-Answers k f m p (c ∷ s) (some (p, c ∷ s))))
    | inr not_star ↦ rw not_star (
        backtrack-Answers k f m c (x ∷ p) s back i (unfold denotes in rw (not_star, not_one))
          (loop-Answers k f))
  ])
]

-- On a text without the byte `*`, `match` answers exactly whether the pattern stands for the text.
pub match-eq-denotes : (p s : Bytes) → HasNoStar s → match p s ≡ denotes p s
unfolding match
match-eq-denotes p s h = ground (
  arith,
  loop-Answers (length p + 1) (match_fuel p s) (length s) p s none (record {
    saved = tt;
    no_star = h;
    text_bound = omega arith;
    pattern_bound = omega arith;
    fuel = omega arith;
  }),
)
