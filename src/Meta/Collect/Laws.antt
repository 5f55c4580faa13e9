-- ===== src/Meta/Collect/Laws.antt =====
-- What the loops over a prefix collect.
use opens.Prelude.{
  ◌≡◌, refl, sym, ap, subst, ◌∙◌, inl, inr, true, false, none, some, List, [], ◌∷◌, ◌++◌, Bytes, In,
  has_prefix, arith, Bool-cases, option_elim, In-append_left, In-append_last, In-append_cases,
}
use mathlib.Core.Option.{some-injective}
use opens.Kv.{Engine, lt_bytes}
use opens.Kv.Lex.{lt_bytes_irrefl, lt_bytes_asymm, lt_bytes_trans, has_prefix-lt_bytes}
use opens.Meta.Store.{Codec, undecodable}
use opens.Meta.Scan.{Scanned, done, broken, panicked, endless, behind, first_from}
use opens.Meta.Scan.Laws.{Moves, scan_enough_lem, first_from-some, first_from-none, behind_lt}
use opens.Meta.Collect.{each_body, append, each}

-- Nothing is between a key and the first key behind it.
behind_least : (k y : Bytes) → lt_bytes y (behind k) ≡ true → lt_bytes y k ≡ false → y ≡ k
unfolding lt_bytes
behind_least [] [] h l = refl
behind_least [] (y ∷ t) h l = ground arith
behind_least (x ∷ k) [] h l = ground arith
behind_least (x ∷ k) (y ∷ t) h l = ground (arith, behind_least k t)

module _ {A : Type 0} (kv : Engine) (codec : Codec A) (tx : kv.Txn) (p : Bytes) where
  -- A record below the prefix, and what it holds.
  abbrev pub Holds : Bytes → A → Type 0
  Holds x a =
      (v : Bytes) × (kv.get tx x ≡ some v) × (codec.decode v ≡ some a) × (has_prefix x p ≡ true)

  -- Exactly the records below the prefix.
  unfoldable pub Exactly : Scanned (List A) → Type 0
  Exactly (done out) =
      ((a : A) → In a out → (x : Bytes) × Holds x a)
      × ((x v : Bytes)
          → kv.get tx x ≡ some v
          → has_prefix x p ≡ true
          → (a : A) × (codec.decode v ≡ some a) × In a out)
  Exactly (broken e) =
      (e ≡ undecodable)
      × ((x v : Bytes) × (kv.get tx x ≡ some v) × (has_prefix x p ≡ true) × (codec.decode v ≡ none))
  Exactly panicked = ⊥
  Exactly endless = ⊥

  record UpTo (start : Bytes) (out : List A) : Type 0 where
    from_prefix : lt_bytes start p ≡ false
    sound : (a : A) → In a out → (x : Bytes) × Holds x a
    passed :
        (x v : Bytes)
        → kv.get tx x ≡ some v
        → has_prefix x p ≡ true
        → lt_bytes x start ≡ true
        → (a : A) × (codec.decode v ≡ some a) × In a out

  step-UpTo :
      (start k v : Bytes) (out : List A) (a : A)
      → UpTo start out
      → first_from kv tx p start ≡ some (k, v)
      → codec.decode v ≡ some a
      → UpTo (behind k) (out ++ a ∷ [])
  step-UpTo start k v out a u found d =
      let (h, ahead, g, least) = first_from-some kv tx p start k v found in
      record {
        from_prefix = elim (Bool-cases (lt_bytes (behind k) p)) [
          | inr e ↦ e
          | inl e ↦ ground (
            arith,
            lt_bytes_trans (behind k) p k e (has_prefix-lt_bytes k p h),
            lt_bytes_asymm k (behind k) (behind_lt k),
          )
        ];
        sound = λ b m. elim (In-append_cases b a out m) [
          | inl old ↦ u.sound b old
          | inr new ↦ subst (λ c. (x : Bytes) × Holds x c) new (k, (v, g, d, h))
        ];
        passed = λ x w gx hx l. elim (Bool-cases (lt_bytes x start)) [
          | inl before ↦
              let (b, db, m) = u.passed x w gx hx before in (b, db, In-append_left b out (a ∷ []) m)
          | inr after ↦
              let same : x ≡ k = behind_least k x l (not_less x w gx after least) in
              let value : w ≡ v = some-injective _ _ (sym gx ∙ ap (kv.get tx) same ∙ g) in
              (a, ap codec.decode value ∙ d, In-append_last a out)
        ];
      }
    where
      not_less :
          (x w : Bytes)
          → kv.get tx x ≡ some w
          → lt_bytes x start ≡ false
          → ((y : Bytes) → lt_bytes y start ≡ false → lt_bytes y k ≡ true → kv.get tx y ≡ none)
          → lt_bytes x k ≡ false
      not_less x w gx after least = elim (Bool-cases (lt_bytes x k)) [
        | inr e ↦ e
        | inl e ↦ absurd (ground (arith, least x after e))
      ]

  body-Moves :
      (start k v : Bytes) (out : List A)
      → UpTo start out
      → first_from kv tx p start ≡ some (k, v)
      → Moves UpTo Exactly k (each_body codec (λ _. false) append k v out)
  unfolding each_body Exactly
  body-Moves start k v out u found =
      let (h, _, g, _) = first_from-some kv tx p start k v found in
      option_elim (Moves UpTo Exactly k) (codec.decode v) _ _ (λ e. (refl, (k, v, g, h, e)))
        (λ a d. step-UpTo start k v out a u found d)

  -- A loop that appends every record collects exactly those below the prefix, or it fails as one of them
  -- cannot be decoded.
  pub each-Exactly : Exactly (each kv codec (λ _. false) append tx p p [])
  unfolding each Exactly
  each-Exactly =
      scan_enough_lem kv tx p (each_body codec (λ _. false) append) UpTo Exactly
        (λ start out u e. (u.sound, λ x v g h. later start out u e x v g h)) body-Moves p []
        (record {
          from_prefix = lt_bytes_irrefl p;
          sound = λ a m. absurd m;
          passed = λ x v g h l. absurd (ground (arith, has_prefix-lt_bytes x p h));
        })
    where
      later :
          (start : Bytes) (out : List A)
          → UpTo start out
          → first_from kv tx p start ≡ none
          → (x v : Bytes) → kv.get tx x ≡ some v
          → has_prefix x p ≡ true
          → (a : A) × (codec.decode v ≡ some a) × In a out
      later start out u e x v g h = elim (Bool-cases (lt_bytes x start)) [
        | inl l ↦ u.passed x v g h l
        | inr l ↦ absurd (ground (arith, first_from-none kv tx p start x e u.from_prefix h l))
      ]
