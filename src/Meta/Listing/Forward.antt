-- ===== src/Meta/Listing/Forward.antt =====
-- internal/meta/store.go: the loops of a listing go forward: over a key, or over a common prefix.
use opens.Prelude.{
  ℕ, zero, suc, ◌+◌, ◌≤◌, ◌≡◌, ◌≢◌, refl, Bool, true, false, not, none, some, [], ◌∷◌, ◌++◌, Bytes,
  All, has_prefix, length, drop, take, arith, Option-cases, Bool-cases, inl, inr, ltb, is_nil,
  option_elim, if_elim,
}
use opens.Kv.{Engine, prefix_successor}
use opens.Kv.Bounds.{has_prefix-prefix_successor}
use opens.Meta.Keys.{separator, object_prefix, object_scan_prefix, split_object_key}
use opens.Meta.Keys.Parts.{split_object_key-has_prefix}
use opens.Meta.Types.{Object}
use opens.Meta.Store.{Codec}
use opens.Meta.Scan.{Scanned, done, broken, panicked, endless}
use opens.Meta.Scan.Laws.{Moves, scan_enough_lem, first_from-some}
use opens.Meta.Listing.{
  ListOptions, Collapsed, single, outside, under, index_of, collapsed, jump_to, live_body,
  has_live_key,
}

abbrev pub NoSlash : Bytes → Type 0
NoSlash = All (λ c. c ≢ b'/')

abbrev pub NoNul : Bytes → Type 0
NoNul = All (λ c. c ≢ separator)

has_prefix-front : (s : Bytes) (n : ℕ) → has_prefix s (take n s) ≡ true
unfolding has_prefix
has_prefix-front s zero = refl
has_prefix-front [] (suc n) = refl
has_prefix-front (x ∷ s) (suc n) = ground (arith, has_prefix-front s n)

-- A prefix, and a part of what follows it.
has_prefix-take :
    (p s : Bytes) (n : ℕ)
    → has_prefix s p ≡ true
    → has_prefix s (p ++ take n (drop (length p) s)) ≡ true
unfolding has_prefix
has_prefix-take [] s n h = has_prefix-front s n
has_prefix-take (x ∷ p) [] n h = ground arith
has_prefix-take (x ∷ p) (y ∷ s) n h = ground (arith, has_prefix-take p s n)

length-has_prefix : (s p : Bytes) → has_prefix s p ≡ true → length p ≤ length s
unfolding has_prefix
length-has_prefix s [] h = omega arith
length-has_prefix [] (x ∷ p) h = ground arith
length-has_prefix (y ∷ s) (x ∷ p) h = ground (arith, length-has_prefix s p)

-- A key is not cut out of range, and the common prefix that it falls under is a prefix of it.
unfoldable pub Falls : Bytes → Collapsed → Type 0
Falls key single = Unit
Falls key outside = ⊥
Falls key (under cp) = has_prefix key cp ≡ true

Falls-under : (key cp : Bytes) → has_prefix key cp ≡ true → Falls key (under cp)
unfolding Falls
Falls-under key cp h = h

Falls-single : (key : Bytes) → Falls key single
unfolding Falls
Falls-single key = tt

pub collapsed-Falls :
    (opt : ListOptions) (key : Bytes)
    → has_prefix key opt.prefix ≡ true
    → Falls key (collapsed opt key)
unfolding collapsed
collapsed-Falls opt key h =
    if_elim (Falls key) (is_nil opt.delimiter) _ _ (λ _. Falls-single key)
      (λ _.
        if_elim (Falls key) (ltb (length key) (length opt.prefix)) _ _
          (λ l. absurd (ground (arith, length-has_prefix key opt.prefix)))
          (λ _.
            option_elim (Falls key) (index_of (drop (length opt.prefix) key) opt.delimiter) single _
              (λ _. Falls-single key)
              (λ i _.
                Falls-under key _ (has_prefix-take opt.prefix key (i + length opt.delimiter) h))))

-- From a record below a prefix, the jump to the successor of the prefix goes forward.
pub jump_to-Moves :
    {S : Type 0} (P : Bytes → S → Type 0) (Q : Scanned S → Type 0) (p k bound : Bytes) (s : S)
    → has_prefix k p ≡ true
    → Q (done s)
    → ((to : Bytes) → prefix_successor p ≡ some to → P to s)
    → Moves P Q k (jump_to (prefix_successor p) bound s)
unfolding jump_to
jump_to-Moves P Q p k bound s h q r = elim (Option-cases (prefix_successor p)) [
  | inl e ↦ rw e q
  | inr (to, e) ↦ elim (Bool-cases (has_prefix to bound)) [
    | inl b ↦ rw (e, b) (has_prefix-prefix_successor p k to h e, r to e)
    | inr b ↦ rw (e, b) q
  ]
]

-- A record of the key that a step is at.
abbrev pub AtKey : Bytes → Bytes → Bytes → Type 0
AtKey bucket k key = has_prefix k (object_prefix bucket key) ≡ true

-- A loop that neither fails nor panics, and ends.
unfoldable pub Ended : {A : Type 0} → Scanned A → Type 0
Ended (done s) = Unit
Ended (broken e) = ⊥
Ended panicked = ⊥
Ended endless = ⊥

module _ (kv : Engine) (objects : Codec Object) (tx : kv.Txn) (bucket : Bytes)
    (nb : NoSlash bucket) where
  live_body-Moves :
      (p k v : Bytes) (live : Bool)
      → has_prefix k (object_scan_prefix bucket p) ≡ true
      → Moves (λ (_ : Bytes) (_ : Bool). Unit) Ended k (live_body kv objects tx bucket k v live)
  unfolding live_body Ended
  live_body-Moves p k v live h =
      option_elim (Moves (λ _ _. Unit) Ended k) (split_object_key k) _ _ (λ _. tt)
        (λ name e.
          if_elim (Moves (λ _ _. Unit) Ended k)
            (elim (objects.decode v) [ none ↦ false | some o ↦ not o.delete_marker ]) _ _ (λ _. tt)
            (λ _.
              jump_to-Moves (λ _ _. Unit) Ended (object_prefix bucket name.key) k [] live
                (split_object_key-has_prefix bucket p k name nb h e) tt (λ _ _. tt)))

  -- hasLiveKey returns, whatever the store holds.
  pub has_live_key-Ended : (p : Bytes) → Ended (has_live_key kv objects tx bucket p)
  unfolding has_live_key Ended
  has_live_key-Ended p =
      scan_enough_lem kv tx (object_scan_prefix bucket p) (live_body kv objects tx bucket)
        (λ _ _. Unit) Ended (λ _ _ _ _. tt)
        (λ start k v s _ found.
          live_body-Moves p k v s
            (first_from-some kv tx (object_scan_prefix bucket p) start k v found).0)
        (object_scan_prefix bucket p) false tt
