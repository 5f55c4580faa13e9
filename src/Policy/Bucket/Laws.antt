-- ===== src/Policy/Bucket/Laws.antt =====
-- Bucket policies: what a valid one may name, what counts as public, and that resource names are
-- told apart.
use opens.Prelude.{
  ◌≡◌, refl, sym, ◌≢◌, ap, ◌∙◌, ◌⊎◌, true, false, none, some, List, [], ◌∷◌, ◌++◌, Bytes, All, drop,
  any, all, arith,
}
use opens.Policy.Std.{Std}
use opens.Policy.Glob.{match}
use opens.Policy.Document.{allow, Principal, Statement, Document, Args, allowed}
use mathlib.Core.List.{append-nil}
use opens.Policy.Evaluate.Laws.{evaluate-verdict}
use opens.Policy.Evaluate.{
  evaluate, statement_matches, match_any, match_any_vars, principal_matches,
}
use opens.Policy.Bucket.{arn_prefix, bucket_part, is_public, resource_arn}

-- The resource names this bucket, or a pattern that this bucket matches.
abbrev pub Within : Bytes → Bytes → Type 0
Within bucket r =
    (rest : Bytes) × (r ≡ arn_prefix ++ rest)
    × ((match (bucket_part rest) bucket ≡ true) ⊎ (bucket_part rest ≡ bucket))

module _ (std : Std) where
  -- The statement excludes a principal that the caller is not, and everything else applies.
  not_principal_matches :
      (st : Statement) (p : Principal) (a : Args)
      → st.principal ≡ none
      → st.not_principal ≡ some p
      → principal_matches std p a ≡ false
      → st.conditions ≡ []
      → st.not_actions ≡ []
      → st.not_resources ≡ []
      → match_any std st.actions a.action ≡ true
      → match_any_vars std st.resources a.resource a.vars ≡ true
      → statement_matches std st a ≡ true
  unfolding statement_matches all
  not_principal_matches st p a hp hn hm hc hna hnr act res =
      rw (hp, hn, hm, hc, hna, hnr, act, res) (ground arith)

  -- A policy whose one statement allows by NotPrincipal, of a principal that is not everyone,
  -- without conditions and excluded actions or resources, is not public by `IsPublic`, although
  -- an anonymous request that its actions and resources cover is allowed.
  pub is_public-not_principal :
      (d : Document) (st : Statement) (p : Principal) (a : Args)
      → d.statements ≡ st ∷ []
      → st.effect ≡ allow
      → st.principal ≡ none
      → st.not_principal ≡ some p
      → p.everyone ≡ false
      → a.anonymous ≡ true
      → st.conditions ≡ []
      → st.not_actions ≡ []
      → st.not_resources ≡ []
      → match_any std st.actions a.action ≡ true
      → match_any_vars std st.resources a.resource a.vars ≡ true
      → (evaluate std d a ≡ allowed) × (is_public std d ≡ false)
  unfolding is_public any
  is_public-not_principal d st p a hd he hp hn everyone anonymous hc hna hnr act res =
      let excluded : principal_matches std p a ≡ false =
        unfold principal_matches in rw (everyone, anonymous) in
      let fits : statement_matches std st a ≡ true =
        not_principal_matches st p a hp hn excluded hc hna hnr act res in
      (evaluate-verdict std d a ∙ rw hd (rw (fits, he)), rw hd (rw (he, hp)))

-- What follows the bucket in a resource name.
abbrev key_part : Bytes → Bytes
key_part [] = []
key_part (c ∷ k) = b'/' ∷ c ∷ k

resource_arn-parts : (b k : Bytes) → resource_arn b k ≡ arn_prefix ++ (b ++ key_part k)
unfolding resource_arn
resource_arn-parts b [] = rw append-nil
resource_arn-parts b (c ∷ k) = refl

key_part-injective : (k k' : Bytes) → key_part k ≡ key_part k' → k ≡ k'
key_part-injective [] [] h = refl
key_part-injective [] (c ∷ k') h = cc
key_part-injective (c ∷ k) [] h = cc
key_part-injective (c ∷ k) (d ∷ k') h = cc

bucket_key-injective :
    (b b' k k' : Bytes)
    → All (λ c. c ≢ b'/') b
    → All (λ c. c ≢ b'/') b'
    → b ++ key_part k ≡ b' ++ key_part k'
    → (b ≡ b') × (k ≡ k')
bucket_key-injective [] [] k k' n n' h = (refl, key_part-injective k k' h)
bucket_key-injective [] (y ∷ b') [] k' n n' h = absurd (cc)
bucket_key-injective [] (y ∷ b') (c ∷ k) k' n n' h = ground arith
bucket_key-injective (x ∷ b) [] k [] n n' h = absurd (cc)
bucket_key-injective (x ∷ b) [] k (c ∷ k') n n' h = ground arith
bucket_key-injective (x ∷ b) (y ∷ b') k k' n n' h =
    ground (arith, bucket_key-injective b b' k k' n.1 n'.1)

-- Resource names are told apart: if the names of the buckets have no slash, two objects have the
-- same resource name only if bucket and key are the same.
pub resource_arn-injective :
    (b b' k k' : Bytes)
    → All (λ c. c ≢ b'/') b
    → All (λ c. c ≢ b'/') b'
    → resource_arn b k ≡ resource_arn b' k'
    → (b ≡ b') × (k ≡ k')
resource_arn-injective b b' k k' n n' h =
    bucket_key-injective b b' k k' n n'
      (ap (drop 13) (sym (resource_arn-parts b k) ∙ h ∙ resource_arn-parts b' k'))
