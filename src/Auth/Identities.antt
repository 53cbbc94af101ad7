-- ===== src/Auth/Identities.antt =====
-- Which identities a token proves (auth/oidc.go), alone and for a plugin that asks (ws/events.go).
use lightspeed_chat.Base.{
  true, false, ◌⊎◌, ◌||◌, ap, subst, sym, Text, ◌≡◌, ◌≢◌, refl, Option, none, some, List, [], ◌∷◌,
  ◌++◌, All, text_eq, text_eq_iff, Bool-cases, Option-cases, inl, inr,
}
use mathlib.Core.Option.{some-injective}
use lightspeed_chat.Strings.{is_empty}
use lightspeed_chat.Auth.{
  VerifierConfig, OidcLib, OidcConfig, Claims, find_config, verifier_config, claimed_id, and_then,
  verified_id, authenticate, no_configs,
}

-- The first configuration of a name.
pub record IsFirst (name : Text) (configs : List OidcConfig) (c : OidcConfig) : Type 0 where
  pub before : List OidcConfig
  pub behind : List OidcConfig
  pub split : configs ≡ before ++ (c ∷ behind)
  pub named : c.name ≡ name
  pub others : All (λ b. b.name ≢ name) before

find_config-IsFirst :
    (name : Text) (configs : List OidcConfig) (c : OidcConfig)
    → find_config name configs ≡ some c
    → IsFirst name configs c
unfolding find_config
find_config-IsFirst name [] c h = cc h
find_config-IsFirst name (b ∷ configs) c h = elim (Bool-cases (text_eq b.name name)) [
  | inl hit ↦ subst (IsFirst name (b ∷ configs)) (some-injective b c (rw hit at h)) (record {
    before = [];
    behind = configs;
    split = refl;
    named = (text_eq_iff b.name name).0 hit;
    others = tt;
  })
  | inr miss ↦
      let r = find_config-IsFirst name configs c (rw miss at h) in
      record {
        before = b ∷ r.before;
        behind = r.behind;
        split = ap (λ cs. b ∷ cs) r.split;
        named = r.named;
        others = (λ e. cc ((text_eq_iff b.name name).1 e, miss), r.others);
      }
]

-- The verifier checks the client of a token, unless the configuration names none.
abbrev pub Fits : OidcConfig → VerifierConfig → Type 0
Fits c v =
    (c.client_id ≡ []) × (v.skip_client_id_check ≡ true)
    ⊎ (c.client_id ≢ []) × (v.skip_client_id_check ≡ false) × (v.client_id ≡ c.client_id)

-- The preferred name is the identity, the subject where there is none.
abbrev pub IsNameOf : Text → Claims → Type 0
IsNameOf id claims =
    (claims.preferred_username ≢ []) × (id ≡ claims.preferred_username)
    ⊎ (claims.preferred_username ≡ []) × (id ≡ claims.sub)

empty-cases : (t : Text) → (t ≡ []) × (is_empty t ≡ true) ⊎ (t ≢ []) × (is_empty t ≡ false)
empty-cases [] = inl (refl, refl)
empty-cases (c ∷ t) = inr (λ e. cc e, refl)

verifier_config-Fits : (c : OidcConfig) → Fits c (verifier_config c)
unfolding verifier_config
verifier_config-Fits c = elim (empty-cases c.client_id) [
  | inl (e, empty) ↦ inl (e, rw empty refl)
  | inr (ne, full) ↦ inr (ne, rw full refl, rw full refl)
]

claimed_id-IsNameOf : (claims : Claims) → IsNameOf (claimed_id claims) claims
unfolding claimed_id
claimed_id-IsNameOf claims = elim (empty-cases claims.preferred_username) [
  | inl (e, empty) ↦ inr (e, rw empty refl)
  | inr (ne, full) ↦ inl (ne, rw full refl)
]

-- What stands behind an identity: the claims of a token that the provider verified.
pub record IsVerified (lib : OidcLib) (c : OidcConfig) (id_token id : Text) : Type 0 where
  pub provider : lib.Provider
  pub token : lib.IdToken
  pub config : VerifierConfig
  pub fits : Fits c config
  pub claims : Claims
  pub reached : lib.new_provider c.provider_url ≡ some provider
  pub verified : lib.verify provider config id_token ≡ some token
  pub claimed : lib.claims token ≡ some claims
  pub own : IsNameOf id claims

and_then-some :
    {A B : Type 0} (o : Option A) (f : A → Option B) (b : B)
    → and_then o f ≡ some b
    → (a : A) × (o ≡ some a) × (f a ≡ some b)
and_then-some none f b h = cc h
and_then-some (some a) f b h = (a, refl, h)

module _ (lib : OidcLib) where
  verified_id-IsVerified :
      (c : OidcConfig) (id_token id : Text)
      → verified_id lib c id_token ≡ some id
      → IsVerified lib c id_token id
  unfolding verified_id
  verified_id-IsVerified c id_token id h =
      let (provider, reached, h1) = and_then-some (lib.new_provider c.provider_url) _ id h in
      let (token, verified, h2) =
        and_then-some (lib.verify provider (verifier_config c) id_token) _ id h1 in
      let (claims, claimed, h3) = and_then-some (lib.claims token) _ id h2 in
      record {
        provider = provider;
        token = token;
        config = verifier_config c;
        fits = verifier_config-Fits c;
        claims = claims;
        reached = reached;
        verified = verified;
        claimed = claimed;
        own =
            subst (λ i. IsNameOf i claims) (some-injective (claimed_id claims) id h3)
              (claimed_id-IsNameOf claims);
      }

  -- Every identity but the empty one that Authenticate returns without an error is the
  -- preferred_username, or the sub where that is empty, of a token that the provider of the first
  -- configuration of the given name has verified, for the client_id of that configuration or, where
  -- that is empty, for any client.
  pub authenticate-IsVerified :
      (configs : List OidcConfig) (id_token provider id : Text)
      → authenticate lib configs id_token provider ≡ some id
      → id ≢ []
      → (c : OidcConfig) × IsFirst provider configs c × IsVerified lib c id_token id
  unfolding authenticate
  authenticate-IsVerified configs id_token provider id h ne =
      elim (Bool-cases (is_empty id_token || no_configs configs)) [
        | inl skip ↦ absurd (ne (sym (some-injective [] id (rw skip at h))))
        | inr on ↦ elim (Option-cases (find_config provider configs)) [
          | inl gone ↦ absurd (ne (sym (some-injective [] id (rw (on, gone) at h))))
          | inr (c, at) ↦ (
            c,
            find_config-IsFirst provider configs c at,
            verified_id-IsVerified c id_token id (rw (on, at) at h),
          )
        ]
      ]
