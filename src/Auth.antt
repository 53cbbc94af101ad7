-- ===== src/Auth.antt =====
-- Authentication by an ID token (auth/oidc.go, with OIDCConfig of config/config.go).
pub mod Identities
use lightspeed_chat.Base.{
  Text, Bool, true, false, ◌||◌, Option, none, some, List, [], ◌∷◌, if◌then◌else◌, text_eq,
}
use lightspeed_chat.Strings.{is_empty}

pub record OidcConfig : Type 0 where
  pub name : Text
  pub client_id : Text
  pub provider_url : Text

-- `oidc.Config`, as far as the code sets it.
pub record VerifierConfig : Type 0 where
  pub client_id : Text
  pub skip_client_id_check : Bool

-- The claims that are read, empty where the token has none of the name.
pub record Claims : Type 0 where
  pub sub : Text
  pub preferred_username : Text

-- The library go-oidc: `NewProvider`, `Verify` of the verifier of a provider, and `Claims`, which
-- decodes into the struct. `none` stands for an error.
pub record OidcLib : Type 1 where
  pub Provider : Type 0
  pub IdToken : Type 0
  pub new_provider : Text → Option Provider
  pub verify : Provider → VerifierConfig → Text → Option IdToken
  pub claims : IdToken → Option Claims

abbrev pub no_configs : List OidcConfig → Bool
no_configs [] = true
no_configs (c ∷ configs) = false

-- The loop that looks for the provider's configuration.
unfoldable pub find_config : Text → List OidcConfig → Option OidcConfig
find_config provider [] = none
find_config provider (c ∷ configs) =
    if text_eq c.name provider then some c else find_config provider configs

unfoldable pub verifier_config : OidcConfig → VerifierConfig
verifier_config c =
    if is_empty c.client_id
    then record { client_id = []; skip_client_id_check = true }
    else record { client_id = c.client_id; skip_client_id_check = false }

unfoldable pub claimed_id : Claims → Text
claimed_id claims =
    if is_empty claims.preferred_username then claims.sub else claims.preferred_username

abbrev pub and_then : {A B : Type 0} → Option A → (A → Option B) → Option B
and_then none f = none
and_then (some a) f = f a

module _ (lib : OidcLib) where
  -- What follows once the configuration is found.
  unfoldable pub verified_id : OidcConfig → Text → Option Text
  unfolding verifier_config claimed_id
  verified_id c id_token = and_then (lib.new_provider c.provider_url) λ provider.
      and_then (lib.verify provider (verifier_config c) id_token)
        λ token. and_then (lib.claims token) (λ claims. some (claimed_id claims))

  -- `Authenticate(idToken, oidcProvider, cfg)` with the list cfg.OIDCConfigs: `none` for an error,
  -- the empty text where no configuration applies.
  unfoldable pub authenticate : List OidcConfig → Text → Text → Option Text
  unfolding find_config verified_id
  authenticate configs id_token provider =
      if is_empty id_token || no_configs configs
      then some []
      else elim (find_config provider configs) [ none ↦ some [] | some c ↦ verified_id c id_token ]
