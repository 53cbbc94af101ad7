-- ===== src/Examples/Tokens.antt =====
-- The theorem on authentication, at a concrete provider (auth/oidc.go).
use lightspeed_chat.Base.{Text, codes, refl, none, some, List, [], ◌∷◌, if◌then◌else◌, text_eq}
use lightspeed_chat.Auth.{OidcLib, OidcConfig, authenticate, find_config, verified_id}
use lightspeed_chat.Auth.Identities.{IsFirst, IsVerified, authenticate-IsVerified}

abbrev oidc : OidcLib
oidc = record {
  Provider = Text;
  IdToken = Text;
  new_provider = λ url. some url;
  verify = λ provider config token. if text_eq token (codes "forged") then none else some token;
  claims = λ token. some (record { sub = codes "1"; preferred_username = token });
}

abbrev configs : List OidcConfig
configs =
    record { name = codes "a"; client_id = codes "chat"; provider_url = codes "https://a" }
    ∷ record { name = codes "b"; client_id = []; provider_url = codes "https://b" }
    ∷ []

authenticate-IsVerified_example :
    (c : OidcConfig) × IsFirst (codes "b") configs c × IsVerified oidc c (codes "ann") (codes "ann")
unfolding authenticate find_config verified_id text_eq
authenticate-IsVerified_example =
    authenticate-IsVerified oidc configs (codes "ann") (codes "b") (codes "ann") refl (λ e. cc e)
