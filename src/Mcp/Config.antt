-- ===== src/Mcp/Config.antt =====
-- mcp_server/mcp_server/config.py: the settings of the server and the URLs derived from them.
-- Python's string and URL functions are the record `UrlLibrary`. Durations are milliseconds.
use Prim.Native.String.{◌++◌}
use tri_onyx.Base.{
  ℕ, String, Bool, List, Option, none, some, ◌&&◌, ◌||◌, ◌==◌, not, if◌then◌else◌, ℕ_eq, String_eq,
}

-- What `urlsplit` finds in a URL: `scheme`, `hostname`, `port` and `path`.
pub record UrlParts : Type 0 where
  pub scheme : String
  pub hostname : Option String
  pub port : Option ℕ
  pub path : String

-- urllib.parse and str; `urlsplit` is `none` where it, or the access to `port`, raises ValueError.
pub record UrlLibrary : Type 0 where
  pub strip : String → String
  pub rstrip_slash : String → String
  pub lower : String → String
  pub decimal : ℕ → String
  pub urlsplit : String → Option UrlParts
  pub urlunsplit : String → String → String → String

abbrev pub or_empty : Option String → String
or_empty none = ""
or_empty (some s) = s

unfoldable pub is_default_port : String → ℕ → Bool
is_default_port scheme port = (scheme == "http" && port == 80) || (scheme == "https" && port == 443)

unfoldable pub netloc_of : UrlLibrary → String → String → Option ℕ → String
unfolding is_default_port
netloc_of lib scheme host none = host
netloc_of lib scheme host (some port) =
    if not (is_default_port scheme port) then host ++ (":" ++ lib.decimal port) else host

unfoldable pub canonical_resource : UrlLibrary → String → Option String
unfolding netloc_of
canonical_resource lib url = elim (lib.urlsplit (lib.strip url)) [
  | none ↦ none
  | some parts ↦
      let scheme = lib.lower parts.scheme in
      let host = lib.lower (or_empty parts.hostname) in
      some
        (lib.urlunsplit scheme (netloc_of lib scheme host parts.port) (lib.rstrip_slash parts.path))
]

pub record AuthConfig : Type 0 where
  pub operator_password : String
  pub redirect_uris : List String
  pub auth_code_ttl : ℕ
  pub access_token_ttl : ℕ
  pub refresh_token_ttl : ℕ
  pub pending_authorization_ttl : ℕ
  pub max_login_failures : ℕ
  pub lockout : ℕ
  pub global_failure_threshold : ℕ
  pub global_backoff_max : ℕ

pub record McpConfig : Type 0 where
  pub public_url : String
  pub mcp_path : String
  pub auth : AuthConfig

module _ (lib : UrlLibrary) (cfg : McpConfig) where
  unfoldable pub issuer_url : String
  issuer_url = lib.rstrip_slash cfg.public_url

  unfoldable pub resource_url : String
  unfolding issuer_url
  resource_url = issuer_url ++ cfg.mcp_path

  unfoldable pub canonical_resource_url : Option String
  unfolding resource_url
  canonical_resource_url = canonical_resource lib resource_url

  unfoldable pub canonical_issuer_url : Option String
  unfolding issuer_url
  canonical_issuer_url = canonical_resource lib issuer_url

  unfoldable pub login_url : String
  unfolding issuer_url
  login_url = issuer_url ++ "/login"
