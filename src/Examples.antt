-- ===== src/Examples.antt =====
-- A small server for the tests: an operator with a password, one client, one redirect URI. Its
-- URL functions treat a URL as a host without port and path, and its hash appends a mark.
pub mod Gate
pub mod Auth
pub mod Tokens
pub mod Store
pub mod Turns
pub mod Channels
pub mod Tools
pub mod Reader
pub mod Prompts
pub mod Rooms
use Prim.Native.String.{◌++◌}
use tri_onyx.Base.{ℕ, String, true, false, List, [], ◌∷◌, Option, none, some}
use tri_onyx.Mcp.Config.{UrlLibrary, AuthConfig, McpConfig}
use tri_onyx.Mcp.Limiter.{Limiter}
use tri_onyx.Mcp.Storage.{
  Stamp, number, Client, AccessRecord, RefreshRecord, Tables, OAuthStore, File, missing, no_tables,
}
use tri_onyx.Mcp.Auth.{Library, AuthorizationParams, PendingAuthorization, Provider}
use tri_onyx.Mcp.Auth.Login.{LoginTimes}
use tri_onyx.Mcp.Auth.Tokens.{Minting, RefreshToken}

abbrev pub plain_urls : UrlLibrary
plain_urls = record {
  strip = λ s. s;
  rstrip_slash = λ s. s;
  lower = λ s. s;
  decimal = λ n. "80";
  urlsplit = λ s. some (record { scheme = "https"; hostname = some s; port = none; path = "" });
  urlunsplit = λ scheme netloc path. netloc;
}

abbrev pub plain : Library
plain = record {
  urls = plain_urls;
  sha256_hex = λ s. s ++ "#";
  construct_redirect_uri = λ base params. base;
}

abbrev pub operator : AuthConfig
operator = record {
  operator_password = "secret";
  redirect_uris = "callback" ∷ [];
  auth_code_ttl = 300000;
  access_token_ttl = 3600000;
  refresh_token_ttl = 86400000;
  pending_authorization_ttl = 600000;
  max_login_failures = 2;
  lockout = 900000;
  global_failure_threshold = 20;
  global_backoff_max = 30000;
}

abbrev pub config : McpConfig
config = record { public_url = "host"; mcp_path = "/mcp"; auth = operator }

abbrev pub quiet : Limiter
quiet = record {
  max_failures = 2;
  lockout = 900000;
  global_threshold = 20;
  global_backoff_max = 30000;
  max_tracked_ips = 10;
  ips = [];
  global_failures = 0;
  global_reset_at = 0;
}

abbrev pub in_memory : Tables → OAuthStore
in_memory t = record {
  has_path = false;
  max_clients = 1;
  client_ttl = 1000000;
  tables = t;
  write_failed = false;
  file = missing;
  writable = false;
}

abbrev pub server : OAuthStore → Provider
server s = record {
  store = s;
  pending = [];
  completed = [];
  codes = [];
  allowed_redirects = "callback" ∷ [];
  limiter = quiet;
}

abbrev pub fresh_server : Provider
fresh_server = server (in_memory no_tables)

abbrev pub claude : Client
claude = record {
  client_name = some "Claude";
  redirect_uris = "callback" ∷ [];
  token_endpoint_auth_method = "client_secret_post";
  client_secret = some "unused";
  client_id_issued_at = number 5000;
}

abbrev pub params : AuthorizationParams
params = record {
  state = some "s";
  scopes = "chat" ∷ [];
  code_challenge = "challenge";
  redirect_uri = "callback";
  redirect_uri_provided_explicitly = true;
  resource = some "host/mcp";
}

abbrev pub parked : PendingAuthorization
parked = record {
  client_id = "claude";
  redirect_uri = "callback";
  redirect_uri_provided_explicitly = true;
  code_challenge = "challenge";
  scopes = "chat" ∷ [];
  state = some "s";
  resource = some "host/mcp";
  created_at = 10000;
}

-- A server on whose `/login` page the operator is expected.
abbrev pub waiting : Provider
waiting = record fresh_server { pending = ("txn", parked) ∷ [] }

abbrev pub at_20 : LoginTimes
at_20 = record {
  checked = 20000;
  pruned = 20000;
  recorded = 20000;
  issued = 20000;
  finished = 20000;
}

abbrev pub at_30 : LoginTimes
at_30 = record {
  checked = 30000;
  pruned = 30000;
  recorded = 30000;
  issued = 30000;
  finished = 30000;
}

abbrev pub minting : Minting
minting = record { now = 40000; access_token = "access"; refresh_token = "refresh" }

abbrev pub old_refresh : RefreshRecord
old_refresh = record {
  client_id = "claude";
  scopes = "chat" ∷ [];
  expires_at = some 90000;
  absolute_expires_at = some 90000;
  resource = some "host/mcp";
  subject = some "operator";
  access_hash = some "old#";
}

abbrev pub old_access : AccessRecord
old_access = record {
  client_id = "claude";
  scopes = "chat" ∷ [];
  expires_at = some 60000;
  resource = some "host/mcp";
  subject = some "operator";
}

-- A store with one client that holds an access token and the refresh token that minted it.
abbrev pub signed_in : Tables
signed_in = record {
  clients = ("claude", claude) ∷ [];
  access = ("old#", old_access) ∷ [];
  refresh = ("renew#", old_refresh) ∷ [];
}

abbrev pub serving : Provider
serving = server (in_memory signed_in)

abbrev pub renew : RefreshToken
renew = record {
  token = "renew";
  client_id = "claude";
  scopes = "chat" ∷ [];
  expires_at = some 90000;
  subject = some "operator";
}
