-- ===== src/Mcp/Auth.antt =====
-- mcp_server/mcp_server/auth.py: the state of `TriOnyxAuthProvider`, client registration and
-- `/authorize`. `secrets.token_urlsafe` and the clock readings are arguments, in the order in which
-- the code takes them; `construct_redirect_uri` (package mcp) and SHA-256 are fields of `Library`.
pub mod Login
pub mod Tokens
pub mod Password
pub mod Replay
pub mod Requests
pub mod Exchange
pub mod Rotation
pub mod Lifetime
pub mod Revocation
pub mod Flow
pub mod Safety
use tri_onyx.Base.{
  ℕ, ◌+◌, String, Bool, true, false, ◌||◌, List, [], ◌∷◌, map, Option, none, some, ltb, ◌==◌, ◌>>=◌,
  if◌then◌else◌, contains, is_nonempty, length, String_eq,
}
use tri_onyx.Dict.{Dict, get, put, remove_all, select, keys, values, evict_least}
use tri_onyx.Mcp.Config.{
  UrlLibrary, AuthConfig, McpConfig, canonical_resource, canonical_resource_url,
  canonical_issuer_url, login_url,
}
use tri_onyx.Mcp.Limiter.{Limiter}
use tri_onyx.Mcp.Storage.{Client, OAuthStore, get_client, put_client}

pub record Library : Type 0 where
  pub urls : UrlLibrary
  pub sha256_hex : String → String
  pub construct_redirect_uri : String → List (String × Option String) → String

-- The exceptions, with the `error` code where they have one.
pub data Raised : Type 0 where
  value_error login_expired login_rejected : Raised
  login_locked : ℕ → Raised
  registration_error authorize_error token_error : String → Raised

pub data Result {ℓ} (A : Type ℓ) : Type ℓ where
  returned : A → Result A
  raised : Raised → Result A

pub record PendingAuthorization : Type 0 where
  pub client_id : String
  pub redirect_uri : String
  pub redirect_uri_provided_explicitly : Bool
  pub code_challenge : String
  pub scopes : List String
  pub state : Option String
  pub resource : Option String
  pub created_at : ℕ

pub record CompletedLogin : Type 0 where
  pub redirect_url : String
  pub expires_at : ℕ

pub record AuthorizationCode : Type 0 where
  pub code : String
  pub scopes : List String
  pub expires_at : ℕ
  pub client_id : String
  pub code_challenge : String
  pub redirect_uri : String
  pub redirect_uri_provided_explicitly : Bool
  pub resource : Option String
  pub subject : String

pub record Provider : Type 0 where
  pub store : OAuthStore
  pub pending : Dict String PendingAuthorization
  pub completed : Dict String CompletedLogin
  pub codes : Dict String AuthorizationCode
  pub allowed_redirects : List String
  pub limiter : Limiter

-- `AuthorizationParams` of the package mcp
pub record AuthorizationParams : Type 0 where
  pub state : Option String
  pub scopes : List String
  pub code_challenge : String
  pub redirect_uri : String
  pub redirect_uri_provided_explicitly : Bool
  pub resource : Option String

-- _MAX_PENDING
abbrev pub max_pending : ℕ
max_pending = 64

-- _SUBJECT
abbrev pub subject : String
subject = "operator"

abbrev pub as_public : Client → Client
as_public c = record c { token_endpoint_auth_method = "none"; client_secret = none }

-- `record.get("client_name") or pending.client_id`
abbrev pub shown_name : Option Client → String → String
shown_name none client_id = client_id
shown_name (some c) client_id = elim c.client_name [
  | none ↦ client_id
  | some name ↦ if name == "" then client_id else name
]

module _ (lib : Library) (cfg : McpConfig) where
  -- `{canonical_resource(u) for u in config.auth.redirect_uris}`, `none` where one raises
  unfoldable pub canonical_redirects : List String → Option (List String)
  canonical_redirects [] = some []
  canonical_redirects (u ∷ us) = do
    c ← canonical_resource lib.urls u
    cs ← canonical_redirects us
    some (c ∷ cs)

  abbrev pub new_limiter : Limiter
  new_limiter = record {
    max_failures = cfg.auth.max_login_failures;
    lockout = cfg.auth.lockout;
    global_threshold = cfg.auth.global_failure_threshold;
    global_backoff_max = cfg.auth.global_backoff_max;
    max_tracked_ips = 10000;
    ips = [];
    global_failures = 0;
    global_reset_at = 0;
  }

  -- `__init__`
  unfoldable pub new_provider : OAuthStore → Option Provider
  unfolding canonical_redirects
  new_provider store = do
    allowed ← canonical_redirects cfg.auth.redirect_uris
    some (record {
      store = store;
      pending = [];
      completed = [];
      codes = [];
      allowed_redirects = allowed;
      limiter = new_limiter;
    })

  unfoldable pub redirect_allowed : String → Provider → Option Bool
  redirect_allowed uri p = do
    c ← canonical_resource lib.urls uri
    some (contains c p.allowed_redirects)

  unfoldable pub resource_ok : Option String → Option Bool
  resource_ok none = some true
  resource_ok (some resource) = do
    candidate ← canonical_resource lib.urls resource
    audience ← canonical_resource_url lib.urls cfg
    issuer ← canonical_issuer_url lib.urls cfg
    some (candidate == audience || candidate == issuer)

  unfoldable pub prune_pending : ℕ → Provider → Provider
  prune_pending now p =
      let ttl = cfg.auth.pending_authorization_ttl in
      record p {
        pending =
            remove_all
              (select (λ _ (a : PendingAuthorization). ltb (a.created_at + ttl) now) p.pending)
              p.pending;
        completed =
            remove_all (select (λ _ (c : CompletedLogin). ltb c.expires_at now) p.completed)
              p.completed;
        codes =
            remove_all (select (λ _ (c : AuthorizationCode). ltb c.expires_at now) p.codes) p.codes;
      }

  unfoldable pub pending_client_ids : ℕ → Provider → List String × Provider
  pending_client_ids now p =
      let p' = prune_pending now p in
      (map (λ (a : PendingAuthorization). a.client_id) (values p'.pending), p')

  unfoldable pub has_pending : String → ℕ → Provider → Bool × Provider
  has_pending txn now p = let p' = prune_pending now p in (contains txn (keys p'.pending), p')

  -- `for uri in redirect_uris: if not self._redirect_allowed(uri): raise …`
  unfoldable pub refused_redirect : List String → Provider → Option Raised
  refused_redirect [] p = none
  refused_redirect (uri ∷ uris) p = elim (redirect_allowed uri p) [
    | none ↦ some value_error
    | some true ↦ refused_redirect uris p
    | some false ↦ some (registration_error "invalid_redirect_uri")
  ]

  unfoldable pub register_client : String → Client → ℕ → ℕ → Provider → Result Client × Provider
  unfolding refused_redirect pending_client_ids
  register_client client_id client pruned stamped p =
      let info = as_public client in
      if is_nonempty info.redirect_uris
      then elim (refused_redirect info.redirect_uris p) [
        | some e ↦ (raised e, p)
        | none ↦
            let (protected, p') = pending_client_ids pruned p in
            let (stored, store') = put_client client_id info protected stamped p'.store in
            (
              (if stored
                  then returned info
                  else raised (registration_error "invalid_client_metadata")),
              record p' { store = store' },
            )
      ]
      else (raised (registration_error "invalid_redirect_uri"), p)

  -- What is left after `while len(self._pending) >= _MAX_PENDING: …`
  unfoldable pub make_room : Provider → Provider
  make_room p = record p {
    pending =
        evict_least (λ (a : PendingAuthorization). a.created_at) max_pending (length p.pending)
          p.pending;
  }

  unfoldable pub park : String → AuthorizationParams → String → ℕ → ℕ → Provider → Provider
  unfolding prune_pending make_room
  park client_id params txn pruned created p =
      let p' = make_room (prune_pending pruned p) in
      record p' {
        pending =
            put txn
              (record {
                client_id = client_id;
                redirect_uri = params.redirect_uri;
                redirect_uri_provided_explicitly = params.redirect_uri_provided_explicitly;
                code_challenge = params.code_challenge;
                scopes = params.scopes;
                state = params.state;
                resource = params.resource;
                created_at = created;
              })
              p'.pending;
      }

  unfoldable pub authorize :
      String → AuthorizationParams → String → ℕ → ℕ → Provider → Result String × Provider
  authorize client_id params txn pruned created p = elim (redirect_allowed params.redirect_uri p) [
    | none ↦ (raised value_error, p)
    | some false ↦ (raised (authorize_error "access_denied"), p)
    | some true ↦ elim (resource_ok params.resource) [
      | none ↦ (raised value_error, p)
      | some false ↦ (raised (authorize_error "invalid_target"), p)
      | some true ↦
          if params.code_challenge == "" then (raised (authorize_error "invalid_request"), p) else (
            returned (lib.construct_redirect_uri (login_url lib.urls cfg) (("txn", some txn) ∷ [])),
            park client_id params txn pruned created p,
          )
    ]
  ]

  -- client_name, client_id, redirect_uri
  unfoldable pub pending_details : String → Provider → Option (String × String × String)
  pending_details txn p = do
    a ← get txn p.pending
    some (shown_name (get_client a.client_id p.store) a.client_id, a.client_id, a.redirect_uri)
