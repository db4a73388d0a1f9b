-- ===== src/Mcp/Auth/Tokens.antt =====
-- mcp_server/mcp_server/auth.py: authorization codes, access tokens and refresh tokens.
use tri_onyx.Base.{
  ℕ, zero, suc, ◌+◌, String, Bool, true, false, List, Option, none, some, ltb, ◌==◌, if◌then◌else◌,
  whole_seconds, String_eq,
}
use tri_onyx.Dict.{get, remove}
use tri_onyx.Mcp.Config.{McpConfig, canonical_resource_url}
use tri_onyx.Mcp.Storage.{
  AccessRecord, RefreshRecord, OAuthStore, hash_token, put_access_token, get_access_token,
  delete_access_token_hash, put_refresh_token, get_refresh_token, pop_refresh_token,
  delete_refresh_tokens_for_access, is_past, or_else,
}
use tri_onyx.Mcp.Auth.{
  Library, Result, returned, raised, value_error, token_error, AuthorizationCode, Provider, subject,
}

-- `OAuthToken`, `RefreshToken` and `AccessToken` of the package mcp
pub record OAuthToken : Type 0 where
  pub access_token : String
  pub expires_in : ℕ
  pub scope : List String
  pub refresh_token : String

pub record RefreshToken : Type 0 where
  pub token : String
  pub client_id : String
  pub scopes : List String
  pub expires_at : Option ℕ
  pub subject : Option String

pub record AccessToken : Type 0 where
  pub token : String
  pub client_id : String
  pub scopes : List String
  pub expires_at : Option ℕ
  pub resource : Option String
  pub subject : Option String

-- The clock reading and the two random tokens of `_issue_tokens`.
pub record Minting : Type 0 where
  pub now : ℕ
  pub access_token : String
  pub refresh_token : String

-- `x or y` for a number that may be None
abbrev pub or_number : Option ℕ → ℕ → ℕ
or_number none y = y
or_number (some zero) y = y
or_number (some (suc x)) y = suc x

-- `y if x is None`
abbrev pub unless_none : Option ℕ → ℕ → ℕ
unless_none none y = y
unless_none (some x) y = x

-- `if record.get("access_hash")`
abbrev pub truthy : Option String → Option String
truthy none = none
truthy (some h) = if h == "" then none else some h

-- `int(expires_at) if expires_at is not None else None`
abbrev pub whole : Option ℕ → Option ℕ
whole none = none
whole (some t) = some (whole_seconds t)

abbrev pub drop_minted_access : RefreshRecord → OAuthStore → OAuthStore
drop_minted_access r s = elim (truthy r.access_hash) [
  | none ↦ s
  | some h ↦ delete_access_token_hash h s
]

-- `record.get("resource") not in (None, audience)`
abbrev pub is_foreign : Option String → String → Bool
is_foreign none audience = false
is_foreign (some r) audience = if r == audience then false else true

module _ (lib : Library) (cfg : McpConfig) where
  unfoldable pub access_record : String → List String → String → Minting → AccessRecord
  access_record client_id scopes audience m = record {
    client_id = client_id;
    scopes = scopes;
    expires_at = some (whole_seconds (m.now + cfg.auth.access_token_ttl));
    resource = some audience;
    subject = some subject;
  }

  -- `absolute` is None at first issuance and otherwise what the consumed refresh token holds; the
  -- code passes it as `refresh_expires_at` too.
  unfoldable pub refresh_record :
      String → List String → String → Option ℕ → String → Minting → RefreshRecord
  refresh_record client_id scopes audience absolute access_hash m =
      let absolute_expires_at = unless_none absolute (m.now + cfg.auth.refresh_token_ttl) in
      record {
        client_id = client_id;
        scopes = scopes;
        expires_at = some (whole_seconds (or_number absolute absolute_expires_at));
        absolute_expires_at = some absolute_expires_at;
        resource = some audience;
        subject = some subject;
        access_hash = some access_hash;
      }

  unfoldable pub issue_tokens :
      String → List String → Option ℕ → Minting → Provider → Result OAuthToken × Provider
  unfolding access_record refresh_record
  issue_tokens client_id scopes absolute m p = elim (canonical_resource_url lib.urls cfg) [
    | none ↦ (raised value_error, p)
    | some audience ↦
        let (access_hash, s) =
          put_access_token lib.sha256_hex m.access_token (access_record client_id scopes audience m)
            p.store in
        let (_, s') =
          put_refresh_token lib.sha256_hex m.refresh_token
            (refresh_record client_id scopes audience absolute access_hash m) s in
        (
          returned (record {
            access_token = m.access_token;
            expires_in = cfg.auth.access_token_ttl;
            scope = scopes;
            refresh_token = m.refresh_token;
          }),
          record p { store = s' },
        )
  ]

  unfoldable pub load_authorization_code : String → String → Provider → Option AuthorizationCode
  load_authorization_code client_id code p = elim (get code p.codes) [
    | none ↦ none
    | some r ↦ if r.client_id == client_id then some r else none
  ]

  unfoldable pub exchange_authorization_code :
      String → AuthorizationCode → ℕ → Minting → Provider → Result OAuthToken × Provider
  unfolding issue_tokens
  exchange_authorization_code client_id authorization_code now m p =
      let p' = record p { codes = remove authorization_code.code p.codes } in
      elim (get authorization_code.code p.codes) [
        | none ↦ (raised (token_error "invalid_grant"), p')
        | some r ↦
            if ltb r.expires_at now
            then (raised (token_error "invalid_grant"), p')
            else issue_tokens client_id r.scopes none m p'
      ]

  unfoldable pub load_refresh_token : String → String → Provider → Option RefreshToken
  load_refresh_token client_id token p = elim (get_refresh_token lib.sha256_hex token p.store) [
    | none ↦ none
    | some r ↦
        if r.client_id == client_id
        then some (record {
          token = token;
          client_id = r.client_id;
          scopes = r.scopes;
          expires_at = whole r.expires_at;
          subject = r.subject;
        })
        else none
  ]

  -- A consumed refresh token that is the client's own and has not expired.
  unfoldable pub rotate :
      String → List String → RefreshRecord → Minting → Provider → Result OAuthToken × Provider
  unfolding issue_tokens
  rotate client_id scopes r m p =
      issue_tokens client_id (or_else scopes r.scopes) r.absolute_expires_at m
        (record p { store = drop_minted_access r p.store })

  unfoldable pub exchange_refresh_token :
      String → RefreshToken → List String → ℕ → Minting → Provider → Result OAuthToken × Provider
  unfolding rotate
  exchange_refresh_token client_id refresh_token scopes now m p =
      let (consumed, s) = pop_refresh_token lib.sha256_hex refresh_token.token p.store in
      let p' = record p { store = s } in
      elim consumed [
        | none ↦ (raised (token_error "invalid_grant"), p')
        | some r ↦
            if r.client_id == client_id
            then (if is_past r.expires_at now
                then (raised (token_error "invalid_grant"), p')
                else rotate client_id scopes r m p')
            else (raised (token_error "invalid_grant"), p')
      ]

  unfoldable pub checked_access :
      String → AccessRecord → Provider → Result (Option AccessToken) × Provider
  checked_access token r p = elim (canonical_resource_url lib.urls cfg) [
    | none ↦ (raised value_error, p)
    | some audience ↦ if is_foreign r.resource audience then (returned none, p) else (
      returned (
          some (record {
            token = token;
            client_id = r.client_id;
            scopes = r.scopes;
            expires_at = whole r.expires_at;
            resource = r.resource;
            subject = r.subject;
          })),
      p,
    )
  ]

  unfoldable pub load_access_token : String → ℕ → Provider → Result (Option AccessToken) × Provider
  unfolding checked_access
  load_access_token token now p = elim (get_access_token lib.sha256_hex token p.store) [
    | none ↦ (returned none, p)
    | some r ↦
        if is_past r.expires_at now
        then (
          returned none,
          record p { store = delete_access_token_hash (hash_token lib.sha256_hex token) p.store },
        )
        else checked_access token r p
  ]

  -- `revoke_token` of a RefreshToken
  unfoldable pub revoke_refresh_token : String → Provider → Provider
  revoke_refresh_token token p =
      let (consumed, s) = pop_refresh_token lib.sha256_hex token p.store in
      record p { store = elim consumed [ none ↦ s | some r ↦ drop_minted_access r s ] }

  -- `revoke_token` of an AccessToken
  unfoldable pub revoke_access_token : String → Provider → Provider
  revoke_access_token token p =
      let digest = hash_token lib.sha256_hex token in
      record p {
        store =
            (delete_refresh_tokens_for_access digest (delete_access_token_hash digest p.store)).1;
      }
