-- ===== src/Mcp/Auth/Exchange.antt =====
-- The exchange of an authorization code, and the access tokens that come of it.
use tri_onyx.Base.{
  ℕ, ◌+◌, ◌≤◌, String, false, List, Option, none, some, ltb, ◌≡◌, ◌⊎◌, refl, arith, inl, inr,
  Bool-cases, Option-cases, ◌∙◌, String_eq, ap, whole_seconds, equals_refl,
}
use tri_onyx.Dict.{get, put, remove}
use tri_onyx.Dict.Laws.{get-put_self, get-remove_self}
use tri_onyx.Mcp.Config.{McpConfig, canonical_resource_url}
use tri_onyx.Mcp.Storage.{
  AccessRecord, save, hash_token, put_access_token, put_refresh_token, get_access_token, is_past,
}
use tri_onyx.Mcp.Auth.{
  Library, returned, raised, value_error, token_error, AuthorizationCode, Provider,
}
use tri_onyx.Mcp.Auth.Tokens.{
  Minting, issue_tokens, access_record, refresh_record, exchange_authorization_code,
  load_access_token, checked_access, is_foreign, whole,
}

module _ (lib : Library) (cfg : McpConfig) (client_id : String) (scopes : List String)
    (absolute : Option ℕ) (m : Minting) (p : Provider) where
  pub codes-issue_tokens : (issue_tokens lib cfg client_id scopes absolute m p).1.codes ≡ p.codes
  unfolding issue_tokens
  codes-issue_tokens = elim (Option-cases (canonical_resource_url lib.urls cfg)) [
    | inl e ↦ rw (e, issue_tokens)
    | inr (audience, e) ↦ rw (e, issue_tokens)
  ]

  pub access-issue_tokens :
      (audience : String)
      → canonical_resource_url lib.urls cfg ≡ some audience
      → (issue_tokens lib cfg client_id scopes absolute m p).1.store.access
        ≡ put
            (hash_token lib.sha256_hex m.access_token)
            (access_record lib cfg client_id scopes audience m)
            p.store.access
  unfolding issue_tokens put_access_token put_refresh_token save
  access-issue_tokens audience e = rw (e, issue_tokens)

  pub refresh-issue_tokens :
      (audience : String)
      → canonical_resource_url lib.urls cfg ≡ some audience
      → (issue_tokens lib cfg client_id scopes absolute m p).1.store.refresh
        ≡ put
            (hash_token lib.sha256_hex m.refresh_token)
            (refresh_record lib cfg client_id scopes audience absolute
              (hash_token lib.sha256_hex m.access_token)
              m)
            p.store.refresh
  unfolding issue_tokens put_access_token put_refresh_token save
  refresh-issue_tokens audience e = rw (e, issue_tokens)

  pub issue_tokens_cases :
      (issue_tokens lib cfg client_id scopes absolute m p ≡ (raised value_error, p))
      ⊎ ((audience : String) × (canonical_resource_url lib.urls cfg ≡ some audience))
  unfolding issue_tokens
  issue_tokens_cases = elim (Option-cases (canonical_resource_url lib.urls cfg)) [
    | inl e ↦ inl (rw (e, issue_tokens))
    | inr found ↦ inr found
  ]

same_audience :
    (r : Option String) (audience : String) → r ≡ some audience → is_foreign r audience ≡ false
same_audience none audience h = cc
same_audience (some r) audience h = ground (arith, equals_refl audience, h)

-- An access token that is stored, has not expired and is meant for this server.
load_stored :
    (lib : Library) (cfg : McpConfig) (token audience : String) (later : ℕ) (r : AccessRecord)
    (p : Provider)
    → get (hash_token lib.sha256_hex token) p.store.access ≡ some r
    → is_past r.expires_at later ≡ false
    → canonical_resource_url lib.urls cfg ≡ some audience
    → r.resource ≡ some audience
    → load_access_token lib cfg token later p ≡ (
      returned (
          some (record {
            token = token;
            client_id = r.client_id;
            scopes = r.scopes;
            expires_at = whole r.expires_at;
            resource = r.resource;
            subject = r.subject;
          })),
      p,
    )
unfolding load_access_token checked_access get_access_token
load_stored lib cfg token audience later r p found live e same =
    rw (found, load_access_token, live, e, checked_access, same_audience r.resource audience same)

-- The state in which the tokens for a code are issued.
abbrev pub without_code : AuthorizationCode → Provider → Provider
without_code c p = record p { codes = remove c.code p.codes }

-- The full second of a full second is itself.
whole_seconds_again : (t : ℕ) → whole_seconds (whole_seconds t) ≡ whole_seconds t
whole_seconds_again t = omega arith

module _ (lib : Library) (cfg : McpConfig) (client_id : String) (c : AuthorizationCode) (now : ℕ)
    (m : Minting) (p : Provider) where
  pub exchange_cases :
      (exchange_authorization_code lib cfg client_id c now m p
        ≡ (raised (token_error "invalid_grant"), (without_code c p)))
      ⊎ ((r : AuthorizationCode) × (get c.code p.codes ≡ some r)
          × (now ≤ r.expires_at)
          × (exchange_authorization_code lib cfg client_id c now m p
              ≡ issue_tokens lib cfg client_id r.scopes none m (without_code c p)))
  unfolding exchange_authorization_code
  exchange_cases = elim (Option-cases (get c.code p.codes)) [
    | inl gone ↦ inl (rw (gone, exchange_authorization_code))
    | inr (r, found) ↦ elim (Bool-cases (ltb r.expires_at now)) [
      | inl old ↦ inl (rw (found, exchange_authorization_code, old))
      | inr good ↦
          inr (r, found, ground (arith, good), rw (found, exchange_authorization_code, good))
    ]
  ]

  exchanged :
      (r : AuthorizationCode)
      → get c.code p.codes ≡ some r
      → now ≤ r.expires_at
      → exchange_authorization_code lib cfg client_id c now m p
        ≡ issue_tokens lib cfg client_id r.scopes none m (without_code c p)
  unfolding exchange_authorization_code
  exchanged r found good = rw (found, exchange_authorization_code) (ground (arith, good))

  code_gone : get c.code (exchange_authorization_code lib cfg client_id c now m p).1.codes ≡ none
  code_gone = elim exchange_cases [
    | inl e ↦ ap (λ r. get c.code r.1.codes) e ∙ get-remove_self c.code p.codes
    | inr (r, found, good, e) ↦
        ap (λ r. get c.code r.1.codes) e
        ∙ ap (get c.code) (codes-issue_tokens lib cfg client_id r.scopes none m (without_code c p))
        ∙ get-remove_self c.code p.codes
  ]

  -- The access token that a valid code buys is accepted until it expires, for the client that
  -- exchanged it, with the scopes of the code and this server's canonical URL as its audience.
  pub exchanged_token_loads :
      (r : AuthorizationCode) (audience : String) (later : ℕ)
      → get c.code p.codes ≡ some r
      → now ≤ r.expires_at
      → canonical_resource_url lib.urls cfg ≡ some audience
      → later ≤ whole_seconds (m.now + cfg.auth.access_token_ttl)
      → (load_access_token lib cfg m.access_token later
          (exchange_authorization_code lib cfg client_id c now m p).1).0
        ≡ returned (
            some (record {
              token = m.access_token;
              client_id = client_id;
              scopes = r.scopes;
              expires_at = some (whole_seconds (m.now + cfg.auth.access_token_ttl));
              resource = some audience;
              subject = some "operator";
            }))
  unfolding access_record
  exchanged_token_loads r audience later found good e soon =
      let q = (exchange_authorization_code lib cfg client_id c now m p).1 in
      let stored : get (hash_token lib.sha256_hex m.access_token) q.store.access
          ≡ some (access_record lib cfg client_id r.scopes audience m) =
        ap (λ x. get (hash_token lib.sha256_hex m.access_token) x.1.store.access)
          (exchanged r found good)
        ∙ ap (get (hash_token lib.sha256_hex m.access_token))
            (access-issue_tokens lib cfg client_id r.scopes none m (without_code c p) audience e)
        ∙ get-put_self _ _ (without_code c p).store.access in
      ap (λ x. x.0)
        (load_stored lib cfg m.access_token audience later
          (access_record lib cfg client_id r.scopes audience m) q stored (ground (arith, soon)) e
          refl)
      ∙ rw (whole_seconds_again (m.now + cfg.auth.access_token_ttl))

-- An authorization code works once: after an exchange of it, with whatever outcome, any further one
-- is refused, and leaves the stored tokens as they are.
pub exchange_replayed :
    (lib : Library) (cfg : McpConfig) (client_id client_id' : String) (c : AuthorizationCode)
    (now now' : ℕ) (m m' : Minting) (p : Provider)
    → ((exchange_authorization_code lib cfg client_id' c now' m'
          (exchange_authorization_code lib cfg client_id c now m p).1).0
        ≡ raised (token_error "invalid_grant"))
      × ((exchange_authorization_code lib cfg client_id' c now' m'
            (exchange_authorization_code lib cfg client_id c now m p).1).1.store
          ≡ (exchange_authorization_code lib cfg client_id c now m p).1.store)
exchange_replayed lib cfg client_id client_id' c now now' m m' p =
    let q = (exchange_authorization_code lib cfg client_id c now m p).1 in
    let gone = code_gone lib cfg client_id c now m p in
    elim (exchange_cases lib cfg client_id' c now' m' q) [
      | inl e ↦ (ap (λ r. r.0) e, ap (λ r. r.1.store) e)
      | inr (r, found, good, e) ↦ absurd (cc (gone, found))
    ]
