-- ===== src/Mcp/Auth/Safety.antt =====
-- The invariant of the provider's state, over every sequence of its operations.
pub mod Asking
pub mod Steps
pub mod Closed
use tri_onyx.Base.{
  ℕ, zero, suc, ◌+◌, ◌≤◌, ◌<◌, String, Bool, true, false, List, [], ◌∷◌, Option, none, some, ltb,
  leb, if◌then◌else◌, ◌≡◌, ◌≢◌, ◌⊎◌, refl, arith, inl, inr, Bool-cases, Option-cases, ◌∙◌,
  String_eq, ◌==◌, ap, sym, length, ◌>>=◌, contains,
}
use mathlib.Core.Path.{subst}
use tri_onyx.Dict.{Dict, get, put, remove, remove_all, select, AllValues}
use tri_onyx.Dict.Laws.{
  put-AllValues, remove-AllValues, remove_all-AllValues, evict_least-AllValues, get-AllValues,
  length-remove, length-remove_all,
}
use tri_onyx.Mcp.Config.{
  McpConfig, AuthConfig, canonical_resource, canonical_resource_url, canonical_issuer_url,
}
use tri_onyx.Mcp.Storage.{
  Client, AccessRecord, RefreshRecord, OAuthStore, save, hash_token, pop_refresh_token,
  delete_access_token_hash, delete_refresh_tokens_for_access, put_client, is_past, store_client,
  minted,
}
use tri_onyx.Mcp.Storage.Clients.{put_client_cases}
use tri_onyx.Mcp.Storage.Pruning.{tables-delete_refresh_tokens_for_access}
use tri_onyx.Mcp.Auth.{
  Library, Result, returned, raised, Raised, AuthorizationParams, PendingAuthorization,
  AuthorizationCode, Provider, prune_pending, has_pending, make_room, max_pending, park, authorize,
  register_client, redirect_allowed, resource_ok,
}
use tri_onyx.Mcp.Auth.Login.{LoginTimes, complete_login, issued_code, grant, failed_login}
use tri_onyx.Mcp.Auth.Tokens.{
  Minting, RefreshToken, issue_tokens, exchange_authorization_code, exchange_refresh_token,
  load_access_token, checked_access, revoke_refresh_token, revoke_access_token, access_record,
  refresh_record, drop_minted_access, truthy,
}
use tri_onyx.Mcp.Auth.Password.{wait, at_check, complete_login_cases}
use tri_onyx.Mcp.Auth.Requests.{
  authorization_of, authorize_cases, authorize_bounded, register_client_cases,
}
use tri_onyx.Mcp.Auth.Exchange.{
  exchange_cases, without_code, issue_tokens_cases, access-issue_tokens, refresh-issue_tokens,
}

-- The calls that change the provider, with their clock readings and random values.
pub data ProviderOp : Type 0 where
  ask_pending : String → ℕ → ProviderOp
  register : String → Client → ℕ → ℕ → ProviderOp
  request : String → AuthorizationParams → String → ℕ → ℕ → ProviderOp
  login : String → String → String → String → LoginTimes → ProviderOp
  exchange : String → AuthorizationCode → ℕ → Minting → ProviderOp
  refresh : String → RefreshToken → List String → ℕ → Minting → ProviderOp
  load : String → ℕ → ProviderOp
  revoke_refresh revoke_access : String → ProviderOp

module _ (lib : Library) (cfg : McpConfig) where
  unfoldable pub run : ProviderOp → Provider → Provider
  run (ask_pending txn now) p = (has_pending lib cfg txn now p).1
  run (register cid c pruned now) p = (register_client lib cfg cid c pruned now p).1
  run (request cid params txn pruned created) p =
      (authorize lib cfg cid params txn pruned created p).1
  run (login txn password ip code t) p = (complete_login lib cfg txn password ip code t p).1
  run (exchange cid c now m) p = (exchange_authorization_code lib cfg cid c now m p).1
  run (refresh cid t scopes now m) p = (exchange_refresh_token lib cfg cid t scopes now m p).1
  run (load token now) p = (load_access_token lib cfg token now p).1
  run (revoke_refresh token) p = revoke_refresh_token lib cfg token p
  run (revoke_access token) p = revoke_access_token lib cfg token p

  unfoldable pub run_all : List ProviderOp → Provider → Provider
  unfolding run
  run_all [] p = p
  run_all (op ∷ ops) p = run_all ops (run op p)

  -- A redirect URI whose canonical form is on the list.
  abbrev pub IsAllowed : List String → String → Type 0
  IsAllowed allowed uri =
      (canonical_resource lib.urls uri >>= λ c. some (contains c allowed)) ≡ some true

  -- No resource, or one whose canonical form is that of the MCP endpoint or that of the issuer.
  abbrev pub IsForUs : Option String → Type 0
  IsForUs none = Unit
  IsForUs (some resource) =
      (c : String) × (canonical_resource lib.urls resource ≡ some c)
      × ((canonical_resource_url lib.urls cfg ≡ some c)
          ⊎ (canonical_issuer_url lib.urls cfg ≡ some c))

  pub resource_ok-IsForUs : (r : Option String) → resource_ok lib cfg r ≡ some true → IsForUs r
  unfolding resource_ok
  resource_ok-IsForUs none h = tt
  resource_ok-IsForUs (some resource) h =
      elim (Option-cases (canonical_resource lib.urls resource)) [
        | inl e ↦ absurd (ground (arith, rw (e, resource_ok) at h))
        | inr (c, e) ↦ elim (Option-cases (canonical_resource_url lib.urls cfg)) [
          | inl e' ↦ absurd (ground (arith, rw (e, e', resource_ok) at h))
          | inr (audience, e') ↦ elim (Option-cases (canonical_issuer_url lib.urls cfg)) [
            | inl e'' ↦ absurd (ground (arith, rw (e, e', e'', resource_ok) at h))
            | inr (issuer, e'') ↦
                let h' = rw (e, e', e'', resource_ok) at h in
                elim (Bool-cases (c == audience)) [
                  | inl own ↦
                      (c, e, inl (e' ∙ ap some (sym ((String_eq.equals_iff c audience).0 own))))
                  | inr other ↦ elim (Bool-cases (c == issuer)) [
                    | inl own ↦
                        (c, e, inr (e'' ∙ ap some (sym ((String_eq.equals_iff c issuer).0 own))))
                    | inr neither ↦ absurd (ground (arith, h', other, neither))
                  ]
                ]
          ]
        ]
      ]

  -- A request that passed the checks of `authorize`.
  pub record IsRequest (allowed : List String) (a : PendingAuthorization) : Type 0 where
    pub redirect : IsAllowed allowed a.redirect_uri
    pub target : IsForUs a.resource
    pub challenge : a.code_challenge ≢ ""

  -- A code that was minted for such a request.
  pub record IsGranted (allowed : List String) (c : AuthorizationCode) : Type 0 where
    pub redirect : IsAllowed allowed c.redirect_uri
    pub target : IsForUs c.resource
    pub challenge : c.code_challenge ≢ ""

  -- A token whose audience is this server.
  abbrev pub IsOurs : Option String → Type 0
  IsOurs resource = resource ≡ canonical_resource_url lib.urls cfg

  pub record TokensAreOurs (s : OAuthStore) : Type 0 where
    pub access : AllValues (λ (r : AccessRecord). IsOurs r.resource) s.access
    pub refresh : AllValues (λ (r : RefreshRecord). IsOurs r.resource) s.refresh

  pub record IsSafe (p : Provider) : Type 0 where
    pub requests : AllValues (IsRequest p.allowed_redirects) p.pending
    pub bounded : length p.pending ≤ 64
    pub grants : AllValues (IsGranted p.allowed_redirects) p.codes
    pub tokens : TokensAreOurs p.store

  put_client-TokensAreOurs :
      (cid : String) (c : Client) (protected : List String) (now : ℕ) (s : OAuthStore)
      → TokensAreOurs s
      → TokensAreOurs (put_client cid c protected now s).1
  unfolding store_client save
  put_client-TokensAreOurs cid c protected now s h = elim (put_client_cases cid c protected now s) [
    | inl (full, nobody, e) ↦ rw e h
    | inr (inl (oldest, ev, full, e)) ↦ rw e (record { access = h.access; refresh = h.refresh })
    | inr (inr (room, e)) ↦ rw e (record { access = h.access; refresh = h.refresh })
  ]

  delete_access-TokensAreOurs :
      (digest : String) (s : OAuthStore)
      → TokensAreOurs s
      → TokensAreOurs (delete_access_token_hash digest s)
  unfolding delete_access_token_hash save
  delete_access-TokensAreOurs digest s h = elim (Option-cases (get digest s.access)) [
    | inl gone ↦ rw (gone, delete_access_token_hash) h
    | inr (r, found) ↦
        rw (found, delete_access_token_hash)
          (record { access = remove-AllValues _ digest s.access h.access; refresh = h.refresh })
  ]

  pop_refresh-TokensAreOurs :
      (token : String) (s : OAuthStore)
      → TokensAreOurs s
      → TokensAreOurs (pop_refresh_token lib.sha256_hex token s).1
  unfolding pop_refresh_token save
  pop_refresh-TokensAreOurs token s h =
      let digest = hash_token lib.sha256_hex token in
      elim (Option-cases (get digest s.refresh)) [
        | inl gone ↦ rw (gone, pop_refresh_token) h
        | inr (r, found) ↦
            rw (found, pop_refresh_token)
              (record {
                access = h.access;
                refresh = remove-AllValues _ digest s.refresh h.refresh;
              })
      ]

  delete_minted-TokensAreOurs :
      (digest : String) (s : OAuthStore)
      → TokensAreOurs s
      → TokensAreOurs (delete_refresh_tokens_for_access digest s).1
  delete_minted-TokensAreOurs digest s h =
      let e = tables-delete_refresh_tokens_for_access digest s in
      record {
        access = subst (AllValues _) (sym (ap (λ t. t.access) e)) h.access;
        refresh =
            subst (AllValues _) (sym (ap (λ t. t.refresh) e))
              (remove_all-AllValues _ (select (minted digest) s.refresh) s.refresh h.refresh);
      }

  drop_minted-TokensAreOurs :
      (r : RefreshRecord) (s : OAuthStore)
      → TokensAreOurs s
      → TokensAreOurs (drop_minted_access r s)
  drop_minted-TokensAreOurs r s h = elim (Option-cases (truthy r.access_hash)) [
    | inl e ↦ rw (e, drop_minted_access) h
    | inr (digest, e) ↦ rw (e, drop_minted_access) (delete_access-TokensAreOurs digest s h)
  ]

  issue_tokens-TokensAreOurs :
      (cid : String) (scopes : List String) (absolute : Option ℕ) (m : Minting) (p : Provider)
      → TokensAreOurs p.store
      → TokensAreOurs (issue_tokens lib cfg cid scopes absolute m p).1.store
  unfolding access_record refresh_record
  issue_tokens-TokensAreOurs cid scopes absolute m p h =
      elim (issue_tokens_cases lib cfg cid scopes absolute m p) [
        | inl e ↦ rw e h
        | inr (audience, e) ↦ record {
          access =
              subst (AllValues _)
                (sym (access-issue_tokens lib cfg cid scopes absolute m p audience e))
                (put-AllValues _ _ _ p.store.access (sym e) h.access);
          refresh =
              subst (AllValues _)
                (sym (refresh-issue_tokens lib cfg cid scopes absolute m p audience e))
                (put-AllValues _ _ _ p.store.refresh (sym e) h.refresh);
        }
      ]
