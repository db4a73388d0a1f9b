-- ===== src/Mcp/Auth/Safety/Steps.antt =====
-- Each operation of the provider keeps its invariant.
use tri_onyx.Base.{
  ℕ, String, List, [], ◌∷◌, Option, none, ◌≡◌, inl, inr, Bool-cases, Option-cases, String_eq,
}
use tri_onyx.Dict.Laws.{remove-AllValues}
use tri_onyx.Mcp.Config.{McpConfig, canonical_resource_url}
use tri_onyx.Mcp.Storage.{
  AccessRecord, hash_token, get_access_token, pop_refresh_token, is_past, or_else,
}
use tri_onyx.Mcp.Auth.{Library, AuthorizationCode, Provider, has_pending}
use tri_onyx.Mcp.Auth.Tokens.{
  Minting, RefreshToken, issue_tokens, exchange_authorization_code, exchange_refresh_token,
  load_access_token, checked_access, revoke_refresh_token, revoke_access_token, is_foreign,
}
use tri_onyx.Mcp.Auth.Exchange.{exchange_cases, without_code}
use tri_onyx.Mcp.Auth.Rotation.{refresh_cases}
use tri_onyx.Mcp.Auth.Safety.{
  IsSafe, delete_access-TokensAreOurs, pop_refresh-TokensAreOurs, delete_minted-TokensAreOurs,
  drop_minted-TokensAreOurs, issue_tokens-TokensAreOurs, ProviderOp, ask_pending, register, request,
  login, exchange, refresh, load, revoke_refresh, revoke_access, run, run_all,
}
use tri_onyx.Mcp.Auth.Safety.Asking.{
  Safe, with_store, prune_pending-IsSafe, register-IsSafe, request-IsSafe, login-IsSafe,
}

module _ (lib : Library) (cfg : McpConfig) where
  issue_tokens_store :
      (cid : String) (scopes : List String) (absolute : Option ℕ) (m : Minting) (p : Provider)
      → (issue_tokens lib cfg cid scopes absolute m p).1
        ≡ record p { store = (issue_tokens lib cfg cid scopes absolute m p).1.store }
  unfolding issue_tokens
  issue_tokens_store cid scopes absolute m p =
      elim (Option-cases (canonical_resource_url lib.urls cfg)) [
        | inl e ↦ rw (e, issue_tokens)
        | inr (audience, e) ↦ rw (e, issue_tokens)
      ]

  checked_access_store :
      (token : String) (r : AccessRecord) (p : Provider) → (checked_access lib cfg token r p).1 ≡ p
  unfolding checked_access
  checked_access_store token r p = elim (Option-cases (canonical_resource_url lib.urls cfg)) [
    | inl e ↦ rw (e, checked_access)
    | inr (audience, e) ↦ elim (Bool-cases (is_foreign r.resource audience)) [
      | inl foreign ↦ rw (e, checked_access, foreign)
      | inr ours ↦ rw (e, checked_access, ours)
    ]
  ]

  issue_tokens-IsSafe :
      (cid : String) (scopes : List String) (absolute : Option ℕ) (m : Minting) (p : Provider)
      → Safe lib cfg p
      → Safe lib cfg (issue_tokens lib cfg cid scopes absolute m p).1
  issue_tokens-IsSafe cid scopes absolute m p h = rw (issue_tokens_store cid scopes absolute m p) (
      with_store lib cfg _ p h
        (issue_tokens-TokensAreOurs lib cfg cid scopes absolute m p h.tokens))

  exchange-IsSafe :
      (cid : String) (c : AuthorizationCode) (now : ℕ) (m : Minting) (p : Provider)
      → Safe lib cfg p
      → Safe lib cfg (exchange_authorization_code lib cfg cid c now m p).1
  exchange-IsSafe cid c now m p h =
      let without : Safe lib cfg (without_code c p) = record {
        requests = h.requests;
        bounded = h.bounded;
        grants = remove-AllValues _ c.code p.codes h.grants;
        tokens = h.tokens;
      } in
      elim (exchange_cases lib cfg cid c now m p) [
        | inl e ↦ rw e without
        | inr (r, found, good, e) ↦
            rw e (issue_tokens-IsSafe cid r.scopes none m (without_code c p) without)
      ]

  refresh-IsSafe :
      (cid : String) (t : RefreshToken) (scopes : List String) (now : ℕ) (m : Minting)
      (p : Provider)
      → Safe lib cfg p
      → Safe lib cfg (exchange_refresh_token lib cfg cid t scopes now m p).1
  refresh-IsSafe cid t scopes now m p h =
      let ours = pop_refresh-TokensAreOurs lib cfg t.token p.store h.tokens in
      elim (refresh_cases lib cfg cid t scopes now m p) [
        | inl e ↦ rw e (with_store lib cfg _ p h ours)
        | inr (r, found, own, good, e) ↦ rw e (
            issue_tokens-IsSafe cid (or_else scopes r.scopes) r.absolute_expires_at m _
              (with_store lib cfg _ p h (drop_minted-TokensAreOurs lib cfg r _ ours)))
      ]

  load-IsSafe :
      (token : String) (now : ℕ) (p : Provider)
      → Safe lib cfg p
      → Safe lib cfg (load_access_token lib cfg token now p).1
  unfolding load_access_token
  load-IsSafe token now p h = elim (Option-cases (get_access_token lib.sha256_hex token p.store)) [
    | inl gone ↦ rw (gone, load_access_token) h
    | inr (r, found) ↦ elim (Bool-cases (is_past r.expires_at now)) [
      | inl old ↦
          rw (found, load_access_token, old)
            (with_store lib cfg _ p h (
              delete_access-TokensAreOurs lib cfg (hash_token lib.sha256_hex token) p.store
                h.tokens))
      | inr live ↦ rw (found, load_access_token, live, checked_access_store token r p) h
    ]
  ]

  revoke_refresh-IsSafe :
      (token : String) (p : Provider)
      → Safe lib cfg p
      → Safe lib cfg (revoke_refresh_token lib cfg token p)
  unfolding revoke_refresh_token
  revoke_refresh-IsSafe token p h =
      let popped = pop_refresh_token lib.sha256_hex token p.store in
      let ours = pop_refresh-TokensAreOurs lib cfg token p.store h.tokens in
      elim (Option-cases popped.0) [
        | inl gone ↦ rw (gone, revoke_refresh_token) (with_store lib cfg _ p h ours)
        | inr (r, found) ↦
            rw (found, revoke_refresh_token)
              (with_store lib cfg _ p h (drop_minted-TokensAreOurs lib cfg r popped.1 ours))
      ]

  revoke_access-IsSafe :
      (token : String) (p : Provider)
      → Safe lib cfg p
      → Safe lib cfg (revoke_access_token lib cfg token p)
  unfolding revoke_access_token
  revoke_access-IsSafe token p h =
      let digest = hash_token lib.sha256_hex token in
      with_store lib cfg _ p h (
        delete_minted-TokensAreOurs lib cfg digest _
          (delete_access-TokensAreOurs lib cfg digest p.store h.tokens))

  run-IsSafe : (op : ProviderOp) (p : Provider) → Safe lib cfg p → Safe lib cfg (run lib cfg op p)
  unfolding run has_pending
  run-IsSafe (ask_pending txn now) p h = prune_pending-IsSafe lib cfg now p h
  run-IsSafe (register cid c pruned now) p h = register-IsSafe lib cfg cid c pruned now p h
  run-IsSafe (request cid params txn pruned created) p h =
      request-IsSafe lib cfg cid params txn pruned created p h
  run-IsSafe (login txn password ip code t) p h = login-IsSafe lib cfg txn password ip code t p h
  run-IsSafe (exchange cid c now m) p h = exchange-IsSafe cid c now m p h
  run-IsSafe (refresh cid t scopes now m) p h = refresh-IsSafe cid t scopes now m p h
  run-IsSafe (load token now) p h = load-IsSafe token now p h
  run-IsSafe (revoke_refresh token) p h = revoke_refresh-IsSafe token p h
  run-IsSafe (revoke_access token) p h = revoke_access-IsSafe token p h

  -- Starting from a state of which this holds, whatever the calls and their order: every parked request and
  -- every authorization code has a redirect URI on the allowlist, a PKCE challenge, and as its resource none,
  -- or one whose canonical form is that of this server's MCP endpoint or of its issuer URL; at most 64 requests
  -- are parked, and every stored token has this server's canonical URL as its audience.
  pub run_all-IsSafe :
      (ops : List ProviderOp) (p : Provider)
      → IsSafe lib cfg p
      → IsSafe lib cfg (run_all lib cfg ops p)
  unfolding run_all
  run_all-IsSafe [] p h = h
  run_all-IsSafe (op ∷ ops) p h = run_all-IsSafe ops (run lib cfg op p) (run-IsSafe op p h)
