-- ===== src/Mcp/Auth/Safety/Closed.antt =====
-- Without the operator's password nothing is issued.
use tri_onyx.Base.{
  ℕ, String, false, List, [], ◌∷◌, Option, none, ◌≡◌, ◌≢◌, refl, arith, inl, inr, ◌∙◌, String_eq,
  ◌==◌, ap, sym, All,
}
use mathlib.Core.Path.{subst}
use tri_onyx.Dict.{get, remove, remove_all, select}
use tri_onyx.Mcp.Config.{McpConfig}
use tri_onyx.Mcp.Limiter.{locked_for}
use tri_onyx.Mcp.Storage.{
  Client, OAuthStore, save, store_client, put_client, hash_token, get_refresh_token,
  pop_refresh_token, delete_access_token_hash, minted,
}
use tri_onyx.Mcp.Storage.Pruning.{tables-delete_refresh_tokens_for_access}
use tri_onyx.Mcp.Auth.Revocation.{absent_access_refused}
use tri_onyx.Mcp.Storage.Clients.{put_client_cases}
use tri_onyx.Mcp.Auth.{
  Library, Result, returned, AuthorizationParams, AuthorizationCode, Provider, prune_pending,
  pending_client_ids, has_pending, make_room, park, authorize, register_client, as_public,
}
use tri_onyx.Mcp.Auth.Login.{LoginTimes, complete_login, failed_login}
use tri_onyx.Mcp.Auth.Tokens.{
  Minting, AccessToken, RefreshToken, exchange_authorization_code, exchange_refresh_token,
  load_access_token, revoke_refresh_token, revoke_access_token,
}
use tri_onyx.Mcp.Auth.Password.{at_check, complete_login_cases}
use tri_onyx.Mcp.Auth.Requests.{authorize_cases, register_client_cases}
use tri_onyx.Mcp.Auth.Exchange.{exchange_cases}
use tri_onyx.Mcp.Auth.Rotation.{refresh_cases, popped-none}
use tri_onyx.Mcp.Auth.Safety.{
  ProviderOp, ask_pending, register, request, login, exchange, refresh, load, revoke_refresh,
  revoke_access, run, run_all,
}

-- No authorization code and no token is stored.
pub record IsClosed (p : Provider) : Type 0 where
  pub no_codes : p.codes ≡ []
  pub no_access : p.store.access ≡ []
  pub no_refresh : p.store.refresh ≡ []

-- A call that is not a login with this password.
abbrev pub LacksPassword : String → ProviderOp → Type 0
LacksPassword operator_password (login txn password ip code t) = operator_password ≢ password
LacksPassword operator_password (ask_pending _ _) = Unit
LacksPassword operator_password (register _ _ _ _) = Unit
LacksPassword operator_password (request _ _ _ _ _) = Unit
LacksPassword operator_password (exchange _ _ _ _) = Unit
LacksPassword operator_password (refresh _ _ _ _ _) = Unit
LacksPassword operator_password (load _ _) = Unit
LacksPassword operator_password (revoke_refresh _) = Unit
LacksPassword operator_password (revoke_access _) = Unit

module _ (lib : Library) (cfg : McpConfig) where
  prune-IsClosed : (now : ℕ) (p : Provider) → IsClosed p → IsClosed (prune_pending lib cfg now p)
  unfolding prune_pending remove_all select
  prune-IsClosed now p h = record {
    no_codes = rw (h.no_codes);
    no_access = h.no_access;
    no_refresh = h.no_refresh;
  }

  tokens-put_client :
      (cid : String) (c : Client) (protected : List String) (now : ℕ) (s : OAuthStore)
      → ((put_client cid c protected now s).1.access ≡ s.access)
        × ((put_client cid c protected now s).1.refresh ≡ s.refresh)
  unfolding store_client save
  tokens-put_client cid c protected now s = elim (put_client_cases cid c protected now s) [
    | inl (full, nobody, e) ↦ rw e (refl, refl)
    | inr (inl (oldest, ev, full, e)) ↦ rw e (refl, refl)
    | inr (inr (room, e)) ↦ rw e (refl, refl)
  ]

  register-IsClosed :
      (cid : String) (c : Client) (pruned now : ℕ) (p : Provider)
      → IsClosed p
      → IsClosed (register_client lib cfg cid c pruned now p).1
  unfolding pending_client_ids
  register-IsClosed cid c pruned now p h =
      let q = prune_pending lib cfg pruned p in
      let closed = prune-IsClosed pruned p h in
      let kept =
        tokens-put_client cid (as_public c) (pending_client_ids lib cfg pruned p).0 now q.store in
      let stored : IsClosed (record q {
        store =
            (put_client cid (as_public c) (pending_client_ids lib cfg pruned p).0 now q.store).1;
      }) =
        record {
          no_codes = closed.no_codes;
          no_access = kept.0 ∙ closed.no_access;
          no_refresh = kept.1 ∙ closed.no_refresh;
        } in
      elim (register_client_cases lib cfg cid c pruned now p) [
        | inl (e, same) ↦ rw same h
        | inr (inl (full, same)) ↦ rw same stored
        | inr (inr (room, given, allowed, same)) ↦ rw same stored
      ]

  park-IsClosed :
      (cid : String) (params : AuthorizationParams) (txn : String) (pruned created : ℕ)
      (p : Provider)
      → IsClosed p
      → IsClosed (park lib cfg cid params txn pruned created p)
  unfolding park make_room
  park-IsClosed cid params txn pruned created p h =
      let closed = prune-IsClosed pruned p h in
      record {
        no_codes = closed.no_codes;
        no_access = closed.no_access;
        no_refresh = closed.no_refresh;
      }

  request-IsClosed :
      (cid : String) (params : AuthorizationParams) (txn : String) (pruned created : ℕ)
      (p : Provider)
      → IsClosed p
      → IsClosed (authorize lib cfg cid params txn pruned created p).1
  request-IsClosed cid params txn pruned created p h =
      elim (authorize_cases lib cfg cid params txn pruned created p) [
        | inl (e, same) ↦ rw same h
        | inr (_, _, _, parked) ↦ rw parked (park-IsClosed cid params txn pruned created p h)
      ]

  failed_login-IsClosed :
      (ip : String) (t : LoginTimes) (p : Provider)
      → IsClosed p
      → IsClosed (failed_login lib cfg ip t p)
  unfolding failed_login
  failed_login-IsClosed ip t p h = record {
    no_codes = h.no_codes;
    no_access = h.no_access;
    no_refresh = h.no_refresh;
  }

  login-IsClosed :
      (txn password ip code : String) (t : LoginTimes) (p : Provider)
      → cfg.auth.operator_password ≢ password
      → IsClosed p
      → IsClosed (complete_login lib cfg txn password ip code t p).1
  login-IsClosed txn password ip code t p other h =
      let wrong : (cfg.auth.operator_password == password) ≡ false =
        ground (arith, other, String_eq.equals_iff cfg.auth.operator_password password) in
      let unlocked : IsClosed (record p { limiter = (locked_for ip t.checked p.limiter).1 }) =
        record { no_codes = h.no_codes; no_access = h.no_access; no_refresh = h.no_refresh } in
      let checked = prune-IsClosed t.pruned _ unlocked in
      let failed = failed_login-IsClosed ip t (at_check lib cfg ip t p) checked in
      elim (complete_login_cases lib cfg txn password ip code t p) [
        | inl (locked, e) ↦ rw e unlocked
        | inr (free, inl (a, known, e)) ↦ rw (e, wrong) failed
        | inr (free, inr (inl (c, done, e))) ↦ rw (e, wrong) failed
        | inr (free, inr (inr (unknown, never, e))) ↦ rw e checked
      ]

  exchange-IsClosed :
      (cid : String) (c : AuthorizationCode) (now : ℕ) (m : Minting) (p : Provider)
      → IsClosed p
      → IsClosed (exchange_authorization_code lib cfg cid c now m p).1
  unfolding remove get
  exchange-IsClosed cid c now m p h = elim (exchange_cases lib cfg cid c now m p) [
    | inl e ↦
        rw e (record {
          no_codes = rw (h.no_codes);
          no_access = h.no_access;
          no_refresh = h.no_refresh;
        })
    | inr (r, found, good, e) ↦ absurd (ground (arith, rw (h.no_codes) at found))
  ]

  popped_closed :
      (token : String) (p : Provider)
      → IsClosed p
      → pop_refresh_token lib.sha256_hex token p.store ≡ (none, p.store)
  unfolding get_refresh_token get
  popped_closed token p h = popped-none lib.sha256_hex token p.store (rw (h.no_refresh))

  refresh-IsClosed :
      (cid : String) (t : RefreshToken) (scopes : List String) (now : ℕ) (m : Minting)
      (p : Provider)
      → IsClosed p
      → IsClosed (exchange_refresh_token lib cfg cid t scopes now m p).1
  unfolding get_refresh_token get
  refresh-IsClosed cid t scopes now m p h = elim (refresh_cases lib cfg cid t scopes now m p) [
    | inl e ↦ rw (e, popped_closed t.token p h) h
    | inr (r, found, own, good, e) ↦ absurd (ground (arith, rw (h.no_refresh) at found))
  ]

  load_closed :
      (token : String) (now : ℕ) (p : Provider)
      → IsClosed p
      → load_access_token lib cfg token now p ≡ (returned none, p)
  unfolding get
  load_closed token now p h =
      absent_access_refused lib cfg token now p
        (ap (get (hash_token lib.sha256_hex token)) h.no_access)

  revoke_refresh-IsClosed :
      (token : String) (p : Provider) → IsClosed p → IsClosed (revoke_refresh_token lib cfg token p)
  unfolding revoke_refresh_token
  revoke_refresh-IsClosed token p h =
      let e = popped_closed token p h in
      rw (ap (λ x. x.0) e, revoke_refresh_token)
        (record {
          no_codes = h.no_codes;
          no_access = ap (λ x. x.1.access) e ∙ h.no_access;
          no_refresh = ap (λ x. x.1.refresh) e ∙ h.no_refresh;
        })

  deleted_nothing :
      (digest : String) (s : OAuthStore) → s.access ≡ [] → delete_access_token_hash digest s ≡ s
  unfolding delete_access_token_hash get
  deleted_nothing digest s e =
      let gone : get digest s.access ≡ none = ap (get digest) e in
      rw (gone, delete_access_token_hash)

  revoke_access-IsClosed :
      (token : String) (p : Provider) → IsClosed p → IsClosed (revoke_access_token lib cfg token p)
  unfolding revoke_access_token select remove_all
  revoke_access-IsClosed token p h =
      let digest = hash_token lib.sha256_hex token in
      let same = deleted_nothing digest p.store h.no_access in
      let e =
        tables-delete_refresh_tokens_for_access digest (delete_access_token_hash digest p.store) in
      record {
        no_codes = h.no_codes;
        no_access = ap (λ t. t.access) e ∙ ap (λ (s : OAuthStore). s.access) same ∙ h.no_access;
        no_refresh =
            ap (λ t. t.refresh) e
            ∙ ap (λ d. remove_all (select (minted digest) d) d)
                (ap (λ (s : OAuthStore). s.refresh) same ∙ h.no_refresh);
      }

  run-IsClosed :
      (op : ProviderOp) (p : Provider)
      → LacksPassword cfg.auth.operator_password op
      → IsClosed p
      → IsClosed (run lib cfg op p)
  unfolding run has_pending
  run-IsClosed (ask_pending txn now) p l h = prune-IsClosed now p h
  run-IsClosed (register cid c pruned now) p l h = register-IsClosed cid c pruned now p h
  run-IsClosed (request cid params txn pruned created) p l h =
      request-IsClosed cid params txn pruned created p h
  run-IsClosed (login txn password ip code t) p l h = login-IsClosed txn password ip code t p l h
  run-IsClosed (exchange cid c now m) p l h = exchange-IsClosed cid c now m p h
  run-IsClosed (refresh cid t scopes now m) p l h = refresh-IsClosed cid t scopes now m p h
  run-IsClosed (load token now) p l h =
      subst (λ (r : Result (Option AccessToken) × Provider). IsClosed r.1)
        (sym (load_closed token now p h)) h
  run-IsClosed (revoke_refresh token) p l h = revoke_refresh-IsClosed token p h
  run-IsClosed (revoke_access token) p l h = revoke_access-IsClosed token p h

  run_all-IsClosed :
      (ops : List ProviderOp) (p : Provider)
      → All (LacksPassword cfg.auth.operator_password) ops
      → IsClosed p
      → IsClosed (run_all lib cfg ops p)
  unfolding run_all
  run_all-IsClosed [] p ls h = h
  run_all-IsClosed (op ∷ ops) p (l, ls) h =
      run_all-IsClosed ops (run lib cfg op p) ls (run-IsClosed op p l h)

  -- If no call is a login with the operator's password, then starting without codes and tokens none is
  -- ever stored, and every access token is refused, whatever the calls, their order and their arguments.
  pub no_token_without_password :
      (ops : List ProviderOp) (p : Provider) (token : String) (now : ℕ)
      → All (LacksPassword cfg.auth.operator_password) ops
      → IsClosed p
      → IsClosed (run_all lib cfg ops p)
        × (load_access_token lib cfg token now (run_all lib cfg ops p)
            ≡ (returned none, run_all lib cfg ops p))
  no_token_without_password ops p token now ls h =
      let closed = run_all-IsClosed ops p ls h in
      (closed, load_closed token now (run_all lib cfg ops p) closed)
