-- ===== src/Mcp/Auth/Flow.antt =====
-- The whole authorization: request, operator login, code exchange, use of the access token.
use tri_onyx.Base.{
  ℕ, ◌+◌, ◌≤◌, String, [], ◌∷◌, some, ◌≡◌, arith, inl, inr, ◌∙◌, String_eq, whole_seconds,
  equals_refl,
}
use tri_onyx.Dict.{get, IsDict}
use tri_onyx.Dict.Laws.{get-sweep, put-IsDict, remove_all-IsDict, evict_least-IsDict}
use tri_onyx.Mcp.Config.{McpConfig, canonical_resource_url}
use tri_onyx.Mcp.Auth.{
  Library, Result, returned, AuthorizationParams, PendingAuthorization, AuthorizationCode, Provider,
  prune_pending, make_room, max_pending, park, authorize,
}
use tri_onyx.Mcp.Auth.Login.{LoginTimes, complete_login, issued_code, login_redirect}
use tri_onyx.Mcp.Auth.Tokens.{
  Minting, load_authorization_code, exchange_authorization_code, load_access_token,
}
use tri_onyx.Mcp.Auth.Password.{wait, at_check, complete_login_grants}
use tri_onyx.Mcp.Auth.Requests.{authorization_of, authorize_cases, authorize_parks}
use tri_onyx.Mcp.Auth.Exchange.{exchanged_token_loads}

prune_pending-IsDict :
    (lib : Library) (cfg : McpConfig) (now : ℕ) (p : Provider)
    → IsDict p.pending
    → IsDict (prune_pending lib cfg now p).pending
unfolding prune_pending
prune_pending-IsDict lib cfg now p h = remove_all-IsDict _ p.pending h

park-IsDict :
    (lib : Library) (cfg : McpConfig) (client_id : String) (params : AuthorizationParams)
    (txn : String) (pruned created : ℕ) (p : Provider)
    → IsDict p.pending
    → IsDict (park lib cfg client_id params txn pruned created p).pending
unfolding park make_room
park-IsDict lib cfg client_id params txn pruned created p h =
    let q = prune_pending lib cfg pruned p in
    put-IsDict txn (authorization_of client_id params created) (make_room lib cfg q).pending (
      evict_least-IsDict (λ (a : PendingAuthorization). a.created_at) max_pending _ q.pending
        (prune_pending-IsDict lib cfg pruned p h))

pub authorize-IsDict :
    (lib : Library) (cfg : McpConfig) (client_id : String) (params : AuthorizationParams)
    (txn : String) (pruned created : ℕ) (p : Provider)
    → IsDict p.pending
    → IsDict (authorize lib cfg client_id params txn pruned created p).1.pending
authorize-IsDict lib cfg client_id params txn pruned created p h =
    elim (authorize_cases lib cfg client_id params txn pruned created p) [
      | inl (e, same) ↦ rw (same, IsDict) h
      | inr (_, _, _, parked) ↦
          rw (parked, IsDict) (park-IsDict lib cfg client_id params txn pruned created p h)
    ]

-- A transaction is still pending at the login if it has not outlived its lifetime.
still_pending :
    (lib : Library) (cfg : McpConfig) (ip txn : String) (t : LoginTimes) (p : Provider)
    (a : PendingAuthorization)
    → get txn p.pending ≡ some a
    → IsDict p.pending
    → t.pruned ≤ a.created_at + cfg.auth.pending_authorization_ttl
    → get txn (at_check lib cfg ip t p).pending ≡ some a
unfolding prune_pending
still_pending lib cfg ip txn t p a found dict soon =
    get-sweep _ txn p.pending dict ∙ rw found (ground arith)

code_loads :
    (lib : Library) (cfg : McpConfig) (a : PendingAuthorization) (code : String) (issued : ℕ)
    (p : Provider)
    → get code p.codes ≡ some (issued_code lib cfg a code issued)
    → load_authorization_code lib cfg a.client_id code p ≡ some (issued_code lib cfg a code issued)
unfolding load_authorization_code issued_code
code_loads lib cfg a code issued p found =
    rw (found, load_authorization_code, equals_refl a.client_id)

module _ (lib : Library) (cfg : McpConfig) (client_id : String) (params : AuthorizationParams)
    (txn : String) (pruned created : ℕ) (p : Provider) (ip password code : String) (t : LoginTimes)
    (now : ℕ) (m : Minting) where
  abbrev pub asked : Result String × Provider
  asked = authorize lib cfg client_id params txn pruned created p

  abbrev pub logged_in : Result String × Provider
  logged_in = complete_login lib cfg txn password ip code t asked.1

  abbrev pub granted_code : AuthorizationCode
  granted_code = issued_code lib cfg (authorization_of client_id params created) code t.issued

  -- A request that is accepted, followed in time by a login with the operator's password from an
  -- address without a lockout, is answered at the client's redirect URI; the code it carries is the
  -- client's, and exchanging it in time gives an access token that this server accepts until it expires.
  pub authorization_flow :
      (url audience : String) (later : ℕ)
      → asked.0 ≡ returned url
      → IsDict p.pending
      → cfg.auth.operator_password ≡ password
      → wait ip t asked.1 ≡ 0
      → t.pruned ≤ created + cfg.auth.pending_authorization_ttl
      → now ≤ t.issued + cfg.auth.auth_code_ttl
      → canonical_resource_url lib.urls cfg ≡ some audience
      → later ≤ whole_seconds (m.now + cfg.auth.access_token_ttl)
      → (logged_in.0
          ≡ returned (
              lib.construct_redirect_uri params.redirect_uri
                (("code", some code) ∷ ("state", params.state) ∷ [])))
        × (load_authorization_code lib cfg client_id code logged_in.1 ≡ some granted_code)
        × ((load_access_token lib cfg m.access_token later
              (exchange_authorization_code lib cfg client_id granted_code now m logged_in.1).1).0
            ≡ returned (
                some (record {
                  token = m.access_token;
                  client_id = client_id;
                  scopes = params.scopes;
                  expires_at = some (whole_seconds (m.now + cfg.auth.access_token_ttl));
                  resource = some audience;
                  subject = some "operator";
                })))
  unfolding login_redirect issued_code
  authorization_flow url audience later ok dict same free soon good canonical live =
      let a = authorization_of client_id params created in
      let parked = authorize_parks lib cfg client_id params txn pruned created p url ok in
      let here =
        still_pending lib cfg ip txn t asked.1 a parked
          (authorize-IsDict lib cfg client_id params txn pruned created p dict) soon in
      let (answer, stored, _, _, _) =
        complete_login_grants lib cfg txn password ip code t asked.1 a same free here in
      (
        answer,
        code_loads lib cfg a code t.issued logged_in.1 stored,
        exchanged_token_loads lib cfg client_id granted_code now m logged_in.1 granted_code audience
            later stored good canonical live,
      )
