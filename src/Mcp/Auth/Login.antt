-- ===== src/Mcp/Auth/Login.antt =====
-- mcp_server/mcp_server/auth.py, `complete_login`.
use tri_onyx.Base.{ℕ, ◌+◌, String, [], ◌∷◌, none, some, ltb, ◌==◌, if◌then◌else◌, String_eq}
use tri_onyx.Dict.{get, put, remove}
use tri_onyx.Mcp.Config.{McpConfig}
use tri_onyx.Mcp.Limiter.{locked_for, record_failure, record_success}
use tri_onyx.Mcp.Auth.{
  Library, Result, returned, raised, login_locked, login_expired, login_rejected,
  PendingAuthorization, AuthorizationCode, Provider, prune_pending, subject,
}

-- The clock readings of one login, in the code's order. The limiter's clock is the monotonic one.
pub record LoginTimes : Type 0 where
  pub checked : ℕ
  pub pruned : ℕ
  pub recorded : ℕ
  pub issued : ℕ
  pub finished : ℕ

-- _COMPLETED_LOGIN_TTL
abbrev pub completed_login_ttl : ℕ
completed_login_ttl = 60000

module _ (lib : Library) (cfg : McpConfig) where
  unfoldable pub issued_code : PendingAuthorization → String → ℕ → AuthorizationCode
  issued_code a code now = record {
    code = code;
    scopes = a.scopes;
    expires_at = now + cfg.auth.auth_code_ttl;
    client_id = a.client_id;
    code_challenge = a.code_challenge;
    redirect_uri = a.redirect_uri;
    redirect_uri_provided_explicitly = a.redirect_uri_provided_explicitly;
    resource = a.resource;
    subject = subject;
  }

  unfoldable pub login_redirect : PendingAuthorization → String → String
  login_redirect a code =
      lib.construct_redirect_uri a.redirect_uri (("code", some code) ∷ ("state", a.state) ∷ [])

  -- The end of a login with the right password for a pending transaction.
  unfoldable pub grant :
      String → String → String → LoginTimes → PendingAuthorization → Provider → String × Provider
  unfolding issued_code login_redirect
  grant txn ip code t a p =
      let url = login_redirect a code in
      (
        url,
        record p {
          limiter = record_success ip p.limiter;
          pending = remove txn p.pending;
          codes = put code (issued_code a code t.issued) p.codes;
          completed =
              put txn (record { redirect_url = url; expires_at = t.finished + completed_login_ttl })
                p.completed;
        },
      )

  unfoldable pub failed_login : String → LoginTimes → Provider → Provider
  failed_login ip t p = record p { limiter = record_failure ip t.recorded p.limiter }

  -- A transaction that is not pending: the replay of a completed one, or an expired link.
  unfoldable pub replay :
      String → String → String → LoginTimes → Provider → Result String × Provider
  unfolding failed_login
  replay txn password ip t p = elim (get txn p.completed) [
    | none ↦ (raised login_expired, p)
    | some c ↦
        if cfg.auth.operator_password == password
        then (returned c.redirect_url, p)
        else (raised login_expired, failed_login ip t p)
  ]

  -- The part after the check for a lockout and the pruning.
  unfoldable pub evaluate_login :
      String → String → String → String → LoginTimes → Provider → Result String × Provider
  unfolding replay grant failed_login
  evaluate_login txn password ip code t p = elim (get txn p.pending) [
    | none ↦ replay txn password ip t p
    | some a ↦
        if cfg.auth.operator_password == password
        then (let (url, p') = grant txn ip code t a p in (returned url, p'))
        else (raised login_rejected, failed_login ip t p)
  ]

  -- `code` is what `secrets.token_urlsafe` returns if a code is minted.
  unfoldable pub complete_login :
      String → String → String → String → LoginTimes → Provider → Result String × Provider
  unfolding evaluate_login
  complete_login txn password ip code t p =
      let (wait, l') = locked_for ip t.checked p.limiter in
      let p' = record p { limiter = l' } in
      if ltb 0 wait
      then (raised (login_locked wait), p')
      else evaluate_login txn password ip code t (prune_pending lib cfg t.pruned p')
