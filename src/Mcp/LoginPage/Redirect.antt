-- ===== src/Mcp/LoginPage/Redirect.antt =====
-- Who is redirected from `/login` to the client.
use tri_onyx.Base.{
  ℕ, String, true, Option, ◌≡◌, ◌≢◌, arith, inl, inr, Bool-cases, Option-cases, String_eq,
}
use tri_onyx.Mcp.Config.{McpConfig}
use tri_onyx.Mcp.Limiter.{global_delay}
use tri_onyx.Mcp.Auth.{
  Library, value_error, login_expired, login_rejected, login_locked, registration_error,
  authorize_error, token_error, Result, returned, raised, Provider, pending_details,
}
use tri_onyx.Mcp.Auth.Login.{LoginTimes, complete_login}
use tri_onyx.Mcp.Auth.Password.{complete_login_needs_password}
use tri_onyx.Mcp.LoginPage.{
  redirect, txn_cookie_ok, body_ok, submit_enter, page_of, submit_evaluate, login_submit,
}

-- A page that redirects comes from a login that returned the URL.
redirect-page_of :
    (lib : Library) (cfg : McpConfig) (txn url : String) (answer : Result String) (p : Provider)
    → page_of lib cfg txn answer p ≡ redirect url
    → answer ≡ returned url
unfolding page_of
redirect-page_of lib cfg txn url (returned u) p h = ground (arith, h)
redirect-page_of lib cfg txn url (raised (login_locked w)) p h = absurd (ground (arith, h))
redirect-page_of lib cfg txn url (raised login_expired) p h = absurd (ground (arith, h))
redirect-page_of lib cfg txn url (raised login_rejected) p h =
    elim (Option-cases (pending_details lib cfg txn p)) [
      | inl e ↦ absurd (ground (arith, rw (e, page_of) at h))
      | inr (d, e) ↦ absurd (ground (arith, rw (e, page_of) at h))
    ]
redirect-page_of lib cfg txn url (raised value_error) p h = absurd (ground (arith, h))
redirect-page_of lib cfg txn url (raised (registration_error e)) p h = absurd (ground (arith, h))
redirect-page_of lib cfg txn url (raised (authorize_error e)) p h = absurd (ground (arith, h))
redirect-page_of lib cfg txn url (raised (token_error e)) p h = absurd (ground (arith, h))

module _ (lib : Library) (cfg : McpConfig) (length : Option ℕ)
    (cookie txn password ip code url : String) (now : ℕ) (t : LoginTimes) (p : Provider) where
  -- The login form redirects only a browser that presents the cookie of this very transaction, with
  -- the operator's password and a request that is not too large.
  pub login_submit_redirects :
      (login_submit lib cfg length cookie txn password ip code now t p).0 ≡ redirect url
      → (cookie ≡ txn)
        × (txn ≢ "")
        × (cfg.auth.operator_password ≡ password)
        × (body_ok length ≡ true)
  unfolding login_submit submit_enter submit_evaluate txn_cookie_ok
  login_submit_redirects h = elim (Bool-cases (body_ok length)) [
    | inr large ↦ absurd (ground (arith, rw (large, login_submit, submit_enter) at h))
    | inl small ↦ elim (Bool-cases (txn_cookie_ok cookie txn)) [
      | inr foreign ↦ absurd (ground (arith, rw (small, login_submit, submit_enter, foreign) at h))
      | inl ours ↦
          let q = record p { limiter = (global_delay now p.limiter).1 } in
          let page : page_of lib cfg txn (complete_login lib cfg txn password ip code t q).0
                (complete_login lib cfg txn password ip code t q).1
              ≡ redirect url =
            rw (small, login_submit, submit_enter, ours) at h in
          (
            ground (arith, ours, String_eq.equals_iff cookie txn),
            ground (arith, ours, String_eq.equals_iff txn ""),
            (complete_login_needs_password lib cfg txn password ip code t q url
                (redirect-page_of lib cfg txn url _ _ page)).0,
            small,
          )
    ]
  ]
