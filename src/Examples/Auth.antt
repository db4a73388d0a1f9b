-- ===== src/Examples/Auth.antt =====
-- The theorems on registration, authorization and login, at the server of the tests.
use tri_onyx.Base.{[], ◌∷◌, some, ◌≡◌, ◌≢◌, refl, arith, inl, String_eq}
use tri_onyx.Dict.{get, put, IsDict}
use tri_onyx.Mcp.Config.{canonical_resource, canonical_resource_url, login_url}
use tri_onyx.Mcp.Auth.{
  returned, redirect_allowed, resource_ok, park, prune_pending, authorize, register_client,
  as_public,
}
use tri_onyx.Mcp.Auth.Login.{complete_login, issued_code}
use tri_onyx.Mcp.Auth.Tokens.{exchange_authorization_code, load_access_token}
use tri_onyx.Mcp.Auth.Password.{at_check, complete_login_needs_password, wrong_password_costs}
use tri_onyx.Mcp.LoginPage.{login_submit, redirect}
use tri_onyx.Mcp.LoginPage.Redirect.{login_submit_redirects}
use tri_onyx.Mcp.Auth.Requests.{authorization_of}
use tri_onyx.Mcp.Auth.Flow.{authorization_flow}
use tri_onyx.Mcp.Auth.Safety.{IsSafe, run_all, request, login}
use tri_onyx.Mcp.Auth.Safety.Steps.{run_all-IsSafe}
use tri_onyx.Mcp.Auth.Safety.Closed.{IsClosed, no_token_without_password}
use tri_onyx.Mcp.Storage.{get_client, stamped}
use tri_onyx.Mcp.Limiter.{attempt}
use tri_onyx.Examples.{
  quiet, plain, config, fresh_server, waiting, params, parked, at_20, minting, claude,
}

asked_url :
    (authorize plain config "claude" params "txn" 9000 10000 fresh_server).0 ≡ returned "host/login"
unfolding authorize redirect_allowed canonical_resource resource_ok canonical_resource_url
    tri_onyx.Mcp.Config.canonical_issuer_url login_url
asked_url = refl

audience : canonical_resource_url plain.urls config ≡ some "host/mcp"
unfolding canonical_resource_url canonical_resource
audience = refl

login_url_returned :
    (complete_login plain config "txn" "secret" "ip" "code" at_20 waiting).0 ≡ returned "callback"
unfolding complete_login tri_onyx.Mcp.Limiter.locked_for get prune_pending tri_onyx.Dict.remove_all
    tri_onyx.Dict.select
login_url_returned = refl

authorization_flow_example :
    (load_access_token plain config "access" 3000000
      (exchange_authorization_code plain config "claude"
        (issued_code plain config (authorization_of "claude" params 10000) "code" 20000)
        40000
        minting
        (complete_login plain config "txn" "secret" "ip" "code" at_20
          (authorize plain config "claude" params "txn" 9000 10000 fresh_server).1).1).1).0
    ≡ returned (
        some (record {
          token = "access";
          client_id = "claude";
          scopes = "chat" ∷ [];
          expires_at = some 3640000;
          resource = some "host/mcp";
          subject = some "operator";
        }))
unfolding tri_onyx.Mcp.Limiter.locked_for get authorize redirect_allowed canonical_resource
    resource_ok canonical_resource_url tri_onyx.Mcp.Config.canonical_issuer_url park
authorization_flow_example =
    (authorization_flow plain config "claude" params "txn" 9000 10000 fresh_server "ip" "secret"
      "code" at_20 40000 minting "host/login" "host/mcp" 3000000 asked_url tt refl refl
      (omega arith) (omega arith) audience (omega arith)).2

other_password : config.auth.operator_password ≢ "guess"
other_password e = ground (arith, (String_eq.equals_iff "secret" "guess").1 e)

no_token_without_password_example : IsClosed (
    run_all plain config
      (request "claude" params "txn" 9000 10000 ∷ login "txn" "guess" "ip" "code" at_20 ∷ [])
      fresh_server)
no_token_without_password_example =
    (no_token_without_password plain config
      (request "claude" params "txn" 9000 10000 ∷ login "txn" "guess" "ip" "code" at_20 ∷ [])
      fresh_server "access" 30000 (tt, (other_password, tt))
      (record { no_codes = refl; no_access = refl; no_refresh = refl })).0

run_all-IsSafe_example : IsSafe plain config (
    run_all plain config
      (request "claude" params "txn" 9000 10000 ∷ login "txn" "secret" "ip" "code" at_20 ∷ [])
      fresh_server)
run_all-IsSafe_example =
    run_all-IsSafe plain config
      (request "claude" params "txn" 9000 10000 ∷ login "txn" "secret" "ip" "code" at_20 ∷ [])
      fresh_server
      (record {
        requests = tt;
        bounded = omega arith;
        grants = tt;
        tokens = record { access = tt; refresh = tt };
      })

complete_login_needs_password_example : config.auth.operator_password ≡ "secret"
complete_login_needs_password_example =
    (complete_login_needs_password plain config "txn" "secret" "ip" "code" at_20 waiting "callback"
      login_url_returned).0

still_waiting : get "txn" (at_check plain config "ip" at_20 waiting).pending ≡ some parked
unfolding get prune_pending tri_onyx.Dict.remove_all tri_onyx.Dict.select
still_waiting = refl

wrong_password_costs_example :
    (complete_login plain config "txn" "guess" "ip" "code" at_20 waiting).1.limiter
    ≡ (attempt "ip" (20000, 20000) quiet).1
wrong_password_costs_example =
    (wrong_password_costs plain config "txn" "guess" "ip" "code" at_20 waiting other_password
      (inl (λ e. ground (arith, still_waiting, e)))).0

registered :
    (register_client plain config "claude" claude 1000 1000 fresh_server).0
    ≡ returned (as_public claude)
unfolding register_client redirect_allowed canonical_resource tri_onyx.Mcp.Storage.put_client
    tri_onyx.Mcp.Storage.is_full_for tri_onyx.Dict.keys prune_pending
registered = refl

redirected :
    (login_submit plain config (some 100) "txn" "txn" "secret" "ip" "code" 15000 at_20 waiting).0
    ≡ redirect "callback"
unfolding login_submit complete_login tri_onyx.Mcp.Limiter.locked_for get
    tri_onyx.Mcp.Limiter.global_delay prune_pending tri_onyx.Dict.remove_all tri_onyx.Dict.select
redirected = refl

login_submit_redirects_example : config.auth.operator_password ≡ "secret"
login_submit_redirects_example =
    (login_submit_redirects plain config (some 100) "txn" "txn" "secret" "ip" "code" "callback"
      15000 at_20 waiting redirected).2
