-- ===== src/Mcp/LoginPage.antt =====
-- mcp_server/mcp_server/server.py: the two handlers of `/login`. A page is the answer without its
-- HTML. A request is its content length as a number (`none` if there is none or it is not one), its
-- transaction cookie and the form's fields; the global delay is slept between `submit_enter` and
-- `submit_evaluate`, with `login_guard` held.
pub mod Redirect
use tri_onyx.Base.{
  ℕ, ◌+◌, ◌/◌, String, Bool, true, false, not, ◌&&◌, Option, none, some, leb, ◌==◌, if◌then◌else◌,
  String_eq,
}
use tri_onyx.Mcp.Config.{McpConfig}
use tri_onyx.Mcp.Limiter.{Limiter, global_delay}
use tri_onyx.Mcp.Auth.{
  Library, Raised, value_error, login_expired, login_rejected, login_locked, registration_error,
  authorize_error, token_error, Result, returned, raised, Provider, has_pending, pending_details,
}
use tri_onyx.Mcp.Auth.Login.{LoginTimes, complete_login}

pub data Page : Type 0 where
  too_large expired : Page
  locked_out : ℕ → Page
  -- client_name, client_id, redirect_uri, and whether it says that the credentials were wrong
  login_page : String × String × String → Bool → Page
  redirect : String → Page
  server_error : Raised → Page

-- _MAX_LOGIN_BODY_BYTES
abbrev pub max_login_body : ℕ
max_login_body = 4096

abbrev pub minute : ℕ
minute = 60000

unfoldable pub txn_cookie_ok : String → String → Bool
txn_cookie_ok cookie txn = not (txn == "") && not (cookie == "") && cookie == txn

abbrev pub body_ok : Option ℕ → Bool
body_ok none = false
body_ok (some n) = leb n max_login_body

pub data Entered : Type 0 where
  refused : Page → Entered
  delayed : ℕ → Provider → Entered

unfoldable pub submit_enter : Option ℕ → String → String → ℕ → Provider → Entered
unfolding txn_cookie_ok
submit_enter length cookie txn now p =
    if body_ok length
    then (if txn_cookie_ok cookie txn
        then (let (delay, l) = global_delay now p.limiter in
            delayed delay (record p { limiter = l }))
        else refused expired)
    else refused too_large

module _ (lib : Library) (cfg : McpConfig) where
  -- The details are there, since `has_pending` was just checked; the code asserts it.
  unfoldable pub login_form : String → String → ℕ → Provider → Page × Provider
  unfolding txn_cookie_ok
  login_form cookie txn now p =
      if txn == ""
      then (expired, p)
      else (let (here, p') = has_pending lib cfg txn now p in
          if here && txn_cookie_ok cookie txn
          then (elim (pending_details lib cfg txn p') [
            | none ↦ (expired, p')
            | some d ↦ (login_page d false, p')
          ])
          else (expired, p'))

  unfoldable pub page_of : String → Result String → Provider → Page
  page_of txn (returned url) p = redirect url
  page_of txn (raised (login_locked retry_after)) p = locked_out (retry_after / minute + 1)
  page_of txn (raised login_expired) p = expired
  page_of txn (raised login_rejected) p = elim (pending_details lib cfg txn p) [
    | none ↦ expired
    | some d ↦ login_page d true
  ]
  page_of txn (raised value_error) p = server_error value_error
  page_of txn (raised (registration_error e)) p = server_error (registration_error e)
  page_of txn (raised (authorize_error e)) p = server_error (authorize_error e)
  page_of txn (raised (token_error e)) p = server_error (token_error e)

  unfoldable pub submit_evaluate :
      String → String → String → String → LoginTimes → Provider → Page × Provider
  unfolding page_of
  submit_evaluate txn password ip code t p =
      let (answer, p') = complete_login lib cfg txn password ip code t p in
      (page_of txn answer p', p')

  unfoldable pub login_submit :
      Option ℕ
      → String
      → String
      → String
      → String
      → String
      → ℕ
      → LoginTimes
      → Provider
      → Page × Provider
  unfolding submit_enter submit_evaluate
  login_submit length cookie txn password ip code now t p =
      elim (submit_enter length cookie txn now p) [
        | refused page ↦ (page, p)
        | delayed delay q ↦ submit_evaluate txn password ip code t q
      ]
