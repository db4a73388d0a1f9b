-- ===== src/Examples/Tokens.antt =====
-- The theorems on codes and tokens, at the server of the tests.
use tri_onyx.Base.{String, List, [], ◌∷◌, none, some, ◌≡◌, ◌≢◌, refl, arith, String_eq}
use tri_onyx.Dict.{get}
use tri_onyx.Mcp.Config.{canonical_resource, canonical_resource_url}
use tri_onyx.Mcp.Storage.{hash_token, get_refresh_token}
use tri_onyx.Mcp.Auth.{returned, raised, token_error, AuthorizationCode, Provider}
use tri_onyx.Mcp.Auth.Login.{issued_code}
use tri_onyx.Mcp.Auth.Tokens.{
  OAuthToken, AccessToken, exchange_authorization_code, exchange_refresh_token, load_access_token,
}
use tri_onyx.Mcp.Auth.Exchange.{exchange_replayed}
use tri_onyx.Mcp.Auth.Rotation.{refresh_replayed, refresh_revokes}
use tri_onyx.Mcp.Auth.Lifetime.{refresh_loop_ends, refresh_loop, EndsBy, Presentation}
use tri_onyx.Mcp.Auth.Revocation.{accepted_access}
use tri_onyx.Examples.{plain, config, fresh_server, serving, parked, minting, renew, old_refresh}

abbrev code : AuthorizationCode
code = issued_code plain config parked "code" 20000

-- The server once the operator has logged in.
abbrev granting : Provider
granting = record fresh_server { codes = ("code", code) ∷ [] }

audience : canonical_resource_url plain.urls config ≡ some "host/mcp"
unfolding canonical_resource_url canonical_resource
audience = refl

code_there : get code.code granting.codes ≡ some code
unfolding get issued_code
code_there = refl

exchange_replayed_example :
    (exchange_authorization_code plain config "other" code 50000 minting
      (exchange_authorization_code plain config "claude" code 40000 minting granting).1).0
    ≡ raised (token_error "invalid_grant")
exchange_replayed_example =
    (exchange_replayed plain config "claude" "other" code 40000 50000 minting minting granting).0

other_hash : hash_token plain.sha256_hex "refresh" ≢ hash_token plain.sha256_hex "renew"
unfolding hash_token
other_hash e = ground (arith, (String_eq.equals_iff "refresh#" "renew#").1 e)

refresh_replayed_example :
    exchange_refresh_token plain config "other" renew [] 50000 minting
      (exchange_refresh_token plain config "claude" renew [] 40000 minting serving).1
    ≡ (
      raised (token_error "invalid_grant"),
      (exchange_refresh_token plain config "claude" renew [] 40000 minting serving).1,
    )
refresh_replayed_example =
    refresh_replayed plain config "claude" "other" renew [] [] 40000 50000 minting minting serving
      other_hash

stored_refresh : get_refresh_token plain.sha256_hex "renew" serving.store ≡ some old_refresh
unfolding get_refresh_token get
stored_refresh = refl

abbrev renewed : OAuthToken
renewed = record {
  access_token = "access";
  expires_in = 3600000;
  scope = "chat" ∷ [];
  refresh_token = "refresh";
}

refreshed_once :
    (exchange_refresh_token plain config "claude" renew [] 40000 minting serving).0
    ≡ returned renewed
unfolding exchange_refresh_token tri_onyx.Mcp.Storage.pop_refresh_token get canonical_resource_url
    canonical_resource
refreshed_once = refl

not_old : ◌≢◌ {A = String} "old#" (hash_token plain.sha256_hex "access")
unfolding hash_token
not_old e = ground (arith, (String_eq.equals_iff "old#" "access#").1 e)

refresh_revokes_example :
    get "old#"
      (exchange_refresh_token plain config "claude" renew [] 40000 minting serving).1.store.access
    ≡ none
refresh_revokes_example =
    (refresh_revokes plain config "claude" renew [] 40000 minting serving old_refresh "old#" renewed
      stored_refresh refl not_old refreshed_once).0

abbrev once : List Presentation
once = record { presenter = "claude"; scopes = []; at = 40000; minting = minting } ∷ []

loop_token :
    get_refresh_token plain.sha256_hex
      (refresh_loop plain config renew once serving).0.token
      (refresh_loop plain config renew once serving).1.store
    ≡ some (record old_refresh { access_hash = some "access#" })
unfolding get_refresh_token get refresh_loop exchange_refresh_token
    tri_onyx.Mcp.Storage.pop_refresh_token canonical_resource_url canonical_resource
    tri_onyx.Mcp.Storage.put_refresh_token tri_onyx.Dict.put tri_onyx.Mcp.Storage.put_access_token
    tri_onyx.Mcp.Storage.delete_access_token_hash tri_onyx.Dict.remove
loop_token = refl

refresh_loop_ends_example : EndsBy 90000 (record old_refresh { access_hash = some "access#" })
unfolding EndsBy
refresh_loop_ends_example =
    refresh_loop_ends plain config 90000 renew once serving old_refresh
      (record old_refresh { access_hash = some "access#" }) stored_refresh
      (refl, (_, refl, omega arith)) loop_token

abbrev loaded : AccessToken
loaded = record {
  token = "old";
  client_id = "claude";
  scopes = "chat" ∷ [];
  expires_at = some 60000;
  resource = some "host/mcp";
  subject = some "operator";
}

old_accepted : (load_access_token plain config "old" 50000 serving).0 ≡ returned (some loaded)
unfolding load_access_token tri_onyx.Mcp.Storage.get_access_token get canonical_resource_url
    canonical_resource
old_accepted = refl

accepted_access_example : (load_access_token plain config "old" 50000 serving).1 ≡ serving
accepted_access_example = (accepted_access plain config "old" 50000 serving loaded old_accepted).5
