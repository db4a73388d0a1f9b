-- ===== src/Mcp/Auth/Safety/Asking.antt =====
-- Registration, `authorize` and `complete_login` keep the invariant of the provider.
use tri_onyx.Base.{
  ℕ, ◌+◌, String, Bool, true, false, ltb, if◌then◌else◌, arith, inl, inr, String_eq,
}
use tri_onyx.Dict.{select}
use tri_onyx.Dict.Laws.{
  put-AllValues, remove-AllValues, remove_all-AllValues, evict_least-AllValues, get-AllValues,
  length-remove, length-remove_all,
}
use tri_onyx.Mcp.Config.{McpConfig}
use tri_onyx.Mcp.Limiter.{locked_for}
use tri_onyx.Mcp.Storage.{Client, OAuthStore}
use tri_onyx.Mcp.Auth.{
  Library, Result, AuthorizationParams, PendingAuthorization, Provider, prune_pending,
  pending_client_ids, make_room, max_pending, park, authorize, register_client, redirect_allowed,
  as_public,
}
use tri_onyx.Mcp.Auth.Login.{LoginTimes, complete_login, issued_code, grant, failed_login}
use tri_onyx.Mcp.Auth.Password.{at_check, complete_login_cases}
use tri_onyx.Mcp.Auth.Requests.{
  authorization_of, authorize_cases, park_bounded, register_client_cases,
}
use tri_onyx.Mcp.Auth.Safety.{
  resource_ok-IsForUs, IsRequest, TokensAreOurs, IsSafe, put_client-TokensAreOurs,
}

module _ (lib : Library) (cfg : McpConfig) where
  abbrev pub Safe : Provider → Type 0
  Safe p = IsSafe lib cfg p

  -- A change of the store alone.
  pub with_store :
      (s : OAuthStore) (p : Provider)
      → Safe p
      → TokensAreOurs lib cfg s
      → Safe (record p { store = s })
  with_store s p h ours = record {
    requests = h.requests;
    bounded = h.bounded;
    grants = h.grants;
    tokens = ours;
  }

  pub prune_pending-IsSafe : (now : ℕ) (p : Provider) → Safe p → Safe (prune_pending lib cfg now p)
  unfolding prune_pending
  prune_pending-IsSafe now p h =
      let old =
        select
          (λ _ (a : PendingAuthorization).
            ltb (a.created_at + cfg.auth.pending_authorization_ttl) now)
          p.pending in
      record {
        requests = remove_all-AllValues _ old p.pending h.requests;
        bounded = omega (arith, h.bounded, length-remove_all old p.pending);
        grants = remove_all-AllValues _ _ p.codes h.grants;
        tokens = h.tokens;
      }

  pub register-IsSafe :
      (cid : String) (c : Client) (pruned now : ℕ) (p : Provider)
      → Safe p
      → Safe (register_client lib cfg cid c pruned now p).1
  register-IsSafe cid c pruned now p h =
      let q = pending_client_ids lib cfg pruned p in
      let safe = prune_pending-IsSafe pruned p h in
      let stored =
        put_client-TokensAreOurs lib cfg cid (as_public c) q.0 now q.1.store
          (unfold pending_client_ids in safe.tokens) in
      elim (register_client_cases lib cfg cid c pruned now p) [
        | inl (e, same) ↦ rw same h
        | inr (inl (full, same)) ↦
            rw same (with_store _ (prune_pending lib cfg pruned p) safe stored)
        | inr (inr (room, given, allowed, same)) ↦
            rw same (with_store _ (prune_pending lib cfg pruned p) safe stored)
      ]

  park-IsSafe :
      (cid : String) (params : AuthorizationParams) (txn : String) (pruned created : ℕ)
      (p : Provider)
      → Safe p
      → IsRequest lib cfg p.allowed_redirects (authorization_of cid params created)
      → Safe (park lib cfg cid params txn pruned created p)
  unfolding park make_room prune_pending
  park-IsSafe cid params txn pruned created p h new = record {
    requests = put-AllValues _ txn (authorization_of cid params created) _ new (
        evict_least-AllValues _ (λ (a : PendingAuthorization). a.created_at) max_pending _ _
          (remove_all-AllValues _ _ p.pending h.requests));
    bounded = park_bounded lib cfg cid params txn pruned created p;
    grants = remove_all-AllValues _ _ p.codes h.grants;
    tokens = h.tokens;
  }

  pub request-IsSafe :
      (cid : String) (params : AuthorizationParams) (txn : String) (pruned created : ℕ)
      (p : Provider)
      → Safe p
      → Safe (authorize lib cfg cid params txn pruned created p).1
  unfolding redirect_allowed
  request-IsSafe cid params txn pruned created p h =
      elim (authorize_cases lib cfg cid params txn pruned created p) [
        | inl (e, same) ↦ rw same h
        | inr (uri, resource, challenge, parked) ↦ rw parked (
            park-IsSafe cid params txn pruned created p h (record {
              redirect = uri;
              target = resource_ok-IsForUs lib cfg params.resource resource;
              challenge = challenge;
            }))
      ]

  at_check-IsSafe :
      (ip : String) (t : LoginTimes) (p : Provider) → Safe p → Safe (at_check lib cfg ip t p)
  at_check-IsSafe ip t p h =
      prune_pending-IsSafe t.pruned (record p { limiter = (locked_for ip t.checked p.limiter).1 })
        (record {
          requests = h.requests;
          bounded = h.bounded;
          grants = h.grants;
          tokens = h.tokens;
        })

  failed_login-IsSafe :
      (ip : String) (t : LoginTimes) (p : Provider) → Safe p → Safe (failed_login lib cfg ip t p)
  unfolding failed_login
  failed_login-IsSafe ip t p h = record {
    requests = h.requests;
    bounded = h.bounded;
    grants = h.grants;
    tokens = h.tokens;
  }

  grant-IsSafe :
      (txn ip code : String) (t : LoginTimes) (a : PendingAuthorization) (p : Provider)
      → Safe p
      → IsRequest lib cfg p.allowed_redirects a
      → Safe (grant lib cfg txn ip code t a p).1
  unfolding grant issued_code
  grant-IsSafe txn ip code t a p h asked = record {
    requests = remove-AllValues _ txn p.pending h.requests;
    bounded = omega (arith, h.bounded, length-remove txn p.pending);
    grants =
        put-AllValues _ code (issued_code lib cfg a code t.issued) p.codes
          (record { redirect = asked.redirect; target = asked.target; challenge = asked.challenge })
          h.grants;
    tokens = h.tokens;
  }

  -- An answer that depends on a test.
  if-IsSafe :
      (b : Bool) (x y : Result String × Provider)
      → Safe x.1
      → Safe y.1
      → Safe (if b then x else y).1
  if-IsSafe true x y h k = h
  if-IsSafe false x y h k = k

  pub login-IsSafe :
      (txn password ip code : String) (t : LoginTimes) (p : Provider)
      → Safe p
      → Safe (complete_login lib cfg txn password ip code t p).1
  login-IsSafe txn password ip code t p h =
      let checked = at_check-IsSafe ip t p h in
      let failed = failed_login-IsSafe ip t (at_check lib cfg ip t p) checked in
      elim (complete_login_cases lib cfg txn password ip code t p) [
        | inl (locked, e) ↦ rw e (record {
          requests = h.requests;
          bounded = h.bounded;
          grants = h.grants;
          tokens = h.tokens;
        })
        | inr (free, inl (a, known, e)) ↦ rw e (
            if-IsSafe _ _ _
              (grant-IsSafe txn ip code t a (at_check lib cfg ip t p) checked
                (get-AllValues _ txn a _ known checked.requests))
              failed)
        | inr (free, inr (inl (c, done, e))) ↦ rw e (if-IsSafe _ _ _ checked failed)
        | inr (free, inr (inr (unknown, never, e))) ↦ rw e checked
      ]
