-- ===== src/Mcp/Auth/Requests.antt =====
-- `authorize` and `register_client`: which requests they take, and the bound on the parked ones.
use tri_onyx.Base.{
  ℕ, ◌≤◌, String, Bool, true, false, List, [], ◌∷◌, none, some, length, ◌≡◌, ◌≢◌, ◌⊎◌, arith, inl,
  inr, Bool-cases, Option-cases, ◌∙◌, String_eq, ◌==◌, ap, sym, All, is_nonempty,
}
use native.Mathlib.Nat.{le_refl}
use tri_onyx.Dict.{get}
use tri_onyx.Dict.Laws.{get-put_self, length-put, length-evict_least}
use tri_onyx.Mcp.Config.{McpConfig, login_url}
use tri_onyx.Mcp.Storage.{Client, OAuthStore, put_client, get_client, stamped}
use tri_onyx.Mcp.Storage.Clients.{get_client-put_client}
use tri_onyx.Mcp.Auth.{
  Library, Result, returned, raised, Raised, value_error, registration_error, authorize_error,
  PendingAuthorization, AuthorizationParams, Provider, prune_pending, pending_client_ids,
  redirect_allowed, resource_ok, make_room, park, authorize, as_public, refused_redirect,
  register_client, max_pending,
}

-- What is parked for a request.
abbrev pub authorization_of : String → AuthorizationParams → ℕ → PendingAuthorization
authorization_of client_id params created = record {
  client_id = client_id;
  redirect_uri = params.redirect_uri;
  redirect_uri_provided_explicitly = params.redirect_uri_provided_explicitly;
  code_challenge = params.code_challenge;
  scopes = params.scopes;
  state = params.state;
  resource = params.resource;
  created_at = created;
}

module _ (lib : Library) (cfg : McpConfig) (client_id : String) (params : AuthorizationParams)
    (txn : String) (pruned created : ℕ) (p : Provider) where
  -- A request is refused and changes nothing; or its redirect URI is on the allowlist, its resource
  -- is this server and it has a PKCE challenge, and then it is parked under the new transaction.
  pub authorize_cases :
      ((e : Raised) × (authorize lib cfg client_id params txn pruned created p ≡ (raised e, p)))
      ⊎ ((redirect_allowed lib cfg params.redirect_uri p ≡ some true)
          × (resource_ok lib cfg params.resource ≡ some true)
          × (params.code_challenge ≢ "")
          × (authorize lib cfg client_id params txn pruned created p ≡ (
            returned (lib.construct_redirect_uri (login_url lib.urls cfg) (("txn", some txn) ∷ [])),
            park lib cfg client_id params txn pruned created p,
          )))
  unfolding authorize
  authorize_cases = elim (Option-cases (redirect_allowed lib cfg params.redirect_uri p)) [
    | inl e ↦ inl (value_error, rw (e, authorize))
    | inr (false, e) ↦ inl (authorize_error "access_denied", rw (e, authorize))
    | inr (true, e) ↦ elim (Option-cases (resource_ok lib cfg params.resource)) [
      | inl f ↦ inl (value_error, rw (e, f, authorize))
      | inr (false, f) ↦ inl (authorize_error "invalid_target", rw (e, f, authorize))
      | inr (true, f) ↦ elim (Bool-cases (params.code_challenge == "")) [
        | inl empty ↦ inl (authorize_error "invalid_request", rw (e, f, authorize, empty))
        | inr full ↦ inr (
          e,
          f,
          (ground (arith, String_eq.equals_iff params.code_challenge "")),
          rw (e, f, authorize, full),
        )
      ]
    ]
  ]

  pub park_bounded : length (park lib cfg client_id params txn pruned created p).pending ≤ 64
  unfolding park make_room
  park_bounded =
      let q = prune_pending lib cfg pruned p in
      omega (
        arith,
        length-put txn (authorization_of client_id params created) (make_room lib cfg q).pending,
        length-evict_least (λ (a : PendingAuthorization). a.created_at) max_pending
            (length q.pending) q.pending (omega arith) (le_refl _),
      )

  -- At most 64 authorization requests are parked at a time.
  pub authorize_bounded :
      length p.pending ≤ 64
      → length (authorize lib cfg client_id params txn pruned created p).1.pending ≤ 64
  authorize_bounded h = elim authorize_cases [
    | inl (e, same) ↦ omega (arith, h, ap (λ r. length r.1.pending) same)
    | inr (_, _, _, parked) ↦ omega (arith, park_bounded, ap (λ r. length r.1.pending) parked)
  ]

  -- The new request itself is never the one that is evicted.
  get-park :
      get txn (park lib cfg client_id params txn pruned created p).pending
      ≡ some (authorization_of client_id params created)
  unfolding park
  get-park = get-put_self txn _ (make_room lib cfg (prune_pending lib cfg pruned p)).pending

  -- A request that is accepted is parked as it was made, and so waits for the operator's login.
  pub authorize_parks :
      (url : String)
      → (authorize lib cfg client_id params txn pruned created p).0 ≡ returned url
      → get txn (authorize lib cfg client_id params txn pruned created p).1.pending
        ≡ some (authorization_of client_id params created)
  authorize_parks url h = elim authorize_cases [
    | inl (e, same) ↦ ground (arith, ap (λ r. r.0) same)
    | inr (_, _, _, parked) ↦ ap (λ r. get txn r.1.pending) parked ∙ get-park
  ]

client_of : Client → Result Client → Client
client_of other (returned c) = c
client_of other (raised e) = other

returned_injective : (c d : Client) → returned c ≡ returned d → c ≡ d
unfolding client_of
returned_injective c d e = ap (client_of c) e

-- Every redirect URI is on the allowlist.
pub AllAllowed : Library → McpConfig → Provider → List String → Type 0
AllAllowed lib cfg p = All (λ u. redirect_allowed lib cfg u p ≡ some true)

refused_redirect-none :
    (lib : Library) (cfg : McpConfig) (uris : List String) (p : Provider)
    → refused_redirect lib cfg uris p ≡ none
    → AllAllowed lib cfg p uris
unfolding refused_redirect AllAllowed
refused_redirect-none lib cfg [] p h = tt
refused_redirect-none lib cfg (u ∷ us) p h = elim (Option-cases (redirect_allowed lib cfg u p)) [
  | inl e ↦ absurd (ground (arith, rw (e, refused_redirect) at h))
  | inr (true, e) ↦ (e, refused_redirect-none lib cfg us p (rw (e, refused_redirect) at h))
  | inr (false, e) ↦ absurd (ground (arith, rw (e, refused_redirect) at h))
]

module _ (lib : Library) (cfg : McpConfig) (client_id : String) (client : Client) (pruned now : ℕ)
    (p : Provider) where
  -- What `put_client` is called with.
  abbrev stored_client : Bool × OAuthStore
  stored_client =
      let (protected, q) = pending_client_ids lib cfg pruned p in
      put_client client_id (as_public client) protected now q.store

  pub register_client_cases :
      ((e : Raised) × (register_client lib cfg client_id client pruned now p ≡ (raised e, p)))
      ⊎ (((stored_client.0 ≡ false)
            × (register_client lib cfg client_id client pruned now p ≡ (
              raised (registration_error "invalid_client_metadata"),
              record (prune_pending lib cfg pruned p) { store = stored_client.1 },
            )))
          ⊎ ((stored_client.0 ≡ true)
              × (is_nonempty client.redirect_uris ≡ true)
              × AllAllowed lib cfg p client.redirect_uris
              × (register_client lib cfg client_id client pruned now p ≡ (
                returned (as_public client),
                record (prune_pending lib cfg pruned p) { store = stored_client.1 },
              ))))
  unfolding register_client pending_client_ids
  register_client_cases = elim (Bool-cases (is_nonempty client.redirect_uris)) [
    | inr none_given ↦
        inl (registration_error "invalid_redirect_uri", rw (none_given, register_client))
    | inl given ↦ elim (Option-cases (refused_redirect lib cfg client.redirect_uris p)) [
      | inr (e, refused) ↦ inl (e, rw (given, register_client, refused))
      | inl allowed ↦ elim (Bool-cases stored_client.0) [
        | inr full ↦ inr (inl (full, rw (given, register_client, allowed, full)))
        | inl room ↦ inr (
            inr (
              room,
              given,
              refused_redirect-none lib cfg client.redirect_uris p allowed,
              rw (given, register_client, allowed, room),
            ))
      ]
    ]
  ]

  -- A registration that succeeds has redirect URIs, all of them on the allowlist, and is stored as a
  -- public client without a secret under its id.
  pub register_client_stores :
      (info : Client)
      → (register_client lib cfg client_id client pruned now p).0 ≡ returned info
      → (info ≡ as_public client)
        × (is_nonempty client.redirect_uris ≡ true)
        × AllAllowed lib cfg p client.redirect_uris
        × (get_client client_id (register_client lib cfg client_id client pruned now p).1.store
            ≡ some (stamped now info))
  register_client_stores info h = elim register_client_cases [
    | inl (e, same) ↦ ground (arith, ap (λ r. r.0) same)
    | inr (inl (full, same)) ↦ ground (arith, ap (λ r. r.0) same)
    | inr (inr (room, given, allowed, e)) ↦
        let q = pending_client_ids lib cfg pruned p in
        let same : info ≡ as_public client = returned_injective _ _ (sym h ∙ ap (λ r. r.0) e) in
        (
          same,
          given,
          allowed,
          ap (λ r. get_client client_id r.1.store) e
              ∙ get_client-put_client client_id (as_public client) q.0 now q.1.store room
              ∙ ap (λ c. some (stamped now c)) (sym same),
        )
  ]
