-- ===== src/Mcp/Auth/Rotation.antt =====
-- The exchange of a refresh token: single use, and revocation of what it minted.
use tri_onyx.Base.{
  ℕ, String, false, List, Option, none, some, ◌≡◌, ◌≢◌, ◌⊎◌, refl, arith, inl, inr, Bool-cases,
  Option-cases, ◌∙◌, String_eq, ◌==◌, ap, sym,
}
use tri_onyx.Dict.{get, remove}
use tri_onyx.Dict.Laws.{get-put, get-remove_self}
use tri_onyx.Mcp.Config.{McpConfig, canonical_resource_url}
use tri_onyx.Mcp.Storage.{
  RefreshRecord, OAuthStore, save, hash_token, get_refresh_token, pop_refresh_token, is_past,
  delete_access_token_hash, or_else,
}
use tri_onyx.Mcp.Auth.{
  Library, Result, returned, raised, Raised, value_error, token_error, Provider,
}
use tri_onyx.Mcp.Auth.Tokens.{
  OAuthToken, RefreshToken, Minting, issue_tokens, exchange_refresh_token, rotate,
  drop_minted_access, truthy,
}
use tri_onyx.Mcp.Auth.Exchange.{access-issue_tokens, refresh-issue_tokens, issue_tokens_cases}

module _ (sha256_hex : String → String) (token : String) (s : OAuthStore) where
  pub popped-none :
      get_refresh_token sha256_hex token s ≡ none → pop_refresh_token sha256_hex token s ≡ (none, s)
  unfolding get_refresh_token pop_refresh_token
  popped-none e = rw (e, pop_refresh_token)

  pub popped-some :
      (r : RefreshRecord)
      → get_refresh_token sha256_hex token s ≡ some r
      → ((pop_refresh_token sha256_hex token s).0 ≡ some r)
        × ((pop_refresh_token sha256_hex token s).1.refresh
            ≡ remove (hash_token sha256_hex token) s.refresh)
        × ((pop_refresh_token sha256_hex token s).1.access ≡ s.access)
  unfolding get_refresh_token pop_refresh_token save
  popped-some r e = rw (e, pop_refresh_token) (refl, refl, refl)

  pub popped_gone :
      get_refresh_token sha256_hex token (pop_refresh_token sha256_hex token s).1 ≡ none
  unfolding get_refresh_token
  popped_gone = elim (Option-cases (get_refresh_token sha256_hex token s)) [
    | inl e ↦ ap (λ x. get (hash_token sha256_hex token) x.1.refresh) (popped-none e) ∙ e
    | inr (r, e) ↦
        ap (get (hash_token sha256_hex token)) (popped-some r e).1
        ∙ get-remove_self (hash_token sha256_hex token) s.refresh
  ]

pub refresh-drop_minted_access :
    (r : RefreshRecord) (s : OAuthStore) → (drop_minted_access r s).refresh ≡ s.refresh
unfolding delete_access_token_hash save
refresh-drop_minted_access r s = elim (Option-cases (truthy r.access_hash)) [
  | inl e ↦ rw (e, drop_minted_access)
  | inr (h, e) ↦ elim (Option-cases (get h s.access)) [
    | inl gone ↦ rw (e, drop_minted_access, gone, delete_access_token_hash)
    | inr (a, found) ↦ rw (e, drop_minted_access, found, delete_access_token_hash)
  ]
]

pub deleted_access_gone :
    (h : String) (s : OAuthStore) → get h (delete_access_token_hash h s).access ≡ none
unfolding delete_access_token_hash save
deleted_access_gone h s = elim (Option-cases (get h s.access)) [
  | inl gone ↦ rw (gone, delete_access_token_hash) gone
  | inr (a, found) ↦ rw (found, delete_access_token_hash) (get-remove_self h s.access)
]

pub minted_access_gone :
    (r : RefreshRecord) (h : String) (s : OAuthStore)
    → truthy r.access_hash ≡ some h
    → get h (drop_minted_access r s).access ≡ none
minted_access_gone r h s e = rw (e, drop_minted_access) (deleted_access_gone h s)

module _ (lib : Library) (cfg : McpConfig) (client_id : String) (t : RefreshToken)
    (scopes : List String) (now : ℕ) (m : Minting) (p : Provider) where
  abbrev pub after : Result OAuthToken × Provider
  after = exchange_refresh_token lib cfg client_id t scopes now m p

  -- The state once the token has been consumed.
  abbrev pub consumed : Provider
  consumed = record p { store = (pop_refresh_token lib.sha256_hex t.token p.store).1 }

  abbrev pub rotated : RefreshRecord → Provider
  rotated r = record consumed { store = drop_minted_access r consumed.store }

  pub refresh_cases :
      (after ≡ (raised (token_error "invalid_grant"), consumed))
      ⊎ ((r : RefreshRecord) × (get_refresh_token lib.sha256_hex t.token p.store ≡ some r)
          × (r.client_id ≡ client_id)
          × (is_past r.expires_at now ≡ false)
          × (after
              ≡ issue_tokens lib cfg client_id
                  (or_else scopes r.scopes)
                  r.absolute_expires_at
                  m
                  (rotated r)))
  unfolding exchange_refresh_token rotate
  refresh_cases = elim (Option-cases (get_refresh_token lib.sha256_hex t.token p.store)) [
    | inl gone ↦
        let here = ap (λ x. x.0) (popped-none lib.sha256_hex t.token p.store gone) in
        inl (rw (here, exchange_refresh_token))
    | inr (r, found) ↦
        let here = (popped-some lib.sha256_hex t.token p.store r found).0 in
        elim (Bool-cases (r.client_id == client_id)) [
          | inr foreign ↦ inl (rw (here, exchange_refresh_token, foreign))
          | inl own ↦ elim (Bool-cases (is_past r.expires_at now)) [
            | inl old ↦ inl (rw (here, exchange_refresh_token, own, old))
            | inr good ↦ inr (
              r,
              found,
              (String_eq.equals_iff r.client_id client_id).0 own,
              good,
              rw (here, exchange_refresh_token, own, good),
            )
          ]
        ]
  ]

  nothing_presented :
      get_refresh_token lib.sha256_hex t.token p.store ≡ none
      → after ≡ (raised (token_error "invalid_grant"), p)
  unfolding exchange_refresh_token
  nothing_presented gone =
      let e = popped-none lib.sha256_hex t.token p.store gone in
      rw (ap (λ x. x.0) e, exchange_refresh_token)
        (ap
          (λ (x : Option RefreshRecord × OAuthStore).
            (raised (token_error "invalid_grant"), record p { store = x.1 }))
          e)

  rotated_gone :
      (r : RefreshRecord) → get_refresh_token lib.sha256_hex t.token (rotated r).store ≡ none
  unfolding get_refresh_token
  rotated_gone r =
      ap (get (hash_token lib.sha256_hex t.token)) (refresh-drop_minted_access r consumed.store)
      ∙ popped_gone lib.sha256_hex t.token p.store

  -- The refresh token that is presented is gone, whatever the outcome.
  presented_gone :
      hash_token lib.sha256_hex m.refresh_token ≢ hash_token lib.sha256_hex t.token
      → get_refresh_token lib.sha256_hex t.token after.1.store ≡ none
  unfolding get_refresh_token
  presented_gone fresh = elim refresh_cases [
    | inl e ↦
        ap (λ x. get_refresh_token lib.sha256_hex t.token x.1.store) e
        ∙ popped_gone lib.sha256_hex t.token p.store
    | inr (r, found, own, good, e) ↦
        ap (λ x. get_refresh_token lib.sha256_hex t.token x.1.store) e
        ∙ (elim (issue_tokens_cases lib cfg client_id (or_else scopes r.scopes)
            r.absolute_expires_at m (rotated r)) [
              | inl failed ↦
                  ap (λ x. get_refresh_token lib.sha256_hex t.token x.1.store) failed
                  ∙ rotated_gone r
              | inr (audience, f) ↦
                  ap (get (hash_token lib.sha256_hex t.token)) (
                    refresh-issue_tokens lib cfg client_id (or_else scopes r.scopes)
                      r.absolute_expires_at m (rotated r) audience f)
                  ∙ get-put _ (hash_token lib.sha256_hex t.token) _ (rotated r).store.refresh
                  ∙ rw (rotated_gone r) (
                      ground (
                        arith,
                        fresh,
                        String_eq.equals_iff (hash_token lib.sha256_hex m.refresh_token)
                            (hash_token lib.sha256_hex t.token),
                      ))
            ])
  ]

  -- What a refresh that succeeds did.
  refreshed :
      (r : RefreshRecord) (tok : OAuthToken)
      → get_refresh_token lib.sha256_hex t.token p.store ≡ some r
      → after.0 ≡ returned tok
      → (r.client_id ≡ client_id)
        × (is_past r.expires_at now ≡ false)
        × ((audience : String) × (canonical_resource_url lib.urls cfg ≡ some audience))
        × (after
            ≡ issue_tokens lib cfg client_id
                (or_else scopes r.scopes)
                r.absolute_expires_at
                m
                (rotated r))
  refreshed r tok found h = elim refresh_cases [
    | inl e ↦ ground (arith, ap (λ x. x.0) e)
    | inr (r0, found0, own, good, e) ↦
        let same : r0 ≡ r = ground (arith, found0) in
        let e' =
          e
          ∙ ap
              (λ x.
                issue_tokens lib cfg client_id (or_else scopes x.scopes) x.absolute_expires_at m
                  (rotated x))
              same in
        (
          sym (ap (λ x. x.client_id) same) ∙ own,
          sym (ap (λ x. is_past x.expires_at now) same) ∙ good,
          (elim (issue_tokens_cases lib cfg client_id (or_else scopes r.scopes)
              r.absolute_expires_at m (rotated r)) [
                | inl failed ↦ ground (arith, ap (λ x. x.0) (e' ∙ failed))
                | inr found ↦ found
              ]),
          e',
        )
  ]

  -- After a refresh that succeeds, the access token that the presented refresh token last minted is
  -- no longer stored; the token was the client's own and had not expired.
  pub refresh_revokes :
      (r : RefreshRecord) (old_access : String) (tok : OAuthToken)
      → get_refresh_token lib.sha256_hex t.token p.store ≡ some r
      → truthy r.access_hash ≡ some old_access
      → old_access ≢ hash_token lib.sha256_hex m.access_token
      → after.0 ≡ returned tok
      → (get old_access after.1.store.access ≡ none)
        × (r.client_id ≡ client_id)
        × (is_past r.expires_at now ≡ false)
  refresh_revokes r old_access tok found minted other h =
      let (own, live, (audience, f), e) = refreshed r tok found h in
      (
        ap (λ x. get old_access x.1.store.access) e
            ∙ ap (get old_access) (
                access-issue_tokens lib cfg client_id (or_else scopes r.scopes)
                  r.absolute_expires_at m (rotated r) audience f)
            ∙ get-put (hash_token lib.sha256_hex m.access_token) old_access _
                (rotated r).store.access
            ∙ rw (minted_access_gone r old_access consumed.store minted) (
                ground (
                  arith,
                  other,
                  String_eq.equals_iff (hash_token lib.sha256_hex m.access_token) old_access,
                )),
        own,
        live,
      )

  -- Either nothing is minted and the presented token is gone, or tokens are issued.
  pub refresh_ends :
      ((e : Raised) × (after.0 ≡ raised e)
        × (get_refresh_token lib.sha256_hex t.token after.1.store ≡ none))
      ⊎ ((r : RefreshRecord) × (get_refresh_token lib.sha256_hex t.token p.store ≡ some r)
          × ((audience : String) × (canonical_resource_url lib.urls cfg ≡ some audience))
          × (after
              ≡ issue_tokens lib cfg client_id
                  (or_else scopes r.scopes)
                  r.absolute_expires_at
                  m
                  (rotated r)))
  refresh_ends = elim refresh_cases [
    | inl e ↦ inl (
      token_error "invalid_grant",
      ap (λ x. x.0) e,
      ap (λ x. get_refresh_token lib.sha256_hex t.token x.1.store) e
          ∙ popped_gone lib.sha256_hex t.token p.store,
    )
    | inr (r, found, own, good, e) ↦
        elim (issue_tokens_cases lib cfg client_id (or_else scopes r.scopes) r.absolute_expires_at m
          (rotated r)) [
            | inr audience ↦ inr (r, found, audience, e)
            | inl failed ↦ inl (
              value_error,
              ap (λ x. x.0) (e ∙ failed),
              ap (λ x. get_refresh_token lib.sha256_hex t.token x.1.store) (e ∙ failed)
                  ∙ rotated_gone r,
            )
          ]
  ]

-- A refresh token works once: after an exchange of it, with whatever outcome, any further one is
-- refused and mints nothing, if the token minted in between has another hash.
pub refresh_replayed :
    (lib : Library) (cfg : McpConfig) (client_id client_id' : String) (t : RefreshToken)
    (scopes scopes' : List String) (now now' : ℕ) (m m' : Minting) (p : Provider)
    → hash_token lib.sha256_hex m.refresh_token ≢ hash_token lib.sha256_hex t.token
    → exchange_refresh_token lib cfg client_id' t scopes' now' m'
        (exchange_refresh_token lib cfg client_id t scopes now m p).1
      ≡ (
        raised (token_error "invalid_grant"),
        (exchange_refresh_token lib cfg client_id t scopes now m p).1,
      )
refresh_replayed lib cfg client_id client_id' t scopes scopes' now now' m m' p fresh =
    nothing_presented lib cfg client_id' t scopes' now' m'
      (exchange_refresh_token lib cfg client_id t scopes now m p).1
      (presented_gone lib cfg client_id t scopes now m p fresh)
