-- ===== src/Mcp/Auth/Revocation.antt =====
-- `revoke_token`, and what `load_access_token` accepts.
use tri_onyx.Base.{
  ℕ, String, Option, false, none, some, ◌==◌, ◌⊎◌, refl, sym, ◌≡◌, arith, inl, inr, Bool-cases,
  Option-cases, ◌∙◌, String_eq, ap,
}
use tri_onyx.Dict.{get}
use tri_onyx.Mcp.Config.{McpConfig, canonical_resource_url}
use tri_onyx.Mcp.Storage.{
  AccessRecord, RefreshRecord, hash_token, get_refresh_token, get_access_token, pop_refresh_token,
  is_past,
}
use tri_onyx.Mcp.Storage.Pruning.{Lives, is_past-Lives}
use tri_onyx.Mcp.Auth.{Library, returned, Provider}
use tri_onyx.Mcp.Auth.Tokens.{
  AccessToken, load_access_token, checked_access, is_foreign, revoke_refresh_token, truthy, whole,
}
use tri_onyx.Mcp.Auth.Rotation.{
  popped-some, popped_gone, refresh-drop_minted_access, minted_access_gone,
}

module _ (lib : Library) (cfg : McpConfig) where
  not_foreign :
      (r : Option String) (audience : String)
      → canonical_resource_url lib.urls cfg ≡ some audience
      → is_foreign r audience ≡ false
      → (r ≡ none) ⊎ (r ≡ canonical_resource_url lib.urls cfg)
  not_foreign none audience e h = inl refl
  not_foreign (some r) audience e h = elim (Bool-cases (r == audience)) [
    | inl same ↦ inr (ap some ((String_eq.equals_iff r audience).0 same) ∙ sym e)
    | inr other ↦ absurd (ground (arith, h, other))
  ]

module _ (lib : Library) (cfg : McpConfig) (token : String) (later : ℕ) (p : Provider) where
  pub absent_access_refused :
      get (hash_token lib.sha256_hex token) p.store.access ≡ none
      → load_access_token lib cfg token later p ≡ (returned none, p)
  unfolding load_access_token get_access_token
  absent_access_refused e = rw (e, load_access_token)

  -- A token is accepted only if it is stored, has not expired, and its resource is none or the canonical
  -- URL of this server; the answer is then what is stored, with the expiry cut to whole seconds, and the
  -- provider is left as it is.
  pub accepted_access :
      (tok : AccessToken)
      → (load_access_token lib cfg token later p).0 ≡ returned (some tok)
      → (r : AccessRecord) × (get_access_token lib.sha256_hex token p.store ≡ some r)
        × Lives later r.expires_at
        × ((r.resource ≡ none) ⊎ (r.resource ≡ canonical_resource_url lib.urls cfg))
        × (tok ≡ record {
          token = token;
          client_id = r.client_id;
          scopes = r.scopes;
          expires_at = whole r.expires_at;
          resource = r.resource;
          subject = r.subject;
        })
        × ((load_access_token lib cfg token later p).1 ≡ p)
  unfolding load_access_token checked_access
  accepted_access tok h = elim (Option-cases (get_access_token lib.sha256_hex token p.store)) [
    | inl gone ↦ absurd (ground (arith, rw (gone, load_access_token) at h))
    | inr (r, found) ↦ elim (Bool-cases (is_past r.expires_at later)) [
      | inl old ↦ absurd (ground (arith, rw (found, load_access_token, old) at h))
      | inr live ↦ elim (Option-cases (canonical_resource_url lib.urls cfg)) [
        | inl f ↦
            absurd (ground (arith, rw (found, load_access_token, live, f, checked_access) at h))
        | inr (audience, f) ↦ elim (Bool-cases (is_foreign r.resource audience)) [
          | inl foreign ↦
              absurd (
                ground
                  (arith, rw (found, load_access_token, live, f, checked_access, foreign) at h))
          | inr ours ↦
              let h' = rw (found, load_access_token, live, f, checked_access, ours) at h in
              (
                r,
                found,
                (is_past-Lives r.expires_at later).0 live,
                not_foreign lib cfg r.resource audience f ours,
                ground (arith, h'),
                rw (found, load_access_token, live, f, checked_access, ours),
              )
        ]
      ]
    ]
  ]

module _ (lib : Library) (cfg : McpConfig) (token : String) (p : Provider) where
  -- The revocation of a refresh token: it is gone, and so is the access token that it last minted.
  pub revoked_refresh_gone :
      (r : RefreshRecord) (old_access : String)
      → get_refresh_token lib.sha256_hex token p.store ≡ some r
      → truthy r.access_hash ≡ some old_access
      → (get_refresh_token lib.sha256_hex token (revoke_refresh_token lib cfg token p).store ≡ none)
        × (get old_access (revoke_refresh_token lib cfg token p).store.access ≡ none)
  unfolding revoke_refresh_token get_refresh_token
  revoked_refresh_gone r old_access found h =
      let (here, refresh, access) = popped-some lib.sha256_hex token p.store r found in
      let s = (pop_refresh_token lib.sha256_hex token p.store).1 in
      (
        rw (here, revoke_refresh_token)
            (ap (get (hash_token lib.sha256_hex token)) (refresh-drop_minted_access r s)
              ∙ popped_gone lib.sha256_hex token p.store),
        rw (here, revoke_refresh_token) (minted_access_gone r old_access s h),
      )
