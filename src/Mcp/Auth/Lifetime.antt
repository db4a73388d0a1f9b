-- ===== src/Mcp/Auth/Lifetime.antt =====
-- auth.py, `exchange_refresh_token` again and again: the lifetime of a session.
use tri_onyx.Base.{
  ℕ, zero, suc, ◌≤◌, String, List, [], ◌∷◌, Option, none, some, ◌≡◌, refl, arith, inl, inr, ◌∙◌,
  String_eq, ap, sym,
}
use mathlib.Core.Path.{subst}
use tri_onyx.Dict.Laws.{get-put_self}
use tri_onyx.Mcp.Config.{McpConfig, canonical_resource_url}
use tri_onyx.Mcp.Storage.{
  RefreshRecord, save, hash_token, get_refresh_token, put_access_token, put_refresh_token, or_else,
}
use tri_onyx.Mcp.Auth.{Library, Result, returned, raised, Provider}
use tri_onyx.Mcp.Auth.Tokens.{
  OAuthToken, RefreshToken, Minting, issue_tokens, refresh_record, exchange_refresh_token,
}
use tri_onyx.Mcp.Auth.Rotation.{refresh_ends, rotated}

-- A refresh record that ends by a fixed time, whatever is minted from it.
unfoldable pub EndsBy : ℕ → RefreshRecord → Type 0
EndsBy limit r =
    (r.absolute_expires_at ≡ some limit) × ((x : ℕ) × (r.expires_at ≡ some x) × (x ≤ limit))

refresh_record-EndsBy :
    (lib : Library) (cfg : McpConfig) (client_id : String) (scopes : List String)
    (audience : String) (limit : ℕ) (digest : String) (m : Minting)
    → EndsBy limit (refresh_record lib cfg client_id scopes audience (some limit) digest m)
unfolding refresh_record EndsBy
refresh_record-EndsBy lib cfg client_id scopes audience zero digest m =
    (refl, (_, refl, omega arith))
refresh_record-EndsBy lib cfg client_id scopes audience (suc n) digest m =
    (refl, (_, refl, omega arith))

-- One presentation of a refresh token: who presents it, when, and what would be minted.
pub record Presentation : Type 0 where
  pub presenter : String
  pub scopes : List String
  pub at : ℕ
  pub minting : Minting

-- The token that a client goes on with.
abbrev pub next_token : RefreshToken → Result OAuthToken → RefreshToken
next_token t (returned tok) = record t { token = tok.refresh_token }
next_token t (raised e) = t

-- A token that is gone, or ends by the limit.
abbrev Ends : ℕ → Option RefreshRecord → Type 0
Ends limit none = Unit
Ends limit (some r) = EndsBy limit r

module _ (lib : Library) (cfg : McpConfig) where
  -- A client that goes on refreshing with the token it got last.
  unfoldable pub refresh_loop :
      RefreshToken → List Presentation → Provider → RefreshToken × Provider
  refresh_loop t [] p = (t, p)
  refresh_loop t (x ∷ xs) p =
      let (answer, p') = exchange_refresh_token lib cfg x.presenter t x.scopes x.at x.minting p in
      refresh_loop (next_token t answer) xs p'

  abbrev EndsNext : ℕ → RefreshToken → Result OAuthToken × Provider → Type 0
  EndsNext limit t (answer, p) =
      Ends limit (get_refresh_token lib.sha256_hex (next_token t answer).token p.store)

  issued_ends :
      (limit : ℕ) (t : RefreshToken) (client_id : String) (scopes : List String) (audience : String)
      (m : Minting) (p : Provider)
      → canonical_resource_url lib.urls cfg ≡ some audience
      → EndsNext limit t (issue_tokens lib cfg client_id scopes (some limit) m p)
  unfolding issue_tokens put_access_token put_refresh_token save get_refresh_token
  issued_ends limit t client_id scopes audience m p f =
      rw (f, issue_tokens, EndsNext, get-put_self, Ends)
        (refresh_record-EndsBy lib cfg client_id scopes audience limit
          (hash_token lib.sha256_hex m.access_token) m)

  still_bounded :
      (limit : ℕ) (t : RefreshToken) (x : Presentation) (p : Provider)
      → Ends limit (get_refresh_token lib.sha256_hex t.token p.store)
      → Ends limit (
          get_refresh_token lib.sha256_hex
            (next_token t
              (exchange_refresh_token lib cfg x.presenter t x.scopes x.at x.minting p).0).token
            (exchange_refresh_token lib cfg x.presenter t x.scopes x.at x.minting p).1.store)
  unfolding EndsBy
  still_bounded limit t x p h =
      elim (refresh_ends lib cfg x.presenter t x.scopes x.at x.minting p) [
        | inl (e, failed, gone) ↦ rw (failed, next_token, gone, Ends) tt
        | inr (r, found, (audience, f), e) ↦
            let lives : r.absolute_expires_at ≡ some limit = (subst (Ends limit) found h).0 in
            let q = rotated lib cfg x.presenter t x.scopes x.at x.minting p r in
            subst (EndsNext limit t)
              (sym (
                e
                ∙ ap
                    (λ a.
                      issue_tokens lib cfg x.presenter (or_else x.scopes r.scopes) a x.minting q)
                    lives))
              (issued_ends limit t x.presenter (or_else x.scopes r.scopes) audience x.minting q f)
      ]

  loop_bounded :
      (limit : ℕ) (t : RefreshToken) (xs : List Presentation) (p : Provider)
      → Ends limit (get_refresh_token lib.sha256_hex t.token p.store)
      → Ends limit (
          get_refresh_token lib.sha256_hex
            (refresh_loop t xs p).0.token
            (refresh_loop t xs p).1.store)
  unfolding refresh_loop
  loop_bounded limit t [] p h = h
  loop_bounded limit t (x ∷ xs) p h =
      let r = exchange_refresh_token lib cfg x.presenter t x.scopes x.at x.minting p in
      loop_bounded limit (next_token t r.0) xs r.1 (still_bounded limit t x p h)

  -- Refreshing again and again, however often and by whomever, never outlives the absolute expiry of
  -- the first refresh token: the one held at the end still ends by it, if it is still stored.
  pub refresh_loop_ends :
      (limit : ℕ) (t : RefreshToken) (xs : List Presentation) (p : Provider) (r r' : RefreshRecord)
      → get_refresh_token lib.sha256_hex t.token p.store ≡ some r
      → EndsBy limit r
      → get_refresh_token lib.sha256_hex (refresh_loop t xs p).0.token (refresh_loop t xs p).1.store
        ≡ some r'
      → EndsBy limit r'
  refresh_loop_ends limit t xs p r r' found ends last =
      subst (Ends limit) last (loop_bounded limit t xs p (subst (Ends limit) (sym found) ends))
