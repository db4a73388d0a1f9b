-- ===== src/Mcp/Storage/Pruning.antt =====
-- What `prune` and the revocation of an access token leave in the store.
use mathlib.Core.Path.{fun_ext}
use tri_onyx.Base.{
  ℕ, ◌≤◌, Option, none, some, ◌↔◌, arith, String, Bool, true, false, List, [], ◌∷◌, if◌then◌else◌,
  is_nonempty, ◌≡◌, refl, String_eq,
}
use tri_onyx.Dict.{get, remove_all, select, IsDict}
use tri_onyx.Dict.Laws.{get-sweep, unless}
use tri_onyx.Mcp.Storage.{
  Client, Tables, OAuthStore, save, is_past, is_abandoned, prune, prune_tokens, prune_clients,
  client_ids_with_tokens, minted, delete_refresh_tokens_for_access,
}

-- No table has a key twice.
pub record HasDicts (t : Tables) : Type 0 where
  pub clients_dict : IsDict t.clients
  pub access_dict : IsDict t.access
  pub refresh_dict : IsDict t.refresh

-- No expiry, or one that has not passed.
abbrev pub Lives : ℕ → Option ℕ → Type 0
Lives now none = Unit
Lives now (some expires_at) = now ≤ expires_at

pub is_past-Lives : (e : Option ℕ) (now : ℕ) → (is_past e now ≡ false) ↔ Lives now e
is_past-Lives none now = ((λ h. tt), (λ h. refl))
is_past-Lives (some t) now = ground arith

tables-if_save : (b : Bool) (s : OAuthStore) → (if b then save s else s).tables ≡ s.tables
unfolding save
tables-if_save true s = refl
tables-if_save false s = refl

pub tables-prune :
    (now : ℕ) (s : OAuthStore)
    → (prune now s).1.tables ≡ (prune_clients now (prune_tokens now s).1).1.tables
unfolding prune
tables-prune now s = tables-if_save _ (prune_clients now (prune_tokens now s).1).1

is_abandoned-if_save :
    (b : Bool) (now : ℕ) (s : OAuthStore) (cid : String) (c : Client)
    → is_abandoned now (if b then save s else s) cid c ≡ is_abandoned now s cid c
unfolding save is_abandoned client_ids_with_tokens
is_abandoned-if_save true now s cid c = refl
is_abandoned-if_save false now s cid c = refl

pub is_abandoned-prune :
    (now : ℕ) (s : OAuthStore)
    → is_abandoned now (prune now s).1 ≡ is_abandoned now (prune_tokens now s).1
unfolding prune is_abandoned client_ids_with_tokens
is_abandoned-prune now s = fun_ext λ cid.
    fun_ext λ c. is_abandoned-if_save _ now (prune_clients now (prune_tokens now s).1).1 cid c

tables-if_any :
    (digests : List String) (s : OAuthStore)
    → (if is_nonempty digests
        then save (record s { tables = record s.tables { refresh = remove_all digests s.refresh } })
        else s).tables
      ≡ record s.tables { refresh = remove_all digests s.refresh }
unfolding save remove_all
tables-if_any [] s = refl
tables-if_any (d ∷ ds) s = refl

pub tables-delete_refresh_tokens_for_access :
    (access_hash : String) (s : OAuthStore)
    → (delete_refresh_tokens_for_access access_hash s).1.tables
      ≡ record s.tables { refresh = remove_all (select (minted access_hash) s.refresh) s.refresh }
unfolding delete_refresh_tokens_for_access
tables-delete_refresh_tokens_for_access access_hash s =
    tables-if_any (select (minted access_hash) s.refresh) s

-- Revoking an access token's hash drops the refresh tokens that last minted it and no others.
pub delete_refresh_tokens_for_access_exact :
    (access_hash digest : String) (s : OAuthStore)
    → HasDicts s.tables
    → get digest (delete_refresh_tokens_for_access access_hash s).1.refresh
      ≡ unless (minted access_hash) digest (get digest s.refresh)
delete_refresh_tokens_for_access_exact access_hash digest s h =
    rw (tables-delete_refresh_tokens_for_access access_hash s)
      (get-sweep (minted access_hash) digest s.refresh h.refresh_dict)
