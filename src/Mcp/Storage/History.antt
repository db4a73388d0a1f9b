-- ===== src/Mcp/Storage/History.antt =====
-- Sequences of store operations: the invariant of the tables, and what a restart finds on disk.
use tri_onyx.Base.{
  String_eq, ℕ, ◌≤◌, String, true, false, List, [], ◌∷◌, length, ◌≡◌, refl, sym, ap, ◌∙◌,
}
use tri_onyx.Mcp.Storage.{
  Client, AccessRecord, RefreshRecord, Tables, document, OAuthStore, save, put_client,
  put_access_token, put_refresh_token, pop_refresh_token, delete_access_token_hash,
  delete_refresh_token_hash, delete_refresh_tokens_for_access, prune, prune_tokens, prune_clients,
  open_store, is_abandoned, client_ids_with_tokens,
}
use tri_onyx.Mcp.Storage.Pruning.{HasDicts, tables-prune}
use tri_onyx.Mcp.Storage.Keeping.{
  IsKept, put_client-IsKept, pop_refresh_token-IsKept, delete_access_token_hash-IsKept,
  delete_refresh_token_hash-IsKept, put_access_token-IsKept, put_refresh_token-IsKept,
  delete_refresh_tokens_for_access-IsKept, prune-IsKept,
}

-- The calls that change the store.
pub data StoreOp : Type 0 where
  register : String → Client → List String → ℕ → StoreOp
  put_access : String → AccessRecord → StoreOp
  put_refresh : String → RefreshRecord → StoreOp
  pop_refresh : String → StoreOp
  drop_access drop_refresh drop_minted : String → StoreOp
  prune_at : ℕ → StoreOp

module _ (sha256_hex : String → String) where
  unfoldable pub run : StoreOp → OAuthStore → OAuthStore
  run (register cid c protected now) s = (put_client cid c protected now s).1
  run (put_access token r) s = (put_access_token sha256_hex token r s).1
  run (put_refresh token r) s = (put_refresh_token sha256_hex token r s).1
  run (pop_refresh token) s = (pop_refresh_token sha256_hex token s).1
  run (drop_access digest) s = delete_access_token_hash digest s
  run (drop_refresh digest) s = delete_refresh_token_hash digest s
  run (drop_minted digest) s = (delete_refresh_tokens_for_access digest s).1
  run (prune_at now) s = (prune now s).1

  unfoldable pub run_all : List StoreOp → OAuthStore → OAuthStore
  unfolding run
  run_all [] s = s
  run_all (op ∷ ops) s = run_all ops (run op s)

-- A store on a disk that takes its writes: distinct keys, a bounded client table, a file that is up
-- to date.
pub record IsSound (s : OAuthStore) : Type 0 where
  pub on_disk : s.has_path ≡ true
  pub can_write : s.writable ≡ true
  pub dicts : HasDicts s.tables
  pub bounded : length s.clients ≤ s.max_clients
  pub saved : s.file ≡ document s.tables

abbrev IsSaved : OAuthStore → Type 0
IsSaved s = (s.has_path ≡ true) × (s.writable ≡ true) × (s.file ≡ document s.tables)

save-IsSaved : (t : Tables) (s : OAuthStore) → IsSaved s → IsSaved (save (record s { tables = t }))
unfolding save
save-IsSaved t s (path, takes, saved) = (path, takes, rw (path, takes) refl)

-- The new process, once it has read the file.
abbrev reopened_store : OAuthStore → OAuthStore
reopened_store t = record {
  has_path = true;
  max_clients = t.max_clients;
  client_ttl = t.client_ttl;
  tables = t.tables;
  write_failed = false;
  file = document t.tables;
  writable = true;
}

open_store_lem :
    (t : OAuthStore) (now : ℕ)
    → open_store true t.max_clients t.client_ttl (document t.tables) true now
      ≡ (prune now (reopened_store t)).1
unfolding open_store
open_store_lem t now = refl

-- The tables after a prune depend on the tables before and on the lifetime of a registration.
tables-prune_reopened :
    (t : OAuthStore) (now : ℕ) → (prune now (reopened_store t)).1.tables ≡ (prune now t).1.tables
unfolding prune_clients prune_tokens is_abandoned client_ids_with_tokens
tables-prune_reopened t now = tables-prune now (reopened_store t) ∙ sym (tables-prune now t)

open_store_saved :
    (t : OAuthStore) (now : ℕ)
    → IsSound t
    → (open_store true t.max_clients t.client_ttl t.file true now).tables ≡ (prune now t).1.tables
open_store_saved t now g =
    ap (λ f. (open_store true t.max_clients t.client_ttl f true now).tables) g.saved
    ∙ ap (λ (s : OAuthStore). s.tables) (open_store_lem t now)
    ∙ tables-prune_reopened t now

module _ (sha256_hex : String → String) where
  module _ (OnDisk : OAuthStore → Type 0)
      (keeps : (t : Tables) (s : OAuthStore)
        → OnDisk s
        → OnDisk (save (record s { tables = t }))) where
    pub run-IsKept :
        (op : StoreOp) (s : OAuthStore)
        → IsKept OnDisk keeps s
        → IsKept OnDisk keeps (run sha256_hex op s)
    unfolding run
    run-IsKept (register cid c protected now) s h =
        put_client-IsKept OnDisk keeps cid c protected now s h
    run-IsKept (put_access token r) s h =
        put_access_token-IsKept OnDisk keeps sha256_hex s h token r
    run-IsKept (put_refresh token r) s h =
        put_refresh_token-IsKept OnDisk keeps sha256_hex s h token r
    run-IsKept (pop_refresh token) s h = pop_refresh_token-IsKept OnDisk keeps sha256_hex s h token
    run-IsKept (drop_access digest) s h =
        delete_access_token_hash-IsKept OnDisk keeps sha256_hex s h digest
    run-IsKept (drop_refresh digest) s h =
        delete_refresh_token_hash-IsKept OnDisk keeps sha256_hex s h digest
    run-IsKept (drop_minted digest) s h =
        delete_refresh_tokens_for_access-IsKept OnDisk keeps sha256_hex s h digest
    run-IsKept (prune_at now) s h = prune-IsKept OnDisk keeps now s h

  run-IsSound : (op : StoreOp) (s : OAuthStore) → IsSound s → IsSound (run sha256_hex op s)
  run-IsSound op s h =
      let kept = run-IsKept IsSaved save-IsSaved op s (record {
        disk = (h.on_disk, h.can_write, h.saved);
        dicts = h.dicts;
        bounded = h.bounded;
      }) in
      record {
        on_disk = kept.disk.0;
        can_write = kept.disk.1;
        dicts = kept.dicts;
        bounded = kept.bounded;
        saved = kept.disk.2;
      }

  -- On a disk that takes every write, the tables stay well formed and the file up to date.
  run_all-IsSound :
      (ops : List StoreOp) (s : OAuthStore) → IsSound s → IsSound (run_all sha256_hex ops s)
  unfolding run_all
  run_all-IsSound [] s h = h
  run_all-IsSound (op ∷ ops) s h = run_all-IsSound ops (run sha256_hex op s) (run-IsSound op s h)

  -- After any operations on a store whose disk takes its writes, a process that opens the file anew
  -- has the tables that a prune at that time would leave in the old process.
  pub restart_keeps_tables :
      (ops : List StoreOp) (s : OAuthStore) (now : ℕ)
      → IsSound s
      → (open_store true
          (run_all sha256_hex ops s).max_clients
          (run_all sha256_hex ops s).client_ttl
          (run_all sha256_hex ops s).file
          true
          now).tables
        ≡ (prune now (run_all sha256_hex ops s)).1.tables
  restart_keeps_tables ops s now h =
      open_store_saved (run_all sha256_hex ops s) now (run_all-IsSound ops s h)
