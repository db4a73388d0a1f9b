-- ===== src/Examples/Store.antt =====
-- The theorems on the store and on the limiter, at small tables.
use tri_onyx.Base.{
  ◌≤◌, String, true, false, inr, List, [], ◌∷◌, none, some, contains, ◌↔◌, ◌⊎◌, ◌≡◌, ◌≢◌, refl,
  arith, String_eq,
}
use tri_onyx.Dict.{get}
use tri_onyx.Mcp.Storage.{
  number, Client, AccessRecord, OAuthStore, Tables, document, put_client, get_client,
  client_ids_with_tokens, issued_at_of, prune, is_past, open_store, load, no_tables,
}
use tri_onyx.Mcp.Storage.Evicted.{put_client_evicts_oldest}
use tri_onyx.Mcp.Storage.Pruning.{HasDicts, Lives}
use tri_onyx.Mcp.Storage.Holders.{HoldsToken, time_of}
use tri_onyx.Mcp.Storage.Pruned.{prune_exact}
use tri_onyx.Mcp.Storage.Failing.{
  DiskOp, call, takes_writes, IsTracking, happen_all, happen_all-IsTracking,
}
use tri_onyx.Mcp.Storage.History.{
  StoreOp, register, put_access, IsSound, run_all, restart_keeps_tables,
}
use tri_onyx.Mcp.Limiter.{Limiter}
use tri_onyx.Mcp.Limiter.Lockout.{evaluated, attempt_budget}
use tri_onyx.Examples.{claude, in_memory, signed_in, old_access, old_refresh, quiet}

abbrev late : Client
late = record claude { client_id_issued_at = number 7000 }

-- A store that holds two clients without tokens beside the one that is signed in, and is full.
abbrev crowded : OAuthStore
crowded =
    record (in_memory (record signed_in {
      clients = ("claude", claude) ∷ ("early", claude) ∷ ("late", late) ∷ [];
    })) { max_clients = 3 }

not_new : ◌≢◌ {A = String} "claude" "new"
not_new e = ground (arith, (String_eq.equals_iff "claude" "new").1 e)

holds : contains "claude" (client_ids_with_tokens crowded) ≡ true
unfolding client_ids_with_tokens tri_onyx.Dict.values
holds = refl

early_stored : get_client "early" crowded ≡ some claude
unfolding get_client get
early_stored = refl

early_gone : get_client "early" (put_client "new" claude [] 8000 crowded).1 ≡ none
unfolding get_client get put_client tri_onyx.Mcp.Storage.is_full_for tri_onyx.Dict.keys
    tri_onyx.Mcp.Storage.evict_one_client tri_onyx.Dict.min_by
    tri_onyx.Mcp.Storage.preferred_candidates tri_onyx.Mcp.Storage.eviction_candidates
    client_ids_with_tokens tri_onyx.Dict.values tri_onyx.Mcp.Storage.store_client tri_onyx.Dict.put
    tri_onyx.Dict.remove issued_at_of
early_gone = refl

late_stored : get_client "late" crowded ≡ some late
unfolding get_client get
late_stored = refl

crowded-HasDicts : HasDicts crowded.tables
unfolding get
crowded-HasDicts = record {
  clients_dict = (refl, (refl, (refl, tt)));
  access_dict = (refl, tt);
  refresh_dict = (refl, tt);
}

abbrev nobody : List String
nobody = []

put_client_evicts_oldest_example :
    (¬ HoldsToken "early" crowded.tables)
    × (HoldsToken "late" crowded.tables
        ⊎ (contains "late" nobody ≡ true)
        ⊎ ((contains "early" nobody ≡ false)
            × (time_of claude.client_id_issued_at ≤ time_of late.client_id_issued_at)))
put_client_evicts_oldest_example =
    put_client_evicts_oldest "new" claude nobody 8000 crowded "early" "late" claude late
      crowded-HasDicts early_stored early_gone late_stored

signed_in-HasDicts : HasDicts signed_in
unfolding get
signed_in-HasDicts = record {
  clients_dict = (refl, tt);
  access_dict = (refl, tt);
  refresh_dict = (refl, tt);
}

prune_exact_example :
    (get "old#" (prune 70000 (in_memory signed_in)).1.access ≡ some old_access) ↔ (
      (get "old#" (in_memory signed_in).access ≡ some old_access)
      × Lives 70000 old_access.expires_at)
prune_exact_example =
    (prune_exact 70000 (in_memory signed_in) "old#" "claude" old_access old_refresh claude
      signed_in-HasDicts).0

abbrev on_disk : OAuthStore
on_disk = record (in_memory no_tables) {
  has_path = true;
  writable = true;
  file = document no_tables;
}

abbrev history : List StoreOp
history = register "claude" claude [] 6000 ∷ put_access "old" old_access ∷ []

on_disk-IsSound : IsSound on_disk
on_disk-IsSound = record {
  on_disk = refl;
  can_write = refl;
  dicts = record { clients_dict = tt; access_dict = tt; refresh_dict = tt };
  bounded = omega arith;
  saved = refl;
}

-- The disk fails between two calls, and takes writes again at the end.
abbrev troubled : List DiskOp
troubled =
    call (register "claude" claude [] 6000)
    ∷ takes_writes false
    ∷ call (put_access "old" old_access)
    ∷ takes_writes true
    ∷ []

on_disk-IsTracking : IsTracking on_disk
on_disk-IsTracking = record {
  disk = inr (inr refl);
  dicts = record { clients_dict = tt; access_dict = tt; refresh_dict = tt };
  bounded = omega arith;
}

happen_all-IsTracking_example : IsTracking (happen_all (λ s. s) troubled on_disk)
happen_all-IsTracking_example = happen_all-IsTracking (λ s. s) troubled on_disk on_disk-IsTracking

restart_keeps_tables_example :
    (open_store true
      (run_all (λ s. s) history on_disk).max_clients
      (run_all (λ s. s) history on_disk).client_ttl
      (run_all (λ s. s) history on_disk).file
      true
      9000).tables
    ≡ (prune 9000 (run_all (λ s. s) history on_disk)).1.tables
restart_keeps_tables_example = restart_keeps_tables (λ s. s) history on_disk 9000 on_disk-IsSound

-- A table that is full: two addresses of two.
abbrev flooded : Limiter
flooded = record quiet {
  max_tracked_ips = 2;
  ips =
      ("a", record { failures = 1; locked_until = 0; last_failure = 100 })
      ∷ ("b", record { failures = 1; locked_until = 0; last_failure = 200 })
      ∷ [];
  global_failures = 22;
  global_reset_at = 900200;
}

attempt_budget_example :
    evaluated "ip" ((1000, 1001) ∷ (2000, 2001) ∷ (3000, 3001) ∷ (4000, 4001) ∷ []) quiet ≤ 2
unfolding get
attempt_budget_example =
    attempt_budget 1000 "ip" ((1000, 1001) ∷ (2000, 2001) ∷ (3000, 3001) ∷ (4000, 4001) ∷ []) quiet
      tt (omega arith) refl (omega arith)
      (
        ((omega arith, omega arith), (omega arith, omega arith)),
        (
          ((omega arith, omega arith), (omega arith, omega arith)),
          (
            ((omega arith, omega arith), (omega arith, omega arith)),
            (((omega arith, omega arith), (omega arith, omega arith)), tt),
          ),
        ),
      )
