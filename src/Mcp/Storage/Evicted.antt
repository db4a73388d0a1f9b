-- ===== src/Mcp/Storage/Evicted.antt =====
-- Which client `put_client` takes out of a full table.
use tri_onyx.Base.{
  ℕ, ◌≤◌, String, List, true, false, none, some, contains, ◌≡◌, ◌⊎◌, inl, inr, arith, Bool-cases,
  String_eq,
}
use tri_onyx.Dict.Laws.{min_by-contains, min_by-le}
use tri_onyx.Mcp.Storage.{
  Client, OAuthStore, client_ids_with_tokens, issued_at_of, preferred_candidates, put_client,
  get_client,
}
use tri_onyx.Mcp.Storage.Pruning.{HasDicts}
use tri_onyx.Mcp.Storage.Pruned.{issued_at_lem}
use tri_onyx.Mcp.Storage.Holders.{HoldsToken, HoldsToken-contains, contains-HoldsToken, time_of}
use tri_onyx.Mcp.Storage.Clients.{
  preferred_unprotected, unprotected_of_preferred, lost_registration,
}

issued_at_of_stored :
    (s : OAuthStore) (cid : String) (c : Client)
    → get_client cid s ≡ some c
    → issued_at_of s cid ≡ time_of c.client_id_issued_at
unfolding issued_at_of get_client
issued_at_of_stored s cid c e = rw (issued_at_of, e) (issued_at_lem c)

-- In tables without a key twice: a client that loses its registration when another registers holds no
-- token; and any other client that was registered holds one, or a parked authorization protects it, or the
-- lost client is not protected either and its registration is no younger (a stamp that is missing or no
-- number counts as 0).
pub put_client_evicts_oldest :
    (client_id : String) (client : Client) (protected : List String) (now : ℕ) (s : OAuthStore)
    (cid j : String) (c d : Client)
    → HasDicts s.tables
    → get_client cid s ≡ some c
    → get_client cid (put_client client_id client protected now s).1 ≡ none
    → get_client j s ≡ some d
    → (¬ HoldsToken cid s.tables)
      × (HoldsToken j s.tables
          ⊎ (contains j protected ≡ true)
          ⊎ ((contains cid protected ≡ false)
              × (time_of c.client_id_issued_at ≤ time_of d.client_id_issued_at)))
put_client_evicts_oldest client_id client protected now s cid j c d dicts was gone stored =
    let ev = lost_registration client_id client protected now s cid c was gone in
    (
      (λ holds. ground (arith, HoldsToken-contains cid s holds, ev.tokenless)),
      elim (Bool-cases (contains j (client_ids_with_tokens s))) [
        | inl holds ↦ inl (contains-HoldsToken j s dicts holds)
        | inr idle ↦ elim (Bool-cases (contains j protected)) [
          | inl safe ↦ inr (inl safe)
          | inr open_to ↦
              let idle_j =
                preferred_unprotected protected s j d (unfold get_client in stored) idle open_to in
              inr (
                inr (
                  unprotected_of_preferred protected s j cid idle_j.0 (
                      min_by-contains (issued_at_of s) (preferred_candidates protected s) cid
                        ev.chosen),
                  ground (
                    arith,
                    min_by-le (issued_at_of s) (preferred_candidates protected s) cid j ev.chosen
                        idle_j.1,
                    issued_at_of_stored s cid c was,
                    issued_at_of_stored s j d stored,
                  ),
                ))
        ]
      ],
    )
