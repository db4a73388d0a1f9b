-- ===== src/Mcp/Storage/Keeping.antt =====
-- What every operation of the store keeps: distinct keys, a bounded client table, and what each save
-- establishes of the file.
use mathlib.Core.Path.{subst}
use tri_onyx.Base.{
  String_eq, ℕ, ◌≤◌, String, Bool, List, [], ◌∷◌, if◌then◌else◌, leb, length, is_nonempty, ◌≡◌,
  refl, sym, inl, inr, Bool-cases, arith, Option-cases, ◌+◌,
}
use tri_onyx.Dict.{Dict, get, remove_all, select, IsDict}
use tri_onyx.Dict.Laws.{put-IsDict, remove-IsDict, remove_all-IsDict, length-remove_all}
use tri_onyx.Mcp.Storage.{
  hash_token, Client, AccessRecord, RefreshRecord, Tables, OAuthStore, save, stamped, store_client,
  put_client, put_access_token, put_refresh_token, pop_refresh_token, delete_access_token_hash,
  delete_refresh_token_hash, delete_refresh_tokens_for_access, prune, minted,
}
use tri_onyx.Mcp.Storage.Clients.{put_client_cases, put_client_bounded}
use tri_onyx.Mcp.Storage.Pruning.{HasDicts}

put_client-HasDicts :
    (cid : String) (c : Client) (protected : List String) (now : ℕ) (s : OAuthStore)
    → HasDicts s.tables
    → HasDicts (put_client cid c protected now s).1.tables
unfolding store_client
put_client-HasDicts cid c protected now s h = elim (put_client_cases cid c protected now s) [
  | inl (full, nobody, e) ↦ rw e h
  | inr (inl (oldest, ev, full, e)) ↦ rw e (record {
    clients_dict = put-IsDict cid (stamped now c) _ (remove-IsDict oldest s.clients h.clients_dict);
    access_dict = h.access_dict;
    refresh_dict = h.refresh_dict;
  })
  | inr (inr (room, e)) ↦ rw e (record {
    clients_dict = put-IsDict cid (stamped now c) s.clients h.clients_dict;
    access_dict = h.access_dict;
    refresh_dict = h.refresh_dict;
  })
]

-- `keeps`: a save of any tables keeps what is said of the disk.
module _ (OnDisk : OAuthStore → Type 0)
    (keeps : (t : Tables) (s : OAuthStore)
      → OnDisk s
      → OnDisk (save (record s { tables = t }))) where
  pub record IsKept (s : OAuthStore) : Type 0 where
    pub disk : OnDisk s
    pub dicts : HasDicts s.tables
    pub bounded : length s.clients ≤ s.max_clients

  save-IsKept :
      (t : Tables) (s : OAuthStore)
      → IsKept s
      → HasDicts t
      → length t.clients ≤ s.max_clients
      → IsKept (save (record s { tables = t }))
  unfolding save
  save-IsKept t s h d b = record { disk = keeps t s h.disk; dicts = d; bounded = b }

  pub put_client-IsKept :
      (cid : String) (c : Client) (protected : List String) (now : ℕ) (s : OAuthStore)
      → IsKept s
      → IsKept (put_client cid c protected now s).1
  unfolding store_client
  put_client-IsKept cid c protected now s h =
      let Within = λ (r : Bool × OAuthStore). length r.1.clients ≤ s.max_clients in
      let dicts = put_client-HasDicts cid c protected now s h.dicts in
      let bounded = put_client_bounded cid c protected now s h.bounded in
      elim (put_client_cases cid c protected now s) [
        | inl (full, nobody, e) ↦ rw e h
        | inr (inl (oldest, ev, full, e)) ↦
            rw e (save-IsKept _ _ h (rw e at dicts) (subst Within e bounded))
        | inr (inr (room, e)) ↦ rw e (save-IsKept _ _ h (rw e at dicts) (subst Within e bounded))
      ]

  -- Removing tokens, and replacing them, keeps what the invariant says of the tables.
  tokens-IsKept :
      (s : OAuthStore) (access : Dict String AccessRecord) (refresh : Dict String RefreshRecord)
      → IsKept s
      → IsDict access
      → IsDict refresh
      → IsKept (save (record s { tables = record s.tables { access = access; refresh = refresh } }))
  tokens-IsKept s access refresh h da dr =
      save-IsKept _ s h
        (record { clients_dict = h.dicts.clients_dict; access_dict = da; refresh_dict = dr })
        h.bounded

  module _ (sha256_hex : String → String) (s : OAuthStore) (h : IsKept s) where
    pub pop_refresh_token-IsKept :
        (token : String) → IsKept (pop_refresh_token sha256_hex token s).1
    unfolding pop_refresh_token
    pop_refresh_token-IsKept token =
        elim (Option-cases (get (hash_token sha256_hex token) s.refresh)) [
          | inl gone ↦ rw (gone, pop_refresh_token) h
          | inr (r, found) ↦
              rw (found, pop_refresh_token)
                (tokens-IsKept s s.access _ h h.dicts.access_dict
                  (remove-IsDict _ s.refresh h.dicts.refresh_dict))
        ]

    pub delete_access_token_hash-IsKept :
        (digest : String) → IsKept (delete_access_token_hash digest s)
    unfolding delete_access_token_hash
    delete_access_token_hash-IsKept digest = elim (Option-cases (get digest s.access)) [
      | inl gone ↦ rw (gone, delete_access_token_hash) h
      | inr (r, found) ↦
          rw (found, delete_access_token_hash)
            (tokens-IsKept s _ s.refresh h (remove-IsDict digest s.access h.dicts.access_dict)
              h.dicts.refresh_dict)
    ]

    pub delete_refresh_token_hash-IsKept :
        (digest : String) → IsKept (delete_refresh_token_hash digest s)
    unfolding delete_refresh_token_hash
    delete_refresh_token_hash-IsKept digest = elim (Option-cases (get digest s.refresh)) [
      | inl gone ↦ rw (gone, delete_refresh_token_hash) h
      | inr (r, found) ↦
          rw (found, delete_refresh_token_hash)
            (tokens-IsKept s s.access _ h h.dicts.access_dict
              (remove-IsDict digest s.refresh h.dicts.refresh_dict))
    ]

    pub put_access_token-IsKept :
        (token : String) (r : AccessRecord) → IsKept (put_access_token sha256_hex token r s).1
    unfolding put_access_token
    put_access_token-IsKept token r =
        tokens-IsKept s _ s.refresh h (put-IsDict _ r s.access h.dicts.access_dict)
          h.dicts.refresh_dict

    pub put_refresh_token-IsKept :
        (token : String) (r : RefreshRecord) → IsKept (put_refresh_token sha256_hex token r s).1
    unfolding put_refresh_token
    put_refresh_token-IsKept token r =
        tokens-IsKept s s.access _ h h.dicts.access_dict
          (put-IsDict _ r s.refresh h.dicts.refresh_dict)

    pub delete_refresh_tokens_for_access-IsKept :
        (digest : String) → IsKept (delete_refresh_tokens_for_access digest s).1
    unfolding delete_refresh_tokens_for_access
    delete_refresh_tokens_for_access-IsKept digest = some_minted (select (minted digest) s.refresh)
      where
        some_minted :
            (ds : List String)
            → IsKept (
                if is_nonempty ds
                then save
                    (record s { tables = record s.tables { refresh = remove_all ds s.refresh } })
                else s)
        some_minted [] = h
        some_minted (d ∷ ds) =
            tokens-IsKept s s.access _ h h.dicts.access_dict
              (remove_all-IsDict (d ∷ ds) s.refresh h.dicts.refresh_dict)

  abbrev swept : List String → List String → List String → OAuthStore → OAuthStore
  swept da dr dc s = record s {
    tables = record {
      clients = remove_all dc s.clients;
      access = remove_all da s.access;
      refresh = remove_all dr s.refresh;
    };
  }

  length_zero : (xs : List String) → length xs ≡ 0 → xs ≡ []
  length_zero [] h = refl
  length_zero (x ∷ xs) h = absurd (omega arith)

  swept_nothing :
      (da dr dc : List String) (s : OAuthStore) → da ≡ [] → dr ≡ [] → dc ≡ [] → swept da dr dc s ≡ s
  unfolding remove_all
  swept_nothing da dr dc s ha hr hc = rw (ha, hr, hc)

  swept-IsKept :
      (da dr dc : List String) (s : OAuthStore)
      → IsKept s
      → IsKept (
          if leb 1 (length da + length dr + length dc)
          then save (swept da dr dc s)
          else swept da dr dc s)
  swept-IsKept da dr dc s h = elim (Bool-cases (leb 1 (length da + length dr + length dc))) [
    | inl some_old ↦ rw some_old (
        save-IsKept _ s h
          (record {
            clients_dict = remove_all-IsDict dc s.clients h.dicts.clients_dict;
            access_dict = remove_all-IsDict da s.access h.dicts.access_dict;
            refresh_dict = remove_all-IsDict dr s.refresh h.dicts.refresh_dict;
          })
          (omega (arith, length-remove_all dc s.clients, h.bounded)))
    | inr none_old ↦ rw none_old (
        subst IsKept
          (sym (
            swept_nothing da dr dc s (length_zero da (ground arith)) (length_zero dr (ground arith))
              (length_zero dc (ground arith))))
          h)
  ]

  pub prune-IsKept : (now : ℕ) (s : OAuthStore) → IsKept s → IsKept (prune now s).1
  unfolding prune
  prune-IsKept now s = swept-IsKept _ _ _ s
