-- ===== src/Mcp/Storage/Clients.antt =====
-- The bound on registrations, and which client an eviction takes.
use mathlib.Core.Path.{subst}
use tri_onyx.Base.{
  ℕ, ◌≤◌, ◌<◌, String, Bool, true, false, not, ◌&&◌, List, [], ◌∷◌, none, some, length, keep,
  contains, contains-keep, ◌≡◌, ◌≢◌, sym, refl, ap, ◌⊎◌, inl, inr, arith, Bool-cases, Option-cases,
  String_eq,
}
use tri_onyx.Dict.{get, remove, keys, min_by}
use tri_onyx.Dict.Laws.{
  get-put, get-put_self, get-remove, length-put, length-put_found, length-remove_found,
  contains-keys, get-keys, min_by-contains,
}
use tri_onyx.Mcp.Storage.{
  Client, OAuthStore, client_ids_with_tokens, issued_at_of, or_else, eviction_candidates,
  preferred_candidates, evict_one_client, stamped, store_client, is_full_for, put_client,
  get_client,
}

abbrev HoldsTokens : String → OAuthStore → Type 0
HoldsTokens cid s = contains cid (client_ids_with_tokens s) ≡ true

contains-or_else :
    (j : String) (xs ys : List String)
    → ((k : String) → contains k xs ≡ true → contains k ys ≡ true)
    → contains j (or_else xs ys) ≡ true
    → contains j ys ≡ true
contains-or_else j [] ys h c = c
contains-or_else j (x ∷ xs) ys h c = h j c

or_else_nil : (xs ys : List String) → or_else xs ys ≡ [] → ys ≡ []
or_else_nil [] ys h = h
or_else_nil (x ∷ xs) ys h = cc

or_else_cons : (j : String) (xs ys : List String) → contains j xs ≡ true → or_else xs ys ≡ xs
or_else_cons j [] ys h = cc
or_else_cons j (x ∷ xs) ys h = refl

contains-or_else_left :
    (j : String) (xs ys : List String) → contains j xs ≡ true → contains j (or_else xs ys) ≡ true
contains-or_else_left j [] ys h = cc
contains-or_else_left j (x ∷ xs) ys h = h

min_by-none : (f : String → ℕ) (ks : List String) → min_by f ks ≡ none → ks ≡ []
unfolding min_by
min_by-none f [] h = refl
min_by-none f (k ∷ ks) h = cc

module _ (protected : List String) (s : OAuthStore) where
  candidate_iff :
      (cid : String)
      → contains cid (eviction_candidates s)
        ≡ (contains cid (keys s.clients) && not (contains cid (client_ids_with_tokens s)))
  unfolding eviction_candidates
  candidate_iff cid = contains-keep _ cid (keys s.clients)

  preferred-candidate :
      (cid : String)
      → contains cid (preferred_candidates protected s) ≡ true
      → contains cid (eviction_candidates s) ≡ true
  unfolding preferred_candidates
  preferred-candidate cid = contains-or_else cid _ (eviction_candidates s) λ k h.
      ground (arith, contains-keep (λ c. not (contains c protected)) k (eviction_candidates s))

  -- The candidates that no parked authorization protects.
  abbrev unprotected : List String
  unprotected = keep (λ cid. not (contains cid protected)) (eviction_candidates s)

  pub preferred_unprotected :
      (j : String) (d : Client)
      → get j s.clients ≡ some d
      → contains j (client_ids_with_tokens s) ≡ false
      → contains j protected ≡ false
      → (contains j unprotected ≡ true) × (contains j (preferred_candidates protected s) ≡ true)
  unfolding preferred_candidates
  preferred_unprotected j d stored idle open_to =
      let listed : contains j unprotected ≡ true = ground (
        arith,
        contains-keep (λ cid. not (contains cid protected)) j (eviction_candidates s),
        candidate_iff j,
        contains-keys j s.clients d stored,
      ) in
      (listed, contains-or_else_left j unprotected (eviction_candidates s) listed)

  pub unprotected_of_preferred :
      (j cid : String)
      → contains j unprotected ≡ true
      → contains cid (preferred_candidates protected s) ≡ true
      → contains cid protected ≡ false
  unfolding preferred_candidates
  unprotected_of_preferred j cid listed h = ground (
    arith,
    contains-keep (λ c. not (contains c protected)) cid (eviction_candidates s),
    or_else_cons j unprotected (eviction_candidates s) listed,
    ap (λ xs. contains cid xs) (or_else_cons j unprotected (eviction_candidates s) listed),
  )

  -- What is evicted is a stored client that holds no token.
  evicted_candidate :
      (oldest : String)
      → min_by (issued_at_of s) (preferred_candidates protected s) ≡ some oldest
      → (contains oldest (keys s.clients) ≡ true)
        × (contains oldest (client_ids_with_tokens s) ≡ false)
  evicted_candidate oldest found = ground (
    arith,
    candidate_iff oldest,
    preferred-candidate oldest
        (min_by-contains (issued_at_of s) (preferred_candidates protected s) oldest found),
  )

  abbrev pub without_client : String → OAuthStore
  without_client cid = record s { tables = record s.tables { clients = remove cid s.clients } }

  -- The client that an eviction took.
  pub record Evicted (oldest : String) : Type 0 where
    pub client : Client
    pub stored : get oldest s.clients ≡ some client
    pub tokenless : contains oldest (client_ids_with_tokens s) ≡ false
    pub chosen : min_by (issued_at_of s) (preferred_candidates protected s) ≡ some oldest
    result : evict_one_client protected s ≡ (true, without_client oldest)

  Evicted-found :
      (oldest : String)
      → min_by (issued_at_of s) (preferred_candidates protected s) ≡ some oldest
      → Evicted oldest
  unfolding evict_one_client
  Evicted-found oldest found =
      let (listed, free) = evicted_candidate oldest found in
      let (client, stored) = get-keys oldest s.clients listed in
      record {
        client = client;
        stored = stored;
        tokenless = free;
        chosen = found;
        result = rw (found, evict_one_client);
      }

  preferred_none : preferred_candidates protected s ≡ [] → eviction_candidates s ≡ []
  unfolding preferred_candidates
  preferred_none = or_else_nil _ (eviction_candidates s)

  evict_cases :
      ((evict_one_client protected s ≡ (false, s)) × (eviction_candidates s ≡ []))
      ⊎ ((oldest : String) × Evicted oldest)
  unfolding evict_one_client
  evict_cases = elim (Option-cases (min_by (issued_at_of s) (preferred_candidates protected s))) [
    | inl nobody ↦
        inl (rw (nobody, evict_one_client), preferred_none (min_by-none (issued_at_of s) _ nobody))
    | inr (oldest, found) ↦ inr (oldest, Evicted-found oldest found)
  ]

module _ (client_id : String) (client : Client) (protected : List String) (now : ℕ)
    (s : OAuthStore) where
  abbrev after : OAuthStore
  after = (put_client client_id client protected now s).1

  pub put_client_cases :
      ((is_full_for client_id s ≡ true)
        × (eviction_candidates s ≡ [])
        × (put_client client_id client protected now s ≡ (false, s)))
      ⊎ ((oldest : String) × Evicted protected s oldest
          × (is_full_for client_id s ≡ true)
          × (put_client client_id client protected now s
              ≡ (true, store_client client_id client now (without_client protected s oldest))))
      ⊎ ((is_full_for client_id s ≡ false)
          × (put_client client_id client protected now s
              ≡ (true, store_client client_id client now s)))
  unfolding put_client
  put_client_cases = elim (Bool-cases (is_full_for client_id s)) [
    | inl full ↦ elim (evict_cases protected s) [
      | inl (kept, nobody) ↦ inl (full, nobody, rw (full, put_client, kept))
      | inr (oldest, ev) ↦ inr (inl (oldest, ev, full, rw (full, put_client, ev.result)))
    ]
    | inr room ↦ inr (inr (room, rw (room, put_client)))
  ]

  not_full :
      is_full_for client_id s ≡ false
      → ((c : Client) × (get client_id s.clients ≡ some c)) ⊎ (length s.clients < s.max_clients)
  unfolding is_full_for
  not_full h = elim (Bool-cases (contains client_id (keys s.clients))) [
    | inl known ↦ inl (get-keys client_id s.clients known)
    | inr new ↦ inr (ground (arith, new))
  ]

  abbrev Within : Bool × OAuthStore → Type 0
  Within r = length r.1.clients ≤ s.max_clients

  -- A registration never takes the table over its capacity.
  pub put_client_bounded : length s.clients ≤ s.max_clients → length after.clients ≤ s.max_clients
  unfolding store_client
  put_client_bounded h = elim put_client_cases [
    | inl (full, nobody, e) ↦ subst Within (sym e) h
    | inr (inl (oldest, ev, full, e)) ↦ subst Within (sym e) (
        omega (
          arith,
          length-put client_id (stamped now client) (remove oldest s.clients),
          length-remove_found oldest ev.client s.clients ev.stored,
        ))
    | inr (inr (room, e)) ↦ subst Within (sym e) (elim (not_full room) [
      | inl (c, known) ↦
          omega (arith, length-put_found client_id (stamped now client) c s.clients known)
      | inr few ↦ omega (arith, length-put client_id (stamped now client) s.clients)
    ])
  ]

  -- The client that is registered can be read back, stamped with the time if it had none.
  pub get_client-put_client :
      (put_client client_id client protected now s).0 ≡ true
      → get_client client_id after ≡ some (stamped now client)
  unfolding store_client get_client
  get_client-put_client h = elim put_client_cases [
    | inl (full, nobody, e) ↦ cc
    | inr (inl (oldest, ev, full, e)) ↦
        rw (e, after) (get-put_self client_id (stamped now client) (remove oldest s.clients))
    | inr (inr (room, e)) ↦ rw (e, after) (get-put_self client_id (stamped now client) s.clients)
  ]

  -- Every other client that holds a token keeps its registration.
  pub get_client-put_client_live :
      (cid : String) → cid ≢ client_id → HoldsTokens cid s → get_client cid after ≡ get_client cid s
  unfolding store_client get_client
  get_client-put_client_live cid ne live = elim put_client_cases [
    | inl (full, nobody, e) ↦ rw (e, after)
    | inr (inl (oldest, ev, full, e)) ↦
        rw (e, after)
          (ground (
            arith,
            get-put client_id cid (stamped now client) (remove oldest s.clients),
            get-remove oldest cid s.clients,
            String_eq.equals_iff client_id cid,
            String_eq.equals_iff oldest cid,
            ev.tokenless,
            ap (λ c. contains c (client_ids_with_tokens s)),
          ))
    | inr (inr (room, e)) ↦
        rw (e, after)
          (ground (
            arith,
            get-put client_id cid (stamped now client) s.clients,
            String_eq.equals_iff client_id cid,
          ))
  ]

  pub lost_registration :
      (cid : String) (c : Client)
      → get_client cid s ≡ some c
      → get_client cid after ≡ none
      → Evicted protected s cid
  unfolding store_client get_client
  lost_registration cid c was gone = elim put_client_cases [
    | inl (full, nobody, e) ↦ cc (ap (λ (r : Bool × OAuthStore). get cid r.1.clients) e)
    | inr (inl (oldest, ev, full, e)) ↦
        let same : oldest ≡ cid = ground (
          arith,
          ap (λ (r : Bool × OAuthStore). get cid r.1.clients) e,
          get-put client_id cid (stamped now client) (remove oldest s.clients),
          get-remove oldest cid s.clients,
          String_eq.equals_iff oldest cid,
        ) in
        subst (Evicted protected s) same ev
    | inr (inr (room, e)) ↦ absurd (
        ground (
          arith,
          ap (λ (r : Bool × OAuthStore). get cid r.1.clients) e,
          get-put client_id cid (stamped now client) s.clients,
        ))
  ]
