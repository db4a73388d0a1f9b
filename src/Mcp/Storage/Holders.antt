-- ===== src/Mcp/Storage/Holders.antt =====
-- Who holds a token, told by the tables and not by the list of client ids that the store makes.
use tri_onyx.Base.{
  ℕ, String, true, false, [], ◌∷◌, map, Option, none, some, ◌==◌, contains, contains-append, ◌≡◌,
  ◌⊎◌, inl, inr, refl, ap, arith, Bool-cases, String_eq, equals_refl,
}
use tri_onyx.Dict.{Dict, get, values, IsDict}
use tri_onyx.Mcp.Storage.{
  Stamp, number, AccessRecord, RefreshRecord, Tables, OAuthStore, client_ids_with_tokens,
}
use tri_onyx.Mcp.Storage.Pruning.{HasDicts}

module _ {V : Type 0} (owner : V → String) where
  -- A record under some key that names the client.
  abbrev pub Names : String → Dict String V → Type 0
  Names cid d = (digest : String) × (r : V) × (get digest d ≡ some r) × (owner r ≡ cid)

  abbrev owner_or : String → Option V → String
  owner_or other none = other
  owner_or other (some r) = owner r

  Names-contains :
      (cid digest : String) (r : V) (d : Dict String V)
      → get digest d ≡ some r
      → owner r ≡ cid
      → contains cid (map owner (values d)) ≡ true
  unfolding get values
  Names-contains cid digest r [] found own = absurd (ground arith)
  Names-contains cid digest r ((k, v) ∷ d) found own = elim (Bool-cases (k == digest)) [
    | inl same ↦
        ground
          (arith, own, ap (owner_or cid) (rw same at found), String_eq.equals_iff (owner v) cid)
    | inr other ↦ ground (arith, Names-contains cid digest r d (rw other at found) own)
  ]

  contains-Names :
      (cid : String) (d : Dict String V)
      → IsDict d
      → contains cid (map owner (values d)) ≡ true
      → Names cid d
  unfolding get values
  contains-Names cid [] h c = absurd (ground arith)
  contains-Names cid ((k, v) ∷ d) (new, h) c = elim (Bool-cases (owner v == cid)) [
    | inl same ↦ (k, v, rw (equals_refl k) refl, (String_eq.equals_iff (owner v) cid).0 same)
    | inr other ↦
        let (digest, r, found, own) = contains-Names cid d h (ground (arith, c, other)) in
        let apart : (k == digest) ≡ false = elim (Bool-cases (k == digest)) [
          | inr e ↦ e
          | inl e ↦
              absurd (
                ground (arith, new, found, ap (λ i. get i d) ((String_eq.equals_iff k digest).0 e)))
        ] in
        (digest, r, rw apart found, own)
  ]

-- The client holds an access token or a refresh token.
abbrev pub HoldsToken : String → Tables → Type 0
HoldsToken cid t =
    Names (λ (r : AccessRecord). r.client_id) cid t.access
    ⊎ Names (λ (r : RefreshRecord). r.client_id) cid t.refresh

pub HoldsToken-contains :
    (cid : String) (s : OAuthStore)
    → HoldsToken cid s.tables
    → contains cid (client_ids_with_tokens s) ≡ true
unfolding client_ids_with_tokens
HoldsToken-contains cid s (inl (digest, r, found, own)) = ground (
  arith,
  contains-append cid (map (λ (r : AccessRecord). r.client_id) (values s.access))
      (map (λ (r : RefreshRecord). r.client_id) (values s.refresh)),
  Names-contains (λ (r : AccessRecord). r.client_id) cid digest r s.access found own,
)
HoldsToken-contains cid s (inr (digest, r, found, own)) = ground (
  arith,
  contains-append cid (map (λ (r : AccessRecord). r.client_id) (values s.access))
      (map (λ (r : RefreshRecord). r.client_id) (values s.refresh)),
  Names-contains (λ (r : RefreshRecord). r.client_id) cid digest r s.refresh found own,
)

pub contains-HoldsToken :
    (cid : String) (s : OAuthStore)
    → HasDicts s.tables
    → contains cid (client_ids_with_tokens s) ≡ true
    → HoldsToken cid s.tables
unfolding client_ids_with_tokens
contains-HoldsToken cid s h c =
    let access = map (λ (r : AccessRecord). r.client_id) (values s.access) in
    let refresh = map (λ (r : RefreshRecord). r.client_id) (values s.refresh) in
    elim (Bool-cases (contains cid access)) [
      | inl e ↦
          inl (contains-Names (λ (r : AccessRecord). r.client_id) cid s.access h.access_dict e)
      | inr e ↦ inr (
          contains-Names (λ (r : RefreshRecord). r.client_id) cid s.refresh h.refresh_dict
            (ground (arith, contains-append cid access refresh, c, e)))
    ]

-- The number under `client_id_issued_at`; anything else counts as 0.
abbrev pub time_of : Stamp → ℕ
time_of (number n) = n
time_of _ = 0
