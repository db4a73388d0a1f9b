-- ===== src/Mcp/Storage/Pruned.antt =====
-- What `prune` leaves in the store.
use tri_onyx.Base.{
  ℕ, ◌+◌, ◌≤◌, String, Bool, false, not, ◌&&◌, Option, none, some, contains, ltb, ◌≡◌, ◌↔◌, ◌⊎◌,
  inl, inr, refl, sym, ap, ◌∙◌, arith, Bool-cases, String_eq,
}
use tri_onyx.Dict.{get}
use tri_onyx.Dict.Laws.{get-sweep, unless, remove_all-IsDict}
use tri_onyx.Mcp.Storage.{
  Stamp, absent, null, malformed, number, Client, AccessRecord, RefreshRecord, OAuthStore,
  issued_at, is_past, is_abandoned, prune, prune_tokens, prune_clients, client_ids_with_tokens,
}
use tri_onyx.Mcp.Storage.Pruning.{HasDicts, Lives, is_past-Lives, tables-prune}
use tri_onyx.Mcp.Storage.Holders.{HoldsToken, HoldsToken-contains, contains-HoldsToken, time_of}

pub issued_at_lem : (c : Client) → issued_at c ≡ time_of c.client_id_issued_at
unfolding issued_at
issued_at_lem c = by_stamp c.client_id_issued_at
  where
    by_stamp : (s : Stamp) → (elim s [ number n ↦ n | _ ↦ 0 ]) ≡ time_of s
    by_stamp absent = refl
    by_stamp null = refl
    by_stamp malformed = refl
    by_stamp (number n) = refl

abbrev passes : {V : Type 0} → (String → V → Bool) → String → Option V → Bool
passes p key none = false
passes p key (some v) = p key v

kept_iff :
    {V : Type 0} (p : String → V → Bool) (key : String) (o : Option V) (v : V)
    → (unless p key o ≡ some v) ↔ ((o ≡ some v) × (p key v ≡ false))
kept_iff p key none v = ((λ h. absurd (ground arith)), (λ h. h.0))
kept_iff p key (some w) v = elim (Bool-cases (p key w)) [
  | inl e ↦ rw e (
    (λ h. absurd (ground arith)),
    (λ (same, h). absurd (ground (arith, e, h, ap (passes p key) same))),
  )
  | inr e ↦ rw e ((λ same. (same, sym (ap (passes p key) same) ∙ e)), (λ h. h.0))
]

through : {P Q R S : Type 0} → P ↔ (Q × R) → R ↔ S → P ↔ (Q × S)
through f g = ((λ p. let (q, r) = f.0 p in (q, g.0 r)), (λ (q, s). f.1 (q, g.1 s)))

tokens-HasDicts :
    (now : ℕ) (s : OAuthStore) → HasDicts s.tables → HasDicts (prune_tokens now s).1.tables
unfolding prune_tokens
tokens-HasDicts now s h = record {
  clients_dict = h.clients_dict;
  access_dict = remove_all-IsDict _ s.access h.access_dict;
  refresh_dict = remove_all-IsDict _ s.refresh h.refresh_dict;
}

still_kept :
    (now : ℕ) (s : OAuthStore) (cid : String) (c : Client)
    → HoldsToken cid s.tables ⊎ (now ≤ time_of c.client_id_issued_at + s.client_ttl)
    → is_abandoned now s cid c ≡ false
unfolding is_abandoned
still_kept now s cid c (inl holds) = ground (arith, HoldsToken-contains cid s holds)
still_kept now s cid c (inr young) = ground (arith, young, issued_at_lem c)

-- A client that is not abandoned holds a token, or its registration is within its lifetime.
is_abandoned_iff :
    (now : ℕ) (s : OAuthStore) (cid : String) (c : Client)
    → HasDicts s.tables
    → (is_abandoned now s cid c ≡ false)
      ↔ (HoldsToken cid s.tables ⊎ (now ≤ time_of c.client_id_issued_at + s.client_ttl))
unfolding is_abandoned
is_abandoned_iff now s cid c h = (
  (λ kept.
      let kept' : (not (contains cid (client_ids_with_tokens s))
            && ltb (issued_at c + s.client_ttl) now)
          ≡ false =
        kept in
      elim (Bool-cases (contains cid (client_ids_with_tokens s))) [
        | inl e ↦ inl (contains-HoldsToken cid s h e)
        | inr e ↦ inr (ground (arith, kept', e, issued_at_lem c))
      ]),
  still_kept now s cid c,
)

-- In tables without a key twice: a token is in the store after `prune` just if it was and its expiry has
-- not passed; and a registration just if it was, and its client holds a token that is left, or the
-- registration is within its lifetime (a stamp that is missing or no number counts as 0).
pub prune_exact :
    (now : ℕ) (s : OAuthStore) (digest cid : String) (a : AccessRecord) (r : RefreshRecord)
    (c : Client)
    → HasDicts s.tables
    → ((get digest (prune now s).1.access ≡ some a)
        ↔ ((get digest s.access ≡ some a) × Lives now a.expires_at))
      × ((get digest (prune now s).1.refresh ≡ some r)
          ↔ ((get digest s.refresh ≡ some r) × Lives now r.expires_at))
      × ((get cid (prune now s).1.clients ≡ some c) ↔ (
          (get cid s.clients ≡ some c)
          × (HoldsToken cid (prune now s).1.tables
              ⊎ (now ≤ time_of c.client_id_issued_at + s.client_ttl))))
prune_exact now s digest cid a r c h =
    let s' = (prune_tokens now s).1 in
    let is_old = λ (t : Option ℕ). is_past t now in
    rw (tables-prune now s) (
      unfold prune_clients prune_tokens in
      (
        rw (get-sweep (λ _ (x : AccessRecord). is_old x.expires_at) digest s.access h.access_dict) (
            through
              (kept_iff (λ _ (x : AccessRecord). is_old x.expires_at) digest (get digest s.access)
                a)
              (is_past-Lives a.expires_at now)),
        rw
            (get-sweep (λ _ (x : RefreshRecord). is_old x.expires_at) digest s.refresh
              h.refresh_dict)
            (through
              (kept_iff (λ _ (x : RefreshRecord). is_old x.expires_at) digest (get digest s.refresh)
                r)
              (is_past-Lives r.expires_at now)),
        rw (get-sweep (is_abandoned now s') cid s.clients h.clients_dict) (
            through (kept_iff (is_abandoned now s') cid (get cid s.clients) c)
              (is_abandoned_iff now s' cid c (tokens-HasDicts now s h))),
      ))
