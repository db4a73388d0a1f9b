-- ===== src/Connector/Slack/Recorded.antt =====
-- connector/connector/adapters/slack.py, ConsentStore: whose consent is valid after a change.
use tri_onyx.Base.{
  some, String, false, ◌==◌, String_eq, ◌≡◌, refl, ap, ◌∙◌, ◌⊎◌, inl, inr, Bool-cases, Option-cases,
}
use tri_onyx.Dict.{get, put}
use tri_onyx.Dict.Laws.{get-put}
use tri_onyx.Connector.Slack.Consent.{
  Consent, ConsentStore, has_valid_consent, record_consent, revoke_consent,
}

pub record_consent-others :
    (now user name v : String) (store : ConsentStore)
    → (user == v) ≡ false
    → has_valid_consent v (record_consent now user name store) ≡ has_valid_consent v store
unfolding has_valid_consent record_consent
record_consent-others now user name v store h =
    rw (has_valid_consent, record_consent, get-put user v _ store.users, h) refl

-- What revoking leaves: the store as it was, or the user's entry with another status.
revoke_consent-cases :
    (now user : String) (store : ConsentStore)
    → ((revoke_consent now user store).1 ≡ store)
      ⊎ ((entry : Consent) × ((revoke_consent now user store).1 ≡ record store {
        users = put user (record entry { revoked_at = some now; status = "revoked" }) store.users;
      }))
unfolding revoke_consent
revoke_consent-cases now user store = elim (Option-cases (get user store.users)) [
  | inl e ↦ inl (rw (revoke_consent, e) refl)
  | inr (entry, e) ↦ elim (Bool-cases (entry.status == "active")) [
    | inl i ↦ inr (entry, rw (revoke_consent, e, i) refl)
    | inr i ↦ inl (rw (revoke_consent, e, i) refl)
  ]
]

put-revoked :
    (now user v : String) (entry : Consent) (store : ConsentStore)
    → has_valid_consent v store ≡ false
    → has_valid_consent v (record store {
      users = put user (record entry { revoked_at = some now; status = "revoked" }) store.users;
    })
      ≡ false
unfolding has_valid_consent
put-revoked now user v entry store h = elim (Bool-cases (user == v)) [
  | inl same ↦ rw (has_valid_consent, get-put user v _ store.users, same) refl
  | inr other ↦ rw (has_valid_consent, get-put user v _ store.users, other) h
]

pub revoke_consent-nobody :
    (now user v : String) (store : ConsentStore)
    → has_valid_consent v store ≡ false
    → has_valid_consent v (revoke_consent now user store).1 ≡ false
revoke_consent-nobody now user v store h = elim (revoke_consent-cases now user store) [
  | inl e ↦ ap (has_valid_consent v) e ∙ h
  | inr (entry, e) ↦ ap (has_valid_consent v) e ∙ put-revoked now user v entry store h
]
