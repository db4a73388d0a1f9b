-- ===== src/Connector/Slack/Consent.antt =====
-- connector/connector/adapters/slack.py, ConsentStore: who has agreed to talk to the agent. The store is
-- saved to a file after every change; the file is not modelled. A time is its ISO text.
use tri_onyx.Base.{
  Option, none, some, String, Bool, true, false, not, ◌==◌, if◌then◌else◌, String_eq,
}
use tri_onyx.Dict.{Dict, get, put}

pub record Consent : Type 0 where
  pub display_name : String
  pub consented_at : String
  pub consent_version : String
  pub status : String
  pub revoked_at : Option String

pub record ConsentStore : Type 0 where
  pub consent_version : String
  pub consent_text : String
  pub users : Dict String Consent

abbrev pub is_active : Consent → Bool
is_active entry = entry.status == "active"

unfoldable pub has_valid_consent : String → ConsentStore → Bool
unfolding get
has_valid_consent user_id store = elim (get user_id store.users) [
  | none ↦ false
  | some entry ↦
      if not (is_active entry) then false else entry.consent_version == store.consent_version
]

unfoldable pub needs_reconsent : String → ConsentStore → Bool
unfolding get
needs_reconsent user_id store = elim (get user_id store.users) [
  | none ↦ false
  | some entry ↦
      if not (is_active entry) then false else not (entry.consent_version == store.consent_version)
]

unfoldable pub record_consent : String → String → String → ConsentStore → ConsentStore
unfolding put
record_consent now user_id name store = record store {
  users =
      put user_id
        (record {
          display_name = name;
          consented_at = now;
          consent_version = store.consent_version;
          status = "active";
          revoked_at = none;
        })
        store.users;
}

unfoldable pub revoke_consent : String → String → ConsentStore → Bool × ConsentStore
unfolding get put
revoke_consent now user_id store = elim (get user_id store.users) [
  | none ↦ (false, store)
  | some entry ↦ if not (is_active entry) then (false, store) else (
    true,
    record store {
      users = put user_id (record entry { revoked_at = some now; status = "revoked" }) store.users;
    },
  )
]
