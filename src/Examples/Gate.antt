-- ===== src/Examples/Gate.antt =====
-- The theorems on the Slack adapter, with two users of which one agrees.
use tri_onyx.Base.{List, [], ◌∷◌, none, String, All, false, ◌≡◌, refl}
use tri_onyx.Connector.Slack.Consent.{has_valid_consent}
use tri_onyx.Connector.Slack.{SlackTexts, SlackConfig, SlackMessage, Slack}
use tri_onyx.Connector.Slack.Messages.{handle_messages}
use tri_onyx.Connector.Slack.Gate.{IsHeldBack, handle_messages_need_consent}

abbrev texts : SlackTexts
texts = record {
  strip = λ s. s;
  lower = λ s. s;
  strip_chars = λ chars s. s;
  drop_mention = λ bot s. s;
}

abbrev workspace : SlackConfig
workspace = record {
  owner_user_id = "U0";
  bot_user_id = "UBOT";
  bot_id = "B0";
  default_agent = "concierge";
  postamble = λ name user. name;
  rooms = ("C1", record { agent = "main"; mode = "all" }) ∷ [];
}

abbrev written : String → String → String → String → SlackMessage
written user channel_type channel text = record {
  user = user;
  bot_id = "";
  text = text;
  channel = channel;
  channel_type = channel_type;
  app_profile_name = "";
  username = "";
  now = "2026-03-15";
  info = none;
}

abbrev nobody_agreed : Slack
nobody_agreed = record {
  consent = record { consent_version = "2026-03-14"; consent_text = "Terms."; users = [] };
  display_names = [];
}

-- The second user agrees and writes; the first one writes, in a direct message and in a bound channel.
abbrev arrivals : List SlackMessage
arrivals =
    written "U1" "im" "D1" "hello"
    ∷ written "U2" "im" "D2" "agree"
    ∷ written "U2" "im" "D2" "hello"
    ∷ written "U1" "im" "D1" "revoke consent"
    ∷ written "U1" "channel" "C1" "hello"
    ∷ []

handle_messages_need_consent_example :
    All (IsHeldBack workspace "U1") (handle_messages texts workspace arrivals nobody_agreed).0
    × (has_valid_consent "U1" (handle_messages texts workspace arrivals nobody_agreed).1.consent
        ≡ false)
unfolding has_valid_consent
handle_messages_need_consent_example =
    handle_messages_need_consent texts workspace "U1" arrivals nobody_agreed refl
      (refl, (refl, (refl, (refl, (refl, tt))))) refl
