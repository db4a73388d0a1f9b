-- ===== src/Connector/Slack.antt =====
-- connector/connector/adapters/slack.py: the messages of a Slack workspace, and which of them reach an
-- agent. An entry that an event does not have is blank. What Python does to texts is the record
-- `SlackTexts`; the answer of the client to `users_info` comes with the event.
pub mod Consent
pub mod Messages
pub mod Recorded
pub mod Gate
use Prim.Native.String.{◌++◌ as glue}
use text.Mathlib.Text.{starts_with}
use tri_onyx.Base.{
  List, [], ◌∷◌, ◌++◌, Option, none, some, String, Bool, true, false, not, ◌&&◌, ◌||◌, ◌==◌,
  if◌then◌else◌, String_eq, contains,
}
use tri_onyx.Dict.{Dict, get, put}
use tri_onyx.Connector.Channels.{RoomConfig}
use tri_onyx.Connector.Slack.Consent.{
  ConsentStore, has_valid_consent, needs_reconsent, record_consent, revoke_consent,
}

pub record SlackTexts : Type 0 where
  pub strip : String → String
  pub lower : String → String
  -- text.strip(chars)
  pub strip_chars : String → String → String
  -- re.sub(rf"^<@{re.escape(bot)}>\s*", "", text)
  pub drop_mention : String → String → String

-- `postamble`: the template's `format`, of the display name and the user id, where it does not raise.
pub record SlackConfig : Type 0 where
  pub owner_user_id : String
  pub bot_user_id : String
  pub bot_id : String
  pub default_agent : String
  pub postamble : String → String → String
  pub rooms : Dict String RoomConfig

-- What `users_info` says of a user.
pub record Profile : Type 0 where
  pub display_name : String
  pub real_name : String
  pub name : String

-- A message with the time and the answer of `users_info`, which is `none` where the call fails.
pub record SlackMessage : Type 0 where
  pub user : String
  pub bot_id : String
  pub text : String
  pub channel : String
  pub channel_type : String
  pub app_profile_name : String
  pub username : String
  pub now : String
  pub info : Option Profile

pub record Slack : Type 0 where
  pub consent : ConsentStore
  pub display_names : Dict String String

-- InboundMessage, with the entries of its channel and the level of its trust.
pub record FromSlack : Type 0 where
  pub agent_name : String
  pub content : String
  pub channel_id : String
  pub user_id : String
  pub display_name : String
  pub trust_level : String

pub data SlackCall : Type 0 where
  post_dm : String → String → SlackCall
  on_message : FromSlack → SlackCall

abbrev pub Handling : Type 0
Handling = List SlackCall × Slack

abbrev pub accept_phrases : List String
accept_phrases = "i agree" ∷ "agree" ∷ []

abbrev pub revoke_phrases : List String
revoke_phrases = "revoke consent" ∷ "disagree" ∷ []

abbrev pub normalize_consent_reply : SlackTexts → String → String
normalize_consent_reply lib text = lib.strip_chars "*_~`\"'.,!?: \t" (lib.lower (lib.strip text))

-- a or b
abbrev pub or_text : String → String → String
or_text a b = if a == "" then b else a

abbrev pub is_own_message : SlackConfig → SlackMessage → Bool
is_own_message cfg e =
    (not (e.user == "") && e.user == cfg.bot_user_id)
    || (not (e.bot_id == "") && e.bot_id == cfg.bot_id)

abbrev pub app_name : SlackMessage → String
app_name e = or_text e.app_profile_name (or_text e.username "unknown app")

abbrev pub get_display_name :
    String → Option Profile → Dict String String → String × Dict String String
unfolding get put
get_display_name user_id info names = elim (get user_id names) [
  | some name ↦ (name, names)
  | none ↦ elim info [
    | none ↦ (user_id, names)
    | some p ↦
        let name = or_text p.display_name (or_text p.real_name (or_text p.name user_id)) in
        (name, put user_id name names)
  ]
]

-- f"{text}\n\n---\n{user_context}"
abbrev pub with_context : String → String → String
with_context text user_context = glue text (glue "\n\n---\n" user_context)

abbrev pub owner_context : String → String → String
owner_context name user_id =
    glue "SYSTEM: This message is from the system owner ("
      (glue name (glue ", ID: " (glue user_id ")")))

abbrev pub member_context : SlackConfig → String → String → String
member_context cfg name user_id =
    if user_id == cfg.owner_user_id
    then glue (owner_context name user_id) " in your Slack channel."
    else glue "SYSTEM: This message is from team member "
        (glue name (glue " (ID: " (glue user_id ") in your Slack channel.")))

abbrev pub app_context : String → String → String
app_context name bot_id = glue "SYSTEM: This message was posted by the Slack app " (
    glue name
      (glue " (bot ID: " (glue bot_id ") in your channel — there is no human sender to reply to.")))

-- The name of the sender, what the agent is told of it, and the cache.
abbrev pub bound_sender :
    SlackConfig → SlackMessage → Slack → (String × String) × Dict String String
unfolding get put
bound_sender cfg e s =
    let named = get_display_name e.user e.info s.display_names in
    if e.user == "" && not (e.bot_id == "")
    then ((app_name e, app_context (app_name e) e.bot_id), s.display_names)
    else ((named.0, member_context cfg named.0 e.user), named.1)
