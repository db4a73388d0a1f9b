-- ===== src/Connector/Slack/Messages.antt =====
-- connector/connector/adapters/slack.py, _handle_message and _handle_bound_channel_message: what is done with
-- a message, which text goes where, and what the consent of its sender has to do with it.
use Prim.Native.String.{◌++◌ as glue}
use text.Mathlib.Text.{starts_with}
use tri_onyx.Base.{
  List, [], ◌∷◌, ◌++◌, none, some, String, Bool, not, ◌==◌, if◌then◌else◌, String_eq, contains,
}
use tri_onyx.Dict.{get, put}
use tri_onyx.Connector.Channels.{RoomConfig}
use tri_onyx.Connector.Slack.Consent.{
  has_valid_consent, needs_reconsent, record_consent, revoke_consent,
}
use tri_onyx.Connector.Slack.{
  SlackTexts, SlackConfig, SlackMessage, Slack, Handling, accept_phrases, revoke_phrases,
  normalize_consent_reply, is_own_message, get_display_name, with_context, owner_context,
  bound_sender, post_dm, on_message,
}

module _ (lib : SlackTexts) (cfg : SlackConfig) where
  unfoldable pub handle_bound_channel_message : SlackMessage → RoomConfig → Slack → Handling
  unfolding get put
  handle_bound_channel_message e room s =
      let text = lib.strip (lib.drop_mention cfg.bot_user_id (lib.strip e.text)) in
      let sender = bound_sender cfg e s in
      if text == "" then ([], s) else (
        on_message (record {
          agent_name = room.agent;
          content = with_context text sender.0.1;
          channel_id = e.channel;
          user_id = e.user;
          display_name = sender.0.0;
          trust_level = "verified";
        })
            ∷ [],
        record s { display_names = sender.1 },
      )

  abbrev pub is_owner : SlackMessage → Bool
  is_owner e = e.user == cfg.owner_user_id

  -- From "Build the message content" on.
  unfoldable pub pass_on : SlackMessage → String → Slack → Handling
  pass_on e name s = (
    on_message (record {
      agent_name = cfg.default_agent;
      content =
          with_context (lib.strip e.text) (
            if is_owner e then glue (owner_context name e.user) "." else cfg.postamble name e.user);
      channel_id = e.channel;
      user_id = e.user;
      display_name = name;
      trust_level = if is_owner e then "verified" else "unverified";
    })
        ∷ [],
    s,
  )

  abbrev pub agree_text : String → String
  agree_text text = glue text "\n\nReply *agree* to consent."

  -- From "Consent gating" on.
  unfoldable pub gated : SlackMessage → String → Slack → Handling
  unfolding has_valid_consent needs_reconsent pass_on
  gated e name s =
      if is_owner e
      then pass_on e name s
      else if needs_reconsent e.user s.consent
      then (
        post_dm e.channel (
              glue "Our terms have been updated. Please review and consent again.\n\n"
                (agree_text s.consent.consent_text))
            ∷ [],
        s,
      )
      else if not (has_valid_consent e.user s.consent)
      then (post_dm e.channel (agree_text s.consent.consent_text) ∷ [], s)
      else pass_on e name s

  unfoldable pub accepted : SlackMessage → String → Slack → Handling
  unfolding record_consent
  accepted e name s =
      if is_owner e then (post_dm e.channel "You're the owner — no consent needed." ∷ [], s) else (
        post_dm e.channel "Thank you! Your consent has been recorded. How can I help you?" ∷ [],
        record s { consent = record_consent e.now e.user name s.consent },
      )

  abbrev pub revoked_text : Bool → String
  revoked_text was_active =
      if was_active
      then "Your consent has been revoked. I will no longer process your messages. If you'd like to interact again in the future, send *agree*."
      else "You don't have an active consent on file."

  unfoldable pub revoked : SlackMessage → Slack → Handling
  unfolding revoke_consent
  revoked e s =
      let result = revoke_consent e.now e.user s.consent in
      (post_dm e.channel (revoked_text result.0) ∷ [], record s { consent = result.1 })

  -- A direct message of a human: from the display name on.
  unfoldable pub handle_dm : SlackMessage → Slack → Handling
  unfolding get put accepted revoked gated
  handle_dm e s =
      let named = get_display_name e.user e.info s.display_names in
      let s' = record s { display_names = named.1 } in
      let reply = normalize_consent_reply lib (lib.strip e.text) in
      if contains reply accept_phrases
      then accepted e named.0 s'
      else if contains reply revoke_phrases
      then revoked e s'
      else if starts_with (lib.strip e.text) "/"
      then ([], s')
      else gated e named.0 s'

  unfoldable pub handle_message : SlackMessage → Slack → Handling
  unfolding get handle_bound_channel_message handle_dm
  handle_message e s =
      if is_own_message cfg e
      then ([], s)
      else if lib.strip e.text == ""
      then ([], s)
      else if contains e.channel_type ("channel" ∷ "group" ∷ [])
      then (elim (get e.channel cfg.rooms) [
        | none ↦ ([], s)
        | some room ↦ handle_bound_channel_message e room s
      ])
      else if not (e.channel_type == "im")
      then ([], s)
      else if not (e.bot_id == "")
      then ([], s)
      else handle_dm e s

  -- Messages that arrive one after the other: all that is posted and passed on.
  unfoldable pub handle_messages : List SlackMessage → Slack → Handling
  unfolding handle_message
  handle_messages [] s = ([], s)
  handle_messages (e ∷ es) s =
      let step = handle_message e s in
      let rest = handle_messages es step.1 in (step.0 ++ rest.0, rest.1)
