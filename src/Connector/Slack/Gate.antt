-- ===== src/Connector/Slack/Gate.antt =====
-- connector/connector/adapters/slack.py: what consent has to do with the messages that reach an agent.
use tri_onyx.Base.{
  List, [], ◌∷◌, ◌++◌, some, String, Bool, true, false, not, ◌&&◌, ◌==◌, if◌then◌else◌, String_eq,
  contains, All, ◌≡◌, refl, ap, ◌∙◌, ◌⊎◌, inl, inr, arith, Bool-cases, Option-cases,
}
use text.Mathlib.Text.{starts_with}
use tri_onyx.Dict.{get}
use tri_onyx.Connector.Channels.{RoomConfig}
use tri_onyx.Connector.Slack.Consent.{has_valid_consent, needs_reconsent}
use tri_onyx.Connector.Slack.{
  SlackTexts, SlackConfig, SlackMessage, Slack, SlackCall, post_dm, on_message, Handling, FromSlack,
  accept_phrases, revoke_phrases, normalize_consent_reply, get_display_name, is_own_message,
}
use tri_onyx.Connector.Slack.Recorded.{record_consent-others, revoke_consent-nobody}
use tri_onyx.Connector.Slack.Messages.{
  handle_message, handle_messages, handle_dm, gated, accepted, revoked, pass_on,
  handle_bound_channel_message, is_owner,
}

-- A message to a channel that an agent is bound to.
abbrev pub IsBound : SlackConfig → FromSlack → Type 0
IsBound cfg m =
    (room : RoomConfig) × (get m.channel_id cfg.rooms ≡ some room) × (m.agent_name ≡ room.agent)

-- No message of the user but to the agent of a bound channel.
abbrev pub IsHeldBack : SlackConfig → String → SlackCall → Type 0
IsHeldBack cfg user (post_dm channel text) = Unit
IsHeldBack cfg user (on_message m) = ((m.user_id == user) ≡ false) ⊎ IsBound cfg m

-- The user agrees in a direct message.
abbrev pub agrees : SlackTexts → String → SlackMessage → Bool
agrees lib user e =
    e.user == user
    && (e.channel_type == "im"
        && contains (normalize_consent_reply lib (lib.strip e.text)) accept_phrases)

abbrev pub IsHolding : SlackConfig → String → Handling → Type 0
IsHolding cfg user r = All (IsHeldBack cfg user) r.0 × (has_valid_consent user r.1.consent ≡ false)

if-cases :
    {A : Type 0} (P : A → Type 0) (b : Bool) {x y : A}
    → (b ≡ true → P x)
    → (b ≡ false → P y)
    → P (if b then x else y)
if-cases P true f g = f refl
if-cases P false f g = g refl

All-append : {A : Type 0} (P : A → Type 0) (xs ys : List A) → All P xs → All P ys → All P (xs ++ ys)
All-append P [] ys h k = k
All-append P (x ∷ xs) ys (p, h) k = (p, All-append P xs ys h k)

module _ (lib : SlackTexts) (cfg : SlackConfig) (user : String) where
  handle_bound_channel_message-IsHolding :
      (e : SlackMessage) (room : RoomConfig) (s : Slack)
      → get e.channel cfg.rooms ≡ some room
      → has_valid_consent user s.consent ≡ false
      → IsHolding cfg user (handle_bound_channel_message lib cfg e room s)
  unfolding handle_bound_channel_message
  handle_bound_channel_message-IsHolding e room s r h =
      if-cases (IsHolding cfg user)
        (lib.strip (lib.drop_mention cfg.bot_user_id (lib.strip e.text)) == "") (λ _. (tt, h))
        (λ _. ((inr (room, r, refl), tt), h))

  pass_on-IsHolding :
      (e : SlackMessage) (name : String) (s : Slack)
      → (e.user == user) ≡ false
      → has_valid_consent user s.consent ≡ false
      → IsHolding cfg user (pass_on lib cfg e name s)
  unfolding pass_on
  pass_on-IsHolding e name s o h = ((inl o, tt), h)

  gated-IsHolding :
      (e : SlackMessage) (name : String) (s : Slack)
      → (user == cfg.owner_user_id) ≡ false
      → has_valid_consent user s.consent ≡ false
      → IsHolding cfg user (gated lib cfg e name s)
  unfolding gated
  gated-IsHolding e name s o h = elim (Bool-cases (e.user == user)) [
    | inr other ↦
        let passed = pass_on-IsHolding e name s other h in
        if-cases (IsHolding cfg user) (is_owner lib cfg e) (λ _. passed)
          (λ _.
            if-cases (IsHolding cfg user) (needs_reconsent e.user s.consent) (λ _. ((tt, tt), h))
              (λ _.
                if-cases (IsHolding cfg user) (not (has_valid_consent e.user s.consent))
                  (λ _. ((tt, tt), h)) (λ _. passed)))
    | inl same ↦
        let p : e.user ≡ user = (String_eq.equals_iff e.user user).0 same in
        let stranger : is_owner lib cfg e ≡ false = ap (λ u. u == cfg.owner_user_id) p ∙ o in
        let none_given : has_valid_consent e.user s.consent ≡ false =
          ap (λ u. has_valid_consent u s.consent) p ∙ h in
        if-cases (IsHolding cfg user) (is_owner lib cfg e) (λ owner. cc)
          (λ _.
            if-cases (IsHolding cfg user) (needs_reconsent e.user s.consent) (λ _. ((tt, tt), h))
              (λ _.
                if-cases (IsHolding cfg user) (not (has_valid_consent e.user s.consent))
                  (λ _. ((tt, tt), h)) (λ given. ground arith)))
  ]

  accepted-IsHolding :
      (e : SlackMessage) (name : String) (s : Slack)
      → (e.user == user) ≡ false
      → has_valid_consent user s.consent ≡ false
      → IsHolding cfg user (accepted lib cfg e name s)
  unfolding accepted
  accepted-IsHolding e name s other h =
      if-cases (IsHolding cfg user) (is_owner lib cfg e) (λ _. ((tt, tt), h))
        (λ _. ((tt, tt), record_consent-others e.now e.user name user s.consent other ∙ h))

  revoked-IsHolding :
      (e : SlackMessage) (s : Slack)
      → has_valid_consent user s.consent ≡ false
      → IsHolding cfg user (revoked lib cfg e s)
  unfolding revoked
  revoked-IsHolding e s h = ((tt, tt), revoke_consent-nobody e.now e.user user s.consent h)

  -- The user is not the owner, and does not agree here.
  handle_dm-IsHolding :
      (e : SlackMessage) (s : Slack)
      → (user == cfg.owner_user_id) ≡ false
      → agrees lib user e ≡ false
      → (e.channel_type == "im") ≡ true
      → has_valid_consent user s.consent ≡ false
      → IsHolding cfg user (handle_dm lib cfg e s)
  unfolding handle_dm
  handle_dm-IsHolding e s o a im h =
      let named = get_display_name e.user e.info s.display_names in
      let s' : Slack = record s { display_names = named.1 } in
      if-cases (IsHolding cfg user)
        (contains (normalize_consent_reply lib (lib.strip e.text)) accept_phrases)
        (λ agree.
          accepted-IsHolding e named.0 s'
            (elim (Bool-cases (e.user == user)) [
              | inl same ↦ ground (arith, same, im, agree, a)
              | inr other ↦ other
            ])
            h)
        (λ _.
          if-cases (IsHolding cfg user)
            (contains (normalize_consent_reply lib (lib.strip e.text)) revoke_phrases)
            (λ _. revoked-IsHolding e s' h)
            (λ _.
              if-cases (IsHolding cfg user) (starts_with (lib.strip e.text) "/") (λ _. (tt, h))
                (λ _. gated-IsHolding e named.0 s' o h)))

  handle_message-IsHolding :
      (e : SlackMessage) (s : Slack)
      → (user == cfg.owner_user_id) ≡ false
      → agrees lib user e ≡ false
      → has_valid_consent user s.consent ≡ false
      → IsHolding cfg user (handle_message lib cfg e s)
  unfolding handle_message
  handle_message-IsHolding e s o a h =
      let P = IsHolding cfg user in
      if-cases P (is_own_message cfg e) (λ _. (tt, h))
        (λ _.
          if-cases P (lib.strip e.text == "") (λ _. (tt, h))
            (λ _.
              if-cases P (contains e.channel_type ("channel" ∷ "group" ∷ []))
                (λ _. elim (Option-cases (get e.channel cfg.rooms)) [
                  | inl r ↦ rw r (tt, h)
                  | inr (room, r) ↦ rw r (handle_bound_channel_message-IsHolding e room s r h)
                ])
                (λ _. elim (Bool-cases (e.channel_type == "im")) [
                  | inr other ↦ rw other (tt, h)
                  | inl im ↦ rw im (
                      if-cases P (not (e.bot_id == "")) (λ _. (tt, h))
                        (λ _. handle_dm-IsHolding e s o a im h))
                ])))

  -- If a user is not the owner, has no valid consent at the start and sends no direct message that accepts, then
  -- whatever messages arrive, from this user and from others, in any order: none of the user's is passed on, but
  -- those in a channel that an agent is bound to, to that agent; and the user has no valid consent at the end.
  pub handle_messages_need_consent :
      (es : List SlackMessage) (s : Slack)
      → (user == cfg.owner_user_id) ≡ false
      → All (λ e. agrees lib user e ≡ false) es
      → has_valid_consent user s.consent ≡ false
      → All (IsHeldBack cfg user) (handle_messages lib cfg es s).0
        × (has_valid_consent user (handle_messages lib cfg es s).1.consent ≡ false)
  unfolding handle_messages
  handle_messages_need_consent [] s o a h = (tt, h)
  handle_messages_need_consent (e ∷ es) s o (a, later) h =
      let step = handle_message-IsHolding e s o a h in
      let rest = handle_messages_need_consent es (handle_message lib cfg e s).1 o later step.1 in
      (All-append (IsHeldBack cfg user) _ _ step.0 rest.0, rest.1)
