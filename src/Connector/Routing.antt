-- ===== src/Connector/Routing.antt =====
-- connector/connector/main.py: which rooms of which chat platforms the messages of the gateway reach.
-- What an adapter is told is a `Call`; it is sent to the adapter of that name. Quoting a text line by line
-- and the emoji of a prompt's mirror are the record `MirrorStyle`.
pub mod Rooms
pub mod Mirrored
pub mod Approved
use Prim.Native.String.{◌++◌ as glue}
use tri_onyx.Base.{
  List, [], ◌∷◌, ◌++◌, map, Option, none, some, String, Bool, true, false, ◌==◌, if◌then◌else◌,
  String_eq, Key_eq,
}
use tri_onyx.Dict.{Dict, get, put, values}
use tri_onyx.Connector.Channels.{RoomConfig}

-- The settings of an adapter.
pub record AdapterRooms : Type 0 where
  pub heartbeat_rooms : Dict String String
  pub approval_rooms : Dict String String
  pub rooms : Dict String RoomConfig

-- An entry that is missing is blank.
pub record Channel : Type 0 where
  pub platform : String
  pub room_id : String

abbrev pub Adapters : Type 0
Adapters = Dict String AdapterRooms

-- The fields that all messages to a chat have.
pub record Address : Type 0 where
  pub channel : Channel
  pub agent_name : String

pub record Article : Type 0 where
  pub title : String
  pub url : String
  pub source : String
  pub summary : String

pub record Listing : Type 0 where
  pub title : String
  pub url : String
  pub price : String
  pub location : String

-- `agent_step`: the name of the step stands for the message, which is passed on whole.
pub data Outbound : Type 0 where
  article : Address → Article → Outbound
  listing : Address → Listing → Outbound
  agent_text : Address → String → Outbound
  agent_result : Address → Outbound
  agent_typing : Address → Bool → Outbound
  agent_step : Address → String → Outbound
  agent_error : Address → String → String → Outbound
  other_outbound : Address → Outbound

pub record Approval : Type 0 where
  pub approval_id : String
  pub from_agent : String
  pub to_agent : String

pub data Call : Type 0 where
  send_article : Channel → Article → String → Call
  send_listing : Channel → Listing → String → Call
  send_text : Channel → String → String → Call
  send_typing : Channel → Bool → Call
  send_step : Channel → String → Call
  send_approval_request : Channel → Approval → Call

abbrev pub Sent : Type 0
Sent = String × Call

-- `value or default`
abbrev pub or_room : Option String → String → String
or_room none otherwise = otherwise
or_room (some room) otherwise = if room == "" then otherwise else room

-- The first room that is configured for the agent.
unfoldable pub room_of_agent : String → Dict String RoomConfig → String
room_of_agent agent [] = ""
room_of_agent agent ((rid, room) ∷ rooms) =
    if room.agent == agent then rid else room_of_agent agent rooms

unfoldable pub agent_room : AdapterRooms → String → String
unfolding get room_of_agent
agent_room cfg agent = or_room (get agent cfg.heartbeat_rooms) (room_of_agent agent cfg.rooms)

abbrev pub channel_if_any : String → String → List (String × Channel) → List (String × Channel)
channel_if_any name room rest =
    if room == "" then rest else (name, record { platform = name; room_id = room }) ∷ rest

unfoldable pub resolve_agent_room : Adapters → String → List (String × Channel)
unfolding agent_room
resolve_agent_room [] agent = []
resolve_agent_room ((name, cfg) ∷ adapters) agent =
    channel_if_any name (agent_room cfg agent) (resolve_agent_room adapters agent)

abbrev pub address_of : Outbound → Address
address_of (article a x) = a
address_of (listing a x) = a
address_of (agent_text a content) = a
address_of (agent_result a) = a
address_of (agent_typing a on) = a
address_of (agent_step a step) = a
address_of (agent_error a error message) = a
address_of (other_outbound a) = a

abbrev pub error_text : String → String → String
error_text error message = glue "Error: " (
    if error == ""
    then (if message == "" then "the agent reported an error" else message)
    else error)

-- The branches for an adapter that is known.
unfoldable pub calls_of : Outbound → List Call
calls_of (article a x) = send_article a.channel x a.agent_name ∷ []
calls_of (listing a x) = send_listing a.channel x a.agent_name ∷ []
calls_of (agent_text a content) = send_text a.channel content a.agent_name ∷ []
calls_of (agent_result a) = []
calls_of (agent_typing a on) = send_typing a.channel on ∷ []
calls_of (agent_step a step) = send_step a.channel step ∷ []
calls_of (agent_error a error message) =
    send_text a.channel (error_text error message) a.agent_name ∷ []
calls_of (other_outbound a) = []

-- Without an adapter, articles and listings go to the rooms of their agent.
unfoldable pub calls_without_adapter : Adapters → Outbound → List Sent
unfolding resolve_agent_room
calls_without_adapter adapters (article a x) =
    if a.agent_name == ""
    then []
    else map (λ r. (r.0, send_article r.1 x a.agent_name))
        (resolve_agent_room adapters a.agent_name)
calls_without_adapter adapters (listing a x) =
    if a.agent_name == ""
    then []
    else map (λ r. (r.0, send_listing r.1 x a.agent_name))
        (resolve_agent_room adapters a.agent_name)
calls_without_adapter adapters _ = []

unfoldable pub route_outbound : Adapters → Outbound → List Sent
unfolding get calls_of calls_without_adapter
route_outbound adapters msg =
    let platform = (address_of msg).channel.platform in
    elim (get platform adapters) [
      | none ↦ calls_without_adapter adapters msg
      | some cfg ↦ map (λ c. (platform, c)) (calls_of msg)
    ]

unfoldable pub approval_room : AdapterRooms → Approval → String
unfolding get room_of_agent
approval_room cfg msg = or_room (get msg.from_agent cfg.approval_rooms) (
    or_room (get msg.to_agent cfg.approval_rooms)
      (or_room (get "_default" cfg.approval_rooms) (room_of_agent msg.from_agent cfg.rooms)))

unfoldable pub route_approval_request : Adapters → Approval → List Sent
unfolding approval_room
route_approval_request [] msg = []
route_approval_request ((name, cfg) ∷ adapters) msg =
    let rest = route_approval_request adapters msg in
    let room = approval_room cfg msg in
    if room == ""
    then rest
    else (name, send_approval_request (record { platform = name; room_id = room }) msg) ∷ rest

unfoldable pub route_heartbeat : Adapters → String → String → List Sent
unfolding resolve_agent_room
route_heartbeat adapters agent content =
    map (λ r. (r.0, send_text r.1 content agent)) (resolve_agent_room adapters agent)

pub record MirrorStyle : Type 0 where
  -- `"\n".join(f"> {line}" for line in content.splitlines() or [""])`
  pub quote : String → String
  pub screen : String

abbrev pub key_of : String × Channel → String × String
key_of (name, channel) = (channel.platform, channel.room_id)

-- targets.setdefault(key, target), for each target
unfoldable pub add_targets :
    List (String × Channel)
    → Dict (String × String) (String × Channel)
    → Dict (String × String) (String × Channel)
unfolding get put
add_targets [] targets = targets
add_targets (r ∷ found) targets =
    add_targets found
      (elim (get (key_of r) targets) [ none ↦ put (key_of r) r targets | some old ↦ targets ])

unfoldable pub mirror_targets :
    Adapters → String → String → Dict (String × String) (String × Channel)
unfolding add_targets resolve_agent_room
mirror_targets adapters from_agent to_agent =
    add_targets (resolve_agent_room adapters to_agent)
      (add_targets (resolve_agent_room adapters from_agent) [])

abbrev pub mirror_text : MirrorStyle → String → String → String → String
mirror_text style from_agent to_agent content =
    glue "💬 *" (glue from_agent (glue "* → *" (glue to_agent (glue "*\n" (style.quote content)))))

unfoldable pub route_mirror : MirrorStyle → Adapters → String → String → String → List Sent
unfolding mirror_targets values
route_mirror style adapters from_agent to_agent content =
    map (λ r. (r.0, send_text r.1 (mirror_text style from_agent to_agent content) from_agent))
      (values (mirror_targets adapters from_agent to_agent))

unfoldable pub route_prompt_mirror : MirrorStyle → Adapters → String → String → String → List Sent
unfolding resolve_agent_room
route_prompt_mirror style adapters source agent content =
    let text =
      glue style.screen
        (glue " *" (glue source (glue "* → *" (glue agent (glue "*\n" (style.quote content)))))) in
    map (λ r. (r.0, send_text r.1 text agent)) (resolve_agent_room adapters agent)
