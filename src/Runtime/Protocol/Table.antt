-- ===== src/Runtime/Protocol/Table.antt =====
-- runtime/protocol.py: the type field of a message, and the table of the parsers.
use tri_onyx.Base.{List, [], ◌∷◌, Option, none, some, String, ◌==◌, if◌then◌else◌, String_eq}
use tri_onyx.Runtime.Json.{Json, string, array, object, Members, find}
use tri_onyx.Runtime.Protocol.Classes.{
  Parsed, parsed, refused, raised, Message, start_from_dict, prompt_from_dict, interrupt_from_dict,
  shutdown_from_dict, memory_save_from_dict, bcp_query_from_dict, bcp_query_error_from_dict,
  bcp_delivery_from_dict, bcp_subscriptions_from_dict,
}
use tri_onyx.Runtime.Protocol.Replies.{
  send_message_from_dict, send_email_from_dict, github_from_dict, save_draft_from_dict,
  move_email_from_dict, create_folder_from_dict, restart_agent_from_dict, calendar_query_from_dict,
  calendar_create_from_dict, calendar_update_from_dict, calendar_delete_from_dict,
  submit_item_from_dict, submit_image_from_dict, submit_page_from_dict, speak_from_dict,
}

-- The message types that the runtime knows, in the order of their first test.
pub data Kind : Type 0 where
  start prompt interrupt shutdown memory_save bcp_query bcp_query_error bcp_delivery bcp_validation
        bcp_subscriptions send_message send_email github save_draft move_email create_folder
        restart_agent calendar_query calendar_create calendar_update calendar_delete submit_item
        submit_image submit_page speak :
      Kind

abbrev pub type_name : Kind → String
type_name start = "start"
type_name prompt = "prompt"
type_name interrupt = "interrupt"
type_name shutdown = "shutdown"
type_name memory_save = "memory_save"
type_name bcp_query = "bcp_query"
type_name bcp_query_error = "bcp_query_error"
type_name bcp_delivery = "bcp_response_delivery"
type_name bcp_validation = "bcp_validation_result"
type_name bcp_subscriptions = "bcp_subscriptions_active"
type_name send_message = "send_message_response"
type_name send_email = "send_email_response"
type_name github = "github_response"
type_name save_draft = "save_draft_response"
type_name move_email = "move_email_response"
type_name create_folder = "create_folder_response"
type_name restart_agent = "restart_agent_response"
type_name calendar_query = "calendar_query_response"
type_name calendar_create = "calendar_create_response"
type_name calendar_update = "calendar_update_response"
type_name calendar_delete = "calendar_delete_response"
type_name submit_item = "submit_item_response"
type_name submit_image = "submit_image_response"
type_name submit_page = "submit_page_response"
type_name speak = "speak_response"

abbrev pub kinds : List Kind
kinds =
    start ∷ prompt ∷ interrupt ∷ shutdown ∷ memory_save ∷ bcp_query ∷ bcp_query_error ∷ bcp_delivery
    ∷ bcp_validation ∷ bcp_subscriptions ∷ send_message ∷ send_email ∷ github ∷ save_draft
    ∷ move_email ∷ create_folder ∷ restart_agent ∷ calendar_query ∷ calendar_create
    ∷ calendar_update ∷ calendar_delete ∷ submit_item ∷ submit_image ∷ submit_page ∷ speak ∷ []

unfoldable pub find_kind : List Kind → String → Option Kind
find_kind [] s = none
find_kind (k ∷ ks) s = if type_name k == s then some k else find_kind ks s

-- The message type that a text names.
unfoldable pub kind_of : String → Option Kind
unfolding find_kind
kind_of = find_kind kinds

-- What `data.get("type")` may be: a known type, a value that is no key of the table, or a list or
-- dict, which cannot be looked up in a dict.
pub data TypeField : Type 0 where
  known : Kind → TypeField
  unknown : TypeField
  unhashable : TypeField

unfoldable pub type_of_text : String → TypeField
unfolding kind_of
type_of_text s = elim (kind_of s) [ none ↦ unknown | some k ↦ known k ]

unfoldable pub type_of_value : Json → TypeField
unfolding type_of_text
type_of_value (string s) = type_of_text s
type_of_value (array items) = unhashable
type_of_value (object members) = unhashable
type_of_value _ = unknown

unfoldable pub type_of : Members → TypeField
unfolding find type_of_value
type_of d = elim (find "type" d) [ none ↦ unknown | some v ↦ type_of_value v ]

-- `_INBOUND_PARSERS.get`
unfoldable pub inbound_parser : Kind → Option (Members → Parsed Message)
inbound_parser start = some start_from_dict
inbound_parser prompt = some prompt_from_dict
inbound_parser bcp_validation = none
inbound_parser interrupt = some (λ d. parsed (interrupt_from_dict d))
inbound_parser shutdown = some (λ d. parsed (shutdown_from_dict d))
inbound_parser memory_save = some (λ d. parsed (memory_save_from_dict d))
inbound_parser bcp_query = some (λ d. parsed (bcp_query_from_dict d))
inbound_parser bcp_query_error = some (λ d. parsed (bcp_query_error_from_dict d))
inbound_parser bcp_delivery = some (λ d. parsed (bcp_delivery_from_dict d))
inbound_parser bcp_subscriptions = some (λ d. parsed (bcp_subscriptions_from_dict d))
inbound_parser send_message = some (λ d. parsed (send_message_from_dict d))
inbound_parser send_email = some (λ d. parsed (send_email_from_dict d))
inbound_parser github = some (λ d. parsed (github_from_dict d))
inbound_parser save_draft = some (λ d. parsed (save_draft_from_dict d))
inbound_parser move_email = some (λ d. parsed (move_email_from_dict d))
inbound_parser create_folder = some (λ d. parsed (create_folder_from_dict d))
inbound_parser restart_agent = some (λ d. parsed (restart_agent_from_dict d))
inbound_parser calendar_query = some (λ d. parsed (calendar_query_from_dict d))
inbound_parser calendar_create = some (λ d. parsed (calendar_create_from_dict d))
inbound_parser calendar_update = some (λ d. parsed (calendar_update_from_dict d))
inbound_parser calendar_delete = some (λ d. parsed (calendar_delete_from_dict d))
inbound_parser submit_item = some (λ d. parsed (submit_item_from_dict d))
inbound_parser submit_image = some (λ d. parsed (submit_image_from_dict d))
inbound_parser submit_page = some (λ d. parsed (submit_page_from_dict d))
inbound_parser speak = some (λ d. parsed (speak_from_dict d))

unfoldable pub parse_kind : Kind → Members → Parsed Message
unfolding inbound_parser
parse_kind k d = elim (inbound_parser k) [ none ↦ refused | some parser ↦ parser d ]

-- `refused` where it raises ValueError
unfoldable pub parse_inbound : Members → Parsed Message
unfolding type_of parse_kind
parse_inbound d = elim (type_of d) [
  | known k ↦ parse_kind k d
  | unknown ↦ refused
  | unhashable ↦ raised
]
