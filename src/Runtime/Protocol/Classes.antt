-- ===== src/Runtime/Protocol/Classes.antt =====
-- runtime/protocol.py: the messages that the gateway sends. A field holds what the line held: the
-- classes do not check the types that they declare.
use tri_onyx.Base.{none, some, String, false, if◌then◌else◌, String_eq}
use tri_onyx.Runtime.Json.{
  Json, null, boolean, number, string, array, object, nil, Members, empty, find, find_or, has_item,
  has_text,
}

-- What a parser of the file does: it returns, it raises ValueError, or it raises another exception.
pub data Parsed (A : Type 0) : Type 0 where
  parsed : A → Parsed A
  refused : Parsed A
  raised : Parsed A

pub record StartMessage : Type 0 where
  pub name : Json
  pub tools : Json
  pub model : Json
  pub system_prompt : Json
  pub max_turns : Json
  pub cwd : Json
  pub skills : Json
  pub plugins : Json

pub record PromptMessage : Type 0 where
  pub content : Json
  pub metadata : Json
  pub images : Json

-- The fields that every response of the gateway has.
pub record Reply : Type 0 where
  pub request_id : Json
  pub success : Json
  pub detail : Json

pub record BcpQuery : Type 0 where
  pub query_id : Json
  pub category : Json
  pub from_agent : Json
  pub context : Json
  pub fields : Json
  pub questions : Json
  pub directive : Json
  pub max_words : Json

pub record BcpQueryError : Type 0 where
  pub request_id : Json
  pub to_agent : Json
  pub reason : Json

pub record BcpDelivery : Type 0 where
  pub query_id : Json
  pub category : Json
  pub from_agent : Json
  pub response : Json
  pub subscription_id : Json

pub record BcpValidation : Type 0 where
  pub query_id : Json
  pub success : Json
  pub detail : Json
  pub subscription_id : Json

-- `InboundMessage`, and the one class that the union leaves out, `BCPValidationResult`.
pub data Message : Type 0 where
  start_message : StartMessage → Message
  prompt_message : PromptMessage → Message
  interrupt_message : Json → Message
  shutdown_message : Json → Message
  memory_save_message : Json → Message
  bcp_query_message : BcpQuery → Message
  bcp_query_error_message : BcpQueryError → Message
  bcp_response_delivery_message : BcpDelivery → Message
  bcp_validation_result : BcpValidation → Message
  bcp_subscriptions_active : Json → Message
  send_message_response : Reply → Message
  send_email_response : Reply → Json → Message
  github_response : Reply → Json → Message
  save_draft_response : Reply → Message
  move_email_response : Reply → Message
  create_folder_response : Reply → Message
  restart_agent_response : Reply → Message
  calendar_query_response : Reply → Json → Message
  calendar_create_response : Reply → Json → Message
  calendar_update_response : Reply → Json → Message
  calendar_delete_response : Reply → Message
  submit_item_response : Reply → Message
  submit_image_response : Reply → Message
  submit_page_response : Reply → Message
  speak_response : Reply → Message

-- WORKSPACE_ROOT
abbrev pub workspace_root : String
workspace_root = "/workspace"

-- The arguments of `cls(...)`, once `agent` is known to be a dict with a model.
unfoldable pub start_of_agent : Members → Json → Message
unfolding find_or
start_of_agent agent model = start_message record {
  name = find_or "name" (string "unnamed") agent;
  tools = find_or "tools" (array nil) agent;
  model = model;
  system_prompt = find_or "system_prompt" (string "") agent;
  max_turns = find_or "max_turns" (number 200) agent;
  cwd = find_or "cwd" (string workspace_root) agent;
  skills = find_or "skills" (array nil) agent;
  plugins = find_or "plugins" (array nil) agent;
}

-- `"model" not in agent` looks into lists and texts as well, which have no `get`.
unfoldable pub start_of : Json → Parsed Message
unfolding start_of_agent find has_item has_text
start_of (object agent) = elim (find "model" agent) [
  | none ↦ refused
  | some model ↦ parsed (start_of_agent agent model)
]
start_of (array items) = if has_item "model" items then raised else refused
start_of (string text) = if has_text "model" text then raised else refused
start_of _ = raised

unfoldable pub start_from_dict : Members → Parsed Message
unfolding start_of find_or
start_from_dict d = start_of (find_or "agent" (object empty) d)

unfoldable pub prompt_of : Json → Members → Parsed Message
unfolding find_or
prompt_of (object metadata) d = parsed (
    prompt_message record {
      content = find_or "content" (string "") d;
      metadata = object metadata;
      images = find_or "images" (find_or "images" (array nil) metadata) d;
    })
prompt_of _ d = raised

unfoldable pub prompt_from_dict : Members → Parsed Message
unfolding prompt_of find_or
prompt_from_dict d = prompt_of (find_or "metadata" (object empty) d) d

unfoldable pub interrupt_from_dict : Members → Message
unfolding find_or
interrupt_from_dict d = interrupt_message (find_or "reason" (string "") d)

unfoldable pub shutdown_from_dict : Members → Message
unfolding find_or
shutdown_from_dict d = shutdown_message (find_or "reason" (string "") d)

unfoldable pub memory_save_from_dict : Members → Message
unfolding find_or
memory_save_from_dict d = memory_save_message (find_or "reason" (string "") d)

unfoldable pub bcp_query_from_dict : Members → Message
unfolding find_or
bcp_query_from_dict d = bcp_query_message record {
  query_id = find_or "query_id" (string "") d;
  category = find_or "category" (number 0) d;
  from_agent = find_or "from_agent" (string "") d;
  context = find_or "context" null d;
  fields = find_or "fields" null d;
  questions = find_or "questions" null d;
  directive = find_or "directive" null d;
  max_words = find_or "max_words" null d;
}

unfoldable pub bcp_query_error_from_dict : Members → Message
unfolding find_or
bcp_query_error_from_dict d = bcp_query_error_message record {
  request_id = find_or "request_id" (string "") d;
  to_agent = find_or "to_agent" (string "") d;
  reason = find_or "reason" (string "") d;
}

unfoldable pub bcp_delivery_from_dict : Members → Message
unfolding find_or
bcp_delivery_from_dict d = bcp_response_delivery_message record {
  query_id = find_or "query_id" (string "") d;
  category = find_or "category" (number 0) d;
  from_agent = find_or "from_agent" (string "") d;
  response = find_or "response" (object empty) d;
  subscription_id = find_or "subscription_id" null d;
}

unfoldable pub bcp_validation_from_dict : Members → Message
unfolding find_or
bcp_validation_from_dict d = bcp_validation_result record {
  query_id = find_or "query_id" (string "") d;
  success = find_or "success" (boolean false) d;
  detail = find_or "detail" (string "") d;
  subscription_id = find_or "subscription_id" null d;
}

-- The list of `BCPSubscriptionsActive`.
unfoldable pub subscriptions_of : Members → Json
unfolding find_or
subscriptions_of d = find_or "subscriptions" (array nil) d

unfoldable pub bcp_subscriptions_from_dict : Members → Message
unfolding subscriptions_of
bcp_subscriptions_from_dict d = bcp_subscriptions_active (subscriptions_of d)

unfoldable pub reply_of : Members → Reply
unfolding find_or
reply_of d = record {
  request_id = find_or "request_id" (string "") d;
  success = find_or "success" (boolean false) d;
  detail = find_or "detail" (string "") d;
}
