-- ===== src/Runtime/Dispatcher/Sorting.antt =====
-- runtime/agent_runner.py, InboundDispatcher: the lines of stdin sorted by what they are for, told
-- without the reader's queues.
use tri_onyx.Base.{
  List, [], ◌∷◌, ◌++◌, Option, none, some, String, Bool, true, false, ◌||◌, inl, inr, ◌==◌,
  if◌then◌else◌, String_eq,
}
use tri_onyx.Runtime.Json.{Json, object, Members}
use tri_onyx.Runtime.Protocol.Classes.{
  Message, Parsed, parsed, refused, raised, bcp_validation_from_dict,
}
use tri_onyx.Runtime.Protocol.Table.{
  Kind, start, prompt, interrupt, shutdown, memory_save, bcp_query, bcp_query_error, bcp_delivery,
  bcp_validation, bcp_subscriptions, send_message, send_email, github, save_draft, move_email,
  create_folder, restart_agent, calendar_query, calendar_create, calendar_update, calendar_delete,
  submit_item, submit_image, submit_page, speak, TypeField, known, unknown, unhashable, type_of,
  inbound_parser,
}
use tri_onyx.Runtime.Dispatcher.Queues.{
  Queue, Queue_eq, send_message_responses, bcp_validation_results, send_email_responses,
  github_responses, save_draft_responses, move_email_responses, create_folder_responses,
  restart_agent_responses, calendar_query_responses, calendar_create_responses,
  calendar_update_responses, calendar_delete_responses, submit_item_responses,
  submit_image_responses, submit_page_responses, speak_responses,
}
use tri_onyx.Runtime.Dispatcher.Reading.{LineLibrary}

-- The message types that the main loop handles.
abbrev pub is_control : Kind → Bool
is_control start = true
is_control prompt = true
is_control interrupt = false
is_control shutdown = true
is_control memory_save = true
is_control bcp_query = true
is_control bcp_query_error = true
is_control bcp_delivery = true
is_control bcp_validation = false
is_control bcp_subscriptions = false
is_control send_message = false
is_control send_email = false
is_control github = false
is_control save_draft = false
is_control move_email = false
is_control create_folder = false
is_control restart_agent = false
is_control calendar_query = false
is_control calendar_create = false
is_control calendar_update = false
is_control calendar_delete = false
is_control submit_item = false
is_control submit_image = false
is_control submit_page = false
is_control speak = false

abbrev pub is_interrupt : Kind → Bool
is_interrupt start = false
is_interrupt prompt = false
is_interrupt interrupt = true
is_interrupt shutdown = false
is_interrupt memory_save = false
is_interrupt bcp_query = false
is_interrupt bcp_query_error = false
is_interrupt bcp_delivery = false
is_interrupt bcp_validation = false
is_interrupt bcp_subscriptions = false
is_interrupt send_message = false
is_interrupt send_email = false
is_interrupt github = false
is_interrupt save_draft = false
is_interrupt move_email = false
is_interrupt create_folder = false
is_interrupt restart_agent = false
is_interrupt calendar_query = false
is_interrupt calendar_create = false
is_interrupt calendar_update = false
is_interrupt calendar_delete = false
is_interrupt submit_item = false
is_interrupt submit_image = false
is_interrupt submit_page = false
is_interrupt speak = false

-- The queue of the tool that waits for a response of the type.
abbrev pub queue_of : Kind → Option Queue
queue_of start = none
queue_of prompt = none
queue_of interrupt = none
queue_of shutdown = none
queue_of memory_save = none
queue_of bcp_query = none
queue_of bcp_query_error = none
queue_of bcp_delivery = none
queue_of bcp_validation = some bcp_validation_results
queue_of bcp_subscriptions = none
queue_of send_message = some send_message_responses
queue_of send_email = some send_email_responses
queue_of github = some github_responses
queue_of save_draft = some save_draft_responses
queue_of move_email = some move_email_responses
queue_of create_folder = some create_folder_responses
queue_of restart_agent = some restart_agent_responses
queue_of calendar_query = some calendar_query_responses
queue_of calendar_create = some calendar_create_responses
queue_of calendar_update = some calendar_update_responses
queue_of calendar_delete = some calendar_delete_responses
queue_of submit_item = some submit_item_responses
queue_of submit_image = some submit_image_responses
queue_of submit_page = some submit_page_responses
queue_of speak = some speak_responses

-- What the protocol's own parser makes of the message; the validation result has no entry there.
abbrev pub parse_or : Message → Parsed Message → Message
parse_or m (parsed n) = n
parse_or m refused = m
parse_or m raised = m

abbrev pub as_message : Kind → Members → Message
as_message k msg = elim (inbound_parser k) [
  | none ↦ bcp_validation_from_dict msg
  | some parser ↦ parse_or (bcp_validation_from_dict msg) (parser msg)
]

-- What a line is to the reader.
pub data Line : Type 0 where
  skipped : Line
  routed : Kind → Members → Line
  fatal : Line

abbrev pub classify_type : TypeField → Members → Line
classify_type (known k) msg = routed k msg
classify_type unknown msg = skipped
classify_type unhashable msg = fatal

abbrev pub classify_value : Json → Line
classify_value (object msg) = classify_type (type_of msg) msg
classify_value _ = fatal

abbrev pub classify : LineLibrary → String → Line
classify lib line =
    if lib.strip line == "" then skipped else (elim (lib.json_loads (lib.strip line)) [
      | inl problem ↦ skipped
      | inr value ↦ classify_value value
    ])

abbrev pub IsReadable : Line → Type 0
IsReadable skipped = Unit
IsReadable (routed k msg) = Unit
IsReadable fatal = ⊥

abbrev pub control_part : Line → List (Option Members)
control_part (routed k msg) = if is_control k then some msg ∷ [] else []
control_part _ = []

abbrev pub reply_part : Queue → Line → List Message
reply_part q (routed k msg) = elim (queue_of k) [
  | none ↦ []
  | some p ↦ if q == p then as_message k msg ∷ [] else []
]
reply_part q _ = []

abbrev pub interrupt_part : Line → Bool
interrupt_part (routed k msg) = is_interrupt k
interrupt_part _ = false

-- The parts of all lines, in their order.
module _ {ℓ} {A : Type ℓ} where
  abbrev pub gather : (Line → List A) → LineLibrary → List String → List A
  gather f lib [] = []
  gather f lib (line ∷ lines) = f (classify lib line) ++ gather f lib lines

abbrev pub any_interrupt : LineLibrary → List String → Bool
any_interrupt lib [] = false
any_interrupt lib (line ∷ lines) = interrupt_part (classify lib line) || any_interrupt lib lines
