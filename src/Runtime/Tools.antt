-- ===== src/Runtime/Tools.antt =====
-- runtime/agent_runner.py: the handlers of the tools that ask the gateway. `str` and `json.dumps` are
-- the record `ShowLibrary`; the request id is the one that `uuid4` made.
pub mod Handlers
pub mod Files
pub mod Guarded
pub mod Delivered
use Prim.Native.String.{◌++◌ as glue}
use tri_onyx.Base.{
  ℕ, List, [], ◌∷◌, Option, none, some, String, Bool, true, false, ◌==◌, if◌then◌else◌, String_eq,
}
use tri_onyx.Runtime.Json.{
  Json, null, boolean, number, string, array, object, Items, Members, empty, member, truthy,
}
use tri_onyx.Runtime.Protocol.Classes.{
  Message, Reply, bcp_validation_result, send_email_response, github_response,
  calendar_query_response, calendar_create_response, calendar_update_response,
}
use tri_onyx.Runtime.Requests.{
  emit_send_message_request, emit_bcp_query_request, emit_send_email_request, emit_github_request,
  emit_save_draft_request, emit_move_email_request, emit_create_folder_request,
  emit_calendar_query_request, emit_calendar_create_request, emit_calendar_update_request,
  emit_calendar_delete_request, emit_restart_agent_request, emit_bcp_response, emit_bcp_publish,
  emit_submit_item_request,
}
use tri_onyx.Runtime.Dispatcher.Queues.{
  Dispatcher, Queue, Queue_eq, bcp_validation_results, send_message_responses, send_email_responses,
  github_responses, save_draft_responses, move_email_responses, create_folder_responses,
  restart_agent_responses, calendar_query_responses, calendar_create_responses,
  calendar_update_responses, calendar_delete_responses, submit_item_responses,
}
use tri_onyx.Runtime.Waiting.{
  Waited, answered, timed_out, reply_in, wait_for_matching_response, wait_for_validation,
  wait_for_subscription_validation,
}

pub record ShowLibrary : Type 0 where
  -- a value in an f-string
  pub show : Json → String
  pub show_number : ℕ → String
  -- `json.dumps(value, indent=2)`
  pub dumps : Json → String

-- What a handler does: the lines that it writes to stdout, the text that the model is told, and the
-- dispatcher with the queue that the wait leaves.
pub record Handled : Type 0 where
  pub written : List Members
  pub told : String
  pub dispatcher : Dispatcher

infixr 50 ◌+s◌
abbrev pub ◌+s◌ : String → String → String
s +s t = glue s t

abbrev pub left_in : Waited → List Message
left_in (answered m queue unread) = queue
left_in (timed_out queue) = queue

abbrev pub set_queue : Queue → List Message → Dispatcher → Dispatcher
set_queue q ms d = record d { responses = λ p. if p == q then ms else d.responses p }

abbrev pub success_of : Message → Json
success_of (bcp_validation_result v) = v.success
success_of m = elim (reply_in m) [ none ↦ null | some r ↦ r.success ]

abbrev pub detail_of : Message → Json
detail_of (bcp_validation_result v) = v.detail
detail_of m = elim (reply_in m) [ none ↦ null | some r ↦ r.detail ]

abbrev pub message_id_of : Message → Json
message_id_of (send_email_response r message_id) = message_id
message_id_of _ = null

abbrev pub output_of : Message → Json
output_of (github_response r output) = output
output_of _ = null

abbrev pub events_of : Message → Json
events_of (calendar_query_response r events) = events
events_of _ = null

abbrev pub event_of : Message → Json
event_of (calendar_create_response r event) = event
event_of (calendar_update_response r event) = event
event_of _ = null

-- A dict entry that is there only for a text that is not empty.
abbrev pub optional : String → String → Members → Members
optional key value rest = if value == "" then rest else member key (string value) rest

module _ (lib : ShowLibrary) where
  -- The end of each handler, on what the wait gave.
  unfoldable pub conclude : String → (Message → String) → String → Waited → String
  conclude timeout success failure (timed_out queue) = timeout
  conclude timeout success failure (answered m queue unread) =
      if truthy (success_of m) then success m else failure +s lib.show (detail_of m)

  -- A handler that writes its request and waits in the queue of its tool; `rounds` is what the reader
  -- puts there in the meantime, until the timeout.
  unfoldable pub ask_gateway :
      String
      → (Message → String)
      → Members
      → String
      → Queue
      → List (List Message)
      → Dispatcher
      → Handled
  unfolding conclude
  ask_gateway timeout success request request_id queue rounds d =
      let waited = wait_for_matching_response request_id rounds (d.responses queue) in
      record {
        written = request ∷ [];
        told = conclude timeout success "Error: " waited;
        dispatcher = set_queue queue (left_in waited) d;
      }
