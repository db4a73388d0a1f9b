-- ===== src/Runtime/Loop.antt =====
-- runtime/agent_runner.py, main: the loop over the messages of the gateway, one at a time. The texts of
-- the prompts are not made here: a prompt is what its text is made of. The options of the SDK's client
-- and the reflection run are left out, and `connect` returns.
pub mod Answered
pub mod Started
pub mod Stopping
use tri_onyx.Base.{
  List, [], ◌∷◌, ◌++◌, Option, none, some, String, Bool, true, false, not, ◌&&◌, ◌||◌,
  if◌then◌else◌,
}
use tri_onyx.Runtime.Json.{Json, null, boolean, number, string, array, object, Members, truthy}
use tri_onyx.Runtime.Protocol.Classes.{
  Message, StartMessage, PromptMessage, BcpQuery, BcpQueryError, BcpDelivery, Parsed, parsed,
  refused, raised, start_message, prompt_message, interrupt_message, shutdown_message,
  memory_save_message, bcp_query_message, bcp_query_error_message, bcp_response_delivery_message,
  bcp_validation_result, bcp_subscriptions_active, send_message_response, send_email_response,
  github_response, save_draft_response, move_email_response, create_folder_response,
  restart_agent_response, calendar_query_response, calendar_create_response,
  calendar_update_response, calendar_delete_response, submit_item_response, submit_image_response,
  submit_page_response, speak_response,
}
use tri_onyx.Runtime.Protocol.Table.{parse_inbound}
use tri_onyx.Runtime.Requests.{emit_ready, emit_error}
use tri_onyx.Runtime.Dispatcher.Queues.{Dispatcher, new_dispatcher}
use tri_onyx.Runtime.Session.{TextLibrary, Stream, run_prompt, run_prompt_interruptible}

-- What the model is asked.
pub data Prompt : Type 0 where
  user_prompt : Json → Json → Prompt
  query_prompt : BcpQuery → Prompt
  query_error_prompt : BcpQueryError → Prompt
  delivery_prompt : BcpDelivery → Prompt
  memory_prompt : Json → Prompt

-- The mode of the process, and what the SDK's client makes of the last of its prompts, and of the
-- follow-up to it.
pub record World : Type 0 where
  pub texts : TextLibrary
  pub reflection : Bool
  pub sdk : List Prompt → Stream
  pub follow_up : List Prompt → Stream
  -- the text of the ValueError of `parse_inbound`
  pub refusal : Members → String

pub data Status : Type 0 where
  running stopped crashed : Status

-- `client`: the variable `client` is not None.
pub record Runner : Type 0 where
  pub config : Option StartMessage
  pub client : Bool
  pub written : List Members
  pub prompts : List Prompt
  pub dispatcher : Dispatcher
  pub status : Status

unfoldable pub new_runner : Runner
unfolding new_dispatcher
new_runner = record {
  config = none;
  client = false;
  written = [];
  prompts = [];
  dispatcher = new_dispatcher;
  status = running;
}

-- `client is None or config is None`, negated
abbrev pub is_ready : Runner → Bool
is_ready r = r.client && (elim r.config [ none ↦ false | some config ↦ true ])

unfoldable pub write_error : String → Runner → Runner
write_error message r = record r { written = r.written ++ (emit_error message ∷ []) }

-- `len(value)` raises TypeError for the others.
abbrev pub has_len : Json → Bool
has_len (string s) = true
has_len (array items) = true
has_len (object members) = true
has_len _ = false

-- What ends the wait of the loop: a control message, or SIGTERM.
pub data Event : Type 0 where
  control : Option Members → Event
  sigterm : Event

abbrev pub is_running : Status → Bool
is_running running = true
is_running stopped = false
is_running crashed = false

module _ (w : World) where
  -- `await run_prompt_interruptible(client, prompt, dispatcher)`
  unfoldable pub present : Prompt → Runner → Runner
  present prompt r =
      let prompts = r.prompts ++ (prompt ∷ []) in
      let (lines, completed, dispatcher) =
        run_prompt_interruptible w.texts (w.sdk prompts) (w.follow_up prompts) r.dispatcher in
      record r { written = r.written ++ lines; prompts = prompts; dispatcher = dispatcher }

  unfoldable pub handle_start : StartMessage → Runner → Runner
  handle_start m r =
      if w.reflection
      then record r { config = some m; status = stopped }
      else record r { config = some m; client = true; written = r.written ++ (emit_ready ∷ []) }

  unfoldable pub handle_prompt : PromptMessage → Runner → Runner
  unfolding present write_error
  handle_prompt p r =
      if not (is_ready r)
      then write_error "Received prompt before start message" r
      else if not (truthy p.content) && not (truthy p.images)
      then write_error "Empty prompt content" r
      else if has_len p.content && has_len p.images
      then present (user_prompt p.content p.images) r
      else record r { status = crashed }

  unfoldable pub handle_bcp : String → Prompt → Runner → Runner
  unfolding present write_error
  handle_bcp early prompt r = if is_ready r then present prompt r else write_error early r

  unfoldable pub save_memory : Json → Runner → Runner
  save_memory reason r =
      let prompts = r.prompts ++ (memory_prompt reason ∷ []) in
      record r {
        written = r.written ++ (run_prompt w.texts false false (w.sdk prompts)).lines;
        prompts = prompts;
      }

  unfoldable pub handle_memory_save : Json → Runner → Runner
  unfolding save_memory
  handle_memory_save reason r = record (if is_ready r then save_memory reason r else r) {
    status = stopped;
  }

  -- The branches of the loop. The types that the reader keeps from the control queue have none.
  unfoldable pub handle_message : Message → Runner → Runner
  unfolding handle_start handle_prompt handle_bcp handle_memory_save
  handle_message (start_message m) r = handle_start m r
  handle_message (prompt_message p) r = handle_prompt p r
  handle_message (bcp_query_message q) r =
      handle_bcp "Received BCP query before start message" (query_prompt q) r
  handle_message (bcp_query_error_message e) r =
      handle_bcp "Received BCP query error before start message" (query_error_prompt e) r
  handle_message (bcp_response_delivery_message m) r =
      handle_bcp "Received BCP response delivery before start message" (delivery_prompt m) r
  handle_message (memory_save_message reason) r = handle_memory_save reason r
  handle_message (shutdown_message reason) r = record r { status = stopped }
  handle_message _ r = r

  unfoldable pub handle_parsed : Members → Parsed Message → Runner → Runner
  unfolding handle_message write_error
  handle_parsed msg (parsed m) r = handle_message m r
  handle_parsed msg refused r = write_error (w.refusal msg) r
  handle_parsed msg raised r = record r { status = crashed }

  unfoldable pub handle_control : Option Members → Runner → Runner
  unfolding handle_parsed parse_inbound
  handle_control none r = record r { status = stopped }
  handle_control (some msg) r = handle_parsed msg (parse_inbound msg) r

  unfoldable pub handle_event : Event → Runner → Runner
  unfolding handle_control
  handle_event (control m) r = handle_control m r
  handle_event sigterm r = record r { status = stopped }

  unfoldable pub main_loop : List Event → Runner → Runner
  unfolding handle_event
  main_loop [] r = r
  main_loop (e ∷ events) r =
      let rest = main_loop events (handle_event e r) in if is_running r.status then rest else r
