-- ===== src/Runtime/Tools/Handlers.antt =====
-- runtime/agent_runner.py: the handlers of the tools that only ask the gateway, one for each method.
use tri_onyx.Base.{ℕ, List, [], ◌∷◌, String, Bool, if◌then◌else◌, String_eq}
use tri_onyx.Runtime.Json.{string, Items, Members, empty, member, truthy}
use tri_onyx.Runtime.Protocol.Classes.{Message}
use tri_onyx.Runtime.Requests.{
  emit_send_message_request, emit_bcp_query_request, emit_send_email_request, emit_github_request,
  emit_save_draft_request, emit_move_email_request, emit_create_folder_request,
  emit_calendar_query_request, emit_calendar_create_request, emit_calendar_update_request,
  emit_calendar_delete_request, emit_restart_agent_request, emit_bcp_response, emit_bcp_publish,
  emit_submit_item_request,
}
use tri_onyx.Runtime.Dispatcher.Queues.{
  Dispatcher, Queue_eq, bcp_validation_results, send_message_responses, send_email_responses,
  github_responses, save_draft_responses, move_email_responses, create_folder_responses,
  restart_agent_responses, calendar_query_responses, calendar_create_responses,
  calendar_update_responses, calendar_delete_responses, submit_item_responses,
}
use tri_onyx.Runtime.Waiting.{wait_for_validation, wait_for_subscription_validation}
use tri_onyx.Runtime.Tools.{
  ShowLibrary, Handled, ◌+s◌, left_in, set_queue, detail_of, message_id_of, output_of, events_of,
  event_of, optional, conclude, ask_gateway,
}

module _ (lib : ShowLibrary) where
  unfoldable pub send_message_handle :
      String → String → Members → String → List (List Message) → Dispatcher → Handled
  unfolding ask_gateway
  send_message_handle to message_type payload request_id =
      ask_gateway lib "Error: SendMessage timed out after 30s"
        (λ m. "Message delivered to " +s to +s ".")
        (emit_send_message_request request_id to message_type payload) request_id
        send_message_responses

  unfoldable pub restart_agent_handle :
      String → Bool → String → List (List Message) → Dispatcher → Handled
  unfolding ask_gateway
  restart_agent_handle agent_name force request_id =
      ask_gateway lib "Error: RestartAgent timed out after 60s"
        (λ m. "Agent '" +s agent_name +s "' restart initiated. " +s lib.show (detail_of m))
        (emit_restart_agent_request request_id agent_name force) request_id restart_agent_responses

  -- Without the ledger, which is in Runtime/Submissions.
  unfoldable pub submit_item_handle :
      String → String → String → Members → String → List (List Message) → Dispatcher → Handled
  unfolding ask_gateway
  submit_item_handle item_type title url metadata request_id =
      ask_gateway lib "Error: SubmitItem timed out after 30s" (λ m. "Item submitted: " +s title)
        (emit_submit_item_request request_id item_type title url metadata) request_id
        submit_item_responses

  unfoldable pub send_email : String → String → List (List Message) → Dispatcher → Handled
  unfolding ask_gateway
  send_email draft_path request_id =
      ask_gateway lib "Error: SendEmail timed out after 60s"
        (λ m. "Email sent successfully. Message-ID: " +s lib.show (message_id_of m))
        (emit_send_email_request request_id draft_path) request_id send_email_responses

  unfoldable pub save_draft : String → String → List (List Message) → Dispatcher → Handled
  unfolding ask_gateway
  save_draft draft_path request_id =
      ask_gateway lib "Error: SaveDraft timed out after 60s"
        (λ m. "Draft saved to IMAP Drafts folder.") (emit_save_draft_request request_id draft_path)
        request_id save_draft_responses

  unfoldable pub move_email :
      String → String → String → String → List (List Message) → Dispatcher → Handled
  unfolding ask_gateway
  move_email uid source_folder dest_folder request_id =
      ask_gateway lib "Error: MoveEmail timed out after 60s"
        (λ m. "Email " +s uid +s " moved from " +s source_folder +s " to " +s dest_folder +s ".")
        (emit_move_email_request request_id uid source_folder dest_folder) request_id
        move_email_responses

  unfoldable pub create_folder : String → String → List (List Message) → Dispatcher → Handled
  unfolding ask_gateway
  create_folder folder_name request_id =
      ask_gateway lib "Error: CreateFolder timed out after 60s"
        (λ m. "Folder '" +s folder_name +s "' created.")
        (emit_create_folder_request request_id folder_name) request_id create_folder_responses

  unfoldable pub github_run : String → Items → String → List (List Message) → Dispatcher → Handled
  unfolding ask_gateway
  github_run command args request_id =
      ask_gateway lib "Error: GitHub command timed out after 600s"
        (λ m.
          if truthy (output_of m)
          then lib.show (output_of m)
          else "(command succeeded with no output)")
        (emit_github_request request_id command args) request_id github_responses

  unfoldable pub calendar_query :
      String → String → String → String → List (List Message) → Dispatcher → Handled
  unfolding ask_gateway
  calendar_query calendar from_dt to_dt request_id =
      ask_gateway lib "Error: CalendarQuery timed out after 30s" (λ m. lib.dumps (events_of m))
        (emit_calendar_query_request request_id (
          member "calendar" (string calendar)
            (optional "from" from_dt (optional "to" to_dt empty))))
        request_id calendar_query_responses

  unfoldable pub calendar_create : String → String → List (List Message) → Dispatcher → Handled
  unfolding ask_gateway
  calendar_create draft_path request_id =
      ask_gateway lib "Error: CalendarCreate timed out after 30s"
        (λ m. "Event created: " +s lib.dumps (event_of m))
        (emit_calendar_create_request request_id draft_path) request_id calendar_create_responses

  unfoldable pub calendar_update : String → String → List (List Message) → Dispatcher → Handled
  unfolding ask_gateway
  calendar_update draft_path request_id =
      ask_gateway lib "Error: CalendarUpdate timed out after 30s"
        (λ m. "Event updated: " +s lib.dumps (event_of m))
        (emit_calendar_update_request request_id draft_path) request_id calendar_update_responses

  unfoldable pub calendar_delete :
      String → String → String → List (List Message) → Dispatcher → Handled
  unfolding ask_gateway
  calendar_delete uid calendar request_id =
      ask_gateway lib "Error: CalendarDelete timed out after 30s"
        (λ m. "Event " +s uid +s " deleted from " +s calendar)
        (emit_calendar_delete_request request_id uid calendar) request_id calendar_delete_responses

  -- It does not wait: the answer comes later, as a message of the main loop.
  unfoldable pub send_query : String → ℕ → Members → String → Dispatcher → Handled
  send_query to category spec request_id d = record {
    written = emit_bcp_query_request request_id to category spec ∷ [];
    told =
        "BCP query sent to "
        +s to
        +s " (category "
        +s lib.show_number category
        +s ", request_id: "
        +s request_id
        +s "). "
        +s "The validated response will be delivered as a prompt when ready.";
    dispatcher = d;
  }

  unfoldable pub respond_to_query : String → Members → List (List Message) → Dispatcher → Handled
  unfolding conclude
  respond_to_query query_id response rounds d =
      let waited = wait_for_validation query_id rounds (d.responses bcp_validation_results) in
      record {
        written = emit_bcp_response query_id response ∷ [];
        told =
            conclude lib
              ("BCP response sent for query " +s query_id
                +s " (validation pending — timed out waiting for result).")
              (λ m. "BCP response for query " +s query_id +s " validated and delivered.")
              ("Error: BCP response for query " +s query_id +s " was rejected: ") waited;
        dispatcher = set_queue bcp_validation_results (left_in waited) d;
      }

  unfoldable pub publish : String → String → Members → List (List Message) → Dispatcher → Handled
  unfolding conclude
  publish subscription_id controller response rounds d =
      let waited =
        wait_for_subscription_validation subscription_id rounds
          (d.responses bcp_validation_results) in
      record {
        written = emit_bcp_publish subscription_id controller response ∷ [];
        told =
            conclude lib "Publish timed out waiting for gateway validation."
              (λ m.
                "Published successfully to "
                +s controller
                +s " via subscription '"
                +s subscription_id
                +s "'. "
                +s lib.show (detail_of m))
              "Publish failed: " waited;
        dispatcher = set_queue bcp_validation_results (left_in waited) d;
      }
