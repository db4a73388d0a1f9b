-- ===== src/Runtime/Requests.antt =====
-- runtime/protocol.py: the messages that the runtime writes to the gateway, each the dict that
-- `_emit` prints on one line.
use tri_onyx.Base.{ℕ, String, Bool, true, false, Option, none, some}
use tri_onyx.Runtime.Json.{
  Json, boolean, number, string, array, object, Items, Members, empty, member, find_or, truthy,
}

unfoldable pub emit_ready : Members
emit_ready = member "type" (string "ready") empty

unfoldable pub emit_text : String → Members
emit_text content = member "type" (string "text") (member "content" (string content) empty)

unfoldable pub emit_tool_use : String → String → Members → Members
emit_tool_use tool_use_id name input_data = member "type" (string "tool_use") (
    member "id" (string tool_use_id)
      (member "name" (string name) (member "input" (object input_data) empty)))

unfoldable pub emit_tool_result : String → String → Bool → Members
emit_tool_result tool_use_id content is_error = member "type" (string "tool_result") (
    member "tool_use_id" (string tool_use_id)
      (member "content" (string content) (member "is_error" (boolean is_error) empty)))

unfoldable pub emit_interrupted : String → Members
emit_interrupted reason =
    member "type" (string "interrupted") (member "reason" (string reason) empty)

unfoldable pub emit_error : String → Members
emit_error message = member "type" (string "error") (member "message" (string message) empty)

unfoldable pub emit_log : String → String → Members
emit_log level message =
    member "type" (string "log")
      (member "level" (string level) (member "message" (string message) empty))

unfoldable pub emit_send_message_request : String → String → String → Members → Members
emit_send_message_request request_id to message_type payload =
    member "type" (string "send_message_request") (
      member "request_id" (string request_id) (
        member "to" (string to)
          (member "message_type" (string message_type) (member "payload" (object payload) empty))))

unfoldable pub emit_bcp_query_request : String → String → ℕ → Members → Members
emit_bcp_query_request request_id to category spec = member "type" (string "bcp_query_request") (
    member "request_id" (string request_id) (
      member "to" (string to)
        (member "category" (number category) (member "spec" (object spec) empty))))

unfoldable pub emit_send_email_request : String → String → Members
emit_send_email_request request_id draft_path =
    member "type" (string "send_email_request")
      (member "request_id" (string request_id) (member "draft_path" (string draft_path) empty))

unfoldable pub emit_github_request : String → String → Items → Members
emit_github_request request_id command args = member "type" (string "github_request") (
    member "request_id" (string request_id)
      (member "command" (string command) (member "args" (array args) empty)))

unfoldable pub emit_save_draft_request : String → String → Members
emit_save_draft_request request_id draft_path =
    member "type" (string "save_draft_request")
      (member "request_id" (string request_id) (member "draft_path" (string draft_path) empty))

unfoldable pub emit_move_email_request : String → String → String → String → Members
emit_move_email_request request_id uid source_folder dest_folder =
    member "type" (string "move_email_request") (
      member "request_id" (string request_id) (
        member "uid" (string uid) (
          member "source_folder" (string source_folder)
            (member "dest_folder" (string dest_folder) empty))))

unfoldable pub emit_create_folder_request : String → String → Members
emit_create_folder_request request_id folder_name =
    member "type" (string "create_folder_request")
      (member "request_id" (string request_id) (member "folder_name" (string folder_name) empty))

unfoldable pub emit_calendar_query_request : String → Members → Members
emit_calendar_query_request request_id params =
    member "type" (string "calendar_query_request")
      (member "request_id" (string request_id) (member "params" (object params) empty))

unfoldable pub emit_calendar_create_request : String → String → Members
emit_calendar_create_request request_id draft_path =
    member "type" (string "calendar_create_request")
      (member "request_id" (string request_id) (member "draft_path" (string draft_path) empty))

unfoldable pub emit_calendar_update_request : String → String → Members
emit_calendar_update_request request_id draft_path =
    member "type" (string "calendar_update_request")
      (member "request_id" (string request_id) (member "draft_path" (string draft_path) empty))

unfoldable pub emit_calendar_delete_request : String → String → String → Members
emit_calendar_delete_request request_id uid calendar =
    member "type" (string "calendar_delete_request") (
      member "request_id" (string request_id)
        (member "uid" (string uid) (member "calendar" (string calendar) empty)))

unfoldable pub emit_restart_agent_request : String → String → Bool → Members
emit_restart_agent_request request_id agent_name force =
    member "type" (string "restart_agent_request") (
      member "request_id" (string request_id)
        (member "agent_name" (string agent_name) (member "force" (boolean force) empty)))

unfoldable pub emit_bcp_response : String → Members → Members
emit_bcp_response query_id response =
    member "type" (string "bcp_response")
      (member "query_id" (string query_id) (member "response" (object response) empty))

unfoldable pub emit_bcp_publish : String → String → Members → Members
emit_bcp_publish subscription_id controller response = member "type" (string "bcp_response") (
    member "subscription_id" (string subscription_id)
      (member "controller" (string controller) (member "response" (object response) empty)))

unfoldable pub emit_submit_image_request : String → String → String → String → Members
emit_submit_image_request request_id path filename media_type =
    member "type" (string "submit_image_request") (
      member "request_id" (string request_id) (
        member "path" (string path)
          (member "filename" (string filename) (member "media_type" (string media_type) empty))))

unfoldable pub emit_submit_page_request : String → String → String → Members
emit_submit_page_request request_id path title = member "type" (string "submit_page_request") (
    member "request_id" (string request_id)
      (member "path" (string path) (member "title" (string title) empty)))

unfoldable pub emit_speak_request : String → String → String → Members
emit_speak_request request_id text voice = member "type" (string "speak_request") (
    member "request_id" (string request_id)
      (member "text" (string text) (member "voice" (string voice) empty)))

unfoldable pub emit_submit_item_request : String → String → String → String → Members → Members
emit_submit_item_request request_id item_type title url metadata =
    member "type" (string "submit_item_request") (
      member "request_id" (string request_id) (
        member "item_type" (string item_type) (
          member "title" (string title)
            (member "url" (string url) (member "metadata" (object metadata) empty)))))

-- The counts of tokens, where the message has a usage that is not empty.
abbrev pub usage_members : Option Members → Members
usage_members none = empty
usage_members (some usage) = elim (truthy (object usage)) [
  | false ↦ empty
  | true ↦ member "input_tokens" (find_or "input_tokens" (number 0) usage) (
      member "output_tokens" (find_or "output_tokens" (number 0) usage) (
        member "cache_creation_input_tokens"
          (find_or "cache_creation_input_tokens" (number 0) usage)
          (member "cache_read_input_tokens" (find_or "cache_read_input_tokens" (number 0) usage)
            empty)))
]

-- The cost is passed on as it came.
unfoldable pub emit_result : ℕ → ℕ → Json → Bool → Option Members → Members
emit_result duration_ms num_turns cost_usd is_error usage = member "type" (string "result") (
    member "duration_ms" (number duration_ms) (
      member "num_turns" (number num_turns)
        (member "cost_usd" cost_usd (member "is_error" (boolean is_error) (usage_members usage)))))
