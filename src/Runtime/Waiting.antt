-- ===== src/Runtime/Waiting.antt =====
-- runtime/agent_runner.py: what a tool does that waits for the gateway's answer.
pub mod Search
use tri_onyx.Base.{
  List, [], ◌∷◌, ◌++◌, Option, none, some, String, Bool, true, false, ◌==◌, if◌then◌else◌,
  String_eq,
}
use tri_onyx.Runtime.Json.{Json, null, boolean, number, string, array, object, truthy}
use tri_onyx.Runtime.Protocol.Classes.{
  Message, Reply, BcpValidation, start_message, prompt_message, interrupt_message, shutdown_message,
  memory_save_message, bcp_query_message, bcp_query_error_message, bcp_response_delivery_message,
  bcp_validation_result, bcp_subscriptions_active, send_message_response, send_email_response,
  github_response, save_draft_response, move_email_response, create_folder_response,
  restart_agent_response, calendar_query_response, calendar_create_response,
  calendar_update_response, calendar_delete_response, submit_item_response, submit_image_response,
  submit_page_response, speak_response,
}

-- The wait has an answer and the queue that it leaves, or it is cut off; `unread` is what arrives
-- later.
pub data Waited : Type 0 where
  answered : Message → List Message → List (List Message) → Waited
  timed_out : List Message → Waited

-- The three fields of a response; the queues hold no other messages.
abbrev pub reply_in : Message → Option Reply
reply_in (send_message_response r) = some r
reply_in (send_email_response r x) = some r
reply_in (github_response r x) = some r
reply_in (save_draft_response r) = some r
reply_in (move_email_response r) = some r
reply_in (create_folder_response r) = some r
reply_in (restart_agent_response r) = some r
reply_in (calendar_query_response r x) = some r
reply_in (calendar_create_response r x) = some r
reply_in (calendar_update_response r x) = some r
reply_in (calendar_delete_response r) = some r
reply_in (submit_item_response r) = some r
reply_in (submit_image_response r) = some r
reply_in (submit_page_response r) = some r
reply_in (speak_response r) = some r
reply_in _ = none

-- `value == text`
abbrev pub is_text : String → Json → Bool
is_text s (string t) = t == s
is_text s _ = false

-- `response.request_id == request_id`
abbrev pub answers : String → Message → Bool
answers request_id m = elim (reply_in m) [ none ↦ false | some r ↦ is_text request_id r.request_id ]

-- `result.query_id == query_id`
abbrev pub validates : String → Message → Bool
validates query_id (bcp_validation_result v) = is_text query_id v.query_id
validates query_id _ = false

-- `result.subscription_id == subscription_id`
abbrev pub validates_subscription : String → Message → Bool
validates_subscription subscription_id (bcp_validation_result v) =
    is_text subscription_id v.subscription_id
validates_subscription subscription_id _ = false

-- The two loops run in rounds, each of which takes the first message of the queue; a round on an
-- empty queue waits. `rounds` holds what the reader puts into the queue before each round, and ends
-- where the timeout cuts the wait off.
module _ (ours : Message → Bool) where
  -- `_wait_for_matching_response` and `_wait_for_validation`: a message that is not the one is put
  -- back behind the others.
  unfoldable pub take_first : List (List Message) → (List Message → Waited) → List Message → Waited
  take_first rounds retry [] = retry []
  take_first rounds retry (m ∷ queue) =
      if ours m then answered m queue rounds else retry (queue ++ (m ∷ []))

  unfoldable pub wait_for : List (List Message) → List Message → Waited
  unfolding take_first
  wait_for [] queue = timed_out queue
  wait_for (arrived ∷ rounds) queue = take_first rounds (wait_for rounds) (queue ++ arrived)

  -- `_wait_for_subscription_validation`: it keeps the others until it ends.
  unfoldable pub take_next :
      List (List Message)
      → (List Message → List Message → Waited)
      → List Message
      → List Message
      → Waited
  take_next rounds retry [] unmatched = retry [] unmatched
  take_next rounds retry (m ∷ queue) unmatched =
      if ours m then answered m (queue ++ unmatched) rounds else retry queue (unmatched ++ (m ∷ []))

  unfoldable pub search_for : List (List Message) → List Message → List Message → Waited
  unfolding take_next
  search_for [] queue unmatched = timed_out (queue ++ unmatched)
  search_for (arrived ∷ rounds) queue unmatched =
      take_next rounds (search_for rounds) (queue ++ arrived) unmatched

unfoldable pub wait_for_matching_response : String → List (List Message) → List Message → Waited
unfolding wait_for
wait_for_matching_response request_id = wait_for (answers request_id)

unfoldable pub wait_for_validation : String → List (List Message) → List Message → Waited
unfolding wait_for
wait_for_validation query_id = wait_for (validates query_id)

unfoldable pub wait_for_subscription_validation :
    String → List (List Message) → List Message → Waited
unfolding search_for
wait_for_subscription_validation subscription_id rounds queue =
    search_for (validates_subscription subscription_id) rounds queue []
