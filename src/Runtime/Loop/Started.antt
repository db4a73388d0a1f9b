-- ===== src/Runtime/Loop/Started.antt =====
-- runtime/agent_runner.py, main: nothing reaches the model before a start message.
use tri_onyx.Base.{
  List, [], ◌∷◌, none, some, String, Bool, true, false, ◌&&◌, ◌≡◌, refl, ap, All, inl, inr,
  Bool-cases,
}
use tri_onyx.Runtime.Json.{Json, Members}
use tri_onyx.Runtime.Protocol.Classes.{
  Message, PromptMessage, Parsed, parsed, refused, raised, start_message, prompt_message,
  interrupt_message, shutdown_message, memory_save_message, bcp_query_message,
  bcp_query_error_message, bcp_response_delivery_message, bcp_validation_result,
  bcp_subscriptions_active, send_message_response, send_email_response, github_response,
  save_draft_response, move_email_response, create_folder_response, restart_agent_response,
  calendar_query_response, calendar_create_response, calendar_update_response,
  calendar_delete_response, submit_item_response, submit_image_response, submit_page_response,
  speak_response,
}
use tri_onyx.Runtime.Protocol.Table.{parse_inbound}
use tri_onyx.Runtime.Loop.{
  Prompt, query_prompt, query_error_prompt, delivery_prompt, World, Runner, new_runner, is_ready,
  write_error, handle_prompt, handle_bcp, handle_memory_save, handle_message, handle_parsed,
  handle_control, Event, control, sigterm, is_running, handle_event, main_loop,
}

abbrev pub starts_session : Message → Bool
starts_session (start_message m) = true
starts_session _ = false

abbrev pub parsed_start : Parsed Message → Bool
parsed_start (parsed m) = starts_session m
parsed_start refused = false
parsed_start raised = false

abbrev pub is_start : Event → Bool
is_start (control none) = false
is_start (control (some msg)) = parsed_start (parse_inbound msg)
is_start sigterm = false

-- No client, and nothing asked.
abbrev IsIdle : Runner → Type 0
IsIdle r = (r.client ≡ false) × (r.prompts ≡ [])

not_ready : (r : Runner) → IsIdle r → is_ready r ≡ false
not_ready r (e, _) = ap (λ b. b && (elim r.config [ none ↦ false | some config ↦ true ])) e

module _ (w : World) where
  prompt-IsIdle : (p : PromptMessage) (r : Runner) → IsIdle r → IsIdle (handle_prompt w p r)
  unfolding handle_prompt write_error
  prompt-IsIdle p r h = rw (not_ready r h) h

  bcp-IsIdle :
      (early : String) (prompt : Prompt) (r : Runner)
      → IsIdle r
      → IsIdle (handle_bcp w early prompt r)
  unfolding handle_bcp write_error
  bcp-IsIdle early prompt r h = rw (not_ready r h) h

  memory-IsIdle : (reason : Json) (r : Runner) → IsIdle r → IsIdle (handle_memory_save w reason r)
  unfolding handle_memory_save
  memory-IsIdle reason r h = rw (not_ready r h) h

  message-IsIdle :
      (m : Message) (r : Runner)
      → starts_session m ≡ false
      → IsIdle r
      → IsIdle (handle_message w m r)
  unfolding handle_message
  message-IsIdle (start_message m) r e h = cc
  message-IsIdle (prompt_message p) r e h = prompt-IsIdle p r h
  message-IsIdle (bcp_query_message q) r e h = bcp-IsIdle _ (query_prompt q) r h
  message-IsIdle (bcp_query_error_message q) r e h = bcp-IsIdle _ (query_error_prompt q) r h
  message-IsIdle (bcp_response_delivery_message q) r e h = bcp-IsIdle _ (delivery_prompt q) r h
  message-IsIdle (memory_save_message reason) r e h = memory-IsIdle reason r h
  message-IsIdle (shutdown_message reason) r e h = h
  message-IsIdle (interrupt_message x) r e h = h
  message-IsIdle (bcp_validation_result x) r e h = h
  message-IsIdle (bcp_subscriptions_active x) r e h = h
  message-IsIdle (send_message_response a) r e h = h
  message-IsIdle (send_email_response a y) r e h = h
  message-IsIdle (github_response a y) r e h = h
  message-IsIdle (save_draft_response a) r e h = h
  message-IsIdle (move_email_response a) r e h = h
  message-IsIdle (create_folder_response a) r e h = h
  message-IsIdle (restart_agent_response a) r e h = h
  message-IsIdle (calendar_query_response a y) r e h = h
  message-IsIdle (calendar_create_response a y) r e h = h
  message-IsIdle (calendar_update_response a y) r e h = h
  message-IsIdle (calendar_delete_response a) r e h = h
  message-IsIdle (submit_item_response a) r e h = h
  message-IsIdle (submit_image_response a) r e h = h
  message-IsIdle (submit_page_response a) r e h = h
  message-IsIdle (speak_response a) r e h = h

  parsed-IsIdle :
      (msg : Members) (m : Parsed Message) (r : Runner)
      → parsed_start m ≡ false
      → IsIdle r
      → IsIdle (handle_parsed w msg m r)
  unfolding handle_parsed write_error
  parsed-IsIdle msg (parsed m) r e h = message-IsIdle m r e h
  parsed-IsIdle msg refused r e h = h
  parsed-IsIdle msg raised r e h = h

  event-IsIdle :
      (e : Event) (r : Runner) → is_start e ≡ false → IsIdle r → IsIdle (handle_event w e r)
  unfolding handle_event handle_control
  event-IsIdle (control none) r e h = h
  event-IsIdle (control (some msg)) r e h = parsed-IsIdle msg (parse_inbound msg) r e h
  event-IsIdle sigterm r e h = h

  loop-IsIdle :
      (events : List Event) (r : Runner)
      → All (λ e. is_start e ≡ false) events
      → IsIdle r
      → IsIdle (main_loop w events r)
  unfolding main_loop
  loop-IsIdle [] r _ h = h
  loop-IsIdle (e ∷ events) r (es, rest) h = elim (Bool-cases (is_running r.status)) [
    | inl on ↦ rw on (loop-IsIdle events (handle_event w e r) rest (event-IsIdle e r es h))
    | inr off ↦ rw off h
  ]

  -- Whatever comes before the first valid start message, a prompt, a query or a request to save the
  -- memory, the model is asked nothing and the SDK's client is not there.
  pub nothing_before_start :
      (events : List Event)
      → All (λ e. is_start e ≡ false) events
      → ((main_loop w events new_runner).prompts ≡ [])
        × ((main_loop w events new_runner).client ≡ false)
  nothing_before_start events h =
      let (client, prompts) = loop-IsIdle events new_runner h (unfold new_runner in (refl, refl)) in
      (prompts, client)
