-- ===== src/Runtime/Loop/Answered.antt =====
-- runtime/agent_runner.py, main: the gateway is told of the end of each prompt.
use tri_onyx.Base.{
  ◌≤◌, length, length-append, List, [], ◌∷◌, ◌++◌, none, some, String, not, ◌&&◌, arith, inl, inr,
  Bool-cases,
}
use tri_onyx.Runtime.Session.Terminal.{count_terminal, count_terminal-append, ResultLast}
use tri_onyx.Runtime.Session.Ends.{retry-ends, prompt_told_to_gateway}
use tri_onyx.Runtime.Json.{Json, Members, truthy}
use tri_onyx.Runtime.Protocol.Classes.{
  Message, StartMessage, PromptMessage, Parsed, parsed, refused, raised, start_message,
  prompt_message, interrupt_message, shutdown_message, memory_save_message, bcp_query_message,
  bcp_query_error_message, bcp_response_delivery_message, bcp_validation_result,
  bcp_subscriptions_active, send_message_response, send_email_response, github_response,
  save_draft_response, move_email_response, create_folder_response, restart_agent_response,
  calendar_query_response, calendar_create_response, calendar_update_response,
  calendar_delete_response, submit_item_response, submit_image_response, submit_page_response,
  speak_response,
}
use tri_onyx.Runtime.Protocol.Table.{parse_inbound}
use tri_onyx.Runtime.Loop.{
  Prompt, query_prompt, query_error_prompt, delivery_prompt, memory_prompt, World, Runner, is_ready,
  write_error, has_len, present, handle_start, handle_prompt, handle_bcp, save_memory,
  handle_memory_save, handle_message, handle_parsed, handle_control, Event, control, sigterm,
  is_running, handle_event, main_loop,
}

-- Each prompt so far has been told to the gateway.
abbrev pub IsAnswered : Runner → Type 0
IsAnswered r = length r.prompts ≤ count_terminal r.written

module _ (w : World) (streams : (prompts : List Prompt) → ResultLast w.texts (w.sdk prompts).steps)
    (follow_ups : (prompts : List Prompt) → ResultLast w.texts (w.follow_up prompts).steps) where
  adds_lines :
      (r : Runner) (lines : List Members)
      → IsAnswered r
      → length r.prompts ≤ count_terminal (r.written ++ lines)
  adds_lines r lines h = omega (arith, count_terminal-append r.written lines, h)

  adds_prompt :
      (r : Runner) (prompt : Prompt) (lines : List Members)
      → 1 ≤ count_terminal lines
      → IsAnswered r
      → length (r.prompts ++ (prompt ∷ [])) ≤ count_terminal (r.written ++ lines)
  adds_prompt r prompt lines one h =
      omega (
        arith,
        count_terminal-append r.written lines,
        length-append r.prompts (prompt ∷ []),
        h,
        one,
      )

  present-IsAnswered :
      (prompt : Prompt) (r : Runner) → IsAnswered r → IsAnswered (present w prompt r)
  unfolding present
  present-IsAnswered prompt r h =
      let prompts = r.prompts ++ (prompt ∷ []) in
      adds_prompt r prompt _
        (prompt_told_to_gateway w.texts (w.sdk prompts) (w.follow_up prompts) r.dispatcher
          (streams prompts) (follow_ups prompts))
        h

  prompt-IsAnswered :
      (p : PromptMessage) (r : Runner) → IsAnswered r → IsAnswered (handle_prompt w p r)
  unfolding handle_prompt write_error
  prompt-IsAnswered p r h = elim (Bool-cases (is_ready r)) [
    | inr early ↦ rw early (adds_lines r _ h)
    | inl ready ↦ elim (Bool-cases (not (truthy p.content) && not (truthy p.images))) [
      | inl blank ↦ rw (ready, blank) (adds_lines r _ h)
      | inr full ↦ elim (Bool-cases (has_len p.content && has_len p.images)) [
        | inl sized ↦ rw (ready, full, sized) (present-IsAnswered _ r h)
        | inr unsized ↦ rw (ready, full, unsized) h
      ]
    ]
  ]

  bcp-IsAnswered :
      (early : String) (prompt : Prompt) (r : Runner)
      → IsAnswered r
      → IsAnswered (handle_bcp w early prompt r)
  unfolding handle_bcp write_error
  bcp-IsAnswered early prompt r h = elim (Bool-cases (is_ready r)) [
    | inl ready ↦ rw ready (present-IsAnswered prompt r h)
    | inr not_yet ↦ rw not_yet (adds_lines r _ h)
  ]

  memory-IsAnswered :
      (reason : Json) (r : Runner) → IsAnswered r → IsAnswered (handle_memory_save w reason r)
  unfolding handle_memory_save save_memory
  memory-IsAnswered reason r h =
      let prompts = r.prompts ++ (memory_prompt reason ∷ []) in
      elim (Bool-cases (is_ready r)) [
        | inl ready ↦ rw ready (
            adds_prompt r (memory_prompt reason) _
              (retry-ends w.texts (w.sdk prompts) (streams prompts)) h)
        | inr not_yet ↦ rw not_yet h
      ]

  start-IsAnswered :
      (m : StartMessage) (r : Runner) → IsAnswered r → IsAnswered (handle_start w m r)
  unfolding handle_start
  start-IsAnswered m r h = elim (Bool-cases w.reflection) [
    | inl mode ↦ rw mode h
    | inr mode ↦ rw mode (adds_lines r _ h)
  ]

  message-IsAnswered : (m : Message) (r : Runner) → IsAnswered r → IsAnswered (handle_message w m r)
  unfolding handle_message
  message-IsAnswered (start_message m) r h = start-IsAnswered m r h
  message-IsAnswered (prompt_message p) r h = prompt-IsAnswered p r h
  message-IsAnswered (bcp_query_message q) r h = bcp-IsAnswered _ (query_prompt q) r h
  message-IsAnswered (bcp_query_error_message q) r h = bcp-IsAnswered _ (query_error_prompt q) r h
  message-IsAnswered (bcp_response_delivery_message q) r h =
      bcp-IsAnswered _ (delivery_prompt q) r h
  message-IsAnswered (memory_save_message reason) r h = memory-IsAnswered reason r h
  message-IsAnswered (shutdown_message reason) r h = h
  message-IsAnswered (interrupt_message x) r h = h
  message-IsAnswered (bcp_validation_result x) r h = h
  message-IsAnswered (bcp_subscriptions_active x) r h = h
  message-IsAnswered (send_message_response a) r h = h
  message-IsAnswered (send_email_response a y) r h = h
  message-IsAnswered (github_response a y) r h = h
  message-IsAnswered (save_draft_response a) r h = h
  message-IsAnswered (move_email_response a) r h = h
  message-IsAnswered (create_folder_response a) r h = h
  message-IsAnswered (restart_agent_response a) r h = h
  message-IsAnswered (calendar_query_response a y) r h = h
  message-IsAnswered (calendar_create_response a y) r h = h
  message-IsAnswered (calendar_update_response a y) r h = h
  message-IsAnswered (calendar_delete_response a) r h = h
  message-IsAnswered (submit_item_response a) r h = h
  message-IsAnswered (submit_image_response a) r h = h
  message-IsAnswered (submit_page_response a) r h = h
  message-IsAnswered (speak_response a) r h = h

  parsed-IsAnswered :
      (msg : Members) (m : Parsed Message) (r : Runner)
      → IsAnswered r
      → IsAnswered (handle_parsed w msg m r)
  unfolding handle_parsed write_error
  parsed-IsAnswered msg (parsed m) r h = message-IsAnswered m r h
  parsed-IsAnswered msg refused r h = adds_lines r _ h
  parsed-IsAnswered msg raised r h = h

  event-IsAnswered : (e : Event) (r : Runner) → IsAnswered r → IsAnswered (handle_event w e r)
  unfolding handle_event handle_control
  event-IsAnswered (control none) r h = h
  event-IsAnswered (control (some msg)) r h = parsed-IsAnswered msg (parse_inbound msg) r h
  event-IsAnswered sigterm r h = h

  -- However long the session and whatever the messages, at every point at least as many lines that end
  -- a prompt have been written as there were prompts: none is left without a result or `interrupted`.
  -- The SDK's streams end at the result, where they have one.
  pub main_loop-IsAnswered :
      (events : List Event) (r : Runner) → IsAnswered r → IsAnswered (main_loop w events r)
  unfolding main_loop
  main_loop-IsAnswered [] r h = h
  main_loop-IsAnswered (e ∷ events) r h = elim (Bool-cases (is_running r.status)) [
    | inl on ↦ rw on (main_loop-IsAnswered events (handle_event w e r) (event-IsAnswered e r h))
    | inr off ↦ rw off h
  ]
