-- ===== src/Runtime/Loop/Stopping.antt =====
-- runtime/agent_runner.py, main with the reader of stdin: when the process ends, and when it does not.
-- The reader's queue is taken as a whole: the loop takes its messages one at a time, in their order.
use tri_onyx.Base.{
  List, [], ◌∷◌, ◌++◌, map, none, some, String, Bool, true, false, ◌≡◌, refl, sym, ap, ◌∙◌, All,
  inl, inr, Bool-cases,
}
use mathlib.Core.List.{map-append, append_assoc}
use tri_onyx.Runtime.Dispatcher.Queues.{Dispatcher, reading}
use tri_onyx.Runtime.Dispatcher.Reading.{LineLibrary, reader_loop}
use tri_onyx.Runtime.Dispatcher.Sorting.{IsReadable, classify, control_part, gather}
use tri_onyx.Runtime.Dispatcher.Order.{reader_loop_sorts, read_lines-Adds}
use tri_onyx.Runtime.Dispatcher.Broken.{is_fatal, reader_loop_broken}
use tri_onyx.Runtime.Json.{Members}
use tri_onyx.Runtime.Protocol.Classes.{
  Message, Parsed, parsed, refused, raised, start_message, prompt_message, interrupt_message,
  shutdown_message, memory_save_message, bcp_query_message, bcp_query_error_message,
  bcp_response_delivery_message, bcp_validation_result, bcp_subscriptions_active,
  send_message_response, send_email_response, github_response, save_draft_response,
  move_email_response, create_folder_response, restart_agent_response, calendar_query_response,
  calendar_create_response, calendar_update_response, calendar_delete_response,
  submit_item_response, submit_image_response, submit_page_response, speak_response,
}
use tri_onyx.Runtime.Protocol.Table.{parse_inbound}
use tri_onyx.Runtime.Loop.{
  World, Runner, handle_memory_save, handle_message, handle_parsed, handle_control, Event, control,
  sigterm, is_running, handle_event, main_loop,
}

abbrev pub ends_session : Message → Bool
ends_session (shutdown_message reason) = true
ends_session (memory_save_message reason) = true
ends_session _ = false

abbrev pub parsed_end : Parsed Message → Bool
parsed_end (parsed m) = ends_session m
parsed_end refused = false
parsed_end raised = false

-- The end of stdin, SIGTERM, a request to shut down, and one to save the memory.
abbrev pub is_end : Event → Bool
is_end (control none) = true
is_end (control (some msg)) = parsed_end (parse_inbound msg)
is_end sigterm = true

module _ (w : World) where
  at_rest :
      (events : List Event) (r : Runner) → is_running r.status ≡ false → main_loop w events r ≡ r
  unfolding main_loop
  at_rest [] r h = refl
  at_rest (e ∷ events) r h = rw h refl

  main_loop-append :
      (xs ys : List Event) (r : Runner)
      → main_loop w (xs ++ ys) r ≡ main_loop w ys (main_loop w xs r)
  unfolding main_loop
  main_loop-append [] ys r = refl
  main_loop-append (e ∷ xs) ys r = elim (Bool-cases (is_running r.status)) [
    | inl on ↦ rw on (main_loop-append xs ys (handle_event w e r))
    | inr off ↦ rw off (sym (at_rest ys r off))
  ]

  message-ends :
      (m : Message) (r : Runner)
      → ends_session m ≡ true
      → is_running (handle_message w m r).status ≡ false
  unfolding handle_message handle_memory_save
  message-ends (shutdown_message reason) r h = refl
  message-ends (memory_save_message reason) r h = refl
  message-ends (start_message m) r h = cc
  message-ends (prompt_message m) r h = cc
  message-ends (bcp_query_message m) r h = cc
  message-ends (bcp_query_error_message m) r h = cc
  message-ends (bcp_response_delivery_message m) r h = cc
  message-ends (interrupt_message x) r h = cc
  message-ends (bcp_validation_result x) r h = cc
  message-ends (bcp_subscriptions_active x) r h = cc
  message-ends (send_message_response a) r h = cc
  message-ends (send_email_response a y) r h = cc
  message-ends (github_response a y) r h = cc
  message-ends (save_draft_response a) r h = cc
  message-ends (move_email_response a) r h = cc
  message-ends (create_folder_response a) r h = cc
  message-ends (restart_agent_response a) r h = cc
  message-ends (calendar_query_response a y) r h = cc
  message-ends (calendar_create_response a y) r h = cc
  message-ends (calendar_update_response a y) r h = cc
  message-ends (calendar_delete_response a) r h = cc
  message-ends (submit_item_response a) r h = cc
  message-ends (submit_image_response a) r h = cc
  message-ends (submit_page_response a) r h = cc
  message-ends (speak_response a) r h = cc

  parsed-ends :
      (msg : Members) (m : Parsed Message) (r : Runner)
      → parsed_end m ≡ true
      → is_running (handle_parsed w msg m r).status ≡ false
  unfolding handle_parsed
  parsed-ends msg (parsed m) r h = message-ends m r h
  parsed-ends msg refused r h = cc
  parsed-ends msg raised r h = cc

  event-ends :
      (e : Event) (r : Runner) → is_end e ≡ true → is_running (handle_event w e r).status ≡ false
  unfolding handle_event handle_control
  event-ends (control none) r h = refl
  event-ends (control (some msg)) r h = parsed-ends msg (parse_inbound msg) r h
  event-ends sigterm r h = refl

  last_event-ends :
      (e : Event) (r : Runner)
      → is_end e ≡ true
      → is_running (main_loop w (e ∷ []) r).status ≡ false
  unfolding main_loop
  last_event-ends e r h = elim (Bool-cases (is_running r.status)) [
    | inl on ↦ rw on (event-ends e r h)
    | inr off ↦ rw off off
  ]

  -- Behind the end of stdin, SIGTERM, a request to shut down or to save the memory, no message is
  -- handled: the session is over, whatever came before and whatever follows.
  pub nothing_after_end :
      (before : List Event) (e : Event) (after : List Event) (r : Runner)
      → is_end e ≡ true
      → (main_loop w (before ++ (e ∷ after)) r ≡ main_loop w (before ++ (e ∷ [])) r)
        × (is_running (main_loop w (before ++ (e ∷ after)) r).status ≡ false)
  nothing_after_end before e after r h =
      let r' = main_loop w (before ++ (e ∷ [])) r in
      let split : main_loop w (before ++ (e ∷ [])) r ≡ main_loop w (e ∷ []) (main_loop w before r) =
        main_loop-append before (e ∷ []) r in
      let over : is_running r'.status ≡ false =
        ap (λ x. is_running x.status) split ∙ last_event-ends e (main_loop w before r) h in
      let same : main_loop w (before ++ (e ∷ after)) r ≡ r' =
        main_loop-append before (e ∷ after) r
        ∙ main_loop-append (e ∷ []) after (main_loop w before r)
        ∙ ap (main_loop w after) (sym split)
        ∙ at_rest after r' over in
      (same, ap (λ x. is_running x.status) same ∙ over)

  -- Where the reader meets no line that ends it, the process ends when stdin does, if not before.
  pub stops_at_eof :
      (lib : LineLibrary) (lines : List String) (d : Dispatcher) (r : Runner)
      → d.task ≡ reading
      → All (λ l. IsReadable (classify lib l)) lines
      → is_running (main_loop w (map control (reader_loop lib lines d).control_queue) r).status
        ≡ false
  stops_at_eof lib lines d r e h =
      let heard = d.control_queue ++ gather control_part lib lines in
      ap (λ q. is_running (main_loop w (map control q) r).status)
        ((reader_loop_sorts lib lines d e h).0
          ∙ sym (append_assoc d.control_queue (gather control_part lib lines) (none ∷ [])))
      ∙ ap (λ q. is_running (main_loop w q r).status) (map-append control heard (none ∷ []))
      ∙ ap (λ x. is_running x.status) (main_loop-append (map control heard) (control none ∷ []) r)
      ∙ last_event-ends (control none) (main_loop w (map control heard) r) refl

  -- Behind a line that ends the reader the main loop hears of nothing, neither of the messages that follow
  -- nor of the end of stdin: a session that was running goes on waiting.
  pub waits_for_ever :
      (lib : LineLibrary) (before : List String) (line : String) (after : List String)
      (d : Dispatcher) (r : Runner)
      → d.task ≡ reading
      → All (λ l. IsReadable (classify lib l)) before
      → is_fatal (classify lib line) ≡ true
      → main_loop w (map control (reader_loop lib (before ++ (line ∷ after)) d).control_queue) r
        ≡ main_loop w (map control (d.control_queue ++ gather control_part lib before)) r
  waits_for_ever lib before line after d r e h bad =
      ap (λ x. main_loop w (map control x.control_queue) r)
        (reader_loop_broken lib before line after d e h bad)
      ∙ ap (λ q. main_loop w (map control q) r) (read_lines-Adds lib before d e h).control
