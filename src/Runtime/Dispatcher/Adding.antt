-- ===== src/Runtime/Dispatcher/Adding.antt =====
-- runtime/agent_runner.py, InboundDispatcher: what each line adds to the queues.
use tri_onyx.Base.{
  ◌+◌, List, [], ◌∷◌, ◌++◌, Option, some, Bool, true, false, ◌||◌, ◌≡◌, refl, sym, inl, inr, ◌==◌,
  if◌then◌else◌, String_eq, Bool-cases,
}
use mathlib.Core.List.{append-nil}
use tri_onyx.Runtime.Json.{Members}
use tri_onyx.Runtime.Protocol.Classes.{Message, bcp_validation_from_dict}
use tri_onyx.Runtime.Protocol.Replies.{
  send_message_from_dict, send_email_from_dict, github_from_dict, save_draft_from_dict,
  move_email_from_dict, create_folder_from_dict, restart_agent_from_dict, calendar_query_from_dict,
  calendar_create_from_dict, calendar_update_from_dict, calendar_delete_from_dict,
  submit_item_from_dict, submit_image_from_dict, submit_page_from_dict, speak_from_dict,
}
use tri_onyx.Runtime.Protocol.Table.{
  Kind, start, prompt, interrupt, shutdown, memory_save, bcp_query, bcp_query_error, bcp_delivery,
  bcp_validation, bcp_subscriptions, send_message, send_email, github, save_draft, move_email,
  create_folder, restart_agent, calendar_query, calendar_create, calendar_update, calendar_delete,
  submit_item, submit_image, submit_page, speak, inbound_parser,
}
use tri_onyx.Runtime.Dispatcher.Queues.{
  Queue, Queue_eq, Dispatcher, put, put_control, send_message_responses, bcp_validation_results,
  send_email_responses, github_responses, save_draft_responses, move_email_responses,
  create_folder_responses, restart_agent_responses, calendar_query_responses,
  calendar_create_responses, calendar_update_responses, calendar_delete_responses,
  submit_item_responses, submit_image_responses, submit_page_responses, speak_responses,
}
use tri_onyx.Runtime.Dispatcher.Reading.{put_recognised, route}
use tri_onyx.Runtime.Dispatcher.Sorting.{Line, routed, control_part, reply_part, interrupt_part}

-- `d'` is `d` with what is named behind what the queues held.
pub record Adds (controls : List (Option Members)) (replies : Queue → List Message)
    (interrupts : Bool) (d d' : Dispatcher) : Type 0 where
  pub goes_on : d'.task ≡ d.task
  pub control : d'.control_queue ≡ d.control_queue ++ controls
  pub reply : (q : Queue) → d'.responses q ≡ d.responses q ++ replies q
  pub interrupted : d'.interrupt_event ≡ (d.interrupt_event || interrupts)

abbrev pub AddsLine : Line → Dispatcher → Dispatcher → Type 0
AddsLine line = Adds (control_part line) (λ q. reply_part q line) (interrupt_part line)

or-false : (b : Bool) → b ≡ (b || false)
or-false true = refl
or-false false = refl

or-true : (b : Bool) → true ≡ (b || true)
or-true true = refl
or-true false = refl

pub nothing_added : (d : Dispatcher) → Adds [] (λ q. []) false d d
nothing_added d = record {
  goes_on = refl;
  control = sym (append-nil _);
  reply = λ q. sym (append-nil _);
  interrupted = or-false _;
}

pub error_added : (d : Dispatcher) → Adds [] (λ q. []) false d (record d { errors = d.errors + 1 })
error_added d = record {
  goes_on = refl;
  control = sym (append-nil _);
  reply = λ q. sym (append-nil _);
  interrupted = or-false _;
}

control_added :
    (msg : Members) (d : Dispatcher)
    → Adds (some msg ∷ []) (λ q. []) false d (put_control (some msg) d)
unfolding put_control
control_added msg d = record {
  goes_on = refl;
  control = refl;
  reply = λ q. sym (append-nil _);
  interrupted = or-false _;
}

added_to_queue :
    (q p : Queue) (m : Message) (xs : List Message)
    → (if q == p then xs ++ (m ∷ []) else xs) ≡ xs ++ (if q == p then m ∷ [] else [])
added_to_queue q p m xs = elim (Bool-cases (q == p)) [
  | inl e ↦ rw e refl
  | inr e ↦ rw e (sym (append-nil xs))
]

reply_added :
    (p : Queue) (m : Message) (d : Dispatcher)
    → Adds [] (λ q. if q == p then m ∷ [] else []) false d (put p m d)
unfolding put
reply_added p m d = record {
  goes_on = refl;
  control = sym (append-nil _);
  reply = λ q. added_to_queue q p m _;
  interrupted = or-false _;
}

pub route-Adds :
    (k : Kind) (msg : Members) (d : Dispatcher) → AddsLine (routed k msg) d (route k msg d)
unfolding route put_recognised inbound_parser
route-Adds start msg d = control_added msg d
route-Adds prompt msg d = control_added msg d
route-Adds interrupt msg d = record {
  goes_on = refl;
  control = sym (append-nil _);
  reply = λ q. sym (append-nil _);
  interrupted = or-true _;
}
route-Adds shutdown msg d = control_added msg d
route-Adds memory_save msg d = control_added msg d
route-Adds bcp_query msg d = control_added msg d
route-Adds bcp_query_error msg d = control_added msg d
route-Adds bcp_delivery msg d = control_added msg d
route-Adds bcp_validation msg d =
    reply_added bcp_validation_results (bcp_validation_from_dict msg) d
route-Adds bcp_subscriptions msg d = record {
  goes_on = refl;
  control = sym (append-nil _);
  reply = λ q. sym (append-nil _);
  interrupted = or-false _;
}
route-Adds send_message msg d = reply_added send_message_responses (send_message_from_dict msg) d
route-Adds send_email msg d = reply_added send_email_responses (send_email_from_dict msg) d
route-Adds github msg d = reply_added github_responses (github_from_dict msg) d
route-Adds save_draft msg d = reply_added save_draft_responses (save_draft_from_dict msg) d
route-Adds move_email msg d = reply_added move_email_responses (move_email_from_dict msg) d
route-Adds create_folder msg d = reply_added create_folder_responses (create_folder_from_dict msg) d
route-Adds restart_agent msg d = reply_added restart_agent_responses (restart_agent_from_dict msg) d
route-Adds calendar_query msg d =
    reply_added calendar_query_responses (calendar_query_from_dict msg) d
route-Adds calendar_create msg d =
    reply_added calendar_create_responses (calendar_create_from_dict msg) d
route-Adds calendar_update msg d =
    reply_added calendar_update_responses (calendar_update_from_dict msg) d
route-Adds calendar_delete msg d =
    reply_added calendar_delete_responses (calendar_delete_from_dict msg) d
route-Adds submit_item msg d = reply_added submit_item_responses (submit_item_from_dict msg) d
route-Adds submit_image msg d = reply_added submit_image_responses (submit_image_from_dict msg) d
route-Adds submit_page msg d = reply_added submit_page_responses (submit_page_from_dict msg) d
route-Adds speak msg d = reply_added speak_responses (speak_from_dict msg) d
