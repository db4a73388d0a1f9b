-- ===== src/Runtime/Dispatcher/Queues.antt =====
-- runtime/agent_runner.py, class InboundDispatcher: the queues of the responses, and their names.
use tri_onyx.Base.{
  ℕ, suc, zero, List, [], ◌∷◌, ◌++◌, Option, Bool, true, false, ◌≡◌, refl, sym, ap, ◌∙◌, Eq, ◌==◌,
  if◌then◌else◌, nat_eq, nat_eq_iff, ◌↔◌,
}
use tri_onyx.Runtime.Json.{Json, array, nil, Members}
use tri_onyx.Runtime.Protocol.Classes.{Message}

-- The attributes that hold the queues of the responses.
pub data Queue : Type 0 where
  send_message_responses bcp_validation_results send_email_responses github_responses
        save_draft_responses move_email_responses create_folder_responses restart_agent_responses
        calendar_query_responses calendar_create_responses calendar_update_responses
        calendar_delete_responses submit_item_responses submit_image_responses submit_page_responses
        speak_responses :
      Queue

abbrev pub number_of : Queue → ℕ
number_of send_message_responses = 0
number_of bcp_validation_results = 1
number_of send_email_responses = 2
number_of github_responses = 3
number_of save_draft_responses = 4
number_of move_email_responses = 5
number_of create_folder_responses = 6
number_of restart_agent_responses = 7
number_of calendar_query_responses = 8
number_of calendar_create_responses = 9
number_of calendar_update_responses = 10
number_of calendar_delete_responses = 11
number_of submit_item_responses = 12
number_of submit_image_responses = 13
number_of submit_page_responses = 14
number_of speak_responses = 15

queue_at : ℕ → Queue
queue_at zero = send_message_responses
queue_at (suc zero) = bcp_validation_results
queue_at (suc (suc zero)) = send_email_responses
queue_at (suc (suc (suc zero))) = github_responses
queue_at (suc (suc (suc (suc zero)))) = save_draft_responses
queue_at (suc (suc (suc (suc (suc zero))))) = move_email_responses
queue_at (suc (suc (suc (suc (suc (suc zero)))))) = create_folder_responses
queue_at (suc (suc (suc (suc (suc (suc (suc zero))))))) = restart_agent_responses
queue_at (suc (suc (suc (suc (suc (suc (suc (suc zero)))))))) = calendar_query_responses
queue_at (suc (suc (suc (suc (suc (suc (suc (suc (suc zero))))))))) = calendar_create_responses
queue_at (suc (suc (suc (suc (suc (suc (suc (suc (suc (suc zero)))))))))) =
    calendar_update_responses
queue_at (suc (suc (suc (suc (suc (suc (suc (suc (suc (suc (suc zero))))))))))) =
    calendar_delete_responses
queue_at (suc (suc (suc (suc (suc (suc (suc (suc (suc (suc (suc (suc zero)))))))))))) =
    submit_item_responses
queue_at (suc (suc (suc (suc (suc (suc (suc (suc (suc (suc (suc (suc (suc zero))))))))))))) =
    submit_image_responses
queue_at (suc (suc (suc (suc (suc (suc (suc (suc (suc (suc (suc (suc (suc (suc zero)))))))))))))) =
    submit_page_responses
queue_at _ = speak_responses

queue_at-number_of : (q : Queue) → queue_at (number_of q) ≡ q
unfolding queue_at
queue_at-number_of send_message_responses = refl
queue_at-number_of bcp_validation_results = refl
queue_at-number_of send_email_responses = refl
queue_at-number_of github_responses = refl
queue_at-number_of save_draft_responses = refl
queue_at-number_of move_email_responses = refl
queue_at-number_of create_folder_responses = refl
queue_at-number_of restart_agent_responses = refl
queue_at-number_of calendar_query_responses = refl
queue_at-number_of calendar_create_responses = refl
queue_at-number_of calendar_update_responses = refl
queue_at-number_of calendar_delete_responses = refl
queue_at-number_of submit_item_responses = refl
queue_at-number_of submit_image_responses = refl
queue_at-number_of submit_page_responses = refl
queue_at-number_of speak_responses = refl

abbrev pub same_queue : Queue → Queue → Bool
same_queue p q = nat_eq (number_of p) (number_of q)

pub same_queue_iff : (p q : Queue) → (same_queue p q ≡ true) ↔ (p ≡ q)
same_queue_iff p q = (
  λ e.
      sym (queue_at-number_of p)
      ∙ ap queue_at ((nat_eq_iff (number_of p) (number_of q)).0 e)
      ∙ queue_at-number_of q,
  λ e. (nat_eq_iff (number_of p) (number_of q)).1 (ap number_of e),
)

instance abbrev pub Queue_eq : Eq Queue
Queue_eq = record { equals = same_queue; equals_iff = same_queue_iff }

-- The reader task: it reads, it has seen the end of stdin, or an exception has ended it.
pub data Task : Type 0 where
  reading : Task
  ended : Task
  crashed : Task

abbrev pub is_reading : Task → Bool
is_reading reading = true
is_reading ended = false
is_reading crashed = false

-- `errors` counts the error events that the reader has written to stdout.
pub record Dispatcher : Type 0 where
  pub control_queue : List (Option Members)
  pub interrupt_event : Bool
  pub responses : Queue → List Message
  pub active_subscriptions : Json
  pub errors : ℕ
  pub task : Task

unfoldable pub new_dispatcher : Dispatcher
new_dispatcher = record {
  control_queue = [];
  interrupt_event = false;
  responses = λ q. [];
  active_subscriptions = array nil;
  errors = 0;
  task = reading;
}

-- `await queue.put(response)`
unfoldable pub put : Queue → Message → Dispatcher → Dispatcher
put q m d = record d {
  responses = λ p. if p == q then d.responses p ++ (m ∷ []) else d.responses p;
}

-- `await self.control_queue.put(data)`
unfoldable pub put_control : Option Members → Dispatcher → Dispatcher
put_control m d = record d { control_queue = d.control_queue ++ (m ∷ []) }

-- `while not q.empty(): q.get_nowait()`
unfoldable pub get_all : List Message → List Message
get_all [] = []
get_all (m ∷ ms) = get_all ms

abbrev pub stale_queues : List Queue
stale_queues =
    send_message_responses ∷ bcp_validation_results ∷ send_email_responses ∷ github_responses
    ∷ save_draft_responses ∷ move_email_responses ∷ create_folder_responses
    ∷ restart_agent_responses ∷ calendar_query_responses ∷ calendar_create_responses
    ∷ calendar_update_responses ∷ calendar_delete_responses ∷ submit_item_responses
    ∷ submit_image_responses ∷ submit_page_responses ∷ speak_responses ∷ []

unfoldable pub drain : List Queue → Dispatcher → Dispatcher
unfolding get_all
drain [] d = d
drain (q ∷ qs) d =
    drain qs record d { responses = λ p. if p == q then get_all (d.responses p) else d.responses p }

unfoldable pub drain_stale_responses : Dispatcher → Dispatcher
unfolding drain
drain_stale_responses d = drain stale_queues d
