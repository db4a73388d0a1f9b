-- ===== src/Runtime/Dispatcher/Drained.antt =====
-- runtime/agent_runner.py, InboundDispatcher.drain_stale_responses.
use tri_onyx.Base.{
  List, [], ◌∷◌, true, ◌≡◌, refl, sym, inl, inr, ◌==◌, if◌then◌else◌, Bool-cases, contains,
  equals_refl, arith,
}
use tri_onyx.Runtime.Protocol.Classes.{Message}
use tri_onyx.Runtime.Dispatcher.Queues.{
  Queue, Queue_eq, send_message_responses, bcp_validation_results, send_email_responses,
  github_responses, save_draft_responses, move_email_responses, create_folder_responses,
  restart_agent_responses, calendar_query_responses, calendar_create_responses,
  calendar_update_responses, calendar_delete_responses, submit_item_responses,
  submit_image_responses, submit_page_responses, speak_responses, Dispatcher, get_all, stale_queues,
  drain, drain_stale_responses,
}

get_all-empty : (ms : List Message) → get_all ms ≡ []
unfolding get_all
get_all-empty [] = refl
get_all-empty (m ∷ ms) = get_all-empty ms

one_drained : (p q : Queue) (ms : List Message) → ms ≡ [] → (if p == q then get_all ms else ms) ≡ []
one_drained p q ms e = elim (Bool-cases (p == q)) [
  | inl same ↦ rw same (get_all-empty ms)
  | inr other ↦ rw other e
]

stays_empty :
    (qs : List Queue) (p : Queue) (d : Dispatcher)
    → d.responses p ≡ []
    → (drain qs d).responses p ≡ []
unfolding drain
stays_empty [] p d e = e
stays_empty (q ∷ qs) p d e = stays_empty qs p _ (one_drained p q (d.responses p) e)

drained :
    (qs : List Queue) (p : Queue) (d : Dispatcher)
    → contains p qs ≡ true
    → (drain qs d).responses p ≡ []
unfolding drain
drained [] p d h = absurd (ground (arith, h))
drained (q ∷ qs) p d h = elim (Bool-cases (q == p)) [
  | inl same ↦
      let e : q ≡ p = (Queue_eq.equals_iff q p).0 same in
      stays_empty qs p _ (rw (sym e) (rw (equals_refl q) (get_all-empty (d.responses q))))
  | inr other ↦ drained qs p _ (ground (arith, h, other))
]

every_queue : (p : Queue) → contains p stale_queues ≡ true
every_queue send_message_responses = refl
every_queue bcp_validation_results = refl
every_queue send_email_responses = refl
every_queue github_responses = refl
every_queue save_draft_responses = refl
every_queue move_email_responses = refl
every_queue create_folder_responses = refl
every_queue restart_agent_responses = refl
every_queue calendar_query_responses = refl
every_queue calendar_create_responses = refl
every_queue calendar_update_responses = refl
every_queue calendar_delete_responses = refl
every_queue submit_item_responses = refl
every_queue submit_image_responses = refl
every_queue submit_page_responses = refl
every_queue speak_responses = refl

drain-others :
    (qs : List Queue) (d : Dispatcher)
    → ((drain qs d).control_queue ≡ d.control_queue)
      × ((drain qs d).interrupt_event ≡ d.interrupt_event)
      × ((drain qs d).active_subscriptions ≡ d.active_subscriptions)
      × ((drain qs d).task ≡ d.task)
unfolding drain
drain-others [] d = (refl, refl, refl, refl)
drain-others (q ∷ qs) d = drain-others qs _

-- After an interrupt no response is left in any queue; the messages of the main loop, the
-- subscriptions, the interrupt event and the reader are what they were.
pub drain_leaves_control :
    (d : Dispatcher)
    → ((q : Queue) → (drain_stale_responses d).responses q ≡ [])
      × ((drain_stale_responses d).control_queue ≡ d.control_queue)
      × ((drain_stale_responses d).interrupt_event ≡ d.interrupt_event)
      × ((drain_stale_responses d).active_subscriptions ≡ d.active_subscriptions)
      × ((drain_stale_responses d).task ≡ d.task)
unfolding drain_stale_responses
drain_leaves_control d =
    let (control, event, subscriptions, task) = drain-others stale_queues d in
    (λ q. drained stale_queues q d (every_queue q), control, event, subscriptions, task)
