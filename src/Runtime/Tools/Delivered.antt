-- ===== src/Runtime/Tools/Delivered.antt =====
-- runtime/agent_runner.py: from the line of the gateway's answer to the text that the model is told.
use tri_onyx.Base.{
  List, [], ◌∷◌, ◌++◌, map, String, Bool, true, ◌≡◌, ◌≤◌, ◌+◌, refl, sym, ap, ◌∙◌, arith,
  if◌then◌else◌, All, length, equals_refl,
}
use mathlib.Core.Path.{subst}
use tri_onyx.Runtime.Json.{truthy, Members}
use tri_onyx.Runtime.Protocol.Classes.{Message}
use tri_onyx.Runtime.Dispatcher.Queues.{Queue, Queue_eq, Dispatcher, reading}
use tri_onyx.Runtime.Dispatcher.Reading.{LineLibrary, read_lines}
use tri_onyx.Runtime.Dispatcher.Sorting.{IsReadable, classify, reply_part, gather}
use tri_onyx.Runtime.Dispatcher.Order.{read_lines-Adds}
use tri_onyx.Runtime.Waiting.{Waited, answered, timed_out, answers, wait_for_matching_response}
use tri_onyx.Runtime.Waiting.Search.{Got, AreOthers, total, wait_for_finds_late}
use tri_onyx.Runtime.Tools.{
  ShowLibrary, conclude, ask_gateway, set_queue, success_of, detail_of, ◌+s◌,
}

module _ (lib : ShowLibrary) where
  -- What the model is told of an answer.
  abbrev pub report : (Message → String) → Message → String
  report success m =
      if truthy (success_of m) then success m else "Error: " +s lib.show (detail_of m)

  conclude-Got :
      (timeout : String) (success : Message → String) (m : Message) (w : Waited)
      → Got m w
      → conclude lib timeout success "Error: " w ≡ report success m
  unfolding conclude
  conclude-Got timeout success m (answered n queue unread) e = ap (report success) e
  conclude-Got timeout success m (timed_out queue) e = absurd e

module _ (io : LineLibrary) (q : Queue) where
  -- What the reader puts into the queue in each round of a wait, from the lines that it reads before the
  -- round.
  abbrev pub arrivals : List (List String) → Dispatcher → List (List Message)
  arrivals [] d = []
  arrivals (lines ∷ rounds) d =
      let d' = read_lines io lines (set_queue q [] d) in d'.responses q ∷ arrivals rounds d'

  abbrev pub AreReadable : List String → Type 0
  AreReadable = All (λ l. IsReadable (classify io l))

  -- The answers for the tool among the lines.
  abbrev pub replies : List String → List Message
  replies = gather (reply_part q) io

  emptied : (d : Dispatcher) → (set_queue q [] d).responses q ≡ []
  emptied d = rw (equals_refl q) refl

  arrivals_lem :
      (rounds : List (List String)) (d : Dispatcher)
      → d.task ≡ reading
      → All AreReadable rounds
      → arrivals rounds d ≡ map replies rounds
  arrivals_lem [] d e h = refl
  arrivals_lem (lines ∷ rounds) d e (h, hs) =
      let adds = read_lines-Adds io lines (set_queue q [] d) e h in
      let here : (read_lines io lines (set_queue q [] d)).responses q ≡ replies lines =
        adds.reply q ∙ ap (λ ms. ms ++ replies lines) (emptied d) in
      rw (here, arrivals_lem rounds (read_lines io lines (set_queue q [] d)) (adds.goes_on ∙ e) hs)
        refl

  map-rounds :
      (early later : List (List String)) (round : List String)
      → map replies (early ++ (round ∷ later))
        ≡ map replies early ++ (replies round ∷ map replies later)
  map-rounds [] later round = refl
  map-rounds (lines ∷ early) later round =
      ap (λ r. replies lines ∷ r) (map-rounds early later round)

  length-rounds : (later : List (List String)) → length (map replies later) ≡ length later
  length-rounds [] = refl
  length-rounds (lines ∷ later) = omega (arith, length-rounds later)

module _ (io : LineLibrary) (q : Queue) (ours : Message → Bool) where
  All-map :
      (early : List (List String))
      → All (λ lines. AreOthers ours (replies io q lines)) early
      → All (AreOthers ours) (map (replies io q) early)
  All-map [] h = tt
  All-map (lines ∷ early) (h, hs) = (h, All-map early hs)

module _ (lib : ShowLibrary) where
  -- A handler tells the model of the first answer to its own request that the reader meets while the handler
  -- waits, in whichever round: it is not mistaken for an answer to another request, in the queue before or
  -- read meanwhile, and it is not lost. No line may end the reader, and the wait must last for a further
  -- round for each answer to another request that is in the queue or comes before.
  pub answer_delivered :
      (io : LineLibrary) (d : Dispatcher) (q : Queue) (request_id : String)
      (early later : List (List String)) (round : List String) (before after : List Message)
      (m : Message) (timeout : String) (success : Message → String) (request : Members)
      → d.task ≡ reading
      → All (AreReadable io q) (early ++ (round ∷ later))
      → AreOthers (answers request_id) (d.responses q)
      → All (λ lines. AreOthers (answers request_id) (replies io q lines)) early
      → replies io q round ≡ before ++ (m ∷ after)
      → AreOthers (answers request_id) before
      → answers request_id m ≡ true
      → length (d.responses q) + (total (map (replies io q) early) + length before) ≤ length later
      → (ask_gateway lib timeout success request request_id q
          (arrivals io q (early ++ (round ∷ later)) d)
          d).told
        ≡ report lib success m
  unfolding ask_gateway wait_for_matching_response
  answer_delivered io d q request_id early later round before after m timeout success request e
        readable queued others here first ours enough =
      let rounds : map (replies io q) early ++ ((before ++ (m ∷ after)) ∷ map (replies io q) later)
          ≡ arrivals io q (early ++ (round ∷ later)) d =
        sym (
          arrivals_lem io q (early ++ (round ∷ later)) d e readable
          ∙ map-rounds io q early later round
          ∙ ap (λ r. map (replies io q) early ++ (r ∷ map (replies io q) later)) here) in
      conclude-Got lib timeout success m _ (
        subst (λ r. Got m (wait_for_matching_response request_id r (d.responses q))) rounds
          (wait_for_finds_late (answers request_id) (map (replies io q) early) before m after
            (map (replies io q) later) (d.responses q) queued
            (All-map io q (answers request_id) early others) first ours
            (omega (arith, length-rounds io q later, enough))))
