-- ===== src/Examples/Reader.antt =====
-- The theorems on the reader of stdin, the handlers of the tools and the main loop, at small sessions.
use tri_onyx.Base.{
  List, [], ◌∷◌, ◌++◌, Option, none, some, String, true, false, inl, inr, ◌≡◌, refl, ◌∙◌, ◌==◌,
  if◌then◌else◌, String_eq, map, All, ◌⊎◌, arith, length, ◌+◌, ◌≤◌,
}
use tri_onyx.Runtime.Json.{Json, string, number, boolean, object, Members, empty, member}
use tri_onyx.Runtime.Protocol.Classes.{Message, send_message_response, reply_of}
use tri_onyx.Runtime.Protocol.Replies.{send_message_from_dict}
use tri_onyx.Runtime.Protocol.Table.{type_of, inbound_parser, parse_inbound}
use tri_onyx.Runtime.Dispatcher.Queues.{reading, send_message_responses, new_dispatcher}
use tri_onyx.Runtime.Dispatcher.Reading.{LineLibrary, reader_loop}
use tri_onyx.Runtime.Dispatcher.Sorting.{IsReadable, classify, gather, control_part}
use tri_onyx.Runtime.Dispatcher.Order.{reader_loop_sorts}
use tri_onyx.Runtime.Tools.{ShowLibrary, ask_gateway}
use tri_onyx.Runtime.Tools.Delivered.{arrivals, AreReadable, replies, answer_delivered}
use tri_onyx.Runtime.Waiting.{answers}
use tri_onyx.Runtime.Waiting.Search.{AreOthers, total}
use tri_onyx.Runtime.Session.{TextLibrary, Stream}
use tri_onyx.Runtime.Loop.{World, new_runner, Event, control, is_running, main_loop}
use tri_onyx.Runtime.Loop.Stopping.{stops_at_eof, waits_for_ever}
use tri_onyx.Runtime.Loop.Started.{is_start, nothing_before_start}
use tri_onyx.Runtime.Loop.Answered.{IsAnswered, main_loop-IsAnswered}

abbrev pub prompt_msg : Members
prompt_msg = member "type" (string "prompt") (member "content" (string "hello") empty)

abbrev pub reply_msg : Members
reply_msg =
    member "type" (string "send_message_response")
      (member "request_id" (string "r1") (member "success" (boolean true) empty))

abbrev pub late_msg : Members
late_msg = member "type" (string "send_message_response") (member "request_id" (string "r0") empty)

abbrev pub loads : String → String ⊎ Json
loads s =
    if s == "prompt"
    then inr (object prompt_msg)
    else if s == "reply"
    then inr (object reply_msg)
    else if s == "late"
    then inr (object late_msg)
    else if s == "5"
    then inr (number 5)
    else inl "no JSON"

abbrev pub io : LineLibrary
io = record { strip = λ s. s; json_loads = loads }

abbrev pub lines : List String
lines = "prompt" ∷ "late" ∷ "nonsense" ∷ "reply" ∷ []

every_line_reads : All (λ l. IsReadable (classify io l)) lines
unfolding type_of
every_line_reads = (tt, (tt, (tt, (tt, tt))))

is_reading_at_start : new_dispatcher.task ≡ reading
unfolding new_dispatcher
is_reading_at_start = refl

abbrev both_read : List (Option Members)
both_read = some prompt_msg ∷ none ∷ []

control_read :
    new_dispatcher.control_queue ++ (gather control_part io lines ++ (none ∷ [])) ≡ both_read
unfolding new_dispatcher type_of
control_read = refl

reader_loop_sorts_example : (reader_loop io lines new_dispatcher).control_queue ≡ both_read
reader_loop_sorts_example =
    (reader_loop_sorts io lines new_dispatcher is_reading_at_start every_line_reads).0
    ∙ control_read

abbrev pub plain : ShowLibrary
plain = record { show = λ v. "shown"; show_number = λ n. "number"; dumps = λ v. "json" }

abbrev own_reply : Message
own_reply =
    send_message_response
      record { request_id = string "r1"; success = boolean true; detail = string "" }

-- A late answer to another request is read in the first round of the wait, and the own one in the second.
abbrev early : List (List String)
early = ("late" ∷ []) ∷ []

abbrev own_round : List String
own_round = "prompt" ∷ "reply" ∷ []

abbrev later : List (List String)
later = [] ∷ []

rounds_read : All (AreReadable io send_message_responses) (early ++ (own_round ∷ later))
unfolding type_of
rounds_read = ((tt, tt), ((tt, (tt, tt)), (tt, tt)))

queued_nothing : AreOthers (answers "r1") (new_dispatcher.responses send_message_responses)
unfolding new_dispatcher
queued_nothing = tt

others_first :
    All (λ lines. AreOthers (answers "r1") (replies io send_message_responses lines)) early
unfolding type_of inbound_parser send_message_from_dict
others_first = ((refl, tt), tt)

own_read : replies io send_message_responses own_round ≡ [] ++ (own_reply ∷ [])
unfolding type_of inbound_parser send_message_from_dict
own_read = refl

enough_rounds :
    length (new_dispatcher.responses send_message_responses)
      + (total (map (replies io send_message_responses) early) + length {A = Message} [])
    ≤ length later
unfolding new_dispatcher type_of inbound_parser send_message_from_dict
enough_rounds = omega arith

answer_delivered_example :
    (ask_gateway plain "timeout"
      (λ m. "Message delivered.")
      empty
      "r1"
      send_message_responses
      (arrivals io send_message_responses (early ++ (own_round ∷ later)) new_dispatcher)
      new_dispatcher).told
    ≡ "Message delivered."
answer_delivered_example =
    answer_delivered plain io new_dispatcher send_message_responses "r1" early later own_round [] []
      own_reply "timeout" (λ m. "Message delivered.") empty is_reading_at_start rounds_read
      queued_nothing others_first own_read tt refl enough_rounds

abbrev broken_lines : List String
broken_lines = [] ++ ("5" ∷ ("prompt" ∷ []))

abbrev no_text : TextLibrary
no_text = record { size = λ s. 0; first = λ n s. s; dumps = λ v. "" }

abbrev silent : Stream
silent = record { query_error = none; steps = []; elapsed = 5 }

abbrev pub still_world : World
still_world = record {
  texts = no_text;
  reflection = false;
  sdk = λ prompts. silent;
  follow_up = λ prompts. silent;
  refusal = λ msg. "refused";
}

waits_for_ever_example :
    main_loop still_world
      (map control (reader_loop io broken_lines new_dispatcher).control_queue)
      new_runner
    ≡ main_loop still_world
        (map control (new_dispatcher.control_queue ++ gather control_part io []))
        new_runner
waits_for_ever_example =
    waits_for_ever still_world io [] "5" ("prompt" ∷ []) new_dispatcher new_runner
      is_reading_at_start tt refl

stops_at_eof_example :
    is_running
      (main_loop still_world
        (map control (reader_loop io lines new_dispatcher).control_queue)
        new_runner).status
    ≡ false
stops_at_eof_example =
    stops_at_eof still_world io lines new_dispatcher new_runner is_reading_at_start every_line_reads

no_start : All (λ e. is_start e ≡ false) (control (some prompt_msg) ∷ [])
unfolding parse_inbound tri_onyx.Runtime.Protocol.Classes.prompt_from_dict
no_start = (refl, tt)

nothing_yet : IsAnswered new_runner
unfolding new_runner
nothing_yet = omega arith

nothing_before_start_example :
    (main_loop still_world (control (some prompt_msg) ∷ []) new_runner).prompts ≡ []
nothing_before_start_example =
    (nothing_before_start still_world (control (some prompt_msg) ∷ []) no_start).0

abbrev start_msg : Members
start_msg =
    member "type" (string "start")
      (member "agent" (object (member "model" (string "m") empty)) empty)

abbrev session : List Event
session = control (some start_msg) ∷ control (some prompt_msg) ∷ []

main_loop-IsAnswered_example : IsAnswered (main_loop still_world session new_runner)
main_loop-IsAnswered_example =
    main_loop-IsAnswered still_world (λ prompts. tt) (λ prompts. tt) session new_runner nothing_yet
