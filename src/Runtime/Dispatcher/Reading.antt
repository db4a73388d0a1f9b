-- ===== src/Runtime/Dispatcher/Reading.antt =====
-- runtime/agent_runner.py, InboundDispatcher._reader_loop.
use tri_onyx.Base.{
  ◌+◌, List, [], ◌∷◌, none, some, String, true, ◌⊎◌, inl, inr, ◌==◌, if◌then◌else◌, String_eq,
}
use tri_onyx.Runtime.Json.{Json, object, Members}
use tri_onyx.Runtime.Protocol.Classes.{subscriptions_of, bcp_validation_from_dict}
use tri_onyx.Runtime.Protocol.Replies.{
  send_message_from_dict, send_email_from_dict, github_from_dict, save_draft_from_dict,
  move_email_from_dict, create_folder_from_dict, restart_agent_from_dict, calendar_query_from_dict,
  calendar_create_from_dict, calendar_update_from_dict, calendar_delete_from_dict,
  submit_item_from_dict, submit_image_from_dict, submit_page_from_dict, speak_from_dict,
}
use tri_onyx.Runtime.Protocol.Table.{
  Kind, start, prompt, interrupt, shutdown, memory_save, bcp_query, bcp_query_error, bcp_delivery,
  bcp_validation, bcp_subscriptions, send_message, send_email, github, save_draft, move_email,
  create_folder, restart_agent, calendar_query, calendar_create, calendar_update, calendar_delete,
  submit_item, submit_image, submit_page, speak, TypeField, known, unknown, unhashable, type_of,
  inbound_parser,
}
use tri_onyx.Runtime.Dispatcher.Queues.{
  ended, crashed, is_reading, Dispatcher, put, put_control, send_message_responses,
  bcp_validation_results, send_email_responses, github_responses, save_draft_responses,
  move_email_responses, create_folder_responses, restart_agent_responses, calendar_query_responses,
  calendar_create_responses, calendar_update_responses, calendar_delete_responses,
  submit_item_responses, submit_image_responses, submit_page_responses, speak_responses,
}

pub record LineLibrary : Type 0 where
  pub strip : String → String
  -- `inl` with the text of the error where it raises JSONDecodeError
  pub json_loads : String → String ⊎ Json

-- The last branch of the chain of tests: `if msg_type in _INBOUND_PARSERS`.
unfoldable pub put_recognised : Kind → Members → Dispatcher → Dispatcher
unfolding inbound_parser put_control
put_recognised k msg d = elim (inbound_parser k) [
  | none ↦ d
  | some parser ↦ put_control (some msg) d
]

-- The chain of tests on `msg_type`.
unfoldable pub route : Kind → Members → Dispatcher → Dispatcher
unfolding put put_control put_recognised
route send_message msg d = put send_message_responses (send_message_from_dict msg) d
route send_email msg d = put send_email_responses (send_email_from_dict msg) d
route github msg d = put github_responses (github_from_dict msg) d
route save_draft msg d = put save_draft_responses (save_draft_from_dict msg) d
route move_email msg d = put move_email_responses (move_email_from_dict msg) d
route create_folder msg d = put create_folder_responses (create_folder_from_dict msg) d
route restart_agent msg d = put restart_agent_responses (restart_agent_from_dict msg) d
route calendar_query msg d = put calendar_query_responses (calendar_query_from_dict msg) d
route calendar_create msg d = put calendar_create_responses (calendar_create_from_dict msg) d
route calendar_update msg d = put calendar_update_responses (calendar_update_from_dict msg) d
route calendar_delete msg d = put calendar_delete_responses (calendar_delete_from_dict msg) d
route submit_item msg d = put submit_item_responses (submit_item_from_dict msg) d
route submit_image msg d = put submit_image_responses (submit_image_from_dict msg) d
route submit_page msg d = put submit_page_responses (submit_page_from_dict msg) d
route speak msg d = put speak_responses (speak_from_dict msg) d
route interrupt msg d = record d { interrupt_event = true }
route bcp_query msg d = put_control (some msg) d
route bcp_query_error msg d = put_control (some msg) d
route bcp_delivery msg d = put_control (some msg) d
route bcp_validation msg d = put bcp_validation_results (bcp_validation_from_dict msg) d
route bcp_subscriptions msg d = record d { active_subscriptions = subscriptions_of msg }
route start msg d = put_recognised start msg d
route prompt msg d = put_recognised prompt msg d
route shutdown msg d = put_recognised shutdown msg d
route memory_save msg d = put_recognised memory_save msg d

-- A type that is a list or a dict is no key of the table of parsers: the test raises TypeError.
unfoldable pub dispatch_type : TypeField → Members → Dispatcher → Dispatcher
unfolding route
dispatch_type (known k) msg d = route k msg d
dispatch_type unknown msg d = d
dispatch_type unhashable msg d = record d { task = crashed }

unfoldable pub dispatch : Members → Dispatcher → Dispatcher
unfolding dispatch_type
dispatch msg d = dispatch_type (type_of msg) msg d

-- `data.get` raises AttributeError where the line is no dict.
unfoldable pub dispatch_value : Json → Dispatcher → Dispatcher
unfolding dispatch
dispatch_value (object msg) d = dispatch msg d
dispatch_value _ d = record d { task = crashed }

module _ (lib : LineLibrary) where
  unfoldable pub read_text : String → Dispatcher → Dispatcher
  unfolding dispatch_value
  read_text text d = elim (lib.json_loads text) [
    | inl problem ↦ record d { errors = d.errors + 1 }
    | inr value ↦ dispatch_value value d
  ]

  -- One line that was read, which is not the end of stdin.
  unfoldable pub read_line : String → Dispatcher → Dispatcher
  unfolding read_text
  read_line line d = let text = lib.strip line in if text == "" then d else read_text text d

  -- An exception in the loop's body ends the task, and no line is read after it.
  unfoldable pub read_lines : List String → Dispatcher → Dispatcher
  unfolding read_line
  read_lines [] d = d
  read_lines (line ∷ lines) d = if is_reading d.task then read_lines lines (read_line line d) else d

  unfoldable pub at_eof : Dispatcher → Dispatcher
  unfolding put_control
  at_eof d = if is_reading d.task then record (put_control none d) { task = ended } else d

  -- The reader from `d` on, when stdin holds `lines` and then ends.
  unfoldable pub reader_loop : List String → Dispatcher → Dispatcher
  unfolding read_lines at_eof
  reader_loop lines d = at_eof (read_lines lines d)
