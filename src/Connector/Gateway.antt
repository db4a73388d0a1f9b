-- ===== src/Connector/Gateway.antt =====
-- connector/connector/gateway_client.py and the decoding of connector/connector/protocol.py: the frames of
-- the gateway and the reconnecting. `json.loads` and `int` of a text are the record `FrameLibrary`.
-- Durations are milliseconds.
pub mod Reconnect
use tri_onyx.Base.{
  ℕ, ◌*◌, min, List, [], ◌∷◌, ◌++◌, Option, none, some, String, Bool, true, false, ◌⊎◌, inl, inr,
  ◌==◌, if◌then◌else◌, String_eq, contains,
}
use tri_onyx.Dict.{Dict, get}
use tri_onyx.Runtime.Json.{
  Json, null, boolean, number, string, array, object, nil, Items, Members, empty, member, find_or,
}

pub record FrameLibrary : Type 0 where
  -- `inl` where it raises JSONDecodeError
  pub json_loads : String → String ⊎ Json
  -- `int(text)`; `none` where it raises ValueError
  pub int_of_text : String → Option ℕ

pub record ActionRequest : Type 0 where
  pub action : Json
  pub channel : Json
  pub params : Json

pub record ApprovalFrame : Type 0 where
  pub approval_id : Json
  pub from_agent : Json
  pub to_agent : Json
  pub category : ℕ
  pub query_summary : Json
  pub response_content : Json
  pub anomalies : Json
  pub kind : Json

pub record MirrorFrame : Type 0 where
  pub from_agent : Json
  pub to_agent : Json
  pub message_type : Json
  pub content : Json

pub record PromptMirror : Type 0 where
  pub agent_name : Json
  pub source : Json
  pub content : Json

-- `outbound_frame`: the type, and the fields that its class has.
pub data Decoded : Type 0 where
  registered_frame : Json → Decoded
  heartbeat_frame : Json → Json → Decoded
  action_frame : ActionRequest → Decoded
  mirror_frame : MirrorFrame → Decoded
  prompt_mirror_frame : PromptMirror → Decoded
  approval_frame : ApprovalFrame → Decoded
  outbound_frame : String → Members → Decoded
  unknown_frame : Members → Decoded

-- The fields of `OutboundMessage`, but for the type.
abbrev pub base_fields : List String
base_fields = "channel" ∷ "agent_name" ∷ "session_id" ∷ []

abbrev pub outbound_types : Dict String (List String)
outbound_types =
    ("agent_text", base_fields ++ ("content" ∷ "thread_id" ∷ []))
    ∷ ("agent_typing", base_fields ++ ("is_typing" ∷ []))
    ∷ ("agent_result", base_fields ++ ("content" ∷ "thread_id" ∷ []))
    ∷ ("agent_error", base_fields ++ ("error" ∷ "message" ∷ []))
    ∷ (
      "agent_step",
      base_fields
          ++ ("step_type" ∷ "name" ∷ "input" ∷ "content" ∷ "is_error" ∷ "duration_ms" ∷ "num_turns"
              ∷ "cost_usd" ∷ []),
    )
    ∷ ("article", base_fields ++ ("title" ∷ "url" ∷ "source" ∷ "summary" ∷ []))
    ∷ ("listing", base_fields ++ ("title" ∷ "url" ∷ "price" ∷ "location" ∷ []))
    ∷ []

-- {k: v for k, v in data.items() if k in valid and k != "type"}; `type` is none of the names.
unfoldable pub keep_fields : List String → Members → Members
keep_fields valid empty = empty
keep_fields valid (member k v rest) =
    let kept = keep_fields valid rest in if contains k valid then member k v kept else kept

-- What a frame does: it is dropped, handed to its handler, or it raises AttributeError out of the
-- loop, since `data.get` is of no dict.
pub data FrameOutcome : Type 0 where
  dropped : FrameOutcome
  handled : Decoded → FrameOutcome
  raised : FrameOutcome

abbrev pub decoded_outcome : Option Decoded → FrameOutcome
decoded_outcome none = dropped
decoded_outcome (some m) = handled m

-- The connection: whether the gateway has acknowledged it, and what the handlers were given.
pub record Connection : Type 0 where
  pub registered : Bool
  pub handed : List Decoded

-- The acknowledgement sets the event; an unknown frame is logged; any other goes to its handler.
abbrev pub hand : Decoded → Connection → Connection
hand (registered_frame id) c = record c { registered = true }
hand (unknown_frame d) c = c
hand m c = record c { handed = c.handed ++ (m ∷ []) }

abbrev pub value_outcome : (Members → Option Decoded) → Json → FrameOutcome
value_outcome read (object d) = decoded_outcome (read d)
value_outcome read _ = raised

module _ (lib : FrameLibrary) where
  -- `int(value)`; `none` where it raises ValueError or TypeError
  abbrev pub int_of : Json → Option ℕ
  int_of (number n) = some n
  int_of (boolean true) = some 1
  int_of (boolean false) = some 0
  int_of (string s) = lib.int_of_text s
  int_of _ = none

  unfoldable pub decode_approval : Members → Option Decoded
  unfolding find_or
  decode_approval d = elim (int_of (find_or "category" (number 0) d)) [
    | none ↦ none
    | some category ↦ some (
        approval_frame record {
          approval_id = find_or "approval_id" (string "") d;
          from_agent = find_or "from_agent" (string "") d;
          to_agent = find_or "to_agent" (string "") d;
          category = category;
          query_summary = find_or "query_summary" (string "") d;
          response_content = find_or "response_content" (string "") d;
          anomalies = find_or "anomalies" (array nil) d;
          kind = find_or "kind" (string "bcp") d;
        })
  ]

  -- The tests on the type, in their order.
  unfoldable pub decode_type : String → Members → Option Decoded
  unfolding find_or get keep_fields decode_approval
  decode_type t d =
      if t == "registered"
      then some (registered_frame (find_or "connector_id" (string "") d))
      else if t == "heartbeat_notification"
      then some
          (heartbeat_frame (find_or "agent_name" (string "") d) (find_or "content" (string "") d))
      else if t == "action_request"
      then some (
          action_frame record {
            action = find_or "action" (string "") d;
            channel = find_or "channel" (object empty) d;
            params = find_or "params" (object empty) d;
          })
      else if t == "inter_agent_mirror"
      then some (
          mirror_frame record {
            from_agent = find_or "from_agent" (string "") d;
            to_agent = find_or "to_agent" (string "") d;
            message_type = find_or "message_type" (string "text") d;
            content = find_or "content" (string "") d;
          })
      else if t == "prompt_mirror"
      then some (
          prompt_mirror_frame record {
            agent_name = find_or "agent_name" (string "") d;
            source = find_or "source" (string "web") d;
            content = find_or "content" (string "") d;
          })
      else if t == "approval_request"
      then decode_approval d
      else elim (get t outbound_types) [
        | none ↦ some (unknown_frame d)
        | some fields ↦ some (outbound_frame t (keep_fields fields d))
      ]

  -- A type that is a list or a dict cannot be looked up: TypeError.
  abbrev pub decode_with_type : Json → Members → Option Decoded
  decode_with_type (string t) d = decode_type t d
  decode_with_type (array items) d = none
  decode_with_type (object members) d = none
  decode_with_type _ d = some (unknown_frame d)

  -- `decode`, of a frame that holds a dict; `none` where it raises ValueError or TypeError.
  unfoldable pub decode : Members → Option Decoded
  unfolding decode_type find_or
  decode d = decode_with_type (find_or "type" (string "") d) d

  unfoldable pub handle_frame : String → FrameOutcome
  unfolding decode
  handle_frame raw = elim (lib.json_loads raw) [
    | inl problem ↦ dropped
    | inr value ↦ value_outcome decode value
  ]

  -- The frames of one connection, and whether one of them raises.
  unfoldable pub receive : List String → Connection → Connection × Bool
  unfolding handle_frame
  receive [] c = (c, false)
  receive (raw ∷ frames) c = elim (handle_frame raw) [
    | dropped ↦ receive frames c
    | handled m ↦ receive frames (hand m c)
    | raised ↦ (c, true)
  ]

  -- `_register` and `_run`: the acknowledgement is awaited anew, and is gone when the connection is.
  unfoldable pub run_connection : List String → Connection → Connection × Bool
  unfolding receive
  run_connection frames c =
      let (c', failed) = receive frames (record c { registered = false }) in
      (record c' { registered = false }, failed)

abbrev pub initial_backoff : ℕ
initial_backoff = 1000

abbrev pub max_backoff : ℕ
max_backoff = 60000

abbrev pub backoff_factor : ℕ
backoff_factor = 2

-- One round of `_connect_loop`: no connection, one that an exception ended, or one that was closed in
-- good order.
pub data Attempt : Type 0 where
  refused lost closed : Attempt

-- The sleeps of the loop, one for each round that ended by an exception.
unfoldable pub connect_loop : ℕ → List Attempt → List ℕ
connect_loop backoff [] = []
connect_loop backoff (refused ∷ attempts) =
    backoff ∷ connect_loop (min (backoff * backoff_factor) max_backoff) attempts
connect_loop backoff (lost ∷ attempts) =
    initial_backoff ∷ connect_loop (min (initial_backoff * backoff_factor) max_backoff) attempts
connect_loop backoff (closed ∷ attempts) = connect_loop initial_backoff attempts
