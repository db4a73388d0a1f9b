-- ===== src/Mcp/Bridge.antt =====
-- mcp_server/mcp_server/gateway_bridge.py: the turns of agents and what their frames do to them.
-- A turn is an object that several calls may hold, so turns live in `heap` under an identity and the
-- dict `turns` holds identities. `time.monotonic()` is an argument. A task is represented by whether it
-- still runs (`watching`). The socket (`GatewayClient`) and asyncio are not part of the model: what
-- they call, and when, is a sequence of steps.
pub mod Calls
pub mod Settled
pub mod Swallowed
pub mod Resync
pub mod Asked
pub mod Lost
pub mod Looked
use Prim.Native.String.{◌++◌}
use tri_onyx.Base.{
  ℕ, ◌+◌, ◌-◌, String, Bool, true, false, not, ◌&&◌, List, [], ◌∷◌, Option, none, some, ltb, leb,
  ◌==◌, if◌then◌else◌, ◌>>=◌, ℕ_eq, String_eq, Key_eq,
}
use tri_onyx.Dict.{Dict, get, put, remove, values}

-- str.strip, f"{seconds:.0f}" and the cut to `_MAX_PROMPT_ECHO` characters
pub record TextLibrary : Type 0 where
  pub strip : String → String
  pub seconds : ℕ → String
  pub echo : String → String

-- The agent and the room.
abbrev pub Key : Type 0
Key = String × String

pub data Phase : Type 0 where
  sent starting ready tool writing : Phase

-- _PHASE_RANK
abbrev pub rank : Phase → ℕ
rank sent = 0
rank starting = 1
rank ready = 2
rank tool = 3
rank writing = 3

-- asyncio.Future[str]
pub data Future : Type 0 where
  unsettled : Future
  replied failed : String → Future

pub record Turn : Type 0 where
  pub future : Future
  pub key : Key
  pub started_at : ℕ
  pub hard_timeout : ℕ
  pub message : String
  pub texts : List String
  pub phase : Phase
  pub tool_name : String
  pub finished_at : Option ℕ
  pub waiters : ℕ
  pub checks : ℕ
  pub watching : Bool

abbrev pub is_done : Turn → Bool
is_done t = elim t.future [ unsettled ↦ false | _ ↦ true ]

-- "\n\n".join(texts)
unfoldable pub join : List String → String
join [] = ""
join (x ∷ []) = x
join (x ∷ y ∷ ys) = x ++ ("\n\n" ++ join (y ∷ ys))

abbrev pub add_last {ℓ} : {A : Type ℓ} → A → List A → List A
add_last x [] = x ∷ []
add_last x (y ∷ ys) = y ∷ add_last x ys

unfoldable pub add_text : String → Turn → Turn
add_text content t = if content == "" then t else record t { texts = add_last content t.texts }

unfoldable pub settle : ℕ → Turn → Turn
settle now t = elim t.finished_at [ none ↦ record t { finished_at = some now } | some _ ↦ t ]

unfoldable pub finish : TextLibrary → ℕ → Turn → Turn
unfolding settle join
finish lib now t =
    if is_done t then t else settle now (record t { future = replied (lib.strip (join t.texts)) })

unfoldable pub fail : String → ℕ → Turn → Turn
unfolding settle
fail error now t = if is_done t then t else settle now (record t { future = failed error })

-- `if tool: self.tool_name = tool`
unfoldable pub note_phase : Phase → String → Turn → Turn
note_phase phase name t =
    if ltb (rank phase) (rank t.phase)
    then t
    else record t { phase = phase; tool_name = if name == "" then t.tool_name else name }

-- The frames of the gateway. An error carries `msg.error or msg.message or …`.
pub data Frame : Type 0 where
  step : String → String → Frame
  typing : Bool → Frame
  text result error : String → Frame

pub record Bridge : Type 0 where
  pub heap : Dict ℕ Turn
  pub turns : Dict Key ℕ
  pub abandoned : Dict Key (List ℕ)
  pub parked_ttl : ℕ

unfoldable pub update : ℕ → (Turn → Turn) → Bridge → Bridge
update id f b = elim (get id b.heap) [ none ↦ b | some t ↦ record b { heap = put id (f t) b.heap } ]

-- `self._abandoned.setdefault(key, []).append(now)`
abbrev pub stamps_of : Option (List ℕ) → List ℕ
stamps_of none = []
stamps_of (some stamps) = stamps

unfoldable pub abandon : Key → ℕ → Bridge → Bridge
abandon key now b = record b {
  abandoned = put key (add_last now (stamps_of (get key b.abandoned))) b.abandoned;
}

abbrev pub is_terminal : Frame → Bool
is_terminal (result _) = true
is_terminal (error _) = true
is_terminal (step _ _) = false
is_terminal (typing _) = false
is_terminal (text _) = false

-- `stamps.pop(0)`, and the entry with the last of them
unfoldable pub pop_stamp : Key → List ℕ → Bridge → Bridge
pop_stamp key [] b = record b { abandoned = remove key b.abandoned }
pop_stamp key (s ∷ ss) b = record b { abandoned = put key (s ∷ ss) b.abandoned }

unfoldable pub swallow_abandoned : Key → Frame → Bridge → Bool × Bridge
unfolding pop_stamp
swallow_abandoned key frame b = elim (stamps_of (get key b.abandoned)) [
  | [] ↦ (false, b)
  | s ∷ ss ↦ (true, (if is_terminal frame then pop_stamp key ss b else b))
]

module _ (lib : TextLibrary) where
  -- What a frame does to a turn that has not settled.
  unfoldable pub receive_open : Frame → ℕ → Turn → Turn
  unfolding note_phase add_text finish fail
  receive_open (step step_type name) now t =
      if step_type == "tool_use" then note_phase tool name t else t
  receive_open (typing true) now t = note_phase starting "" t
  receive_open (typing false) now t = note_phase ready "" t
  receive_open (text content) now t = add_text content (note_phase writing "" t)
  receive_open (result content) now t = finish lib now (add_text content t)
  receive_open (error e) now t = fail e now t

  unfoldable pub receive : Frame → ℕ → Turn → Turn
  unfolding receive_open
  receive frame now t = if is_done t then t else receive_open frame now t

  unfoldable pub deliver : Key → Frame → ℕ → Bridge → Bridge
  unfolding update receive
  deliver key frame now b = elim (get key b.turns) [
    | none ↦ b
    | some id ↦ update id (receive frame now) b
  ]

  unfoldable pub on_outbound : Key → Frame → ℕ → Bridge → Bridge
  unfolding swallow_abandoned deliver
  on_outbound key frame now b =
      let (swallowed, b') = swallow_abandoned key frame b in
      if swallowed then b' else deliver key frame now b'

  -- A turn that fails locally while it may still run upstream.
  unfoldable pub fail_and_abandon : String → ℕ → ℕ → Bridge → Bridge
  unfolding update fail abandon
  fail_and_abandon reason now id b = elim (get id b.heap) [
    | none ↦ b
    | some t ↦ abandon t.key now (update id (fail reason now) b)
  ]

  abbrev pub deadline_text : Turn → String
  deadline_text t =
      "Agent '"
      ++ (t.key.0 ++ ("' did not respond within " ++ (lib.seconds t.hard_timeout ++ "s.")))

  -- The watchdog after its sleep, unless it has been cancelled.
  unfoldable pub hard_deadline : ℕ → ℕ → Bridge → Bridge
  unfolding fail_and_abandon
  hard_deadline id now b = elim (get id b.heap) [
    | none ↦ b
    | some t ↦
        if t.watching && not (is_done t) then fail_and_abandon (deadline_text t) now id b else b
  ]

  -- `[t for t in self._turns.values() if not t.future.done()]`
  unfoldable pub unsettled_of : List ℕ → Bridge → List ℕ
  unsettled_of [] b = []
  unsettled_of (id ∷ ids) b =
      let rest = unsettled_of ids b in
      elim (get id b.heap) [ none ↦ rest | some t ↦ if is_done t then rest else id ∷ rest ]

  unfoldable pub fail_all : List ℕ → ℕ → Bridge → Bridge
  unfolding fail_and_abandon
  fail_all [] now b = b
  fail_all (id ∷ ids) now b =
      fail_all ids now (fail_and_abandon "Connection to the TriOnyx gateway was lost." now id b)

  unfoldable pub on_disconnect : ℕ → Bridge → Bridge
  unfolding unsettled_of fail_all
  on_disconnect now b = fail_all (unsettled_of (values b.turns) b) now b
