-- ===== src/Mcp/Bridge/Calls.antt =====
-- gateway_bridge.py: `ask`, cut at its awaits, and the bookkeeping of turns.
-- Between two parts of a call any frame or other call may come; the lock of the key is held from
-- `ask_look` to `ask_join`, so no other call for the same key comes in between.
use tri_onyx.Base.{
  ℕ, ◌+◌, ◌-◌, String, Bool, true, false, ◌&&◌, List, [], ◌∷◌, Option, none, some, ltb, leb, ◌==◌,
  if◌then◌else◌, is_nonempty, keep, ℕ_eq, String_eq, Key_eq,
}
use tri_onyx.Dict.{Dict, get, put, remove}
use Prim.Native.String.{◌++◌}
use tri_onyx.Mcp.Bridge.{
  TextLibrary, Key, Phase, sent, unsettled, replied, failed, Turn, Bridge, update,
}

-- `_drop`, with the check that the key still holds this very turn
unfoldable pub drop : Key → ℕ → Bridge → Bridge
unfolding update
drop key id b =
    let quiet = update id (λ t. record t { watching = false }) b in
    elim (get key b.turns) [
      | none ↦ quiet
      | some j ↦ if j == id then record quiet { turns = remove key b.turns } else quiet
    ]

pub record TurnStatus : Type 0 where
  pub pending : Bool
  pub reply : String
  pub elapsed : ℕ
  pub phase : Phase
  pub checks : ℕ
  pub stale : Bool
  pub prompt : String

-- `(self.finished_at or now) - self.started_at`
abbrev pub ended_at : Option ℕ → ℕ → ℕ
ended_at none now = now
ended_at (some t) now = if t == 0 then now else t

unfoldable pub status : Bool → String → Bool → ℕ → Turn → TurnStatus
status pending reply stale now t = record {
  pending = pending;
  reply = reply;
  elapsed = ended_at t.finished_at now - t.started_at;
  phase = t.phase;
  checks = t.checks;
  stale = stale;
  prompt = if stale then t.message else "";
}

-- What a call returns, or the text of its GatewayError.
pub data Answer : Type 0 where
  told : TurnStatus → Answer
  gateway_error : String → Answer

abbrev pub not_delivered : String → String
not_delivered message =
    " (That is the outcome of the earlier message \""
    ++ (message ++ "\" — the message you just sent was not delivered; send it again.)")

-- `_settled`; the futures of this program are never cancelled, and an unsettled one would raise
-- InvalidStateError.
unfoldable pub settled : Bool → ℕ → Turn → Option Answer
unfolding status
settled stale now t = elim t.future [
  | unsettled ↦ none
  | failed e ↦ some (gateway_error (if stale then e ++ not_delivered t.message else e))
  | replied r ↦ some (told (status false r stale now t))
]

-- `turn.finished_at is not None and turn.waiters == 0 and now - turn.finished_at > ttl`
unfoldable pub is_uncollected : ℕ → ℕ → Turn → Bool
is_uncollected now ttl t = elim t.finished_at [
  | none ↦ false
  | some at ↦ t.waiters == 0 && ltb ttl (now - at)
]

unfoldable pub expire_each : ℕ → Dict Key ℕ → Bridge → Bridge
unfolding drop is_uncollected
expire_each now [] b = b
expire_each now ((key, id) ∷ rest) b = expire_each now rest (elim (get id b.heap) [
  | none ↦ b
  | some t ↦ if is_uncollected now b.parked_ttl t then drop key id b else b
])

-- `_expire_parked`, without the count that it returns for the log
unfoldable pub expire_parked : ℕ → Bridge → Bridge
unfolding expire_each
expire_parked now b = expire_each now b.turns b

-- _ABANDONED_TTL_S
abbrev pub abandoned_ttl : ℕ
abandoned_ttl = 900000

unfoldable pub fresh_stamps : ℕ → Dict Key (List ℕ) → Dict Key (List ℕ)
fresh_stamps now [] = []
fresh_stamps now ((key, stamps) ∷ d) =
    let rest = fresh_stamps now d in
    let fresh = keep (λ at. leb (now - at) abandoned_ttl) stamps in
    if is_nonempty fresh then (key, fresh) ∷ rest else rest

unfoldable pub expire_abandoned : ℕ → Bridge → Bridge
unfolding fresh_stamps
expire_abandoned now b = record b { abandoned = fresh_stamps now b.abandoned }

-- What a call finds under its key once parked turns have expired: a parked turn, whose outcome it
-- takes, a running turn, which it polls, or none.
pub data Found : Type 0 where
  parked : Answer → Found
  running : ℕ → Found
  nothing : Found

unfoldable pub look : Key → ℕ → Bridge → Found × Bridge
unfolding settled drop
look key now b = elim (get key b.turns) [
  | none ↦ (nothing, b)
  | some id ↦ elim (get id b.heap) [
    | none ↦ (nothing, b)
    | some t ↦ elim (settled true now t) [
      | none ↦ (running id, b)
      | some answer ↦ (parked answer, drop key id b)
    ]
  ]
]

unfoldable pub ask_look : Key → ℕ → Bridge → Found × Bridge
unfolding expire_parked look
ask_look key now b = look key now (expire_parked now b)

-- `_start_turn`, with a new identity, before the message is sent
unfoldable pub start_turn : TextLibrary → Key → ℕ → String → ℕ → ℕ → Bridge → Bridge
start_turn lib key hard_timeout message now id b = record b {
  heap =
      put id
        (record {
          future = unsettled;
          key = key;
          started_at = now;
          hard_timeout = hard_timeout;
          message = lib.echo (lib.strip message);
          texts = [];
          phase = sent;
          tool_name = "";
          finished_at = none;
          waiters = 0;
          checks = 0;
          watching = true;
        })
        b.heap;
  turns = put key id b.turns;
}

-- The turn is polled: `turn.checks += 1; turn.waiters += 1`
unfoldable pub ask_join : ℕ → Bridge → Bridge
unfolding update
ask_join id b = update id (λ t. record t { checks = t.checks + 1; waiters = t.waiters + 1 }) b

-- After the wait, which ends at the soft deadline or when the turn settles.
unfoldable pub ask_done : Key → ℕ → ℕ → Bridge → Option Answer × Bridge
unfolding update settled drop status
ask_done key id now b =
    let left = update id (λ t. record t { waiters = t.waiters - 1 }) b in
    elim (get id left.heap) [
      | none ↦ (none, left)
      | some t ↦ elim (settled false now t) [
        | none ↦ (some (told (status true "" false now t)), left)
        | some answer ↦ (some answer, drop key id left)
      ]
    ]
