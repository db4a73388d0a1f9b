-- ===== src/Connector/Routing/Approved.antt =====
-- connector/connector/main.py, _route_approval_request: where requests for a human's approval are shown.
use tri_onyx.Base.{
  List, [], ◌∷◌, Option, none, some, String, true, false, ◌==◌, String_eq, contains, All, ◌≡◌, refl,
  inl, inr, ◌⊎◌, arith, equals_refl, Bool-cases,
}
use tri_onyx.Dict.{Dict, get, select, IsDict}
use tri_onyx.Connector.Channels.{RoomConfig}
use tri_onyx.Connector.Routing.{
  Adapters, AdapterRooms, Approval, send_approval_request, Sent, or_room, room_of_agent,
  approval_room, route_approval_request,
}

-- The rooms that are configured for an agent.
abbrev pub rooms_for : String → Dict String RoomConfig → List String
rooms_for agent = select (λ rid room. room.agent == agent)

-- An approval room of either agent, the default one, or a room of the agent that asks.
abbrev pub IsApprovalRoom : AdapterRooms → Approval → String → Type 0
IsApprovalRoom cfg msg room =
    (get msg.from_agent cfg.approval_rooms ≡ some room)
    ⊎ ((get msg.to_agent cfg.approval_rooms ≡ some room)
        ⊎ ((get "_default" cfg.approval_rooms ≡ some room)
            ⊎ (contains room (rooms_for msg.from_agent cfg.rooms) ≡ true)))

room_of_agent-configured :
    (agent : String) (rooms : Dict String RoomConfig)
    → (room_of_agent agent rooms == "") ≡ false
    → contains (room_of_agent agent rooms) (rooms_for agent rooms) ≡ true
unfolding room_of_agent select
room_of_agent-configured agent [] h = cc
room_of_agent-configured agent ((rid, room) ∷ rooms) h = elim (Bool-cases (room.agent == agent)) [
  | inl e ↦ rw e (ground (arith, equals_refl rid))
  | inr e ↦ rw e (room_of_agent-configured agent rooms (rw e at h))
]

or_room-cases :
    (o : Option String) (otherwise : String)
    → (o ≡ some (or_room o otherwise)) ⊎ (or_room o otherwise ≡ otherwise)
or_room-cases none otherwise = inr refl
or_room-cases (some room) otherwise = elim (Bool-cases (room == "")) [
  | inl e ↦ inr (rw e refl)
  | inr e ↦ inl (rw e refl)
]

approval_room-IsApprovalRoom :
    (cfg : AdapterRooms) (msg : Approval)
    → (approval_room cfg msg == "") ≡ false
    → IsApprovalRoom cfg msg (approval_room cfg msg)
unfolding approval_room
approval_room-IsApprovalRoom cfg msg h =
    let last = room_of_agent msg.from_agent cfg.rooms in
    let third = or_room (get "_default" cfg.approval_rooms) last in
    let second = or_room (get msg.to_agent cfg.approval_rooms) third in
    elim (or_room-cases (get msg.from_agent cfg.approval_rooms) second) [
      | inl own ↦ inl own
      | inr e ↦ elim (or_room-cases (get msg.to_agent cfg.approval_rooms) third) [
        | inl other ↦ inr (inl (rw e other))
        | inr e' ↦ elim (or_room-cases (get "_default" cfg.approval_rooms) last) [
          | inl default ↦ inr (inr (inl (rw (e, e') default)))
          | inr e'' ↦ inr (
              inr (
                inr (
                  rw (e, e', e'')
                    (room_of_agent-configured msg.from_agent cfg.rooms (rw (e, e', e'') at h)))))
        ]
      ]
    ]

-- A request that is shown by an adapter of the configuration, in one of its approval rooms.
abbrev pub IsShownTo : Adapters → Approval → Sent → Type 0
IsShownTo [] msg s = ⊥
IsShownTo ((name, cfg) ∷ adapters) msg s =
    ((room : String) × (s
        ≡ (name, send_approval_request (record { platform = name; room_id = room }) msg))
      × IsApprovalRoom cfg msg room)
    ⊎ IsShownTo adapters msg s

All-weaken :
    {P Q : Sent → Type 0} (sent : List Sent) → ((s : Sent) → P s → Q s) → All P sent → All Q sent
All-weaken [] f h = tt
All-weaken (s ∷ sent) f (h, hs) = (f s h, All-weaken sent f hs)

-- An adapter that is not configured shows nothing.
unknown_shows_nothing :
    (name : String) (adapters : Adapters) (msg : Approval)
    → get name adapters ≡ none
    → get name (route_approval_request adapters msg) ≡ none
unfolding route_approval_request get
unknown_shows_nothing name [] msg h = refl
unknown_shows_nothing name ((other, cfg) ∷ adapters) msg h = elim (Bool-cases (other == name)) [
  | inl e ↦ absurd (ground (arith, rw e at h))
  | inr e ↦
      let later = unknown_shows_nothing name adapters msg (rw e at h) in
      elim (Bool-cases (approval_room cfg msg == "")) [
        | inl e' ↦ rw e' later
        | inr e' ↦ rw (e', e) later
      ]
]

-- A request for approval is shown to nobody but the readers of an approval room, or of a room of the
-- agent that asks; and no adapter shows it twice, where the adapters are a dict.
pub route_approval_request_shown :
    (adapters : Adapters) (msg : Approval)
    → IsDict adapters
    → All (IsShownTo adapters msg) (route_approval_request adapters msg)
      × IsDict (route_approval_request adapters msg)
unfolding route_approval_request
route_approval_request_shown [] msg d = (tt, tt)
route_approval_request_shown ((name, cfg) ∷ adapters) msg (new, d) =
    let (shown, once) = route_approval_request_shown adapters msg d in
    let later : All (IsShownTo ((name, cfg) ∷ adapters) msg) (route_approval_request adapters msg) =
      All-weaken (route_approval_request adapters msg) (λ s h. inr h) shown in
    elim (Bool-cases (approval_room cfg msg == "")) [
      | inl e ↦ rw e (later, once)
      | inr e ↦ rw e (
        (inl (approval_room cfg msg, refl, approval_room-IsApprovalRoom cfg msg e), later),
        (unknown_shows_nothing name adapters msg new, once),
      )
    ]
