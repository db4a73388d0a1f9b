-- ===== src/Connector/Routing/Rooms.antt =====
-- connector/connector/main.py, _resolve_agent_room: the rooms of an agent, told from the settings.
use tri_onyx.Base.{
  List, [], ◌∷◌, ◌++◌, map, Option, none, some, String, Bool, true, false, not, ◌&&◌, ◌||◌, ◌==◌,
  String_eq, Key_eq, contains, All, ◌≡◌, ◌≢◌, ◌⊎◌, inl, inr, refl, sym, ap, ◌∙◌, arith, Bool-cases,
  equals_refl,
}
use tri_onyx.Dict.{Dict, get, IsDict}
use tri_onyx.Connector.Channels.{RoomConfig}
use tri_onyx.Connector.Routing.{
  AdapterRooms, Channel, Adapters, or_room, room_of_agent, agent_room, channel_if_any,
  resolve_agent_room, key_of,
}

-- No heartbeat room.
abbrev pub IsBlank : Option String → Type 0
IsBlank none = Unit
IsBlank (some room) = room ≡ ""

-- The room is the first that is configured for the agent.
abbrev pub IsFirst : String → String → Dict String RoomConfig → Type 0
IsFirst agent room rooms =
    (before after : Dict String RoomConfig) × (cfg : RoomConfig) × (rooms
      ≡ before ++ ((room, cfg) ∷ after))
    × (cfg.agent ≡ agent)
    × All (λ r. r.1.agent ≢ agent) before

-- The heartbeat room of the agent, or the first configured for it if there is none.
abbrev pub IsRoomOf : AdapterRooms → String → String → Type 0
IsRoomOf cfg agent room =
    (room ≢ "")
    × ((get agent cfg.heartbeat_rooms ≡ some room)
        ⊎ (IsBlank (get agent cfg.heartbeat_rooms) × IsFirst agent room cfg.rooms))

or_room-cases :
    (o : Option String) (rest room : String)
    → or_room o rest ≡ room
    → (o ≡ some room) ⊎ (IsBlank o × (rest ≡ room))
or_room-cases none rest room h = inr (tt, h)
or_room-cases (some r) rest room h = elim (Bool-cases (r == "")) [
  | inl e ↦ inr ((String_eq.equals_iff r "").0 e, rw e at h)
  | inr e ↦ inl (ap some (rw e at h))
]

or_room-blank : (o : Option String) (rest : String) → IsBlank o → or_room o rest ≡ rest
or_room-blank none rest h = refl
or_room-blank (some r) rest h = rw ((String_eq.equals_iff r "").1 h) refl

not_blank : (room : String) → room ≢ "" → (room == "") ≡ false
not_blank room h = elim (Bool-cases (room == "")) [
  | inl e ↦ absurd (h ((String_eq.equals_iff room "").0 e))
  | inr e ↦ e
]

room_of_agent-IsFirst :
    (agent room : String) (rooms : Dict String RoomConfig)
    → room ≢ ""
    → room_of_agent agent rooms ≡ room
    → IsFirst agent room rooms
unfolding room_of_agent
room_of_agent-IsFirst agent room [] ne h = absurd (ne (sym h))
room_of_agent-IsFirst agent room ((rid, cfg) ∷ rooms) ne h =
    elim (Bool-cases (cfg.agent == agent)) [
      | inl e ↦ (
        [],
        rooms,
        cfg,
        ap (λ r. (r, cfg) ∷ rooms) (rw e at h),
        (String_eq.equals_iff cfg.agent agent).0 e,
        tt,
      )
      | inr e ↦
          let (before, after, c, split, own, others) =
            room_of_agent-IsFirst agent room rooms ne (rw e at h) in
          (
            (rid, cfg) ∷ before,
            after,
            c,
            ap (λ rs. (rid, cfg) ∷ rs) split,
            own,
            ((λ same. ground (arith, e, (String_eq.equals_iff cfg.agent agent).1 same)), others),
          )
    ]

IsFirst-room_of_agent :
    (agent room : String) (before after : Dict String RoomConfig) (cfg : RoomConfig)
    → cfg.agent ≡ agent
    → All (λ r. r.1.agent ≢ agent) before
    → room_of_agent agent (before ++ ((room, cfg) ∷ after)) ≡ room
unfolding room_of_agent
IsFirst-room_of_agent agent room [] after cfg own hs =
    rw ((String_eq.equals_iff cfg.agent agent).1 own) refl
IsFirst-room_of_agent agent room ((rid, c) ∷ before) after cfg own (h, hs) =
    elim (Bool-cases (c.agent == agent)) [
      | inl e ↦ absurd (h ((String_eq.equals_iff c.agent agent).0 e))
      | inr e ↦ rw e (IsFirst-room_of_agent agent room before after cfg own hs)
    ]

module _ (cfg : AdapterRooms) (agent room : String) where
  agent_room-IsRoomOf : room ≢ "" → agent_room cfg agent ≡ room → IsRoomOf cfg agent room
  unfolding agent_room
  agent_room-IsRoomOf ne h =
      elim (or_room-cases (get agent cfg.heartbeat_rooms) (room_of_agent agent cfg.rooms) room h) [
        | inl own ↦ (ne, inl own)
        | inr (blank, e) ↦ (ne, inr (blank, room_of_agent-IsFirst agent room cfg.rooms ne e))
      ]

  IsRoomOf-agent_room : IsRoomOf cfg agent room → agent_room cfg agent ≡ room
  unfolding agent_room
  IsRoomOf-agent_room (ne, inl own) = rw (agent_room, own, not_blank room ne) refl
  IsRoomOf-agent_room (ne, inr (blank, (before, after, c, split, own, others))) =
      or_room-blank (get agent cfg.heartbeat_rooms) (room_of_agent agent cfg.rooms) blank
      ∙ ap (room_of_agent agent) split
      ∙ IsFirst-room_of_agent agent room before after c own others

-- The rooms of an agent, each with the name of its adapter.
abbrev pub rooms_of : Adapters → String → List (String × String)
rooms_of adapters agent = map key_of (resolve_agent_room adapters agent)

-- What the settings of an adapter say.
abbrev pub IsRoomAt : Adapters → String → String → String → Type 0
IsRoomAt adapters agent name room =
    (cfg : AdapterRooms) × (get name adapters ≡ some cfg) × IsRoomOf cfg agent room

at_head :
    (other name r room : String) (rest : List (String × Channel))
    → contains (name, room) (map key_of (channel_if_any other r rest))
      ≡ ((not (r == "") && (other == name && r == room)) || contains (name, room) (map key_of rest))
at_head other name r room rest = elim (Bool-cases (r == "")) [
  | inl e ↦ rw e refl
  | inr e ↦ rw e refl
]

pub first_or : (a b : Bool) → (a || b) ≡ true → (a ≡ true) ⊎ (b ≡ true)
first_or true b h = inl refl
first_or false b h = inr h

all_three : (a b c : Bool) → (not a && (b && c)) ≡ true → (a ≡ false) × (b ≡ true) × (c ≡ true)
all_three a b c h = ground (arith, h)

pub rooms_of-IsRoomAt :
    (adapters : Adapters) (agent name room : String)
    → IsDict adapters
    → contains (name, room) (rooms_of adapters agent) ≡ true
    → IsRoomAt adapters agent name room
unfolding resolve_agent_room get
rooms_of-IsRoomAt [] agent name room d h = absurd (ground arith)
rooms_of-IsRoomAt ((other, cfg) ∷ adapters) agent name room (new, d) h =
    let r = agent_room cfg agent in
    elim (first_or (not (r == "") && (other == name && r == room))
      (contains (name, room) (rooms_of adapters agent))
      (sym (at_head other name r room (resolve_agent_room adapters agent)) ∙ h)) [
        | inl here ↦
            let (shown, same, at) = all_three (r == "") (other == name) (r == room) here in
            let e = (String_eq.equals_iff r room).0 at in
            (
              cfg,
              rw same refl,
              agent_room-IsRoomOf cfg agent room
                  (λ blank. ground (arith, shown, (String_eq.equals_iff r "").1 (e ∙ blank))) e,
            )
        | inr there ↦
            let (c, found, is_room) = rooms_of-IsRoomAt adapters agent name room d there in
            (
              c,
              elim (Bool-cases (other == name)) [
                | inr apart ↦ rw apart found
                | inl same ↦ absurd (
                    ground (
                      arith,
                      new,
                      found,
                      ap (λ n. get n adapters) ((String_eq.equals_iff other name).0 same),
                    ))
              ],
              is_room,
            )
      ]

abbrev room_at : String → Option AdapterRooms → String
room_at agent none = ""
room_at agent (some cfg) = agent_room cfg agent

pub IsRoomAt-rooms_of :
    (adapters : Adapters) (agent name room : String)
    → IsRoomAt adapters agent name room
    → contains (name, room) (rooms_of adapters agent) ≡ true
unfolding resolve_agent_room get
IsRoomAt-rooms_of [] agent name room (cfg, found, h) = absurd (ground arith)
IsRoomAt-rooms_of ((other, c) ∷ adapters) agent name room (cfg, found, h) =
    let head = at_head other name (agent_room c agent) room (resolve_agent_room adapters agent) in
    elim (Bool-cases (other == name)) [
      | inl same ↦
          let e : agent_room c agent ≡ room =
            ap (room_at agent) (rw same at found) ∙ IsRoomOf-agent_room cfg agent room h in
          head ∙ rw (e, same, not_blank room h.0, equals_refl room) refl
      | inr apart ↦
          head
          ∙ ground (arith, IsRoomAt-rooms_of adapters agent name room (cfg, rw apart at found, h))
    ]
