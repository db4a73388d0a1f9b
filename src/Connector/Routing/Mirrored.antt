-- ===== src/Connector/Routing/Mirrored.antt =====
-- connector/connector/main.py, _route_mirror: the rooms of both agents, each once.
use tri_onyx.Base.{
  List, [], ◌∷◌, map, Option, none, some, String, Bool, true, false, ◌||◌, ◌==◌, Key_eq, contains,
  ◌≡◌, ◌↔◌, ◌⊎◌, String_eq, refl, sym, ap, ◌∙◌, inl, inr, arith, Bool-cases, Option-cases,
}
use tri_onyx.Dict.{Dict, get, put, keys, values, IsDict}
use tri_onyx.Dict.Laws.{get-put, put-IsDict}
use tri_onyx.Connector.Routing.Rooms.{
  rooms_of, IsRoomAt, rooms_of-IsRoomAt, IsRoomAt-rooms_of, first_or,
}
use tri_onyx.Connector.Routing.{
  Channel, Adapters, Call, send_text, send_article, send_listing, send_typing, send_step,
  send_approval_request, Sent, resolve_agent_room, MirrorStyle, key_of, add_targets, mirror_targets,
  mirror_text, route_mirror,
}

abbrev Key : Type 0
Key = String × String

abbrev Targets : Type 0
Targets = Dict (String × String) (String × Channel)

abbrev is_some : Option (String × Channel) → Bool
is_some none = false
is_some (some r) = true

-- No room twice.
abbrev pub AreDistinctRooms : List (String × String) → Type 0
AreDistinctRooms [] = Unit
AreDistinctRooms (k ∷ ks) = (contains k ks ≡ false) × AreDistinctRooms ks

abbrev pub room_of_call : Call → String × String
room_of_call (send_text c text agent) = (c.platform, c.room_id)
room_of_call (send_article c x agent) = (c.platform, c.room_id)
room_of_call (send_listing c x agent) = (c.platform, c.room_id)
room_of_call (send_typing c on) = (c.platform, c.room_id)
room_of_call (send_step c step) = (c.platform, c.room_id)
room_of_call (send_approval_request c msg) = (c.platform, c.room_id)

-- The rooms to which something was sent.
abbrev pub posted : List Sent → List (String × String)
posted [] = []
posted ((name, call) ∷ sent) = room_of_call call ∷ posted sent

contains-keys : (k : Key) (d : Targets) → contains k (keys d) ≡ is_some (get k d)
unfolding keys get
contains-keys k [] = refl
contains-keys k ((j, v) ∷ d) = elim (Bool-cases (j == k)) [
  | inl e ↦ rw e refl
  | inr e ↦ rw e (contains-keys k d)
]

keys-AreDistinctRooms : (d : Targets) → IsDict d → AreDistinctRooms (keys d)
unfolding keys
keys-AreDistinctRooms [] h = tt
keys-AreDistinctRooms ((k, v) ∷ d) (h, hs) =
    (contains-keys k d ∙ ap is_some h, keys-AreDistinctRooms d hs)

-- Each target is filed under its own room.
abbrev AreFiled : Targets → Type 0
AreFiled [] = Unit
AreFiled ((k, r) ∷ d) = (key_of r ≡ k) × AreFiled d

put-AreFiled : (r : String × Channel) (d : Targets) → AreFiled d → AreFiled (put (key_of r) r d)
unfolding put
put-AreFiled r [] h = (refl, tt)
put-AreFiled r ((j, w) ∷ d) (h, hs) = elim (Bool-cases (j == key_of r)) [
  | inl e ↦ rw e (sym ((Key_eq.equals_iff j (key_of r)).0 e), hs)
  | inr e ↦ rw e (h, put-AreFiled r d hs)
]

-- What the dict of targets is, and which rooms it has.
record Holds (d d' : Targets) (ks : List Key) : Type 0 where
  no_key_twice : IsDict d'
  filed : AreFiled d'
  rooms : (k : Key) → is_some (get k d') ≡ (is_some (get k d) || contains k ks)

add-Holds :
    (found : List (String × Channel)) (d : Targets)
    → IsDict d
    → AreFiled d
    → Holds d (add_targets found d) (map key_of found)
unfolding add_targets
add-Holds [] d h f = record { no_key_twice = h; filed = f; rooms = λ k. ground arith }
add-Holds (r ∷ found) d h f = elim (Option-cases (get (key_of r) d)) [
  | inl absent ↦
      let d' = put (key_of r) r d in
      let rest : Holds d' (add_targets found d') (map key_of found) =
        add-Holds found d' (put-IsDict (key_of r) r d h) (put-AreFiled r d f) in
      rw absent (record {
        no_key_twice = rest.no_key_twice;
        filed = rest.filed;
        rooms = λ k. rest.rooms k ∙ ground (arith, get-put (key_of r) k r d);
      })
  | inr (old, present) ↦
      let rest : Holds d (add_targets found d) (map key_of found) = add-Holds found d h f in
      rw present (record {
        no_key_twice = rest.no_key_twice;
        filed = rest.filed;
        rooms = λ k. rest.rooms k ∙ known_already r old d k (contains k (map key_of found)) present;
      })
]
  where
    known_already :
        (r old : String × Channel) (d : Targets) (k : Key) (b : Bool)
        → get (key_of r) d ≡ some old
        → (is_some (get k d) || b) ≡ (is_some (get k d) || (key_of r == k || b))
    known_already r old d k b present = elim (Bool-cases (key_of r == k)) [
      | inr other ↦ rw other refl
      | inl same ↦
          let there : is_some (get k d) ≡ true =
            ap (λ j. is_some (get j d)) (sym ((Key_eq.equals_iff (key_of r) k).0 same))
            ∙ ap is_some present in
          ground (arith, there)
    ]

posted-values :
    (d : Targets) (text agent : String)
    → AreFiled d
    → posted (map (λ r. (r.0, send_text r.1 text agent)) (values d)) ≡ keys d
unfolding values keys
posted-values [] text agent f = refl
posted-values ((k, r) ∷ d) text agent (f, fs) =
    ap (λ ks. key_of r ∷ ks) (posted-values d text agent fs) ∙ ap (λ j. j ∷ keys d) f

mirror-rooms_of :
    (style : MirrorStyle) (adapters : Adapters) (from_agent to_agent content : String)
    → let rooms = posted (route_mirror style adapters from_agent to_agent content) in
      AreDistinctRooms rooms
      × ((k : String × String)
          → contains k rooms ≡ (
              contains k (rooms_of adapters from_agent) || contains k (rooms_of adapters to_agent)))
unfolding route_mirror mirror_targets
mirror-rooms_of style adapters from_agent to_agent content =
    let own = add_targets (resolve_agent_room adapters from_agent) [] in
    let first : Holds [] own (rooms_of adapters from_agent) =
      add-Holds (resolve_agent_room adapters from_agent) [] tt tt in
    let both : Holds own (mirror_targets adapters from_agent to_agent)
        (rooms_of adapters to_agent) =
      add-Holds (resolve_agent_room adapters to_agent) own first.no_key_twice first.filed in
    let all : posted (route_mirror style adapters from_agent to_agent content)
        ≡ keys (mirror_targets adapters from_agent to_agent) =
      posted-values (mirror_targets adapters from_agent to_agent)
        (mirror_text style from_agent to_agent content) from_agent both.filed in
    rw all (
      keys-AreDistinctRooms (mirror_targets adapters from_agent to_agent) both.no_key_twice,
      λ k.
          contains-keys k (mirror_targets adapters from_agent to_agent)
          ∙ both.rooms k
          ∙ ap (λ b. b || contains k (rooms_of adapters to_agent)) (first.rooms k),
    )

listed :
    (adapters : Adapters) (from_agent to_agent name room : String)
    → IsRoomAt adapters from_agent name room ⊎ IsRoomAt adapters to_agent name room
    → (contains (name, room) (rooms_of adapters from_agent)
        || contains (name, room) (rooms_of adapters to_agent))
      ≡ true
listed adapters from_agent to_agent name room (inl h) =
    rw (IsRoomAt-rooms_of adapters from_agent name room h) refl
listed adapters from_agent to_agent name room (inr h) =
    ground (arith, IsRoomAt-rooms_of adapters to_agent name room h)

-- Where the adapters are a dict: the mirror of a message between agents is posted to no room twice, and
-- to a room just if the settings of its adapter make it the room of either agent: its heartbeat room, or
-- the first room that is configured for it if it has none.
pub mirror_posted_once :
    (style : MirrorStyle) (adapters : Adapters) (from_agent to_agent content name room : String)
    → IsDict adapters
    → AreDistinctRooms (posted (route_mirror style adapters from_agent to_agent content))
      × ((contains (name, room) (posted (route_mirror style adapters from_agent to_agent content))
            ≡ true)
          ↔ (IsRoomAt adapters from_agent name room ⊎ IsRoomAt adapters to_agent name room))
mirror_posted_once style adapters from_agent to_agent content name room d =
    let (distinct, rooms) = mirror-rooms_of style adapters from_agent to_agent content in
    let either = rooms (name, room) in
    (
      distinct,
      (
        (λ h.
            elim (first_or (contains (name, room) (rooms_of adapters from_agent))
              (contains (name, room) (rooms_of adapters to_agent)) (sym either ∙ h)) [
                | inl own ↦ inl (rooms_of-IsRoomAt adapters from_agent name room d own)
                | inr own ↦ inr (rooms_of-IsRoomAt adapters to_agent name room d own)
              ]),
        (λ h. either ∙ listed adapters from_agent to_agent name room h),
      ),
    )
