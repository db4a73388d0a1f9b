-- ===== src/Examples/Rooms.antt =====
-- The theorems on the connector's routing, with two agents that share a room.
use tri_onyx.Base.{[], ◌∷◌, ◌≡◌, refl, Key_eq, true, contains, ◌↔◌, ◌⊎◌, String_eq}
use tri_onyx.Dict.{get, IsDict}
use tri_onyx.Connector.Routing.{
  AdapterRooms, Adapters, Approval, MirrorStyle, route_mirror, route_approval_request,
}
use tri_onyx.Connector.Routing.Rooms.{IsRoomAt}
use tri_onyx.Connector.Routing.Mirrored.{AreDistinctRooms, posted, mirror_posted_once}
use tri_onyx.Connector.Routing.Approved.{route_approval_request_shown}

abbrev slack_rooms : AdapterRooms
slack_rooms = record {
  heartbeat_rooms = ("mail", "C1") ∷ [];
  approval_rooms = [];
  rooms = ("C1", record { agent = "main"; mode = "all" }) ∷ [];
}

abbrev adapters : Adapters
adapters = ("slack", slack_rooms) ∷ []

abbrev plain_style : MirrorStyle
plain_style = record { quote = λ s. s; screen = "web" }

abbrev request : Approval
request = record { approval_id = "a1"; from_agent = "main"; to_agent = "mail" }

one_adapter : IsDict adapters
unfolding get
one_adapter = (refl, tt)

mirror_posted_once_example :
    AreDistinctRooms (posted (route_mirror plain_style adapters "main" "mail" "hello"))
    × ((contains ("slack", "C1") (posted (route_mirror plain_style adapters "main" "mail" "hello"))
          ≡ true)
        ↔ (IsRoomAt adapters "main" "slack" "C1" ⊎ IsRoomAt adapters "mail" "slack" "C1"))
mirror_posted_once_example =
    mirror_posted_once plain_style adapters "main" "mail" "hello" "slack" "C1" one_adapter

route_approval_request_shown_example : IsDict (route_approval_request adapters request)
route_approval_request_shown_example = (route_approval_request_shown adapters request one_adapter).1

shared_room :
    posted (route_mirror plain_style adapters "main" "mail" "hello") ≡ ("slack", "C1") ∷ []
unfolding route_mirror
shared_room = refl
