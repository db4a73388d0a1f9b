-- ===== src/Connector/Actions.antt =====
-- connector/connector/main.py, _route_action: what the gateway asks an adapter to do in a chat. The
-- values of `params` are texts; `base64.b64decode` is the parameter `decode`, `none` where it raises.
use tri_onyx.Base.{
  List, [], ◌∷◌, map, Option, none, some, String, ◌==◌, if◌then◌else◌, String_eq, contains,
}
use tri_onyx.Dict.{Dict, get}
use tri_onyx.Connector.Routing.{Channel, Adapters}

pub record Action : Type 0 where
  pub action : String
  pub channel : Channel
  pub params : Dict String String

pub data AdapterCall : Type 0 where
  send_reaction : Channel → String → AdapterCall
  edit_message : Channel → String → String → AdapterCall
  delete_message : Channel → String → AdapterCall
  send_file : Channel → String → String → String → Dict String String → AdapterCall

-- params.get(key, default)
abbrev pub param_or : String → String → Dict String String → String
unfolding get
param_or key default params = elim (get key params) [ none ↦ default | some v ↦ v ]

-- The parameters that `send_file` names.
abbrev pub file_params : List String
file_params = "data" ∷ "filename" ∷ "mime_type" ∷ []

unfoldable pub extra_params : Dict String String → Dict String String
extra_params [] = []
extra_params ((k, v) ∷ params) =
    let rest = extra_params params in if contains k file_params then rest else (k, v) ∷ rest

module _ (decode : String → Option String) where
  unfoldable pub send_file_call : Action → List AdapterCall
  unfolding extra_params get
  send_file_call req = elim (decode (param_or "data" "" req.params)) [
    | none ↦ []
    | some file_data ↦
        send_file req.channel file_data (param_or "filename" "file" req.params)
          (param_or "mime_type" "application/octet-stream" req.params) (extra_params req.params)
        ∷ []
  ]

  -- The branches for an adapter that is known.
  unfoldable pub action_calls : Action → List AdapterCall
  unfolding send_file_call get
  action_calls req =
      if req.action == "react"
      then send_reaction req.channel (param_or "emoji" "" req.params) ∷ []
      else if req.action == "edit"
      then edit_message req.channel (param_or "message_id" "" req.params)
          (param_or "content" "" req.params)
        ∷ []
      else if req.action == "delete"
      then delete_message req.channel (param_or "message_id" "" req.params) ∷ []
      else if req.action == "send_file"
      then send_file_call req
      else []

  unfoldable pub route_action : Adapters → Action → List (String × AdapterCall)
  unfolding action_calls get
  route_action adapters req = elim (get req.channel.platform adapters) [
    | none ↦ []
    | some cfg ↦ map (λ c. (req.channel.platform, c)) (action_calls req)
  ]
