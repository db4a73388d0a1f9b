-- ===== src/Mcp/Tools.antt =====
-- mcp_server/mcp_server/server.py: the names of the agents' tools, and the address of a request;
-- gateway_bridge.py: the room of a conversation. Regular expressions, strip, slices and SHA-256 are
-- the record `ToolLibrary`.
pub mod Names
use Prim.Native.String.{◌++◌}
use tri_onyx.Base.{
  String, Bool, true, false, List, [], ◌∷◌, Option, none, some, ◌==◌, ◌>>=◌, if◌then◌else◌,
  contains, String_eq,
}

pub record ToolLibrary : Type 0 where
  -- `_TOOL_NAME_SAFE.sub("_", name).strip("_")`
  pub tool_chars : String → String
  pub strip : String → String
  -- `_ROOM_ID_SAFE.sub("-", raw).strip("-")`
  pub room_chars : String → String
  -- `cleaned[:_MAX_ROOM_ID_LEN]`
  pub cut_room : String → String
  -- the first `_PRINCIPAL_HASH_LEN` characters of `hashlib.sha256(...).hexdigest()`
  pub principal : String → String

-- `s or default`
abbrev pub or_default : String → String → String
or_default s default = if s == "" then default else s

module _ (lib : ToolLibrary) where
  -- `none` where it raises ConfigError
  unfoldable pub agent_tool_name : String → Option String
  agent_tool_name name =
      let cleaned = lib.tool_chars name in if cleaned == "" then none else some cleaned

  -- The loop of `build_server` over the configured agents, with the set of names used so far; `none`
  -- where it raises ConfigError.
  unfoldable pub register_tools : List String → List String → Option (List String)
  unfolding agent_tool_name
  register_tools [] seen = some seen
  register_tools (agent ∷ agents) seen = elim (agent_tool_name agent) [
    | none ↦ none
    | some name ↦
        let rest = register_tools agents (name ∷ seen) in if contains name seen then none else rest
  ]

  -- The header `cf-connecting-ip` and the socket's peer, where they are present.
  unfoldable pub client_ip : Bool → Option String → Option String → String
  client_ip trust_proxy_headers header peer =
      let from_peer : String = elim peer [ none ↦ "unknown" | some host ↦ host ] in
      if trust_proxy_headers
      then (elim header [ none ↦ from_peer | some h ↦ if h == "" then from_peer else lib.strip h ])
      else from_peer

  abbrev pub given_or : Option String → String → String
  given_or none default = default
  given_or (some s) default = or_default s default

  unfoldable pub make_room_id : String → Option String → Option String → String
  make_room_id prefix conversation_id client_id =
      let raw = or_default (lib.strip (given_or conversation_id "default")) "default" in
      let cleaned = lib.cut_room (or_default (lib.room_chars raw) "default") in
      let plain = prefix ++ ("-" ++ cleaned) in
      elim client_id [
        | none ↦ plain
        | some id ↦
            if id == "" then plain else prefix ++ ("-" ++ (lib.principal id ++ ("-" ++ cleaned)))
      ]
