-- ===== src/Examples/Tools.antt =====
-- The tools of a server with two agents.
use tri_onyx.Base.{[], ◌∷◌, some, ◌≡◌, refl}
use tri_onyx.Mcp.Tools.{ToolLibrary, register_tools}

abbrev plain_names : ToolLibrary
plain_names = record {
  tool_chars = λ s. s;
  strip = λ s. s;
  room_chars = λ s. s;
  cut_room = λ s. s;
  principal = λ s. s;
}

both_registered : register_tools plain_names ("main" ∷ "mail" ∷ []) [] ≡ some ("mail" ∷ "main" ∷ [])
unfolding register_tools
both_registered = refl
